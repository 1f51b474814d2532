-- ===== src/TokenArray.antt =====
-- The array of items sorted by token that SingleGram (src/storage/ngram.cpp) and FlexibleSingleGram
-- (src/storage/flexible_single_gram.h) keep in a MemoryChunk, behind a header: the loops that both
-- classes write out. An item is a guint32 token followed by a payload.
pub mod Sorted
pub mod Bytes
pub mod Refine
pub mod Located
use libpinyin.Common.{
  ℕ, zero, suc, ◌+◌, ◌-◌, ◌*◌, ◌/◌, Bool, true, false, Option, none, some, List, [], ◌∷◌, ◌++◌, ltb,
  leb, ◌==◌, if◌then◌else◌, ◌>>=◌, take, drop, overwrite,
}
use libpinyin.Common.Words.{encode32, decode32}
use libpinyin.MemoryChunk.{MemoryChunk, size, insert_content, remove_content}
use libpinyin.Stl.{LowerBound}

-- struct SingleGramItem and the template ArrayItemWithToken.
pub record Item (P : Type 0) : Type 0 where
  pub token : ℕ
  pub payload : P

-- How a payload lies in memory.
pub record Layout (P : Type 0) : Type 0 where
  pub width : ℕ
  pub encode : P → List ℕ
  pub decode : List ℕ → P

module _ {P : Type 0} where
  abbrev pub token_of : Item P → ℕ
  token_of x = x.token

  unfoldable pub get_loop : List (Item P) → ℕ → Option P
  get_loop [] token = none
  get_loop (x ∷ xs) token =
      if ltb token x.token
      then none
      else if x.token == token
      then some x.payload
      else get_loop xs token

  -- The items below the end of the range.
  unfoldable pub search_loop : List (Item P) → ℕ → List (Item P)
  search_loop [] range_end = []
  search_loop (x ∷ xs) range_end =
      if leb range_end x.token then [] else x ∷ search_loop xs range_end

module _ {P : Type 0} (layout : Layout P) where
  -- sizeof of the item.
  abbrev pub item_size : ℕ
  item_size = 4 + layout.width

  unfoldable pub encode_item : Item P → List ℕ
  encode_item x = encode32 x.token ++ layout.encode x.payload

  unfoldable pub decode_item : List ℕ → Item P
  decode_item bytes = record {
    token = decode32 (take 4 bytes);
    payload = layout.decode (take layout.width (drop 4 bytes));
  }

  unfoldable pub decode_items : ℕ → List ℕ → List (Item P)
  unfolding decode_item
  decode_items zero bytes = []
  decode_items (suc n) bytes =
      decode_item (take item_size bytes) ∷ decode_items n (drop item_size bytes)

  module _ (header : ℕ) where
    -- The items from `begin` to `end`, as pointers into the chunk see them.
    unfoldable pub items : MemoryChunk → List (Item P)
    unfolding decode_items size
    items c = decode_items ((size c - header) / item_size) (drop header (take (size c) c.buffer))

    -- The offset of the item at an index.
    abbrev pub offset_of : ℕ → ℕ
    offset_of i = header + item_size * i

    -- The loops run from the item at index `i`, with `xs` the items from there to `end`.
    unfoldable pub insert_loop :
        MemoryChunk → ℕ → List (Item P) → Item P → Option (MemoryChunk × Bool)
    unfolding encode_item size
    insert_loop c i [] item = do d ← insert_content c (size c) (encode_item item); some (d, true)
    insert_loop c i (x ∷ xs) item =
        if ltb item.token x.token
        then insert_content c (offset_of i) (encode_item item) >>= (λ d. some (d, true))
        else if x.token == item.token
        then some (c, false)
        else insert_loop c (suc i) xs item

    -- The payload of the item removed, or `none` for the result false.
    unfoldable pub remove_loop :
        MemoryChunk → ℕ → List (Item P) → ℕ → Option (MemoryChunk × Option P)
    remove_loop c i [] token = some (c, none)
    remove_loop c i (x ∷ xs) token =
        if ltb token x.token
        then some (c, none)
        else if x.token == token
        then remove_content c (offset_of i) item_size >>= (λ d. some (d, some x.payload))
        else remove_loop c (suc i) xs token

    -- The payload is written in place.
    unfoldable pub set_loop : MemoryChunk → ℕ → List (Item P) → ℕ → P → MemoryChunk × Bool
    set_loop c i [] token payload = (c, false)
    set_loop c i (x ∷ xs) token payload =
        if ltb token x.token
        then (c, false)
        else if x.token == token
        then (
          record c { buffer = overwrite (offset_of i + 4) (layout.encode payload) c.buffer },
          true,
        )
        else set_loop c (suc i) xs token payload
