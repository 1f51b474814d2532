-- ===== src/FlexibleSingleGram.antt =====
-- src/storage/flexible_single_gram.h: the array sorted by token that the training tools use. The
-- types ArrayHeader and ArrayItem of the template enter by their sizes and encodings: `header_size`
-- is sizeof(ArrayHeader), and `layout` says how an ArrayItem lies in memory behind its token.
pub mod Refine
use libpinyin.Common.{
  ℕ, Bool, true, false, Option, none, some, List, ◌>>=◌, replicate, take, drop, overwrite,
}
use libpinyin.MemoryChunk.{MemoryChunk, empty_chunk, set_size}
use libpinyin.Stl.{LowerBound}
use libpinyin.TokenArray.{
  Item, Layout, token_of, items, insert_loop, remove_loop, set_loop, get_loop, search_loop,
}
use libpinyin.TokenArray.Located.{from_bound}

module _ (header_size : ℕ) where
  -- The constructor.
  unfoldable pub new_flexible_single_gram : Option MemoryChunk
  unfolding set_size empty_chunk
  new_flexible_single_gram = do
    c ← set_size empty_chunk header_size
    some (record c { buffer = overwrite 0 (replicate header_size 0) c.buffer })

  unfoldable pub get_array_header : MemoryChunk → List ℕ
  get_array_header c = take header_size c.buffer

  unfoldable pub set_array_header : MemoryChunk → List ℕ → MemoryChunk
  set_array_header c header = record c { buffer = overwrite 0 header c.buffer }

module _ {P : Type 0} (layout : Layout P) (header_size : ℕ) where
  unfoldable pub retrieve_all : MemoryChunk → List (Item P)
  retrieve_all c = items layout header_size c

  module _ (lb : LowerBound {A = Item P} token_of) where
    unfoldable pub search : MemoryChunk → ℕ → ℕ → List (Item P)
    unfolding search_loop
    search c range_begin range_end =
        search_loop (from_bound lb (items layout header_size c) range_begin) range_end

    unfoldable pub insert_array_item : MemoryChunk → ℕ → P → Option (MemoryChunk × Bool)
    unfolding insert_loop
    insert_array_item c token item =
        let xs = items layout header_size c in
        insert_loop layout header_size c (lb.index xs token) (from_bound lb xs token)
          (record { token = token; payload = item })

    -- The item removed; `none` for the result false, where the item given out is all zero.
    unfoldable pub remove_array_item : MemoryChunk → ℕ → Option (MemoryChunk × Option P)
    unfolding remove_loop
    remove_array_item c token =
        let xs = items layout header_size c in
        remove_loop layout header_size c (lb.index xs token) (from_bound lb xs token) token

    unfoldable pub get_array_item : MemoryChunk → ℕ → Option P
    unfolding get_loop
    get_array_item c token = get_loop (from_bound lb (items layout header_size c) token) token

    unfoldable pub set_array_item : MemoryChunk → ℕ → P → MemoryChunk × Bool
    unfolding set_loop
    set_array_item c token item =
        let xs = items layout header_size c in
        set_loop layout header_size c (lb.index xs token) (from_bound lb xs token) token item
