-- ===== src/SingleGram.antt =====
-- src/storage/ngram.cpp: the frequencies of the phrases that follow one phrase, sorted by token,
-- with their sum. The chunk holds the sum and behind it the items. A guint32 sum wraps. The
-- division of gfloat is a parameter, as is std::lower_bound.
pub mod Total
pub mod Refine
pub mod Mask
pub mod Lookup
pub mod Merge
use libpinyin.Common.{
  ℕ, zero, suc, ◌+◌, ◌-◌, ◌*◌, ◌%◌, Bool, true, false, Option, none, some, List, [], ◌∷◌, ◌++◌, map,
  ltb, ◌==◌, if◌then◌else◌, ◌>>=◌, length, take, overwrite, replicate, bit_and,
}
use mathlib.Core.Option
use libpinyin.Common.Words.{sub32, u32_mod, add32, encode32, decode32}
use libpinyin.MemoryChunk.{
  MemoryChunk, FreeFunc, unmanaged, empty_chunk, size, set_size, set_chunk, set_content,
  append_content, remove_content, get_content,
}
use libpinyin.Stl.{LowerBound}
use libpinyin.TokenArray.{
  Item, Layout, token_of, item_size, offset_of, encode_item, items, insert_loop, remove_loop,
  set_loop, get_loop, search_loop,
}
use libpinyin.TokenArray.Located.{from_bound}

-- struct SingleGramItem: the payload is m_freq.
abbrev pub SingleGramItem : Type 0
SingleGramItem = Item ℕ

abbrev pub freq_layout : Layout ℕ
freq_layout = record { width = 4; encode = encode32; decode = decode32 }

-- sizeof(guint32), where the items begin.
abbrev pub total_size : ℕ
total_size = 4

abbrev pub gram_items : MemoryChunk → List SingleGramItem
gram_items c = items freq_layout total_size c

-- The constructors.
unfoldable pub new_single_gram : Option MemoryChunk
unfolding set_size empty_chunk
new_single_gram = do
  c ← set_size empty_chunk total_size
  some (record c { buffer = overwrite 0 (replicate total_size 0) c.buffer })

unfoldable pub single_gram_of : List ℕ → Bool → Option MemoryChunk
unfolding set_content set_chunk empty_chunk
single_gram_of bytes copy =
    if copy then set_content empty_chunk 0 bytes else set_chunk empty_chunk bytes unmanaged

unfoldable pub get_total_freq : MemoryChunk → Option ℕ
unfolding get_content
get_total_freq c = Option.map decode32 (get_content c 0 4)

unfoldable pub set_total_freq : MemoryChunk → ℕ → Option MemoryChunk
unfolding set_content
set_total_freq c total = set_content c 0 (encode32 total)

-- An empty array asserts that the sum is zero.
unfoldable pub get_length : MemoryChunk → Option ℕ
unfolding get_total_freq
get_length c =
    let len = length (gram_items c) % u32_mod in
    let checked = get_total_freq c >>= λ total. if total == 0 then some len else none in
    if len == 0 then checked else some len

-- The loop of mask_out: at index `i`, with the items from there on, the sum and the count so far.
unfoldable pub mask_loop :
    ℕ → ℕ → MemoryChunk → ℕ → List SingleGramItem → ℕ → ℕ → Option (MemoryChunk × ℕ × ℕ)
unfolding remove_content
mask_loop mask value c i [] total removed = some (c, total, removed)
mask_loop mask value c i (x ∷ xs) total removed = elim (bit_and x.token mask == value) [
  | true ↦ remove_content c (offset_of freq_layout total_size i) (item_size freq_layout) >>= λ d.
      mask_loop mask value d i xs (sub32 total x.payload) (suc removed)
  | false ↦ mask_loop mask value c (suc i) xs total removed
]

-- The number of items removed.
unfoldable pub mask_out : MemoryChunk → ℕ → ℕ → Option (MemoryChunk × ℕ)
unfolding get_total_freq mask_loop set_total_freq
mask_out c mask value = do
  total ← get_total_freq c
  r ← mask_loop mask value c 0 (gram_items c) total 0
  d ← set_total_freq r.0 r.1
  some (d, r.2)

-- struct BigramPhraseItem and BigramPhraseItemWithCount.
pub record BigramPhraseItemWithCount (F : Type 0) : Type 0 where
  pub token : ℕ
  pub count : ℕ
  pub freq : F

pub record BigramPhraseItem (F : Type 0) : Type 0 where
  pub token : ℕ
  pub freq : F

module _ {F : Type 0} (quotient : ℕ → ℕ → F) where
  unfoldable pub retrieve_all : MemoryChunk → Option (List (BigramPhraseItemWithCount F))
  unfolding get_total_freq
  retrieve_all c = do
    total ← get_total_freq c
    some (
        map (λ x. record { token = x.token; count = x.payload; freq = quotient x.payload total })
          (gram_items c))

  unfoldable pub search :
      LowerBound {A = Item ℕ} token_of → MemoryChunk → ℕ → ℕ → Option (List (BigramPhraseItem F))
  unfolding get_total_freq search_loop
  search lb c range_begin range_end = do
    total ← get_total_freq c
    some (
        map (λ x. record { token = x.token; freq = quotient x.payload total })
          (search_loop (from_bound lb (gram_items c) range_begin) range_end))

-- `freq` is 0 where the result is false.
abbrev pub found_freq : Option ℕ → ℕ × Bool
found_freq none = (0, false)
found_freq (some freq) = (freq, true)

module _ (lb : LowerBound {A = Item ℕ} token_of) where
  unfoldable pub insert_freq : MemoryChunk → ℕ → ℕ → Option (MemoryChunk × Bool)
  unfolding insert_loop
  insert_freq c token freq =
      let xs = gram_items c in
      insert_loop freq_layout total_size c (lb.index xs token) (from_bound lb xs token)
        (record { token = token; payload = freq })

  unfoldable pub remove_freq : MemoryChunk → ℕ → Option (MemoryChunk × (ℕ × Bool))
  unfolding remove_loop
  remove_freq c token =
      let xs = gram_items c in
      remove_loop freq_layout total_size c (lb.index xs token) (from_bound lb xs token) token
      >>= λ r. some (r.0, found_freq r.1)

  unfoldable pub get_freq : MemoryChunk → ℕ → ℕ × Bool
  unfolding get_loop
  get_freq c token = found_freq (get_loop (from_bound lb (gram_items c) token) token)

  unfoldable pub set_freq : MemoryChunk → ℕ → ℕ → MemoryChunk × Bool
  unfolding set_loop
  set_freq c token freq =
      let xs = gram_items c in
      set_loop freq_layout total_size c (lb.index xs token) (from_bound lb xs token) token freq

-- The two-way merge, and what is left of either.
unfoldable pub append_all : MemoryChunk → List SingleGramItem → Option MemoryChunk
unfolding append_content encode_item
append_all m [] = some m
append_all m (x ∷ xs) = append_content m (encode_item freq_layout x) >>= λ d. append_all d xs

unfoldable pub merge_loop :
    MemoryChunk → List SingleGramItem → List SingleGramItem → Option MemoryChunk
unfolding append_all
merge_loop m [] ys = append_all m ys
merge_loop m (x ∷ xs) [] = append_all m (x ∷ xs)
merge_loop m (x ∷ xs) (y ∷ ys) =
    let merged_item : SingleGramItem = record {
      token = x.token;
      payload = add32 x.payload y.payload;
    } in
    elim (ltb x.token y.token) [
      | true ↦ append_content m (encode_item freq_layout x) >>= λ d. merge_loop d xs (y ∷ ys)
      | false ↦ elim (ltb y.token x.token) [
        | true ↦ append_content m (encode_item freq_layout y) >>= λ d. merge_loop d (x ∷ xs) ys
        | false ↦ append_content m (encode_item freq_layout merged_item) >>= λ d. merge_loop d xs ys
      ]
    ]

-- `none` for a null pointer; the chunk of `merged` afterwards and the result.
unfoldable pub merge_single_gram :
    MemoryChunk → Option MemoryChunk → Option MemoryChunk → Option (MemoryChunk × Bool)
unfolding set_size set_content get_total_freq merge_loop size
merge_single_gram merged none none = some (merged, false)
merge_single_gram merged none (some user) = do
  m ← set_size merged 0
  d ← set_content m 0 (take (size user) user.buffer)
  some (d, true)
merge_single_gram merged (some system) none = do
  m ← set_size merged 0
  d ← set_content m 0 (take (size system) system.buffer)
  some (d, true)
merge_single_gram merged (some system) (some user) = do
  m ← set_size merged 0
  m' ← set_size m total_size
  system_total ← get_total_freq system
  user_total ← get_total_freq user
  t ← set_content m' 0 (encode32 (add32 system_total user_total))
  d ← merge_loop t (gram_items system) (gram_items user)
  some (d, true)
