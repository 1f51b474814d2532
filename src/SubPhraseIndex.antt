-- ===== src/SubPhraseIndex.antt =====
-- SubPhraseIndex of src/storage/phrase_index.h and src/storage/phrase_index.cpp: the phrases of one
-- library, a table of offsets by token and the items at those offsets.
--
-- PHRASE_MASK keeps the low 24 bits of a token. A table_offset_t is a guint32. An item that
-- get_phrase_item gives lies in the memory of phrase_content; the model gives its bytes and the
-- offset where they lie. `none` is a failed assertion or memory outside of what is allocated.
pub mod Logs
pub mod Store
pub mod Load
pub mod Items
pub mod Removal
pub mod Others
use libpinyin.Common.{
  ℕ, zero, suc, ◌+◌, ◌-◌, ◌*◌, ◌/◌, ◌%◌, ◌^◌, bit_and, Bool, true, false, Option, none, some, List,
  [], ◌∷◌, ◌++◌, leb, ltb, ◌==◌, not, ◌&&◌, if◌then◌else◌, ◌>>=◌, length, take, drop, get_elem?,
}
use libpinyin.Common.Words.{encode32, decode32, add32, sub32, u32_mod}
use libpinyin.MemoryChunk.{
  MemoryChunk, empty_chunk, unmanaged, reset, size, set_size, set_chunk, set_content, get_content,
}
use libpinyin.PhraseIndexLogger.{contents}
use libpinyin.PhraseItem.{memory_at, new_phrase_item, get_unigram_frequency, phrase_item_header}

pub record SubPhraseIndex : Type 0 where
  pub total_freq : ℕ
  pub phrase_index : MemoryChunk
  pub phrase_content : MemoryChunk
  pub chunk : Option MemoryChunk

pub data ErrorResult : Type 0 where
  error_ok error_no_sub_phrase_index error_no_item error_out_of_range : ErrorResult
  error_file_corruption error_integer_overflow error_already_exists : ErrorResult

unfoldable pub new_sub_phrase_index : SubPhraseIndex
unfolding empty_chunk
new_sub_phrase_index = record {
  total_freq = 0;
  phrase_index = empty_chunk;
  phrase_content = empty_chunk;
  chunk = none;
}

-- (token & PHRASE_MASK) * sizeof(table_offset_t).
abbrev pub slot_of : ℕ → ℕ
slot_of token = token % 2 ^ 24 * 4

-- What get_phrase_item finds: an item with its place in phrase_content, or an error.
pub data Lookup : Type 0 where
  found : MemoryChunk → ℕ → Lookup
  failed : ErrorResult → Lookup

abbrev byte_of : List ℕ → ℕ
byte_of (b ∷ _) = b
byte_of [] = 0

unfoldable pub item_at : SubPhraseIndex → ℕ → Option Lookup
unfolding get_content memory_at
item_at s offset = elim (get_content s.phrase_content offset 1) [
  | none ↦ some (failed error_file_corruption)
  | some first ↦ elim (get_content s.phrase_content (offset + 1) 1) [
    | none ↦ some (failed error_file_corruption)
    | some second ↦ do
      let phrase_length = byte_of first
      let n_prons = byte_of second
      let len = phrase_item_header + phrase_length * 4 + n_prons * (phrase_length * 2 + 4)
      bytes ← memory_at s.phrase_content offset len
      some (found (record { buffer = bytes; data_end = len; free_func = unmanaged }) offset)
  ]
]

unfoldable pub get_phrase_item : SubPhraseIndex → ℕ → Option Lookup
unfolding get_content item_at
get_phrase_item s token = elim (get_content s.phrase_index (slot_of token) 4) [
  | none ↦ some (failed error_out_of_range)
  | some bytes ↦
      if decode32 bytes == 0 then some (failed error_no_item) else item_at s (decode32 bytes)
]

-- Behind the check of the offset.
unfoldable pub add_frequency_at : SubPhraseIndex → ℕ → ℕ → Option (SubPhraseIndex × ErrorResult)
unfolding get_content set_content
add_frequency_at s offset delta = elim (get_content s.phrase_content (offset + 1 + 1) 4) [
  | none ↦ some (s, error_file_corruption)
  | some bytes ↦
      if ltb 0 delta && ltb (add32 s.total_freq delta) s.total_freq
      then some (s, error_integer_overflow)
      else set_content s.phrase_content (offset + 1 + 1) (encode32 (add32 (decode32 bytes) delta))
        >>= λ content.
            some (
              record s { total_freq = add32 s.total_freq delta; phrase_content = content },
              error_ok,
            )
]

unfoldable pub add_unigram_frequency :
    SubPhraseIndex → ℕ → ℕ → Option (SubPhraseIndex × ErrorResult)
unfolding get_content add_frequency_at
add_unigram_frequency s token delta = elim (get_content s.phrase_index (slot_of token) 4) [
  | none ↦ some (s, error_out_of_range)
  | some bytes ↦
      if decode32 bytes == 0
      then some (s, error_no_item)
      else add_frequency_at s (decode32 bytes) delta
]

unfoldable pub add_phrase_item : SubPhraseIndex → ℕ → MemoryChunk → Option SubPhraseIndex
unfolding set_content get_unigram_frequency size
add_phrase_item s token item = do
  let offset = if size s.phrase_content == 0 then 8 else size s.phrase_content
  content ← set_content s.phrase_content offset (contents item)
  index ← set_content s.phrase_index (slot_of token) (encode32 (offset % u32_mod))
  freq ← get_unigram_frequency item
  some (record s {
    total_freq = add32 s.total_freq freq;
    phrase_index = index;
    phrase_content = content;
  })

-- The item removed is copied, for the caller to keep; a failed lookup gives none.
unfoldable pub remove_found :
    SubPhraseIndex → ℕ → MemoryChunk → Option (SubPhraseIndex × MemoryChunk)
unfolding set_content get_unigram_frequency new_phrase_item
remove_found s token old_item = do
  item ← new_phrase_item
  item ← set_content item 0 (contents old_item)
  index ← set_content s.phrase_index (slot_of token) (encode32 0)
  freq ← get_unigram_frequency item
  some (record s { total_freq = sub32 s.total_freq freq; phrase_index = index }, item)

unfoldable pub remove_phrase_item :
    SubPhraseIndex → ℕ → Option (SubPhraseIndex × ErrorResult × Option MemoryChunk)
unfolding get_phrase_item remove_found
remove_phrase_item s token = do
  result ← get_phrase_item s token
  elim result [
    | failed e ↦ some (s, e, none)
    | found old_item _ ↦ remove_found s token old_item >>= λ r. some (r.0, error_ok, some r.1)
  ]

-- c_separate, and the words of the header that SubPhraseIndex::load reads.
abbrev pub c_separate : ℕ
c_separate = 35

unfoldable pub word_at : MemoryChunk → ℕ → ℕ → ℕ
unfolding get_content
word_at c offset default = elim (get_content c offset 4) [ none ↦ default | some b ↦ decode32 b ]

unfoldable pub byte_at : MemoryChunk → ℕ → Option ℕ
byte_at c offset = get_elem? c.buffer offset

-- The two tables, once the separators are found.
unfoldable pub load_tables :
    SubPhraseIndex → MemoryChunk → ℕ → ℕ → ℕ → ℕ → Option (SubPhraseIndex × Bool)
unfolding memory_at set_chunk
load_tables s chunk index_one index_two index_three end = do
  index ← memory_at chunk index_one (sub32 (sub32 index_two 1) index_one)
  content ← memory_at chunk index_two (sub32 (sub32 index_three 1) index_two)
  phrase_index ← set_chunk s.phrase_index index unmanaged
  phrase_content ← set_chunk s.phrase_content content unmanaged
  some (
    record s { phrase_index = phrase_index; phrase_content = phrase_content },
    leb index_three end,
  )

-- The checks of the separators return FALSE where one is missing.
unfoldable pub check_separators :
    SubPhraseIndex → MemoryChunk → ℕ → ℕ → ℕ → ℕ → ℕ → Option (SubPhraseIndex × Bool)
unfolding load_tables byte_at
check_separators s chunk offset index_one index_two index_three end = do
  zeroth ← byte_at chunk offset
  first ← byte_at chunk (sub32 index_two 1)
  second ← byte_at chunk (sub32 index_three 1)
  if (zeroth == c_separate) && ((first == c_separate) && (second == c_separate))
      then load_tables s chunk index_one index_two index_three end
      else some (s, false)

unfoldable pub load : SubPhraseIndex → MemoryChunk → ℕ → ℕ → Option (SubPhraseIndex × Bool)
unfolding check_separators reset word_at
load s chunk offset end = do
  _ ← reset (elim s.chunk [ none ↦ empty_chunk | some c ↦ c ])
  check_separators (record s { total_freq = word_at chunk offset s.total_freq; chunk = some chunk })
      chunk (offset + 4 + 4 + 4 + 4) (word_at chunk (offset + 4) 0)
      (word_at chunk (offset + 4 + 4) 0) (word_at chunk (offset + 4 + 4 + 4) 0) end

-- The writes of store; the bytes of each table come with their number.
unfoldable pub store_tables : ℕ → MemoryChunk → ℕ → List ℕ → ℕ → List ℕ → ℕ → Option MemoryChunk
unfolding set_content
store_tables total_freq new_chunk offset index_bytes index_size content_bytes content_size = do
  c ← set_content new_chunk offset (encode32 total_freq)
  let index = offset + 4
  let offset1 = index + 4 * 3
  c ← set_content c offset1 (c_separate ∷ [])
  let offset2 = offset1 + 1
  c ← set_content c index (encode32 (offset2 % u32_mod))
  c ← set_content c offset2 index_bytes
  let offset3 = offset2 + index_size
  c ← set_content c offset3 (c_separate ∷ [])
  let offset4 = offset3 + 1
  c ← set_content c (index + 4) (encode32 (offset4 % u32_mod))
  c ← set_content c offset4 content_bytes
  let offset5 = offset4 + content_size
  c ← set_content c offset5 (c_separate ∷ [])
  set_content c (index + 4 + 4) (encode32 ((offset5 + 1) % u32_mod))

unfoldable pub store : SubPhraseIndex → MemoryChunk → ℕ → Option MemoryChunk
unfolding store_tables size
store s new_chunk offset =
    store_tables s.total_freq new_chunk offset (contents s.phrase_index) (size s.phrase_index)
      (contents s.phrase_content) (size s.phrase_content)

-- The number of entries of the table up to the last that is not zero, at least one.
unfoldable pub trim_zeros : MemoryChunk → ℕ → ℕ
trim_zeros index zero = 0
trim_zeros index (suc zero) = 1
trim_zeros index (suc (suc n)) =
    let rest = trim_zeros index (suc n) in
    if decode32 (take 4 (drop (suc n * 4) index.buffer)) == 0 then rest else suc (suc n)

-- The begin and the end of the tokens; the result is ERROR_OK in every case.
unfoldable pub get_range : SubPhraseIndex → ℕ × ℕ
unfolding size trim_zeros
get_range s =
    if size s.phrase_index == 0
    then (1, 1)
    else (1, trim_zeros s.phrase_index (size s.phrase_index / 4))

unfoldable pub mask_loop : SubPhraseIndex → ℕ → ℕ → ℕ → ℕ → Option SubPhraseIndex
unfolding remove_phrase_item
mask_loop s mask value token zero = some s
mask_loop s mask value token (suc n) =
    if bit_and token mask == value
    then (remove_phrase_item s token >>= λ r. mask_loop r.0 mask value (suc token) n)
    else mask_loop s mask value (suc token) n

unfoldable pub mask_out : SubPhraseIndex → ℕ → ℕ → Option SubPhraseIndex
unfolding get_range mask_loop
mask_out s mask value =
    let range = get_range s in
    mask_loop s (mask % 2 ^ 24) (value % 2 ^ 24) range.0 (range.1 - range.0)
