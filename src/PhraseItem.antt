-- ===== src/PhraseItem.antt =====
-- PhraseItem of src/storage/phrase_index.h and src/storage/phrase_index.cpp: one phrase of an
-- index, with its characters, its frequency and its pronunciations.
--
-- A PhraseItem is its only member, the chunk: a byte for the number of characters, a byte for the
-- number of pronunciations, four for the frequency, four for each character, and for each
-- pronunciation two for each key and four for a frequency. The bit-fields of a key are laid out
-- from the lowest bit. `none` is a failed assertion or an access outside of the allocated bytes.
use Prim.Native.Nat.{Ordering}
use libpinyin.Common.{
  ℕ, zero, suc, ◌+◌, ◌*◌, ◌/◌, ◌%◌, Bool, true, false, ◌&&◌, not, Option, none, some, List, [], ◌∷◌,
  ◌++◌, leb, ltb, ◌==◌, if◌then◌else◌, ◌>>=◌, length, take, drop, get_elem?, replicate, overwrite,
}
use libpinyin.Common.Words.{encode32, decode32, add32}
use libpinyin.MemoryChunk.{
  MemoryChunk, empty_chunk, size, set_size, set_content, get_content, remove_content,
}
use libpinyin.PinyinPhrase.{ChewingKey, pinyin_exact_compare2, pinyin_compare_with_tones}

abbrev pub phrase_item_header : ℕ
phrase_item_header = 6

-- A key in its two bytes.
unfoldable pub encode_key : ChewingKey → List ℕ
encode_key k =
    let word = k.initial + k.middle * 32 + k.final * 128 + k.tone * 4096 in
    word % 256 ∷ word / 256 ∷ []

unfoldable pub encode_keys : List ChewingKey → List ℕ
unfolding encode_key
encode_keys [] = []
encode_keys (k ∷ ks) = encode_key k ++ encode_keys ks

unfoldable pub decode_keys : List ℕ → List ChewingKey
decode_keys (a ∷ b ∷ bytes) =
    let word = a + b * 256 in
    record {
      initial = word % 32;
      middle = word / 32 % 4;
      final = word / 128 % 32;
      tone = word / 4096 % 8;
    }
    ∷ decode_keys bytes
decode_keys _ = []

-- An array of ucs4_t.
unfoldable pub encode_string : List ℕ → List ℕ
encode_string [] = []
encode_string (c ∷ cs) = encode32 c ++ encode_string cs

-- A read through a pointer into the memory of a chunk.
unfoldable pub memory_at : MemoryChunk → ℕ → ℕ → Option (List ℕ)
memory_at c offset len =
    if leb (offset + len) (length c.buffer) then some (take len (drop offset c.buffer)) else none

unfoldable pub new_phrase_item : Option MemoryChunk
unfolding set_size
new_phrase_item = do
  c ← set_size empty_chunk phrase_item_header
  some (record c { buffer = overwrite 0 (replicate phrase_item_header 0) c.buffer })

unfoldable pub get_phrase_length : MemoryChunk → Option ℕ
get_phrase_length c = get_elem? c.buffer 0

unfoldable pub get_n_pronunciation : MemoryChunk → Option ℕ
get_n_pronunciation c = get_elem? c.buffer 1

-- The template get_content asserts that the bytes are there.
unfoldable pub get_unigram_frequency : MemoryChunk → Option ℕ
unfolding get_content
get_unigram_frequency c = do bytes ← get_content c 2 4; some (decode32 bytes)

unfoldable pub set_n_pronunciation : MemoryChunk → ℕ → Option MemoryChunk
unfolding set_content
set_n_pronunciation c n_prouns = set_content c 1 (n_prouns % 256 ∷ [])

-- The inner `none` is the result false.
unfoldable pub get_phrase_string : MemoryChunk → Option (Option (List ℕ))
unfolding get_phrase_length get_content
get_phrase_string c = do
  phrase_length ← get_phrase_length c
  some (get_content c phrase_item_header (phrase_length * 4))

unfoldable pub set_phrase_string : MemoryChunk → ℕ → List ℕ → Option MemoryChunk
unfolding set_content encode_string
set_phrase_string c phrase_length phrase = do
  c ← set_content c 0 (phrase_length % 256 ∷ [])
  set_content c phrase_item_header (encode_string (take phrase_length phrase))

unfoldable pub get_nth_pronunciation : MemoryChunk → ℕ → Option (Option (List ChewingKey × ℕ))
unfolding get_phrase_length get_content decode_keys
get_nth_pronunciation c index = do
  phrase_length ← get_phrase_length c
  let offset = phrase_item_header + phrase_length * 4 + index * (phrase_length * 2 + 4)
  some (do
    keys ← get_content c offset (phrase_length * 2)
    freq ← get_content c (offset + phrase_length * 2) 4
    some (decode_keys keys, decode32 freq))

abbrev pub is_eq : Ordering → Bool
is_eq Ordering.eq = true
is_eq _ = false

-- How a search for a pronunciation ends.
pub data Search : Type 0 where
  not_found overflow : Search
  stored : MemoryChunk → Search

-- The loop of add_pronunciation over the pronunciations from `offset` on, `total_freq` counting
-- those passed.
unfoldable pub add_loop : MemoryChunk → List ChewingKey → ℕ → ℕ → ℕ → ℕ → ℕ → Option Search
unfolding memory_at decode_keys pinyin_exact_compare2
add_loop c keys phrase_length delta zero offset total_freq = some not_found
add_loop c keys phrase_length delta (suc n) offset total_freq = do
  bytes ← memory_at c offset (phrase_length * 2)
  word ← memory_at c (offset + phrase_length * 2) 4
  let freq = decode32 word
  let total = add32 total_freq freq
  let rest = add_loop c keys phrase_length delta n (offset + (phrase_length * 2 + 4)) total
  if is_eq (pinyin_exact_compare2 keys (decode_keys bytes) phrase_length)
      then if ltb 0 delta && ltb (add32 total delta) total
        then some overflow
        else some (
            stored (record c {
              buffer =
                  overwrite (offset + phrase_length * 2) (encode32 (add32 freq delta)) c.buffer;
            }))
      else rest

-- What add_pronunciation does after its loop; false where the total would overflow.
unfoldable pub finish_add :
    MemoryChunk → List ChewingKey → ℕ → ℕ → Search → Option (MemoryChunk × Bool)
unfolding set_n_pronunciation set_content encode_keys size
finish_add c keys npron delta overflow = some (c, false)
finish_add c keys npron delta (stored d) = some (d, true)
finish_add c keys npron delta not_found = do
  c ← set_n_pronunciation c (npron + 1)
  c ← set_content c (size c) (encode_keys keys)
  c ← set_content c (size c) (encode32 delta)
  some (c, true)

unfoldable pub add_pronunciation : MemoryChunk → List ChewingKey → ℕ → Option (MemoryChunk × Bool)
unfolding get_phrase_length get_n_pronunciation add_loop finish_add
add_pronunciation c keys delta = do
  phrase_length ← get_phrase_length c
  npron ← get_n_pronunciation c
  found ← add_loop c keys phrase_length delta npron (phrase_item_header + phrase_length * 4) 0
  finish_add c (take phrase_length keys) npron delta found

-- The number of pronunciations is a guint8, so that 0 - 1 is 255.
unfoldable pub remove_nth_pronunciation : MemoryChunk → ℕ → Option MemoryChunk
unfolding get_phrase_length get_n_pronunciation set_n_pronunciation remove_content
remove_nth_pronunciation c index = do
  phrase_length ← get_phrase_length c
  npron ← get_n_pronunciation c
  c ← set_n_pronunciation c (npron + 255)
  let offset = phrase_item_header + phrase_length * 4 + index * (phrase_length * 2 + 4)
  remove_content c offset (phrase_length * 2 + 4)

-- `delta` is a gint32 in two's complement. The loop goes on after a match.
unfoldable pub increase_loop :
    List ChewingKey → ℕ → ℕ → ℕ → ℕ → ℕ → MemoryChunk → Option MemoryChunk
unfolding memory_at decode_keys pinyin_compare_with_tones
increase_loop keys phrase_length delta zero offset total_freq c = some c
increase_loop keys phrase_length delta (suc n) offset total_freq c = do
  bytes ← memory_at c offset (phrase_length * 2)
  word ← memory_at c (offset + phrase_length * 2) 4
  let freq = decode32 word
  let total = add32 total_freq freq
  let changed = record c {
    buffer = overwrite (offset + phrase_length * 2) (encode32 (add32 freq delta)) c.buffer;
  }
  let matched = is_eq (pinyin_compare_with_tones keys (decode_keys bytes) phrase_length)
  let stop = ltb 0 delta && (ltb delta 2147483648 && ltb (add32 total delta) total)
  let rest =
      increase_loop keys phrase_length delta n (offset + (phrase_length * 2 + 4))
        (if matched then add32 total delta else total) (if matched then changed else c)
  if matched && stop then some c else rest

unfoldable pub increase_pronunciation_possibility :
    MemoryChunk → List ChewingKey → ℕ → Option MemoryChunk
unfolding get_phrase_length get_n_pronunciation increase_loop
increase_pronunciation_possibility c keys delta = do
  phrase_length ← get_phrase_length c
  npron ← get_n_pronunciation c
  increase_loop keys phrase_length delta npron (phrase_item_header + phrase_length * 4) 0 c

-- The matched and the total frequency of which get_pronunciation_possibility returns the
-- quotient, or 0 where the total is 0.
unfoldable pub possibility_loop : MemoryChunk → List ChewingKey → ℕ → ℕ → ℕ → ℕ → ℕ → Option (ℕ × ℕ)
unfolding memory_at decode_keys pinyin_compare_with_tones
possibility_loop c keys phrase_length zero offset matched total_freq = some (matched, total_freq)
possibility_loop c keys phrase_length (suc n) offset matched total_freq = do
  bytes ← memory_at c offset (phrase_length * 2)
  word ← memory_at c (offset + phrase_length * 2) 4
  let freq = decode32 word
  let matches = is_eq (pinyin_compare_with_tones keys (decode_keys bytes) phrase_length)
  possibility_loop c keys phrase_length n (offset + (phrase_length * 2 + 4))
      (if matches then add32 matched freq else matched) (add32 total_freq freq)

module _ {Float : Type 0} (zero_float : Float) (divide : ℕ → ℕ → Float) where
  unfoldable pub get_pronunciation_possibility : MemoryChunk → List ChewingKey → Option Float
  unfolding get_phrase_length get_n_pronunciation possibility_loop
  get_pronunciation_possibility c keys = do
    phrase_length ← get_phrase_length c
    npron ← get_n_pronunciation c
    (matched, total_freq) ←
        possibility_loop c keys phrase_length npron (phrase_item_header + phrase_length * 4) 0 0
    some (if total_freq == 0 then zero_float else divide matched total_freq)

abbrev pub same_bytes : List ℕ → List ℕ → Bool
same_bytes [] [] = true
same_bytes (x ∷ xs) (y ∷ ys) = (x == y) && same_bytes xs ys
same_bytes _ _ = false

-- operator ==, where the bytes up to each end are compared.
unfoldable pub same_item : MemoryChunk → MemoryChunk → Bool
unfolding size
same_item lhs rhs =
    if not (size lhs == size rhs)
    then false
    else same_bytes (take (size lhs) lhs.buffer) (take (size rhs) rhs.buffer)
