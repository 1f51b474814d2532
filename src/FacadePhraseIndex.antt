-- ===== src/FacadePhraseIndex.antt =====
-- FacadePhraseIndex of src/storage/phrase_index.h and src/storage/phrase_index.cpp: the sixteen
-- libraries of phrases, and the sum of their frequencies.
--
-- A library that is not loaded is a null pointer, here `none`. `none` of an operation is a failed
-- assertion, a library number above fifteen, or memory outside of what is allocated.
pub mod Libraries
pub mod Totals
use libpinyin.Common.{
  ℕ, zero, suc, ◌+◌, ◌-◌, ◌*◌, ◌/◌, ◌%◌, ◌^◌, bit_and, Bool, true, false, not, Option, none, some,
  List, [], ◌∷◌, ◌==◌, if◌then◌else◌, ◌>>=◌, length, replicate, overwrite, get_elem?, min, max,
}
use libpinyin.Common.Words.{add32, sub32}
use libpinyin.MemoryChunk.{MemoryChunk, size}
use libpinyin.PhraseIndexLogger.{PhraseIndexLogger, new_logger}
use libpinyin.PhraseIndexLogger as Logger
use libpinyin.PhraseIndexLogger.Masked.{mask_out_phrase_index_logger}
use libpinyin.PhraseItem.{get_unigram_frequency}
use libpinyin.SubPhraseIndex.{
  SubPhraseIndex, new_sub_phrase_index, ErrorResult, error_ok, error_no_sub_phrase_index,
  error_already_exists, Lookup, failed, found,
}
use libpinyin.SubPhraseIndex as Sub
use libpinyin.SubPhraseIndex.Logs as Logs

pub record FacadePhraseIndex : Type 0 where
  pub total_freq : ℕ
  pub sub_phrase_indices : List (Option SubPhraseIndex)

abbrev pub phrase_index_library_count : ℕ
phrase_index_library_count = 16

-- PHRASE_INDEX_LIBRARY_INDEX.
abbrev pub library_index : ℕ → ℕ
library_index token = token / 2 ^ 24 % 16

-- PHRASE_INDEX_MAKE_TOKEN. The parts do not overlap, so the `|` of the source is a sum.
abbrev pub make_token : ℕ → ℕ → ℕ
make_token phrase_index token = phrase_index % 16 * 2 ^ 24 + token % 2 ^ 24

unfoldable pub new_facade_phrase_index : FacadePhraseIndex
new_facade_phrase_index = record {
  total_freq = 0;
  sub_phrase_indices = replicate phrase_index_library_count none;
}

abbrev pub with_library : FacadePhraseIndex → ℕ → Option SubPhraseIndex → FacadePhraseIndex
with_library f i s = record f { sub_phrase_indices = overwrite i (s ∷ []) f.sub_phrase_indices }

unfoldable pub created : Option SubPhraseIndex → SubPhraseIndex
unfolding new_sub_phrase_index
created none = new_sub_phrase_index
created (some s) = s

-- The lowest and the highest number of a library that is loaded; 16 and 0 when none is.
unfoldable pub sub_phrase_range : ℕ → List (Option SubPhraseIndex) → ℕ → ℕ → ℕ × ℕ
sub_phrase_range i [] min_index max_index = (min_index, max_index)
sub_phrase_range i (none ∷ ss) min_index max_index = sub_phrase_range (suc i) ss min_index max_index
sub_phrase_range i (some _ ∷ ss) min_index max_index =
    sub_phrase_range (suc i) ss (min min_index i) (max max_index i)

unfoldable pub get_sub_phrase_range : FacadePhraseIndex → ℕ × ℕ
unfolding sub_phrase_range
get_sub_phrase_range f = sub_phrase_range 0 f.sub_phrase_indices phrase_index_library_count 0

-- The range as tokens, or ERROR_NO_SUB_PHRASE_INDEX where there is none.
unfoldable pub get_range : FacadePhraseIndex → ℕ → Option (Option (ℕ × ℕ))
unfolding Sub.get_range
get_range f phrase_index = do
  old ← get_elem? f.sub_phrase_indices phrase_index
  elim old [
    | none ↦ some none
    | some s ↦
        let range = Sub.get_range s in
        some (some (make_token phrase_index range.0, make_token phrase_index range.1))
  ]

-- The sum goes up before the library is asked.
unfoldable pub add_unigram_frequency :
    FacadePhraseIndex → ℕ → ℕ → Option (FacadePhraseIndex × ErrorResult)
unfolding Sub.add_unigram_frequency
add_unigram_frequency f token delta = do
  old ← get_elem? f.sub_phrase_indices (library_index token)
  elim old [
    | none ↦ some (f, error_no_sub_phrase_index)
    | some s ↦ Sub.add_unigram_frequency s token delta >>= λ r. some (
      with_library (record f { total_freq = add32 f.total_freq delta }) (library_index token)
          (some r.0),
      r.1,
    )
  ]

unfoldable pub get_phrase_item : FacadePhraseIndex → ℕ → Option Lookup
unfolding Sub.get_phrase_item
get_phrase_item f token = do
  old ← get_elem? f.sub_phrase_indices (library_index token)
  elim old [ none ↦ some (failed error_no_sub_phrase_index) | some s ↦ Sub.get_phrase_item s token ]

unfoldable pub add_phrase_item : FacadePhraseIndex → ℕ → MemoryChunk → Option FacadePhraseIndex
unfolding Sub.add_phrase_item get_unigram_frequency created
add_phrase_item f token item = do
  old ← get_elem? f.sub_phrase_indices (library_index token)
  freq ← get_unigram_frequency item
  s ← Sub.add_phrase_item (created old) token item
  some (
      with_library (record f { total_freq = add32 f.total_freq freq }) (library_index token)
        (some s))

-- After a library has removed the item.
unfoldable pub removed_from :
    FacadePhraseIndex
    → ℕ
    → SubPhraseIndex
    → ErrorResult
    → Option MemoryChunk
    → Option (FacadePhraseIndex × ErrorResult × Option MemoryChunk)
unfolding get_unigram_frequency
removed_from f token s result none = some (f, result, none)
removed_from f token s result (some item) = do
  freq ← get_unigram_frequency item
  some (
    with_library (record f { total_freq = sub32 f.total_freq freq }) (library_index token) (some s),
    result,
    some item,
  )

unfoldable pub remove_phrase_item :
    FacadePhraseIndex → ℕ → Option (FacadePhraseIndex × ErrorResult × Option MemoryChunk)
unfolding Sub.remove_phrase_item removed_from
remove_phrase_item f token = do
  old ← get_elem? f.sub_phrase_indices (library_index token)
  elim old [
    | none ↦ some (f, error_no_sub_phrase_index, none)
    | some s ↦ Sub.remove_phrase_item s token >>= λ r. removed_from f token r.0 r.1 r.2
  ]

unfoldable pub create_sub_phrase : FacadePhraseIndex → ℕ → Option (FacadePhraseIndex × ErrorResult)
unfolding new_sub_phrase_index
create_sub_phrase f index = do
  old ← get_elem? f.sub_phrase_indices index
  elim old [
    | none ↦ some (with_library f index (some new_sub_phrase_index), error_ok)
    | some _ ↦ some (f, error_already_exists)
  ]
