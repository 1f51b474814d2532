-- ===== src/FacadePhraseIndex/Totals.antt =====
-- The sum of the frequencies that src/storage/phrase_index.h keeps over all libraries, when a
-- library refuses a change.
use libpinyin.Common.{
  ℕ, ◌+◌, ◌≡◌, ◌≢◌, refl, Bool, true, false, inl, inr, Option, none, some, get_elem?, Option-cases,
  ◌>>=◌, if◌then◌else◌,
}
use libpinyin.Common.Words.{add32, decode32, encode32}
use libpinyin.MemoryChunk.{MemoryChunk, get_content, set_content}
use libpinyin.SubPhraseIndex.{
  SubPhraseIndex, ErrorResult, error_ok, error_out_of_range, error_no_item, error_file_corruption,
  error_integer_overflow, add_frequency_at, slot_of,
}
use libpinyin.SubPhraseIndex as Sub
use libpinyin.FacadePhraseIndex.{
  FacadePhraseIndex, with_library, library_index, add_unigram_frequency,
}

-- A result that is not ERROR_OK comes with the index as it was.
abbrev Kept : SubPhraseIndex → Option (SubPhraseIndex × ErrorResult) → Type 0
Kept s o = (t : SubPhraseIndex) (e : ErrorResult) → o ≡ some (t, e) → e ≢ error_ok → t ≡ s

unchanged : (s : SubPhraseIndex) (e : ErrorResult) → Kept s (some (s, e))
unchanged s e t e' h bad = cc

accepted :
    (s : SubPhraseIndex) (u : Option MemoryChunk) (g : MemoryChunk → SubPhraseIndex)
    → Kept s (u >>= λ c. some (g c, error_ok))
accepted s none g t e h bad = cc
accepted s (some c) g t e h bad = absurd (bad cc)

refused_if :
    (s : SubPhraseIndex) (b : Bool) (e : ErrorResult) (rest : Option (SubPhraseIndex × ErrorResult))
    → Kept s rest
    → Kept s (if b then some (s, e) else rest)
refused_if s true e rest k = unchanged s e
refused_if s false e rest k = k

add_frequency_at-failed :
    (s : SubPhraseIndex) (offset delta : ℕ) → Kept s (add_frequency_at s offset delta)
unfolding add_frequency_at
add_frequency_at-failed s offset delta =
    elim (Option-cases (get_content s.phrase_content (offset + 1 + 1) 4)) [
      | inl n ↦ rw (n, add_frequency_at) (unchanged s error_file_corruption)
      | inr (bytes, n) ↦
          rw (n, add_frequency_at)
            (refused_if s _ error_integer_overflow _ (
              accepted s
                (set_content s.phrase_content (offset + 1 + 1)
                  (encode32 (add32 (decode32 bytes) delta)))
                (λ content. record s {
                  total_freq = add32 s.total_freq delta;
                  phrase_content = content;
                })))
    ]

add_unigram_frequency-failed :
    (s : SubPhraseIndex) (token delta : ℕ) → Kept s (Sub.add_unigram_frequency s token delta)
unfolding Sub.add_unigram_frequency
add_unigram_frequency-failed s token delta =
    elim (Option-cases (get_content s.phrase_index (slot_of token) 4)) [
      | inl n ↦ rw (n, Sub.add_unigram_frequency) (unchanged s error_out_of_range)
      | inr (bytes, n) ↦
          rw (n, Sub.add_unigram_frequency)
            (refused_if s _ error_no_item _ (add_frequency_at-failed s (decode32 bytes) delta))
    ]

-- When a library refuses to add a frequency, whatever the error, it stays as it was, and yet the
-- sum over the libraries goes up by the frequency that was not added.
pub add_unigram_frequency-refused :
    (f : FacadePhraseIndex) (s t : SubPhraseIndex) (token delta : ℕ) (e : ErrorResult)
    → get_elem? f.sub_phrase_indices (library_index token) ≡ some (some s)
    → Sub.add_unigram_frequency s token delta ≡ some (t, e)
    → e ≢ error_ok
    → add_unigram_frequency f token delta
      ≡ some (
        with_library
            (record f { total_freq = add32 f.total_freq delta })
            (library_index token)
            (some s),
        e,
      )
unfolding add_unigram_frequency
add_unigram_frequency-refused f s t token delta e loaded refused bad =
    rw (loaded, refused, add_unigram_frequency-failed s token delta t e refused bad) refl
