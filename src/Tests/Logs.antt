-- ===== src/Tests/Logs.antt =====
-- src/storage/phrase_index_logger.h and src/storage/phrase_index.cpp on small logs and indexes.
use libpinyin.Common.{
  ℕ, ◌≡◌, refl, true, false, none, some, Option, List, [], ◌∷◌, ◌++◌, arith, length, inl, ◌>>=◌,
}
use libpinyin.Common.Words.{encode32}
use libpinyin.MemoryChunk.{MemoryChunk, empty_chunk, unmanaged, reset, size}
use libpinyin.MemoryChunk.Growth.{Holds}
use libpinyin.MemoryChunk.Reads.{Reads}
use libpinyin.PhraseIndexLogger.{
  PhraseIndexLogger, log_add_record, log_modify_record, append_record, next_record, new_logger,
  rewind,
}
use libpinyin.PhraseIndexLogger.Changes.{Change, added, modified, encode_change}
use libpinyin.PhraseIndexLogger.Append.{empty_chunk-Holds, append_record-Holds}
use libpinyin.PhraseIndexLogger.Next.{next_record-Reads}
use libpinyin.PhraseIndexLogger.RoundTrip.{
  Logged, append_changes, ReadsBack, append_changes-ReadsBack,
}
use libpinyin.PhraseIndexLogger.Masked.{mask_out_records}
use libpinyin.PhraseIndexLogger.Masked.Abort.{mask_out_records-aborts}
use libpinyin.SubPhraseIndex.{
  SubPhraseIndex, ErrorResult, error_ok, error_out_of_range, new_sub_phrase_index, add_phrase_item,
  store, load,
}
use libpinyin.SubPhraseIndex as Sub
use libpinyin.SubPhraseIndex.Load.{load-store}
use libpinyin.SubPhraseIndex.Logs.{diff, merge}
use libpinyin.FacadePhraseIndex.{FacadePhraseIndex, with_library, add_unigram_frequency}
use libpinyin.FacadePhraseIndex.Totals.{add_unigram_frequency-refused}
use libpinyin.Tests.Chunk.{three_bytes, borrowed, borrowed-Holds}

abbrev old_log : PhraseIndexLogger
old_log = record { chunk = borrowed; offset = 0; error = false }

append_record-Holds_example :
    (d : MemoryChunk) × (append_record old_log log_add_record 5 none (some borrowed)
      ≡ some (record old_log { chunk = d }))
    × Holds d (three_bytes ++ encode_change (added 5 three_bytes))
append_record-Holds_example =
    append_record-Holds old_log (added 5 three_bytes) borrowed borrowed three_bytes (omega arith)
      borrowed-Holds tt borrowed-Holds

-- A log that holds the bytes, with the reading at their begin.
abbrev log_of : List ℕ → PhraseIndexLogger
log_of bytes = record {
  chunk = record { buffer = bytes; data_end = length bytes; free_func = unmanaged };
  offset = 0;
  error = false;
}

abbrev changed : Change
changed = modified 5 (1 ∷ []) (2 ∷ 3 ∷ [])

abbrev changed_log : PhraseIndexLogger
changed_log = log_of (encode_change changed ++ (9 ∷ []))

changed_log-Reads : Reads changed_log.chunk 0 (encode_change changed ++ (9 ∷ []))
changed_log-Reads = record {
  all = encode_change changed ++ (9 ∷ []);
  holds = record { fits = omega arith; releasable = λ e. cc; content = refl };
  inside = omega arith;
  from_here = refl;
}

next_record-Reads_example :
    (older newer : MemoryChunk) × (k : ℕ) × (next_record changed_log borrowed borrowed
      ≡ some (
        record changed_log { offset = k },
        some (record { log_type = log_modify_record; token = 5; oldone = older; newone = newer }),
      ))
    × Holds older (1 ∷ [])
    × Holds newer (2 ∷ 3 ∷ [])
    × Reads changed_log.chunk k (9 ∷ [])
next_record-Reads_example =
    next_record-Reads changed_log changed borrowed borrowed three_bytes three_bytes (9 ∷ [])
      (omega arith) changed_log-Reads borrowed-Holds borrowed-Holds

abbrev broken_log : PhraseIndexLogger
broken_log = log_of (encode32 9)

-- A record of no known type.
next_record-run :
    next_record broken_log borrowed borrowed ≡ some (record broken_log { error = true }, none)
unfolding next_record
next_record-run = refl

-- An item of three bytes, and its change to none.
abbrev two_changes : List Logged
two_changes =
    record { change = added 5 three_bytes; oldone = borrowed; newone = borrowed }
    ∷ record { change = modified 5 three_bytes []; oldone = borrowed; newone = empty_chunk }
    ∷ []

-- A log without records that stands behind its end.
abbrev moved_log : PhraseIndexLogger
moved_log = record { chunk = empty_chunk; offset = 7; error = false }

append_changes-ReadsBack_example :
    (l : PhraseIndexLogger) × (append_changes moved_log two_changes ≡ some l)
    × ReadsBack (rewind l) borrowed borrowed (added 5 three_bytes ∷ modified 5 three_bytes [] ∷ [])
append_changes-ReadsBack_example =
    append_changes-ReadsBack moved_log two_changes borrowed borrowed three_bytes three_bytes refl
      empty_chunk-Holds
      ((omega arith, tt, borrowed-Holds), ((omega arith, borrowed-Holds, empty_chunk-Holds), tt))
      borrowed-Holds borrowed-Holds

abbrev added_log : PhraseIndexLogger
added_log = log_of (encode_change (added 5 three_bytes))

added_log-Reads : Reads added_log.chunk 0 (encode_change (added 5 three_bytes) ++ [])
added_log-Reads = record {
  all = encode_change (added 5 three_bytes);
  holds = record { fits = omega arith; releasable = λ e. cc; content = refl };
  inside = omega arith;
  from_here = refl;
}

mask_out_records-aborts_example : mask_out_records added_log 1 0 old_log ≡ none
mask_out_records-aborts_example =
    mask_out_records-aborts added_log old_log 5 1 0 three_bytes [] (added 5 three_bytes) (inl refl)
      (omega arith) added_log-Reads refl refl

abbrev small_index : SubPhraseIndex
small_index = record {
  total_freq = 10;
  phrase_index = borrowed;
  phrase_content = borrowed;
  chunk = none;
}

reset_empty : reset empty_chunk ≡ some empty_chunk
unfolding reset empty_chunk
reset_empty = refl

load-store_example :
    (c : MemoryChunk) × (t : SubPhraseIndex) × (store small_index empty_chunk 0 ≡ some c)
    × (load small_index c 0 (size c) ≡ some (t, true))
    × (t.total_freq ≡ 10)
    × Holds t.phrase_index three_bytes
    × Holds t.phrase_content three_bytes
load-store_example =
    load-store small_index small_index empty_chunk three_bytes three_bytes borrowed-Holds
      borrowed-Holds empty_chunk-Holds (omega arith) (omega arith) reset_empty (λ e. cc) (λ e. cc)

abbrev small_facade : FacadePhraseIndex
small_facade = record { total_freq = 10; sub_phrase_indices = some small_index ∷ [] }

small_index_refuses :
    Sub.add_unigram_frequency small_index 1 7 ≡ some (small_index, error_out_of_range)
unfolding Sub.add_unigram_frequency
small_index_refuses = refl

add_unigram_frequency-refused_example :
    add_unigram_frequency small_facade 1 7
    ≡ some (
      with_library (record small_facade { total_freq = 17 }) 0 (some small_index),
      error_out_of_range,
    )
add_unigram_frequency-refused_example =
    add_unigram_frequency-refused small_facade small_index small_index 1 7 error_out_of_range refl
      small_index_refuses (λ e. cc)

-- An item with no characters, no pronunciations and the frequency 5, added to an empty index, and
-- the difference from the empty index merged into an empty index: the two sums.
abbrev new_item : MemoryChunk
new_item = record { buffer = 0 ∷ 0 ∷ 5 ∷ 0 ∷ 0 ∷ 0 ∷ []; data_end = 6; free_func = unmanaged }

unfoldable sums : Option (ℕ × ℕ)
unfolding new_sub_phrase_index new_logger add_phrase_item diff merge
sums = do
  s ← add_phrase_item new_sub_phrase_index 1 new_item
  logger ← diff s new_sub_phrase_index new_logger
  merged ← merge new_sub_phrase_index logger
  some (s.total_freq, merged.0.total_freq)

sums_differ : sums ≡ some (5, 10)
unfolding sums
sums_differ = refl
