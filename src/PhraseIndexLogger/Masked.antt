-- ===== src/PhraseIndexLogger/Masked.antt =====
-- mask_out_phrase_index_logger of src/storage/phrase_index.cpp and its four parts: a log without the
-- records whose token matches a mask.
--
-- The size of the log bounds each loop, as a record takes at least eight bytes.
pub mod Abort
use libpinyin.Common.{
  ℕ, zero, suc, ◌+◌, bit_and, Bool, true, false, Option, none, some, ◌==◌, ltb, if◌then◌else◌,
  ◌>>=◌, assert,
}
use libpinyin.Common.Words.{encode32, decode32, add32, sub32}
use libpinyin.MemoryChunk.{MemoryChunk, empty_chunk, size, set_content, get_content}
use libpinyin.PhraseItem.{get_unigram_frequency}
use libpinyin.PhraseIndexLogger.{
  LogType, log_add_record, log_remove_record, log_modify_record, log_modify_header,
  log_invalid_record, null_token, PhraseIndexLogger, LogRecord, new_logger, has_next_record,
  next_record, append_record, rewind,
}

abbrev pub is_header : LogType → Bool
is_header log_modify_header = true
is_header _ = false

-- The number of header records and the frequency that the last of them had before.
unfoldable pub peek_loop :
    ℕ → PhraseIndexLogger → MemoryChunk → MemoryChunk → ℕ → ℕ → Option (PhraseIndexLogger × ℕ × ℕ)
unfolding has_next_record next_record get_content
peek_loop zero logger oldchunk newchunk count freq = some (logger, count, freq)
peek_loop (suc fuel) logger oldchunk newchunk count freq =
    if has_next_record logger
    then (next_record logger oldchunk newchunk >>= λ read. elim read.1 [
      | none ↦ some (read.0, count, freq)
      | some r ↦
          if is_header r.log_type
          then peek_loop fuel read.0 r.oldone r.newone (suc count)
              (elim (get_content r.oldone 0 4) [ none ↦ freq | some b ↦ decode32 b ])
          else peek_loop fuel read.0 r.oldone r.newone count freq
    ])
    else some (logger, count, freq)

unfoldable pub peek_header : PhraseIndexLogger → Option (PhraseIndexLogger × ℕ × Bool)
unfolding peek_loop size
peek_header logger = do
  (logger, count, freq) ← peek_loop (size logger.chunk) logger empty_chunk empty_chunk 0 0
  _ ← assert (ltb count 2)
  some (logger, freq, count == 1)

-- The frequency after one record that is kept.
unfoldable pub new_frequency : LogRecord → ℕ → Option ℕ
unfolding get_unigram_frequency size
new_frequency r freq = elim r.log_type [
  | log_add_record ↦ assert (size r.oldone == 0) >>= λ _.
      get_unigram_frequency r.newone >>= λ added. some (add32 freq added)
  | log_remove_record ↦ assert (size r.newone == 0) >>= λ _.
      get_unigram_frequency r.oldone >>= λ removed. some (sub32 freq removed)
  | log_modify_record ↦ get_unigram_frequency r.oldone >>= λ removed.
      get_unigram_frequency r.newone >>= λ added. some (add32 (sub32 freq removed) added)
  | log_modify_header ↦ none
  | log_invalid_record ↦ none
]

unfoldable pub compute_loop :
    ℕ → PhraseIndexLogger → MemoryChunk → MemoryChunk → ℕ → ℕ → ℕ → Option (PhraseIndexLogger × ℕ)
unfolding has_next_record next_record new_frequency
compute_loop zero logger oldchunk newchunk mask value freq = some (logger, freq)
compute_loop (suc fuel) logger oldchunk newchunk mask value freq =
    if has_next_record logger
    then (next_record logger oldchunk newchunk >>= λ read. elim read.1 [
      | none ↦ some (read.0, freq)
      | some r ↦
          if is_header r.log_type
          then compute_loop fuel read.0 r.oldone r.newone mask value freq
          else if bit_and r.token mask == value
          then compute_loop fuel read.0 r.oldone r.newone mask value freq
          else (new_frequency r freq >>= compute_loop fuel read.0 r.oldone r.newone mask value)
    ])
    else some (logger, freq)

unfoldable pub compute_new_header : PhraseIndexLogger → ℕ → ℕ → ℕ → Option (PhraseIndexLogger × ℕ)
unfolding compute_loop size
compute_new_header logger mask value freq =
    compute_loop (size logger.chunk) logger empty_chunk empty_chunk mask value freq

unfoldable pub write_header : PhraseIndexLogger → ℕ → ℕ → Option PhraseIndexLogger
unfolding set_content append_record
write_header logger old_total_freq new_total_freq = do
  oldheader ← set_content empty_chunk 0 (encode32 old_total_freq)
  newheader ← set_content empty_chunk 0 (encode32 new_total_freq)
  append_record logger log_modify_header null_token (some oldheader) (some newheader)

-- Both chunks are passed on for a record of every type.
unfoldable pub copy_loop :
    ℕ
    → PhraseIndexLogger
    → MemoryChunk
    → MemoryChunk
    → ℕ
    → ℕ
    → PhraseIndexLogger
    → Option PhraseIndexLogger
unfolding has_next_record next_record append_record
copy_loop zero oldlogger oldchunk newchunk mask value newlogger = some newlogger
copy_loop (suc fuel) oldlogger oldchunk newchunk mask value newlogger =
    if has_next_record oldlogger
    then (next_record oldlogger oldchunk newchunk >>= λ read. elim read.1 [
      | none ↦ some newlogger
      | some r ↦
          if is_header r.log_type
          then copy_loop fuel read.0 r.oldone r.newone mask value newlogger
          else if bit_and r.token mask == value
          then copy_loop fuel read.0 r.oldone r.newone mask value newlogger
          else (append_record newlogger r.log_type r.token (some r.oldone) (some r.newone)
              >>= copy_loop fuel read.0 r.oldone r.newone mask value)
    ])
    else some newlogger

unfoldable pub mask_out_records :
    PhraseIndexLogger → ℕ → ℕ → PhraseIndexLogger → Option PhraseIndexLogger
unfolding copy_loop size
mask_out_records oldlogger mask value newlogger =
    copy_loop (size oldlogger.chunk) oldlogger empty_chunk empty_chunk mask value newlogger

unfoldable pub mask_out_phrase_index_logger : PhraseIndexLogger → ℕ → ℕ → Option PhraseIndexLogger
unfolding new_logger peek_header rewind compute_new_header write_header mask_out_records
mask_out_phrase_index_logger oldlogger mask value = do
  (oldlogger, old_total_freq, has_header) ← peek_header oldlogger
  if has_header
      then (compute_new_header (rewind oldlogger) mask value old_total_freq >>= λ computed.
          write_header new_logger old_total_freq computed.1 >>= λ newlogger.
          mask_out_records (rewind computed.0) mask value newlogger)
      else some new_logger
