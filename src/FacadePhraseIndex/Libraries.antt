-- ===== src/FacadePhraseIndex/Libraries.antt =====
-- The operations of FacadePhraseIndex of src/storage/phrase_index.cpp on whole libraries: files, logs,
-- masks and compaction.
use libpinyin.Common.{
  ℕ, zero, suc, ◌-◌, ◌%◌, ◌^◌, bit_and, Bool, true, false, not, Option, none, some, List, [], ◌∷◌,
  ◌==◌, if◌then◌else◌, ◌>>=◌, get_elem?,
}
use libpinyin.Common.Words.{add32, sub32}
use libpinyin.MemoryChunk.{MemoryChunk, size}
use libpinyin.PhraseIndexLogger.{PhraseIndexLogger, new_logger}
use libpinyin.PhraseIndexLogger as Logger
use libpinyin.PhraseIndexLogger.Masked.{mask_out_phrase_index_logger}
use libpinyin.SubPhraseIndex.{
  SubPhraseIndex, new_sub_phrase_index, ErrorResult, error_ok, error_no_sub_phrase_index,
  error_already_exists, Lookup, failed, found,
}
use libpinyin.SubPhraseIndex as Sub
use libpinyin.SubPhraseIndex.Logs as Logs
use libpinyin.FacadePhraseIndex.{FacadePhraseIndex, with_library, created, library_index}

-- The sum is taken down before the library is read, and put up again where that succeeds.
unfoldable pub load : FacadePhraseIndex → ℕ → MemoryChunk → Option (FacadePhraseIndex × Bool)
unfolding Sub.load created size
load f phrase_index chunk = do
  old ← get_elem? f.sub_phrase_indices phrase_index
  let sub_phrases = created old
  (s, retval) ← Sub.load sub_phrases chunk 0 (size chunk)
  let lowered = sub32 f.total_freq sub_phrases.total_freq
  let total_freq = if retval then add32 lowered s.total_freq else lowered
  some (with_library (record f { total_freq = total_freq }) phrase_index (some s), retval)

-- The chunk written, or the result false.
unfoldable pub store : FacadePhraseIndex → ℕ → MemoryChunk → Option (Option MemoryChunk)
unfolding Sub.store
store f phrase_index new_chunk = do
  old ← get_elem? f.sub_phrase_indices phrase_index
  elim old [ none ↦ some none | some s ↦ Sub.store s new_chunk 0 >>= λ c. some (some c) ]

unfoldable pub unload : FacadePhraseIndex → ℕ → Option (FacadePhraseIndex × Bool)
unload f phrase_index = do
  old ← get_elem? f.sub_phrase_indices phrase_index
  elim old [
    | none ↦ some (f, false)
    | some s ↦ some (
      with_library (record f { total_freq = sub32 f.total_freq s.total_freq }) phrase_index none,
      true,
    )
  ]

-- The log written, or the result false.
unfoldable pub diff :
    FacadePhraseIndex → ℕ → MemoryChunk → MemoryChunk → Option (Option MemoryChunk)
unfolding Sub.load Logs.diff Logger.store new_logger new_sub_phrase_index size
diff f phrase_index oldchunk newlog = do
  old ← get_elem? f.sub_phrase_indices phrase_index
  elim old [
    | none ↦ some none
    | some s ↦ Sub.load new_sub_phrase_index oldchunk 0 (size oldchunk) >>= λ loaded.
        Logs.diff s loaded.0 new_logger >>= λ logger.
        Logger.store logger newlog >>= λ log. some (some log)
  ]

-- What merge and merge_with_mask do with the log to apply.
unfoldable pub merge_log :
    FacadePhraseIndex → ℕ → SubPhraseIndex → PhraseIndexLogger → Option (FacadePhraseIndex × Bool)
unfolding Logs.merge
merge_log f phrase_index s logger = do
  (merged, retval) ← Logs.merge s logger
  let total_freq = add32 (sub32 f.total_freq s.total_freq) merged.total_freq
  some (with_library (record f { total_freq = total_freq }) phrase_index (some merged), retval)

unfoldable pub merge : FacadePhraseIndex → ℕ → MemoryChunk → Option (FacadePhraseIndex × Bool)
unfolding merge_log Logger.load new_logger
merge f phrase_index log = do
  old ← get_elem? f.sub_phrase_indices phrase_index
  elim old [
    | none ↦ some (f, false)
    | some s ↦ Logger.load new_logger log >>= merge_log f phrase_index s
  ]

unfoldable pub merge_with_mask :
    FacadePhraseIndex → ℕ → MemoryChunk → ℕ → ℕ → Option (FacadePhraseIndex × Bool)
unfolding merge_log Logger.load new_logger mask_out_phrase_index_logger
merge_with_mask f phrase_index log mask value = do
  old ← get_elem? f.sub_phrase_indices phrase_index
  elim old [
    | none ↦ some (f, false)
    | some s ↦
        if not (bit_and phrase_index (library_index mask) == library_index value)
        then some (f, false)
        else (Logger.load new_logger log >>= λ oldlogger.
            mask_out_phrase_index_logger oldlogger (mask % 2 ^ 24) (value % 2 ^ 24)
            >>= merge_log f phrase_index s)
  ]

unfoldable pub mask_out : FacadePhraseIndex → ℕ → ℕ → ℕ → Option (FacadePhraseIndex × Bool)
unfolding Sub.mask_out
mask_out f phrase_index mask value = do
  old ← get_elem? f.sub_phrase_indices phrase_index
  elim old [
    | none ↦ some (f, false)
    | some s ↦
        if not (bit_and phrase_index (library_index mask) == library_index value)
        then some (f, false)
        else (Sub.mask_out s mask value >>= λ masked. some (
          with_library
              (record f { total_freq = add32 (sub32 f.total_freq s.total_freq) masked.total_freq })
              phrase_index (some masked),
          true,
        ))
  ]

-- The items of the tokens from `token` on, added to a new library.
unfoldable pub compact_loop : SubPhraseIndex → ℕ → ℕ → SubPhraseIndex → Option SubPhraseIndex
unfolding Sub.get_phrase_item Sub.add_phrase_item
compact_loop s token zero new_sub_phrase = some new_sub_phrase
compact_loop s token (suc n) new_sub_phrase = do
  result ← Sub.get_phrase_item s token
  next ← elim result [
    | failed _ ↦ some new_sub_phrase
    | found item _ ↦ Sub.add_phrase_item new_sub_phrase token item
  ]
  compact_loop s (suc token) n next

unfoldable pub compact_libraries :
    List (Option SubPhraseIndex) → Option (List (Option SubPhraseIndex))
unfolding compact_loop Sub.get_range new_sub_phrase_index
compact_libraries [] = some []
compact_libraries (none ∷ ss) = do rest ← compact_libraries ss; some (none ∷ rest)
compact_libraries (some s ∷ ss) = do
  let range = Sub.get_range s
  compacted ← compact_loop s range.0 (range.1 - range.0) new_sub_phrase_index
  rest ← compact_libraries ss
  some (some compacted ∷ rest)

unfoldable pub compact : FacadePhraseIndex → Option FacadePhraseIndex
unfolding compact_libraries
compact f = do
  ss ← compact_libraries f.sub_phrase_indices
  some (record f { sub_phrase_indices = ss })
