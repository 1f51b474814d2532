-- ===== src/SubPhraseIndex/Logs.antt =====
-- SubPhraseIndex::diff and SubPhraseIndex::merge of src/storage/phrase_index.cpp: what changed
-- between two indexes as a log, and a log applied to an index.
--
-- A record takes at least eight bytes, so a log has no more records than bytes, and the size of the
-- log bounds the loop of merge.
use libpinyin.Common.{
  ℕ, zero, suc, ◌-◌, Bool, true, false, Option, none, some, List, ◌==◌, ltb, not, if◌then◌else◌,
  ◌>>=◌, assert, min, max, overwrite,
}
use libpinyin.Common.Words.{encode32}
use libpinyin.MemoryChunk.{MemoryChunk, empty_chunk, size, set_content}
use libpinyin.PhraseIndexLogger.{
  LogType, log_add_record, log_remove_record, log_modify_record, log_modify_header,
  log_invalid_record, null_token, PhraseIndexLogger, LogRecord, contents, has_next_record,
  next_record, append_record,
}
use libpinyin.PhraseItem.{new_phrase_item, same_item}
use libpinyin.SubPhraseIndex.{
  SubPhraseIndex, Lookup, found, failed, get_phrase_item, add_phrase_item, remove_phrase_item,
  get_range, word_at,
}

-- The bytes of a guint32 in a chunk of their own.
unfoldable pub header_chunk : ℕ → Option MemoryChunk
unfolding set_content
header_chunk total_freq = set_content empty_chunk 0 (encode32 total_freq)

-- The four cases of diff for one token.
unfoldable pub diff_token : PhraseIndexLogger → ℕ → Lookup → Lookup → Option PhraseIndexLogger
unfolding append_record same_item
diff_token logger token (found olditem _) (found newitem _) =
    if same_item olditem newitem
    then some logger
    else append_record logger log_modify_record token (some olditem) (some newitem)
diff_token logger token (found olditem _) (failed _) =
    append_record logger log_remove_record token (some olditem) none
diff_token logger token (failed _) (found newitem _) =
    append_record logger log_add_record token none (some newitem)
diff_token logger token (failed _) (failed _) = some logger

unfoldable pub diff_loop :
    SubPhraseIndex → SubPhraseIndex → PhraseIndexLogger → ℕ → ℕ → Option PhraseIndexLogger
unfolding get_phrase_item diff_token
diff_loop s oldone logger token zero = some logger
diff_loop s oldone logger token (suc n) = do
  olditem ← get_phrase_item oldone token
  newitem ← get_phrase_item s token
  logger ← diff_token logger token olditem newitem
  diff_loop s oldone logger (suc token) n

unfoldable pub diff : SubPhraseIndex → SubPhraseIndex → PhraseIndexLogger → Option PhraseIndexLogger
unfolding header_chunk append_record get_range diff_loop
diff s oldone logger = do
  oldheader ← header_chunk oldone.total_freq
  newheader ← header_chunk s.total_freq
  logger ← append_record logger log_modify_header null_token (some oldheader) (some newheader)
  let oldrange = get_range oldone
  let currange = get_range s
  let range_begin = min oldrange.0 currange.0
  let range_end = max oldrange.1 currange.1
  diff_loop s oldone logger range_begin (range_end - range_begin)

-- The index, the item that get_phrase_item gave last with its place in the index, and whether to
-- go on.
pub record Merging : Type 0 where
  pub index : SubPhraseIndex
  pub item : MemoryChunk
  pub place : Option ℕ
  pub going : Bool

abbrev looked_up : SubPhraseIndex → MemoryChunk → Option ℕ → Lookup → Merging
looked_up s item place (found newer offset) = record {
  index = s;
  item = newer;
  place = some offset;
  going = true;
}
looked_up s item place (failed _) = record { index = s; item = item; place = place; going = true }

-- memmove to the bytes of the item: its own memory while no item was found before, else the
-- memory of the index, which the item shares.
unfoldable pub edit_in_place : Merging → List ℕ → Merging
edit_in_place m bytes =
    let item = record m.item { buffer = overwrite 0 bytes m.item.buffer } in
    elim m.place [
      | none ↦ record m { item = item }
      | some offset ↦ record m {
        item = item;
        index = record m.index {
          phrase_content = record m.index.phrase_content {
            buffer = overwrite offset bytes m.index.phrase_content.buffer;
          };
        };
      }
    ]

-- The case of a changed item.
unfoldable pub merge_modify : Merging → LogRecord → Option Merging
unfolding get_phrase_item add_phrase_item remove_phrase_item same_item edit_in_place size
merge_modify m r = do
  result ← get_phrase_item m.index r.token
  let m = looked_up m.index m.item m.place result
  if not (same_item m.item r.oldone)
      then some (record m { going = false })
      else if ltb (size m.item) (size r.newone)
      then (remove_phrase_item m.index r.token >>= λ removed. removed.2 >>= λ tmpitem.
          assert (same_item r.oldone tmpitem) >>= λ _.
          add_phrase_item removed.0 r.token r.newone >>= λ s. some (record m { index = s }))
      else some (edit_in_place m (contents r.newone))

-- The cases of the switch; a null item that is compared is `none`.
unfoldable pub merge_record : LogType → Merging → LogRecord → Option Merging
unfolding merge_modify remove_phrase_item add_phrase_item same_item size word_at
merge_record log_add_record m r = do
  _ ← assert (size r.oldone == 0)
  s ← add_phrase_item m.index r.token r.newone
  some (record m { index = s })
merge_record log_remove_record m r = do
  _ ← assert (size r.newone == 0)
  (s, _, removed) ← remove_phrase_item m.index r.token
  tmpitem ← removed
  some (record m { index = s; going = same_item r.oldone tmpitem })
merge_record log_modify_record m r = merge_modify m r
merge_record log_modify_header m r = do
  _ ← assert (r.token == null_token)
  _ ← assert (size r.oldone == size r.newone)
  if m.index.total_freq == word_at r.oldone 0 0
      then some (record m {
        index = record m.index { total_freq = word_at r.newone 0 (word_at r.oldone 0 0) };
      })
      else some (record m { going = false })
merge_record log_invalid_record m r = none

-- How the loop ends: with the index and the result of merge, and with the log read so far.
unfoldable pub merge_loop :
    ℕ → Merging → PhraseIndexLogger → MemoryChunk → MemoryChunk → Option (SubPhraseIndex × Bool)
unfolding has_next_record next_record merge_record
merge_loop zero m logger oldchunk newchunk = some (m.index, true)
merge_loop (suc fuel) m logger oldchunk newchunk =
    if has_next_record logger
    then (next_record logger oldchunk newchunk >>= λ read. elim read.1 [
      | none ↦ some (m.index, true)
      | some r ↦ merge_record r.log_type m r >>= λ next.
          (let rest = merge_loop fuel next read.0 r.oldone r.newone in
            if next.going then rest else some (next.index, false))
    ])
    else some (m.index, true)

unfoldable pub merge : SubPhraseIndex → PhraseIndexLogger → Option (SubPhraseIndex × Bool)
unfolding merge_loop new_phrase_item size
merge s logger = do
  item ← new_phrase_item
  merge_loop (size logger.chunk) (record { index = s; item = item; place = none; going = true })
      logger empty_chunk empty_chunk
