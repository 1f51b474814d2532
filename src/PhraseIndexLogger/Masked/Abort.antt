-- ===== src/PhraseIndexLogger/Masked/Abort.antt =====
-- _mask_out_records of src/storage/phrase_index.cpp on a log with an added or a removed item.
use libpinyin.Common.{
  ℕ, zero, suc, ◌<◌, ◌≡◌, ◌⊎◌, [], refl, ap, bit_and, true, false, none, some, List, ◌++◌, ◌==◌,
  arith, length, lt→ltb, length-drop, inl, inr,
}
use libpinyin.Common.Words.{encode32}
use libpinyin.MemoryChunk.{MemoryChunk, empty_chunk, size}
use libpinyin.MemoryChunk.Growth.{length_of_Holds}
use libpinyin.MemoryChunk.Contents.{set_content_at_end}
use libpinyin.MemoryChunk.Reads.{Reads}
use libpinyin.PhraseIndexLogger.{
  LogType, code_of, PhraseIndexLogger, has_next_record, append_record, write_record,
}
use libpinyin.PhraseIndexLogger.Changes.{
  Change, added, removed, type_of, change_token, encode_change, FitsLog,
}
use libpinyin.PhraseIndexLogger.Append.{empty_chunk-Holds}
use libpinyin.PhraseIndexLogger.Next.{next_record-Reads}
use libpinyin.PhraseIndexLogger.Masked.{is_header, copy_loop, mask_out_records}

-- append_record asserts that the chunk a record does not use is null.
two_chunks :
    (l : PhraseIndexLogger) (type : LogType) (token : ℕ) (o n : MemoryChunk)
    → ((c : MemoryChunk) → write_record type token c (some o) (some n) ≡ none)
    → append_record l type token (some o) (some n) ≡ none
unfolding append_record
two_chunks l type token o n aborts =
    let first : List ℕ = encode32 (code_of type) in
    let (c1, e1, h1) = set_content_at_end empty_chunk 0 first [] empty_chunk-Holds refl in
    let (c2, e2, h2) = set_content_at_end c1 4 (encode32 token) first h1 refl in
    rw (e1, e2, aborts c2) refl

-- Reading stands at a record, so there is a next one.
more_to_read :
    (l : PhraseIndexLogger) (e : Change) (rest : List ℕ)
    → Reads l.chunk l.offset (encode_change e ++ rest)
    → l.error ≡ false
    → (has_next_record l ≡ true) × (0 < size l.chunk)
unfolding has_next_record size
more_to_read l e rest r fine =
    let room : l.offset < l.chunk.data_end = omega (
      arith,
      r.inside,
      length-drop l.offset r.all,
      ap length r.from_here,
      length_of_Holds r.holds,
    ) in
    (rw (fine, lt→ltb _ _ room) refl, omega arith)

-- One round of the loop, at a record that would be copied.
copy_aborts :
    (fuel : ℕ) (l newlogger : PhraseIndexLogger) (e : Change) (mask value : ℕ) (rest : List ℕ)
    → 0 < fuel
    → FitsLog e
    → Reads l.chunk l.offset (encode_change e ++ rest)
    → l.error ≡ false
    → is_header (type_of e) ≡ false
    → (bit_and (change_token e) mask == value) ≡ false
    → ((o n c : MemoryChunk) → write_record (type_of e) (change_token e) c (some o) (some n) ≡ none)
    → copy_loop fuel l empty_chunk empty_chunk mask value newlogger ≡ none
unfolding copy_loop
copy_aborts zero l newlogger e mask value rest some_fuel fits r fine plain kept aborts =
    absurd (omega arith)
copy_aborts (suc fuel) l newlogger e mask value rest some_fuel fits r fine plain kept aborts =
    let (older, newer, k, next, _, _, _) =
      next_record-Reads l e empty_chunk empty_chunk [] [] rest fits r empty_chunk-Holds
        empty_chunk-Holds in
    let stop = two_chunks newlogger (type_of e) (change_token e) older newer (aborts older newer) in
    rw ((more_to_read l e rest r fine).0, next, plain, kept, stop) refl

-- _mask_out_records fails an assertion when it stands at the record of an item that was added or
-- removed, and the token of the item does not match the mask.
pub mask_out_records-aborts :
    (l newlogger : PhraseIndexLogger) (token mask value : ℕ) (bytes rest : List ℕ) (e : Change)
    → (e ≡ added token bytes) ⊎ (e ≡ removed token bytes)
    → FitsLog e
    → Reads l.chunk l.offset (encode_change e ++ rest)
    → l.error ≡ false
    → (bit_and token mask == value) ≡ false
    → mask_out_records l mask value newlogger ≡ none
unfolding mask_out_records write_record
mask_out_records-aborts l newlogger token mask value bytes rest e which fits r fine kept =
    elim which [
      | inl is_added ↦
          copy_aborts (size l.chunk) l newlogger e mask value rest (more_to_read l e rest r fine).1
            fits r fine (rw is_added refl) (rw is_added kept) (rw is_added (λ o n c. refl))
      | inr is_removed ↦
          copy_aborts (size l.chunk) l newlogger e mask value rest (more_to_read l e rest r fine).1
            fits r fine (rw is_removed refl) (rw is_removed kept) (rw is_removed (λ o n c. refl))
    ]
