-- ===== src/PhraseIndexLogger/RoundTrip.antt =====
-- Whole logs of src/storage/phrase_index_logger.h: append_record for one change after another, and
-- the loop on has_next_record and next_record that reads a log.
use libpinyin.Common.{
  ℕ, ◌<◌, ◌≡◌, refl, sym, subst, ap, true, false, some, Option, List, [], ◌∷◌, ◌++◌, map,
  append_assoc, append-nil, ◌>>=◌, arith, length, length-drop, lt→ltb, not_lt→ltb,
}
use libpinyin.MemoryChunk.{MemoryChunk, size}
use libpinyin.MemoryChunk.Growth.{Holds, length_of_Holds}
use libpinyin.MemoryChunk.Reads.{Reads, Reads-intro}
use libpinyin.PhraseIndexLogger.{
  PhraseIndexLogger, append_record, next_record, has_next_record, rewind,
}
use libpinyin.PhraseIndexLogger.Changes.{
  Change, type_of, change_token, old_bytes, new_bytes, encode_change, FitsLog, pointer_to, Carries,
  bytes_of,
}
use libpinyin.PhraseIndexLogger.Append.{append_record-Holds}
use libpinyin.PhraseIndexLogger.Next.{next_record-Reads}

-- A change with the chunks that carry its old and its new bytes.
pub record Logged : Type 0 where
  pub change : Change
  pub oldone : MemoryChunk
  pub newone : MemoryChunk

abbrev pub AllLogged : List Logged → Type 0
AllLogged [] = Unit {0}
AllLogged (c ∷ cs) =
    (FitsLog c.change
      × Carries c.oldone (old_bytes c.change)
      × Carries c.newone (new_bytes c.change))
    × AllLogged cs

-- append_record for each of the changes.
unfoldable pub append_changes : PhraseIndexLogger → List Logged → Option PhraseIndexLogger
append_changes l [] = some l
append_changes l (c ∷ cs) =
    append_record l (type_of c.change) (change_token c.change)
      (pointer_to c.oldone (old_bytes c.change)) (pointer_to c.newone (new_bytes c.change))
    >>= λ next. append_changes next cs

-- The loop that reads a log, with the two chunks that it reads into, gives the changes in turn, and
-- ends without an error.
pub data ReadsBack : PhraseIndexLogger → MemoryChunk → MemoryChunk → List Change → Type 0 where
  end :
      (l : PhraseIndexLogger) (oldone newone : MemoryChunk)
      → has_next_record l ≡ false
      → l.error ≡ false
      → ReadsBack l oldone newone []
  next :
      (l m : PhraseIndexLogger) (oldone newone older newer : MemoryChunk) (e : Change)
      {es : List Change}
      → has_next_record l ≡ true
      → next_record l oldone newone
        ≡ some (
          m,
          some (record {
            log_type = type_of e;
            token = change_token e;
            oldone = older;
            newone = newer;
          }),
        )
      → Holds older (bytes_of (old_bytes e))
      → Holds newer (bytes_of (new_bytes e))
      → ReadsBack m older newer es
      → ReadsBack l oldone newone (e ∷ es)

abbrev encode_changes : List Logged → List ℕ
encode_changes [] = []
encode_changes (c ∷ cs) = encode_change c.change ++ encode_changes cs

append_changes-Holds :
    (l : PhraseIndexLogger) (cs : List Logged) (xs : List ℕ)
    → AllLogged cs
    → Holds l.chunk xs
    → (d : MemoryChunk) × (append_changes l cs ≡ some (record l { chunk = d }))
      × Holds d (xs ++ encode_changes cs)
unfolding append_changes
append_changes-Holds l [] xs a h = (l.chunk, refl, subst (Holds l.chunk) (sym (append-nil xs)) h)
append_changes-Holds l (c ∷ cs) xs ((fits, ho, hn), a) h =
    let (d, e, g) = append_record-Holds l c.change c.oldone c.newone xs fits h ho hn in
    let (d2, e2, g2) =
      append_changes-Holds (record l { chunk = d }) cs (xs ++ encode_change c.change) a g in
    (
      d2,
      rw e e2,
      subst (Holds d2) (append_assoc xs (encode_change c.change) (encode_changes cs)) g2,
    )

-- What is left to read says whether there is a record.
has_next_record_lem :
    (l : PhraseIndexLogger) (ys : List ℕ)
    → l.error ≡ false
    → Reads l.chunk l.offset ys
    → ((0 < length ys) → has_next_record l ≡ true) × (length ys ≡ 0 → has_next_record l ≡ false)
unfolding has_next_record size
has_next_record_lem l ys fine r =
    let left = length-drop l.offset r.all in
    let same = ap length r.from_here in
    let all = length_of_Holds r.holds in
    let within = r.inside in
    (
      λ p. let q = lt→ltb l.offset l.chunk.data_end (omega arith) in rw (fine, q) refl,
      λ p. let q = not_lt→ltb l.offset l.chunk.data_end (omega arith) in rw (fine, q) refl,
    )

encode_change-positive : (e : Change) (ys : List ℕ) → 0 < length (encode_change e ++ ys)
encode_change-positive e ys = omega arith

changes-ReadsBack :
    (l : PhraseIndexLogger) (cs : List Logged) (oldone newone : MemoryChunk) (xs ys : List ℕ)
    → AllLogged cs
    → l.error ≡ false
    → Reads l.chunk l.offset (encode_changes cs)
    → Holds oldone xs
    → Holds newone ys
    → ReadsBack l oldone newone (map (λ c. c.change) cs)
changes-ReadsBack l [] o n xs ys a fine r ho hn =
    end l o n ((has_next_record_lem l [] fine r).1 refl) fine
changes-ReadsBack l (c ∷ cs) o n xs ys ((fits, _, _), a) fine r ho hn =
    let (older, newer, k, e, h1, h2, r2) =
      next_record-Reads l c.change o n xs ys (encode_changes cs) fits r ho hn in
    next l (record l { offset = k }) o n older newer c.change
      ((has_next_record_lem l (encode_change c.change ++ encode_changes cs) fine r).0
        (encode_change-positive c.change (encode_changes cs)))
      e h1 h2
      (changes-ReadsBack (record l { offset = k }) cs older newer (bytes_of (old_bytes c.change))
        (bytes_of (new_bytes c.change)) a fine r2 h1 h2)

-- An empty log to which any changes are appended is read back, when it is rewound, by the loop on
-- has_next_record and next_record: the changes in turn, each with its type, its token and its old
-- and new bytes, and then the end without an error. The log has no error and stands anywhere, the
-- chunks that are logged hold the bytes of the changes, whose lengths fit the log, and the chunks
-- that are read into hold anything.
pub append_changes-ReadsBack :
    (empty : PhraseIndexLogger) (cs : List Logged) (oldone newone : MemoryChunk) (xs ys : List ℕ)
    → empty.error ≡ false
    → Holds empty.chunk []
    → AllLogged cs
    → Holds oldone xs
    → Holds newone ys
    → (l : PhraseIndexLogger) × (append_changes empty cs ≡ some l)
      × ReadsBack (rewind l) oldone newone (map (λ c. c.change) cs)
unfolding rewind
append_changes-ReadsBack empty cs o n xs ys fine nothing a ho hn =
    let (d, e, h) = append_changes-Holds empty cs [] a nothing in
    (
      record empty { chunk = d },
      e,
      changes-ReadsBack (record empty { chunk = d; offset = 0 }) cs o n xs ys a fine
          (Reads-intro d [] (encode_changes cs) h) ho hn,
    )
