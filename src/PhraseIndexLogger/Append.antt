-- ===== src/PhraseIndexLogger/Append.antt =====
-- append_record of src/storage/phrase_index_logger.h against the bytes of a record.
use libpinyin.Common.{
  ℕ, ◌+◌, ◌%◌, ◌<◌, ◌≡◌, refl, ap, subst, ◌∙◌, true, some, Option, List, [], ◌++◌, arith, length,
  append_assoc, ◌==◌, ==_iff, length-append, ◌>>=◌,
}
use libpinyin.Common.Words.{encode32, encode16, u16_mod}
use libpinyin.MemoryChunk.{MemoryChunk, empty_chunk}
use libpinyin.MemoryChunk.Growth.{Holds, length_of_Holds}
use libpinyin.MemoryChunk.Contents.{set_content_at_end}
use libpinyin.PhraseIndexLogger.{code_of, PhraseIndexLogger, write_record, append_record}
use libpinyin.PhraseIndexLogger.Changes.{
  Change, added, removed, modified, header_modified, type_of, change_token, old_bytes, new_bytes,
  encode_body, encode_change, FitsLog, Carries, pointer_to,
}

pub empty_chunk-Holds : Holds empty_chunk []
unfolding empty_chunk
empty_chunk-Holds = record { fits = omega arith; releasable = λ e. cc; content = refl }

abbrev Written : Option MemoryChunk → List ℕ → Type 0
Written o bytes = (d : MemoryChunk) × (o ≡ some d) × Holds d bytes

-- A length and the bytes it counts, as append_record takes them from a chunk.
module _ (chunk : MemoryChunk) {xs : List ℕ} (h : Holds chunk xs) where
  size_mod : length xs < u16_mod → chunk.data_end % u16_mod ≡ length xs
  size_mod small = omega (arith, length_of_Holds h)

write_change :
    (e : Change) (chunk oldone newone : MemoryChunk) (xs : List ℕ)
    → FitsLog e
    → Holds chunk xs
    → length xs ≡ 8
    → Carries oldone (old_bytes e)
    → Carries newone (new_bytes e)
    → Written
        (write_record
          (type_of e)
          (change_token e)
          chunk
          (pointer_to oldone (old_bytes e))
          (pointer_to newone (new_bytes e)))
        (xs ++ encode_body e)
unfolding write_record
write_change (added token bytes) chunk o n xs fits h eight ho hn =
    let len : List ℕ = encode16 (length bytes) in
    let (c1, e1, h1) = set_content_at_end chunk 8 len xs h eight in
    let (c2, e2, h2) =
      set_content_at_end c1 10 bytes (xs ++ len) h1 (omega (arith, length-append xs len)) in
    (
      c2,
      rw (hn.content, size_mod n hn fits.1, e1, e2) refl,
      subst (Holds c2) (append_assoc xs len bytes) h2,
    )
write_change (removed token bytes) chunk o n xs fits h eight ho hn =
    let len : List ℕ = encode16 (length bytes) in
    let (c1, e1, h1) = set_content_at_end chunk 8 len xs h eight in
    let (c2, e2, h2) =
      set_content_at_end c1 10 bytes (xs ++ len) h1 (omega (arith, length-append xs len)) in
    (
      c2,
      rw (ho.content, size_mod o ho fits.1, e1, e2) refl,
      subst (Holds c2) (append_assoc xs len bytes) h2,
    )
write_change (modified token before after) chunk o n xs fits h eight ho hn =
    let oldlen : List ℕ = encode16 (length before) in
    let newlen : List ℕ = encode16 (length after) in
    let (c1, e1, h1) = set_content_at_end chunk 8 oldlen xs h eight in
    let (c2, e2, h2) =
      set_content_at_end c1 10 newlen (xs ++ oldlen) h1 (omega (arith, length-append xs oldlen)) in
    let ends = length-append (xs ++ oldlen) newlen in
    let (c3, e3, h3) =
      set_content_at_end c2 12 before ((xs ++ oldlen) ++ newlen) h2
        (omega (arith, length-append xs oldlen, ends)) in
    let (c4, e4, h4) =
      set_content_at_end c3 (12 + length before) after (((xs ++ oldlen) ++ newlen) ++ before) h3 (
        omega (
          arith,
          length-append xs oldlen,
          ends,
          length-append ((xs ++ oldlen) ++ newlen) before,
        )) in
    (
      c4,
      rw (ho.content, hn.content, size_mod o ho fits.1, size_mod n hn fits.2, e1, e2, e3, e4) refl,
      subst (Holds c4)
          (append_assoc ((xs ++ oldlen) ++ newlen) before after
            ∙ append_assoc (xs ++ oldlen) newlen (before ++ after)
            ∙ append_assoc xs oldlen (newlen ++ (before ++ after)))
          h4,
    )
write_change (header_modified before after) chunk o n xs fits h eight ho hn =
    let oldlen : List ℕ = encode16 (length before) in
    let (c1, e1, h1) = set_content_at_end chunk 8 oldlen xs h eight in
    let (c2, e2, h2) =
      set_content_at_end c1 10 before (xs ++ oldlen) h1 (omega (arith, length-append xs oldlen)) in
    let (c3, e3, h3) =
      set_content_at_end c2 (10 + length before) after ((xs ++ oldlen) ++ before) h2
        (omega (arith, length-append xs oldlen, length-append (xs ++ oldlen) before)) in
    let same : ((length before == length after) ≡ true) = (==_iff _ _).1 fits.1 in
    (
      c3,
      rw
          (
            ho.content,
            hn.content,
            size_mod o ho fits.0,
            size_mod n hn (omega arith),
            same,
            e1,
            e2,
            e3,
          )
          refl,
      subst (Holds c3)
          (append_assoc (xs ++ oldlen) before after ∙ append_assoc xs oldlen (before ++ after)) h3,
    )

-- append_record writes the record behind the log, and touches neither the bytes before it nor
-- the place where next_record stands.
pub append_record-Holds :
    (l : PhraseIndexLogger) (e : Change) (oldone newone : MemoryChunk) (xs : List ℕ)
    → FitsLog e
    → Holds l.chunk xs
    → Carries oldone (old_bytes e)
    → Carries newone (new_bytes e)
    → (d : MemoryChunk) × (append_record l
          (type_of e)
          (change_token e)
          (pointer_to oldone (old_bytes e))
          (pointer_to newone (new_bytes e))
        ≡ some (record l { chunk = d }))
      × Holds d (xs ++ encode_change e)
unfolding append_record
append_record-Holds l e o n xs fits h ho hn =
    let type : List ℕ = encode32 (code_of (type_of e)) in
    let token : List ℕ = encode32 (change_token e) in
    let (c1, e1, h1) = set_content_at_end empty_chunk 0 type [] empty_chunk-Holds refl in
    let (c2, e2, h2) = set_content_at_end c1 4 token type h1 refl in
    let (c3, e3, h3) = write_change e c2 o n (type ++ token) fits h2 refl ho hn in
    let (d, e4, h4) =
      set_content_at_end l.chunk l.chunk.data_end (encode_change e) xs h (length_of_Holds h) in
    (d, rw (e1, e2, e3, h3.content) (ap (λ x. x >>= λ log. some (record l { chunk = log })) e4), h4)
