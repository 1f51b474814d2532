-- ===== src/PhraseIndexLogger/Next.antt =====
-- next_record of src/storage/phrase_index_logger.h against the bytes of a record.
use libpinyin.Common.{
  ℕ, ◌+◌, ◌<◌, ◌≡◌, refl, sym, subst, some, Option, List, [], ◌++◌, arith, length, append_assoc,
  le→leb,
}
use libpinyin.Common.Words.{
  encode32, encode16, u16_mod, u32_mod, decode16-encode16, decode32-encode32,
}
use libpinyin.MemoryChunk.{MemoryChunk}
use libpinyin.MemoryChunk.Growth.{Holds}
use libpinyin.MemoryChunk.Contents.{set_content_at_end, set_size-Holds}
use libpinyin.MemoryChunk.Reads.{Reads, Reads-advance, get_content-Reads, memory-Reads}
use libpinyin.PhraseIndexLogger.{
  LogType, log_add_record, log_remove_record, log_modify_record, log_modify_header,
  log_invalid_record, code_of, log_type_of, PhraseIndexLogger, read16, read32, copy_from,
  read_record, finish_record, next_record,
}
use libpinyin.PhraseIndexLogger.Changes.{
  Change, added, removed, modified, header_modified, type_of, change_token, old_bytes, new_bytes,
  encode_body, encode_change, FitsLog, bytes_of,
}

module _ {c : MemoryChunk} {offset : ℕ} where
  read16-Reads :
      (k : ℕ) (ys : List ℕ) → k < u16_mod → Reads c offset (encode16 k ++ ys) → read16 c offset ≡ k
  unfolding read16
  read16-Reads k ys small r =
      rw (get_content-Reads 2 (encode16 k) ys r refl, read16) (decode16-encode16 k small)

  read32-Reads :
      (k : ℕ) (ys : List ℕ) → k < u32_mod → Reads c offset (encode32 k ++ ys) → read32 c offset ≡ k
  unfolding read32
  read32-Reads k ys small r =
      rw (get_content-Reads 4 (encode32 k) ys r refl, read32) (decode32-encode32 k small)

  copy_from-Reads :
      (to : MemoryChunk) (w ys : List ℕ)
      → Reads c offset (w ++ ys)
      → Holds to []
      → (d : MemoryChunk) × (copy_from c offset (length w) to ≡ some d) × Holds d w
  unfolding copy_from
  copy_from-Reads to w ys r h =
      let (room, e) = memory-Reads (length w) w ys r refl in
      let (d, k, g) = set_content_at_end to 0 w [] h refl in (d, rw (le→leb _ _ room, e, k) refl, g)

-- What the switch of next_record makes of the bytes behind a type and a token.
abbrev ReadBack :
    Option (Option (MemoryChunk × MemoryChunk × ℕ)) → Change → MemoryChunk → List ℕ → Type 0
ReadBack result e c rest =
    (older newer : MemoryChunk) × (k : ℕ) × (result ≡ some (some (older, newer, k)))
    × Holds older (bytes_of (old_bytes e))
    × Holds newer (bytes_of (new_bytes e))
    × Reads c k rest

read_change :
    (e : Change) (c oldone newone : MemoryChunk) (offset : ℕ) (rest : List ℕ)
    → FitsLog e
    → Reads c offset (encode_body e ++ rest)
    → Holds oldone []
    → Holds newone []
    → ReadBack (read_record (type_of e) (change_token e) c offset oldone newone) e c rest
unfolding read_record
read_change (added token bytes) c o n offset rest fits r ho hn =
    let len : List ℕ = encode16 (length bytes) in
    let r1 = Reads-advance 2 len (bytes ++ rest) r refl in
    let (d, e, h) = copy_from-Reads n bytes rest r1 hn in
    (
      o,
      d,
      offset + 2 + length bytes,
      rw (read16-Reads (length bytes) (bytes ++ rest) fits.1 r, e) refl,
      ho,
      h,
      Reads-advance (length bytes) bytes rest r1 refl,
    )
read_change (removed token bytes) c o n offset rest fits r ho hn =
    let len : List ℕ = encode16 (length bytes) in
    let r1 = Reads-advance 2 len (bytes ++ rest) r refl in
    let (d, e, h) = copy_from-Reads o bytes rest r1 ho in
    (
      d,
      n,
      offset + 2 + length bytes,
      rw (read16-Reads (length bytes) (bytes ++ rest) fits.1 r, e) refl,
      h,
      hn,
      Reads-advance (length bytes) bytes rest r1 refl,
    )
read_change (modified token before after) c o n offset rest fits r ho hn =
    let oldlen : List ℕ = encode16 (length before) in
    let newlen : List ℕ = encode16 (length after) in
    let tail : List ℕ = before ++ (after ++ rest) in
    let r0 : Reads c offset (oldlen ++ (newlen ++ tail)) =
      subst (λ t. Reads c offset (oldlen ++ (newlen ++ t))) (append_assoc before after rest) r in
    let r1 = Reads-advance 2 oldlen (newlen ++ tail) r0 refl in
    let r2 = Reads-advance 2 newlen tail r1 refl in
    let r3 = Reads-advance (length before) before (after ++ rest) r2 refl in
    let (d, e, h) = copy_from-Reads o before (after ++ rest) r2 ho in
    let (d2, e2, h2) = copy_from-Reads n after rest r3 hn in
    (
      d,
      d2,
      offset + 2 + 2 + length before + length after,
      rw
          (
            read16-Reads (length before) (newlen ++ tail) fits.1 r0,
            read16-Reads (length after) tail fits.2 r1,
            e,
            e2,
          )
          refl,
      h,
      h2,
      Reads-advance (length after) after rest r3 refl,
    )
read_change (header_modified before after) c o n offset rest fits r ho hn =
    let len : List ℕ = encode16 (length before) in
    let tail : List ℕ = before ++ (after ++ rest) in
    let r0 : Reads c offset (len ++ tail) =
      subst (λ t. Reads c offset (len ++ t)) (append_assoc before after rest) r in
    let r1 = Reads-advance 2 len tail r0 refl in
    let r2 = Reads-advance (length before) before (after ++ rest) r1 refl in
    let (d, e, h) = copy_from-Reads o before (after ++ rest) r1 ho in
    let (d2, e2, h2) = copy_from-Reads n after rest r2 hn in
    (
      d,
      d2,
      offset + 2 + length before + length before,
      rw
          (
            read16-Reads (length before) tail fits.0 r0,
            e,
            subst (λ k. copy_from c (offset + 2 + length before) k n ≡ some d2) (sym fits.1) e2,
          )
          refl,
      h,
      h2,
      Reads-advance (length before) after rest r2 (sym fits.1),
    )

code-log_type : (t : LogType) → log_type_of (code_of t) ≡ t
code-log_type log_invalid_record = refl
code-log_type log_add_record = refl
code-log_type log_remove_record = refl
code-log_type log_modify_record = refl
code-log_type log_modify_header = refl

token_small : (e : Change) → FitsLog e → change_token e < u32_mod
token_small (added _ _) fits = fits.0
token_small (removed _ _) fits = fits.0
token_small (modified _ _ _) fits = fits.0
token_small (header_modified _ _) fits = omega arith

code_small : (t : LogType) → code_of t < u32_mod
code_small log_invalid_record = omega arith
code_small log_add_record = omega arith
code_small log_remove_record = omega arith
code_small log_modify_record = omega arith
code_small log_modify_header = omega arith

-- next_record at a record gives its type, its token and the old and the new bytes, whatever the
-- two chunks held before, leaves the log alone and stands behind the record afterwards.
pub next_record-Reads :
    (l : PhraseIndexLogger) (e : Change) (oldone newone : MemoryChunk) (xs ys rest : List ℕ)
    → FitsLog e
    → Reads l.chunk l.offset (encode_change e ++ rest)
    → Holds oldone xs
    → Holds newone ys
    → (older newer : MemoryChunk) × (k : ℕ) × (next_record l oldone newone
        ≡ some (
          record l { offset = k },
          some (record {
            log_type = type_of e;
            token = change_token e;
            oldone = older;
            newone = newer;
          }),
        ))
      × Holds older (bytes_of (old_bytes e))
      × Holds newer (bytes_of (new_bytes e))
      × Reads l.chunk k rest
unfolding next_record finish_record
next_record-Reads l e o n xs ys rest fits r ho hn =
    let type : List ℕ = encode32 (code_of (type_of e)) in
    let token : List ℕ = encode32 (change_token e) in
    let body : List ℕ = encode_body e ++ rest in
    let r1 = Reads-advance 4 type (token ++ body) r refl in
    let r2 = Reads-advance 4 token body r1 refl in
    let (o1, e1, h1) = set_size-Holds o 0 xs ho (omega arith) in
    let (n1, e2, h2) = set_size-Holds n 0 ys hn (omega arith) in
    let (older, newer, k, e3, h3, h4, r3) =
      read_change e l.chunk o1 n1 (l.offset + 4 + 4) rest fits r2 h1 h2 in
    (
      older,
      newer,
      k,
      rw
          (
            read32-Reads (code_of (type_of e)) (token ++ body) (code_small (type_of e)) r,
            read32-Reads (change_token e) body (token_small e fits) r1,
            code-log_type (type_of e),
            e1,
            e2,
            e3,
          )
          refl,
      h3,
      h4,
      r3,
    )
