-- ===== src/PhoneticKeyMatrix/Filled.antt =====
-- The appends that fill_matrix of src/storage/phonetic_key_matrix.cpp makes for a parse.
use libpinyin.Common.{
  ℕ, zero, suc, ◌+◌, ◌-◌, ◌%◌, ◌≤◌, ◌<◌, ◌≡◌, refl, sym, subst, true, false, some, List, [], ◌∷◌,
  ◌++◌, ◌==◌, append-nil, append_assoc, length, arith,
}
use libpinyin.PinyinPhrase.{ChewingKey, new_chewing_key}
use libpinyin.PinyinParser.{ChewingKeyRest}
use libpinyin.PinyinParser.Cover.{Covers, Covers-le}
use libpinyin.PhoneticKeyMatrix.{
  PhoneticKeyMatrix, append, set_size, fill_keys, fill_gap, fill_gaps, fill_matrix,
}
use libpinyin.PhoneticKeyMatrix.Entries.{Entry, Holds, set_size-Holds, append-Holds}

abbrev pub place : ℕ → ℕ → ChewingKeyRest
place a b = record { raw_begin = a; raw_end = b }

abbrev pub key_entries : List ChewingKey → List ChewingKeyRest → List Entry
key_entries (k ∷ ks) (r ∷ rs) =
    record { index = r.raw_begin; key = k; rest = r } ∷ key_entries ks rs
key_entries _ _ = []

-- A zero key over the position `fill`.
abbrev pub zero_entry : ℕ → Entry
zero_entry fill = record { index = fill; key = new_chewing_key; rest = place fill (fill + 1) }

abbrev pub gap_entries : ℕ → ℕ → List Entry
gap_entries fill zero = []
gap_entries fill (suc count) = zero_entry fill ∷ gap_entries (suc fill) count

-- The gaps behind the places, up to the one of the last key.
abbrev pub gaps_entries : ℕ → List ChewingKeyRest → ℕ → List Entry
gaps_entries a [] l = gap_entries a (l - a)
gaps_entries a (r ∷ rs) l = gap_entries a (r.raw_begin - a) ++ gaps_entries r.raw_end rs l

-- The gaps that fill_matrix fills: those behind the first place.
abbrev pub filled_gaps : List ChewingKeyRest → ℕ → List Entry
filled_gaps [] l = []
filled_gaps (r ∷ rs) l = gaps_entries r.raw_end rs l

module _ (n : ℕ) where
  add_one :
      (matrix : PhoneticKeyMatrix) (es : List Entry) (e : Entry) (fs : List Entry)
      (next : PhoneticKeyMatrix)
      → (Holds (append e.index e.key e.rest matrix).1 n (es ++ (e ∷ []))
          → Holds next n ((es ++ (e ∷ [])) ++ fs))
      → Holds matrix n es
      → e.index < n
      → Holds next n (es ++ (e ∷ fs))
  add_one matrix es e fs next f h i =
      subst (Holds next n) (append_assoc es (e ∷ []) fs) (f (append-Holds matrix n es e h i))

  fill_keys-Holds :
      (input : List ℕ) (a l : ℕ) (ks : List ChewingKey) (rs : List ChewingKeyRest)
      (matrix : PhoneticKeyMatrix) (es : List Entry)
      → Covers input a rs l
      → l < n
      → Holds matrix n es
      → Holds (fill_keys ks rs matrix) n (es ++ key_entries ks rs)
  unfolding fill_keys
  fill_keys-Holds input a l [] rs matrix es c i h = subst (Holds matrix n) (sym (append-nil es)) h
  fill_keys-Holds input a l (k ∷ ks) [] matrix es c i h =
      subst (Holds matrix n) (sym (append-nil es)) h
  fill_keys-Holds input a l (k ∷ ks) (r ∷ rs) matrix es (p, q, s, t, c) i h =
      let e : Entry = record { index = r.raw_begin; key = k; rest = r } in
      add_one matrix es e (key_entries ks rs) (fill_keys ks rs (append r.raw_begin k r matrix).1)
        (fill_keys-Holds input r.raw_end l ks rs (append r.raw_begin k r matrix).1 (es ++ (e ∷ []))
          c i)
        h (omega (arith, Covers-le input r.raw_end rs l c))

  fill_gap-Holds :
      (fill count : ℕ) (matrix : PhoneticKeyMatrix) (es : List Entry)
      → fill + count < n
      → n ≤ 65535
      → Holds matrix n es
      → Holds (fill_gap fill count matrix) n (es ++ gap_entries fill count)
  unfolding fill_gap
  fill_gap-Holds fill zero matrix es i s h = subst (Holds matrix n) (sym (append-nil es)) h
  fill_gap-Holds fill (suc count) matrix es i s h =
      let p : fill % 65536 ≡ fill = omega arith in
      let q : (fill + 1) % 65536 ≡ fill + 1 = omega arith in
      let next : PhoneticKeyMatrix =
        (append fill new_chewing_key (place fill (fill + 1)) matrix).1 in
      rw (p, q)
        (add_one matrix es (zero_entry fill) (gap_entries (suc fill) count)
          (fill_gap (suc fill) count next)
          (fill_gap-Holds (suc fill) count next (es ++ (zero_entry fill ∷ [])) (omega arith) s) h
          (omega arith))

  fill_gaps-Holds :
      (input : List ℕ) (a l b e : ℕ) (rs : List ChewingKeyRest) (matrix : PhoneticKeyMatrix)
      (es : List Entry)
      → Covers input a rs l
      → l < n
      → n ≤ 65535
      → Holds matrix n es
      → Holds
          (fill_gaps (place b a ∷ (rs ++ (place l e ∷ []))) matrix)
          n
          (es ++ gaps_entries a rs l)
  unfolding fill_gaps
  fill_gaps-Holds input a l b e [] matrix es (p, c) i s h =
      fill_gap-Holds a (l - a) matrix es (omega arith) s h
  fill_gaps-Holds input a l b e (r ∷ rs) matrix es (p, q, t, u, c) i s h =
      let k = Covers-le input r.raw_end rs l c in
      let first = fill_gap-Holds a (r.raw_begin - a) matrix es (omega arith) s h in
      let rest =
        fill_gaps-Holds input r.raw_end l r.raw_begin e rs (fill_gap a (r.raw_begin - a) matrix)
          (es ++ gap_entries a (r.raw_begin - a)) c i s first in
      subst
        (Holds (fill_gaps (r ∷ (rs ++ (place l e ∷ []))) (fill_gap a (r.raw_begin - a) matrix)) n)
        (append_assoc es (gap_entries a (r.raw_begin - a)) (gaps_entries r.raw_end rs l)) rest

-- What fill_matrix leaves in the columns: the keys where they begin, a zero key behind the last,
-- and zero keys in the gaps.
pub fill_matrix-Holds :
    (input : List ℕ) (l : ℕ) (ks : List ChewingKey) (r : ChewingKeyRest) (rs : List ChewingKeyRest)
    → Covers input 0 (r ∷ rs) l
    → length ks ≡ suc (length rs)
    → l < 65535
    → (matrix : PhoneticKeyMatrix) × (fill_matrix ks (r ∷ rs) l ≡ some (true, matrix))
      × Holds matrix
          (suc l)
          (key_entries ks (r ∷ rs) ++ (zero_entry l ∷ gaps_entries r.raw_end rs l))
unfolding fill_matrix
fill_matrix-Holds input l ks r rs c len small =
    let next : l + 1 ≡ suc l = omega arith in
    let p : l % 65536 ≡ l = omega arith in
    let q : suc l % 65536 ≡ suc l = omega arith in
    let e : (length ks == suc (length rs)) ≡ true = ground arith in
    let z : (length ks == 0) ≡ false = ground arith in
    let filled =
      fill_keys-Holds (suc l) input 0 l ks (r ∷ rs) (set_size (suc l)) [] c (omega arith)
        (set_size-Holds (suc l)) in
    let keys : PhoneticKeyMatrix = fill_keys ks (r ∷ rs) (set_size (suc l)) in
    let ended : PhoneticKeyMatrix = (append l new_chewing_key (place l (l + 1)) keys).1 in
    let with_last =
      append-Holds keys (suc l) (key_entries ks (r ∷ rs)) (zero_entry l) filled (omega arith) in
    let all =
      fill_gaps-Holds (suc l) input r.raw_end l r.raw_begin (l + 1) rs ended
        (key_entries ks (r ∷ rs) ++ (zero_entry l ∷ [])) c.4 (omega arith) (omega arith)
        with_last in
    let m : PhoneticKeyMatrix = fill_gaps (r ∷ (rs ++ (place l (l + 1) ∷ []))) ended in
    (
      m,
      rw (next, e, z, p, q) refl,
      subst (Holds m (suc l))
          (append_assoc (key_entries ks (r ∷ rs)) (zero_entry l ∷ []) (gaps_entries r.raw_end rs l))
          all,
    )
