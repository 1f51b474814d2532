-- ===== src/SingleGram/Lookup.antt =====
-- What a caller of src/storage/ngram.cpp sees: each operation by the frequencies that get_freq
-- finds afterwards.
use libpinyin.Common.{
  ℕ, ◌<◌, ◌≡◌, refl, sym, ap, ◌∙◌, Bool, true, false, not, Option, none, some, List, ◌==◌,
  if◌then◌else◌,
}
use libpinyin.Common.Words.{u32_mod}
use libpinyin.MemoryChunk.{MemoryChunk}
use libpinyin.Stl.{LowerBound}
use libpinyin.TokenArray.{Item, token_of}
use libpinyin.TokenArray.Sorted.{lookup, is_some, lookup-insert_sorted, lookup-erase, lookup-update}
use libpinyin.SingleGram.{SingleGramItem, found_freq, insert_freq, remove_freq, get_freq, set_freq}
use libpinyin.SingleGram.Total.{IsSingleGram}
use libpinyin.SingleGram.Refine.{
  get_freq-lookup, insert_freq-IsSingleGram, remove_freq-IsSingleGram, set_freq-IsSingleGram,
}

-- The chunk holds a sum and some items.
abbrev pub IsGram : MemoryChunk → ℕ → Type 0
IsGram c total = (xs : List SingleGramItem) × IsSingleGram c total xs

found_is_some : (o : Option ℕ) → is_some o ≡ (found_freq o).1
found_is_some none = refl
found_is_some (some f) = refl

found_insert :
    (b : Bool) (o : Option ℕ) (freq : ℕ)
    → found_freq (if b then if is_some o then o else some freq else o)
      ≡ (if b then if (found_freq o).1 then found_freq o else (freq, true) else found_freq o)
found_insert true none freq = refl
found_insert true (some f) freq = refl
found_insert false o freq = refl

found_erase :
    (b : Bool) (o : Option ℕ)
    → found_freq (if b then none else o) ≡ (if b then (0, false) else found_freq o)
found_erase true o = refl
found_erase false o = refl

found_update :
    (b : Bool) (o : Option ℕ) (freq : ℕ)
    → found_freq (if b then if is_some o then some freq else none else o)
      ≡ (if b then if (found_freq o).1 then (freq, true) else (0, false) else found_freq o)
found_update true none freq = refl
found_update true (some f) freq = refl
found_update false o freq = refl

module _ (lb : LowerBound {A = Item ℕ} token_of) (c : MemoryChunk) (total : ℕ)
    (gram : IsGram c total) where
  -- insert_freq succeeds exactly where the token was not there. Then the token has the frequency;
  -- otherwise it keeps the one that it had. All other frequencies and the sum stay.
  pub insert_freq-get_freq :
      (t freq : ℕ)
      → t < u32_mod
      → freq < u32_mod
      → (d : MemoryChunk) × (insert_freq lb c t freq ≡ some (d, not (get_freq lb c t).1))
        × IsGram d total
        × ((u : ℕ)
            → get_freq lb d u ≡ (
                if t == u
                then if (get_freq lb c u).1 then get_freq lb c u else (freq, true)
                else get_freq lb c u))
  insert_freq-get_freq t freq p q =
      let (xs, g) = gram in
      let (d, e, s) = insert_freq-IsSingleGram lb c total xs g t freq p q in
      let seen = λ (u : ℕ). get_freq-lookup lb c total xs g u in
      (
        d,
        e ∙ ap (λ b. some (d, not b)) (found_is_some (lookup t xs) ∙ ap (λ r. r.1) (sym (seen t))),
        (_, s),
        λ u.
            get_freq-lookup lb d total _ s u
            ∙ ap found_freq
                (lookup-insert_sorted (record { token = t; payload = freq }) u xs g.ascending)
            ∙ found_insert (t == u) (lookup u xs) freq
            ∙ ap (λ r. if t == u then if r.1 then r else (freq, true) else r) (sym (seen u)),
      )

  -- remove_freq reports what get_freq finds. The token is gone afterwards; all else stays.
  pub remove_freq-get_freq :
      (t : ℕ)
      → (d : MemoryChunk) × (remove_freq lb c t ≡ some (d, get_freq lb c t))
        × IsGram d total
        × ((u : ℕ) → get_freq lb d u ≡ (if t == u then (0, false) else get_freq lb c u))
  remove_freq-get_freq t =
      let (xs, g) = gram in
      let (d, e, s) = remove_freq-IsSingleGram lb c total xs g t in
      let seen = λ (u : ℕ). get_freq-lookup lb c total xs g u in
      (
        d,
        e ∙ ap (λ r. some (d, r)) (sym (seen t)),
        (_, s),
        λ u.
            get_freq-lookup lb d total _ s u
            ∙ ap found_freq (lookup-erase t u xs g.ascending)
            ∙ found_erase (t == u) (lookup u xs)
            ∙ ap (λ r. if t == u then (0, false) else r) (sym (seen u)),
      )

  -- set_freq succeeds exactly where the token is there, which then has the frequency; all else
  -- stays.
  pub set_freq-get_freq :
      (t freq : ℕ)
      → freq < u32_mod
      → (d : MemoryChunk) × (set_freq lb c t freq ≡ (d, (get_freq lb c t).1))
        × IsGram d total
        × ((u : ℕ)
            → get_freq lb d u ≡ (
                if t == u
                then if (get_freq lb c u).1 then (freq, true) else (0, false)
                else get_freq lb c u))
  set_freq-get_freq t freq q =
      let (xs, g) = gram in
      let (d, e, s) = set_freq-IsSingleGram lb c total xs g t freq q in
      let seen = λ (u : ℕ). get_freq-lookup lb c total xs g u in
      (
        d,
        e ∙ ap (λ b. (d, b)) (found_is_some (lookup t xs) ∙ ap (λ r. r.1) (sym (seen t))),
        (_, s),
        λ u.
            get_freq-lookup lb d total _ s u
            ∙ ap found_freq (lookup-update t u freq xs)
            ∙ found_update (t == u) (lookup u xs) freq
            ∙ ap (λ r. if t == u then if r.1 then (freq, true) else (0, false) else r)
                (sym (seen u)),
      )
