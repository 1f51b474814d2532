-- ===== src/PhoneticKeyMatrix/Tiles.antt =====
-- The columns that fill_matrix of src/storage/phonetic_key_matrix.cpp fills lie end to end.
use libpinyin.Common.{
  ℕ, zero, suc, ◌+◌, ◌-◌, ◌≤◌, ◌<◌, ◌≡◌, refl, ap, ap₂, ◌∙◌, ◌⊎◌, inl, inr, true, false, Bool-cases,
  List, [], ◌∷◌, ◌++◌, ◌==◌, ltb, length, arith,
}
use libpinyin.PinyinPhrase.{ChewingKey}
use libpinyin.PinyinParser.{ChewingKeyRest}
use libpinyin.PinyinParser.Cover.{Covers, Covers-le}
use libpinyin.PhoneticKeyMatrix.Entries.{Entry, column_of, column_of-append}
use libpinyin.PhoneticKeyMatrix.Filled.{key_entries, gap_entries, gaps_entries, zero_entry}

gap_out : (f c j : ℕ) → (j < f) ⊎ (f + c ≤ j) → column_of j (gap_entries f c) ≡ []
gap_out f zero j h = refl
gap_out f (suc c) j h =
    let n : (f == j) ≡ false = ground arith in rw n (gap_out (suc f) c j (ground arith))

gap_in : (f c j : ℕ) → f ≤ j → j < f + c → column_of j (gap_entries f c) ≡ zero_entry j ∷ []
gap_in f zero j h k = absurd (omega arith)
gap_in f (suc c) j h k = elim (Bool-cases (f == j)) [
  | inl p ↦
      let f_is : f ≡ j = ground arith in
      rw (p, gap_out (suc f) c j (inl (omega arith))) (ap (λ x. zero_entry x ∷ []) f_is)
  | inr p ↦ rw p (gap_in (suc f) c j (ground arith) (omega arith))
]

-- A column in front of the last: nothing, or one key that ends in the next column that has one.
pub data Tile (columns : ℕ → List Entry) (l j : ℕ) : Type 0 where
  vacant : columns j ≡ [] → Tile columns l j
  filled :
      (e : Entry)
      → columns j ≡ e ∷ []
      → j < e.rest.raw_end
      → e.rest.raw_end ≤ l
      → (e.rest.raw_end < l → (next : Entry) × (columns e.rest.raw_end ≡ next ∷ []))
      → Tile columns l j

module _ (input : List ℕ) where
  abbrev pub columns : ℕ → List ChewingKey → List ChewingKeyRest → ℕ → ℕ → List Entry
  columns a ks rs l j = column_of j (key_entries ks rs) ++ column_of j (gaps_entries a rs l)

  keys_below :
      (a l : ℕ) (ks : List ChewingKey) (rs : List ChewingKeyRest) (j : ℕ)
      → Covers input a rs l
      → j < a
      → column_of j (key_entries ks rs) ≡ []
  keys_below a l [] rs j c h = refl
  keys_below a l (k ∷ ks) [] j c h = refl
  keys_below a l (k ∷ ks) (r ∷ rs) j (p, q, s, t, c) h =
      let n : (r.raw_begin == j) ≡ false = ground arith in
      rw n (keys_below r.raw_end l ks rs j c (omega arith))

  gaps_below :
      (a l : ℕ) (rs : List ChewingKeyRest) (j : ℕ)
      → Covers input a rs l
      → j < a
      → column_of j (gaps_entries a rs l) ≡ []
  gaps_below a l [] j c h = gap_out a (l - a) j (inl h)
  gaps_below a l (r ∷ rs) j (p, q, s, t, c) h =
      column_of-append j (gap_entries a (r.raw_begin - a)) (gaps_entries r.raw_end rs l)
      ∙ ap₂ ◌++◌ (gap_out a (r.raw_begin - a) j (inl h))
          (gaps_below r.raw_end l rs j c (omega arith))

  module _ (a l : ℕ) (k : ChewingKey) (ks : List ChewingKey) (r : ChewingKeyRest)
      (rs : List ChewingKeyRest) (c : Covers input a (r ∷ rs) l) where
    gap_column :
        (j : ℕ) → a ≤ j → j < r.raw_begin → columns a (k ∷ ks) (r ∷ rs) l j ≡ zero_entry j ∷ []
    gap_column j h i =
        let n : (r.raw_begin == j) ≡ false = ground arith in
        let s = c.2 in
        rw
          (
            n,
            keys_below r.raw_end l ks rs j c.4 (omega arith),
            column_of-append j (gap_entries a (r.raw_begin - a)) (gaps_entries r.raw_end rs l),
            gap_in a (r.raw_begin - a) j h (omega arith),
            gaps_below r.raw_end l rs j c.4 (omega arith),
          )
          refl

    key_column :
        columns a (k ∷ ks) (r ∷ rs) l r.raw_begin
        ≡ record { index = r.raw_begin; key = k; rest = r } ∷ []
    key_column =
        let n : (r.raw_begin == r.raw_begin) ≡ true = ground arith in
        let s = c.2 in
        let p = c.0 in
        rw
          (
            n,
            keys_below r.raw_end l ks rs r.raw_begin c.4 s,
            column_of-append r.raw_begin (gap_entries a (r.raw_begin - a))
                (gaps_entries r.raw_end rs l),
            gap_out a (r.raw_begin - a) r.raw_begin (inr (omega arith)),
            gaps_below r.raw_end l rs r.raw_begin c.4 s,
          )
          refl

    inner_column : (j : ℕ) → r.raw_begin < j → j < r.raw_end → columns a (k ∷ ks) (r ∷ rs) l j ≡ []
    inner_column j h i =
        let n : (r.raw_begin == j) ≡ false = ground arith in
        let p = c.0 in
        rw
          (
            n,
            keys_below r.raw_end l ks rs j c.4 i,
            column_of-append j (gap_entries a (r.raw_begin - a)) (gaps_entries r.raw_end rs l),
            gap_out a (r.raw_begin - a) j (inr (omega arith)),
            gaps_below r.raw_end l rs j c.4 i,
          )
          refl

    later_column :
        (j : ℕ) → r.raw_end ≤ j → columns a (k ∷ ks) (r ∷ rs) l j ≡ columns r.raw_end ks rs l j
    later_column j h =
        let s = c.2 in
        let p = c.0 in
        let n : (r.raw_begin == j) ≡ false = ground arith in
        rw
          (
            n,
            column_of-append j (gap_entries a (r.raw_begin - a)) (gaps_entries r.raw_end rs l),
            gap_out a (r.raw_begin - a) j (inr (omega arith)),
          )
          refl

  -- The first column is filled.
  pub first_column :
      (a l : ℕ) (ks : List ChewingKey) (rs : List ChewingKeyRest)
      → Covers input a rs l
      → length ks ≡ length rs
      → a < l
      → (e : Entry) × (columns a ks rs l a ≡ e ∷ [])
  first_column a l [] [] c n h = (zero_entry a, gap_in a (l - a) a (omega arith) (omega arith))
  first_column a l [] (r ∷ rs) c n h = absurd (omega arith)
  first_column a l (k ∷ ks) [] c n h = absurd (omega arith)
  first_column a l (k ∷ ks) (r ∷ rs) c n h =
      let p = c.0 in
      elim (Bool-cases (a == r.raw_begin)) [
        | inl e ↦
            let a_is : a ≡ r.raw_begin = ground arith in
            (
              record { index = r.raw_begin; key = k; rest = r },
              ap (columns a (k ∷ ks) (r ∷ rs) l) a_is ∙ key_column a l k ks r rs c,
            )
        | inr e ↦ (zero_entry a, gap_column a l k ks r rs c a (omega arith) (ground arith))
      ]

  below_column :
      (a l : ℕ) (ks : List ChewingKey) (rs : List ChewingKeyRest) (j : ℕ)
      → Covers input a rs l
      → j < a
      → columns a ks rs l j ≡ []
  below_column a l ks rs j c h = rw (keys_below a l ks rs j c h, gaps_below a l rs j c h) refl

  -- From the first gap or key to the last.
  pub tile :
      (a l : ℕ) (ks : List ChewingKey) (rs : List ChewingKeyRest) (j : ℕ)
      → Covers input a rs l
      → length ks ≡ length rs
      → j < l
      → Tile (columns a ks rs l) l j
  tile a l [] (r ∷ rs) j c n h = absurd (omega arith)
  tile a l (k ∷ ks) [] j c n h = absurd (omega arith)
  tile a l [] [] j c n h = elim (Bool-cases (ltb j a)) [
    | inl p ↦ vacant (below_column a l [] [] j c (ground arith))
    | inr p ↦
        filled (zero_entry j) (gap_in a (l - a) j (ground arith) (omega arith)) (omega arith)
          (omega arith)
          (λ i. (zero_entry (j + 1), gap_in a (l - a) (j + 1) (ground arith) (omega arith)))
  ]
  tile a l (k ∷ ks) (r ∷ rs) j c n h = elim (Bool-cases (ltb j a)) [
    | inl p ↦ vacant (below_column a l (k ∷ ks) (r ∷ rs) j c (ground arith))
    | inr p ↦ elim (Bool-cases (ltb j r.raw_begin)) [
      | inl q ↦ in_gap (ground arith) (ground arith)
      | inr q ↦ elim (Bool-cases (ltb j r.raw_end)) [
        | inr s ↦ later (ground arith) (tile r.raw_end l ks rs j c.4 (omega arith) h)
        | inl s ↦ elim (Bool-cases (j == r.raw_begin)) [
          | inl e ↦ on_key (ground arith)
          | inr e ↦ vacant (inner_column a l k ks r rs c j (ground arith) (ground arith))
        ]
      ]
    ]
  ]
    where
      cols : ℕ → List Entry
      cols = columns a (k ∷ ks) (r ∷ rs) l

      in_gap : a ≤ j → j < r.raw_begin → Tile cols l j
      in_gap p q =
          filled (zero_entry j) (gap_column a l k ks r rs c j p q) (omega arith) (omega arith) (λ i.
            elim (Bool-cases (j + 1 == r.raw_begin)) [
              | inl e ↦
                  let j_is : j + 1 ≡ r.raw_begin = ground arith in
                  (
                    record { index = r.raw_begin; key = k; rest = r },
                    ap cols j_is ∙ key_column a l k ks r rs c,
                  )
              | inr e ↦ (
                zero_entry (j + 1),
                gap_column a l k ks r rs c (j + 1) (omega arith) (ground arith),
              )
            ])

      on_key : j ≡ r.raw_begin → Tile cols l j
      on_key e =
          let s = c.2 in
          filled (record { index = r.raw_begin; key = k; rest = r })
            (ap cols e ∙ key_column a l k ks r rs c) (omega arith)
            (Covers-le input r.raw_end rs l c.4)
            (λ i.
              let (next, f) = first_column r.raw_end l ks rs c.4 (omega arith) i in
              (next, later_column a l k ks r rs c r.raw_end (omega arith) ∙ f))

      later : r.raw_end ≤ j → Tile (columns r.raw_end ks rs l) l j → Tile cols l j
      later p (vacant e) = vacant (later_column a l k ks r rs c j p ∙ e)
      later p (filled e f g i next) = filled e (later_column a l k ks r rs c j p ∙ f) g i (λ m.
          let (x, y) = next m in (x, later_column a l k ks r rs c e.rest.raw_end (omega arith) ∙ y))

  -- Nothing of a parse stands in the last column.
  pub keys_above :
      (a l : ℕ) (ks : List ChewingKey) (rs : List ChewingKeyRest)
      → Covers input a rs l
      → column_of l (key_entries ks rs) ≡ []
  keys_above a l [] rs c = refl
  keys_above a l (k ∷ ks) [] c = refl
  keys_above a l (k ∷ ks) (r ∷ rs) (p, q, s, t, c) =
      let i = Covers-le input r.raw_end rs l c in
      let n : (r.raw_begin == l) ≡ false = ground arith in rw n (keys_above r.raw_end l ks rs c)

  pub gaps_above :
      (a l : ℕ) (rs : List ChewingKeyRest)
      → Covers input a rs l
      → column_of l (gaps_entries a rs l) ≡ []
  gaps_above a l [] c = gap_out a (l - a) l (inr (omega (arith, c.0)))
  gaps_above a l (r ∷ rs) (p, q, s, t, c) =
      let i = Covers-le input r.raw_end rs l c in
      column_of-append l (gap_entries a (r.raw_begin - a)) (gaps_entries r.raw_end rs l)
      ∙ ap₂ ◌++◌ (gap_out a (r.raw_begin - a) l (inr (omega arith))) (gaps_above r.raw_end l rs c)
