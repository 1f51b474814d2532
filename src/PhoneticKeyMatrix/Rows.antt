-- ===== src/PhoneticKeyMatrix/Rows.antt =====
-- The keys of a column of src/storage/phonetic_key_matrix.h among the appends that made the matrix.
use mathlib.Core.List.{Memᴰ}
use mathlib.Core.List.Memᴰ
use libpinyin.Common.{
  ℕ, suc, ◌<◌, ◌≡◌, refl, ap, ◌∙◌, subst, inl, inr, true, Bool-cases, some, List, [], ◌∷◌, map,
  ◌==◌, if◌then◌else◌, get_elem?, length, arith,
}
use libpinyin.PinyinParser.{ChewingKeyRest}
use libpinyin.PhoneticKeyMatrix.{PhoneticTable, PhoneticKeyMatrix, get_items, get_column}
use libpinyin.PhoneticKeyMatrix.Entries.{Entry, column_of, Holds}

pub column_of-Memᴰ :
    (j : ℕ) (e : Entry) (es : List Entry) → Memᴰ e (column_of j es) → Memᴰ e es × (e.index ≡ j)
column_of-Memᴰ j e [] m = absurd (Memᴰ.not-nil m)
column_of-Memᴰ j e (x ∷ xs) m = elim (Bool-cases (x.index == j)) [
  | inl p ↦
      elim (Memᴰ.cases_cons
        (subst (λ b. Memᴰ e (if b then x ∷ column_of j xs else column_of j xs)) p m)) [
          | inl q ↦ (Memᴰ.head q, ap (λ y. y.index) q ∙ ground arith)
          | inr t ↦ let (u, k) = column_of-Memᴰ j e xs t in (Memᴰ.tail u, k)
        ]
  | inr p ↦
      let (u, k) =
        column_of-Memᴰ j e xs
          (subst (λ b. Memᴰ e (if b then x ∷ column_of j xs else column_of j xs)) p m) in
      (Memᴰ.tail u, k)
]

pub Memᴰ-column_of :
    (j : ℕ) (e : Entry) (es : List Entry) → Memᴰ e es → e.index ≡ j → Memᴰ e (column_of j es)
Memᴰ-column_of j e [] m q = absurd (Memᴰ.not-nil m)
Memᴰ-column_of j e (x ∷ xs) m q = elim (Bool-cases (x.index == j)) [
  | inl p ↦ rw p (elim (Memᴰ.cases_cons m) [
    | inl r ↦ Memᴰ.head r
    | inr t ↦ Memᴰ.tail (Memᴰ-column_of j e xs t q)
  ])
  | inr p ↦ rw p (elim (Memᴰ.cases_cons m) [
    | inl r ↦ let k = ap (λ y. y.index) r in absurd (ground arith)
    | inr t ↦ Memᴰ-column_of j e xs t q
  ])
]

length-map : {A : Type 0} {B : Type 0} (f : A → B) (xs : List A) → length (map f xs) ≡ length xs
length-map f [] = refl
length-map f (x ∷ xs) = ap suc (length-map f xs)

get_column_at :
    {A : Type 0} (index : ℕ) (t : PhoneticTable A) (c : List A)
    → get_elem? t index ≡ some c
    → get_column index t ≡ (true, c)
unfolding get_column
get_column_at index t c h = rw (h, get_column) refl

pub get_items-Holds :
    (m : PhoneticKeyMatrix) (n index : ℕ) (es : List Entry) (rests : List ChewingKeyRest)
    → Holds m n es
    → index < n
    → get_items index m rests
      ≡ some (true, map (λ e. e.key) (column_of index es), map (λ e. e.rest) (column_of index es))
unfolding get_items
get_items-Holds m n index es rests h i =
    let k = length-map (λ e. e.key) (column_of index es) in
    let r = length-map (λ e. e.rest) (column_of index es) in
    let same : (length (map (λ e. e.key) (column_of index es))
          == length (map (λ e. e.rest) (column_of index es)))
        ≡ true =
      ground arith in
    rw
      (
        get_column_at index m.keys _ (h.keys_at index i),
        get_column_at index m.key_rests _ (h.rests_at index i),
        same,
      )
      refl
