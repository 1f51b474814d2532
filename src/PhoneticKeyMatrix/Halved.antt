-- ===== src/PhoneticKeyMatrix/Halved.antt =====
-- The loop over the keys of a column in inner_split_step of src/storage/phonetic_key_matrix.cpp.
use mathlib.Core.List.{Memᴰ}
use mathlib.Core.List.Memᴰ
use libpinyin.Common.{
  ℕ, ◌+◌, ◌<◌, ◌≡◌, refl, sym, ap, ap₂, subst, inl, inr, Option-cases, none, some, List, [], ◌∷◌,
  ◌++◌, map, append-nil, append_assoc, length, arith,
}
use libpinyin.PhoneticKeyMatrix.{PhoneticKeyMatrix}
use libpinyin.PhoneticKeyMatrix.Entries.{Entry, Holds}
use libpinyin.PhoneticKeyMatrix.Steps.{DividedTableItem, find_divided, divide, divide_column}
use libpinyin.PhoneticKeyMatrix.Halves.{
  first_half, second_half, IsHalf, HasHalves, find_divided-IsFirst, IsFirst-find_divided, halves,
  halves_has, halves_cases, divide-Holds,
}

-- The halves of the keys of a column, and nothing else.
pub record IsHalved (table : List DividedTableItem) (n : ℕ) (es new : List Entry) : Type 0 where
  pub complete : (e : Entry) → Memᴰ e es → HasHalves table n e new
  pub sound : (x : Entry) → Memᴰ x new → (e : Entry) × Memᴰ e es × IsHalf table n e x

nothing-IsHalved : (table : List DividedTableItem) (n : ℕ) → IsHalved table n [] []
nothing-IsHalved table n = record {
  complete = λ e m. absurd (Memᴰ.not-nil m);
  sound = λ x m. absurd (Memᴰ.not-nil m);
}

-- A key that the table does not have.
kept-IsHalved :
    (table : List DividedTableItem) (n : ℕ) (e : Entry) (es new : List Entry)
    → find_divided e.key table ≡ none
    → IsHalved table n es new
    → IsHalved table n (e ∷ es) new
kept-IsHalved table n e es new absent h = record {
  complete = λ x m. elim (Memᴰ.cases_cons m) [
    | inl q ↦ λ item first.
        let e_found = IsFirst-find_divided x.key table item first in
        let again = ap (λ y. find_divided y.key table) q in absurd cc
    | inr t ↦ h.complete x t
  ];
  sound = λ x m. let (y, t, half) = h.sound x m in (y, Memᴰ.tail t, half);
}

-- A key that it has.
divided-IsHalved :
    (table : List DividedTableItem) (n : ℕ) (e : Entry) (item : DividedTableItem)
    (es new : List Entry)
    → find_divided e.key table ≡ some item
    → IsHalved table n es new
    → IsHalved table n (e ∷ es) (halves n item e ++ new)
divided-IsHalved table n e item es new found h = record {
  complete = λ x m. elim (Memᴰ.cases_cons m) [
    | inl q ↦ λ other first.
        let e_found = IsFirst-find_divided x.key table other first in
        let again = ap (λ y. find_divided y.key table) q in
        let same : item ≡ other = cc in
        let (one, two) = halves_has n item e in
        (
          Memᴰ.append_left new (Memᴰ.cast (ap₂ first_half (sym same) q) one),
          λ p. Memᴰ.append_left new (
              Memᴰ.cast (ap₂ second_half (sym same) q) (
                two (
                  subst (λ i. i < n) (ap₂ (λ z y. y.index + length z.first_new_key) (sym same) q)
                    p))),
        )
    | inr t ↦ λ other first.
        let (one, two) = h.complete x t other first in
        (Memᴰ.append_right (halves n item e) one, λ p. Memᴰ.append_right (halves n item e) (two p))
  ];
  sound = λ x m. elim (Memᴰ.append_cases (halves n item e) m) [
    | inl q ↦ (
      e,
      Memᴰ.head refl,
      (item, find_divided-IsFirst e.key table item found, halves_cases n item e x q),
    )
    | inr t ↦ let (y, u, half) = h.sound x t in (y, Memᴰ.tail u, half)
  ];
}

-- The loop over the keys of a column.
pub divide_column-IsHalved :
    (table : List DividedTableItem) (n index : ℕ) (cs : List Entry) (m : PhoneticKeyMatrix)
    (es : List Entry)
    → index < n
    → ((e : Entry) → Memᴰ e cs → e.index ≡ index)
    → Holds m n es
    → (new : List Entry) × Holds
        (divide_column table index (map (λ e. e.key) cs) (map (λ e. e.rest) cs) m)
        n
        (es ++ new)
      × IsHalved table n cs new
unfolding divide_column
divide_column-IsHalved table n index [] m es i all h =
    ([], subst (Holds m n) (sym (append-nil es)) h, nothing-IsHalved table n)
divide_column-IsHalved table n index (c ∷ cs) m es i all h =
    elim (Option-cases (find_divided c.key table)) [
      | inl q ↦
          let (new, g, k) =
            divide_column-IsHalved table n index cs m es i (λ e t. all e (Memᴰ.tail t)) h in
          rw q (new, g, kept-IsHalved table n c cs new q k)
      | inr (item, q) ↦
          let at : c.index ≡ index = all c (Memᴰ.head refl) in
          let first : Holds (divide index c.rest item m) n (es ++ halves n item c) =
            subst (λ j. Holds (divide j c.rest item m) n (es ++ halves n item c)) at
              (divide-Holds n c item m es h (omega arith)) in
          let (new, g, k) =
            divide_column-IsHalved table n index cs (divide index c.rest item m)
              (es ++ halves n item c) i (λ e t. all e (Memᴰ.tail t)) first in
          rw q (
            halves n item c ++ new,
            subst
                (Holds
                  (divide_column table index (map (λ e. e.key) cs) (map (λ e. e.rest) cs)
                    (divide index c.rest item m))
                  n)
                (append_assoc es (halves n item c) new) g,
            divided-IsHalved table n c item cs new q k,
          )
    ]
