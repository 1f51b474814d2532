-- ===== src/PhoneticKeyMatrix/Halves.antt =====
-- What inner_split_step of src/storage/phonetic_key_matrix.cpp makes of a column: the halves of its
-- keys.
use mathlib.Core.List.{Memᴰ}
use mathlib.Core.List.Memᴰ
use libpinyin.Common.{
  ℕ, zero, suc, ◌+◌, ◌%◌, ◌≤◌, ◌<◌, ◌≡◌, ◌≢◌, ◌⊎◌, refl, sym, ap, subst, inl, inr, true, false,
  Bool-cases, some, List, [], ◌∷◌, ◌++◌, append_assoc, ltb, if◌then◌else◌, length, arith,
}
use libpinyin.Common.Words.{u16_mod}
use libpinyin.PinyinPhrase.{ChewingKey, same_key}
use libpinyin.PinyinParser.{ChewingKeyRest}
use libpinyin.PhoneticKeyMatrix.{PhoneticTable, PhoneticKeyMatrix, append_item, append}
use libpinyin.PhoneticKeyMatrix.Entries.{Entry, Holds, append-Holds}
use libpinyin.PhoneticKeyMatrix.Steps.{DividedTableItem, find_divided, divide}

-- The first item of the table for a key.
pub data IsFirst (key : ChewingKey) : List DividedTableItem → DividedTableItem → Type 0 where
  here :
      (item : DividedTableItem) {items : List DividedTableItem}
      → key ≡ item.orig_struct
      → IsFirst key (item ∷ items) item
  there :
      (other : DividedTableItem) {items : List DividedTableItem} {item : DividedTableItem}
      → key ≢ other.orig_struct
      → IsFirst key items item
      → IsFirst key (other ∷ items) item

-- The halves of a key: the first begins where the key does and ends where the second begins, which
-- ends where the key does.
abbrev pub first_half : DividedTableItem → Entry → Entry
first_half item e = record {
  index = e.index;
  key = item.first_new_struct;
  rest = record {
    raw_begin = e.rest.raw_begin;
    raw_end = (e.index + length item.first_new_key) % u16_mod;
  };
}

abbrev pub second_half : DividedTableItem → Entry → Entry
second_half item e = record {
  index = e.index + length item.first_new_key;
  key = item.second_new_struct;
  rest = record {
    raw_begin = (e.index + length item.first_new_key) % u16_mod;
    raw_end = e.rest.raw_end;
  };
}

-- An entry is a half of a key that the table divides; a second half lies in the matrix.
abbrev pub IsHalf : List DividedTableItem → ℕ → Entry → Entry → Type 0
IsHalf table n e x =
    (item : DividedTableItem) × IsFirst e.key table item
    × ((x ≡ first_half item e) ⊎ ((x ≡ second_half item e) × (x.index < n)))

-- Both halves of a key that the table divides are there, the second where the matrix has its column.
abbrev pub HasHalves : List DividedTableItem → ℕ → Entry → List Entry → Type 0
HasHalves table n e new =
    (item : DividedTableItem)
    → IsFirst e.key table item
    → Memᴰ (first_half item e) new
      × (e.index + length item.first_new_key < n → Memᴰ (second_half item e) new)

same_key_eq : (a b : ChewingKey) → same_key a b ≡ true → a ≡ b
unfolding same_key
same_key_eq a b h = ground arith

same_key_refl : (a : ChewingKey) → same_key a a ≡ true
unfolding same_key
same_key_refl a = ground arith

pub find_divided-IsFirst :
    (key : ChewingKey) (table : List DividedTableItem) (item : DividedTableItem)
    → find_divided key table ≡ some item
    → IsFirst key table item
unfolding find_divided
find_divided-IsFirst key [] item h = absurd cc
find_divided-IsFirst key (x ∷ xs) item h = elim (Bool-cases (same_key key x.orig_struct)) [
  | inl p ↦
      let x_is : x ≡ item = cc in
      subst (IsFirst key (x ∷ xs)) x_is (here x (same_key_eq key x.orig_struct p))
  | inr p ↦
      there x
        (λ e.
          let q : same_key key x.orig_struct ≡ true =
            subst (λ k. same_key key k ≡ true) e (same_key_refl key) in
          absurd cc)
        (find_divided-IsFirst key xs item (ground arith))
]

pub IsFirst-find_divided :
    (key : ChewingKey) (table : List DividedTableItem) (item : DividedTableItem)
    → IsFirst key table item
    → find_divided key table ≡ some item
unfolding find_divided
IsFirst-find_divided key _ item (here _ {items} e) =
    let p : same_key key item.orig_struct ≡ true =
      subst (λ k. same_key key k ≡ true) e (same_key_refl key) in
    rw p refl
IsFirst-find_divided key _ item (there other {items} ne first) =
    elim (Bool-cases (same_key key other.orig_struct)) [
      | inl p ↦ absurd (ne (same_key_eq key other.orig_struct p))
      | inr p ↦ rw p (IsFirst-find_divided key items item first)
    ]

append_item_out :
    {A : Type 0} (index : ℕ) (x : A) (t : PhoneticTable A)
    → length t ≤ index
    → append_item index x t ≡ (false, t)
unfolding append_item
append_item_out index x [] h = refl
append_item_out zero x (c ∷ cs) h = absurd (omega arith)
append_item_out (suc index) x (c ∷ cs) h = rw (append_item_out index x cs (omega arith)) refl

append_out :
    (index : ℕ) (key : ChewingKey) (rest : ChewingKeyRest) (m : PhoneticKeyMatrix)
    → length m.keys ≤ index
    → (append index key rest m).1 ≡ m
unfolding append
append_out index key rest m h = rw (append_item_out index key m.keys h) refl

-- The new entries of a divided key.
abbrev pub halves : ℕ → DividedTableItem → Entry → List Entry
halves n item e =
    first_half item e
    ∷ (if ltb (e.index + length item.first_new_key) n then second_half item e ∷ [] else [])

pub halves_has :
    (n : ℕ) (item : DividedTableItem) (e : Entry)
    → Memᴰ (first_half item e) (halves n item e)
      × (e.index + length item.first_new_key < n → Memᴰ (second_half item e) (halves n item e))
halves_has n item e = (
  Memᴰ.head refl,
  λ h.
      let p : ltb (e.index + length item.first_new_key) n ≡ true = ground arith in
      rw p (Memᴰ.tail (Memᴰ.head refl)),
)

pub halves_cases :
    (n : ℕ) (item : DividedTableItem) (e x : Entry)
    → Memᴰ x (halves n item e)
    → (x ≡ first_half item e) ⊎ ((x ≡ second_half item e) × (x.index < n))
halves_cases n item e x m = elim (Memᴰ.cases_cons m) [
  | inl q ↦ inl q
  | inr t ↦ inr (elim (Bool-cases (ltb (e.index + length item.first_new_key) n)) [
    | inl p ↦
        let q : x ≡ second_half item e =
          Memᴰ.eq_of_singleton
            (subst (λ b. Memᴰ x (if b then second_half item e ∷ [] else [])) p t) in
        let i : x.index ≡ e.index + length item.first_new_key = ap (λ y. y.index) q in
        (q, ground arith)
    | inr p ↦
        absurd (Memᴰ.not-nil (subst (λ b. Memᴰ x (if b then second_half item e ∷ [] else [])) p t))
  ])
]

pub divide-Holds :
    (n : ℕ) (e : Entry) (item : DividedTableItem) (m : PhoneticKeyMatrix) (es : List Entry)
    → Holds m n es
    → e.index < n
    → Holds (divide e.index e.rest item m) n (es ++ halves n item e)
unfolding divide append
divide-Holds n e item m es h i =
    let first = append-Holds m n es (first_half item e) h i in
    let mid : PhoneticKeyMatrix =
      (append e.index item.first_new_struct (first_half item e).rest m).1 in
    elim (Bool-cases (ltb (e.index + length item.first_new_key) n)) [
      | inl p ↦
          let second =
            append-Holds mid n (es ++ (first_half item e ∷ [])) (second_half item e) first
              (ground arith) in
          rw p (
            subst
              (Holds
                (append (second_half item e).index item.second_new_struct (second_half item e).rest
                  mid).1
                n)
              (append_assoc es (first_half item e ∷ []) (second_half item e ∷ [])) second)
      | inr p ↦ rw p (
          subst (λ z. Holds z n (es ++ (first_half item e ∷ [])))
            (sym (
              append_out (e.index + length item.first_new_key) item.second_new_struct
                (second_half item e).rest mid (ground (arith, first.keys_size))))
            first)
    ]
