-- ===== src/PhoneticKeyMatrix/Divide.antt =====
-- inner_split_step of src/storage/phonetic_key_matrix.cpp: the loop over the columns, against the
-- halves that the keys of a matrix have.
use mathlib.Core.List.{Memᴰ}
use mathlib.Core.List.Memᴰ
use libpinyin.Common.{
  ℕ, zero, suc, ◌+◌, ◌<◌, ◌≡◌, refl, sym, ap, subst, inl, inr, true, Bool-cases, some, List, [],
  ◌∷◌, ◌++◌, map, append-nil, append_assoc, ◌==◌, false, length, arith,
}
use libpinyin.PinyinParser.{ChewingKeyRest, is_set}
use libpinyin.PhoneticKeyMatrix.{PhoneticKeyMatrix, size}
use libpinyin.PhoneticKeyMatrix.Entries.{Entry, column_of, Holds}
use libpinyin.PhoneticKeyMatrix.Rows.{column_of-Memᴰ, Memᴰ-column_of, get_items-Holds}
use libpinyin.PhoneticKeyMatrix.Halved.{IsHalved, divide_column-IsHalved}
use libpinyin.PhoneticKeyMatrix.Halves.{IsFirst, second_half, IsHalf, HasHalves}
use libpinyin.PhoneticKeyMatrix.Steps.{
  DividedTableItem, divide_column, divide_columns, inner_split_step, use_divided_table,
}

-- Every item of the table names a first half that is written with a letter at least.
abbrev pub AllAdvance : List DividedTableItem → Type 0
AllAdvance [] = Unit {0}
AllAdvance (item ∷ items) = (0 < length item.first_new_key) × AllAdvance items

-- The keys that are divided if the table has them: those of the matrix, and the second halves.
pub data Arises (table : List DividedTableItem) (n : ℕ) (es : List Entry) : Entry → Type 0 where
  old : (e : Entry) → Memᴰ e es → e.index < n → Arises table n es e
  second :
      (e x : Entry) (item : DividedTableItem)
      → Arises table n es e
      → IsFirst e.key table item
      → x ≡ second_half item e
      → x.index < n
      → Arises table n es x

-- The new entries are the halves of all such keys.
pub record IsDivided (table : List DividedTableItem) (n : ℕ) (es new : List Entry) : Type 0 where
  pub complete : (e : Entry) → Arises table n es e → HasHalves table n e new
  pub sound : (x : Entry) → Memᴰ x new → (e : Entry) × Arises table n es e × IsHalf table n e x

IsFirst-advances :
    (e : Entry) {table : List DividedTableItem} {item : DividedTableItem}
    → AllAdvance table
    → IsFirst e.key table item
    → 0 < length item.first_new_key
IsFirst-advances e a (IsFirst.here _ q) = a.0
IsFirst-advances e a (IsFirst.there _ ne first) = IsFirst-advances e a.1 first

module _ (table : List DividedTableItem) (advance : AllAdvance table) (n : ℕ)
    (es : List Entry) where
  -- What the columns in front of `index` have added.
  record Progress (index : ℕ) (new : List Entry) : Type 0 where
    complete : (e : Entry) → Arises table n es e → e.index < index → HasHalves table n e new
    sound :
        (x : Entry)
        → Memᴰ x new
        → (e : Entry) × (e.index < index) × Arises table n es e × IsHalf table n e x

  -- What a column holds when the loop comes to it.
  met-Arises :
      (index : ℕ) (new : List Entry) (e : Entry)
      → index < n
      → Progress index new
      → Memᴰ e (column_of index (es ++ new))
      → Arises table n es e
  met-Arises index new e i p m =
      let (u, at) = column_of-Memᴰ index e (es ++ new) m in
      elim (Memᴰ.append_cases es u) [
        | inl t ↦ old e t (omega arith)
        | inr t ↦ from_new at (p.sound e t)
      ]
    where
      from_new :
          e.index ≡ index
          → (y : Entry) × (y.index < index) × Arises table n es y × IsHalf table n y e
          → Arises table n es e
      from_new at (y, before, arises, (item, first, inl q)) =
          let same : e.index ≡ y.index = ap (λ z. z.index) q in absurd (omega arith)
      from_new at (y, before, arises, (item, first, inr (q, inside))) =
          second y e item arises first q inside

  Arises-met :
      (index : ℕ) (new : List Entry) (e : Entry)
      → Progress index new
      → e.index ≡ index
      → Arises table n es e
      → Memᴰ e (column_of index (es ++ new))
  Arises-met index new e p at (old _ t inside) =
      Memᴰ-column_of index e (es ++ new) (Memᴰ.append_left new t) at
  Arises-met index new e p at (second y _ item arises first q inside) =
      let ahead = IsFirst-advances y advance first in
      let place : e.index ≡ y.index + length item.first_new_key = ap (λ z. z.index) q in
      let (one, two) = p.complete y arises (omega arith) item first in
      Memᴰ-column_of index e (es ++ new) (Memᴰ.append_right es (Memᴰ.cast q (two (omega arith)))) at

  advanced :
      (index : ℕ) (new more : List Entry)
      → index < n
      → Progress index new
      → IsHalved table n (column_of index (es ++ new)) more
      → Progress (suc index) (new ++ more)
  advanced index new more i p h = record {
    complete = λ e a k. elim (Bool-cases (e.index == index)) [
      | inl at ↦ λ item first.
          let (one, two) = h.complete e (Arises-met index new e p (ground arith) a) item first in
          (Memᴰ.append_right new one, λ inside. Memᴰ.append_right new (two inside))
      | inr other ↦ λ item first.
          let (one, two) = p.complete e a (ground arith) item first in
          (Memᴰ.append_left more one, λ inside. Memᴰ.append_left more (two inside))
    ];
    sound = λ x m. elim (Memᴰ.append_cases new m) [
      | inl t ↦ let (e, k, a, half) = p.sound x t in (e, omega arith, a, half)
      | inr t ↦
          let (e, u, half) = h.sound x t in
          let (v, at) = column_of-Memᴰ index e (es ++ new) u in
          (e, omega arith, met-Arises index new e i p u, half)
    ];
  }

  divide_columns-Holds :
      (count index : ℕ) (rests : List ChewingKeyRest) (m : PhoneticKeyMatrix) (new : List Entry)
      → index + count ≡ n
      → Holds m n (es ++ new)
      → Progress index new
      → (next : PhoneticKeyMatrix) × (all : List Entry) × (divide_columns table index count rests m
          ≡ some next)
        × Holds next n (es ++ all)
        × Progress n all
  unfolding divide_columns
  divide_columns-Holds zero index rests m new total h p =
      (m, new, refl, h, subst (λ i. Progress i new) (omega arith) p)
  divide_columns-Holds (suc count) index rests m new total h p =
      let cs : List Entry = column_of index (es ++ new) in
      let i : index < n = omega arith in
      let (more, g, k) =
        divide_column-IsHalved table n index cs m (es ++ new) i
          (λ e t. (column_of-Memᴰ index e (es ++ new) t).1) h in
      let mid : PhoneticKeyMatrix =
        divide_column table index (map (λ e. e.key) cs) (map (λ e. e.rest) cs) m in
      let (next, all, f, g2, p2) =
        divide_columns-Holds count (suc index) (map (λ e. e.rest) cs) mid (new ++ more)
          (omega arith) (subst (Holds mid n) (append_assoc es new more) g)
          (advanced index new more i p k) in
      (next, all, rw (get_items-Holds m n index (es ++ new) rests h i, f) refl, g2, p2)

inner_split_step_lem :
    (table : List DividedTableItem) (options n : ℕ) (es : List Entry) (m next : PhoneticKeyMatrix)
    → is_set options use_divided_table ≡ true
    → 0 < n
    → Holds m n es
    → divide_columns table 0 n [] m ≡ some next
    → inner_split_step table options m ≡ some (true, next)
unfolding inner_split_step size
inner_split_step_lem table options n es m next p positive h e =
    let k = h.keys_size in
    let r = h.rests_size in
    let same : (n == n) ≡ true = ground arith in
    let z : (n == 0) ≡ false = ground arith in rw (p, k, r, same, z, e) refl

-- inner_split_step, with its option set, adds to a matrix of at least a column exactly the halves of
-- the keys that the table divides, each with its place, behind what the columns held: the keys are
-- those of the matrix and the second halves, a key is divided by the first item that has it, and a
-- second half whose column the matrix does not have is left out. Each item names a first half of a
-- letter or more.
pub inner_split_step-IsDivided :
    (table : List DividedTableItem) (options n : ℕ) (es : List Entry) (m : PhoneticKeyMatrix)
    → AllAdvance table
    → is_set options use_divided_table ≡ true
    → 0 < n
    → Holds m n es
    → (next : PhoneticKeyMatrix) × (new : List Entry) × (inner_split_step table options m
        ≡ some (true, next))
      × Holds next n (es ++ new)
      × IsDivided table n es new
inner_split_step-IsDivided table options n es m advance p positive h =
    let (next, new, e, g, done) =
      divide_columns-Holds table advance n es n 0 [] m [] (omega arith)
        (subst (Holds m n) (sym (append-nil es)) h)
        (record {
          complete = λ e a early. absurd (omega arith);
          sound = λ x t. absurd (Memᴰ.not-nil t);
        }) in
    (
      next,
      new,
      inner_split_step_lem table options n es m next p positive h e,
      g,
      record {
        complete = λ x a. done.complete x a (Arises_inside a);
        sound = λ x t. let (y, early, a, half) = done.sound x t in (y, a, half);
      },
    )
  where
    Arises_inside : {x : Entry} → Arises table n es x → x.index < n
    Arises_inside (old _ t inside) = inside
    Arises_inside (second _ _ item a first q inside) = inside
