-- ===== src/PhoneticKeyMatrix/Growth.antt =====
-- src/storage/phonetic_key_matrix.cpp: appends keep the columns of keys and places equally long, and
-- keep what the columns hold.
use libpinyin.Common.{
  ℕ, zero, suc, ◌≤◌, ◌<◌, ◌≡◌, refl, sym, ap, ◌∙◌, inl, inr, true, false, Bool-cases, some, List,
  [], ◌∷◌, ◌++◌, ◌==◌, append-nil, append_assoc, length, length-append, arith,
}
use libpinyin.PinyinPhrase.{ChewingKey}
use libpinyin.PinyinParser.{ChewingKeyRest}
use libpinyin.PhoneticKeyMatrix.{
  PhoneticTable, PhoneticKeyMatrix, append_item, append, get_column, get_items, size,
}

-- The two tables have columns of the same lengths.
abbrev pub AreAligned {ℓ κ} : {A : Type ℓ} {B : Type κ} → PhoneticTable A → PhoneticTable B → Type 0
AreAligned [] [] = Unit {0}
AreAligned [] (d ∷ ds) = ⊥
AreAligned (c ∷ cs) [] = ⊥
AreAligned (c ∷ cs) (d ∷ ds) = (length c ≡ length d) × AreAligned cs ds

abbrev pub IsAligned : PhoneticKeyMatrix → Type 0
IsAligned matrix = AreAligned matrix.keys matrix.key_rests

-- Every column is a beginning of the later one.
abbrev pub Extends : {A : Type 0} → PhoneticTable A → PhoneticTable A → Type 0
Extends [] [] = Unit {0}
Extends [] (d ∷ ds) = ⊥
Extends (c ∷ cs) [] = ⊥
Extends {A = A} (c ∷ cs) (d ∷ ds) = ((more : List A) × (d ≡ c ++ more)) × Extends cs ds

module _ {A : Type 0} where
  pub Extends-refl : (t : PhoneticTable A) → Extends t t
  Extends-refl [] = tt
  Extends-refl (c ∷ cs) = (([], sym (append-nil c)), Extends-refl cs)

  pub Extends-trans : (s t u : PhoneticTable A) → Extends s t → Extends t u → Extends s u
  Extends-trans [] [] [] p q = tt
  Extends-trans [] [] (e ∷ es) p q = absurd q
  Extends-trans [] (d ∷ ds) u p q = absurd p
  Extends-trans (c ∷ cs) [] u p q = absurd p
  Extends-trans (c ∷ cs) (d ∷ ds) [] p q = absurd q
  Extends-trans (c ∷ cs) (d ∷ ds) (e ∷ es) ((x, m), p) ((y, n), q) =
      ((x ++ y, n ∙ ap (λ z. z ++ y) m ∙ append_assoc c x y), Extends-trans cs ds es p q)

  append_item-Extends :
      (index : ℕ) (x : A) (t : PhoneticTable A) → Extends t (append_item index x t).1
  unfolding append_item
  append_item-Extends index x [] = tt
  append_item-Extends zero x (c ∷ cs) = ((x ∷ [], refl), Extends-refl cs)
  append_item-Extends (suc index) x (c ∷ cs) =
      (([], sym (append-nil c)), append_item-Extends index x cs)

append_item-AreAligned :
    {A : Type 0} {B : Type 0} (index : ℕ) (x : A) (y : B) (s : PhoneticTable A)
    (t : PhoneticTable B)
    → AreAligned s t
    → ((append_item index x s).0 ≡ (append_item index y t).0)
      × AreAligned (append_item index x s).1 (append_item index y t).1
unfolding append_item
append_item-AreAligned index x y [] [] a = (refl, tt)
append_item-AreAligned index x y [] (d ∷ ds) a = absurd a
append_item-AreAligned index x y (c ∷ cs) [] a = absurd a
append_item-AreAligned zero x y (c ∷ cs) (d ∷ ds) (e, a) =
    (refl, (omega (arith, length-append c (x ∷ []), length-append d (y ∷ [])), a))
append_item-AreAligned (suc index) x y (c ∷ cs) (d ∷ ds) (e, a) =
    let (f, b) = append_item-AreAligned index x y cs ds a in (f, (e, b))

-- The matrix `next` comes of `matrix` by appends.
pub record Grows (matrix next : PhoneticKeyMatrix) : Type 0 where
  pub aligned : IsAligned next
  pub keys : Extends matrix.keys next.keys
  pub rests : Extends matrix.key_rests next.key_rests

pub Grows-refl : (m : PhoneticKeyMatrix) → IsAligned m → Grows m m
Grows-refl m a = record {
  aligned = a;
  keys = Extends-refl m.keys;
  rests = Extends-refl m.key_rests;
}

pub Grows-trans : {a b c : PhoneticKeyMatrix} → Grows a b → Grows b c → Grows a c
Grows-trans {a} {b} {c} g h = record {
  aligned = h.aligned;
  keys = Extends-trans a.keys b.keys c.keys g.keys h.keys;
  rests = Extends-trans a.key_rests b.key_rests c.key_rests g.rests h.rests;
}

-- PhoneticKeyMatrix::append.
pub append-Grows :
    (index : ℕ) (key : ChewingKey) (rest : ChewingKeyRest) (m : PhoneticKeyMatrix)
    → IsAligned m
    → Grows m (append index key rest m).1
unfolding append
append-Grows index key rest m a =
    let (e, b) = append_item-AreAligned index key rest m.keys m.key_rests a in
    elim (Bool-cases (append_item index key m.keys).0) [
      | inl p ↦ rw p (record {
        aligned = b;
        keys = append_item-Extends index key m.keys;
        rests = append_item-Extends index rest m.key_rests;
      })
      | inr p ↦ rw p (record {
        aligned = refused p a;
        keys = append_item-Extends index key m.keys;
        rests = Extends-refl m.key_rests;
      })
    ]
  where
    unchanged :
        (index : ℕ) (t : PhoneticTable ChewingKey)
        → (append_item index key t).0 ≡ false
        → (append_item index key t).1 ≡ t
    unchanged index [] p = refl
    unchanged zero (c ∷ cs) p = absurd cc
    unchanged (suc index) (c ∷ cs) p = ap (◌∷◌ c) (unchanged index cs p)

    refused :
        (append_item index key m.keys).0 ≡ false
        → IsAligned m
        → AreAligned (append_item index key m.keys).1 m.key_rests
    refused p a = rw (unchanged index m.keys p) a

get_column_lem :
    {A : Type 0} {B : Type 0} (index : ℕ) (s : PhoneticTable A) (t : PhoneticTable B)
    → AreAligned s t
    → index < length s
    → (c : List A) × (d : List B) × (get_column index s ≡ (true, c))
      × (get_column index t ≡ (true, d))
      × (length c ≡ length d)
unfolding get_column
get_column_lem index [] t a h = absurd (omega arith)
get_column_lem index (c ∷ cs) [] a h = absurd a
get_column_lem zero (c ∷ cs) (d ∷ ds) a h = (c, d, refl, refl, a.0)
get_column_lem (suc index) (c ∷ cs) (d ∷ ds) a h = get_column_lem index cs ds a.1 (omega arith)

-- What get_items answers for a column that is there.
pub get_items_lem :
    (index : ℕ) (m : PhoneticKeyMatrix) (old : List ChewingKeyRest)
    → IsAligned m
    → index < length m.keys
    → (keys : List ChewingKey) × (rests : List ChewingKeyRest) × (get_items index m old
        ≡ some (true, keys, rests))
      × (get_column index m.keys ≡ (true, keys))
unfolding get_items
get_items_lem index m old a h =
    let (c, d, e, f, g) = get_column_lem index m.keys m.key_rests a h in
    let same : (length c == length d) ≡ true = ground arith in (c, d, rw (e, f, same) refl, e)

pub AreAligned-length :
    {A : Type 0} {B : Type 0} (s : PhoneticTable A) (t : PhoneticTable B)
    → AreAligned s t
    → length s ≡ length t
AreAligned-length [] [] a = refl
AreAligned-length [] (d ∷ ds) a = absurd a
AreAligned-length (c ∷ cs) [] a = absurd a
AreAligned-length (c ∷ cs) (d ∷ ds) a = ap suc (AreAligned-length cs ds a.1)

pub Extends-length : {A : Type 0} (s t : PhoneticTable A) → Extends s t → length t ≡ length s
Extends-length [] [] p = refl
Extends-length [] (d ∷ ds) p = absurd p
Extends-length (c ∷ cs) [] p = absurd p
Extends-length (c ∷ cs) (d ∷ ds) p = ap suc (Extends-length cs ds p.1)

-- A column that held something holds something still.
pub Extends-column :
    {A : Type 0} (index : ℕ) (s t : PhoneticTable A) (c d : List A)
    → Extends s t
    → get_column index s ≡ (true, c)
    → get_column index t ≡ (true, d)
    → length c ≤ length d
unfolding get_column
Extends-column index [] t c d p e f = absurd cc
Extends-column index (x ∷ xs) [] c d p e f = absurd p
Extends-column zero (x ∷ xs) (y ∷ ys) c d ((more, m), p) e f =
    let c_is : x ≡ c = ap (λ z. z.1) e in
    let d_is : y ≡ d = ap (λ z. z.1) f in
    rw (sym c_is, sym d_is, m) (omega (arith, length-append x more))
Extends-column (suc index) (x ∷ xs) (y ∷ ys) c d p e f = Extends-column index xs ys c d p.1 e f

-- PhoneticKeyMatrix::size.
pub size_lem : (m : PhoneticKeyMatrix) → IsAligned m → size m ≡ some (length m.keys)
unfolding size
size_lem m a =
    let n = AreAligned-length m.keys m.key_rests a in
    let same : (length m.keys == length m.key_rests) ≡ true = ground arith in rw same refl
