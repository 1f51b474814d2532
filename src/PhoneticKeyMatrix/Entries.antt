-- ===== src/PhoneticKeyMatrix/Entries.antt =====
-- What the columns of a src/storage/phonetic_key_matrix.h matrix hold behind a sequence of appends.
use libpinyin.Common.{
  ℕ, zero, suc, ◌<◌, ◌≡◌, ◌≢◌, refl, sym, ap, ◌∙◌, inl, inr, true, Bool-cases, ◌==◌, if◌then◌else◌,
  some, List, [], ◌∷◌, ◌++◌, map, append-nil, length, get_elem?, get_elem?-replicate,
  length-replicate, arith,
}
use libpinyin.PinyinPhrase.{ChewingKey}
use libpinyin.PinyinParser.{ChewingKeyRest}
use libpinyin.PhoneticKeyMatrix.{PhoneticTable, PhoneticKeyMatrix, append_item, append, set_size}

-- An append to the column `index`.
pub record Entry : Type 0 where
  pub index : ℕ
  pub key : ChewingKey
  pub rest : ChewingKeyRest

-- The entries of a column, in their order.
abbrev pub column_of : ℕ → List Entry → List Entry
column_of j [] = []
column_of j (e ∷ es) = let rest = column_of j es in if e.index == j then e ∷ rest else rest

pub column_of-append :
    (j : ℕ) (es fs : List Entry) → column_of j (es ++ fs) ≡ column_of j es ++ column_of j fs
column_of-append j [] fs = refl
column_of-append j (e ∷ es) fs = elim (Bool-cases (e.index == j)) [
  | inl p ↦ rw p (ap (◌∷◌ e) (column_of-append j es fs))
  | inr p ↦ rw p (column_of-append j es fs)
]

module _ {ℓ} {A : Type ℓ} where
  pub record IsAppended (index : ℕ) (x : A) (table : PhoneticTable A) : Type ℓ where
    pub done : (append_item index x table).0 ≡ true
    pub size : length (append_item index x table).1 ≡ length table
    pub here :
        (column : List A)
        → get_elem? table index ≡ some column
        → get_elem? (append_item index x table).1 index ≡ some (column ++ (x ∷ []))
    pub others : (j : ℕ) → j ≢ index → get_elem? (append_item index x table).1 j ≡ get_elem? table j

  pub append_item_lem :
      (index : ℕ) (x : A) (table : PhoneticTable A)
      → index < length table
      → IsAppended index x table
  unfolding append_item
  append_item_lem index x [] h = absurd (omega arith)
  append_item_lem zero x (column ∷ columns) h = record {
    done = refl;
    size = refl;
    here = λ c e. let c_is : column ≡ c = cc in rw c_is refl;
    others = others;
  }
    where
      others :
          (j : ℕ)
          → j ≢ 0
          → get_elem? ((column ++ (x ∷ [])) ∷ columns) j ≡ get_elem? (column ∷ columns) j
      others zero n = absurd (n refl)
      others (suc j) n = refl
  append_item_lem (suc index) x (column ∷ columns) h =
      let rest = append_item_lem index x columns (omega arith) in
      record { done = rest.done; size = ap suc rest.size; here = rest.here; others = others rest }
    where
      others :
          IsAppended index x columns
          → (j : ℕ) → j ≢ suc index
          → get_elem? (column ∷ (append_item index x columns).1) j ≡ get_elem? (column ∷ columns) j
      others rest zero n = refl
      others rest (suc j) n = rest.others j (λ e. n (ap suc e))

-- The matrix of `n` columns that the appends leave.
pub record Holds (matrix : PhoneticKeyMatrix) (n : ℕ) (es : List Entry) : Type 0 where
  pub keys_size : length matrix.keys ≡ n
  pub rests_size : length matrix.key_rests ≡ n
  pub keys_at : (j : ℕ) → j < n → get_elem? matrix.keys j ≡ some (map (λ e. e.key) (column_of j es))
  pub rests_at :
      (j : ℕ) → j < n → get_elem? matrix.key_rests j ≡ some (map (λ e. e.rest) (column_of j es))

map-snoc :
    {A : Type 0} (f : Entry → A) (es : List Entry) (e : Entry)
    → map f es ++ (f e ∷ []) ≡ map f (es ++ (e ∷ []))
map-snoc f [] e = refl
map-snoc f (x ∷ es) e = ap (◌∷◌ (f x)) (map-snoc f es e)

pub set_size-Holds : (n : ℕ) → Holds (set_size n) n []
unfolding set_size
set_size-Holds n = record {
  keys_size = length-replicate n [];
  rests_size = length-replicate n [];
  keys_at = λ j h. get_elem?-replicate n j [] h;
  rests_at = λ j h. get_elem?-replicate n j [] h;
}

column_of-snoc :
    (es : List Entry) (e : Entry) (j : ℕ)
    → column_of j (es ++ (e ∷ []))
      ≡ (if e.index == j then column_of j es ++ (e ∷ []) else column_of j es)
column_of-snoc es e j = elim (Bool-cases (e.index == j)) [
  | inl p ↦ column_of-append j es (e ∷ []) ∙ rw p refl
  | inr p ↦ column_of-append j es (e ∷ []) ∙ rw p (append-nil (column_of j es))
]

pub append-Holds :
    (matrix : PhoneticKeyMatrix) (n : ℕ) (es : List Entry) (e : Entry)
    → Holds matrix n es
    → e.index < n
    → Holds (append e.index e.key e.rest matrix).1 n (es ++ (e ∷ []))
unfolding append
append-Holds matrix n es e h i =
    let keys = append_item_lem e.index e.key matrix.keys (omega (arith, h.keys_size)) in
    let rests = append_item_lem e.index e.rest matrix.key_rests (omega (arith, h.rests_size)) in
    rw keys.done (record {
      keys_size = keys.size ∙ h.keys_size;
      rests_size = rests.size ∙ h.rests_size;
      keys_at = λ j k. at (λ x. x.key) matrix.keys j keys (h.keys_at j k);
      rests_at = λ j k. at (λ x. x.rest) matrix.key_rests j rests (h.rests_at j k);
    })
  where
    at :
        {A : Type 0} (f : Entry → A) (table : PhoneticTable A) (j : ℕ)
        → IsAppended e.index (f e) table
        → get_elem? table j ≡ some (map f (column_of j es))
        → get_elem? (append_item e.index (f e) table).1 j
          ≡ some (map f (column_of j (es ++ (e ∷ []))))
    at f table j a g = elim (Bool-cases (e.index == j)) [
      | inl p ↦
          let j_is : j ≡ e.index = ground arith in
          ap (get_elem? (append_item e.index (f e) table).1) j_is
          ∙ a.here (map f (column_of j es)) (ap (get_elem? table) (sym j_is) ∙ g)
          ∙ ap some
              (map-snoc f (column_of j es) e ∙ ap (map f) (sym (column_of-snoc es e j ∙ rw p refl)))
      | inr p ↦
          a.others j (λ q. ground arith)
          ∙ g
          ∙ ap (λ x. some (map f x)) (sym (column_of-snoc es e j ∙ rw p refl))
    ]
