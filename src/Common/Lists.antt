-- ===== src/Common/Lists.antt =====
-- Lists measured and indexed by native numbers, under the library's names, and the slices that a
-- copy of memory reads and writes.
use Prim.Native.Nat.{ℕ, zero, suc, ◌+◌, ◌-◌, ◌≤◌, ◌<◌, min, max}
use mathlib.Core.Path.{◌≡◌, refl, ap, sym, ap₂, ◌∙◌}
use mathlib.Core.Logic.{◌≢◌}
use mathlib.Core.List.{List, [], ◌∷◌, ◌++◌}
use mathlib.Core.Option.{Option, none, some}
use native.Mathlib.Omega.{arith}

module _ {ℓ} {A : Type ℓ} where
  abbrev pub length : List A → ℕ
  length [] = 0
  length (x ∷ xs) = suc (length xs)

  abbrev pub get_elem? : List A → ℕ → Option A
  get_elem? [] i = none
  get_elem? (x ∷ xs) zero = some x
  get_elem? (x ∷ xs) (suc i) = get_elem? xs i

  abbrev pub take : ℕ → List A → List A
  take zero xs = []
  take (suc n) [] = []
  take (suc n) (x ∷ xs) = x ∷ take n xs

  abbrev pub drop : ℕ → List A → List A
  drop zero xs = xs
  drop (suc n) [] = []
  drop (suc n) (x ∷ xs) = drop n xs

  abbrev pub replicate : ℕ → A → List A
  replicate zero a = []
  replicate (suc n) a = a ∷ replicate n a

  -- memmove or memcpy of `data` to the bytes from `offset` on.
  abbrev pub overwrite : ℕ → List A → List A → List A
  overwrite offset bytes xs = take offset xs ++ (bytes ++ drop (offset + length bytes) xs)

module _ {ℓ} {A : Type ℓ} where
  pub length-append : (xs ys : List A) → length (xs ++ ys) ≡ length xs + length ys
  length-append [] ys = omega arith
  length-append (x ∷ xs) ys = omega (arith, length-append xs ys)

  pub length-take : (n : ℕ) (xs : List A) → length (take n xs) ≡ min n (length xs)
  length-take zero xs = omega arith
  length-take (suc n) [] = omega arith
  length-take (suc n) (x ∷ xs) = omega (arith, length-take n xs)

  pub length-drop : (n : ℕ) (xs : List A) → length (drop n xs) ≡ length xs - n
  length-drop zero xs = omega arith
  length-drop (suc n) [] = omega arith
  length-drop (suc n) (x ∷ xs) = omega (arith, length-drop n xs)

  pub length-replicate : (n : ℕ) (a : A) → length (replicate n a) ≡ n
  length-replicate zero a = refl
  length-replicate (suc n) a = ap suc (length-replicate n a)

  pub take-append-drop : (n : ℕ) (xs : List A) → take n xs ++ drop n xs ≡ xs
  take-append-drop zero xs = refl
  take-append-drop (suc n) [] = refl
  take-append-drop (suc n) (x ∷ xs) = ap (◌∷◌ x) (take-append-drop n xs)

  -- A prefix of a concatenation, by where it ends.
  pub take-append_le : (n : ℕ) (xs ys : List A) → n ≤ length xs → take n (xs ++ ys) ≡ take n xs
  take-append_le zero xs ys h = refl
  take-append_le (suc n) [] ys h = absurd (omega arith)
  take-append_le (suc n) (x ∷ xs) ys h = ap (◌∷◌ x) (take-append_le n xs ys (omega arith))

  pub take_past :
      (n m : ℕ) (xs ys : List A) → n ≡ length xs + m → take n (xs ++ ys) ≡ xs ++ take m ys
  take_past n m [] ys h = let e : n ≡ m = omega arith in ap (λ k. take k ys) e
  take_past zero m (x ∷ xs) ys h = absurd (omega arith)
  take_past (suc n) m (x ∷ xs) ys h = ap (◌∷◌ x) (take_past n m xs ys (omega arith))

  pub take_all : (n : ℕ) (xs : List A) → length xs ≤ n → take n xs ≡ xs
  take_all zero [] h = refl
  take_all zero (x ∷ xs) h = absurd (omega arith)
  take_all (suc n) [] h = refl
  take_all (suc n) (x ∷ xs) h = ap (◌∷◌ x) (take_all n xs (omega arith))

  pub take-take : (m n : ℕ) (xs : List A) → m ≤ n → take m (take n xs) ≡ take m xs
  take-take zero n xs h = refl
  take-take (suc m) zero xs h = absurd (omega arith)
  take-take (suc m) (suc n) [] h = refl
  take-take (suc m) (suc n) (x ∷ xs) h = ap (◌∷◌ x) (take-take m n xs (omega arith))

  pub drop-append_le :
      (n : ℕ) (xs ys : List A) → n ≤ length xs → drop n (xs ++ ys) ≡ drop n xs ++ ys
  drop-append_le zero xs ys h = refl
  drop-append_le (suc n) [] ys h = absurd (omega arith)
  drop-append_le (suc n) (x ∷ xs) ys h = drop-append_le n xs ys (omega arith)

  pub drop_past : (n m : ℕ) (xs ys : List A) → n ≡ length xs + m → drop n (xs ++ ys) ≡ drop m ys
  drop_past n m [] ys h = let e : n ≡ m = omega arith in ap (λ k. drop k ys) e
  drop_past zero m (x ∷ xs) ys h = absurd (omega arith)
  drop_past (suc n) m (x ∷ xs) ys h = drop_past n m xs ys (omega arith)

  pub drop_all : (n : ℕ) (xs : List A) → length xs ≤ n → drop n xs ≡ []
  drop_all zero [] h = refl
  drop_all zero (x ∷ xs) h = absurd (omega arith)
  drop_all (suc n) [] h = refl
  drop_all (suc n) (x ∷ xs) h = drop_all n xs (omega arith)

  pub drop-nil : (k : ℕ) → drop {A = A} k [] ≡ []
  drop-nil zero = refl
  drop-nil (suc k) = refl

  pub take-nil : (k : ℕ) → take {A = A} k [] ≡ []
  take-nil zero = refl
  take-nil (suc k) = refl

  -- The part of a prefix behind its first entries.
  pub drop-take : (k n : ℕ) (xs : List A) → drop k (take n xs) ≡ take (n - k) (drop k xs)
  drop-take zero n xs = let e : n ≡ n - 0 = omega arith in ap (λ j. take j xs) e
  drop-take (suc k) zero xs =
      let e : 0 ≡ 0 - suc k = omega arith in ap (λ j. take j (drop (suc k) xs)) e
  drop-take (suc k) (suc n) [] = sym (take-nil (suc n - suc k))
  drop-take (suc k) (suc n) (x ∷ xs) =
      let e : n - k ≡ suc n - suc k = omega arith in
      drop-take k n xs ∙ ap (λ j. take j (drop k xs)) e

  -- A prefix that ends behind the first two parts.
  pub take_past_two :
      (n m : ℕ) (xs ys zs : List A)
      → n ≡ length xs + length ys + m
      → take n (xs ++ (ys ++ zs)) ≡ xs ++ (ys ++ take m zs)
  take_past_two n m xs ys zs h =
      take_past n (length ys + m) xs (ys ++ zs) (omega arith)
      ∙ ap (◌++◌ xs) (take_past (length ys + m) m ys zs refl)

  pub drop-drop : (m n : ℕ) (xs : List A) → drop m (drop n xs) ≡ drop (n + m) xs
  drop-drop m zero xs = let e : m ≡ 0 + m = omega arith in ap (λ j. drop j xs) e
  drop-drop m (suc n) [] = rw (drop-nil m) (sym (drop-nil (suc n + m)))
  drop-drop m (suc n) (x ∷ xs) =
      let e : suc n + m ≡ suc (n + m) = omega arith in rw e (drop-drop m n xs)

  pub length-overwrite :
      (i : ℕ) (bytes xs : List A)
      → i + length bytes ≤ length xs
      → length (overwrite i bytes xs) ≡ length xs
  length-overwrite i bytes xs h = omega (
    arith,
    length-append (take i xs) (bytes ++ drop (i + length bytes) xs),
    length-append bytes (drop (i + length bytes) xs),
    length-take i xs,
    length-drop (i + length bytes) xs,
  )

  -- The head of memory that was written over.
  pub take-overwrite :
      (i n : ℕ) (bytes xs : List A)
      → i ≤ n
      → n ≤ length xs
      → i + length bytes ≤ length xs
      → take (max n (i + length bytes)) (overwrite i bytes xs) ≡ overwrite i bytes (take n xs)
  take-overwrite i n bytes xs p q r =
      let k : ℕ = i + length bytes in
      take_past_two (max n k) (n - k) (take i xs) bytes (drop k xs)
        (omega (arith, length-take i xs))
      ∙ ap₂ (λ a b. a ++ (bytes ++ b)) (sym (take-take i n xs p)) (sym (drop-take k n xs))

  -- The two parts of a concatenation, from the length of the first.
  pub take_prefix : (n : ℕ) (xs ys : List A) → length xs ≡ n → take n (xs ++ ys) ≡ xs
  take_prefix n xs ys h = take-append_le n xs ys (omega arith) ∙ take_all n xs (omega arith)

  pub drop_prefix : (n : ℕ) (xs ys : List A) → length xs ≡ n → drop n (xs ++ ys) ≡ ys
  drop_prefix n xs ys h = drop_past n 0 xs ys (omega arith)

  pub overwrite_middle :
      (i : ℕ) (xs old bytes ys : List A)
      → length xs ≡ i
      → length old ≡ length bytes
      → overwrite i bytes (xs ++ (old ++ ys)) ≡ xs ++ (bytes ++ ys)
  overwrite_middle i xs old bytes ys h k =
      ap₂ (λ a b. a ++ (bytes ++ b)) (take_prefix i xs (old ++ ys) h)
        (drop_past (i + length bytes) (length bytes) xs (old ++ ys) (omega arith)
          ∙ drop_prefix (length bytes) old ys k)

  -- An assignment to the entry at an index, `none` out of range.
  abbrev pub set_at : List A → ℕ → A → Option (List A)
  set_at [] i a = none
  set_at (x ∷ xs) zero a = some (a ∷ xs)
  set_at (x ∷ xs) (suc i) a = elim (set_at xs i a) [ none ↦ none | some ys ↦ some (x ∷ ys) ]

  pub record IsAssigned (xs : List A) (i : ℕ) (a : A) (ys : List A) : Type ℓ where
    pub size : length ys ≡ length xs
    pub here : get_elem? ys i ≡ some a
    pub others : (j : ℕ) → j ≢ i → get_elem? ys j ≡ get_elem? xs j

  pub set_at_lt :
      (xs : List A) (i : ℕ) (a : A)
      → i < length xs
      → (ys : List A) × (set_at xs i a ≡ some ys) × IsAssigned xs i a ys
  set_at_lt [] i a h = absurd (omega arith)
  set_at_lt (x ∷ xs) zero a h = (a ∷ xs, refl, record { size = refl; here = refl; others = others })
    where
      others : (j : ℕ) → j ≢ 0 → get_elem? (a ∷ xs) j ≡ get_elem? (x ∷ xs) j
      others zero n = absurd (n refl)
      others (suc j) n = refl
  set_at_lt (x ∷ xs) (suc i) a h =
      let (ys, e, f) = set_at_lt xs i a (omega arith) in
      (x ∷ ys, rw e refl, record { size = ap suc f.size; here = f.here; others = others ys f })
    where
      others :
          (ys : List A)
          → IsAssigned xs i a ys
          → (j : ℕ) → j ≢ suc i
          → get_elem? (x ∷ ys) j ≡ get_elem? (x ∷ xs) j
      others ys f zero n = refl
      others ys f (suc j) n = f.others j (λ e. n (ap suc e))

  pub get_elem?_lt : (xs : List A) (i : ℕ) → i < length xs → (a : A) × (get_elem? xs i ≡ some a)
  get_elem?_lt [] i h = absurd (omega arith)
  get_elem?_lt (x ∷ xs) zero h = (x, refl)
  get_elem?_lt (x ∷ xs) (suc i) h = get_elem?_lt xs i (omega arith)

  pub lt_of_get_elem? : (xs : List A) (i : ℕ) (a : A) → get_elem? xs i ≡ some a → i < length xs
  lt_of_get_elem? [] i a e = absurd cc
  lt_of_get_elem? (x ∷ xs) zero a e = omega arith
  lt_of_get_elem? (x ∷ xs) (suc i) a e = omega (arith, lt_of_get_elem? xs i a e)

  pub get_elem?-replicate : (n i : ℕ) (a : A) → i < n → get_elem? (replicate n a) i ≡ some a
  get_elem?-replicate zero i a h = absurd (omega arith)
  get_elem?-replicate (suc n) zero a h = refl
  get_elem?-replicate (suc n) (suc i) a h = get_elem?-replicate n i a (omega arith)
