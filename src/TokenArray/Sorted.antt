-- ===== src/TokenArray/Sorted.antt =====
-- The items as a map from tokens to payloads: what the loops of TokenArray.antt are to compute.
use libpinyin.Common.{
  ℕ, zero, suc, ◌≤◌, ◌<◌, ◌≡◌, refl, Bool, true, false, Option, none, some, List, [], ◌∷◌, ◌++◌,
  arith, ltb, ◌==◌, if◌then◌else◌, take, drop,
}
use libpinyin.Stl.{AllAbove, AllBelow, IsAscending}
use libpinyin.TokenArray.{Item, token_of, get_loop}

module _ {P : Type 0} where
  -- The payload of a token.
  unfoldable pub lookup : ℕ → List (Item P) → Option P
  lookup t [] = none
  lookup t (x ∷ xs) = if x.token == t then some x.payload else lookup t xs

  -- The items with one more; an item whose token is there already is left out.
  unfoldable pub insert_sorted : Item P → List (Item P) → List (Item P)
  insert_sorted y [] = y ∷ []
  insert_sorted y (x ∷ xs) =
      if ltb y.token x.token
      then y ∷ x ∷ xs
      else if x.token == y.token
      then x ∷ xs
      else x ∷ insert_sorted y xs

  unfoldable pub erase : ℕ → List (Item P) → List (Item P)
  erase t [] = []
  erase t (x ∷ xs) = if x.token == t then xs else x ∷ erase t xs

  unfoldable pub update : ℕ → P → List (Item P) → List (Item P)
  update t p [] = []
  update t p (x ∷ xs) = if x.token == t then record x { payload = p } ∷ xs else x ∷ update t p xs

  -- Whether a token is there.
  abbrev pub is_some : Option P → Bool
  is_some none = false
  is_some (some p) = true

  pub lookup_above :
      (n t : ℕ) (xs : List (Item P)) → AllAbove token_of n xs → t ≤ n → lookup t xs ≡ none
  unfolding lookup
  lookup_above n t [] h k = refl
  lookup_above n t (x ∷ xs) h k = ground (arith, lookup_above n t xs h.1)

  pub get_loop-lookup :
      (t : ℕ) (xs : List (Item P)) → IsAscending token_of xs → get_loop xs t ≡ lookup t xs
  unfolding get_loop lookup
  get_loop-lookup t [] h = refl
  get_loop-lookup t (x ∷ xs) h =
      ground (arith, get_loop-lookup t xs h.1, lookup_above x.token t xs h.0)

  AllAbove-insert :
      (n : ℕ) (y : Item P) (xs : List (Item P))
      → AllAbove token_of n xs
      → n < y.token
      → AllAbove token_of n (insert_sorted y xs)
  unfolding insert_sorted
  AllAbove-insert n y [] h k = (k, tt)
  AllAbove-insert n y (x ∷ xs) h k = ground (arith, AllAbove-insert n y xs h.1 k)

  AllAbove-mono :
      (m n : ℕ) (xs : List (Item P)) → m ≤ n → AllAbove token_of n xs → AllAbove token_of m xs
  AllAbove-mono m n [] h k = tt
  AllAbove-mono m n (x ∷ xs) h k = (omega arith, AllAbove-mono m n xs h k.1)

  pub insert_sorted-IsAscending :
      (y : Item P) (xs : List (Item P))
      → IsAscending token_of xs
      → IsAscending token_of (insert_sorted y xs)
  unfolding insert_sorted
  insert_sorted-IsAscending y [] h = (tt, tt)
  insert_sorted-IsAscending y (x ∷ xs) h = ground (
    arith,
    insert_sorted-IsAscending y xs h.1,
    AllAbove-insert x.token y xs h.0,
    AllAbove-mono y.token x.token xs,
  )

  -- The item is found again, unless its token was there, and no other token is touched.
  pub lookup-insert_sorted :
      (y : Item P) (t : ℕ) (xs : List (Item P))
      → IsAscending token_of xs
      → lookup t (insert_sorted y xs) ≡ (
          if y.token == t
          then if is_some (lookup t xs) then lookup t xs else some y.payload
          else lookup t xs)
  unfolding lookup insert_sorted
  lookup-insert_sorted y t [] h = ground arith
  lookup-insert_sorted y t (x ∷ xs) h =
      ground (arith, lookup-insert_sorted y t xs h.1, lookup_above x.token t xs h.0)

  AllAbove-erase :
      (n t : ℕ) (xs : List (Item P)) → AllAbove token_of n xs → AllAbove token_of n (erase t xs)
  unfolding erase
  AllAbove-erase n t [] h = tt
  AllAbove-erase n t (x ∷ xs) h = ground (arith, AllAbove-erase n t xs h.1)

  pub erase-IsAscending :
      (t : ℕ) (xs : List (Item P)) → IsAscending token_of xs → IsAscending token_of (erase t xs)
  unfolding erase
  erase-IsAscending t [] h = tt
  erase-IsAscending t (x ∷ xs) h =
      ground (arith, erase-IsAscending t xs h.1, AllAbove-erase x.token t xs h.0)

  pub lookup-erase :
      (t u : ℕ) (xs : List (Item P))
      → IsAscending token_of xs
      → lookup u (erase t xs) ≡ (if t == u then none else lookup u xs)
  unfolding lookup erase
  lookup-erase t u [] h = ground arith
  lookup-erase t u (x ∷ xs) h =
      ground (arith, lookup-erase t u xs h.1, lookup_above x.token u xs h.0)

  AllAbove-update :
      (n t : ℕ) (p : P) (xs : List (Item P))
      → AllAbove token_of n xs
      → AllAbove token_of n (update t p xs)
  unfolding update
  AllAbove-update n t p [] h = tt
  AllAbove-update n t p (x ∷ xs) h = ground (arith, AllAbove-update n t p xs h.1)

  pub update-IsAscending :
      (t : ℕ) (p : P) (xs : List (Item P))
      → IsAscending token_of xs
      → IsAscending token_of (update t p xs)
  unfolding update
  update-IsAscending t p [] h = tt
  update-IsAscending t p (x ∷ xs) h =
      ground (arith, update-IsAscending t p xs h.1, AllAbove-update x.token t p xs h.0)

  pub lookup-update :
      (t u : ℕ) (p : P) (xs : List (Item P))
      → lookup u (update t p xs)
        ≡ (if t == u then if is_some (lookup u xs) then some p else none else lookup u xs)
  unfolding lookup update
  lookup-update t u p [] = ground arith
  lookup-update t u p (x ∷ xs) = ground (arith, lookup-update t u p xs)

  pub erase_absent : (t : ℕ) (xs : List (Item P)) → lookup t xs ≡ none → erase t xs ≡ xs
  unfolding lookup erase
  erase_absent t [] h = refl
  erase_absent t (x ∷ xs) h = ground (arith, erase_absent t xs)

  pub update_absent : (t : ℕ) (p : P) (xs : List (Item P)) → lookup t xs ≡ none → update t p xs ≡ xs
  unfolding lookup update
  update_absent t p [] h = refl
  update_absent t p (x ∷ xs) h = ground (arith, update_absent t p xs)

  pub drop-IsAscending :
      (i : ℕ) (xs : List (Item P)) → IsAscending token_of xs → IsAscending token_of (drop i xs)
  drop-IsAscending zero xs h = h
  drop-IsAscending (suc i) [] h = tt
  drop-IsAscending (suc i) (x ∷ xs) h = drop-IsAscending i xs h.1

  -- What stands before the lower bound of a token has no part in the operations on that token.
  module _ (t : ℕ) where
    pub lookup-drop :
        (i : ℕ) (xs : List (Item P))
        → AllBelow token_of t (take i xs)
        → lookup t xs ≡ lookup t (drop i xs)
    unfolding lookup
    lookup-drop zero xs h = refl
    lookup-drop (suc i) [] h = refl
    lookup-drop (suc i) (x ∷ xs) h = ground (arith, lookup-drop i xs h.1)

    pub erase-drop :
        (i : ℕ) (xs : List (Item P))
        → AllBelow token_of t (take i xs)
        → erase t xs ≡ take i xs ++ erase t (drop i xs)
    unfolding erase
    erase-drop zero xs h = refl
    erase-drop (suc i) [] h = refl
    erase-drop (suc i) (x ∷ xs) h = ground (arith, erase-drop i xs h.1)

    pub update-drop :
        (p : P) (i : ℕ) (xs : List (Item P))
        → AllBelow token_of t (take i xs)
        → update t p xs ≡ take i xs ++ update t p (drop i xs)
    unfolding update
    update-drop p zero xs h = refl
    update-drop p (suc i) [] h = refl
    update-drop p (suc i) (x ∷ xs) h = ground (arith, update-drop p i xs h.1)

  pub insert_sorted-drop :
      (y : Item P) (i : ℕ) (xs : List (Item P))
      → AllBelow token_of y.token (take i xs)
      → insert_sorted y xs ≡ take i xs ++ insert_sorted y (drop i xs)
  unfolding insert_sorted
  insert_sorted-drop y zero xs h = refl
  insert_sorted-drop y (suc i) [] h = refl
  insert_sorted-drop y (suc i) (x ∷ xs) h = ground (arith, insert_sorted-drop y i xs h.1)
