-- ===== src/Stl.antt =====
-- The functions of the C++ library that src/include/stl_lite.h passes on, as far as the modelled
-- code calls them. They are not part of the repository, so they are parameters with their
-- documented behaviour as law.
use libpinyin.Common.{ℕ, ◌≤◌, ◌<◌, ◌≡◌, List, [], ◌∷◌, some, length, take, get_elem?}

module _ {A : Type 0} (key : A → ℕ) where
  -- Every entry has a key above `n`.
  abbrev pub AllAbove : ℕ → List A → Type 0
  AllAbove n [] = Unit {0}
  AllAbove n (x ∷ xs) = (n < key x) × AllAbove n xs

  abbrev pub AllBelow : ℕ → List A → Type 0
  AllBelow n [] = Unit {0}
  AllBelow n (x ∷ xs) = (key x < n) × AllBelow n xs

  -- The keys rise along the list, and none stands twice.
  abbrev pub IsAscending : List A → Type 0
  IsAscending [] = Unit {0}
  IsAscending (x ∷ xs) = AllAbove (key x) xs × IsAscending xs

-- std::lower_bound over an array that is sorted by its keys: the index of the first entry whose key
-- is not below the one looked for, and the length of the array if there is none.
pub record LowerBound {A : Type 0} (key : A → ℕ) : Type 0 where
  pub index : List A → ℕ → ℕ
  pub index_le : (xs : List A) (k : ℕ) → IsAscending key xs → index xs k ≤ length xs
  pub before : (xs : List A) (k : ℕ) → IsAscending key xs → AllBelow key k (take (index xs k) xs)
  pub not_before :
      (xs : List A) (k : ℕ) (x : A)
      → IsAscending key xs
      → get_elem? xs (index xs k) ≡ some x
      → k ≤ key x
