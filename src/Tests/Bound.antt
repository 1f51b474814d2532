-- ===== src/Tests/Bound.antt =====
-- A lower bound by a walk from the front, which has the behaviour that std::lower_bound documents.
use libpinyin.Common.{
  ℕ, suc, ◌≤◌, ◌≡◌, List, [], ◌∷◌, some, arith, length, take, get_elem?, ltb, if◌then◌else◌,
}
use libpinyin.Stl.{AllBelow, LowerBound}

module _ {A : Type 0} (key : A → ℕ) where
  unfoldable pub walk : List A → ℕ → ℕ
  walk [] k = 0
  walk (x ∷ xs) k = if ltb (key x) k then suc (walk xs k) else 0

  pub walk-le : (xs : List A) (k : ℕ) → walk xs k ≤ length xs
  unfolding walk
  walk-le [] k = omega arith
  walk-le (x ∷ xs) k = ground (arith, walk-le xs k)

  pub walk_before : (xs : List A) (k : ℕ) → AllBelow key k (take (walk xs k) xs)
  unfolding walk
  walk_before [] k = tt
  walk_before (x ∷ xs) k = ground (arith, walk_before xs k)

  pub walk_not_before :
      (xs : List A) (k : ℕ) (x : A) → get_elem? xs (walk xs k) ≡ some x → k ≤ key x
  unfolding walk
  walk_not_before [] k x e = cc
  walk_not_before (y ∷ xs) k x e = ground (arith, walk_not_before xs k x)

  abbrev pub walk_bound : LowerBound key
  walk_bound = record {
    index = walk;
    index_le = λ xs k asc. walk-le xs k;
    before = λ xs k asc. walk_before xs k;
    not_before = λ xs k x asc. walk_not_before xs k x;
  }
