-- ===== src/PinyinParser/Scan.antt =====
-- The invariant of the dynamic programme in src/storage/pinyin_parser2.cpp, and that a write keeps
-- it.
use libpinyin.Common.{
  ℕ, suc, ◌+◌, ◌≤◌, ◌<◌, ◌≡◌, sym, ◌∙◌, ap, ◌==◌, Bool-cases, ◌⊎◌, inl, inr, true, Option, some,
  List, length, get_elem?, arith, IsAssigned,
}
use libpinyin.PinyinPhrase.{ChewingKey}
use libpinyin.PinyinParser.{Parsed}
use libpinyin.PinyinParser.Full.{ParseValue, new_parse_value, is_quote_at}
use libpinyin.PinyinParser.Reading.{IsNoWorse-trans, IsWord}
use libpinyin.PinyinParser.Saving.{IsBounded, NoWorse, word_value, quote_value}

module _ (parse_one_key : List ℕ → Option Parsed) (input : List ℕ) where
  -- How the step at `j` was reached: not at all, or from an earlier one that is not after `i`.
  pub data IsLinked (steps : List ParseValue) (i j : ℕ) (v : ParseValue) : Type 0 where
    untouched : v ≡ new_parse_value → IsLinked steps i j v
    by_quote :
        (b : ℕ) (u : ParseValue)
        → b ≤ i
        → get_elem? steps b ≡ some u
        → is_quote_at input b ≡ true
        → j ≡ b + 1
        → v ≡ quote_value u b
        → IsLinked steps i j v
    by_word :
        (b n : ℕ) (key : ChewingKey) (distance : ℕ) (u : ParseValue)
        → b ≤ i
        → get_elem? steps b ≡ some u
        → IsWord parse_one_key input b n key distance
        → j ≡ b + n
        → v ≡ word_value u b n key distance
        → IsLinked steps i j v

  -- The pieces from `b` of `n` characters that were tried when `c` pieces from `i` were.
  abbrev pub IsTried : ℕ → ℕ → ℕ → ℕ → Type 0
  IsTried i c b n = (b < i) ⊎ ((b ≡ i) × (n ≤ c))

  -- What holds when the outer loop is at `i` and has tried `c` pieces from there.
  pub record IsScanned (i c : ℕ) (steps : List ParseValue) : Type 0 where
    pub size : length steps ≡ suc (length input)
    pub bounded : (j : ℕ) (v : ParseValue) → get_elem? steps j ≡ some v → IsBounded j v
    pub linked : (j : ℕ) (v : ParseValue) → get_elem? steps j ≡ some v → IsLinked steps i j v
    pub words :
        (b n : ℕ) (key : ChewingKey) (distance : ℕ) (u v : ParseValue)
        → IsTried i c b n
        → IsWord parse_one_key input b n key distance
        → get_elem? steps b ≡ some u
        → get_elem? steps (b + n) ≡ some v
        → NoWorse v (word_value u b n key distance)
    pub quotes :
        (b : ℕ) (u v : ParseValue)
        → b < i
        → is_quote_at input b ≡ true
        → get_elem? steps b ≡ some u
        → get_elem? steps (b + 1) ≡ some v
        → NoWorse v (quote_value u b)

  -- An assignment behind `i` leaves the sources of the links alone.
  IsLinked-assigned :
      (xs ys : List ParseValue) (i j k : ℕ) (w v : ParseValue)
      → IsAssigned xs k w ys
      → i < k
      → IsLinked xs i j v
      → IsLinked ys i j v
  IsLinked-assigned xs ys i j k w v s h (untouched e) = untouched e
  IsLinked-assigned xs ys i j k w v s h (by_quote b u l g q e f) =
      by_quote b u l (s.others b (λ e. omega arith) ∙ g) q e f
  IsLinked-assigned xs ys i j k w v s h (by_word b n key d u l g q e f) =
      by_word b n key d u l (s.others b (λ e. omega arith) ∙ g) q e f

  -- The entries behind an assignment: the new one, or an old one.
  assigned-cases :
      (xs ys : List ParseValue) (k : ℕ) (w : ParseValue) (j : ℕ) (v : ParseValue)
      → IsAssigned xs k w ys
      → get_elem? ys j ≡ some v
      → ((j ≡ k) × (v ≡ w)) ⊎ (get_elem? xs j ≡ some v)
  assigned-cases xs ys k w j v s e = elim (Bool-cases (j == k)) [
    | inl p ↦ let q : j ≡ k = ground arith in let here = s.here in inl (q, cc)
    | inr p ↦ inr (sym (s.others j (λ q. ground arith)) ∙ e)
  ]

  -- A source of the links is where it was.
  source :
      (xs ys : List ParseValue) (k : ℕ) (w : ParseValue) (b : ℕ) (u : ParseValue)
      → IsAssigned xs k w ys
      → b < k
      → get_elem? ys b ≡ some u
      → get_elem? xs b ≡ some u
  source xs ys k w b u a h e = sym (a.others b (λ e. omega arith)) ∙ e

  -- A step that is no worse than the old one keeps what was found.
  pub IsScanned-assigned :
      (xs ys : List ParseValue) (i c k : ℕ) (w v : ParseValue)
      → IsScanned i c xs
      → IsAssigned xs k w ys
      → i < k
      → get_elem? xs k ≡ some v
      → IsBounded k w
      → IsLinked xs i k w
      → NoWorse w v
      → IsScanned i c ys
  IsScanned-assigned xs ys i c k w v s a h e p q r = record {
    size = a.size ∙ s.size;
    bounded = λ j x g. elim (assigned-cases xs ys k w j x a g) [
      | inl (f, l) ↦ rw (f, l) p
      | inr l ↦ s.bounded j x l
    ];
    linked = λ j x g.
        IsLinked-assigned xs ys i j k w x a h (elim (assigned-cases xs ys k w j x a g) [
          | inl (f, l) ↦ rw (f, l) q
          | inr l ↦ s.linked j x l
        ]);
    words = λ b n key d u x t word f g.
        let old = source xs ys k w b u a (omega arith) f in
        elim (assigned-cases xs ys k w (b + n) x a g) [
          | inl (l, m) ↦
              let found = s.words b n key d u v t word old (ap (get_elem? xs) l ∙ e) in
              rw m (IsNoWorse-trans r found)
          | inr l ↦ s.words b n key d u x t word old l
        ];
    quotes = λ b u x t quote f g.
        let old = source xs ys k w b u a (omega arith) f in
        elim (assigned-cases xs ys k w (b + 1) x a g) [
          | inl (l, m) ↦
              let found = s.quotes b u v t quote old (ap (get_elem? xs) l ∙ e) in
              rw m (IsNoWorse-trans r found)
          | inr l ↦ s.quotes b u x t quote old l
        ];
  }
