-- ===== src/PinyinParser/Reading.antt =====
-- The readings of an input that src/storage/pinyin_parser2.cpp chooses from, and its preference.
use libpinyin.Common.{
  ℕ, zero, suc, ◌+◌, ◌≤◌, ◌<◌, ◌≡◌, refl, ◌⊎◌, inl, inr, true, false, Bool-cases, ◌==◌, Option,
  some, List, [], ◌∷◌, ◌++◌, length, length-take, length-drop, take, drop, arith,
}
use libpinyin.PinyinPhrase.{ChewingKey}
use libpinyin.PinyinParser.{ChewingKeyRest, Parsed, apostrophe, has_quote}
use libpinyin.PinyinParser.Full.{next_quote, is_quote_at}

-- A parse of the length l with k keys and the distance d is no worse than one of l', k' and d'.
abbrev pub IsNoWorse : ℕ → ℕ → ℕ → ℕ → ℕ → ℕ → Type 0
IsNoWorse l k d l' k' d' = (l' < l) ⊎ ((l ≡ l') × ((k < k') ⊎ ((k ≡ k') × (d ≤ d'))))

pub IsNoWorse-refl : (l k d : ℕ) → IsNoWorse l k d l k d
IsNoWorse-refl l k d = inr (refl, inr (refl, omega arith))

pub IsNoWorse-trans :
    {a b c l k d x y z : ℕ} → IsNoWorse a b c l k d → IsNoWorse l k d x y z → IsNoWorse a b c x y z
IsNoWorse-trans p q = ground arith

-- One more piece behind both.
pub IsNoWorse-add :
    {a b c l k d : ℕ} (x y z : ℕ)
    → IsNoWorse a b c l k d
    → IsNoWorse (a + x) (b + y) (c + z) (l + x) (k + y) (d + z)
IsNoWorse-add x y z p = ground arith

-- What is passed to parse_one_key.
pub record IsPiece (piece : List ℕ) : Type 0 where
  pub nonempty : 0 < length piece
  pub up_to_7 : length piece ≤ 7
  pub no_quote : has_quote piece ≡ false

module _ (parse_one_key : List ℕ → Option Parsed) (input : List ℕ) where
  -- The n characters from b on are a key.
  pub record IsWord (b n : ℕ) (key : ChewingKey) (distance : ℕ) : Type 0 where
    pub positive : 0 < n
    pub short : n ≤ 7
    pub inside : b + n ≤ length input
    pub quoteless : has_quote (take n (drop b input)) ≡ false
    pub parsed : parse_one_key (take n (drop b input)) ≡ some (some (key, distance))

  pub IsWord-IsPiece :
      (b n : ℕ) (key : ChewingKey) (distance : ℕ)
      → IsWord b n key distance
      → IsPiece (take n (drop b input))
  IsWord-IsPiece b n key distance w =
      let all = w.inside in
      let n_is = length-take n (drop b input) in
      let rest = length-drop b input in
      record {
        nonempty = omega (arith, w.positive);
        up_to_7 = omega (arith, w.short);
        no_quote = w.quoteless;
      }

  -- The characters from a to an end are keys with apostrophes between them: the end, the keys,
  -- their places and the sum of their distances.
  pub data Reading (a : ℕ) : ℕ → List ChewingKey → List ChewingKeyRest → ℕ → Type 0 where
    start : Reading a a [] [] 0
    quote :
        {b d : ℕ} {ks : List ChewingKey} {rs : List ChewingKeyRest}
        → Reading a b ks rs d
        → is_quote_at input b ≡ true
        → Reading a (b + 1) ks rs d
    word :
        {b d : ℕ} {ks : List ChewingKey} {rs : List ChewingKeyRest} (n : ℕ) (key : ChewingKey)
        (distance : ℕ)
        → Reading a b ks rs d
        → IsWord b n key distance
        → Reading a
            (b + n)
            (ks ++ (key ∷ []))
            (rs ++ (record { raw_begin = b; raw_end = b + n } ∷ []))
            (d + distance)

-- A piece has no apostrophe if and only if it ends before the next one.
pub quoteless→le :
    (n : ℕ) (cs : List ℕ) → n ≤ length cs → has_quote (take n cs) ≡ false → n ≤ next_quote cs
unfolding has_quote next_quote
quoteless→le zero cs h e = omega arith
quoteless→le (suc n) [] h e = omega arith
quoteless→le (suc n) (c ∷ cs) h e = ground (arith, quoteless→le n cs)

pub le→quoteless : (n : ℕ) (cs : List ℕ) → n ≤ next_quote cs → has_quote (take n cs) ≡ false
unfolding has_quote next_quote
le→quoteless zero cs h = refl
le→quoteless (suc n) [] h = refl
le→quoteless (suc n) (c ∷ cs) h = ground (arith, le→quoteless n cs)

pub next_quote_le : (cs : List ℕ) → next_quote cs ≤ length cs
unfolding next_quote
next_quote_le [] = omega arith
next_quote_le (c ∷ cs) = ground (arith, next_quote_le cs)

-- A piece that an apostrophe stands in.
pub quote_inside :
    (n b : ℕ) (cs : List ℕ) (i : ℕ)
    → b ≤ i
    → i < b + n
    → is_quote_at cs i ≡ true
    → has_quote (take n (drop b cs)) ≡ true
unfolding has_quote is_quote_at
quote_inside n zero [] i h k q = absurd (ground arith)
quote_inside n (suc b) [] i h k q = absurd (ground arith)
quote_inside zero zero (c ∷ cs) i h k q = absurd (omega arith)
quote_inside (suc n) zero (c ∷ cs) zero h k q = rw q refl
quote_inside (suc n) zero (c ∷ cs) (suc i) h k q =
    let rest = quote_inside n zero cs i (omega arith) (omega arith) q in
    elim (Bool-cases (c == apostrophe)) [ inl e ↦ rw e refl | inr e ↦ rw e rest ]
quote_inside n (suc b) (c ∷ cs) zero h k q = absurd (omega arith)
quote_inside n (suc b) (c ∷ cs) (suc i) h k q = quote_inside n b cs i (omega arith) (omega arith) q

-- The next apostrophe, seen from one position further on.
pub next_quote-suc :
    (i : ℕ) (cs : List ℕ)
    → i < length cs
    → is_quote_at cs i ≡ false
    → next_quote (drop i cs) ≡ suc (next_quote (drop (suc i) cs))
unfolding next_quote is_quote_at
next_quote-suc i [] h q = absurd (omega arith)
next_quote-suc zero (c ∷ cs) h q = rw q refl
next_quote-suc (suc i) (c ∷ cs) h q = next_quote-suc i cs (omega arith) q
