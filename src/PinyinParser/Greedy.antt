-- ===== src/PinyinParser/Greedy.antt =====
-- What DoublePinyinParser2::parse of src/storage/pinyin_parser2.cpp answers.
use libpinyin.Common.{
  ℕ, zero, suc, ◌+◌, ◌-◌, ◌≤◌, ◌<◌, ◌≡◌, refl, ap, ◌∙◌, inl, inr, min, true, false, Bool-cases,
  Option, none, some, List, [], ◌∷◌, ltb, take, drop, arith, ◌%◌,
}
use libpinyin.PinyinPhrase.{ChewingKey}
use libpinyin.PinyinParser.{ChewingKeyRest}
use libpinyin.PinyinParser.Double.{try_lengths, parse_doubles, parse_double, probe}

module _ (parse_one_key : List ℕ → Option (Option ChewingKey)) where
  -- No piece at the beginning of `str` is a key that has more than `n` and at most `most`
  -- characters.
  abbrev pub NoneLonger : List ℕ → ℕ → ℕ → Type 0
  NoneLonger str n most = (m : ℕ) → n < m → m ≤ most → parse_one_key (take m str) ≡ some none

  -- The keys that are taken from `a` on: at each place the longest of up to three characters, until
  -- there is none.
  pub data IsGreedy (input : List ℕ) (most : ℕ)
      : ℕ → List ChewingKey → List ChewingKeyRest → ℕ → Type 0 where
    stop :
        (a : ℕ)
        → a ≤ most
        → NoneLonger (drop a input) 0 (min (most - a) 3)
        → IsGreedy input most a [] [] a
    next :
        (a n : ℕ) (key : ChewingKey) {ks : List ChewingKey} {rs : List ChewingKeyRest} {l : ℕ}
        → 0 < n
        → n ≤ min (most - a) 3
        → parse_one_key (take n (drop a input)) ≡ some (some key)
        → NoneLonger (drop a input) n (min (most - a) 3)
        → IsGreedy input most (a + n) ks rs l
        → IsGreedy input most a (key ∷ ks) (record { raw_begin = a; raw_end = a + n } ∷ rs) l

  -- What the loop over the lengths finds.
  data IsLongest (str : List ℕ) (most : ℕ) : Option (ChewingKey × ℕ) → Type 0 where
    nothing : NoneLonger str 0 most → IsLongest str most none
    longest :
        (key : ChewingKey) (n : ℕ)
        → 0 < n
        → n ≤ most
        → parse_one_key (take n str) ≡ some (some key)
        → NoneLonger str n most
        → IsLongest str most (some (key, n))

  module _
      (answers : (piece : List ℕ)
        → (answer : Option ChewingKey) × (parse_one_key piece ≡ some answer)) where
    try_lengths_lem :
        (str : List ℕ) (most : ℕ)
        → (r : Option (ChewingKey × ℕ)) × (try_lengths parse_one_key str most ≡ some r)
          × IsLongest str most r
    unfolding try_lengths
    try_lengths_lem str zero = (none, refl, nothing (λ m p q. absurd (omega arith)))
    try_lengths_lem str (suc n) =
        let (answer, e) = answers (take (suc n) str) in go answer e (try_lengths_lem str n)
      where
        go :
            (answer : Option ChewingKey)
            → parse_one_key (take (suc n) str) ≡ some answer
            → (r : Option (ChewingKey × ℕ)) × (try_lengths parse_one_key str n ≡ some r)
              × IsLongest str n r
            → (r : Option (ChewingKey × ℕ)) × (try_lengths parse_one_key str (suc n) ≡ some r)
              × IsLongest str (suc n) r
        go (some key) e rest = (
          some (key, suc n),
          rw e refl,
          longest key (suc n) (omega arith) (omega arith) e (λ m p q. absurd (omega arith)),
        )
        go none e (r, f, l) = (r, rw e f, wider l)
          where
            longer :
                (k m : ℕ)
                → NoneLonger str k n
                → k < m
                → m ≤ suc n
                → parse_one_key (take m str) ≡ some none
            longer k m h p q = elim (Bool-cases (ltb m (suc n))) [
              | inl t ↦ h m p (ground arith)
              | inr t ↦
                  let m_is : m ≡ suc n = ground arith in
                  ap (λ x. parse_one_key (take x str)) m_is ∙ e
            ]

            wider : {r : Option (ChewingKey × ℕ)} → IsLongest str n r → IsLongest str (suc n) r
            wider (nothing h) = nothing (λ m p q. longer 0 m h p q)
            wider (longest key k p q g h) =
                longest key k p (omega arith) g (λ m i j. longer k m h i j)

    parse_doubles_lem :
        (fuel : ℕ) (input : List ℕ) (most a : ℕ)
        → most < 65536
        → a ≤ most
        → most ≤ a + fuel
        → (l : ℕ) × (ks : List ChewingKey) × (rs : List ChewingKeyRest) × (parse_doubles
              parse_one_key fuel input most a
            ≡ some (l, (ks, rs)))
          × IsGreedy input most a ks rs l
    unfolding parse_doubles
    parse_doubles_lem zero input most a small h k =
        let p : ltb a most ≡ false = ground arith in
        (a, [], [], rw p refl, stop a h (λ m i j. absurd (omega arith)))
    parse_doubles_lem (suc fuel) input most a small h k = elim (Bool-cases (ltb a most)) [
      | inr p ↦
          let over : most ≤ a = ground arith in
          (a, [], [], rw p refl, stop a h (λ m i j. absurd (omega arith)))
      | inl p ↦
          go (λ b i j. parse_doubles_lem fuel input most b small i j) p (ground arith)
            (try_lengths_lem (drop a input) (min (most - a) 3))
    ]
      where
        go :
            ((b : ℕ)
              → b ≤ most
              → most ≤ b + fuel
              → (l : ℕ) × (ks : List ChewingKey) × (rs : List ChewingKeyRest) × (parse_doubles
                    parse_one_key fuel input most b
                  ≡ some (l, (ks, rs)))
                × IsGreedy input most b ks rs l)
            → ltb a most ≡ true
            → a < most
            → (r : Option (ChewingKey × ℕ)) × (try_lengths parse_one_key
                  (drop a input)
                  (min (most - a) 3)
                ≡ some r)
              × IsLongest (drop a input) (min (most - a) 3) r
            → (l : ℕ) × (ks : List ChewingKey) × (rs : List ChewingKeyRest) × (parse_doubles
                  parse_one_key
                  (suc fuel)
                  input
                  most
                  a
                ≡ some (l, (ks, rs)))
              × IsGreedy input most a ks rs l
        go recur p early (_, e, nothing n) = (a, [], [], rw (p, e) refl, stop a h n)
        go recur p early (_, e, longest key n positive most_n g none_longer) =
            let (l, ks, rs, f, t) = recur (a + n) (omega arith) (omega arith) in
            let b : a % 65536 ≡ a = omega arith in
            let c : (a + n) % 65536 ≡ a + n = omega arith in
            (
              l,
              key ∷ ks,
              record { raw_begin = a; raw_end = a + n } ∷ rs,
              rw (p, e, f, b, c) refl,
              next a n key positive most_n g none_longer t,
            )

    pub parse_double_lem :
        (input : List ℕ)
        → probe input < 65536
        → (l : ℕ) × (ks : List ChewingKey) × (rs : List ChewingKeyRest) × (parse_double
              parse_one_key input
            ≡ some (l, (ks, rs)))
          × IsGreedy input (probe input) 0 ks rs l
    unfolding parse_double
    parse_double_lem input small =
        parse_doubles_lem (probe input) input (probe input) 0 small (omega arith) (omega arith)
