-- ===== src/PinyinParser/Words.antt =====
-- The words of the input of PinyinDirectParser2 in src/storage/pinyin_parser2.cpp: pieces of other
-- characters than the space (32) and the apostrophe (39), which stand between them.
use libpinyin.Common.{
  ℕ, subst, length-take, take-append-drop, drop-nil, Bool, ◌||◌, ◌==◌, if◌then◌else◌, suc, ◌+◌, ◌<◌,
  ◌≤◌, ◌≡◌, ◌≢◌, ◌⊎◌, refl, sym, ap, ◌∙◌, inl, inr, Bool-cases, Option, some, none, List, [], ◌∷◌,
  ◌++◌, length, take, drop, arith,
}
use libpinyin.PinyinPhrase.{ChewingKey}
use libpinyin.PinyinParser.{ChewingKeyRest, Parsed}

abbrev pub is_separator : ℕ → Bool
is_separator c = (c == 32) || (c == 39)

-- The characters up to a separator, and the separators at the beginning.
unfoldable pub word_length : List ℕ → ℕ
word_length [] = 0
word_length (c ∷ cs) = let rest = word_length cs in if is_separator c then 0 else suc rest

unfoldable pub separators : List ℕ → ℕ
separators [] = 0
separators (c ∷ cs) = let rest = separators cs in if is_separator c then suc rest else 0

-- Neither a space nor an apostrophe.
abbrev pub IsPlain : ℕ → Type 0
IsPlain c = (c ≢ 32) × (c ≢ 39)

abbrev pub AllPlain : List ℕ → Type 0
AllPlain [] = Unit {0}
AllPlain (c ∷ cs) = IsPlain c × AllPlain cs

abbrev pub AllBetween : List ℕ → Type 0
AllBetween [] = Unit {0}
AllBetween (c ∷ cs) = ((c ≡ 32) ⊎ (c ≡ 39)) × AllBetween cs

abbrev pub StartsPlain : List ℕ → Type 0
StartsPlain [] = Unit {0}
StartsPlain (c ∷ cs) = IsPlain c

-- A string is a word, what stands between it and the next one, and the rest.
pub record IsSplit (str word gap rest : List ℕ) : Type 0 where
  pub whole : str ≡ word ++ (gap ++ rest)
  pub nonempty : 0 < length word
  pub plain : AllPlain word
  pub between : AllBetween gap
  pub next : StartsPlain rest
  pub maximal : (0 < length gap) ⊎ (rest ≡ [])

-- The keys and places of the words from position `cur` on, where `str` stands, up to the position
-- of the first word that is no key or to the end.
pub data IsRead (parse_key : List ℕ → Option Parsed)
    : ℕ → List ℕ → List ChewingKey → List ChewingKeyRest → ℕ → Type 0 where
  end : (cur : ℕ) → IsRead parse_key cur [] [] [] cur
  unknown :
      (cur : ℕ) {str word gap rest : List ℕ}
      → IsSplit str word gap rest
      → parse_key word ≡ some none
      → IsRead parse_key cur str [] [] cur
  known :
      (cur : ℕ) {str word gap rest : List ℕ} (key : ChewingKey) (distance : ℕ)
      {ks : List ChewingKey} {rs : List ChewingKeyRest} {l : ℕ}
      → IsSplit str word gap rest
      → parse_key word ≡ some (some (key, distance))
      → IsRead parse_key (cur + length word + length gap) rest ks rs l
      → IsRead parse_key cur str
          (key ∷ ks)
          (record { raw_begin = cur; raw_end = cur + length word } ∷ rs)
          l

word-AllPlain : (cs : List ℕ) → AllPlain (take (word_length cs) cs)
unfolding word_length
word-AllPlain [] = tt
word-AllPlain (c ∷ cs) = elim (Bool-cases (is_separator c)) [
  | inl p ↦ rw p tt
  | inr p ↦ rw p (ground arith, word-AllPlain cs)
]

gap-AllBetween : (cs : List ℕ) → AllBetween (take (separators cs) cs)
unfolding separators
gap-AllBetween [] = tt
gap-AllBetween (c ∷ cs) = elim (Bool-cases (is_separator c)) [
  | inl p ↦ rw p (ground arith, gap-AllBetween cs)
  | inr p ↦ rw p tt
]

pub drop-StartsPlain : (cs : List ℕ) → StartsPlain (drop (separators cs) cs)
unfolding separators
drop-StartsPlain [] = tt
drop-StartsPlain (c ∷ cs) = elim (Bool-cases (is_separator c)) [
  | inl p ↦ rw p (drop-StartsPlain cs)
  | inr p ↦ rw p (ground arith)
]

-- Behind a word stands a separator or nothing.
word-maximal :
    (cs : List ℕ) → (0 < separators (drop (word_length cs) cs)) ⊎ (drop (word_length cs) cs ≡ [])
unfolding word_length separators
word-maximal [] = inr refl
word-maximal (c ∷ cs) = elim (Bool-cases (is_separator c)) [
  | inl p ↦ rw p (rw p (inl (omega arith)))
  | inr p ↦ rw p (word-maximal cs)
]

pub word_length_le : (cs : List ℕ) → word_length cs ≤ length cs
unfolding word_length
word_length_le [] = omega arith
word_length_le (c ∷ cs) = ground (arith, word_length_le cs)

separators_le : (cs : List ℕ) → separators cs ≤ length cs
unfolding separators
separators_le [] = omega arith
separators_le (c ∷ cs) = ground (arith, separators_le cs)

module _ (cs : List ℕ) where
  behind : List ℕ
  behind = drop (word_length cs) cs

  -- The word of the code and the separators behind it split a string.
  pub words-IsSplit :
      0 < word_length cs
      → IsSplit cs
          (take (word_length cs) cs)
          (take (separators (drop (word_length cs) cs)) (drop (word_length cs) cs))
          (drop (separators (drop (word_length cs) cs)) (drop (word_length cs) cs))
  unfolding behind
  words-IsSplit positive = record {
    whole = sym (
        ap (◌++◌ (take (word_length cs) cs)) (take-append-drop (separators behind) behind)
        ∙ take-append-drop (word_length cs) cs);
    nonempty = omega (arith, length-take (word_length cs) cs, word_length_le cs);
    plain = word-AllPlain cs;
    between = gap-AllBetween behind;
    next = drop-StartsPlain behind;
    maximal = elim (word-maximal cs) [
      | inl p ↦ inl (omega (arith, length-take (separators behind) behind, separators_le behind))
      | inr e ↦ inr (ap (λ t. drop (separators t) t) e ∙ drop-nil (separators []))
    ];
  }

  pub word-length : length (take (word_length cs) cs) ≡ word_length cs
  word-length = omega (arith, length-take (word_length cs) cs, word_length_le cs)

pub gap-length : (cs : List ℕ) → length (take (separators cs) cs) ≡ separators cs
gap-length cs = omega (arith, length-take (separators cs) cs, separators_le cs)

-- `known` by the lengths of the word and of what follows it.
pub known_at :
    (parse_key : List ℕ → Option Parsed) (cur n k : ℕ) {str word gap rest : List ℕ}
    (key : ChewingKey) (distance : ℕ) {ks : List ChewingKey} {rs : List ChewingKeyRest} {l : ℕ}
    → IsSplit str word gap rest
    → length word ≡ n
    → length gap ≡ k
    → parse_key word ≡ some (some (key, distance))
    → IsRead parse_key (cur + n + k) rest ks rs l
    → IsRead parse_key cur str (key ∷ ks) (record { raw_begin = cur; raw_end = cur + n } ∷ rs) l
known_at parse_key cur n k {str} {word} {gap} {rest} key d {ks} {rs} {l} split en ek e read =
    let at : cur + n + k ≡ cur + length word + length gap = omega arith in
    subst
      (λ m.
        IsRead parse_key cur str (key ∷ ks) (record { raw_begin = cur; raw_end = cur + m } ∷ rs) l)
      en (known cur key d split e (subst (λ i. IsRead parse_key i rest ks rs l) at read))
