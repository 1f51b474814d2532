-- ===== src/PinyinParser/Direct.antt =====
-- src/storage/pinyin_parser2.cpp: PinyinDirectParser2, for keys with spaces or apostrophes between
-- them. Its parse_one_key is that of FullPinyinParser2 on pinyin_index.
use libpinyin.Common.{
  ℕ, zero, suc, ◌+◌, ◌%◌, ◌≤◌, ◌<◌, ◌≡◌, refl, subst, sym, drop_all, inl, inr, true, false,
  Bool-cases, Option, none, some, List, [], ◌∷◌, ltb, length, length-take, length-drop, take, drop,
  drop-drop, arith, ◌>>=◌, if◌then◌else◌,
}
use libpinyin.Common.Words.{u16_mod}
use libpinyin.PinyinPhrase.{ChewingKey}
use libpinyin.PinyinParser.{
  ChewingKeyRest, PinyinIndexItem, Tables, Parsed, parse_one_key, has_quote, is_set, use_tone,
}
use libpinyin.PinyinParser.Full.{Saved}
use libpinyin.PinyinParser.Sorted.{IsTables}
use libpinyin.PinyinParser.OneKey.{parse_one_key_sound}
use libpinyin.PinyinParser.Words.{
  is_separator, word_length, separators, StartsPlain, IsRead, end, unknown, word_length_le,
  words-IsSplit, word-length, gap-length, known_at, drop-StartsPlain,
}

module _ (parse_key : List ℕ → Option Parsed) where
  -- The loop from `cur` on, on fuel: a key and the separators behind it are at least a character.
  unfoldable pub parse_words : ℕ → List ℕ → ℕ → Option (ℕ × Saved)
  unfolding word_length separators
  parse_words zero str cur = if ltb cur (length str) then none else some (cur, ([], []))
  parse_words (suc fuel) str cur =
      let next = cur + word_length (drop cur str) in
      if ltb cur (length str)
      then (parse_key (take (word_length (drop cur str)) (drop cur str)) >>= λ parsed. elim parsed [
        | none ↦ some (cur, ([], []))
        | some (key, distance) ↦
            parse_words fuel str (next + separators (drop next str)) >>= λ rest.
            let place : ChewingKeyRest = record {
              raw_begin = cur % u16_mod;
              raw_end = next % u16_mod;
            } in
            some (rest.0, (key ∷ rest.1.0, place ∷ rest.1.1))
      ])
      else some (cur, ([], []))

-- PinyinDirectParser2::parse.
unfoldable pub parse_direct : Tables → List PinyinIndexItem → ℕ → List ℕ → Option (ℕ × Saved)
unfolding parse_words parse_one_key
parse_direct tables index options str =
    parse_words (parse_one_key tables index options) (length str) str 0

word-has_no_quote : (cs : List ℕ) → has_quote (take (word_length cs) cs) ≡ false
unfolding word_length has_quote
word-has_no_quote [] = refl
word-has_no_quote (c ∷ cs) = ground (arith, word-has_no_quote cs)

at_end :
    {parse_key : List ℕ → Option Parsed} (cur : ℕ) (str : List ℕ)
    → length str ≤ cur
    → IsRead parse_key cur (drop cur str) [] [] cur
at_end {parse_key} cur str h =
    subst (λ t. IsRead parse_key cur t [] [] cur) (sym (drop_all cur str h)) (end cur)

module _ (tables : Tables) (index : List PinyinIndexItem) (options : ℕ)
    (law : IsTables tables index) where
  word-answers :
      (cs : List ℕ)
      → StartsPlain cs
      → 0 < length cs
      → length cs < 65536
      → (0 < word_length cs)
        × ((r : Parsed) × (parse_one_key tables index options (take (word_length cs) cs) ≡ some r))
  unfolding word_length
  word-answers [] s h small = absurd (omega arith)
  word-answers (c ∷ cs) s h small =
      let letter : is_separator c ≡ false = ground arith in
      let quoteless = word-has_no_quote (c ∷ cs) in
      let count = length-take (word_length cs) cs in
      let all = word_length_le cs in
      let n : word_length (c ∷ cs) ≡ suc (word_length cs) = rw letter refl in
      let q : has_quote (c ∷ take (word_length cs) cs) ≡ false =
        subst (λ k. has_quote (take k (c ∷ cs)) ≡ false) n quoteless in
      let (r, e, _) =
        parse_one_key_sound tables index options c (take (word_length cs) cs) (omega arith) q law in
      rw letter (omega arith, (r, e))

  parse_words_lem :
      (fuel : ℕ) (str : List ℕ) (cur : ℕ)
      → length str < 65536
      → StartsPlain (drop cur str)
      → length str ≤ cur + fuel
      → (l : ℕ) × (ks : List ChewingKey) × (rs : List ChewingKeyRest) × (parse_words
            (parse_one_key tables index options)
            fuel
            str
            cur
          ≡ some (l, (ks, rs)))
        × IsRead (parse_one_key tables index options) cur (drop cur str) ks rs l
  unfolding parse_words
  parse_words_lem zero str cur small s h =
      let p : ltb cur (length str) ≡ false = ground arith in
      (cur, [], [], rw p refl, at_end cur str (omega arith))
  parse_words_lem (suc fuel) str cur small s h = elim (Bool-cases (ltb cur (length str))) [
    | inr p ↦ (cur, [], [], rw p refl, at_end cur str (ground arith))
    | inl p ↦
        let early : cur < length str = ground arith in
        let size = length-drop cur str in
        let (positive, (r, e)) = word-answers (drop cur str) s (omega arith) (omega arith) in
        let within = word_length_le (drop cur str) in
        let n : ℕ = word_length (drop cur str) in
        let at_word = drop-StartsPlain (drop (cur + n) str) in
        let later =
          subst StartsPlain (drop-drop (separators (drop (cur + n) str)) (cur + n) str) at_word in
        go p early positive (omega arith) r e (
          parse_words_lem fuel str (cur + n + separators (drop (cur + n) str)) small later
            (omega arith))
  ]
    where
      go :
          let n = word_length (drop cur str) in
          let next = cur + n + separators (drop (cur + n) str) in
          ltb cur (length str) ≡ true
          → cur < length str
          → 0 < n
          → cur + n ≤ length str
          → (r : Parsed) → parse_one_key tables index options (take n (drop cur str)) ≡ some r
          → (l : ℕ) × (ks : List ChewingKey) × (rs : List ChewingKeyRest) × (parse_words
                (parse_one_key tables index options)
                fuel
                str
                next
              ≡ some (l, (ks, rs)))
            × IsRead (parse_one_key tables index options) next (drop next str) ks rs l
          → (l : ℕ) × (ks : List ChewingKey) × (rs : List ChewingKeyRest) × (parse_words
                (parse_one_key tables index options)
                (suc fuel)
                str
                cur
              ≡ some (l, (ks, rs)))
            × IsRead (parse_one_key tables index options) cur (drop cur str) ks rs l
      go p early positive within none e rest =
          (cur, [], [], rw (p, e) refl, unknown cur (words-IsSplit (drop cur str) positive) e)
      go p early positive within (some (key, d)) e (l, ks, rs, f, read) =
          let n : ℕ = word_length (drop cur str) in
          let b : cur % 65536 ≡ cur = omega arith in
          let c : (cur + n) % 65536 ≡ cur + n = omega arith in
          let here : drop (cur + n) str ≡ drop n (drop cur str) = sym (drop-drop n cur str) in
          let later =
            subst
              (λ t.
                IsRead (parse_one_key tables index options) (cur + n + separators t)
                  (drop (separators t) t) ks rs l)
              here
              (subst
                (λ t.
                  IsRead (parse_one_key tables index options)
                    (cur + n + separators (drop (cur + n) str)) t ks rs l)
                (sym (drop-drop (separators (drop (cur + n) str)) (cur + n) str)) read) in
          (
            l,
            key ∷ ks,
            record { raw_begin = cur; raw_end = cur + n } ∷ rs,
            rw (p, e, f, b, c) refl,
            known_at (parse_one_key tables index options) cur n (separators (drop n (drop cur str)))
                key d (words-IsSplit (drop cur str) positive) (word-length (drop cur str))
                (gap-length (drop n (drop cur str))) e later,
          )

  -- PinyinDirectParser2::parse ends and answers the keys of the words of the input and where they
  -- stand, to the first word that is no key or to the end: a word is a longest piece without a space
  -- or an apostrophe, and between two words is nothing but those. The tables are well
  -- formed, and the input begins with another character than those two, or is empty, and is shorter
  -- than 2 ^ 16.
  pub parse_direct-IsRead :
      (str : List ℕ)
      → length str < 65536
      → StartsPlain str
      → (l : ℕ) × (ks : List ChewingKey) × (rs : List ChewingKeyRest) × (parse_direct tables index
            options str
          ≡ some (l, (ks, rs)))
        × IsRead (parse_one_key tables index options) 0 str ks rs l
  unfolding parse_direct
  parse_direct-IsRead str small first = parse_words_lem (length str) str 0 small first (omega arith)

  -- A space or an apostrophe at the beginning, with the tones in use, is read in front of the input.
  parse_direct-separator :
      (c : ℕ) (cs : List ℕ)
      → is_separator c ≡ true
      → is_set options use_tone ≡ true
      → parse_direct tables index options (c ∷ cs) ≡ none
  unfolding parse_direct parse_words parse_one_key word_length has_quote
  parse_direct-separator c cs s u =
      let p : ltb 0 (suc (length cs)) ≡ true = ground arith in rw (p, s, u) refl
