-- ===== src/PinyinParser/Cover.antt =====
-- Where the keys stand that FullPinyinParser2::parse of src/storage/pinyin_parser2.cpp answers.
use libpinyin.Common.{
  ℕ, ◌+◌, ◌≤◌, ◌<◌, ◌≡◌, refl, true, Bool-cases, ◌==◌, inl, inr, Option, some, List, [], ◌∷◌, ◌++◌,
  length, length-append, arith,
}
use libpinyin.PinyinPhrase.{ChewingKey}
use libpinyin.PinyinParser.{
  Parsed, ChewingKeyRest, PinyinIndexItem, Tables, parse_one_key, get_table_index,
}
use libpinyin.PinyinParser.Full.{is_quote_at, parse, Saved}
use libpinyin.PinyinParser.Reading.{Reading, start, quote, word}
use libpinyin.PinyinParser.Sorted.{IsTables}
use libpinyin.PinyinParser.Spelling.{parse_one_key-IsPieceParser, parse_one_key-IsIndexed}
use libpinyin.PinyinParser.Best.{IsBest, Reading-le}
use libpinyin.PinyinParser.Longest.{parse-IsBest}

module _ (input : List ℕ) where
  -- Nothing but apostrophes from a to b.
  abbrev pub AreQuotes : ℕ → ℕ → Type 0
  AreQuotes a b = (i : ℕ) → a ≤ i → i < b → is_quote_at input i ≡ true

  -- The places follow each other from `a` to `l`, with nothing but apostrophes between them.
  abbrev pub Covers : ℕ → List ChewingKeyRest → ℕ → Type 0
  Covers a [] l = (a ≤ l) × AreQuotes a l
  Covers a (r ∷ rs) l =
      (a ≤ r.raw_begin)
      × AreQuotes a r.raw_begin
      × (r.raw_begin < r.raw_end)
      × (r.raw_end ≤ r.raw_begin + 7)
      × Covers r.raw_end rs l

  pub Covers-le : (a : ℕ) (rs : List ChewingKeyRest) (l : ℕ) → Covers a rs l → a ≤ l
  Covers-le a [] l c = c.0
  Covers-le a (r ∷ rs) l (p, q, s, t, c) = omega (arith, Covers-le r.raw_end rs l c)

  Covers-quote :
      (a : ℕ) (rs : List ChewingKeyRest) (b : ℕ)
      → Covers a rs b
      → is_quote_at input b ≡ true
      → Covers a rs (b + 1)
  Covers-quote a [] b (h, c) q = (
    omega arith,
    λ i p k. elim (Bool-cases (i == b)) [
      | inl e ↦ let i_is : i ≡ b = ground arith in rw i_is q
      | inr e ↦ c i p (ground arith)
    ],
  )
  Covers-quote a (r ∷ rs) b (h, c, p, s, t) q = (h, c, p, s, Covers-quote r.raw_end rs b t q)

  Covers-word :
      (a : ℕ) (rs : List ChewingKeyRest) (b n : ℕ)
      → Covers a rs b
      → 0 < n
      → n ≤ 7
      → Covers a (rs ++ (record { raw_begin = b; raw_end = b + n } ∷ [])) (b + n)
  Covers-word a [] b n (h, c) p s =
      (h, c, omega arith, omega arith, (omega arith, λ i k l. absurd (omega arith)))
  Covers-word a (r ∷ rs) b n (h, c, k, l, t) p s = (h, c, k, l, Covers-word r.raw_end rs b n t p s)

  pub Reading-Covers :
      {one : List ℕ → Option Parsed} {a j d : ℕ} {ks : List ChewingKey} {rs : List ChewingKeyRest}
      → Reading one input a j ks rs d
      → Covers a rs j × (length ks ≡ length rs)
  Reading-Covers {a = a} start = ((omega arith, λ i k l. absurd (omega arith)), refl)
  Reading-Covers {a = a} (quote {b = b} {rs = rs} r q) =
      let (c, n) = Reading-Covers r in (Covers-quote a rs b c q, n)
  Reading-Covers {a = a} (word {b = b} {ks = ks} {rs = rs} n key d r w) =
      let (c, m) = Reading-Covers r in
      (
        Covers-word a rs b n c w.positive w.short,
        omega (
          arith,
          length-append ks (key ∷ []),
          length-append rs (record { raw_begin = b; raw_end = b + n } ∷ []),
        ),
      )

-- FullPinyinParser2 with the index that its scheme sets.
unfoldable pub full_parse : Tables → List PinyinIndexItem → ℕ → List ℕ → Option (ℕ × Saved)
unfolding parse_one_key get_table_index parse
full_parse tables index options =
    parse (parse_one_key tables index options) (get_table_index tables.chewing_key_table)

module _ (tables : Tables) (index : List PinyinIndexItem) (options : ℕ)
    (law : IsTables tables index) (input : List ℕ) (small : length input < 32768) where
  -- FullPinyinParser2::parse answers, and what it answers is the best reading of the input's
  -- beginning: the keys of a reading that no other exceeds in length, nor one of its length
  -- undercuts in the number of keys, nor one of as many keys in distance. The tables are well
  -- formed, and the input is shorter than 2 ^ 15.
  pub full_parse-IsBest :
      (l : ℕ) × (ks : List ChewingKey) × (rs : List ChewingKeyRest) × (full_parse tables index
          options input
        ≡ some (l, (ks, rs)))
      × IsBest (parse_one_key tables index options) input l ks rs
  unfolding full_parse
  full_parse-IsBest =
      parse-IsBest (parse_one_key tables index options) (get_table_index tables.chewing_key_table)
        input (parse_one_key-IsPieceParser tables index options law)
        (parse_one_key-IsIndexed tables index options law) small

  -- What FullPinyinParser2::parse answers is within the input, has as many places as keys, and the
  -- places, of one to seven characters each, follow each other from the beginning to the parsed
  -- length with nothing but apostrophes between them. The tables are well formed, and the input is
  -- shorter than 2 ^ 15.
  pub full_parse-Covers :
      (l : ℕ) × (ks : List ChewingKey) × (rs : List ChewingKeyRest) × (full_parse tables index
          options input
        ≡ some (l, (ks, rs)))
      × (l ≤ length input)
      × (length ks ≡ length rs)
      × Covers input 0 rs l
  full_parse-Covers =
      let (l, ks, rs, e, b) = full_parse-IsBest in
      let (c, n) = Reading-Covers input b.reading in
      let (_, inside) =
        Reading-le (parse_one_key tables index options) input (omega arith) b.reading in
      (l, ks, rs, e, inside, n, c)
