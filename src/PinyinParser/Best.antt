-- ===== src/PinyinParser/Best.antt =====
-- No reading of an input beats the steps that src/storage/pinyin_parser2.cpp leaves.
use libpinyin.Common.{
  ℕ, zero, suc, ◌+◌, ◌-◌, ◌≤◌, ◌<◌, ◌≡◌, inl, true, Option, some, List, [], ◌∷◌, length,
  length-append, get_elem?, get_elem?_lt, arith,
}
use libpinyin.PinyinPhrase.{ChewingKey}
use libpinyin.PinyinParser.{Parsed, ChewingKeyRest}
use libpinyin.PinyinParser.Full.{ParseValue, is_quote_at}
use libpinyin.PinyinParser.Reading.{Reading, start, quote, word, IsNoWorse, IsNoWorse-trans}
use libpinyin.PinyinParser.Scan.{IsScanned}

pub lt_of_quote : (cs : List ℕ) (i : ℕ) → is_quote_at cs i ≡ true → i < length cs
unfolding is_quote_at
lt_of_quote [] i q = absurd (ground arith)
lt_of_quote (c ∷ cs) zero q = omega arith
lt_of_quote (c ∷ cs) (suc i) q = omega (arith, lt_of_quote cs i q)

add_quote :
    {a b l k d k' d' : ℕ}
    → a ≤ b
    → IsNoWorse l k d (b - a) k' d'
    → IsNoWorse (l + 1) k d (b + 1 - a) k' d'
add_quote p q = ground arith

add_word :
    {a b l k d k' d' c : ℕ} (n e : ℕ)
    → a ≤ b
    → c ≡ k' + 1
    → IsNoWorse l k d (b - a) k' d'
    → IsNoWorse (l + n) (k + 1) (d + e) (b + n - a) c (d' + e)
add_word n e p m q = ground arith

module _ (parse_one_key : List ℕ → Option Parsed) (input : List ℕ) where
  -- A reading goes forward, within the input.
  pub Reading-le :
      {a j d : ℕ} {ks : List ChewingKey} {rs : List ChewingKeyRest}
      → a ≤ length input
      → Reading parse_one_key input a j ks rs d
      → (a ≤ j) × (j ≤ length input)
  Reading-le h start = (omega arith, h)
  Reading-le h (quote {b = b} r q) =
      let (p, _) = Reading-le h r in (omega arith, omega (arith, lt_of_quote input b q))
  Reading-le h (word n key d r w) = let (p, _) = Reading-le h r in (omega arith, w.inside)

  -- The reading of the input's beginning that is best: no other is longer, none of the length has
  -- fewer keys, and none with as many keys a smaller distance.
  pub record IsBest (l : ℕ) (ks : List ChewingKey) (rs : List ChewingKeyRest) : Type 0 where
    pub distance : ℕ
    pub reading : Reading parse_one_key input 0 l ks rs distance
    pub best :
        (l' d' : ℕ) (ks' : List ChewingKey) (rs' : List ChewingKeyRest)
        → Reading parse_one_key input 0 l' ks' rs' d'
        → IsNoWorse l (length ks) distance l' (length ks') d'

  module _ (small : length input < 32768) (steps : List ParseValue)
      (scanned : IsScanned parse_one_key input (length input) 0 steps) where
    -- No reading beats the step at its end.
    pub Reading-IsNoWorse :
        {a j d : ℕ} {ks : List ChewingKey} {rs : List ChewingKeyRest}
        → a ≤ length input
        → Reading parse_one_key input a j ks rs d
        → (v : ParseValue) → get_elem? steps j ≡ some v
        → IsNoWorse v.parsed_len v.num_keys v.distance (j - a) (length ks) d
    Reading-IsNoWorse {a = a} h start v e =
        let b = scanned.bounded a v e in let p = b.keys_le in let q = b.distance_le in ground arith
    Reading-IsNoWorse {a = a} h (quote {b = b} {d = d} {ks = ks} r q) v e =
        let (p, _) = Reading-le h r in
        let inside = lt_of_quote input b q in
        let (u, f) = get_elem?_lt steps b (omega (arith, scanned.size)) in
        let before = Reading-IsNoWorse h r u f in
        let over = scanned.quotes b u v inside q f e in IsNoWorse-trans over (add_quote p before)
    Reading-IsNoWorse {a = a} h (word {b = b} {d = d} {ks = ks} n key dist r w) v e =
        let (p, k) = Reading-le h r in
        let (u, f) = get_elem?_lt steps b (omega (arith, scanned.size)) in
        let before = Reading-IsNoWorse h r u f in
        let inside = w.inside in
        let positive = w.positive in
        let over = scanned.words b n key dist u v (inl (omega arith)) w f e in
        let count = length-append ks (key ∷ []) in
        IsNoWorse-trans over (add_word n dist p (omega arith) before)
