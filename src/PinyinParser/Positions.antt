-- ===== src/PinyinParser/Positions.antt =====
-- A position of the input in the outer loop of src/storage/pinyin_parser2.cpp.
use libpinyin.Common.{
  ℕ, zero, suc, ◌+◌, ◌≤◌, ◌<◌, ◌≡◌, refl, sym, ap, ◌∙◌, ◌⊎◌, inl, inr, subst, Bool-cases, ◌==◌,
  true, false, Option, some, List, length, length-drop, get_elem?, get_elem?_lt, drop, arith,
  set_at, set_at_lt, IsAssigned, bind_some, min,
}
use libpinyin.PinyinParser.{Parsed}
use libpinyin.PinyinParser.Full.{
  ParseValue, is_quote_at, try_pieces, propagate, next_quote, propagate_step,
}
use libpinyin.PinyinParser.Reading.{IsNoWorse-refl, quoteless→le, quote_inside}
use libpinyin.PinyinParser.Saving.{NoWorse, quote_value, propagate_step_lem, quote_value-IsBounded}
use libpinyin.PinyinParser.Pieces.{IsPieceParser, try_piece_lem}
use libpinyin.PinyinParser.Scan.{
  IsLinked, untouched, by_quote, by_word, IsScanned, IsScanned-assigned, IsTried,
}

module _ (parse_one_key : List ℕ → Option Parsed) (input : List ℕ)
    (law : IsPieceParser parse_one_key) (small : length input < 32768) where
  -- The links reach further back for a later position.
  later :
      (xs : List ParseValue) (i j : ℕ) (v : ParseValue)
      → IsLinked parse_one_key input xs i j v
      → IsLinked parse_one_key input xs (suc i) j v
  later xs i j v (untouched e) = untouched e
  later xs i j v (by_quote b u k g q e f) = by_quote b u (omega arith) g q e f
  later xs i j v (by_word b n key d u k g q e f) = by_word b n key d u (omega arith) g q e f

  -- The inner loop.
  pub try_pieces_lem :
      (i count c : ℕ) (xs : List ParseValue)
      → IsScanned parse_one_key input i c xs
      → i ≤ length input
      → c + count ≤ 7
      → c + count ≤ next_quote (drop i input)
      → (ys : List ParseValue) × (try_pieces parse_one_key input i count (i + suc c) xs ≡ some ys)
        × IsScanned parse_one_key input i (c + count) ys
  unfolding try_pieces
  try_pieces_lem i zero c xs s h p q = let e : c + 0 ≡ c = omega arith in (xs, refl, rw e s)
  try_pieces_lem i (suc count) c xs s h p q =
      let (ys, e, t) =
        try_piece_lem parse_one_key input law small i (suc c) c xs s refl (omega arith) h
          (omega arith) in
      let (zs, f, r) = try_pieces_lem i count (suc c) ys t h (omega arith) (omega arith) in
      let next : suc (i + suc c) ≡ i + suc (suc c) = omega arith in
      let end : suc c + count ≡ c + suc count = omega arith in
      (zs, rw (e, next) f, subst (λ k. IsScanned parse_one_key input i k zs) end r)

  -- A position without an apostrophe is done once the pieces up to the next one were tried.
  pub done :
      (i c : ℕ) (xs : List ParseValue)
      → IsScanned parse_one_key input i c xs
      → is_quote_at input i ≡ false
      → c ≡ min 7 (next_quote (drop i input))
      → IsScanned parse_one_key input (suc i) 0 xs
  done i c xs s h m = record {
    size = s.size;
    bounded = s.bounded;
    linked = λ j v e. later xs i j v (s.linked j v e);
    words = λ b n key d u v t word e f.
        s.words b n key d u v
          (before b n t word.positive word.short (λ p.
            let ahead =
              quoteless→le n (drop b input) (omega (arith, word.inside, length-drop b input))
                word.quoteless in
            rw (sym p) ahead))
          word e f;
    quotes = λ b u v t quote e f. s.quotes b u v (earlier b t quote) quote e f;
  }
    where
      before :
          (b n : ℕ)
          → IsTried parse_one_key input (suc i) 0 b n
          → 0 < n
          → n ≤ 7
          → (b ≡ i → n ≤ next_quote (drop i input))
          → IsTried parse_one_key input i c b n
      before b n t p q ahead = ground (arith, ahead)

      earlier : (b : ℕ) → b < suc i → is_quote_at input b ≡ true → b < i
      earlier b t quote = elim (Bool-cases (b == i)) [
        | inl p ↦ let q : b ≡ i = ground arith in absurd cc
        | inr p ↦ ground arith
      ]

  -- A position with an apostrophe.
  pub propagate_lem :
      (i : ℕ) (xs : List ParseValue)
      → IsScanned parse_one_key input i 0 xs
      → i < length input
      → is_quote_at input i ≡ true
      → (ys : List ParseValue) × (propagate parse_one_key i xs ≡ some ys)
        × IsScanned parse_one_key input (suc i) 0 ys
  unfolding propagate
  propagate_lem i xs s h q =
      let (u, e) = get_elem?_lt xs i (omega (arith, s.size)) in
      let (v, f) = get_elem?_lt xs (i + 1) (omega (arith, s.size)) in
      let w : ParseValue = quote_value u i in
      let (ys, g, a) = set_at_lt xs (i + 1) w (omega (arith, s.size)) in
      let exact = propagate_step_lem u i (s.bounded i u e) (omega arith) in
      let linked : IsLinked parse_one_key input xs i (i + 1) w =
        by_quote i u (omega arith) e q refl refl in
      let t =
        IsScanned-assigned parse_one_key input xs ys i 0 (i + 1) w v s a (omega arith) f
          (quote_value-IsBounded u i (s.bounded i u e)) linked
          (over i xs v u e q (s.linked (i + 1) v f)) in
      (
        ys,
        bind_some (λ c. set_at xs (i + 1) (propagate_step c i)) e
            (ap (set_at xs (i + 1)) exact ∙ g),
        record {
          size = t.size;
          bounded = t.bounded;
          linked = λ j x k. later ys i j x (t.linked j x k);
          words = λ b n key d x y tr word k l.
              t.words b n key d x y
                (ground (arith, quote_inside n b input i, word.positive, word.quoteless)) word k l;
          quotes = λ b x y l quote k m.
              quotes i xs ys u w t a e refl b x y l quote k m (Bool-cases (b == i));
        },
      )
    where
      over :
          (i : ℕ) (xs : List ParseValue) (v u : ParseValue)
          → get_elem? xs i ≡ some u
          → is_quote_at input i ≡ true
          → IsLinked parse_one_key input xs i (i + 1) v
          → NoWorse (quote_value u i) v
      over i xs v u e q (untouched f) = inl (rw f (omega arith))
      over i xs v u e q (by_quote b u' k g _ m f) =
          let b_is : b ≡ i = omega arith in
          let u_is : u' ≡ u = cc in
          rw (f, u_is) (IsNoWorse-refl (u.parsed_len + 1) u.num_keys u.distance)
      over i xs v u e q (by_word b n key d u' k g word m f) =
          absurd
            (let p = quote_inside n b input i k (omega arith) q in let r = word.quoteless in cc)

      quotes :
          (i : ℕ) (xs ys : List ParseValue) (u w : ParseValue)
          → IsScanned parse_one_key input i 0 ys
          → IsAssigned xs (i + 1) w ys
          → get_elem? xs i ≡ some u
          → w ≡ quote_value u i
          → (b : ℕ) (x y : ParseValue) → b < suc i
          → is_quote_at input b ≡ true
          → get_elem? ys b ≡ some x
          → get_elem? ys (b + 1) ≡ some y
          → ((b == i) ≡ true) ⊎ ((b == i) ≡ false)
          → NoWorse y (quote_value x b)
      quotes i xs ys u w t a e wf b x y l quote k m (inl p) =
          let b_is : b ≡ i = ground arith in
          let here = a.here in
          let there = a.others i (λ h. omega arith) in
          let x_is : x ≡ u = cc in
          let y_is : y ≡ w = cc in
          rw (y_is, wf, x_is) (IsNoWorse-refl (u.parsed_len + 1) u.num_keys u.distance)
      quotes i xs ys u w t a e wf b x y l quote k m (inr p) =
          t.quotes b x y (ground arith) quote k m
