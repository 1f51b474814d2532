-- ===== src/PinyinParser/Turns.antt =====
-- The outer loop of src/storage/pinyin_parser2.cpp keeps the invariant to the end of the input.
use libpinyin.Common.{
  ℕ, zero, suc, ◌+◌, ◌-◌, ◌<◌, ◌≡◌, refl, ◌⊎◌, inl, inr, subst, Bool-cases, true, false, Option,
  some, List, length, length-replicate, get_elem?-replicate, replicate, lt_of_get_elem?, get_elem?,
  drop, arith, min,
}
use libpinyin.PinyinParser.{Parsed}
use libpinyin.PinyinParser.Full.{
  ParseValue, new_parse_value, is_quote_at, try_pieces, step_at, parse_steps, forward_sep,
  next_quote,
}
use libpinyin.PinyinParser.Reading.{next_quote-suc}
use libpinyin.PinyinParser.Pieces.{IsPieceParser}
use libpinyin.PinyinParser.Scan.{untouched, IsScanned}
use libpinyin.PinyinParser.Positions.{try_pieces_lem, done, propagate_lem}

module _ (parse_one_key : List ℕ → Option Parsed) (input : List ℕ)
    (law : IsPieceParser parse_one_key) (small : length input < 32768) where
  -- What next_sep may be in front of the position `i`.
  abbrev IsSep : ℕ → ℕ → Type 0
  IsSep i next_sep = (next_sep ≡ 0) ⊎ (next_sep ≡ i + next_quote (drop i input))

  forward_sep-quote :
      (i sep : ℕ) → is_quote_at input i ≡ true → forward_sep parse_one_key input i sep ≡ 0
  unfolding forward_sep
  forward_sep-quote i sep q = rw q refl

  forward_sep_lem :
      (i sep : ℕ)
      → IsSep i sep
      → is_quote_at input i ≡ false
      → forward_sep parse_one_key input i sep ≡ i + next_quote (drop i input)
  unfolding forward_sep
  forward_sep_lem i sep h q = rw q (ground arith)

  -- A position without an apostrophe.
  pieces_at_lem :
      (i : ℕ) (xs : List ParseValue)
      → IsScanned parse_one_key input i 0 xs
      → i < length input
      → is_quote_at input i ≡ false
      → let next = i + next_quote (drop i input) in
        (ys : List ParseValue) × (try_pieces parse_one_key input i (min (i + 7) next - i) (i + 1) xs
          ≡ some ys)
        × IsScanned parse_one_key input (suc i) 0 ys
  pieces_at_lem i xs s h q =
      let count : ℕ = min 7 (next_quote (drop i input)) in
      let turns : min (i + 7) (i + next_quote (drop i input)) - i ≡ count = omega arith in
      rw turns (
        let (ys, e, t) =
          try_pieces_lem parse_one_key input law small i count 0 xs s (omega arith) (omega arith)
            (omega arith) in
        (ys, e, done parse_one_key input law small i (0 + count) ys t q (omega arith)))

  -- One turn of the outer loop.
  step_at_lem :
      (i sep : ℕ) (xs : List ParseValue)
      → IsScanned parse_one_key input i 0 xs
      → i < length input
      → IsSep i sep
      → let next = forward_sep parse_one_key input i sep in
        IsSep (suc i) next
        × ((ys : List ParseValue) × (step_at parse_one_key input i next xs ≡ some ys)
            × IsScanned parse_one_key input (suc i) 0 ys)
  unfolding step_at
  step_at_lem i sep xs s h k = elim (Bool-cases (is_quote_at input i)) [
    | inl q ↦
        let (ys, e, t) = propagate_lem parse_one_key input law small i xs s h q in
        (inl (forward_sep-quote i sep q), (ys, rw q e, t))
    | inr q ↦
        let sep_is = forward_sep_lem i sep k q in
        let further = next_quote-suc i input h q in
        (inr (omega arith), rw (q, sep_is) (pieces_at_lem i xs s h q))
  ]

  parse_steps_lem :
      (count i sep : ℕ) (xs : List ParseValue)
      → IsScanned parse_one_key input i 0 xs
      → i + count ≡ length input
      → IsSep i sep
      → (ys : List ParseValue) × (parse_steps parse_one_key input count i sep xs ≡ some ys)
        × IsScanned parse_one_key input (length input) 0 ys
  unfolding parse_steps
  parse_steps_lem zero i sep xs s h k =
      let e : i ≡ length input = omega arith in
      (xs, refl, subst (λ j. IsScanned parse_one_key input j 0 xs) e s)
  parse_steps_lem (suc count) i sep xs s h k =
      let (next, (ys, e, t)) = step_at_lem i sep xs s (omega arith) k in
      let (zs, f, r) =
        parse_steps_lem count (suc i) (forward_sep parse_one_key input i sep) ys t (omega arith)
          next in
      (zs, rw e f, r)

  -- The steps in front of the loop.
  first_steps-IsScanned :
      IsScanned parse_one_key input 0 0 (replicate (length input + 1) new_parse_value)
  first_steps-IsScanned = record {
    size = omega (arith, length-replicate (length input + 1) new_parse_value);
    bounded = λ j v e.
        rw (fresh j v e)
          (record { parsed_le = omega arith; keys_le = omega arith; distance_le = omega arith });
    linked = λ j v e. untouched (fresh j v e);
    words = λ b n key d u v t word e f. absurd (ground (arith, word.positive));
    quotes = λ b u v h. absurd (omega arith);
  }
    where
      fresh :
          (j : ℕ) (v : ParseValue)
          → get_elem? (replicate (length input + 1) new_parse_value) j ≡ some v
          → v ≡ new_parse_value
      fresh j v e =
          let h = lt_of_get_elem? (replicate (length input + 1) new_parse_value) j v e in
          let f =
            get_elem?-replicate (length input + 1) j new_parse_value
              (omega (arith, length-replicate (length input + 1) new_parse_value)) in
          cc

  pub parse_steps-IsScanned :
      (ys : List ParseValue) × (parse_steps parse_one_key input
          (length input)
          0
          0
          (replicate (length input + 1) new_parse_value)
        ≡ some ys)
      × IsScanned parse_one_key input (length input) 0 ys
  parse_steps-IsScanned =
      parse_steps_lem (length input) 0 0 (replicate (length input + 1) new_parse_value)
        first_steps-IsScanned (omega arith) (inl refl)
