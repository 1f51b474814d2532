-- ===== src/PinyinParser/Pieces.antt =====
-- The inner loop of src/storage/pinyin_parser2.cpp keeps the invariant, and what an apostrophe
-- does.
use libpinyin.Common.{
  ℕ, suc, ◌+◌, ◌-◌, ◌≤◌, ◌<◌, ◌≡◌, refl, sym, ap, ◌∙◌, ◌⊎◌, inl, inr, false, Option, some, none,
  List, length, length-take, length-drop, get_elem?, get_elem?_lt, take, drop, arith, set_at,
  set_at_lt, ◌>>=◌,
}
use libpinyin.PinyinPhrase.{ChewingKey}
use libpinyin.PinyinParser.{Parsed, has_quote}
use libpinyin.PinyinParser.Full.{ParseValue, try_piece, save_next_step, next_quote, gen_next_step}
use libpinyin.PinyinParser.Reading.{
  IsNoWorse-refl, IsWord, IsPiece, IsWord-IsPiece, le→quoteless, next_quote_le,
}
use libpinyin.PinyinParser.Saving.{
  IsBounded, NoWorse, word_value, save_next_step_lem, gen_next_step_lem, word_value-IsBounded,
}
use libpinyin.PinyinParser.Scan.{
  IsLinked, untouched, by_quote, by_word, IsScanned, IsScanned-assigned, IsTried,
}

-- A parse_one_key that answers on every piece, with a distance up to the length of the piece.
pub record IsPieceParser (parse_one_key : List ℕ → Option Parsed) : Type 0 where
  pub answers :
      (piece : List ℕ) → IsPiece piece → (parsed : Parsed) × (parse_one_key piece ≡ some parsed)
  pub near :
      (piece : List ℕ) (key : ChewingKey) (distance : ℕ)
      → IsPiece piece
      → parse_one_key piece ≡ some (some (key, distance))
      → distance ≤ length piece

module _ (parse_one_key : List ℕ → Option Parsed) (input : List ℕ)
    (law : IsPieceParser parse_one_key) (small : length input < 32768) where
  -- The steps behind the last turn are one more that was tried.
  tried :
      (i c : ℕ) (xs : List ParseValue)
      → IsScanned parse_one_key input i c xs
      → ((b n : ℕ) (key : ChewingKey) (distance : ℕ) (u v : ParseValue)
          → b ≡ i
          → n ≡ suc c
          → IsWord parse_one_key input b n key distance
          → get_elem? xs b ≡ some u
          → get_elem? xs (b + n) ≡ some v
          → NoWorse v (word_value u b n key distance))
      → IsScanned parse_one_key input i (suc c) xs
  tried i c xs s last = record {
    size = s.size;
    bounded = s.bounded;
    linked = s.linked;
    words = λ b n key d u v t word e f. elim (split b n t) [
      | inl old ↦ s.words b n key d u v old word e f
      | inr (p, q) ↦ last b n key d u v p q word e f
    ];
    quotes = s.quotes;
  }
    where
      split :
          (b n : ℕ)
          → IsTried parse_one_key input i (suc c) b n
          → IsTried parse_one_key input i c b n ⊎ ((b ≡ i) × (n ≡ suc c))
      split b n t = ground arith

  length_piece : (i n : ℕ) → i + n ≤ length input → length (take n (drop i input)) ≡ n
  length_piece i n h = omega (arith, length-take n (drop i input), length-drop i input)

  -- An unreached step is worse than any that is reached.
  untouched-NoWorse :
      (xs : List ParseValue) (i j : ℕ) (v w : ParseValue)
      → IsLinked parse_one_key input xs i j v
      → i < 32768
      → v.last_step ≡ 65535
      → 0 < w.parsed_len
      → NoWorse w v
  untouched-NoWorse xs i j v w (untouched e) h l p = inl (rw e p)
  untouched-NoWorse xs i j v w (by_quote b u k g q e f) h l p =
      absurd (let m : v.last_step ≡ b = rw f refl in omega arith)
  untouched-NoWorse xs i j v w (by_word b n key d u k g q e f) h l p =
      absurd (let m : v.last_step ≡ b = rw f refl in omega arith)

  saved :
      (xs : List ParseValue) (i j : ℕ) (v w : ParseValue)
      → IsBounded j v
      → IsBounded j w
      → IsLinked parse_one_key input xs i j v
      → IsLinked parse_one_key input xs i j w
      → ((save_next_step w v ≡ w) × NoWorse w v) ⊎ ((save_next_step w v ≡ v) × NoWorse v w)
      → let r = save_next_step w v in
        IsBounded j r × IsLinked parse_one_key input xs i j r × NoWorse r v × NoWorse r w
  saved xs i j v w p q k l (inl (e, h)) =
      rw e (q, l, h, IsNoWorse-refl w.parsed_len w.num_keys w.distance)
  saved xs i j v w p q k l (inr (e, h)) =
      rw e (p, k, IsNoWorse-refl v.parsed_len v.num_keys v.distance, h)

  -- The turn on which parse_one_key answers a key.
  try_piece_found :
      (i n c j : ℕ) (xs : List ParseValue) (key : ChewingKey) (distance : ℕ)
      → IsScanned parse_one_key input i c xs
      → n ≡ suc c
      → j ≡ i + n
      → IsWord parse_one_key input i n key distance
      → (u : ParseValue) → get_elem? xs i ≡ some u
      → (v : ParseValue) → get_elem? xs j ≡ some v
      → (ys : List ParseValue) × (set_at xs j (save_next_step (gen_next_step u i j key distance) v)
          ≡ some ys)
        × IsScanned parse_one_key input i (suc c) ys
  try_piece_found i n c j xs key d s m l word u e v f =
      let near =
        law.near (take n (drop i input)) key d (IsWord-IsPiece parse_one_key input i n key d word)
          word.parsed in
      let piece = length_piece i n word.inside in
      let w : ParseValue = word_value u i n key d in
      let w_bounded : IsBounded j w =
        rw l (word_value-IsBounded u i n key d (s.bounded i u e) word.positive (omega arith)) in
      let kept =
        save_next_step_lem j v w (omega (arith, word.inside)) (s.bounded j v f) w_bounded (λ h.
          untouched-NoWorse xs i j v w (s.linked j v f) (omega (arith, word.inside)) h
            (omega (arith, word.positive))) in
      let r : ParseValue = save_next_step w v in
      let (r_bounded, r_linked, over_v, over_w) =
        saved xs i j v w (s.bounded j v f) w_bounded (s.linked j v f)
          (by_word i n key d u (omega arith) e word l refl) kept in
      let (ys, g, a) = set_at_lt xs j r (omega (arith, s.size, word.inside)) in
      let t : IsScanned parse_one_key input i c ys =
        IsScanned-assigned parse_one_key input xs ys i c j r v s a (omega (arith, word.positive)) f
          r_bounded r_linked over_v in
      let exact : gen_next_step u i j key d ≡ w = rw l (
        gen_next_step_lem u i n key d (s.bounded i u e) (omega (arith, word.inside)) word.positive
          (omega arith)) in
      (
        ys,
        ap (λ x. set_at xs j (save_next_step x v)) exact ∙ g,
        tried i c ys t (λ b k key' d' u' v' p q word' e' f'.
            let here = a.here in
            let there = a.others i (λ h. omega (arith, word.positive)) in
            let k_is : k ≡ n = q ∙ sym m in
            let end_is : b + k ≡ j = omega arith in
            let answer = word.parsed in
            let answer' = word'.parsed in
            let u_is : u' ≡ u = cc in
            let v_is : v' ≡ r = cc in
            let key_is : key' ≡ key = cc in
            let d_is : d' ≡ d = cc in rw (v_is, u_is, k_is, d_is) over_w),
      )

  -- One turn of the inner loop.
  pub try_piece_lem :
      (i n c : ℕ) (xs : List ParseValue)
      → IsScanned parse_one_key input i c xs
      → n ≡ suc c
      → n ≤ 7
      → i ≤ length input
      → n ≤ next_quote (drop i input)
      → (ys : List ParseValue) × (try_piece parse_one_key input i (i + n) xs ≡ some ys)
        × IsScanned parse_one_key input i (suc c) ys
  unfolding try_piece
  try_piece_lem i n c xs s m short within ahead =
      let inside : i + n ≤ length input =
        omega (arith, next_quote_le (drop i input), length-drop i input) in
      let piece = length_piece i n inside in
      let quoteless = le→quoteless n (drop i input) ahead in
      let (parsed, e) =
        law.answers (take n (drop i input))
          (record { nonempty = omega arith; up_to_7 = omega arith; no_quote = quoteless }) in
      let (u, f) = get_elem?_lt xs i (omega (arith, s.size)) in
      let (v, g) = get_elem?_lt xs (i + n) (omega (arith, s.size)) in
      let cut : i + n - i ≡ n = omega arith in rw (cut, e) (found parsed e inside quoteless u f v g)
    where
      found :
          (parsed : Parsed)
          → parse_one_key (take n (drop i input)) ≡ some parsed
          → i + n ≤ length input
          → has_quote (take n (drop i input)) ≡ false
          → (u : ParseValue) → get_elem? xs i ≡ some u
          → (v : ParseValue) → get_elem? xs (i + n) ≡ some v
          → (ys : List ParseValue) × (elim parsed [
            | none ↦ some xs
            | some (key, distance) ↦ get_elem? xs i >>= λ curstep.
                get_elem? xs (i + n) >>= λ nextstep.
                set_at xs
                  (i + n)
                  (save_next_step (gen_next_step curstep i (i + n) key distance) nextstep)
          ]
              ≡ some ys)
            × IsScanned parse_one_key input i (suc c) ys
      found none e inside quoteless u f v g = (
        xs,
        refl,
        tried i c xs s (λ b k key d u' v' p q word _ _.
            let answer = word.parsed in let k_is : k ≡ n = q ∙ sym m in absurd cc),
      )
      found (some (key, d)) e inside quoteless u f v g =
          let word : IsWord parse_one_key input i n key d = record {
            positive = omega arith;
            short = short;
            inside = inside;
            quoteless = quoteless;
            parsed = e;
          } in
          let (ys, h, t) = try_piece_found i n c (i + n) xs key d s m refl word u f v g in
          (ys, rw (f, g) h, t)
