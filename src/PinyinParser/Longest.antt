-- ===== src/PinyinParser/Longest.antt =====
-- The answer of FullPinyinParser2::parse in src/storage/pinyin_parser2.cpp is the reading it
-- prefers.
use libpinyin.Common.{
  ℕ, zero, suc, ◌+◌, ◌-◌, ◌≤◌, ◌<◌, ◌≡◌, refl, sym, ap, ap₂, ◌∙◌, subst, inl, inr, true, Bool-cases,
  ◌==◌, ltb, Option, some, List, [], ◌++◌, append-nil, length, length-replicate, replicate,
  get_elem?, get_elem?_lt, lt_of_get_elem?, lt→ltb, drop, drop_all, arith,
}
use libpinyin.PinyinPhrase.{ChewingKey, new_chewing_key}
use libpinyin.PinyinParser.{Parsed, ChewingKeyRest, new_chewing_key_rest}
use libpinyin.PinyinParser.Full.{ParseValue, longest_match, final_step, parse}
use libpinyin.PinyinParser.Reading.{Reading, IsNoWorse}
use libpinyin.PinyinParser.Scan.{IsScanned}
use libpinyin.PinyinParser.Pieces.{IsPieceParser}
use libpinyin.PinyinParser.Turns.{parse_steps-IsScanned}
use libpinyin.PinyinParser.Backtrace.{IsIndexed, backtrace_lem}
use libpinyin.PinyinParser.Best.{IsBest, Reading-le, Reading-IsNoWorse}

module _ (parse_one_key : List ℕ → Option Parsed) (input : List ℕ) where
  module _ (small : length input < 32768) (steps : List ParseValue)
      (scanned : IsScanned parse_one_key input (length input) 0 steps) where
    -- The longest match is a step whose whole text was read, and none behind it is.
    record IsMatch (k : ℕ) (v : ParseValue) : Type 0 where
      position : ℕ
      at : get_elem? steps position ≡ some v
      whole : v.parsed_len ≡ position
      last :
          (j : ℕ) (w : ParseValue)
          → j ≤ k
          → get_elem? steps j ≡ some w
          → w.parsed_len ≡ j
          → j ≤ position

    longest_match_lem :
        (k : ℕ)
        → k ≤ length input
        → (v : ParseValue) × (longest_match k steps ≡ some v) × IsMatch k v
    unfolding longest_match
    longest_match_lem zero h =
        let (v, e) = get_elem?_lt steps 0 (omega (arith, scanned.size)) in
        let b = scanned.bounded 0 v e in
        let p = b.parsed_le in
        (v, e, record { position = 0; at = e; whole = omega arith; last = λ j w k _ _. k })
    longest_match_lem (suc k) h =
        let (v, e) = get_elem?_lt steps (suc k) (omega (arith, scanned.size)) in
        let b = scanned.bounded (suc k) v e in
        let p = b.parsed_le in
        let (x, f, m) = longest_match_lem k (omega arith) in
        let s : ltb v.parsed_len 32768 ≡ true = ground arith in
        elim (Bool-cases (suc k == v.parsed_len)) [
          | inl q ↦ (
            v,
            rw (e, q, s) refl,
            record { position = suc k; at = e; whole = ground arith; last = λ j w k _ _. k },
          )
          | inr q ↦ (
            x,
            rw (e, q) f,
            record {
              position = m.position;
              at = m.at;
              whole = m.whole;
              last = λ j w i g full. elim (Bool-cases (j == suc k)) [
                | inl t ↦
                    let j_is : j ≡ suc k = ground arith in
                    let w_is : w ≡ v = cc in
                    let len : v.parsed_len ≡ w.parsed_len = ap (λ x. x.parsed_len) (sym w_is) in
                    absurd (ground arith)
                | inr t ↦ m.last j w (ground arith) g full
              ];
            },
          )
        ]

    match-IsBest :
        (v : ParseValue)
        → IsMatch (length input) v
        → (l d : ℕ) (ks : List ChewingKey) (rs : List ChewingKeyRest)
        → Reading parse_one_key input 0 l ks rs d
        → IsNoWorse v.parsed_len v.num_keys v.distance l (length ks) d
    match-IsBest v m l d ks rs r =
        let (_, inside) = Reading-le parse_one_key input (omega arith) r in
        let (w, f) = get_elem?_lt steps l (omega (arith, scanned.size)) in
        let over = Reading-IsNoWorse parse_one_key input small steps scanned (omega arith) r w f in
        let b = scanned.bounded l w f in
        let parsed_le = b.parsed_le in
        let w_whole : w.parsed_len ≡ l = ground arith in
        let before = m.last l w inside f w_whole in
        let v_whole = m.whole in
        elim (Bool-cases (l == m.position)) [
          | inl q ↦
              let at = m.at in
              let l_is : l ≡ m.position = ground arith in
              let v_is : v ≡ w = cc in
              let none_before : l - 0 ≡ l = omega arith in
              rw v_is (
                subst (λ k. IsNoWorse w.parsed_len w.num_keys w.distance k (length ks) d)
                  none_before over)
          | inr q ↦ inl (ground arith)
        ]

    -- What final_step answers on the steps of the whole input.
    pub final_step_lem :
        (get_table_index : ChewingKey → Option ℕ)
        → IsIndexed parse_one_key get_table_index
        → (l : ℕ) × (ks : List ChewingKey) × (rs : List ChewingKeyRest) × (final_step
              get_table_index
              (length input + 1)
              steps
            ≡ some (l, (ks, rs)))
          × IsBest parse_one_key input l ks rs
    unfolding final_step
    final_step_lem get_table_index law =
        let (v, e, m) = longest_match_lem (length input) (omega arith) in
        let b = scanned.bounded m.position v m.at in
        let keys_le = b.keys_le in
        let parsed_le = b.parsed_le in
        let full = m.whole in
        let inside = lt_of_get_elem? steps m.position v m.at in
        let size = scanned.size in
        let keys : List ChewingKey = replicate v.num_keys new_chewing_key in
        let rests : List ChewingKeyRest = replicate v.num_keys new_chewing_key_rest in
        let keys_count = length-replicate v.num_keys new_chewing_key in
        let rests_count = length-replicate v.num_keys new_chewing_key_rest in
        let s =
          backtrace_lem parse_one_key get_table_index input law small steps scanned
            (length input + 1) m.position v keys rests (omega arith) m.at (omega arith)
            (omega arith) in
        let small_count : ltb v.num_keys 32768 ≡ true = lt→ltb v.num_keys 32768 (omega arith) in
        let last : length input + 1 - 1 ≡ length input = omega arith in
        let from_zero : s.begin ≡ 0 = omega (arith, s.length_is) in
        let none_left : drop v.num_keys keys ≡ [] = drop_all v.num_keys keys (omega arith) in
        let no_rest : drop v.num_keys rests ≡ [] = drop_all v.num_keys rests (omega arith) in
        let saved =
          s.saved
          ∙ ap some (
              ap₂ (λ x y. (x, y)) (ap (◌++◌ s.ks) none_left ∙ append-nil s.ks)
                (ap (◌++◌ s.rs) no_rest ∙ append-nil s.rs)) in
        (
          v.parsed_len,
          s.ks,
          s.rs,
          rw (last, e, small_count, saved) refl,
          record {
            distance = v.distance;
            reading =
                subst (λ j. Reading parse_one_key input 0 j s.ks s.rs v.distance) (sym full)
                  (subst (λ a. Reading parse_one_key input a m.position s.ks s.rs v.distance)
                    from_zero s.reading);
            best = λ l' d' ks' rs' r.
                subst (λ c. IsNoWorse v.parsed_len c v.distance l' (length ks') d') (sym s.count_is)
                  (match-IsBest v m l' d' ks' rs' r);
          },
        )

-- FullPinyinParser2::parse answers, and what it answers is the best reading of the input's
-- beginning. The input is shorter than 2 ^ 15 characters; parse_one_key answers on every piece of
-- up to seven characters without an apostrophe, with a distance up to the piece's length and a key
-- of a table index other than 0, which is that of the zero key.
pub parse-IsBest :
    (parse_one_key : List ℕ → Option Parsed) (get_table_index : ChewingKey → Option ℕ)
    (input : List ℕ)
    → IsPieceParser parse_one_key
    → IsIndexed parse_one_key get_table_index
    → length input < 32768
    → (l : ℕ) × (ks : List ChewingKey) × (rs : List ChewingKeyRest) × (parse parse_one_key
          get_table_index input
        ≡ some (l, (ks, rs)))
      × IsBest parse_one_key input l ks rs
unfolding parse
parse-IsBest parse_one_key get_table_index input law indexed small =
    let (steps, e, scanned) = parse_steps-IsScanned parse_one_key input law small in
    rw e (final_step_lem parse_one_key input small steps scanned get_table_index indexed)
