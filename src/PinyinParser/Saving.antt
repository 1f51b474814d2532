-- ===== src/PinyinParser/Saving.antt =====
-- What one write of the dynamic programme in src/storage/pinyin_parser2.cpp leaves in a step.
use libpinyin.Common.{ℕ, ◌+◌, ◌-◌, ◌%◌, ◌≤◌, ◌<◌, ◌≡◌, ◌⊎◌, arith}
use libpinyin.PinyinPhrase.{ChewingKey}
use libpinyin.PinyinParser.Full.{
  ParseValue, save_next_step, gen_next_step, propagate_step, new_parse_value,
}
use libpinyin.PinyinParser.Reading.{IsNoWorse}

-- The numbers of a step that stands at the end of `j` characters.
pub record IsBounded (j : ℕ) (v : ParseValue) : Type 0 where
  pub parsed_le : v.parsed_len ≤ j
  pub keys_le : v.num_keys ≤ v.parsed_len
  pub distance_le : v.distance ≤ v.parsed_len

abbrev pub NoWorse : ParseValue → ParseValue → Type 0
NoWorse v w = IsNoWorse v.parsed_len v.num_keys v.distance w.parsed_len w.num_keys w.distance

pub save_next_step_lem :
    (j : ℕ) (v w : ParseValue)
    → j < 32768
    → IsBounded j v
    → IsBounded j w
    → (v.last_step ≡ 65535 → NoWorse w v)
    → ((save_next_step w v ≡ w) × NoWorse w v) ⊎ ((save_next_step w v ≡ v) × NoWorse v w)
unfolding save_next_step
save_next_step_lem j v w h p q first =
    let a = p.parsed_le in
    let b = p.keys_le in
    let c = p.distance_le in
    let d = q.parsed_le in let e = q.keys_le in let f = q.distance_le in ground (arith, first)

-- The value for a key, with the numbers as they are without a wrap-around.
abbrev pub word_value : ParseValue → ℕ → ℕ → ChewingKey → ℕ → ParseValue
word_value u b n key distance = record {
  key = key;
  key_rest = record { raw_begin = b; raw_end = b + n };
  num_keys = u.num_keys + 1;
  parsed_len = u.parsed_len + n;
  distance = u.distance + distance;
  last_step = b;
}

abbrev pub quote_value : ParseValue → ℕ → ParseValue
quote_value u b = record new_parse_value {
  num_keys = u.num_keys;
  parsed_len = u.parsed_len + 1;
  distance = u.distance;
  last_step = b;
}

pub word_value-IsBounded :
    (u : ParseValue) (b n : ℕ) (key : ChewingKey) (distance : ℕ)
    → IsBounded b u
    → 0 < n
    → distance ≤ n
    → IsBounded (b + n) (word_value u b n key distance)
word_value-IsBounded u b n key distance p h k = record {
  parsed_le = omega (arith, p.parsed_le);
  keys_le = omega (arith, p.keys_le);
  distance_le = omega (arith, p.distance_le);
}

pub quote_value-IsBounded :
    (u : ParseValue) (b : ℕ) → IsBounded b u → IsBounded (b + 1) (quote_value u b)
quote_value-IsBounded u b p = record {
  parsed_le = omega (arith, p.parsed_le);
  keys_le = omega (arith, p.keys_le);
  distance_le = omega (arith, p.distance_le);
}

pub gen_next_step_lem :
    (u : ParseValue) (b n : ℕ) (key : ChewingKey) (distance : ℕ)
    → IsBounded b u
    → b + n < 32768
    → 0 < n
    → distance ≤ n
    → gen_next_step u b (b + n) key distance ≡ word_value u b n key distance
gen_next_step_lem u b n key distance p h z k =
    let i = p.parsed_le in
    let j = p.keys_le in
    let l = p.distance_le in
    let e0 : b % 65536 ≡ b = omega arith in
    let e1 : (b + n) % 65536 ≡ b + n = omega arith in
    let e2 : (u.num_keys + 1) % 65536 ≡ u.num_keys + 1 = omega arith in
    let e3 : (u.parsed_len + (b + n - b) % 65536) % 65536 ≡ u.parsed_len + n = omega arith in
    let e4 : (u.distance + distance) % 65536 ≡ u.distance + distance = omega arith in cc

pub propagate_step_lem :
    (u : ParseValue) (b : ℕ) → IsBounded b u → b + 1 < 32768 → propagate_step u b ≡ quote_value u b
propagate_step_lem u b p h =
    let i = p.parsed_le in
    let e0 : b % 65536 ≡ b = omega arith in
    let e1 : (u.parsed_len + 1) % 65536 ≡ u.parsed_len + 1 = omega arith in cc
