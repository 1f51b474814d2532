-- ===== src/PinyinParser/Full.antt =====
-- src/storage/pinyin_parser2.cpp: FullPinyinParser2, the dynamic programme over the positions of
-- the input.
use libpinyin.Common.{
  ℕ, zero, suc, ◌+◌, ◌-◌, ◌%◌, min, Bool, false, ◌&&◌, Option, none, some, List, [], ◌∷◌, ◌==◌, ltb,
  if◌then◌else◌, ◌>>=◌, assert, length, get_elem?, take, drop, replicate, set_at,
}
use libpinyin.Common.Words.{u16_mod}
use libpinyin.PinyinPhrase.{ChewingKey, new_chewing_key}
use libpinyin.PinyinParser.{ChewingKeyRest, new_chewing_key_rest, Parsed, apostrophe}

pub record ParseValue : Type 0 where
  pub key : ChewingKey
  pub key_rest : ChewingKeyRest
  pub num_keys : ℕ
  pub parsed_len : ℕ
  pub distance : ℕ
  pub last_step : ℕ

-- A number cut to a gint16, the number -1 of that type, and the order of the type.
abbrev pub gint16 : ℕ → ℕ
gint16 n = n % u16_mod

abbrev pub minus_one : ℕ
minus_one = 65535

abbrev pub lt16 : ℕ → ℕ → Bool
lt16 a b = ltb ((a + 32768) % u16_mod) ((b + 32768) % u16_mod)

-- The constructor.
abbrev pub new_parse_value : ParseValue
new_parse_value = record {
  key = new_chewing_key;
  key_rest = new_chewing_key_rest;
  num_keys = 0;
  parsed_len = 0;
  distance = 0;
  last_step = minus_one;
}

-- The value for a key that was read behind `curstep`, at the characters from m to n.
abbrev pub gen_next_step : ParseValue → ℕ → ℕ → ChewingKey → ℕ → ParseValue
gen_next_step curstep m n key distance = record {
  key = key;
  key_rest = record { raw_begin = m % u16_mod; raw_end = n % u16_mod };
  num_keys = gint16 (curstep.num_keys + 1);
  parsed_len = gint16 (curstep.parsed_len + gint16 (n - m));
  distance = gint16 (curstep.distance + distance);
  last_step = gint16 m;
}

-- The value that an apostrophe at `i` hands on.
abbrev pub propagate_step : ParseValue → ℕ → ParseValue
propagate_step curstep i = record {
  key = new_chewing_key;
  key_rest = new_chewing_key_rest;
  num_keys = curstep.num_keys;
  parsed_len = gint16 (curstep.parsed_len + 1);
  distance = curstep.distance;
  last_step = gint16 i;
}

-- What is left in `*nextstep`, by the four tests in their order.
unfoldable pub save_next_step : ParseValue → ParseValue → ParseValue
save_next_step value nextstep =
    let first = if nextstep.last_step == minus_one then value else nextstep in
    let longest = if lt16 first.parsed_len value.parsed_len then value else first in
    let shortest =
      if (value.parsed_len == longest.parsed_len) && lt16 value.num_keys longest.num_keys
      then value
      else longest in
    if (value.parsed_len == shortest.parsed_len)
      && ((value.num_keys == shortest.num_keys) && lt16 value.distance shortest.distance)
    then value
    else shortest

-- The characters up to the next apostrophe.
unfoldable pub next_quote : List ℕ → ℕ
next_quote [] = 0
next_quote (c ∷ cs) = let rest = next_quote cs in if c == apostrophe then 0 else suc rest

unfoldable pub is_quote_at : List ℕ → ℕ → Bool
is_quote_at input i = elim (get_elem? input i) [ none ↦ false | some c ↦ c == apostrophe ]

-- parse_one_key is a virtual method.
module _ (parse_one_key : List ℕ → Option Parsed) where
  -- The body of the inner loop, for the characters from m to n.
  unfoldable pub try_piece : List ℕ → ℕ → ℕ → List ParseValue → Option (List ParseValue)
  unfolding save_next_step
  try_piece input m n steps = parse_one_key (take (n - m) (drop m input)) >>= λ parsed.
      elim parsed [
        | none ↦ some steps
        | some (key, distance) ↦ get_elem? steps m >>= λ curstep. get_elem? steps n >>= λ nextstep.
            set_at steps n (save_next_step (gen_next_step curstep m n key distance) nextstep)
      ]

  -- The inner loop: `count` turns from n on.
  unfoldable pub try_pieces : List ℕ → ℕ → ℕ → ℕ → List ParseValue → Option (List ParseValue)
  unfolding try_piece
  try_pieces input m zero n steps = some steps
  try_pieces input m (suc count) n steps =
      try_piece input m n steps >>= λ next. try_pieces input m count (suc n) next

  unfoldable pub propagate : ℕ → List ParseValue → Option (List ParseValue)
  propagate i steps =
      get_elem? steps i >>= λ curstep. set_at steps (i + 1) (propagate_step curstep i)

  -- `next_sep` behind the position i, of which it was `next_sep` before.
  unfoldable pub forward_sep : List ℕ → ℕ → ℕ → ℕ
  unfolding is_quote_at next_quote
  forward_sep input i next_sep =
      if is_quote_at input i
      then 0
      else if next_sep == 0
      then i + next_quote (drop i input)
      else next_sep

  -- One turn of the outer loop, with the next_sep of that turn.
  unfoldable pub step_at : List ℕ → ℕ → ℕ → List ParseValue → Option (List ParseValue)
  unfolding is_quote_at try_pieces propagate
  step_at input i next_sep steps =
      if is_quote_at input i
      then propagate i steps
      else try_pieces input i (min (i + 7) next_sep - i) (i + 1) steps

  -- The outer loop: `count` turns from i on.
  unfoldable pub parse_steps : List ℕ → ℕ → ℕ → ℕ → List ParseValue → Option (List ParseValue)
  unfolding forward_sep step_at
  parse_steps input zero i next_sep steps = some steps
  parse_steps input (suc count) i next_sep steps =
      let sep = forward_sep input i next_sep in
      step_at input i sep steps >>= λ next. parse_steps input count (suc i) sep next

-- The last i at which `i == m_parsed_len`, the entry 0 if there is none.
unfoldable pub longest_match : ℕ → List ParseValue → Option ParseValue
longest_match zero steps = get_elem? steps 0
longest_match (suc i) steps = get_elem? steps (suc i) >>= λ curstep.
    if (suc i == curstep.parsed_len) && ltb curstep.parsed_len 32768
    then some curstep
    else longest_match i steps

-- The two arrays that are filled.
abbrev pub Saved : Type 0
Saved = List ChewingKey × List ChewingKeyRest

-- `pos` of the gint16 m_num_keys - 1; a negative one is out of the arrays.
unfoldable pub save_step : ParseValue → Saved → Option Saved
save_step curstep saved = set_at saved.0 (curstep.num_keys - 1) curstep.key >>= λ keys.
    set_at saved.1 (curstep.num_keys - 1) curstep.key_rest >>= λ rests. some (keys, rests)

module _ (get_table_index : ChewingKey → Option ℕ) where
  -- The loop that goes backward, on fuel: m_last_step is below the step it is found in.
  unfoldable pub backtrace : ℕ → List ParseValue → ParseValue → Saved → Option Saved
  unfolding save_step
  backtrace zero steps curstep saved = if curstep.last_step == minus_one then some saved else none
  backtrace (suc fuel) steps curstep saved =
      if curstep.last_step == minus_one
      then some saved
      else (get_table_index curstep.key >>= λ index.
          (if index == 0 then some saved else save_step curstep saved) >>= λ after.
          get_elem? steps curstep.last_step >>= λ before. backtrace fuel steps before after)

  unfoldable pub final_step : ℕ → List ParseValue → Option (ℕ × Saved)
  unfolding longest_match backtrace
  final_step step_len steps = longest_match (step_len - 1) steps >>= λ curstep.
      assert (ltb curstep.num_keys 32768) >>= λ _.
      backtrace step_len steps curstep (
        replicate curstep.num_keys new_chewing_key,
        replicate curstep.num_keys new_chewing_key_rest,
      )
      >>= λ saved. some (curstep.parsed_len, saved)

-- The answer is the length that was parsed, the keys and their places.
unfoldable pub parse :
    (List ℕ → Option Parsed) → (ChewingKey → Option ℕ) → List ℕ → Option (ℕ × Saved)
unfolding parse_steps final_step
parse parse_one_key get_table_index str =
    let len = length str in
    parse_steps parse_one_key str len 0 0 (replicate (len + 1) new_parse_value) >>= λ steps.
    final_step get_table_index (len + 1) steps
