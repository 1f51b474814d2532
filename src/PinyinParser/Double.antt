-- ===== src/PinyinParser/Double.antt =====
-- src/storage/pinyin_parser2.cpp: DoublePinyinParser2, which takes the longest key at each place.
-- The tables of a scheme and of the pinyins are parameters.
use libpinyin.Common.{
  ℕ, zero, suc, ◌+◌, ◌-◌, ◌*◌, ◌%◌, ◌^◌, min, bit_and, Bool, true, false, not, ◌&&◌, ◌||◌, Option,
  none, some, List, [], ◌∷◌, ◌++◌, ◌==◌, ltb, leb, if◌then◌else◌, ◌>>=◌, length, get_elem?, take,
  drop,
}
use libpinyin.Common.Words.{u16_mod}
use libpinyin.PinyinPhrase.{ChewingKey}
use libpinyin.PinyinParser.{
  ChewingKeyRest, PinyinIndexItem, Tables, search_pinyin_index2, is_set, tone_of, pinyin_incomplete,
  use_tone, force_tone,
}
use libpinyin.PinyinParser.Full.{Saved}

-- IS_KEY: a letter from a to z, or a semicolon.
abbrev pub is_key : ℕ → Bool
is_key ch = (leb 97 ch && leb ch 122) || (ch == 59)

abbrev pub char_id : ℕ → ℕ
char_id ch = if ch == 59 then 26 else ch - 97

-- What DoublePinyinParser2::set_scheme sets; `none` is NULL.
pub record Scheme : Type 0 where
  pub shengmu_table : List (Option (List ℕ))
  pub yunmu_table : List (Option (List ℕ) × Option (List ℕ))
  pub fallback_table : Option (List (List ℕ × List ℕ))

-- strcmp () == 0 on two strings.
unfoldable pub same_string : List ℕ → List ℕ → Bool
same_string [] [] = true
same_string [] (d ∷ ds) = false
same_string (c ∷ cs) [] = false
same_string (c ∷ cs) (d ∷ ds) = let rest = same_string cs ds in if c == d then rest else false

-- The key of a pinyin, from the index without regard to the distance.
unfoldable pub search_pinyin_index :
    Tables → List PinyinIndexItem → ℕ → List ℕ → Option (Option ChewingKey)
unfolding search_pinyin_index2
search_pinyin_index tables index options pinyin =
    search_pinyin_index2 tables options index pinyin >>= λ parsed.
    some (elim parsed [ none ↦ none | some (key, distance) ↦ some key ])

-- The options of which the flags are taken, and those to which they are added.
abbrev pub without_flags : ℕ → ℕ → ℕ
without_flags options flags = options - bit_and options flags

abbrev pub with_flags : ℕ → ℕ → ℕ
with_flags options flags = options - bit_and options flags + flags

-- The last item of the fallback table for the input.
unfoldable pub find_fallback : List (List ℕ × List ℕ) → List ℕ → Option (List ℕ) → Option (List ℕ)
unfolding same_string
find_fallback [] input yunmu = yunmu
find_fallback ((from, to) ∷ items) input yunmu =
    find_fallback items input (if same_string from input then some to else yunmu)

-- `key.m_tone = tone` on a key that was found.
unfoldable pub with_double_tone : ℕ → Option ChewingKey → Option ChewingKey
with_double_tone tone none = none
with_double_tone tone (some key) = some (record key { tone = tone })

module _ (tables : Tables) (index : List PinyinIndexItem) (scheme : Scheme) where
  -- NULL is no name.
  unfoldable pub search_optional : ℕ → Option (List ℕ) → Option (Option ChewingKey)
  unfolding search_pinyin_index
  search_optional options none = some none
  search_optional options (some name) = search_pinyin_index tables index options name

  unfoldable pub search_initial : ℕ → Option (List ℕ) → Option (Option ChewingKey)
  unfolding search_optional same_string
  search_initial options none = some none
  search_initial options (some name) =
      search_optional options (if same_string name (39 ∷ []) then none else some name)

  -- The lone initial that a character stands for.
  unfoldable pub parse_initial : ℕ → ℕ → Option (Option ChewingKey)
  unfolding search_initial
  parse_initial options ch =
      if is_set options pinyin_incomplete && is_key ch
      then (get_elem? scheme.shengmu_table (char_id ch) >>= λ sheng. search_initial options sheng)
      else some none

  -- From the label `fallback` on: the table may be NULL.
  unfoldable pub parse_fallback :
      ℕ → List ℕ → Option (List (List ℕ × List ℕ)) → Option (Option ChewingKey)
  unfolding search_optional find_fallback
  parse_fallback options str none = some none
  parse_fallback options str (some items) =
      search_optional options (find_fallback items (take 2 str) none)

  -- The second final, if the first made no key.
  unfoldable pub parse_second_final :
      ℕ → List ℕ → Option (List ℕ) → Option ChewingKey → Option (Option ChewingKey)
  unfolding search_pinyin_index
  parse_second_final options sheng second (some key) = some (some key)
  parse_second_final options sheng none none = some none
  parse_second_final options sheng (some yun) none =
      search_pinyin_index tables index options (sheng ++ yun)

  -- The two finals that a character stands for, behind an initial.
  unfoldable pub parse_finals :
      ℕ → List ℕ → Option (List ℕ) × Option (List ℕ) → Option (Option ChewingKey)
  unfolding search_pinyin_index parse_second_final
  parse_finals options sheng (none, second) = some none
  parse_finals options sheng (some first, second) =
      search_pinyin_index tables index options (sheng ++ first) >>= λ answer.
      parse_second_final options sheng second answer

  -- The fallback, if the finals made no key.
  unfoldable pub or_fallback : ℕ → List ℕ → Option ChewingKey → Option (Option ChewingKey)
  unfolding parse_fallback
  or_fallback options str (some key) = some (some key)
  or_fallback options str none = parse_fallback options str scheme.fallback_table

  -- The finals behind the initial of the first character, which may be NULL.
  unfoldable pub parse_yunmu : ℕ → List ℕ → ℕ → Option (List ℕ) → Option (Option ChewingKey)
  unfolding parse_fallback parse_finals or_fallback same_string
  parse_yunmu options str second none = parse_fallback options str scheme.fallback_table
  parse_yunmu options str second (some name) =
      if is_key second
      then (get_elem? scheme.yunmu_table (char_id second) >>= λ yunmus.
          parse_finals options (if same_string name (39 ∷ []) then [] else name) yunmus
          >>= λ answer. or_fallback options str answer)
      else some none

  -- The initial and the final of two characters.
  unfoldable pub parse_two : ℕ → List ℕ → ℕ → ℕ → Option (Option ChewingKey)
  unfolding parse_yunmu
  parse_two options str first second =
      if is_key first
      then (get_elem? scheme.shengmu_table (char_id first) >>= λ sheng.
          parse_yunmu options str second sheng)
      else some none

  -- DoublePinyinParser2::parse_one_key. PINYIN_CORRECT_ALL and PINYIN_AMB_ALL are taken away, and for
  -- two characters or three the two flags for incomplete keys, where the corrections of ue and v are
  -- added.
  unfoldable pub parse_double_key : ℕ → List ℕ → Option (Option ChewingKey)
  unfolding parse_initial parse_two tone_of with_double_tone
  parse_double_key options str =
      let plain = without_flags options (255 * 2 ^ 21 + 1023 * 2 ^ 10) in
      let full = with_flags (without_flags plain (8 + 16)) (2 ^ 26 + 2 ^ 27) in
      if is_set plain force_tone && not (length str == 3) then some none else elim str [
        | ch ∷ [] ↦ parse_initial plain ch
        | first ∷ second ∷ [] ↦ parse_two full (first ∷ second ∷ []) first second >>= λ answer.
            some (with_double_tone 0 answer)
        | first ∷ second ∷ third ∷ [] ↦
            if is_set full use_tone && not (tone_of third == 0)
            then (parse_two full (first ∷ second ∷ third ∷ []) first second >>= λ answer.
                some (with_double_tone (tone_of third) answer))
            else some none
        | _ ↦ some none
      ]

-- The length of the longest beginning of letters, semicolons and tones.
unfoldable pub probe : List ℕ → ℕ
probe [] = 0
probe (ch ∷ str) =
    let rest = probe str in if is_key ch || (ltb 48 ch && leb ch 53) then suc rest else 0

module _ (parse_one_key : List ℕ → Option (Option ChewingKey)) where
  -- The loop over shorter and shorter pieces: the length of the first that is a key.
  unfoldable pub try_lengths : List ℕ → ℕ → Option (Option (ChewingKey × ℕ))
  try_lengths str zero = some none
  try_lengths str (suc n) = parse_one_key (take (suc n) str) >>= λ answer. elim answer [
    | some key ↦ some (some (key, suc n))
    | none ↦ try_lengths str n
  ]

  -- The loop over the input from parsed_len on, on fuel: what is left of the input shrinks.
  unfoldable pub parse_doubles : ℕ → List ℕ → ℕ → ℕ → Option (ℕ × Saved)
  unfolding try_lengths
  parse_doubles zero input maximum_len parsed_len =
      if ltb parsed_len maximum_len then none else some (parsed_len, ([], []))
  parse_doubles (suc fuel) input maximum_len parsed_len =
      if ltb parsed_len maximum_len
      then (try_lengths (drop parsed_len input) (min (maximum_len - parsed_len) 3) >>= λ found.
          elim found [
            | none ↦ some (parsed_len, ([], []))
            | some (key, n) ↦ parse_doubles fuel input maximum_len (parsed_len + n) >>= λ rest.
                let place : ChewingKeyRest = record {
                  raw_begin = parsed_len % u16_mod;
                  raw_end = (parsed_len + n) % u16_mod;
                } in
                some (rest.0, (key ∷ rest.1.0, place ∷ rest.1.1))
          ])
      else some (parsed_len, ([], []))

-- DoublePinyinParser2::parse, on a parse_one_key.
unfoldable pub parse_double : (List ℕ → Option (Option ChewingKey)) → List ℕ → Option (ℕ × Saved)
unfolding probe parse_doubles
parse_double parse_one_key str =
    let maximum_len = probe str in parse_doubles parse_one_key maximum_len str maximum_len 0
