-- ===== src/PinyinParser.antt =====
-- src/storage/pinyin_parser2.cpp, src/storage/pinyin_parser2.h and src/storage/chewing_key.cpp: the
-- parsers that cut what was typed into syllables.
--
-- A string is the list of its characters, without the 0 that ends it. A gint16 is the number of its
-- 16 bits: a negative one is 2 ^ 15 or more. The generated tables are parameters.
pub mod Cover
pub mod Direct
pub mod Double
pub mod Greedy
pub mod DoubleKey
pub mod Full
pub mod Reading
pub mod Saving
pub mod Scan
pub mod Backtrace
pub mod Best
pub mod Longest
pub mod OneKey
pub mod Spelling
pub mod Search
pub mod Sorted
pub mod Pieces
pub mod Positions
pub mod Turns
pub mod Words
use libpinyin.Common.{
  ℕ, zero, suc, ◌+◌, ◌-◌, ◌*◌, ◌%◌, ◌^◌, bit_and, Bool, true, false, not, ◌&&◌, Option, none, some,
  List, [], ◌∷◌, ◌==◌, ltb, leb, if◌then◌else◌, ◌>>=◌, assert, length, get_elem?, take,
}
use libpinyin.Common.Words.{u16_mod}
use libpinyin.PinyinPhrase.{ChewingKey, new_chewing_key}

-- ChewingKeyRest: where a key stands in the input.
pub record ChewingKeyRest : Type 0 where
  pub raw_begin : ℕ
  pub raw_end : ℕ

-- Its constructor.
abbrev pub new_chewing_key_rest : ChewingKeyRest
new_chewing_key_rest = record { raw_begin = 0; raw_end = 0 }

abbrev pub apostrophe : ℕ
apostrophe = 39

-- strchr (input, '\'') of a found character.
unfoldable pub has_quote : List ℕ → Bool
has_quote [] = false
has_quote (c ∷ cs) = let rest = has_quote cs in if c == apostrophe then true else rest

-- The flags of pinyin_option_t.
abbrev pub is_pinyin : ℕ
is_pinyin = 2

abbrev pub pinyin_incomplete : ℕ
pinyin_incomplete = 8

abbrev pub use_tone : ℕ
use_tone = 32

abbrev pub force_tone : ℕ
force_tone = 64

-- PINYIN_CORRECT_ALL | PINYIN_AMB_ALL.
abbrev pub correct_or_amb : ℕ
correct_or_amb = 255 * 2 ^ 21 + 1023 * 2 ^ 10

abbrev pub is_set : ℕ → ℕ → Bool
is_set options flag = not (bit_and options flag == 0)

-- pinyin_index_item_t.
pub record PinyinIndexItem : Type 0 where
  pub pinyin_input : List ℕ
  pub flags : ℕ
  pub table_index : ℕ
  pub distance : ℕ

unfoldable pub check_pinyin_options : ℕ → PinyinIndexItem → Option Bool
check_pinyin_options options item = assert (is_set item.flags is_pinyin) >>= λ _.
    let flags = bit_and item.flags correct_or_amb in
    let chosen = bit_and options correct_or_amb in
    some (
      if is_set item.flags pinyin_incomplete && not (is_set options pinyin_incomplete)
      then false
      else bit_and flags chosen == flags)

-- ChewingKey::get_table_index, on the generated chewing_key_table, where `none` stands for -1.
unfoldable pub get_table_index : List (Option ℕ) → ChewingKey → Option ℕ
get_table_index table key =
    assert (ltb key.initial 24 && (ltb key.middle 4 && ltb key.final 18)) >>= λ _.
    get_elem? table ((key.initial * 4 + key.middle) * 18 + key.final) >>= λ index.
    some (elim index [ none ↦ 0 | some i ↦ i ])

-- 0 > strcmp (lhs, rhs).
unfoldable pub is_before : List ℕ → List ℕ → Bool
is_before [] [] = false
is_before [] (d ∷ ds) = true
is_before (c ∷ cs) [] = false
is_before (c ∷ cs) (d ∷ ds) =
    let rest = is_before cs ds in if ltb c d then true else if c == d then rest else false

unfoldable pub compare_pinyin_less_than : PinyinIndexItem → PinyinIndexItem → Bool
unfolding is_before
compare_pinyin_less_than lhs rhs = is_before lhs.pinyin_input rhs.pinyin_input

-- What the tables and std::equal_range give a search: `range index item` are the entries of `index`
-- from the first to the second end of the range.
pub record Tables : Type 0 where
  pub range : List PinyinIndexItem → PinyinIndexItem → List PinyinIndexItem
  pub content_table : List ChewingKey
  pub chewing_key_table : List (Option ℕ)

-- What parse_one_key answers: the key and its distance, or that there is none.
abbrev pub Parsed : Type 0
Parsed = Option (ChewingKey × ℕ)

-- What a search answers on the entry it found: `allowed` is what the options say of it.
unfoldable pub take_content : Tables → PinyinIndexItem → Bool → Option Parsed
unfolding get_table_index
take_content tables found false = some none
take_content tables found true = get_elem? tables.content_table found.table_index >>= λ key.
    get_table_index tables.chewing_key_table key >>= λ i.
    assert (i == found.table_index) >>= λ _. some (some (key, found.distance))

-- `key.m_tone = tone` on a key that was found.
unfoldable pub set_tone : ℕ → Parsed → Parsed
set_tone tone none = none
set_tone tone (some (key, distance)) = some (record key { tone = tone }, distance)

-- The tests on the range of the entries that have the name.
unfoldable pub take_range : Tables → ℕ → List PinyinIndexItem → Option Parsed
unfolding check_pinyin_options take_content
take_range tables options range =
    let range_len = length range % u16_mod in
    assert (leb range_len 1) >>= λ _.
    if range_len == 1
    then (get_elem? range 0 >>= λ found.
        check_pinyin_options options found >>= λ allowed. take_content tables found allowed)
    else some none

unfoldable pub search_pinyin_index2 : Tables → ℕ → List PinyinIndexItem → List ℕ → Option Parsed
unfolding take_range
search_pinyin_index2 tables options index pinyin = take_range tables options (
    tables.range index (record { pinyin_input = pinyin; flags = 0; table_index = 0; distance = 0 }))

-- The tone that the last character names, 0 if it names none.
unfoldable pub tone_of : ℕ → ℕ
tone_of chr = if ltb 48 chr && leb chr 53 then chr - 48 else 0

unfoldable pub parse_one_key : Tables → List PinyinIndexItem → ℕ → List ℕ → Option Parsed
unfolding has_quote tone_of search_pinyin_index2 set_tone
parse_one_key tables index options pinyin =
    let len = length pinyin in
    let parsed_len = len % u16_mod in
    assert (not (has_quote pinyin)) >>= λ _.
    if is_set options use_tone
    then (assert (ltb 0 parsed_len) >>= λ _. get_elem? pinyin (parsed_len - 1) >>= λ chr.
        let tone = tone_of chr in
        if is_set options force_tone && (tone == 0)
        then some none
        else if tone == 0
        then (search_pinyin_index2 tables options index (take parsed_len pinyin) >>= λ parsed.
            some (if parsed_len == len then parsed else none))
        else (search_pinyin_index2 tables options index (take (parsed_len - 1) pinyin) >>= λ parsed.
            some (if parsed_len == len then set_tone tone parsed else none)))
    else (search_pinyin_index2 tables options index (take parsed_len pinyin) >>= λ parsed.
        some (if parsed_len == len then parsed else none))
