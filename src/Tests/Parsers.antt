-- ===== src/Tests/Parsers.antt =====
-- src/storage/pinyin_parser2.cpp and src/storage/phonetic_key_matrix.cpp on a table of four
-- pinyins.
use libpinyin.Common.{
  ℕ, ◌^◌, ◌≤◌, ◌≡◌, ◌↔◌, refl, Bool, true, Option, none, some, List, [], ◌∷◌, length,
  length-replicate, replicate, arith,
}
use libpinyin.PinyinPhrase.{ChewingKey, new_chewing_key}
use libpinyin.PinyinParser.{
  ChewingKeyRest, PinyinIndexItem, Tables, parse_one_key, get_table_index, compare_pinyin_less_than,
  is_before, has_quote,
}
use libpinyin.PinyinParser.Reading.{IsPiece}
use libpinyin.PinyinParser.Sorted.{IsTables, equivalents}
use libpinyin.PinyinParser.OneKey.{IsSpelled}
use libpinyin.PinyinParser.Spelling.{parse_one_key_iff}
use libpinyin.PinyinParser.Best.{IsBest}
use libpinyin.PinyinParser.Cover.{Covers, full_parse, full_parse-IsBest, full_parse-Covers}
use libpinyin.PinyinParser.Double.{Scheme, parse_double, parse_double_key}
use libpinyin.PinyinParser.Direct.{parse_direct, parse_direct-IsRead}
use libpinyin.PinyinParser.Words.{IsRead}
use libpinyin.PhoneticKeyMatrix.{PhoneticKeyMatrix, fill_matrix, append, set_size}
use libpinyin.PhoneticKeyMatrix.Search.{search_matrix}
use libpinyin.PhoneticKeyMatrix.Steps.{DividedTableItem, inner_split_step, fuzzy_syllable_step}
use libpinyin.PhoneticKeyMatrix.Growth.{IsAligned}
use libpinyin.PhoneticKeyMatrix.Entries.{Entry, Holds, append-Holds, set_size-Holds}
use libpinyin.PhoneticKeyMatrix.Fuzzy.{Fuzzed}
use libpinyin.PhoneticKeyMatrix.Laid.{IsLaid}
use libpinyin.PhoneticKeyMatrix.Parsed.{fill_matrix-full_parse, search_matrix-full_parse}
use libpinyin.PhoneticKeyMatrix.Divide.{IsDivided, inner_split_step-IsDivided}
use libpinyin.PhoneticKeyMatrix.Ambiguous.{fuzzy_syllable_step-Fuzzed}

-- A key that is a final alone.
abbrev final_key : ℕ → ChewingKey
final_key n = record new_chewing_key { final = n }

abbrev item : List ℕ → ℕ → ℕ → PinyinIndexItem
item name i distance = record {
  pinyin_input = name;
  flags = 2;
  table_index = i;
  distance = distance;
}

-- a, ai, an and ang.
abbrev vowels : List PinyinIndexItem
vowels =
    item (97 ∷ []) 1 0
    ∷ item (97 ∷ 105 ∷ []) 2 0
    ∷ item (97 ∷ 110 ∷ []) 3 0
    ∷ item (97 ∷ 110 ∷ 103 ∷ []) 4 0
    ∷ []

abbrev tables : Tables
tables = record {
  range = λ xs x. equivalents x xs;
  content_table = new_chewing_key ∷ final_key 1 ∷ final_key 2 ∷ final_key 3 ∷ final_key 4 ∷ [];
  chewing_key_table = none ∷ some 1 ∷ some 2 ∷ some 3 ∷ some 4 ∷ [];
}

tables-IsTables : IsTables tables vowels
unfolding compare_pinyin_less_than is_before get_table_index
tables-IsTables = record {
  sorted = ((refl, (refl, (refl, tt))), ((refl, (refl, tt)), ((refl, tt), (tt, tt))));
  entries = (
    record {
      for_pinyin = refl;
      key = final_key 1;
      content = refl;
      index = refl;
      positive = omega arith;
      near = omega arith;
    },
    (
      record {
        for_pinyin = refl;
        key = final_key 2;
        content = refl;
        index = refl;
        positive = omega arith;
        near = omega arith;
      },
      (
        record {
          for_pinyin = refl;
          key = final_key 3;
          content = refl;
          index = refl;
          positive = omega arith;
          near = omega arith;
        },
        (
          record {
            for_pinyin = refl;
            key = final_key 4;
            content = refl;
            index = refl;
            positive = omega arith;
            near = omega arith;
          },
          tt,
        ),
      ),
    ),
  );
  equal_range = λ xs x s. refl;
  nothing = refl;
}

-- anga'an with the tones in use.
abbrev typed : List ℕ
typed = 97 ∷ 110 ∷ 103 ∷ 97 ∷ 39 ∷ 97 ∷ 110 ∷ []

abbrev typed_keys : List ChewingKey
typed_keys = final_key 4 ∷ final_key 1 ∷ final_key 3 ∷ []

abbrev first_place : ChewingKeyRest
first_place = record { raw_begin = 0; raw_end = 3 }

abbrev other_places : List ChewingKeyRest
other_places = record { raw_begin = 3; raw_end = 4 } ∷ record { raw_begin = 5; raw_end = 7 } ∷ []

typed_parse : full_parse tables vowels 32 typed ≡ some (7, (typed_keys, first_place ∷ other_places))
unfolding full_parse equivalents
typed_parse = refl

full_parse-IsBest_example :
    (l : ℕ) × (ks : List ChewingKey) × (rs : List ChewingKeyRest) × (full_parse tables vowels 32
        typed
      ≡ some (l, (ks, rs)))
    × IsBest (parse_one_key tables vowels 32) typed l ks rs
full_parse-IsBest_example = full_parse-IsBest tables vowels 32 tables-IsTables typed (omega arith)

full_parse-Covers_example :
    (l : ℕ) × (ks : List ChewingKey) × (rs : List ChewingKeyRest) × (full_parse tables vowels 32
        typed
      ≡ some (l, (ks, rs)))
    × (l ≤ length typed)
    × (length ks ≡ length rs)
    × Covers typed 0 rs l
full_parse-Covers_example = full_parse-Covers tables vowels 32 tables-IsTables typed (omega arith)

-- an with the third tone.
abbrev toned : List ℕ
toned = 97 ∷ 110 ∷ 51 ∷ []

toned-IsPiece : IsPiece toned
unfolding has_quote
toned-IsPiece = record { nonempty = omega arith; up_to_7 = omega arith; no_quote = refl }

parse_one_key_iff_example :
    (parse_one_key tables vowels 32 toned ≡ some (some (record (final_key 3) { tone = 3 }, 0)))
    ↔ IsSpelled tables vowels 32 toned (record (final_key 3) { tone = 3 }) 0
parse_one_key_iff_example =
    parse_one_key_iff tables vowels 32 tables-IsTables toned (record (final_key 3) { tone = 3 }) 0
      toned-IsPiece

fill_matrix-full_parse_example :
    (matrix : PhoneticKeyMatrix) × (fill_matrix typed_keys (first_place ∷ other_places) 7
      ≡ some (true, matrix))
    × IsLaid matrix 7
fill_matrix-full_parse_example =
    fill_matrix-full_parse tables vowels 32 tables-IsTables typed (omega arith) 7 typed_keys
      first_place other_places typed_parse

abbrev place : ℕ → ℕ → ChewingKeyRest
place a b = record { raw_begin = a; raw_end = b }

abbrev typed_matrix : PhoneticKeyMatrix
typed_matrix = record {
  keys =
      (final_key 4 ∷ [])
      ∷ []
      ∷ []
      ∷ (final_key 1 ∷ [])
      ∷ (new_chewing_key ∷ [])
      ∷ (final_key 3 ∷ [])
      ∷ []
      ∷ (new_chewing_key ∷ [])
      ∷ [];
  key_rests =
      (place 0 3 ∷ [])
      ∷ []
      ∷ []
      ∷ (place 3 4 ∷ [])
      ∷ (place 4 5 ∷ [])
      ∷ (place 5 7 ∷ [])
      ∷ []
      ∷ (place 7 8 ∷ [])
      ∷ [];
}

typed_matrix-filled :
    fill_matrix typed_keys (first_place ∷ other_places) 7 ≡ some (true, typed_matrix)
unfolding fill_matrix
typed_matrix-filled = refl

typed_matrix-IsAligned : IsAligned typed_matrix
typed_matrix-IsAligned = omega arith

-- A table that notes what it is asked for.
abbrev noted : List ChewingKey → List (List ChewingKey) → ℕ × List (List ChewingKey)
noted keys found = (1, keys ∷ found)

search_matrix-run : search_matrix noted typed_matrix 0 7 [] ≡ some (1, typed_keys ∷ [])
unfolding search_matrix
search_matrix-run = refl

search_matrix-full_parse_example :
    (answer : ℕ × List (List ChewingKey)) × (search_matrix noted typed_matrix 0 7 [] ≡ some answer)
search_matrix-full_parse_example =
    search_matrix-full_parse tables vowels 32 tables-IsTables typed (omega arith) 7 typed_keys
      first_place other_places typed_parse noted typed_matrix 0 7 [] typed_matrix-filled
      (omega arith) (omega arith)

-- The syllable ang is divided into a and ng.
abbrev divided : List DividedTableItem
divided =
    record {
      orig_struct = final_key 4;
      first_new_key = 97 ∷ [];
      first_new_struct = final_key 1;
      second_new_struct = final_key 12;
    }
    ∷ []

-- A matrix of four columns in which ang stands at the beginning.
abbrev ang : Entry
ang = record { index = 0; key = final_key 4; rest = place 0 3 }

abbrev ang_matrix : PhoneticKeyMatrix
ang_matrix = record {
  keys = (final_key 4 ∷ []) ∷ [] ∷ [] ∷ [] ∷ [];
  key_rests = (place 0 3 ∷ []) ∷ [] ∷ [] ∷ [] ∷ [];
}

ang_matrix-Holds : Holds ang_matrix 4 (ang ∷ [])
unfolding append set_size
ang_matrix-Holds = append-Holds (set_size 4) 4 [] ang (set_size-Holds 4) (omega arith)

inner_split_step-IsDivided_example :
    (next : PhoneticKeyMatrix) × (new : List Entry) × (inner_split_step divided 128 ang_matrix
      ≡ some (true, next))
    × Holds next 4 (ang ∷ new)
    × IsDivided divided 4 (ang ∷ []) new
inner_split_step-IsDivided_example =
    inner_split_step-IsDivided divided 128 4 (ang ∷ []) ang_matrix (omega arith) refl (omega arith)
      ang_matrix-Holds

-- The halves of ang.
inner_split_step-run :
    inner_split_step divided 128 ang_matrix
    ≡ some (
      true,
      record {
        keys = (final_key 4 ∷ final_key 1 ∷ []) ∷ (final_key 12 ∷ []) ∷ [] ∷ [] ∷ [];
        key_rests = (place 0 3 ∷ place 0 1 ∷ []) ∷ (place 1 3 ∷ []) ∷ [] ∷ [] ∷ [];
      },
    )
unfolding inner_split_step
inner_split_step-run = refl

abbrev whole_table : List (Option ℕ)
whole_table = replicate 1728 none

fuzzy_syllable_step-Fuzzed_example :
    (done : Bool) × (next : PhoneticKeyMatrix) × (fuzzy_syllable_step whole_table
        (2 ^ 17)
        typed_matrix
      ≡ some (done, next))
    × Fuzzed typed_matrix next
fuzzy_syllable_step-Fuzzed_example =
    fuzzy_syllable_step-Fuzzed whole_table (length-replicate {A = Option ℕ} 1728 none) (2 ^ 17)
      typed_matrix typed_matrix-IsAligned (omega arith)

-- A scheme in which a stands for no initial and for the final a, and b for none and for an.
abbrev letters : Scheme
letters = record {
  shengmu_table = replicate 27 (some (39 ∷ []));
  yunmu_table = (some (97 ∷ []), none) ∷ replicate 26 (some (97 ∷ 110 ∷ []), none);
  fallback_table = none;
}

parse_double-run :
    parse_double (parse_double_key tables vowels letters 0) (97 ∷ 97 ∷ 97 ∷ 98 ∷ 97 ∷ [])
    ≡ some (4, (final_key 1 ∷ final_key 3 ∷ [], place 0 2 ∷ place 2 4 ∷ []))
unfolding parse_double parse_double_key equivalents
parse_double-run = refl

parse_direct-IsRead_example :
    (l : ℕ) × (ks : List ChewingKey) × (rs : List ChewingKeyRest) × (parse_direct tables vowels 32
        (97 ∷ 110 ∷ 32 ∷ 32 ∷ 97 ∷ 51 ∷ [])
      ≡ some (l, (ks, rs)))
    × IsRead (parse_one_key tables vowels 32) 0 (97 ∷ 110 ∷ 32 ∷ 32 ∷ 97 ∷ 51 ∷ []) ks rs l
parse_direct-IsRead_example =
    parse_direct-IsRead tables vowels 32 tables-IsTables (97 ∷ 110 ∷ 32 ∷ 32 ∷ 97 ∷ 51 ∷ [])
      (omega arith) (omega arith)

-- An apostrophe in front of the first word, with the tones in use.
parse_direct-run : parse_direct tables vowels 32 (39 ∷ 97 ∷ []) ≡ none
unfolding parse_direct
parse_direct-run = refl

-- The column of an apostrophe in front of the first key stays empty.
leading_parse :
    full_parse tables vowels 32 (39 ∷ 97 ∷ []) ≡ some (2, (final_key 1 ∷ [], place 1 2 ∷ []))
unfolding full_parse equivalents
leading_parse = refl

leading_column :
    fill_matrix (final_key 1 ∷ []) (place 1 2 ∷ []) 2
    ≡ some (
      true,
      record {
        keys = [] ∷ (final_key 1 ∷ []) ∷ (new_chewing_key ∷ []) ∷ [];
        key_rests = [] ∷ (place 1 2 ∷ []) ∷ (place 2 3 ∷ []) ∷ [];
      },
    )
unfolding fill_matrix
leading_column = refl
