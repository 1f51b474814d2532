-- ===== src/PhoneticKeyMatrix/Steps.antt =====
-- src/storage/phonetic_key_matrix.cpp: the steps that add keys to a filled matrix.
use libpinyin.Common.{
  ℕ, zero, suc, ◌+◌, ◌*◌, ◌%◌, ◌^◌, Bool, true, false, not, ◌&&◌, Option, none, some, List, [], ◌∷◌,
  ◌==◌, if◌then◌else◌, ◌>>=◌, assert, length,
}
use libpinyin.Common.Words.{u16_mod}
use libpinyin.PinyinPhrase.{ChewingKey, same_key}
use libpinyin.PinyinParser.{ChewingKeyRest, is_set, get_table_index}
use libpinyin.PhoneticKeyMatrix.{PhoneticKeyMatrix, size, get_items, append}

-- divided_table_item_t, as far as the step reads it.
pub record DividedTableItem : Type 0 where
  pub orig_struct : ChewingKey
  pub first_new_key : List ℕ
  pub first_new_struct : ChewingKey
  pub second_new_struct : ChewingKey

-- The first item that has the key.
unfoldable pub find_divided : ChewingKey → List DividedTableItem → Option DividedTableItem
unfolding same_key
find_divided key [] = none
find_divided key (item ∷ items) =
    let rest = find_divided key items in if same_key key item.orig_struct then some item else rest

-- A found key is divided in two.
unfoldable pub divide :
    ℕ → ChewingKeyRest → DividedTableItem → PhoneticKeyMatrix → PhoneticKeyMatrix
unfolding append
divide index rest item matrix =
    let newindex = index + length item.first_new_key in
    let first =
      append index item.first_new_struct (record rest { raw_end = newindex % u16_mod }) matrix in
    let second =
      append newindex item.second_new_struct (record rest { raw_begin = newindex % u16_mod })
        first.1 in
    second.1

-- The loop over the keys of a column.
unfoldable pub divide_column :
    List DividedTableItem
    → ℕ
    → List ChewingKey
    → List ChewingKeyRest
    → PhoneticKeyMatrix
    → PhoneticKeyMatrix
unfolding find_divided divide
divide_column table index (key ∷ keys) (rest ∷ rests) matrix =
    divide_column table index keys rests
      (elim (find_divided key table) [ none ↦ matrix | some item ↦ divide index rest item matrix ])
divide_column table index _ _ matrix = matrix

-- The loop over the columns: `count` of them from index on.
unfoldable pub divide_columns :
    List DividedTableItem
    → ℕ
    → ℕ
    → List ChewingKeyRest
    → PhoneticKeyMatrix
    → Option PhoneticKeyMatrix
unfolding get_items divide_column
divide_columns table index zero rests matrix = some matrix
divide_columns table index (suc count) rests matrix = get_items index matrix rests >>= λ items.
    divide_columns table (suc index) count items.2
      (divide_column table index items.1 items.2 matrix)

abbrev pub use_divided_table : ℕ
use_divided_table = 128

unfoldable pub inner_split_step :
    List DividedTableItem → ℕ → PhoneticKeyMatrix → Option (Bool × PhoneticKeyMatrix)
unfolding size divide_columns
inner_split_step table options matrix =
    if is_set options use_divided_table
    then (size matrix >>= λ length.
        if length == 0
        then some (false, matrix)
        else (divide_columns table 0 length [] matrix >>= λ next. some (true, next)))
    else some (false, matrix)

-- A line of MATCH: the flag, and the numbers of a letter and of another that is taken for it.
pub record Ambiguity : Type 0 where
  pub flag : ℕ
  pub origin : ℕ
  pub another : ℕ

-- Both lines of two letters that are taken for each other.
abbrev pub both : ℕ → ℕ → ℕ → List Ambiguity → List Ambiguity
both flag a b rest =
    record { flag = flag; origin = a; another = b }
    ∷ record { flag = flag; origin = b; another = a }
    ∷ rest

abbrev pub ambiguous_initials : List Ambiguity
ambiguous_initials = both (2 ^ 10) 2 3 (
    both (2 ^ 12) 22 23 (
      both (2 ^ 11) 16 17
        (both (2 ^ 16) 12 13 (both (2 ^ 15) 12 11 (both (2 ^ 13) 5 6 (both (2 ^ 14) 7 8 []))))))

abbrev pub ambiguous_finals : List Ambiguity
ambiguous_finals = both (2 ^ 17) 3 4 (both (2 ^ 18) 9 10 (both (2 ^ 19) 16 17 []))

-- The lines for a key's initial: another initial is added if there is such a syllable.
unfoldable pub match_initial :
    List (Option ℕ)
    → ℕ
    → ℕ
    → ChewingKey
    → ChewingKeyRest
    → List Ambiguity
    → PhoneticKeyMatrix
    → Option PhoneticKeyMatrix
unfolding append get_table_index
match_initial table options index key rest [] matrix = some matrix
match_initial table options index key rest (line ∷ lines) matrix =
    (if is_set options line.flag && (line.origin == key.initial)
      then (get_table_index table (record key { initial = line.another }) >>= λ i.
          let added = append index (record key { initial = line.another }) rest matrix in
          some (if i == 0 then matrix else added.1))
      else some matrix)
    >>= λ next. match_initial table options index key rest lines next

unfoldable pub match_final :
    ℕ → ℕ → ChewingKey → ChewingKeyRest → List Ambiguity → PhoneticKeyMatrix → PhoneticKeyMatrix
unfolding append
match_final options index key rest [] matrix = matrix
match_final options index key rest (line ∷ lines) matrix =
    let added = append index (record key { final = line.another }) rest matrix in
    match_final options index key rest lines
      (if is_set options line.flag && (line.origin == key.final) then added.1 else matrix)

-- The two loops over the keys of a column.
unfoldable pub match_initials :
    List (Option ℕ)
    → ℕ
    → ℕ
    → List ChewingKey
    → List ChewingKeyRest
    → PhoneticKeyMatrix
    → Option PhoneticKeyMatrix
unfolding match_initial
match_initials table options index (key ∷ keys) (rest ∷ rests) matrix =
    match_initial table options index key rest ambiguous_initials matrix >>= λ next.
    match_initials table options index keys rests next
match_initials table options index _ _ matrix = some matrix

unfoldable pub match_finals :
    ℕ → ℕ → List ChewingKey → List ChewingKeyRest → PhoneticKeyMatrix → PhoneticKeyMatrix
unfolding match_final
match_finals options index (key ∷ keys) (rest ∷ rests) matrix =
    match_finals options index keys rests
      (match_final options index key rest ambiguous_finals matrix)
match_finals options index _ _ matrix = matrix

-- A column; `continue` on an empty one.
unfoldable pub fuzzy_column :
    List (Option ℕ)
    → ℕ
    → ℕ
    → List ChewingKeyRest
    → PhoneticKeyMatrix
    → Option (List ChewingKeyRest × PhoneticKeyMatrix)
unfolding get_items match_initials match_finals
fuzzy_column table options index rests matrix = get_items index matrix rests >>= λ items.
    if length items.1 == 0
    then some (items.2, matrix)
    else (match_initials table options index items.1 items.2 matrix >>= λ next.
        get_items index next items.2 >>= λ more. assert (not (length more.1 == 0)) >>= λ _.
        some (more.2, match_finals options index more.1 more.2 next))

unfoldable pub fuzzy_columns :
    List (Option ℕ) → ℕ → ℕ → ℕ → List ChewingKeyRest → PhoneticKeyMatrix → Option PhoneticKeyMatrix
unfolding fuzzy_column
fuzzy_columns table options index zero rests matrix = some matrix
fuzzy_columns table options index (suc count) rests matrix =
    fuzzy_column table options index rests matrix >>= λ next.
    fuzzy_columns table options (suc index) count next.0 next.1

unfoldable pub fuzzy_syllable_step :
    List (Option ℕ) → ℕ → PhoneticKeyMatrix → Option (Bool × PhoneticKeyMatrix)
unfolding size fuzzy_columns
fuzzy_syllable_step table options matrix =
    if is_set options (1023 * 2 ^ 10)
    then (size matrix >>= λ length.
        if length == 0
        then some (false, matrix)
        else (fuzzy_columns table options 0 length [] matrix >>= λ next. some (true, next)))
    else some (false, matrix)
