-- ===== src/PhoneticKeyMatrix.antt =====
-- src/storage/phonetic_key_matrix.h and src/storage/phonetic_key_matrix.cpp: the columns of keys
-- over the positions of the input, and the steps that fill them and add to them.

pub mod Entries
pub mod Filled
pub mod Tiles
pub mod Laid
pub mod Walks
pub mod Parsed
pub mod Growth
pub mod Halves
pub mod Halved
pub mod Rows
pub mod Divide
pub mod Fuzzy
pub mod Ambiguous
pub mod Search
pub mod Steps
use libpinyin.Common.{
  ℕ, zero, suc, ◌+◌, ◌-◌, ◌*◌, ◌%◌, ◌^◌, bit_and, Bool, true, false, not, ◌&&◌, Option, none, some,
  List, [], ◌∷◌, ◌++◌, ◌==◌, ltb, leb, if◌then◌else◌, ◌>>=◌, assert, length, get_elem?, replicate,
}
use libpinyin.Common.Words.{u16_mod}
use libpinyin.PinyinPhrase.{ChewingKey, new_chewing_key, same_key}
use libpinyin.PinyinParser.{ChewingKeyRest, is_set, get_table_index}

-- PhoneticTable<Item>: an array of columns.
abbrev pub PhoneticTable {ℓ} : Type ℓ → Type ℓ
PhoneticTable A = List (List A)

module _ {ℓ} {A : Type ℓ} where
  -- PhoneticTable::append.
  unfoldable pub append_item : ℕ → A → PhoneticTable A → Bool × PhoneticTable A
  append_item index item [] = (false, [])
  append_item zero item (column ∷ columns) = (true, (column ++ (item ∷ [])) ∷ columns)
  append_item (suc index) item (column ∷ columns) =
      let rest = append_item index item columns in (rest.0, column ∷ rest.1)

  -- PhoneticTable::get_items, where an index out of range leaves the array empty.
  unfoldable pub get_column : ℕ → PhoneticTable A → Bool × List A
  get_column index table = elim (get_elem? table index) [
    | none ↦ (false, [])
    | some column ↦ (true, column)
  ]

pub record PhoneticKeyMatrix : Type 0 where
  pub keys : PhoneticTable ChewingKey
  pub key_rests : PhoneticTable ChewingKeyRest

unfoldable pub size : PhoneticKeyMatrix → Option ℕ
size matrix =
    assert (length matrix.keys == length matrix.key_rests) >>= λ _. some (length matrix.keys)

-- set_size.
unfoldable pub set_size : ℕ → PhoneticKeyMatrix
set_size size = record { keys = replicate size []; key_rests = replicate size [] }

-- What get_items puts into the two arrays, when its assertion holds: the places stay what they were
-- when there is no such column of keys.
unfoldable pub get_items :
    ℕ
    → PhoneticKeyMatrix
    → List ChewingKeyRest
    → Option (Bool × List ChewingKey × List ChewingKeyRest)
unfolding get_column
get_items index matrix key_rests =
    let keys = get_column index matrix.keys in
    let rests = get_column index matrix.key_rests in
    let found = if keys.0 then rests.1 else key_rests in
    assert (length keys.1 == length found) >>= λ _. some (keys.0 && rests.0, keys.1, found)

-- append, which does not come to the places when there is no such column of keys.
unfoldable pub append :
    ℕ → ChewingKey → ChewingKeyRest → PhoneticKeyMatrix → Bool × PhoneticKeyMatrix
unfolding append_item
append index key rest matrix =
    let keys = append_item index key matrix.keys in
    let rests = append_item index rest matrix.key_rests in
    if keys.0
    then (rests.0, record { keys = keys.1; key_rests = rests.1 })
    else (false, record matrix { keys = keys.1 })

unfoldable pub get_column_size : ℕ → PhoneticKeyMatrix → Option ℕ
get_column_size index matrix = get_elem? matrix.keys index >>= λ keys.
    get_elem? matrix.key_rests index >>= λ rests.
    assert (length keys == length rests) >>= λ _. some (length keys)

unfoldable pub get_item : ℕ → ℕ → PhoneticKeyMatrix → Option (ChewingKey × ChewingKeyRest)
get_item index row matrix = get_elem? matrix.keys index >>= λ keys. get_elem? keys row >>= λ key.
    get_elem? matrix.key_rests index >>= λ rests. get_elem? rests row >>= λ rest. some (key, rest)

-- The loop over the keys of fill_matrix.
unfoldable pub fill_keys :
    List ChewingKey → List ChewingKeyRest → PhoneticKeyMatrix → PhoneticKeyMatrix
unfolding append
fill_keys (key ∷ keys) (rest ∷ rests) matrix =
    let next = append rest.raw_begin key rest matrix in fill_keys keys rests next.1
fill_keys _ _ matrix = matrix

-- Zero keys at `count` positions from `fill` on.
unfoldable pub fill_gap : ℕ → ℕ → PhoneticKeyMatrix → PhoneticKeyMatrix
unfolding append
fill_gap fill zero matrix = matrix
fill_gap fill (suc count) matrix =
    let place : ChewingKeyRest = record {
      raw_begin = fill % u16_mod;
      raw_end = (fill + 1) % u16_mod;
    } in
    let next = append fill new_chewing_key place matrix in fill_gap (suc fill) count next.1

-- The loop over the places and those behind them.
unfoldable pub fill_gaps : List ChewingKeyRest → PhoneticKeyMatrix → PhoneticKeyMatrix
unfolding fill_gap
fill_gaps [] matrix = matrix
fill_gaps (rest ∷ []) matrix = matrix
fill_gaps (rest ∷ next ∷ rests) matrix =
    fill_gaps (next ∷ rests) (fill_gap rest.raw_end (next.raw_begin - rest.raw_end) matrix)

unfoldable pub fill_matrix :
    List ChewingKey → List ChewingKeyRest → ℕ → Option (Bool × PhoneticKeyMatrix)
unfolding set_size fill_keys append fill_gaps
fill_matrix keys rests parsed_len =
    let last : ChewingKeyRest = record {
      raw_begin = parsed_len % u16_mod;
      raw_end = (parsed_len + 1) % u16_mod;
    } in
    let filled = fill_keys keys rests (set_size (parsed_len + 1)) in
    let ended = append parsed_len new_chewing_key last filled in
    assert (length keys == length rests) >>= λ _.
    if length keys == 0
    then some (false, record { keys = []; key_rests = [] })
    else some (true, fill_gaps (rests ++ (last ∷ [])) ended.1)
