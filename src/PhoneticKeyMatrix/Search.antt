-- ===== src/PhoneticKeyMatrix/Search.antt =====
-- src/storage/phonetic_key_matrix.cpp: search_matrix, which looks up the keys of every way through
-- the columns. The table that is searched, a FacadeChewingTable2, is a parameter: its search takes
-- the keys and the ranges to add to, and answers its flags and the ranges.
use libpinyin.Common.{
  ℕ, zero, suc, ◌-◌, bit_or, max, Option, none, some, List, [], ◌∷◌, ◌++◌, ◌==◌, ltb, if◌then◌else◌,
  ◌>>=◌, assert, length,
}
use libpinyin.PinyinPhrase.{ChewingKey, new_chewing_key, same_key}
use libpinyin.PhoneticKeyMatrix.{PhoneticKeyMatrix, size, get_column_size, get_item}

abbrev pub search_none : ℕ
search_none = 0

abbrev pub search_continued : ℕ
search_continued = 2

abbrev pub max_phrase_length : ℕ
max_phrase_length = 16

module _ {Ranges : Type 0} (search : List ChewingKey → Ranges → ℕ × Ranges) where
  -- The ranges and `longest`.
  abbrev pub Found : Type 0
  Found = Ranges × ℕ

  -- What is answered at the end or behind it; `none` before the end.
  unfoldable pub search_at_end : List ChewingKey → ℕ → ℕ → Found → Option (ℕ × Found)
  search_at_end cached_keys start end found =
      let answer = search cached_keys found.0 in
      if ltb end start
      then some (search_none, found)
      else if start == end
      then if ltb max_phrase_length (length cached_keys)
        then some (search_none, found)
        else if 0 == length cached_keys
        then some (search_continued, found)
        else some (answer.0, (answer.1, found.1))
      else none

  -- The loop over the keys of a column, `count` of them from i on; `recur` searches from the end of
  -- a key.
  unfoldable pub search_rows :
      (List ChewingKey → ℕ → Found → Option (ℕ × Found))
      → PhoneticKeyMatrix
      → ℕ
      → ℕ
      → List ChewingKey
      → ℕ
      → ℕ
      → ℕ
      → Found
      → Option (ℕ × Found)
  unfolding get_item same_key
  search_rows recur matrix start size cached_keys zero i result found = some (result, found)
  search_rows recur matrix start size cached_keys (suc count) i result found =
      get_item start i matrix >>= λ item.
      if same_key new_chewing_key item.0
      then (assert (1 == size) >>= λ _. recur cached_keys item.1.raw_end found)
      else (recur (cached_keys ++ (item.0 ∷ [])) item.1.raw_end
            (found.0, max found.1 item.1.raw_end)
          >>= λ next.
              search_rows recur matrix start size cached_keys count (suc i) (bit_or result next.0)
                next.1)

  -- On fuel: a key ends behind its beginning, so the distance to the end is enough.
  unfoldable pub search_matrix_recur :
      ℕ → PhoneticKeyMatrix → ℕ → List ChewingKey → ℕ → Found → Option (ℕ × Found)
  unfolding search_at_end search_rows get_column_size
  search_matrix_recur zero matrix end cached_keys start found =
      search_at_end cached_keys start end found
  search_matrix_recur (suc fuel) matrix end cached_keys start found =
      elim (search_at_end cached_keys start end found) [
        | some answer ↦ some answer
        | none ↦ get_column_size start matrix >>= λ size. assert (ltb 0 size) >>= λ _.
            search_rows (search_matrix_recur fuel matrix end) matrix start size cached_keys size 0
              search_none found
      ]

  unfoldable pub search_matrix : PhoneticKeyMatrix → ℕ → ℕ → Ranges → Option (ℕ × Ranges)
  unfolding size get_column_size search_matrix_recur
  search_matrix matrix start end ranges = size matrix >>= λ columns.
      assert (ltb end columns) >>= λ _. get_column_size start matrix >>= λ start_len.
      if 0 == start_len
      then some (search_none, ranges)
      else (get_column_size end matrix >>= λ end_len.
          if 0 == end_len
          then some (search_continued, ranges)
          else (search_matrix_recur (end - start) matrix end [] start (ranges, 0) >>= λ answer.
              some (
                if ltb end answer.1.1 then bit_or answer.0 search_continued else answer.0,
                answer.1.0,
              )))
