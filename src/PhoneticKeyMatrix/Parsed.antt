-- ===== src/PhoneticKeyMatrix/Parsed.antt =====
-- From the parse of src/storage/pinyin_parser2.cpp to the searches of
-- src/storage/phonetic_key_matrix.cpp.
use libpinyin.Common.{ℕ, ◌≤◌, ◌<◌, ◌≡◌, subst, true, some, List, ◌∷◌, length, arith}
use libpinyin.PinyinPhrase.{ChewingKey}
use libpinyin.PinyinParser.{ChewingKeyRest, Tables, PinyinIndexItem}
use libpinyin.PinyinParser.Sorted.{IsTables}
use libpinyin.PinyinParser.Cover.{Covers, full_parse, full_parse-Covers}
use libpinyin.PhoneticKeyMatrix.{PhoneticKeyMatrix, fill_matrix}
use libpinyin.PhoneticKeyMatrix.Search.{search_matrix}
use libpinyin.PhoneticKeyMatrix.Laid.{IsLaid, fill_matrix-IsLaid}
use libpinyin.PhoneticKeyMatrix.Walks.{search_matrix-answers}

module _ (tables : Tables) (index : List PinyinIndexItem) (options : ℕ)
    (law : IsTables tables index) (input : List ℕ) (small : length input < 32768) (l : ℕ)
    (ks : List ChewingKey) (r : ChewingKeyRest) (rs : List ChewingKeyRest)
    (parsed : full_parse tables index options input ≡ some (l, (ks, r ∷ rs))) where
  -- fill_matrix answers true on what FullPinyinParser2::parse answered with at least one key, and
  -- leaves a column for each parsed position and one more. A column holds one key or nothing, a key
  -- ends in a later column that holds one, and the last column holds a zero key. The tables are well
  -- formed, and the input is shorter than 2 ^ 15.
  pub fill_matrix-full_parse :
      (matrix : PhoneticKeyMatrix) × (fill_matrix ks (r ∷ rs) l ≡ some (true, matrix))
      × IsLaid matrix l
  fill_matrix-full_parse =
      let (l', ks', rs', e, inside, n, c) =
        full_parse-Covers tables index options law input small in
      let l_is : l' ≡ l = cc in
      let ks_is : ks' ≡ ks = cc in
      let rs_is : rs' ≡ (r ∷ rs) = cc in
      let covers =
        subst (λ x. Covers input 0 x l) rs_is (subst (λ x. Covers input 0 rs' x) l_is c) in
      let count : length ks ≡ length (r ∷ rs) =
        subst (λ x. length x ≡ length (r ∷ rs)) ks_is
          (subst (λ x. length ks' ≡ length x) rs_is n) in
      fill_matrix-IsLaid input l ks r rs covers count (omega arith)

  -- search_matrix fails no assertion and ends, between any two positions of the matrix that
  -- fill_matrix makes of what FullPinyinParser2::parse answered with at least one key. The tables are
  -- well formed, and the input is shorter than 2 ^ 15.
  pub search_matrix-full_parse :
      {Ranges : Type 0} (search : List ChewingKey → Ranges → ℕ × Ranges)
      (matrix : PhoneticKeyMatrix) (start end : ℕ) (ranges : Ranges)
      → fill_matrix ks (r ∷ rs) l ≡ some (true, matrix)
      → start ≤ l
      → end ≤ l
      → (answer : ℕ × Ranges) × (search_matrix search matrix start end ranges ≡ some answer)
  search_matrix-full_parse search matrix start end ranges filled h k =
      let (m, e, laid) = fill_matrix-full_parse in
      let m_is : m ≡ matrix = cc in
      search_matrix-answers search matrix l end (subst (λ x. IsLaid x l) m_is laid) k start ranges h
