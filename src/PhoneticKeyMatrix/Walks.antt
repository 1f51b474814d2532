-- ===== src/PhoneticKeyMatrix/Walks.antt =====
-- search_matrix of src/storage/phonetic_key_matrix.cpp answers on a filled matrix.
use libpinyin.Common.{
  ℕ, zero, suc, ◌+◌, ◌-◌, ◌≤◌, ◌<◌, ◌≡◌, refl, sym, ap, ◌∙◌, ◌⊎◌, inl, inr, true, false, Bool-cases,
  Option, none, some, List, [], ◌∷◌, ◌++◌, ◌==◌, ltb, max, length, arith,
}
use libpinyin.PinyinPhrase.{ChewingKey, new_chewing_key, same_key}
use libpinyin.PhoneticKeyMatrix.{PhoneticKeyMatrix, size, get_column_size, get_item}
use libpinyin.PhoneticKeyMatrix.Search.{
  Found, search_at_end, search_rows, search_matrix_recur, search_matrix,
}
use libpinyin.PhoneticKeyMatrix.Entries.{Entry}
use libpinyin.PhoneticKeyMatrix.Filled.{zero_entry}
use libpinyin.PhoneticKeyMatrix.Tiles.{Tile, vacant, filled}
use libpinyin.PhoneticKeyMatrix.Laid.{IsLaid}

module _ {Ranges : Type 0} (search : List ChewingKey → Ranges → ℕ × Ranges) where
  -- The search answers at its end, and goes on in front of it.
  at_end :
      (cached_keys : List ChewingKey) (start end : ℕ) (found : Found search)
      → end ≤ start
      → (r : ℕ × Found search) × (search_at_end search cached_keys start end found ≡ some r)
  unfolding search_at_end
  at_end cached_keys start end found h = elim (Bool-cases (ltb end start)) [
    | inl p ↦ rw p (_, refl)
    | inr p ↦
        let e : (start == end) ≡ true = ground arith in
        elim (Bool-cases (ltb 16 (length cached_keys))) [
          | inl q ↦ rw (p, e, q) (_, refl)
          | inr q ↦ elim (Bool-cases (0 == length cached_keys)) [
            | inl z ↦ rw (p, e, q, z) (_, refl)
            | inr z ↦ rw (p, e, q, z) (_, refl)
          ]
        ]
  ]

  before_end :
      (cached_keys : List ChewingKey) (start end : ℕ) (found : Found search)
      → start < end
      → search_at_end search cached_keys start end found ≡ none
  unfolding search_at_end
  before_end cached_keys start end found h =
      let p : ltb end start ≡ false = ground arith in
      let e : (start == end) ≡ false = ground arith in rw (p, e) refl

  module _ (matrix : PhoneticKeyMatrix) (l end : ℕ) (laid : IsLaid matrix l)
      (inside : end ≤ l) where
    -- A column with one key.
    one_row :
        (recur : List ChewingKey → ℕ → Found search → Option (ℕ × Found search)) (start : ℕ)
        (e : Entry) (cached_keys : List ChewingKey) (found : Found search)
        → start ≤ l
        → laid.content start ≡ e ∷ []
        → ((keys : List ChewingKey) (f : Found search)
            → (r : ℕ × Found search) × (recur keys e.rest.raw_end f ≡ some r))
        → (r : ℕ × Found search) × (search_rows search recur matrix start 1 cached_keys 1 0 0 found
            ≡ some r)
    unfolding search_rows get_item
    one_row recur start e cached_keys found h c answers =
        let keys = laid.keys_at start h in
        let rests = laid.rests_at start h in
        elim (Bool-cases (same_key new_chewing_key e.key)) [
          | inl z ↦ let (r, f) = answers cached_keys found in (r, rw (keys, rests, c, z) f)
          | inr z ↦
              let (r, f) =
                answers (cached_keys ++ (e.key ∷ [])) (found.0, max found.1 e.rest.raw_end) in
              rw (keys, rests, c, z, f) (_, refl)
        ]

    -- The column that a search comes to holds a key.
    abbrev IsOn : ℕ → Type 0
    IsOn start = start ≤ end → (e : Entry) × (laid.content start ≡ e ∷ [])

    last-IsOn : (j : ℕ) → j ≡ l → (e : Entry) × (laid.content j ≡ e ∷ [])
    last-IsOn j p = (zero_entry l, ap laid.content p ∙ laid.last)

    -- The key that a search goes along ends where a search answers.
    next-IsOn :
        (start : ℕ) (e : Entry)
        → start < end
        → laid.content start ≡ e ∷ []
        → (start < e.rest.raw_end) × IsOn e.rest.raw_end
    next-IsOn start e h c = go (laid.tiles start (omega arith))
      where
        go : Tile laid.content l start → (start < e.rest.raw_end) × IsOn e.rest.raw_end
        go (vacant v) = absurd cc
        go (filled x f g i next) =
            let x_is : x ≡ e = cc in
            let end_is : x.rest.raw_end ≡ e.rest.raw_end = ap (λ y. y.rest.raw_end) x_is in
            (
              omega arith,
              λ k. elim (Bool-cases (e.rest.raw_end == l)) [
                | inl p ↦ last-IsOn e.rest.raw_end (ground arith)
                | inr p ↦ let (y, m) = next (ground arith) in (y, ap laid.content (sym end_is) ∙ m)
              ],
            )

    column_size :
        (start : ℕ) (e : Entry)
        → start ≤ l
        → laid.content start ≡ e ∷ []
        → get_column_size start matrix ≡ some 1
    unfolding get_column_size
    column_size start e h c =
        let keys = laid.keys_at start h in
        let rests = laid.rests_at start h in rw (keys, rests, c) refl

    empty_size :
        (start : ℕ) → start ≤ l → laid.content start ≡ [] → get_column_size start matrix ≡ some 0
    unfolding get_column_size
    empty_size start h c =
        let keys = laid.keys_at start h in
        let rests = laid.rests_at start h in rw (keys, rests, c) refl

    search_step :
        (fuel start : ℕ) (cached_keys : List ChewingKey) (found : Found search) (e : Entry)
        → start < end
        → laid.content start ≡ e ∷ []
        → search_matrix_recur search (suc fuel) matrix end cached_keys start found
          ≡ search_rows search
              (search_matrix_recur search fuel matrix end)
              matrix
              start
              1
              cached_keys
              1
              0
              0
              found
    unfolding search_matrix_recur
    search_step fuel start cached_keys found e h c =
        let go_on = before_end cached_keys start end found h in
        let size_is = column_size start e (omega arith) c in
        rw (search_matrix_recur, go_on, size_is) refl

    search_recur-answers :
        (fuel start : ℕ) (cached_keys : List ChewingKey) (found : Found search)
        → end ≤ start + fuel
        → IsOn start
        → (r : ℕ × Found search) × (search_matrix_recur search fuel matrix end cached_keys start
              found
            ≡ some r)
    unfolding search_matrix_recur get_column_size
    search_recur-answers zero start cached_keys found h on =
        at_end cached_keys start end found (omega arith)
    search_recur-answers (suc fuel) start cached_keys found h on =
        elim (Bool-cases (ltb start end)) [
          | inr p ↦
              let (r, e) = at_end cached_keys start end found (ground arith) in
              (r, rw (search_matrix_recur, e) refl)
          | inl p ↦
              let early : start < end = ground arith in
              let (e, c) = on (omega arith) in
              let (forward, next) = next-IsOn start e early c in
              let (r, m) =
                one_row (search_matrix_recur search fuel matrix end) start e cached_keys found
                  (omega arith) c
                  (λ ks f. search_recur-answers fuel e.rest.raw_end ks f (omega arith) next) in
              (r, search_step fuel start cached_keys found e early c ∙ m)
        ]

    -- search_matrix answers.
    pub search_matrix-answers :
        (start : ℕ) (ranges : Ranges)
        → start ≤ l
        → (r : ℕ × Ranges) × (search_matrix search matrix start end ranges ≡ some r)
    unfolding search_matrix size
    search_matrix-answers start ranges h =
        let keys_size = laid.keys_size in
        let rests_size = laid.rests_size in
        let size_is : (length matrix.keys == length matrix.key_rests) ≡ true = ground arith in
        let within : ltb end (length matrix.keys) ≡ true = ground arith in
        go size_is within (column start h) (column end inside)
      where
        column : (j : ℕ) → j ≤ l → (laid.content j ≡ []) ⊎ ((e : Entry) × (laid.content j ≡ e ∷ []))
        column j k = elim (Bool-cases (j == l)) [
          | inl p ↦ inr (last-IsOn j (ground arith))
          | inr p ↦ elim (laid.tiles j (ground arith)) [
            | vacant v ↦ inl v
            | filled e c _ _ _ ↦ inr (e, c)
          ]
        ]

        go :
            (length matrix.keys == length matrix.key_rests) ≡ true
            → ltb end (length matrix.keys) ≡ true
            → (laid.content start ≡ []) ⊎ ((e : Entry) × (laid.content start ≡ e ∷ []))
            → (laid.content end ≡ []) ⊎ ((e : Entry) × (laid.content end ≡ e ∷ []))
            → (r : ℕ × Ranges) × (search_matrix search matrix start end ranges ≡ some r)
        go s w (inl a) b = let e = empty_size start h a in rw (s, w, e) (_, refl)
        go s w (inr (x, a)) (inl b) =
            let e = column_size start x h a in
            let f = empty_size end inside b in rw (s, w, e, f) (_, refl)
        go s w (inr (x, a)) (inr (y, b)) =
            let e = column_size start x h a in
            let f = column_size end y inside b in
            let (r, g) =
              search_recur-answers (end - start) start [] (ranges, 0) (omega arith) (λ _. (x, a)) in
            rw (s, w, e, f, g) (_, refl)
