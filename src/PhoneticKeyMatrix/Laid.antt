-- ===== src/PhoneticKeyMatrix/Laid.antt =====
-- What fill_matrix of src/storage/phonetic_key_matrix.cpp leaves for a parse.
use libpinyin.Common.{
  ℕ, suc, ◌-◌, ◌≤◌, ◌<◌, ◌≡◌, refl, ◌∙◌, true, false, some, List, [], ◌∷◌, ◌++◌, ◌==◌, map, length,
  get_elem?, arith,
}
use libpinyin.PinyinPhrase.{ChewingKey}
use libpinyin.PinyinParser.{ChewingKeyRest}
use libpinyin.PinyinParser.Cover.{Covers}
use libpinyin.PhoneticKeyMatrix.{PhoneticKeyMatrix, fill_matrix}
use libpinyin.PhoneticKeyMatrix.Entries.{Entry, column_of, column_of-append}
use libpinyin.PhoneticKeyMatrix.Filled.{key_entries, gaps_entries, zero_entry, fill_matrix-Holds}
use libpinyin.PhoneticKeyMatrix.Tiles.{Tile, vacant, filled, columns, tile, keys_above, gaps_above}

-- The columns up to `l` hold a key each or nothing; a key ends in the next column that holds one, and
-- the last column holds a zero key.
pub record IsLaid (matrix : PhoneticKeyMatrix) (l : ℕ) : Type 0 where
  pub content : ℕ → List Entry
  pub keys_size : length matrix.keys ≡ suc l
  pub rests_size : length matrix.key_rests ≡ suc l
  pub keys_at : (j : ℕ) → j ≤ l → get_elem? matrix.keys j ≡ some (map (λ e. e.key) (content j))
  pub rests_at :
      (j : ℕ) → j ≤ l → get_elem? matrix.key_rests j ≡ some (map (λ e. e.rest) (content j))
  pub tiles : (j : ℕ) → j < l → Tile content l j
  pub last : content l ≡ zero_entry l ∷ []

-- fill_matrix on a parse.
pub fill_matrix-IsLaid :
    (input : List ℕ) (l : ℕ) (ks : List ChewingKey) (r : ChewingKeyRest) (rs : List ChewingKeyRest)
    → Covers input 0 (r ∷ rs) l
    → length ks ≡ suc (length rs)
    → l < 65535
    → (matrix : PhoneticKeyMatrix) × (fill_matrix ks (r ∷ rs) l ≡ some (true, matrix))
      × IsLaid matrix l
fill_matrix-IsLaid input l ks r rs c n small =
    let (m, e, h) = fill_matrix-Holds input l ks r rs c n small in
    (
      m,
      e,
      record {
        content = λ j.
            column_of j (key_entries ks (r ∷ rs) ++ (zero_entry l ∷ gaps_entries r.raw_end rs l));
        keys_size = h.keys_size;
        rests_size = h.rests_size;
        keys_at = λ j i. h.keys_at j (omega arith);
        rests_at = λ j i. h.rests_at j (omega arith);
        tiles = λ j i. transport_tile j i (tile input r.raw_begin l ks (r ∷ rs) j from_first (n) i);
        last = last_column;
      },
    )
  where
    all : ℕ → List Entry
    all j = column_of j (key_entries ks (r ∷ rs) ++ (zero_entry l ∷ gaps_entries r.raw_end rs l))

    last_column : all l ≡ zero_entry l ∷ []
    last_column =
        let p : (l == l) ≡ true = ground arith in
        column_of-append l (key_entries ks (r ∷ rs)) (zero_entry l ∷ gaps_entries r.raw_end rs l)
        ∙ rw (p, keys_above input 0 l ks (r ∷ rs) c, gaps_above input r.raw_end l rs c.4) refl

    from_first : Covers input r.raw_begin (r ∷ rs) l
    from_first = (omega arith, λ i p q. absurd (omega arith), c.2, c.3, c.4)

    same : (j : ℕ) → j < l → all j ≡ columns input r.raw_begin ks (r ∷ rs) l j
    same j h =
        let n : (l == j) ≡ false = ground arith in
        let z : r.raw_begin - r.raw_begin ≡ 0 = omega arith in
        column_of-append j (key_entries ks (r ∷ rs)) (zero_entry l ∷ gaps_entries r.raw_end rs l)
        ∙ rw (n, z) refl

    transport_tile :
        (j : ℕ) → j < l → Tile (columns input r.raw_begin ks (r ∷ rs) l) l j → Tile all l j
    transport_tile j h (vacant e) = vacant (same j h ∙ e)
    transport_tile j h (filled e f g i next) =
        filled e (same j h ∙ f) g i (λ m. let (x, y) = next m in (x, same e.rest.raw_end m ∙ y))
