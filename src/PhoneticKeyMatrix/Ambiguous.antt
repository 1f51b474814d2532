-- ===== src/PhoneticKeyMatrix/Ambiguous.antt =====
-- The columns in turn, in fuzzy_syllable_step of src/storage/phonetic_key_matrix.cpp.
use libpinyin.Common.{
  ℕ, zero, suc, ◌+◌, ◌*◌, ◌^◌, ◌≤◌, ◌<◌, ◌≡◌, refl, inl, inr, Bool, true, false, not, Bool-cases,
  Option, some, List, [], ◌==◌, length, arith,
}
use libpinyin.PinyinParser.{ChewingKeyRest, is_set}
use libpinyin.PhoneticKeyMatrix.{PhoneticKeyMatrix}
use libpinyin.PhoneticKeyMatrix.Steps.{
  match_finals, fuzzy_column, fuzzy_columns, fuzzy_syllable_step,
}
use libpinyin.PhoneticKeyMatrix.Growth.{
  IsAligned, Grows-refl, get_items_lem, size_lem, Extends-length, Extends-column,
}
use libpinyin.PhoneticKeyMatrix.Fuzzy.{
  AllColumns, Fuzzed, Fuzzed-trans, get_column-AllValid, match_initials-Fuzzed, match_finals-Fuzzed,
}

module _ (table : List (Option ℕ)) (full : length table ≡ 1728) (options : ℕ) where
  fuzzy_column-Fuzzed :
      (index : ℕ) (old : List ChewingKeyRest) (m : PhoneticKeyMatrix)
      → IsAligned m
      → AllColumns m.keys
      → index < length m.keys
      → (rests : List ChewingKeyRest) × (next : PhoneticKeyMatrix) × (fuzzy_column table options
            index old m
          ≡ some (rests, next))
        × Fuzzed m next
  unfolding fuzzy_column
  fuzzy_column-Fuzzed index old m a v h =
      let (ks, rs, e, c) = get_items_lem index m old a h in
      elim (Bool-cases (length ks == 0)) [
        | inl z ↦ (rs, m, rw (e, z) refl, record { grows = Grows-refl m a; valid = v })
        | inr z ↦
            let (mid, f, g) =
              match_initials-Fuzzed table full options index ks rs m a v
                (get_column-AllValid index m.keys ks v c) in
            let grows = g.grows in
            let size_is = Extends-length m.keys mid.keys grows.keys in
            let (ks', rs', e', c') = get_items_lem index mid rs grows.aligned (omega arith) in
            let longer = Extends-column index m.keys mid.keys ks ks' grows.keys c c' in
            let n : not (length ks' == 0) ≡ true = ground arith in
            let last =
              match_finals-Fuzzed table full options index ks' rs' mid grows.aligned g.valid
                (get_column-AllValid index mid.keys ks' g.valid c') in
            (
              rs',
              match_finals options index ks' rs' mid,
              rw (e, z, f, e', n) refl,
              Fuzzed-trans g last,
            )
      ]

  fuzzy_columns-Fuzzed :
      (count index : ℕ) (old : List ChewingKeyRest) (m : PhoneticKeyMatrix)
      → IsAligned m
      → AllColumns m.keys
      → index + count ≤ length m.keys
      → (next : PhoneticKeyMatrix) × (fuzzy_columns table options index count old m ≡ some next)
        × Fuzzed m next
  unfolding fuzzy_columns
  fuzzy_columns-Fuzzed zero index old m a v h =
      (m, refl, record { grows = Grows-refl m a; valid = v })
  fuzzy_columns-Fuzzed (suc count) index old m a v h =
      let (rs, mid, e, f) = fuzzy_column-Fuzzed index old m a v (omega arith) in
      let grows = f.grows in
      let size_is = Extends-length m.keys mid.keys grows.keys in
      let (next, g, k) =
        fuzzy_columns-Fuzzed count (suc index) rs mid grows.aligned f.valid (omega arith) in
      (next, rw e g, Fuzzed-trans f k)

  -- fuzzy_syllable_step answers on every matrix whose columns of keys and places are equally long and
  -- whose keys are of initials, middles and finals that there are, on the table of all such keys. The
  -- new matrix is of this kind too, and its columns begin with the old ones.
  pub fuzzy_syllable_step-Fuzzed :
      (m : PhoneticKeyMatrix)
      → IsAligned m
      → AllColumns m.keys
      → (done : Bool) × (next : PhoneticKeyMatrix) × (fuzzy_syllable_step table options m
          ≡ some (done, next))
        × Fuzzed m next
  unfolding fuzzy_syllable_step
  fuzzy_syllable_step-Fuzzed m a v = elim (Bool-cases (is_set options (1023 * 2 ^ 10))) [
    | inr p ↦ (false, m, rw p refl, record { grows = Grows-refl m a; valid = v })
    | inl p ↦ elim (Bool-cases (length m.keys == 0)) [
      | inl z ↦
          (false, m, rw (p, size_lem m a, z) refl, record { grows = Grows-refl m a; valid = v })
      | inr z ↦
          let (next, e, g) = fuzzy_columns-Fuzzed (length m.keys) 0 [] m a v (omega arith) in
          (true, next, rw (p, size_lem m a, z, e) refl, g)
    ]
  ]
