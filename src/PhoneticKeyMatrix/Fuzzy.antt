-- ===== src/PhoneticKeyMatrix/Fuzzy.antt =====
-- fuzzy_syllable_step of src/storage/phonetic_key_matrix.cpp: what its appends keep.
use libpinyin.Common.{
  ℕ, zero, suc, ◌+◌, ◌*◌, ◌<◌, ◌≡◌, refl, sym, ap, inl, inr, true, Bool-cases, ◌&&◌, Option, some,
  List, [], ◌∷◌, ◌++◌, ◌==◌, lt→ltb, length, get_elem?_lt, arith,
}
use libpinyin.PinyinPhrase.{ChewingKey}
use libpinyin.PinyinParser.{ChewingKeyRest, is_set, get_table_index}
use libpinyin.PhoneticKeyMatrix.{PhoneticTable, PhoneticKeyMatrix, append_item, append, get_column}
use libpinyin.PhoneticKeyMatrix.Steps.{
  Ambiguity, ambiguous_initials, ambiguous_finals, match_initial, match_final, match_initials,
  match_finals,
}
use libpinyin.PhoneticKeyMatrix.Growth.{IsAligned, Grows, Grows-refl, Grows-trans, append-Grows}

-- The parts of a key that its enums have.
abbrev pub IsValid : ChewingKey → Type 0
IsValid key = (key.initial < 24) × (key.middle < 4) × (key.final < 18)

abbrev pub AllValid : List ChewingKey → Type 0
AllValid [] = Unit {0}
AllValid (k ∷ ks) = IsValid k × AllValid ks

abbrev pub AllColumns : PhoneticTable ChewingKey → Type 0
AllColumns [] = Unit {0}
AllColumns (c ∷ cs) = AllValid c × AllColumns cs

AllValid-snoc :
    (ks : List ChewingKey) (k : ChewingKey) → AllValid ks → IsValid k → AllValid (ks ++ (k ∷ []))
AllValid-snoc [] k a v = (v, tt)
AllValid-snoc (x ∷ xs) k a v = (a.0, AllValid-snoc xs k a.1 v)

append_item-AllColumns :
    (index : ℕ) (key : ChewingKey) (t : PhoneticTable ChewingKey)
    → AllColumns t
    → IsValid key
    → AllColumns (append_item index key t).1
unfolding append_item
append_item-AllColumns index key [] a v = tt
append_item-AllColumns zero key (c ∷ cs) a v = (AllValid-snoc c key a.0 v, a.1)
append_item-AllColumns (suc index) key (c ∷ cs) a v =
    (a.0, append_item-AllColumns index key cs a.1 v)

pub get_column-AllValid :
    (index : ℕ) (t : PhoneticTable ChewingKey) (c : List ChewingKey)
    → AllColumns t
    → get_column index t ≡ (true, c)
    → AllValid c
unfolding get_column
get_column-AllValid index [] c a e = absurd cc
get_column-AllValid zero (x ∷ xs) c a e = let c_is : x ≡ c = ap (λ z. z.1) e in rw (sym c_is) a.0
get_column-AllValid (suc index) (x ∷ xs) c a e = get_column-AllValid index xs c a.1 e

-- The generated table has an entry for each of the 24 * 4 * 18 keys.
get_table_index-answers :
    (table : List (Option ℕ)) (key : ChewingKey)
    → length table ≡ 1728
    → IsValid key
    → (i : ℕ) × (get_table_index table key ≡ some i)
unfolding get_table_index
get_table_index-answers table key n (a, b, c) =
    let (x, e) =
      get_elem?_lt table ((key.initial * 4 + key.middle) * 18 + key.final) (omega arith) in
    let p = lt→ltb key.initial 24 a in
    let q = lt→ltb key.middle 4 b in let r = lt→ltb key.final 18 c in rw (p, q, r, e) (_, refl)

-- A matrix that came of another by appends of valid keys.
pub record Fuzzed (matrix next : PhoneticKeyMatrix) : Type 0 where
  pub grows : Grows matrix next
  pub valid : AllColumns next.keys

pub Fuzzed-trans : {a b c : PhoneticKeyMatrix} → Fuzzed a b → Fuzzed b c → Fuzzed a c
Fuzzed-trans f g = record { grows = Grows-trans f.grows g.grows; valid = g.valid }

append-Fuzzed :
    (index : ℕ) (key : ChewingKey) (rest : ChewingKeyRest) (m : PhoneticKeyMatrix)
    → IsAligned m
    → AllColumns m.keys
    → IsValid key
    → Fuzzed m (append index key rest m).1
unfolding append
append-Fuzzed index key rest m a v k = record {
  grows = append-Grows index key rest m a;
  valid = keys_valid;
}
  where
    keys_are : (append index key rest m).1.keys ≡ (append_item index key m.keys).1
    keys_are = elim (Bool-cases (append_item index key m.keys).0) [
      | inl p ↦ rw p refl
      | inr p ↦ rw p refl
    ]

    keys_valid : AllColumns (append index key rest m).1.keys
    keys_valid = rw keys_are (append_item-AllColumns index key m.keys v k)

-- The other letters are initials, or finals.
abbrev AllInitials : List Ambiguity → Type 0
AllInitials [] = Unit {0}
AllInitials (x ∷ xs) = (x.another < 24) × AllInitials xs

abbrev AllFinals : List Ambiguity → Type 0
AllFinals [] = Unit {0}
AllFinals (x ∷ xs) = (x.another < 18) × AllFinals xs

module _ (table : List (Option ℕ)) (full : length table ≡ 1728) (options index : ℕ) where
  match_initial-Fuzzed :
      (key : ChewingKey) (rest : ChewingKeyRest) (lines : List Ambiguity) (m : PhoneticKeyMatrix)
      → IsAligned m
      → AllColumns m.keys
      → IsValid key
      → AllInitials lines
      → (next : PhoneticKeyMatrix) × (match_initial table options index key rest lines m
          ≡ some next)
        × Fuzzed m next
  unfolding match_initial
  match_initial-Fuzzed key rest [] m a v k l =
      (m, refl, record { grows = Grows-refl m a; valid = v })
  match_initial-Fuzzed key rest (x ∷ xs) m a v k (p, l) =
      let new : ChewingKey = record key { initial = x.another } in
      let (i, e) = get_table_index-answers table new full (p, k.1, k.2) in
      let added = append-Fuzzed index new rest m a v (p, k.1, k.2) in
      elim (Bool-cases (is_set options x.flag && (x.origin == key.initial))) [
        | inr c ↦ rw c (match_initial-Fuzzed key rest xs m a v k l)
        | inl c ↦ elim (Bool-cases (i == 0)) [
          | inl z ↦ rw (c, e, z) (match_initial-Fuzzed key rest xs m a v k l)
          | inr z ↦
              let grows = added.grows in
              let (next, f, g) =
                match_initial-Fuzzed key rest xs (append index new rest m).1 grows.aligned
                  added.valid k l in
              (next, rw (c, e, z) f, Fuzzed-trans added g)
        ]
      ]

  match_final-Fuzzed :
      (key : ChewingKey) (rest : ChewingKeyRest) (lines : List Ambiguity) (m : PhoneticKeyMatrix)
      → IsAligned m
      → AllColumns m.keys
      → IsValid key
      → AllFinals lines
      → Fuzzed m (match_final options index key rest lines m)
  unfolding match_final
  match_final-Fuzzed key rest [] m a v k l = record { grows = Grows-refl m a; valid = v }
  match_final-Fuzzed key rest (x ∷ xs) m a v k (p, l) =
      let new : ChewingKey = record key { final = x.another } in
      let added = append-Fuzzed index new rest m a v (k.0, k.1, p) in
      let grows = added.grows in
      elim (Bool-cases (is_set options x.flag && (x.origin == key.final))) [
        | inr c ↦ rw c (match_final-Fuzzed key rest xs m a v k l)
        | inl c ↦ rw c (
            Fuzzed-trans added (
              match_final-Fuzzed key rest xs (append index new rest m).1 grows.aligned added.valid k
                l))
      ]

  pub match_initials-Fuzzed :
      (keys : List ChewingKey) (rests : List ChewingKeyRest) (m : PhoneticKeyMatrix)
      → IsAligned m
      → AllColumns m.keys
      → AllValid keys
      → (next : PhoneticKeyMatrix) × (match_initials table options index keys rests m ≡ some next)
        × Fuzzed m next
  unfolding match_initials
  match_initials-Fuzzed [] rests m a v k = (m, refl, record { grows = Grows-refl m a; valid = v })
  match_initials-Fuzzed (x ∷ xs) [] m a v k =
      (m, refl, record { grows = Grows-refl m a; valid = v })
  match_initials-Fuzzed (x ∷ xs) (r ∷ rs) m a v k =
      let (mid, e, f) = match_initial-Fuzzed x r ambiguous_initials m a v k.0 (omega arith) in
      let grows = f.grows in
      let (next, g, h) = match_initials-Fuzzed xs rs mid grows.aligned f.valid k.1 in
      (next, rw e g, Fuzzed-trans f h)

  pub match_finals-Fuzzed :
      (keys : List ChewingKey) (rests : List ChewingKeyRest) (m : PhoneticKeyMatrix)
      → IsAligned m
      → AllColumns m.keys
      → AllValid keys
      → Fuzzed m (match_finals options index keys rests m)
  unfolding match_finals
  match_finals-Fuzzed [] rests m a v k = record { grows = Grows-refl m a; valid = v }
  match_finals-Fuzzed (x ∷ xs) [] m a v k = record { grows = Grows-refl m a; valid = v }
  match_finals-Fuzzed (x ∷ xs) (r ∷ rs) m a v k =
      let f = match_final-Fuzzed x r ambiguous_finals m a v k.0 (omega arith) in
      let grows = f.grows in
      Fuzzed-trans f (
        match_finals-Fuzzed xs rs (match_final options index x r ambiguous_finals m) grows.aligned
          f.valid k.1)
