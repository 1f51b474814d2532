-- ===== src/PinyinParser/Backtrace.antt =====
-- What the way back through the steps saves, in src/storage/pinyin_parser2.cpp.
use libpinyin.Common.{
  ℕ, zero, suc, ◌+◌, ◌-◌, ◌≤◌, ◌<◌, ◌≡◌, refl, sym, ap, ap₂, ◌∙◌, true, false, ◌==◌, Option, some,
  List, [], ◌∷◌, ◌++◌, append_assoc, length, length-append, get_elem?, take, drop, arith, set_at,
}
use libpinyin.PinyinPhrase.{ChewingKey, new_chewing_key}
use libpinyin.PinyinParser.{Parsed, ChewingKeyRest}
use libpinyin.PinyinParser.Full.{ParseValue, new_parse_value, backtrace, save_step, is_quote_at}
use libpinyin.PinyinParser.Reading.{Reading, start, quote, word, IsWord, IsPiece, IsWord-IsPiece}
use libpinyin.PinyinParser.Saving.{word_value, quote_value}
use libpinyin.PinyinParser.Scan.{untouched, by_quote, by_word, IsScanned}

drop-set_at {ℓ} :
    {A : Type ℓ} (xs : List A) (i : ℕ) (a : A)
    → i < length xs
    → (ys : List A) × (set_at xs i a ≡ some ys)
      × (drop i ys ≡ a ∷ drop (i + 1) xs)
      × (length ys ≡ length xs)
drop-set_at [] i a h = absurd (omega arith)
drop-set_at (x ∷ xs) zero a h = (a ∷ xs, refl, refl, refl)
drop-set_at (x ∷ xs) (suc i) a h =
    let (ys, e, f, g) = drop-set_at xs i a (omega arith) in
    let next : suc i + 1 ≡ suc (i + 1) = omega arith in (x ∷ ys, rw e refl, rw next f, ap suc g)

-- The zero key has the index 0, and a key that is found has another.
pub record IsIndexed (parse_one_key : List ℕ → Option Parsed)
    (get_table_index : ChewingKey → Option ℕ) : Type 0 where
  pub nothing : get_table_index new_chewing_key ≡ some 0
  pub found :
      (piece : List ℕ) (key : ChewingKey) (distance : ℕ)
      → IsPiece piece
      → parse_one_key piece ≡ some (some (key, distance))
      → (i : ℕ) × (get_table_index key ≡ some (suc i))

module _ (parse_one_key : List ℕ → Option Parsed) (get_table_index : ChewingKey → Option ℕ)
    (input : List ℕ) (law : IsIndexed parse_one_key get_table_index) (small : length input < 32768)
    (steps : List ParseValue) (scanned : IsScanned parse_one_key input (length input) 0 steps) where
  -- What the way back from the step `v` at `j` saves: the keys of a reading that ends there.
  pub record IsSaved (fuel j : ℕ) (v : ParseValue) (keys : List ChewingKey)
      (rests : List ChewingKeyRest) : Type 0 where
    pub begin : ℕ
    pub ks : List ChewingKey
    pub rs : List ChewingKeyRest
    pub reading : Reading parse_one_key input begin j ks rs v.distance
    pub length_is : begin + v.parsed_len ≡ j
    pub count_is : length ks ≡ v.num_keys
    pub saved :
        backtrace get_table_index fuel steps v (keys, rests)
        ≡ some (ks ++ drop v.num_keys keys, rs ++ drop v.num_keys rests)

  backtrace-by_quote :
      (fuel b : ℕ) (u : ParseValue) (keys : List ChewingKey) (rests : List ChewingKeyRest)
      → b < 65535
      → get_elem? steps b ≡ some u
      → backtrace get_table_index (suc fuel) steps (quote_value u b) (keys, rests)
        ≡ backtrace get_table_index fuel steps u (keys, rests)
  unfolding backtrace
  backtrace-by_quote fuel b u keys rests h e =
      let n : (b == 65535) ≡ false = ground arith in rw (n, law.nothing, e) refl

  backtrace-by_word :
      (fuel b n d : ℕ) (key : ChewingKey) (u : ParseValue) (keys keys' : List ChewingKey)
      (rests rests' : List ChewingKeyRest)
      → b < 65535
      → IsWord parse_one_key input b n key d
      → get_elem? steps b ≡ some u
      → set_at keys u.num_keys key ≡ some keys'
      → set_at rests u.num_keys (record { raw_begin = b; raw_end = b + n }) ≡ some rests'
      → backtrace get_table_index (suc fuel) steps (word_value u b n key d) (keys, rests)
        ≡ backtrace get_table_index fuel steps u (keys', rests')
  unfolding backtrace save_step
  backtrace-by_word fuel b n d key u keys keys' rests rests' h w e f g =
      let m : (b == 65535) ≡ false = ground arith in
      let (i, k) =
        law.found (take n (drop b input)) key d (IsWord-IsPiece parse_one_key input b n key d w)
          w.parsed in
      let l : u.num_keys + 1 - 1 ≡ u.num_keys = omega arith in
      let z : (suc i == 0) ≡ false = ground arith in rw (m, k, z, l, f, g, e) refl

  from_untouched :
      (fuel j : ℕ) (v : ParseValue) (keys : List ChewingKey) (rests : List ChewingKeyRest)
      → v ≡ new_parse_value
      → IsSaved fuel j v keys rests
  unfolding backtrace
  from_untouched zero j v keys rests e = rw e (record {
    begin = j;
    ks = [];
    rs = [];
    reading = start;
    length_is = omega arith;
    count_is = refl;
    saved = refl;
  })
  from_untouched (suc fuel) j v keys rests e = rw e (record {
    begin = j;
    ks = [];
    rs = [];
    reading = start;
    length_is = omega arith;
    count_is = refl;
    saved = refl;
  })

  from_quote :
      (fuel b : ℕ) (u : ParseValue) (keys : List ChewingKey) (rests : List ChewingKeyRest)
      → b < 65535
      → get_elem? steps b ≡ some u
      → is_quote_at input b ≡ true
      → IsSaved fuel b u keys rests
      → IsSaved (suc fuel) (b + 1) (quote_value u b) keys rests
  from_quote fuel b u keys rests h e q s = record {
    begin = s.begin;
    ks = s.ks;
    rs = s.rs;
    reading = quote s.reading q;
    length_is = omega (arith, s.length_is);
    count_is = s.count_is;
    saved = backtrace-by_quote fuel b u keys rests h e ∙ s.saved;
  }

  from_word :
      (fuel b n d : ℕ) (key : ChewingKey) (u : ParseValue) (keys keys' : List ChewingKey)
      (rests rests' : List ChewingKeyRest)
      → b < 65535
      → IsWord parse_one_key input b n key d
      → get_elem? steps b ≡ some u
      → set_at keys u.num_keys key ≡ some keys'
      → set_at rests u.num_keys (record { raw_begin = b; raw_end = b + n }) ≡ some rests'
      → drop u.num_keys keys' ≡ key ∷ drop (u.num_keys + 1) keys
      → drop u.num_keys rests'
        ≡ record { raw_begin = b; raw_end = b + n } ∷ drop (u.num_keys + 1) rests
      → IsSaved fuel b u keys' rests'
      → IsSaved (suc fuel) (b + n) (word_value u b n key d) keys rests
  from_word fuel b n d key u keys keys' rests rests' h w e f g k l s = record {
    begin = s.begin;
    ks = s.ks ++ (key ∷ []);
    rs = s.rs ++ (place ∷ []);
    reading = word n key d s.reading w;
    length_is = omega (arith, s.length_is);
    count_is = omega (arith, s.count_is, length-append s.ks (key ∷ []));
    saved =
        backtrace-by_word fuel b n d key u keys keys' rests rests' h w e f g
        ∙ s.saved
        ∙ ap some (
            ap₂ (λ x y. (x, y))
              (ap (◌++◌ s.ks) k ∙ sym (append_assoc s.ks (key ∷ []) (drop (u.num_keys + 1) keys)))
              (ap (◌++◌ s.rs) l
                ∙ sym (append_assoc s.rs (place ∷ []) (drop (u.num_keys + 1) rests))));
  }
    where
      place : ChewingKeyRest
      place = record { raw_begin = b; raw_end = b + n }

  -- Enough fuel is the position that the way back starts from.
  pub backtrace_lem :
      (fuel j : ℕ) (v : ParseValue) (keys : List ChewingKey) (rests : List ChewingKeyRest)
      → j ≤ fuel
      → get_elem? steps j ≡ some v
      → v.num_keys ≤ length keys
      → length rests ≡ length keys
      → IsSaved fuel j v keys rests
  backtrace_lem zero j v keys rests h e k l = elim (scanned.linked j v e) [
    | untouched f ↦ from_untouched zero j v keys rests f
    | by_quote b u i g q m f ↦ absurd (omega arith)
    | by_word b n key d u i g w m f ↦ absurd (omega (arith, w.positive))
  ]
  backtrace_lem (suc fuel) j v keys rests h e k l = elim (scanned.linked j v e) [
    | untouched f ↦ from_untouched (suc fuel) j v keys rests f
    | by_quote b u i g q m f ↦
        let c : u.num_keys ≡ v.num_keys = rw f refl in
        let s = backtrace_lem fuel b u keys rests (omega arith) g (omega arith) l in
        rw (m, f) (from_quote fuel b u keys rests (omega arith) g q s)
    | by_word b n key d u i g w m f ↦
        let c : u.num_keys + 1 ≡ v.num_keys = rw f refl in
        let (keys', k1, k2, k3) = drop-set_at keys u.num_keys key (omega arith) in
        let (rests', r1, r2, r3) =
          drop-set_at rests u.num_keys (record { raw_begin = b; raw_end = b + n }) (omega arith) in
        let s =
          backtrace_lem fuel b u keys' rests' (omega (arith, w.positive)) g (omega arith)
            (omega arith) in
        rw (m, f)
          (from_word fuel b n d key u keys keys' rests rests' (omega arith) w g k1 r1 k2 r2 s)
  ]
