-- ===== src/PinyinParser/OneKey.antt =====
-- FullPinyinParser2::parse_one_key of src/storage/pinyin_parser2.cpp on tables that are well
-- formed.
use libpinyin.Common.{
  ℕ, suc, ◌+◌, ◌-◌, ◌%◌, ◌≤◌, ◌<◌, ◌≡◌, refl, sym, ap, subst, ◌∙◌, ◌⊎◌, inl, inr, true, false,
  Bool-cases, ◌==◌, ◌&&◌, ltb, leb, some, none, List, [], ◌∷◌, ◌++◌, length, get_elem?, take,
  take_all, arith, if◌then◌else◌,
}
use libpinyin.PinyinPhrase.{ChewingKey}
use libpinyin.PinyinParser.{
  Parsed, PinyinIndexItem, Tables, check_pinyin_options, is_set, search_pinyin_index2,
  parse_one_key, set_tone, tone_of, has_quote, use_tone, force_tone,
}
use libpinyin.PinyinParser.Sorted.{IsTables, IsIn}
use libpinyin.PinyinParser.Search.{IsFound, found, missing, search_lem}

tone_of-range : (c : ℕ) → tone_of c ≤ 5
unfolding tone_of
tone_of-range c = ground arith

-- The tone that a piece ends in, 0 if it ends in another character.
abbrev pub last_tone : List ℕ → ℕ
last_tone [] = 0
last_tone (c ∷ []) = if ltb 48 c && leb c 53 then c - 48 else 0
last_tone (_ ∷ c ∷ cs) = last_tone (c ∷ cs)

-- A piece is the name of an entry that the options allow, alone or with a tone behind it.
pub data IsSpelled (tables : Tables) (index : List PinyinIndexItem) (options : ℕ)
    : List ℕ → ChewingKey → ℕ → Type 0 where
  plain :
      (x : PinyinIndexItem) (key : ChewingKey)
      → IsIn x index
      → check_pinyin_options options x ≡ some true
      → get_elem? tables.content_table x.table_index ≡ some key
      → (is_set options use_tone ≡ false)
        ⊎ ((is_set options force_tone ≡ false) × (last_tone x.pinyin_input ≡ 0))
      → IsSpelled tables index options x.pinyin_input key x.distance
  toned :
      (x : PinyinIndexItem) (key : ChewingKey) (tone : ℕ)
      → IsIn x index
      → check_pinyin_options options x ≡ some true
      → get_elem? tables.content_table x.table_index ≡ some key
      → is_set options use_tone ≡ true
      → 0 < tone
      → tone ≤ 5
      → IsSpelled tables index options
          (x.pinyin_input ++ ((48 + tone) ∷ []))
          (record key { tone = tone })
          x.distance

last_tone_lem :
    (c : ℕ) (cs : List ℕ)
    → (d : ℕ) × (get_elem? (c ∷ cs) (length cs) ≡ some d) × (tone_of d ≡ last_tone (c ∷ cs))
unfolding tone_of
last_tone_lem c [] = (c, refl, refl)
last_tone_lem c (d ∷ ds) = last_tone_lem d ds

-- A piece with a tone is a name with the digit behind it.
last_tone-split :
    (c : ℕ) (cs : List ℕ)
    → 0 < last_tone (c ∷ cs)
    → (c ∷ cs ≡ take (length cs) (c ∷ cs) ++ ((48 + last_tone (c ∷ cs)) ∷ []))
      × (last_tone (c ∷ cs) ≤ 5)
last_tone-split c [] h = (ap (λ d. d ∷ []) (ground arith), ground arith)
last_tone-split c (d ∷ ds) h = let (e, f) = last_tone-split d ds h in (ap (◌∷◌ c) e, f)

pub last_tone-append :
    (cs : List ℕ) (tone : ℕ) → tone ≤ 5 → last_tone (cs ++ ((48 + tone) ∷ [])) ≡ tone
last_tone-append [] tone h = ground arith
last_tone-append (c ∷ []) tone h = ground arith
last_tone-append (c ∷ d ∷ ds) tone h = last_tone-append (d ∷ ds) tone h

module _ (tables : Tables) (index : List PinyinIndexItem) (options : ℕ) (c : ℕ) (cs : List ℕ)
    (small : length (c ∷ cs) < 65536) (quoteless : has_quote (c ∷ cs) ≡ false) where
  pub without_tone :
      (r : Parsed)
      → (is_set options use_tone ≡ false)
        ⊎ ((is_set options force_tone ≡ false) × (last_tone (c ∷ cs) ≡ 0))
      → search_pinyin_index2 tables options index (c ∷ cs) ≡ some r
      → parse_one_key tables index options (c ∷ cs) ≡ some r
  unfolding parse_one_key has_quote
  without_tone r h e =
      let len : suc (length cs) % 65536 ≡ suc (length cs) = omega arith in
      let all : take (length cs) cs ≡ cs = take_all (length cs) cs (omega arith) in
      let whole : (suc (length cs) == suc (length cs)) ≡ true = ground arith in
      let before : suc (length cs) - 1 ≡ length cs = omega arith in
      let (d, f, t) = last_tone_lem c cs in
      elim h [
        | inl u ↦ rw (quoteless, u, len, all, e, whole) refl
        | inr (n, z) ↦ elim (Bool-cases (is_set options use_tone)) [
          | inl u ↦
              let t_is : tone_of d ≡ 0 = omega arith in
              let pos : ltb 0 (suc (length cs)) ≡ true = ground arith in
              rw (quoteless, u, len, before, pos, f, n, t_is, all, e, whole) refl
          | inr u ↦ rw (quoteless, u, len, all, e, whole) refl
        ]
      ]

  forced :
      is_set options use_tone ≡ true
      → is_set options force_tone ≡ true
      → last_tone (c ∷ cs) ≡ 0
      → parse_one_key tables index options (c ∷ cs) ≡ some none
  unfolding parse_one_key has_quote
  forced u n z =
      let len : suc (length cs) % 65536 ≡ suc (length cs) = omega arith in
      let before : suc (length cs) - 1 ≡ length cs = omega arith in
      let pos : ltb 0 (suc (length cs)) ≡ true = ground arith in
      let (d, f, t) = last_tone_lem c cs in
      let t_is : tone_of d ≡ 0 = omega arith in rw (quoteless, u, len, before, pos, f, n, t_is) refl

  pub with_tone :
      (r : Parsed)
      → is_set options use_tone ≡ true
      → 0 < last_tone (c ∷ cs)
      → search_pinyin_index2 tables options index (take (length cs) (c ∷ cs)) ≡ some r
      → parse_one_key tables index options (c ∷ cs) ≡ some (set_tone (last_tone (c ∷ cs)) r)
  unfolding parse_one_key has_quote
  with_tone r u p e =
      let len : suc (length cs) % 65536 ≡ suc (length cs) = omega arith in
      let whole : (suc (length cs) == suc (length cs)) ≡ true = ground arith in
      let before : suc (length cs) - 1 ≡ length cs = omega arith in
      let pos : ltb 0 (suc (length cs)) ≡ true = ground arith in
      let (d, f, t) = last_tone_lem c cs in
      let n : (tone_of d == 0) ≡ false = ground arith in
      elim (Bool-cases (is_set options force_tone)) [
        | inl g ↦ rw (quoteless, u, len, before, pos, f, g, n, e, whole, t) refl
        | inr g ↦ rw (quoteless, u, len, before, pos, f, g, n, e, whole, t) refl
      ]

  -- What is searched for, and what becomes of the answer.
  data IsWay : Type 0 where
    plainly :
        (is_set options use_tone ≡ false)
          ⊎ ((is_set options force_tone ≡ false) × (last_tone (c ∷ cs) ≡ 0))
        → IsWay
    refused :
        is_set options use_tone ≡ true
        → is_set options force_tone ≡ true
        → last_tone (c ∷ cs) ≡ 0
        → IsWay
    with_digit : is_set options use_tone ≡ true → 0 < last_tone (c ∷ cs) → IsWay

  way : IsWay
  way = elim (Bool-cases (is_set options use_tone)) [
    | inr u ↦ plainly (inl u)
    | inl u ↦ elim (Bool-cases (last_tone (c ∷ cs) == 0)) [
      | inr n ↦ with_digit u (ground arith)
      | inl z ↦ elim (Bool-cases (is_set options force_tone)) [
        | inl f ↦ refused u f (ground arith)
        | inr f ↦ plainly (inr (f, ground arith))
      ]
    ]
  ]

  module _ (law : IsTables tables index) where
    -- parse_one_key answers, and a key that it answers is spelled by the piece.
    pub parse_one_key_sound :
        (r : Parsed) × (parse_one_key tables index options (c ∷ cs) ≡ some r)
        × ((key : ChewingKey) (distance : ℕ)
            → r ≡ some (key, distance)
            → IsSpelled tables index options (c ∷ cs) key distance)
    unfolding set_tone
    parse_one_key_sound = elim way [
      | plainly h ↦
          let (r, e, f) = search_lem tables index options law (c ∷ cs) in
          (r, without_tone r h e, plainly_spelled h f)
      | refused u f z ↦ (none, forced u f z, λ k d e. absurd cc)
      | with_digit u p ↦
          let (r, e, f) = search_lem tables index options law (take (length cs) (c ∷ cs)) in
          (set_tone (last_tone (c ∷ cs)) r, with_tone r u p e, toned_spelled u p f)
    ]
      where
        plainly_spelled :
            {r : Parsed}
            → (is_set options use_tone ≡ false)
              ⊎ ((is_set options force_tone ≡ false) × (last_tone (c ∷ cs) ≡ 0))
            → IsFound tables index options (c ∷ cs) r
            → (key : ChewingKey) (distance : ℕ) → r ≡ some (key, distance)
            → IsSpelled tables index options (c ∷ cs) key distance
        plainly_spelled h (missing n) key d e = absurd cc
        plainly_spelled h (found x k i a m g u) key d e =
            let key_is : k ≡ key = cc in
            let d_is : x.distance ≡ d = cc in
            let spelled = plain x k i a g (rw m h) in rw (sym m, sym key_is, sym d_is) spelled

        toned_spelled :
            {r : Parsed}
            → is_set options use_tone ≡ true
            → 0 < last_tone (c ∷ cs)
            → IsFound tables index options (take (length cs) (c ∷ cs)) r
            → (key : ChewingKey) (distance : ℕ)
            → set_tone (last_tone (c ∷ cs)) r ≡ some (key, distance)
            → IsSpelled tables index options (c ∷ cs) key distance
        toned_spelled h p (missing n) key d e = absurd cc
        toned_spelled h p (found x k i a m g u) key d e =
            let t : ℕ = last_tone (c ∷ cs) in
            let (split, t_le) = last_tone-split c cs p in
            let key_is : record k { tone = t } ≡ key = cc in
            let d_is : x.distance ≡ d = cc in
            let piece : c ∷ cs ≡ x.pinyin_input ++ ((48 + t) ∷ []) =
              split ∙ ap (λ n. n ++ ((48 + t) ∷ [])) (sym m) in
            let spelled = toned x k t i a g h p t_le in
            subst (λ w. IsSpelled tables index options w key d) (sym piece)
              (rw (sym key_is, sym d_is) spelled)
