-- ===== src/PinyinParser/Spelling.antt =====
-- FullPinyinParser2::parse_one_key of src/storage/pinyin_parser2.cpp answers exactly the keys that
-- are spelled, and so what FullPinyinParser2::parse relies on.
use libpinyin.Common.{
  ℕ, suc, ◌+◌, ◌-◌, ◌≤◌, ◌<◌, ◌≡◌, ◌↔◌, refl, sym, ap, subst, ◌∙◌, ◌⊎◌, false, some, List, [], ◌∷◌,
  ◌++◌, length, length-append, get_elem?, take, take_prefix, arith,
}
use libpinyin.PinyinPhrase.{ChewingKey}
use libpinyin.PinyinParser.{
  Parsed, PinyinIndexItem, Tables, is_set, get_table_index, search_pinyin_index2, parse_one_key,
  set_tone, has_quote, use_tone, force_tone,
}
use libpinyin.PinyinParser.Reading.{IsPiece}
use libpinyin.PinyinParser.Pieces.{IsPieceParser}
use libpinyin.PinyinParser.Backtrace.{IsIndexed}
use libpinyin.PinyinParser.Sorted.{IsTables, IsEntry}
use libpinyin.PinyinParser.Search.{search_found, IsIn-IsEntry}
use libpinyin.PinyinParser.OneKey.{
  IsSpelled, plain, toned, last_tone, last_tone-append, without_tone, with_tone,
  parse_one_key_sound,
}

-- A character is in front of the digit, or it is the digit.
snoc-cons :
    (cs : List ℕ) (d : ℕ)
    → (e : ℕ) × (es : List ℕ) × (cs ++ (d ∷ []) ≡ e ∷ es) × (take (length es) (e ∷ es) ≡ cs)
snoc-cons [] d = (d, [], refl, refl)
snoc-cons (c ∷ cs) d = (
  c,
  cs ++ (d ∷ []),
  refl,
  let n : length (cs ++ (d ∷ [])) ≡ suc (length cs) = omega (arith, length-append cs (d ∷ [])) in
      rw n (ap (◌∷◌ c) (take_prefix (length cs) cs (d ∷ []) refl)),
)

module _ (tables : Tables) (index : List PinyinIndexItem) (options : ℕ)
    (law : IsTables tables index) where
  -- Every piece that spells a key is answered with it.
  pub parse_one_key_complete :
      {piece : List ℕ} {key : ChewingKey} {distance : ℕ}
      → 0 < length piece
      → length piece < 65536
      → has_quote piece ≡ false
      → IsSpelled tables index options piece key distance
      → parse_one_key tables index options piece ≡ some (some (key, distance))
  unfolding set_tone
  parse_one_key_complete p s q (plain x key i a g h) = go x.pinyin_input refl p s q
    where
      go :
          (name : List ℕ)
          → x.pinyin_input ≡ name
          → 0 < length name
          → length name < 65536
          → has_quote name ≡ false
          → parse_one_key tables index options name ≡ some (some (key, x.distance))
      go [] e p s q = absurd (omega arith)
      go (c ∷ cs) e p s q =
          let found = search_found tables index options law x key i a g in
          without_tone tables index options c cs s q (some (key, x.distance))
            (subst
              (λ n.
                (is_set options use_tone ≡ false)
                ⊎ ((is_set options force_tone ≡ false) × (last_tone n ≡ 0)))
              e h)
            (subst
              (λ n. search_pinyin_index2 tables options index n ≡ some (some (key, x.distance))) e
              found)
  parse_one_key_complete p s q (toned x key t i a g u h k) =
      let (d, ds, e, f) = snoc-cons x.pinyin_input (48 + t) in
      go d ds e f (subst (λ w. length w < 65536) e s) (subst (λ w. has_quote w ≡ false) e q)
        (ap last_tone (sym e) ∙ last_tone-append x.pinyin_input t k)
    where
      go :
          (d : ℕ) (ds : List ℕ)
          → x.pinyin_input ++ ((48 + t) ∷ []) ≡ d ∷ ds
          → take (length ds) (d ∷ ds) ≡ x.pinyin_input
          → length (d ∷ ds) < 65536
          → has_quote (d ∷ ds) ≡ false
          → last_tone (d ∷ ds) ≡ t
          → parse_one_key tables index options (x.pinyin_input ++ ((48 + t) ∷ []))
            ≡ some (some (record key { tone = t }, x.distance))
      go d ds e f s q m =
          let found = search_found tables index options law x key i a g in
          let answer =
            with_tone tables index options d ds s q (some (key, x.distance)) u (omega arith)
              (ap (search_pinyin_index2 tables options index) f ∙ found) in
          ap (parse_one_key tables index options) e
          ∙ answer
          ∙ ap (λ n. some (some (record key { tone = n }, x.distance))) m

  -- What FullPinyinParser2::parse relies on: answers, distances up to the length, and table
  -- indexes.
  spelled-near :
      {piece : List ℕ} {key : ChewingKey} {distance : ℕ}
      → IsSpelled tables index options piece key distance
      → distance ≤ length piece
  spelled-near (plain x key i a g h) =
      let entry = IsIn-IsEntry tables x index law.entries i in entry.near
  spelled-near (toned x key t i a g u h k) =
      let entry = IsIn-IsEntry tables x index law.entries i in
      omega (arith, entry.near, length-append x.pinyin_input ((48 + t) ∷ []))

  index_of :
      (x : PinyinIndexItem) (key : ChewingKey)
      → IsEntry tables x
      → get_elem? tables.content_table x.table_index ≡ some key
      → (i : ℕ) × (get_table_index tables.chewing_key_table key ≡ some (suc i))
  index_of x key entry g =
      let same = entry.content in
      let key_is : key ≡ entry.key = cc in
      let i_is : x.table_index ≡ suc (x.table_index - 1) = omega (arith, entry.positive) in
      (
        x.table_index - 1,
        ap (get_table_index tables.chewing_key_table) key_is ∙ entry.index ∙ ap some i_is,
      )

  spelled-index :
      {piece : List ℕ} {key : ChewingKey} {distance : ℕ}
      → IsSpelled tables index options piece key distance
      → (i : ℕ) × (get_table_index tables.chewing_key_table key ≡ some (suc i))
  unfolding get_table_index
  spelled-index (plain x key i a g h) = index_of x key (IsIn-IsEntry tables x index law.entries i) g
  spelled-index (toned x key t i a g u h k) =
      index_of x key (IsIn-IsEntry tables x index law.entries i) g

  sound :
      (piece : List ℕ)
      → IsPiece piece
      → (r : Parsed) × (parse_one_key tables index options piece ≡ some r)
        × ((key : ChewingKey) (distance : ℕ)
            → r ≡ some (key, distance)
            → IsSpelled tables index options piece key distance)
  sound [] p = absurd (omega (arith, p.nonempty))
  sound (c ∷ cs) p =
      parse_one_key_sound tables index options c cs (omega (arith, p.up_to_7)) p.no_quote law

  spelled :
      (piece : List ℕ) (key : ChewingKey) (distance : ℕ)
      → IsPiece piece
      → parse_one_key tables index options piece ≡ some (some (key, distance))
      → IsSpelled tables index options piece key distance
  spelled piece key d p e = let (r, f, h) = sound piece p in h key d cc

  -- parse_one_key answers a key if and only if the piece spells it, by an entry of the index that
  -- the options allow. The tables are well formed; the piece is of one to seven characters without
  -- an apostrophe.
  pub parse_one_key_iff :
      (piece : List ℕ) (key : ChewingKey) (distance : ℕ)
      → IsPiece piece
      → (parse_one_key tables index options piece ≡ some (some (key, distance)))
        ↔ IsSpelled tables index options piece key distance
  parse_one_key_iff piece key d p = (
    spelled piece key d p,
    parse_one_key_complete p.nonempty (omega (arith, p.up_to_7)) p.no_quote,
  )

  pub parse_one_key-IsPieceParser : IsPieceParser (parse_one_key tables index options)
  parse_one_key-IsPieceParser = record {
    answers = λ piece p. let (r, e, _) = sound piece p in (r, e);
    near = λ piece key d p e. spelled-near (spelled piece key d p e);
  }

  pub parse_one_key-IsIndexed :
      IsIndexed (parse_one_key tables index options) (get_table_index tables.chewing_key_table)
  parse_one_key-IsIndexed = record {
    nothing = law.nothing;
    found = λ piece key d p e. spelled-index (spelled piece key d p e);
  }
