-- ===== src/PinyinParser/Search.antt =====
-- The search for a name in the tables of src/storage/pinyin_parser2.cpp, when they are well formed.
use libpinyin.Common.{
  ℕ, ◌≡◌, ◌≢◌, refl, sym, ap, ap₂, ◌∙◌, Bool, true, false, ◌==◌, some, none, List, [], ◌∷◌,
  get_elem?, arith,
}
use libpinyin.PinyinPhrase.{ChewingKey}
use libpinyin.PinyinParser.{
  Parsed, PinyinIndexItem, Tables, check_pinyin_options, take_content, take_range,
  search_pinyin_index2,
}
use libpinyin.PinyinParser.Sorted.{
  equivalents, IsEntry, AllEntries, IsTables, IsIn, here, there, IsRange, empty, single,
  equivalents-IsRange,
}

pub IsIn-IsEntry :
    (tables : Tables) (x : PinyinIndexItem) (index : List PinyinIndexItem)
    → AllEntries tables index
    → IsIn x index
    → IsEntry tables x
IsIn-IsEntry tables x index es (here xs) = es.0
IsIn-IsEntry tables x index es (there y xs i) = IsIn-IsEntry tables x xs es.1 i

-- What a search answers: the content of the entry of that name, if the options allow it.
pub data IsFound (tables : Tables) (index : List PinyinIndexItem) (options : ℕ) (name : List ℕ)
    : Parsed → Type 0 where
  missing :
      ((x : PinyinIndexItem)
        → IsIn x index
        → check_pinyin_options options x ≡ some true
        → x.pinyin_input ≢ name)
      → IsFound tables index options name none
  found :
      (x : PinyinIndexItem) (key : ChewingKey)
      → IsIn x index
      → check_pinyin_options options x ≡ some true
      → x.pinyin_input ≡ name
      → get_elem? tables.content_table x.table_index ≡ some key
      → ((y : PinyinIndexItem) → IsIn y index → y.pinyin_input ≡ name → y ≡ x)
      → IsFound tables index options name (some (key, x.distance))

-- The assertion on the flags holds of an entry.
check_lem :
    (tables : Tables) (options : ℕ) (x : PinyinIndexItem)
    → IsEntry tables x
    → (b : Bool) × (check_pinyin_options options x ≡ some b)
unfolding check_pinyin_options
check_lem tables options x e = rw e.for_pinyin (_, refl)

module _ (tables : Tables) (index : List PinyinIndexItem) (options : ℕ)
    (law : IsTables tables index) where
  take_range_lem :
      (item : PinyinIndexItem) (range : List PinyinIndexItem)
      → IsRange item index range
      → (r : Parsed) × (take_range tables options range ≡ some r)
        × IsFound tables index options item.pinyin_input r
  unfolding take_range take_content
  take_range_lem item [] (empty h) = (none, refl, missing (λ x i _. h x i))
  take_range_lem item (_ ∷ (_ ∷ _)) r = elim r [ ]
  take_range_lem item (x ∷ []) (single _ i e u) =
      let entry = IsIn-IsEntry tables x index law.entries i in
      let (allowed, c) = check_lem tables options x entry in
      let m : (x.table_index == x.table_index) ≡ true = ground arith in
      rw c (go u allowed c entry m)
    where
      go :
          ((y : PinyinIndexItem) → IsIn y index → y.pinyin_input ≡ item.pinyin_input → y ≡ x)
          → (allowed : Bool) → check_pinyin_options options x ≡ some allowed
          → (entry : IsEntry tables x) → (x.table_index == x.table_index) ≡ true
          → (r : Parsed) × (take_content tables x allowed ≡ some r)
            × IsFound tables index options item.pinyin_input r
      go u false c entry m = (
        none,
        refl,
        missing (λ y j d f.
            let y_is = u y j f in
            let d' : check_pinyin_options options x ≡ some true = rw (sym y_is) d in absurd cc),
      )
      go u true c entry m = (
        some (entry.key, x.distance),
        rw (entry.content, entry.index, m) refl,
        found x entry.key i c e entry.content u,
      )

  pub search_lem :
      (name : List ℕ)
      → (r : Parsed) × (search_pinyin_index2 tables options index name ≡ some r)
        × IsFound tables index options name r
  unfolding search_pinyin_index2
  search_lem name =
      let item : PinyinIndexItem = record {
        pinyin_input = name;
        flags = 0;
        table_index = 0;
        distance = 0;
      } in
      rw (law.equal_range index item law.sorted)
        (take_range_lem item (equivalents item index) (equivalents-IsRange item index law.sorted))

  -- The entry of a name that the options allow is what is answered.
  pub search_found :
      (x : PinyinIndexItem) (key : ChewingKey)
      → IsIn x index
      → check_pinyin_options options x ≡ some true
      → get_elem? tables.content_table x.table_index ≡ some key
      → search_pinyin_index2 tables options index x.pinyin_input ≡ some (some (key, x.distance))
  search_found x key i c e = go (search_lem x.pinyin_input)
    where
      go :
          (r : Parsed) × (search_pinyin_index2 tables options index x.pinyin_input ≡ some r)
            × IsFound tables index options x.pinyin_input r
          → search_pinyin_index2 tables options index x.pinyin_input ≡ some (some (key, x.distance))
      go (_, f, missing h) = absurd (h x i c refl)
      go (_, f, found y key' j d n e' u) =
          let x_is = u x i refl in
          let key_is : key' ≡ key = cc in
          f ∙ ap some (ap some (ap₂ (λ k n. (k, n)) key_is (ap (λ z. z.distance) (sym x_is))))
