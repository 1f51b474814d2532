-- ===== src/PinyinParser/Sorted.antt =====
-- The entries of a sorted index of src/storage/pinyin_parser2.cpp that have a name.
use libpinyin.Common.{
  ℕ, ◌≤◌, ◌<◌, ◌≡◌, ◌≢◌, refl, sym, ap₂, ◌∙◌, inl, inr, true, false, not, Bool-cases, ◌&&◌, some,
  List, [], ◌∷◌, length, get_elem?, arith, if◌then◌else◌,
}
use libpinyin.PinyinPhrase.{ChewingKey, new_chewing_key}
use libpinyin.PinyinParser.{
  PinyinIndexItem, Tables, is_before, compare_pinyin_less_than, is_set, is_pinyin, get_table_index,
}

-- The entries that compare_pinyin_less_than puts neither before nor behind `item`.
unfoldable pub equivalents : PinyinIndexItem → List PinyinIndexItem → List PinyinIndexItem
unfolding compare_pinyin_less_than
equivalents item [] = []
equivalents item (x ∷ xs) =
    let rest = equivalents item xs in
    if not (compare_pinyin_less_than x item) && not (compare_pinyin_less_than item x)
    then x ∷ rest
    else rest

abbrev pub AllAfter : PinyinIndexItem → List PinyinIndexItem → Type 0
AllAfter x [] = Unit {0}
AllAfter x (y ∷ ys) = (compare_pinyin_less_than x y ≡ true) × AllAfter x ys

-- The names rise along the table, and none stands twice.
abbrev pub IsSorted : List PinyinIndexItem → Type 0
IsSorted [] = Unit {0}
IsSorted (x ∷ xs) = AllAfter x xs × IsSorted xs

-- An entry that the generated tables have: for a pinyin, with the index of its own key, which is
-- not that of the zero key, and corrected in no more places than it has characters.
pub record IsEntry (tables : Tables) (item : PinyinIndexItem) : Type 0 where
  pub for_pinyin : is_set item.flags is_pinyin ≡ true
  pub key : ChewingKey
  pub content : get_elem? tables.content_table item.table_index ≡ some key
  pub index : get_table_index tables.chewing_key_table key ≡ some item.table_index
  pub positive : 0 < item.table_index
  pub near : item.distance ≤ length item.pinyin_input

abbrev pub AllEntries : Tables → List PinyinIndexItem → Type 0
AllEntries tables [] = Unit {0}
AllEntries tables (x ∷ xs) = IsEntry tables x × AllEntries tables xs

-- The tables, and what std::equal_range answers on a sorted one.
pub record IsTables (tables : Tables) (index : List PinyinIndexItem) : Type 0 where
  pub sorted : IsSorted index
  pub entries : AllEntries tables index
  pub equal_range :
      (xs : List PinyinIndexItem) (item : PinyinIndexItem)
      → IsSorted xs
      → tables.range xs item ≡ equivalents item xs
  pub nothing : get_table_index tables.chewing_key_table new_chewing_key ≡ some 0

is_before_refl : (cs : List ℕ) → is_before cs cs ≡ false
unfolding is_before
is_before_refl [] = refl
is_before_refl (c ∷ cs) = ground (arith, is_before_refl cs)

same_of_is_before : (cs ds : List ℕ) → is_before cs ds ≡ false → is_before ds cs ≡ false → cs ≡ ds
unfolding is_before
same_of_is_before [] [] h k = refl
same_of_is_before [] (d ∷ ds) h k = absurd cc
same_of_is_before (c ∷ cs) [] h k = absurd cc
same_of_is_before (c ∷ cs) (d ∷ ds) h k =
    let p : c ≡ d = ground arith in
    let e = same_of_is_before cs ds (ground arith) (ground arith) in ap₂ ◌∷◌ p e

-- An entry of a table.
pub data IsIn (x : PinyinIndexItem) : List PinyinIndexItem → Type 0 where
  here : (xs : List PinyinIndexItem) → IsIn x (x ∷ xs)
  there : (y : PinyinIndexItem) (xs : List PinyinIndexItem) → IsIn x xs → IsIn x (y ∷ xs)

-- What a search finds: the one entry of the name.
pub data IsRange (item : PinyinIndexItem) (index : List PinyinIndexItem)
    : List PinyinIndexItem → Type 0 where
  empty :
      ((x : PinyinIndexItem) → IsIn x index → x.pinyin_input ≢ item.pinyin_input)
      → IsRange item index []
  single :
      (x : PinyinIndexItem)
      → IsIn x index
      → x.pinyin_input ≡ item.pinyin_input
      → ((y : PinyinIndexItem) → IsIn y index → y.pinyin_input ≡ item.pinyin_input → y ≡ x)
      → IsRange item index (x ∷ [])

equivalents_after :
    (item x : PinyinIndexItem) (xs : List PinyinIndexItem)
    → x.pinyin_input ≡ item.pinyin_input
    → AllAfter x xs
    → equivalents item xs ≡ []
unfolding equivalents compare_pinyin_less_than
equivalents_after item x [] e a = refl
equivalents_after item x (y ∷ ys) e (a, later) =
    let rest = equivalents_after item x ys e later in
    let before : is_before item.pinyin_input y.pinyin_input ≡ true = rw (sym e) a in ground arith

differs : {cs ds : List ℕ} → is_before cs ds ≡ true → cs ≢ ds
differs {cs} {ds} p e = let r = is_before_refl ds in absurd cc

after_of :
    (x y : PinyinIndexItem) (xs : List PinyinIndexItem)
    → AllAfter x xs
    → IsIn y xs
    → is_before x.pinyin_input y.pinyin_input ≡ true
unfolding compare_pinyin_less_than
after_of x y xs a (here ys) = a.0
after_of x y xs a (there z ys i) = after_of x y ys a.1 i

pub equivalents-IsRange :
    (item : PinyinIndexItem) (index : List PinyinIndexItem)
    → IsSorted index
    → IsRange item index (equivalents item index)
unfolding equivalents compare_pinyin_less_than
equivalents-IsRange item [] s = empty (λ x i. absurd (not_in x i))
  where
    not_in : (x : PinyinIndexItem) → IsIn x [] → ⊥
    not_in x i = elim i [ ]
equivalents-IsRange item (x ∷ xs) (a, s) = elim (Bool-cases (compare_pinyin_less_than x item)) [
  | inl p ↦ rw p (skip (differs p) (equivalents-IsRange item xs s))
  | inr p ↦ elim (Bool-cases (compare_pinyin_less_than item x)) [
    | inl q ↦ rw (p, q) (skip (λ e. differs q (sym e)) (equivalents-IsRange item xs s))
    | inr q ↦
        let e = same_of_is_before x.pinyin_input item.pinyin_input p q in
        rw (p, q, equivalents_after item x xs e a)
          (single x (here xs) e (λ y i f. only y i (f ∙ sym e)))
  ]
]
  where
    only : (y : PinyinIndexItem) → IsIn y (x ∷ xs) → y.pinyin_input ≡ x.pinyin_input → y ≡ x
    only y (here xs) f = refl
    only y (there x xs i) f = absurd (differs (after_of x y xs a i) (sym f))

    skip :
        {ys : List PinyinIndexItem}
        → x.pinyin_input ≢ item.pinyin_input
        → IsRange item xs ys
        → IsRange item (x ∷ xs) ys
    skip n (empty h) = empty (λ y i. other n h y i)
      where
        other :
            x.pinyin_input ≢ item.pinyin_input
            → ((y : PinyinIndexItem) → IsIn y xs → y.pinyin_input ≢ item.pinyin_input)
            → (y : PinyinIndexItem) → IsIn y (x ∷ xs)
            → y.pinyin_input ≢ item.pinyin_input
        other n h y (here xs) = n
        other n h y (there x xs i) = h y i
    skip n (single y i e u) = single y (there x xs i) e (λ z k f. other n u z k f)
      where
        other :
            x.pinyin_input ≢ item.pinyin_input
            → ((z : PinyinIndexItem) → IsIn z xs → z.pinyin_input ≡ item.pinyin_input → z ≡ y)
            → (z : PinyinIndexItem) → IsIn z (x ∷ xs)
            → z.pinyin_input ≡ item.pinyin_input
            → z ≡ y
        other n u z (here xs) f = absurd (n f)
        other n u z (there x xs k) f = u z k f
