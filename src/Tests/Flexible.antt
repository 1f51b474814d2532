-- ===== src/Tests/Flexible.antt =====
-- src/storage/flexible_single_gram.h with an item of 32 bits behind a header of eight bytes, as in
-- the unigram tables of the training tools.
use libpinyin.Common.{
  ℕ, ◌≡◌, refl, not, none, some, List, [], ◌∷◌, ◌++◌, arith, ◌==◌, if◌then◌else◌,
}
use libpinyin.MemoryChunk.{MemoryChunk, malloced}
use libpinyin.Stl.{LowerBound}
use libpinyin.TokenArray.{Item, token_of, encode_item}
use libpinyin.TokenArray.Sorted.{is_some}
use libpinyin.SingleGram.{freq_layout}
use libpinyin.SingleGram.Total.{freq_layout-IsLayout}
use libpinyin.TokenArray.Located.{in_range}
use libpinyin.FlexibleSingleGram.{
  get_array_item, insert_array_item, remove_array_item, set_array_item, search, retrieve_all,
  get_array_header, set_array_header,
}
use libpinyin.FlexibleSingleGram.Refine.{
  IsFlexibleGram, insert_array_item-get_array_item, remove_array_item-get_array_item,
  set_array_item-get_array_item, search-retrieve_all, set_array_header-get_array_header,
}
use libpinyin.Tests.Bound.{walk_bound}

abbrev bound : LowerBound {A = Item ℕ} token_of
bound = walk_bound token_of

abbrev head : List ℕ
head = 1 ∷ 2 ∷ 3 ∷ 4 ∷ 5 ∷ 6 ∷ 7 ∷ 8 ∷ []

abbrev one_item : List (Item ℕ)
one_item = record { token = 10; payload = 6 } ∷ []

abbrev one_gram : MemoryChunk
one_gram = record {
  buffer = head ++ (10 ∷ 0 ∷ 0 ∷ 0 ∷ 6 ∷ 0 ∷ 0 ∷ 0 ∷ []);
  data_end = 16;
  free_func = malloced;
}

abbrev IsOurs : MemoryChunk → List ℕ → List (Item ℕ) → Type 0
IsOurs = IsFlexibleGram freq_layout freq_layout-IsLayout 8 bound

one_gram-IsFlexibleGram : IsOurs one_gram head one_item
unfolding encode_item
one_gram-IsFlexibleGram = (
  record {
    holds = record { fits = omega arith; releasable = λ e. cc; content = refl };
    length_header = refl;
    valid = omega arith;
  },
  omega arith,
)

insert_array_item-get_array_item_example :
    (d : MemoryChunk) × (ys : List (Item ℕ)) × (insert_array_item freq_layout 8 bound one_gram 4 9
      ≡ some (d, not (is_some (get_array_item freq_layout 8 bound one_gram 4))))
    × IsOurs d head ys
    × ((u : ℕ)
        → get_array_item freq_layout 8 bound d u ≡ (
            let old = get_array_item freq_layout 8 bound one_gram u in
            if 4 == u then if is_some old then old else some 9 else old))
insert_array_item-get_array_item_example =
    insert_array_item-get_array_item freq_layout freq_layout-IsLayout 8 bound one_gram head one_item
      one_gram-IsFlexibleGram 4 9 (omega arith) (omega arith)

remove_array_item-get_array_item_example :
    (d : MemoryChunk) × (ys : List (Item ℕ)) × (remove_array_item freq_layout 8 bound one_gram 10
      ≡ some (d, get_array_item freq_layout 8 bound one_gram 10))
    × IsOurs d head ys
    × ((u : ℕ)
        → get_array_item freq_layout 8 bound d u
          ≡ (if 10 == u then none else get_array_item freq_layout 8 bound one_gram u))
remove_array_item-get_array_item_example =
    remove_array_item-get_array_item freq_layout freq_layout-IsLayout 8 bound one_gram head one_item
      one_gram-IsFlexibleGram 10

set_array_item-get_array_item_example :
    (d : MemoryChunk) × (ys : List (Item ℕ)) × (set_array_item freq_layout 8 bound one_gram 10 9
      ≡ (d, is_some (get_array_item freq_layout 8 bound one_gram 10)))
    × IsOurs d head ys
    × ((u : ℕ)
        → get_array_item freq_layout 8 bound d u ≡ (
            let old = get_array_item freq_layout 8 bound one_gram u in
            if 10 == u then if is_some old then some 9 else none else old))
set_array_item-get_array_item_example =
    set_array_item-get_array_item freq_layout freq_layout-IsLayout 8 bound one_gram head one_item
      one_gram-IsFlexibleGram 10 9 (omega arith)

search-retrieve_all_example :
    search freq_layout 8 bound one_gram 3 11 ≡ in_range 3 11 (retrieve_all freq_layout 8 one_gram)
search-retrieve_all_example =
    search-retrieve_all freq_layout freq_layout-IsLayout 8 bound one_gram head one_item
      one_gram-IsFlexibleGram 3 11

abbrev zeros : List ℕ
zeros = 0 ∷ 0 ∷ 0 ∷ 0 ∷ 0 ∷ 0 ∷ 0 ∷ 0 ∷ []

set_array_header-get_array_header_example :
    (get_array_header 8 one_gram ≡ head)
    × (get_array_header 8 (set_array_header 8 one_gram zeros) ≡ zeros)
    × ((u : ℕ)
        → get_array_item freq_layout 8 bound (set_array_header 8 one_gram zeros) u
          ≡ get_array_item freq_layout 8 bound one_gram u)
set_array_header-get_array_header_example =
    set_array_header-get_array_header freq_layout freq_layout-IsLayout 8 bound one_gram head
      one_item one_gram-IsFlexibleGram zeros refl
