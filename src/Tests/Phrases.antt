-- ===== src/Tests/Phrases.antt =====
-- Adding and removing an item of src/storage/phrase_index.cpp.
use libpinyin.Common.{ℕ, ◌≡◌, refl, some, Option, List, [], ◌∷◌, ◌++◌, arith, length, replicate}
use libpinyin.Common.Words.{encode32}
use libpinyin.MemoryChunk.{MemoryChunk, size, unmanaged}
use libpinyin.MemoryChunk.Growth.{Holds}
use libpinyin.SubPhraseIndex.{
  SubPhraseIndex, found, failed, error_ok, error_no_item, get_phrase_item, add_phrase_item,
  remove_phrase_item,
}
use libpinyin.SubPhraseIndex.Items.{add_phrase_item-get_phrase_item}
use libpinyin.SubPhraseIndex.Others.{add_phrase_item-other}
use libpinyin.SubPhraseIndex.Removal.{remove_phrase_item-get_phrase_item}

abbrev chunk_of : List ℕ → MemoryChunk
chunk_of bytes = record { buffer = bytes; data_end = length bytes; free_func = unmanaged }

-- An item of no characters and no pronunciations with the frequency 5.
abbrev item_five : List ℕ
item_five = 0 ∷ 0 ∷ 5 ∷ 0 ∷ 0 ∷ 0 ∷ []

-- An index with one such item, of token 1, behind eight bytes.
abbrev table : List ℕ
table = encode32 0 ++ encode32 8

abbrev content : List ℕ
content = replicate 8 0 ++ item_five

abbrev one_item : SubPhraseIndex
one_item = record {
  total_freq = 5;
  phrase_index = chunk_of table;
  phrase_content = chunk_of content;
  chunk = Option.none;
}

table-Holds : Holds (chunk_of table) table
table-Holds = record { fits = omega arith; releasable = λ e. cc; content = refl }

content-Holds : Holds (chunk_of content) content
content-Holds = record { fits = omega arith; releasable = λ e. cc; content = refl }

item_five-Holds : Holds (chunk_of item_five) item_five
item_five-Holds = record { fits = omega arith; releasable = λ e. cc; content = refl }

add_phrase_item-get_phrase_item_example :
    (t : SubPhraseIndex) × (add_phrase_item one_item 2 (chunk_of item_five) ≡ some t)
    × (get_phrase_item t 2 ≡ some (found (chunk_of item_five) (size (chunk_of content))))
    × (t.total_freq ≡ 10)
add_phrase_item-get_phrase_item_example =
    add_phrase_item-get_phrase_item one_item 2 0 0 (chunk_of item_five) (5 ∷ 0 ∷ 0 ∷ 0 ∷ []) table
      content table-Holds content-Holds item_five-Holds refl (omega arith) (omega arith)
      (omega arith)

item_found : get_phrase_item one_item 1 ≡ some (found (chunk_of item_five) 8)
unfolding get_phrase_item
item_found = refl

remove_phrase_item-get_phrase_item_example :
    (t : SubPhraseIndex) × (item : MemoryChunk) × (remove_phrase_item one_item 1
      ≡ some (t, error_ok, some item))
    × Holds item item_five
    × (get_phrase_item t 1 ≡ some (failed error_no_item))
    × (t.total_freq ≡ 0)
remove_phrase_item-get_phrase_item_example =
    remove_phrase_item-get_phrase_item one_item 1 8 (chunk_of item_five) item_five table table-Holds
      (omega arith) item_found item_five-Holds (omega arith)

add_phrase_item-other_example :
    (t : SubPhraseIndex) × (add_phrase_item one_item 2 (chunk_of item_five) ≡ some t)
    × (get_phrase_item t 1 ≡ some (found (chunk_of item_five) 8))
add_phrase_item-other_example =
    add_phrase_item-other one_item 2 1 8 0 0 (chunk_of item_five) item_five (5 ∷ 0 ∷ 0 ∷ 0 ∷ []) []
      [] table content table-Holds content-Holds item_five-Holds (omega arith) (omega arith)
      (omega arith) refl refl refl (omega arith) (omega arith)
