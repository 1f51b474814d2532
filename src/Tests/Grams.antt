-- ===== src/Tests/Grams.antt =====
-- src/storage/ngram.cpp on a gram with two items.
use libpinyin.Common.{
  ℕ, ◌+◌, ◌%◌, ◌≡◌, refl, true, false, none, some, List, [], ◌∷◌, arith, length, not, ◌==◌,
  if◌then◌else◌, ◌>>=◌,
}
use libpinyin.Common.Words.{u32_mod, add32}
use libpinyin.MemoryChunk.{MemoryChunk, malloced}
use libpinyin.MemoryChunk.Growth.{Holds}
use libpinyin.Stl.{LowerBound}
use libpinyin.TokenArray.{Item, token_of, encode_item, items}
use libpinyin.SingleGram.{
  SingleGramItem, get_freq, insert_freq, remove_freq, set_freq, mask_out, merge_single_gram, search,
  get_total_freq,
}
use libpinyin.SingleGram.Total.{IsSingleGram}
use libpinyin.SingleGram.Lookup.{
  IsGram, insert_freq-get_freq, remove_freq-get_freq, set_freq-get_freq,
}
use libpinyin.SingleGram.Mask.{kept, sum_freq, mask_out-IsSingleGram}
use libpinyin.SingleGram.Merge.Frequencies.{
  added, merge_single_gram-get_freq, merge_single_gram-copy,
}
use libpinyin.SingleGram.Refine.{search-in_range}
use libpinyin.Tests.Bound.{walk_bound, walk}
use libpinyin.Tests.Chunk.{borrowed, three_bytes}

abbrev two_items : List SingleGramItem
two_items = record { token = 16777218; payload = 5 } ∷ record { token = 33554433; payload = 7 } ∷ []

abbrev two_bytes : List ℕ
two_bytes = 12 ∷ 0 ∷ 0 ∷ 0 ∷ 2 ∷ 0 ∷ 0 ∷ 1 ∷ 5 ∷ 0 ∷ 0 ∷ 0 ∷ 1 ∷ 0 ∷ 0 ∷ 2 ∷ 7 ∷ 0 ∷ 0 ∷ 0 ∷ []

abbrev two_gram : MemoryChunk
two_gram = record { buffer = two_bytes; data_end = 20; free_func = malloced }

abbrev bound : LowerBound {A = Item ℕ} token_of
bound = walk_bound token_of

two_gram-IsSingleGram : IsSingleGram two_gram 12 two_items
unfolding encode_item
two_gram-IsSingleGram = record {
  stored = record {
    holds = record { fits = omega arith; releasable = λ e. cc; content = refl };
    length_header = refl;
    valid = omega arith;
  };
  total_fits = omega arith;
  ascending = omega arith;
}

two_gram-IsGram : IsGram two_gram 12
two_gram-IsGram = (two_items, two_gram-IsSingleGram)

program : Unit {0}
unfolding items get_freq insert_freq remove_freq set_freq mask_out merge_single_gram walk
program = tt

get_freq_runs : get_freq bound two_gram 33554433 ≡ (7, true)
unfolding program
get_freq_runs = refl

merge_runs :
    (merge_single_gram borrowed (some two_gram) (some two_gram) >>= λ r. get_total_freq r.0)
    ≡ some 24
unfolding program
merge_runs = refl

insert_freq-get_freq_example :
    (d : MemoryChunk) × (insert_freq bound two_gram 20 3
      ≡ some (d, not (get_freq bound two_gram 20).1))
    × IsGram d 12
    × ((u : ℕ)
        → get_freq bound d u ≡ (
            if 20 == u
            then if (get_freq bound two_gram u).1 then get_freq bound two_gram u else (3, true)
            else get_freq bound two_gram u))
insert_freq-get_freq_example =
    insert_freq-get_freq bound two_gram 12 two_gram-IsGram 20 3 (omega arith) (omega arith)

remove_freq-get_freq_example :
    (d : MemoryChunk) × (remove_freq bound two_gram 33554433
      ≡ some (d, get_freq bound two_gram 33554433))
    × IsGram d 12
    × ((u : ℕ)
        → get_freq bound d u ≡ (if 33554433 == u then (0, false) else get_freq bound two_gram u))
remove_freq-get_freq_example = remove_freq-get_freq bound two_gram 12 two_gram-IsGram 33554433

set_freq-get_freq_example :
    (d : MemoryChunk) × (set_freq bound two_gram 33554433 9
      ≡ (d, (get_freq bound two_gram 33554433).1))
    × IsGram d 12
    × ((u : ℕ)
        → get_freq bound d u ≡ (
            if 33554433 == u
            then if (get_freq bound two_gram u).1 then (9, true) else (0, false)
            else get_freq bound two_gram u))
set_freq-get_freq_example =
    set_freq-get_freq bound two_gram 12 two_gram-IsGram 33554433 9 (omega arith)

-- The items of library 1 are dropped.
mask_out-IsSingleGram_example :
    (d : MemoryChunk) × (removed : ℕ) × (mask_out two_gram 0x0F000000 0x01000000
      ≡ some (d, removed))
    × IsSingleGram d
        (sum_freq (kept 0x0F000000 0x01000000 two_items) % u32_mod)
        (kept 0x0F000000 0x01000000 two_items)
    × (removed + length (kept 0x0F000000 0x01000000 two_items) ≡ length two_items)
mask_out-IsSingleGram_example =
    mask_out-IsSingleGram 0x0F000000 0x01000000 two_gram 12 two_items two_gram-IsSingleGram refl

borrowed-Holds : Holds borrowed three_bytes
borrowed-Holds = record { fits = omega arith; releasable = λ e. cc; content = refl }

merge_single_gram-get_freq_example :
    (d : MemoryChunk) × (merge_single_gram borrowed (some two_gram) (some two_gram)
      ≡ some (d, true))
    × IsGram d (add32 12 12)
    × ((t : ℕ) → get_freq bound d t ≡ added (get_freq bound two_gram t) (get_freq bound two_gram t))
merge_single_gram-get_freq_example =
    merge_single_gram-get_freq bound borrowed three_bytes borrowed-Holds two_gram two_gram 12 12
      two_gram-IsGram two_gram-IsGram

merge_single_gram-copy_example :
    (d : MemoryChunk) × (merge_single_gram borrowed none (some two_gram) ≡ some (d, true))
    × (merge_single_gram borrowed (some two_gram) none ≡ some (d, true))
    × IsGram d 12
    × ((t : ℕ) → get_freq bound d t ≡ get_freq bound two_gram t)
merge_single_gram-copy_example =
    merge_single_gram-copy bound borrowed three_bytes borrowed-Holds two_gram 12 two_gram-IsGram

search-in_range_example :
    search (λ f total. f) bound two_gram 16777216 33554432
    ≡ some (record { token = 16777218; freq = 5 } ∷ [])
search-in_range_example =
    search-in_range bound two_gram 12 two_items two_gram-IsSingleGram (λ f total. f) 16777216
      33554432
