-- ===== src/SingleGram/Total.antt =====
-- What a chunk of src/storage/ngram.cpp holds, and the sum in front of its items.
use libpinyin.Common.{ℕ, ◌<◌, ◌≡◌, refl, ap, ◌∙◌, some, List, ◌++◌, arith, length-append}
use mathlib.Core.Option
use libpinyin.Common.Words.{u32_mod, encode32, decode32, decode32-encode32}
use libpinyin.MemoryChunk.{MemoryChunk}
use libpinyin.MemoryChunk.Contents.{get_content-Holds, set_content-Holds}
use libpinyin.Stl.{IsAscending}
use libpinyin.TokenArray.{token_of}
use libpinyin.TokenArray.Bytes.{IsLayout, Represents, encode_items, items-Represents}
use libpinyin.SingleGram.{SingleGramItem, freq_layout, gram_items, get_total_freq, set_total_freq}

abbrev pub IsU32 : ℕ → Type 0
IsU32 n = n < u32_mod

pub freq_layout-IsLayout : IsLayout freq_layout IsU32
freq_layout-IsLayout = record {
  length-encode = λ p. refl;
  decode-encode = λ p v. decode32-encode32 p v;
}

-- The bytes of a sum and of items with rising tokens, all of 32 bits.
pub record IsSingleGram (c : MemoryChunk) (total : ℕ) (xs : List SingleGramItem) : Type 0 where
  pub stored : Represents freq_layout IsU32 4 c (encode32 total) xs
  pub total_fits : total < u32_mod
  pub ascending : IsAscending token_of xs

pub gram_items_lem :
    (c : MemoryChunk) (total : ℕ) (xs : List SingleGramItem)
    → IsSingleGram c total xs
    → gram_items c ≡ xs
gram_items_lem c total xs g =
    items-Represents freq_layout freq_layout-IsLayout 4 c (encode32 total) xs g.stored

pub get_total_freq_lem :
    (c : MemoryChunk) (total : ℕ) (xs : List SingleGramItem)
    → IsSingleGram c total xs
    → get_total_freq c ≡ some total
unfolding get_total_freq
get_total_freq_lem c total xs g =
    let body : List ℕ = encode_items freq_layout xs in
    ap (Option.map decode32) (
      get_content-Holds c 0 4 (encode32 total ++ body) g.stored.holds
        (omega (arith, length-append (encode32 total) body)))
    ∙ ap some (decode32-encode32 total g.total_fits)

-- The sum is replaced and the items stay.
pub set_total_freq_lem :
    (c : MemoryChunk) (old new : ℕ) (xs : List SingleGramItem)
    → new < u32_mod
    → Represents freq_layout IsU32 4 c (encode32 old) xs
    → (d : MemoryChunk) × (set_total_freq c new ≡ some d)
      × Represents freq_layout IsU32 4 d (encode32 new) xs
unfolding set_total_freq
set_total_freq_lem c old new xs small r =
    let (d, e, h) =
      set_content-Holds c 0 (encode32 new) (encode32 old ++ encode_items freq_layout xs) r.holds
        (omega arith) in
    (d, e, record { holds = h; length_header = refl; valid = r.valid })
