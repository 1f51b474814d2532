-- ===== src/SingleGram/Merge/Frequencies.antt =====
-- merge_single_gram of src/storage/ngram.cpp by the frequencies that get_freq finds in its result.
use libpinyin.Common.{
  ℕ, ◌+◌, ◌≡◌, refl, sym, ap, ap₂, subst, ◌∙◌, Bool, true, false, Option, none, some, List, [],
  ◌++◌, arith, length, append-nil, take, drop-nil, drop_all,
}
use libpinyin.Common.Words.{add32, encode32}
use libpinyin.MemoryChunk.{MemoryChunk, set_size, set_content}
use libpinyin.MemoryChunk.Growth.{Holds}
use libpinyin.MemoryChunk.Contents.{set_size-Holds, set_content-Holds}
use libpinyin.MemoryChunk.Gap.{set_size_grow}
use libpinyin.Stl.{LowerBound}
use libpinyin.TokenArray.{Item, token_of}
use libpinyin.TokenArray.Sorted.{lookup}
use libpinyin.SingleGram.{merge_single_gram, get_freq, found_freq}
use libpinyin.SingleGram.Total.{IsSingleGram, gram_items_lem, get_total_freq_lem}
use libpinyin.SingleGram.Lookup.{IsGram}
use libpinyin.SingleGram.Refine.{get_freq-lookup}
use libpinyin.SingleGram.Merge.{
  merged_items, add_found, lookup-merged_items, merged_items-IsAscending, merge_loop-Represents,
  GramRep,
}

-- Two results of get_freq for a token, added up.
abbrev pub added : ℕ × Bool → ℕ × Bool → ℕ × Bool
added (f, true) (g, true) = (add32 f g, true)
added (f, true) (g, false) = (f, true)
added (f, false) r = r

found_added : (o p : Option ℕ) → found_freq (add_found o p) ≡ added (found_freq o) (found_freq p)
found_added none p = refl
found_added (some f) none = refl
found_added (some f) (some g) = refl

-- `merged` is cleared and takes the sum of the two sums.
cleared :
    (merged : MemoryChunk) (ms : List ℕ) (total : ℕ)
    → Holds merged ms
    → (m : MemoryChunk) × (m' : MemoryChunk) × (t : MemoryChunk) × (set_size merged 0 ≡ some m)
      × (set_size m 4 ≡ some m')
      × (set_content m' 0 (encode32 total) ≡ some t)
      × GramRep (encode32 total) t []
cleared merged ms total h =
    let (m, e, k) = set_size-Holds merged 0 ms h (omega arith) in
    let (m', gap, e', n, k') = set_size_grow m 4 [] k (omega arith) in
    let (t, e'', k'') = set_content-Holds m' 0 (encode32 total) gap k' (omega arith) in
    (
      m,
      m',
      t,
      e,
      e',
      e'',
      record {
        holds = subst (λ b. Holds t (encode32 total ++ b)) (drop_all 4 gap (omega arith)) k'';
        length_header = refl;
        valid = tt;
      },
    )

module _ (lb : LowerBound {A = Item ℕ} token_of) (merged : MemoryChunk) (ms : List ℕ)
    (h : Holds merged ms) where
  -- The result has the tokens of either gram, each with the sum of its frequencies, and the sum
  -- of the two sums, all modulo 2 ^ 32. What `merged` held before does not matter.
  pub merge_single_gram-get_freq :
      (system user : MemoryChunk) (system_total user_total : ℕ)
      → IsGram system system_total
      → IsGram user user_total
      → (d : MemoryChunk) × (merge_single_gram merged (some system) (some user) ≡ some (d, true))
        × IsGram d (add32 system_total user_total)
        × ((t : ℕ) → get_freq lb d t ≡ added (get_freq lb system t) (get_freq lb user t))
  unfolding merge_single_gram
  merge_single_gram-get_freq system user system_total user_total (xs, g) (ys, k) =
      let total : ℕ = add32 system_total user_total in
      let (m, m', t, e, e', e'', r) = cleared merged ms total h in
      let (d, done, s) =
        merge_loop-Represents (encode32 total) t [] xs ys r g.stored.valid k.stored.valid in
      let gram : IsSingleGram d total (merged_items xs ys) = record {
        stored = s;
        total_fits = omega arith;
        ascending = merged_items-IsAscending xs ys g.ascending k.ascending;
      } in
      (
        d,
        rw (
          e,
          e',
          get_total_freq_lem system system_total xs g,
          get_total_freq_lem user user_total ys k,
          gram_items_lem system system_total xs g,
          gram_items_lem user user_total ys k,
          e'',
          done,
        ),
        (merged_items xs ys, gram),
        λ t.
            get_freq-lookup lb d total _ gram t
            ∙ ap found_freq (lookup-merged_items t xs ys g.ascending k.ascending)
            ∙ found_added (lookup t xs) (lookup t ys)
            ∙ ap₂ added (sym (get_freq-lookup lb system system_total xs g t))
                (sym (get_freq-lookup lb user user_total ys k t)),
      )

  -- With one null pointer the result is a copy of the other gram.
  pub merge_single_gram-copy :
      (c : MemoryChunk) (total : ℕ)
      → IsGram c total
      → (d : MemoryChunk) × (merge_single_gram merged none (some c) ≡ some (d, true))
        × (merge_single_gram merged (some c) none ≡ some (d, true))
        × IsGram d total
        × ((t : ℕ) → get_freq lb d t ≡ get_freq lb c t)
  unfolding merge_single_gram
  merge_single_gram-copy c total (xs, g) =
      let bytes : List ℕ = take c.data_end c.buffer in
      let (m, e, k) = set_size-Holds merged 0 ms h (omega arith) in
      let (d, e', k') = set_content-Holds m 0 bytes [] k (omega arith) in
      let gram : IsSingleGram d total xs = record {
        stored = record {
          holds =
              subst (Holds d)
                (ap (◌++◌ bytes) (drop-nil (0 + length bytes))
                  ∙ append-nil bytes
                  ∙ g.stored.holds.content)
                k';
          length_header = refl;
          valid = g.stored.valid;
        };
        total_fits = g.total_fits;
        ascending = g.ascending;
      } in
      (
        d,
        rw (e, e'),
        rw (e, e'),
        (xs, gram),
        λ t. get_freq-lookup lb d total xs gram t ∙ sym (get_freq-lookup lb c total xs g t),
      )
