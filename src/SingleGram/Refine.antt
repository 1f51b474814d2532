-- ===== src/SingleGram/Refine.antt =====
-- src/storage/ngram.cpp as a map from tokens to frequencies.
use libpinyin.Common.{ℕ, ◌<◌, ◌≡◌, ap, not, some, List, map, ◌>>=◌}
use libpinyin.Common.Words.{u32_mod, encode32}
use libpinyin.MemoryChunk.{MemoryChunk}
use libpinyin.Stl.{LowerBound}
use libpinyin.TokenArray.{Item, token_of}
use libpinyin.TokenArray.Sorted.{
  lookup, insert_sorted, erase, update, is_some, insert_sorted-IsAscending, erase-IsAscending,
  update-IsAscending,
}
use libpinyin.TokenArray.Located.{
  insert_from_bound, remove_from_bound, set_from_bound, get_loop-from_bound, search_from_bound,
  in_range,
}
use libpinyin.SingleGram.{
  SingleGramItem, freq_layout, found_freq, insert_freq, remove_freq, get_freq, set_freq, search,
}
use libpinyin.SingleGram.Total.{
  IsSingleGram, freq_layout-IsLayout, gram_items_lem, get_total_freq_lem,
}

module _ (lb : LowerBound {A = Item ℕ} token_of) (c : MemoryChunk) (total : ℕ)
    (xs : List SingleGramItem) (g : IsSingleGram c total xs) where
  pub get_freq-lookup : (t : ℕ) → get_freq lb c t ≡ found_freq (lookup t xs)
  unfolding get_freq
  get_freq-lookup t =
      rw (gram_items_lem c total xs g) (ap (found_freq) (get_loop-from_bound lb xs g.ascending t))

  pub insert_freq-IsSingleGram :
      (t freq : ℕ)
      → t < u32_mod
      → freq < u32_mod
      → (d : MemoryChunk) × (insert_freq lb c t freq ≡ some (d, not (is_some (lookup t xs))))
        × IsSingleGram d total (insert_sorted (record { token = t; payload = freq }) xs)
  unfolding insert_freq
  insert_freq-IsSingleGram t freq p q =
      let item : SingleGramItem = record { token = t; payload = freq } in
      let (d, e, r) =
        insert_from_bound lb freq_layout freq_layout-IsLayout 4 (encode32 total) c xs g.ascending
          g.stored item (p, q) in
      (
        d,
        rw (gram_items_lem c total xs g) e,
        record {
          stored = r;
          total_fits = g.total_fits;
          ascending = insert_sorted-IsAscending item xs g.ascending;
        },
      )

  pub remove_freq-IsSingleGram :
      (t : ℕ)
      → (d : MemoryChunk) × (remove_freq lb c t ≡ some (d, found_freq (lookup t xs)))
        × IsSingleGram d total (erase t xs)
  unfolding remove_freq
  remove_freq-IsSingleGram t =
      let (d, e, r) =
        remove_from_bound lb freq_layout freq_layout-IsLayout 4 (encode32 total) c xs g.ascending
          g.stored t in
      (
        d,
        rw (gram_items_lem c total xs g) (ap (λ o. o >>= λ r. some (r.0, found_freq r.1)) e),
        record {
          stored = r;
          total_fits = g.total_fits;
          ascending = erase-IsAscending t xs g.ascending;
        },
      )

  pub set_freq-IsSingleGram :
      (t freq : ℕ)
      → freq < u32_mod
      → (d : MemoryChunk) × (set_freq lb c t freq ≡ (d, is_some (lookup t xs)))
        × IsSingleGram d total (update t freq xs)
  unfolding set_freq
  set_freq-IsSingleGram t freq q =
      let (d, e, r) =
        set_from_bound lb freq_layout freq_layout-IsLayout 4 (encode32 total) c xs g.ascending
          g.stored t freq q in
      (
        d,
        rw (gram_items_lem c total xs g) e,
        record {
          stored = r;
          total_fits = g.total_fits;
          ascending = update-IsAscending t freq xs g.ascending;
        },
      )

  -- The items with a token in the range, each with its share of the sum, in the order of the
  -- tokens.
  pub search-in_range :
      {F : Type 0} (quotient : ℕ → ℕ → F) (range_begin range_end : ℕ)
      → search quotient lb c range_begin range_end
        ≡ some (
            map
              (λ x. record { token = x.token; freq = quotient x.payload total })
              (in_range range_begin range_end xs))
  unfolding search
  search-in_range quotient range_begin range_end =
      rw (gram_items_lem c total xs g, get_total_freq_lem c total xs g)
        (ap (λ ys. some (map (λ x. record { token = x.token; freq = quotient x.payload total }) ys))
          (search_from_bound lb range_begin range_end xs g.ascending))
