-- ===== src/SingleGram/Mask.antt =====
-- SingleGram::mask_out of src/storage/ngram.cpp: dropping the items of a phrase library.
use libpinyin.Common.{
  ℕ, suc, ◌+◌, ◌%◌, ◌≡◌, refl, ap, subst, ◌∙◌, inl, inr, none, some, List, [], ◌∷◌, ◌++◌, arith,
  length, ◌==◌, if◌then◌else◌, ◌>>=◌, Bool-cases, bit_and, length-append,
}
use libpinyin.Common.Words.{sub32, u32_mod, encode32}
use libpinyin.MemoryChunk.{MemoryChunk}
use libpinyin.Stl.{AllAbove, IsAscending}
use libpinyin.TokenArray.{token_of}
use libpinyin.TokenArray.Sorted.{lookup}
use libpinyin.TokenArray.Bytes.{Represents, AllValid}
use libpinyin.TokenArray.Refine.{Rep, remove_at, passed, back}
use libpinyin.SingleGram.{SingleGramItem, freq_layout, set_total_freq, mask_loop, mask_out}
use libpinyin.SingleGram.Total.{
  IsU32, IsSingleGram, freq_layout-IsLayout, gram_items_lem, get_total_freq_lem, set_total_freq_lem,
}

-- The items that stay, those that go, and the sum of some items.
unfoldable pub kept : ℕ → ℕ → List SingleGramItem → List SingleGramItem
kept mask value [] = []
kept mask value (x ∷ xs) =
    if bit_and x.token mask == value then kept mask value xs else x ∷ kept mask value xs

abbrev pub sum_freq : List SingleGramItem → ℕ
sum_freq [] = 0
sum_freq (x ∷ xs) = x.payload + sum_freq xs

-- What the loop makes of the sum and of the count.
left_total : ℕ → ℕ → List SingleGramItem → ℕ → ℕ
left_total mask value [] total = total
left_total mask value (x ∷ xs) total =
    left_total mask value xs
      (if bit_and x.token mask == value then sub32 total x.payload else total)

dropped : ℕ → ℕ → List SingleGramItem → ℕ
dropped mask value [] = 0
dropped mask value (x ∷ xs) =
    if bit_and x.token mask == value then suc (dropped mask value xs) else dropped mask value xs

module _ (mask value : ℕ) where
  mask_loop-Represents :
      (head : List ℕ) (c : MemoryChunk) (i : ℕ) (ys zs : List SingleGramItem) (total removed : ℕ)
      → i ≡ length ys
      → Rep freq_layout freq_layout-IsLayout 4 head c (ys ++ zs)
      → (d : MemoryChunk) × (mask_loop mask value c i zs total removed
          ≡ some (d, left_total mask value zs total, removed + dropped mask value zs))
        × Rep freq_layout freq_layout-IsLayout 4 head d (ys ++ kept mask value zs)
  unfolding mask_loop kept left_total dropped
  mask_loop-Represents head c i ys [] total removed e r =
      (c, ap (λ n. some (c, total, n)) (omega arith), r)
  mask_loop-Represents head c i ys (x ∷ zs) total removed e r =
      elim (Bool-cases (bit_and x.token mask == value)) [
        | inl gone ↦
            let (d, done, s) = remove_at freq_layout freq_layout-IsLayout 4 head c i ys zs x e r in
            let (d', done', s') =
              mask_loop-Represents head d i ys zs (sub32 total x.payload) (suc removed) e s in
            rw (gone, mask_loop, kept, left_total, dropped)
              (
                d',
                ap
                      (λ o. o >>= λ k.
                        mask_loop mask value k i zs (sub32 total x.payload) (suc removed))
                      done
                    ∙ done'
                    ∙ ap (λ n. some (d', left_total mask value zs (sub32 total x.payload), n))
                        (omega arith),
                s',
              )
        | inr stays ↦
            let (d, done, s) =
              mask_loop-Represents head c (suc i) (ys ++ (x ∷ [])) zs total removed
                (omega (arith, length-append ys (x ∷ [])))
                (passed freq_layout freq_layout-IsLayout 4 head c ys zs x r) in
            rw (stays, mask_loop, kept, left_total, dropped)
              (d, done, back freq_layout freq_layout-IsLayout 4 head d ys (kept mask value zs) x s)
      ]

  length-kept :
      (xs : List SingleGramItem) → dropped mask value xs + length (kept mask value xs) ≡ length xs
  unfolding kept dropped
  length-kept [] = omega arith
  length-kept (x ∷ xs) = ground (arith, length-kept xs)

  left_total-sum :
      (before total : ℕ) (xs : List SingleGramItem)
      → AllValid IsU32 xs
      → total ≡ (before + sum_freq xs) % u32_mod
      → left_total mask value xs total ≡ (before + sum_freq (kept mask value xs)) % u32_mod
  unfolding left_total kept
  left_total-sum before total [] v e = e
  left_total-sum before total (x ∷ xs) v e = elim (Bool-cases (bit_and x.token mask == value)) [
    | inl gone ↦
        rw (gone, left_total, kept)
          (left_total-sum before (sub32 total x.payload) xs v.1 (omega arith))
    | inr stays ↦
        rw (stays, left_total, kept)
          (left_total-sum (before + x.payload) total xs v.1 (omega arith)
            ∙ ap (λ n. n % u32_mod) (omega arith))
  ]

  AllAbove-kept :
      (n : ℕ) (xs : List SingleGramItem)
      → AllAbove token_of n xs
      → AllAbove token_of n (kept mask value xs)
  unfolding kept
  AllAbove-kept n [] h = tt
  AllAbove-kept n (x ∷ xs) h = ground (arith, AllAbove-kept n xs h.1)

  kept-IsAscending :
      (xs : List SingleGramItem)
      → IsAscending token_of xs
      → IsAscending token_of (kept mask value xs)
  unfolding kept
  kept-IsAscending [] h = tt
  kept-IsAscending (x ∷ xs) h =
      ground (arith, kept-IsAscending xs h.1, AllAbove-kept x.token xs h.0)

  -- A token of another library keeps its frequency, and one of the library has none.
  pub lookup-kept :
      (t : ℕ) (xs : List SingleGramItem)
      → lookup t (kept mask value xs) ≡ (if bit_and t mask == value then none else lookup t xs)
  unfolding kept lookup
  lookup-kept t [] = ground arith
  lookup-kept t (x ∷ xs) = ground (arith, lookup-kept t xs)

  -- mask_out drops exactly the items whose token matches under the mask, and reports their number.
  -- Where the sum was the sum of the items, modulo 2 ^ 32, it is so again.
  pub mask_out-IsSingleGram :
      (c : MemoryChunk) (total : ℕ) (xs : List SingleGramItem)
      → IsSingleGram c total xs
      → total ≡ sum_freq xs % u32_mod
      → (d : MemoryChunk) × (removed : ℕ) × (mask_out c mask value ≡ some (d, removed))
        × IsSingleGram d (sum_freq (kept mask value xs) % u32_mod) (kept mask value xs)
        × (removed + length (kept mask value xs) ≡ length xs)
  unfolding mask_out
  mask_out-IsSingleGram c total xs g e =
      let total' : ℕ = left_total mask value xs total in
      let rest : ℕ = sum_freq (kept mask value xs) % u32_mod in
      let sum : total' ≡ rest =
        left_total-sum 0 total xs g.stored.valid (e ∙ ap (λ n. n % u32_mod) (omega arith))
        ∙ ap (λ n. n % u32_mod) (omega arith) in
      let (d, done, r) = mask_loop-Represents (encode32 total) c 0 [] xs total 0 refl g.stored in
      let (d', done', r') =
        set_total_freq_lem d total total' (kept mask value xs) (omega arith) r in
      (
        d',
        dropped mask value xs,
        rw (get_total_freq_lem c total xs g, gram_items_lem c total xs g)
            (ap (λ o. o >>= λ r. set_total_freq r.0 r.1 >>= λ d. some (d, r.2)) done
              ∙ ap (λ o. o >>= λ k. some (k, 0 + dropped mask value xs)) done'
              ∙ ap (λ n. some (d', n)) (omega arith)),
        record {
          stored =
              subst (λ n. Represents freq_layout IsU32 4 d' (encode32 n) (kept mask value xs)) sum
                r';
          total_fits = omega arith;
          ascending = kept-IsAscending xs g.ascending;
        },
        length-kept xs,
      )
