-- ===== src/SingleGram/Merge.antt =====
-- merge_single_gram of src/storage/ngram.cpp: the system's frequencies and the user's, added up.
pub mod Frequencies
use libpinyin.Common.{
  ℕ, zero, suc, ◌+◌, ◌%◌, ◌<◌, ◌≢◌, ◌≡◌, refl, sym, ap, ap₂, subst, ◌∙◌, inl, inr, Bool, true,
  false, Option, none, some, List, [], ◌∷◌, ◌++◌, arith, length, ltb, ◌==◌, if◌then◌else◌, ◌>>=◌,
  Bool-cases, length-append, append-nil, append_assoc, take, overwrite, drop, drop-nil, drop_all,
}
use libpinyin.Common.Words.{u32_mod, add32, encode32}
use libpinyin.MemoryChunk.{MemoryChunk, append_content, set_size, set_content, other}
use libpinyin.MemoryChunk.Growth.{Holds}
use libpinyin.MemoryChunk.Contents.{append_content-Holds, set_size-Holds, set_content-Holds}
use libpinyin.MemoryChunk.Gap.{set_size_grow}
use libpinyin.Stl.{AllAbove, IsAscending, LowerBound}
use libpinyin.TokenArray.{Item, token_of, encode_item}
use libpinyin.TokenArray.Sorted.{lookup, lookup_above}
use libpinyin.TokenArray.Bytes.{Represents, AllValid, joined, split_bytes, encode_items, before}
use libpinyin.TokenArray.Refine.{Rep, back}
use libpinyin.SingleGram.{
  SingleGramItem, freq_layout, gram_items, get_total_freq, append_all, merge_loop,
  merge_single_gram, get_freq, found_freq,
}
use libpinyin.SingleGram.Total.{
  IsU32, IsSingleGram, freq_layout-IsLayout, gram_items_lem, get_total_freq_lem,
}
use libpinyin.SingleGram.Lookup.{IsGram}
use libpinyin.SingleGram.Refine.{get_freq-lookup}

-- The items that the merge writes.
pub merged_items : List SingleGramItem → List SingleGramItem → List SingleGramItem
merged_items [] ys = ys
merged_items (x ∷ xs) [] = x ∷ xs
merged_items (x ∷ xs) (y ∷ ys) = elim (ltb x.token y.token) [
  | true ↦ x ∷ merged_items xs (y ∷ ys)
  | false ↦ elim (ltb y.token x.token) [
    | true ↦ y ∷ merged_items (x ∷ xs) ys
    | false ↦ record { token = x.token; payload = add32 x.payload y.payload } ∷ merged_items xs ys
  ]
]

-- Two frequencies of a token, where either may be missing.
abbrev pub add_found : Option ℕ → Option ℕ → Option ℕ
add_found none o = o
add_found (some f) none = some f
add_found (some f) (some g) = some (add32 f g)

pub lookup-merged_items :
    (t : ℕ) (xs ys : List SingleGramItem)
    → IsAscending token_of xs
    → IsAscending token_of ys
    → lookup t (merged_items xs ys) ≡ add_found (lookup t xs) (lookup t ys)
unfolding merged_items lookup
lookup-merged_items t [] ys p q = refl
lookup-merged_items t (x ∷ xs) [] p q = ground arith
lookup-merged_items t (x ∷ xs) (y ∷ ys) p q = ground (
  arith,
  lookup-merged_items t xs (y ∷ ys) p.1 q,
  lookup-merged_items t (x ∷ xs) ys p q.1,
  lookup-merged_items t xs ys p.1 q.1,
  lookup_above x.token t xs p.0,
  lookup_above y.token t ys q.0,
)

AllAbove-merged :
    (n : ℕ) (xs ys : List SingleGramItem)
    → AllAbove token_of n xs
    → AllAbove token_of n ys
    → AllAbove token_of n (merged_items xs ys)
unfolding merged_items
AllAbove-merged n [] ys p q = q
AllAbove-merged n (x ∷ xs) [] p q = p
AllAbove-merged n (x ∷ xs) (y ∷ ys) p q = ground (
  arith,
  AllAbove-merged n xs (y ∷ ys) p.1 q,
  AllAbove-merged n (x ∷ xs) ys p q.1,
  AllAbove-merged n xs ys p.1 q.1,
)

AllAbove-below :
    (m n : ℕ) (xs : List SingleGramItem)
    → AllAbove token_of n xs
    → m < suc n
    → AllAbove token_of m xs
AllAbove-below m n [] h k = tt
AllAbove-below m n (x ∷ xs) h k = (omega arith, AllAbove-below m n xs h.1 k)

pub merged_items-IsAscending :
    (xs ys : List SingleGramItem)
    → IsAscending token_of xs
    → IsAscending token_of ys
    → IsAscending token_of (merged_items xs ys)
unfolding merged_items
merged_items-IsAscending [] ys p q = q
merged_items-IsAscending (x ∷ xs) [] p q = p
merged_items-IsAscending (x ∷ xs) (y ∷ ys) p q = ground (
  arith,
  merged_items-IsAscending xs (y ∷ ys) p.1 q,
  merged_items-IsAscending (x ∷ xs) ys p q.1,
  merged_items-IsAscending xs ys p.1 q.1,
  AllAbove-merged x.token xs (y ∷ ys) p.0,
  AllAbove-merged y.token (x ∷ xs) ys,
  AllAbove-merged x.token xs ys p.0,
  AllAbove-below x.token y.token ys q.0,
  AllAbove-below y.token x.token xs p.0,
)

abbrev pub GramRep : List ℕ → MemoryChunk → List SingleGramItem → Type 0
GramRep head = Rep freq_layout freq_layout-IsLayout 4 head

append_item :
    (head : List ℕ) (m : MemoryChunk) (acc : List SingleGramItem) (x : SingleGramItem)
    → GramRep head m acc
    → (x.token < u32_mod) × IsU32 x.payload
    → (d : MemoryChunk) × (append_content m (encode_item freq_layout x) ≡ some d)
      × GramRep head d (acc ++ (x ∷ []))
append_item head m acc x r v =
    let front : List ℕ = before freq_layout freq_layout-IsLayout 4 head acc in
    let (d, e, h) = append_content-Holds m (encode_item freq_layout x) front r.holds in
    (
      d,
      e,
      joined freq_layout freq_layout-IsLayout 4 head acc m d [] (x ∷ [])
          (subst (GramRep head m) (sym (append-nil acc)) r) (v, tt)
          (subst (λ b. Holds d (front ++ b)) (sym (append-nil (encode_item freq_layout x))) h),
    )

append_all-Represents :
    (head : List ℕ) (m : MemoryChunk) (acc xs : List SingleGramItem)
    → GramRep head m acc
    → AllValid IsU32 xs
    → (d : MemoryChunk) × (append_all m xs ≡ some d) × GramRep head d (acc ++ xs)
unfolding append_all
append_all-Represents head m acc [] r v = (m, refl, subst (GramRep head m) (sym (append-nil acc)) r)
append_all-Represents head m acc (x ∷ xs) r v =
    let (d, e, s) = append_item head m acc x r v.0 in
    let (d', e', s') = append_all-Represents head d (acc ++ (x ∷ [])) xs s v.1 in
    (
      d',
      ap (λ o. o >>= λ k. append_all k xs) e ∙ e',
      back freq_layout freq_layout-IsLayout 4 head d' acc xs x s',
    )

pub merge_loop-Represents :
    (head : List ℕ) (m : MemoryChunk) (acc xs ys : List SingleGramItem)
    → GramRep head m acc
    → AllValid IsU32 xs
    → AllValid IsU32 ys
    → (d : MemoryChunk) × (merge_loop m xs ys ≡ some d) × GramRep head d (acc ++ merged_items xs ys)
unfolding merge_loop merged_items
merge_loop-Represents head m acc [] ys r v w = append_all-Represents head m acc ys r w
merge_loop-Represents head m acc (x ∷ xs) [] r v w = append_all-Represents head m acc (x ∷ xs) r v
merge_loop-Represents head m acc (x ∷ xs) (y ∷ ys) r v w = elim (Bool-cases (ltb x.token y.token)) [
  | inl less ↦
      let (d, e, s) = append_item head m acc x r v.0 in
      let (d', e', s') = merge_loop-Represents head d (acc ++ (x ∷ [])) xs (y ∷ ys) s v.1 w in
      rw (less, merge_loop, merged_items)
        (
          d',
          ap (λ o. o >>= λ k. merge_loop k xs (y ∷ ys)) e ∙ e',
          back freq_layout freq_layout-IsLayout 4 head d' acc (merged_items xs (y ∷ ys)) x s',
        )
  | inr more ↦ elim (Bool-cases (ltb y.token x.token)) [
    | inl greater ↦
        let (d, e, s) = append_item head m acc y r w.0 in
        let (d', e', s') = merge_loop-Represents head d (acc ++ (y ∷ [])) (x ∷ xs) ys s v w.1 in
        rw (more, greater, merge_loop, merged_items)
          (
            d',
            ap (λ o. o >>= λ k. merge_loop k (x ∷ xs) ys) e ∙ e',
            back freq_layout freq_layout-IsLayout 4 head d' acc (merged_items (x ∷ xs) ys) y s',
          )
    | inr same ↦
        let z : SingleGramItem = record { token = x.token; payload = add32 x.payload y.payload } in
        let (d, e, s) = append_item head m acc z r (v.0.0, omega arith) in
        let (d', e', s') = merge_loop-Represents head d (acc ++ (z ∷ [])) xs ys s v.1 w.1 in
        rw (more, same, merge_loop, merged_items)
          (
            d',
            ap (λ o. o >>= λ k. merge_loop k xs ys) e ∙ e',
            back freq_layout freq_layout-IsLayout 4 head d' acc (merged_items xs ys) z s',
          )
  ]
]
