-- ===== src/SubPhraseIndex/Store.antt =====
-- SubPhraseIndex::store of src/storage/phrase_index.cpp against the bytes of a stored index.
use libpinyin.Common.{
  ℕ, ◌+◌, ◌%◌, ◌<◌, ◌≡◌, refl, sym, ap, subst, ◌∙◌, some, List, [], ◌∷◌, ◌++◌, arith, length, take,
  drop, length-append, append_assoc, overwrite_middle, bind_some, take-append-drop, length-take,
  length-drop,
}
use libpinyin.Common.Words.{encode32, u32_mod}
use libpinyin.MemoryChunk.{MemoryChunk, set_content}
use libpinyin.MemoryChunk.Growth.{Holds, length_of_Holds}
use libpinyin.MemoryChunk.Contents.{set_content-Holds, set_content_at_end}
use libpinyin.MemoryChunk.Gap.{set_content_beyond}
use libpinyin.SubPhraseIndex.{SubPhraseIndex, store, store_tables, c_separate}

abbrev pub separator : List ℕ
separator = c_separate ∷ []

-- The three offsets of a stored index, and its bytes.
module _ (total_freq : ℕ) (is cs : List ℕ) where
  abbrev pub index_two : ℕ
  index_two = 18 + length is

  abbrev pub index_three : ℕ
  index_three = 19 + length is + length cs

  abbrev pub image : List ℕ
  image =
      encode32 total_freq
      ++ (encode32 17 ++ (encode32 index_two ++ (encode32 index_three ++ (c_separate ∷ []))))
      ++ (is ++ ((c_separate ∷ []) ++ (cs ++ (c_separate ∷ []))))

-- A write over a part of the content.
rewrite_middle :
    (c : MemoryChunk) (i : ℕ) (xs old bytes ys : List ℕ)
    → length xs ≡ i
    → length old ≡ length bytes
    → Holds c (xs ++ (old ++ ys))
    → (d : MemoryChunk) × (set_content c i bytes ≡ some d) × Holds d (xs ++ (bytes ++ ys))
rewrite_middle c i xs old bytes ys e f h =
    let (d, k, g) =
      set_content-Holds c i bytes (xs ++ (old ++ ys)) h
        (omega (arith, length-append xs (old ++ ys))) in
    (d, k, subst (Holds d) (overwrite_middle i xs old bytes ys e f) g)

reassociate : (a b c d : List ℕ) → ((a ++ b) ++ c) ++ d ≡ a ++ ((b ++ c) ++ d)
reassociate a b c d =
    append_assoc (a ++ b) c d ∙ append_assoc a b (c ++ d) ∙ ap (◌++◌ a) (sym (append_assoc b c d))

-- The gap that the second write of store leaves, in three words.
split_gap :
    (gap : List ℕ)
    → length gap ≡ 12
    → (a b c : List ℕ) × (gap ≡ a ++ (b ++ c)) × (length a ≡ 4) × (length b ≡ 4) × (length c ≡ 4)
split_gap gap e = (
  take 4 gap,
  take 4 (drop 4 gap),
  drop 4 (drop 4 gap),
  sym (take-append-drop 4 gap) ∙ ap (◌++◌ (take 4 gap)) (sym (take-append-drop 4 (drop 4 gap))),
  omega (arith, length-take 4 gap),
  omega (arith, length-take 4 (drop 4 gap), length-drop 4 gap),
  omega (arith, length-drop 4 (drop 4 gap), length-drop 4 gap),
)

module _ (total_freq : ℕ) where
  -- The first three writes: the header with two words still open.
  header_written :
      (c : MemoryChunk)
      → Holds c []
      → (d1 d2 d3 : MemoryChunk) × (b : List ℕ) × (e : List ℕ) × (set_content c 0
            (encode32 total_freq)
          ≡ some d1)
        × (set_content d1 16 separator ≡ some d2)
        × (set_content d2 4 (encode32 17) ≡ some d3)
        × (length b ≡ 4)
        × (length e ≡ 4)
        × Holds d3 (encode32 total_freq ++ (encode32 17 ++ (b ++ (e ++ separator))))
  header_written c h =
      let t : List ℕ = encode32 total_freq in
      let (d1, e1, h1) = set_content_at_end c 0 t [] h refl in
      let (d2, gap, e2, l2, h2) = set_content_beyond d1 16 separator t h1 (omega arith) in
      let (a, b, e, k, la, lb, le) = split_gap gap (omega arith) in
      let order : gap ++ separator ≡ a ++ (b ++ (e ++ separator)) =
        ap (λ g. g ++ separator) k
        ∙ append_assoc a (b ++ e) separator
        ∙ ap (◌++◌ a) (append_assoc b e separator) in
      let (d3, e3, h3) =
        rewrite_middle d2 4 t a (encode32 17) (b ++ (e ++ separator)) refl la
          (subst (λ x. Holds d2 (t ++ x)) order h2) in
      (d1, d2, d3, b, e, e1, e2, e3, lb, le, h3)

-- The same write, its place spelled otherwise.
at_place :
    (c : MemoryChunk) (bytes : List ℕ) {i j : ℕ} {d : MemoryChunk}
    → i ≡ j
    → set_content c i bytes ≡ some d
    → set_content c j bytes ≡ some d
at_place c bytes {d} e h = subst (λ k. set_content c k bytes ≡ some d) e h

-- The nine writes, one after the other.
store_tables-Holds :
    (total_freq : ℕ) (new_chunk : MemoryChunk) (is cs : List ℕ)
    → Holds new_chunk []
    → length is + length cs + 19 < u32_mod
    → (c : MemoryChunk) × (store_tables total_freq new_chunk 0 is (length is) cs (length cs)
        ≡ some c)
      × Holds c (image total_freq is cs)
unfolding store_tables
store_tables-Holds total_freq new_chunk is cs hn small =
    let t : List ℕ = encode32 total_freq in
    let (d1, d2, d3, b, e, e1, e2, e3, lb, le, h3) = header_written total_freq new_chunk hn in
    let header : List ℕ = t ++ (encode32 17 ++ (b ++ (e ++ separator))) in
    let header_length : length header ≡ 17 =
      omega (arith, length-append b (e ++ separator), length-append e separator) in
    let (d4, e4, h4) = set_content_at_end d3 17 is header h3 header_length in
    let (d5, e5, h5) =
      set_content_at_end d4 (17 + length is) separator (header ++ is) h4
        (omega (arith, header_length, length-append header is)) in
    let tail : List ℕ = (separator ++ is) ++ separator in
    let front : List ℕ = t ++ encode32 17 in
    let order : ((b ++ (e ++ separator)) ++ is) ++ separator ≡ b ++ (e ++ tail) =
      reassociate b (e ++ separator) is separator
      ∙ ap (◌++◌ b) (reassociate e separator is separator) in
    let (d6, e6, h6) =
      rewrite_middle d5 8 front b (encode32 (18 + length is)) (e ++ tail) refl lb
        (subst (λ x. Holds d5 (front ++ x)) order h5) in
    let upto : List ℕ = (front ++ encode32 (18 + length is)) ++ (e ++ tail) in
    let upto_length : length upto ≡ 18 + length is =
      omega (arith, length-append e tail, length-append (separator ++ is) separator) in
    let (d7, e7, h7) = set_content_at_end d6 (18 + length is) cs upto h6 upto_length in
    let (d8, e8, h8) =
      set_content_at_end d7 (18 + length is + length cs) separator (upto ++ cs) h7
        (omega (arith, upto_length, length-append upto cs)) in
    let (d9, e9, h9) =
      rewrite_middle d8 12 (front ++ encode32 (18 + length is)) e
        (encode32 (19 + length is + length cs)) ((tail ++ cs) ++ separator) refl le
        (subst (λ x. Holds d8 ((front ++ encode32 (18 + length is)) ++ x))
          (reassociate e tail cs separator) h8) in
    let mod_two : (17 + length is + 1) % u32_mod ≡ 18 + length is = omega arith in
    let mod_three : (17 + length is + 1 + length cs + 1) % u32_mod ≡ 19 + length is + length cs =
      omega arith in
    (
      d9,
      bind_some _ e1 (
          bind_some _ e2 (
            bind_some _ e3 (
              bind_some _ e4 (
                bind_some _ e5 (
                  bind_some _
                    (subst (λ n. set_content d5 8 (encode32 n) ≡ some d6) (sym mod_two) e6)
                    (bind_some _ (at_place d6 cs (omega arith) e7) (
                      bind_some _ (at_place d7 separator (omega arith) e8) (
                        subst (λ n. set_content d8 12 (encode32 n) ≡ some d9) (sym mod_three)
                          e9)))))))),
      subst
          (λ x. Holds d9 (
            front
            ++ (encode32 (18 + length is)
                ++ (encode32 (19 + length is + length cs) ++ (separator ++ x)))))
          (append_assoc (is ++ separator) cs separator
            ∙ append_assoc is separator (cs ++ separator))
          h9,
    )

-- store into an empty chunk writes the image of the index.
pub store-Holds :
    (s : SubPhraseIndex) (new_chunk : MemoryChunk) (is cs : List ℕ)
    → Holds s.phrase_index is
    → Holds s.phrase_content cs
    → Holds new_chunk []
    → length is + length cs + 19 < u32_mod
    → (c : MemoryChunk) × (store s new_chunk 0 ≡ some c) × Holds c (image s.total_freq is cs)
unfolding store
store-Holds s new_chunk is cs hi hc hn small =
    let ni : s.phrase_index.data_end ≡ length is = omega (arith, length_of_Holds hi) in
    let nc : s.phrase_content.data_end ≡ length cs = omega (arith, length_of_Holds hc) in
    rw (hi.content, hc.content, ni, nc) (store_tables-Holds s.total_freq new_chunk is cs hn small)
