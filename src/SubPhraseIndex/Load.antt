-- ===== src/SubPhraseIndex/Load.antt =====
-- SubPhraseIndex::load of src/storage/phrase_index.cpp on the bytes of a stored index.
use libpinyin.Common.{
  ℕ, zero, suc, take_all, ◌+◌, ◌<◌, ◌≤◌, ◌≡◌, ◌≢◌, refl, ap, subst, true, some, none, List, [], ◌∷◌,
  ◌++◌, arith, length, take, drop, length-append, le→leb, bind_some, bind_some, get_elem?,
}
use libpinyin.Common.Words.{encode32, decode32-encode32, u32_mod, sub32}
use libpinyin.MemoryChunk.{MemoryChunk, size, reset, empty_chunk, other, unmanaged, set_chunk}
use libpinyin.PhraseItem.{memory_at}
use libpinyin.MemoryChunk.Growth.{Holds, length_of_Holds, freemem_lem}
use libpinyin.MemoryChunk.Reads.{Reads, Reads-intro, get_content-Reads, Reads-advance, memory-Reads}
use libpinyin.SubPhraseIndex.{
  SubPhraseIndex, store, load, check_separators, load_tables, word_at, byte_at, c_separate,
}
use libpinyin.SubPhraseIndex.Store.{image, index_three, separator, store-Holds}

first_byte : (i b : ℕ) (xs : List ℕ) → take 1 (drop i xs) ≡ b ∷ [] → get_elem? xs i ≡ some b
first_byte zero b [] e = cc
first_byte zero b (x ∷ xs) e = ap (λ l. get_elem? l 0) e
first_byte (suc i) b [] e = cc
first_byte (suc i) b (x ∷ xs) e = first_byte i b xs e

module _ {c : MemoryChunk} {offset : ℕ} where
  byte_at-Reads :
      (b : ℕ) (ys : List ℕ) → Reads c offset ((b ∷ []) ++ ys) → byte_at c offset ≡ some b
  unfolding byte_at
  byte_at-Reads b ys r = first_byte offset b c.buffer (memory-Reads 1 (b ∷ []) ys r refl).1

  word_at-Reads :
      (n default : ℕ) (ys : List ℕ)
      → n < u32_mod
      → Reads c offset (encode32 n ++ ys)
      → word_at c offset default ≡ n
  unfolding word_at
  word_at-Reads n default ys small r =
      rw (get_content-Reads 4 (encode32 n) ys r refl, word_at) (decode32-encode32 n small)

  pub memory_at-Reads :
      (len : ℕ) (w ys : List ℕ)
      → Reads c offset (w ++ ys)
      → length w ≡ len
      → memory_at c offset len ≡ some w
  unfolding memory_at
  memory_at-Reads len w ys r e =
      let (room, same) = memory-Reads len w ys r e in rw (le→leb _ _ room, same) refl

set_chunk-Holds :
    (c : MemoryChunk) (bytes : List ℕ)
    → c.free_func ≢ other
    → (d : MemoryChunk) × (set_chunk c bytes unmanaged ≡ some d) × Holds d bytes
unfolding set_chunk
set_chunk-Holds c bytes known = (
  record { buffer = bytes; data_end = length bytes; free_func = unmanaged },
  rw (freemem_lem c.free_func known) refl,
  record {
    fits = omega arith;
    releasable = λ e. cc;
    content = take_all (length bytes) bytes (omega arith);
  },
)

-- The checks of the separators and the two tables, from the first separator on.
loaded :
    (s : SubPhraseIndex) (chunk : MemoryChunk) (end : ℕ) (is cs : List ℕ) (d1 d2 : MemoryChunk)
    → length is + length cs + 19 < u32_mod
    → 19 + length is + length cs ≤ end
    → Reads chunk 16 (separator ++ (is ++ (separator ++ (cs ++ separator))))
    → set_chunk s.phrase_index is unmanaged ≡ some d1
    → set_chunk s.phrase_content cs unmanaged ≡ some d2
    → check_separators s chunk 16 17 (18 + length is) (19 + length is + length cs) end
      ≡ some (record s { phrase_index = d1; phrase_content = d2 }, true)
unfolding check_separators load_tables
loaded s chunk end is cs d1 d2 fits within r4 e1 e2 =
    let r5 = Reads-advance 1 separator (is ++ (separator ++ (cs ++ separator))) r4 refl in
    let r6 = Reads-advance (length is) is (separator ++ (cs ++ separator)) r5 refl in
    let r7 = Reads-advance 1 separator (cs ++ separator) r6 refl in
    let r8 = Reads-advance (length cs) cs separator r7 refl in
    let end_one : 17 + length is ≡ sub32 (18 + length is) 1 = omega arith in
    let end_two : 17 + length is + 1 + length cs ≡ sub32 (19 + length is + length cs) 1 =
      omega arith in
    let begin_two : 17 + length is + 1 ≡ 18 + length is = omega arith in
    let len_two : ℕ = sub32 (sub32 (19 + length is + length cs) 1) (18 + length is) in
    bind_some _ (byte_at-Reads c_separate _ r4) (
      bind_some _
        (subst (λ i. byte_at chunk i ≡ some c_separate) end_one (byte_at-Reads c_separate _ r6))
        (bind_some _
          (subst (λ i. byte_at chunk i ≡ some c_separate) end_two (byte_at-Reads c_separate [] r8))
          (bind_some _ (memory_at-Reads _ is _ r5 (omega arith)) (
            bind_some _
              (subst (λ i. memory_at chunk i len_two ≡ some cs) begin_two
                (memory_at-Reads len_two cs separator r7 (omega arith)))
              (bind_some _ e1 (bind_some _ e2 (rw (le→leb _ _ within) refl)))))))

-- load reads back what store wrote, into an index whose chunks have a known owner: the sum and
-- both tables.
pub load-image :
    (s : SubPhraseIndex) (chunk : MemoryChunk) (total_freq end : ℕ) (is cs : List ℕ)
    → Holds chunk (image total_freq is cs)
    → reset (elim s.chunk [ none ↦ empty_chunk | some c ↦ c ]) ≡ some empty_chunk
    → s.phrase_index.free_func ≢ other
    → s.phrase_content.free_func ≢ other
    → total_freq < u32_mod
    → length is + length cs + 19 < u32_mod
    → index_three total_freq is cs ≤ end
    → (t : SubPhraseIndex) × (load s chunk 0 end ≡ some (t, true))
      × (t.total_freq ≡ total_freq)
      × Holds t.phrase_index is
      × Holds t.phrase_content cs
unfolding load
load-image s chunk total_freq end is cs h released old_index old_content small fits within =
    let two : ℕ = 18 + length is in
    let three : ℕ = 19 + length is + length cs in
    let tables : List ℕ = is ++ (separator ++ (cs ++ separator)) in
    let r0 : Reads chunk 0 (image total_freq is cs) =
      Reads-intro chunk [] (image total_freq is cs) h in
    let r1 =
      Reads-advance 4 (encode32 total_freq)
        (encode32 17 ++ (encode32 two ++ (encode32 three ++ (separator ++ tables)))) r0 refl in
    let r2 =
      Reads-advance 4 (encode32 17) (encode32 two ++ (encode32 three ++ (separator ++ tables))) r1
        refl in
    let r3 = Reads-advance 4 (encode32 two) (encode32 three ++ (separator ++ tables)) r2 refl in
    let r4 = Reads-advance 4 (encode32 three) (separator ++ tables) r3 refl in
    let (d1, e1, h1) = set_chunk-Holds s.phrase_index is old_index in
    let (d2, e2, h2) = set_chunk-Holds s.phrase_content cs old_content in
    let t : SubPhraseIndex = record {
      total_freq = total_freq;
      phrase_index = d1;
      phrase_content = d2;
      chunk = some chunk;
    } in
    (
      t,
      bind_some _ released (
          rw
            (
              word_at-Reads total_freq s.total_freq _ small r0,
              word_at-Reads 17 0 _ (omega arith) r1,
              word_at-Reads two 0 _ (omega arith) r2,
              word_at-Reads three 0 _ (omega arith) r3,
            )
            (loaded (record s { total_freq = total_freq; chunk = some chunk }) chunk end is cs d1 d2
              fits within r4 e1 e2)),
      refl,
      h1,
      h2,
    )

-- An index that store writes to an empty chunk is read back by load, into any index whose memory
-- can be released, with the same sum and the same two tables.
pub load-store :
    (s old : SubPhraseIndex) (new_chunk : MemoryChunk) (is cs : List ℕ)
    → Holds s.phrase_index is
    → Holds s.phrase_content cs
    → Holds new_chunk []
    → s.total_freq < u32_mod
    → length is + length cs + 19 < u32_mod
    → reset (elim old.chunk [ none ↦ empty_chunk | some c ↦ c ]) ≡ some empty_chunk
    → old.phrase_index.free_func ≢ other
    → old.phrase_content.free_func ≢ other
    → (c : MemoryChunk) × (t : SubPhraseIndex) × (store s new_chunk 0 ≡ some c)
      × (load old c 0 (size c) ≡ some (t, true))
      × (t.total_freq ≡ s.total_freq)
      × Holds t.phrase_index is
      × Holds t.phrase_content cs
unfolding size
load-store s old new_chunk is cs hi hc hn small fits released old_index old_content =
    let (c, e, h) = store-Holds s new_chunk is cs hi hc hn fits in
    let long : index_three s.total_freq is cs ≤ c.data_end = omega (
      arith,
      length_of_Holds h,
      length-append is (separator ++ (cs ++ separator)),
      length-append cs separator,
    ) in
    let (t, k, same, ti, tc) =
      load-image old c s.total_freq c.data_end is cs h released old_index old_content small fits
        long in
    (c, t, e, k, same, ti, tc)
