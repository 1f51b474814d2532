-- ===== src/SubPhraseIndex/Others.antt =====
-- The items that SubPhraseIndex::add_phrase_item of src/storage/phrase_index.cpp does not add.
use libpinyin.Common.{
  ℕ, ◌+◌, ◌-◌, ◌*◌, ◌%◌, ◌^◌, ◌<◌, ◌≤◌, ◌≡◌, ◌≢◌, ◌⊎◌, refl, ap, ◌∙◌, false, some, inl, inr, List,
  ◌++◌, arith, length, take, drop, length-append, length-take, length-drop, overwrite,
  drop-append_le, drop_past, drop-take, drop-drop, take_past, append_assoc, ◌==◌, Bool-cases, ltb,
  ltb→lt,
}
use libpinyin.Common.Words.{encode32, decode32, decode32-encode32, u32_mod, add32}
use libpinyin.MemoryChunk.{MemoryChunk, get_content, size, unmanaged}
use libpinyin.MemoryChunk.Growth.{Holds, length_of_Holds}
use libpinyin.MemoryChunk.Contents.{set_content-Holds, set_content_at_end, get_content-Holds}
use libpinyin.MemoryChunk.Reads.{Reads, get_content-Reads}
use libpinyin.PhraseItem.{get_unigram_frequency}
use libpinyin.SubPhraseIndex.{SubPhraseIndex, found, slot_of, get_phrase_item, add_phrase_item}
use libpinyin.SubPhraseIndex.Items.{item_length, item_bytes, item_at-Reads}

-- A word of the table that lies before or behind the four bytes written.
other_word :
    (i j : ℕ) (w u xs rest : List ℕ)
    → (i + 4 ≤ j) ⊎ (j + 4 ≤ i)
    → length w ≡ 4
    → length u ≡ 4
    → i ≤ length xs
    → drop j xs ≡ u ++ rest
    → (more : List ℕ) × (drop j (overwrite i w xs) ≡ u ++ more)
other_word i j w u xs rest (inl behind) lw lu inside here = (
  rest,
  drop_past j (j - i) (take i xs) (w ++ drop (i + length w) xs) (omega (arith, length-take i xs))
      ∙ drop_past (j - i) (j - (i + length w)) w (drop (i + length w) xs) (omega arith)
      ∙ drop-drop (j - (i + length w)) (i + length w) xs
      ∙ ap (λ k. drop k xs) (omega arith)
      ∙ here,
)
other_word i j w u xs rest (inr ahead) lw lu inside here = (
  take (i - j - 4) rest ++ (w ++ drop (i + length w) xs),
  drop-append_le j (take i xs) (w ++ drop (i + length w) xs) (omega (arith, length-take i xs))
      ∙ ap (λ a. a ++ (w ++ drop (i + length w) xs))
          (drop-take j i xs
            ∙ ap (take (i - j)) here
            ∙ take_past (i - j) (i - j - 4) u rest (omega arith))
      ∙ append_assoc u (take (i - j - 4) rest) (w ++ drop (i + length w) xs),
)

apart : (a b : ℕ) → a ≢ b → (a * 4 + 4 ≤ b * 4) ⊎ (b * 4 + 4 ≤ a * 4)
apart a b differ = elim (Bool-cases (ltb a b)) [
  | inl less ↦ inl (omega (arith, ltb→lt a b less))
  | inr not_less ↦ inr (ground arith)
]

-- An item that lies in an index stays where it is, and get_phrase_item finds it for its token, when
-- add_phrase_item adds an item for a token with another slot.
pub add_phrase_item-other :
    (s : SubPhraseIndex) (token other_token offset k n : ℕ) (item : MemoryChunk)
    → (bytes body rest entries is cs : List ℕ) → Holds s.phrase_index is
    → Holds s.phrase_content cs
    → Holds item bytes
    → 6 ≤ length bytes
    → slot_of token ≤ length is
    → token % 2 ^ 24 ≢ other_token % 2 ^ 24
    → drop (slot_of other_token) is ≡ encode32 offset ++ entries
    → drop offset cs ≡ item_bytes k n body ++ rest
    → length (item_bytes k n body) ≡ item_length k n
    → 0 < offset
    → offset < u32_mod
    → (t : SubPhraseIndex) × (add_phrase_item s token item ≡ some t)
      × (get_phrase_item t other_token
          ≡ some (
              found
                (record {
                  buffer = item_bytes k n body;
                  data_end = item_length k n;
                  free_func = unmanaged;
                })
                offset))
unfolding add_phrase_item get_phrase_item get_unigram_frequency size
add_phrase_item-other s token other_token offset k n item bytes body rest entries is cs hi hc hb
      long slot differ entry there whole positive fits =
    let end : ℕ = s.phrase_content.data_end in
    let nc : length cs ≡ end = length_of_Holds hc in
    let inside : offset + length (item_bytes k n body ++ rest) ≡ length cs =
      omega (arith, length-drop offset cs, ap length there) in
    let (c, e1, h1) = set_content_at_end s.phrase_content end bytes cs hc nc in
    let (d, e2, h2) =
      set_content-Holds s.phrase_index (slot_of token) (encode32 (end % u32_mod)) is hi slot in
    let written : List ℕ = overwrite (slot_of token) (encode32 (end % u32_mod)) is in
    let (more, same) =
      other_word (slot_of token) (slot_of other_token) (encode32 (end % u32_mod)) (encode32 offset)
        is entries (apart (token % 2 ^ 24) (other_token % 2 ^ 24) differ) refl refl slot entry in
    let freq : get_content item 2 4 ≡ some (take 4 (drop 2 bytes)) =
      get_content-Holds item 2 4 bytes hb (omega arith) in
    let full : (end == 0) ≡ false = ground arith in
    let nonzero : (offset == 0) ≡ false = ground arith in
    let word : Reads d (slot_of other_token) (encode32 offset ++ more) = record {
      all = written;
      holds = h2;
      inside = omega (arith, length-drop (slot_of other_token) written, ap length same);
      from_here = same;
    } in
    let reads : Reads c offset (item_bytes k n body ++ (rest ++ bytes)) = record {
      all = cs ++ bytes;
      holds = h1;
      inside = omega (arith, length-append cs bytes);
      from_here =
          drop-append_le offset cs bytes (omega arith)
          ∙ ap (λ x. x ++ bytes) there
          ∙ append_assoc (item_bytes k n body) rest bytes;
    } in
    let t : SubPhraseIndex = record s {
      total_freq = add32 s.total_freq (decode32 (take 4 (drop 2 bytes)));
      phrase_index = d;
      phrase_content = c;
    } in
    (
      t,
      rw (full, hb.content, e1, e2, freq) refl,
      rw
          (
            get_content-Reads 4 (encode32 offset) more word refl,
            get_phrase_item,
            decode32-encode32 offset fits,
            nonzero,
          )
          (item_at-Reads t offset k n body (rest ++ bytes) reads whole),
    )
