-- ===== src/SubPhraseIndex/Items.antt =====
-- SubPhraseIndex::add_phrase_item of src/storage/phrase_index.cpp by what get_phrase_item finds.
use libpinyin.Common.{
  ℕ, ◌+◌, ◌*◌, ◌%◌, ◌<◌, ◌≤◌, ◌≡◌, refl, sym, ap, subst, ◌∙◌, false, some, List, [], ◌∷◌, ◌++◌,
  arith, length, take, drop, length-append, length-take, overwrite, take_prefix, drop_prefix, ◌==◌,
  append-nil,
}
use libpinyin.Common.Words.{encode32, decode32, decode32-encode32, u32_mod, add32}
use libpinyin.MemoryChunk.{MemoryChunk, get_content, size, unmanaged}
use libpinyin.MemoryChunk.Growth.{Holds, length_of_Holds}
use libpinyin.MemoryChunk.Contents.{set_content-Holds, set_content_at_end, get_content-Holds}
use libpinyin.MemoryChunk.Reads.{Reads, Reads-intro, get_content-Reads, Reads-advance}
use libpinyin.PhraseItem.{get_unigram_frequency}
use libpinyin.SubPhraseIndex.{
  SubPhraseIndex, found, slot_of, item_at, get_phrase_item, add_phrase_item,
}
use libpinyin.SubPhraseIndex.Load.{memory_at-Reads}

-- The bytes of an item: as many as the two counts at their begin say.
abbrev pub item_length : ℕ → ℕ → ℕ
item_length phrase_length n_prons = 6 + phrase_length * 4 + n_prons * (phrase_length * 2 + 4)

abbrev pub item_bytes : ℕ → ℕ → List ℕ → List ℕ
item_bytes phrase_length n_prons body = phrase_length ∷ n_prons ∷ body

-- A word read where it was just written.
pub written_word :
    (i : ℕ) (w xs : List ℕ) → i ≤ length xs → take (length w) (drop i (overwrite i w xs)) ≡ w
written_word i w xs h =
    ap (take (length w))
      (drop_prefix i (take i xs) (w ++ drop (i + length w) xs) (omega (arith, length-take i xs)))
    ∙ take_prefix (length w) w (drop (i + length w) xs) refl

pub item_at-Reads :
    (s : SubPhraseIndex) (offset k n : ℕ) (body rest : List ℕ)
    → Reads s.phrase_content offset (item_bytes k n body ++ rest)
    → length (item_bytes k n body) ≡ item_length k n
    → item_at s offset
      ≡ some (
          found
            (record {
              buffer = item_bytes k n body;
              data_end = item_length k n;
              free_func = unmanaged;
            })
            offset)
unfolding item_at
item_at-Reads s offset k n body rest r long =
    rw
      (
        get_content-Reads 1 (k ∷ []) (n ∷ (body ++ rest)) r refl,
        item_at,
        get_content-Reads 1 (n ∷ []) (body ++ rest)
            (Reads-advance 1 (k ∷ []) (n ∷ (body ++ rest)) r refl) refl,
        memory_at-Reads (item_length k n) (item_bytes k n body) rest r long,
      )
      refl

-- An item that add_phrase_item adds to an index that is not empty, for a token whose slot lies in
-- the table or at its end, is found by get_phrase_item behind the items that were there, and its
-- frequency is added to the sum.
pub add_phrase_item-get_phrase_item :
    (s : SubPhraseIndex) (token k n : ℕ) (item : MemoryChunk) (body is cs : List ℕ)
    → Holds s.phrase_index is
    → Holds s.phrase_content cs
    → Holds item (item_bytes k n body)
    → length (item_bytes k n body) ≡ item_length k n
    → slot_of token ≤ length is
    → 0 < length cs
    → length cs < u32_mod
    → (t : SubPhraseIndex) × (add_phrase_item s token item ≡ some t)
      × (get_phrase_item t token
          ≡ some (
              found
                (record {
                  buffer = item_bytes k n body;
                  data_end = item_length k n;
                  free_func = unmanaged;
                })
                (size s.phrase_content)))
      × (t.total_freq ≡ add32 s.total_freq (decode32 (take 4 body)))
unfolding add_phrase_item get_phrase_item get_unigram_frequency size
add_phrase_item-get_phrase_item s token k n item body is cs hi hc hb long slot some_content fits =
    let bytes : List ℕ = item_bytes k n body in
    let end : ℕ = s.phrase_content.data_end in
    let nc : length cs ≡ end = length_of_Holds hc in
    let (c, e1, h1) = set_content_at_end s.phrase_content end bytes cs hc nc in
    let (d, e2, h2) = set_content-Holds s.phrase_index (slot_of token) (encode32 end) is hi slot in
    let freq : get_content item 2 4 ≡ some (take 4 body) =
      get_content-Holds item 2 4 bytes hb (omega arith) in
    let full : (end == 0) ≡ false = ground arith in
    let same : end % u32_mod ≡ end = omega arith in
    let written : List ℕ = overwrite (slot_of token) (encode32 end) is in
    let room : slot_of token + 4 ≤ length written = omega (
      arith,
      length-take (slot_of token) is,
      length-append (take (slot_of token) is) (encode32 end ++ drop (slot_of token + 4) is),
    ) in
    let word : get_content d (slot_of token) 4 ≡ some (encode32 end) =
      get_content-Holds d (slot_of token) 4 written h2 room
      ∙ ap some (written_word (slot_of token) (encode32 end) is slot) in
    let reads : Reads c end (bytes ++ []) =
      subst (λ j. Reads c j (bytes ++ [])) nc
        (Reads-intro c cs (bytes ++ [])
          (subst (λ b. Holds c (cs ++ b)) (sym (append-nil bytes)) h1)) in
    let t : SubPhraseIndex = record s {
      total_freq = add32 s.total_freq (decode32 (take 4 body));
      phrase_index = d;
      phrase_content = c;
    } in
    (
      t,
      rw (full, hb.content, e1, same, e2, freq) refl,
      rw (word, get_phrase_item, decode32-encode32 end (omega arith), full)
          (item_at-Reads t end k n body [] reads long),
      refl,
    )
