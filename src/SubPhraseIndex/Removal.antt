-- ===== src/SubPhraseIndex/Removal.antt =====
-- SubPhraseIndex::remove_phrase_item of src/storage/phrase_index.cpp by what get_phrase_item finds.
use libpinyin.Common.{
  ℕ, ◌+◌, ◌≤◌, ◌≡◌, refl, ap, subst, ◌∙◌, some, List, ◌++◌, arith, length, take, drop,
  length-append, length-take, overwrite, bind_some, drop_all, append-nil, replicate,
}
use libpinyin.Common.Words.{encode32, decode32, sub32}
use libpinyin.MemoryChunk.{MemoryChunk, set_content, get_content, malloced, set_size, empty_chunk}
use libpinyin.MemoryChunk.Growth.{Holds}
use libpinyin.MemoryChunk.Contents.{set_content-Holds, get_content-Holds}
use libpinyin.PhraseItem.{get_unigram_frequency, new_phrase_item}
use libpinyin.SubPhraseIndex.{
  SubPhraseIndex, found, failed, slot_of, get_phrase_item, remove_phrase_item, remove_found,
  error_ok, error_no_item,
}
use libpinyin.SubPhraseIndex.Items.{written_word}

abbrev zeros : List ℕ
zeros = replicate 6 0

abbrev blank : MemoryChunk
blank = record { buffer = zeros; data_end = 6; free_func = malloced }

new_phrase_item_lem : new_phrase_item ≡ some blank
unfolding new_phrase_item set_size empty_chunk
new_phrase_item_lem = refl

blank-Holds : Holds blank zeros
blank-Holds = record { fits = omega arith; releasable = λ e. cc; content = refl }

-- The copy that the caller keeps.
copied :
    (bytes : List ℕ)
    → 6 ≤ length bytes
    → (d : MemoryChunk) × (set_content blank 0 bytes ≡ some d) × Holds d bytes
copied bytes long =
    let (d, e, h) = set_content-Holds blank 0 bytes zeros blank-Holds (omega arith) in
    (
      d,
      e,
      subst (Holds d)
          (ap (◌++◌ bytes) (drop_all (0 + length bytes) zeros (omega arith)) ∙ append-nil bytes) h,
    )

-- An item that get_phrase_item finds is removed by remove_phrase_item, which gives a copy of it and
-- takes its frequency from the sum; afterwards get_phrase_item finds no item for the token.
pub remove_phrase_item-get_phrase_item :
    (s : SubPhraseIndex) (token offset : ℕ) (old_item : MemoryChunk) (bytes is : List ℕ)
    → Holds s.phrase_index is
    → slot_of token + 4 ≤ length is
    → get_phrase_item s token ≡ some (found old_item offset)
    → Holds old_item bytes
    → 6 ≤ length bytes
    → (t : SubPhraseIndex) × (item : MemoryChunk) × (remove_phrase_item s token
        ≡ some (t, error_ok, some item))
      × Holds item bytes
      × (get_phrase_item t token ≡ some (failed error_no_item))
      × (t.total_freq ≡ sub32 s.total_freq (decode32 (take 4 (drop 2 bytes))))
unfolding remove_phrase_item remove_found get_phrase_item get_unigram_frequency
remove_phrase_item-get_phrase_item s token offset old_item bytes is hi slot there ho long =
    let (item, e1, h1) = copied bytes long in
    let (d, e2, h2) =
      set_content-Holds s.phrase_index (slot_of token) (encode32 0) is hi (omega arith) in
    let freq : get_content item 2 4 ≡ some (take 4 (drop 2 bytes)) =
      get_content-Holds item 2 4 bytes h1 (omega arith) in
    let written : List ℕ = overwrite (slot_of token) (encode32 0) is in
    let room : slot_of token + 4 ≤ length written = omega (
      arith,
      length-take (slot_of token) is,
      length-append (take (slot_of token) is) (encode32 0 ++ drop (slot_of token + 4) is),
    ) in
    let word : get_content d (slot_of token) 4 ≡ some (encode32 0) =
      get_content-Holds d (slot_of token) 4 written h2 room
      ∙ ap some (written_word (slot_of token) (encode32 0) is (omega arith)) in
    (
      record s {
        total_freq = sub32 s.total_freq (decode32 (take 4 (drop 2 bytes)));
        phrase_index = d;
      },
      item,
      bind_some _ there (rw (new_phrase_item_lem, ho.content, e1, e2, freq) refl),
      h1,
      rw (word, get_phrase_item) refl,
      refl,
    )
