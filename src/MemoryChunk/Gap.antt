-- ===== src/MemoryChunk/Gap.antt =====
-- Growing the chunks of src/include/memory_chunk.h beyond what is written.
use libpinyin.Common.{
  ℕ, ◌+◌, ◌-◌, ◌≤◌, ◌≡◌, refl, ap₂, sym, ◌∙◌, max, some, List, ◌++◌, arith, length, take, drop,
  overwrite, take_past_two, take-take, take-append-drop, drop-take, length-take, length-drop,
  length-overwrite, append-nil, append_assoc,
}
use libpinyin.MemoryChunk.{MemoryChunk, set_content, set_size}
use libpinyin.MemoryChunk.Growth.{Holds, length_of_Holds, ensure_has_space-Grown}

-- A larger size shows bytes that the memory held before.
pub set_size_grow :
    (c : MemoryChunk) (n : ℕ) (xs : List ℕ)
    → Holds c xs
    → length xs ≤ n
    → (d : MemoryChunk) × (gap : List ℕ) × (set_size c n ≡ some d)
      × (length gap ≡ n - length xs)
      × Holds d (xs ++ gap)
unfolding set_size
set_size_grow c n xs h beyond =
    let (d, e, g) = ensure_has_space-Grown c n h.fits h.releasable in
    let gap : List ℕ = take (n - c.data_end) (drop c.data_end d.buffer) in
    let k = length_of_Holds h in
    let room : n ≤ length d.buffer = omega (arith, g.room) in
    let content : take c.data_end d.buffer ≡ xs = g.same_content ∙ h.content in
    (
      record d { data_end = n },
      gap,
      rw e refl,
      omega (
        arith,
        length-take (n - c.data_end) (drop c.data_end d.buffer),
        length-drop c.data_end d.buffer,
      ),
      record {
        fits = room;
        releasable = g.still_releasable;
        content =
            sym (take-append-drop c.data_end (take n d.buffer))
            ∙ ap₂ (λ a b. a ++ b) (take-take c.data_end n d.buffer (omega arith) ∙ content)
                (drop-take c.data_end n d.buffer);
      },
    )

-- A write beyond the content leaves a gap of bytes that the memory held before.
pub set_content_beyond :
    (c : MemoryChunk) (offset : ℕ) (bytes xs : List ℕ)
    → Holds c xs
    → length xs ≤ offset
    → (d : MemoryChunk) × (gap : List ℕ) × (set_content c offset bytes ≡ some d)
      × (length gap ≡ offset - length xs)
      × Holds d (xs ++ (gap ++ bytes))
unfolding set_content
set_content_beyond c offset bytes xs h beyond =
    let k : ℕ = offset + length bytes in
    let (d, e, g) = ensure_has_space-Grown c k h.fits h.releasable in
    let n = length_of_Holds h in
    let room : k ≤ length d.buffer = omega (arith, g.room) in
    let gap : List ℕ = take (offset - c.data_end) (drop c.data_end d.buffer) in
    let content : take c.data_end d.buffer ≡ xs = g.same_content ∙ h.content in
    let front : take offset d.buffer ≡ xs ++ gap =
      sym (take-append-drop c.data_end (take offset d.buffer))
      ∙ ap₂ (λ a b. a ++ b) (take-take c.data_end offset d.buffer (omega arith) ∙ content)
          (drop-take c.data_end offset d.buffer) in
    (
      record d { buffer = overwrite offset bytes d.buffer; data_end = max c.data_end k },
      gap,
      rw e refl,
      omega (
        arith,
        length-take (offset - c.data_end) (drop c.data_end d.buffer),
        length-drop c.data_end d.buffer,
      ),
      record {
        fits = omega (arith, length-overwrite offset bytes d.buffer);
        releasable = g.still_releasable;
        content =
            take_past_two (max c.data_end k) 0 (take offset d.buffer) bytes (drop k d.buffer)
              (omega (arith, length-take offset d.buffer))
            ∙ ap₂ (λ a b. a ++ b) front (append-nil bytes)
            ∙ append_assoc xs gap bytes;
      },
    )
