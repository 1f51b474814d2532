-- ===== src/MemoryChunk/Contents.antt =====
-- What the operations of src/include/memory_chunk.h do to the bytes that a chunk holds.
use libpinyin.Common.{
  ℕ, ◌+◌, ◌-◌, ◌≤◌, ◌≡◌, refl, ap, ap₂, subst, sym, ◌∙◌, max, some, none, List, ◌++◌, arith, length,
  take, drop, overwrite, take_past_two, take_past, take-append_le, take_all, take-take, drop_past,
  drop_all, drop-take, length-take, length-drop, length-overwrite, take-overwrite, lt→ltb, ◌<◌,
  le→leb, not_lt→ltb, append-nil,
}
use libpinyin.MemoryChunk.{
  MemoryChunk, set_content, append_content, insert_content, remove_content, get_content, set_size,
}
use libpinyin.MemoryChunk.Growth.{
  Holds, length_of_Holds, ensure_has_space-Grown, ensure_has_more_space-Grown,
}

-- set_content at an offset inside the content or at its end writes over the bytes from there on,
-- and makes room for those that lie beyond the end.
pub set_content-Holds :
    (c : MemoryChunk) (offset : ℕ) (bytes xs : List ℕ)
    → Holds c xs
    → offset ≤ length xs
    → (d : MemoryChunk) × (set_content c offset bytes ≡ some d)
      × Holds d (overwrite offset bytes xs)
unfolding set_content
set_content-Holds c offset bytes xs h within =
    let k : ℕ = offset + length bytes in
    let (d, e, g) = ensure_has_space-Grown c k h.fits h.releasable in
    let inside : offset ≤ c.data_end = omega (arith, length_of_Holds h) in
    (
      record d { buffer = overwrite offset bytes d.buffer; data_end = max c.data_end k },
      rw e refl,
      record {
        fits = omega (arith, length-overwrite offset bytes d.buffer, g.room);
        releasable = g.still_releasable;
        content =
            take-overwrite offset c.data_end bytes d.buffer inside (omega (arith, g.room))
              (omega (arith, g.room))
            ∙ ap (overwrite offset bytes) (g.same_content ∙ h.content);
      },
    )

at_end : (xs : List ℕ) (n : ℕ) (bytes : List ℕ) → length xs ≡ n → overwrite n bytes xs ≡ xs ++ bytes
at_end xs n bytes e =
    ap₂ (λ a b. a ++ (bytes ++ b)) (take_all n xs (omega arith))
      (drop_all (n + length bytes) xs (omega arith))
    ∙ ap (◌++◌ xs) (append-nil bytes)

-- A write behind the content.
pub set_content_at_end :
    (c : MemoryChunk) (offset : ℕ) (bytes xs : List ℕ)
    → Holds c xs
    → length xs ≡ offset
    → (d : MemoryChunk) × (set_content c offset bytes ≡ some d) × Holds d (xs ++ bytes)
set_content_at_end c offset bytes xs h end =
    let (d, e, k) = set_content-Holds c offset bytes xs h (omega arith) in
    (d, e, subst (Holds d) (at_end xs offset bytes end) k)

pub append_content-Holds :
    (c : MemoryChunk) (bytes xs : List ℕ)
    → Holds c xs
    → (d : MemoryChunk) × (append_content c bytes ≡ some d) × Holds d (xs ++ bytes)
unfolding append_content
append_content-Holds c bytes xs h = set_content_at_end c c.data_end bytes xs h (length_of_Holds h)

-- The bytes at `offset` and behind move towards the rear.
abbrev pub inserted : ℕ → List ℕ → List ℕ → List ℕ
inserted offset bytes xs = take offset xs ++ (bytes ++ drop offset xs)

module _ (i n : ℕ) (b : List ℕ) {xs : List ℕ} (content : take n b ≡ xs) where
  pub head_of_content : i ≤ n → take i b ≡ take i xs
  head_of_content h = sym (take-take i n b h) ∙ ap (take i) content

  pub tail_of_content : take (n - i) (drop i b) ≡ drop i xs
  tail_of_content = sym (drop-take i n b) ∙ ap (drop i) content

-- The two copies of insert_content, the move first.
moved_and_written :
    (i n : ℕ) (bytes tail b : List ℕ)
    → n ≡ i + length bytes + length tail
    → i + length bytes ≤ length b
    → take n (overwrite i bytes (overwrite (i + length bytes) tail b)) ≡ take i b ++ (bytes ++ tail)
moved_and_written i n bytes tail b q r =
    ap₂ (λ a t. take n (a ++ (bytes ++ t)))
      (take-append_le i (take k b) (tail ++ rest) (omega (arith, length-take k b))
        ∙ take-take i k b (omega arith))
      (drop_past k 0 (take k b) (tail ++ rest) (omega (arith, length-take k b)))
    ∙ take_past_two n (length tail) (take i b) bytes (tail ++ rest) (omega (arith, length-take i b))
    ∙ ap (λ t. take i b ++ (bytes ++ t))
        (take_past (length tail) 0 tail rest (omega arith) ∙ append-nil tail)
  where
    k : ℕ
    k = i + length bytes

    rest : List ℕ
    rest = drop (k + length tail) b

-- insert_content at an offset inside the content or at its end puts the bytes in and keeps all
-- others, where the memory is nobody's, of malloc or of mmap.
pub insert_content-Holds :
    (c : MemoryChunk) (offset : ℕ) (bytes xs : List ℕ)
    → Holds c xs
    → offset ≤ length xs
    → (d : MemoryChunk) × (insert_content c offset bytes ≡ some d)
      × Holds d (inserted offset bytes xs)
unfolding insert_content
insert_content-Holds c offset bytes xs h within =
    let (d, e, g) = ensure_has_more_space-Grown c (length bytes) h.fits h.releasable in
    let inside : offset ≤ d.data_end = omega (arith, length_of_Holds h, g.same_end) in
    let k : ℕ = offset + length bytes in
    let tail : List ℕ = take (d.data_end - offset) (drop offset d.buffer) in
    let moved : List ℕ = overwrite k tail d.buffer in
    let tail_length : length tail ≡ d.data_end - offset = omega (
      arith,
      length-take (d.data_end - offset) (drop offset d.buffer),
      length-drop offset d.buffer,
      g.room,
      g.same_end,
    ) in
    let moved_length : length moved ≡ length d.buffer =
      length-overwrite k tail d.buffer (omega (arith, g.room, g.same_end)) in
    let content : take d.data_end d.buffer ≡ xs =
      ap (λ n. take n d.buffer) g.same_end ∙ g.same_content ∙ h.content in
    (
      record d { buffer = overwrite offset bytes moved; data_end = d.data_end + length bytes },
      rw (e, le→leb _ _ inside) refl,
      record {
        fits = omega (arith, length-overwrite offset bytes moved, g.room, g.same_end);
        releasable = g.still_releasable;
        content =
            moved_and_written offset (d.data_end + length bytes) bytes tail d.buffer (omega arith)
              (omega (arith, g.room, g.same_end))
            ∙ ap₂ (λ a t. a ++ (bytes ++ t))
                (head_of_content offset d.data_end d.buffer content inside)
                (tail_of_content offset d.data_end d.buffer content);
      },
    )

-- remove_content of bytes inside the content takes them out and keeps all others.
pub remove_content-Holds :
    (c : MemoryChunk) (offset len : ℕ) (xs : List ℕ)
    → Holds c xs
    → offset + len ≤ length xs
    → (d : MemoryChunk) × (remove_content c offset len ≡ some d)
      × Holds d (take offset xs ++ drop (offset + len) xs)
unfolding remove_content
remove_content-Holds c offset len xs h within =
    let inside : offset + len ≤ c.data_end = omega (arith, length_of_Holds h) in
    let tail : List ℕ = take (c.data_end - offset - len) (drop (offset + len) c.buffer) in
    let tail_length : length tail ≡ c.data_end - offset - len = omega (
      arith,
      length-take (c.data_end - offset - len) (drop (offset + len) c.buffer),
      length-drop (offset + len) c.buffer,
      h.fits,
    ) in
    let tail_content : tail ≡ drop (offset + len) xs =
      ap (λ n. take n (drop (offset + len) c.buffer)) (omega arith)
      ∙ tail_of_content (offset + len) c.data_end c.buffer h.content in
    (
      record c { buffer = overwrite offset tail c.buffer; data_end = c.data_end - len },
      rw (le→leb _ _ inside) refl,
      record {
        fits = omega (arith, length-overwrite offset tail c.buffer, h.fits);
        releasable = h.releasable;
        content =
            take_past_two (c.data_end - len) 0 (take offset c.buffer) tail
              (drop (offset + length tail) c.buffer)
              (omega (arith, length-take offset c.buffer, h.fits))
            ∙ ap₂ (λ a t. a ++ t)
                (head_of_content offset c.data_end c.buffer h.content (omega arith))
                (append-nil tail ∙ tail_content);
      },
    )

pub get_content-Holds :
    (c : MemoryChunk) (offset len : ℕ) (xs : List ℕ)
    → Holds c xs
    → offset + len ≤ length xs
    → get_content c offset len ≡ some (take len (drop offset xs))
unfolding get_content
get_content-Holds c offset len xs h within =
    rw (not_lt→ltb c.data_end (offset + len) (omega (arith, length_of_Holds h))) (
      ap some (
        sym (
          take-take len (c.data_end - offset) (drop offset c.buffer)
            (omega (arith, length_of_Holds h)))
        ∙ ap (take len) (tail_of_content offset c.data_end c.buffer h.content)))

-- The result false of get_content, exactly where the bytes asked for do not lie in the chunk.
pub get_content-none :
    (c : MemoryChunk) (offset len : ℕ) (xs : List ℕ)
    → Holds c xs
    → length xs < offset + len
    → get_content c offset len ≡ none
unfolding get_content
get_content-none c offset len xs h beyond =
    rw (lt→ltb c.data_end (offset + len) (omega (arith, length_of_Holds h)))

-- A smaller size cuts the content.
pub set_size-Holds :
    (c : MemoryChunk) (n : ℕ) (xs : List ℕ)
    → Holds c xs
    → n ≤ length xs
    → (d : MemoryChunk) × (set_size c n ≡ some d) × Holds d (take n xs)
unfolding set_size
set_size-Holds c n xs h within =
    let inside : n ≤ c.data_end = omega (arith, length_of_Holds h) in
    (
      record c { data_end = n },
      rw (le→leb n c.data_end inside) refl,
      record {
        fits = omega (arith, h.fits);
        releasable = h.releasable;
        content = head_of_content n c.data_end c.buffer h.content inside;
      },
    )

-- A write through a pointer into the content.
pub overwrite-Holds :
    (c : MemoryChunk) (offset : ℕ) (bytes xs : List ℕ)
    → Holds c xs
    → offset + length bytes ≤ length xs
    → Holds (record c { buffer = overwrite offset bytes c.buffer }) (overwrite offset bytes xs)
overwrite-Holds c offset bytes xs h within =
    let inside : offset + length bytes ≤ c.data_end = omega (arith, length_of_Holds h) in
    record {
      fits = omega (arith, length-overwrite offset bytes c.buffer, h.fits);
      releasable = h.releasable;
      content =
          ap (λ n. take n (overwrite offset bytes c.buffer)) (omega arith)
          ∙ take-overwrite offset c.data_end bytes c.buffer (omega arith) h.fits
              (omega (arith, h.fits))
          ∙ ap (overwrite offset bytes) h.content;
    }
