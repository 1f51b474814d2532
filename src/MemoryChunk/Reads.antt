-- ===== src/MemoryChunk/Reads.antt =====
-- Reading the chunks of src/include/memory_chunk.h piece by piece.
use libpinyin.Common.{
  ℕ, ◌+◌, ◌-◌, ◌≤◌, ◌≡◌, refl, ap, sym, ◌∙◌, some, List, ◌++◌, arith, length, take, drop, take-take,
  drop_prefix, drop-drop, take_prefix, length-append, length-drop,
}
use libpinyin.MemoryChunk.{MemoryChunk, get_content}
use libpinyin.MemoryChunk.Growth.{Holds, length_of_Holds}
use libpinyin.MemoryChunk.Contents.{get_content-Holds, tail_of_content}

-- The bytes that a chunk holds from an offset on, as its readers see them.
pub record Reads (c : MemoryChunk) (offset : ℕ) (ys : List ℕ) : Type 0 where
  pub all : List ℕ
  pub holds : Holds c all
  pub inside : offset ≤ length all
  pub from_here : drop offset all ≡ ys

pub Reads-intro : (c : MemoryChunk) (xs ys : List ℕ) → Holds c (xs ++ ys) → Reads c (length xs) ys
Reads-intro c xs ys h = record {
  all = xs ++ ys;
  holds = h;
  inside = omega (arith, length-append xs ys);
  from_here = drop_prefix (length xs) xs ys refl;
}

module _ {c : MemoryChunk} {offset : ℕ} (n : ℕ) (w ys : List ℕ) (r : Reads c offset (w ++ ys))
    (e : length w ≡ n) where
  room_to_read : offset + n ≤ length r.all
  room_to_read =
      omega (arith, r.inside, length-drop offset r.all, ap length r.from_here, length-append w ys)

  pub get_content-Reads : get_content c offset n ≡ some w
  get_content-Reads =
      get_content-Holds c offset n r.all r.holds room_to_read
      ∙ ap some (ap (take n) r.from_here ∙ take_prefix n w ys e)

  pub Reads-advance : Reads c (offset + n) ys
  Reads-advance = record {
    all = r.all;
    holds = r.holds;
    inside = room_to_read;
    from_here = sym (drop-drop n offset r.all) ∙ ap (drop n) r.from_here ∙ drop_prefix n w ys e;
  }

  -- A read through a pointer into the memory.
  pub memory-Reads : (offset + n ≤ length c.buffer) × (take n (drop offset c.buffer) ≡ w)
  memory-Reads = (
    omega (arith, room_to_read, length_of_Holds r.holds, r.holds.fits),
    sym (
          take-take n (c.data_end - offset) (drop offset c.buffer)
            (omega (arith, room_to_read, length_of_Holds r.holds)))
        ∙ ap (take n) (tail_of_content offset c.data_end c.buffer r.holds.content)
        ∙ ap (take n) r.from_here
        ∙ take_prefix n w ys e,
  )
