-- ===== src/MemoryChunk/Growth.antt =====
-- ensure_has_more_space and ensure_has_space of src/include/memory_chunk.h: room is made and the
-- content stays.
use libpinyin.Common.{
  ℕ, ◌+◌, ◌-◌, ◌≤◌, ◌≡◌, ◌≢◌, refl, ap, ◌∙◌, inl, inr, some, List, ◌++◌, max, ◌*◌, arith, length,
  take, replicate, take-append_le, take-take, length-append, length-take, length-replicate, leb,
  Bool-cases, ◌==◌, ==_iff, leb→le,
}
use libpinyin.MemoryChunk.{
  MemoryChunk, FreeFunc, is_malloced, unmanaged, malloced, mapped, other, freemem, grow_managed,
  copy_on_resize, ensure_has_more_space, ensure_has_space,
}

-- The chunk keeps its end within the allocated bytes, has a known way to be freed, and holds `xs`.
pub record Holds (c : MemoryChunk) (xs : List ℕ) : Type 0 where
  pub fits : c.data_end ≤ length c.buffer
  pub releasable : c.free_func ≢ other
  pub content : take c.data_end c.buffer ≡ xs

pub length_of_Holds : {c : MemoryChunk} {xs : List ℕ} → Holds c xs → length xs ≡ c.data_end
length_of_Holds {c} h = omega (arith, ap length h.content, length-take c.data_end c.buffer, h.fits)

-- `d` is `c` with room for `n` more bytes.
pub record Grown (c : MemoryChunk) (n : ℕ) (d : MemoryChunk) : Type 0 where
  pub same_end : d.data_end ≡ c.data_end
  pub room : c.data_end + n ≤ length d.buffer
  pub still_releasable : d.free_func ≢ other
  pub same_content : take c.data_end d.buffer ≡ take c.data_end c.buffer

pub freemem_lem : (f : FreeFunc) → f ≢ other → freemem f ≡ some tt
unfolding freemem
freemem_lem unmanaged h = refl
freemem_lem malloced h = refl
freemem_lem mapped h = refl
freemem_lem other h = absurd (h refl)

length-extended :
    (n m : ℕ) (xs : List ℕ) → n ≤ length xs → length (take n xs ++ replicate m 0) ≡ n + m
length-extended n m xs h = omega (
  arith,
  length-append (take n xs) (replicate m 0),
  length-take n xs,
  length-replicate {A = ℕ} m 0,
)

take-extended :
    (n m : ℕ) (xs : List ℕ) → n ≤ length xs → take n (take n xs ++ replicate m 0) ≡ take n xs
take-extended n m xs h =
    take-append_le n (take n xs) (replicate m 0) (omega (arith, length-take n xs))
    ∙ take-take n n xs (omega arith)

grow_managed-Grown :
    (c : MemoryChunk) (n : ℕ)
    → c.data_end ≤ length c.buffer
    → c.free_func ≢ other
    → Grown c n (grow_managed c n)
unfolding grow_managed
grow_managed-Grown c n fits ok = elim (Bool-cases (leb n (length c.buffer - c.data_end))) [
  | inl e ↦
      rw (e, grow_managed)
        (record {
          same_end = refl;
          room = omega (arith, leb→le n (length c.buffer - c.data_end) e);
          still_releasable = ok;
          same_content = refl;
        })
  | inr e ↦
      let newsize : ℕ = max (length c.buffer * 2) (c.data_end + n) in
      rw (e, grow_managed)
        (record {
          same_end = refl;
          room = omega (arith, length-extended c.data_end (newsize - c.data_end) c.buffer fits);
          still_releasable = ok;
          same_content = take-extended c.data_end (newsize - c.data_end) c.buffer fits;
        })
]

copy_on_resize-Grown :
    (c : MemoryChunk) (n : ℕ)
    → c.data_end ≤ length c.buffer
    → c.free_func ≢ other
    → (d : MemoryChunk) × (copy_on_resize c n ≡ some d) × Grown c n d
unfolding copy_on_resize
copy_on_resize-Grown c n fits ok = (
  record {
    buffer = take c.data_end c.buffer ++ replicate n 0;
    data_end = c.data_end;
    free_func = malloced;
  },
  rw (freemem_lem c.free_func ok) refl,
  record {
    same_end = refl;
    room = omega (arith, length-extended c.data_end n c.buffer fits);
    still_releasable = λ e. cc;
    same_content = take-extended c.data_end n c.buffer fits;
  },
)

-- Room is made and the content stays, where the memory is nobody's, of malloc or of mmap.
pub ensure_has_more_space-Grown :
    (c : MemoryChunk) (n : ℕ)
    → c.data_end ≤ length c.buffer
    → c.free_func ≢ other
    → (d : MemoryChunk) × (ensure_has_more_space c n ≡ some d) × Grown c n d
unfolding ensure_has_more_space
ensure_has_more_space-Grown c n fits ok = elim (Bool-cases (n == 0)) [
  | inl e ↦ (
    c,
    rw e,
    record {
      same_end = refl;
      room = omega (arith, (==_iff n 0).0 e);
      still_releasable = ok;
      same_content = refl;
    },
  )
  | inr e ↦ elim (Bool-cases (is_malloced c.free_func)) [
    | inl m ↦ (grow_managed c n, rw (e, m), grow_managed-Grown c n fits ok)
    | inr m ↦ rw (e, m) (copy_on_resize-Grown c n fits ok)
  ]
]

pub ensure_has_space-Grown :
    (c : MemoryChunk) (n : ℕ)
    → c.data_end ≤ length c.buffer
    → c.free_func ≢ other
    → (d : MemoryChunk) × (ensure_has_space c n ≡ some d) × Grown c (n - c.data_end) d
unfolding ensure_has_space
ensure_has_space-Grown c n fits ok = elim (Bool-cases (leb n c.data_end)) [
  | inl e ↦ (
    c,
    rw e,
    record {
      same_end = refl;
      room = omega (arith, leb→le n c.data_end e);
      still_releasable = ok;
      same_content = refl;
    },
  )
  | inr e ↦ rw e (ensure_has_more_space-Grown c (n - c.data_end) fits ok)
]
