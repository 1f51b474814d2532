-- ===== src/MemoryChunk/File/RoundTrip.antt =====
-- Files of src/include/memory_chunk.h: what save wrote is read back, what was damaged or cut is
-- refused.
use libpinyin.MemoryChunk.File.Checks.{
  read_cases, saved_file, refused_len, checked_data-differs, checked_data-saved_file,
}
use libpinyin.Common.{
  ℕ, ◌+◌, ◌-◌, ◌<◌, ◌≤◌, refl, inl, inr, ◌⊎◌, Bool-cases, leb, le→leb, not_le→leb, ap, ap₂, sym,
  ◌∙◌, ◌≡◌, ◌≢◌, Bool, true, false, not, ltb, Option, some, none, List, ◌++◌, arith, length, take,
  take_all, length-take, not_lt→ltb, lt→ltb,
}
use libpinyin.Common.Words.{
  u32_mod, IsBytes, IsBytes-append, encode32-IsBytes, encode32, decode32-encode32,
}
use libpinyin.MemoryChunk.{MemoryChunk, FreeFunc, malloced, mapped, other, empty_chunk}
use libpinyin.MemoryChunk.Growth.{Holds, length_of_Holds}
use libpinyin.MemoryChunk.File.{get_check_sum, save, checked_data, load, mmap}
use libpinyin.MemoryChunk.File.Integrity.{DiffersOnce}

module _ (c : MemoryChunk) (xs : List ℕ) (h : Holds c xs) (small : length xs < u32_mod) where
  -- The file of which the disk took `left` bytes behind the header.
  abbrev cut_file : ℕ → List ℕ
  cut_file left = encode32 (length xs) ++ (encode32 (get_check_sum xs (length xs)) ++ take left xs)

  save_lem :
      (room : ℕ)
      → 8 ≤ room
      → save true room c ≡ some (some (cut_file (room - 8)), not (ltb (room - 8) (length xs)))
  unfolding save
  save_lem room fits =
      let first : leb 4 room ≡ true = le→leb _ _ (omega arith) in
      let second : leb 4 (room - 4) ≡ true = le→leb _ _ (omega arith) in
      rw (first, second)
        (ap (λ n. save_result n (take c.data_end c.buffer) c.data_end)
            (omega (arith, length_of_Holds h))
          ∙ ap₂ (save_result (length xs)) h.content (sym (length_of_Holds h)))
    where
      save_result : ℕ → List ℕ → ℕ → Option (Option (List ℕ) × Bool)
      save_result n ys k = some (
        some (encode32 n ++ (encode32 (get_check_sum ys n) ++ take (room - 8) ys)),
        not (ltb (room - 8) k),
      )

  save-saved_file :
      (room : ℕ) → 8 + length xs ≤ room → save true room c ≡ some (some (saved_file xs), true)
  save-saved_file room fits =
      save_lem room (omega arith)
      ∙ ap₂
          (λ ys b.
            some (
              some (encode32 (length xs) ++ (encode32 (get_check_sum xs (length xs)) ++ ys)),
              not b,
            ))
          (take_all (room - 8) xs (omega arith)) (not_lt→ltb (room - 8) (length xs) (omega arith))

  save-cut :
      (room : ℕ)
      → 8 ≤ room
      → room < 8 + length xs
      → save true room c ≡ some (some (cut_file (room - 8)), false)
  save-cut room begun short =
      save_lem room begun
      ∙ ap (λ b. some (some (cut_file (room - 8)), not b))
          (lt→ltb (room - 8) (length xs) (omega arith))

save-header_cut : (c : MemoryChunk) (room : ℕ) → room < 8 → save true room c ≡ none
unfolding save
save-header_cut c room short = elim (Bool-cases (leb 4 room)) [
  | inr p ↦ rw p refl
  | inl p ↦
      let second : leb 4 (room - 4) ≡ false = not_le→leb _ _ (ground arith) in rw (p, second) refl
]

module _ (c d : MemoryChunk) (room : ℕ) (xs : List ℕ) (h : Holds c xs) (small : length xs < u32_mod)
    (p : IsBytes xs) (ok : d.free_func ≢ other) where
  -- Where save finds room for the header and the whole content, it reports success, and load and
  -- mmap of the file into any chunk that can free its memory succeed and give a chunk that holds the
  -- content.
  pub load-save :
      8 + length xs ≤ room
      → (file : Option (List ℕ)) × (save true room c ≡ some (file, true))
        × ((e : MemoryChunk) × (load d file ≡ some (e, true)) × Holds e xs)
        × ((e : MemoryChunk) × (mmap d file ≡ some (e, true)) × Holds e xs)
  load-save fits =
      let file_good = checked_data-saved_file xs small p in
      let (l, m) = (read_cases d (saved_file xs) ok).1 xs file_good in
      (
        some (saved_file xs),
        save-saved_file c xs h small room fits,
        (taken malloced, l, taken_Holds malloced (λ e. cc)),
        (taken mapped, m, taken_Holds mapped (λ e. cc)),
      )
    where
      taken : FreeFunc → MemoryChunk
      taken f = record { buffer = xs; data_end = length xs; free_func = f }

      taken_Holds : (f : FreeFunc) → f ≢ other → Holds (taken f) xs
      taken_Holds f k = record {
        fits = omega arith;
        releasable = k;
        content = take_all (length xs) xs (omega arith);
      }

module _ (d : MemoryChunk) (xs : List ℕ) (small : length xs < u32_mod)
    (ok : d.free_func ≢ other) where
  -- A file that save made and in which any one byte was changed afterwards, in the header or in
  -- the data, is refused by load and by mmap, which leave the chunk empty.
  pub load-damaged :
      (ys : List ℕ)
      → IsBytes xs
      → IsBytes ys
      → DiffersOnce (saved_file xs) ys
      → (load d (some ys) ≡ some (empty_chunk, false))
        × (mmap d (some ys) ≡ some (empty_chunk, false))
  load-damaged ys p q diff = (read_cases d ys ok).0 (
      checked_data-differs _ _ _ _ _ _ _ _ xs ys xs small file_bytes q
        (checked_data-saved_file xs small p) diff)
    where
      sum : ℕ
      sum = get_check_sum xs (length xs)

      file_bytes : IsBytes (saved_file xs)
      file_bytes =
          IsBytes-append (encode32 (length xs)) (encode32 sum ++ xs) (encode32-IsBytes (length xs))
            (IsBytes-append (encode32 sum) xs (encode32-IsBytes sum) p)

  -- A save for which the disk has not room enough aborts, where the header does not fit, and
  -- otherwise reports failure, and the file that it leaves behind is refused by load and by mmap,
  -- which leave the chunk empty. The content has fewer than 2 ^ 32 bytes, and the chunk that reads
  -- the file can free its memory.
  pub save_cut_short :
      (c : MemoryChunk) (room : ℕ)
      → Holds c xs
      → room < 8 + length xs
      → ((room < 8) × (save true room c ≡ none))
        ⊎ ((file : Option (List ℕ)) × (8 ≤ room)
            × (save true room c ≡ some (file, false))
            × (load d file ≡ some (empty_chunk, false))
            × (mmap d file ≡ some (empty_chunk, false)))
  save_cut_short c room h short = elim (Bool-cases (ltb room 8)) [
    | inl p ↦ inl (ground arith, save-header_cut c room (ground arith))
    | inr p ↦
        let begun : 8 ≤ room = ground arith in
        let (l, m) = (read_cases d _ ok).0 (refused begun) in
        inr (
          some (cut_file c xs h small (room - 8)),
          begun,
          save-cut c xs h small room begun short,
          l,
          m,
        )
  ]
    where
      refused : 8 ≤ room → checked_data (cut_file c xs h small (room - 8)) ≡ none
      refused begun =
          refused_len _ _ _ _ _ _ _ _ (take (room - 8) xs)
            (omega (arith, length-take (room - 8) xs))
            (λ e.
              absurd
                (omega (arith, length-take (room - 8) xs, decode32-encode32 (length xs) small)))
