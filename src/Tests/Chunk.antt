-- ===== src/Tests/Chunk.antt =====
-- src/include/memory_chunk.h on small chunks.
use libpinyin.Common.{
  ℕ, ◌<◌, ◌≤◌, ◌⊎◌, Option, none, ◌≡◌, refl, true, false, some, List, [], ◌∷◌, ◌++◌, arith, take,
}
use libpinyin.Common.Words.{IsBytes}
use libpinyin.MemoryChunk.{
  MemoryChunk, unmanaged, malloced, empty_chunk, set_content, insert_content, remove_content,
}
use libpinyin.MemoryChunk.Growth.{Holds}
use libpinyin.MemoryChunk.Contents.{set_content-Holds, insert_content-Holds, remove_content-Holds}
use libpinyin.MemoryChunk.File.{save, load, mmap}
use libpinyin.MemoryChunk.File.Integrity.{DiffersOnce, here, there}
use libpinyin.MemoryChunk.File.Checks.{saved_file}
use libpinyin.MemoryChunk.File.RoundTrip.{load-save, load-damaged, save_cut_short}

-- Three bytes in memory of another owner.
abbrev pub three_bytes : List ℕ
three_bytes = 7 ∷ 8 ∷ 9 ∷ []

abbrev pub borrowed : MemoryChunk
borrowed = record { buffer = three_bytes; data_end = 3; free_func = unmanaged }

pub borrowed-Holds : Holds borrowed three_bytes
borrowed-Holds = record { fits = omega arith; releasable = λ e. cc; content = refl }

insert_runs :
    insert_content borrowed 1 (4 ∷ 5 ∷ [])
    ≡ some (record { buffer = 7 ∷ 4 ∷ 5 ∷ 8 ∷ 9 ∷ []; data_end = 5; free_func = malloced })
unfolding insert_content
insert_runs = refl

abbrev inserted_bytes : List ℕ
inserted_bytes = 7 ∷ 4 ∷ 5 ∷ 8 ∷ 9 ∷ []

insert_content-Holds_example :
    (d : MemoryChunk) × (insert_content borrowed 1 (4 ∷ 5 ∷ []) ≡ some d) × Holds d inserted_bytes
insert_content-Holds_example =
    insert_content-Holds borrowed 1 (4 ∷ 5 ∷ []) three_bytes borrowed-Holds (omega arith)

remove_content-Holds_example :
    (d : MemoryChunk) × (remove_content borrowed 1 1 ≡ some d) × Holds d (7 ∷ 9 ∷ [])
remove_content-Holds_example =
    remove_content-Holds borrowed 1 1 three_bytes borrowed-Holds (omega arith)

set_content-Holds_example :
    (d : MemoryChunk) × (set_content borrowed 2 (1 ∷ 2 ∷ []) ≡ some d)
    × Holds d (7 ∷ 8 ∷ 1 ∷ 2 ∷ [])
set_content-Holds_example =
    set_content-Holds borrowed 2 (1 ∷ 2 ∷ []) three_bytes borrowed-Holds (omega arith)

three_bytes-IsBytes : IsBytes three_bytes
three_bytes-IsBytes = omega arith

load-save_example :
    (file : Option (List ℕ)) × (save true 20 borrowed ≡ some (file, true))
    × ((e : MemoryChunk) × (load borrowed file ≡ some (e, true)) × Holds e three_bytes)
    × ((e : MemoryChunk) × (mmap borrowed file ≡ some (e, true)) × Holds e three_bytes)
load-save_example =
    load-save borrowed borrowed 20 three_bytes borrowed-Holds (omega arith) three_bytes-IsBytes
      (λ e. cc) (omega arith)

-- The saved file with its last byte changed.
abbrev damaged_file : List ℕ
damaged_file = take 10 (saved_file three_bytes) ++ (1 ∷ [])

damaged-DiffersOnce : DiffersOnce (saved_file three_bytes) damaged_file
damaged-DiffersOnce =
    there
      (there (there (there (there (there (there (there (there (there (here (omega arith)))))))))))

load-damaged_example :
    (load borrowed (some damaged_file) ≡ some (empty_chunk, false))
    × (mmap borrowed (some damaged_file) ≡ some (empty_chunk, false))
load-damaged_example =
    load-damaged borrowed three_bytes (omega arith) (λ e. cc) damaged_file three_bytes-IsBytes
      (omega arith) damaged-DiffersOnce

save_cut_short_example :
    ((10 < 8) × (save true 10 borrowed ≡ none))
    ⊎ ((file : Option (List ℕ)) × (8 ≤ 10)
        × (save true 10 borrowed ≡ some (file, false))
        × (load borrowed file ≡ some (empty_chunk, false))
        × (mmap borrowed file ≡ some (empty_chunk, false)))
save_cut_short_example =
    save_cut_short borrowed three_bytes (omega arith) (λ e. cc) borrowed 10 borrowed-Holds
      (omega arith)

-- A disk that is full after the first word of the header.
save_header_run : save true 6 borrowed ≡ none
unfolding save
save_header_run = refl
