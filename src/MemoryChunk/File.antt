-- ===== src/MemoryChunk/File.antt =====
-- get_check_sum, save, load and mmap of src/include/memory_chunk.h. A file is its bytes; `none`
-- where a file name stands means that open() fails. Reads return what the file holds.
pub mod Integrity
pub mod Checks
pub mod RoundTrip
use libpinyin.Common.{
  ℕ, ◌+◌, ◌-◌, ◌*◌, ◌%◌, ◌^◌, bit_xor, Bool, true, false, Option, none, some, List, [], ◌∷◌, ◌++◌,
  ltb, leb, assert, ◌==◌, not, if◌then◌else◌, ◌>>=◌, length, take, drop,
}
use libpinyin.Common.Words.{u32_mod, encode32, decode32}
use libpinyin.MemoryChunk.{MemoryChunk, malloced, mapped, size, reset, set_chunk}

-- The last one to three bytes, each shifted one byte further. The item is a guint32.
unfoldable pub check_sum_remained : ℕ → ℕ → List ℕ → ℕ
check_sum_remained checksum shift [] = checksum
check_sum_remained checksum shift (b ∷ bs) =
    check_sum_remained (bit_xor checksum (b * 2 ^ shift % u32_mod)) (shift + 8) bs

-- Four bytes at a time. The bytes do not overlap, so the `|` of the source is a sum.
unfoldable pub check_sum_from : ℕ → List ℕ → ℕ
unfolding check_sum_remained
check_sum_from checksum (a ∷ b ∷ c ∷ d ∷ bs) =
    check_sum_from (bit_xor checksum (a + b * 256 + c * 65536 + d * 16777216)) bs
check_sum_from checksum bs = check_sum_remained checksum 0 bs

unfoldable pub get_check_sum : List ℕ → ℕ → ℕ
unfolding check_sum_from
get_check_sum bytes len = check_sum_from 0 (take len bytes)

abbrev pub header : ℕ
header = 8

-- `writable` says whether open() succeeds, and `room` how many bytes the disk takes from the three
-- calls of write() together. The result is the file, if one was made, and what save returns; it is
-- `none` where an assertion on a word of the header fails.
unfoldable pub save : Bool → ℕ → MemoryChunk → Option (Option (List ℕ) × Bool)
unfolding get_check_sum size
save writable room c =
    let content = take (size c) c.buffer in
    let checksum = get_check_sum content (size c % u32_mod) in
    let left = room - header in
    let file = encode32 (size c % u32_mod) ++ (encode32 checksum ++ take left content) in
    if not writable
    then some (none, false)
    else (assert (leb 4 room) >>= λ _.
        assert (leb 4 (room - 4)) >>= λ _. some (some file, not (ltb left (size c))))

-- The two words of the header against the data that follows.
unfoldable pub verified : ℕ → ℕ → ℕ → List ℕ → Option (List ℕ)
unfolding get_check_sum
verified len checksum data_len content =
    if not (data_len == len)
    then none
    else if not (checksum == get_check_sum content data_len)
    then none
    else some content

-- The checks that load and mmap make on a file, and the data that passes them.
unfoldable pub checked_data : List ℕ → Option (List ℕ)
unfolding verified
checked_data file =
    let data_len = (length file - header) % u32_mod in
    if ltb (length file) header
    then none
    else verified (decode32 (take 4 file)) (decode32 (take 4 (drop 4 file))) data_len
        (take data_len (drop header file))

-- Both give the chunk afterwards and their result; the old data is freed first.
unfoldable pub load : MemoryChunk → Option (List ℕ) → Option (MemoryChunk × Bool)
unfolding reset set_chunk checked_data
load c file = do
  d ← reset c
  elim (file >>= checked_data) [
    | none ↦ some (d, false)
    | some content ↦ set_chunk d content malloced >>= λ e. some (e, true)
  ]

unfoldable pub mmap : MemoryChunk → Option (List ℕ) → Option (MemoryChunk × Bool)
unfolding reset set_chunk checked_data
mmap c file = do
  d ← reset c
  elim (file >>= checked_data) [
    | none ↦ some (d, false)
    | some content ↦ set_chunk d content mapped >>= λ e. some (e, true)
  ]
