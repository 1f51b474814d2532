-- ===== src/MemoryChunk.antt =====
-- src/include/memory_chunk.h: the growable byte buffer under every table of the library.
--
-- `buffer` holds the bytes from m_data_begin up to m_allocated and `data_end` is the offset of
-- m_data_end, so the bytes behind `data_end` are what the memory held before. A null pointer is
-- the empty buffer. malloc and realloc are taken to succeed, as the source asserts, and offsets
-- stay below 2 ^ 31, so that the `int` in ensure_has_space does not truncate. `none` is a call of
-- abort(), a failed assertion or a copy outside of the allocated bytes. A chunk set on memory of
-- another owner holds those bytes as they were at that time.
pub mod Contents
pub mod Reads
pub mod Gap
pub mod Growth
pub mod File
use libpinyin.Common.{
  ℕ, ◌+◌, ◌-◌, ◌*◌, max, Bool, true, false, Option, none, some, List, [], ◌++◌, ltb, leb, ◌==◌,
  if◌then◌else◌, ◌>>=◌, length, take, drop, replicate, overwrite,
}

-- Who frees the memory: nobody, free(), munmap(), or a function that freemem does not know.
pub data FreeFunc : Type 0 where
  unmanaged malloced mapped other : FreeFunc

pub record MemoryChunk : Type 0 where
  pub buffer : List ℕ
  pub data_end : ℕ
  pub free_func : FreeFunc

-- The constructor.
unfoldable pub empty_chunk : MemoryChunk
empty_chunk = record { buffer = []; data_end = 0; free_func = unmanaged }

-- freemem, called only where m_free_func is set.
unfoldable pub freemem : FreeFunc → Option (Unit {0})
freemem unmanaged = some tt
freemem malloced = some tt
freemem mapped = some tt
freemem other = none

unfoldable pub reset : MemoryChunk → Option MemoryChunk
unfolding freemem empty_chunk
reset c = do _ ← freemem c.free_func; some empty_chunk

unfoldable pub size : MemoryChunk → ℕ
size c = c.data_end

unfoldable pub capacity : MemoryChunk → ℕ
capacity c = length c.buffer

-- Enlarging memory that this chunk allocated.
unfoldable pub grow_managed : MemoryChunk → ℕ → MemoryChunk
unfolding size capacity
grow_managed c extra_size =
    if leb extra_size (capacity c - size c)
    then c
    else let newsize = max (capacity c * 2) (size c + extra_size) in
      record c { buffer = take (size c) c.buffer ++ replicate (newsize - size c) 0 }

-- Memory of another owner is copied.
unfoldable pub copy_on_resize : MemoryChunk → ℕ → Option MemoryChunk
unfolding size freemem
copy_on_resize c extra_size = do
  _ ← freemem c.free_func
  some (record {
    buffer = take (size c) c.buffer ++ replicate extra_size 0;
    data_end = size c;
    free_func = malloced;
  })

abbrev is_malloced : FreeFunc → Bool
is_malloced malloced = true
is_malloced _ = false

unfoldable pub ensure_has_more_space : MemoryChunk → ℕ → Option MemoryChunk
unfolding grow_managed copy_on_resize
ensure_has_more_space c extra_size =
    if extra_size == 0
    then some c
    else if is_malloced c.free_func
    then some (grow_managed c extra_size)
    else copy_on_resize c extra_size

unfoldable pub ensure_has_space : MemoryChunk → ℕ → Option MemoryChunk
unfolding size ensure_has_more_space
ensure_has_space c new_size =
    if leb new_size (size c) then some c else ensure_has_more_space c (new_size - size c)

unfoldable pub set_size : MemoryChunk → ℕ → Option MemoryChunk
unfolding ensure_has_space
set_size c newsize = do d ← ensure_has_space c newsize; some (record d { data_end = newsize })

unfoldable pub set_chunk : MemoryChunk → List ℕ → FreeFunc → Option MemoryChunk
unfolding freemem
set_chunk c bytes free_func = do
  _ ← freemem c.free_func
  some (record { buffer = bytes; data_end = length bytes; free_func = free_func })

unfoldable pub get_sub_chunk : MemoryChunk → ℕ → ℕ → Option MemoryChunk
unfolding set_chunk empty_chunk capacity
get_sub_chunk c offset len =
    if leb (offset + len) (capacity c)
    then set_chunk empty_chunk (take len (drop offset c.buffer)) unmanaged
    else none

unfoldable pub set_content : MemoryChunk → ℕ → List ℕ → Option MemoryChunk
unfolding ensure_has_space size
set_content c offset bytes = do
  let cursize = max (size c) (offset + length bytes)
  d ← ensure_has_space c (offset + length bytes)
  some (record d { buffer = overwrite offset bytes d.buffer; data_end = cursize })

unfoldable pub append_content : MemoryChunk → List ℕ → Option MemoryChunk
unfolding set_content size
append_content c bytes = set_content c (size c) bytes

unfoldable pub insert_content : MemoryChunk → ℕ → List ℕ → Option MemoryChunk
unfolding ensure_has_more_space size
insert_content c offset bytes = do
  d ← ensure_has_more_space c (length bytes)
  let move_size = size d - offset
  let moved = overwrite (offset + length bytes) (take move_size (drop offset d.buffer)) d.buffer
  if leb offset (size d)
      then some
          (record d { buffer = overwrite offset bytes moved; data_end = d.data_end + length bytes })
      else none

unfoldable pub remove_content : MemoryChunk → ℕ → ℕ → Option MemoryChunk
unfolding size
remove_content c offset len =
    let move_size = size c - offset - len in
    if leb (offset + len) (size c)
    then some (record c {
      buffer = overwrite offset (take move_size (drop (offset + len) c.buffer)) c.buffer;
      data_end = c.data_end - len;
    })
    else none

-- `none` is the result false; the template over a type asserts that this does not happen.
unfoldable pub get_content : MemoryChunk → ℕ → ℕ → Option (List ℕ)
unfolding size
get_content c offset len =
    if ltb (size c) (offset + len) then none else some (take len (drop offset c.buffer))

unfoldable pub compact_memory : MemoryChunk → MemoryChunk
unfolding size
compact_memory c =
    if is_malloced c.free_func then record c { buffer = take (size c) c.buffer } else c
