-- ===== src/PhraseIndexLogger.antt =====
-- src/storage/phrase_index_logger.h: the log of the changes to a phrase index.
--
-- A LOG_TYPE takes four bytes, a token four and a length two. A read beyond the log leaves the
-- variable it should fill at 0. `none` is a failed assertion, abort(), or a copy outside of the
-- allocated bytes; next_record gives no record where the source returns false.
pub mod Masked
pub mod Changes
pub mod Append
pub mod Next
pub mod RoundTrip
use libpinyin.Common.{
  ℕ, ◌+◌, ◌%◌, Bool, true, false, Option, none, some, List, leb, ltb, ◌==◌, if◌then◌else◌, ◌>>=◌,
  assert, length, take, drop,
}
use libpinyin.Common.Words.{encode32, decode32, encode16, decode16, u16_mod}
use libpinyin.MemoryChunk.{
  MemoryChunk, empty_chunk, reset, size, set_size, set_content, get_content,
}

pub data LogType : Type 0 where
  log_invalid_record log_add_record log_remove_record log_modify_record log_modify_header : LogType

abbrev pub code_of : LogType → ℕ
code_of log_invalid_record = 0
code_of log_add_record = 1
code_of log_remove_record = 2
code_of log_modify_record = 3
code_of log_modify_header = 4

-- Any other number takes the default case of the switch, as LOG_INVALID_RECORD does.
abbrev pub log_type_of : ℕ → LogType
log_type_of n =
    if n == 1
    then log_add_record
    else if n == 2
    then log_remove_record
    else if n == 3
    then log_modify_record
    else if n == 4
    then log_modify_header
    else log_invalid_record

abbrev pub null_token : ℕ
null_token = 0

pub record PhraseIndexLogger : Type 0 where
  pub chunk : MemoryChunk
  pub offset : ℕ
  pub error : Bool

unfoldable pub new_logger : PhraseIndexLogger
unfolding empty_chunk
new_logger = record { chunk = empty_chunk; offset = 0; error = false }

-- reset deletes the old chunk, and its destructor resets that one.
unfoldable pub load : PhraseIndexLogger → MemoryChunk → Option PhraseIndexLogger
unfolding reset
load l chunk = do _ ← reset l.chunk; some (record { chunk = chunk; offset = 0; error = false })

-- The bytes from the begin of a chunk to its end.
abbrev pub contents : MemoryChunk → List ℕ
contents c = take c.data_end c.buffer

unfoldable pub store : PhraseIndexLogger → MemoryChunk → Option MemoryChunk
unfolding set_content
store l new_chunk = set_content new_chunk 0 (contents l.chunk)

unfoldable pub has_next_record : PhraseIndexLogger → Bool
unfolding size
has_next_record l = if l.error then false else ltb l.offset (size l.chunk)

unfoldable pub rewind : PhraseIndexLogger → PhraseIndexLogger
rewind l = record l { offset = 0 }

unfoldable pub read32 : MemoryChunk → ℕ → ℕ
unfolding get_content
read32 c offset = elim (get_content c offset 4) [ none ↦ 0 | some bytes ↦ decode32 bytes ]

unfoldable pub read16 : MemoryChunk → ℕ → ℕ
unfolding get_content
read16 c offset = elim (get_content c offset 2) [ none ↦ 0 | some bytes ↦ decode16 bytes ]

-- set_content at 0 of bytes that stand in another chunk.
unfoldable pub copy_from : MemoryChunk → ℕ → ℕ → MemoryChunk → Option MemoryChunk
unfolding set_content
copy_from c offset len to =
    if leb (offset + len) (length c.buffer)
    then set_content to 0 (take len (drop offset c.buffer))
    else none

-- The cases of next_record's switch: the two chunks and the offset behind the record.
unfoldable pub read_record :
    LogType
    → ℕ
    → MemoryChunk
    → ℕ
    → MemoryChunk
    → MemoryChunk
    → Option (Option (MemoryChunk × MemoryChunk × ℕ))
unfolding read16 copy_from
read_record log_add_record token c offset oldone newone = do
  let len = read16 c offset
  newer ← copy_from c (offset + 2) len newone
  some (some (oldone, newer, offset + 2 + len))
read_record log_remove_record token c offset oldone newone = do
  let len = read16 c offset
  older ← copy_from c (offset + 2) len oldone
  some (some (older, newone, offset + 2 + len))
read_record log_modify_record token c offset oldone newone = do
  let oldlen = read16 c offset
  let newlen = read16 c (offset + 2)
  older ← copy_from c (offset + 2 + 2) oldlen oldone
  newer ← copy_from c (offset + 2 + 2 + oldlen) newlen newone
  some (some (older, newer, offset + 2 + 2 + oldlen + newlen))
read_record log_modify_header token c offset oldone newone = do
  _ ← assert (token == null_token)
  let len = read16 c offset
  older ← copy_from c (offset + 2) len oldone
  newer ← copy_from c (offset + 2 + len) len newone
  some (some (older, newer, offset + 2 + len + len))
read_record log_invalid_record token c offset oldone newone = some none

pub record LogRecord : Type 0 where
  pub log_type : LogType
  pub token : ℕ
  pub oldone : MemoryChunk
  pub newone : MemoryChunk

-- How next_record ends: with the record, or with the error mark set.
unfoldable pub finish_record :
    PhraseIndexLogger
    → LogType
    → ℕ
    → Option (MemoryChunk × MemoryChunk × ℕ)
    → PhraseIndexLogger × Option LogRecord
finish_record l log_type token none = (record l { error = true }, none)
finish_record l log_type token (some (older, newer, offset)) = (
  record l { offset = offset },
  some (record { log_type = log_type; token = token; oldone = older; newone = newer }),
)

unfoldable pub next_record :
    PhraseIndexLogger → MemoryChunk → MemoryChunk → Option (PhraseIndexLogger × Option LogRecord)
unfolding read32 read_record finish_record set_size
next_record l oldone newone = do
  let log_type = log_type_of (read32 l.chunk l.offset)
  let token = read32 l.chunk (l.offset + 4)
  older ← set_size oldone 0
  newer ← set_size newone 0
  result ← read_record log_type token l.chunk (l.offset + 4 + 4) older newer
  some (finish_record l log_type token result)

-- The cases of append_record's switch, which write behind the type and the token.
unfoldable pub write_record :
    LogType → ℕ → MemoryChunk → Option MemoryChunk → Option MemoryChunk → Option MemoryChunk
unfolding set_content size
write_record log_add_record token chunk none (some newone) = do
  let offset = 4 + 4
  chunk ← set_content chunk offset (encode16 (size newone % u16_mod))
  set_content chunk (offset + 2) (contents newone)
write_record log_remove_record token chunk (some oldone) none = do
  let offset = 4 + 4
  chunk ← set_content chunk offset (encode16 (size oldone % u16_mod))
  set_content chunk (offset + 2) (contents oldone)
write_record log_modify_record token chunk (some oldone) (some newone) = do
  let offset = 4 + 4
  let oldlen = size oldone % u16_mod
  chunk ← set_content chunk offset (encode16 oldlen)
  chunk ← set_content chunk (offset + 2) (encode16 (size newone % u16_mod))
  chunk ← set_content chunk (offset + 2 + 2) (contents oldone)
  set_content chunk (offset + 2 + 2 + oldlen) (contents newone)
write_record log_modify_header token chunk (some oldone) (some newone) = do
  _ ← assert (token == null_token)
  let offset = 4 + 4
  let oldlen = size oldone % u16_mod
  _ ← assert (oldlen == size newone % u16_mod)
  chunk ← set_content chunk offset (encode16 oldlen)
  chunk ← set_content chunk (offset + 2) (contents oldone)
  set_content chunk (offset + 2 + oldlen) (contents newone)
write_record _ _ _ _ _ = none

-- A null pointer is `none`.
unfoldable pub append_record :
    PhraseIndexLogger
    → LogType
    → ℕ
    → Option MemoryChunk
    → Option MemoryChunk
    → Option PhraseIndexLogger
unfolding set_content write_record size
append_record l log_type token oldone newone = do
  chunk ← set_content empty_chunk 0 (encode32 (code_of log_type))
  chunk ← set_content chunk 4 (encode32 token)
  chunk ← write_record log_type token chunk oldone newone
  log ← set_content l.chunk (size l.chunk) (contents chunk)
  some (record l { chunk = log })
