-- ===== src/PhraseIndexLogger/Changes.antt =====
-- The records of a log of src/storage/phrase_index_logger.h, and their bytes.
use libpinyin.Common.{ℕ, ◌<◌, ◌≡◌, none, some, Option, List, [], ◌++◌, length}
use libpinyin.Common.Words.{encode32, encode16, u16_mod, u32_mod}
use libpinyin.MemoryChunk.{MemoryChunk}
use libpinyin.MemoryChunk.Growth.{Holds}
use libpinyin.PhraseIndexLogger.{
  LogType, log_add_record, log_remove_record, log_modify_record, log_modify_header, code_of,
  null_token,
}

-- What one record says.
pub data Change : Type 0 where
  added removed : ℕ → List ℕ → Change
  modified : ℕ → List ℕ → List ℕ → Change
  header_modified : List ℕ → List ℕ → Change

abbrev pub type_of : Change → LogType
type_of (added _ _) = log_add_record
type_of (removed _ _) = log_remove_record
type_of (modified _ _ _) = log_modify_record
type_of (header_modified _ _) = log_modify_header

abbrev pub change_token : Change → ℕ
change_token (added token _) = token
change_token (removed token _) = token
change_token (modified token _ _) = token
change_token (header_modified _ _) = null_token

abbrev pub old_bytes : Change → Option (List ℕ)
old_bytes (added _ _) = none
old_bytes (removed _ bytes) = some bytes
old_bytes (modified _ before _) = some before
old_bytes (header_modified before _) = some before

abbrev pub new_bytes : Change → Option (List ℕ)
new_bytes (added _ bytes) = some bytes
new_bytes (removed _ _) = none
new_bytes (modified _ _ after) = some after
new_bytes (header_modified _ after) = some after

-- The lengths and the bytes of a record, behind its type and its token.
abbrev pub encode_body : Change → List ℕ
encode_body (added _ bytes) = encode16 (length bytes) ++ bytes
encode_body (removed _ bytes) = encode16 (length bytes) ++ bytes
encode_body (modified _ before after) =
    encode16 (length before) ++ (encode16 (length after) ++ (before ++ after))
encode_body (header_modified before after) = encode16 (length before) ++ (before ++ after)

abbrev pub encode_change : Change → List ℕ
encode_change e = encode32 (code_of (type_of e)) ++ (encode32 (change_token e) ++ encode_body e)

-- The lengths fit the two bytes kept for them, and a header keeps its length.
abbrev pub FitsLog : Change → Type 0
FitsLog (added token bytes) = (token < u32_mod) × (length bytes < u16_mod)
FitsLog (removed token bytes) = (token < u32_mod) × (length bytes < u16_mod)
FitsLog (modified token before after) =
    (token < u32_mod) × (length before < u16_mod) × (length after < u16_mod)
FitsLog (header_modified before after) = (length before < u16_mod) × (length before ≡ length after)

-- The pointers that a change is logged with: null where there are no bytes.
abbrev pub pointer_to : MemoryChunk → Option (List ℕ) → Option MemoryChunk
pointer_to c none = none
pointer_to c (some bytes) = some c

abbrev pub Carries : MemoryChunk → Option (List ℕ) → Type 0
Carries c none = Unit {0}
Carries c (some bytes) = Holds c bytes

abbrev pub bytes_of : Option (List ℕ) → List ℕ
bytes_of none = []
bytes_of (some bytes) = bytes
