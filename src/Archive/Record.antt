-- ===== src/Archive/Record.antt =====
-- archive/RecordFormat: the records of the plaintext archive stream.
pub mod Laws
pub mod Sound
use bseal_cpp.Base.{
  ℕ, ◌+◌, ◌-◌, ◌*◌, ◌^◌, Bool, true, false, not, ltb, ◌==◌, length, take, drop, get_or, List, [],
  String, Option, none, some, Result, ok, err, invalid_argument, reject_if, if◌then◌else◌,
}
use bseal_cpp.Endian.{
  append_u8, append_u64_le, append_bytes, Parser, ◌>>=◌, ◌>>◌, pure, lift, read_bytes, read_u8,
  read_u64_le, sum_bytes_le,
}

pub data RecordType : Type 0 where
  archive_begin directory_entry file_entry file_bytes file_end symlink_entry archive_end
        random_padding :
      RecordType

-- The enumerator's value.
unfoldable pub type_byte : RecordType → ℕ
type_byte archive_begin = 1
type_byte directory_entry = 2
type_byte file_entry = 3
type_byte file_bytes = 4
type_byte file_end = 5
type_byte symlink_entry = 6
type_byte archive_end = 7
type_byte random_padding = 8

-- `static_cast<RecordType>(value)` where that is one of the enumerators: valid_record_type says
-- whether it is.
unfoldable pub record_type_of : ℕ → Option RecordType
record_type_of value =
    if value == 1
    then some archive_begin
    else if value == 2
    then some directory_entry
    else if value == 3
    then some file_entry
    else if value == 4
    then some file_bytes
    else if value == 5
    then some file_end
    else if value == 6
    then some symlink_entry
    else if value == 7
    then some archive_end
    else if value == 8
    then some random_padding
    else none

unfoldable pub checked_record_type : ℕ → Result RecordType
checked_record_type value = elim (record_type_of value) [
  | none ↦ err (invalid_argument "invalid archive record type")
  | some t ↦ ok t
]

pub record ArchiveRecord : Type 0 where
  pub type : RecordType
  pub payload : List ℕ

abbrev pub record_prefix_size : ℕ
record_prefix_size = 9

-- 128 MiB
abbrev pub max_record_payload_bytes : ℕ
max_record_payload_bytes = 128 * 1024 * 1024

unfoldable pub serialize_record : ArchiveRecord → List ℕ
serialize_record r =
    let out = append_u8 [] (type_byte r.type) in
    let out = append_u64_le out (length r.payload) in append_bytes out r.payload

-- `payload_size |= bytes[1 + i] << (8 * i)` for i below 8.
unfoldable pub declared_payload_size : List ℕ → ℕ
declared_payload_size bytes = sum_bytes_le 0 (take 8 (drop 1 bytes))

unfoldable pub complete_size : List ℕ → Result (Option ℕ)
complete_size bytes =
    let payload_size = declared_payload_size bytes in
    if ltb max_record_payload_bytes payload_size
    then err (invalid_argument "archive record payload exceeds maximum allowed size")
    else if ltb (2 ^ 64 - 1 - record_prefix_size) payload_size
    then err (invalid_argument "archive record payload is too large for this platform")
    else if ltb (length bytes) (record_prefix_size + payload_size)
    then ok none
    else ok (some (record_prefix_size + payload_size))

unfoldable pub encoded_record_size_if_complete : List ℕ → Result (Option ℕ)
unfolding complete_size
encoded_record_size_if_complete bytes =
    if ltb (length bytes) record_prefix_size
    then ok none
    else elim (checked_record_type (get_or bytes 0 0)) [
      | err e ↦ err e
      | ok _ ↦ complete_size bytes
    ]

abbrev pub truncated_record : String
truncated_record = "truncated archive record"

-- `require_eof(what)`
unfoldable pub require_eof : String → Parser (Unit {0})
require_eof trailing r = if length r == 0 then ok (tt, r) else err (invalid_argument trailing)

unfoldable pub read_record : Parser ArchiveRecord
read_record = do
  value ← read_u8 truncated_record
  type ← lift (checked_record_type value)
  payload_size ← read_u64_le truncated_record
  payload ← read_bytes truncated_record payload_size
  require_eof "archive record contains trailing bytes"
  pure (record { type = type; payload = payload })

unfoldable pub is_exactly : Option ℕ → ℕ → Bool
is_exactly none size = false
is_exactly (some n) size = n == size

unfoldable pub parse_record : List ℕ → Result ArchiveRecord
parse_record bytes = elim (encoded_record_size_if_complete bytes) [
  | err e ↦ err e
  | ok complete ↦
      if is_exactly complete (length bytes)
      then elim (read_record bytes) [ err e ↦ err e | ok (r, _) ↦ ok r ]
      else err (invalid_argument "record buffer does not contain exactly one complete record")
]
