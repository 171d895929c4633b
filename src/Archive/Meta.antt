-- ===== src/Archive/Meta.antt =====
-- archive/Metadata.hpp, serialize_entry_metadata and parse_entry_metadata (archive/RecordFormat.cpp).
-- A path is its generic string, a text its bytes, a signed time its 64-bit pattern.
pub mod Rules
pub mod Laws
pub mod Sound
use bseal_cpp.Base.{
  ℕ, ◌-◌, ◌^◌, Bool, true, false, not, ◌||◌, ltb, ◌==◌, length, List, [], String, Option, none,
  some, Result, ok, err, invalid_argument, reject_if, if◌then◌else◌,
}
use bseal_cpp.Endian.{
  append_u8, append_u32_le, append_u64_le, append_i64_le, append_bytes, Parser, ◌>>=◌, ◌>>◌, pure,
  lift, read_bytes, read_u8, read_u32_le, read_u64_le, read_i64_le,
}
use bseal_cpp.Frame.Bytes.{equal_bytes}
use bseal_cpp.Archive.Record.{require_eof, truncated_record}
use bseal_cpp.Archive.Path.{dot, is_safe_relative_path}
use Rules.{EntryKind, EntryMetadata, FileTimes, kind_byte, parse_entry_kind, check_entry_metadata}

unfoldable pub append_string : List ℕ → List ℕ → List ℕ
append_string out value = append_bytes (append_u32_le out (length value)) value

unfoldable pub append_optional : List ℕ → Option ℕ → List ℕ
append_optional out none = append_u8 out 0
append_optional out (some time) = append_i64_le (append_u8 out 1) time

unfoldable pub string_too_large : List ℕ → Bool
string_too_large value = ltb (2 ^ 32 - 1) (length value)

unfoldable pub append_metadata : List ℕ → EntryMetadata → List ℕ
append_metadata out m =
    let out = append_u8 out (kind_byte m.kind) in
    let out = append_string out m.relative_path in
    let out = append_u64_le out m.original_size in
    let out = append_u32_le out m.posix_mode in
    let out = append_i64_le out m.times.modified in
    let out = append_optional out m.times.accessed in
    let out = append_optional out m.times.created in append_string out m.symlink_target

-- append_string throws on a text of 2 ^ 32 bytes or more.
unfoldable pub serialize_entry_metadata : EntryMetadata → Result (List ℕ)
unfolding string_too_large
serialize_entry_metadata m =
    if string_too_large m.relative_path || string_too_large m.symlink_target
    then err (invalid_argument "archive string is too large")
    else ok (append_metadata [] m)

unfoldable pub read_string : Parser (List ℕ)
read_string = do len ← read_u32_le truncated_record; read_bytes truncated_record len

unfoldable pub read_when : ℕ → Parser (Option ℕ)
read_when flag =
    if flag == 1 then (do t ← read_i64_le truncated_record; pure (some t)) else pure none

unfoldable pub read_optional : Parser (Option ℕ)
unfolding read_when
read_optional = do
  flag ← read_u8 truncated_record
  lift (reject_if (ltb 1 flag) "invalid optional timestamp flag")
  read_when flag

unfoldable pub read_metadata : Parser EntryMetadata
read_metadata = do
  value ← read_u8 truncated_record
  kind ← lift (parse_entry_kind value)
  path ← read_string
  lift (
      reject_if (equal_bytes path dot || not (is_safe_relative_path path))
        "unsafe path inside archive metadata")
  original_size ← read_u64_le truncated_record
  posix_mode ← read_u32_le truncated_record
  modified ← read_i64_le truncated_record
  accessed ← read_optional
  created ← read_optional
  symlink_target ← read_string
  require_eof "entry metadata contains trailing bytes"
  pure (record {
    kind = kind;
    relative_path = path;
    original_size = original_size;
    posix_mode = posix_mode;
    times = record { modified = modified; accessed = accessed; created = created };
    symlink_target = symlink_target;
  })

unfoldable pub parse_entry_metadata : List ℕ → Result EntryMetadata
parse_entry_metadata bytes = elim (read_metadata bytes) [
  | err e ↦ err e
  | ok (m, _) ↦ elim (check_entry_metadata m) [ err e ↦ err e | ok _ ↦ ok m ]
]
