-- ===== src/Archive/Reader.antt =====
-- archive/ArchiveReader.cpp: the state of an extraction and its record handlers. What the operating
-- system answers is the parameter `works`: whether an effect succeeds after the effects so far.
pub mod Effects
pub mod Grammar
pub mod Moves
pub mod Stream
use bseal_cpp.Base.{
  ℕ, ◌+◌, ◌-◌, ◌^◌, Bool, true, false, not, ◌&&◌, ◌||◌, ltb, leb, ◌==◌, length, get_or, List, [],
  ◌∷◌, String, none, Result, ok, err, invalid_argument, reject_if, ◌>>=◌, ◌>>◌, if◌then◌else◌, ◌%◌,
}
use bseal_cpp.Endian.{sum_bytes_le}
use bseal_cpp.Frame.Bytes.{equal_bytes}
use bseal_cpp.Archive.Record.{RecordType, ArchiveRecord}
use bseal_cpp.Archive.Path.{dot, parts, is_safe_relative_path, make_safe_output_path}
use bseal_cpp.Archive.Meta.Rules.{EntryKind, EntryMetadata, is_symlink, is_directory, is_regular}
use bseal_cpp.Archive.Meta.{parse_entry_metadata}

-- A path below a root: its parts, the last one first, and an empty one for a trailing slash. The two roots of
-- a reader have the first part first.
abbrev pub Place : Type 0
Place = List (List ℕ)

pub data Effect : Type 0 where
  create_directories : Place → Effect
  open_file : Place → Effect
  write_bytes : List ℕ → Effect
  close_file : Effect
  permissions : Place → ℕ → Effect
  last_write_time : Place → ℕ → Effect
  make_symlink : List ℕ → Place → Effect
  commit_temp_tree : Effect
  remove_temp_tree : Effect

pub record ArchiveReaderOptions : Type 0 where
  pub output_root : Place
  pub restore_timestamps : Bool
  pub restore_permissions : Bool
  pub allow_symlinks : Bool

-- The members of the class but `pending_`, with the effects so far. Both lists have the last entry first.
pub record ArchiveReader : Type 0 where
  pub options : ArchiveReaderOptions
  pub temp_root : Place
  pub archive_begin_seen : Bool
  pub archive_end_seen : Bool
  pub finished : Bool
  pub current_file_open : Bool
  pub current_file_archive_path : List ℕ
  pub current_file_metadata : EntryMetadata
  pub current_file_written : ℕ
  pub deferred_directory_metadata : List EntryMetadata
  pub log : List Effect

unfoldable pub no_metadata : EntryMetadata
no_metadata = record {
  kind = EntryKind.regular_file;
  relative_path = [];
  original_size = 0;
  posix_mode = 0;
  times = record { modified = 0; accessed = none; created = none };
  symlink_target = [];
}

unfoldable pub is_padding : RecordType → Bool
is_padding RecordType.random_padding = true
is_padding _ = false

unfoldable pub new_reader : ArchiveReaderOptions → Place → ArchiveReader
new_reader options temp_root = record {
  options = options;
  temp_root = temp_root;
  archive_begin_seen = false;
  archive_end_seen = false;
  finished = false;
  current_file_open = false;
  current_file_archive_path = [];
  current_file_metadata = no_metadata;
  current_file_written = 0;
  deferred_directory_metadata = [];
  log = [];
}

-- `path.parent_path()`: the path without its last part, which is empty behind a trailing slash.
unfoldable pub parent_path : Place → Place
parent_path [] = []
parent_path (_ ∷ above) = above

unfoldable pub temp_path_for : ArchiveReader → List ℕ → Result Place
temp_path_for s path = make_safe_output_path s.temp_root path

unfoldable pub final_path_for : ArchiveReader → List ℕ → Result Place
final_path_for s path = make_safe_output_path s.options.output_root path

unfoldable pub begin_archive : ArchiveReader → List ℕ → Result ArchiveReader
begin_archive s payload = do
  reject_if s.archive_begin_seen "duplicate ArchiveBegin record"
  reject_if (not (length payload == 4)) "invalid ArchiveBegin payload"
  reject_if (not (sum_bytes_le 0 payload == 1)) "unsupported archive stream version"
  ok (record s { archive_begin_seen = true })

unfoldable pub end_archive : ArchiveReader → Result ArchiveReader
end_archive s = do
  reject_if (not s.archive_begin_seen) "ArchiveEnd before ArchiveBegin"
  reject_if s.current_file_open "ArchiveEnd while a file is open"
  ok (record s { archive_end_seen = true })

unfoldable pub pad_archive : ArchiveReader → Result ArchiveReader
pad_archive s = do
  reject_if (not s.archive_end_seen) "RandomPadding record is only valid after ArchiveEnd"
  ok s

module _ (works : List Effect → Effect → Bool) where
  unfoldable pub perform : ArchiveReader → Effect → String → Result ArchiveReader
  perform s effect message = do
    reject_if (not (works s.log effect)) message
    ok (record s { log = effect ∷ s.log })

  -- The mode keeps rwxrwxrwx only: `bits & 00777`.
  unfoldable pub restore_mode : ArchiveReader → Place → EntryMetadata → Result ArchiveReader
  restore_mode s path m =
      if s.options.restore_permissions && not (m.posix_mode == 0)
      then perform s (permissions path (m.posix_mode % 512)) "cannot restore permissions"
      else ok s

  unfoldable pub restore_time : ArchiveReader → Place → EntryMetadata → Result ArchiveReader
  restore_time s path m =
      if s.options.restore_timestamps && (not (m.times.modified == 0) && not (is_symlink m.kind))
      then perform s (last_write_time path m.times.modified) "cannot restore modification time"
      else ok s

  unfoldable pub apply_metadata_to_path :
      ArchiveReader → Place → EntryMetadata → Result ArchiveReader
  apply_metadata_to_path s path m = do s ← restore_mode s path m; restore_time s path m

  unfoldable pub create_directory : ArchiveReader → EntryMetadata → Result ArchiveReader
  create_directory s m = do
    reject_if (not s.archive_begin_seen) "directory record before ArchiveBegin"
    reject_if (not (is_directory m.kind)) "DirectoryEntry record contains non-directory metadata"
    path ← temp_path_for s m.relative_path
    s ← perform s (create_directories path) "cannot create extracted directory"
    ok (record s { deferred_directory_metadata = m ∷ s.deferred_directory_metadata })

  unfoldable pub begin_file : ArchiveReader → EntryMetadata → Result ArchiveReader
  begin_file s m = do
    reject_if (not s.archive_begin_seen) "file record before ArchiveBegin"
    reject_if s.current_file_open "nested file records are invalid"
    reject_if (not (is_regular m.kind)) "FileEntry record contains non-file metadata"
    path ← temp_path_for s m.relative_path
    s ←
        perform s (create_directories (parent_path path))
          "cannot create parent directory for extracted file"
    s ← perform s (open_file path) "cannot open temporary output file"
    ok (record s {
      current_file_open = true;
      current_file_archive_path = m.relative_path;
      current_file_metadata = m;
      current_file_written = 0;
    })

  -- `original_size - current_file_written_` is a subtraction modulo 2 ^ 64.
  unfoldable pub write_file_bytes : ArchiveReader → List ℕ → Result ArchiveReader
  write_file_bytes s bytes = do
    reject_if (not s.current_file_open) "FileBytes record outside a file"
    reject_if
        (ltb ((s.current_file_metadata.original_size + 2 ^ 64 - s.current_file_written) % 2 ^ 64)
          (length bytes))
        "file payload exceeds declared file size"
    s ← perform s (write_bytes bytes) "error while writing temporary output file"
    ok (record s { current_file_written = (s.current_file_written + length bytes) % 2 ^ 64 })

  unfoldable pub end_file : ArchiveReader → Result ArchiveReader
  end_file s = do
    reject_if (not s.current_file_open) "FileEnd record outside a file"
    reject_if (not (s.current_file_written == s.current_file_metadata.original_size))
        "file payload ended before declared file size"
    s ← perform s close_file "error while closing temporary output file"
    path ← temp_path_for s s.current_file_archive_path
    s ← apply_metadata_to_path s path s.current_file_metadata
    ok (record s {
      current_file_open = false;
      current_file_archive_path = [];
      current_file_metadata = no_metadata;
      current_file_written = 0;
    })

  unfoldable pub create_symlink : ArchiveReader → EntryMetadata → Result ArchiveReader
  create_symlink s m = do
    reject_if (not s.archive_begin_seen) "symlink record before ArchiveBegin"
    reject_if (not (is_symlink m.kind)) "SymlinkEntry record contains non-symlink metadata"
    reject_if (not s.options.allow_symlinks)
        "archive contains symlink but symlink extraction is disabled"
    reject_if (equal_bytes m.symlink_target dot || not (is_safe_relative_path m.symlink_target))
        "unsafe symlink target rejected during extraction"
    path ← temp_path_for s m.relative_path
    s ←
        perform s (create_directories (parent_path path))
          "cannot create parent directory for extracted symlink"
    perform s (make_symlink m.symlink_target path) "cannot create extracted symlink"

  unfoldable pub dispatch : ArchiveReader → RecordType → List ℕ → Result ArchiveReader
  dispatch s RecordType.archive_begin payload = begin_archive s payload
  dispatch s RecordType.directory_entry payload = do
    m ← parse_entry_metadata payload
    create_directory s m
  dispatch s RecordType.file_entry payload = do m ← parse_entry_metadata payload; begin_file s m
  dispatch s RecordType.file_bytes payload = write_file_bytes s payload
  dispatch s RecordType.file_end payload = end_file s
  dispatch s RecordType.symlink_entry payload = do
    m ← parse_entry_metadata payload
    create_symlink s m
  dispatch s RecordType.archive_end payload = end_archive s
  dispatch s RecordType.random_padding payload = pad_archive s

  unfoldable pub process_record : ArchiveReader → ArchiveRecord → Result ArchiveReader
  process_record s r = do
    reject_if (s.archive_end_seen && not (is_padding r.type))
        "non-padding record found after ArchiveEnd"
    dispatch s r.type r.payload
