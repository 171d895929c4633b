-- ===== src/Tests/Archive.antt =====
-- The archive stream: records, metadata, paths and an extraction.
use bseal_cpp.Base.{
  ◌⊎◌, ℕ, ◌^◌, ◌<◌, ◌≡◌, ◌≢◌, refl, Bool, true, false, List, [], ◌∷◌, ◌++◌, none, ok, arith,
}
use bseal_cpp.Frame.Bytes.{equal_bytes}
use bseal_cpp.Endian.{
  AreBytes, sum_bytes_le, read_bytes, read_u8, read_u32_le, read_u64_le, read_i64_le, append_u8,
  append_u64_le, append_bytes, push_bytes_le,
}
use bseal_cpp.Endian
use bseal_cpp.Endian.Inverse.{are_bytes}
use bseal_cpp.Archive.Record.{
  RecordType, ArchiveRecord, record_type_of, checked_record_type, serialize_record,
  declared_payload_size, complete_size, encoded_record_size_if_complete, require_eof, read_record,
  is_exactly, parse_record,
}
use bseal_cpp.Archive.Record.Laws.{parse-serialize_record, encoded_size_extend}
use bseal_cpp.Archive.Record.Sound.{parse_record_sound}
use bseal_cpp.Archive.Path.{
  path_parts, relative_parts, after_slashes, parts, append_path, lexically_normal, ends_in_dots,
  starts_with_slash, has_windows_root, is_alpha, parts_are_safe, is_safe_relative_path, normal_push,
  normalize, make_safe_output_path,
}
use bseal_cpp.Archive.Path.Confined.{NoDotDot, make_safe_output_path_confined}
use bseal_cpp.Archive.Meta.Rules.{
  EntryKind, EntryMetadata, MetadataFits, MetadataRules, parse_entry_kind, is_symlink, is_directory,
  is_regular, check_entry_metadata,
}
use bseal_cpp.Archive.Meta.{
  serialize_entry_metadata, parse_entry_metadata, read_string, read_when, read_optional,
  read_metadata,
}
use bseal_cpp.Archive.Meta.Laws.{parse-serialize_metadata}
use bseal_cpp.Archive.Meta.Sound.{parse_metadata_sound}
use bseal_cpp.Archive.Reader.{
  Effect, Place, ArchiveReaderOptions, ArchiveReader, no_metadata, new_reader, parent_path,
  temp_path_for, is_padding, begin_archive, end_archive, perform, restore_mode, restore_time,
  apply_metadata_to_path, begin_file, write_file_bytes, end_file, dispatch, process_record,
}
use bseal_cpp.Archive.Reader.Grammar.{FormatStep, StandsInside, Phase, phase, Valid}
use bseal_cpp.Archive.Reader.Moves.{process_record_moves}
use bseal_cpp.Archive.Reader.Effects.{LogSafe}
use bseal_cpp.Archive.Reader.Stream.{
  Drained, deepest_first, drain_round, drain, drain_all, consume, apply_all,
  apply_deferred_directory_metadata, finish_now, finish, extract,
}
use bseal_cpp.Archive.Reader.Stream.Laws.{and_then, drain_ends}
use bseal_cpp.Archive.Reader.Stream.Run.{Run, stream}
use bseal_cpp.Archive.Reader.Stream.Extraction.{
  concat, consume-append, extract-concat, extraction_sound,
}

-- One file "a" of two bytes, in a stream that is cut in the middle of its metadata.
abbrev first_buffer : List ℕ
first_buffer =
    1 ∷ 4 ∷ 0 ∷ 0 ∷ 0 ∷ 0 ∷ 0 ∷ 0 ∷ 0 ∷ 1 ∷ 0 ∷ 0 ∷ 0 ∷ 3 ∷ 32 ∷ 0 ∷ 0 ∷ 0 ∷ 0 ∷ 0 ∷ 0 ∷ 0 ∷ 1 ∷ 1
    ∷ 0 ∷ 0 ∷ 0 ∷ []

abbrev second_buffer : List ℕ
second_buffer =
    97 ∷ 2 ∷ 0 ∷ 0 ∷ 0 ∷ 0 ∷ 0 ∷ 0 ∷ 0 ∷ 0 ∷ 0 ∷ 0 ∷ 0 ∷ 0 ∷ 0 ∷ 0 ∷ 0 ∷ 0 ∷ 0 ∷ 0 ∷ 0 ∷ 0 ∷ 0 ∷ 0
    ∷ 0 ∷ 0 ∷ 0 ∷ 4 ∷ 2 ∷ 0 ∷ 0 ∷ 0 ∷ 0 ∷ 0 ∷ 0 ∷ 0 ∷ 5 ∷ 6 ∷ 5 ∷ 0 ∷ 0 ∷ 0 ∷ 0 ∷ 0 ∷ 0 ∷ 0 ∷ 0 ∷ 7
    ∷ 0 ∷ 0 ∷ 0 ∷ 0 ∷ 0 ∷ 0 ∷ 0 ∷ 0 ∷ []

abbrev options : ArchiveReaderOptions
options = record {
  output_root = (b'o' ∷ []) ∷ [];
  restore_timestamps = false;
  restore_permissions = false;
  allow_symlinks = false;
}

abbrev temp_root : Place
temp_root = (b't' ∷ []) ∷ []

-- Every effect succeeds.
abbrev all_work : List Effect → Effect → Bool
all_work log effect = true

abbrev file_place : Place
file_place = (b'a' ∷ []) ∷ (b't' ∷ []) ∷ []

abbrev extracted_log : List Effect
extracted_log =
    Effect.remove_temp_tree
    ∷ Effect.commit_temp_tree
    ∷ Effect.close_file
    ∷ Effect.write_bytes (5 ∷ 6 ∷ [])
    ∷ Effect.open_file file_place
    ∷ Effect.create_directories temp_root
    ∷ []

abbrev extracted : ArchiveReader
extracted = record {
  options = options;
  temp_root = temp_root;
  archive_begin_seen = true;
  archive_end_seen = true;
  finished = true;
  current_file_open = false;
  current_file_archive_path = [];
  current_file_metadata = record {
    kind = EntryKind.regular_file;
    relative_path = [];
    original_size = 0;
    posix_mode = 0;
    times = record { modified = 0; accessed = none; created = none };
    symlink_target = [];
  };
  current_file_written = 0;
  deferred_directory_metadata = [];
  log = extracted_log;
}

extract_example :
    extract all_work (new_reader options temp_root) [] (first_buffer ∷ second_buffer ∷ [])
    ≡ ok extracted
unfolding new_reader no_metadata extract consume drain_all drain drain_round
    encoded_record_size_if_complete complete_size checked_record_type record_type_of
    declared_payload_size sum_bytes_le parse_record is_exactly read_record read_u8 read_u32_le
    read_u64_le read_i64_le read_bytes Endian.◌>>=◌ Endian.◌>>◌ require_eof process_record
    is_padding dispatch begin_archive begin_file write_file_bytes end_file end_archive perform
    temp_path_for parent_path apply_metadata_to_path restore_mode restore_time parse_entry_metadata
    read_metadata read_string read_optional read_when parse_entry_kind check_entry_metadata
    is_symlink is_directory is_regular make_safe_output_path is_safe_relative_path parts
    relative_parts after_slashes append_path lexically_normal ends_in_dots path_parts
    starts_with_slash has_windows_root is_alpha parts_are_safe normalize normal_push equal_bytes
    finish finish_now apply_deferred_directory_metadata apply_all deepest_first
extract_example = refl

extraction_sound_example :
    (rs : List ArchiveRecord) × (concat (first_buffer ∷ second_buffer ∷ []) ≡ stream rs)
    × Run Phase.before rs Phase.after
    × LogSafe temp_root options extracted_log
    × (true ≡ true)
extraction_sound_example =
    extraction_sound all_work options temp_root (first_buffer ∷ second_buffer ∷ []) extracted
      (are_bytes (concat (first_buffer ∷ second_buffer ∷ [])) refl) extract_example

extract-concat_example :
    extract all_work (new_reader options temp_root) [] (first_buffer ∷ second_buffer ∷ [])
    ≡ extract all_work
        (new_reader options temp_root)
        []
        (concat (first_buffer ∷ second_buffer ∷ []) ∷ [])
extract-concat_example =
    extract-concat all_work (new_reader options temp_root) [] first_buffer (second_buffer ∷ [])

consume-append_example :
    consume all_work (new_reader options temp_root) [] (first_buffer ++ second_buffer)
    ≡ and_then
        (consume all_work (new_reader options temp_root) [] first_buffer)
        (λ t q. consume all_work t q second_buffer)
consume-append_example =
    consume-append all_work (new_reader options temp_root) [] first_buffer second_buffer

drain_ends_example : drain all_work 40 (new_reader options temp_root) first_buffer ≢ Drained.starved
drain_ends_example =
    drain_ends all_work 40 (new_reader options temp_root) first_buffer (omega arith)

abbrev begun : ArchiveReader
begun = record extracted { archive_end_seen = false; finished = false; log = [] }

abbrev in_file : ArchiveReader
in_file = record begun {
  current_file_open = true;
  current_file_archive_path = b'a' ∷ [];
  current_file_metadata = record {
    kind = EntryKind.regular_file;
    relative_path = b'a' ∷ [];
    original_size = 2;
    posix_mode = 0;
    times = record { modified = 0; accessed = none; created = none };
    symlink_target = [];
  };
}

in_file-Valid : Valid in_file
in_file-Valid = record {
  size_fits = omega arith;
  within = omega arith;
  opened = λ _. refl;
  ended = λ _. refl;
  closed = λ e. cc;
}

abbrev one_byte : ArchiveRecord
one_byte = record { type = RecordType.file_bytes; payload = 5 ∷ [] }

abbrev one_written : ArchiveReader
one_written = record in_file { current_file_written = 1; log = Effect.write_bytes (5 ∷ []) ∷ [] }

one_byte_written : process_record all_work in_file one_byte ≡ ok one_written
unfolding process_record is_padding dispatch write_file_bytes perform
one_byte_written = refl

process_record_moves_example :
    (FormatStep (phase in_file) RecordType.file_bytes 1 (phase one_written)
      ⊎ StandsInside (phase in_file) RecordType.file_bytes (phase one_written))
    × Valid one_written
process_record_moves_example =
    process_record_moves all_work in_file one_written one_byte (are_bytes (5 ∷ []) refl)
      in_file-Valid one_byte_written

parse-serialize_record_example : parse_record (serialize_record one_byte) ≡ ok one_byte
parse-serialize_record_example = parse-serialize_record one_byte (omega arith)

abbrev record_bytes : List ℕ
record_bytes = 4 ∷ 1 ∷ 0 ∷ 0 ∷ 0 ∷ 0 ∷ 0 ∷ 0 ∷ 0 ∷ 5 ∷ []

record_parsed : parse_record record_bytes ≡ ok one_byte
unfolding parse_record encoded_record_size_if_complete complete_size checked_record_type
    record_type_of declared_payload_size sum_bytes_le is_exactly read_record read_u8 read_u64_le
    read_bytes Endian.◌>>=◌ Endian.◌>>◌ require_eof
record_parsed = refl

parse_record_sound_example : (serialize_record one_byte ≡ record_bytes) × AreBytes (5 ∷ [])
parse_record_sound_example =
    parse_record_sound record_bytes one_byte (are_bytes record_bytes refl) record_parsed

record_complete : encoded_record_size_if_complete record_bytes ≢ ok none
unfolding encoded_record_size_if_complete complete_size checked_record_type record_type_of
    declared_payload_size sum_bytes_le
record_complete e = cc

encoded_size_extend_example :
    encoded_record_size_if_complete (record_bytes ++ (7 ∷ []))
    ≡ encoded_record_size_if_complete record_bytes
encoded_size_extend_example = encoded_size_extend record_bytes (7 ∷ []) record_complete

abbrev file_a : EntryMetadata
file_a = in_file.current_file_metadata

file_a-MetadataFits : MetadataFits file_a
file_a-MetadataFits = record {
  path_fits = omega arith;
  size_fits = omega arith;
  mode_fits = omega arith;
  modified_fits = omega arith;
  accessed_fits = tt;
  created_fits = tt;
  target_fits = omega arith;
}

file_a-MetadataRules : MetadataRules file_a
unfolding equal_bytes is_safe_relative_path parts relative_parts after_slashes append_path
    lexically_normal ends_in_dots path_parts starts_with_slash has_windows_root is_alpha
    parts_are_safe is_regular
file_a-MetadataRules = record { not_dot = refl; safe = refl; target = λ _. refl; size = λ e. cc }

parse-serialize_metadata_example :
    (out : List ℕ) × (serialize_entry_metadata file_a ≡ ok out)
    × (parse_entry_metadata out ≡ ok file_a)
parse-serialize_metadata_example =
    parse-serialize_metadata file_a file_a-MetadataFits file_a-MetadataRules

abbrev file_a_bytes : List ℕ
file_a_bytes =
    1 ∷ 1 ∷ 0 ∷ 0 ∷ 0 ∷ 97 ∷ 2 ∷ 0 ∷ 0 ∷ 0 ∷ 0 ∷ 0 ∷ 0 ∷ 0 ∷ 0 ∷ 0 ∷ 0 ∷ 0 ∷ 0 ∷ 0 ∷ 0 ∷ 0 ∷ 0 ∷ 0
    ∷ 0 ∷ 0 ∷ 0 ∷ 0 ∷ 0 ∷ 0 ∷ 0 ∷ 0 ∷ []

file_a_parsed : parse_entry_metadata file_a_bytes ≡ ok file_a
unfolding sum_bytes_le read_u8 read_u32_le read_u64_le read_i64_le read_bytes Endian.◌>>=◌
    Endian.◌>>◌ require_eof parse_entry_metadata read_metadata read_string read_optional read_when
    parse_entry_kind check_entry_metadata is_symlink is_directory is_regular is_safe_relative_path
    parts relative_parts after_slashes path_parts starts_with_slash has_windows_root is_alpha
    parts_are_safe equal_bytes
file_a_parsed = refl

parse_metadata_sound_example : MetadataRules file_a × (2 < 2 ^ 64)
parse_metadata_sound_example =
    parse_metadata_sound file_a_bytes file_a (are_bytes file_a_bytes refl) file_a_parsed

place_made : make_safe_output_path temp_root (b'a' ∷ []) ≡ ok file_place
unfolding make_safe_output_path is_safe_relative_path parts relative_parts after_slashes append_path
    lexically_normal ends_in_dots path_parts starts_with_slash has_windows_root is_alpha
    parts_are_safe normalize normal_push equal_bytes
place_made = refl

make_safe_output_path_confined_example :
    (new : Place) × (file_place ≡ new ++ normalize [] temp_root)
    × NoDotDot new
    × (new ≡ [] → file_place ≡ [])
make_safe_output_path_confined_example =
    make_safe_output_path_confined temp_root (b'a' ∷ []) file_place place_made
