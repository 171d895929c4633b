-- ===== src/Tests/Io.antt =====
-- The files of an archive of two chunks in two shards.
use bseal_cpp.Base.{
  ℕ, zero, suc, if◌then◌else◌, ◌+◌, ◌≡◌, ◌↔◌, refl, List, [], ◌∷◌, ◌++◌, replicate, length, Option,
  none, some, true, false, ok, arith, Bool,
}
use bseal_cpp.Frame.{ChunkFrameHeaderV1}
use bseal_cpp.Frame.Chunk.{
  read_chunk, parse_chunk_frame_header_v1, chunk_frame_v1_encoded_size,
  chunk_frame_v1_encoded_size_from_params,
}
use bseal_cpp.Frame.Global.{
  serialize_global_public_header, append_identity, append_sizes, append_limits,
}
use bseal_cpp.Frame.Mac.{verify_shard_header_mac, compute_shard_header_mac, header_message}
use bseal_cpp.Frame.Shard.{
  serialize_shard_public_header, serialize_shard_public_header_for_mac, append_shard,
}
use bseal_cpp.Frame.Bytes.{equal_bytes, parse_block}
use bseal_cpp.Frame.Chunk.Rules.{check_chunk_header, validate_chunk_frame_header_v1}
use bseal_cpp.Endian.{
  all_zero, append_bytes, append_u16_le, append_u32_le, append_u64_le, push_bytes_le, read_bytes,
  read_u16_le, read_u32_le, read_u64_le, sum_bytes_le, ◌>>◌,
}
use bseal_cpp.Io.Discover.{ShardInfo, sort_shards, insert_shard}
use bseal_cpp.Io.Stream.{read_exact}
use bseal_cpp.Io.Validate.{
  ShardReaderValidation, validate_with_key, validate_shards, check_shards, check_shard,
  check_expected, check_ranges, checked_range_end, contains, require_indices, authenticate,
}
use bseal_cpp.Io.Validate.Complete.{IsComplete, validated-IsComplete}
use bseal_cpp.Io.Reader.{
  ChunkRecord, new_reader, read_records, read_next_chunk_record, read_loop, open_current_shard,
  read_record, check_place, check_lengths, check_body, end_of_shards,
  close_current_shard_and_check_trailing_garbage, should_be_final,
}
use bseal_cpp.Io.Reader.Remaining.{FromShards}
use bseal_cpp.Io.Reader.Exact.{read_exactly}
use bseal_cpp.Io.Reader.Sequence.{InSequence, chunks-InSequence}
use bseal_cpp.Tests.Frame.{small_global, small_shard, constant_mac}

abbrev frame : ℕ → Bool → ChunkFrameHeaderV1
frame index final = record {
  frame_flags = if final then 1 else 0;
  shard_index = index;
  global_chunk_index = index;
  plaintext_len = 2;
  ciphertext_len = 2;
  tag_len = 16;
}

abbrev frame_header_bytes : ℕ → Bool → List ℕ
frame_header_bytes index final =
    b'B'
    ∷ b'S'
    ∷ b'C'
    ∷ b'1'
    ∷ 40
    ∷ 0
    ∷ (if final then 1 else 0)
    ∷ 0
    ∷ index
    ∷ 0
    ∷ 0
    ∷ 0
    ∷ index
    ∷ 0
    ∷ 0
    ∷ 0
    ∷ 0
    ∷ 0
    ∷ 0
    ∷ 0
    ∷ 2
    ∷ 0
    ∷ 0
    ∷ 0
    ∷ 2
    ∷ 0
    ∷ 0
    ∷ 0
    ∷ 0
    ∷ 0
    ∷ 0
    ∷ 0
    ∷ 16
    ∷ replicate 7 0

abbrev chunk : ℕ → Bool → ChunkRecord
chunk index final = record {
  chunk_index = index;
  shard_index = index;
  plaintext_size = 2;
  frame_flags = if final then 1 else 0;
  frame_header_bytes = frame_header_bytes index final;
  ciphertext = replicate 18 (index + 3);
}

abbrev shard : ℕ → ShardInfo
shard index = record {
  path = index ∷ [];
  global_header = record small_global {
    chunk_plain_size = 2;
    shard_count = 2;
    global_chunk_count = 2;
  };
  shard_header = record small_shard {
    shard_index = index;
    first_global_chunk_index = index;
    shard_chunk_count = 1;
    shard_payload_len = 58;
  };
  public_header_hash = replicate 32 1;
  file_size = 330;
}

abbrev shard_file : ℕ → Bool → List ℕ
shard_file index final =
    replicate 272 0 ++ (frame_header_bytes index final ++ replicate 18 (index + 3))

abbrev test_files : List ℕ → Option (List ℕ)
test_files [] = none
test_files (zero ∷ _) = some (shard_file 0 false)
test_files (suc _ ∷ _) = some (shard_file 1 true)

abbrev no_expectation : ShardReaderValidation
no_expectation = record {
  suite_id = none;
  archive_id = none;
  chunk_plain_size = some 2;
  public_header_hash = none;
}

abbrev key : List ℕ
key = replicate 32 8

abbrev both_chunks : List ChunkRecord
both_chunks = chunk 0 false ∷ chunk 1 true ∷ []

both_validated :
    validate_with_key constant_mac key no_expectation (shard 1 ∷ shard 0 ∷ [])
    ≡ ok (shard 0 ∷ shard 1 ∷ [], 2)
unfolding validate_with_key validate_shards check_shards check_shard check_expected check_ranges
    checked_range_end contains require_indices authenticate sort_shards insert_shard
    verify_shard_header_mac compute_shard_header_mac header_message
    serialize_shard_public_header_for_mac serialize_shard_public_header append_shard equal_bytes
    all_zero serialize_global_public_header append_identity append_sizes append_limits append_bytes
    append_u16_le append_u32_le append_u64_le push_bytes_le
both_validated = refl

both_read : read_records test_files 3 (new_reader (shard 0 ∷ shard 1 ∷ []) 2) ≡ ok both_chunks
unfolding read_records read_next_chunk_record read_loop open_current_shard read_record check_place
    check_lengths check_body end_of_shards close_current_shard_and_check_trailing_garbage
    should_be_final contains read_exact parse_chunk_frame_header_v1 read_chunk parse_block
    check_chunk_header validate_chunk_frame_header_v1 chunk_frame_v1_encoded_size
    chunk_frame_v1_encoded_size_from_params equal_bytes all_zero read_bytes read_u16_le read_u32_le
    read_u64_le sum_bytes_le ◌>>◌
both_read = refl

validated-IsComplete_example :
    IsComplete constant_mac key no_expectation (shard 1 ∷ shard 0 ∷ []) (shard 0 ∷ shard 1 ∷ []) 2
    × (length (shard 0 ∷ shard 1 ∷ []) ≡ 2)
    × (◌≡◌ {A = ℕ} 2 2)
validated-IsComplete_example =
    validated-IsComplete constant_mac key no_expectation (shard 1) (shard 0 ∷ [])
      (shard 0 ∷ shard 1 ∷ []) 2 (omega arith) both_validated

read_exactly_example :
    (read_records test_files 3 (new_reader (shard 0 ∷ shard 1 ∷ []) 2) ≡ ok both_chunks)
    ↔ FromShards test_files 2 (shard 0 ∷ shard 1 ∷ []) both_chunks
read_exactly_example =
    read_exactly test_files 2 (shard 0 ∷ shard 1 ∷ []) both_chunks (omega arith) (omega arith)

-- The chunks of the example are what the files hold.
both_held : FromShards test_files 2 (shard 0 ∷ shard 1 ∷ []) both_chunks
both_held =
    (read_exactly test_files 2 (shard 0 ∷ shard 1 ∷ []) both_chunks (omega arith) (omega arith)).0
      both_read

chunks-InSequence_example : (length both_chunks ≡ 2) × InSequence 2 0 both_chunks
chunks-InSequence_example =
    chunks-InSequence constant_mac test_files key no_expectation (shard 1) (shard 0 ∷ [])
      (shard 0 ∷ shard 1 ∷ []) 2 3 both_chunks (omega arith) both_validated both_read
