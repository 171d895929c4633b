-- ===== src/Io/Writer.antt =====
-- ShardWriter (io/ShardWriter.cpp). Files are opened, written and removed without failure; a file that
-- the writer has created is kept with the record that names it, and has its own name, since a name that
-- exists is not taken. The parameters: `hmac_sha256`, `names`, the random names with the extension in
-- the order in which they are drawn, and `exists`, for the files that were there before.
pub mod Shards
pub mod Write
pub mod Planner
pub mod Placed
pub mod Agreement
pub mod Rewriting
pub mod Chain
pub mod States
pub mod Closing
pub mod Frames
pub mod Accepting
pub mod Finish
pub mod Files
pub mod Sizes
pub mod Written
use bseal_cpp.Base.{
  ℕ, zero, suc, ◌+◌, ◌-◌, ◌*◌, ◌^◌, ◌%◌, Bool, true, false, not, ◌&&◌, ◌||◌, ltb, leb, ◌==◌, length,
  take, drop, List, [], ◌∷◌, ◌++◌, String, Option, none, some, Result, ok, err, error,
  invalid_argument, reject_if, ◌>>=◌, ◌>>◌, if◌then◌else◌,
}
use bseal_cpp.Checked.{checked_add_u64, checked_mul_u64}
use bseal_cpp.Endian.{all_zero}
use bseal_cpp.Frame.{
  GlobalPublicHeaderV1, ShardPublicHeaderV1, ChunkFrameHeaderV1, default_shard_header,
  shard_header_v1_magic, shard_public_header_v1_size, global_public_header_v1_size,
  chunk_frame_header_v1_size, chunk_frame_flag_final_chunk,
}
use bseal_cpp.Frame.Bytes.{equal_bytes}
use bseal_cpp.Frame.Global.{serialize_global_public_header}
use bseal_cpp.Frame.Shard.{serialize_shard_public_header}
use bseal_cpp.Frame.Chunk.{serialize_chunk_frame_header_v1, chunk_frame_v1_encoded_size}
use bseal_cpp.Frame.Mac.{compute_shard_header_mac}

-- The options that decide what is written.
pub record ShardWriterOptions : Type 0 where
  pub output_dir : List ℕ
  pub max_shard_payload_len : ℕ
  pub global_header : GlobalPublicHeaderV1
  pub header_authentication_key : List ℕ
  pub per_shard_public_header_hashes : List (List ℕ)

pub record ShardWritePosition : Type 0 where
  pub shard_index : ℕ
  pub record_offset : ℕ
  pub chunk_index : ℕ

pub record PlannedChunkFrame : Type 0 where
  pub position : ShardWritePosition
  pub header : ChunkFrameHeaderV1
  pub header_bytes : List ℕ

-- With the content of the file.
pub record FinalizedShard : Type 0 where
  pub path : List ℕ
  pub shard_index : ℕ
  pub first_chunk_index : ℕ
  pub chunk_count : ℕ
  pub payload_len : ℕ
  pub content : List ℕ

-- The members of which plan_chunk_frame is the only user.
pub record FramePlanner : Type 0 where
  pub planned_shard_index : ℕ
  pub planned_payload_offset : ℕ
  pub planned_next_chunk_index : ℕ

-- The other members. `current_stream` is what the open file holds; `drawn` counts the names.
pub record ShardWriter : Type 0 where
  pub options : ShardWriterOptions
  pub current_stream : Option (List ℕ)
  pub current_path : List ℕ
  pub current_shard_index : ℕ
  pub next_shard_index : ℕ
  pub current_payload_offset : ℕ
  pub current_first_chunk_index : ℕ
  pub current_chunk_count : ℕ
  pub next_expected_chunk_index : ℕ
  pub final_chunk_plaintext_len : ℕ
  pub finalized_shards : List FinalizedShard
  pub finished : Bool
  pub drawn : ℕ

-- The loop over the hashes.
unfoldable pub check_hashes : List (List ℕ) → Result (Unit {0})
check_hashes [] = ok tt
check_hashes (hash ∷ hashes) = do
  reject_if (all_zero hash) "per_shard_public_header_hashes contains an all-zero hash"
  check_hashes hashes

unfoldable pub validate_shard_hash_vector : ShardWriterOptions → Result (Unit {0})
unfolding check_hashes
validate_shard_hash_vector options = do
  let hashes = options.per_shard_public_header_hashes
  reject_if (length hashes == 0) "per_shard_public_header_hashes must not be empty"
  reject_if (not (length hashes == options.global_header.shard_count))
      "per_shard_public_header_hashes size does not match global_header.shard_count"
  check_hashes hashes

unfoldable pub new_planner : FramePlanner
new_planner = record {
  planned_shard_index = 0;
  planned_payload_offset = 0;
  planned_next_chunk_index = 0;
}

unfoldable pub empty_writer : ShardWriterOptions → ShardWriter
empty_writer options = record {
  options = options;
  current_stream = none;
  current_path = [];
  current_shard_index = 0;
  next_shard_index = 0;
  current_payload_offset = 0;
  current_first_chunk_index = 0;
  current_chunk_count = 0;
  next_expected_chunk_index = 0;
  final_chunk_plaintext_len = 0;
  finalized_shards = [];
  finished = false;
  drawn = 0;
}

-- The constructor, with validate_and_normalize_options; the extension is part of `names`.
unfoldable pub new_writer : ShardWriterOptions → Result ShardWriter
unfolding validate_shard_hash_vector empty_writer
new_writer options = do
  reject_if (length options.output_dir == 0) "ShardWriter output directory is empty"
  reject_if (options.max_shard_payload_len == 0)
      "ShardWriter max_shard_payload_len must be non-zero"
  reject_if (options.global_header.chunk_plain_size == 0)
      "ShardWriter global_header.chunk_plain_size is missing"
  validate_shard_hash_vector options
  reject_if (all_zero options.header_authentication_key)
      "ShardWriter header_authentication_key is missing"
  ok (empty_writer options)

-- The frame size, and the checks that both writers of frames begin with.
unfoldable pub plan_chunk_frame :
    ShardWriterOptions
    → Bool
    → FramePlanner
    → ℕ
    → ℕ
    → ℕ
    → ℕ
    → Bool
    → Result (PlannedChunkFrame × FramePlanner)
plan_chunk_frame options finished planner chunk_index plaintext_len ciphertext_len tag_len
      final_chunk =
    if finished then err (error "cannot plan frame for finalized ShardWriter") else do
      reject_if (not (chunk_index == planner.planned_next_chunk_index))
          "ShardWriter frame planner requires contiguous ascending chunk indexes"
      reject_if (ltb options.global_header.chunk_plain_size plaintext_len)
          "chunk plaintext_len exceeds archive chunk_plain_size"
      reject_if (ltb (2 ^ 32 - 1) plaintext_len)
          "chunk plaintext_len does not fit ChunkFrameHeaderV1"
      let header : ChunkFrameHeaderV1 = record {
        frame_flags = if final_chunk then chunk_frame_flag_final_chunk else 0;
        shard_index = planner.planned_shard_index;
        global_chunk_index = chunk_index;
        plaintext_len = plaintext_len % 2 ^ 32;
        ciphertext_len = ciphertext_len;
        tag_len = tag_len;
      }
      frame_size ← chunk_frame_v1_encoded_size header
      reject_if (ltb options.max_shard_payload_len frame_size)
          "chunk frame exceeds max_shard_payload_len"
      let next_shard =
          ltb (options.max_shard_payload_len - frame_size) planner.planned_payload_offset
      let shard_index =
          if next_shard
          then (planner.planned_shard_index + 1) % 2 ^ 32
          else planner.planned_shard_index
      let offset : ℕ = if next_shard then 0 else planner.planned_payload_offset
      let placed : ChunkFrameHeaderV1 = record header { shard_index = shard_index }
      header_bytes ← serialize_chunk_frame_header_v1 placed
      ok (
        record {
          position = record {
            shard_index = shard_index;
            record_offset = offset;
            chunk_index = chunk_index;
          };
          header = placed;
          header_bytes = header_bytes;
        },
        record {
          planned_shard_index = shard_index;
          planned_payload_offset = (offset + frame_size) % 2 ^ 64;
          planned_next_chunk_index = (planner.planned_next_chunk_index + 1) % 2 ^ 64;
        },
      )

-- The calls of enqueue_planned_chunk (pipeline/EncryptPipeline.cpp): the chunks with their numbers, lengths
-- and marks, in order.
unfoldable pub plan_frames :
    ShardWriterOptions → ℕ → FramePlanner → List (ℕ × ℕ × Bool) → Result (List PlannedChunkFrame)
unfolding plan_chunk_frame
plan_frames options tag_size planner [] = ok []
plan_frames options tag_size planner ((index, plaintext_len, final) ∷ chunks) = do
  (planned, planner) ←
      plan_chunk_frame options false planner index plaintext_len plaintext_len tag_size final
  rest ← plan_frames options tag_size planner chunks
  ok (planned ∷ rest)
