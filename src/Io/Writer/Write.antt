-- ===== src/Io/Writer/Write.antt =====
-- ShardWriter::write_chunk_frame and finish (io/ShardWriter.cpp). The durability hooks and the hook for
-- tests are left out: they do not change what is written.
use bseal_cpp.Base.{
  ℕ, ◌+◌, ◌-◌, ◌^◌, ◌%◌, Bool, true, not, ◌&&◌, ltb, leb, ◌==◌, length, List, [], ◌∷◌, ◌++◌, Option,
  none, some, Result, ok, err, error, reject_if, ◌>>=◌, ◌>>◌, if◌then◌else◌,
}
use bseal_cpp.Checked.{checked_add_u64, checked_mul_u64}
use bseal_cpp.Frame.{GlobalPublicHeaderV1, ChunkFrameHeaderV1, chunk_frame_header_v1_size}
use bseal_cpp.Frame.Bytes.{equal_bytes}
use bseal_cpp.Frame.Global.{serialize_global_public_header}
use bseal_cpp.Frame.Chunk.{serialize_chunk_frame_header_v1, chunk_frame_v1_encoded_size}
use bseal_cpp.Io.Writer.{ShardWriter, FinalizedShard, ShardWritePosition, PlannedChunkFrame}
use bseal_cpp.Io.Writer.Shards.{
  overwrite, open_next_shard, close_current_shard, rewrite_shard_header,
}

unfoldable pub write_raw : ShardWriter → List ℕ → Result ShardWriter
write_raw writer bytes = elim writer.current_stream [
  | none ↦ err (error "shard stream is not writable")
  | some content ↦ ok (record writer { current_stream = some (content ++ bytes) })
]

-- The checks before anything is written, and the size of the frame.
unfoldable pub check_frame : ShardWriter → ChunkFrameHeaderV1 → List ℕ → List ℕ → Result ℕ
check_frame writer header header_bytes ciphertext_and_tag =
    if writer.finished then err (error "cannot write to finalized ShardWriter") else do
      reject_if (not (header.global_chunk_index == writer.next_expected_chunk_index))
          "ShardWriter requires contiguous ascending frame chunk indexes"
      reject_if (ltb writer.options.global_header.chunk_plain_size header.plaintext_len)
          "chunk plaintext_len exceeds archive chunk_plain_size"
      expected_header_bytes ← serialize_chunk_frame_header_v1 header
      reject_if (not (equal_bytes header_bytes expected_header_bytes))
          "ChunkFrameHeaderV1 bytes do not match supplied header"
      frame_size ← chunk_frame_v1_encoded_size header
      reject_if (not (length ciphertext_and_tag == frame_size - chunk_frame_header_v1_size))
          "ciphertext length does not match ChunkFrameHeaderV1"
      reject_if (ltb writer.options.max_shard_payload_len frame_size)
          "chunk frame exceeds max_shard_payload_len"
      ok frame_size

module _ (names : ℕ → List ℕ) (exists : List ℕ → Bool)
    (hmac_sha256 : List ℕ → List ℕ → Option (List ℕ)) where
  -- A shard with room for the frame.
  unfoldable pub make_room : ShardWriter → ℕ → ℕ → Result ShardWriter
  unfolding open_next_shard close_current_shard
  make_room writer frame_size chunk_index = elim writer.current_stream [
    | none ↦ open_next_shard names exists writer chunk_index
    | some _ ↦
        if ltb (writer.options.max_shard_payload_len - frame_size) writer.current_payload_offset
        then close_current_shard hmac_sha256 writer
          >>= (λ closed. open_next_shard names exists closed chunk_index)
        else ok writer
  ]

  unfoldable pub write_chunk_frame :
      ShardWriter → ChunkFrameHeaderV1 → List ℕ → List ℕ → Result (ShardWritePosition × ShardWriter)
  unfolding check_frame make_room write_raw close_current_shard
  write_chunk_frame writer header header_bytes ciphertext_and_tag = do
    frame_size ← check_frame writer header header_bytes ciphertext_and_tag
    writer ← make_room writer frame_size header.global_chunk_index
    reject_if (not (header.shard_index == writer.current_shard_index))
        "ChunkFrameHeaderV1 shard_index does not match current shard"
    let position : ShardWritePosition = record {
      shard_index = writer.current_shard_index;
      record_offset = writer.current_payload_offset;
      chunk_index = header.global_chunk_index;
    }
    writer ← write_raw writer header_bytes
    writer ← write_raw writer ciphertext_and_tag
    let counted : ShardWriter = record writer {
      current_payload_offset = (writer.current_payload_offset + frame_size) % 2 ^ 64;
      current_chunk_count = (writer.current_chunk_count + 1) % 2 ^ 64;
      next_expected_chunk_index = (writer.next_expected_chunk_index + 1) % 2 ^ 64;
      final_chunk_plaintext_len =
          if header.frame_flags % 2 == 1
          then header.plaintext_len
          else writer.final_chunk_plaintext_len;
    }
    closed ←
        if leb writer.options.max_shard_payload_len counted.current_payload_offset
        then close_current_shard hmac_sha256 counted
        else ok counted
    ok (position, closed)

  -- The calls of ordered_writer_main (pipeline/EncryptPipeline.cpp), which come in order.
  unfoldable pub write_frames :
      ShardWriter
      → List (PlannedChunkFrame × List ℕ)
      → Result (List ShardWritePosition × ShardWriter)
  unfolding write_chunk_frame
  write_frames writer [] = ok ([], writer)
  write_frames writer ((frame, ciphertext_and_tag) ∷ frames) = do
    (position, writer) ← write_chunk_frame writer frame.header frame.header_bytes ciphertext_and_tag
    (positions, writer) ← write_frames writer frames
    ok (position ∷ positions, writer)

unfoldable pub final_sizes : ShardWriter → GlobalPublicHeaderV1 → Result GlobalPublicHeaderV1
final_sizes writer final_global =
    let total = writer.next_expected_chunk_index in
    if not (ltb 0 total && ltb 0 writer.final_chunk_plaintext_len) then ok final_global else do
      full ←
          checked_mul_u64 (total - 1) final_global.chunk_plain_size
            "ShardWriter: padded plaintext size"
      size ←
          checked_add_u64 full writer.final_chunk_plaintext_len "ShardWriter: padded plaintext size"
      ok (record final_global {
        final_plaintext_chunk_len = writer.final_chunk_plaintext_len % 2 ^ 32;
        padded_plaintext_size = size;
      })

module _ (hmac_sha256 : List ℕ → List ℕ → Option (List ℕ)) where
  -- The loop of finish over the finalized shards.
  unfoldable pub rewrite_shards :
      List ℕ → GlobalPublicHeaderV1 → List ℕ → List FinalizedShard → Result (List FinalizedShard)
  unfolding rewrite_shard_header overwrite
  rewrite_shards key final_global global_bytes [] = ok []
  rewrite_shards key final_global global_bytes (shard ∷ shards) = do
    shard ←
        rewrite_shard_header hmac_sha256 key final_global
          (record shard { content = overwrite 0 global_bytes shard.content })
    shards ← rewrite_shards key final_global global_bytes shards
    ok (shard ∷ shards)

  unfoldable pub finish : ShardWriter → Result ShardWriter
  unfolding close_current_shard rewrite_shards final_sizes
  finish writer = if writer.finished then ok writer else do
    writer ← close_current_shard hmac_sha256 writer
    final_global ← final_sizes writer (record writer.options.global_header {
      global_chunk_count = writer.next_expected_chunk_index;
      shard_count = length writer.finalized_shards % 2 ^ 32;
    })
    global_bytes ← serialize_global_public_header final_global
    shards ←
        rewrite_shards writer.options.header_authentication_key final_global global_bytes
          writer.finalized_shards
    ok (record writer { finalized_shards = shards; finished = true })

-- The files that the writer created and did not finish are removed.
unfoldable pub abort_and_remove_created_shards_noexcept : ShardWriter → ShardWriter
abort_and_remove_created_shards_noexcept writer = record writer {
  current_stream = none;
  current_path = [];
  finalized_shards = [];
}
