-- ===== src/Io/Reader.antt =====
-- ShardReader::read_next_chunk_record (io/ShardReader.cpp). What opening a path yields, the bytes of
-- the file or nothing, is the parameter `files`. After an exception the reader is not used again, so
-- that its state is left out of an error.
pub mod Record
pub mod Remaining
pub mod Run
pub mod Accepts
pub mod Progress
pub mod Returns
pub mod Exact
pub mod Sequence
use bseal_cpp.Base.{
  ℕ, zero, suc, ◌+◌, ◌-◌, ◌^◌, ◌%◌, Bool, true, false, not, ◌&&◌, ltb, leb, ◌==◌, length, List, [],
  ◌∷◌, get_elem?, Option, none, some, Result, ok, err, error, invalid_argument, out_of_fuel,
  reject_if, ◌>>=◌, ◌>>◌, if◌then◌else◌,
}
use bseal_cpp.Frame.{ChunkFrameHeaderV1, chunk_frame_header_v1_size}
use bseal_cpp.Frame.Chunk.{parse_chunk_frame_header_v1, chunk_frame_v1_encoded_size}
use bseal_cpp.Io.Stream.{Stream, read_exact}
use bseal_cpp.Io.Discover.{
  ShardInfo, shard_index, first_chunk_index, chunk_count, shard_payload_len, payload_offset,
}
use bseal_cpp.Io.Validate.{contains}

pub record ChunkRecord : Type 0 where
  pub chunk_index : ℕ
  pub shard_index : ℕ
  pub plaintext_size : ℕ
  pub frame_flags : ℕ
  pub frame_header_bytes : List ℕ
  pub ciphertext : List ℕ

-- The members that read_next_chunk_record uses.
pub record ShardReader : Type 0 where
  pub shards : List ShardInfo
  pub current_shard_pos : ℕ
  pub current_record_in_shard : ℕ
  pub expected_total_chunk_count : ℕ
  pub current_stream : Option Stream
  pub seen_chunk_indices : List ℕ
  pub saw_final_chunk : Bool

-- The reader that the constructors leave, of the outcome of validate_shards.
abbrev pub new_reader : List ShardInfo → ℕ → ShardReader
new_reader shards total = record {
  shards = shards;
  current_shard_pos = 0;
  current_record_in_shard = 0;
  expected_total_chunk_count = total;
  current_stream = none;
  seen_chunk_indices = [];
  saw_final_chunk = false;
}

-- `frame_flags & kChunkFrameFlagFinalChunk`
abbrev pub is_final : ℕ → Bool
is_final frame_flags = frame_flags % 2 == 1

unfoldable pub should_be_final : ShardReader → ℕ → Bool
should_be_final reader index =
    not (reader.expected_total_chunk_count == 0) && index == reader.expected_total_chunk_count - 1

unfoldable pub check_place : ShardReader → ShardInfo → ChunkFrameHeaderV1 → Result (Unit {0})
check_place reader shard header = do
  reject_if (not (header.shard_index == shard_index shard))
      "chunk frame shard_index does not match enclosing shard"
  let expected = (first_chunk_index shard + reader.current_record_in_shard) % 2 ^ 64
  (if header.global_chunk_index == expected
      then ok tt
      else if ltb header.global_chunk_index expected
      then err (invalid_argument "duplicate or reordered chunk index")
      else err (invalid_argument "missing chunk index"))
  reject_if (contains header.global_chunk_index reader.seen_chunk_indices) "duplicate chunk index"

unfoldable pub check_lengths : ShardReader → ShardInfo → ChunkFrameHeaderV1 → Result (Unit {0})
unfolding should_be_final
check_lengths reader shard header = do
  reject_if (not (header.tag_len == 16)) "invalid chunk frame tag length"
  reject_if (ltb shard.global_header.chunk_plain_size header.plaintext_len)
      "invalid chunk frame plaintext_len"
  reject_if (not (header.ciphertext_len == header.plaintext_len)) "invalid ciphertext_length"
  let final = is_final header.frame_flags
  let should = should_be_final reader header.global_chunk_index
  reject_if (if final then not should else should) "invalid final chunk marker"
  (if final
      then reject_if reader.saw_final_chunk "duplicate final chunk marker"
      else reject_if (not (header.plaintext_len == shard.global_header.chunk_plain_size))
          "non-final chunk has partial plaintext length")

-- The body lies within the payload that the shard declares.
unfoldable pub check_body : ShardInfo → ℕ → ℕ → Result (Unit {0})
check_body shard offset body_len =
    let payload_end = (payload_offset + shard_payload_len shard) % 2 ^ 64 in
    if ltb payload_end offset
    then err (invalid_argument "chunk frame exceeds declared shard payload")
    else reject_if (ltb (payload_end - offset) body_len)
        "chunk frame exceeds declared shard payload"

-- The part of the loop that ends with `return ChunkRecord`.
unfoldable pub read_record :
    ShardReader → ShardInfo → Stream → Result (Option ChunkRecord × ShardReader)
unfolding check_place check_lengths check_body
read_record reader shard stream = do
  (header_bytes, stream) ← read_exact stream chunk_frame_header_v1_size "truncated frame header"
  header ← parse_chunk_frame_header_v1 header_bytes
  check_place reader shard header
  check_lengths reader shard header
  size ← chunk_frame_v1_encoded_size header
  let body_len = size - chunk_frame_header_v1_size
  check_body shard stream.position body_len
  (ciphertext, stream) ← read_exact stream body_len "truncated ciphertext"
  ok (
    some (record {
      chunk_index = header.global_chunk_index;
      shard_index = header.shard_index;
      plaintext_size = header.plaintext_len;
      frame_flags = header.frame_flags;
      frame_header_bytes = header_bytes;
      ciphertext = ciphertext;
    }),
    record reader {
      current_record_in_shard = reader.current_record_in_shard + 1;
      current_stream = some stream;
      seen_chunk_indices = header.global_chunk_index ∷ reader.seen_chunk_indices;
      saw_final_chunk = if is_final header.frame_flags then true else reader.saw_final_chunk;
    },
  )

-- Behind the loop.
unfoldable pub end_of_shards : ShardReader → Result (Option ChunkRecord × ShardReader)
end_of_shards reader = do
  reject_if (not (length reader.seen_chunk_indices == reader.expected_total_chunk_count))
      "missing chunk index at end of archive"
  reject_if (not (reader.expected_total_chunk_count == 0) && not reader.saw_final_chunk)
      "missing final chunk marker"
  ok (none, reader)

-- peek() is the end of the file if nothing lies ahead.
unfoldable pub close_current_shard_and_check_trailing_garbage :
    ShardReader → ShardInfo → Stream → Result ShardReader
close_current_shard_and_check_trailing_garbage reader shard stream = do
  reject_if (not (stream.position == (payload_offset + shard_payload_len shard) % 2 ^ 64))
      "shard payload length mismatch"
  reject_if (ltb stream.position (length stream.bytes))
      "trailing garbage after declared chunk frames"
  ok (record reader {
    current_stream = none;
    current_shard_pos = reader.current_shard_pos + 1;
    current_record_in_shard = 0;
  })

module _ (files : List ℕ → Option (List ℕ)) where
  -- A seek beyond the end of a file succeeds.
  unfoldable pub open_current_shard : ShardReader → ShardInfo → Result (ShardReader × Stream)
  open_current_shard reader shard = elim reader.current_stream [
    | some stream ↦ ok (reader, stream)
    | none ↦ elim (files shard.path) [
      | none ↦ err (error "failed to open shard for reading")
      | some bytes ↦
          let stream : Stream = record { bytes = bytes; position = payload_offset } in
          ok (record reader { current_stream = some stream; current_record_in_shard = 0 }, stream)
    ]
  ]

  -- The loop closes a shard in every round that does not return.
  unfoldable pub read_loop : ℕ → ShardReader → Result (Option ChunkRecord × ShardReader)
  unfolding open_current_shard read_record close_current_shard_and_check_trailing_garbage
      end_of_shards
  read_loop zero reader = err out_of_fuel
  read_loop (suc fuel) reader = elim (get_elem? reader.shards reader.current_shard_pos) [
    | none ↦ end_of_shards reader
    | some shard ↦ elim (open_current_shard reader shard) [
      | err e ↦ err e
      | ok (reader, stream) ↦ elim (leb (chunk_count shard) reader.current_record_in_shard) [
        | false ↦ read_record reader shard stream
        | true ↦ elim (close_current_shard_and_check_trailing_garbage reader shard stream) [
          | err e ↦ err e
          | ok reader ↦ read_loop fuel reader
        ]
      ]
    ]
  ]

  -- There are fewer rounds than one more than there are shards.
  unfoldable pub read_next_chunk_record : ShardReader → Result (Option ChunkRecord × ShardReader)
  unfolding read_loop
  read_next_chunk_record reader = read_loop (suc (length reader.shards)) reader

  -- The caller's loop: records until there is none. Every record is a chunk that was not seen, so
  -- that one round more than there are chunks is enough.
  unfoldable pub read_records : ℕ → ShardReader → Result (List ChunkRecord)
  unfolding read_next_chunk_record
  read_records zero reader = err out_of_fuel
  read_records (suc fuel) reader = elim (read_next_chunk_record reader) [
    | err e ↦ err e
    | ok (none, reader) ↦ ok []
    | ok (some chunk, reader) ↦ elim (read_records fuel reader) [
      | err e ↦ err e
      | ok chunks ↦ ok (chunk ∷ chunks)
    ]
  ]
