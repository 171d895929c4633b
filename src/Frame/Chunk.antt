-- ===== src/Frame/Chunk.antt =====
-- The chunk frame header (io/ShardFrame.cpp): validate_chunk_frame_header_v1, the serialiser, the
-- parser and the two size functions. size_t has 64 bits.
pub mod Laws
pub mod Size
use bseal_cpp.Base.{
  ℕ, ◌+◌, ◌-◌, ◌/◌, ◌%◌, ◌^◌, not, ltb, ◌==◌, List, [], String, Result, ok, err, reject_if,
  invalid_argument, if◌then◌else◌,
}
use bseal_cpp.Endian.{
  append_bytes, append_u16_le, append_u32_le, append_u64_le, all_zero, Parser, ◌>>=◌, ◌>>◌, pure,
  lift, read_bytes, read_u16_le, read_u32_le, read_u64_le,
}
use bseal_cpp.Frame.{ChunkFrameHeaderV1, chunk_frame_header_v1_size, chunk_frame_v1_magic}
use bseal_cpp.Frame.Bytes.{equal_bytes, parse_block}
use Rules.{validate_chunk_frame_header_v1, check_chunk_header}
pub mod Rules

unfoldable pub append_chunk : List ℕ → ChunkFrameHeaderV1 → List ℕ
append_chunk out h =
    let out = append_bytes out chunk_frame_v1_magic in
    let out = append_u16_le out chunk_frame_header_v1_size in
    let out = append_u16_le out h.frame_flags in
    let out = append_u32_le out h.shard_index in
    let out = append_u64_le out h.global_chunk_index in
    let out = append_u32_le out h.plaintext_len in
    let out = append_u64_le out h.ciphertext_len in
    let out = append_u16_le out h.tag_len in let out = append_u16_le out 0 in append_u32_le out 0

unfoldable pub serialize_chunk_frame_header_v1 : ChunkFrameHeaderV1 → Result (List ℕ)
serialize_chunk_frame_header_v1 h = elim (validate_chunk_frame_header_v1 h) [
  | err e ↦ err e
  | ok _ ↦ ok (append_chunk [] h)
]

abbrev pub truncated_frame : String
truncated_frame = "truncated frame header"

unfoldable pub read_chunk : Parser ChunkFrameHeaderV1
read_chunk = do
  magic ← read_bytes truncated_frame 4
  lift (reject_if (not (equal_bytes magic chunk_frame_v1_magic)) "wrong chunk frame magic")
  frame_header_len ← read_u16_le truncated_frame
  lift (
      reject_if (not (frame_header_len == chunk_frame_header_v1_size))
        "unsupported chunk frame header length")
  frame_flags ← read_u16_le truncated_frame
  shard_index ← read_u32_le truncated_frame
  global_chunk_index ← read_u64_le truncated_frame
  plaintext_len ← read_u32_le truncated_frame
  ciphertext_len ← read_u64_le truncated_frame
  tag_len ← read_u16_le truncated_frame
  reserved0 ← read_u16_le truncated_frame
  lift (reject_if (not (reserved0 == 0)) "non-zero chunk frame reserved0")
  reserved1 ← read_bytes truncated_frame 4
  lift (reject_if (not (all_zero reserved1)) "non-zero chunk frame reserved1")
  pure (record {
    frame_flags = frame_flags;
    shard_index = shard_index;
    global_chunk_index = global_chunk_index;
    plaintext_len = plaintext_len;
    ciphertext_len = ciphertext_len;
    tag_len = tag_len;
  })

unfoldable pub parse_chunk_frame_header_v1 : List ℕ → Result ChunkFrameHeaderV1
parse_chunk_frame_header_v1 =
    parse_block chunk_frame_header_v1_size truncated_frame read_chunk check_chunk_header

unfoldable pub chunk_frame_v1_encoded_size_from_params : ℕ → ℕ → Result ℕ
chunk_frame_v1_encoded_size_from_params plaintext_len tag_len =
    let body = (plaintext_len + tag_len) % 2 ^ 64 in
    let total = (chunk_frame_header_v1_size + body) % 2 ^ 64 in
    if ltb body plaintext_len
    then err (invalid_argument "chunk frame body length overflow")
    else if ltb total body
    then err (invalid_argument "chunk frame encoded length overflow")
    else ok total

-- The same arithmetic on a header that is validated first.
unfoldable pub chunk_frame_v1_encoded_size : ChunkFrameHeaderV1 → Result ℕ
unfolding chunk_frame_v1_encoded_size_from_params
chunk_frame_v1_encoded_size h = elim (validate_chunk_frame_header_v1 h) [
  | err e ↦ err e
  | ok _ ↦ chunk_frame_v1_encoded_size_from_params h.ciphertext_len h.tag_len
]
