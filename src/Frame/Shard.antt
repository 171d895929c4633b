-- ===== src/Frame/Shard.antt =====
-- serialize_shard_public_header, serialize_shard_public_header_for_mac and parse_shard_public_header
-- (io/ShardFrame.cpp).
pub mod Rules
pub mod Laws
use bseal_cpp.Base.{
  ℕ, not, ◌==◌, length, replicate, List, [], String, Result, ok, err, error, reject_if,
  if◌then◌else◌,
}
use bseal_cpp.Endian.{
  append_bytes, append_u32_le, append_u64_le, Parser, ◌>>=◌, ◌>>◌, pure, lift, read_bytes,
  read_u32_le, read_u64_le,
}
use bseal_cpp.Frame.{
  ShardPublicHeaderV1, default_shard_header, shard_public_header_v1_size, shard_header_v1_magic,
}
use bseal_cpp.Frame.Bytes.{equal_bytes, parse_block}
use Rules.{check_shard_header}

unfoldable pub append_shard : List ℕ → ShardPublicHeaderV1 → List ℕ
append_shard out h =
    let out = append_bytes out h.shard_magic in
    let out = append_u32_le out h.shard_header_len in
    let out = append_u32_le out h.shard_index in
    let out = append_u64_le out h.first_global_chunk_index in
    let out = append_u64_le out h.shard_chunk_count in
    let out = append_u64_le out h.shard_payload_len in
    let out = append_bytes out h.header_mac in append_u64_le out h.reserved0

unfoldable pub serialize_shard_public_header : ShardPublicHeaderV1 → Result (List ℕ)
serialize_shard_public_header h =
    let out = append_shard [] h in
    if length out == shard_public_header_v1_size
    then ok out
    else err (error "internal shard header size mismatch")

-- `canonical.header_mac.fill(Byte{0})`
unfoldable pub serialize_shard_public_header_for_mac : ShardPublicHeaderV1 → Result (List ℕ)
serialize_shard_public_header_for_mac h =
    serialize_shard_public_header (record h { header_mac = replicate 32 0 })

abbrev pub truncated_shard : String
truncated_shard = "truncated shard public header"

unfoldable pub read_shard : ShardPublicHeaderV1 → Parser ShardPublicHeaderV1
read_shard h = do
  shard_magic ← read_bytes truncated_shard 8
  lift (reject_if (not (equal_bytes shard_magic shard_header_v1_magic)) "wrong shard header magic")
  shard_header_len ← read_u32_le truncated_shard
  shard_index ← read_u32_le truncated_shard
  first_global_chunk_index ← read_u64_le truncated_shard
  shard_chunk_count ← read_u64_le truncated_shard
  shard_payload_len ← read_u64_le truncated_shard
  header_mac ← read_bytes truncated_shard 32
  reserved0 ← read_u64_le truncated_shard
  pure (record h {
    shard_magic = shard_magic;
    shard_header_len = shard_header_len;
    shard_index = shard_index;
    first_global_chunk_index = first_global_chunk_index;
    shard_chunk_count = shard_chunk_count;
    shard_payload_len = shard_payload_len;
    header_mac = header_mac;
    reserved0 = reserved0;
  })

unfoldable pub parse_shard_public_header : List ℕ → Result ShardPublicHeaderV1
parse_shard_public_header =
    parse_block shard_public_header_v1_size truncated_shard (read_shard default_shard_header)
      check_shard_header
