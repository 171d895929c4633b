-- ===== src/Frame/Global.antt =====
-- serialize_global_public_header and parse_global_public_header (io/ShardFrame.cpp).
pub mod Rules
pub mod Layout
pub mod RoundTrip
pub mod Canonical
use bseal_cpp.Base.{
  ℕ, zero, suc, ◌+◌, ◌-◌, ◌*◌, ◌%◌, ◌^◌, Bool, true, false, not, ◌&&◌, ◌||◌, ltb, leb, ◌==◌, length,
  take, List, [], ◌∷◌, String, Result, ok, err, invalid_argument, error, reject_if, if◌then◌else◌,
}
use Rules.{check_global_header}
use bseal_cpp.Endian.{
  append_bytes, append_u16_le, append_u32_le, append_u64_le, all_zero, Parser, ◌>>=◌, ◌>>◌, pure,
  lift, read_bytes, read_u16_le, read_u32_le, read_u64_le,
}
use bseal_cpp.Frame.{
  GlobalPublicHeaderV1, default_global_header, global_public_header_v1_size,
  shard_public_header_v1_size, chunk_frame_header_v1_size, global_header_v1_magic,
  aead_alg_id_xchacha20_poly1305, aead_alg_id_aes256_gcm, kdf_alg_id_argon2id_hkdf,
  hash_alg_id_blake3, mac_alg_id_hmac_sha256,
}
use bseal_cpp.Frame.Bytes.{equal_bytes, parse_block}

-- Bytes 0 to 64: identification.
unfoldable pub append_identity : List ℕ → GlobalPublicHeaderV1 → List ℕ
append_identity out h =
    let out = append_bytes out h.magic in
    let out = append_u16_le out h.format_major in
    let out = append_u16_le out h.format_minor in
    let out = append_u32_le out h.global_header_len in
    let out = append_u32_le out h.shard_header_len in
    let out = append_u16_le out h.frame_header_len in
    let out = append_u16_le out h.global_flags in
    let out = append_bytes out h.archive_id in
    let out = append_u16_le out h.aead_alg_id in
    let out = append_u16_le out h.kdf_alg_id in
    let out = append_u16_le out h.hash_alg_id in append_u16_le out h.mac_alg_id

-- Bytes 64 to 144: key derivation and sizes.
unfoldable pub append_sizes : List ℕ → GlobalPublicHeaderV1 → List ℕ
append_sizes out h =
    let out = append_bytes out h.kdf_salt in
    let out = append_u32_le out h.argon2_version in
    let out = append_u32_le out h.argon2_memory_kib in
    let out = append_u32_le out h.argon2_iterations in
    let out = append_u32_le out h.argon2_parallelism in
    let out = append_u32_le out h.chunk_plain_size in
    let out = append_u32_le out h.shard_count in
    let out = append_u64_le out h.global_chunk_count in
    let out = append_u64_le out h.padded_plaintext_size in
    let out = append_u32_le out h.final_plaintext_chunk_len in
    let out = append_u16_le out h.padding_policy_id in append_u16_le out h.reserved0

-- Bytes 144 to 192: policy value, limits and the reserved tail.
unfoldable pub append_limits : List ℕ → GlobalPublicHeaderV1 → List ℕ
append_limits out h =
    let out = append_u64_le out h.padding_policy_value in
    let out = append_u64_le out h.max_shard_payload_len in
    let out = append_u64_le out h.required_feature_flags in append_bytes out h.reserved1

unfoldable pub serialize_global_public_header : GlobalPublicHeaderV1 → Result (List ℕ)
serialize_global_public_header h =
    let out = append_limits (append_sizes (append_identity [] h) h) h in
    if length out == global_public_header_v1_size
    then ok out
    else err (error "internal global header size mismatch")

abbrev pub truncated_global : String
truncated_global = "truncated global public header"

unfoldable pub read_identity : GlobalPublicHeaderV1 → Parser GlobalPublicHeaderV1
read_identity h = do
  magic ← read_bytes truncated_global 8
  lift (reject_if (not (equal_bytes magic global_header_v1_magic)) "wrong global header magic")
  format_major ← read_u16_le truncated_global
  format_minor ← read_u16_le truncated_global
  global_header_len ← read_u32_le truncated_global
  shard_header_len ← read_u32_le truncated_global
  frame_header_len ← read_u16_le truncated_global
  global_flags ← read_u16_le truncated_global
  archive_id ← read_bytes truncated_global 32
  aead_alg_id ← read_u16_le truncated_global
  kdf_alg_id ← read_u16_le truncated_global
  hash_alg_id ← read_u16_le truncated_global
  mac_alg_id ← read_u16_le truncated_global
  pure (record h {
    magic = magic;
    format_major = format_major;
    format_minor = format_minor;
    global_header_len = global_header_len;
    shard_header_len = shard_header_len;
    frame_header_len = frame_header_len;
    global_flags = global_flags;
    archive_id = archive_id;
    aead_alg_id = aead_alg_id;
    kdf_alg_id = kdf_alg_id;
    hash_alg_id = hash_alg_id;
    mac_alg_id = mac_alg_id;
  })

unfoldable pub read_sizes : GlobalPublicHeaderV1 → Parser GlobalPublicHeaderV1
read_sizes h = do
  kdf_salt ← read_bytes truncated_global 32
  argon2_version ← read_u32_le truncated_global
  argon2_memory_kib ← read_u32_le truncated_global
  argon2_iterations ← read_u32_le truncated_global
  argon2_parallelism ← read_u32_le truncated_global
  chunk_plain_size ← read_u32_le truncated_global
  shard_count ← read_u32_le truncated_global
  global_chunk_count ← read_u64_le truncated_global
  padded_plaintext_size ← read_u64_le truncated_global
  final_plaintext_chunk_len ← read_u32_le truncated_global
  padding_policy_id ← read_u16_le truncated_global
  reserved0 ← read_u16_le truncated_global
  pure (record h {
    kdf_salt = kdf_salt;
    argon2_version = argon2_version;
    argon2_memory_kib = argon2_memory_kib;
    argon2_iterations = argon2_iterations;
    argon2_parallelism = argon2_parallelism;
    chunk_plain_size = chunk_plain_size;
    shard_count = shard_count;
    global_chunk_count = global_chunk_count;
    padded_plaintext_size = padded_plaintext_size;
    final_plaintext_chunk_len = final_plaintext_chunk_len;
    padding_policy_id = padding_policy_id;
    reserved0 = reserved0;
  })

unfoldable pub read_limits : GlobalPublicHeaderV1 → Parser GlobalPublicHeaderV1
read_limits h = do
  padding_policy_value ← read_u64_le truncated_global
  max_shard_payload_len ← read_u64_le truncated_global
  required_feature_flags ← read_u64_le truncated_global
  reserved1 ← read_bytes truncated_global 24
  pure (record h {
    padding_policy_value = padding_policy_value;
    max_shard_payload_len = max_shard_payload_len;
    required_feature_flags = required_feature_flags;
    reserved1 = reserved1;
  })

-- All 192 bytes, into a header that starts with its default member initialisers.
unfoldable pub read_global : Parser GlobalPublicHeaderV1
read_global = do h ← read_identity default_global_header; h ← read_sizes h; read_limits h

unfoldable pub parse_global_public_header : List ℕ → Result GlobalPublicHeaderV1
parse_global_public_header =
    parse_block global_public_header_v1_size truncated_global read_global check_global_header
