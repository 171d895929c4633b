-- ===== src/Frame.antt =====
-- io/ShardFrame.hpp: the three public headers of a shard file, their constants and sizes.
-- A std::array<Byte, N> is a list; that it has N bytes is part of the predicates Fits below.
pub mod Bytes
pub mod Global
pub mod Shard
pub mod Chunk
pub mod Mac
use bseal_cpp.Base.{ℕ, ◌<◌, ◌^◌, ◌≡◌, List, [], ◌∷◌, length, replicate}
use bseal_cpp.Endian.{AreBytes}

-- "BSEAL-F1", "BSEAL-S1" and "BSC1"
abbrev pub global_header_v1_magic : List ℕ
global_header_v1_magic = b'B' ∷ b'S' ∷ b'E' ∷ b'A' ∷ b'L' ∷ b'-' ∷ b'F' ∷ b'1' ∷ []

abbrev pub shard_header_v1_magic : List ℕ
shard_header_v1_magic = b'B' ∷ b'S' ∷ b'E' ∷ b'A' ∷ b'L' ∷ b'-' ∷ b'S' ∷ b'1' ∷ []

abbrev pub chunk_frame_v1_magic : List ℕ
chunk_frame_v1_magic = b'B' ∷ b'S' ∷ b'C' ∷ b'1' ∷ []

abbrev pub global_public_header_v1_size : ℕ
global_public_header_v1_size = 192

abbrev pub shard_public_header_v1_size : ℕ
shard_public_header_v1_size = 80

abbrev pub chunk_frame_header_v1_size : ℕ
chunk_frame_header_v1_size = 40

abbrev pub aead_alg_id_xchacha20_poly1305 : ℕ
aead_alg_id_xchacha20_poly1305 = 1

abbrev pub aead_alg_id_aes256_gcm : ℕ
aead_alg_id_aes256_gcm = 2

abbrev pub kdf_alg_id_argon2id_hkdf : ℕ
kdf_alg_id_argon2id_hkdf = 1

abbrev pub hash_alg_id_blake3 : ℕ
hash_alg_id_blake3 = 1

abbrev pub mac_alg_id_hmac_sha256 : ℕ
mac_alg_id_hmac_sha256 = 1

abbrev pub chunk_frame_flag_final_chunk : ℕ
chunk_frame_flag_final_chunk = 1

pub record GlobalPublicHeaderV1 : Type 0 where
  pub magic : List ℕ
  pub format_major : ℕ
  pub format_minor : ℕ
  pub global_header_len : ℕ
  pub shard_header_len : ℕ
  pub frame_header_len : ℕ
  pub global_flags : ℕ
  pub archive_id : List ℕ
  pub aead_alg_id : ℕ
  pub kdf_alg_id : ℕ
  pub hash_alg_id : ℕ
  pub mac_alg_id : ℕ
  pub kdf_salt : List ℕ
  pub argon2_version : ℕ
  pub argon2_memory_kib : ℕ
  pub argon2_iterations : ℕ
  pub argon2_parallelism : ℕ
  pub chunk_plain_size : ℕ
  pub shard_count : ℕ
  pub global_chunk_count : ℕ
  pub padded_plaintext_size : ℕ
  pub final_plaintext_chunk_len : ℕ
  pub padding_policy_id : ℕ
  pub reserved0 : ℕ
  pub padding_policy_value : ℕ
  pub max_shard_payload_len : ℕ
  pub required_feature_flags : ℕ
  pub reserved1 : List ℕ

-- `GlobalPublicHeaderV1 h;` with its default member initialisers.
unfoldable pub default_global_header : GlobalPublicHeaderV1
default_global_header = record {
  magic = replicate 8 0;
  format_major = 1;
  format_minor = 0;
  global_header_len = global_public_header_v1_size;
  shard_header_len = shard_public_header_v1_size;
  frame_header_len = 40;
  global_flags = 0;
  archive_id = replicate 32 0;
  aead_alg_id = aead_alg_id_xchacha20_poly1305;
  kdf_alg_id = kdf_alg_id_argon2id_hkdf;
  hash_alg_id = hash_alg_id_blake3;
  mac_alg_id = mac_alg_id_hmac_sha256;
  kdf_salt = replicate 32 0;
  argon2_version = 0x13;
  argon2_memory_kib = 0;
  argon2_iterations = 0;
  argon2_parallelism = 0;
  chunk_plain_size = 0;
  shard_count = 0;
  global_chunk_count = 0;
  padded_plaintext_size = 0;
  final_plaintext_chunk_len = 0;
  padding_policy_id = 0;
  reserved0 = 0;
  padding_policy_value = 0;
  max_shard_payload_len = 0;
  required_feature_flags = 0;
  reserved1 = replicate 24 0;
}

pub record ShardPublicHeaderV1 : Type 0 where
  pub shard_magic : List ℕ
  pub shard_header_len : ℕ
  pub shard_index : ℕ
  pub first_global_chunk_index : ℕ
  pub shard_chunk_count : ℕ
  pub shard_payload_len : ℕ
  pub header_mac : List ℕ
  pub reserved0 : ℕ

unfoldable pub default_shard_header : ShardPublicHeaderV1
default_shard_header = record {
  shard_magic = replicate 8 0;
  shard_header_len = shard_public_header_v1_size;
  shard_index = 0;
  first_global_chunk_index = 0;
  shard_chunk_count = 0;
  shard_payload_len = 0;
  header_mac = replicate 32 0;
  reserved0 = 0;
}

pub record ChunkFrameHeaderV1 : Type 0 where
  pub frame_flags : ℕ
  pub shard_index : ℕ
  pub global_chunk_index : ℕ
  pub plaintext_len : ℕ
  pub ciphertext_len : ℕ
  pub tag_len : ℕ

-- What the C++ types guarantee of every value of the three structs.
pub record GlobalFits (h : GlobalPublicHeaderV1) : Type 0 where
  pub magic_size : length h.magic ≡ 8
  pub format_major_fits : h.format_major < 2 ^ 16
  pub format_minor_fits : h.format_minor < 2 ^ 16
  pub global_header_len_fits : h.global_header_len < 2 ^ 32
  pub shard_header_len_fits : h.shard_header_len < 2 ^ 32
  pub frame_header_len_fits : h.frame_header_len < 2 ^ 16
  pub global_flags_fits : h.global_flags < 2 ^ 16
  pub archive_id_size : length h.archive_id ≡ 32
  pub aead_alg_id_fits : h.aead_alg_id < 2 ^ 16
  pub kdf_alg_id_fits : h.kdf_alg_id < 2 ^ 16
  pub hash_alg_id_fits : h.hash_alg_id < 2 ^ 16
  pub mac_alg_id_fits : h.mac_alg_id < 2 ^ 16
  pub kdf_salt_size : length h.kdf_salt ≡ 32
  pub argon2_version_fits : h.argon2_version < 2 ^ 32
  pub argon2_memory_kib_fits : h.argon2_memory_kib < 2 ^ 32
  pub argon2_iterations_fits : h.argon2_iterations < 2 ^ 32
  pub argon2_parallelism_fits : h.argon2_parallelism < 2 ^ 32
  pub chunk_plain_size_fits : h.chunk_plain_size < 2 ^ 32
  pub shard_count_fits : h.shard_count < 2 ^ 32
  pub global_chunk_count_fits : h.global_chunk_count < 2 ^ 64
  pub padded_plaintext_size_fits : h.padded_plaintext_size < 2 ^ 64
  pub final_plaintext_chunk_len_fits : h.final_plaintext_chunk_len < 2 ^ 32
  pub padding_policy_id_fits : h.padding_policy_id < 2 ^ 16
  pub reserved0_fits : h.reserved0 < 2 ^ 16
  pub padding_policy_value_fits : h.padding_policy_value < 2 ^ 64
  pub max_shard_payload_len_fits : h.max_shard_payload_len < 2 ^ 64
  pub required_feature_flags_fits : h.required_feature_flags < 2 ^ 64
  pub reserved1_size : length h.reserved1 ≡ 24

pub record ShardFits (h : ShardPublicHeaderV1) : Type 0 where
  pub shard_magic_size : length h.shard_magic ≡ 8
  pub shard_header_len_fits : h.shard_header_len < 2 ^ 32
  pub shard_index_fits : h.shard_index < 2 ^ 32
  pub first_global_chunk_index_fits : h.first_global_chunk_index < 2 ^ 64
  pub shard_chunk_count_fits : h.shard_chunk_count < 2 ^ 64
  pub shard_payload_len_fits : h.shard_payload_len < 2 ^ 64
  pub header_mac_size : length h.header_mac ≡ 32
  pub reserved0_fits : h.reserved0 < 2 ^ 64

pub record ChunkFits (h : ChunkFrameHeaderV1) : Type 0 where
  pub frame_flags_fits : h.frame_flags < 2 ^ 16
  pub shard_index_fits : h.shard_index < 2 ^ 32
  pub global_chunk_index_fits : h.global_chunk_index < 2 ^ 64
  pub plaintext_len_fits : h.plaintext_len < 2 ^ 32
  pub ciphertext_len_fits : h.ciphertext_len < 2 ^ 64
  pub tag_len_fits : h.tag_len < 2 ^ 16
