-- ===== src/Tests/Frame.antt =====
-- The headers of io/ShardFrame.cpp and the arithmetic of common/CheckedArithmetic.hpp.
use bseal_cpp.Base.{
  ℕ, ◌+◌, ◌^◌, ◌≤◌, ◌<◌, ◌≡◌, refl, ◌⊎◌, ◌↔◌, true, List, [], ◌∷◌, ◌++◌, take, replicate, String,
  Option, some, ok, err, invalid_argument, arith,
}
use bseal_cpp.Endian.{all_zero}
use bseal_cpp.Endian.Inverse.{are_bytes}
use bseal_cpp.Frame.{
  GlobalPublicHeaderV1, ShardPublicHeaderV1, ChunkFrameHeaderV1, GlobalFits, ShardFits, ChunkFits,
  default_shard_header, global_header_v1_magic, shard_header_v1_magic,
}
use bseal_cpp.Frame.Global.{
  serialize_global_public_header, parse_global_public_header, truncated_global, read_global,
}
use bseal_cpp.Frame.Global.Rules.{
  GlobalRules, check_global_iff, check_global_header, check_identity, check_sizes,
  check_padding_policy, check_limits, check_chunk_multiple, expected_size,
}
use bseal_cpp.Frame.Bytes.{is_power_of_two, parse_block_accepts}
use bseal_cpp.Frame.Global.Layout.{global_bytes}
use bseal_cpp.Frame.Global.RoundTrip.{parse-serialize_global, read_global_lem}
use bseal_cpp.Frame.Global.Canonical.{parse_global_sound}
use bseal_cpp.Frame.Shard.{
  truncated_shard, read_shard, serialize_shard_public_header_for_mac, serialize_shard_public_header,
  parse_shard_public_header,
}
use bseal_cpp.Frame.Shard.Rules.{ShardRules, check_shard_header, check_shard_iff}
use bseal_cpp.Frame.Shard.Laws.{
  shard_bytes, read_shard_lem, parse-serialize_shard, parse_shard_sound,
}
use bseal_cpp.Frame.Chunk.{
  truncated_frame, read_chunk, serialize_chunk_frame_header_v1, parse_chunk_frame_header_v1,
  chunk_frame_v1_encoded_size_from_params,
}
use bseal_cpp.Frame.Chunk.Rules.{ChunkRules, check_chunk_header, check_chunk_iff}
use bseal_cpp.Frame.Chunk.Laws.{
  chunk_bytes, read_chunk_lem, parse-serialize_chunk, parse_chunk_sound,
}
use bseal_cpp.Frame.Chunk.Size.{encoded_size_exact}
use bseal_cpp.Frame.Mac.{
  header_message, header_mac_domain, compute_shard_header_mac, verify_shard_header_mac,
}
use bseal_cpp.Frame.Mac.Laws.{without_mac, header_message_injective, verify_iff_computed}
use bseal_cpp.Checked.{checked_ceil_div_u64, checked_next_power_of_two_u64}
use bseal_cpp.Checked.Laws.{next_power_of_two_least}

nine_by_four : checked_ceil_div_u64 9 4 "chunks" ≡ ok 3
unfolding checked_ceil_div_u64
nine_by_four = refl

-- An archive of one shard with one full chunk of 64 KiB.
abbrev pub small_global : GlobalPublicHeaderV1
small_global = record {
  magic = global_header_v1_magic;
  format_major = 1;
  format_minor = 0;
  global_header_len = 192;
  shard_header_len = 80;
  frame_header_len = 40;
  global_flags = 0;
  archive_id = replicate 32 7;
  aead_alg_id = 1;
  kdf_alg_id = 1;
  hash_alg_id = 1;
  mac_alg_id = 1;
  kdf_salt = replicate 32 9;
  argon2_version = 19;
  argon2_memory_kib = 262144;
  argon2_iterations = 3;
  argon2_parallelism = 4;
  chunk_plain_size = 65536;
  shard_count = 1;
  global_chunk_count = 1;
  padded_plaintext_size = 65536;
  final_plaintext_chunk_len = 65536;
  padding_policy_id = 0;
  reserved0 = 0;
  padding_policy_value = 0;
  max_shard_payload_len = 1048576;
  required_feature_flags = 0;
  reserved1 = replicate 24 0;
}

pub small_global-GlobalFits : GlobalFits small_global
small_global-GlobalFits = record {
  magic_size = refl;
  format_major_fits = omega arith;
  format_minor_fits = omega arith;
  global_header_len_fits = omega arith;
  shard_header_len_fits = omega arith;
  frame_header_len_fits = omega arith;
  global_flags_fits = omega arith;
  archive_id_size = refl;
  aead_alg_id_fits = omega arith;
  kdf_alg_id_fits = omega arith;
  hash_alg_id_fits = omega arith;
  mac_alg_id_fits = omega arith;
  kdf_salt_size = refl;
  argon2_version_fits = omega arith;
  argon2_memory_kib_fits = omega arith;
  argon2_iterations_fits = omega arith;
  argon2_parallelism_fits = omega arith;
  chunk_plain_size_fits = omega arith;
  shard_count_fits = omega arith;
  global_chunk_count_fits = omega arith;
  padded_plaintext_size_fits = omega arith;
  final_plaintext_chunk_len_fits = omega arith;
  padding_policy_id_fits = omega arith;
  reserved0_fits = omega arith;
  padding_policy_value_fits = omega arith;
  max_shard_payload_len_fits = omega arith;
  required_feature_flags_fits = omega arith;
  reserved1_size = refl;
}

small_global-GlobalRules : GlobalRules small_global
unfolding check_global_header check_identity check_sizes check_padding_policy check_limits
    check_chunk_multiple expected_size is_power_of_two all_zero
small_global-GlobalRules = (check_global_iff small_global small_global-GlobalFits).0 refl

parse-serialize_global_example :
    (out : List ℕ) × (serialize_global_public_header small_global ≡ ok out)
    × (parse_global_public_header (out ++ (1 ∷ [])) ≡ ok small_global)
parse-serialize_global_example =
    parse-serialize_global small_global (1 ∷ []) small_global-GlobalFits refl
      small_global-GlobalRules

abbrev small_global_bytes : List ℕ
small_global_bytes = global_bytes small_global []

small_global_parsed : parse_global_public_header small_global_bytes ≡ ok small_global
unfolding parse_global_public_header
small_global_parsed =
    parse_block_accepts 192 truncated_global read_global check_global_header small_global_bytes []
      small_global (omega arith) (read_global_lem small_global [] small_global-GlobalFits refl)
      ((check_global_iff small_global small_global-GlobalFits).1 small_global-GlobalRules)

parse_global_sound_example :
    GlobalFits small_global
    × GlobalRules small_global
    × (small_global.magic ≡ global_header_v1_magic)
    × (serialize_global_public_header small_global ≡ ok (take 192 small_global_bytes))
parse_global_sound_example =
    parse_global_sound small_global_bytes small_global (are_bytes small_global_bytes refl)
      small_global_parsed

abbrev pub small_shard : ShardPublicHeaderV1
small_shard = record {
  shard_magic = shard_header_v1_magic;
  shard_header_len = 80;
  shard_index = 0;
  first_global_chunk_index = 0;
  shard_chunk_count = 1;
  shard_payload_len = 65592;
  header_mac = replicate 32 5;
  reserved0 = 0;
}

pub small_shard-ShardFits : ShardFits small_shard
small_shard-ShardFits = record {
  shard_magic_size = refl;
  shard_header_len_fits = omega arith;
  shard_index_fits = omega arith;
  first_global_chunk_index_fits = omega arith;
  shard_chunk_count_fits = omega arith;
  shard_payload_len_fits = omega arith;
  header_mac_size = refl;
  reserved0_fits = omega arith;
}

small_shard-ShardRules : ShardRules small_shard
small_shard-ShardRules = record {
  header_len = refl;
  some_chunk = omega arith;
  some_payload = omega arith;
  reserved = refl;
}

parse-serialize_shard_example :
    (out : List ℕ) × (serialize_shard_public_header small_shard ≡ ok out)
    × (parse_shard_public_header (out ++ (1 ∷ [])) ≡ ok small_shard)
parse-serialize_shard_example =
    parse-serialize_shard small_shard (1 ∷ []) small_shard-ShardFits refl small_shard-ShardRules

abbrev small_shard_bytes : List ℕ
small_shard_bytes = shard_bytes small_shard []

small_shard_parsed : parse_shard_public_header small_shard_bytes ≡ ok small_shard
unfolding parse_shard_public_header
small_shard_parsed =
    parse_block_accepts 80 truncated_shard (read_shard default_shard_header) check_shard_header
      small_shard_bytes [] small_shard (omega arith)
      (read_shard_lem default_shard_header small_shard [] small_shard-ShardFits refl)
      ((check_shard_iff small_shard).1 small_shard-ShardRules)

parse_shard_sound_example :
    ShardFits small_shard
    × ShardRules small_shard
    × (small_shard.shard_magic ≡ shard_header_v1_magic)
    × (serialize_shard_public_header small_shard ≡ ok (take 80 small_shard_bytes))
parse_shard_sound_example =
    parse_shard_sound small_shard_bytes small_shard (are_bytes small_shard_bytes refl)
      small_shard_parsed

abbrev small_frame : ChunkFrameHeaderV1
small_frame = record {
  frame_flags = 1;
  shard_index = 0;
  global_chunk_index = 0;
  plaintext_len = 65536;
  ciphertext_len = 65536;
  tag_len = 16;
}

small_frame-ChunkFits : ChunkFits small_frame
small_frame-ChunkFits = record {
  frame_flags_fits = omega arith;
  shard_index_fits = omega arith;
  global_chunk_index_fits = omega arith;
  plaintext_len_fits = omega arith;
  ciphertext_len_fits = omega arith;
  tag_len_fits = omega arith;
}

small_frame-ChunkRules : ChunkRules small_frame
small_frame-ChunkRules = record { flags = omega arith; tag = refl; cipher = refl }

parse-serialize_chunk_example :
    (out : List ℕ) × (serialize_chunk_frame_header_v1 small_frame ≡ ok out)
    × (parse_chunk_frame_header_v1 (out ++ (1 ∷ [])) ≡ ok small_frame)
parse-serialize_chunk_example =
    parse-serialize_chunk small_frame (1 ∷ []) small_frame-ChunkFits small_frame-ChunkRules

abbrev small_frame_bytes : List ℕ
small_frame_bytes = chunk_bytes small_frame []

small_frame_parsed : parse_chunk_frame_header_v1 small_frame_bytes ≡ ok small_frame
unfolding parse_chunk_frame_header_v1
small_frame_parsed =
    parse_block_accepts 40 truncated_frame read_chunk check_chunk_header small_frame_bytes []
      small_frame (omega arith) (read_chunk_lem small_frame [] small_frame-ChunkFits)
      ((check_chunk_iff small_frame small_frame-ChunkFits).1 small_frame-ChunkRules)

parse_chunk_sound_example :
    ChunkFits small_frame
    × ChunkRules small_frame
    × (serialize_chunk_frame_header_v1 small_frame ≡ ok (take 40 small_frame_bytes))
parse_chunk_sound_example =
    parse_chunk_sound small_frame_bytes small_frame (are_bytes small_frame_bytes refl)
      small_frame_parsed

encoded_size_exact_example :
    ((40 + 65536 + 16 < 2 ^ 64)
      × (chunk_frame_v1_encoded_size_from_params 65536 16 ≡ ok (40 + 65536 + 16)))
    ⊎ ((2 ^ 64 ≤ 40 + 65536 + 16)
        × (message : String) × (chunk_frame_v1_encoded_size_from_params 65536 16
            ≡ err (invalid_argument message)))
encoded_size_exact_example = encoded_size_exact 65536 16 (omega arith) (omega arith)

other_mac-ShardFits : ShardFits (record small_shard { header_mac = replicate 32 6 })
other_mac-ShardFits = record {
  shard_magic_size = refl;
  shard_header_len_fits = omega arith;
  shard_index_fits = omega arith;
  first_global_chunk_index_fits = omega arith;
  shard_chunk_count_fits = omega arith;
  shard_payload_len_fits = omega arith;
  header_mac_size = refl;
  reserved0_fits = omega arith;
}

same_message :
    header_message header_mac_domain small_global small_shard
    ≡ header_message header_mac_domain small_global
        (record small_shard { header_mac = replicate 32 6 })
unfolding header_message serialize_shard_public_header_for_mac
same_message = refl

header_message_injective_example :
    (small_global ≡ small_global)
    × (without_mac small_shard ≡ without_mac (record small_shard { header_mac = replicate 32 6 }))
header_message_injective_example =
    header_message_injective header_mac_domain small_global small_global small_shard
      (record small_shard { header_mac = replicate 32 6 }) small_global-GlobalFits
      small_global-GlobalFits small_shard-ShardFits other_mac-ShardFits same_message

abbrev pub constant_mac : List ℕ → List ℕ → Option (List ℕ)
constant_mac key message = some (replicate 32 5)

verify_iff_computed_example :
    (verify_shard_header_mac constant_mac
        (1 ∷ [])
        small_global
        (record small_shard { header_mac = replicate 32 5 })
      ≡ ok true)
    ↔ (compute_shard_header_mac constant_mac (1 ∷ []) small_global small_shard
        ≡ ok (replicate 32 5))
verify_iff_computed_example =
    verify_iff_computed constant_mac (1 ∷ []) small_global small_shard (replicate 32 5)

next_power_of_two_least_example :
    (k : ℕ) × (checked_next_power_of_two_u64 5 "padding" ≡ ok (2 ^ k))
    × (5 ≤ 2 ^ k)
    × ((j : ℕ) → 5 ≤ 2 ^ j → k ≤ j)
next_power_of_two_least_example = next_power_of_two_least 5 "padding" (omega arith)
