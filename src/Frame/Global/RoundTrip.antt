-- ===== src/Frame/Global/RoundTrip.antt =====
-- Reading back what the serialiser wrote.
use bseal_cpp.Base.{ℕ, ◌≡◌, refl, ◌∙◌, List, [], ◌++◌, length, length-append, ok, arith}
use bseal_cpp.Endian.Laws.{
  take-block, bind_step, then_step, read_bytes-append, read_u16_le-append, read_u32_le-append,
  read_u64_le-append,
}
use bseal_cpp.Frame.Global.Rules.{GlobalRules, check_global_iff, check_global_header}
use bseal_cpp.Frame.{
  default_global_header, GlobalPublicHeaderV1, GlobalFits, global_header_v1_magic,
}
use bseal_cpp.Frame.Bytes.{equal_bytes_refl, parse_block_accepts}
use bseal_cpp.Frame.Global.{
  read_identity, read_sizes, read_limits, truncated_global, read_global, parse_global_public_header,
  serialize_global_public_header,
}
use bseal_cpp.Frame.Global.Layout.{
  identity_bytes, sizes_bytes, limits_bytes, global_bytes, serialize_global-eq, length-global_bytes,
}

pub read_identity_lem :
    (d h : GlobalPublicHeaderV1) (rest : List ℕ)
    → GlobalFits h
    → h.magic ≡ global_header_v1_magic
    → read_identity d (identity_bytes h rest)
      ≡ ok (
        record d {
          magic = h.magic;
          format_major = h.format_major;
          format_minor = h.format_minor;
          global_header_len = h.global_header_len;
          shard_header_len = h.shard_header_len;
          frame_header_len = h.frame_header_len;
          global_flags = h.global_flags;
          archive_id = h.archive_id;
          aead_alg_id = h.aead_alg_id;
          kdf_alg_id = h.kdf_alg_id;
          hash_alg_id = h.hash_alg_id;
          mac_alg_id = h.mac_alg_id;
        },
        rest,
      )
unfolding read_identity
read_identity_lem d h rest fits is_magic =
    bind_step _ _ (read_bytes-append truncated_global h.magic _ 8 fits.magic_size)
    ∙ then_step _ _ (rw (is_magic, equal_bytes_refl) refl)
    ∙ bind_step _ _ (read_u16_le-append truncated_global h.format_major _ fits.format_major_fits)
    ∙ bind_step _ _ (read_u16_le-append truncated_global h.format_minor _ fits.format_minor_fits)
    ∙ bind_step _ _
        (read_u32_le-append truncated_global h.global_header_len _ fits.global_header_len_fits)
    ∙ bind_step _ _
        (read_u32_le-append truncated_global h.shard_header_len _ fits.shard_header_len_fits)
    ∙ bind_step _ _
        (read_u16_le-append truncated_global h.frame_header_len _ fits.frame_header_len_fits)
    ∙ bind_step _ _ (read_u16_le-append truncated_global h.global_flags _ fits.global_flags_fits)
    ∙ bind_step _ _ (read_bytes-append truncated_global h.archive_id _ 32 fits.archive_id_size)
    ∙ bind_step _ _ (read_u16_le-append truncated_global h.aead_alg_id _ fits.aead_alg_id_fits)
    ∙ bind_step _ _ (read_u16_le-append truncated_global h.kdf_alg_id _ fits.kdf_alg_id_fits)
    ∙ bind_step _ _ (read_u16_le-append truncated_global h.hash_alg_id _ fits.hash_alg_id_fits)
    ∙ bind_step _ _ (read_u16_le-append truncated_global h.mac_alg_id _ fits.mac_alg_id_fits)

pub read_sizes_lem :
    (d h : GlobalPublicHeaderV1) (rest : List ℕ)
    → GlobalFits h
    → read_sizes d (sizes_bytes h rest)
      ≡ ok (
        record d {
          kdf_salt = h.kdf_salt;
          argon2_version = h.argon2_version;
          argon2_memory_kib = h.argon2_memory_kib;
          argon2_iterations = h.argon2_iterations;
          argon2_parallelism = h.argon2_parallelism;
          chunk_plain_size = h.chunk_plain_size;
          shard_count = h.shard_count;
          global_chunk_count = h.global_chunk_count;
          padded_plaintext_size = h.padded_plaintext_size;
          final_plaintext_chunk_len = h.final_plaintext_chunk_len;
          padding_policy_id = h.padding_policy_id;
          reserved0 = h.reserved0;
        },
        rest,
      )
unfolding read_sizes
read_sizes_lem d h rest fits =
    bind_step _ _ (read_bytes-append truncated_global h.kdf_salt _ 32 fits.kdf_salt_size)
    ∙ bind_step _ _
        (read_u32_le-append truncated_global h.argon2_version _ fits.argon2_version_fits)
    ∙ bind_step _ _
        (read_u32_le-append truncated_global h.argon2_memory_kib _ fits.argon2_memory_kib_fits)
    ∙ bind_step _ _
        (read_u32_le-append truncated_global h.argon2_iterations _ fits.argon2_iterations_fits)
    ∙ bind_step _ _
        (read_u32_le-append truncated_global h.argon2_parallelism _ fits.argon2_parallelism_fits)
    ∙ bind_step _ _
        (read_u32_le-append truncated_global h.chunk_plain_size _ fits.chunk_plain_size_fits)
    ∙ bind_step _ _ (read_u32_le-append truncated_global h.shard_count _ fits.shard_count_fits)
    ∙ bind_step _ _
        (read_u64_le-append truncated_global h.global_chunk_count _ fits.global_chunk_count_fits)
    ∙ bind_step _ _ (
        read_u64_le-append truncated_global h.padded_plaintext_size _
          fits.padded_plaintext_size_fits)
    ∙ bind_step _ _ (
        read_u32_le-append truncated_global h.final_plaintext_chunk_len _
          fits.final_plaintext_chunk_len_fits)
    ∙ bind_step _ _
        (read_u16_le-append truncated_global h.padding_policy_id _ fits.padding_policy_id_fits)
    ∙ bind_step _ _ (read_u16_le-append truncated_global h.reserved0 _ fits.reserved0_fits)

pub read_limits_lem :
    (d h : GlobalPublicHeaderV1) (rest : List ℕ)
    → GlobalFits h
    → read_limits d (limits_bytes h rest)
      ≡ ok (
        record d {
          padding_policy_value = h.padding_policy_value;
          max_shard_payload_len = h.max_shard_payload_len;
          required_feature_flags = h.required_feature_flags;
          reserved1 = h.reserved1;
        },
        rest,
      )
unfolding read_limits
read_limits_lem d h rest fits =
    bind_step _ _
      (read_u64_le-append truncated_global h.padding_policy_value _ fits.padding_policy_value_fits)
    ∙ bind_step _ _ (
        read_u64_le-append truncated_global h.max_shard_payload_len _
          fits.max_shard_payload_len_fits)
    ∙ bind_step _ _ (
        read_u64_le-append truncated_global h.required_feature_flags _
          fits.required_feature_flags_fits)
    ∙ bind_step _ _ (read_bytes-append truncated_global h.reserved1 _ 24 fits.reserved1_size)

pub read_global_lem :
    (h : GlobalPublicHeaderV1) (rest : List ℕ)
    → GlobalFits h
    → h.magic ≡ global_header_v1_magic
    → read_global (global_bytes h rest) ≡ ok (h, rest)
unfolding read_global
read_global_lem h rest fits is_magic =
    bind_step _ _ (read_identity_lem default_global_header h _ fits is_magic)
    ∙ bind_step _ _ (read_sizes_lem _ h _ fits)
    ∙ read_limits_lem _ h rest fits

-- A header that obeys the rejection rules is serialised without an error, and
-- parse_global_public_header reads it back from the bytes, whatever follows them in the file.
pub parse-serialize_global :
    (h : GlobalPublicHeaderV1) (rest : List ℕ)
    → GlobalFits h
    → h.magic ≡ global_header_v1_magic
    → GlobalRules h
    → (out : List ℕ) × (serialize_global_public_header h ≡ ok out)
      × (parse_global_public_header (out ++ rest) ≡ ok h)
unfolding parse_global_public_header
parse-serialize_global h rest fits is_magic rules =
    let out : List ℕ = global_bytes h [] in
    let size : length out ≡ 192 = omega (arith, length-global_bytes h [] fits) in
    (
      out,
      serialize_global-eq h fits,
      parse_block_accepts 192 truncated_global read_global check_global_header (out ++ rest) [] h
          (omega (arith, size, length-append out rest))
          (rw (take-block 192 out rest size) (read_global_lem h [] fits is_magic))
          ((check_global_iff h fits).1 rules),
    )
