-- ===== src/Frame/Global/Rules.antt =====
-- The rejection rules of parse_global_public_header, in the order of the source.
use bseal_cpp.Base.{
  ℕ, ◌+◌, ◌-◌, ◌*◌, ◌%◌, ◌^◌, ◌≤◌, ◌<◌, ◌≡◌, ◌⊎◌, ◌↔◌, true, not, ◌&&◌, ◌||◌, ltb, ◌==◌, Result, ok,
  err, invalid_argument, reject_if, then-eq-ok, ◌>>◌, if◌then◌else◌, arith,
}
use bseal_cpp.Endian.{all_zero}
use bseal_cpp.Frame.{
  GlobalPublicHeaderV1, GlobalFits, global_public_header_v1_size, shard_public_header_v1_size,
  chunk_frame_header_v1_size, aead_alg_id_xchacha20_poly1305, aead_alg_id_aes256_gcm,
  kdf_alg_id_argon2id_hkdf, hash_alg_id_blake3, mac_alg_id_hmac_sha256,
}
use bseal_cpp.Frame.Bytes.{is_power_of_two}

unfoldable pub check_identity : GlobalPublicHeaderV1 → Result (Unit {0})
check_identity h = do
  reject_if (not (h.format_major == 1) || not (h.format_minor == 0)) "unsupported format version"
  reject_if (not (h.global_header_len == global_public_header_v1_size)) "global_header_len mismatch"
  reject_if (not (h.shard_header_len == shard_public_header_v1_size))
      "shard_header_len mismatch in global header"
  reject_if (not (h.frame_header_len == chunk_frame_header_v1_size))
      "frame_header_len mismatch in global header"
  reject_if (not (h.global_flags == 0)) "non-zero global_flags"
  reject_if
      (not (h.aead_alg_id == aead_alg_id_xchacha20_poly1305)
        && not (h.aead_alg_id == aead_alg_id_aes256_gcm))
      "unknown aead_alg_id"
  reject_if (not (h.kdf_alg_id == kdf_alg_id_argon2id_hkdf)) "unknown kdf_alg_id"
  reject_if (not (h.hash_alg_id == hash_alg_id_blake3)) "unknown hash_alg_id"
  reject_if (not (h.mac_alg_id == mac_alg_id_hmac_sha256)) "unknown mac_alg_id"
  ok tt

-- `(global_chunk_count - 1u) * chunk_plain_size + final_plaintext_chunk_len`, which wraps at 2 ^ 64.
unfoldable pub expected_size : GlobalPublicHeaderV1 → ℕ
expected_size h =
    ((h.global_chunk_count + 2 ^ 64 - 1) % 2 ^ 64 * h.chunk_plain_size % 2 ^ 64
      + h.final_plaintext_chunk_len)
    % 2 ^ 64

unfoldable pub check_sizes : GlobalPublicHeaderV1 → Result (Unit {0})
check_sizes h = do
  reject_if (h.shard_count == 0) "shard_count is zero"
  reject_if (h.global_chunk_count == 0) "global_chunk_count is zero"
  reject_if (h.padded_plaintext_size == 0) "padded_plaintext_size is zero"
  reject_if
      (not (is_power_of_two h.chunk_plain_size)
        || ltb h.chunk_plain_size 65536
        || ltb 67108864 h.chunk_plain_size)
      "chunk_plain_size is not a power of two in [65536, 67108864]"
  reject_if (h.final_plaintext_chunk_len == 0) "final_plaintext_chunk_len is zero"
  reject_if (ltb h.chunk_plain_size h.final_plaintext_chunk_len)
      "final_plaintext_chunk_len > chunk_plain_size"
  reject_if (not (h.padded_plaintext_size == expected_size h))
      "padded_plaintext_size is inconsistent with chunk counts"
  reject_if (ltb h.global_chunk_count h.shard_count) "shard_count > global_chunk_count"
  ok tt

-- Cases 1 to 3 share the last two tests.
unfoldable pub check_chunk_multiple : GlobalPublicHeaderV1 → Result (Unit {0})
check_chunk_multiple h = do
  reject_if (not (h.padded_plaintext_size % h.chunk_plain_size == 0))
      "padded_plaintext_size is not a multiple of chunk_plain_size"
  reject_if (not (h.final_plaintext_chunk_len == h.chunk_plain_size))
      "final_plaintext_chunk_len must equal chunk_plain_size"
  ok tt

-- `switch (h.padding_policy_id)`
unfoldable pub check_padding_policy : GlobalPublicHeaderV1 → Result (Unit {0})
unfolding check_chunk_multiple
check_padding_policy h =
    if h.padding_policy_id == 0
    then reject_if (not (h.padding_policy_value == 0)) "padding_policy_value must be 0"
    else if h.padding_policy_id == 1
    then (do
      reject_if (not (h.padding_policy_value == 0)) "padding_policy_value must be 0"
      check_chunk_multiple h)
    else if h.padding_policy_id == 2
    then (do
      reject_if (not (h.padding_policy_value == 0)) "padding_policy_value must be 0"
      reject_if (not (is_power_of_two h.padded_plaintext_size))
          "padded_plaintext_size is not a power of two"
      check_chunk_multiple h)
    else if h.padding_policy_id == 3
    then (do
      reject_if (not (h.padding_policy_value == h.padded_plaintext_size))
          "padding_policy_value must equal padded_plaintext_size"
      check_chunk_multiple h)
    else err (invalid_argument "unsupported padding_policy_id")

unfoldable pub check_limits : GlobalPublicHeaderV1 → Result (Unit {0})
check_limits h = do
  reject_if (h.max_shard_payload_len == 0) "max_shard_payload_len is zero"
  reject_if (not (h.required_feature_flags == 0)) "non-zero required_feature_flags"
  reject_if (not (h.reserved0 == 0)) "non-zero reserved0 in global header"
  reject_if (not (all_zero h.reserved1)) "non-zero reserved1 in global header"
  ok tt

unfoldable pub check_global_header : GlobalPublicHeaderV1 → Result (Unit {0})
check_global_header h = do check_identity h; check_sizes h; check_padding_policy h; check_limits h

-- What the checks ask of an accepted header, as propositions. FORMAT.md section 5.1 asks for more: bounds on the
-- KDF parameters, which derive_master_seed tests, a payload length with room for a full frame, and an exact sum
-- of the chunk sizes.
pub record IdentityRules (h : GlobalPublicHeaderV1) : Type 0 where
  pub major : h.format_major ≡ 1
  pub minor : h.format_minor ≡ 0
  pub global_len : h.global_header_len ≡ 192
  pub shard_len : h.shard_header_len ≡ 80
  pub frame_len : h.frame_header_len ≡ 40
  pub flags : h.global_flags ≡ 0
  pub aead : (h.aead_alg_id ≡ 1) ⊎ (h.aead_alg_id ≡ 2)
  pub kdf : h.kdf_alg_id ≡ 1
  pub hash : h.hash_alg_id ≡ 1
  pub mac : h.mac_alg_id ≡ 1

pub record SizeRules (h : GlobalPublicHeaderV1) : Type 0 where
  pub some_shard : 0 < h.shard_count
  pub shards_le_chunks : h.shard_count ≤ h.global_chunk_count
  pub some_plaintext : 0 < h.padded_plaintext_size
  pub chunk_power : is_power_of_two h.chunk_plain_size ≡ true
  pub chunk_min : 65536 ≤ h.chunk_plain_size
  pub chunk_max : h.chunk_plain_size ≤ 67108864
  pub some_final : 0 < h.final_plaintext_chunk_len
  pub final_le_chunk : h.final_plaintext_chunk_len ≤ h.chunk_plain_size
  pub consistent :
      h.padded_plaintext_size
      ≡ ((h.global_chunk_count - 1) * h.chunk_plain_size + h.final_plaintext_chunk_len) % 2 ^ 64

abbrev pub FullChunks : GlobalPublicHeaderV1 → Type 0
FullChunks h =
    (h.padded_plaintext_size % h.chunk_plain_size ≡ 0)
    × (h.final_plaintext_chunk_len ≡ h.chunk_plain_size)

abbrev pub PaddingRules : GlobalPublicHeaderV1 → Type 0
PaddingRules h =
    ((h.padding_policy_id ≡ 0) × (h.padding_policy_value ≡ 0))
    ⊎ (((h.padding_policy_id ≡ 1) × (h.padding_policy_value ≡ 0) × FullChunks h)
        ⊎ (((h.padding_policy_id ≡ 2)
              × (h.padding_policy_value ≡ 0)
              × (is_power_of_two h.padded_plaintext_size ≡ true)
              × FullChunks h)
            ⊎ ((h.padding_policy_id ≡ 3)
                × (h.padding_policy_value ≡ h.padded_plaintext_size)
                × FullChunks h)))

pub record LimitRules (h : GlobalPublicHeaderV1) : Type 0 where
  pub some_payload : 0 < h.max_shard_payload_len
  pub features : h.required_feature_flags ≡ 0
  pub reserved : h.reserved0 ≡ 0
  pub tail : all_zero h.reserved1 ≡ true

pub record GlobalRules (h : GlobalPublicHeaderV1) : Type 0 where
  pub identity : IdentityRules h
  pub sizes : SizeRules h
  pub padding : PaddingRules h
  pub limits : LimitRules h

check_identity_iff : (h : GlobalPublicHeaderV1) → (check_identity h ≡ ok tt) ↔ IdentityRules h
unfolding check_identity
check_identity_iff h = (λ e. ground arith, λ r. ground arith)

check_sizes_iff :
    (h : GlobalPublicHeaderV1)
    → h.global_chunk_count < 2 ^ 64
    → (check_sizes h ≡ ok tt) ↔ SizeRules h
unfolding check_sizes expected_size
check_sizes_iff h fits = (λ e. ground arith, λ r. ground arith)

check_padding_iff : (h : GlobalPublicHeaderV1) → (check_padding_policy h ≡ ok tt) ↔ PaddingRules h
unfolding check_padding_policy
check_padding_iff h = (λ e. ground arith, λ r. ground arith)

check_limits_iff : (h : GlobalPublicHeaderV1) → (check_limits h ≡ ok tt) ↔ LimitRules h
unfolding check_limits
check_limits_iff h = (λ e. ground arith, λ r. ground arith)

-- The checks accept exactly the headers that obey the rules.
pub check_global_iff :
    (h : GlobalPublicHeaderV1) → GlobalFits h → (check_global_header h ≡ ok tt) ↔ GlobalRules h
unfolding check_global_header
check_global_iff h fits = (
  λ e.
      let (a, k1) = then-eq-ok (check_identity h) _ e in
      let (b, k2) = then-eq-ok (check_sizes h) _ k1 in
      let (c, d) = then-eq-ok (check_padding_policy h) _ k2 in
      record {
        identity = (check_identity_iff h).0 a;
        sizes = (check_sizes_iff h fits.global_chunk_count_fits).0 b;
        padding = (check_padding_iff h).0 c;
        limits = (check_limits_iff h).0 d;
      },
  λ r. ground (
    arith,
    (check_identity_iff h).1 r.identity,
    (check_sizes_iff h fits.global_chunk_count_fits).1 r.sizes,
    (check_padding_iff h).1 r.padding,
    (check_limits_iff h).1 r.limits,
  ),
)
