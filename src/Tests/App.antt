-- ===== src/Tests/App.antt =====
-- The planning of an archive and its keys.
use bseal_cpp.Base.{
  ℕ, ◌<◌, ◌≡◌, refl, ◌⊎◌, List, [], ◌∷◌, length, replicate, Option, some, ok, arith,
}
use bseal_cpp.Checked.{checked_add_u64}
use bseal_cpp.Endian.{append_u64_le, push_bytes_le}
use bseal_cpp.App.Plan.{ShardPlan, PlanParams, plan_shards}
use bseal_cpp.App.Plan.Laws.{Covers, plan_shards-Covers}
use bseal_cpp.App.Padding.{
  PaddingPolicy, PaddingResult, compute_padding, chunk_padding, chunk_target, too_small,
}
use bseal_cpp.App.Padding.Laws.{GapFits, Obeys, compute_padding_sound}
use bseal_cpp.Crypto.Kdf.{
  KdfPreset, KdfParams, KdfInput, hkdf_sha256, mix_keyfiles, derive_master_seed,
  validate_kdf_params, require_u32_range, validate_kdf_security_floor,
}
use bseal_cpp.Crypto.Kdf.Laws.{
  InFormat, AboveFloor, derive_master_seed_sound, mix_message_injective,
}
use bseal_cpp.Crypto.Keys.{CipherSuite, NonceContext, nonce_size_for_suite, derive_chunk_nonce}
use bseal_cpp.Crypto.Keys.Laws.{chunk_nonce_unique}

-- Five chunks of 64 KiB, the last one of 7 bytes, two to a shard.
abbrev five_chunks : PlanParams
five_chunks = record {
  global_chunk_count = 5;
  chunk_plain_size = 65536;
  tag_len = 16;
  max_shard_payload_len = 140000;
  final_plaintext_chunk_len = 7;
}

plan_shards-Covers_example :
    (plans : List ShardPlan) × (plan_shards five_chunks ≡ ok plans) × Covers five_chunks 0 0 plans
plan_shards-Covers_example = plan_shards-Covers five_chunks (record {
  count_fits = omega arith;
  final_fits = omega arith;
  tag_fits = omega arith;
  max_fits = omega arith;
  frame_fits = omega arith;
})

abbrev padded : PaddingResult
padded = record { target_size = 131072; policy_id = 1; policy_value = 0 }

abbrev raw : ℕ
raw = 65530

-- A gap of 6 bytes is too small for a padding record: one more chunk.
padded_is : compute_padding raw 65536 PaddingPolicy.chunk ≡ ok padded
unfolding compute_padding chunk_padding chunk_target too_small checked_add_u64
padded_is = refl

compute_padding_sound_example :
    GapFits raw 131072 × (raw ≡ 0 ⊎ Obeys PaddingPolicy.chunk raw 65536 131072)
compute_padding_sound_example =
    compute_padding_sound raw 65536 PaddingPolicy.chunk padded (omega arith) (omega arith) padded_is

-- An HKDF that returns as many bytes as it is asked for.
abbrev zeros : List ℕ → List ℕ → List ℕ → ℕ → Option (List ℕ)
zeros ikm salt info n = some (replicate n 0)

abbrev context : NonceContext
context = record { suite = CipherSuite.aes256_gcm; archive_id = replicate 32 7 }

abbrev index : ℕ
index = 3

abbrev nonce : List ℕ
nonce = 0 ∷ 0 ∷ 0 ∷ 0 ∷ 3 ∷ 0 ∷ 0 ∷ 0 ∷ 0 ∷ 0 ∷ 0 ∷ 0 ∷ []

nonce_is : derive_chunk_nonce zeros (1 ∷ []) context index ≡ ok nonce
unfolding derive_chunk_nonce hkdf_sha256 nonce_size_for_suite append_u64_le push_bytes_le
nonce_is = refl

chunk_nonce_unique_example :
    (index ≡ index) × (length nonce ≡ nonce_size_for_suite CipherSuite.aes256_gcm)
chunk_nonce_unique_example =
    chunk_nonce_unique zeros (1 ∷ []) context index index nonce (omega arith) (omega arith) nonce_is
      nonce_is

abbrev input : KdfInput
input = record {
  passphrase = b'p' ∷ [];
  keyfiles = [];
  salt = replicate 32 9;
  archive_id = replicate 32 7;
  params = record {
    preset = KdfPreset.fast;
    memory_kib = 262144;
    iterations = 3;
    parallelism = 4;
    output_bytes = 32;
  };
}

abbrev argon2id : KdfParams → List ℕ → List ℕ → Option (List ℕ)
argon2id p pass salt = some (replicate 32 1)

abbrev blake3 : List ℕ → List ℕ
blake3 bytes = replicate 32 2

abbrev seed : List ℕ
seed = replicate 32 0

abbrev digests : List (List ℕ)
digests = replicate 32 1 ∷ []

seed_is : derive_master_seed argon2id blake3 zeros input ≡ ok seed
unfolding derive_master_seed validate_kdf_params require_u32_range validate_kdf_security_floor
    hkdf_sha256 mix_keyfiles
seed_is = refl

derive_master_seed_sound_example :
    (0 < length input.passphrase)
    × InFormat input.params
    × AboveFloor input.params
    × (length seed ≡ 32)
derive_master_seed_sound_example = derive_master_seed_sound argon2id blake3 zeros input seed seed_is

mix_message_injective_example : digests ≡ digests
mix_message_injective_example = mix_message_injective digests digests (refl, tt) (refl, tt) refl
