-- ===== src/Crypto/Kdf.antt =====
-- crypto/Kdf: the Argon2id parameters, the checks on them, and the derivation of the master seed.
-- Argon2id, BLAKE3 and OpenSSL's HKDF are parameters; a keyfile is its bytes.
pub mod Laws
use bseal_cpp.Base.{
  ℕ, ◌+◌, ◌*◌, ◌^◌, ◌%◌, Bool, true, false, not, ◌||◌, ltb, leb, ◌==◌, length, List, [], ◌∷◌, ◌++◌,
  map, String, Option, none, some, Result, ok, err, error, invalid_argument, reject_if, ◌>>=◌, ◌>>◌,
  if◌then◌else◌,
}
use bseal_cpp.Endian.{text_bytes, append_u32_le, append_u64_le}

pub data KdfPreset : Type 0 where
  fast strong paranoid custom : KdfPreset

pub record KdfParams : Type 0 where
  pub preset : KdfPreset
  pub memory_kib : ℕ
  pub iterations : ℕ
  pub parallelism : ℕ
  pub output_bytes : ℕ

pub record KdfResourcePolicy : Type 0 where
  pub max_memory_kib : ℕ
  pub max_iterations : ℕ
  pub max_parallelism : ℕ

unfoldable pub default_kdf_params : KdfParams
default_kdf_params = record {
  preset = KdfPreset.strong;
  memory_kib = 1024 * 1024;
  iterations = 3;
  parallelism = 4;
  output_bytes = 32;
}

unfoldable pub default_policy : KdfResourcePolicy
default_policy = record {
  max_memory_kib = 2 * 1024 * 1024;
  max_iterations = 4;
  max_parallelism = 8;
}

unfoldable pub require_u32_range : ℕ → ℕ → ℕ → String → Result (Unit {0})
require_u32_range value low high name = reject_if (ltb value low || ltb high value) name

unfoldable pub validate_kdf_params : KdfParams → Result (Unit {0})
validate_kdf_params p = do
  require_u32_range p.memory_kib 65536 4194304 "Argon2id memory_kib"
  require_u32_range p.iterations 1 10 "Argon2id iterations"
  require_u32_range p.parallelism 1 32 "Argon2id parallelism"
  require_u32_range p.output_bytes 32 64 "KDF output_bytes"

unfoldable pub validate_kdf_security_floor : KdfParams → Result (Unit {0})
validate_kdf_security_floor p =
    let min_iter = if leb (256 * 1024) p.memory_kib then 3 else 4 in
    reject_if (ltb p.iterations min_iter) "Argon2id parameters are below the minimum security floor"

unfoldable pub validate_kdf_resource_policy : KdfResourcePolicy → Result (Unit {0})
validate_kdf_resource_policy p = do
  reject_if (p.max_memory_kib == 0) "KDF resource policy max_memory_kib must not be zero"
  reject_if (ltb 4194304 p.max_memory_kib)
      "KDF resource policy max_memory_kib exceeds the format maximum"
  reject_if (p.max_iterations == 0) "KDF resource policy max_iterations must not be zero"
  reject_if (ltb 10 p.max_iterations)
      "KDF resource policy max_iterations exceeds the format maximum"
  reject_if (p.max_parallelism == 0) "KDF resource policy max_parallelism must not be zero"
  reject_if (ltb 32 p.max_parallelism)
      "KDF resource policy max_parallelism exceeds the format maximum"

unfoldable pub check_kdf_params_against_policy : KdfParams → KdfResourcePolicy → Result (Unit {0})
check_kdf_params_against_policy p policy = do
  reject_if (ltb policy.max_memory_kib p.memory_kib)
      "archive Argon2id memory_kib exceeds the local policy"
  reject_if (ltb policy.max_iterations p.iterations)
      "archive Argon2id iterations exceed the local policy"
  reject_if (ltb policy.max_parallelism p.parallelism)
      "archive Argon2id parallelism exceeds the local policy"

unfoldable pub preset_params : KdfPreset → KdfParams
unfolding default_kdf_params
preset_params KdfPreset.fast = record {
  preset = KdfPreset.fast;
  memory_kib = 256 * 1024;
  iterations = 3;
  parallelism = 4;
  output_bytes = 32;
}
preset_params KdfPreset.strong = record {
  preset = KdfPreset.strong;
  memory_kib = 1024 * 1024;
  iterations = 3;
  parallelism = 4;
  output_bytes = 32;
}
preset_params KdfPreset.paranoid = record {
  preset = KdfPreset.paranoid;
  memory_kib = 2 * 1024 * 1024;
  iterations = 4;
  parallelism = 8;
  output_bytes = 32;
}
preset_params KdfPreset.custom = default_kdf_params

-- The bytes that are hashed for a keyfile, and for the digests of all keyfiles. Both domain strings
-- include the terminating NUL.
unfoldable pub keyfile_message : List ℕ → List ℕ
keyfile_message contents =
    (text_bytes "BSEAL keyfile digest v1" ++ (0 ∷ []))
    ++ (append_u64_le [] (length contents) ++ contents)

unfoldable pub concat_digests : List (List ℕ) → List ℕ
concat_digests [] = []
concat_digests (d ∷ ds) = d ++ concat_digests ds

unfoldable pub mix_message : List (List ℕ) → List ℕ
mix_message digests =
    (text_bytes "BSEAL keyfile mix v1" ++ (0 ∷ []))
    ++ (append_u32_le [] (length digests % 2 ^ 32) ++ concat_digests digests)

-- HKDF returns its output, or nothing.
unfoldable pub hkdf_sha256 :
    (List ℕ → List ℕ → List ℕ → ℕ → Option (List ℕ))
    → List ℕ
    → List ℕ
    → List ℕ
    → ℕ
    → Result (List ℕ)
hkdf_sha256 derive ikm salt info output_len = do
  reject_if (length ikm == 0) "HKDF input keying material must not be empty"
  reject_if (output_len == 0) "HKDF output length must not be zero"
  elim (derive ikm salt info output_len) [
    | none ↦ err (error "HKDF derivation failed")
    | some out ↦ if length out == output_len then ok out else err (error "HKDF derivation failed")
  ]

pub record KdfInput : Type 0 where
  pub passphrase : List ℕ
  pub keyfiles : List (List ℕ)
  pub salt : List ℕ
  pub archive_id : List ℕ
  pub params : KdfParams

unfoldable pub mix_keyfiles : (List ℕ → List ℕ) → List (List ℕ) → List ℕ
mix_keyfiles blake3 keyfiles = blake3 (mix_message (map (λ k. blake3 (keyfile_message k)) keyfiles))

module _ (argon2id : KdfParams → List ℕ → List ℕ → Option (List ℕ)) (blake3 : List ℕ → List ℕ)
    (derive : List ℕ → List ℕ → List ℕ → ℕ → Option (List ℕ)) where
  unfoldable pub derive_master_seed : KdfInput → Result (List ℕ)
  derive_master_seed input = do
    reject_if (length input.passphrase == 0) "passphrase must not be empty"
    validate_kdf_params input.params
    validate_kdf_security_floor input.params
    elim (argon2id input.params input.passphrase input.salt) [
      | none ↦ err (error "Argon2id derivation failed: ")
      | some pass_key ↦
          hkdf_sha256 derive (pass_key ++ mix_keyfiles blake3 input.keyfiles)
            (input.archive_id ++ input.salt) (text_bytes "BSEAL master key v1") 32
    ]
