-- ===== src/Crypto/Keys.antt =====
-- crypto/KeySchedule: the keys of an archive and the nonce of a chunk. HKDF is a parameter.
pub mod Laws
use bseal_cpp.Base.{
  ℕ, ◌-◌, Bool, not, ltb, ◌==◌, length, List, [], ◌++◌, String, Option, Result, ok, err, reject_if,
  ◌>>=◌, ◌>>◌,
}
use bseal_cpp.Endian.{text_bytes, append_u16_le, append_u64_le}
use bseal_cpp.Crypto.Kdf.{hkdf_sha256}

pub data CipherSuite : Type 0 where
  x_cha_cha20_poly1305 aes256_gcm : CipherSuite

unfoldable pub suite_id : CipherSuite → ℕ
suite_id CipherSuite.x_cha_cha20_poly1305 = 1
suite_id CipherSuite.aes256_gcm = 2

unfoldable pub make_info : List ℕ → CipherSuite → List ℕ
make_info label suite = append_u16_le label (suite_id suite)

unfoldable pub key_size_for_suite : CipherSuite → ℕ
key_size_for_suite CipherSuite.x_cha_cha20_poly1305 = 32
key_size_for_suite CipherSuite.aes256_gcm = 32

unfoldable pub nonce_size_for_suite : CipherSuite → ℕ
nonce_size_for_suite CipherSuite.x_cha_cha20_poly1305 = 24
nonce_size_for_suite CipherSuite.aes256_gcm = 12

pub record ExpandedKeys : Type 0 where
  pub chunk_encryption_key : List ℕ
  pub manifest_key : List ℕ
  pub header_authentication_key : List ℕ
  pub nonce_derivation_key : List ℕ

pub record NonceContext : Type 0 where
  pub suite : CipherSuite
  pub archive_id : List ℕ

abbrev pub chunk_key_label : List ℕ
chunk_key_label = text_bytes "BSEAL chunk encryption key v1"

abbrev pub manifest_key_label : List ℕ
manifest_key_label = text_bytes "BSEAL manifest key v1"

abbrev pub header_key_label : List ℕ
header_key_label = text_bytes "BSEAL header authentication key v1"

abbrev pub nonce_key_label : List ℕ
nonce_key_label = text_bytes "BSEAL nonce derivation key v1"

abbrev pub nonce_prefix_label : List ℕ
nonce_prefix_label = text_bytes "BSEAL chunk nonce prefix v1"

module _ (derive : List ℕ → List ℕ → List ℕ → ℕ → Option (List ℕ)) where
  unfoldable pub expand_keys : List ℕ → CipherSuite → Result ExpandedKeys
  expand_keys master_seed suite = do
    reject_if (not (length master_seed == 32)) "master seed must be exactly 32 bytes"
    chunk_key ←
        hkdf_sha256 derive master_seed [] (make_info chunk_key_label suite)
          (key_size_for_suite suite)
    manifest_key ← hkdf_sha256 derive master_seed [] (make_info manifest_key_label suite) 32
    header_key ← hkdf_sha256 derive master_seed [] (make_info header_key_label suite) 32
    nonce_key ← hkdf_sha256 derive master_seed [] (make_info nonce_key_label suite) 32
    ok (record {
      chunk_encryption_key = chunk_key;
      manifest_key = manifest_key;
      header_authentication_key = header_key;
      nonce_derivation_key = nonce_key;
    })

  unfoldable pub derive_chunk_nonce : List ℕ → NonceContext → ℕ → Result (List ℕ)
  derive_chunk_nonce nonce_derivation_key context global_chunk_index = do
    reject_if (length nonce_derivation_key == 0) "nonce derivation key must not be empty"
    reject_if (ltb (nonce_size_for_suite context.suite) 12) "unsupported AEAD nonce length"
    prefix ←
        hkdf_sha256 derive nonce_derivation_key context.archive_id
          (make_info nonce_prefix_label context.suite) (nonce_size_for_suite context.suite - 8)
    ok (append_u64_le prefix global_chunk_index)
