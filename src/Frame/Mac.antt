-- ===== src/Frame/Mac.antt =====
-- compute_public_header_hash, compute_shard_header_mac and verify_shard_header_mac
-- (io/ShardFrame.cpp). BLAKE3 and OpenSSL's HMAC are parameters: feeding a hasher in pieces hashes
-- the concatenation, and HMAC returns its output or nothing.
pub mod Laws
use bseal_cpp.Base.{
  ℕ, ◌-◌, ◌^◌, Bool, ltb, ◌==◌, length, List, [], ◌∷◌, ◌++◌, Option, none, some, Result, ok, err,
  error, reject_if, ◌>>=◌, ◌>>◌, if◌then◌else◌,
}
use bseal_cpp.Frame.{GlobalPublicHeaderV1, ShardPublicHeaderV1}
use bseal_cpp.Frame.Bytes.{equal_bytes}
use bseal_cpp.Frame.Global.{serialize_global_public_header}
use bseal_cpp.Frame.Shard.{serialize_shard_public_header_for_mac}
use bseal_cpp.Endian.{text_bytes}

-- Both domain strings include the terminating NUL.
abbrev pub public_header_hash_domain : List ℕ
public_header_hash_domain = text_bytes "BSEAL public header hash v1" ++ (0 ∷ [])

abbrev pub header_mac_domain : List ℕ
header_mac_domain = text_bytes "BSEAL header mac v1" ++ (0 ∷ [])

-- domain || global || shard_with_zero_mac
unfoldable pub header_message :
    List ℕ → GlobalPublicHeaderV1 → ShardPublicHeaderV1 → Result (List ℕ)
header_message domain global shard = do
  global_bytes ← serialize_global_public_header global
  shard_bytes ← serialize_shard_public_header_for_mac shard
  ok (domain ++ (global_bytes ++ shard_bytes))

is_empty : List ℕ → Bool
is_empty bytes = length bytes == 0

module _ (blake3 : List ℕ → List ℕ) where
  unfoldable pub compute_public_header_hash :
      GlobalPublicHeaderV1 → ShardPublicHeaderV1 → Result (List ℕ)
  compute_public_header_hash global shard = do
    message ← header_message public_header_hash_domain global shard
    ok (blake3 message)

module _ (hmac_sha256 : List ℕ → List ℕ → Option (List ℕ)) where
  unfoldable pub compute_shard_header_mac :
      List ℕ → GlobalPublicHeaderV1 → ShardPublicHeaderV1 → Result (List ℕ)
  unfolding is_empty
  compute_shard_header_mac key global shard = do
    reject_if (is_empty key) "header authentication key is empty"
    message ← header_message header_mac_domain global shard
    reject_if (ltb (2 ^ 31 - 1) (length key)) "header authentication key is too large for OpenSSL"
    elim (hmac_sha256 key message) [
      | none ↦ err (error "failed to compute shard header MAC")
      | some out ↦
          if length out == 32 then ok out else err (error "failed to compute shard header MAC")
    ]

  -- `CRYPTO_memcmp(...) == 0` over the 32 bytes.
  unfoldable pub verify_shard_header_mac :
      List ℕ → GlobalPublicHeaderV1 → ShardPublicHeaderV1 → Result Bool
  verify_shard_header_mac key global shard = do
    expected ← compute_shard_header_mac key global shard
    ok (equal_bytes expected shard.header_mac)
