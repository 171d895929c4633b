-- ===== src/Io/Validate.antt =====
-- The constructor of ShardReader and ShardReader::validate_shards (io/ShardReader.cpp).
pub mod Complete
pub mod Genuine
use bseal_cpp.Base.{
  ℕ, zero, suc, ◌+◌, ◌-◌, ◌^◌, ◌%◌, Bool, true, false, not, ◌&&◌, ◌||◌, ltb, ◌==◌, length, List, [],
  ◌∷◌, String, Option, none, some, Result, ok, err, error, invalid_argument, authentication_failed,
  reject_if, ◌>>=◌, ◌>>◌, if◌then◌else◌,
}
use bseal_cpp.Endian.{all_zero}
use bseal_cpp.Frame.Bytes.{equal_bytes}
use bseal_cpp.Frame.Global.{serialize_global_public_header}
use bseal_cpp.Frame.Mac.{verify_shard_header_mac}
use bseal_cpp.Io.Discover.{ShardInfo, shard_index, first_chunk_index, chunk_count, sort_shards}

pub record ShardReaderValidation : Type 0 where
  pub suite_id : Option ℕ
  pub archive_id : Option (List ℕ)
  pub chunk_plain_size : Option ℕ
  pub public_header_hash : Option (List ℕ)

unfoldable pub checked_range_end : ℕ → ℕ → Result ℕ
checked_range_end first count = do
  reject_if (ltb (2 ^ 64 - 1 - count) first) "invalid shard chunk range overflow"
  ok (first + count)

-- A std::set of indices is a list without repetitions.
unfoldable pub contains : ℕ → List ℕ → Bool
contains i [] = false
contains i (j ∷ set) = i == j || contains i set

-- `if (validation_.field && value != *validation_.field) throw`
abbrev pub expect : {A : Type 0} → (A → A → Bool) → Option A → A → String → Result (Unit {0})
expect same none value message = ok tt
expect same (some wanted) value message = reject_if (not (same value wanted)) message

-- The hash is compared only if there is one shard.
unfoldable pub check_expected : ShardReaderValidation → Bool → ShardInfo → Result (Unit {0})
check_expected validation single shard = do
  expect ◌==◌ validation.suite_id shard.global_header.aead_alg_id "incompatible shard aead_alg_id"
  expect equal_bytes validation.archive_id shard.global_header.archive_id "archive_id mismatch"
  expect ◌==◌ validation.chunk_plain_size shard.global_header.chunk_plain_size
      "chunk_plain_size mismatch"
  (if single
      then expect equal_bytes validation.public_header_hash shard.public_header_hash
          "public_header_hash mismatch"
      else ok tt)

-- `for (i = 0; i < shard_count; ++i)`, with the rounds that are left.
unfoldable pub require_indices : ℕ → ℕ → List ℕ → Result (Unit {0})
unfolding contains
require_indices zero i set = ok tt
require_indices (suc rounds) i set = do
  reject_if (not (contains i set)) "missing shard index"
  require_indices rounds (i + 1) set

-- The loop over the sorted shards, from the chunk index that is expected.
unfoldable pub check_ranges : ℕ → List ShardInfo → Result ℕ
unfolding checked_range_end
check_ranges expected [] = ok expected
check_ranges expected (shard ∷ shards) = do
  end ← checked_range_end (first_chunk_index shard) (chunk_count shard)
  reject_if (not (first_chunk_index shard == expected)) "chunk index gap/overlap before shard"
  check_ranges end shards

module _ (hmac_sha256 : List ℕ → List ℕ → Option (List ℕ)) where
  -- The reader for tests has an empty key, and does not look at the MAC.
  unfoldable pub authenticate : List ℕ → ShardInfo → Result (Unit {0})
  authenticate auth_key shard = if length auth_key == 0 then ok tt else do
    genuine ← verify_shard_header_mac hmac_sha256 auth_key shard.global_header shard.shard_header
    if genuine then ok tt else err authentication_failed

  unfoldable pub check_shard :
      List ℕ → ShardReaderValidation → List ℕ → Bool → List ℕ → ShardInfo → Result (Unit {0})
  unfolding contains check_expected authenticate
  check_shard auth_key validation reference single set shard = do
    reject_if (contains (shard_index shard) set) "duplicate shard index"
    global_bytes ← serialize_global_public_header shard.global_header
    reject_if (not (equal_bytes global_bytes reference)) "global header mismatch across shards"
    check_expected validation single shard
    authenticate auth_key shard

  -- The first loop, with the indices so far.
  unfoldable pub check_shards :
      List ℕ → ShardReaderValidation → List ℕ → Bool → List ℕ → List ShardInfo → Result (List ℕ)
  unfolding check_shard
  check_shards auth_key validation reference single set [] = ok set
  check_shards auth_key validation reference single set (shard ∷ shards) = do
    check_shard auth_key validation reference single set shard
    check_shards auth_key validation reference single (shard_index shard ∷ set) shards

  -- The sorted shards, and expected_total_chunk_count_.
  unfoldable pub validate_shards :
      List ℕ → ShardReaderValidation → List ShardInfo → Result (List ShardInfo × ℕ)
  unfolding check_shards require_indices check_ranges
  validate_shards auth_key validation [] =
      err (invalid_argument "ShardReader requires at least one shard")
  validate_shards auth_key validation (front ∷ others) = do
    let shards = front ∷ others
    reference ← serialize_global_public_header front.global_header
    set ← check_shards auth_key validation reference (length shards == 1) [] shards
    reject_if (not (length shards == front.global_header.shard_count))
        "shard count does not match global_header.shard_count"
    require_indices front.global_header.shard_count 0 set
    let sorted = sort_shards shards
    end ← check_ranges 0 sorted
    reject_if (not (end == front.global_header.global_chunk_count))
        "shard set does not cover global_chunk_count"
    ok (sorted, front.global_header.global_chunk_count)

  -- The test of the key that the constructor makes first.
  unfoldable pub validate_with_key :
      List ℕ → ShardReaderValidation → List ShardInfo → Result (List ShardInfo × ℕ)
  unfolding validate_shards
  validate_with_key auth_key validation shards = do
    reject_if (not (length auth_key == 32) || all_zero auth_key)
        "header_authentication_key must be 32 non-zero bytes"
    validate_shards auth_key validation shards
