-- ===== src/App/Plan.antt =====
-- plan_shards and fill_per_shard_hashes (app/CoreApi.cpp): which chunks stand in which shard.
pub mod Laws
use bseal_cpp.Base.{
  ℕ, zero, suc, ◌+◌, ◌-◌, ◌^◌, ◌%◌, Bool, true, false, not, ◌&&◌, ltb, ◌==◌, List, [], ◌∷◌,
  replicate, Result, ok, err, out_of_fuel, reject_if, ◌>>=◌, ◌>>◌, if◌then◌else◌,
}
use bseal_cpp.Checked.{checked_add_u64}
use bseal_cpp.Frame.{
  GlobalPublicHeaderV1, ShardPublicHeaderV1, shard_header_v1_magic, default_shard_header,
}
use bseal_cpp.Frame.Chunk.{chunk_frame_v1_encoded_size_from_params}
use bseal_cpp.Frame.Mac.{compute_public_header_hash}

pub record ShardPlan : Type 0 where
  pub shard_index : ℕ
  pub first_chunk_index : ℕ
  pub chunk_count : ℕ
  pub payload_len : ℕ
  pub public_header_hash : List ℕ

-- The parameters of plan_shards; of the global header it reads final_plaintext_chunk_len only.
pub record PlanParams : Type 0 where
  pub global_chunk_count : ℕ
  pub chunk_plain_size : ℕ
  pub tag_len : ℕ
  pub max_shard_payload_len : ℕ
  pub final_plaintext_chunk_len : ℕ

unfoldable pub plain_len_at : PlanParams → ℕ → ℕ
plain_len_at p chunk_idx =
    if chunk_idx == p.global_chunk_count - 1
    then p.final_plaintext_chunk_len
    else p.chunk_plain_size

-- The inner loop, with chunk_idx, chunk_count and shard_payload. `max - frame_size` is modulo 2 ^ 64.
unfoldable pub fill_shard : ℕ → PlanParams → ℕ → ℕ → ℕ → Result (ℕ × ℕ × ℕ)
fill_shard zero p chunk_idx chunk_count payload = err out_of_fuel
fill_shard (suc fuel) p chunk_idx chunk_count payload =
    if not (ltb chunk_idx p.global_chunk_count)
    then ok (chunk_idx, chunk_count, payload)
    else elim (chunk_frame_v1_encoded_size_from_params (plain_len_at p chunk_idx) p.tag_len) [
      | err e ↦ err e
      | ok frame_size ↦
          if ltb 0 chunk_count
            && ltb ((p.max_shard_payload_len + 2 ^ 64 - frame_size) % 2 ^ 64) payload
          then ok (chunk_idx, chunk_count, payload)
          else elim (checked_add_u64 payload frame_size "shard payload accumulation") [
            | err e ↦ err e
            | ok payload ↦ fill_shard fuel p (chunk_idx + 1) (chunk_count + 1) payload
          ]
    ]

-- The outer loop. A shard takes a chunk at least, so that both loops have rounds enough with one
-- more than there are chunks.
unfoldable pub plan_from : ℕ → PlanParams → ℕ → ℕ → Result (List ShardPlan)
plan_from zero p shard_idx chunk_idx = err out_of_fuel
plan_from (suc fuel) p shard_idx chunk_idx =
    if not (ltb chunk_idx p.global_chunk_count)
    then ok []
    else elim (fill_shard (suc p.global_chunk_count) p chunk_idx 0 0) [
      | err e ↦ err e
      | ok (next, count, payload) ↦ elim (plan_from fuel p (shard_idx + 1) next) [
        | err e ↦ err e
        | ok rest ↦ ok (
            record {
              shard_index = shard_idx % 2 ^ 32;
              first_chunk_index = chunk_idx;
              chunk_count = count;
              payload_len = payload;
              public_header_hash = replicate 32 0;
            }
            ∷ rest)
      ]
    ]

unfoldable pub plan_shards : PlanParams → Result (List ShardPlan)
plan_shards p = do
  max_frame_size ← chunk_frame_v1_encoded_size_from_params p.chunk_plain_size p.tag_len
  reject_if (ltb p.max_shard_payload_len max_frame_size) "--chunk-size exceeds --shard-size"
  plan_from (suc p.global_chunk_count) p 0 0

unfoldable pub planned_header : ShardPlan → ShardPublicHeaderV1
planned_header plan = record {
  shard_magic = shard_header_v1_magic;
  shard_header_len = 80;
  shard_index = plan.shard_index;
  first_global_chunk_index = plan.first_chunk_index;
  shard_chunk_count = plan.chunk_count;
  shard_payload_len = plan.payload_len;
  header_mac = replicate 32 0;
  reserved0 = 0;
}

unfoldable pub fill_per_shard_hashes :
    (List ℕ → List ℕ) → List ShardPlan → GlobalPublicHeaderV1 → Result (List ShardPlan)
fill_per_shard_hashes blake3 [] global_header = ok []
fill_per_shard_hashes blake3 (plan ∷ plans) global_header = do
  hash ← compute_public_header_hash blake3 global_header (planned_header plan)
  rest ← fill_per_shard_hashes blake3 plans global_header
  ok (record plan { public_header_hash = hash } ∷ rest)
