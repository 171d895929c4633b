-- ===== src/Frame/Shard/Rules.antt =====
-- The rejection rules of parse_shard_public_header.
use bseal_cpp.Base.{◌<◌, ◌≡◌, ◌↔◌, not, ◌==◌, Result, ok, reject_if, ◌>>◌, arith}
use bseal_cpp.Frame.{ShardPublicHeaderV1, shard_public_header_v1_size}

unfoldable pub check_shard_header : ShardPublicHeaderV1 → Result (Unit {0})
check_shard_header h = do
  reject_if (not (h.shard_header_len == shard_public_header_v1_size)) "shard_header_len mismatch"
  reject_if (h.shard_chunk_count == 0) "shard_chunk_count is zero"
  reject_if (h.shard_payload_len == 0) "shard_payload_len is zero"
  reject_if (not (h.reserved0 == 0)) "non-zero reserved0 in shard header"
  ok tt

pub record ShardRules (h : ShardPublicHeaderV1) : Type 0 where
  pub header_len : h.shard_header_len ≡ 80
  pub some_chunk : 0 < h.shard_chunk_count
  pub some_payload : 0 < h.shard_payload_len
  pub reserved : h.reserved0 ≡ 0

pub check_shard_iff : (h : ShardPublicHeaderV1) → (check_shard_header h ≡ ok tt) ↔ ShardRules h
unfolding check_shard_header
check_shard_iff h = (λ e. ground arith, λ r. ground arith)
