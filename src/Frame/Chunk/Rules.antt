-- ===== src/Frame/Chunk/Rules.antt =====
-- validate_chunk_frame_header_v1, and the rules that parse_chunk_frame_header_v1 adds.
use bseal_cpp.Base.{
  ◌-◌, ◌/◌, ◌^◌, ◌<◌, ◌≤◌, ◌≡◌, ◌↔◌, not, ltb, ◌==◌, Result, ok, reject_if, ◌>>◌, arith,
}
use bseal_cpp.Frame.{ChunkFrameHeaderV1, ChunkFits}

-- `frame_flags & ~1` keeps all bits but the lowest, which are the bits of `frame_flags / 2`.
unfoldable pub validate_chunk_frame_header_v1 : ChunkFrameHeaderV1 → Result (Unit {0})
validate_chunk_frame_header_v1 h = do
  reject_if (not (h.frame_flags / 2 == 0)) "unsupported chunk frame flags"
  reject_if (h.tag_len == 0) "invalid chunk frame tag length"
  reject_if (ltb (2 ^ 64 - 1) h.ciphertext_len)
      "chunk frame ciphertext length too large for this platform"
  reject_if (ltb (2 ^ 16 - 1) h.tag_len) "chunk frame tag length too large for this platform"
  ok tt

unfoldable pub check_chunk_header : ChunkFrameHeaderV1 → Result (Unit {0})
unfolding validate_chunk_frame_header_v1
check_chunk_header h = do
  validate_chunk_frame_header_v1 h
  reject_if (not (h.tag_len == 16)) "chunk frame tag_len must be 16"
  reject_if (not (h.ciphertext_len == h.plaintext_len))
      "chunk frame ciphertext_len must equal plaintext_len for v1 AEADs"
  ok tt

pub record ChunkRules (h : ChunkFrameHeaderV1) : Type 0 where
  pub flags : h.frame_flags ≤ 1
  pub tag : h.tag_len ≡ 16
  pub cipher : h.ciphertext_len ≡ h.plaintext_len

pub validate_chunk_iff :
    (h : ChunkFrameHeaderV1)
    → ChunkFits h
    → (validate_chunk_frame_header_v1 h ≡ ok tt) ↔ ((h.frame_flags ≤ 1) × (0 < h.tag_len))
unfolding validate_chunk_frame_header_v1
validate_chunk_iff h fits = (λ e. ground arith, λ r. ground arith)

pub check_chunk_iff :
    (h : ChunkFrameHeaderV1) → ChunkFits h → (check_chunk_header h ≡ ok tt) ↔ ChunkRules h
unfolding check_chunk_header
check_chunk_iff h fits = (λ e. ground arith, λ r. ground arith)
