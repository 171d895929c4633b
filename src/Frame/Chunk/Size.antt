-- ===== src/Frame/Chunk/Size.antt =====
-- The encoded size of a chunk frame.
use bseal_cpp.Base.{ℕ, ◌+◌, ◌^◌, ◌<◌, ◌≤◌, ◌≡◌, ◌⊎◌, String, ok, err, invalid_argument, arith}
use bseal_cpp.Frame.{ChunkFrameHeaderV1, ChunkFits}
use bseal_cpp.Frame.Chunk.{chunk_frame_v1_encoded_size_from_params, chunk_frame_v1_encoded_size}
use bseal_cpp.Frame.Chunk.Rules.{validate_chunk_iff}

-- The size is 40 + length + tag when that fits 64 bits, and otherwise an exception is thrown:
-- the wrap-around tests miss no overflow and report none that is not there.
pub encoded_size_exact :
    (plaintext_len tag_len : ℕ)
    → plaintext_len < 2 ^ 64
    → tag_len < 2 ^ 16
    → ((40 + plaintext_len + tag_len < 2 ^ 64)
        × (chunk_frame_v1_encoded_size_from_params plaintext_len tag_len
            ≡ ok (40 + plaintext_len + tag_len)))
      ⊎ ((2 ^ 64 ≤ 40 + plaintext_len + tag_len)
          × (message : String) × (chunk_frame_v1_encoded_size_from_params plaintext_len tag_len
              ≡ err (invalid_argument message)))
unfolding chunk_frame_v1_encoded_size_from_params
encoded_size_exact plaintext_len tag_len p t = ground arith

-- On a validated header both size functions agree.
pub encoded_size-eq :
    (h : ChunkFrameHeaderV1)
    → ChunkFits h
    → h.frame_flags ≤ 1
    → 0 < h.tag_len
    → chunk_frame_v1_encoded_size h
      ≡ chunk_frame_v1_encoded_size_from_params h.ciphertext_len h.tag_len
unfolding chunk_frame_v1_encoded_size
encoded_size-eq h fits f t = rw ((validate_chunk_iff h fits).1 (f, t), chunk_frame_v1_encoded_size)
