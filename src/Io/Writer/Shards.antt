-- ===== src/Io/Writer/Shards.antt =====
-- open_next_shard, rewrite_shard_header and close_current_shard (io/ShardWriter.cpp).
use bseal_cpp.Base.{
  ℕ, zero, suc, ◌+◌, ◌^◌, ◌%◌, Bool, false, ◌||◌, ◌==◌, length, take, drop, List, [], ◌∷◌, ◌++◌,
  Option, none, some, Result, ok, err, error, ◌>>=◌, if◌then◌else◌,
}
use bseal_cpp.Frame.{
  GlobalPublicHeaderV1, ShardPublicHeaderV1, default_shard_header, shard_header_v1_magic,
  shard_public_header_v1_size, global_public_header_v1_size,
}
use bseal_cpp.Frame.Bytes.{equal_bytes}
use bseal_cpp.Frame.Global.{serialize_global_public_header}
use bseal_cpp.Frame.Shard.{serialize_shard_public_header}
use bseal_cpp.Frame.Mac.{compute_shard_header_mac}
use bseal_cpp.Io.Writer.{ShardWriter, FinalizedShard}

-- `seekp` and `write` in a file that is long enough.
unfoldable pub overwrite : ℕ → List ℕ → List ℕ → List ℕ
overwrite offset bytes content =
    take offset content ++ (bytes ++ drop (offset + length bytes) content)

unfoldable pub has_path : List ℕ → List FinalizedShard → Bool
has_path path [] = false
has_path path (shard ∷ shards) = equal_bytes path shard.path || has_path path shards

module _ (names : ℕ → List ℕ) (exists : List ℕ → Bool) where
  -- The attempts that are left, at most 128.
  unfoldable pub draw_name : ℕ → ShardWriter → Result (List ℕ × ℕ)
  unfolding has_path
  draw_name zero writer = err (error "failed to allocate unique random shard filename")
  draw_name (suc attempts) writer =
      let candidate = names writer.drawn in
      let rest = draw_name attempts (record writer { drawn = writer.drawn + 1 }) in
      if exists candidate || has_path candidate writer.finalized_shards
      then rest
      else ok (candidate, writer.drawn + 1)

  -- The two headers are placeholders.
  unfoldable pub open_next_shard : ShardWriter → ℕ → Result ShardWriter
  unfolding draw_name
  open_next_shard writer first_chunk_index = do
    (candidate, drawn) ← draw_name 128 writer
    global_bytes ← serialize_global_public_header writer.options.global_header
    shard_bytes ←
        serialize_shard_public_header
          (record default_shard_header { shard_magic = shard_header_v1_magic })
    ok (record writer {
      current_stream = some (global_bytes ++ shard_bytes);
      current_path = candidate;
      current_shard_index = writer.next_shard_index;
      next_shard_index = (writer.next_shard_index + 1) % 2 ^ 32;
      current_payload_offset = 0;
      current_first_chunk_index = first_chunk_index;
      current_chunk_count = 0;
      drawn = drawn;
    })

-- The header without its MAC, and with it.
abbrev pub header_of : ℕ → ℕ → ℕ → ℕ → ShardPublicHeaderV1
header_of shard_index first_chunk_index chunk_count payload_len = record default_shard_header {
  shard_magic = shard_header_v1_magic;
  shard_header_len = shard_public_header_v1_size;
  shard_index = shard_index;
  first_global_chunk_index = first_chunk_index;
  shard_chunk_count = chunk_count;
  shard_payload_len = payload_len;
  reserved0 = 0;
}

module _ (hmac_sha256 : List ℕ → List ℕ → Option (List ℕ)) where
  -- On the content of the file.
  unfoldable pub rewrite_shard_header :
      List ℕ → GlobalPublicHeaderV1 → FinalizedShard → Result FinalizedShard
  rewrite_shard_header key global_header shard = do
    let sh = header_of shard.shard_index shard.first_chunk_index shard.chunk_count shard.payload_len
    header_mac ← compute_shard_header_mac hmac_sha256 key global_header sh
    encoded ← serialize_shard_public_header (record sh { header_mac = header_mac })
    ok (record shard { content = overwrite global_public_header_v1_size encoded shard.content })

  -- A shard without a chunk is removed.
  unfoldable pub close_current_shard : ShardWriter → Result ShardWriter
  unfolding rewrite_shard_header
  close_current_shard writer = elim writer.current_stream [
    | none ↦ ok writer
    | some content ↦
        if writer.current_chunk_count == 0
        then ok (record writer { current_stream = none; current_path = [] })
        else do
          shard ←
              rewrite_shard_header writer.options.header_authentication_key
                writer.options.global_header
                (record {
                  path = writer.current_path;
                  shard_index = writer.current_shard_index;
                  first_chunk_index = writer.current_first_chunk_index;
                  chunk_count = writer.current_chunk_count;
                  payload_len = writer.current_payload_offset;
                  content = content;
                })
          ok (record writer {
            current_stream = none;
            current_path = [];
            current_payload_offset = 0;
            current_chunk_count = 0;
            finalized_shards = writer.finalized_shards ++ (shard ∷ []);
          })
  ]
