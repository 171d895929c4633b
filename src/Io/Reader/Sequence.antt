-- ===== src/Io/Reader/Sequence.antt =====
-- The order of the chunks that a validated ShardReader returns (io/ShardReader.cpp).
use bseal_cpp.Base.{
  ℕ, suc, ◌+◌, ◌^◌, ◌<◌, ◌≡◌, refl, sym, subst, ◌∙◌, ap, ◌==◌, length, length-append, List, [], ◌∷◌,
  ◌++◌, Option, ok, All, arith,
}
use bseal_cpp.Io.Discover.{ShardInfo, first_chunk_index, chunk_count}
use bseal_cpp.Io.Validate.{ShardReaderValidation, validate_with_key}
use bseal_cpp.Io.Validate.Complete.{Ranges, validated-IsComplete}
use bseal_cpp.Io.Reader.{ChunkRecord, is_final, new_reader, read_records}
use bseal_cpp.Io.Reader.Remaining.{FromShards, AreChunks, Within}
use bseal_cpp.Io.Reader.Run.{records_lem}

-- The records are numbered from an index on, and the one before `total` alone is marked final.
abbrev pub InSequence : ℕ → ℕ → List ChunkRecord → Type 0
InSequence total index [] = Unit
InSequence total index (chunk ∷ chunks) =
    (chunk.chunk_index ≡ index)
    × (is_final chunk.frame_flags ≡ (suc index == total))
    × InSequence total (suc index) chunks

AreChunks-InSequence :
    (total index : ℕ) (shard : ShardInfo) (own others : List ChunkRecord)
    → AreChunks total shard index own
    → InSequence total (index + length own) others
    → InSequence total index (own ++ others)
AreChunks-InSequence total index shard [] others a h =
    let here : index + 0 ≡ index = omega arith in subst (λ i. InSequence total i others) here h
AreChunks-InSequence total index shard (chunk ∷ own) others a h =
    let next : index + suc (length own) ≡ suc index + length own = omega arith in
    (
      a.0.numbered,
      a.0.marked,
      AreChunks-InSequence total (suc index) shard own others a.1
          (subst (λ i. InSequence total i others) next h),
    )

FromShards-InSequence :
    (files : List ℕ → Option (List ℕ)) (total first : ℕ) (shards : List ShardInfo)
    (chunks : List ChunkRecord)
    → Ranges first total shards
    → FromShards files total shards chunks
    → InSequence total first chunks × (first + length chunks ≡ total)
FromShards-InSequence files total first [] chunks r h =
    subst (λ l. InSequence total first l × (first + length l ≡ total)) (sym h)
      (tt, omega (arith, r))
FromShards-InSequence files total first (shard ∷ shards) chunks r (bytes, _, from) =
    let (rest, sum) =
      FromShards-InSequence files total (first + chunk_count shard) shards from.others r.2
        from.following in
    let start : first_chunk_index shard + 0 ≡ first = omega (arith, r.0) in
    let place : first + chunk_count shard ≡ first + length from.own = omega (arith, from.count) in
    let size : length chunks ≡ length from.own + length from.others =
      ap length from.split ∙ length-append from.own from.others in
    (
      subst (InSequence total first) (sym from.split) (
          AreChunks-InSequence total first shard from.own from.others
            (subst (λ i. AreChunks total shard i from.own) start from.are_chunks)
            (subst (λ i. InSequence total i from.others) place rest)),
      omega (arith, sum, size, from.count),
    )

-- When the constructor with a key accepts the shards that were found, and the reader then returns some
-- chunks and the end of the archive, these are as many as the global header says, numbered from 0 in
-- order, and the last one alone is marked final. The declared chunk counts have 64 bits.
pub chunks-InSequence :
    (hmac_sha256 : List ℕ → List ℕ → Option (List ℕ)) (files : List ℕ → Option (List ℕ))
    (auth_key : List ℕ) (validation : ShardReaderValidation) (front : ShardInfo)
    (others sorted : List ShardInfo) (total fuel : ℕ) (chunks : List ChunkRecord)
    → All (λ s. chunk_count s < 2 ^ 64) (front ∷ others)
    → validate_with_key hmac_sha256 auth_key validation (front ∷ others) ≡ ok (sorted, total)
    → read_records files fuel (new_reader sorted total) ≡ ok chunks
    → (length chunks ≡ front.global_header.global_chunk_count) × InSequence total 0 chunks
chunks-InSequence hmac_sha256 files auth_key validation front others sorted total fuel chunks f v
      e =
    let (complete, _, whole) =
      validated-IsComplete hmac_sha256 auth_key validation front others sorted total f v in
    let held : FromShards files total sorted chunks =
      records_lem files total fuel (new_reader sorted total) sorted 0 chunks
        (record {
          left = refl;
          total_is = refl;
          ranges = complete.ranges;
          within = starts sorted;
          closed = λ _. refl;
        })
        e in
    let (sequence, sum) = FromShards-InSequence files total 0 sorted chunks complete.ranges held in
    (omega (arith, sum, whole), sequence)
  where
    starts : (shards : List ShardInfo) → Within files total 0 shards
    starts [] = refl
    starts (shard ∷ shards) = omega arith
