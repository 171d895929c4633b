-- ===== src/Io/ReadBack/RoundTrip.antt =====
-- What a ShardWriter (io/ShardWriter.cpp) leaves, and a ShardReader (io/ShardReader.cpp) over it.
use bseal_cpp.Base.{
  ℕ, suc, ◌+◌, ◌^◌, ◌%◌, ◌≤◌, ◌<◌, ◌≡◌, refl, ◌∙◌, ap, Bool, true, false, length, map, List, [],
  ◌∷◌, Option, some, ok, arith,
}
use bseal_cpp.Endian.{all_zero}
use bseal_cpp.Frame.{GlobalPublicHeaderV1, global_header_v1_magic}
use bseal_cpp.Frame.Global.Rules.{GlobalRules}
use bseal_cpp.App.Plan.{PlanParams}
use bseal_cpp.Io.Discover.{ShardInfo, has_bin_extension, discover}
use bseal_cpp.Io.Validate.{validate_with_key}
use bseal_cpp.Io.Reader.{ChunkRecord, new_reader, read_records}
use bseal_cpp.Io.Writer.{
  ShardWriterOptions, ShardWriter, FinalizedShard, PlannedChunkFrame, new_planner, empty_writer,
  plan_frames,
}
use bseal_cpp.Io.Writer.Write.{write_frames, finish}
use bseal_cpp.Io.Writer.Placed.{planned_chunks, position_of}
use bseal_cpp.Io.Writer.States.{Setting}
use bseal_cpp.Io.Writer.Finish.{Files}
use bseal_cpp.Io.Writer.Files.{with_bodies, final_global, Bodies}
use bseal_cpp.Io.Writer.Sizes.{final_global-GlobalFits}
use bseal_cpp.Io.Writer.Written.{writer-Files}
use bseal_cpp.Io.ReadBack.Headers.{Readable}
use bseal_cpp.Io.ReadBack.Discovered.{entry_of, infos, length-infos, discovered}
use bseal_cpp.Io.ReadBack.Validated.{expectation_of, validated}
use bseal_cpp.Io.ReadBack.Chunks.{content_at, content_of, planned_contents, chunks_read}

-- The writer has a real key, names that end in ".bin", fewer than 2 ^ 32 chunks, and a header that
-- obeys the rules of the reader once the counts and sizes are filled in.
pub record ForReading (options : ShardWriterOptions) (p : PlanParams) (names : ℕ → List ℕ)
    : Type 0 where
  pub key_size : length options.header_authentication_key ≡ 32
  pub key_not_zero : all_zero options.header_authentication_key ≡ false
  pub extension : (j : ℕ) → has_bin_extension (names j) ≡ true
  pub few_chunks : p.global_chunk_count < 2 ^ 32
  pub room : p.max_shard_payload_len + 272 < 2 ^ 64
  pub is_magic : options.global_header.magic ≡ global_header_v1_magic
  pub rules :
      (shards : ℕ)
      → 0 < shards
      → shards ≤ p.global_chunk_count
      → GlobalRules (final_global options p shards)

module _ (p : PlanParams) (body : ℕ → List ℕ) (names : ℕ → List ℕ)
    (hmac_sha256 : List ℕ → List ℕ → Option (List ℕ)) (key : List ℕ)
    (global : GlobalPublicHeaderV1) where
  Files-count :
      (ss : List FinalizedShard) (low k first end : ℕ)
      → Files p body names hmac_sha256 key global low k first ss end
      → first + length ss ≤ end
  Files-count [] low k first end files = omega (arith, files)
  Files-count (s ∷ ss) low k first end files =
      let more = Files-count ss (suc files.0.name) (suc k) (first + s.chunk_count) end files.1 in
      omega (arith, more, files.0.some_chunk)

  Files-some :
      (ss : List FinalizedShard) (low k first end : ℕ)
      → Files p body names hmac_sha256 key global low k first ss end
      → first < end
      → 0 < length ss
  Files-some [] low k first end files h = absurd (omega (arith, files, h))
  Files-some (s ∷ ss) low k first end files h = omega arith

-- For options that match a plan that fits, an HMAC that returns 32 bytes, bodies of the planned lengths
-- with a tag, names that are new, differ and end in ".bin", a key of 32 bytes that are not all 0, fewer
-- than 2 ^ 32 chunks, and a global header that obeys the rules of the parser once finish has filled in
-- the counts, for every number of shards up to that of the chunks: the planner, the writer and finish
-- succeed; discover finds the files that they leave, when the directory lists them in the order in which
-- they were written; the constructor of the reader accepts them with the same key and the values of their
-- global header; and the reader returns all chunks, in order and with the length and the body with which
-- they were written, and then the end of the archive.
pub write_read :
    (options : ShardWriterOptions) (p : PlanParams) (names : ℕ → List ℕ) (body : ℕ → List ℕ)
    (exists : List ℕ → Bool) (hmac_sha256 : List ℕ → List ℕ → Option (List ℕ))
    (blake3 : List ℕ → List ℕ)
    → Setting options p names exists hmac_sha256
    → Bodies p body
    → ForReading options p names
    → (frames : List PlannedChunkFrame) × (written : ShardWriter) × (left : ShardWriter)
      × (shards : List ShardInfo) × (chunks : List ChunkRecord) × (plan_frames options p.tag_len
            new_planner
            (planned_chunks p 0 p.global_chunk_count)
          ≡ ok frames)
      × (write_frames names exists hmac_sha256 (empty_writer options) (with_bodies body 0 frames)
          ≡ ok (map position_of frames, written))
      × (finish hmac_sha256 written ≡ ok left)
      × (discover blake3 (some (map entry_of left.finalized_shards)) ≡ ok shards)
      × (validate_with_key hmac_sha256 options.header_authentication_key
            (expectation_of (final_global options p (length shards)))
            shards
          ≡ ok (shards, p.global_chunk_count))
      × (read_records
            (content_at left.finalized_shards)
            (suc (length chunks))
            (new_reader shards p.global_chunk_count)
          ≡ ok chunks)
      × (map content_of chunks ≡ planned_contents p body 0 p.global_chunk_count)
write_read options p names body exists hmac_sha256 blake3 setting bodies r =
    let (frames, written, left, planned, run, done, files) =
      writer-Files options p names body exists hmac_sha256 setting bodies in
    let ss = left.finalized_shards in
    let global = final_global options p (length ss) in
    let key = options.header_authentication_key in
    let count =
      Files-count p body names hmac_sha256 key global ss 0 0 0 p.global_chunk_count files in
    let some_file =
      Files-some p body names hmac_sha256 key global ss 0 0 0 p.global_chunk_count files
        bodies.some_chunk in
    let number : length ss % 2 ^ 32 ≡ length ss = omega (arith, count, r.few_chunks) in
    let g : Readable options p names body hmac_sha256 key global = record {
      matches = setting.matches;
      bodies = bodies;
      keyed = setting.keyed;
      sizes = r.room;
      extension = r.extension;
      fits =
          final_global-GlobalFits options p names body exists hmac_sha256 setting bodies
            (length ss);
      is_magic = r.is_magic;
      rules = r.rules (length ss) some_file (omega (arith, count));
      same_size = setting.matches.same_size;
      same_count = refl;
    } in
    let shards = infos options p names body hmac_sha256 key blake3 global g ss 0 0 0 files in
    let (chunks, read, same) =
      chunks_read options p names body hmac_sha256 key blake3 global g ss files setting.distinct in
    let long : length shards ≡ length ss =
      length-infos options p names body hmac_sha256 key blake3 global g ss 0 0 0 files in
    let validation : validate_with_key hmac_sha256 key
          (expectation_of (final_global options p (length shards))) shards
        ≡ ok (shards, p.global_chunk_count) =
      ap (λ n. validate_with_key hmac_sha256 key (expectation_of (final_global options p n)) shards)
        long
      ∙ validated options p names body hmac_sha256 key blake3 global g ss files r.key_size
          r.key_not_zero number in
    (
      frames,
      written,
      left,
      shards,
      chunks,
      planned,
      run,
      done,
      discovered options p names body hmac_sha256 key blake3 global g ss files some_file
          (omega (arith, number)),
      validation,
      read,
      same,
    )
