-- ===== src/Io/ReadBack/Frames.antt =====
-- The frames of a finished shard as the records that read_next_chunk_record (io/ShardReader.cpp) reads.
use bseal_cpp.Base.{
  ℕ, zero, suc, ◌+◌, ◌-◌, ◌^◌, ◌%◌, ◌≤◌, ◌<◌, ◌≡◌, refl, sym, subst, ◌∙◌, ap, true, false, ◌==◌,
  Bool, length, length-append, append-nil, append_assoc, List, [], ◌∷◌, ◌++◌, ok, ok_injective,
  arith, if◌then◌else◌,
}
use bseal_cpp.Frame.Chunk.{parse_chunk_frame_header_v1, append_chunk}
use bseal_cpp.Frame.Chunk.Laws.{
  chunk_bytes, length-chunk_bytes, serialize_chunk-eq, parse-serialize_chunk,
}
use bseal_cpp.App.Plan.{PlanParams, plain_len_at}
use bseal_cpp.App.Plan.Laws.{frames_len, plain_len_le}
use bseal_cpp.Io.Discover.{ShardInfo, shard_index}
use bseal_cpp.Io.Reader.{ChunkRecord}
use bseal_cpp.Io.Reader.Record.{IsChunk, frame_bytes}
use bseal_cpp.Io.Reader.Remaining.{frames_bytes, AreChunks}
use bseal_cpp.Io.Writer.{ShardWriterOptions}
use bseal_cpp.Io.Writer.Planner.{Matches, frame_header, frame_header-fits, frame_header-written}
use bseal_cpp.Io.Writer.Chain.{stored, frame_at}
use bseal_cpp.Io.Writer.Files.{Bodies}

module _ (options : ShardWriterOptions) (p : PlanParams) (body : ℕ → List ℕ) where
  -- The record of chunk i in the k-th shard, and those of some chunks in a row.
  abbrev pub record_at : ℕ → ℕ → ChunkRecord
  record_at k i = record {
    chunk_index = i;
    shard_index = k % 2 ^ 32;
    plaintext_size = plain_len_at p i;
    frame_flags = (frame_header p i (k % 2 ^ 32)).frame_flags;
    frame_header_bytes = append_chunk [] (frame_header p i (k % 2 ^ 32));
    ciphertext = body i;
  }

  abbrev pub records_in : ℕ → ℕ → ℕ → List ChunkRecord
  records_in k first zero = []
  records_in k first (suc n) = record_at k first ∷ records_in k (suc first) n

  stored-front :
      (k first n : ℕ)
      → stored p body k first (suc n) ≡ frame_at p body k first ++ stored p body k (suc first) n
  unfolding stored
  stored-front k first zero =
      ap (frame_at p body k) (omega arith) ∙ sym (append-nil (frame_at p body k first))
  stored-front k first (suc n) =
      let next : first + suc n ≡ suc first + n = omega arith in
      ap (λ l. l ++ frame_at p body k (first + suc n)) (stored-front k first n)
      ∙ append_assoc (frame_at p body k first) (stored p body k (suc first) n)
          (frame_at p body k (first + suc n))
      ∙ ap (λ i. frame_at p body k first ++ (stored p body k (suc first) n ++ frame_at p body k i))
          next

  pub stored-frames_bytes :
      (k first n : ℕ) → stored p body k first n ≡ frames_bytes (records_in k first n)
  unfolding stored frame_at frame_bytes
  stored-frames_bytes k first zero = refl
  stored-frames_bytes k first (suc n) =
      stored-front k first n
      ∙ ap (λ l. frame_at p body k first ++ l) (stored-frames_bytes k (suc first) n)

  module _ (matches : Matches options p) (bodies : Bodies p body) where
    header_read :
        (k i : ℕ)
        → i < p.global_chunk_count
        → (length (append_chunk [] (frame_header p i (k % 2 ^ 32))) ≡ 40)
          × (parse_chunk_frame_header_v1 (append_chunk [] (frame_header p i (k % 2 ^ 32)))
              ≡ ok (frame_header p i (k % 2 ^ 32)))
    header_read k i inside =
        let header = frame_header p i (k % 2 ^ 32) in
        let bytes = append_chunk [] header in
        let small : i < 2 ^ 64 = omega (arith, inside, matches.fits.count_fits) in
        let fits = frame_header-fits options p i (k % 2 ^ 32) matches small (omega arith) in
        let (_, written) =
          frame_header-written options p i (k % 2 ^ 32) matches small (omega arith) in
        let one = at_most_one (i == p.global_chunk_count - 1) in
        let layout : bytes ≡ chunk_bytes header [] =
          ok_injective
            (sym written ∙ serialize_chunk-eq header fits one (omega (arith, matches.tag))) in
        let (out, same, parsed) =
          parse-serialize_chunk header [] fits
            (record { flags = one; tag = matches.tag; cipher = refl }) in
        let is_out : out ≡ bytes = ok_injective (sym same ∙ written) in
        (
          ap length layout ∙ omega (arith, length-chunk_bytes header []),
          subst (λ b. parse_chunk_frame_header_v1 b ≡ ok header) (append-nil out ∙ is_out) parsed,
        )
      where
        at_most_one : (final : Bool) → (if final then 1 else 0) ≤ 1
        at_most_one true = omega arith
        at_most_one false = omega arith

    pub record-IsChunk :
        (k i : ℕ) (shard : ShardInfo)
        → i < p.global_chunk_count
        → shard_index shard ≡ k % 2 ^ 32
        → shard.global_header.chunk_plain_size ≡ p.chunk_plain_size
        → IsChunk p.global_chunk_count shard i (record_at k i)
    unfolding plain_len_at
    record-IsChunk k i shard inside at size =
        let (header_size, parsed) = header_read k i inside in
        record {
          header = frame_header p i (k % 2 ^ 32);
          parsed = parsed;
          header_size = header_size;
          numbered = refl;
          header_numbered = refl;
          placed = sym at;
          header_placed = sym at;
          plaintext = refl;
          cipher = refl;
          tag = matches.tag;
          flags = refl;
          body = bodies.sized i inside;
          marked = marks i p.global_chunk_count inside;
          fits = omega (arith, plain_len_le p i matches.fits, size);
          full = λ h.
              unmarked i (p.global_chunk_count - 1) p.final_plaintext_chunk_len p.chunk_plain_size h
              ∙ sym size;
        }
      where
        marks :
            (i count : ℕ)
            → i < count
            → (if i == count - 1 then 1 else 0) % 2 == 1 ≡ (suc i == count)
        marks i count h = ground arith

        unmarked :
            (i last final full : ℕ)
            → ((if i == last then 1 else 0) % 2 == 1) ≡ false
            → (if i == last then final else full) ≡ full
        unmarked i last final full h = ground arith

    pub records-AreChunks :
        (n k first : ℕ) (shard : ShardInfo)
        → first + n ≤ p.global_chunk_count
        → shard_index shard ≡ k % 2 ^ 32
        → shard.global_header.chunk_plain_size ≡ p.chunk_plain_size
        → AreChunks p.global_chunk_count shard first (records_in k first n)
    records-AreChunks zero k first shard within at size = tt
    records-AreChunks (suc n) k first shard within at size = (
      record-IsChunk k first shard (omega (arith, within)) at size,
      records-AreChunks n k (suc first) shard (omega (arith, within)) at size,
    )

    pub length-stored :
        (n k first : ℕ)
        → first + n ≤ p.global_chunk_count
        → length (stored p body k first n) ≡ frames_len p first n
    unfolding stored frame_at
    length-stored zero k first within = refl
    length-stored (suc n) k first within =
        let before = length-stored n k first (omega (arith, within)) in
        let inside : first + n < p.global_chunk_count = omega (arith, within) in
        let header = append_chunk [] (frame_header p (first + n) (k % 2 ^ 32)) in
        omega (
          arith,
          before,
          length-append (stored p body k first n) (header ++ body (first + n)),
          length-append header (body (first + n)),
          (header_read k (first + n) inside).0,
          bodies.sized (first + n) inside,
          matches.tag,
        )

    pub length-records_in : (n k first : ℕ) → length (records_in k first n) ≡ n
    length-records_in zero k first = refl
    length-records_in (suc n) k first = omega (arith, length-records_in n k (suc first))
