-- ===== src/Io/ReadBack/Chunks.antt =====
-- read_next_chunk_record (io/ShardReader.cpp) over the files of a finished ShardWriter.
use bseal_cpp.Base.{
  ℕ, zero, suc, ◌+◌, ◌-◌, ◌<◌, ◌≡◌, refl, sym, subst, ◌∙◌, ap, false, length, length-append, drop,
  drop-append_length, map, List, [], ◌∷◌, ◌++◌, All, Option, some, none, ok, arith, if◌then◌else◌,
}
use bseal_cpp.Frame.{GlobalPublicHeaderV1}
use bseal_cpp.Frame.Bytes.{equal_bytes, equal_bytes_refl}
use bseal_cpp.Frame.Global.Layout.{global_bytes, length-global_bytes}
use bseal_cpp.Frame.Shard.Laws.{shard_bytes, length-shard_bytes}
use bseal_cpp.App.Plan.{PlanParams, plain_len_at}
use bseal_cpp.Io.Validate.Complete.{Ranges}
use bseal_cpp.Io.Reader.{ChunkRecord, new_reader, read_records}
use bseal_cpp.Io.Reader.Remaining.{AreChunks, FromShards}
use bseal_cpp.Io.Reader.Progress.{SmallChunks}
use bseal_cpp.Io.Reader.Exact.{read_exactly}
use bseal_cpp.Io.Writer.{ShardWriterOptions, FinalizedShard}
use bseal_cpp.Io.Writer.Rewriting.{sealed_header}
use bseal_cpp.Io.Writer.Chain.{stored}
use bseal_cpp.Io.ReadBack.Frames.{
  records_in, stored-frames_bytes, records-AreChunks, length-records_in, length-stored,
}
use bseal_cpp.Io.ReadBack.Headers.{Readable, info_of, file_header-ShardFits}
use bseal_cpp.Io.ReadBack.Discovered.{Written, Written-within, infos}

-- What opening a path yields when the directory holds the files of the writer.
abbrev pub content_at : List FinalizedShard → List ℕ → Option (List ℕ)
content_at [] path = none
content_at (s ∷ ss) path = if equal_bytes path s.path then some s.content else content_at ss path

-- The index, the length and the body of a chunk that was read, and those of the planned chunks.
abbrev pub content_of : ChunkRecord → ℕ × ℕ × List ℕ
content_of chunk = (chunk.chunk_index, chunk.plaintext_size, chunk.ciphertext)

abbrev pub planned_contents : PlanParams → (ℕ → List ℕ) → ℕ → ℕ → List (ℕ × ℕ × List ℕ)
planned_contents p body first zero = []
planned_contents p body first (suc n) =
    (first, plain_len_at p first, body first) ∷ planned_contents p body (suc first) n

module _ (options : ShardWriterOptions) (p : PlanParams) (names : ℕ → List ℕ) (body : ℕ → List ℕ)
    (hmac_sha256 : List ℕ → List ℕ → Option (List ℕ)) (key : List ℕ) (blake3 : List ℕ → List ℕ)
    (global : GlobalPublicHeaderV1) (g : Readable options p names body hmac_sha256 key global) where
  Found : List FinalizedShard → FinalizedShard → Type 0
  Found all s = content_at all s.path ≡ some s.content

  module _ (distinct : (i j : ℕ) → i < j → equal_bytes (names j) (names i) ≡ false) where
    still-Found :
        (front : FinalizedShard) (i : ℕ) (all ss : List FinalizedShard) (low k first : ℕ)
        → front.path ≡ names i
        → i < low
        → Written options p names body hmac_sha256 key blake3 global g low k first ss
        → All (Found all) ss
        → All (Found (front ∷ all)) ss
    unfolding Found
    still-Found front i all [] low k first named before files h = tt
    still-Found front i all (s ∷ ss) low k first named before files h =
        let other : equal_bytes s.path front.path ≡ false =
          ap (λ t. equal_bytes t front.path) files.0.path_is
          ∙ ap (equal_bytes (names files.0.name)) named
          ∙ distinct i files.0.name (omega (arith, before, files.0.name_from)) in
        (
          rw other h.0,
          still-Found front i all ss (suc files.0.name) (suc k) (first + s.chunk_count) named
              (omega (arith, before, files.0.name_from)) files.1 h.1,
        )

    all-Found :
        (ss : List FinalizedShard) (low k first : ℕ)
        → Written options p names body hmac_sha256 key blake3 global g low k first ss
        → All (Found ss) ss
    unfolding Found
    all-Found [] low k first files = tt
    all-Found (s ∷ ss) low k first files = (
      rw (equal_bytes_refl s.path) refl,
      still-Found s files.0.name ss ss (suc files.0.name) (suc k) (first + s.chunk_count)
          files.0.path_is (omega arith) files.1
          (all-Found ss (suc files.0.name) (suc k) (first + s.chunk_count) files.1),
    )

  abbrev pub records_of : List FinalizedShard → ℕ → ℕ → List ChunkRecord
  records_of [] k first = []
  records_of (s ∷ ss) k first =
      records_in options p body k first s.chunk_count
      ++ records_of ss (suc k) (first + s.chunk_count)

  infos-Ranges :
      (ss : List FinalizedShard) (low k first : ℕ)
      (files : Written options p names body hmac_sha256 key blake3 global g low k first ss)
      → Ranges first p.global_chunk_count
          (infos options p names body hmac_sha256 key blake3 global g ss low k first files)
  infos-Ranges [] low k first files = files
  infos-Ranges (s ∷ ss) low k first files =
      let within =
        Written-within options p names body hmac_sha256 key blake3 global g ss (suc files.0.name)
          (suc k) (first + s.chunk_count) files.1 in
      (
        files.0.first_is,
        omega (arith, within, g.matches.fits.count_fits),
        infos-Ranges ss (suc files.0.name) (suc k) (first + s.chunk_count) files.1,
      )

  infos-SmallChunks :
      (ss : List FinalizedShard) (low k first : ℕ)
      (files : Written options p names body hmac_sha256 key blake3 global g low k first ss)
      → SmallChunks
          (infos options p names body hmac_sha256 key blake3 global g ss low k first files)
  infos-SmallChunks [] low k first files = tt
  infos-SmallChunks (s ∷ ss) low k first files = (
    g.fits.chunk_plain_size_fits,
    infos-SmallChunks ss (suc files.0.name) (suc k) (first + s.chunk_count) files.1,
  )

  held :
      (all ss : List FinalizedShard) (low k first : ℕ)
      (files : Written options p names body hmac_sha256 key blake3 global g low k first ss)
      → All (Found all) ss
      → FromShards
          (content_at all)
          p.global_chunk_count
          (infos options p names body hmac_sha256 key blake3 global g ss low k first files)
          (records_of ss k first)
  unfolding Found
  held all [] low k first files found = refl
  held all (s ∷ ss) low k first files found =
      let within =
        Written-within options p names body hmac_sha256 key blake3 global g ss (suc files.0.name)
          (suc k) (first + s.chunk_count) files.1 in
      let own = records_in options p body k first s.chunk_count in
      let fits =
        file_header-ShardFits options p names body hmac_sha256 key blake3 global g s low k first
          files.0 within in
      let front = global_bytes global [] ++ shard_bytes (sealed_header s files.0.mac) [] in
      let front_size : length front ≡ 272 = omega (
        arith,
        length-append (global_bytes global []) (shard_bytes (sealed_header s files.0.mac) []),
        length-global_bytes global [] g.fits,
        length-shard_bytes (sealed_header s files.0.mac) [] fits,
      ) in
      let frames = stored-frames_bytes options p body k first s.chunk_count in
      let behind : drop 272 s.content ≡ stored p body k first s.chunk_count =
        subst (λ n. drop n s.content ≡ stored p body k first s.chunk_count) front_size
          (ap (drop (length front)) files.0.content_is
            ∙ drop-append_length front (stored p body k first s.chunk_count)) in
      let starts : s.first_chunk_index + 0 ≡ first = omega (arith, files.0.first_is) in
      (
        s.content,
        found.0,
        record {
          own = own;
          others = records_of ss (suc k) (first + s.chunk_count);
          split = refl;
          count =
              omega
                (arith, length-records_in options p body g.matches g.bodies s.chunk_count k first);
          are_chunks =
              subst
                (λ i.
                  AreChunks p.global_chunk_count
                    (info_of options p names body hmac_sha256 key blake3 global g s files.0.mac) i
                    own)
                (sym starts)
                (records-AreChunks options p body g.matches g.bodies s.chunk_count k first
                  (info_of options p names body hmac_sha256 key blake3 global g s files.0.mac)
                  within files.0.index_is g.same_size);
          whole = behind ∙ frames;
          payload = omega (
            arith,
            ap length frames,
            length-stored options p body g.matches g.bodies s.chunk_count k first within,
            files.0.payload_is,
            files.0.payload_fits,
            g.sizes,
          );
          following =
              held all ss (suc files.0.name) (suc k) (first + s.chunk_count) files.1 found.1;
        },
      )

  contents_in :
      (n k first : ℕ) (more : List ChunkRecord) (left : ℕ)
      → map content_of more ≡ planned_contents p body (first + n) left
      → map content_of (records_in options p body k first n ++ more)
        ≡ planned_contents p body first (n + left)
  contents_in zero k first more left e =
      let here : first + 0 ≡ first = omega arith in
      let same : 0 + left ≡ left = omega arith in
      e
      ∙ ap (λ i. planned_contents p body i left) here
      ∙ ap (planned_contents p body first) (sym same)
  contents_in (suc n) k first more left e =
      let next : first + suc n ≡ suc first + n = omega arith in
      let same : suc n + left ≡ suc (n + left) = omega arith in
      ap (λ l. (first, plain_len_at p first, body first) ∷ l)
        (contents_in n k (suc first) more left (e ∙ ap (λ i. planned_contents p body i left) next))
      ∙ ap (planned_contents p body first) (sym same)

  contents :
      (ss : List FinalizedShard) (low k first : ℕ)
      → Written options p names body hmac_sha256 key blake3 global g low k first ss
      → map content_of (records_of ss k first)
        ≡ planned_contents p body first (p.global_chunk_count - first)
  contents [] low k first files =
      let none_left : p.global_chunk_count - first ≡ 0 = omega (arith, files) in
      ap (planned_contents p body first) (sym none_left)
  contents (s ∷ ss) low k first files =
      let within =
        Written-within options p names body hmac_sha256 key blake3 global g ss (suc files.0.name)
          (suc k) (first + s.chunk_count) files.1 in
      let left : s.chunk_count + (p.global_chunk_count - (first + s.chunk_count))
          ≡ p.global_chunk_count - first =
        omega (arith, within) in
      contents_in s.chunk_count k first (records_of ss (suc k) (first + s.chunk_count))
        (p.global_chunk_count - (first + s.chunk_count))
        (contents ss (suc files.0.name) (suc k) (first + s.chunk_count) files.1)
      ∙ ap (planned_contents p body first) left

  pub chunks_read :
      (ss : List FinalizedShard)
      (files : Written options p names body hmac_sha256 key blake3 global g 0 0 0 ss)
      → ((i j : ℕ) → i < j → equal_bytes (names j) (names i) ≡ false)
      → (chunks : List ChunkRecord) × (read_records (content_at ss) (suc (length chunks)) (
            new_reader
              (infos options p names body hmac_sha256 key blake3 global g ss 0 0 0 files)
              p.global_chunk_count)
          ≡ ok chunks)
        × (map content_of chunks ≡ planned_contents p body 0 p.global_chunk_count)
  chunks_read ss files distinct =
      let chunks = records_of ss 0 0 in
      let all : p.global_chunk_count - 0 ≡ p.global_chunk_count = omega arith in
      (
        chunks,
        (read_exactly (content_at ss) p.global_chunk_count
              (infos options p names body hmac_sha256 key blake3 global g ss 0 0 0 files) chunks
              (infos-Ranges ss 0 0 0 files) (infos-SmallChunks ss 0 0 0 files)).1
            (held ss ss 0 0 0 files (all-Found distinct ss 0 0 0 files)),
        contents ss 0 0 0 files ∙ ap (planned_contents p body 0) all,
      )
