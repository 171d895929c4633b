-- ===== src/Io/Reader/Returns.antt =====
-- A call of read_next_chunk_record (io/ShardReader.cpp) that returns the chunk ahead.
use bseal_cpp.Base.{
  drop-append_length, ℕ, zero, suc, ◌+◌, ◌%◌, ◌^◌, ◌≡◌, refl, sym, subst, ◌∙◌, ap, false, leb,
  length, length-append, drop, get_elem?, List, [], ◌∷◌, ◌++◌, Option, none, some, ok, All-map,
  arith,
}
use bseal_cpp.Io.Stream.{Stream, ahead}
use bseal_cpp.Io.Stream.Laws.{drop-drop}
use bseal_cpp.Io.Discover.{
  ShardInfo, first_chunk_index, chunk_count, shard_payload_len, payload_offset,
}
use bseal_cpp.Io.Reader.{ChunkRecord, ShardReader, is_final, open_current_shard, read_loop}
use bseal_cpp.Io.Reader.Record.{IsChunk, frame_bytes}
use bseal_cpp.Io.Reader.Accepts.{reader_after, read_record_ok}
use bseal_cpp.Io.Reader.Remaining.{FromShards, Remaining, IsReading, frames_bytes, AreChunks}
use bseal_cpp.Io.Reader.Progress.{SmallChunks, HasRead, not_contained, after_HasRead, first_final}

pub get_of_drop :
    (xs : List ShardInfo) (i : ℕ) (x : ShardInfo) (ys : List ShardInfo)
    → drop i xs ≡ x ∷ ys
    → (get_elem? xs i ≡ some x) × (drop (suc i) xs ≡ ys)
get_of_drop [] zero x ys e = cc
get_of_drop [] (suc i) x ys e = cc
get_of_drop (z ∷ xs) zero x ys e = (cc, cc)
get_of_drop (z ∷ xs) (suc i) x ys e = get_of_drop xs i x ys e

pub get_past : (xs : List ShardInfo) (i : ℕ) → drop i xs ≡ [] → get_elem? xs i ≡ none
get_past [] zero e = refl
get_past [] (suc i) e = refl
get_past (z ∷ xs) zero e = cc
get_past (z ∷ xs) (suc i) e = get_past xs i e

frame_size :
    (chunk : ChunkRecord)
    → length chunk.frame_header_bytes ≡ 40
    → length chunk.ciphertext ≡ chunk.plaintext_size + 16
    → length (frame_bytes chunk) ≡ 40 + (chunk.plaintext_size + 16)
unfolding frame_bytes
frame_size chunk h b = omega (arith, h, b, length-append chunk.frame_header_bytes chunk.ciphertext)

pub same_read :
    {total n : ℕ} (reader : ShardReader) (stream : Stream)
    → HasRead total reader n
    → HasRead total (record reader { current_stream = some stream }) n
same_read reader stream h = record {
  seen_size = h.seen_size;
  seen_below = h.seen_below;
  final_seen = h.final_seen;
}

module _ (files : List ℕ → Option (List ℕ)) (total : ℕ) where
  -- A reader that has returned n chunks, and whose files hold the others.
  pub record Standing (reader : ShardReader) (n : ℕ) (shards : List ShardInfo) (first : ℕ)
      (chunks : List ChunkRecord) : Type 0 where
    pub reading : IsReading files total reader shards first
    pub has_read : HasRead total reader n
    pub at : n ≡ first + reader.current_record_in_shard
    pub small : SmallChunks shards
    pub remaining :
        Remaining files total reader.current_stream reader.current_record_in_shard shards chunks

  abbrev pub Proceeds : ℕ → ShardReader → ℕ → List ChunkRecord → Type 0
  Proceeds fuel reader n [] =
      (reader' : ShardReader) × (read_loop files fuel reader ≡ ok (none, reader'))
  Proceeds fuel reader n (chunk ∷ chunks) =
      (reader' : ShardReader) × (read_loop files fuel reader ≡ ok (some chunk, reader'))
      × (shards : List ShardInfo) × (first : ℕ) × Standing reader' (suc n) shards first chunks

  -- A round that goes on does not change what the call returns.
  pub Proceeds-same :
      (fuel fuel' : ℕ) (reader reader' : ShardReader) (n : ℕ) (chunks : List ChunkRecord)
      → read_loop files fuel reader ≡ read_loop files fuel' reader'
      → Proceeds fuel' reader' n chunks
      → Proceeds fuel reader n chunks
  Proceeds-same fuel fuel' reader reader' n [] e (r, h) = (r, e ∙ h)
  Proceeds-same fuel fuel' reader reader' n (chunk ∷ chunks) e (r, h, shards, first, s) =
      (r, e ∙ h, shards, first, s)

  pub returns_record :
      (fuel n first : ℕ) (reader : ShardReader) (shard : ShardInfo) (shards : List ShardInfo)
      (stream : Stream) (chunk : ChunkRecord) (own others : List ChunkRecord)
      → Standing reader n (shard ∷ shards) first (chunk ∷ (own ++ others))
      → get_elem? reader.shards reader.current_shard_pos ≡ some shard
      → open_current_shard files reader shard
        ≡ ok (record reader { current_stream = some stream }, stream)
      → reader.current_record_in_shard + suc (length own) ≡ chunk_count shard
      → AreChunks total shard
          (first_chunk_index shard + reader.current_record_in_shard)
          (chunk ∷ own)
      → ahead stream ≡ frame_bytes chunk ++ frames_bytes own
      → stream.position + length (frame_bytes chunk ++ frames_bytes own)
        ≡ (payload_offset + shard_payload_len shard) % 2 ^ 64
      → FromShards files total shards others
      → Proceeds (suc fuel) reader n (chunk ∷ (own ++ others))
  unfolding read_loop
  returns_record fuel n first reader shard shards stream chunk own others s at opens count are whole
        payload following =
      let i = s.reading in
      let h = s.has_read in
      let opened : ShardReader = record reader { current_stream = some stream } in
      let place : first_chunk_index shard + reader.current_record_in_shard ≡ n =
        omega (arith, s.at, i.ranges.0) in
      let is_chunk : IsChunk opened.expected_total_chunk_count shard n chunk =
        subst (λ k. IsChunk k shard n chunk) (sym i.total_is)
          (subst (λ k. IsChunk total shard k chunk) place are.0) in
      let reads =
        read_record_ok opened shard stream n chunk is_chunk s.small.0 place
          (omega (arith, s.at, i.ranges.0, i.ranges.1, count))
          (not_contained n reader.seen_chunk_indices h.seen_below)
          (λ f.
            first_final opened.expected_total_chunk_count total n (is_final chunk.frame_flags)
              reader.saw_final_chunk i.total_is is_chunk.marked h.final_seen f)
          (frames_bytes own) (frames_bytes own) whole
          (omega (arith, payload, length-append (frame_bytes chunk) (frames_bytes own))) in
      let more : leb (chunk_count shard) reader.current_record_in_shard ≡ false =
        some_left (chunk_count shard) reader.current_record_in_shard (length own) count in
      let size : length (frame_bytes chunk) ≡ 40 + (chunk.plaintext_size + 16) =
        frame_size chunk is_chunk.header_size is_chunk.body in
      let stream' : Stream = record stream {
        position = stream.position + 40 + (chunk.plaintext_size + 16);
      } in
      let done : reader.current_record_in_shard + 1 ≡ suc reader.current_record_in_shard =
        omega arith in
      let next : suc (first_chunk_index shard + reader.current_record_in_shard)
          ≡ first_chunk_index shard + (reader.current_record_in_shard + 1) =
        omega arith in
      let moved : stream.position + length (frame_bytes chunk) ≡ stream'.position =
        omega (arith, size) in
      let left : ahead stream' ≡ frames_bytes own =
        ap (λ p. drop p stream.bytes) (sym moved)
        ∙ sym (drop-drop stream.position (length (frame_bytes chunk)) stream.bytes)
        ∙ ap (drop (length (frame_bytes chunk))) whole
        ∙ drop-append_length (frame_bytes chunk) (frames_bytes own) in
      (
        reader_after opened shard stream n chunk is_chunk s.small.0 place
            (omega (arith, s.at, i.ranges.0, i.ranges.1, count))
            (not_contained n reader.seen_chunk_indices h.seen_below)
            (λ f.
              first_final opened.expected_total_chunk_count total n (is_final chunk.frame_flags)
                reader.saw_final_chunk i.total_is is_chunk.marked h.final_seen f),
        rw (at, opens, more, reads, read_loop) refl,
        shard ∷ shards,
        first,
        record {
          reading = record {
            left = i.left;
            total_is = i.total_is;
            ranges = i.ranges;
            within = omega (arith, count);
            closed = λ e. cc e;
          };
          has_read = record {
            seen_size = ap suc h.seen_size;
            seen_below = (
              omega arith,
              All-map _ _ reader.seen_chunk_indices (λ j b. omega (arith, b)) h.seen_below,
            );
            final_seen =
                after_HasRead total n opened shard stream chunk is_chunk i.total_is
                  (same_read reader stream h) _ refl;
          };
          at = omega (arith, s.at);
          small = s.small;
          remaining = record {
            own = own;
            others = others;
            split = refl;
            count = omega (arith, count);
            are_chunks = subst (λ k. AreChunks total shard k own) next are.1;
            whole = left;
            payload =
                omega (arith, payload, moved, length-append (frame_bytes chunk) (frames_bytes own));
            following = following;
          };
        },
      )
    where
      some_left : (count done left : ℕ) → done + suc left ≡ count → leb count done ≡ false
      some_left count done left e = ground arith
