-- ===== src/Io/Reader/Exact.antt =====
-- The reader (io/ShardReader.cpp) returns exactly the chunks that its files hold.
use bseal_cpp.Base.{
  ℕ, zero, suc, ◌+◌, ◌%◌, ◌^◌, ◌≤◌, ◌<◌, ◌≡◌, ◌↔◌, refl, sym, subst, ◌∙◌, ap, true, false, not,
  ◌&&◌, leb, ◌==◌, length, length-drop, drop, List, [], ◌∷◌, ◌++◌, Option, none, some, ok, arith,
}
use bseal_cpp.Io.Stream.{Stream, ahead}
use bseal_cpp.Io.Discover.{
  ShardInfo, first_chunk_index, chunk_count, shard_payload_len, payload_offset,
}
use bseal_cpp.Io.Validate.Complete.{Ranges}
use bseal_cpp.Io.Reader.{
  ChunkRecord, ShardReader, new_reader, open_current_shard, read_loop, read_next_chunk_record,
  read_records,
}
use bseal_cpp.Io.Reader.Remaining.{FromShards, Remaining, Within, frames_bytes, AreChunks}
use bseal_cpp.Io.Reader.Run.{records_lem}
use bseal_cpp.Io.Reader.Progress.{SmallChunks, end_ok, Open-ok, close_ok}
use bseal_cpp.Io.Reader.Returns.{
  get_of_drop, get_past, Standing, Proceeds, Proceeds-same, returns_record,
}

module _ (files : List ℕ → Option (List ℕ)) (total : ℕ) where
  no_chunk :
      (state : Option Stream) (done : ℕ) (chunks : List ChunkRecord)
      → Remaining files total state done [] chunks
      → chunks ≡ []
  no_chunk none done chunks e = e
  no_chunk (some stream) done chunks e = e

  starts : (shards : List ShardInfo) → Within files total 0 shards
  starts [] = refl
  starts (shard ∷ shards) = omega arith

  -- The state between two shards.
  between :
      (reader : ShardReader) (n : ℕ) (shard : ShardInfo) (shards : List ShardInfo) (first : ℕ)
      (chunks others : List ChunkRecord) (stream : Stream)
      → Standing files total reader n (shard ∷ shards) first chunks
      → drop (suc reader.current_shard_pos) reader.shards ≡ shards
      → reader.current_record_in_shard ≡ chunk_count shard
      → FromShards files total shards others
      → Standing files total
          (record reader {
            current_stream = none;
            current_shard_pos = reader.current_shard_pos + 1;
            current_record_in_shard = 0;
          })
          n
          shards
          (first + chunk_count shard)
          others
  between reader n shard shards first chunks others stream s behind all following =
      let i = s.reading in
      let pos : reader.current_shard_pos + 1 ≡ suc reader.current_shard_pos = omega arith in
      record {
        reading = record {
          left = ap (λ p. drop p reader.shards) pos ∙ behind;
          total_is = i.total_is;
          ranges = i.ranges.2;
          within = starts shards;
          closed = λ _. refl;
        };
        has_read = record {
          seen_size = s.has_read.seen_size;
          seen_below = s.has_read.seen_below;
          final_seen = s.has_read.final_seen;
        };
        at = omega (arith, s.at, all);
        small = s.small.1;
        remaining = following;
      }

  Continues : ℕ → List ShardInfo → Type 0
  Continues fuel shards =
      (reader : ShardReader) (n first : ℕ) (chunks : List ChunkRecord)
      → Standing files total reader n shards first chunks
      → Proceeds files total fuel reader n chunks

  shard_ok :
      (fuel n first : ℕ) (reader : ShardReader) (shard : ShardInfo) (shards : List ShardInfo)
      (chunks : List ChunkRecord) (stream : Stream) (own others : List ChunkRecord)
      → Continues fuel shards
      → Standing files total reader n (shard ∷ shards) first chunks
      → chunks ≡ own ++ others
      → open_current_shard files reader shard
        ≡ ok (record reader { current_stream = some stream }, stream)
      → reader.current_record_in_shard + length own ≡ chunk_count shard
      → AreChunks total shard (first_chunk_index shard + reader.current_record_in_shard) own
      → ahead stream ≡ frames_bytes own
      → stream.position + length (frames_bytes own)
        ≡ (payload_offset + shard_payload_len shard) % 2 ^ 64
      → FromShards files total shards others
      → Proceeds files total (suc fuel) reader n (own ++ others)
  unfolding read_loop Continues
  shard_ok fuel n first reader shard shards chunks stream [] others ih s split opens count are whole
        payload following =
      let i = s.reading in
      let (at, behind) = get_of_drop reader.shards reader.current_shard_pos shard shards i.left in
      let all : reader.current_record_in_shard ≡ chunk_count shard = omega (arith, count) in
      let full : leb (chunk_count shard) reader.current_record_in_shard ≡ true =
        reached (chunk_count shard) reader.current_record_in_shard all in
      let opened : ShardReader = record reader { current_stream = some stream } in
      let closes = close_ok files total opened shard stream whole (omega (arith, payload)) in
      let next : ShardReader = record reader {
        current_stream = none;
        current_shard_pos = reader.current_shard_pos + 1;
        current_record_in_shard = 0;
      } in
      let same : read_loop files (suc fuel) reader ≡ read_loop files fuel next =
        rw (at, opens, full, closes, read_loop) refl in
      Proceeds-same files total (suc fuel) fuel reader next n others same (
        ih next n (first + chunk_count shard) others
          (between reader n shard shards first chunks others stream s behind all following))
    where
      reached : (count done : ℕ) → done ≡ count → leb count done ≡ true
      reached count done e = ground arith
  shard_ok fuel n first reader shard shards chunks stream (chunk ∷ own) others ih s split opens
        count are whole payload following =
      returns_record files total fuel n first reader shard shards stream chunk own others
        (subst (Standing files total reader n (shard ∷ shards) first) split s)
        (get_of_drop reader.shards reader.current_shard_pos shard shards s.reading.left).0 opens
        count are whole payload following

  loop_ok : (shards : List ShardInfo) (fuel : ℕ) → length shards < fuel → Continues fuel shards
  unfolding read_loop Continues
  loop_ok shards zero h reader n first chunks s = absurd (omega (arith, h))
  loop_ok [] (suc fuel) h reader n first chunks s =
      let i = s.reading in
      let past = get_past reader.shards reader.current_shard_pos i.left in
      let end =
        end_ok total n reader s.has_read i.total_is (omega (arith, s.at, i.ranges, i.within)) in
      let done = no_chunk reader.current_stream reader.current_record_in_shard chunks s.remaining in
      subst (Proceeds files total (suc fuel) reader n) (sym done)
        (reader, rw (past, end, read_loop) refl)
  loop_ok (shard ∷ shards) (suc fuel) h reader n first chunks s =
      let i = s.reading in
      let (stream, opens, from) =
        Open-ok files total reader shard shards chunks reader.current_stream
          reader.current_record_in_shard refl refl i.closed s.remaining in
      subst (Proceeds files total (suc fuel) reader n) (sym from.split) (
        shard_ok fuel n first reader shard shards chunks stream from.own from.others
          (loop_ok shards fuel (omega (arith, h))) s from.split opens from.count from.are_chunks
          from.whole from.payload from.following)

  called :
      (reader : ShardReader) (n first : ℕ) (chunks : List ChunkRecord) (shards : List ShardInfo)
      → Standing files total reader n shards first chunks
      → Proceeds files total (suc (length reader.shards)) reader n chunks
  unfolding Continues
  called reader n first chunks shards s =
      let size : length shards ≤ length reader.shards =
        omega
          (arith, ap length s.reading.left, length-drop reader.current_shard_pos reader.shards) in
      loop_ok shards (suc (length reader.shards)) (omega (arith, size)) reader n first chunks s

  -- The reader returns what its files hold, in one round more than there are chunks.
  records_ok :
      (chunks : List ChunkRecord) (reader : ShardReader) (n first : ℕ) (shards : List ShardInfo)
      → Standing files total reader n shards first chunks
      → read_records files (suc (length chunks)) reader ≡ ok chunks
  unfolding read_records read_next_chunk_record Continues
  records_ok [] reader n first shards s =
      let (reader', e) = called reader n first [] shards s in rw (e, read_records) refl
  records_ok (chunk ∷ chunks) reader n first shards s =
      let (reader', e, shards', first', s') = called reader n first (chunk ∷ chunks) shards s in
      rw (e, records_ok chunks reader' (suc n) first' shards' s', read_records) refl

  new-Standing :
      (shards : List ShardInfo) (chunks : List ChunkRecord)
      → Ranges 0 total shards
      → SmallChunks shards
      → FromShards files total shards chunks
      → Standing files total (new_reader shards total) 0 shards 0 chunks
  new-Standing shards chunks r s h = record {
    reading = record {
      left = refl;
      total_is = refl;
      ranges = r;
      within = starts shards;
      closed = λ _. refl;
    };
    has_read = record { seen_size = refl; seen_below = tt; final_seen = none_yet total };
    at = omega arith;
    small = s;
    remaining = h;
  }
    where
      none_yet : (total : ℕ) → false ≡ (not (total == 0) && leb total 0)
      none_yet total = ground arith

-- For shards whose ranges follow each other from 0 to the total, with chunk sizes of 32 bits: a reader
-- returns some chunks and then the end of the archive exactly when the files of the shards hold these
-- chunks. That is, each file has, behind its headers and up to its end, the frames of the declared
-- number of chunks with the declared length, each with a valid header for its shard and its index, a
-- body of the plaintext length and a tag, full but for the last one, which alone is marked final.
pub read_exactly :
    (files : List ℕ → Option (List ℕ)) (total : ℕ) (shards : List ShardInfo)
    (chunks : List ChunkRecord)
    → Ranges 0 total shards
    → SmallChunks shards
    → (read_records files (suc (length chunks)) (new_reader shards total) ≡ ok chunks)
      ↔ FromShards files total shards chunks
read_exactly files total shards chunks r s = (
  λ e.
      records_lem files total (suc (length chunks)) (new_reader shards total) shards 0 chunks
        (record {
          left = refl;
          total_is = refl;
          ranges = r;
          within = starts files total shards;
          closed = λ _. refl;
        })
        e,
  λ h.
      records_ok files total chunks (new_reader shards total) 0 0 shards
        (new-Standing files total shards chunks r s h),
)
