-- ===== src/Io/Reader/Progress.antt =====
-- A call of read_next_chunk_record (io/ShardReader.cpp) on files that hold what they should.
use bseal_cpp.Base.{
  ℕ, suc, ◌+◌, ◌%◌, ◌^◌, ◌≤◌, ◌<◌, ◌≡◌, refl, sym, subst, ◌∙◌, ap, Bool, true, false, not, ◌&&◌,
  leb, le→ltb_false, ◌==◌, ==_iff, length, length-drop, List, [], ◌∷◌, Option, none, some, ok, All,
  arith, if◌then◌else◌,
}
use bseal_cpp.Io.Stream.{Stream, ahead}
use bseal_cpp.Io.Discover.{ShardInfo, shard_payload_len, payload_offset}
use bseal_cpp.Io.Validate.{contains}
use bseal_cpp.Io.Reader.{
  ChunkRecord, ShardReader, is_final, end_of_shards, close_current_shard_and_check_trailing_garbage,
  open_current_shard,
}
use bseal_cpp.Io.Reader.Record.{IsChunk}
use bseal_cpp.Io.Reader.Remaining.{FromShard, FromShards, Remaining}

abbrev pub SmallChunks : List ShardInfo → Type 0
SmallChunks = All (λ s. s.global_header.chunk_plain_size < 2 ^ 32)

-- The reader has returned the chunks below n, of `total`.
pub record HasRead (total : ℕ) (reader : ShardReader) (n : ℕ) : Type 0 where
  pub seen_size : length reader.seen_chunk_indices ≡ n
  pub seen_below : All (λ i. i < n) reader.seen_chunk_indices
  pub final_seen : reader.saw_final_chunk ≡ (not (total == 0) && leb total n)

pub not_contained : (n : ℕ) (seen : List ℕ) → All (λ i. i < n) seen → contains n seen ≡ false
unfolding contains
not_contained n [] h = refl
not_contained n (i ∷ seen) h = ground (arith, not_contained n seen)

pub end_ok :
    (total n : ℕ) (reader : ShardReader)
    → HasRead total reader n
    → reader.expected_total_chunk_count ≡ total
    → n ≡ total
    → end_of_shards reader ≡ ok (none, reader)
unfolding end_of_shards
end_ok total n reader h whole e =
    let count : (length reader.seen_chunk_indices == reader.expected_total_chunk_count) ≡ true =
      (==_iff _ _).1 (h.seen_size ∙ e ∙ sym whole) in
    let final : not (reader.expected_total_chunk_count == 0) && not reader.saw_final_chunk ≡ false =
      marked reader.expected_total_chunk_count total n reader.saw_final_chunk whole e
        h.final_seen in
    rw (count, final, end_of_shards) refl
  where
    marked :
        (expected total n : ℕ) (saw : Bool)
        → expected ≡ total
        → n ≡ total
        → saw ≡ (not (total == 0) && leb total n)
        → (not (expected == 0) && not saw) ≡ false
    marked expected total n saw a b c = ground arith

pub after_HasRead :
    (total n : ℕ) (reader : ShardReader) (shard : ShardInfo) (stream : Stream) (chunk : ChunkRecord)
    (c : IsChunk reader.expected_total_chunk_count shard n chunk)
    → reader.expected_total_chunk_count ≡ total
    → HasRead total reader n
    → (saw : Bool) → saw ≡ (if is_final chunk.frame_flags then true else reader.saw_final_chunk)
    → saw ≡ (not (total == 0) && leb total (suc n))
after_HasRead total n reader shard stream chunk c whole h saw s =
    marked reader.expected_total_chunk_count total n (is_final chunk.frame_flags)
      reader.saw_final_chunk saw whole c.marked h.final_seen s
  where
    marked :
        (expected total n : ℕ) (final before saw : Bool)
        → expected ≡ total
        → final ≡ (suc n == expected)
        → before ≡ (not (total == 0) && leb total n)
        → saw ≡ (if final then true else before)
        → saw ≡ (not (total == 0) && leb total (suc n))
    marked expected total n final before saw a b c s = ground arith

pub first_final :
    (expected total n : ℕ) (final before : Bool)
    → expected ≡ total
    → final ≡ (suc n == expected)
    → before ≡ (not (total == 0) && leb total n)
    → final ≡ true
    → before ≡ false
first_final expected total n final before a b c f = ground arith

module _ (files : List ℕ → Option (List ℕ)) (total : ℕ) where
  pub Open-ok :
      (reader : ShardReader) (shard : ShardInfo) (shards : List ShardInfo)
      (chunks : List ChunkRecord) (state : Option Stream) (done : ℕ)
      → reader.current_stream ≡ state
      → reader.current_record_in_shard ≡ done
      → (state ≡ none → done ≡ 0)
      → Remaining files total state done (shard ∷ shards) chunks
      → (stream : Stream) × (open_current_shard files reader shard
          ≡ ok (record reader { current_stream = some stream }, stream))
        × FromShard total shard stream done (FromShards files total shards) chunks
  unfolding open_current_shard
  Open-ok reader shard shards chunks none done s d closed (bytes, there, from) =
      let start : Stream = record { bytes = bytes; position = payload_offset } in
      let rewind : ◌≡◌ {A = ShardReader}
          (record reader { current_stream = some start; current_record_in_shard = 0 })
          (record reader { current_stream = some start }) =
        ap (λ (k : ℕ). record reader { current_stream = some start; current_record_in_shard = k })
          (sym (d ∙ closed refl)) in
      (
        start,
        rw (s, there, open_current_shard) (ap (λ r. ok (r, start)) rewind),
        subst (λ k. FromShard total shard start k (FromShards files total shards) chunks)
            (sym (closed refl)) from,
      )
  Open-ok reader shard shards chunks (some stream) done s d closed from = (
    stream,
    rw (s, open_current_shard) (ap (λ o. ok (record reader { current_stream = o }, stream)) s),
    from,
  )

  pub close_ok :
      (reader : ShardReader) (shard : ShardInfo) (stream : Stream)
      → ahead stream ≡ []
      → stream.position ≡ (payload_offset + shard_payload_len shard) % 2 ^ 64
      → close_current_shard_and_check_trailing_garbage reader shard stream
        ≡ ok (record reader {
          current_stream = none;
          current_shard_pos = reader.current_shard_pos + 1;
          current_record_in_shard = 0;
        })
  unfolding close_current_shard_and_check_trailing_garbage
  close_ok reader shard stream nothing place =
      let short : length stream.bytes ≤ stream.position =
        omega (arith, length-drop stream.position stream.bytes, ap length nothing) in
      rw
        (
          (==_iff stream.position ((payload_offset + shard_payload_len shard) % 2 ^ 64)).1 place,
          le→ltb_false stream.position (length stream.bytes) short,
          close_current_shard_and_check_trailing_garbage,
        )
        refl
