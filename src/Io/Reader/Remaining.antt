-- ===== src/Io/Reader/Remaining.antt =====
-- What is left to be read from the state of a ShardReader (io/ShardReader.cpp).
use bseal_cpp.Base.{
  ℕ, suc, ◌+◌, ◌%◌, ◌^◌, ◌≤◌, ◌≡◌, refl, sym, subst, ◌∙◌, ap, not, ltb, ltb_false→le, ◌==◌, ==_iff,
  not-false, inl, inr, length, length-append, length_zero, length-drop, drop, Option-cases, List,
  [], ◌∷◌, ◌++◌, Option, none, some, ok, reject_if, rejected, then-eq-ok, ok_injective, arith,
}
use bseal_cpp.Io.Stream.{Stream, ahead}
use bseal_cpp.Io.Discover.{
  ShardInfo, first_chunk_index, chunk_count, shard_payload_len, payload_offset,
}
use bseal_cpp.Io.Validate.Complete.{Ranges}
use bseal_cpp.Io.Reader.{
  ChunkRecord, ShardReader, close_current_shard_and_check_trailing_garbage, open_current_shard,
}
use bseal_cpp.Io.Reader.Record.{IsChunk, frame_bytes, Advances}

-- The frames of some records in a row.
abbrev pub frames_bytes : List ChunkRecord → List ℕ
frames_bytes [] = []
frames_bytes (chunk ∷ chunks) = frame_bytes chunk ++ frames_bytes chunks

-- The records are the chunks of the shard from an index on.
abbrev pub AreChunks : ℕ → ShardInfo → ℕ → List ChunkRecord → Type 0
AreChunks total shard index [] = Unit
AreChunks total shard index (chunk ∷ chunks) =
    IsChunk total shard index chunk × AreChunks total shard (suc index) chunks

-- The first records are what is left of a shard after some of its records, to the last byte of its
-- file; the others come from the shards that follow.
pub record FromShard (total : ℕ) (shard : ShardInfo) (stream : Stream) (done : ℕ)
    (Following : List ChunkRecord → Type 0) (chunks : List ChunkRecord) : Type 0 where
  pub own : List ChunkRecord
  pub others : List ChunkRecord
  pub split : chunks ≡ own ++ others
  pub count : done + length own ≡ chunk_count shard
  pub are_chunks : AreChunks total shard (first_chunk_index shard + done) own
  pub whole : ahead stream ≡ frames_bytes own
  pub payload :
      stream.position + length (frames_bytes own)
      ≡ (payload_offset + shard_payload_len shard) % 2 ^ 64
  pub following : Following others

module _ (files : List ℕ → Option (List ℕ)) (total : ℕ) where
  -- The records are those of the shards in a row: of each the declared number, whose frames make up
  -- the file behind the headers and have the declared length.
  abbrev pub FromShards : List ShardInfo → List ChunkRecord → Type 0
  FromShards [] chunks = chunks ≡ []
  FromShards (shard ∷ shards) chunks =
      (bytes : List ℕ) × (files shard.path ≡ some bytes)
      × FromShard total shard (record { bytes = bytes; position = payload_offset }) 0
          (FromShards shards) chunks

  -- The same for a reader that stands within a shard or between two.
  abbrev pub Remaining : Option Stream → ℕ → List ShardInfo → List ChunkRecord → Type 0
  Remaining none done shards chunks = FromShards shards chunks
  Remaining (some stream) done [] chunks = chunks ≡ []
  Remaining (some stream) done (shard ∷ shards) chunks =
      FromShard total shard stream done (FromShards shards) chunks

  abbrev pub Within : ℕ → List ShardInfo → Type 0
  Within done [] = done ≡ 0
  Within done (shard ∷ shards) = done ≤ chunk_count shard

  -- The invariant of the reader between two calls.
  pub record IsReading (reader : ShardReader) (shards : List ShardInfo) (first : ℕ) : Type 0 where
    pub left : drop reader.current_shard_pos reader.shards ≡ shards
    pub total_is : reader.expected_total_chunk_count ≡ total
    pub ranges : Ranges first total shards
    pub within : Within reader.current_record_in_shard shards
    pub closed : reader.current_stream ≡ none → reader.current_record_in_shard ≡ 0

  -- No record is left of a shard that is closed.
  pub close_lem :
      (reader reader' : ShardReader) (shard : ShardInfo) (stream : Stream) (shards : List ShardInfo)
      → reader.current_record_in_shard ≡ chunk_count shard
      → close_current_shard_and_check_trailing_garbage reader shard stream ≡ ok reader'
      → (reader' ≡ record reader {
        current_stream = none;
        current_shard_pos = reader.current_shard_pos + 1;
        current_record_in_shard = 0;
      })
        × ((chunks : List ChunkRecord)
            → FromShards shards chunks
            → FromShard total shard stream reader.current_record_in_shard
                (FromShards shards)
                chunks)
  unfolding close_current_shard_and_check_trailing_garbage
  close_lem reader reader' shard stream shards all e =
      let (at, e) =
        then-eq-ok
          (reject_if (not (stream.position == (payload_offset + shard_payload_len shard) % 2 ^ 64))
            _)
          _ e in
      let (end, e) = then-eq-ok (reject_if (ltb stream.position (length stream.bytes)) _) _ e in
      let place = (==_iff _ _).0 (not-false _ (rejected _ _ at)) in
      let short = ltb_false→le _ _ (rejected _ _ end) in
      (
        sym (ok_injective e),
        λ chunks h. record {
          own = [];
          others = chunks;
          split = refl;
          count = omega (arith, all);
          are_chunks = tt;
          whole =
              length_zero (ahead stream)
                (omega (arith, length-drop stream.position stream.bytes, short));
          payload = omega (arith, place);
          following = h;
        },
      )

  pub open_lem :
      (reader reader' : ShardReader) (shard : ShardInfo) (stream : Stream) (shards : List ShardInfo)
      → (reader.current_stream ≡ none → reader.current_record_in_shard ≡ 0)
      → open_current_shard files reader shard ≡ ok (reader', stream)
      → (reader' ≡ record reader { current_stream = some stream })
        × ((chunks : List ChunkRecord)
            → FromShard total shard stream reader.current_record_in_shard (FromShards shards) chunks
            → Remaining reader.current_stream reader.current_record_in_shard
                (shard ∷ shards)
                chunks)
  unfolding open_current_shard
  open_lem reader reader' shard stream shards closed e = elim (Option-cases reader.current_stream) [
    | inl shut ↦
        let zero_done = closed shut in
        elim (Option-cases (files shard.path)) [
          | inl missing ↦ cc (rw (shut, missing, open_current_shard) at e)
          | inr (bytes, there) ↦
              let start : Stream = record { bytes = bytes; position = payload_offset } in
              let result = ok_injective (rw (shut, there, open_current_shard) at e) in
              let same : start ≡ stream = ap (λ r. r.1) result in
              let state : record reader { current_stream = some start; current_record_in_shard = 0 }
                  ≡ reader' =
                ap (λ r. r.0) result in
              (
                sym state
                    ∙ ap
                        (λ (d : ℕ). record reader {
                          current_stream = some start;
                          current_record_in_shard = d;
                        })
                        (sym zero_done)
                    ∙ ap (λ s. record reader { current_stream = some s }) same,
                λ chunks h.
                    let opened : FromShard total shard start reader.current_record_in_shard
                        (FromShards shards) chunks =
                      subst
                        (λ s.
                          FromShard total shard s reader.current_record_in_shard (FromShards shards)
                            chunks)
                        (sym same) h in
                    subst (λ s. Remaining s reader.current_record_in_shard (shard ∷ shards) chunks)
                      (sym shut)
                      (
                        bytes,
                        there,
                        subst (λ d. FromShard total shard start d (FromShards shards) chunks)
                            zero_done opened,
                      ),
              )
        ]
    | inr (opened, there) ↦
        let result = ok_injective (rw (there, open_current_shard) at e) in
        let same : opened ≡ stream = ap (λ r. r.1) result in
        let state : reader ≡ reader' = ap (λ r. r.0) result in
        (
          sym state ∙ ap (λ s. record reader { current_stream = s }) (there ∙ ap some same),
          λ chunks h.
              subst (λ s. Remaining s reader.current_record_in_shard (shard ∷ shards) chunks)
                (sym (there ∙ ap some same)) h,
        )
  ]

  -- The outcome of a call.
  abbrev pub Yields : ShardReader → List ShardInfo → Option ChunkRecord → ShardReader → Type 0
  Yields reader shards none reader' =
      Remaining reader.current_stream reader.current_record_in_shard shards []
  Yields reader shards (some chunk) reader' =
      (shards' : List ShardInfo) × (first : ℕ) × IsReading reader' shards' first
      × ((chunks : List ChunkRecord)
          → Remaining reader'.current_stream reader'.current_record_in_shard shards' chunks
          → Remaining reader.current_stream reader.current_record_in_shard shards (chunk ∷ chunks))

  pub record_step :
      (reader reader' : ShardReader) (shard : ShardInfo) (stream : Stream) (shards : List ShardInfo)
      (chunk : ChunkRecord) (index : ℕ)
      → index ≡ first_chunk_index shard + reader.current_record_in_shard
      → total ≡ reader.expected_total_chunk_count
      → Advances reader shard stream index chunk reader'
      → (chunks : List ChunkRecord)
      → Remaining reader'.current_stream reader'.current_record_in_shard (shard ∷ shards) chunks
      → FromShard total shard stream reader.current_record_in_shard
          (FromShards shards)
          (chunk ∷ chunks)
  record_step reader reader' shard stream shards chunk index place whole a chunks h =
      let there : FromShard total shard a.stream' (suc reader.current_record_in_shard)
          (FromShards shards) chunks =
        subst (λ d. Remaining (some a.stream') d (shard ∷ shards) chunks) a.next_record
          (subst (λ s. Remaining s reader'.current_record_in_shard (shard ∷ shards) chunks)
            a.next_stream h) in
      let next : first_chunk_index shard + suc reader.current_record_in_shard ≡ suc index =
        omega (arith, place) in
      record {
        own = chunk ∷ there.own;
        others = there.others;
        split = ap (λ l. chunk ∷ l) there.split;
        count = omega (arith, there.count);
        are_chunks =
            subst (λ i. AreChunks total shard i (chunk ∷ there.own)) place
              (
                subst (λ n. IsChunk n shard index chunk) (sym whole) a.is_chunk,
                subst (λ i. AreChunks total shard i there.own) next there.are_chunks,
              );
        whole = a.consumed ∙ ap (λ l. frame_bytes chunk ++ l) there.whole;
        payload = omega (
          arith,
          there.payload,
          a.moved,
          length-append (frame_bytes chunk) (frames_bytes there.own),
        );
        following = there.following;
      }
