-- ===== src/Io/Reader/Run.antt =====
-- The run of a ShardReader (io/ShardReader.cpp) to the end of its archive, by reader_main
-- (pipeline/DecryptPipeline.cpp).
use bseal_cpp.Base.{
  ℕ, zero, suc, ◌+◌, ◌^◌, ◌≤◌, ◌<◌, ◌≡◌, refl, sym, subst, ◌∙◌, ap, false, not, ◌&&◌, leb, leb→le,
  ◌==◌, Bool-cases, inl, inr, length, drop, drop-get_elem?, drop-get_elem?-none, get_elem?,
  Option-cases, List, [], ◌∷◌, Option, none, some, ok, reject_if, Result-cases, then-eq-ok,
  ok_injective, arith,
}
use bseal_cpp.Io.Stream.{Stream}
use bseal_cpp.Io.Discover.{ShardInfo, first_chunk_index, chunk_count}
use bseal_cpp.Io.Validate.Complete.{Ranges}
use bseal_cpp.Io.Reader.{
  ChunkRecord, ShardReader, read_record, end_of_shards,
  close_current_shard_and_check_trailing_garbage, open_current_shard, read_loop,
  read_next_chunk_record, read_records,
}
use bseal_cpp.Io.Reader.Record.{read_record_lem}
use bseal_cpp.Io.Reader.Remaining.{
  FromShard, FromShards, Remaining, Within, IsReading, close_lem, open_lem, Yields, record_step,
}

more_left : (count done : ℕ) → leb count done ≡ false → suc done ≤ count
more_left count done e = ground arith

nothing_more :
    (outcome : Option ChunkRecord) (reader reader' : ShardReader)
    → end_of_shards reader ≡ ok (outcome, reader')
    → outcome ≡ none
unfolding end_of_shards
nothing_more outcome reader reader' e =
    let (_, e) =
      then-eq-ok
        (reject_if (not (length reader.seen_chunk_indices == reader.expected_total_chunk_count)) _)
        _ e in
    let (_, e) =
      then-eq-ok
        (reject_if (not (reader.expected_total_chunk_count == 0) && not reader.saw_final_chunk) _) _
        e in
    ap (λ r. r.0) (sym (ok_injective e))

drop_behind :
    (xs : List ShardInfo) (i : ℕ) (x : ShardInfo) (ys : List ShardInfo)
    → drop i xs ≡ x ∷ ys
    → drop (suc i) xs ≡ ys
drop_behind [] zero x ys e = cc
drop_behind [] (suc i) x ys e = cc
drop_behind (z ∷ xs) zero x ys e = cc
drop_behind (z ∷ xs) (suc i) x ys e = drop_behind xs i x ys e

module _ (files : List ℕ → Option (List ℕ)) (total : ℕ) where
  no_shard_left : (state : Option Stream) (done : ℕ) → Remaining files total state done [] []
  no_shard_left none done = refl
  no_shard_left (some stream) done = refl

  -- The statement of the loop's lemma, for some rounds.
  Runs : ℕ → Type 0
  Runs fuel =
      (reader reader' : ShardReader) (shards : List ShardInfo) (first : ℕ)
      (outcome : Option ChunkRecord)
      → IsReading files total reader shards first
      → read_loop files fuel reader ≡ ok (outcome, reader')
      → Yields files total reader shards outcome reader'

  Yields-before :
      (reader opened reader' : ShardReader) (shard : ShardInfo) (shards more : List ShardInfo)
      (outcome : Option ChunkRecord)
      → ((chunks : List ChunkRecord)
          → Remaining files total opened.current_stream opened.current_record_in_shard more chunks
          → Remaining files total reader.current_stream reader.current_record_in_shard shards
              chunks)
      → Yields files total opened more outcome reader'
      → Yields files total reader shards outcome reader'
  Yields-before reader opened reader' shard shards more none back y = back [] y
  Yields-before reader opened reader' shard shards more (some chunk) back (left, first, i, forth) =
      (left, first, i, λ chunks h. back (chunk ∷ chunks) (forth chunks h))

  closed_step :
      (fuel : ℕ) (reader opened closed reader' : ShardReader) (shard : ShardInfo) (stream : Stream)
      (shards : List ShardInfo) (first : ℕ) (outcome : Option ChunkRecord)
      → Runs fuel
      → drop (suc opened.current_shard_pos) opened.shards ≡ shards
      → opened.expected_total_chunk_count ≡ total
      → Ranges (first + chunk_count shard) total shards
      → opened.current_record_in_shard ≡ chunk_count shard
      → ((chunks : List ChunkRecord)
          → FromShard total shard stream opened.current_record_in_shard
              (FromShards files total shards)
              chunks
          → Remaining files total reader.current_stream reader.current_record_in_shard
              (shard ∷ shards)
              chunks)
      → close_current_shard_and_check_trailing_garbage opened shard stream ≡ ok closed
      → read_loop files fuel closed ≡ ok (outcome, reader')
      → Yields files total reader (shard ∷ shards) outcome reader'
  unfolding Runs
  closed_step fuel reader opened closed reader' shard stream shards first outcome ih left whole
        ranges all back c e =
      let (state, finish) = close_lem files total opened closed shard stream shards all c in
      let next : ShardReader = record opened {
        current_stream = none;
        current_shard_pos = opened.current_shard_pos + 1;
        current_record_in_shard = 0;
      } in
      let pos : opened.current_shard_pos + 1 ≡ suc opened.current_shard_pos = omega arith in
      let reading : IsReading files total next shards (first + chunk_count shard) = record {
        left = ap (λ p. drop p opened.shards) pos ∙ left;
        total_is = whole;
        ranges = ranges;
        within = starts shards;
        closed = λ _. refl;
      } in
      Yields-before reader next reader' shard (shard ∷ shards) shards outcome
        (λ chunks h. back chunks (finish chunks h))
        (ih next reader' shards (first + chunk_count shard) outcome reading
          (subst (λ r. read_loop files fuel r ≡ ok (outcome, reader')) state e))
    where
      starts : (shards : List ShardInfo) → Within files total 0 shards
      starts [] = refl
      starts (shard ∷ shards) = omega arith

  read_step :
      (reader opened reader' : ShardReader) (shard : ShardInfo) (stream : Stream)
      (shards : List ShardInfo) (first : ℕ) (outcome : Option ChunkRecord)
      → drop opened.current_shard_pos opened.shards ≡ shard ∷ shards
      → opened.expected_total_chunk_count ≡ total
      → Ranges first total (shard ∷ shards)
      → suc opened.current_record_in_shard ≤ chunk_count shard
      → ((chunks : List ChunkRecord)
          → FromShard total shard stream opened.current_record_in_shard
              (FromShards files total shards)
              chunks
          → Remaining files total reader.current_stream reader.current_record_in_shard
              (shard ∷ shards)
              chunks)
      → read_record opened shard stream ≡ ok (outcome, reader')
      → Yields files total reader (shard ∷ shards) outcome reader'
  read_step reader opened reader' shard stream shards first outcome left whole ranges more back e =
      let small : first_chunk_index shard + opened.current_record_in_shard < 2 ^ 64 =
        omega (arith, ranges.0, ranges.1, more) in
      let (chunk, is_some, a) = read_record_lem opened reader' shard stream outcome small e in
      let reading : IsReading files total reader' (shard ∷ shards) first = record {
        left = rw (a.same_pos, a.same_shards) left;
        total_is = a.same_total ∙ whole;
        ranges = ranges;
        within = omega (arith, a.next_record, more);
        closed = λ h. cc (a.next_stream);
      } in
      subst (λ o. Yields files total reader (shard ∷ shards) o reader') (sym is_some)
        (
          shard ∷ shards,
          first,
          reading,
          λ chunks h. back (chunk ∷ chunks) (
              record_step files total opened reader' shard stream shards chunk
                (first_chunk_index shard + opened.current_record_in_shard) refl (sym whole) a chunks
                h),
        )

  loop_shard :
      (fuel : ℕ) (reader reader' : ShardReader) (shard : ShardInfo) (shards : List ShardInfo)
      (first : ℕ) (outcome : Option ChunkRecord)
      → Runs fuel
      → get_elem? reader.shards reader.current_shard_pos ≡ some shard
      → IsReading files total reader (shard ∷ shards) first
      → read_loop files (suc fuel) reader ≡ ok (outcome, reader')
      → Yields files total reader (shard ∷ shards) outcome reader'
  unfolding read_loop
  loop_shard fuel reader reader' shard shards first outcome ih at i e =
      elim (Result-cases (open_current_shard files reader shard)) [
        | inr (thrown, o) ↦ cc (rw (at, o, read_loop) at e)
        | inl ((opened, stream), o) ↦
            let (state, back) = open_lem files total reader opened shard stream shards i.closed o in
            let pos = ap (λ r. r.current_shard_pos) state in
            let all = ap (λ r. r.shards) state in
            let record_is = ap (λ r. r.current_record_in_shard) state in
            let total_is = ap (λ r. r.expected_total_chunk_count) state in
            let left : drop opened.current_shard_pos opened.shards ≡ shard ∷ shards =
              rw (pos, all) i.left in
            let behind : drop (suc opened.current_shard_pos) opened.shards ≡ shards =
              drop_behind opened.shards opened.current_shard_pos shard shards left in
            let whole = total_is ∙ i.total_is in
            let back' =
              λ (chunks : List ChunkRecord)
                  (h : FromShard total shard stream opened.current_record_in_shard
                    (FromShards files total shards) chunks).
                back chunks (
                  subst (λ d. FromShard total shard stream d (FromShards files total shards) chunks)
                    record_is h) in
            elim (Bool-cases (leb (chunk_count shard) opened.current_record_in_shard)) [
              | inr more ↦
                  read_step reader opened reader' shard stream shards first outcome left whole
                    i.ranges (more_left _ _ more) back' (rw (at, o, more, read_loop) at e)
              | inl full ↦
                  elim (Result-cases
                    (close_current_shard_and_check_trailing_garbage opened shard stream)) [
                      | inr (thrown, c) ↦ cc (rw (at, o, full, c, read_loop) at e)
                      | inl (closed, c) ↦
                          closed_step fuel reader opened closed reader' shard stream shards first
                            outcome ih behind whole i.ranges.2
                            (omega (arith, leb→le _ _ full, record_is, i.within)) back' c
                            (rw (at, o, full, c, read_loop) at e)
                    ]
            ]
      ]

  loop_lem : (fuel : ℕ) → Runs fuel
  unfolding read_loop Runs
  loop_lem zero reader reader' shards first outcome i e = cc
  loop_lem (suc fuel) reader reader' shards first outcome i e =
      elim (Option-cases (get_elem? reader.shards reader.current_shard_pos)) [
        | inl past ↦
            let done = nothing_more outcome reader reader' (rw (past, read_loop) at e) in
            let none_left : shards ≡ [] =
              sym i.left ∙ drop-get_elem?-none reader.shards reader.current_shard_pos past in
            subst (λ o. Yields files total reader shards o reader') (sym done)
              (subst
                (λ ss.
                  Remaining files total reader.current_stream reader.current_record_in_shard ss [])
                (sym none_left)
                (no_shard_left reader.current_stream reader.current_record_in_shard))
        | inr (shard, at) ↦
            let here : shards ≡ shard ∷ drop (suc reader.current_shard_pos) reader.shards =
              sym i.left ∙ drop-get_elem? reader.shards reader.current_shard_pos shard at in
            subst (λ ss. Yields files total reader ss outcome reader') (sym here)
              (loop_shard fuel reader reader' shard
                (drop (suc reader.current_shard_pos) reader.shards) first outcome (loop_lem fuel) at
                (subst (λ ss. IsReading files total reader ss first) here i) e)
      ]

  pub records_lem :
      (fuel : ℕ) (reader : ShardReader) (shards : List ShardInfo) (first : ℕ)
      (chunks : List ChunkRecord)
      → IsReading files total reader shards first
      → read_records files fuel reader ≡ ok chunks
      → Remaining files total reader.current_stream reader.current_record_in_shard shards chunks
  unfolding read_records read_next_chunk_record Runs
  records_lem zero reader shards first chunks i e = cc
  records_lem (suc fuel) reader shards first chunks i e =
      elim (Result-cases (read_loop files (suc (length reader.shards)) reader)) [
        | inr (thrown, r) ↦ cc (rw (r, read_records) at e)
        | inl ((none, reader'), r) ↦
            subst
              (Remaining files total reader.current_stream reader.current_record_in_shard shards)
              (ok_injective (rw (r, read_records) at e))
              (loop_lem (suc (length reader.shards)) reader reader' shards first none i r)
        | inl ((some chunk, reader'), r) ↦
            let (left, from, j, forth) =
              loop_lem (suc (length reader.shards)) reader reader' shards first (some chunk) i r in
            elim (Result-cases (read_records files fuel reader')) [
              | inr (thrown, s) ↦ cc (rw (r, s, read_records) at e)
              | inl (more, s) ↦
                  subst
                    (Remaining files total reader.current_stream reader.current_record_in_shard
                      shards)
                    (ok_injective (rw (r, s, read_records) at e))
                    (forth more (records_lem fuel reader' left from more j s))
            ]
      ]
