-- ===== src/Pipeline/Chunks/Cut.antt =====
-- What the producer queues.
use bseal_cpp.Base.{
  ℕ, ◌≤◌, ◌<◌, ◌≡◌, ◌≢◌, refl, sym, ap, ◌∙◌, subst, Bool, true, false, not, ◌&&◌, ltb, ◌==◌, length,
  map, List, Result, Result-cases, ok, err, reject_if, ◌>>=◌, ◌>>◌, length-append, [], ◌∷◌, ◌++◌,
  append_assoc, append-nil, none, Option-cases, arith, Bool-cases, inl, inr, ◌⊎◌, length_zero,
  ltb→lt, ltb_false→le,
}
use bseal_cpp.Pipeline.Chunks.{
  PlainChunk, Producer, new_producer, add_call, flush_pending_as_non_final, append_records,
  finish_pending, finish_chunks, checked_chunk_size, QueuedChunk, enqueue_planned_chunk, make_calls,
  produce, not_empty, total_size, expected_differs,
}
use bseal_cpp.Io.Writer.{
  ShardWriterOptions, PlannedChunkFrame, FramePlanner, new_planner, plan_chunk_frame, plan_frames,
}
use bseal_cpp.Pipeline.Chunks.Laws.{
  concat, plaintext, Full, pending_bytes, PendingFull, Produced, plaintext-append, flushed,
  all_records,
}

-- A stream in chunks: no chunk, where none is asked for on an empty stream, or full chunks that are not
-- final, numbered from 0 on, and a final one with the next number, which is not larger, and not
-- empty unless the stream is.
pub Cut : ℕ → Bool → List ℕ → List PlainChunk → Type 0
Cut size emit stream chunks =
    (plaintext chunks ≡ stream)
    × (((chunks ≡ []) × (stream ≡ []) × (emit ≡ false))
        ⊎ ((full : List PlainChunk) × (last : PlainChunk) × (chunks ≡ full ++ (last ∷ []))
            × Full size 0 full
            × (last.index ≡ length full)
            × (last.final_chunk ≡ true)
            × (length last.bytes ≤ size)
            × (stream ≢ [] → 0 < length last.bytes)))

snoc_text :
    (cs : List PlainChunk) (c : PlainChunk) → plaintext (cs ++ (c ∷ [])) ≡ plaintext cs ++ c.bytes
snoc_text cs c = plaintext-append cs (c ∷ []) ∙ ap (λ t. plaintext cs ++ t) (append-nil c.bytes)

pending_finished :
    (size : ℕ) (emit : Bool) (stream : List ℕ) (s : Producer)
    → 0 < size
    → Produced size stream s
    → s.current_chunk ≡ []
    → Cut size emit stream (finish_pending emit s).calls
unfolding Cut finish_pending add_call
pending_finished size emit stream s pos p nothing = elim (Option-cases s.pending_full_chunk) [
  | inr (b, e) ↦
      let full : length b ≡ size = subst (PendingFull size) e p.pending in
      rw (e, finish_pending)
        (
          snoc_text s.calls (record { index = s.next_chunk_index; bytes = b; final_chunk = true })
              ∙ ap (λ t. plaintext s.calls ++ t) (sym (append-nil b))
              ∙ sym (p.bytes ∙ rw (e, nothing) refl),
          inr (
            s.calls,
            record { index = s.next_chunk_index; bytes = b; final_chunk = true },
            refl,
            p.full,
            p.count,
            refl,
            omega (arith, full),
            λ h. omega (arith, full, pos),
          ),
        )
  | inl e ↦
      let none_queued : s.calls ≡ [] = p.kept e in
      let empty : stream ≡ [] = p.bytes ∙ rw (e, nothing, none_queued) refl in
      empty_finished emit e none_queued empty
]
  where
    empty_finished :
        (emit : Bool)
        → s.pending_full_chunk ≡ none
        → s.calls ≡ []
        → stream ≡ []
        → Cut size emit stream (finish_pending emit s).calls
    empty_finished true e q empty =
        rw (e, q, finish_pending)
          (
            sym empty,
            inr (
              [],
              record { index = s.next_chunk_index; bytes = []; final_chunk = true },
              refl,
              tt,
              p.count ∙ ap length q,
              refl,
              omega arith,
              λ h. absurd (h empty),
            ),
          )
    empty_finished false e q empty = rw (e, q, finish_pending) (sym empty, inl (refl, empty, refl))

finished :
    (size : ℕ) (emit : Bool) (stream : List ℕ) (s : Producer)
    → 0 < size
    → Produced size stream s
    → Cut size emit stream (finish_chunks emit s).calls
unfolding Cut finish_chunks not_empty add_call
finished size emit stream s pos p = elim (Bool-cases (ltb 0 (length s.current_chunk))) [
  | inl y ↦
      let (full, count, text) = flushed size s p.full p.count p.pending in
      let last : PlainChunk = record {
        index = (flush_pending_as_non_final s).next_chunk_index;
        bytes = s.current_chunk;
        final_chunk = true;
      } in
      let current = p.current in
      rw (y, finish_chunks)
        (
          snoc_text (flush_pending_as_non_final s).calls last
              ∙ ap {A = List ℕ} {B = List ℕ} (λ t. t ++ s.current_chunk) text
              ∙ append_assoc (plaintext s.calls) (pending_bytes s.pending_full_chunk)
                  s.current_chunk
              ∙ sym p.bytes,
          inr (
            (flush_pending_as_non_final s).calls,
            last,
            refl,
            full,
            count,
            refl,
            omega (arith, current),
            λ h. ltb→lt 0 (length s.current_chunk) y,
          ),
        )
  | inr n ↦
      let nothing : s.current_chunk ≡ [] =
        length_zero s.current_chunk (omega (arith, ltb_false→le 0 (length s.current_chunk) n)) in
      rw (n, finish_chunks) (pending_finished size emit stream s pos p nothing)
]

start : (size : ℕ) → 0 < size → Produced size [] new_producer
unfolding new_producer
start size pos = record {
  bytes = refl;
  full = tt;
  count = refl;
  pending = tt;
  current = pos;
  kept = λ h. refl;
}

length-concat : (records : List (List ℕ)) → length (concat records) ≡ total_size records
unfolding total_size
length-concat [] = refl
length-concat (r ∷ rs) = omega (arith, length-append r (concat rs), length-concat rs)

-- What plan_chunk_frame is called with for a chunk, and the chunks with their frames.
abbrev pub to_plan : PlainChunk → ℕ × ℕ × Bool
to_plan chunk = (chunk.index, length chunk.bytes, chunk.final_chunk)

abbrev pub with_frames : List PlainChunk → List PlannedChunkFrame → List QueuedChunk
with_frames (chunk ∷ chunks) (frame ∷ frames) =
    record { chunk = chunk; frame = frame } ∷ with_frames chunks frames
with_frames _ _ = []

-- The outcome of the calls that were all answered with yes.
abbrev all_in : List PlainChunk → List PlannedChunkFrame → Result (Bool × List QueuedChunk)
all_in chunks frames = ok (false, with_frames chunks frames)

all_taken :
    (options : ShardWriterOptions) (tag_size : ℕ) (accepts : ℕ → Bool) (planner : FramePlanner)
    (chunks : List PlainChunk)
    → ((i : ℕ) → accepts i ≡ true)
    → make_calls options tag_size accepts planner chunks
      ≡ (plan_frames options tag_size planner (map to_plan chunks) >>= all_in chunks)
unfolding make_calls enqueue_planned_chunk plan_frames
all_taken options tag_size accepts planner [] takes = refl
all_taken options tag_size accepts planner (chunk ∷ chunks) takes =
    elim (Result-cases (
      plan_chunk_frame options false planner chunk.index (length chunk.bytes) (length chunk.bytes)
        tag_size chunk.final_chunk)) [
          | inr (thrown, q) ↦ rw (q, make_calls, enqueue_planned_chunk, plan_frames) refl
          | inl ((planned, planner'), q) ↦
              rw
                (
                  q,
                  takes chunk.index,
                  all_taken options tag_size accepts planner' chunks takes,
                  make_calls,
                  enqueue_planned_chunk,
                  plan_frames,
                )
                (both planned (plan_frames options tag_size planner' (map to_plan chunks)))
        ]
  where
    both :
        (planned : PlannedChunkFrame) (rest : Result (List PlannedChunkFrame))
        → ((rest >>= all_in chunks) >>= λ r.
            ok (r.0, record { chunk = chunk; frame = planned } ∷ r.1))
          ≡ ((rest >>= λ frames. ok (planned ∷ frames)) >>= all_in (chunk ∷ chunks))
    both planned (ok frames) = refl
    both planned (err thrown) = refl

-- With a chunk size above 0, the planned size right or not given, and a queue that takes every chunk while
-- no thread fails: the producer plans the frames of some chunks one after the other, and ends with the
-- exception that plan_chunk_frame throws, or has queued these chunks with their frames. The chunks hold the
-- bytes of the records, in order: full chunks that are not final, numbered from 0 on, and then a final one,
-- which is not larger, and not empty unless there are no bytes. Without bytes there is an empty final
-- chunk if that is asked for, and no chunk otherwise.
pub produce_cuts :
    (options : ShardWriterOptions) (tag_size : ℕ) (accepts : ℕ → Bool) (size : ℕ) (emit : Bool)
    (expected : ℕ) (records : List (List ℕ))
    → 0 < size
    → expected ≡ 0 ⊎ expected ≡ length (concat records)
    → ((i : ℕ) → accepts i ≡ true)
    → (chunks : List PlainChunk) × Cut size emit (concat records) chunks
      × (produce options tag_size accepts false size emit expected records ≡ (
          plan_frames options tag_size new_planner (map to_plan chunks) >>= λ frames.
          ok (with_frames chunks frames)))
unfolding produce checked_chunk_size expected_differs
produce_cuts options tag_size accepts size emit expected records pos right takes =
    let p = all_records size [] records new_producer pos (start size pos) in
    let positive : (size == 0) ≡ false = ground arith in
    let same : expected_differs expected (total_size records) ≡ false =
      ground (arith, length-concat records) in
    let chunks = (finish_chunks emit (append_records size new_producer records)).calls in
    let made = all_taken options tag_size accepts new_planner chunks takes in
    (
      chunks,
      finished size emit (concat records) (append_records size new_producer records) pos p,
      rw (positive, made, same, produce, checked_chunk_size)
          (collected (plan_frames options tag_size new_planner (map to_plan chunks)) chunks),
    )
  where
    collected :
        (frames : Result (List PlannedChunkFrame)) (chunks : List PlainChunk)
        → ((frames >>= all_in chunks) >>= λ r.
            (reject_if (not r.0 && false) "archive content changed during encryption" >> ok r.1))
          ≡ (frames >>= λ fs. ok (with_frames chunks fs))
    collected (ok fs) chunks = refl
    collected (err thrown) chunks = refl
