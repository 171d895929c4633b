-- ===== src/Pipeline/Chunks.antt =====
-- The producer thread of pipeline/EncryptPipeline.cpp: the records of the archive stream are cut into
-- chunks. One full chunk is kept back, so that the last one can be marked final. How the records are cut does
-- not depend on what enqueue_planned_chunk answers, but that an exception or a refusal ends the thread: the
-- model lists the calls first, and then makes them up to that point.
pub mod Laws
pub mod Cut
use bseal_cpp.Base.{
  ℕ, zero, suc, ◌+◌, ◌-◌, ◌^◌, min, Bool, true, false, not, ◌&&◌, ltb, ◌==◌, length, take, drop,
  List, [], ◌∷◌, ◌++◌, Option, none, some, Result, ok, err, invalid_argument, reject_if, ◌>>=◌,
  ◌>>◌, if◌then◌else◌,
}
use bseal_cpp.Io.Writer.{
  ShardWriterOptions, PlannedChunkFrame, FramePlanner, new_planner, plan_chunk_frame,
}

unfoldable pub not_empty : List ℕ → Bool
not_empty bytes = ltb 0 (length bytes)

-- `archive_writer.bytes_produced()`
unfoldable pub total_size : List (List ℕ) → ℕ
total_size [] = 0
total_size (r ∷ rs) = length r + total_size rs

unfoldable pub expected_differs : ℕ → ℕ → Bool
expected_differs expected produced = ltb 0 expected && not (produced == expected)

-- What enqueue_planned_chunk is called with, from the chunk_index on.
pub record PlainChunk : Type 0 where
  pub index : ℕ
  pub bytes : List ℕ
  pub final_chunk : Bool

-- The locals of the producer, with the calls of enqueue_planned_chunk so far.
pub record Producer : Type 0 where
  pub current_chunk : List ℕ
  pub pending_full_chunk : Option (List ℕ)
  pub next_chunk_index : ℕ
  pub calls : List PlainChunk

unfoldable pub new_producer : Producer
new_producer = record {
  current_chunk = [];
  pending_full_chunk = none;
  next_chunk_index = 0;
  calls = [];
}

-- The call `enqueue_planned_chunk(..., next_chunk_index++, bytes, final_chunk, ...)`.
unfoldable pub add_call : Producer → List ℕ → Bool → Producer
add_call s bytes final = record s {
  next_chunk_index = s.next_chunk_index + 1;
  calls =
      s.calls ++ (record { index = s.next_chunk_index; bytes = bytes; final_chunk = final } ∷ []);
}

unfoldable pub flush_pending_as_non_final : Producer → Producer
flush_pending_as_non_final s = elim s.pending_full_chunk [
  | none ↦ s
  | some bytes ↦ add_call (record s { pending_full_chunk = none }) bytes false
]

-- After a copy into `current_chunk`.
unfoldable pub rotate_full : ℕ → Producer → Producer
rotate_full chunk_size s =
    let flushed = flush_pending_as_non_final s in
    if length s.current_chunk == chunk_size
    then record flushed { pending_full_chunk = some s.current_chunk; current_chunk = [] }
    else s

unfoldable pub space_left : ℕ → Producer → ℕ
space_left chunk_size s = chunk_size - length s.current_chunk

-- `while (offset < record.size())`, on the part of the record that is not copied yet. Every round
-- copies a byte at least, so that as many rounds as there are bytes are enough.
unfoldable pub append_rounds : ℕ → ℕ → Producer → List ℕ → Producer
append_rounds zero chunk_size s bytes = s
append_rounds (suc fuel) chunk_size s bytes =
    let to_copy = min (length bytes) (space_left chunk_size s) in
    let next =
      rotate_full chunk_size (record s { current_chunk = s.current_chunk ++ take to_copy bytes }) in
    let rest = append_rounds fuel chunk_size next (drop to_copy bytes) in
    if ltb 0 (length bytes) then rest else s

unfoldable pub append_record_bytes_to_chunks : ℕ → Producer → List ℕ → Producer
append_record_bytes_to_chunks chunk_size s bytes = append_rounds (length bytes) chunk_size s bytes

unfoldable pub append_records : ℕ → Producer → List (List ℕ) → Producer
append_records chunk_size s [] = s
append_records chunk_size s (r ∷ rs) =
    append_records chunk_size (append_record_bytes_to_chunks chunk_size s r) rs

-- The chunks after the last record, where no partial chunk is left, and in general.
unfoldable pub finish_pending : Bool → Producer → Producer
finish_pending emit_final_chunk_when_empty s = elim s.pending_full_chunk [
  | some bytes ↦ add_call (record s { pending_full_chunk = none }) bytes true
  | none ↦ if emit_final_chunk_when_empty then add_call s [] true else s
]

unfoldable pub finish_chunks : Bool → Producer → Producer
finish_chunks emit_final_chunk_when_empty s =
    if not_empty s.current_chunk
    then add_call (flush_pending_as_non_final s) s.current_chunk true
    else finish_pending emit_final_chunk_when_empty s

unfoldable pub checked_chunk_size : ℕ → Result ℕ
checked_chunk_size chunk_plain_size = do
  reject_if (chunk_plain_size == 0) "chunk_plain_size must be greater than zero"
  ok chunk_plain_size

-- A chunk in the queue.
pub record QueuedChunk : Type 0 where
  pub chunk : PlainChunk
  pub frame : PlannedChunkFrame

-- `accepts` is the answer of the queue to the push of the chunk with an index.
module _ (options : ShardWriterOptions) (tag_size : ℕ) (accepts : ℕ → Bool) where
  unfoldable pub enqueue_planned_chunk :
      FramePlanner → PlainChunk → Result (Option QueuedChunk × FramePlanner)
  unfolding plan_chunk_frame
  enqueue_planned_chunk planner chunk = do
    let plaintext_len = length chunk.bytes
    (planned, planner) ←
        plan_chunk_frame options false planner chunk.index plaintext_len plaintext_len tag_size
          chunk.final_chunk
    ok (
      if accepts chunk.index then some (record { chunk = chunk; frame = planned }) else none,
      planner,
    )

  -- The calls, and whether one was refused at which the producer returns: not at the final chunk.
  unfoldable pub make_calls : FramePlanner → List PlainChunk → Result (Bool × List QueuedChunk)
  unfolding enqueue_planned_chunk
  make_calls planner [] = ok (false, [])
  make_calls planner (chunk ∷ chunks) = do
    (answer, planner) ← enqueue_planned_chunk planner chunk
    elim answer [
      | none ↦ if chunk.final_chunk then make_calls planner chunks else ok (true, [])
      | some taken ↦ do (returned, more) ← make_calls planner chunks; ok (returned, taken ∷ more)
    ]

  -- The records are those that were taken before there was no other one or a thread had failed, which
  -- `failed` tells. The size of the plaintext is compared at the end with the one that was planned, if
  -- there is one.
  unfoldable pub produce : Bool → ℕ → Bool → ℕ → List (List ℕ) → Result (List QueuedChunk)
  unfolding make_calls new_planner
  produce failed chunk_plain_size emit_final expected records = do
    chunk_size ← checked_chunk_size chunk_plain_size
    let s = append_records chunk_size new_producer records
    let finished = finish_chunks emit_final s
    (returned, taken) ← make_calls new_planner (if failed then s.calls else finished.calls)
    reject_if (not failed && (not returned && expected_differs expected (total_size records)))
        "archive content changed during encryption"
    ok taken
