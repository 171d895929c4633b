-- ===== src/Tests/Threads.antt =====
-- The queue, the producer and the ordered writer of src/pipeline.
use bseal_cpp.Base.{
  ◌<◌, ℕ, ◌≤◌, ◌≡◌, refl, inr, Bool, map, ◌>>=◌, true, false, ◌==◌, length, List, [], ◌∷◌, ◌++◌,
  none, some, Result, ok, arith, if◌then◌else◌,
}
use mathlib.Core.List.{Perm}
use bseal_cpp.Pipeline.Queue.{WorkQueue, new_queue, push, pop, close, Runs}
use bseal_cpp.Pipeline.Queue.Laws.{queue_sound, queue_drained}
use bseal_cpp.Pipeline.Chunks.{PlainChunk, produce}
use bseal_cpp.Pipeline.Chunks.Laws.{concat}
use bseal_cpp.Pipeline.Chunks.Cut.{Cut, to_plan, with_frames, produce_cuts}
use bseal_cpp.Io.Writer.{new_planner, plan_frames}
use bseal_cpp.Tests.Writer.{five_options}
use bseal_cpp.Pipeline.Order.{Ordered, take_index, flush, receive, receive_all}
use bseal_cpp.Pipeline.Order.Complete.{count, in_order, order_completes}
use bseal_cpp.Pipeline.Order.Laws.{Numbered, feed, order_restored}

-- A sink that keeps what it is given.
abbrev keep : List ℕ → ℕ × ℕ → Result (List ℕ)
keep written (i, c) = ok (written ++ (c ∷ []))

-- What the thread does at the end.
abbrev tidy : List ℕ → Result (List ℕ)
tidy written = ok (99 ∷ written)

abbrev arrivals : List (ℕ × ℕ)
arrivals = (1, 20) ∷ (2, 30) ∷ (0, 10) ∷ []

abbrev written : Ordered ℕ (List ℕ)
written = record { pending = []; next_expected_index = 3; behind = 99 ∷ 10 ∷ 20 ∷ 30 ∷ [] }

received :
    receive_all keep tidy false
      (record { pending = []; next_expected_index = 0; behind = [] })
      arrivals
    ≡ ok written
unfolding receive_all receive flush take_index
received = refl

order_restored_example :
    (out : List (ℕ × ℕ)) × Perm arrivals (out ++ written.pending)
    × Numbered 0 out
    × ((feed keep [] out >>= tidy) ≡ ok (99 ∷ 10 ∷ 20 ∷ 30 ∷ []))
    × (false ≡ false → written.pending ≡ [])
order_restored_example = order_restored keep tidy false [] arrivals written received

abbrev records : List (List ℕ)
records = (1 ∷ 2 ∷ 3 ∷ []) ∷ (4 ∷ 5 ∷ []) ∷ []

abbrev always : ℕ → Bool
always i = true

produce_cuts_example :
    (chunks : List PlainChunk) × Cut 2 true (concat records) chunks
    × (produce five_options 16 always false 2 true 5 records ≡ (
        plan_frames five_options 16 new_planner (map to_plan chunks) >>= λ frames.
        ok (with_frames chunks frames)))
produce_cuts_example =
    produce_cuts five_options 16 always 2 true 5 records (omega arith) (inr refl) (λ _. refl)

abbrev one_held : WorkQueue ℕ
one_held = record { capacity = 1; closed = false; items = 7 ∷ [] }

abbrev none_held : WorkQueue ℕ
none_held = record { capacity = 1; closed = false; items = [] }

one_in : Runs {A = ℕ} (new_queue 0) (7 ∷ []) [] one_held
unfolding new_queue push
one_in = Runs.pushes 7 Runs.starts refl

one_out : Runs {A = ℕ} (new_queue 0) (7 ∷ []) (7 ∷ []) (close none_held)
unfolding pop
one_out = Runs.closes (Runs.pops 7 one_in refl)

queue_sound_example :
    (7 ∷ [] ≡ [] ++ one_held.items) × (length one_held.items ≤ (if 0 == 0 then 1 else 0))
queue_sound_example = queue_sound 0 one_held (7 ∷ []) [] one_in

closed_empty : pop (close none_held) ≡ some (none, close none_held)
unfolding pop close
closed_empty = refl

queue_drained_example : (one_held.items ≡ one_held.items) × ((close none_held).closed ≡ true)
queue_drained_example =
    queue_drained 0 (close none_held) (close none_held) (7 ∷ []) (7 ∷ []) one_out closed_empty

arrivals_once : (i : ℕ) → count i arrivals ≤ 1
arrivals_once i = ground arith

arrivals_each : (i : ℕ) → i < 3 → count i arrivals ≡ 1
arrivals_each i h = ground arith

order_completes_example :
    receive_all keep tidy true
      (record { pending = []; next_expected_index = 0; behind = [] })
      arrivals
    ≡ (feed keep [] (in_order 3 0 arrivals) >>= λ b.
        tidy b >>= λ t. ok (record { pending = []; next_expected_index = 3; behind = t }))
order_completes_example = order_completes keep tidy true [] arrivals arrivals_once arrivals_each

-- A consumer that keeps the bytes.
abbrev keep_bytes : List ℕ → List ℕ → Result (List ℕ)
keep_bytes kept bytes = ok (kept ++ bytes)

abbrev two_parts : List (ℕ × List ℕ)
two_parts = (1, 20 ∷ []) ∷ (0, 10 ∷ 11 ∷ []) ∷ []

abbrev consumed : Ordered (List ℕ) (List ℕ × ℕ)
consumed = record { pending = []; next_expected_index = 2; behind = (99 ∷ 10 ∷ 11 ∷ 20 ∷ [], 3) }
