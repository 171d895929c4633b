-- ===== src/Io/Writer/Agreement.antt =====
-- The frames that ShardWriter::plan_chunk_frame (io/ShardWriter.cpp) places stand where plan_shards
-- (app/CoreApi.cpp) has planned them.
use bseal_cpp.Base.{
  ℕ, suc, ◌+◌, ◌-◌, ◌^◌, ◌%◌, ◌≤◌, ◌<◌, ◌≡◌, refl, sym, subst, ◌∙◌, ap, true, false, lt→ltb,
  le→ltb_false, List, [], ◌∷◌, ◌++◌, map, ok, arith,
}
use bseal_cpp.App.Plan.{ShardPlan, PlanParams, plan_shards}
use bseal_cpp.App.Plan.Laws.{
  PlanFits, frame_len, frames_len, frame_size, Covers, plan_shards-Covers,
}
use bseal_cpp.Io.Writer.{
  ShardWriterOptions, ShardWritePosition, PlannedChunkFrame, FramePlanner, new_planner, plan_frames,
}
use bseal_cpp.Io.Writer.Planner.{Matches, opens, shard_of, offset_of, planner_after}
use bseal_cpp.Io.Writer.Placed.{
  planned_chunks, places_in, places, position_of, frames_from, plan_frames-frames_from, in_shard,
}

-- The next chunk is the first of a shard.
record Enters (p : PlanParams) (planner : FramePlanner) (shard chunk : ℕ) : Type 0 where
  right_shard : shard_of p planner chunk ≡ shard % 2 ^ 32
  at_start : offset_of p planner chunk ≡ 0

Covers-le :
    (p : PlanParams) (shard chunk : ℕ) (plans : List ShardPlan)
    → Covers p shard chunk plans
    → chunk ≤ p.global_chunk_count
Covers-le p shard chunk [] c = omega (arith, c)
Covers-le p shard chunk (plan ∷ plans) c =
    omega (arith, Covers-le p (shard + 1) (chunk + plan.chunk_count) plans c.6)

Enters-next :
    (p : PlanParams) (after : FramePlanner) (shard chunk payload : ℕ)
    → PlanFits p
    → after.planned_shard_index ≡ shard % 2 ^ 32
    → after.planned_payload_offset ≡ payload
    → p.max_shard_payload_len < payload + frame_len p chunk
    → Enters p after (shard + 1) chunk
Enters-next p after shard chunk payload f s o full =
    let (_, small) = frame_size p chunk f in
    let opened : opens p after chunk ≡ true =
      lt→ltb (p.max_shard_payload_len - frame_len p chunk) after.planned_payload_offset
        (omega (arith, full, o, small)) in
    record { right_shard = rw opened (omega (arith, s)); at_start = rw opened refl }

head_place :
    (s s' o c c' : ℕ) (l l' : List ShardWritePosition)
    → s ≡ s'
    → o ≡ 0
    → c' ≡ c
    → l ≡ l'
    → record { shard_index = s; record_offset = o; chunk_index = c } ∷ l
      ≡ record { shard_index = s'; record_offset = 0; chunk_index = c' } ∷ l'
head_place s s' o c c' l l' a b d e = rw (a, b, d, e) refl

same_places :
    (p : PlanParams) (s s' c c' n n' : ℕ) (l : List ShardWritePosition)
    → s ≡ s'
    → c ≡ c'
    → n ≡ n'
    → places_in p s c 0 n ++ l ≡ places_in p s' c' 0 n' ++ l
same_places p s s' c c' n n' l a b d = rw (a, b, d) refl

-- The shard that begins with the next chunk has m more.
one_shard :
    (p : PlanParams) (planner : FramePlanner) (shard chunk m more : ℕ)
    → PlanFits p
    → Enters p planner shard chunk
    → frames_len p chunk (suc m) ≤ p.max_shard_payload_len
    → (after : FramePlanner) × (after.planned_shard_index ≡ shard % 2 ^ 32)
      × (after.planned_payload_offset ≡ frames_len p chunk (suc m))
      × (map position_of (frames_from p planner chunk (suc m + more))
          ≡ places_in p (shard % 2 ^ 32) chunk 0 (suc m)
            ++ map position_of (frames_from p after (chunk + suc m) more))
unfolding frames_from
one_shard p planner shard chunk m more f enters h =
    let zeroth : chunk + 0 ≡ chunk = omega arith in
    let first : chunk + 1 ≡ suc chunk = omega arith in
    let count : 1 + m ≡ suc m = omega arith in
    let last : chunk + 1 + m ≡ chunk + suc m = omega arith in
    let split : suc m + more ≡ suc (m + more) = omega arith in
    let len : frames_len p chunk 1 ≡ frame_len p chunk = omega (arith, ap (frame_len p) zeroth) in
    let (after, s, o, e) =
      in_shard p (planner_after p planner chunk) chunk 1 m more (shard % 2 ^ 32) f
        enters.right_shard (omega (arith, enters.at_start, len))
        (subst (λ k. frames_len p chunk k ≤ p.max_shard_payload_len) (sym count) h) in
    (
      after,
      s,
      o ∙ ap (frames_len p chunk) count,
      ap (λ k. map position_of (frames_from p planner chunk k)) split
          ∙ head_place (shard_of p planner chunk) (shard % 2 ^ 32) (offset_of p planner chunk) chunk
              (chunk + 0)
              (map position_of
                (frames_from p (planner_after p planner chunk) (suc chunk) (m + more)))
              (places_in p (shard % 2 ^ 32) chunk 1 m
                ++ map position_of (frames_from p after (chunk + suc m) more))
              enters.right_shard enters.at_start zeroth
              (ap
                  (λ i.
                    map position_of (frames_from p (planner_after p planner chunk) i (m + more)))
                  (sym first)
                ∙ e
                ∙ ap
                    (λ i.
                      places_in p (shard % 2 ^ 32) chunk 1 m
                      ++ map position_of (frames_from p after i more))
                    last),
    )

plans_places :
    (plans : List ShardPlan) (p : PlanParams) (planner : FramePlanner) (shard chunk left : ℕ)
    → PlanFits p
    → chunk + left ≡ p.global_chunk_count
    → (chunk < p.global_chunk_count → Enters p planner shard chunk)
    → Covers p shard chunk plans
    → map position_of (frames_from p planner chunk left) ≡ places p plans
unfolding frames_from
plans_places [] p planner shard chunk left f whole enters c =
    let none_left : left ≡ 0 = omega (arith, whole, c) in rw none_left refl
plans_places (plan ∷ plans) p planner shard chunk left f whole enters c =
    let inside = Covers-le p (shard + 1) (chunk + plan.chunk_count) plans c.6 in
    let m = plan.chunk_count - 1 in
    let more = left - plan.chunk_count in
    let count : plan.chunk_count ≡ suc m = omega (arith, c.2) in
    let split : left ≡ suc m + more = omega (arith, whole, inside, c.2) in
    let next : chunk + suc m ≡ chunk + plan.chunk_count = omega (arith, c.2) in
    let (after, s, o, e) =
      one_shard p planner shard chunk m more f (enters (omega (arith, inside, c.2))) (
        subst (λ k. frames_len p chunk k ≤ p.max_shard_payload_len) count
          (omega (arith, c.3, c.4))) in
    let rest =
      plans_places plans p after (shard + 1) (chunk + plan.chunk_count) more f
        (omega (arith, whole, inside))
        (λ h.
          Enters-next p after shard (chunk + plan.chunk_count) plan.payload_len f s
            (o ∙ ap (frames_len p chunk) (sym count) ∙ sym c.3) (c.5 h))
        c.6 in
    ap (λ k. map position_of (frames_from p planner chunk k)) split
    ∙ e
    ∙ ap (λ l. places_in p (shard % 2 ^ 32) chunk 0 (suc m) ++ l)
        (ap (λ i. map position_of (frames_from p after i more)) next ∙ rest)
    ∙ same_places p (shard % 2 ^ 32) plan.shard_index chunk plan.first_chunk_index (suc m)
        plan.chunk_count (places p plans) (sym c.0) (sym c.1) (sym count)

-- For a plan that fits and a writer with its options, a tag of 16 bytes and chunks of less than 2 ^ 32
-- bytes: plan_shards succeeds, the writer's planner accepts all chunks of the archive in order, and it
-- gives each the shard, and the offset in the shard, that the plan gives it.
pub planner_agrees :
    (options : ShardWriterOptions) (p : PlanParams)
    → Matches options p
    → (plans : List ShardPlan) × (frames : List PlannedChunkFrame) × (plan_shards p ≡ ok plans)
      × (plan_frames options p.tag_len new_planner (planned_chunks p 0 p.global_chunk_count)
          ≡ ok frames)
      × (map position_of frames ≡ places p plans)
unfolding new_planner
planner_agrees options p m =
    let (plans, planned, covers) = plan_shards-Covers p m.fits in
    (
      plans,
      frames_from p new_planner 0 p.global_chunk_count,
      planned,
      plan_frames-frames_from options p new_planner 0 p.global_chunk_count m (omega arith) refl
          (omega arith),
      plans_places plans p new_planner 0 0 p.global_chunk_count m.fits (omega arith)
          (λ h. starts p m.fits) covers,
    )
  where
    starts : (p : PlanParams) → PlanFits p → Enters p new_planner 0 0
    starts p f =
        let stays : opens p new_planner 0 ≡ false =
          le→ltb_false (p.max_shard_payload_len - frame_len p 0) 0 (omega arith) in
        record { right_shard = rw stays refl; at_start = rw stays refl }
