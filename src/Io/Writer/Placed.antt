-- ===== src/Io/Writer/Placed.antt =====
-- The frames that ShardWriter::plan_chunk_frame (io/ShardWriter.cpp) plans for an archive, and their
-- places.
use bseal_cpp.Base.{
  ℕ, zero, suc, ◌+◌, ◌-◌, ◌^◌, ◌≤◌, ◌<◌, ◌≡◌, refl, sym, subst, ◌∙◌, ap, Bool, false, ◌⊎◌, inl, inr,
  le→ltb_false, ◌==◌, List, [], ◌∷◌, ◌++◌, map, ok, arith,
}
use bseal_cpp.App.Plan.{ShardPlan, PlanParams, plain_len_at}
use bseal_cpp.App.Plan.Laws.{PlanFits, frame_len, frames_len}
use bseal_cpp.Io.Writer.{
  ShardWriterOptions, ShardWritePosition, PlannedChunkFrame, FramePlanner, plan_frames,
}
use bseal_cpp.Io.Writer.Planner.{
  Matches, opens, shard_of, offset_of, planned_frame, planner_after, plan_step, shard_of-small,
}

-- Some chunks of a planned archive in a row.
abbrev pub planned_chunks : PlanParams → ℕ → ℕ → List (ℕ × ℕ × Bool)
planned_chunks p i zero = []
planned_chunks p i (suc left) =
    (i, plain_len_at p i, i == p.global_chunk_count - 1) ∷ planned_chunks p (suc i) left

-- The places of some chunks of a shard, from the j-th on.
abbrev pub places_in : PlanParams → ℕ → ℕ → ℕ → ℕ → List ShardWritePosition
places_in p shard_index first j zero = []
places_in p shard_index first j (suc left) =
    record {
      shard_index = shard_index;
      record_offset = frames_len p first j;
      chunk_index = first + j;
    }
    ∷ places_in p shard_index first (suc j) left

abbrev pub places : PlanParams → List ShardPlan → List ShardWritePosition
places p [] = []
places p (plan ∷ plans) =
    places_in p plan.shard_index plan.first_chunk_index 0 plan.chunk_count ++ places p plans

abbrev pub position_of : PlannedChunkFrame → ShardWritePosition
position_of frame = frame.position

unfoldable pub frames_from : PlanParams → FramePlanner → ℕ → ℕ → List PlannedChunkFrame
frames_from p planner i zero = []
frames_from p planner i (suc left) =
    planned_frame p planner i ∷ frames_from p (planner_after p planner i) (suc i) left

pub plan_frames-frames_from :
    (options : ShardWriterOptions) (p : PlanParams) (planner : FramePlanner) (i left : ℕ)
    → Matches options p
    → i + left ≤ p.global_chunk_count
    → planner.planned_next_chunk_index ≡ i
    → planner.planned_shard_index < 2 ^ 32
    → plan_frames options p.tag_len planner (planned_chunks p i left)
      ≡ ok (frames_from p planner i left)
unfolding plan_frames frames_from
plan_frames-frames_from options p planner i zero m inside next small = refl
plan_frames-frames_from options p planner i (suc left) m inside next small =
    rw
      (
        plan_step options p planner i m (omega (arith, inside)) next small,
        plan_frames-frames_from options p (planner_after p planner i) (suc i) left m
            (omega (arith, inside)) refl (shard_of-small p planner i small),
        plan_frames,
      )
      refl

pub frames_len-le :
    (p : PlanParams) (first j n : ℕ) → j ≤ n → frames_len p first j ≤ frames_len p first n
frames_len-le p first j zero h = ap_le j (omega (arith, h))
  where
    ap_le : (j : ℕ) → j ≡ 0 → frames_len p first j ≤ frames_len p first 0
    ap_le zero e = omega arith
    ap_le (suc j) e = absurd (omega (arith, e))
frames_len-le p first j (suc n) h = elim (le_cases j n h) [
  | inl le ↦ omega (arith, frames_len-le p first j n le)
  | inr e ↦ subst (λ k. frames_len p first k ≤ frames_len p first (suc n)) (sym e) (omega arith)
]
  where
    le_cases : (j n : ℕ) → j ≤ suc n → (j ≤ n) ⊎ (j ≡ suc n)
    le_cases j n h = ground arith

-- The frames of a shard that is open stay in it, and the others follow.
pub in_shard :
    (p : PlanParams) (planner : FramePlanner) (first j left more : ℕ) (shard_index : ℕ)
    → PlanFits p
    → planner.planned_shard_index ≡ shard_index
    → planner.planned_payload_offset ≡ frames_len p first j
    → frames_len p first (j + left) ≤ p.max_shard_payload_len
    → (after : FramePlanner) × (after.planned_shard_index ≡ shard_index)
      × (after.planned_payload_offset ≡ frames_len p first (j + left))
      × (map position_of (frames_from p planner (first + j) (left + more))
          ≡ places_in p shard_index first j left
            ++ map position_of (frames_from p after (first + j + left) more))
unfolding frames_from
in_shard p planner first j zero more shard_index f s o h =
    let end : j + 0 ≡ j = omega arith in
    let none_left : 0 + more ≡ more = omega arith in
    let here : first + j + 0 ≡ first + j = omega arith in
    (planner, s, o ∙ ap (frames_len p first) (sym end), rw (none_left, here) refl)
in_shard p planner first j (suc left) more shard_index f s o h =
    let step : j + suc left ≡ suc j + left = omega arith in
    let fits : frames_len p first (suc j) ≤ frames_len p first (j + suc left) =
      frames_len-le p first (suc j) (j + suc left) (omega arith) in
    let stays : opens p planner (first + j) ≡ false =
      le→ltb_false (p.max_shard_payload_len - frame_len p (first + j))
        planner.planned_payload_offset (omega (arith, fits, h, o)) in
    let shard : shard_of p planner (first + j) ≡ shard_index = rw stays s in
    let offset : offset_of p planner (first + j) ≡ frames_len p first j = rw stays o in
    let next : suc (first + j) ≡ first + suc j = omega arith in
    let (after, s', o', e) =
      in_shard p (planner_after p planner (first + j)) first (suc j) left more shard_index f shard
        (omega (arith, offset))
        (subst (λ k. frames_len p first k ≤ p.max_shard_payload_len) step h) in
    let split : suc left + more ≡ suc (left + more) = omega arith in
    let place : first + j + suc left ≡ first + suc j + left = omega arith in
    (
      after,
      s',
      o' ∙ ap (frames_len p first) (sym step),
      ap (λ k. map position_of (frames_from p planner (first + j) k)) split
          ∙ ap
              (λ l.
                record {
                  shard_index = shard_of p planner (first + j);
                  record_offset = offset_of p planner (first + j);
                  chunk_index = first + j;
                }
                ∷ l)
              (ap
                  (λ i.
                    map position_of
                      (frames_from p (planner_after p planner (first + j)) i (left + more)))
                  next
                ∙ e)
          ∙ rw (shard, offset, place) refl,
    )
