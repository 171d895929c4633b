-- ===== src/App/Plan/Laws.antt =====
-- The plan covers every chunk once, in order, and no shard is too large.
use bseal_cpp.Base.{
  ℕ, zero, suc, ◌+◌, ◌-◌, ◌≤◌, ◌<◌, ◌^◌, ◌%◌, ◌≡◌, refl, subst, inl, inr, Bool, true, false, ◌&&◌,
  ltb, List, [], ◌∷◌, replicate, String, Result, ok, arith, Bool-cases, le→ltb_false, ltb_false→le,
  ltb→lt,
}
use bseal_cpp.Checked.{checked_add_u64}
use bseal_cpp.Frame.Chunk.{chunk_frame_v1_encoded_size_from_params}
use bseal_cpp.Frame.Chunk.Size.{encoded_size_exact}
use bseal_cpp.App.Plan.{ShardPlan, PlanParams, plain_len_at, fill_shard, plan_from, plan_shards}

-- What the C++ types guarantee, that a final chunk is not longer than the others, and that a frame
-- of a full chunk fits into a shard.
pub record PlanFits (p : PlanParams) : Type 0 where
  pub count_fits : p.global_chunk_count < 2 ^ 64
  pub final_fits : p.final_plaintext_chunk_len ≤ p.chunk_plain_size
  pub tag_fits : p.tag_len < 2 ^ 16
  pub max_fits : p.max_shard_payload_len < 2 ^ 64
  pub frame_fits : 40 + p.chunk_plain_size + p.tag_len ≤ p.max_shard_payload_len

-- The frame of a chunk, and of some chunks in a row.
abbrev pub frame_len : PlanParams → ℕ → ℕ
frame_len p i = 40 + plain_len_at p i + p.tag_len

abbrev pub frames_len : PlanParams → ℕ → ℕ → ℕ
frames_len p i zero = 0
frames_len p i (suc n) = frames_len p i n + frame_len p (i + n)

pub plain_len_le : (p : PlanParams) (i : ℕ) → PlanFits p → plain_len_at p i ≤ p.chunk_plain_size
unfolding plain_len_at
plain_len_le p i f = ground (arith, f.final_fits)

pub frame_size :
    (p : PlanParams) (i : ℕ)
    → PlanFits p
    → (chunk_frame_v1_encoded_size_from_params (plain_len_at p i) p.tag_len ≡ ok (frame_len p i))
      × (frame_len p i ≤ p.max_shard_payload_len)
frame_size p i f =
    let short = plain_len_le p i f in
    let max = f.max_fits in
    let fits = f.frame_fits in
    elim (encoded_size_exact (plain_len_at p i) p.tag_len (omega (arith, short, max, fits))
      f.tag_fits) [
        | inl (_, e) ↦ (e, omega (arith, short, fits))
        | inr (long, _, _) ↦ absurd (omega (arith, long, short, max, fits))
      ]

and_left : (a b : Bool) → a && b ≡ true → a ≡ true
and_left a b h = ground arith

added : (a b : ℕ) (context : String) → a + b < 2 ^ 64 → checked_add_u64 a b context ≡ ok (a + b)
unfolding checked_add_u64
added a b context h = ground arith

-- The outcome of the inner loop.
Filled : PlanParams → ℕ → Result (ℕ × ℕ × ℕ) → Type 0
Filled p first q =
    (n : ℕ) × (q ≡ ok (first + n, n, frames_len p first n))
    × (0 < n)
    × (first + n ≤ p.global_chunk_count)
    × (frames_len p first n ≤ p.max_shard_payload_len)
    × (first + n < p.global_chunk_count
        → p.max_shard_payload_len < frames_len p first n + frame_len p (first + n))

and_right : (a b : Bool) → a && b ≡ true → b ≡ true
and_right a b h = ground arith

no_room :
    (n max frame sum : ℕ)
    → ltb 0 n && ltb ((max + 2 ^ 64 - frame) % 2 ^ 64) sum ≡ true
    → frame ≤ max
    → max < 2 ^ 64
    → max < sum + frame
no_room n max frame sum full f m =
    omega (
      arith,
      f,
      m,
      ltb→lt _ _ (and_right (ltb 0 n) (ltb ((max + 2 ^ 64 - frame) % 2 ^ 64) sum) full),
    )

room_left :
    (n max frame sum : ℕ)
    → ltb 0 n && ltb ((max + 2 ^ 64 - frame) % 2 ^ 64) sum ≡ false
    → (n ≡ 0 → sum ≡ 0)
    → frame ≤ max
    → max < 2 ^ 64
    → sum + frame ≤ max
room_left n max frame sum room z f m = elim (Bool-cases (ltb 0 n)) [
  | inr e ↦ omega (arith, f, z (omega (arith, ltb_false→le 0 n e)))
  | inl e ↦ omega (arith, f, m, ltb_false→le _ _ (rw (e, ◌&&◌) at room))
]

fill_more :
    (fuel : ℕ) (p : PlanParams) (first n : ℕ)
    → PlanFits p
    → first < p.global_chunk_count
    → first + n ≤ p.global_chunk_count
    → p.global_chunk_count < first + n + fuel
    → frames_len p first n ≤ p.max_shard_payload_len
    → (n ≡ 0 → frames_len p first n ≡ 0)
    → Filled p first (fill_shard fuel p (first + n) n (frames_len p first n))
unfolding fill_shard Filled
fill_more zero p first n f start within enough small z = absurd (omega (arith, within, enough))
fill_more (suc fuel) p first n f start within enough small z =
    let (size, fits) = frame_size p (first + n) f in
    let full_test =
      ltb 0 n
      && ltb ((p.max_shard_payload_len + 2 ^ 64 - frame_len p (first + n)) % 2 ^ 64)
          (frames_len p first n) in
    elim (Bool-cases (ltb (first + n) p.global_chunk_count)) [
      | inr end ↦ (
        n,
        rw (end, fill_shard) refl,
        omega (arith, start, ltb_false→le _ _ end),
        within,
        small,
        λ h. absurd (omega (arith, h, ltb_false→le _ _ end)),
      )
      | inl more ↦ elim (Bool-cases full_test) [
        | inl full ↦ (
          n,
          rw (more, size, full, fill_shard) refl,
          ltb→lt 0 n (and_left _ _ full),
          within,
          small,
          λ h.
              no_room n p.max_shard_payload_len (frame_len p (first + n)) (frames_len p first n)
                full fits f.max_fits,
        )
        | inr room ↦
            let sum =
              room_left n p.max_shard_payload_len (frame_len p (first + n)) (frames_len p first n)
                room z fits f.max_fits in
            let place : first + n + 1 ≡ first + suc n = omega arith in
            let next : n + 1 ≡ suc n = omega arith in
            let max = f.max_fits in
            let add =
              added (frames_len p first n) (frame_len p (first + n)) "shard payload accumulation"
                (omega (arith, sum, max)) in
            let (m, e, a, b, c, d) =
              fill_more fuel p first (suc n) f start (omega (arith, ltb→lt _ _ more))
                (omega (arith, enough)) sum (λ h. absurd (omega (arith, h))) in
            (m, rw (more, size, room, add, fill_shard) (rw (place, next) e), a, b, c, d)
      ]
    ]

fill_all :
    (p : PlanParams) (first : ℕ)
    → PlanFits p
    → first < p.global_chunk_count
    → Filled p first (fill_shard (suc p.global_chunk_count) p first 0 0)
fill_all p first f start =
    let here : first + 0 ≡ first = omega arith in
    subst (λ i. Filled p first (fill_shard (suc p.global_chunk_count) p i 0 0)) here
      (fill_more (suc p.global_chunk_count) p first 0 f start (omega (arith, start)) (omega arith)
        (omega arith) (λ h. refl))

-- The plans from some shard and some chunk on: numbered in order, each taking up where the one
-- before ends, never empty, with the length of its frames, which is not above the maximum, and too full
-- for the chunk that follows; the last one ends at the last chunk.
abbrev pub Covers : PlanParams → ℕ → ℕ → List ShardPlan → Type 0
Covers p shard chunk [] = chunk ≡ p.global_chunk_count
Covers p shard chunk (plan ∷ plans) =
    (plan.shard_index ≡ shard % 2 ^ 32)
    × (plan.first_chunk_index ≡ chunk)
    × (0 < plan.chunk_count)
    × (plan.payload_len ≡ frames_len p chunk plan.chunk_count)
    × (plan.payload_len ≤ p.max_shard_payload_len)
    × (chunk + plan.chunk_count < p.global_chunk_count
        → p.max_shard_payload_len < plan.payload_len + frame_len p (chunk + plan.chunk_count))
    × Covers p (shard + 1) (chunk + plan.chunk_count) plans

plan_from-Covers :
    (fuel : ℕ) (p : PlanParams) (shard chunk : ℕ)
    → PlanFits p
    → chunk ≤ p.global_chunk_count
    → p.global_chunk_count < chunk + fuel
    → (plans : List ShardPlan) × (plan_from fuel p shard chunk ≡ ok plans)
      × Covers p shard chunk plans
unfolding plan_from Filled
plan_from-Covers zero p shard chunk f within enough = absurd (omega (arith, within, enough))
plan_from-Covers (suc fuel) p shard chunk f within enough =
    elim (Bool-cases (ltb chunk p.global_chunk_count)) [
      | inr end ↦ ([], rw (end, plan_from) refl, omega (arith, within, ltb_false→le _ _ end))
      | inl more ↦
          let start : chunk < p.global_chunk_count = ltb→lt _ _ more in
          let (n, filled, some_chunk, inside, small, greedy) = fill_all p chunk f start in
          let (plans, planned, covers) =
            plan_from-Covers fuel p (shard + 1) (chunk + n) f inside
              (omega (arith, some_chunk, enough)) in
          (
            record {
              shard_index = shard % 2 ^ 32;
              first_chunk_index = chunk;
              chunk_count = n;
              payload_len = frames_len p chunk n;
              public_header_hash = replicate 32 0;
            }
                ∷ plans,
            rw (more, filled, planned, plan_from) refl,
            (refl, refl, some_chunk, refl, small, greedy, covers),
          )
    ]

-- plan_shards succeeds when a frame of a full chunk fits into a shard. Its plans are numbered in
-- order and cover the chunks of the archive from the first to the last, each once and in order; no
-- shard is empty, each has the length of its frames, which is not above the maximum, and the chunk that
-- follows a shard would not have fitted into it.
pub plan_shards-Covers :
    (p : PlanParams)
    → PlanFits p
    → (plans : List ShardPlan) × (plan_shards p ≡ ok plans) × Covers p 0 0 plans
unfolding plan_shards
plan_shards-Covers p f =
    let max = f.max_fits in
    let fits = f.frame_fits in
    elim (encoded_size_exact p.chunk_plain_size p.tag_len (omega (arith, max, fits)) f.tag_fits) [
      | inr (long, _, _) ↦ absurd (omega (arith, long, max, fits))
      | inl (_, e) ↦
          let (plans, planned, covers) =
            plan_from-Covers (suc p.global_chunk_count) p 0 0 f (omega arith) (omega arith) in
          (
            plans,
            rw
                (
                  e,
                  le→ltb_false p.max_shard_payload_len (40 + p.chunk_plain_size + p.tag_len) fits,
                  plan_shards,
                )
                planned,
            covers,
          )
    ]
