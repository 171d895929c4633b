-- ===== src/Io/Writer/Files.antt =====
-- What a ShardWriter (io/ShardWriter.cpp) that has taken all planned frames leaves after finish.
use bseal_cpp.Base.{
  ℕ, zero, suc, ◌+◌, ◌-◌, ◌*◌, ◌^◌, ◌%◌, ◌<◌, ◌≡◌, refl, subst, ap, Bool, inl, inr, length, map,
  List, [], ◌∷◌, Option, ok, arith,
}
use bseal_cpp.Frame.{GlobalPublicHeaderV1}
use bseal_cpp.App.Plan.{PlanParams, plain_len_at}
use bseal_cpp.Io.Writer.{ShardWriterOptions, ShardWriter, PlannedChunkFrame, FramePlanner}
use bseal_cpp.Io.Writer.Shards.{close_current_shard}
use bseal_cpp.Io.Writer.Write.{write_frames}
use bseal_cpp.Io.Writer.Planner.{planner_after}
use bseal_cpp.Io.Writer.Placed.{position_of, frames_from}
use bseal_cpp.Io.Writer.States.{Setting, Closed}
use bseal_cpp.Io.Writer.Closing.{close_ok}
use bseal_cpp.Io.Writer.Frames.{Ready}
use bseal_cpp.Io.Writer.Accepting.{frame_ok}

-- The planned frames with their bodies.
abbrev pub with_bodies :
    (ℕ → List ℕ) → ℕ → List PlannedChunkFrame → List (PlannedChunkFrame × List ℕ)
with_bodies body i [] = []
with_bodies body i (frame ∷ frames) = (frame, body i) ∷ with_bodies body (suc i) frames

-- The global header that finish writes into a number of shards.
abbrev pub final_global : ShardWriterOptions → PlanParams → ℕ → GlobalPublicHeaderV1
final_global options p shards =
    let last = plain_len_at p (p.global_chunk_count - 1) in
    record options.global_header {
      global_chunk_count = p.global_chunk_count;
      shard_count = shards % 2 ^ 32;
      final_plaintext_chunk_len = last % 2 ^ 32;
      padded_plaintext_size = (p.global_chunk_count - 1) * p.chunk_plain_size + last;
    }

-- There is a chunk, the last one is not empty, each has the body of its length with a tag, and the
-- plaintext has a size of 64 bits.
pub record Bodies (p : PlanParams) (body : ℕ → List ℕ) : Type 0 where
  pub some_chunk : 0 < p.global_chunk_count
  pub last_chunk : 0 < plain_len_at p (p.global_chunk_count - 1)
  pub sized : (i : ℕ) → i < p.global_chunk_count → length (body i) ≡ plain_len_at p i + 16
  pub total_fits :
      (p.global_chunk_count - 1) * p.chunk_plain_size + plain_len_at p (p.global_chunk_count - 1)
      < 2 ^ 64

module _ (options : ShardWriterOptions) (p : PlanParams) (names : ℕ → List ℕ) (body : ℕ → List ℕ)
    (exists : List ℕ → Bool) (hmac_sha256 : List ℕ → List ℕ → Option (List ℕ))
    (setting : Setting options p names exists hmac_sha256) (bodies : Bodies p body) where
  pub run_ok :
      (left i : ℕ) (w : ShardWriter) (planner : FramePlanner)
      → Ready options p names body w planner i
      → i + left ≡ p.global_chunk_count
      → (w' : ShardWriter) × (planner' : FramePlanner) × (write_frames names exists hmac_sha256 w
            (with_bodies body i (frames_from p planner i left))
          ≡ ok (map position_of (frames_from p planner i left), w'))
        × Ready options p names body w' planner' p.global_chunk_count
  unfolding write_frames frames_from
  run_ok zero i w planner r e =
      let end : i ≡ p.global_chunk_count = omega (arith, e) in
      (w, planner, refl, subst (Ready options p names body w planner) end r)
  run_ok (suc left) i w planner r e =
      let inside : i < p.global_chunk_count = omega (arith, e) in
      let (w₁, one, r₁) =
        frame_ok options p names body exists hmac_sha256 setting w planner i r inside
          (bodies.sized i inside) in
      let (w₂, planner', more, r₂) =
        run_ok left (suc i) w₁ (planner_after p planner i) r₁ (omega (arith, e)) in
      (w₂, planner', rw (one, more, write_frames) refl, r₂)

  pub closes :
      (w : ShardWriter) (planner : FramePlanner)
      → Ready options p names body w planner p.global_chunk_count
      → (low : ℕ) × (k : ℕ) × (w' : ShardWriter) × (close_current_shard hmac_sha256 w ≡ ok w')
        × Closed options p names body w' low k p.global_chunk_count
  unfolding close_current_shard
  closes w planner r = elim r.place [
    | inl (low, k, c, _) ↦
        let again : close_current_shard hmac_sha256 w ≡ ok w =
          rw (c.stream, close_current_shard)
            (ap (λ s. ok (record w { current_stream = s })) c.stream) in
        (low, k, w, again, c)
    | inr (low, k, first, n, o, some_chunk, at, _, _, fits) ↦
        let (low', w', closed, c) =
          close_ok options p names body exists hmac_sha256 setting w low k first n o some_chunk
            (omega (arith, at, setting.matches.fits.count_fits)) fits in
        (low', suc k, w', closed, subst (Closed options p names body w' low' (suc k)) at c)
  ]
