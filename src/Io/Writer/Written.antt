-- ===== src/Io/Writer/Written.antt =====
-- ShardWriter (io/ShardWriter.cpp) from its constructor to finish, for the frames of a planned archive.
use bseal_cpp.Base.{
  ℕ, ◌+◌, ◌-◌, ◌*◌, ◌^◌, ◌%◌, ◌<◌, ◌≡◌, refl, sym, subst, ◌∙◌, ap, Bool, true, false, le→ltb_false,
  ◌==◌, inl, inr, length, map, List, [], Option, ok, arith,
}
use bseal_cpp.Frame.{GlobalPublicHeaderV1}
use bseal_cpp.Frame.Global.Layout.{global_bytes, serialize_global-eq}
use bseal_cpp.App.Plan.{PlanParams, plain_len_at}
use bseal_cpp.App.Plan.Laws.{frame_len}
use bseal_cpp.Io.Writer.{
  ShardWriterOptions, ShardWriter, PlannedChunkFrame, FramePlanner, new_planner, empty_writer,
  plan_frames,
}
use bseal_cpp.Io.Writer.Shards.{close_current_shard}
use bseal_cpp.Io.Writer.Write.{write_frames, final_sizes, rewrite_shards, finish}
use bseal_cpp.Io.Writer.Planner.{opens}
use bseal_cpp.Io.Writer.Placed.{planned_chunks, position_of, frames_from, plan_frames-frames_from}
use bseal_cpp.Io.Writer.States.{Setting, Closed, final_len}
use bseal_cpp.Io.Writer.Frames.{Ready}
use bseal_cpp.Io.Writer.Finish.{Files, rewrite_all}
use bseal_cpp.Io.Writer.Sizes.{last_is, sizes_ok, final_global-GlobalFits}
use bseal_cpp.Io.Writer.Files.{with_bodies, final_global, Bodies, run_ok, closes}

Ready-unfinished :
    (options : ShardWriterOptions) (p : PlanParams) (names : ℕ → List ℕ) (body : ℕ → List ℕ)
    (w : ShardWriter) (planner : FramePlanner) (i : ℕ)
    → Ready options p names body w planner i
    → w.finished ≡ false
Ready-unfinished options p names body w planner i r = elim r.place [
  | inl (_, _, c, _) ↦ c.settled.unfinished
  | inr (_, _, _, _, o, _, _, _, _, _) ↦ o.settled.unfinished
]

module _ (options : ShardWriterOptions) (p : PlanParams) (names : ℕ → List ℕ) (body : ℕ → List ℕ)
    (exists : List ℕ → Bool) (hmac_sha256 : List ℕ → List ℕ → Option (List ℕ))
    (setting : Setting options p names exists hmac_sha256) (bodies : Bodies p body) where
  finish_from :
      (w w₁ : ShardWriter) (low k : ℕ)
      → w.finished ≡ false
      → close_current_shard hmac_sha256 w ≡ ok w₁
      → Closed options p names body w₁ low k p.global_chunk_count
      → (w' : ShardWriter) × (finish hmac_sha256 w ≡ ok w')
        × Files p body names hmac_sha256 options.header_authentication_key
            (final_global options p (length w'.finalized_shards))
            0
            0
            0
            w'.finalized_shards
            p.global_chunk_count
  unfolding finish
  finish_from w w₁ low k unfinished closed c =
      let s = c.settled in
      let key = options.header_authentication_key in
      let last =
        s.last
        ∙ ap (final_len p) c.expected
        ∙ last_is options p names body exists hmac_sha256 setting bodies in
      let global = final_global options p (length w₁.finalized_shards) in
      let given : GlobalPublicHeaderV1 = record w₁.options.global_header {
        global_chunk_count = w₁.next_expected_chunk_index;
        shard_count = length w₁.finalized_shards % 2 ^ 32;
      } in
      let plain = plain_len_at p (p.global_chunk_count - 1) in
      let sized : final_sizes w₁ given ≡ ok global =
        sizes_ok options p names body exists hmac_sha256 setting bodies w₁ given c.expected last
          (ap (λ o. o.global_header.chunk_plain_size) s.options_are ∙ setting.matches.same_size)
        ∙ ap
            (λ o. ok (record o.global_header {
              global_chunk_count = w₁.next_expected_chunk_index;
              shard_count = length w₁.finalized_shards % 2 ^ 32;
              final_plaintext_chunk_len = plain % 2 ^ 32;
              padded_plaintext_size = (p.global_chunk_count - 1) * p.chunk_plain_size + plain;
            }))
            s.options_are
        ∙ ap (λ n. ok (record global { global_chunk_count = n })) c.expected in
      let fits =
        final_global-GlobalFits options p names body exists hmac_sha256 setting bodies
          (length w₁.finalized_shards) in
      let (done, rewritten, long, files) =
        rewrite_all p body names hmac_sha256 key global setting.keyed fits w₁.finalized_shards 0 0 0
          low k p.global_chunk_count setting.matches.fits.max_fits setting.matches.fits.count_fits
          s.chain in
      let with_key : rewrite_shards hmac_sha256 w₁.options.header_authentication_key global
            (global_bytes global []) w₁.finalized_shards
          ≡ ok done =
        ap
          (λ o.
            rewrite_shards hmac_sha256 o.header_authentication_key global (global_bytes global [])
              w₁.finalized_shards)
          s.options_are
        ∙ rewritten in
      let closed_so : close_current_shard hmac_sha256 (record w { finished = false }) ≡ ok w₁ =
        ap (λ b. close_current_shard hmac_sha256 (record w { finished = b })) (sym unfinished)
        ∙ closed in
      let w' : ShardWriter = record w₁ { finalized_shards = done; finished = true } in
      (
        w',
        rw (unfinished, closed_so, sized, serialize_global-eq global fits, with_key, finish) refl,
        subst
            (λ n.
              Files p body names hmac_sha256 key (final_global options p n) 0 0 0 done
                p.global_chunk_count)
            (sym long) files,
      )

  finish_ok :
      (w : ShardWriter) (planner : FramePlanner)
      → Ready options p names body w planner p.global_chunk_count
      → (w' : ShardWriter) × (finish hmac_sha256 w ≡ ok w')
        × Files p body names hmac_sha256 options.header_authentication_key
            (final_global options p (length w'.finalized_shards))
            0
            0
            0
            w'.finalized_shards
            p.global_chunk_count
  finish_ok w planner r =
      let (low, k, w₁, closed, c) =
        closes options p names body exists hmac_sha256 setting bodies w planner r in
      finish_from w w₁ low k
        (Ready-unfinished options p names body w planner p.global_chunk_count r) closed c

  starts-Ready : Ready options p names body (empty_writer options) new_planner 0
  unfolding empty_writer new_planner
  starts-Ready =
      let stays : opens p new_planner 0 ≡ false =
        le→ltb_false (p.max_shard_payload_len - frame_len p 0) 0 (omega arith) in
      let not_last : (0 == p.global_chunk_count) ≡ false =
        starts p.global_chunk_count bodies.some_chunk in
      record {
        planner_next = refl;
        planner_small = omega arith;
        place = inl (
          0,
          0,
          record {
            settled = record {
              options_are = refl;
              unfinished = refl;
              drawn_from = omega arith;
              last = rw not_last refl;
              chain = (omega arith, refl, refl);
            };
            stream = refl;
            next = refl;
            expected = refl;
          },
          λ _. (rw stays refl, rw stays refl),
        );
      }
    where
      starts : (count : ℕ) → 0 < count → (0 == count) ≡ false
      starts count h = ground arith

-- For options that match a plan that fits, keys and headers of their sizes, names that are new and
-- differ, and bodies of the planned lengths with a tag: the planner accepts all chunks of the archive,
-- write_chunk_frame takes their frames one after the other, each at the place that was planned, and
-- finish succeeds. The files that it leaves hold all the chunks, in order and without a gap: each file
-- is the global header, with the counts and sizes that are known at the end, the header of its shard
-- with the MAC of both, and the frames of its chunks, within the maximal size.
pub writer-Files :
    (options : ShardWriterOptions) (p : PlanParams) (names : ℕ → List ℕ) (body : ℕ → List ℕ)
    (exists : List ℕ → Bool) (hmac_sha256 : List ℕ → List ℕ → Option (List ℕ))
    → Setting options p names exists hmac_sha256
    → Bodies p body
    → (frames : List PlannedChunkFrame) × (written : ShardWriter) × (left : ShardWriter)
      × (plan_frames options p.tag_len new_planner (planned_chunks p 0 p.global_chunk_count)
          ≡ ok frames)
      × (write_frames names exists hmac_sha256 (empty_writer options) (with_bodies body 0 frames)
          ≡ ok (map position_of frames, written))
      × (finish hmac_sha256 written ≡ ok left)
      × Files p body names hmac_sha256 options.header_authentication_key
          (final_global options p (length left.finalized_shards))
          0
          0
          0
          left.finalized_shards
          p.global_chunk_count
unfolding new_planner
writer-Files options p names body exists hmac_sha256 setting bodies =
    let frames = frames_from p new_planner 0 p.global_chunk_count in
    let (w, planner, run, r) =
      run_ok options p names body exists hmac_sha256 setting bodies p.global_chunk_count 0
        (empty_writer options) new_planner
        (starts-Ready options p names body exists hmac_sha256 setting bodies) (omega arith) in
    let (left, done, files) =
      finish_ok options p names body exists hmac_sha256 setting bodies w planner r in
    (
      frames,
      w,
      left,
      plan_frames-frames_from options p new_planner 0 p.global_chunk_count setting.matches
          (omega arith) refl (omega arith),
      run,
      done,
      files,
    )
