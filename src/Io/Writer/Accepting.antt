-- ===== src/Io/Writer/Accepting.antt =====
-- write_chunk_frame (io/ShardWriter.cpp) accepts a planned frame at the planned position.
use bseal_cpp.Base.{
  ℕ, suc, ◌+◌, ◌-◌, ◌^◌, ◌%◌, ◌≤◌, ◌<◌, ◌≡◌, refl, sym, subst, ◌∙◌, ap, Bool, true, false, ltb,
  lt→ltb, leb, leb→le, le→ltb_false, ◌==◌, ==_iff, Bool-cases, inl, inr, length, List, [], ◌++◌,
  Option, some, Result, ok, arith, if◌then◌else◌,
}
use bseal_cpp.Frame.Bytes.{equal_bytes_refl}
use bseal_cpp.Frame.Chunk.{append_chunk}
use bseal_cpp.App.Plan.{PlanParams, plain_len_at}
use bseal_cpp.App.Plan.Laws.{frame_len, frames_len, frame_size, plain_len_le}
use bseal_cpp.Io.Writer.{ShardWriterOptions, ShardWriter, FramePlanner}
use bseal_cpp.Io.Writer.Shards.{close_current_shard}
use bseal_cpp.Io.Writer.Write.{check_frame, make_room, write_chunk_frame}
use bseal_cpp.Io.Writer.Planner.{
  Matches, frame_header, frame_header-written, opens, shard_of, offset_of, shard_of-small,
  offset_room, planned_frame, planner_after,
}
use bseal_cpp.Io.Writer.Chain.{stored}
use bseal_cpp.Io.Writer.States.{Setting, Closed, Open}
use bseal_cpp.Io.Writer.Closing.{close_ok}
use bseal_cpp.Io.Writer.Frames.{Ready, room_ok, counted, counted-Open}

module _ (options : ShardWriterOptions) (p : PlanParams) (names : ℕ → List ℕ)
    (body : ℕ → List ℕ) where
  Ready-facts :
      (w : ShardWriter) (planner : FramePlanner) (i : ℕ)
      → Ready options p names body w planner i
      → (w.options ≡ options) × (w.finished ≡ false) × (w.next_expected_chunk_index ≡ i)
  Ready-facts w planner i r = elim r.place [
    | inl (low, k, c, _) ↦ (c.settled.options_are, c.settled.unfinished, c.expected)
    | inr (low, k, first, n, o, _, at, _, _, _) ↦
        (o.settled.options_are, o.settled.unfinished, o.expected ∙ at)
  ]

  check_ok :
      (w : ShardWriter) (i shard_index : ℕ)
      → Matches options p
      → w.options ≡ options
      → w.finished ≡ false
      → w.next_expected_chunk_index ≡ i
      → i < p.global_chunk_count
      → shard_index < 2 ^ 32
      → length (body i) ≡ plain_len_at p i + 16
      → check_frame w
          (frame_header p i shard_index)
          (append_chunk [] (frame_header p i shard_index))
          (body i)
        ≡ ok (frame_len p i)
  unfolding check_frame
  check_ok w i shard_index m is_options unfinished expected inside small size =
      let (sized, written) =
        frame_header-written options p i shard_index m (omega (arith, inside, m.fits.count_fits))
          small in
      let max : w.options.max_shard_payload_len ≡ p.max_shard_payload_len =
        ap (λ t. t.max_shard_payload_len) is_options ∙ m.same_max in
      let plain : w.options.global_header.chunk_plain_size ≡ p.chunk_plain_size =
        ap (λ t. t.global_header.chunk_plain_size) is_options ∙ m.same_size in
      let len : (length (body i) == frame_len p i - 40) ≡ true =
        (==_iff _ _).1 (omega (arith, size, m.tag)) in
      rw
        (
          unfinished,
          (==_iff i w.next_expected_chunk_index).1 (sym expected),
          ap (λ t. ltb t (plain_len_at p i)) plain
              ∙ le→ltb_false p.chunk_plain_size (plain_len_at p i) (plain_len_le p i m.fits),
          written,
          equal_bytes_refl (append_chunk [] (frame_header p i shard_index)),
          sized,
          len,
          ap (λ t. ltb t (frame_len p i)) max
              ∙ le→ltb_false p.max_shard_payload_len (frame_len p i) (frame_size p i m.fits).1,
          check_frame,
        )
        refl

  module _ (exists : List ℕ → Bool) (hmac_sha256 : List ℕ → List ℕ → Option (List ℕ))
      (setting : Setting options p names exists hmac_sha256) where
    -- The call, when the checks have passed and there is room.
    written_as :
        (w w₁ : ShardWriter) (planner : FramePlanner) (i : ℕ) (content : List ℕ)
        (done : Result ShardWriter)
        → check_frame w
            (frame_header p i (shard_of p planner i))
            (append_chunk [] (frame_header p i (shard_of p planner i)))
            (body i)
          ≡ ok (frame_len p i)
        → make_room names exists hmac_sha256 w (frame_len p i) i ≡ ok w₁
        → w₁.current_stream ≡ some content
        → w₁.current_shard_index ≡ shard_of p planner i
        → w₁.current_payload_offset ≡ offset_of p planner i
        → (if leb w₁.options.max_shard_payload_len
              ((w₁.current_payload_offset + frame_len p i) % 2 ^ 64)
            then close_current_shard hmac_sha256 (
                counted options p names body exists hmac_sha256 setting w₁ i content
                  (shard_of p planner i))
            else ok (
                counted options p names body exists hmac_sha256 setting w₁ i content
                  (shard_of p planner i)))
          ≡ done
        → (w' : ShardWriter) → done ≡ ok w'
        → write_chunk_frame names exists hmac_sha256 w
            (frame_header p i (shard_of p planner i))
            (append_chunk [] (frame_header p i (shard_of p planner i)))
            (body i)
          ≡ ok ((planned_frame p planner i).position, w')
    unfolding write_chunk_frame
    written_as w w₁ planner i content done checked room stream shard offset ends w' e =
        let index : (shard_of p planner i == w₁.current_shard_index) ≡ true =
          (==_iff _ _).1 (sym shard) in
        rw (checked, room, index, stream, ends ∙ e, write_chunk_frame)
          (ap
            (λ (q : ℕ × ℕ).
              ok (record { shard_index = q.0; record_offset = q.1; chunk_index = i }, w'))
            (λ j. (shard j, offset j)))

    -- The shard stays open.
    stays_Ready :
        (w₁ : ShardWriter) (planner : FramePlanner) (i low k first n : ℕ)
        → Open options p names body w₁ low k first (suc n)
        → planner.planned_shard_index < 2 ^ 32
        → first + n ≡ i
        → shard_of p planner i ≡ k % 2 ^ 32
        → offset_of p planner i ≡ frames_len p first n
        → Ready options p names body w₁ (planner_after p planner i) (suc i)
    stays_Ready w₁ planner i low k first n o small at shard offset =
        let room = offset_room p planner i setting.matches.fits in
        let len = ap (frame_len p) at in
        record {
          planner_next = refl;
          planner_small = shard_of-small p planner i small;
          place = inr (
            low,
            k,
            first,
            suc n,
            o,
            omega arith,
            omega (arith, at),
            shard,
            omega (arith, offset, len),
            omega (arith, offset, len, room),
          );
        }

    -- The shard is full, and closed.
    Closed-Ready :
        (w₁ : ShardWriter) (planner : FramePlanner) (i low k first n : ℕ)
        → Closed options p names body w₁ low (suc k) (first + suc n)
        → planner.planned_shard_index < 2 ^ 32
        → first + n ≡ i
        → shard_of p planner i ≡ k % 2 ^ 32
        → p.max_shard_payload_len ≤ offset_of p planner i + frame_len p i
        → Ready options p names body w₁ (planner_after p planner i) (suc i)
    Closed-Ready w₁ planner i low k first n c small at shard full =
        let next : first + suc n ≡ suc i = omega (arith, at) in
        let (_, fits) = frame_size p (suc i) setting.matches.fits in
        let opened : opens p (planner_after p planner i) (suc i) ≡ true =
          lt→ltb (p.max_shard_payload_len - frame_len p (suc i))
            (offset_of p planner i + frame_len p i) (omega (arith, full, fits)) in
        record {
          planner_next = refl;
          planner_small = shard_of-small p planner i small;
          place = inl (
            low,
            suc k,
            subst (Closed options p names body w₁ low (suc k)) next c,
            λ h. (rw opened (omega (arith, shard)), rw opened refl),
          );
        }

    pub frame_ok :
        (w : ShardWriter) (planner : FramePlanner) (i : ℕ)
        → Ready options p names body w planner i
        → i < p.global_chunk_count
        → length (body i) ≡ plain_len_at p i + 16
        → (w' : ShardWriter) × (write_chunk_frame names exists hmac_sha256 w
              (planned_frame p planner i).header
              (planned_frame p planner i).header_bytes
              (body i)
            ≡ ok ((planned_frame p planner i).position, w'))
          × Ready options p names body w' (planner_after p planner i) (suc i)
    frame_ok w planner i r inside size =
        let m = setting.matches in
        let (is_options, unfinished, expected) = Ready-facts w planner i r in
        let checked =
          check_ok w i (shard_of p planner i) m is_options unfinished expected inside
            (shard_of-small p planner i r.planner_small) size in
        let (w₁, made, (low, k, first, n, o, at, shard, offset)) =
          room_ok options p names body exists hmac_sha256 setting w planner i inside r in
        let room : frames_len p first n + frame_len p i ≤ p.max_shard_payload_len =
          omega (arith, offset_room p planner i m.fits, offset) in
        let content = o.head ++ stored p body k first n in
        let after =
          counted options p names body exists hmac_sha256 setting w₁ i content
            (shard_of p planner i) in
        let open_after =
          counted-Open options p names body exists hmac_sha256 setting w₁ low k first n i
            (shard_of p planner i) o at shard inside room in
        let index = o.index ∙ sym shard in
        let place = o.offset ∙ sym offset in
        let max : w₁.options.max_shard_payload_len ≡ p.max_shard_payload_len =
          ap (λ t. t.max_shard_payload_len) o.settled.options_are ∙ m.same_max in
        elim (Bool-cases (
          leb w₁.options.max_shard_payload_len
            ((w₁.current_payload_offset + frame_len p i) % 2 ^ 64))) [
              | inr stays ↦ (
                after,
                written_as w w₁ planner i content (ok after) checked made o.stream index place
                    (rw stays refl) after refl,
                stays_Ready after planner i low k first n open_after r.planner_small at shard
                    offset,
              )
              | inl full ↦
                  let whole : frames_len p first (suc n) ≤ p.max_shard_payload_len =
                    omega (arith, room, ap (frame_len p) at) in
                  let (low', w₂, closed, c) =
                    close_ok options p names body exists hmac_sha256 setting after low k first
                      (suc n) open_after (omega arith)
                      (omega (arith, at, inside, m.fits.count_fits)) whole in
                  (
                    w₂,
                    written_as w w₁ planner i content (close_current_shard hmac_sha256 after)
                        checked made o.stream index place (rw full refl) w₂ closed,
                    Closed-Ready w₂ planner i low' k first n c r.planner_small at shard
                        (omega (arith, leb→le _ _ full, max, place, room, m.fits.max_fits, offset)),
                  )
            ]
