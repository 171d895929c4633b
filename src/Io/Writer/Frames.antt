-- ===== src/Io/Writer/Frames.antt =====
-- write_chunk_frame (io/ShardWriter.cpp) takes a planned frame.
use bseal_cpp.Base.{
  ℕ, suc, ◌+◌, ◌-◌, ◌^◌, ◌%◌, ◌≤◌, ◌<◌, ◌≡◌, refl, sym, subst, ◌∙◌, ap, Bool, true, false, ltb,
  lt→ltb, ◌&&◌, ◌==◌, ==_iff, Bool-cases, ◌⊎◌, inl, inr, List, [], ◌++◌, append_assoc, Option, some,
  ok, arith, if◌then◌else◌,
}
use bseal_cpp.Frame.Chunk.{append_chunk}
use bseal_cpp.App.Plan.{PlanParams, plain_len_at}
use bseal_cpp.App.Plan.Laws.{frame_len, frames_len}
use bseal_cpp.Io.Writer.{ShardWriterOptions, ShardWriter, FramePlanner}
use bseal_cpp.Io.Writer.Shards.{close_current_shard}
use bseal_cpp.Io.Writer.Write.{make_room}
use bseal_cpp.Io.Writer.Planner.{frame_header, opens, shard_of, offset_of}
use bseal_cpp.Io.Writer.Chain.{stored, frame_at}
use bseal_cpp.Io.Writer.States.{Setting, Closed, Open, Open-ok}
use bseal_cpp.Io.Writer.Closing.{close_ok}

differs : (i count : ℕ) → (i == count - 1) ≡ false → i < count → (suc i == count) ≡ false
differs i count n h = ground arith

less : (i count : ℕ) → i < count → (i == count) ≡ false
less i count h = ground arith

last_length :
    (count i expected : ℕ) (plain_len : ℕ → ℕ) (before : ℕ)
    → i < count
    → expected ≡ i
    → count < 2 ^ 64
    → before ≡ (if expected == count && ltb 0 count then plain_len (count - 1) else 0)
    → (if (if i == count - 1 then 1 else 0) % 2 == 1 then plain_len i else before)
      ≡ (if (expected + 1) % 2 ^ 64 == count && ltb 0 count then plain_len (count - 1) else 0)
last_length count i expected plain_len before inside e small b =
    let now : (expected + 1) % 2 ^ 64 ≡ suc i = omega (arith, inside, e, small) in
    rw now (elim (Bool-cases (i == count - 1)) [
      | inl y ↦
          let last : i ≡ count - 1 = (==_iff i (count - 1)).0 y in
          let done : (suc i == count) ≡ true =
            (==_iff (suc i) count).1 (omega (arith, last, inside)) in
          rw (y, done, lt→ltb 0 count (omega (arith, inside))) (ap plain_len last)
      | inr n ↦ rw (n, differs i count n inside) (b ∙ rw (e, less i count inside) refl)
    ])

module _ (options : ShardWriterOptions) (p : PlanParams) (names : ℕ → List ℕ)
    (body : ℕ → List ℕ) where
  -- The writer and the planner before chunk i: no shard is open and the chunk opens one for both, or
  -- both stand in the same shard at the same offset.
  abbrev pub Between : ShardWriter → FramePlanner → ℕ → Type 0
  Between w planner i =
      (low : ℕ) × (k : ℕ) × Closed options p names body w low k i
      × (i < p.global_chunk_count
          → (shard_of p planner i ≡ k % 2 ^ 32) × (offset_of p planner i ≡ 0))

  abbrev pub Within : ShardWriter → FramePlanner → ℕ → Type 0
  Within w planner i =
      (low : ℕ) × (k : ℕ) × (first : ℕ) × (n : ℕ) × Open options p names body w low k first n
      × (0 < n)
      × (first + n ≡ i)
      × (planner.planned_shard_index ≡ k % 2 ^ 32)
      × (planner.planned_payload_offset ≡ frames_len p first n)
      × (frames_len p first n ≤ p.max_shard_payload_len)

  pub record Ready (w : ShardWriter) (planner : FramePlanner) (i : ℕ) : Type 0 where
    pub planner_next : planner.planned_next_chunk_index ≡ i
    pub planner_small : planner.planned_shard_index < 2 ^ 32
    pub place : Between w planner i ⊎ Within w planner i

  -- A shard that is open and has room for chunk i.
  abbrev pub Roomy : ShardWriter → FramePlanner → ℕ → Type 0
  Roomy w planner i =
      (low : ℕ) × (k : ℕ) × (first : ℕ) × (n : ℕ) × Open options p names body w low k first n
      × (first + n ≡ i)
      × (shard_of p planner i ≡ k % 2 ^ 32)
      × (offset_of p planner i ≡ frames_len p first n)

  module _ (exists : List ℕ → Bool) (hmac_sha256 : List ℕ → List ℕ → Option (List ℕ))
      (setting : Setting options p names exists hmac_sha256) where
    room-Between :
        (w : ShardWriter) (planner : FramePlanner) (i : ℕ)
        → i < p.global_chunk_count
        → Between w planner i
        → (w' : ShardWriter) × (make_room names exists hmac_sha256 w (frame_len p i) i ≡ ok w')
          × Roomy w' planner i
    unfolding make_room
    room-Between w planner i inside (low, k, c, enters) =
        let (w', opened, o) = Open-ok options p names body exists hmac_sha256 setting w low k i c in
        let (shard, offset) = enters inside in
        (w', rw (c.stream, make_room) opened, (low, k, i, 0, o, omega arith, shard, offset))

    -- The shard was full, and is closed.
    reopened :
        (w w₁ : ShardWriter) (planner : FramePlanner) (i low k : ℕ) (content : List ℕ)
        → w.current_stream ≡ some content
        → ltb (w.options.max_shard_payload_len - frame_len p i) w.current_payload_offset ≡ true
        → opens p planner i ≡ true
        → close_current_shard hmac_sha256 w ≡ ok w₁
        → Closed options p names body w₁ low (suc k) i
        → planner.planned_shard_index ≡ k % 2 ^ 32
        → (w' : ShardWriter) × (make_room names exists hmac_sha256 w (frame_len p i) i ≡ ok w')
          × Roomy w' planner i
    unfolding make_room
    reopened w w₁ planner i low k content stream full next closed c shard =
        let (w₂, opened, o) =
          Open-ok options p names body exists hmac_sha256 setting w₁ low (suc k) i c in
        (
          w₂,
          rw (stream, full, closed, make_room) opened,
          (low, suc k, i, 0, o, omega arith, rw next (omega (arith, shard)), rw next refl),
        )

    room-Within :
        (w : ShardWriter) (planner : FramePlanner) (i : ℕ)
        → i < p.global_chunk_count
        → Within w planner i
        → (w' : ShardWriter) × (make_room names exists hmac_sha256 w (frame_len p i) i ≡ ok w')
          × Roomy w' planner i
    unfolding make_room
    room-Within w planner i inside (low, k, first, n, o, some_chunk, at, shard, offset, fits) =
        let max : w.options.max_shard_payload_len ≡ p.max_shard_payload_len =
          ap (λ t. t.max_shard_payload_len) o.settled.options_are ∙ setting.matches.same_max in
        let test : ltb (w.options.max_shard_payload_len - frame_len p i) w.current_payload_offset
            ≡ opens p planner i =
          ap (λ m. ltb (m - frame_len p i) w.current_payload_offset) max
          ∙ ap (ltb (p.max_shard_payload_len - frame_len p i)) (o.offset ∙ sym offset) in
        elim (Bool-cases (opens p planner i)) [
          | inr stays ↦ (
            w,
            rw (o.stream, test ∙ stays, make_room)
                (ap (λ s. ok (record w { current_stream = s })) o.stream),
            (low, k, first, n, o, at, rw stays shard, rw stays offset),
          )
          | inl next ↦
              let small : first + n < 2 ^ 64 =
                omega (arith, at, inside, setting.matches.fits.count_fits) in
              let (low', w₁, closed, c) =
                close_ok options p names body exists hmac_sha256 setting w low k first n o
                  some_chunk small fits in
              let here : Closed options p names body w₁ low' (suc k) i =
                subst (Closed options p names body w₁ low' (suc k)) at c in
              reopened w w₁ planner i low' k (o.head ++ stored p body k first n) o.stream
                (test ∙ next) next closed here shard
        ]

    pub room_ok :
        (w : ShardWriter) (planner : FramePlanner) (i : ℕ)
        → i < p.global_chunk_count
        → Ready w planner i
        → (w' : ShardWriter) × (make_room names exists hmac_sha256 w (frame_len p i) i ≡ ok w')
          × Roomy w' planner i
    room_ok w planner i inside r = elim r.place [
      | inl b ↦ room-Between w planner i inside b
      | inr b ↦ room-Within w planner i inside b
    ]

    -- The frame is in the shard, and the counters are moved on.
    abbrev pub counted : ShardWriter → ℕ → List ℕ → ℕ → ShardWriter
    counted w i content shard_index = record w {
      current_stream = some ((content ++ append_chunk [] (frame_header p i shard_index)) ++ body i);
      current_payload_offset = (w.current_payload_offset + frame_len p i) % 2 ^ 64;
      current_chunk_count = (w.current_chunk_count + 1) % 2 ^ 64;
      next_expected_chunk_index = (w.next_expected_chunk_index + 1) % 2 ^ 64;
      final_chunk_plaintext_len =
          if (frame_header p i shard_index).frame_flags % 2 == 1
          then plain_len_at p i
          else w.final_chunk_plaintext_len;
    }

    pub counted-Open :
        (w : ShardWriter) (low k first n i shard_index : ℕ)
        (o : Open options p names body w low k first n)
        → first + n ≡ i
        → shard_index ≡ k % 2 ^ 32
        → i < p.global_chunk_count
        → frames_len p first n + frame_len p i ≤ p.max_shard_payload_len
        → Open options p names body
            (counted w i (o.head ++ stored p body k first n) shard_index)
            low
            k
            first
            (suc n)
    unfolding stored frame_at
    counted-Open w low k first n i shard_index o at shard inside room =
        let small = setting.matches.fits.count_fits in
        let max = setting.matches.fits.max_fits in
        record {
          settled = record {
            options_are = o.settled.options_are;
            unfinished = o.settled.unfinished;
            drawn_from = o.settled.drawn_from;
            last =
                last_length p.global_chunk_count i w.next_expected_chunk_index (plain_len_at p)
                  w.final_chunk_plaintext_len inside (o.expected ∙ at) small o.settled.last;
            chain = o.settled.chain;
          };
          head = o.head;
          head_size = o.head_size;
          stream =
              ap some
                (frame_added o.head (stored p body k first n) first n i shard_index k at shard);
          name = o.name;
          name_from = o.name_from;
          name_drawn = o.name_drawn;
          path = o.path;
          index = o.index;
          next = o.next;
          offset = omega (arith, o.offset, room, max, ap (frame_len p) at);
          start = o.start;
          count = omega (arith, o.count, at, inside, small);
          expected = omega (arith, o.expected, at, inside, small);
        }
      where
        frame_added :
            (head rest : List ℕ) (first n i shard_index k : ℕ)
            → first + n ≡ i
            → shard_index ≡ k % 2 ^ 32
            → ((head ++ rest) ++ append_chunk [] (frame_header p i shard_index)) ++ body i
              ≡ head
                ++ (rest
                    ++ (append_chunk [] (frame_header p (first + n) (k % 2 ^ 32))
                        ++ body (first + n)))
        frame_added head rest first n i shard_index k a s = rw (a, s) (simp append_assoc)
