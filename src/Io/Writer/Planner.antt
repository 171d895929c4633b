-- ===== src/Io/Writer/Planner.antt =====
-- One call of ShardWriter::plan_chunk_frame (io/ShardWriter.cpp) for a chunk of a planned archive.
use bseal_cpp.Base.{
  ℕ, suc, ◌+◌, ◌-◌, ◌^◌, ◌%◌, ◌≤◌, ◌<◌, ◌≡◌, refl, ◌∙◌, Bool, true, false, ltb, le→ltb_false, ◌==◌,
  ==_iff, [], ok, arith, if◌then◌else◌,
}
use bseal_cpp.Frame.{ChunkFrameHeaderV1, ChunkFits, chunk_frame_flag_final_chunk}
use bseal_cpp.Frame.Chunk.{
  serialize_chunk_frame_header_v1, chunk_frame_v1_encoded_size, append_chunk,
}
use bseal_cpp.Frame.Chunk.Rules.{validate_chunk_iff}
use bseal_cpp.Frame.Chunk.Size.{encoded_size-eq}
use bseal_cpp.App.Plan.{PlanParams, plain_len_at}
use bseal_cpp.App.Plan.Laws.{PlanFits, frame_len, frame_size, plain_len_le}
use bseal_cpp.Io.Writer.{ShardWriterOptions, PlannedChunkFrame, FramePlanner, plan_chunk_frame}

-- The options of the writer are those that were planned for, with a tag of 16 bytes.
pub record Matches (options : ShardWriterOptions) (p : PlanParams) : Type 0 where
  pub fits : PlanFits p
  pub same_max : options.max_shard_payload_len ≡ p.max_shard_payload_len
  pub same_size : options.global_header.chunk_plain_size ≡ p.chunk_plain_size
  pub small_size : p.chunk_plain_size < 2 ^ 32
  pub tag : p.tag_len ≡ 16

-- The header of chunk i in a shard, and the bytes before it in the shard.
abbrev pub frame_header : PlanParams → ℕ → ℕ → ChunkFrameHeaderV1
frame_header p i shard_index = record {
  frame_flags = if i == p.global_chunk_count - 1 then chunk_frame_flag_final_chunk else 0;
  shard_index = shard_index;
  global_chunk_index = i;
  plaintext_len = plain_len_at p i;
  ciphertext_len = plain_len_at p i;
  tag_len = p.tag_len;
}

pub frame_header-fits :
    (options : ShardWriterOptions) (p : PlanParams) (i shard_index : ℕ)
    → Matches options p
    → i < 2 ^ 64
    → shard_index < 2 ^ 32
    → ChunkFits (frame_header p i shard_index)
frame_header-fits options p i shard_index m small s =
    let short = plain_len_le p i m.fits in
    record {
      frame_flags_fits = flags_small (i == p.global_chunk_count - 1);
      shard_index_fits = s;
      global_chunk_index_fits = small;
      plaintext_len_fits = omega (arith, short, m.small_size);
      ciphertext_len_fits = omega (arith, short, m.small_size);
      tag_len_fits = omega (arith, m.tag);
    }
  where
    flags_small : (final : Bool) → (if final then chunk_frame_flag_final_chunk else 0) < 2 ^ 16
    flags_small true = omega arith
    flags_small false = omega arith

flags_one : (final : Bool) → (if final then chunk_frame_flag_final_chunk else 0) ≤ 1
flags_one true = omega arith
flags_one false = omega arith

-- The frame has its size, and its header bytes.
pub frame_header-written :
    (options : ShardWriterOptions) (p : PlanParams) (i shard_index : ℕ)
    → Matches options p
    → i < 2 ^ 64
    → shard_index < 2 ^ 32
    → (chunk_frame_v1_encoded_size (frame_header p i shard_index) ≡ ok (frame_len p i))
      × (serialize_chunk_frame_header_v1 (frame_header p i shard_index)
          ≡ ok (append_chunk [] (frame_header p i shard_index)))
unfolding serialize_chunk_frame_header_v1
frame_header-written options p i shard_index m small s =
    let header = frame_header p i shard_index in
    let fits = frame_header-fits options p i shard_index m small s in
    let flags = flags_one (i == p.global_chunk_count - 1) in
    let tag : 0 < p.tag_len = omega (arith, m.tag) in
    let valid = (validate_chunk_iff header fits).1 (flags, tag) in
    (
      encoded_size-eq header fits flags tag ∙ (frame_size p i m.fits).0,
      rw (valid, serialize_chunk_frame_header_v1) refl,
    )

-- Whether the next chunk opens a shard, and where it stands.
abbrev pub opens : PlanParams → FramePlanner → ℕ → Bool
opens p planner i = ltb (p.max_shard_payload_len - frame_len p i) planner.planned_payload_offset

abbrev pub shard_of : PlanParams → FramePlanner → ℕ → ℕ
shard_of p planner i =
    if opens p planner i
    then (planner.planned_shard_index + 1) % 2 ^ 32
    else planner.planned_shard_index

abbrev pub offset_of : PlanParams → FramePlanner → ℕ → ℕ
offset_of p planner i = if opens p planner i then 0 else planner.planned_payload_offset

pub offset_room :
    (p : PlanParams) (planner : FramePlanner) (i : ℕ)
    → PlanFits p
    → offset_of p planner i + frame_len p i ≤ p.max_shard_payload_len
offset_room p planner i f =
    let (_, small) = frame_size p i f in
    room (frame_len p i) p.max_shard_payload_len planner.planned_payload_offset small
  where
    room :
        (frame max offset : ℕ)
        → frame ≤ max
        → (if ltb (max - frame) offset then 0 else offset) + frame ≤ max
    room frame max offset h = ground arith

abbrev pub planned_frame : PlanParams → FramePlanner → ℕ → PlannedChunkFrame
planned_frame p planner i = record {
  position = record {
    shard_index = shard_of p planner i;
    record_offset = offset_of p planner i;
    chunk_index = i;
  };
  header = frame_header p i (shard_of p planner i);
  header_bytes = append_chunk [] (frame_header p i (shard_of p planner i));
}

abbrev pub planner_after : PlanParams → FramePlanner → ℕ → FramePlanner
planner_after p planner i = record {
  planned_shard_index = shard_of p planner i;
  planned_payload_offset = offset_of p planner i + frame_len p i;
  planned_next_chunk_index = suc i;
}

shard_of_small :
    (opens : Bool) (shard : ℕ)
    → shard < 2 ^ 32
    → (if opens then (shard + 1) % 2 ^ 32 else shard) < 2 ^ 32
shard_of_small true shard h = omega arith
shard_of_small false shard h = h

pub shard_of-small :
    (p : PlanParams) (planner : FramePlanner) (i : ℕ)
    → planner.planned_shard_index < 2 ^ 32
    → shard_of p planner i < 2 ^ 32
shard_of-small p planner i h = shard_of_small (opens p planner i) planner.planned_shard_index h

pub plan_step :
    (options : ShardWriterOptions) (p : PlanParams) (planner : FramePlanner) (i : ℕ)
    → Matches options p
    → i < p.global_chunk_count
    → planner.planned_next_chunk_index ≡ i
    → planner.planned_shard_index < 2 ^ 32
    → plan_chunk_frame options false planner i
        (plain_len_at p i)
        (plain_len_at p i)
        p.tag_len
        (i == p.global_chunk_count - 1)
      ≡ ok (planned_frame p planner i, planner_after p planner i)
unfolding plan_chunk_frame
plan_step options p planner i m inside next small_shard =
    let short = plain_len_le p i m.fits in
    let count = m.fits.count_fits in
    let (_, small) = frame_size p i m.fits in
    let index_small : i < 2 ^ 64 = omega (arith, inside, count) in
    let (sized, _) =
      frame_header-written options p i planner.planned_shard_index m index_small small_shard in
    let (_, written) =
      frame_header-written options p i (shard_of p planner i) m index_small
        (shard_of-small p planner i small_shard) in
    let plain : plain_len_at p i % 2 ^ 32 ≡ plain_len_at p i = omega (arith, short, m.small_size) in
    let fits : (offset_of p planner i + frame_len p i) % 2 ^ 64
        ≡ offset_of p planner i + frame_len p i =
      omega (arith, offset_room p planner i m.fits, m.fits.max_fits) in
    let after : (i + 1) % 2 ^ 64 ≡ suc i = omega (arith, inside, count) in
    rw
      (
        next,
        (==_iff i i).1 refl,
        m.same_size,
        m.same_max,
        le→ltb_false p.chunk_plain_size (plain_len_at p i) short,
        le→ltb_false (2 ^ 32 - 1) (plain_len_at p i) (omega (arith, short, m.small_size)),
        plain,
        sized,
        le→ltb_false p.max_shard_payload_len (frame_len p i) small,
        written,
        fits,
        after,
        plan_chunk_frame,
      )
      refl
