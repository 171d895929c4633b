-- ===== src/Tests/Writer.antt =====
-- A ShardWriter for an archive of five chunks.
use bseal_cpp.Base.{
  ℕ, suc, ◌+◌, ◌≤◌, ◌<◌, ◌≡◌, ◌≢◌, ◌↔◌, refl, inl, some, List, [], ◌∷◌, map, replicate, length,
  length-replicate, false, Bool, ok, err, authentication_failed, arith,
}
use bseal_cpp.Endian.{all_zero, text_bytes}
use bseal_cpp.Frame.Bytes.{equal_bytes, is_power_of_two}
use bseal_cpp.Frame.Global.Rules.{GlobalRules}
use bseal_cpp.Io.Discover.{ShardInfo, has_bin_extension, discover}
use bseal_cpp.Frame.Mac.{compute_shard_header_mac}
use bseal_cpp.Io.Validate.{validate_with_key, authenticate}
use bseal_cpp.Io.Validate.Genuine.{authenticate_decides}
use bseal_cpp.Io.Reader.{ChunkRecord, new_reader, read_records}
use bseal_cpp.Io.ReadBack.Discovered.{entry_of}
use bseal_cpp.Io.ReadBack.Validated.{expectation_of}
use bseal_cpp.Io.ReadBack.Chunks.{content_at, content_of, planned_contents}
use bseal_cpp.Io.ReadBack.RoundTrip.{ForReading, write_read}
use bseal_cpp.App.Plan.{ShardPlan, PlanParams, plan_shards, plain_len_at}
use bseal_cpp.Io.Writer.{
  ShardWriterOptions, ShardWriter, PlannedChunkFrame, new_planner, empty_writer, plan_frames,
}
use bseal_cpp.Io.Writer.Write.{write_frames, finish}
use bseal_cpp.Io.Writer.Planner.{Matches}
use bseal_cpp.Io.Writer.Placed.{planned_chunks, places, position_of}
use bseal_cpp.Io.Writer.Agreement.{planner_agrees}
use bseal_cpp.Io.Writer.Rewriting.{Keyed}
use bseal_cpp.Io.Writer.States.{Setting}
use bseal_cpp.Io.Writer.Finish.{Files}
use bseal_cpp.Io.Writer.Files.{with_bodies, final_global, Bodies}
use bseal_cpp.Io.Writer.Written.{writer-Files}
use bseal_cpp.Tests.Frame.{
  small_global, small_global-GlobalFits, small_shard, small_shard-ShardFits, constant_mac,
}

abbrev key : List ℕ
key = replicate 32 8

-- Five chunks of 64 KiB, the last one of 7 bytes, two to a shard.
abbrev five_chunks : PlanParams
five_chunks = record {
  global_chunk_count = 5;
  chunk_plain_size = 65536;
  tag_len = 16;
  max_shard_payload_len = 140000;
  final_plaintext_chunk_len = 7;
}

abbrev pub five_options : ShardWriterOptions
five_options = record {
  output_dir = b'o' ∷ [];
  max_shard_payload_len = 140000;
  global_header = small_global;
  header_authentication_key = key;
  per_shard_public_header_hashes = replicate 3 (replicate 32 1);
}

five_match : Matches five_options five_chunks
five_match = record {
  fits = record {
    count_fits = omega arith;
    final_fits = omega arith;
    tag_fits = omega arith;
    max_fits = omega arith;
    frame_fits = omega arith;
  };
  same_max = refl;
  same_size = refl;
  small_size = omega arith;
  tag = refl;
}

planner_agrees_example :
    (plans : List ShardPlan) × (frames : List PlannedChunkFrame) × (plan_shards five_chunks
      ≡ ok plans)
    × (plan_frames five_options 16 new_planner (planned_chunks five_chunks 0 5) ≡ ok frames)
    × (map position_of frames ≡ places five_chunks plans)
planner_agrees_example = planner_agrees five_options five_chunks five_match

abbrev short_name : ℕ → List ℕ
short_name n = n ∷ text_bytes ".bin"

abbrev no_file : List ℕ → Bool
no_file path = false

abbrev five_bodies : ℕ → List ℕ
five_bodies i = replicate (plain_len_at five_chunks i + 16) i

constant_mac-Keyed : Keyed constant_mac key
constant_mac-Keyed = record {
  some_key = omega arith;
  small_key = omega arith;
  mac = λ _. replicate 32 5;
  mac_is = λ _. refl;
  mac_size = λ _. refl;
}

names_differ : (i j : ℕ) → i < j → equal_bytes (short_name j) (short_name i) ≡ false
unfolding equal_bytes
names_differ i j h = ground arith

five-Setting : Setting five_options five_chunks short_name no_file constant_mac
five-Setting = record {
  matches = five_match;
  global_fits = small_global-GlobalFits;
  keyed = constant_mac-Keyed;
  free = λ _. refl;
  distinct = names_differ;
}

five_sized : Bodies five_chunks five_bodies
unfolding plain_len_at
five_sized = record {
  some_chunk = omega arith;
  last_chunk = omega arith;
  sized = λ i _. length-replicate (plain_len_at five_chunks i + 16) i;
  total_fits = omega arith;
}

writer-Files_example :
    (frames : List PlannedChunkFrame) × (written : ShardWriter) × (left : ShardWriter)
    × (plan_frames five_options 16 new_planner (planned_chunks five_chunks 0 5) ≡ ok frames)
    × (write_frames short_name no_file constant_mac
          (empty_writer five_options)
          (with_bodies five_bodies 0 frames)
        ≡ ok (map position_of frames, written))
    × (finish constant_mac written ≡ ok left)
    × Files five_chunks five_bodies short_name constant_mac key
        (final_global five_options five_chunks (length left.finalized_shards))
        0
        0
        0
        left.finalized_shards
        5
writer-Files_example =
    writer-Files five_options five_chunks short_name five_bodies no_file constant_mac five-Setting
      five_sized

five_rules :
    (shards : ℕ)
    → 0 < shards
    → shards ≤ 5
    → GlobalRules (final_global five_options five_chunks shards)
unfolding plain_len_at is_power_of_two all_zero
five_rules shards h few = record {
  identity = record {
    major = refl;
    minor = refl;
    global_len = refl;
    shard_len = refl;
    frame_len = refl;
    flags = refl;
    aead = inl refl;
    kdf = refl;
    hash = refl;
    mac = refl;
  };
  sizes = record {
    some_shard = omega (arith, h, few);
    shards_le_chunks = omega (arith, few);
    some_plaintext = omega arith;
    chunk_power = refl;
    chunk_min = omega arith;
    chunk_max = omega arith;
    some_final = omega arith;
    final_le_chunk = omega arith;
    consistent = omega arith;
  };
  padding = inl (refl, refl);
  limits = record { some_payload = omega arith; features = refl; reserved = refl; tail = refl };
}

five_readable : ForReading five_options five_chunks short_name
unfolding all_zero has_bin_extension equal_bytes
five_readable = record {
  key_size = refl;
  key_not_zero = refl;
  extension = λ _. refl;
  few_chunks = omega arith;
  room = omega arith;
  is_magic = refl;
  rules = five_rules;
}

abbrev constant_hash : List ℕ → List ℕ
constant_hash bytes = replicate 32 1

write_read_example :
    (frames : List PlannedChunkFrame) × (written : ShardWriter) × (left : ShardWriter)
    × (shards : List ShardInfo) × (chunks : List ChunkRecord) × (plan_frames five_options 16
          new_planner
          (planned_chunks five_chunks 0 5)
        ≡ ok frames)
    × (write_frames short_name no_file constant_mac
          (empty_writer five_options)
          (with_bodies five_bodies 0 frames)
        ≡ ok (map position_of frames, written))
    × (finish constant_mac written ≡ ok left)
    × (discover constant_hash (some (map entry_of left.finalized_shards)) ≡ ok shards)
    × (validate_with_key constant_mac key
          (expectation_of (final_global five_options five_chunks (length shards)))
          shards
        ≡ ok (shards, 5))
    × (read_records (content_at left.finalized_shards) (suc (length chunks)) (new_reader shards 5)
        ≡ ok chunks)
    × (map content_of chunks ≡ planned_contents five_chunks five_bodies 0 5)
write_read_example =
    write_read five_options five_chunks short_name five_bodies no_file constant_mac constant_hash
      five-Setting five_sized five_readable

abbrev found_shard : ShardInfo
found_shard = record {
  path = short_name 0;
  global_header = small_global;
  shard_header = small_shard;
  public_header_hash = replicate 32 1;
  file_size = 65864;
}

authenticate_decides_example :
    (mac : List ℕ) × (compute_shard_header_mac constant_mac key small_global small_shard ≡ ok mac)
    × ((authenticate constant_mac key found_shard ≡ ok tt) ↔ (small_shard.header_mac ≡ mac))
    × ((authenticate constant_mac key found_shard ≡ err authentication_failed)
        ↔ (small_shard.header_mac ≢ mac))
authenticate_decides_example =
    authenticate_decides constant_mac key found_shard constant_mac-Keyed small_global-GlobalFits
      small_shard-ShardFits
