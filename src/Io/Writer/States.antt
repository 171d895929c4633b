-- ===== src/Io/Writer/States.antt =====
-- The states of ShardWriter (io/ShardWriter.cpp) between two frames.
use bseal_cpp.Base.{
  ℕ, ◌+◌, ◌-◌, ◌^◌, ◌%◌, ◌≤◌, ◌<◌, ◌≡◌, refl, sym, ◌∙◌, ap, Bool, false, ltb, ◌||◌, ◌&&◌, ◌==◌,
  length, length-append, append-nil, List, [], ◌++◌, Option, none, some, ok, arith, if◌then◌else◌,
}
use bseal_cpp.Frame.{
  GlobalFits, ShardPublicHeaderV1, ShardFits, default_shard_header, shard_header_v1_magic,
}
use bseal_cpp.Frame.Bytes.{equal_bytes}
use bseal_cpp.Frame.Global.{serialize_global_public_header}
use bseal_cpp.Frame.Global.Layout.{global_bytes, serialize_global-eq, length-global_bytes}
use bseal_cpp.Frame.Shard.Laws.{shard_bytes, serialize_shard-eq, length-shard_bytes}
use bseal_cpp.App.Plan.{PlanParams, plain_len_at}
use bseal_cpp.App.Plan.Laws.{frames_len}
use bseal_cpp.Io.Writer.{ShardWriterOptions, ShardWriter}
use bseal_cpp.Io.Writer.Shards.{has_path, draw_name, open_next_shard}
use bseal_cpp.Io.Writer.Planner.{Matches}
use bseal_cpp.Io.Writer.Rewriting.{Keyed}
use bseal_cpp.Io.Writer.Chain.{stored, Chain, Chain-has_path}

-- The options are those that were planned for, the key and the global header are what their C++ types
-- say, and the names that are drawn differ from each other and from those that exist.
pub record Setting (options : ShardWriterOptions) (p : PlanParams) (names : ℕ → List ℕ)
    (exists : List ℕ → Bool) (hmac_sha256 : List ℕ → List ℕ → Option (List ℕ)) : Type 0 where
  pub matches : Matches options p
  pub global_fits : GlobalFits options.global_header
  pub keyed : Keyed hmac_sha256 options.header_authentication_key
  pub free : (j : ℕ) → exists (names j) ≡ false
  pub distinct : (i j : ℕ) → i < j → equal_bytes (names j) (names i) ≡ false

-- final_chunk_plaintext_len when the chunks before i are written.
abbrev pub final_len : PlanParams → ℕ → ℕ
final_len p i =
    if i == p.global_chunk_count && ltb 0 p.global_chunk_count
    then plain_len_at p (p.global_chunk_count - 1)
    else 0

placeholder-ShardFits :
    ShardFits (record default_shard_header { shard_magic = shard_header_v1_magic })
unfolding default_shard_header
placeholder-ShardFits = record {
  shard_magic_size = refl;
  shard_header_len_fits = omega arith;
  shard_index_fits = omega arith;
  first_global_chunk_index_fits = omega arith;
  shard_chunk_count_fits = omega arith;
  shard_payload_len_fits = omega arith;
  header_mac_size = refl;
  reserved0_fits = omega arith;
}

module _ (options : ShardWriterOptions) (p : PlanParams) (names : ℕ → List ℕ)
    (body : ℕ → List ℕ) where
  -- The shards before the k-th are finalized, and hold the chunks before `first`.
  pub record Settled (w : ShardWriter) (low k first : ℕ) : Type 0 where
    pub options_are : w.options ≡ options
    pub unfinished : w.finished ≡ false
    pub drawn_from : low ≤ w.drawn
    pub last : w.final_chunk_plaintext_len ≡ final_len p w.next_expected_chunk_index
    pub chain : Chain p body names 0 0 0 w.finalized_shards low k first

  -- No shard is open, and the k-th begins with the chunk `first`.
  pub record Closed (w : ShardWriter) (low k first : ℕ) : Type 0 where
    pub settled : Settled w low k first
    pub stream : w.current_stream ≡ none
    pub next : w.next_shard_index ≡ k % 2 ^ 32
    pub expected : w.next_expected_chunk_index ≡ first

  -- The k-th shard is open and holds n chunks from `first` on.
  pub record Open (w : ShardWriter) (low k first n : ℕ) : Type 0 where
    pub settled : Settled w low k first
    pub head : List ℕ
    pub head_size : length head ≡ 272
    pub stream : w.current_stream ≡ some (head ++ stored p body k first n)
    pub name : ℕ
    pub name_from : low ≤ name
    pub name_drawn : name < w.drawn
    pub path : w.current_path ≡ names name
    pub index : w.current_shard_index ≡ k % 2 ^ 32
    pub next : w.next_shard_index ≡ (k + 1) % 2 ^ 32
    pub offset : w.current_payload_offset ≡ frames_len p first n
    pub start : w.current_first_chunk_index ≡ first
    pub count : w.current_chunk_count ≡ n
    pub expected : w.next_expected_chunk_index ≡ first + n

  module _ (exists : List ℕ → Bool) (hmac_sha256 : List ℕ → List ℕ → Option (List ℕ))
      (setting : Setting options p names exists hmac_sha256) where
    pub Open-ok :
        (w : ShardWriter) (low k first : ℕ)
        → Closed w low k first
        → (w' : ShardWriter) × (open_next_shard names exists w first ≡ ok w')
          × Open w' low k first 0
    unfolding open_next_shard draw_name stored
    Open-ok w low k first c =
        let s = c.settled in
        let new : exists (names w.drawn) || has_path (names w.drawn) w.finalized_shards ≡ false =
          both_false (exists (names w.drawn)) (has_path (names w.drawn) w.finalized_shards)
            (setting.free w.drawn)
            (Chain-has_path p body names w.finalized_shards 0 0 0 low k first w.drawn
              setting.distinct s.drawn_from s.chain) in
        let placeholder : ShardPublicHeaderV1 = record default_shard_header {
          shard_magic = shard_header_v1_magic;
        } in
        let head = global_bytes options.global_header [] ++ shard_bytes placeholder [] in
        let global_written : serialize_global_public_header w.options.global_header
            ≡ ok (global_bytes options.global_header []) =
          ap (λ o. serialize_global_public_header o.global_header) s.options_are
          ∙ serialize_global-eq options.global_header setting.global_fits in
        let w' : ShardWriter = record w {
          current_stream = some head;
          current_path = names w.drawn;
          current_shard_index = w.next_shard_index;
          next_shard_index = (w.next_shard_index + 1) % 2 ^ 32;
          current_payload_offset = 0;
          current_first_chunk_index = first;
          current_chunk_count = 0;
          drawn = w.drawn + 1;
        } in
        (
          w',
          rw
              (
                new,
                global_written,
                serialize_shard-eq placeholder placeholder-ShardFits,
                open_next_shard,
              )
              refl,
          record {
            settled = record {
              options_are = s.options_are;
              unfinished = s.unfinished;
              drawn_from = omega (arith, s.drawn_from);
              last = s.last;
              chain = s.chain;
            };
            head = head;
            head_size = omega (
              arith,
              length-append (global_bytes options.global_header []) (shard_bytes placeholder []),
              length-global_bytes options.global_header [] setting.global_fits,
              length-shard_bytes placeholder [] placeholder-ShardFits,
            );
            stream = ap some (sym (append-nil head));
            name = w.drawn;
            name_from = s.drawn_from;
            name_drawn = omega arith;
            path = refl;
            index = c.next;
            next = omega (arith, c.next);
            offset = refl;
            start = refl;
            count = refl;
            expected = omega (arith, c.expected);
          },
        )
      where
        both_false : (a b : Bool) → a ≡ false → b ≡ false → (a || b) ≡ false
        both_false a b e f = ground arith
