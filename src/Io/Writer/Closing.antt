-- ===== src/Io/Writer/Closing.antt =====
-- close_current_shard (io/ShardWriter.cpp) finalizes the shard that is open.
use bseal_cpp.Base.{
  ℕ, suc, ◌+◌, ◌^◌, ◌%◌, ◌≤◌, ◌<◌, ◌≡◌, refl, sym, subst, ◌∙◌, ap, Bool, false, ◌==◌, length-append,
  length-take, take, List, [], ◌∷◌, ◌++◌, Option, none, ok, arith,
}
use bseal_cpp.Frame.Shard.Laws.{shard_bytes, length-shard_bytes}
use bseal_cpp.App.Plan.{PlanParams}
use bseal_cpp.App.Plan.Laws.{frames_len}
use bseal_cpp.Io.Writer.{ShardWriterOptions, ShardWriter, FinalizedShard}
use bseal_cpp.Io.Writer.Shards.{close_current_shard, rewrite_shard_header}
use bseal_cpp.Io.Writer.Rewriting.{
  FinalizedFits, rewrite_ok, sealed_header, sealed_header-ShardFits, mac_of, length-mac_of,
}
use bseal_cpp.Io.Writer.Chain.{stored, IsStored, Chain, Chain-snoc}
use bseal_cpp.Io.Writer.States.{Setting, Closed, Open}

-- The shard that is open, as it is pushed before its header is rewritten.
abbrev shard_of_open : ShardWriter → List ℕ → FinalizedShard
shard_of_open w content = record {
  path = w.current_path;
  shard_index = w.current_shard_index;
  first_chunk_index = w.current_first_chunk_index;
  chunk_count = w.current_chunk_count;
  payload_len = w.current_payload_offset;
  content = content;
}

not_zero : (n : ℕ) → 0 < n → (n == 0) ≡ false
not_zero n h = ground arith

module _ (options : ShardWriterOptions) (p : PlanParams) (names : ℕ → List ℕ) (body : ℕ → List ℕ)
    (exists : List ℕ → Bool) (hmac_sha256 : List ℕ → List ℕ → Option (List ℕ))
    (setting : Setting options p names exists hmac_sha256) where
  pub close_ok :
      (w : ShardWriter) (low k first n : ℕ)
      → Open options p names body w low k first n
      → 0 < n
      → first + n < 2 ^ 64
      → frames_len p first n ≤ p.max_shard_payload_len
      → (low' : ℕ) × (w' : ShardWriter) × (close_current_shard hmac_sha256 w ≡ ok w')
        × Closed options p names body w' low' (suc k) (first + n)
  unfolding close_current_shard
  close_ok w low k first n o some_chunk small room =
      let s = o.settled in
      let rest = stored p body k first n in
      let shard = shard_of_open w (o.head ++ rest) in
      let max = setting.matches.fits.max_fits in
      let fits : FinalizedFits shard = record {
        index_fits = omega (arith, o.index);
        first_fits = omega (arith, o.start, small);
        count_fits = omega (arith, o.count, small);
        payload_fits = omega (arith, o.offset, room, max);
      } in
      let mac =
        mac_of hmac_sha256 options.header_authentication_key options.global_header setting.keyed
          setting.global_fits shard in
      let mac_size =
        length-mac_of hmac_sha256 options.header_authentication_key options.global_header
          setting.keyed setting.global_fits shard in
      let head = take 192 o.head ++ shard_bytes (sealed_header shard mac) [] in
      let sealed : FinalizedShard = record shard { content = head ++ rest } in
      let rewritten : rewrite_shard_header hmac_sha256 w.options.header_authentication_key
            w.options.global_header shard
          ≡ ok sealed =
        ap (λ t. rewrite_shard_header hmac_sha256 t.header_authentication_key t.global_header shard)
          s.options_are
        ∙ rewrite_ok hmac_sha256 options.header_authentication_key options.global_header
            setting.keyed setting.global_fits shard o.head rest fits refl o.head_size in
      let w' : ShardWriter = record w {
        current_stream = none;
        current_path = [];
        current_payload_offset = 0;
        current_chunk_count = 0;
        finalized_shards = w.finalized_shards ++ (sealed ∷ []);
      } in
      let kept : IsStored p body names sealed low k first = record {
        name = o.name;
        name_from = o.name_from;
        path_is = o.path;
        index_is = o.index;
        first_is = o.start;
        some_chunk = omega (arith, o.count, some_chunk);
        payload_is = o.offset ∙ ap (frames_len p first) (sym o.count);
        payload_fits = omega (arith, o.offset, room);
        head = head;
        head_size = omega (
          arith,
          length-append (take 192 o.head) (shard_bytes (sealed_header shard mac) []),
          length-take 192 o.head,
          o.head_size,
          length-shard_bytes (sealed_header shard mac) []
              (sealed_header-ShardFits shard mac fits mac_size),
        );
        content_is = ap (λ c. head ++ stored p body k first c) (sym o.count);
      } in
      (
        suc o.name,
        w',
        rw
            (
              o.stream,
              not_zero w.current_chunk_count (omega (arith, o.count, some_chunk)),
              rewritten,
              close_current_shard,
            )
            refl,
        record {
          settled = record {
            options_are = s.options_are;
            unfinished = s.unfinished;
            drawn_from = o.name_drawn;
            last = s.last;
            chain =
                subst
                  (λ f.
                    Chain p body names 0 0 0 (w.finalized_shards ++ (sealed ∷ [])) (suc o.name)
                      (suc k) f)
                  (ap (λ c. first + c) o.count)
                  (Chain-snoc p body names w.finalized_shards sealed 0 0 0 low k first s.chain
                    kept);
          };
          stream = refl;
          next = o.next ∙ ap (λ j. j % 2 ^ 32) (omega arith);
          expected = o.expected;
        },
      )
