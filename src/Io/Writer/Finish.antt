-- ===== src/Io/Writer/Finish.antt =====
-- The loop of ShardWriter::finish (io/ShardWriter.cpp) over the finalized shards.
use bseal_cpp.Base.{
  ℕ, suc, ◌+◌, ◌^◌, ◌%◌, ◌≤◌, ◌<◌, ◌≡◌, refl, sym, subst, ◌∙◌, ap, length, length-append,
  length-take, length-drop, take, drop, take-append-drop, take-append_length, replicate, List, [],
  ◌∷◌, ◌++◌, append_assoc, Option, ok, arith,
}
use bseal_cpp.Frame.{GlobalPublicHeaderV1, GlobalFits}
use bseal_cpp.Frame.Global.Layout.{global_bytes, length-global_bytes}
use bseal_cpp.Frame.Shard.Laws.{shard_bytes}
use bseal_cpp.Frame.Mac.{compute_shard_header_mac}
use bseal_cpp.App.Plan.{PlanParams}
use bseal_cpp.App.Plan.Laws.{frames_len}
use bseal_cpp.Io.Writer.{FinalizedShard}
use bseal_cpp.Io.Writer.Shards.{overwrite, rewrite_shard_header}
use bseal_cpp.Io.Writer.Write.{rewrite_shards}
use bseal_cpp.Io.Writer.Rewriting.{
  Keyed, FinalizedFits, rewrite_ok, sealed_header, mac_of, computed, overwrite-append,
}
use bseal_cpp.Io.Writer.Chain.{stored, IsStored, Chain}

module _ (p : PlanParams) (body : ℕ → List ℕ) (names : ℕ → List ℕ)
    (hmac_sha256 : List ℕ → List ℕ → Option (List ℕ)) (key : List ℕ)
    (global : GlobalPublicHeaderV1) where
  -- The file of the k-th shard, whose chunks begin with `first`: the two headers, with the MAC of both,
  -- and the frames. Its name is one that was drawn from `low` on.
  pub record IsFile (s : FinalizedShard) (low k first : ℕ) : Type 0 where
    pub name : ℕ
    pub name_from : low ≤ name
    pub path_is : s.path ≡ names name
    pub index_is : s.shard_index ≡ k % 2 ^ 32
    pub first_is : s.first_chunk_index ≡ first
    pub some_chunk : 0 < s.chunk_count
    pub payload_is : s.payload_len ≡ frames_len p first s.chunk_count
    pub payload_fits : s.payload_len ≤ p.max_shard_payload_len
    pub mac : List ℕ
    pub mac_is :
        compute_shard_header_mac hmac_sha256 key global (sealed_header s (replicate 32 0)) ≡ ok mac
    pub content_is :
        s.content
        ≡ (global_bytes global [] ++ shard_bytes (sealed_header s mac) [])
          ++ stored p body k first s.chunk_count

  -- The files of shards in a row, from a name, a number and a chunk to the end of the chunks.
  abbrev pub Files : ℕ → ℕ → ℕ → List FinalizedShard → ℕ → Type 0
  Files low k first [] end = first ≡ end
  Files low k first (s ∷ ss) end =
      (file : IsFile s low k first) × Files (suc file.name) (suc k) (first + s.chunk_count) ss end

  Chain-first :
      (ss : List FinalizedShard) (low k first low' k' first' : ℕ)
      → Chain p body names low k first ss low' k' first'
      → first ≤ first'
  Chain-first [] low k first low' k' first' c = omega (arith, c.2)
  Chain-first (t ∷ ss) low k first low' k' first' c =
      let more = Chain-first ss (suc c.0.name) (suc k) (first + t.chunk_count) low' k' first' c.1 in
      omega (arith, more)

  module _ (keyed : Keyed hmac_sha256 key) (fits : GlobalFits global) where
    rewrite_one :
        (s : FinalizedShard) (low k first : ℕ)
        → FinalizedFits s
        → (i : IsStored p body names s low k first)
        → (s' : FinalizedShard) × (rewrite_shard_header hmac_sha256 key global
              (record s { content = overwrite 0 (global_bytes global []) s.content })
            ≡ ok s')
          × (file : IsFile s' low k first) × (s'.chunk_count ≡ s.chunk_count)
          × (file.name ≡ i.name)
    rewrite_one s low k first f i =
        let rest = stored p body k first s.chunk_count in
        let written = global_bytes global [] in
        let size = length-global_bytes global [] fits in
        let first_part : length (take 192 i.head) ≡ 192 =
          omega (arith, length-take 192 i.head, i.head_size) in
        let split : s.content ≡ take 192 i.head ++ (drop 192 i.head ++ rest) =
          i.content_is
          ∙ ap (λ h. h ++ rest) (sym (take-append-drop 192 i.head))
          ∙ append_assoc (take 192 i.head) (drop 192 i.head) rest in
        let replaced : overwrite 0 written s.content ≡ (written ++ drop 192 i.head) ++ rest =
          ap (overwrite 0 written) split
          ∙ overwrite-append written (take 192 i.head) (drop 192 i.head ++ rest) 0
              (omega (arith, first_part, size))
          ∙ sym (append_assoc written (drop 192 i.head) rest) in
        let given : FinalizedShard = record s { content = overwrite 0 written s.content } in
        let given_fits : FinalizedFits given = record {
          index_fits = f.index_fits;
          first_fits = f.first_fits;
          count_fits = f.count_fits;
          payload_fits = f.payload_fits;
        } in
        let mac = mac_of hmac_sha256 key global keyed fits given in
        let front : take 192 (written ++ drop 192 i.head) ≡ written =
          subst (λ n. take n (written ++ drop 192 i.head) ≡ written) size
            (take-append_length written (drop 192 i.head)) in
        let sealed : FinalizedShard = record s {
          content = (written ++ shard_bytes (sealed_header s mac) []) ++ rest;
        } in
        let done : rewrite_shard_header hmac_sha256 key global given ≡ ok sealed =
          rewrite_ok hmac_sha256 key global keyed fits given (written ++ drop 192 i.head) rest
            given_fits replaced
            (omega (
              arith,
              length-append written (drop 192 i.head),
              size,
              length-drop 192 i.head,
              i.head_size,
            ))
          ∙ ap
              (λ h. ok (record s { content = (h ++ shard_bytes (sealed_header s mac) []) ++ rest }))
              front in
        (
          sealed,
          done,
          record {
            name = i.name;
            name_from = i.name_from;
            path_is = i.path_is;
            index_is = i.index_is;
            first_is = i.first_is;
            some_chunk = i.some_chunk;
            payload_is = i.payload_is;
            payload_fits = i.payload_fits;
            mac = mac;
            mac_is = computed hmac_sha256 key global keyed fits given given_fits;
            content_is = refl;
          },
          refl,
          refl,
        )

    pub rewrite_all :
        (ss : List FinalizedShard) (low k first low' k' first' : ℕ)
        → p.max_shard_payload_len < 2 ^ 64
        → first' < 2 ^ 64
        → Chain p body names low k first ss low' k' first'
        → (done : List FinalizedShard) × (rewrite_shards hmac_sha256 key global
              (global_bytes global [])
              ss
            ≡ ok done)
          × (length done ≡ length ss)
          × Files low k first done first'
    unfolding rewrite_shards
    rewrite_all [] low k first low' k' first' m e c = ([], refl, refl, c.2)
    rewrite_all (s ∷ ss) low k first low' k' first' m e c =
        let i = c.0 in
        let within =
          Chain-first ss (suc i.name) (suc k) (first + s.chunk_count) low' k' first' c.1 in
        let f : FinalizedFits s = record {
          index_fits = omega (arith, i.index_is);
          first_fits = omega (arith, i.first_is, within, e);
          count_fits = omega (arith, within, e);
          payload_fits = omega (arith, i.payload_fits, m);
        } in
        let (s', one, file, same, named) = rewrite_one s low k first f i in
        let (done, more, long, files) =
          rewrite_all ss (suc i.name) (suc k) (first + s.chunk_count) low' k' first' m e c.1 in
        (
          s' ∷ done,
          rw (one, more, rewrite_shards) refl,
          omega (arith, long),
          (
            file,
            subst (λ n. Files (suc n) (suc k) (first + s'.chunk_count) done first') (sym named)
                (subst (λ n. Files (suc i.name) (suc k) (first + n) done first') (sym same) files),
          ),
        )
