-- ===== src/Io/Writer/Chain.antt =====
-- The shards that ShardWriter (io/ShardWriter.cpp) has finalized, one after the other.
use bseal_cpp.Base.{
  ℕ, zero, suc, ◌+◌, ◌^◌, ◌%◌, ◌≤◌, ◌<◌, ◌≡◌, refl, sym, ◌∙◌, ap, false, length, List, [], ◌∷◌,
  ◌++◌, arith,
}
use bseal_cpp.Frame.Bytes.{equal_bytes}
use bseal_cpp.Frame.Chunk.{append_chunk}
use bseal_cpp.App.Plan.{PlanParams}
use bseal_cpp.App.Plan.Laws.{frames_len}
use bseal_cpp.Io.Writer.{FinalizedShard}
use bseal_cpp.Io.Writer.Shards.{has_path}
use bseal_cpp.Io.Writer.Planner.{frame_header}

-- `body i` is the ciphertext of chunk i with its tag.
module _ (p : PlanParams) (body : ℕ → List ℕ) where
  -- The frame of a chunk in a shard, and some of them in a row.
  unfoldable pub frame_at : ℕ → ℕ → List ℕ
  frame_at k i = append_chunk [] (frame_header p i (k % 2 ^ 32)) ++ body i

  unfoldable pub stored : ℕ → ℕ → ℕ → List ℕ
  stored k first zero = []
  stored k first (suc n) = stored k first n ++ frame_at k (first + n)

  module _ (names : ℕ → List ℕ) where
    -- The k-th shard begins with the chunk `first`; its file has a name from `low` on, and holds its
    -- frames behind 272 bytes.
    pub record IsStored (s : FinalizedShard) (low k first : ℕ) : Type 0 where
      pub name : ℕ
      pub name_from : low ≤ name
      pub path_is : s.path ≡ names name
      pub index_is : s.shard_index ≡ k % 2 ^ 32
      pub first_is : s.first_chunk_index ≡ first
      pub some_chunk : 0 < s.chunk_count
      pub payload_is : s.payload_len ≡ frames_len p first s.chunk_count
      pub payload_fits : s.payload_len ≤ p.max_shard_payload_len
      pub head : List ℕ
      pub head_size : length head ≡ 272
      pub content_is : s.content ≡ head ++ stored k first s.chunk_count

    -- Shards in a row, from a name, a number and a chunk to others.
    abbrev pub Chain : ℕ → ℕ → ℕ → List FinalizedShard → ℕ → ℕ → ℕ → Type 0
    Chain low k first [] low' k' first' = (low ≤ low') × (k ≡ k') × (first ≡ first')
    Chain low k first (s ∷ ss) low' k' first' =
        (stored_as : IsStored s low k first) × Chain (suc stored_as.name) (suc k)
          (first + s.chunk_count) ss low' k' first'

    pub Chain-snoc :
        (ss : List FinalizedShard) (s : FinalizedShard) (low k first low' k' first' : ℕ)
        → Chain low k first ss low' k' first'
        → (stored_as : IsStored s low' k' first')
        → Chain low k first (ss ++ (s ∷ [])) (suc stored_as.name) (suc k') (first' + s.chunk_count)
    Chain-snoc [] s low k first low' k' first' c i =
        let from : low ≤ i.name = omega (arith, c.0, i.name_from) in
        let moved : IsStored s low k first = record {
          name = i.name;
          name_from = from;
          path_is = i.path_is;
          index_is = i.index_is ∙ ap (λ n. n % 2 ^ 32) (sym c.1);
          first_is = i.first_is ∙ sym c.2;
          some_chunk = i.some_chunk;
          payload_is = i.payload_is ∙ ap (λ f. frames_len p f s.chunk_count) (sym c.2);
          payload_fits = i.payload_fits;
          head = i.head;
          head_size = i.head_size;
          content_is =
              i.content_is
              ∙ ap (λ n. i.head ++ stored n first' s.chunk_count) (sym c.1)
              ∙ ap (λ f. i.head ++ stored k f s.chunk_count) (sym c.2);
        } in
        (moved, (omega arith, ap suc c.1, ap (λ f. f + s.chunk_count) c.2))
    Chain-snoc (t ∷ ss) s low k first low' k' first' c i =
        (c.0, Chain-snoc ss s (suc c.0.name) (suc k) (first + t.chunk_count) low' k' first' c.1 i)

    pub Chain-low :
        (ss : List FinalizedShard) (low k first low' k' first' : ℕ)
        → Chain low k first ss low' k' first'
        → low ≤ low'
    Chain-low [] low k first low' k' first' c = c.0
    Chain-low (t ∷ ss) low k first low' k' first' c =
        let more = Chain-low ss (suc c.0.name) (suc k) (first + t.chunk_count) low' k' first' c.1 in
        omega (arith, more, c.0.name_from)

    -- A name behind those of a chain is new.
    pub Chain-has_path :
        (ss : List FinalizedShard) (low k first low' k' first' j : ℕ)
        → ((i j : ℕ) → i < j → equal_bytes (names j) (names i) ≡ false)
        → low' ≤ j
        → Chain low k first ss low' k' first'
        → has_path (names j) ss ≡ false
    unfolding has_path
    Chain-has_path [] low k first low' k' first' j distinct h c = refl
    Chain-has_path (t ∷ ss) low k first low' k' first' j distinct h c =
        let below =
          Chain-low ss (suc c.0.name) (suc k) (first + t.chunk_count) low' k' first' c.1 in
        let differs : equal_bytes (names j) t.path ≡ false =
          ap (equal_bytes (names j)) c.0.path_is ∙ distinct c.0.name j (omega (arith, below, h)) in
        rw
          (
            differs,
            Chain-has_path ss (suc c.0.name) (suc k) (first + t.chunk_count) low' k' first' j
                distinct h c.1,
          )
          refl
