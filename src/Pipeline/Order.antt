-- ===== src/Pipeline/Order.antt =====
-- ordered_writer_main (pipeline/EncryptPipeline.cpp) and ordered_plaintext_consumer_main
-- (pipeline/DecryptPipeline.cpp): chunks that arrive in any order are handed on in the order of their
-- indices. The two differ in their messages and in where the chunks go, the parameter `sink`:
-- ShardWriter::write_chunk_frame or ArchiveReader::consume, and in what follows the last one.
pub mod Laws
pub mod Complete
pub mod Total
use bseal_cpp.Base.{
  ℕ, zero, suc, ◌+◌, ◌%◌, ◌^◌, Bool, true, false, not, ◌&&◌, ltb, ◌==◌, length, List, [], ◌∷◌, ◌++◌,
  Option, none, some, Result, ok, err, error, out_of_fuel, reject_if, ◌>>=◌, ◌>>◌, String,
  if◌then◌else◌,
}

-- `pending.find(index)` with `pending.erase`: the chunk, and the others. No index occurs twice.
unfoldable pub take_index : {C : Type 0} → ℕ → List (ℕ × C) → Option (C × List (ℕ × C))
take_index index [] = none
take_index index ((i, c) ∷ rest) =
    let later = take_index index rest in
    if i == index
    then some (c, rest)
    else elim later [ none ↦ none | some (d, others) ↦ some (d, (i, c) ∷ others) ]

-- The locals of the thread, with the state behind the sink.
pub record Ordered (C S : Type 0) : Type 0 where
  pub pending : List (ℕ × C)
  pub next_expected_index : ℕ
  pub behind : S

module _ {C S : Type 0} (sink : S → ℕ × C → Result S) where
  -- The inner loop. It hands on one pending chunk a round.
  unfoldable pub flush : ℕ → Ordered C S → Result (Ordered C S)
  flush zero s = err out_of_fuel
  flush (suc fuel) s = elim (take_index s.next_expected_index s.pending) [
    | none ↦ ok s
    | some (c, others) ↦ elim (sink s.behind (s.next_expected_index, c)) [
      | err e ↦ err e
      | ok t ↦
          flush fuel (record {
            pending = others;
            next_expected_index = s.next_expected_index + 1;
            behind = t;
          })
    ]
  ]

  unfoldable pub receive : Ordered C S → ℕ × C → Result (Ordered C S)
  receive s item =
      if ltb item.0 s.next_expected_index
      then err (error "received a stale chunk")
      else elim (take_index item.0 s.pending) [
        | some _ ↦ err (error "received a duplicate chunk")
        | none ↦ flush (suc (suc (length s.pending))) (record s { pending = item ∷ s.pending })
      ]

  -- The outer loop over what the queue hands out, the test after it, and `close`, what the thread does then.
  -- `failed` is what failure_state.failed() answers after the loop.
  unfoldable pub receive_all :
      (S → Result S) → Bool → Ordered C S → List (ℕ × C) → Result (Ordered C S)
  unfolding receive
  receive_all close failed s [] =
      if not (length s.pending == 0) && not failed
      then err (error "ended with missing chunks")
      else close s.behind >>= λ t. ok (record s { behind = t })
  receive_all close failed s (item ∷ items) =
      receive s item >>= λ t. receive_all close failed t items

-- The end of ordered_writer_main: ShardWriter::finish, unless a thread has failed by then.
unfoldable pub close_writer : {S : Type 0} → (S → Result S) → Bool → S → Result S
close_writer finish failed writer = if not failed then finish writer else ok writer

-- The call of consume in ordered_plaintext_consumer_main, with total_plaintext_bytes.
unfoldable pub consume_counted :
    {S : Type 0} → (S → List ℕ → Result S) → S × ℕ → ℕ × List ℕ → Result (S × ℕ)
consume_counted consume (reader, total_plaintext_bytes) (index, bytes) = do
  reader ← consume reader bytes
  ok (reader, (total_plaintext_bytes + length bytes) % 2 ^ 64)

-- Its end: the test of the total, and ArchiveReader::finish. A thread may fail between the two tests.
unfoldable pub close_consumer :
    {S : Type 0} → (S → Result S) → ℕ → Bool → Bool → S × ℕ → Result (S × ℕ)
close_consumer finish expected_plaintext_bytes failed failed_later (reader, total_plaintext_bytes) =
    do
      reject_if
          (not failed
            && (not (expected_plaintext_bytes == 0)
                && not (total_plaintext_bytes == expected_plaintext_bytes)))
          "decrypted plaintext length does not match public header padded_plaintext_size"
      (if not failed_later
          then finish reader >>= (λ reader. ok (reader, total_plaintext_bytes))
          else ok (reader, total_plaintext_bytes))
