-- ===== src/Pipeline/Order/Total.antt =====
-- ordered_plaintext_consumer_main (pipeline/DecryptPipeline.cpp): the test of the total before finish.
use bseal_cpp.Base.{ℕ, ◌+◌, length, List, [], ◌∷◌, Result}

-- The bytes of all chunks.
abbrev pub total_bytes : List (ℕ × List ℕ) → ℕ
total_bytes [] = 0
total_bytes ((i, bytes) ∷ items) = length bytes + total_bytes items

module _ {S : Type 0} (consume : S → List ℕ → Result S) where
  abbrev pub consume_chunk : S → ℕ × List ℕ → Result S
  consume_chunk reader (i, bytes) = consume reader bytes
