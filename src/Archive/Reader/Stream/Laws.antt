-- ===== src/Archive/Reader/Stream/Laws.antt =====
-- The loop of ArchiveReader::consume: it ends, and only the bytes matter, not how they arrive.
use bseal_cpp.Base.{
  ℕ, zero, suc, ◌≤◌, ◌<◌, ◌≡◌, ◌≢◌, refl, sym, ap, ◌∙◌, subst, Bool, length, take, drop, List, ◌++◌,
  none, some, Error, ok, arith, length-drop, take-append_le, drop-append_le, Result-cases, inl, inr,
  ◌>>=◌,
}
use bseal_cpp.Archive.Record.{encoded_record_size_if_complete, parse_record}
use bseal_cpp.Archive.Record.Laws.{encoded_size_extend, encoded_size_bounds}
use bseal_cpp.Archive.Reader.{Effect, ArchiveReader, process_record}
use bseal_cpp.Archive.Reader.Stream.{Drained, drain_round, drain, drain_all}

-- What follows a loop that waits for more bytes.
abbrev pub and_then : Drained → (ArchiveReader → List ℕ → Drained) → Drained
and_then (Drained.waits s pending) k = k s pending
and_then (Drained.throws e) k = Drained.throws e
and_then Drained.starved k = Drained.starved

module _ (works : List Effect → Effect → Bool) where
  -- Two rounds whose buffers have the same first record, or none, are related as what follows is.
  round_rel :
      (R : Drained → Drained → Type 0) (f g : ArchiveReader → List ℕ → Drained) (s : ArchiveReader)
      (p p' : List ℕ)
      → ((e : Error) → R (Drained.throws e) (Drained.throws e))
      → (encoded_record_size_if_complete p ≡ ok none
          → R (drain_round works f s p') (Drained.waits s p))
      → (encoded_record_size_if_complete p ≢ ok none
          → encoded_record_size_if_complete p' ≡ encoded_record_size_if_complete p)
      → ((size : ℕ) → size ≤ length p → take size p' ≡ take size p)
      → ((t : ArchiveReader) (size : ℕ)
          → 9 ≤ size
          → size ≤ length p
          → R (f t (drop size p')) (g t (drop size p)))
      → R (drain_round works f s p') (drain_round works g s p)
  unfolding drain_round
  round_rel R f g s p p' same wait enc front k =
      elim (Result-cases (encoded_record_size_if_complete p)) [
        | inr (e, q) ↦ rw (enc (λ h. cc), q, drain_round) (same e)
        | inl (none, q) ↦
            subst (R (drain_round works f s p')) (sym (rw (q, drain_round) refl)) (wait q)
        | inl (some size, q) ↦
            let (low, high) = encoded_size_bounds p size q in
            let run = parse_record (take size p) >>= process_record works s in
            elim (Result-cases run) [
              | inr (e, r) ↦ rw (enc (λ h. cc), q, front size high, r, drain_round) (same e)
              | inl (t, r) ↦
                  rw (enc (λ h. cc), q, front size high, r, drain_round) (k t size low high)
            ]
      ]

  drain_fuel :
      (n m : ℕ) (s : ArchiveReader) (p : List ℕ)
      → length p < n
      → length p < m
      → drain works n s p ≡ drain works m s p
  unfolding drain drain_round
  drain_fuel zero m s p a b = absurd (omega (arith, a))
  drain_fuel (suc n) zero s p a b = absurd (omega (arith, b))
  drain_fuel (suc n) (suc m) s p a b =
      round_rel (λ d e. d ≡ e) (drain works n) (drain works m) s p p (λ e. refl)
        (λ w. rw (w, drain_round) refl) (λ _. refl) (λ size h. refl)
        λ t size low high.
          drain_fuel n m t (drop size p) (omega (arith, a, low, high, length-drop size p))
            (omega (arith, b, low, high, length-drop size p))

  -- The fuel that consume gives its loop is enough: the loop ends at an incomplete record or by an
  -- exception.
  pub drain_ends :
      (n : ℕ) (s : ArchiveReader) (p : List ℕ) → length p < n → drain works n s p ≢ Drained.starved
  unfolding drain drain_round
  drain_ends zero s p a = absurd (omega (arith, a))
  drain_ends (suc n) s p a =
      round_rel (λ d e. e ≢ Drained.starved) (drain works n) (drain works n) s p p (λ e h. cc)
        (λ w h. cc) (λ _. refl) (λ size h. refl)
        λ t size low high.
          drain_ends n t (drop size p) (omega (arith, a, low, high, length-drop size p))

  -- `while (true)`: the loop is its round, followed by the loop on what is left.
  drain_unrolls :
      (s : ArchiveReader) (p : List ℕ)
      → drain_all works s p ≡ drain_round works (drain_all works) s p
  unfolding drain_all drain drain_round
  drain_unrolls s p =
      round_rel (λ d e. d ≡ e) (drain works (length p)) (drain_all works) s p p (λ e. refl)
        (λ w. rw (w, drain_round) refl) (λ _. refl) (λ size h. refl)
        λ t size low high.
          drain_fuel (length p) (suc (length (drop size p))) t (drop size p)
            (omega (arith, low, high, length-drop size p)) (omega arith)

  pub drain-append :
      (n : ℕ) (s : ArchiveReader) (p q : List ℕ)
      → length p < n
      → drain_all works s (p ++ q)
        ≡ and_then (drain_all works s p) (λ t r. drain_all works t (r ++ q))
  drain-append zero s p q h = absurd (omega (arith, h))
  drain-append (suc n) s p q h =
      drain_unrolls s (p ++ q)
      ∙ round_rel (λ d e. d ≡ and_then e (λ t r. drain_all works t (r ++ q))) (drain_all works)
          (drain_all works) s p (p ++ q) (λ e. refl) (λ w. sym (drain_unrolls s (p ++ q)))
          (encoded_size_extend p q) (λ size high. take-append_le size p q high)
          (λ t size low high.
            ap (drain_all works t) (drop-append_le size p q high)
            ∙ drain-append n t (drop size p) q (omega (arith, h, low, high, length-drop size p)))
      ∙ ap (λ d. and_then d (λ t r. drain_all works t (r ++ q))) (sym (drain_unrolls s p))
