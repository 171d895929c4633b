-- ===== src/Io/Stream/Laws.antt =====
-- read_exact (io/ShardReader.cpp) takes what lies ahead.
use bseal_cpp.Base.{
  take-append_length, le→ltb_false, ℕ, zero, suc, ◌+◌, ◌-◌, ◌^◌, ◌<◌, ◌≡◌, refl, sym, ◌∙◌, ap, ltb,
  ◌==◌, ==_iff, not, not-false, length, take, drop, take-append-drop, List, [], ◌∷◌, ◌++◌, String,
  ok, reject_if, rejected, then-eq-ok, ok_injective, arith,
}
use bseal_cpp.Io.Stream.{Stream, ahead, read_exact}

drop_nil : (n : ℕ) → ◌≡◌ {A = List ℕ} (drop n []) []
drop_nil zero = refl
drop_nil (suc n) = refl

pub drop-drop : (m n : ℕ) (xs : List ℕ) → drop n (drop m xs) ≡ drop (m + n) xs
drop-drop zero n xs = ap (λ k. drop k xs) (omega arith)
drop-drop (suc m) n [] = drop_nil n ∙ sym (drop_nil (suc m + n))
drop-drop (suc m) n (x ∷ xs) =
    let e : suc m + n ≡ suc (m + n) = omega arith in
    drop-drop m n xs ∙ ap (λ k. drop k (x ∷ xs)) (sym e)

-- What a successful read returns stood ahead, and the rest of it is ahead now.
pub read_exact_lem :
    (stream stream' : Stream) (count : ℕ) (message : String) (out : List ℕ)
    → read_exact stream count message ≡ ok (out, stream')
    → (ahead stream ≡ out ++ ahead stream')
      × (length out ≡ count)
      × (stream'.position ≡ stream.position + count)
unfolding read_exact
read_exact_lem stream stream' count message out e =
    let (_, e) = then-eq-ok (reject_if (ltb (2 ^ 63 - 1) count) _) _ e in
    let (full, e) =
      then-eq-ok (reject_if (not (length (take count (ahead stream)) == count)) _) _ e in
    let size = (==_iff _ _).0 (not-false _ (rejected _ _ full)) in
    let result = ok_injective e in
    let taken : take count (ahead stream) ≡ out = ap (λ r. r.0) result in
    let moved : record stream { position = stream.position + count } ≡ stream' =
      ap (λ r. r.1) result in
    let left : ahead stream' ≡ drop count (ahead stream) =
      ap ahead (sym moved) ∙ sym (drop-drop stream.position count stream.bytes) in
    (
      sym (take-append-drop count (ahead stream)) ∙ rw (taken, left),
      ap length (sym taken) ∙ size,
      ap (λ s. s.position) (sym moved),
    )

-- A read of what is there succeeds.
pub read_exact_ok :
    (stream : Stream) (message : String) (out rest : List ℕ)
    → length out < 2 ^ 63
    → ahead stream ≡ out ++ rest
    → read_exact stream (length out) message
      ≡ ok (out, record stream { position = stream.position + length out })
unfolding read_exact
read_exact_ok stream message out rest small e =
    rw
      (
        le→ltb_false (2 ^ 63 - 1) (length out) (omega (arith, small)),
        e,
        take-append_length out rest,
        (==_iff (length out) (length out)).1 refl,
        read_exact,
      )
      refl
