-- ===== src/Frame/Bytes.antt =====
-- io/ShardFrame.cpp: comparison of byte ranges (`std::equal`), the power-of-two test, and the frame
-- that the header parsers share.
use bseal_cpp.Endian.{Parser}
use bseal_cpp.Base.{
  ◌≤◌, ap, subst, String, Result, ok, err, ok_injective, invalid_argument, ltb, le→ltb_false,
  ltb_false→le, Result-cases, if◌then◌else◌, length, take, ℕ, ◌-◌, ◌≡◌, refl, Bool, true, false,
  ◌&&◌, not, bit_and, List, [], ◌∷◌, ◌==◌, arith, Bool-cases, inl, inr,
}

unfoldable pub equal_bytes : List ℕ → List ℕ → Bool
equal_bytes [] [] = true
equal_bytes [] (b ∷ bs) = false
equal_bytes (a ∷ as') [] = false
equal_bytes (a ∷ as') (b ∷ bs) = a == b && equal_bytes as' bs

pub equal_bytes→eq : (xs ys : List ℕ) → equal_bytes xs ys ≡ true → xs ≡ ys
unfolding equal_bytes
equal_bytes→eq [] [] h = refl
equal_bytes→eq [] (b ∷ bs) h = cc
equal_bytes→eq (a ∷ xs) [] h = cc
equal_bytes→eq (a ∷ xs) (b ∷ bs) h = ground (arith, equal_bytes→eq xs bs)

pub equal_bytes_refl : (xs : List ℕ) → equal_bytes xs xs ≡ true
unfolding equal_bytes
equal_bytes_refl [] = refl
equal_bytes_refl (a ∷ xs) = ground (arith, equal_bytes_refl xs)

unfoldable pub is_power_of_two : ℕ → Bool
is_power_of_two v = not (v == 0) && bit_and v (v - 1) == 0

-- The frame of the three header parsers: too few bytes are refused with the message, a reader runs
-- over the first `size` bytes, and the rejection rules look at what it filled in.
apply_rules : {A : Type 0} → (A → Result (Unit {0})) → Result (A × List ℕ) → Result A
apply_rules rules (err e) = err e
apply_rules rules (ok (h, _)) = elim (rules h) [ err e ↦ err e | ok _ ↦ ok h ]

unfoldable pub parse_block :
    {A : Type 0} → ℕ → String → Parser A → (A → Result (Unit {0})) → List ℕ → Result A
unfolding apply_rules
parse_block size truncated read rules bytes =
    if ltb (length bytes) size
    then err (invalid_argument truncated)
    else apply_rules rules (read (take size bytes))

module _ {A : Type 0} (size : ℕ) (truncated : String) (read : Parser A)
    (rules : A → Result (Unit {0})) where
  pub parse_block_accepts :
      (bytes rest : List ℕ) (h : A)
      → size ≤ length bytes
      → read (take size bytes) ≡ ok (h, rest)
      → rules h ≡ ok tt
      → parse_block size truncated read rules bytes ≡ ok h
  unfolding parse_block
  parse_block_accepts bytes rest h le e c = rw (le→ltb_false _ _ le, e, c, apply_rules)

  apply_rules_inverse :
      (q : Result (A × List ℕ)) (h : A)
      → apply_rules rules q ≡ ok h
      → (rest : List ℕ) × (q ≡ ok (h, rest)) × (rules h ≡ ok tt)
  unfolding apply_rules
  apply_rules_inverse (err e) h p = cc
  apply_rules_inverse (ok (g, rest)) h p = elim (Result-cases (rules g)) [
    | inl (u, r) ↦
        let same : g ≡ h = ok_injective (rw (r, apply_rules) at p) in
        (rest, ap (λ x. ok (x, rest)) same, subst (λ x. rules x ≡ ok tt) same r)
    | inr (e, r) ↦ cc (rw (r, apply_rules) at p)
  ]

  pub parse_block_inverse :
      (bytes : List ℕ) (h : A)
      → parse_block size truncated read rules bytes ≡ ok h
      → (size ≤ length bytes)
        × (rest : List ℕ) × (read (take size bytes) ≡ ok (h, rest))
        × (rules h ≡ ok tt)
  unfolding parse_block
  parse_block_inverse bytes h p = elim (Bool-cases (ltb (length bytes) size)) [
    | inl short ↦ cc (rw short at p)
    | inr long ↦
        let (rest, q, r) = apply_rules_inverse (read (take size bytes)) h (rw long at p) in
        (ltb_false→le _ _ long, rest, q, r)
  ]
