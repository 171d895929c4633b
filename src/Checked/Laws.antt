-- ===== src/Checked/Laws.antt =====
-- The checked operations against exact arithmetic.
use bseal_cpp.Base.{
  ℕ, zero, suc, ◌+◌, ◌-◌, ◌*◌, ◌/◌, ◌%◌, ◌^◌, ◌≤◌, ◌<◌, ◌≡◌, refl, ◌⊎◌, inl, inr, Bool-cases,
  String, ok, err, ltb, invalid_argument, arith,
}
use bseal_cpp.Checked.{
  IsU64, checked_add_u64, checked_mul_u64, checked_ceil_div_u64, double_until,
  checked_next_power_of_two_u64,
}
use native.Mathlib.Nat.{div-add-mod, pow-suc, pow-le-pow_right}

-- checked_add_u64 returns the exact sum when it fits 64 bits, and throws its context otherwise.
pub checked_add_exact :
    (a b : ℕ) (context : String)
    → IsU64 a
    → (IsU64 (a + b) × (checked_add_u64 a b context ≡ ok (a + b)))
      ⊎ ((2 ^ 64 ≤ a + b) × (checked_add_u64 a b context ≡ err (invalid_argument context)))
unfolding checked_add_u64
checked_add_exact a b context h = ground arith

mul-le_of_le_div : (a b n : ℕ) → 0 < a → b ≤ n / a → a * b ≤ n
mul-le_of_le_div a b n p h = grind (arith, div-add-mod n a)

lt-mul_of_div_lt : (a b n : ℕ) → 0 < a → n / a < b → n < a * b
lt-mul_of_div_lt a b n p h = grind (arith, div-add-mod n a)

-- checked_mul_u64 returns the exact product when it fits 64 bits, and throws its context otherwise.
pub checked_mul_exact :
    (a b : ℕ) (context : String)
    → (IsU64 (a * b) × (checked_mul_u64 a b context ≡ ok (a * b)))
      ⊎ ((2 ^ 64 ≤ a * b) × (checked_mul_u64 a b context ≡ err (invalid_argument context)))
unfolding checked_mul_u64
checked_mul_exact zero b context = ground arith
checked_mul_exact (suc a) b context =
    ground (arith, mul-le_of_le_div (suc a) b (2 ^ 64 - 1), lt-mul_of_div_lt (suc a) b (2 ^ 64 - 1))

ceil_bounds : (a b c : ℕ) → c ≡ a / suc b + 1 → (suc a ≤ c * suc b) × (c * suc b < suc a + suc b)
ceil_bounds a b c e = rw e (grind (arith, div-add-mod a (suc b)))

-- A result of checked_ceil_div_u64 is the least c with a ≤ c * b, and the divisor is not 0.
pub checked_ceil_div_least :
    (a b : ℕ) (context : String) (c : ℕ)
    → checked_ceil_div_u64 a b context ≡ ok c
    → (0 < b) × (a ≤ c * b) × (c * b < a + b)
unfolding checked_ceil_div_u64
checked_ceil_div_least a zero context c h = ground arith
checked_ceil_div_least zero (suc b) context c h = ground arith
checked_ceil_div_least (suc a) (suc b) context c h = ground (arith, ceil_bounds a b c)

pub pow_le : (i j : ℕ) → i ≤ j → 2 ^ i ≤ 2 ^ j
pow_le i j h = pow-le-pow_right (omega arith) h

pow_lt_inv : (i j : ℕ) → 2 ^ i < 2 ^ j → i < j
pow_lt_inv i j h = elim (le_or_lt j i) [ inl p ↦ absurd (omega (arith, pow_le j i p)) | inr p ↦ p ]
  where
    le_or_lt : (a b : ℕ) → (a ≤ b) ⊎ (b < a)
    le_or_lt a b = grind arith

-- From 2 ^ i, as long as no smaller power reaches x, the loop stops at the least one that does.
double_until_least :
    (fuel i x : ℕ)
    → x ≤ 2 ^ 63
    → i + fuel ≡ 64
    → ((j : ℕ) → x ≤ 2 ^ j → i ≤ j)
    → (k : ℕ) × (double_until fuel x (2 ^ i) ≡ ok (2 ^ k))
      × (x ≤ 2 ^ k)
      × ((j : ℕ) → x ≤ 2 ^ j → k ≤ j)
unfolding double_until
double_until_least zero i x h e least = absurd (omega (arith, least 63 h))
double_until_least (suc fuel) i x h e least = elim (Bool-cases (ltb (2 ^ i) x)) [
  | inl more ↦
      let below : i < 63 = pow_lt_inv i 63 (ground arith) in
      let next : 2 ^ i * 2 % 2 ^ 64 ≡ 2 ^ suc i =
        omega (arith, pow-suc 2 i, pow_le (suc i) 63 below) in
      rw (more, next)
        (double_until_least fuel (suc i) x h (omega arith) λ j q. pow_lt_inv i j (ground arith))
  | inr done ↦ rw done (i, refl, ground arith, least)
]

-- Up to 2 ^ 63, checked_next_power_of_two_u64 always returns, and what it returns is the least
-- power of two that is not below x.
pub next_power_of_two_least :
    (x : ℕ) (context : String)
    → x ≤ 2 ^ 63
    → (k : ℕ) × (checked_next_power_of_two_u64 x context ≡ ok (2 ^ k))
      × (x ≤ 2 ^ k)
      × ((j : ℕ) → x ≤ 2 ^ j → k ≤ j)
unfolding checked_next_power_of_two_u64
next_power_of_two_least zero context h = (0, refl, omega arith, λ j q. omega arith)
next_power_of_two_least (suc x) context h =
    let (k, e, le, least) = double_until_least 64 0 (suc x) h refl (λ j q. omega arith) in
    (k, ground (arith, e), le, least)
