-- ===== src/Checked.antt =====
-- common/CheckedArithmetic.hpp: 64-bit arithmetic that throws instead of wrapping.
use bseal_cpp.Base.{
  ℕ, zero, suc, ◌+◌, ◌-◌, ◌*◌, ◌/◌, ◌%◌, ◌^◌, ◌≤◌, ◌<◌, ◌≡◌, ◌&&◌, not, ltb, leb, ◌==◌,
  if◌then◌else◌, String, Result, ok, err, out_of_fuel, reject_if, ◌>>◌, arith,
}
pub mod Laws

-- std::numeric_limits<std::uint64_t>::max()
abbrev pub u64_max : ℕ
u64_max = 2 ^ 64 - 1

abbrev pub IsU64 : ℕ → Type 0
IsU64 a = a < 2 ^ 64

unfoldable pub checked_add_u64 : ℕ → ℕ → String → Result ℕ
checked_add_u64 a b context = do reject_if (ltb (u64_max - a) b) context; ok (a + b)

unfoldable pub checked_sub_u64 : ℕ → ℕ → String → Result ℕ
checked_sub_u64 a b context = do reject_if (ltb a b) context; ok (a - b)

unfoldable pub checked_mul_u64 : ℕ → ℕ → String → Result ℕ
checked_mul_u64 a b context = do reject_if (not (a == 0) && ltb (u64_max / a) b) context; ok (a * b)

unfoldable pub checked_ceil_div_u64 : ℕ → ℕ → String → Result ℕ
checked_ceil_div_u64 a b context = do
  reject_if (b == 0) context
  if a == 0 then ok 0 else ok ((a - 1) / b + 1)

-- `while (p < x) p <<= 1;`
unfoldable pub double_until : ℕ → ℕ → ℕ → Result ℕ
double_until zero x p = err out_of_fuel
double_until (suc fuel) x p =
    let rest = double_until fuel x (p * 2 % 2 ^ 64) in if ltb p x then rest else ok p

-- At most 63 doublings lead from 1 to 2 ^ 63, so 64 rounds are enough.
unfoldable pub checked_next_power_of_two_u64 : ℕ → String → Result ℕ
checked_next_power_of_two_u64 x context = do
  reject_if (ltb (2 ^ 63) x) context
  if x == 0 then ok 1 else double_until 64 x 1
