-- ===== src/Endian.antt =====
-- common/Endian.hpp, and the little-endian reads of the two `Reader` classes (io/ShardFrame.cpp and
-- archive/RecordFormat.cpp). A byte buffer is a list of numbers below 256; `& 0xff` is `% 256`,
-- `>> s` is `/ 2 ^ s`, and `|` of bytes at disjoint positions is `+`.
use bseal_cpp.Base.{
  ℕ, zero, suc, ◌+◌, ◌*◌, ◌/◌, ◌%◌, ◌^◌, ◌<◌, Bool, true, ◌&&◌, List, [], ◌∷◌, ◌++◌, ltb, ◌==◌,
  length, take, drop, get_or, String, Result, ok, err, invalid_argument, if◌then◌else◌,
}
use Prim.Native.Char.{code}
pub mod Laws
pub mod Inverse

abbrev pub IsByte : ℕ → Type 0
IsByte b = b < 256

abbrev pub AreBytes : List ℕ → Type 0
AreBytes [] = Unit {0}
AreBytes (b ∷ bs) = IsByte b × AreBytes bs

-- The bytes of an ASCII text.
abbrev pub text_bytes : String → List ℕ
text_bytes String.[] = []
text_bytes (String.◌∷◌ c s) = code c ∷ text_bytes s

unfoldable pub append_u8 : List ℕ → ℕ → List ℕ
append_u8 out value = out ++ (value ∷ [])

unfoldable pub append_u16_le : List ℕ → ℕ → List ℕ
append_u16_le out value = (out ++ (value % 256 ∷ [])) ++ (value / 2 ^ 8 % 256 ∷ [])

-- `for (shift = 0; shift < width; shift += 8) out.push_back((value >> shift) & 0xff);`, with the
-- rounds that are left.
unfoldable pub push_bytes_le : ℕ → ℕ → List ℕ → ℕ → List ℕ
push_bytes_le zero shift out value = out
push_bytes_le (suc rounds) shift out value =
    push_bytes_le rounds (shift + 8) (out ++ (value / 2 ^ shift % 256 ∷ [])) value

unfoldable pub append_u32_le : List ℕ → ℕ → List ℕ
unfolding push_bytes_le
append_u32_le out value = push_bytes_le 4 0 out value

unfoldable pub append_u64_le : List ℕ → ℕ → List ℕ
unfolding push_bytes_le
append_u64_le out value = push_bytes_le 8 0 out value

-- A signed value is its two's complement pattern, a number below 2 ^ 64.
unfoldable pub append_i64_le : List ℕ → ℕ → List ℕ
unfolding append_u64_le
append_i64_le out value = append_u64_le out value

unfoldable pub append_bytes : List ℕ → List ℕ → List ℕ
append_bytes out bytes = out ++ bytes

unfoldable pub all_zero : List ℕ → Bool
all_zero [] = true
all_zero (b ∷ bs) = b == 0 && all_zero bs

-- A `Reader` is the part of its buffer that is not read yet.
abbrev pub Parser : Type 0 → Type 0
Parser A = List ℕ → Result (A × List ℕ)

infixl 5 ◌>>=◌ ◌>>◌
unfoldable pub ◌>>=◌ : {A B : Type 0} → Parser A → (A → Parser B) → Parser B
◌>>=◌ m f r = elim (m r) [ err e ↦ err e | ok (a, r') ↦ f a r' ]

unfoldable pub ◌>>◌ : {B : Type 0} → Parser (Unit {0}) → Parser B → Parser B
◌>>◌ m k r = elim (m r) [ err e ↦ err e | ok (_, r') ↦ k r' ]

abbrev pub pure : {A : Type 0} → A → Parser A
pure a r = ok (a, r)

-- A check in the middle of a parse.
abbrev pub lift : {A : Type 0} → Result A → Parser A
lift (ok u) r = ok (u, r)
lift (err e) r = err e

-- `require(count)` and the sub-span that it guards. The message is the one of the reader.
unfoldable pub read_bytes : String → ℕ → Parser (List ℕ)
read_bytes truncated count r =
    if ltb (length r) count
    then err (invalid_argument truncated)
    else ok (take count r, drop count r)

unfoldable pub read_u8 : String → Parser ℕ
unfolding ◌>>=◌
read_u8 truncated = do b ← read_bytes truncated 1; pure (get_or b 0 0)

unfoldable pub read_u16_le : String → Parser ℕ
unfolding ◌>>=◌
read_u16_le truncated = do b ← read_bytes truncated 2; pure (get_or b 0 0 + get_or b 1 0 * 2 ^ 8)

-- `for (i = 0; i < n; ++i) value |= b[i] << (8 * i);`
unfoldable pub sum_bytes_le : ℕ → List ℕ → ℕ
sum_bytes_le shift [] = 0
sum_bytes_le shift (b ∷ bs) = b * 2 ^ shift + sum_bytes_le (shift + 8) bs

unfoldable pub read_u32_le : String → Parser ℕ
unfolding sum_bytes_le ◌>>=◌
read_u32_le truncated = do b ← read_bytes truncated 4; pure (sum_bytes_le 0 b)

unfoldable pub read_u64_le : String → Parser ℕ
unfolding sum_bytes_le ◌>>=◌
read_u64_le truncated = do b ← read_bytes truncated 8; pure (sum_bytes_le 0 b)

unfoldable pub read_i64_le : String → Parser ℕ
read_i64_le truncated = read_u64_le truncated
