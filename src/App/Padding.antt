-- ===== src/App/Padding.antt =====
-- compute_padding (app/CoreApi.cpp): the padded size of the plaintext stream.
pub mod Laws
use bseal_cpp.Base.{
  ℕ, ◌+◌, ◌-◌, ◌*◌, ◌%◌, Bool, not, ◌&&◌, ltb, ◌==◌, Result, ok, err, reject_if, ◌>>=◌, ◌>>◌,
  if◌then◌else◌,
}
use bseal_cpp.Checked.{checked_add_u64, checked_mul_u64, checked_next_power_of_two_u64}
use bseal_cpp.Archive.Record.{record_prefix_size}

pub data PaddingPolicy : Type 0 where
  no_padding chunk power2 : PaddingPolicy
  fixed_size : ℕ → PaddingPolicy

pub record PaddingResult : Type 0 where
  pub target_size : ℕ
  pub policy_id : ℕ
  pub policy_value : ℕ

-- `gap > 0 && gap < kRecordPrefixSize`
unfoldable pub too_small : ℕ → Bool
too_small gap = ltb 0 gap && ltb gap record_prefix_size

unfoldable pub chunk_target : ℕ → ℕ → Result ℕ
chunk_target raw_size chunk_plain_size =
    let rem = raw_size % chunk_plain_size in
    if rem == 0
    then ok raw_size
    else checked_add_u64 raw_size (chunk_plain_size - rem) "chunk padding: padded size"

unfoldable pub chunk_padding : ℕ → ℕ → Result ℕ
chunk_padding raw_size chunk_plain_size = do
  target ← chunk_target raw_size chunk_plain_size
  (if too_small (target - raw_size)
      then checked_add_u64 target chunk_plain_size "chunk padding: extra chunk"
      else ok target)

unfoldable pub bump_power2 : ℕ → ℕ → Result ℕ
bump_power2 raw_size target =
    if too_small (target - raw_size)
    then checked_mul_u64 target 2 "power2 padding: bump"
    else ok target

unfoldable pub power2_padding : ℕ → ℕ → Result ℕ
power2_padding raw_size chunk_plain_size = do
  power ← checked_next_power_of_two_u64 raw_size "power2 padding: target size"
  bump_power2 raw_size (if ltb power chunk_plain_size then chunk_plain_size else power)

unfoldable pub fixed_padding : ℕ → ℕ → ℕ → Result ℕ
fixed_padding raw_size chunk_plain_size n = do
  reject_if (ltb n raw_size) "fixed-size padding target is smaller than the unpadded archive"
  reject_if (not (n % chunk_plain_size == 0))
      "fixed-size padding target is not a multiple of chunk-size"
  reject_if (too_small (n - raw_size)) "fixed-size padding target leaves too small a gap"
  ok n

abbrev pub with_policy : ℕ → ℕ → ℕ → PaddingResult
with_policy id value target = record { target_size = target; policy_id = id; policy_value = value }

unfoldable pub compute_padding : ℕ → ℕ → PaddingPolicy → Result PaddingResult
compute_padding raw_size chunk_plain_size PaddingPolicy.no_padding = ok (with_policy 0 0 raw_size)
compute_padding raw_size chunk_plain_size PaddingPolicy.chunk =
    if raw_size == 0
    then ok (with_policy 1 0 0)
    else do target ← chunk_padding raw_size chunk_plain_size; ok (with_policy 1 0 target)
compute_padding raw_size chunk_plain_size PaddingPolicy.power2 =
    if raw_size == 0
    then ok (with_policy 2 0 0)
    else do target ← power2_padding raw_size chunk_plain_size; ok (with_policy 2 0 target)
compute_padding raw_size chunk_plain_size (PaddingPolicy.fixed_size n) = do
  target ← fixed_padding raw_size chunk_plain_size n
  ok (with_policy 3 n target)
