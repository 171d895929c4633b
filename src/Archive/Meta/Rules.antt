-- ===== src/Archive/Meta/Rules.antt =====
-- The metadata of an entry, and the checks on it as a whole.
use bseal_cpp.Base.{
  ℕ, ◌^◌, ◌<◌, ◌≡◌, ◌↔◌, refl, Bool, true, false, not, ◌&&◌, ◌==◌, length, List, Option, none, some,
  Result, ok, err, invalid_argument, reject_if, ◌>>◌, if◌then◌else◌, arith,
}
use bseal_cpp.Frame.Bytes.{equal_bytes}
use bseal_cpp.Archive.Path.{dot, is_safe_relative_path}

pub data EntryKind : Type 0 where
  regular_file directory symlink : EntryKind

unfoldable pub kind_byte : EntryKind → ℕ
kind_byte regular_file = 1
kind_byte directory = 2
kind_byte symlink = 3

unfoldable pub parse_entry_kind : ℕ → Result EntryKind
parse_entry_kind value =
    if value == 1
    then ok regular_file
    else if value == 2
    then ok directory
    else if value == 3
    then ok symlink
    else err (invalid_argument "invalid archive entry kind")

unfoldable pub is_symlink : EntryKind → Bool
is_symlink symlink = true
is_symlink _ = false

unfoldable pub is_directory : EntryKind → Bool
is_directory directory = true
is_directory _ = false

unfoldable pub is_regular : EntryKind → Bool
is_regular regular_file = true
is_regular _ = false

pub record FileTimes : Type 0 where
  pub modified : ℕ
  pub accessed : Option ℕ
  pub created : Option ℕ

pub record EntryMetadata : Type 0 where
  pub kind : EntryKind
  pub relative_path : List ℕ
  pub original_size : ℕ
  pub posix_mode : ℕ
  pub times : FileTimes
  pub symlink_target : List ℕ

unfoldable pub check_entry_metadata : EntryMetadata → Result (Unit {0})
check_entry_metadata m = do
  reject_if (not (is_symlink m.kind) && not (length m.symlink_target == 0))
      "non-symlink metadata contains symlink target"
  reject_if (is_symlink m.kind && not (m.original_size == 0))
      "symlink metadata must have zero original size"
  reject_if (is_directory m.kind && not (m.original_size == 0))
      "directory metadata must have zero original size"
  ok tt

abbrev pub TimeFits : Option ℕ → Type 0
TimeFits none = Unit {0}
TimeFits (some t) = t < 2 ^ 64

-- What the C++ types guarantee, and that both texts are short enough to be serialised.
pub record MetadataFits (m : EntryMetadata) : Type 0 where
  pub path_fits : length m.relative_path < 2 ^ 32
  pub size_fits : m.original_size < 2 ^ 64
  pub mode_fits : m.posix_mode < 2 ^ 32
  pub modified_fits : m.times.modified < 2 ^ 64
  pub accessed_fits : TimeFits m.times.accessed
  pub created_fits : TimeFits m.times.created
  pub target_fits : length m.symlink_target < 2 ^ 32

-- The entry that the format allows: a safe path, a target only for a symbolic link, and a size only
-- for a regular file.
pub record MetadataRules (m : EntryMetadata) : Type 0 where
  pub not_dot : equal_bytes m.relative_path dot ≡ false
  pub safe : is_safe_relative_path m.relative_path ≡ true
  pub target : is_symlink m.kind ≡ false → length m.symlink_target ≡ 0
  pub size : is_regular m.kind ≡ false → m.original_size ≡ 0

kind_fields :
    (k : EntryKind) (target size : ℕ)
    → ((is_symlink k ≡ false → target ≡ 0) × (is_regular k ≡ false → size ≡ 0)) ↔ (
        (not (is_symlink k) && not (target == 0) ≡ false)
        × (is_symlink k && not (size == 0) ≡ false)
        × (is_directory k && not (size == 0) ≡ false))
unfolding is_symlink is_directory is_regular
kind_fields regular_file target size =
    (λ h. ground (arith, h.0 refl), λ h. (λ e. ground arith, λ e. cc))
kind_fields directory target size =
    (λ h. ground (arith, h.0 refl, h.1 refl), λ h. (λ e. ground arith, λ e. ground arith))
kind_fields symlink target size = (λ h. ground (arith, h.1 refl), λ h. (λ e. cc, λ e. ground arith))

pub check_entry_iff :
    (m : EntryMetadata)
    → (check_entry_metadata m ≡ ok tt) ↔ (
        (is_symlink m.kind ≡ false → length m.symlink_target ≡ 0)
        × (is_regular m.kind ≡ false → m.original_size ≡ 0))
unfolding check_entry_metadata
check_entry_iff m = (
  λ e. (kind_fields m.kind (length m.symlink_target) m.original_size).1 (ground arith),
  λ r.
      let (a, b, c) = (kind_fields m.kind (length m.symlink_target) m.original_size).0 r in
      rw (a, b, c),
)
