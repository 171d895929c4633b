-- ===== src/Archive/Meta/Laws.antt =====
-- Entry metadata: round trip, and what an accepted entry is.
use bseal_cpp.Base.{
  ℕ, ◌-◌, ◌<◌, ◌^◌, ◌≡◌, refl, sym, ◌∙◌, List, [], ◌∷◌, ◌++◌, length, append-nil, append_assoc,
  Option, none, some, ok, arith, le→ltb_false,
}
use bseal_cpp.Endian.{read_i64_le}
use bseal_cpp.Endian.Laws.{
  le32, le64, append_u8_lem, append_u32_le_lem, append_u64_le_lem, append_i64_le_lem,
  append_bytes_lem, bind_step, then_step, lift_ok, read_bytes-append, read_u8-append,
  read_u32_le-append, read_u64_le-append,
}
use bseal_cpp.Archive.Record.{require_eof, truncated_record}
use bseal_cpp.Archive.Meta.Rules.{
  EntryKind, EntryMetadata, kind_byte, parse_entry_kind, MetadataFits, MetadataRules, TimeFits,
  check_entry_iff,
}
use bseal_cpp.Archive.Meta.{
  append_string, append_optional, append_metadata, serialize_entry_metadata, read_string,
  read_optional, read_metadata, parse_entry_metadata,
}

abbrev pub string_bytes : List ℕ → List ℕ → List ℕ
string_bytes s rest = le32 (length s) ++ (s ++ rest)

abbrev pub optional_bytes : Option ℕ → List ℕ → List ℕ
optional_bytes none rest = 0 ∷ rest
optional_bytes (some t) rest = 1 ∷ (le64 t ++ rest)

abbrev pub metadata_bytes : EntryMetadata → List ℕ → List ℕ
metadata_bytes m rest =
    kind_byte m.kind
    ∷ string_bytes m.relative_path (
        le64 m.original_size
        ++ (le32 m.posix_mode
            ++ (le64 m.times.modified
                ++ optional_bytes m.times.accessed
                    (optional_bytes m.times.created (string_bytes m.symlink_target rest)))))

append_string_lem : (out s rest : List ℕ) → append_string out s ++ rest ≡ out ++ string_bytes s rest
unfolding append_string
append_string_lem out s rest = simp (append_u32_le_lem, append_bytes_lem, append_assoc)

append_optional_lem :
    (out : List ℕ) (o : Option ℕ) (rest : List ℕ)
    → append_optional out o ++ rest ≡ out ++ optional_bytes o rest
unfolding append_optional
append_optional_lem out none rest = simp (append_u8_lem, append_assoc)
append_optional_lem out (some t) rest = simp (append_u8_lem, append_i64_le_lem, append_assoc)

append_metadata_lem :
    (m : EntryMetadata) (rest : List ℕ) → append_metadata [] m ++ rest ≡ metadata_bytes m rest
unfolding append_metadata
append_metadata_lem m rest = simp (
  append_string_lem, append_optional_lem, append_u8_lem, append_u32_le_lem, append_u64_le_lem,
  append_i64_le_lem, append_assoc,
)

read_string_lem :
    (s rest : List ℕ) → length s < 2 ^ 32 → read_string (string_bytes s rest) ≡ ok (s, rest)
unfolding read_string
read_string_lem s rest h =
    bind_step _ _ (read_u32_le-append truncated_record (length s) (s ++ rest) h)
    ∙ read_bytes-append truncated_record s rest (length s) refl

read_optional_lem :
    (o : Option ℕ) (rest : List ℕ)
    → TimeFits o
    → read_optional (optional_bytes o rest) ≡ ok (o, rest)
unfolding read_optional read_i64_le
read_optional_lem none rest h =
    bind_step _ _ (read_u8-append truncated_record 0 rest) ∙ then_step _ _ refl
read_optional_lem (some t) rest h =
    bind_step _ _ (read_u8-append truncated_record 1 (le64 t ++ rest))
    ∙ then_step _ _ refl
    ∙ bind_step _ _ (read_u64_le-append truncated_record t rest h)

parse-kind_byte : (k : EntryKind) → parse_entry_kind (kind_byte k) ≡ ok k
unfolding parse_entry_kind kind_byte
parse-kind_byte EntryKind.regular_file = refl
parse-kind_byte _ = refl

read_metadata_lem :
    (m : EntryMetadata)
    → MetadataFits m
    → MetadataRules m
    → read_metadata (metadata_bytes m []) ≡ ok (m, [])
unfolding read_metadata read_i64_le require_eof
read_metadata_lem m fits rules =
    bind_step _ _ (read_u8-append truncated_record (kind_byte m.kind) _)
    ∙ bind_step _ _ (lift_ok _ _ (parse-kind_byte m.kind))
    ∙ bind_step _ _ (read_string_lem m.relative_path _ fits.path_fits)
    ∙ then_step _ _ (lift_ok _ _ (rw (rules.not_dot, rules.safe) refl))
    ∙ bind_step _ _ (read_u64_le-append truncated_record m.original_size _ fits.size_fits)
    ∙ bind_step _ _ (read_u32_le-append truncated_record m.posix_mode _ fits.mode_fits)
    ∙ bind_step _ _ (read_u64_le-append truncated_record m.times.modified _ fits.modified_fits)
    ∙ bind_step _ _ (read_optional_lem m.times.accessed _ fits.accessed_fits)
    ∙ bind_step _ _ (read_optional_lem m.times.created _ fits.created_fits)
    ∙ bind_step _ _ (read_string_lem m.symlink_target [] fits.target_fits)
    ∙ then_step _ _ refl

-- Metadata of an entry that the format allows is serialised without an exception, and
-- parse_entry_metadata gives the same metadata back.
pub parse-serialize_metadata :
    (m : EntryMetadata)
    → MetadataFits m
    → MetadataRules m
    → (out : List ℕ) × (serialize_entry_metadata m ≡ ok out) × (parse_entry_metadata out ≡ ok m)
unfolding serialize_entry_metadata parse_entry_metadata
parse-serialize_metadata m fits rules =
    let whole : append_metadata [] m ≡ metadata_bytes m [] =
      sym (append-nil (append_metadata [] m)) ∙ append_metadata_lem m [] in
    (
      append_metadata [] m,
      rw (
        le→ltb_false (2 ^ 32 - 1) (length m.relative_path) (omega (arith, fits.path_fits)),
        le→ltb_false (2 ^ 32 - 1) (length m.symlink_target) (omega (arith, fits.target_fits)),
        serialize_entry_metadata,
      ),
      rw (
        whole,
        read_metadata_lem m fits rules,
        (check_entry_iff m).1 (rules.target, rules.size),
        parse_entry_metadata,
      ),
    )
