-- ===== src/Archive/Meta/Sound.antt =====
-- What the metadata that parse_entry_metadata accepts obeys, whoever wrote the bytes.
use bseal_cpp.Base.{
  ℕ, ◌<◌, ◌^◌, ◌≡◌, refl, true, false, List, length, Result, ok, err, String, arith, Bool-cases,
  inl, inr, ok_injective, err_not_ok, Result-cases, subst, ◌==◌,
}
use bseal_cpp.Endian.{AreBytes, Parser, ◌>>=◌, ◌>>◌, lift, read_u8, read_i64_le, read_bytes}
use bseal_cpp.Endian.Inverse.{
  Holds, Holds-bind, Holds_elim, Holds-map, read_bytes-Holds, bind_reject, bind_read_bytes,
  bind_read_u32, bind_read_u64,
}
use bseal_cpp.Frame.Bytes.{equal_bytes}
use bseal_cpp.Archive.Record.{require_eof, truncated_record}
use bseal_cpp.Archive.Path.{dot, is_safe_relative_path}
use bseal_cpp.Archive.Meta.Rules.{
  EntryMetadata, MetadataRules, parse_entry_kind, check_entry_metadata, check_entry_iff,
}
use bseal_cpp.Archive.Meta.{
  read_string, read_optional, read_when, read_metadata, parse_entry_metadata,
}

-- A parser after which bytes are left.
abbrev Keeps : {A : Type 0} → Result (A × List ℕ) → Type 0
Keeps q = Holds (λ _ rest. AreBytes rest) q

bind-Keeps :
    {A B : Type 0} (Q : B → List ℕ → Type 0) (m : Parser A) (f : A → Parser B) (r : List ℕ)
    → Keeps (m r)
    → ((a : A) (r' : List ℕ) → AreBytes r' → Holds Q (f a r'))
    → Holds Q ((m >>= f) r)
bind-Keeps Q m f r h k = Holds-bind (λ _ rest. AreBytes rest) Q m f r h k

lift-Keeps : {A : Type 0} (q : Result A) (r : List ℕ) → AreBytes r → Keeps (lift q r)
lift-Keeps (ok a) r h = h
lift-Keeps (err e) r h = tt

read_u8-Keeps : (message : String) (r : List ℕ) → AreBytes r → Keeps (read_u8 message r)
unfolding read_u8
read_u8-Keeps message r h = bind_read_bytes _ message 1 _ r h λ xs r' e len x b. b

read_string-Keeps : (r : List ℕ) → AreBytes r → Keeps (read_string r)
unfolding read_string
read_string-Keeps r h = bind_read_u32 _ truncated_record _ r h λ n r1 e f b1.
    Holds-map _ _ (read_bytes truncated_record n r1) (read_bytes-Holds truncated_record n r1 b1)
      λ xs rest p. p.0.1

read_when-Keeps : (flag : ℕ) (r : List ℕ) → AreBytes r → Keeps (read_when flag r)
unfolding read_when read_i64_le
read_when-Keeps flag r h = elim (Bool-cases (flag == 1)) [
  | inl y ↦ rw (y, read_when) (bind_read_u64 _ truncated_record _ r h λ n r1 e f b1. b1)
  | inr n ↦ rw (n, read_when) h
]

read_optional-Keeps : (r : List ℕ) → AreBytes r → Keeps (read_optional r)
unfolding read_optional
read_optional-Keeps r h =
    bind-Keeps _ (read_u8 truncated_record) _ r (read_u8-Keeps truncated_record r h)
      λ flag r1 b1. bind_reject _ _ _ _ _ λ z. read_when-Keeps flag r1 b1

bind_eof :
    {B : Type 0} (Q : B → List ℕ → Type 0) (message : String) (k : Parser B) (r : List ℕ)
    → Holds Q (k r)
    → Holds Q ((require_eof message >> k) r)
unfolding require_eof ◌>>◌
bind_eof Q message k r h = elim (Bool-cases (length r == 0)) [
  | inl y ↦ rw (y, require_eof, Holds, ◌>>◌) h
  | inr n ↦ rw (n, require_eof, Holds, ◌>>◌) tt
]

Accepted : EntryMetadata → List ℕ → Type 0
Accepted m rest =
    (equal_bytes m.relative_path dot ≡ false)
    × (is_safe_relative_path m.relative_path ≡ true)
    × (m.original_size < 2 ^ 64)

read_metadata_sound : (r : List ℕ) → AreBytes r → Holds Accepted (read_metadata r)
unfolding read_metadata read_i64_le Accepted
read_metadata_sound r b =
    let Q = Accepted in
    bind-Keeps Q (read_u8 truncated_record) _ r (read_u8-Keeps truncated_record r b) λ value r0 b0.
      bind-Keeps Q (lift (parse_entry_kind value)) _ r0 (lift-Keeps _ r0 b0) λ kind r1 b1.
        bind-Keeps Q read_string _ r1 (read_string-Keeps r1 b1) λ path r2 b2.
          bind_reject Q _ _ _ _ λ z. bind_read_u64 Q truncated_record _ _ b2 λ size r3 e3 f3 b3.
            bind_read_u32 Q truncated_record _ _ b3 λ mode r4 e4 f4 b4.
              bind_read_u64 Q truncated_record _ _ b4 λ modified r5 e5 f5 b5.
                bind-Keeps Q read_optional _ r5 (read_optional-Keeps r5 b5) λ accessed r6 b6.
                  bind-Keeps Q read_optional _ r6 (read_optional-Keeps r6 b6) λ created r7 b7.
                    bind-Keeps Q read_string _ r7 (read_string-Keeps r7 b7)
                      λ target r8 b8. bind_eof Q _ _ r8 (ground arith)

checked_is :
    (m n : EntryMetadata)
    → (elim (check_entry_metadata m) [ err e ↦ err e | ok _ ↦ ok m ]) ≡ ok n
    → (check_entry_metadata m ≡ ok tt) × (m ≡ n)
checked_is m n e = go (check_entry_metadata m) e
  where
    go :
        (q : Result (Unit {0}))
        → (elim q [ err e ↦ err e | ok _ ↦ ok m ]) ≡ ok n
        → (q ≡ ok tt) × (m ≡ n)
    go (ok tt) e = (refl, ok_injective e)
    go (err x) e = cc

-- The metadata that parse_entry_metadata accepts names a safe relative path other than ".", has a
-- symlink target only for a symbolic link and a size only for a regular file, and the size is below
-- 2 ^ 64.
pub parse_metadata_sound :
    (bytes : List ℕ) (m : EntryMetadata)
    → AreBytes bytes
    → parse_entry_metadata bytes ≡ ok m
    → MetadataRules m × (m.original_size < 2 ^ 64)
unfolding parse_entry_metadata Accepted
parse_metadata_sound bytes m are e = elim (Result-cases (read_metadata bytes)) [
  | inr (x, q) ↦ absurd (err_not_ok (rw (q, parse_entry_metadata) at e))
  | inl ((m', rest), q) ↦
      let (checked, same) = checked_is m' m (rw (q, parse_entry_metadata) at e) in
      let (target, size) = (check_entry_iff m').0 checked in
      let (a, b, c) = Holds_elim Accepted (read_metadata bytes) (read_metadata_sound bytes are) q in
      subst (λ x. MetadataRules x × (x.original_size < 2 ^ 64)) same
        (record { not_dot = a; safe = b; target = target; size = size }, c)
]
