-- ===== src/Archive/Reader/Grammar.antt =====
-- The record grammar that ArchiveReader::process_record enforces.
use bseal_cpp.Base.{
  ℕ, ◌-◌, ◌<◌, ◌≤◌, ◌^◌, ◌≡◌, refl, sym, ap, ◌∙◌, subst, Bool, true, false, not, List, ◌∷◌, length,
  Result, ok, reject_if, arith, ◌==◌, bind-eq-ok, if◌then◌else◌, not-false, Bool-cases, ◌⊎◌, inl,
  inr, ◌&&◌, ok_injective, ◌>>◌, ==_iff,
}
use bseal_cpp.Endian.{sum_bytes_le}
use bseal_cpp.Archive.Record.{RecordType}
use bseal_cpp.Archive.Meta.Rules.{EntryMetadata, is_symlink}
use bseal_cpp.Archive.Reader.{
  Effect, Place, ArchiveReader, perform, restore_mode, restore_time, apply_metadata_to_path,
  begin_archive, end_archive, pad_archive,
}

-- Where in the stream a reader is; inside a file, with the bytes that the file still lacks.
pub data Phase : Type 0 where
  before body after : Phase
  in_file : ℕ → Phase

unfoldable pub phase : ArchiveReader → Phase
phase s =
    if not s.archive_begin_seen
    then before
    else if s.archive_end_seen
    then after
    else if s.current_file_open
    then in_file (s.current_file_metadata.original_size - s.current_file_written)
    else body

-- The records that are allowed, by the phase, with the length of the payload. Unlike in FORMAT.md, a
-- directory or a symbolic link may also stand inside a file.
pub data Step : Phase → RecordType → ℕ → Phase → Type 0 where
  begins : Step before RecordType.archive_begin 4 body
  directory : {n : ℕ} → Step body RecordType.directory_entry n body
  symlink : {n : ℕ} → Step body RecordType.symlink_entry n body
  inner_directory : {k n : ℕ} → Step (in_file k) RecordType.directory_entry n (in_file k)
  inner_symlink : {k n : ℕ} → Step (in_file k) RecordType.symlink_entry n (in_file k)
  file : {size n : ℕ} → Step body RecordType.file_entry n (in_file size)
  bytes : {k n : ℕ} → n ≤ k → Step (in_file k) RecordType.file_bytes n (in_file (k - n))
  file_ends : {n : ℕ} → Step (in_file 0) RecordType.file_end n body
  ends : {n : ℕ} → Step body RecordType.archive_end n after
  pads : {n : ℕ} → Step after RecordType.random_padding n after

-- The same for the grammar of FORMAT.md, where a file is FileEntry FileBytes* FileEnd.
pub data FormatStep : Phase → RecordType → ℕ → Phase → Type 0 where
  format_begin : FormatStep before RecordType.archive_begin 4 body
  format_directory : {n : ℕ} → FormatStep body RecordType.directory_entry n body
  format_symlink : {n : ℕ} → FormatStep body RecordType.symlink_entry n body
  format_file : {size n : ℕ} → FormatStep body RecordType.file_entry n (in_file size)
  format_bytes :
      {k n : ℕ} → n ≤ k → FormatStep (in_file k) RecordType.file_bytes n (in_file (k - n))
  format_file_end : {n : ℕ} → FormatStep (in_file 0) RecordType.file_end n body
  format_end : {n : ℕ} → FormatStep body RecordType.archive_end n after
  format_padding : {n : ℕ} → FormatStep after RecordType.random_padding n after

-- A directory or a symbolic link inside a file, after which the file goes on.
abbrev pub StandsInside : Phase → RecordType → Phase → Type 0
StandsInside p type q =
    (k : ℕ) × (p ≡ in_file k)
    × (q ≡ in_file k)
    × (type ≡ RecordType.directory_entry ⊎ type ≡ RecordType.symlink_entry)

pub Step-FormatStep :
    {p : Phase} {type : RecordType} {n : ℕ} {q : Phase}
    → Step p type n q
    → FormatStep p type n q ⊎ StandsInside p type q
Step-FormatStep Step.begins = inl FormatStep.format_begin
Step-FormatStep Step.directory = inl FormatStep.format_directory
Step-FormatStep Step.symlink = inl FormatStep.format_symlink
Step-FormatStep Step.inner_directory = inr (_, refl, refl, inl refl)
Step-FormatStep Step.inner_symlink = inr (_, refl, refl, inr refl)
Step-FormatStep Step.file = inl FormatStep.format_file
Step-FormatStep (Step.bytes h) = inl (FormatStep.format_bytes h)
Step-FormatStep Step.file_ends = inl FormatStep.format_file_end
Step-FormatStep Step.ends = inl FormatStep.format_end
Step-FormatStep Step.pads = inl FormatStep.format_padding

-- What holds between two records.
pub record Valid (s : ArchiveReader) : Type 0 where
  pub size_fits : s.current_file_metadata.original_size < 2 ^ 64
  pub within : s.current_file_written ≤ s.current_file_metadata.original_size
  pub opened : s.current_file_open ≡ true → s.archive_begin_seen ≡ true
  pub ended : s.archive_end_seen ≡ true → s.archive_begin_seen ≡ true
  pub closed : s.archive_end_seen ≡ true → s.current_file_open ≡ false

-- An effect that succeeds changes nothing but the log.
abbrev pub Logged : ArchiveReader → ArchiveReader → Type 0
Logged s t = (l : List Effect) × (t ≡ record s { log = l })

pub passes :
    {B : Type 0} (test : Bool) (message : _) (k : Result B) {b : B}
    → (reject_if test message >> k) ≡ ok b
    → (test ≡ false) × (k ≡ ok b)
passes true message k h = cc
passes false message k h = (refl, h)

pub Logged-trans : (s t u : ArchiveReader) → Logged s t → Logged t u → Logged s u
Logged-trans s t u a b =
    (b.0, b.1 ∙ ap {A = ArchiveReader} {B = ArchiveReader} (λ r. record r { log = b.0 }) a.1)

module _ (works : List Effect → Effect → Bool) where
  pub perform-Logged :
      (s t : ArchiveReader) (e : Effect) (m : _) → perform works s e m ≡ ok t → Logged s t
  unfolding perform
  perform-Logged s t e m h = (e ∷ s.log, sym (ok_injective (passes (not (works s.log e)) m _ h).1))

  mode-Logged :
      (s t : ArchiveReader) (path : Place) (m : EntryMetadata)
      → restore_mode works s path m ≡ ok t
      → Logged s t
  unfolding restore_mode
  mode-Logged s t path m h =
      elim (Bool-cases (s.options.restore_permissions && not (m.posix_mode == 0))) [
        | inl y ↦ perform-Logged s t _ _ (rw (y, restore_mode) at h)
        | inr n ↦ (s.log, sym (ok_injective (rw (n, restore_mode) at h)))
      ]

  time-Logged :
      (s t : ArchiveReader) (path : Place) (m : EntryMetadata)
      → restore_time works s path m ≡ ok t
      → Logged s t
  unfolding restore_time
  time-Logged s t path m h =
      let test =
        s.options.restore_timestamps && (not (m.times.modified == 0) && not (is_symlink m.kind)) in
      elim (Bool-cases test) [
        | inl y ↦ perform-Logged s t _ _ (rw (y, restore_time) at h)
        | inr n ↦ (s.log, sym (ok_injective (rw (n, restore_time) at h)))
      ]

  pub apply-Logged :
      (s t : ArchiveReader) (path : Place) (m : EntryMetadata)
      → apply_metadata_to_path works s path m ≡ ok t
      → Logged s t
  unfolding apply_metadata_to_path
  apply-Logged s t path m h =
      let (s1, h1, h2) = bind-eq-ok (restore_mode works s path m) _ h in
      Logged-trans s s1 t (mode-Logged s s1 path m h1) (time-Logged s1 t path m h2)

-- The step that a handler takes, and that it keeps the invariant.
abbrev pub Moves : ArchiveReader → RecordType → ℕ → ArchiveReader → Type 0
Moves s type n t = Step (phase s) type n (phase t) × Valid t

pub phase_body :
    (s : ArchiveReader)
    → s.archive_begin_seen ≡ true
    → s.archive_end_seen ≡ false
    → s.current_file_open ≡ false
    → phase s ≡ body
unfolding phase
phase_body s b e o = rw (b, e, o, phase) refl

pub phase-in_file :
    (s : ArchiveReader)
    → s.archive_begin_seen ≡ true
    → s.archive_end_seen ≡ false
    → s.current_file_open ≡ true
    → phase s ≡ in_file (s.current_file_metadata.original_size - s.current_file_written)
unfolding phase
phase-in_file s b e o = rw (b, e, o, phase) refl

pub phase_after :
    (s : ArchiveReader) → s.archive_begin_seen ≡ true → s.archive_end_seen ≡ true → phase s ≡ after
unfolding phase
phase_after s b e = rw (b, e, phase) refl

phase_before : (s : ArchiveReader) → s.archive_begin_seen ≡ false → phase s ≡ before
unfolding phase
phase_before s b = rw (b, phase) refl

pub begin-Moves :
    (s t : ArchiveReader) (payload : List ℕ)
    → Valid s
    → begin_archive s payload ≡ ok t
    → Moves s RecordType.archive_begin (length payload) t
unfolding begin_archive
begin-Moves s t payload v h =
    let (b, h) = passes s.archive_begin_seen _ _ h in
    let (four, h) = passes (not (length payload == 4)) _ _ h in
    let (_, h) = passes (not (sum_bytes_le 0 payload == 1)) _ _ h in
    let n : length payload ≡ 4 = (==_iff _ _).0 (not-false _ four) in
    let e : s.archive_end_seen ≡ false = ground (arith, v.ended) in
    let o : s.current_file_open ≡ false = ground (arith, v.opened) in
    subst (Moves s RecordType.archive_begin (length payload)) (ok_injective h) (
      rw (n, phase_before s b, phase_body (record s { archive_begin_seen = true }) refl e o) begins,
      record {
        size_fits = v.size_fits;
        within = v.within;
        opened = λ _. refl;
        ended = λ _. refl;
        closed = v.closed;
      },
    )

pub end-Moves :
    (s t : ArchiveReader) (n : ℕ)
    → Valid s
    → s.archive_end_seen ≡ false
    → end_archive s ≡ ok t
    → Moves s RecordType.archive_end n t
unfolding end_archive
end-Moves s t n v e h =
    let (b, h) = passes (not s.archive_begin_seen) _ _ h in
    let (o, h) = passes s.current_file_open _ _ h in
    let b : s.archive_begin_seen ≡ true = not-false _ b in
    subst (Moves s RecordType.archive_end n) (ok_injective h) (
      rw (phase_body s b e o, phase_after (record s { archive_end_seen = true }) b refl) ends,
      record {
        size_fits = v.size_fits;
        within = v.within;
        opened = v.opened;
        ended = λ _. b;
        closed = λ _. o;
      },
    )

pub pad-Moves :
    (s t : ArchiveReader) (n : ℕ)
    → Valid s
    → pad_archive s ≡ ok t
    → Moves s RecordType.random_padding n t
unfolding pad_archive
pad-Moves s t n v h =
    let (e, h) = passes (not s.archive_end_seen) _ _ h in
    let e : s.archive_end_seen ≡ true = not-false _ e in
    subst (Moves s RecordType.random_padding n) (ok_injective h)
      (rw (phase_after s (v.ended e) e) pads, v)

-- A record that is allowed in the body and inside a file alike.
pub anywhere :
    (type : RecordType) (n : ℕ)
    → Step body type n body
    → ((k : ℕ) → Step (in_file k) type n (in_file k))
    → (s : ArchiveReader) → s.archive_begin_seen ≡ true
    → s.archive_end_seen ≡ false
    → Step (phase s) type n (phase s)
anywhere type n outside inside s b e = elim (Bool-cases s.current_file_open) [
  | inl o ↦ rw (phase-in_file s b e o) (inside _)
  | inr o ↦ rw (phase_body s b e o) outside
]

pub Valid-logged :
    (s : ArchiveReader) (l : List Effect) (d : List EntryMetadata)
    → Valid s
    → Valid (record s { log = l; deferred_directory_metadata = d })
Valid-logged s l d v = record {
  size_fits = v.size_fits;
  within = v.within;
  opened = v.opened;
  ended = v.ended;
  closed = v.closed;
}
