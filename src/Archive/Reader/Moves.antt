-- ===== src/Archive/Reader/Moves.antt =====
-- The handlers of ArchiveReader::process_record against the grammar.
use bseal_cpp.Base.{
  ◌⊎◌, ℕ, ◌+◌, ◌-◌, ◌<◌, ◌≤◌, ◌^◌, ◌%◌, ◌≡◌, refl, sym, ap, ◌∙◌, subst, Bool, true, false, not,
  List, [], ◌∷◌, length, ok, arith, ltb, ◌==◌, bind-eq-ok, ok_injective, ==_iff, not-false, ◌&&◌,
  ◌||◌, ltb_false→le,
}
use bseal_cpp.Frame.Bytes.{equal_bytes}
use bseal_cpp.Endian.{AreBytes}
use bseal_cpp.Archive.Meta.Sound.{parse_metadata_sound}
use bseal_cpp.Archive.Path.{dot, is_safe_relative_path}
use bseal_cpp.Archive.Record.{RecordType, ArchiveRecord}
use bseal_cpp.Archive.Meta.Rules.{EntryMetadata, is_symlink, is_regular, is_directory}
use bseal_cpp.Archive.Meta.{parse_entry_metadata}
use bseal_cpp.Archive.Reader.{
  Effect, ArchiveReader, perform, apply_metadata_to_path, create_directory, begin_file,
  write_file_bytes, end_file, create_symlink, dispatch, process_record, is_padding, temp_path_for,
  no_metadata,
}
use bseal_cpp.Archive.Reader.Grammar.{
  FormatStep, StandsInside, Step-FormatStep, Step, phase, Valid, Logged-trans, passes,
  perform-Logged, apply-Logged, Moves, phase_body, phase-in_file, begin-Moves, end-Moves, pad-Moves,
  anywhere, Valid-logged,
}

bytes_step :
    (s : ArchiveReader) (l : List Effect) (n : ℕ)
    → Valid s
    → s.archive_end_seen ≡ false
    → s.current_file_open ≡ true
    → n ≤ (s.current_file_metadata.original_size + 2 ^ 64 - s.current_file_written) % 2 ^ 64
    → Moves s RecordType.file_bytes n
        (record s { log = l; current_file_written = (s.current_file_written + n) % 2 ^ 64 })
unfolding phase
bytes_step s l n v e o r =
    let b = v.opened o in
    let size = v.size_fits in
    let within = v.within in
    let room : n ≤ s.current_file_metadata.original_size - s.current_file_written =
      omega (arith, size, within, r) in
    let sum : (s.current_file_written + n) % 2 ^ 64 ≡ s.current_file_written + n =
      omega (arith, size, within, room) in
    let left : s.current_file_metadata.original_size - (s.current_file_written + n) % 2 ^ 64
        ≡ s.current_file_metadata.original_size - s.current_file_written - n =
      omega (arith, sum, within, room) in
    (
      rw
          (
            phase-in_file s b e o,
            phase-in_file
                (record s { log = l; current_file_written = (s.current_file_written + n) % 2 ^ 64 })
                b e o,
            left,
          )
          (Step.bytes room),
      record {
        size_fits = size;
        within = omega (arith, sum, room, within);
        opened = v.opened;
        ended = v.ended;
        closed = v.closed;
      },
    )

file_end_step :
    (s : ArchiveReader) (l : List Effect) (n : ℕ)
    → Valid s
    → s.archive_end_seen ≡ false
    → s.current_file_open ≡ true
    → s.current_file_written ≡ s.current_file_metadata.original_size
    → Moves s RecordType.file_end n (record s {
      log = l;
      current_file_open = false;
      current_file_archive_path = [];
      current_file_metadata = no_metadata;
      current_file_written = 0;
    })
unfolding phase no_metadata
file_end_step s l n v e o full =
    let b = v.opened o in
    let none_left : s.current_file_metadata.original_size - s.current_file_written ≡ 0 =
      omega (arith, full) in
    (
      rw (phase-in_file s b e o, none_left, b, e) Step.file_ends,
      record {
        size_fits = omega arith;
        within = omega arith;
        opened = λ x. b;
        ended = v.ended;
        closed = λ x. refl;
      },
    )

after_end : (end padding : Bool) → end && not padding ≡ false → padding ≡ false → end ≡ false
after_end end padding e p = ground arith

module _ (works : List Effect → Effect → Bool) where
  directory-Moves :
      (s t : ArchiveReader) (m : EntryMetadata) (n : ℕ)
      → Valid s
      → s.archive_end_seen ≡ false
      → create_directory works s m ≡ ok t
      → Moves s RecordType.directory_entry n t
  unfolding create_directory phase
  directory-Moves s t m n v e h =
      let (b, h) = passes (not s.archive_begin_seen) _ _ h in
      let (_, h) = passes (not (is_directory m.kind)) _ _ h in
      let (path, _, h) = bind-eq-ok (temp_path_for s m.relative_path) _ h in
      let (s1, p, h) = bind-eq-ok (perform works s (Effect.create_directories path) _) _ h in
      let (l, q) = perform-Logged works s s1 _ _ p in
      let end : record s {
        log = l;
        deferred_directory_metadata = m ∷ s.deferred_directory_metadata;
      }
          ≡ t =
        ap {A = ArchiveReader} {B = ArchiveReader}
          (λ r. record r { deferred_directory_metadata = m ∷ r.deferred_directory_metadata })
          (sym q)
        ∙ ok_injective h in
      subst (Moves s RecordType.directory_entry n) end (
        anywhere RecordType.directory_entry n Step.directory (λ k. Step.inner_directory) s
            (not-false _ b) e,
        Valid-logged s l _ v,
      )

  symlink-Moves :
      (s t : ArchiveReader) (m : EntryMetadata) (n : ℕ)
      → Valid s
      → s.archive_end_seen ≡ false
      → create_symlink works s m ≡ ok t
      → Moves s RecordType.symlink_entry n t
  unfolding create_symlink phase
  symlink-Moves s t m n v e h =
      let (b, h) = passes (not s.archive_begin_seen) _ _ h in
      let (_, h) = passes (not (is_symlink m.kind)) _ _ h in
      let (_, h) = passes (not s.options.allow_symlinks) _ _ h in
      let (_, h) =
        passes (equal_bytes m.symlink_target dot || not (is_safe_relative_path m.symlink_target)) _
          _ h in
      let (path, _, h) = bind-eq-ok (temp_path_for s m.relative_path) _ h in
      let (s1, p, h) = bind-eq-ok (perform works s _ _) _ h in
      let (l, q) =
        Logged-trans s s1 t (perform-Logged works s s1 _ _ p) (perform-Logged works s1 t _ _ h) in
      subst (Moves s RecordType.symlink_entry n) (sym q) (
        anywhere RecordType.symlink_entry n Step.symlink (λ k. Step.inner_symlink) s (not-false _ b)
            e,
        Valid-logged s l _ v,
      )

  file-Moves :
      (s t : ArchiveReader) (m : EntryMetadata) (n : ℕ)
      → m.original_size < 2 ^ 64
      → Valid s
      → s.archive_end_seen ≡ false
      → begin_file works s m ≡ ok t
      → Moves s RecordType.file_entry n t
  unfolding begin_file phase
  file-Moves s t m n fits v e h =
      let (b, h) = passes (not s.archive_begin_seen) _ _ h in
      let (o, h) = passes s.current_file_open _ _ h in
      let (_, h) = passes (not (is_regular m.kind)) _ _ h in
      let (path, _, h) = bind-eq-ok (temp_path_for s m.relative_path) _ h in
      let (s1, p, h) = bind-eq-ok (perform works s _ _) _ h in
      let (s2, p', h) = bind-eq-ok (perform works s1 _ _) _ h in
      let (l, q) =
        Logged-trans s s1 s2 (perform-Logged works s s1 _ _ p)
          (perform-Logged works s1 s2 _ _ p') in
      let open_at : ArchiveReader → ArchiveReader = λ r. record r {
        current_file_open = true;
        current_file_archive_path = m.relative_path;
        current_file_metadata = m;
        current_file_written = 0;
      } in
      let b : s.archive_begin_seen ≡ true = not-false _ b in
      let end : open_at (record s { log = l }) ≡ t = ap open_at (sym q) ∙ ok_injective h in
      subst (Moves s RecordType.file_entry n) end (
        rw (phase_body s b e o, phase-in_file (open_at (record s { log = l })) b e refl) Step.file,
        record {
          size_fits = fits;
          within = omega arith;
          opened = λ _. b;
          ended = v.ended;
          closed = λ e'. cc;
        },
      )

  bytes-Moves :
      (s t : ArchiveReader) (payload : List ℕ)
      → Valid s
      → s.archive_end_seen ≡ false
      → write_file_bytes works s payload ≡ ok t
      → Moves s RecordType.file_bytes (length payload) t
  unfolding write_file_bytes phase
  bytes-Moves s t payload v e h =
      let (o, h) = passes (not s.current_file_open) _ _ h in
      let (r, h) =
        passes
          (ltb ((s.current_file_metadata.original_size + 2 ^ 64 - s.current_file_written) % 2 ^ 64)
            (length payload))
          _ _ h in
      let (s1, p, h) = bind-eq-ok (perform works s _ _) _ h in
      let (l, q) = perform-Logged works s s1 _ _ p in
      let o : s.current_file_open ≡ true = not-false _ o in
      let written : ArchiveReader → ArchiveReader = λ r. record r {
        current_file_written = (r.current_file_written + length payload) % 2 ^ 64;
      } in
      let end : written (record s { log = l }) ≡ t = ap written (sym q) ∙ ok_injective h in
      subst (Moves s RecordType.file_bytes (length payload)) end
        (bytes_step s l (length payload) v e o (ltb_false→le _ _ r))

  file_end-Moves :
      (s t : ArchiveReader) (n : ℕ)
      → Valid s
      → s.archive_end_seen ≡ false
      → end_file works s ≡ ok t
      → Moves s RecordType.file_end n t
  unfolding end_file phase
  file_end-Moves s t n v e h =
      let (o, h) = passes (not s.current_file_open) _ _ h in
      let (full, h) =
        passes (not (s.current_file_written == s.current_file_metadata.original_size)) _ _ h in
      let (s1, p, h) = bind-eq-ok (perform works s _ _) _ h in
      let (path, _, h) = bind-eq-ok (temp_path_for s1 s1.current_file_archive_path) _ h in
      let (s2, p', h) = bind-eq-ok (apply_metadata_to_path works s1 _ _) _ h in
      let (l, q) =
        Logged-trans s s1 s2 (perform-Logged works s s1 _ _ p) (apply-Logged works s1 s2 _ _ p') in
      let close : ArchiveReader → ArchiveReader = λ r. record r {
        current_file_open = false;
        current_file_archive_path = [];
        current_file_metadata = no_metadata;
        current_file_written = 0;
      } in
      let end : close (record s { log = l }) ≡ t = ap close (sym q) ∙ ok_injective h in
      subst (Moves s RecordType.file_end n) end
        (file_end_step s l n v e (not-false _ o) ((==_iff _ _).0 (not-false _ full)))

  dispatch-Moves :
      (s t : ArchiveReader) (type : RecordType) (payload : List ℕ)
      → AreBytes payload
      → Valid s
      → (is_padding type ≡ false → s.archive_end_seen ≡ false)
      → dispatch works s type payload ≡ ok t
      → Moves s type (length payload) t
  unfolding dispatch is_padding
  dispatch-Moves s t RecordType.archive_begin payload are v e h = begin-Moves s t payload v h
  dispatch-Moves s t RecordType.directory_entry payload are v e h =
      let (m, _, h) = bind-eq-ok (parse_entry_metadata payload) _ h in
      directory-Moves s t m (length payload) v (e refl) h
  dispatch-Moves s t RecordType.file_entry payload are v e h =
      let (m, p, h) = bind-eq-ok (parse_entry_metadata payload) _ h in
      let (_, fits) = parse_metadata_sound payload m are p in
      file-Moves s t m (length payload) fits v (e refl) h
  dispatch-Moves s t RecordType.file_bytes payload are v e h = bytes-Moves s t payload v (e refl) h
  dispatch-Moves s t RecordType.file_end payload are v e h =
      file_end-Moves s t (length payload) v (e refl) h
  dispatch-Moves s t RecordType.symlink_entry payload are v e h =
      let (m, _, h) = bind-eq-ok (parse_entry_metadata payload) _ h in
      symlink-Moves s t m (length payload) v (e refl) h
  dispatch-Moves s t RecordType.archive_end payload are v e h =
      end-Moves s t (length payload) v (e refl) h
  dispatch-Moves s t RecordType.random_padding payload are v e h =
      pad-Moves s t (length payload) v h

  -- With the steps of a reader, those inside a file included.
  pub process_record-Step :
      (s t : ArchiveReader) (r : ArchiveRecord)
      → AreBytes r.payload
      → Valid s
      → process_record works s r ≡ ok t
      → Step (phase s) r.type (length r.payload) (phase t) × Valid t
  unfolding process_record
  process_record-Step s t r are v h =
      let (e, h) = passes (s.archive_end_seen && not (is_padding r.type)) _ _ h in
      dispatch-Moves s t r.type r.payload are v
        (λ p. after_end s.archive_end_seen (is_padding r.type) e p) h

  -- A record that process_record accepts, with the payload's length, is a step of the grammar in FORMAT.md
  -- from the reader's phase to its next phase, or a directory or a symbolic link between the records of a file,
  -- after which the reader is in the file as before; and the reader's invariant is kept: at most the
  -- declared size of the open file is written, and no file is open after ArchiveEnd.
  pub process_record_moves :
      (s t : ArchiveReader) (r : ArchiveRecord)
      → AreBytes r.payload
      → Valid s
      → process_record works s r ≡ ok t
      → (FormatStep (phase s) r.type (length r.payload) (phase t)
          ⊎ StandsInside (phase s) r.type (phase t))
        × Valid t
  process_record_moves s t r are v h =
      let (step, valid) = process_record-Step s t r are v h in (Step-FormatStep step, valid)
