-- ===== src/Archive/Reader/Effects.antt =====
-- What an extraction does to the file system: only below its temporary tree and its output root.
use bseal_cpp.Base.{
  ℕ, ◌≡◌, refl, sym, ap, ◌∙◌, subst, ◌⊎◌, inl, inr, Bool, true, not, ◌&&◌, ◌||◌, List, [], ◌∷◌,
  ◌++◌, Result, ok, length, ◌==◌, ltb, ◌+◌, ◌-◌, ◌^◌, ◌%◌, arith, not-false, Bool-cases, After,
  After-bind, after_value, after_reject,
}
use bseal_cpp.Endian.{sum_bytes_le}
use bseal_cpp.Frame.Bytes.{equal_bytes}
use bseal_cpp.Archive.Path.{dot, is_safe_relative_path, normalize}
use bseal_cpp.Archive.Path.Confined.{NoDotDot, make_safe_output_path_confined}
use bseal_cpp.Archive.Record.{RecordType, ArchiveRecord}
use bseal_cpp.Archive.Meta.Rules.{EntryMetadata, is_symlink, is_regular, is_directory}
use bseal_cpp.Archive.Meta.{parse_entry_metadata}
use bseal_cpp.Archive.Reader.{
  Effect, Place, ArchiveReader, ArchiveReaderOptions, begin_archive, end_archive, pad_archive,
  perform, restore_mode, restore_time, apply_metadata_to_path, create_directory, begin_file,
  write_file_bytes, end_file, create_symlink, dispatch, process_record, is_padding, temp_path_for,
  parent_path,
}

-- Below a root: its parts stay, and what stands behind them has no "..".
abbrev pub Below : Place → Place → Type 0
Below root path = (new : Place) × (path ≡ new ++ normalize [] root) × NoDotDot new

abbrev pub EffectSafe : Place → ArchiveReaderOptions → Effect → Type 0
EffectSafe root o (Effect.create_directories path) = Below root path
EffectSafe root o (Effect.open_file path) = Below root path
EffectSafe root o (Effect.permissions path mode) = Below root path ⊎ Below o.output_root path
EffectSafe root o (Effect.last_write_time path time) = Below root path ⊎ Below o.output_root path
EffectSafe root o (Effect.make_symlink target path) =
    Below root path × (is_safe_relative_path target ≡ true) × (o.allow_symlinks ≡ true)
EffectSafe root o _ = Unit

abbrev pub LogSafe : Place → ArchiveReaderOptions → List Effect → Type 0
LogSafe root o [] = Unit
LogSafe root o (e ∷ es) = EffectSafe root o e × LogSafe root o es

-- The members that no record changes, and safe effects on top of those of an earlier log.
pub record Confined (base : List Effect) (root : Place) (o : ArchiveReaderOptions) (done : Bool)
    (s : ArchiveReader) : Type 0 where
  pub root_same : s.temp_root ≡ root
  pub options_same : s.options ≡ o
  pub finished_same : s.finished ≡ done
  pub safe : (new : List Effect) × (s.log ≡ new ++ base) × LogSafe root o new

-- The parent of a place that temp_path_for gives.
above-Below :
    (root path new : Place)
    → path ≡ new ++ normalize [] root
    → NoDotDot new
    → (new ≡ [] → path ≡ [])
    → Below root (parent_path path)
unfolding parent_path
above-Below root path [] e clean nothing =
    ([], ap parent_path (nothing refl) ∙ sym (nothing refl) ∙ e, tt)
above-Below root path (x ∷ new) e clean nothing = (new, ap parent_path e, clean.1)

module _ (works : List Effect → Effect → Bool) (base : List Effect) (root : Place)
    (o : ArchiveReaderOptions) (done : Bool) where
  abbrev pub Keeps : Result ArchiveReader → Type 0
  Keeps q = After (Confined base root o done) q

  logged :
      (e : Effect) {log : List Effect}
      → ((new : List Effect) × (log ≡ new ++ base) × LogSafe root o new)
      → EffectSafe root o e
      → (new : List Effect) × (e ∷ log ≡ new ++ base) × LogSafe root o new
  logged e (new, q, safe) h = (e ∷ new, ap (λ l. e ∷ l) q, (h, safe))

  pub perform-Keeps :
      (s : ArchiveReader) (e : Effect) (m : _)
      → Confined base root o done s
      → EffectSafe root o e
      → Keeps (perform works s e m)
  unfolding perform
  perform-Keeps s e m c safe = after_reject _ (not (works s.log e)) m _ λ _. record {
    root_same = c.root_same;
    options_same = c.options_same;
    finished_same = c.finished_same;
    safe = logged e c.safe safe;
  }

  pub apply-Keeps :
      (s : ArchiveReader) (path : Place) (m : EntryMetadata)
      → Confined base root o done s
      → (Below root path ⊎ Below o.output_root path)
      → Keeps (apply_metadata_to_path works s path m)
  unfolding apply_metadata_to_path restore_mode restore_time
  apply-Keeps s path m c b =
      After-bind (Confined base root o done) _ (restore_mode works s path m) _
        (elim (Bool-cases (s.options.restore_permissions && not (m.posix_mode == 0))) [
          | inl y ↦ rw (y, restore_mode) (perform-Keeps s _ _ c b)
          | inr n ↦ rw (n, restore_mode) c
        ])
        λ t d.
          elim (Bool-cases (
            t.options.restore_timestamps
            && (not (m.times.modified == 0) && not (is_symlink m.kind)))) [
              | inl y ↦ rw (y, restore_time) (perform-Keeps t _ _ d b)
              | inr n ↦ rw (n, restore_time) d
            ]

  place-Below :
      (s : ArchiveReader) (archive_path : List ℕ) (path : Place)
      → Confined base root o done s
      → temp_path_for s archive_path ≡ ok path
      → Below root path
  unfolding temp_path_for
  place-Below s archive_path path c e =
      let (new, same, clean, _) = make_safe_output_path_confined s.temp_root archive_path path e in
      subst (λ r. Below r path) c.root_same (new, same, clean)

  parent-Below :
      (s : ArchiveReader) (archive_path : List ℕ) (path : Place)
      → Confined base root o done s
      → temp_path_for s archive_path ≡ ok path
      → Below root (parent_path path)
  unfolding temp_path_for
  parent-Below s archive_path path c e =
      let (new, same, clean, nothing) =
        make_safe_output_path_confined s.temp_root archive_path path e in
      subst (λ r. Below r (parent_path path)) c.root_same
        (above-Below s.temp_root path new same clean nothing)

  directory-Keeps :
      (s : ArchiveReader) (m : EntryMetadata)
      → Confined base root o done s
      → Keeps (create_directory works s m)
  unfolding create_directory
  directory-Keeps s m c = after_reject _ (not s.archive_begin_seen) _ _ λ _.
      after_reject _ (not (is_directory m.kind)) _ _ λ _.
        after_value _ (temp_path_for s m.relative_path) _ λ path p.
          After-bind (Confined base root o done) _ (perform works s _ _) _
            (perform-Keeps s _ _ c (place-Below s _ path c p))
            λ t d. record {
              root_same = d.root_same;
              options_same = d.options_same;
              finished_same = d.finished_same;
              safe = d.safe;
            }

  file-Keeps :
      (s : ArchiveReader) (m : EntryMetadata)
      → Confined base root o done s
      → Keeps (begin_file works s m)
  unfolding begin_file
  file-Keeps s m c = after_reject _ (not s.archive_begin_seen) _ _ λ _.
      after_reject _ s.current_file_open _ _ λ _. after_reject _ (not (is_regular m.kind)) _ _ λ _.
        after_value _ (temp_path_for s m.relative_path) _ λ path p.
          After-bind (Confined base root o done) _ (perform works s _ _) _
            (perform-Keeps s _ _ c (parent-Below s _ path c p))
            λ t d.
              After-bind (Confined base root o done) _ (perform works t _ _) _
                (perform-Keeps t _ _ d (place-Below s _ path c p))
                λ u f. record {
                  root_same = f.root_same;
                  options_same = f.options_same;
                  finished_same = f.finished_same;
                  safe = f.safe;
                }

  bytes-Keeps :
      (s : ArchiveReader) (bytes : List ℕ)
      → Confined base root o done s
      → Keeps (write_file_bytes works s bytes)
  unfolding write_file_bytes
  bytes-Keeps s bytes c = after_reject _ (not s.current_file_open) _ _ λ _.
      after_reject _
        (ltb ((s.current_file_metadata.original_size + 2 ^ 64 - s.current_file_written) % 2 ^ 64)
          (length bytes))
        _ _
        λ _.
          After-bind (Confined base root o done) _ (perform works s _ _) _
            (perform-Keeps s _ _ c tt)
            λ t d. record {
              root_same = d.root_same;
              options_same = d.options_same;
              finished_same = d.finished_same;
              safe = d.safe;
            }

  end-Keeps : (s : ArchiveReader) → Confined base root o done s → Keeps (end_file works s)
  unfolding end_file
  end-Keeps s c = after_reject _ (not s.current_file_open) _ _ λ _.
      after_reject _ (not (s.current_file_written == s.current_file_metadata.original_size)) _ _
        λ _.
          After-bind (Confined base root o done) _ (perform works s _ _) _
            (perform-Keeps s _ _ c tt)
            λ t d. after_value _ (temp_path_for t t.current_file_archive_path) _ λ path p.
              After-bind (Confined base root o done) _ (apply_metadata_to_path works t _ _) _
                (apply-Keeps t path _ d (inl (place-Below t _ path d p)))
                λ u f. record {
                  root_same = f.root_same;
                  options_same = f.options_same;
                  finished_same = f.finished_same;
                  safe = f.safe;
                }

  symlink-Keeps :
      (s : ArchiveReader) (m : EntryMetadata)
      → Confined base root o done s
      → Keeps (create_symlink works s m)
  unfolding create_symlink
  symlink-Keeps s m c = after_reject _ (not s.archive_begin_seen) _ _ λ _.
      after_reject _ (not (is_symlink m.kind)) _ _ λ _.
        after_reject _ (not s.options.allow_symlinks) _ _ λ allowed.
          after_reject _
            (equal_bytes m.symlink_target dot || not (is_safe_relative_path m.symlink_target)) _ _
            λ target. after_value _ (temp_path_for s m.relative_path) _ λ path p.
              After-bind (Confined base root o done) _ (perform works s _ _) _
                (perform-Keeps s _ _ c (parent-Below s _ path c p))
                λ t d. perform-Keeps t _ _ d (
                  place-Below s _ path c p,
                  ground arith,
                  ap (λ q. q.allow_symlinks) (sym c.options_same) ∙ not-false _ allowed,
                )

  dispatch-Keeps :
      (s : ArchiveReader) (type : RecordType) (payload : List ℕ)
      → Confined base root o done s
      → Keeps (dispatch works s type payload)
  unfolding dispatch begin_archive end_archive pad_archive
  dispatch-Keeps s RecordType.archive_begin payload c = after_reject _ s.archive_begin_seen _ _ λ _.
      after_reject _ (not (length payload == 4)) _ _ λ _.
        after_reject _ (not (sum_bytes_le 0 payload == 1)) _ _ λ _. record {
          root_same = c.root_same;
          options_same = c.options_same;
          finished_same = c.finished_same;
          safe = c.safe;
        }
  dispatch-Keeps s RecordType.directory_entry payload c =
      after_value _ (parse_entry_metadata payload) _ λ m p. directory-Keeps s m c
  dispatch-Keeps s RecordType.file_entry payload c =
      after_value _ (parse_entry_metadata payload) _ λ m p. file-Keeps s m c
  dispatch-Keeps s RecordType.file_bytes payload c = bytes-Keeps s payload c
  dispatch-Keeps s RecordType.file_end payload c = end-Keeps s c
  dispatch-Keeps s RecordType.symlink_entry payload c =
      after_value _ (parse_entry_metadata payload) _ λ m p. symlink-Keeps s m c
  dispatch-Keeps s RecordType.archive_end payload c =
      after_reject _ (not s.archive_begin_seen) _ _ λ _. after_reject _ s.current_file_open _ _ λ _.
        record {
          root_same = c.root_same;
          options_same = c.options_same;
          finished_same = c.finished_same;
          safe = c.safe;
        }
  dispatch-Keeps s RecordType.random_padding payload c =
      after_reject _ (not s.archive_end_seen) _ _ λ _. c

  pub process-Keeps :
      (s : ArchiveReader) (r : ArchiveRecord)
      → Confined base root o done s
      → Keeps (process_record works s r)
  unfolding process_record
  process-Keeps s r c =
      after_reject _ (s.archive_end_seen && not (is_padding r.type)) _ _
        λ _. dispatch-Keeps s r.type r.payload c

pub Confined-refl : (s : ArchiveReader) → Confined s.log s.temp_root s.options s.finished s
Confined-refl s = record {
  root_same = refl;
  options_same = refl;
  finished_same = refl;
  safe = ([], refl, tt);
}
