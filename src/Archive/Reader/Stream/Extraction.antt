-- ===== src/Archive/Reader/Stream/Extraction.antt =====
-- A whole extraction: the buffers in turn, and ArchiveReader::finish.
use bseal_cpp.Base.{
  ℕ, suc, ◌≡◌, refl, sym, ap, ◌∙◌, subst, inl, inr, length, List, [], ◌∷◌, ◌++◌, append_assoc,
  append-nil, Bool, true, false, not, ◌==◌, Result, out_of_fuel, ok, err, arith, Bool-cases,
  if◌then◌else◌, After, After-bind, after_value, after_reject, After_elim, After_map, length_zero,
  ==_iff, not-false,
}
use bseal_cpp.Endian.{AreBytes}
use bseal_cpp.Endian.Inverse.{AreBytes-append, AreBytes-join}
use bseal_cpp.Archive.Path.Confined.{make_safe_output_path_confined}
use bseal_cpp.Archive.Meta.Rules.{EntryMetadata}
use bseal_cpp.Archive.Record.{ArchiveRecord}
use bseal_cpp.Archive.Reader.{
  Effect, Place, ArchiveReader, ArchiveReaderOptions, new_reader, no_metadata, final_path_for,
  apply_metadata_to_path, perform,
}
use bseal_cpp.Archive.Reader.Grammar.{Phase, phase, Valid, phase_after}
use bseal_cpp.Archive.Reader.Effects.{
  Confined, Confined-refl, LogSafe, Below, perform-Keeps, apply-Keeps,
}
use bseal_cpp.Archive.Reader.Stream.{
  Drained, drain_all, consume, apply_all, deepest_first, apply_deferred_directory_metadata, finish,
  finish_now, extract,
}
use bseal_cpp.Archive.Reader.Stream.Laws.{and_then, drain-append}
use bseal_cpp.Archive.Reader.Stream.Run.{
  Run, stream, stream-append, Run-append, Waits, Taken, drain-Taken, drain-Confined,
}

and_then_cong :
    (P : ArchiveReader → List ℕ → Type 0) (d : Drained) (f g : ArchiveReader → List ℕ → Drained)
    → Waits P d
    → ((t : ArchiveReader) (q : List ℕ) → P t q → f t q ≡ g t q)
    → and_then d f ≡ and_then d g
and_then_cong P (Drained.waits t q) f g w k = k t q w
and_then_cong P (Drained.throws e) f g w k = refl
and_then_cong P Drained.starved f g w k = refl

-- The bytes of all buffers.
abbrev pub concat : List (List ℕ) → List ℕ
concat [] = []
concat (b ∷ bs) = b ++ concat bs

module _ (works : List Effect → Effect → Bool) where
  consume_drains :
      (s : ArchiveReader) (p b : List ℕ)
      → s.finished ≡ false
      → consume works s p b ≡ drain_all works s (p ++ b)
  unfolding consume
  consume_drains s p b e = rw (e, consume) refl

  -- Two buffers have the same effect as one buffer with the bytes of both: the records, the state,
  -- the bytes kept for the next call, and the exception, if there is one.
  pub consume-append :
      (s : ArchiveReader) (p a b : List ℕ)
      → consume works s p (a ++ b) ≡ and_then (consume works s p a) (λ t q. consume works t q b)
  unfolding consume drain_all
  consume-append s p a b = elim (Bool-cases s.finished) [
    | inl y ↦ rw (y, consume) refl
    | inr n ↦
        consume_drains s p (a ++ b) n
        ∙ ap (drain_all works s) (sym (append_assoc p a b))
        ∙ drain-append works (suc (length (p ++ a))) s (p ++ a) b (omega arith)
        ∙ and_then_cong (λ t q. Confined s.log s.temp_root s.options s.finished t)
            (drain_all works s (p ++ a)) _ _
            (drain-Confined works s.log s.temp_root s.options s.finished _ s (p ++ a)
              (Confined-refl s))
            (λ t q c. sym (consume_drains t q b (c.finished_same ∙ n)))
        ∙ ap (λ d. and_then d (λ t q. consume works t q b)) (sym (consume_drains s p a n))
  ]

  extract-append :
      (s : ArchiveReader) (p a b : List ℕ) (buffers : List (List ℕ))
      → extract works s p (a ∷ b ∷ buffers) ≡ extract works s p ((a ++ b) ∷ buffers)
  unfolding extract
  extract-append s p a b buffers =
      go (consume works s p a) ∙ ap outcome (sym (consume-append s p a b))
    where
      outcome : Drained → Result ArchiveReader
      outcome d = elim d [
        | Drained.waits t rest ↦ extract works t rest buffers
        | Drained.throws e ↦ err e
        | Drained.starved ↦ err out_of_fuel
      ]

      go :
          (d : Drained)
          → (elim d [
            | Drained.waits t rest ↦ extract works t rest (b ∷ buffers)
            | Drained.throws e ↦ err e
            | Drained.starved ↦ err out_of_fuel
          ])
            ≡ outcome (and_then d (λ t q. consume works t q b))
      go (Drained.waits t q) = refl
      go (Drained.throws e) = refl
      go Drained.starved = refl

  -- An extraction does not depend on how the stream was cut into buffers: the outcome is that of one
  -- buffer with all the bytes.
  pub extract-concat :
      (s : ArchiveReader) (p b : List ℕ) (buffers : List (List ℕ))
      → extract works s p (b ∷ buffers) ≡ extract works s p (concat (b ∷ buffers) ∷ [])
  extract-concat s p b [] = ap (λ c. extract works s p (c ∷ [])) (sym (append-nil b))
  extract-concat s p b (c ∷ buffers) =
      extract-append s p b c buffers
      ∙ extract-concat s p (b ++ c) buffers
      ∙ ap (λ d. extract works s p (d ∷ [])) (append_assoc b c (concat buffers))

  apply_all_keeps :
      (base : List Effect) (root : Place) (o : ArchiveReaderOptions) (s : ArchiveReader)
      (ms : List EntryMetadata)
      → Confined base root o false s
      → After (Confined base root o false) (apply_all works s ms)
  unfolding apply_all final_path_for
  apply_all_keeps base root o s [] c = c
  apply_all_keeps base root o s (m ∷ ms) c =
      after_value _ (final_path_for s m.relative_path) _ λ path p.
        After-bind (Confined base root o false) _ (apply_metadata_to_path works s path m) _
          (apply-Keeps works base root o false s path m c (
            inr (
              let (new, same, clean, _) =
                make_safe_output_path_confined s.options.output_root m.relative_path path p in
              subst (λ q. Below q path) (ap (λ q. q.output_root) c.options_same)
                (new, same, clean))))
          λ t d. apply_all_keeps base root o t ms d

  -- What a successful `finish` says of the reader before it, and of the effects.
  Complete :
      List Effect → Place → ArchiveReaderOptions → ArchiveReader → List ℕ → ArchiveReader → Type 0
  Complete base root o s pending t =
      (pending ≡ [])
      × (phase s ≡ Phase.after)
      × ((new : List Effect) × (t.log ≡ new ++ base) × LogSafe root o new)
      × (t.finished ≡ true)

  finish_now-Complete :
      (base : List Effect) (root : Place) (o : ArchiveReaderOptions) (s : ArchiveReader)
      (pending : List ℕ)
      → Confined base root o false s
      → After (Complete base root o s pending) (finish_now works s pending)
  unfolding finish_now apply_deferred_directory_metadata Complete
  finish_now-Complete base root o s pending c =
      let C = Complete base root o s pending in
      after_reject C (not (length pending == 0)) _ _ λ nothing.
        after_reject C (not s.archive_begin_seen) _ _ λ begun.
          after_reject C (not s.archive_end_seen) _ _ λ ended.
            after_reject C s.current_file_open _ _ λ closed.
              After-bind (Confined base root o false) C (perform works s Effect.commit_temp_tree _)
                _ (perform-Keeps works base root o false s _ _ c tt)
                λ t d.
                  After-bind (Confined base root o false) C
                    (apply_all works t (deepest_first t.deferred_directory_metadata)) _
                    (apply_all_keeps base root o t (deepest_first t.deferred_directory_metadata) d)
                    λ u e. (
                      length_zero pending ((==_iff _ _).0 (not-false _ nothing)),
                      phase_after s (not-false _ begun) (not-false _ ended),
                      (
                        Effect.remove_temp_tree ∷ e.safe.0,
                        ap (λ l. Effect.remove_temp_tree ∷ l) e.safe.1,
                        (tt, e.safe.2),
                      ),
                      refl,
                    )

  finish-Complete :
      (base : List Effect) (root : Place) (o : ArchiveReaderOptions) (s : ArchiveReader)
      (pending : List ℕ)
      → Confined base root o false s
      → After (Complete base root o s pending) (finish works s pending)
  unfolding finish
  finish-Complete base root o s pending c =
      subst
        (λ b.
          After (Complete base root o s pending) (if b then ok s else finish_now works s pending))
        (sym c.finished_same) (finish_now-Complete base root o s pending c)

  -- A whole extraction from a state of the reader.
  Extracted :
      List Effect → Place → ArchiveReaderOptions → ArchiveReader → List ℕ → ArchiveReader → Type 0
  Extracted base root o s bytes t =
      (rs : List ArchiveRecord) × (bytes ≡ stream rs)
      × Run (phase s) rs Phase.after
      × ((new : List Effect) × (t.log ≡ new ++ base) × LogSafe root o new)
      × (t.finished ≡ true)

  joined :
      (p b c q : List ℕ) (rs ts : List ArchiveRecord)
      → p ++ b ≡ stream rs ++ q
      → q ++ c ≡ stream ts
      → p ++ (b ++ c) ≡ stream (rs ++ ts)
  joined p b c q rs ts e f =
      sym (append_assoc p b c)
      ∙ ap {A = List ℕ} {B = List ℕ} (λ x. x ++ c) e
      ∙ append_assoc (stream rs) q c
      ∙ ap {A = List ℕ} {B = List ℕ} (λ x. stream rs ++ x) f
      ∙ sym (stream-append rs ts)

  continues :
      (base : List Effect) (root : Place) (o : ArchiveReaderOptions) (s : ArchiveReader)
      (p b c : List ℕ) (k : ArchiveReader → List ℕ → Result ArchiveReader) (d : Drained)
      → AreBytes (p ++ (b ++ c))
      → Waits (Taken s (p ++ b)) d
      → Waits (λ t q. Confined base root o false t) d
      → ((t : ArchiveReader) (q : List ℕ)
          → Confined base root o false t
          → Valid t
          → AreBytes (q ++ c)
          → After (Extracted base root o t (q ++ c)) (k t q))
      → After (Extracted base root o s (p ++ (b ++ c))) (elim d [
        | Drained.waits t rest ↦ k t rest
        | Drained.throws e ↦ err e
        | Drained.starved ↦ err out_of_fuel
      ])
  unfolding Extracted Taken
  continues base root o s p b c k (Drained.throws e) are taken conf ih = tt
  continues base root o s p b c k Drained.starved are taken conf ih = tt
  continues base root o s p b c k (Drained.waits t q) are (rs, e, run, v, left) conf ih =
      let (_, last) = AreBytes-append (p ++ b) c (subst AreBytes (sym (append_assoc p b c)) are) in
      After_map _ _ (k t q) (ih t q conf v (AreBytes-join q c left last))
        λ u (ts, f, rest, log, fin).
          (rs ++ ts, joined p b c q rs ts e f, Run-append run rest, log, fin)

  extract_from :
      (base : List Effect) (root : Place) (o : ArchiveReaderOptions) (s : ArchiveReader)
      (p : List ℕ) (buffers : List (List ℕ))
      → Confined base root o false s
      → Valid s
      → AreBytes (p ++ concat buffers)
      → After (Extracted base root o s (p ++ concat buffers)) (extract works s p buffers)
  unfolding extract Extracted Complete drain_all
  extract_from base root o s p [] c v are =
      After_map _ _ (finish works s p) (finish-Complete base root o s p c) λ t (nil, end, log, fin).
        ([], append-nil p ∙ nil, subst (Run (phase s) []) end Run.done, log, fin)
  extract_from base root o s p (b ∷ buffers) c v are =
      rw (consume_drains s p b c.finished_same, extract)
        (continues base root o s p b (concat buffers) (λ t q. extract works t q buffers)
          (drain_all works s (p ++ b)) are
          (drain-Taken works (suc (length (p ++ b))) s (p ++ b)
            (AreBytes-append (p ++ b) (concat buffers)
              (subst AreBytes (sym (append_assoc p b (concat buffers))) are)).0
            v)
          (drain-Confined works base root o false (suc (length (p ++ b))) s (p ++ b) c)
          λ t q. extract_from base root o t q buffers)

  -- A new reader that is fed with buffers of bytes and finished without an exception was given the
  -- serialised forms of records that follow the grammar of process_record from ArchiveBegin to ArchiveEnd
  -- and its padding, and nothing else; that grammar is wider than the one in FORMAT.md, since directories
  -- and links may also stand inside a file. Files are opened, and directories and links made, at the
  -- temporary root or below only, metadata is set there or at or below the output root, and links are made
  -- only where they are allowed. Nothing is said of what the commit and the removal of the temporary tree,
  -- which are one effect each, do inside.
  pub extraction_sound :
      (o : ArchiveReaderOptions) (root : Place) (buffers : List (List ℕ)) (t : ArchiveReader)
      → AreBytes (concat buffers)
      → extract works (new_reader o root) [] buffers ≡ ok t
      → (rs : List ArchiveRecord) × (concat buffers ≡ stream rs)
        × Run Phase.before rs Phase.after
        × LogSafe root o t.log
        × (t.finished ≡ true)
  unfolding new_reader no_metadata Extracted phase
  extraction_sound o root buffers t are e =
      let s = new_reader o root in
      let (rs, bytes, run, (new, log, safe), fin) =
        After_elim (Extracted [] root o s (concat buffers)) _ t
          (extract_from [] root o s [] buffers (Confined-refl s) new_valid are) e in
      (rs, bytes, run, rw (log, append-nil new) safe, fin)
    where
      new_valid : Valid (new_reader o root)
      new_valid = record {
        size_fits = omega arith;
        within = omega arith;
        opened = λ h. cc;
        ended = λ h. cc;
        closed = λ h. refl;
      }
