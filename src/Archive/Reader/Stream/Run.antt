-- ===== src/Archive/Reader/Stream/Run.antt =====
-- What holds after the loop of ArchiveReader::consume: the records that it took off the buffer.
use bseal_cpp.Base.{
  ℕ, zero, suc, ◌≡◌, refl, sym, ap, ◌∙◌, subst, length, take, drop, List, [], ◌∷◌, ◌++◌,
  append_assoc, Bool, none, some, ok, Result-cases, inl, inr, ◌>>=◌, take-append-drop, bind-eq-ok,
  After_elim,
}
use bseal_cpp.Endian.{AreBytes}
use bseal_cpp.Endian.Inverse.{AreBytes-append}
use bseal_cpp.Archive.Record.{
  ArchiveRecord, serialize_record, encoded_record_size_if_complete, parse_record,
}
use bseal_cpp.Archive.Record.Sound.{parse_record_sound}
use bseal_cpp.Archive.Reader.{Effect, Place, ArchiveReader, ArchiveReaderOptions, process_record}
use bseal_cpp.Archive.Reader.Grammar.{Phase, Step, phase, Valid}
use bseal_cpp.Archive.Reader.Moves.{process_record-Step}
use bseal_cpp.Archive.Reader.Effects.{Confined, process-Keeps}
use bseal_cpp.Archive.Reader.Stream.{Drained, drain_round, drain}

-- Records that follow each other as the grammar allows, and the bytes of a list of records.
pub data Run : Phase → List ArchiveRecord → Phase → Type 0 where
  done : {p : Phase} → Run p [] p
  next :
      {p q u : Phase} {r : ArchiveRecord} {rs : List ArchiveRecord}
      → Step p r.type (length r.payload) q
      → Run q rs u
      → Run p (r ∷ rs) u

abbrev pub stream : List ArchiveRecord → List ℕ
stream [] = []
stream (r ∷ rs) = serialize_record r ++ stream rs

-- What holds of a loop that ends at an incomplete record.
abbrev pub Waits : (ArchiveReader → List ℕ → Type 0) → Drained → Type 0
Waits P (Drained.waits s pending) = P s pending
Waits P (Drained.throws e) = Unit
Waits P Drained.starved = Unit

Waits-map :
    (P Q : ArchiveReader → List ℕ → Type 0) (d : Drained)
    → Waits P d
    → ((s : ArchiveReader) (p : List ℕ) → P s p → Q s p)
    → Waits Q d
Waits-map P Q (Drained.waits s p) h k = k s p h
Waits-map P Q (Drained.throws e) h k = tt
Waits-map P Q Drained.starved h k = tt

pub Run-append :
    {p q u : Phase} {rs ts : List ArchiveRecord} → Run p rs q → Run q ts u → Run p (rs ++ ts) u
Run-append done b = b
Run-append (next s a) b = next s (Run-append a b)

pub stream-append : (rs ts : List ArchiveRecord) → stream (rs ++ ts) ≡ stream rs ++ stream ts
stream-append [] ts = refl
stream-append (r ∷ rs) ts =
    ap (λ t. serialize_record r ++ t) (stream-append rs ts)
    ∙ sym (append_assoc (serialize_record r) (stream rs) (stream ts))

-- The records between two states of a reader: they are the bytes taken, and a run of the grammar.
unfoldable pub Taken : ArchiveReader → List ℕ → ArchiveReader → List ℕ → Type 0
Taken s p t q =
    (rs : List ArchiveRecord) × (p ≡ stream rs ++ q)
    × Run (phase s) rs (phase t)
    × Valid t
    × AreBytes q

module _ (works : List Effect → Effect → Bool) where
  round-Waits :
      (P : ArchiveReader → List ℕ → Type 0) (f : ArchiveReader → List ℕ → Drained)
      (s : ArchiveReader) (p : List ℕ)
      → P s p
      → ((t : ArchiveReader) (r : ArchiveRecord) (size : ℕ)
          → parse_record (take size p) ≡ ok r
          → process_record works s r ≡ ok t
          → Waits P (f t (drop size p)))
      → Waits P (drain_round works f s p)
  unfolding drain_round
  round-Waits P f s p now k = elim (Result-cases (encoded_record_size_if_complete p)) [
    | inr (e, q) ↦ rw (q, drain_round) tt
    | inl (none, q) ↦ rw (q, drain_round) now
    | inl (some size, q) ↦
        let run = parse_record (take size p) >>= process_record works s in
        elim (Result-cases run) [
          | inr (e, r) ↦ rw (q, r, drain_round) tt
          | inl (t, r) ↦
              let (a, parsed, processed) = bind-eq-ok (parse_record (take size p)) _ r in
              rw (q, r, drain_round) (k t a size parsed processed)
        ]
  ]

  pub drain-Taken :
      (n : ℕ) (s : ArchiveReader) (p : List ℕ)
      → AreBytes p
      → Valid s
      → Waits (Taken s p) (drain works n s p)
  unfolding drain Taken
  drain-Taken zero s p are v = tt
  drain-Taken (suc n) s p are v =
      round-Waits (Taken s p) (drain works n) s p ([], refl, done, v, are)
        λ t r size parsed processed.
          let (front, back) =
            AreBytes-append (take size p) (drop size p)
              (subst AreBytes (sym (take-append-drop size p)) are) in
          let (whole, payload) = parse_record_sound (take size p) r front parsed in
          let (step, w) = process_record-Step works s t r payload v processed in
          Waits-map (Taken t (drop size p)) (Taken s p) (drain works n t (drop size p))
            (drain-Taken n t (drop size p) back w)
            λ u q (rs, e, run, x, b). (
              r ∷ rs,
              sym (take-append-drop size p)
                  ∙ ap {A = List ℕ} {B = List ℕ} (λ y. y ++ drop size p) (sym whole)
                  ∙ ap {A = List ℕ} {B = List ℕ} (λ y. serialize_record r ++ y) e
                  ∙ sym (append_assoc (serialize_record r) (stream rs) q),
              next step run,
              x,
              b,
            )

  pub drain-Confined :
      (base : List Effect) (root : Place) (o : ArchiveReaderOptions) (end : Bool) (n : ℕ)
      (s : ArchiveReader) (p : List ℕ)
      → Confined base root o end s
      → Waits (λ t q. Confined base root o end t) (drain works n s p)
  unfolding drain
  drain-Confined base root o end zero s p c = tt
  drain-Confined base root o end (suc n) s p c =
      round-Waits (λ t q. Confined base root o end t) (drain works n) s p c
        λ t r size parsed processed. drain-Confined base root o end n t (drop size p) (
          After_elim (Confined base root o end) (process_record works s r) t
            (process-Keeps works base root o end s r c) processed)
