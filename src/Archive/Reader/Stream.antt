-- ===== src/Archive/Reader/Stream.antt =====
-- ArchiveReader::consume and ArchiveReader::finish: records out of buffers of any size.
pub mod Laws
pub mod Run
pub mod Extraction
use bseal_cpp.Base.{
  ℕ, zero, suc, ◌+◌, ◌≤◌, ◌<◌, Bool, true, false, not, ◌==◌, length, take, drop, leb, List, [], ◌∷◌,
  ◌++◌, Option, none, some, Error, Result, ok, err, out_of_fuel, invalid_argument, reject_if, ◌>>=◌,
  ◌>>◌, if◌then◌else◌,
}
use bseal_cpp.Archive.Path.{parts}
use bseal_cpp.Archive.Meta.Rules.{EntryMetadata}
use bseal_cpp.Archive.Record.{encoded_record_size_if_complete, parse_record}
use bseal_cpp.Archive.Reader.{
  Effect, ArchiveReader, perform, process_record, apply_metadata_to_path, final_path_for,
}

-- How the loop of `consume` ends: at an incomplete record, with the bytes that are left, or by an
-- exception. `starved` is a loop of the model that ran out of fuel.
pub data Drained : Type 0 where
  waits : ArchiveReader → List ℕ → Drained
  throws : Error → Drained
  starved : Drained

-- `std::ranges::sort` by depth, deepest first.
unfoldable pub depth : EntryMetadata → ℕ
depth m = length (parts m.relative_path)

unfoldable pub insert_deepest : EntryMetadata → List EntryMetadata → List EntryMetadata
unfolding depth
insert_deepest m [] = m ∷ []
insert_deepest m (x ∷ xs) =
    let rest = insert_deepest m xs in if leb (depth x) (depth m) then m ∷ x ∷ xs else x ∷ rest

unfoldable pub deepest_first : List EntryMetadata → List EntryMetadata
deepest_first [] = []
deepest_first (m ∷ ms) = insert_deepest m (deepest_first ms)

module _ (works : List Effect → Effect → Bool) where
  -- One round of the loop, with the rest of the loop as an argument.
  unfoldable pub drain_round : (ArchiveReader → List ℕ → Drained) → ArchiveReader → List ℕ → Drained
  drain_round next s pending = elim (encoded_record_size_if_complete pending) [
    | err e ↦ throws e
    | ok none ↦ waits s pending
    | ok (some size) ↦ elim (parse_record (take size pending) >>= process_record works s) [
      | err e ↦ throws e
      | ok t ↦ next t (drop size pending)
    ]
  ]

  -- The loop of `consume`. Every round takes at least the 9 bytes of a prefix, so that one round
  -- more than there are bytes is enough.
  unfoldable pub drain : ℕ → ArchiveReader → List ℕ → Drained
  drain zero s pending = starved
  drain (suc n) s pending = drain_round (drain n) s pending

  unfoldable pub drain_all : ArchiveReader → List ℕ → Drained
  drain_all s pending = drain (suc (length pending)) s pending

  -- `pending_` is the list of bytes beside the other members.
  unfoldable pub consume : ArchiveReader → List ℕ → List ℕ → Drained
  consume s pending plaintext =
      if s.finished
      then throws (invalid_argument "cannot consume archive data after finish")
      else drain_all s (pending ++ plaintext)

  unfoldable pub apply_all : ArchiveReader → List EntryMetadata → Result ArchiveReader
  apply_all s [] = ok s
  apply_all s (m ∷ ms) = do
    path ← final_path_for s m.relative_path
    s ← apply_metadata_to_path works s path m
    apply_all s ms

  unfoldable pub apply_deferred_directory_metadata : ArchiveReader → Result ArchiveReader
  apply_deferred_directory_metadata s = apply_all s (deepest_first s.deferred_directory_metadata)

  -- The removal of the temporary tree ignores its error code.
  unfoldable pub finish_now : ArchiveReader → List ℕ → Result ArchiveReader
  finish_now s pending = do
    reject_if (not (length pending == 0)) "archive ended with a partial record"
    reject_if (not s.archive_begin_seen) "archive did not contain ArchiveBegin"
    reject_if (not s.archive_end_seen) "archive did not contain ArchiveEnd"
    reject_if s.current_file_open "archive ended while a file was still open"
    s ← perform works s Effect.commit_temp_tree "the extracted tree cannot be committed"
    s ← apply_deferred_directory_metadata s
    ok (record s { finished = true; log = Effect.remove_temp_tree ∷ s.log })

  unfoldable pub finish : ArchiveReader → List ℕ → Result ArchiveReader
  finish s pending = if s.finished then ok s else finish_now s pending

  -- The use of a reader: the buffers in turn, then `finish`.
  unfoldable pub extract : ArchiveReader → List ℕ → List (List ℕ) → Result ArchiveReader
  extract s pending [] = finish s pending
  extract s pending (buffer ∷ buffers) = elim (consume s pending buffer) [
    | waits t rest ↦ extract t rest buffers
    | throws e ↦ err e
    | starved ↦ err out_of_fuel
  ]
