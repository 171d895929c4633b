-- ===== src/Io/ReadBack/Discovered.antt =====
-- discover (io/ShardReader.cpp) over the directory of a finished ShardWriter.
use bseal_cpp.Base.{
  ℕ, suc, ◌+◌, ◌^◌, ◌%◌, ◌≤◌, ◌<◌, ◌≡◌, refl, ◌∙◌, ap, true, false, ltb, ◌==◌, le→ltb_false, length,
  map, List, [], ◌∷◌, Option, some, ok, arith,
}
use bseal_cpp.Frame.{GlobalPublicHeaderV1}
use bseal_cpp.App.Plan.{PlanParams}
use bseal_cpp.Io.Discover.{
  ShardInfo, DirectoryEntry, has_bin_extension, insert_shard, sort_shards, read_shard_info,
  read_entries, discover,
}
use bseal_cpp.Io.Writer.{ShardWriterOptions, FinalizedShard}
use bseal_cpp.Io.Writer.Finish.{Files}
use bseal_cpp.Io.ReadBack.Headers.{Readable, info_of, read_one}

in_order :
    (a b k count : ℕ)
    → a ≡ k % 2 ^ 32
    → b ≡ suc k % 2 ^ 32
    → suc k < count
    → count < 2 ^ 32
    → ltb b a ≡ false
in_order a b k count e f h small = le→ltb_false b a (omega (arith, e, f, h, small))

-- The file of a shard in the directory.
abbrev pub entry_of : FinalizedShard → DirectoryEntry
entry_of s = record { path = s.path; is_regular_file = true; content = some s.content }

module _ (options : ShardWriterOptions) (p : PlanParams) (names : ℕ → List ℕ) (body : ℕ → List ℕ)
    (hmac_sha256 : List ℕ → List ℕ → Option (List ℕ)) (key : List ℕ) (blake3 : List ℕ → List ℕ)
    (global : GlobalPublicHeaderV1) (g : Readable options p names body hmac_sha256 key global) where
  -- The files from a shard on, as finish leaves them.
  abbrev pub Written : ℕ → ℕ → ℕ → List FinalizedShard → Type 0
  Written low k first ss =
      Files p body names hmac_sha256 key global low k first ss p.global_chunk_count

  -- What is read of the files.
  abbrev pub infos :
      (ss : List FinalizedShard) (low k first : ℕ) → Written low k first ss → List ShardInfo
  infos [] low k first files = []
  infos (s ∷ ss) low k first files =
      info_of options p names body hmac_sha256 key blake3 global g s files.0.mac
      ∷ infos ss (suc files.0.name) (suc k) (first + s.chunk_count) files.1

  pub Written-within :
      (ss : List FinalizedShard) (low k first : ℕ)
      → Written low k first ss
      → first ≤ p.global_chunk_count
  Written-within [] low k first files = omega (arith, files)
  Written-within (s ∷ ss) low k first files =
      let more = Written-within ss (suc files.0.name) (suc k) (first + s.chunk_count) files.1 in
      omega (arith, more)

  pub length-infos :
      (ss : List FinalizedShard) (low k first : ℕ) (files : Written low k first ss)
      → length (infos ss low k first files) ≡ length ss
  length-infos [] low k first files = refl
  length-infos (s ∷ ss) low k first files =
      omega (arith, length-infos ss (suc files.0.name) (suc k) (first + s.chunk_count) files.1)

  entries_read :
      (ss : List FinalizedShard) (low k first : ℕ) (files : Written low k first ss)
      → k + length ss ≤ global.shard_count
      → read_entries blake3 (map entry_of ss) ≡ ok (infos ss low k first files)
  unfolding read_entries read_shard_info
  entries_read [] low k first files room = refl
  entries_read (s ∷ ss) low k first files room =
      let within = Written-within ss (suc files.0.name) (suc k) (first + s.chunk_count) files.1 in
      let named : has_bin_extension s.path ≡ true =
        ap has_bin_extension files.0.path_is ∙ g.extension files.0.name in
      rw
        (
          named,
          read_one options p names body hmac_sha256 key blake3 global g s low k first files.0 within
              (omega (arith, room)),
          entries_read ss (suc files.0.name) (suc k) (first + s.chunk_count) files.1
              (omega (arith, room)),
          read_entries,
        )
        refl

  -- They are in their order.
  pub sort-infos :
      (ss : List FinalizedShard) (low k first : ℕ) (files : Written low k first ss)
      → k + length ss ≤ global.shard_count
      → sort_shards (infos ss low k first files) ≡ infos ss low k first files
  unfolding sort_shards insert_shard
  sort-infos [] low k first files room = refl
  sort-infos (s ∷ []) low k first files room = refl
  sort-infos (s ∷ t ∷ ss) low k first files room =
      let others =
        sort-infos (t ∷ ss) (suc files.0.name) (suc k) (first + s.chunk_count) files.1
          (omega (arith, room)) in
      let ordered : ltb t.shard_index s.shard_index ≡ false =
        in_order s.shard_index t.shard_index k (k + length (s ∷ t ∷ ss)) files.0.index_is
          files.1.0.index_is (omega arith) (omega (arith, room, g.fits.shard_count_fits)) in
      ap (insert_shard (info_of options p names body hmac_sha256 key blake3 global g s files.0.mac))
        others
      ∙ rw (ordered, insert_shard) refl

  pub discovered :
      (ss : List FinalizedShard) (files : Written 0 0 0 ss)
      → 0 < length ss
      → length ss ≤ global.shard_count
      → discover blake3 (some (map entry_of ss)) ≡ ok (infos ss 0 0 0 files)
  unfolding discover
  discovered ss files some_file room =
      let found : (length (infos ss 0 0 0 files) == 0) ≡ false =
        not_zero (length (infos ss 0 0 0 files))
          (omega (arith, length-infos ss 0 0 0 files, some_file)) in
      rw
        (
          entries_read ss 0 0 0 files (omega (arith, room)),
          found,
          sort-infos ss 0 0 0 files (omega (arith, room)),
          discover,
        )
        refl
    where
      not_zero : (n : ℕ) → 0 < n → (n == 0) ≡ false
      not_zero n h = ground arith
