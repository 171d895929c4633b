-- ===== src/Io/ReadBack/Validated.antt =====
-- The constructor of ShardReader (io/ShardReader.cpp) on what discover finds of a finished ShardWriter.
use bseal_cpp.Base.{
  ℕ, zero, suc, ◌+◌, ◌-◌, ◌^◌, ◌%◌, ◌≤◌, ◌<◌, ◌≡◌, refl, sym, subst, ◌∙◌, ap, Bool, true, false,
  not, ◌||◌, ltb, lt→ltb, ◌==◌, ==_iff, le→ltb_false, Bool-cases, inl, inr, length, replicate, List,
  [], ◌∷◌, Option, some, none, ok, bind_step, then_step, passes, arith,
}
use bseal_cpp.Endian.{all_zero}
use bseal_cpp.Frame.{GlobalPublicHeaderV1}
use bseal_cpp.Frame.Bytes.{equal_bytes, equal_bytes_refl}
use bseal_cpp.Frame.Global.Layout.{global_bytes, serialize_global-eq}
use bseal_cpp.Frame.Mac.{verify_shard_header_mac}
use bseal_cpp.Frame.Mac.Laws.{verify_iff_computed}
use bseal_cpp.App.Plan.{PlanParams}
use bseal_cpp.Io.Discover.{ShardInfo}
use bseal_cpp.Io.Validate.{
  ShardReaderValidation, contains, check_expected, require_indices, checked_range_end, check_ranges,
  authenticate, check_shard, check_shards, validate_shards, validate_with_key,
}
use bseal_cpp.Io.Writer.{ShardWriterOptions, FinalizedShard}
use bseal_cpp.Io.Writer.Rewriting.{sealed_header}
use bseal_cpp.Io.Writer.Finish.{IsFile}
use bseal_cpp.Io.ReadBack.Headers.{Readable, info_of}
use bseal_cpp.Io.ReadBack.Discovered.{Written, Written-within, infos, length-infos, sort-infos}

-- What core_decrypt (app/CoreApi.cpp) expects of the shards, once it has the global header.
abbrev pub expectation_of : GlobalPublicHeaderV1 → ShardReaderValidation
expectation_of global = record {
  suite_id = some global.aead_alg_id;
  archive_id = some global.archive_id;
  chunk_plain_size = some global.chunk_plain_size;
  public_header_hash = none;
}

-- The numbers below k, the last one first.
abbrev below : ℕ → List ℕ
below zero = []
below (suc k) = k ∷ below k

contains-below : (k i : ℕ) → contains i (below k) ≡ ltb i k
unfolding contains
contains-below zero i = sym (le→ltb_false i 0 (omega arith))
contains-below (suc k) i = ap (λ b. i == k || b) (contains-below k i) ∙ one_more i k
  where
    one_more : (i k : ℕ) → (i == k || ltb i k) ≡ ltb i (suc k)
    one_more i k = ground arith

all_present : (rounds i k : ℕ) → i + rounds ≤ k → require_indices rounds i (below k) ≡ ok tt
unfolding require_indices
all_present zero i k h = refl
all_present (suc rounds) i k h =
    let here : contains i (below k) ≡ true = contains-below k i ∙ lt→ltb i k (omega (arith, h)) in
    rw (here, require_indices) (all_present rounds (i + 1) k (omega (arith, h)))

as_expected :
    (global : GlobalPublicHeaderV1) (single : Bool) (info : ShardInfo)
    → info.global_header ≡ global
    → check_expected (expectation_of global) single info ≡ ok tt
unfolding check_expected
as_expected global single info same =
    let suite : (info.global_header.aead_alg_id == global.aead_alg_id) ≡ true =
      (==_iff _ _).1 (ap (λ h. h.aead_alg_id) same) in
    let archive : equal_bytes info.global_header.archive_id global.archive_id ≡ true =
      subst (λ h. equal_bytes info.global_header.archive_id h.archive_id ≡ true) same
        (equal_bytes_refl info.global_header.archive_id) in
    let size : (info.global_header.chunk_plain_size == global.chunk_plain_size) ≡ true =
      (==_iff _ _).1 (ap (λ h. h.chunk_plain_size) same) in
    elim (Bool-cases single) [
      | inl y ↦ rw (suite, archive, size, y, check_expected) refl
      | inr n ↦ rw (suite, archive, size, n, check_expected) refl
    ]

module _ (options : ShardWriterOptions) (p : PlanParams) (names : ℕ → List ℕ) (body : ℕ → List ℕ)
    (hmac_sha256 : List ℕ → List ℕ → Option (List ℕ)) (key : List ℕ) (blake3 : List ℕ → List ℕ)
    (global : GlobalPublicHeaderV1) (g : Readable options p names body hmac_sha256 key global) where
  genuine :
      (s : FinalizedShard) (low k first : ℕ)
      → (file : IsFile p body names hmac_sha256 key global s low k first)
      → authenticate hmac_sha256 key
          (info_of options p names body hmac_sha256 key blake3 global g s file.mac)
        ≡ ok tt
  unfolding authenticate
  genuine s low k first file =
      let verified : verify_shard_header_mac hmac_sha256 key global (sealed_header s file.mac)
          ≡ ok true =
        (verify_iff_computed hmac_sha256 key global (sealed_header s (replicate 32 0)) file.mac).1
          file.mac_is in
      let some_key : (length key == 0) ≡ false = not_zero (length key) g.keyed.some_key in
      rw (some_key, verified, authenticate) refl
    where
      not_zero : (n : ℕ) → 0 < n → (n == 0) ≡ false
      not_zero n h = ground arith

  one_checked :
      (s : FinalizedShard) (low k first : ℕ)
      → (file : IsFile p body names hmac_sha256 key global s low k first) → (single : Bool)
      → k < global.shard_count
      → check_shard hmac_sha256 key
          (expectation_of global)
          (global_bytes global [])
          single
          (below k)
          (info_of options p names body hmac_sha256 key blake3 global g s file.mac)
        ≡ ok tt
  unfolding check_shard
  one_checked s low k first file single inside =
      let info = info_of options p names body hmac_sha256 key blake3 global g s file.mac in
      let new : contains s.shard_index (below k) ≡ false =
        contains-below k s.shard_index
        ∙ le→ltb_false s.shard_index k (
            at_least s.shard_index k global.shard_count file.index_is inside
              g.fits.shard_count_fits) in
      rw
        (
          new,
          serialize_global-eq global g.fits,
          equal_bytes_refl (global_bytes global []),
          as_expected global single info refl,
          genuine s low k first file,
          check_shard,
        )
        refl
    where
      at_least : (a k count : ℕ) → a ≡ k % 2 ^ 32 → k < count → count < 2 ^ 32 → k ≤ a
      at_least a k count e h small = omega (arith, e, h, small)

  all_checked :
      (ss : List FinalizedShard) (low k first : ℕ)
      → (files : Written options p names body hmac_sha256 key blake3 global g low k first ss)
      → (single : Bool) → k + length ss ≤ global.shard_count
      → check_shards hmac_sha256 key
          (expectation_of global)
          (global_bytes global [])
          single
          (below k)
          (infos options p names body hmac_sha256 key blake3 global g ss low k first files)
        ≡ ok (below (k + length ss))
  unfolding check_shards
  all_checked [] low k first files single room = ap (λ n. ok (below n)) (omega arith)
  all_checked (s ∷ ss) low k first files single room =
      let index : s.shard_index ≡ k =
        at_place s.shard_index k global.shard_count files.0.index_is (omega (arith, room))
          g.fits.shard_count_fits in
      let rest =
        all_checked ss (suc files.0.name) (suc k) (first + s.chunk_count) files.1 single
          (omega (arith, room)) in
      let more =
        infos options p names body hmac_sha256 key blake3 global g ss (suc files.0.name) (suc k)
          (first + s.chunk_count) files.1 in
      rw (one_checked s low k first files.0 single (omega (arith, room)), check_shards)
        (ap
            (λ (i : ℕ).
              check_shards hmac_sha256 key (expectation_of global) (global_bytes global []) single
                (i ∷ below k) more)
            index
          ∙ rest
          ∙ ap (λ n. ok (below n)) (omega arith))
    where
      at_place : (a k count : ℕ) → a ≡ k % 2 ^ 32 → k < count → count < 2 ^ 32 → a ≡ k
      at_place a k count e h small = omega (arith, e, h, small)

  ranges_checked :
      (ss : List FinalizedShard) (low k first : ℕ)
      → (files : Written options p names body hmac_sha256 key blake3 global g low k first ss)
      → check_ranges first
          (infos options p names body hmac_sha256 key blake3 global g ss low k first files)
        ≡ ok p.global_chunk_count
  unfolding check_ranges checked_range_end
  ranges_checked [] low k first files = ap ok files
  ranges_checked (s ∷ ss) low k first files =
      let within =
        Written-within options p names body hmac_sha256 key blake3 global g ss (suc files.0.name)
          (suc k) (first + s.chunk_count) files.1 in
      let fits : ltb (2 ^ 64 - 1 - s.chunk_count) s.first_chunk_index ≡ false =
        le→ltb_false (2 ^ 64 - 1 - s.chunk_count) s.first_chunk_index
          (omega (arith, within, g.matches.fits.count_fits, files.0.first_is)) in
      let here : (s.first_chunk_index == first) ≡ true = (==_iff _ _).1 files.0.first_is in
      let end : s.first_chunk_index + s.chunk_count ≡ first + s.chunk_count =
        omega (arith, files.0.first_is) in
      rw (fits, here, end, check_ranges)
        (ranges_checked ss (suc files.0.name) (suc k) (first + s.chunk_count) files.1)

  pub validated :
      (ss : List FinalizedShard)
      → (files : Written options p names body hmac_sha256 key blake3 global g 0 0 0 ss)
      → length key ≡ 32
      → all_zero key ≡ false
      → global.shard_count ≡ length ss
      → validate_with_key hmac_sha256 key
          (expectation_of global)
          (infos options p names body hmac_sha256 key blake3 global g ss 0 0 0 files)
        ≡ ok (
          infos options p names body hmac_sha256 key blake3 global g ss 0 0 0 files,
          p.global_chunk_count,
        )
  unfolding validate_with_key validate_shards
  validated [] files size nonzero count = absurd (omega (arith, files, g.bodies.some_chunk))
  validated (s ∷ ss) files size nonzero count =
      let shards =
        infos options p names body hmac_sha256 key blake3 global g (s ∷ ss) 0 0 0 files in
      let shards_are =
        length-infos options p names body hmac_sha256 key blake3 global g (s ∷ ss) 0 0 0 files in
      let sorted =
        sort-infos options p names body hmac_sha256 key blake3 global g (s ∷ ss) 0 0 0 files
          (omega (arith, count)) in
      let key_ok : (not (length key == 32) || all_zero key) ≡ false =
        rw ((==_iff (length key) 32).1 size, nonzero) refl in
      let number : not (length shards == global.shard_count) ≡ false =
        ap not ((==_iff (length shards) global.shard_count).1 (shards_are ∙ sym count)) in
      let whole : not (p.global_chunk_count == global.global_chunk_count) ≡ false =
        ap not ((==_iff p.global_chunk_count global.global_chunk_count).1 (sym g.same_count)) in
      let start : 0 + length (s ∷ ss) ≡ global.shard_count = omega (arith, count) in
      let checked =
        all_checked (s ∷ ss) 0 0 0 files (length shards == 1) (omega (arith, count))
        ∙ ap (λ n. ok (below n)) start in
      then_step _ _ (passes "header_authentication_key must be 32 non-zero bytes" key_ok)
      ∙ bind_step _ _ (serialize_global-eq global g.fits)
      ∙ bind_step _ _ checked
      ∙ then_step _ _ (passes "shard count does not match global_header.shard_count" number)
      ∙ then_step _ _ (all_present global.shard_count 0 global.shard_count (omega arith))
      ∙ bind_step _ _ (ap (check_ranges 0) sorted ∙ ranges_checked (s ∷ ss) 0 0 0 files)
      ∙ then_step _ _ (passes "shard set does not cover global_chunk_count" whole)
      ∙ ap (λ r. ok (r, global.global_chunk_count)) sorted
      ∙ ap (λ n. ok (shards, n)) g.same_count
