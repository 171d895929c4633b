-- ===== src/Io/Validate/Complete.antt =====
-- What validate_shards (io/ShardReader.cpp) has made sure of.
use mathlib.Core.List.{Perm}
use bseal_cpp.Base.{
  ℕ, zero, suc, ◌+◌, ◌-◌, ◌^◌, ◌≤◌, ◌<◌, ◌≡◌, refl, sym, subst, ◌∙◌, ap, inl, inr, ◌⊎◌, Bool, true,
  false, not, ◌||◌, Bool-cases, not-false, length, List, [], ◌∷◌, All, All-map, ltb, ltb_false→le,
  ◌==◌, ==_iff, arith, if◌then◌else◌, Option, Result, Error, ok, err, reject_if, rejected,
  ok_injective, bind-eq-ok, then-eq-ok,
}
use bseal_cpp.Endian.{all_zero}
use bseal_cpp.Frame.Bytes.{equal_bytes, equal_bytes→eq}
use bseal_cpp.Frame.Global.{serialize_global_public_header}
use bseal_cpp.Frame.Mac.{verify_shard_header_mac}
use bseal_cpp.Io.Discover.{ShardInfo, shard_index, first_chunk_index, chunk_count, sort_shards}
use bseal_cpp.Io.Discover.Sorted.{Has, Numbered, sort-Numbered, sort-All, sort-perm, length-sort}
use bseal_cpp.Io.Validate.{
  ShardReaderValidation, checked_range_end, contains, check_expected, require_indices, check_ranges,
  authenticate, check_shard, check_shards, validate_shards, validate_with_key,
}

-- The shards take up where the one before ends, from a chunk to a total, without overflow.
abbrev pub Ranges : ℕ → ℕ → List ShardInfo → Type 0
Ranges first total [] = first ≡ total
Ranges first total (shard ∷ shards) =
    (first_chunk_index shard ≡ first)
    × (first + chunk_count shard < 2 ^ 64)
    × Ranges (first + chunk_count shard) total shards

check_ranges-Ranges :
    (ss : List ShardInfo) (first total : ℕ)
    → All (λ s. chunk_count s < 2 ^ 64) ss
    → check_ranges first ss ≡ ok total
    → Ranges first total ss
unfolding check_ranges
check_ranges-Ranges [] first total f e = ok_injective e
check_ranges-Ranges (s ∷ ss) first total f e =
    let (end, bounded, e) =
      bind-eq-ok (checked_range_end (first_chunk_index s) (chunk_count s)) _ e in
    let (same, e) = then-eq-ok (reject_if (not (first_chunk_index s == first)) _) _ e in
    let here = (==_iff _ _).0 (not-false _ (rejected _ _ same)) in
    let (sum, small) = range_end (first_chunk_index s) (chunk_count s) end f.0 bounded in
    let place : first + chunk_count s ≡ end = omega (arith, here, sum) in
    (
      here,
      omega (arith, here, sum, small),
      subst (λ n. Ranges n total ss) (sym place) (check_ranges-Ranges ss end total f.1 e),
    )
  where
    range_end :
        (a b c : ℕ) → b < 2 ^ 64 → checked_range_end a b ≡ ok c → (a + b ≡ c) × (a + b < 2 ^ 64)
    range_end a b c f e =
        let (room, e) = then-eq-ok (reject_if (ltb (2 ^ 64 - 1 - b) a) _) _ e in
        (ok_injective e, omega (arith, f, ltb_false→le _ _ (rejected _ _ room)))

or_true : (a b : Bool) → (a || b) ≡ true → (a ≡ true) ⊎ (b ≡ true)
or_true a b e = ground arith

module _ (hmac_sha256 : List ℕ → List ℕ → Option (List ℕ)) (auth_key : List ℕ)
    (validation : ShardReaderValidation) (reference : List ℕ) (single : Bool) where
  -- What is known of a shard that was not rejected.
  Accepted : ShardInfo → Type 0
  Accepted shard =
      (serialize_global_public_header shard.global_header ≡ ok reference)
      × (check_expected validation single shard ≡ ok tt)
      × (authenticate hmac_sha256 auth_key shard ≡ ok tt)

  check_shard-Accepted :
      (set : List ℕ) (shard : ShardInfo)
      → check_shard hmac_sha256 auth_key validation reference single set shard ≡ ok tt
      → Accepted shard
  unfolding check_shard Accepted
  check_shard-Accepted set shard e =
      let (_, e) = then-eq-ok (reject_if (contains (shard_index shard) set) _) _ e in
      let (bytes, written, e) =
        bind-eq-ok (serialize_global_public_header shard.global_header) _ e in
      let (same, e) = then-eq-ok (reject_if (not (equal_bytes bytes reference)) _) _ e in
      let (expected, genuine) = then-eq-ok (check_expected validation single shard) _ e in
      let equal = equal_bytes→eq bytes reference (not-false _ (rejected _ _ same)) in
      (
        subst (λ b. serialize_global_public_header shard.global_header ≡ ok b) equal written,
        expected,
        genuine,
      )

  check_shards-Accepted :
      (ss : List ShardInfo) (set all : List ℕ)
      → check_shards hmac_sha256 auth_key validation reference single set ss ≡ ok all
      → All Accepted ss × ((i : ℕ) → contains i all ≡ true → Has i ss ⊎ (contains i set ≡ true))
  unfolding check_shards contains
  check_shards-Accepted [] set all e =
      let same = ok_injective e in (tt, λ i h. inr (subst (λ l. contains i l ≡ true) (sym same) h))
  check_shards-Accepted (s ∷ ss) set all e =
      let (one, e) =
        then-eq-ok (check_shard hmac_sha256 auth_key validation reference single set s) _ e in
      let (more, found) = check_shards-Accepted ss (shard_index s ∷ set) all e in
      (
        (check_shard-Accepted set s one, more),
        λ i h. elim (found i h) [
          | inl later ↦ inl (inr later)
          | inr now ↦ elim (or_true (i == shard_index s) (contains i set) now) [
            | inl here ↦ inl (inl (sym ((==_iff _ _).0 here)))
            | inr before ↦ inr before
          ]
        ],
      )

require_indices_lem :
    (rounds i : ℕ) (set : List ℕ)
    → require_indices rounds i set ≡ ok tt
    → (j : ℕ) → i ≤ j
    → j < i + rounds
    → contains j set ≡ true
unfolding require_indices
require_indices_lem zero i set e j l u = absurd (omega (arith, l, u))
require_indices_lem (suc rounds) i set e j l u =
    let (found, e) = then-eq-ok (reject_if (not (contains i set)) _) _ e in
    elim (Bool-cases (i == j)) [
      | inl y ↦
          subst (λ k. contains k set ≡ true) ((==_iff i j).0 y) (not-false _ (rejected _ _ found))
      | inr n ↦ require_indices_lem rounds (i + 1) set e j (differs i j n l) (omega (arith, u))
    ]
  where
    differs : (i j : ℕ) → (i == j) ≡ false → i ≤ j → i + 1 ≤ j
    differs i j n l = ground arith

-- A complete set of shards, in order: one permutation of those that were found, numbered from 0,
-- whose chunks are those of the archive, with one global header and with genuine header MACs.
pub record IsComplete (hmac_sha256 : List ℕ → List ℕ → Option (List ℕ)) (auth_key : List ℕ)
    (validation : ShardReaderValidation) (found : List ShardInfo) (sorted : List ShardInfo)
    (total : ℕ) : Type 0 where
  pub permuted : Perm sorted found
  pub numbered : Numbered 0 sorted
  pub ranges : Ranges 0 total sorted
  pub reference : List ℕ
  pub one_global_header :
      All (λ s. serialize_global_public_header s.global_header ≡ ok reference) sorted
  pub expected : All (λ s. check_expected validation (length found == 1) s ≡ ok tt) sorted
  pub genuine :
      All
        (λ s. verify_shard_header_mac hmac_sha256 auth_key s.global_header s.shard_header ≡ ok true)
        sorted

is_genuine :
    (genuine : Bool) (thrown : Error)
    → ◌≡◌ {A = Result (Unit {0})} (if genuine then ok tt else err thrown) (ok tt)
    → genuine ≡ true
is_genuine true thrown e = refl
is_genuine false thrown e = cc

authenticated :
    (hmac_sha256 : List ℕ → List ℕ → Option (List ℕ)) (auth_key : List ℕ) (shard : ShardInfo)
    → length auth_key ≡ 32
    → authenticate hmac_sha256 auth_key shard ≡ ok tt
    → verify_shard_header_mac hmac_sha256 auth_key shard.global_header shard.shard_header ≡ ok true
unfolding authenticate
authenticated hmac_sha256 auth_key shard size e =
    let checked = rw (size, authenticate) at e in
    let (genuine, verified, e) =
      bind-eq-ok
        (verify_shard_header_mac hmac_sha256 auth_key shard.global_header shard.shard_header) _
        checked in
    verified ∙ ap ok (is_genuine genuine _ e)

right_size : (key : List ℕ) → (not (length key == 32) || all_zero key) ≡ false → length key ≡ 32
right_size key e = ground arith

-- When the constructor with a key accepts the shards that were found, and the number of chunks that a
-- shard declares has 64 bits: the reader's shards are a permutation of those found, as many as the
-- global header says, numbered from 0; their chunk ranges follow each other from 0 to the
-- global_chunk_count of the header; they all have the same global header bytes, they all match what
-- the caller expects, and the MAC of each verifies under the key.
pub validated-IsComplete :
    (hmac_sha256 : List ℕ → List ℕ → Option (List ℕ)) (auth_key : List ℕ)
    (validation : ShardReaderValidation) (front : ShardInfo) (others sorted : List ShardInfo)
    (total : ℕ)
    → All (λ s. chunk_count s < 2 ^ 64) (front ∷ others)
    → validate_with_key hmac_sha256 auth_key validation (front ∷ others) ≡ ok (sorted, total)
    → IsComplete hmac_sha256 auth_key validation (front ∷ others) sorted total
      × (length sorted ≡ front.global_header.shard_count)
      × (total ≡ front.global_header.global_chunk_count)
unfolding validate_with_key validate_shards Accepted
validated-IsComplete hmac_sha256 auth_key validation front others sorted total fits e =
    let shards = front ∷ others in
    let single = length shards == 1 in
    let (key, e) =
      then-eq-ok (reject_if (not (length auth_key == 32) || all_zero auth_key) _) _ e in
    let (reference, written, e) =
      bind-eq-ok (serialize_global_public_header front.global_header) _ e in
    let (all, checked, e) =
      bind-eq-ok (check_shards hmac_sha256 auth_key validation reference single [] shards) _ e in
    let (count, e) =
      then-eq-ok (reject_if (not (length shards == front.global_header.shard_count)) _) _ e in
    let (present, e) = then-eq-ok (require_indices front.global_header.shard_count 0 all) _ e in
    let (end, ranges, e) = bind-eq-ok (check_ranges 0 (sort_shards shards)) _ e in
    let (covers, e) =
      then-eq-ok (reject_if (not (end == front.global_header.global_chunk_count)) _) _ e in
    let result = ok_injective e in
    let same : sort_shards shards ≡ sorted = ap (λ r. r.0) result in
    let sum : front.global_header.global_chunk_count ≡ total = ap (λ r. r.1) result in
    let enough = (==_iff _ _).0 (not-false _ (rejected _ _ count)) in
    let whole = (==_iff _ _).0 (not-false _ (rejected _ _ covers)) in
    let (accepted, found) =
      check_shards-Accepted hmac_sha256 auth_key validation reference single shards [] all
        checked in
    let has : (i : ℕ) → i < length shards → Has i shards = λ i u.
      elim (found i (
        require_indices_lem front.global_header.shard_count 0 all present i (omega arith)
          (omega (arith, u, enough)))) [ inl h ↦ h | inr n ↦ cc n ] in
    let kept : All (Accepted hmac_sha256 auth_key validation reference single)
        (sort_shards shards) =
      sort-All (Accepted hmac_sha256 auth_key validation reference single) shards accepted in
    let size = right_size auth_key (rejected _ _ key) in
    subst
      (λ l.
        IsComplete hmac_sha256 auth_key validation shards l total
        × (length l ≡ front.global_header.shard_count)
        × (total ≡ front.global_header.global_chunk_count))
      same
      (
        record {
          permuted = sort-perm shards;
          numbered = sort-Numbered shards has;
          ranges =
              subst (λ n. Ranges 0 n (sort_shards shards)) (whole ∙ sum)
                (check_ranges-Ranges (sort_shards shards) 0 end
                  (sort-All (λ s. chunk_count s < 2 ^ 64) shards fits) ranges);
          reference = reference;
          one_global_header = All-map _ _ (sort_shards shards) (λ s a. a.0) kept;
          expected = All-map _ _ (sort_shards shards) (λ s a. a.1) kept;
          genuine =
              All-map _ _ (sort_shards shards)
                (λ s a. authenticated hmac_sha256 auth_key s size a.2) kept;
        },
        length-sort shards ∙ enough,
        sym sum,
      )
