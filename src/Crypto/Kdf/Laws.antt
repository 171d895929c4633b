-- ===== src/Crypto/Kdf/Laws.antt =====
-- The checks on Argon2id parameters decide what they say, and what a derivation guarantees.
use bseal_cpp.Base.{
  ℕ, ◌≤◌, ◌<◌, ◌^◌, ◌%◌, ◌≡◌, ◌↔◌, refl, sym, ap, ◌∙◌, ◌==◌, length, List, [], ◌∷◌, ◌++◌, Option,
  Option-cases, inl, inr, ok, arith, After, after_reject, After_elim, After_map, after_check,
  ==_iff, Bool-cases, length-append,
}
use bseal_cpp.Endian.{text_bytes, append_u32_le}
use bseal_cpp.Endian.Laws.{append_u32_le_lem}
use bseal_cpp.Crypto.Kdf.{
  KdfParams, KdfResourcePolicy, KdfInput, require_u32_range, validate_kdf_params,
  validate_kdf_security_floor, validate_kdf_resource_policy, check_kdf_params_against_policy,
  hkdf_sha256, derive_master_seed, mix_keyfiles, concat_digests, mix_message,
}

-- The bounds of the format.
pub record InFormat (p : KdfParams) : Type 0 where
  pub memory : (65536 ≤ p.memory_kib) × (p.memory_kib ≤ 4194304)
  pub iterations : (1 ≤ p.iterations) × (p.iterations ≤ 10)
  pub parallelism : (1 ≤ p.parallelism) × (p.parallelism ≤ 32)
  pub output : (32 ≤ p.output_bytes) × (p.output_bytes ≤ 64)

abbrev pub AboveFloor : KdfParams → Type 0
AboveFloor p = (3 ≤ p.iterations) × (p.memory_kib < 262144 → 4 ≤ p.iterations)

abbrev pub WithinPolicy : KdfParams → KdfResourcePolicy → Type 0
WithinPolicy p q =
    (p.memory_kib ≤ q.max_memory_kib)
    × (p.iterations ≤ q.max_iterations)
    × (p.parallelism ≤ q.max_parallelism)

abbrev pub PolicyInFormat : KdfResourcePolicy → Type 0
PolicyInFormat q =
    (0 < q.max_memory_kib)
    × (q.max_memory_kib ≤ 4194304)
    × (0 < q.max_iterations)
    × (q.max_iterations ≤ 10)
    × (0 < q.max_parallelism)
    × (q.max_parallelism ≤ 32)

pub validate_kdf_params_iff : (p : KdfParams) → (validate_kdf_params p ≡ ok tt) ↔ InFormat p
unfolding validate_kdf_params require_u32_range
validate_kdf_params_iff p = (
  λ e. record {
    memory = ground arith;
    iterations = ground arith;
    parallelism = ground arith;
    output = ground arith;
  },
  λ f. ground (arith, f.memory, f.iterations, f.parallelism, f.output),
)

pub security_floor_iff : (p : KdfParams) → (validate_kdf_security_floor p ≡ ok tt) ↔ AboveFloor p
unfolding validate_kdf_security_floor
security_floor_iff p = ground arith

pub check_policy_iff :
    (p : KdfParams) (q : KdfResourcePolicy)
    → (check_kdf_params_against_policy p q ≡ ok tt) ↔ WithinPolicy p q
unfolding check_kdf_params_against_policy
check_policy_iff p q = ground arith

pub resource_policy_iff :
    (q : KdfResourcePolicy) → (validate_kdf_resource_policy q ≡ ok tt) ↔ PolicyInFormat q
unfolding validate_kdf_resource_policy
resource_policy_iff q = ground arith

abbrev pub AllLong : ℕ → List (List ℕ) → Type 0
AllLong n [] = Unit {0}
AllLong n (d ∷ ds) = (length d ≡ n) × AllLong n ds

pub append_injective :
    (a b c d : List ℕ) → length a ≡ length b → a ++ c ≡ b ++ d → (a ≡ b) × (c ≡ d)
append_injective [] [] c d e h = (refl, h)
append_injective [] (y ∷ b) c d e h = absurd (omega (arith, e))
append_injective (x ∷ a) [] c d e h = absurd (omega (arith, e))
append_injective (x ∷ a) (y ∷ b) c d e h =
    let (p, q) = append_injective a b c d (omega (arith, e)) (cc) in (cc, q)

concat_injective :
    (xs ys : List (List ℕ))
    → AllLong 32 xs
    → AllLong 32 ys
    → concat_digests xs ≡ concat_digests ys
    → xs ≡ ys
unfolding concat_digests
concat_injective [] [] a b e = refl
concat_injective [] (y ∷ ys) a b e =
    absurd (omega (arith, b.0, ap length e, length-append y (concat_digests ys)))
concat_injective (x ∷ xs) [] a b e =
    absurd (omega (arith, a.0, ap length e, length-append x (concat_digests xs)))
concat_injective (x ∷ xs) (y ∷ ys) a b e =
    let (p, q) = append_injective x y (concat_digests xs) (concat_digests ys) (a.0 ∙ sym b.0) e in
    let r : xs ≡ ys = concat_injective xs ys a.1 b.1 q in cc

-- Lists of 32-byte keyfile digests are mixed by different messages when they differ: nothing is lost
-- at the boundaries, and the order counts.
pub mix_message_injective :
    (xs ys : List (List ℕ))
    → AllLong 32 xs
    → AllLong 32 ys
    → mix_message xs ≡ mix_message ys
    → xs ≡ ys
unfolding mix_message
mix_message_injective xs ys a b e =
    let domain = text_bytes "BSEAL keyfile mix v1" ++ (0 ∷ []) in
    let (_, tail) = append_injective domain domain _ _ refl e in
    let (_, digests) =
      append_injective (append_u32_le [] (length xs % 2 ^ 32))
        (append_u32_le [] (length ys % 2 ^ 32)) (concat_digests xs) (concat_digests ys)
        (ap length (append_u32_le_lem [] (length xs % 2 ^ 32))
          ∙ sym (ap length (append_u32_le_lem [] (length ys % 2 ^ 32))))
        tail in
    concat_injective xs ys a b digests

-- What hkdf_sha256 returns has the length that was asked for.
pub hkdf_length :
    (derive : _) (ikm salt info : List ℕ) (n : ℕ)
    → After (λ out. (length out ≡ n) × (0 < n)) (hkdf_sha256 derive ikm salt info n)
unfolding hkdf_sha256
hkdf_length derive ikm salt info n =
    let Q : List ℕ → Type 0 = λ out. (length out ≡ n) × (0 < n) in
    after_reject Q (length ikm == 0) _ _ λ some_key. after_reject Q (n == 0) _ _ λ pos.
      elim (Option-cases (derive ikm salt info n)) [
        | inl e ↦ rw e tt
        | inr (out, e) ↦ elim (Bool-cases (length out == n)) [
          | inl y ↦ rw (e, y) ((==_iff _ _).0 y, ground arith)
          | inr z ↦ rw (e, z) tt
        ]
      ]

SeedFacts : KdfInput → List ℕ → Type 0
SeedFacts input seed =
    (0 < length input.passphrase)
    × InFormat input.params
    × AboveFloor input.params
    × (length seed ≡ 32)

-- A master seed is derived only from a passphrase that is not empty, with parameters within the
-- bounds of the format and above the security floor; it has 32 bytes.
pub derive_master_seed_sound :
    (argon2id : KdfParams → List ℕ → List ℕ → Option (List ℕ)) (blake3 : List ℕ → List ℕ)
    (derive : List ℕ → List ℕ → List ℕ → ℕ → Option (List ℕ)) (input : KdfInput) (seed : List ℕ)
    → derive_master_seed argon2id blake3 derive input ≡ ok seed
    → (0 < length input.passphrase)
      × InFormat input.params
      × AboveFloor input.params
      × (length seed ≡ 32)
unfolding derive_master_seed SeedFacts
derive_master_seed_sound argon2id blake3 derive input seed =
    After_elim (SeedFacts input) (derive_master_seed argon2id blake3 derive input) seed (
      after_reject (SeedFacts input) (length input.passphrase == 0) _ _ λ pass.
        after_check (SeedFacts input) (validate_kdf_params input.params) _ λ format.
          after_check (SeedFacts input) (validate_kdf_security_floor input.params) _ λ floor.
            elim (Option-cases (argon2id input.params input.passphrase input.salt)) [
              | inl e ↦ rw e tt
              | inr (pass_key, e) ↦ rw e (
                  After_map _ (SeedFacts input) _
                    (hkdf_length derive (pass_key ++ mix_keyfiles blake3 input.keyfiles)
                      (input.archive_id ++ input.salt) (text_bytes "BSEAL master key v1") 32)
                    λ out (len, _). (
                      ground arith,
                      (validate_kdf_params_iff input.params).0 format,
                      (security_floor_iff input.params).0 floor,
                      len,
                    ))
            ])
