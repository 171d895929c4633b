-- ===== src/App/Padding/Laws.antt =====
-- The padded size leaves no gap or room for a padding record, and obeys the policy.
use bseal_cpp.Base.{
  ℕ, suc, ◌+◌, ◌-◌, ◌*◌, ◌/◌, ◌%◌, ◌^◌, ◌≤◌, ◌<◌, ◌≡◌, refl, sym, ap, ◌∙◌, ◌⊎◌, inl, inr, false,
  not, ltb, ◌==◌, ==_iff, ◌&&◌, Result, ok, arith, if◌then◌else◌, Bool-cases, ltb_false→le, ltb→lt,
  not-false, After, After-bind, after_reject, After_elim, After_map, ◌>>=◌,
}
use bseal_cpp.Checked.{checked_add_u64, checked_mul_u64}
use bseal_cpp.Checked.Laws.{next_power_of_two_least}
use bseal_cpp.App.Padding.{
  PaddingPolicy, PaddingResult, too_small, chunk_target, chunk_padding, power2_padding,
  fixed_padding, bump_power2, compute_padding, with_policy,
}
use native.Mathlib.Nat.{div-add-mod, mod-lt, pow-suc}

-- No gap, or one that a padding record with its prefix fills.
abbrev pub GapFits : ℕ → ℕ → Type 0
GapFits raw target = (raw ≤ target) × (target ≡ raw ⊎ (raw + 9 ≤ target))

-- What the policy asks of the padded size of a stream that is not empty.
abbrev pub Obeys : PaddingPolicy → ℕ → ℕ → ℕ → Type 0
Obeys PaddingPolicy.no_padding raw chunk target = target ≡ raw
Obeys PaddingPolicy.chunk raw chunk target = (k : ℕ) × (target ≡ k * chunk)
Obeys PaddingPolicy.power2 raw chunk target =
    ((k : ℕ) × (target ≡ 2 ^ k)) ⊎ (target ≡ chunk ⊎ (target ≡ chunk * 2))
Obeys (PaddingPolicy.fixed_size n) raw chunk target = (target ≡ n) × (k : ℕ) × (n ≡ k * chunk)

large_enough :
    (raw target : ℕ) → raw ≤ target → too_small (target - raw) ≡ false → GapFits raw target
unfolding too_small
large_enough raw target h e = ground arith

checked_add_is : (a b : ℕ) (c : _) → After (λ r. r ≡ a + b) (checked_add_u64 a b c)
unfolding checked_add_u64
checked_add_is a b c =
    after_reject (λ r. r ≡ a + b) (ltb (2 ^ 64 - 1 - a) b) c (ok (a + b)) λ h. refl

checked_mul_is : (a b : ℕ) (c : _) → After (λ r. r ≡ a * b) (checked_mul_u64 a b c)
unfolding checked_mul_u64
checked_mul_is a b c =
    after_reject (λ r. r ≡ a * b) (not (a == 0) && ltb ((2 ^ 64 - 1) / a) b) c (ok (a * b))
      λ h. refl

next_multiple :
    (raw chunk : ℕ) → 0 < chunk → raw + (chunk - raw % chunk) ≡ (raw / chunk + 1) * chunk
next_multiple raw chunk h = grind (arith, div-add-mod raw chunk, mod-lt raw h)

exact_multiple : (raw chunk : ℕ) → raw % chunk ≡ 0 → raw ≡ raw / chunk * chunk
exact_multiple raw chunk h = grind (arith, div-add-mod raw chunk)

Multiple : ℕ → ℕ → ℕ → Type 0
Multiple raw chunk target = (raw ≤ target) × (k : ℕ) × (target ≡ k * chunk)

chunk_target_lem : (raw chunk : ℕ) → 0 < chunk → After (Multiple raw chunk) (chunk_target raw chunk)
unfolding chunk_target Multiple
chunk_target_lem raw chunk h = elim (Bool-cases (raw % chunk == 0)) [
  | inl y ↦
      rw (y, chunk_target) (omega arith, raw / chunk, exact_multiple raw chunk ((==_iff _ _).0 y))
  | inr n ↦
      rw (n, chunk_target)
        (After_map _ (Multiple raw chunk) _ (checked_add_is raw (chunk - raw % chunk) _)
          λ t e. (omega (arith, e), raw / chunk + 1, e ∙ next_multiple raw chunk h))
]

chunk_padding_lem :
    (raw chunk : ℕ)
    → 9 ≤ chunk
    → After (λ t. GapFits raw t × (k : ℕ) × (t ≡ k * chunk)) (chunk_padding raw chunk)
unfolding chunk_padding Multiple
chunk_padding_lem raw chunk h =
    After-bind (Multiple raw chunk) _ (chunk_target raw chunk) _
      (chunk_target_lem raw chunk (omega (arith, h)))
      λ t (le, k, e). elim (Bool-cases (too_small (t - raw))) [
        | inl y ↦ rw y (
            After_map _ (λ t. GapFits raw t × (k : ℕ) × (t ≡ k * chunk)) _
              (checked_add_is t chunk _)
              λ u q.
                ((omega (arith, q, le), inr (omega (arith, q, le, h))), k + 1, grind (arith, q, e)))
        | inr n ↦ rw n (large_enough raw t le n, k, e)
      ]

bump_power2_lem :
    (raw chunk t : ℕ)
    → raw ≤ t
    → 9 ≤ t
    → ((k : ℕ) × (t ≡ 2 ^ k)) ⊎ (t ≡ chunk)
    → After (λ u. GapFits raw u × Obeys PaddingPolicy.power2 raw chunk u) (bump_power2 raw t)
unfolding bump_power2
bump_power2_lem raw chunk t le nine kind = elim (Bool-cases (too_small (t - raw))) [
  | inl y ↦
      rw (y, bump_power2)
        (After_map _ (λ u. GapFits raw u × Obeys PaddingPolicy.power2 raw chunk u) _
          (checked_mul_is t 2 _)
          λ u q. ((omega (arith, q, le), inr (omega (arith, q, le, nine))), doubled u q kind))
  | inr n ↦ rw (n, bump_power2) (large_enough raw t le n, kept kind)
]
  where
    doubled :
        (u : ℕ)
        → u ≡ t * 2
        → ((k : ℕ) × (t ≡ 2 ^ k)) ⊎ (t ≡ chunk)
        → Obeys PaddingPolicy.power2 raw chunk u
    doubled u q (inl (k, e)) = inl (suc k, q ∙ ap (λ x. x * 2) e ∙ sym (pow-suc 2 k))
    doubled u q (inr e) = inr (inr (q ∙ ap (λ x. x * 2) e))

    kept : ((k : ℕ) × (t ≡ 2 ^ k)) ⊎ (t ≡ chunk) → Obeys PaddingPolicy.power2 raw chunk t
    kept (inl k) = inl k
    kept (inr e) = inr (inl e)

power2_padding_lem :
    (raw chunk : ℕ)
    → 9 ≤ chunk
    → raw ≤ 2 ^ 63
    → After (λ t. GapFits raw t × Obeys PaddingPolicy.power2 raw chunk t) (power2_padding raw chunk)
unfolding power2_padding
power2_padding_lem raw chunk h small =
    let (k, e, le, least) = next_power_of_two_least raw "power2 padding: target size" small in
    elim (Bool-cases (ltb (2 ^ k) chunk)) [
      | inl y ↦
          rw (e, y, power2_padding)
            (bump_power2_lem raw chunk chunk (omega (arith, le, ltb→lt (2 ^ k) chunk y)) h
              (inr refl))
      | inr n ↦
          rw (e, n, power2_padding)
            (bump_power2_lem raw chunk (2 ^ k) le (omega (arith, h, ltb_false→le (2 ^ k) chunk n))
              (inl (k, refl)))
    ]

fixed_padding_lem :
    (raw chunk n : ℕ)
    → After
        (λ t. GapFits raw t × Obeys (PaddingPolicy.fixed_size n) raw chunk t)
        (fixed_padding raw chunk n)
unfolding fixed_padding
fixed_padding_lem raw chunk n =
    let Q : ℕ → Type 0 = λ t. GapFits raw t × Obeys (PaddingPolicy.fixed_size n) raw chunk t in
    after_reject Q (ltb n raw) _ _ λ le. after_reject Q (not (n % chunk == 0)) _ _ λ m.
      after_reject Q (too_small (n - raw)) _ _ λ gap. (
        large_enough raw n (ltb_false→le n raw le) gap,
        (refl, n / chunk, exact_multiple n chunk ((==_iff _ _).0 (not-false _ m))),
      )

Padded : PaddingPolicy → ℕ → ℕ → PaddingResult → Type 0
Padded policy raw chunk r =
    GapFits raw r.target_size × (raw ≡ 0 ⊎ Obeys policy raw chunk r.target_size)

Good : PaddingPolicy → ℕ → ℕ → ℕ → Type 0
Good policy raw chunk t = GapFits raw t × Obeys policy raw chunk t

-- The tail of a policy: nothing to pad, or the padded size.
tail_lem :
    (policy : PaddingPolicy) (raw chunk id : ℕ) (q : Result ℕ)
    → After (Good policy raw chunk) q
    → After (Padded policy raw chunk) (
        if raw == 0
        then ok (with_policy id 0 0)
        else (q >>= λ target. ok (with_policy id 0 target)))
unfolding Padded Good
tail_lem policy raw chunk id q h = elim (Bool-cases (raw == 0)) [
  | inl y ↦
      let nil : raw ≡ 0 = (==_iff _ _).0 y in rw y ((omega (arith, nil), inl (sym nil)), inl nil)
  | inr n ↦
      rw n
        (After-bind (Good policy raw chunk) (Padded policy raw chunk) q _ h λ t (g, o). (g, inr o))
]

padded :
    (policy : PaddingPolicy) (raw chunk : ℕ)
    → 9 ≤ chunk
    → raw ≤ 2 ^ 63
    → After (Padded policy raw chunk) (compute_padding raw chunk policy)
unfolding compute_padding Padded Good
padded PaddingPolicy.no_padding raw chunk h small = ((omega arith, inl refl), inr refl)
padded PaddingPolicy.chunk raw chunk h small =
    tail_lem PaddingPolicy.chunk raw chunk 1 (chunk_padding raw chunk) (
      After_map _ (Good PaddingPolicy.chunk raw chunk) (chunk_padding raw chunk)
        (chunk_padding_lem raw chunk h) λ t (g, k, e). (g, (k, e)))
padded PaddingPolicy.power2 raw chunk h small =
    tail_lem PaddingPolicy.power2 raw chunk 2 (power2_padding raw chunk) (
      After_map _ (Good PaddingPolicy.power2 raw chunk) (power2_padding raw chunk)
        (power2_padding_lem raw chunk h small) λ t g. g)
padded (PaddingPolicy.fixed_size n) raw chunk h small =
    After-bind (Good (PaddingPolicy.fixed_size n) raw chunk)
      (Padded (PaddingPolicy.fixed_size n) raw chunk) (fixed_padding raw chunk n) _
      (After_map _ (Good (PaddingPolicy.fixed_size n) raw chunk) (fixed_padding raw chunk n)
        (fixed_padding_lem raw chunk n) λ t g. g)
      λ t (g, o). (g, inr o)

-- A padded size that compute_padding returns, for a stream of at most 2 ^ 63 bytes and chunks of at
-- least 9, is the size of the stream or leaves the 9 bytes of a padding record's prefix. It obeys
-- the policy unless the stream is empty: the size of the stream, a multiple of the chunk size, a
-- power of two (or the chunk size, or twice that), or the size asked for, a multiple of the chunk size.
pub compute_padding_sound :
    (raw chunk : ℕ) (policy : PaddingPolicy) (r : PaddingResult)
    → 9 ≤ chunk
    → raw ≤ 2 ^ 63
    → compute_padding raw chunk policy ≡ ok r
    → GapFits raw r.target_size × (raw ≡ 0 ⊎ Obeys policy raw chunk r.target_size)
unfolding Padded
compute_padding_sound raw chunk policy r h small e =
    After_elim (Padded policy raw chunk) (compute_padding raw chunk policy) r
      (padded policy raw chunk h small) e
