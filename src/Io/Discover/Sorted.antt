-- ===== src/Io/Discover/Sorted.antt =====
-- The order of the shards (io/ShardReader.cpp, std::sort by shard_index).
use mathlib.Core.List.{Perm}
use mathlib.Core.List.Perm
use bseal_cpp.Base.{
  ℕ, zero, suc, ◌+◌, ◌≤◌, ◌<◌, ◌≡◌, refl, ◌∙◌, ap, inl, inr, ◌⊎◌, Bool-cases, length, List, [], ◌∷◌,
  All, All-map, ltb, ltb→lt, ltb_false→le, arith,
}
use bseal_cpp.Io.Discover.{ShardInfo, shard_index, insert_shard, sort_shards}

abbrev Above : ShardInfo → List ShardInfo → Type 0
Above shard = All (λ other. shard_index shard ≤ shard_index other)

abbrev IsSorted : List ShardInfo → Type 0
IsSorted [] = Unit
IsSorted (shard ∷ shards) = Above shard shards × IsSorted shards

-- Some shard has the index.
abbrev pub Has : ℕ → List ShardInfo → Type 0
Has i [] = ⊥
Has i (shard ∷ shards) = (shard_index shard ≡ i) ⊎ Has i shards

module _ (P : ShardInfo → Type 0) where
  insert-All : (s : ShardInfo) (ss : List ShardInfo) → P s → All P ss → All P (insert_shard s ss)
  unfolding insert_shard
  insert-All s [] p h = (p, tt)
  insert-All s (t ∷ ss) p h = elim (Bool-cases (ltb (shard_index t) (shard_index s))) [
    | inl y ↦ rw (y, insert_shard) (h.0, insert-All s ss p h.1)
    | inr n ↦ rw (n, insert_shard) (p, h)
  ]

  pub sort-All : (ss : List ShardInfo) → All P ss → All P (sort_shards ss)
  unfolding sort_shards
  sort-All [] h = tt
  sort-All (s ∷ ss) h = insert-All s (sort_shards ss) h.0 (sort-All ss h.1)

insert-IsSorted : (s : ShardInfo) (ss : List ShardInfo) → IsSorted ss → IsSorted (insert_shard s ss)
unfolding insert_shard
insert-IsSorted s [] h = (tt, tt)
insert-IsSorted s (t ∷ ss) h = elim (Bool-cases (ltb (shard_index t) (shard_index s))) [
  | inl y ↦
      let below = ltb→lt _ _ y in
      rw (y, insert_shard)
        (
          insert-All (λ o. shard_index t ≤ shard_index o) s ss (omega (arith, below)) h.0,
          insert-IsSorted s ss h.1,
        )
  | inr n ↦
      let above = ltb_false→le _ _ n in
      rw (n, insert_shard)
        (
          (
            above,
            All-map (λ o. shard_index t ≤ shard_index o) (λ o. shard_index s ≤ shard_index o) ss
                (λ o le. omega (arith, above, le)) h.0,
          ),
          h,
        )
]

sort-IsSorted : (ss : List ShardInfo) → IsSorted (sort_shards ss)
unfolding sort_shards
sort-IsSorted [] = tt
sort-IsSorted (s ∷ ss) = insert-IsSorted s (sort_shards ss) (sort-IsSorted ss)

insert-perm : (s : ShardInfo) (ss : List ShardInfo) → Perm (insert_shard s ss) (s ∷ ss)
unfolding insert_shard
insert-perm s [] = Perm.refl (s ∷ [])
insert-perm s (t ∷ ss) = elim (Bool-cases (ltb (shard_index t) (shard_index s))) [
  | inl y ↦ rw (y, insert_shard) (Perm.trans (Perm.cons t (insert-perm s ss)) (Perm.swap s t ss))
  | inr n ↦ rw (n, insert_shard) (Perm.refl (s ∷ t ∷ ss))
]

pub sort-perm : (ss : List ShardInfo) → Perm (sort_shards ss) ss
unfolding sort_shards
sort-perm [] = Perm.refl []
sort-perm (s ∷ ss) = Perm.trans (insert-perm s (sort_shards ss)) (Perm.cons s (sort-perm ss))

length-insert : (s : ShardInfo) (ss : List ShardInfo) → length (insert_shard s ss) ≡ suc (length ss)
unfolding insert_shard
length-insert s [] = refl
length-insert s (t ∷ ss) = elim (Bool-cases (ltb (shard_index t) (shard_index s))) [
  | inl y ↦ rw (y, insert_shard) (ap suc (length-insert s ss))
  | inr n ↦ rw (n, insert_shard) refl
]

pub length-sort : (ss : List ShardInfo) → length (sort_shards ss) ≡ length ss
unfolding sort_shards
length-sort [] = refl
length-sort (s ∷ ss) = length-insert s (sort_shards ss) ∙ ap suc (length-sort ss)

insert-Has :
    (i : ℕ) (s : ShardInfo) (ss : List ShardInfo) → Has i (s ∷ ss) → Has i (insert_shard s ss)
unfolding insert_shard
insert-Has i s [] h = h
insert-Has i s (t ∷ ss) h = elim (Bool-cases (ltb (shard_index t) (shard_index s))) [
  | inr n ↦ rw (n, insert_shard) h
  | inl y ↦
      rw (y, insert_shard)
        (elim h [
          | inl here ↦ inr (insert-Has i s ss (inl here))
          | inr (inl next) ↦ inl next
          | inr (inr later) ↦ inr (insert-Has i s ss (inr later))
        ])
]

pub sort-Has : (i : ℕ) (ss : List ShardInfo) → Has i ss → Has i (sort_shards ss)
unfolding sort_shards
sort-Has i [] h = h
sort-Has i (s ∷ ss) (inl here) = insert-Has i s (sort_shards ss) (inl here)
sort-Has i (s ∷ ss) (inr later) = insert-Has i s (sort_shards ss) (inr (sort-Has i ss later))

Above-Has :
    (s : ShardInfo) (ss : List ShardInfo) (i : ℕ) → Above s ss → Has i ss → shard_index s ≤ i
Above-Has s [] i a h = absurd h
Above-Has s (t ∷ ss) i a (inl here) = omega (arith, a.0, here)
Above-Has s (t ∷ ss) i a (inr later) = Above-Has s ss i a.1 later

-- The head of a sorted list has the least index.
least :
    (s : ShardInfo) (ss : List ShardInfo) (i : ℕ) → Above s ss → Has i (s ∷ ss) → shard_index s ≤ i
least s ss i a (inl here) = omega (arith, here)
least s ss i a (inr later) = Above-Has s ss i a later

behind :
    (s : ShardInfo) (ss : List ShardInfo) (i : ℕ) → shard_index s < i → Has i (s ∷ ss) → Has i ss
behind s ss i h (inl here) = absurd (omega (arith, here, h))
behind s ss i h (inr later) = later

-- The indices from a on, n of them.
HasRange : ℕ → ℕ → List ShardInfo → Type 0
HasRange a n ss = (i : ℕ) → a ≤ i → i < a + n → Has i ss

range_fits : (ss : List ShardInfo) (a n : ℕ) → IsSorted ss → HasRange a n ss → n ≤ length ss
unfolding HasRange
range_fits ss a zero h r = omega arith
range_fits [] a (suc n) h r = absurd (r a (omega arith) (omega arith))
range_fits (s ∷ ss) a (suc n) h r =
    let first = least s ss a h.0 (r a (omega arith) (omega arith)) in
    let tail = range_fits ss (suc a) n h.1 (λ i l u.
      behind s ss i (omega (arith, first, l)) (r i (omega (arith, l)) (omega (arith, u)))) in
    omega (arith, tail)

-- The shards have the indices from a on, in order.
abbrev pub Numbered : ℕ → List ShardInfo → Type 0
Numbered a [] = Unit
Numbered a (shard ∷ shards) = (shard_index shard ≡ a) × Numbered (suc a) shards

sorted-Numbered :
    (ss : List ShardInfo) (a : ℕ) → IsSorted ss → HasRange a (length ss) ss → Numbered a ss
unfolding HasRange
sorted-Numbered [] a h r = tt
sorted-Numbered (s ∷ ss) a h r =
    let first = least s ss a h.0 (r a (omega arith) (omega arith)) in
    (
      elim (Bool-cases (ltb (shard_index s) a)) [
        | inr e ↦ omega (arith, first, ltb_false→le _ _ e)
        | inl below ↦
            let low = ltb→lt _ _ below in
            let many =
              range_fits ss a (suc (length ss)) h.1
                (λ i l u. behind s ss i (omega (arith, low, l)) (r i l (omega (arith, u)))) in
            absurd (omega (arith, many))
      ],
      sorted-Numbered ss (suc a) h.1 (λ i l u.
          behind s ss i (omega (arith, first, l)) (r i (omega (arith, l)) (omega (arith, u)))),
    )

-- When every index below the number of shards occurs, sorting numbers them.
pub sort-Numbered :
    (ss : List ShardInfo) → ((i : ℕ) → i < length ss → Has i ss) → Numbered 0 (sort_shards ss)
unfolding HasRange
sort-Numbered ss r =
    let size = length-sort ss in
    sorted-Numbered (sort_shards ss) 0 (sort-IsSorted ss)
      (λ i l u. sort-Has i ss (r i (omega (arith, u, size))))
