-- ===== src/Pipeline/Order/Laws.antt =====
-- The order is restored.
use bseal_cpp.Base.{
  ℕ, zero, suc, ◌+◌, ◌≡◌, Bool, false, not, ◌&&◌, refl, sym, ap, ◌∙◌, subst, ltb, ◌==◌, ==_iff,
  length, length-append, List, [], ◌∷◌, ◌++◌, append_assoc, append-nil, none, some, Option-cases,
  Result, ok, Result-cases, arith, Bool-cases, inl, inr, ◌>>=◌, ok_injective, err_not_ok,
  bind-eq-ok, length_zero,
}
use mathlib.Core.List.{Perm}
use mathlib.Core.List.Perm
use mathlib.Core.List.{perm_middle}
use bseal_cpp.Pipeline.Order.{take_index, Ordered, flush, receive, receive_all}

none_not_some : {A : Type 0} {a : A} → none ≡ some a → ⊥
none_not_some e = cc

-- Chunks with consecutive indices from a given one on.
abbrev pub Numbered : {C : Type 0} → ℕ → List (ℕ × C) → Type 0
Numbered i [] = Unit {0}
Numbered i (item ∷ items) = (item.0 ≡ i) × Numbered (i + 1) items

-- The sink fed with chunks in turn.
abbrev pub feed : {C S : Type 0} → (S → ℕ × C → Result S) → S → List (ℕ × C) → Result S
feed sink s [] = ok s
feed sink s (item ∷ items) = sink s item >>= λ t. feed sink t items

module _ {C : Type 0} where
  take_index_perm :
      (index : ℕ) (items others : List (ℕ × C)) (c : C)
      → take_index index items ≡ some (c, others)
      → Perm items ((index, c) ∷ others)
  unfolding take_index
  take_index_perm index [] others c e = cc
  take_index_perm index ((i, d) ∷ rest) others c e = elim (Bool-cases (i == index)) [
    | inl y ↦
        let at : some (d, rest) ≡ some (c, others) = rw (y, take_index) at e in
        let same : (i, d) ∷ rest ≡ (index, c) ∷ others = cc (at, (==_iff i index).0 y) in
        subst (λ l. Perm ((i, d) ∷ rest) l) same (Perm.refl ((i, d) ∷ rest))
    | inr n ↦ elim (Option-cases (take_index index rest)) [
      | inl z ↦ absurd (none_not_some (rw (n, z, take_index) at e))
      | inr ((b, more), z) ↦
          let at : some (b, (i, d) ∷ more) ≡ some (c, others) = rw (n, z, take_index) at e in
          let same : (index, b) ∷ (i, d) ∷ more ≡ (index, c) ∷ others = cc in
          subst (λ l. Perm ((i, d) ∷ rest) l) same
            (Perm.trans (Perm.cons (i, d) (take_index_perm index rest more b z))
              (Perm.swap (index, b) (i, d) more))
    ]
  ]

  Numbered-append :
      (i : ℕ) (xs ys : List (ℕ × C))
      → Numbered i xs
      → Numbered (i + length xs) ys
      → Numbered i (xs ++ ys)
  Numbered-append i [] ys a b = subst (λ k. Numbered k ys) (omega arith) b
  Numbered-append i (x ∷ xs) ys a b =
      (a.0, Numbered-append (i + 1) xs ys a.1 (subst (λ k. Numbered k ys) (omega arith) b))

joined :
    {A : Type 0} (pending : List A) (item : A) (items out out' middle rest : List A)
    → Perm (pending ++ (item ∷ [])) (out ++ middle)
    → Perm (middle ++ items) (out' ++ rest)
    → Perm (pending ++ (item ∷ items)) ((out ++ out') ++ rest)
joined pending item items out out' middle rest p q =
    subst (λ l. Perm l ((out ++ out') ++ rest)) (append_assoc pending (item ∷ []) items)
      (subst (λ r. Perm ((pending ++ (item ∷ [])) ++ items) r) (sym (append_assoc out out' rest))
        (Perm.trans (Perm.append_right items p) (
          subst (λ l. Perm l (out ++ (out' ++ rest))) (sym (append_assoc out middle items))
            (Perm.append_left out q))))

module _ {C S : Type 0} (sink : S → ℕ × C → Result S) where
  feed-append :
      (s t : S) (xs ys : List (ℕ × C))
      → feed sink s xs ≡ ok t
      → feed sink s (xs ++ ys) ≡ feed sink t ys
  feed-append s t [] ys e = ap (λ u. feed sink u ys) (ok_injective e)
  feed-append s t (x ∷ xs) ys e =
      let (u, p, q) = bind-eq-ok (sink s x) _ e in
      ap (λ r. r >>= λ w. feed sink w (xs ++ ys)) p ∙ feed-append u t xs ys q

  -- What is handed on between two states, with the chunks that come in meanwhile.
  Handed : List (ℕ × C) → Ordered C S → Ordered C S → Type 0
  Handed items s t =
      (out : List (ℕ × C)) × Numbered s.next_expected_index out
      × (t.next_expected_index ≡ s.next_expected_index + length out)
      × Perm (s.pending ++ items) (out ++ t.pending)
      × (feed sink s.behind out ≡ ok t.behind)

  flush_lem : (fuel : ℕ) (s t : Ordered C S) → flush sink fuel s ≡ ok t → Handed [] s t
  unfolding flush Handed
  flush_lem zero s t e = cc
  flush_lem (suc fuel) s t e = elim (Option-cases (take_index s.next_expected_index s.pending)) [
    | inl n ↦
        let same : s ≡ t = ok_injective (rw (n, flush) at e) in
        subst (Handed [] s) same (
          [],
          tt,
          omega arith,
          subst (λ l. Perm l s.pending) (sym (append-nil s.pending)) (Perm.refl s.pending),
          refl,
        )
    | inr ((c, others), found) ↦ elim (Result-cases (sink s.behind (s.next_expected_index, c))) [
      | inr (x, q) ↦ absurd (err_not_ok (rw (found, q, flush) at e))
      | inl (u, q) ↦
          let next : Ordered C S = record {
            pending = others;
            next_expected_index = s.next_expected_index + 1;
            behind = u;
          } in
          let (out, num, count, perm, fed) = flush_lem fuel next t (rw (found, q, flush) at e) in
          let item : ℕ × C = (s.next_expected_index, c) in
          (
            item ∷ out,
            (refl, num),
            omega (arith, count),
            subst (λ l. Perm l (item ∷ out ++ t.pending)) (sym (append-nil s.pending))
                (Perm.trans (take_index_perm s.next_expected_index s.pending others c found) (
                  Perm.cons item
                    (subst (λ l. Perm l (out ++ t.pending)) (append-nil others) perm))),
            ap (λ r. r >>= λ w. feed sink w out) q ∙ fed,
          )
    ]
  ]

  receive_lem :
      (s t : Ordered C S) (item : ℕ × C) → receive sink s item ≡ ok t → Handed (item ∷ []) s t
  unfolding receive Handed
  receive_lem s t item e = elim (Bool-cases (ltb item.0 s.next_expected_index)) [
    | inl stale ↦ absurd (err_not_ok (rw (stale, receive) at e))
    | inr fresh ↦ elim (Option-cases (take_index item.0 s.pending)) [
      | inr (x, found) ↦ absurd (err_not_ok (rw (fresh, found, receive) at e))
      | inl missing ↦
          let (out, num, count, perm, fed) =
            flush_lem (suc (suc (length s.pending))) (record s { pending = item ∷ s.pending }) t
              (rw (fresh, missing, receive) at e) in
          (out, num, count, Perm.trans (perm_middle s.pending []) perm, fed)
    ]
  ]

  -- What a run without an exception leaves, and what `close` makes of the state behind the sink.
  Closed : (S → Result S) → Bool → List (ℕ × C) → Ordered C S → Ordered C S → Type 0
  Closed close failed items s t =
      (u : Ordered C S) × Handed items s u
      × (close u.behind ≡ ok t.behind)
      × (u.pending ≡ t.pending)
      × (failed ≡ false → u.pending ≡ [])

  receive_all_lem :
      (close : S → Result S) (failed : Bool) (s t : Ordered C S) (items : List (ℕ × C))
      → receive_all sink close failed s items ≡ ok t
      → Closed close failed items s t
  unfolding receive_all Handed Closed
  receive_all_lem close failed s t [] e =
      elim (Bool-cases (not (length s.pending == 0) && not failed)) [
        | inl y ↦ absurd (err_not_ok (rw (y, receive_all) at e))
        | inr n ↦
            let (b, closed, same) = bind-eq-ok (close s.behind) _ (rw (n, receive_all) at e) in
            let left : record s { behind = b } ≡ t = ok_injective same in
            (
              s,
              (
                [],
                tt,
                omega arith,
                subst (λ l. Perm l s.pending) (sym (append-nil s.pending)) (Perm.refl s.pending),
                refl,
              ),
              closed ∙ ap (λ r. ok r.behind) left,
              ap (λ r. r.pending) left,
              λ h. length_zero s.pending (none_left (length s.pending) failed n h),
            )
      ]
    where
      none_left :
          (n : ℕ) (failed : Bool) → not (n == 0) && not failed ≡ false → failed ≡ false → n ≡ 0
      none_left n failed e h = ground arith
  receive_all_lem close failed s t (item ∷ items) e =
      let (u, q, e) = bind-eq-ok (receive sink s item) _ e in
      let (out, num, count, perm, fed) = receive_lem s u item q in
      let (v, (out', num', count', perm', fed'), closed, same, nil) =
        receive_all_lem close failed u t items e in
      (
        v,
        (
          out ++ out',
          Numbered-append s.next_expected_index out out' num
              (subst (λ k. Numbered k out') count num'),
          omega (arith, count, count', length-append out out'),
          joined s.pending item items out out' u.pending v.pending perm perm',
          feed-append s.behind u.behind out out' fed ∙ fed',
        ),
        closed,
        same,
        nil,
      )

-- When the thread ends without an exception, the chunks that arrived, whatever the order of arrival, are
-- those that were handed to the sink, exactly once each, in the order of the indices from 0 on and without
-- a gap, and those that are still pending; the state behind the sink is what `close` makes of the one that
-- this gives. Unless another thread has failed, none is pending, so that every chunk was handed on.
pub order_restored :
    {C S : Type 0} (sink : S → ℕ × C → Result S) (close : S → Result S) (failed : Bool) (start : S)
    (arrivals : List (ℕ × C)) (t : Ordered C S)
    → receive_all sink close failed
        (record { pending = []; next_expected_index = 0; behind = start })
        arrivals
      ≡ ok t
    → (out : List (ℕ × C)) × Perm arrivals (out ++ t.pending)
      × Numbered 0 out
      × ((feed sink start out >>= close) ≡ ok t.behind)
      × (failed ≡ false → t.pending ≡ [])
unfolding Handed Closed
order_restored sink close failed start arrivals t e =
    let (u, (out, num, _, perm, fed), closed, same, nil) =
      receive_all_lem sink close failed _ t arrivals e in
    (
      out,
      subst (λ p. Perm arrivals (out ++ p)) same perm,
      num,
      ap (λ r. r >>= close) fed ∙ closed,
      λ h. sym same ∙ nil h,
    )
