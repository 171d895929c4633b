-- ===== src/Pipeline/Order/Complete.antt =====
-- pipeline/EncryptPipeline.cpp and DecryptPipeline.cpp: the ordered threads, run to the end of their input.
use bseal_cpp.Base.{
  ℕ, zero, suc, ◌+◌, ◌≤◌, ◌<◌, ◌≡◌, refl, sym, ◌∙◌, subst, true, false, not, ◌&&◌, ltb, ◌==◌,
  ==_iff, length, length-append, length_zero, List, [], ◌∷◌, ◌++◌, append-nil, Option, none, some,
  Option-cases, Result, err, error, Result-cases, ◌>>=◌, ok, ap, Bool, arith, if◌then◌else◌,
  Bool-cases, inl, inr, ltb→lt, le→ltb_false, ltb_false→le,
}
use bseal_cpp.Pipeline.Order.{take_index, Ordered, flush, receive, receive_all}
use bseal_cpp.Pipeline.Order.Laws.{feed}

none_not_some : {A : Type 0} {a : A} → none ≡ some a → ⊥
none_not_some e = cc

-- How often an index occurs.
abbrev pub count : {C : Type 0} → ℕ → List (ℕ × C) → ℕ
count i [] = 0
count i ((j, c) ∷ items) = (if j == i then 1 else 0) + count i items

-- The chunks that are still to be handed on: no index twice, none below the next one, and every index
-- from the next one on, as many as there are chunks.
pub record Awaited {C : Type 0} (next : ℕ) (items : List (ℕ × C)) : Type 0 where
  pub once : (i : ℕ) → count i items ≤ 1
  pub none_before : (i : ℕ) → i < next → count i items ≡ 0
  pub all_after : (i : ℕ) → next ≤ i → i < next + length items → count i items ≡ 1

module _ {C : Type 0} where
  count-append : (i : ℕ) (xs ys : List (ℕ × C)) → count i (xs ++ ys) ≡ count i xs + count i ys
  count-append i [] ys = omega arith
  count-append i ((j, c) ∷ xs) ys = omega (arith, count-append i xs ys)

  count-take_index-none :
      (i : ℕ) (items : List (ℕ × C)) → take_index i items ≡ none → count i items ≡ 0
  unfolding take_index
  count-take_index-none i [] e = refl
  count-take_index-none i ((j, c) ∷ items) e = ground (arith, count-take_index-none i items)

  take_index-none-count :
      (i : ℕ) (items : List (ℕ × C)) → count i items ≡ 0 → take_index i items ≡ none
  unfolding take_index
  take_index-none-count i [] e = refl
  take_index-none-count i ((j, c) ∷ items) e = ground (arith, take_index-none-count i items)

  count-take_index-some :
      (i k : ℕ) (items others : List (ℕ × C)) (c : C)
      → take_index i items ≡ some (c, others)
      → (count k items ≡ (if i == k then 1 else 0) + count k others)
        × (length items ≡ suc (length others))
  unfolding take_index
  count-take_index-some i k [] others c e = cc
  count-take_index-some i k ((j, d) ∷ items) others c e = elim (Bool-cases (j == i)) [
    | inl y ↦
        let at : some (d, items) ≡ some (c, others) = rw (y, take_index) at e in
        let same : items ≡ others = cc in
        let here : j ≡ i = (==_iff j i).0 y in
        subst
          (λ l.
            (count k ((j, d) ∷ items) ≡ (if i == k then 1 else 0) + count k l)
            × (suc (length items) ≡ suc (length l)))
          same
          (
            subst (λ m. count k ((j, d) ∷ items) ≡ (if m == k then 1 else 0) + count k items) here
                refl,
            refl,
          )
    | inr n ↦ elim (Option-cases (take_index i items)) [
      | inl z ↦ absurd (none_not_some (rw (n, z, take_index) at e))
      | inr ((b, more), z) ↦
          let at : some (b, (j, d) ∷ more) ≡ some (c, others) = rw (n, z, take_index) at e in
          let same : (j, d) ∷ more ≡ others = cc in
          let (counts, size) = count-take_index-some i k items more b z in
          subst
            (λ l.
              (count k ((j, d) ∷ items) ≡ (if i == k then 1 else 0) + count k l)
              × (suc (length items) ≡ suc (length l)))
            same (omega (arith, counts), omega (arith, size))
    ]
  ]

-- One chunk is handed on.
awaited_whole :
    {C : Type 0} (next i : ℕ) (items others rest : List (ℕ × C)) (c : C)
    → take_index next items ≡ some (c, others)
    → (count i (items ++ rest) ≡ (if next == i then 1 else 0) + count i (others ++ rest))
      × (length (items ++ rest) ≡ suc (length (others ++ rest)))
awaited_whole next i items others rest c e =
    let (counts, size) = count-take_index-some next i items others c e in
    (
      omega (arith, counts, count-append i items rest, count-append i others rest),
      omega (arith, size, length-append items rest, length-append others rest),
    )

Awaited-next :
    {C : Type 0} (next : ℕ) (items others rest : List (ℕ × C)) (c : C)
    → take_index next items ≡ some (c, others)
    → Awaited next (items ++ rest)
    → Awaited (next + 1) (others ++ rest)
Awaited-next next items others rest c e a = record {
  once = λ i.
      let (counts, _) = awaited_whole next i items others rest c e in
      let once = a.once i in omega (arith, counts, once);
  none_before = λ i h.
      let (counts, size) = awaited_whole next i items others rest c e in
      below next i (length (others ++ rest)) (count i (items ++ rest)) (count i (others ++ rest))
        counts h (a.none_before i) (a.once i);
  all_after = λ i l h.
      let (counts, size) = awaited_whole next i items others rest c e in
      let range : i < next + length (items ++ rest) = omega (arith, size, h) in
      after next i (count i (items ++ rest)) (count i (others ++ rest)) counts l
        (a.all_after i (omega (arith, l)) range);
}
  where
    below :
        (next i n whole part : ℕ)
        → whole ≡ (if next == i then 1 else 0) + part
        → i < next + 1
        → (i < next → whole ≡ 0)
        → whole ≤ 1
        → part ≡ 0
    below next i n whole part e h z o = elim (Bool-cases (next == i)) [
      | inl y ↦ omega (arith, o, rw y at e)
      | inr d ↦ omega (arith, rw d at e, z (ground arith))
    ]

    after :
        (next i whole part : ℕ)
        → whole ≡ (if next == i then 1 else 0) + part
        → next + 1 ≤ i
        → whole ≡ 1
        → part ≡ 1
    after next i whole part e h w = ground arith

nothing_left :
    {C : Type 0} (pending : List (ℕ × C)) (next : ℕ)
    → Awaited next (pending ++ [])
    → count next pending ≡ 0
    → length pending ≡ 0
nothing_left [] next a z = refl
nothing_left (item ∷ pending) next a z =
    let b : Awaited next (item ∷ pending) = subst (Awaited next) (append-nil (item ∷ pending)) a in
    let here = b.all_after next (omega arith) (omega arith) in absurd (omega (arith, here, z))

-- A chunk that arrives is not stale, and its index is not pending.
arrived :
    {C : Type 0} {next : ℕ} (pending items : List (ℕ × C)) (i : ℕ) (c : C)
    → Awaited next (pending ++ ((i, c) ∷ items))
    → (next ≤ i) × (count i pending ≡ 0)
arrived {next = next} pending items i c a =
    let self : (i == i) ≡ true = (==_iff i i).1 refl in
    let whole = count-append i pending ((i, c) ∷ items) in
    let counts : count i (pending ++ ((i, c) ∷ items)) ≡ count i pending + (1 + count i items) =
      whole ∙ rw self refl in
    let once = a.once i in
    (
      elim (Bool-cases (ltb i next)) [
        | inl low ↦ absurd (omega (arith, counts, a.none_before i (ltb→lt i next low)))
        | inr high ↦ ltb_false→le i next high
      ],
      omega (arith, counts, once),
    )

Awaited-moved :
    {C : Type 0} (next : ℕ) (pending items : List (ℕ × C)) (item : ℕ × C)
    → Awaited next (pending ++ (item ∷ items))
    → Awaited next ((item ∷ pending) ++ items)
Awaited-moved next pending items (j, c) a =
    let counts : (i : ℕ)
        → count i (((j, c) ∷ pending) ++ items) ≡ count i (pending ++ ((j, c) ∷ items)) =
      λ i. omega (arith, count-append i pending items, count-append i pending ((j, c) ∷ items)) in
    let size : length (((j, c) ∷ pending) ++ items) ≡ length (pending ++ ((j, c) ∷ items)) =
      omega (arith, length-append pending items, length-append pending ((j, c) ∷ items)) in
    record {
      once = λ i. subst (λ n. n ≤ 1) (sym (counts i)) (a.once i);
      none_before = λ i h. counts i ∙ a.none_before i h;
      all_after = λ i l h. counts i ∙ a.all_after i l (subst (λ n. i < next + n) size h);
    }

-- The chunk with an index, and the chunks with the indices from one on, in their order.
abbrev pub find : {C : Type 0} → ℕ → List (ℕ × C) → Option C
find i [] = none
find i ((j, c) ∷ items) = if j == i then some c else find i items

abbrev pub in_order : {C : Type 0} → ℕ → ℕ → List (ℕ × C) → List (ℕ × C)
in_order zero next items = []
in_order (suc n) next items = elim (find next items) [
  | none ↦ []
  | some c ↦ (next, c) ∷ in_order n (next + 1) items
]

abbrev or_else : {C : Type 0} → Option C → Option C → Option C
or_else none other = other
or_else (some c) other = some c

module _ {C : Type 0} where
  find-append : (i : ℕ) (xs ys : List (ℕ × C)) → find i (xs ++ ys) ≡ or_else (find i xs) (find i ys)
  find-append i [] ys = refl
  find-append i ((j, c) ∷ xs) ys = elim (Bool-cases (j == i)) [
    | inl y ↦ rw y refl
    | inr n ↦ rw n (find-append i xs ys)
  ]

  find-none : (i : ℕ) (items : List (ℕ × C)) → count i items ≡ 0 → find i items ≡ none
  find-none i [] e = refl
  find-none i ((j, c) ∷ items) e = ground (arith, find-none i items)

  find-take_index :
      (i : ℕ) (items others : List (ℕ × C)) (c : C)
      → take_index i items ≡ some (c, others)
      → (find i items ≡ some c) × ((k : ℕ) → (i == k) ≡ false → find k items ≡ find k others)
  unfolding take_index
  find-take_index i [] others c e = cc
  find-take_index i ((j, d) ∷ items) others c e = elim (Bool-cases (j == i)) [
    | inl y ↦
        let at : some (d, items) ≡ some (c, others) = rw (y, take_index) at e in
        let same : items ≡ others = cc in
        let here : j ≡ i = (==_iff j i).0 y in
        let value : d ≡ c = cc in
        (
          rw y (ap some value),
          λ k ne.
              let skip : (j == k) ≡ false = subst (λ m. (m == k) ≡ false) (sym here) ne in
              rw skip (ap (find k) same),
        )
    | inr n ↦ elim (Option-cases (take_index i items)) [
      | inl z ↦ absurd (none_not_some (rw (n, z, take_index) at e))
      | inr ((b, more), z) ↦
          let at : some (b, (j, d) ∷ more) ≡ some (c, others) = rw (n, z, take_index) at e in
          let same : (j, d) ∷ more ≡ others = cc in
          let value : b ≡ c = cc in
          let (found, rest) = find-take_index i items more b z in
          (
            rw n (found ∙ ap some value),
            λ k ne.
                subst (λ l. find k ((j, d) ∷ items) ≡ find k l) same
                  (ap (λ r. if j == k then some d else r) (rest k ne)),
          )
    ]
  ]

  find-moved :
      (i : ℕ) (pending items : List (ℕ × C)) (item : ℕ × C)
      → count item.0 pending ≡ 0
      → find i (item ∷ pending ++ items) ≡ find i (pending ++ (item ∷ items))
  find-moved i pending items (j, c) z = elim (Bool-cases (j == i)) [
    | inl y ↦
        let missing : find i pending ≡ none =
          subst (λ k. find k pending ≡ none) ((==_iff j i).0 y) (find-none j pending z) in
        rw y (sym (find-append i pending ((j, c) ∷ items) ∙ rw (missing, y) refl))
    | inr n ↦
        rw n
          (find-append i pending items ∙ sym (find-append i pending ((j, c) ∷ items) ∙ rw n refl))
  ]

-- What is still to come is what arrives in all, from the next index on.
record Due {C : Type 0} (all : List (ℕ × C)) (next : ℕ) (items : List (ℕ × C)) : Type 0 where
  awaited : Awaited next items
  same : (i : ℕ) → next ≤ i → find i items ≡ find i all

module _ {C S : Type 0} (sink : S → ℕ × C → Result S) (all : List (ℕ × C)) where
  -- The rest of the chunks, handed on in their order.
  abbrev Rest : Ordered C S → List (ℕ × C) → Result S
  Rest s items =
      feed sink s.behind (in_order (length (s.pending ++ items)) s.next_expected_index all)

  flush_then :
      {X : Type 0} (fuel : ℕ) (s : Ordered C S) (rest : List (ℕ × C)) (k : Ordered C S → Result X)
      (h : S → Result X)
      → length s.pending < fuel
      → Due all s.next_expected_index (s.pending ++ rest)
      → ((t : Ordered C S)
          → Due all t.next_expected_index (t.pending ++ rest)
          → count t.next_expected_index t.pending ≡ 0
          → t.next_expected_index + length (t.pending ++ rest)
            ≡ s.next_expected_index + length (s.pending ++ rest)
          → k t ≡ (Rest t rest >>= h))
      → (flush sink fuel s >>= k) ≡ (Rest s rest >>= h)
  unfolding flush
  flush_then zero s rest k h small due after = absurd (omega (arith, small))
  flush_then (suc fuel) s rest k h small due after =
      elim (Option-cases (take_index s.next_expected_index s.pending)) [
        | inl n ↦
            rw (n, flush)
              (after s due (count-take_index-none s.next_expected_index s.pending n) refl)
        | inr ((c, others), found) ↦
            let i = s.next_expected_index in
            let item : ℕ × C = (i, c) in
            let (here, kept) = find-take_index i s.pending others c found in
            let (_, size) = awaited_whole i 0 s.pending others rest c found in
            let first : find i all ≡ some c =
              sym (due.same i (omega arith))
              ∙ find-append i s.pending rest
              ∙ ap (λ o. or_else o (find i rest)) here in
            let expand : Rest s rest ≡ (
                sink s.behind item >>= λ u.
                feed sink u (in_order (length (others ++ rest)) (i + 1) all)) =
              ap (λ n. feed sink s.behind (in_order n i all)) size
              ∙ ap
                  (λ o. feed sink s.behind (elim o [
                    | none ↦ []
                    | some d ↦ (i, d) ∷ in_order (length (others ++ rest)) (i + 1) all
                  ]))
                  first in
            let due' : Due all (i + 1) (others ++ rest) = record {
              awaited = Awaited-next i s.pending others rest c found due.awaited;
              same = λ j le.
                  find-append j others rest
                  ∙ ap (λ o. or_else o (find j rest)) (sym (kept j (other i j le)))
                  ∙ sym (find-append j s.pending rest)
                  ∙ due.same j (omega (arith, le));
            } in
            elim (Result-cases (sink s.behind item)) [
              | inr (thrown, q) ↦
                  let stops : Rest s rest ≡ err thrown =
                    expand
                    ∙ ap
                        (λ r.
                          r >>= λ u. feed sink u (in_order (length (others ++ rest)) (i + 1) all))
                        q in
                  rw (found, q, flush) (ap (λ r. r >>= h) (sym stops))
              | inl (u, q) ↦
                  let next : Ordered C S = record {
                    pending = others;
                    next_expected_index = i + 1;
                    behind = u;
                  } in
                  let goes : Rest s rest ≡ Rest next rest =
                    expand
                    ∙ ap
                        (λ r.
                          r >>= λ u. feed sink u (in_order (length (others ++ rest)) (i + 1) all))
                        q in
                  rw (found, q, flush)
                    (flush_then fuel next rest k h
                        (omega (
                          arith,
                          size,
                          length-append s.pending rest,
                          length-append others rest,
                          small,
                        ))
                        due' (λ t d z e. after t d z (omega (arith, e, size)))
                      ∙ ap (λ r. r >>= h) (sym goes))
            ]
      ]
    where
      other : (i j : ℕ) → i + 1 ≤ j → (i == j) ≡ false
      other i j le = ground arith

  -- The state at the end.
  abbrev Ends : (S → Result S) → ℕ → S → Result (Ordered C S)
  Ends close total b =
      close b >>= λ t. ok (record { pending = []; next_expected_index = total; behind = t })

  receive_all_is :
      (close : S → Result S) (failed : Bool) (s : Ordered C S) (items : List (ℕ × C)) (total : ℕ)
      → total ≡ s.next_expected_index + length (s.pending ++ items)
      → Due all s.next_expected_index (s.pending ++ items)
      → count s.next_expected_index s.pending ≡ 0
      → receive_all sink close failed s items ≡ (Rest s items >>= Ends close total)
  unfolding receive_all receive
  receive_all_is close failed s [] total e due z =
      let size : length s.pending ≡ 0 =
        nothing_left s.pending s.next_expected_index due.awaited z in
      let whole : length (s.pending ++ []) ≡ 0 = ap length (append-nil s.pending) ∙ size in
      let ended : s.next_expected_index ≡ total = omega (arith, e, whole) in
      let test : not (length s.pending == 0) && not failed ≡ false =
        rw ((==_iff (length s.pending) 0).1 size) refl in
      ap
        (λ b.
          if b
          then err (error "ended with missing chunks")
          else close s.behind >>= λ t. ok (record s { behind = t }))
        test
      ∙ ap
          (λ p. close s.behind >>= λ t.
            ok (record { pending = p; next_expected_index = s.next_expected_index; behind = t }))
          (length_zero s.pending size)
      ∙ ap (λ (n : ℕ). Ends close n s.behind) ended
      ∙ ap (λ n. feed sink s.behind (in_order n s.next_expected_index all) >>= Ends close total)
          (sym whole)
  receive_all_is close failed s ((i, c) ∷ items) total e due z =
      let fresh : ltb i s.next_expected_index ≡ false =
        le→ltb_false i s.next_expected_index (arrived s.pending items i c due.awaited).0 in
      let none_there = (arrived s.pending items i c due.awaited).1 in
      let missing : take_index i s.pending ≡ none = take_index-none-count i s.pending none_there in
      let size : length (((i, c) ∷ s.pending) ++ items) ≡ length (s.pending ++ ((i, c) ∷ items)) =
        omega (arith, length-append s.pending items, length-append s.pending ((i, c) ∷ items)) in
      rw (fresh, missing, receive_all, receive)
        (flush_then (suc (suc (length s.pending))) (record s { pending = (i, c) ∷ s.pending }) items
            (λ t. receive_all sink close failed t items) (Ends close total) (omega arith)
            (record {
              awaited = Awaited-moved s.next_expected_index s.pending items (i, c) due.awaited;
              same = λ j le. find-moved j s.pending items (i, c) none_there ∙ due.same j le;
            })
            (λ t d gone n.
              receive_all_is close failed t items total (omega (arith, e, n, size)) d gone)
          ∙ ap (λ n. feed sink s.behind (in_order n s.next_expected_index all) >>= Ends close total)
              size)

-- When the chunks that arrive hold every index below their number once, in any order, the thread does what
-- the sink does that is given the chunks in the order of their indices, and `close` after it: it ends
-- with their state, no chunk is pending, or it ends with the exception that they throw.
pub order_completes :
    {C S : Type 0} (sink : S → ℕ × C → Result S) (close : S → Result S) (failed : Bool) (start : S)
    (arrivals : List (ℕ × C))
    → ((i : ℕ) → count i arrivals ≤ 1)
    → ((i : ℕ) → i < length arrivals → count i arrivals ≡ 1)
    → receive_all sink close failed
        (record { pending = []; next_expected_index = 0; behind = start })
        arrivals
      ≡ (feed sink start (in_order (length arrivals) 0 arrivals) >>= λ b. close b >>= λ t.
          ok (record { pending = []; next_expected_index = length arrivals; behind = t }))
order_completes sink close failed start arrivals once each =
    receive_all_is sink arrivals close failed
      (record { pending = []; next_expected_index = 0; behind = start }) arrivals (length arrivals)
      (omega arith)
      (record {
        awaited = record {
          once = once;
          none_before = λ i h. absurd (omega (arith, h));
          all_after = λ i l h. each i (omega (arith, h));
        };
        same = λ i l. refl;
      })
      refl
