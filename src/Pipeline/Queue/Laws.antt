-- ===== src/Pipeline/Queue/Laws.antt =====
-- What a queue guarantees however the threads interleave.
use bseal_cpp.Base.{
  ℕ, ◌≤◌, ◌<◌, ◌≡◌, refl, sym, ap, ◌∙◌, subst, true, false, ◌==◌, length, length-append, List, [],
  ◌∷◌, ◌++◌, append_assoc, append-nil, none, some, arith, if◌then◌else◌,
}
use bseal_cpp.Pipeline.Queue.{WorkQueue, new_queue, push, pop, close, Runs}

module _ {A : Type 0} where
  push-true :
      (q s : WorkQueue A) (value : A)
      → push q value ≡ some (true, s)
      → (q.closed ≡ false)
        × (length q.items < q.capacity)
        × (s ≡ record q { items = q.items ++ (value ∷ []) })
  unfolding push
  push-true q s value e = ground arith

  push-false :
      (q s : WorkQueue A) (value : A) → push q value ≡ some (false, s) → (q.closed ≡ true) × (s ≡ q)
  unfolding push
  push-false q s value e = ground arith

  pop-some :
      (q s : WorkQueue A) (value : A)
      → pop q ≡ some (some value, s)
      → (q.items ≡ value ∷ s.items) × (s.capacity ≡ q.capacity) × (s.closed ≡ q.closed)
  unfolding pop
  pop-some q s value e = ground arith

  pop-none :
      (q s : WorkQueue A) → pop q ≡ some (none, s) → (q.closed ≡ true) × (q.items ≡ []) × (s ≡ q)
  unfolding pop
  pop-none q s e = ground arith

  -- What holds after any operations on a new queue.
  pub record Sound (capacity : ℕ) (taken given : List A) (q : WorkQueue A) : Type 0 where
    pub in_order : taken ≡ given ++ q.items
    pub capacity_same : q.capacity ≡ capacity
    pub bounded : length q.items ≤ capacity

  last_one :
      (given items : List A) (value : A) {taken : List A}
      → taken ≡ given ++ items
      → taken ++ (value ∷ []) ≡ given ++ (items ++ (value ∷ []))
  last_one given items value e =
      ap {A = List A} {B = List A} (λ t. t ++ (value ∷ [])) e
      ∙ append_assoc given items (value ∷ [])

  Runs-Sound :
      (capacity : ℕ) {q r : WorkQueue A} {taken given : List A}
      → Sound capacity [] [] q
      → Runs q taken given r
      → Sound capacity taken given r
  unfolding close
  Runs-Sound capacity h Runs.starts = h
  Runs-Sound capacity h (Runs.pushes {r = r} {s = s} {given = given} value run e) =
      let i = Runs-Sound capacity h run in
      let (_, room, same) = push-true r s value e in
      subst (Sound capacity _ given) (sym same) (record {
        in_order = last_one given r.items value i.in_order;
        capacity_same = i.capacity_same;
        bounded = omega (arith, length-append r.items (value ∷ []), room, i.capacity_same);
      })
  Runs-Sound capacity h (Runs.refuses {r = r} {s = s} value run e) =
      subst (Sound capacity _ _) (sym (push-false r s value e).1) (Runs-Sound capacity h run)
  Runs-Sound capacity h (Runs.pops {r = r} {s = s} {given = given} value run e) =
      let i = Runs-Sound capacity h run in
      let (front, cap, _) = pop-some r s value e in
      record {
        in_order =
            i.in_order ∙ ap (λ t. given ++ t) front ∙ sym (append_assoc given (value ∷ []) s.items);
        capacity_same = cap ∙ i.capacity_same;
        bounded = omega (arith, ap length front, i.bounded);
      }
  Runs-Sound capacity h (Runs.drained {r = r} {s = s} run e) =
      subst (Sound capacity _ _) (sym (pop-none r s e).2) (Runs-Sound capacity h run)
  Runs-Sound capacity h (Runs.closes run) =
      let i = Runs-Sound capacity h run in
      record { in_order = i.in_order; capacity_same = i.capacity_same; bounded = i.bounded }

-- However the threads interleave: the values that a queue took in are, in this order, those that it
-- handed out and those that it still holds, and it never holds more than its capacity, or than 1
-- where the capacity is given as 0.
pub queue_sound :
    {A : Type 0} (capacity : ℕ) (q : WorkQueue A) (taken given : List A)
    → Runs (new_queue capacity) taken given q
    → (taken ≡ given ++ q.items) × (length q.items ≤ (if capacity == 0 then 1 else capacity))
unfolding new_queue
queue_sound capacity q taken given run =
    let i =
      Runs-Sound (if capacity == 0 then 1 else capacity)
        (record { in_order = refl; capacity_same = refl; bounded = omega arith }) run in
    (i.in_order, i.bounded)

-- When a queue answers that there is nothing more, it was closed, and every value that it took in
-- was handed out, in this order.
pub queue_drained :
    {A : Type 0} (capacity : ℕ) (q s : WorkQueue A) (taken given : List A)
    → Runs (new_queue capacity) taken given q
    → pop q ≡ some (none, s)
    → (taken ≡ given) × (q.closed ≡ true)
queue_drained capacity q s taken given run e =
    let (closed, empty, _) = pop-none q s e in
    let (order, _) = queue_sound capacity q taken given run in
    (order ∙ ap (λ t. given ++ t) empty ∙ append-nil given, closed)
