-- ===== src/Pipeline/Queue.antt =====
-- pipeline/WorkQueue.hpp: the bounded queue between threads. Every operation runs under one mutex, so
-- that the threads interleave whole operations; one that would wait has no result yet.
pub mod Laws
use bseal_cpp.Base.{
  ℕ, Bool, true, false, not, ◌&&◌, ◌||◌, ltb, ◌==◌, length, List, [], ◌∷◌, ◌++◌, ◌≡◌, Option, none,
  some, if◌then◌else◌,
}

pub record WorkQueue (A : Type 0) : Type 0 where
  pub capacity : ℕ
  pub closed : Bool
  pub items : List A

unfoldable pub new_queue : {A : Type 0} → ℕ → WorkQueue A
new_queue capacity = record {
  capacity = if capacity == 0 then 1 else capacity;
  closed = false;
  items = [];
}

-- The answer is whether the value was taken.
unfoldable pub push : {A : Type 0} → WorkQueue A → A → Option (Bool × WorkQueue A)
push q value =
    if not (q.closed || ltb (length q.items) q.capacity)
    then none
    else if q.closed
    then some (false, q)
    else some (true, record q { items = q.items ++ (value ∷ []) })

unfoldable pub pop : {A : Type 0} → WorkQueue A → Option (Option A × WorkQueue A)
pop q = elim q.items [
  | [] ↦ if q.closed then some (none, q) else none
  | value ∷ rest ↦ some (some value, record q { items = rest })
]

unfoldable pub close : {A : Type 0} → WorkQueue A → WorkQueue A
close q = record q { closed = true }

-- The operations of all threads in the order in which they hold the mutex, with the values that
-- were taken in and those that were handed out.
pub data Runs {A : Type 0} : WorkQueue A → List A → List A → WorkQueue A → Type 0 where
  starts : {q : WorkQueue A} → Runs q [] [] q
  pushes :
      {q r s : WorkQueue A} {taken given : List A} (value : A)
      → Runs q taken given r
      → push r value ≡ some (true, s)
      → Runs q (taken ++ (value ∷ [])) given s
  refuses :
      {q r s : WorkQueue A} {taken given : List A} (value : A)
      → Runs q taken given r
      → push r value ≡ some (false, s)
      → Runs q taken given s
  pops :
      {q r s : WorkQueue A} {taken given : List A} (value : A)
      → Runs q taken given r
      → pop r ≡ some (some value, s)
      → Runs q taken (given ++ (value ∷ [])) s
  drained :
      {q r s : WorkQueue A} {taken given : List A}
      → Runs q taken given r
      → pop r ≡ some (none, s)
      → Runs q taken given s
  closes :
      {q r : WorkQueue A} {taken given : List A}
      → Runs q taken given r
      → Runs q taken given (close r)
