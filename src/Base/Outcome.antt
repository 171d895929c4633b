-- ===== src/Base/Outcome.antt =====
-- What a C++ function yields: its value, or the exception that it throws.
use Prim.Native.String.{String}
use mathlib.Core.Path.{◌≡◌, refl, ap}
use mathlib.Core.Logic.{◌⊎◌, inl, inr}
use mathlib.Core.Bool.{Bool, true, false}

-- The exception classes of common/Errors.hpp that the modelled code throws, each with the
-- constant part of its message. `out_of_fuel` is no exception: a loop of the model stopped early.
pub data Error : Type 0 where
  invalid_argument : String → Error
  authentication_failed : Error
  error : String → Error
  out_of_fuel : Error

pub data Result {ℓ} (Value : Type ℓ) : Type ℓ where
  err : Error → Result Value
  ok : Value → Result Value

-- What follows a call runs on its value; an exception passes it by.
infixl 5 ◌>>=◌ ◌>>◌
abbrev pub ◌>>=◌ {ℓ κ} :
    {Value : Type ℓ} {Next : Type κ} → Result Value → (Value → Result Next) → Result Next
err thrown >>= next = err thrown
ok value >>= next = next value

abbrev pub ◌>>◌ {ℓ} : {Next : Type ℓ} → Result (Unit {0}) → Result Next → Result Next
err thrown >> next = err thrown
ok _ >> next = next

-- `if (test) throw InvalidArgument(message);`
abbrev pub reject_if : Bool → String → Result (Unit {0})
reject_if true message = err (invalid_argument message)
reject_if false message = ok tt

pub Result-cases {ℓ} :
    {Value : Type ℓ} (outcome : Result Value)
    → ((value : Value) × (outcome ≡ ok value)) ⊎ ((thrown : Error) × (outcome ≡ err thrown))
Result-cases (err thrown) = inr (thrown, refl)
Result-cases (ok value) = inl (value, refl)

-- Inversion of a successful chain.
pub bind-eq-ok {ℓ κ} :
    {Value : Type ℓ} {Next : Type κ} (call : Result Value) (next : Value → Result Next)
    {last : Next}
    → (call >>= next) ≡ ok last
    → (value : Value) × (call ≡ ok value) × (next value ≡ ok last)
bind-eq-ok (err thrown) next e = cc
bind-eq-ok (ok value) next e = (value, refl, e)

pub then-eq-ok {ℓ} :
    {Next : Type ℓ} (check : Result (Unit {0})) (next : Result Next) {last : Next}
    → (check >> next) ≡ ok last
    → (check ≡ ok tt) × (next ≡ ok last)
then-eq-ok (err thrown) next e = cc
then-eq-ok (ok tt) next e = (refl, e)

-- A call that succeeds, at the front of a chain.
pub bind_step {ℓ κ} :
    {Value : Type ℓ} {Next : Type κ} (call : Result Value) (next : Value → Result Next)
    {value : Value}
    → call ≡ ok value
    → (call >>= next) ≡ next value
bind_step call next e = ap (λ c. c >>= next) e

pub then_step {ℓ} :
    {Next : Type ℓ} (check : Result (Unit {0})) (next : Result Next)
    → check ≡ ok tt
    → (check >> next) ≡ next
then_step check next e = ap (λ c. c >> next) e

pub passes : {test : Bool} (message : String) → test ≡ false → reject_if test message ≡ ok tt
passes message e = ap (λ t. reject_if t message) e

pub ok_injective {ℓ} : {A : Type ℓ} {a b : A} → ok a ≡ ok b → a ≡ b
ok_injective e = cc

pub err_not_ok {ℓ} : {A : Type ℓ} {x : Error} {a : A} → err x ≡ ok a → ⊥
err_not_ok e = cc

pub rejected : (test : Bool) (message : String) → reject_if test message ≡ ok tt → test ≡ false
rejected true message e = cc
rejected false message e = refl
