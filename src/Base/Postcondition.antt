-- ===== src/Base/Postcondition.antt =====
-- What holds of a result, should there be one.
use mathlib.Core.Path.{◌≡◌, refl, subst}
use mathlib.Core.Bool.{Bool, true, false}
use Prim.Native.String.{String}
use bseal_cpp.Base.Outcome.{Result, ok, err, reject_if, ◌>>=◌, ◌>>◌}

abbrev pub After {ℓ κ} : {A : Type ℓ} → (A → Type κ) → Result A → Type κ
After P (ok a) = P a
After P (err e) = Unit

pub After-bind {ℓ κ} :
    {A : Type ℓ} {B : Type κ} (P : A → Type κ) (Q : B → Type κ) (m : Result A) (f : A → Result B)
    → After P m
    → ((a : A) → P a → After Q (f a))
    → After Q (m >>= f)
After-bind P Q (ok a) f h k = k a h
After-bind P Q (err e) f h k = tt

-- The value is bound with its equation.
pub after_value :
    {A B : Type 0} (Q : B → Type 0) (m : Result A) (f : A → Result B)
    → ((a : A) → m ≡ ok a → After Q (f a))
    → After Q (m >>= f)
after_value Q (ok a) f k = k a refl
after_value Q (err e) f k = tt

pub after_reject :
    {B : Type 0} (Q : B → Type 0) (test : Bool) (message : String) (k : Result B)
    → (test ≡ false → After Q k)
    → After Q (reject_if test message >> k)
after_reject Q true message k h = tt
after_reject Q false message k h = h refl

pub After_elim : {A : Type 0} (P : A → Type 0) (q : Result A) (a : A) → After P q → q ≡ ok a → P a
After_elim P q a h e = subst (After P) e h

pub After_map {ℓ κ} :
    {A : Type ℓ} (P Q : A → Type κ) (q : Result A) → After P q → ((a : A) → P a → Q a) → After Q q
After_map P Q (ok a) h k = k a h
After_map P Q (err e) h k = tt

pub after_check :
    {B : Type 0} (Q : B → Type 0) (check : Result (Unit {0})) (k : Result B)
    → (check ≡ ok tt → After Q k)
    → After Q (check >> k)
after_check Q (ok tt) k h = h refl
after_check Q (err e) k h = tt
