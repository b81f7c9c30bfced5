-- ===== src/Common/Results.antt =====
-- Results of code that can fail, with the ways in which it does.
use mathlib.Core.Path.{◌≡◌, refl}
use mathlib.Core.Logic.{◌⊎◌, inl, inr}
use mathlib.Core.Bool.{Bool, true, false}

-- `out_of_range` is the exception of the containers' `at`, and `check_failed` the abort of
-- `FF_CHECK` and `FF_DCHECK`, `terminated` a call of `std::terminate`. The next five are undefined in C++: `null_deref` a call or read
-- through a null pointer, `empty_container` the `top` of an empty queue, `overrun` an access past a
-- buffer, `overflow` a signed overflow, `div_by_zero` a division by zero. `out_of_fuel` is the
-- model's own: a loop was given too few rounds.
pub data Fault : Type 0 where
  out_of_range check_failed terminated null_deref empty_container overrun overflow div_by_zero
        out_of_fuel :
      Fault

pub data Outcome {ℓ} (A : Type ℓ) : Type ℓ where
  ok : A → Outcome A
  err : Fault → Outcome A

infixl 5 ◌>>=◌ ◌>>◌
abbrev pub ◌>>=◌ {ℓ κ} : {A : Type ℓ} {B : Type κ} → Outcome A → (A → Outcome B) → Outcome B
ok a >>= f = f a
err e >>= f = err e

abbrev pub ◌>>◌ {ℓ} : {B : Type ℓ} → Outcome (Unit {0}) → Outcome B → Outcome B
m >> k = m >>= λ _. k

abbrev pub guard : Bool → Fault → Outcome (Unit {0})
guard true e = ok tt
guard false e = err e

pub Outcome-cases {ℓ} :
    {A : Type ℓ} (o : Outcome A) → ((a : A) × (o ≡ ok a)) ⊎ ((f : Fault) × (o ≡ err f))
Outcome-cases (ok a) = inl (a, refl)
Outcome-cases (err f) = inr (f, refl)
