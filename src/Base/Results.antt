-- ===== src/Base/Results.antt =====
-- Results of fallible Go functions. An error is the sentinel that `errors.Is` finds in it: the
-- sentinels of internal/domain/errors.go, the error of an ended context, and any other.
use Prim.Native.String.{String}
use mathlib.Core.Path.{◌≡◌, refl}
use mathlib.Core.Logic.{◌⊎◌, inl, inr}

pub data Error : Type 0 where
  not_found conflict forbidden invalid expired revoked capacity state : Error
  cancelled : Error
  other : String → Error

pub data Result {ℓ} (A : Type ℓ) : Type ℓ where
  ok : A → Result A
  err : Error → Result A

-- The value of a function that returns only an error.
abbrev pub done : Result (Unit {0})
done = ok tt

pub Result-cases {ℓ} :
    {A : Type ℓ} (r : Result A) → ((a : A) × (r ≡ ok a)) ⊎ ((e : Error) × (r ≡ err e))
Result-cases (ok a) = inl (a, refl)
Result-cases (err e) = inr (e, refl)
