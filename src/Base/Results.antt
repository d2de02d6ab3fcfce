-- ===== src/Base/Results.antt =====
-- Go's `(value, error)` pairs as a result, and the errors that the code tells apart.
use mathlib.Core.Path.{◌≡◌, refl}
use mathlib.Core.Logic.{◌⊎◌, inl, inr}
use hal_agent_operator.Base.GoText.{Text}

-- `apierrors.IsNotFound` is the only question that the code asks of an error; the text is what
-- `Error()` prints.
pub data Error : Type 0 where
  not_found : Text → Error
  failure : Text → Error

abbrev pub error_text : Error → Text
error_text (not_found t) = t
error_text (failure t) = t

pub data Result {ℓ} (A : Type ℓ) : Type ℓ where
  ok : A → Result A
  err : Error → Result A

pub Result-cases {ℓ} :
    {A : Type ℓ} (m : Result A) → ((a : A) × (m ≡ ok a)) ⊎ ((e : Error) × (m ≡ err e))
Result-cases (ok a) = inl (a, refl)
Result-cases (err e) = inr (e, refl)

-- What a call that may panic does: it panics, or returns a value or an error.
pub data Outcome (A : Type 0) : Type 0 where
  panics : Outcome A
  returns : Result A → Outcome A
