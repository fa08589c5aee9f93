-- ===== src/Prelude/Results.antt =====
-- `Result`, with its bind for the `?` of the source.
use mathlib.Core.Logic.{◌⊎◌, inl, inr}
use mathlib.Core.Option.{Option, none, some}
use mathlib.Core.Path.{◌≡◌, refl}

-- The error type comes first, so that a module names its own results by `Result Error`.
pub data Result (E A : Type 0) : Type 0 where
  err : E → Result E A
  ok : A → Result E A

-- `Option::ok_or`.
abbrev pub ok_or : {E A : Type 0} → Option A → E → Result E A
ok_or none e = err e
ok_or (some a) e = ok a

infixl 5 ◌>>=◌
abbrev pub ◌>>=◌ : {E A B : Type 0} → Result E A → (A → Result E B) → Result E B
err failure >>= next = err failure
ok result >>= next = next result

-- A result of a loop with fuel: it ran out, or it is an error or a value.
pub fueled_cases :
    {E A : Type 0} (o : Option (Result E A))
    → (o ≡ none) ⊎ (((e : E) × (o ≡ some (err e))) ⊎ ((a : A) × (o ≡ some (ok a))))
fueled_cases none = inl refl
fueled_cases (some (err e)) = inr (inl (e, refl))
fueled_cases (some (ok a)) = inr (inr (a, refl))

pub Result-cases :
    {E A : Type 0} (r : Result E A) → ((e : E) × (r ≡ err e)) ⊎ ((a : A) × (r ≡ ok a))
Result-cases (err e) = inl (e, refl)
Result-cases (ok a) = inr (a, refl)
