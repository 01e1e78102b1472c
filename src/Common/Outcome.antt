-- ===== src/Common/Outcome.antt =====
-- The results of fallible code: a value or an error.
use b7s.Common.{Option, none, some, ◌≡◌, refl, ◌⊎◌, inl, inr}

pub data Outcome (E A : Type 0) : Type 0 where
  ok : A → Outcome E A
  err : E → Outcome E A

module _ {E A : Type 0} where
  abbrev pub or_error : E → Option A → Outcome E A
  or_error e none = err e
  or_error e (some a) = ok a

module _ {E A B : Type 0} where
  infixl 5 ◌>>=◌
  unfoldable pub ◌>>=◌ : Outcome E A → (A → Outcome E B) → Outcome E B
  ok a >>= next = next a
  err e >>= next = err e

-- To split on a computed outcome and keep the equation.
pub Outcome-cases :
    {E A : Type 0} (res : Outcome E A) → ((a : A) × (res ≡ ok a)) ⊎ ((e : E) × (res ≡ err e))
Outcome-cases (ok a) = inl (a, refl)
Outcome-cases (err e) = inr (e, refl)
