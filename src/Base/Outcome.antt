-- ===== src/Base/Outcome.antt =====
-- How a call of the C program ends: it returns, the process exits with a status, or it is in
-- undefined behaviour (a NULL pointer is read, a sentinel of a tree is painted or rotated, or a read is
-- out of bounds). A loop that is given too few rounds is out of fuel.
use band_width_limiter.Base.{ℕ, ◌≡◌, Option, none, some}

pub data Outcome {ℓ} (A : Type ℓ) : Type ℓ where
  ok : A → Outcome A
  exited : ℕ → Outcome A
  crashed : Outcome A
  out_of_fuel : Outcome A

infixl 5 ◌>>=◌
abbrev pub ◌>>=◌ {ℓ κ} : {A : Type ℓ} {B : Type κ} → Outcome A → (A → Outcome B) → Outcome B
ok a >>= f = f a
exited n >>= f = exited n
crashed >>= f = crashed
out_of_fuel >>= f = out_of_fuel

-- A call of a tree routine.
abbrev pub checked {ℓ} : {A : Type ℓ} → Option A → Outcome A
checked none = crashed
checked (some a) = ok a

-- The call returns, and its result satisfies `P`.
abbrev pub Returns {ℓ κ} : {A : Type ℓ} → (A → Type κ) → Outcome A → Type (ℓ ⊔ κ)
Returns {A} P r = (a : A) × (r ≡ ok a) × P a
