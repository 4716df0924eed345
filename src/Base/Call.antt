-- ===== src/Base/Call.antt =====
-- Calls that return, throw, or are not at their end when the fuel is used up.
use mathlib.Core.Option.{Option, none, some}

-- A pointer that leads nowhere counts as `thrown`.
pub data Call {ℓ} (A : Type ℓ) : Type ℓ where
  returned : A → Call A
  thrown running : Call A

infixl 5 ◌>>=◌
abbrev pub ◌>>=◌ {ℓ κ} : {A : Type ℓ} {B : Type κ} → Call A → (A → Call B) → Call B
returned a >>= f = f a
thrown >>= f = thrown
running >>= f = running

-- A result that is missing only when the fuel is used up.
abbrev pub or_running {ℓ} : {A : Type ℓ} → Option A → Call A
or_running none = running
or_running (some a) = returned a

abbrev pub or_thrown {ℓ} : {A : Type ℓ} → Option A → Call A
or_thrown none = thrown
or_thrown (some a) = returned a
