-- ===== src/Base/Outcome.antt =====
-- What a C function of this program hands back: a value, a failure with its `errno`, or undefined
-- behaviour (an access outside an object, or a loop that never ends).
use mathlib.Core.Option.{Option, none, some}

-- `unset` is a failure that sets no errno.
pub data Errno : Type 0 where
  einval eoverflow enomem eio enoent erange enotty eopnotsupp unset : Errno

pub data Result {ℓ} (A : Type ℓ) : Type ℓ where
  ok : A → Result A
  err : Errno → Result A
  fault : Result A

infixl 5 ◌>>=◌
abbrev pub ◌>>=◌ {ℓ κ} : {A : Type ℓ} {B : Type κ} → Result A → (A → Result B) → Result B
ok a >>= f = f a
err e >>= f = err e
fault >>= f = fault

-- A read that must be inside its object.
abbrev pub checked {ℓ} : {A : Type ℓ} → Option A → Result A
checked none = fault
checked (some a) = ok a
