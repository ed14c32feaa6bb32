-- ===== src/Base/Outcome.antt =====
-- The outcome of C code: a value, or a fault (a NULL or dangling pointer that is followed, an access
-- out of bounds, a signed overflow).
use mathlib.Core.Option.{Option, none, some}
use mathlib.Core.Bool.{Bool, true, false}

pub data Run {ℓ} (A : Type ℓ) : Type ℓ where
  ok : A → Run A
  fault : Run A

-- A fault ends the run.
infixl 5 ◌>>◌
infixl 5 ◌>>=◌
abbrev pub ◌>>=◌ {ℓ ℓ'} : {A : Type ℓ} {B : Type ℓ'} → Run A → (A → Run B) → Run B
fault >>= next = fault
ok value >>= next = next value

abbrev pub ◌>>◌ {ℓ} : {A : Type ℓ} → Run (Unit {0}) → Run A → Run A
first >> second = first >>= λ done. second

-- A lookup that must succeed.
abbrev pub from_option {ℓ} : {A : Type ℓ} → Option A → Run A
from_option (some a) = ok a
from_option none = fault

abbrev pub require : Bool → Run (Unit {0})
require true = ok tt
require false = fault
