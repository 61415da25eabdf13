-- ===== src/Base/Check.antt =====
-- Checks that end the program when they fail.
use mathlib.Core.Bool.{Bool, true, false}
use mathlib.Core.Option.{Option, none, some}

-- A failed `TC_CHECK` is `none`.
infixl 5 ◌>>=◌ ◌>>◌
abbrev pub ◌>>=◌ {ℓ κ} : {A : Type ℓ} {B : Type κ} → Option A → (A → Option B) → Option B
none >>= f = none
some a >>= f = f a

abbrev pub ◌>>◌ {ℓ} : {B : Type ℓ} → Option (Unit {0}) → Option B → Option B
c >> k = c >>= λ _. k

abbrev pub check : Bool → Option (Unit {0})
check true = some tt
check false = none
