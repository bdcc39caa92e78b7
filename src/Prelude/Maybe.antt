-- ===== src/Prelude/Maybe.antt =====
-- Decoders that answer `None` for a refusal: a chain of optional values that the first refusal ends.
use mathlib.Core.Bool.{Bool, true, false}
use mathlib.Core.Option.{Option, none, some}
use mathlib.Core.Path.{◌≡◌, refl}

infixl 6 ◌>>=◌
abbrev pub ◌>>=◌ {ℓ κ} : {A : Type ℓ} {B : Type κ} → Option A → (A → Option B) → Option B
none >>= next = none
some a >>= next = next a

infixl 6 ◌>>◌
abbrev pub ◌>>◌ {ℓ} : {B : Type ℓ} → Option (Unit {0}) → Option B → Option B
none >> next = none
some _ >> next = next

-- `if not test: return None`
abbrev pub require : Bool → Option (Unit {0})
require true = some tt
require false = none

-- What a chain that gave a value has done: its steps gave values.
pub bind_some {ℓ κ} :
    {A : Type ℓ} {B : Type κ} (m : Option A) (next : A → Option B) {b : B}
    → (m >>= next) ≡ some b
    → (a : A) × (m ≡ some a) × (next a ≡ some b)
bind_some none next h = cc
bind_some (some a) next h = (a, refl, h)

pub require-some {ℓ} :
    {B : Type ℓ} (test : Bool) (next : Option B) {b : B}
    → (require test >> next) ≡ some b
    → (test ≡ true) × (next ≡ some b)
require-some false next h = cc
require-some true next h = (refl, h)
