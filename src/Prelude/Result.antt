-- ===== src/Prelude/Result.antt =====
-- Python exceptions as values. A function that may raise returns a `Result`.
use Prim.Native.String.{String}
use mathlib.Core.Bool.{Bool, true, false}
use mathlib.Core.Path.{◌≡◌, refl}

-- The exception classes that the modelled code raises, with their message.
pub data Error : Type 0 where
  value_error : String → Error
  type_error : String → Error
  key_error : String → Error
  runtime_error : String → Error
  broker_failure : String → Error
  protocol_failure : String → Error
  discovery_failure : String → Error
  authorization_required : String → Error
  update_error : String → Error
  os_error : String → Error

-- A value, or the exception that was raised instead.
pub data Result {ℓ} (A : Type ℓ) : Type ℓ where
  err : Error → Result A
  ok : A → Result A

-- An exception ends the block.
infixl 6 ◌>>=◌
abbrev pub ◌>>=◌ {ℓ κ} : {A : Type ℓ} {B : Type κ} → Result A → (A → Result B) → Result B
err e >>= next = err e
ok a >>= next = next a

-- A check whose value is not used.
infixl 6 ◌>>◌
abbrev pub ◌>>◌ {ℓ} : {B : Type ℓ} → Result (Unit {0}) → Result B → Result B
err e >> next = err e
ok _ >> next = next

-- `if test: raise error`.
abbrev pub raise_if : Bool → Error → Result (Unit {0})
raise_if true e = err e
raise_if false e = ok tt

-- What a block that returned has done: its steps returned.
pub bind_returned {ℓ κ} :
    {A : Type ℓ} {B : Type κ} (m : Result A) (next : A → Result B) {b : B}
    → (m >>= next) ≡ ok b
    → (a : A) × (m ≡ ok a) × (next a ≡ ok b)
bind_returned (err e) next h = cc
bind_returned (ok a) next h = (a, refl, h)

pub then_returned {ℓ} :
    {B : Type ℓ} (m : Result (Unit {0})) (next : Result B) {b : B}
    → (m >> next) ≡ ok b
    → (m ≡ ok tt) × (next ≡ ok b)
then_returned (err e) next h = cc
then_returned (ok a) next h = (refl, h)
