-- ===== src/Prelude/Exceptions.antt =====
-- Python's exceptions as values.
use Prim.Native.String.{String}
use mathlib.Core.Path.{◌≡◌, refl}
use mathlib.Core.Bool.{Bool, true, false}
use project_firestarter.Prelude.Tests.{if◌then◌else◌}

-- `raise` carries the exception's class and its message.
pub data Error : Type 0 where
  value_error key_error type_error overflow_error : String → Error

-- What a call that may raise gives back.
pub data Result {ℓ} (A : Type ℓ) : Type ℓ where
  err : Error → Result A
  ok : A → Result A

-- `if test: raise ValueError(message)`
abbrev pub refuse_if : Bool → String → Result (Unit {0})
refuse_if test message = if test then err (value_error message) else ok tt

infixl 5 ◌>>=◌
abbrev pub ◌>>=◌ {ℓ κ} : {B : Type κ} {A : Type ℓ} → Result A → (A → Result B) → Result B
err e >>= next = err e
ok a >>= next = next a

-- One statement after another.
infixl 5 ◌>>◌
abbrev pub ◌>>◌ {κ} : {B : Type κ} → Result (Unit {0}) → Result B → Result B
check >> rest = check >>= λ _. rest

-- A sequence of checks passes only if its first check and the rest pass.
pub passes :
    (test : Bool) (message : String) (rest : Result (Unit {0}))
    → (refuse_if test message >> rest) ≡ ok tt
    → (test ≡ false) × (rest ≡ ok tt)
passes true message rest h = cc
passes false message rest h = (refl, h)

pub rest_passes : (check rest : Result (Unit {0})) → (check >> rest) ≡ ok tt → rest ≡ ok tt
rest_passes (err e) rest h = cc
rest_passes (ok u) rest h = h

pub first_passes : (check rest : Result (Unit {0})) → (check >> rest) ≡ ok tt → check ≡ ok tt
first_passes (err e) rest h = cc
first_passes (ok u) rest h = refl
