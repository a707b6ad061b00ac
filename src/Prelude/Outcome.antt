-- ===== src/Prelude/Outcome.antt =====
-- `Result<T>` of the error chain: an error carries its topmost message.
use Prim.Native.String.{String}
use mathlib.Core.Path.{◌≡◌, refl}
use mathlib.Core.Bool.{Bool, true, false}
use mathlib.Core.Logic.{◌⊎◌, inl, inr}
use mathlib.Core.Option.{Option, none, some}

pub data Result {ℓ} (T : Type ℓ) : Type ℓ where
  err : String → Result T
  ok : T → Result T

-- `Option::ok_or`, and `chain_err` on a result whose own error is not looked at.
abbrev pub ok_or {ℓ} : {T : Type ℓ} → Option T → String → Result T
ok_or (some x) message = ok x
ok_or none message = err message

-- `chain_err(|| message)`
abbrev pub chain_err {ℓ} : {T : Type ℓ} → Result T → String → Result T
chain_err (ok x) message = ok x
chain_err (err cause) message = err message

-- `and_then`
infixl 5 ◌>>=◌ ◌>>◌
abbrev pub ◌>>=◌ {ℓ κ} : {T : Type ℓ} {U : Type κ} → Result T → (T → Result U) → Result U
err message >>= next = err message
ok x >>= next = next x

-- `if !b { return Err(message) }`, and what follows it.
abbrev pub require : Bool → String → Result (Unit {0})
require false message = err message
require true message = ok tt

abbrev pub ◌>>◌ {ℓ} : {U : Type ℓ} → Result (Unit {0}) → Result U → Result U
err message >> next = err message
ok done >> next = next

pub Result-cases {ℓ} :
    {T : Type ℓ} (m : Result T) → ((x : T) × (m ≡ ok x)) ⊎ ((message : String) × (m ≡ err message))
Result-cases (ok x) = inl (x, refl)
Result-cases (err message) = inr (message, refl)
