-- ===== src/Common/Errors.antt =====
-- fielddeck/common/errors.py: the error codes, and the result of code that raises. The text of a
-- message is for people and is left out.
use mathlib.Core.Path.{◌≡◌, refl}
use field_deck.Prelude.{Bool, true, false}

pub data ErrorCode : Type 0 where
  permission_denied safety_limit_exceeded estop_active lease_error : ErrorCode
  device_not_found device_disconnected device_busy unsupported_capability : ErrorCode
  action_timeout action_cancelled protocol_error external_tool_error : ErrorCode
  capture_error recipe_error configuration_error invalid_request : ErrorCode
  unknown_action session_error transport_error internal_error : ErrorCode

pub data Result {ℓ} (T : Type ℓ) : Type ℓ where
  err : ErrorCode → Result T
  ok : T → Result T

-- `if not b: raise`
abbrev pub require : Bool → ErrorCode → Result (Unit {0})
require false code = err code
require true code = ok tt

-- What follows a statement is not reached once it has raised.
abbrev pub ◌>>=◌ {ℓ κ} : {S : Type ℓ} {T : Type κ} → Result S → (S → Result T) → Result T
err code >>= rest = err code
ok value >>= rest = rest value

abbrev pub ◌>>◌ {ℓ} : {T : Type ℓ} → Result (Unit {0}) → Result T → Result T
err code >> rest = err code
ok tt >> rest = rest

infixl 5 ◌>>=◌ ◌>>◌
-- A chain that comes to its end had each of its steps succeed.
pub >>=-eq-ok {ℓ κ} :
    {S : Type ℓ} {T : Type κ} (first : Result S) (rest : S → Result T) {result : T}
    → (first >>= rest) ≡ ok result
    → (value : S) × (first ≡ ok value) × (rest value ≡ ok result)
>>=-eq-ok (err code) rest reached = cc
>>=-eq-ok (ok value) rest reached = (value, refl, reached)

pub >>-ok : (m k : Result (Unit {0})) → (m >> k) ≡ ok tt → (m ≡ ok tt) × (k ≡ ok tt)
>>-ok (ok tt) k h = (refl, h)
>>-ok (err e) k h = cc
