-- ===== src/Daemon/Spec.antt =====
-- fielddeck/drivers/base.py: ActionSpec. The parameter model (pydantic) is the function that gives
-- the validated values, or none; descriptions and schemas are left out.
use field_deck.Prelude.{ℕ, String, Bool, Option, none, some, List, ltb, if◌then◌else◌}
use field_deck.Prelude.Dict.{Dict}
use field_deck.Common.Errors.{Result, ok, err, internal_error}
use field_deck.Common.Permission.{PermissionLevel, rank}
use field_deck.Safety.Limits.{Value, LimitCheck, DerivedLimitCheck}

pub record ActionSpec : Type 0 where
  pub name : String
  pub permission : PermissionLevel
  pub validate : Dict Value → Option (Dict Value)
  pub state_changing : Bool
  pub is_capture : Bool
  pub timeout_ns : ℕ
  pub limit_checks : List LimitCheck
  pub derived_limit_checks : List DerivedLimitCheck
  pub allowed_during_estop : Bool
  pub permission_resolver : Option (Dict Value → PermissionLevel)
  pub requires_lease : Bool

-- A resolver that widens is a RuntimeError.
abbrev narrowed : PermissionLevel → PermissionLevel → Result PermissionLevel
narrowed declared resolved =
    if ltb (rank declared) (rank resolved) then err internal_error else ok resolved

-- ActionSpec.effective_permission
unfoldable pub effective_permission : ActionSpec → Dict Value → Result PermissionLevel
effective_permission spec params = elim spec.permission_resolver [
  | none ↦ ok spec.permission
  | some resolve ↦ narrowed spec.permission (resolve params)
]
