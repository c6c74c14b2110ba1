-- ===== src/Recipes/Preflight.antt =====
-- fielddeck/recipes/runner.py: RecipeRunner._preflight, with _check_authorization and _start_session.
-- The answers of the daemon are arguments.
pub mod Covered
use field_deck.Prelude.{
  ℕ, String, Bool, true, false, not, ◌&&◌, Option, none, some, List, [], ◌∷◌, ◌++◌, any, keep,
  head?, if◌then◌else◌, ltb, min, length, str_eq,
}
use field_deck.Common.Errors.{Result, ok, err, ◌>>=◌, ◌>>◌, require, recipe_error}
use field_deck.Common.Permission.{
  PermissionLevel, passive, query, control, power, flash, destructive, requires_grant, same_level,
}
use field_deck.Safety.Grant.{ArmGrant, matches}
use field_deck.Recipes.Plan.{ExecutionPlan, PlannedStep, raise_if_unrunnable}
use field_deck.Recipes.Runner.{RecipeRunner}

-- What `safety.status` tells: the stop, the active grants, and how long each of them has left.
pub record SafetyStatus : Type 0 where
  pub estop_is_latched : Bool
  pub grants : List ArmGrant
  pub remaining_ns : List (String × ℕ)

-- The candidate that `next` looks for.
abbrev pub covers : PlannedStep → String → ArmGrant → Bool
covers step action g =
    if same_level g.permission step.permission then matches g.scope step.device_id action else false

-- The grant of one step: `none` is a step that needs one and has none.
abbrev pub grant_for_action : List ArmGrant → PlannedStep → Option String → Option (Option ArmGrant)
grant_for_action grants step none = some none
grant_for_action grants step (some action) = elim (head? (keep (covers step action) grants)) [
  | none ↦ none
  | some g ↦ some (some g)
]

abbrev pub grant_for : List ArmGrant → PlannedStep → Option (Option ArmGrant)
grant_for grants step =
    if requires_grant step.permission then grant_for_action grants step step.action else some none

abbrev pub is_missing : List ArmGrant → PlannedStep → Bool
is_missing grants step = elim (grant_for grants step) [ none ↦ true | some g ↦ false ]

-- `remaining.get(grant.grant_id, grant.ttl_s)`
abbrev left_of : List (String × ℕ) → ArmGrant → ℕ
left_of [] g = g.ttl_ns
left_of ((i, left) ∷ m) g = if str_eq i g.grant_id then left else left_of m g

abbrev tighter : Option ℕ → ℕ → Option ℕ
tighter none left = some left
tighter (some current) left = some (min current left)

abbrev tighten :
    PermissionLevel
    → PlannedStep
    → List (String × ℕ)
    → Option (Option ArmGrant)
    → Option ℕ
    → Option ℕ
tighten p step remaining (some (some g)) current =
    if same_level step.permission p then tighter current (left_of remaining g) else current
tighten p step remaining _ current = current

-- The least time left among the grants that the steps of one class go by.
abbrev pub tightest : SafetyStatus → PermissionLevel → List PlannedStep → Option ℕ → Option ℕ
tightest status p [] current = current
tightest status p (step ∷ steps) current =
    tightest status p steps
      (tighten p step status.remaining_ns (grant_for status.grants step) current)

abbrev is_short : ℕ → Option ℕ → Bool
is_short needed none = false
is_short needed (some left) = ltb left needed

abbrev all_steps : ExecutionPlan → List PlannedStep
all_steps plan = plan.steps ++ plan.finally_steps

-- The classes that a warning names: their authorization ends before the recipe does.
abbrev pub short_classes : ExecutionPlan → SafetyStatus → List PermissionLevel
short_classes plan status =
    keep (λ p. is_short plan.estimated_duration_ns (tightest status p (all_steps plan) none))
      (passive ∷ query ∷ control ∷ power ∷ flash ∷ destructive ∷ [])

abbrev pub check_needed :
    List PermissionLevel → ExecutionPlan → SafetyStatus → Result (List PermissionLevel)
check_needed [] plan status = ok []
check_needed (p ∷ ps) plan status =
    if any (is_missing status.grants) (all_steps plan)
    then err recipe_error
    else ok (short_classes plan status)

-- RecipeRunner._check_authorization: an error, or the classes that a warning names.
unfoldable pub check_authorization : ExecutionPlan → SafetyStatus → Result (List PermissionLevel)
check_authorization plan status = check_needed plan.permissions_required plan status

pub record PreflightWorld : Type 0 where
  pub status : Result SafetyStatus
  -- The session that `system.status` names.
  pub session : Result (Option String)
  pub started_session : Result (Option String)
  -- Whether `cancel` is called meanwhile.
  pub cancelled : Bool

abbrev session_missing : Option String → Bool
session_missing none = true
session_missing (some i) = false

-- RecipeRunner._start_session
abbrev pub start_session : Result (Option String) → RecipeRunner → Result (Unit {0}) × RecipeRunner
start_session (err e) s = (err e, s)
start_session (ok i) s = (ok tt, record s { session_opened_here = true })

abbrev after_session :
    Bool
    → Bool
    → PreflightWorld
    → Result (Option String)
    → RecipeRunner
    → Result (Unit {0}) × RecipeRunner
after_session open_session dry_run w (err e) s = (err e, s)
after_session open_session dry_run w (ok i) s =
    if session_missing i && (open_session && not dry_run)
    then start_session w.started_session s
    else (ok tt, s)

abbrev after_check :
    Bool
    → Bool
    → PreflightWorld
    → Result (List PermissionLevel)
    → RecipeRunner
    → Result (Unit {0}) × RecipeRunner
after_check open_session dry_run w (err e) s = (err e, s)
after_check open_session dry_run w (ok short) s =
    after_session open_session dry_run w w.session (record s { warnings = length short })

abbrev after_status :
    ExecutionPlan
    → Bool
    → Bool
    → PreflightWorld
    → Result SafetyStatus
    → RecipeRunner
    → Result (Unit {0}) × RecipeRunner
after_status plan open_session dry_run w (err e) s = (err e, s)
after_status plan open_session dry_run w (ok status) s =
    if status.estop_is_latched
    then (err recipe_error, record s { estop = true })
    else after_check open_session dry_run w (check_authorization plan status) s

abbrev after_gate :
    ExecutionPlan
    → Bool
    → Bool
    → PreflightWorld
    → Result (Unit {0})
    → RecipeRunner
    → Result (Unit {0}) × RecipeRunner
after_gate plan open_session dry_run w (err e) s = (err e, s)
after_gate plan open_session dry_run w (ok tt) s =
    after_status plan open_session dry_run w w.status s

-- RecipeRunner._preflight
unfoldable pub preflight :
    ExecutionPlan → Bool → Bool → PreflightWorld → RecipeRunner → Result (Unit {0}) × RecipeRunner
unfolding check_authorization
preflight plan open_session dry_run w s =
    after_gate plan open_session dry_run w (raise_if_unrunnable plan) s
