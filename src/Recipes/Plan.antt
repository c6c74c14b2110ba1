-- ===== src/Recipes/Plan.antt =====
-- fielddeck/recipes/compiler.py: PlannedStep and ExecutionPlan, and fielddeck/recipes/schema.py:
-- StepKind. Texts for people, estimates of single steps and the parameters of an action are left out.
use field_deck.Prelude.{ℕ, String, Bool, true, false, not, Option, List, any}
use field_deck.Common.Errors.{Result, require, recipe_error}
use field_deck.Common.Permission.{PermissionLevel}

pub data StepKind : Type 0 where
  action_step wait_step assert_step mark_step note_step repeat_step : StepKind

pub record PlannedStep : Type 0 where
  pub index : ℕ
  pub kind : StepKind
  pub action : Option String
  pub device_id : Option String
  pub permission : PermissionLevel
  pub message : Option String

pub data ProblemSeverity : Type 0 where
  error warning : ProblemSeverity

pub record ExecutionPlan : Type 0 where
  pub steps : List PlannedStep
  pub finally_steps : List PlannedStep
  pub permissions_required : List PermissionLevel
  pub problems : List ProblemSeverity
  pub estimated_duration_ns : ℕ

abbrev is_error : ProblemSeverity → Bool
is_error error = true
is_error warning = false

-- ExecutionPlan.raise_if_unrunnable
abbrev pub raise_if_unrunnable : ExecutionPlan → Result (Unit {0})
raise_if_unrunnable plan = require (not (any is_error plan.problems)) recipe_error
