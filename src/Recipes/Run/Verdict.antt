-- ===== src/Recipes/Run/Verdict.antt =====
-- What the verdict `passed` of a recipe run means.
use field_deck.Prelude.{false, not, List, any, map, ◌≡◌}
use field_deck.Recipes.Plan.{ExecutionPlan, PlannedStep}
use field_deck.Recipes.Runner.{RecipeRunner, StepRecord, is_done}
use field_deck.Recipes.Run.{World, loop_done}
use field_deck.Recipes.Run.Quiet.{Quiet, Untroubled}
use field_deck.Recipes.Run.Steps.{Follows}

-- What a run that is reported as passed was. `permitted` says of each step that the daemon had just
-- said that no stop is latched, and what it was answered; `untroubled` what the cleanup was answered.
pub record IsClean (plan : ExecutionPlan) (world : World) (s : RecipeRunner) : Type 0 where
  pub quiet : Quiet s
  pub followed : map (λ r. r.step) s.steps ≡ plan.steps
  pub fine : any (λ r. not (is_done r.outcome)) s.steps ≡ false
  pub permitted : Follows world.deadline_ns world.turns 0 loop_done plan.steps s.steps plan.steps
  pub untroubled : Untroubled world.finally_turns 0 plan.finally_steps

module _ (plan : ExecutionPlan) (world : World) where
  abbrev FollowsWhole : List StepRecord → List PlannedStep → Type 0
  FollowsWhole = Follows world.deadline_ns world.turns 0 loop_done plan.steps
