-- ===== src/Recipes/Run/Crash.antt =====
-- What lets an exception that is no FieldDeckError out of the step loop: an assertion alone.
use field_deck.Prelude.{ℕ, ◌+◌, true, false, List, [], ◌∷◌, ◌++◌, ◌≢◌, refl, inl, inr, Bool-cases}
use field_deck.Common.Errors.{Result, ok, err}
use field_deck.Recipes.Plan.{
  PlannedStep, StepKind, action_step, wait_step, assert_step, mark_step, note_step, repeat_step,
}
use field_deck.Recipes.Runner.{
  RecipeRunner, Turn, Permit, go, halt, tear, Stepped, recorded, torn, escaped, Judgement, judged,
  unjudged, crashed, announce, send, ActionAnswer, in_time, after_stop, abandoned, torn_down,
  WaitAnswer, elapsed, interrupted, wait_torn_down, run_assert, run_action, run_wait, by_kind,
  settle, execute, may_continue, is_done,
}
use field_deck.Recipes.Run.{loop_escaped, after_step, announced_step, after_permit, run_steps}

assert_kept :
    (step : PlannedStep) (v : Judgement) (s : RecipeRunner)
    → v ≢ crashed
    → (run_assert step v s).0 ≢ escaped
unfolding run_assert
assert_kept step (judged true) s n e = cc
assert_kept step (judged false) s n e = cc
assert_kept step (unjudged x) s n e = cc
assert_kept step crashed s n e = n refl

action_kept :
    (step : PlannedStep) (a : ActionAnswer) (s : RecipeRunner) → (run_action step a s).0 ≢ escaped
unfolding run_action
action_kept step (in_time r) s e = cc
action_kept step (after_stop r) s e = cc
action_kept step abandoned s e = cc
action_kept step torn_down s e = cc

wait_kept :
    (step : PlannedStep) (a : WaitAnswer) (s : RecipeRunner) → (run_wait step a s).0 ≢ escaped
unfolding run_wait
wait_kept step elapsed s e = cc
wait_kept step interrupted s e = cc
wait_kept step wait_torn_down s e = cc

by_kind_kept :
    (k : StepKind) (step : PlannedStep) (w : Turn) (s : RecipeRunner)
    → w.verdict ≢ crashed
    → (by_kind k step w s).0 ≢ escaped
by_kind_kept wait_step step w s n = wait_kept step w.wait_answer s
by_kind_kept assert_step step w s n = assert_kept step w.verdict s n
by_kind_kept action_step step w s n = action_kept step w.action_answer (send step s)
by_kind_kept mark_step step w s n = action_kept step w.action_answer (send step s)
by_kind_kept note_step step w s n = action_kept step w.action_answer (send step s)
by_kind_kept repeat_step step w s n = action_kept step w.action_answer (send step s)

settle_kept : (o : Stepped × RecipeRunner) → o.0 ≢ escaped → (settle o).0 ≢ escaped
settle_kept (recorded r, z) n e = cc
settle_kept (torn, z) n e = cc
settle_kept (escaped, z) n e = n refl

execute_kept :
    (step : PlannedStep) (w : Turn) (s : RecipeRunner)
    → w.verdict ≢ crashed
    → (execute step w s).0 ≢ escaped
unfolding execute
execute_kept step w s n = settle_kept _ (by_kind_kept step.kind step w (announce step s) n)

-- A step loop whose assertions all come to a verdict or to a RecipeError lets nothing else out.
pub run_steps_not_escaped :
    (d : ℕ) (turns : ℕ → Turn) (k : ℕ) (steps : List PlannedStep) (s : RecipeRunner)
    → ((j : ℕ) → (turns j).verdict ≢ crashed)
    → (run_steps d turns k steps s).0 ≢ loop_escaped
unfolding run_steps
run_steps_not_escaped d turns k [] s n = λ e. cc
run_steps_not_escaped d turns k (step ∷ steps) s n =
    permitted (may_continue d (turns k) s) (λ z. run_steps_not_escaped d turns (k + 1) steps z n)
  where
    Later : Type 0
    Later = (z : RecipeRunner) → (run_steps d turns (k + 1) steps z).0 ≢ loop_escaped

    stepped :
        (o : Stepped × RecipeRunner)
        → o.0 ≢ escaped
        → Later
        → (after_step o (run_steps d turns (k + 1) steps)).0 ≢ loop_escaped
    stepped (torn, z) kept later = λ e. cc
    stepped (escaped, z) kept later = λ e. kept refl
    stepped (recorded r, z) kept later = elim (Bool-cases (is_done r.outcome)) [
      | inl t ↦ rw t (later (record z { steps = z.steps ++ r ∷ [] }))
      | inr t ↦ rw t (λ e. cc)
    ]

    announced :
        (a : Result (Unit {0})) (z : RecipeRunner)
        → Later
        → (announced_step a step (turns k) z (run_steps d turns (k + 1) steps)).0 ≢ loop_escaped
    announced (err x) z later = λ e. cc
    announced (ok tt) z later =
        stepped (execute step (turns k) z) (execute_kept step (turns k) z (n k)) later

    permitted :
        (o : Permit × RecipeRunner)
        → Later
        → (after_permit o step (turns k) (run_steps d turns (k + 1) steps)).0 ≢ loop_escaped
    permitted (tear, z) later = λ e. cc
    permitted (halt, z) later = λ e. cc
    permitted (go, z) later = announced (turns k).announced z later
