-- ===== src/Recipes/Run/Untouched.antt =====
-- What the step loop of a recipe run leaves of the results of the cleanup.
use field_deck.Prelude.{
  ℕ, ◌+◌, String, Bool, true, false, Option, none, some, List, [], ◌∷◌, ◌++◌, ◌≡◌, refl, ◌∙◌,
  Bool-cases, inl, inr, arith,
}
use field_deck.Common.Errors.{Result, ok, err}
use field_deck.Recipes.Plan.{
  PlannedStep, StepKind, action_step, wait_step, assert_step, mark_step, note_step, repeat_step,
}
use field_deck.Recipes.Runner.{
  RecipeRunner, Turn, Permit, go, halt, tear, Stepped, recorded, torn, escaped, Judgement, judged,
  unjudged, crashed, announce, send, ActionAnswer, in_time, after_stop, abandoned, torn_down,
  WaitAnswer, elapsed, interrupted, wait_torn_down, cancel, cancel_if, call_ended, run_assert,
  run_action, run_wait, by_kind, settle, execute, may_continue, is_done,
}
use field_deck.Recipes.Run.{after_step, announced_step, after_permit, run_steps}

-- What all but the cleanup leaves of the cleanup's results.
abbrev pub SameCleanup : RecipeRunner → RecipeRunner → Type 0
SameCleanup s s' = (s'.finally_records ≡ s.finally_records) × (s'.finally_ran ≡ s.finally_ran)

pub SameCleanup-trans :
    (s s' s'' : RecipeRunner) → SameCleanup s s' → SameCleanup s' s'' → SameCleanup s s''
SameCleanup-trans s s' s'' (a, b) (c, d) = (c ∙ a, d ∙ b)

may_continue-SameCleanup :
    (d : ℕ) (w : Turn) (s : RecipeRunner) → SameCleanup s (may_continue d w s).1
unfolding may_continue cancel
may_continue-SameCleanup d w s = (ground arith, ground arith)

pub cancel_if-SameCleanup : (c : Bool) (s : RecipeRunner) → SameCleanup s (cancel_if c s)
unfolding cancel
cancel_if-SameCleanup true s = ground arith
cancel_if-SameCleanup false s = (refl, refl)

pub call_ended-SameCleanup :
    (step : PlannedStep) (r : Result (Option String)) (s : RecipeRunner)
    → SameCleanup s (call_ended step r s).1
call_ended-SameCleanup step (ok none) s = (refl, refl)
call_ended-SameCleanup step (ok (some i)) s = (refl, refl)
call_ended-SameCleanup step (err e) s = ground arith

run_assert-SameCleanup :
    (step : PlannedStep) (v : Judgement) (s : RecipeRunner) → SameCleanup s (run_assert step v s).1
unfolding run_assert
run_assert-SameCleanup step (judged true) s = (refl, refl)
run_assert-SameCleanup step (judged false) s = (refl, refl)
run_assert-SameCleanup step (unjudged e) s = (refl, refl)
run_assert-SameCleanup step crashed s = (refl, refl)

run_action-SameCleanup :
    (step : PlannedStep) (a : ActionAnswer) (s : RecipeRunner)
    → SameCleanup s (run_action step a s).1
unfolding run_action
run_action-SameCleanup step (in_time r) s = call_ended-SameCleanup step r s
run_action-SameCleanup step (after_stop r) s =
    SameCleanup-trans s (cancel s) (call_ended step r (cancel s)).1 (cancel_if-SameCleanup true s)
      (call_ended-SameCleanup step r (cancel s))
run_action-SameCleanup step abandoned s = cancel_if-SameCleanup true s
run_action-SameCleanup step torn_down s = (refl, refl)

run_wait-SameCleanup :
    (step : PlannedStep) (a : WaitAnswer) (s : RecipeRunner) → SameCleanup s (run_wait step a s).1
unfolding run_wait
run_wait-SameCleanup step elapsed s = (refl, refl)
run_wait-SameCleanup step interrupted s = cancel_if-SameCleanup true s
run_wait-SameCleanup step wait_torn_down s = (refl, refl)

by_kind-SameCleanup :
    (k : StepKind) (step : PlannedStep) (w : Turn) (s : RecipeRunner)
    → SameCleanup s (by_kind k step w s).1
by_kind-SameCleanup wait_step step w s = run_wait-SameCleanup step w.wait_answer s
by_kind-SameCleanup assert_step step w s = run_assert-SameCleanup step w.verdict s
by_kind-SameCleanup action_step step w s = run_action-SameCleanup step w.action_answer (send step s)
by_kind-SameCleanup mark_step step w s = run_action-SameCleanup step w.action_answer (send step s)
by_kind-SameCleanup note_step step w s = run_action-SameCleanup step w.action_answer (send step s)
by_kind-SameCleanup repeat_step step w s = run_action-SameCleanup step w.action_answer (send step s)

settle-SameCleanup :
    (s : RecipeRunner) (o : Stepped × RecipeRunner) → SameCleanup s o.1 → SameCleanup s (settle o).1
settle-SameCleanup s (recorded r, s') h = ground arith
settle-SameCleanup s (torn, s') h = h
settle-SameCleanup s (escaped, s') h = h

execute-SameCleanup :
    (step : PlannedStep) (w : Turn) (s : RecipeRunner) → SameCleanup s (execute step w s).1
unfolding execute
execute-SameCleanup step w s =
    settle-SameCleanup s (by_kind step.kind step w (announce step s))
      (by_kind-SameCleanup step.kind step w (announce step s))

pub run_steps-SameCleanup :
    (d : ℕ) (turns : ℕ → Turn) (k : ℕ) (steps : List PlannedStep) (s : RecipeRunner)
    → SameCleanup s (run_steps d turns k steps s).1
unfolding run_steps
run_steps-SameCleanup d turns k [] s = (refl, refl)
run_steps-SameCleanup d turns k (step ∷ steps) s =
    permitted (may_continue d (turns k) s) (may_continue-SameCleanup d (turns k) s)
      (run_steps-SameCleanup d turns (k + 1) steps)
  where
    Rest : Type 0
    Rest = (z : RecipeRunner) → SameCleanup z (run_steps d turns (k + 1) steps z).1

    stepped :
        (o : Stepped × RecipeRunner)
        → SameCleanup s o.1
        → Rest
        → SameCleanup s (after_step o (run_steps d turns (k + 1) steps)).1
    stepped (torn, z) same rest = same
    stepped (escaped, z) same rest = same
    stepped (recorded r, z) same rest =
        let z' : RecipeRunner = record z { steps = z.steps ++ r ∷ [] } in
        elim (Bool-cases (is_done r.outcome)) [
          | inl t ↦
              rw t (SameCleanup-trans s z' (run_steps d turns (k + 1) steps z').1 same (rest z'))
          | inr t ↦ rw t same
        ]

    announced :
        (a : Result (Unit {0})) (s' : RecipeRunner)
        → SameCleanup s s'
        → Rest
        → SameCleanup s (announced_step a step (turns k) s' (run_steps d turns (k + 1) steps)).1
    announced (err e) s' same rest = same
    announced (ok tt) s' same rest =
        stepped (execute step (turns k) s')
          (SameCleanup-trans s s' (execute step (turns k) s').1 same
            (execute-SameCleanup step (turns k) s'))
          rest

    permitted :
        (o : Permit × RecipeRunner)
        → SameCleanup s o.1
        → Rest
        → SameCleanup s (after_permit o step (turns k) (run_steps d turns (k + 1) steps)).1
    permitted (tear, s') same rest = same
    permitted (halt, s') same rest = same
    permitted (go, s') same rest = announced (turns k).announced s' same rest
