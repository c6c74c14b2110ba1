-- ===== src/Recipes/Run/Kept.antt =====
-- fielddeck/recipes/runner.py: what the cleanup and the classification of a stop leave of a run.
use field_deck.Prelude.{
  ℕ, ◌+◌, String, Bool, true, false, Option, none, some, List, [], ◌∷◌, ◌≡◌, refl, ◌∙◌, arith,
}
use field_deck.Common.Errors.{Result, ok, err}
use field_deck.Recipes.Plan.{
  ExecutionPlan, PlannedStep, StepKind, action_step, wait_step, assert_step, mark_step, note_step,
  repeat_step,
}
use field_deck.Recipes.Runner.{
  RecipeRunner, StepRecord, StatusAnswer, says, fails, status_torn_down, Stepped, recorded, torn,
  escaped, Judgement, judged, unjudged, crashed, announce, send, record_step, done, cancel,
  cancel_if, call_ended, run_assert,
}
use field_deck.Recipes.Run.{
  World, FinallyTurn, CleanupEnd, cleanup_done, cleanup_torn, cleanup_escaped, unless_torn,
  after_finally, note_ran, close_session, then_close, run_each, run_finally, cleanup, classify_stop,
  finally_record, append_finally,
}
use field_deck.Recipes.Run.Quiet.{Quiet, Untroubled, run_each-Quiet}

-- What the cleanup and the classification leave of the step loop's results.
abbrev pub SameRun : RecipeRunner → RecipeRunner → Type 0
SameRun s s' = (s'.steps ≡ s.steps) × (s'.failure ≡ s.failure)

pub cancel_if-SameRun : (c : Bool) (s : RecipeRunner) → SameRun s (cancel_if c s)
unfolding cancel
cancel_if-SameRun true s = ground arith
cancel_if-SameRun false s = (refl, refl)

call_ended-SameRun :
    (step : PlannedStep) (r : Result (Option String)) (s : RecipeRunner)
    → SameRun s (call_ended step r s).1
call_ended-SameRun step (ok none) s = (refl, refl)
call_ended-SameRun step (ok (some i)) s = (refl, refl)
call_ended-SameRun step (err e) s = ground arith

run_assert-SameRun :
    (step : PlannedStep) (v : Judgement) (s : RecipeRunner) → SameRun s (run_assert step v s).1
unfolding run_assert
run_assert-SameRun step (judged true) s = (refl, refl)
run_assert-SameRun step (judged false) s = (refl, refl)
run_assert-SameRun step (unjudged e) s = (refl, refl)
run_assert-SameRun step crashed s = (refl, refl)

unless_torn-SameRun :
    (met : Bool) (s : RecipeRunner) (o : StepRecord × RecipeRunner)
    → SameRun s o.1
    → SameRun s (unless_torn met o s).1
unless_torn-SameRun true s (r, z) h = (refl, refl)
unless_torn-SameRun false s (r, z) h = h

call-SameRun :
    (met : Bool) (step : PlannedStep) (r : Result (Option String)) (s : RecipeRunner)
    → SameRun s (unless_torn met (call_ended step r (send step s)) (send step s)).1
call-SameRun met step r s =
    unless_torn-SameRun met (send step s) (call_ended step r (send step s))
      (call_ended-SameRun step r (send step s))

finally_record-SameRun :
    (k : StepKind) (step : PlannedStep) (w : FinallyTurn) (s : RecipeRunner)
    → SameRun s (finally_record k step w s).1
finally_record-SameRun assert_step step w s = run_assert-SameRun step w.verdict s
finally_record-SameRun wait_step step w s =
    unless_torn-SameRun w.torn_here s (record_step step done none, s) (refl, refl)
finally_record-SameRun action_step step w s = call-SameRun w.torn_here step w.call s
finally_record-SameRun mark_step step w s = call-SameRun w.torn_here step w.call s
finally_record-SameRun note_step step w s = call-SameRun w.torn_here step w.call s
finally_record-SameRun repeat_step step w s = call-SameRun w.torn_here step w.call s

SameRun-trans : (s s' s'' : RecipeRunner) → SameRun s s' → SameRun s' s'' → SameRun s s''
SameRun-trans s s' s'' (a, b) (c, d) = (c ∙ a, d ∙ b)

run_each-SameRun :
    (turns : ℕ → FinallyTurn) (k : ℕ) (steps : List PlannedStep) (s : RecipeRunner)
    → SameRun s (run_each turns k steps s).1
unfolding run_each
run_each-SameRun turns k [] s = (refl, refl)
run_each-SameRun turns k (step ∷ steps) s =
    let a = cancel_if (turns k).cancel_before s in
    let o = finally_record step.kind step (turns k) (announce step a) in
    tried o
      (SameRun-trans s a o.1 (cancel_if-SameRun (turns k).cancel_before s)
        (finally_record-SameRun step.kind step (turns k) (announce step a)))
      (run_each-SameRun turns (k + 1) steps)
  where
    tried :
        (o : Stepped × RecipeRunner)
        → SameRun s o.1
        → ((z : RecipeRunner) → SameRun z (run_each turns (k + 1) steps z).1)
        → SameRun s (after_finally o (run_each turns (k + 1) steps)).1
    tried (recorded r, z) same later =
        SameRun-trans s z (run_each turns (k + 1) steps (append_finally r z)).1 same
          (later (append_finally r z))
    tried (torn, z) same later = same
    tried (escaped, z) same later = same

-- What a cleanup leaves, and, where it ends of itself and leaves the run quiet, has met.
abbrev pub CleanedUp : ExecutionPlan → World → RecipeRunner → CleanupEnd × RecipeRunner → Type 0
CleanedUp plan world s o =
    SameRun s o.1
    × (o.0 ≡ cleanup_done → Quiet o.1 → Untroubled world.finally_turns 0 plan.finally_steps)

pub cleanup-CleanedUp :
    (plan : ExecutionPlan) (world : World) (s : RecipeRunner)
    → CleanedUp plan world s (cleanup plan world s)
unfolding cleanup run_finally
cleanup-CleanedUp plan world s =
    tried (run_each world.finally_turns 0 plan.finally_steps s)
      (run_each-SameRun world.finally_turns 0 plan.finally_steps s)
      (λ e q. (run_each-Quiet world.finally_turns 0 plan.finally_steps s e q).1)
  where
    closed :
        (met opened : Bool) (c : Result (Unit {0})) (z : RecipeRunner)
        → z.session_opened_here ≡ opened
        → SameRun z (close_session met c z).1 × (Quiet (close_session met c z).1 → Quiet z)
    closed true true c z e = rw e ((refl, refl), λ q. q)
    closed false true (ok tt) z e = rw e ((refl, refl), λ q. q)
    closed false true (err x) z e = rw e ((refl, refl), λ q. q)
    closed met false c z e = rw e ((refl, refl), λ q. q)

    tried :
        (o : CleanupEnd × RecipeRunner)
        → SameRun s o.1
        → (o.0 ≡ cleanup_done → Quiet o.1 → Untroubled world.finally_turns 0 plan.finally_steps)
        → CleanedUp plan world s (then_close world (note_ran o))
    tried (cleanup_done, z) same met =
        let z' : RecipeRunner = record z { finally_ran = true } in
        let c = closed world.session_torn _ world.session_closed z' refl in
        (
          SameRun-trans s z (close_session world.session_torn world.session_closed z').1 same c.0,
          λ e q. met refl (c.1 q),
        )
    tried (cleanup_torn, z) same met =
        (same, λ e q. absurd (let f : cleanup_torn ≡ cleanup_done = e in cc))
    tried (cleanup_escaped, z) same met =
        (same, λ e q. absurd (let f : cleanup_escaped ≡ cleanup_done = e in cc))

pub classify_stop-SameRun :
    (why : StatusAnswer) (s : RecipeRunner) → SameRun s (classify_stop why s)
unfolding classify_stop
classify_stop-SameRun (says true) s = ground arith
classify_stop-SameRun (says false) s = ground arith
classify_stop-SameRun (fails e) s = ground arith
classify_stop-SameRun status_torn_down s = ground arith
