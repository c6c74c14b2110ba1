-- ===== src/Recipes/Run/Quiet.antt =====
-- What a cleanup that leaves no mark on the verdict has met.
use field_deck.Prelude.{
  ℕ, ◌+◌, String, Bool, true, false, Option, none, some, List, [], ◌∷◌, ◌≡◌, ◌≢◌, refl, arith,
}
use field_deck.Common.Errors.{Result, ok, err, estop_active, action_cancelled}
use field_deck.Recipes.Plan.{
  PlannedStep, StepKind, action_step, wait_step, assert_step, mark_step, note_step, repeat_step,
}
use field_deck.Recipes.Runner.{
  RecipeRunner, Stepped, recorded, torn, escaped, Judgement, judged, unjudged, crashed, announce,
  send, cancel, cancel_if, call_ended, run_assert, record_step, done,
}
use field_deck.Recipes.Run.{
  FinallyTurn, cleanup_done, cleanup_torn, cleanup_escaped, unless_torn, run_each, finally_record,
  append_finally, after_finally,
}

-- No emergency stop, no cancellation and no failed assertion so far.
abbrev pub Quiet : RecipeRunner → Type 0
Quiet s = (s.estop ≡ false) × (s.was_cancelled ≡ false) × (s.assertions_failed ≡ 0)

-- What a cleanup step is answered then: an assertion holds, and no call is refused by an emergency
-- stop or ended by a cancellation.
abbrev IsUntroubled : StepKind → FinallyTurn → Type 0
IsUntroubled wait_step w = Unit
IsUntroubled assert_step w = w.verdict ≡ judged true
IsUntroubled _ w = (w.call ≢ err estop_active) × (w.call ≢ err action_cancelled)

abbrev pub Untroubled : (ℕ → FinallyTurn) → ℕ → List PlannedStep → Type 0
Untroubled turns k [] = Unit
Untroubled turns k (p ∷ ps) = IsUntroubled p.kind (turns k) × Untroubled turns (k + 1) ps

pub cancel_if-Quiet : (c : Bool) (s : RecipeRunner) → Quiet (cancel_if c s) → Quiet s
unfolding cancel
cancel_if-Quiet true s h = ground arith
cancel_if-Quiet false s h = h

-- A record that leaves the run quiet came of a good answer, to a run that was quiet.
abbrev QuietBefore : Type 0 → RecipeRunner → Stepped × RecipeRunner → Type 0
QuietBefore well s (recorded r, z) = Quiet z → Quiet s × well
QuietBefore well s (torn, z) = Unit
QuietBefore well s (escaped, z) = Unit

call_ended-Quiet :
    (step : PlannedStep) (r : Result (Option String)) (s : RecipeRunner)
    → Quiet (call_ended step r s).1
    → Quiet s × ((r ≢ err estop_active) × (r ≢ err action_cancelled))
call_ended-Quiet step (ok none) s h = (h, (λ e. cc, λ e. cc))
call_ended-Quiet step (ok (some l)) s h = (h, (λ e. cc, λ e. cc))
call_ended-Quiet step (err estop_active) s h = absurd (ground arith)
call_ended-Quiet step (err action_cancelled) s h = absurd (ground arith)
call_ended-Quiet step (err e) s h = let q : Quiet s = ground arith in (q, (λ x. cc, λ x. cc))

call-Quiet :
    (met : Bool) (step : PlannedStep) (r : Result (Option String)) (s : RecipeRunner)
    → QuietBefore
        ((r ≢ err estop_active) × (r ≢ err action_cancelled))
        s
        (unless_torn met (call_ended step r (send step s)) (send step s))
call-Quiet true step r s = tt
call-Quiet false step r s = λ h. call_ended-Quiet step r (send step s) h

wait-Quiet :
    (met : Bool) (step : PlannedStep) (s : RecipeRunner)
    → QuietBefore (Unit {0}) s (unless_torn met (record_step step done none, s) s)
wait-Quiet true step s = tt
wait-Quiet false step s = λ h. (h, tt)

assert-Quiet :
    (step : PlannedStep) (v : Judgement) (s : RecipeRunner)
    → QuietBefore (v ≡ judged true) s (run_assert step v s)
unfolding run_assert
assert-Quiet step (judged true) s = λ h. (h, refl)
assert-Quiet step (judged false) s = λ h. absurd (omega (arith, h.2))
assert-Quiet step (unjudged e) s = λ h. absurd (omega (arith, h.2))
assert-Quiet step crashed s = tt

finally_record-Quiet :
    (k : StepKind) (step : PlannedStep) (w : FinallyTurn) (s : RecipeRunner)
    → QuietBefore (IsUntroubled k w) s (finally_record k step w s)
finally_record-Quiet wait_step step w s = wait-Quiet w.torn_here step s
finally_record-Quiet assert_step step w s = assert-Quiet step w.verdict s
finally_record-Quiet action_step step w s = call-Quiet w.torn_here step w.call s
finally_record-Quiet mark_step step w s = call-Quiet w.torn_here step w.call s
finally_record-Quiet note_step step w s = call-Quiet w.torn_here step w.call s
finally_record-Quiet repeat_step step w s = call-Quiet w.torn_here step w.call s

-- A cleanup that ends of itself and leaves the run quiet met a quiet run, and its steps were all
-- answered well.
pub run_each-Quiet :
    (turns : ℕ → FinallyTurn) (k : ℕ) (steps : List PlannedStep) (s : RecipeRunner)
    → (run_each turns k steps s).0 ≡ cleanup_done
    → Quiet (run_each turns k steps s).1
    → Quiet s × Untroubled turns k steps
unfolding run_each
run_each-Quiet turns k [] s = λ e h. (h, tt)
run_each-Quiet turns k (step ∷ steps) s =
    let a = cancel_if (turns k).cancel_before s in
    tried (finally_record step.kind step (turns k) (announce step a))
      (finally_record-Quiet step.kind step (turns k) (announce step a))
      (run_each-Quiet turns (k + 1) steps)
  where
    tried :
        (o : Stepped × RecipeRunner)
        → QuietBefore
            (IsUntroubled step.kind (turns k))
            (announce step (cancel_if (turns k).cancel_before s))
            o
        → ((z : RecipeRunner)
            → (run_each turns (k + 1) steps z).0 ≡ cleanup_done
            → Quiet (run_each turns (k + 1) steps z).1
            → Quiet z × Untroubled turns (k + 1) steps)
        → (after_finally o (run_each turns (k + 1) steps)).0 ≡ cleanup_done
        → Quiet (after_finally o (run_each turns (k + 1) steps)).1
        → Quiet s × Untroubled turns k (step ∷ steps)
    tried (recorded r, z) before later e h =
        let more = later (append_finally r z) e h in
        let now = before more.0 in
        (cancel_if-Quiet (turns k).cancel_before s now.0, (now.1, more.1))
    tried (torn, z) before later e h = absurd (let f : cleanup_torn ≡ cleanup_done = e in cc)
    tried (escaped, z) before later e h = absurd (let f : cleanup_escaped ≡ cleanup_done = e in cc)
