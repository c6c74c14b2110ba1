-- ===== src/Recipes/Run/Cleanup.antt =====
-- The cleanup of a recipe run: when it is complete, and what the run comes to then.
use field_deck.Prelude.{
  ℕ, ◌+◌, Bool, true, false, List, [], ◌∷◌, ◌++◌, map, ◌≡◌, ◌≢◌, ◌⊎◌, inl, inr, refl, sym, subst,
  ap, ◌∙◌, arith,
}
use field_deck.Common.Errors.{Result, ok, err}
use field_deck.Recipes.Plan.{
  ExecutionPlan, PlannedStep, StepKind, action_step, wait_step, assert_step, mark_step, note_step,
  repeat_step,
}
use field_deck.Recipes.Runner.{
  RecipeRunner, StatusAnswer, says, fails, status_torn_down, Stepped, recorded, torn, escaped,
  Judgement, judged, unjudged, crashed, announce, run_assert, cancel_if, finished, running,
}
use field_deck.Recipes.Run.{
  World, FinallyTurn, LoopEnd, loop_done, loop_torn, loop_broke, loop_escaped, CleanupEnd,
  cleanup_done, cleanup_torn, cleanup_escaped, finally_record, append_finally, after_finally,
  run_each, note_ran, then_close, run_steps, run_finally, cleanup, shielded, classify_stop,
  finish_state, verdict_of, torn_why, close_session, Ending, reported, cancelled_cleaned, cleaned,
  cleaned_shielded, completed, after_loop, run_started,
}
use field_deck.Recipes.Run.Untouched.{SameCleanup, run_steps-SameCleanup, cancel_if-SameCleanup}
use field_deck.Recipes.Run.Attempts.{Attempted, run_each-Attempted}
use field_deck.Recipes.Run.Crash.{run_steps_not_escaped}

-- The run comes to its report, or to the cancellation that it was asked for, in a final state, and
-- every step of the cleanup was attempted, in order.
pub record IsCleaned (plan : ExecutionPlan) (o : Ending × RecipeRunner) : Type 0 where
  pub ends : (o.0 ≡ reported) ⊎ (o.0 ≡ cancelled_cleaned)
  pub is_over : finished o.1.state ≡ true
  pub ran : o.1.finally_ran ≡ true
  pub attempted : map (λ r. r.step) o.1.finally_records ≡ plan.finally_steps

-- No exception but a FieldDeckError leaves an assertion, and the task is not cancelled at an await
-- of a cleanup that is not shielded, nor while the daemon is asked why the run stops.
pub record IsOrderly (world : World) : Type 0 where
  pub steps_judged : (k : ℕ) → (world.turns k).verdict ≢ crashed
  pub cleanup_judged : (k : ℕ) → (world.finally_turns k).verdict ≢ crashed
  pub not_met : (k : ℕ) → (world.finally_turns k).torn_here ≡ false
  pub session_not_met : world.session_torn ≡ false
  pub why_known : torn_why world.why ≡ false

-- Neither a crash nor a cancellation meets these turns of the cleanup.
abbrev AllRecord : (ℕ → FinallyTurn) → Type 0
AllRecord turns = ((k : ℕ) → (turns k).verdict ≢ crashed) × ((k : ℕ) → (turns k).torn_here ≡ false)

abbrev IsRecorded : Stepped × RecipeRunner → Type 0
IsRecorded (recorded r, z) = Unit
IsRecorded (torn, z) = ⊥
IsRecorded (escaped, z) = ⊥

run_assert-IsRecorded :
    (step : PlannedStep) (v : Judgement) (s : RecipeRunner)
    → v ≢ crashed
    → IsRecorded (run_assert step v s)
unfolding run_assert
run_assert-IsRecorded step (judged true) s n = tt
run_assert-IsRecorded step (judged false) s n = tt
run_assert-IsRecorded step (unjudged e) s n = tt
run_assert-IsRecorded step crashed s n = absurd (n refl)

finally_record-IsRecorded :
    (k : StepKind) (step : PlannedStep) (w : FinallyTurn) (s : RecipeRunner)
    → w.verdict ≢ crashed
    → w.torn_here ≡ false
    → IsRecorded (finally_record k step w s)
finally_record-IsRecorded assert_step step w s n t = run_assert-IsRecorded step w.verdict s n
finally_record-IsRecorded wait_step step w s n t = rw t tt
finally_record-IsRecorded action_step step w s n t = rw t tt
finally_record-IsRecorded mark_step step w s n t = rw t tt
finally_record-IsRecorded note_step step w s n t = rw t tt
finally_record-IsRecorded repeat_step step w s n t = rw t tt

run_each_done :
    (turns : ℕ → FinallyTurn) (k : ℕ) (steps : List PlannedStep) (s : RecipeRunner)
    → AllRecord turns
    → (run_each turns k steps s).0 ≡ cleanup_done
unfolding run_each
run_each_done turns k [] s h = refl
run_each_done turns k (step ∷ steps) s h =
    tried _
      (finally_record-IsRecorded step.kind step (turns k)
        (announce step (cancel_if (turns k).cancel_before s)) (h.0 k) (h.1 k))
      (λ z. run_each_done turns (k + 1) steps z h)
  where
    tried :
        (o : Stepped × RecipeRunner)
        → IsRecorded o
        → ((z : RecipeRunner) → (run_each turns (k + 1) steps z).0 ≡ cleanup_done)
        → (after_finally o (run_each turns (k + 1) steps)).0 ≡ cleanup_done
    tried (recorded r, z) i later = later (append_finally r z)
    tried (torn, z) i later = absurd i
    tried (escaped, z) i later = absurd i

-- A cleanup that is complete.
abbrev IsComplete : ExecutionPlan → CleanupEnd × RecipeRunner → Type 0
IsComplete plan o =
    (o.0 ≡ cleanup_done)
    × (o.1.finally_ran ≡ true)
    × (map (λ r. r.step) o.1.finally_records ≡ plan.finally_steps)

cleanup-IsComplete :
    (plan : ExecutionPlan) (world : World) (s : RecipeRunner)
    → AllRecord world.finally_turns
    → world.session_torn ≡ false
    → s.finally_records ≡ []
    → IsComplete plan (cleanup plan world s)
unfolding cleanup run_finally
cleanup-IsComplete plan world s h t fresh =
    tried (run_each world.finally_turns 0 plan.finally_steps s)
      (run_each-Attempted world.finally_turns 0 plan.finally_steps s)
      (run_each_done world.finally_turns 0 plan.finally_steps s h)
  where
    closed :
        (met opened : Bool) (c : Result (Unit {0})) (z : RecipeRunner)
        → met ≡ false
        → z.session_opened_here ≡ opened
        → z.finally_ran ≡ true
        → map (λ r. r.step) z.finally_records ≡ plan.finally_steps
        → IsComplete plan (close_session met c z)
    closed met true (ok tt) z m e r a = rw m (rw e (refl, r, a))
    closed met true (err x) z m e r a = rw m (rw e (refl, r, a))
    closed met false c z m e r a = rw e (refl, r, a)

    tried :
        (o : CleanupEnd × RecipeRunner)
        → Attempted plan.finally_steps s o
        → o.0 ≡ cleanup_done
        → IsComplete plan (then_close world (note_ran o))
    tried (cleanup_done, z) a e =
        closed world.session_torn _ world.session_closed (record z { finally_ran = true }) t refl
          refl (a.records ∙ ap (λ xs. map (λ r. r.step) xs ++ a.kept) fresh ∙ a.reaches.0)
    tried (cleanup_torn, z) a e = absurd (let f : cleanup_torn ≡ cleanup_done = e in cc)
    tried (cleanup_escaped, z) a e = absurd (let f : cleanup_escaped ≡ cleanup_done = e in cc)

classify_stop-SameCleanup :
    (why : StatusAnswer) (s : RecipeRunner) → SameCleanup s (classify_stop why s)
unfolding classify_stop
classify_stop-SameCleanup (says true) s = ground arith
classify_stop-SameCleanup (says false) s = ground arith
classify_stop-SameCleanup (fails e) s = ground arith
classify_stop-SameCleanup status_torn_down s = ground arith

verdict_of-finished : (s : RecipeRunner) → finished (verdict_of s) ≡ true
verdict_of-finished s = ground arith

-- A complete cleanup comes to the run's end, in the open and in a task of its own.
cleaned_cleans :
    (plan : ExecutionPlan) (o : CleanupEnd × RecipeRunner)
    → IsComplete plan o
    → IsCleaned plan (cleaned o)
unfolding finish_state
cleaned_cleans plan (cleanup_done, z) (e, r, a) = record {
  ends = inl refl;
  is_over = verdict_of-finished z;
  ran = r;
  attempted = a;
}
cleaned_cleans plan (cleanup_torn, z) (e, r, a) =
    absurd (let f : cleanup_torn ≡ cleanup_done = e in cc)
cleaned_cleans plan (cleanup_escaped, z) (e, r, a) =
    absurd (let f : cleanup_escaped ≡ cleanup_done = e in cc)

shielded_cleans :
    (plan : ExecutionPlan) (why : StatusAnswer) (o : CleanupEnd × RecipeRunner)
    → IsComplete plan o
    → IsCleaned plan (cleaned_shielded why o)
unfolding finish_state
shielded_cleans plan why (cleanup_done, z) (e, r, a) =
    let c = classify_stop-SameCleanup why z in
    record {
      ends = inr refl;
      is_over = verdict_of-finished (classify_stop why z);
      ran = c.1 ∙ r;
      attempted = ap (map (λ r. r.step)) c.0 ∙ a;
    }
shielded_cleans plan why (cleanup_torn, z) (e, r, a) =
    absurd (let f : cleanup_torn ≡ cleanup_done = e in cc)
shielded_cleans plan why (cleanup_escaped, z) (e, r, a) =
    absurd (let f : cleanup_escaped ≡ cleanup_done = e in cc)

-- Nothing but the cleanup is left to do when the question why the run stops is not torn down.
completed_known :
    (plan : ExecutionPlan) (world : World) (s : RecipeRunner)
    → torn_why world.why ≡ false
    → completed plan world s ≡ cleaned (cleanup plan world (classify_stop world.why s))
completed_known plan world s known = ground arith

-- Where no exception but a FieldDeckError leaves an assertion, and the task is not cancelled in a
-- cleanup that is not shielded or while the daemon is asked why the run stops, every run of a new
-- runner that gets past its preflight comes to its report, or to the cancellation that it was asked
-- for, in a final state and with every cleanup step attempted in order, whichever steps failed,
-- raised a FieldDeckError or were torn down.
pub run_started-IsCleaned :
    (plan : ExecutionPlan) (world : World) (s : RecipeRunner)
    → s.finally_records ≡ []
    → IsOrderly world
    → IsCleaned plan (run_started plan world s)
unfolding run_started
run_started-IsCleaned plan world s fresh orderly =
    let s' : RecipeRunner = record s { state = running } in
    ended (run_steps world.deadline_ns world.turns 0 plan.steps s')
      ((run_steps-SameCleanup world.deadline_ns world.turns 0 plan.steps s').0 ∙ fresh)
      (run_steps_not_escaped world.deadline_ns world.turns 0 plan.steps s' orderly.steps_judged)
  where
    open_cleanup :
        (z : RecipeRunner)
        → z.finally_records ≡ []
        → IsCleaned plan (cleaned (cleanup plan world z))
    open_cleanup z f = cleaned_cleans plan (cleanup plan world z) (
        cleanup-IsComplete plan world z (orderly.cleanup_judged, orderly.not_met)
          orderly.session_not_met f)

    ended :
        (o : LoopEnd × RecipeRunner)
        → o.1.finally_records ≡ []
        → o.0 ≢ loop_escaped
        → IsCleaned plan (after_loop plan world o)
    ended (loop_done, z) f n =
        let z' = cancel_if world.cancel_last z in
        subst (IsCleaned plan) (sym (completed_known plan world z' orderly.why_known)) (
          open_cleanup (classify_stop world.why z') (
            (classify_stop-SameCleanup world.why z').0
            ∙ (cancel_if-SameCleanup world.cancel_last z).0
            ∙ f))
    ended (loop_broke e, z) f n = open_cleanup _ f
    ended (loop_torn, z) f n =
        shielded_cleans plan world.why _
          (cleanup-IsComplete plan (shielded world) _ (orderly.cleanup_judged, λ k. refl) refl f)
    ended (loop_escaped, z) f n = absurd (n refl)
