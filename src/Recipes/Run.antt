-- ===== src/Recipes/Run.antt =====
-- fielddeck/recipes/runner.py: RecipeRunner.run: the step loop, the classification of a stop, the
-- cleanup and the verdict.
mod Steps
pub mod Order
mod Untouched
pub mod Attempts
mod Crash
pub mod Quiet
pub mod Cleanup
mod Kept
pub mod Verdict
use field_deck.Prelude.{
  ℕ, ◌+◌, String, Bool, true, false, not, ◌&&◌, ◌||◌, Option, none, some, List, [], ◌∷◌, ◌++◌, any,
  if◌then◌else◌, ltb,
}
use field_deck.Common.Errors.{ErrorCode, Result, ok, err}
use field_deck.Recipes.Plan.{ExecutionPlan, PlannedStep, StepKind, wait_step, assert_step}
use field_deck.Recipes.Preflight.{PreflightWorld, preflight}
use field_deck.Recipes.Runner.{
  RecipeRunner, RecipeState, pending, running, cancelling, failed, passed, aborted, StepRecord,
  done, skipped, Reason, run_cancelled, emergency_stop, error_message, Failure, raised, Turn,
  StatusAnswer, says, fails, status_torn_down, Permit, go, halt, tear, Stepped, recorded, torn,
  escaped, Judgement, announce, send, is_done, record_step, first_of, cancel_if, call_ended,
  run_assert, may_continue, execute,
}

-- What the world does in one round of the cleanup.
pub record FinallyTurn : Type 0 where
  pub cancel_before : Bool
  pub call : Result (Option String)
  pub verdict : Judgement
  -- Whether the task is cancelled at the step's await, in a cleanup that is not shielded.
  pub torn_here : Bool

pub record World : Type 0 where
  pub deadline_ns : ℕ
  pub turns : ℕ → Turn
  -- Whether `cancel` is called between the last step and the question why the run stops.
  pub cancel_last : Bool
  pub why : StatusAnswer
  pub finally_turns : ℕ → FinallyTurn
  pub session_closed : Result (Unit {0})
  -- Whether the task is cancelled while it waits for that, in a cleanup that is not shielded.
  pub session_torn : Bool

pub data LoopEnd : Type 0 where
  loop_done loop_torn loop_escaped : LoopEnd
  loop_broke : ErrorCode → LoopEnd

abbrev append_record : StepRecord → RecipeRunner → RecipeRunner
append_record r s = record s { steps = s.steps ++ r ∷ [] }

abbrev pub after_step :
    Stepped × RecipeRunner → (RecipeRunner → LoopEnd × RecipeRunner) → LoopEnd × RecipeRunner
after_step (torn, s) rest = (loop_torn, s)
after_step (escaped, s) rest = (loop_escaped, s)
after_step (recorded r, s) rest =
    let later = rest (append_record r s) in
    if is_done r.outcome then later else (loop_done, append_record r s)

abbrev pub announced_step :
    Result (Unit {0})
    → PlannedStep
    → Turn
    → RecipeRunner
    → (RecipeRunner → LoopEnd × RecipeRunner)
    → LoopEnd × RecipeRunner
announced_step (err e) step w s rest = (loop_broke e, s)
announced_step (ok tt) step w s rest = after_step (execute step w s) rest

abbrev pub after_permit :
    Permit × RecipeRunner
    → PlannedStep
    → Turn
    → (RecipeRunner → LoopEnd × RecipeRunner)
    → LoopEnd × RecipeRunner
after_permit (tear, s) step w rest = (loop_torn, s)
after_permit (halt, s) step w rest = (loop_done, append_record (record_step step skipped none) s)
after_permit (go, s) step w rest = announced_step w.announced step w s rest

-- `_run_steps`, whose world answers by the number of the round.
unfoldable pub run_steps :
    ℕ → (ℕ → Turn) → ℕ → List PlannedStep → RecipeRunner → LoopEnd × RecipeRunner
unfolding may_continue execute
run_steps deadline_ns turns k [] s = (loop_done, s)
run_steps deadline_ns turns k (step ∷ steps) s =
    after_permit (may_continue deadline_ns (turns k) s) step (turns k)
      (run_steps deadline_ns turns (k + 1) steps)

-- How a cleanup ends: with all of its steps, by a cancellation, or by an exception that is no
-- FieldDeckError.
pub data CleanupEnd : Type 0 where
  cleanup_done cleanup_torn cleanup_escaped : CleanupEnd

abbrev pub unless_torn : Bool → StepRecord × RecipeRunner → RecipeRunner → Stepped × RecipeRunner
unless_torn true (r, z) s = (torn, s)
unless_torn false (r, z) s = (recorded r, z)

-- One step of the cleanup. Its calls are not raced against the stop.
abbrev pub finally_record :
    StepKind → PlannedStep → FinallyTurn → RecipeRunner → Stepped × RecipeRunner
finally_record assert_step step w s = run_assert step w.verdict s
finally_record wait_step step w s = unless_torn w.torn_here (record_step step done none, s) s
finally_record _ step w s =
    unless_torn w.torn_here (call_ended step w.call (send step s)) (send step s)

abbrev pub append_finally : StepRecord → RecipeRunner → RecipeRunner
append_finally r s = record s { finally_records = s.finally_records ++ r ∷ [] }

abbrev pub after_finally :
    Stepped × RecipeRunner → (RecipeRunner → CleanupEnd × RecipeRunner) → CleanupEnd × RecipeRunner
after_finally (recorded r, s) rest = rest (append_finally r s)
after_finally (torn, s) rest = (cleanup_torn, s)
after_finally (escaped, s) rest = (cleanup_escaped, s)

unfoldable pub run_each :
    (ℕ → FinallyTurn) → ℕ → List PlannedStep → RecipeRunner → CleanupEnd × RecipeRunner
unfolding run_assert
run_each turns k [] s = (cleanup_done, s)
run_each turns k (step ∷ steps) s =
    after_finally
      (finally_record step.kind step (turns k)
        (announce step (cancel_if (turns k).cancel_before s)))
      (run_each turns (k + 1) steps)

abbrev pub note_ran : CleanupEnd × RecipeRunner → CleanupEnd × RecipeRunner
note_ran (cleanup_done, s) = (cleanup_done, record s { finally_ran = true })
note_ran (cleanup_torn, s) = (cleanup_torn, s)
note_ran (cleanup_escaped, s) = (cleanup_escaped, s)

-- `_run_finally`
unfoldable pub run_finally :
    (ℕ → FinallyTurn) → List PlannedStep → RecipeRunner → CleanupEnd × RecipeRunner
unfolding run_each
run_finally turns steps s = note_ran (run_each turns 0 steps s)

abbrev pub session_end : Result (Unit {0}) → RecipeRunner → RecipeRunner
session_end (ok tt) s = s
session_end (err e) s = record s { warnings = s.warnings + 1 }

-- `_close_session`
abbrev pub close_session : Bool → Result (Unit {0}) → RecipeRunner → CleanupEnd × RecipeRunner
close_session met closed s =
    if s.session_opened_here
    then if met then (cleanup_torn, s) else (cleanup_done, session_end closed s)
    else (cleanup_done, s)

abbrev pub then_close : World → CleanupEnd × RecipeRunner → CleanupEnd × RecipeRunner
then_close world (cleanup_done, s) = close_session world.session_torn world.session_closed s
then_close world (cleanup_torn, s) = (cleanup_torn, s)
then_close world (cleanup_escaped, s) = (cleanup_escaped, s)

-- `_cleanup`
unfoldable pub cleanup : ExecutionPlan → World → RecipeRunner → CleanupEnd × RecipeRunner
unfolding run_finally
cleanup plan world s = then_close world (run_finally world.finally_turns plan.finally_steps s)

-- A cleanup in a task of its own, which no cancellation of the run meets.
abbrev pub shielded : World → World
shielded world = record world {
  finally_turns = λ k. record (world.finally_turns k) { torn_here = false };
  session_torn = false;
}

abbrev attribute : StatusAnswer → RecipeRunner → RecipeRunner
attribute (says true) s = record s { estop = true; reason = some emergency_stop }
attribute _ s = s

abbrev pub asks_why : RecipeRunner → Bool
asks_why s = s.stop && not s.estop

-- `_classify_stop`, where the task is not cancelled in it.
unfoldable pub classify_stop : StatusAnswer → RecipeRunner → RecipeRunner
classify_stop why s = if asks_why s then attribute why s else s

abbrev pub is_some {ℓ} : {A : Type ℓ} → Option A → Bool
is_some none = false
is_some (some a) = true

abbrev pub verdict_of : RecipeRunner → RecipeState
verdict_of s =
    if s.estop || s.was_cancelled
    then aborted
    else if ltb 0 s.assertions_failed
        || (is_some s.failure || any (λ r. not (is_done r.outcome)) s.steps)
    then failed
    else passed

-- `_finish_state`
unfoldable pub finish_state : RecipeRunner → RecipeRunner
finish_state s = record s { state = verdict_of s }

-- How `run` comes to its end: with a report; with the cancellation that it was asked for, after the
-- cleanup; with a cancellation that the cleanup met; with an exception that is no FieldDeckError; or
-- before the first step.
pub data Ending : Type 0 where
  reported cancelled_cleaned cancelled_uncleaned broken : Ending
  refused : ErrorCode → Ending

abbrev pub torn_why : StatusAnswer → Bool
torn_why status_torn_down = true
torn_why _ = false

-- What follows a cleanup that is not shielded.
abbrev pub cleaned : CleanupEnd × RecipeRunner → Ending × RecipeRunner
cleaned (cleanup_done, s) = (reported, finish_state s)
cleaned (cleanup_torn, s) = (cancelled_uncleaned, s)
cleaned (cleanup_escaped, s) = (broken, s)

-- What follows one that is.
abbrev pub cleaned_shielded : StatusAnswer → CleanupEnd × RecipeRunner → Ending × RecipeRunner
cleaned_shielded why (cleanup_escaped, s) = (broken, s)
cleaned_shielded why (_, s) = (cancelled_cleaned, finish_state (classify_stop why s))

-- The branch after a step loop that was not torn down, which asks why first.
abbrev pub completed : ExecutionPlan → World → RecipeRunner → Ending × RecipeRunner
completed plan world s =
    if asks_why s && torn_why world.why
    then (cancelled_uncleaned, s)
    else cleaned (cleanup plan world (classify_stop world.why s))

-- The ends of the step loop. A cleanup after a cancellation is shielded: it runs on in a task of its
-- own, whose end is not waited for longer than a limit. After an exception that is no FieldDeckError
-- there is none.
abbrev pub after_loop : ExecutionPlan → World → LoopEnd × RecipeRunner → Ending × RecipeRunner
after_loop plan world (loop_done, s) = completed plan world (cancel_if world.cancel_last s)
after_loop plan world (loop_broke e, s) = cleaned (
    cleanup plan world (record s {
      failure = first_of s.failure (some (raised e));
      reason = first_of s.reason (some (error_message e));
      stop = true;
    }))
after_loop plan world (loop_torn, s) = cleaned_shielded world.why (
    cleanup plan (shielded world) (record s {
      was_cancelled = true;
      state = cancelling;
      reason = first_of s.reason (some run_cancelled);
      stop = true;
    }))
after_loop plan world (loop_escaped, s) = (broken, s)

-- `run`, from the first step on.
unfoldable pub run_started : ExecutionPlan → World → RecipeRunner → Ending × RecipeRunner
unfolding run_steps cleanup classify_stop finish_state
run_started plan world s =
    after_loop plan world
      (run_steps world.deadline_ns world.turns 0 plan.steps (record s { state = running }))

abbrev after_preflight :
    ExecutionPlan → Bool → World → Result (Unit {0}) × RecipeRunner → Ending × RecipeRunner
after_preflight plan dry_run world (err e, s) = (
  if dry_run then reported else refused e,
  record s {
    failure = some (raised e);
    reason = some (error_message e);
    state = if dry_run then pending else failed;
  },
)
after_preflight plan dry_run world (ok tt, s) =
    let started = run_started plan world s in
    if dry_run then (reported, record s { state = pending }) else started

abbrev after_cancel : Bool → Result (Unit {0}) × RecipeRunner → Result (Unit {0}) × RecipeRunner
after_cancel c (r, s) = (r, cancel_if c s)

-- RecipeRunner.run
unfoldable pub run :
    ExecutionPlan → Bool → Bool → PreflightWorld → World → RecipeRunner → Ending × RecipeRunner
unfolding preflight run_started
run plan open_session dry_run w world s = after_preflight plan dry_run world (
    after_cancel w.cancelled
      (preflight plan open_session dry_run w (record s { state = RecipeState.preflight })))
