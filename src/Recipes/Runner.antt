-- ===== src/Recipes/Runner.antt =====
-- fielddeck/recipes/runner.py: the state of RecipeRunner, and one step of a recipe. The answers of
-- the daemon, the verdicts of assertions, the clock and the calls of `cancel` are arguments; events,
-- durations, payloads and the namespace that only assertions read are left out, but for the steps that
-- were announced and the steps whose calls were sent.
use field_deck.Prelude.{
  ℕ, ◌+◌, String, Bool, true, false, ◌||◌, Option, none, some, List, [], ◌∷◌, ◌++◌, if◌then◌else◌,
  ltb,
}
use field_deck.Common.Errors.{
  ErrorCode, Result, ok, err, estop_active, device_not_found, device_disconnected, action_cancelled,
  transport_error,
}
use field_deck.Recipes.Plan.{PlannedStep, StepKind, wait_step, assert_step}

pub data RecipeState : Type 0 where
  pending preflight running cancelling failed passed aborted : RecipeState

-- RecipeState.finished
abbrev pub finished : RecipeState → Bool
finished failed = true
finished passed = true
finished aborted = true
finished _ = false

pub data StepOutcome : Type 0 where
  done failing skipped cancelled : StepOutcome

-- `outcome is StepOutcome.OK`
abbrev pub is_done : StepOutcome → Bool
is_done done = true
is_done _ = false

pub record StepRecord : Type 0 where
  pub step : PlannedStep
  pub outcome : StepOutcome
  pub error : Option ErrorCode

-- What a report gives as the reason of a stop, instead of its text.
pub data Reason : Type 0 where
  operator_request past_deadline lost_contact emergency_stop run_cancelled : Reason
  interrupted_by error_message : ErrorCode → Reason
  step_message : String → Reason

pub data Failure : Type 0 where
  raised : ErrorCode → Failure
  assertion_failed : Failure

pub record RecipeRunner : Type 0 where
  pub state : RecipeState
  -- Whether the stop event is set.
  pub stop : Bool
  pub steps : List StepRecord
  pub finally_records : List StepRecord
  -- The steps of the RECIPE_STEP_STARTED events, and those whose calls went to the daemon.
  pub started : List PlannedStep
  pub sent : List PlannedStep
  pub leases : List String
  pub failure : Option Failure
  pub reason : Option Reason
  pub estop : Bool
  pub was_cancelled : Bool
  pub finally_ran : Bool
  pub session_opened_here : Bool
  pub assertions_passed : ℕ
  pub assertions_failed : ℕ
  pub warnings : ℕ

-- RecipeRunner.__init__
abbrev pub fresh_runner : RecipeRunner
fresh_runner = record {
  state = pending;
  stop = false;
  steps = [];
  finally_records = [];
  started = [];
  sent = [];
  leases = [];
  failure = none;
  reason = none;
  estop = false;
  was_cancelled = false;
  finally_ran = false;
  session_opened_here = false;
  assertions_passed = 0;
  assertions_failed = 0;
  warnings = 0;
}

-- Python's `first or second` on optional values.
abbrev pub first_of {ℓ} : {A : Type ℓ} → Option A → Option A → Option A
first_of none b = b
first_of (some a) b = some a

-- RecipeRunner.cancel
unfoldable pub cancel : RecipeRunner → RecipeRunner
cancel s = if finished s.state then s else record s {
  was_cancelled = true;
  reason = first_of s.reason (some operator_request);
  state = cancelling;
  stop = true;
}

abbrev pub cancel_if : Bool → RecipeRunner → RecipeRunner
cancel_if true s = cancel s
cancel_if false s = s

-- _ABORT_REASONS
abbrev pub is_abort : ErrorCode → Bool
is_abort estop_active = true
is_abort device_not_found = true
is_abort device_disconnected = true
is_abort action_cancelled = true
is_abort transport_error = true
is_abort _ = false

abbrev is_cancellation : ErrorCode → Bool
is_cancellation action_cancelled = true
is_cancellation _ = false

abbrev is_estop : ErrorCode → Bool
is_estop estop_active = true
is_estop _ = false

-- `_record_step`
abbrev pub record_step : PlannedStep → StepOutcome → Option ErrorCode → StepRecord
record_step step outcome error = record { step = step; outcome = outcome; error = error }

-- What an error of the daemon does to the run, beyond failing the step.
abbrev pub note_error : ErrorCode → RecipeRunner → RecipeRunner
note_error e s =
    if is_abort e
    then record s {
      reason = first_of s.reason (some (interrupted_by e));
      was_cancelled = s.was_cancelled || is_cancellation e;
      estop = s.estop || is_estop e;
      stop = true;
    }
    else s

abbrev hold_lease : Option String → RecipeRunner → RecipeRunner
hold_lease none s = s
hold_lease (some i) s = record s { leases = s.leases ++ i ∷ [] }

-- The end of `_run_action`: the call's result, with the lease that it names.
abbrev pub call_ended :
    PlannedStep → Result (Option String) → RecipeRunner → StepRecord × RecipeRunner
call_ended step (ok lease) s = (record_step step done none, hold_lease lease s)
call_ended step (err e) s = (record_step step failing (some e), note_error e s)

-- How a call of the daemon comes out: before any stop, within the grace period after one, not at all
-- after one, or with the whole task torn down.
pub data ActionAnswer : Type 0 where
  in_time after_stop : Result (Option String) → ActionAnswer
  abandoned torn_down : ActionAnswer

pub data WaitAnswer : Type 0 where
  elapsed interrupted wait_torn_down : WaitAnswer

-- A step that comes to its record, the task that is cancelled in it, or an exception that leaves it
-- which is no FieldDeckError.
pub data Stepped : Type 0 where
  recorded : StepRecord → Stepped
  torn escaped : Stepped

-- RECIPE_STEP_STARTED
abbrev pub announce : PlannedStep → RecipeRunner → RecipeRunner
announce step s = record s { started = s.started ++ step ∷ [] }

-- The call of the daemon, as it goes out.
abbrev pub send : PlannedStep → RecipeRunner → RecipeRunner
send step s = record s { sent = s.sent ++ step ∷ [] }

-- How an assertion comes out: with a verdict, with a RecipeError, or with another exception, such as
-- the TypeError of a membership test.
pub data Judgement : Type 0 where
  judged : Bool → Judgement
  unjudged : ErrorCode → Judgement
  crashed : Judgement

abbrev pub as_recorded : StepRecord × RecipeRunner → Stepped × RecipeRunner
as_recorded (r, s) = (recorded r, s)

-- `_run_action`, for a step that a stop interrupts.
unfoldable pub run_action : PlannedStep → ActionAnswer → RecipeRunner → Stepped × RecipeRunner
run_action step (in_time r) s = as_recorded (call_ended step r s)
run_action step (after_stop r) s = as_recorded (call_ended step r (cancel s))
run_action step abandoned s =
    (recorded (record_step step cancelled (some action_cancelled)), cancel s)
run_action step torn_down s = (torn, s)

-- `_run_wait`
unfoldable pub run_wait : PlannedStep → WaitAnswer → RecipeRunner → Stepped × RecipeRunner
run_wait step elapsed s = (recorded (record_step step done none), s)
run_wait step interrupted s = (recorded (record_step step cancelled none), cancel s)
run_wait step wait_torn_down s = (torn, s)

-- `_run_assert`, which awaits nothing.
unfoldable pub run_assert : PlannedStep → Judgement → RecipeRunner → Stepped × RecipeRunner
run_assert step (judged true) s = (
  recorded (record_step step done none),
  record s { assertions_passed = s.assertions_passed + 1 },
)
run_assert step (judged false) s = (
  recorded (record_step step failing none),
  record s { assertions_failed = s.assertions_failed + 1 },
)
run_assert step (unjudged e) s = (
  recorded (record_step step failing (some e)),
  record s { assertions_failed = s.assertions_failed + 1 },
)
run_assert step crashed s = (escaped, s)

-- The answer to `safety.status`: whether a stop is latched, an error, or the task torn down.
pub data StatusAnswer : Type 0 where
  says : Bool → StatusAnswer
  fails : ErrorCode → StatusAnswer
  status_torn_down : StatusAnswer

-- What the world does in one round of the step loop.
pub record Turn : Type 0 where
  pub cancel_before : Bool
  pub now_ns : ℕ
  pub status : StatusAnswer
  -- The announcement of the step, which fails where the event's consumer raises.
  pub announced : Result (Unit {0})
  pub action_answer : ActionAnswer
  pub wait_answer : WaitAnswer
  pub verdict : Judgement

pub data Permit : Type 0 where
  go halt tear : Permit

abbrev ask_status : StatusAnswer → RecipeRunner → Permit × RecipeRunner
ask_status (says false) s = (go, s)
ask_status (says true) s =
    (halt, record s { estop = true; reason = some emergency_stop; stop = true })
ask_status (fails e) s =
    (halt, record s { reason = some lost_contact; failure = some (raised e); stop = true })
ask_status status_torn_down s = (tear, s)

abbrev look : ℕ → Turn → RecipeRunner → Permit × RecipeRunner
look deadline_ns w s =
    if s.stop
    then (halt, s)
    else if ltb deadline_ns w.now_ns
    then (halt, record s { reason = some past_deadline; was_cancelled = true; stop = true })
    else ask_status w.status s

-- `_may_continue`
unfoldable pub may_continue : ℕ → Turn → RecipeRunner → Permit × RecipeRunner
unfolding cancel
may_continue deadline_ns w s = look deadline_ns w (cancel_if w.cancel_before s)

abbrev failure_of : Option ErrorCode → Failure
failure_of none = assertion_failed
failure_of (some e) = raised e

abbrev message_of : Option ErrorCode → Option String → Option Reason
message_of (some e) m = some (error_message e)
message_of none none = none
message_of none (some t) = some (step_message t)

-- The first step that fails gives the run its failure. Of an assertion's step only the message is
-- left in its record where there is no error.
abbrev note_failure : StepRecord → Option Failure → RecipeRunner → RecipeRunner
note_failure r (some f) s = s
note_failure r none s = record s {
  failure = some (failure_of r.error);
  reason = first_of s.reason (message_of r.error r.step.message);
}

abbrev pub after_outcome : StepOutcome → StepRecord → RecipeRunner → RecipeRunner
after_outcome failing r s = note_failure r s.failure s
after_outcome _ r s = s

abbrev pub settle : Stepped × RecipeRunner → Stepped × RecipeRunner
settle (recorded r, s) = (recorded r, after_outcome r.outcome r s)
settle (torn, s) = (torn, s)
settle (escaped, s) = (escaped, s)

-- A kind that is neither a wait nor an assertion is run as an action.
abbrev pub by_kind : StepKind → PlannedStep → Turn → RecipeRunner → Stepped × RecipeRunner
by_kind wait_step step w s = run_wait step w.wait_answer s
by_kind assert_step step w s = run_assert step w.verdict s
by_kind _ step w s = run_action step w.action_answer (send step s)

-- `_execute`
unfoldable pub execute : PlannedStep → Turn → RecipeRunner → Stepped × RecipeRunner
unfolding run_action run_wait run_assert
execute step w s = settle (by_kind step.kind step w (announce step s))
