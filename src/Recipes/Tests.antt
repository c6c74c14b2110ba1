-- ===== src/Recipes/Tests.antt =====
-- Concrete recipes, on which the theorems about the runner are applied.
use field_deck.Prelude.{ℕ, ◌==◌, true, false, none, some, [], ◌∷◌, ◌≡◌, refl, All}
use field_deck.Common.Errors.{ok}
use field_deck.Common.Permission.{power, passive, fdctl}
use field_deck.Safety.Grant.{default_scope}
use field_deck.Safety.Arm
use field_deck.Safety.Arm.{ArmRegistry}
use field_deck.Recipes.Plan.{ExecutionPlan, PlannedStep, action_step, wait_step, assert_step}
use field_deck.Recipes.Runner.{fresh_runner, Turn, says, in_time, elapsed, judged, crashed}
use field_deck.Recipes.Preflight.{SafetyStatus, check_authorization}
use field_deck.Recipes.Preflight.Covered.{IsCovered, check_authorization-IsCovered}
use field_deck.Recipes.Run.{
  World, FinallyTurn, run_steps, run_each, run_started, broken, cleanup_torn,
}
use field_deck.Recipes.Run.Order.{Ran, run_steps-Ran}
use field_deck.Recipes.Run.Cleanup.{IsCleaned, IsOrderly, run_started-IsCleaned}
use field_deck.Recipes.Run.Attempts.{Attempted, run_each-Attempted}

abbrev power_on : PlannedStep
power_on = record {
  index = 0;
  kind = action_step;
  action = some "psu.output_on";
  device_id = some "psu";
  permission = power;
  message = none;
}

abbrev settle_time : PlannedStep
settle_time = record power_on { index = 1; kind = wait_step; action = none; permission = passive }

abbrev power_off : PlannedStep
power_off = record power_on { index = 2; action = some "psu.output_off" }

abbrev brief_plan : ExecutionPlan
brief_plan = record {
  steps = power_on ∷ settle_time ∷ [];
  finally_steps = power_off ∷ settle_time ∷ [];
  permissions_required = power ∷ [];
  problems = [];
  estimated_duration_ns = 500;
}

abbrev calm_turn : ℕ → Turn
calm_turn k = record {
  cancel_before = false;
  now_ns = k;
  status = says false;
  announced = ok tt;
  action_answer = in_time (ok (some "lease"));
  wait_answer = elapsed;
  verdict = judged true;
}

abbrev calm_world : World
calm_world = record {
  deadline_ns = 100;
  turns = calm_turn;
  cancel_last = false;
  why = says false;
  finally_turns = λ k. record {
    cancel_before = false;
    call = ok none;
    verdict = judged true;
    torn_here = false;
  };
  session_closed = ok tt;
  session_torn = false;
}

-- The first assertion of the run raises a TypeError.
abbrev crashing_world : World
crashing_world = record calm_world { turns = λ k. record (calm_turn k) { verdict = crashed } }

abbrev stopped_world : World
stopped_world = record calm_world { turns = λ k. record (calm_turn k) { status = says true } }

run_steps-Ran_example :
    Ran 100 calm_turn 0 brief_plan.steps fresh_runner
      (run_steps 100 calm_turn 0 brief_plan.steps fresh_runner)
run_steps-Ran_example = run_steps-Ran 100 calm_turn 0 brief_plan.steps fresh_runner

-- Turns that are all alike are orderly where one of them is.
stopped-IsOrderly : IsOrderly stopped_world
stopped-IsOrderly = record {
  steps_judged = λ k e. cc;
  cleanup_judged = λ k e. cc;
  not_met = λ k. refl;
  session_not_met = refl;
  why_known = refl;
}

run_started-IsCleaned_example :
    IsCleaned brief_plan (run_started brief_plan stopped_world fresh_runner)
run_started-IsCleaned_example =
    run_started-IsCleaned brief_plan stopped_world fresh_runner refl stopped-IsOrderly

abbrev is_positive_voltage : PlannedStep
is_positive_voltage = record settle_time { index = 3; kind = assert_step }

abbrev checked_plan : ExecutionPlan
checked_plan = record brief_plan { steps = power_on ∷ is_positive_voltage ∷ [] }

-- An assertion that raises a TypeError ends the run without its cleanup.
crashed_uncleaned :
    ((run_started checked_plan crashing_world fresh_runner).0 ≡ broken)
    × ((run_started checked_plan crashing_world fresh_runner).1.finally_records ≡ [])
    × ((run_started checked_plan crashing_world fresh_runner).1.sent ≡ power_on ∷ [])
unfolding run_started
crashed_uncleaned = (refl, refl, refl)

-- The task is cancelled in the second step of the cleanup.
abbrev cut_turn : ℕ → FinallyTurn
cut_turn k = record {
  cancel_before = false;
  call = ok none;
  verdict = judged true;
  torn_here = k == 1;
}

run_each-Attempted_example :
    Attempted brief_plan.finally_steps fresh_runner
      (run_each cut_turn 0 brief_plan.finally_steps fresh_runner)
run_each-Attempted_example = run_each-Attempted cut_turn 0 brief_plan.finally_steps fresh_runner

cut_uncleaned : (run_each cut_turn 0 brief_plan.finally_steps fresh_runner).0 ≡ cleanup_torn
unfolding run_each
cut_uncleaned = refl

abbrev armed_grants : ArmRegistry
armed_grants =
    (
      "arm_1",
      record {
        grant_id = "arm_1";
        permission = power;
        scope = default_scope;
        created_by = fdctl;
        created_monotonic_ns = 0;
        expires_monotonic_ns = 600;
        ttl_ns = 600;
        revoked = false;
      },
    )
    ∷ []

abbrev armed_status : SafetyStatus
armed_status = record {
  estop_is_latched = false;
  grants = Arm.active 10 armed_grants;
  remaining_ns = ("arm_1", 590) ∷ [];
}

check_authorization-IsCovered_example :
    All (IsCovered 10 armed_grants) (power_on ∷ settle_time ∷ power_off ∷ settle_time ∷ [])
unfolding check_authorization Arm.active
check_authorization-IsCovered_example =
    check_authorization-IsCovered brief_plan armed_status 10 armed_grants [] (λ e. cc) refl refl
