-- ===== src/Recipes/Run/Steps.antt =====
-- fielddeck/recipes/runner.py: what one step of the step loop starts, sends and records.
use field_deck.Prelude.{
  ℕ, ◌+◌, true, false, List, [], ◌∷◌, ◌++◌, ltb, ◌≡◌, ◌≢◌, refl, sym, ◌⊎◌, arith, append-nil,
}
use field_deck.Common.Errors.{ok, err}
use field_deck.Recipes.Plan.{
  PlannedStep, StepKind, action_step, wait_step, assert_step, mark_step, note_step, repeat_step,
}
use field_deck.Recipes.Runner.{
  RecipeRunner, StepRecord, Turn, says, go, Stepped, recorded, torn, escaped, Judgement, judged,
  unjudged, crashed, announce, send, is_done, skipped, may_continue, execute, cancel, run_action,
  run_wait, run_assert, ActionAnswer, in_time, after_stop, abandoned, torn_down, WaitAnswer,
  elapsed, interrupted, wait_torn_down, by_kind, settle,
}
use field_deck.Recipes.Run.{LoopEnd, loop_done}

-- What lets a step start: the daemon has just said that no stop is latched, before the deadline.
pub record IsPermitted (deadline_ns : ℕ) (w : Turn) : Type 0 where
  pub no_stop : w.status ≡ says false
  pub in_time : ltb deadline_ns w.now_ns ≡ false

-- What the daemon, the clock or the assertion answers where a step of a kind is OK.
abbrev Succeeds : ActionAnswer → Type 0
Succeeds (in_time (ok lease)) = Unit
Succeeds (in_time (err e)) = ⊥
Succeeds (after_stop (ok lease)) = Unit
Succeeds (after_stop (err e)) = ⊥
Succeeds abandoned = ⊥
Succeeds torn_down = ⊥

abbrev pub AnswersWell : StepKind → Turn → Type 0
AnswersWell wait_step w = w.wait_answer ≡ elapsed
AnswersWell assert_step w = w.verdict ≡ judged true
AnswersWell _ w = Succeeds w.action_answer

-- The steps whose calls go to the daemon.
abbrev pub calls_of : StepKind → PlannedStep → List PlannedStep
calls_of wait_step step = []
calls_of assert_step step = []
calls_of _ step = step ∷ []

abbrev pub called : List PlannedStep → List PlannedStep
called [] = []
called (p ∷ ps) = calls_of p.kind p ++ called ps

-- The last step of a loop: not started, or started where it was permitted.
abbrev Started : ℕ → Turn → PlannedStep → List PlannedStep → Type 0
Started d w p begun = (begun ≡ []) ⊎ ((begun ≡ p ∷ []) × IsPermitted d w)

-- What comes of a step that is not OK: it was skipped and not started, or it was permitted and started.
abbrev IsStopped : ℕ → Turn → PlannedStep → StepRecord → List PlannedStep → Type 0
IsStopped d w p r begun =
    ((r.outcome ≡ skipped) × (begun ≡ [])) ⊎ ((begun ≡ p ∷ []) × IsPermitted d w)

-- The records of a step loop and the steps that it started, against the plan: the steps in order, each
-- started where it was permitted and with the answer that makes it OK, up to the first that is not OK,
-- which is the last; all of them where all are OK; and fewer only where the task was torn down, an
-- announcement failed or an exception left the loop.
abbrev pub Follows :
    ℕ → (ℕ → Turn) → ℕ → LoopEnd → List PlannedStep → List StepRecord → List PlannedStep → Type 0
Follows d turns k e [] [] begun = (e ≡ loop_done) × (begun ≡ [])
Follows d turns k e [] (r ∷ rs) begun = ⊥
Follows d turns k e (p ∷ ps) [] begun = (e ≢ loop_done) × Started d (turns k) p begun
Follows d turns k e (p ∷ ps) (r ∷ rs) begun =
    (r.step ≡ p)
    × (((is_done r.outcome ≡ true)
          × IsPermitted d (turns k)
          × AnswersWell p.kind (turns k)
          × ((more : List PlannedStep) × (begun ≡ p ∷ more) × Follows d turns (k + 1) e ps rs more))
        ⊎ ((is_done r.outcome ≡ false)
            × (rs ≡ [])
            × (e ≡ loop_done)
            × IsStopped d (turns k) p r begun))

-- What the question whether the run may go on leaves of the run's logs.
abbrev pub SameLogs : RecipeRunner → RecipeRunner → Type 0
SameLogs s z = (z.steps ≡ s.steps) × (z.started ≡ s.started) × (z.sent ≡ s.sent)

pub may_continue-SameLogs :
    (d : ℕ) (w : Turn) (s : RecipeRunner) → SameLogs s (may_continue d w s).1
unfolding may_continue cancel
may_continue-SameLogs d w s = (ground arith, ground arith, ground arith)

pub may_continue-go :
    (d : ℕ) (w : Turn) (s : RecipeRunner) → (may_continue d w s).0 ≡ go → IsPermitted d w
unfolding may_continue cancel
may_continue-go d w s h = record { no_stop = ground arith; in_time = ground arith }

-- What a step of a kind leaves of the logs before it, and what it takes to be OK.
abbrev pub Logged :
    PlannedStep → List PlannedStep → Type 0 → RecipeRunner → Stepped × RecipeRunner → Type 0
Logged step calls well s (recorded r, z) =
    (r.step ≡ step)
    × (is_done r.outcome ≡ true → well)
    × (z.steps ≡ s.steps)
    × (z.started ≡ s.started)
    × (z.sent ≡ s.sent ++ calls)
Logged step calls well s (_, z) =
    (z.steps ≡ s.steps) × (z.started ≡ s.started) × (z.sent ≡ s.sent ++ calls)

run_action-Logged :
    (step : PlannedStep) (a : ActionAnswer) (s : RecipeRunner)
    → Logged step (step ∷ []) (Succeeds a) s (run_action step a (send step s))
unfolding run_action cancel
run_action-Logged step (in_time (ok lease)) s =
    (ground arith, λ h. tt, ground arith, ground arith, ground arith)
run_action-Logged step (in_time (err e)) s =
    (refl, λ h. absurd (let f : false ≡ true = h in cc), ground arith, ground arith, ground arith)
run_action-Logged step (after_stop (ok lease)) s =
    (ground arith, λ h. tt, ground arith, ground arith, ground arith)
run_action-Logged step (after_stop (err e)) s =
    (refl, λ h. absurd (let f : false ≡ true = h in cc), ground arith, ground arith, ground arith)
run_action-Logged step abandoned s =
    (refl, λ h. absurd (let f : false ≡ true = h in cc), ground arith, ground arith, ground arith)
run_action-Logged step torn_down s = (refl, refl, refl)

run_wait-Logged :
    (step : PlannedStep) (a : WaitAnswer) (s : RecipeRunner)
    → Logged step [] (a ≡ elapsed) s (run_wait step a s)
unfolding run_wait cancel
run_wait-Logged step elapsed s = (refl, λ h. refl, refl, refl, sym (append-nil _))
run_wait-Logged step interrupted s = (
  refl,
  λ h. absurd (let f : false ≡ true = h in cc),
  ground arith,
  ground arith,
  grind (arith, append-nil s.sent),
)
run_wait-Logged step wait_torn_down s = (refl, refl, sym (append-nil _))

run_assert-Logged :
    (step : PlannedStep) (v : Judgement) (s : RecipeRunner)
    → Logged step [] (v ≡ judged true) s (run_assert step v s)
unfolding run_assert
run_assert-Logged step (judged true) s = (refl, λ h. refl, refl, refl, sym (append-nil _))
run_assert-Logged step (judged false) s =
    (refl, λ h. absurd (let f : false ≡ true = h in cc), refl, refl, sym (append-nil _))
run_assert-Logged step (unjudged e) s =
    (refl, λ h. absurd (let f : false ≡ true = h in cc), refl, refl, sym (append-nil _))
run_assert-Logged step crashed s = (refl, refl, sym (append-nil _))

by_kind-Logged :
    (k : StepKind) (step : PlannedStep) (w : Turn) (s : RecipeRunner)
    → Logged step (calls_of k step) (AnswersWell k w) s (by_kind k step w s)
by_kind-Logged wait_step step w s = run_wait-Logged step w.wait_answer s
by_kind-Logged assert_step step w s = run_assert-Logged step w.verdict s
by_kind-Logged action_step step w s = run_action-Logged step w.action_answer s
by_kind-Logged mark_step step w s = run_action-Logged step w.action_answer s
by_kind-Logged note_step step w s = run_action-Logged step w.action_answer s
by_kind-Logged repeat_step step w s = run_action-Logged step w.action_answer s

settle-Logged :
    (step : PlannedStep) (calls : List PlannedStep) (well : Type 0) (s : RecipeRunner)
    (o : Stepped × RecipeRunner)
    → Logged step calls well s o
    → Logged step calls well s (settle o)
settle-Logged step calls well s (recorded r, z) (a, b, c, d, e) =
    (a, b, ground arith, ground arith, ground arith)
settle-Logged step calls well s (torn, z) h = h
settle-Logged step calls well s (escaped, z) h = h

pub execute-Logged :
    (step : PlannedStep) (w : Turn) (s : RecipeRunner)
    → Logged step
        (calls_of step.kind step)
        (AnswersWell step.kind w)
        (announce step s)
        (execute step w s)
unfolding execute
execute-Logged step w s =
    settle-Logged step _ _ (announce step s) _ (by_kind-Logged step.kind step w (announce step s))
