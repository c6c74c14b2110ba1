-- ===== src/Recipes/Run/Order.antt =====
-- The step loop of a recipe: which steps run, in which order, and what allows each of them.
use field_deck.Prelude.{
  ℕ, ◌+◌, true, false, none, List, [], ◌∷◌, ◌++◌, ◌≡◌, ◌≢◌, refl, sym, ap, ◌∙◌, inl, inr,
  append_assoc, append-nil, Bool-cases,
}
use field_deck.Common.Errors.{Result, ok, err}
use field_deck.Recipes.Plan.{PlannedStep}
use field_deck.Recipes.Runner.{
  RecipeRunner, StepRecord, Turn, Permit, go, halt, tear, Stepped, recorded, torn, escaped,
  announce, is_done, skipped, may_continue, execute, record_step,
}
use field_deck.Recipes.Run.{
  LoopEnd, loop_done, loop_torn, loop_broke, loop_escaped, after_step, announced_step, after_permit,
  run_steps,
}
use field_deck.Recipes.Run.Steps.{
  IsPermitted, AnswersWell, calls_of, called, Follows, SameLogs, may_continue-SameLogs,
  may_continue-go, Logged, execute-Logged,
}

-- The records that a step loop appends, the steps that it starts, and the calls that it sends.
pub record Ran (d : ℕ) (turns : ℕ → Turn) (k : ℕ) (steps : List PlannedStep) (s : RecipeRunner)
    (o : LoopEnd × RecipeRunner) : Type 0 where
  pub records : List StepRecord
  pub begun : List PlannedStep
  pub appended : o.1.steps ≡ s.steps ++ records
  pub announced : o.1.started ≡ s.started ++ begun
  pub calls : o.1.sent ≡ s.sent ++ called begun
  pub follows : Follows d turns k o.0 steps records begun

-- A loop that ends in a step: with or without its record, before or after it was started.
Ran-cut :
    (d : ℕ) (turns : ℕ → Turn) (k : ℕ) (step : PlannedStep) (steps : List PlannedStep)
    (s z : RecipeRunner) (e : LoopEnd)
    → SameLogs s z
    → e ≢ loop_done
    → Ran d turns k (step ∷ steps) s (e, z)
Ran-cut d turns k step steps s z e (a, b, c) n = record {
  records = [];
  begun = [];
  appended = a ∙ sym (append-nil s.steps);
  announced = b ∙ sym (append-nil s.started);
  calls = c ∙ sym (append-nil s.sent);
  follows = (n, inl refl);
}

Ran-skipped :
    (d : ℕ) (turns : ℕ → Turn) (k : ℕ) (step : PlannedStep) (steps : List PlannedStep)
    (s z : RecipeRunner)
    → SameLogs s z
    → Ran d turns k
        (step ∷ steps)
        s
        (loop_done, record z { steps = z.steps ++ record_step step skipped none ∷ [] })
Ran-skipped d turns k step steps s z (a, b, c) = record {
  records = record_step step skipped none ∷ [];
  begun = [];
  appended = ap (λ xs. xs ++ record_step step skipped none ∷ []) a;
  announced = b ∙ sym (append-nil s.started);
  calls = c ∙ sym (append-nil s.sent);
  follows = (refl, inr (refl, refl, refl, inl (refl, refl)));
}

-- The logs behind one step that was started.
abbrev OneMore : PlannedStep → RecipeRunner → RecipeRunner → Type 0
OneMore step s z =
    (z.steps ≡ s.steps)
    × (z.started ≡ s.started ++ step ∷ [])
    × (z.sent ≡ s.sent ++ calls_of step.kind step)

Ran-torn :
    (d : ℕ) (turns : ℕ → Turn) (k : ℕ) (step : PlannedStep) (steps : List PlannedStep)
    (s z : RecipeRunner) (e : LoopEnd)
    → OneMore step s z
    → IsPermitted d (turns k)
    → e ≢ loop_done
    → Ran d turns k (step ∷ steps) s (e, z)
Ran-torn d turns k step steps s z e (a, b, c) may n = record {
  records = [];
  begun = step ∷ [];
  appended = a ∙ sym (append-nil s.steps);
  announced = b;
  calls = c ∙ ap (λ xs. s.sent ++ xs) (sym (append-nil _));
  follows = (n, inr (refl, may));
}

Ran-last :
    (d : ℕ) (turns : ℕ → Turn) (k : ℕ) (step : PlannedStep) (steps : List PlannedStep)
    (s z : RecipeRunner) (r : StepRecord)
    → OneMore step s z
    → r.step ≡ step
    → is_done r.outcome ≡ false
    → IsPermitted d (turns k)
    → Ran d turns k (step ∷ steps) s (loop_done, record z { steps = z.steps ++ r ∷ [] })
Ran-last d turns k step steps s z r (a, b, c) is bad may = record {
  records = r ∷ [];
  begun = step ∷ [];
  appended = ap (λ xs. xs ++ r ∷ []) a;
  announced = b;
  calls = c ∙ ap (λ xs. s.sent ++ xs) (sym (append-nil _));
  follows = (is, inr (bad, refl, refl, inr (refl, may)));
}

Ran-more :
    (d : ℕ) (turns : ℕ → Turn) (k : ℕ) (step : PlannedStep) (steps : List PlannedStep)
    (s z : RecipeRunner) (r : StepRecord) (o : LoopEnd × RecipeRunner)
    → OneMore step s z
    → r.step ≡ step
    → is_done r.outcome ≡ true
    → AnswersWell step.kind (turns k)
    → IsPermitted d (turns k)
    → Ran d turns (k + 1) steps (record z { steps = z.steps ++ r ∷ [] }) o
    → Ran d turns k (step ∷ steps) s o
Ran-more d turns k step steps s z r o (a, b, c) is fine well may more = record {
  records = r ∷ more.records;
  begun = step ∷ more.begun;
  appended =
      more.appended
      ∙ append_assoc z.steps (r ∷ []) more.records
      ∙ ap (λ xs. xs ++ r ∷ more.records) a;
  announced =
      more.announced
      ∙ ap (λ xs. xs ++ more.begun) b
      ∙ append_assoc s.started (step ∷ []) more.begun;
  calls =
      more.calls
      ∙ ap (λ xs. xs ++ called more.begun) c
      ∙ append_assoc s.sent (calls_of step.kind step) (called more.begun);
  follows = (is, inl (fine, may, well, (more.begun, refl, more.follows)));
}

OneMore-trans :
    (step : PlannedStep) (s z y : RecipeRunner)
    → SameLogs s z
    → (y.steps ≡ z.steps)
    → (y.started ≡ z.started ++ step ∷ [])
    → (y.sent ≡ z.sent ++ calls_of step.kind step)
    → OneMore step s y
OneMore-trans step s z y (a, b, c) d e f =
    (d ∙ a, e ∙ ap (λ xs. xs ++ step ∷ []) b, f ∙ ap (λ xs. xs ++ calls_of step.kind step) c)

-- Whatever the daemon, the clock and the operator do, the step loop starts and records the planned
-- steps in order. It starts a step, and sends its call, only when the daemon had just said that no
-- stop is latched and the deadline had not passed; a step is OK only with the answer that makes it so;
-- the first that is not OK is the last, and one that was skipped was not started. The loop comes to
-- its regular end only with such a one or with all of them.
pub run_steps-Ran :
    (d : ℕ) (turns : ℕ → Turn) (k : ℕ) (steps : List PlannedStep) (s : RecipeRunner)
    → Ran d turns k steps s (run_steps d turns k steps s)
unfolding run_steps
run_steps-Ran d turns k [] s = record {
  records = [];
  begun = [];
  appended = sym (append-nil s.steps);
  announced = sym (append-nil s.started);
  calls = sym (append-nil s.sent);
  follows = (refl, refl);
}
run_steps-Ran d turns k (step ∷ steps) s =
    permitted (may_continue d (turns k) s) (may_continue-SameLogs d (turns k) s)
      (may_continue-go d (turns k) s) (run_steps-Ran d turns (k + 1) steps)
  where
    Later : Type 0
    Later = (z : RecipeRunner) → Ran d turns (k + 1) steps z (run_steps d turns (k + 1) steps z)

    stepped :
        (o : Stepped × RecipeRunner) (z : RecipeRunner)
        → SameLogs s z
        → Logged step
            (calls_of step.kind step)
            (AnswersWell step.kind (turns k))
            (announce step z)
            o
        → IsPermitted d (turns k)
        → Later
        → Ran d turns k (step ∷ steps) s (after_step o (run_steps d turns (k + 1) steps))
    stepped (torn, y) z same (a, b, c) may later =
        Ran-torn d turns k step steps s y loop_torn (OneMore-trans step s z y same a b c) may
          (λ e. cc)
    stepped (escaped, y) z same (a, b, c) may later =
        Ran-torn d turns k step steps s y loop_escaped (OneMore-trans step s z y same a b c) may
          (λ e. cc)
    stepped (recorded r, y) z same (is, well, a, b, c) may later =
        let more = OneMore-trans step s z y same a b c in
        elim (Bool-cases (is_done r.outcome)) [
          | inl t ↦ rw t (
              Ran-more d turns k step steps s y r _ more is t (well t) may
                (later (record y { steps = y.steps ++ r ∷ [] })))
          | inr t ↦ rw t (Ran-last d turns k step steps s y r more is t may)
        ]

    announced :
        (a : Result (Unit {0})) (z : RecipeRunner)
        → SameLogs s z
        → IsPermitted d (turns k)
        → Later
        → Ran d turns k
            (step ∷ steps)
            s
            (announced_step a step (turns k) z (run_steps d turns (k + 1) steps))
    announced (err e) z same may later =
        Ran-cut d turns k step steps s z (loop_broke e) same (λ x. cc)
    announced (ok tt) z same may later =
        stepped (execute step (turns k) z) z same (execute-Logged step (turns k) z) may later

    permitted :
        (o : Permit × RecipeRunner)
        → SameLogs s o.1
        → (o.0 ≡ go → IsPermitted d (turns k))
        → Later
        → Ran d turns k
            (step ∷ steps)
            s
            (after_permit o step (turns k) (run_steps d turns (k + 1) steps))
    permitted (tear, z) same may later = Ran-cut d turns k step steps s z loop_torn same (λ e. cc)
    permitted (halt, z) same may later = Ran-skipped d turns k step steps s z same
    permitted (go, z) same may later = announced (turns k).announced z same (may refl) later
