-- ===== src/Recipes/Run/Attempts.antt =====
-- How far the cleanup of a recipe run gets.
use field_deck.Prelude.{
  ℕ, ◌+◌, String, Bool, true, false, Option, none, some, List, [], ◌∷◌, ◌++◌, map, ◌≡◌, refl, sym,
  ap, ◌∙◌, append_assoc, append-nil, arith,
}
use mathlib.Core.List.{map-append}
use field_deck.Common.Errors.{Result, ok, err}
use field_deck.Recipes.Plan.{
  PlannedStep, StepKind, action_step, wait_step, assert_step, mark_step, note_step, repeat_step,
}
use field_deck.Recipes.Runner.{
  RecipeRunner, StepRecord, Stepped, recorded, torn, escaped, Judgement, judged, unjudged, crashed,
  announce, send, cancel, cancel_if, call_ended, run_assert, record_step, done,
}
use field_deck.Recipes.Run.{
  FinallyTurn, CleanupEnd, cleanup_done, cleanup_torn, cleanup_escaped, unless_torn, run_each,
  finally_record, append_finally, after_finally,
}

-- What the two logs of the cleanup are left at.
abbrev SameLogs : RecipeRunner → RecipeRunner → Type 0
SameLogs s z = (z.finally_records ≡ s.finally_records) × (z.started ≡ s.started)

cancel_if-SameLogs : (c : Bool) (s : RecipeRunner) → SameLogs s (cancel_if c s)
unfolding cancel
cancel_if-SameLogs true s = ground arith
cancel_if-SameLogs false s = (refl, refl)

-- A step's own record is about it, and nothing is appended by the step itself.
abbrev IsAbout : PlannedStep → RecipeRunner → Stepped × RecipeRunner → Type 0
IsAbout step s (recorded r, z) = (r.step ≡ step) × SameLogs s z
IsAbout step s (torn, z) = SameLogs s z
IsAbout step s (escaped, z) = SameLogs s z

call-IsAbout :
    (met : Bool) (step : PlannedStep) (r : Result (Option String)) (s : RecipeRunner)
    → IsAbout step s (unless_torn met (call_ended step r (send step s)) (send step s))
call-IsAbout true step (ok none) s = (refl, refl)
call-IsAbout true step (ok (some i)) s = (refl, refl)
call-IsAbout true step (err e) s = ground arith
call-IsAbout false step (ok none) s = (refl, (refl, refl))
call-IsAbout false step (ok (some i)) s = (refl, (refl, refl))
call-IsAbout false step (err e) s = ground arith

wait-IsAbout :
    (met : Bool) (step : PlannedStep) (s : RecipeRunner)
    → IsAbout step s (unless_torn met (record_step step done none, s) s)
wait-IsAbout true step s = (refl, refl)
wait-IsAbout false step s = (refl, (refl, refl))

assert-IsAbout :
    (step : PlannedStep) (v : Judgement) (s : RecipeRunner) → IsAbout step s (run_assert step v s)
unfolding run_assert
assert-IsAbout step (judged true) s = (refl, (refl, refl))
assert-IsAbout step (judged false) s = (refl, (refl, refl))
assert-IsAbout step (unjudged e) s = (refl, (refl, refl))
assert-IsAbout step crashed s = (refl, refl)

finally_record-IsAbout :
    (k : StepKind) (step : PlannedStep) (w : FinallyTurn) (s : RecipeRunner)
    → IsAbout step s (finally_record k step w s)
finally_record-IsAbout assert_step step w s = assert-IsAbout step w.verdict s
finally_record-IsAbout wait_step step w s = wait-IsAbout w.torn_here step s
finally_record-IsAbout action_step step w s = call-IsAbout w.torn_here step w.call s
finally_record-IsAbout mark_step step w s = call-IsAbout w.torn_here step w.call s
finally_record-IsAbout note_step step w s = call-IsAbout w.torn_here step w.call s
finally_record-IsAbout repeat_step step w s = call-IsAbout w.torn_here step w.call s

-- A cleanup that ends of itself starts and records all its steps; one that does not, starts one step
-- more than it records, and no other.
abbrev pub Reaches : CleanupEnd → List PlannedStep → List PlannedStep → List PlannedStep → Type 0
Reaches cleanup_done steps kept begun = (kept ≡ steps) × (begun ≡ steps)
Reaches _ steps kept begun =
    (p : PlannedStep) × (later : List PlannedStep) × (steps ≡ kept ++ p ∷ later)
    × (begun ≡ kept ++ p ∷ [])

pub record Attempted (steps : List PlannedStep) (s : RecipeRunner) (o : CleanupEnd × RecipeRunner)
    : Type 0 where
  pub kept : List PlannedStep
  pub begun : List PlannedStep
  pub records : map (λ r. r.step) o.1.finally_records ≡ map (λ r. r.step) s.finally_records ++ kept
  pub announced : o.1.started ≡ s.started ++ begun
  pub reaches : Reaches o.0 steps kept begun

Reaches-more :
    (e : CleanupEnd) (p : PlannedStep) (steps kept begun : List PlannedStep)
    → Reaches e steps kept begun
    → Reaches e (p ∷ steps) (p ∷ kept) (p ∷ begun)
Reaches-more cleanup_done p steps kept begun (a, b) = (ap (λ xs. p ∷ xs) a, ap (λ xs. p ∷ xs) b)
Reaches-more cleanup_torn p steps kept begun (q, l, a, b) =
    (q, l, ap (λ xs. p ∷ xs) a, ap (λ xs. p ∷ xs) b)
Reaches-more cleanup_escaped p steps kept begun (q, l, a, b) =
    (q, l, ap (λ xs. p ∷ xs) a, ap (λ xs. p ∷ xs) b)

-- A record that is appended counts as its step.
steps_of_appended :
    (xs : List StepRecord) (r : StepRecord) (step : PlannedStep) (steps : List PlannedStep)
    → r.step ≡ step
    → map (λ q. q.step) (xs ++ r ∷ []) ++ steps ≡ map (λ q. q.step) xs ++ step ∷ steps
steps_of_appended xs r step steps is =
    ap (λ ys. ys ++ steps) (map-append (λ q. q.step) xs (r ∷ []))
    ∙ append_assoc (map (λ q. q.step) xs) (r.step ∷ []) steps
    ∙ ap (λ p. map (λ q. q.step) xs ++ p ∷ steps) is

-- However a cleanup ends, it announces and records its steps in order. It ends of itself with all of
-- them; a cancellation or an exception that is no FieldDeckError ends it in a step that is announced
-- and not recorded, and the steps behind that one are not announced.
pub run_each-Attempted :
    (turns : ℕ → FinallyTurn) (k : ℕ) (steps : List PlannedStep) (s : RecipeRunner)
    → Attempted steps s (run_each turns k steps s)
unfolding run_each
run_each-Attempted turns k [] s = record {
  kept = [];
  begun = [];
  records = sym (append-nil _);
  announced = sym (append-nil _);
  reaches = (refl, refl);
}
run_each-Attempted turns k (step ∷ steps) s =
    let a = cancel_if (turns k).cancel_before s in
    let c = cancel_if-SameLogs (turns k).cancel_before s in
    tried (finally_record step.kind step (turns k) (announce step a)) a c
      (finally_record-IsAbout step.kind step (turns k) (announce step a))
      (run_each-Attempted turns (k + 1) steps)
  where
    Later : Type 0
    Later = (z : RecipeRunner) → Attempted steps z (run_each turns (k + 1) steps z)

    cut :
        (e : CleanupEnd) (a z : RecipeRunner)
        → SameLogs s a
        → SameLogs (announce step a) z
        → Reaches e (step ∷ steps) [] (step ∷ [])
        → Attempted (step ∷ steps) s (e, z)
    cut e a z c h r = record {
      kept = [];
      begun = step ∷ [];
      records = ap (map (λ r. r.step)) (h.0 ∙ c.0) ∙ sym (append-nil _);
      announced = h.1 ∙ ap (λ xs. xs ++ step ∷ []) c.1;
      reaches = r;
    }

    tried :
        (o : Stepped × RecipeRunner) (a : RecipeRunner)
        → SameLogs s a
        → IsAbout step (announce step a) o
        → Later
        → Attempted (step ∷ steps) s (after_finally o (run_each turns (k + 1) steps))
    tried (recorded r, z) a c (is, h) later =
        let g = later (append_finally r z) in
        record {
          kept = step ∷ g.kept;
          begun = step ∷ g.begun;
          records =
              g.records
              ∙ steps_of_appended z.finally_records r step g.kept is
              ∙ ap (λ xs. map (λ r. r.step) xs ++ step ∷ g.kept) (h.0 ∙ c.0);
          announced =
              g.announced
              ∙ ap (λ xs. xs ++ g.begun) (h.1 ∙ ap (λ xs. xs ++ step ∷ []) c.1)
              ∙ append_assoc s.started (step ∷ []) g.begun;
          reaches = Reaches-more _ step steps g.kept g.begun g.reaches;
        }
    tried (torn, z) a c h later = cut cleanup_torn a z c h (step, steps, refl, refl)
    tried (escaped, z) a c h later = cut cleanup_escaped a z c h (step, steps, refl, refl)
