-- ===== src/Recipes/Preflight/Covered.antt =====
-- The preflight's check of the authorizations, against what the daemon's arm registry answers.
use field_deck.Prelude.{
  ℕ, String, Bool, true, false, none, some, List, [], ◌∷◌, ◌++◌, any, keep, head?, ◌≡◌, ◌≢◌, refl,
  arith, inl, inr, subst, Bool-cases, Option-cases, Member, All, All-map, All-Member, keep-Member,
  sort_by-Member,
}
use field_deck.Prelude.Dict.{values}
use field_deck.Common.Errors.{ok, err, recipe_error}
use field_deck.Common.Permission.{PermissionLevel, requires_grant, same_level}
use field_deck.Safety.Grant.{ArmGrant, is_active, matches}
use field_deck.Safety.Arm
use field_deck.Safety.Arm.{ArmRegistry, is_candidate, sooner}
use field_deck.Safety.Arm.Find.{find-none}
use field_deck.Recipes.Plan.{ExecutionPlan, PlannedStep}
use field_deck.Recipes.Preflight.{
  SafetyStatus, covers, grant_for, grant_for_action, is_missing, check_needed, check_authorization,
}

any_refused :
    (p : PlannedStep → Bool) (xs : List PlannedStep) → any p xs ≡ false → All (λ x. p x ≡ false) xs
any_refused p [] h = tt
any_refused p (x ∷ xs) h = (ground arith, any_refused p xs (ground arith))

head-Member : (xs : List ArmGrant) (g : ArmGrant) → head? xs ≡ some g → Member g xs
head-Member [] g e = cc
head-Member (x ∷ xs) g e = inl (let d : some x ≡ some g = e in cc)

-- A step that needs a grant has one that authorizes it now.
abbrev pub IsCovered : ℕ → ArmRegistry → PlannedStep → Type 0
IsCovered now r step =
    (action : String)
    → requires_grant step.permission ≡ true
    → step.action ≡ some action
    → Arm.find step.permission action step.device_id now r ≢ none

covers-is_active :
    (step : PlannedStep) (action : String) (g : ArmGrant) (now : ℕ)
    → covers step action g ≡ true
    → is_active g now ≡ true
    → is_candidate step.permission action step.device_id now g ≡ true
covers-is_active step action g now c l =
    elim (Bool-cases (same_level g.permission step.permission)) [
      | inl e ↦
          let fits : matches g.scope step.device_id action ≡ true = (rw e at c) in rw e (rw l fits)
      | inr e ↦ absurd (let no_way : false ≡ true = (rw e at c) in cc)
    ]

covered_by :
    (now : ℕ) (r : ArmRegistry) (step : PlannedStep) (action : String) (g : ArmGrant)
    → Member g (keep (covers step action) (Arm.active now r))
    → Arm.find step.permission action step.device_id now r ≢ none
unfolding Arm.active
covered_by now r step action g m missing =
    let kept = keep-Member (covers step action) g (Arm.active now r) m in
    let stored =
      keep-Member (λ h. is_active h now) g (values r)
        (sort_by-Member sooner g (keep (λ h. is_active h now) (values r)) kept.0) in
    let refused =
      All-Member (λ h. is_candidate step.permission action step.device_id now h ≡ false) g
        (values r) ((find-none step.permission action step.device_id now r).0 missing) stored.0 in
    let fits = covers-is_active step action g now kept.1 stored.1 in cc

step-IsCovered :
    (now : ℕ) (r : ArmRegistry) (step : PlannedStep)
    → is_missing (Arm.active now r) step ≡ false
    → IsCovered now r step
step-IsCovered now r step h action needs is =
    elim (Option-cases (head? (keep (covers step action) (Arm.active now r)))) [
      | inl none_covers ↦ absurd (
          let lacking : is_missing (Arm.active now r) step ≡ true =
            rw (is_missing, grant_for, needs, is, grant_for_action, none_covers) refl in
          cc)
      | inr (g, first) ↦ covered_by now r step action g (head-Member _ g first)
    ]

-- Where the check of the preflight goes through for a plan that needs some permission, and the
-- status it was asked on lists the grants that are active in the registry, every step of the plan
-- and of its cleanup that needs a grant for its action has one that authorizes it now, as the daemon
-- will look it up.
pub check_authorization-IsCovered :
    (plan : ExecutionPlan) (status : SafetyStatus) (now : ℕ) (r : ArmRegistry)
    (warned : List PermissionLevel)
    → plan.permissions_required ≢ []
    → status.grants ≡ Arm.active now r
    → check_authorization plan status ≡ ok warned
    → All (IsCovered now r) (plan.steps ++ plan.finally_steps)
unfolding check_authorization
check_authorization-IsCovered plan status now r warned wanted same passes =
    All-map (λ step. is_missing (Arm.active now r) step ≡ false) (IsCovered now r)
      (plan.steps ++ plan.finally_steps) (step-IsCovered now r)
      (subst (λ gs. All (λ step. is_missing gs step ≡ false) (plan.steps ++ plan.finally_steps))
        same
        (any_refused (is_missing status.grants) (plan.steps ++ plan.finally_steps)
          (needed plan.permissions_required wanted passes)))
  where
    needed :
        (ps : List PermissionLevel)
        → ps ≢ []
        → check_needed ps plan status ≡ ok warned
        → any (is_missing status.grants) (plan.steps ++ plan.finally_steps) ≡ false
    needed [] some_wanted e = absurd (some_wanted refl)
    needed (p ∷ ps) some_wanted e =
        elim (Bool-cases (any (is_missing status.grants) (plan.steps ++ plan.finally_steps))) [
          | inl t ↦ absurd (let no_way : err recipe_error ≡ ok warned = (rw t at e) in cc)
          | inr t ↦ t
        ]
