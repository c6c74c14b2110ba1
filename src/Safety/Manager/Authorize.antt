-- ===== src/Safety/Manager/Authorize.antt =====
-- `SafetyManager.authorize`: exactly who may act, and what a refusal leaves behind.
use field_deck.Prelude.{
  ℕ, String, Bool, true, false, not, ◌&&◌, Option, none, some, [], ◌∷◌, ◌≡◌, ◌⊎◌, inl, inr, arith,
  Option-cases, Member, All-Member,
}
use field_deck.Prelude.Dict.{values}
use field_deck.Common.Errors.{Result, ok, err, permission_denied, estop_active}
use field_deck.Common.Permission.{PermissionLevel, ClientSource, requires_grant}
use field_deck.Safety.Grant.{ArmGrant}
use field_deck.Safety.Arm
use field_deck.Safety.Arm.Find.{Authorizes, find_narrowest, find-none, Authorizes-is_candidate}
use field_deck.Safety.Arm.{is_candidate}
use field_deck.Common.Events.{Event}
use field_deck.Safety.Manager.{SafetyManager, authorize, is_denied, estop_waived, denial, emit}

-- The deployment allows the class, and no latched stop stands in the way.
pub record Unblocked (s : SafetyManager) (permission : PermissionLevel) (allowed : Bool)
    : Type 0 where
  pub not_denied : is_denied s permission ≡ false
  pub not_stopped : (s.status.active && not (estop_waived allowed permission)) ≡ false

-- A grant of the registry that authorizes the action now, or a class that needs none.
abbrev pub Granted :
    SafetyManager → String → PermissionLevel → Option String → ℕ → Option ArmGrant → Type 0
Granted s action permission device_id now none = requires_grant permission ≡ false
Granted s action permission device_id now (some g) =
    (requires_grant permission ≡ true)
    × Member g (values s.grants)
    × Authorizes permission action device_id now g

-- An action is let through only if its class is not denied by policy, a latched stop is waived for
-- it, and it is PASSIVE or a stored grant of its very class, unrevoked, unexpired and in scope,
-- authorizes it; and letting it through changes nothing.
pub authorize_sound :
    (action : String) (permission : PermissionLevel) (device_id : Option String)
    (source : ClientSource) (allowed : Bool) (now : ℕ) (s s' : SafetyManager) (o : Option ArmGrant)
    → authorize action permission device_id source allowed now s ≡ (ok o, s')
    → Unblocked s permission allowed × Granted s action permission device_id now o × (s' ≡ s)
unfolding authorize
authorize_sound action permission device_id source allowed now s s' none e =
    elim (Option-cases (Arm.find permission action device_id now s.grants)) [
      | inl missing ↦ (
        record { not_denied = ground arith; not_stopped = ground arith },
        ground arith,
        ground arith,
      )
      | inr (g, found) ↦ (
        record { not_denied = ground arith; not_stopped = ground arith },
        ground arith,
        ground arith,
      )
    ]
authorize_sound action permission device_id source allowed now s s' (some g) e =
    let found : Arm.find permission action device_id now s.grants ≡ some g = ground arith in
    let picked = find_narrowest permission action device_id now s.grants g found in
    (
      record { not_denied = ground arith; not_stopped = ground arith },
      (ground arith, picked.0, picked.1),
      ground arith,
    )

-- Whenever nothing blocks the class and a stored grant authorizes the action, it is let through,
-- under some grant that does.
pub authorize_complete :
    (action : String) (permission : PermissionLevel) (device_id : Option String)
    (source : ClientSource) (allowed : Bool) (now : ℕ) (s : SafetyManager) (g : ArmGrant)
    → Unblocked s permission allowed
    → Granted s action permission device_id now (some g)
    → (h : ArmGrant) × (authorize action permission device_id source allowed now s
        ≡ (ok (some h), s))
      × Granted s action permission device_id now (some h)
unfolding authorize
authorize_complete action permission device_id source allowed now s g u v =
    elim (Option-cases (Arm.find permission action device_id now s.grants)) [
      | inl missing ↦ absurd (
          let refused =
            All-Member (λ h. is_candidate permission action device_id now h ≡ false) g
              (values s.grants) ((find-none permission action device_id now s.grants).0 missing)
              v.1 in
          let fits = Authorizes-is_candidate permission action device_id now g v.2 in ground arith)
      | inr (h, found) ↦
          let picked = find_narrowest permission action device_id now s.grants h found in
          (h, ground (arith, u.not_denied, u.not_stopped, v.0), (v.0, picked.0, picked.1))
    ]

-- How an answer and the state after it belong together.
abbrev pub IsAudited : SafetyManager → Event → Result (Option ArmGrant) × SafetyManager → Type 0
IsAudited s refusal (ok o, s') = s' ≡ s
IsAudited s refusal (err e, s') =
    (s' ≡ emit (refusal ∷ []) s) × ((e ≡ permission_denied) ⊎ (e ≡ estop_active))

-- Every refusal appends its one ACTION_DENIED event to the log and changes nothing else; an action
-- that is let through leaves no trace here.
pub authorize_audit :
    (action : String) (permission : PermissionLevel) (device_id : Option String)
    (source : ClientSource) (allowed : Bool) (now : ℕ) (s : SafetyManager)
    → IsAudited s
        (denial action permission device_id source)
        (authorize action permission device_id source allowed now s)
unfolding authorize
authorize_audit action permission device_id source allowed now s = ground arith
