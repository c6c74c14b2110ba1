-- ===== src/Safety/Manager/Policy.antt =====
-- What every grant in the registry owes to the policy, after any history from boot; and the state
-- that an emergency stop leaves.
use field_deck.Prelude.{
  ℕ, ◌+◌, ◌≤◌, String, true, ◌&&◌, Option, none, some, List, [], ◌∷◌, All, ◌≡◌, refl, ap, arith,
  Bool-cases, Option-cases, inl, inr, str_eq,
}
use field_deck.Prelude.Dict.{values, insert, lookup, All-insert, All-keep_values, lookup-All}
use field_deck.Common.Errors.{Result, ok, err}
use field_deck.Common.Permission.{PermissionLevel, ClientSource, requires_grant, may_create_grants}
use field_deck.Safety.Grant.{ArmScope, ArmGrant}
use field_deck.Safety.Arm
use field_deck.Safety.Arm.{ArmRegistry, issued, revoke_entries, revoked_grant, revoke_found}
use field_deck.Safety.Config.{SafetyConfig, max_ttl}
use field_deck.Safety.Manager.{
  SafetyManager, boot, requested_ttl, armed, revoked_one, authorize, arm, disarm, engage_estop,
  acknowledge_estop, sweep,
}
use field_deck.Safety.Manager.History.{
  Call, authorizes, arms, disarms, engages, acknowledges, sweeps, acquires, renews, releases,
  disconnects, step, run,
}

-- A person made the grant, for a class that needs one, and it ends within the policy's ceiling.
pub record ObeysPolicy (c : SafetyConfig) (g : ArmGrant) : Type 0 where
  pub by_person : may_create_grants g.created_by ≡ true
  pub needed : requires_grant g.permission ≡ true
  pub bounded : g.expires_monotonic_ns ≤ g.created_monotonic_ns + max_ttl c g.permission

abbrev pub IsSound : SafetyConfig → ArmRegistry → Type 0
IsSound c r = All (ObeysPolicy c) (values r)

create-IsSound :
    (c : SafetyConfig) (p : PermissionLevel) (ttl : ℕ) (source : ClientSource)
    (scope : Option ArmScope) (i : String) (now : ℕ) (r : ArmRegistry) (g : ArmGrant)
    (r' : ArmRegistry)
    → IsSound c r
    → Arm.create p ttl source scope (some (max_ttl c p)) i now r ≡ ok (g, r')
    → IsSound c r'
unfolding Arm.create
create-IsSound c p ttl source scope i now r g r' h e =
    let made = issued p ttl source scope (some (max_ttl c p)) i now in
    let same : r' ≡ insert i made r = ground arith in
    rw same (
      All-insert (ObeysPolicy c) i made r
        (record { by_person = ground arith; needed = ground arith; bounded = ground arith }) h)

revoke_entries-IsSound :
    (c : SafetyConfig) (now : ℕ) (r : ArmRegistry) → IsSound c r → IsSound c (revoke_entries now r)
revoke_entries-IsSound c now [] h = tt
revoke_entries-IsSound c now ((k, g) ∷ r) h = (
  record { by_person = ground arith; needed = ground arith; bounded = ground arith },
  revoke_entries-IsSound c now r h.1,
)

revoke-IsSound :
    (c : SafetyConfig) (i : String) (r : ArmRegistry) → IsSound c r → IsSound c (Arm.revoke i r).1
unfolding Arm.revoke
revoke-IsSound c i r h = elim (Option-cases (lookup i r)) [
  | inl missing ↦ rw missing h
  | inr (g, found) ↦ rw found (kept g (lookup-All (ObeysPolicy c) i g r h found))
]
  where
    kept : (g : ArmGrant) → ObeysPolicy c g → IsSound c (revoke_found (some g) i r).1
    kept g v =
        let w =
          All-insert (ObeysPolicy c) i (revoked_grant g) r
            (record { by_person = v.by_person; needed = v.needed; bounded = v.bounded }) h in
        ground arith

abbrev IsGoverned : SafetyConfig → SafetyManager → Type 0
IsGoverned c s = (s.config ≡ c) × IsSound c s.grants

arm-IsGoverned :
    (c : SafetyConfig) (p : PermissionLevel) (ttl : Option ℕ) (src : ClientSource)
    (scope : Option ArmScope) (i : String) (now : ℕ) (s : SafetyManager)
    → IsGoverned c s
    → IsGoverned c (arm p ttl src scope i now s).1
unfolding arm
arm-IsGoverned c p ttl src scope i now s h =
    elim (Bool-cases (s.status.active && s.config.estop_requires_ack)) [
      | inl t ↦ rw t h
      | inr t ↦ rw t (
          outcome
            (Arm.create p (requested_ttl ttl s.config) src scope (some (max_ttl s.config p)) i now
              s.grants)
            refl)
    ]
  where
    outcome :
        (o : Result (ArmGrant × ArmRegistry))
        → Arm.create p
            (requested_ttl ttl s.config)
            src
            scope
            (some (max_ttl s.config p))
            i
            now
            s.grants
          ≡ o
        → IsGoverned c (armed src s o).1
    outcome (err e) k = h
    outcome (ok (g, r)) k = (
      h.0,
      create-IsSound c p (requested_ttl ttl s.config) src scope i now s.grants g r h.1
          (rw (ap (λ c'. max_ttl c' p) h.0) at k),
    )

revoked_one-IsSound :
    (c : SafetyConfig) (o : Option ArmGrant × ArmRegistry)
    → IsSound c o.1
    → IsSound c (revoked_one o).1
revoked_one-IsSound c (none, r) h = h
revoked_one-IsSound c (some g, r) h = h

disarm-IsGoverned :
    (c : SafetyConfig) (src : ClientSource) (i : Option String) (now : ℕ) (s : SafetyManager)
    → IsGoverned c s
    → IsGoverned c (disarm src i now s).1
unfolding disarm Arm.revoke_all
disarm-IsGoverned c src none now s h = (h.0, revoke_entries-IsSound c now s.grants h.1)
disarm-IsGoverned c src (some i) now s h =
    let all = revoke_entries-IsSound c now s.grants h.1 in
    let one = revoked_one-IsSound c (Arm.revoke i s.grants) (revoke-IsSound c i s.grants h.1) in
    elim (Bool-cases (str_eq i "")) [ inl t ↦ rw t (h.0, all) | inr t ↦ rw t (h.0, one) ]

step-IsGoverned :
    (c : SafetyConfig) (now : ℕ) (k : Call) (s : SafetyManager)
    → IsGoverned c s
    → IsGoverned c (step now k s)
unfolding step authorize engage_estop acknowledge_estop sweep Arm.revoke_all Arm.sweep
step-IsGoverned c now (authorizes a p d src allowed) s h = ground arith
step-IsGoverned c now (arms p ttl src scope i) s h = arm-IsGoverned c p ttl src scope i now s h
step-IsGoverned c now (disarms src i) s h = disarm-IsGoverned c src i now s h
step-IsGoverned c now (engages reason src) s h = (h.0, revoke_entries-IsSound c now s.grants h.1)
step-IsGoverned c now (acknowledges src) s h = ground arith
step-IsGoverned c now sweeps s h = (h.0, All-keep_values (ObeysPolicy c) _ s.grants h.1)
step-IsGoverned c now (acquires d a src ttl o i) s h = ground arith
step-IsGoverned c now (renews i ttl o) s h = ground arith
step-IsGoverned c now (releases i) s h = h
step-IsGoverned c now (disconnects o) s h = h

run-IsGoverned :
    (c : SafetyConfig) (ks : List (ℕ × Call)) (s : SafetyManager)
    → IsGoverned c s
    → IsGoverned c (run ks s)
unfolding run
run-IsGoverned c [] s h = h
run-IsGoverned c ((now, k) ∷ ks) s h =
    run-IsGoverned c ks (step now k s) (step-IsGoverned c now k s h)

-- After any history from boot every grant in the registry was made by a person, for a class that
-- needs one, and ends within the ceiling that the deployment's policy sets for that class.
pub run-boot-IsSound :
    (c : SafetyConfig) (ks : List (ℕ × Call)) → IsSound c (run ks (boot c)).grants
run-boot-IsSound c ks = (run-IsGoverned c ks (boot c) (refl, tt)).1
