-- ===== src/Safety/Manager/Emergency.antt =====
-- What an emergency stop takes away, and that it stays away until a person acknowledges the stop.
use field_deck.Prelude.{
  ℕ, ◌≤◌, String, true, false, Option, none, some, List, [], ◌∷◌, All, ◌≡◌, refl, arith, Bool-cases,
  Option-cases, inl, inr, str_eq,
}
use field_deck.Prelude.Dict.{values, insert, lookup, All-insert, All-keep_values}
use field_deck.Common.Permission.{PermissionLevel, ClientSource}
use field_deck.Safety.Grant.{ArmGrant, is_active}
use field_deck.Safety.Arm
use field_deck.Safety.Arm.{ArmRegistry, is_candidate, revoke_entries, revoked_grant, revoke_found}
use field_deck.Safety.Arm.Find.{find-none}
use field_deck.Safety.Estop.{engage}
use field_deck.Safety.Lease
use field_deck.Safety.Lease.{OutputLease}
use field_deck.Safety.Manager.{
  SafetyManager, authorize, arm, disarm, engage_estop, acknowledge_estop, sweep, revoked_one,
}
use field_deck.Safety.Manager.History.{
  Call, authorizes, arms, disarms, engages, acknowledges, sweeps, acquires, renews, releases,
  disconnects, step, run,
}
use field_deck.Safety.Manager.Latch.{is_no_ack, step-latched}

-- No grant of the registry is active from a time on.
abbrev IsQuiet : ℕ → ArmRegistry → Type 0
IsQuiet t r = All (λ g. is_active g t ≡ false) (values r)

quiet_find :
    (p : PermissionLevel) (a : String) (d : Option String) (t later : ℕ) (r : ArmRegistry)
    → t ≤ later
    → IsQuiet t r
    → All (λ g. is_candidate p a d later g ≡ false) (values r)
quiet_find p a d t later [] le h = tt
quiet_find p a d t later ((k, g) ∷ r) le h = (ground arith, quiet_find p a d t later r le h.1)

revoke_entries_now : (t : ℕ) (r : ArmRegistry) → IsQuiet t (revoke_entries t r)
revoke_entries_now t [] = tt
revoke_entries_now t ((k, g) ∷ r) = (ground arith, revoke_entries_now t r)

revoke_entries-IsQuiet :
    (t now : ℕ) (r : ArmRegistry) → IsQuiet t r → IsQuiet t (revoke_entries now r)
revoke_entries-IsQuiet t now [] h = tt
revoke_entries-IsQuiet t now ((k, g) ∷ r) h = (ground arith, revoke_entries-IsQuiet t now r h.1)

revoke-IsQuiet : (t : ℕ) (i : String) (r : ArmRegistry) → IsQuiet t r → IsQuiet t (Arm.revoke i r).1
unfolding Arm.revoke
revoke-IsQuiet t i r h = elim (Option-cases (lookup i r)) [
  | inl missing ↦ rw missing h
  | inr (g, found) ↦
      let w = All-insert (λ g. is_active g t ≡ false) i (revoked_grant g) r refl h in
      rw found (kept g w)
]
  where
    kept :
        (g : ArmGrant)
        → IsQuiet t (insert i (revoked_grant g) r)
        → IsQuiet t (revoke_found (some g) i r).1
    kept g w = ground arith

revoked_one-IsQuiet :
    (t : ℕ) (o : Option ArmGrant × ArmRegistry) → IsQuiet t o.1 → IsQuiet t (revoked_one o).1
revoked_one-IsQuiet t (none, r) h = h
revoked_one-IsQuiet t (some g, r) h = h

disarm-IsQuiet :
    (t : ℕ) (src : ClientSource) (i : Option String) (now : ℕ) (s : SafetyManager)
    → IsQuiet t s.grants
    → IsQuiet t (disarm src i now s).1.grants
unfolding disarm Arm.revoke_all
disarm-IsQuiet t src none now s h = revoke_entries-IsQuiet t now s.grants h
disarm-IsQuiet t src (some i) now s h =
    let all = revoke_entries-IsQuiet t now s.grants h in
    let one = revoked_one-IsQuiet t (Arm.revoke i s.grants) (revoke-IsQuiet t i s.grants h) in
    elim (Bool-cases (str_eq i "")) [ inl e ↦ rw e all | inr e ↦ rw e one ]

-- The stop is latched under a policy that wants it acknowledged, and all grants are dead.
record IsStopped (t : ℕ) (s : SafetyManager) : Type 0 where
  latched : s.status.active ≡ true
  strict : s.config.estop_requires_ack ≡ true
  quiet : IsQuiet t s.grants

step_config : (now : ℕ) (k : Call) (s : SafetyManager) → (step now k s).config ≡ s.config
unfolding step authorize arm disarm engage_estop acknowledge_estop sweep
step_config now (authorizes a p d src allowed) s = ground arith
step_config now (arms p ttl src scope i) s = ground arith
step_config now (disarms src i) s = refl
step_config now (engages reason src) s = refl
step_config now (acknowledges src) s = ground arith
step_config now sweeps s = refl
step_config now (acquires d a src ttl o i) s = ground arith
step_config now (renews i ttl o) s = ground arith
step_config now (releases i) s = refl
step_config now (disconnects o) s = refl

step-IsQuiet :
    (t now : ℕ) (k : Call) (s : SafetyManager) → IsStopped t s → IsQuiet t (step now k s).grants
unfolding step authorize arm engage_estop acknowledge_estop sweep Arm.revoke_all Arm.sweep
step-IsQuiet t now (authorizes a p d src allowed) s h = let q = h.quiet in ground arith
step-IsQuiet t now (arms p ttl src scope i) s h = rw (h.latched, h.strict) (h.quiet)
step-IsQuiet t now (disarms src i) s h = disarm-IsQuiet t src i now s h.quiet
step-IsQuiet t now (engages reason src) s h = revoke_entries-IsQuiet t now s.grants h.quiet
step-IsQuiet t now (acknowledges src) s h = let q = h.quiet in ground arith
step-IsQuiet t now sweeps s h = All-keep_values (λ g. is_active g t ≡ false) _ s.grants h.quiet
step-IsQuiet t now (acquires d a src ttl o i) s h = let q = h.quiet in ground arith
step-IsQuiet t now (renews i ttl o) s h = let q = h.quiet in ground arith
step-IsQuiet t now (releases i) s h = h.quiet
step-IsQuiet t now (disconnects o) s h = h.quiet

run-IsStopped :
    (t : ℕ) (ks : List (ℕ × Call)) (s : SafetyManager)
    → All (λ k. is_no_ack k.1 ≡ true) ks
    → IsStopped t s
    → IsStopped t (run ks s)
unfolding run
run-IsStopped t [] s n h = h
run-IsStopped t ((now, k) ∷ ks) s n h = run-IsStopped t ks (step now k s) n.1 (record {
  latched = rw (step-latched now k s n.0 h.latched) (h.latched);
  strict = rw (step_config now k s) (h.strict);
  quiet = step-IsQuiet t now k s h;
})

engage-IsStopped :
    (reason : String) (src : ClientSource) (t : ℕ) (s : SafetyManager)
    → s.config.estop_requires_ack ≡ true
    → IsStopped t (engage_estop reason src t s).1
unfolding engage_estop engage Arm.revoke_all
engage-IsStopped reason src t s strict = record {
  latched = ground arith;
  strict = strict;
  quiet = revoke_entries_now t s.grants;
}

-- Under the default policy an emergency stop takes every authorization away for good: after any
-- calls by any clients in which no person acknowledges the stop, no grant of any class authorizes
-- any action on any device, at the time of the stop or later.
pub engaged_run_disarmed :
    (reason : String) (src : ClientSource) (t : ℕ) (s : SafetyManager) (ks : List (ℕ × Call))
    (p : PermissionLevel) (a : String) (d : Option String) (later : ℕ)
    → s.config.estop_requires_ack ≡ true
    → All (λ k. is_no_ack k.1 ≡ true) ks
    → t ≤ later
    → Arm.find p a d later (run ks (engage_estop reason src t s).1).grants ≡ none
engaged_run_disarmed reason src t s ks p a d later strict n le =
    let after = (engage_estop reason src t s).1 in
    let stopped = run-IsStopped t ks after n (engage-IsStopped reason src t s strict) in
    (find-none p a d later (run ks after).grants).1
      (quiet_find p a d t later (run ks after).grants le stopped.quiet)

-- An emergency stop hands every lease back for its safe state, and leaves none in the store.
pub engage_surrenders_leases :
    (reason : String) (src : ClientSource) (t : ℕ) (s : SafetyManager)
    → ((engage_estop reason src t s).0 ≡ values s.leases)
      × ((engage_estop reason src t s).1.leases ≡ [])
unfolding engage_estop Lease.take_all
engage_surrenders_leases reason src t s = (refl, refl)
