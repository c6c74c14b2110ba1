-- ===== src/Safety/Manager/Latch.antt =====
-- The emergency stop is latched: from the moment it is engaged nothing but a person's
-- acknowledgement lets anything but a PASSIVE, safe action through.
use field_deck.Prelude.{
  ℕ, String, Bool, true, false, not, Option, List, [], ◌∷◌, All, ◌≡◌, refl, arith,
}
use field_deck.Common.Errors.{err, estop_active}
use field_deck.Common.Permission.{PermissionLevel, ClientSource, may_create_grants}
use field_deck.Safety.Estop.{engage, acknowledge}
use field_deck.Safety.Manager.{
  SafetyManager, authorize, arm, disarm, engage_estop, acknowledge_estop, sweep, is_denied,
  estop_waived,
}
use field_deck.Safety.Manager.History.{
  Call, authorizes, arms, disarms, engages, acknowledges, sweeps, acquires, renews, releases,
  disconnects, step, run,
}

-- Not an acknowledgement by a person.
abbrev pub is_no_ack : Call → Bool
is_no_ack (acknowledges source) = not (may_create_grants source)
is_no_ack _ = true

pub step-latched :
    (now : ℕ) (c : Call) (s : SafetyManager)
    → is_no_ack c ≡ true
    → s.status.active ≡ true
    → (step now c s).status ≡ s.status
unfolding step authorize arm disarm engage_estop acknowledge_estop sweep engage acknowledge
step-latched now (authorizes a p d src allowed) s n h = ground arith
step-latched now (arms p ttl src scope i) s n h = ground arith
step-latched now (disarms src i) s n h = ground arith
step-latched now (engages reason src) s n h = ground arith
step-latched now (acknowledges src) s n h = ground arith
step-latched now sweeps s n h = ground arith
step-latched now (acquires d a src ttl c i) s n h = ground arith
step-latched now (renews i ttl c) s n h = ground arith
step-latched now (releases i) s n h = refl
step-latched now (disconnects c) s n h = refl

-- A latched stop stays as it was engaged, with its first reason, through every history in which no
-- person acknowledges it: no expiry, no arming, no second stop and no automated client clears it.
pub run-latched :
    (cs : List (ℕ × Call)) (s : SafetyManager)
    → All (λ c. is_no_ack c.1 ≡ true) cs
    → s.status.active ≡ true
    → (run cs s).status ≡ s.status
unfolding run
run-latched [] s n h = refl
run-latched ((now, c) ∷ cs) s n h =
    let one = step-latched now c s n.0 h in
    let rest = run-latched cs (step now c s) n.1 (rw one h) in rw (rest, one)

-- After any history in which no person acknowledges a latched stop, an action that the stop is not
-- waived for, and whose class is not denied by policy anyway, is refused with the emergency stop's
-- error, whatever is armed.
pub latched_refuses :
    (cs : List (ℕ × Call)) (s : SafetyManager) (action : String) (p : PermissionLevel)
    (d : Option String) (source : ClientSource) (allowed : Bool) (now : ℕ)
    → All (λ c. is_no_ack c.1 ≡ true) cs
    → s.status.active ≡ true
    → estop_waived allowed p ≡ false
    → is_denied (run cs s) p ≡ false
    → (authorize action p d source allowed now (run cs s)).0 ≡ err estop_active
unfolding authorize
latched_refuses cs s action p d source allowed now n h w k =
    let kept = run-latched cs s n h in
    let still : (run cs s).status.active ≡ true = (rw kept h) in ground arith
