-- ===== src/Daemon/Interleaving/Monotone.antt =====
-- No turn of any task lowers the generation of a device.
use field_deck.Prelude.{
  ℕ, ◌≤◌, String, Option, none, some, List, [], ◌∷◌, ◌≡◌, refl, subst, arith, ◌∙◌, Bool-cases, inl,
  inr, ◌==◌, keep, str_eq,
}
use field_deck.Common.Errors.{Result, ok, err}
use field_deck.Common.Permission.{PermissionLevel, ClientSource}
use field_deck.Safety.Grant.{ArmGrant}
use field_deck.Safety.Lease
use field_deck.Safety.Lease.{OutputLease, Leases}
use field_deck.Safety.Limits.{Value, Floats}
use field_deck.Safety.Manager.{SafetyManager}
use field_deck.Daemon.Spec.{ActionSpec}
use field_deck.Daemon.State.{
  Dispatcher, ActionRequest, Running, generation, is_busy, lock, wants_lock,
}
use field_deck.Daemon.Begin.{
  Prepared, after_limits, authorized_or_raise, begin, begun, check_limits, in_lock, lease_taken,
  leased_device, prepare, requested, take_lease, timeout_for, with_lease, with_timeout,
}
use field_deck.Daemon.SafeState.{SafeOutcome, apply_safe_state}
use field_deck.Daemon.SafeState.Generations.{apply_safe_state_monotone}
use field_deck.Daemon.Finish.{
  Outcome, returned, raised, abandon_lease, finish, guarded_device, handled, leave_lock,
  reject_if_superseded, release_each, release_leases, settled, surrendering_device,
}
use field_deck.Daemon.Finish.Revert.{unlock-generations, abandon-generations}
use field_deck.Daemon.Interleaving.{Turn, begins, finishes, safes, manages, turn, turns}

lock-generations :
    (l : Option String) (name : String) (d : Dispatcher)
    → (lock l name d).generations ≡ d.generations
lock-generations none name d = refl
lock-generations (some i) name d = refl

lease_taken-generations :
    (i : String) (spec : ActionSpec) (effective : PermissionLevel) (source : ClientSource)
    (new_id : String) (d : Dispatcher) (o : Result (OutputLease × Leases))
    → (lease_taken i spec effective source new_id d o).1.generations ≡ d.generations
lease_taken-generations i spec effective source new_id d (err e) = refl
lease_taken-generations i spec effective source new_id d (ok (l, ls)) = refl

take_lease-generations :
    (l : Option String) (spec : ActionSpec) (effective : PermissionLevel) (source : ClientSource)
    (ttl : ℕ) (c : Option ℕ) (new_id : String) (now : ℕ) (d : Dispatcher)
    → (take_lease l spec effective source ttl c new_id now d).1.generations ≡ d.generations
unfolding take_lease
take_lease-generations none spec effective source ttl c new_id now d = refl
take_lease-generations (some i) spec effective source ttl c new_id now d =
    lease_taken-generations i spec effective source new_id d _

with_lease-generations :
    (p : Prepared) (source : ClientSource) (o : Result (Option String) × Dispatcher)
    → (with_lease p source o).1.generations ≡ o.1.generations
with_lease-generations p source (err e, d) = unlock-generations (wants_lock p.spec p.device_id) d
with_lease-generations p source (ok i, d) = refl

module _ (p : Prepared) (request : ActionRequest) (ttl : ℕ) (c : Option ℕ) (new_id : String)
    (now : ℕ) where
  with_timeout-generations :
      (t : Result ℕ) (d : Dispatcher)
      → (with_timeout t p request.source ttl c new_id now d).1.generations ≡ d.generations
  with_timeout-generations (err e) d = unlock-generations (wants_lock p.spec p.device_id) d
  with_timeout-generations (ok t) d =
      with_lease-generations p request.source (
        take_lease (leased_device p.spec p.effective p.device_id) p.spec p.effective request.source
          ttl c new_id now _)
      ∙ take_lease-generations (leased_device p.spec p.effective p.device_id) p.spec p.effective
          request.source ttl c new_id now _

  in_lock-generations :
      (d : Dispatcher) → (in_lock p request ttl c new_id now d).1.generations ≡ d.generations
  in_lock-generations d = elim (Bool-cases (is_busy (wants_lock p.spec p.device_id) d)) [
    | inl t ↦ rw t refl
    | inr t ↦ rw t (
        with_timeout-generations (timeout_for p.spec request) _
        ∙ lock-generations (wants_lock p.spec p.device_id) p.spec.name d)
  ]

  after_limits-generations :
      (o : Result (Unit {0})) (d : Dispatcher)
      → (after_limits o p request ttl c new_id now d).1.generations ≡ d.generations
  after_limits-generations (err e) d = refl
  after_limits-generations (ok tt) d = in_lock-generations d

begin-generations :
    (fl : Floats) (duration : Value → Option ℕ) (request : ActionRequest) (c : Option ℕ)
    (new_id : String) (now : ℕ) (d : Dispatcher)
    → (begin fl duration request c new_id now d).1.generations ≡ d.generations
unfolding begin
begin-generations fl duration request c new_id now d = prepared (prepare request d.registry)
  where
    authorized :
        (p : Prepared) (o : Result (Option ArmGrant) × SafetyManager)
        → (authorized_or_raise fl duration p request c new_id now
            (requested request p d)
            o).1.generations
          ≡ d.generations
    authorized p (err e, s) = refl
    authorized p (ok g, s) =
        after_limits-generations p request _ c new_id now
          (check_limits fl p.spec p.params p.device_id s) _

    prepared :
        (o : Result Prepared)
        → (begun fl duration request c new_id now d o).1.generations ≡ d.generations
    prepared (err e) = refl
    prepared (ok p) = authorized p _

release_each-generations :
    (ls : List OutputLease) (device_id : Option String) (name : String) (source : ClientSource)
    (d : Dispatcher)
    → (release_each ls device_id name source d).generations ≡ d.generations
release_each-generations [] device_id name source d = refl
release_each-generations (l ∷ ls) device_id name source d =
    release_each-generations ls device_id name source _

release_leases-generations :
    (g : Option String) (r : Running) (now : ℕ) (d : Dispatcher)
    → (release_leases g r now d).generations ≡ d.generations
unfolding release_leases
release_leases-generations none r now d = refl
release_leases-generations (some i) r now d =
    release_each-generations
      (keep (λ l. str_eq l.action r.spec.name) (Lease.for_device i now d.safety.leases)) (some i)
      r.spec.name r.source d

settled-generations :
    (r : Running) (now : ℕ) (o : Result (Unit {0}) × Dispatcher)
    → (settled r now o).1.generations ≡ o.1.generations
settled-generations r now (err e, d) =
    unlock-generations (wants_lock r.spec r.device_id) _
    ∙ abandon-generations r.lease_id r.device_id r.source d
settled-generations r now (ok tt, d) =
    release_leases-generations (surrendering_device r) r now (leave_lock r d)
    ∙ unlock-generations (wants_lock r.spec r.device_id) _

generation-le-reject :
    (g : Option String) (r : Running) (outcome : String → SafeOutcome) (d : Dispatcher) (j : String)
    → generation j d.generations ≤ generation j (reject_if_superseded g r outcome d).1.generations
unfolding reject_if_superseded
generation-le-reject none r outcome d j = omega arith
generation-le-reject (some i) r outcome d j =
    elim (Bool-cases (generation i d.generations == r.safe_generation)) [
      | inl t ↦ rw t (omega arith)
      | inr t ↦ rw t (
          subst
            (λ g.
              generation j g
              ≤ generation j
                  (apply_safe_state (some (i ∷ [])) outcome
                    (abandon_lease r.lease_id r.device_id r.source d)).1.generations)
            (abandon-generations r.lease_id r.device_id r.source d)
            (apply_safe_state_monotone (some (i ∷ [])) outcome
              (abandon_lease r.lease_id r.device_id r.source d) j))
    ]

generation-le-handled :
    (o : Outcome) (r : Running) (outcome : String → SafeOutcome) (d : Dispatcher) (j : String)
    → generation j d.generations ≤ generation j (handled o r outcome d).1.generations
generation-le-handled returned r outcome d j = generation-le-reject (guarded_device r) r outcome d j
generation-le-handled (raised e) r outcome d j = omega arith

generation-le-turn :
    (t : Turn) (d : Dispatcher) (j : String)
    → generation j d.generations ≤ generation j (turn t d).generations
unfolding turn finish
generation-le-turn (begins fl duration request c new_id now) d j =
    rw (begin-generations fl duration request c new_id now d) (omega arith)
generation-le-turn (finishes o r outcome now) d j =
    rw (settled-generations r now (handled o r outcome d)) (generation-le-handled o r outcome d j)
generation-le-turn (safes ids outcome) d j = apply_safe_state_monotone ids outcome d j
generation-le-turn (manages now c) d j = omega arith

-- Whatever turns the tasks of the daemon take, no device's generation falls.
pub generation-le-turns :
    (ts : List Turn) (d : Dispatcher) (j : String)
    → generation j d.generations ≤ generation j (turns ts d).generations
unfolding turns
generation-le-turns [] d j = omega arith
generation-le-turns (t ∷ ts) d j =
    omega (arith, generation-le-turn t d j, generation-le-turns ts (turn t d) j)
