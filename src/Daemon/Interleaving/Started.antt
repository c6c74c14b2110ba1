-- ===== src/Daemon/Interleaving/Started.antt =====
-- The dispatcher's dicts list no key twice: the calls on the manager, and the start of an action.
use field_deck.Prelude.{
  ℕ, String, Bool, Option, none, some, ◌≡◌, refl, sym, subst, arith, Bool-cases, Option-cases, inl,
  inr,
}
use field_deck.Prelude.Dict.{
  lookup, insert, IsDict, insert-IsDict, erase-IsDict, keep_values-IsDict,
}
use field_deck.Common.Errors.{Result, ok, err}
use field_deck.Common.Permission.{PermissionLevel, ClientSource}
use field_deck.Safety.Grant.{ArmGrant}
use field_deck.Safety.Lease
use field_deck.Safety.Lease.{OutputLease, Leases}
use field_deck.Safety.Limits.{Value, Floats}
use field_deck.Safety.Manager.{
  SafetyManager, authorize, arm, disarm, engage_estop, acknowledge_estop, sweep,
}
use field_deck.Safety.Manager.History.{
  Call, authorizes, arms, disarms, engages, acknowledges, sweeps, acquires, renews, releases,
  disconnects, step, after_leases,
}
use field_deck.Daemon.Spec.{ActionSpec}
use field_deck.Daemon.State.{Dispatcher, ActionRequest, is_busy, lock, unlock, wants_lock}
use field_deck.Daemon.Begin.{
  Prepared, after_limits, authorized_or_raise, begin, begun, check_limits, lease_taken,
  leased_device, prepare, requested, take_lease, timeout_for, with_lease, with_timeout,
}

-- No lease and no lock is stored twice.
pub record IsWellFormed (d : Dispatcher) : Type 0 where
  pub leases_once : IsDict d.safety.leases
  pub locks_once : IsDict d.busy

acquired-IsDict :
    (i a : String) (src : ClientSource) (ttl : ℕ) (c : Option ℕ) (n : String) (now : ℕ)
    (ls : Leases) (l : OutputLease) (ls' : Leases)
    → IsDict ls
    → Lease.acquire i a src ttl c n now ls ≡ ok (l, ls')
    → IsDict ls'
unfolding Lease.acquire
acquired-IsDict i a src ttl c n now ls l ls' h e =
    let made = Lease.acquired i a src ttl c n now in
    let same : ls' ≡ insert n made ls = ground arith in rw same (insert-IsDict n made ls h)

renewed-IsDict :
    (i : String) (ttl c : Option ℕ) (now : ℕ) (ls : Leases) (l' : OutputLease) (ls' : Leases)
    → IsDict ls
    → Lease.renew i ttl c now ls ≡ ok (l', ls')
    → IsDict ls'
unfolding Lease.renew
renewed-IsDict i ttl c now ls l' ls' h e =
    let same : ls' ≡ insert i l' ls = elim (Option-cases (lookup i ls)) [
      | inl missing ↦ absurd (ground arith)
      | inr (l, found) ↦ ground arith
    ] in
    rw same (insert-IsDict i l' ls h)

after_leases-IsDict :
    (s : SafetyManager) (o : Result (OutputLease × Leases))
    → IsDict s.leases
    → ((l : OutputLease) (ls : Leases) → o ≡ ok (l, ls) → IsDict ls)
    → IsDict (after_leases s o).leases
after_leases-IsDict s (err e) h k = h
after_leases-IsDict s (ok (l, ls)) h k = k l ls refl

pub step-IsDict :
    (now : ℕ) (c : Call) (s : SafetyManager) → IsDict s.leases → IsDict (step now c s).leases
unfolding step authorize arm disarm engage_estop acknowledge_estop sweep Lease.take_all Lease.sweep
    Lease.release Lease.take_for_connection
step-IsDict now (authorizes a p d src allowed) s h = ground arith
step-IsDict now (arms p ttl src scope i) s h = ground arith
step-IsDict now (disarms src i) s h = h
step-IsDict now (engages reason src) s h = tt
step-IsDict now (acknowledges src) s h = ground arith
step-IsDict now sweeps s h = keep_values-IsDict _ s.leases h
step-IsDict now (acquires d a src ttl c i) s h =
    after_leases-IsDict s (Lease.acquire d a src ttl c i now s.leases) h
      (λ l ls e. acquired-IsDict d a src ttl c i now s.leases l ls h e)
step-IsDict now (renews i ttl c) s h =
    after_leases-IsDict s (Lease.renew i ttl c now s.leases) h
      (λ l ls e. renewed-IsDict i ttl c now s.leases l ls h e)
step-IsDict now (releases i) s h = erase-IsDict i s.leases h
step-IsDict now (disconnects c) s h = keep_values-IsDict _ s.leases h

lock-IsWellFormed :
    (l : Option String) (name : String) (d : Dispatcher)
    → IsWellFormed d
    → IsWellFormed (lock l name d)
lock-IsWellFormed none name d h = h
lock-IsWellFormed (some i) name d h = record {
  leases_once = h.leases_once;
  locks_once = insert-IsDict i name d.busy h.locks_once;
}

pub unlock-IsWellFormed :
    (l : Option String) (d : Dispatcher) → IsWellFormed d → IsWellFormed (unlock l d)
unlock-IsWellFormed none d h = h
unlock-IsWellFormed (some i) d h = record {
  leases_once = h.leases_once;
  locks_once = erase-IsDict i d.busy h.locks_once;
}

take_lease-IsWellFormed :
    (l : Option String) (spec : ActionSpec) (effective : PermissionLevel) (source : ClientSource)
    (ttl : ℕ) (c : Option ℕ) (new_id : String) (now : ℕ) (d : Dispatcher)
    → IsWellFormed d
    → IsWellFormed (take_lease l spec effective source ttl c new_id now d).1
unfolding take_lease
take_lease-IsWellFormed none spec effective source ttl c new_id now d h = h
take_lease-IsWellFormed (some i) spec effective source ttl c new_id now d h =
    taken (Lease.acquire i spec.name source ttl c new_id now d.safety.leases) (λ l ls e.
      acquired-IsDict i spec.name source ttl c new_id now d.safety.leases l ls h.leases_once e)
  where
    taken :
        (o : Result (OutputLease × Leases))
        → ((l : OutputLease) (ls : Leases) → o ≡ ok (l, ls) → IsDict ls)
        → IsWellFormed (lease_taken i spec effective source new_id d o).1
    taken (err e) k = h
    taken (ok (l, ls)) k = record { leases_once = k l ls refl; locks_once = h.locks_once }

with_lease-IsWellFormed :
    (p : Prepared) (source : ClientSource) (o : Result (Option String) × Dispatcher)
    → IsWellFormed o.1
    → IsWellFormed (with_lease p source o).1
with_lease-IsWellFormed p source (err e, d) h =
    unlock-IsWellFormed (wants_lock p.spec p.device_id) d h
with_lease-IsWellFormed p source (ok i, d) h = record {
  leases_once = h.leases_once;
  locks_once = h.locks_once;
}

module _ (p : Prepared) (request : ActionRequest) (ttl : ℕ) (c : Option ℕ) (new_id : String)
    (now : ℕ) where
  with_timeout-IsWellFormed :
      (t : Result ℕ) (d : Dispatcher)
      → IsWellFormed d
      → IsWellFormed (with_timeout t p request.source ttl c new_id now d).1
  with_timeout-IsWellFormed (err e) d h = unlock-IsWellFormed (wants_lock p.spec p.device_id) d h
  with_timeout-IsWellFormed (ok t) d h =
      with_lease-IsWellFormed p request.source
        (take_lease (leased_device p.spec p.effective p.device_id) p.spec p.effective request.source
          ttl c new_id now _)
        (take_lease-IsWellFormed (leased_device p.spec p.effective p.device_id) p.spec p.effective
          request.source ttl c new_id now _
          (record { leases_once = h.leases_once; locks_once = h.locks_once }))

  after_limits-IsWellFormed :
      (o : Result (Unit {0})) (d : Dispatcher)
      → IsWellFormed d
      → IsWellFormed (after_limits o p request ttl c new_id now d).1
  after_limits-IsWellFormed (err e) d h = record {
    leases_once = h.leases_once;
    locks_once = h.locks_once;
  }
  after_limits-IsWellFormed (ok tt) d h =
      elim (Bool-cases (is_busy (wants_lock p.spec p.device_id) d)) [
        | inl t ↦ rw t h
        | inr t ↦ rw t (
            with_timeout-IsWellFormed (timeout_for p.spec request) _
              (lock-IsWellFormed (wants_lock p.spec p.device_id) p.spec.name d h))
      ]

authorize-leases :
    (a : String) (p : PermissionLevel) (d : Option String) (src : ClientSource) (allowed : Bool)
    (now : ℕ) (s : SafetyManager)
    → (authorize a p d src allowed now s).1.leases ≡ s.leases
unfolding authorize
authorize-leases a p d src allowed now s = ground arith

pub begin-IsWellFormed :
    (fl : Floats) (duration : Value → Option ℕ) (request : ActionRequest) (c : Option ℕ)
    (new_id : String) (now : ℕ) (d : Dispatcher)
    → IsWellFormed d
    → IsWellFormed (begin fl duration request c new_id now d).1
unfolding begin
begin-IsWellFormed fl duration request c new_id now d h = prepared (prepare request d.registry)
  where
    authorized :
        (p : Prepared) (o : Result (Option ArmGrant) × SafetyManager)
        → IsDict o.1.leases
        → IsWellFormed
            (authorized_or_raise fl duration p request c new_id now (requested request p d) o).1
    authorized p (err e, s) k = record { leases_once = k; locks_once = h.locks_once }
    authorized p (ok g, s) k =
        after_limits-IsWellFormed p request _ c new_id now
          (check_limits fl p.spec p.params p.device_id s) _
          (record { leases_once = k; locks_once = h.locks_once })

    prepared : (o : Result Prepared) → IsWellFormed (begun fl duration request c new_id now d o).1
    prepared (err e) = h
    prepared (ok p) = authorized p _ (
        subst IsDict
          (sym (
            authorize-leases p.spec.name p.effective p.device_id request.source
              p.spec.allowed_during_estop now (requested request p d).safety))
          h.leases_once)
