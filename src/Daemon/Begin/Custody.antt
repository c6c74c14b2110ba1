-- ===== src/Daemon/Begin/Custody.antt =====
-- What is held when a handler starts: the device's lock, and the lease of a sustained output.
use field_deck.Prelude.{
  ℕ, ◌<◌, String, Option, none, some, List, [], ◌∷◌, ◌≡◌, refl, subst, arith, str_eq_refl,
}
use field_deck.Prelude.Dict.{lookup, insert, lookup-insert}
use field_deck.Common.Errors.{Result, ok, err}
use field_deck.Common.Permission.{PermissionLevel, ClientSource}
use field_deck.Common.Events.{Event, action_started, capture_started}
use field_deck.Safety.Lease
use field_deck.Safety.Lease.{OutputLease, Leases, acquired}
use field_deck.Safety.Limits.{Value, Floats}
use field_deck.Daemon.Spec.{ActionSpec}
use field_deck.Daemon.State.{
  Dispatcher, ActionRequest, Running, event, publish, wants_lock, lock, generation_of,
  capture_event,
}
use field_deck.Daemon.Begin.{
  Prepared, prepare, begin, timeout_for, take_lease, leased_device, lease_ttl, lease_taken,
  with_lease, with_timeout, requested,
}
use field_deck.Daemon.Begin.Admission.{begin_admits}

abbrev pub HoldsLock : Option String → String → Dispatcher → Type 0
HoldsLock none name d = Unit
HoldsLock (some i) name d = lookup i d.busy ≡ some name

-- For the device of a sustained output: the lease is in the store, made now and ending later.
abbrev pub HoldsLease :
    Option String
    → String
    → ClientSource
    → ℕ
    → Option ℕ
    → String
    → ℕ
    → Option String
    → Dispatcher
    → Type 0
HoldsLease none name source ttl connection_id new_id now lease_id d = lease_id ≡ none
HoldsLease (some i) name source ttl connection_id new_id now lease_id d =
    (lease_id ≡ some new_id)
    × (0 < ttl)
    × (lookup new_id d.safety.leases ≡ some (acquired i name source ttl connection_id new_id now))

pub record Custody (p : Prepared) (source : ClientSource) (ttl : ℕ) (connection_id : Option ℕ)
    (new_id : String) (now : ℕ) (r : Running) (d : Dispatcher) : Type 0 where
  pub same_spec : r.spec ≡ p.spec
  pub same_device : r.device_id ≡ p.device_id
  pub locked : HoldsLock (wants_lock p.spec p.device_id) p.spec.name d
  pub leased :
      HoldsLease
        (leased_device p.spec p.effective p.device_id)
        p.spec.name
        source
        ttl
        connection_id
        new_id
        now
        r.lease_id
        d
  pub sampled : r.safe_generation ≡ generation_of p.device_id d

lock-HoldsLock :
    (l : Option String) (name : String) (d : Dispatcher) → HoldsLock l name (lock l name d)
lock-HoldsLock none name d = tt
lock-HoldsLock (some i) name d = rw (lookup-insert i i name d.busy, str_eq_refl i)

take_lease-HoldsLock :
    (k l : Option String) (spec : ActionSpec) (effective : PermissionLevel) (source : ClientSource)
    (ttl : ℕ) (c : Option ℕ) (new_id : String) (now : ℕ) (name : String) (d : Dispatcher)
    → HoldsLock k name d
    → HoldsLock k name (take_lease l spec effective source ttl c new_id now d).1
unfolding take_lease
take_lease-HoldsLock none l spec effective source ttl c new_id now name d h = tt
take_lease-HoldsLock (some j) none spec effective source ttl c new_id now name d h = h
take_lease-HoldsLock (some j) (some i) spec effective source ttl c new_id now name d h =
    either (Lease.acquire i spec.name source ttl c new_id now d.safety.leases)
  where
    either :
        (o : Result (OutputLease × Leases))
        → HoldsLock (some j) name (lease_taken i spec effective source new_id d o).1
    either (err e) = h
    either (ok (l, ls)) = h

-- A successful `acquire`.
acquire-ok :
    (i name : String) (source : ClientSource) (ttl : ℕ) (c : Option ℕ) (new_id : String) (now : ℕ)
    (l : OutputLease) (ls ls' : Leases)
    → Lease.acquire i name source ttl c new_id now ls ≡ ok (l, ls')
    → (0 < ttl) × (lookup new_id ls' ≡ some (acquired i name source ttl c new_id now))
unfolding Lease.acquire
acquire-ok i name source ttl c new_id now l ls ls' h =
    let made = acquired i name source ttl c new_id now in
    let same : ls' ≡ insert new_id made ls = ground arith in
    (ground arith, rw same (rw (lookup-insert new_id new_id made ls, str_eq_refl new_id)))

take_lease-HoldsLease :
    (l : Option String) (spec : ActionSpec) (effective : PermissionLevel) (source : ClientSource)
    (ttl : ℕ) (c : Option ℕ) (new_id : String) (now : ℕ) (d : Dispatcher) (lease_id : Option String)
    → (take_lease l spec effective source ttl c new_id now d).0 ≡ ok lease_id
    → HoldsLease l spec.name source ttl c new_id now lease_id
        (take_lease l spec effective source ttl c new_id now d).1
unfolding take_lease
take_lease-HoldsLease none spec effective source ttl c new_id now d lease_id h = cc
take_lease-HoldsLease (some i) spec effective source ttl c new_id now d lease_id h =
    either (Lease.acquire i spec.name source ttl c new_id now d.safety.leases) refl h
  where
    either :
        (o : Result (OutputLease × Leases))
        → Lease.acquire i spec.name source ttl c new_id now d.safety.leases ≡ o
        → (lease_taken i spec effective source new_id d o).0 ≡ ok lease_id
        → HoldsLease
            (some i)
            spec.name
            source
            ttl
            c
            new_id
            now
            lease_id
            (lease_taken i spec effective source new_id d o).1
    either (err e) k m = cc
    either (ok (l, ls)) k m =
        let got = acquire-ok i spec.name source ttl c new_id now l d.safety.leases ls k in
        (cc, got.0, got.1)

publish-HoldsLock :
    (l : Option String) (name : String) (events : List Event) (d : Dispatcher)
    → HoldsLock l name d
    → HoldsLock l name (publish events d)
publish-HoldsLock none name events d h = tt
publish-HoldsLock (some i) name events d h = h

publish-HoldsLease :
    (l : Option String) (name : String) (source : ClientSource) (ttl : ℕ) (c : Option ℕ)
    (new_id : String) (now : ℕ) (lease_id : Option String) (events : List Event) (d : Dispatcher)
    → HoldsLease l name source ttl c new_id now lease_id d
    → HoldsLease l name source ttl c new_id now lease_id (publish events d)
publish-HoldsLease none name source ttl c new_id now lease_id events d h = h
publish-HoldsLease (some i) name source ttl c new_id now lease_id events d h = h

publish-generation :
    (l : Option String) (events : List Event) (d : Dispatcher)
    → generation_of l d ≡ generation_of l (publish events d)
publish-generation none events d = refl
publish-generation (some i) events d = refl

abbrev CustodyOf :
    Prepared → ClientSource → ℕ → Option ℕ → String → ℕ → Result Running × Dispatcher → Type 0
CustodyOf p source ttl c new_id now (err e, d) = Unit
CustodyOf p source ttl c new_id now (ok r, d) = Custody p source ttl c new_id now r d

-- A handler runs only in custody: it holds its device's lock under its own name, if it changes
-- state; the lease of a sustained output stands in the store before the handler touches the device,
-- bound to the connection that asked and ending in the future; and the device's generation is the
-- one that was sampled.
pub begin-Custody :
    (fl : Floats) (duration : Value → Option ℕ) (request : ActionRequest) (connection_id : Option ℕ)
    (new_id : String) (now : ℕ) (d : Dispatcher) (r : Running) (d' : Dispatcher)
    → begin fl duration request connection_id new_id now d ≡ (ok r, d')
    → (p : Prepared) × (prepare request d.registry ≡ ok p)
      × Custody p request.source (lease_ttl duration p d) connection_id new_id now r d'
begin-Custody fl duration request connection_id new_id now d r d' h =
    let all = begin_admits fl duration request connection_id new_id now d r d' h in
    let p = all.0 in (p, all.2.prepared, timed p (timeout_for p.spec request) all.3)
  where
    locked_state : Prepared → Dispatcher
    locked_state p = lock (wants_lock p.spec p.device_id) p.spec.name (requested request p d)

    started : Prepared → Dispatcher
    started p =
        publish
          (event action_started request.source p.device_id p.spec.name (some p.effective) ∷ [])
          (locked_state p)

    leased :
        (p : Prepared) (o : Result (Option String) × Dispatcher)
        → HoldsLock (wants_lock p.spec p.device_id) p.spec.name o.1
        → ((i : Option String)
            → o.0 ≡ ok i
            → HoldsLease
                (leased_device p.spec p.effective p.device_id)
                p.spec.name
                request.source
                (lease_ttl duration p d)
                connection_id
                new_id
                now
                i
                o.1)
        → with_lease p request.source o ≡ (ok r, d')
        → Custody p request.source (lease_ttl duration p d) connection_id new_id now r d'
    leased p (err e, e') k m q = cc
    leased p (ok i, e') k m q =
        let events = capture_event capture_started p.spec request.source p.device_id in
        subst (CustodyOf p request.source (lease_ttl duration p d) connection_id new_id now) q
          (record {
            same_spec = refl;
            same_device = refl;
            locked = publish-HoldsLock (wants_lock p.spec p.device_id) p.spec.name events e' k;
            leased =
                publish-HoldsLease (leased_device p.spec p.effective p.device_id) p.spec.name
                  request.source (lease_ttl duration p d) connection_id new_id now i events e'
                  (m i refl);
            sampled = publish-generation p.device_id events e';
          })

    timed :
        (p : Prepared) (t : Result ℕ)
        → with_timeout t p request.source
            (lease_ttl duration p d)
            connection_id
            new_id
            now
            (locked_state p)
          ≡ (ok r, d')
        → Custody p request.source (lease_ttl duration p d) connection_id new_id now r d'
    timed p (err e) m = cc
    timed p (ok t) m =
        let l = leased_device p.spec p.effective p.device_id in
        leased p
          (take_lease l p.spec p.effective request.source (lease_ttl duration p d) connection_id
            new_id now (started p))
          (take_lease-HoldsLock (wants_lock p.spec p.device_id) l p.spec p.effective request.source
            (lease_ttl duration p d) connection_id new_id now p.spec.name (started p)
            (publish-HoldsLock (wants_lock p.spec p.device_id) p.spec.name
              (event action_started request.source p.device_id p.spec.name (some p.effective) ∷ [])
              (locked_state p)
              (lock-HoldsLock (wants_lock p.spec p.device_id) p.spec.name (requested request p d))))
          (take_lease-HoldsLease l p.spec p.effective request.source (lease_ttl duration p d)
            connection_id new_id now (started p))
          m
