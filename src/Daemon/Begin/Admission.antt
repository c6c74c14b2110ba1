-- ===== src/Daemon/Begin/Admission.antt =====
-- What has been checked when a handler starts.
use field_deck.Prelude.{
  ℕ, String, false, Option, none, some, ◌≡◌, refl, ap, subst, Bool-cases, inl, inr,
}
use field_deck.Common.Errors.{Result, ok, err, >>-ok, device_busy}
use field_deck.Safety.Grant.{ArmGrant}
use field_deck.Safety.Limits.{Value, Floats, check_params, check_derived}
use field_deck.Safety.Manager
use field_deck.Safety.Manager.{SafetyManager}
use field_deck.Safety.Manager.Authorize.{Unblocked, Granted, authorize_sound}
use field_deck.Daemon.State.{Dispatcher, ActionRequest, Running, wants_lock, is_busy, lock}
use field_deck.Daemon.Begin.{
  Prepared, prepare, begin, begun, requested, timeout_for, lease_ttl, check_limits, with_timeout,
  in_lock, after_limits, authorized_or_raise,
}

module _ (p : Prepared) (request : ActionRequest) (ttl : ℕ) (connection_id : Option ℕ)
    (new_id : String) (now : ℕ) (r : Running) (d' : Dispatcher) where
  after_limits-ok :
      (o : Result (Unit {0})) (d : Dispatcher)
      → after_limits o p request ttl connection_id new_id now d ≡ (ok r, d')
      → (o ≡ ok tt) × (in_lock p request ttl connection_id new_id now d ≡ (ok r, d'))
  after_limits-ok (ok tt) d h = (refl, h)
  after_limits-ok (err e) d h = cc

  in_lock-ok :
      (d : Dispatcher)
      → in_lock p request ttl connection_id new_id now d ≡ (ok r, d')
      → (is_busy (wants_lock p.spec p.device_id) d ≡ false)
        × (with_timeout
              (timeout_for p.spec request)
              p
              request.source
              ttl
              connection_id
              new_id
              now
              (lock (wants_lock p.spec p.device_id) p.spec.name d)
            ≡ (ok r, d'))
  in_lock-ok d h = elim (Bool-cases (is_busy (wants_lock p.spec p.device_id) d)) [
    | inl t ↦ absurd (let stopped : (err device_busy, d) ≡ (ok r, d') = (rw t at h) in cc)
    | inr t ↦ (t, (rw t at h))
  ]

-- What the stages before the handler have established.
pub record Admitted (fl : Floats) (request : ActionRequest) (now : ℕ) (d : Dispatcher)
    (p : Prepared) (o : Option ArmGrant) : Type 0 where
  pub prepared : prepare request d.registry ≡ ok p
  pub unblocked : Unblocked d.safety p.effective p.spec.allowed_during_estop
  pub granted : Granted d.safety p.spec.name p.effective p.device_id now o
  pub in_limits : check_params fl d.safety.config p.params p.spec.limit_checks p.device_id ≡ ok tt
  pub in_derived_limits :
      check_derived fl d.safety.config p.params p.spec.derived_limit_checks p.device_id ≡ ok tt
  pub unlocked : is_busy (wants_lock p.spec p.device_id) d ≡ false

-- What is left to run once the call is admitted: the lock, the timeout and the lease.
abbrev pub entered :
    (Value → Option ℕ)
    → Prepared
    → ActionRequest
    → Option ℕ
    → String
    → ℕ
    → Dispatcher
    → Result Running × Dispatcher
entered duration p request connection_id new_id now d =
    with_timeout (timeout_for p.spec request) p request.source (lease_ttl duration p d)
      connection_id new_id now
      (lock (wants_lock p.spec p.device_id) p.spec.name (requested request p d))

module _ (fl : Floats) (duration : Value → Option ℕ) (request : ActionRequest)
    (connection_id : Option ℕ) (new_id : String) (now : ℕ) (d : Dispatcher) (r : Running)
    (d' : Dispatcher) where
  authorized-ok :
      (p : Prepared) (o : Result (Option ArmGrant) × SafetyManager)
      → authorized_or_raise fl duration p request connection_id new_id now (requested request p d) o
        ≡ (ok r, d')
      → (g : Option ArmGrant) × (o.0 ≡ ok g)
  authorized-ok p (ok g, s) h = (g, refl)
  authorized-ok p (err e, s) h = cc

  admitted :
      (p : Prepared) (g : Option ArmGrant) (s : SafetyManager)
      → prepare request d.registry ≡ ok p
      → Manager.authorize p.spec.name p.effective p.device_id request.source
          p.spec.allowed_during_estop now
          (requested request p d).safety
        ≡ (ok g, s)
      → authorized_or_raise fl duration p request connection_id new_id now
          (requested request p d)
          (ok g, s)
        ≡ (ok r, d')
      → Admitted fl request now d p g
        × (entered duration p request connection_id new_id now d ≡ (ok r, d'))
  admitted p g s e a h =
      let sound =
        authorize_sound p.spec.name p.effective p.device_id request.source
          p.spec.allowed_during_estop now (requested request p d).safety s g a in
      let h' =
        subst
          (λ z.
            authorized_or_raise fl duration p request connection_id new_id now
              (requested request p d) (ok g, z)
            ≡ (ok r, d'))
          sound.2 h in
      let passed =
        after_limits-ok p request (lease_ttl duration p d) connection_id new_id now r d'
          (check_limits fl p.spec p.params p.device_id (requested request p d).safety)
          (requested request p d) h' in
      let limits =
        >>-ok (check_params fl d.safety.config p.params p.spec.limit_checks p.device_id)
          (check_derived fl d.safety.config p.params p.spec.derived_limit_checks p.device_id)
          passed.0 in
      let entry =
        in_lock-ok p request (lease_ttl duration p d) connection_id new_id now r d'
          (requested request p d) passed.1 in
      (
        record {
          prepared = e;
          unblocked = record { not_denied = sound.0.not_denied; not_stopped = sound.0.not_stopped };
          granted = granted_same g sound.1;
          in_limits = limits.0;
          in_derived_limits = limits.1;
          unlocked = free (wants_lock p.spec p.device_id) entry.0;
        },
        entry.1,
      )
    where
      granted_same :
          (o : Option ArmGrant)
          → Granted (requested request p d).safety p.spec.name p.effective p.device_id now o
          → Granted d.safety p.spec.name p.effective p.device_id now o
      granted_same none k = k
      granted_same (some x) k = k

      free : (l : Option String) → is_busy l (requested request p d) ≡ false → is_busy l d ≡ false
      free none k = k
      free (some i) k = k

-- No handler starts unless its action is known, with its device if it has one, its parameters are
-- valid, nothing blocks its class, a grant of that class is held where one is needed, every limit
-- that it declares is kept, and, where the action changes state, nobody holds its device's lock.
pub begin_admits :
    (fl : Floats) (duration : Value → Option ℕ) (request : ActionRequest) (connection_id : Option ℕ)
    (new_id : String) (now : ℕ) (d : Dispatcher) (r : Running) (d' : Dispatcher)
    → begin fl duration request connection_id new_id now d ≡ (ok r, d')
    → (p : Prepared) × (g : Option ArmGrant) × Admitted fl request now d p g
      × (entered duration p request connection_id new_id now d ≡ (ok r, d'))
unfolding begin
begin_admits fl duration request connection_id new_id now d r d' h =
    outcome (prepare request d.registry) refl h
  where
    outcome :
        (o : Result Prepared)
        → prepare request d.registry ≡ o
        → begun fl duration request connection_id new_id now d o ≡ (ok r, d')
        → (p : Prepared) × (g : Option ArmGrant) × Admitted fl request now d p g
          × (entered duration p request connection_id new_id now d ≡ (ok r, d'))
    outcome (err e) k m = cc
    outcome (ok p) k m =
        let answer =
          Manager.authorize p.spec.name p.effective p.device_id request.source
            p.spec.allowed_during_estop now (requested request p d).safety in
        let yes_g = authorized-ok fl duration request connection_id new_id now d r d' p answer m in
        let whole : answer ≡ (ok yes_g.0, answer.1) = ap (λ z. (z, answer.1)) yes_g.1 in
        let all =
          admitted fl duration request connection_id new_id now d r d' p yes_g.0 answer.1 k whole (
            subst
              (λ z.
                authorized_or_raise fl duration p request connection_id new_id now
                  (requested request p d) z
                ≡ (ok r, d'))
              whole m) in
        (p, yes_g.0, all.0, all.1)
