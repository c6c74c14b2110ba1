-- ===== src/Daemon/Finish/Revert.antt =====
-- A safe state that overtook a handler wins.
use field_deck.Prelude.{
  ℕ, ◌<◌, String, false, Option, none, some, [], ◌∷◌, if◌then◌else◌, Member, ◌==◌, ◌≡◌, refl, ap,
  subst, sym, ◌∙◌, str_eq_refl,
}
use field_deck.Prelude.Dict.{lookup, values, IsDict, erase-IsDict, lookup-erase_self}
use field_deck.Common.Errors.{err, estop_active, lease_error}
use field_deck.Common.Permission.{ClientSource}
use field_deck.Safety.Lease
use field_deck.Daemon.Registry.{Driver}
use field_deck.Daemon.State.{Dispatcher, Running, generation, unlock, wants_lock}
use field_deck.Daemon.SafeState.{SafeOutcome, apply_safe_state}
use field_deck.Daemon.SafeState.Generations.{
  apply_safe_state_covers, apply_safe_state-Untouched, Untouched,
}
use field_deck.Daemon.Finish.{
  returned, finish, abandon_lease, guarded_device, reject_if_superseded, superseded_error,
  leave_lock, handled,
}

pub unlock-safety : (l : Option String) (d : Dispatcher) → (unlock l d).safety ≡ d.safety
unlock-safety none d = refl
unlock-safety (some i) d = refl

pub unlock-generations :
    (l : Option String) (d : Dispatcher) → (unlock l d).generations ≡ d.generations
unlock-generations none d = refl
unlock-generations (some i) d = refl

-- Abandoning a lease takes it out of the store and leaves the rest of the state alone.
pub abandon-gone :
    (i : String) (device_id : Option String) (source : ClientSource) (d : Dispatcher)
    → IsDict d.safety.leases
    → lookup i (abandon_lease (some i) device_id source d).safety.leases ≡ none
unfolding abandon_lease Lease.release
abandon-gone i device_id source d h = lookup-erase_self i d.safety.leases h

abandon-IsDict :
    (l : Option String) (device_id : Option String) (source : ClientSource) (d : Dispatcher)
    → IsDict d.safety.leases
    → IsDict (abandon_lease l device_id source d).safety.leases
unfolding abandon_lease Lease.release
abandon-IsDict none device_id source d h = h
abandon-IsDict (some i) device_id source d h = erase-IsDict i d.safety.leases h

pub abandon-generations :
    (l : Option String) (device_id : Option String) (source : ClientSource) (d : Dispatcher)
    → (abandon_lease l device_id source d).generations ≡ d.generations
unfolding abandon_lease
abandon-generations none device_id source d = refl
abandon-generations (some i) device_id source d = refl

pub abandon-registry :
    (l : Option String) (device_id : Option String) (source : ClientSource) (d : Dispatcher)
    → (abandon_lease l device_id source d).registry ≡ d.registry
unfolding abandon_lease
abandon-registry none device_id source d = refl
abandon-registry (some i) device_id source d = refl

abandon-status :
    (l : Option String) (device_id : Option String) (source : ClientSource) (d : Dispatcher)
    → (abandon_lease l device_id source d).safety.status ≡ d.safety.status
unfolding abandon_lease
abandon-status none device_id source d = refl
abandon-status (some i) device_id source d = refl

-- A lease that a running action holds, or nothing where it holds none.
abbrev pub IsGone : Option String → Dispatcher → Type 0
IsGone none d = Unit
IsGone (some i) d = lookup i d.safety.leases ≡ none

pub abandon-IsGone :
    (l : Option String) (device_id : Option String) (source : ClientSource) (d : Dispatcher)
    → IsDict d.safety.leases
    → IsGone l (abandon_lease l device_id source d)
abandon-IsGone none device_id source d h = tt
abandon-IsGone (some i) device_id source d h = abandon-gone i device_id source d h

pub leave_lock-IsGone :
    (l : Option String) (r : Running) (d : Dispatcher) → IsGone l d → IsGone l (leave_lock r d)
leave_lock-IsGone none r d h = tt
leave_lock-IsGone (some i) r d h = rw (unlock-safety (wants_lock r.spec r.device_id) _) h

-- The state after the revert, before the lock is given back.
abbrev reverted : String → Running → (String → SafeOutcome) → Dispatcher → Dispatcher
reverted i r outcome d =
    (apply_safe_state (some (i ∷ [])) outcome (abandon_lease r.lease_id r.device_id r.source d)).1

rejected :
    (i : String) (r : Running) (outcome : String → SafeOutcome) (d : Dispatcher)
    → (generation i d.generations == r.safe_generation) ≡ false
    → reject_if_superseded (some i) r outcome d ≡ (err (superseded_error d), reverted i r outcome d)
unfolding reject_if_superseded
rejected i r outcome d h =
    let same : (reverted i r outcome d).safety.status ≡ d.safety.status =
      (apply_safe_state-Untouched (some (i ∷ [])) outcome
        (abandon_lease r.lease_id r.device_id r.source d)).same_status
      ∙ abandon-status r.lease_id r.device_id r.source d in
    rw h (
      ap (λ z. (err (if z.active then estop_active else lease_error), reverted i r outcome d)) same)

-- If the generation of a registered device is not the one that a state-changing handler sampled, and
-- no lease is stored twice, the action is refused when the handler returns: the device is driven
-- safe once more, so that its generation rises again, the lease that sustained the output is gone,
-- and the answer is an emergency stop, if one is latched, or a lost lease.
pub finish_superseded :
    (r : Running) (outcome : String → SafeOutcome) (now : ℕ) (d : Dispatcher) (x : Driver)
    → guarded_device r ≡ some x.device_id
    → Member x (values d.registry.drivers)
    → IsDict d.safety.leases
    → (generation x.device_id d.generations == r.safe_generation) ≡ false
    → ((finish returned r outcome now d).0 ≡ err (superseded_error d))
      × (generation x.device_id d.generations
          < generation x.device_id (finish returned r outcome now d).1.generations)
      × IsGone r.lease_id (finish returned r outcome now d).1
unfolding finish
finish_superseded r outcome now d x guarded m dict moved =
    let i = x.device_id in
    let back = reverted i r outcome d in
    let result : handled returned r outcome d ≡ (err (superseded_error d), back) =
      ap (λ g. reject_if_superseded g r outcome d) guarded ∙ rejected i r outcome d moved in
    rw result (
      refl,
      rw
          (
            unlock-generations (wants_lock r.spec r.device_id) _,
            abandon-generations r.lease_id r.device_id r.source back,
          )
          (subst (λ g. generation i g < generation i back.generations)
            (abandon-generations r.lease_id r.device_id r.source d) raised_again),
      leave_lock-IsGone r.lease_id r _ (
          abandon-IsGone r.lease_id r.device_id r.source back (
            subst IsDict (sym (kept.same_leases))
              (abandon-IsDict r.lease_id r.device_id r.source d dict))),
    )
  where
    kept :
        Untouched
          (abandon_lease r.lease_id r.device_id r.source d)
          (reverted x.device_id r outcome d)
    kept =
        apply_safe_state-Untouched (some (x.device_id ∷ [])) outcome
          (abandon_lease r.lease_id r.device_id r.source d)

    raised_again :
        generation x.device_id (abandon_lease r.lease_id r.device_id r.source d).generations
        < generation x.device_id (reverted x.device_id r outcome d).generations
    raised_again =
        apply_safe_state_covers (some (x.device_id ∷ [])) outcome
          (abandon_lease r.lease_id r.device_id r.source d) x
          (subst (λ g. Member x (values g.drivers))
            (sym (abandon-registry r.lease_id r.device_id r.source d)) m)
          (rw (str_eq_refl x.device_id))

-- The answer alone needs no device of the registry.
pub finish_refused :
    (r : Running) (outcome : String → SafeOutcome) (now : ℕ) (d : Dispatcher) (i : String)
    → guarded_device r ≡ some i
    → (generation i d.generations == r.safe_generation) ≡ false
    → (finish returned r outcome now d).0 ≡ err (superseded_error d)
unfolding finish
finish_refused r outcome now d i guarded moved =
    let result : handled returned r outcome d ≡ (err (superseded_error d), reverted i r outcome d) =
      ap (λ g. reject_if_superseded g r outcome d) guarded ∙ rejected i r outcome d moved in
    rw result refl
