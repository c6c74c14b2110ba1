-- ===== src/Daemon/Service/Lapse.antt =====
-- Outputs whose lease lapses, or whose client goes away, are driven safe.
use field_deck.Prelude.{
  ℕ, String, Bool, true, some, List, [], ◌∷◌, map, Member, Member-keep, ◌≡◌, refl, sym, subst,
}
use field_deck.Prelude.Dict.{values}
use field_deck.Safety.Lease
use field_deck.Safety.Lease.{OutputLease, Leases, has_lapsed, held_by}
use field_deck.Safety.Lease.Reap.{Split, sweep-Split, take_for_connection-Split}
use field_deck.Safety.Manager
use field_deck.Daemon.Registry.{Driver}
use field_deck.Daemon.SafeState.{SafeOutcome}
use field_deck.Daemon.SafeState.Generations.{apply_safe_state-Untouched}
use field_deck.Daemon.Service.{
  Service, drive_safe, safety_tick, on_disconnect, with_safety, publish_orphans,
}
use field_deck.Daemon.Service.Driven.{IsDriven, drive_safe-IsDriven}

-- Driving devices safe gives no lease back and takes none.
drive_safe_leases :
    (ls : List OutputLease) (outcome : String → SafeOutcome) (s : Service)
    → (drive_safe ls outcome s).1.dispatcher.safety.leases ≡ s.dispatcher.safety.leases
drive_safe_leases [] outcome s = refl
drive_safe_leases (l ∷ ls) outcome s =
    (apply_safe_state-Untouched (some (map (λ k. k.device_id) (l ∷ ls))) outcome
      s.dispatcher).same_leases

-- The leases that pass a test leave the store, no others do, and each registered device of one of
-- them is driven safe.
pub record TakenSafe (p : OutputLease → Bool) (outcome : String → SafeOutcome) (s : Service)
    (o : List (String × Bool) × Service) : Type 0 where
  pub out : List OutputLease
  pub split : Split p s.dispatcher.safety.leases out o.1.dispatcher.safety.leases
  pub driven :
      (l : OutputLease) (x : Driver)
      → Member l (values s.dispatcher.safety.leases)
      → p l ≡ true
      → Member x (values s.dispatcher.registry.drivers)
      → l.device_id ≡ x.device_id
      → IsDriven x outcome s.dispatcher.generations o.0 o.1.dispatcher

-- At a tick of the safety loop exactly the leases whose time is up leave the store, and every device
-- of such a lease that is still registered is asked for its safe state, with its generation raised,
-- so that no handler that is still running on it can report a success.
pub safety_tick-TakenSafe :
    (now : ℕ) (outcome : String → SafeOutcome) (s : Service)
    → TakenSafe (has_lapsed now) outcome s (safety_tick now outcome s)
unfolding safety_tick Manager.sweep Lease.sweep
safety_tick-TakenSafe now outcome s =
    let swept = Manager.sweep now s.dispatcher.safety in
    let after = with_safety s swept.1 in
    record {
      out = swept.0.1;
      split =
          subst (Split (has_lapsed now) s.dispatcher.safety.leases swept.0.1)
            (sym (drive_safe_leases swept.0.1 outcome after))
            (sweep-Split now s.dispatcher.safety.leases);
      driven = λ l x m h n e.
          drive_safe-IsDriven swept.0.1 l outcome after x
            (Member-keep (has_lapsed now) l (values s.dispatcher.safety.leases) m h) n e;
    }

-- When a client goes away exactly the leases that it held leave the store, and every registered
-- device of such a lease is asked for its safe state, with its generation raised.
pub on_disconnect-TakenSafe :
    (connection_id : ℕ) (outcome : String → SafeOutcome) (s : Service)
    → TakenSafe (held_by connection_id) outcome s (on_disconnect connection_id outcome s)
unfolding on_disconnect Lease.take_for_connection
on_disconnect-TakenSafe c outcome s =
    let taken = Lease.take_for_connection c s.dispatcher.safety.leases in
    let after =
      publish_orphans taken.0 (with_safety s (record (s.dispatcher.safety) { leases = taken.1 })) in
    record {
      out = taken.0;
      split =
          subst (Split (held_by c) s.dispatcher.safety.leases taken.0)
            (sym (drive_safe_leases taken.0 outcome after))
            (take_for_connection-Split c s.dispatcher.safety.leases);
      driven = λ l x m h n e.
          drive_safe-IsDriven taken.0 l outcome after x
            (Member-keep (held_by c) l (values s.dispatcher.safety.leases) m h) n e;
    }
