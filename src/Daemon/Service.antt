-- ===== src/Daemon/Service.antt =====
-- fielddeck/daemon/service.py: what the daemon does when leases lapse, when a client goes away, when
-- a device disappears and at an emergency stop; with Dispatcher.cancel of
-- fielddeck/daemon/dispatcher.py. Each runs without an await up to the drivers' safe states, whose
-- answers are an argument; the source of a connection is resolved by its caller.
pub mod Driven
pub mod Lapse
pub mod Stop
mod Tests
use field_deck.Prelude.{
  ℕ, String, Bool, true, false, not, ◌||◌, Option, none, some, List, [], ◌∷◌, ◌++◌, any, keep, map,
  if◌then◌else◌, str_eq,
}
use field_deck.Prelude.Dict.{Dict, lookup, erase}
use field_deck.Common.Errors.{Result, ok, err, permission_denied}
use field_deck.Common.Permission.{PermissionLevel, ClientSource, may_create_grants}
use field_deck.Common.Events.{Event, lease_expired, lease_renewed, lease_released}
use field_deck.Safety.Grant.{ArmGrant, ArmScope}
use field_deck.Safety.Lease
use field_deck.Safety.Lease.{OutputLease, Leases}
use field_deck.Safety.Manager
use field_deck.Safety.Manager.{
  SafetyManager, engage_estop, acknowledge_estop, arm, disarm, lease_event,
}
use field_deck.Daemon.State.{Dispatcher, publish}
use field_deck.Daemon.SafeState.{SafeOutcome, apply_safe_state}

-- What `cancel` reads and sets of a running action.
pub record RunningAction : Type 0 where
  pub request_id : Option String
  pub cancelable : Bool
  pub told : Bool
  pub torn : Bool

pub record Service : Type 0 where
  pub dispatcher : Dispatcher
  pub running : List RunningAction

abbrev pub is_request : String → RunningAction → Bool
is_request i a = elim a.request_id [ none ↦ false | some j ↦ str_eq j i ]

abbrev pub told_to_stop : RunningAction → RunningAction
told_to_stop a = record a { told = true; torn = a.torn || a.cancelable }

abbrev pub cancel_each : String → List RunningAction → List RunningAction
cancel_each i [] = []
cancel_each i (a ∷ rs) = (if is_request i a then told_to_stop a else a) ∷ cancel_each i rs

-- Dispatcher.cancel: whether it matched, and the actions afterwards.
unfoldable pub cancel_request : String → List RunningAction → Bool × List RunningAction
cancel_request i rs = (any (is_request i) rs, cancel_each i rs)

-- An empty id counts rs none.
abbrev pub cancel_named : Option String → List RunningAction → List RunningAction
cancel_named none rs = rs
cancel_named (some i) rs = if str_eq i "" then rs else cancel_each i rs

abbrev pub cancel_all : List RunningAction → List RunningAction → List RunningAction
cancel_all [] rs = rs
cancel_all (b ∷ bs) rs = cancel_all bs (cancel_named b.request_id rs)

abbrev pub with_dispatcher :
    Service → List (String × Bool) × Dispatcher → List (String × Bool) × Service
with_dispatcher s (answers, d) = (answers, record s { dispatcher = d })

abbrev pub with_safety : Service → SafetyManager → Service
with_safety s m = record s { dispatcher = record (s.dispatcher) { safety = m } }

-- The devices of some leases are driven safe, if there are any.
abbrev pub drive_safe :
    List OutputLease → (String → SafeOutcome) → Service → List (String × Bool) × Service
drive_safe [] outcome s = ([], s)
drive_safe (l ∷ ls) outcome s =
    with_dispatcher s
      (apply_safe_state (some (map (λ k. k.device_id) (l ∷ ls))) outcome s.dispatcher)

-- One tick of `_safety_loop`, as far as safety goes: the answers of the devices, and the state.
unfoldable pub safety_tick : ℕ → (String → SafeOutcome) → Service → List (String × Bool) × Service
unfolding Manager.sweep apply_safe_state
safety_tick now outcome s =
    let (swept, m) = Manager.sweep now s.dispatcher.safety in
    drive_safe swept.1 outcome (with_safety s m)

abbrev pub publish_orphans : List OutputLease → Service → Service
publish_orphans ls s = record s {
  dispatcher = publish (map (lease_event lease_expired) ls) s.dispatcher;
}

-- `_on_disconnect`
unfoldable pub on_disconnect : ℕ → (String → SafeOutcome) → Service → List (String × Bool) × Service
unfolding Lease.take_for_connection apply_safe_state
on_disconnect connection_id outcome s =
    let (orphaned, ls) = Lease.take_for_connection connection_id s.dispatcher.safety.leases in
    drive_safe orphaned outcome
      (publish_orphans orphaned (with_safety s (record (s.dispatcher.safety) { leases = ls })))

pub record EstopReport : Type 0 where
  pub surrendered_leases : List OutputLease
  pub safe_state : List (String × Bool)
  pub devices_not_safed : List String

abbrev pub not_safed : List (String × Bool) → List String
not_safed [] = []
not_safed ((i, safe) ∷ rs) = if safe then not_safed rs else i ∷ not_safed rs

abbrev pub reported : List OutputLease → List (String × Bool) × Service → EstopReport × Service
reported leases (answers, s) = (
  record {
    surrendered_leases = leases;
    safe_state = answers;
    devices_not_safed = not_safed answers;
  },
  s,
)

-- `_rpc_safety_estop`
unfoldable pub rpc_safety_estop :
    String → ClientSource → ℕ → (String → SafeOutcome) → Service → EstopReport × Service
unfolding engage_estop apply_safe_state
rpc_safety_estop reason source now outcome s =
    let (leases, m) = engage_estop reason source now s.dispatcher.safety in
    let stopped = record (with_safety s m) { running = cancel_all s.running s.running } in
    reported leases (with_dispatcher stopped (apply_safe_state none outcome stopped.dispatcher))

-- `_rpc_safety_estop_clear`
abbrev rpc_safety_estop_clear : ClientSource → Service → Result (Unit {0}) × Service
rpc_safety_estop_clear source s =
    let (r, m) = acknowledge_estop source s.dispatcher.safety in (r, with_safety s m)

-- `_rpc_safety_arm`, of a known permission.
abbrev rpc_safety_arm :
    PermissionLevel
    → Option ℕ
    → ClientSource
    → Option ArmScope
    → String
    → ℕ
    → Service
    → Result ArmGrant × Service
rpc_safety_arm permission ttl source scope new_id now s =
    let (r, m) = arm permission ttl source scope new_id now s.dispatcher.safety in
    if may_create_grants source then (r, with_safety s m) else (err permission_denied, s)

-- `_rpc_safety_disarm`
abbrev rpc_safety_disarm : ClientSource → Option String → ℕ → Service → List ArmGrant × Service
rpc_safety_disarm source grant_id now s =
    let (revoked, m) = disarm source grant_id now s.dispatcher.safety in (revoked, with_safety s m)

abbrev renewed_lease :
    ClientSource → Result (OutputLease × Leases) → Service → Result OutputLease × Service
renewed_lease source (err e) s = (err e, s)
renewed_lease source (ok (l, ls)) s = (
  ok l,
  record s {
    dispatcher =
        publish (record (lease_event lease_renewed l) { source = some source } ∷ [])
          (record (s.dispatcher) { safety = record (s.dispatcher.safety) { leases = ls } });
  },
)

-- `_rpc_lease_renew`
abbrev rpc_lease_renew :
    String → Option ℕ → ℕ → ClientSource → ℕ → Service → Result OutputLease × Service
rpc_lease_renew lease_id ttl connection_id source now s =
    renewed_lease source
      (Lease.renew lease_id ttl (some connection_id) now s.dispatcher.safety.leases) s

abbrev one_lease : Option OutputLease → List OutputLease
one_lease none = []
one_lease (some l) = l ∷ []

-- `_rpc_lease_release`
unfoldable rpc_lease_release :
    String → (String → SafeOutcome) → Service → List (String × Bool) × Service
unfolding Lease.release
rpc_lease_release lease_id outcome s =
    let (released, ls) = Lease.release lease_id s.dispatcher.safety.leases in
    drive_safe (one_lease released) outcome
      (with_safety s (record (s.dispatcher.safety) { leases = ls }))

abbrev pub release_all : List OutputLease → Leases → Leases
release_all [] ls = ls
release_all (l ∷ out) ls = release_all out (Lease.release l.lease_id ls).1

-- `_surrender_leases_for_lost_device`
abbrev surrender_leases : String → ℕ → Service → Service
surrender_leases device_id now s =
    let lost = Lease.for_device device_id now s.dispatcher.safety.leases in
    record s {
      dispatcher = publish (map (lease_event lease_released) lost) (record (s.dispatcher) {
        safety = record (s.dispatcher.safety) {
          leases = release_all lost s.dispatcher.safety.leases;
        };
      });
    }

-- `stop`, as far as the devices go.
unfoldable pub stop_service : (String → SafeOutcome) → Service → List (String × Bool) × Service
unfolding apply_safe_state
stop_service outcome s = with_dispatcher s (apply_safe_state none outcome s.dispatcher)
