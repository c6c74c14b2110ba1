-- ===== src/Daemon/Finish.antt =====
-- fielddeck/daemon/dispatcher.py: Dispatcher._execute from the end of the handler on.
pub mod Revert
pub mod Failure
use field_deck.Prelude.{
  ℕ, ◌+◌, suc, String, Bool, true, false, not, ◌&&◌, Option, none, some, List, [], ◌∷◌, ◌++◌, map,
  if◌then◌else◌, any, keep, str_eq, ltb, ◌==◌, min,
}
use field_deck.Prelude.Dict.{Dict, lookup, insert, erase, values}
use field_deck.Common.Errors.{
  Result, ok, err, ◌>>=◌, ◌>>◌, require, ErrorCode, invalid_request, internal_error, device_busy,
  estop_active, lease_error, action_cancelled, safety_limit_exceeded,
}
use field_deck.Common.Permission.{PermissionLevel, passive, ClientSource, same_level}
use field_deck.Common.Events.{
  Event, EventType, action_requested, action_started, action_completed, action_failed,
  action_was_cancelled, limit_rejected, lease_acquired, lease_released, output_enabled,
  output_disabled, safe_state_applied, capture_started, capture_stopped,
}
use field_deck.Safety.Grant.{ArmGrant}
use field_deck.Safety.Lease
use field_deck.Safety.Lease.{OutputLease, Leases}
use field_deck.Safety.Limits.{Value, Floats, check_params, check_derived}
use field_deck.Safety.Manager
use field_deck.Safety.Manager.{SafetyManager, emit}
use field_deck.Daemon.Spec.{ActionSpec, effective_permission}
use field_deck.Daemon.Registry.{Driver, DeviceRegistry, lookup_action}
use field_deck.Daemon.State.{
  ActionRequest, Dispatcher, Running, capture_event, event, generation, generation_of, is_busy,
  lock, publish, unlock, wants_lock,
}
use field_deck.Daemon.SafeState.{
  SafeOutcome, apply_safe_state, bump_all, is_safe, safe_event, selected,
}

-- How a handler ends: it returns, or raises, which includes a timeout and a cancellation.
pub data Outcome : Type 0 where
  returned : Outcome
  raised : ErrorCode → Outcome

abbrev pub abandoned_event : Option String → ClientSource → Event
abandoned_event device_id source = record {
  type = lease_released;
  source = some source;
  device_id = device_id;
  action = none;
  permission = none;
}

-- Dispatcher._abandon_lease
unfoldable pub abandon_lease :
    Option String → Option String → ClientSource → Dispatcher → Dispatcher
abandon_lease none device_id source d = d
abandon_lease (some i) device_id source d =
    publish (abandoned_event device_id source ∷ [])
      (record d { safety = record (d.safety) { leases = (Lease.release i d.safety.leases).1 } })

-- The device whose safe state the action could have undone.
abbrev pub guarded_device : Running → Option String
guarded_device r = if r.spec.state_changing then r.device_id else none

abbrev pub superseded_error : Dispatcher → ErrorCode
superseded_error d = if d.safety.status.active then estop_active else lease_error

-- Dispatcher._reject_if_superseded
unfoldable pub reject_if_superseded :
    Option String → Running → (String → SafeOutcome) → Dispatcher → Result (Unit {0}) × Dispatcher
unfolding abandon_lease
reject_if_superseded none r outcome d = (ok tt, d)
reject_if_superseded (some i) r outcome d =
    if generation i d.generations == r.safe_generation
    then (ok tt, d)
    else let reverted =
        (apply_safe_state (some (i ∷ [])) outcome
          (abandon_lease r.lease_id r.device_id r.source d)).1 in
      (err (superseded_error reverted), reverted)

abbrev pub release_each :
    List OutputLease → Option String → String → ClientSource → Dispatcher → Dispatcher
release_each [] device_id name source d = d
release_each (l ∷ ls) device_id name source d = release_each ls device_id name source (
    publish (event lease_released source device_id name none ∷ []) (record d {
      safety = record (d.safety) { leases = (Lease.release l.lease_id d.safety.leases).1 };
    }))

abbrev disabled_event : List OutputLease → Option String → String → ClientSource → List Event
disabled_event [] device_id name source = []
disabled_event (l ∷ ls) device_id name source =
    event output_disabled source device_id name none ∷ []

-- The device whose leases an action in the safe direction surrenders.
abbrev pub surrendering_device : Running → Option String
surrendering_device r =
    if r.spec.requires_lease
    then (if same_level r.effective passive then r.device_id else none)
    else none

-- Dispatcher._release_leases
unfoldable pub release_leases : Option String → Running → ℕ → Dispatcher → Dispatcher
release_leases none r now d = d
release_leases (some i) r now d =
    let released =
      keep (λ l. str_eq l.action r.spec.name) (Lease.for_device i now d.safety.leases) in
    publish (disabled_event released (some i) r.spec.name r.source)
      (release_each released (some i) r.spec.name r.source d)

-- Leaving the lock, with the end of a recording before it.
abbrev pub leave_lock : Running → Dispatcher → Dispatcher
leave_lock r d =
    unlock (wants_lock r.spec r.device_id)
      (publish (capture_event capture_stopped r.spec r.source r.device_id) d)

abbrev pub handled :
    Outcome → Running → (String → SafeOutcome) → Dispatcher → Result (Unit {0}) × Dispatcher
handled (raised e) r outcome d = (err e, d)
handled returned r outcome d = reject_if_superseded (guarded_device r) r outcome d

abbrev pub settled : Running → ℕ → Result (Unit {0}) × Dispatcher → Result (Unit {0}) × Dispatcher
settled r now (err e, d) = (err e, leave_lock r (abandon_lease r.lease_id r.device_id r.source d))
settled r now (ok tt, d) = (
  ok tt,
  publish (event action_completed r.source r.device_id r.spec.name (some r.effective) ∷ [])
      (release_leases (surrendering_device r) r now (leave_lock r d)),
)

-- Dispatcher._execute, from the handler's end.
unfoldable pub finish :
    Outcome → Running → (String → SafeOutcome) → ℕ → Dispatcher → Result (Unit {0}) × Dispatcher
finish o r outcome now d = settled r now (handled o r outcome d)

abbrev failure_type : ErrorCode → EventType
failure_type action_cancelled = action_was_cancelled
failure_type _ = action_failed

-- Dispatcher.execute: a failure is an event, and the answer.
unfoldable pub report_failure : ErrorCode → ActionRequest → Dispatcher → Dispatcher
report_failure e request d =
    publish (event (failure_type e) request.source none request.action none ∷ []) d
