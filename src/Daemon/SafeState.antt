-- ===== src/Daemon/SafeState.antt =====
-- fielddeck/daemon/dispatcher.py: Dispatcher.apply_safe_state. Each driver's answer is an argument.
pub mod Generations
use field_deck.Prelude.{
  ℕ, ◌+◌, suc, String, Bool, true, false, not, ◌&&◌, Option, none, some, List, [], ◌∷◌, ◌++◌, map,
  if◌then◌else◌, any, keep, str_eq, ltb, ◌==◌, min,
}
use field_deck.Prelude.Dict.{Dict, lookup, insert, erase, values}
use field_deck.Common.Errors.{
  Result, ok, err, ◌>>=◌, ◌>>◌, require, ErrorCode, invalid_request, internal_error, device_busy,
  estop_active, lease_error, action_cancelled, safety_limit_exceeded,
}
use field_deck.Common.Permission.{PermissionLevel, passive, ClientSource, same_level}
use field_deck.Common.Events.{
  Event, EventType, action_requested, action_started, action_completed, action_failed,
  action_was_cancelled, limit_rejected, lease_acquired, lease_released, output_enabled,
  output_disabled, safe_state_applied, capture_started, capture_stopped,
}
use field_deck.Safety.Grant.{ArmGrant}
use field_deck.Safety.Lease
use field_deck.Safety.Lease.{OutputLease, Leases}
use field_deck.Safety.Limits.{Value, Floats, check_params, check_derived}
use field_deck.Safety.Manager
use field_deck.Safety.Manager.{SafetyManager, emit}
use field_deck.Daemon.Spec.{ActionSpec, effective_permission}
use field_deck.Daemon.Registry.{Driver, DeviceRegistry, lookup_action}
use field_deck.Daemon.State.{
  ActionRequest, Dispatcher, Running, capture_event, event, generation, generation_of, is_busy,
  lock, publish, unlock, wants_lock,
}

-- A driver's answer to a safe-state request, as the dispatcher sees it.
pub data SafeOutcome : Type 0 where
  applied not_needed reported_error timed_out raised_error : SafeOutcome

-- `not outcome.get("error")`, or the handlers of the timeout and the exception.
abbrev pub is_safe : SafeOutcome → Bool
is_safe applied = true
is_safe not_needed = true
is_safe reported_error = false
is_safe timed_out = false
is_safe raised_error = false

-- `driver.device_id in device_ids`
abbrev pub selected : Option (List String) → Driver → Bool
selected none d = true
selected (some ids) d = any (λ i. str_eq i d.device_id) ids

abbrev pub bump : String → Dict ℕ → Dict ℕ
bump i g = insert i (suc (generation i g)) g

abbrev pub bump_all : List Driver → Dict ℕ → Dict ℕ
bump_all [] g = g
bump_all (x ∷ xs) g = bump_all xs (bump x.device_id g)

abbrev pub safe_event : Driver → Event
safe_event x = record {
  type = safe_state_applied;
  source = none;
  device_id = some x.device_id;
  action = none;
  permission = none;
}

abbrev pub safe_results : (String → SafeOutcome) → List Driver → List (String × Bool)
safe_results outcome [] = []
safe_results outcome (x ∷ xs) =
    (x.device_id, is_safe (outcome x.device_id)) ∷ safe_results outcome xs

abbrev unregistered : Option (List String) → List (String × Bool)
unregistered none = []
unregistered (some ids) = map (λ i. (i, false)) ids

abbrev pub safe_chosen :
    List Driver
    → Option (List String)
    → (String → SafeOutcome)
    → Dispatcher
    → List (String × Bool) × Dispatcher
safe_chosen [] device_ids outcome d = (unregistered device_ids, d)
safe_chosen (x ∷ xs) device_ids outcome d = (
  safe_results outcome (x ∷ xs),
  publish (map safe_event (x ∷ xs)) (record d { generations = bump_all (x ∷ xs) d.generations }),
)

-- Dispatcher.apply_safe_state: the verdicts, and the state with every generation raised.
unfoldable pub apply_safe_state :
    Option (List String) → (String → SafeOutcome) → Dispatcher → List (String × Bool) × Dispatcher
apply_safe_state device_ids outcome d =
    safe_chosen (keep (selected device_ids) (values d.registry.drivers)) device_ids outcome d
