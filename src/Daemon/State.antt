-- ===== src/Daemon/State.antt =====
-- fielddeck/daemon/dispatcher.py: the state of the Dispatcher, the requests, the device locks and the
-- events. The bus is the log of the safety manager.
use field_deck.Prelude.{
  ℕ, String, Bool, true, false, Option, none, some, List, [], ◌∷◌, if◌then◌else◌,
}
use field_deck.Prelude.Dict.{Dict, lookup, insert, erase}
use field_deck.Common.Permission.{PermissionLevel, ClientSource}
use field_deck.Common.Events.{Event, EventType}
use field_deck.Safety.Limits.{Value}
use field_deck.Safety.Manager.{SafetyManager, emit}
use field_deck.Daemon.Spec.{ActionSpec}
use field_deck.Daemon.Registry.{DeviceRegistry}

pub record Dispatcher : Type 0 where
  pub registry : DeviceRegistry
  pub safety : SafetyManager
  -- The devices whose lock is held, and by which action.
  pub busy : Dict String
  -- _safe_state_generation
  pub generations : Dict ℕ

pub record ActionRequest : Type 0 where
  pub action : String
  pub params : Dict Value
  pub source : ClientSource
  pub timeout_ns : Option ℕ

abbrev pub publish : List Event → Dispatcher → Dispatcher
publish events d = record d { safety = emit events d.safety }

abbrev pub event :
    EventType → ClientSource → Option String → String → Option PermissionLevel → Event
event type source device_id action permission = record {
  type = type;
  source = some source;
  device_id = device_id;
  action = some action;
  permission = permission;
}

-- `self._safe_state_generation.get(device_id, 0)`
abbrev pub generation : String → Dict ℕ → ℕ
generation device_id g = elim (lookup device_id g) [ none ↦ 0 | some n ↦ n ]

-- What `begin` hands to `finish`.
pub record Running : Type 0 where
  pub spec : ActionSpec
  pub device_id : Option String
  pub source : ClientSource
  pub effective : PermissionLevel
  pub params : Dict Value
  pub lease_id : Option String
  pub safe_generation : ℕ

-- Whether the call takes the device's lock.
abbrev pub wants_lock : ActionSpec → Option String → Option String
wants_lock spec device_id = if spec.state_changing then device_id else none

abbrev pub is_busy : Option String → Dispatcher → Bool
is_busy none d = false
is_busy (some i) d = elim (lookup i d.busy) [ none ↦ false | some a ↦ true ]

abbrev pub lock : Option String → String → Dispatcher → Dispatcher
lock none name d = d
lock (some i) name d = record d { busy = insert i name d.busy }

abbrev pub unlock : Option String → Dispatcher → Dispatcher
unlock none d = d
unlock (some i) d = record d { busy = erase i d.busy }

abbrev pub generation_of : Option String → Dispatcher → ℕ
generation_of none d = generation "" d.generations
generation_of (some i) d = generation i d.generations

abbrev pub capture_event : EventType → ActionSpec → ClientSource → Option String → List Event
capture_event type spec source device_id =
    if spec.is_capture then event type source device_id spec.name none ∷ [] else []
