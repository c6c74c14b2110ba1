-- ===== src/Common/Events.antt =====
-- fielddeck/common/events.py: the events that the safety layer and the dispatcher publish, with
-- the fields by which they are told apart. Message and payload are left out, as is the severity.
use field_deck.Prelude.{String, Option}
use field_deck.Common.Permission.{PermissionLevel, ClientSource}

pub data EventType : Type 0 where
  action_requested action_started action_completed action_failed : EventType
  action_was_cancelled action_denied : EventType
  arm_granted arm_expired arm_revoked : EventType
  lease_acquired lease_renewed lease_released lease_expired : EventType
  output_enabled output_disabled limit_rejected safe_state_applied : EventType
  estop estop_cleared capture_started capture_stopped : EventType

pub record Event : Type 0 where
  pub type : EventType
  pub source : Option ClientSource
  pub device_id : Option String
  pub action : Option String
  pub permission : Option PermissionLevel
