-- ===== src/Safety/Estop.antt =====
-- fielddeck/safety/estop.py: EstopStatus and EstopController.
use field_deck.Prelude.{ℕ, String, Bool, true, false, Option, none, some, if◌then◌else◌}
use field_deck.Common.Errors.{Result, ok, err, permission_denied}
use field_deck.Common.Permission.{ClientSource, may_create_grants}

pub record EstopStatus : Type 0 where
  pub active : Bool
  pub reason : Option String
  pub source : Option ClientSource
  pub engaged_monotonic_ns : Option ℕ

abbrev pub clear_status : EstopStatus
clear_status = record { active = false; reason = none; source = none; engaged_monotonic_ns = none }

-- EstopController.engage
unfoldable pub engage : String → ClientSource → ℕ → EstopStatus → EstopStatus
engage reason source now s = if s.active then s else record {
  active = true;
  reason = some reason;
  source = some source;
  engaged_monotonic_ns = some now;
}

-- EstopController.acknowledge
unfoldable pub acknowledge : ClientSource → EstopStatus → Result EstopStatus
acknowledge source s = if may_create_grants source then ok clear_status else err permission_denied
