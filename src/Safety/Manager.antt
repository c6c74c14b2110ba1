-- ===== src/Safety/Manager.antt =====
-- fielddeck/safety/manager.py: SafetyManager. The state is a record; `_emit` appends to its log.
pub mod Authorize
pub mod History
pub mod Latch
pub mod Policy
pub mod Emergency
mod Tests
use field_deck.Prelude.{
  ℕ, String, Bool, true, false, not, ◌&&◌, Option, none, some, List, [], ◌∷◌, ◌++◌, map,
  if◌then◌else◌, any, str_eq,
}
use field_deck.Common.Errors.{Result, ok, err, permission_denied, estop_active}
use field_deck.Common.Permission.{
  PermissionLevel, passive, ClientSource, same_level, requires_grant,
}
use field_deck.Common.Events.{
  Event, EventType, action_denied, arm_granted, arm_expired, arm_revoked, lease_expired, estop,
  estop_cleared,
}
use field_deck.Safety.Grant.{ArmScope, ArmGrant}
use field_deck.Safety.Arm
use field_deck.Safety.Arm.{ArmRegistry}
use field_deck.Safety.Lease
use field_deck.Safety.Lease.{OutputLease, Leases}
use field_deck.Safety.Config.{SafetyConfig, max_ttl}
use field_deck.Safety.Estop.{EstopStatus, clear_status, engage, acknowledge}

pub record SafetyManager : Type 0 where
  pub config : SafetyConfig
  pub grants : ArmRegistry
  pub leases : Leases
  pub status : EstopStatus
  pub log : List Event

-- SafetyManager.__init__
abbrev pub boot : SafetyConfig → SafetyManager
boot c = record { config = c; grants = []; leases = []; status = clear_status; log = [] }

abbrev pub emit : List Event → SafetyManager → SafetyManager
emit events s = record s { log = s.log ++ events }

-- The event that `_deny` emits.
abbrev pub denial : String → PermissionLevel → Option String → ClientSource → Event
denial action permission device_id source = record {
  type = action_denied;
  source = some source;
  device_id = device_id;
  action = some action;
  permission = some permission;
}

abbrev pub is_denied : SafetyManager → PermissionLevel → Bool
is_denied s permission = any (λ p. same_level p permission) s.config.denied_permissions

-- A latched stop is waived for an action that declares it and is PASSIVE this time.
abbrev pub estop_waived : Bool → PermissionLevel → Bool
estop_waived allowed_during_estop permission = allowed_during_estop && same_level permission passive

abbrev pub grant_or_raise :
    Option ArmGrant → SafetyManager → SafetyManager → Result (Option ArmGrant) × SafetyManager
grant_or_raise none denied s = (err permission_denied, denied)
grant_or_raise (some g) denied s = (ok (some g), s)

-- SafetyManager.authorize
unfoldable pub authorize :
    String
    → PermissionLevel
    → Option String
    → ClientSource
    → Bool
    → ℕ
    → SafetyManager
    → Result (Option ArmGrant) × SafetyManager
authorize action permission device_id source allowed_during_estop now s =
    let denied = emit (denial action permission device_id source ∷ []) s in
    if is_denied s permission
    then (err permission_denied, denied)
    else if s.status.active && not (estop_waived allowed_during_estop permission)
    then (err estop_active, denied)
    else if not (requires_grant permission)
    then (ok none, s)
    else grant_or_raise (Arm.find permission action device_id now s.grants) denied s

abbrev pub grant_event : EventType → Option ClientSource → ArmGrant → Event
grant_event type source g = record {
  type = type;
  source = source;
  device_id = none;
  action = none;
  permission = some g.permission;
}

abbrev pub requested_ttl : Option ℕ → SafetyConfig → ℕ
requested_ttl none c = c.default_arm_ttl
requested_ttl (some t) c = t

abbrev pub armed :
    ClientSource → SafetyManager → Result (ArmGrant × ArmRegistry) → Result ArmGrant × SafetyManager
armed source s (err e) = (err e, s)
armed source s (ok (g, r)) =
    (ok g, emit (grant_event arm_granted (some source) g ∷ []) (record s { grants = r }))

-- SafetyManager.arm
unfoldable pub arm :
    PermissionLevel
    → Option ℕ
    → ClientSource
    → Option ArmScope
    → String
    → ℕ
    → SafetyManager
    → Result ArmGrant × SafetyManager
arm permission ttl source scope new_id now s =
    if s.status.active && s.config.estop_requires_ack
    then (err estop_active, s)
    else armed source s (
        Arm.create permission (requested_ttl ttl s.config) source scope
          (some (max_ttl s.config permission)) new_id now s.grants)

abbrev pub revoked_one : Option ArmGrant × ArmRegistry → List ArmGrant × ArmRegistry
revoked_one (none, r) = ([], r)
revoked_one (some g, r) = (g ∷ [], r)

-- `if grant_id`, where the empty text counts as none.
abbrev pub revoke_named : Option String → ℕ → ArmRegistry → List ArmGrant × ArmRegistry
revoke_named none now r = Arm.revoke_all now r
revoke_named (some i) now r =
    if str_eq i "" then Arm.revoke_all now r else revoked_one (Arm.revoke i r)

-- SafetyManager.disarm
unfoldable pub disarm :
    ClientSource → Option String → ℕ → SafetyManager → List ArmGrant × SafetyManager
disarm source grant_id now s =
    let (revoked, r) = revoke_named grant_id now s.grants in
    (revoked, emit (map (grant_event arm_revoked (some source)) revoked) (record s { grants = r }))

abbrev pub estop_event : EventType → ClientSource → Event
estop_event type source = record {
  type = type;
  source = some source;
  device_id = none;
  action = none;
  permission = none;
}

-- SafetyManager.engage_estop
unfoldable pub engage_estop :
    String → ClientSource → ℕ → SafetyManager → List OutputLease × SafetyManager
engage_estop reason source now s =
    let (leases, ls) = Lease.take_all s.leases in
    let (revoked, r) = Arm.revoke_all now s.grants in
    (
      leases,
      emit (map (grant_event arm_revoked (some source)) revoked ++ estop_event estop source ∷ [])
          (record s { status = engage reason source now s.status; leases = ls; grants = r }),
    )

abbrev pub acknowledged :
    ClientSource → SafetyManager → Result EstopStatus → Result (Unit {0}) × SafetyManager
acknowledged source s (err e) = (err e, s)
acknowledged source s (ok status) =
    (ok tt, emit (estop_event estop_cleared source ∷ []) (record s { status = status }))

-- SafetyManager.acknowledge_estop
unfoldable pub acknowledge_estop : ClientSource → SafetyManager → Result (Unit {0}) × SafetyManager
acknowledge_estop source s = acknowledged source s (acknowledge source s.status)

abbrev pub lease_event : EventType → OutputLease → Event
lease_event type l = record {
  type = type;
  source = none;
  device_id = some l.device_id;
  action = some l.action;
  permission = none;
}

-- SafetyManager.sweep
unfoldable pub sweep : ℕ → SafetyManager → (List ArmGrant × List OutputLease) × SafetyManager
sweep now s =
    let (expired_grants, r) = Arm.sweep now s.grants in
    let (expired_leases, ls) = Lease.sweep now s.leases in
    (
      (expired_grants, expired_leases),
      emit
          (map (grant_event arm_expired none) expired_grants
            ++ map (lease_event lease_expired) expired_leases)
          (record s { grants = r; leases = ls }),
    )

-- SafetyManager.reset
unfoldable pub reset : SafetyManager → SafetyManager
reset s = record s {
  grants = Arm.clear s.grants;
  leases = (Lease.take_all s.leases).1;
  status = clear_status;
}

pub record SafetySnapshot : Type 0 where
  pub estop_is_active : Bool
  pub active_grants : List ArmGrant
  pub active_leases : List OutputLease
  pub armed_permissions : List PermissionLevel

-- SafetyManager.snapshot
unfoldable pub snapshot : ℕ → SafetyManager → SafetySnapshot
snapshot now s = record {
  estop_is_active = s.status.active;
  active_grants = Arm.active now s.grants;
  active_leases = Lease.active now s.leases;
  armed_permissions = Arm.armed_permissions now s.grants;
}

pub data StateWord : Type 0 where
  estop_word armed_word safe_word : StateWord

-- SafetySnapshot.state_word
unfoldable pub state_word : SafetySnapshot → StateWord
state_word s =
    if s.estop_is_active
    then estop_word
    else elim s.armed_permissions [ [] ↦ safe_word | p ∷ ps ↦ armed_word ]
