-- ===== src/Daemon/Begin.antt =====
-- fielddeck/daemon/dispatcher.py: Dispatcher._execute up to the await of the handler.
pub mod Admission
pub mod Custody
use field_deck.Prelude.{
  ℕ, ◌+◌, suc, String, Bool, true, false, not, ◌&&◌, Option, none, some, List, [], ◌∷◌, ◌++◌, map,
  if◌then◌else◌, any, keep, str_eq, ltb, ◌==◌, min,
}
use field_deck.Prelude.Dict.{Dict, lookup, insert, erase, values}
use field_deck.Common.Errors.{
  Result, ok, err, ◌>>=◌, ◌>>◌, require, ErrorCode, invalid_request, internal_error, device_busy,
  estop_active, lease_error, action_cancelled, safety_limit_exceeded,
}
use field_deck.Common.Permission.{PermissionLevel, passive, ClientSource, same_level}
use field_deck.Common.Events.{
  Event, EventType, action_requested, action_started, action_completed, action_failed,
  action_was_cancelled, limit_rejected, lease_acquired, lease_released, output_enabled,
  output_disabled, safe_state_applied, capture_started, capture_stopped,
}
use field_deck.Safety.Grant.{ArmGrant}
use field_deck.Safety.Lease
use field_deck.Safety.Lease.{OutputLease, Leases}
use field_deck.Safety.Limits.{Value, Floats, check_params, check_derived}
use field_deck.Safety.Manager
use field_deck.Safety.Manager.{SafetyManager, emit}
use field_deck.Daemon.Spec.{ActionSpec, effective_permission}
use field_deck.Daemon.Registry.{Driver, DeviceRegistry, lookup_action}
use field_deck.Daemon.State.{
  ActionRequest, Dispatcher, Running, capture_event, event, generation, generation_of, is_busy,
  lock, publish, unlock, wants_lock,
}

-- MAX_TIMEOUT_S
abbrev pub max_timeout_ns : ℕ
max_timeout_ns = 3_600_000_000_000

abbrev or_default : Option ℕ → ℕ → ℕ
or_default none d = d
or_default (some t) d = t

-- Dispatcher._timeout_for
abbrev pub timeout_for : ActionSpec → ActionRequest → Result ℕ
timeout_for spec request =
    let requested : ℕ = or_default request.timeout_ns spec.timeout_ns in
    if ltb 0 requested then ok (min requested max_timeout_ns) else err invalid_request

-- Dispatcher._validate
abbrev validated : Option (Dict Value) → Result (Dict Value)
validated none = err invalid_request
validated (some v) = ok v

-- The limit checks; only an error of this package is published as a rejection.
abbrev pub check_limits :
    Floats → ActionSpec → Dict Value → Option String → SafetyManager → Result (Unit {0})
check_limits fl spec params device_id s =
    check_params fl s.config params spec.limit_checks device_id
    >> check_derived fl s.config params spec.derived_limit_checks device_id

-- Whether the call takes a lease: a sustained output on a device, not in the safe direction.
abbrev pub leased_device : ActionSpec → PermissionLevel → Option String → Option String
leased_device spec effective device_id =
    if spec.requires_lease then (if same_level effective passive then none else device_id) else none

abbrev pub lease_taken :
    String
    → ActionSpec
    → PermissionLevel
    → ClientSource
    → String
    → Dispatcher
    → Result (OutputLease × Leases)
    → Result (Option String) × Dispatcher
lease_taken i spec effective source new_id d (err e) = (err e, d)
lease_taken i spec effective source new_id d (ok (l, ls)) = (
  ok (some new_id),
  publish
      (event lease_acquired source (some i) spec.name (some effective)
        ∷ event output_enabled source (some i) spec.name (some effective)
        ∷ [])
      (record d { safety = record (d.safety) { leases = ls } }),
)

-- Dispatcher._take_lease
unfoldable pub take_lease :
    Option String
    → ActionSpec
    → PermissionLevel
    → ClientSource
    → ℕ
    → Option ℕ
    → String
    → ℕ
    → Dispatcher
    → Result (Option String) × Dispatcher
take_lease none spec effective source ttl connection_id new_id now d = (ok none, d)
take_lease (some i) spec effective source ttl connection_id new_id now d =
    lease_taken i spec effective source new_id d
      (Lease.acquire i spec.name source ttl connection_id new_id now d.safety.leases)

-- The call as it stands once it is authorized.
pub record Prepared : Type 0 where
  pub spec : ActionSpec
  pub device_id : Option String
  pub params : Dict Value
  pub effective : PermissionLevel

abbrev id_of : Option Driver → Option String
id_of none = none
id_of (some d) = some d.device_id

-- Resolution, validation and the permission for these parameters.
unfoldable pub prepare : ActionRequest → DeviceRegistry → Result Prepared
prepare request r = do
  (spec, driver) ← lookup_action request.action request.params r
  params ← validated (spec.validate request.params)
  effective ← effective_permission spec params
  ok (record { spec = spec; device_id = id_of driver; params = params; effective = effective })

-- Inside the device's lock, up to the handler: on an error the lock is given back.
abbrev pub with_lease :
    Prepared → ClientSource → Result (Option String) × Dispatcher → Result Running × Dispatcher
with_lease p source (err e, d) = (err e, unlock (wants_lock p.spec p.device_id) d)
with_lease p source (ok lease_id, d) = (
  ok (record {
    spec = p.spec;
    device_id = p.device_id;
    source = source;
    effective = p.effective;
    params = p.params;
    lease_id = lease_id;
    safe_generation = generation_of p.device_id d;
  }),
  publish (capture_event capture_started p.spec source p.device_id) d,
)

abbrev pub with_timeout :
    Result ℕ
    → Prepared
    → ClientSource
    → ℕ
    → Option ℕ
    → String
    → ℕ
    → Dispatcher
    → Result Running × Dispatcher
with_timeout (err e) p source ttl connection_id new_id now d =
    (err e, unlock (wants_lock p.spec p.device_id) d)
with_timeout (ok t) p source ttl connection_id new_id now d = with_lease p source (
    take_lease (leased_device p.spec p.effective p.device_id) p.spec p.effective source ttl
      connection_id new_id now
      (publish (event action_started source p.device_id p.spec.name (some p.effective) ∷ []) d))

abbrev pub in_lock :
    Prepared → ActionRequest → ℕ → Option ℕ → String → ℕ → Dispatcher → Result Running × Dispatcher
in_lock p request ttl connection_id new_id now d =
    let l = wants_lock p.spec p.device_id in
    if is_busy l d
    then (err device_busy, d)
    else with_timeout (timeout_for p.spec request) p request.source ttl connection_id new_id now
        (lock l p.spec.name d)

abbrev rejection : ErrorCode → List Event → List Event
rejection internal_error events = []
rejection e events = events

abbrev pub after_limits :
    Result (Unit {0})
    → Prepared
    → ActionRequest
    → ℕ
    → Option ℕ
    → String
    → ℕ
    → Dispatcher
    → Result Running × Dispatcher
after_limits (err e) p request ttl connection_id new_id now d = (
  err e,
  publish
      (rejection e
        (event limit_rejected request.source p.device_id p.spec.name (some p.effective) ∷ []))
      d,
)
after_limits (ok tt) p request ttl connection_id new_id now d =
    in_lock p request ttl connection_id new_id now d

-- `values.get("lease_ttl_s") or default_lease_ttl_s`, in nanoseconds; the reading of a value as a
-- duration, where it is truthy, is an argument.
abbrev pub lease_ttl : (Value → Option ℕ) → Prepared → Dispatcher → ℕ
lease_ttl duration p d = elim (lookup "lease_ttl_s" p.params) [
  | none ↦ d.safety.config.default_lease_ttl
  | some v ↦ or_default (duration v) d.safety.config.default_lease_ttl
]

abbrev pub after_authorization :
    Floats
    → (Value → Option ℕ)
    → Prepared
    → ActionRequest
    → Option ℕ
    → String
    → ℕ
    → Dispatcher
    → Result Running × Dispatcher
after_authorization fl duration p request connection_id new_id now d =
    after_limits (check_limits fl p.spec p.params p.device_id d.safety) p request
      (lease_ttl duration p d) connection_id new_id now d

abbrev pub authorized_or_raise :
    Floats
    → (Value → Option ℕ)
    → Prepared
    → ActionRequest
    → Option ℕ
    → String
    → ℕ
    → Dispatcher
    → Result (Option ArmGrant) × SafetyManager
    → Result Running × Dispatcher
authorized_or_raise fl duration p request connection_id new_id now d (err e, s) =
    (err e, record d { safety = s })
authorized_or_raise fl duration p request connection_id new_id now d (ok g, s) =
    after_authorization fl duration p request connection_id new_id now (record d { safety = s })

-- The request goes on the bus before it is authorized.
abbrev pub requested : ActionRequest → Prepared → Dispatcher → Dispatcher
requested request p d =
    publish (event action_requested request.source p.device_id p.spec.name (some p.effective) ∷ [])
      d

abbrev pub begun :
    Floats
    → (Value → Option ℕ)
    → ActionRequest
    → Option ℕ
    → String
    → ℕ
    → Dispatcher
    → Result Prepared
    → Result Running × Dispatcher
begun fl duration request connection_id new_id now d (err e) = (err e, d)
begun fl duration request connection_id new_id now d (ok p) =
    authorized_or_raise fl duration p request connection_id new_id now (requested request p d) (
      Manager.authorize p.spec.name p.effective p.device_id request.source
        p.spec.allowed_during_estop now (requested request p d).safety)

-- Dispatcher._execute, up to the await of the handler.
unfoldable pub begin :
    Floats
    → (Value → Option ℕ)
    → ActionRequest
    → Option ℕ
    → String
    → ℕ
    → Dispatcher
    → Result Running × Dispatcher
begin fl duration request connection_id new_id now d =
    begun fl duration request connection_id new_id now d (prepare request d.registry)
