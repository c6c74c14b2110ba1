-- ===== src/Daemon/Tests.antt =====
-- The dispatcher of fielddeck/daemon/dispatcher.py on one power supply: a call that switches the
-- output on, up to its handler and from there.
use field_deck.Prelude.{
  List, ℕ, ◌<◌, ◌++◌, String, true, false, Option, none, some, [], ◌∷◌, ◌≡◌, refl, inl,
}
use field_deck.Prelude.Dict.{lookup}
use field_deck.Prelude.Number.{nan, num, pos}
use field_deck.Common.Errors.{ok, err, action_timeout}
use field_deck.Common.Events.{capture_stopped}
use field_deck.Common.Permission.{power, hmi, claude}
use field_deck.Safety.Grant.{ArmGrant}
use field_deck.Safety.Arm
use field_deck.Safety.Arm.{issued}
use field_deck.Safety.Lease.{acquire}
use field_deck.Safety.Config.{SafetyConfig}
use field_deck.Safety.Limits.{Value, Floats, check_params, check_derived}
use field_deck.Safety.Manager.{boot, authorize}
use field_deck.Daemon.Spec.{ActionSpec, effective_permission}
use field_deck.Daemon.Registry.{Driver, DeviceRegistry, psu, lookup_action, resolve}
use field_deck.Daemon.Registry.Resolve.{Means, resolve-Means}
use field_deck.Daemon.State.{Dispatcher, ActionRequest, Running, generation, capture_event}
use field_deck.Daemon.Begin.{Prepared, prepare, begin, lease_ttl, take_lease}
use field_deck.Daemon.Begin.Admission.{Admitted, begin_admits, entered}
use field_deck.Daemon.Begin.Custody.{Custody, begin-Custody}
use field_deck.Daemon.SafeState.{SafeOutcome, applied}
use field_deck.Daemon.Finish.{returned, raised, finish, superseded_error, abandoned_event}
use field_deck.Safety.Manager.History.{engages}
use field_deck.Daemon.Interleaving.{Turn, manages, safes, turn, turns}
use field_deck.Daemon.Interleaving.Overtaken.{overtaken_refused}
use field_deck.Daemon.Finish.Revert.{finish_superseded, IsGone}
use field_deck.Daemon.Finish.Failure.{finish_unlocks, finish_raised, IsUnlocked}

abbrev no_floats : Floats
no_floats = record {
  parse = λ s. none;
  zero = num (pos 0);
  one = num (pos 1);
  times = λ a b. nan;
  plus = λ a b. nan;
}

abbrev output_on : ActionSpec
output_on = record {
  name = "psu.on";
  permission = power;
  validate = λ params. some params;
  state_changing = true;
  is_capture = false;
  timeout_ns = 1000;
  limit_checks = [];
  derived_limit_checks = [];
  allowed_during_estop = false;
  permission_resolver = none;
  requires_lease = true;
}

abbrev pub supply : Driver
supply = record { device_id = "psu1"; roles = psu ∷ []; actions = ("psu.on", output_on) ∷ [] }

abbrev spare : Driver
spare = record { device_id = "psu2"; roles = psu ∷ []; actions = [] }

abbrev pub bench : DeviceRegistry
bench = record {
  drivers = ("psu1", supply) ∷ ("psu2", spare) ∷ [];
  aliases = ("main", "psu1") ∷ [];
  global_actions = [];
}

abbrev bench_config : SafetyConfig
bench_config = record {
  global_limits = [];
  max_arm_ttl = [];
  default_arm_ttl = 60;
  default_lease_ttl = 10;
  denied_permissions = [];
  estop_requires_ack = true;
  device_limits = [];
}

abbrev bench_grant : ArmGrant
bench_grant = issued power 100 hmi none none "arm_1" 0

abbrev pub idle : Dispatcher
idle = record {
  registry = bench;
  safety = record (boot bench_config) { grants = ("arm_1", bench_grant) ∷ [] };
  busy = [];
  generations = [];
}

abbrev switch_on : ActionRequest
switch_on = record {
  action = "psu.on";
  params = ("device", Value.text "main") ∷ [];
  source = claude;
  timeout_ns = none;
}

abbrev no_duration : Value → Option ℕ
no_duration v = none

abbrev running : Running
running = record {
  spec = output_on;
  device_id = some "psu1";
  source = claude;
  effective = power;
  params = switch_on.params;
  lease_id = some "lease_1";
  safe_generation = 0;
}

abbrev after_begin : Dispatcher
after_begin = (begin no_floats no_duration switch_on (some 7) "lease_1" 5 idle).1

begins : begin no_floats no_duration switch_on (some 7) "lease_1" 5 idle ≡ (ok running, after_begin)
unfolding begin prepare lookup_action resolve effective_permission authorize Arm.find check_params
    check_derived take_lease acquire
begins = refl

begin_admits_example :
    (p : Prepared) × (g : Option ArmGrant) × Admitted no_floats switch_on 5 idle p g
    × (entered no_duration p switch_on (some 7) "lease_1" 5 idle ≡ (ok running, after_begin))
begin_admits_example =
    begin_admits no_floats no_duration switch_on (some 7) "lease_1" 5 idle running after_begin
      begins

begin-Custody_example :
    (p : Prepared) × (prepare switch_on idle.registry ≡ ok p)
    × Custody p claude (lease_ttl no_duration p idle) (some 7) "lease_1" 5 running after_begin
begin-Custody_example =
    begin-Custody no_floats no_duration switch_on (some 7) "lease_1" 5 idle running after_begin
      begins

abbrev pub all_applied : String → SafeOutcome
all_applied i = applied

-- The output was leased, and the device was driven safe while the handler ran.
abbrev pub overtaken : Dispatcher
overtaken = record idle {
  safety = record (idle.safety) {
    leases =
        (
          "lease_1",
          record {
            lease_id = "lease_1";
            device_id = "psu1";
            action = "psu.on";
            owner = claude;
            owner_connection = some 7;
            created_monotonic_ns = 5;
            expires_monotonic_ns = 15;
            ttl_ns = 10;
            released = false;
          },
        )
        ∷ [];
  };
  busy = ("psu1", "psu.on") ∷ [];
  generations = ("psu1", 1) ∷ [];
}

finish_superseded_example :
    ((finish returned running all_applied 9 overtaken).0 ≡ err (superseded_error overtaken))
    × (generation "psu1" overtaken.generations
        < generation "psu1" (finish returned running all_applied 9 overtaken).1.generations)
    × IsGone (some "lease_1") (finish returned running all_applied 9 overtaken).1
finish_superseded_example =
    finish_superseded running all_applied 9 overtaken supply refl (inl refl) (refl, tt) refl

finish_unlocks_example :
    IsUnlocked (some "psu1") (finish (raised action_timeout) running all_applied 9 overtaken).1
finish_unlocks_example =
    finish_unlocks (raised action_timeout) running all_applied 9 overtaken (refl, tt)

finish_raised_example :
    ((finish (raised action_timeout) running all_applied 9 overtaken).0 ≡ err action_timeout)
    × (lookup "lease_1"
          (finish (raised action_timeout) running all_applied 9 overtaken).1.safety.leases
        ≡ none)
    × ((finish (raised action_timeout) running all_applied 9 overtaken).1.generations
        ≡ overtaken.generations)
    × ((finish (raised action_timeout) running all_applied 9 overtaken).1.safety.log
        ≡ (overtaken.safety.log ++ abandoned_event running.device_id running.source ∷ [])
          ++ capture_event capture_stopped running.spec running.source running.device_id)
finish_raised_example =
    finish_raised action_timeout running all_applied 9 overtaken "lease_1" refl (refl, tt)

resolve-Means_example : Means "main" bench supply
unfolding resolve
resolve-Means_example = resolve-Means "main" bench supply refl

-- The operator stops everything while the handler is awaited.
abbrev emergency : List Turn
emergency = manages 6 (engages "smoke" hmi) ∷ []

abbrev stopped_meanwhile : Dispatcher
stopped_meanwhile = turns (emergency ++ safes none all_applied ∷ []) after_begin

overtaken_refused_example :
    (finish returned running all_applied 9 stopped_meanwhile).0
    ≡ err (superseded_error stopped_meanwhile)
unfolding begin prepare lookup_action resolve effective_permission authorize Arm.find check_params
    check_derived take_lease acquire turns turn
overtaken_refused_example =
    overtaken_refused no_floats no_duration switch_on (some 7) "lease_1" 5 idle running after_begin
      emergency [] none all_applied supply all_applied 9 begins refl (inl refl) refl
