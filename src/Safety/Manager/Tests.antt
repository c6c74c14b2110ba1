-- ===== src/Safety/Manager/Tests.antt =====
-- The safety manager of fielddeck/safety/manager.py on concrete histories.
use field_deck.Prelude.{ℕ, true, false, none, some, List, [], ◌∷◌, ◌≡◌, refl, arith, inl}
use field_deck.Common.Errors.{ok, err, estop_active}
use field_deck.Common.Permission.{power, hmi, claude, system}
use field_deck.Safety.Grant.{ArmGrant}
use field_deck.Safety.Arm
use field_deck.Safety.Arm.{ArmRegistry, issued}
use field_deck.Safety.Config.{SafetyConfig}
use field_deck.Safety.Estop.{acknowledge}
use field_deck.Safety.Manager.{
  SafetyManager, boot, authorize, arm, sweep, acknowledge_estop, engage_estop, denial,
}
use field_deck.Safety.Manager.Authorize.{
  Unblocked, Granted, authorize_sound, authorize_complete, IsAudited, authorize_audit,
}
use field_deck.Safety.Manager.History.{
  Call, arms, engages, acknowledges, sweeps, authorizes, step, run,
}
use field_deck.Safety.Manager.Latch.{latched_refuses}
use field_deck.Safety.Manager.Policy.{IsSound, run-boot-IsSound}
use field_deck.Safety.Manager.Emergency.{engaged_run_disarmed}

abbrev plain_config : SafetyConfig
plain_config = record {
  global_limits = [];
  max_arm_ttl = (power, 500) ∷ [];
  default_arm_ttl = 60;
  default_lease_ttl = 10;
  denied_permissions = [];
  estop_requires_ack = true;
  device_limits = [];
}

abbrev held : ArmGrant
held = issued power 100 hmi none (some 500) "arm_1" 10

abbrev armed_manager : SafetyManager
armed_manager = record (boot plain_config) { grants = ("arm_1", held) ∷ [] }

authorize_sound_example :
    Unblocked armed_manager power false
    × Granted armed_manager "psu.on" power (some "psu1") 50 (some held)
    × (armed_manager ≡ armed_manager)
unfolding authorize Arm.find
authorize_sound_example =
    authorize_sound "psu.on" power (some "psu1") claude false 50 armed_manager armed_manager
      (some held) refl

authorize_complete_example :
    (h : ArmGrant) × (authorize "psu.on" power (some "psu1") claude false 50 armed_manager
      ≡ (ok (some h), armed_manager))
    × Granted armed_manager "psu.on" power (some "psu1") 50 (some h)
authorize_complete_example =
    authorize_complete "psu.on" power (some "psu1") claude false 50 armed_manager held
      (record { not_denied = refl; not_stopped = refl })
      (
        refl,
        inl refl,
        record {
          same_class = refl;
          not_revoked = refl;
          not_expired = omega arith;
          in_scope = refl;
        },
      )

authorize_audit_example :
    IsAudited armed_manager
      (denial "psu.on" power none claude)
      (authorize "psu.on" power none claude false 200 armed_manager)
authorize_audit_example = authorize_audit "psu.on" power none claude false 200 armed_manager

-- An operator tries to arm again, and an automated client to clear the stop.
abbrev attempts : List (ℕ × Call)
attempts =
    (60, arms power none hmi none "arm_2")
    ∷ (70, acknowledges claude)
    ∷ (80, sweeps)
    ∷ (90, authorizes "psu.on" power none claude false)
    ∷ []

abbrev stopped_manager : SafetyManager
stopped_manager = record armed_manager {
  status = record {
    active = true;
    reason = some "smoke";
    source = some hmi;
    engaged_monotonic_ns = some 50;
  };
}

latched_refuses_example :
    (authorize "psu.on" power none claude false 95 (run attempts stopped_manager)).0
    ≡ err estop_active
unfolding run step authorize arm sweep acknowledge_estop acknowledge
latched_refuses_example =
    latched_refuses attempts stopped_manager "psu.on" power none claude false 95
      (refl, (refl, (refl, (refl, tt)))) refl refl refl

abbrev session : List (ℕ × Call)
session = (10, arms power (some 100) hmi none "arm_1") ∷ (50, engages "smoke" system) ∷ attempts

run-boot-IsSound_example : IsSound plain_config (run session (boot plain_config)).grants
run-boot-IsSound_example = run-boot-IsSound plain_config session

engaged_run_disarmed_example :
    Arm.find power "psu.on"
      (some "psu1")
      95
      (run attempts (engage_estop "smoke" hmi 50 armed_manager).1).grants
    ≡ none
engaged_run_disarmed_example =
    engaged_run_disarmed "smoke" hmi 50 armed_manager attempts power "psu.on" (some "psu1") 95 refl
      (refl, (refl, (refl, (refl, tt)))) (omega arith)
