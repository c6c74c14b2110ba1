-- ===== src/Safety/Arm/Tests.antt =====
-- Grants of fielddeck/safety/arm.py on concrete registries.
use field_deck.Prelude.{true, false, none, some, [], ◌∷◌, keep, Member, All, ◌≡◌, refl}
use field_deck.Prelude.Dict.{values}
use field_deck.Common.Permission.{power, flash, hmi, fdctl}
use field_deck.Safety.Grant.{ArmGrant, default_scope, one_device}
use field_deck.Safety.Arm.{ArmRegistry, find, issued, is_candidate, narrower}
use field_deck.Safety.Arm.Find.{Authorizes, find_narrowest}

abbrev wide : ArmGrant
wide = record {
  grant_id = "arm_1";
  permission = power;
  scope = default_scope;
  created_by = hmi;
  created_monotonic_ns = 0;
  expires_monotonic_ns = 60;
  ttl_ns = 60;
  revoked = false;
}

abbrev narrow : ArmGrant
narrow = record {
  grant_id = "arm_2";
  permission = power;
  scope = record { kind = one_device; device_id = some "psu1"; action = none };
  created_by = fdctl;
  created_monotonic_ns = 0;
  expires_monotonic_ns = 90;
  ttl_ns = 90;
  revoked = false;
}

abbrev two_grants : ArmRegistry
two_grants = ("arm_1", wide) ∷ ("arm_2", narrow) ∷ []

find_narrowest_example :
    Member narrow (values two_grants)
    × Authorizes power "psu.on" (some "psu1") 50 narrow
    × All
        (λ h. narrower narrow h ≡ true)
        (keep (is_candidate power "psu.on" (some "psu1") 50) (values two_grants))
unfolding find
find_narrowest_example = find_narrowest power "psu.on" (some "psu1") 50 two_grants narrow refl

abbrev flash_grant : ArmGrant
flash_grant = issued flash 600 hmi none (some 500) "arm_3" 10
