-- ===== src/Safety/Limits/Tests.antt =====
-- The limit checks of fielddeck/safety/limits.py on a concrete policy, with addition of whole
-- numbers in place of the float operations.
use field_deck.Prelude.{ℕ, ◌+◌, ◌*◌, String, true, none, some, List, [], ◌∷◌, ◌≡◌, refl, ◌↔◌}
use field_deck.Prelude.Dict.{Dict, lookup}
use field_deck.Prelude.Number.{Number, nan, num, pos}
use field_deck.Common.Errors.{ok}
use field_deck.Safety.Config.{SafetyConfig, SafetyLimit, limit_for, device_limit}
use field_deck.Safety.Limits.{
  Value, number, Floats, LimitCheck, DerivedLimitCheck, product, check_value,
}
use field_deck.Safety.Limits.Bounds.{IsInside, check_value_both, check_value_nan}

abbrev sum_of : Number → Number → Number
sum_of (num (pos a)) (num (pos b)) = num (pos (a + b))
sum_of _ _ = nan

abbrev multiply : Number → Number → Number
multiply (num (pos a)) (num (pos b)) = num (pos (a * b))
multiply _ _ = nan

abbrev whole_floats : Floats
whole_floats = record {
  parse = λ s. none;
  zero = num (pos 0);
  one = num (pos 1);
  times = multiply;
  plus = sum_of;
}

abbrev bounded : String → ℕ → SafetyLimit
bounded quantity top = record {
  quantity = quantity;
  minimum = some (num (pos 0));
  maximum = some (num (pos top));
}

abbrev policy : SafetyConfig
policy = record {
  global_limits = ("voltage", bounded "voltage" 30) ∷ ("power", bounded "power" 60) ∷ [];
  max_arm_ttl = [];
  default_arm_ttl = 60;
  default_lease_ttl = 10;
  denied_permissions = [];
  estop_requires_ack = true;
  device_limits = ("psu1", ("voltage", bounded "voltage" 12) ∷ []) ∷ [];
}

check_value_both_example : (check_value policy "voltage" (num (pos 5)) (some "psu1") ≡ ok tt) ↔ (
    IsInside (lookup "voltage" policy.global_limits) (pos 5)
    × IsInside (device_limit policy "voltage" (some "psu1")) (pos 5))
check_value_both_example =
    check_value_both policy "voltage" (pos 5) (some "psu1") ((refl, refl), refl)

check_value_nan_example : check_value policy "voltage" nan none ≡ ok tt
unfolding limit_for
check_value_nan_example = check_value_nan policy "voltage" none (bounded "voltage" 30) refl

abbrev request : Dict Value
request = ("volts", number (num (pos 5))) ∷ ("amps", number (num (pos 3))) ∷ []

abbrev volts_check : List LimitCheck
volts_check = record { param = "volts"; quantity = "voltage"; required = true } ∷ []

abbrev power_check : List DerivedLimitCheck
power_check = record { quantity = "power"; params = "volts" ∷ "amps" ∷ []; op = product } ∷ []
