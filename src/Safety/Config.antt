-- ===== src/Safety/Config.antt =====
-- fielddeck/common/config.py: SafetyConfig, and fielddeck/common/models.py: SafetyLimit. A duration
-- is a whole number of nanoseconds, and a policy's durations are not negative.
use field_deck.Prelude.{
  ℕ, String, Bool, true, false, Option, none, some, List, [], ◌∷◌, if◌then◌else◌, str_eq,
}
use field_deck.Prelude.Dict.{Dict, lookup}
use field_deck.Prelude.Number.{Number, above}
use field_deck.Common.Errors.{Result, ok, err, internal_error}
use field_deck.Common.Permission.{
  PermissionLevel, passive, query, control, power, flash, destructive, same_level,
}

pub record SafetyLimit : Type 0 where
  pub quantity : String
  pub minimum : Option Number
  pub maximum : Option Number

abbrev pub over : Number → Option Number → Bool
over v none = false
over v (some m) = above v m

abbrev pub under : Number → Option Number → Bool
under v none = false
under v (some m) = above m v

-- SafetyLimit.violation: whether there is one.
abbrev pub violation : SafetyLimit → Number → Bool
violation l v = if over v l.maximum then true else under v l.minimum

-- Python's `max` and `min` of two floats: the second only where it is strictly beyond.
abbrev pub larger : Number → Number → Number
larger a b = if above b a then b else a

abbrev pub smaller : Number → Number → Number
smaller a b = if above a b then b else a

-- _stricter
abbrev pub stricter : (Number → Number → Number) → Option Number → Option Number → Option Number
stricter choose none b = b
stricter choose (some a) none = some a
stricter choose (some a) (some b) = some (choose a b)

-- SafetyLimit.intersect, whose ValueError no caller turns into another error.
abbrev pub intersect : SafetyLimit → SafetyLimit → Result SafetyLimit
intersect l m =
    if str_eq m.quantity l.quantity
    then ok (record {
      quantity = l.quantity;
      minimum = stricter larger l.minimum m.minimum;
      maximum = stricter smaller l.maximum m.maximum;
    })
    else err internal_error

pub record SafetyConfig : Type 0 where
  pub global_limits : Dict SafetyLimit
  pub max_arm_ttl : List (PermissionLevel × ℕ)
  pub default_arm_ttl : ℕ
  pub default_lease_ttl : ℕ
  pub denied_permissions : List PermissionLevel
  pub estop_requires_ack : Bool
  pub device_limits : Dict (Dict SafetyLimit)

-- `self.device_limits.get(device_id, {}).get(quantity)`, behind `if device_id`.
abbrev pub device_limit : SafetyConfig → String → Option String → Option SafetyLimit
device_limit c quantity none = none
device_limit c quantity (some d) =
    if str_eq d ""
    then none
    else elim (lookup d c.device_limits) [ none ↦ none | some own ↦ lookup quantity own ]

abbrev pub combine : Option SafetyLimit → Option SafetyLimit → Result (Option SafetyLimit)
combine g none = ok g
combine none (some d) = ok (some d)
combine (some g) (some d) = elim (intersect g d) [ ok l ↦ ok (some l) | err e ↦ err e ]

-- SafetyConfig.limit_for
unfoldable pub limit_for : SafetyConfig → String → Option String → Result (Option SafetyLimit)
limit_for c quantity device_id =
    combine (lookup quantity c.global_limits) (device_limit c quantity device_id)

-- DEFAULT_MAX_TTL_S
abbrev default_max_ttl : PermissionLevel → Option ℕ
default_max_ttl passive = none
default_max_ttl query = some 900_000_000_000
default_max_ttl control = some 600_000_000_000
default_max_ttl power = some 300_000_000_000
default_max_ttl flash = some 900_000_000_000
default_max_ttl destructive = some 120_000_000_000

abbrev ttl_entry : PermissionLevel → List (PermissionLevel × ℕ) → Option ℕ
ttl_entry p [] = none
ttl_entry p ((q, ttl) ∷ m) = if same_level q p then some ttl else ttl_entry p m

abbrev or_else : Option ℕ → ℕ → ℕ
or_else none d = d
or_else (some t) d = t

-- SafetyConfig.max_ttl
unfoldable pub max_ttl : SafetyConfig → PermissionLevel → ℕ
max_ttl c p = or_else (ttl_entry p c.max_arm_ttl) (or_else (default_max_ttl p) c.default_arm_ttl)
