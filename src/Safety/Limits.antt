-- ===== src/Safety/Limits.antt =====
-- fielddeck/safety/limits.py: LimitCheck, DerivedLimitCheck and LimitEnforcer. Float arithmetic and
-- the parsing of a text as a float are parameters.
pub mod Bounds
mod Tests
use field_deck.Prelude.{
  ℕ, String, Bool, true, false, Option, none, some, List, [], ◌∷◌, if◌then◌else◌,
}
use field_deck.Prelude.Dict.{Dict, lookup}
use field_deck.Prelude.Number.{Number}
use field_deck.Common.Errors.{
  Result, ok, err, ◌>>=◌, ◌>>◌, require, safety_limit_exceeded, internal_error,
}
use field_deck.Safety.Config.{SafetyConfig, SafetyLimit, violation, limit_for}

-- A parameter of a request.
pub data Value : Type 0 where
  null : Value
  number : Number → Value
  flag : Bool → Value
  text : String → Value
  other : Value

-- The float operations that the checks call.
pub record Floats : Type 0 where
  pub parse : String → Option Number
  pub zero : Number
  pub one : Number
  pub times : Number → Number → Number
  pub plus : Number → Number → Number

-- `float(raw)`, where `none` is a TypeError or a ValueError.
abbrev pub to_float : Floats → Value → Option Number
to_float fl null = none
to_float fl (number n) = some n
to_float fl (flag b) = some (if b then fl.one else fl.zero)
to_float fl (text s) = fl.parse s
to_float fl other = none

pub record LimitCheck : Type 0 where
  pub param : String
  pub quantity : String
  pub required : Bool

pub data DerivedOp : Type 0 where
  product sum unknown_op : DerivedOp

pub record DerivedLimitCheck : Type 0 where
  pub quantity : String
  pub params : List String
  pub op : DerivedOp

abbrev fold_values : (Number → Number → Number) → Number → List Number → Number
fold_values f acc [] = acc
fold_values f acc (v ∷ vs) = fold_values f (f acc v) vs

-- DerivedLimitCheck.compute, whose ValueError no caller turns into another error.
abbrev pub compute : Floats → DerivedOp → List Number → Result Number
compute fl product vs = ok (fold_values fl.times fl.one vs)
compute fl sum vs = ok (fold_values fl.plus fl.zero vs)
compute fl unknown_op vs = err internal_error

abbrev pub check_limit : Option SafetyLimit → Number → Result (Unit {0})
check_limit none v = ok tt
check_limit (some l) v = if violation l v then err safety_limit_exceeded else ok tt

-- LimitEnforcer.check_value
unfoldable pub check_value : SafetyConfig → String → Number → Option String → Result (Unit {0})
check_value c quantity v device_id = do limit ← limit_for c quantity device_id; check_limit limit v

-- A parameter that is absent or `None`.
abbrev pub given : Option Value → Option Value
given none = none
given (some null) = none
given (some v) = some v

abbrev check_float : SafetyConfig → String → Option String → Option Number → Result (Unit {0})
check_float c quantity device_id none = err safety_limit_exceeded
check_float c quantity device_id (some v) = check_value c quantity v device_id

abbrev check_given :
    Floats → SafetyConfig → Option String → LimitCheck → Option Value → Result (Unit {0})
check_given fl c device_id k none = if k.required then err safety_limit_exceeded else ok tt
check_given fl c device_id k (some raw) = check_float c k.quantity device_id (to_float fl raw)

-- LimitEnforcer.check_params
unfoldable pub check_params :
    Floats → SafetyConfig → Dict Value → List LimitCheck → Option String → Result (Unit {0})
check_params fl c params [] device_id = ok tt
check_params fl c params (k ∷ ks) device_id =
    check_given fl c device_id k (given (lookup k.param params))
    >> check_params fl c params ks device_id

-- The values of a derived check's parameters, unless one is absent or no float.
abbrev pub derived_values : Floats → Dict Value → List String → Option (List Number)
derived_values fl params [] = some []
derived_values fl params (n ∷ ns) = elim (given (lookup n params)) [
  | none ↦ none
  | some raw ↦ elim (to_float fl raw) [
    | none ↦ none
    | some v ↦ elim (derived_values fl params ns) [ none ↦ none | some vs ↦ some (v ∷ vs) ]
  ]
]

abbrev check_computed :
    Floats
    → SafetyConfig
    → Option String
    → DerivedLimitCheck
    → Option (List Number)
    → Result (Unit {0})
check_computed fl c device_id k none = ok tt
check_computed fl c device_id k (some vs) = do
  v ← compute fl k.op vs
  check_value c k.quantity v device_id

-- LimitEnforcer.check_derived
unfoldable pub check_derived :
    Floats → SafetyConfig → Dict Value → List DerivedLimitCheck → Option String → Result (Unit {0})
check_derived fl c params [] device_id = ok tt
check_derived fl c params (k ∷ ks) device_id =
    check_computed fl c device_id k (derived_values fl params k.params)
    >> check_derived fl c params ks device_id
