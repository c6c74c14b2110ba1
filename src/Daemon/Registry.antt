-- ===== src/Daemon/Registry.antt =====
-- fielddeck/daemon/registry.py: DeviceRegistry, as far as it resolves devices and actions.
pub mod Resolve
use field_deck.Prelude.{
  ℕ, String, Bool, true, false, Option, none, some, List, [], ◌∷◌, if◌then◌else◌, keep, any, str_eq,
  ◌==◌,
}
use field_deck.Prelude.Dict.{Dict, lookup, insert, erase, values}
use field_deck.Common.Errors.{
  Result, ok, err, ◌>>=◌, device_not_found, unknown_action, internal_error,
}
use field_deck.Safety.Limits.{Value, text}
use field_deck.Daemon.Spec.{ActionSpec}

pub data DeviceRole : Type 0 where
  psu dmm scope load funcgen counter generic_scpi bus analyzer programmer camera : DeviceRole

abbrev role_index : DeviceRole → ℕ
role_index psu = 0
role_index dmm = 1
role_index scope = 2
role_index load = 3
role_index funcgen = 4
role_index counter = 5
role_index generic_scpi = 6
role_index bus = 7
role_index analyzer = 8
role_index programmer = 9
role_index camera = 10

abbrev pub same_role : DeviceRole → DeviceRole → Bool
same_role a b = role_index a == role_index b

pub record Driver : Type 0 where
  pub device_id : String
  pub roles : List DeviceRole
  pub actions : Dict ActionSpec

pub record DeviceRegistry : Type 0 where
  pub drivers : Dict Driver
  pub aliases : Dict String
  pub global_actions : Dict ActionSpec

-- DeviceRegistry.add
unfoldable pub add : Driver → DeviceRegistry → DeviceRegistry
add d r = record r { drivers = insert d.device_id d r.drivers }

-- DeviceRegistry.remove
unfoldable pub remove : String → DeviceRegistry → DeviceRegistry
remove device_id r = record r { drivers = erase device_id r.drivers }

-- DeviceRegistry.set_aliases
abbrev set_aliases : Dict String → DeviceRegistry → DeviceRegistry
set_aliases aliases r = record r { aliases = aliases }

-- The references `role:<role>`.
abbrev role_references : List (String × DeviceRole)
role_references =
    ("role:psu", psu)
    ∷ ("role:dmm", dmm)
    ∷ ("role:scope", scope)
    ∷ ("role:load", load)
    ∷ ("role:funcgen", funcgen)
    ∷ ("role:counter", counter)
    ∷ ("role:generic_scpi", generic_scpi)
    ∷ ("role:bus", bus)
    ∷ ("role:analyzer", analyzer)
    ∷ ("role:programmer", programmer)
    ∷ ("role:camera", camera)
    ∷ []

-- Any other reference, also one with an unknown role, is not found.
unfoldable pub role_of : String → Option DeviceRole
role_of reference = lookup reference role_references

abbrev pub fills : DeviceRole → Driver → Bool
fills role d = any (same_role role) d.roles

-- One match is the answer; none and several are errors.
abbrev pub the_only : List Driver → Result Driver
the_only [] = err device_not_found
the_only (d ∷ []) = ok d
the_only (d ∷ e ∷ ds) = err device_not_found

abbrev or_not_found : Option Driver → Result Driver
or_not_found none = err device_not_found
or_not_found (some d) = ok d

abbrev resolve_role : Option DeviceRole → DeviceRegistry → Result Driver
resolve_role none r = err device_not_found
resolve_role (some role) r = the_only (keep (fills role) (values r.drivers))

abbrev resolve_alias : Option String → String → DeviceRegistry → Result Driver
resolve_alias (some device_id) reference r = or_not_found (lookup device_id r.drivers)
resolve_alias none reference r = resolve_role (role_of reference) r

abbrev resolve_driver : Option Driver → String → DeviceRegistry → Result Driver
resolve_driver (some d) reference r = ok d
resolve_driver none reference r = resolve_alias (lookup reference r.aliases) reference r

-- DeviceRegistry.resolve
unfoldable pub resolve : String → DeviceRegistry → Result Driver
resolve reference r =
    if str_eq reference ""
    then err device_not_found
    else resolve_driver (lookup reference r.drivers) reference r

abbrev resolved_or_none : Result Driver → Option Driver
resolved_or_none (ok d) = some d
resolved_or_none (err e) = none

-- DeviceRegistry.try_resolve
unfoldable pub try_resolve : String → DeviceRegistry → Option Driver
try_resolve reference r = resolved_or_none (resolve reference r)

abbrev is_known : Option ActionSpec → Bool
is_known none = false
is_known (some s) = true

-- DeviceRegistry.register_global, whose RuntimeError leaves what was registered before it.
unfoldable pub register_global :
    Dict ActionSpec → DeviceRegistry → Result (Unit {0}) × DeviceRegistry
register_global [] r = (ok tt, r)
register_global ((name, spec) ∷ specs) r =
    let rest =
      register_global specs (record r { global_actions = insert name spec r.global_actions }) in
    if is_known (lookup name r.global_actions) then (err internal_error, r) else rest

-- `params.get("device")`, if it is a text that is not empty.
abbrev device_reference : Option Value → Option String
device_reference (some (text s)) = if str_eq s "" then none else some s
device_reference _ = none

abbrev driver_action : String → Driver → Result (ActionSpec × Option Driver)
driver_action action d = elim (lookup action d.actions) [
  | none ↦ err unknown_action
  | some spec ↦ ok (spec, some d)
]

abbrev device_action : String → Option String → DeviceRegistry → Result (ActionSpec × Option Driver)
device_action action none r = err unknown_action
device_action action (some reference) r = resolve reference r >>= driver_action action

-- DeviceRegistry.lookup
unfoldable pub lookup_action :
    String → Dict Value → DeviceRegistry → Result (ActionSpec × Option Driver)
lookup_action action params r = elim (lookup action r.global_actions) [
  | some spec ↦ ok (spec, none)
  | none ↦ device_action action (device_reference (lookup "device" params)) r
]
