-- ===== src/Daemon/Registry/Resolve.antt =====
-- What a device reference resolves to.
use field_deck.Prelude.{String, none, some, List, [], ◌∷◌, keep, ◌≡◌, arith, Option-cases, inl, inr}
use field_deck.Prelude.Dict.{lookup, values}
use field_deck.Common.Errors.{ok, err, device_not_found}
use field_deck.Daemon.Registry.{
  Driver, DeviceRole, DeviceRegistry, resolve, role_of, fills, the_only,
}

-- Why a driver is what a reference means.
pub data Means (reference : String) (r : DeviceRegistry) (d : Driver) : Type 0 where
  by_id : lookup reference r.drivers ≡ some d → Means reference r d
  by_alias :
      (device_id : String)
      → lookup reference r.aliases ≡ some device_id
      → lookup device_id r.drivers ≡ some d
      → Means reference r d
  by_role :
      (role : DeviceRole)
      → role_of reference ≡ some role
      → keep (fills role) (values r.drivers) ≡ d ∷ []
      → Means reference r d

the_only_one : (ds : List Driver) (d : Driver) → the_only ds ≡ ok d → ds ≡ d ∷ []
the_only_one [] d e = cc
the_only_one (x ∷ []) d e = cc
the_only_one (x ∷ y ∷ ds) d e = cc

-- A reference resolves only to the device of that id, to the one that the alias names, or to the
-- single device that fills the role: where two fill it, no device is picked.
pub resolve-Means :
    (reference : String) (r : DeviceRegistry) (d : Driver)
    → resolve reference r ≡ ok d
    → Means reference r d
unfolding resolve
resolve-Means reference r d e = elim (Option-cases (lookup reference r.drivers)) [
  | inr (x, found) ↦ by_id (ground arith)
  | inl no_id ↦ elim (Option-cases (lookup reference r.aliases)) [
    | inr (device_id, named) ↦ elim (Option-cases (lookup device_id r.drivers)) [
      | inr (x, found) ↦ by_alias device_id named (ground arith)
      | inl gone ↦ absurd (ground arith)
    ]
    | inl no_alias ↦ elim (Option-cases (role_of reference)) [
      | inr (role, is_role) ↦
          by_role role is_role
            (the_only_one (keep (fills role) (values r.drivers)) d (ground arith))
      | inl no_role ↦ absurd (ground arith)
    ]
  ]
]

-- A reference that is no device's id and no alias, and names a role that two devices or more fill,
-- resolves to none of them.
pub resolve_ambiguous :
    (reference : String) (r : DeviceRegistry) (role : DeviceRole) (d e : Driver) (ds : List Driver)
    → lookup reference r.drivers ≡ none
    → lookup reference r.aliases ≡ none
    → role_of reference ≡ some role
    → keep (fills role) (values r.drivers) ≡ d ∷ e ∷ ds
    → resolve reference r ≡ err device_not_found
unfolding resolve
resolve_ambiguous reference r role d e ds no_id no_alias is_role two = ground arith
