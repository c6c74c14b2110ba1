-- ===== src/Safety/Grant.antt =====
-- fielddeck/common/models.py: ArmScope and ArmGrant. Times are nanoseconds of the monotonic clock.
use field_deck.Prelude.{
  ℕ, String, Bool, true, false, Option, none, some, ltb, opt_eq, if◌then◌else◌,
}
use field_deck.Common.Permission.{PermissionLevel, ClientSource}

pub data ScopeKind : Type 0 where
  all_devices one_device one_action : ScopeKind

pub record ArmScope : Type 0 where
  pub kind : ScopeKind
  pub device_id : Option String
  pub action : Option String

-- `device_id is not None and device_id == self.device_id`
abbrev names_device : Option String → Option String → Bool
names_device none own = false
names_device (some d) own = opt_eq (some d) own

abbrev matches_kind : ScopeKind → ArmScope → Option String → String → Bool
matches_kind all_devices s device_id action = true
matches_kind one_device s device_id action = names_device device_id s.device_id
matches_kind one_action s device_id action = opt_eq (some action) s.action

-- ArmScope.matches
abbrev pub matches : ArmScope → Option String → String → Bool
matches s device_id action = matches_kind s.kind s device_id action

-- The key by which `find` ranks scopes.
abbrev pub specificity : ScopeKind → ℕ
specificity one_action = 0
specificity one_device = 1
specificity all_devices = 2

-- The scope of an `arm` request that names none.
abbrev pub default_scope : ArmScope
default_scope = record { kind = all_devices; device_id = none; action = none }

pub record ArmGrant : Type 0 where
  pub grant_id : String
  pub permission : PermissionLevel
  pub scope : ArmScope
  pub created_by : ClientSource
  pub created_monotonic_ns : ℕ
  pub expires_monotonic_ns : ℕ
  pub ttl_ns : ℕ
  pub revoked : Bool

-- ArmGrant.is_active
abbrev pub is_active : ArmGrant → ℕ → Bool
is_active g now = if g.revoked then false else ltb now g.expires_monotonic_ns
