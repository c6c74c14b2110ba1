-- ===== src/Safety/Arm.antt =====
-- fielddeck/safety/arm.py: ArmRegistry. The clock's reading and the fresh id are arguments; a
-- request for a time to live that is not positive is the number 0, which the same test refuses.
pub mod Find
pub mod Expiry
mod Tests
use field_deck.Prelude.{
  ℕ, ◌+◌, String, Bool, true, false, not, Option, none, some, List, [], ◌∷◌, ltb, leb, ◌==◌,
  if◌then◌else◌, any, keep, head?, map, sort_by,
}
use field_deck.Prelude.Dict.{Dict, lookup, insert, values, keep_values}
use field_deck.Common.Errors.{
  Result, ok, err, ◌>>=◌, ◌>>◌, require, permission_denied, invalid_request,
}
use field_deck.Common.Permission.{
  PermissionLevel, passive, query, control, power, flash, destructive, ClientSource, same_level,
  requires_grant, may_create_grants,
}
use field_deck.Safety.Grant.{ArmScope, ArmGrant, default_scope, specificity, matches, is_active}

abbrev pub ArmRegistry : Type 0
ArmRegistry = Dict ArmGrant

abbrev scope_or_default : Option ArmScope → ArmScope
scope_or_default none = default_scope
scope_or_default (some s) = s

-- The requested time to live, or the policy's ceiling where that is shorter.
abbrev clamp_ttl : Option ℕ → ℕ → ℕ
clamp_ttl none ttl = ttl
clamp_ttl (some cap) ttl = if ltb cap ttl then cap else ttl

-- The grant that `create` issues.
abbrev pub issued :
    PermissionLevel → ℕ → ClientSource → Option ArmScope → Option ℕ → String → ℕ → ArmGrant
issued permission ttl source scope max_ttl new_id now =
    let effective : ℕ = clamp_ttl max_ttl ttl in
    record {
      grant_id = new_id;
      permission = permission;
      scope = scope_or_default scope;
      created_by = source;
      created_monotonic_ns = now;
      expires_monotonic_ns = now + effective;
      ttl_ns = effective;
      revoked = false;
    }

-- ArmRegistry.create
unfoldable pub create :
    PermissionLevel
    → ℕ
    → ClientSource
    → Option ArmScope
    → Option ℕ
    → String
    → ℕ
    → ArmRegistry
    → Result (ArmGrant × ArmRegistry)
create permission ttl source scope max_ttl new_id now r = do
  require (may_create_grants source) permission_denied
  require (requires_grant permission) invalid_request
  require (ltb 0 ttl) invalid_request
  let g = issued permission ttl source scope max_ttl new_id now
  ok (g, insert new_id g r)

-- The condition of the comprehension in `find`.
abbrev pub is_candidate : PermissionLevel → String → Option String → ℕ → ArmGrant → Bool
is_candidate permission action device_id now g =
    if same_level g.permission permission
    then (if is_active g now then matches g.scope device_id action else false)
    else false

-- The sort key of `find`: scope first, then the sooner expiry.
abbrev pub narrower : ArmGrant → ArmGrant → Bool
narrower g h =
    if ltb (specificity g.scope.kind) (specificity h.scope.kind)
    then true
    else if specificity g.scope.kind == specificity h.scope.kind
    then leb g.expires_monotonic_ns h.expires_monotonic_ns
    else false

-- ArmRegistry.find
unfoldable pub find : PermissionLevel → String → Option String → ℕ → ArmRegistry → Option ArmGrant
find permission action device_id now r =
    head? (sort_by narrower (keep (is_candidate permission action device_id now) (values r)))

abbrev pub sooner : ArmGrant → ArmGrant → Bool
sooner g h = leb g.expires_monotonic_ns h.expires_monotonic_ns

-- ArmRegistry.active
unfoldable pub active : ℕ → ArmRegistry → List ArmGrant
active now r = sort_by sooner (keep (λ g. is_active g now) (values r))

-- ArmRegistry.armed_permissions: the set of classes, in the order of their rank.
unfoldable pub armed_permissions : ℕ → ArmRegistry → List PermissionLevel
unfolding active
armed_permissions now r =
    keep (λ p. any (λ g. same_level g.permission p) (active now r))
      (passive ∷ query ∷ control ∷ power ∷ flash ∷ destructive ∷ [])

abbrev pub revoked_grant : ArmGrant → ArmGrant
revoked_grant g = record g { revoked = true }

abbrev pub revoke_found : Option ArmGrant → String → ArmRegistry → Option ArmGrant × ArmRegistry
revoke_found none grant_id r = (none, r)
revoke_found (some g) grant_id r =
    if g.revoked then (none, r) else (some (revoked_grant g), insert grant_id (revoked_grant g) r)

-- ArmRegistry.revoke
unfoldable pub revoke : String → ArmRegistry → Option ArmGrant × ArmRegistry
revoke grant_id r = revoke_found (lookup grant_id r) grant_id r

abbrev pub revoke_entries : ℕ → ArmRegistry → ArmRegistry
revoke_entries now [] = []
revoke_entries now ((k, g) ∷ r) =
    (k, if is_active g now then revoked_grant g else g) ∷ revoke_entries now r

-- ArmRegistry.revoke_all
unfoldable pub revoke_all : ℕ → ArmRegistry → List ArmGrant × ArmRegistry
revoke_all now r =
    (map revoked_grant (keep (λ g. is_active g now) (values r)), revoke_entries now r)

-- The grants that `sweep` reports: not revoked, and past their expiry.
abbrev pub has_lapsed : ℕ → ArmGrant → Bool
has_lapsed now g = if g.revoked then false else leb g.expires_monotonic_ns now

-- ArmRegistry.sweep, which drops the revoked grants in silence.
unfoldable pub sweep : ℕ → ArmRegistry → List ArmGrant × ArmRegistry
sweep now r = (
  keep (has_lapsed now) (values r),
  keep_values (λ g. if g.revoked then false else not (leb g.expires_monotonic_ns now)) r,
)

-- ArmRegistry.clear
unfoldable pub clear : ArmRegistry → ArmRegistry
clear r = []
