-- ===== src/Safety/Arm/Find.antt =====
-- Which grant `ArmRegistry.find` picks, and what `create` adds to what it may pick.
use field_deck.Prelude.{
  ℕ, ◌+◌, ◌≤◌, ◌<◌, String, Bool, true, false, Option, none, some, subst, List, [], ◌∷◌, ◌++◌,
  if◌then◌else◌, keep, head?, sort_by, sort_by-Member, sort_by-least, keep-Member, keep_refused,
  keep-none, Member, All, ◌≡◌, refl, ap, arith, Bool-cases, str_eq, ◌↔◌, inl, inr, HeadIsLeast,
}
use field_deck.Prelude.Dict.{lookup, insert, values, lookup-insert}
use field_deck.Common.Errors.{ok}
use field_deck.Common.Permission.{
  PermissionLevel, ClientSource, same_level, same_level-eq, same_level_refl, requires_grant,
  may_create_grants,
}
use field_deck.Safety.Grant.{ArmScope, ArmGrant, matches, is_active}
use field_deck.Safety.Arm.{ArmRegistry, create, find, is_candidate, narrower, issued}

narrower_total : (x y : ArmGrant) → narrower x y ≡ false → narrower y x ≡ true
narrower_total x y h = ground arith

narrower_trans :
    (x y z : ArmGrant) → narrower x y ≡ true → narrower y z ≡ true → narrower x z ≡ true
narrower_trans x y z h k = ground arith

narrower_refl : (x : ArmGrant) → narrower x x ≡ true
narrower_refl x = ground arith

-- What makes a grant authorize an action at a time.
pub record Authorizes (permission : PermissionLevel) (action : String) (device_id : Option String)
    (now : ℕ) (g : ArmGrant) : Type 0 where
  pub same_class : g.permission ≡ permission
  pub not_revoked : g.revoked ≡ false
  pub not_expired : now < g.expires_monotonic_ns
  pub in_scope : matches g.scope device_id action ≡ true

is_candidate-Authorizes :
    (p : PermissionLevel) (a : String) (d : Option String) (now : ℕ) (g : ArmGrant)
    → is_candidate p a d now g ≡ true
    → Authorizes p a d now g
is_candidate-Authorizes p a d now g h = elim (Bool-cases (same_level g.permission p)) [
  | inl e ↦
      let rest : (if is_active g now then matches g.scope d a else false) ≡ true = (rw e at h) in
      record {
        same_class = same_level-eq g.permission p e;
        not_revoked = ground arith;
        not_expired = ground arith;
        in_scope = ground arith;
      }
  | inr e ↦ absurd (let no_way : false ≡ true = (rw e at h) in cc)
]

pub Authorizes-is_candidate :
    (p : PermissionLevel) (a : String) (d : Option String) (now : ℕ) (g : ArmGrant)
    → Authorizes p a d now g
    → is_candidate p a d now g ≡ true
Authorizes-is_candidate p a d now g v =
    let e : same_level g.permission p ≡ true = rw (v.same_class) (same_level_refl p) in
    rw e (ground arith)

-- The first of a list that is sorted by `narrower`.
head_is_least :
    (xs ys : List ArmGrant) (g : ArmGrant)
    → head? ys ≡ some g
    → HeadIsLeast narrower narrower_total narrower_trans narrower_refl ys xs
    → Member g ys × All (λ h. narrower g h ≡ true) xs
head_is_least xs [] g e h = cc
head_is_least xs (y ∷ ys) g e h =
    let same : y ≡ g = cc in
    subst (λ z. Member z (y ∷ ys) × All (λ h'. narrower z h' ≡ true) xs) same (inl refl, h)

-- All that `find` promises of the grant that it returns: it stands in the registry, it is of the
-- very class asked for, it is neither revoked nor past its expiry, its scope covers the action on
-- the device, and no other grant that would do is narrower (or as narrow and sooner to expire).
pub find_narrowest :
    (p : PermissionLevel) (a : String) (d : Option String) (now : ℕ) (r : ArmRegistry)
    (g : ArmGrant)
    → find p a d now r ≡ some g
    → Member g (values r)
      × Authorizes p a d now g
      × All (λ h. narrower g h ≡ true) (keep (is_candidate p a d now) (values r))
unfolding find
find_narrowest p a d now r g e = (kept.0, is_candidate-Authorizes p a d now g kept.1, least.1)
  where
    candidates : List ArmGrant
    candidates = keep (is_candidate p a d now) (values r)

    least : Member g (sort_by narrower candidates) × All (λ h. narrower g h ≡ true) candidates
    least =
        head_is_least candidates (sort_by narrower candidates) g e
          (sort_by-least narrower narrower_total narrower_trans narrower_refl candidates)

    kept : Member g (values r) × (is_candidate p a d now g ≡ true)
    kept =
        keep-Member (is_candidate p a d now) g (values r)
          (sort_by-Member narrower g candidates least.0)

head-none :
    (xs ys : List ArmGrant)
    → head? ys ≡ none
    → HeadIsLeast narrower narrower_total narrower_trans narrower_refl ys xs
    → xs ≡ []
head-none xs [] e h = h
head-none xs (y ∷ ys) e h = cc

-- `find` fails exactly when no grant of the registry is a candidate.
pub find-none :
    (p : PermissionLevel) (a : String) (d : Option String) (now : ℕ) (r : ArmRegistry)
    → (find p a d now r ≡ none) ↔ All (λ g. is_candidate p a d now g ≡ false) (values r)
unfolding find
find-none p a d now r = (
  λ e. keep_refused (is_candidate p a d now) (values r) (head-none candidates _ e least),
  λ h. rw (keep-none (is_candidate p a d now) (values r) h),
)
  where
    candidates : List ArmGrant
    candidates = keep (is_candidate p a d now) (values r)

    least :
        HeadIsLeast narrower narrower_total narrower_trans narrower_refl
          (sort_by narrower candidates)
          candidates
    least = sort_by-least narrower narrower_total narrower_trans narrower_refl candidates

-- A new key goes to the end of the dict.
values-insert_new :
    (k : String) (g : ArmGrant) (r : ArmRegistry)
    → lookup k r ≡ none
    → values (insert k g r) ≡ values r ++ g ∷ []
values-insert_new k g [] h = refl
values-insert_new k g ((j, w) ∷ r) h = ground (arith, values-insert_new k g r)

keep-append_refused :
    (p : ArmGrant → Bool) (g : ArmGrant) (xs : List ArmGrant)
    → p g ≡ false
    → keep p (xs ++ g ∷ []) ≡ keep p xs
keep-append_refused p g [] h = rw h
keep-append_refused p g (x ∷ xs) h = ground (arith, keep-append_refused p g xs h)

-- Exact-class authorization: a grant that is added under a fresh id for another class changes nothing that `find`
-- answers for this one, whatever its scope and time to live.
pub find-create_other_class :
    (p q : PermissionLevel) (ttl : ℕ) (source : ClientSource) (scope : Option ArmScope)
    (max_ttl : Option ℕ) (new_id : String) (created : ℕ) (r : ArmRegistry) (g : ArmGrant)
    (r' : ArmRegistry) (a : String) (d : Option String) (now : ℕ)
    → lookup new_id r ≡ none
    → same_level q p ≡ false
    → create q ttl source scope max_ttl new_id created r ≡ ok (g, r')
    → find p a d now r' ≡ find p a d now r
unfolding create find
find-create_other_class p q ttl source scope max_ttl new_id created r g r' a d now fresh other e =
    let made : ArmGrant = issued q ttl source scope max_ttl new_id created in
    let same : r' ≡ insert new_id made r = ground arith in
    rw (same, values-insert_new new_id made r fresh)
      (ap (λ c. head? (sort_by narrower c))
        (keep-append_refused (is_candidate p a d now) made (values r) (rw other)))

-- What a successful `create` has checked and made: the request came from a person and named a
-- class that needs a grant; the grant is stored under its id, leaves every other entry alone, and
-- lives no longer than was asked, nor than the policy's ceiling.
pub create_grants :
    (p : PermissionLevel) (ttl : ℕ) (source : ClientSource) (scope : Option ArmScope) (cap : ℕ)
    (new_id : String) (now : ℕ) (r : ArmRegistry) (g : ArmGrant) (r' : ArmRegistry)
    → create p ttl source scope (some cap) new_id now r ≡ ok (g, r')
    → (may_create_grants source ≡ true)
      × (requires_grant p ≡ true)
      × (g.permission ≡ p)
      × (g.created_by ≡ source)
      × (g.expires_monotonic_ns ≤ now + ttl)
      × (g.expires_monotonic_ns ≤ now + cap)
      × ((j : String) → lookup j r' ≡ (if str_eq new_id j then some g else lookup j r))
unfolding create
create_grants p ttl source scope cap new_id now r g r' e = (
  ground arith,
  ground arith,
  ground arith,
  ground arith,
  ground arith,
  ground arith,
  λ j. rw (stored, is_made) (lookup-insert new_id j made r),
)
  where
    made : ArmGrant
    made = issued p ttl source scope (some cap) new_id now

    stored : r' ≡ insert new_id made r
    stored = ground arith

    is_made : g ≡ made
    is_made = ground arith
