-- ===== src/Safety/Arm/Expiry.antt =====
-- Revocation and expiry: `revoke_all` and `sweep` of the registry.
use mathlib.Core.List.Perm
use field_deck.Prelude.{
  ℕ, ◌≤◌, String, Bool, true, false, Option, none, List, Perm, [], ◌∷◌, ◌++◌, keep, All, ◌≡◌, refl,
  arith, perm_second, perm_third,
}
use field_deck.Prelude.Dict.{values}
use field_deck.Common.Permission.{PermissionLevel}
use field_deck.Safety.Grant.{ArmGrant, is_active}
use field_deck.Safety.Arm.{ArmRegistry, find, is_candidate, sweep, revoke_all, revoke_entries}
use field_deck.Safety.Arm.Find.{find-none}

revoke_entries-refuse :
    (p : PermissionLevel) (a : String) (d : Option String) (now later : ℕ) (r : ArmRegistry)
    → now ≤ later
    → All (λ g. is_candidate p a d later g ≡ false) (values (revoke_entries now r))
revoke_entries-refuse p a d now later [] h = tt
revoke_entries-refuse p a d now later ((k, g) ∷ r) h =
    (ground arith, revoke_entries-refuse p a d now later r h)

-- Once `revoke_all` has run, no grant authorizes anything at that time or later, whatever the
-- registry held.
pub find-revoke_all :
    (p : PermissionLevel) (a : String) (d : Option String) (now later : ℕ) (r : ArmRegistry)
    → now ≤ later
    → find p a d later (revoke_all now r).1 ≡ none
unfolding revoke_all
find-revoke_all p a d now later r h =
    (find-none p a d later (revoke_entries now r)).1 (revoke_entries-refuse p a d now later r h)

-- A revoked grant is reported by no sweep: it leaves in silence.
abbrev is_revoked : ArmGrant → Bool
is_revoked g = g.revoked

-- The swept registry holds active grants only; the reported ones, the kept ones and the revoked
-- ones together are the grants that it held before; and a second sweep at that time reports none.
pub record Swept (now : ℕ) (r : ArmRegistry) (reported : List ArmGrant) (r' : ArmRegistry)
    : Type 0 where
  pub all_active : All (λ g. is_active g now ≡ true) (values r')
  pub conserved : Perm (values r) (reported ++ values r' ++ keep is_revoked (values r))
  pub reported_once : (sweep now r').0 ≡ []

sweep-active :
    (now : ℕ) (r : ArmRegistry) → All (λ g. is_active g now ≡ true) (values (sweep now r).1)
unfolding sweep
sweep-active now [] = tt
sweep-active now ((k, g) ∷ r) = ground (arith, sweep-active now r)

sweep-perm :
    (now : ℕ) (r : ArmRegistry)
    → Perm (values r) ((sweep now r).0 ++ values (sweep now r).1 ++ keep is_revoked (values r))
unfolding sweep
sweep-perm now [] = Perm.nil
sweep-perm now ((k, g) ∷ r) =
    let ih = sweep-perm now r in
    let us = (sweep now r).0 in
    let vs = values (sweep now r).1 in
    let ws = keep is_revoked (values r) in
    ground (
      arith,
      Perm.cons g ih,
      perm_second g (values r) us vs ws ih,
      perm_third g (values r) us vs ws ih,
    )

active_never_lapsed :
    (now : ℕ) (r : ArmRegistry)
    → All (λ g. is_active g now ≡ true) (values r)
    → (sweep now r).0 ≡ []
unfolding sweep
active_never_lapsed now [] h = refl
active_never_lapsed now ((k, g) ∷ r) h = ground (arith, active_never_lapsed now r h.1)

-- After the timer's sweep of the grants the registry holds active grants only; the grants that it
-- reports, those that it keeps and the revoked ones together are the grants that were held before;
-- and a second sweep at that time reports none.
pub sweep-Swept : (now : ℕ) (r : ArmRegistry) → Swept now r (sweep now r).0 (sweep now r).1
sweep-Swept now r = record {
  all_active = sweep-active now r;
  conserved = sweep-perm now r;
  reported_once = active_never_lapsed now (sweep now r).1 (sweep-active now r);
}
