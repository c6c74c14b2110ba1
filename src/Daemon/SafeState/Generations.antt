-- ===== src/Daemon/SafeState/Generations.antt =====
-- What a safe-state request does to the state: the generation of every device that it covers grows.
use field_deck.Prelude.{
  ℕ, ◌≤◌, ◌<◌, suc, String, true, Option, List, [], ◌∷◌, Member, keep, Member-keep, if◌then◌else◌,
  str_eq, str_eq_refl, ◌≡◌, refl, ◌∙◌, subst, arith, inl, inr, eq_iff,
}
use field_deck.Prelude.Dict.{Dict, values, lookup-insert}
use field_deck.Daemon.Registry.{Driver}
use field_deck.Daemon.State.{Dispatcher, generation}
use field_deck.Daemon.SafeState.{
  SafeOutcome, apply_safe_state, safe_chosen, selected, bump, bump_all,
}

generation-bump :
    (i j : String) (g : Dict ℕ)
    → generation j (bump i g) ≡ (if str_eq i j then suc (generation i g) else generation j g)
generation-bump i j g = ground (arith, lookup-insert i j (suc (generation i g)) g)

generation-le-bump : (i j : String) (g : Dict ℕ) → generation j g ≤ generation j (bump i g)
generation-le-bump i j g = ground (arith, generation-bump i j g, eq_iff i j)

-- No request lowers a generation.
generation-le-bump_all :
    (j : String) (xs : List Driver) (g : Dict ℕ) → generation j g ≤ generation j (bump_all xs g)
generation-le-bump_all j [] g = omega arith
generation-le-bump_all j (x ∷ xs) g =
    omega
      (arith, generation-le-bump x.device_id j g, generation-le-bump_all j xs (bump x.device_id g))

generation-lt-bump_all :
    (x : Driver) (xs : List Driver) (g : Dict ℕ)
    → Member x xs
    → generation x.device_id g < generation x.device_id (bump_all xs g)
generation-lt-bump_all x [] g m = absurd m
generation-lt-bump_all x (y ∷ ys) g (inl e) =
    let same : y.device_id ≡ x.device_id = cc in
    let raised : generation y.device_id (bump y.device_id g) ≡ suc (generation y.device_id g) =
      generation-bump y.device_id y.device_id g ∙ rw (str_eq_refl y.device_id) in
    let moved : generation x.device_id (bump y.device_id g) ≡ suc (generation x.device_id g) =
      subst (λ i. generation i (bump y.device_id g) ≡ suc (generation i g)) same raised in
    omega (arith, moved, generation-le-bump_all x.device_id ys (bump y.device_id g))
generation-lt-bump_all x (y ∷ ys) g (inr m) = omega (
  arith,
  generation-le-bump y.device_id x.device_id g,
  generation-lt-bump_all x ys (bump y.device_id g) m,
)

-- A request that covers a registered device raises that device's generation, so that a handler that
-- was running on the device can tell.
pub apply_safe_state_covers :
    (ids : Option (List String)) (outcome : String → SafeOutcome) (d : Dispatcher) (x : Driver)
    → Member x (values d.registry.drivers)
    → selected ids x ≡ true
    → generation x.device_id d.generations
      < generation x.device_id (apply_safe_state ids outcome d).1.generations
unfolding apply_safe_state
apply_safe_state_covers ids outcome d x m h =
    covered (keep (selected ids) (values d.registry.drivers))
      (Member-keep (selected ids) x (values d.registry.drivers) m h)
  where
    covered :
        (xs : List Driver)
        → Member x xs
        → generation x.device_id d.generations
          < generation x.device_id (safe_chosen xs ids outcome d).1.generations
    covered [] n = absurd n
    covered (y ∷ ys) n = generation-lt-bump_all x (y ∷ ys) d.generations n

pub apply_safe_state_monotone :
    (ids : Option (List String)) (outcome : String → SafeOutcome) (d : Dispatcher) (j : String)
    → generation j d.generations ≤ generation j (apply_safe_state ids outcome d).1.generations
unfolding apply_safe_state
apply_safe_state_monotone ids outcome d j = grown (keep (selected ids) (values d.registry.drivers))
  where
    grown :
        (xs : List Driver)
        → generation j d.generations ≤ generation j (safe_chosen xs ids outcome d).1.generations
    grown [] = omega arith
    grown (y ∷ ys) = generation-le-bump_all j (y ∷ ys) d.generations

-- Nothing but generations and the log changes.
pub record Untouched (d d' : Dispatcher) : Type 0 where
  pub same_registry : d'.registry ≡ d.registry
  pub same_busy : d'.busy ≡ d.busy
  pub same_leases : d'.safety.leases ≡ d.safety.leases
  pub same_grants : d'.safety.grants ≡ d.safety.grants
  pub same_status : d'.safety.status ≡ d.safety.status

pub apply_safe_state-Untouched :
    (ids : Option (List String)) (outcome : String → SafeOutcome) (d : Dispatcher)
    → Untouched d (apply_safe_state ids outcome d).1
unfolding apply_safe_state
apply_safe_state-Untouched ids outcome d =
    untouched (keep (selected ids) (values d.registry.drivers))
  where
    untouched : (xs : List Driver) → Untouched d (safe_chosen xs ids outcome d).1
    untouched [] = record {
      same_registry = refl;
      same_busy = refl;
      same_leases = refl;
      same_grants = refl;
      same_status = refl;
    }
    untouched (y ∷ ys) = record {
      same_registry = refl;
      same_busy = refl;
      same_leases = refl;
      same_grants = refl;
      same_status = refl;
    }
