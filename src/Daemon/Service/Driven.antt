-- ===== src/Daemon/Service/Driven.antt =====
-- What a safe-state request does for one registered device that it covers.
use field_deck.Prelude.{
  ℕ, ◌<◌, String, Bool, true, Option, some, List, [], ◌∷◌, keep, map, any, Member, Member-keep,
  str_eq, str_eq_refl, ◌≡◌, refl, sym, ap, ◌∙◌, inl, inr, Bool-cases,
}
use field_deck.Prelude.Dict.{Dict, values}
use field_deck.Safety.Lease.{OutputLease}
use field_deck.Daemon.Registry.{Driver}
use field_deck.Daemon.State.{Dispatcher, generation}
use field_deck.Daemon.SafeState.{
  SafeOutcome, is_safe, apply_safe_state, selected, safe_results, safe_chosen,
}
use field_deck.Daemon.SafeState.Generations.{apply_safe_state_covers}
use field_deck.Daemon.Service.{Service, drive_safe}

-- The device is asked for its safe state, its answer is among the answers, and its generation is
-- raised, so that a handler that runs on it will be refused.
pub record IsDriven (x : Driver) (outcome : String → SafeOutcome) (before : Dict ℕ)
    (answers : List (String × Bool)) (d' : Dispatcher) : Type 0 where
  pub answered : Member (x.device_id, is_safe (outcome x.device_id)) answers
  pub raised : generation x.device_id before < generation x.device_id d'.generations

safe_results-Member :
    (outcome : String → SafeOutcome) (x : Driver) (xs : List Driver)
    → Member x xs
    → Member (x.device_id, is_safe (outcome x.device_id)) (safe_results outcome xs)
safe_results-Member outcome x [] m = absurd m
safe_results-Member outcome x (y ∷ ys) (inl e) =
    inl (ap (λ z. (z.device_id, is_safe (outcome z.device_id))) e)
safe_results-Member outcome x (y ∷ ys) (inr m) = inr (safe_results-Member outcome x ys m)

pub apply_safe_state-IsDriven :
    (ids : Option (List String)) (outcome : String → SafeOutcome) (d : Dispatcher) (x : Driver)
    → Member x (values d.registry.drivers)
    → selected ids x ≡ true
    → IsDriven x outcome d.generations
        (apply_safe_state ids outcome d).0
        (apply_safe_state ids outcome d).1
unfolding apply_safe_state
apply_safe_state-IsDriven ids outcome d x m h = record {
  answered =
      chosen (keep (selected ids) (values d.registry.drivers))
        (Member-keep (selected ids) x (values d.registry.drivers) m h);
  raised = apply_safe_state_covers ids outcome d x m h;
}
  where
    chosen :
        (xs : List Driver)
        → Member x xs
        → Member (x.device_id, is_safe (outcome x.device_id)) (safe_chosen xs ids outcome d).0
    chosen [] n = absurd n
    chosen (y ∷ ys) n = safe_results-Member outcome x (y ∷ ys) n

any_device :
    (l : OutputLease) (i : String) (ls : List OutputLease)
    → Member l ls
    → l.device_id ≡ i
    → any (λ j. str_eq j i) (map (λ k. k.device_id) ls) ≡ true
any_device l i [] m e = absurd m
any_device l i (k ∷ ls) (inl s) e =
    let same : k.device_id ≡ i = ap (λ z. z.device_id) (sym s) ∙ e in rw (same, str_eq_refl i) refl
any_device l i (k ∷ ls) (inr m) e = elim (Bool-cases (str_eq k.device_id i)) [
  | inl t ↦ rw t refl
  | inr t ↦ rw t (any_device l i ls m e)
]

-- The device of one of the leases that are taken is driven safe.
pub drive_safe-IsDriven :
    (ls : List OutputLease) (l : OutputLease) (outcome : String → SafeOutcome) (s : Service)
    (x : Driver)
    → Member l ls
    → Member x (values s.dispatcher.registry.drivers)
    → l.device_id ≡ x.device_id
    → IsDriven x outcome s.dispatcher.generations
        (drive_safe ls outcome s).0
        (drive_safe ls outcome s).1.dispatcher
drive_safe-IsDriven [] l outcome s x m n e = absurd m
drive_safe-IsDriven (k ∷ ls) l outcome s x m n e =
    apply_safe_state-IsDriven (some (map (λ z. z.device_id) (k ∷ ls))) outcome s.dispatcher x n
      (any_device l x.device_id (k ∷ ls) m e)
