-- ===== src/Safety/Lease/Reap.antt =====
-- Losing leases: expiry, a client that goes away, and the emergency stop.
use field_deck.Prelude.{
  ℕ, Bool, true, false, not, List, Perm, [], ◌∷◌, ◌++◌, keep, keep-perm, All, ◌≡◌, refl, arith, ap,
  Bool-cases, inl, inr,
}
use field_deck.Prelude.Dict.{values, keep_values}
use field_deck.Safety.Lease.{
  OutputLease, Leases, is_active, has_lapsed, held_by, sweep, take_for_connection,
}

values-keep_values :
    (p : OutputLease → Bool) (ls : Leases) → values (keep_values p ls) ≡ keep p (values ls)
values-keep_values p [] = refl
values-keep_values p ((k, l) ∷ ls) = elim (Bool-cases (p l)) [
  | inl t ↦ rw t (ap (λ xs. l ∷ xs) (values-keep_values p ls))
  | inr t ↦ rw t (values-keep_values p ls)
]

-- What a split of the leases by a test hands out and keeps: nothing is lost, nothing is made up,
-- all that is handed out passes the test, and nothing that is kept does.
pub record Split (p : OutputLease → Bool) (ls : Leases) (out : List OutputLease) (ls' : Leases)
    : Type 0 where
  pub conserved : Perm (values ls) (out ++ values ls')
  pub handed_out : All (λ l. p l ≡ true) out
  pub kept : All (λ l. p l ≡ false) (values ls')

keep-passes : (p : OutputLease → Bool) (xs : List OutputLease) → All (λ l. p l ≡ true) (keep p xs)
keep-passes p [] = tt
keep-passes p (x ∷ xs) = elim (Bool-cases (p x)) [
  | inl t ↦ rw t (t, keep-passes p xs)
  | inr t ↦ rw t (keep-passes p xs)
]

keep-rejects :
    (p : OutputLease → Bool) (xs : List OutputLease)
    → All (λ l. p l ≡ false) (keep (λ l. not (p l)) xs)
keep-rejects p [] = tt
keep-rejects p (x ∷ xs) = elim (Bool-cases (p x)) [
  | inl t ↦ rw t (keep-rejects p xs)
  | inr t ↦ rw t (t, keep-rejects p xs)
]

parted-Split :
    (p : OutputLease → Bool) (ls : Leases)
    → Split p ls (keep p (values ls)) (keep_values (λ l. not (p l)) ls)
parted-Split p ls = record {
  conserved = rw (values-keep_values (λ l. not (p l)) ls) (keep-perm p (values ls));
  handed_out = keep-passes p (values ls);
  kept = rw (values-keep_values (λ l. not (p l)) ls) (keep-rejects p (values ls));
}

-- The sweep hands out exactly the unreleased leases whose time is up, and keeps all the others.
pub sweep-Split :
    (now : ℕ) (ls : Leases) → Split (has_lapsed now) ls (sweep now ls).0 (sweep now ls).1
unfolding sweep
sweep-Split now ls = parted-Split (has_lapsed now) ls

-- A client's disconnection hands out exactly the leases that it held.
pub take_for_connection-Split :
    (c : ℕ) (ls : Leases)
    → Split (held_by c) ls (take_for_connection c ls).0 (take_for_connection c ls).1
unfolding take_for_connection
take_for_connection-Split c ls = parted-Split (held_by c) ls

kept_active :
    (now : ℕ) (xs : List OutputLease)
    → All (λ l. l.released ≡ false) xs
    → All (λ l. has_lapsed now l ≡ false) xs
    → All (λ l. is_active l now ≡ true) xs
kept_active now [] h k = tt
kept_active now (l ∷ xs) h k = (ground arith, kept_active now xs h.1 k.1)

unreleased_after :
    (p : OutputLease → Bool) (ls : Leases)
    → All (λ l. l.released ≡ false) (values ls)
    → All (λ l. l.released ≡ false) (values (keep_values p ls))
unreleased_after p [] h = tt
unreleased_after p ((k, l) ∷ ls) h = elim (Bool-cases (p l)) [
  | inl t ↦ rw t (h.0, unreleased_after p ls h.1)
  | inr t ↦ rw t (unreleased_after p ls h.1)
]

-- After a sweep every lease that is left still runs, if the store held no released lease.
pub sweep_leaves_active :
    (now : ℕ) (ls : Leases)
    → All (λ l. l.released ≡ false) (values ls)
    → All (λ l. is_active l now ≡ true) (values (sweep now ls).1)
unfolding sweep
sweep_leaves_active now ls h =
    kept_active now (values (keep_values (λ l. not (has_lapsed now l)) ls))
      (unreleased_after (λ l. not (has_lapsed now l)) ls h) (parted-Split (has_lapsed now) ls).kept
