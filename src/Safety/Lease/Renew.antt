-- ===== src/Safety/Lease/Renew.antt =====
-- `LeaseManager.renew` on each branch: who may renew, and for how long.
use field_deck.Prelude.{
  ℕ, ◌+◌, ◌≤◌, ◌<◌, String, true, false, Option, some, ◌==◌, if◌then◌else◌, str_eq, min, ◌≡◌, arith,
  Option-cases, inl, inr,
}
use field_deck.Prelude.Dict.{lookup, insert, lookup-insert}
use field_deck.Common.Errors.{ok, err, lease_error}
use field_deck.Safety.Lease.{OutputLease, Leases, renew, may_renew, requested_ttl}

-- The conditions under which a renewal is granted.
pub record MayRenew (lease_id : String) (ttl connection_id : Option ℕ) (now : ℕ) (ls : Leases)
    (l : OutputLease) : Type 0 where
  pub found : lookup lease_id ls ≡ some l
  pub unreleased : l.released ≡ false
  pub by_holder : may_renew connection_id l.owner_connection ≡ true
  pub in_time : now < l.expires_monotonic_ns
  pub positive : 0 < requested_ttl ttl l

abbrev pub shortened : Option ℕ → OutputLease → ℕ
shortened ttl l = min (requested_ttl ttl l) l.ttl_ns

abbrev pub renewed : Option ℕ → ℕ → OutputLease → OutputLease
renewed ttl now l = record l {
  expires_monotonic_ns = now + shortened ttl l;
  ttl_ns = shortened ttl l;
}

-- When the lease is found, unreleased and still in time, the caller may renew it and the requested
-- time is positive, the renewal succeeds and stores the lease with the shorter of the two intervals.
pub renew-granted :
    (lease_id : String) (ttl connection_id : Option ℕ) (now : ℕ) (ls : Leases) (l : OutputLease)
    → MayRenew lease_id ttl connection_id now ls l
    → renew lease_id ttl connection_id now ls
      ≡ ok (renewed ttl now l, insert lease_id (renewed ttl now l) ls)
unfolding renew
renew-granted lease_id ttl connection_id now ls l m = ground (arith, m.found)

-- A renewal that succeeds met every condition; it leaves the lease with an interval no longer than
-- before, ending that interval from now, and leaves every other lease as it was.
pub renew_sound :
    (lease_id : String) (ttl connection_id : Option ℕ) (now : ℕ) (ls : Leases) (l' : OutputLease)
    (ls' : Leases)
    → renew lease_id ttl connection_id now ls ≡ ok (l', ls')
    → (l : OutputLease) × MayRenew lease_id ttl connection_id now ls l
      × (l'.ttl_ns ≤ l.ttl_ns)
      × (l'.expires_monotonic_ns ≡ now + l'.ttl_ns)
      × ((j : String) → lookup j ls' ≡ (if str_eq lease_id j then some l' else lookup j ls))
unfolding renew
renew_sound lease_id ttl connection_id now ls l' ls' e = elim (Option-cases (lookup lease_id ls)) [
  | inl missing ↦ absurd (ground arith)
  | inr (l, found) ↦
      let is_l : l' ≡ renewed ttl now l = ground arith in
      let is_ls : ls' ≡ insert lease_id (renewed ttl now l) ls = ground arith in
      (
        l,
        record {
          found = found;
          unreleased = ground arith;
          by_holder = ground arith;
          in_time = ground arith;
          positive = ground arith;
        },
        ground arith,
        ground arith,
        λ j. rw (is_ls, is_l) (lookup-insert lease_id j (renewed ttl now l) ls),
      )
]

-- A connection other than the one that a stored lease records is refused a renewal.
pub renew_only_holder :
    (lease_id : String) (ttl : Option ℕ) (c o now : ℕ) (ls : Leases) (l : OutputLease)
    → lookup lease_id ls ≡ some l
    → l.owner_connection ≡ some o
    → (c == o) ≡ false
    → renew lease_id ttl (some c) now ls ≡ err lease_error
unfolding renew
renew_only_holder lease_id ttl c o now ls l found held other = ground arith
