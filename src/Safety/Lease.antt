-- ===== src/Safety/Lease.antt =====
-- fielddeck/common/models.py: OutputLease, and fielddeck/safety/leases.py: LeaseManager. Times are
-- nanoseconds of the monotonic clock; the clock's reading and the fresh id are arguments.
pub mod Renew
pub mod Reap
mod Tests
use field_deck.Prelude.{
  ℕ, ◌+◌, String, Bool, true, false, not, Option, none, some, List, [], ◌∷◌, ltb, leb, ◌==◌,
  if◌then◌else◌, keep, str_eq, sort_by, min, ◌&&◌,
}
use field_deck.Prelude.Dict.{Dict, lookup, insert, erase, values, keep_values}
use field_deck.Common.Errors.{Result, ok, err, ◌>>=◌, ◌>>◌, require, lease_error}
use field_deck.Common.Permission.{ClientSource}

pub record OutputLease : Type 0 where
  pub lease_id : String
  pub device_id : String
  pub action : String
  pub owner : ClientSource
  pub owner_connection : Option ℕ
  pub created_monotonic_ns : ℕ
  pub expires_monotonic_ns : ℕ
  pub ttl_ns : ℕ
  pub released : Bool

-- OutputLease.is_active
abbrev pub is_active : OutputLease → ℕ → Bool
is_active l now = if l.released then false else ltb now l.expires_monotonic_ns

-- `self._leases`
abbrev pub Leases : Type 0
Leases = Dict OutputLease

-- The lease that `acquire` makes.
abbrev pub acquired : String → String → ClientSource → ℕ → Option ℕ → String → ℕ → OutputLease
acquired device_id action owner ttl owner_connection new_id now = record {
  lease_id = new_id;
  device_id = device_id;
  action = action;
  owner = owner;
  owner_connection = owner_connection;
  created_monotonic_ns = now;
  expires_monotonic_ns = now + ttl;
  ttl_ns = ttl;
  released = false;
}

-- LeaseManager.acquire
unfoldable pub acquire :
    String
    → String
    → ClientSource
    → ℕ
    → Option ℕ
    → String
    → ℕ
    → Leases
    → Result (OutputLease × Leases)
acquire device_id action owner ttl owner_connection new_id now ls = do
  require (ltb 0 ttl) lease_error
  let lease = acquired device_id action owner ttl owner_connection new_id now
  ok (lease, insert new_id lease ls)

-- `lease is None or lease.released`
abbrev pub live_lease : Option OutputLease → Result OutputLease
live_lease none = err lease_error
live_lease (some l) = if l.released then err lease_error else ok l

-- A caller who gives a connection must be the one that the lease records, if it records one.
abbrev pub may_renew : Option ℕ → Option ℕ → Bool
may_renew none owner = true
may_renew (some c) none = true
may_renew (some c) (some o) = c == o

-- `ttl_s if ttl_s is not None else lease.ttl_s`
abbrev pub requested_ttl : Option ℕ → OutputLease → ℕ
requested_ttl none l = l.ttl_ns
requested_ttl (some t) l = t

-- LeaseManager.renew
unfoldable pub renew : String → Option ℕ → Option ℕ → ℕ → Leases → Result (OutputLease × Leases)
renew lease_id ttl connection_id now ls = do
  l ← live_lease (lookup lease_id ls)
  require (may_renew connection_id l.owner_connection) lease_error
  require (ltb now l.expires_monotonic_ns) lease_error
  require (ltb 0 (requested_ttl ttl l)) lease_error
  let extension = min (requested_ttl ttl l) l.ttl_ns
  let renewed = record l { expires_monotonic_ns = now + extension; ttl_ns = extension }
  ok (renewed, insert lease_id renewed ls)

abbrev released_lease : Option OutputLease → Option OutputLease
released_lease none = none
released_lease (some l) = if l.released then none else some (record l { released = true })

-- LeaseManager.release
unfoldable pub release : String → Leases → Option OutputLease × Leases
release lease_id ls = (released_lease (lookup lease_id ls), erase lease_id ls)

abbrev sooner : OutputLease → OutputLease → Bool
sooner l m = leb l.expires_monotonic_ns m.expires_monotonic_ns

-- LeaseManager.active
unfoldable pub active : ℕ → Leases → List OutputLease
active now ls = sort_by sooner (keep (λ l. is_active l now) (values ls))

-- LeaseManager.for_device
unfoldable pub for_device : String → ℕ → Leases → List OutputLease
unfolding active
for_device device_id now ls = keep (λ l. str_eq l.device_id device_id) (active now ls)

-- The leases that `sweep` pops.
abbrev pub has_lapsed : ℕ → OutputLease → Bool
has_lapsed now l = if leb l.expires_monotonic_ns now then not l.released else false

-- LeaseManager.sweep
unfoldable pub sweep : ℕ → Leases → List OutputLease × Leases
sweep now ls = (keep (has_lapsed now) (values ls), keep_values (λ l. not (has_lapsed now l)) ls)

-- `lease.owner_connection == connection_id`
abbrev pub held_by : ℕ → OutputLease → Bool
held_by c l = elim l.owner_connection [ none ↦ false | some o ↦ o == c ]

-- LeaseManager.take_for_connection
unfoldable pub take_for_connection : ℕ → Leases → List OutputLease × Leases
take_for_connection c ls = (keep (held_by c) (values ls), keep_values (λ l. not (held_by c l)) ls)

-- LeaseManager.take_all
unfoldable pub take_all : Leases → List OutputLease × Leases
take_all ls = (values ls, [])
