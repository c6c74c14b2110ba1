-- ===== src/Safety/Lease/Tests.antt =====
-- Leases of fielddeck/safety/leases.py on concrete stores.
use field_deck.Prelude.{
  ◌+◌, ◌≤◌, String, none, some, [], ◌∷◌, if◌then◌else◌, ◌≡◌, refl, str_eq, arith,
}
use field_deck.Prelude.Dict.{lookup, insert}
use field_deck.Common.Permission.{claude}
use field_deck.Safety.Lease.{OutputLease, Leases, acquired, renew}
use field_deck.Safety.Lease.Renew.{MayRenew, renewed, renew_sound}

abbrev output : OutputLease
output = acquired "psu1" "psu.on" claude 30 (some 7) "lease_1" 0

abbrev second : OutputLease
second = acquired "psu2" "psu.on" claude 90 none "lease_2" 0

abbrev store : Leases
store = ("lease_1", output) ∷ ("lease_2", second) ∷ []

output-MayRenew : MayRenew "lease_1" (some 20) (some 7) 10 store output
output-MayRenew = record {
  found = refl;
  unreleased = refl;
  by_holder = refl;
  in_time = omega arith;
  positive = omega arith;
}

renew_sound_example :
    (l : OutputLease) × MayRenew "lease_1" (some 20) (some 7) 10 store l
    × ((renewed (some 20) 10 output).ttl_ns ≤ l.ttl_ns)
    × ((renewed (some 20) 10 output).expires_monotonic_ns
        ≡ 10 + (renewed (some 20) 10 output).ttl_ns)
    × ((j : String)
        → lookup j (insert "lease_1" (renewed (some 20) 10 output) store)
          ≡ (if str_eq "lease_1" j then some (renewed (some 20) 10 output) else lookup j store))
unfolding renew
renew_sound_example =
    renew_sound "lease_1" (some 20) (some 7) 10 store (renewed (some 20) 10 output)
      (insert "lease_1" (renewed (some 20) 10 output) store) refl
