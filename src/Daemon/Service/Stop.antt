-- ===== src/Daemon/Service/Stop.antt =====
-- The emergency stop of the whole daemon.
use field_deck.Prelude.{
  ℕ, ◌≤◌, String, Bool, true, false, Option, none, some, List, [], ◌∷◌, map, Member, All, ◌≡◌, ◌≢◌,
  refl, sym, ap, ◌∙◌, subst, inl, inr, ◌⊎◌, arith, All-map, eq_iff, if◌then◌else◌, str_eq,
  str_eq_refl,
}
use field_deck.Prelude.Dict.{values}
use field_deck.Common.Permission.{PermissionLevel, ClientSource}
use field_deck.Safety.Arm
use field_deck.Safety.Lease
use field_deck.Safety.Arm.Expiry.{find-revoke_all}
use field_deck.Safety.Manager.{engage_estop}
use field_deck.Safety.Estop.{engage}
use field_deck.Daemon.Registry.{Driver}
use field_deck.Daemon.State.{Dispatcher}
use field_deck.Daemon.SafeState.{SafeOutcome, is_safe, apply_safe_state}
use field_deck.Daemon.SafeState.Generations.{apply_safe_state-Untouched}
use field_deck.Daemon.Service.{
  Service, RunningAction, EstopReport, rpc_safety_estop, not_safed, cancel_all, cancel_named,
  cancel_each, is_request, told_to_stop,
}
use field_deck.Daemon.Service.Driven.{IsDriven, apply_safe_state-IsDriven}

-- An answer that is not safe is named in the report.
not_safed-Member :
    (i : String) (answers : List (String × Bool))
    → Member (i, false) answers
    → Member i (not_safed answers)
not_safed-Member i [] m = absurd m
not_safed-Member i ((j, true) ∷ answers) (inl e) =
    absurd (let u : false ≡ true = ap (λ p. p.1) e in cc)
not_safed-Member i ((j, false) ∷ answers) (inl e) = inl (ap (λ p. p.0) e)
not_safed-Member i ((j, true) ∷ answers) (inr m) = not_safed-Member i answers m
not_safed-Member i ((j, false) ∷ answers) (inr m) = inr (not_safed-Member i answers m)

-- A running action that has an id is told to stop.
abbrev pub IsTold : RunningAction → Type 0
IsTold a = (i : String) → a.request_id ≡ some i → i ≢ "" → a.told ≡ true

-- It is, or one of the ids still to come is its own.
abbrev IsDue : List RunningAction → RunningAction → Type 0
IsDue bs a =
    (i : String)
    → a.request_id ≡ some i
    → i ≢ ""
    → (a.told ≡ true) ⊎ Member (some i) (map (λ b. b.request_id) bs)

cancel_each-IsDue :
    (j : String) (b : RunningAction) (bs rs : List RunningAction)
    → b.request_id ≡ some j
    → All (IsDue (b ∷ bs)) rs
    → All (IsDue bs) (cancel_each j rs)
cancel_each-IsDue j b bs [] is h = tt
cancel_each-IsDue j b bs (a ∷ rs) is (h, hs) =
    (due (is_request j a) refl, cancel_each-IsDue j b bs rs is hs)
  where
    due : (t : Bool) → is_request j a ≡ t → IsDue bs (if t then told_to_stop a else a)
    due true e = λ i r n. inl refl
    due false e = λ i r n. elim (h i r n) [
      | inl told ↦ inl told
      | inr (inr m) ↦ inr m
      | inr (inl m) ↦ absurd (
          let same : j ≡ i = cc in
          let asked : is_request j a ≡ true = rw (r, same, str_eq_refl i) refl in cc)
    ]

cancel_named-IsDue :
    (b : RunningAction) (bs rs : List RunningAction)
    → All (IsDue (b ∷ bs)) rs
    → All (IsDue bs) (cancel_named b.request_id rs)
cancel_named-IsDue b bs rs h = named b.request_id refl
  where
    skipped :
        ((i : String) → i ≢ "" → b.request_id ≢ some i)
        → (as' : List RunningAction) → All (IsDue (b ∷ bs)) as'
        → All (IsDue bs) as'
    skipped other [] k = tt
    skipped other (a ∷ us) (k, ks) = (
      λ i r n. elim (k i r n) [
        | inl told ↦ inl told
        | inr (inr m) ↦ inr m
        | inr (inl m) ↦ absurd (other i n (sym m))
      ],
      skipped other us ks,
    )

    by_name :
        (j : String) (t : Bool)
        → b.request_id ≡ some j
        → str_eq j "" ≡ t
        → All (IsDue bs) (if t then rs else cancel_each j rs)
    by_name j true is e =
        skipped (λ i n m. n (let same : j ≡ i = cc in sym same ∙ (eq_iff j "").0 e)) rs h
    by_name j false is e = cancel_each-IsDue j b bs rs is h

    named : (o : Option String) → b.request_id ≡ o → All (IsDue bs) (cancel_named o rs)
    named none e = skipped (λ i n m. let bad : none ≡ some i = sym e ∙ m in cc) rs h
    named (some j) e = by_name j (str_eq j "") e refl

cancel_all-IsTold : (bs rs : List RunningAction) → All (IsDue bs) rs → All IsTold (cancel_all bs rs)
cancel_all-IsTold [] rs h =
    All-map (IsDue []) IsTold rs
      (λ a k i r n. elim (k i r n) [ inl told ↦ told | inr m ↦ absurd m ]) h
cancel_all-IsTold (b ∷ bs) rs h =
    cancel_all-IsTold bs (cancel_named b.request_id rs) (cancel_named-IsDue b bs rs h)

All-IsDue :
    (rs us : List RunningAction)
    → ((i : String)
        → Member (some i) (map (λ b. b.request_id) us)
        → Member (some i) (map (λ b. b.request_id) rs))
    → All (IsDue rs) us
All-IsDue rs [] f = tt
All-IsDue rs (a ∷ us) f = (λ i r n. inr (f i (inl (sym r))), All-IsDue rs us (λ i m. f i (inr m)))

-- The daemon after an emergency stop.
pub record IsHalted (now : ℕ) (outcome : String → SafeOutcome) (s : Service) (report : EstopReport)
    (s' : Service) : Type 0 where
  pub latched : s'.dispatcher.safety.status.active ≡ true
  pub no_lease : s'.dispatcher.safety.leases ≡ []
  pub surrendered : report.surrendered_leases ≡ values s.dispatcher.safety.leases
  pub disarmed :
      (p : PermissionLevel) (a : String) (d : Option String) (later : ℕ)
      → now ≤ later
      → Arm.find p a d later s'.dispatcher.safety.grants ≡ none
  pub driven :
      (x : Driver)
      → Member x (values s.dispatcher.registry.drivers)
      → IsDriven x outcome s.dispatcher.generations report.safe_state s'.dispatcher
  pub named :
      (x : Driver)
      → Member x (values s.dispatcher.registry.drivers)
      → is_safe (outcome x.device_id) ≡ false
      → Member x.device_id report.devices_not_safed
  pub told : All IsTold s'.running

engaged_active :
    (reason : String) (source : ClientSource) (now : ℕ) (s : Service)
    → (engage_estop reason source now s.dispatcher.safety).1.status.active ≡ true
unfolding engage_estop engage
engaged_active reason source now s = ground arith

-- An emergency stop that any client asks for latches the stop, takes every lease and every
-- authorization away, asks every registered device for its safe state and raises its generation,
-- names in its report each device that did not reach its safe state, and tells every running action
-- that has an id to stop.
pub rpc_safety_estop-IsHalted :
    (reason : String) (source : ClientSource) (now : ℕ) (outcome : String → SafeOutcome)
    (s : Service)
    → IsHalted now outcome s
        (rpc_safety_estop reason source now outcome s).0
        (rpc_safety_estop reason source now outcome s).1
unfolding rpc_safety_estop engage_estop Lease.take_all
rpc_safety_estop-IsHalted reason source now outcome s =
    let m = (engage_estop reason source now s.dispatcher.safety).1 in
    let d : Dispatcher = record (s.dispatcher) { safety = m } in
    let u = apply_safe_state-Untouched none outcome d in
    record {
      latched = ap (λ z. z.active) u.same_status ∙ engaged_active reason source now s;
      no_lease = u.same_leases;
      surrendered = refl;
      disarmed = λ p a i later h.
          subst (λ g. Arm.find p a i later g ≡ none) (sym u.same_grants)
            (find-revoke_all p a i now later s.dispatcher.safety.grants h);
      driven = λ x h. apply_safe_state-IsDriven none outcome d x h refl;
      named = λ x h e. not_safed-Member x.device_id _ (
          subst (λ b. Member (x.device_id, b) (apply_safe_state none outcome d).0) e
            (apply_safe_state-IsDriven none outcome d x h refl).answered);
      told = cancel_all-IsTold s.running s.running (All-IsDue s.running s.running (λ i z. z));
    }
