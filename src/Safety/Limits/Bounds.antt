-- ===== src/Safety/Limits/Bounds.antt =====
-- What the limit checks promise: the stricter of the two layers wins.
use field_deck.Prelude.{
  ◌≤◌, String, Bool, true, false, Option, none, some, List, All, [], ◌∷◌, if◌then◌else◌, ◌≡◌, refl,
  ◌↔◌, arith, str_eq, Option-cases, inl, inr,
}
use field_deck.Prelude.Dict.{Dict, lookup}
use field_deck.Prelude.Number.{
  ℤ, pos, negsuc, ltb_ℤ, Number, nan, num, is_number, above_trans, above_cotrans,
}
use field_deck.Common.Errors.{ok, ◌>>=◌, >>-ok, >>=-eq-ok}
use field_deck.Safety.Config.{
  SafetyConfig, SafetyLimit, violation, intersect, limit_for, device_limit, combine, over, under,
  stricter, larger, smaller,
}
use field_deck.Safety.Limits.{
  Value, Floats, LimitCheck, DerivedLimitCheck, to_float, check_value, check_limit, check_params,
  check_derived, check_given, check_computed, given, derived_values, compute,
}

abbrev is_bound : Option Number → Bool
is_bound none = true
is_bound (some m) = is_number m

over-stricter :
    (v : Number) (a b : Option Number)
    → is_bound a ≡ true
    → over v (stricter smaller a b) ≡ (if over v a then true else over v b)
over-stricter v none b n = refl
over-stricter v (some a) none n = ground arith
over-stricter v (some a) (some b) n = ground (arith, above_trans v a b, above_cotrans v a b n)

under-stricter :
    (v : Number) (a b : Option Number)
    → is_bound a ≡ true
    → under v (stricter larger a b) ≡ (if under v a then true else under v b)
under-stricter v none b n = refl
under-stricter v (some a) none n = ground arith
under-stricter v (some a) (some b) n = ground (arith, above_trans b a v, above_cotrans b a v n)

-- A limit whose bounds are numbers.
abbrev pub IsBounded : SafetyLimit → Type 0
IsBounded l = (is_bound l.minimum ≡ true) × (is_bound l.maximum ≡ true)

violation-intersect :
    (l m k : SafetyLimit) (v : Number)
    → IsBounded l
    → intersect l m ≡ ok k
    → violation k v ≡ (if violation l v then true else violation m v)
violation-intersect l m k v b e =
    ground
      (arith, over-stricter v l.maximum m.maximum b.1, under-stricter v l.minimum m.minimum b.0)

-- A value violates no limit, where there is one.
abbrev Within : Option SafetyLimit → Number → Type 0
Within none v = Unit
Within (some l) v = violation l v ≡ false

-- The global limit has numbers for bounds, and a device's limit is filed under the same quantity.
abbrev pub IsCoherent : Option SafetyLimit → Option SafetyLimit → Type 0
IsCoherent none d = Unit
IsCoherent (some g) none = Unit
IsCoherent (some g) (some d) = IsBounded g × (str_eq d.quantity g.quantity ≡ true)

combine-Within :
    (g d : Option SafetyLimit) (v : Number)
    → IsCoherent g d
    → ((combine g d >>= λ l. check_limit l v) ≡ ok tt) ↔ (Within g v × Within d v)
combine-Within none none v h = (λ e. (tt, tt), λ e. refl)
combine-Within none (some d) v h = (λ e. (tt, ground arith), λ e. ground arith)
combine-Within (some g) none v h = (λ e. (ground arith, tt), λ e. ground arith)
combine-Within (some g) (some d) v h =
    let k : SafetyLimit = record {
      quantity = g.quantity;
      minimum = stricter larger g.minimum d.minimum;
      maximum = stricter smaller g.maximum d.maximum;
    } in
    let both = violation-intersect g d k v h.0 (rw (h.1)) in
    let joined : combine (some g) (some d) ≡ ok (some k) = ground arith in
    rw joined (λ e. ground (arith, both), λ e. ground (arith, both))

abbrev IsLe : ℤ → ℤ → Type 0
IsLe (pos a) (pos b) = a ≤ b
IsLe (pos a) (negsuc b) = ⊥
IsLe (negsuc a) (pos b) = Unit
IsLe (negsuc a) (negsuc b) = b ≤ a

-- A bound that is no number bounds nothing.
abbrev IsAtLeast : Option Number → ℤ → Type 0
IsAtLeast none z = Unit
IsAtLeast (some nan) z = Unit
IsAtLeast (some (num m)) z = IsLe m z

abbrev IsAtMost : Option Number → ℤ → Type 0
IsAtMost none z = Unit
IsAtMost (some nan) z = Unit
IsAtMost (some (num m)) z = IsLe z m

-- A reading that is a number lies in the range of a limit, where there is one.
abbrev pub IsInside : Option SafetyLimit → ℤ → Type 0
IsInside none z = Unit
IsInside (some l) z = IsAtLeast l.minimum z × IsAtMost l.maximum z

ltb_ℤ-IsLe : (a b : ℤ) → (ltb_ℤ a b ≡ false) ↔ IsLe b a
ltb_ℤ-IsLe (pos a) (pos b) = (λ e. ground arith, λ e. ground arith)
ltb_ℤ-IsLe (pos a) (negsuc b) = (λ e. tt, λ e. ground arith)
ltb_ℤ-IsLe (negsuc a) (pos b) = (λ e. ground arith, λ e. absurd e)
ltb_ℤ-IsLe (negsuc a) (negsuc b) = (λ e. ground arith, λ e. ground arith)

under-IsAtLeast : (m : Option Number) (z : ℤ) → (under (num z) m ≡ false) ↔ IsAtLeast m z
under-IsAtLeast none z = (λ e. tt, λ e. refl)
under-IsAtLeast (some nan) z = (λ e. tt, λ e. refl)
under-IsAtLeast (some (num m)) z = ltb_ℤ-IsLe z m

over-IsAtMost : (m : Option Number) (z : ℤ) → (over (num z) m ≡ false) ↔ IsAtMost m z
over-IsAtMost none z = (λ e. tt, λ e. refl)
over-IsAtMost (some nan) z = (λ e. tt, λ e. refl)
over-IsAtMost (some (num m)) z = ltb_ℤ-IsLe m z

Within-IsInside : (o : Option SafetyLimit) (z : ℤ) → Within o (num z) ↔ IsInside o z
Within-IsInside none z = (λ e. tt, λ e. tt)
Within-IsInside (some l) z =
    let low = under-IsAtLeast l.minimum z in
    let high = over-IsAtMost l.maximum z in
    (
      λ e. (low.0 (ground arith), high.0 (ground arith)),
      λ h. let a = low.1 h.0 in let b = high.1 h.1 in ground arith,
    )

-- Where the global limit has numbers for bounds and the device's limit is filed under the same
-- quantity, a reading that is a number passes exactly when it is neither below the minimum nor above
-- the maximum of the global limit and of the device's, where there are any: the stricter one wins.
pub check_value_both :
    (c : SafetyConfig) (q : String) (z : ℤ) (d : Option String)
    → IsCoherent (lookup q c.global_limits) (device_limit c q d)
    → (check_value c q (num z) d ≡ ok tt)
      ↔ (IsInside (lookup q c.global_limits) z × IsInside (device_limit c q d) z)
unfolding check_value limit_for
check_value_both c q z d h =
    let both = combine-Within (lookup q c.global_limits) (device_limit c q d) (num z) h in
    let global = Within-IsInside (lookup q c.global_limits) z in
    let local = Within-IsInside (device_limit c q d) z in
    (λ e. let w = both.0 e in (global.0 w.0, local.0 w.1), λ w. both.1 (global.1 w.0, local.1 w.1))

-- Where a quantity has a limit, a reading that is no number passes it, whatever its bounds are.
pub check_value_nan :
    (c : SafetyConfig) (q : String) (d : Option String) (l : SafetyLimit)
    → limit_for c q d ≡ ok (some l)
    → check_value c q nan d ≡ ok tt
unfolding check_value
check_value_nan c q d l e = rw e (no_bound_holds l l.minimum l.maximum)
  where
    no_bound_holds :
        (k : SafetyLimit) (a b : Option Number)
        → check_limit (some (record { quantity = k.quantity; minimum = a; maximum = b })) nan
          ≡ ok tt
    no_bound_holds k none none = refl
    no_bound_holds k (some (Number.nan)) none = refl
    no_bound_holds k (some (Number.num z)) none = refl
    no_bound_holds k none (some b) = refl
    no_bound_holds k (some (Number.nan)) (some b) = refl
    no_bound_holds k (some (Number.num z)) (some b) = refl

-- What one check asks of the request's parameters.
abbrev pub Passes : Floats → SafetyConfig → Option String → LimitCheck → Option Value → Type 0
Passes fl c d k none = k.required ≡ false
Passes fl c d k (some raw) =
    (v : Number) × (to_float fl raw ≡ some v) × (check_value c k.quantity v d ≡ ok tt)

check_given-Passes :
    (fl : Floats) (c : SafetyConfig) (d : Option String) (k : LimitCheck) (o : Option Value)
    → (check_given fl c d k o ≡ ok tt) ↔ Passes fl c d k o
check_given-Passes fl c d k none = (λ e. ground arith, λ e. ground arith)
check_given-Passes fl c d k (some raw) = elim (Option-cases (to_float fl raw)) [
  | inl e ↦ (λ h. absurd (ground arith), λ h. absurd (let f = h.1 in ground arith))
  | inr (v, e) ↦ (λ h. (v, e, ground arith), λ h. let f = h.1 in let g = h.2 in ground arith)
]

-- The checks of a request pass exactly when each one does: a parameter that is given is a float
-- inside its limits, and one that is left out was not required.
pub check_params-All :
    (fl : Floats) (c : SafetyConfig) (params : Dict Value) (ks : List LimitCheck)
    (d : Option String)
    → (check_params fl c params ks d ≡ ok tt)
      ↔ All (λ k. Passes fl c d k (given (lookup k.param params))) ks
unfolding check_params
check_params-All fl c params [] d = (λ e. tt, λ e. refl)
check_params-All fl c params (k ∷ ks) d =
    let ih = check_params-All fl c params ks d in
    let one = check_given-Passes fl c d k (given (lookup k.param params)) in
    (λ e. let both = >>-ok _ _ e in (one.0 both.0, ih.0 both.1), λ h. rw (one.1 h.0) (ih.1 h.1))

-- What one derived check asks: nothing where a parameter is missing or no float.
abbrev pub DerivedPasses :
    Floats → SafetyConfig → Option String → DerivedLimitCheck → Option (List Number) → Type 0
DerivedPasses fl c d k none = Unit
DerivedPasses fl c d k (some vs) =
    (v : Number) × (compute fl k.op vs ≡ ok v) × (check_value c k.quantity v d ≡ ok tt)

check_computed-DerivedPasses :
    (fl : Floats) (c : SafetyConfig) (d : Option String) (k : DerivedLimitCheck)
    (o : Option (List Number))
    → (check_computed fl c d k o ≡ ok tt) ↔ DerivedPasses fl c d k o
check_computed-DerivedPasses fl c d k none = (λ e. tt, λ e. refl)
check_computed-DerivedPasses fl c d k (some vs) = (
  λ e. >>=-eq-ok (compute fl k.op vs) (λ v. check_value c k.quantity v d) e,
  λ h. let f = h.1 in let g = h.2 in ground arith,
)

-- The derived checks pass exactly when the quantity that each one's parameters make is inside its
-- limits, for those whose parameters are all given as floats.
pub check_derived-All :
    (fl : Floats) (c : SafetyConfig) (params : Dict Value) (ks : List DerivedLimitCheck)
    (d : Option String)
    → (check_derived fl c params ks d ≡ ok tt)
      ↔ All (λ k. DerivedPasses fl c d k (derived_values fl params k.params)) ks
unfolding check_derived
check_derived-All fl c params [] d = (λ e. tt, λ e. refl)
check_derived-All fl c params (k ∷ ks) d =
    let ih = check_derived-All fl c params ks d in
    let one = check_computed-DerivedPasses fl c d k (derived_values fl params k.params) in
    (λ e. let both = >>-ok _ _ e in (one.0 both.0, ih.0 both.1), λ h. rw (one.1 h.0) (ih.1 h.1))
