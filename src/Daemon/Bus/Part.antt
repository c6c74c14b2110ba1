-- ===== src/Daemon/Bus/Part.antt =====
-- Parts of a list of events that keep its order.
use field_deck.Prelude.{
  ℕ, zero, suc, ◌≤◌, ◌<◌, List, [], ◌∷◌, ◌++◌, drop, length, ◌≡◌, refl, ap, ◌⊎◌, inl, inr, arith,
  subst,
}
use field_deck.Daemon.Bus.{BusEvent}

pub drop_last_in :
    (n : ℕ) (xs ys : List BusEvent) → n ≤ length xs → drop n (xs ++ ys) ≡ drop n xs ++ ys
drop_last_in zero xs ys h = refl
drop_last_in (suc n) [] ys h = absurd (omega arith)
drop_last_in (suc n) (x ∷ xs) ys h = drop_last_in n xs ys (omega arith)

pub drop_one_more :
    (n : ℕ) (xs : List BusEvent) (y : BusEvent) (ys : List BusEvent)
    → drop n xs ≡ y ∷ ys
    → (drop (suc n) xs ≡ ys) × (n < length xs)
drop_one_more zero [] y ys h = absurd (let e : [] ≡ y ∷ ys = h in cc)
drop_one_more zero (x ∷ xs) y ys h = (let e : x ∷ xs ≡ y ∷ ys = h in cc, omega arith)
drop_one_more (suc n) [] y ys h = absurd (let e : [] ≡ y ∷ ys = h in cc)
drop_one_more (suc n) (x ∷ xs) y ys h =
    let more = drop_one_more n xs y ys h in (more.0, omega arith)

-- The events of one list, in the order in which they stand in another.
abbrev pub IsPartOf : List BusEvent → List BusEvent → Type 0
IsPartOf xs [] = xs ≡ []
IsPartOf xs (y ∷ ys) = IsPartOf xs ys ⊎ ((zs : List BusEvent) × (xs ≡ y ∷ zs) × IsPartOf zs ys)

pub none-IsPartOf : (ys : List BusEvent) → IsPartOf [] ys
none-IsPartOf [] = refl
none-IsPartOf (y ∷ ys) = inl (none-IsPartOf ys)

pub one-IsPartOf :
    (e : BusEvent) (xs ys : List BusEvent) → IsPartOf xs ys → IsPartOf (xs ++ e ∷ []) (ys ++ e ∷ [])
one-IsPartOf e xs [] h = inr ([], ap (λ zs. zs ++ e ∷ []) h, refl)
one-IsPartOf e xs (y ∷ ys) (inl h) = inl (one-IsPartOf e xs ys h)
one-IsPartOf e xs (y ∷ ys) (inr (zs, is, h)) =
    inr (zs ++ e ∷ [], ap (λ us. us ++ e ∷ []) is, one-IsPartOf e zs ys h)

pub tail-IsPartOf : (x : BusEvent) (xs ys : List BusEvent) → IsPartOf (x ∷ xs) ys → IsPartOf xs ys
tail-IsPartOf x xs [] h = absurd (let e : x ∷ xs ≡ [] = h in cc)
tail-IsPartOf x xs (y ∷ ys) (inl h) = inl (tail-IsPartOf x xs ys h)
tail-IsPartOf x xs (y ∷ ys) (inr (zs, is, h)) =
    let same : zs ≡ xs = cc in inl (subst (λ us. IsPartOf us ys) same h)

-- An event in the middle may be left out.
pub middle-IsPartOf :
    (us : List BusEvent) (x : BusEvent) (xs ys : List BusEvent)
    → IsPartOf (us ++ x ∷ xs) ys
    → IsPartOf (us ++ xs) ys
middle-IsPartOf [] x xs ys h = tail-IsPartOf x xs ys h
middle-IsPartOf (u ∷ us) x xs [] h = absurd (let e : u ∷ us ++ x ∷ xs ≡ [] = h in cc)
middle-IsPartOf (u ∷ us) x xs (y ∷ ys) (inl h) = inl (middle-IsPartOf (u ∷ us) x xs ys h)
middle-IsPartOf (u ∷ us) x xs (y ∷ ys) (inr (zs, is, h)) =
    let first : u ≡ y = cc in
    let same : zs ≡ us ++ x ∷ xs = cc in
    inr (
      us ++ xs,
      ap (λ v. v ∷ us ++ xs) first,
      middle-IsPartOf us x xs ys (subst (λ vs. IsPartOf vs ys) same h),
    )
