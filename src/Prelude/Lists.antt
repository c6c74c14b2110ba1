-- ===== src/Prelude/Lists.antt =====
-- Lists measured by native numbers, Boolean filters, and predicates by recursion.
use Prim.Native.Nat.{ℕ, zero, suc, ◌+◌, ◌-◌, min}
use mathlib.Core.Path.{◌≡◌, refl, sym, ap, ◌∙◌}
use mathlib.Core.Logic.{◌⊎◌, inl, inr}
use mathlib.Core.Bool.{Bool, true, false, not}
use mathlib.Core.List.{List, [], ◌∷◌, ◌++◌, Perm, perm_middle}
use mathlib.Core.List.Perm
use mathlib.Core.Option.{Option, none, some}
use native.Mathlib.Omega.{arith}
use field_deck.Prelude.Tests.{if◌then◌else◌, Bool-cases}

module _ {ℓ} {A : Type ℓ} where
  abbrev pub length : List A → ℕ
  length [] = 0
  length (x ∷ xs) = suc (length xs)

  abbrev pub take : ℕ → List A → List A
  take zero xs = []
  take (suc n) [] = []
  take (suc n) (x ∷ xs) = x ∷ take n xs

  abbrev pub drop : ℕ → List A → List A
  drop zero xs = xs
  drop (suc n) [] = []
  drop (suc n) (x ∷ xs) = drop n xs

  abbrev pub get_elem? : List A → ℕ → Option A
  get_elem? [] i = none
  get_elem? (x ∷ xs) zero = some x
  get_elem? (x ∷ xs) (suc i) = get_elem? xs i

  -- The elements that pass a test: a comprehension with an `if`.
  abbrev pub keep : (A → Bool) → List A → List A
  keep p [] = []
  keep p (x ∷ xs) = if p x then x ∷ keep p xs else keep p xs

  abbrev pub any : (A → Bool) → List A → Bool
  any p [] = false
  any p (x ∷ xs) = if p x then true else any p xs

  abbrev pub head? : List A → Option A
  head? [] = none
  head? (x ∷ xs) = some x

module _ {ℓ} {A : Type ℓ} where
  pub length-append : (xs ys : List A) → length (xs ++ ys) ≡ length xs + length ys
  length-append [] ys = omega arith
  length-append (x ∷ xs) ys = omega (arith, length-append xs ys)

  pub take-append-drop : (n : ℕ) (xs : List A) → take n xs ++ drop n xs ≡ xs
  take-append-drop zero xs = refl
  take-append-drop (suc n) [] = refl
  take-append-drop (suc n) (x ∷ xs) = rw (take-append-drop n xs)

  pub length-take : (n : ℕ) (xs : List A) → length (take n xs) ≡ min n (length xs)
  length-take zero xs = omega arith
  length-take (suc n) [] = omega arith
  length-take (suc n) (x ∷ xs) = omega (arith, length-take n xs)

  pub length-drop : (n : ℕ) (xs : List A) → length (drop n xs) ≡ length xs - n
  length-drop zero xs = omega arith
  length-drop (suc n) [] = omega arith
  length-drop (suc n) (x ∷ xs) = omega (arith, length-drop n xs)

  -- A prefix of exactly `n` elements is taken whole.
  pub take-append : (xs ys : List A) → take (length xs) (xs ++ ys) ≡ xs
  take-append [] ys = refl
  take-append (x ∷ xs) ys = ap (λ zs. x ∷ zs) (take-append xs ys)

  pub drop-append : (xs ys : List A) → drop (length xs) (xs ++ ys) ≡ ys
  drop-append [] ys = refl
  drop-append (x ∷ xs) ys = drop-append xs ys

  -- What passes a test and what fails it make up the list.
  pub drop_none : (n : ℕ) → drop {A = A} n [] ≡ []
  drop_none zero = refl
  drop_none (suc n) = refl

  pub drop-drop : (n m : ℕ) (xs : List A) → drop m (drop n xs) ≡ drop (n + m) xs
  drop-drop zero m xs = ap (λ k. drop k xs) (plain m)
    where
      plain : (a : ℕ) → a ≡ 0 + a
      plain a = omega arith
  drop-drop (suc n) m [] = drop_none m ∙ sym (drop_none (suc n + m))
  drop-drop (suc n) m (x ∷ xs) = drop-drop n m xs ∙ ap (λ k. drop k (x ∷ xs)) (shifted n m)
    where
      shifted : (a b : ℕ) → suc (a + b) ≡ suc a + b
      shifted a b = omega arith

  pub keep-perm : (p : A → Bool) (xs : List A) → Perm xs (keep p xs ++ keep (λ x. not (p x)) xs)
  keep-perm p [] = Perm.nil
  keep-perm p (x ∷ xs) = elim (Bool-cases (p x)) [
    | inl e ↦ rw e (Perm.cons x (keep-perm p xs))
    | inr e ↦ rw e (
        Perm.trans (Perm.cons x (keep-perm p xs))
          (Perm.symm (perm_middle (keep p xs) (keep (λ y. not (p y)) xs))))
  ]

abbrev pub All {ℓ κ} : {A : Type ℓ} → (A → Type κ) → List A → Type κ
All P [] = Unit
All P (x ∷ xs) = P x × All P xs

-- `x in xs`, as a place where it stands.
abbrev pub Member : {A : Type 0} → A → List A → Type 0
Member x [] = ⊥
Member x (y ∷ ys) = (x ≡ y) ⊎ Member x ys

module _ {A : Type 0} where
  -- A member that passes a test is kept, and what is kept was a member that passes.
  pub Member-keep :
      (p : A → Bool) (x : A) (xs : List A) → Member x xs → p x ≡ true → Member x (keep p xs)
  Member-keep p x [] m h = m
  Member-keep p x (y ∷ ys) (inl e) h = rw (← e, h) (inl refl)
  Member-keep p x (y ∷ ys) (inr m) h = elim (Bool-cases (p y)) [
    | inl t ↦ rw t (inr (Member-keep p x ys m h))
    | inr t ↦ rw t (Member-keep p x ys m h)
  ]

  pub keep-Member :
      (p : A → Bool) (x : A) (xs : List A) → Member x (keep p xs) → Member x xs × (p x ≡ true)
  keep-Member p x [] m = absurd m
  keep-Member p x (y ∷ ys) m = elim (Bool-cases (p y)) [
    | inl t ↦ kept t (keep-Member p x ys) (rw t at m)
    | inr t ↦ let r = keep-Member p x ys (rw t at m) in (inr r.0, r.1)
  ]
    where
      kept :
          p y ≡ true
          → (Member x (keep p ys) → Member x ys × (p x ≡ true))
          → (x ≡ y) ⊎ Member x (keep p ys)
          → Member x (y ∷ ys) × (p x ≡ true)
      kept t f (inl e) = (inl e, rw e t)
      kept t f (inr n) = let r = f n in (inr r.0, r.1)

  pub All-Member : (P : A → Type 0) (x : A) (xs : List A) → All P xs → Member x xs → P x
  All-Member P x [] h m = absurd m
  All-Member P x (y ∷ ys) h (inl e) = rw e h.0
  All-Member P x (y ∷ ys) h (inr m) = All-Member P x ys h.1 m

  pub All-keep :
      (P : A → Type 0) (p : A → Bool) (xs : List A)
      → ((x : A) → p x ≡ true → P x)
      → All P (keep p xs)
  All-keep P p [] h = tt
  All-keep P p (x ∷ xs) h = elim (Bool-cases (p x)) [
    | inl t ↦ rw t (h x t, All-keep P p xs h)
    | inr t ↦ rw t (All-keep P p xs h)
  ]

  pub All-of_keep : (P : A → Type 0) (p : A → Bool) (xs : List A) → All P xs → All P (keep p xs)
  All-of_keep P p [] h = tt
  All-of_keep P p (x ∷ xs) h = elim (Bool-cases (p x)) [
    | inl t ↦ rw t (h.0, All-of_keep P p xs h.1)
    | inr t ↦ rw t (All-of_keep P p xs h.1)
  ]

  pub All-map : (P Q : A → Type 0) (xs : List A) → ((x : A) → P x → Q x) → All P xs → All Q xs
  All-map P Q [] f h = tt
  All-map P Q (x ∷ xs) f h = (f x h.0, All-map P Q xs f h.1)

  pub keep-none : (p : A → Bool) (xs : List A) → All (λ x. p x ≡ false) xs → keep p xs ≡ []
  keep-none p [] h = refl
  keep-none p (x ∷ xs) h = rw (h.0) (keep-none p xs h.1)

  pub keep-All : (p : A → Bool) (xs : List A) → All (λ x. p x ≡ true) xs → keep p xs ≡ xs
  keep-All p [] h = refl
  keep-All p (x ∷ xs) h = rw (h.0, keep-All p xs h.1)

  pub keep_refused : (p : A → Bool) (xs : List A) → keep p xs ≡ [] → All (λ x. p x ≡ false) xs
  keep_refused p [] e = tt
  keep_refused p (x ∷ xs) e = elim (Bool-cases (p x)) [
    | inl t ↦ absurd (let e' : x ∷ keep p xs ≡ [] = (rw t at e) in cc)
    | inr t ↦ (t, keep_refused p xs (rw t at e))
  ]

-- One more element in the second or in the third of three parts.
module _ {A : Type 0} (x : A) (xs us vs ws : List A) (h : Perm xs (us ++ vs ++ ws)) where
  pub perm_second : Perm (x ∷ xs) (us ++ (x ∷ vs) ++ ws)
  perm_second =
      Perm.trans (Perm.cons x h) (Perm.append (Perm.symm (perm_middle us vs)) (Perm.refl ws))

  pub perm_third : Perm (x ∷ xs) (us ++ vs ++ (x ∷ ws))
  perm_third = Perm.trans (Perm.cons x h) (Perm.symm (perm_middle (us ++ vs) ws))
