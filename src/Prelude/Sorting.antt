-- ===== src/Prelude/Sorting.antt =====
-- Python's `sorted` with a key: a stable insertion sort.
use mathlib.Core.Path.{◌≡◌, refl}
use mathlib.Core.Logic.{◌⊎◌, inl, inr}
use mathlib.Core.Bool.{Bool, true, false}
use mathlib.Core.List.{List, [], ◌∷◌, Perm}
use mathlib.Core.List.Perm
use field_deck.Prelude.Tests.{if◌then◌else◌, Bool-cases}
use field_deck.Prelude.Lists.{Member, All, All-map}

module _ {A : Type 0} (le : A → A → Bool) where
  -- An element goes before those that it is not above, so equal keys keep their order.
  abbrev pub insert_by : A → List A → List A
  insert_by x [] = x ∷ []
  insert_by x (y ∷ ys) = if le x y then x ∷ y ∷ ys else y ∷ insert_by x ys

  abbrev pub sort_by : List A → List A
  sort_by [] = []
  sort_by (x ∷ xs) = insert_by x (sort_by xs)

  insert_by-perm : (x : A) (xs : List A) → Perm (insert_by x xs) (x ∷ xs)
  insert_by-perm x [] = Perm.refl (x ∷ [])
  insert_by-perm x (y ∷ ys) = elim (Bool-cases (le x y)) [
    | inl t ↦ rw t (Perm.refl (x ∷ y ∷ ys))
    | inr t ↦ rw t (Perm.trans (Perm.cons y (insert_by-perm x ys)) (Perm.swap x y ys))
  ]

  -- Sorting keeps every element, as often.
  pub sort_by-perm : (xs : List A) → Perm (sort_by xs) xs
  sort_by-perm [] = Perm.nil
  sort_by-perm (x ∷ xs) = Perm.trans (insert_by-perm x (sort_by xs)) (Perm.cons x (sort_by-perm xs))

  pub insert_by-Member : (x y : A) (ys : List A) → Member x (insert_by y ys) → (x ≡ y) ⊎ Member x ys
  insert_by-Member x y [] m = m
  insert_by-Member x y (z ∷ zs) m = elim (Bool-cases (le y z)) [
    | inl t ↦ (rw t at m)
    | inr t ↦ later (insert_by-Member x y zs) (rw t at m)
  ]
    where
      later :
          (Member x (insert_by y zs) → (x ≡ y) ⊎ Member x zs)
          → (x ≡ z) ⊎ Member x (insert_by y zs)
          → (x ≡ y) ⊎ Member x (z ∷ zs)
      later f (inl e) = inr (inl e)
      later f (inr n) = elim (f n) [ inl e ↦ inl e | inr k ↦ inr (inr k) ]

  pub sort_by-Member : (x : A) (xs : List A) → Member x (sort_by xs) → Member x xs
  sort_by-Member x [] m = m
  sort_by-Member x (y ∷ ys) m = elim (insert_by-Member x y (sort_by ys) m) [
    | inl e ↦ inl e
    | inr n ↦ inr (sort_by-Member x ys n)
  ]

  module _ (total : (x y : A) → le x y ≡ false → le y x ≡ true)
      (trans : (x y z : A) → le x y ≡ true → le y z ≡ true → le x z ≡ true)
      (reflexive : (x : A) → le x x ≡ true) where
    -- The first element of a list is below all of it.
    abbrev pub HeadIsLeast : List A → List A → Type 0
    HeadIsLeast [] xs = xs ≡ []
    HeadIsLeast (y ∷ ys) xs = All (λ x. le y x ≡ true) xs

    insert_by-least :
        (x : A) (ys xs : List A) → HeadIsLeast ys xs → HeadIsLeast (insert_by x ys) (x ∷ xs)
    insert_by-least x [] xs h = rw h (reflexive x, tt)
    insert_by-least x (y ∷ ys) xs h = elim (Bool-cases (le x y)) [
      | inl t ↦
          rw t (
            reflexive x,
            All-map (λ z. le y z ≡ true) (λ z. le x z ≡ true) xs (λ z. trans x y z t) h,
          )
      | inr t ↦ rw t (total x y t, h)
    ]

    -- The head of a sorted list is below every element that was sorted.
    pub sort_by-least : (xs : List A) → HeadIsLeast (sort_by xs) xs
    sort_by-least [] = refl
    sort_by-least (x ∷ xs) = insert_by-least x (sort_by xs) xs (sort_by-least xs)
