-- ===== src/Prelude/Dict.antt =====
-- A Python dict with text keys, in insertion order.
use Prim.Native.String.{String}
use mathlib.Core.Path.{◌≡◌, refl, subst}
use mathlib.Core.Logic.{inl, inr}
use mathlib.Core.Bool.{Bool, false}
use mathlib.Core.Option.{Option, none, some}
use mathlib.Core.List.{List, [], ◌∷◌}
use native.Mathlib.Omega.{arith}
use text.Mathlib.TextEquality.{eq_iff}
use field_deck.Prelude.Tests.{if◌then◌else◌, str_eq, Bool-cases}
use field_deck.Prelude.Lists.{All}

abbrev pub Dict {ℓ} : Type ℓ → Type ℓ
Dict V = List (String × V)

module _ {ℓ} {V : Type ℓ} where
  -- `d.get(k)`
  abbrev pub lookup : String → Dict V → Option V
  lookup k [] = none
  lookup k ((j, v) ∷ d) = if str_eq j k then some v else lookup k d

  -- `d[k] = v`
  abbrev pub insert : String → V → Dict V → Dict V
  insert k v [] = (k, v) ∷ []
  insert k v ((j, w) ∷ d) = if str_eq j k then (j, v) ∷ d else (j, w) ∷ insert k v d

  -- `d.pop(k, None)`, without the value
  abbrev pub erase : String → Dict V → Dict V
  erase k [] = []
  erase k ((j, w) ∷ d) = if str_eq j k then d else (j, w) ∷ erase k d

  -- `list(d.values())`
  abbrev pub values : Dict V → List V
  values [] = []
  values ((k, v) ∷ d) = v ∷ values d

  -- `list(d)`
  abbrev pub keys : Dict V → List String
  keys [] = []
  keys ((k, v) ∷ d) = k ∷ keys d

  -- The entries whose value passes a test.
  abbrev pub keep_values : (V → Bool) → Dict V → Dict V
  keep_values p [] = []
  keep_values p ((k, v) ∷ d) = if p v then (k, v) ∷ keep_values p d else keep_values p d

  -- A write seen from every key.
  pub lookup-insert :
      (k j : String) (v : V) (d : Dict V)
      → lookup j (insert k v d) ≡ (if str_eq k j then some v else lookup j d)
  lookup-insert k j v [] = refl
  lookup-insert k j v ((i, w) ∷ d) =
      ground (arith, eq_iff k j, eq_iff i k, eq_iff i j, lookup-insert k j v d)

  pub lookup-erase_ne :
      (k j : String) (d : Dict V) → str_eq k j ≡ false → lookup j (erase k d) ≡ lookup j d
  lookup-erase_ne k j [] h = refl
  lookup-erase_ne k j ((i, w) ∷ d) h =
      ground (arith, eq_iff k j, eq_iff i k, eq_iff i j, lookup-erase_ne k j d)

  -- No key is listed twice.
  abbrev pub IsDict : Dict V → Type ℓ
  IsDict [] = Unit
  IsDict ((k, v) ∷ d) = (lookup k d ≡ none) × IsDict d

  pub insert-IsDict : (k : String) (v : V) (d : Dict V) → IsDict d → IsDict (insert k v d)
  insert-IsDict k v [] h = (refl, tt)
  insert-IsDict k v ((j, w) ∷ d) h =
      ground (arith, eq_iff j k, eq_iff k j, insert-IsDict k v d h.1, lookup-insert k j v d)

  pub lookup-erase_self : (k : String) (d : Dict V) → IsDict d → lookup k (erase k d) ≡ none
  lookup-erase_self k [] h = refl
  lookup-erase_self k ((j, w) ∷ d) h = ground (arith, eq_iff j k, lookup-erase_self k d h.1)

  pub erase-IsDict : (k : String) (d : Dict V) → IsDict d → IsDict (erase k d)
  erase-IsDict k [] h = tt
  erase-IsDict k ((j, w) ∷ d) h =
      ground (arith, eq_iff j k, eq_iff k j, erase-IsDict k d h.1, lookup-erase_ne k j d)

  pub lookup-keep_values-none :
      (p : V → Bool) (k : String) (d : Dict V)
      → lookup k d ≡ none
      → lookup k (keep_values p d) ≡ none
  lookup-keep_values-none p k [] h = refl
  lookup-keep_values-none p k ((j, w) ∷ d) h =
      ground (arith, eq_iff j k, lookup-keep_values-none p k d)

  pub keep_values-IsDict : (p : V → Bool) (d : Dict V) → IsDict d → IsDict (keep_values p d)
  keep_values-IsDict p [] h = tt
  keep_values-IsDict p ((j, w) ∷ d) h =
      ground (arith, keep_values-IsDict p d h.1, lookup-keep_values-none p j d)

-- A property of every value, through each operation.
module _ {V : Type 0} (P : V → Type 0) where
  pub All-insert :
      (k : String) (v : V) (d : Dict V) → P v → All P (values d) → All P (values (insert k v d))
  All-insert k v [] p h = (p, tt)
  All-insert k v ((j, w) ∷ d) p h = ground (arith, All-insert k v d p h.1)

  pub All-keep_values :
      (p : V → Bool) (d : Dict V) → All P (values d) → All P (values (keep_values p d))
  All-keep_values p [] h = tt
  All-keep_values p ((j, w) ∷ d) h = ground (arith, All-keep_values p d h.1)

  pub All-erase : (k : String) (d : Dict V) → All P (values d) → All P (values (erase k d))
  All-erase k [] h = tt
  All-erase k ((j, w) ∷ d) h = ground (arith, All-erase k d h.1)

  pub lookup-All : (k : String) (v : V) (d : Dict V) → All P (values d) → lookup k d ≡ some v → P v
  lookup-All k v [] h e = cc
  lookup-All k v ((j, w) ∷ d) h e = elim (Bool-cases (str_eq j k)) [
    | inl t ↦ subst P (let found : some w ≡ some v = (rw t at e) in cc) h.0
    | inr t ↦ lookup-All k v d h.1 (rw t at e)
  ]
