-- ===== src/Base/Dict.antt =====
-- A Python `dict` as an association list in insertion order.
use mathlib.Core.Path.{◌≡◌, refl}
use mathlib.Core.Bool.{Bool, true, false}
use mathlib.Core.Option.{Option, none, some}
use mathlib.Core.List.{List, [], ◌∷◌}
use native.Mathlib.Omega.{arith}
use mathlib.Core.Logic.{inl, inr}
use arche_api.Base.Tests.{if◌then◌else◌, Eq, ◌==◌, Bool-cases}
use arche_api.Base.Lists.{All, In}

abbrev pub Dict {ℓ κ} : Type ℓ → Type κ → Type (ℓ ⊔ κ)
Dict K V = List (K × V)

module _ {ℓ κ} {K : Type ℓ} {V : Type κ} where
  -- `list(d)`
  abbrev pub keys : Dict K V → List K
  keys [] = []
  keys ((k, v) ∷ d) = k ∷ keys d

  -- `list(d.values())`
  abbrev pub values : Dict K V → List V
  values [] = []
  values ((k, v) ∷ d) = v ∷ values d

module _ {ℓ κ} {K : Type ℓ} {V : Type κ} ⦃e : Eq K⦄ where
  -- `d.get(k)`
  abbrev pub lookup : K → Dict K V → Option V
  lookup k [] = none
  lookup k ((j, v) ∷ d) = if k == j then some v else lookup k d

  -- `k in d`
  abbrev pub contains : K → Dict K V → Bool
  contains k d = elim (lookup k d) [ none ↦ false | some _ ↦ true ]

  -- `d[k] = v`: an old key keeps its place.
  abbrev pub insert : K → V → Dict K V → Dict K V
  insert k v [] = (k, v) ∷ []
  insert k v ((j, w) ∷ d) = if k == j then (j, v) ∷ d else (j, w) ∷ insert k v d

  pub lookup-insert :
      (k j : K) (v : V) (d : Dict K V)
      → lookup k (insert j v d) ≡ (if k == j then some v else lookup k d)
  lookup-insert k j v [] = refl
  lookup-insert k j v ((i, w) ∷ d) =
      ground (arith, e.test_iff k j, e.test_iff k i, e.test_iff j i, lookup-insert k j v d)

module _ {K V : Type 0} ⦃e : Eq K⦄ where
  -- No key stands twice.
  abbrev pub IsDistinct : Dict K V → Type 0
  IsDistinct [] = Unit
  IsDistinct ((k, v) ∷ d) = (lookup k d ≡ none) × IsDistinct d

  pub insert-IsDistinct : (k : K) (v : V) (d : Dict K V) → IsDistinct d → IsDistinct (insert k v d)
  insert-IsDistinct k v [] h = (refl, tt)
  insert-IsDistinct k v ((j, w) ∷ d) h =
      ground
        (arith, e.test_iff k j, e.test_iff j k, lookup-insert j k v d, insert-IsDistinct k v d h.1)

  pub insert-All {κ} :
      (P : V → Type κ) (k : K) (v : V) (d : Dict K V)
      → P v
      → All (λ p. P p.1) d
      → All (λ p. P p.1) (insert k v d)
  insert-All P k v [] p h = (p, tt)
  insert-All P k v ((j, w) ∷ d) p h = elim (Bool-cases (k == j)) [
    | inl q ↦ rw q (p, h.1)
    | inr q ↦ rw q (h.0, insert-All P k v d p h.1)
  ]

  pub lookup-All {κ} :
      (P : V → Type κ) (k : K) (v : V) (d : Dict K V)
      → All (λ p. P p.1) d
      → lookup k d ≡ some v
      → P v
  lookup-All P k v [] h q = cc
  lookup-All P k v ((j, w) ∷ d) h q = elim (Bool-cases (k == j)) [
    | inl t ↦ let same : w ≡ v = ground arith in rw (← same) h.0
    | inr t ↦ lookup-All P k v d h.1 (ground arith)
  ]

  pub In-keys-lookup : (k : K) (d : Dict K V) → In k (keys d) → (v : V) × (lookup k d ≡ some v)
  In-keys-lookup k [] i = absurd i
  In-keys-lookup k ((j, w) ∷ d) i = elim (Bool-cases (k == j)) [
    | inl t ↦ (w, ground arith)
    | inr t ↦ let (v, q) = In-keys-lookup k d (ground (arith, e.test_iff k j)) in (v, ground arith)
  ]

  pub lookup-In-values : (k : K) (v : V) (d : Dict K V) → lookup k d ≡ some v → In v (values d)
  lookup-In-values k v [] q = cc
  lookup-In-values k v ((j, w) ∷ d) q = ground (arith, lookup-In-values k v d)

  pub In-values-lookup :
      (v : V) (d : Dict K V) → IsDistinct d → In v (values d) → (k : K) × (lookup k d ≡ some v)
  In-values-lookup v [] h i = absurd i
  In-values-lookup v ((j, w) ∷ d) h i = elim i [
    | inl t ↦ (j, ground (arith, e.test_iff j j))
    | inr t ↦ let (k, q) = In-values-lookup v d h.1 t in (k, ground (arith, e.test_iff k j))
  ]
