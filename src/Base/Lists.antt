-- ===== src/Base/Lists.antt =====
-- Lists over the native numbers, and predicates on lists.
use Prim.Native.Nat.{ℕ, zero, suc, ◌+◌}
use mathlib.Core.Path.{◌≡◌, refl}
use mathlib.Core.Logic.{◌⊎◌, inl, inr}
use mathlib.Core.Bool.{Bool, true, false, ◌||◌}
use mathlib.Core.Option.{Option, none, some}
use mathlib.Core.List.{List, [], ◌∷◌, ◌++◌, map}
use native.Mathlib.Omega.{arith}
use arche_api.Base.Tests.{if◌then◌else◌, Bool-cases}

module _ {ℓ} {A : Type ℓ} where
  abbrev pub length : List A → ℕ
  length [] = 0
  length (x ∷ xs) = suc (length xs)

  abbrev pub get_elem? : List A → ℕ → Option A
  get_elem? [] i = none
  get_elem? (x ∷ xs) zero = some x
  get_elem? (x ∷ xs) (suc i) = get_elem? xs i

  -- `[x for x in xs if test(x)]`
  abbrev pub filter : (A → Bool) → List A → List A
  filter test [] = []
  filter test (x ∷ xs) = if test x then x ∷ filter test xs else filter test xs

  abbrev pub any : (A → Bool) → List A → Bool
  any test [] = false
  any test (x ∷ xs) = test x || any test xs

  -- `xs[-1]`
  abbrev pub get_last? : List A → Option A
  get_last? [] = none
  get_last? (x ∷ []) = some x
  get_last? (x ∷ y ∷ ys) = get_last? (y ∷ ys)

  -- `xs[0]`
  abbrev pub head? : List A → Option A
  head? [] = none
  head? (x ∷ xs) = some x

  -- Everything in the list satisfies the predicate.
  abbrev pub All {κ} : (A → Type κ) → List A → Type κ
  All P [] = Unit
  All P (x ∷ xs) = P x × All P xs

  pub All-append {κ} : (P : A → Type κ) (xs ys : List A) → All P xs → All P ys → All P (xs ++ ys)
  All-append P [] ys h k = k
  All-append P (x ∷ xs) ys h k = (h.0, All-append P xs ys h.1 k)

  pub All-map {κ ι} :
      {P : A → Type κ} {Q : A → Type ι} (xs : List A) → ((a : A) → P a → Q a) → All P xs → All Q xs
  All-map [] f h = tt
  All-map (x ∷ xs) f h = (f x h.0, All-map xs f h.1)

  pub length-append : (xs ys : List A) → length (xs ++ ys) ≡ length xs + length ys
  length-append [] ys = omega arith
  length-append (x ∷ xs) ys = omega (arith, length-append xs ys)

module _ {A : Type 0} where
  -- Membership that keeps the position.
  abbrev pub In : A → List A → Type 0
  In a [] = ⊥
  In a (x ∷ xs) = (a ≡ x) ⊎ In a xs

  pub All-In {κ} : (P : A → Type κ) (a : A) (xs : List A) → In a xs → All P xs → P a
  All-In P a [] i h = absurd i
  All-In P a (x ∷ xs) (inl e) h = rw e h.0
  All-In P a (x ∷ xs) (inr i) h = All-In P a xs i h.1

  pub All-of-In {κ} : (P : A → Type κ) (xs : List A) → ((a : A) → In a xs → P a) → All P xs
  All-of-In P [] h = tt
  All-of-In P (x ∷ xs) h = (h x (inl refl), All-of-In P xs (λ a i. h a (inr i)))

  pub In-filter :
      (test : A → Bool) (a : A) (xs : List A) → In a (filter test xs) → In a xs × (test a ≡ true)
  In-filter test a [] i = absurd i
  In-filter test a (x ∷ xs) i = elim (Bool-cases (test x)) [
    | inl e ↦ elim (rw e at i) [
      | inl q ↦ (inl q, rw q e)
      | inr r ↦ let (m, t) = In-filter test a xs r in (inr m, t)
    ]
    | inr e ↦ let (m, t) = In-filter test a xs (rw e at i) in (inr m, t)
  ]

  pub filter-In :
      (test : A → Bool) (a : A) (xs : List A) → In a xs → test a ≡ true → In a (filter test xs)
  filter-In test a [] i t = absurd i
  filter-In test a (x ∷ xs) (inl q) t = rw (rw q at t) (inl q)
  filter-In test a (x ∷ xs) (inr i) t = elim (Bool-cases (test x)) [
    | inl e ↦ rw e (inr (filter-In test a xs i t))
    | inr e ↦ rw e (filter-In test a xs i t)
  ]

module _ {ℓ} {A : Type ℓ} where
  pub map-All {κ ι} :
      {B : Type κ} (P : B → Type ι) (f : A → B) (xs : List A)
      → All (λ a. P (f a)) xs
      → All P (map f xs)
  map-All P f [] h = tt
  map-All P f (x ∷ xs) h = (h.0, map-All P f xs h.1)

  pub filter-All {κ} :
      (P : A → Type κ) (test : A → Bool) (xs : List A) → All P xs → All P (filter test xs)
  filter-All P test [] h = tt
  filter-All P test (x ∷ xs) h = elim (Bool-cases (test x)) [
    | inl e ↦ rw e (h.0, filter-All P test xs h.1)
    | inr e ↦ rw e (filter-All P test xs h.1)
  ]

  -- What holds of everything holds of each element.
  pub All-always {κ} : {P : A → Type κ} (xs : List A) → ((a : A) → P a) → All P xs
  All-always [] h = tt
  All-always (x ∷ xs) h = (h x, All-always xs h)
