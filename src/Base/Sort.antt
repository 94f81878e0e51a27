-- ===== src/Base/Sort.antt =====
-- `sorted(xs, key=...)`: a stable sort by a Boolean comparison, and its laws.
use mathlib.Core.Path.{◌≡◌, refl, ap, sym, ◌∙◌}
use Prim.Native.Nat.{suc}
use native.Mathlib.Omega.{arith}
use mathlib.Core.Logic.{◌⊎◌, ◌↔◌}
use mathlib.Core.Logic.{inl, inr}
use mathlib.Core.Bool.{Bool, true}
use mathlib.Core.List.{List, [], ◌∷◌, Perm, Permᴰ}
use mathlib.Core.List.Perm
use mathlib.Core.Option.{none, some, some-injective}
use arche_api.Base.Tests.{if◌then◌else◌, Bool-cases, Eq, ◌==◌}
use arche_api.Base.Lists.{All, All-In, In, length, head?}

module _ {A : Type 0} (le : A → A → Bool) where
  abbrev pub insert_sorted : A → List A → List A
  insert_sorted x [] = x ∷ []
  insert_sorted x (y ∷ ys) = if le x y then x ∷ y ∷ ys else y ∷ insert_sorted x ys

  -- What comes earlier is inserted later and goes before its equals, so the sort is stable.
  abbrev pub sort : List A → List A
  sort [] = []
  sort (x ∷ xs) = insert_sorted x (sort xs)

  abbrev pub IsSorted : List A → Type 0
  IsSorted [] = Unit
  IsSorted (x ∷ xs) = All (λ y. le x y ≡ true) xs × IsSorted xs

  pub insert_sorted-perm : (x : A) (ys : List A) → Perm (insert_sorted x ys) (x ∷ ys)
  insert_sorted-perm x [] = Perm.refl _
  insert_sorted-perm x (y ∷ ys) = elim (Bool-cases (le x y)) [
    | inl h ↦ rw h (Perm.refl _)
    | inr h ↦ rw h (Perm.trans (Perm.cons y (insert_sorted-perm x ys)) (Perm.swap x y ys))
  ]

  pub sort-perm : (xs : List A) → Perm (sort xs) xs
  sort-perm [] = Perm.refl _
  sort-perm (x ∷ xs) = Perm.trans (insert_sorted-perm x (sort xs)) (Perm.cons x (sort-perm xs))

  pub insert_sorted-All {κ} :
      (P : A → Type κ) (x : A) (ys : List A) → P x → All P ys → All P (insert_sorted x ys)
  insert_sorted-All P x [] p h = (p, tt)
  insert_sorted-All P x (y ∷ ys) p h = elim (Bool-cases (le x y)) [
    | inl e ↦ rw e (p, h)
    | inr e ↦ rw e (h.0, insert_sorted-All P x ys p h.1)
  ]

  pub sort-All {κ} : (P : A → Type κ) (xs : List A) → All P xs → All P (sort xs)
  sort-All P [] h = tt
  sort-All P (x ∷ xs) h = insert_sorted-All P x (sort xs) h.0 (sort-All P xs h.1)

  pub In-insert_sorted : (a x : A) (ys : List A) → In a (insert_sorted x ys) ↔ In a (x ∷ ys)
  In-insert_sorted a x [] = ground arith
  In-insert_sorted a x (y ∷ ys) = ground (arith, In-insert_sorted a x ys)

  pub In-sort : (a : A) (xs : List A) → In a (sort xs) ↔ In a xs
  In-sort a [] = ground arith
  In-sort a (x ∷ xs) = ground (arith, In-insert_sorted a x (sort xs), In-sort a xs)

  pub length-insert_sorted : (x : A) (ys : List A) → length (insert_sorted x ys) ≡ suc (length ys)
  length-insert_sorted x [] = refl
  length-insert_sorted x (y ∷ ys) = ground (arith, length-insert_sorted x ys)

  pub length-sort : (xs : List A) → length (sort xs) ≡ length xs
  length-sort [] = refl
  length-sort (x ∷ xs) = length-insert_sorted x (sort xs) ∙ ap suc (length-sort xs)

  -- The order is total and transitive, as Python's comparison of keys is.
  pub record IsOrder : Type 0 where
    pub total : (x y : A) → (le x y ≡ true) ⊎ (le y x ≡ true)
    pub trans : (x y z : A) → le x y ≡ true → le y z ≡ true → le x z ≡ true

  module _ (o : IsOrder) where
    below-All :
        (x y : A) (ys : List A)
        → le x y ≡ true
        → All (λ z. le y z ≡ true) ys
        → All (λ z. le x z ≡ true) ys
    below-All x y [] h k = tt
    below-All x y (z ∷ ys) h k = (o.trans x y z h k.0, below-All x y ys h k.1)

    pub insert_sorted-IsSorted : (x : A) (ys : List A) → IsSorted ys → IsSorted (insert_sorted x ys)
    insert_sorted-IsSorted x [] h = (tt, tt)
    insert_sorted-IsSorted x (y ∷ ys) h = elim (Bool-cases (le x y)) [
      | inl e ↦ rw e ((e, below-All x y ys e h.0), h)
      | inr e ↦ rw e (
        insert_sorted-All (λ z. le y z ≡ true) x ys (ground (arith, o.total x y)) h.0,
        insert_sorted-IsSorted x ys h.1,
      )
    ]

    pub sort-IsSorted : (xs : List A) → IsSorted (sort xs)
    sort-IsSorted [] = tt
    sort-IsSorted (x ∷ xs) = insert_sorted-IsSorted x (sort xs) (sort-IsSorted xs)

    -- The first of the sorted list is a least element.
    pub head?-sort :
        (xs : List A) {w : A}
        → head? (sort xs) ≡ some w
        → In w xs × ((a : A) → In a xs → le w a ≡ true)
    head?-sort xs {w} e = first (sort xs) e (sort-IsSorted xs) (λ a. In-sort a xs)
      where
        first :
            (ys : List A)
            → head? ys ≡ some w
            → IsSorted ys
            → ((a : A) → In a ys ↔ In a xs)
            → In w xs × ((a : A) → In a xs → le w a ≡ true)
        first [] q s m = cc
        first (y ∷ ys) q s m =
            let same : y ≡ w = some-injective _ _ q in
            (
              (m w).0 (inl (sym same)),
              λ a i. elim ((m a).1 i) [
                | inl h ↦ rw (h, same) (ground (arith, o.total w w))
                | inr j ↦ rw (← same) (All-In (λ z. le y z ≡ true) a ys j s.0)
              ],
            )

  pub head?-sort-none : (xs : List A) → head? (sort xs) ≡ none → (a : A) → ¬ In a xs
  head?-sort-none xs e a i = empty (sort xs) e ((In-sort a xs).1 i)
    where
      empty : (ys : List A) → head? ys ≡ none → ¬ In a ys
      empty [] q j = j
      empty (y ∷ ys) q j = cc

-- The comparison of tuples: the first parts decide, unless they are equal.
abbrev pub lex {ℓ} :
    {A K : Type ℓ} ⦃e : Eq K⦄ → (A → K) → (K → K → Bool) → (A → A → Bool) → A → A → Bool
lex key le rest a b = if key a == key b then rest a b else le (key a) (key b)

pub lex-IsOrder :
    {A K : Type 0} ⦃e : Eq K⦄ (key : A → K) (le : K → K → Bool) (rest : A → A → Bool)
    → IsOrder le
    → ((j k : K) → le j k ≡ true → le k j ≡ true → j ≡ k)
    → IsOrder rest
    → IsOrder (lex key le rest)
lex-IsOrder ⦃e⦄ key le rest o antisym r = record {
  total = λ x y. ground (
    arith,
    e.test_iff (key x) (key y),
    e.test_iff (key y) (key x),
    o.total (key x) (key y),
    r.total x y,
  );
  trans = λ x y z h k. ground (
    arith,
    e.test_iff (key x) (key y),
    e.test_iff (key y) (key z),
    e.test_iff (key x) (key z),
    o.trans (key x) (key y) (key z),
    r.trans x y z,
    antisym (key x) (key y),
  );
}

-- Sorting by an order in which only equal elements are equivalent forgets the order of the list.
module _ {A : Type 0} (le : A → A → Bool) (o : IsOrder le)
    (antisym : (x y : A) → le x y ≡ true → le y x ≡ true → x ≡ y) where
  insert_sorted-swap :
      (x y : A) (zs : List A)
      → insert_sorted le x (insert_sorted le y zs) ≡ insert_sorted le y (insert_sorted le x zs)
  insert_sorted-swap x y [] = ground (arith, o.total x y, antisym x y)
  insert_sorted-swap x y (z ∷ zs) =
      ground
        (arith, o.total x y, antisym x y, o.trans x y z, o.trans y x z, insert_sorted-swap x y zs)

  pub sort-congr : {xs ys : List A} → Permᴰ xs ys → sort le xs ≡ sort le ys
  sort-congr Permᴰ.nil = refl
  sort-congr (Permᴰ.cons e p) = cc (e, sort-congr p)
  sort-congr (Permᴰ.swap {a} {b} {a'} {b'} {l} e f) = cc (e, f, insert_sorted-swap a b (sort le l))
  sort-congr (Permᴰ.trans p q) = sort-congr p ∙ sort-congr q
