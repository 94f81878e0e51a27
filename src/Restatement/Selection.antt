-- ===== src/Restatement/Selection.antt =====
-- The delta between two selected versions: `compute_restatement_delta_between_versions` of
-- domain/services/statement_ledger_delta_engine.py, with every way in which it is refused.
use arche_api.Base.{
  ℕ, zero, suc, ◌-◌, ◌<◌, ◌≤◌, ◌≡◌, refl, ◌∙◌, subst, inl, inr, ◌⊎◌, Option, none, some, List, [],
  ◌∷◌, length, get_elem?, ltb, arith, All, Bool-cases,
}
use mathlib.Core.Option.{some-injective}
use arche_api.Base.Int.{ℤ, eqb_ℤ, eqb_ℤ_iff}
use arche_api.Base.Sort.{sort-All}
use arche_api.Base.Results.{ok, err, Result-cases}
use arche_api.Entities.{CanonicalStatementMetric, CanonicalStatementPayload}
use arche_api.Restatement.Errors.{
  EdgarError, version_not_found, versions_out_of_order, no_earlier_version, no_later_version,
  too_few_versions,
}
use arche_api.Restatement.Delta.{RestatementDelta}
use arche_api.Restatement.DeltaLaws.{IsDeltaOf, compute_restatement_delta_total}
use arche_api.Restatement.Ledger.{
  EdgarStatementVersion, NormalizedVersion, normalized_versions, normalized_sorted_versions,
  version_leb, find_version_index, select_indices, resolve_version_indices,
  compute_restatement_delta_between_versions,
}
use arche_api.Restatement.LedgerLaws.{
  HasSequence, find-cons, Selected, resolve-Selected, between_versions_lem, IsOf, payloads_IsOf,
  same_identity_euclid,
}

-- No version has the sequence.
abbrev pub IsAbsent : List NormalizedVersion → ℤ → Type 0
IsAbsent vs s = All (λ v. ¬ (v.version_sequence ≡ s)) vs

-- The first version with the sequence.
abbrev pub IsFirst : List NormalizedVersion → ℤ → ℕ → Type 0
IsFirst vs s i = HasSequence vs i s × ((k : ℕ) → k < i → ¬ HasSequence vs k s)

-- Why the selectors pick no two places of a history that has two.
abbrev pub IsUnselected : List NormalizedVersion → Option ℤ → Option ℤ → EdgarError → Type 0
IsUnselected vs (some from) (some to) x =
    ((IsAbsent vs from ⊎ IsAbsent vs to) × (x ≡ version_not_found))
    ⊎ ((i j : ℕ) × IsFirst vs from i × IsFirst vs to j × (j ≤ i) × (x ≡ versions_out_of_order))
IsUnselected vs none (some to) x =
    (IsAbsent vs to × (x ≡ version_not_found)) ⊎ (HasSequence vs 0 to × (x ≡ no_earlier_version))
IsUnselected vs (some from) none x =
    (IsAbsent vs from × (x ≡ version_not_found))
    ⊎ (IsFirst vs from (length vs - 1) × (x ≡ no_later_version))
IsUnselected vs none none x = ⊥

abbrev pub IsRefused : List NormalizedVersion → Option ℤ → Option ℤ → EdgarError → Type 0
IsRefused vs from to x =
    ((length vs < 2) × (x ≡ too_few_versions)) ⊎ ((2 ≤ length vs) × IsUnselected vs from to x)

not_before :
    (v : NormalizedVersion) (vs : List NormalizedVersion) (s : ℤ) (i : ℕ)
    → ¬ (v.version_sequence ≡ s)
    → ((k : ℕ) → k < i → ¬ HasSequence vs k s)
    → (k : ℕ) → k < suc i
    → ¬ HasSequence (v ∷ vs) k s
not_before v vs s i other before zero l (w, p, q) = other (rw (some-injective v w p) q)
not_before v vs s i other before (suc k) l has = before k (omega arith) has

-- A version is found at its first place, or there is none.
find-cases :
    (vs : List NormalizedVersion) (s : ℤ)
    → ((i : ℕ) × (find_version_index vs s ≡ ok i) × (i < length vs) × IsFirst vs s i)
      ⊎ ((find_version_index vs s ≡ err version_not_found) × IsAbsent vs s)
find-cases [] s = inr (unfold find_version_index in refl, tt)
find-cases (v ∷ vs) s = elim (Bool-cases (eqb_ℤ v.version_sequence s)) [
  | inl h ↦ inl (
    0,
    rw (find-cons v vs s, h) refl,
    omega arith,
    ((v, refl, (eqb_ℤ_iff v.version_sequence s).0 h), λ k l. absurd (omega arith)),
  )
  | inr h ↦
      let other : ¬ (v.version_sequence ≡ s) =
        λ e. absurd (ground (arith, (eqb_ℤ_iff v.version_sequence s).1 e)) in
      elim (find-cases vs s) [
        | inl (i, e, b, (found, before)) ↦ inl (
          suc i,
          rw (find-cons v vs s, h, e) refl,
          omega arith,
          (found, not_before v vs s i other before),
        )
        | inr (e, gone) ↦ inr (rw (find-cons v vs s, h, e) refl, (other, gone))
      ]
]

-- The error of a selection says why there is none.
select-IsUnselected :
    (vs : List NormalizedVersion) (from to : Option ℤ) (x : EdgarError)
    → select_indices vs (length vs - 1) from to ≡ err x
    → IsUnselected vs from to x
select-IsUnselected vs (some from) (some to) x e = elim (find-cases vs from) [
  | inr (q, gone) ↦ inl (inl gone, unfold select_indices in ground arith)
  | inl (i, q, b, at_from) ↦ elim (find-cases vs to) [
    | inr (r, gone) ↦ inl (inr gone, unfold select_indices in ground arith)
    | inl (j, r, c, at_to) ↦
        let refused : (j ≤ i) × (x ≡ versions_out_of_order) =
          unfold select_indices in ground arith in
        inr (i, j, at_from, at_to, refused.0, refused.1)
  ]
]
select-IsUnselected vs none (some to) x e = elim (find-cases vs to) [
  | inr (q, gone) ↦ inl (gone, unfold select_indices in ground arith)
  | inl (j, q, b, at_to) ↦
      let refused : (j ≡ 0) × (x ≡ no_earlier_version) = unfold select_indices in ground arith in
      inr (subst (λ j. HasSequence vs j to) refused.0 at_to.0, refused.1)
]
select-IsUnselected vs (some from) none x e = elim (find-cases vs from) [
  | inr (q, gone) ↦ inl (gone, unfold select_indices in ground arith)
  | inl (i, q, b, at_from) ↦
      let refused : (length vs - 1 ≤ i) × (x ≡ no_later_version) =
        unfold select_indices in ground arith in
      let last : i ≡ length vs - 1 = omega arith in
      inr (subst (IsFirst vs from) last at_from, refused.1)
]
select-IsUnselected vs none none x e = unfold select_indices in absurd (ground (arith, e))

resolve-IsRefused :
    (vs : List NormalizedVersion) (from to : Option ℤ) (x : EdgarError)
    → resolve_version_indices vs from to ≡ err x
    → IsRefused vs from to x
resolve-IsRefused vs from to x e = elim (Bool-cases (ltb (length vs) 2)) [
  | inl h ↦
      let few : x ≡ too_few_versions = unfold resolve_version_indices in ground arith in
      inl (ground arith, few)
  | inr h ↦
      let rest : select_indices vs (length vs - 1) from to ≡ err x =
        unfold resolve_version_indices in ground arith in
      inr (ground arith, select-IsUnselected vs from to x rest)
]

get_elem?-All :
    {A : Type 0} (P : A → Type 0) (xs : List A) (i : ℕ) (x : A)
    → All P xs
    → get_elem? xs i ≡ some x
    → P x
get_elem?-All P [] i x h e = cc
get_elem?-All P (y ∷ xs) zero x h e = subst P (some-injective y x e) h.0
get_elem?-All P (y ∷ xs) (suc i) x h e = get_elem?-All P xs i x h.1 e

module _ (prec : ℕ) (metrics : Option (List CanonicalStatementMetric)) where
  -- The delta of two versions of the history, the first before the second, as the selectors want them.
  abbrev pub IsSelectedDelta :
      List NormalizedVersion → Option ℤ → Option ℤ → RestatementDelta → Type 0
  IsSelectedDelta vs from to d =
      (i j : ℕ) × (v w : NormalizedVersion) × (get_elem? vs i ≡ some v)
      × (get_elem? vs j ≡ some w)
      × (i < j)
      × Selected vs from to i j
      × IsDeltaOf prec v.payload w.payload metrics d

  refused_versions :
      (versions : List EdgarStatementVersion) (from to : Option ℤ) (x : EdgarError)
      → resolve_version_indices (normalized_sorted_versions versions) from to ≡ err x
      → compute_restatement_delta_between_versions prec versions from to metrics ≡ err x
  unfolding compute_restatement_delta_between_versions
  refused_versions versions from to x e = rw e refl

  -- If the payloads that there are are valid and of one statement identity, the answer is one of two.
  -- It is the delta of two versions of the history sorted by sequence, the first before the second:
  -- the versions named, the neighbour of a single version named, or the last two. Or it is an error:
  -- too_few_versions for fewer than two versions, version_not_found where no version has a named
  -- sequence, versions_out_of_order where the first version with the one sequence does not come before
  -- the first with the other, no_earlier_version for the first version of the history and
  -- no_later_version for its last.
  pub compute_restatement_delta_between_versions_total :
      (p : CanonicalStatementPayload) (versions : List EdgarStatementVersion) (from to : Option ℤ)
      → All
          (λ v.
            (q : CanonicalStatementPayload) → v.normalized_payload ≡ some q → IsOf prec metrics p q)
          versions
      → ((d : RestatementDelta) × (compute_restatement_delta_between_versions prec versions from to
              metrics
            ≡ ok d)
          × IsSelectedDelta (normalized_sorted_versions versions) from to d)
        ⊎ ((x : EdgarError) × (compute_restatement_delta_between_versions prec versions from to
                metrics
              ≡ err x)
            × IsRefused (normalized_sorted_versions versions) from to x)
  compute_restatement_delta_between_versions_total p versions from to h =
      let vs = normalized_sorted_versions versions in
      let valid : All (λ v. IsOf prec metrics p v.payload) vs =
        sort-All version_leb (λ v. IsOf prec metrics p v.payload) (normalized_versions versions)
          (payloads_IsOf prec metrics p versions h) in
      elim (Result-cases (resolve_version_indices vs from to)) [
        | inr (x, e) ↦
            inr (x, refused_versions versions from to x e, resolve-IsRefused vs from to x e)
        | inl ((i, j), e) ↦
            let (before, _, selected) = resolve-Selected vs from to i j e in
            let (v, w, at_i, at_j, same) =
              between_versions_lem prec versions from to metrics i j e in
            let good_v = get_elem?-All (λ v. IsOf prec metrics p v.payload) vs i v valid at_i in
            let good_w = get_elem?-All (λ v. IsOf prec metrics p v.payload) vs j w valid at_j in
            let (d, q, is_delta) =
              compute_restatement_delta_total prec v.payload w.payload metrics good_v.0 good_w.0
                (same_identity_euclid prec metrics p v.payload w.payload good_v.1 good_w.1) in
            inl (d, same ∙ q, (i, j, v, w, at_i, at_j, before, selected, is_delta))
      ]
