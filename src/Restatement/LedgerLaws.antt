-- ===== src/Restatement/LedgerLaws.antt =====
-- Which versions the ledger engine picks, and what its ledger consists of.
use arche_api.Base.{
  ℕ, zero, suc, ◌-◌, ◌<◌, ◌≤◌, ◌≡◌, refl, ◌∙◌, sym, inl, inr, Bool, true, false, ◌&&◌, Option, none,
  some, List, [], ◌∷◌, if◌then◌else◌, length, get_elem?, ltb, arith, All, ◌==◌, Eq, Bool-cases,
}
use arche_api.Base.Int.{ℤ, eqb_ℤ, eqb_ℤ_iff, int_eq}
use arche_api.Base.Text.{text_eq}
use arche_api.Base.Sort.{sort-All}
use arche_api.Base.Results.{ok, ◌>>=◌, raise_if, Result-cases, bind-ok}
use arche_api.Entities.{
  CanonicalStatementMetric, CanonicalStatementPayload, check_payload, statement_type_eq,
  accounting_standard_eq, date_eq, fiscal_period_eq,
}
use arche_api.Restatement.Errors.{too_few_versions}
use arche_api.Restatement.Delta.{RestatementDelta, compute_restatement_delta, same_identity}
use arche_api.Restatement.DeltaLaws.{IsDeltaOf, compute_restatement_delta_total}
use arche_api.Restatement.Ledger.{
  EdgarStatementVersion, NormalizedVersion, keep_normalized, normalized_versions,
  normalized_sorted_versions, version_leb, find_version_index, select_indices,
  resolve_version_indices, version_at, compute_restatement_delta_between_versions, hops,
  build_restatement_ledger,
}

-- The version at a place has the sequence.
abbrev pub HasSequence : List NormalizedVersion → ℕ → ℤ → Type 0
HasSequence vs i s = (v : NormalizedVersion) × (get_elem? vs i ≡ some v) × (v.version_sequence ≡ s)

pub find-cons :
    (v : NormalizedVersion) (vs : List NormalizedVersion) (target : ℤ)
    → find_version_index (v ∷ vs) target ≡ (
        if eqb_ℤ v.version_sequence target
        then ok 0
        else (find_version_index vs target >>= λ i. ok (suc i)))
unfolding find_version_index
find-cons v vs target = refl

find-HasSequence :
    (vs : List NormalizedVersion) (target : ℤ) (i : ℕ)
    → find_version_index vs target ≡ ok i
    → (i < length vs) × HasSequence vs i target
find-HasSequence [] target i e = unfold find_version_index in absurd (ground (arith, e))
find-HasSequence (v ∷ vs) target i e = elim (Bool-cases (eqb_ℤ v.version_sequence target)) [
  | inl h ↦
      let first : 0 ≡ i = ground (arith, find-cons v vs target) in
      rw (← first) (omega arith, (v, refl, (eqb_ℤ_iff v.version_sequence target).0 h))
  | inr h ↦ elim (Result-cases (find_version_index vs target)) [
    | inl (k, q) ↦
        let later : suc k ≡ i = ground (arith, find-cons v vs target) in
        let (bound, found) = find-HasSequence vs target k q in rw (← later) (omega arith, found)
    | inr (x, q) ↦ absurd (ground (arith, find-cons v vs target))
  ]
]

-- What the two selectors may be, and where the two places then are.
abbrev pub Selected : List NormalizedVersion → Option ℤ → Option ℤ → ℕ → ℕ → Type 0
Selected vs (some from) (some to) i j = HasSequence vs i from × HasSequence vs j to
Selected vs none (some to) i j = (j ≡ suc i) × HasSequence vs j to
Selected vs (some from) none i j = (j ≡ suc i) × HasSequence vs i from
Selected vs none none i j = (j ≡ suc i) × (suc j ≡ length vs)

select-Selected :
    (vs : List NormalizedVersion) (from to : Option ℤ) (i j : ℕ)
    → 2 ≤ length vs
    → select_indices vs (length vs - 1) from to ≡ ok (i, j)
    → (i < j) × (j < length vs) × Selected vs from to i j
select-Selected vs (some from) (some to) i j n e =
    elim (Result-cases (find_version_index vs from)) [
      | inl (k, q) ↦ elim (Result-cases (find_version_index vs to)) [
        | inl (l, r) ↦
            let (b, at_from) = find-HasSequence vs from k q in
            let (c, at_to) = find-HasSequence vs to l r in
            let places : (k ≡ i) × (l ≡ j) × (k < l) = unfold select_indices in ground arith in
            rw (← places.0, ← places.1) (places.2, c, (at_from, at_to))
        | inr (x, r) ↦ absurd (unfold select_indices in ground arith)
      ]
      | inr (x, q) ↦ absurd (unfold select_indices in ground arith)
    ]
select-Selected vs none (some to) i j n e = elim (Result-cases (find_version_index vs to)) [
  | inl (l, r) ↦
      let (c, at_to) = find-HasSequence vs to l r in
      let places : (l ≡ j) × (j ≡ suc i) = unfold select_indices in ground arith in
      (omega arith, omega arith, (places.1, rw (← places.0) at_to))
  | inr (x, r) ↦ absurd (unfold select_indices in ground arith)
]
select-Selected vs (some from) none i j n e = elim (Result-cases (find_version_index vs from)) [
  | inl (k, q) ↦
      let (b, at_from) = find-HasSequence vs from k q in
      let places : (k ≡ i) × (j ≡ suc i) × (j < length vs) =
        unfold select_indices in ground arith in
      (omega arith, places.2, (places.1, rw (← places.0) at_from))
  | inr (x, q) ↦ absurd (unfold select_indices in ground arith)
]
select-Selected vs none none i j n e = unfold select_indices in ground arith

-- The places that are picked are in range and in order, and they are the ones asked for: the version
-- named, the neighbour of a single version named, or the last two.
pub resolve-Selected :
    (vs : List NormalizedVersion) (from to : Option ℤ) (i j : ℕ)
    → resolve_version_indices vs from to ≡ ok (i, j)
    → (i < j) × (j < length vs) × Selected vs from to i j
resolve-Selected vs from to i j e =
    unfold resolve_version_indices in
    let (tt, e', enough) = bind-ok (raise_if (ltb (length vs) 2) too_few_versions) _ _ e in
    select-Selected vs from to i j (ground arith) e'

get_elem?-some :
    {A : Type 0} (xs : List A) (i : ℕ) → i < length xs → (x : A) × (get_elem? xs i ≡ some x)
get_elem?-some [] i h = absurd (omega arith)
get_elem?-some (x ∷ xs) zero h = (x, refl)
get_elem?-some (x ∷ xs) (suc i) h = get_elem?-some xs i (omega arith)

version_at-some :
    (vs : List NormalizedVersion) (i : ℕ) (v : NormalizedVersion)
    → get_elem? vs i ≡ some v
    → version_at vs i ≡ ok v
unfolding version_at
version_at-some vs i v e = rw (e, version_at) refl

-- Once two places are picked they are never out of range: what is left is the delta of their payloads.
pub between_versions_lem :
    (prec : ℕ) (versions : List EdgarStatementVersion) (from to : Option ℤ)
    (metrics : Option (List CanonicalStatementMetric)) (i j : ℕ)
    → resolve_version_indices (normalized_sorted_versions versions) from to ≡ ok (i, j)
    → (v w : NormalizedVersion) × (get_elem? (normalized_sorted_versions versions) i ≡ some v)
      × (get_elem? (normalized_sorted_versions versions) j ≡ some w)
      × (compute_restatement_delta_between_versions prec versions from to metrics
          ≡ compute_restatement_delta prec v.payload w.payload metrics)
between_versions_lem prec versions from to metrics i j e =
    let vs = normalized_sorted_versions versions in
    let (lt, bound, _) = resolve-Selected vs from to i j e in
    let (v, p) = get_elem?-some vs i (omega arith) in
    let (w, q) = get_elem?-some vs j bound in
    (
      v,
      w,
      p,
      q,
      unfold compute_restatement_delta_between_versions in
          rw (e, version_at-some vs i v p, version_at-some vs j w q) refl,
    )

beq_euclid :
    {A : Type 0} ⦃e : Eq A⦄ → (a b c : A) → (a == b) ≡ true → (a == c) ≡ true → (b == c) ≡ true
beq_euclid ⦃e⦄ a b c h k = (e.test_iff b c).1 (sym ((e.test_iff a b).0 h) ∙ (e.test_iff a c).0 k)

and_euclid :
    {x x' x'' y y' y'' : Bool}
    → (x ≡ true → x' ≡ true → x'' ≡ true)
    → (y ≡ true → y' ≡ true → y'' ≡ true)
    → (x && y) ≡ true
    → (x' && y') ≡ true
    → (x'' && y'') ≡ true
and_euclid f g h k = ground arith

module _ (prec : ℕ) (metrics : Option (List CanonicalStatementMetric)) where
  -- One delta for each adjacent pair of versions, in their order.
  abbrev pub IsLedger : List NormalizedVersion → List RestatementDelta → Type 0
  IsLedger [] ds = ds ≡ []
  IsLedger (v ∷ []) ds = ds ≡ []
  IsLedger (v ∷ w ∷ vs) [] = ⊥
  IsLedger (v ∷ w ∷ vs) (d ∷ ds) =
      IsDeltaOf prec v.payload w.payload metrics d × IsLedger (w ∷ vs) ds

  -- A valid payload of the given identity.
  abbrev pub IsOf : CanonicalStatementPayload → CanonicalStatementPayload → Type 0
  IsOf p q = (check_payload q ≡ ok tt) × (same_identity p q ≡ true)

  pub same_identity_euclid :
      (p q r : CanonicalStatementPayload)
      → same_identity p q ≡ true
      → same_identity p r ≡ true
      → same_identity q r ≡ true
  same_identity_euclid p q r h k =
      and_euclid (beq_euclid p.cik q.cik r.cik)
        (and_euclid (beq_euclid p.statement_type q.statement_type r.statement_type) (
          and_euclid (beq_euclid p.accounting_standard q.accounting_standard r.accounting_standard)
            (and_euclid (beq_euclid p.statement_date q.statement_date r.statement_date) (
              and_euclid (beq_euclid p.fiscal_year q.fiscal_year r.fiscal_year) (
                and_euclid (beq_euclid p.fiscal_period q.fiscal_period r.fiscal_period)
                  (beq_euclid p.currency q.currency r.currency))))))
        h k

  hops-cons :
      (v w : NormalizedVersion) (vs : List NormalizedVersion)
      → hops prec metrics (v ∷ w ∷ vs) ≡ (
          compute_restatement_delta prec v.payload w.payload metrics >>= λ d.
          hops prec metrics (w ∷ vs) >>= λ ds. ok (d ∷ ds))
  unfolding hops
  hops-cons v w vs = refl

  hops_total :
      (p : CanonicalStatementPayload) (vs : List NormalizedVersion)
      → All (λ v. IsOf p v.payload) vs
      → (ds : List RestatementDelta) × (hops prec metrics vs ≡ ok ds) × IsLedger vs ds
  hops_total p [] h = ([], unfold hops in refl, refl)
  hops_total p (v ∷ []) h = ([], unfold hops in refl, refl)
  hops_total p (v ∷ w ∷ vs) h =
      let same = same_identity_euclid p v.payload w.payload h.0.1 h.1.0.1 in
      let (d, q, is_delta) =
        compute_restatement_delta_total prec v.payload w.payload metrics h.0.0 h.1.0.0 same in
      let (ds, r, is_ledger) = hops_total p (w ∷ vs) h.1 in
      (d ∷ ds, rw (hops-cons v w vs, q, r) refl, (is_delta, is_ledger))

  -- The guard on the length only spares the loop.
  short_or_hops :
      (vs : List NormalizedVersion) (ds : List RestatementDelta)
      → hops prec metrics vs ≡ ok ds
      → (if ltb (length vs) 2 then ok [] else hops prec metrics vs) ≡ ok ds
  unfolding hops
  short_or_hops [] ds e = e
  short_or_hops (v ∷ []) ds e = e
  short_or_hops (v ∷ w ∷ vs) ds e =
      let long : ltb (length (v ∷ w ∷ vs)) 2 ≡ false = ground arith in rw long e

  pub payloads_IsOf :
      (p : CanonicalStatementPayload) (versions : List EdgarStatementVersion)
      → All
          (λ v. (q : CanonicalStatementPayload) → v.normalized_payload ≡ some q → IsOf p q)
          versions
      → All (λ v. IsOf p v.payload) (normalized_versions versions)
  payloads_IsOf p [] h = tt
  payloads_IsOf p (v ∷ vs) h =
      keep-All v.version_sequence v.normalized_payload (normalized_versions vs) h.0
        (payloads_IsOf p vs h.1)
    where
      keep-All :
          (s : ℤ) (o : Option CanonicalStatementPayload) (ws : List NormalizedVersion)
          → ((q : CanonicalStatementPayload) → o ≡ some q → IsOf p q)
          → All (λ w. IsOf p w.payload) ws
          → All (λ w. IsOf p w.payload) (keep_normalized s o ws)
      keep-All s none ws k l = l
      keep-All s (some q) ws k l = (k q refl, l)

  -- If the payloads that there are are valid and of one statement identity, the ledger is built: it
  -- has one delta for each adjacent pair of the versions sorted by their sequence, and nothing else.
  pub build_restatement_ledger_total :
      (p : CanonicalStatementPayload) (versions : List EdgarStatementVersion)
      → All
          (λ v. (q : CanonicalStatementPayload) → v.normalized_payload ≡ some q → IsOf p q)
          versions
      → (ds : List RestatementDelta) × (build_restatement_ledger prec versions metrics ≡ ok ds)
        × IsLedger (normalized_sorted_versions versions) ds
  build_restatement_ledger_total p versions h =
      let vs = normalized_sorted_versions versions in
      let (ds, e, is_ledger) = hops_total p vs (
        sort-All version_leb (λ v. IsOf p v.payload) (normalized_versions versions)
          (payloads_IsOf p versions h)) in
      (ds, unfold build_restatement_ledger in short_or_hops vs ds e, is_ledger)
