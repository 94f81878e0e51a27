-- ===== src/Restatement/Ledger.antt =====
-- domain/services/statement_ledger_delta_engine.py.
use arche_api.Base.{
  ℕ, suc, ◌+◌, ◌-◌, Bool, Option, none, some, List, [], ◌∷◌, if◌then◌else◌, length, get_elem?, ltb,
  leb, eqb,
}
use arche_api.Base.Int.{ℤ, eqb_ℤ, leb_ℤ}
use arche_api.Base.Sort.{sort}
use arche_api.Base.Results.{Result, ok, err, ◌>>=◌, ◌>>◌, raise_if}
use arche_api.Entities.{CanonicalStatementMetric, CanonicalStatementPayload}
use arche_api.Restatement.Errors.{
  EdgarError, version_not_found, versions_out_of_order, no_earlier_version, no_later_version,
  too_few_versions, index_out_of_range,
}
use arche_api.Restatement.Delta.{RestatementDelta, compute_restatement_delta}

-- Of `EdgarStatementVersion`, what the engine reads.
pub record EdgarStatementVersion : Type 0 where
  pub version_sequence : ℤ
  pub normalized_payload : Option CanonicalStatementPayload

-- A version that has its normalized payload.
pub record NormalizedVersion : Type 0 where
  pub version_sequence : ℤ
  pub payload : CanonicalStatementPayload

abbrev pub keep_normalized :
    ℤ → Option CanonicalStatementPayload → List NormalizedVersion → List NormalizedVersion
keep_normalized sequence none vs = vs
keep_normalized sequence (some p) vs = record { version_sequence = sequence; payload = p } ∷ vs

-- `[v for v in versions if v.normalized_payload is not None]`
abbrev pub normalized_versions : List EdgarStatementVersion → List NormalizedVersion
normalized_versions [] = []
normalized_versions (v ∷ vs) =
    keep_normalized v.version_sequence v.normalized_payload (normalized_versions vs)

abbrev pub version_leb : NormalizedVersion → NormalizedVersion → Bool
version_leb v w = leb_ℤ v.version_sequence w.version_sequence

-- `_normalized_sorted_versions`
abbrev pub normalized_sorted_versions : List EdgarStatementVersion → List NormalizedVersion
normalized_sorted_versions vs = sort version_leb (normalized_versions vs)

-- `_find_version_index`
unfoldable pub find_version_index : List NormalizedVersion → ℤ → Result EdgarError ℕ
find_version_index [] target = err version_not_found
find_version_index (v ∷ vs) target =
    if eqb_ℤ v.version_sequence target
    then ok 0
    else (find_version_index vs target >>= λ i. ok (suc i))

-- `_resolve_version_indices` behind its guard: `last` is `count - 1`.
unfoldable pub select_indices :
    List NormalizedVersion → ℕ → Option ℤ → Option ℤ → Result EdgarError (ℕ × ℕ)
unfolding find_version_index
select_indices vs last (some from) (some to) = do
  i ← find_version_index vs from
  j ← find_version_index vs to
  raise_if (leb j i) versions_out_of_order
  ok (i, j)
select_indices vs last none (some to) = do
  j ← find_version_index vs to
  raise_if (eqb j 0) no_earlier_version
  ok (j - 1, j)
select_indices vs last (some from) none = do
  i ← find_version_index vs from
  raise_if (leb last i) no_later_version
  ok (i, i + 1)
select_indices vs last none none = ok (last - 1, last)

-- `_resolve_version_indices`
unfoldable pub resolve_version_indices :
    List NormalizedVersion → Option ℤ → Option ℤ → Result EdgarError (ℕ × ℕ)
unfolding select_indices
resolve_version_indices vs from to = do
  raise_if (ltb (length vs) 2) too_few_versions
  select_indices vs (length vs - 1) from to

-- `versions[i]` for an `i` that is not negative.
unfoldable pub version_at : List NormalizedVersion → ℕ → Result EdgarError NormalizedVersion
version_at vs i = elim (get_elem? vs i) [ none ↦ err index_out_of_range | some v ↦ ok v ]

-- `compute_restatement_delta_between_versions`
unfoldable pub compute_restatement_delta_between_versions :
    ℕ
    → List EdgarStatementVersion
    → Option ℤ
    → Option ℤ
    → Option (List CanonicalStatementMetric)
    → Result EdgarError RestatementDelta
unfolding resolve_version_indices version_at compute_restatement_delta
compute_restatement_delta_between_versions prec versions from to metrics = do
  (i, j) ← resolve_version_indices (normalized_sorted_versions versions) from to
  v ← version_at (normalized_sorted_versions versions) i
  w ← version_at (normalized_sorted_versions versions) j
  compute_restatement_delta prec v.payload w.payload metrics

-- The loop of `build_restatement_ledger` over the adjacent pairs.
unfoldable pub hops :
    ℕ
    → Option (List CanonicalStatementMetric)
    → List NormalizedVersion
    → Result EdgarError (List RestatementDelta)
unfolding compute_restatement_delta
hops prec metrics [] = ok []
hops prec metrics (v ∷ []) = ok []
hops prec metrics (v ∷ w ∷ vs) = do
  d ← compute_restatement_delta prec v.payload w.payload metrics
  ds ← hops prec metrics (w ∷ vs)
  ok (d ∷ ds)

-- `build_restatement_ledger`
unfoldable pub build_restatement_ledger :
    ℕ
    → List EdgarStatementVersion
    → Option (List CanonicalStatementMetric)
    → Result EdgarError (List RestatementDelta)
unfolding hops
build_restatement_ledger prec versions metrics =
    let vs = normalized_sorted_versions versions in
    if ltb (length vs) 2 then ok [] else hops prec metrics vs
