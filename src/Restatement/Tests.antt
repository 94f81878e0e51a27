-- ===== src/Restatement/Tests.antt =====
-- Runs of the restatement services on two versions of a statement.
use arche_api.Base.{◌≡◌, refl, none, some, List, [], ◌∷◌, length, All, ◌<◌, ◌⊎◌}
use mathlib.Core.Option.{some-injective}
use arche_api.Base.Int.{pos, negsuc}
use arche_api.Base.Text.{codes, strip}
use arche_api.Base.Results.{ok, err}
use arche_api.Decimal.{whole, scale, decimal_leb, decimal_ltb}
use arche_api.Entities.{
  metric_eq, revenue, net_income, income_statement, us_gaap, fy, q1, date, low,
  CanonicalStatementPayload, check_payload, validate_identity, validate_source,
}
use arche_api.Restatement.Selection.{
  IsSelectedDelta, IsRefused, compute_restatement_delta_between_versions_total,
}
use arche_api.Restatement.Errors.{EdgarError, version_not_found, versions_out_of_order}
use arche_api.Restatement.Delta.{RestatementDelta, compute_restatement_delta}
use arche_api.Restatement.DeltaLaws.{IsDeltaOf, compute_restatement_delta_total}
use arche_api.Restatement.Ledger.{
  EdgarStatementVersion, normalized_sorted_versions, resolve_version_indices,
  compute_restatement_delta_between_versions, build_restatement_ledger,
}
use arche_api.Restatement.LedgerLaws.{
  Selected, resolve-Selected, IsLedger, IsOf, build_restatement_ledger_total,
}
use arche_api.Restatement.Timeline.{
  RestatementMetricTimeline, build_restatement_metric_timeline, classify_timeline,
}
use arche_api.Restatement.TimelineLaws.{observations}
use arche_api.Restatement.TimelineSeverity.{IsTimelineOf, build_timeline_total}

abbrev first : CanonicalStatementPayload
first = record {
  cik = codes "0000320193";
  statement_type = income_statement;
  accounting_standard = us_gaap;
  statement_date = date 2023 12 31;
  fiscal_year = pos 2023;
  fiscal_period = fy;
  currency = codes "USD";
  unit_multiplier = pos 0;
  core_metrics = (revenue, whole (pos 100)) ∷ (net_income, whole (pos 7)) ∷ [];
  extra_metrics = [];
  dimensions = [];
  source_accession_id = codes "0000320193-24-000001";
  source_taxonomy = codes "US_GAAP_2023";
  source_version_sequence = pos 1;
}

abbrev second : CanonicalStatementPayload
second = record first {
  core_metrics = (net_income, whole (pos 7)) ∷ (revenue, whole (pos 110)) ∷ [];
  source_version_sequence = pos 2;
}

abbrev other : CanonicalStatementPayload
other = record first { fiscal_period = q1 }

first_valid : check_payload first ≡ ok tt
unfolding check_payload validate_identity validate_source strip
first_valid = refl

second_valid : check_payload second ≡ ok tt
unfolding check_payload validate_identity validate_source strip
second_valid = refl

compute_restatement_delta_total_example :
    (d : RestatementDelta) × (compute_restatement_delta 28 first second none ≡ ok d)
    × IsDeltaOf 28 first second none d
compute_restatement_delta_total_example =
    compute_restatement_delta_total 28 first second none first_valid second_valid refl

abbrev history : List EdgarStatementVersion
history =
    record { version_sequence = pos 2; normalized_payload = some second }
    ∷ record { version_sequence = pos 3; normalized_payload = none }
    ∷ record { version_sequence = pos 1; normalized_payload = some first }
    ∷ []

latest_two : resolve_version_indices (normalized_sorted_versions history) none none ≡ ok (0, 1)
unfolding resolve_version_indices
latest_two = refl

not_normalized :
    resolve_version_indices (normalized_sorted_versions history) none (some (pos 3))
    ≡ err version_not_found
unfolding resolve_version_indices
not_normalized = refl

backwards :
    resolve_version_indices (normalized_sorted_versions history) (some (pos 2)) (some (pos 1))
    ≡ err versions_out_of_order
unfolding resolve_version_indices
backwards = refl

resolve-Selected_example :
    (0 < 1)
    × (1 < length (normalized_sorted_versions history))
    × Selected (normalized_sorted_versions history) none none 0 1
resolve-Selected_example =
    resolve-Selected (normalized_sorted_versions history) none none 0 1 latest_two

history_valid :
    All
      (λ v. (q : CanonicalStatementPayload) → v.normalized_payload ≡ some q → IsOf 28 none first q)
      history
history_valid =
    (of_some second (second_valid, refl), ((λ q e. cc), (of_some first (first_valid, refl), tt)))
  where
    of_some :
        (p : CanonicalStatementPayload)
        → IsOf 28 none first p
        → (q : CanonicalStatementPayload) → some p ≡ some q
        → IsOf 28 none first q
    of_some p h q e = rw (← some-injective _ _ e) h

build_restatement_ledger_total_example :
    (ds : List RestatementDelta) × (build_restatement_ledger 28 history none ≡ ok ds)
    × IsLedger 28 none (normalized_sorted_versions history) ds
build_restatement_ledger_total_example =
    build_restatement_ledger_total 28 none first history history_valid

abbrev hop : RestatementDelta
hop = record {
  cik = codes "0000320193";
  statement_type = income_statement;
  accounting_standard = us_gaap;
  statement_date = date 2023 12 31;
  fiscal_year = pos 2023;
  fiscal_period = fy;
  currency = codes "USD";
  from_version_sequence = pos 1;
  to_version_sequence = pos 2;
  metrics =
      (
        revenue,
        record {
          metric = revenue;
          old = some (whole (pos 110));
          new = some (whole (pos 100));
          diff = some (whole (negsuc 9));
        },
      )
      ∷ [];
}

two_hops :
    observations (codes "REVENUE") 1 (hop ∷ hop ∷ [])
    ≡ (1, whole (pos 10)) ∷ (2, whole (pos 10)) ∷ []
two_hops = refl

small_is_low : classify_timeline (whole (pos 10)) ≡ low
unfolding classify_timeline decimal_leb decimal_ltb scale
small_is_low = refl

build_timeline_total_example :
    (t : RestatementMetricTimeline) × (build_restatement_metric_timeline (hop ∷ hop ∷ []) ≡ ok t)
    × IsTimelineOf (hop ∷ hop ∷ []) t
build_timeline_total_example = build_timeline_total hop (hop ∷ [])

compute_restatement_delta_between_versions_total_example :
    ((d : RestatementDelta) × (compute_restatement_delta_between_versions 28 history
          (some (pos 1))
          none
          none
        ≡ ok d)
      × IsSelectedDelta 28 none (normalized_sorted_versions history) (some (pos 1)) none d)
    ⊎ ((x : EdgarError) × (compute_restatement_delta_between_versions 28 history
            (some (pos 1))
            none
            none
          ≡ err x)
        × IsRefused (normalized_sorted_versions history) (some (pos 1)) none x)
compute_restatement_delta_between_versions_total_example =
    compute_restatement_delta_between_versions_total 28 none first history (some (pos 1)) none
      history_valid
