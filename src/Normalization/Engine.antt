-- ===== src/Normalization/Engine.antt =====
-- `CanonicalStatementNormalizer`.
use arche_api.Base.{ℕ, Bool, ◌||◌, none, some, List, [], ◌∷◌, ◌++◌, map, if◌then◌else◌}
use arche_api.Base.Int.{pos, leb_ℤ}
use arche_api.Base.Text.{Text, codes, text_beq, strip, is_empty}
use arche_api.Base.Dict.{Dict, insert}
use arche_api.Base.Results.{Result, ok, err, ◌>>=◌, ◌>>◌, raise_if}
use arche_api.Decimal.{Decimal}
use arche_api.Entities.{
  CanonicalStatementMetric, metric_eq, CanonicalStatementPayload, PayloadError, check_payload,
}
use arche_api.Overrides.{FactContext}
use arche_api.Overrides.Engine.{apply}
use arche_api.Normalization.Types.{
  EdgarFact, high, CanonicalMetricRecord, NormalizationContext, Warning, unresolved, suppressed,
  NormalizationResult, NormalizationError, empty_cik, empty_currency, bad_year, empty_taxonomy,
  bad_sequence, refused_payload,
}
use arche_api.Normalization.Parse.{parse_decimal, map_text, upper_case}
use arche_api.Normalization.Registry.{canonical_metric_registry}
use arche_api.Normalization.Choice.{index_by_concept, candidates_of, choose_fact}

-- `not text or not text.strip()`
abbrev pub is_blank : Text → Bool
is_blank text = is_empty text || is_empty (strip text)

-- `_validate_context`
unfoldable pub validate_context : NormalizationContext → Result NormalizationError (Unit {0})
validate_context context = do
  raise_if (is_blank context.cik) empty_cik
  raise_if (is_blank context.currency) empty_currency
  raise_if (leb_ℤ context.fiscal_year (pos 0)) bad_year
  raise_if (is_blank context.taxonomy) empty_taxonomy
  raise_if (leb_ℤ context.version_sequence (pos 0)) bad_sequence

-- `_canonicalize_unit`
unfoldable pub canonicalize_unit : Text → Text
unfolding strip
canonicalize_unit unit =
    let cleaned = map_text upper_case (strip unit) in
    if text_beq cleaned (codes "USD")
      || text_beq cleaned (codes "US DOLLAR")
      || text_beq cleaned (codes "US$")
      || text_beq cleaned (codes "$")
    then codes "USD"
    else if text_beq cleaned (codes "SHARES") || text_beq cleaned (codes "SHARE")
    then codes "SHARE"
    else if text_beq cleaned (codes "PURE")
    then codes "RATIO"
    else cleaned

abbrev pub fact_context :
    NormalizationContext → CanonicalStatementMetric → Text → EdgarFact → FactContext
fact_context context registry_metric concept chosen = record {
  concept = concept;
  taxonomy = context.taxonomy;
  fact_dimensions = chosen.dimensions;
  cik = context.cik;
  industry_code = context.industry_code;
  analyst_id = context.analyst_profile_id;
  base_metric = some registry_metric;
}

-- The metric after the override rules, or the warning of a suppression.
unfoldable pub effective_metric :
    NormalizationContext
    → CanonicalStatementMetric
    → Text
    → EdgarFact
    → Result Warning CanonicalStatementMetric
effective_metric context registry_metric concept chosen = elim context.override_rules [
  | [] ↦ ok registry_metric
  | r ∷ rs ↦
      let decision =
        (apply (fact_context context registry_metric concept chosen) (r ∷ rs)
          context.enable_override_trace).0 in
      elim decision.final_metric [
        | none ↦ err (suppressed registry_metric decision.applied_scope decision.applied_rule_id)
        | some metric ↦ ok metric
      ]
]

abbrev pub metric_record : EdgarFact → Decimal → CanonicalStatementMetric → CanonicalMetricRecord
metric_record chosen amount metric = record {
  metric = metric;
  value = amount;
  unit = canonicalize_unit chosen.unit;
  confidence = high;
  source_fact_ids = chosen.fact_id ∷ [];
}

abbrev pub with_metric :
    EdgarFact
    → Decimal
    → Result Warning CanonicalStatementMetric
    → Result Warning CanonicalMetricRecord
with_metric chosen amount (err warning) = err warning
with_metric chosen amount (ok metric) = ok (metric_record chosen amount metric)

module _ (prec : ℕ) (context : NormalizationContext) where
  -- What the body of the loop does with the fact chosen.
  abbrev pub record_of :
      CanonicalStatementMetric
      → Text
      → EdgarFact
      → Result NormalizationError (Result Warning CanonicalMetricRecord)
  record_of registry_metric concept chosen =
      parse_decimal prec chosen.value chosen.decimals >>= λ amount.
      ok (with_metric chosen amount (effective_metric context registry_metric concept chosen))

  -- `_resolve_metric`: a record or a warning.
  abbrev pub resolve_metric :
      CanonicalStatementMetric
      → List Text
      → (Text → List EdgarFact)
      → Result NormalizationError (Result Warning CanonicalMetricRecord)
  resolve_metric registry_metric [] facts_of = ok (err (unresolved registry_metric))
  resolve_metric registry_metric (concept ∷ concepts) facts_of =
      choose_fact context.currency (facts_of concept) >>= λ choice. elim choice [
        | none ↦ resolve_metric registry_metric concepts facts_of
        | some chosen ↦ record_of registry_metric concept chosen
      ]

  abbrev pub Resolved : Type 0
  Resolved = Dict CanonicalStatementMetric CanonicalMetricRecord × List Warning

  abbrev pub add_resolved : Result Warning CanonicalMetricRecord → Resolved → Resolved
  add_resolved (ok r) (records, warnings) = (insert r.metric r records, warnings)
  add_resolved (err warning) (records, warnings) = (records, warnings ++ (warning ∷ []))

  -- The loop over the registry.
  unfoldable pub resolve_metrics :
      Dict CanonicalStatementMetric (List Text)
      → (Text → List EdgarFact)
      → Resolved
      → Result NormalizationError Resolved
  resolve_metrics [] facts_of resolved = ok resolved
  resolve_metrics ((metric, concepts) ∷ rest) facts_of resolved =
      resolve_metric metric concepts facts_of >>= λ outcome.
      resolve_metrics rest facts_of (add_resolved outcome resolved)

  abbrev pub core_metrics_of :
      Dict CanonicalStatementMetric CanonicalMetricRecord → Dict CanonicalStatementMetric Decimal
  core_metrics_of records = map (λ e. (e.0, e.1.value)) records

  abbrev pub payload_of :
      Dict CanonicalStatementMetric CanonicalMetricRecord → CanonicalStatementPayload
  payload_of records = record {
    cik = context.cik;
    statement_type = context.statement_type;
    accounting_standard = context.accounting_standard;
    statement_date = context.statement_date;
    fiscal_year = context.fiscal_year;
    fiscal_period = context.fiscal_period;
    currency = context.currency;
    unit_multiplier = pos 0;
    core_metrics = core_metrics_of records;
    extra_metrics = [];
    dimensions = (codes "consolidation", codes "CONSOLIDATED") ∷ [];
    source_accession_id = context.accession_id;
    source_taxonomy = context.taxonomy;
    source_version_sequence = context.version_sequence;
  }

  abbrev pub refuse_payload : Result PayloadError (Unit {0}) → Result NormalizationError (Unit {0})
  refuse_payload (ok _) = ok tt
  refuse_payload (err exc) = err (refused_payload exc)

  -- `normalize`
  unfoldable pub normalize : Text → Result NormalizationError NormalizationResult
  normalize payload_version = do
    validate_context context
    resolved ←
        resolve_metrics canonical_metric_registry
          (λ concept. candidates_of concept (index_by_concept context.facts [])) ([], [])
    refuse_payload (check_payload (payload_of resolved.0))
    ok (record {
      payload = payload_of resolved.0;
      payload_version = payload_version;
      metric_records = resolved.0;
      warnings = resolved.1;
    })
