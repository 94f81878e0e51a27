-- ===== src/FactDq/Engine.antt =====
-- `FactDQEngine` (domain/services/fact_dq_engine.py). The identifier of a run (`uuid4`) and its time
-- are arguments; `prec` is the precision of the decimal context.
use arche_api.Base.{
  ℕ, Bool, true, false, not, ◌&&◌, Option, none, some, List, [], ◌∷◌, ◌++◌, map, if◌then◌else◌, any,
  length, get_last?, eqb,
}
use arche_api.Base.Int.{pos, leb_ℤ}
use arche_api.Base.Text.{Text, codes, text_beq, text_eq, text_leb}
use arche_api.Base.Dict.{Dict, lookup, insert, keys}
use arche_api.Base.Sort.{sort}
use arche_api.Base.Results.{Result, ok, err, ◌>>=◌}
use arche_api.Decimal.{Decimal, decimal_zero, decimal_ltb, decimal_beq, div}
use arche_api.Entities.{
  MaterialityClass, none_class, medium, high, materiality_value, NormalizedStatementIdentity,
  EdgarNormalizedFact, fact_leb,
}
use arche_api.FactDq.Types.{
  FactDqConfig, EdgarDqAnomaly, QualityDetails, EdgarFactQuality, FactDqResult, FactKey, DqError,
  index_error, fact_key_eq, key_of,
}

-- `x in xs` for texts.
abbrev pub is_among : Text → List Text → Bool
is_among x xs = any (λ y. text_beq x y) xs

-- `facts_by_key`
abbrev pub index_facts :
    List EdgarNormalizedFact → Dict FactKey EdgarNormalizedFact → Dict FactKey EdgarNormalizedFact
index_facts [] d = d
index_facts (f ∷ fs) d = index_facts fs (insert (key_of f) f d)

module _ (run_id : Text) (identity : NormalizedStatementIdentity) where
  abbrev pub anomaly : Text → Option Text → Text → MaterialityClass → EdgarDqAnomaly
  anomaly metric dimension rule severity = record {
    dq_run_id = run_id;
    statement_identity = some identity;
    metric_code = some metric;
    dimension_key = dimension;
    rule_code = rule;
    severity = severity;
  }

  -- `_apply_presence_rules`: the anomalies that it appends.
  unfoldable pub apply_presence_rules :
      List Text → Dict FactKey EdgarNormalizedFact → List EdgarDqAnomaly
  apply_presence_rules [] facts_by_key = []
  apply_presence_rules (required ∷ more) facts_by_key =
      let rest = apply_presence_rules more facts_by_key in
      if not (is_among required (map (λ k. k.metric_code) (keys facts_by_key)))
      then anomaly required none (codes "MISSING_KEY_METRIC") high ∷ rest
      else rest

-- `by_metric[fact.metric_code].append(fact)`
abbrev pub or_nil : {A : Type 0} → Option (List A) → List A
or_nil none = []
or_nil (some xs) = xs

abbrev pub History : Type 0
History = Dict Text (List EdgarNormalizedFact)

abbrev pub group_history : List EdgarNormalizedFact → History → History
group_history [] d = d
group_history (f ∷ fs) d =
    group_history fs (insert f.metric_code (or_nil (lookup f.metric_code d) ++ (f ∷ [])) d)

-- `_build_history_index`
unfoldable pub build_history_index : List EdgarNormalizedFact → History
build_history_index history = map (λ p. (p.0, sort fact_leb p.1)) (group_history history [])

-- `fact.value / last.value if last.value != 0 else None`
abbrev pub ratio_to : ℕ → EdgarNormalizedFact → EdgarNormalizedFact → Option Decimal
ratio_to prec f last =
    if not (decimal_beq last.value decimal_zero) then some (div prec f.value last.value) else none

abbrev pub exceeds : Decimal → Option Decimal → Bool
exceeds multiplier none = false
exceeds multiplier (some ratio) = decimal_ltb multiplier ratio

module _ (prec : ℕ) (config : FactDqConfig) (run_id : Text)
    (identity : NormalizedStatementIdentity) where
  abbrev pub is_negative_value : EdgarNormalizedFact → Bool
  is_negative_value f =
      is_among f.metric_code config.non_negative_metrics && decimal_ltb f.value decimal_zero

  -- With enough history, its last fact is read: `hist_facts[-1]` raises where there is none.
  abbrev pub is_outlier : EdgarNormalizedFact → List EdgarNormalizedFact → Result DqError Bool
  is_outlier f past =
      if leb_ℤ config.history_min_observations (pos (length past))
      then elim (get_last? past) [
        | none ↦ err index_error
        | some last ↦ ok (exceeds config.history_outlier_multiplier (ratio_to prec f last))
      ]
      else ok false

  abbrev pub negative_anomaly : EdgarNormalizedFact → EdgarDqAnomaly
  negative_anomaly f =
      anomaly run_id identity f.metric_code (some f.dimension_key) (codes "NEGATIVE_VALUE") high

  abbrev pub outlier_anomaly : EdgarNormalizedFact → EdgarDqAnomaly
  outlier_anomaly f =
      anomaly run_id identity f.metric_code (some f.dimension_key) (codes "HISTORY_OUTLIER_HIGH")
        medium

  -- `_evaluate_fact_rules`
  unfoldable pub evaluate_fact_rules :
      History → EdgarNormalizedFact → Result DqError (List EdgarDqAnomaly)
  evaluate_fact_rules history f =
      is_outlier f (or_nil (lookup f.metric_code history)) >>= λ outlier. ok (
        (if is_negative_value f then negative_anomaly f ∷ [] else [])
        ++ (if outlier then outlier_anomaly f ∷ [] else []))

  -- The loop over the facts.
  unfoldable pub evaluate_facts :
      History → List EdgarNormalizedFact → Result DqError (List EdgarDqAnomaly)
  evaluate_facts history [] = ok []
  evaluate_facts history (f ∷ fs) = evaluate_fact_rules history f >>= λ here.
      evaluate_facts history fs >>= λ there. ok (here ++ there)

-- `anomaly_map`
abbrev pub add_anomaly :
    EdgarDqAnomaly
    → Option Text
    → Option Text
    → Dict FactKey (List EdgarDqAnomaly)
    → Dict FactKey (List EdgarDqAnomaly)
add_anomaly a none d m = m
add_anomaly a (some c) none m = m
add_anomaly a (some c) (some d) m =
    let k : FactKey = record { metric_code = c; dimension_key = d } in
    insert k (or_nil (lookup k m) ++ (a ∷ [])) m

abbrev pub group_anomalies :
    List EdgarDqAnomaly → Dict FactKey (List EdgarDqAnomaly) → Dict FactKey (List EdgarDqAnomaly)
group_anomalies [] m = m
group_anomalies (a ∷ found) m =
    group_anomalies found (add_anomaly a a.metric_code a.dimension_key m)

-- `anomaly.severity.value > severity.value`: a comparison of texts.
abbrev pub escalate : MaterialityClass → List EdgarDqAnomaly → MaterialityClass
escalate severity [] = severity
escalate severity (a ∷ found) =
    escalate
      (if not (text_leb (materiality_value a.severity) (materiality_value severity))
        then a.severity
        else severity)
      found

-- `s.startswith(prefix)`
abbrev pub starts_with : Text → Text → Bool
starts_with [] s = true
starts_with (c ∷ prefix) [] = false
starts_with (c ∷ prefix) (d ∷ s) = eqb c d && starts_with prefix s

abbrev pub is_negative_code : EdgarDqAnomaly → Bool
is_negative_code a = text_beq a.rule_code (codes "NEGATIVE_VALUE")

abbrev pub is_outlier_code : EdgarDqAnomaly → Bool
is_outlier_code a = starts_with (codes "HISTORY_OUTLIER_") a.rule_code

abbrev pub details_of : List EdgarDqAnomaly → Option QualityDetails
details_of [] = none
details_of (a ∷ found) =
    some (record {
      anomaly_count = length (a ∷ found);
      rule_codes = map (λ b. b.rule_code) (a ∷ found);
    })

abbrev pub is_cons : {A : Type 0} → List A → Bool
is_cons [] = false
is_cons (x ∷ xs) = true

module _ (run_id : Text) (identity : NormalizedStatementIdentity) where
  -- The record of one fact for its anomalies.
  abbrev pub quality_of : EdgarNormalizedFact → List EdgarDqAnomaly → EdgarFactQuality
  quality_of f found = record {
    dq_run_id = run_id;
    statement_identity = identity;
    metric_code = f.metric_code;
    dimension_key = f.dimension_key;
    severity = escalate none_class found;
    is_present = true;
    is_non_negative = if any is_negative_code found then some false else none;
    is_consistent_with_history = if any is_outlier_code found then some false else none;
    has_known_issue = is_cons found;
    details = details_of found;
  }

  -- `_build_fact_quality`
  unfoldable pub build_fact_quality :
      List EdgarNormalizedFact → List EdgarDqAnomaly → List EdgarFactQuality
  build_fact_quality facts found =
      map (λ f. quality_of f (or_nil (lookup (key_of f) (group_anomalies found [])))) facts

-- The result for all anomalies.
abbrev pub result_of :
    FactDqConfig
    → Text
    → ℕ
    → NormalizedStatementIdentity
    → List EdgarNormalizedFact
    → List EdgarDqAnomaly
    → FactDqResult
result_of config run_id executed_at identity facts anomalies = record {
  run = record {
    dq_run_id = run_id;
    statement_identity = some identity;
    rule_set_version = config.rule_set_version;
    scope_type = codes "STATEMENT";
    executed_at = executed_at;
  };
  fact_quality = build_fact_quality run_id identity facts anomalies;
  anomalies = anomalies;
}

-- `evaluate`
unfoldable pub evaluate :
    ℕ
    → FactDqConfig
    → Text
    → ℕ
    → NormalizedStatementIdentity
    → List EdgarNormalizedFact
    → List EdgarNormalizedFact
    → Result DqError FactDqResult
evaluate prec config run_id executed_at identity facts history =
    let missing = apply_presence_rules run_id identity config.key_metrics (index_facts facts []) in
    evaluate_facts prec config run_id identity (build_history_index history) facts >>= λ found.
    ok (result_of config run_id executed_at identity facts (missing ++ found))
