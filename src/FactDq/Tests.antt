-- ===== src/FactDq/Tests.antt =====
-- A run of the data-quality engine on two facts.
use arche_api.Base.{◌≡◌, refl, ◌++◌, true, none, some, List, [], ◌∷◌, map, All, In, ◌⊎◌, filter}
use arche_api.Base.Int.{pos, negsuc}
use arche_api.Base.Text.{codes}
use arche_api.Decimal.{whole, decimal_ltb, scale}
use arche_api.Entities.{
  income_statement, us_gaap, fy, date, none_class, high, NormalizedStatementIdentity,
  EdgarNormalizedFact,
}
use arche_api.FactDq.Types.{FactDqConfig, FactDqResult, EdgarDqAnomaly, index_error, key_of}
use arche_api.Base.Results.{ok, err}
use arche_api.FactDq.Engine.{
  evaluate, quality_of, anomaly, result_of, apply_presence_rules, build_history_index,
  evaluate_facts, evaluate_fact_rules, build_fact_quality,
}
use arche_api.FactDq.Anomalies.{IsStuck, expected_missing, expected_anomalies, evaluate-anomalies}
use arche_api.FactDq.Records.{is_about, evaluate-records, severity-always-none}
use arche_api.FactDq.Flags.{is_flagged, has_negative, evaluate-flags}

abbrev statement : NormalizedStatementIdentity
statement = record {
  cik = codes "0000320193";
  statement_type = income_statement;
  fiscal_year = pos 2023;
  fiscal_period = fy;
  version_sequence = pos 1;
}

abbrev loss : EdgarNormalizedFact
loss = record {
  cik = codes "0000320193";
  statement_type = income_statement;
  accounting_standard = us_gaap;
  fiscal_year = pos 2023;
  fiscal_period = fy;
  statement_date = date 2023 12 31;
  version_sequence = pos 1;
  metric_code = codes "REVENUE";
  metric_label = none;
  unit = codes "USD";
  period_start = none;
  period_end = date 2023 12 31;
  value = whole (negsuc 4);
  dimensions = [];
  dimension_key = codes "default";
  source_line_item = none;
}

abbrev other : EdgarNormalizedFact
other = record loss { metric_code = codes "COGS" }

abbrev config : FactDqConfig
config = record {
  rule_set_version = codes "v1";
  key_metrics = codes "REVENUE" ∷ codes "NET_INCOME" ∷ [];
  non_negative_metrics = codes "REVENUE" ∷ [];
  history_outlier_multiplier = whole (pos 10);
  history_min_observations = pos 2;
}

abbrev facts : List EdgarNormalizedFact
facts = loss ∷ other ∷ []

abbrev past : List EdgarNormalizedFact
past = other ∷ other ∷ []

evaluate-anomalies_example :
    (((f : EdgarNormalizedFact) × In f facts × IsStuck 28 config (codes "run") statement past f)
      × (evaluate 28 config (codes "run") 0 statement facts past ≡ err index_error))
    ⊎ (All (λ f. ¬ IsStuck 28 config (codes "run") statement past f) facts
        × ((r : FactDqResult) × (evaluate 28 config (codes "run") 0 statement facts past ≡ ok r)
            × (r.anomalies
                ≡ expected_missing (codes "run") statement config.key_metrics facts
                  ++ expected_anomalies 28 config (codes "run") statement past facts)))
evaluate-anomalies_example = evaluate-anomalies 28 config (codes "run") statement past 0 facts

abbrev found : List EdgarDqAnomaly
found =
    anomaly (codes "run") statement (codes "NET_INCOME") none (codes "MISSING_KEY_METRIC") high
    ∷ anomaly (codes "run") statement (codes "REVENUE") (some (codes "default"))
        (codes "NEGATIVE_VALUE") high
    ∷ []

abbrev result : FactDqResult
result = result_of config (codes "run") 0 statement facts found

returned : evaluate 28 config (codes "run") 0 statement facts [] ≡ ok result
unfolding evaluate apply_presence_rules build_history_index evaluate_facts evaluate_fact_rules
    build_fact_quality decimal_ltb scale
returned = refl

-- No history is enough, so the last fact of none is read.
raised :
    evaluate 28
      (record config { history_min_observations = pos 0 })
      (codes "run")
      0
      statement
      facts
      []
    ≡ err index_error
unfolding evaluate build_history_index evaluate_facts evaluate_fact_rules
raised = refl

evaluate-records_example :
    result.fact_quality
    ≡ map
        (λ f. quality_of (codes "run") statement f (filter (is_about (key_of f)) result.anomalies))
        facts
evaluate-records_example =
    evaluate-records 28 config (codes "run") 0 statement facts [] result returned

severity-always-none_example : All (λ q. q.severity ≡ none_class) result.fact_quality
severity-always-none_example =
    severity-always-none 28 config (codes "run") 0 statement facts [] result returned

evaluate-flags_example :
    is_flagged (key_of loss) result.anomalies
    ≡ has_negative 28 config (codes "run") statement [] (key_of loss) facts
evaluate-flags_example =
    evaluate-flags 28 config (codes "run") statement [] (key_of loss) 0 facts result returned

loss_is_negative : has_negative 28 config (codes "run") statement [] (key_of loss) facts ≡ true
loss_is_negative = refl
