-- ===== src/FactDq/Flags.antt =====
-- When the record of a fact says that its value should not be negative and is.
use arche_api.Base.{
  ℕ, ◌≡◌, refl, sym, ap, ◌∙◌, inl, inr, Bool, true, false, not, ◌&&◌, ◌||◌, none, List, [], ◌∷◌,
  ◌++◌, map, if◌then◌else◌, any, filter, arith,
}
use arche_api.Base.Text.{Text, codes}
use arche_api.Entities.{NormalizedStatementIdentity, EdgarNormalizedFact, high}
use arche_api.FactDq.Types.{
  FactDqConfig, EdgarDqAnomaly, FactDqResult, DqError, index_error, FactKey, fact_key_beq, key_of,
}
use arche_api.FactDq.Engine.{anomaly, negative_anomaly, outlier_anomaly, is_negative_code, evaluate}
use arche_api.Base.Results.{Result, ok, err, ok-injective}
use arche_api.FactDq.Anomalies.{
  expected_missing, expected_of, expected_anomalies, past_of, is_bad_sign, is_far_above,
  evaluate-anomalies, has_metric,
}
use arche_api.FactDq.Records.{is_about}

-- Whether a NEGATIVE_VALUE anomaly is about the key.
abbrev pub is_flagged : FactKey → List EdgarDqAnomaly → Bool
is_flagged k found = any is_negative_code (filter (is_about k) found)

flagged-append :
    (k : FactKey) (xs ys : List EdgarDqAnomaly)
    → is_flagged k (xs ++ ys) ≡ (is_flagged k xs || is_flagged k ys)
flagged-append k [] ys = refl
flagged-append k (a ∷ xs) ys = ground (arith, flagged-append k xs ys)

missing-flags :
    (k : FactKey) (run_id : Text) (identity : NormalizedStatementIdentity) (metrics : List Text)
    → is_flagged k
        (map (λ m. anomaly run_id identity m none (codes "MISSING_KEY_METRIC") high) metrics)
      ≡ false
missing-flags k run_id identity [] = refl
missing-flags k run_id identity (m ∷ metrics) = missing-flags k run_id identity metrics

module _ (prec : ℕ) (config : FactDqConfig) (run_id : Text) (identity : NormalizedStatementIdentity)
    (history : List EdgarNormalizedFact) (k : FactKey) where
  one_flag :
      (f : EdgarNormalizedFact) (n o : Bool)
      → is_flagged k (
          (if n then negative_anomaly prec config run_id identity f ∷ [] else [])
          ++ (if o then outlier_anomaly prec config run_id identity f ∷ [] else []))
        ≡ (fact_key_beq k (key_of f) && n)
  one_flag f true true = ground arith
  one_flag f true false = ground arith
  one_flag f false true = ground arith
  one_flag f false false = ground arith

  -- A fact of the key has a value with a minus sign that it should not have.
  abbrev pub has_negative : List EdgarNormalizedFact → Bool
  has_negative facts =
      any (λ f. fact_key_beq k (key_of f) && is_bad_sign prec config run_id identity history f)
        facts

  facts-flags :
      (facts : List EdgarNormalizedFact)
      → is_flagged k (expected_anomalies prec config run_id identity history facts)
        ≡ has_negative facts
  facts-flags [] = refl
  facts-flags (f ∷ facts) =
      rw
        (
          flagged-append k (expected_of prec config run_id identity history f)
              (expected_anomalies prec config run_id identity history facts),
          one_flag f (is_bad_sign prec config run_id identity history f)
              (is_far_above prec config run_id identity history f (past_of history f.metric_code)),
          facts-flags facts,
        )
        refl

  returned-anomalies :
      (executed_at : ℕ) (facts : List EdgarNormalizedFact) (r : FactDqResult)
      → evaluate prec config run_id executed_at identity facts history ≡ ok r
      → r.anomalies
        ≡ expected_missing run_id identity config.key_metrics facts
          ++ expected_anomalies prec config run_id identity history facts
  returned-anomalies executed_at facts r h =
      elim (evaluate-anomalies prec config run_id identity history executed_at facts) [
        | inl (stuck, e) ↦ absurd (clash (sym h ∙ e))
        | inr (free, (s, e, found)) ↦ ap (λ r. r.anomalies) (ok-injective (sym h ∙ e)) ∙ found
      ]
    where
      clash : ¬ (◌≡◌ {A = Result DqError FactDqResult} (ok r) (err index_error))
      clash q = absurd (ground arith)

  -- The anomalies of a result mark a metric and dimension as negative exactly if one of the facts with
  -- this metric and dimension has a value with a minus sign and its metric is one that should not be
  -- negative.
  pub evaluate-flags :
      (executed_at : ℕ) (facts : List EdgarNormalizedFact) (r : FactDqResult)
      → evaluate prec config run_id executed_at identity facts history ≡ ok r
      → is_flagged k r.anomalies ≡ has_negative facts
  evaluate-flags executed_at facts r h =
      rw
        (
          returned-anomalies executed_at facts r h,
          flagged-append k (expected_missing run_id identity config.key_metrics facts)
              (expected_anomalies prec config run_id identity history facts),
          missing-flags k run_id identity
              (filter (λ m. not (has_metric m facts)) config.key_metrics),
          facts-flags facts,
        )
        refl
