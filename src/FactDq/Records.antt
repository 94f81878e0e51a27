-- ===== src/FactDq/Records.antt =====
-- The records of the facts, read off the anomalies without the map.
use arche_api.Base.{
  subst, ℕ, ◌≡◌, refl, sym, ap, ◌∙◌, inl, inr, Bool, true, false, Option, none, some, List, [], ◌∷◌,
  ◌++◌, map, if◌then◌else◌, filter, append_assoc, append-nil, Bool-cases, All, All-always, map-All,
}
use arche_api.Base.Text.{Text, text_leb}
use arche_api.Base.Dict.{Dict, lookup, lookup-insert}
use arche_api.Entities.{
  MaterialityClass, none_class, low, medium, high, materiality_value, NormalizedStatementIdentity,
  EdgarNormalizedFact,
}
use arche_api.FactDq.Types.{
  FactDqConfig, EdgarDqAnomaly, FactDqResult, FactKey, fact_key_eq, fact_key_beq, fact_key_beq_iff,
  key_of,
}
use arche_api.FactDq.Engine.{
  or_nil, add_anomaly, group_anomalies, escalate, quality_of, build_fact_quality, evaluate,
  evaluate_facts, build_history_index, apply_presence_rules, index_facts,
}
use arche_api.Base.Results.{ok, bind-ok, ok-injective}

-- The anomaly has both parts of the key, and they are those of the key.
abbrev pub concerns : FactKey → Option Text → Option Text → Bool
concerns k none d = false
concerns k (some c) none = false
concerns k (some c) (some d) = fact_key_beq k (record { metric_code = c; dimension_key = d })

abbrev pub is_about : FactKey → EdgarDqAnomaly → Bool
is_about k a = concerns k a.metric_code a.dimension_key

add_anomaly-lookup :
    (k : FactKey) (a : EdgarDqAnomaly) (c d : Option Text) (m : Dict FactKey (List EdgarDqAnomaly))
    → or_nil (lookup k (add_anomaly a c d m))
      ≡ (if concerns k c d then or_nil (lookup k m) ++ (a ∷ []) else or_nil (lookup k m))
add_anomaly-lookup k a none d m = refl
add_anomaly-lookup k a (some c) none m = refl
add_anomaly-lookup k a (some c) (some d) m =
    let j : FactKey = record { metric_code = c; dimension_key = d } in
    elim (Bool-cases (fact_key_beq k j)) [
      | inl e ↦
          rw (lookup-insert k j (or_nil (lookup j m) ++ (a ∷ [])) m, e)
            (ap (λ i. or_nil (lookup i m) ++ (a ∷ [])) (sym ((fact_key_beq_iff k j).0 e)))
      | inr e ↦ rw (lookup-insert k j (or_nil (lookup j m) ++ (a ∷ [])) m, e) refl
    ]

snoc_if :
    (b : Bool) (xs : List EdgarDqAnomaly) (a : EdgarDqAnomaly) (rest : List EdgarDqAnomaly)
    → (if b then xs ++ (a ∷ []) else xs) ++ rest ≡ xs ++ (if b then a ∷ rest else rest)
snoc_if true xs a rest = append_assoc xs (a ∷ []) rest
snoc_if false xs a rest = refl

group_anomalies-filter :
    (k : FactKey) (found : List EdgarDqAnomaly) (m : Dict FactKey (List EdgarDqAnomaly))
    → or_nil (lookup k (group_anomalies found m)) ≡ or_nil (lookup k m) ++ filter (is_about k) found
group_anomalies-filter k [] m = sym (append-nil (or_nil (lookup k m)))
group_anomalies-filter k (a ∷ found) m =
    group_anomalies-filter k found (add_anomaly a a.metric_code a.dimension_key m)
    ∙ ap (λ xs. xs ++ filter (is_about k) found)
        (add_anomaly-lookup k a a.metric_code a.dimension_key m)
    ∙ snoc_if (is_about k a) (or_nil (lookup k m)) a (filter (is_about k) found)

-- One record for each fact, in the order of the facts, made from the anomalies about it.
build-about :
    (run_id : Text) (identity : NormalizedStatementIdentity) (facts : List EdgarNormalizedFact)
    (found : List EdgarDqAnomaly)
    → build_fact_quality run_id identity facts found
      ≡ map (λ f. quality_of run_id identity f (filter (is_about (key_of f)) found)) facts
unfolding build_fact_quality
build-about run_id identity [] found = refl
build-about run_id identity (f ∷ facts) found = rw (group_anomalies-filter (key_of f) found []) (
    ap (◌∷◌ (quality_of run_id identity f (filter (is_about (key_of f)) found)))
      (build-about run_id identity facts found))

-- No severity has a text above that of NONE.
escalate-none : (found : List EdgarDqAnomaly) → escalate none_class found ≡ none_class
escalate-none [] = refl
escalate-none (a ∷ found) = rw (never_above a.severity) (escalate-none found)
  where
    never_above :
        (s : MaterialityClass)
        → text_leb (materiality_value s) (materiality_value none_class) ≡ true
    never_above none_class = refl
    never_above low = refl
    never_above medium = refl
    never_above high = refl

module _ (prec : ℕ) (config : FactDqConfig) (run_id : Text) (executed_at : ℕ)
    (identity : NormalizedStatementIdentity) (facts history : List EdgarNormalizedFact)
    (r : FactDqResult)
    (returned : evaluate prec config run_id executed_at identity facts history ≡ ok r) where
  -- In a result that an evaluation returns there is one record for each fact, in the order of the
  -- facts, and it is the record that belongs to exactly those anomalies of the result that have the
  -- metric and the dimension of the fact.
  pub evaluate-records :
      r.fact_quality
      ≡ map (λ f. quality_of run_id identity f (filter (is_about (key_of f)) r.anomalies)) facts
  unfolding evaluate
  evaluate-records =
      let (found, same, _) =
        bind-ok (evaluate_facts prec config run_id identity (build_history_index history) facts) _ r
          returned in
      subst
        (λ r.
          r.fact_quality
          ≡ map (λ f. quality_of run_id identity f (filter (is_about (key_of f)) r.anomalies))
              facts)
        (ok-injective same)
        (build-about run_id identity facts
          (apply_presence_rules run_id identity config.key_metrics (index_facts facts []) ++ found))

  -- The severity of every record of a result is NONE, whatever anomalies there are: the severities are
  -- compared by their texts, and "NONE" is the greatest of them.
  pub severity-always-none : All (λ q. q.severity ≡ none_class) r.fact_quality
  severity-always-none = rw evaluate-records (
      map-All (λ q. q.severity ≡ none_class) _ facts
        (All-always facts (λ f. escalate-none (filter (is_about (key_of f)) r.anomalies))))
