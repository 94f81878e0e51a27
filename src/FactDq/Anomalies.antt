-- ===== src/FactDq/Anomalies.antt =====
-- The anomalies of an evaluation, read off the facts and the history without any index.
use arche_api.Base.{
  ℕ, ◌≡◌, refl, sym, ap, subst, ◌∙◌, inl, inr, Bool, not, ◌||◌, none, some, List, [], ◌∷◌, ◌++◌,
  map, if◌then◌else◌, any, filter, append_assoc, ◌⊎◌, true, false, In, All, ◌&&◌, length, get_last?,
  append-nil, Bool-cases, arith,
}
use arche_api.Base.Text.{Text, codes, text_beq, text_beq_iff, text_eq}
use arche_api.Base.Dict.{Dict, lookup, insert, keys, lookup-insert}
use arche_api.Base.Sort.{sort}
use arche_api.Entities.{NormalizedStatementIdentity, EdgarNormalizedFact, fact_leb, high}
use arche_api.FactDq.Types.{
  FactDqConfig, EdgarDqAnomaly, FactDqResult, index_error, FactKey, fact_key_eq, fact_key_beq_iff,
  key_of,
}
use arche_api.FactDq.Engine.{
  is_among, index_facts, anomaly, apply_presence_rules, or_nil, History, group_history,
  build_history_index, is_outlier, evaluate_fact_rules, evaluate_facts, evaluate, result_of,
  negative_anomaly, outlier_anomaly,
}
use arche_api.Base.Int.{pos, leb_ℤ}
use arche_api.Base.Results.{ok, err}
use arche_api.Decimal.{decimal_zero, decimal_beq, decimal_ltb, div, has_minus, decimal_ltb-zero}

-- Whether a fact has the metric.
abbrev pub has_metric : Text → List EdgarNormalizedFact → Bool
has_metric m facts = any (λ f. text_beq m f.metric_code) facts

metrics_of : Dict FactKey EdgarNormalizedFact → List Text
metrics_of d = map (λ k. k.metric_code) (keys d)

is_among-insert :
    (m : Text) (f : EdgarNormalizedFact) (d : Dict FactKey EdgarNormalizedFact)
    → is_among m (metrics_of (insert (key_of f) f d))
      ≡ (text_beq m f.metric_code || is_among m (metrics_of d))
unfolding metrics_of
is_among-insert m f [] = refl
is_among-insert m f ((k, g) ∷ d) =
    ground (arith, fact_key_beq_iff (key_of f) k, is_among-insert m f d)

is_among-index :
    (m : Text) (facts : List EdgarNormalizedFact) (d : Dict FactKey EdgarNormalizedFact)
    → is_among m (metrics_of (index_facts facts d))
      ≡ (has_metric m facts || is_among m (metrics_of d))
is_among-index m [] d = refl
is_among-index m (f ∷ facts) d =
    ground (arith, is_among-index m facts (insert (key_of f) f d), is_among-insert m f d)

-- The facts of the metric in the history, in the order that the engine sorts them by.
abbrev pub past_of : List EdgarNormalizedFact → Text → List EdgarNormalizedFact
past_of history m = sort fact_leb (filter (λ h. text_beq m h.metric_code) history)

group_history-filter :
    (m : Text) (history : List EdgarNormalizedFact) (d : History)
    → or_nil (lookup m (group_history history d))
      ≡ or_nil (lookup m d) ++ filter (λ h. text_beq m h.metric_code) history
group_history-filter m [] d = sym (append-nil (or_nil (lookup m d)))
group_history-filter m (f ∷ history) d =
    group_history-filter m history _ ∙ elim (Bool-cases (text_beq m f.metric_code)) [
      | inl e ↦
          let same = (text_beq_iff m f.metric_code).0 e in
          let rest = filter (λ h. text_beq m h.metric_code) history in
          rw (lookup-insert m f.metric_code (or_nil (lookup f.metric_code d) ++ (f ∷ [])) d, e)
            (subst
              (λ c. (or_nil (lookup c d) ++ (f ∷ [])) ++ rest ≡ or_nil (lookup m d) ++ (f ∷ rest))
              same (append_assoc (or_nil (lookup m d)) (f ∷ []) rest))
      | inr e ↦
          rw (lookup-insert m f.metric_code (or_nil (lookup f.metric_code d) ++ (f ∷ [])) d, e) refl
    ]

lookup-sorted :
    (m : Text) (d : History)
    → or_nil (lookup m (map (λ p. (p.0, sort fact_leb p.1)) d))
      ≡ sort fact_leb (or_nil (lookup m d))
lookup-sorted m [] = refl
lookup-sorted m ((k, fs) ∷ d) = elim (Bool-cases (text_beq m k)) [
  | inl e ↦ rw e refl
  | inr e ↦ rw e (lookup-sorted m d)
]

history-past :
    (history : List EdgarNormalizedFact) (m : Text)
    → or_nil (lookup m (build_history_index history)) ≡ past_of history m
unfolding build_history_index
history-past history m =
    lookup-sorted m (group_history history [])
    ∙ ap (sort fact_leb) (group_history-filter m history [])

module _ (run_id : Text) (identity : NormalizedStatementIdentity) where
  -- One anomaly for each key metric that no fact has.
  abbrev pub expected_missing : List Text → List EdgarNormalizedFact → List EdgarDqAnomaly
  expected_missing metrics facts =
      map (λ m. anomaly run_id identity m none (codes "MISSING_KEY_METRIC") high)
        (filter (λ m. not (has_metric m facts)) metrics)

  presence-expected :
      (metrics : List Text) (facts : List EdgarNormalizedFact)
      → apply_presence_rules run_id identity metrics (index_facts facts [])
        ≡ expected_missing metrics facts
  unfolding apply_presence_rules metrics_of
  presence-expected [] facts = refl
  presence-expected (m ∷ metrics) facts =
      let here : is_among m (map (λ k. k.metric_code) (keys (index_facts facts [])))
          ≡ has_metric m facts =
        ground (arith, is_among-index m facts []) in
      elim (Bool-cases (has_metric m facts)) [
        | inl e ↦ rw (here, e) (presence-expected metrics facts)
        | inr e ↦
            rw (here, e)
              (ap (◌∷◌ (anomaly run_id identity m none (codes "MISSING_KEY_METRIC") high))
                (presence-expected metrics facts))
      ]

last-some :
    (f : EdgarNormalizedFact) (fs : List EdgarNormalizedFact)
    → (last : EdgarNormalizedFact) × (get_last? (f ∷ fs) ≡ some last)
last-some f [] = (f, refl)
last-some f (g ∷ fs) = last-some g fs

module _ (prec : ℕ) (config : FactDqConfig) (run_id : Text) (identity : NormalizedStatementIdentity)
    (history : List EdgarNormalizedFact) where
  -- The digits of the value have a minus sign, and its metric is one that should not be negative.
  abbrev pub is_bad_sign : EdgarNormalizedFact → Bool
  is_bad_sign f = is_among f.metric_code config.non_negative_metrics && has_minus f.value

  -- The history is long enough, its last value is not zero, and the quotient by it is too great.
  abbrev pub is_far_above : EdgarNormalizedFact → List EdgarNormalizedFact → Bool
  is_far_above f past =
      leb_ℤ config.history_min_observations (pos (length past)) && elim (get_last? past) [
        | none ↦ false
        | some last ↦
            not (decimal_beq last.value decimal_zero)
            && decimal_ltb config.history_outlier_multiplier (div prec f.value last.value)
      ]

  abbrev pub expected_of : EdgarNormalizedFact → List EdgarDqAnomaly
  expected_of f =
      (if is_bad_sign f then negative_anomaly prec config run_id identity f ∷ [] else [])
      ++ (if is_far_above f (past_of history f.metric_code)
          then outlier_anomaly prec config run_id identity f ∷ []
          else [])

  abbrev pub expected_anomalies : List EdgarNormalizedFact → List EdgarDqAnomaly
  expected_anomalies [] = []
  expected_anomalies (f ∷ facts) = expected_of f ++ expected_anomalies facts

  -- No history of the metric, and none is enough.
  abbrev pub IsStuck : EdgarNormalizedFact → Type 0
  IsStuck f =
      (leb_ℤ config.history_min_observations (pos 0) ≡ true) × (past_of history f.metric_code ≡ [])

  outlier-cases :
      (f : EdgarNormalizedFact) (past : List EdgarNormalizedFact)
      → (((leb_ℤ config.history_min_observations (pos 0) ≡ true) × (past ≡ []))
          × (is_outlier prec config run_id identity f past ≡ err index_error))
        ⊎ ((¬ ((leb_ℤ config.history_min_observations (pos 0) ≡ true) × (past ≡ [])))
            × (is_outlier prec config run_id identity f past ≡ ok (is_far_above f past)))
  outlier-cases f [] = elim (Bool-cases (leb_ℤ config.history_min_observations (pos 0))) [
    | inl e ↦ inl ((e, refl), rw e refl)
    | inr e ↦ inr (λ q. cc (q.0, e), rw e refl)
  ]
  outlier-cases f (x ∷ xs) =
      let (last, found) = last-some x xs in
      inr (
        λ q. cc q.1,
        elim (Bool-cases (leb_ℤ config.history_min_observations (pos (length (x ∷ xs))))) [
          | inl e ↦
              rw (e, found)
                (elim (Bool-cases (decimal_beq last.value decimal_zero)) [
                  | inl z ↦ rw z refl
                  | inr z ↦ rw z refl
                ])
          | inr e ↦ rw e refl
        ],
      )

  fact_rules-cases :
      (f : EdgarNormalizedFact)
      → (IsStuck f
          × (evaluate_fact_rules prec config run_id identity (build_history_index history) f
              ≡ err index_error))
        ⊎ ((¬ IsStuck f)
            × (evaluate_fact_rules prec config run_id identity (build_history_index history) f
                ≡ ok (expected_of f)))
  unfolding evaluate_fact_rules
  fact_rules-cases f = elim (outlier-cases f (past_of history f.metric_code)) [
    | inl (stuck, e) ↦ inl (stuck, rw (history-past history f.metric_code, e) refl)
    | inr (free, e) ↦
        inr (free, rw (history-past history f.metric_code, e, decimal_ltb-zero f.value) refl)
  ]

  facts-cases :
      (facts : List EdgarNormalizedFact)
      → (((f : EdgarNormalizedFact) × In f facts × IsStuck f)
          × (evaluate_facts prec config run_id identity (build_history_index history) facts
              ≡ err index_error))
        ⊎ (All (λ f. ¬ IsStuck f) facts
            × (evaluate_facts prec config run_id identity (build_history_index history) facts
                ≡ ok (expected_anomalies facts)))
  unfolding evaluate_facts
  facts-cases [] = inr (tt, refl)
  facts-cases (f ∷ facts) = elim (fact_rules-cases f) [
    | inl (stuck, e) ↦ inl ((f, inl refl, stuck), rw e refl)
    | inr (free, e) ↦ elim (facts-cases facts) [
      | inl ((g, i, stuck), h) ↦ inl ((g, inr i, stuck), rw (e, h) refl)
      | inr (others, h) ↦ inr ((free, others), rw (e, h) refl)
    ]
  ]

  -- An evaluation raises IndexError exactly if one of the facts has a metric without history while no
  -- history is enough. Otherwise it returns a result, and its anomalies are, in this order: one for
  -- each key metric that no fact has; then for each fact one if its value has a minus sign and its
  -- metric should not be negative, and one if there is enough history of the metric, whose last value
  -- by date, version, dimension and metric is not zero, and the quotient by it is above the multiple.
  pub evaluate-anomalies :
      (executed_at : ℕ) (facts : List EdgarNormalizedFact)
      → (((f : EdgarNormalizedFact) × In f facts × IsStuck f)
          × (evaluate prec config run_id executed_at identity facts history ≡ err index_error))
        ⊎ (All (λ f. ¬ IsStuck f) facts
            × ((r : FactDqResult) × (evaluate prec config run_id executed_at identity facts history
                  ≡ ok r)
                × (r.anomalies
                    ≡ expected_missing run_id identity config.key_metrics facts
                      ++ expected_anomalies facts)))
  unfolding evaluate
  evaluate-anomalies executed_at facts = elim (facts-cases facts) [
    | inl (stuck, e) ↦ inl (stuck, rw e refl)
    | inr (free, e) ↦
        let made = result_of config run_id executed_at identity facts (
          apply_presence_rules run_id identity config.key_metrics (index_facts facts [])
          ++ expected_anomalies facts) in
        inr (
          free,
          (made, rw e refl, rw (presence-expected run_id identity config.key_metrics facts) refl),
        )
  ]
