-- ===== src/Reconciliation/Run.antt =====
-- `ReconciliationEngine.run` (domain/services/reconciliation_engine.py).
use arche_api.Base.{ℕ, Bool, true, false, not, List, [], ◌∷◌, ◌++◌, map, if◌then◌else◌}
use arche_api.Base.Int.{ℤ, leb_ℤ, int_eq}
use arche_api.Base.Text.{Text, text_leb, text_eq}
use arche_api.Base.Dict.{Dict, lookup}
use arche_api.Base.Sort.{sort, lex}
use arche_api.Base.Results.{Result, ok, ◌>>=◌}
use arche_api.Decimal.{Decimal}
use arche_api.Entities.{
  CanonicalStatementMetric, statement_type_value, fiscal_period_value, CanonicalStatementPayload,
  NormalizedStatementIdentity, identity_eq, EdgarNormalizedFact,
}
use arche_api.Reconciliation.Rules.{
  StatementReconciliationContext, ReconciliationResult, ReconciliationRule, identity_rule,
  rollforward_rule, fx_rule, calendar_rule, segment_rule, rule_is_enabled,
}
use arche_api.Reconciliation.Calendar.{
  ReconciliationError, StatementPeriod, infer_statement_period, align_statements_across_types,
  identity_of,
}
use arche_api.Reconciliation.Engine.{apply_identity_rule, apply_rollforward_rule}
use arche_api.Reconciliation.Single.{
  apply_fx_rule, apply_calendar_rule, apply_segment_rule, index_payloads,
}

pub record ReconciliationEngineConfig : Type 0 where
  pub rule_set_version : Text
  pub default_tolerance : Decimal
  pub fx_tolerance_bps : ℤ

abbrev pub FactsByIdentity : Type 0
FactsByIdentity = Dict NormalizedStatementIdentity (List EdgarNormalizedFact)

abbrev pub context_of : FactsByIdentity → CanonicalStatementPayload → StatementReconciliationContext
context_of facts p = record {
  identity = identity_of p;
  payload = p;
  facts = lookup (identity_of p) facts;
}

-- `_build_statement_contexts`
unfoldable pub build_statement_contexts :
    List CanonicalStatementPayload → FactsByIdentity → List StatementReconciliationContext
build_statement_contexts statements facts = map (context_of facts) statements

-- `[infer_statement_period(ctx.payload) for ctx in contexts]`
unfoldable pub infer_periods :
    List StatementReconciliationContext → Result ReconciliationError (List StatementPeriod)
unfolding infer_statement_period
infer_periods [] = ok []
infer_periods (c ∷ cs) = do p ← infer_statement_period c.payload; ps ← infer_periods cs; ok (p ∷ ps)

-- The sort key of a result.
abbrev pub result_leb : ReconciliationResult → ReconciliationResult → Bool
result_leb =
    lex (λ r. r.statement_identity.cik) text_leb
      (lex (λ r. statement_type_value r.statement_identity.statement_type) text_leb
        (lex (λ r. r.statement_identity.fiscal_year) leb_ℤ
          (lex (λ r. fiscal_period_value r.statement_identity.fiscal_period) text_leb
            (lex (λ r. r.statement_identity.version_sequence) leb_ℤ
              (λ a b. text_leb a.rule_id b.rule_id)))))

module _ (prec : ℕ) (set_order : List CanonicalStatementMetric → List CanonicalStatementMetric)
    (config : ReconciliationEngineConfig) (contexts : List StatementReconciliationContext)
    (periods : List StatementPeriod) (facts : FactsByIdentity) where
  -- One rule of the loop; the chain of `isinstance` tests.
  unfoldable pub apply_rule :
      ReconciliationRule → Result ReconciliationError (List ReconciliationResult)
  unfolding apply_identity_rule apply_rollforward_rule apply_fx_rule apply_calendar_rule
      apply_segment_rule align_statements_across_types
  apply_rule (identity_rule r) =
      apply_identity_rule prec set_order config.default_tolerance r
        (align_statements_across_types periods)
  apply_rule (rollforward_rule r) =
      ok (apply_rollforward_rule prec config.default_tolerance r periods)
  apply_rule (fx_rule r) = ok (apply_fx_rule r contexts)
  apply_rule (calendar_rule r) = ok (apply_calendar_rule r periods)
  apply_rule (segment_rule r) =
      ok (apply_segment_rule prec config.default_tolerance r (index_payloads contexts []) facts)

  -- The loop over the rules.
  unfoldable pub apply_rules :
      List ReconciliationRule → Result ReconciliationError (List ReconciliationResult)
  unfolding apply_rule
  apply_rules [] = ok []
  apply_rules (r ∷ rules) =
      let rest = apply_rules rules in
      if not (rule_is_enabled r)
      then rest
      else (apply_rule r >>= λ here. rest >>= λ there. ok (here ++ there))

abbrev pub is_empty_list : {A : Type 0} → List A → Bool
is_empty_list [] = true
is_empty_list (x ∷ xs) = false

module _ (prec : ℕ) (set_order : List CanonicalStatementMetric → List CanonicalStatementMetric)
    (config : ReconciliationEngineConfig) where
  unfoldable pub run :
      List ReconciliationRule
      → List CanonicalStatementPayload
      → FactsByIdentity
      → Result ReconciliationError (List ReconciliationResult)
  unfolding build_statement_contexts infer_periods apply_rules
  run rules [] facts = ok []
  run [] (s ∷ statements) facts = ok []
  run (r ∷ rules) (s ∷ statements) facts = do
    let contexts = build_statement_contexts (s ∷ statements) facts
    periods ← infer_periods contexts
    results ← apply_rules prec set_order config contexts periods facts (r ∷ rules)
    ok (sort result_leb results)
