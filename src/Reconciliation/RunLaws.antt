-- ===== src/Reconciliation/RunLaws.antt =====
-- What `ReconciliationEngine.run` returns.
use arche_api.Base.{
  ℕ, ◌≡◌, refl, inl, inr, true, false, List, [], ◌∷◌, ◌++◌, All, In, Bool-cases, arith, filter,
}
use arche_api.Base.Int.{ℤ, leb_ℤ, int_eq, eqb_ℤ_iff}
use arche_api.Base.Text.{text_eq, text_leb, text_leb_total, text_leb_trans, text_leb_antisym}
use arche_api.Base.Sort.{lex-IsOrder, IsOrder}
use arche_api.Base.Results.{ok, ◌>>=◌}
use arche_api.Entities.{
  CanonicalStatementMetric, CanonicalStatementPayload, statement_type_value, fiscal_period_value,
}
use arche_api.Reconciliation.Rules.{
  StatementReconciliationContext, ReconciliationResult, ReconciliationRule, rule_is_enabled,
}
use arche_api.Reconciliation.Calendar.{StatementPeriod, align_statements_across_types, identity_of}
use arche_api.Reconciliation.Verdicts.{IsOfRule}
use arche_api.Reconciliation.Run.{
  ReconciliationEngineConfig, FactsByIdentity, result_leb, apply_rule, apply_rules,
}

text_leb-IsOrder : IsOrder text_leb
text_leb-IsOrder = record { total = text_leb_total; trans = text_leb_trans }

leb_ℤ-IsOrder : IsOrder leb_ℤ
leb_ℤ-IsOrder = record { total = λ x y. ground arith; trans = λ x y z h k. ground arith }

leb_ℤ_antisym : (x y : ℤ) → leb_ℤ x y ≡ true → leb_ℤ y x ≡ true → x ≡ y
leb_ℤ_antisym x y h k = (eqb_ℤ_iff x y).0 (ground arith)

pub result_leb-IsOrder : IsOrder result_leb
result_leb-IsOrder =
    lex-IsOrder (λ r. r.statement_identity.cik) text_leb _ text_leb-IsOrder text_leb_antisym
      (lex-IsOrder (λ r. statement_type_value r.statement_identity.statement_type) text_leb _
        text_leb-IsOrder text_leb_antisym
        (lex-IsOrder (λ r. r.statement_identity.fiscal_year) leb_ℤ _ leb_ℤ-IsOrder leb_ℤ_antisym
          (lex-IsOrder (λ r. fiscal_period_value r.statement_identity.fiscal_period) text_leb _
            text_leb-IsOrder text_leb_antisym
            (lex-IsOrder (λ r. r.statement_identity.version_sequence) leb_ℤ _ leb_ℤ-IsOrder
              leb_ℤ_antisym
              (record {
                total = λ x y. text_leb_total x.rule_id y.rule_id;
                trans = λ x y z. text_leb_trans x.rule_id y.rule_id z.rule_id;
              })))))

-- A period that was inferred from one of the statements.
abbrev pub IsPeriodOf : List CanonicalStatementPayload → StatementPeriod → Type 0
IsPeriodOf statements p =
    In p.payload statements
    × (p.identity ≡ identity_of p.payload)
    × (p.statement_date ≡ p.payload.statement_date)

module _ (prec : ℕ) (set_order : List CanonicalStatementMetric → List CanonicalStatementMetric)
    (config : ReconciliationEngineConfig) (contexts : List StatementReconciliationContext)
    (periods : List StatementPeriod) (facts : FactsByIdentity) where
  -- One of the rules, enabled, and a result of it.
  abbrev IsOfSome : List ReconciliationRule → ReconciliationResult → Type 0
  IsOfSome rules r =
      (rule : ReconciliationRule) × In rule rules
      × (rule_is_enabled rule ≡ true)
      × IsOfRule prec set_order config.default_tolerance (align_statements_across_types periods)
          periods facts rule r

  apply_rules-skip :
      (rule : ReconciliationRule) (rules : List ReconciliationRule)
      → rule_is_enabled rule ≡ false
      → apply_rules prec set_order config contexts periods facts (rule ∷ rules)
        ≡ apply_rules prec set_order config contexts periods facts rules
  unfolding apply_rules
  apply_rules-skip rule rules e = rw e refl

  apply_rules-apply :
      (rule : ReconciliationRule) (rules : List ReconciliationRule)
      → rule_is_enabled rule ≡ true
      → apply_rules prec set_order config contexts periods facts (rule ∷ rules) ≡ (
          apply_rule prec set_order config contexts periods facts rule >>= λ here.
          apply_rules prec set_order config contexts periods facts rules >>= λ there.
          ok (here ++ there))
  unfolding apply_rules
  apply_rules-apply rule rules e = rw e refl

module _ (prec : ℕ) (set_order : List CanonicalStatementMetric → List CanonicalStatementMetric)
    (config : ReconciliationEngineConfig) where
  -- The result of an enabled rule of `rules` on periods of the statements.
  abbrev pub IsExplained :
      List ReconciliationRule
      → List CanonicalStatementPayload
      → FactsByIdentity
      → ReconciliationResult
      → Type 0
  IsExplained rules statements facts r =
      (periods : List StatementPeriod) × All (IsPeriodOf statements) periods
      × ((rule : ReconciliationRule) × In rule rules
          × (rule_is_enabled rule ≡ true)
          × IsOfRule prec set_order config.default_tolerance (align_statements_across_types periods)
              periods facts rule r)

  -- The rules that are not enabled make no difference.
  apply_rules-filter :
      (contexts : List StatementReconciliationContext) (periods : List StatementPeriod)
      (facts : FactsByIdentity) (rules : List ReconciliationRule)
      → apply_rules prec set_order config contexts periods facts rules
        ≡ apply_rules prec set_order config contexts periods facts (filter rule_is_enabled rules)
  apply_rules-filter contexts periods facts [] = refl
  apply_rules-filter contexts periods facts (rule ∷ rules) =
      let rest = apply_rules-filter contexts periods facts rules in
      elim (Bool-cases (rule_is_enabled rule)) [
        | inl t ↦
            rw
              (
                t,
                apply_rules-apply prec set_order config contexts periods facts rule rules t,
                apply_rules-apply prec set_order config contexts periods facts rule
                    (filter rule_is_enabled rules) t,
                rest,
              )
              refl
        | inr t ↦
            rw (t, apply_rules-skip prec set_order config contexts periods facts rule rules t) rest
      ]
