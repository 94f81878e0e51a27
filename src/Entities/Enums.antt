-- ===== src/Entities/Enums.antt =====
-- The enumerations of domain/enums/edgar.py and domain/enums/edgar_reconciliation.py that the
-- services branch on.
use arche_api.Base.{◌≡◌, ◌↔◌, Bool, true, false, arith, Eq}
use arche_api.Base.Text.{Text, codes}

pub data StatementType : Type 0 where
  income_statement balance_sheet cash_flow_statement : StatementType

abbrev pub statement_type_value : StatementType → Text
statement_type_value income_statement = codes "INCOME_STATEMENT"
statement_type_value balance_sheet = codes "BALANCE_SHEET"
statement_type_value cash_flow_statement = codes "CASH_FLOW_STATEMENT"

abbrev pub statement_type_beq : StatementType → StatementType → Bool
statement_type_beq income_statement income_statement = true
statement_type_beq balance_sheet balance_sheet = true
statement_type_beq cash_flow_statement cash_flow_statement = true
statement_type_beq _ _ = false

pub statement_type_beq_iff : (a b : StatementType) → (statement_type_beq a b ≡ true) ↔ (a ≡ b)
statement_type_beq_iff a b = ground arith

instance abbrev pub statement_type_eq : Eq StatementType
statement_type_eq = record { test = statement_type_beq; test_iff = statement_type_beq_iff }

pub data AccountingStandard : Type 0 where
  us_gaap ifrs other_standard : AccountingStandard

abbrev pub accounting_standard_value : AccountingStandard → Text
accounting_standard_value us_gaap = codes "US_GAAP"
accounting_standard_value ifrs = codes "IFRS"
accounting_standard_value other_standard = codes "OTHER"

abbrev pub accounting_standard_beq : AccountingStandard → AccountingStandard → Bool
accounting_standard_beq us_gaap us_gaap = true
accounting_standard_beq ifrs ifrs = true
accounting_standard_beq other_standard other_standard = true
accounting_standard_beq _ _ = false

pub accounting_standard_beq_iff :
    (a b : AccountingStandard) → (accounting_standard_beq a b ≡ true) ↔ (a ≡ b)
accounting_standard_beq_iff a b = ground arith

instance abbrev pub accounting_standard_eq : Eq AccountingStandard
accounting_standard_eq = record {
  test = accounting_standard_beq;
  test_iff = accounting_standard_beq_iff;
}

pub data FiscalPeriod : Type 0 where
  fy q1 q2 q3 q4 h1 other_period : FiscalPeriod

abbrev pub fiscal_period_value : FiscalPeriod → Text
fiscal_period_value fy = codes "FY"
fiscal_period_value q1 = codes "Q1"
fiscal_period_value q2 = codes "Q2"
fiscal_period_value q3 = codes "Q3"
fiscal_period_value q4 = codes "Q4"
fiscal_period_value h1 = codes "H1"
fiscal_period_value other_period = codes "OTHER"

abbrev pub fiscal_period_beq : FiscalPeriod → FiscalPeriod → Bool
fiscal_period_beq fy fy = true
fiscal_period_beq q1 q1 = true
fiscal_period_beq q2 q2 = true
fiscal_period_beq q3 q3 = true
fiscal_period_beq q4 q4 = true
fiscal_period_beq h1 h1 = true
fiscal_period_beq other_period other_period = true
fiscal_period_beq _ _ = false

pub fiscal_period_beq_iff : (a b : FiscalPeriod) → (fiscal_period_beq a b ≡ true) ↔ (a ≡ b)
fiscal_period_beq_iff a b = ground arith

instance abbrev pub fiscal_period_eq : Eq FiscalPeriod
fiscal_period_eq = record { test = fiscal_period_beq; test_iff = fiscal_period_beq_iff }

-- `ReconciliationSeverity` is the same class.
pub data MaterialityClass : Type 0 where
  none_class low medium high : MaterialityClass

abbrev pub materiality_value : MaterialityClass → Text
materiality_value none_class = codes "NONE"
materiality_value low = codes "LOW"
materiality_value medium = codes "MEDIUM"
materiality_value high = codes "HIGH"

abbrev pub materiality_beq : MaterialityClass → MaterialityClass → Bool
materiality_beq none_class none_class = true
materiality_beq low low = true
materiality_beq medium medium = true
materiality_beq high high = true
materiality_beq _ _ = false

pub materiality_beq_iff : (a b : MaterialityClass) → (materiality_beq a b ≡ true) ↔ (a ≡ b)
materiality_beq_iff a b = ground arith

instance abbrev pub materiality_eq : Eq MaterialityClass
materiality_eq = record { test = materiality_beq; test_iff = materiality_beq_iff }

pub data ReconciliationRuleCategory : Type 0 where
  identity rollforward fx calendar segment : ReconciliationRuleCategory

abbrev pub category_value : ReconciliationRuleCategory → Text
category_value identity = codes "IDENTITY"
category_value rollforward = codes "ROLLFORWARD"
category_value fx = codes "FX"
category_value calendar = codes "CALENDAR"
category_value segment = codes "SEGMENT"

abbrev pub category_beq : ReconciliationRuleCategory → ReconciliationRuleCategory → Bool
category_beq identity identity = true
category_beq rollforward rollforward = true
category_beq fx fx = true
category_beq calendar calendar = true
category_beq segment segment = true
category_beq _ _ = false

pub category_beq_iff : (a b : ReconciliationRuleCategory) → (category_beq a b ≡ true) ↔ (a ≡ b)
category_beq_iff a b = ground arith

instance abbrev pub category_eq : Eq ReconciliationRuleCategory
category_eq = record { test = category_beq; test_iff = category_beq_iff }

pub data ReconciliationStatus : Type 0 where
  pass fail warning : ReconciliationStatus

abbrev pub status_value : ReconciliationStatus → Text
status_value pass = codes "PASS"
status_value fail = codes "FAIL"
status_value warning = codes "WARNING"

abbrev pub status_beq : ReconciliationStatus → ReconciliationStatus → Bool
status_beq pass pass = true
status_beq fail fail = true
status_beq warning warning = true
status_beq _ _ = false

pub status_beq_iff : (a b : ReconciliationStatus) → (status_beq a b ≡ true) ↔ (a ≡ b)
status_beq_iff a b = ground arith

instance abbrev pub status_eq : Eq ReconciliationStatus
status_eq = record { test = status_beq; test_iff = status_beq_iff }
