-- ===== src/FactDq/Types.antt =====
-- The records of domain/entities/edgar_dq.py and of domain/services/fact_dq_engine.py. The messages
-- of anomalies and their details are left out; of the details of a fact, the two entries are kept.
use arche_api.Base.{ℕ, ◌≡◌, ◌↔◌, Bool, true, ◌&&◌, Option, List, arith, Eq}
use arche_api.Base.Int.{ℤ}
use arche_api.Base.Text.{Text, text_beq, text_beq_iff}
use arche_api.Decimal.{Decimal}
use arche_api.Entities.{MaterialityClass, NormalizedStatementIdentity, EdgarNormalizedFact}

pub record FactDqConfig : Type 0 where
  pub rule_set_version : Text
  pub key_metrics : List Text
  pub non_negative_metrics : List Text
  pub history_outlier_multiplier : Decimal
  pub history_min_observations : ℤ

pub record EdgarDqRun : Type 0 where
  pub dq_run_id : Text
  pub statement_identity : Option NormalizedStatementIdentity
  pub rule_set_version : Text
  pub scope_type : Text
  pub executed_at : ℕ

pub record EdgarDqAnomaly : Type 0 where
  pub dq_run_id : Text
  pub statement_identity : Option NormalizedStatementIdentity
  pub metric_code : Option Text
  pub dimension_key : Option Text
  pub rule_code : Text
  pub severity : MaterialityClass

pub record QualityDetails : Type 0 where
  pub anomaly_count : ℕ
  pub rule_codes : List Text

pub record EdgarFactQuality : Type 0 where
  pub dq_run_id : Text
  pub statement_identity : NormalizedStatementIdentity
  pub metric_code : Text
  pub dimension_key : Text
  pub severity : MaterialityClass
  pub is_present : Bool
  pub is_non_negative : Option Bool
  pub is_consistent_with_history : Option Bool
  pub has_known_issue : Bool
  pub details : Option QualityDetails

-- `IndexError`, of the last element of an empty list.
pub data DqError : Type 0 where
  index_error : DqError

pub record FactDqResult : Type 0 where
  pub run : EdgarDqRun
  pub fact_quality : List EdgarFactQuality
  pub anomalies : List EdgarDqAnomaly

-- `(metric_code, dimension_key)`
pub record FactKey : Type 0 where
  pub metric_code : Text
  pub dimension_key : Text

abbrev pub fact_key_beq : FactKey → FactKey → Bool
fact_key_beq a b = text_beq a.metric_code b.metric_code && text_beq a.dimension_key b.dimension_key

pub fact_key_beq_iff : (a b : FactKey) → (fact_key_beq a b ≡ true) ↔ (a ≡ b)
fact_key_beq_iff a b =
    ground (
      arith,
      text_beq_iff a.metric_code b.metric_code,
      text_beq_iff a.dimension_key b.dimension_key,
    )

instance abbrev pub fact_key_eq : Eq FactKey
fact_key_eq = record { test = fact_key_beq; test_iff = fact_key_beq_iff }

abbrev pub key_of : EdgarNormalizedFact → FactKey
key_of f = record { metric_code = f.metric_code; dimension_key = f.dimension_key }
