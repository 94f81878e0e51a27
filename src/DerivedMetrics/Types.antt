-- ===== src/DerivedMetrics/Types.antt =====
-- The records of domain/services/derived_metrics_engine.py and its errors. A failure keeps what its
-- details say; the texts are left out.
use arche_api.Base.{ℕ, Bool, Option, List}
use arche_api.Base.Dict.{Dict}
use arche_api.Base.Results.{Result}
use arche_api.Decimal.{Decimal}
use arche_api.Entities.{CanonicalStatementMetric, StatementType, CanonicalStatementPayload}
use arche_api.DerivedMetrics.Metric.{DerivedMetric, DerivedMetricCategory}

pub data MetricFailureReason : Type 0 where
  missing_input not_applicable zero_denominator insufficient_history invalid_operation
        negative_denominator_guard other :
      MetricFailureReason

-- The exceptions of a formula. `type_error` is Python's, for an operation on None; `invalid_operation_error`
-- and `overflow_error` are those of decimal (InvalidOperation, Overflow), which no operation on finite
-- decimals without a limit of the exponent signals here.
pub data DerivedMetricError : Type 0 where
  missing_input_error insufficient_history_error zero_denominator_error
        negative_denominator_guard_error invalid_operation_error overflow_error type_error :
      DerivedMetricError

pub data MetricFailureDetails : Type 0 where
  not_registered : MetricFailureDetails
  unsupported_statement_type : StatementType → MetricFailureDetails
  missing_inputs : List CanonicalStatementMetric → MetricFailureDetails
  short_history : (required available : ℕ) → MetricFailureDetails
  raised : DerivedMetricError → MetricFailureDetails

pub record MetricFailure : Type 0 where
  pub metric : DerivedMetric
  pub reason : MetricFailureReason
  pub details : MetricFailureDetails

pub record MetricContext : Type 0 where
  pub payload : CanonicalStatementPayload
  pub history : List CanonicalStatementPayload

-- Sets are lists in the order in which the source writes them; of the window requirements only the
-- key "history_periods" occurs.
pub record DerivedMetricSpec : Type 0 where
  pub metric : DerivedMetric
  pub required_statement_types : List StatementType
  pub required_inputs : List CanonicalStatementMetric
  pub uses_history : Bool
  pub history_periods : Option ℕ
  pub category : DerivedMetricCategory
  pub is_experimental : Bool
  pub formula : MetricContext → Result DerivedMetricError Decimal

pub record DerivedMetricsResult : Type 0 where
  pub values : Dict DerivedMetric Decimal
  pub failures : List MetricFailure
