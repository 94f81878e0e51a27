-- ===== src/DerivedMetrics/Division.antt =====
-- `_safe_divide`, `_quantize_ratio` and the tests for a missing value.
use arche_api.Base.{ℕ, Option, none, some, if◌then◌else◌}
use arche_api.Base.Int.{pos, negsuc}
use arche_api.Base.Dict.{lookup}
use arche_api.Base.Results.{Result, ok, err}
use arche_api.Decimal.{
  Decimal, decimal_zero, is_zero, decimal_ltb, decimal_beq, abs, div, mul, sub, to_integral_value,
}
use arche_api.Entities.{CanonicalStatementMetric, CanonicalStatementPayload, metric_eq}
use arche_api.DerivedMetrics.Types.{
  DerivedMetricError, missing_input_error, zero_denominator_error, negative_denominator_guard_error,
  type_error,
}

-- `Decimal("1")`, `Decimal("1e-9")` and `Decimal("1e-6")`
abbrev pub decimal_one : Decimal
decimal_one = record { digits = pos 1; exponent = pos 0 }

abbrev pub decimal_epsilon : Decimal
decimal_epsilon = record { digits = pos 1; exponent = negsuc 8 }

abbrev pub ratio_scale : Decimal
ratio_scale = record { digits = pos 1; exponent = negsuc 5 }

abbrev pub get_core_metric : CanonicalStatementPayload → CanonicalStatementMetric → Option Decimal
get_core_metric payload metric = lookup metric payload.core_metrics

-- `if value is None: raise MissingInputError(...)`
abbrev pub require : Option Decimal → Result DerivedMetricError Decimal
require none = err missing_input_error
require (some value) = ok value

-- `value or DECIMAL_ZERO`
abbrev pub or_zero : Option Decimal → Decimal
or_zero none = decimal_zero
or_zero (some value) = if is_zero value then decimal_zero else value

-- `value - other`, where None has no subtraction.
abbrev pub minus : ℕ → Option Decimal → Decimal → Result DerivedMetricError Decimal
minus prec none other = err type_error
minus prec (some value) other = ok (sub prec value other)

-- `_quantize_ratio`
unfoldable pub quantize_ratio : ℕ → Decimal → Decimal
quantize_ratio prec value = mul prec (to_integral_value (div prec value ratio_scale)) ratio_scale

-- `_safe_divide`
unfoldable pub safe_divide : ℕ → Option Decimal → Option Decimal → Result DerivedMetricError Decimal
unfolding div decimal_ltb abs
safe_divide prec none denominator = err missing_input_error
safe_divide prec (some numerator) none = err missing_input_error
safe_divide prec (some numerator) (some denominator) =
    if decimal_beq denominator decimal_zero
    then err zero_denominator_error
    else if decimal_ltb (abs prec denominator) decimal_epsilon
    then err negative_denominator_guard_error
    else ok (div prec numerator denominator)
