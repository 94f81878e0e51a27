-- ===== src/DerivedMetrics.antt =====
-- The engine of derived metrics (domain/services/derived_metrics_engine.py) with its enumerations
-- (domain/enums/derived_metric.py and derived_metric_category.py).
pub mod Metric
pub mod Types
pub mod Division
pub mod Prior
pub mod Formulas
pub mod Specs
pub mod Engine
pub mod Accounted
pub mod Failures
pub mod Ratios
pub mod Windows
pub mod Trailing
pub mod Required
pub mod Rounding
mod Tests
