-- ===== src/Lib.antt =====
-- A model of the domain services of arche-api (src/arche_api), which normalizes financial
-- statements of the SEC's EDGAR, compares their versions and checks them, and of the
-- infrastructure that guards its calls and its write requests.
--
-- The parts and their files:
--
-- - Base: helpers shared by all files: tests and equality (Tests), lists (Lists), integers (Int),
--   results of calls that may raise (Results), texts (Text), dictionaries (Dict), stable sorting
--   (Sort).
-- - Decimal: Python's decimal.Decimal: values and comparison (Scale, Order, Signs), rounding and
--   arithmetic (Round, Bounds), division, products and rounding to a number of places (Divide,
--   Multiply, Quantize).
-- - Entities: domain/entities and domain/enums: metrics, enumerations, dates, payloads, facts.
-- - Overrides: domain/services/xbrl_mapping_overrides.py (Rules, Engine) and
--   domain/services/xbrl_override_validator.py (Validator); the proofs are in Precedence,
--   Matching, Decision and ValidDrafts. A rule that the engine gets is made from a draft that the
--   validator has seen.
-- - Restatement: domain/entities/edgar_restatement_delta.py (Delta),
--   domain/services/statement_ledger_delta_engine.py (Ledger), which calls it for pairs of
--   versions, and domain/services/restatement_timeline.py (Timeline), which reads the ledger; the
--   proofs are in DeltaLaws, LedgerLaws, Selection, TimelineLaws, TimelineSound and
--   TimelineSeverity.
-- - Reconciliation: domain/entities/edgar_reconciliation.py (Rules),
--   domain/services/reconciliation_calendar.py (Calendar) and
--   domain/services/reconciliation_engine.py (Engine for identities and rollforwards, Single for
--   the other kinds of rules, Run); the proofs are in CalendarLaws, Sums, Judgements (the single
--   results), Verdicts (the rules) and RunLaws.
-- - FactDq: domain/services/fact_dq_engine.py with the records of domain/entities/edgar_dq.py
--   (Types, Engine); the proofs are in Anomalies, Records and Flags.
-- - Resilience: infrastructure/resilience/circuit_breaker.py (Breaker); the proofs are in
--   BreakerLaws.
-- - FactStore: domain/services/fact_store_service.py, from a payload to its facts.
-- - Resilience, the retries: infrastructure/resilience/retry.py (Retry), with the budget of the
--   retries in RetryLaws and the retries without one in RetryEndless. The loop runs on fuel, one
--   unit for each round; a budget of n retries of exceptions needs n + 1.
-- - DerivedMetrics: domain/services/derived_metrics_engine.py with domain/enums/derived_metric.py
--   (Metric, Types, Division, Prior, Formulas, Specs, Engine); the proofs are in Accounted,
--   Failures, Ratios, Trailing, Windows, Rounding and Required.
-- - Normalization: domain/services/edgar_normalization.py, which calls the override engine
--   (Types, Registry, Parse, Choice, Engine); the proofs are in Members, Latest, Determinism,
--   Provenance, Payloads, Completeness and Quantized.
-- - Idempotency: infrastructure/middleware/idempotency.py with
--   adapters/repositories/idempotency_repository.py and its table (Store, Middleware), one
--   request after the other (Rows, Replays, Locks) and several at once (Steps, Exclusion).
-- - Observability: domain/services/xbrl_override_observability.py with
--   domain/entities/xbrl_override_observability.py (Service), which chooses facts as the
--   normalization does and calls the override engine; the proofs are in Traces.
-- - Taxonomy: domain/services/gaap_taxonomy.py with the linkbases of
--   domain/entities/xbrl_document.py (Concepts, View); the proofs are in Trees. The recursion
--   over a network takes fuel, one unit for each level; a bound of the ranks of the concepts is
--   enough.
-- - Registry: domain/services/canonical_metric_registry.py (Metadata, Lookup).
--
-- Functions and records have the names of the source, a method without its class and without a
-- leading underscore. A loop is structural recursion over the list that it goes through, with the
-- state that it changes as an argument; only the retries and the presentation trees take fuel,
-- and a division into digits, which takes the number itself and has enough since each round
-- divides it by ten. A call that may raise returns a Result, whose errors are constructors named
-- for the message.
--
-- What the model takes as given or leaves out:
-- - A str is a list of code points. A dict is an association list in insertion order with the
--   operations of Base.Dict; the order of iteration over a set, which Python does not fix, is a
--   parameter where it matters.
-- - Decimals are finite, without signed zeros and without limits of the exponent: infinities, NaN
--   and exponents beyond the limits of the context, with which an operation of decimal signals
--   InvalidOperation or Overflow, are outside of the model, so that the engine of the derived
--   metrics has the answers to these exceptions (reason_of) and no formula raises them; the
--   precision of the context is a parameter (28 by default in Python). The exponent of a sum with
--   a zero operand may differ from Python's; the value does not.
-- - Checks of the Python types of arguments, messages of errors and log records are left out.
-- - Routers, controllers, presenters, use cases, the repositories but that of the idempotency
--   keys, gateways, the database, caches, the other middleware, telemetry, authentication, the
--   MCP server and background tasks are not modelled.
pub mod Base
pub mod Decimal
pub mod DerivedMetrics
pub mod Entities
pub mod FactDq
pub mod FactStore
pub mod Idempotency
pub mod Normalization
pub mod Observability
pub mod Overrides
pub mod Reconciliation
pub mod Registry
pub mod Resilience
pub mod Restatement
pub mod Taxonomy
