-- ===== src/Resilience/Breaker.antt =====
-- `CircuitBreaker` (infrastructure/resilience/circuit_breaker.py). Readings of the monotonic clock and
-- the timeout are numbers of ticks. The lock makes each of the blocks that it guards one step; between
-- them the calls of several tasks interleave.
use arche_api.Base.{ℕ, suc, ◌+◌, ◌-◌, ◌≡◌, ◌≤◌, if◌then◌else◌, leb}
use arche_api.Base.Int.{ℤ, pos, leb_ℤ}
use arche_api.Base.Results.{Result, ok, err}

pub data BreakerState : Type 0 where
  is_closed is_open is_half_open : BreakerState

pub record CircuitBreaker : Type 0 where
  pub state : BreakerState
  pub failures : ℕ
  pub opened_at : ℕ
  pub half_open_calls : ℕ

-- The fields that do not change.
pub record Limits : Type 0 where
  pub failure_threshold : ℤ
  pub recovery_timeout : ℕ
  pub half_open_max_calls : ℤ

-- `RuntimeError`
pub data Refusal : Type 0 where
  circuit_open circuit_half_open_limit : Refusal

abbrev pub new_breaker : CircuitBreaker
new_breaker = record { state = is_closed; failures = 0; opened_at = 0; half_open_calls = 0 }

module _ (limits : Limits) where
  -- The second test of the first block: a call in HALF_OPEN takes one of its places.
  abbrev pub take_place : CircuitBreaker → CircuitBreaker × Result Refusal (Unit {0})
  take_place b = elim b.state [
    | is_half_open ↦
        if leb_ℤ limits.half_open_max_calls (pos b.half_open_calls)
        then (b, err circuit_half_open_limit)
        else (record b { half_open_calls = b.half_open_calls + 1 }, ok tt)
    | is_closed ↦ (b, ok tt)
    | is_open ↦ (b, ok tt)
  ]

  -- The block before the call, at the time `now`.
  unfoldable pub enter : ℕ → CircuitBreaker → CircuitBreaker × Result Refusal (Unit {0})
  enter now b = elim b.state [
    | is_open ↦
        if leb limits.recovery_timeout (now - b.opened_at)
        then take_place (record b { state = is_half_open; half_open_calls = 0 })
        else (b, err circuit_open)
    | is_closed ↦ take_place b
    | is_half_open ↦ take_place b
  ]

  -- The block after a call that raised an `Exception`.
  unfoldable pub on_failure : ℕ → CircuitBreaker → CircuitBreaker
  on_failure now b = elim b.state [
    | is_half_open ↦ record b { state = is_open; opened_at = now }
    | is_closed ↦
        if leb_ℤ limits.failure_threshold (pos (b.failures + 1))
        then record b { failures = b.failures + 1; state = is_open; opened_at = now }
        else record b { failures = b.failures + 1 }
    | is_open ↦
        if leb_ℤ limits.failure_threshold (pos (b.failures + 1))
        then record b { failures = b.failures + 1; state = is_open; opened_at = now }
        else record b { failures = b.failures + 1 }
  ]

  -- The block after a call that returned.
  unfoldable pub on_success : CircuitBreaker → CircuitBreaker
  on_success b = elim b.state [
    | is_half_open ↦ record b { state = is_closed; failures = 0 }
    | is_closed ↦ record b { failures = 0 }
    | is_open ↦ b
  ]

-- The breaker, the calls that are running, and the time of the last step.
pub record System : Type 0 where
  pub breaker : CircuitBreaker
  pub running : ℕ
  pub clock : ℕ

abbrev pub new_system : System
new_system = record { breaker = new_breaker; running = 0; clock = 0 }

module _ (limits : Limits) where
  -- The steps that several tasks may take. A call that is cancelled raises no `Exception`, so that
  -- neither block after the call runs.
  pub data Step : System → System → Type 0 where
    admitted :
        {s : System} (now : ℕ) {b : CircuitBreaker}
        → s.clock ≤ now
        → enter limits now s.breaker ≡ (b, ok tt)
        → Step s (record { breaker = b; running = suc s.running; clock = now })
    refused :
        {s : System} (now : ℕ) {b : CircuitBreaker} {why : Refusal}
        → s.clock ≤ now
        → enter limits now s.breaker ≡ (b, err why)
        → Step s (record { breaker = b; running = s.running; clock = now })
    failed :
        {s : System} (now n : ℕ)
        → s.clock ≤ now
        → s.running ≡ suc n
        → Step s (record { breaker = on_failure limits now s.breaker; running = n; clock = now })
    succeeded :
        {s : System} (now n : ℕ)
        → s.clock ≤ now
        → s.running ≡ suc n
        → Step s (record { breaker = on_success limits s.breaker; running = n; clock = now })
    cancelled :
        {s : System} (now n : ℕ)
        → s.clock ≤ now
        → s.running ≡ suc n
        → Step s (record { breaker = s.breaker; running = n; clock = now })

  pub data Steps : System → System → Type 0 where
    done : {s : System} → Steps s s
    and_then : {s t u : System} → Step s t → Steps t u → Steps s u
