-- ===== src/Resilience/Retry.antt =====
-- infrastructure/resilience/retry.py. The calls of the function are given as what each of them does,
-- by its attempt, and `random.uniform(0, b)` by the attempt and b. Times are whole ticks, as the
-- breaker's. The predicate is a pure function, and the loop runs on fuel.
use arche_api.Base.{
  ℕ, zero, suc, ◌+◌, ◌*◌, Bool, not, ◌||◌, Option, none, some, List, [], ◌∷◌, if◌then◌else◌, ◌^◌,
  min, eqb,
}
use arche_api.Base.Int.{ℤ, pos, leb_ℤ}

pub record RetryPolicy : Type 0 where
  pub total : ℤ
  pub base : ℕ
  pub cap : ℕ
  pub jitter : Bool

-- What a call does, and how the loop ends: in both cases a value or an exception.
pub data Outcome (T E : Type 0) : Type 0 where
  returned : T → Outcome T E
  raised : E → Outcome T E

module _ {T E : Type 0} (fn : ℕ → Outcome T E) (retry_on : Outcome T E → Bool) (uniform : ℕ → ℕ → ℕ)
    (policy : RetryPolicy) where
  -- The body of the `try`: whether the loop goes on.
  abbrev pub goes_on : ℕ → Outcome T E → Bool
  goes_on attempt (returned result) = not (eqb attempt 0 || not (retry_on (returned result)))
  goes_on attempt (raised exc) =
      not (leb_ℤ policy.total (pos attempt) || not (retry_on (raised exc)))

  abbrev pub sleep_time : ℕ → ℕ
  sleep_time attempt =
      let backoff = min policy.cap (policy.base * 2 ^ attempt) in
      if policy.jitter then uniform attempt backoff else backoff

  -- The loop from an attempt on: how it ended, none where the fuel ran out, and its sleeps.
  unfoldable pub retry_from : ℕ → ℕ → Option (Outcome T E) × List ℕ
  retry_from zero attempt = (none, [])
  retry_from (suc fuel) attempt =
      let rest = retry_from fuel (attempt + 1) in
      if goes_on attempt (fn attempt)
      then (rest.0, sleep_time attempt ∷ rest.1)
      else (some (fn attempt), [])

  unfoldable pub retry_async : ℕ → Option (Outcome T E) × List ℕ
  retry_async fuel = retry_from fuel 0
