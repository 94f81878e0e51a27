-- ===== src/Resilience/RetryTests.antt =====
-- A call that fails once and then returns the status of a response.
use arche_api.Base.{ℕ, zero, suc, ◌≡◌, refl, Bool, true, false, some, none, [], ◌∷◌, eqb, arith}
use arche_api.Base.Int.{pos}
use arche_api.Resilience.Retry.{RetryPolicy, Outcome, returned, raised, retry_from, retry_async}
use arche_api.Resilience.RetryLaws.{IsBudgeted, retry_async-IsBudgeted}
use arche_api.Resilience.RetryEndless.{retry_async-none}

abbrev policy : RetryPolicy
policy = record { total = pos 2; base = 3; cap = 5; jitter = false }

abbrev answers : ℕ → ℕ → Outcome ℕ ℕ
answers status zero = raised 7
answers status (suc attempt) = returned status

abbrev on_errors : Outcome ℕ ℕ → Bool
on_errors (returned status) = false
on_errors (raised exc) = true

abbrev on_status : Outcome ℕ ℕ → Bool
on_status (returned status) = eqb status 503
on_status (raised exc) = true

abbrev no_jitter : ℕ → ℕ → ℕ
no_jitter attempt bound = bound

retry_async-IsBudgeted_example :
    IsBudgeted
      (answers 200)
      on_errors
      policy
      2
      0
      (retry_async (answers 200) on_errors no_jitter policy 3)
retry_async-IsBudgeted_example =
    retry_async-IsBudgeted (answers 200) on_errors policy no_jitter (λ j b. omega arith) 2 refl
      (λ status. refl)

retry_async-none_example : (retry_async (answers 503) on_status no_jitter policy 1000).0 ≡ none
retry_async-none_example =
    retry_async-none (answers 503) on_status no_jitter policy (7, refl, refl) refl
      (λ j. (503, refl, refl)) 1000

second_try : retry_async (answers 200) on_errors no_jitter policy 3 ≡ (some (returned 200), 3 ∷ [])
unfolding retry_async retry_from
second_try = refl

first_value_is_not_retried :
    retry_async (λ attempt. returned 503) on_status no_jitter policy 3 ≡ (some (returned 503), [])
unfolding retry_async retry_from
first_value_is_not_retried = refl

abbrev failures : ℕ → Outcome ℕ ℕ
failures attempt = raised attempt

exhausted : retry_async failures on_status no_jitter policy 3 ≡ (some (raised 2), 3 ∷ 5 ∷ [])
unfolding retry_async retry_from
exhausted = refl
