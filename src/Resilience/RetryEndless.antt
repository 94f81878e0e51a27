-- ===== src/Resilience/RetryEndless.antt =====
-- The retries of returned values have no budget.
use arche_api.Base.{ℕ, zero, suc, ◌+◌, ◌≡◌, refl, Bool, true, false, none, arith}
use arche_api.Base.Int.{pos, leb_ℤ}
use arche_api.Resilience.Retry.{
  RetryPolicy, Outcome, returned, raised, goes_on, retry_from, retry_async,
}

module _ {T E : Type 0} (fn : ℕ → Outcome T E) (retry_on : Outcome T E → Bool) (uniform : ℕ → ℕ → ℕ)
    (policy : RetryPolicy) where
  endless :
      ((j : ℕ) → goes_on fn retry_on uniform policy j (fn j) ≡ true)
      → (fuel attempt : ℕ) → (retry_from fn retry_on uniform policy fuel attempt).0 ≡ none
  unfolding retry_from
  endless h zero attempt = refl
  endless h (suc fuel) attempt = rw (h attempt) (endless h fuel (attempt + 1))

  later :
      (out : Outcome T E) (j : ℕ)
      → (result : T) × (out ≡ returned result) × (retry_on (returned result) ≡ true)
      → goes_on fn retry_on uniform policy (suc j) out ≡ true
  later out j (result, e, r) = rw e (rw r (ground arith))

  first :
      (out : Outcome T E)
      → (exc : E) × (out ≡ raised exc) × (retry_on (raised exc) ≡ true)
      → leb_ℤ policy.total (pos 0) ≡ false
      → goes_on fn retry_on uniform policy 0 out ≡ true
  first out (exc, e, r) h = rw e (rw (r, h) refl)

  -- Where the first call raises an exception that the predicate retries, the policy allows a retry
  -- at all, and every later call returns a value that the predicate retries, the loop is still
  -- running after any number of rounds, whatever number of retries the policy allows.
  pub retry_async-none :
      (exc : E) × (fn 0 ≡ raised exc) × (retry_on (raised exc) ≡ true)
      → leb_ℤ policy.total (pos 0) ≡ false
      → ((j : ℕ)
          → (result : T) × (fn (suc j) ≡ returned result) × (retry_on (returned result) ≡ true))
      → (fuel : ℕ) → (retry_async fn retry_on uniform policy fuel).0 ≡ none
  unfolding retry_async
  retry_async-none raises allowed returns fuel = endless every fuel 0
    where
      every : (j : ℕ) → goes_on fn retry_on uniform policy j (fn j) ≡ true
      every zero = first (fn 0) raises allowed
      every (suc j) = later (fn (suc j)) j (returns j)
