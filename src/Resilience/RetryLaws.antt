-- ===== src/Resilience/RetryLaws.antt =====
-- The budget of the retries.
use arche_api.Base.{
  ℕ, zero, suc, ◌+◌, ◌*◌, ◌≤◌, ◌<◌, ◌≡◌, refl, ◌⊎◌, inl, inr, Bool, true, false, Option, some, List,
  [], ◌∷◌, length, All, Bool-cases, arith, eqb, min, ◌^◌,
}
use arche_api.Base.Int.{pos}
use arche_api.Resilience.Retry.{
  RetryPolicy, Outcome, returned, raised, goes_on, sleep_time, retry_from, retry_async,
}

module _ {T E : Type 0} (fn : ℕ → Outcome T E) (retry_on : Outcome T E → Bool)
    (policy : RetryPolicy) where
  abbrev IsRetried : Outcome T E → Type 0
  IsRetried (returned result) = ⊥
  IsRetried (raised exc) = retry_on (raised exc) ≡ true

  abbrev IsFinal : ℕ → ℕ → Outcome T E → Type 0
  IsFinal n k (returned result) = Unit
  IsFinal n k (raised exc) = (k ≡ n) ⊎ (retry_on (raised exc) ≡ false)

  -- A run of at most n retries that came to an end.
  abbrev pub IsBudgeted : ℕ → ℕ → Option (Outcome T E) × List ℕ → Type 0
  IsBudgeted n from run =
      (k : ℕ) × (from ≤ k)
      × (k ≤ n)
      × (run.0 ≡ some (fn k))
      × IsFinal n k (fn k)
      × ((j : ℕ) → from ≤ j → j < k → IsRetried (fn j))
      × (from + length run.1 ≡ k)
      × All (λ s. s ≤ policy.cap) run.1

  module _ (uniform : ℕ → ℕ → ℕ) (uniform_upper : (j b : ℕ) → uniform j b ≤ b) where
    sleep_time-upper : (attempt : ℕ) → sleep_time fn retry_on uniform policy attempt ≤ policy.cap
    sleep_time-upper attempt =
        ground (arith, uniform_upper attempt (min policy.cap (policy.base * 2 ^ attempt)))

    retried :
        (n attempt : ℕ) (out : Outcome T E)
        → policy.total ≡ pos n
        → ((result : T) → retry_on (returned result) ≡ false)
        → goes_on fn retry_on uniform policy attempt out ≡ true
        → IsRetried out × (attempt < n)
    retried n attempt (returned result) t hr h = ground (arith, hr result)
    retried n attempt (raised exc) t hr h = ground arith

    final :
        (n attempt : ℕ) (out : Outcome T E)
        → policy.total ≡ pos n
        → attempt ≤ n
        → goes_on fn retry_on uniform policy attempt out ≡ false
        → IsFinal n attempt out
    final n attempt (returned result) t l h = tt
    final n attempt (raised exc) t l h = ground arith

    stopped :
        (n attempt : ℕ)
        → policy.total ≡ pos n
        → attempt ≤ n
        → goes_on fn retry_on uniform policy attempt (fn attempt) ≡ false
        → IsBudgeted n attempt (some (fn attempt), [])
    stopped n attempt t l h = (
      attempt,
      omega arith,
      l,
      refl,
      final n attempt (fn attempt) t l h,
      λ j low high. absurd (omega (arith, low, high)),
      omega arith,
      tt,
    )

    continued :
        (n attempt : ℕ) (rest : Option (Outcome T E) × List ℕ)
        → IsRetried (fn attempt)
        → IsBudgeted n (attempt + 1) rest
        → IsBudgeted n attempt (rest.0, sleep_time fn retry_on uniform policy attempt ∷ rest.1)
    continued n attempt rest r (k, low, high, ends, last, before, count, sleeps) = (
      k,
      omega (arith, low),
      high,
      ends,
      last,
      λ j l h. elim (Bool-cases (eqb j attempt)) [
        | inl e ↦ (let q : j ≡ attempt = ground (arith, e) in rw q r)
        | inr e ↦ before j (ground (arith, l, e)) h
      ],
      omega (arith, count),
      (sleep_time-upper attempt, sleeps),
    )

    retry_from-IsBudgeted :
        (n remaining attempt : ℕ)
        → policy.total ≡ pos n
        → ((result : T) → retry_on (returned result) ≡ false)
        → attempt + remaining ≡ n
        → IsBudgeted n attempt (retry_from fn retry_on uniform policy (suc remaining) attempt)
    unfolding retry_from
    retry_from-IsBudgeted n zero attempt t hr e =
        elim (Bool-cases (goes_on fn retry_on uniform policy attempt (fn attempt))) [
          | inl h ↦ absurd (omega (arith, (retried n attempt (fn attempt) t hr h).1, e))
          | inr h ↦ rw h (stopped n attempt t (omega arith) h)
        ]
    retry_from-IsBudgeted n (suc remaining) attempt t hr e =
        elim (Bool-cases (goes_on fn retry_on uniform policy attempt (fn attempt))) [
          | inl h ↦ rw h (
              continued n attempt
                (retry_from fn retry_on uniform policy (suc remaining) (attempt + 1))
                (retried n attempt (fn attempt) t hr h).0
                (retry_from-IsBudgeted n remaining (attempt + 1) t hr (omega (arith, e))))
          | inr h ↦ rw h (stopped n attempt t (omega arith) h)
        ]

    -- Where no returned value is retried and the policy allows n retries, n + 1 rounds of the loop
    -- end it, provided that a jitter is at most its bound: with the outcome of some attempt k ≤ n,
    -- after k sleeps of at most the cap each. The attempts before k raised exceptions that the
    -- predicate retries, and where attempt k raised one, k is n or the predicate does not retry it.
    pub retry_async-IsBudgeted :
        (n : ℕ)
        → policy.total ≡ pos n
        → ((result : T) → retry_on (returned result) ≡ false)
        → IsBudgeted n 0 (retry_async fn retry_on uniform policy (suc n))
    unfolding retry_async
    retry_async-IsBudgeted n t hr = retry_from-IsBudgeted n n 0 t hr (omega arith)
