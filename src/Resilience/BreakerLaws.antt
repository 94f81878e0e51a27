-- ===== src/Resilience/BreakerLaws.antt =====
-- What holds of the breaker under every interleaving of calls.
use arche_api.Base.{ℕ, ◌+◌, ◌≡◌, refl, ◌≤◌, ◌<◌, ◌⊎◌, false, arith, ap, sym, subst, ◌∙◌}
use arche_api.Base.Int.{pos, leb_ℤ, ◌≤ℤ◌}
use arche_api.Base.Results.{Result, ok, err}
use arche_api.Resilience.Breaker.{
  is_closed, is_open, is_half_open, CircuitBreaker, Limits, Refusal, circuit_open,
  circuit_half_open_limit, enter, on_failure, on_success, System, new_system, Step, admitted,
  refused, failed, succeeded, cancelled, Steps, done, and_then,
}

module _ (limits : Limits) where
  -- While it is CLOSED there have been fewer failures than the threshold, no more calls have a place in
  -- HALF_OPEN than there are places, and it was not opened in the future.
  pub record IsWithin (b : CircuitBreaker) : Type 0 where
    pub below : b.state ≡ is_closed → leb_ℤ limits.failure_threshold (pos b.failures) ≡ false
    pub places : pos b.half_open_calls ≤ℤ limits.half_open_max_calls

  module _ (some_threshold : leb_ℤ limits.failure_threshold (pos 0) ≡ false)
      (some_places : pos 0 ≤ℤ limits.half_open_max_calls) where
    enter-IsWithin : (now : ℕ) (b : CircuitBreaker) → IsWithin b → IsWithin (enter limits now b).0
    unfolding enter
    enter-IsWithin now b h =
        let p = h.places in
        let q = h.below in record { below = ground arith; places = ground arith }

    on_failure-IsWithin :
        (now : ℕ) (b : CircuitBreaker) → IsWithin b → IsWithin (on_failure limits now b)
    unfolding on_failure
    on_failure-IsWithin now b h =
        let p = h.places in
        let q = h.below in record { below = ground arith; places = ground arith }

    on_success-IsWithin : (b : CircuitBreaker) → IsWithin b → IsWithin (on_success limits b)
    unfolding on_success
    on_success-IsWithin b h =
        let p = h.places in
        let q = h.below in record { below = ground arith; places = ground arith }

    Step-IsWithin : (s t : System) → Step limits s t → IsWithin s.breaker → IsWithin t.breaker
    Step-IsWithin s t (admitted now {b} later e) h =
        subst IsWithin (ap (λ p. p.0) e) (enter-IsWithin now s.breaker h)
    Step-IsWithin s t (refused now {b} later e) h =
        subst IsWithin (ap (λ p. p.0) e) (enter-IsWithin now s.breaker h)
    Step-IsWithin s t (failed now n later e) h = on_failure-IsWithin now s.breaker h
    Step-IsWithin s t (succeeded now n later e) h = on_success-IsWithin s.breaker h
    Step-IsWithin s t (cancelled now n later e) h = h

    Steps-from : (s t : System) → Steps limits s t → IsWithin s.breaker → IsWithin t.breaker
    Steps-from s t done h = h
    Steps-from s t (and_then {t = u} first rest) h = Steps-from u t rest (Step-IsWithin s u first h)

    -- From a new breaker no interleaving of calls leads out of its limits: it leaves CLOSED as soon as
    -- the threshold of failures is reached, and HALF_OPEN never has more calls than places.
    pub Steps-IsWithin : (t : System) → Steps limits new_system t → IsWithin t.breaker
    Steps-IsWithin t steps =
        Steps-from new_system t steps (record { below = λ e. some_threshold; places = some_places })

  Step-clock : (s t : System) → Step limits s t → s.clock ≤ t.clock
  Step-clock s t (admitted now later e) = later
  Step-clock s t (refused now later e) = later
  Step-clock s t (failed now n later e) = later
  Step-clock s t (succeeded now n later e) = later
  Step-clock s t (cancelled now n later e) = later

  Steps-clock : (s t : System) → Steps limits s t → s.clock ≤ t.clock
  Steps-clock s t done = omega arith
  Steps-clock s t (and_then {t = u} first rest) =
      let one = Step-clock s u first in let more = Steps-clock u t rest in omega arith

  -- It is OPEN, opened no earlier than `since`, and no call was admitted: no more run than `n`.
  pub record IsShut (since n : ℕ) (s : System) : Type 0 where
    pub shut : s.breaker.state ≡ is_open
    pub when : since ≤ s.breaker.opened_at
    pub none_admitted : s.running ≤ n

  enter-shut :
      (since now : ℕ) (b : CircuitBreaker)
      → b.state ≡ is_open
      → since ≤ b.opened_at
      → since ≤ now
      → now < since + limits.recovery_timeout
      → enter limits now b ≡ (b, err circuit_open)
  unfolding enter
  enter-shut since now b o w l u = ground arith

  failure-shut :
      (now : ℕ) (b : CircuitBreaker)
      → b.state ≡ is_open
      → b.opened_at ≤ now ⊎ (now ≤ b.opened_at)
      → ((on_failure limits now b).state ≡ is_open)
        × (((on_failure limits now b).opened_at ≡ b.opened_at)
            ⊎ ((on_failure limits now b).opened_at ≡ now))
  unfolding on_failure
  failure-shut now b o w = ground arith

  success-shut : (b : CircuitBreaker) → b.state ≡ is_open → on_success limits b ≡ b
  unfolding on_success
  success-shut b o = ground arith

  Step-IsShut :
      (since n : ℕ) (s t : System)
      → Step limits s t
      → since ≤ s.clock
      → t.clock < since + limits.recovery_timeout
      → IsShut since n s
      → IsShut since n t
  Step-IsShut since n s t (admitted now {b} later e) l u h =
      absurd (clash (sym e ∙ enter-shut since now s.breaker h.shut h.when (omega arith) u))
    where
      clash : ¬ (
          ◌≡◌ {A = CircuitBreaker × Result Refusal (Unit {0})}
            (b, ok tt)
            (s.breaker, err circuit_open))
      clash q = absurd (ground arith)
  Step-IsShut since n s t (refused now {b} later e) l u h =
      let same : s.breaker ≡ b =
        ap (λ p. p.0) (sym (enter-shut since now s.breaker h.shut h.when (omega arith) u) ∙ e) in
      record {
        shut = rw (← same) h.shut;
        when = rw (← same) h.when;
        none_admitted = h.none_admitted;
      }
  Step-IsShut since n s t (failed now k later e) l u h =
      let (o, w) = failure-shut now s.breaker h.shut (ground arith) in
      let a = h.when in
      let c = h.none_admitted in
      record { shut = o; when = ground arith; none_admitted = omega arith }
  Step-IsShut since n s t (succeeded now k later e) l u h =
      let same = success-shut s.breaker h.shut in
      let c = h.none_admitted in
      record { shut = rw same h.shut; when = rw same h.when; none_admitted = omega arith }
  Step-IsShut since n s t (cancelled now k later e) l u h =
      let c = h.none_admitted in
      record { shut = h.shut; when = h.when; none_admitted = omega arith }

  -- Once it is OPEN, it stays OPEN and admits no call until the timeout has passed, whatever the calls
  -- do that are still running.
  pub Steps-IsShut :
      (since n : ℕ) (s t : System)
      → Steps limits s t
      → since ≤ s.clock
      → t.clock < since + limits.recovery_timeout
      → IsShut since n s
      → IsShut since n t
  Steps-IsShut since n s t done l u h = h
  Steps-IsShut since n s t (and_then {t = m} first rest) l u h =
      let a = Step-clock s m first in
      let b = Steps-clock m t rest in
      Steps-IsShut since n m t rest (omega arith) u
        (Step-IsShut since n s m first l (omega arith) h)

  -- It is HALF_OPEN, all of its places are taken, and no call is running.
  pub record IsStuck (s : System) : Type 0 where
    pub halfway : s.breaker.state ≡ is_half_open
    pub full : limits.half_open_max_calls ≤ℤ pos s.breaker.half_open_calls
    pub idle : s.running ≡ 0

  enter-stuck :
      (now : ℕ) (b : CircuitBreaker)
      → b.state ≡ is_half_open
      → limits.half_open_max_calls ≤ℤ pos b.half_open_calls
      → enter limits now b ≡ (b, err circuit_half_open_limit)
  unfolding enter
  enter-stuck now b h f = ground arith

  Step-stuck :
      (s t : System) → Step limits s t → IsStuck s → (t.breaker ≡ s.breaker) × (t.running ≡ 0)
  Step-stuck s t (admitted now {b} later e) h =
      absurd (clash (sym e ∙ enter-stuck now s.breaker h.halfway h.full))
    where
      clash : ¬ (
          ◌≡◌ {A = CircuitBreaker × Result Refusal (Unit {0})}
            (b, ok tt)
            (s.breaker, err circuit_half_open_limit))
      clash q = absurd (ground arith)
  Step-stuck s t (refused now {b} later e) h =
      (ap (λ p. p.0) (sym e ∙ enter-stuck now s.breaker h.halfway h.full), h.idle)
  Step-stuck s t (failed now k later e) h = absurd (cc (h.idle, e))
  Step-stuck s t (succeeded now k later e) h = absurd (cc (h.idle, e))
  Step-stuck s t (cancelled now k later e) h = absurd (cc (h.idle, e))

  -- If the calls that took the places of HALF_OPEN were cancelled, no call is admitted any more: the
  -- breaker does not change, and nothing runs, in every continuation.
  pub Steps-stuck :
      (s t : System) → Steps limits s t → IsStuck s → (t.breaker ≡ s.breaker) × (t.running ≡ 0)
  Steps-stuck s t done h = (refl, h.idle)
  Steps-stuck s t (and_then {t = m} first rest) h =
      let (same, idle) = Step-stuck s m first h in
      let again : IsStuck m = record {
        halfway = rw same h.halfway;
        full = rw same h.full;
        idle = idle;
      } in
      let (q, r) = Steps-stuck m t rest again in (q ∙ same, r)
