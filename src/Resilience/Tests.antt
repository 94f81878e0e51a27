-- ===== src/Resilience/Tests.antt =====
-- A history of calls: a failure opens the breaker, and the trial call after the timeout is cancelled.
use arche_api.Base.{◌≡◌, refl, arith}
use arche_api.Base.Int.{pos}
use arche_api.Resilience.Breaker.{
  is_closed, is_open, is_half_open, Limits, enter, on_failure, on_success, System, new_system,
  admitted, refused, failed, cancelled, Steps, done, and_then,
}
use arche_api.Resilience.BreakerLaws.{IsWithin, Steps-IsWithin, IsShut, Steps-IsShut, Steps-stuck}

abbrev limits : Limits
limits = record { failure_threshold = pos 1; recovery_timeout = 30; half_open_max_calls = pos 1 }

abbrev opened : System
opened = record {
  breaker = record { state = is_open; failures = 1; opened_at = 5; half_open_calls = 0 };
  running = 0;
  clock = 5;
}

abbrev still_open : System
still_open = record {
  breaker = record { state = is_open; failures = 1; opened_at = 5; half_open_calls = 0 };
  running = 0;
  clock = 20;
}

abbrev stuck : System
stuck = record {
  breaker = record { state = is_half_open; failures = 1; opened_at = 5; half_open_calls = 1 };
  running = 0;
  clock = 41;
}

abbrev refusing : System
refusing = record {
  breaker = record { state = is_half_open; failures = 1; opened_at = 5; half_open_calls = 1 };
  running = 0;
  clock = 1000;
}

to_opened : Steps limits new_system opened
unfolding enter on_failure
to_opened = and_then (admitted 1 (omega arith) refl) (and_then (failed 5 0 (omega arith) refl) done)

waiting : Steps limits opened still_open
unfolding enter
waiting = and_then (refused 20 (omega arith) refl) done

to_stuck : Steps limits new_system stuck
unfolding enter on_failure
to_stuck = and_then (admitted 1 (omega arith) refl) (
    and_then (failed 5 0 (omega arith) refl) (
      and_then (admitted 40 (omega arith) refl)
        (and_then (cancelled 41 0 (omega arith) refl) done)))

much_later : Steps limits stuck refusing
unfolding enter
much_later = and_then (refused 1000 (omega arith) refl) done

Steps-IsWithin_example : IsWithin limits stuck.breaker
Steps-IsWithin_example = Steps-IsWithin limits (ground arith) (ground arith) stuck to_stuck

Steps-IsShut_example : IsShut limits 5 0 still_open
Steps-IsShut_example =
    Steps-IsShut limits 5 0 opened still_open waiting (omega arith) (omega arith)
      (record { shut = refl; when = omega arith; none_admitted = omega arith })

Steps-stuck_example : (refusing.breaker ≡ stuck.breaker) × (refusing.running ≡ 0)
Steps-stuck_example =
    Steps-stuck limits stuck refusing much_later
      (record { halfway = refl; full = ground arith; idle = refl })

-- A trial call that returns closes the breaker.
recovers : (on_success limits (enter limits 40 opened.breaker).0).state ≡ is_closed
unfolding enter on_success
recovers = refl
