-- ===== src/Examples/Breakers.antt =====
-- Circuit breakers that open, and one that locks up (packages/core/src/run/index.ts).
use workit.Prelude.{◌≡◌, refl, none, [], ◌∷◌, arith}
use workit.Run.Breaker.{
  Opts, Breaker, Phase, tripped, half_open, System, Event, calls, ends, failed, succeeded,
  cancelled, initial, begin, step, run, refused, circuit_half_open, circuit_open,
}
use workit.Run.Breaker.Invariant.{IsSound, run-initial-IsSound}
use workit.Run.Breaker.Stuck.{exhausted_for_ever, cancelled_probe_locks}

abbrev quick : Opts
quick = record { failure_threshold = 1; reset_after_ms = 100; half_open_max_calls = none }

abbrev fresh : System
fresh = record { breaker = initial; running = [] }

-- A call fails at once, and opens the circuit until 101.
abbrev opened : System
opened = run quick fresh ((0, calls) ∷ (1, ends 0 failed) ∷ [])

run-initial-IsSound_example : IsSound quick opened
run-initial-IsSound_example = run-initial-IsSound quick ((0, calls) ∷ (1, ends 0 failed) ∷ [])

cancelled_probe_locks_example :
    (begin quick 1000000
      (run quick (step quick 160 (step quick 150 opened calls) (ends 0 cancelled)) []).breaker).1
    ≡ refused circuit_half_open
unfolding run step begin workit.Run.Breaker.finish
cancelled_probe_locks_example =
    cancelled_probe_locks quick opened 150 160 1000000 [] run-initial-IsSound_example refl
      (omega arith) refl

exhausted_for_ever_example :
    begin quick 900
      (run quick
        (step quick 160 (step quick 150 opened calls) (ends 0 cancelled))
        ((500, calls) ∷ [])).breaker
    ≡ (
      record { state = half_open; failures = 1; opened_until = 101; epoch = 1; admitted = 1 },
      refused circuit_half_open,
    )
unfolding run step begin workit.Run.Breaker.finish
exhausted_for_ever_example =
    exhausted_for_ever quick (step quick 160 (step quick 150 opened calls) (ends 0 cancelled))
      ((500, calls) ∷ []) 900
      (record { probing = refl; used = omega arith; started_once = omega arith; none_left = refl })
