-- ===== src/Examples/Retries.antt =====
-- A task that fails once and then returns, retried under a budget (packages/core/src/run/index.ts).
use workit.Prelude.{
  ℕ, suc, ◌+◌, ◌-◌, ◌≤◌, ◌<◌, ◌≡◌, ◌⊎◌, ◌↔◌, refl, true, false, none, some, List, [], ◌∷◌, length,
  Result, ok, err, arith, ◌==◌, if◌then◌else◌,
}
use workit.Engine.Duration.{number, whole, text, parse_duration, max_timeout_ms}
use workit.Engine.Duration.Grammar.{IsWritten, parse_duration-text_iff}
use workit.Engine.Retry.{Retry, RetryPolicy, Backoff, options, normalize_retry, compute_retry_delay}
use workit.Run.Thrown.{Thrown, failure}
use workit.Run.Retry.{World, Run, RetryEvent, Budget, retry, is_some}
use workit.Run.Retry.Rounds.{invocations, numbers_from, IsOwn, Stops}
use workit.Run.Retry.Attempts.{
  charges, attempt_of, IsRetryable, retry-attempts, retry-within_budget,
}

abbrev twice : Retry (Thrown ℕ)
twice = options (record {
  times = 3;
  backoff = some Backoff.fixed;
  initial_delay = some (number (whole 50));
  max_delay = none;
  jitter = some false;
  retry_if = none;
  retry_budget = some (b'r' ∷ []);
})

abbrev twice_policy : RetryPolicy (Thrown ℕ)
twice_policy = record {
  times = 3;
  backoff = Backoff.fixed;
  initial_delay = number (whole 50);
  max_delay = number (whole 30000);
  jitter = false;
  retry_if = λ e n. true;
}

abbrev still : World ℕ
still = record { random = λ n. 0; sleep = λ n. none }

abbrev flaky : ℕ → ℕ → Result (Thrown ℕ) ℕ × ℕ
flaky n s = (if n == 1 then err (failure 7) else ok n, s + 10)

abbrev purse : Budget
purse = record { limit = 5; spent = 2 }

abbrev twice_run : Run ℕ ℕ ℕ
twice_run = record {
  result = ok 2;
  state = 20;
  budget = some (record { limit = 5; spent = 3 });
  events = RetryEvent.invoked 1 ∷ RetryEvent.invoked 2 ∷ [];
}

retry-attempts_example :
    (k : ℕ) × (suc k ≤ 3)
    × (invocations twice_run.events ≡ numbers_from 1 (suc k))
    × ((j : ℕ) → j < k → IsRetryable twice_policy flaky 1 0 j)
    × (twice_run.state ≡ (attempt_of flaky 1 0 k).1)
    × ((v : ℕ) → (twice_run.result ≡ ok v) ↔ ((attempt_of flaky 1 0 k).0 ≡ ok v))
    × ((e : Thrown ℕ)
        → twice_run.result ≡ err e
        → ((attempt_of flaky 1 0 k).0 ≡ err e) ⊎ IsOwn still e)
    × Stops still twice_policy
        (3 - suc k)
        (charges true (suc k) (some purse))
        (suc k)
        (attempt_of flaky 1 0 k).0
        twice_run.result
unfolding retry normalize_retry workit.Run.Retry.retry_loop workit.Run.Retry.after_attempt
    workit.Run.Retry.consume_one compute_retry_delay parse_duration workit.Run.Retry.ended_events
retry-attempts_example =
    retry-attempts twice false still flaky 0 (some purse) twice_policy twice_run refl refl

retry-within_budget_example :
    (c : Budget) × (twice_run.budget ≡ some c)
    × (c.limit ≡ 5)
    × (c.spent ≤ c.limit)
    × (length (invocations twice_run.events) + 2 ≤ suc c.spent)
unfolding retry normalize_retry workit.Run.Retry.retry_loop workit.Run.Retry.after_attempt
    workit.Run.Retry.consume_one compute_retry_delay parse_duration workit.Run.Retry.ended_events
retry-within_budget_example =
    retry-within_budget twice false still flaky 0 purse twice_policy twice_run refl refl refl
      (omega arith)

-- `30s`.
abbrev thirty_seconds : List ℕ
thirty_seconds = b'3' ∷ b'0' ∷ b's' ∷ []

parse_duration-text_iff_example :
    (parse_duration (text thirty_seconds) ≡ ok 30000)
    ↔ (IsWritten thirty_seconds 30000 × (30000 ≤ max_timeout_ms))
parse_duration-text_iff_example = parse_duration-text_iff thirty_seconds 30000
