-- ===== src/Engine/Retry.antt =====
-- packages/core/src/engine/retry.ts: retry policies and their delays. `E` is the type of errors.
pub mod Bounds
use workit.Prelude.{
  ℕ, ◌+◌, ◌-◌, ◌*◌, ◌/◌, ◌^◌, min, Bool, true, ◌||◌, Option, none, some, List, ltb, if◌then◌else◌,
  Result, ok, err, ◌>>=◌, ◌>>◌,
}
use workit.Engine.Errors.{RangeError, retry_attempts}
use workit.Engine.Duration.{Duration, number, whole, parse_duration}

-- `fixed`, or a function of the attempt.
pub data Backoff : Type 0 where
  fixed linear exponential : Backoff
  dynamic : (ℕ → Duration) → Backoff

-- `retry_budget` is the name of the budget's key.
pub record RetryOpts (E : Type 0) : Type 0 where
  pub times : ℕ
  pub backoff : Option Backoff
  pub initial_delay : Option Duration
  pub max_delay : Option Duration
  pub jitter : Option Bool
  pub retry_if : Option (E → ℕ → Bool)
  pub retry_budget : Option (List ℕ)

-- `number | RetryOpts`.
pub data Retry (E : Type 0) : Type 0 where
  attempts : ℕ → Retry E
  options : RetryOpts E → Retry E

pub record RetryPolicy (E : Type 0) : Type 0 where
  pub times : ℕ
  pub backoff : Backoff
  pub initial_delay : Duration
  pub max_delay : Duration
  pub jitter : Bool
  pub retry_if : E → ℕ → Bool

abbrev pub max_retry_attempts : ℕ
max_retry_attempts = 1000

abbrev pub get_or {ℓ} : {A : Type ℓ} → A → Option A → A
get_or d none = d
get_or d (some a) = a

-- `Math.random()` is `rnd / random_base`.
abbrev pub random_base : ℕ
random_base = 2 ^ 53

module _ {E : Type 0} where
  times_of : Retry E → ℕ
  times_of (attempts n) = n
  times_of (options o) = o.times

  -- A number that is no integer is refused as 0 is.
  unfoldable pub validate_retry_policy : Retry E → Result RangeError (Unit {0})
  unfolding times_of
  validate_retry_policy r =
      let times = times_of r in
      if ltb times 1 || ltb max_retry_attempts times then err retry_attempts else ok tt

  raw : Retry E → RetryOpts E
  raw (attempts n) = record {
    times = n;
    backoff = none;
    initial_delay = none;
    max_delay = none;
    jitter = none;
    retry_if = none;
    retry_budget = none;
  }
  raw (options o) = o

  with_defaults : RetryOpts E → RetryPolicy E
  with_defaults o = record {
    times = o.times;
    backoff = get_or exponential o.backoff;
    initial_delay = get_or (number (whole 100)) o.initial_delay;
    max_delay = get_or (number (whole 30000)) o.max_delay;
    jitter = get_or true o.jitter;
    retry_if = get_or (λ _ _. true) o.retry_if;
  }

  unfoldable pub normalize_retry : Retry E → Result RangeError (RetryPolicy E)
  unfolding validate_retry_policy raw with_defaults
  normalize_retry r = do validate_retry_policy r; ok (with_defaults (raw r))

-- `policy.retry.retryBudget`, of a policy that is no number.
abbrev pub budget_of : {E : Type 0} → Retry E → Option (List ℕ)
budget_of (attempts n) = none
budget_of (options o) = o.retry_budget

-- The delay before jitter and the cap.
unfoldable pub raw_delay : ℕ → Backoff → ℕ → Result RangeError ℕ
raw_delay attempt fixed initial = ok initial
raw_delay attempt linear initial = ok (initial * attempt)
raw_delay attempt exponential initial = ok (initial * 2 ^ (attempt - 1))
raw_delay attempt (dynamic f) initial = parse_duration (f attempt)

-- `delay * (0.5 + Math.random() * 0.5)`, in whole milliseconds, as a timer counts them.
unfoldable pub jittered : ℕ → ℕ → ℕ
jittered rnd delay = delay * (random_base + rnd) / (2 * random_base)

unfoldable pub compute_backoff_delay : ℕ → ℕ → Backoff → ℕ → ℕ → Bool → Result RangeError ℕ
unfolding raw_delay
compute_backoff_delay rnd attempt backoff initial_ms max_ms jitter = do
  raw ← raw_delay attempt backoff initial_ms
  let delay = min raw max_ms
  ok (if jitter then jittered rnd delay else delay)

unfoldable pub compute_retry_delay : {E : Type 0} → ℕ → ℕ → RetryPolicy E → Result RangeError ℕ
unfolding compute_backoff_delay
compute_retry_delay rnd attempt policy = do
  initial_ms ← parse_duration policy.initial_delay
  max_ms ← parse_duration policy.max_delay
  compute_backoff_delay rnd attempt policy.backoff initial_ms max_ms policy.jitter
