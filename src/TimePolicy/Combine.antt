-- ===== src/TimePolicy/Combine.antt =====
-- packages/core/src/time-policy/index.ts: how the plan of a policy is made from the plans of its parts.
use workit.Prelude.{
  ℕ, zero, suc, ◌+◌, ◌-◌, ◌*◌, ◌^◌, min, Bool, true, false, ◌||◌, some, List, [], ◌∷◌, ◌++◌, map,
  leb, if◌then◌else◌, all, sum, maximum, Result, ok, ◌>>=◌,
}
use workit.Engine.Errors.{RangeError}
use workit.Engine.Duration.{Duration, parse_duration}
use workit.Engine.Retry.{
  Retry, RetryPolicy, Backoff, fixed, linear, exponential, dynamic, normalize_retry,
}
use workit.TimePolicy.{
  PolicyType, is_attempt, is_series, is_parallel, is_retry, is_hedge, is_timeout, is_deadline,
  TimePlan, TimePlanWarning, WarningCode, plain_warning, deadline_infeasible,
  dynamic_backoff_upper_bound, empty_composition, hedge_exceeds_timeout, jitter_upper_bound,
  retry_exceeds_timeout, time_exceeds_timeout,
}

unfoldable pub leaf_plan : ℕ → TimePlan
leaf_plan duration_ms = record {
  valid = true;
  upper_bound_ms = duration_ms;
  critical_path_ms = duration_ms;
  parallel_work_ms = duration_ms;
  attempts = 1;
  retry_budgets = [];
  warnings = [];
}

unfoldable pub empty_plan : TimePlan
empty_plan = record {
  valid = true;
  upper_bound_ms = 0;
  critical_path_ms = 0;
  parallel_work_ms = 0;
  attempts = 0;
  retry_budgets = [];
  warnings = plain_warning empty_composition ∷ [];
}

abbrev pub total : (TimePlan → ℕ) → List TimePlan → ℕ
total f ps = sum (map f ps)

abbrev warnings_of : List TimePlan → List TimePlanWarning
warnings_of [] = []
warnings_of (p ∷ ps) = p.warnings ++ warnings_of ps

unfoldable pub combine_series : List TimePlan → TimePlan
combine_series [] = empty_plan
combine_series (p ∷ ps) =
    let children = p ∷ ps in
    record {
      valid = all (λ c. c.valid) children;
      upper_bound_ms = total (λ c. c.upper_bound_ms) children;
      critical_path_ms = total (λ c. c.critical_path_ms) children;
      parallel_work_ms = total (λ c. c.parallel_work_ms) children;
      attempts = total (λ c. c.attempts) children;
      retry_budgets = [];
      warnings = warnings_of children;
    }

unfoldable pub combine_parallel : List TimePlan → TimePlan
combine_parallel [] = empty_plan
combine_parallel (p ∷ ps) =
    let children = p ∷ ps in
    record {
      valid = all (λ c. c.valid) children;
      upper_bound_ms = maximum (map (λ c. c.upper_bound_ms) children);
      critical_path_ms = maximum (map (λ c. c.critical_path_ms) children);
      parallel_work_ms = total (λ c. c.parallel_work_ms) children;
      attempts = total (λ c. c.attempts) children;
      retry_budgets = [];
      warnings = warnings_of children;
    }

dynamic_warning : ℕ → TimePlanWarning
dynamic_warning max_ms = record (plain_warning dynamic_backoff_upper_bound) {
  estimated_ms = some max_ms;
}

unfoldable pub capped_delay : Backoff → ℕ → ℕ → ℕ → ℕ × List TimePlanWarning
unfolding dynamic_warning
capped_delay (dynamic f) n initial_ms max_ms = (max_ms, dynamic_warning max_ms ∷ [])
capped_delay linear n initial_ms max_ms = (min (initial_ms * n) max_ms, [])
capped_delay exponential n initial_ms max_ms = (min (initial_ms * 2 ^ (n - 1)) max_ms, [])
capped_delay fixed n initial_ms max_ms = (min initial_ms max_ms, [])

module _ {E : Type 0} where
  unfoldable pub estimate_retry_delay :
      ℕ → RetryPolicy E → Result RangeError (ℕ × List TimePlanWarning)
  unfolding capped_delay
  estimate_retry_delay n policy = do
    initial_ms ← parse_duration policy.initial_delay
    max_ms ← parse_duration policy.max_delay
    ok (capped_delay policy.backoff n initial_ms max_ms)

  -- The loop over the retries: `rounds` are left, and `n` is the attempt before the next delay.
  unfoldable pub retry_delays : RetryPolicy E → ℕ → ℕ → Result RangeError (ℕ × List TimePlanWarning)
  retry_delays policy zero n = ok (0, [])
  retry_delays policy (suc rounds) n = do
    planned ← estimate_retry_delay n policy
    rest ← retry_delays policy rounds (suc n)
    ok (planned.0 + rest.0, planned.1 ++ rest.1)

  -- `estimateRetryAtDepth`, once the attempt is planned.
  unfoldable pub retry_plan : TimePlan → Retry E → Result RangeError TimePlan
  retry_plan attempt_plan r = do
    policy ← normalize_retry r
    delays ← retry_delays policy (policy.times - 1) 1
    let bound = attempt_plan.upper_bound_ms * policy.times + delays.0
    ok (record {
      valid = attempt_plan.valid;
      upper_bound_ms = bound;
      critical_path_ms = bound;
      parallel_work_ms = attempt_plan.parallel_work_ms * policy.times;
      attempts = attempt_plan.attempts * policy.times;
      retry_budgets = [];
      warnings =
          attempt_plan.warnings
          ++ (delays.1 ++ (if policy.jitter then plain_warning jitter_upper_bound ∷ [] else []));
    })

-- `estimateHedgeAtDepth`, behind its guard and once the attempt is planned.
unfoldable pub hedge_plan : TimePlan → Duration → ℕ → Result RangeError TimePlan
hedge_plan attempt_plan after max_hedges = do
  after_ms ← parse_duration after
  let bound = attempt_plan.upper_bound_ms + after_ms * (max_hedges - 1)
  ok (record {
    valid = attempt_plan.valid;
    upper_bound_ms = bound;
    critical_path_ms = bound;
    parallel_work_ms = attempt_plan.parallel_work_ms * max_hedges;
    attempts = attempt_plan.attempts * max_hedges;
    retry_budgets = [];
    warnings = attempt_plan.warnings;
  })

pub same_type : PolicyType → PolicyType → Bool
same_type is_attempt is_attempt = true
same_type is_series is_series = true
same_type is_parallel is_parallel = true
same_type is_retry is_retry = true
same_type is_hedge is_hedge = true
same_type is_timeout is_timeout = true
same_type is_deadline is_deadline = true
same_type _ _ = false

unfoldable pub has_type : PolicyType → List PolicyType → Bool
unfolding same_type
has_type t [] = false
has_type t (u ∷ us) = same_type t u || has_type t us

timeout_code : List PolicyType → WarningCode
timeout_code types =
    if has_type is_retry types
    then retry_exceeds_timeout
    else (if has_type is_hedge types then hedge_exceeds_timeout else time_exceeds_timeout)

exceeds : WarningCode → ℕ → ℕ → TimePlanWarning
exceeds code estimated limit = record (plain_warning code) {
  estimated_ms = some estimated;
  limit_ms = some limit;
}

-- `planTimeout`, once the inner policy is planned.
unfoldable pub timeout_plan : TimePlan → List PolicyType → ℕ → TimePlan
unfolding timeout_code exceeds
timeout_plan inner types timeout_ms =
    if leb inner.upper_bound_ms timeout_ms then inner else record inner {
      upper_bound_ms = timeout_ms;
      critical_path_ms = min inner.critical_path_ms timeout_ms;
      warnings =
          inner.warnings ++ exceeds (timeout_code types) inner.upper_bound_ms timeout_ms ∷ [];
    }

-- `planDeadline`, once the inner policy is planned. `-` stops at 0, as `Math.max(0, …)` does.
unfoldable pub deadline_plan : TimePlan → ℕ → ℕ → TimePlan
unfolding exceeds
deadline_plan inner deadline_at now =
    let remaining_ms = deadline_at - now in
    if leb inner.upper_bound_ms remaining_ms then inner else record inner {
      valid = false;
      upper_bound_ms = remaining_ms;
      critical_path_ms = min inner.critical_path_ms remaining_ms;
      warnings =
          inner.warnings ++ exceeds deadline_infeasible inner.upper_bound_ms remaining_ms ∷ [];
    }
