-- ===== src/Examples/Policies.antt =====
-- A policy of a retried attempt beside a timed out hedge (packages/core/src/time-policy/index.ts).
use workit.Prelude.{
  ℕ, ◌≤◌, ◌<◌, ◌≡◌, ◌↔◌, refl, inl, inr, true, false, none, some, List, [], ◌∷◌, ok, arith,
}
use workit.Engine.Duration.{Duration, number, whole, parse_duration}
use workit.Engine.Retry.{
  Retry, RetryOpts, Backoff, RetryPolicy, attempts, options, get_or, normalize_retry,
}
use workit.TimePolicy.{
  TimePolicy, attempt, series, parallel, retry, hedge, timeout, deadline, Policies, nil, cons,
  TimePlan, RetryBudgetSnapshot, BudgetState, BudgetStatus, WarningCode,
}
use workit.TimePolicy.Planner.{plan, max_policy_depth}
use workit.TimePolicy.Budget.{Demand, collect_demand, plan_time_policy}
use workit.TimePolicy.Execution.{Takes, IsPlannedBefore}
use workit.TimePolicy.Soundness.{Takes-le-upper_bound}
use workit.TimePolicy.Range.{IsInRange, height}
use workit.TimePolicy.Totality.{plan_iff}
use workit.TimePolicy.Demand.{IsFilled, demanded, demanded-lt-attempts}
use workit.TimePolicy.Admission.{IsChecked, plan_time_policy-IsChecked}

abbrev ms : ℕ → Duration
ms n = number (whole n)

-- Three attempts of 100 ms, 50 ms apart, charged to the budget `r`.
abbrev retried : TimePolicy ℕ
retried = retry (attempt (ms 100)) (
    options (record {
      times = 3;
      backoff = some Backoff.fixed;
      initial_delay = some (ms 50);
      max_delay = none;
      jitter = some false;
      retry_if = none;
      retry_budget = some (b'r' ∷ []);
    }))

abbrev calls : TimePolicy ℕ
calls = parallel (cons retried (cons (timeout (ms 80) (hedge (attempt (ms 100)) (ms 20) 2)) nil))

-- A budget of three, of which one is spent.
abbrev purse : List RetryBudgetSnapshot
purse = record { key = b'r' ∷ []; state = record { limit = whole 3; spent = whole 1 } } ∷ []

abbrev calls_plan : TimePlan
calls_plan = record {
  valid = true;
  upper_bound_ms = 400;
  critical_path_ms = 400;
  parallel_work_ms = 500;
  attempts = 5;
  retry_budgets = [];
  warnings =
      record {
        code = WarningCode.hedge_exceeds_timeout;
        estimated_ms = some 120;
        limit_ms = some 80;
        budget_key = none;
        required_retries = none;
        remaining_retries = none;
      }
      ∷ [];
}

abbrev admitted_plan : TimePlan
admitted_plan = record {
  valid = true;
  upper_bound_ms = 400;
  critical_path_ms = 400;
  parallel_work_ms = 500;
  attempts = 5;
  retry_budgets =
      record {
        key = b'r' ∷ [];
        required = 2;
        limit = some 3;
        spent = some 1;
        remaining = some 2;
        status = BudgetStatus.admissible;
      }
      ∷ [];
  warnings =
      record {
        code = WarningCode.hedge_exceeds_timeout;
        estimated_ms = some 120;
        limit_ms = some 80;
        budget_key = none;
        required_retries = none;
        remaining_retries = none;
      }
      ∷ [];
}

abbrev retried_plan : TimePlan
retried_plan = record {
  valid = true;
  upper_bound_ms = 400;
  critical_path_ms = 400;
  parallel_work_ms = 300;
  attempts = 3;
  retry_budgets = [];
  warnings = [];
}

abbrev timed_plan : TimePlan
timed_plan = record {
  valid = true;
  upper_bound_ms = 300;
  critical_path_ms = 300;
  parallel_work_ms = 300;
  attempts = 3;
  retry_budgets = [];
  warnings =
      record {
        code = WarningCode.retry_exceeds_timeout;
        estimated_ms = some 400;
        limit_ms = some 300;
        budget_key = none;
        required_retries = none;
        remaining_retries = none;
      }
      ∷ [];
}

abbrev late_plan : TimePlan
late_plan = record {
  valid = false;
  upper_bound_ms = 200;
  critical_path_ms = 200;
  parallel_work_ms = 300;
  attempts = 3;
  retry_budgets = [];
  warnings =
      record {
        code = WarningCode.deadline_infeasible;
        estimated_ms = some 400;
        limit_ms = some 200;
        budget_key = none;
        required_retries = none;
        remaining_retries = none;
      }
      ∷ [];
}

abbrev retried_policy : RetryPolicy ℕ
retried_policy = record {
  times = 3;
  backoff = Backoff.fixed;
  initial_delay = ms 50;
  max_delay = ms 30000;
  jitter = false;
  retry_if = λ e n. true;
}

-- The first attempt fails after 100 ms and the second one succeeds after 90 ms.
retried-Takes : Takes retried 0 240
unfolding Takes normalize_retry parse_duration workit.Engine.Retry.compute_retry_delay
retried-Takes = (
  retried_policy,
  refl,
  inr (
    100,
    50,
    90,
    0,
    (100, refl, omega arith),
    omega arith,
    refl,
    inl (100, refl, omega arith),
    refl,
  ),
)

Takes-le-upper_bound_example : 240 ≤ 400
unfolding plan IsPlannedBefore workit.TimePolicy.Planner.within_depth parse_duration
    workit.TimePolicy.Combine.retry_plan normalize_retry workit.TimePolicy.Combine.retry_delays
    workit.TimePolicy.Combine.estimate_retry_delay workit.TimePolicy.Combine.leaf_plan
Takes-le-upper_bound_example =
    Takes-le-upper_bound retried 0 1 0 240 retried_plan refl (omega arith) tt retried-Takes

plan_iff_example :
    ((c : TimePlan) × (plan 0 0 calls ≡ ok c))
    ↔ (IsInRange calls × (height calls ≤ max_policy_depth))
plan_iff_example = plan_iff calls 0

demanded-lt-attempts_example : demanded ((b'r' ∷ [], 2) ∷ []) < 5
unfolding plan collect_demand IsFilled workit.TimePolicy.Planner.within_depth parse_duration
    workit.TimePolicy.Combine.retry_plan normalize_retry workit.TimePolicy.Combine.retry_delays
    workit.TimePolicy.Combine.estimate_retry_delay workit.TimePolicy.Planner.with_hedges
    workit.TimePolicy.Combine.hedge_plan workit.TimePolicy.Combine.combine_parallel
    workit.TimePolicy.Combine.leaf_plan workit.TimePolicy.Combine.timeout_plan
    workit.TimePolicy.Combine.has_type workit.TimePolicy.Planner.collect_policy_types
    workit.TimePolicy.Budget.charge workit.TimePolicy.Budget.add_retry_demand
demanded-lt-attempts_example =
    demanded-lt-attempts calls 0 0 ((b'r' ∷ [], 2) ∷ []) calls_plan (tt, (tt, tt)) refl refl

plan_time_policy-IsChecked_example :
    (base : TimePlan) × (d : Demand) × (plan 0 0 calls ≡ ok base)
    × (collect_demand calls 1 [] ≡ ok d)
    × IsChecked base d purse admitted_plan
unfolding plan_time_policy plan workit.TimePolicy.Planner.within_depth parse_duration
    workit.TimePolicy.Combine.retry_plan normalize_retry workit.TimePolicy.Combine.retry_delays
    workit.TimePolicy.Combine.estimate_retry_delay workit.TimePolicy.Planner.with_hedges
    workit.TimePolicy.Combine.hedge_plan workit.TimePolicy.Budget.apply_retry_budget_plan
    collect_demand workit.TimePolicy.Budget.charge workit.TimePolicy.Budget.add_retry_demand
    workit.TimePolicy.Budget.read_snapshots workit.TimePolicy.Budget.admit_all
    workit.TimePolicy.Combine.combine_parallel workit.TimePolicy.Combine.leaf_plan
    workit.Engine.Retry.validate_retry_policy workit.TimePolicy.Budget.admit
    workit.TimePolicy.Budget.admit_demand workit.TimePolicy.Budget.check_state
    workit.TimePolicy.Combine.capped_delay workit.TimePolicy.Combine.has_type
    workit.TimePolicy.Combine.timeout_plan workit.TimePolicy.Planner.collect_policy_types
plan_time_policy-IsChecked_example = plan_time_policy-IsChecked 0 calls purse admitted_plan refl
