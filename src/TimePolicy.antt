-- ===== src/TimePolicy.antt =====
-- packages/core/src/time-policy/index.ts: policies, warnings and plans. Durations are whole
-- milliseconds, and a `Date` is its timestamp. The message of a warning is fixed by its code and
-- left out, as is the label of an attempt, which nothing reads.
pub mod Combine
pub mod Planner
pub mod Inversion
pub mod Budget
pub mod Paths
pub mod Demand
pub mod Admission
pub mod Range
pub mod Totality
pub mod Execution
pub mod Soundness
use workit.Prelude.{ℕ, Bool, Option, none, List, [], ◌∷◌}
use workit.Engine.Duration.{Duration, Number}
use workit.Engine.Retry.{Retry}

-- `retry`, `hedge`, `timeout` and `deadline` hold the policy that they wrap; `deadline` holds
-- `deadlineAt` and `now`.
mutual
  pub data TimePolicy (E : Type 0) : Type 0 where
    attempt : Duration → TimePolicy E
    series : Policies E → TimePolicy E
    parallel : Policies E → TimePolicy E
    retry : TimePolicy E → Retry E → TimePolicy E
    hedge : TimePolicy E → Duration → ℕ → TimePolicy E
    timeout : Duration → TimePolicy E → TimePolicy E
    deadline : ℕ → Option ℕ → TimePolicy E → TimePolicy E

  pub data Policies (E : Type 0) : Type 0 where
    nil : Policies E
    cons : TimePolicy E → Policies E → Policies E

pub data PolicyType : Type 0 where
  is_attempt is_series is_parallel is_retry is_hedge is_timeout is_deadline : PolicyType

pub data WarningCode : Type 0 where
  deadline_infeasible dynamic_backoff_upper_bound empty_composition : WarningCode
  hedge_exceeds_timeout jitter_upper_bound retry_budget_exceeded : WarningCode
  retry_budget_snapshot_missing retry_exceeds_timeout time_exceeds_timeout : WarningCode

pub record TimePlanWarning : Type 0 where
  pub code : WarningCode
  pub estimated_ms : Option ℕ
  pub limit_ms : Option ℕ
  pub budget_key : Option (List ℕ)
  pub required_retries : Option ℕ
  pub remaining_retries : Option ℕ

pub record BudgetState : Type 0 where
  pub limit : Number
  pub spent : Number

pub record RetryBudgetSnapshot : Type 0 where
  pub key : List ℕ
  pub state : BudgetState

pub data BudgetStatus : Type 0 where
  admissible exceeded unverified : BudgetStatus

pub record TimePlanRetryBudget : Type 0 where
  pub key : List ℕ
  pub required : ℕ
  pub limit : Option ℕ
  pub spent : Option ℕ
  pub remaining : Option ℕ
  pub status : BudgetStatus

pub record TimePlan : Type 0 where
  pub valid : Bool
  pub upper_bound_ms : ℕ
  pub critical_path_ms : ℕ
  pub parallel_work_ms : ℕ
  pub attempts : ℕ
  pub retry_budgets : List TimePlanRetryBudget
  pub warnings : List TimePlanWarning

abbrev pub plain_warning : WarningCode → TimePlanWarning
plain_warning c = record {
  code = c;
  estimated_ms = none;
  limit_ms = none;
  budget_key = none;
  required_retries = none;
  remaining_retries = none;
}
