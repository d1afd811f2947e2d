-- ===== src/TimePolicy/Range.antt =====
-- What a policy's parts must be to have a plan (packages/core/src/time-policy/index.ts), with no
-- reference to the planner.
use workit.Prelude.{ℕ, suc, ◌≤◌, ◌≡◌, ◌⊎◌, max, ok}
use workit.Engine.Duration.{Duration, parse_duration}
use workit.Engine.Retry.{Retry, RetryPolicy, normalize_retry}
use workit.TimePolicy.{
  TimePolicy, attempt, series, parallel, retry, hedge, timeout, deadline, Policies, nil, cons,
}

abbrev pub Parses : Duration → Type 0
Parses d = (n : ℕ) × (parse_duration d ≡ ok n)

-- The retry policy is in range, and its delays parse if it has any.
abbrev pub IsRetryable : {E : Type 0} → Retry E → Type 0
IsRetryable {E} r =
    (policy : RetryPolicy E) × (normalize_retry r ≡ ok policy)
    × ((policy.times ≡ 1) ⊎ (Parses policy.initial_delay × Parses policy.max_delay))

-- Every part of the policy is in range, with no reference to the planner.
unfoldable mutual
  pub IsInRange : {E : Type 0} → TimePolicy E → Type 0
  IsInRange (attempt d) = Parses d
  IsInRange (series ps) = AreInRange ps
  IsInRange (parallel ps) = AreInRange ps
  IsInRange (retry p r) = IsInRange p × IsRetryable r
  IsInRange (hedge p d k) = IsInRange p × Parses d × (1 ≤ k)
  IsInRange (timeout d p) = IsInRange p × Parses d
  IsInRange (deadline at now p) = IsInRange p

  pub AreInRange : {E : Type 0} → Policies E → Type 0
  AreInRange nil = Unit
  AreInRange (cons p ps) = IsInRange p × AreInRange ps

-- How many levels lie below a policy.
unfoldable mutual
  pub height : {E : Type 0} → TimePolicy E → ℕ
  height (attempt d) = 0
  height (series ps) = height_all ps
  height (parallel ps) = height_all ps
  height (retry p r) = suc (height p)
  height (hedge p d k) = suc (height p)
  height (timeout d p) = suc (height p)
  height (deadline at now p) = suc (height p)

  pub height_all : {E : Type 0} → Policies E → ℕ
  height_all nil = 0
  height_all (cons p ps) = max (suc (height p)) (height_all ps)
