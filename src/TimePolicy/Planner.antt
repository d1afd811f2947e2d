-- ===== src/TimePolicy/Planner.antt =====
-- packages/core/src/time-policy/index.ts: the planner. `clock` stands for `Date.now()`.
use workit.Prelude.{ℕ, suc, List, [], ◌∷◌, ◌++◌, leb, if◌then◌else◌, Result, ok, err, ◌>>=◌}
use workit.Engine.Errors.{RangeError, hedge_max, policy_depth}
use workit.Engine.Duration.{parse_duration}
use workit.Engine.Retry.{get_or}
use workit.TimePolicy.{
  TimePolicy, attempt, series, parallel, retry, hedge, timeout, deadline, Policies, nil, cons,
  PolicyType, is_attempt, is_series, is_parallel, is_retry, is_hedge, is_timeout, is_deadline,
  TimePlan,
}
use workit.TimePolicy.Combine.{
  leaf_plan, combine_series, combine_parallel, retry_plan, hedge_plan, timeout_plan, deadline_plan,
  has_type,
}

abbrev pub max_policy_depth : ℕ
max_policy_depth = 64

add_type : PolicyType → List PolicyType → List PolicyType
unfolding has_type
add_type t types = if has_type t types then types else types ++ t ∷ []

unfoldable mutual
  unfolding add_type

  pub collect_policy_types : {E : Type 0} → TimePolicy E → List PolicyType → List PolicyType
  collect_policy_types (attempt d) types = add_type is_attempt types
  collect_policy_types (series ps) types = collect_all_types ps (add_type is_series types)
  collect_policy_types (parallel ps) types = collect_all_types ps (add_type is_parallel types)
  collect_policy_types (retry p r) types = collect_policy_types p (add_type is_retry types)
  collect_policy_types (hedge p a m) types = collect_policy_types p (add_type is_hedge types)
  collect_policy_types (timeout d p) types = collect_policy_types p (add_type is_timeout types)
  collect_policy_types (deadline a n p) types = collect_policy_types p (add_type is_deadline types)

  collect_all_types : {E : Type 0} → Policies E → List PolicyType → List PolicyType
  collect_all_types nil types = types
  collect_all_types (cons p ps) types = collect_all_types ps (collect_policy_types p types)

-- The guard that `plan` begins with.
unfoldable pub within_depth : ℕ → Result RangeError TimePlan → Result RangeError TimePlan
within_depth depth planned = if leb depth max_policy_depth then planned else err policy_depth

-- The guard that `estimateHedgeAtDepth` begins with; a number that is no integer is refused as 0 is.
unfoldable pub with_hedges : ℕ → Result RangeError TimePlan → Result RangeError TimePlan
with_hedges max_hedges planned = if leb 1 max_hedges then planned else err hedge_max

unfoldable mutual
  pub plan : {E : Type 0} → ℕ → ℕ → TimePolicy E → Result RangeError TimePlan
  plan clock depth (attempt d) =
      within_depth depth do duration_ms ← parse_duration d; ok (leaf_plan duration_ms)
  plan clock depth (series ps) =
      within_depth depth do children ← plan_all clock (suc depth) ps; ok (combine_series children)
  plan clock depth (parallel ps) =
      within_depth depth do children ← plan_all clock (suc depth) ps; ok (combine_parallel children)
  plan clock depth (retry p r) =
      within_depth depth do attempt_plan ← plan clock (suc depth) p; retry_plan attempt_plan r
  plan clock depth (hedge p after max_hedges) = within_depth depth (
      with_hedges max_hedges
        do attempt_plan ← plan clock (suc depth) p; hedge_plan attempt_plan after max_hedges)
  plan clock depth (timeout d p) = within_depth depth do
    inner ← plan clock (suc depth) p
    timeout_ms ← parse_duration d
    ok (timeout_plan inner (collect_policy_types p []) timeout_ms)
  plan clock depth (deadline deadline_at now p) =
      within_depth depth
        do inner ← plan clock (suc depth) p; ok (deadline_plan inner deadline_at (get_or clock now))

  pub plan_all : {E : Type 0} → ℕ → ℕ → Policies E → Result RangeError (List TimePlan)
  plan_all clock depth nil = ok []
  plan_all clock depth (cons p ps) = do
    first ← plan clock depth p
    rest ← plan_all clock depth ps
    ok (first ∷ rest)
