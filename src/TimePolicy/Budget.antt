-- ===== src/TimePolicy/Budget.antt =====
-- packages/core/src/time-policy/index.ts: the retry demand of a policy, and its admission against
-- snapshots of the runtime's budgets. A map is an association list in the order of insertion.
use workit.Prelude.{
  ℕ, ◌+◌, ◌-◌, ◌*◌, min, Bool, true, false, Option, none, some, List, [], ◌∷◌, ◌++◌, ltb, leb,
  same_text, find, if◌then◌else◌, Result, ok, err, ◌>>=◌,
}
use workit.Engine.Errors.{RangeError, budget_snapshot, duplicate_snapshot}
use workit.Engine.Duration.{Number, whole, Duration}
use workit.Engine.Retry.{Retry, budget_of, normalize_retry}
use workit.TimePolicy.{
  TimePolicy, attempt, series, parallel, retry, hedge, timeout, deadline, Policies, nil, cons,
  TimePlan, TimePlanWarning, TimePlanRetryBudget, RetryBudgetSnapshot, admissible, exceeded,
  unverified, plain_warning, retry_budget_exceeded, retry_budget_snapshot_missing,
}
use workit.TimePolicy.Combine.{retry_plan, hedge_plan}
use workit.TimePolicy.Planner.{plan, with_hedges}

abbrev pub Demand : Type 0
Demand = List (List ℕ × ℕ)

abbrev pub max_safe_integer : ℕ
max_safe_integer = 9007199254740991

abbrev pub bounded_product : ℕ → ℕ → ℕ
bounded_product left right = min max_safe_integer (left * right)

unfoldable pub add_retry_demand : Demand → List ℕ → ℕ → Demand
add_retry_demand [] key amount = (key, min max_safe_integer amount) ∷ []
add_retry_demand ((k, n) ∷ demand) key amount =
    let rest = add_retry_demand demand key amount in
    if same_text k key then (k, min max_safe_integer (n + amount)) ∷ demand else (k, n) ∷ rest

unfoldable pub charge : Option (List ℕ) → ℕ → ℕ → Demand → Demand
charge none times multiplier demand = demand
charge (some key) times multiplier demand =
    add_retry_demand demand key (bounded_product (times - 1) multiplier)

unfoldable mutual
  pub collect_demand : {E : Type 0} → TimePolicy E → ℕ → Demand → Result RangeError Demand
  collect_demand (attempt d) multiplier demand = ok demand
  collect_demand (series ps) multiplier demand = collect_all_demand ps multiplier demand
  collect_demand (parallel ps) multiplier demand = collect_all_demand ps multiplier demand
  collect_demand (retry p r) multiplier demand = do
    policy ← normalize_retry r
    collect_demand p (bounded_product multiplier policy.times)
        (charge (budget_of r) policy.times multiplier demand)
  collect_demand (hedge p after max_hedges) multiplier demand =
      collect_demand p (bounded_product multiplier max_hedges) demand
  collect_demand (timeout d p) multiplier demand = collect_demand p multiplier demand
  collect_demand (deadline at now p) multiplier demand = collect_demand p multiplier demand

  pub collect_all_demand : {E : Type 0} → Policies E → ℕ → Demand → Result RangeError Demand
  collect_all_demand nil multiplier demand = ok demand
  collect_all_demand (cons p ps) multiplier demand = do
    next ← collect_demand p multiplier demand
    collect_all_demand ps multiplier next

pub record Snapshot : Type 0 where
  pub limit : ℕ
  pub spent : ℕ

-- Both numbers finite and not negative, and `spent <= limit`.
unfoldable pub check_state : Number → Number → Result RangeError Snapshot
check_state (whole limit) (whole spent) =
    if ltb limit spent then err budget_snapshot else ok (record { limit = limit; spent = spent })
check_state (whole limit) _ = err budget_snapshot
check_state _ _ = err budget_snapshot

abbrev pub has_key {ℓ} : {A : Type ℓ} → List ℕ → List (List ℕ × A) → Bool
has_key key m = elim (find key m) [ none ↦ false | some _ ↦ true ]

unfoldable pub read_snapshots :
    List RetryBudgetSnapshot
    → List (List ℕ × Snapshot)
    → Result RangeError (List (List ℕ × Snapshot))
unfolding check_state
read_snapshots [] result = ok result
read_snapshots (s ∷ rest) result = do
  state ← check_state s.state.limit s.state.spent
  let more = read_snapshots rest (result ++ (s.key, state) ∷ [])
  if has_key s.key result then err duplicate_snapshot else more

budget_warning : List ℕ → ℕ → Option ℕ → TimePlanWarning
budget_warning key required none = record (plain_warning retry_budget_snapshot_missing) {
  budget_key = some key;
  required_retries = some required;
}
budget_warning key required (some remaining) = record (plain_warning retry_budget_exceeded) {
  budget_key = some key;
  required_retries = some required;
  remaining_retries = some remaining;
}

add_line : TimePlan → TimePlanRetryBudget → TimePlan
add_line p line = record p { retry_budgets = p.retry_budgets ++ line ∷ [] }

refuse_line : TimePlan → TimePlanRetryBudget → TimePlanWarning → TimePlan
refuse_line p line w = record p {
  valid = false;
  retry_budgets = p.retry_budgets ++ line ∷ [];
  warnings = p.warnings ++ w ∷ [];
}

-- One round of the loop over the demand.
unfoldable pub admit : TimePlan → List ℕ → ℕ → Option Snapshot → TimePlan
unfolding budget_warning add_line refuse_line
admit p key required none =
    refuse_line p
      (record {
        key = key;
        required = required;
        limit = none;
        spent = none;
        remaining = none;
        status = unverified;
      })
      (budget_warning key required none)
admit p key required (some state) =
    let remaining = state.limit - state.spent in
    let fits = leb required remaining in
    let line : TimePlanRetryBudget = record {
      key = key;
      required = required;
      limit = some state.limit;
      spent = some state.spent;
      remaining = some remaining;
      status = if fits then admissible else exceeded;
    } in
    if fits
    then add_line p line
    else refuse_line p line (budget_warning key required (some remaining))

unfoldable pub admit_all : TimePlan → Demand → List (List ℕ × Snapshot) → TimePlan
unfolding admit
admit_all p [] snapshots = p
admit_all p ((key, required) ∷ demand) snapshots =
    admit_all (admit p key required (find key snapshots)) demand snapshots

unfoldable pub admit_demand :
    TimePlan → Demand → List RetryBudgetSnapshot → Result RangeError TimePlan
admit_demand base [] snapshots = ok base
admit_demand base (d ∷ demand) snapshots = do
  states ← read_snapshots snapshots []
  ok (admit_all (record base { retry_budgets = [] }) (d ∷ demand) states)

module _ {E : Type 0} where
  unfoldable pub apply_retry_budget_plan :
      TimePlan → TimePolicy E → List RetryBudgetSnapshot → Result RangeError TimePlan
  unfolding admit_demand
  apply_retry_budget_plan base p snapshots = do
    demand ← collect_demand p 1 []
    admit_demand base demand snapshots

  unfoldable pub plan_time_policy :
      ℕ → TimePolicy E → List RetryBudgetSnapshot → Result RangeError TimePlan
  plan_time_policy clock p snapshots = do
    base ← plan clock 0 p
    apply_retry_budget_plan base p snapshots

  unfoldable pub estimate_retry :
      ℕ → TimePolicy E → Retry E → List RetryBudgetSnapshot → Result RangeError TimePlan
  estimate_retry clock p r snapshots = do
    attempt_plan ← plan clock 1 p
    base ← retry_plan attempt_plan r
    apply_retry_budget_plan base (retry p r) snapshots

  unfoldable pub estimate_hedge :
      ℕ → TimePolicy E → Duration → ℕ → List RetryBudgetSnapshot → Result RangeError TimePlan
  estimate_hedge clock p after max_hedges snapshots = do
    base ←
        with_hedges max_hedges
          do attempt_plan ← plan clock 1 p; hedge_plan attempt_plan after max_hedges
    apply_retry_budget_plan base (hedge p after max_hedges) snapshots
