-- ===== src/TimePolicy/Inversion.antt =====
-- What a successful plan is made of (packages/core/src/time-policy/index.ts).
use workit.Prelude.{
  ℕ, suc, ◌+◌, ◌-◌, ◌*◌, ◌≤◌, ◌≡◌, Option, List, [], ◌∷◌, Result, ok, arith, >>=-eq-ok,
}
use workit.Engine.Duration.{parse_duration, Duration}
use workit.Engine.Retry.{Retry, RetryPolicy, normalize_retry, get_or}
use workit.TimePolicy.{
  TimePolicy, attempt, series, parallel, retry, hedge, timeout, deadline, Policies, cons, TimePlan,
  TimePlanWarning,
}
use workit.TimePolicy.Combine.{
  combine_series, combine_parallel, retry_delays, retry_plan, hedge_plan, timeout_plan,
  deadline_plan, leaf_plan,
}
use workit.TimePolicy.Planner.{
  plan, plan_all, collect_policy_types, max_policy_depth, within_depth, with_hedges,
}
use workit.Engine.Errors.{RangeError}

pub within_depth-ok :
    (depth : ℕ) (r : Result RangeError TimePlan) (c : TimePlan)
    → within_depth depth r ≡ ok c
    → (depth ≤ max_policy_depth) × (r ≡ ok c)
unfolding within_depth
within_depth-ok depth r c e = ground arith

with_hedges-ok :
    (k : ℕ) (r : Result RangeError TimePlan) (c : TimePlan)
    → with_hedges k r ≡ ok c
    → (1 ≤ k) × (r ≡ ok c)
unfolding with_hedges
with_hedges-ok k r c e = ground arith

pub record IsHedgePlan (q : TimePlan) (after : Duration) (max_hedges : ℕ) (c : TimePlan)
    : Type 0 where
  pub after_ms : ℕ
  pub parsed : parse_duration after ≡ ok after_ms
  pub some_hedge : 1 ≤ max_hedges
  pub upper : c.upper_bound_ms ≡ q.upper_bound_ms + after_ms * (max_hedges - 1)
  pub critical : c.critical_path_ms ≡ c.upper_bound_ms
  pub tries : c.attempts ≡ q.attempts * max_hedges

hedge_fields :
    (q : TimePlan) (after : Duration) (k n : ℕ) (c : TimePlan)
    → parse_duration after ≡ ok n
    → hedge_plan q after k ≡ ok c
    → (c.upper_bound_ms ≡ q.upper_bound_ms + n * (k - 1))
      × (c.critical_path_ms ≡ c.upper_bound_ms)
      × (c.attempts ≡ q.attempts * k)
unfolding hedge_plan
hedge_fields q after k n c p e = ground arith

hedge_parsed :
    (q : TimePlan) (after : Duration) (k : ℕ) (c : TimePlan)
    → hedge_plan q after k ≡ ok c
    → (n : ℕ) × (parse_duration after ≡ ok n)
unfolding hedge_plan
hedge_parsed q after k c e = let (n, p, _) = >>=-eq-ok (parse_duration after) _ e in (n, p)

pub plan-attempt-ok :
    (E : Type 0) (clock depth : ℕ) (d : Duration) (c : TimePlan)
    → plan {E = E} clock depth (attempt d) ≡ ok c
    → (n : ℕ) × (parse_duration d ≡ ok n) × (c ≡ leaf_plan n)
unfolding plan
plan-attempt-ok E clock depth d c e =
    let (_, e1) = within_depth-ok depth _ c e in
    let (n, p, e2) = >>=-eq-ok (parse_duration d) _ e1 in (n, p, cc)

module _ {E : Type 0} where
  pub record IsRetryPlan (q : TimePlan) (r : Retry E) (c : TimePlan) : Type 0 where
    pub policy : RetryPolicy E
    pub delays : ℕ × List TimePlanWarning
    pub normal : normalize_retry r ≡ ok policy
    pub waits : retry_delays policy (policy.times - 1) 1 ≡ ok delays
    pub upper : c.upper_bound_ms ≡ q.upper_bound_ms * policy.times + delays.0
    pub critical : c.critical_path_ms ≡ c.upper_bound_ms
    pub tries : c.attempts ≡ q.attempts * policy.times

  retry_fields :
      (q : TimePlan) (r : Retry E) (c : TimePlan) (policy : RetryPolicy E)
      → normalize_retry r ≡ ok policy
      → (delays : ℕ × List TimePlanWarning) → retry_delays policy (policy.times - 1) 1 ≡ ok delays
      → retry_plan q r ≡ ok c
      → (c.upper_bound_ms ≡ q.upper_bound_ms * policy.times + delays.0)
        × (c.critical_path_ms ≡ c.upper_bound_ms)
        × (c.attempts ≡ q.attempts * policy.times)
  unfolding retry_plan
  retry_fields q r c policy n delays d e = ground arith

  pub retry_plan-ok :
      (q : TimePlan) (r : Retry E) (c : TimePlan) → retry_plan q r ≡ ok c → IsRetryPlan q r c
  unfolding retry_plan
  retry_plan-ok q r c e =
      let (policy, n, e1) = >>=-eq-ok (normalize_retry r) _ e in
      let (delays, d, e2) = >>=-eq-ok (retry_delays policy (policy.times - 1) 1) _ e1 in
      let (up, crit, tries) = retry_fields q r c policy n delays d e in
      record {
        policy = policy;
        delays = delays;
        normal = n;
        waits = d;
        upper = up;
        critical = crit;
        tries = tries;
      }

  pub plan-series-ok :
      (clock depth : ℕ) (ps : Policies E) (c : TimePlan)
      → plan clock depth (series ps) ≡ ok c
      → (cs : List TimePlan) × (plan_all clock (suc depth) ps ≡ ok cs) × (c ≡ combine_series cs)
  unfolding plan
  plan-series-ok clock depth ps c e =
      let (_, e1) = within_depth-ok depth _ c e in
      let (cs, p, e2) = >>=-eq-ok (plan_all clock (suc depth) ps) _ e1 in (cs, p, cc)

  pub plan-parallel-ok :
      (clock depth : ℕ) (ps : Policies E) (c : TimePlan)
      → plan clock depth (parallel ps) ≡ ok c
      → (cs : List TimePlan) × (plan_all clock (suc depth) ps ≡ ok cs) × (c ≡ combine_parallel cs)
  unfolding plan
  plan-parallel-ok clock depth ps c e =
      let (_, e1) = within_depth-ok depth _ c e in
      let (cs, p, e2) = >>=-eq-ok (plan_all clock (suc depth) ps) _ e1 in (cs, p, cc)

  pub plan-retry-ok :
      (clock depth : ℕ) (p : TimePolicy E) (r : Retry E) (c : TimePlan)
      → plan clock depth (retry p r) ≡ ok c
      → (q : TimePlan) × (plan clock (suc depth) p ≡ ok q) × IsRetryPlan q r c
  unfolding plan
  plan-retry-ok clock depth p r c e =
      let (_, e1) = within_depth-ok depth _ c e in
      let (q, pq, e2) = >>=-eq-ok (plan clock (suc depth) p) _ e1 in (q, pq, retry_plan-ok q r c e2)

  pub plan-hedge-ok :
      (clock depth : ℕ) (p : TimePolicy E) (after : Duration) (k : ℕ) (c : TimePlan)
      → plan clock depth (hedge p after k) ≡ ok c
      → (q : TimePlan) × (plan clock (suc depth) p ≡ ok q) × IsHedgePlan q after k c
  unfolding plan
  plan-hedge-ok clock depth p after k c e =
      let (_, e1) = within_depth-ok depth _ c e in
      let (some_hedge, e2) = with_hedges-ok k _ c e1 in
      let (q, pq, e3) = >>=-eq-ok (plan clock (suc depth) p) _ e2 in
      let (n, pn) = hedge_parsed q after k c e3 in
      let (up, crit, tries) = hedge_fields q after k n c pn e3 in
      (
        q,
        pq,
        record {
          after_ms = n;
          parsed = pn;
          some_hedge = some_hedge;
          upper = up;
          critical = crit;
          tries = tries;
        },
      )

  pub plan-timeout-ok :
      (clock depth : ℕ) (d : Duration) (p : TimePolicy E) (c : TimePlan)
      → plan clock depth (timeout d p) ≡ ok c
      → (q : TimePlan) × (n : ℕ) × (plan clock (suc depth) p ≡ ok q)
        × (parse_duration d ≡ ok n)
        × (c ≡ timeout_plan q (collect_policy_types p []) n)
  unfolding plan
  plan-timeout-ok clock depth d p c e =
      let (_, e1) = within_depth-ok depth _ c e in
      let (q, pq, e2) = >>=-eq-ok (plan clock (suc depth) p) _ e1 in
      let (n, pn, e3) = >>=-eq-ok (parse_duration d) _ e2 in (q, n, pq, pn, cc)

  pub plan-deadline-ok :
      (clock depth at : ℕ) (now : Option ℕ) (p : TimePolicy E) (c : TimePlan)
      → plan clock depth (deadline at now p) ≡ ok c
      → (q : TimePlan) × (plan clock (suc depth) p ≡ ok q)
        × (c ≡ deadline_plan q at (get_or clock now))
  unfolding plan
  plan-deadline-ok clock depth at now p c e =
      let (_, e1) = within_depth-ok depth _ c e in
      let (q, pq, e2) = >>=-eq-ok (plan clock (suc depth) p) _ e1 in (q, pq, cc)

  pub plan_all-cons-ok :
      (clock depth : ℕ) (p : TimePolicy E) (ps : Policies E) (cs : List TimePlan)
      → plan_all clock depth (cons p ps) ≡ ok cs
      → (c : TimePlan) × (rest : List TimePlan) × (plan clock depth p ≡ ok c)
        × (plan_all clock depth ps ≡ ok rest)
        × (cs ≡ c ∷ rest)
  unfolding plan
  plan_all-cons-ok clock depth p ps cs e =
      let (c, pc, e1) = >>=-eq-ok (plan clock depth p) _ e in
      let (rest, pr, e2) = >>=-eq-ok (plan_all clock depth ps) _ e1 in (c, rest, pc, pr, cc)
