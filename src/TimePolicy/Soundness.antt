-- ===== src/TimePolicy/Soundness.antt =====
-- The planner's bounds hold of every run (packages/core/src/time-policy/index.ts).
mod Parts
use workit.Prelude.{ℕ, suc, ◌+◌, ◌*◌, ◌≤◌, ◌≡◌, inl, inr, List, ok, arith}
use workit.TimePolicy.{
  TimePolicy, attempt, series, parallel, retry, hedge, timeout, deadline, Policies, nil, cons,
  TimePlan,
}
use workit.TimePolicy.Combine.{combine_series, combine_parallel}
use workit.TimePolicy.Planner.{plan, plan_all}
use workit.TimePolicy.Inversion.{
  plan-attempt-ok, plan-series-ok, plan-parallel-ok, plan-retry-ok, plan-hedge-ok, plan-timeout-ok,
  plan-deadline-ok, plan_all-cons-ok,
}
use workit.TimePolicy.Execution.{
  Takes, TakesInOrder, TakesTogether, IsPlannedBefore, ArePlannedBefore,
}
use Parts.{
  retry_bounded, hedge_bounded, later, all_later, series_total, parallel_total, timeout_upper,
  deadline_upper, leaf_upper, planned_now,
}

mutual
  unfolding Takes IsPlannedBefore

  bounded :
      {E : Type 0} (p : TimePolicy E) (clock depth start t : ℕ) (c : TimePlan)
      → plan clock depth p ≡ ok c
      → clock ≤ start
      → IsPlannedBefore p start
      → Takes p start t
      → t ≤ c.upper_bound_ms
  bounded {E} (attempt d) clock depth start t c e le b (n, pn, tn) =
      let (m, pm, ce) = plan-attempt-ok E clock depth d c e in ground (arith, leaf_upper m)
  bounded (series ps) clock depth start t c e le b run =
      let (cs, all_ok, ce) = plan-series-ok clock depth ps c e in
      rw ce (in_order ps clock (suc depth) start t cs all_ok le b run)
  bounded (parallel ps) clock depth start t c e le b run =
      let (cs, all_ok, ce) = plan-parallel-ok clock depth ps c e in
      rw ce (together ps clock (suc depth) start t cs all_ok le b run)
  bounded (retry p r) clock depth start t c e le b (policy, n, run) =
      let (q, pq, v) = plan-retry-ok clock depth p r c e in
      retry_bounded (λ s u. Takes p s u) r q c start t policy
        (λ s u ge h. bounded p clock (suc depth) s u q pq (omega arith) (later p start s ge b) h) v
        n run
  bounded (hedge p d k) clock depth start t c e le b (i, n, u, lt, pn, run, te) =
      let (q, pq, v) = plan-hedge-ok clock depth p d k c e in
      let inner =
        bounded p clock (suc depth) (start + i * n) u q pq (omega arith)
          (later p start (start + i * n) (omega arith) b) run in
      rw te (hedge_bounded q c d k i n u v lt pn inner)
  bounded (timeout d p) clock depth start t c e le b (n, u, pn, run, te) =
      let (q, m, pq, pm, ce) = plan-timeout-ok clock depth d p c e in
      let inner = bounded p clock (suc depth) start u q pq le b run in
      let same : n ≡ m = ground arith in rw (te, ce, timeout_upper) (omega arith)
  bounded (deadline at now p) clock depth start t c e le b (u, run, te) =
      let (q, pq, ce) = plan-deadline-ok clock depth at now p c e in
      let (now_le, b') = planned_now at clock start now p le b in
      let inner = bounded p clock (suc depth) start u q pq le b' run in
      rw (te, ce, deadline_upper) (omega arith)

  in_order :
      {E : Type 0} (ps : Policies E) (clock depth start t : ℕ) (cs : List TimePlan)
      → plan_all clock depth ps ≡ ok cs
      → clock ≤ start
      → ArePlannedBefore ps start
      → TakesInOrder ps start t
      → t ≤ (combine_series cs).upper_bound_ms
  in_order nil clock depth start t cs e le b run = omega arith
  in_order (cons p ps) clock depth start t cs e le b (inl run) =
      let (c, rest, pc, pr, ce) = plan_all-cons-ok clock depth p ps cs e in
      let first = bounded p clock depth start t c pc le b.0 run in
      rw (ce, series_total) (omega arith)
  in_order (cons p ps) clock depth start t cs e le b (inr (u, v, run, more, te)) =
      let (c, rest, pc, pr, ce) = plan_all-cons-ok clock depth p ps cs e in
      let first = bounded p clock depth start u c pc le b.0 run in
      let others =
        in_order ps clock depth (start + u) v rest pr (omega arith)
          (all_later ps start (start + u) (omega arith) b.1) more in
      rw (ce, series_total) (omega arith)

  together :
      {E : Type 0} (ps : Policies E) (clock depth start t : ℕ) (cs : List TimePlan)
      → plan_all clock depth ps ≡ ok cs
      → clock ≤ start
      → ArePlannedBefore ps start
      → TakesTogether ps start t
      → t ≤ (combine_parallel cs).upper_bound_ms
  together nil clock depth start t cs e le b run = omega arith
  together (cons p ps) clock depth start t cs e le b (u, v, run, more, te) =
      let (c, rest, pc, pr, ce) = plan_all-cons-ok clock depth p ps cs e in
      let first = bounded p clock depth start u c pc le b.0 run in
      let others = together ps clock depth start v rest pr le b.1 more in
      rw (ce, parallel_total) (omega arith)

-- If a policy has a plan, no run of it that starts after the planning takes longer than the plan's
-- upper bound, whatever its attempts, failures, jitter, hedges, timeouts and deadlines do.
pub Takes-le-upper_bound :
    {E : Type 0} (p : TimePolicy E) (clock depth start t : ℕ) (c : TimePlan)
    → plan clock depth p ≡ ok c
    → clock ≤ start
    → IsPlannedBefore p start
    → Takes p start t
    → t ≤ c.upper_bound_ms
Takes-le-upper_bound p clock depth start t c e le b run = bounded p clock depth start t c e le b run
