-- ===== src/TimePolicy/Totality.antt =====
-- Which policies have a plan (packages/core/src/time-policy/index.ts).
use workit.Prelude.{
  ℕ, zero, suc, ◌+◌, ◌-◌, ◌≤◌, ◌≡◌, refl, ◌∙◌, ◌↔◌, ◌⊎◌, inl, inr, le→leb, List, [], Result, ok,
  arith, >>=-eq-ok, >>=-returns,
}
use workit.Engine.Duration.{Duration, parse_duration}
use workit.Engine.Errors.{RangeError}
use workit.Engine.Retry.Bounds.{normalize_retry_times}
use workit.Engine.Retry.{Retry, RetryPolicy}
use workit.TimePolicy.{
  TimePolicy, attempt, series, parallel, retry, hedge, timeout, deadline, Policies, nil, cons,
  TimePlan, TimePlanWarning,
}
use workit.TimePolicy.Combine.{retry_plan, retry_delays, hedge_plan, estimate_retry_delay}
use workit.TimePolicy.Planner.{plan, plan_all, within_depth, with_hedges, max_policy_depth}
use workit.TimePolicy.Inversion.{
  within_depth-ok, IsRetryPlan, plan-attempt-ok, plan-series-ok, plan-parallel-ok, plan-retry-ok,
  plan-hedge-ok, plan-timeout-ok, plan-deadline-ok, plan_all-cons-ok,
}
use workit.TimePolicy.Range.{Parses, IsRetryable, IsInRange, AreInRange, height, height_all}

plan-depth :
    {E : Type 0} (p : TimePolicy E) (clock depth : ℕ) (c : TimePlan)
    → plan clock depth p ≡ ok c
    → depth ≤ max_policy_depth
unfolding plan
plan-depth (attempt d) clock depth c e = (within_depth-ok depth _ c e).0
plan-depth (series ps) clock depth c e = (within_depth-ok depth _ c e).0
plan-depth (parallel ps) clock depth c e = (within_depth-ok depth _ c e).0
plan-depth (retry p r) clock depth c e = (within_depth-ok depth _ c e).0
plan-depth (hedge p d k) clock depth c e = (within_depth-ok depth _ c e).0
plan-depth (timeout d p) clock depth c e = (within_depth-ok depth _ c e).0
plan-depth (deadline at now p) clock depth c e = (within_depth-ok depth _ c e).0

delays-parse :
    {E : Type 0} (p : RetryPolicy E) (rounds n : ℕ) (w : ℕ × List TimePlanWarning)
    → retry_delays p (suc rounds) n ≡ ok w
    → Parses p.initial_delay × Parses p.max_delay
unfolding retry_delays estimate_retry_delay
delays-parse p rounds n w e =
    let (x, ex, e1) = >>=-eq-ok (estimate_retry_delay n p) _ e in
    let (i, pi, e2) = >>=-eq-ok (parse_duration p.initial_delay) _ ex in
    let (m, pm, e3) = >>=-eq-ok (parse_duration p.max_delay) _ e2 in ((i, pi), (m, pm))

retry-IsRetryable : {E : Type 0} (q c : TimePlan) (r : Retry E) → IsRetryPlan q r c → IsRetryable r
retry-IsRetryable q c r v = (v.policy, v.normal, split (v.policy.times - 1) refl v.waits)
  where
    split :
        (k : ℕ)
        → v.policy.times - 1 ≡ k
        → retry_delays v.policy k 1 ≡ ok v.delays
        → (v.policy.times ≡ 1) ⊎ (Parses v.policy.initial_delay × Parses v.policy.max_delay)
    split zero e w = inl (omega (arith, normalize_retry_times r v.policy v.normal))
    split (suc k) e w = inr (delays-parse v.policy k 1 v.delays w)

mutual
  unfolding IsInRange height

  needs :
      {E : Type 0} (p : TimePolicy E) (clock depth : ℕ) (c : TimePlan)
      → plan clock depth p ≡ ok c
      → IsInRange p × (depth + height p ≤ max_policy_depth)
  needs {E} (attempt d) clock depth c e =
      let (n, pn, _) = plan-attempt-ok E clock depth d c e in
      ((n, pn), omega (arith, plan-depth (attempt d) clock depth c e))
  needs (series ps) clock depth c e =
      let (cs, pcs, _) = plan-series-ok clock depth ps c e in
      all_need ps clock depth cs (plan-depth (series ps) clock depth c e) pcs
  needs (parallel ps) clock depth c e =
      let (cs, pcs, _) = plan-parallel-ok clock depth ps c e in
      all_need ps clock depth cs (plan-depth (parallel ps) clock depth c e) pcs
  needs (retry p r) clock depth c e =
      let (q, pq, v) = plan-retry-ok clock depth p r c e in
      let (range, low) = needs p clock (suc depth) q pq in
      ((range, retry-IsRetryable q c r v), omega arith)
  needs (hedge p d k) clock depth c e =
      let (q, pq, v) = plan-hedge-ok clock depth p d k c e in
      let (range, low) = needs p clock (suc depth) q pq in
      ((range, (v.after_ms, v.parsed), v.some_hedge), omega arith)
  needs (timeout d p) clock depth c e =
      let (q, n, pq, pn, _) = plan-timeout-ok clock depth d p c e in
      let (range, low) = needs p clock (suc depth) q pq in ((range, (n, pn)), omega arith)
  needs (deadline at now p) clock depth c e =
      let (q, pq, _) = plan-deadline-ok clock depth at now p c e in
      let (range, low) = needs p clock (suc depth) q pq in (range, omega arith)

  all_need :
      {E : Type 0} (ps : Policies E) (clock depth : ℕ) (cs : List TimePlan)
      → depth ≤ max_policy_depth
      → plan_all clock (suc depth) ps ≡ ok cs
      → AreInRange ps × (depth + height_all ps ≤ max_policy_depth)
  all_need nil clock depth cs le e = (tt, omega arith)
  all_need (cons p ps) clock depth cs le e =
      let (c, rest, pc, pr, _) = plan_all-cons-ok clock (suc depth) p ps cs e in
      let (range, low) = needs p clock (suc depth) c pc in
      let (ranges, lows) = all_need ps clock depth rest le pr in ((range, ranges), omega arith)

within-ok :
    (depth : ℕ) (r : Result RangeError TimePlan)
    → depth ≤ max_policy_depth
    → within_depth depth r ≡ r
unfolding within_depth
within-ok depth r le = rw (le→leb _ _ le)

hedges-ok : (k : ℕ) (r : Result RangeError TimePlan) → 1 ≤ k → with_hedges k r ≡ r
unfolding with_hedges
hedges-ok k r le = rw (le→leb _ _ le)

delays-ok :
    {E : Type 0} (p : RetryPolicy E) (rounds n : ℕ)
    → Parses p.initial_delay
    → Parses p.max_delay
    → (w : ℕ × List TimePlanWarning) × (retry_delays p rounds n ≡ ok w)
unfolding retry_delays estimate_retry_delay
delays-ok p zero n i m = ((0, []), refl)
delays-ok p (suc k) n (i, pi) (m, pm) =
    let (w, e) = delays-ok p k (suc n) (i, pi) (m, pm) in
    let (x, ex) : (x : ℕ × List TimePlanWarning) × (estimate_retry_delay n p ≡ ok x) =
      >>=-returns _ _ i pi (>>=-returns _ _ m pm (_, refl)) in
    >>=-returns _ _ x ex (>>=-returns _ _ w e (_, refl))

no_delays :
    {E : Type 0} (p : RetryPolicy E) (n : ℕ)
    → p.times ≡ 1
    → (w : ℕ × List TimePlanWarning) × (retry_delays p (p.times - 1) n ≡ ok w)
unfolding retry_delays
no_delays p n e = let none_left : p.times - 1 ≡ 0 = omega arith in ((0, []), rw none_left)

hedge-ok :
    (q : TimePlan) (d : Duration) (k n : ℕ)
    → parse_duration d ≡ ok n
    → (c : TimePlan) × (hedge_plan q d k ≡ ok c)
unfolding hedge_plan
hedge-ok q d k n e = >>=-returns _ _ n e (_, refl)

retry-ok :
    {E : Type 0} (q : TimePlan) (r : Retry E)
    → IsRetryable r
    → (c : TimePlan) × (retry_plan q r ≡ ok c)
unfolding retry_plan
retry-ok q r (policy, n, ready) =
    let (w, e) : (w : ℕ × List TimePlanWarning) × (retry_delays policy (policy.times - 1) 1
          ≡ ok w) =
      elim ready [
        | inl one ↦ no_delays policy 1 one
        | inr (i, m) ↦ delays-ok policy (policy.times - 1) 1 i m
      ] in
    >>=-returns _ _ policy n (>>=-returns _ _ w e (_, refl))

abbrev Plans : {E : Type 0} → TimePolicy E → ℕ → ℕ → Type 0
Plans p clock depth = (c : TimePlan) × (plan clock depth p ≡ ok c)

guarded :
    (depth : ℕ) (r : Result RangeError TimePlan)
    → depth ≤ max_policy_depth
    → (c : TimePlan) × (r ≡ ok c)
    → (c : TimePlan) × (within_depth depth r ≡ ok c)
guarded depth r le (c, e) = (c, within-ok depth r le ∙ e)

mutual
  unfolding IsInRange height plan

  plans :
      {E : Type 0} (p : TimePolicy E) (clock depth : ℕ)
      → IsInRange p
      → depth + height p ≤ max_policy_depth
      → Plans p clock depth
  plans (attempt d) clock depth (n, pn) le =
      guarded depth _ (omega arith) (>>=-returns _ _ n pn (_, refl))
  plans (series ps) clock depth r le =
      let (cs, e) = all_plan ps clock depth r le in
      guarded depth _ (omega arith) (>>=-returns _ _ cs e (_, refl))
  plans (parallel ps) clock depth r le =
      let (cs, e) = all_plan ps clock depth r le in
      guarded depth _ (omega arith) (>>=-returns _ _ cs e (_, refl))
  plans (retry p o) clock depth (r, o_ok) le =
      let (q, e) = plans p clock (suc depth) r (omega arith) in
      guarded depth _ (omega arith) (>>=-returns _ _ q e (retry-ok q o o_ok))
  plans (hedge p d k) clock depth (r, (n, pn), one) le =
      let (q, e) = plans p clock (suc depth) r (omega arith) in
      guarded depth _ (omega arith)
        (rw (hedges-ok k _ one) (>>=-returns _ _ q e (hedge-ok q d k n pn)))
  plans (timeout d p) clock depth (r, (n, pn)) le =
      let (q, e) = plans p clock (suc depth) r (omega arith) in
      guarded depth _ (omega arith) (>>=-returns _ _ q e (>>=-returns _ _ n pn (_, refl)))
  plans (deadline at now p) clock depth r le =
      let (q, e) = plans p clock (suc depth) r (omega arith) in
      guarded depth _ (omega arith) (>>=-returns _ _ q e (_, refl))

  all_plan :
      {E : Type 0} (ps : Policies E) (clock depth : ℕ)
      → AreInRange ps
      → depth + height_all ps ≤ max_policy_depth
      → (cs : List TimePlan) × (plan_all clock (suc depth) ps ≡ ok cs)
  all_plan nil clock depth r le = ([], refl)
  all_plan (cons p ps) clock depth (r, rs) le =
      let (c, e) = plans p clock (suc depth) r (omega arith) in
      let (cs, es) = all_plan ps clock depth rs (omega arith) in
      >>=-returns _ _ c e (>>=-returns _ _ cs es (_, refl))

-- A policy has a plan exactly when each of its parts is in range (durations parse, retry policies
-- are between 1 and 1000 attempts with delays that parse if there is more than one, hedges make an
-- attempt) and it nests no deeper than 64 levels: the planner refuses nothing else.
pub plan_iff :
    {E : Type 0} (p : TimePolicy E) (clock : ℕ)
    → ((c : TimePlan) × (plan clock 0 p ≡ ok c)) ↔ (IsInRange p × (height p ≤ max_policy_depth))
plan_iff p clock = (
  (λ h. let (range, low) = needs p clock 0 h.0 h.1 in (range, omega arith)),
  (λ h. plans p clock 0 h.0 (omega arith)),
)
