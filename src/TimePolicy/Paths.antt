-- ===== src/TimePolicy/Paths.antt =====
-- The two bounds of a plan, and what cuts them (packages/core/src/time-policy/index.ts).
use workit.Prelude.{ℕ, suc, ◌-◌, ◌≡◌, refl, min, Option, List, [], ◌∷◌, All, ◌&&◌, leb, ok, arith}
use workit.Engine.Duration.{Duration, parse_duration}
use workit.Engine.Retry.{get_or}
use workit.TimePolicy.{
  TimePolicy, attempt, series, parallel, retry, hedge, timeout, deadline, Policies, nil, cons,
  TimePlan, PolicyType,
}
use workit.TimePolicy.Combine.{
  combine_series, combine_parallel, timeout_plan, deadline_plan, leaf_plan, empty_plan,
}
use workit.TimePolicy.Planner.{plan, plan_all, collect_policy_types}
use workit.TimePolicy.Inversion.{
  plan-attempt-ok, plan-series-ok, plan-parallel-ok, plan-retry-ok, plan-hedge-ok, plan-timeout-ok,
  plan-deadline-ok, plan_all-cons-ok,
}

abbrev IsTight : TimePlan → Type 0
IsTight c = c.critical_path_ms ≡ c.upper_bound_ms

series-IsTight : (cs : List TimePlan) → All IsTight cs → IsTight (combine_series cs)
unfolding combine_series empty_plan
series-IsTight [] h = refl
series-IsTight (c ∷ []) h = omega arith
series-IsTight (c ∷ d ∷ cs) h = omega (arith, h.0, series-IsTight (d ∷ cs) h.1)

parallel-IsTight : (cs : List TimePlan) → All IsTight cs → IsTight (combine_parallel cs)
unfolding combine_parallel empty_plan
parallel-IsTight [] h = refl
parallel-IsTight (c ∷ []) h = omega arith
parallel-IsTight (c ∷ d ∷ cs) h = omega (arith, h.0, parallel-IsTight (d ∷ cs) h.1)

timeout-IsTight :
    (q : TimePlan) (ts : List PolicyType) (n : ℕ) → IsTight q → IsTight (timeout_plan q ts n)
unfolding timeout_plan
timeout-IsTight q ts n h = ground arith

deadline-IsTight : (q : TimePlan) (at now : ℕ) → IsTight q → IsTight (deadline_plan q at now)
unfolding deadline_plan
deadline-IsTight q at now h = ground arith

leaf-IsTight : (n : ℕ) → IsTight (leaf_plan n)
unfolding leaf_plan
leaf-IsTight n = refl

nothing :
    (E : Type 0) (clock depth : ℕ) (cs : List TimePlan)
    → plan_all {E = E} clock depth nil ≡ ok cs
    → All IsTight cs
unfolding plan
nothing E clock depth [] e = tt
nothing E clock depth (c ∷ cs) e = cc

mutual
  tight :
      {E : Type 0} (p : TimePolicy E) (clock depth : ℕ) (c : TimePlan)
      → plan clock depth p ≡ ok c
      → IsTight c
  tight {E} (attempt d) clock depth c e =
      let (n, _, ce) = plan-attempt-ok E clock depth d c e in rw ce (leaf-IsTight n)
  tight (series ps) clock depth c e =
      let (cs, ok_cs, ce) = plan-series-ok clock depth ps c e in
      rw ce (series-IsTight cs (All-IsTight ps clock (suc depth) cs ok_cs))
  tight (parallel ps) clock depth c e =
      let (cs, ok_cs, ce) = plan-parallel-ok clock depth ps c e in
      rw ce (parallel-IsTight cs (All-IsTight ps clock (suc depth) cs ok_cs))
  tight (retry p r) clock depth c e =
      let (_, _, v) = plan-retry-ok clock depth p r c e in v.critical
  tight (hedge p d k) clock depth c e =
      let (_, _, v) = plan-hedge-ok clock depth p d k c e in v.critical
  tight (timeout d p) clock depth c e =
      let (q, n, pq, _, ce) = plan-timeout-ok clock depth d p c e in
      rw ce (timeout-IsTight q _ n (tight p clock (suc depth) q pq))
  tight (deadline at now p) clock depth c e =
      let (q, pq, ce) = plan-deadline-ok clock depth at now p c e in
      rw ce (deadline-IsTight q at _ (tight p clock (suc depth) q pq))

  All-IsTight :
      {E : Type 0} (ps : Policies E) (clock depth : ℕ) (cs : List TimePlan)
      → plan_all clock depth ps ≡ ok cs
      → All IsTight cs
  All-IsTight {E} nil clock depth cs e = nothing E clock depth cs e
  All-IsTight (cons p ps) clock depth cs e =
      let (c, rest, pc, pr, ce) = plan_all-cons-ok clock depth p ps cs e in
      rw ce (tight p clock depth c pc, All-IsTight ps clock depth rest pr)

-- The critical path of a plan is always its upper bound.
pub critical_path-eq-upper_bound :
    {E : Type 0} (p : TimePolicy E) (clock depth : ℕ) (c : TimePlan)
    → plan clock depth p ≡ ok c
    → c.critical_path_ms ≡ c.upper_bound_ms
critical_path-eq-upper_bound p clock depth c e = tight p clock depth c e

pub timeout_cut :
    (q : TimePlan) (ts : List PolicyType) (n : ℕ)
    → ((timeout_plan q ts n).upper_bound_ms ≡ min q.upper_bound_ms n)
      × ((timeout_plan q ts n).valid ≡ q.valid)
      × ((timeout_plan q ts n).attempts ≡ q.attempts)
unfolding timeout_plan
timeout_cut q ts n = ground arith

pub deadline_cut :
    (q : TimePlan) (at now : ℕ)
    → ((deadline_plan q at now).upper_bound_ms ≡ min q.upper_bound_ms (at - now))
      × ((deadline_plan q at now).valid ≡ (q.valid && leb q.upper_bound_ms (at - now)))
      × ((deadline_plan q at now).attempts ≡ q.attempts)
unfolding deadline_plan
deadline_cut q at now = ground arith

-- A timeout cuts the bound of its policy's plan at the timeout, and leaves its validity and its
-- attempts; a deadline cuts the bound at the time that is left, and its plan is valid exactly when
-- its policy's plan is valid and fits into that time.
pub timeout_deadline_cut :
    {E : Type 0} (p : TimePolicy E) (clock depth at n : ℕ) (now : Option ℕ) (d : Duration)
    (q t l : TimePlan)
    → plan clock (suc depth) p ≡ ok q
    → parse_duration d ≡ ok n
    → plan clock depth (timeout d p) ≡ ok t
    → plan clock depth (deadline at now p) ≡ ok l
    → (t.upper_bound_ms ≡ min q.upper_bound_ms n)
      × (t.valid ≡ q.valid)
      × (t.attempts ≡ q.attempts)
      × (l.upper_bound_ms ≡ min q.upper_bound_ms (at - get_or clock now))
      × (l.valid ≡ (q.valid && leb q.upper_bound_ms (at - get_or clock now)))
      × (l.attempts ≡ q.attempts)
timeout_deadline_cut p clock depth at n now d q t l pq pn pt pl =
    let (q1, n1, pq1, pn1, te) = plan-timeout-ok clock depth d p t pt in
    let (q2, pq2, le) = plan-deadline-ok clock depth at now p l pl in
    let te' : t ≡ timeout_plan q (collect_policy_types p []) n = ground arith in
    let le' : l ≡ deadline_plan q at (get_or clock now) = cc in
    let (a, b, c) = timeout_cut q (collect_policy_types p []) n in
    let (d, e, f) = deadline_cut q at (get_or clock now) in rw (te', le') (a, b, c, d, e, f)
