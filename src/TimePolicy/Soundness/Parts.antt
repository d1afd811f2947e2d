-- ===== src/TimePolicy/Soundness/Parts.antt =====
-- Each kind of policy in turn: its plan bounds a run when the plans of its parts do
-- (packages/core/src/time-policy/index.ts).
use workit.Prelude.{
  ℕ, zero, suc, ◌+◌, ◌-◌, ◌*◌, ◌≤◌, ◌<◌, ◌≡◌, refl, subst, inl, inr, min, max, Option, none, some,
  List, [], ◌∷◌, ok, arith, >>=-eq-ok,
}
use workit.Engine.Duration.{parse_duration, Duration}
use workit.Engine.Retry.{
  Retry, RetryPolicy, Backoff, fixed, linear, exponential, dynamic, random_base, raw_delay,
  compute_retry_delay, normalize_retry, get_or,
}
use workit.Engine.Retry.Bounds.{compute_backoff_delay-le, normalize_retry_times}
use workit.TimePolicy.{
  TimePolicy, attempt, series, parallel, retry, hedge, timeout, deadline, Policies, nil, cons,
  TimePlan, TimePlanWarning, PolicyType,
}
use workit.TimePolicy.Combine.{
  combine_series, combine_parallel, capped_delay, estimate_retry_delay, retry_delays, timeout_plan,
  deadline_plan, leaf_plan, empty_plan,
}
use workit.TimePolicy.Inversion.{IsRetryPlan, IsHedgePlan}
use workit.TimePolicy.Execution.{Rounds, IsPlannedBefore, ArePlannedBefore}

-- The delay of the runtime is at most the one that the planner counts.
capped :
    (n : ℕ) (b : Backoff) (i m raw : ℕ)
    → raw_delay n b i ≡ ok raw
    → min raw m ≤ (capped_delay b n i m).0
unfolding raw_delay capped_delay
capped n fixed i m raw e = ground arith
capped n linear i m raw e = ground arith
capped n exponential i m raw e = ground arith
capped n (dynamic f) i m raw e = omega arith

module _ {E : Type 0} where
  -- The runtime never waits longer before a retry than the planner counts for it.
  pub retry_delay-le-estimate :
      (rnd n d : ℕ) (p : RetryPolicy E) {w : ℕ × List TimePlanWarning}
      → rnd < random_base
      → compute_retry_delay rnd n p ≡ ok d
      → estimate_retry_delay n p ≡ ok w
      → d ≤ w.0
  unfolding compute_retry_delay estimate_retry_delay
  retry_delay-le-estimate rnd n d p {w} h e f =
      let (i, pi, e2) = >>=-eq-ok (parse_duration p.initial_delay) _ e in
      let (m, pm, e3) = >>=-eq-ok (parse_duration p.max_delay) _ e2 in
      let (raw, r, le) = compute_backoff_delay-le rnd n p.backoff i m d p.jitter e3 h in
      ground (arith, capped n p.backoff i m raw r)

  Rounds-bounded :
      (P : ℕ → ℕ → Type 0) (a : ℕ) (p : RetryPolicy E) (rounds n start t : ℕ)
      (w : ℕ × List TimePlanWarning)
      → ((s u : ℕ) → start ≤ s → P s u → u ≤ a)
      → retry_delays p rounds n ≡ ok w
      → Rounds P p rounds n start t
      → t ≤ a * suc rounds + w.0
  unfolding retry_delays
  Rounds-bounded P a p zero n start t w bound e r = ground (arith, bound start t)
  Rounds-bounded P a p (suc k) n start t w bound e (inl r) = grind (arith, bound start t)
  Rounds-bounded P a p (suc k) n start t w bound e (inr (u, d, rest, rnd, pu, lt, de, more, q)) =
      let (planned, e1, e2) = >>=-eq-ok (estimate_retry_delay n p) _ e in
      let (others, e3, e4) = >>=-eq-ok (retry_delays p k (suc n)) _ e2 in
      let sum_le =
        Rounds-bounded P a p k (suc n) (start + u + d) rest others
          (λ s v le. bound s v (omega arith)) e3 more in
      let delay_le = retry_delay-le-estimate rnd n d p lt de e1 in
      let first_le = bound start u (omega arith) pu in ground (arith, sum_le, delay_le, first_le)

  pub retry_bounded :
      (P : ℕ → ℕ → Type 0) (r : Retry E) (q c : TimePlan) (start t : ℕ) (policy : RetryPolicy E)
      → ((s u : ℕ) → start ≤ s → P s u → u ≤ q.upper_bound_ms)
      → IsRetryPlan q r c
      → normalize_retry r ≡ ok policy
      → Rounds P policy (policy.times - 1) 1 start t
      → t ≤ c.upper_bound_ms
  retry_bounded P r q c start t policy bound v n run =
      let same : policy ≡ v.policy = cc (v.normal) in
      let run' : Rounds P v.policy (v.policy.times - 1) 1 start t =
        subst (λ x. Rounds P x (x.times - 1) 1 start t) same run in
      let le = Rounds-bounded P q.upper_bound_ms v.policy _ 1 start t v.delays bound v.waits run' in
      let (some_try, _) = normalize_retry_times r v.policy v.normal in
      let times : suc (v.policy.times - 1) ≡ v.policy.times = omega arith in
      omega (arith, subst (λ k. t ≤ q.upper_bound_ms * k + v.delays.0) times le, v.upper)

pub hedge_bounded :
    (q c : TimePlan) (d : Duration) (k i n u : ℕ)
    → IsHedgePlan q d k c
    → i < k
    → parse_duration d ≡ ok n
    → u ≤ q.upper_bound_ms
    → i * n + u ≤ c.upper_bound_ms
hedge_bounded q c d k i n u v lt p le =
    let same : n ≡ v.after_ms = ground (arith, v.parsed) in
    let spread : i * n ≤ (k - 1) * n = grind arith in ground (arith, spread, v.upper, same)

mutual
  unfolding IsPlannedBefore

  pub later :
      {E : Type 0} (p : TimePolicy E) (start s : ℕ)
      → start ≤ s
      → IsPlannedBefore p start
      → IsPlannedBefore p s
  later (attempt d) start s le b = tt
  later (series ps) start s le b = all_later ps start s le b
  later (parallel ps) start s le b = all_later ps start s le b
  later (retry p r) start s le b = later p start s le b
  later (hedge p a m) start s le b = later p start s le b
  later (timeout d p) start s le b = later p start s le b
  later (deadline at none p) start s le b = later p start s le b
  later (deadline at (some now) p) start s le b = (omega arith, later p start s le b.1)

  pub all_later :
      {E : Type 0} (ps : Policies E) (start s : ℕ)
      → start ≤ s
      → ArePlannedBefore ps start
      → ArePlannedBefore ps s
  all_later nil start s le b = tt
  all_later (cons p ps) start s le b = (later p start s le b.0, all_later ps start s le b.1)

pub series_total :
    (c : TimePlan) (cs : List TimePlan)
    → (combine_series (c ∷ cs)).upper_bound_ms
      ≡ c.upper_bound_ms + (combine_series cs).upper_bound_ms
unfolding combine_series empty_plan
series_total c [] = omega arith
series_total c (d ∷ cs) = omega arith

pub parallel_total :
    (c : TimePlan) (cs : List TimePlan)
    → (combine_parallel (c ∷ cs)).upper_bound_ms
      ≡ max c.upper_bound_ms (combine_parallel cs).upper_bound_ms
unfolding combine_parallel empty_plan
parallel_total c [] = omega arith
parallel_total c (d ∷ cs) = omega arith

pub timeout_upper :
    (q : TimePlan) (ts : List PolicyType) (n : ℕ)
    → (timeout_plan q ts n).upper_bound_ms ≡ min q.upper_bound_ms n
unfolding timeout_plan
timeout_upper q ts n = ground arith

pub deadline_upper :
    (q : TimePlan) (at now : ℕ)
    → (deadline_plan q at now).upper_bound_ms ≡ min q.upper_bound_ms (at - now)
unfolding deadline_plan
deadline_upper q at now = ground arith

pub leaf_upper : (n : ℕ) → (leaf_plan n).upper_bound_ms ≡ n
unfolding leaf_plan
leaf_upper n = refl

pub planned_now :
    {E : Type 0} (at clock start : ℕ) (now : Option ℕ) (p : TimePolicy E)
    → clock ≤ start
    → IsPlannedBefore (deadline at now p) start
    → (get_or clock now ≤ start) × IsPlannedBefore p start
unfolding IsPlannedBefore
planned_now at clock start none p le b = (le, b)
planned_now at clock start (some now) p le b = (b.0, b.1)
