-- ===== src/TimePolicy/Demand.antt =====
-- The retry demand that is checked against budgets is within the attempts that a plan counts
-- (packages/core/src/time-policy/index.ts).
use workit.Prelude.{
  ℕ, zero, suc, ◌+◌, ◌-◌, ◌*◌, ◌≤◌, ◌<◌, ◌≡◌, refl, ap, Option, none, some, List, [], ◌∷◌, ok,
  arith, >>=-eq-ok,
}
use workit.Engine.Retry.{Retry, budget_of, RetryPolicy, normalize_retry}
use workit.Engine.Retry.Bounds.{normalize_retry_times}
use workit.TimePolicy.{
  TimePolicy, attempt, series, parallel, retry, hedge, timeout, deadline, Policies, nil, cons,
  TimePlan,
}
use workit.TimePolicy.Paths.{timeout_cut, deadline_cut}
use workit.TimePolicy.Combine.{total, combine_series, combine_parallel, leaf_plan}
use workit.TimePolicy.Planner.{plan, plan_all}
use workit.TimePolicy.Budget.{
  Demand, add_retry_demand, charge, bounded_product, collect_demand, collect_all_demand,
}
use workit.TimePolicy.Inversion.{
  plan-attempt-ok, plan-series-ok, plan-parallel-ok, plan-retry-ok, plan-hedge-ok, plan-timeout-ok,
  plan-deadline-ok, plan_all-cons-ok,
}

-- All retries that a demand asks for.
abbrev pub demanded : Demand → ℕ
demanded [] = 0
demanded ((k, n) ∷ d) = n + demanded d

-- No series and no parallel composition in the policy is empty.
unfoldable mutual
  pub IsFilled : {E : Type 0} → TimePolicy E → Type 0
  IsFilled (attempt d) = Unit
  IsFilled (series nil) = ⊥
  IsFilled (series (cons p ps)) = IsFilled p × AreFilled ps
  IsFilled (parallel nil) = ⊥
  IsFilled (parallel (cons p ps)) = IsFilled p × AreFilled ps
  IsFilled (retry p r) = IsFilled p
  IsFilled (hedge p d k) = IsFilled p
  IsFilled (timeout d p) = IsFilled p
  IsFilled (deadline at now p) = IsFilled p

  pub AreFilled : {E : Type 0} → Policies E → Type 0
  AreFilled nil = Unit
  AreFilled (cons p ps) = IsFilled p × AreFilled ps

add-demanded :
    (d : Demand) (key : List ℕ) (n : ℕ) → demanded (add_retry_demand d key n) ≤ demanded d + n
unfolding add_retry_demand
add-demanded [] key n = omega arith
add-demanded ((k, m) ∷ d) key n = ground (arith, add-demanded d key n)

charge-demanded :
    (b : Option (List ℕ)) (times m : ℕ) (d : Demand)
    → demanded (charge b times m d) ≤ demanded d + (times - 1) * m
unfolding charge
charge-demanded none times m d = omega arith
charge-demanded (some key) times m d =
    omega (arith, add-demanded d key (bounded_product (times - 1) m))

-- One loop inside another: `a` attempts inside, `t` rounds outside.
nest : (a t m m' : ℕ) → 1 ≤ a → 1 ≤ t → m' ≤ m * t → (t - 1) * m + (a - 1) * m' ≤ (a * t - 1) * m
nest zero t m m' h k le = elim h [ ]
nest (suc a) zero m m' h k le = elim k [ ]
nest (suc a) (suc t) m m' h k le =
    let rounds : suc t - 1 ≡ t = omega arith in
    let tries : suc a - 1 ≡ a = omega arith in
    let all_tries : suc a * suc t - 1 ≡ a * t + a + t = omega arith in
    rw (rounds, tries, all_tries) (omega (arith, scaled a m' (m * suc t) le))
  where
    scaled : (a x y : ℕ) → x ≤ y → a * x ≤ a * y
    scaled a x y xy = grind arith

join : (a b m x y z : ℕ) → 1 ≤ a → y ≤ x + (a - 1) * m → z ≤ y + b * m → z ≤ x + (a + b - 1) * m
join zero b m x y z h p q = elim h [ ]
join (suc a) b m x y z h p q =
    let first : suc a - 1 ≡ a = omega arith in
    let both : suc a + b - 1 ≡ a + b = omega arith in rw both (omega (arith, ap (λ k. k * m) first))

loosen : (a m x z : ℕ) → z ≤ x + (a - 1) * m → z ≤ x + a * m
loosen a m x z h = omega (arith, shrink a m)
  where
    shrink : (a m : ℕ) → (a - 1) * m ≤ a * m
    shrink a m = grind arith

series_attempts :
    (c : TimePlan) (cs : List TimePlan)
    → (combine_series (c ∷ cs)).attempts ≡ c.attempts + total (λ x. x.attempts) cs
unfolding combine_series
series_attempts c cs = refl

parallel_attempts :
    (c : TimePlan) (cs : List TimePlan)
    → (combine_parallel (c ∷ cs)).attempts ≡ c.attempts + total (λ x. x.attempts) cs
unfolding combine_parallel
parallel_attempts c cs = refl

leaf_attempts : (n : ℕ) → (leaf_plan n).attempts ≡ 1
unfolding leaf_plan
leaf_attempts n = refl

-- What the demand of one policy may add, and that it makes an attempt.
abbrev Fits : Demand → Demand → ℕ → ℕ → Type 0
Fits before after a m = (1 ≤ a) × (demanded after ≤ demanded before + (a - 1) * m)

retry_fits :
    (d e f : Demand) (a t m m' : ℕ)
    → 1 ≤ t
    → m' ≤ m * t
    → demanded e ≤ demanded d + (t - 1) * m
    → Fits e f a m'
    → Fits d f (a * t) m
retry_fits d e f a t m m' h le k (one, fit) = (grind arith, omega (arith, nest a t m m' one h le))

same_times :
    {E : Type 0} (r : Retry E) (p q : RetryPolicy E)
    → normalize_retry r ≡ ok p
    → normalize_retry r ≡ ok q
    → p ≡ q
same_times r p q e f = cc

cons_fits :
    (d mid e : Demand) (a b m : ℕ)
    → Fits d mid a m
    → demanded e ≤ demanded mid + b * m
    → Fits d e (a + b) m
cons_fits d mid e a b m (one, le) h =
    (omega arith, join a b m (demanded d) (demanded mid) (demanded e) one le h)

mutual
  unfolding IsFilled collect_demand

  fits :
      {E : Type 0} (p : TimePolicy E) (clock depth m : ℕ) (d e : Demand) (c : TimePlan)
      → IsFilled p
      → plan clock depth p ≡ ok c
      → collect_demand p m d ≡ ok e
      → Fits d e c.attempts m
  fits {E} (attempt a) clock depth m d e c f pc de =
      let (n, _, ce) = plan-attempt-ok E clock depth a c pc in
      let same : d ≡ e = cc in rw (ce, ← same, leaf_attempts) (omega arith)
  fits (series nil) clock depth m d e c f pc de = absurd f
  fits (series (cons p ps)) clock depth m d e c f pc de =
      let (cs, pcs, ce) = plan-series-ok clock depth (cons p ps) c pc in
      let (first, rest, p1, p2, cse) = plan_all-cons-ok clock (suc depth) p ps cs pcs in
      let (mid, d1, d2) = >>=-eq-ok (collect_demand p m d) _ de in
      let one = fits p clock (suc depth) m d mid first f.0 p1 d1 in
      let others = fits_all ps clock (suc depth) m mid e rest f.1 p2 d2 in
      rw (ce, cse, series_attempts) (cons_fits d mid e first.attempts _ m one others)
  fits (parallel nil) clock depth m d e c f pc de = absurd f
  fits (parallel (cons p ps)) clock depth m d e c f pc de =
      let (cs, pcs, ce) = plan-parallel-ok clock depth (cons p ps) c pc in
      let (first, rest, p1, p2, cse) = plan_all-cons-ok clock (suc depth) p ps cs pcs in
      let (mid, d1, d2) = >>=-eq-ok (collect_demand p m d) _ de in
      let one = fits p clock (suc depth) m d mid first f.0 p1 d1 in
      let others = fits_all ps clock (suc depth) m mid e rest f.1 p2 d2 in
      rw (ce, cse, parallel_attempts) (cons_fits d mid e first.attempts _ m one others)
  fits (retry p r) clock depth m d e c f pc de =
      let (q, pq, v) = plan-retry-ok clock depth p r c pc in
      let (policy, n, de') = >>=-eq-ok (normalize_retry r) _ de in
      let same : policy ≡ v.policy = cc (v.normal) in
      let times : policy.times ≡ v.policy.times = ap (λ x. x.times) same in
      let (some_try, _) = normalize_retry_times r policy n in
      let inner =
        fits p clock (suc depth) (bounded_product m policy.times)
          (charge (budget_of r) policy.times m d) e q f pq de' in
      rw (v.tries, ← times)
        (retry_fits d _ e q.attempts policy.times m (bounded_product m policy.times) some_try
          (omega arith) (charge-demanded (budget_of r) policy.times m d) inner)
  fits (hedge p a k) clock depth m d e c f pc de =
      let (q, pq, v) = plan-hedge-ok clock depth p a k c pc in
      let inner = fits p clock (suc depth) (bounded_product m k) d e q f pq de in
      rw v.tries (
        retry_fits d d e q.attempts k m (bounded_product m k) v.some_hedge (omega arith)
          (omega arith) inner)
  fits (timeout a p) clock depth m d e c f pc de =
      let (q, n, pq, _, ce) = plan-timeout-ok clock depth a p c pc in
      rw (ce, (timeout_cut q _ n).2) (fits p clock (suc depth) m d e q f pq de)
  fits (deadline at now p) clock depth m d e c f pc de =
      let (q, pq, ce) = plan-deadline-ok clock depth at now p c pc in
      rw (ce, (deadline_cut q at _).2) (fits p clock (suc depth) m d e q f pq de)

  fits_all :
      {E : Type 0} (ps : Policies E) (clock depth m : ℕ) (d e : Demand) (cs : List TimePlan)
      → AreFilled ps
      → plan_all clock depth ps ≡ ok cs
      → collect_all_demand ps m d ≡ ok e
      → demanded e ≤ demanded d + total (λ x. x.attempts) cs * m
  fits_all nil clock depth m d e cs f pcs de = let same : d ≡ e = cc in rw same (omega arith)
  fits_all (cons p ps) clock depth m d e cs (f, fs) pcs de =
      let (c, rest, p1, p2, ce) = plan_all-cons-ok clock depth p ps cs pcs in
      let (mid, d1, d2) = >>=-eq-ok (collect_demand p m d) _ de in
      let (one, first) = fits p clock depth m d mid c f p1 d1 in
      let others = fits_all ps clock depth m mid e rest fs p2 d2 in
      let both = join c.attempts _ m (demanded d) (demanded mid) (demanded e) one first others in
      rw ce (loosen _ m (demanded d) (demanded e) both)

-- In a policy with no empty composition, all the retries that are checked against budgets, of all
-- keys together, are among the attempts beyond the first that the plan counts.
pub demanded-lt-attempts :
    {E : Type 0} (p : TimePolicy E) (clock depth : ℕ) (d : Demand) (c : TimePlan)
    → IsFilled p
    → plan clock depth p ≡ ok c
    → collect_demand p 1 [] ≡ ok d
    → demanded d < c.attempts
demanded-lt-attempts p clock depth d c f pc de =
    let (one, le) = fits p clock depth 1 [] d c f pc de in omega arith
