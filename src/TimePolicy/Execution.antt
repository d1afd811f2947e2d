-- ===== src/TimePolicy/Execution.antt =====
-- How long a run of a policy can take: a description of the run wrappers (packages/core/src/run/index.ts:
-- series, parallel, retry, hedge, timeout, deadline) that does not mention the planner.
use workit.Prelude.{ℕ, zero, suc, ◌+◌, ◌-◌, ◌*◌, ◌≤◌, ◌<◌, ◌≡◌, ◌⊎◌, min, max, none, some, ok}
use workit.Engine.Duration.{parse_duration}
use workit.Engine.Retry.{RetryPolicy, random_base, compute_retry_delay, normalize_retry}
use workit.TimePolicy.{
  TimePolicy, attempt, series, parallel, retry, hedge, timeout, deadline, Policies, nil, cons,
}

-- A retry loop that stands before attempt `n`, with `rounds` more attempts allowed: the attempt
-- ends the loop, or fails, and then the delay and the rest follow. `P` says how long an attempt that
-- starts at a time can take.
abbrev pub Rounds : {E : Type 0} → (ℕ → ℕ → Type 0) → RetryPolicy E → ℕ → ℕ → ℕ → ℕ → Type 0
Rounds P policy zero n start t = P start t
Rounds P policy (suc rounds) n start t =
    P start t
    ⊎ ((u : ℕ) × (d : ℕ) × (rest : ℕ) × (rnd : ℕ) × P start u
        × (rnd < random_base)
        × (compute_retry_delay rnd n policy ≡ ok d)
        × Rounds P policy rounds (suc n) (start + u + d) rest
        × (t ≡ u + d + rest))

-- `Takes p start t`: a run of `p` that starts at `start` can take `t`.
-- A series stops at its first failure. The parts of a parallel run start together, and the run ends
-- with the last. A hedge ends with one of its attempts, the i-th of which starts i delays after the
-- first. A timeout cuts the run short, and a deadline at what is left until it.
unfoldable mutual
  pub Takes : {E : Type 0} → TimePolicy E → ℕ → ℕ → Type 0
  Takes (attempt d) start t = (n : ℕ) × (parse_duration d ≡ ok n) × (t ≤ n)
  Takes (series ps) start t = TakesInOrder ps start t
  Takes (parallel ps) start t = TakesTogether ps start t
  Takes {E} (retry p r) start t =
      (policy : RetryPolicy E) × (normalize_retry r ≡ ok policy)
      × Rounds (λ s u. Takes p s u) policy (policy.times - 1) 1 start t
  Takes (hedge p after max_hedges) start t =
      (i : ℕ) × (n : ℕ) × (u : ℕ) × (i < max_hedges)
      × (parse_duration after ≡ ok n)
      × Takes p (start + i * n) u
      × (t ≡ i * n + u)
  Takes (timeout d p) start t =
      (n : ℕ) × (u : ℕ) × (parse_duration d ≡ ok n) × Takes p start u × (t ≡ min u n)
  Takes (deadline at now p) start t = (u : ℕ) × Takes p start u × (t ≡ min u (at - start))

  pub TakesInOrder : {E : Type 0} → Policies E → ℕ → ℕ → Type 0
  TakesInOrder nil start t = t ≡ 0
  TakesInOrder (cons p ps) start t =
      Takes p start t
      ⊎ ((u : ℕ) × (v : ℕ) × Takes p start u × TakesInOrder ps (start + u) v × (t ≡ u + v))

  pub TakesTogether : {E : Type 0} → Policies E → ℕ → ℕ → Type 0
  TakesTogether nil start t = t ≡ 0
  TakesTogether (cons p ps) start t =
      (u : ℕ) × (v : ℕ) × Takes p start u × TakesTogether ps start v × (t ≡ max u v)

-- The run starts no earlier than any `now` that a deadline was planned with.
unfoldable mutual
  pub IsPlannedBefore : {E : Type 0} → TimePolicy E → ℕ → Type 0
  IsPlannedBefore (attempt d) start = Unit
  IsPlannedBefore (series ps) start = ArePlannedBefore ps start
  IsPlannedBefore (parallel ps) start = ArePlannedBefore ps start
  IsPlannedBefore (retry p r) start = IsPlannedBefore p start
  IsPlannedBefore (hedge p a m) start = IsPlannedBefore p start
  IsPlannedBefore (timeout d p) start = IsPlannedBefore p start
  IsPlannedBefore (deadline at none p) start = IsPlannedBefore p start
  IsPlannedBefore (deadline at (some now) p) start = (now ≤ start) × IsPlannedBefore p start

  pub ArePlannedBefore : {E : Type 0} → Policies E → ℕ → Type 0
  ArePlannedBefore nil start = Unit
  ArePlannedBefore (cons p ps) start = IsPlannedBefore p start × ArePlannedBefore ps start
