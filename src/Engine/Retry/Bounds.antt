-- ===== src/Engine/Retry/Bounds.antt =====
-- What a retry policy guarantees (packages/core/src/engine/retry.ts).
use native.Mathlib.Nat.{div-le_of_le-mul}
use workit.Prelude.{ℕ, ◌+◌, ◌*◌, ◌≤◌, ◌<◌, ◌≡◌, sym, ap, Bool, true, min, ok, arith, >>=-eq-ok}
use workit.Engine.Duration.{parse_duration}
use workit.Engine.Duration.Grammar.{parse_duration_bounded}
use workit.Engine.Retry.{
  Retry, RetryOpts, with_defaults, raw, RetryPolicy, options, get_or, validate_retry_policy,
  Backoff, random_base, jittered, raw_delay, compute_backoff_delay, compute_retry_delay,
  normalize_retry, max_retry_attempts,
}

-- Jitter only shortens a delay.
pub jittered-le : (rnd delay : ℕ) → rnd < random_base → jittered rnd delay ≤ delay
unfolding jittered
jittered-le rnd delay h =
    div-le_of_le-mul (2 * random_base)
      (grow delay (random_base + rnd) (2 * random_base) (omega arith))
  where
    grow : (d a b : ℕ) → a ≤ b → d * a ≤ b * d
    grow d a b le = grind arith

pub compute_backoff_delay-le :
    (rnd n : ℕ) (b : Backoff) (initial max_ms d : ℕ) (jitter : Bool)
    → compute_backoff_delay rnd n b initial max_ms jitter ≡ ok d
    → rnd < random_base
    → (raw : ℕ) × (raw_delay n b initial ≡ ok raw) × (d ≤ min raw max_ms)
unfolding compute_backoff_delay
compute_backoff_delay-le rnd n b initial max_ms d jitter e h =
    let (raw, r, k) = >>=-eq-ok (raw_delay n b initial) _ e in
    (raw, r, ground (arith, jittered-le rnd (min raw max_ms)))

-- A delay is never above the policy's cap, whatever the backoff and the jitter are, and so is never
-- longer than a timer can wait.
pub compute_retry_delay_bounded :
    {E : Type 0} (rnd n d : ℕ) (p : RetryPolicy E)
    → compute_retry_delay rnd n p ≡ ok d
    → rnd < random_base
    → (m : ℕ) × (parse_duration p.max_delay ≡ ok m) × (d ≤ m) × (m ≤ 2147483647)
unfolding compute_retry_delay
compute_retry_delay_bounded rnd n d p e h =
    let (i, pi, e2) = >>=-eq-ok (parse_duration p.initial_delay) _ e in
    let (m, pm, e3) = >>=-eq-ok (parse_duration p.max_delay) _ e2 in
    let (raw, r, le) = compute_backoff_delay-le rnd n p.backoff i m d p.jitter e3 h in
    (m, pm, omega arith, parse_duration_bounded p.max_delay m pm)

pub normalize_retry_times :
    {E : Type 0} (r : Retry E) (p : RetryPolicy E)
    → normalize_retry r ≡ ok p
    → (1 ≤ p.times) × (p.times ≤ max_retry_attempts)
unfolding normalize_retry
normalize_retry_times (Retry.attempts n) p e = ground arith
normalize_retry_times (Retry.options o) p e = ground arith

pub normalize_retry_options :
    {E : Type 0} (o : RetryOpts E) (p : RetryPolicy E)
    → normalize_retry (options o) ≡ ok p
    → (p.times ≡ o.times) × (p.retry_if ≡ get_or (λ _ _. true) o.retry_if)
unfolding normalize_retry with_defaults raw
normalize_retry_options o p e =
    let (u, e1, e2) = >>=-eq-ok (validate_retry_policy (options o)) _ e in
    let same : with_defaults (raw (options o)) ≡ p = cc in
    (sym (ap (λ q. q.times) same), sym (ap (λ q. q.retry_if) same))
