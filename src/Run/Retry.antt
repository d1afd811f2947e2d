-- ===== src/Run/Retry.antt =====
-- packages/core/src/run/index.ts, `retry`, inside a task of a scope. `S` is the state that the task
-- body and its observers share. The outside world is a record: the numbers of `Math.random`, and
-- what the sleep after an attempt is rejected with, if its signal aborts.
pub mod Rounds
pub mod Attempts
use workit.Prelude.{
  ℕ, zero, suc, ◌+◌, ◌-◌, Bool, true, false, not, ◌||◌, Option, none, some, List, [], ◌∷◌, ◌++◌,
  ltb, if◌then◌else◌, Result, ok, err, ◌>>=◌,
}
use workit.Engine.Errors.{RangeError}
use workit.Engine.Retry.{Retry, RetryPolicy, budget_of, normalize_retry, compute_retry_delay}
use workit.Run.Thrown.{Thrown, range_error, budget_not_set, budget_exceeded, is_cancellation}

pub record World (X : Type 0) : Type 0 where
  pub random : ℕ → ℕ
  pub sleep : ℕ → Option (Thrown X)

pub data Outcome : Type 0 where
  succeeded failed cancelled : Outcome

-- What the wrapper does to its scope, in order: `setAttempt`, `emitAttempt` and `emitRetry`. The
-- attempts themselves are logged whether or not the wrapper owns the lifecycle.
pub data RetryEvent : Type 0 where
  invoked : ℕ → RetryEvent
  attempt_set : ℕ → RetryEvent
  attempt_ended : ℕ → Outcome → RetryEvent
  retrying : ℕ → ℕ → RetryEvent

-- A visible budget of the retry key: its limit, and what is spent.
pub record Budget : Type 0 where
  pub limit : ℕ
  pub spent : ℕ

pub record Run (X A S : Type 0) : Type 0 where
  pub result : Result (Thrown X) A
  pub state : S
  pub budget : Option Budget
  pub events : List RetryEvent

-- `ctx.consume(retryBudget, 1)`.
unfoldable pub consume_one : {X : Type 0} → Option Budget → Result (Thrown X) Budget
consume_one none = err budget_not_set
consume_one (some b) =
    if ltb b.limit (suc b.spent) then err budget_exceeded else ok (record b { spent = suc b.spent })

abbrev outcome_of : {X A : Type 0} → Result (Thrown X) A → Outcome
outcome_of (ok v) = succeeded
outcome_of (err e) = if is_cancellation e then cancelled else failed

-- The events of attempt `n`, which ended with `r`.
unfoldable pub ended_events : {X A : Type 0} → Bool → ℕ → Result (Thrown X) A → List RetryEvent
ended_events owns n r =
    if owns then attempt_set n ∷ invoked n ∷ attempt_ended n (outcome_of r) ∷ [] else invoked n ∷ []

retry_events : Bool → ℕ → ℕ → List RetryEvent
retry_events owns n delay_ms = if owns then retrying (suc n) delay_ms ∷ [] else []

unfoldable pub charged : {X : Type 0} → Bool → Option Budget → Result (Thrown X) (Option Budget)
charged false b = ok b
charged {X = X} true b = elim (consume_one {X = X} b) [ ok c ↦ ok (some c) | err e ↦ err e ]

module _ {X A S : Type 0} where
  stop : Result (Thrown X) A → S → Option Budget → List RetryEvent → Run X A S
  stop r s b l = record { result = r; state = s; budget = b; events = l }

  prepend : List RetryEvent → Run X A S → Run X A S
  prepend l r = record r { events = l ++ r.events }

  -- From the delay of the next attempt to the next round of the loop, `next`.
  wait_and :
      Bool
      → ℕ
      → S
      → Option Budget
      → List RetryEvent
      → Result RangeError ℕ
      → Option (Thrown X)
      → (Option Budget → Run X A S)
      → Run X A S
  unfolding stop prepend retry_events
  wait_and owns n s c l (err e) slept next = stop (err (range_error e)) s c l
  wait_and owns n s c l (ok d) (some e) next = stop (err e) s c (l ++ retry_events owns n d)
  wait_and owns n s c l (ok d) none next = prepend (l ++ retry_events owns n d) (next c)

  charge_and :
      RetryPolicy (Thrown X)
      → Bool
      → World X
      → ℕ
      → S
      → Option Budget
      → List RetryEvent
      → Result (Thrown X) (Option Budget)
      → (Option Budget → Run X A S)
      → Run X A S
  unfolding stop wait_and
  charge_and policy owns world n s b l (err e) next = stop (err e) s b l
  charge_and policy owns world n s b l (ok c) next =
      wait_and owns n s c l (compute_retry_delay (world.random n) n policy) (world.sleep n) next

  unfoldable pub after_attempt :
      RetryPolicy (Thrown X)
      → Bool
      → Bool
      → World X
      → ℕ
      → S
      → Option Budget
      → Result (Thrown X) A
      → (Option Budget → Run X A S)
      → Run X A S
  unfolding stop charged charge_and
  after_attempt policy budgeted owns world n s b (ok v) next =
      stop (ok v) s b (ended_events {X = X} owns n (ok v))
  after_attempt policy budgeted owns world n s b (err e) next =
      let l = ended_events {A = A} owns n (err e) in
      if is_cancellation e || not (policy.retry_if e n)
      then stop (err e) s b l
      else charge_and policy owns world n s b l (charged budgeted b) next

  -- Attempt `n`, with `rounds` more allowed after it.
  unfoldable pub retry_loop :
      RetryPolicy (Thrown X)
      → Bool
      → Bool
      → World X
      → (ℕ → S → Result (Thrown X) A × S)
      → ℕ
      → ℕ
      → S
      → Option Budget
      → Run X A S
  unfolding stop
  retry_loop policy budgeted owns world task zero n s b =
      let (r, s') = task n s in stop r s' b (ended_events owns n r)
  retry_loop policy budgeted owns world task (suc rounds) n s b =
      let (r, s') = task n s in
      after_attempt policy budgeted owns world n s' b r
        (λ c. retry_loop policy budgeted owns world task rounds (suc n) s' c)

abbrev pub is_some {ℓ} : {A : Type ℓ} → Option A → Bool
is_some none = false
is_some (some a) = true

-- The policy is checked when the task is wrapped, and the rest happens when it runs.
unfoldable pub retry :
    {X A S : Type 0}
    → Retry (Thrown X)
    → Bool
    → World X
    → (ℕ → S → Result (Thrown X) A × S)
    → S
    → Option Budget
    → Result RangeError (Run X A S)
retry opts owns world task s b = do
  policy ← normalize_retry opts
  ok (retry_loop policy (is_some (budget_of opts)) owns world task (policy.times - 1) 1 s b)
