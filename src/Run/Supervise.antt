-- ===== src/Run/Supervise.antt =====
-- `supervise` and `fallback` of packages/core/src/run/index.ts. `S` is the state that the task bodies
-- share. What the loop reads from outside is a record: `Math.random`, the clock when an attempt has
-- failed, and what the sleep before a restart is rejected with, if its signal aborts.
pub mod Restarts
use workit.Prelude.{
  ℕ, zero, suc, ◌+◌, ◌-◌, Bool, true, false, not, ◌&&◌, ◌||◌, Option, none, some, ltb, leb,
  if◌then◌else◌, Result, ok, err,
}
use workit.Engine.Errors.{RangeError}
use workit.Engine.Retry.{Backoff, fixed, compute_backoff_delay}
use workit.Run.Thrown.{Thrown, range_error, is_cancellation}

-- `task` of a wrapper: what the body returns or throws, and the state it leaves.
abbrev pub Body : Type 0 → Type 0 → Type 0 → Type 0
Body X A S = S → Result (Thrown X) A × S

-- `fallback`.
unfoldable pub fallback : {X A S : Type 0} → Body X A S → Body X A S → Body X A S
fallback primary secondary s =
    let (r, t) = primary s in
    elim r [ ok v ↦ (ok v, t) | err e ↦ if is_cancellation e then (err e, t) else secondary t ]

pub data RestartOn (X : Type 0) : Type 0 where
  always on_error : RestartOn X
  restart_if : (Thrown X → Bool) → RestartOn X

pub record SuperviseOpts (X : Type 0) : Type 0 where
  pub restart_on : Option (RestartOn X)
  pub max_restarts : Option ℕ
  -- `resetWindow` in milliseconds, as `parseDuration` reads it.
  pub reset_window : Option ℕ
  pub backoff : Option Backoff

pub record Outside (X : Type 0) : Type 0 where
  pub random : ℕ → ℕ
  pub started_at : ℕ
  pub now : ℕ → ℕ
  pub sleep : ℕ → Option (Thrown X)

pub record Supervised (X A S : Type 0) : Type 0 where
  pub result : Result (Thrown X) A
  pub state : S
  pub invocations : ℕ

abbrev pub or_default {ℓ} : {A : Type ℓ} → Option A → A → A
or_default none d = d
or_default (some a) d = a

unfoldable pub should_restart : {X : Type 0} → Option (RestartOn X) → Thrown X → Bool
should_restart none e = true
should_restart (some always) e = true
should_restart (some on_error) e = true
should_restart (some (restart_if f)) e = f e

module _ {X : Type 0} (opts : SuperviseOpts X) (world : Outside X) where
  unfoldable pub window_expired : ℕ → Bool
  window_expired restarts =
      ltb (or_default opts.reset_window 60000) (world.now restarts - world.started_at)

  unfoldable pub restart_delay : ℕ → Result RangeError ℕ
  restart_delay restarts =
      compute_backoff_delay (world.random restarts) restarts (or_default opts.backoff fixed) 100
        30000 false

-- The restart after the failure of a body: the delay, the sleep and the next round.
unfoldable pub sleep_and :
    {X A S : Type 0}
    → S
    → Result RangeError ℕ
    → Option (Thrown X)
    → Supervised X A S
    → Supervised X A S
sleep_and s (err e) slept next = record { result = err (range_error e); state = s; invocations = 1 }
sleep_and s (ok d) (some e) next = record { result = err e; state = s; invocations = 1 }
sleep_and s (ok d) none next = record next { invocations = suc next.invocations }

module _ {X A S : Type 0} (opts : SuperviseOpts X) (world : Outside X) where
  -- What the loop does with a result of the body, and with the next round.
  unfoldable pub after_run : ℕ → S → Result (Thrown X) A → Supervised X A S → Supervised X A S
  unfolding should_restart window_expired restart_delay sleep_and
  after_run restarts t (ok v) next = record { result = ok v; state = t; invocations = 1 }
  after_run restarts t (err e) next =
      if is_cancellation e
        || (not (should_restart opts.restart_on e) || window_expired opts world restarts)
      then record { result = err e; state = t; invocations = 1 }
      else sleep_and t (restart_delay opts world (suc restarts)) (world.sleep (suc restarts)) next

  -- The loop after so many restarts, with so many left before `restarts >= maxRestarts`.
  unfoldable pub supervise_loop : Body X A S → (left restarts : ℕ) → S → Supervised X A S
  unfolding after_run
  supervise_loop task zero restarts s =
      let (r, t) = task s in record { result = r; state = t; invocations = 1 }
  supervise_loop task (suc left) restarts s =
      let (r, t) = task s in
      let next = supervise_loop task left (suc restarts) t in after_run restarts t r next

  unfoldable pub supervise : Body X A S → S → Supervised X A S
  unfolding supervise_loop
  supervise task s = supervise_loop task (or_default opts.max_restarts 3) 0 s
