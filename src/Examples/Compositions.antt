-- ===== src/Examples/Compositions.antt =====
-- A pool, a hedge and a supervised task (packages/core/src/run/index.ts).
use workit.Prelude.{
  ℕ, ◌+◌, ◌*◌, ◌≤◌, ◌<◌, max, ◌≡◌, refl, none, some, List, true, false, [], ◌∷◌, length, get_elem?,
  ◌==◌, if◌then◌else◌, Result, ok, err,
}
use workit.Run.Thrown.{failure}
use workit.Run.Pool.{
  mem, Pool, PoolEvent, of_task, cannot_spawn, settled, cancelled, pool, settle_tasks,
}
use workit.Run.Pool.Order.{pool-settle_tasks}
use workit.Run.Hedge.{
  Outcome, Hedge, HedgeEvent, timer, fulfilled, rejected, hedge, on_event, on_events, resolved,
}
use workit.Run.Hedge.Invariant.{IsHedge}
use workit.Run.Hedge.Settled.{IsKept, IsFulfilled, hedge-on_events}
use workit.Run.Supervise.{Body, SuperviseOpts, Outside, supervise}
use workit.Run.Supervise.Restarts.{AllRestarted, Ended, supervise-AllRestarted}

-- Three tasks on two workers, which settle as 1, 0, 2.
abbrev tenfold : ℕ → Result ℕ ℕ
tenfold i = ok (i * 10)

abbrev two_wide : Pool ℕ ℕ
two_wide = record {
  next = 2;
  busy = 1 ∷ 0 ∷ [];
  results = none ∷ none ∷ none ∷ [];
  error = none;
  cancelling = false;
}

abbrev settlements : List (PoolEvent ℕ ℕ)
settlements = settled 1 (ok 10) ∷ settled 0 (ok 0) ∷ settled 2 (ok 20) ∷ []

two_wide_started : pool false 2 3 ≡ ok two_wide
unfolding pool workit.Run.Pool.start_workers workit.Run.Pool.take_task
two_wide_started = refl

pool-settle_tasks_example :
    (length (settle_tasks 3 settlements two_wide).busy ≤ 2)
    × (length (settle_tasks 3 settlements two_wide).results ≡ 3)
    × ((e : ℕ)
        → (settle_tasks 3 settlements two_wide).error ≡ some (of_task e)
        → (j : ℕ) × (j < 3) × (tenfold j ≡ err e))
    × ((settle_tasks 3 settlements two_wide).error ≡ some cannot_spawn
        → (settle_tasks 3 settlements two_wide).cancelling ≡ true)
    × ((later : List (PoolEvent ℕ ℕ)) (j : ℕ)
        → (settle_tasks 3 settlements two_wide).cancelling ≡ true
        → mem j (settle_tasks 3 later (settle_tasks 3 settlements two_wide)).busy ≡ true
        → mem j (settle_tasks 3 settlements two_wide).busy ≡ true)
    × ((settle_tasks 3 settlements two_wide).busy ≡ []
        → (settle_tasks 3 settlements two_wide).error ≡ none
        → (j : ℕ) → j < 3
        → (v : ℕ) × (tenfold j ≡ ok v)
          × (get_elem? (settle_tasks 3 settlements two_wide).results j ≡ some (some v)))
pool-settle_tasks_example =
    pool-settle_tasks tenfold 2 3 false two_wide settlements two_wide_started
      (refl, (refl, (refl, tt)))

two_wide_done :
    ((settle_tasks 3 settlements two_wide).busy ≡ [])
    × ((settle_tasks 3 settlements two_wide).results ≡ some 0 ∷ some 10 ∷ some 20 ∷ [])
unfolding settle_tasks workit.Run.Pool.on_pool_event workit.Run.Pool.settle_task
    workit.Run.Pool.take_task
two_wide_done = (refl, refl)

-- The body of task 0 fails and cancels the scope, and its promise has not settled yet when task 1 does.
abbrev overtaken : List (PoolEvent ℕ ℕ)
overtaken = cancelled ∷ settled 1 (ok 10) ∷ settled 0 (err 404) ∷ []

two_wide_refused : (settle_tasks 3 overtaken two_wide).error ≡ some cannot_spawn
unfolding settle_tasks workit.Run.Pool.on_pool_event workit.Run.Pool.settle_task
    workit.Run.Pool.take_task
two_wide_refused = refl

-- The first attempt fails, and the second one gives 7.
abbrev one_fails : List (HedgeEvent ℕ ℕ ℕ)
one_fails = timer 2 ∷ rejected 1 404 ∷ fulfilled 2 7 ∷ []

-- The hedge after these events.
abbrev second_wins : Hedge ℕ ℕ ℕ
second_wins = on_events (max 1 2) one_fails (hedge 2 100 none)

hedge-on_events_example :
    IsHedge (max 1 2) second_wins
    × ((o : Outcome ℕ ℕ ℕ)
        → second_wins.outcome ≡ some o
        → IsKept o second_wins (on_events (max 1 2) (timer 2 ∷ []) second_wins))
    × ((k v : ℕ)
        → mem k second_wins.running ≡ true
        → second_wins.outcome ≡ none
        → (on_event (max 1 2) (fulfilled k v) second_wins).outcome ≡ some (resolved v))
    × ((v : ℕ) → second_wins.outcome ≡ some (resolved v) → IsFulfilled v one_fails)
hedge-on_events_example = hedge-on_events 2 100 none one_fails (timer 2 ∷ [])

-- A task that fails twice, by the count of its runs.
abbrev third_time : Body ℕ ℕ ℕ
third_time n = if n == 2 then (ok n, n + 1) else (err (failure n), n + 1)

abbrev defaults : SuperviseOpts ℕ
defaults = record { restart_on = none; max_restarts = none; reset_window = none; backoff = none }

abbrev calm : Outside ℕ
calm = record { random = λ n. 0; started_at = 5; now = λ n. 5 + n; sleep = λ n. none }

supervise-AllRestarted_example :
    ((supervise defaults calm third_time 0).invocations ≤ 3 + 1)
    × AllRestarted defaults calm third_time (supervise defaults calm third_time 0).invocations 0 0
    × Ended defaults calm third_time
        (supervise defaults calm third_time 0).invocations
        3
        0
        0
        (supervise defaults calm third_time 0).result
        (supervise defaults calm third_time 0).state
supervise-AllRestarted_example = supervise-AllRestarted defaults calm third_time 0
