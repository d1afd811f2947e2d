-- ===== src/Examples/Scopes.antt =====
-- A scope with two tasks, which waits for the first and not for the cleanup of the second
-- (packages/core/src/engine/scope.ts).
use workit.Prelude.{
  ℕ, ◌≡◌, ◌≤◌, ◌⊎◌, ◌↔◌, refl, true, false, none, List, [], ◌∷◌, ◌++◌, map, All, Result, ok,
}
use workit.Run.Thrown.{failure}
use workit.Engine.Scope.{
  ScopeState, Scope, SpawnOpts, CleanupEnd, cleaning, draining, spawn, is_running,
}
use workit.Engine.Scope.Close.{all_done}
use workit.Engine.Scope.Calls.{Call, step, run, opened}
use workit.Engine.Scope.Closings.{closings, closeds, early}
use workit.Engine.Scope.Lifecycle.{run-opened-IsSound}
use workit.Engine.Scope.Drain.{IsKept, HasEnded}
use workit.Engine.Scope.Rounds.{run-waits}
use workit.Engine.Scope.Outlived.{clean_all, spawned_in_cleanup-outlives, unsettled-outlives}

abbrev anonymous : SpawnOpts
anonymous = record { name = none; idempotency_key = none; background = false }

-- `close` waits for task 1; then task 2 starts, registers a cleanup and ends before task 1.
abbrev overtaken : List (Call ℕ)
overtaken =
    Call.spawn anonymous
    ∷ Call.defer 7
    ∷ Call.close
    ∷ Call.spawn anonymous
    ∷ Call.task_defer 2 9
    ∷ Call.body_ends 2 (ok tt)
    ∷ Call.body_ends 1 (ok tt)
    ∷ Call.task_settles 1
    ∷ []

run-waits_example :
    All IsKept (run overtaken (opened ℕ)).tasks
    × ((step Call.drain (run overtaken (opened ℕ))).closing ≡ cleaning
        → ((run overtaken (opened ℕ)).closing ≡ cleaning)
          ⊎ All HasEnded (step Call.drain (run overtaken (opened ℕ))).tasks)
run-waits_example = run-waits overtaken Call.drain

unsettled-outlives_example :
    ((run (Call.drain ∷ clean_all 1) (run overtaken (opened ℕ))).state ≡ ScopeState.closed)
    × (map (λ t. t.settled) (run (Call.drain ∷ clean_all 1) (run overtaken (opened ℕ))).tasks
        ≡ true ∷ false ∷ [])
unfolding run step workit.Engine.Scope.task_settles workit.Engine.Scope.task_of
    workit.Engine.Scope.body_ends workit.Engine.Scope.task_defer spawn
    workit.Engine.Scope.Close.close workit.Engine.Scope.defer workit.Engine.Scope.update
    workit.Engine.Scope.end_status all_done
unsettled-outlives_example =
    unsettled-outlives (1 ∷ []) [] (run overtaken (opened ℕ)) refl refl (refl, (refl, tt)) refl

-- A scope that runs its cleanups, before the last one.
abbrev tidying : List (Call ℕ)
tidying = Call.defer 7 ∷ Call.close ∷ []

spawned_in_cleanup-outlives_example :
    ((run (clean_all 1 ++ []) (step (Call.spawn anonymous) (run tidying (opened ℕ)))).state
      ≡ ScopeState.closed)
    × ¬ All HasEnded
        (run (clean_all 1 ++ []) (step (Call.spawn anonymous) (run tidying (opened ℕ)))).tasks
unfolding run step workit.Engine.Scope.Close.close workit.Engine.Scope.defer spawn
spawned_in_cleanup-outlives_example =
    spawned_in_cleanup-outlives anonymous (run tidying (opened ℕ))
      (step (Call.spawn anonymous) (run tidying (opened ℕ))) 1 refl refl refl

-- The failure of a task cancels its scope, which is closed when the task has settled.
abbrev failing : List (Call ℕ)
failing =
    Call.spawn anonymous
    ∷ Call.body_ends 1 (Result.err (failure 5))
    ∷ Call.task_settles 1
    ∷ Call.close
    ∷ Call.drain
    ∷ Call.clean CleanupEnd.completed
    ∷ []

run-opened-IsSound_example :
    (closings (run failing (opened ℕ)).events ≤ 1)
    × (closeds (run failing (opened ℕ)).events ≤ closings (run failing (opened ℕ)).events)
    × (early (run failing (opened ℕ)).events ≡ 0)
    × (is_running (run failing (opened ℕ)).state ≡ true
        → (closings (run failing (opened ℕ)).events ≡ 0)
          × ((run failing (opened ℕ)).abort_reason ≡ none)
          × ((run failing (opened ℕ)).first_child_failure ≡ none))
    × (((run failing (opened ℕ)).state ≡ ScopeState.closed)
        ↔ (closeds (run failing (opened ℕ)).events ≡ 1))
run-opened-IsSound_example = run-opened-IsSound failing

failing_closed :
    ((run failing (opened ℕ)).state ≡ ScopeState.closed)
    × (closeds (run failing (opened ℕ)).events ≡ 1)
    × (closings (run failing (opened ℕ)).events ≡ 1)
unfolding run step workit.Engine.Scope.Close.clean workit.Engine.Scope.Close.drain
    workit.Engine.Scope.Close.close workit.Engine.Scope.task_settles workit.Engine.Scope.task_of
    workit.Engine.Scope.body_ends spawn workit.Engine.Scope.end_status workit.Engine.Scope.update
failing_closed = (refl, refl, refl)
