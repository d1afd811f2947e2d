-- ===== src/Examples/Snapshots.antt =====
-- The snapshot of a scope with a child, and its diagnosis (packages/core/src/engine/scope.ts,
-- packages/core/src/replay/index.ts, packages/core/src/diagnostics/index.ts).
use workit.Prelude.{ℕ, ◌+◌, ◌≡◌, ◌↔◌, refl, false, none, some, List, [], ◌∷◌, length, take, ltb, ok}
use workit.Engine.Scope.{ScopeState, SpawnOpts, TaskStatus, Scope}
use workit.Engine.Scope.Calls.{Call, run, opened}
use workit.Events.{TaskEvent, task_cleanup_timeout}
use workit.Snapshot.{ScopeSnapshot, scope_snapshot, Snapshots, no_more, child_and, status}
use workit.Snapshot.Totals.{receipt_counts}
use workit.Snapshot.Totals.Agreement.{
  totals_of, totals_by_status, tasks_of, IsTallied, receipt_counts-status,
}
use workit.Snapshot.Diagnostics.{Options, diagnose_snapshot, healthy}
use workit.Snapshot.Diagnostics.Codes.{by_code, codes_of}
use workit.Snapshot.Diagnostics.Findings.{findings_of, diagnose_snapshot-findings}

-- A child scope with a task that runs since 100.
abbrev child : ScopeSnapshot
child =
    scope_snapshot
      (record {
        id = 2;
        status = ScopeState.running;
        pending_count = 1;
        completed_count = 0;
        failed_count = 0;
        cancelled_count = 0;
      })
      (record { id = 7; status = TaskStatus.running; started_at = 100 } ∷ []) no_more

abbrev anonymous : SpawnOpts
anonymous = record { name = none; idempotency_key = none; background = false }

-- A scope with one task that has succeeded, and one that has not.
abbrev busy : Scope ℕ
busy = run (Call.spawn anonymous ∷ Call.spawn anonymous ∷ Call.body_ends 1 (ok tt) ∷ []) (opened ℕ)

abbrev parent : ScopeSnapshot
parent = status 1 (λ t. 100) busy (child_and child no_more)

receipt_counts-status_example :
    IsTallied parent
    × (totals_of (receipt_counts parent) ≡ totals_by_status (tasks_of parent))
    × ((receipt_counts parent).total_tasks
        ≡ (receipt_counts parent).pending_tasks
          + (receipt_counts parent).completed_tasks
          + (receipt_counts parent).failed_tasks
          + (receipt_counts parent).cancelled_tasks)
unfolding workit.Snapshot.bump
receipt_counts-status_example =
    receipt_counts-status 1 (λ t. 100) busy (child_and child no_more) ((refl, tt), tt)

-- Read at 40,000, with room for one finding.
abbrev reading : Options
reading = record { now = 40000; stale_task_ms = none; max_findings = some 1 }

abbrev timeouts : List (TaskEvent ℕ ℕ)
timeouts = task_cleanup_timeout 7 50 39000 ∷ []

diagnose_snapshot-findings_example :
    ((diagnose_snapshot parent timeouts reading).findings
      ≡ take 1 (findings_of parent timeouts reading))
    × ((diagnose_snapshot parent timeouts reading).truncated
        ≡ ltb 1 (length (findings_of parent timeouts reading)))
    × (codes_of (diagnose_snapshot parent timeouts reading).summary
        ≡ by_code (findings_of parent timeouts reading))
    × (((diagnose_snapshot parent timeouts reading).status ≡ healthy)
        ↔ (findings_of parent timeouts reading ≡ []))
diagnose_snapshot-findings_example = diagnose_snapshot-findings parent timeouts reading
