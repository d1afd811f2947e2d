-- ===== src/Snapshot.antt =====
-- `TaskSnapshot` and `ScopeSnapshot` of packages/core/src/types/index.ts, and `status` of
-- packages/core/src/engine/scope.ts, which makes them. Names, progress and metadata of tasks are left
-- out, and so are the times of scopes.
pub mod Totals
pub mod Diagnostics
use workit.Prelude.{
  ℕ, suc, ◌+◌, Bool, Option, none, some, List, [], ◌∷◌, length, keep, if◌then◌else◌,
}
use workit.Engine.Scope.{ScopeState, TaskStatus, pending, succeeded, failed, TaskRecord, Scope}

pub record TaskSnapshot : Type 0 where
  pub id : ℕ
  pub status : TaskStatus
  pub started_at : ℕ

-- The fields of a `ScopeSnapshot` but its tasks and its children.
pub record ScopeFields : Type 0 where
  pub id : ℕ
  pub status : ScopeState
  pub pending_count : ℕ
  pub completed_count : ℕ
  pub failed_count : ℕ
  pub cancelled_count : ℕ

mutual
  pub data ScopeSnapshot : Type 0 where
    scope_snapshot : ScopeFields → List TaskSnapshot → Snapshots → ScopeSnapshot

  pub data Snapshots : Type 0 where
    no_more : Snapshots
    child_and : ScopeSnapshot → Snapshots → Snapshots

-- `statusBuckets`, with the counters.
pub record Counts : Type 0 where
  pub pending : ℕ
  pub completed : ℕ
  pub failed : ℕ
  pub cancelled : ℕ

abbrev pub no_counts : Counts
no_counts = record { pending = 0; completed = 0; failed = 0; cancelled = 0 }

unfoldable pub bump : TaskStatus → Counts → Counts
bump TaskStatus.pending c = record c { pending = suc c.pending }
bump TaskStatus.running c = record c { pending = suc c.pending }
bump succeeded c = record c { completed = suc c.completed }
bump TaskStatus.failed c = record c { failed = suc c.failed }
bump TaskStatus.cancelled c = record c { cancelled = suc c.cancelled }

-- The loop of `status` over the tasks of the map, with `started` for their start times.
unfoldable pub count_tasks : List TaskRecord → Counts → Counts
unfolding bump
count_tasks [] c = c
count_tasks (t ∷ ts) c = count_tasks ts (bump t.status c)

unfoldable pub snap_tasks : (ℕ → ℕ) → List TaskRecord → List TaskSnapshot
snap_tasks started [] = []
snap_tasks started (t ∷ ts) =
    record { id = t.id; status = t.status; started_at = started t.id } ∷ snap_tasks started ts

-- `status` of the scope with a number, given the snapshots of its child scopes.
unfoldable pub status : {X : Type 0} → ℕ → (ℕ → ℕ) → Scope X → Snapshots → ScopeSnapshot
unfolding count_tasks snap_tasks
status i started s children =
    let tasks = keep (λ (t : TaskRecord). t.retained) s.tasks in
    let counts = count_tasks tasks no_counts in
    scope_snapshot
      (record {
        id = i;
        status = s.state;
        pending_count = counts.pending;
        completed_count = counts.completed;
        failed_count = counts.failed;
        cancelled_count = counts.cancelled;
      })
      (snap_tasks started tasks) children
