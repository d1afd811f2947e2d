-- ===== src/Snapshot/Totals.antt =====
-- The totals of a snapshot: `countSnapshot` of packages/core/src/engine/tree.ts and that of
-- packages/core/src/replay/index.ts.
pub mod Agreement
use workit.Prelude.{
  ℕ, suc, ◌+◌, ◌≡◌, refl, Bool, true, false, List, [], ◌∷◌, length, arith, if◌then◌else◌, ◌==◌,
}
use workit.Engine.Scope.{ScopeState, closed, TaskStatus, TaskRecord, Scope}
use workit.Snapshot.{
  TaskSnapshot, ScopeFields, ScopeSnapshot, scope_snapshot, Snapshots, no_more, child_and, Counts,
  bump, no_counts, count_tasks, snap_tasks, status,
}

-- `SnapshotTotals`: the array of the tree renderer, filled scope by scope.
pub record SnapshotTotals : Type 0 where
  pub all : ℕ
  pub succeeded : ℕ
  pub failed : ℕ
  pub cancelled : ℕ
  pub pending : ℕ

-- The array is passed on from scope to scope, and every scope adds its counts.
add_scope : ScopeFields → List TaskSnapshot → SnapshotTotals → SnapshotTotals
add_scope f ts t = record {
  all = t.all + length ts;
  succeeded = t.succeeded + f.completed_count;
  failed = t.failed + f.failed_count;
  cancelled = t.cancelled + f.cancelled_count;
  pending = t.pending + f.pending_count;
}

unfoldable mutual
  unfolding add_scope

  pub tree_totals : ScopeSnapshot → SnapshotTotals → SnapshotTotals
  tree_totals (scope_snapshot f ts children) t = tree_totals_of children (add_scope f ts t)

  pub tree_totals_of : Snapshots → SnapshotTotals → SnapshotTotals
  tree_totals_of no_more t = t
  tree_totals_of (child_and s children) t = tree_totals_of children (tree_totals s t)

-- The counters of a receipt that come from the snapshot.
pub record SnapshotCounts : Type 0 where
  pub total_tasks : ℕ
  pub pending_tasks : ℕ
  pub completed_tasks : ℕ
  pub failed_tasks : ℕ
  pub cancelled_tasks : ℕ
  pub total_scopes : ℕ
  pub pending_scopes : ℕ

is_pending_scope : ScopeState → ℕ
is_pending_scope closed = 0
is_pending_scope ScopeState.running = 1
is_pending_scope ScopeState.cancelling = 1

own_counts : ScopeFields → List TaskSnapshot → SnapshotCounts
unfolding is_pending_scope
own_counts f ts = record {
  total_tasks = length ts;
  pending_tasks = f.pending_count;
  completed_tasks = f.completed_count;
  failed_tasks = f.failed_count;
  cancelled_tasks = f.cancelled_count;
  total_scopes = 1;
  pending_scopes = is_pending_scope f.status;
}

plus_counts : SnapshotCounts → SnapshotCounts → SnapshotCounts
plus_counts a b = record {
  total_tasks = a.total_tasks + b.total_tasks;
  pending_tasks = a.pending_tasks + b.pending_tasks;
  completed_tasks = a.completed_tasks + b.completed_tasks;
  failed_tasks = a.failed_tasks + b.failed_tasks;
  cancelled_tasks = a.cancelled_tasks + b.cancelled_tasks;
  total_scopes = a.total_scopes + b.total_scopes;
  pending_scopes = a.pending_scopes + b.pending_scopes;
}

-- The reduction starts at the scope's own counters, and a child is counted before it is added.
unfoldable mutual
  unfolding own_counts plus_counts

  pub receipt_counts : ScopeSnapshot → SnapshotCounts
  receipt_counts (scope_snapshot f ts children) = reduce_counts children (own_counts f ts)

  pub reduce_counts : Snapshots → SnapshotCounts → SnapshotCounts
  reduce_counts no_more total = total
  reduce_counts (child_and s children) total =
      reduce_counts children (plus_counts total (receipt_counts s))
