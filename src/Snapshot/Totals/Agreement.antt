-- ===== src/Snapshot/Totals/Agreement.antt =====
-- The totals of the tree renderer and those of a receipt, and the tasks that they count.
use workit.Prelude.{
  ℕ, ◌+◌, ◌≡◌, refl, Bool, true, false, sym, ◌∙◌, List, [], ◌∷◌, ◌++◌, length, length-append, arith,
  keep,
}
use workit.Engine.Scope.{TaskStatus, TaskRecord, Scope}
use workit.Snapshot.{
  TaskSnapshot, ScopeFields, ScopeSnapshot, scope_snapshot, Snapshots, no_more, child_and, Counts,
  bump, no_counts, count_tasks, snap_tasks, status,
}
use workit.Snapshot.Totals.{
  SnapshotTotals, add_scope, tree_totals, tree_totals_of, SnapshotCounts, own_counts, plus_counts,
  receipt_counts, reduce_counts,
}

-- The counters that the tree renderer and a receipt share.
abbrev pub totals_of : SnapshotCounts → SnapshotTotals
totals_of c = record {
  all = c.total_tasks;
  succeeded = c.completed_tasks;
  failed = c.failed_tasks;
  cancelled = c.cancelled_tasks;
  pending = c.pending_tasks;
}

abbrev pub zero_totals : SnapshotTotals
zero_totals = record { all = 0; succeeded = 0; failed = 0; cancelled = 0; pending = 0 }

abbrev plus_totals : SnapshotTotals → SnapshotTotals → SnapshotTotals
plus_totals a b = record {
  all = a.all + b.all;
  succeeded = a.succeeded + b.succeeded;
  failed = a.failed + b.failed;
  cancelled = a.cancelled + b.cancelled;
  pending = a.pending + b.pending;
}

mutual
  unfolding tree_totals receipt_counts add_scope own_counts plus_counts

  tree_totals-plus :
      (s : ScopeSnapshot) (t : SnapshotTotals)
      → tree_totals s t ≡ plus_totals t (totals_of (receipt_counts s))
  tree_totals-plus (scope_snapshot f ts children) t =
      tree_totals_of-plus children (add_scope f ts t) (own_counts f ts) t refl

  tree_totals_of-plus :
      (children : Snapshots) (t : SnapshotTotals) (c : SnapshotCounts) (base : SnapshotTotals)
      → t ≡ plus_totals base (totals_of c)
      → tree_totals_of children t ≡ plus_totals base (totals_of (reduce_counts children c))
  tree_totals_of-plus no_more t c base e = e
  tree_totals_of-plus (child_and s children) t c base e =
      tree_totals_of-plus children (tree_totals s t) (plus_counts c (receipt_counts s)) base
        (tree_totals-plus s t ∙ ground arith)

-- The summary line of the rendered tree and a receipt count the same tasks in every snapshot.
pub tree_totals-receipt_counts :
    (s : ScopeSnapshot) → tree_totals s zero_totals ≡ totals_of (receipt_counts s)
tree_totals-receipt_counts s = tree_totals-plus s zero_totals ∙ ground arith

-- The scopes of a snapshot and the tasks of each, in order.
mutual
  pub tasks_of : ScopeSnapshot → List TaskSnapshot
  tasks_of (scope_snapshot f ts children) = ts ++ tasks_of_all children

  pub tasks_of_all : Snapshots → List TaskSnapshot
  tasks_of_all no_more = []
  tasks_of_all (child_and s children) = tasks_of s ++ tasks_of_all children

abbrev is_unfinished : TaskStatus → Bool
is_unfinished TaskStatus.pending = true
is_unfinished TaskStatus.running = true
is_unfinished _ = false

abbrev is_succeeded : TaskStatus → Bool
is_succeeded TaskStatus.succeeded = true
is_succeeded _ = false

abbrev is_failed : TaskStatus → Bool
is_failed TaskStatus.failed = true
is_failed _ = false

abbrev is_cancelled : TaskStatus → Bool
is_cancelled TaskStatus.cancelled = true
is_cancelled _ = false

abbrev one_if : Bool → ℕ
one_if true = 1
one_if false = 0

abbrev how_many : (TaskStatus → Bool) → List TaskSnapshot → ℕ
how_many f [] = 0
how_many f (t ∷ ts) = one_if (f t.status) + how_many f ts

-- How many tasks have each status, whatever the counters of a snapshot say.
abbrev pub tally : List TaskSnapshot → Counts
tally ts = record {
  pending = how_many is_unfinished ts;
  completed = how_many is_succeeded ts;
  failed = how_many is_failed ts;
  cancelled = how_many is_cancelled ts;
}

abbrev counts_of : ScopeFields → Counts
counts_of f = record {
  pending = f.pending_count;
  completed = f.completed_count;
  failed = f.failed_count;
  cancelled = f.cancelled_count;
}

abbrev plus : Counts → Counts → Counts
plus a b = record {
  pending = a.pending + b.pending;
  completed = a.completed + b.completed;
  failed = a.failed + b.failed;
  cancelled = a.cancelled + b.cancelled;
}

-- The counters of every scope are those of its tasks.
abbrev mutual
  pub IsTallied : ScopeSnapshot → Type 0
  IsTallied (scope_snapshot f ts children) = (counts_of f ≡ tally ts) × AllTallied children

  pub AllTallied : Snapshots → Type 0
  AllTallied no_more = Unit
  AllTallied (child_and s children) = IsTallied s × AllTallied children

how_many-append :
    (f : TaskStatus → Bool) (xs ys : List TaskSnapshot)
    → how_many f (xs ++ ys) ≡ how_many f xs + how_many f ys
how_many-append f [] ys = omega arith
how_many-append f (x ∷ xs) ys = omega (arith, how_many-append f xs ys)

tally-append : (xs ys : List TaskSnapshot) → tally (xs ++ ys) ≡ plus (tally xs) (tally ys)
tally-append xs ys = cc (
  how_many-append is_unfinished xs ys,
  how_many-append is_succeeded xs ys,
  how_many-append is_failed xs ys,
  how_many-append is_cancelled xs ys,
)

abbrev one_of : TaskStatus → Counts
one_of s = record {
  pending = one_if (is_unfinished s);
  completed = one_if (is_succeeded s);
  failed = one_if (is_failed s);
  cancelled = one_if (is_cancelled s);
}

bump-plus : (s : TaskStatus) (c d : Counts) → plus (bump s c) d ≡ plus c (plus (one_of s) d)
unfolding bump
bump-plus TaskStatus.pending c d = ground arith
bump-plus TaskStatus.running c d = ground arith
bump-plus TaskStatus.succeeded c d = ground arith
bump-plus TaskStatus.failed c d = ground arith
bump-plus TaskStatus.cancelled c d = ground arith

count_tasks-tally :
    (started : ℕ → ℕ) (ts : List TaskRecord) (c : Counts)
    → count_tasks ts c ≡ plus c (tally (snap_tasks started ts))
unfolding count_tasks snap_tasks
count_tasks-tally started [] c = ground arith
count_tasks-tally started (t ∷ ts) c =
    count_tasks-tally started ts (bump t.status c)
    ∙ bump-plus t.status c (tally (snap_tasks started ts))

one_of-total :
    (s : TaskStatus) → let c = one_of s in c.pending + c.completed + c.failed + c.cancelled ≡ 1
one_of-total TaskStatus.pending = refl
one_of-total TaskStatus.running = refl
one_of-total TaskStatus.succeeded = refl
one_of-total TaskStatus.failed = refl
one_of-total TaskStatus.cancelled = refl

tally-total :
    (ts : List TaskSnapshot)
    → let c = tally ts in length ts ≡ c.pending + c.completed + c.failed + c.cancelled
tally-total [] = omega arith
tally-total (t ∷ ts) = omega (arith, tally-total ts, one_of-total t.status)

counts_of_own :
    (f : ScopeFields) (ts : List TaskSnapshot)
    → totals_of (own_counts f ts) ≡ record {
      all = length ts;
      succeeded = f.completed_count;
      failed = f.failed_count;
      cancelled = f.cancelled_count;
      pending = f.pending_count;
    }
unfolding own_counts
counts_of_own f ts = refl

-- The totals that a list of tasks has by its statuses.
abbrev pub totals_by_status : List TaskSnapshot → SnapshotTotals
totals_by_status ts =
    let c = tally ts in
    record {
      all = length ts;
      succeeded = c.completed;
      failed = c.failed;
      cancelled = c.cancelled;
      pending = c.pending;
    }

totals_by_status-append :
    (xs ys : List TaskSnapshot)
    → totals_by_status (xs ++ ys) ≡ plus_totals (totals_by_status xs) (totals_by_status ys)
totals_by_status-append xs ys = ground (arith, tally-append xs ys, length-append xs ys)

mutual
  unfolding tree_totals add_scope tasks_of

  tree_totals-tasks :
      (s : ScopeSnapshot) (t : SnapshotTotals)
      → IsTallied s
      → tree_totals s t ≡ plus_totals t (totals_by_status (tasks_of s))
  tree_totals-tasks (scope_snapshot f ts children) t (own, rest) =
      tree_totals_of-tasks children (add_scope f ts t) rest
      ∙ ground (arith, totals_by_status-append ts (tasks_of_all children))

  tree_totals_of-tasks :
      (children : Snapshots) (t : SnapshotTotals)
      → AllTallied children
      → tree_totals_of children t ≡ plus_totals t (totals_by_status (tasks_of_all children))
  tree_totals_of-tasks no_more t h = ground arith
  tree_totals_of-tasks (child_and s children) t (first, rest) =
      tree_totals_of-tasks children (tree_totals s t) rest
      ∙ ground (
        arith,
        tree_totals-tasks s t first,
        totals_by_status-append (tasks_of s) (tasks_of_all children),
      )

status-IsTallied :
    {X : Type 0} (i : ℕ) (started : ℕ → ℕ) (s : Scope X) (children : Snapshots)
    → AllTallied children
    → IsTallied (status i started s children)
unfolding status
status-IsTallied i started s children h = (
  ground
      (arith, count_tasks-tally started (keep (λ (t : TaskRecord). t.retained) s.tasks) no_counts),
  h,
)

-- The receipt of a scope counts the tasks of its snapshot by their statuses, those of its children
-- included, if the snapshots of the children come from `status` as well: each task is pending,
-- completed, failed or cancelled, and counted once.
pub receipt_counts-status :
    {X : Type 0} (i : ℕ) (started : ℕ → ℕ) (s : Scope X) (children : Snapshots)
    → AllTallied children
    → let snapshot = status i started s children in
      let c = receipt_counts snapshot in
      IsTallied snapshot
      × (totals_of c ≡ totals_by_status (tasks_of snapshot))
      × (c.total_tasks ≡ c.pending_tasks + c.completed_tasks + c.failed_tasks + c.cancelled_tasks)
receipt_counts-status i started s children h =
    let snapshot = status i started s children in
    let tallied = status-IsTallied i started s children h in
    let same : totals_of (receipt_counts snapshot) ≡ totals_by_status (tasks_of snapshot) =
      sym (tree_totals-receipt_counts snapshot)
      ∙ tree_totals-tasks snapshot zero_totals tallied
      ∙ ground arith in
    (tallied, same, ground (arith, same, tally-total (tasks_of snapshot)))
