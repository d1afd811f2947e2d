-- ===== src/Snapshot/Diagnostics/Codes.antt =====
-- The findings of a snapshot, read off it, and their number by code
-- (packages/core/src/diagnostics/index.ts).
use workit.Prelude.{
  ℕ, suc, ◌+◌, ◌-◌, ◌≡◌, Bool, false, not, ◌&&◌, List, [], ◌∷◌, ◌++◌, length, arith, ltb,
  if◌then◌else◌,
}
use workit.Events.{TaskEvent, task_cleanup_timeout, scope_cleanup_timeout}
use workit.Snapshot.{
  TaskSnapshot, ScopeFields, ScopeSnapshot, scope_snapshot, Snapshots, no_more, child_and,
}
use workit.Snapshot.Diagnostics.{
  Finding, old_pending_task, pending_child_scope, scope_cancelling, cleanup_timeout_of_task,
  cleanup_timeout_of_scope, Summary, is_pending, is_cancelling, is_closed,
}

-- The findings of a snapshot and of an event window, without a bound.
abbrev pub of_task : ℕ → ℕ → ℕ → TaskSnapshot → List Finding
of_task now stale scope t =
    if is_pending t.status && not (ltb (now - t.started_at) stale)
    then old_pending_task scope t.id (now - t.started_at) ∷ []
    else []

abbrev pub of_tasks : ℕ → ℕ → ℕ → List TaskSnapshot → List Finding
of_tasks now stale scope [] = []
of_tasks now stale scope (t ∷ ts) = of_task now stale scope t ++ of_tasks now stale scope ts

abbrev pub of_scope : Bool → ScopeFields → List Finding
of_scope is_root f =
    (if is_cancelling f.status then scope_cancelling f.id ∷ [] else [])
    ++ (if not is_root && not (is_closed f.status) then pending_child_scope f.id ∷ [] else [])

unfoldable mutual
  pub of_snapshot : ℕ → ℕ → Bool → ScopeSnapshot → List Finding
  of_snapshot now stale is_root (scope_snapshot f ts children) =
      of_scope is_root f ++ (of_tasks now stale f.id ts ++ of_children now stale children)

  pub of_children : ℕ → ℕ → Snapshots → List Finding
  of_children now stale no_more = []
  of_children now stale (child_and c children) =
      of_snapshot now stale false c ++ of_children now stale children

unfoldable pub of_events : {E V : Type 0} → List (TaskEvent E V) → List Finding
of_events [] = []
of_events (task_cleanup_timeout t ms at ∷ es) = cleanup_timeout_of_task t ms at ∷ of_events es
of_events (scope_cleanup_timeout i ms at ∷ es) = cleanup_timeout_of_scope i ms at ∷ of_events es
of_events (_ ∷ es) = of_events es

-- How many findings of each code a list has.
pub record ByCode : Type 0 where
  pub old_pending_tasks : ℕ
  pub pending_child_scopes : ℕ
  pub cancelling_scopes : ℕ
  pub cleanup_timeouts : ℕ

abbrev pub by_code : List Finding → ByCode
by_code [] = record {
  old_pending_tasks = 0;
  pending_child_scopes = 0;
  cancelling_scopes = 0;
  cleanup_timeouts = 0;
}
by_code (f ∷ fs) =
    let c = by_code fs in
    elim f [
      | old_pending_task _ _ _ ↦ record c { old_pending_tasks = suc c.old_pending_tasks }
      | pending_child_scope _ ↦ record c { pending_child_scopes = suc c.pending_child_scopes }
      | scope_cancelling _ ↦ record c { cancelling_scopes = suc c.cancelling_scopes }
      | cleanup_timeout_of_task _ _ _ ↦ record c { cleanup_timeouts = suc c.cleanup_timeouts }
      | cleanup_timeout_of_scope _ _ _ ↦ record c { cleanup_timeouts = suc c.cleanup_timeouts }
    ]

abbrev pub codes_of : Summary → ByCode
codes_of s = record {
  old_pending_tasks = s.old_pending_tasks;
  pending_child_scopes = s.pending_child_scopes;
  cancelling_scopes = s.cancelling_scopes;
  cleanup_timeouts = s.cleanup_timeouts;
}

abbrev pub plus : ByCode → ByCode → ByCode
plus a b = record {
  old_pending_tasks = a.old_pending_tasks + b.old_pending_tasks;
  pending_child_scopes = a.pending_child_scopes + b.pending_child_scopes;
  cancelling_scopes = a.cancelling_scopes + b.cancelling_scopes;
  cleanup_timeouts = a.cleanup_timeouts + b.cleanup_timeouts;
}

pub by_code-append : (xs ys : List Finding) → by_code (xs ++ ys) ≡ plus (by_code xs) (by_code ys)
by_code-append [] ys = ground arith
by_code-append (x ∷ xs) ys = ground (arith, by_code-append xs ys)

pub by_code-length :
    (xs : List Finding)
    → let c = by_code xs in
      c.old_pending_tasks + c.pending_child_scopes + c.cancelling_scopes + c.cleanup_timeouts
      ≡ length xs
by_code-length [] = omega arith
by_code-length (x ∷ xs) = ground (arith, by_code-length xs)
