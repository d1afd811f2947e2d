-- ===== src/Snapshot/Diagnostics.antt =====
-- packages/core/src/diagnostics/index.ts. Messages are left out: each code has one.
pub mod Codes
pub mod Findings
use workit.Prelude.{
  ℕ, suc, ◌+◌, ◌-◌, Bool, true, false, not, ◌&&◌, ◌||◌, Option, none, some, List, [], ◌∷◌, ◌++◌,
  length, ltb, ◌==◌, if◌then◌else◌,
}
use workit.Engine.Scope.{ScopeState, cancelling, closed, TaskStatus}
use workit.Events
use workit.Events.{TaskEvent, task_cleanup_timeout, scope_cleanup_timeout}
use workit.Snapshot.{
  TaskSnapshot, ScopeFields, ScopeSnapshot, scope_snapshot, Snapshots, no_more, child_and,
}

abbrev pub default_stale_task_ms : ℕ
default_stale_task_ms = 30000

abbrev pub default_max_findings : ℕ
default_max_findings = 100

-- A finding, by its code, with the fields that the code fills.
pub data Finding : Type 0 where
  old_pending_task : (scope task age_ms : ℕ) → Finding
  pending_child_scope : (scope : ℕ) → Finding
  scope_cancelling : (scope : ℕ) → Finding
  cleanup_timeout_of_task : (task timeout_ms at : ℕ) → Finding
  cleanup_timeout_of_scope : (scope timeout_ms at : ℕ) → Finding

pub data Severity : Type 0 where
  info warn error : Severity

unfoldable pub severity : Finding → Severity
severity (old_pending_task _ _ _) = warn
severity (pending_child_scope _) = warn
severity (scope_cancelling _) = warn
severity (cleanup_timeout_of_task _ _ _) = error
severity (cleanup_timeout_of_scope _ _ _) = error

pub record Summary : Type 0 where
  pub pending_tasks : ℕ
  pub old_pending_tasks : ℕ
  pub pending_child_scopes : ℕ
  pub cancelling_scopes : ℕ
  pub cleanup_timeouts : ℕ

pub data Status : Type 0 where
  healthy needs_attention : Status

pub record Report : Type 0 where
  pub status : Status
  pub generated_at : ℕ
  pub summary : Summary
  pub findings : List Finding
  pub truncated : Bool

pub record Options : Type 0 where
  pub now : ℕ
  pub stale_task_ms : Option ℕ
  pub max_findings : Option ℕ

-- The variables that the visit fills.
pub record Seen : Type 0 where
  pub summary : Summary
  pub findings : List Finding

abbrev pub get_or : ℕ → Option ℕ → ℕ
get_or d none = d
get_or d (some n) = n

add : ℕ → Finding → Seen → Seen
add most f s =
    if ltb (length s.findings) most then record s { findings = s.findings ++ f ∷ [] } else s

abbrev pub is_pending : TaskStatus → Bool
is_pending TaskStatus.pending = true
is_pending TaskStatus.running = true
is_pending TaskStatus.succeeded = false
is_pending TaskStatus.failed = false
is_pending TaskStatus.cancelled = false

abbrev pub is_cancelling : ScopeState → Bool
is_cancelling cancelling = true
is_cancelling ScopeState.running = false
is_cancelling closed = false

abbrev pub is_closed : ScopeState → Bool
is_closed closed = true
is_closed ScopeState.running = false
is_closed cancelling = false

diagnose_task : ℕ → ℕ → ℕ → ℕ → TaskSnapshot → Seen → Seen
unfolding add
diagnose_task most now stale scope t s =
    if not (is_pending t.status)
    then s
    else let s' = record s {
      summary = record s.summary { pending_tasks = suc s.summary.pending_tasks };
    } in
      let age_ms = now - t.started_at in
      if ltb age_ms stale
      then s'
      else add most (old_pending_task scope t.id age_ms) (record s' {
        summary = record s'.summary { old_pending_tasks = suc s'.summary.old_pending_tasks };
      })

diagnose_tasks : ℕ → ℕ → ℕ → ℕ → List TaskSnapshot → Seen → Seen
unfolding diagnose_task
diagnose_tasks most now stale scope [] s = s
diagnose_tasks most now stale scope (t ∷ ts) s =
    diagnose_tasks most now stale scope ts (diagnose_task most now stale scope t s)

note_cancelling : ℕ → ScopeFields → Seen → Seen
unfolding add
note_cancelling most f s =
    if is_cancelling f.status
    then add most (scope_cancelling f.id) (record s {
      summary = record s.summary { cancelling_scopes = suc s.summary.cancelling_scopes };
    })
    else s

note_child : ℕ → Bool → ScopeFields → Seen → Seen
unfolding add
note_child most is_root f s =
    if not is_root && not (is_closed f.status)
    then add most (pending_child_scope f.id) (record s {
      summary = record s.summary { pending_child_scopes = suc s.summary.pending_child_scopes };
    })
    else s

mutual
  unfolding diagnose_tasks note_cancelling note_child

  visit : ℕ → ℕ → ℕ → Bool → ScopeSnapshot → Seen → Seen
  visit most now stale is_root (scope_snapshot f ts children) s =
      visit_all most now stale children (
        diagnose_tasks most now stale f.id ts
          (note_child most is_root f (note_cancelling most f s)))

  visit_all : ℕ → ℕ → ℕ → Snapshots → Seen → Seen
  visit_all most now stale no_more s = s
  visit_all most now stale (child_and c children) s =
      visit_all most now stale children (visit most now stale false c s)

note_timeout : ℕ → Finding → Seen → Seen
unfolding add
note_timeout most f s =
    add most f (record s {
      summary = record s.summary { cleanup_timeouts = suc s.summary.cleanup_timeouts };
    })

note_events : {E V : Type 0} → ℕ → List (TaskEvent E V) → Seen → Seen
unfolding note_timeout
note_events most [] s = s
note_events most (task_cleanup_timeout t ms at ∷ es) s =
    note_events most es (note_timeout most (cleanup_timeout_of_task t ms at) s)
note_events most (scope_cleanup_timeout i ms at ∷ es) s =
    note_events most es (note_timeout most (cleanup_timeout_of_scope i ms at) s)
note_events most (_ ∷ es) s = note_events most es s

total_findings : Summary → ℕ
total_findings s =
    s.old_pending_tasks + s.pending_child_scopes + s.cancelling_scopes + s.cleanup_timeouts

abbrev nothing_seen : Seen
nothing_seen = record {
  summary = record {
    pending_tasks = 0;
    old_pending_tasks = 0;
    pending_child_scopes = 0;
    cancelling_scopes = 0;
    cleanup_timeouts = 0;
  };
  findings = [];
}

unfoldable pub diagnose_snapshot :
    {E V : Type 0} → ScopeSnapshot → List (TaskEvent E V) → Options → Report
unfolding visit note_events total_findings
diagnose_snapshot snapshot events o =
    let most = get_or default_max_findings o.max_findings in
    let stale = get_or default_stale_task_ms o.stale_task_ms in
    let seen = note_events most events (visit most o.now stale true snapshot nothing_seen) in
    let total = total_findings seen.summary in
    record {
      status = if total == 0 then healthy else needs_attention;
      generated_at = o.now;
      summary = seen.summary;
      findings = seen.findings;
      truncated = ltb (length seen.findings) total;
    }
