-- ===== src/Replay/Summary.antt =====
-- packages/core/src/replay/index.ts: the attempts and the summary of a receipt.
use workit.Prelude.{
  ℕ, ◌+◌, ◌||◌, Option, none, some, List, [], ◌∷◌, ◌++◌, length, keep, if◌then◌else◌,
}
use workit.Run.Retry.{Outcome}
use workit.Snapshot.{ScopeSnapshot}
use workit.Snapshot.Totals.{SnapshotCounts, receipt_counts}
use workit.Replay.Receipt.{
  EventType, attempt, retrying, cleanup_failed, cleanup_timeout, ReceiptEvent, is_type,
}

-- An attempt in a receipt, taken from the event of the attempt.
pub record Attempt : Type 0 where
  pub task_id : ℕ
  pub attempt : ℕ
  pub started_at : ℕ
  pub completed_at : ℕ
  pub duration_ms : ℕ
  pub outcome : Outcome

-- `attemptsFromEvents`.
unfoldable pub attempt_of :
    {V : Type 0}
    → ReceiptEvent V
    → Option ℕ
    → Option ℕ
    → Option ℕ
    → Option ℕ
    → Option Outcome
    → List Attempt
attempt_of e (some t) (some n) (some at) (some ms) (some o) =
    record {
      task_id = t;
      attempt = n;
      started_at = at;
      completed_at = e.at;
      duration_ms = ms;
      outcome = o;
    }
    ∷ []
attempt_of e _ _ _ _ _ = []

unfoldable pub attempts_from_events : {V : Type 0} → List (ReceiptEvent V) → List Attempt
unfolding attempt_of is_type
attempts_from_events [] = []
attempts_from_events (e ∷ es) =
    (if is_type e.type attempt
      then attempt_of e e.task_id e.attempt e.started_at e.duration_ms e.outcome
      else [])
    ++ attempts_from_events es

-- `WorkItReceiptSummary`.
pub record Summary : Type 0 where
  pub counts : SnapshotCounts
  pub cleanup_failures : ℕ
  pub cleanup_timeouts : ℕ
  pub retry_events : ℕ
  pub dropped_events : ℕ
  pub dropped_telemetry_events : ℕ
  pub leaked_tasks : ℕ

abbrev pub get_or_zero : Option ℕ → ℕ
get_or_zero none = 0
get_or_zero (some n) = n

abbrev total_dropped : {V : Type 0} → List (ReceiptEvent V) → ℕ
total_dropped [] = 0
total_dropped (e ∷ es) = get_or_zero e.dropped_telemetry_events + total_dropped es

unfoldable pub summarize_receipt :
    {V : Type 0} → ScopeSnapshot → List (ReceiptEvent V) → ℕ → Summary
unfolding is_type
summarize_receipt {V} snapshot events dropped =
    let counts = receipt_counts snapshot in
    record {
      counts = counts;
      cleanup_failures = length (
          keep
            (λ (e : ReceiptEvent V).
              is_type e.type cleanup_failed || is_type e.type EventType.scope_cleanup_failed)
            events);
      cleanup_timeouts = length (
          keep
            (λ (e : ReceiptEvent V).
              is_type e.type cleanup_timeout || is_type e.type EventType.scope_cleanup_timeout)
            events);
      retry_events = length (keep (λ (e : ReceiptEvent V). is_type e.type retrying) events);
      dropped_events = dropped;
      dropped_telemetry_events = total_dropped events;
      leaked_tasks = counts.pending_tasks;
    }
