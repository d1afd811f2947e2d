-- ===== src/Replay/Terminal.antt =====
-- packages/core/src/replay/index.ts: the terminal fact of a receipt, `inferTerminal`.
pub mod Lifecycle
use workit.Prelude.{
  ℕ, suc, ◌+◌, ◌-◌, ◌<◌, Bool, true, false, ◌&&◌, ◌||◌, Option, none, some, List, [], ◌∷◌, ◌++◌,
  map, length, keep, ltb, ◌==◌, if◌then◌else◌,
}
use workit.Candidates.Evidence.{ReceiptError}
use workit.Engine.Scope.{ScopeState, ClosingReason}
use workit.Run.Retry.{Outcome}
use workit.Events.{CancelReason}
use workit.Snapshot.{ScopeSnapshot, scope_snapshot, ScopeFields}
use workit.Snapshot.Totals.{SnapshotCounts, receipt_counts}
use workit.Replay.Receipt.{
  EventType, started, attempt, retrying, progress, cleanup_failed, cleanup_timeout, closing, Reason,
  cancel_reason, closing_reason, ReceiptEvent, is_type,
}

-- `WorkItReceiptOutcome` and `WorkItReceiptTerminal`.
pub data ReceiptOutcome : Type 0 where
  completed failed cancelled running : ReceiptOutcome

pub record ReceiptTerminal (V : Type 0) : Type 0 where
  pub outcome : ReceiptOutcome
  pub at : Option ℕ
  pub duration_ms : Option ℕ
  pub cancel_reason : Option (CancelReason ReceiptError V)
  pub error : Option ReceiptError

unfoldable pub find_last : {A : Type 0} → (A → Bool) → List A → Option A
find_last p [] = none
find_last p (x ∷ xs) = elim (find_last p xs) [
  | some y ↦ some y
  | none ↦ if p x then some x else none
]

abbrev same_id : ℕ → Option ℕ → Bool
same_id i none = false
same_id i (some j) = j == i

abbrev at_of : {V : Type 0} → Option (ReceiptEvent V) → Option (ReceiptEvent V) → Option ℕ
at_of (some e) _ = some e.at
at_of none (some e) = some e.at
at_of none none = none

abbrev duration_of : {V : Type 0} → Option (ReceiptEvent V) → Option ℕ
duration_of none = none
duration_of (some e) = e.duration_ms

abbrev pub closing_of : {V : Type 0} → Option (Reason V) → Option ClosingReason
closing_of (some (closing_reason r)) = some r
closing_of _ = none

abbrev cancel_of : {V : Type 0} → Option (Reason V) → Option (CancelReason ReceiptError V)
cancel_of (some (cancel_reason r)) = some r
cancel_of _ = none

abbrev pub bind_event :
    {V : Type 0} {A : Type 0} → (ReceiptEvent V → Option A) → Option (ReceiptEvent V) → Option A
bind_event f none = none
bind_event f (some e) = f e

-- The tests on the closing reason, the failures and the status, in their order.
unfoldable pub outcome_of : Option ClosingReason → ℕ → ScopeState → ReceiptOutcome
outcome_of (some ClosingReason.cancelled) failures status = ReceiptOutcome.cancelled
outcome_of (some ClosingReason.errored) failures status = ReceiptOutcome.failed
outcome_of (some ClosingReason.completed) failures status =
    if ltb 0 failures then ReceiptOutcome.failed else ReceiptOutcome.completed
outcome_of none failures status = if ltb 0 failures then ReceiptOutcome.failed else elim status [
  | ScopeState.closed ↦ ReceiptOutcome.completed
  | ScopeState.running ↦ ReceiptOutcome.running
  | ScopeState.cancelling ↦ ReceiptOutcome.running
]

terminal_of :
    {V : Type 0}
    → ReceiptOutcome
    → Option ℕ
    → Option ℕ
    → Option (CancelReason ReceiptError V)
    → Option ReceiptError
    → ReceiptTerminal V
terminal_of ReceiptOutcome.cancelled at ms cancel error = record {
  outcome = ReceiptOutcome.cancelled;
  at = at;
  duration_ms = ms;
  cancel_reason = cancel;
  error = none;
}
terminal_of ReceiptOutcome.failed at ms cancel error = record {
  outcome = ReceiptOutcome.failed;
  at = at;
  duration_ms = ms;
  cancel_reason = none;
  error = error;
}
terminal_of ReceiptOutcome.completed at ms cancel error = record {
  outcome = ReceiptOutcome.completed;
  at = at;
  duration_ms = ms;
  cancel_reason = none;
  error = none;
}
terminal_of running at ms cancel error = record {
  outcome = running;
  at = none;
  duration_ms = none;
  cancel_reason = none;
  error = none;
}

unfoldable pub infer_terminal :
    {V : Type 0} → ScopeSnapshot → List (ReceiptEvent V) → ReceiptTerminal V
unfolding is_type find_last outcome_of terminal_of
infer_terminal {V} (scope_snapshot f ts children) events =
    let of_root = keep (λ (e : ReceiptEvent V). same_id f.id e.scope_id) events in
    let is_closing = find_last (λ (e : ReceiptEvent V). is_type e.type closing) of_root in
    let is_closed = find_last (λ (e : ReceiptEvent V). is_type e.type EventType.closed) of_root in
    let last_cancelled =
      find_last (λ (e : ReceiptEvent V). is_type e.type EventType.cancelled) events in
    let last_failed =
      find_last
        (λ (e : ReceiptEvent V).
          is_type e.type EventType.failed
          || is_type e.type EventType.scope_cleanup_failed
          || is_type e.type cleanup_failed)
        events in
    terminal_of
      (outcome_of (bind_event (λ e. closing_of e.reason) is_closing) f.failed_count f.status)
      (at_of is_closed is_closing) (duration_of is_closed)
      (bind_event (λ e. cancel_of e.reason) last_cancelled) (bind_event (λ e. e.error) last_failed)
