-- ===== src/Replay/Receipt.antt =====
-- packages/core/src/replay/index.ts: the events of a receipt. `E` is
-- the type of thrown values, and `describe` is `normalizeError` on it; `V` is the type of the values of
-- a caller. Durations and times are whole milliseconds, with no event before its task.
use workit.Prelude.{ℕ, ◌-◌, Bool, true, false, Option, none, some, List}
use workit.Candidates.Evidence.{ReceiptError}
use workit.Engine.Scope.{ClosingReason}
use workit.Run.Retry.{Outcome}
use workit.Events.{
  TaskKind, CancelReason, parent_failed, sibling_failed, manual, user, deadline, timeout, race_lost,
  budget, scope_ended, TaskEvent, task_started, task_attempt, task_retrying, task_progress,
  task_cleanup_failed, task_cleanup_timeout, task_succeeded, task_failed, task_cancelled,
  scope_opened, scope_closing, scope_closed,
}

-- `TaskEvent["type"]`.
pub data EventType : Type 0 where
  started attempt retrying progress cleanup_failed cleanup_timeout succeeded failed cancelled :
      EventType
  opened scope_cleanup_failed scope_cleanup_timeout closing closed : EventType

pub data Reason (V : Type 0) : Type 0 where
  cancel_reason : CancelReason ReceiptError V → Reason V
  closing_reason : ClosingReason → Reason V

-- `WorkItReceiptEvent`.
pub record ReceiptEvent (V : Type 0) : Type 0 where
  pub type : EventType
  pub at : ℕ
  pub task_id : Option ℕ
  pub scope_id : Option ℕ
  pub parent_id : Option (Option ℕ)
  pub name : Option (List ℕ)
  pub kind : Option TaskKind
  pub attempt : Option ℕ
  pub started_at : Option ℕ
  pub outcome : Option Outcome
  pub next_delay_ms : Option ℕ
  pub timeout_ms : Option ℕ
  pub duration_ms : Option ℕ
  pub reason : Option (Reason V)
  pub error : Option ReceiptError
  pub message : Option (List ℕ)
  pub pct : Option ℕ
  pub value : Option V
  pub dropped_telemetry_events : Option ℕ

-- The fields that every event has, and those of a task and of a scope.
abbrev pub plain_event : {V : Type 0} → EventType → ℕ → Option ℕ → Option ℕ → ReceiptEvent V
plain_event type at task scope = record {
  type = type;
  at = at;
  task_id = task;
  scope_id = scope;
  parent_id = none;
  name = none;
  kind = none;
  attempt = none;
  started_at = none;
  outcome = none;
  next_delay_ms = none;
  timeout_ms = none;
  duration_ms = none;
  reason = none;
  error = none;
  message = none;
  pct = none;
  value = none;
  dropped_telemetry_events = none;
}

abbrev task_event : {V : Type 0} → EventType → ℕ → ℕ → ReceiptEvent V
task_event type task at = plain_event type at (some task) none

abbrev scope_event : {V : Type 0} → EventType → ℕ → ℕ → ReceiptEvent V
scope_event type scope at = plain_event type at none (some scope)

module _ {E V : Type 0} (describe : E → ReceiptError) where
  unfoldable pub normalize_cancel_reason : CancelReason E V → CancelReason ReceiptError V
  normalize_cancel_reason (parent_failed e) = parent_failed (describe e)
  normalize_cancel_reason (sibling_failed i e) = sibling_failed i (describe e)
  normalize_cancel_reason (manual tag v) = manual tag v
  normalize_cancel_reason (user m) = user m
  normalize_cancel_reason (deadline d ms) = deadline d ms
  normalize_cancel_reason (timeout ms) = timeout ms
  normalize_cancel_reason (race_lost i) = race_lost i
  normalize_cancel_reason (budget k l s) = budget k l s
  normalize_cancel_reason scope_ended = scope_ended

  unfoldable pub normalize_event : TaskEvent E V → ReceiptEvent V
  unfolding normalize_cancel_reason
  normalize_event (task_started t s name kind at) =
      record (plain_event started at (some t) (some s)) { name = some name; kind = some kind }
  normalize_event (task_attempt t n ms outcome at) = record (task_event attempt t at) {
    attempt = some n;
    started_at = some (at - ms);
    duration_ms = some ms;
    outcome = some outcome;
  }
  normalize_event (task_retrying t n e delay at) = record (task_event retrying t at) {
    attempt = some n;
    error = some (describe e);
    next_delay_ms = some delay;
  }
  normalize_event (task_progress t pct message v at) = record (task_event progress t at) {
    pct = pct;
    message = message;
    value = v;
  }
  normalize_event (task_cleanup_failed t e at) = record (task_event cleanup_failed t at) {
    error = some (describe e);
  }
  normalize_event (task_cleanup_timeout t ms at) = record (task_event cleanup_timeout t at) {
    timeout_ms = some ms;
  }
  normalize_event (task_succeeded t ms at) = record (task_event succeeded t at) {
    duration_ms = some ms;
  }
  normalize_event (task_failed t e ms at) = record (task_event failed t at) {
    error = some (describe e);
    duration_ms = some ms;
  }
  normalize_event (task_cancelled t r ms at) = record (task_event cancelled t at) {
    reason = some (cancel_reason (normalize_cancel_reason r));
    duration_ms = some ms;
  }
  normalize_event (scope_opened s parent at) = record (scope_event opened s at) {
    parent_id = some parent;
  }
  normalize_event (TaskEvent.scope_cleanup_failed s e at) =
      record (scope_event EventType.scope_cleanup_failed s at) { error = some (describe e) }
  normalize_event (TaskEvent.scope_cleanup_timeout s ms at) =
      record (scope_event EventType.scope_cleanup_timeout s at) { timeout_ms = some ms }
  normalize_event (scope_closing s r at) = record (scope_event closing s at) {
    reason = some (closing_reason r);
  }
  normalize_event (scope_closed s ms dropped at) = record (scope_event EventType.closed s at) {
    duration_ms = some ms;
    dropped_telemetry_events = dropped;
  }

unfoldable pub is_type : EventType → EventType → Bool
is_type started started = true
is_type attempt attempt = true
is_type retrying retrying = true
is_type progress progress = true
is_type cleanup_failed cleanup_failed = true
is_type cleanup_timeout cleanup_timeout = true
is_type succeeded succeeded = true
is_type failed failed = true
is_type cancelled cancelled = true
is_type opened opened = true
is_type EventType.scope_cleanup_failed EventType.scope_cleanup_failed = true
is_type EventType.scope_cleanup_timeout EventType.scope_cleanup_timeout = true
is_type closing closing = true
is_type EventType.closed EventType.closed = true
is_type _ _ = false
