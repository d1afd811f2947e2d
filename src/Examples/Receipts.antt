-- ===== src/Examples/Receipts.antt =====
-- Redacted receipts, a recorder whose window is too small, and the end of a scope
-- (packages/core/src/replay/index.ts).
use workit.Prelude.{
  ℕ, ◌-◌, ◌+◌, ◌≤◌, ◌≡◌, refl, false, none, some, List, [], ◌∷◌, map, length, take, ltb, Result,
  arith,
}
use workit.Run.Retry.{Outcome}
use workit.Candidates.Evidence.{ReceiptError}
use workit.Engine.Scope.{ScopeState, CleanupEnd}
use workit.Engine.Scope.Calls.{Call}
use workit.Run.Thrown.{failure}
use workit.Events
use workit.Events.{TaskEvent, task_attempt, task_retrying, task_succeeded}
use workit.Snapshot.{ScopeSnapshot, scope_snapshot, no_more, status}
use workit.Replay.Redaction.{
  Value, text, error, object, end, field, ReceiptRedactionPolicy, to_lower_case, message_field,
  redacted_mark, normalized, runtime_policy, redact_receipt,
}
use workit.Replay.Redaction.Names.{same_letter, removed_by, redacted_by}
use workit.Replay.Redaction.Clean.{IsClean, IsCleanBy, nesting, redact_receipt-IsClean}
use workit.Replay.Redaction.Errors.{redact_receipt-error}
use workit.Replay.Receipt.{normalize_event}
use workit.Replay.Recorder.{BuildOptions, fresh, observe_all, assemble}
use workit.Replay.Recorder.Window.{
  retries_of, cleanup_failures_of, says_truncated, attempts_shown, attempts_of,
  assemble-observe_all,
}
use workit.Replay.Terminal.Lifecycle.{Details}

abbrev token : List ℕ
token = b'T' ∷ b'o' ∷ b'k' ∷ b'e' ∷ b'n' ∷ []

abbrev cause : List ℕ
cause = b'c' ∷ []

abbrev secret : List ℕ
secret = b's' ∷ []

abbrev default_policy : ReceiptRedactionPolicy
default_policy = record { remove_fields = none; redact_fields = none; max_depth = none }

-- A token, and an error inside.
abbrev with_token : Value
with_token = object (field token (text secret) (field cause (error cause secret) end))

redact_receipt-IsClean_example :
    IsCleanBy
      (removed_by default_policy)
      (redacted_by default_policy)
      (redact_receipt default_policy with_token)
    × (nesting (redact_receipt default_policy with_token) ≤ 8 + 2)
unfolding same_letter
redact_receipt-IsClean_example =
    redact_receipt-IsClean default_policy with_token (refl, refl, refl, refl)

-- A policy for messages.
abbrev messages_policy : ReceiptRedactionPolicy
messages_policy = record {
  remove_fields = none;
  redact_fields = some (message_field ∷ []);
  max_depth = none;
}

redact_receipt-error_example :
    (redact_receipt messages_policy (object (field cause (error cause secret) end))
      ≡ object (field cause (normalized cause secret) end))
    × ¬ IsClean
        (runtime_policy messages_policy)
        (redact_receipt messages_policy (object (field cause (error cause secret) end)))
unfolding runtime_policy to_lower_case workit.Replay.Redaction.lower
redact_receipt-error_example =
    redact_receipt-error messages_policy cause cause secret refl refl refl (omega arith)
      (λ e. ground arith)

-- Three events, with room for two.
abbrev attempts : List (TaskEvent ℕ ℕ)
attempts =
    task_attempt 1 1 5 Outcome.failed 10
    ∷ task_retrying 1 2 404 20 11
    ∷ task_attempt 1 2 5 Outcome.succeeded 40
    ∷ []

abbrev describe : ℕ → ReceiptError
describe n = record { name = cause; message = n ∷ [] }

abbrev alone : ScopeSnapshot
alone =
    scope_snapshot
      (record {
        id = 1;
        status = ScopeState.running;
        pending_count = 0;
        completed_count = 0;
        failed_count = 0;
        cancelled_count = 0;
      })
      [] no_more

abbrev at_fifty : BuildOptions
at_fifty = record { receipt_id = none; created_at = 50; limitations = []; attempts = none }

assemble-observe_all_example :
    ((assemble describe (observe_all attempts (fresh 2)) alone at_fifty).events
      ≡ map (normalize_event describe) (take 2 attempts))
    × ((assemble describe (observe_all attempts (fresh 2)) alone at_fifty).summary.retry_events
        ≡ retries_of (take 2 attempts))
    × ((assemble describe (observe_all attempts (fresh 2)) alone at_fifty).summary.cleanup_failures
        ≡ cleanup_failures_of (take 2 attempts))
    × ((assemble describe (observe_all attempts (fresh 2)) alone at_fifty).summary.dropped_events
        ≡ length attempts - 2)
    × (says_truncated
          (assemble describe (observe_all attempts (fresh 2)) alone at_fifty).limitations
        ≡ ltb 2 (length attempts))
    × (at_fifty.attempts ≡ none
        → attempts_shown
            (assemble describe (observe_all attempts (fresh 2)) alone at_fifty).attempts
          ≡ attempts_of (take 2 attempts))
assemble-observe_all_example = assemble-observe_all describe attempts 2 alone at_fifty

-- A scope that its task's failure closes.
abbrev failing : List (Call ℕ)
failing =
    Call.spawn (record { name = none; idempotency_key = none; background = false })
    ∷ Call.body_ends 1 (Result.err (failure 5))
    ∷ Call.task_settles 1
    ∷ Call.close
    ∷ Call.drain
    ∷ Call.clean CleanupEnd.completed
    ∷ []

abbrev details : Details ℕ ℕ
details = record {
  at = λ e. 7;
  duration_ms = λ e. 1;
  error = λ e. 5;
  reason = λ e. Events.scope_ended;
  name = λ t. cause;
}
