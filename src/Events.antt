-- ===== src/Events.antt =====
-- `TaskEvent` and `CancelReason` of packages/core/src/types/index.ts. `E` is the type of thrown values,
-- and `V` that of the values of a caller that events carry. Numbers are natural.
use workit.Prelude.{ℕ, Option, List}
use workit.Engine.Scope.{ClosingReason}
use workit.Run.Retry.{Outcome}

pub data TaskKind : Type 0 where
  io llm tool cpu custom : TaskKind

pub data CancelReason (E V : Type 0) : Type 0 where
  parent_failed : E → CancelReason E V
  sibling_failed : ℕ → E → CancelReason E V
  manual : List ℕ → Option V → CancelReason E V
  user : Option (List ℕ) → CancelReason E V
  deadline : (deadline_at elapsed_ms : ℕ) → CancelReason E V
  timeout : ℕ → CancelReason E V
  race_lost : ℕ → CancelReason E V
  budget : (key : List ℕ) (limit spent : ℕ) → CancelReason E V
  scope_ended : CancelReason E V

pub data TaskEvent (E V : Type 0) : Type 0 where
  task_started : (task scope : ℕ) (name : List ℕ) (kind : TaskKind) (at : ℕ) → TaskEvent E V
  task_attempt : (task attempt duration_ms : ℕ) (outcome : Outcome) (at : ℕ) → TaskEvent E V
  task_retrying : (task attempt : ℕ) (error : E) (next_delay_ms at : ℕ) → TaskEvent E V
  task_progress :
      (task : ℕ) (pct : Option ℕ) (message : Option (List ℕ)) (value : Option V) (at : ℕ)
      → TaskEvent E V
  task_cleanup_failed : (task : ℕ) (error : E) (at : ℕ) → TaskEvent E V
  task_cleanup_timeout : (task timeout_ms at : ℕ) → TaskEvent E V
  task_succeeded : (task duration_ms at : ℕ) → TaskEvent E V
  task_failed : (task : ℕ) (error : E) (duration_ms at : ℕ) → TaskEvent E V
  task_cancelled : (task : ℕ) (reason : CancelReason E V) (duration_ms at : ℕ) → TaskEvent E V
  scope_opened : (scope : ℕ) (parent : Option ℕ) (at : ℕ) → TaskEvent E V
  scope_cleanup_failed : (scope : ℕ) (error : E) (at : ℕ) → TaskEvent E V
  scope_cleanup_timeout : (scope timeout_ms at : ℕ) → TaskEvent E V
  scope_closing : (scope : ℕ) (reason : ClosingReason) (at : ℕ) → TaskEvent E V
  scope_closed : (scope duration_ms : ℕ) (dropped : Option ℕ) (at : ℕ) → TaskEvent E V
