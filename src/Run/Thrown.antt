-- ===== src/Run/Thrown.antt =====
-- What a task body, or the runtime around it, can throw (packages/core/src/types/index.ts). `X` is the
-- type of errors that are no `CancellationError`.
use workit.Prelude.{Bool, true, false}
use workit.Engine.Errors.{RangeError}

pub data Thrown (X : Type 0) : Type 0 where
  failure : X → Thrown X
  range_error : RangeError → Thrown X
  budget_not_set type_error : Thrown X
  cancellation timeout_error budget_exceeded : Thrown X

-- `err instanceof CancellationError`: timeouts and exceeded budgets extend it.
abbrev pub is_cancellation : {X : Type 0} → Thrown X → Bool
is_cancellation cancellation = true
is_cancellation timeout_error = true
is_cancellation budget_exceeded = true
is_cancellation (failure x) = false
is_cancellation (range_error e) = false
is_cancellation budget_not_set = false
is_cancellation type_error = false
