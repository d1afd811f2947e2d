-- ===== src/Engine/Errors.antt =====
-- The `RangeError`s that the engine, the planner and the candidate selection throw, one constructor for each message.

pub data RangeError : Type 0 where
  invalid_duration invalid_duration_string exceeds_maximum : RangeError
  retry_attempts hedge_max policy_depth : RangeError
  budget_snapshot duplicate_snapshot : RangeError
  too_many_handlers max_events max_receipts : RangeError
  context_key_name context_key_reserved budget_unit budget_spent : RangeError
  pool_size uncancellable_timeout : RangeError
  reason_code_pattern max_candidates candidates_length total_attempts max_attempts : RangeError
