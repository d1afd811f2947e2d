-- ===== src/Candidates.antt =====
-- packages/core/src/candidates/types.ts: the selection of the first acceptable candidate. `X` is the
-- type of errors that are no `CancellationError`, and a text is the list of its code points.
pub mod Classification
pub mod Evidence
pub mod Attempt
pub mod Trail
pub mod Selection
use workit.Prelude.{ℕ, Bool, Option, List}
use workit.Run.Thrown.{Thrown}

-- `CandidateActionDecision["disposition"]`.
pub data Disposition : Type 0 where
  retry_same_candidate try_next_candidate terminal requires_user_input : Disposition

pub record ActionDecision : Type 0 where
  pub disposition : Disposition
  pub reason_code : List ℕ

-- `CandidateFailureDecision`: what `FailureDisposition` adds is `cancelled`.
pub data FailureDecision : Type 0 where
  action : ActionDecision → FailureDecision
  cancelled : List ℕ → FailureDecision

pub data AcceptanceDecision : Type 0 where
  accepted : AcceptanceDecision
  rejected : List ℕ → AcceptanceDecision

-- `CandidateAttemptDecision`.
pub data AttemptDecision : Type 0 where
  acted : Disposition → AttemptDecision
  quality_rejected accepted : AttemptDecision

-- `CandidateDecisionRecord` (evidence.ts).
pub record DecisionRecord : Type 0 where
  pub candidate_index : ℕ
  pub decision : AttemptDecision
  pub reason_code : Option (List ℕ)

-- What an attempt of the selection can fail with: a `ClassifiedCandidateError`, a
-- `CandidateCallbackError`, or an error that is neither.
pub data AttemptError (X : Type 0) : Type 0 where
  classified : Thrown X → ActionDecision → AttemptError X
  callback : Thrown X → AttemptError X
  plain : X → AttemptError X

-- What the caller's `classifyFailure` and `accept` return is not trusted. A field of another type is
-- `none`, and so is a value that is no object.
pub record ActionAnswer : Type 0 where
  pub disposition : Option (List ℕ)
  pub reason_code : Option (List ℕ)

pub record AcceptanceAnswer : Type 0 where
  pub accepted : Option Bool
  pub reason_code : Option (List ℕ)
