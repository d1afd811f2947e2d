-- ===== src/Candidates/Attempt.antt =====
-- packages/core/src/candidates/index.ts: one attempt of a candidate, from the caller's callbacks to the
-- recorder. `C` is the type of candidates, `T` that of their values, `S` the state that the callbacks
-- share.
pub mod Verdict
pub mod Log
pub mod Retried
pub mod Answers
pub mod Counted
use workit.Prelude.{
  ℕ, Bool, true, false, ◌&&◌, Option, none, some, List, [], ◌∷◌, Result, ok, err, ◌>>=◌,
}
use workit.Engine.Retry.{RetryOpts}
use workit.Run.Thrown.{
  Thrown, failure, range_error, budget_not_set, type_error, cancellation, timeout_error,
  budget_exceeded,
}
use workit.Candidates.{
  Disposition, retry_same_candidate, ActionDecision, ActionAnswer, AcceptanceAnswer,
  AcceptanceDecision, rejected, AttemptDecision, acted, quality_rejected, DecisionRecord,
  AttemptError, classified, callback, plain,
}
use workit.Candidates.Classification.{
  classify_candidate_error, normalize_acceptance_decision, is_known, lift,
}
use workit.Candidates.Evidence.{ReceiptError, Buffers, record_decision, record_attempt, evidence_of}

pub data AttemptResult (T : Type 0) : Type 0 where
  accepted : T → AttemptResult T
  refused : AttemptResult T

-- What the caller gives: each callback is told the candidate and the number of the attempt.
pub record Callbacks (X C T S : Type 0) : Type 0 where
  pub execute : C → ℕ → S → Result (Thrown X) T × S
  pub accept : T → C → ℕ → S → Result (Thrown X) (Option AcceptanceAnswer) × S
  pub classify_failure : Thrown X → C → ℕ → S → Result (Thrown X) (Option ActionAnswer) × S

-- What the attempts of one candidate meet: whether the deadline, if there is one, cuts an attempt off,
-- and what the caller's state is then. The body that lost the race goes on, and what it records before
-- the deadline's own decision is recorded is `late`.
pub record Clock (S : Type 0) : Type 0 where
  pub cuts : ℕ → Bool
  pub interrupted : ℕ → S → S
  pub late : ℕ → List DecisionRecord

pub record Progress (S : Type 0) : Type 0 where
  pub user : S
  pub buffers : Buffers

-- The parameters of the tasks of one candidate.
pub record Candidate (X C T S : Type 0) : Type 0 where
  pub candidate : C
  pub index : ℕ
  pub limit : ℕ
  pub callbacks : Callbacks X C T S
  pub has_deadline : Bool
  pub clock : Clock S
  pub describe : Thrown X → ReceiptError

-- The decisions of a body that was cut off, one after another.
pub record_all : ℕ → List DecisionRecord → Buffers → Buffers
record_all limit [] b = b
record_all limit (d ∷ ds) b = record_all limit ds (record_decision limit d b)

-- `recordFailure`, with the classified error thrown.
record_failure :
    {X A S : Type 0}
    → ℕ
    → ℕ
    → Result (Thrown (AttemptError X)) (Thrown X × ActionDecision) × S
    → Buffers
    → Result (Thrown (AttemptError X)) A × Progress S
record_failure limit index (err e, s) b = (err e, record { user = s; buffers = b })
record_failure limit index (ok (e, d), s) b = (
  err (failure (classified e d)),
  record {
    user = s;
    buffers =
        record_decision limit
          (record {
            candidate_index = index;
            decision = acted d.disposition;
            reason_code = some d.reason_code;
          })
          b;
  },
)

-- What becomes of the caller's verdict on a value.
judged :
    {X T S : Type 0}
    → ℕ
    → ℕ
    → T
    → Result (Thrown X) AcceptanceDecision
    → S
    → Buffers
    → Result (Thrown (AttemptError X)) (AttemptResult T) × Progress S
unfolding lift
judged limit index v (ok AcceptanceDecision.accepted) s b = (
  ok (AttemptResult.accepted v),
  record {
    user = s;
    buffers =
        record_decision limit
          (record {
            candidate_index = index;
            decision = AttemptDecision.accepted;
            reason_code = none;
          })
          b;
  },
)
judged limit index v (ok (rejected code)) s b = (
  ok refused,
  record {
    user = s;
    buffers =
        record_decision limit
          (record { candidate_index = index; decision = quality_rejected; reason_code = some code })
          b;
  },
)
judged limit index v (err e) s b = elim (is_known e) [
  | true ↦ (err (lift e), record { user = s; buffers = b })
  | false ↦ (err (failure (callback e)), record { user = s; buffers = b })
]

module _ {X C T S : Type 0} where
  executed :
      Candidate X C T S
      → ℕ
      → Result (Thrown X) T
      → S
      → Buffers
      → Result (Thrown (AttemptError X)) (AttemptResult T) × Progress S
  unfolding record_failure judged
  executed c n (err e) s b =
      record_failure c.limit c.index
        (classify_candidate_error (λ x. c.callbacks.classify_failure x c.candidate n) e s) b
  executed c n (ok v) s b =
      let (a, s') = c.callbacks.accept v c.candidate n s in
      judged c.limit c.index v (a >>= normalize_acceptance_decision) s' b

  -- `createAttemptTask`.
  create_attempt_task :
      Candidate X C T S
      → ℕ
      → Progress S
      → Result (Thrown (AttemptError X)) (AttemptResult T) × Progress S
  unfolding executed
  create_attempt_task c n p =
      let (r, s) = c.callbacks.execute c.candidate n p.user in executed c n r s p.buffers

  -- `run.deadline`, when there is a deadline.
  bounded_attempt :
      Candidate X C T S
      → ℕ
      → Progress S
      → Result (Thrown (AttemptError X)) (AttemptResult T) × Progress S
  unfolding create_attempt_task record_all
  bounded_attempt c n p = elim (c.has_deadline && c.clock.cuts n) [
    | true ↦ (
      err timeout_error,
      record {
        user = c.clock.interrupted n p.user;
        buffers = record_all c.limit (c.clock.late n) p.buffers;
      },
    )
    | false ↦ create_attempt_task c n p
  ]

  -- An error that is neither classified nor the callback's, as the caller's classifier sees it.
  reclassified :
      Candidate X C T S
      → ℕ
      → Thrown X
      → Progress S
      → Result (Thrown (AttemptError X)) (AttemptResult T) × Progress S
  unfolding record_failure
  reclassified c n e p =
      record_failure c.limit c.index
        (classify_candidate_error (λ x. c.callbacks.classify_failure x c.candidate n) e p.user)
        p.buffers

  -- `classifyDeadlineFailure`.
  classify_deadline_failure :
      Candidate X C T S
      → ℕ
      → Result (Thrown (AttemptError X)) (AttemptResult T) × Progress S
      → Result (Thrown (AttemptError X)) (AttemptResult T) × Progress S
  unfolding reclassified
  classify_deadline_failure c n (ok r, p) = (ok r, p)
  classify_deadline_failure c n (err (failure (classified e d)), p) =
      (err (failure (classified e d)), p)
  classify_deadline_failure c n (err (failure (callback e)), p) = (err (failure (callback e)), p)
  classify_deadline_failure c n (err (failure (plain x)), p) = reclassified c n (failure x) p
  classify_deadline_failure c n (err (range_error e), p) = reclassified c n (range_error e) p
  classify_deadline_failure c n (err budget_not_set, p) = reclassified c n budget_not_set p
  classify_deadline_failure c n (err type_error, p) = reclassified c n type_error p
  classify_deadline_failure c n (err cancellation, p) = reclassified c n cancellation p
  classify_deadline_failure c n (err timeout_error, p) = reclassified c n timeout_error p
  classify_deadline_failure c n (err budget_exceeded, p) = reclassified c n budget_exceeded p

  -- `recorder.wrap`.
  recorded :
      Candidate X C T S
      → ℕ
      → Result (Thrown (AttemptError X)) (AttemptResult T) × Progress S
      → Result (Thrown (AttemptError X)) (AttemptResult T) × Progress S
  recorded c n (r, p) =
      (r, record p { buffers = record_attempt c.limit (evidence_of c.describe n r) p.buffers })

  -- The task of `buildCandidateTask` that `run.retry` wraps.
  unfoldable pub recorded_attempt :
      Candidate X C T S
      → ℕ
      → Progress S
      → Result (Thrown (AttemptError X)) (AttemptResult T) × Progress S
  unfolding bounded_attempt classify_deadline_failure recorded
  recorded_attempt c n p = recorded c n (classify_deadline_failure c n (bounded_attempt c n p))

-- `withClassifierRetry`.
unfoldable pub retries_same : {X : Type 0} → Thrown (AttemptError X) → Bool
retries_same (failure (classified e d)) = elim d.disposition [
  | retry_same_candidate ↦ true
  | _ ↦ false
]
retries_same _ = false

abbrev pub with_classifier_retry :
    {X : Type 0} → RetryOpts (Thrown (AttemptError X)) → RetryOpts (Thrown (AttemptError X))
with_classifier_retry o = record o { retry_if = some (λ e n. retries_same e) }
