-- ===== src/Candidates/Selection.antt =====
-- packages/core/src/candidates/index.ts: `firstAcceptable`. `run.group` around the one task of a
-- candidate ends as that task does.
pub mod Attempts
pub mod Refinement
pub mod Promise
pub mod Statuses
pub mod Counted
use workit.Prelude.{
  ℕ, suc, ◌*◌, Bool, true, false, ◌||◌, Option, none, some, List, [], ◌∷◌, ltb, length,
  if◌then◌else◌, Result, ok, err, ◌>>=◌, ◌>>◌,
}
use workit.Engine.Errors.{
  RangeError, max_candidates, candidates_length, total_attempts, max_attempts,
}
use workit.Engine.Retry.{Retry, RetryOpts, attempts, options, get_or, validate_retry_policy}
use workit.Run.Thrown.{
  Thrown, failure, range_error, budget_not_set, type_error, cancellation, timeout_error,
  budget_exceeded,
}
use workit.Run.Retry.{World, Run, Budget, is_some, retry}
use workit.Candidates.{Disposition, ActionDecision, AttemptError, classified, callback, plain}
use workit.Candidates.Classification.{lift}
use workit.Candidates.Evidence.{ReceiptError, CandidateEvidence, Buffers, map_candidate_evidence}
use workit.Candidates.Attempt.{
  AttemptResult, refused, Callbacks, Clock, Progress, Candidate, recorded_attempt,
  with_classifier_retry,
}

-- `FirstAcceptableOptions`, without the metadata of a candidate.
pub record SelectionOpts (X C T S : Type 0) : Type 0 where
  pub callbacks : Callbacks X C T S
  pub retry : Option (Retry (Thrown (AttemptError X)))
  pub max_candidates : Option ℕ
  pub deadline_at : Option ℕ
  pub max_evidence : Option ℕ

pub record CandidatePolicy (X C T S : Type 0) : Type 0 where
  pub callbacks : Callbacks X C T S
  pub retry : RetryOpts (Thrown (AttemptError X))
  pub deadline_at : Option ℕ

-- `CandidateRunResult`: its status, and what goes with it.
pub data Status (X C T : Type 0) : Type 0 where
  accepted : C → ℕ → T → Status X C T
  exhausted : Status X C T
  terminal : List ℕ → Thrown X → Status X C T
  requires_user_input : List ℕ → Status X C T

pub record RunResult (X C T : Type 0) : Type 0 where
  pub status : Status X C T
  pub evidence : List CandidateEvidence
  pub dropped_evidence : ℕ

-- The outside world of a selection: that of each candidate, and how errors read.
pub record Surroundings (X S : Type 0) : Type 0 where
  pub world : ℕ → World X
  pub clock : ℕ → Clock S
  pub describe : Thrown X → ReceiptError

pub record Selection (X C T S : Type 0) : Type 0 where
  pub result : Result (Thrown X) (RunResult X C T)
  pub progress : Progress S
  pub budget : Option Budget

abbrev pub default_max_candidates : ℕ
default_max_candidates = 16

abbrev pub limit_of_candidates : ℕ
limit_of_candidates = 1000

abbrev pub default_max_evidence : ℕ
default_max_evidence = 256

abbrev pub max_total_candidate_attempts : ℕ
max_total_candidate_attempts = 10000

-- A policy that is a number of attempts and nothing else.
abbrev pub times_only : {E : Type 0} → ℕ → RetryOpts E
times_only n = record {
  times = n;
  backoff = none;
  initial_delay = none;
  max_delay = none;
  jitter = none;
  retry_if = none;
  retry_budget = none;
}

abbrev pub as_thrown : {X A : Type 0} → Result RangeError A → Result (Thrown X) A
as_thrown (ok a) = ok a
as_thrown (err e) = err (range_error e)

module _ {X : Type 0} where
  unfoldable pub snapshot_retry_policy :
      Option (Retry (Thrown (AttemptError X)))
      → Result (Thrown X) (RetryOpts (Thrown (AttemptError X)))
  snapshot_retry_policy none = ok (times_only 1)
  snapshot_retry_policy (some (attempts n)) = do
    as_thrown (validate_retry_policy {E = Thrown (AttemptError X)} (attempts n))
    ok (times_only n)
  snapshot_retry_policy (some (options o)) = elim o.retry_if [
    | some f ↦ err type_error
    | none ↦ do as_thrown (validate_retry_policy (options o)); ok o
  ]

  check_total : ℕ → ℕ → Result (Thrown X) (Unit {0})
  check_total n times =
      if ltb max_total_candidate_attempts (n * times)
      then err (range_error total_attempts)
      else ok tt

  check_candidates : ℕ → ℕ → Result (Thrown X) (Unit {0})
  check_candidates n most =
      if ltb most 1 || ltb limit_of_candidates most
      then err (range_error max_candidates)
      else if ltb most n
      then err (range_error candidates_length)
      else ok tt

  -- `createAttemptRecorder`, of its limit.
  check_evidence : ℕ → Result (Thrown X) (Unit {0})
  check_evidence limit = if ltb limit 1 then err (range_error max_attempts) else ok tt

with_evidence :
    {X C T : Type 0}
    → Status X C T
    → ℕ
    → Option (List CandidateEvidence)
    → Result (Thrown X) (RunResult X C T)
with_evidence status dropped none = err type_error
with_evidence status dropped (some l) =
    ok (record { status = status; evidence = l; dropped_evidence = dropped })

-- `readEvidence`, with the status that the result has.
read_evidence : {X C T : Type 0} → Status X C T → Buffers → Result (Thrown X) (RunResult X C T)
unfolding with_evidence
read_evidence status b =
    with_evidence status b.dropped_attempts (map_candidate_evidence b.attempts b.decisions)

pub no_evidence : {S : Type 0} → S → Progress S
no_evidence s = record {
  user = s;
  buffers = record { attempts = []; dropped_attempts = 0; decisions = [] };
}

-- What a candidate's sleep is rejected with is no error of an attempt.
lift_sleep : {X : Type 0} → Option (Thrown X) → Option (Thrown (AttemptError X))
lift_sleep none = none
lift_sleep (some e) = some (lift e)

unfoldable pub lift_world : {X : Type 0} → World X → World (AttemptError X)
unfolding lift_sleep
lift_world w = record { random = w.random; sleep = λ n. lift_sleep (w.sleep n) }

module _ {X C T S : Type 0} where
  unfoldable pub normalize_candidate_policy :
      List C → SelectionOpts X C T S → Result (Thrown X) (CandidatePolicy X C T S)
  unfolding check_candidates check_total snapshot_retry_policy
  normalize_candidate_policy candidates opts = do
    check_candidates (length candidates) (get_or default_max_candidates opts.max_candidates)
    retry ← snapshot_retry_policy opts.retry
    check_total (length candidates) retry.times
    ok (record { callbacks = opts.callbacks; retry = retry; deadline_at = opts.deadline_at })

  stopped : Result (Thrown X) (RunResult X C T) → Progress S → Option Budget → Selection X C T S
  stopped r p b = record { result = r; progress = p; budget = b }

  concluded : Status X C T → Progress S → Option Budget → Selection X C T S
  unfolding read_evidence stopped
  concluded status p b = stopped (read_evidence status p.buffers) p b

  -- `resultFromFailure`: an error that neither stops the selection nor asks the user moves it on.
  from_failure :
      Thrown X → ActionDecision → Progress S → Option Budget → Selection X C T S → Selection X C T S
  unfolding concluded
  from_failure e d p b next = elim d.disposition [
    | Disposition.terminal ↦ concluded (terminal d.reason_code e) p b
    | Disposition.requires_user_input ↦ concluded (requires_user_input d.reason_code) p b
    | Disposition.retry_same_candidate ↦ next
    | Disposition.try_next_candidate ↦ next
  ]

  after_candidate :
      C
      → ℕ
      → Result (Thrown (AttemptError X)) (AttemptResult T)
      → Progress S
      → Option Budget
      → Selection X C T S
      → Selection X C T S
  unfolding concluded stopped from_failure
  after_candidate c i (ok (AttemptResult.accepted v)) p b next = concluded (accepted c i v) p b
  after_candidate c i (ok refused) p b next = next
  after_candidate c i (err (failure (classified e d))) p b next = from_failure e d p b next
  after_candidate c i (err (failure (callback e))) p b next = stopped (err e) p b
  after_candidate c i (err (failure (plain x))) p b next = stopped (err (failure x)) p b
  after_candidate c i (err (range_error e)) p b next = stopped (err (range_error e)) p b
  after_candidate c i (err budget_not_set) p b next = stopped (err budget_not_set) p b
  after_candidate c i (err type_error) p b next = stopped (err type_error) p b
  after_candidate c i (err cancellation) p b next = stopped (err cancellation) p b
  after_candidate c i (err timeout_error) p b next = stopped (err timeout_error) p b
  after_candidate c i (err budget_exceeded) p b next = stopped (err budget_exceeded) p b

  candidate_of : CandidatePolicy X C T S → Surroundings X S → ℕ → C → ℕ → Candidate X C T S
  candidate_of policy around limit c i = record {
    candidate = c;
    index = i;
    limit = limit;
    callbacks = policy.callbacks;
    has_deadline = is_some policy.deadline_at;
    clock = around.clock i;
    describe = around.describe;
  }

  -- `buildCandidateTask`, run in its group.
  pub run_candidate :
      CandidatePolicy X C T S
      → Surroundings X S
      → ℕ
      → C
      → ℕ
      → Progress S
      → Option Budget
      → Result RangeError (Run (AttemptError X) (AttemptResult T) (Progress S))
  unfolding candidate_of lift_world
  run_candidate policy around limit c i p b =
      retry (options (with_classifier_retry policy.retry)) true (lift_world (around.world i))
        (recorded_attempt (candidate_of policy around limit c i)) p b

  run_next :
      C
      → ℕ
      → Result RangeError (Run (AttemptError X) (AttemptResult T) (Progress S))
      → Progress S
      → Option Budget
      → (Progress S → Option Budget → Selection X C T S)
      → Selection X C T S
  unfolding stopped after_candidate
  run_next c i (err e) p b next = stopped (err (range_error e)) p b
  run_next c i (ok q) p b next =
      after_candidate c i q.result q.state q.budget (next q.state q.budget)

  pub run_candidates :
      CandidatePolicy X C T S
      → Surroundings X S
      → ℕ
      → List C
      → ℕ
      → Progress S
      → Option Budget
      → Selection X C T S
  unfolding concluded run_candidate run_next
  run_candidates policy around limit [] i p b = concluded exhausted p b
  run_candidates policy around limit (c ∷ cs) i p b =
      run_next c i (run_candidate policy around limit c i p b) p b
        (λ p' b'. run_candidates policy around limit cs (suc i) p' b')

  unfoldable pub first_acceptable :
      List C
      → SelectionOpts X C T S
      → Surroundings X S
      → S
      → Option Budget
      → Result (Thrown X) (Selection X C T S)
  unfolding check_evidence run_candidates no_evidence
  first_acceptable candidates opts around s b = do
    policy ← normalize_candidate_policy candidates opts
    let limit = get_or default_max_evidence opts.max_evidence
    check_evidence limit
    ok (run_candidates policy around limit candidates 0 (no_evidence s) b)
