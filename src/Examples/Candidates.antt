-- ===== src/Examples/Candidates.antt =====
-- Two candidates, of which the first one fails and the second one is accepted
-- (packages/core/src/candidates/index.ts).
use workit.Prelude.{
  ℕ, ◌+◌, ◌*◌, ◌≤◌, ◌≡◌, refl, true, false, Option, none, some, List, [], ◌∷◌, map, take, length,
  Result, ok, err, arith, ◌==◌, if◌then◌else◌,
}
use workit.Engine.Retry.{attempts}
use workit.Run.Thrown.{Thrown, failure, timeout_error}
use workit.Candidates.Classification.{workit_timeout}
use workit.Run.Retry.{World, Outcome}
use workit.Candidates.{
  DecisionRecord, AttemptDecision, acted, Disposition, ActionAnswer, AcceptanceAnswer,
}
use workit.Candidates.Evidence.{ReceiptError, CandidateEvidence}
use workit.Candidates.Trail.{Trail, accepted_at}
use workit.Candidates.Attempt.{Callbacks, Clock}
use workit.Candidates.Selection.{
  SelectionOpts, CandidatePolicy, Surroundings, Selection, RunResult, Status, times_only,
  normalize_candidate_policy, first_acceptable, run_candidates, no_evidence,
}
use workit.Candidates.Selection.Refinement.{shown, decided}
use workit.Candidates.Selection.Promise.{first_acceptable-Trail}
use workit.Candidates.Selection.Counted.{first_acceptable-bounded}
use workit.Candidates.Selection.Statuses.{IsSound, first_acceptable-status}

-- `try_next_candidate`, and a reason code.
abbrev next_text : List ℕ
next_text =
    b't' ∷ b'r' ∷ b'y' ∷ b'_' ∷ b'n' ∷ b'e' ∷ b'x' ∷ b't' ∷ b'_' ∷ b'c' ∷ b'a' ∷ b'n' ∷ b'd' ∷ b'i'
    ∷ b'd' ∷ b'a' ∷ b't' ∷ b'e' ∷ []

abbrev down_text : List ℕ
down_text = b'd' ∷ b'o' ∷ b'w' ∷ b'n' ∷ []

-- Candidate 10 fails, and others return their number. The state counts the executions.
abbrev callbacks : Callbacks ℕ ℕ ℕ ℕ
callbacks = record {
  execute = λ c n s. (if c == 10 then err (failure 3) else ok c, s + 1);
  accept = λ v c n s. (ok (some (record { accepted = some true; reason_code = none })), s);
  classify_failure = λ e c n s.
      (ok (some (record { disposition = some next_text; reason_code = some down_text })), s);
}

abbrev opts : SelectionOpts ℕ ℕ ℕ ℕ
opts = record {
  callbacks = callbacks;
  retry = some (attempts 2);
  max_candidates = none;
  deadline_at = none;
  max_evidence = none;
}

abbrev policy : CandidatePolicy ℕ ℕ ℕ ℕ
policy = record { callbacks = callbacks; retry = times_only 2; deadline_at = none }

abbrev around : Surroundings ℕ ℕ
around = record {
  world = λ i. record { random = λ n. 0; sleep = λ n. none };
  clock = λ i. record { cuts = λ n. false; interrupted = λ n s. s + 1; late = λ n. [] };
  describe = λ e. record { name = []; message = [] };
}

abbrev two : List ℕ
two = 10 ∷ 20 ∷ []

abbrev selection : Selection ℕ ℕ ℕ ℕ
selection = run_candidates policy around 256 two 0 (no_evidence 0) none

abbrev chosen : RunResult ℕ ℕ ℕ
chosen = record {
  status = Status.accepted 20 1 20;
  evidence =
      record {
        attempt = record {
          attempt = 1;
          outcome = Outcome.failed;
          reason_code = some down_text;
          error = some (record { name = []; message = [] });
        };
        candidate_index = 0;
        decision = acted Disposition.try_next_candidate;
        reason_code = some down_text;
        error = some (record { name = []; message = [] });
      }
      ∷ record {
        attempt = record {
          attempt = 1;
          outcome = Outcome.succeeded;
          reason_code = none;
          error = none;
        };
        candidate_index = 1;
        decision = AttemptDecision.accepted;
        reason_code = none;
        error = none;
      }
      ∷ [];
  dropped_evidence = 0;
}

first_acceptable-Trail_example :
    (log : List DecisionRecord) × Trail 2 2 0 log (accepted_at 1)
    × (map shown chosen.evidence ≡ map decided (take 256 log))
    × (2 + 0 ≡ length log)
    × IsSound callbacks two 0 chosen.status
unfolding first_acceptable normalize_candidate_policy workit.Engine.Retry.validate_retry_policy
    workit.Run.Retry.retry workit.Engine.Retry.normalize_retry workit.Run.Retry.retry_loop
    workit.Run.Retry.after_attempt workit.Candidates.Attempt.recorded_attempt
    workit.Candidates.Classification.classify_candidate_error
    workit.Candidates.Classification.normalize_action_decision
    workit.Candidates.Classification.is_reason_code workit.Candidates.Attempt.retries_same
    workit.Candidates.Classification.normalize_acceptance_decision
    workit.Candidates.Evidence.map_candidate_evidence workit.Candidates.Evidence.record_attempt
    workit.Candidates.Evidence.record_decision workit.Candidates.Evidence.evidence_of
first_acceptable-Trail_example =
    first_acceptable-Trail two opts around 0 none policy selection chosen refl refl refl
      (λ i n. refl)

first_acceptable-bounded_example :
    (selection.progress.user ≡ (2 + 0) + 0) × (2 + 0 ≤ 2 * 2) × (2 * 2 ≤ 10000)
unfolding first_acceptable normalize_candidate_policy workit.Engine.Retry.validate_retry_policy
    workit.Run.Retry.retry workit.Engine.Retry.normalize_retry workit.Run.Retry.retry_loop
    workit.Run.Retry.after_attempt workit.Candidates.Attempt.recorded_attempt
    workit.Candidates.Classification.classify_candidate_error
    workit.Candidates.Classification.normalize_action_decision
    workit.Candidates.Classification.is_reason_code workit.Candidates.Attempt.retries_same
    workit.Candidates.Classification.normalize_acceptance_decision
    workit.Candidates.Evidence.map_candidate_evidence workit.Candidates.Evidence.record_attempt
    workit.Candidates.Evidence.record_decision workit.Candidates.Evidence.evidence_of
first_acceptable-bounded_example =
    first_acceptable-bounded two opts around 0 none policy selection chosen (λ s. s) refl refl refl
      (record {
        execute = λ c n s. omega arith;
        accept = λ v c n s. refl;
        classify_failure = λ e c n s. refl;
      })
      (λ i n s. omega arith)

first_acceptable-status_example : IsSound callbacks two 0 chosen.status
unfolding first_acceptable normalize_candidate_policy workit.Engine.Retry.validate_retry_policy
    workit.Run.Retry.retry workit.Engine.Retry.normalize_retry workit.Run.Retry.retry_loop
    workit.Run.Retry.after_attempt workit.Candidates.Attempt.recorded_attempt
    workit.Candidates.Classification.classify_candidate_error
    workit.Candidates.Classification.normalize_action_decision
    workit.Candidates.Classification.is_reason_code workit.Candidates.Attempt.retries_same
    workit.Candidates.Classification.normalize_acceptance_decision
    workit.Candidates.Evidence.map_candidate_evidence workit.Candidates.Evidence.record_attempt
    workit.Candidates.Evidence.record_decision workit.Candidates.Evidence.evidence_of
first_acceptable-status_example =
    first_acceptable-status two opts around 0 none selection chosen refl refl

-- The deadline cuts the first attempt off, whose body has recorded that the next candidate is to be
-- tried. The result is terminal, and its only entry shows that decision.
abbrev overtaken : Surroundings ℕ ℕ
overtaken = record around {
  clock = λ i. record {
    cuts = λ n. true;
    interrupted = λ n s. s + 1;
    late = λ n.
        record {
          candidate_index = i;
          decision = acted Disposition.try_next_candidate;
          reason_code = some down_text;
        }
        ∷ [];
  };
}

abbrev shown_of :
    Result (Thrown ℕ) (RunResult ℕ ℕ ℕ) → Option (Status ℕ ℕ ℕ) × List (ℕ × AttemptDecision)
shown_of (ok r) = (some r.status, map shown r.evidence)
shown_of (err e) = (none, [])

overtaken_evidence :
    shown_of
      (run_candidates
        (record policy { deadline_at = some 5 })
        overtaken
        256
        two
        0
        (no_evidence 0)
        none).result
    ≡ (
      some (Status.terminal workit_timeout timeout_error),
      (0, acted Disposition.try_next_candidate) ∷ [],
    )
unfolding first_acceptable normalize_candidate_policy workit.Run.Retry.retry
    workit.Engine.Retry.normalize_retry workit.Run.Retry.retry_loop workit.Run.Retry.after_attempt
    workit.Candidates.Attempt.recorded_attempt
    workit.Candidates.Classification.classify_candidate_error workit.Candidates.Attempt.retries_same
    workit.Candidates.Evidence.map_candidate_evidence workit.Candidates.Evidence.record_attempt
    workit.Candidates.Evidence.record_decision workit.Candidates.Evidence.evidence_of
overtaken_evidence = refl
