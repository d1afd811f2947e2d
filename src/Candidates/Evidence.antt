-- ===== src/Candidates/Evidence.antt =====
-- packages/core/src/candidates/evidence.ts, and the attempt recorder of
-- packages/core/src/replay/index.ts (`createAttemptRecorder`) that it reads. Times, task ids and
-- metadata of an attempt are left out.
use workit.Prelude.{
  ℕ, suc, Option, none, some, List, [], ◌∷◌, ◌++◌, ltb, length, take, if◌then◌else◌, Result, ok,
  err,
}
use workit.Run.Thrown.{
  Thrown, failure, range_error, budget_not_set, type_error, cancellation, timeout_error,
  budget_exceeded, is_cancellation,
}
use workit.Run.Retry.{Outcome}
use workit.Candidates.{AttemptDecision, DecisionRecord, AttemptError, classified, callback, plain}
use workit.Candidates.Classification.{is_reason_code}

-- `WorkItReceiptError`.
pub record ReceiptError : Type 0 where
  pub name : List ℕ
  pub message : List ℕ

-- `WorkItAttemptEvidence`.
pub record AttemptEvidence : Type 0 where
  pub attempt : ℕ
  pub outcome : Outcome
  pub reason_code : Option (List ℕ)
  pub error : Option ReceiptError

-- `CandidateAttemptEvidence`.
pub record CandidateEvidence : Type 0 where
  pub attempt : AttemptEvidence
  pub candidate_index : ℕ
  pub decision : AttemptDecision
  pub reason_code : Option (List ℕ)
  pub error : Option ReceiptError

-- The recorder of a selection, and its decision buffer. Both hold at most `limit` entries.
pub record Buffers : Type 0 where
  pub attempts : List AttemptEvidence
  pub dropped_attempts : ℕ
  pub decisions : List DecisionRecord

abbrev pub max_error_name_length : ℕ
max_error_name_length = 128

abbrev pub max_error_message_length : ℕ
max_error_message_length = 1024

-- `recordDecision`.
unfoldable pub record_decision : ℕ → DecisionRecord → Buffers → Buffers
record_decision limit d b =
    if ltb (length b.decisions) limit then record b { decisions = b.decisions ++ d ∷ [] } else b

-- `record`, inside of `createAttemptRecorder`.
unfoldable pub record_attempt : ℕ → AttemptEvidence → Buffers → Buffers
record_attempt limit a b =
    if ltb (length b.attempts) limit
    then record b { attempts = b.attempts ++ a ∷ [] }
    else record b { dropped_attempts = suc b.dropped_attempts }

truncate : List ℕ → ℕ → List ℕ
truncate t n = take n t

unfoldable pub bound_error : ReceiptError → ReceiptError
unfolding truncate
bound_error e = record {
  name = truncate e.name max_error_name_length;
  message = truncate e.message max_error_message_length;
}

-- The name of a `CandidateCallbackError`, and its message.
abbrev callback_error : ReceiptError
callback_error = record {
  name =
      b'C' ∷ b'a' ∷ b'n' ∷ b'd' ∷ b'i' ∷ b'd' ∷ b'a' ∷ b't' ∷ b'e' ∷ b'C' ∷ b'a' ∷ b'l' ∷ b'l'
      ∷ b'b' ∷ b'a' ∷ b'c' ∷ b'k' ∷ b'E' ∷ b'r' ∷ b'r' ∷ b'o' ∷ b'r' ∷ [];
  message =
      b'c' ∷ b'a' ∷ b'n' ∷ b'd' ∷ b'i' ∷ b'd' ∷ b'a' ∷ b't' ∷ b'e' ∷ b' ' ∷ b'p' ∷ b'o' ∷ b'l'
      ∷ b'i' ∷ b'c' ∷ b'y' ∷ b' ' ∷ b'c' ∷ b'a' ∷ b'l' ∷ b'l' ∷ b'b' ∷ b'a' ∷ b'c' ∷ b'k' ∷ b' '
      ∷ b'f' ∷ b'a' ∷ b'i' ∷ b'l' ∷ b'e' ∷ b'd' ∷ [];
}

-- `normalizeError`, with `describe` for the errors of the caller and of the runtime: a classified error
-- has the name and the message of its original, cut to 1024 characters.
unfoldable pub normalize_error :
    {X : Type 0} → (Thrown X → ReceiptError) → Thrown (AttemptError X) → ReceiptError
unfolding truncate
normalize_error describe (failure (classified e d)) = record {
  name = truncate (describe e).name 1024;
  message = truncate (describe e).message 1024;
}
normalize_error describe (failure (callback e)) = callback_error
normalize_error describe (failure (plain x)) = describe (failure x)
normalize_error describe (range_error e) = describe (range_error e)
normalize_error describe budget_not_set = describe budget_not_set
normalize_error describe type_error = describe type_error
normalize_error describe cancellation = describe cancellation
normalize_error describe timeout_error = describe timeout_error
normalize_error describe budget_exceeded = describe budget_exceeded

-- `readAttemptReasonCode`, of the reason code that the candidate task gives the recorder.
reason_of : {X : Type 0} → Thrown (AttemptError X) → Option (List ℕ)
reason_of (failure (classified e d)) =
    if is_reason_code d.reason_code then some d.reason_code else none
reason_of _ = none

unfoldable pub evidence_of :
    {X A : Type 0}
    → (Thrown X → ReceiptError)
    → ℕ
    → Result (Thrown (AttemptError X)) A
    → AttemptEvidence
unfolding normalize_error reason_of
evidence_of describe n (ok v) = record {
  attempt = n;
  outcome = Outcome.succeeded;
  reason_code = none;
  error = none;
}
evidence_of describe n (err e) = record {
  attempt = n;
  outcome = if is_cancellation e then Outcome.cancelled else Outcome.failed;
  reason_code = reason_of e;
  error = some (normalize_error describe e);
}

or_else : {A : Type 0} → Option A → Option A → Option A
or_else none d = d
or_else (some a) d = some a

bounded_error : Option ReceiptError → Option ReceiptError
unfolding bound_error
bounded_error none = none
bounded_error (some e) = some (bound_error e)

unfoldable pub enrich : AttemptEvidence → DecisionRecord → CandidateEvidence
unfolding or_else bounded_error
enrich a d = record {
  attempt = a;
  candidate_index = d.candidate_index;
  decision = d.decision;
  reason_code = or_else d.reason_code a.reason_code;
  error = bounded_error a.error;
}

-- An attempt with no decision of its index would be a `TypeError`, here `none`.
unfoldable pub map_candidate_evidence :
    List AttemptEvidence → List DecisionRecord → Option (List CandidateEvidence)
unfolding enrich
map_candidate_evidence [] ds = some []
map_candidate_evidence (a ∷ rest) [] = none
map_candidate_evidence (a ∷ rest) (d ∷ ds) =
    let l = map_candidate_evidence rest ds in
    elim l [ none ↦ none | some k ↦ some (enrich a d ∷ k) ]
