-- ===== src/Candidates/Classification.antt =====
-- packages/core/src/candidates/classification.ts: how failures are classified, and how the answers of
-- the caller's classifiers are checked.
pub mod Codes
pub mod Said
use workit.Prelude.{
  ℕ, suc, Bool, true, false, ◌&&◌, ◌||◌, Option, none, some, List, [], ◌∷◌, leb, ltb, ◌==◌, all,
  length, same_text, if◌then◌else◌, Result, ok, err, ◌>>=◌,
}
use workit.Engine.Errors.{reason_code_pattern}
use workit.Run.Thrown.{
  Thrown, failure, range_error, budget_not_set, type_error, cancellation, timeout_error,
  budget_exceeded,
}
use workit.Candidates.{
  Disposition, retry_same_candidate, try_next_candidate, terminal, requires_user_input,
  ActionDecision, FailureDecision, action, cancelled, AcceptanceDecision, accepted, rejected,
  AttemptError, classified, callback, plain, ActionAnswer, AcceptanceAnswer,
}

abbrev pub retry_same_candidate_text : List ℕ
retry_same_candidate_text =
    b'r' ∷ b'e' ∷ b't' ∷ b'r' ∷ b'y' ∷ b'_' ∷ b's' ∷ b'a' ∷ b'm' ∷ b'e' ∷ b'_' ∷ b'c' ∷ b'a' ∷ b'n'
    ∷ b'd' ∷ b'i' ∷ b'd' ∷ b'a' ∷ b't' ∷ b'e' ∷ []

abbrev pub try_next_candidate_text : List ℕ
try_next_candidate_text =
    b't' ∷ b'r' ∷ b'y' ∷ b'_' ∷ b'n' ∷ b'e' ∷ b'x' ∷ b't' ∷ b'_' ∷ b'c' ∷ b'a' ∷ b'n' ∷ b'd' ∷ b'i'
    ∷ b'd' ∷ b'a' ∷ b't' ∷ b'e' ∷ []

abbrev pub terminal_text : List ℕ
terminal_text = b't' ∷ b'e' ∷ b'r' ∷ b'm' ∷ b'i' ∷ b'n' ∷ b'a' ∷ b'l' ∷ []

abbrev pub requires_user_input_text : List ℕ
requires_user_input_text =
    b'r' ∷ b'e' ∷ b'q' ∷ b'u' ∷ b'i' ∷ b'r' ∷ b'e' ∷ b's' ∷ b'_' ∷ b'u' ∷ b's' ∷ b'e' ∷ b'r' ∷ b'_'
    ∷ b'i' ∷ b'n' ∷ b'p' ∷ b'u' ∷ b't' ∷ []

abbrev pub workit_budget_exhausted : List ℕ
workit_budget_exhausted =
    b'w' ∷ b'o' ∷ b'r' ∷ b'k' ∷ b'i' ∷ b't' ∷ b'_' ∷ b'b' ∷ b'u' ∷ b'd' ∷ b'g' ∷ b'e' ∷ b't' ∷ b'_'
    ∷ b'e' ∷ b'x' ∷ b'h' ∷ b'a' ∷ b'u' ∷ b's' ∷ b't' ∷ b'e' ∷ b'd' ∷ []

abbrev pub workit_timeout : List ℕ
workit_timeout =
    b'w' ∷ b'o' ∷ b'r' ∷ b'k' ∷ b'i' ∷ b't' ∷ b'_' ∷ b't' ∷ b'i' ∷ b'm' ∷ b'e' ∷ b'o' ∷ b'u' ∷ b't'
    ∷ []

abbrev pub workit_cancelled : List ℕ
workit_cancelled =
    b'w' ∷ b'o' ∷ b'r' ∷ b'k' ∷ b'i' ∷ b't' ∷ b'_' ∷ b'c' ∷ b'a' ∷ b'n' ∷ b'c' ∷ b'e' ∷ b'l' ∷ b'l'
    ∷ b'e' ∷ b'd' ∷ []

-- `[a-z0-9_]`.
abbrev is_lower : ℕ → Bool
is_lower c = leb b'a' c && leb c b'z'

abbrev is_word : ℕ → Bool
is_word c = is_lower c || leb b'0' c && leb c b'9' || c == b'_'

-- `REASON_CODE_PATTERN`: `^[a-z][a-z0-9_]{0,127}$`.
unfoldable pub is_reason_code : List ℕ → Bool
is_reason_code [] = false
is_reason_code (c ∷ cs) = is_lower c && all is_word cs && leb (length cs) 127

disposition_of : List ℕ → Option Disposition
disposition_of t =
    if same_text t retry_same_candidate_text
    then some retry_same_candidate
    else if same_text t try_next_candidate_text
    then some try_next_candidate
    else if same_text t terminal_text
    then some terminal
    else if same_text t requires_user_input_text
    then some requires_user_input
    else none

-- The first classifier of the table that matches: an exceeded budget and a timeout are cancellations
-- too, and stand before them.
unfoldable pub classify_work_it_failure : {X : Type 0} → Thrown X → Option FailureDecision
classify_work_it_failure budget_exceeded =
    some (action (record { disposition = terminal; reason_code = workit_budget_exhausted }))
classify_work_it_failure timeout_error =
    some (action (record { disposition = terminal; reason_code = workit_timeout }))
classify_work_it_failure cancellation = some (cancelled workit_cancelled)
classify_work_it_failure (failure x) = none
classify_work_it_failure (range_error e) = none
classify_work_it_failure budget_not_set = none
classify_work_it_failure type_error = none

abbrev pub is_known : {X : Type 0} → Thrown X → Bool
is_known e = elim (classify_work_it_failure e) [ none ↦ false | some d ↦ true ]

-- An error that the wrappers around an attempt throw as it is.
unfoldable pub lift : {X : Type 0} → Thrown X → Thrown (AttemptError X)
lift (failure x) = failure (plain x)
lift (range_error e) = range_error e
lift budget_not_set = budget_not_set
lift type_error = type_error
lift cancellation = cancellation
lift timeout_error = timeout_error
lift budget_exceeded = budget_exceeded

assert_reason_code : {X : Type 0} → Option (List ℕ) → Result (Thrown X) (List ℕ)
assert_reason_code none = err (range_error reason_code_pattern)
assert_reason_code (some t) =
    if is_reason_code t then ok t else err (range_error reason_code_pattern)

known_disposition : {X : Type 0} → Option Disposition → Result (Thrown X) Disposition
known_disposition none = err type_error
known_disposition (some d) = ok d

disposition_text : {X : Type 0} → Option (List ℕ) → Result (Thrown X) Disposition
unfolding disposition_of known_disposition
disposition_text none = err type_error
disposition_text (some t) = known_disposition (disposition_of t)

unfoldable pub normalize_action_decision :
    {X : Type 0} → Option ActionAnswer → Result (Thrown X) ActionDecision
unfolding disposition_text assert_reason_code
normalize_action_decision none = err type_error
normalize_action_decision (some a) = do
  d ← disposition_text a.disposition
  c ← assert_reason_code a.reason_code
  ok (record { disposition = d; reason_code = c })

acceptance_of : {X : Type 0} → Option Bool → Option (List ℕ) → Result (Thrown X) AcceptanceDecision
unfolding assert_reason_code
acceptance_of none code = err type_error
acceptance_of (some true) code = ok AcceptanceDecision.accepted
acceptance_of (some false) code = do c ← assert_reason_code code; ok (rejected c)

unfoldable pub normalize_acceptance_decision :
    {X : Type 0} → Option AcceptanceAnswer → Result (Thrown X) AcceptanceDecision
unfolding acceptance_of
normalize_acceptance_decision none = err type_error
normalize_acceptance_decision (some a) = acceptance_of a.accepted a.reason_code

-- What the caller's classifier said, or threw, of an error.
unfoldable pub answered :
    {X : Type 0}
    → Thrown X
    → Result (Thrown X) ActionDecision
    → Result (Thrown (AttemptError X)) (Thrown X × ActionDecision)
unfolding lift classify_work_it_failure
answered error (ok d) = ok (error, d)
answered error (err e) = if is_known e then err (lift e) else err (failure (callback e))

-- The caller's classifier is asked only of an error that the runtime does not know, a cancellation is
-- thrown on, and so is a known error of the classifier's own.
unfoldable pub classify_candidate_error :
    {X S : Type 0}
    → (Thrown X → S → Result (Thrown X) (Option ActionAnswer) × S)
    → Thrown X
    → S
    → Result (Thrown (AttemptError X)) (Thrown X × ActionDecision) × S
unfolding answered lift
classify_candidate_error classify error s = elim (classify_work_it_failure error) [
  | some (cancelled code) ↦ (err (lift error), s)
  | some (action d) ↦ (ok (error, d), s)
  | none ↦ let (a, s') = classify error s in (answered error (a >>= normalize_action_decision), s')
]
