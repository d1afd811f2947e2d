-- ===== src/Candidates/Attempt/Counted.antt =====
-- What one attempt of a candidate adds to the recorder and to a count of the executions that the
-- caller's state keeps (packages/core/src/candidates/index.ts, `createAttemptTask`;
-- packages/core/src/replay/index.ts, `record`).
use workit.Prelude.{
  ℕ, suc, ◌+◌, ◌≡◌, refl, ap, ◌∙◌, inl, inr, ◌&&◌, Option, List, [], ◌∷◌, length, length-append,
  ltb, arith, Result, ok, err, Bool-cases,
}
use workit.Run.Thrown.{
  Thrown, failure, range_error, budget_not_set, type_error, cancellation, timeout_error,
  budget_exceeded,
}
use workit.Candidates.{
  ActionDecision, ActionAnswer, AcceptanceDecision, rejected, DecisionRecord, AttemptError,
  classified, callback, plain,
}
use workit.Candidates.Classification.{classify_candidate_error, classify_work_it_failure, is_known}
use workit.Candidates.Evidence.{AttemptEvidence, Buffers, record_decision, record_attempt}
use workit.Candidates.Attempt.{
  AttemptResult, Callbacks, Clock, Progress, Candidate, record_all, recorded_attempt, recorded,
  bounded_attempt, create_attempt_task, executed, judged, record_failure, reclassified,
  classify_deadline_failure,
}

-- The caller's state counts the executions, and nothing else.
pub record Counts {X C T S : Type 0} (count : S → ℕ) (calls : Callbacks X C T S) : Type 0 where
  pub execute : (c : C) (n : ℕ) (s : S) → count (calls.execute c n s).1 ≡ suc (count s)
  pub accept : (v : T) (c : C) (n : ℕ) (s : S) → count (calls.accept v c n s).1 ≡ count s
  pub classify_failure :
      (e : Thrown X) (c : C) (n : ℕ) (s : S) → count (calls.classify_failure e c n s).1 ≡ count s

-- An execution that the deadline cuts off has been counted.
abbrev pub CountsCut : {S : Type 0} → (S → ℕ) → Clock S → Type 0
CountsCut {S} count clock = (n : ℕ) (s : S) → count (clock.interrupted n s) ≡ suc (count s)

-- The attempts that the recorder has kept or dropped.
abbrev pub total : Buffers → ℕ
total b = length b.attempts + b.dropped_attempts

total-record_decision :
    (limit : ℕ) (d : DecisionRecord) (b : Buffers) → total (record_decision limit d b) ≡ total b
unfolding record_decision
total-record_decision limit d b = elim (Bool-cases (ltb (length b.decisions) limit)) [
  | inl h ↦ rw (h, record_decision) refl
  | inr h ↦ rw (h, record_decision) refl
]

total-record_all :
    (limit : ℕ) (ds : List DecisionRecord) (b : Buffers) → total (record_all limit ds b) ≡ total b
unfolding record_all
total-record_all limit [] b = refl
total-record_all limit (d ∷ ds) b =
    total-record_all limit ds (record_decision limit d b) ∙ total-record_decision limit d b

total-record_attempt :
    (limit : ℕ) (a : AttemptEvidence) (b : Buffers)
    → total (record_attempt limit a b) ≡ suc (total b)
unfolding record_attempt
total-record_attempt limit a b = elim (Bool-cases (ltb (length b.attempts) limit)) [
  | inl h ↦ rw (h, record_attempt) (omega (arith, length-append b.attempts (a ∷ [])))
  | inr h ↦ rw (h, record_attempt) (omega arith)
]

module _ {S : Type 0} (count : S → ℕ) where
  -- The state counts `k`, and the recorder `n`.
  abbrev pub At : ℕ → ℕ → Progress S → Type 0
  At k n p = (count p.user ≡ k) × (total p.buffers ≡ n)

  failure-At :
      {X : Type 0} (A : Type 0) (limit i k : ℕ)
      (x : Result (Thrown (AttemptError X)) (Thrown X × ActionDecision)) (s : S) (b : Buffers)
      → count s ≡ k
      → At k (total b) (record_failure {A = A} limit i (x, s) b).1
  unfolding record_failure
  failure-At A limit i k (ok (e, d)) s b h = (h, total-record_decision limit _ b)
  failure-At A limit i k (err e) s b h = (h, refl)

  classify-count :
      {X : Type 0} (f : Thrown X → S → Result (Thrown X) (Option ActionAnswer) × S) (e : Thrown X)
      (s : S)
      → ((x : Thrown X) (t : S) → count (f x t).1 ≡ count t)
      → count (classify_candidate_error f e s).1 ≡ count s
  unfolding classify_candidate_error classify_work_it_failure
  classify-count f (failure x) s h = h (failure x) s
  classify-count f (range_error x) s h = h (range_error x) s
  classify-count f budget_not_set s h = h budget_not_set s
  classify-count f type_error s h = h type_error s
  classify-count f cancellation s h = refl
  classify-count f timeout_error s h = refl
  classify-count f budget_exceeded s h = refl

  judged-At :
      {X T : Type 0} (limit i k : ℕ) (v : T) (a : Result (Thrown X) AcceptanceDecision) (s : S)
      (b : Buffers)
      → count s ≡ k
      → At k (total b) (judged limit i v a s b).1
  unfolding judged
  judged-At limit i k v (ok AcceptanceDecision.accepted) s b h =
      (h, total-record_decision limit _ b)
  judged-At limit i k v (ok (rejected code)) s b h = (h, total-record_decision limit _ b)
  judged-At limit i k v (err e) s b h = elim (Bool-cases (is_known e)) [
    | inl y ↦ rw (y, judged) (h, refl)
    | inr y ↦ rw (y, judged) (h, refl)
  ]

module _ {X C T S : Type 0} (count : S → ℕ) (c : Candidate X C T S)
    (counts : Counts count c.callbacks) (cut : CountsCut count c.clock) where
  executed-At :
      (n k : ℕ) (r : Result (Thrown X) T) (s : S) (b : Buffers)
      → count s ≡ k
      → At count k (total b) (executed c n r s b).1
  unfolding executed
  executed-At n k (ok v) s b h =
      judged-At count c.limit c.index k v _ _ b (counts.accept v c.candidate n s ∙ h)
  executed-At n k (err e) s b h =
      failure-At count (AttemptResult T) c.limit c.index k _ _ b
        (classify-count count _ e s (λ x t. counts.classify_failure x c.candidate n t) ∙ h)

  bounded-At :
      (n : ℕ) (p : Progress S)
      → At count (suc (count p.user)) (total p.buffers) (bounded_attempt c n p).1
  unfolding bounded_attempt create_attempt_task
  bounded-At n p = elim (Bool-cases (c.has_deadline && c.clock.cuts n)) [
    | inl h ↦
        rw (h, bounded_attempt) (cut n p.user, total-record_all c.limit (c.clock.late n) p.buffers)
    | inr h ↦
        rw (h, bounded_attempt)
          (executed-At n _ _ _ p.buffers (counts.execute c.candidate n p.user))
  ]

  reclassified-At :
      (n k m : ℕ) (e : Thrown X) (p : Progress S)
      → At count k m p
      → At count k m (reclassified c n e p).1
  unfolding reclassified
  reclassified-At n k m e p (h, g) =
      let (x, y) =
        failure-At count (AttemptResult T) c.limit c.index k _ _ p.buffers (
          classify-count count _ e p.user (λ x t. counts.classify_failure x c.candidate n t) ∙ h) in
      (x, y ∙ g)

  cut-At :
      (n k m : ℕ) (r : Result (Thrown (AttemptError X)) (AttemptResult T)) (p : Progress S)
      → At count k m p
      → At count k m (classify_deadline_failure c n (r, p)).1
  unfolding classify_deadline_failure
  cut-At n k m (ok r) p h = h
  cut-At n k m (err (failure (classified e d))) p h = h
  cut-At n k m (err (failure (callback e))) p h = h
  cut-At n k m (err (failure (plain x))) p h = reclassified-At n k m _ p h
  cut-At n k m (err (range_error e)) p h = reclassified-At n k m _ p h
  cut-At n k m (err budget_not_set) p h = reclassified-At n k m _ p h
  cut-At n k m (err type_error) p h = reclassified-At n k m _ p h
  cut-At n k m (err cancellation) p h = reclassified-At n k m _ p h
  cut-At n k m (err timeout_error) p h = reclassified-At n k m _ p h
  cut-At n k m (err budget_exceeded) p h = reclassified-At n k m _ p h

  -- Each attempt executes once, and is kept or dropped.
  pub recorded_attempt-At :
      (n : ℕ) (p : Progress S)
      → At count (suc (count p.user)) (suc (total p.buffers)) (recorded_attempt c n p).1
  unfolding recorded_attempt recorded
  recorded_attempt-At n p =
      let (h, g) =
        cut-At n _ _ (bounded_attempt c n p).0 (bounded_attempt c n p).1 (bounded-At n p) in
      (h, total-record_attempt c.limit _ _ ∙ ap suc g)
