-- ===== src/Candidates/Attempt/Verdict.antt =====
-- What one attempt of a candidate leaves in the buffers of the selection
-- (packages/core/src/candidates/index.ts, `createAttemptTask` and `classifyDeadlineFailure`).
use workit.Prelude.{
  ℕ, ◌≡◌, refl, ap, subst, ◌⊎◌, inl, inr, Bool, true, false, ◌&&◌, Option, none, some, List, [],
  Result, ok, err, Bool-cases,
}
use workit.Run.Thrown.{
  Thrown, failure, range_error, budget_not_set, type_error, cancellation, timeout_error,
  budget_exceeded,
}
use workit.Candidates.{
  ActionDecision, ActionAnswer, AcceptanceDecision, rejected, AttemptDecision, acted,
  quality_rejected, DecisionRecord, AttemptError, classified, callback, plain,
}
use workit.Candidates.Classification.{
  classify_candidate_error, classify_work_it_failure, is_known, lift, answered, is_reason_code,
}
use workit.Candidates.Classification.Codes.{action-coded, rejected-coded}
use workit.Candidates.Evidence.{
  AttemptEvidence, Buffers, record_decision, record_attempt, evidence_of,
}
use workit.Candidates.Attempt.{
  AttemptResult, refused, Clock, Progress, record_all, Candidate, recorded_attempt, recorded,
  bounded_attempt, create_attempt_task, executed, judged, record_failure, reclassified,
  classify_deadline_failure,
}

-- Every result but an error that is not classified comes with a decision.
abbrev pub is_verdict : {X T : Type 0} → Result (Thrown (AttemptError X)) T → Bool
is_verdict (ok v) = true
is_verdict (err (failure (classified e d))) = true
is_verdict (err (failure (callback e))) = false
is_verdict (err (failure (plain x))) = false
is_verdict (err (range_error e)) = false
is_verdict (err budget_not_set) = false
is_verdict (err type_error) = false
is_verdict (err cancellation) = false
is_verdict (err timeout_error) = false
is_verdict (err budget_exceeded) = false

-- A reason code that is there matches the pattern.
abbrev pub IsCoded : Option (List ℕ) → Type 0
IsCoded none = ⊥
IsCoded (some t) = is_reason_code t ≡ true

-- The decision that belongs to a result of an attempt of candidate `i`. A reason code is well-formed,
-- and a cancellation is never classified.
abbrev pub Decides :
    {X T : Type 0}
    → ℕ
    → Result (Thrown (AttemptError X)) (AttemptResult T)
    → DecisionRecord
    → Type 0
Decides i (ok (AttemptResult.accepted v)) d =
    (d.candidate_index ≡ i) × (d.decision ≡ AttemptDecision.accepted)
Decides i (ok refused) d =
    (d.candidate_index ≡ i) × (d.decision ≡ quality_rejected) × IsCoded d.reason_code
Decides i (err (failure (classified e a))) d =
    (d.candidate_index ≡ i)
    × (d.decision ≡ acted a.disposition)
    × (d.reason_code ≡ some a.reason_code)
    × (is_reason_code a.reason_code ≡ true)
    × ¬ (e ≡ cancellation)
Decides i (err (failure (callback e))) d = ⊥
Decides i (err (failure (plain x))) d = ⊥
Decides i (err (range_error e)) d = ⊥
Decides i (err budget_not_set) d = ⊥
Decides i (err type_error) d = ⊥
Decides i (err cancellation) d = ⊥
Decides i (err timeout_error) d = ⊥
Decides i (err budget_exceeded) d = ⊥

-- A body that the deadline cuts off has recorded nothing when the deadline's decision is recorded.
abbrev pub IsPrompt : {S : Type 0} → Clock S → Type 0
IsPrompt clock = (n : ℕ) → clock.late n ≡ []

module _ {X T S : Type 0} where
  -- Either nothing is recorded and the result is no verdict, or the decision of the verdict is.
  abbrev IsDecided :
      ℕ → ℕ → Buffers → Result (Thrown (AttemptError X)) (AttemptResult T) × Progress S → Type 0
  IsDecided limit i b x =
      ((is_verdict x.0 ≡ false) × (x.1.buffers ≡ b))
      ⊎ ((d : DecisionRecord) × Decides i x.0 d × (x.1.buffers ≡ record_decision limit d b))

-- A result that is no verdict has recorded nothing.
unchanged :
    {P : Type 0} {Q : DecisionRecord → Type 0} {x b : Buffers}
    → (P × (x ≡ b)) ⊎ ((d : DecisionRecord) × ⊥ × Q d)
    → x ≡ b
unchanged (inl (p, e)) = e
unchanged (inr (d, h, q)) = absurd h

lift-no_verdict :
    {X : Type 0} (T : Type 0) (e : Thrown X) → is_verdict {T = T} (err (lift e)) ≡ false
unfolding lift
lift-no_verdict T (failure x) = refl
lift-no_verdict T (range_error e) = refl
lift-no_verdict T budget_not_set = refl
lift-no_verdict T type_error = refl
lift-no_verdict T cancellation = refl
lift-no_verdict T timeout_error = refl
lift-no_verdict T budget_exceeded = refl

module _ {X S : Type 0} (T : Type 0) where
  -- The two ways in which `classify_candidate_error` can end.
  answered-IsDecided :
      (limit i : ℕ) (e : Thrown X) (a : Result (Thrown X) ActionDecision) (s : S) (b : Buffers)
      → ((d : ActionDecision) → a ≡ ok d → is_reason_code d.reason_code ≡ true)
      → ¬ (e ≡ cancellation)
      → IsDecided {T = T} limit i b (record_failure limit i (answered e a, s) b)
  unfolding record_failure answered
  answered-IsDecided limit i e (ok d) s b coded u =
      inr (_, (refl, refl, refl, coded d refl, u), refl)
  answered-IsDecided limit i e (err x) s b coded u = elim (Bool-cases (is_known x)) [
    | inl h ↦ rw (h, answered, record_failure) (inl (lift-no_verdict (AttemptResult T) x, refl))
    | inr h ↦ rw (h, answered, record_failure) (inl (refl, refl))
  ]

  classified-IsDecided :
      (limit i : ℕ) (f : Thrown X → S → Result (Thrown X) (Option ActionAnswer) × S) (e : Thrown X)
      (s : S) (b : Buffers)
      → IsDecided {T = T} limit i b (record_failure limit i (classify_candidate_error f e s) b)
  unfolding record_failure classify_candidate_error classify_work_it_failure lift is_reason_code
  classified-IsDecided limit i f (failure x) s b =
      answered-IsDecided limit i (failure x) _ _ b (action-coded _) (λ h. cc)
  classified-IsDecided limit i f (range_error x) s b =
      answered-IsDecided limit i (range_error x) _ _ b (action-coded _) (λ h. cc)
  classified-IsDecided limit i f budget_not_set s b =
      answered-IsDecided limit i budget_not_set _ _ b (action-coded _) (λ h. cc)
  classified-IsDecided limit i f type_error s b =
      answered-IsDecided limit i type_error _ _ b (action-coded _) (λ h. cc)
  classified-IsDecided limit i f cancellation s b = inl (refl, refl)
  classified-IsDecided limit i f timeout_error s b =
      inr (_, (refl, refl, refl, refl, λ h. cc), refl)
  classified-IsDecided limit i f budget_exceeded s b =
      inr (_, (refl, refl, refl, refl, λ h. cc), refl)

module _ {X T S : Type 0} where
  judged-IsDecided :
      (limit i : ℕ) (v : T) (a : Result (Thrown X) AcceptanceDecision) (s : S) (b : Buffers)
      → ((c : List ℕ) → a ≡ ok (rejected c) → is_reason_code c ≡ true)
      → IsDecided limit i b (judged limit i v a s b)
  unfolding judged
  judged-IsDecided limit i v (ok AcceptanceDecision.accepted) s b coded =
      inr (_, (refl, refl), refl)
  judged-IsDecided limit i v (ok (rejected code)) s b coded =
      inr (_, (refl, refl, coded code refl), refl)
  judged-IsDecided limit i v (err e) s b coded = elim (Bool-cases (is_known e)) [
    | inl h ↦ rw (h, judged) (inl (lift-no_verdict (AttemptResult T) e, refl))
    | inr h ↦ rw (h, judged) (inl (refl, refl))
  ]

module _ {X C T S : Type 0} where
  executed-IsDecided :
      (c : Candidate X C T S) (n : ℕ) (r : Result (Thrown X) T) (s : S) (b : Buffers)
      → IsDecided c.limit c.index b (executed c n r s b)
  unfolding executed
  executed-IsDecided c n (ok v) s b = judged-IsDecided c.limit c.index v _ _ b (rejected-coded _)
  executed-IsDecided c n (err e) s b = classified-IsDecided T c.limit c.index _ e s b

  bounded-IsDecided :
      (c : Candidate X C T S) (n : ℕ) (p : Progress S)
      → IsPrompt c.clock
      → IsDecided c.limit c.index p.buffers (bounded_attempt c n p)
  unfolding bounded_attempt create_attempt_task record_all
  bounded-IsDecided c n p prompt = elim (Bool-cases (c.has_deadline && c.clock.cuts n)) [
    | inl h ↦
        rw (h, bounded_attempt) (inl (refl, ap (λ l. record_all c.limit l p.buffers) (prompt n)))
    | inr h ↦ rw (h, bounded_attempt) (executed-IsDecided c n _ _ p.buffers)
  ]

  reclassified-IsDecided :
      (c : Candidate X C T S) (n : ℕ) (e : Thrown X) (p : Progress S) (b : Buffers)
      → p.buffers ≡ b
      → IsDecided c.limit c.index b (reclassified c n e p)
  unfolding reclassified
  reclassified-IsDecided c n e p b same =
      subst (λ x. IsDecided c.limit c.index x (reclassified c n e p)) same
        (classified-IsDecided T c.limit c.index _ e p.user p.buffers)

  cut-IsDecided :
      (c : Candidate X C T S) (n : ℕ) (b : Buffers)
      (r : Result (Thrown (AttemptError X)) (AttemptResult T)) (p : Progress S)
      → IsDecided c.limit c.index b (r, p)
      → IsDecided c.limit c.index b (classify_deadline_failure c n (r, p))
  unfolding classify_deadline_failure
  cut-IsDecided c n b (ok r) p h = h
  cut-IsDecided c n b (err (failure (classified e d))) p h = h
  cut-IsDecided c n b (err (failure (callback e))) p h = h
  cut-IsDecided c n b (err (failure (plain x))) p h = reclassified-IsDecided c n _ p b (unchanged h)
  cut-IsDecided c n b (err (range_error e)) p h = reclassified-IsDecided c n _ p b (unchanged h)
  cut-IsDecided c n b (err budget_not_set) p h = reclassified-IsDecided c n _ p b (unchanged h)
  cut-IsDecided c n b (err type_error) p h = reclassified-IsDecided c n _ p b (unchanged h)
  cut-IsDecided c n b (err cancellation) p h = reclassified-IsDecided c n _ p b (unchanged h)
  cut-IsDecided c n b (err timeout_error) p h = reclassified-IsDecided c n _ p b (unchanged h)
  cut-IsDecided c n b (err budget_exceeded) p h = reclassified-IsDecided c n _ p b (unchanged h)

  -- What a recorded attempt leaves: an entry of the recorder, and the decision before it, if the
  -- result is a verdict.
  pub recorded_attempt-IsDecided :
      (c : Candidate X C T S) (n : ℕ) (p : Progress S)
      → IsPrompt c.clock
      → (a : AttemptEvidence) × (b : Buffers) × ((recorded_attempt c n p).1.buffers
          ≡ record_attempt c.limit a b)
        × (((is_verdict (recorded_attempt c n p).0 ≡ false) × (b ≡ p.buffers))
            ⊎ ((d : DecisionRecord) × Decides c.index (recorded_attempt c n p).0 d
                × (b ≡ record_decision c.limit d p.buffers)))
  unfolding recorded_attempt recorded
  recorded_attempt-IsDecided c n p prompt =
      let x = classify_deadline_failure c n (bounded_attempt c n p) in
      (
        evidence_of c.describe n x.0,
        x.1.buffers,
        refl,
        cut-IsDecided c n p.buffers (bounded_attempt c n p).0 (bounded_attempt c n p).1
            (bounded-IsDecided c n p prompt),
      )
