-- ===== src/Candidates/Attempt/Answers.antt =====
-- Why an attempt of a candidate ends as it does: what the caller said of its value or its error
-- (packages/core/src/candidates/index.ts, `createAttemptTask` and `classifyDeadlineFailure`).
use workit.Prelude.{
  ℕ, ◌≡◌, refl, inl, inr, Bool, true, false, ◌&&◌, some, Result, ok, err, ◌>>=◌, Bool-cases,
}
use workit.Run.Thrown.{
  Thrown, failure, range_error, budget_not_set, type_error, cancellation, timeout_error,
  budget_exceeded,
}
use workit.Candidates.{
  Disposition, ActionDecision, ActionAnswer, AcceptanceAnswer, AcceptanceDecision, rejected,
  AttemptError, classified, callback, plain,
}
use workit.Candidates.Classification.{
  classify_candidate_error, classify_work_it_failure, is_known, lift, answered, is_reason_code,
  workit_timeout, workit_budget_exhausted, normalize_acceptance_decision,
}
use workit.Candidates.Classification.Said.{text_of, action-said, acceptance-said}
use workit.Candidates.Evidence.{Buffers}
use workit.Candidates.Attempt.{
  AttemptResult, refused, Callbacks, Progress, Candidate, recorded_attempt, recorded,
  bounded_attempt, create_attempt_task, executed, judged, record_failure, reclassified,
  classify_deadline_failure,
}

module _ {X C T S : Type 0} (calls : Callbacks X C T S) (c : C) where
  -- In some attempt and state, the caller's classifier said this of the error.
  abbrev Says : Thrown X → ActionDecision → Type 0
  Says e a =
      (n : ℕ) × (s : S) × (w : ActionAnswer) × ((calls.classify_failure e c n s).0 ≡ ok (some w))
      × (w.disposition ≡ some (text_of a.disposition))
      × (w.reason_code ≡ some a.reason_code)
      × (is_reason_code a.reason_code ≡ true)

  -- A cancellation is not classified, a timeout and an exceeded budget are terminal with their own
  -- reason codes, and every other error is what the caller's classifier said.
  abbrev pub IsClassified : Thrown X → ActionDecision → Type 0
  IsClassified cancellation a = ⊥
  IsClassified timeout_error a =
      (a.disposition ≡ Disposition.terminal) × (a.reason_code ≡ workit_timeout)
  IsClassified budget_exceeded a =
      (a.disposition ≡ Disposition.terminal) × (a.reason_code ≡ workit_budget_exhausted)
  IsClassified (failure x) a = Says (failure x) a
  IsClassified (range_error x) a = Says (range_error x) a
  IsClassified budget_not_set a = Says budget_not_set a
  IsClassified type_error a = Says type_error a

  -- In some attempt and state, the caller said of the value whether it is accepted.
  abbrev pub Judges : T → Bool → Type 0
  Judges v b =
      (n : ℕ) × (s : S) × (w : AcceptanceAnswer) × ((calls.accept v c n s).0 ≡ ok (some w))
      × (w.accepted ≡ some b)

  abbrev pub IsAnswered : Result (Thrown (AttemptError X)) (AttemptResult T) → Type 0
  IsAnswered (ok (AttemptResult.accepted v)) = Judges v true
  IsAnswered (ok refused) = (v : T) × Judges v false
  IsAnswered (err (failure (classified e a))) = IsClassified e a
  IsAnswered (err (failure (callback e))) = Unit
  IsAnswered (err (failure (plain x))) = Unit
  IsAnswered (err (range_error e)) = Unit
  IsAnswered (err budget_not_set) = Unit
  IsAnswered (err type_error) = Unit
  IsAnswered (err cancellation) = Unit
  IsAnswered (err timeout_error) = Unit
  IsAnswered (err budget_exceeded) = Unit

  pub lift-IsAnswered : (e : Thrown X) → IsAnswered (err (lift e))
  unfolding lift
  lift-IsAnswered (failure x) = tt
  lift-IsAnswered (range_error e) = tt
  lift-IsAnswered budget_not_set = tt
  lift-IsAnswered type_error = tt
  lift-IsAnswered cancellation = tt
  lift-IsAnswered timeout_error = tt
  lift-IsAnswered budget_exceeded = tt

  answered-IsAnswered :
      (limit i : ℕ) (e : Thrown X) (a : Result (Thrown X) ActionDecision) (s : S) (b : Buffers)
      → ((d : ActionDecision) → a ≡ ok d → IsClassified e d)
      → IsAnswered (record_failure {A = AttemptResult T} limit i (answered e a, s) b).0
  unfolding record_failure answered
  answered-IsAnswered limit i e (ok d) s b h = h d refl
  answered-IsAnswered limit i e (err x) s b h = elim (Bool-cases (is_known x)) [
    | inl k ↦ rw (k, answered, record_failure) (lift-IsAnswered x)
    | inr k ↦ rw (k, answered, record_failure) tt
  ]

  classified-IsAnswered :
      (limit i n : ℕ) (e : Thrown X) (s : S) (b : Buffers)
      → IsAnswered
          (record_failure {A = AttemptResult T} limit i
            (classify_candidate_error (λ x. calls.classify_failure x c n) e s)
            b).0
  unfolding record_failure classify_candidate_error classify_work_it_failure lift
  classified-IsAnswered limit i n (failure x) s b =
      answered-IsAnswered limit i (failure x) _ _ b
        (λ d k. let (w, e, y, z, u) = action-said _ d k in (n, s, w, e, y, z, u))
  classified-IsAnswered limit i n (range_error x) s b =
      answered-IsAnswered limit i (range_error x) _ _ b
        (λ d k. let (w, e, y, z, u) = action-said _ d k in (n, s, w, e, y, z, u))
  classified-IsAnswered limit i n budget_not_set s b =
      answered-IsAnswered limit i budget_not_set _ _ b
        (λ d k. let (w, e, y, z, u) = action-said _ d k in (n, s, w, e, y, z, u))
  classified-IsAnswered limit i n type_error s b =
      answered-IsAnswered limit i type_error _ _ b
        (λ d k. let (w, e, y, z, u) = action-said _ d k in (n, s, w, e, y, z, u))
  classified-IsAnswered limit i n cancellation s b = tt
  classified-IsAnswered limit i n timeout_error s b = (refl, refl)
  classified-IsAnswered limit i n budget_exceeded s b = (refl, refl)

  judged-IsAnswered :
      (limit i n : ℕ) (v : T) (s t : S) (b : Buffers) (a : Result (Thrown X) AcceptanceDecision)
      → ((calls.accept v c n s).0 >>= normalize_acceptance_decision) ≡ a
      → IsAnswered (judged limit i v a t b).0
  unfolding judged
  judged-IsAnswered limit i n v s t b (ok AcceptanceDecision.accepted) h =
      let (w, e, y) = acceptance-said _ AcceptanceDecision.accepted h in (n, s, w, e, y)
  judged-IsAnswered limit i n v s t b (ok (rejected code)) h =
      let (w, e, y) = acceptance-said _ (rejected code) h in (v, (n, s, w, e, y))
  judged-IsAnswered limit i n v s t b (err e) h = elim (Bool-cases (is_known e)) [
    | inl k ↦ rw (k, judged) (lift-IsAnswered e)
    | inr k ↦ rw (k, judged) tt
  ]

module _ {X C T S : Type 0} (c : Candidate X C T S) where
  executed-IsAnswered :
      (n : ℕ) (r : Result (Thrown X) T) (s : S) (b : Buffers)
      → IsAnswered c.callbacks c.candidate (executed c n r s b).0
  unfolding executed
  executed-IsAnswered n (ok v) s b =
      judged-IsAnswered c.callbacks c.candidate c.limit c.index n v s _ b _ refl
  executed-IsAnswered n (err e) s b =
      classified-IsAnswered c.callbacks c.candidate c.limit c.index n e s b

  bounded-IsAnswered :
      (n : ℕ) (p : Progress S) → IsAnswered c.callbacks c.candidate (bounded_attempt c n p).0
  unfolding bounded_attempt create_attempt_task
  bounded-IsAnswered n p = elim (Bool-cases (c.has_deadline && c.clock.cuts n)) [
    | inl h ↦ rw (h, bounded_attempt) tt
    | inr h ↦ rw (h, bounded_attempt) (executed-IsAnswered n _ _ p.buffers)
  ]

  cut-IsAnswered :
      (n : ℕ) (r : Result (Thrown (AttemptError X)) (AttemptResult T)) (p : Progress S)
      → IsAnswered c.callbacks c.candidate r
      → IsAnswered c.callbacks c.candidate (classify_deadline_failure c n (r, p)).0
  unfolding classify_deadline_failure reclassified
  cut-IsAnswered n (ok r) p h = h
  cut-IsAnswered n (err (failure (classified e d))) p h = h
  cut-IsAnswered n (err (failure (callback e))) p h = h
  cut-IsAnswered n (err (failure (plain x))) p h =
      classified-IsAnswered c.callbacks c.candidate c.limit c.index n _ p.user p.buffers
  cut-IsAnswered n (err (range_error e)) p h =
      classified-IsAnswered c.callbacks c.candidate c.limit c.index n _ p.user p.buffers
  cut-IsAnswered n (err budget_not_set) p h =
      classified-IsAnswered c.callbacks c.candidate c.limit c.index n _ p.user p.buffers
  cut-IsAnswered n (err type_error) p h =
      classified-IsAnswered c.callbacks c.candidate c.limit c.index n _ p.user p.buffers
  cut-IsAnswered n (err cancellation) p h =
      classified-IsAnswered c.callbacks c.candidate c.limit c.index n _ p.user p.buffers
  cut-IsAnswered n (err timeout_error) p h =
      classified-IsAnswered c.callbacks c.candidate c.limit c.index n _ p.user p.buffers
  cut-IsAnswered n (err budget_exceeded) p h =
      classified-IsAnswered c.callbacks c.candidate c.limit c.index n _ p.user p.buffers

  pub recorded_attempt-IsAnswered :
      (n : ℕ) (p : Progress S) → IsAnswered c.callbacks c.candidate (recorded_attempt c n p).0
  unfolding recorded_attempt recorded
  recorded_attempt-IsAnswered n p =
      cut-IsAnswered n (bounded_attempt c n p).0 (bounded_attempt c n p).1 (bounded-IsAnswered n p)
