-- ===== src/Candidates/Selection/Statuses.antt =====
-- What the status of a selection's result tells (packages/core/src/candidates/index.ts,
-- `firstAcceptable` and `resultFromFailure`).
use workit.Prelude.{
  ℕ, zero, suc, ◌+◌, ◌≡◌, refl, ap, subst, ◌∙◌, sym, ◌⊎◌, inl, inr, true, Option, none, some, List,
  [], ◌∷◌, length, get_elem?, arith, Result, ok, err, >>=-eq-ok,
}
use workit.Engine.Errors.{RangeError}
use workit.Engine.Retry.{get_or, options, normalize_retry}
use workit.Run.Thrown.{
  Thrown, failure, range_error, budget_not_set, type_error, cancellation, timeout_error,
  budget_exceeded,
}
use workit.Run.Retry.{World, Run, Budget, retry}
use workit.Run.Retry.Attempts.{attempt_of, retry-attempts}
use workit.Run.Retry.Rounds.{IsOwn, delay, slept, unset, exceeded}
use workit.Candidates.{Disposition, ActionDecision, AttemptError, classified, callback, plain}
use workit.Candidates.Classification.{lift}
use workit.Candidates.Evidence.{CandidateEvidence}
use workit.Candidates.Attempt.{
  AttemptResult, refused, Callbacks, Progress, recorded_attempt, with_classifier_retry,
}
use workit.Candidates.Attempt.Answers.{
  Judges, IsClassified, IsAnswered, lift-IsAnswered, recorded_attempt-IsAnswered,
}
use workit.Candidates.Selection.{
  SelectionOpts, CandidatePolicy, Surroundings, Selection, RunResult, Status, accepted, exhausted,
  terminal, requires_user_input, normalize_candidate_policy, first_acceptable, run_candidate,
  run_candidates, run_next, after_candidate, from_failure, concluded, with_evidence, read_evidence,
  no_evidence, check_evidence, default_max_evidence, candidate_of, lift_world, lift_sleep,
  check_candidates, default_max_candidates, snapshot_retry_policy, check_total,
}

module _ {X C T S : Type 0} (calls : Callbacks X C T S) where
  -- A status of a selection among the candidates `cs`, which are numbered from `i`, is what the caller
  -- said: it accepted the value of the candidate that stands at the index, and an error that ends the
  -- selection, or asks the user, was classified so for a candidate.
  abbrev pub IsSound : List C → ℕ → Status X C T → Type 0
  IsSound cs i (accepted c j v) =
      (k : ℕ) × (get_elem? cs k ≡ some c) × (j ≡ i + k) × Judges calls c v true
  IsSound cs i exhausted = Unit
  IsSound cs i (terminal code e) =
      (k : ℕ) × (c : C) × (get_elem? cs k ≡ some c)
      × IsClassified calls c e (record { disposition = Disposition.terminal; reason_code = code })
  IsSound cs i (requires_user_input code) =
      (k : ℕ) × (c : C) × (get_elem? cs k ≡ some c)
      × (e : Thrown X) × IsClassified calls c e
          (record { disposition = Disposition.requires_user_input; reason_code = code })

  later :
      (c : C) (cs : List C) (i : ℕ) (s : Status X C T) → IsSound cs (suc i) s → IsSound (c ∷ cs) i s
  later c cs i (accepted d j v) (k, e, f, w) = (suc k, e, omega arith, w)
  later c cs i exhausted h = tt
  later c cs i (terminal code e) (k, d, f, w) = (suc k, d, f, w)
  later c cs i (requires_user_input code) (k, d, f, e, w) = (suc k, d, f, e, w)

module _ {X C T : Type 0} where
  with-status :
      (s : Status X C T) (n : ℕ) (o : Option (List CandidateEvidence)) (r : RunResult X C T)
      → with_evidence s n o ≡ ok r
      → r.status ≡ s
  unfolding with_evidence
  with-status s n none r e = absurd cc
  with-status s n (some l) r e =
      let same : record { status = s; evidence = l; dropped_evidence = n } ≡ r = cc in
      sym (ap (λ y. y.status) same)

module _ {X C T S : Type 0} (calls : Callbacks X C T S) where
  IsSoundRun : List C → ℕ → Selection X C T S → Type 0
  IsSoundRun cs i sel = (r : RunResult X C T) → sel.result ≡ ok r → IsSound calls cs i r.status

  concluded-IsSoundRun :
      (cs : List C) (i : ℕ) (s : Status X C T) (p : Progress S) (b : Option Budget)
      → IsSound calls cs i s
      → IsSoundRun cs i (concluded s p b)
  unfolding IsSoundRun concluded read_evidence workit.Candidates.Selection.stopped
  concluded-IsSoundRun cs i s p b h r e = subst (IsSound calls cs i) (sym (with-status s _ _ r e)) h

  failure-IsSoundRun :
      (c : C) (cs : List C) (i : ℕ) (e : Thrown X) (a : ActionDecision) (p : Progress S)
      (b : Option Budget) (next : Selection X C T S)
      → IsClassified calls c e a
      → IsSoundRun (c ∷ cs) i next
      → IsSoundRun (c ∷ cs) i (from_failure e a p b next)
  unfolding from_failure
  failure-IsSoundRun c cs i e a p b next h n =
      elim a.disposition
          as (λ w.
            a.disposition ≡ w
            → IsSoundRun (c ∷ cs) i (elim w [
              | Disposition.terminal ↦ concluded (terminal a.reason_code e) p b
              | Disposition.requires_user_input ↦ concluded (requires_user_input a.reason_code) p b
              | Disposition.retry_same_candidate ↦ next
              | Disposition.try_next_candidate ↦ next
            ])) [
              | Disposition.terminal ↦ λ k.
                  concluded-IsSoundRun (c ∷ cs) i (terminal a.reason_code e) p b
                    (0, c, refl, said Disposition.terminal k)
              | Disposition.requires_user_input ↦ λ k.
                  concluded-IsSoundRun (c ∷ cs) i (requires_user_input a.reason_code) p b
                    (0, c, refl, e, said Disposition.requires_user_input k)
              | Disposition.retry_same_candidate ↦ λ k. n
              | Disposition.try_next_candidate ↦ λ k. n
            ]
        refl
    where
      said :
          (w : Disposition)
          → a.disposition ≡ w
          → IsClassified calls c e (record { disposition = w; reason_code = a.reason_code })
      said w k =
          subst
            (λ x. IsClassified calls c e (record { disposition = x; reason_code = a.reason_code }))
            k h

  after-IsSoundRun :
      (c : C) (cs : List C) (i : ℕ) (r : Result (Thrown (AttemptError X)) (AttemptResult T))
      (p : Progress S) (b : Option Budget) (next : Selection X C T S)
      → IsAnswered calls c r
      → IsSoundRun cs (suc i) next
      → IsSoundRun (c ∷ cs) i (after_candidate c i r p b next)
  unfolding after_candidate workit.Candidates.Selection.stopped IsSoundRun
  after-IsSoundRun c cs i (ok (AttemptResult.accepted v)) p b next h n =
      concluded-IsSoundRun (c ∷ cs) i (accepted c i v) p b (0, refl, omega arith, h)
  after-IsSoundRun c cs i (ok refused) p b next h n = λ r e. later calls c cs i r.status (n r e)
  after-IsSoundRun c cs i (err (failure (classified e a))) p b next h n =
      failure-IsSoundRun c cs i e a p b next h (λ r k. later calls c cs i r.status (n r k))
  after-IsSoundRun c cs i (err (failure (callback x))) p b next h n = λ r e. absurd cc
  after-IsSoundRun c cs i (err (failure (plain x))) p b next h n = λ r e. absurd cc
  after-IsSoundRun c cs i (err (range_error x)) p b next h n = λ r e. absurd cc
  after-IsSoundRun c cs i (err budget_not_set) p b next h n = λ r e. absurd cc
  after-IsSoundRun c cs i (err type_error) p b next h n = λ r e. absurd cc
  after-IsSoundRun c cs i (err cancellation) p b next h n = λ r e. absurd cc
  after-IsSoundRun c cs i (err timeout_error) p b next h n = λ r e. absurd cc
  after-IsSoundRun c cs i (err budget_exceeded) p b next h n = λ r e. absurd cc

  run-IsSoundRun :
      (c : C) (cs : List C) (i : ℕ)
      (x : Result RangeError (Run (AttemptError X) (AttemptResult T) (Progress S))) (p : Progress S)
      (b : Option Budget) (next : Progress S → Option Budget → Selection X C T S)
      → ((q : Run (AttemptError X) (AttemptResult T) (Progress S))
          → x ≡ ok q
          → IsAnswered calls c q.result)
      → ((p' : Progress S) (b' : Option Budget) → IsSoundRun cs (suc i) (next p' b'))
      → IsSoundRun (c ∷ cs) i (run_next c i x p b next)
  unfolding run_next workit.Candidates.Selection.stopped IsSoundRun
  run-IsSoundRun c cs i (err e) p b next h n = λ r k. absurd cc
  run-IsSoundRun c cs i (ok q) p b next h n =
      after-IsSoundRun c cs i q.result q.state q.budget (next q.state q.budget) (h q refl)
        (n q.state q.budget)

  sleep-IsAnswered :
      (c : C) (o : Option (Thrown X)) (f : Thrown (AttemptError X))
      → lift_sleep o ≡ some f
      → IsAnswered {T = T} calls c (err f)
  unfolding lift_sleep
  sleep-IsAnswered c none f h = absurd cc
  sleep-IsAnswered c (some e) f h =
      let same : lift e ≡ f = cc in
      subst (λ x. IsAnswered {T = T} calls c (err x)) same (lift-IsAnswered {T = T} calls c e)

  own-IsAnswered :
      (c : C) (w : World X) (f : Thrown (AttemptError X))
      → IsOwn (lift_world w) f
      → IsAnswered {T = T} calls c (err f)
  unfolding lift_world
  own-IsAnswered c w f (delay x) = tt
  own-IsAnswered c w f (slept n e h) = sleep-IsAnswered c (w.sleep n) _ h
  own-IsAnswered c w f unset = tt
  own-IsAnswered c w f exceeded = tt

  -- What the wrapper gives is the last attempt's, or an error of its own.
  last-IsAnswered :
      (c : C) (w : World X) (r last : Result (Thrown (AttemptError X)) (AttemptResult T))
      → IsAnswered calls c last
      → ((v : AttemptResult T) → r ≡ ok v → last ≡ ok v)
      → ((e : Thrown (AttemptError X)) → r ≡ err e → (last ≡ err e) ⊎ IsOwn (lift_world w) e)
      → IsAnswered calls c r
  last-IsAnswered c w (ok v) last h f g = subst (IsAnswered calls c) (f v refl) h
  last-IsAnswered c w (err e) last h f g = elim (g e refl) [
    | inl k ↦ subst (IsAnswered calls c) k h
    | inr k ↦ own-IsAnswered c w e k
  ]

attempt_of-always :
    {E A U : Type 0} (task : ℕ → U → Result (Thrown E) A × U) (P : Result (Thrown E) A → Type 0)
    → ((n : ℕ) (s : U) → P (task n s).0)
    → (k n : ℕ) (s : U) → P (attempt_of task n s k).0
attempt_of-always task P h zero n s = h n s
attempt_of-always task P h (suc k) n s = attempt_of-always task P h k (suc n) (task n s).1

module _ {X C T S : Type 0} where
  run_candidate-IsAnswered :
      (policy : CandidatePolicy X C T S) (around : Surroundings X S) (limit : ℕ) (c : C) (i : ℕ)
      (p : Progress S) (b : Option Budget) (q : Run (AttemptError X) (AttemptResult T) (Progress S))
      → run_candidate policy around limit c i p b ≡ ok q
      → IsAnswered policy.callbacks c q.result
  unfolding run_candidate candidate_of retry
  run_candidate-IsAnswered policy around limit c i p b q e =
      let o = with_classifier_retry policy.retry in
      let a = candidate_of policy around limit c i in
      let (rp, e1, e2) = >>=-eq-ok (normalize_retry (options o)) _ e in
      let (k, bound, made, retried, left, returned, thrown, _) =
        retry-attempts (options o) true (lift_world (around.world i)) (recorded_attempt a) p b rp q
          e1 e in
      last-IsAnswered policy.callbacks c (around.world i) q.result
        (attempt_of (recorded_attempt a) 1 p k).0
        (attempt_of-always (recorded_attempt a) (IsAnswered policy.callbacks c)
          (recorded_attempt-IsAnswered a) k 1 p)
        (λ v. (returned v).0) thrown

  run_candidates-IsSoundRun :
      (policy : CandidatePolicy X C T S) (around : Surroundings X S) (limit : ℕ) (cs : List C)
      (i : ℕ) (p : Progress S) (b : Option Budget)
      → IsSoundRun policy.callbacks cs i (run_candidates policy around limit cs i p b)
  unfolding run_candidates
  run_candidates-IsSoundRun policy around limit [] i p b =
      concluded-IsSoundRun policy.callbacks [] i exhausted p b tt
  run_candidates-IsSoundRun policy around limit (c ∷ cs) i p b =
      run-IsSoundRun policy.callbacks c cs i (run_candidate policy around limit c i p b) p b _
        (λ q e. run_candidate-IsAnswered policy around limit c i p b q e)
        (λ p' b'. run_candidates-IsSoundRun policy around limit cs (suc i) p' b')

  pub normalize-callbacks :
      (cs : List C) (opts : SelectionOpts X C T S) (policy : CandidatePolicy X C T S)
      → normalize_candidate_policy cs opts ≡ ok policy
      → policy.callbacks ≡ opts.callbacks
  unfolding normalize_candidate_policy
  normalize-callbacks cs opts policy e =
      let (u, e1, h1) =
        >>=-eq-ok
          (check_candidates {X = X} (length cs) (get_or default_max_candidates opts.max_candidates))
          _ e in
      let (o, e2, h2) = >>=-eq-ok (snapshot_retry_policy {X = X} opts.retry) _ h1 in
      let (v, e3, h3) = >>=-eq-ok (check_total {X = X} (length cs) o.times) _ h2 in
      let same : record { callbacks = opts.callbacks; retry = o; deadline_at = opts.deadline_at }
          ≡ policy =
        cc in
      sym (ap (λ z. z.callbacks) same)

  -- A result of a selection reports what the caller said. A value that it accepts was accepted by the
  -- caller, as the value of the candidate that stands at the index it gives. The error of a terminal
  -- result is a timeout or an exceeded budget, with the reason code of that, or the caller's classifier
  -- said of it, for one of the candidates, that it is terminal, with that reason code, which matches
  -- the pattern; and it is not the bare cancellation. A result that asks the user comes of an error of
  -- which the classifier said so.
  pub first_acceptable-status :
      (cs : List C) (opts : SelectionOpts X C T S) (around : Surroundings X S) (s : S)
      (b : Option Budget) (sel : Selection X C T S) (r : RunResult X C T)
      → first_acceptable cs opts around s b ≡ ok sel
      → sel.result ≡ ok r
      → IsSound opts.callbacks cs 0 r.status
  unfolding first_acceptable IsSoundRun
  first_acceptable-status cs opts around s b sel r h k =
      let limit = get_or default_max_evidence opts.max_evidence in
      let (policy, e2, h2) = >>=-eq-ok (normalize_candidate_policy cs opts) _ h in
      let (u, e3, h3) = >>=-eq-ok (check_evidence {X = X} limit) _ h2 in
      let made : run_candidates policy around limit cs 0 (no_evidence s) b ≡ sel = cc in
      subst (λ a. IsSound a cs 0 r.status) (normalize-callbacks cs opts policy e2)
        (run_candidates-IsSoundRun policy around limit cs 0 (no_evidence s) b r
          (ap (λ z. z.result) made ∙ k))
