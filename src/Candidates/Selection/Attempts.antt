-- ===== src/Candidates/Selection/Attempts.antt =====
-- One candidate of a selection, from its first attempt to the last one
-- (packages/core/src/candidates/index.ts, `buildCandidateTask`).
use workit.Prelude.{
  ℕ, ◌<◌, ◌≡◌, refl, ap, subst, ◌∙◌, sym, ◌⊎◌, inl, inr, true, false, Option, none, some, List, [],
  ◌∷◌, ◌++◌, length, arith, All, Result, ok, err, >>=-eq-ok,
}
use workit.Engine.Retry.{options, normalize_retry}
use workit.Engine.Retry.Bounds.{normalize_retry_options}
use workit.Run.Thrown.{
  Thrown, failure, range_error, budget_not_set, type_error, cancellation, timeout_error,
  budget_exceeded,
}
use workit.Run.Retry.{World, Run, Budget, retry}
use workit.Run.Retry.Attempts.{attempt_of, retry-attempts}
use workit.Run.Retry.Rounds.{IsOwn, delay, slept, unset, exceeded}
use workit.Candidates.{DecisionRecord, AttemptError}
use workit.Candidates.Classification.{lift}
use workit.Candidates.Trail.{IsRetry}
use workit.Candidates.Attempt.{AttemptResult, Progress, recorded_attempt, with_classifier_retry}
use workit.Candidates.Attempt.Verdict.{is_verdict, Decides, IsPrompt}
use workit.Candidates.Attempt.Log.{Holds}
use workit.Candidates.Attempt.Retried.{attempts-Holds}
use workit.Candidates.Selection.{
  CandidatePolicy, Surroundings, run_candidate, candidate_of, lift_world, lift_sleep,
}

lift-no_verdict :
    {X T : Type 0} (e : Thrown X) (f : Thrown (AttemptError X))
    (r : Result (Thrown (AttemptError X)) T)
    → lift e ≡ f
    → r ≡ err f
    → is_verdict r ≡ false
unfolding lift
lift-no_verdict (failure x) f r h k = rw k (rw (sym h) refl)
lift-no_verdict (range_error x) f r h k = rw k (rw (sym h) refl)
lift-no_verdict budget_not_set f r h k = rw k (rw (sym h) refl)
lift-no_verdict type_error f r h k = rw k (rw (sym h) refl)
lift-no_verdict cancellation f r h k = rw k (rw (sym h) refl)
lift-no_verdict timeout_error f r h k = rw k (rw (sym h) refl)
lift-no_verdict budget_exceeded f r h k = rw k (rw (sym h) refl)

slept-no_verdict :
    {X T : Type 0} (o : Option (Thrown X)) (f : Thrown (AttemptError X))
    (r : Result (Thrown (AttemptError X)) T)
    → lift_sleep o ≡ some f
    → r ≡ err f
    → is_verdict r ≡ false
unfolding lift_sleep
slept-no_verdict none f r h k = absurd cc
slept-no_verdict (some e) f r h k = let z : lift e ≡ f = cc in lift-no_verdict e f r z k

-- What the retry wrapper throws itself is no verdict.
pub own-no_verdict :
    {X T : Type 0} (w : World X) (f : Thrown (AttemptError X))
    (r : Result (Thrown (AttemptError X)) T)
    → IsOwn (lift_world w) f
    → r ≡ err f
    → is_verdict r ≡ false
unfolding lift_world
own-no_verdict w f r (delay x) k = rw k refl
own-no_verdict w f r (slept n e h) k = slept-no_verdict (w.sleep n) _ r h k
own-no_verdict w f r unset k = rw k refl
own-no_verdict w f r exceeded k = rw k refl

module _ {X T : Type 0} where
  -- A verdict of the wrapper is the verdict of the last attempt.
  same_verdict :
      (w : World X) (r last : Result (Thrown (AttemptError X)) (AttemptResult T))
      → is_verdict r ≡ true
      → ((v : AttemptResult T) → r ≡ ok v → last ≡ ok v)
      → ((e : Thrown (AttemptError X)) → r ≡ err e → (last ≡ err e) ⊎ IsOwn (lift_world w) e)
      → last ≡ r
  same_verdict w (ok v) last h f g = f v refl
  same_verdict w (err e) last h f g = elim (g e refl) [
    | inl k ↦ k
    | inr k ↦ let x = own-no_verdict {X = X} {T = AttemptResult T} w e (err e) k refl in absurd cc
  ]

module _ {X C T S : Type 0} where
  pub run_candidate-Holds :
      (policy : CandidatePolicy X C T S) (around : Surroundings X S) (limit : ℕ) (c : C) (i : ℕ)
      (p : Progress S) (b : Option Budget) (q : Run (AttemptError X) (AttemptResult T) (Progress S))
      (log : List DecisionRecord)
      → IsPrompt (around.clock i)
      → run_candidate policy around limit c i p b ≡ ok q
      → is_verdict q.result ≡ true
      → Holds limit log p.buffers
      → (front : List DecisionRecord) × (d : DecisionRecord) × All (IsRetry i) front
        × (length front < policy.retry.times)
        × Decides i q.result d
        × Holds limit (log ++ (front ++ d ∷ [])) q.state.buffers
  unfolding run_candidate candidate_of retry
  run_candidate-Holds policy around limit c i p b q log prompt e v h =
      let o = with_classifier_retry policy.retry in
      let task = recorded_attempt (candidate_of policy around limit c i) in
      let (rp, e1, e2) = >>=-eq-ok (normalize_retry (options o)) _ e in
      let (times, wants) = normalize_retry_options o rp e1 in
      let (k, bound, made, retried, left, returned, thrown, _) =
        retry-attempts (options o) true (lift_world (around.world i)) task p b rp q e1 e in
      let last : (attempt_of task 1 p k).0 ≡ q.result =
        same_verdict (around.world i) q.result (attempt_of task 1 p k).0 v (λ x. (returned x).0)
          thrown in
      let (front, d, a, l, kd, g) =
        attempts-Holds (candidate_of policy around limit c i) prompt rp
          (λ x n. ap (λ g. g x n) wants) k 1 p log retried (ap is_verdict last ∙ v) h in
      (
        front,
        d,
        a,
        omega (arith, l, bound, times),
        subst (λ r. Decides i r d) last kd,
        subst (λ z. Holds limit (log ++ (front ++ d ∷ [])) z.buffers) (sym left) g,
      )
