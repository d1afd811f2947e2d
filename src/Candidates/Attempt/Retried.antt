-- ===== src/Candidates/Attempt/Retried.antt =====
-- The attempts of one candidate (packages/core/src/candidates/index.ts, `buildCandidateTask`): all but
-- the last one were classified as to be retried.
use workit.Prelude.{
  ℕ, zero, suc, ◌<◌, ◌≡◌, refl, ap, subst, ◌∙◌, sym, inl, inr, true, false, List, [], ◌∷◌, ◌++◌,
  append_assoc, length, arith, All, Result, err,
}
use workit.Engine.Retry.{RetryPolicy}
use workit.Run.Thrown.{
  Thrown, failure, range_error, budget_not_set, type_error, cancellation, timeout_error,
  budget_exceeded,
}
use workit.Run.Retry.Attempts.{attempt_of, IsRetryable}
use workit.Candidates.{
  Disposition, retry_same_candidate, DecisionRecord, acted, AttemptError, classified, callback,
  plain,
}
use workit.Candidates.Trail.{IsRetry}
use workit.Candidates.Attempt.{AttemptResult, Progress, Candidate, recorded_attempt, retries_same}
use workit.Candidates.Attempt.Verdict.{is_verdict, Decides, IsPrompt, recorded_attempt-IsDecided}
use workit.Candidates.Attempt.Log.{Holds, record-Holds}

module _ {X C T S : Type 0} (c : Candidate X C T S) (prompt : IsPrompt c.clock) where
  -- One attempt with a verdict: its decision is logged.
  verdict-Holds :
      (n : ℕ) (p : Progress S) (log : List DecisionRecord)
      → Holds c.limit log p.buffers
      → is_verdict (recorded_attempt c n p).0 ≡ true
      → (d : DecisionRecord) × Decides c.index (recorded_attempt c n p).0 d
        × Holds c.limit (log ++ d ∷ []) (recorded_attempt c n p).1.buffers
  verdict-Holds n p log h v =
      let (a, b, e, x) = recorded_attempt-IsDecided c n p prompt in
      elim x [
        | inl (f, same) ↦ absurd cc
        | inr (d, k, same) ↦ (d, k, rw e (rw same (record-Holds c.limit log p.buffers d a h)))
      ]

  wanted :
      (d : Disposition)
      → (elim d [ retry_same_candidate ↦ true | _ ↦ false ]) ≡ true
      → d ≡ retry_same_candidate
  wanted retry_same_candidate h = refl
  wanted Disposition.try_next_candidate h = absurd cc
  wanted Disposition.terminal h = absurd cc
  wanted Disposition.requires_user_input h = absurd cc

  -- What is retried was classified so.
  retried-verdict :
      (i : ℕ) (e : Thrown (AttemptError X)) (r : Result (Thrown (AttemptError X)) (AttemptResult T))
      → r ≡ err e
      → retries_same e ≡ true
      → (is_verdict r ≡ true) × ((d : DecisionRecord) → Decides i r d → IsRetry i d)
  unfolding retries_same
  retried-verdict i (failure (classified x a)) r e k =
      let w : a.disposition ≡ retry_same_candidate = wanted a.disposition k in
      (
        rw e refl,
        λ d h. let (x, y, z, u, v) = subst (λ q. Decides i q d) e h in (x, y ∙ ap acted w),
      )
  retried-verdict i (failure (callback x)) r e k = absurd cc
  retried-verdict i (failure (plain x)) r e k = absurd cc
  retried-verdict i (range_error x) r e k = absurd cc
  retried-verdict i budget_not_set r e k = absurd cc
  retried-verdict i type_error r e k = absurd cc
  retried-verdict i cancellation r e k = absurd cc
  retried-verdict i timeout_error r e k = absurd cc
  retried-verdict i budget_exceeded r e k = absurd cc

  pub attempts-Holds :
      (policy : RetryPolicy (Thrown (AttemptError X)))
      → ((e : Thrown (AttemptError X)) (n : ℕ) → policy.retry_if e n ≡ retries_same e)
      → (k n : ℕ) (p : Progress S) (log : List DecisionRecord)
      → ((j : ℕ) → j < k → IsRetryable policy (recorded_attempt c) n p j)
      → is_verdict (attempt_of (recorded_attempt c) n p k).0 ≡ true
      → Holds c.limit log p.buffers
      → (front : List DecisionRecord) × (d : DecisionRecord) × All (IsRetry c.index) front
        × (length front ≡ k)
        × Decides c.index (attempt_of (recorded_attempt c) n p k).0 d
        × Holds c.limit (log ++ (front ++ d ∷ [])) (attempt_of (recorded_attempt c) n p k).1.buffers
  attempts-Holds policy same zero n p log j v h =
      let (d, k, g) = verdict-Holds n p log h v in ([], d, tt, refl, k, g)
  attempts-Holds policy same (suc k) n p log j v h =
      let (e, f, u, w) = j 0 (omega arith) in
      let (v0, retried) =
        retried-verdict c.index e (recorded_attempt c n p).0 f (sym (same e n) ∙ w) in
      let (d0, k0, g0) = verdict-Holds n p log h v0 in
      let (front, d, a, l, kd, g) =
        attempts-Holds policy same k (suc n) (recorded_attempt c n p).1 (log ++ d0 ∷ [])
          (λ i b. j (suc i) (omega arith)) v g0 in
      (
        d0 ∷ front,
        d,
        (retried d0 k0, a),
        ap suc l,
        kd,
        subst
            (λ l.
              Holds c.limit l
                (attempt_of (recorded_attempt c) (suc n) (recorded_attempt c n p).1 k).1.buffers)
            (append_assoc log (d0 ∷ []) _) g,
      )
