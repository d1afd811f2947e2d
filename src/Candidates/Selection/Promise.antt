-- ===== src/Candidates/Selection/Promise.antt =====
-- What a whole selection promises (packages/core/src/candidates/index.ts, `firstAcceptable`).
use workit.Prelude.{
  ℕ, zero, suc, ◌+◌, ◌≡◌, refl, ap, ◌∙◌, Option, List, [], map, length, take, arith, ok, >>=-eq-ok,
}
use workit.Engine.Retry.{get_or}
use workit.Run.Retry.{Budget}
use workit.Candidates.{DecisionRecord}
use workit.Candidates.Trail.{Trail}
use workit.Candidates.Attempt.Log.{Holds}
use workit.Candidates.Selection.{
  SelectionOpts, CandidatePolicy, Surroundings, Selection, RunResult, normalize_candidate_policy,
  first_acceptable, no_evidence, check_evidence, default_max_evidence, run_candidates,
}
use workit.Candidates.Attempt.Verdict.{IsPrompt}
use workit.Candidates.Selection.Statuses.{IsSound, first_acceptable-status}
use workit.Candidates.Selection.Refinement.{
  ending_of, shown, decided, run_candidates-Refines, Refines, IsShown,
}

nothing-Holds : {S : Type 0} (limit : ℕ) (s : S) → Holds limit [] (no_evidence s).buffers
unfolding no_evidence
nothing-Holds zero s = record { first = refl; aligned = refl; counted = omega arith }
nothing-Holds (suc n) s = record { first = refl; aligned = refl; counted = omega arith }

module _ {X C T S : Type 0} where
  -- A selection that gives a result has logged a trail: candidate by candidate from the first one, at
  -- most `times` attempts of each, all but the last of which are classified to be retried. A candidate
  -- is left for the next one only when its last attempt is to be retried, to be given up or is
  -- rejected for its quality, and nothing follows a terminal failure, a request to the user or an
  -- acceptance, which the result reports as the caller said it. The evidence shows the first entries of
  -- the log, as many as its limit allows, and the other attempts are counted as dropped. This is so as
  -- long as no body that a deadline cuts off has recorded a decision before the deadline's decision.
  pub first_acceptable-Trail :
      (cs : List C) (opts : SelectionOpts X C T S) (around : Surroundings X S) (s : S)
      (b : Option Budget) (policy : CandidatePolicy X C T S) (sel : Selection X C T S)
      (r : RunResult X C T)
      → normalize_candidate_policy cs opts ≡ ok policy
      → first_acceptable cs opts around s b ≡ ok sel
      → sel.result ≡ ok r
      → ((i : ℕ) → IsPrompt (around.clock i))
      → (log : List DecisionRecord) × Trail policy.retry.times
          (length cs)
          0
          log
          (ending_of r.status)
        × (map shown r.evidence
            ≡ map decided (take (get_or default_max_evidence opts.max_evidence) log))
        × (length r.evidence + r.dropped_evidence ≡ length log)
        × IsSound opts.callbacks cs 0 r.status
  unfolding first_acceptable Refines IsShown
  first_acceptable-Trail cs opts around s b policy sel r e h k prompt =
      let limit = get_or default_max_evidence opts.max_evidence in
      let (p2, e2, h2) = >>=-eq-ok (normalize_candidate_policy cs opts) _ h in
      let (u, e3, h3) = >>=-eq-ok (check_evidence {X = X} limit) _ h2 in
      let same : p2 ≡ policy = cc in
      let made : run_candidates policy around limit cs 0 (no_evidence s) b ≡ sel = cc in
      let (log, t, (m, n)) =
        run_candidates-Refines policy around limit cs 0 (no_evidence s) b [] prompt
          (nothing-Holds limit s) r (ap (λ z. z.result) made ∙ k) in
      (log, t, m, n, first_acceptable-status cs opts around s b sel r h k)
