-- ===== src/Candidates/Selection/Counted.antt =====
-- How many attempts a selection makes (packages/core/src/candidates/index.ts, `firstAcceptable`), counted
-- by the caller's own state.
use workit.Prelude.{
  ℕ, zero, suc, ◌+◌, ◌*◌, ◌≤◌, ◌≡◌, refl, ap, subst, ◌∙◌, sym, true, Option, none, some, List, [],
  ◌∷◌, length, arith, Result, ok, err, >>=-eq-ok,
}
use workit.Engine.Errors.{RangeError}
use workit.Engine.Retry.{get_or, options, normalize_retry}
use workit.Engine.Retry.Bounds.{normalize_retry_options}
use workit.Run.Thrown.{
  Thrown, failure, range_error, budget_not_set, type_error, cancellation, timeout_error,
  budget_exceeded,
}
use workit.Run.Retry.{Run, Budget, retry}
use workit.Run.Retry.Attempts.{attempt_of, retry-attempts}
use workit.Candidates.{
  Disposition, ActionDecision, DecisionRecord, AttemptError, classified, callback, plain,
}
use workit.Candidates.Evidence.{AttemptEvidence, CandidateEvidence, map_candidate_evidence, enrich}
use workit.Candidates.Attempt.{
  AttemptResult, refused, Progress, Candidate, recorded_attempt, with_classifier_retry,
}
use workit.Candidates.Attempt.Counted.{Counts, CountsCut, At, total, recorded_attempt-At}
use workit.Candidates.Selection.{
  SelectionOpts, CandidatePolicy, Surroundings, Selection, RunResult, Status, accepted, exhausted,
  terminal, requires_user_input, normalize_candidate_policy, first_acceptable, run_candidate,
  run_candidates, run_next, after_candidate, from_failure, concluded, with_evidence, read_evidence,
  no_evidence, check_evidence, default_max_evidence, candidate_of, max_total_candidate_attempts,
  check_candidates, default_max_candidates, snapshot_retry_policy, check_total, lift_world,
}
use workit.Candidates.Selection.Statuses.{normalize-callbacks}

map-length :
    (xs : List AttemptEvidence) (ds : List DecisionRecord) (l : List CandidateEvidence)
    → map_candidate_evidence xs ds ≡ some l
    → length l ≡ length xs
unfolding map_candidate_evidence
map-length [] ds l e = let same : [] ≡ l = cc in ap length (sym same)
map-length (a ∷ xs) [] l e = absurd cc
map-length (a ∷ xs) (d ∷ ds) l e = go (map_candidate_evidence xs ds) (map-length xs ds) e
  where
    go :
        (o : Option (List CandidateEvidence))
        → ((k : List CandidateEvidence) → o ≡ some k → length k ≡ length xs)
        → (elim o [ none ↦ none | some k ↦ some (enrich a d ∷ k) ]) ≡ some l
        → length l ≡ suc (length xs)
    go none h k = absurd cc
    go (some k) h f = let same : enrich a d ∷ k ≡ l = cc in ap length (sym same) ∙ ap suc (h k refl)

module _ {X C T S : Type 0} (count : S → ℕ) where
  attempt_of-At :
      (c : Candidate X C T S)
      → Counts count c.callbacks
      → CountsCut count c.clock
      → (k n : ℕ) (p : Progress S)
      → At count
          (suc k + count p.user)
          (suc k + total p.buffers)
          (attempt_of (recorded_attempt c) n p k).1
  attempt_of-At c counts cut zero n p =
      let (h, g) = recorded_attempt-At count c counts cut n p in
      (omega (arith, h), omega (arith, g))
  attempt_of-At c counts cut (suc k) n p =
      let (h, g) = recorded_attempt-At count c counts cut n p in
      let (x, y) = attempt_of-At c counts cut k (suc n) (recorded_attempt c n p).1 in
      (omega (arith, h, x), omega (arith, g, y))

  -- One candidate makes at most `times` attempts.
  run_candidate-At :
      (policy : CandidatePolicy X C T S) (around : Surroundings X S) (limit : ℕ) (c : C) (i : ℕ)
      (p : Progress S) (b : Option Budget) (q : Run (AttemptError X) (AttemptResult T) (Progress S))
      → Counts count policy.callbacks
      → CountsCut count (around.clock i)
      → run_candidate policy around limit c i p b ≡ ok q
      → (m : ℕ) × (m ≤ policy.retry.times)
        × At count (m + count p.user) (m + total p.buffers) q.state
  unfolding run_candidate candidate_of retry
  run_candidate-At policy around limit c i p b q counts cut e =
      let o = with_classifier_retry policy.retry in
      let a = candidate_of policy around limit c i in
      let (rp, e1, e2) = >>=-eq-ok (normalize_retry (options o)) _ e in
      let (times, wants) = normalize_retry_options o rp e1 in
      let (k, bound, made, retried, left, _, _, _) =
        retry-attempts (options o) true (lift_world (around.world i)) (recorded_attempt a) p b rp q
          e1 e in
      (
        suc k,
        omega (arith, bound, times),
        subst (At count (suc k + count p.user) (suc k + total p.buffers)) (sym left)
            (attempt_of-At a counts cut k 1 p),
      )

  -- A result of a selection that has started at `u` executions and `t` recorded attempts, and has made at
  -- most `most` attempts since.
  IsCounted : (most u t : ℕ) → Selection X C T S → Type 0
  IsCounted most u t sel =
      (r : RunResult X C T)
      → sel.result ≡ ok r
      → (m : ℕ) × (m ≤ most)
        × (count sel.progress.user ≡ m + u)
        × (length r.evidence + r.dropped_evidence ≡ m + t)

  with-length :
      (s : Status X C T) (n : ℕ) (o : Option (List CandidateEvidence)) (r : RunResult X C T)
      → with_evidence s n o ≡ ok r
      → (o ≡ some r.evidence) × (r.dropped_evidence ≡ n)
  unfolding with_evidence
  with-length s n none r e = absurd cc
  with-length s n (some l) r e =
      let same : record { status = s; evidence = l; dropped_evidence = n } ≡ r = cc in
      (ap (λ y. some y.evidence) same, sym (ap (λ y. y.dropped_evidence) same))

  concluded-IsCounted :
      (most u t m : ℕ) (s : Status X C T) (p : Progress S) (b : Option Budget)
      → m ≤ most
      → At count (m + u) (m + t) p
      → IsCounted most u t (concluded s p b)
  unfolding IsCounted concluded read_evidence workit.Candidates.Selection.stopped
  concluded-IsCounted most u t m s p b le (h, g) r e =
      let (x, y) = with-length s _ _ r e in
      (
        m,
        le,
        h,
        omega (arith, map-length p.buffers.attempts p.buffers.decisions r.evidence x, y, g),
      )

  next-IsCounted :
      (rest most u t m : ℕ) (p : Progress S) (next : Selection X C T S)
      → m + rest ≤ most
      → At count (m + u) (m + t) p
      → IsCounted rest (count p.user) (total p.buffers) next
      → IsCounted most u t next
  unfolding IsCounted
  next-IsCounted rest most u t m p next le (h, g) n r e =
      let (k, x, y, z) = n r e in
      (k + m, omega (arith, x, le), omega (arith, y, h), omega (arith, z, g))

  failure-IsCounted :
      (rest most u t m : ℕ) (e : Thrown X) (a : ActionDecision) (p : Progress S) (b : Option Budget)
      (next : Selection X C T S)
      → m + rest ≤ most
      → At count (m + u) (m + t) p
      → IsCounted rest (count p.user) (total p.buffers) next
      → IsCounted most u t (from_failure e a p b next)
  unfolding from_failure
  failure-IsCounted rest most u t m e a p b next le h n =
      elim a.disposition
        as (λ w. IsCounted most u t (elim w [
          | Disposition.terminal ↦ concluded (terminal a.reason_code e) p b
          | Disposition.requires_user_input ↦ concluded (requires_user_input a.reason_code) p b
          | Disposition.retry_same_candidate ↦ next
          | Disposition.try_next_candidate ↦ next
        ])) [
          | Disposition.terminal ↦ concluded-IsCounted most u t m _ p b (omega (arith, le)) h
          | Disposition.requires_user_input ↦
              concluded-IsCounted most u t m _ p b (omega (arith, le)) h
          | Disposition.retry_same_candidate ↦ next-IsCounted rest most u t m p next le h n
          | Disposition.try_next_candidate ↦ next-IsCounted rest most u t m p next le h n
        ]

  after-IsCounted :
      (rest most u t m : ℕ) (c : C) (i : ℕ) (r : Result (Thrown (AttemptError X)) (AttemptResult T))
      (p : Progress S) (b : Option Budget) (next : Selection X C T S)
      → m + rest ≤ most
      → At count (m + u) (m + t) p
      → IsCounted rest (count p.user) (total p.buffers) next
      → IsCounted most u t (after_candidate c i r p b next)
  unfolding after_candidate workit.Candidates.Selection.stopped IsCounted
  after-IsCounted rest most u t m c i (ok (AttemptResult.accepted v)) p b next le h n =
      concluded-IsCounted most u t m (accepted c i v) p b (omega (arith, le)) h
  after-IsCounted rest most u t m c i (ok refused) p b next le h n =
      next-IsCounted rest most u t m p next le h n
  after-IsCounted rest most u t m c i (err (failure (classified e a))) p b next le h n =
      failure-IsCounted rest most u t m e a p b next le h n
  after-IsCounted rest most u t m c i (err (failure (callback x))) p b next le h n =
      λ r e. absurd cc
  after-IsCounted rest most u t m c i (err (failure (plain x))) p b next le h n = λ r e. absurd cc
  after-IsCounted rest most u t m c i (err (range_error x)) p b next le h n = λ r e. absurd cc
  after-IsCounted rest most u t m c i (err budget_not_set) p b next le h n = λ r e. absurd cc
  after-IsCounted rest most u t m c i (err type_error) p b next le h n = λ r e. absurd cc
  after-IsCounted rest most u t m c i (err cancellation) p b next le h n = λ r e. absurd cc
  after-IsCounted rest most u t m c i (err timeout_error) p b next le h n = λ r e. absurd cc
  after-IsCounted rest most u t m c i (err budget_exceeded) p b next le h n = λ r e. absurd cc

  run-IsCounted :
      (rest times u t : ℕ) (c : C) (i : ℕ)
      (x : Result RangeError (Run (AttemptError X) (AttemptResult T) (Progress S))) (p : Progress S)
      (b : Option Budget) (next : Progress S → Option Budget → Selection X C T S)
      → ((q : Run (AttemptError X) (AttemptResult T) (Progress S))
          → x ≡ ok q
          → (m : ℕ) × (m ≤ times) × At count (m + u) (m + t) q.state)
      → ((p' : Progress S) (b' : Option Budget)
          → IsCounted rest (count p'.user) (total p'.buffers) (next p' b'))
      → IsCounted (times + rest) u t (run_next c i x p b next)
  unfolding run_next workit.Candidates.Selection.stopped IsCounted
  run-IsCounted rest times u t c i (err e) p b next h n = λ r k. absurd cc
  run-IsCounted rest times u t c i (ok q) p b next h n =
      let (m, le, at) = h q refl in
      after-IsCounted rest (times + rest) u t m c i q.result q.state q.budget
        (next q.state q.budget) (omega (arith, le)) at (n q.state q.budget)

  run_candidates-IsCounted :
      (policy : CandidatePolicy X C T S) (around : Surroundings X S) (limit : ℕ) (cs : List C)
      (i : ℕ) (p : Progress S) (b : Option Budget)
      → Counts count policy.callbacks
      → ((j : ℕ) → CountsCut count (around.clock j))
      → IsCounted
          (length cs * policy.retry.times)
          (count p.user)
          (total p.buffers)
          (run_candidates policy around limit cs i p b)
  unfolding run_candidates
  run_candidates-IsCounted policy around limit [] i p b counts cut =
      concluded-IsCounted _ _ _ 0 exhausted p b (omega arith) (omega arith, omega arith)
  run_candidates-IsCounted policy around limit (c ∷ cs) i p b counts cut =
      let times = policy.retry.times in
      subst
        (λ most.
          IsCounted most (count p.user) (total p.buffers)
            (run_candidates policy around limit (c ∷ cs) i p b))
        (grind arith)
        (run-IsCounted (length cs * times) times _ _ c i (run_candidate policy around limit c i p b)
          p b _ (λ q e. run_candidate-At policy around limit c i p b q counts (cut i) e)
          (λ p' b'. run_candidates-IsCounted policy around limit cs (suc i) p' b' counts cut))

module _ {X C T S : Type 0} where
  -- A policy that is accepted allows at most 10,000 attempts over all candidates.
  normalize-total :
      (cs : List C) (opts : SelectionOpts X C T S) (policy : CandidatePolicy X C T S)
      → normalize_candidate_policy cs opts ≡ ok policy
      → length cs * policy.retry.times ≤ max_total_candidate_attempts
  unfolding normalize_candidate_policy check_total
  normalize-total cs opts policy e =
      let (u, e1, h1) =
        >>=-eq-ok
          (check_candidates {X = X} (length cs) (get_or default_max_candidates opts.max_candidates))
          _ e in
      let (o, e2, h2) = >>=-eq-ok (snapshot_retry_policy {X = X} opts.retry) _ h1 in
      let (v, e3, h3) = >>=-eq-ok (check_total {X = X} (length cs) o.times) _ h2 in
      let same : record { callbacks = opts.callbacks; retry = o; deadline_at = opts.deadline_at }
          ≡ policy =
        cc in
      ground (arith, ap (λ z. z.retry.times) same)

  -- When the caller's state counts the executions, those that a deadline cuts off included, a selection
  -- that gives a result has executed as many attempts as its evidence shows or counts as dropped. They
  -- are at most as many as there are candidates times the attempts that the retry policy allows, and no
  -- more than 10,000.
  pub first_acceptable-bounded :
      (cs : List C) (opts : SelectionOpts X C T S) (around : Surroundings X S) (s : S)
      (b : Option Budget) (policy : CandidatePolicy X C T S) (sel : Selection X C T S)
      (r : RunResult X C T) (count : S → ℕ)
      → normalize_candidate_policy cs opts ≡ ok policy
      → first_acceptable cs opts around s b ≡ ok sel
      → sel.result ≡ ok r
      → Counts count opts.callbacks
      → ((i : ℕ) → CountsCut count (around.clock i))
      → (count sel.progress.user ≡ (length r.evidence + r.dropped_evidence) + count s)
        × (length r.evidence + r.dropped_evidence ≤ length cs * policy.retry.times)
        × (length cs * policy.retry.times ≤ max_total_candidate_attempts)
  unfolding first_acceptable IsCounted no_evidence
  first_acceptable-bounded cs opts around s b policy sel r count e h k counts cut =
      let limit = get_or default_max_evidence opts.max_evidence in
      let (p2, e2, h2) = >>=-eq-ok (normalize_candidate_policy cs opts) _ h in
      let (u, e3, h3) = >>=-eq-ok (check_evidence {X = X} limit) _ h2 in
      let same : p2 ≡ policy = cc in
      let made : run_candidates policy around limit cs 0 (no_evidence s) b ≡ sel = cc in
      let (m, x, y, z) =
        subst (λ q. IsCounted count (length cs * policy.retry.times) (count s) 0 q) made
          (run_candidates-IsCounted count policy around limit cs 0 (no_evidence s) b
            (subst (Counts count) (sym (normalize-callbacks cs opts policy e)) counts) cut)
          r k in
      (omega (arith, y, z), omega (arith, x, z), normalize-total cs opts policy e)
