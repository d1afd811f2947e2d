-- ===== src/Candidates/Selection/Refinement.antt =====
-- A selection refines its trail (packages/core/src/candidates/index.ts, `firstAcceptable`).
use workit.Prelude.{
  ℕ, suc, ◌+◌, ◌<◌, ◌≡◌, refl, ap, subst, ◌∙◌, sym, inl, inr, true, Option, some, List, [], ◌∷◌,
  ◌++◌, map, append-nil, append_assoc, length, take, arith, All, Result, ok, err,
}
use workit.Engine.Errors.{RangeError}
use workit.Run.Thrown.{
  Thrown, failure, range_error, budget_not_set, type_error, cancellation, timeout_error,
  budget_exceeded,
}
use workit.Run.Retry.{Run, Budget}
use workit.Candidates.{
  Disposition, DecisionRecord, AttemptDecision, AttemptError, classified, callback, plain,
  ActionDecision,
}
use workit.Candidates.Evidence.{AttemptEvidence, CandidateEvidence, map_candidate_evidence, enrich}
use workit.Candidates.Trail.{
  Trail, spent, moved_on, IsRetry, MovesOn, Stops, Ending, accepted_at, none_accepted, ended,
  asks_user,
}
use workit.Candidates.Attempt.{AttemptResult, refused, Progress}
use workit.Candidates.Attempt.Verdict.{is_verdict, Decides, IsPrompt}
use workit.Candidates.Attempt.Log.{Holds}
use workit.Candidates.Selection.{
  SelectionOpts, CandidatePolicy, Surroundings, Selection, RunResult, Status, accepted, exhausted,
  terminal, requires_user_input, normalize_candidate_policy, first_acceptable, run_candidate,
  run_candidates, run_next, after_candidate, from_failure, concluded, read_evidence, no_evidence,
  check_evidence, default_max_evidence,
}
use workit.Candidates.Selection.Attempts.{run_candidate-Holds}

abbrev pub ending_of : {X C T : Type 0} → Status X C T → Ending
ending_of (accepted c i v) = accepted_at i
ending_of exhausted = none_accepted
ending_of (terminal code e) = ended code
ending_of (requires_user_input code) = asks_user code

-- An entry of the evidence, as the decision that it shows.
abbrev pub shown : CandidateEvidence → ℕ × AttemptDecision
shown e = (e.candidate_index, e.decision)

abbrev pub decided : DecisionRecord → ℕ × AttemptDecision
decided d = (d.candidate_index, d.decision)

-- The evidence can be read, and shows the decisions, when there is one of each attempt.
map-shows :
    (l1 : List AttemptEvidence) (ds : List DecisionRecord)
    → length l1 ≡ length ds
    → (l : List CandidateEvidence) × (map_candidate_evidence l1 ds ≡ some l)
      × (map shown l ≡ map decided ds)
      × (length l ≡ length l1)
unfolding map_candidate_evidence enrich
map-shows [] [] h = ([], refl, refl, refl)
map-shows [] (d ∷ ds) h = absurd (omega arith)
map-shows (a ∷ l1) [] h = absurd (omega arith)
map-shows (a ∷ l1) (d ∷ ds) h =
    let (l, e, m, n) = map-shows l1 ds (omega arith) in
    (enrich a d ∷ l, rw e refl, ap (◌∷◌ (decided d)) m, ap suc n)

-- A result whose evidence shows the first `limit` entries of the log, and counts the others.
unfoldable pub IsShown : {X C T : Type 0} → ℕ → List DecisionRecord → RunResult X C T → Type 0
IsShown limit log r =
    (map shown r.evidence ≡ map decided (take limit log))
    × (length r.evidence + r.dropped_evidence ≡ length log)

module _ {X C T S : Type 0} where
  -- A result of a selection that has logged `log` and has `left` candidates left, from candidate `i`.
  unfoldable pub Refines : ℕ → ℕ → List DecisionRecord → ℕ → ℕ → Selection X C T S → Type 0
  Refines times limit log left i sel =
      (r : RunResult X C T)
      → sel.result ≡ ok r
      → (rest : List DecisionRecord) × Trail times left i rest (ending_of r.status)
        × IsShown limit (log ++ rest) r

  concluded-IsShown :
      (limit : ℕ) (log : List DecisionRecord) (status : Status X C T) (p : Progress S)
      (b : Option Budget)
      → Holds limit log p.buffers
      → (r : RunResult X C T) × ((concluded status p b).result ≡ ok r)
        × (r.status ≡ status)
        × IsShown limit log r
  unfolding concluded workit.Candidates.Selection.stopped read_evidence IsShown
  concluded-IsShown limit log status p b h =
      let (l, e, m, n) = map-shows p.buffers.attempts p.buffers.decisions h.aligned in
      (
        record { status = status; evidence = l; dropped_evidence = p.buffers.dropped_attempts },
        rw (e, read_evidence) refl,
        refl,
        (m ∙ ap (map decided) h.first, omega (arith, n, h.counted)),
      )

  -- A selection that stops with the last decision `d` on candidate `i`.
  stop-Refines :
      (times limit left i : ℕ) (log front : List DecisionRecord) (d : DecisionRecord)
      (status : Status X C T) (p : Progress S) (b : Option Budget)
      → All (IsRetry i) front
      → length front < times
      → Stops i d (ending_of status)
      → Holds limit (log ++ (front ++ d ∷ [])) p.buffers
      → Refines times limit log (suc left) i (concluded status p b)
  unfolding Refines
  stop-Refines times limit left i log front d status p b a l x h r e =
      let (q, k, same, sh) = concluded-IsShown limit (log ++ (front ++ d ∷ [])) status p b h in
      let eq : r ≡ q = cc in
      (
        front ++ d ∷ [],
        subst (Trail times (suc left) i (front ++ d ∷ []))
            (sym (ap ending_of (ap (λ y. y.status) eq ∙ same)))
            (Trail.stopped left i front d (ending_of status) a l x),
        subst (IsShown limit (log ++ (front ++ d ∷ []))) (sym eq) sh,
      )

  -- A selection that goes on with the next candidate.
  next-Refines :
      (times limit left i : ℕ) (log front : List DecisionRecord) (d : DecisionRecord)
      (next : Selection X C T S)
      → All (IsRetry i) front
      → length front < times
      → MovesOn i d
      → Refines times limit (log ++ (front ++ d ∷ [])) left (suc i) next
      → Refines times limit log (suc left) i next
  unfolding Refines
  next-Refines times limit left i log front d next a l m n r e =
      let (rest, t, sh) = n r e in
      let same : (log ++ (front ++ d ∷ [])) ++ rest ≡ log ++ (front ++ d ∷ rest) =
        append_assoc log (front ++ d ∷ []) rest
        ∙ ap (◌++◌ log) (append_assoc front (d ∷ []) rest) in
      (
        front ++ d ∷ rest,
        moved_on left i front d rest _ a l m t,
        subst (λ z. IsShown limit z r) same sh,
      )

  failure-Refines :
      (times limit left i : ℕ) (log front : List DecisionRecord) (d : DecisionRecord) (e : Thrown X)
      (a : ActionDecision) (p : Progress S) (b : Option Budget) (next : Selection X C T S)
      → All (IsRetry i) front
      → length front < times
      → d.candidate_index ≡ i
      → d.decision ≡ AttemptDecision.acted a.disposition
      → d.reason_code ≡ some a.reason_code
      → Holds limit (log ++ (front ++ d ∷ [])) p.buffers
      → Refines times limit (log ++ (front ++ d ∷ [])) left (suc i) next
      → Refines times limit log (suc left) i (from_failure e a p b next)
  unfolding from_failure
  failure-Refines times limit left i log front d e a p b next al l x y z h n =
      elim a.disposition
          as (λ w.
            d.decision ≡ AttemptDecision.acted w
            → Refines times limit log (suc left) i (elim w [
              | Disposition.terminal ↦ concluded (terminal a.reason_code e) p b
              | Disposition.requires_user_input ↦ concluded (requires_user_input a.reason_code) p b
              | Disposition.retry_same_candidate ↦ next
              | Disposition.try_next_candidate ↦ next
            ])) [
              | Disposition.terminal ↦ λ k.
                  stop-Refines times limit left i log front d (terminal a.reason_code e) p b al l
                    (x, k, z) h
              | Disposition.requires_user_input ↦ λ k.
                  stop-Refines times limit left i log front d (requires_user_input a.reason_code) p
                    b al l (x, k, z) h
              | Disposition.retry_same_candidate ↦
                  λ k. next-Refines times limit left i log front d next al l (x, inl k) n
              | Disposition.try_next_candidate ↦
                  λ k. next-Refines times limit left i log front d next al l (x, inr (inl k)) n
            ]
        y

  after-Refines :
      (times limit left i : ℕ) (log : List DecisionRecord) (c : C)
      (r : Result (Thrown (AttemptError X)) (AttemptResult T)) (p : Progress S) (b : Option Budget)
      (next : Selection X C T S)
      → (is_verdict r ≡ true
          → (front : List DecisionRecord) × (d : DecisionRecord) × All (IsRetry i) front
            × (length front < times)
            × Decides i r d
            × Holds limit (log ++ (front ++ d ∷ [])) p.buffers)
      → ((log' : List DecisionRecord)
          → Holds limit log' p.buffers
          → Refines times limit log' left (suc i) next)
      → Refines times limit log (suc left) i (after_candidate c i r p b next)
  unfolding after_candidate workit.Candidates.Selection.stopped Refines
  after-Refines times limit left i log c (ok (AttemptResult.accepted v)) p b next h n =
      let (front, d, a, l, k, g) = h refl in
      stop-Refines times limit left i log front d (accepted c i v) p b a l (k.0, refl, k.1) g
  after-Refines times limit left i log c (ok refused) p b next h n =
      let (front, d, a, l, k, g) = h refl in
      next-Refines times limit left i log front d next a l (k.0, inr (inr k.1)) (n _ g)
  after-Refines times limit left i log c (err (failure (classified e x))) p b next h n =
      let (front, d, a, l, k, g) = h refl in
      failure-Refines times limit left i log front d e x p b next a l k.0 k.1 k.2 g (n _ g)
  after-Refines times limit left i log c (err (failure (callback e))) p b next h n =
      λ r k. absurd cc
  after-Refines times limit left i log c (err (failure (plain x))) p b next h n = λ r k. absurd cc
  after-Refines times limit left i log c (err (range_error e)) p b next h n = λ r k. absurd cc
  after-Refines times limit left i log c (err budget_not_set) p b next h n = λ r k. absurd cc
  after-Refines times limit left i log c (err type_error) p b next h n = λ r k. absurd cc
  after-Refines times limit left i log c (err cancellation) p b next h n = λ r k. absurd cc
  after-Refines times limit left i log c (err timeout_error) p b next h n = λ r k. absurd cc
  after-Refines times limit left i log c (err budget_exceeded) p b next h n = λ r k. absurd cc

  run-Refines :
      (times limit left i : ℕ) (log : List DecisionRecord) (c : C)
      (x : Result RangeError (Run (AttemptError X) (AttemptResult T) (Progress S))) (p : Progress S)
      (b : Option Budget) (next : Progress S → Option Budget → Selection X C T S)
      → ((q : Run (AttemptError X) (AttemptResult T) (Progress S))
          → x ≡ ok q
          → is_verdict q.result ≡ true
          → (front : List DecisionRecord) × (d : DecisionRecord) × All (IsRetry i) front
            × (length front < times)
            × Decides i q.result d
            × Holds limit (log ++ (front ++ d ∷ [])) q.state.buffers)
      → ((p' : Progress S) (b' : Option Budget) (log' : List DecisionRecord)
          → Holds limit log' p'.buffers
          → Refines times limit log' left (suc i) (next p' b'))
      → Refines times limit log (suc left) i (run_next c i x p b next)
  unfolding run_next workit.Candidates.Selection.stopped Refines
  run-Refines times limit left i log c (err e) p b next h n = λ r k. absurd cc
  run-Refines times limit left i log c (ok q) p b next h n =
      after-Refines times limit left i log c q.result q.state q.budget (next q.state q.budget)
        (h q refl) (n q.state q.budget)

  pub run_candidates-Refines :
      (policy : CandidatePolicy X C T S) (around : Surroundings X S) (limit : ℕ) (cs : List C)
      (i : ℕ) (p : Progress S) (b : Option Budget) (log : List DecisionRecord)
      → ((j : ℕ) → IsPrompt (around.clock j))
      → Holds limit log p.buffers
      → Refines policy.retry.times limit log
          (length cs)
          i
          (run_candidates policy around limit cs i p b)
  unfolding run_candidates Refines
  run_candidates-Refines policy around limit [] i p b log prompt h = λ r e.
      let (q, k, same, sh) = concluded-IsShown limit log exhausted p b h in
      let eq : r ≡ q = cc in
      (
        [],
        subst (Trail policy.retry.times 0 i []) (sym (ap ending_of (ap (λ y. y.status) eq ∙ same)))
            (spent i),
        subst (λ z. IsShown limit z r) (sym (append-nil log))
            (subst (IsShown limit log) (sym eq) sh),
      )
  run_candidates-Refines policy around limit (c ∷ cs) i p b log prompt h =
      run-Refines policy.retry.times limit (length cs) i log c
        (run_candidate policy around limit c i p b) p b _
        (λ q e v. run_candidate-Holds policy around limit c i p b q log (prompt i) e v h)
        (λ p' b' log' h'.
          run_candidates-Refines policy around limit cs (suc i) p' b' log' prompt h')
