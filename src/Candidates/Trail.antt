-- ===== src/Candidates/Trail.antt =====
-- What a selection promises, without its callbacks, buffers and retries: the decisions that the
-- attempts of the candidates can end with, in order
-- (packages/core/src/candidates/index.ts, `firstAcceptable`).
use workit.Prelude.{
  ℕ, zero, suc, ◌*◌, ◌≤◌, ◌<◌, ◌≡◌, ◌⊎◌, some, List, [], ◌∷◌, ◌++◌, All, length, length-append,
  arith,
}
use workit.Candidates.{
  AttemptDecision, acted, quality_rejected, DecisionRecord, retry_same_candidate,
  try_next_candidate, terminal, requires_user_input,
}

-- A status, of which the values and errors are forgotten.
pub data Ending : Type 0 where
  accepted_at : ℕ → Ending
  none_accepted : Ending
  ended asks_user : List ℕ → Ending

abbrev pub IsRetry : ℕ → DecisionRecord → Type 0
IsRetry i d = (d.candidate_index ≡ i) × (d.decision ≡ acted retry_same_candidate)

-- The last decision on a candidate that is given up: it may be retried, but has no attempts left.
abbrev pub MovesOn : ℕ → DecisionRecord → Type 0
MovesOn i d =
    (d.candidate_index ≡ i)
    × ((d.decision ≡ acted retry_same_candidate)
        ⊎ (d.decision ≡ acted try_next_candidate)
        ⊎ (d.decision ≡ quality_rejected))

abbrev pub Stops : ℕ → DecisionRecord → Ending → Type 0
Stops i d (accepted_at j) =
    (d.candidate_index ≡ i) × (j ≡ i) × (d.decision ≡ AttemptDecision.accepted)
Stops i d none_accepted = ⊥
Stops i d (ended code) =
    (d.candidate_index ≡ i) × (d.decision ≡ acted terminal) × (d.reason_code ≡ some code)
Stops i d (asks_user code) =
    (d.candidate_index ≡ i) × (d.decision ≡ acted requires_user_input) × (d.reason_code ≡ some code)

-- `left` candidates are left, of which the first one is candidate `i`.
pub data Trail (times : ℕ) : ℕ → ℕ → List DecisionRecord → Ending → Type 0 where
  spent : (i : ℕ) → Trail times zero i [] none_accepted
  moved_on :
      (left i : ℕ) (front : List DecisionRecord) (d : DecisionRecord) (rest : List DecisionRecord)
      (e : Ending)
      → All (IsRetry i) front
      → length front < times
      → MovesOn i d
      → Trail times left (suc i) rest e
      → Trail times (suc left) i (front ++ d ∷ rest) e
  stopped :
      (left i : ℕ) (front : List DecisionRecord) (d : DecisionRecord) (e : Ending)
      → All (IsRetry i) front
      → length front < times
      → Stops i d e
      → Trail times (suc left) i (front ++ d ∷ []) e

-- A candidate makes at most `times` attempts.
pub Trail_bounded :
    {times left i : ℕ} {log : List DecisionRecord} {e : Ending}
    → Trail times left i log e
    → length log ≤ left * times
Trail_bounded {times} (spent i) = omega arith
Trail_bounded {times} (moved_on left i front d rest e a l m t) =
    let h = Trail_bounded t in grind (arith, length-append front (d ∷ rest))
Trail_bounded {times} (stopped left i front d e a l m) = grind (arith, length-append front (d ∷ []))
