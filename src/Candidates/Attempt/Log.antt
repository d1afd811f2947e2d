-- ===== src/Candidates/Attempt/Log.antt =====
-- The buffers of a selection against the full log of its decisions: they hold its first entries, and
-- count the others (packages/core/src/candidates/index.ts, `recordDecision`;
-- packages/core/src/replay/index.ts, `record`).
use workit.Prelude.{
  ℕ, zero, suc, ◌+◌, ◌≤◌, ◌<◌, ◌≡◌, refl, ap, ◌∙◌, sym, inl, inr, true, false, List, [], ◌∷◌, ◌++◌,
  length, length-append, arith, ltb, take, Bool-cases,
}
use workit.Candidates.{DecisionRecord}
use workit.Candidates.Evidence.{AttemptEvidence, Buffers, record_decision, record_attempt}

pub record Holds (limit : ℕ) (log : List DecisionRecord) (b : Buffers) : Type 0 where
  pub first : b.decisions ≡ take limit log
  pub aligned : length b.attempts ≡ length b.decisions
  pub counted : length b.attempts + b.dropped_attempts ≡ length log

take-fits :
    (n : ℕ) (xs : List DecisionRecord) (x : DecisionRecord)
    → length (take n xs) < n
    → take n (xs ++ x ∷ []) ≡ take n xs ++ x ∷ []
take-fits zero xs x h = absurd (omega arith)
take-fits (suc zero) [] x h = refl
take-fits (suc (suc n)) [] x h = refl
take-fits (suc n) (y ∷ xs) x h = ap (◌∷◌ y) (take-fits n xs x (omega arith))

take-full :
    (n : ℕ) (xs : List DecisionRecord) (x : DecisionRecord)
    → n ≤ length (take n xs)
    → take n (xs ++ x ∷ []) ≡ take n xs
take-full zero xs x h = refl
take-full (suc n) [] x h = absurd (omega arith)
take-full (suc n) (y ∷ xs) x h = ap (◌∷◌ y) (take-full n xs x (omega arith))

kept :
    (limit : ℕ) (b : Buffers) (d : DecisionRecord) (a : AttemptEvidence)
    → length b.attempts ≡ length b.decisions
    → ltb (length b.decisions) limit ≡ true
    → record_attempt limit a (record_decision limit d b)
      ≡ (record b { attempts = b.attempts ++ a ∷ []; decisions = b.decisions ++ d ∷ [] })
unfolding record_attempt record_decision
kept limit b d a e k =
    let k' : ltb (length b.attempts) limit ≡ true = rw e k in
    rw (k, record_decision) (rw (k', record_attempt) refl)

left_out :
    (limit : ℕ) (b : Buffers) (d : DecisionRecord) (a : AttemptEvidence)
    → length b.attempts ≡ length b.decisions
    → ltb (length b.decisions) limit ≡ false
    → record_attempt limit a (record_decision limit d b)
      ≡ (record b { dropped_attempts = suc b.dropped_attempts })
unfolding record_attempt record_decision
left_out limit b d a e k =
    let k' : ltb (length b.attempts) limit ≡ false = rw e k in
    rw (k, record_decision) (rw (k', record_attempt) refl)

-- An attempt and its decision are both kept, or both left out.
pub record-Holds :
    (limit : ℕ) (log : List DecisionRecord) (b : Buffers) (d : DecisionRecord) (a : AttemptEvidence)
    → Holds limit log b
    → Holds limit (log ++ d ∷ []) (record_attempt limit a (record_decision limit d b))
record-Holds limit log b d a h = elim (Bool-cases (ltb (length b.decisions) limit)) [
  | inl k ↦
      let fits : length (take limit log) < limit = ground (arith, ap length h.first) in
      rw (kept limit b d a h.aligned k) (record {
        first = rw h.first (sym (take-fits limit log d fits));
        aligned = omega (
          arith,
          h.aligned,
          length-append b.attempts (a ∷ []),
          length-append b.decisions (d ∷ []),
        );
        counted =
            omega (arith, h.counted, length-append b.attempts (a ∷ []), length-append log (d ∷ []));
      })
  | inr k ↦
      let full : limit ≤ length (take limit log) = ground (arith, ap length h.first) in
      rw (left_out limit b d a h.aligned k) (record {
        first = h.first ∙ sym (take-full limit log d full);
        aligned = h.aligned;
        counted = omega (arith, h.counted, length-append log (d ∷ []));
      })
]
