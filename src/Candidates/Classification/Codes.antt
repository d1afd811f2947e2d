-- ===== src/Candidates/Classification/Codes.antt =====
-- What is known of a checked answer (packages/core/src/candidates/classification.ts).
use workit.Prelude.{
  ℕ, ◌≡◌, sym, subst, inl, inr, true, false, Option, none, some, List, Result, ok, err, ◌>>=◌,
  arith, >>=-eq-ok, Bool-cases,
}
use workit.Run.Thrown.{Thrown}
use workit.Candidates.{ActionDecision, rejected, ActionAnswer, AcceptanceAnswer}
use workit.Candidates.Classification.{
  is_reason_code, assert_reason_code, disposition_text, normalize_action_decision, acceptance_of,
  normalize_acceptance_decision,
}

assert-coded :
    {X : Type 0} (o : Option (List ℕ)) (t : List ℕ)
    → assert_reason_code {X = X} o ≡ ok t
    → is_reason_code t ≡ true
unfolding assert_reason_code
assert-coded none t e = absurd cc
assert-coded (some u) t e = elim (Bool-cases (is_reason_code u)) [
  | inl h ↦ ground arith
  | inr h ↦ ground arith
]

pub action-coded :
    {X : Type 0} (m : Result (Thrown X) (Option ActionAnswer)) (d : ActionDecision)
    → (m >>= normalize_action_decision) ≡ ok d
    → is_reason_code d.reason_code ≡ true
unfolding normalize_action_decision
action-coded (err e) d h = absurd cc
action-coded (ok none) d h = absurd cc
action-coded {X = X} (ok (some a)) d h =
    let (x, e1, h1) = >>=-eq-ok (disposition_text a.disposition) _ h in
    let (c, e2, h2) = >>=-eq-ok (assert_reason_code a.reason_code) _ h1 in
    let same : c ≡ d.reason_code = cc in rw (sym same) (assert-coded {X = X} a.reason_code c e2)

pub rejected-coded :
    {X : Type 0} (m : Result (Thrown X) (Option AcceptanceAnswer)) (c : List ℕ)
    → (m >>= normalize_acceptance_decision) ≡ ok (rejected c)
    → is_reason_code c ≡ true
unfolding normalize_acceptance_decision acceptance_of
rejected-coded (err e) c h = absurd cc
rejected-coded (ok none) c h = absurd cc
rejected-coded {X = X} (ok (some a)) c h =
    elim a.accepted
        as (λ o.
          acceptance_of {X = X} o a.reason_code ≡ ok (rejected c) → is_reason_code c ≡ true) [
            | none ↦ λ k. absurd cc
            | some true ↦ λ k. absurd cc
            | some false ↦ λ k.
                let (t, e1, k1) = >>=-eq-ok (assert_reason_code {X = X} a.reason_code) _ k in
                let same : t ≡ c = cc in
                subst (λ x. is_reason_code x ≡ true) same (assert-coded {X = X} a.reason_code t e1)
          ]
      h
