-- ===== src/Candidates/Classification/Said.antt =====
-- What the caller said when its answer is taken over (packages/core/src/candidates/classification.ts).
use workit.Prelude.{
  ℕ, ◌≡◌, refl, ap, ◌∙◌, subst, inl, inr, Bool, true, false, if◌then◌else◌, same_text→eq, Option,
  none, some, List, Result, ok, err, ◌>>=◌, arith, >>=-eq-ok, Bool-cases,
}
use workit.Run.Thrown.{Thrown}
use workit.Candidates.{
  Disposition, retry_same_candidate, try_next_candidate, terminal, requires_user_input,
  ActionDecision, AcceptanceDecision, rejected, ActionAnswer, AcceptanceAnswer,
}
use workit.Candidates.Classification.{
  is_reason_code, assert_reason_code, disposition_of, known_disposition, retry_same_candidate_text,
  try_next_candidate_text, terminal_text, requires_user_input_text, disposition_text,
  normalize_action_decision, acceptance_of, normalize_acceptance_decision,
}
use workit.Candidates.Classification.Codes.{action-coded}

-- The text of a disposition.
abbrev pub text_of : Disposition → List ℕ
text_of retry_same_candidate = retry_same_candidate_text
text_of try_next_candidate = try_next_candidate_text
text_of terminal = terminal_text
text_of requires_user_input = requires_user_input_text

pick :
    (p q r s : Bool) (P : Disposition → Type 0)
    → (p ≡ true → P retry_same_candidate)
    → (q ≡ true → P try_next_candidate)
    → (r ≡ true → P terminal)
    → (s ≡ true → P requires_user_input)
    → (x : Disposition)
    → (if p
        then some retry_same_candidate
        else if q
        then some try_next_candidate
        else if r
        then some terminal
        else if s
        then some requires_user_input
        else none)
      ≡ some x
    → P x
pick true q r s P a b c d x e = let k : retry_same_candidate ≡ x = cc in subst P k (a refl)
pick false true r s P a b c d x e = let k : try_next_candidate ≡ x = cc in subst P k (b refl)
pick false false true s P a b c d x e = let k : terminal ≡ x = cc in subst P k (c refl)
pick false false false true P a b c d x e =
    let k : requires_user_input ≡ x = cc in subst P k (d refl)
pick false false false false P a b c d x e = absurd cc

disposition_of-text : (t : List ℕ) (x : Disposition) → disposition_of t ≡ some x → t ≡ text_of x
unfolding disposition_of
disposition_of-text t x e =
    pick _ _ _ _ (λ y. t ≡ text_of y) (same_text→eq t _) (same_text→eq t _) (same_text→eq t _)
      (same_text→eq t _) x e

known-some :
    {X : Type 0} (o : Option Disposition) (x : Disposition)
    → known_disposition {X = X} o ≡ ok x
    → o ≡ some x
unfolding known_disposition
known-some none x e = absurd cc
known-some (some y) x e = cc

disposition_text-said :
    {X : Type 0} (o : Option (List ℕ)) (x : Disposition)
    → disposition_text {X = X} o ≡ ok x
    → o ≡ some (text_of x)
unfolding disposition_text
disposition_text-said none x e = absurd cc
disposition_text-said {X = X} (some t) x e =
    ap some (disposition_of-text t x (known-some {X = X} (disposition_of t) x e))

assert-said :
    {X : Type 0} (o : Option (List ℕ)) (t : List ℕ)
    → assert_reason_code {X = X} o ≡ ok t
    → o ≡ some t
unfolding assert_reason_code
assert-said none t e = absurd cc
assert-said (some u) t e = elim (Bool-cases (is_reason_code u)) [
  | inl h ↦ ground arith
  | inr h ↦ ground arith
]

-- A decision that is taken over is what the caller's classifier said.
pub action-said :
    {X : Type 0} (m : Result (Thrown X) (Option ActionAnswer)) (d : ActionDecision)
    → (m >>= normalize_action_decision) ≡ ok d
    → (w : ActionAnswer) × (m ≡ ok (some w))
      × (w.disposition ≡ some (text_of d.disposition))
      × (w.reason_code ≡ some d.reason_code)
      × (is_reason_code d.reason_code ≡ true)
unfolding normalize_action_decision
action-said (err e) d h = absurd cc
action-said (ok none) d h = absurd cc
action-said {X = X} (ok (some a)) d h =
    let (x, e1, h1) = >>=-eq-ok (disposition_text a.disposition) _ h in
    let (c, e2, h2) = >>=-eq-ok (assert_reason_code a.reason_code) _ h1 in
    let same : c ≡ d.reason_code = cc in
    let same' : x ≡ d.disposition = cc in
    (
      a,
      refl,
      disposition_text-said {X = X} a.disposition x e1 ∙ ap (λ y. some (text_of y)) same',
      assert-said {X = X} a.reason_code c e2 ∙ ap some same,
      action-coded {X = X} (ok (some a)) d h,
    )

accepted-said :
    {X : Type 0} (o : Option Bool) (c : Option (List ℕ)) (a : AcceptanceDecision)
    → acceptance_of {X = X} o c ≡ ok a
    → o ≡ (elim a [ AcceptanceDecision.accepted ↦ some true | rejected c ↦ some false ])
unfolding acceptance_of
accepted-said none c a h = absurd cc
accepted-said (some true) c AcceptanceDecision.accepted h = refl
accepted-said (some true) c (rejected t) h = absurd cc
accepted-said {X = X} (some false) c AcceptanceDecision.accepted h =
    let (t, e, k) = >>=-eq-ok (assert_reason_code {X = X} c) _ h in absurd cc
accepted-said (some false) c (rejected t) h = refl

-- A verdict that is taken over is what the caller said of the value.
pub acceptance-said :
    {X : Type 0} (m : Result (Thrown X) (Option AcceptanceAnswer)) (a : AcceptanceDecision)
    → (m >>= normalize_acceptance_decision) ≡ ok a
    → (w : AcceptanceAnswer) × (m ≡ ok (some w))
      × (w.accepted
          ≡ (elim a [ AcceptanceDecision.accepted ↦ some true | rejected c ↦ some false ]))
unfolding normalize_acceptance_decision
acceptance-said (err e) a h = absurd cc
acceptance-said (ok none) a h = absurd cc
acceptance-said {X = X} (ok (some w)) a h =
    (w, refl, accepted-said {X = X} w.accepted w.reason_code a h)
