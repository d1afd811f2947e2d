-- ===== src/TimePolicy/Admission.antt =====
-- When a plan with retry budgets is valid (packages/core/src/time-policy/index.ts).
use workit.Prelude.{
  ℕ, ◌+◌, ◌-◌, ◌≤◌, ◌≡◌, refl, sym, ap, subst, ◌∙◌, ◌⊎◌, inl, inr, Bool, true, false, ◌&&◌, Option,
  none, some, List, [], ◌∷◌, ◌++◌, all, leb, length, length-append, Bool-cases, append_assoc,
  append-nil, find, ok, arith, >>=-eq-ok,
}
use workit.Engine.Duration.{Number, whole, negative, not_finite}
use workit.TimePolicy.{TimePolicy, TimePlan, RetryBudgetSnapshot}
use workit.TimePolicy.Planner.{plan}
use workit.TimePolicy.Budget.{
  Demand, Snapshot, check_state, read_snapshots, admit, admit_all, admit_demand, collect_demand,
  apply_retry_budget_plan, plan_time_policy,
}

-- A budget's demand fits into what its snapshot has left.
abbrev pub is_admissible : List (List ℕ × Snapshot) → List ℕ × ℕ → Bool
is_admissible states (key, required) = elim (find key states) [
  | none ↦ false
  | some s ↦ leb required (s.limit - s.spent)
]

-- What a round changes, and what it leaves.
record IsAdmitted (p c : TimePlan) (fits : Bool) (lines : ℕ) : Type 0 where
  valid : c.valid ≡ (p.valid && fits)
  upper : c.upper_bound_ms ≡ p.upper_bound_ms
  tries : c.attempts ≡ p.attempts
  reported : length c.retry_budgets ≡ length p.retry_budgets + lines

and_assoc : (a b c : Bool) → ((a && b) && c) ≡ (a && (b && c))
and_assoc true b c = refl
and_assoc false b c = refl

admit-IsAdmitted :
    (p : TimePlan) (key : List ℕ) (required : ℕ) (s : Option Snapshot)
    → IsAdmitted p
        (admit p key required s)
        (elim s [ none ↦ false | some x ↦ leb required (x.limit - x.spent) ])
        1
unfolding admit
admit-IsAdmitted p key required none = record {
  valid = ground arith;
  upper = refl;
  tries = refl;
  reported = length-append p.retry_budgets _;
}
admit-IsAdmitted p key required (some s) = elim (Bool-cases (leb required (s.limit - s.spent))) [
  | inl e ↦ record {
    valid = ground arith;
    upper = ground arith;
    tries = ground arith;
    reported = rw e (length-append p.retry_budgets _);
  }
  | inr e ↦ record {
    valid = ground arith;
    upper = ground arith;
    tries = ground arith;
    reported = rw e (length-append p.retry_budgets _);
  }
]

admit_all-IsAdmitted :
    (p : TimePlan) (d : Demand) (states : List (List ℕ × Snapshot))
    → IsAdmitted p (admit_all p d states) (all (is_admissible states) d) (length d)
unfolding admit_all
admit_all-IsAdmitted p [] states = ground arith
admit_all-IsAdmitted p ((key, required) ∷ d) states =
    let one = admit-IsAdmitted p key required (find key states) in
    let rest = admit_all-IsAdmitted (admit p key required (find key states)) d states in
    record {
      valid =
          rest.valid
          ∙ ap (λ b. b && all (is_admissible states) d) one.valid
          ∙ and_assoc p.valid _ _;
      upper = rest.upper ∙ one.upper;
      tries = rest.tries ∙ one.tries;
      reported = omega (arith, rest.reported, one.reported);
    }

check_state-ok :
    (l s : Number) (x : Snapshot)
    → check_state l s ≡ ok x
    → (l ≡ whole x.limit) × (s ≡ whole x.spent) × (x.spent ≤ x.limit)
unfolding check_state
check_state-ok (whole l) (whole s) x e = ground arith
check_state-ok (whole l) negative x e = cc
check_state-ok (whole l) not_finite x e = cc
check_state-ok negative s x e = cc
check_state-ok not_finite s x e = cc

-- What an accepted snapshot says.
abbrev Reads : RetryBudgetSnapshot → List ℕ × Snapshot → Type 0
Reads raw (key, x) =
    (raw.key ≡ key)
    × (raw.state.limit ≡ whole x.limit)
    × (raw.state.spent ≡ whole x.spent)
    × (x.spent ≤ x.limit)

abbrev pub AllReads : List RetryBudgetSnapshot → List (List ℕ × Snapshot) → Type 0
AllReads [] [] = Unit
AllReads [] (s ∷ ss) = ⊥
AllReads (r ∷ rs) [] = ⊥
AllReads (r ∷ rs) (s ∷ ss) = Reads r s × AllReads rs ss

read_snapshots-ok :
    (raw : List RetryBudgetSnapshot) (before states : List (List ℕ × Snapshot))
    → read_snapshots raw before ≡ ok states
    → (added : List (List ℕ × Snapshot)) × (states ≡ before ++ added) × AllReads raw added
unfolding read_snapshots
read_snapshots-ok [] before states e = ([], cc (append-nil before), tt)
read_snapshots-ok (r ∷ rs) before states e =
    let (x, c, e1) = >>=-eq-ok (check_state r.state.limit r.state.spent) _ e in
    let (added, split, reads) =
      read_snapshots-ok rs (before ++ (r.key, x) ∷ []) states (ground arith) in
    let (l, s, le) = check_state-ok r.state.limit r.state.spent x c in
    (
      (r.key, x) ∷ added,
      split ∙ append_assoc before ((r.key, x) ∷ []) added,
      ((refl, l, s, le), reads),
    )

-- The demand of a plan, and the snapshots that it was checked against.
pub record IsChecked (base : TimePlan) (d : Demand) (raw : List RetryBudgetSnapshot) (c : TimePlan)
    : Type 0 where
  pub states : List (List ℕ × Snapshot)
  pub read : (d ≡ []) ⊎ AllReads raw states
  pub valid : c.valid ≡ (base.valid && all (is_admissible states) d)
  pub upper : c.upper_bound_ms ≡ base.upper_bound_ms
  pub tries : c.attempts ≡ base.attempts

and_true : (b : Bool) → b ≡ (b && true)
and_true true = refl
and_true false = refl

admit_demand-IsChecked :
    (base : TimePlan) (d : Demand) (raw : List RetryBudgetSnapshot) (c : TimePlan)
    → admit_demand base d raw ≡ ok c
    → IsChecked base d raw c
unfolding admit_demand
admit_demand-IsChecked base [] raw c e =
    let same : base ≡ c = cc in
    record {
      states = [];
      read = inl refl;
      valid = rw (← same) (and_true base.valid);
      upper = rw (← same);
      tries = rw (← same);
    }
admit_demand-IsChecked base (x ∷ d) raw c e =
    let (states, r, e1) = >>=-eq-ok (read_snapshots raw []) _ e in
    let (added, split, reads) = read_snapshots-ok raw [] states r in
    let done = admit_all-IsAdmitted (record base { retry_budgets = [] }) (x ∷ d) states in
    let same : admit_all (record base { retry_budgets = [] }) (x ∷ d) states ≡ c = cc in
    record {
      states = states;
      read = inr (subst (AllReads raw) (sym split) reads);
      valid =
          subst (λ y. y.valid ≡ (base.valid && all (is_admissible states) (x ∷ d))) same done.valid;
      upper = subst (λ y. y.upper_bound_ms ≡ base.upper_bound_ms) same done.upper;
      tries = subst (λ y. y.attempts ≡ base.attempts) same done.tries;
    }

-- A policy's plan is the plan of its shape with the retry demand checked: its bound and its attempts
-- are those of the shape; it is valid exactly when the shape is and each demanded budget has a
-- snapshot with enough left; and where there is a demand, every snapshot was read as given, with
-- natural numbers and no more spent than the limit.
pub plan_time_policy-IsChecked :
    {E : Type 0} (clock : ℕ) (p : TimePolicy E) (raw : List RetryBudgetSnapshot) (c : TimePlan)
    → plan_time_policy clock p raw ≡ ok c
    → (base : TimePlan) × (d : Demand) × (plan clock 0 p ≡ ok base)
      × (collect_demand p 1 [] ≡ ok d)
      × IsChecked base d raw c
unfolding plan_time_policy apply_retry_budget_plan
plan_time_policy-IsChecked clock p raw c e =
    let (base, pb, e1) = >>=-eq-ok (plan clock 0 p) _ e in
    let (d, pd, e2) = >>=-eq-ok (collect_demand p 1 []) _ e1 in
    (base, d, pb, pd, admit_demand-IsChecked base d raw c e2)
