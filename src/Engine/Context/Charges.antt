-- ===== src/Engine/Context/Charges.antt =====
-- What a charge of a budget does (`consumeBudget`, packages/core/src/engine/scope.ts).
use workit.Prelude.{
  ℕ, zero, suc, ◌+◌, ◌≤◌, ◌<◌, ◌≡◌, ◌≢◌, refl, sym, ap, subst, ◌∙◌, true, false, Option, none, some,
  List, [], ◌∷◌, get_elem?, ltb, ltb→lt, not_ltb→le, arith, Bool-cases, option-cases,
  some_injective, inl, inr,
}
use workit.Engine.Context.{
  BudgetState, ContextBag, not_set, exceeded, set_cell, Charged, charge_cell, charge,
  consume_budget, same_identity, parent_identity, find_budget_owner, identities_of, budget_identity,
}

-- Every budget has spent at most its limit.
abbrev pub AllWithin : List BudgetState → Type 0
AllWithin [] = Unit
AllWithin (b ∷ bs) = (b.spent ≤ b.limit) × AllWithin bs

-- The `n`-th scope from the charged one owns the cell `i`: it and all scopes below it have the cell,
-- and its parent has not.
abbrev pub IsOwner : ℕ → ℕ → List (Option ℕ) → Type 0
IsOwner i n [] = ⊥
IsOwner i zero (c ∷ cs) = (c ≡ some i) × (parent_identity cs ≢ some i)
IsOwner i (suc n) (c ∷ cs) = (c ≡ some i) × IsOwner i n cs

-- What a charge of `amount` on the scope with these bags may leave: no budget, one that is too small,
-- or one that the charge fits.
pub data Charges {V : Type 0} (name : List ℕ) (amount : ℕ) (bag : ContextBag V)
    (ancestors : List (ContextBag V)) (cells : List BudgetState) (out : Charged) : Type 0 where
  no_budget :
      ((i : ℕ) → budget_identity name bag ≡ some i → get_elem? cells i ≡ none)
      → out.error ≡ some not_set
      → out.cancelled ≡ none
      → out.cells ≡ cells
      → Charges name amount bag ancestors cells out
  too_small :
      (i n : ℕ) (b : BudgetState)
      → budget_identity name bag ≡ some i
      → get_elem? cells i ≡ some b
      → b.limit < b.spent + amount
      → out.error ≡ some (exceeded b.limit (b.spent + amount) amount)
      → out.cancelled ≡ some n
      → IsOwner i n (identities_of name (bag ∷ ancestors))
      → out.cells ≡ cells
      → Charges name amount bag ancestors cells out
  charged :
      (i : ℕ) (b : BudgetState)
      → budget_identity name bag ≡ some i
      → get_elem? cells i ≡ some b
      → b.spent + amount ≤ b.limit
      → out.error ≡ none
      → out.cancelled ≡ none
      → get_elem? out.cells i ≡ some (record b { spent = b.spent + amount })
      → ((j : ℕ) → j ≢ i → get_elem? out.cells j ≡ get_elem? cells j)
      → Charges name amount bag ancestors cells out

get_elem?-set_cell :
    (i : ℕ) (b c : BudgetState) (cells : List BudgetState)
    → get_elem? cells i ≡ some c
    → get_elem? (set_cell i b cells) i ≡ some b
get_elem?-set_cell i b c [] h = ground arith
get_elem?-set_cell zero b c (d ∷ cells) h = refl
get_elem?-set_cell (suc i) b c (d ∷ cells) h = get_elem?-set_cell i b c cells h

get_elem?-set_cell_other :
    (i j : ℕ) (b : BudgetState) (cells : List BudgetState)
    → j ≢ i
    → get_elem? (set_cell i b cells) j ≡ get_elem? cells j
get_elem?-set_cell_other i j b [] h = refl
get_elem?-set_cell_other zero zero b (d ∷ cells) h = absurd (h refl)
get_elem?-set_cell_other zero (suc j) b (d ∷ cells) h = refl
get_elem?-set_cell_other (suc i) zero b (d ∷ cells) h = refl
get_elem?-set_cell_other (suc i) (suc j) b (d ∷ cells) h =
    get_elem?-set_cell_other i j b cells (λ e. h (ap suc e))

AllWithin-set_cell :
    (i : ℕ) (b : BudgetState) (cells : List BudgetState)
    → b.spent ≤ b.limit
    → AllWithin cells
    → AllWithin (set_cell i b cells)
AllWithin-set_cell i b [] le h = h
AllWithin-set_cell zero b (c ∷ cells) le (p, h) = (le, h)
AllWithin-set_cell (suc i) b (c ∷ cells) le (p, h) = (p, AllWithin-set_cell i b cells le h)

same_identity→eq : (i : ℕ) (c : Option ℕ) → same_identity i c ≡ true → c ≡ some i
same_identity→eq i none h = ground arith
same_identity→eq i (some j) h = ground arith

same_identity-false : (i : ℕ) (c : Option ℕ) → same_identity i c ≡ false → c ≢ some i
same_identity-false i none h = λ e. ground arith
same_identity-false i (some j) h = λ e. ground arith

-- A scope that has the cell has an owner of it among its ancestors and itself.
find_budget_owner-IsOwner :
    (i : ℕ) (ids : List (Option ℕ))
    → parent_identity ids ≡ some i
    → (n : ℕ) × (find_budget_owner i ids ≡ some n) × IsOwner i n ids
unfolding find_budget_owner
find_budget_owner-IsOwner i [] h = absurd (ground arith)
find_budget_owner-IsOwner i (c ∷ ids) h =
    elim (Bool-cases (same_identity i (parent_identity ids))) [
      | inl e ↦
          let (n, found, owner) =
            find_budget_owner-IsOwner i ids (same_identity→eq i (parent_identity ids) e) in
          (suc n, ground arith, (h, owner))
      | inr e ↦ (0, ground arith, (h, same_identity-false i (parent_identity ids) e))
    ]

module _ {V : Type 0} (name : List ℕ) (amount : ℕ) (bag : ContextBag V)
    (ancestors : List (ContextBag V)) (cells : List BudgetState) (within : AllWithin cells) where
  Outcome : Charged → Type 0
  Outcome out = AllWithin out.cells × Charges name amount bag ancestors cells out

  charge_cell-Outcome :
      (i : ℕ) (b : BudgetState)
      → budget_identity name bag ≡ some i
      → get_elem? cells i ≡ some b
      → Outcome (charge_cell i amount (identities_of name (bag ∷ ancestors)) cells (some b))
  unfolding Outcome charge_cell
  charge_cell-Outcome i b at found = elim (Bool-cases (ltb b.limit (b.spent + amount))) [
    | inl e ↦
        let (n, owner, IsOwner) =
          find_budget_owner-IsOwner i (identities_of name (bag ∷ ancestors)) at in
        rw e (
          within,
          too_small i n b at found (ltb→lt b.limit (b.spent + amount) e) refl (rw owner refl)
              IsOwner refl,
        )
    | inr e ↦
        let le = not_ltb→le b.limit (b.spent + amount) e in
        rw e (
          AllWithin-set_cell i (record b { spent = b.spent + amount }) cells le within,
          charged i b at found le refl refl
              (get_elem?-set_cell i (record b { spent = b.spent + amount }) b cells found)
              (λ j ne.
                get_elem?-set_cell_other i j (record b { spent = b.spent + amount }) cells ne),
        )
  ]

  charge-Outcome :
      (o : Option ℕ)
      → budget_identity name bag ≡ o
      → Outcome (charge amount (identities_of name (bag ∷ ancestors)) cells o)
  unfolding Outcome charge charge_cell
  charge-Outcome none e = (within, no_budget (λ i f. ground arith) refl refl refl)
  charge-Outcome (some i) e = elim (option-cases (get_elem? cells i)) [
    | inl f ↦ rw f (
      within,
      no_budget (λ j g. subst (λ k. get_elem? cells k ≡ none) (some_injective (sym e ∙ g)) f) refl
          refl refl,
    )
    | inr (b, f) ↦ rw f (charge_cell-Outcome i b e f)
  ]

  -- Where every budget has spent at most its limit, it has after `consumeBudget` too. Either the scope
  -- has no such budget: the error says so, and no cell and no scope changes. Or the charge exceeds
  -- what is left: the error has the limit, the sum and the amount, no cell changes, and the scope
  -- that is cancelled owns the budget, which its parent has not. Or the charge fits: only the scope's
  -- budget changes, by the amount, and nothing is cancelled.
  pub consume_budget-Charges :
      AllWithin (consume_budget name amount (bag ∷ ancestors) cells).cells
      × Charges name amount bag ancestors cells (consume_budget name amount (bag ∷ ancestors) cells)
  unfolding consume_budget Outcome
  consume_budget-Charges = charge-Outcome (budget_identity name bag) refl
