-- ===== src/Examples/Contexts.antt =====
-- A bag over another one that shares its budget (packages/core/src/engine/context.ts).
use workit.Prelude.{ℕ, ◌≡◌, refl, none, some, List, [], ◌∷◌, find, if◌then◌else◌, arith}
use workit.Engine.Context.{
  BudgetState, plain, budget_cell, ContextBag, has, get, entries_snapshot, consume_budget,
}
use workit.Engine.Context.Snapshot.{IsMap, entries_snapshot-get}
use workit.Engine.Context.Charges.{AllWithin, Charges, consume_budget-Charges}

abbrev user : List ℕ
user = b'u' ∷ []

abbrev tokens : List ℕ
tokens = b't' ∷ []

abbrev tokens_left : List BudgetState
tokens_left = record { limit = 10; spent = 4; unit = none } ∷ []

-- The root has the budget, and the user 1; its child has the user 2.
abbrev root : ContextBag ℕ
root = ((tokens, budget_cell 0) ∷ (user, plain 1) ∷ []) ∷ []

abbrev child : ContextBag ℕ
child = ((user, plain 2) ∷ []) ∷ root

entries_snapshot-get_example :
    IsMap (entries_snapshot tokens_left child)
    × ((name : List ℕ)
        → find name (entries_snapshot tokens_left child)
          ≡ (if has name child then some (get tokens_left name none child) else none))
entries_snapshot-get_example =
    entries_snapshot-get tokens_left child ((refl, tt), ((refl, (refl, tt)), tt))

consume_budget-Charges_example :
    AllWithin (consume_budget tokens 7 (child ∷ root ∷ []) tokens_left).cells
    × Charges tokens 7 child
        (root ∷ [])
        tokens_left
        (consume_budget tokens 7 (child ∷ root ∷ []) tokens_left)
consume_budget-Charges_example =
    consume_budget-Charges tokens 7 child (root ∷ []) tokens_left (omega arith, tt)
