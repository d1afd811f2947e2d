-- ===== src/Engine/Context.antt =====
-- packages/core/src/engine/context.ts, and `consumeBudget` and `findBudgetOwner` of
-- packages/core/src/engine/scope.ts. `V` is the type of the values that are no budget. A budget is a cell
-- that bags share: its state stands in a list of cells, and a bag has its place in this list. Amounts
-- are natural numbers.
pub mod Snapshot
pub mod Charges
use workit.Prelude.{
  ℕ, zero, suc, ◌+◌, Bool, true, false, not, ◌&&◌, ◌||◌, Option, none, some, List, [], ◌∷◌, ◌++◌,
  length, get_elem?, ltb, ◌==◌, find, same_text, if◌then◌else◌, Result, ok, err,
}
use workit.Engine.Errors.{
  RangeError, context_key_name, context_key_reserved, budget_unit, budget_spent,
}

abbrev pub max_context_key_name_length : ℕ
max_context_key_name_length = 128

abbrev pub max_budget_unit_length : ℕ
max_budget_unit_length = 32

pub record BudgetState : Type 0 where
  pub limit : ℕ
  pub spent : ℕ
  pub unit : Option (List ℕ)

-- What a map of a bag holds: a value, or a budget cell.
pub data Stored (V : Type 0) : Type 0 where
  plain : V → Stored V
  budget_cell : ℕ → Stored V

-- The map of one bag, and a bag with its parents.
abbrev pub Overlay : Type 0 → Type 0
Overlay V = List (List ℕ × Stored V)

abbrev pub ContextBag : Type 0 → Type 0
ContextBag V = List (Overlay V)

-- A value as `get` shows it: a budget as a copy of its state.
pub data Public (V : Type 0) : Type 0 where
  value : V → Public V
  budget : BudgetState → Public V
  missing : Public V

assert_context_key_name : List ℕ → Result RangeError (Unit {0})
assert_context_key_name name =
    if length name == 0 || ltb max_context_key_name_length (length name)
    then err context_key_name
    else if same_text name (b'_' ∷ b'_' ∷ b'p' ∷ b'r' ∷ b'o' ∷ b't' ∷ b'o' ∷ b'_' ∷ b'_' ∷ [])
        || same_text name
            (b'c' ∷ b'o' ∷ b'n' ∷ b's' ∷ b't' ∷ b'r' ∷ b'u' ∷ b'c' ∷ b't' ∷ b'o' ∷ b'r' ∷ [])
        || same_text name (b'p' ∷ b'r' ∷ b'o' ∷ b't' ∷ b'o' ∷ b't' ∷ b'y' ∷ b'p' ∷ b'e' ∷ [])
    then err context_key_reserved
    else ok tt

assert_budget_unit : Option (List ℕ) → Result RangeError (Unit {0})
assert_budget_unit none = ok tt
assert_budget_unit (some u) =
    if length u == 0 || ltb max_budget_unit_length (length u) then err budget_unit else ok tt

-- `validateBudgetState`.
unfoldable pub validate_budget_state : BudgetState → Result RangeError (Unit {0})
unfolding assert_budget_unit
validate_budget_state b =
    if ltb b.limit b.spent then err budget_spent else assert_budget_unit b.unit

-- `createBudget`, which gives a key with its name.
unfoldable pub create_budget : List ℕ → Option (List ℕ) → Result RangeError (List ℕ)
unfolding assert_context_key_name assert_budget_unit
create_budget name unit = elim (assert_context_key_name name) [
  | err e ↦ err e
  | ok _ ↦ elim (assert_budget_unit unit) [ err e ↦ err e | ok _ ↦ ok name ]
]

module _ {V : Type 0} where
  -- `with`, for a value and for a budget, which becomes a new cell.
  unfoldable pub with_value : List ℕ → V → ContextBag V → ContextBag V
  with_value name v bag = ((name, plain v) ∷ []) ∷ bag

  unfoldable pub with_budget :
      List ℕ
      → BudgetState
      → List BudgetState
      → ContextBag V
      → Result RangeError (List BudgetState × ContextBag V)
  with_budget name b cells bag = elim (validate_budget_state b) [
    | err e ↦ err e
    | ok _ ↦ ok (cells ++ b ∷ [], ((name, budget_cell (length cells)) ∷ []) ∷ bag)
  ]

  -- `find`: the innermost map that has the name.
  unfoldable pub find_stored : List ℕ → ContextBag V → Option (Stored V)
  find_stored name [] = none
  find_stored name (m ∷ bag) =
      let rest = find_stored name bag in elim (find name m) [ some s ↦ some s | none ↦ rest ]

  unfoldable pub has : List ℕ → ContextBag V → Bool
  unfolding find_stored
  has name bag = elim (find_stored name bag) [ none ↦ false | some s ↦ true ]

  unfoldable pub cell_state : Option BudgetState → Public V
  cell_state none = missing
  cell_state (some b) = budget b

  unfoldable pub to_public : List BudgetState → Stored V → Public V
  unfolding cell_state
  to_public cells (plain v) = value v
  to_public cells (budget_cell i) = cell_state (get_elem? cells i)

  -- `get`, with the default value of the key.
  unfoldable pub get : List BudgetState → List ℕ → Option V → ContextBag V → Public V
  unfolding find_stored to_public
  get cells name default bag = elim (find_stored name bag) [
    | some s ↦ to_public cells s
    | none ↦ elim default [ none ↦ missing | some v ↦ value v ]
  ]

  -- `budgetIdentity`.
  unfoldable pub identity_of : Option (Stored V) → Option ℕ
  identity_of none = none
  identity_of (some (plain v)) = none
  identity_of (some (budget_cell i)) = some i

  unfoldable pub budget_identity : List ℕ → ContextBag V → Option ℕ
  unfolding find_stored identity_of
  budget_identity name bag = identity_of (find_stored name bag)

  -- `Map.set`: the value of a key that is there changes in its place.
  abbrev pub set_entry : List ℕ → Stored V → Overlay V → Overlay V
  set_entry k s [] = (k, s) ∷ []
  set_entry k s ((j, t) ∷ m) =
      let rest = set_entry k s m in
      elim (same_text j k) [ true ↦ (j, s) ∷ m | false ↦ (j, t) ∷ rest ]

  abbrev pub set_all : Overlay V → Overlay V → Overlay V
  set_all [] m = m
  set_all ((k, s) ∷ es) m = set_all es (set_entry k s m)

  -- `flattened` of `entriesSnapshot`: the maps from the root down.
  unfoldable pub flattened : ContextBag V → Overlay V
  flattened [] = []
  flattened (m ∷ bag) = set_all m (flattened bag)

abbrev pub public_entries : {V : Type 0} → List BudgetState → Overlay V → List (List ℕ × Public V)
public_entries cells [] = []
public_entries cells ((k, s) ∷ m) = (k, to_public cells s) ∷ public_entries cells m

unfoldable pub entries_snapshot :
    {V : Type 0} → List BudgetState → ContextBag V → List (List ℕ × Public V)
unfolding flattened to_public
entries_snapshot cells bag = public_entries cells (flattened bag)

-- `findBudgetOwner`, on the budget identities of a scope and of its ancestors: the number of steps to
-- the owner.
abbrev pub same_identity : ℕ → Option ℕ → Bool
same_identity i none = false
same_identity i (some j) = j == i

abbrev pub parent_identity : List (Option ℕ) → Option ℕ
parent_identity [] = none
parent_identity (p ∷ ps) = p

abbrev pub one_up : Option ℕ → Option ℕ
one_up none = none
one_up (some n) = some (suc n)

unfoldable pub find_budget_owner : ℕ → List (Option ℕ) → Option ℕ
find_budget_owner i [] = none
find_budget_owner i (cur ∷ ancestors) =
    if same_identity i cur && not (same_identity i (parent_identity ancestors))
    then some 0
    else one_up (find_budget_owner i ancestors)

pub data BudgetError : Type 0 where
  not_set : BudgetError
  exceeded : (limit spent attempted : ℕ) → BudgetError

abbrev pub set_cell : ℕ → BudgetState → List BudgetState → List BudgetState
set_cell i b [] = []
set_cell zero b (c ∷ cs) = b ∷ cs
set_cell (suc i) b (c ∷ cs) = c ∷ set_cell i b cs

-- What a charge leaves: an error or none, the scope that is cancelled, counted from the one that is
-- charged, and the cells.
pub record Charged : Type 0 where
  pub error : Option BudgetError
  pub cancelled : Option ℕ
  pub cells : List BudgetState

abbrev pub or_self : Option ℕ → ℕ
or_self none = 0
or_self (some n) = n

unfoldable pub charge_cell :
    ℕ → ℕ → List (Option ℕ) → List BudgetState → Option BudgetState → Charged
unfolding find_budget_owner
charge_cell i amount identities cells none = record {
  error = some not_set;
  cancelled = none;
  cells = cells;
}
charge_cell i amount identities cells (some b) =
    if ltb b.limit (b.spent + amount)
    then record {
      error = some (exceeded b.limit (b.spent + amount) amount);
      cancelled = some (or_self (find_budget_owner i identities));
      cells = cells;
    }
    else record {
      error = none;
      cancelled = none;
      cells = set_cell i (record b { spent = b.spent + amount }) cells;
    }

abbrev pub identities_of : {V : Type 0} → List ℕ → List (ContextBag V) → List (Option ℕ)
identities_of name [] = []
identities_of name (bag ∷ bags) = budget_identity name bag ∷ identities_of name bags

unfoldable pub charge : ℕ → List (Option ℕ) → List BudgetState → Option ℕ → Charged
unfolding charge_cell
charge amount identities cells none = record {
  error = some not_set;
  cancelled = none;
  cells = cells;
}
charge amount identities cells (some i) = charge_cell i amount identities cells (get_elem? cells i)

-- `consumeBudget`, on the bags of a scope and of its ancestors.
unfoldable pub consume_budget :
    {V : Type 0} → List ℕ → ℕ → List (ContextBag V) → List BudgetState → Charged
unfolding charge
consume_budget name amount bags cells =
    charge amount (identities_of name bags) cells (parent_identity (identities_of name bags))
