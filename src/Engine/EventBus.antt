-- ===== src/Engine/EventBus.antt =====
-- packages/core/src/engine/event-bus.ts. A bus is given with the chain of its parents. Handlers are
-- the numbers of the functions that were registered, and what they do, a throw included, does not
-- come back. A context is the state of its telemetry budget, if it holds one.
pub mod Telemetry
pub mod Handlers
use workit.Prelude.{
  ℕ, suc, Bool, true, false, not, max, Option, none, some, List, [], ◌∷◌, ◌++◌, map, length, keep,
  ltb, ◌==◌, if◌then◌else◌, Result, ok, err,
}
use workit.Engine.Errors.{RangeError, too_many_handlers}

abbrev pub max_event_handlers : ℕ
max_event_handlers = 10000

-- `Number.MAX_SAFE_INTEGER`.
abbrev pub max_safe_integer : ℕ
max_safe_integer = 9007199254740991

-- The event that closes a scope carries a count of dropped events, the warning of the bus the limit
-- and what is spent; of the other events the bus reads nothing.
pub data TaskEvent : Type 0 where
  plain : ℕ → TaskEvent
  closed : Option ℕ → TaskEvent
  budget_exceeded : ℕ → ℕ → TaskEvent

pub record BudgetState : Type 0 where
  pub limit : ℕ
  pub spent : ℕ

pub record EventBus : Type 0 where
  pub handlers : List ℕ
  pub dropped_count : ℕ
  pub overrun_warned : Bool

abbrev pub create : EventBus
create = record { handlers = []; dropped_count = 0; overrun_warned = false }

-- A call of a handler with an event.
abbrev pub Handled : Type 0
Handled = ℕ × TaskEvent

-- What a call of `emit` leaves: the bus, the budget of the context and the calls of handlers.
pub record Emitted : Type 0 where
  pub bus : EventBus
  pub budget : Option BudgetState
  pub handled : List Handled

abbrev pub member : ℕ → List ℕ → Bool
member h [] = false
member h (k ∷ ks) = let rest = member h ks in if k == h then true else rest

unfoldable pub on : ℕ → EventBus → Result RangeError EventBus
on h bus =
    if not (ltb (length bus.handlers) max_event_handlers)
    then err too_many_handlers
    else ok (record bus {
      handlers = if member h bus.handlers then bus.handlers else bus.handlers ++ h ∷ [];
    })

-- The function that `on` returns.
unfoldable pub unsubscribe : ℕ → EventBus → EventBus
unsubscribe h bus = record bus { handlers = keep (λ k. not (k == h)) bus.handlers }

abbrev pub has_handlers : List EventBus → Bool
has_handlers [] = false
has_handlers (bus ∷ chain) =
    let rest = has_handlers chain in elim bus.handlers [ [] ↦ rest | _ ∷ _ ↦ true ]

-- From the bus up to the root, each handler of a bus in turn.
abbrev pub dispatch : List EventBus → TaskEvent → List Handled
dispatch [] e = []
dispatch (bus ∷ chain) e = map (λ h. (h, e)) bus.handlers ++ dispatch chain e

abbrev pub count_or_zero : Option ℕ → ℕ
count_or_zero none = 0
count_or_zero (some n) = n

-- The warning comes with the first dropped event, and the count stops at the largest safe number.
unfoldable pub drop : EventBus → List EventBus → BudgetState → Emitted
drop bus parents b = record {
  bus = record bus {
    overrun_warned = true;
    dropped_count =
        if ltb bus.dropped_count max_safe_integer then suc bus.dropped_count else bus.dropped_count;
  };
  budget = some b;
  handled =
      if bus.overrun_warned then [] else dispatch (bus ∷ parents) (budget_exceeded b.limit b.spent);
}

unfoldable pub overrun : EventBus → List EventBus → TaskEvent → BudgetState → Emitted
unfolding drop
overrun bus parents (closed dropped) b = record {
  bus = bus;
  budget = some b;
  handled =
      dispatch (bus ∷ parents) (closed (some (max (count_or_zero dropped) bus.dropped_count)));
}
overrun bus parents _ b = drop bus parents b

unfoldable pub budgeted : EventBus → List EventBus → TaskEvent → Option BudgetState → Emitted
unfolding overrun
budgeted bus parents e none = record {
  bus = bus;
  budget = none;
  handled = dispatch (bus ∷ parents) e;
}
budgeted bus parents e (some b) =
    if ltb b.spent b.limit
    then record {
      bus = bus;
      budget = some (record b { spent = suc b.spent });
      handled = dispatch (bus ∷ parents) e;
    }
    else overrun bus parents e b

unfoldable pub emit : EventBus → List EventBus → TaskEvent → Option BudgetState → Emitted
unfolding budgeted
emit bus parents e b =
    if has_handlers (bus ∷ parents)
    then budgeted bus parents e b
    else record { bus = bus; budget = b; handled = [] }

-- Events emitted one after another in one context.
unfoldable pub emit_all : EventBus → List EventBus → List TaskEvent → Option BudgetState → Emitted
unfolding emit
emit_all bus parents [] b = record { bus = bus; budget = b; handled = [] }
emit_all bus parents (e ∷ es) b =
    let first = emit bus parents e b in
    let rest = emit_all first.bus parents es first.budget in
    record rest { handled = first.handled ++ rest.handled }
