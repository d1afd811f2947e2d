-- ===== src/Examples/Buses.antt =====
-- A bus with a handler below the bus of a root (packages/core/src/engine/event-bus.ts).
use workit.Prelude.{◌+◌, ◌≤◌, ◌≡◌, refl, true, false, none, some, List, [], ◌∷◌, count, arith}
use workit.Engine.EventBus.{
  EventBus, BudgetState, plain, closed, budget_exceeded, create, unsubscribe, emit_all,
}
use workit.Engine.EventBus.Telemetry.{bus_of, state_of, emit_all-overrun, emit_all-counted}
use workit.Engine.EventBus.Handlers.{
  Subscription, registers, unsubscribes, subscribe_all, IsHandled, subscribe_all-create-IsHandled,
}

abbrev root : List EventBus
root = bus_of (9 ∷ []) 0 false ∷ []

-- Two events are paid for, two more are dropped, and the closing event says so to both handlers.
emit_all-overrun_example :
    emit_all
      (bus_of (1 ∷ []) 0 false)
      root
      (plain 10 ∷ plain 11 ∷ plain 12 ∷ plain 13 ∷ closed none ∷ [])
      (some (state_of 5 3))
    ≡ record {
      bus = bus_of (1 ∷ []) 2 true;
      budget = some (state_of 5 5);
      handled =
          (1, plain 10)
          ∷ (9, plain 10)
          ∷ (1, plain 11)
          ∷ (9, plain 11)
          ∷ (1, budget_exceeded 5 5)
          ∷ (9, budget_exceeded 5 5)
          ∷ (1, closed (some 2))
          ∷ (9, closed (some 2))
          ∷ [];
    }
emit_all-overrun_example =
    emit_all-overrun (1 ∷ []) root (10 ∷ 11 ∷ []) (13 ∷ []) 12 none 5 3 refl refl (omega arith)

emit_all-counted_example :
    let out = emit_all (bus_of [] 4 true) root (plain 10 ∷ plain 11 ∷ []) (some (state_of 5 4)) in
    (b : BudgetState) × (out.budget ≡ some b)
    × (b.limit ≡ 5)
    × (b.spent ≤ 5)
    × (b.spent + out.bus.dropped_count ≡ 10)
emit_all-counted_example =
    emit_all-counted [] 4 true root (10 ∷ 11 ∷ []) 5 4 refl (omega arith) (omega arith)

abbrev calls : List Subscription
calls = registers 3 ∷ registers 5 ∷ registers 3 ∷ unsubscribes 5 ∷ []

subscribe_all-create-IsHandled_example :
    IsHandled (subscribe_all create calls).handlers
    × (count 3 (unsubscribe 3 (subscribe_all create calls)).handlers ≡ 0)
subscribe_all-create-IsHandled_example = subscribe_all-create-IsHandled calls 3
