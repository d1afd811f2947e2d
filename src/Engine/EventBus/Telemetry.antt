-- ===== src/Engine/EventBus/Telemetry.antt =====
-- The telemetry budget of a bus (packages/core/src/engine/event-bus.ts, `emit`).
use workit.Prelude.{
  ℕ, suc, ◌+◌, ◌≤◌, ◌<◌, ◌≡◌, refl, Bool, true, false, max, Option, some, List, [], ◌∷◌, ◌++◌, map,
  length, append-nil, arith, ltb, inl, inr, Bool-cases, ◌∙◌,
}
use workit.Engine.EventBus.{
  EventBus, BudgetState, Handled, TaskEvent, plain, closed, budget_exceeded, max_safe_integer,
  has_handlers, dispatch, count_or_zero, drop, overrun, budgeted, emit, emit_all,
}

abbrev pub bus_of : List ℕ → ℕ → Bool → EventBus
bus_of h d w = record { handlers = h; dropped_count = d; overrun_warned = w }

abbrev pub state_of : ℕ → ℕ → BudgetState
state_of limit spent = record { limit = limit; spent = spent }

-- The calls of handlers for a list of events, each of them dispatched.
abbrev pub dispatch_all : List EventBus → List TaskEvent → List Handled
dispatch_all chain [] = []
dispatch_all chain (e ∷ es) = dispatch chain e ++ dispatch_all chain es

emit-paid :
    (h : List ℕ) (d : ℕ) (w : Bool) (ps : List EventBus) (e : TaskEvent) (limit spent : ℕ)
    → has_handlers (bus_of h d w ∷ ps) ≡ true
    → spent < limit
    → emit (bus_of h d w) ps e (some (state_of limit spent)) ≡ record {
      bus = bus_of h d w;
      budget = some (state_of limit (suc spent));
      handled = dispatch (bus_of h d w ∷ ps) e;
    }
unfolding emit budgeted overrun drop
emit-paid h d w ps e limit spent k lt = ground arith

emit-dropped :
    (h : List ℕ) (d : ℕ) (ps : List EventBus) (n limit spent : ℕ)
    → has_handlers (bus_of h d true ∷ ps) ≡ true
    → limit ≤ spent
    → d < max_safe_integer
    → emit (bus_of h d true) ps (plain n) (some (state_of limit spent))
      ≡ record { bus = bus_of h (suc d) true; budget = some (state_of limit spent); handled = [] }
unfolding emit budgeted overrun drop
emit-dropped h d ps n limit spent k le lt = ground arith

emit-warned :
    (h : List ℕ) (ps : List EventBus) (n limit spent : ℕ)
    → has_handlers (bus_of h 0 false ∷ ps) ≡ true
    → limit ≤ spent
    → emit (bus_of h 0 false) ps (plain n) (some (state_of limit spent)) ≡ record {
      bus = bus_of h 1 true;
      budget = some (state_of limit spent);
      handled = dispatch (bus_of h 0 false ∷ ps) (budget_exceeded limit spent);
    }
unfolding emit budgeted overrun drop
emit-warned h ps n limit spent k le = ground arith

emit-closed :
    (h : List ℕ) (d : ℕ) (ps : List EventBus) (c : Option ℕ) (limit spent : ℕ)
    → has_handlers (bus_of h d true ∷ ps) ≡ true
    → limit ≤ spent
    → emit (bus_of h d true) ps (closed c) (some (state_of limit spent)) ≡ record {
      bus = bus_of h d true;
      budget = some (state_of limit spent);
      handled = dispatch (bus_of h d true ∷ ps) (closed (some (max (count_or_zero c) d)));
    }
unfolding emit budgeted overrun drop
emit-closed h d ps c limit spent k le = ground arith

-- What an exhausted budget leaves of more events and the closing event.
emit_all-dropped :
    (h : List ℕ) (d total : ℕ) (ps : List EventBus) (lost : List ℕ) (c : Option ℕ) (limit spent : ℕ)
    → has_handlers (bus_of h d true ∷ ps) ≡ true
    → limit ≤ spent
    → total ≡ d + length lost
    → total ≤ max_safe_integer
    → emit_all (bus_of h d true) ps (map plain lost ++ closed c ∷ []) (some (state_of limit spent))
      ≡ record {
        bus = bus_of h total true;
        budget = some (state_of limit spent);
        handled = dispatch (bus_of h d true ∷ ps) (closed (some (max (count_or_zero c) total)));
      }
unfolding emit_all
emit_all-dropped h d total ps [] c limit spent k le e m = rw (
  emit-closed h d ps c limit spent k le,
  same,
  append-nil (dispatch (bus_of h d true ∷ ps) (closed (some (max (count_or_zero c) d)))),
)
  where
    same : total ≡ d
    same = omega arith
emit_all-dropped h d total ps (n ∷ ns) c limit spent k le e m = rw (
  emit-dropped h d ps n limit spent k le (omega arith),
  emit_all-dropped h (suc d) total ps ns c limit spent k le (omega arith) m,
)

-- Events that fill the telemetry budget of a context and then one more or several, before the event
-- that closes the scope, on a new bus with a handler on it or above it: the handlers get the first
-- ones as they are, one warning, and the closing event with the number of the others, which are
-- dropped and counted, if these are no more than the largest safe number. The budget ends at its
-- limit.
pub emit_all-overrun :
    (h : List ℕ) (ps : List EventBus) (seen lost : List ℕ) (n : ℕ) (c : Option ℕ) (limit spent : ℕ)
    → has_handlers (bus_of h 0 false ∷ ps) ≡ true
    → limit ≡ spent + length seen
    → suc (length lost) ≤ max_safe_integer
    → emit_all
        (bus_of h 0 false)
        ps
        (map plain seen ++ (plain n ∷ map plain lost ++ closed c ∷ []))
        (some (state_of limit spent))
      ≡ record {
        bus = bus_of h (suc (length lost)) true;
        budget = some (state_of limit limit);
        handled = dispatch_all (bus_of h 0 false ∷ ps) (
            map plain seen
            ++ (budget_exceeded limit limit
                ∷ closed (some (max (count_or_zero c) (suc (length lost))))
                ∷ []));
      }
unfolding emit_all
emit_all-overrun h ps [] lost n c limit spent k e m = rw (
  same,
  emit-warned h ps n limit limit k (omega arith),
  emit_all-dropped h 1 (suc (length lost)) ps lost c limit limit k (omega arith) (omega arith) m,
  append-nil (
      dispatch (bus_of h 0 false ∷ ps) (closed (some (max (count_or_zero c) (suc (length lost)))))),
)
  where
    same : spent ≡ limit
    same = omega arith
emit_all-overrun h ps (x ∷ xs) lost n c limit spent k e m = rw (
  emit-paid h 0 false ps (plain x) limit spent k (omega arith),
  emit_all-overrun h ps xs lost n c limit (suc spent) k (omega arith) m,
)

-- One more event is paid for within the limit or counted as dropped, on a bus with the same handlers.
emit-counted :
    (h : List ℕ) (d : ℕ) (w : Bool) (ps : List EventBus) (n limit spent : ℕ)
    → has_handlers (bus_of h d w ∷ ps) ≡ true
    → spent ≤ limit
    → d < max_safe_integer
    → let out = emit (bus_of h d w) ps (plain n) (some (state_of limit spent)) in
      (d' : ℕ) × (w' : Bool) × (spent' : ℕ) × (out.bus ≡ bus_of h d' w')
      × (out.budget ≡ some (state_of limit spent'))
      × (spent ≤ spent')
      × (spent' ≤ limit)
      × (spent' + d' ≡ suc (spent + d))
unfolding emit budgeted overrun drop
emit-counted h d w ps n limit spent k le lt = elim (Bool-cases (ltb spent limit)) [
  | inl e ↦ (d, w, suc spent, ground arith, ground arith, omega arith, ground arith, omega arith)
  | inr e ↦ (suc d, true, spent, ground arith, ground arith, omega arith, omega arith, omega arith)
]

-- The first of several events, seen from the bus and the budget that it leaves.
emit_all-cons :
    (bus next : EventBus) (ps : List EventBus) (e : TaskEvent) (es : List TaskEvent)
    (b left : Option BudgetState)
    → (emit bus ps e b).bus ≡ next
    → (emit bus ps e b).budget ≡ left
    → ((emit_all bus ps (e ∷ es) b).budget ≡ (emit_all next ps es left).budget)
      × ((emit_all bus ps (e ∷ es) b).bus.dropped_count
          ≡ (emit_all next ps es left).bus.dropped_count)
unfolding emit_all
emit_all-cons bus next ps e es b left f g = (rw (f, g), rw (f, g))

-- In the context of a telemetry budget that is not overspent, on a bus with a handler on it or above
-- it: every plain event, one that is not `scope:closed`, is paid for within the limit or counted as
-- dropped, as long as the count stays within the largest safe number.
pub emit_all-counted :
    (h : List ℕ) (d : ℕ) (w : Bool) (ps : List EventBus) (ns : List ℕ) (limit spent : ℕ)
    → has_handlers (bus_of h d w ∷ ps) ≡ true
    → spent ≤ limit
    → d + length ns ≤ max_safe_integer
    → let out = emit_all (bus_of h d w) ps (map plain ns) (some (state_of limit spent)) in
      (b : BudgetState) × (out.budget ≡ some b)
      × (b.limit ≡ limit)
      × (b.spent ≤ limit)
      × (b.spent + out.bus.dropped_count ≡ spent + d + length ns)
unfolding emit_all
emit_all-counted h d w ps [] limit spent k le m =
    (state_of limit spent, refl, refl, le, omega arith)
emit_all-counted h d w ps (n ∷ ns) limit spent k le m =
    let (d', w', spent', same_bus, same_budget, grows, le', paid) =
      emit-counted h d w ps n limit spent k le (omega arith) in
    let (b, e, same_limit, within, total) =
      emit_all-counted h d' w' ps ns limit spent' k le' (omega arith) in
    let (budget, dropped) =
      emit_all-cons (bus_of h d w) (bus_of h d' w') ps (plain n) (map plain ns)
        (some (state_of limit spent)) (some (state_of limit spent')) same_bus same_budget in
    (b, budget ∙ e, same_limit, within, omega (arith, dropped, total, paid))
