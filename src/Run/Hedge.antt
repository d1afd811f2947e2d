-- ===== src/Run/Hedge.antt =====
-- `hedge` of packages/core/src/run/index.ts, as a machine that its timers, its attempts and the abort of
-- its context drive. `V` is the type of the values, `X` that of the errors and `R` that of the
-- reasons of an abort.
pub mod Invariant
pub mod Settled
use workit.Prelude.{
  ℕ, zero, suc, ◌+◌, ◌-◌, ◌*◌, max, Bool, true, false, Option, none, some, List, [], ◌∷◌, ◌++◌,
  ◌==◌, if◌then◌else◌,
}
use workit.Run.Pool.{mem, remove}

pub data Outcome (V X R : Type 0) : Type 0 where
  resolved : V → Outcome V X R
  all_failed : List X → Outcome V X R
  aborted : R → Outcome V X R

-- `running` holds the attempts that have not settled, `timers` those that wait for their delay, and
-- `controllers` counts the attempts that have started. `aborts` tells whether these are aborted.
pub record Hedge (V X R : Type 0) : Type 0 where
  pub controllers : ℕ
  pub running : List ℕ
  pub timers : List (ℕ × ℕ)
  pub errors : List X
  pub completed : ℕ
  pub aborts : Bool
  pub outcome : Option (Outcome V X R)

pub data HedgeEvent (V X R : Type 0) : Type 0 where
  timer : ℕ → HedgeEvent V X R
  fulfilled : ℕ → V → HedgeEvent V X R
  rejected : ℕ → X → HedgeEvent V X R
  abort : R → HedgeEvent V X R

abbrev pub has_timer : ℕ → List (ℕ × ℕ) → Bool
has_timer k [] = false
has_timer k ((j, delay) ∷ ts) = if j == k then true else has_timer k ts

abbrev pub remove_timer : ℕ → List (ℕ × ℕ) → List (ℕ × ℕ)
remove_timer k [] = []
remove_timer k ((j, delay) ∷ ts) = if j == k then ts else (j, delay) ∷ remove_timer k ts

module _ {V X R : Type 0} where
  -- `settle`, with whether `finish` aborts the attempts and how it ends the promise.
  unfoldable pub settle : Bool → Outcome V X R → Hedge V X R → Hedge V X R
  settle abort_all o h = elim h.outcome [
    | some d ↦ h
    | none ↦ record h { timers = []; aborts = abort_all; outcome = some o }
  ]

  unfoldable pub start : ℕ → Hedge V X R → Hedge V X R
  start attempt h = elim h.outcome [
    | some d ↦ h
    | none ↦ record h { controllers = h.controllers + 1; running = attempt ∷ h.running }
  ]

  -- The loop over the attempts, from the given one, with the rounds that are left.
  unfoldable pub launch : ℕ → ℕ → ℕ → Hedge V X R → Hedge V X R
  unfolding start
  launch after zero attempt h = h
  launch after (suc rounds) attempt h = launch after rounds (attempt + 1) (
      if (attempt - 1) * after == 0
      then start attempt h
      else record h { timers = h.timers ++ (attempt, (attempt - 1) * after) ∷ [] })

  abbrev pub idle : Hedge V X R
  idle = record {
    controllers = 0;
    running = [];
    timers = [];
    errors = [];
    completed = 0;
    aborts = false;
    outcome = none;
  }

  -- The start of a hedge, with the reason of the context's signal if it is aborted.
  unfoldable pub hedge : ℕ → ℕ → Option R → Hedge V X R
  unfolding launch
  hedge max_attempts after (some r) = record idle { outcome = some (aborted r) }
  hedge max_attempts after none = launch after (max 1 max_attempts) 1 idle

  unfoldable pub reject_attempt : ℕ → X → Hedge V X R → Hedge V X R
  unfolding settle
  reject_attempt total e h = elim h.outcome [
    | some d ↦ h
    | none ↦
        if h.completed + 1 == total
        then settle false (all_failed (h.errors ++ e ∷ []))
            (record h { errors = h.errors ++ e ∷ []; completed = h.completed + 1 })
        else record h { errors = h.errors ++ e ∷ []; completed = h.completed + 1 }
  ]

  -- One event, with `max(1, opts.max)`. A timer that is not set and an attempt that does not run have
  -- no event.
  unfoldable pub on_event : ℕ → HedgeEvent V X R → Hedge V X R → Hedge V X R
  unfolding settle start reject_attempt
  on_event total (timer k) h =
      if has_timer k h.timers then start k (record h { timers = remove_timer k h.timers }) else h
  on_event total (fulfilled k v) h =
      if mem k h.running
      then settle true (resolved v) (record h { running = remove k h.running })
      else h
  on_event total (rejected k e) h =
      if mem k h.running
      then reject_attempt total e (record h { running = remove k h.running })
      else h
  on_event total (abort r) h = settle true (aborted r) h

  unfoldable pub on_events : ℕ → List (HedgeEvent V X R) → Hedge V X R → Hedge V X R
  unfolding on_event
  on_events total [] h = h
  on_events total (e ∷ es) h = on_events total es (on_event total e h)
