-- ===== src/Run/Pool.antt =====
-- `pool` and `cancelLosers` of packages/core/src/run/index.ts. A task is its place in the input, `V` is
-- the type of the results and `X` that of the errors. A pool's state stands between two events: `busy`
-- holds the tasks that the workers wait for, and `cancelling` says that the scope of the pool's group
-- takes no more tasks. The scope starts to cancel when the body of a task fails, which is before that
-- task has settled, or from outside, so that it is an event of its own and can come at any time.
pub mod Results
pub mod Invariant
pub mod Order
use workit.Prelude.{
  ℕ, zero, suc, ◌+◌, min, Bool, true, false, Option, none, some, List, [], ◌∷◌, ltb, ◌==◌,
  if◌then◌else◌, Result, ok, err,
}
use workit.Engine.Errors.{RangeError, pool_size}

-- What a worker rejects with: the error of its task, or that of a spawn on a scope that does not run.
pub data PoolError (X : Type 0) : Type 0 where
  of_task : X → PoolError X
  cannot_spawn : PoolError X

pub record Pool (V X : Type 0) : Type 0 where
  pub next : ℕ
  pub busy : List ℕ
  pub results : List (Option V)
  pub error : Option (PoolError X)
  pub cancelling : Bool

-- A task's promise settles, or the scope of the group starts to cancel.
pub data PoolEvent (V X : Type 0) : Type 0 where
  settled : ℕ → Result X V → PoolEvent V X
  cancelled : PoolEvent V X

abbrev pub mem : ℕ → List ℕ → Bool
mem i [] = false
mem i (j ∷ js) = if j == i then true else mem i js

-- One occurrence less.
abbrev pub remove : ℕ → List ℕ → List ℕ
remove i [] = []
remove i (j ∷ js) = if j == i then js else j ∷ remove i js

abbrev pub set_result : {V : Type 0} → ℕ → V → List (Option V) → List (Option V)
set_result i v [] = []
set_result zero v (r ∷ rs) = some v ∷ rs
set_result (suc i) v (r ∷ rs) = r ∷ set_result i v rs

abbrev pub no_results : {V : Type 0} → ℕ → List (Option V)
no_results zero = []
no_results (suc n) = none ∷ no_results n

abbrev pub first_error : {X : Type 0} → Option X → X → Option X
first_error none e = some e
first_error (some d) e = some d

module _ {V X : Type 0} where
  -- One round of a worker's loop up to its `await`: the spawn throws on a scope that is cancelling.
  unfoldable pub take_task : ℕ → Pool V X → Pool V X
  take_task n p =
      if ltb p.next n
      then if p.cancelling
        then record p { next = p.next + 1; error = first_error p.error cannot_spawn }
        else record p { next = p.next + 1; busy = p.next ∷ p.busy }
      else p

  -- `Array.from({ length: … }, () => worker())`.
  unfoldable pub start_workers : ℕ → ℕ → Pool V X → Pool V X
  unfolding take_task
  start_workers n zero p = p
  start_workers n (suc k) p = start_workers n k (take_task n p)

  -- The pool's state when its workers have started, in a scope that may be cancelling already.
  unfoldable pub pool : Bool → ℕ → ℕ → Result RangeError (Pool V X)
  unfolding start_workers
  pool cancelling concurrency n =
      if ltb concurrency 1
      then err pool_size
      else ok (
          start_workers n (min concurrency n) (record {
            next = 0;
            busy = [];
            results = no_results n;
            error = none;
            cancelling = cancelling;
          }))

  -- A worker's task settles: the worker stores the value and goes on, or ends with the error, and the
  -- first error is the pool's.
  unfoldable pub settle_task : ℕ → ℕ → Result X V → Pool V X → Pool V X
  unfolding take_task
  settle_task n i (ok v) p =
      if mem i p.busy
      then take_task n (record p { busy = remove i p.busy; results = set_result i v p.results })
      else p
  settle_task n i (err e) p =
      if mem i p.busy
      then record p { busy = remove i p.busy; error = first_error p.error (of_task e) }
      else p

  unfoldable pub on_pool_event : ℕ → PoolEvent V X → Pool V X → Pool V X
  unfolding settle_task
  on_pool_event n (settled i r) p = settle_task n i r p
  on_pool_event n cancelled p = record p { cancelling = true }

  -- The events in their order.
  unfoldable pub settle_tasks : ℕ → List (PoolEvent V X) → Pool V X → Pool V X
  unfolding on_pool_event
  settle_tasks n [] p = p
  settle_tasks n (e ∷ events) p = settle_tasks n events (on_pool_event n e p)
