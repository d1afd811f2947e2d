-- ===== src/Run/Pool/Order.antt =====
-- The bound and the order of a pool (packages/core/src/run/index.ts).
use workit.Prelude.{
  ℕ, ◌≤◌, ◌<◌, ◌≡◌, refl, ap, sym, ◌∙◌, inl, inr, Bool, Bool-cases, true, none, some, List, [], ◌∷◌,
  length, get_elem?, Result, ok, err, arith,
}
use workit.Run.Pool.{
  Pool, PoolEvent, of_task, cannot_spawn, settled, cancelled, mem, remove, set_result, take_task,
  pool, settle_task, on_pool_event, settle_tasks,
}
use workit.Run.Pool.Results.{mem-remove_le}
use workit.Run.Pool.Invariant.{
  Follows, Slot, IsPool, filled, running, waiting, lost, settle_tasks-IsPool, pool-IsPool,
}

module _ {V X : Type 0} (outcome : ℕ → Result X V) (concurrency n : ℕ) where
  slot_filled :
      (p : Pool V X) (j : ℕ)
      → IsPool outcome concurrency n p
      → j < n
      → p.busy ≡ []
      → p.error ≡ none
      → Slot outcome concurrency n p j
      → (v : V) × (outcome j ≡ ok v) × (get_elem? p.results j ≡ some (some v))
  slot_filled p j h lt b f (filled v o g) = (v, o, g)
  slot_filled p j h lt b f (running m) = absurd (ground arith)
  slot_filled p j h lt b f (waiting le) = absurd (omega (arith, h.working, ap length b))
  slot_filled p j h lt b f (lost e g) = absurd (ground arith)

  -- In a scope that is cancelling, a worker starts no task.
  take_task-cancelling :
      (p : Pool V X)
      → p.cancelling ≡ true
      → ((take_task n p).busy ≡ p.busy) × ((take_task n p).cancelling ≡ true)
  unfolding take_task
  take_task-cancelling p c = (ground arith, ground arith)

  settle_task-cancelling :
      (i : ℕ) (r : Result X V) (p : Pool V X) (j : ℕ)
      → p.cancelling ≡ true
      → (mem j (settle_task n i r p).busy ≡ true → mem j p.busy ≡ true)
        × ((settle_task n i r p).cancelling ≡ true)
  unfolding settle_task
  settle_task-cancelling i (ok v) p j c = elim (Bool-cases (mem i p.busy)) [
    | inl e ↦
        let (same, still) =
          take_task-cancelling
            (record p { busy = remove i p.busy; results = set_result i v p.results }) c in
        rw e ((λ m. mem-remove_le i j p.busy (ap (mem j) (sym same) ∙ m)), still)
    | inr e ↦ rw e ((λ m. m), c)
  ]
  settle_task-cancelling i (err e) p j c = elim (Bool-cases (mem i p.busy)) [
    | inl f ↦ rw f ((λ m. mem-remove_le i j p.busy m), c)
    | inr f ↦ rw f ((λ m. m), c)
  ]

  settle_tasks-cancelling :
      (events : List (PoolEvent V X)) (p : Pool V X) (j : ℕ)
      → p.cancelling ≡ true
      → mem j (settle_tasks n events p).busy ≡ true
      → mem j p.busy ≡ true
  unfolding settle_tasks on_pool_event
  settle_tasks-cancelling [] p j c m = m
  settle_tasks-cancelling (settled i r ∷ events) p j c m =
      let (back, still) = settle_task-cancelling i r p j c in
      back (settle_tasks-cancelling events (settle_task n i r p) j still m)
  settle_tasks-cancelling (cancelled ∷ events) p j c m =
      settle_tasks-cancelling events (record p { cancelling = true }) j refl m

  -- A pool never runs more tasks at once than its concurrency, whatever the order in which they settle
  -- and whenever its scope starts to cancel. The error it fails with is that of one of its tasks, or
  -- that of a spawn on its scope, and then the scope is cancelling. Once it is, no further task
  -- starts, whatever happens later. When no task runs and no worker has failed, every task has
  -- succeeded and its value stands at the task's place in the input.
  pub pool-settle_tasks :
      (cancelling : Bool) (p : Pool V X) (events : List (PoolEvent V X))
      → pool cancelling concurrency n ≡ ok p
      → Follows outcome events
      → (length (settle_tasks n events p).busy ≤ concurrency)
        × (length (settle_tasks n events p).results ≡ n)
        × ((e : X)
            → (settle_tasks n events p).error ≡ some (of_task e)
            → (j : ℕ) × (j < n) × (outcome j ≡ err e))
        × ((settle_tasks n events p).error ≡ some cannot_spawn
            → (settle_tasks n events p).cancelling ≡ true)
        × ((later : List (PoolEvent V X)) (j : ℕ)
            → (settle_tasks n events p).cancelling ≡ true
            → mem j (settle_tasks n later (settle_tasks n events p)).busy ≡ true
            → mem j (settle_tasks n events p).busy ≡ true)
        × ((settle_tasks n events p).busy ≡ []
            → (settle_tasks n events p).error ≡ none
            → (j : ℕ) → j < n
            → (v : V) × (outcome j ≡ ok v)
              × (get_elem? (settle_tasks n events p).results j ≡ some (some v)))
  pool-settle_tasks cancelling p events start f =
      let h =
        settle_tasks-IsPool outcome concurrency n events p f
          (pool-IsPool outcome concurrency n cancelling p start) in
      (
        h.narrow,
        h.sized,
        h.blamed,
        h.refused,
        (λ later j c m. settle_tasks-cancelling later (settle_tasks n events p) j c m),
        λ b g j lt. slot_filled (settle_tasks n events p) j h lt b g (h.slots j lt),
      )
