-- ===== src/Run/Pool/Invariant.antt =====
-- What holds of a pool between two settlements (packages/core/src/run/index.ts).
use workit.Prelude.{
  ℕ, zero, suc, ◌+◌, ◌≤◌, ◌<◌, min, ◌≡◌, refl, ap, sym, subst, ◌∙◌, inl, inr, Bool, true, Option,
  none, some, List, [], ◌∷◌, length, get_elem?, ltb, ltb→lt, not_ltb→le, Result, ok, err, arith,
  Bool-cases, ℕ_discrete,
}
use workit.Run.Pool.{
  Pool, PoolError, of_task, cannot_spawn, PoolEvent, settled, cancelled, mem, first_error,
  on_pool_event, remove, set_result, no_results, take_task, start_workers, pool, settle_task,
  settle_tasks,
}
use workit.Run.Pool.Results.{
  length-remove, mem-remove, taken_one, mem-remove_le, get_elem?-set_result,
  get_elem?-set_result_other, length-set_result, length-no_results, first_error-some,
}

-- The tasks settle as `outcome` says.
abbrev pub Follows : {V X : Type 0} → (ℕ → Result X V) → List (PoolEvent V X) → Type 0
Follows outcome [] = Unit
Follows outcome (settled i r ∷ events) = (r ≡ outcome i) × Follows outcome events
Follows outcome (cancelled ∷ events) = Follows outcome events

module _ {V X : Type 0} (outcome : ℕ → Result X V) (concurrency n : ℕ) where
  -- What stands at the place `j` of the results: the task's value, or nothing while the task runs,
  -- is not taken yet, or the pool has failed.
  pub data Slot (p : Pool V X) (j : ℕ) : Type 0 where
    filled : (v : V) → outcome j ≡ ok v → get_elem? p.results j ≡ some (some v) → Slot p j
    running : mem j p.busy ≡ true → Slot p j
    waiting : p.next ≤ j → Slot p j
    lost : (e : PoolError X) → p.error ≡ some e → Slot p j

  pub record IsPool (p : Pool V X) : Type 0 where
    pub counted : p.next ≤ n
    pub narrow : length p.busy ≤ concurrency
    pub sized : length p.results ≡ n
    pub working : p.next < n → p.error ≡ none → 0 < length p.busy
    pub taken : (j : ℕ) → mem j p.busy ≡ true → j < p.next
    pub slots : (j : ℕ) → j < n → Slot p j
    pub blamed : (e : X) → p.error ≡ some (of_task e) → (j : ℕ) × (j < n) × (outcome j ≡ err e)
    pub refused : p.error ≡ some cannot_spawn → p.cancelling ≡ true

  -- What holds before a worker takes its next task.
  pub record IsFree (p : Pool V X) : Type 0 where
    pub counted : p.next ≤ n
    pub narrow : length p.busy < concurrency
    pub sized : length p.results ≡ n
    pub taken : (j : ℕ) → mem j p.busy ≡ true → j < p.next
    pub slots : (j : ℕ) → j < n → Slot p j
    pub blamed : (e : X) → p.error ≡ some (of_task e) → (j : ℕ) × (j < n) × (outcome j ≡ err e)
    pub refused : p.error ≡ some cannot_spawn → p.cancelling ≡ true

  Slot-take :
      (p q : Pool V X) (j : ℕ)
      → q.results ≡ p.results
      → q.error ≡ p.error
      → q.next ≡ p.next + 1
      → q.busy ≡ p.next ∷ p.busy
      → Slot p j
      → Slot q j
  Slot-take p q j r f s b (filled v o g) = filled v o (ground arith)
  Slot-take p q j r f s b (running h) = running (ground arith)
  Slot-take p q j r f s b (waiting h) = elim (ℕ_discrete p.next j) [
    | yes e ↦ running (ground arith)
    | no ne ↦ waiting (omega arith)
  ]
  Slot-take p q j r f s b (lost e h) = lost e (f ∙ h)

  -- A refused spawn blames no task.
  refused_blame :
      (o : Option (PoolError X)) (x : X)
      → ((e : X) → o ≡ some (of_task e) → (j : ℕ) × (j < n) × (outcome j ≡ err e))
      → first_error o cannot_spawn ≡ some (of_task x)
      → (j : ℕ) × (j < n) × (outcome j ≡ err x)
  refused_blame none x old g = absurd cc
  refused_blame (some e) x old g = old x g

  failed_blame :
      (o : Option (PoolError X)) (e x : X)
      → ((c : X) → o ≡ some (of_task c) → (j : ℕ) × (j < n) × (outcome j ≡ err c))
      → (j : ℕ) × (j < n) × (outcome j ≡ err e)
      → first_error o (of_task e) ≡ some (of_task x)
      → (j : ℕ) × (j < n) × (outcome j ≡ err x)
  failed_blame none e x old new g =
      let (j, lt, at) = new in let same : e ≡ x = cc in (j, lt, at ∙ ap err same)
  failed_blame (some c) e x old new g = old x g

  failed_refused :
      (o : Option (PoolError X)) (e : X) (b : Bool)
      → (o ≡ some cannot_spawn → b ≡ true)
      → first_error o (of_task e) ≡ some cannot_spawn
      → b ≡ true
  failed_refused none e b old g = absurd cc
  failed_refused (some c) e b old g = old g

  take_task-IsPool : (p : Pool V X) → IsFree p → IsPool (take_task n p)
  unfolding take_task
  take_task-IsPool p h = elim (Bool-cases (ltb p.next n)) [
    | inr e ↦
        let le = not_ltb→le p.next n e in
        rw e (record {
          counted = h.counted;
          narrow = omega arith;
          sized = h.sized;
          working = λ lt f. absurd (omega arith);
          taken = h.taken;
          slots = h.slots;
          blamed = h.blamed;
          refused = h.refused;
        })
    | inl e ↦ elim (Bool-cases p.cancelling) [
      | inr c ↦
          rw (e, c)
            (record {
              counted = let lt = ltb→lt p.next n e in omega arith;
              narrow = omega arith;
              sized = h.sized;
              working = λ lt g. omega arith;
              taken = λ j m. taken_one p.next p.busy j h.taken m;
              slots = λ j lt. Slot-take p _ j refl refl refl refl (h.slots j lt);
              blamed = h.blamed;
              refused = λ g. sym c ∙ h.refused g;
            })
      | inl c ↦
          rw (e, c)
            (record {
              counted = let lt = ltb→lt p.next n e in omega arith;
              narrow = omega arith;
              sized = h.sized;
              working = λ lt g.
                  let (d, at) = first_error-some p.error cannot_spawn in absurd (ground arith);
              taken = λ j m. let lt = h.taken j m in omega arith;
              slots = λ j lt. let (d, at) = first_error-some p.error cannot_spawn in lost d at;
              blamed = λ x g. refused_blame p.error x h.blamed g;
              refused = λ g. refl;
            })
    ]
  ]

  Slot-ok :
      (p q : Pool V X) (i j : ℕ) (v : V)
      → outcome i ≡ ok v
      → length p.results ≡ n
      → j < n
      → q.results ≡ set_result i v p.results
      → q.error ≡ p.error
      → q.next ≡ p.next
      → q.busy ≡ remove i p.busy
      → Slot p j
      → Slot q j
  Slot-ok p q i j v o len lt r f s b slot = elim (ℕ_discrete i j) [
    | yes e ↦ filled v (ap outcome (sym e) ∙ o) (ground (arith, get_elem?-set_result i v p.results))
    | no ne ↦
        keep_slot (get_elem?-set_result_other i j v p.results ne) (mem-remove i j p.busy ne) slot
  ]
    where
      keep_slot :
          get_elem? (set_result i v p.results) j ≡ get_elem? p.results j
          → mem j (remove i p.busy) ≡ mem j p.busy
          → Slot p j
          → Slot q j
      keep_slot g m (filled w at h) = filled w at (ground arith)
      keep_slot g m (running h) = running (ground arith)
      keep_slot g m (waiting h) = waiting (ground arith)
      keep_slot g m (lost e h) = lost e (ground arith)

  below : (i : ℕ) (p : Pool V X) → mem i p.busy ≡ true → IsPool p → i < n
  below i p m h = let lt = h.taken i m in let le = h.counted in omega arith

  settle_task-IsPool :
      (i : ℕ) (r : Result X V) (p : Pool V X)
      → r ≡ outcome i
      → IsPool p
      → IsPool (settle_task n i r p)
  unfolding settle_task
  settle_task-IsPool i (ok v) p o h = elim (Bool-cases (mem i p.busy)) [
    | inr e ↦ rw e h
    | inl e ↦ rw e (
        take_task-IsPool (record p { busy = remove i p.busy; results = set_result i v p.results })
          (record {
            counted = h.counted;
            narrow = let s = length-remove i p.busy e in let w = h.narrow in omega arith;
            sized = length-set_result i v p.results ∙ h.sized;
            taken = λ j m. h.taken j (mem-remove_le i j p.busy m);
            slots = λ j lt. Slot-ok p _ i j v (sym o) h.sized lt refl refl refl refl (h.slots j lt);
            blamed = h.blamed;
            refused = h.refused;
          }))
  ]
  settle_task-IsPool i (err e) p o h = elim (Bool-cases (mem i p.busy)) [
    | inr f ↦ rw f h
    | inl f ↦ rw f (record {
      counted = h.counted;
      narrow = let s = length-remove i p.busy f in let w = h.narrow in omega arith;
      sized = h.sized;
      working = λ lt g. let (d, at) = first_error-some p.error (of_task e) in absurd (ground arith);
      taken = λ j m. h.taken j (mem-remove_le i j p.busy m);
      slots = λ j lt. let (d, at) = first_error-some p.error (of_task e) in lost d at;
      blamed = λ x g. failed_blame p.error e x h.blamed (i, below i p f h, sym o) g;
      refused = λ g. failed_refused p.error e p.cancelling h.refused g;
    })
  ]

  length-take_task : (p : Pool V X) → length (take_task n p).busy ≤ length p.busy + 1
  unfolding take_task
  length-take_task p = ground arith

  start_workers-IsPool :
      (k : ℕ) (p : Pool V X)
      → IsPool p
      → length p.busy + k ≤ concurrency
      → IsPool (start_workers n k p)
  unfolding start_workers
  start_workers-IsPool zero p h le = h
  start_workers-IsPool (suc k) p h le =
      start_workers-IsPool k (take_task n p)
        (take_task-IsPool p (record {
          counted = h.counted;
          narrow = omega arith;
          sized = h.sized;
          taken = h.taken;
          slots = h.slots;
          blamed = h.blamed;
          refused = h.refused;
        }))
        (let one = length-take_task p in omega arith)

  Slot-cancelled : (p : Pool V X) (j : ℕ) → Slot p j → Slot (record p { cancelling = true }) j
  Slot-cancelled p j (filled v o g) = filled v o g
  Slot-cancelled p j (running h) = running h
  Slot-cancelled p j (waiting h) = waiting h
  Slot-cancelled p j (lost e h) = lost e h

  cancelled-IsPool : (p : Pool V X) → IsPool p → IsPool (record p { cancelling = true })
  cancelled-IsPool p h = record {
    counted = h.counted;
    narrow = h.narrow;
    sized = h.sized;
    working = h.working;
    taken = h.taken;
    slots = λ j lt. Slot-cancelled p j (h.slots j lt);
    blamed = h.blamed;
    refused = λ g. refl;
  }

  pub settle_tasks-IsPool :
      (events : List (PoolEvent V X)) (p : Pool V X)
      → Follows outcome events
      → IsPool p
      → IsPool (settle_tasks n events p)
  unfolding settle_tasks on_pool_event
  settle_tasks-IsPool [] p f h = h
  settle_tasks-IsPool (settled i r ∷ events) p (at, f) h =
      settle_tasks-IsPool events (settle_task n i r p) f (settle_task-IsPool i r p at h)
  settle_tasks-IsPool (cancelled ∷ events) p f h =
      settle_tasks-IsPool events (record p { cancelling = true }) f (cancelled-IsPool p h)

  initial : Bool → Pool V X
  initial c = record { next = 0; busy = []; results = no_results n; error = none; cancelling = c }

  initial-IsFree : (c : Bool) → 0 < concurrency → IsFree (initial c)
  unfolding initial
  initial-IsFree c lt = record {
    counted = omega arith;
    narrow = lt;
    sized = length-no_results V n;
    taken = λ j m. ground arith;
    slots = λ j le. waiting (omega arith);
    blamed = λ e f. absurd cc;
    refused = λ f. absurd cc;
  }

  start-IsPool :
      (c : Bool) (k : ℕ)
      → 0 < concurrency
      → k ≡ min concurrency n
      → IsPool (start_workers n k (initial c))
  unfolding start_workers initial
  start-IsPool c zero pos e = record {
    counted = omega arith;
    narrow = omega arith;
    sized = length-no_results V n;
    working = λ lt g. absurd (omega arith);
    taken = λ j m. ground arith;
    slots = λ j le. waiting (omega arith);
    blamed = λ e f. absurd cc;
    refused = λ f. absurd cc;
  }
  start-IsPool c (suc k) pos e =
      start_workers-IsPool k (take_task n (initial c))
        (take_task-IsPool (initial c) (initial-IsFree c pos))
        (let one = length-take_task (initial c) in omega arith)

  pub pool-IsPool : (c : Bool) (p : Pool V X) → pool c concurrency n ≡ ok p → IsPool p
  unfolding pool initial
  pool-IsPool c p h = elim (Bool-cases (ltb concurrency 1)) [
    | inl e ↦ absurd (ground arith)
    | inr e ↦
        subst IsPool (ground arith)
          (start-IsPool c (min concurrency n) (not_ltb→le concurrency 1 e) refl)
  ]
