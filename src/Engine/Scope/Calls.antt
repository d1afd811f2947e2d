-- ===== src/Engine/Scope/Calls.antt =====
-- packages/core/src/engine/scope.ts: the synchronous sections that run on a scope, in any order.
use workit.Prelude.{ℕ, not, List, [], ◌∷◌, keep, ◌==◌, none, false, Result, ok, err, ◌≡◌, refl}
use workit.Run.Thrown.{Thrown}
use workit.Engine.Scope.{
  ScopeState, CancelReason, CleanupEnd, scope_opened, open_scope, Scope, SpawnOpts, ScopeError,
}

-- One synchronous section. `spawn` is that of `scope.spawn` and of a group's spawner, a child scope
-- is added by its constructor and removed by its `close`.
pub data Call (X : Type 0) : Type 0 where
  spawn : SpawnOpts → Call X
  body_ends : ℕ → Result (Thrown X) (Unit {0}) → Call X
  task_defer : ℕ → ℕ → Call X
  task_cleanup : ℕ → CleanupEnd → Call X
  task_settles : ℕ → Call X
  cancel : CancelReason → Call X
  defer : ℕ → Call X
  open_child close_child : ℕ → Call X
  close drain : Call X
  clean : CleanupEnd → Call X

module _ {X : Type 0} where
  abbrev pub value_or : {A : Type 0} → Scope X → (A → Scope X) → Result ScopeError A → Scope X
  value_or s f (ok a) = f a
  value_or s f (err e) = s

  pub value_or-kept :
      (P : Scope X → Type 0) {A : Type 0} (s : Scope X) (f : A → Scope X) (r : Result ScopeError A)
      → P s
      → ((a : A) → r ≡ ok a → P (f a))
      → P (value_or s f r)
  value_or-kept P s f (ok a) p h = h a refl
  value_or-kept P s f (err e) p h = p

  -- A call that throws leaves the scope as it is.
  unfoldable pub step : Call X → Scope X → Scope X
  step (spawn o) s = value_or s (λ r. r.1) (workit.Engine.Scope.spawn o s)
  step (body_ends i r) s = workit.Engine.Scope.body_ends i r s
  step (task_defer i c) s = value_or s (λ t. t) (workit.Engine.Scope.task_defer i c s)
  step (task_cleanup i e) s = workit.Engine.Scope.task_cleanup i e s
  step (task_settles i) s = workit.Engine.Scope.task_settles i s
  step (cancel r) s = workit.Engine.Scope.cancel r s
  step (defer c) s = value_or s (λ t. t) (workit.Engine.Scope.defer c s)
  step (open_child i) s = record s { child_scopes = i ∷ s.child_scopes }
  step (close_child i) s = record s { child_scopes = keep (λ j. not (j == i)) s.child_scopes }
  step close s = workit.Engine.Scope.Close.close s
  step drain s = workit.Engine.Scope.Close.drain s
  step (clean e) s = workit.Engine.Scope.Close.clean e s

  unfoldable pub run : List (Call X) → Scope X → Scope X
  unfolding step
  run [] s = s
  run (c ∷ cs) s = run cs (step c s)

-- The constructor of `ScopeImpl`.
abbrev pub opened : (X : Type 0) → Scope X
opened X = record {
  state = ScopeState.running;
  tasks = [];
  child_scopes = [];
  idempotency_handles = [];
  defers = [];
  first_child_failure = none;
  abort_reason = none;
  closing_emitted = false;
  closing = open_scope;
  next_id = 1;
  events = scope_opened ∷ [];
}
