-- ===== src/Engine/Scope/Close.antt =====
-- packages/core/src/engine/scope.ts: `close`, in sections between its `await`s.
use workit.Prelude.{
  ℕ, Bool, true, false, not, ◌&&◌, ◌||◌, none, some, List, [], ◌∷◌, keep, ◌==◌, all, if◌then◌else◌,
}
use workit.Engine.Scope.{
  ScopeState, ClosingReason, errored, CleanupEnd, timed_out, threw, scope_closed,
  scope_cleanup_timeout, scope_cleanup_failed, TaskRecord, open_scope, draining, cleaning, finished,
  Scope, has_ended, task_of, emit, close_event,
}

abbrev pub ids_of : List TaskRecord → List ℕ
ids_of [] = []
ids_of (t ∷ ts) = t.id ∷ ids_of ts

-- The tasks of the scope's map.
unfoldable pub retained_tasks : List TaskRecord → List TaskRecord
retained_tasks ts = keep (λ t. t.retained) ts

abbrev member : ℕ → List ℕ → Bool
member i [] = false
member i (j ∷ js) = j == i || member i js

is_settled : List TaskRecord → ℕ → Bool
is_settled ts i = elim (task_of i ts) [ none ↦ true | some t ↦ t.settled ]

-- The records whose task has ended leave the map, whether or not their promise has settled.
unfoldable pub drop_ended : List TaskRecord → List TaskRecord
drop_ended [] = []
drop_ended (t ∷ ts) =
    let rest = drop_ended ts in
    if has_ended t.status then record t { retained = false } ∷ rest else t ∷ rest

unfoldable pub is_empty {ℓ} : {A : Type ℓ} → List A → Bool
is_empty [] = true
is_empty (x ∷ xs) = false

module _ {X : Type 0} where
  -- `Promise.all` of the promises that a round of `close` waits for.
  unfoldable pub all_done : List ℕ → List ℕ → Scope X → Bool
  unfolding is_settled
  all_done tasks scopes s =
      all (is_settled s.tasks) tasks && all (λ c. not (member c s.child_scopes)) scopes

  -- The condition of the loop of `close`, and the promises of its next round.
  unfoldable pub next_round : Scope X → Scope X
  unfolding retained_tasks is_empty
  next_round s =
      if is_empty (retained_tasks s.tasks) && is_empty s.child_scopes
      then record s { closing = cleaning }
      else record s { closing = draining (ids_of (retained_tasks s.tasks)) s.child_scopes }

  -- `close` is called once, by the group that opened the scope.
  unfoldable pub close : Scope X → Scope X
  unfolding next_round
  close s = elim s.closing [ open_scope ↦ next_round s | _ ↦ s ]

  unfoldable pub drain : Scope X → Scope X
  unfolding all_done next_round drop_ended
  drain s = elim s.closing [
    | draining tasks scopes ↦
        if all_done tasks scopes s then next_round (record s { tasks = drop_ended s.tasks }) else s
    | _ ↦ s
  ]

  unfoldable pub emit_cleanup : CleanupEnd → Scope X → Scope X
  unfolding emit
  emit_cleanup CleanupEnd.completed s = s
  emit_cleanup timed_out s = emit scope_cleanup_timeout s
  emit_cleanup threw s = emit scope_cleanup_failed s

  unfoldable pub ending : Scope X → ClosingReason
  ending s = elim s.first_child_failure [ none ↦ ClosingReason.completed | some e ↦ errored ]

  -- The end of `close`.
  unfoldable pub finish : Scope X → Scope X
  unfolding close_event emit ending
  finish s =
      let t = close_event (ending s) s in
      emit scope_closed (record t { state = ScopeState.closed; closing = finished })

  -- The next cleanup of the scope, which ends in the way given, or the end of `close`.
  unfoldable pub pop_or_finish : CleanupEnd → List ℕ → Scope X → Scope X
  unfolding emit_cleanup finish
  pop_or_finish e [] s = finish s
  pop_or_finish e (c ∷ rest) s = emit_cleanup e (record s { defers = rest })

  unfoldable pub clean : CleanupEnd → Scope X → Scope X
  unfolding pop_or_finish
  clean e s = elim s.closing [ cleaning ↦ pop_or_finish e s.defers s | _ ↦ s ]
