-- ===== src/Engine/Scope/Drain.antt =====
-- What `close` waits for (packages/core/src/engine/scope.ts): no task whose body runs leaves the scope's
-- map, and the cleanups start when the map is empty.
use workit.Prelude.{
  ℕ, ◌≡◌, refl, subst, true, false, not, ◌&&◌, Option, none, some, List, [], ◌∷◌, ◌++◌, Result, ok,
  err, if-elim, option-elim, ltb, ◌==◌, length, All,
}
use workit.Run.Thrown.{Thrown}
use workit.Engine.Scope.{
  ScopeState, TaskStatus, CancelReason, ClosingReason, CleanupEnd, timed_out, threw, TaskRecord,
  Closing, open_scope, draining, cleaning, finished, Scope, SpawnOpts, ScopeError, is_running,
  has_ended, update, emit, close_event, task_of, note_failure, ended, end_status, start,
  reuse_or_start, handle_of, admit, assert_bounded_string, cleaned, pop_task, settle,
  max_task_name_length, max_idempotency_key_length, task_name, idempotency_key_length,
}
use workit.Engine.Scope.Spawned.{spawn-ok}
use workit.Engine.Scope.Close.{drop_ended, retained_tasks, is_empty}
use workit.Engine.Scope.Calls.{value_or, value_or-kept}

-- A task out of the map is one whose body has ended.
abbrev pub IsKept : TaskRecord → Type 0
IsKept t = t.retained ≡ false → has_ended t.status ≡ true

abbrev pub HasEnded : TaskRecord → Type 0
HasEnded t = has_ended t.status ≡ true

All-append : {A : Type 0} (P : A → Type 0) (xs ys : List A) → All P xs → All P ys → All P (xs ++ ys)
All-append P [] ys h k = k
All-append P (x ∷ xs) ys h k = (h.0, All-append P xs ys h.1 k)

update-All :
    (P : TaskRecord → Type 0) (i : ℕ) (f : TaskRecord → TaskRecord) (ts : List TaskRecord)
    → ((t : TaskRecord) → P t → P (f t))
    → All P ts
    → All P (update i f ts)
unfolding update
update-All P i f [] h a = tt
update-All P i f (t ∷ ts) h a =
    if-elim (All P) (t.id == i) _ _ (λ e. (h t a.0, update-All P i f ts h a.1))
      (λ e. (a.0, update-All P i f ts h a.1))

pub drop_ended-IsKept : (ts : List TaskRecord) → All IsKept ts → All IsKept (drop_ended ts)
unfolding drop_ended
drop_ended-IsKept [] a = tt
drop_ended-IsKept (t ∷ ts) a =
    if-elim (All IsKept) (has_ended t.status) _ _ (λ e. ((λ k. e), drop_ended-IsKept ts a.1))
      (λ e. (a.0, drop_ended-IsKept ts a.1))

end_status-ended : {X : Type 0} (r : Result (Thrown X) (Unit {0})) → has_ended (end_status r) ≡ true
unfolding end_status
end_status-ended (ok v) = refl
end_status-ended (err (Thrown.failure x)) = refl
end_status-ended (err (Thrown.range_error x)) = refl
end_status-ended (err Thrown.budget_not_set) = refl
end_status-ended (err Thrown.type_error) = refl
end_status-ended (err Thrown.cancellation) = refl
end_status-ended (err Thrown.timeout_error) = refl
end_status-ended (err Thrown.budget_exceeded) = refl

-- When the map is empty, every body has ended.
pub empty-HasEnded :
    (ts : List TaskRecord) → All IsKept ts → is_empty (retained_tasks ts) ≡ true → All HasEnded ts
unfolding retained_tasks is_empty
empty-HasEnded [] a h = tt
empty-HasEnded (t ∷ ts) a h =
    elim t.retained
        as (λ b.
          t.retained ≡ b
          → is_empty (elim b [ true ↦ t ∷ retained_tasks ts | false ↦ retained_tasks ts ]) ≡ true
          → All HasEnded (t ∷ ts)) [
            | true ↦ λ e k. absurd cc
            | false ↦ λ e k. (a.0 e, empty-HasEnded ts a.1 k)
          ]
      refl h

module _ {X : Type 0} (s : Scope X) where
  -- `t` comes from `s` by a section that is none of `close`'s rounds.
  abbrev pub Same : Scope X → Type 0
  Same t = All IsKept t.tasks × (t.closing ≡ s.closing)

  pub cancel-Same :
      (r : CancelReason) (t : Scope X) → Same t → Same (workit.Engine.Scope.cancel r t)
  unfolding workit.Engine.Scope.cancel close_event emit
  cancel-Same r t h =
      if-elim Same (is_running t.state) _ t
        (λ b. if-elim Same t.closing_emitted _ _ (λ e. h) (λ e. h)) (λ b. h)

  ended-Same :
      (u : TaskRecord) (r : Result (Thrown X) (Unit {0})) (t : Scope X)
      → Same t
      → Same (ended u r t)
  unfolding ended note_failure
  ended-Same u (ok v) t h = h
  ended-Same u (err e) t h =
      elim (end_status {X = X} (err e))
        as (λ x. Same (elim x [ TaskStatus.failed ↦ note_failure u e t | _ ↦ t ])) [
          | TaskStatus.failed ↦
              if-elim Same u.background t _ (λ b. h)
                (λ b. option-elim Same t.first_child_failure _ _ (cancel-Same _ _ h) (λ f k. h))
          | _ ↦ h
        ]

  pub body_ends-Same :
      (i : ℕ) (r : Result (Thrown X) (Unit {0}))
      → All IsKept s.tasks
      → Same (workit.Engine.Scope.body_ends i r s)
  unfolding workit.Engine.Scope.body_ends
  body_ends-Same i r a =
      option-elim Same (task_of i s.tasks) s _ (a, refl)
        (λ t k.
          if-elim Same (has_ended t.status) s _ (λ b. (a, refl))
            (λ b.
              ended-Same t r _
                (update-All IsKept i _ s.tasks (λ u h k. end_status-ended r) a, refl)))

  cleaned-Same : (i : ℕ) (e : CleanupEnd) (t : Scope X) → Same t → Same (cleaned i e t)
  unfolding cleaned emit
  cleaned-Same i CleanupEnd.completed t h = h
  cleaned-Same i timed_out t h = h
  cleaned-Same i threw t h = h

  pop_task-Same :
      (t : TaskRecord) (e : CleanupEnd) (l : List ℕ) → All IsKept s.tasks → Same (pop_task t e l s)
  unfolding pop_task
  pop_task-Same t e [] a = (a, refl)
  pop_task-Same t e (c ∷ l) a =
      cleaned-Same t.id e _ (update-All IsKept t.id _ s.tasks (λ u h. h) a, refl)

  pub task_cleanup-Same :
      (i : ℕ) (e : CleanupEnd) → All IsKept s.tasks → Same (workit.Engine.Scope.task_cleanup i e s)
  unfolding workit.Engine.Scope.task_cleanup
  task_cleanup-Same i e a =
      option-elim Same (task_of i s.tasks) s _ (a, refl)
        (λ t k.
          if-elim Same (has_ended t.status && not t.settled) _ s (λ b. pop_task-Same t e t.defers a)
            (λ b. (a, refl)))

  settle-Same : (t : TaskRecord) (l : List ℕ) → All IsKept s.tasks → Same (settle t l s)
  unfolding settle emit
  settle-Same t [] a = (update-All IsKept t.id _ s.tasks (λ u h. h) a, refl)
  settle-Same t (c ∷ l) a = (a, refl)

  pub task_settles-Same : (i : ℕ) → All IsKept s.tasks → Same (workit.Engine.Scope.task_settles i s)
  unfolding workit.Engine.Scope.task_settles
  task_settles-Same i a =
      option-elim Same (task_of i s.tasks) s _ (a, refl)
        (λ t k.
          if-elim Same (has_ended t.status && not t.settled) _ s (λ b. settle-Same t t.defers a)
            (λ b. (a, refl)))

  abbrev pub SameResult : Result ScopeError (Scope X) → Type 0
  SameResult r = Same (value_or s (λ t. t) r)

  pub task_defer-Same :
      (i c : ℕ) → All IsKept s.tasks → SameResult (workit.Engine.Scope.task_defer i c s)
  unfolding workit.Engine.Scope.task_defer
  task_defer-Same i c a =
      option-elim SameResult (task_of i s.tasks) _ _ (a, refl)
        (λ t k.
          if-elim SameResult (ltb (length t.defers) _) _ _
            (λ b. (update-All IsKept i _ s.tasks (λ u h. h) a, refl)) (λ b. (a, refl)))

  pub defer-Same : (c : ℕ) → All IsKept s.tasks → SameResult (workit.Engine.Scope.defer c s)
  unfolding workit.Engine.Scope.defer
  defer-Same c a =
      if-elim SameResult (ltb (length s.defers) _) _ _ (λ b. (a, refl)) (λ b. (a, refl))

  reuse-Same : (o : Option ℕ) (p : SpawnOpts) → All IsKept s.tasks → Same (reuse_or_start o p s).1
  unfolding reuse_or_start start emit
  reuse-Same none p a = (All-append IsKept s.tasks _ a ((λ k. absurd cc), tt), refl)
  reuse-Same (some i) p a = (a, refl)

  pub spawn-Same :
      (o : SpawnOpts)
      → All IsKept s.tasks
      → Same (value_or {A = ℕ × Scope X} s (λ r. r.1) (workit.Engine.Scope.spawn o s))
  spawn-Same o a =
      value_or-kept Same {A = ℕ × Scope X} s (λ x. x.1) (workit.Engine.Scope.spawn o s) (a, refl)
        (λ x e. subst (λ y. Same y.1) (spawn-ok o s x e).1 (reuse-Same _ o a))
