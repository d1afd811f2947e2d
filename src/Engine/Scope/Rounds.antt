-- ===== src/Engine/Scope/Rounds.antt =====
-- The rounds of `close` (packages/core/src/engine/scope.ts).
use workit.Prelude.{
  ℕ, ◌≡◌, refl, ◌⊎◌, inl, inr, ◌∙◌, sym, Bool, true, false, ◌&&◌, List, [], ◌∷◌, if◌then◌else◌,
  if-elim, All,
}
use workit.Engine.Scope.{
  open_scope, draining, cleaning, Scope, CleanupEnd, timed_out, threw, emit, close_event,
}
use workit.Engine.Scope.Close.{
  next_round, close, drain, clean, finish, emit_cleanup, pop_or_finish, all_done, drop_ended,
}
use workit.Engine.Scope.Calls.{Call, step, run, opened}
use workit.Engine.Scope.Drain.{
  IsKept, HasEnded, Same, drop_ended-IsKept, empty-HasEnded, cancel-Same, body_ends-Same,
  task_cleanup-Same, task_settles-Same, task_defer-Same, defer-Same, spawn-Same,
}

both-true : (a b : Bool) → (a && b) ≡ true → a ≡ true
both-true true b h = refl
both-true false b h = absurd cc

module _ {X : Type 0} (s : Scope X) where
  -- A section that starts the cleanups does so when all bodies have ended.
  abbrev Next : Scope X → Type 0
  Next t =
      All IsKept t.tasks × (t.closing ≡ cleaning → (s.closing ≡ cleaning) ⊎ All HasEnded t.tasks)

  Same-Next : (t : Scope X) → Same s t → Next t
  Same-Next t h = (h.0, λ e. inl (sym h.1 ∙ e))

  next_round-Next : (t : Scope X) → All IsKept t.tasks → Next (next_round t)
  unfolding next_round
  next_round-Next t a =
      if-elim Next _ _ _ (λ b. (a, λ e. inr (empty-HasEnded t.tasks a (both-true _ _ b))))
        (λ b. (a, λ e. absurd cc))

  close-Next : All IsKept s.tasks → Next (close s)
  unfolding close
  close-Next a = elim s.closing as (λ c. Next (elim c [ open_scope ↦ next_round s | _ ↦ s ])) [
    | open_scope ↦ next_round-Next s a
    | _ ↦ (a, λ e. inl e)
  ]

  drain-Next : All IsKept s.tasks → Next (drain s)
  unfolding drain
  drain-Next a =
      elim s.closing
        as (λ c. Next (elim c [
          | draining tasks scopes ↦
              if all_done tasks scopes s
              then next_round (record s { tasks = drop_ended s.tasks })
              else s
          | _ ↦ s
        ])) [
          | draining t c ↦
              if-elim Next (all_done t c s) _ _
                (λ b.
                  next_round-Next (record s { tasks = drop_ended s.tasks })
                    (drop_ended-IsKept s.tasks a))
                (λ b. (a, λ e. inl e))
          | _ ↦ (a, λ e. inl e)
        ]

  popped-IsKept :
      (e : CleanupEnd) (l : List ℕ) → All IsKept s.tasks → All IsKept (pop_or_finish e l s).tasks
  unfolding pop_or_finish emit_cleanup finish close_event emit
  popped-IsKept e [] a =
      if-elim (λ (t : Scope X). All IsKept t.tasks) s.closing_emitted _ _ (λ b. a) (λ b. a)
  popped-IsKept CleanupEnd.completed (c ∷ l) a = a
  popped-IsKept timed_out (c ∷ l) a = a
  popped-IsKept threw (c ∷ l) a = a

  clean-Next : (e : CleanupEnd) → All IsKept s.tasks → Next (clean e s)
  unfolding clean
  clean-Next e a =
      elim s.closing
          as (λ c.
            s.closing ≡ c → Next (elim c [ cleaning ↦ pop_or_finish e s.defers s | _ ↦ s ])) [
              | cleaning ↦ λ k. (popped-IsKept e s.defers a, λ x. inl k)
              | _ ↦ λ k. (a, λ x. inl x)
            ]
        refl

  step-Next : (c : Call X) → All IsKept s.tasks → Next (step c s)
  unfolding step
  step-Next (Call.spawn o) a = Same-Next (step (Call.spawn o) s) (spawn-Same s o a)
  step-Next (Call.body_ends i r) a =
      Same-Next (step (Call.body_ends i r) s) (body_ends-Same s i r a)
  step-Next (Call.task_defer i c) a =
      Same-Next (step (Call.task_defer i c) s) (task_defer-Same s i c a)
  step-Next (Call.task_cleanup i e) a =
      Same-Next (step (Call.task_cleanup i e) s) (task_cleanup-Same s i e a)
  step-Next (Call.task_settles i) a =
      Same-Next (step (Call.task_settles i) s) (task_settles-Same s i a)
  step-Next (Call.cancel r) a = Same-Next (step (Call.cancel r) s) (cancel-Same s r s (a, refl))
  step-Next (Call.defer c) a = Same-Next (step (Call.defer c) s) (defer-Same s c a)
  step-Next (Call.open_child i) a = (a, λ e. inl e)
  step-Next (Call.close_child i) a = (a, λ e. inl e)
  step-Next Call.close a = close-Next a
  step-Next Call.drain a = drain-Next a
  step-Next (Call.clean e) a = clean-Next e a

run-IsKept :
    {X : Type 0} (cs : List (Call X)) (s : Scope X)
    → All IsKept s.tasks
    → All IsKept (run cs s).tasks
unfolding run
run-IsKept [] s a = a
run-IsKept (c ∷ cs) s a = run-IsKept cs (step c s) (step-Next s c a).0

-- Whatever was called on a scope before: a task leaves the scope's map only after its body has ended,
-- and a call that makes the scope go on to its cleanups does so when the bodies of all tasks of the
-- scope have ended.
pub run-waits :
    {X : Type 0} (cs : List (Call X)) (c : Call X)
    → All IsKept (run cs (opened X)).tasks
      × ((step c (run cs (opened X))).closing ≡ cleaning
          → ((run cs (opened X)).closing ≡ cleaning)
            ⊎ All HasEnded (step c (run cs (opened X))).tasks)
run-waits {X = X} cs c =
    let kept = run-IsKept cs (opened X) tt in (kept, (step-Next (run cs (opened X)) c kept).1)
