-- ===== src/Engine/Scope/Lifecycle.antt =====
-- The life of a scope (packages/core/src/engine/scope.ts): its states and its closing events.
use workit.Prelude.{
  ℕ, ◌≤◌, ◌↔◌, ◌≡◌, refl, ap, subst, ◌∙◌, sym, inl, inr, Bool, true, false, not, ◌&&◌, Option, none,
  some, List, [], ◌∷◌, ◌++◌, arith, Result, if◌then◌else◌, Bool-cases, if-elim, option-elim, ltb,
  length,
}
use workit.Engine.Scope.{
  ScopeState, TaskStatus, CancelReason, ClosingReason, CleanupEnd, timed_out, threw, ScopeEvent,
  scope_opened, scope_closed, scope_closing, task_started, task_terminal, task_cleanup_timeout,
  task_cleanup_failed, scope_cleanup_timeout, scope_cleanup_failed, TaskRecord, Closing, open_scope,
  draining, cleaning, finished, Scope, SpawnOpts, ScopeError, is_running, has_ended, emit,
  close_event, task_of, note_failure, ended, end_status, start, reuse_or_start, handle_of, admit,
  assert_bounded_string, cleaned, pop_task, settle, max_task_name_length,
  max_idempotency_key_length, task_name, idempotency_key_length, classify_closing_reason,
}
use workit.Engine.Scope.Spawned.{spawn-ok}
use workit.Engine.Scope.Close.{
  next_round, close, drain, clean, finish, emit_cleanup, pop_or_finish, all_done, drop_ended,
  ending,
}
use workit.Engine.Scope.Calls.{Call, step, run, opened, value_or, value_or-kept}
use workit.Engine.Scope.Closings.{
  closings, closings-append, closeds, closeds-append, early, early-append, early-append_told, bit,
  is_finished, IsSound, emit-IsSound, cancel-IsSound, body_ends-IsSound,
}

module _ {X : Type 0} where
  cleaned-IsSound : (i : ℕ) (e : CleanupEnd) (s : Scope X) → IsSound s → IsSound (cleaned i e s)
  unfolding cleaned
  cleaned-IsSound i CleanupEnd.completed s v = v
  cleaned-IsSound i timed_out s v = emit-IsSound (task_cleanup_timeout i) s refl refl v
  cleaned-IsSound i threw s v = emit-IsSound (task_cleanup_failed i) s refl refl v

  pop_task-IsSound :
      (t : TaskRecord) (e : CleanupEnd) (l : List ℕ) (s : Scope X)
      → IsSound s
      → IsSound (pop_task t e l s)
  unfolding pop_task
  pop_task-IsSound t e [] s v = v
  pop_task-IsSound t e (c ∷ l) s v = cleaned-IsSound t.id e _ v

  task_cleanup-IsSound :
      (i : ℕ) (e : CleanupEnd) (s : Scope X)
      → IsSound s
      → IsSound (workit.Engine.Scope.task_cleanup i e s)
  unfolding workit.Engine.Scope.task_cleanup
  task_cleanup-IsSound i e s v = option-elim IsSound (task_of i s.tasks) s _ v (λ t k.
      if-elim IsSound (has_ended t.status && not t.settled) _ s
        (λ b. pop_task-IsSound t e t.defers s v) (λ b. v))

  settle-IsSound : (t : TaskRecord) (l : List ℕ) (s : Scope X) → IsSound s → IsSound (settle t l s)
  unfolding settle
  settle-IsSound t [] s v = emit-IsSound (task_terminal t.id t.status) s refl refl v
  settle-IsSound t (c ∷ l) s v = v

  task_settles-IsSound :
      (i : ℕ) (s : Scope X) → IsSound s → IsSound (workit.Engine.Scope.task_settles i s)
  unfolding workit.Engine.Scope.task_settles
  task_settles-IsSound i s v = option-elim IsSound (task_of i s.tasks) s _ v (λ t k.
      if-elim IsSound (has_ended t.status && not t.settled) _ s (λ b. settle-IsSound t t.defers s v)
        (λ b. v))

  abbrev IsSoundResult : Scope X → Result ScopeError (Scope X) → Type 0
  IsSoundResult s r = IsSound (value_or s (λ t. t) r)

  task_defer-IsSound :
      (i c : ℕ) (s : Scope X) → IsSound s → IsSoundResult s (workit.Engine.Scope.task_defer i c s)
  unfolding workit.Engine.Scope.task_defer
  task_defer-IsSound i c s v =
      option-elim (IsSoundResult s) (task_of i s.tasks) _ _ v
        (λ t k. if-elim (IsSoundResult s) (ltb (length t.defers) _) _ _ (λ b. v) (λ b. v))

  defer-IsSound :
      (c : ℕ) (s : Scope X) → IsSound s → IsSoundResult s (workit.Engine.Scope.defer c s)
  unfolding workit.Engine.Scope.defer
  defer-IsSound c s v = if-elim (IsSoundResult s) (ltb (length s.defers) _) _ _ (λ b. v) (λ b. v)

  reuse-IsSound :
      (o : Option ℕ) (p : SpawnOpts) (s : Scope X) → IsSound s → IsSound (reuse_or_start o p s).1
  unfolding reuse_or_start start
  reuse-IsSound none p s v = emit-IsSound (task_started s.next_id) s refl refl v
  reuse-IsSound (some i) p s v = v

  spawn-IsSound :
      (o : SpawnOpts) (s : Scope X)
      → IsSound s
      → IsSound (value_or {A = ℕ × Scope X} s (λ r. r.1) (workit.Engine.Scope.spawn o s))
  spawn-IsSound o s v =
      value_or-kept IsSound {A = ℕ × Scope X} s (λ x. x.1) (workit.Engine.Scope.spawn o s) v
        (λ a e. subst (λ x. IsSound x.1) (spawn-ok o s a e).1 (reuse-IsSound _ o s v))

  next_round-IsSound :
      (s : Scope X) → IsSound s → is_finished s.closing ≡ false → IsSound (next_round s)
  unfolding next_round
  next_round-IsSound s v h = if-elim IsSound _ _ _ (λ b. moved cleaning refl) (λ b. moved _ refl)
    where
      moved : (c : Closing) → is_finished c ≡ false → IsSound (record s { closing = c })
      moved c k = record {
        closing_once = v.closing_once;
        closed_once = v.closed_once ∙ ap bit (h ∙ sym k);
        ordered = v.ordered;
        silent = v.silent;
        told = v.told;
        shut = (λ x. absurd cc, λ x. let z = v.shut.1 x in absurd cc);
      }

  close-IsSound : (s : Scope X) → IsSound s → IsSound (close s)
  unfolding close
  close-IsSound s v =
      elim s.closing
          as (λ c. s.closing ≡ c → IsSound (elim c [ open_scope ↦ next_round s | _ ↦ s ])) [
            | open_scope ↦ λ e. next_round-IsSound s v (ap is_finished e)
            | _ ↦ λ e. v
          ]
        refl

  drain-IsSound : (s : Scope X) → IsSound s → IsSound (drain s)
  unfolding drain
  drain-IsSound s v =
      elim s.closing
          as (λ c.
            s.closing ≡ c
            → IsSound (elim c [
              | draining tasks scopes ↦
                  if all_done tasks scopes s
                  then next_round (record s { tasks = drop_ended s.tasks })
                  else s
              | _ ↦ s
            ])) [
              | draining t c ↦ λ e.
                  if-elim IsSound (all_done t c s) _ _
                    (λ b.
                      next_round-IsSound (record s { tasks = drop_ended s.tasks }) v
                        (ap is_finished e))
                    (λ b. v)
              | _ ↦ λ e. v
            ]
        refl

  -- The closing event of the end, unless it was emitted before.
  finish-IsSound : (s : Scope X) → is_finished s.closing ≡ false → IsSound s → IsSound (finish s)
  unfolding finish close_event emit
  finish-IsSound s h v = elim (Bool-cases s.closing_emitted) [
    | inl e ↦
        rw (e, finish, close_event)
          (record {
            closing_once =
                omega
                  (arith, closings-append s.events (scope_closed ∷ []), v.closing_once, ap bit e);
            closed_once =
                omega (arith, closeds-append s.events (scope_closed ∷ []), v.closed_once, ap bit h);
            ordered =
                early-append_told s.events (scope_closed ∷ [])
                  (omega (arith, v.closing_once, ap bit e))
                ∙ v.ordered;
            silent = λ k. absurd cc;
            told = λ k. refl;
            shut = (λ k. refl, λ k. refl);
          })
    | inr e ↦
        rw (e, finish, close_event)
          (record {
            closing_once = omega (
              arith,
              closings-append (s.events ++ scope_closing (ending s) ∷ []) (scope_closed ∷ []),
              closings-append s.events (scope_closing (ending s) ∷ []),
              v.closing_once,
              ap bit e,
            );
            closed_once = omega (
              arith,
              closeds-append (s.events ++ scope_closing (ending s) ∷ []) (scope_closed ∷ []),
              closeds-append s.events (scope_closing (ending s) ∷ []),
              v.closed_once,
              ap bit h,
            );
            ordered =
                early-append_told (s.events ++ scope_closing (ending s) ∷ []) (scope_closed ∷ [])
                  (omega (arith, closings-append s.events (scope_closing (ending s) ∷ [])))
                ∙ omega (arith, early-append s.events (scope_closing (ending s) ∷ []), v.ordered);
            silent = λ k. absurd cc;
            told = λ k. refl;
            shut = (λ k. refl, λ k. refl);
          })
  ]

  emit_cleanup-IsSound : (e : CleanupEnd) (s : Scope X) → IsSound s → IsSound (emit_cleanup e s)
  unfolding emit_cleanup
  emit_cleanup-IsSound CleanupEnd.completed s v = v
  emit_cleanup-IsSound timed_out s v = emit-IsSound scope_cleanup_timeout s refl refl v
  emit_cleanup-IsSound threw s v = emit-IsSound scope_cleanup_failed s refl refl v

  pop_or_finish-IsSound :
      (e : CleanupEnd) (l : List ℕ) (s : Scope X)
      → is_finished s.closing ≡ false
      → IsSound s
      → IsSound (pop_or_finish e l s)
  unfolding pop_or_finish
  pop_or_finish-IsSound e [] s h v = finish-IsSound s h v
  pop_or_finish-IsSound e (c ∷ l) s h v = emit_cleanup-IsSound e (record s { defers = l }) v

  clean-IsSound : (e : CleanupEnd) (s : Scope X) → IsSound s → IsSound (clean e s)
  unfolding clean
  clean-IsSound e s v =
      elim s.closing
          as (λ c.
            s.closing ≡ c → IsSound (elim c [ cleaning ↦ pop_or_finish e s.defers s | _ ↦ s ])) [
              | cleaning ↦ λ k. pop_or_finish-IsSound e s.defers s (ap is_finished k) v
              | _ ↦ λ k. v
            ]
        refl

  step-IsSound : (c : Call X) (s : Scope X) → IsSound s → IsSound (step c s)
  unfolding step
  step-IsSound (Call.spawn o) s v = spawn-IsSound o s v
  step-IsSound (Call.body_ends i r) s v = body_ends-IsSound i r s v
  step-IsSound (Call.task_defer i c) s v = task_defer-IsSound i c s v
  step-IsSound (Call.task_cleanup i e) s v = task_cleanup-IsSound i e s v
  step-IsSound (Call.task_settles i) s v = task_settles-IsSound i s v
  step-IsSound (Call.cancel r) s v = cancel-IsSound r s v
  step-IsSound (Call.defer c) s v = defer-IsSound c s v
  step-IsSound (Call.open_child i) s v = v
  step-IsSound (Call.close_child i) s v = v
  step-IsSound Call.close s v = close-IsSound s v
  step-IsSound Call.drain s v = drain-IsSound s v
  step-IsSound (Call.clean e) s v = clean-IsSound e s v

  pub run-IsSound : (cs : List (Call X)) (s : Scope X) → IsSound s → IsSound (run cs s)
  unfolding run
  run-IsSound [] s v = v
  run-IsSound (c ∷ cs) s v = run-IsSound cs (step c s) (step-IsSound c s v)

bit-le : (b : Bool) → bit b ≤ 1
bit-le true = omega arith
bit-le false = omega arith

bit-one : (b : Bool) → bit b ≡ 1 → b ≡ true
bit-one true h = refl
bit-one false h = absurd (omega arith)

module _ {X : Type 0} (s : Scope X) (v : IsSound s) where
  finished-told : is_finished s.closing ≡ true → s.closing_emitted ≡ true
  finished-told h = v.told (ap is_running (v.shut.0 h))

  closed_after : (b : Bool) → is_finished s.closing ≡ b → closeds s.events ≤ closings s.events
  closed_after true h =
      omega (arith, v.closed_once, ap bit h, v.closing_once, ap bit (finished-told h))
  closed_after false h = omega (arith, v.closed_once, ap bit h)

-- Whatever is called on a scope, in whatever order: it emits its closing event at most once and its
-- closed event at most once, no closed event without the closing event and none before it; while it
-- runs it has emitted neither and has no cancellation reason and no child failure; and it is closed
-- when and only when the closed event was emitted.
pub run-opened-IsSound :
    {X : Type 0} (cs : List (Call X))
    → (closings (run cs (opened X)).events ≤ 1)
      × (closeds (run cs (opened X)).events ≤ closings (run cs (opened X)).events)
      × (early (run cs (opened X)).events ≡ 0)
      × (is_running (run cs (opened X)).state ≡ true
          → (closings (run cs (opened X)).events ≡ 0)
            × ((run cs (opened X)).abort_reason ≡ none)
            × ((run cs (opened X)).first_child_failure ≡ none))
      × (((run cs (opened X)).state ≡ ScopeState.closed) ↔ (closeds (run cs (opened X)).events ≡ 1))
run-opened-IsSound {X = X} cs =
    let v = run-IsSound cs (opened X) (record {
      closing_once = refl;
      closed_once = refl;
      ordered = refl;
      silent = λ h. (refl, refl, refl);
      told = λ h. absurd cc;
      shut = (λ h. absurd cc, λ h. absurd cc);
    }) in
    (
      omega (arith, v.closing_once, bit-le (run cs (opened X)).closing_emitted),
      closed_after (run cs (opened X)) v _ refl,
      v.ordered,
      (λ h. let (a, b, c) = v.silent h in (v.closing_once ∙ ap bit a, b, c)),
      (
        (λ h. v.closed_once ∙ ap bit (v.shut.1 h)),
        λ h. v.shut.0 (bit-one _ (sym v.closed_once ∙ h)),
      ),
    )
