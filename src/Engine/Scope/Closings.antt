-- ===== src/Engine/Scope/Closings.antt =====
-- The closing events of a scope (packages/core/src/engine/scope.ts), and the ends of bodies.
use workit.Prelude.{
  ℕ, ◌+◌, ◌≤◌, ◌≡◌, refl, ap, Bool, true, false, Option, none, some, List, [], ◌∷◌, ◌++◌, arith,
  Result, ok, err, if-elim, option-elim,
}
use workit.Run.Thrown.{Thrown}
use workit.Engine.Scope.{
  ScopeState, TaskStatus, CancelReason, ClosingReason, CleanupEnd, timed_out, threw, ScopeEvent,
  scope_opened, scope_closed, scope_closing, task_started, task_terminal, task_cleanup_timeout,
  task_cleanup_failed, scope_cleanup_timeout, scope_cleanup_failed, TaskRecord, Closing, open_scope,
  draining, cleaning, finished, Scope, SpawnOpts, ScopeError, is_running, has_ended, emit,
  close_event, task_of, note_failure, ended, end_status, start, reuse_or_start, handle_of, admit,
  assert_bounded_string, cleaned, pop_task, settle, max_task_name_length,
  max_idempotency_key_length, task_name, idempotency_key_length, classify_closing_reason,
}

abbrev pub closings : List ScopeEvent → ℕ
closings [] = 0
closings (scope_opened ∷ l) = closings l
closings (scope_closed ∷ l) = closings l
closings (scope_closing r ∷ l) = 1 + closings l
closings (task_started i ∷ l) = closings l
closings (task_terminal i t ∷ l) = closings l
closings (task_cleanup_timeout i ∷ l) = closings l
closings (task_cleanup_failed i ∷ l) = closings l
closings (scope_cleanup_timeout ∷ l) = closings l
closings (scope_cleanup_failed ∷ l) = closings l

abbrev pub closeds : List ScopeEvent → ℕ
closeds [] = 0
closeds (scope_opened ∷ l) = closeds l
closeds (scope_closed ∷ l) = 1 + closeds l
closeds (scope_closing r ∷ l) = closeds l
closeds (task_started i ∷ l) = closeds l
closeds (task_terminal i t ∷ l) = closeds l
closeds (task_cleanup_timeout i ∷ l) = closeds l
closeds (task_cleanup_failed i ∷ l) = closeds l
closeds (scope_cleanup_timeout ∷ l) = closeds l
closeds (scope_cleanup_failed ∷ l) = closeds l

pub closings-append : (k l : List ScopeEvent) → closings (k ++ l) ≡ closings k + closings l
closings-append [] l = omega arith
closings-append (scope_opened ∷ k) l = closings-append k l
closings-append (scope_closed ∷ k) l = closings-append k l
closings-append (scope_closing r ∷ k) l = omega (arith, closings-append k l)
closings-append (task_started i ∷ k) l = closings-append k l
closings-append (task_terminal i t ∷ k) l = closings-append k l
closings-append (task_cleanup_timeout i ∷ k) l = closings-append k l
closings-append (task_cleanup_failed i ∷ k) l = closings-append k l
closings-append (scope_cleanup_timeout ∷ k) l = closings-append k l
closings-append (scope_cleanup_failed ∷ k) l = closings-append k l

pub closeds-append : (k l : List ScopeEvent) → closeds (k ++ l) ≡ closeds k + closeds l
closeds-append [] l = omega arith
closeds-append (scope_opened ∷ k) l = closeds-append k l
closeds-append (scope_closed ∷ k) l = omega (arith, closeds-append k l)
closeds-append (scope_closing r ∷ k) l = closeds-append k l
closeds-append (task_started i ∷ k) l = closeds-append k l
closeds-append (task_terminal i t ∷ k) l = closeds-append k l
closeds-append (task_cleanup_timeout i ∷ k) l = closeds-append k l
closeds-append (task_cleanup_failed i ∷ k) l = closeds-append k l
closeds-append (scope_cleanup_timeout ∷ k) l = closeds-append k l
closeds-append (scope_cleanup_failed ∷ k) l = closeds-append k l

-- The closed events that no closing event comes before.
abbrev pub early : List ScopeEvent → ℕ
early [] = 0
early (scope_opened ∷ l) = early l
early (scope_closed ∷ l) = 1 + early l
early (scope_closing r ∷ l) = 0
early (task_started i ∷ l) = early l
early (task_terminal i t ∷ l) = early l
early (task_cleanup_timeout i ∷ l) = early l
early (task_cleanup_failed i ∷ l) = early l
early (scope_cleanup_timeout ∷ l) = early l
early (scope_cleanup_failed ∷ l) = early l

pub early-le : (l : List ScopeEvent) → early l ≤ closeds l
early-le [] = omega arith
early-le (scope_opened ∷ l) = early-le l
early-le (scope_closed ∷ l) = omega (arith, early-le l)
early-le (scope_closing r ∷ l) = omega arith
early-le (task_started i ∷ l) = early-le l
early-le (task_terminal i t ∷ l) = early-le l
early-le (task_cleanup_timeout i ∷ l) = early-le l
early-le (task_cleanup_failed i ∷ l) = early-le l
early-le (scope_cleanup_timeout ∷ l) = early-le l
early-le (scope_cleanup_failed ∷ l) = early-le l

pub early-append : (k l : List ScopeEvent) → early (k ++ l) ≤ early k + early l
early-append [] l = omega arith
early-append (scope_opened ∷ k) l = early-append k l
early-append (scope_closed ∷ k) l = omega (arith, early-append k l)
early-append (scope_closing r ∷ k) l = omega arith
early-append (task_started i ∷ k) l = early-append k l
early-append (task_terminal i t ∷ k) l = early-append k l
early-append (task_cleanup_timeout i ∷ k) l = early-append k l
early-append (task_cleanup_failed i ∷ k) l = early-append k l
early-append (scope_cleanup_timeout ∷ k) l = early-append k l
early-append (scope_cleanup_failed ∷ k) l = early-append k l

pub early-append_told : (k l : List ScopeEvent) → 1 ≤ closings k → early (k ++ l) ≡ early k
early-append_told [] l h = absurd (omega arith)
early-append_told (scope_opened ∷ k) l h = early-append_told k l h
early-append_told (scope_closed ∷ k) l h = omega (arith, early-append_told k l h)
early-append_told (scope_closing r ∷ k) l h = refl
early-append_told (task_started i ∷ k) l h = early-append_told k l h
early-append_told (task_terminal i t ∷ k) l h = early-append_told k l h
early-append_told (task_cleanup_timeout i ∷ k) l h = early-append_told k l h
early-append_told (task_cleanup_failed i ∷ k) l h = early-append_told k l h
early-append_told (scope_cleanup_timeout ∷ k) l h = early-append_told k l h
early-append_told (scope_cleanup_failed ∷ k) l h = early-append_told k l h

abbrev pub bit : Bool → ℕ
bit true = 1
bit false = 0

abbrev pub is_finished : Closing → Bool
is_finished open_scope = false
is_finished (draining t c) = false
is_finished cleaning = false
is_finished finished = true

-- While a scope runs it has told nobody that it closes, and has no reason and no failure; when it does
-- not run it has, once. It is closed when and only when its `close` has ended, and says so once, after it told that it closes.
pub record Sound {X : Type 0} (state : ScopeState) (failure : Option (Thrown X))
    (reason : Option CancelReason) (emitted : Bool) (closing : Closing) (events : List ScopeEvent)
    : Type 0 where
  pub closing_once : closings events ≡ bit emitted
  pub closed_once : closeds events ≡ bit (is_finished closing)
  pub ordered : early events ≡ 0
  pub silent : is_running state ≡ true → (emitted ≡ false) × (reason ≡ none) × (failure ≡ none)
  pub told : is_running state ≡ false → emitted ≡ true
  pub shut :
      (is_finished closing ≡ true → state ≡ ScopeState.closed)
      × (state ≡ ScopeState.closed → is_finished closing ≡ true)

abbrev pub IsSound : {X : Type 0} → Scope X → Type 0
IsSound s = Sound s.state s.first_child_failure s.abort_reason s.closing_emitted s.closing s.events

module _ {X : Type 0} where
  -- An event that is neither of the two.
  pub emit-IsSound :
      (e : ScopeEvent) (s : Scope X)
      → closings (e ∷ []) ≡ 0
      → closeds (e ∷ []) ≡ 0
      → IsSound s
      → IsSound (emit e s)
  unfolding emit
  emit-IsSound e s a b v = record {
    closing_once = omega (arith, closings-append s.events (e ∷ []), v.closing_once);
    closed_once = omega (arith, closeds-append s.events (e ∷ []), v.closed_once);
    ordered = omega (arith, early-append s.events (e ∷ []), early-le (e ∷ []), v.ordered);
    silent = v.silent;
    told = v.told;
    shut = v.shut;
  }

  -- A scope that starts to cancel has told nobody before.
  close_event-IsSound :
      (c : ClosingReason) (r : CancelReason) (f : Option (Thrown X)) (s : Scope X)
      → is_running s.state ≡ true
      → IsSound s
      → IsSound (
          close_event c (record s {
            state = ScopeState.cancelling;
            abort_reason = some r;
            first_child_failure = f;
          }))
  unfolding close_event emit
  close_event-IsSound c r f s h v =
      let (quiet, x, y) = v.silent h in
      rw (quiet, close_event)
        (record {
          closing_once = omega (
            arith,
            closings-append s.events (scope_closing c ∷ []),
            v.closing_once,
            ap bit quiet,
          );
          closed_once =
              omega (arith, closeds-append s.events (scope_closing c ∷ []), v.closed_once);
          ordered = omega (arith, early-append s.events (scope_closing c ∷ []), v.ordered);
          silent = λ k. absurd cc;
          told = λ k. refl;
          shut = (
            λ k. let z : is_running s.state ≡ false = ap is_running (v.shut.0 k) in absurd cc,
            λ k. absurd cc,
          );
        })

  pub cancel-IsSound :
      (r : CancelReason) (s : Scope X) → IsSound s → IsSound (workit.Engine.Scope.cancel r s)
  unfolding workit.Engine.Scope.cancel
  cancel-IsSound r s v =
      if-elim IsSound (is_running s.state) _ s
        (λ h. close_event-IsSound _ r s.first_child_failure s h v) (λ h. v)

  fail-IsSound :
      (e : Thrown X) (s : Scope X)
      → IsSound s
      → IsSound (
          workit.Engine.Scope.cancel CancelReason.sibling_failed
            (record s { first_child_failure = some e }))
  unfolding workit.Engine.Scope.cancel
  fail-IsSound e s v =
      if-elim IsSound (is_running s.state) _ _
        (λ h. close_event-IsSound _ CancelReason.sibling_failed (some e) s h v)
        (λ h. record {
          closing_once = v.closing_once;
          closed_once = v.closed_once;
          ordered = v.ordered;
          silent = λ k. absurd cc;
          told = v.told;
          shut = v.shut;
        })

  note_failure-IsSound :
      (t : TaskRecord) (e : Thrown X) (s : Scope X) → IsSound s → IsSound (note_failure t e s)
  unfolding note_failure
  note_failure-IsSound t e s v =
      if-elim IsSound t.background s _ (λ b. v)
        (λ b. option-elim IsSound s.first_child_failure _ _ (fail-IsSound e s v) (λ f k. v))

  ended-IsSound :
      (t : TaskRecord) (r : Result (Thrown X) (Unit {0})) (s : Scope X)
      → IsSound s
      → IsSound (ended t r s)
  unfolding ended
  ended-IsSound t (ok u) s v = v
  ended-IsSound t (err e) s v =
      elim (end_status {X = X} (err e))
        as (λ x. IsSound (elim x [ TaskStatus.failed ↦ note_failure t e s | _ ↦ s ])) [
          | TaskStatus.failed ↦ note_failure-IsSound t e s v
          | _ ↦ v
        ]

  pub body_ends-IsSound :
      (i : ℕ) (r : Result (Thrown X) (Unit {0})) (s : Scope X)
      → IsSound s
      → IsSound (workit.Engine.Scope.body_ends i r s)
  unfolding workit.Engine.Scope.body_ends
  body_ends-IsSound i r s v =
      option-elim IsSound (task_of i s.tasks) s _ v
        (λ t k. if-elim IsSound (has_ended t.status) s _ (λ b. v) (λ b. ended-IsSound t r _ v))
