-- ===== src/Engine/Scope/Outlived.antt =====
-- Work that a scope does not wait for (packages/core/src/engine/scope.ts, `close`).
use workit.Prelude.{
  ℕ, zero, suc, ◌≡◌, refl, ap, subst, ◌∙◌, sym, true, false, ◌&&◌, none, List, [], ◌∷◌, ◌++◌, map,
  length, if◌then◌else◌, if-elim, All, ok,
}
use workit.Engine.Scope.{
  ScopeState, TaskRecord, draining, cleaning, Scope, SpawnOpts, CleanupEnd, has_ended, emit,
  close_event, spawn, start, reuse_or_start, handle_of,
}
use workit.Engine.Scope.Close.{
  next_round, drain, clean, finish, emit_cleanup, pop_or_finish, all_done, drop_ended,
  retained_tasks, is_empty, ids_of,
}
use workit.Engine.Scope.Spawned.{spawn-ok}
use workit.Engine.Scope.Calls.{Call, step, run}
use workit.Engine.Scope.Drain.{HasEnded}

-- `n` cleanups that complete, and the end of `close`.
abbrev pub clean_all : {X : Type 0} → ℕ → List (Call X)
clean_all zero = Call.clean CleanupEnd.completed ∷ []
clean_all (suc n) = Call.clean CleanupEnd.completed ∷ clean_all n

last-unended :
    (ts : List TaskRecord) (t : TaskRecord)
    → has_ended t.status ≡ false
    → ¬ All HasEnded (ts ++ t ∷ [])
last-unended [] t h a = let z = a.0 in cc
last-unended (u ∷ ts) t h a = last-unended ts t h a.1

drop_ended-settled :
    (ts : List TaskRecord) → map (λ t. t.settled) (drop_ended ts) ≡ map (λ t. t.settled) ts
unfolding drop_ended
drop_ended-settled [] = refl
drop_ended-settled (t ∷ ts) =
    if-elim (λ (l : List TaskRecord). map (λ u. u.settled) l ≡ map (λ u. u.settled) (t ∷ ts))
      (has_ended t.status) _ _ (λ b. ap (◌∷◌ t.settled) (drop_ended-settled ts))
      (λ b. ap (◌∷◌ t.settled) (drop_ended-settled ts))

drop_ended-empty : (ts : List TaskRecord) → All HasEnded ts → retained_tasks (drop_ended ts) ≡ []
unfolding drop_ended retained_tasks
drop_ended-empty [] a = refl
drop_ended-empty (t ∷ ts) a = rw (a.0, drop_ended) (drop_ended-empty ts a.1)

no_more :
    {ts : List TaskRecord} {cs : List ℕ} → ts ≡ [] → cs ≡ [] → (is_empty ts && is_empty cs) ≡ true
unfolding is_empty
no_more h k = rw h (rw k refl)

module _ {X : Type 0} where
  clean-pops :
      (s : Scope X) (l : List ℕ)
      → s.closing ≡ cleaning
      → s.defers ≡ l
      → clean CleanupEnd.completed s ≡ pop_or_finish CleanupEnd.completed l s
  unfolding clean
  clean-pops s l h k =
      ap (λ c. elim c [ cleaning ↦ pop_or_finish CleanupEnd.completed s.defers s | _ ↦ s ]) h
      ∙ ap (λ d. pop_or_finish CleanupEnd.completed d s) k

  finish-tasks : (s : Scope X) → (finish s).tasks ≡ s.tasks
  unfolding finish close_event emit
  finish-tasks s =
      if-elim (λ (t : Scope X). t.tasks ≡ s.tasks) s.closing_emitted _ _ (λ b. refl) (λ b. refl)

  clean_all-ends :
      (l : List ℕ) (s : Scope X)
      → s.closing ≡ cleaning
      → s.defers ≡ l
      → ((run (clean_all (length l)) s).state ≡ ScopeState.closed)
        × ((run (clean_all (length l)) s).tasks ≡ s.tasks)
  unfolding run step pop_or_finish emit_cleanup finish emit
  clean_all-ends [] s h k = (
    ap (λ t. t.state) (clean-pops s [] h k),
    ap (λ t. t.tasks) (clean-pops s [] h k) ∙ finish-tasks s,
  )
  clean_all-ends (c ∷ l) s h k =
      let e = clean-pops s (c ∷ l) h k in
      let (a, b) = clean_all-ends l (record s { defers = l }) h refl in
      (
        ap (λ t. (run (clean_all (length l)) t).state) e ∙ a,
        ap (λ t. (run (clean_all (length l)) t).tasks) e ∙ b,
      )

  drain-starts :
      (tasks scopes : List ℕ) (s : Scope X)
      → s.closing ≡ draining tasks scopes
      → all_done tasks scopes s ≡ true
      → All HasEnded s.tasks
      → s.child_scopes ≡ []
      → drain s ≡ (record s { tasks = drop_ended s.tasks; closing = cleaning })
  unfolding drain next_round is_empty
  drain-starts tasks scopes s h d a c =
      ap
        (λ q. elim q [
          | draining ts cs ↦
              if all_done ts cs s then next_round (record s { tasks = drop_ended s.tasks }) else s
          | _ ↦ s
        ])
        h
      ∙ ap (λ b. if b then next_round (record s { tasks = drop_ended s.tasks }) else s) d
      ∙ ap
          (λ b.
            if b then record s { tasks = drop_ended s.tasks; closing = cleaning } else record s {
              tasks = drop_ended s.tasks;
              closing = draining (ids_of (retained_tasks (drop_ended s.tasks))) s.child_scopes;
            })
          (no_more (drop_ended-empty s.tasks a) c)

  -- A task that is spawned while the cleanups of a scope run, which a scope that is not cancelled
  -- allows, is not waited for: when the cleanups have run, the scope is closed and the body of the
  -- task still runs.
  pub spawned_in_cleanup-outlives :
      (o : SpawnOpts) (s t : Scope X) (i : ℕ)
      → s.closing ≡ cleaning
      → o.idempotency_key ≡ none
      → spawn o s ≡ ok (i, t)
      → ((run (clean_all (length s.defers)) t).state ≡ ScopeState.closed)
        × ¬ All HasEnded (run (clean_all (length s.defers)) t).tasks
  unfolding start emit reuse_or_start handle_of
  spawned_in_cleanup-outlives o s t i h k e =
      let same : reuse_or_start none o s ≡ (i, t) =
        ap (λ q. reuse_or_start (handle_of q s.idempotency_handles) o s) (sym k)
        ∙ (spawn-ok o s (i, t) e).1 in
      subst
        (λ (x : ℕ × Scope X).
          ((run (clean_all (length s.defers)) x.1).state ≡ ScopeState.closed)
          × ¬ All HasEnded (run (clean_all (length s.defers)) x.1).tasks)
        same
        (let (a, b) = clean_all-ends s.defers (start o s).1 h refl in
          (a, λ z. last-unended s.tasks _ refl (subst (All HasEnded) b z)))

  -- A task that was spawned while `close` waited for others, whose body has ended and whose cleanups
  -- have not, is not waited for: when the promises of the round have settled, all bodies have ended and
  -- no child scope is left, the scope runs its cleanups and is closed, and no promise of a task has
  -- settled meanwhile.
  pub unsettled-outlives :
      (tasks scopes : List ℕ) (s : Scope X)
      → s.closing ≡ draining tasks scopes
      → all_done tasks scopes s ≡ true
      → All HasEnded s.tasks
      → s.child_scopes ≡ []
      → ((run (Call.drain ∷ clean_all (length s.defers)) s).state ≡ ScopeState.closed)
        × (map (λ t. t.settled) (run (Call.drain ∷ clean_all (length s.defers)) s).tasks
            ≡ map (λ t. t.settled) s.tasks)
  unfolding run step
  unsettled-outlives tasks scopes s h d a c =
      let e = drain-starts tasks scopes s h d a c in
      let (x, y) =
        clean_all-ends s.defers (record s { tasks = drop_ended s.tasks; closing = cleaning }) refl
          refl in
      (
        ap (λ t. (run (clean_all (length s.defers)) t).state) e ∙ x,
        ap (λ t. map (λ u. u.settled) (run (clean_all (length s.defers)) t).tasks) e
            ∙ ap (map (λ u. u.settled)) y
            ∙ drop_ended-settled s.tasks,
      )
