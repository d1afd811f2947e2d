-- ===== src/Snapshot/Diagnostics/Findings.antt =====
-- What a diagnostics report says of a snapshot (packages/core/src/diagnostics/index.ts).
use mathlib.Core.Logic.{◌↔◌}
use workit.Prelude.{
  ℕ, zero, suc, ◌-◌, ◌≡◌, refl, sym, ap, ◌∙◌, Bool, true, false, not, ◌&&◌, List, [], ◌∷◌, ◌++◌,
  length, take, append_assoc, append-nil, arith, ltb, if◌then◌else◌, Bool-cases, inl, inr, min,
}
use workit.Events.{TaskEvent, task_cleanup_timeout, scope_cleanup_timeout}
use workit.Snapshot.{
  TaskSnapshot, ScopeFields, ScopeSnapshot, scope_snapshot, Snapshots, no_more, child_and,
}
use workit.Snapshot.Diagnostics.{
  Finding, old_pending_task, pending_child_scope, scope_cancelling, cleanup_timeout_of_task,
  cleanup_timeout_of_scope, Summary, healthy, Options, Seen, get_or, add, is_pending, is_cancelling,
  is_closed, diagnose_task, diagnose_tasks, note_cancelling, note_child, visit, visit_all,
  note_timeout, note_events, total_findings, nothing_seen, diagnose_snapshot, default_max_findings,
  default_stale_task_ms,
}
use workit.Snapshot.Diagnostics.Codes.{
  of_task, of_tasks, of_scope, of_snapshot, of_children, of_events, by_code, codes_of, plus,
  by_code-append, by_code-length,
}

take-nil : {A : Type 0} (n : ℕ) → take {A = A} n [] ≡ []
take-nil zero = refl
take-nil (suc n) = refl

take-snoc :
    {A : Type 0} (n : ℕ) (xs : List A) (x : A)
    → take n (xs ++ x ∷ [])
      ≡ (if ltb (length (take n xs)) n then take n xs ++ x ∷ [] else take n xs)
take-snoc zero xs x = ground arith
take-snoc {A} (suc n) [] x = rw (take-nil {A = A} n) (ground arith)
take-snoc (suc n) (y ∷ ys) x = ground (arith, take-snoc n ys x)

-- What was seen stands for a list of findings.
Stands : ℕ → Seen → List Finding → Type 0
Stands most s fs = (s.findings ≡ take most fs) × (codes_of s.summary ≡ by_code fs)

Stands-add :
    (most : ℕ) (f : Finding) (s : Seen) (next : Summary) (fs : List Finding)
    → Stands most s fs
    → codes_of next ≡ plus (codes_of s.summary) (by_code (f ∷ []))
    → Stands most (add most f (record s { summary = next })) (fs ++ f ∷ [])
unfolding add Stands
Stands-add most f s next fs (e, c) n =
    (ground (arith, take-snoc most fs f), ground (arith, by_code-append fs (f ∷ [])))

module _ (most now stale : ℕ) where
  task-Stands :
      (scope : ℕ) (t : TaskSnapshot) (s : Seen) (fs : List Finding)
      → Stands most s fs
      → Stands most (diagnose_task most now stale scope t s) (fs ++ of_task now stale scope t)
  unfolding diagnose_task Stands
  task-Stands scope t s fs h = elim (Bool-cases (is_pending t.status)) [
    | inr p ↦ rw (p, append-nil fs) h
    | inl p ↦ elim (Bool-cases (ltb (now - t.started_at) stale)) [
      | inl q ↦ rw (p, q, append-nil fs) h
      | inr q ↦
          rw (p, q)
            (Stands-add most (old_pending_task scope t.id (now - t.started_at)) s _ fs h
              (ground arith))
    ]
  ]

  tasks-Stands :
      (scope : ℕ) (ts : List TaskSnapshot) (s : Seen) (fs : List Finding)
      → Stands most s fs
      → Stands most (diagnose_tasks most now stale scope ts s) (fs ++ of_tasks now stale scope ts)
  unfolding diagnose_tasks
  tasks-Stands scope [] s fs h = rw (append-nil fs) h
  tasks-Stands scope (t ∷ ts) s fs h =
      rw (← append_assoc fs (of_task now stale scope t) (of_tasks now stale scope ts)) (
        tasks-Stands scope ts (diagnose_task most now stale scope t s)
          (fs ++ of_task now stale scope t) (task-Stands scope t s fs h))

  cancelling-Stands :
      (f : ScopeFields) (s : Seen) (fs : List Finding)
      → Stands most s fs
      → Stands most
          (note_cancelling most f s)
          (fs ++ (if is_cancelling f.status then scope_cancelling f.id ∷ [] else []))
  unfolding note_cancelling Stands
  cancelling-Stands f s fs h = elim (Bool-cases (is_cancelling f.status)) [
    | inr p ↦ rw (p, append-nil fs) h
    | inl p ↦ rw p (Stands-add most (scope_cancelling f.id) s _ fs h (ground arith))
  ]

  child-Stands :
      (is_root : Bool) (f : ScopeFields) (s : Seen) (fs : List Finding)
      → Stands most s fs
      → Stands most (note_child most is_root f s) (
          fs
          ++ (if not is_root && not (is_closed f.status)
              then pending_child_scope f.id ∷ []
              else []))
  unfolding note_child Stands
  child-Stands is_root f s fs h = elim (Bool-cases (not is_root && not (is_closed f.status))) [
    | inr p ↦ rw (p, append-nil fs) h
    | inl p ↦ rw p (Stands-add most (pending_child_scope f.id) s _ fs h (ground arith))
  ]

  scope-Stands :
      (is_root : Bool) (f : ScopeFields) (s : Seen) (fs : List Finding)
      → Stands most s fs
      → Stands most
          (note_child most is_root f (note_cancelling most f s))
          (fs ++ of_scope is_root f)
  scope-Stands is_root f s fs h =
      rw
        (← append_assoc fs (if is_cancelling f.status then scope_cancelling f.id ∷ [] else [])
          (if not is_root && not (is_closed f.status) then pending_child_scope f.id ∷ [] else []))
        (child-Stands is_root f (note_cancelling most f s) _ (cancelling-Stands f s fs h))

  mutual
    unfolding visit of_snapshot

    visit-Stands :
        (is_root : Bool) (c : ScopeSnapshot) (s : Seen) (fs : List Finding)
        → Stands most s fs
        → Stands most (visit most now stale is_root c s) (fs ++ of_snapshot now stale is_root c)
    visit-Stands is_root (scope_snapshot f ts children) s fs h =
        rw
          (
            ← append_assoc fs (of_scope is_root f)
                (of_tasks now stale f.id ts ++ of_children now stale children),
            ← append_assoc (fs ++ of_scope is_root f) (of_tasks now stale f.id ts)
                (of_children now stale children),
          )
          (visit_all-Stands children _ _ (tasks-Stands f.id ts _ _ (scope-Stands is_root f s fs h)))

    visit_all-Stands :
        (children : Snapshots) (s : Seen) (fs : List Finding)
        → Stands most s fs
        → Stands most (visit_all most now stale children s) (fs ++ of_children now stale children)
    visit_all-Stands no_more s fs h = rw (append-nil fs) h
    visit_all-Stands (child_and c children) s fs h =
        rw (← append_assoc fs (of_snapshot now stale false c) (of_children now stale children)) (
          visit_all-Stands children (visit most now stale false c s)
            (fs ++ of_snapshot now stale false c) (visit-Stands false c s fs h))

timeout-Stands :
    (most : ℕ) (f : Finding) (s : Seen) (fs : List Finding)
    → Stands most s fs
    → by_code (f ∷ []) ≡ record {
      old_pending_tasks = 0;
      pending_child_scopes = 0;
      cancelling_scopes = 0;
      cleanup_timeouts = 1;
    }
    → Stands most (note_timeout most f s) (fs ++ f ∷ [])
unfolding note_timeout
timeout-Stands most f s fs h e = Stands-add most f s _ fs h (ground arith)

events-Stands :
    {E V : Type 0} (most : ℕ) (es : List (TaskEvent E V)) (s : Seen) (fs : List Finding)
    → Stands most s fs
    → Stands most (note_events most es s) (fs ++ of_events es)
unfolding note_events of_events
events-Stands most [] s fs h = rw (append-nil fs) h
events-Stands most (task_cleanup_timeout t ms at ∷ es) s fs h =
    rw (← append_assoc fs (cleanup_timeout_of_task t ms at ∷ []) (of_events es)) (
      events-Stands most es _ _ (timeout-Stands most (cleanup_timeout_of_task t ms at) s fs h refl))
events-Stands most (scope_cleanup_timeout i ms at ∷ es) s fs h =
    rw (← append_assoc fs (cleanup_timeout_of_scope i ms at ∷ []) (of_events es)) (
      events-Stands most es _ _
        (timeout-Stands most (cleanup_timeout_of_scope i ms at) s fs h refl))
events-Stands most (_ ∷ es) s fs h = events-Stands most es s fs h

length-take : {A : Type 0} (n : ℕ) (xs : List A) → length (take n xs) ≡ min n (length xs)
length-take zero xs = omega arith
length-take (suc n) [] = omega arith
length-take (suc n) (x ∷ xs) = ground (arith, length-take n xs)

empty_of_length : {A : Type 0} (xs : List A) → length xs ≡ 0 → xs ≡ []
empty_of_length [] e = refl
empty_of_length (x ∷ xs) e = absurd (omega arith)

-- All that a snapshot and an event window show, in the order of the visit.
abbrev pub findings_of :
    {E V : Type 0} → ScopeSnapshot → List (TaskEvent E V) → Options → List Finding
findings_of snapshot events o =
    of_snapshot o.now (get_or default_stale_task_ms o.stale_task_ms) true snapshot
    ++ of_events events

abbrev events_seen : {E V : Type 0} → ScopeSnapshot → List (TaskEvent E V) → Options → Seen
events_seen snapshot events o = note_events (get_or default_max_findings o.max_findings) events (
    visit (get_or default_max_findings o.max_findings) o.now
      (get_or default_stale_task_ms o.stale_task_ms) true snapshot nothing_seen)

-- A report holds the findings of the snapshot and of the event window in the order of the visit, as
-- many as its bound allows, and is marked as truncated exactly if there are more. Its counters count
-- all of them by their codes, and it is healthy exactly if there are none.
pub diagnose_snapshot-findings :
    {E V : Type 0} (snapshot : ScopeSnapshot) (events : List (TaskEvent E V)) (o : Options)
    → let report = diagnose_snapshot snapshot events o in
      let fs = findings_of snapshot events o in
      let most = get_or default_max_findings o.max_findings in
      (report.findings ≡ take most fs)
      × (report.truncated ≡ ltb most (length fs))
      × (codes_of report.summary ≡ by_code fs)
      × ((report.status ≡ healthy) ↔ (fs ≡ []))
unfolding diagnose_snapshot total_findings Stands
diagnose_snapshot-findings snapshot events o =
    let most = get_or default_max_findings o.max_findings in
    let fs = findings_of snapshot events o in
    let (kept, codes) = events-Stands most events _ _ (
      visit-Stands most o.now (get_or default_stale_task_ms o.stale_task_ms) true snapshot
        nothing_seen [] (sym (take-nil most), refl)) in
    let total : total_findings (events_seen snapshot events o).summary ≡ length fs =
      ground (arith, codes, by_code-length fs) in
    let size = ap length kept ∙ length-take most fs in
    (
      kept,
      ground (arith, total, size),
      codes,
      (λ e. empty_of_length fs (ground (arith, total)), λ e. ground (arith, total, ap length e)),
    )
