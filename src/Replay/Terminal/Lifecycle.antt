-- ===== src/Replay/Terminal/Lifecycle.antt =====
-- The terminal fact of a receipt of a scope (packages/core/src/replay/index.ts, `inferTerminal`, on the
-- events and the snapshot of packages/core/src/engine/scope.ts).
use workit.Prelude.{ℕ, ◌≡◌, Option, none, some, List, [], ◌∷◌, map, keep}
use workit.Candidates.Evidence.{ReceiptError}
use workit.Engine.Scope.{ClosingReason, ScopeEvent, TaskStatus}
use workit.Events.{io, CancelReason, TaskEvent}
use workit.Snapshot.{ScopeSnapshot, scope_snapshot}
use workit.Replay.Receipt.{ReceiptEvent, normalize_event, is_type, closing}
use workit.Replay.Terminal.{find_last, closing_of, same_id}

-- What the events of a scope carry beyond what its model keeps.
pub record Details (E V : Type 0) : Type 0 where
  pub at : ScopeEvent → ℕ
  pub duration_ms : ScopeEvent → ℕ
  pub error : ScopeEvent → E
  pub reason : ScopeEvent → CancelReason E V
  pub name : ℕ → List ℕ

module _ {E V : Type 0} (i : ℕ) (d : Details E V) where
  ended : ScopeEvent → ℕ → TaskStatus → TaskEvent E V
  ended e t TaskStatus.succeeded = TaskEvent.task_succeeded t (d.duration_ms e) (d.at e)
  ended e t TaskStatus.cancelled =
      TaskEvent.task_cancelled t (d.reason e) (d.duration_ms e) (d.at e)
  ended e t _ = TaskEvent.task_failed t (d.error e) (d.duration_ms e) (d.at e)

  -- An event of scope `i` as its observers get it.
  pub detailed : ScopeEvent → TaskEvent E V
  unfolding ended
  detailed ScopeEvent.scope_opened = TaskEvent.scope_opened i none (d.at ScopeEvent.scope_opened)
  detailed ScopeEvent.scope_closed =
      TaskEvent.scope_closed i (d.duration_ms ScopeEvent.scope_closed) none
        (d.at ScopeEvent.scope_closed)
  detailed (ScopeEvent.scope_closing r) =
      TaskEvent.scope_closing i r (d.at (ScopeEvent.scope_closing r))
  detailed (ScopeEvent.task_started t) =
      TaskEvent.task_started t i (d.name t) io (d.at (ScopeEvent.task_started t))
  detailed (ScopeEvent.task_terminal t s) = ended (ScopeEvent.task_terminal t s) t s
  detailed (ScopeEvent.task_cleanup_timeout t) =
      TaskEvent.task_cleanup_timeout t (d.duration_ms (ScopeEvent.task_cleanup_timeout t))
        (d.at (ScopeEvent.task_cleanup_timeout t))
  detailed (ScopeEvent.task_cleanup_failed t) =
      TaskEvent.task_cleanup_failed t (d.error (ScopeEvent.task_cleanup_failed t))
        (d.at (ScopeEvent.task_cleanup_failed t))
  detailed ScopeEvent.scope_cleanup_timeout =
      TaskEvent.scope_cleanup_timeout i (d.duration_ms ScopeEvent.scope_cleanup_timeout)
        (d.at ScopeEvent.scope_cleanup_timeout)
  detailed ScopeEvent.scope_cleanup_failed =
      TaskEvent.scope_cleanup_failed i (d.error ScopeEvent.scope_cleanup_failed)
        (d.at ScopeEvent.scope_cleanup_failed)

-- The reason of the last closing event.
abbrev pub last_closing : List ScopeEvent → Option ClosingReason
last_closing [] = none
last_closing (e ∷ es) =
    let later = last_closing es in
    elim later [
      | some r ↦ some r
      | none ↦ elim e [ ScopeEvent.scope_closing r ↦ some r | _ ↦ none ]
    ]

-- A last closing event and a last closing reason, both there or neither.
abbrev Agrees : {V : Type 0} → Option (ReceiptEvent V) → Option ClosingReason → Type 0
Agrees none none = Unit
Agrees none (some r) = ⊥
Agrees (some e) none = ⊥
Agrees (some e) (some r) = closing_of e.reason ≡ some r

module _ {E V : Type 0} (describe : E → ReceiptError) (i : ℕ) (d : Details E V) where
  abbrev found : List ScopeEvent → Option (ReceiptEvent V)
  found es =
      find_last (λ (e : ReceiptEvent V). is_type e.type closing)
        (keep (λ (e : ReceiptEvent V). same_id i e.scope_id)
          (map (normalize_event describe) (map (detailed i d) es)))

  abbrev shown : ScopeEvent → ReceiptEvent V
  shown e = normalize_event describe (detailed i d e)

abbrev pub failed_count_of : ScopeSnapshot → ℕ
failed_count_of (scope_snapshot f ts children) = f.failed_count
