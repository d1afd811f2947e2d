-- ===== src/Replay/Recorder/Window.antt =====
-- The event window of a recorder and what its receipt says of it (packages/core/src/replay/index.ts).
use workit.Prelude.{
  ℕ, zero, suc, ◌+◌, ◌-◌, ◌≤◌, ◌<◌, ◌≡◌, refl, ap, ◌∙◌, Bool, true, false, Option, none, some, List,
  [], ◌∷◌, ◌++◌, map, length, length-append, take, append_assoc, append-nil, ltb, arith, Bool-cases,
  inl, inr,
}
use workit.Candidates.Evidence.{ReceiptError}
use workit.Events.{
  TaskEvent, task_attempt, task_retrying, task_cleanup_failed, scope_cleanup_failed,
}
use workit.Snapshot.{ScopeSnapshot}
use workit.Replay.Receipt.{normalize_event, is_type}
use workit.Replay.Summary.{Attempt, attempt_of, attempts_from_events, summarize_receipt}
use workit.Replay.Recorder.{
  Recorder, observe, observe_all, Limitation, audit_evidence, event_window_truncated, of_caller,
  BuildOptions, assemble, assemble_receipt, fresh, shown_attempts, limitations_of,
}

-- Whether a receipt says that its event window was cut.
abbrev pub says_truncated : List Limitation → Bool
says_truncated [] = false
says_truncated (event_window_truncated ∷ ls) = true
says_truncated (audit_evidence ∷ ls) = says_truncated ls
says_truncated (of_caller t ∷ ls) = says_truncated ls

-- The attempts that events tell of.
abbrev pub attempts_of : {E V : Type 0} → List (TaskEvent E V) → List Attempt
attempts_of [] = []
attempts_of (e ∷ es) =
    let rest = attempts_of es in
    elim e [
      | task_attempt t n ms outcome at ↦
          record {
            task_id = t;
            attempt = n;
            started_at = at - ms;
            completed_at = at;
            duration_ms = ms;
            outcome = outcome;
          }
          ∷ rest
      | _ ↦ rest
    ]

-- How many events tell of a retry, a failed cleanup and a cleanup that ran out of time.
abbrev pub retries_of : {E V : Type 0} → List (TaskEvent E V) → ℕ
retries_of [] = 0
retries_of (e ∷ es) =
    let rest = retries_of es in elim e [ task_retrying _ _ _ _ _ ↦ suc rest | _ ↦ rest ]

abbrev pub cleanup_failures_of : {E V : Type 0} → List (TaskEvent E V) → ℕ
cleanup_failures_of [] = 0
cleanup_failures_of (e ∷ es) =
    let rest = cleanup_failures_of es in
    elim e [
      | task_cleanup_failed _ _ _ ↦ suc rest
      | scope_cleanup_failed _ _ _ ↦ suc rest
      | _ ↦ rest
    ]

says-caller : (ts : List (List ℕ)) → says_truncated (map of_caller ts) ≡ false
says-caller [] = refl
says-caller (t ∷ ts) = says-caller ts

says-limitations : (n : ℕ) (ts : List (List ℕ)) → says_truncated (limitations_of n ts) ≡ ltb 0 n
says-limitations n ts = elim (Bool-cases (ltb 0 n)) [ inl e ↦ rw e | inr e ↦ rw e (says-caller ts) ]

module _ {E V : Type 0} where
  observe-kept :
      (e : TaskEvent E V) (r : Recorder E V)
      → length r.events < r.max_events
      → observe e r ≡ record r { events = r.events ++ e ∷ [] }
  unfolding observe
  observe-kept e r h = ground arith

  observe-dropped :
      (e : TaskEvent E V) (r : Recorder E V)
      → r.max_events ≤ length r.events
      → observe e r ≡ record r { dropped_events = suc r.dropped_events }
  unfolding observe
  observe-dropped e r h = ground arith

  -- With room for some more events.
  observe_all-room :
      (es : List (TaskEvent E V)) (r : Recorder E V) (room : ℕ)
      → length r.events + room ≡ r.max_events
      → observe_all es r ≡ record r {
        events = r.events ++ take room es;
        dropped_events = r.dropped_events + (length es - room);
      }
  unfolding observe_all
  observe_all-room [] r zero h = ground (arith, append-nil r.events)
  observe_all-room [] r (suc room) h = ground (arith, append-nil r.events)
  observe_all-room (e ∷ es) r zero h = rw (observe-dropped e r (omega arith)) (
      observe_all-room es (record r { dropped_events = suc r.dropped_events }) zero h
      ∙ ground arith)
  observe_all-room (e ∷ es) r (suc room) h = rw (observe-kept e r (omega arith)) (
      observe_all-room es (record r { events = r.events ++ e ∷ [] }) room
        (omega (arith, length-append r.events (e ∷ []), h))
      ∙ ground (arith, append_assoc r.events (e ∷ []) (take room es)))

  module _ (describe : E → ReceiptError) where
    attempts-normalized :
        (es : List (TaskEvent E V))
        → attempts_from_events (map (normalize_event describe) es) ≡ attempts_of es
    unfolding attempts_from_events normalize_event attempt_of is_type
    attempts-normalized [] = refl
    attempts-normalized (task_attempt t n ms outcome at ∷ es) = cc (attempts-normalized es)
    attempts-normalized (_ ∷ es) = attempts-normalized es

    retries-normalized :
        (es : List (TaskEvent E V)) (snapshot : ScopeSnapshot) (n : ℕ)
        → (summarize_receipt snapshot (map (normalize_event describe) es) n).retry_events
          ≡ retries_of es
    unfolding summarize_receipt normalize_event is_type
    retries-normalized [] snapshot n = refl
    retries-normalized (task_retrying t k e delay at ∷ es) snapshot n =
        ap suc (retries-normalized es snapshot n)
    retries-normalized (_ ∷ es) snapshot n = retries-normalized es snapshot n

    failures-normalized :
        (es : List (TaskEvent E V)) (snapshot : ScopeSnapshot) (n : ℕ)
        → (summarize_receipt snapshot (map (normalize_event describe) es) n).cleanup_failures
          ≡ cleanup_failures_of es
    unfolding summarize_receipt normalize_event is_type
    failures-normalized [] snapshot n = refl
    failures-normalized (task_cleanup_failed t e at ∷ es) snapshot n =
        ap suc (failures-normalized es snapshot n)
    failures-normalized (scope_cleanup_failed s e at ∷ es) snapshot n =
        ap suc (failures-normalized es snapshot n)
    failures-normalized (_ ∷ es) snapshot n = failures-normalized es snapshot n

abbrev pub attempts_shown : Option (List Attempt) → List Attempt
attempts_shown none = []
attempts_shown (some l) = l

shown-attempts : (l : List Attempt) → attempts_shown (shown_attempts none l) ≡ l
unfolding shown_attempts
shown-attempts [] = refl
shown-attempts (a ∷ l) = refl

-- A recorder keeps the first events, as many as its bound allows, and counts the others. Its receipt
-- has the kept events, normalized, counts the retries and failed cleanups among them, lists their
-- attempts if the caller gives none, has the count of the others, and says that its window was cut
-- exactly if there are others.
pub assemble-observe_all :
    {E V : Type 0} (describe : E → ReceiptError) (es : List (TaskEvent E V)) (most : ℕ)
    (snapshot : ScopeSnapshot) (o : BuildOptions)
    → let receipt = assemble describe (observe_all es (fresh most)) snapshot o in
      let kept = take most es in
      (receipt.events ≡ map (normalize_event describe) kept)
      × (receipt.summary.retry_events ≡ retries_of kept)
      × (receipt.summary.cleanup_failures ≡ cleanup_failures_of kept)
      × (receipt.summary.dropped_events ≡ length es - most)
      × (says_truncated receipt.limitations ≡ ltb most (length es))
      × (o.attempts ≡ none → attempts_shown receipt.attempts ≡ attempts_of kept)
unfolding assemble assemble_receipt summarize_receipt
assemble-observe_all describe es most snapshot o =
    rw (observe_all-room es (fresh most) most (omega arith)) (
      refl,
      retries-normalized describe (take most es) snapshot (0 + (length es - most)),
      failures-normalized describe (take most es) snapshot (0 + (length es - most)),
      dropped,
      says-limitations _ o.limitations ∙ ground arith,
      λ none_given. rw none_given (shown-attempts _ ∙ attempts-normalized describe (take most es)),
    )
  where
    dropped : 0 + (length es - most) ≡ length es - most
    dropped = omega arith
