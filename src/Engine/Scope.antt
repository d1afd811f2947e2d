-- ===== src/Engine/Scope.antt =====
-- packages/core/src/engine/scope.ts: `ScopeImpl`, one scope with its tasks. Bodies, cleanups and child
-- scopes run outside: a call of the model is one synchronous section of the code, and a list of calls
-- is one interleaving of them. Signals, contexts, names and times of tasks are left out, and of `spawn`
-- the check of the kind, that of shortcut options, the cleanup timeout, and the handle that stays under
-- the idempotency key of a task that throws before its first `await`.
pub mod Close
pub mod Calls
mod Spawned
pub mod Closings
pub mod Lifecycle
pub mod Drain
pub mod Rounds
pub mod Outlived
use workit.Prelude.{
  ℕ, suc, Bool, true, false, not, ◌&&◌, ◌||◌, Option, none, some, List, [], ◌∷◌, ◌++◌, map, ltb,
  ◌==◌, all, length, find, same_text, if◌then◌else◌, Result, ok, err, ◌>>=◌, ◌>>◌,
}
use workit.Run.Thrown.{Thrown, timeout_error, is_cancellation}

pub data ScopeState : Type 0 where
  running cancelling closed : ScopeState

-- `TaskHandle["status"]`.
pub data TaskStatus : Type 0 where
  pending running succeeded failed cancelled : TaskStatus

-- The kinds of `CancelReason`.
pub data CancelReason : Type 0 where
  parent_failed sibling_failed budget user deadline timeout race_lost scope_ended manual :
      CancelReason

pub data ClosingReason : Type 0 where
  completed errored cancelled : ClosingReason

-- How a cleanup ends: `runCleanup` returns, or the cleanup throws.
pub data CleanupEnd : Type 0 where
  completed timed_out threw : CleanupEnd

pub data ScopeEvent : Type 0 where
  scope_opened scope_closed : ScopeEvent
  scope_closing : ClosingReason → ScopeEvent
  task_started : ℕ → ScopeEvent
  task_terminal : ℕ → TaskStatus → ScopeEvent
  task_cleanup_timeout task_cleanup_failed : ℕ → ScopeEvent
  scope_cleanup_timeout scope_cleanup_failed : ScopeEvent

-- A task with its defers, the last one first. `retained` tells whether the scope's map still has it,
-- `settled` whether its promise has settled.
pub record TaskRecord : Type 0 where
  pub id : ℕ
  pub status : TaskStatus
  pub background : Bool
  pub key : Option (List ℕ)
  pub defers : List ℕ
  pub retained : Bool
  pub settled : Bool

-- Where `close` stands: it waits for tasks and child scopes, it runs the defers, or it has returned.
pub data Closing : Type 0 where
  open_scope : Closing
  draining : List ℕ → List ℕ → Closing
  cleaning finished : Closing

pub record Scope (X : Type 0) : Type 0 where
  pub state : ScopeState
  pub tasks : List TaskRecord
  pub child_scopes : List ℕ
  pub idempotency_handles : List (List ℕ × ℕ)
  pub defers : List ℕ
  pub first_child_failure : Option (Thrown X)
  pub abort_reason : Option CancelReason
  pub closing_emitted : Bool
  pub closing : Closing
  pub next_id : ℕ
  pub events : List ScopeEvent

pub record SpawnOpts : Type 0 where
  pub name : Option (List ℕ)
  pub idempotency_key : Option (List ℕ)
  pub background : Bool

pub data ScopeError : Type 0 where
  not_running task_name idempotency_key_length too_many_defers : ScopeError

abbrev pub max_task_name_length : ℕ
max_task_name_length = 128

abbrev pub max_idempotency_key_length : ℕ
max_idempotency_key_length = 512

abbrev pub max_defers_per_owner : ℕ
max_defers_per_owner = 10000

abbrev pub is_running : ScopeState → Bool
is_running ScopeState.running = true
is_running cancelling = false
is_running closed = false

-- A body that has returned or thrown.
abbrev pub has_ended : TaskStatus → Bool
has_ended pending = false
has_ended TaskStatus.running = false
has_ended succeeded = true
has_ended failed = true
has_ended TaskStatus.cancelled = true

unfoldable pub classify_closing_reason : CancelReason → ClosingReason
classify_closing_reason parent_failed = errored
classify_closing_reason sibling_failed = errored
classify_closing_reason budget = errored
classify_closing_reason user = ClosingReason.cancelled
classify_closing_reason deadline = ClosingReason.cancelled
classify_closing_reason timeout = ClosingReason.cancelled
classify_closing_reason race_lost = ClosingReason.cancelled
classify_closing_reason scope_ended = ClosingReason.cancelled
classify_closing_reason manual = ClosingReason.cancelled

assert_bounded_string : ScopeError → ℕ → Option (List ℕ) → Result ScopeError (Unit {0})
assert_bounded_string e most none = ok tt
assert_bounded_string e most (some []) = err e
assert_bounded_string e most (some (c ∷ cs)) = if ltb most (length (c ∷ cs)) then err e else ok tt

-- The status that a body's end gives, by `instanceof`: a timeout is a failure.
unfoldable pub end_status : {X : Type 0} → Result (Thrown X) (Unit {0}) → TaskStatus
end_status (ok v) = succeeded
end_status (err timeout_error) = failed
end_status (err e) = if is_cancellation e then TaskStatus.cancelled else failed

-- The change of the task with an id.
unfoldable pub update : ℕ → (TaskRecord → TaskRecord) → List TaskRecord → List TaskRecord
update i f [] = []
update i f (t ∷ ts) = let rest = update i f ts in if t.id == i then f t ∷ rest else t ∷ rest

unfoldable pub task_of : ℕ → List TaskRecord → Option TaskRecord
task_of i [] = none
task_of i (t ∷ ts) = let rest = task_of i ts in if t.id == i then some t else rest

-- The handle of a key, without the entries of other keys.
without_handle : Option (List ℕ) → List (List ℕ × ℕ) → List (List ℕ × ℕ)
without_handle none m = m
without_handle (some k) [] = []
without_handle (some k) ((j, i) ∷ m) =
    let rest = without_handle (some k) m in if same_text j k then rest else (j, i) ∷ rest

with_handle : Option (List ℕ) → ℕ → List (List ℕ × ℕ) → List (List ℕ × ℕ)
with_handle none i m = m
with_handle (some k) i m = (k, i) ∷ m

pub handle_of : Option (List ℕ) → List (List ℕ × ℕ) → Option ℕ
handle_of none m = none
handle_of (some k) m = find k m

module _ {X : Type 0} where
  unfoldable pub emit : ScopeEvent → Scope X → Scope X
  emit e s = record s { events = s.events ++ e ∷ [] }

  -- `closeEvent`.
  unfoldable pub close_event : ClosingReason → Scope X → Scope X
  unfolding emit
  close_event reason s =
      if s.closing_emitted
      then s
      else emit (scope_closing reason) (record s { closing_emitted = true })

  unfoldable pub cancel : CancelReason → Scope X → Scope X
  unfolding close_event
  cancel r s =
      if is_running s.state
      then close_event (classify_closing_reason r)
          (record s { state = cancelling; abort_reason = some r })
      else s

  start : SpawnOpts → Scope X → ℕ × Scope X
  unfolding emit with_handle
  start o s = (
    s.next_id,
    emit (task_started s.next_id) (record s {
      tasks =
          s.tasks
          ++ record {
            id = s.next_id;
            status = TaskStatus.running;
            background = o.background;
            key = o.idempotency_key;
            defers = [];
            retained = true;
            settled = false;
          }
            ∷ [];
      idempotency_handles = with_handle o.idempotency_key s.next_id s.idempotency_handles;
      next_id = suc s.next_id;
    }),
  )

  pub reuse_or_start : Option ℕ → SpawnOpts → Scope X → ℕ × Scope X
  unfolding start
  reuse_or_start none o s = start o s
  reuse_or_start (some i) o s = (i, s)

  admit : SpawnOpts → Scope X → Result ScopeError (ℕ × Scope X)
  unfolding assert_bounded_string handle_of reuse_or_start
  admit o s = do
    assert_bounded_string task_name max_task_name_length o.name
    assert_bounded_string idempotency_key_length max_idempotency_key_length o.idempotency_key
    ok (reuse_or_start (handle_of o.idempotency_key s.idempotency_handles) o s)

  -- `spawn`, up to the first `await` of the task: a task of a key that is in flight is not started
  -- again.
  unfoldable pub spawn : SpawnOpts → Scope X → Result ScopeError (ℕ × Scope X)
  unfolding admit
  spawn o s = if is_running s.state then admit o s else err not_running

  -- A failure of a task that is not in the background is kept if it is the first, and cancels the
  -- scope.
  note_failure : TaskRecord → Thrown X → Scope X → Scope X
  unfolding cancel
  note_failure t e s = if t.background then s else elim s.first_child_failure [
    | some f ↦ s
    | none ↦ cancel sibling_failed (record s { first_child_failure = some e })
  ]

  ended : TaskRecord → Result (Thrown X) (Unit {0}) → Scope X → Scope X
  unfolding note_failure
  ended t (ok v) s = s
  ended t (err e) s = elim (end_status {X = X} (err e)) [ failed ↦ note_failure t e s | _ ↦ s ]

  -- The end of a task's body.
  unfoldable pub body_ends : ℕ → Result (Thrown X) (Unit {0}) → Scope X → Scope X
  unfolding ended
  body_ends i r s = elim (task_of i s.tasks) [
    | none ↦ s
    | some t ↦
        if has_ended t.status
        then s
        else ended t r
            (record s { tasks = update i (λ u. record u { status = end_status r }) s.tasks })
  ]

  cleaned : ℕ → CleanupEnd → Scope X → Scope X
  unfolding emit
  cleaned i completed s = s
  cleaned i timed_out s = emit (task_cleanup_timeout i) s
  cleaned i threw s = emit (task_cleanup_failed i) s

  pop_task : TaskRecord → CleanupEnd → List ℕ → Scope X → Scope X
  unfolding cleaned
  pop_task t e [] s = s
  pop_task t e (c ∷ rest) s =
      cleaned t.id e (record s { tasks = update t.id (λ u. record u { defers = rest }) s.tasks })

  -- One cleanup of a task whose body has ended, the last one that was deferred.
  unfoldable pub task_cleanup : ℕ → CleanupEnd → Scope X → Scope X
  unfolding pop_task
  task_cleanup i e s = elim (task_of i s.tasks) [
    | none ↦ s
    | some t ↦ if has_ended t.status && not t.settled then pop_task t e t.defers s else s
  ]

  settle : TaskRecord → List ℕ → Scope X → Scope X
  unfolding emit without_handle
  settle t [] s = emit (task_terminal t.id t.status) (record s {
    tasks = update t.id (λ u. record u { settled = true }) s.tasks;
    idempotency_handles = without_handle t.key s.idempotency_handles;
  })
  settle t (c ∷ rest) s = s

  -- The end of a task: its cleanups are done.
  unfoldable pub task_settles : ℕ → Scope X → Scope X
  unfolding settle
  task_settles i s = elim (task_of i s.tasks) [
    | none ↦ s
    | some t ↦ if has_ended t.status && not t.settled then settle t t.defers s else s
  ]

  -- `ctx.defer`.
  unfoldable pub task_defer : ℕ → ℕ → Scope X → Result ScopeError (Scope X)
  task_defer i c s = elim (task_of i s.tasks) [
    | none ↦ ok s
    | some t ↦
        if ltb (length t.defers) max_defers_per_owner
        then ok (record s { tasks = update i (λ u. record u { defers = c ∷ u.defers }) s.tasks })
        else err too_many_defers
  ]

  unfoldable pub defer : ℕ → Scope X → Result ScopeError (Scope X)
  defer c s =
      if ltb (length s.defers) max_defers_per_owner
      then ok (record s { defers = c ∷ s.defers })
      else err too_many_defers
