-- ===== src/Lib.antt =====
-- A verification library for WorkIt, a structured-concurrency runtime in TypeScript
-- (packages/core/src).
--
-- The parts, and how they interact. A scope (engine/scope.ts) owns tasks, cancels them together and
-- closes when they have ended. Task bodies are wrapped by the run helpers (run/index.ts): `retry`
-- repeats a body under a policy of engine/retry.ts, whose delays are durations of
-- engine/duration.ts, and reports to the scope; `circuitBreaker` admits or refuses calls.
-- `firstAcceptable` (candidates/index.ts) runs one retried task for each candidate, records the
-- attempts with the recorder of replay/index.ts and turns failures into decisions. The planner
-- (time-policy/index.ts) bounds the time of a composition of such wrappers before it runs. A channel
-- (channel/index.ts) passes values between tasks. A scope's context bag (engine/context.ts) carries
-- values and the budgets that its tasks share. A scope shows itself as a snapshot, which
-- diagnostics/index.ts inspects, and emits events, from which replay/index.ts builds receipts; the
-- ledgers of ledger/index.ts keep these. All paths below are under packages/core/src.
--
-- Which file models which part:
--   Prelude      Boolean tests, lists over the native numbers, and results that may be thrown.
--   Channel      channel/index.ts. The record Channel holds the fields of BoundedChannel, and one
--                function stands for each method: create_channel, send, receive, close, size, pump
--                with its three loops, and on_abort for the listener of installAbort. A promise is
--                the number of its call, and `settled` logs what was resolved or rejected.
--   Engine       engine/duration.ts (Duration: parse_duration), engine/retry.ts (Retry:
--                validate_retry_policy, normalize_retry, compute_retry_delay), engine/event-bus.ts
--                (EventBus: on, unsubscribe, emit, dispatch; droppedEventCount is the field
--                dropped_count; what handlers do, a throw included, is left out, and so are
--                handlers that call the bus again) and engine/scope.ts
--                (Scope: spawn, cancel, defer and the sections of a task; Scope/Close: close in
--                rounds; Scope/Calls: any interleaving of these sections). Context is
--                engine/context.ts with consumeBudget and findBudgetOwner of engine/scope.ts: a bag
--                is the list of its maps, from itself to the root, and a budget the place of a cell
--                in a list that all bags share.
--   Run          run/index.ts: Retry (retry, with its loop, its budget charge and its sleep),
--                Breaker (circuitBreaker, as begin and finish of a call), Pool (pool, driven by the
--                settlements of its tasks and the cancelling of its scope), Hedge (hedge, driven by its timers, its attempts and the
--                abort of its context) and Supervise (supervise and fallback); Thrown holds the
--                error classes of types/index.ts.
--   TimePolicy   time-policy/index.ts: Planner (plan, collectPolicyTypes), Combine (the plans of
--                the single policies), Budget (planTimePolicy and the retry budgets). Execution
--                describes how long a run of a policy can take, with no reference to the planner.
--   Candidates   candidates/classification.ts, candidates/evidence.ts and candidates/index.ts:
--                Classification, Evidence (with the recorder of replay/index.ts), Attempt (one
--                attempt, wrapper by wrapper) and Selection (firstAcceptable). Trail is the abstract
--                specification of a selection.
--   Events       TaskEvent and CancelReason of types/index.ts.
--   Snapshot     the snapshots of types/index.ts and ScopeImpl.status; Totals: countSnapshot of
--                engine/tree.ts and of replay/index.ts; Diagnostics: diagnostics/index.ts.
--   Replay       replay/index.ts: Redaction (redactReceipt, redactValue), Receipt (normalizeEvent),
--                Summary (attemptsFromEvents, summarizeReceipt), Terminal (inferTerminal) and
--                Recorder (createReceiptRecorder, and buildReceipt up to its last line).
--   Ledger       ledger/index.ts: Stable (sortValue), Memory, Files and Sql (append of the four
--                ledgers); Contract is the abstract specification of a ledger.
--   Examples     the theorems at concrete inputs.
--
-- How the code is read. Bodies, cleanups and the callbacks of a caller are functions on a state of
-- the caller's, or calls that come from outside; what lies between two awaits is one step, and an
-- interleaving is a list of steps. Errors are values: Result, with one constructor for each error that
-- is told apart. Durations are whole milliseconds, Math.random is a number below 2^53 over 2^53, and
-- a timer waits at most 2147483647 ms. A retry loop runs on the number of attempts that are left,
-- `times - 1`, so it needs no fuel, and the planner recurs on the policy.
--
-- What comes from outside is a parameter: the hash, JSON and base64url of Node, the ends of the
-- operations on files, and the clients of the databases, whose statements do what SQL says by the
-- hypotheses of the theorem and which may change the order of the fields of a receipt. What a body
-- that a deadline cuts off has recorded by then is a parameter too.
--
-- What is not modelled: deadline timers and signals of scopes (a deadline comes in as a call of
-- cancel), the metadata and the times of recorded attempts, names and progress of tasks in
-- snapshots, messages, labels and text layout, the run helpers race, any, uncancellable and bracket,
-- `list` of the ledgers and the check of SQL names, resources, contracts, activity, analysis, fault
-- injection, AI helpers and exporters; and of spawn, the check of a task's kind, that of shortcut
-- options, the cleanup timeout, and the idempotency handle that a task leaves which throws at once.
-- The redaction acts on receipts as values, and is not composed with the builder, whose receipt is a
-- record, so that what is said of the builder is said of the receipt that it hands to redactReceipt.
-- Decimal budgets and numbers that are not finite do not appear, since amounts are natural numbers.
pub mod Prelude
pub mod Channel
pub mod Engine
pub mod Run
pub mod TimePolicy
pub mod Candidates
pub mod Events
pub mod Replay
pub mod Ledger
pub mod Snapshot
pub mod Examples
