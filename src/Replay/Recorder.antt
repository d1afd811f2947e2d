-- ===== src/Replay/Recorder.antt =====
-- packages/core/src/replay/index.ts: `createReceiptRecorder` and `buildReceipt`, up to the redaction of
-- its result, which acts on the receipt as a value. The clock's reading comes in as a number.
pub mod Window
use workit.Prelude.{
  ℕ, suc, Bool, true, false, Option, none, some, List, [], ◌∷◌, ◌++◌, map, length, ltb, leb,
  if◌then◌else◌, Result, ok, err,
}
use workit.Engine.Errors.{RangeError, max_events}
use workit.Candidates.Evidence.{ReceiptError}
use workit.Events.{TaskEvent}
use workit.Snapshot.{ScopeSnapshot, scope_snapshot}
use workit.Replay.Receipt.{ReceiptEvent, normalize_event}
use workit.Replay.Summary.{Attempt, attempts_from_events, Summary, summarize_receipt}
use workit.Replay.Terminal.{ReceiptTerminal, infer_terminal}

abbrev pub default_max_events : ℕ
default_max_events = 10000

-- What a recorder holds.
pub record Recorder (E V : Type 0) : Type 0 where
  pub max_events : ℕ
  pub events : List (TaskEvent E V)
  pub dropped_events : ℕ

abbrev pub fresh : {E V : Type 0} → ℕ → Recorder E V
fresh most = record { max_events = most; events = []; dropped_events = 0 }

abbrev or_default : Option ℕ → ℕ
or_default none = default_max_events
or_default (some n) = n

unfoldable pub create_receipt_recorder :
    {E V : Type 0} → Option ℕ → Result RangeError (Recorder E V)
create_receipt_recorder o =
    if ltb (or_default o) 1 then err max_events else ok (fresh (or_default o))

-- The handler that the recorder registers.
unfoldable pub observe : {E V : Type 0} → TaskEvent E V → Recorder E V → Recorder E V
observe e r =
    if ltb (length r.events) r.max_events
    then record r { events = r.events ++ e ∷ [] }
    else record r { dropped_events = suc r.dropped_events }

unfoldable pub observe_all : {E V : Type 0} → List (TaskEvent E V) → Recorder E V → Recorder E V
unfolding observe
observe_all [] r = r
observe_all (e ∷ es) r = observe_all es (observe e r)

pub data ReceiptId : Type 0 where
  given : List ℕ → ReceiptId
  generated : (scope created_at : ℕ) → ReceiptId

pub data Limitation : Type 0 where
  audit_evidence event_window_truncated : Limitation
  of_caller : List ℕ → Limitation

pub record BuildOptions : Type 0 where
  pub receipt_id : Option (List ℕ)
  pub created_at : ℕ
  pub limitations : List (List ℕ)
  pub attempts : Option (List Attempt)

-- `WorkItReceipt`.
pub record Receipt (V : Type 0) : Type 0 where
  pub receipt_id : ReceiptId
  pub created_at : ℕ
  pub root_scope_id : ℕ
  pub terminal : ReceiptTerminal V
  pub summary : Summary
  pub events : List (ReceiptEvent V)
  pub attempts : Option (List Attempt)
  pub snapshot : ScopeSnapshot
  pub limitations : List Limitation

id_of : ScopeSnapshot → ℕ
id_of (scope_snapshot f ts children) = f.id

receipt_id_of : Option (List ℕ) → ℕ → ℕ → ReceiptId
receipt_id_of none scope at = generated scope at
receipt_id_of (some t) scope at = given t

shown_attempts : Option (List Attempt) → List Attempt → Option (List Attempt)
shown_attempts (some found) _ = some found
shown_attempts none [] = none
shown_attempts none (a ∷ more) = some (a ∷ more)

abbrev limitations_of : ℕ → List (List ℕ) → List Limitation
limitations_of dropped more =
    audit_evidence
    ∷ ((if ltb 0 dropped then event_window_truncated ∷ [] else []) ++ map of_caller more)

unfoldable pub assemble_receipt :
    {E V : Type 0}
    → (E → ReceiptError)
    → List (TaskEvent E V)
    → ScopeSnapshot
    → ℕ
    → BuildOptions
    → Receipt V
unfolding id_of receipt_id_of shown_attempts
assemble_receipt describe events snapshot dropped o =
    let normalized = map (normalize_event describe) events in
    let summary = summarize_receipt snapshot normalized dropped in
    record {
      receipt_id = receipt_id_of o.receipt_id (id_of snapshot) o.created_at;
      created_at = o.created_at;
      root_scope_id = id_of snapshot;
      terminal = infer_terminal snapshot normalized;
      summary = summary;
      events = normalized;
      attempts = shown_attempts o.attempts (attempts_from_events normalized);
      snapshot = snapshot;
      limitations = limitations_of summary.dropped_events o.limitations;
    }

-- `build` of a recorder, before the redaction of the receipt.
unfoldable pub assemble :
    {E V : Type 0} → (E → ReceiptError) → Recorder E V → ScopeSnapshot → BuildOptions → Receipt V
unfolding assemble_receipt
assemble describe r snapshot o = assemble_receipt describe r.events snapshot r.dropped_events o
