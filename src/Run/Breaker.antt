-- ===== src/Run/Breaker.antt =====
-- packages/core/src/run/index.ts, `circuitBreaker`: the breaker's variables, and the calls that run
-- through it. Calls overlap: one step begins a call or ends one that is running. A running call is
-- its `halfOpenEpoch`; `now` is `Date.now()` at the step.
pub mod Invariant
pub mod Stuck
use workit.Prelude.{
  ℕ, zero, suc, ◌+◌, ◌<◌, Bool, true, false, ◌&&◌, Option, none, some, List, [], ◌∷◌, ◌++◌, ltb,
  leb, ◌==◌, if◌then◌else◌,
}

-- `state` 0, 1 and 2.
pub data Phase : Type 0 where
  shut tripped half_open : Phase

pub record Breaker : Type 0 where
  pub state : Phase
  pub failures : ℕ
  pub opened_until : ℕ
  pub epoch : ℕ
  pub admitted : ℕ

pub record Opts : Type 0 where
  pub failure_threshold : ℕ
  pub reset_after_ms : ℕ
  pub half_open_max_calls : Option ℕ

pub data Refusal : Type 0 where
  circuit_open circuit_half_open : Refusal

-- How a task ends: `cancelled` is a `CancellationError`, a `TimeoutError` included.
pub data Ending : Type 0 where
  succeeded failed cancelled : Ending

abbrev pub initial : Breaker
initial = record { state = shut; failures = 0; opened_until = 0; epoch = 0; admitted = 0 }

abbrev pub max_half_open_calls : Opts → ℕ
max_half_open_calls o = elim o.half_open_max_calls [ none ↦ 1 | some n ↦ n ]

unfoldable pub open_circuit : Opts → ℕ → Breaker → Breaker
open_circuit o now b = record b { state = tripped; opened_until = now + o.reset_after_ms }

unfoldable pub close_circuit : Breaker → Breaker
close_circuit b = record b { state = shut; failures = 0 }

unfoldable pub enter_half_open : Breaker → Breaker
enter_half_open b = record b { state = half_open; epoch = suc b.epoch; admitted = 0 }

abbrev pub is_half_open : Phase → Bool
is_half_open half_open = true
is_half_open _ = false

abbrev pub is_shut : Phase → Bool
is_shut shut = true
is_shut _ = false

pub data Admission : Type 0 where
  refused : Refusal → Admission
  runs : ℕ → Admission

-- From the half-open test up to the call of the task: the call's `halfOpenEpoch`.
admit_call : Opts → Breaker → Breaker × Admission
admit_call o b =
    let full = leb (max_half_open_calls o) b.admitted in
    let probe = is_half_open b.state in
    if probe && full then (b, refused circuit_half_open) else (
      (if probe then record b { admitted = suc b.admitted } else b),
      runs (if probe then b.epoch else 0),
    )

begin_in : Phase → Opts → ℕ → Breaker → Breaker × Admission
unfolding admit_call enter_half_open
begin_in tripped o now b =
    if ltb now b.opened_until then (b, refused circuit_open) else admit_call o (enter_half_open b)
begin_in _ o now b = admit_call o b

unfoldable pub begin : Opts → ℕ → Breaker → Breaker × Admission
unfolding begin_in
begin o now b = begin_in b.state o now b

-- What a call does when its task has ended.
unfoldable pub finish : Opts → ℕ → Breaker → ℕ → Ending → Breaker
unfolding open_circuit close_circuit
finish o now b call succeeded =
    if ltb 0 call
    then (if is_half_open b.state && b.epoch == call then close_circuit b else b)
    else (if is_shut b.state then close_circuit b else b)
finish o now b call cancelled = b
finish o now b call failed =
    if ltb 0 call
    then (if call == b.epoch then open_circuit o now b else b)
    else (let counted = record b { failures = suc b.failures } in
        if is_shut b.state
        then (if leb o.failure_threshold counted.failures
            then open_circuit o now counted
            else counted)
        else b)

pub record System : Type 0 where
  pub breaker : Breaker
  pub running : List ℕ

pub data Event : Type 0 where
  calls : Event
  ends : ℕ → Ending → Event

-- The i-th running call, and the others.
abbrev pub take_out : ℕ → List ℕ → Option (ℕ × List ℕ)
take_out i [] = none
take_out zero (x ∷ xs) = some (x, xs)
take_out (suc i) (x ∷ xs) = elim (take_out i xs) [ none ↦ none | some (y, ys) ↦ some (y, x ∷ ys) ]

started : Breaker × Admission → List ℕ → System
started (b, refused r) running = record { breaker = b; running = running }
started (b, runs call) running = record { breaker = b; running = call ∷ running }

ended : Opts → ℕ → System → Ending → Option (ℕ × List ℕ) → System
ended o now s e none = s
ended o now s e (some (call, rest)) = record {
  breaker = finish o now s.breaker call e;
  running = rest;
}

unfoldable pub step : Opts → ℕ → System → Event → System
unfolding started ended
step o now s calls = started (begin o now s.breaker) s.running
step o now s (ends i e) = ended o now s e (take_out i s.running)

unfoldable pub run : Opts → System → List (ℕ × Event) → System
run o s [] = s
run o s ((now, e) ∷ es) = run o (step o now s e) es
