-- ===== src/Channel.antt =====
-- packages/core/src/channel/index.ts: the bounded channel.
-- A promise is named by the number of the call that made it, `next_id` counts the calls, and
-- `settled` logs the promises that were resolved or rejected, in order. `listeners` holds the calls
-- whose abort listener is installed. A reason of `none` stands for `undefined`.
pub mod Invariant
pub mod Order
pub mod Delivery
pub mod Promises
use workit.Prelude.{
  ℕ, suc, Bool, true, false, not, ◌&&◌, Option, none, some, List, [], ◌∷◌, ◌++◌, ltb, ◌==◌,
  if◌then◌else◌, length, keep, Result, ok, err,
}

-- `opts.signal`: not given, not yet aborted, or aborted with its reason.
pub data Signal (R : Type 0) : Type 0 where
  absent live : Signal R
  aborted : Option R → Signal R

-- What a promise is rejected with.
pub data Failure (R : Type 0) : Type 0 where
  channel_closed : Option R → Failure R
  abort_reason : R → Failure R
  operation_aborted : Failure R

pub data Settlement (A R : Type 0) : Type 0 where
  sent : ℕ → Settlement A R
  received : ℕ → A → Settlement A R
  done : ℕ → Option R → Settlement A R
  rejected : ℕ → Failure R → Settlement A R

pub record Sender (A : Type 0) : Type 0 where
  pub id : ℕ
  pub value : A

pub record Channel (A R : Type 0) : Type 0 where
  pub capacity : ℕ
  pub buffer : List A
  pub senders : List (Sender A)
  pub receivers : List ℕ
  pub close_reason : Option R
  pub is_closed : Bool
  pub listeners : List ℕ
  pub next_id : ℕ
  pub settled : List (Settlement A R)

pub data RangeError : Type 0 where
  channel_capacity : RangeError

pub reason_of : {R : Type 0} → Option R → Failure R
reason_of none = operation_aborted
reason_of (some r) = abort_reason r

abbrev pub without : ℕ → List ℕ → List ℕ
without i = keep λ j. not (j == i)

abbrev pub is_empty {ℓ} : {B : Type ℓ} → List B → Bool
is_empty [] = true
is_empty (_ ∷ _) = false

-- `installAbort`: a listener for a call with a signal.
install_abort : {R : Type 0} → Signal R → ℕ → List ℕ → List ℕ
install_abort live i ls = ls ++ i ∷ []
install_abort _ i ls = ls

abbrev pub mem : ℕ → List ℕ → Bool
mem i [] = false
mem i (x ∷ xs) = if x == i then true else mem i xs

-- What a caller, or a signal, does to a channel.
pub data Call (A R : Type 0) : Type 0 where
  sends : A → Signal R → Call A R
  receives : Signal R → Call A R
  closes : Option R → Call A R
  aborts : ℕ → Option R → Call A R

module _ {A R : Type 0} where
  -- `opts.capacity ?? DEFAULT_CAPACITY`; a capacity that is no natural number is refused as 0 is.
  unfoldable pub create_channel : Option ℕ → Result RangeError (Channel A R)
  create_channel capacity =
      let n : ℕ = elim capacity [ none ↦ 1 | some c ↦ c ] in
      if n == 0
      then err channel_capacity
      else ok (record {
        capacity = n;
        buffer = [];
        senders = [];
        receivers = [];
        close_reason = none;
        is_closed = false;
        listeners = [];
        next_id = 0;
        settled = [];
      })

  -- `cleanup` of a call.
  pub cleanup : Channel A R → ℕ → Channel A R
  cleanup ch i = record ch { listeners = without i ch.listeners }

  -- A promise is resolved or rejected.
  pub settle : Channel A R → Settlement A R → Channel A R
  settle ch s = record ch { settled = ch.settled ++ s ∷ [] }

  pub deliver : Channel A R → ℕ → A → Channel A R
  unfolding cleanup settle
  deliver ch r v = settle (cleanup ch r) (received r v)

  -- The first loop of `pump`: waiting receivers take from the buffer.
  pub pump_buffered : Channel A R → List ℕ → List A → Channel A R
  unfolding deliver
  pump_buffered ch [] buffer = record ch { receivers = []; buffer = buffer }
  pump_buffered ch (r ∷ rs) [] = record ch { receivers = r ∷ rs; buffer = [] }
  pump_buffered ch (r ∷ rs) (v ∷ vs) = pump_buffered (deliver ch r v) rs vs

  pub hand_over : Channel A R → Sender A → ℕ → Channel A R
  unfolding cleanup settle deliver
  hand_over ch s r = settle (deliver (cleanup ch s.id) r s.value) (sent s.id)

  pub store : Channel A R → Sender A → Channel A R
  unfolding cleanup settle
  store ch s = settle (cleanup (record ch { buffer = ch.buffer ++ s.value ∷ [] }) s.id) (sent s.id)

  -- The second loop, while the channel is open: the first sender meets the first receiver, or
  -- leaves its value in the buffer, or waits.
  pub pump_senders : Channel A R → List (Sender A) → List ℕ → Channel A R
  unfolding hand_over store
  pump_senders ch [] rs = record ch { senders = []; receivers = rs }
  pump_senders ch (s ∷ ss) (r ∷ rs) = pump_senders (hand_over ch s r) ss rs
  pump_senders ch (s ∷ ss) [] =
      let rest = pump_senders (store ch s) ss [] in
      if ltb (length ch.buffer) ch.capacity
      then rest
      else record ch { senders = s ∷ ss; receivers = [] }

  pub finish : Channel A R → ℕ → Channel A R
  unfolding cleanup settle
  finish ch r = settle (cleanup ch r) (done r ch.close_reason)

  -- The last loop: the receivers of a closed, empty channel are done.
  pub pump_done : Channel A R → List ℕ → Channel A R
  unfolding finish
  pump_done ch [] = record ch { receivers = [] }
  pump_done ch (r ∷ rs) = pump_done (finish ch r) rs

  -- The loop over the senders runs while the channel is open; the one over the receivers when it is
  -- closed and empty.
  pub pump_open : Channel A R → Channel A R
  pump_open ch = if ch.is_closed then ch else pump_senders ch ch.senders ch.receivers

  pub pump_closed : Channel A R → Channel A R
  pump_closed ch = if ch.is_closed && is_empty ch.buffer then pump_done ch ch.receivers else ch

  pub pump : Channel A R → Channel A R
  pump ch = pump_closed (pump_open (pump_buffered ch ch.receivers ch.buffer))

  -- A call that is refused at once uses up its number and settles its promise.
  pub refuse : Channel A R → Failure R → Channel A R
  refuse ch f = record ch {
    next_id = suc ch.next_id;
    settled = ch.settled ++ rejected ch.next_id f ∷ [];
  }

  pub enqueue_sender : Channel A R → A → Signal R → Channel A R
  unfolding install_abort
  enqueue_sender ch v signal = record ch {
    senders = ch.senders ++ record { id = ch.next_id; value = v } ∷ [];
    listeners = install_abort signal ch.next_id ch.listeners;
    next_id = suc ch.next_id;
  }

  pub enqueue_receiver : Channel A R → Signal R → Channel A R
  unfolding install_abort
  enqueue_receiver ch signal = record ch {
    receivers = ch.receivers ++ ch.next_id ∷ [];
    listeners = install_abort signal ch.next_id ch.listeners;
    next_id = suc ch.next_id;
  }

  send_open : Channel A R → A → Signal R → Channel A R
  unfolding enqueue_sender refuse
  send_open ch v (aborted r) = refuse ch (reason_of r)
  send_open ch v signal = pump (enqueue_sender ch v signal)

  pub send : Channel A R → A → Signal R → Channel A R
  unfolding send_open
  send ch v signal =
      if ch.is_closed then refuse ch (channel_closed ch.close_reason) else send_open ch v signal

  pub receive : Channel A R → Signal R → Channel A R
  unfolding enqueue_receiver refuse
  receive ch (aborted r) = refuse ch (reason_of r)
  receive ch signal = pump (enqueue_receiver ch signal)

  pub reject_sender : Channel A R → Option R → Sender A → Channel A R
  unfolding cleanup settle
  reject_sender ch reason s = settle (cleanup ch s.id) (rejected s.id (channel_closed reason))

  -- The loop of `close`: every waiting sender is rejected.
  pub reject_senders : Channel A R → Option R → List (Sender A) → Channel A R
  unfolding reject_sender
  reject_senders ch reason [] = record ch { senders = [] }
  reject_senders ch reason (s ∷ ss) = reject_senders (reject_sender ch reason s) reason ss

  pub shut : Channel A R → Option R → Channel A R
  shut ch reason = record ch { is_closed = true; close_reason = reason }

  pub close : Channel A R → Option R → Channel A R
  close ch reason =
      if ch.is_closed then ch else pump (reject_senders (shut ch reason) reason ch.senders)

  -- `onAbort` of `installAbort`, run once when the signal of call `i` aborts while its listener is
  -- installed: the call leaves its queue and its promise is rejected.
  pub on_abort : Channel A R → ℕ → Option R → Channel A R
  unfolding cleanup settle
  on_abort ch i reason =
      if mem i ch.listeners
      then settle
          (record (cleanup ch i) {
            senders = keep (λ s. not (s.id == i)) ch.senders;
            receivers = without i ch.receivers;
          })
          (rejected i (reason_of reason))
      else ch

  pub size : Channel A R → ℕ
  size ch = length ch.buffer

  pub step : Channel A R → Call A R → Channel A R
  step ch (sends v signal) = send ch v signal
  step ch (receives signal) = receive ch signal
  step ch (closes reason) = close ch reason
  step ch (aborts i reason) = on_abort ch i reason

  -- Calls run one after another: no call is interrupted, since each body is synchronous.
  pub run : Channel A R → List (Call A R) → Channel A R
  run ch [] = ch
  run ch (c ∷ cs) = run (step ch c) cs
