-- ===== src/Channel/Invariant.antt =====
-- What holds of a channel between two calls (packages/core/src/channel/index.ts).
use workit.Prelude.{
  ℕ, ◌≤◌, ◌<◌, ◌≡◌, refl, ◌⊎◌, inl, ◌≢◌, true, false, Option, List, [], ◌∷◌, length, length-append,
  arith, ok,
}
use workit.Channel.{
  Channel, Sender, Call, Signal, absent, live, aborted, sends, receives, closes, aborts, deliver,
  hand_over, store, finish, reject_sender, pump_buffered, pump_senders, pump_done, pump, pump_open,
  pump_closed, send, receive, close, reject_senders, on_abort, shut, step, run, create_channel,
  enqueue_sender, enqueue_receiver,
}

-- The buffer is within its capacity; nobody waits to receive while a value is buffered, or to send
-- while there is room; a closed channel has no waiting sender, and once empty no waiting receiver.
pub record IsQuiet {A R : Type 0} (ch : Channel A R) : Type 0 where
  pub positive : 0 < ch.capacity
  pub bounded : length ch.buffer ≤ ch.capacity
  pub readers : (ch.receivers ≡ []) ⊎ (ch.buffer ≡ [])
  pub writers : (ch.senders ≡ []) ⊎ (ch.capacity ≤ length ch.buffer)
  pub shut : (ch.is_closed ≡ false) ⊎ (ch.senders ≡ [])
  pub drained : (ch.is_closed ≡ false) ⊎ (ch.buffer ≢ []) ⊎ (ch.receivers ≡ [])

-- What the loops of `pump` need and keep.
record IsSound {A R : Type 0} (ch : Channel A R) : Type 0 where
  positive : 0 < ch.capacity
  bounded : length ch.buffer ≤ ch.capacity
  shut : (ch.is_closed ≡ false) ⊎ (ch.senders ≡ [])

module _ {A R : Type 0} where
  pub buffered_keeps :
      (ch : Channel A R) (rs : List ℕ) (vs : List A)
      → let c = pump_buffered ch rs vs in
        (c.capacity ≡ ch.capacity)
        × (c.is_closed ≡ ch.is_closed)
        × (c.senders ≡ ch.senders)
        × (length c.buffer ≤ length vs)
        × ((c.receivers ≡ []) ⊎ (c.buffer ≡ []))
  unfolding pump_buffered
  buffered_keeps ch [] vs = ground arith
  buffered_keeps ch (r ∷ rs) [] = ground arith
  buffered_keeps ch (r ∷ rs) (v ∷ vs) = ground (arith, buffered_keeps (deliver ch r v) rs vs)

  pub senders_keep :
      (ch : Channel A R) (ss : List (Sender A)) (rs : List ℕ)
      → (rs ≡ []) ⊎ (ch.buffer ≡ [])
      → length ch.buffer ≤ ch.capacity
      → let c = pump_senders ch ss rs in
        (c.capacity ≡ ch.capacity)
        × (c.is_closed ≡ ch.is_closed)
        × (length c.buffer ≤ c.capacity)
        × ((c.receivers ≡ []) ⊎ (c.buffer ≡ []))
        × ((c.senders ≡ []) ⊎ (c.capacity ≤ length c.buffer))
  unfolding pump_senders
  senders_keep ch [] rs one le = ground arith
  senders_keep ch (s ∷ ss) (r ∷ rs) one le = ground (arith, senders_keep (hand_over ch s r) ss rs)
  senders_keep ch (s ∷ ss) [] one le =
      ground
        (arith, length-append ch.buffer (s.value ∷ []), senders_keep (store ch s) ss [] (inl refl))

  pub done_keeps :
      (ch : Channel A R) (rs : List ℕ)
      → let c = pump_done ch rs in
        (c.capacity ≡ ch.capacity)
        × (c.is_closed ≡ ch.is_closed)
        × (c.buffer ≡ ch.buffer)
        × (c.senders ≡ ch.senders)
        × (c.receivers ≡ [])
  unfolding pump_done
  done_keeps ch [] = ground arith
  done_keeps ch (r ∷ rs) = ground (arith, done_keeps (finish ch r) rs)

  -- Before the last loop all holds but `drained`.
  open_keeps :
      (ch : Channel A R)
      → IsSound ch
      → (ch.receivers ≡ []) ⊎ (ch.buffer ≡ [])
      → let c = pump_open ch in
        IsSound c
        × ((c.receivers ≡ []) ⊎ (c.buffer ≡ []))
        × ((c.is_closed ≡ true) ⊎ (c.senders ≡ []) ⊎ (c.capacity ≤ length c.buffer))
  unfolding pump_open
  open_keeps ch v one = ground (arith, senders_keep ch ch.senders ch.receivers one v.bounded)

  pump_closed-IsQuiet :
      (ch : Channel A R)
      → IsSound ch
      → (ch.receivers ≡ []) ⊎ (ch.buffer ≡ [])
      → (ch.is_closed ≡ true) ⊎ (ch.senders ≡ []) ⊎ (ch.capacity ≤ length ch.buffer)
      → IsQuiet (pump_closed ch)
  unfolding pump_closed
  pump_closed-IsQuiet ch v one two = ground (arith, done_keeps ch ch.receivers)

  pump-IsQuiet : (ch : Channel A R) → IsSound ch → IsQuiet (pump ch)
  unfolding pump
  pump-IsQuiet ch v =
      let first = pump_buffered ch ch.receivers ch.buffer in
      let kept = buffered_keeps ch ch.receivers ch.buffer in
      let sound : IsSound first = ground (arith, kept) in
      let (v2, one, two) = open_keeps first sound (ground (arith, kept)) in
      pump_closed-IsQuiet (pump_open first) v2 one two

  send-IsQuiet :
      (ch : Channel A R) (v : A) (signal : Signal R) → IsQuiet ch → IsQuiet (send ch v signal)
  unfolding send enqueue_sender
  send-IsQuiet ch v absent q = ground (arith, pump-IsQuiet (enqueue_sender ch v absent))
  send-IsQuiet ch v live q = ground (arith, pump-IsQuiet (enqueue_sender ch v live))
  send-IsQuiet ch v (aborted r) q = ground arith

  receive-IsQuiet :
      (ch : Channel A R) (signal : Signal R) → IsQuiet ch → IsQuiet (receive ch signal)
  unfolding receive
  receive-IsQuiet ch absent q =
      pump-IsQuiet (enqueue_receiver ch absent) (unfold enqueue_receiver in ground arith)
  receive-IsQuiet ch live q =
      pump-IsQuiet (enqueue_receiver ch live) (unfold enqueue_receiver in ground arith)
  receive-IsQuiet ch (aborted r) q = ground arith

  pub rejects_keep :
      (ch : Channel A R) (reason : Option R) (ss : List (Sender A))
      → let c = reject_senders ch reason ss in
        (c.capacity ≡ ch.capacity)
        × (c.is_closed ≡ ch.is_closed)
        × (c.buffer ≡ ch.buffer)
        × (c.receivers ≡ ch.receivers)
        × (c.senders ≡ [])
  unfolding reject_senders
  rejects_keep ch reason [] = ground arith
  rejects_keep ch reason (s ∷ ss) =
      ground (arith, rejects_keep (reject_sender ch reason s) reason ss)

  shut_pump-IsQuiet :
      (ch : Channel A R) (reason : Option R)
      → IsQuiet ch
      → IsQuiet (pump (reject_senders (shut ch reason) reason ch.senders))
  unfolding shut
  shut_pump-IsQuiet ch reason q =
      pump-IsQuiet _ (ground (arith, rejects_keep (shut ch reason) reason ch.senders))

  close-IsQuiet : (ch : Channel A R) (reason : Option R) → IsQuiet ch → IsQuiet (close ch reason)
  unfolding close
  close-IsQuiet ch reason q = ground (arith, shut_pump-IsQuiet ch reason q)

  on_abort-IsQuiet :
      (ch : Channel A R) (i : ℕ) (reason : Option R) → IsQuiet ch → IsQuiet (on_abort ch i reason)
  unfolding on_abort
  on_abort-IsQuiet ch i reason q = ground arith

  -- Every call, and every abort of a signal, leaves the channel quiet.
  pub step-IsQuiet : (ch : Channel A R) (c : Call A R) → IsQuiet ch → IsQuiet (step ch c)
  unfolding step
  step-IsQuiet ch (sends v signal) q = send-IsQuiet ch v signal q
  step-IsQuiet ch (receives signal) q = receive-IsQuiet ch signal q
  step-IsQuiet ch (closes reason) q = close-IsQuiet ch reason q
  step-IsQuiet ch (aborts i reason) q = on_abort-IsQuiet ch i reason q

  pub run-IsQuiet : (ch : Channel A R) (cs : List (Call A R)) → IsQuiet ch → IsQuiet (run ch cs)
  unfolding run
  run-IsQuiet ch [] q = q
  run-IsQuiet ch (c ∷ cs) q = run-IsQuiet (step ch c) cs (step-IsQuiet ch c q)

  create-IsQuiet :
      (capacity : Option ℕ) (ch : Channel A R) → create_channel capacity ≡ ok ch → IsQuiet ch
  unfolding create_channel
  create-IsQuiet capacity ch e = ground arith

  -- A new channel, after any calls, keeps its buffer within its capacity and has no one waiting who
  -- could be served: no receiver beside a buffered value, no sender beside free room, no sender of a
  -- closed channel and no receiver of a closed, empty one.
  pub create-run-IsQuiet :
      (capacity : Option ℕ) (ch : Channel A R) (cs : List (Call A R))
      → create_channel capacity ≡ ok ch
      → IsQuiet (run ch cs)
  create-run-IsQuiet capacity ch cs e = run-IsQuiet ch cs (create-IsQuiet capacity ch e)
