-- ===== src/Channel/Promises.antt =====
-- Each call's promise is settled at most once, and no abort listener outlives its call
-- (packages/core/src/channel/index.ts).
use workit.Prelude.{
  ℕ, suc, ◌+◌, ◌≤◌, ◌<◌, ◌≡◌, true, false, not, Option, List, [], ◌∷◌, ◌++◌, map, map-append, keep,
  count, count-append, ltb, ◌==◌, if◌then◌else◌, arith, ok,
}
use workit.Channel.{
  Channel, Sender, Call, Signal, Settlement, Failure, channel_closed, reason_of, sent, received,
  done, rejected, absent, live, aborted, sends, receives, closes, aborts, without, mem, deliver,
  hand_over, store, finish, reject_sender, pump_buffered, pump_senders, pump_done, pump, pump_open,
  pump_closed, send, receive, close, reject_senders, on_abort, shut, step, run, enqueue_sender,
  enqueue_receiver, refuse, create_channel,
}

module _ {A R : Type 0} where
  abbrev pub promise : Settlement A R → ℕ
  promise (sent i) = i
  promise (received i v) = i
  promise (done i r) = i
  promise (rejected i f) = i

  -- How often the promise of call `i` was settled.
  abbrev pub settlements : ℕ → List (Settlement A R) → ℕ
  settlements i l = count i (map promise l)

  settlements-append :
      (i : ℕ) (k l : List (Settlement A R))
      → settlements i (k ++ l) ≡ settlements i k + settlements i l
  settlements-append i k l = rw map-append (count-append i (map promise k) (map promise l))

abbrev count_ids : {A : Type 0} → ℕ → List (Sender A) → ℕ
count_ids i [] = 0
count_ids i (s ∷ ss) =
    let rest = count_ids i ss in elim (s.id == i) [ true ↦ suc rest | false ↦ rest ]

count_ids-append :
    {A : Type 0} (i : ℕ) (xs ys : List (Sender A))
    → count_ids i (xs ++ ys) ≡ count_ids i xs + count_ids i ys
count_ids-append i [] ys = omega arith
count_ids-append i (x ∷ xs) ys = ground (arith, count_ids-append i xs ys)

count-without :
    (i j : ℕ) (ls : List ℕ) → count i (without j ls) ≡ (if i == j then 0 else count i ls)
count-without i j [] = ground arith
count-without i j (l ∷ ls) = ground (arith, count-without i j ls)

count_ids-keep :
    {A : Type 0} (i j : ℕ) (ss : List (Sender A))
    → count_ids i (keep (λ s. not (s.id == j)) ss) ≡ (if i == j then 0 else count_ids i ss)
count_ids-keep i j [] = ground arith
count_ids-keep i j (s ∷ ss) = ground (arith, count_ids-keep i j ss)

mem-count : (i : ℕ) (ls : List ℕ) → mem i ls ≡ true → 0 < count i ls
mem-count i [] h = cc
mem-count i (l ∷ ls) h = ground (arith, mem-count i ls)

module _ {A R : Type 0} where
  abbrev pub waiting : ℕ → Channel A R → ℕ
  waiting i ch = count_ids i ch.senders + count i ch.receivers

  -- A promise is settled once or its call waits, for each call made, and neither for others; and
  -- a listener is installed for a waiting call only.
  pub record IsAccounted (ch : Channel A R) (i : ℕ) : Type 0 where
    pub once : settlements i ch.settled + waiting i ch ≡ (if ltb i ch.next_id then 1 else 0)
    pub no_leak : count i ch.listeners ≤ waiting i ch

  -- The same while a loop has taken the calls `ss` and `rs` out of the queues.
  record IsSplit (i : ℕ) (ch c : Channel A R) (out : ℕ) : Type 0 where
    total : settlements i c.settled + waiting i c ≡ settlements i ch.settled + out
    leak : count i ch.listeners ≤ out → count i c.listeners ≤ waiting i c
    next : c.next_id ≡ ch.next_id

  buffered-IsSplit :
      (i : ℕ) (ch : Channel A R) (rs : List ℕ) (vs : List A)
      → IsSplit i ch (pump_buffered ch rs vs) (count_ids i ch.senders + count i rs)
  unfolding pump_buffered
  buffered-IsSplit i ch [] vs = ground arith
  buffered-IsSplit i ch (r ∷ rs) [] = ground arith
  buffered-IsSplit i ch (r ∷ rs) (v ∷ vs) = ground (
    arith,
    buffered-IsSplit i (deliver ch r v) rs vs,
    settlements-append i ch.settled (received r v ∷ []),
    count-without i r ch.listeners,
  )

  senders-IsSplit :
      (i : ℕ) (ch : Channel A R) (ss : List (Sender A)) (rs : List ℕ)
      → IsSplit i ch (pump_senders ch ss rs) (count_ids i ss + count i rs)
  unfolding pump_senders
  senders-IsSplit i ch [] rs = ground arith
  senders-IsSplit i ch (s ∷ ss) (r ∷ rs) = ground (
    arith,
    senders-IsSplit i (hand_over ch s r) ss rs,
    settlements-append i ch.settled (received r s.value ∷ []),
    settlements-append i (ch.settled ++ received r s.value ∷ []) (sent s.id ∷ []),
    count-without i r (without s.id ch.listeners),
    count-without i s.id ch.listeners,
  )
  senders-IsSplit i ch (s ∷ ss) [] = ground (
    arith,
    senders-IsSplit i (store ch s) ss [],
    settlements-append i ch.settled (sent s.id ∷ []),
    count-without i s.id ch.listeners,
  )

  done-IsSplit :
      (i : ℕ) (ch : Channel A R) (rs : List ℕ)
      → IsSplit i ch (pump_done ch rs) (count_ids i ch.senders + count i rs)
  unfolding pump_done
  done-IsSplit i ch [] = ground arith
  done-IsSplit i ch (r ∷ rs) = ground (
    arith,
    done-IsSplit i (finish ch r) rs,
    settlements-append i ch.settled (done r ch.close_reason ∷ []),
    count-without i r ch.listeners,
  )

  rejects-IsSplit :
      (i : ℕ) (ch : Channel A R) (reason : Option R) (ss : List (Sender A))
      → IsSplit i ch (reject_senders ch reason ss) (count_ids i ss + count i ch.receivers)
  unfolding reject_senders
  rejects-IsSplit i ch reason [] = ground arith
  rejects-IsSplit i ch reason (s ∷ ss) = ground (
    arith,
    rejects-IsSplit i (reject_sender ch reason s) reason ss,
    settlements-append i ch.settled (rejected s.id (channel_closed reason) ∷ []),
    count-without i s.id ch.listeners,
  )

  pump-IsAccounted : (i : ℕ) (ch : Channel A R) → IsAccounted ch i → IsAccounted (pump ch) i
  unfolding pump pump_open pump_closed
  pump-IsAccounted i ch a =
      let one = pump_buffered ch ch.receivers ch.buffer in
      let two = pump_open one in
      ground (
        arith,
        buffered-IsSplit i ch ch.receivers ch.buffer,
        senders-IsSplit i one one.senders one.receivers,
        done-IsSplit i two two.receivers,
      )

  refuse-IsAccounted :
      (i : ℕ) (ch : Channel A R) (f : Failure R) → IsAccounted ch i → IsAccounted (refuse ch f) i
  unfolding refuse
  refuse-IsAccounted i ch f a =
      ground (arith, settlements-append i ch.settled (rejected ch.next_id f ∷ []))

  enqueue_sender-IsAccounted :
      (i : ℕ) (ch : Channel A R) (v : A) (signal : Signal R)
      → IsAccounted ch i
      → IsAccounted (enqueue_sender ch v signal) i
  unfolding enqueue_sender
  enqueue_sender-IsAccounted i ch v signal a = ground (
    arith,
    count_ids-append i ch.senders (record { id = ch.next_id; value = v } ∷ []),
    count-append i ch.listeners (ch.next_id ∷ []),
  )

  enqueue_receiver-IsAccounted :
      (i : ℕ) (ch : Channel A R) (signal : Signal R)
      → IsAccounted ch i
      → IsAccounted (enqueue_receiver ch signal) i
  unfolding enqueue_receiver
  enqueue_receiver-IsAccounted i ch signal a = ground (
    arith,
    count-append i ch.receivers (ch.next_id ∷ []),
    count-append i ch.listeners (ch.next_id ∷ []),
  )

  send-IsAccounted :
      (i : ℕ) (ch : Channel A R) (v : A) (signal : Signal R)
      → IsAccounted ch i
      → IsAccounted (send ch v signal) i
  unfolding send
  send-IsAccounted i ch v absent a =
      let shut = refuse-IsAccounted i ch (channel_closed ch.close_reason) a in
      ground (arith, shut, pump-IsAccounted i _ (enqueue_sender-IsAccounted i ch v absent a))
  send-IsAccounted i ch v live a = ground (
    arith,
    refuse-IsAccounted i ch (channel_closed ch.close_reason) a,
    pump-IsAccounted i _ (enqueue_sender-IsAccounted i ch v live a),
  )
  send-IsAccounted i ch v (aborted r) a = ground (
    arith,
    refuse-IsAccounted i ch (channel_closed ch.close_reason) a,
    refuse-IsAccounted i ch (reason_of r) a,
  )

  receive-IsAccounted :
      (i : ℕ) (ch : Channel A R) (signal : Signal R)
      → IsAccounted ch i
      → IsAccounted (receive ch signal) i
  unfolding receive
  receive-IsAccounted i ch absent a =
      pump-IsAccounted i _ (enqueue_receiver-IsAccounted i ch absent a)
  receive-IsAccounted i ch live a = pump-IsAccounted i _ (enqueue_receiver-IsAccounted i ch live a)
  receive-IsAccounted i ch (aborted r) a = refuse-IsAccounted i ch (reason_of r) a

  close_open-IsAccounted :
      (i : ℕ) (ch : Channel A R) (reason : Option R)
      → IsAccounted ch i
      → IsAccounted (pump (reject_senders (shut ch reason) reason ch.senders)) i
  unfolding shut
  close_open-IsAccounted i ch reason a =
      pump-IsAccounted i _ (ground (arith, rejects-IsSplit i (shut ch reason) reason ch.senders))

  close-IsAccounted :
      (i : ℕ) (ch : Channel A R) (reason : Option R)
      → IsAccounted ch i
      → IsAccounted (close ch reason) i
  unfolding close
  close-IsAccounted i ch reason a = ground (arith, close_open-IsAccounted i ch reason a)

  on_abort-IsAccounted :
      (i j : ℕ) (ch : Channel A R) (reason : Option R)
      → IsAccounted ch i
      → IsAccounted (on_abort ch j reason) i
  unfolding on_abort
  on_abort-IsAccounted i j ch reason a = ground (
    arith,
    settlements-append i ch.settled (rejected j (reason_of reason) ∷ []),
    count-without i j ch.listeners,
    count-without i j ch.receivers,
    count_ids-keep i j ch.senders,
    mem-count j ch.listeners,
  )

  step-IsAccounted :
      (i : ℕ) (ch : Channel A R) (c : Call A R) → IsAccounted ch i → IsAccounted (step ch c) i
  unfolding step
  step-IsAccounted i ch (sends v signal) a = send-IsAccounted i ch v signal a
  step-IsAccounted i ch (receives signal) a = receive-IsAccounted i ch signal a
  step-IsAccounted i ch (closes reason) a = close-IsAccounted i ch reason a
  step-IsAccounted i ch (aborts j reason) a = on_abort-IsAccounted i j ch reason a

  run-IsAccounted :
      (i : ℕ) (ch : Channel A R) (cs : List (Call A R))
      → IsAccounted ch i
      → IsAccounted (run ch cs) i
  unfolding run
  run-IsAccounted i ch [] a = a
  run-IsAccounted i ch (c ∷ cs) a = run-IsAccounted i (step ch c) cs (step-IsAccounted i ch c a)

  -- After any calls on a new channel, the promise of a call that was made is either settled exactly
  -- once or its call waits exactly once, that of any other number is neither, and abort listeners
  -- are installed for waiting calls only.
  pub create-run-IsAccounted :
      (capacity : Option ℕ) (ch : Channel A R) (cs : List (Call A R)) (i : ℕ)
      → create_channel capacity ≡ ok ch
      → IsAccounted (run ch cs) i
  unfolding create_channel
  create-run-IsAccounted capacity ch cs i e = run-IsAccounted i ch cs (ground arith)
