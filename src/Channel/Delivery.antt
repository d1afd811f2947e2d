-- ===== src/Channel/Delivery.antt =====
-- Whole histories of a channel: nothing is made up, doubled or reordered, and without closing or
-- aborting nothing is lost (packages/core/src/channel/index.ts).
use mathlib.Core.List.{Sublist, sublist-append_left, append-nil}
use mathlib.Core.List.Sublist
use workit.Prelude.{
  ℕ, ◌≡◌, refl, ap, subst, ◌∙◌, Bool, true, false, ◌&&◌, Option, List, [], ◌∷◌, ◌++◌, keep,
  append_assoc, Bool-cases, sym, inl, inr, arith,
}
use workit.Channel.{
  mem, Channel, Sender, Call, Signal, absent, live, aborted, sends, receives, closes, aborts, pump,
  pump_open, pump_closed, pump_buffered, pump_senders, hand_over, store, send, receive, refuse,
  close, reject_senders, reject_sender, shut, on_abort, step, run, enqueue_sender, enqueue_receiver,
  channel_closed, reason_of,
}
use workit.Channel.Invariant.{buffered_keeps, done_keeps, rejects_keep}
use workit.Channel.Order.{
  delivered, values, history, delivered-append, pump-history, send-history, receive-history,
  refuse-history,
}

chain :
    {A : Type 0} (xs ys zs us vs : List A)
    → Sublist xs (ys ++ zs)
    → Sublist ys (us ++ vs)
    → Sublist xs (us ++ (vs ++ zs))
chain xs ys zs us vs h k =
    Sublist.trans h
      (subst (Sublist (ys ++ zs)) (append_assoc us vs zs) (Sublist.append k (Sublist.refl zs)))

values-keep :
    {A : Type 0} (p : Sender A → Bool) (ss : List (Sender A))
    → Sublist (values (keep p ss)) (values ss)
values-keep p [] = Sublist.refl _
values-keep p (s ∷ ss) =
    elim (p s)
      as (λ b.
        Sublist (values (elim b [ true ↦ s ∷ keep p ss | false ↦ keep p ss ])) (values (s ∷ ss))) [
          | true ↦ Sublist.cons-cons s.value (values-keep p ss)
          | false ↦ Sublist.cons s.value (values-keep p ss)
        ]

module _ {A R : Type 0} where
  -- The values that a call offers.
  abbrev pub offers : Call A R → List A
  offers (sends v signal) = v ∷ []
  offers (receives signal) = []
  offers (closes reason) = []
  offers (aborts i reason) = []

  abbrev pub offered : List (Call A R) → List A
  offered [] = []
  offered (c ∷ cs) = offers c ++ offered cs

  -- A call that takes nothing back: a send or a receive whose signal has not aborted.
  abbrev pub is_plain : Call A R → Bool
  is_plain (sends v absent) = true
  is_plain (sends v live) = true
  is_plain (receives signal) = true
  is_plain _ = false

  abbrev pub are_plain : List (Call A R) → Bool
  are_plain [] = true
  are_plain (c ∷ cs) = is_plain c && are_plain cs

  reject_senders-settled :
      (ch : Channel A R) (reason : Option R) (ss : List (Sender A))
      → delivered (reject_senders ch reason ss).settled ≡ delivered ch.settled
  unfolding reject_senders
  reject_senders-settled ch reason [] = refl
  reject_senders-settled ch reason (s ∷ ss) =
      reject_senders-settled (reject_sender ch reason s) reason ss
      ∙ simp (delivered-append, append-nil)

  -- Closing gives up what waits, and keeps what is delivered or buffered.
  close-history :
      (ch : Channel A R) (reason : Option R)
      → ch.is_closed ≡ false
      → history (close ch reason) ≡ delivered ch.settled ++ ch.buffer
  unfolding close shut
  close-history ch reason e =
      let c = reject_senders (shut ch reason) reason ch.senders in
      ground (
        arith,
        pump-history c,
        reject_senders-settled (shut ch reason) reason ch.senders,
        rejects_keep (shut ch reason) reason ch.senders,
        append-nil ch.buffer,
      )

  on_abort-history :
      (ch : Channel A R) (i : ℕ) (reason : Option R)
      → Sublist (history (on_abort ch i reason)) (history ch)
  unfolding on_abort
  on_abort-history ch i reason = elim (Bool-cases (mem i ch.listeners)) [
    | inl e ↦
        rw (e, on_abort)
          (rw (delivered-append, append-nil)
            (Sublist.append (Sublist.refl _)
              (Sublist.append (Sublist.refl _) (values-keep _ ch.senders))))
    | inr e ↦ rw (e, on_abort) (Sublist.refl _)
  ]

  closed_send :
      (ch : Channel A R) (v : A) (signal : Signal R)
      → ch.is_closed ≡ true
      → history (send ch v signal) ≡ history (refuse ch (channel_closed ch.close_reason))
  unfolding send
  closed_send ch v signal e = ground arith

  aborted_send :
      (ch : Channel A R) (v : A) (r : Option R)
      → ch.is_closed ≡ false
      → history (send ch v (aborted r)) ≡ history (refuse ch (reason_of r))
  unfolding send
  aborted_send ch v r e = ground arith

  closed_close :
      (ch : Channel A R) (reason : Option R)
      → ch.is_closed ≡ true
      → history (close ch reason) ≡ history ch
  unfolding close
  closed_close ch reason e = ground arith

  send-sublist :
      (ch : Channel A R) (v : A) (signal : Signal R)
      → Sublist (history (send ch v signal)) (history ch ++ v ∷ [])
  send-sublist ch v signal = elim (Bool-cases ch.is_closed) [
    | inl e ↦
        rw (closed_send ch v signal e ∙ refuse-history ch (channel_closed ch.close_reason))
          (sublist-append_left _ _)
    | inr e ↦ open_send signal e
  ]
    where
      open_send :
          (signal : Signal R)
          → ch.is_closed ≡ false
          → Sublist (history (send ch v signal)) (history ch ++ v ∷ [])
      open_send absent e = rw (send-history ch v absent e (λ r h. cc)) (Sublist.refl _)
      open_send live e = rw (send-history ch v live e (λ r h. cc)) (Sublist.refl _)
      open_send (aborted r) e =
          rw (aborted_send ch v r e ∙ refuse-history ch (reason_of r)) (sublist-append_left _ _)

  close-sublist :
      (ch : Channel A R) (reason : Option R) → Sublist (history (close ch reason)) (history ch)
  close-sublist ch reason = elim (Bool-cases ch.is_closed) [
    | inl e ↦ rw (closed_close ch reason e) (Sublist.refl _)
    | inr e ↦
        rw (close-history ch reason e)
          (Sublist.append (Sublist.refl _) (sublist-append_left ch.buffer _))
  ]

  step-sublist :
      (ch : Channel A R) (c : Call A R) → Sublist (history (step ch c)) (history ch ++ offers c)
  unfolding step
  step-sublist ch (sends v signal) = send-sublist ch v signal
  step-sublist ch (receives signal) = rw (receive-history ch signal, append-nil) (Sublist.refl _)
  step-sublist ch (closes reason) = rw append-nil (close-sublist ch reason)
  step-sublist ch (aborts i reason) = rw append-nil (on_abort-history ch i reason)

  -- Whatever is sent, received, aborted and closed, in any order: the values that receivers were
  -- given are values that were offered (or in the channel before), each at most as often and in
  -- the same order.
  pub delivered-run-sublist :
      (ch : Channel A R) (cs : List (Call A R))
      → Sublist (delivered (run ch cs).settled) (history ch ++ offered cs)
  unfolding run
  delivered-run-sublist ch [] = rw append-nil (sublist-append_left _ _)
  delivered-run-sublist ch (c ∷ cs) =
      chain _ (history (step ch c)) (offered cs) (history ch) (offers c)
        (delivered-run-sublist (step ch c) cs) (step-sublist ch c)

  pump_senders-is_closed :
      (ch : Channel A R) (ss : List (Sender A)) (rs : List ℕ)
      → (pump_senders ch ss rs).is_closed ≡ ch.is_closed
  unfolding pump_senders
  pump_senders-is_closed ch [] rs = refl
  pump_senders-is_closed ch (s ∷ ss) (r ∷ rs) = pump_senders-is_closed (hand_over ch s r) ss rs
  pump_senders-is_closed ch (s ∷ ss) [] = ground (arith, pump_senders-is_closed (store ch s) ss [])

  pump-is_closed : (ch : Channel A R) → (pump ch).is_closed ≡ ch.is_closed
  unfolding pump pump_open pump_closed
  pump-is_closed ch =
      let one = pump_buffered ch ch.receivers ch.buffer in
      let two = pump_open one in
      ground (
        arith,
        buffered_keeps ch ch.receivers ch.buffer,
        pump_senders-is_closed one one.senders one.receivers,
        done_keeps two two.receivers,
      )

  plain-is_closed :
      (ch : Channel A R) (c : Call A R)
      → is_plain c ≡ true
      → ch.is_closed ≡ false
      → (step ch c).is_closed ≡ false
  unfolding step send receive enqueue_sender enqueue_receiver
  plain-is_closed ch (sends v absent) p o =
      ground (arith, pump-is_closed (enqueue_sender ch v absent))
  plain-is_closed ch (sends v live) p o = ground (arith, pump-is_closed (enqueue_sender ch v live))
  plain-is_closed ch (sends v (aborted r)) p o = cc
  plain-is_closed ch (receives absent) p o = pump-is_closed (enqueue_receiver ch absent) ∙ o
  plain-is_closed ch (receives live) p o = pump-is_closed (enqueue_receiver ch live) ∙ o
  plain-is_closed ch (receives (aborted r)) p o = o
  plain-is_closed ch (closes r) p o = cc
  plain-is_closed ch (aborts i r) p o = cc

  plain-history :
      (ch : Channel A R) (c : Call A R)
      → is_plain c ≡ true
      → ch.is_closed ≡ false
      → history (step ch c) ≡ history ch ++ offers c
  unfolding step
  plain-history ch (sends v absent) p o = send-history ch v absent o (λ r h. cc)
  plain-history ch (sends v live) p o = send-history ch v live o (λ r h. cc)
  plain-history ch (sends v (aborted r)) p o = cc
  plain-history ch (receives signal) p o = receive-history ch signal ∙ sym (append-nil _)
  plain-history ch (closes r) p o = cc
  plain-history ch (aborts i r) p o = cc

  -- While only sends and receives are made, with no aborted send, and the channel is open, every
  -- offered value is delivered, buffered or waiting, and in the order of the sends.
  pub run-history :
      (ch : Channel A R) (cs : List (Call A R))
      → ch.is_closed ≡ false
      → are_plain cs ≡ true
      → history (run ch cs) ≡ history ch ++ offered cs
  unfolding run
  run-history ch [] o p = sym (append-nil _)
  run-history ch (c ∷ cs) o p =
      run-history (step ch c) cs (plain-is_closed ch c (ground arith) o) (ground arith)
      ∙ ap (λ xs. xs ++ offered cs) (plain-history ch c (ground arith) o)
      ∙ append_assoc (history ch) (offers c) (offered cs)
