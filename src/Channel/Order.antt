-- ===== src/Channel/Order.antt =====
-- What goes through a channel comes out in order (packages/core/src/channel/index.ts).
use workit.Prelude.{
  ℕ, ◌≡◌, refl, ap, ◌∙◌, ◌⊎◌, ◌≢◌, inl, inr, false, Option, List, [], ◌∷◌, ◌++◌, map, append-nil,
  append_assoc, map-append, arith,
}
use workit.Channel.{
  Channel, Sender, Signal, Settlement, sent, received, done, rejected, absent, live, aborted,
  deliver, hand_over, store, finish, pump_buffered, pump_senders, pump_done, pump, pump_open,
  pump_closed, send, receive, enqueue_sender, enqueue_receiver, refuse, Failure, reason_of,
}
use workit.Channel.Invariant.{buffered_keeps}

abbrev pub values : {A : Type 0} → List (Sender A) → List A
values = map λ s. s.value

module _ {A R : Type 0} where
  -- The values that receivers were given, oldest first.
  abbrev pub delivered : List (Settlement A R) → List A
  delivered [] = []
  delivered (received i v ∷ l) = v ∷ delivered l
  delivered (sent i ∷ l) = delivered l
  delivered (done i r ∷ l) = delivered l
  delivered (rejected i f ∷ l) = delivered l

  -- All values the channel took in and did not give up: delivered, buffered, waiting.
  abbrev pub history : Channel A R → List A
  history ch = delivered ch.settled ++ (ch.buffer ++ values ch.senders)

  pub delivered-append :
      (k l : List (Settlement A R)) → delivered (k ++ l) ≡ delivered k ++ delivered l
  delivered-append [] l = refl
  delivered-append (received i v ∷ k) l = ap (◌∷◌ v) (delivered-append k l)
  delivered-append (sent i ∷ k) l = delivered-append k l
  delivered-append (done i r ∷ k) l = delivered-append k l
  delivered-append (rejected i f ∷ k) l = delivered-append k l

  pump_buffered-history :
      (ch : Channel A R) (rs : List ℕ) (vs : List A)
      → history (pump_buffered ch rs vs) ≡ delivered ch.settled ++ (vs ++ values ch.senders)
  unfolding pump_buffered
  pump_buffered-history ch [] vs = refl
  pump_buffered-history ch (r ∷ rs) [] = refl
  pump_buffered-history ch (r ∷ rs) (v ∷ vs) =
      pump_buffered-history (deliver ch r v) rs vs ∙ simp (delivered-append, append_assoc)

  store-history :
      (ch : Channel A R) (s : Sender A) (ss : List (Sender A))
      → let c = store ch s in
        delivered c.settled ++ (c.buffer ++ values ss)
        ≡ delivered ch.settled ++ (ch.buffer ++ s.value ∷ values ss)
  unfolding store
  store-history ch s ss = simp (delivered-append, append_assoc, append-nil)

  pump_senders-history :
      (ch : Channel A R) (ss : List (Sender A)) (rs : List ℕ)
      → (rs ≡ []) ⊎ (ch.buffer ≡ [])
      → history (pump_senders ch ss rs) ≡ delivered ch.settled ++ (ch.buffer ++ values ss)
  unfolding pump_senders
  pump_senders-history ch [] rs one = refl
  pump_senders-history ch (s ∷ ss) (r ∷ rs) (inl e) = cc
  pump_senders-history ch (s ∷ ss) (r ∷ rs) (inr e) =
      pump_senders-history (hand_over ch s r) ss rs (inr e)
      ∙ simp (delivered-append, append_assoc, e)
  pump_senders-history ch (s ∷ ss) [] one =
      ground (arith, pump_senders-history (store ch s) ss [] (inl refl), store-history ch s ss)

  pump_done-history : (ch : Channel A R) (rs : List ℕ) → history (pump_done ch rs) ≡ history ch
  unfolding pump_done
  pump_done-history ch [] = refl
  pump_done-history ch (r ∷ rs) =
      pump_done-history (finish ch r) rs ∙ simp (delivered-append, append-nil)

  pump_open-history :
      (ch : Channel A R)
      → (ch.receivers ≡ []) ⊎ (ch.buffer ≡ [])
      → history (pump_open ch) ≡ history ch
  unfolding pump_open
  pump_open-history ch one = ground (arith, pump_senders-history ch ch.senders ch.receivers one)

  pump_closed-history : (ch : Channel A R) → history (pump_closed ch) ≡ history ch
  unfolding pump_closed
  pump_closed-history ch = ground (arith, pump_done-history ch ch.receivers)

  pub pump-history : (ch : Channel A R) → history (pump ch) ≡ history ch
  unfolding pump
  pump-history ch =
      let first = pump_buffered ch ch.receivers ch.buffer in
      let one : (first.receivers ≡ []) ⊎ (first.buffer ≡ []) =
        ground (arith, buffered_keeps ch ch.receivers ch.buffer) in
      pump_closed-history (pump_open first)
      ∙ pump_open-history first one
      ∙ pump_buffered-history ch ch.receivers ch.buffer

  enqueue-history :
      (ch : Channel A R) (v : A) (signal : Signal R)
      → history (enqueue_sender ch v signal) ≡ history ch ++ v ∷ []
  unfolding enqueue_sender
  enqueue-history ch v signal = simp (map-append, append_assoc)

  -- A send that is not refused at once adds its value behind all others.
  pub send-history :
      (ch : Channel A R) (v : A) (signal : Signal R)
      → ch.is_closed ≡ false
      → ((r : Option R) → signal ≢ aborted r)
      → history (send ch v signal) ≡ history ch ++ v ∷ []
  unfolding send
  send-history ch v absent e h =
      ground (arith, pump-history (enqueue_sender ch v absent), enqueue-history ch v absent)
  send-history ch v live e h =
      ground (arith, pump-history (enqueue_sender ch v live), enqueue-history ch v live)
  send-history ch v (aborted r) e h = absurd (h r refl)

  pub refuse-history : (ch : Channel A R) (f : Failure R) → history (refuse ch f) ≡ history ch
  unfolding refuse
  refuse-history ch f = simp (delivered-append, append-nil)

  pub receive-history :
      (ch : Channel A R) (signal : Signal R) → history (receive ch signal) ≡ history ch
  unfolding receive enqueue_receiver
  receive-history ch absent = pump-history (enqueue_receiver ch absent)
  receive-history ch live = pump-history (enqueue_receiver ch live)
  receive-history ch (aborted r) = refuse-history ch (reason_of r)
