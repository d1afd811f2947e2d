-- ===== src/Engine/EventBus/Handlers.antt =====
-- The handlers of a bus (packages/core/src/engine/event-bus.ts, `on` and what it returns).
use workit.Prelude.{
  ℕ, ◌≤◌, ◌<◌, ◌≡◌, refl, Bool, false, not, List, [], ◌∷◌, ◌++◌, length, length-append, count,
  count-append, keep, ◌==◌, ok, err, arith,
}
use workit.Engine.EventBus.{EventBus, create, on, unsubscribe, member, max_event_handlers}

-- The calls on a bus that change its handlers.
pub data Subscription : Type 0 where
  registers unsubscribes : ℕ → Subscription

-- A registration that is refused leaves the bus as it is.
unfoldable pub subscribe : EventBus → Subscription → EventBus
unfolding on unsubscribe
subscribe bus (registers h) = elim (on h bus) [ ok next ↦ next | err e ↦ bus ]
subscribe bus (unsubscribes h) = unsubscribe h bus

unfoldable pub subscribe_all : EventBus → List Subscription → EventBus
unfolding subscribe
subscribe_all bus [] = bus
subscribe_all bus (s ∷ ss) = subscribe_all (subscribe bus s) ss

-- No handler stands twice among at most the largest number of them.
abbrev pub IsHandled : List ℕ → Type 0
IsHandled hs = ((k : ℕ) → count k hs ≤ 1) × (length hs ≤ max_event_handlers)

member-false : (h : ℕ) (hs : List ℕ) → member h hs ≡ false → count h hs ≡ 0
member-false h [] e = refl
member-false h (k ∷ ks) e = ground (arith, member-false h ks)

length-keep : (p : ℕ → Bool) (hs : List ℕ) → length (keep p hs) ≤ length hs
length-keep p [] = omega arith
length-keep p (k ∷ ks) = ground (arith, length-keep p ks)

count-keep : (n : ℕ) (p : ℕ → Bool) (hs : List ℕ) → count n (keep p hs) ≤ count n hs
count-keep n p [] = omega arith
count-keep n p (k ∷ ks) = ground (arith, count-keep n p ks)

count-keep-other : (h : ℕ) (hs : List ℕ) → count h (keep (λ k. not (k == h)) hs) ≡ 0
count-keep-other h [] = refl
count-keep-other h (k ∷ ks) = ground (arith, count-keep-other h ks)

added-IsHandled :
    (h : ℕ) (hs : List ℕ)
    → IsHandled hs
    → member h hs ≡ false
    → length hs < max_event_handlers
    → IsHandled (hs ++ h ∷ [])
added-IsHandled h hs (once, le) e lt = (λ k. added k, omega (arith, length-append hs (h ∷ [])))
  where
    added : (k : ℕ) → count k (hs ++ h ∷ []) ≤ 1
    added k = ground (arith, count-append k hs (h ∷ []), once k, member-false h hs e)

subscribe-IsHandled :
    (bus : EventBus) (s : Subscription)
    → IsHandled bus.handlers
    → IsHandled (subscribe bus s).handlers
unfolding subscribe on unsubscribe
subscribe-IsHandled bus (registers h) i = ground (arith, added-IsHandled h bus.handlers i)
subscribe-IsHandled bus (unsubscribes h) (once, le) = (
  λ k. omega (arith, once k, count-keep k (λ j. not (j == h)) bus.handlers),
  omega (arith, length-keep (λ j. not (j == h)) bus.handlers),
)

subscribe_all-IsHandled :
    (bus : EventBus) (ss : List Subscription)
    → IsHandled bus.handlers
    → IsHandled (subscribe_all bus ss).handlers
unfolding subscribe_all
subscribe_all-IsHandled bus [] i = i
subscribe_all-IsHandled bus (s ∷ ss) i =
    subscribe_all-IsHandled (subscribe bus s) ss (subscribe-IsHandled bus s i)

-- After any registrations and unsubscriptions on a new bus no handler is registered twice, there are
-- at most 10,000 of them, and right after an unsubscription its handler is not registered.
pub subscribe_all-create-IsHandled :
    (ss : List Subscription) (h : ℕ)
    → IsHandled (subscribe_all create ss).handlers
      × (count h (unsubscribe h (subscribe_all create ss)).handlers ≡ 0)
unfolding unsubscribe
subscribe_all-create-IsHandled ss h = (
  subscribe_all-IsHandled create ss ((λ k. omega arith), omega arith),
  count-keep-other h (subscribe_all create ss).handlers,
)
