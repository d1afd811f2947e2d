-- ===== src/Run/Hedge/Settled.antt =====
-- A hedge settles once (packages/core/src/run/index.ts).
use workit.Prelude.{
  ℕ, zero, suc, ◌+◌, ◌-◌, ◌*◌, ◌<◌, max, ◌≡◌, refl, sym, ◌∙◌, inl, inr, true, false, ◌⊎◌, ◌≢◌,
  option-cases, none≢some, if◌then◌else◌, Option, none, some, List, [], ◌∷◌, ◌++◌, length,
  length-append, ◌==◌, arith, Bool-cases,
}
use workit.Run.Hedge.{
  Outcome, resolved, Hedge, HedgeEvent, timer, fulfilled, rejected, abort, settle, start, launch,
  idle, hedge, reject_attempt, on_event, on_events,
}
use workit.Run.Pool.{mem}
use workit.Run.Hedge.Invariant.{IsHedge, on_event-IsHedge}

module _ {V X R : Type 0} where
  start-open :
      (k : ℕ) (h : Hedge V X R)
      → h.outcome ≡ none
      → start k h ≡ record h { controllers = h.controllers + 1; running = k ∷ h.running }
  unfolding start
  start-open k h e = ground arith

  launch-IsHedge :
      (total after rounds attempt : ℕ) (h : Hedge V X R)
      → h.outcome ≡ none
      → length h.errors ≡ 0
      → h.completed ≡ 0
      → h.aborts ≡ false
      → h.controllers ≡ length h.running
      → length h.running + length h.timers + rounds ≡ total
      → 0 < total
      → IsHedge total (launch after rounds attempt h)
  unfolding launch
  launch-IsHedge total after zero attempt h o e c u r s pos = record {
    opened = λ f. record {
      accounted = omega arith;
      launched = omega arith;
      failures = omega arith;
      live = omega arith;
      unaborted = u;
    };
    closed = λ d f. absurd (none≢some (sym o ∙ f));
  }
  launch-IsHedge total after (suc rounds) attempt h o e c u r s pos =
      elim (Bool-cases ((attempt - 1) * after == 0)) [
        | inl t ↦
            rw (t, start-open attempt h o)
              (launch-IsHedge total after rounds (attempt + 1)
                (record h { controllers = h.controllers + 1; running = attempt ∷ h.running }) o e c
                u (omega arith) (omega arith) pos)
        | inr t ↦ rw t (
            launch-IsHedge total after rounds (attempt + 1)
              (record h { timers = h.timers ++ (attempt, (attempt - 1) * after) ∷ [] }) o e c u r
              (let l = length-append h.timers ((attempt, (attempt - 1) * after) ∷ []) in
                omega arith)
              pos)
      ]

  hedge-IsHedge :
      (max_attempts after : ℕ) (reason : Option R)
      → IsHedge (max 1 max_attempts) (hedge {V = V} {X = X} max_attempts after reason)
  unfolding hedge
  hedge-IsHedge max_attempts after (some r) = record {
    opened = λ f. absurd (none≢some (sym f));
    closed = λ d f. record {
      cleared = refl;
      bounded = omega arith;
      exhausted = λ es g. absurd (ground arith);
      cancelled = (λ v g. absurd (ground arith), λ s g. inr refl);
    };
  }
  hedge-IsHedge max_attempts after none =
      launch-IsHedge (max 1 max_attempts) after (max 1 max_attempts) 1 idle refl refl refl refl refl
        (omega arith) (omega arith)

  on_events-IsHedge :
      (total : ℕ) (es : List (HedgeEvent V X R)) (h : Hedge V X R)
      → IsHedge total h
      → IsHedge total (on_events total es h)
  unfolding on_events
  on_events-IsHedge total [] h i = i
  on_events-IsHedge total (e ∷ es) h i =
      on_events-IsHedge total es (on_event total e h) (on_event-IsHedge total e h i)

  -- What an event leaves alone once the hedge has settled.
  unfoldable pub IsKept : Outcome V X R → Hedge V X R → Hedge V X R → Type 0
  IsKept o h g = (g.outcome ≡ some o) × (g.timers ≡ []) × (g.controllers ≡ h.controllers)

  on_event-IsKept :
      (total : ℕ) (o : Outcome V X R) (e : HedgeEvent V X R) (h : Hedge V X R)
      → h.outcome ≡ some o
      → h.timers ≡ []
      → IsKept o h (on_event total e h)
  unfolding on_event settle start reject_attempt IsKept
  on_event-IsKept total o (timer k) h f t = ground arith
  on_event-IsKept total o (fulfilled k v) h f t = ground arith
  on_event-IsKept total o (rejected k x) h f t = ground arith
  on_event-IsKept total o (abort r) h f t = ground arith

  on_events-IsKept :
      (total : ℕ) (o : Outcome V X R) (es : List (HedgeEvent V X R)) (h : Hedge V X R)
      → h.outcome ≡ some o
      → h.timers ≡ []
      → IsKept o h (on_events total es h)
  unfolding on_events IsKept
  on_events-IsKept total o [] h f t = (f, t, refl)
  on_events-IsKept total o (e ∷ es) h f t =
      let (f1, t1, c1) = on_event-IsKept total o e h f t in
      let (f2, t2, c2) = on_events-IsKept total o es (on_event total e h) f1 t1 in (f2, t2, c2 ∙ c1)

  -- Some attempt has succeeded with the value.
  abbrev pub IsFulfilled : V → List (HedgeEvent V X R) → Type 0
  IsFulfilled v [] = ⊥
  IsFulfilled v (e ∷ es) = ((k : ℕ) × (e ≡ fulfilled k v)) ⊎ IsFulfilled v es

  on_event-resolved :
      (total : ℕ) (v : V) (e : HedgeEvent V X R) (h : Hedge V X R)
      → (on_event total e h).outcome ≡ some (resolved v)
      → ((k : ℕ) × (e ≡ fulfilled k v)) ⊎ (h.outcome ≡ some (resolved v))
  unfolding on_event settle start reject_attempt
  on_event-resolved total v (timer k) h f = inr (ground arith)
  on_event-resolved total v (fulfilled k w) h f = elim (option-cases h.outcome) [
    | inl e ↦ elim (Bool-cases (mem k h.running)) [
      | inl m ↦ inl (k, ground arith)
      | inr m ↦ absurd (ground arith)
    ]
    | inr (o, e) ↦ inr (ground arith)
  ]
  on_event-resolved total v (rejected k x) h f = inr (ground arith)
  on_event-resolved total v (abort r) h f = inr (ground arith)

  on_events-resolved :
      (total : ℕ) (v : V) (es : List (HedgeEvent V X R)) (h : Hedge V X R)
      → (on_events total es h).outcome ≡ some (resolved v)
      → IsFulfilled v es ⊎ (h.outcome ≡ some (resolved v))
  unfolding on_events
  on_events-resolved total v [] h f = inr f
  on_events-resolved total v (e ∷ es) h f =
      elim (on_events-resolved total v es (on_event total e h) f) [
        | inl later ↦ inl (inr later)
        | inr here ↦ elim (on_event-resolved total v e h here) [
          | inl now ↦ inl (inl now)
          | inr before ↦ inr before
        ]
      ]

  first_success :
      (total k : ℕ) (v : V) (h : Hedge V X R)
      → mem k h.running ≡ true
      → h.outcome ≡ none
      → (on_event total (fulfilled k v) h).outcome ≡ some (resolved v)
  unfolding on_event settle
  first_success total k v h m f = ground arith

  launch-outcome :
      (after rounds attempt : ℕ) (h : Hedge V X R)
      → h.outcome ≡ none
      → (launch after rounds attempt h).outcome ≡ none
  unfolding launch
  launch-outcome after zero attempt h o = o
  launch-outcome after (suc rounds) attempt h o =
      launch-outcome after rounds (attempt + 1)
        (if (attempt - 1) * after == 0
          then start attempt h
          else record h { timers = h.timers ++ (attempt, (attempt - 1) * after) ∷ [] })
        (ground (arith, start-open attempt h o))

  hedge-unresolved :
      (max_attempts after : ℕ) (reason : Option R) (v : V)
      → (hedge {V = V} {X = X} max_attempts after reason).outcome ≢ some (resolved v)
  unfolding hedge
  hedge-unresolved max_attempts after (some r) v = λ f. ground arith
  hedge-unresolved max_attempts after none v =
      λ f. none≢some (sym (launch-outcome after (max 1 max_attempts) 1 idle refl) ∙ f)

  -- Whatever the order of its events: while a hedge has not settled, some attempt runs or waits for
  -- its timer, and each attempt does this or has failed. When it has settled, no timer waits, at
  -- most `max(1, max)` attempts have started, a failure has the error of every attempt, and a value or
  -- an abort has aborted the attempts. The success of an attempt that runs settles it with its value, a
  -- value comes from the success of an attempt, and no later event changes the outcome or starts an
  -- attempt.
  pub hedge-on_events :
      (max_attempts after : ℕ) (reason : Option R) (events later : List (HedgeEvent V X R))
      → IsHedge
          (max 1 max_attempts)
          (on_events (max 1 max_attempts) events (hedge max_attempts after reason))
        × ((o : Outcome V X R)
            → (on_events (max 1 max_attempts) events (hedge max_attempts after reason)).outcome
              ≡ some o
            → IsKept o (on_events (max 1 max_attempts) events (hedge max_attempts after reason)) (
                on_events
                  (max 1 max_attempts)
                  later
                  (on_events (max 1 max_attempts) events (hedge max_attempts after reason))))
        × ((k : ℕ) (v : V)
            → mem k
                (on_events (max 1 max_attempts) events (hedge max_attempts after reason)).running
              ≡ true
            → (on_events (max 1 max_attempts) events (hedge max_attempts after reason)).outcome
              ≡ none
            → (on_event
                (max 1 max_attempts)
                (fulfilled k v)
                (on_events (max 1 max_attempts) events (hedge max_attempts after reason))).outcome
              ≡ some (resolved v))
        × ((v : V)
            → (on_events (max 1 max_attempts) events (hedge max_attempts after reason)).outcome
              ≡ some (resolved v)
            → IsFulfilled v events)
  hedge-on_events max_attempts after reason events later =
      let total : ℕ = max 1 max_attempts in
      let h : Hedge V X R = on_events total events (hedge max_attempts after reason) in
      let i : IsHedge total h =
        on_events-IsHedge total events (hedge max_attempts after reason)
          (hedge-IsHedge max_attempts after reason) in
      (
        i,
        λ o f. on_events-IsKept total o later h f (i.closed o f).cleared,
        λ k v m f. first_success total k v h m f,
        λ v f. elim (on_events-resolved total v events (hedge max_attempts after reason) f) [
          | inl there ↦ there
          | inr start ↦ absurd (hedge-unresolved max_attempts after reason v start)
        ],
      )
