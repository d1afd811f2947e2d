-- ===== src/Run/Hedge/Invariant.antt =====
-- What holds of a hedge after every event (packages/core/src/run/index.ts).
use workit.Prelude.{
  ℕ, ◌+◌, ◌≤◌, ◌<◌, ◌≡◌, refl, ap, sym, subst, ◌∙◌, ◌⊎◌, inl, inr, Bool, true, false, none, some,
  List, [], ◌∷◌, ◌++◌, length, length-append, ◌==◌, arith, Bool-cases, option-cases, none≢some,
  some_injective,
}
use workit.Run.Pool.{mem, remove}
use workit.Run.Pool.Results.{length-remove}
use workit.Run.Hedge.{
  Outcome, resolved, all_failed, aborted, Hedge, HedgeEvent, timer, fulfilled, rejected, abort,
  has_timer, remove_timer, settle, start, reject_attempt, on_event,
}

length-remove_timer :
    (k : ℕ) (ts : List (ℕ × ℕ)) → has_timer k ts ≡ true → length (remove_timer k ts) + 1 ≡ length ts
length-remove_timer k [] h = ground arith
length-remove_timer k ((j, d) ∷ ts) h = ground (arith, length-remove_timer k ts)

length-nil : (xs : List ℕ) → length xs ≡ 0 → xs ≡ []
length-nil [] h = refl
length-nil (x ∷ xs) h = absurd (omega arith)

all_failed-inj :
    {V X R : Type 0} {xs ys : List X}
    → ◌≡◌ {A = Outcome V X R} (all_failed xs) (all_failed ys)
    → xs ≡ ys
all_failed-inj e = cc

module _ {V X R : Type 0} where
  -- Each attempt waits for its timer, runs, or has failed, and one of them waits or runs.
  pub record IsOpen (total : ℕ) (h : Hedge V X R) : Type 0 where
    pub accounted : length h.errors + length h.running + length h.timers ≡ total
    pub launched : h.controllers ≡ length h.errors + length h.running
    pub failures : h.completed ≡ length h.errors
    pub live : length h.errors < total
    pub unaborted : h.aborts ≡ false

  -- No timer waits, and no more attempts have started than the limit allows. A value aborts the
  -- attempts, and so does an abort that finds any; the failure has the error of every attempt.
  pub record IsClosed (total : ℕ) (o : Outcome V X R) (h : Hedge V X R) : Type 0 where
    pub cleared : h.timers ≡ []
    pub bounded : h.controllers ≤ total
    pub exhausted :
        (es : List X)
        → o ≡ all_failed es
        → (length es ≡ total) × (h.running ≡ []) × (h.controllers ≡ total)
    pub cancelled :
        ((v : V) → o ≡ resolved v → h.aborts ≡ true)
        × ((r : R) → o ≡ aborted r → (h.aborts ≡ true) ⊎ (h.controllers ≡ 0))

  pub record IsHedge (total : ℕ) (h : Hedge V X R) : Type 0 where
    pub opened : h.outcome ≡ none → IsOpen total h
    pub closed : (o : Outcome V X R) → h.outcome ≡ some o → IsClosed total o h

  start-IsHedge :
      (total k : ℕ) (h : Hedge V X R)
      → length h.errors + length h.running + length h.timers + 1 ≡ total
      → h.controllers ≡ length h.errors + length h.running
      → h.completed ≡ length h.errors
      → h.aborts ≡ false
      → h.outcome ≡ none
      → IsHedge total (start k h)
  unfolding start
  start-IsHedge total k h sum c f u o = rw o (record {
    opened = λ e. record {
      accounted = omega arith;
      launched = omega arith;
      failures = f;
      live = omega arith;
      unaborted = u;
    };
    closed = λ d e. absurd (none≢some e);
  })

  settle-settled :
      (b : Bool) (o d : Outcome V X R) (h : Hedge V X R) → h.outcome ≡ some d → settle b o h ≡ h
  unfolding settle
  settle-settled b o d h e = ground arith

  settled-IsHedge :
      (total : ℕ) (b : Bool) (o : Outcome V X R) (h : Hedge V X R)
      → h.outcome ≡ none
      → IsClosed total o (record h { timers = []; aborts = b; outcome = some o })
      → IsHedge total (settle b o h)
  unfolding settle
  settled-IsHedge total b o h e c = rw e (record {
    opened = λ f. absurd (none≢some (sym f));
    closed = λ d f.
        subst (λ x. IsClosed total x (record h { timers = []; aborts = b; outcome = some o }))
          (some_injective f) c;
  })

  timer-IsHedge :
      (total k : ℕ) (h : Hedge V X R)
      → has_timer k h.timers ≡ true
      → IsHedge total h
      → IsHedge total (start k (record h { timers = remove_timer k h.timers }))
  unfolding start
  timer-IsHedge total k h t i = elim (option-cases h.outcome) [
    | inl e ↦
        let o = i.opened e in
        let l = length-remove_timer k h.timers t in
        start-IsHedge total k (record h { timers = remove_timer k h.timers })
          (let a = o.accounted in omega arith) o.launched o.failures o.unaborted e
    | inr (d, e) ↦ let c = (i.closed d e).cleared in absurd (ground arith)
  ]

  removed-IsHedge :
      (total k : ℕ) (d : Outcome V X R) (h : Hedge V X R)
      → mem k h.running ≡ true
      → IsHedge total h
      → h.outcome ≡ some d
      → IsHedge total (record h { running = remove k h.running })
  removed-IsHedge total k d h m i e = record {
    opened = λ f. absurd (none≢some (sym f ∙ e));
    closed = λ c f.
        let w = i.closed c f in
        record {
          cleared = w.cleared;
          bounded = w.bounded;
          exhausted = λ es g. let (n, none_run, s) = w.exhausted es g in absurd (ground arith);
          cancelled = w.cancelled;
        };
  }

  fulfilled-IsHedge :
      (total k : ℕ) (v : V) (h : Hedge V X R)
      → mem k h.running ≡ true
      → IsHedge total h
      → IsHedge total (settle true (resolved v) (record h { running = remove k h.running }))
  unfolding settle
  fulfilled-IsHedge total k v h m i = elim (option-cases h.outcome) [
    | inl e ↦
        let o = i.opened e in
        settled-IsHedge total true (resolved v) (record h { running = remove k h.running }) e
          (record {
            cleared = refl;
            bounded = let a = o.accounted in let b = o.launched in omega arith;
            exhausted = λ es f. absurd (ground arith);
            cancelled = (λ w f. refl, λ r f. inl refl);
          })
    | inr (d, e) ↦ rw e (removed-IsHedge total k d h m i e)
  ]

  reject_attempt-IsHedge :
      (total k : ℕ) (x : X) (h : Hedge V X R)
      → mem k h.running ≡ true
      → IsHedge total h
      → IsHedge total (reject_attempt total x (record h { running = remove k h.running }))
  unfolding reject_attempt
  reject_attempt-IsHedge total k x h m i = elim (option-cases h.outcome) [
    | inr (d, e) ↦ rw e (removed-IsHedge total k d h m i e)
    | inl e ↦
        let o = i.opened e in
        let l = length-remove k h.running m in
        let s = length-append h.errors (x ∷ []) in
        let a = o.accounted in
        let b = o.launched in
        let c = o.failures in
        let u = o.live in
        elim (Bool-cases (h.completed + 1 == total)) [
          | inl t ↦
              rw (e, t)
                (settled-IsHedge total false (all_failed (h.errors ++ x ∷ []))
                  (record h {
                    running = remove k h.running;
                    errors = h.errors ++ x ∷ [];
                    completed = h.completed + 1;
                  })
                  e
                  (record {
                    cleared = refl;
                    bounded = ground arith;
                    exhausted = λ es f. (
                      ap length (sym (all_failed-inj f)) ∙ ground arith,
                      length-nil (remove k h.running) (ground arith),
                      ground arith,
                    );
                    cancelled = (λ w f. absurd (ground arith), λ r f. absurd (ground arith));
                  }))
          | inr t ↦
              rw (e, t)
                (record {
                  opened = λ f. record {
                    accounted = ground arith;
                    launched = ground arith;
                    failures = ground arith;
                    live = ground arith;
                    unaborted = o.unaborted;
                  };
                  closed = λ d f. absurd (none≢some (sym e ∙ f));
                })
        ]
  ]

  abort-IsHedge :
      (total : ℕ) (r : R) (h : Hedge V X R)
      → IsHedge total h
      → IsHedge total (settle true (aborted r) h)
  unfolding settle
  abort-IsHedge total r h i = elim (option-cases h.outcome) [
    | inr (d, e) ↦ subst (IsHedge total) (sym (settle-settled true (aborted r) d h e)) i
    | inl e ↦
        let o = i.opened e in
        settled-IsHedge total true (aborted r) h e (record {
          cleared = refl;
          bounded = let a = o.accounted in let b = o.launched in omega arith;
          exhausted = λ es f. absurd (ground arith);
          cancelled = (λ w f. refl, λ r f. inl refl);
        })
  ]

  pub on_event-IsHedge :
      (total : ℕ) (e : HedgeEvent V X R) (h : Hedge V X R)
      → IsHedge total h
      → IsHedge total (on_event total e h)
  unfolding on_event
  on_event-IsHedge total (timer k) h i = elim (Bool-cases (has_timer k h.timers)) [
    | inl t ↦ rw t (timer-IsHedge total k h t i)
    | inr t ↦ rw t i
  ]
  on_event-IsHedge total (fulfilled k v) h i = elim (Bool-cases (mem k h.running)) [
    | inl t ↦ rw t (fulfilled-IsHedge total k v h t i)
    | inr t ↦ rw t i
  ]
  on_event-IsHedge total (rejected k x) h i = elim (Bool-cases (mem k h.running)) [
    | inl t ↦ rw t (reject_attempt-IsHedge total k x h t i)
    | inr t ↦ rw t i
  ]
  on_event-IsHedge total (abort r) h i = abort-IsHedge total r h i
