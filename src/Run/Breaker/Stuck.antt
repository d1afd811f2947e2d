-- ===== src/Run/Breaker/Stuck.antt =====
-- When a half-open circuit can no longer close (packages/core/src/run/index.ts, `circuitBreaker`).
use workit.Prelude.{
  ℕ, zero, suc, ◌+◌, ◌≤◌, ◌<◌, ◌≡◌, refl, sym, ap, subst, ◌∙◌, ◌≢◌, Option, none, some, List, [],
  ◌∷◌, count, arith, All,
}
use workit.Run.Breaker.{
  Breaker, Opts, half_open, tripped, circuit_open, System, Event, calls, ends, Ending, succeeded,
  failed, cancelled, max_half_open_calls, begin, finish, take_out, started, ended, step, run,
  refused, circuit_half_open, admit_call, begin_in,
}
use workit.Run.Breaker.Invariant.{IsSound}

-- The circuit is half-open, its probes are used up, and none of them still runs.
pub record IsExhausted (o : Opts) (s : System) : Type 0 where
  pub probing : s.breaker.state ≡ half_open
  pub used : max_half_open_calls o ≤ s.breaker.admitted
  pub started_once : 0 < s.breaker.epoch
  pub none_left : count s.breaker.epoch s.running ≡ 0

abbrev Other : ℕ → List ℕ → Option (ℕ × List ℕ) → Type 0
Other e xs none = Unit
Other e xs (some (x, ys)) = count e xs ≡ 0 → (x ≢ e) × (count e ys ≡ 0)

behind :
    (e y : ℕ) (xs : List ℕ) (o : Option (ℕ × List ℕ))
    → Other e xs o
    → Other e (y ∷ xs) (elim o [ none ↦ none | some (x, ys) ↦ some (x, y ∷ ys) ])
behind e y xs none h = tt
behind e y xs (some (x, ys)) h = λ c. ((h (ground arith)).0, ground (arith, h (ground arith)))

take_out-Other : (i e : ℕ) (xs : List ℕ) → Other e xs (take_out i xs)
take_out-Other i e [] = tt
take_out-Other zero e (y ∷ xs) = λ c. (ground arith, ground arith)
take_out-Other (suc i) e (y ∷ xs) = behind e y xs (take_out i xs) (take_out-Other i e xs)

exhausted_finish :
    (o : Opts) (now call : ℕ) (b : Breaker) (e : Ending)
    → b.state ≡ half_open
    → call ≢ b.epoch
    → finish o now b call e ≡ b
unfolding finish
exhausted_finish o now call b succeeded h n = ground arith
exhausted_finish o now call b failed h n = ground arith
exhausted_finish o now call b cancelled h n = refl

exhausted_begin :
    (o : Opts) (now : ℕ) (s : System)
    → IsExhausted o s
    → begin o now s.breaker ≡ (s.breaker, refused circuit_half_open)
unfolding begin begin_in admit_call
exhausted_begin o now s v = ground arith

IsExhausted-ended :
    (o : Opts) (now : ℕ) (s : System) (e : Ending) (t : Option (ℕ × List ℕ))
    → IsExhausted o s
    → Other s.breaker.epoch s.running t
    → IsExhausted o (ended o now s e t) × ((ended o now s e t).breaker ≡ s.breaker)
unfolding ended
IsExhausted-ended o now s e none v other = (v, refl)
IsExhausted-ended o now s e (some (call, rest)) v other =
    let (ne, gone) = other v.none_left in
    let same = exhausted_finish o now call s.breaker e v.probing ne in
    (
      record {
        probing = ap (λ b. b.state) same ∙ v.probing;
        used = subst (λ b. max_half_open_calls o ≤ b.admitted) (sym same) v.used;
        started_once = subst (λ b. 0 < b.epoch) (sym same) v.started_once;
        none_left = subst (λ b. count b.epoch rest ≡ 0) (sym same) gone;
      },
      same,
    )

IsExhausted-step :
    (o : Opts) (now : ℕ) (s : System) (e : Event)
    → IsExhausted o s
    → IsExhausted o (step o now s e) × ((step o now s e).breaker ≡ s.breaker)
unfolding step started
IsExhausted-step o now s calls v = rw (exhausted_begin o now s v) (v, refl)
IsExhausted-step o now s (ends i e) v =
    IsExhausted-ended o now s e (take_out i s.running) v
      (take_out-Other i s.breaker.epoch s.running)

-- Once the probes of a half-open circuit are used up and none of them runs any more, nothing that
-- happens later, at any time, changes the breaker: every call is refused for ever.
pub exhausted_for_ever :
    (o : Opts) (s : System) (es : List (ℕ × Event)) (t : ℕ)
    → IsExhausted o s
    → begin o t (run o s es).breaker ≡ (s.breaker, refused circuit_half_open)
unfolding run
exhausted_for_ever o s [] t v = exhausted_begin o t s v
exhausted_for_ever o s ((now, e) ∷ es) t v =
    let (v', same) = IsExhausted-step o now s e v in
    exhausted_for_ever o (step o now s e) es t v' ∙ ap (λ b. (b, refused circuit_half_open)) same

cancelled_probe-IsExhausted :
    (o : Opts) (s : System) (now later : ℕ)
    → IsSound o s
    → s.breaker.state ≡ tripped
    → s.breaker.opened_until ≤ now
    → max_half_open_calls o ≡ 1
    → IsExhausted o (step o later (step o now s calls) (ends 0 cancelled))
unfolding step started ended begin begin_in admit_call finish
cancelled_probe-IsExhausted o s now later v p h one = record {
  probing = ground arith;
  used = ground arith;
  started_once = ground arith;
  none_left = ground (arith, v.future (suc s.breaker.epoch));
}

-- A circuit that lets one probe through, whose probe is cancelled or times out (a timeout is a
-- `CancellationError` too), refuses every later call, whatever happens after and however late.
pub cancelled_probe_locks :
    (o : Opts) (s : System) (now later t : ℕ) (es : List (ℕ × Event))
    → IsSound o s
    → s.breaker.state ≡ tripped
    → s.breaker.opened_until ≤ now
    → max_half_open_calls o ≡ 1
    → (begin o t (run o (step o later (step o now s calls) (ends 0 cancelled)) es).breaker).1
      ≡ refused circuit_half_open
cancelled_probe_locks o s now later t es v p h one =
    ap (λ x. x.1)
      (exhausted_for_ever o _ es t (cancelled_probe-IsExhausted o s now later v p h one))

-- Open, at least until `until`.
record IsOpen (until : ℕ) (s : System) : Type 0 where
  open_now : s.breaker.state ≡ tripped
  long : until ≤ s.breaker.opened_until

IsOpen-ended :
    (o : Opts) (until now : ℕ) (s : System) (e : Ending) (t : Option (ℕ × List ℕ))
    → until ≤ now + o.reset_after_ms
    → IsOpen until s
    → IsOpen until (ended o now s e t)
unfolding ended finish
IsOpen-ended o until now s e none h v = v
IsOpen-ended o until now s succeeded (some (call, rest)) h v = ground arith
IsOpen-ended o until now s failed (some (call, rest)) h v = ground arith
IsOpen-ended o until now s cancelled (some (call, rest)) h v = ground arith

open_begin :
    (o : Opts) (until now : ℕ) (s : System)
    → now < until
    → IsOpen until s
    → begin o now s.breaker ≡ (s.breaker, refused circuit_open)
unfolding begin begin_in
open_begin o until now s h v = ground arith

IsOpen-step :
    (o : Opts) (until now : ℕ) (s : System) (e : Event)
    → now < until
    → until ≤ now + o.reset_after_ms
    → IsOpen until s
    → IsOpen until (step o now s e)
unfolding step started
IsOpen-step o until now s calls h k v = rw (open_begin o until now s h v) v
IsOpen-step o until now s (ends i e) h k v = IsOpen-ended o until now s e (take_out i s.running) k v

IsOpen-run :
    (o : Opts) (until : ℕ) (s : System) (es : List (ℕ × Event))
    → All (λ x. (x.0 < until) × (until ≤ x.0 + o.reset_after_ms)) es
    → IsOpen until s
    → IsOpen until (run o s es)
unfolding run
IsOpen-run o until s [] h v = v
IsOpen-run o until s ((now, e) ∷ es) h v =
    IsOpen-run o until (step o now s e) es h.1 (IsOpen-step o until now s e h.0.0 h.0.1 v)

-- An open circuit refuses every call until its time is over, through any steps that lie between
-- its opening and that time: no ending of a running call closes it early.
pub tripped_refuses :
    (o : Opts) (s : System) (es : List (ℕ × Event)) (t : ℕ)
    → s.breaker.state ≡ tripped
    → All
        (λ x. (x.0 < s.breaker.opened_until) × (s.breaker.opened_until ≤ x.0 + o.reset_after_ms))
        es
    → t < s.breaker.opened_until
    → (begin o t (run o s es).breaker).1 ≡ refused circuit_open
tripped_refuses o s es t p h lt =
    let v =
      IsOpen-run o s.breaker.opened_until s es h (record { open_now = p; long = omega arith }) in
    ap (λ x. x.1) (open_begin o s.breaker.opened_until t (run o s es) lt v)
