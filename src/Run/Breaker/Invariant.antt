-- ===== src/Run/Breaker/Invariant.antt =====
-- What holds of a breaker and its running calls (packages/core/src/run/index.ts, `circuitBreaker`).
use workit.Prelude.{
  ℕ, zero, suc, ◌≤◌, ◌<◌, ◌≡◌, refl, Option, none, some, List, [], ◌∷◌, count, arith, ltb, inl, inr,
  Bool-cases,
}
use workit.Run.Breaker.{
  Breaker, Opts, Phase, shut, tripped, half_open, System, Event, calls, ends, Ending, succeeded,
  failed, cancelled, max_half_open_calls, begin, finish, take_out, started, ended, step, run,
  initial, admit_call, enter_half_open, begin_in,
}

-- Nothing runs as a probe of an epoch to come, probes of the current epoch are among those that
-- were admitted to it, those admitted are within the limit, and a shut circuit has not
-- reached its threshold.
pub record IsSound (o : Opts) (s : System) : Type 0 where
  pub limited : s.breaker.admitted ≤ max_half_open_calls o
  pub probing : s.breaker.state ≡ half_open → 0 < s.breaker.epoch
  pub counted : 0 < s.breaker.epoch → count s.breaker.epoch s.running ≤ s.breaker.admitted
  pub future : (e : ℕ) → s.breaker.epoch < e → count e s.running ≡ 0
  pub patient :
      s.breaker.state ≡ shut → 0 < o.failure_threshold → s.breaker.failures < o.failure_threshold

abbrev Fewer : ℕ → List ℕ → Option (ℕ × List ℕ) → Type 0
Fewer e xs none = Unit
Fewer e xs (some (x, ys)) = count e ys ≤ count e xs

behind :
    (e y : ℕ) (xs : List ℕ) (o : Option (ℕ × List ℕ))
    → Fewer e xs o
    → Fewer e (y ∷ xs) (elim o [ none ↦ none | some (x, ys) ↦ some (x, y ∷ ys) ])
behind e y xs none h = tt
behind e y xs (some (x, ys)) h = ground arith

take_out-Fewer : (i e : ℕ) (xs : List ℕ) → Fewer e xs (take_out i xs)
take_out-Fewer i e [] = tt
take_out-Fewer zero e (y ∷ xs) = ground arith
take_out-Fewer (suc i) e (y ∷ xs) = behind e y xs (take_out i xs) (take_out-Fewer i e xs)

admit_call-IsSound :
    (o : Opts) (b : Breaker) (running : List ℕ)
    → IsSound o (record { breaker = b; running = running })
    → IsSound o (started (admit_call o b) running)
unfolding started admit_call
admit_call-IsSound o b running v = record {
  limited = ground (arith, v.limited);
  probing = ground (arith, v.probing);
  counted = ground (arith, v.counted, v.probing);
  future = λ e h. ground (arith, v.future e);
  patient = ground (arith, v.patient);
}

enter-IsSound :
    (o : Opts) (b : Breaker) (running : List ℕ)
    → IsSound o (record { breaker = b; running = running })
    → IsSound o (record { breaker = enter_half_open b; running = running })
unfolding enter_half_open
enter-IsSound o b running v = record {
  limited = omega arith;
  probing = λ _. omega arith;
  counted = λ _. omega (arith, v.future (suc b.epoch) (omega arith));
  future = λ e h. v.future e (omega arith);
  patient = λ e. cc;
}

begin-IsSound :
    (o : Opts) (now : ℕ) (s : System) (p : Phase)
    → IsSound o s
    → IsSound o (started (begin_in p o now s.breaker) s.running)
unfolding begin_in
begin-IsSound o now s shut v = admit_call-IsSound o s.breaker s.running v
begin-IsSound o now s half_open v = admit_call-IsSound o s.breaker s.running v
begin-IsSound o now s tripped v = elim (Bool-cases (ltb now s.breaker.opened_until)) [
  | inl e ↦ rw e (unfold started in v)
  | inr e ↦ rw e (admit_call-IsSound o _ s.running (enter-IsSound o s.breaker s.running v))
]

finish-IsSound :
    (o : Opts) (now call : ℕ) (s : System) (e : Ending) (rest : List ℕ)
    → IsSound o s
    → ((k : ℕ) → count k rest ≤ count k s.running)
    → IsSound o (record { breaker = finish o now s.breaker call e; running = rest })
unfolding finish
finish-IsSound o now call s succeeded rest v fewer = record {
  limited = ground arith;
  probing = ground arith;
  counted = ground (arith, fewer s.breaker.epoch);
  future = λ k h. ground (arith, fewer k, v.future k);
  patient = ground arith;
}
finish-IsSound o now call s cancelled rest v fewer = record {
  limited = ground arith;
  probing = ground arith;
  counted = ground (arith, fewer s.breaker.epoch);
  future = λ k h. ground (arith, fewer k, v.future k);
  patient = ground arith;
}
finish-IsSound o now call s failed rest v fewer = record {
  limited = ground arith;
  probing = ground arith;
  counted = ground (arith, fewer s.breaker.epoch);
  future = λ k h. ground (arith, fewer k, v.future k);
  patient = ground arith;
}

ended-IsSound :
    (o : Opts) (now : ℕ) (s : System) (e : Ending) (t : Option (ℕ × List ℕ))
    → IsSound o s
    → ((k : ℕ) → Fewer k s.running t)
    → IsSound o (ended o now s e t)
unfolding ended
ended-IsSound o now s e none v fewer = v
ended-IsSound o now s e (some (call, rest)) v fewer = finish-IsSound o now call s e rest v fewer

step-IsSound :
    (o : Opts) (now : ℕ) (s : System) (e : Event) → IsSound o s → IsSound o (step o now s e)
unfolding step begin
step-IsSound o now s calls v = begin-IsSound o now s s.breaker.state v
step-IsSound o now s (ends i e) v =
    ended-IsSound o now s e (take_out i s.running) v (λ k. take_out-Fewer i k s.running)

run-IsSound : (o : Opts) (s : System) (es : List (ℕ × Event)) → IsSound o s → IsSound o (run o s es)
unfolding run
run-IsSound o s [] v = v
run-IsSound o s ((now, e) ∷ es) v = run-IsSound o (step o now s e) es (step-IsSound o now s e v)

-- After any interleaving of calls, successes, failures and cancellations through a new breaker, at
-- any times: the probes that run in the current half-open epoch are at most those admitted to it,
-- and these at most the limit; and a shut circuit has counted fewer failures than its threshold.
pub run-initial-IsSound :
    (o : Opts) (es : List (ℕ × Event))
    → IsSound o (run o (record { breaker = initial; running = [] }) es)
run-initial-IsSound o es = run-IsSound o _ es (record {
  limited = omega arith;
  probing = λ e. cc;
  counted = λ h. omega arith;
  future = λ e h. refl;
  patient = λ _ h. h;
})
