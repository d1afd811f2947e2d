-- ===== src/Run/Retry/Rounds.antt =====
-- One round of the loop of packages/core/src/run/index.ts, `retry`: how it can end.
use workit.Prelude.{
  ℕ, zero, suc, ◌≡◌, refl, ap, subst, ◌∙◌, ◌⊎◌, inl, inr, Bool, true, false, not, ◌||◌, Option,
  none, some, List, [], ◌∷◌, ◌++◌, Result, ok, err, arith, Bool-cases,
}
use workit.Engine.Errors.{RangeError}
use workit.Engine.Retry.{RetryPolicy, compute_retry_delay}
use workit.Run.Thrown.{Thrown, range_error, budget_not_set, budget_exceeded, is_cancellation}
use workit.Run.Retry.{
  World, Run, RetryEvent, invoked, attempt_set, attempt_ended, retrying, Budget, consume_one, stop,
  prepend, charged, wait_and, charge_and, after_attempt, ended_events, retry_events,
}

-- The attempts that a run made, in order.
abbrev pub invocations : List RetryEvent → List ℕ
invocations [] = []
invocations (invoked n ∷ l) = n ∷ invocations l
invocations (attempt_set n ∷ l) = invocations l
invocations (attempt_ended n o ∷ l) = invocations l
invocations (retrying n d ∷ l) = invocations l

-- n, n + 1, …: k numbers.
abbrev pub numbers_from : ℕ → ℕ → List ℕ
numbers_from n zero = []
numbers_from n (suc k) = n ∷ numbers_from (suc n) k

invocations-append : (k l : List RetryEvent) → invocations (k ++ l) ≡ invocations k ++ invocations l
invocations-append [] l = refl
invocations-append (invoked n ∷ k) l = ap (◌∷◌ n) (invocations-append k l)
invocations-append (attempt_set n ∷ k) l = invocations-append k l
invocations-append (attempt_ended n o ∷ k) l = invocations-append k l
invocations-append (retrying n d ∷ k) l = invocations-append k l

pub ended-invocations :
    {X A : Type 0} (owns : Bool) (n : ℕ) (r : Result (Thrown X) A)
    → invocations (ended_events owns n r) ≡ n ∷ []
unfolding ended_events
ended-invocations true n r = refl
ended-invocations false n r = refl

retry-invocations : (owns : Bool) (n d : ℕ) → invocations (retry_events owns n d) ≡ []
unfolding retry_events
retry-invocations true n d = refl
retry-invocations false n d = refl

-- The errors that the wrapper throws itself: of a delay, of a sleep that is cut short, of the budget.
pub data IsOwn {X : Type 0} (w : World X) : Thrown X → Type 0 where
  delay : (x : RangeError) → IsOwn w (range_error x)
  slept : (n : ℕ) (e : Thrown X) → w.sleep n ≡ some e → IsOwn w e
  unset : IsOwn w budget_not_set
  exceeded : IsOwn w budget_exceeded

charged-IsOwn :
    {X : Type 0} (w : World X) (budgeted : Bool) (b : Option Budget) (x : Thrown X)
    → charged {X = X} budgeted b ≡ err x
    → IsOwn w x
unfolding charged consume_one
charged-IsOwn w false b x h = absurd cc
charged-IsOwn w true none x h = let e : budget_not_set ≡ x = cc in subst (IsOwn w) e unset
charged-IsOwn w true (some b) x h =
    let e : budget_exceeded ≡ x = ground arith in subst (IsOwn w) e exceeded

-- Why a run ends with attempt `n`, which returned the first result, and what the run gives: `left` more
-- attempts are allowed, and `charge` is what the charge for the next one gives.
pub data Stops {X A : Type 0} (w : World X) (policy : RetryPolicy (Thrown X)) (left : ℕ)
    (charge : Result (Thrown X) (Option Budget)) (n : ℕ)
    : Result (Thrown X) A → Result (Thrown X) A → Type 0 where
  returned : (v : A) → Stops w policy left charge n (ok v) (ok v)
  cancelled :
      (e : Thrown X) → is_cancellation e ≡ true → Stops w policy left charge n (err e) (err e)
  unwanted :
      (e : Thrown X) → policy.retry_if e n ≡ false → Stops w policy left charge n (err e) (err e)
  exhausted : (e : Thrown X) → left ≡ 0 → Stops w policy left charge n (err e) (err e)
  uncharged : (e x : Thrown X) → charge ≡ err x → Stops w policy left charge n (err e) (err x)
  undelayed :
      (e : Thrown X) (x : RangeError)
      → compute_retry_delay (w.random n) n policy ≡ err x
      → Stops w policy left charge n (err e) (err (range_error x))
  cut : (e x : Thrown X) → w.sleep n ≡ some x → Stops w policy left charge n (err e) (err x)

refused :
    {X A : Type 0} (w : World X) (policy : RetryPolicy (Thrown X)) (left : ℕ)
    (charge : Result (Thrown X) (Option Budget)) (n : ℕ) (e : Thrown X)
    → (is_cancellation e || not (policy.retry_if e n)) ≡ true
    → Stops {A = A} w policy left charge n (err e) (err e)
refused w policy left charge n e h = elim (Bool-cases (is_cancellation e)) [
  | inl k ↦ cancelled e k
  | inr k ↦ unwanted e (ground arith)
]

-- An attempt that the loop does not retry ends the run as it ended.
pub last-Stops :
    {X A : Type 0} (w : World X) (policy : RetryPolicy (Thrown X)) (left : ℕ)
    (charge : Result (Thrown X) (Option Budget)) (n : ℕ) (r : Result (Thrown X) A)
    → left ≡ 0
    → Stops w policy left charge n r r
last-Stops w policy left charge n (ok v) h = returned v
last-Stops w policy left charge n (err e) h = exhausted e h

module _ {X A S : Type 0} where
  -- The run `q` ends with attempt `n`, which left the state `s` and the budget `b`: nothing but its
  -- own value is returned, and at most one charge came after it.
  pub record IsLast (w : World X) (policy : RetryPolicy (Thrown X)) (more : ℕ) (budgeted : Bool)
      (n : ℕ) (s : S) (b : Option Budget) (res : Result (Thrown X) A) (q : Run X A S) : Type 0 where
    pub made : invocations q.events ≡ n ∷ []
    pub left : q.state ≡ s
    pub returned : (v : A) → q.result ≡ ok v → res ≡ ok v
    pub thrown : (e : Thrown X) → q.result ≡ err e → (res ≡ err e) ⊎ IsOwn w e
    pub kept : (v : A) → res ≡ ok v → q.result ≡ ok v
    pub stops : Stops w policy more (charged {X = X} budgeted b) n res q.result
    pub paid : (q.budget ≡ b) ⊎ (charged {X = X} budgeted b ≡ ok q.budget)

  -- Attempt `n` failed with an error that is retried, `q` goes on with `next` and the budget `c`.
  pub record IsRetried (policy : RetryPolicy (Thrown X)) (budgeted : Bool) (n : ℕ)
      (b : Option Budget) (res : Result (Thrown X) A) (next : Option Budget → Run X A S)
      (q : Run X A S) : Type 0 where
    pub error : Thrown X
    pub failed : res ≡ err error
    pub uncancelled : is_cancellation error ≡ false
    pub wanted : policy.retry_if error n ≡ true
    pub charge : Option Budget
    pub paid : charged {X = X} budgeted b ≡ ok charge
    pub goes_on :
        (q.result ≡ (next charge).result)
        × (q.state ≡ (next charge).state)
        × (q.budget ≡ (next charge).budget)
        × (invocations q.events ≡ n ∷ invocations (next charge).events)

  unfoldable pub IsRound :
      World X
      → RetryPolicy (Thrown X)
      → ℕ
      → Bool
      → ℕ
      → S
      → Option Budget
      → Result (Thrown X) A
      → (Option Budget → Run X A S)
      → Run X A S
      → Type 0
  IsRound w policy more budgeted n s b res next q =
      IsLast w policy more budgeted n s b res q ⊎ IsRetried policy budgeted n b res next q

  wait_and-IsRound :
      (policy : RetryPolicy (Thrown X)) (more : ℕ) (budgeted owns : Bool) (w : World X) (n : ℕ)
      (s : S) (b c : Option Budget) (l : List RetryEvent) (next : Option Budget → Run X A S)
      (e : Thrown X)
      → invocations l ≡ n ∷ []
      → is_cancellation e ≡ false
      → policy.retry_if e n ≡ true
      → charged {X = X} budgeted b ≡ ok c
      → (d : Result RangeError ℕ) → compute_retry_delay (w.random n) n policy ≡ d
      → (z : Option (Thrown X)) → w.sleep n ≡ z
      → IsRound w policy more budgeted n s b (err e) next (wait_and owns n s c l d z next)
  unfolding IsRound wait_and stop prepend
  wait_and-IsRound policy more budgeted owns w n s b c l next e li u r h (err x) hd z hz =
      inl (record {
        stops = undelayed e x hd;
        thrown = λ e k. inr (let x' : range_error x ≡ e = cc in subst (IsOwn w) x' (delay x));
        made = li;
        left = refl;
        returned = λ v k. cc;
        kept = λ v k. cc;
        paid = inr h;
      })
  wait_and-IsRound policy more budgeted owns w n s b c l next e li u r h (ok d) hd (some x) hz =
      inl (record {
        stops = cut e x hz;
        thrown = λ e k. inr (slept n e (hz ∙ cc));
        made = simp (invocations-append, li, retry-invocations);
        left = refl;
        returned = λ v k. cc;
        kept = λ v k. cc;
        paid = inr h;
      })
  wait_and-IsRound policy more budgeted owns w n s b c l next e li u r h (ok d) hd none hz =
      inr (record {
        error = e;
        failed = refl;
        uncancelled = u;
        wanted = r;
        charge = c;
        paid = h;
        goes_on = (refl, refl, refl, simp (invocations-append, li, retry-invocations));
      })

  charge_and-IsRound :
      (policy : RetryPolicy (Thrown X)) (more : ℕ) (budgeted owns : Bool) (w : World X) (n : ℕ)
      (s : S) (b : Option Budget) (l : List RetryEvent) (next : Option Budget → Run X A S)
      (e : Thrown X)
      → invocations l ≡ n ∷ []
      → is_cancellation e ≡ false
      → policy.retry_if e n ≡ true
      → (cb : Result (Thrown X) (Option Budget)) → charged {X = X} budgeted b ≡ cb
      → IsRound w policy more budgeted n s b (err e) next (charge_and policy owns w n s b l cb next)
  unfolding IsRound charge_and stop
  charge_and-IsRound policy more budgeted owns w n s b l next e li u r (err x) h = inl (record {
    stops = uncharged e x h;
    thrown = λ e k. inr (charged-IsOwn w budgeted b e (h ∙ cc));
    made = li;
    left = refl;
    returned = λ v k. cc;
    kept = λ v k. cc;
    paid = inl refl;
  })
  charge_and-IsRound policy more budgeted owns w n s b l next e li u r (ok c) h =
      wait_and-IsRound policy more budgeted owns w n s b c l next e li u r h _ refl _ refl

  pub after_attempt-IsRound :
      (policy : RetryPolicy (Thrown X)) (more : ℕ) (budgeted owns : Bool) (w : World X) (n : ℕ)
      (s : S) (b : Option Budget) (res : Result (Thrown X) A) (next : Option Budget → Run X A S)
      → IsRound w policy more budgeted n s b res next
          (after_attempt policy budgeted owns w n s b res next)
  unfolding IsRound after_attempt stop
  after_attempt-IsRound policy more budgeted owns w n s b (ok v) next = inl (record {
    stops = returned v;
    made = ended-invocations {X = X} owns n (ok v);
    left = refl;
    thrown = λ e k. cc;
    returned = λ x k. k;
    kept = λ x k. k;
    paid = inl refl;
  })
  after_attempt-IsRound policy more budgeted owns w n s b (err e) next =
      let li = ended-invocations {A = A} owns n (err e) in
      elim (Bool-cases (is_cancellation e || not (policy.retry_if e n))) [
        | inl h ↦ rw h (
            inl (record {
              stops = refused w policy more (charged {X = X} budgeted b) n e h;
              thrown = λ x k. inl k;
              made = li;
              left = refl;
              returned = λ x k. cc;
              kept = λ x k. cc;
              paid = inl refl;
            }))
        | inr h ↦ rw h (
            charge_and-IsRound policy more budgeted owns w n s b _ next e li (ground arith)
              (ground arith) _ refl)
      ]
