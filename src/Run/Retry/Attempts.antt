-- ===== src/Run/Retry/Attempts.antt =====
-- What the retry wrapper guarantees (packages/core/src/run/index.ts, `retry`).
use workit.Prelude.{
  ℕ, zero, suc, ◌+◌, ◌-◌, ◌≤◌, ◌<◌, ◌≡◌, refl, sym, ap, subst, length, ◌∙◌, ◌⊎◌, ◌↔◌, inl, inr,
  Bool, true, false, Option, some, ◌∷◌, Result, ok, err, ◌>>=◌, arith, >>=-eq-ok,
}
use workit.Engine.Retry.{Retry, RetryPolicy, budget_of, normalize_retry}
use workit.Engine.Retry.Bounds.{normalize_retry_times}
use workit.Run.Thrown.{Thrown, is_cancellation}
use workit.Run.Retry.{World, Run, Budget, consume_one, stop, charged, retry_loop, retry, is_some}
use workit.Run.Retry.Rounds.{
  invocations, numbers_from, IsLast, IsRetried, IsOwn, Stops, last-Stops, IsRound,
  after_attempt-IsRound, ended-invocations,
}

-- `k` charges in a row.
pub charges : {X : Type 0} → Bool → ℕ → Option Budget → Result (Thrown X) (Option Budget)
charges budgeted zero b = ok b
charges budgeted (suc k) b = charged budgeted b >>= charges budgeted k

charges-one :
    {X : Type 0} (budgeted : Bool) (b : Option Budget)
    → charges {X = X} budgeted 1 b ≡ charged budgeted b
unfolding charges
charges-one {X = X} budgeted b =
    elim (charged {X = X} budgeted b) as (λ r. (r >>= charges {X = X} budgeted 0) ≡ r) [
      | ok c ↦ refl
      | err e ↦ refl
    ]

charged-fits :
    {X : Type 0} (b : Budget) (r : Option Budget)
    → charged {X = X} true (some b) ≡ ok r
    → (b.spent < b.limit) × (r ≡ some (record b { spent = suc b.spent }))
unfolding charged consume_one
charged-fits b r e = (ground arith, ground arith)

-- Charging a budget `k` times spends `k` of it, and keeps within its limit.
charges-spend :
    {X : Type 0} (k : ℕ) (b : Budget) (o : Option Budget)
    → charges {X = X} true k (some b) ≡ ok o
    → b.spent ≤ b.limit
    → (c : Budget) × (o ≡ some c)
      × (c.limit ≡ b.limit)
      × (c.spent ≡ k + b.spent)
      × (c.spent ≤ c.limit)
unfolding charges charged consume_one
charges-spend zero b o e v = (b, cc, refl, omega arith, v)
charges-spend {X = X} (suc k) b o e v =
    let (r, er, rest) = >>=-eq-ok (charged {X = X} true (some b)) _ e in
    let (fits, same) = charged-fits {X = X} b r er in
    let (c, oc, cl, cs, cle) =
      charges-spend {X = X} k (record b { spent = suc b.spent }) o
        (subst (λ t. charges {X = X} true k t ≡ ok o) same rest) (omega arith) in
    (c, oc, cl, omega arith, cle)

length-numbers_from : (n k : ℕ) → length (numbers_from n k) ≡ k
length-numbers_from n zero = refl
length-numbers_from n (suc k) = ap suc (length-numbers_from (suc n) k)

Stops-same :
    {X A : Type 0} {w : World X} {policy : RetryPolicy (Thrown X)} {l1 l2 : ℕ}
    {c1 c2 : Result (Thrown X) (Option Budget)} {n1 n2 : ℕ} {r q : Result (Thrown X) A}
    → l1 ≡ l2
    → c1 ≡ c2
    → n1 ≡ n2
    → Stops w policy l1 c1 n1 r q
    → Stops w policy l2 c2 n2 r q
Stops-same {w = w} {policy = policy} {l2 = l2} {c1 = c1} {c2 = c2} {n1 = n1} {r = r} {q = q} l c n
      h =
    subst (λ i. Stops w policy l2 c2 i r q) n
      (subst (λ i. Stops w policy l2 i n1 r q) c (subst (λ i. Stops w policy i c1 n1 r q) l h))

module _ {X A S : Type 0} where
  -- What the `j`-th attempt after attempt `n` returns, when all those before it were made.
  abbrev pub attempt_of : (ℕ → S → Result (Thrown X) A × S) → ℕ → S → ℕ → Result (Thrown X) A × S
  attempt_of task n s zero = task n s
  attempt_of task n s (suc j) = attempt_of task (suc n) (task n s).1 j

  -- The `j`-th attempt after attempt `n` failed with an error that is no cancellation and that the
  -- policy retries.
  abbrev pub IsRetryable :
      RetryPolicy (Thrown X) → (ℕ → S → Result (Thrown X) A × S) → ℕ → S → ℕ → Type 0
  IsRetryable policy task n s zero =
      (e : Thrown X) × ((task n s).0 ≡ err e)
      × (is_cancellation e ≡ false)
      × (policy.retry_if e n ≡ true)
  IsRetryable policy task n s (suc j) = IsRetryable policy task (suc n) (task n s).1 j

  pub record IsHistory (w : World X) (policy : RetryPolicy (Thrown X)) (budgeted : Bool)
      (task : ℕ → S → Result (Thrown X) A × S) (rounds n : ℕ) (s : S) (b : Option Budget)
      (q : Run X A S) : Type 0 where
    pub retries : ℕ
    pub bounded : retries ≤ rounds
    pub made : invocations q.events ≡ numbers_from n (suc retries)
    pub left : q.state ≡ (attempt_of task n s retries).1
    pub justified : (j : ℕ) → j < retries → IsRetryable policy task n s j
    pub returned : (v : A) → q.result ≡ ok v → (attempt_of task n s retries).0 ≡ ok v
    pub thrown :
        (e : Thrown X) → q.result ≡ err e → ((attempt_of task n s retries).0 ≡ err e) ⊎ IsOwn w e
    pub kept : (v : A) → (attempt_of task n s retries).0 ≡ ok v → q.result ≡ ok v
    pub stops :
        Stops w policy
          (rounds - retries)
          (charges {X = X} budgeted (suc retries) b)
          (n + retries)
          (attempt_of task n s retries).0
          q.result
    pub paid :
        (charges {X = X} budgeted retries b ≡ ok q.budget)
        ⊎ (charges {X = X} budgeted (suc retries) b ≡ ok q.budget)

  last-IsHistory :
      (w : World X) (policy : RetryPolicy (Thrown X)) (budgeted : Bool)
      (task : ℕ → S → Result (Thrown X) A × S) (rounds n : ℕ) (s : S) (b : Option Budget)
      (q : Run X A S)
      → IsLast w policy rounds budgeted n (task n s).1 b (task n s).0 q
      → IsHistory w policy budgeted task rounds n s b q
  unfolding charges
  last-IsHistory w policy budgeted task rounds n s b q l = record {
    retries = 0;
    bounded = omega arith;
    made = l.made;
    left = l.left;
    justified = λ j h. absurd (omega arith);
    returned = l.returned;
    thrown = l.thrown;
    kept = l.kept;
    stops = Stops-same (omega arith) (sym (charges-one budgeted b)) (omega arith) l.stops;
    paid = elim l.paid [ inl e ↦ inl (ap ok (sym e)) | inr e ↦ inr (rw e refl) ];
  }

  retried-IsHistory :
      (w : World X) (policy : RetryPolicy (Thrown X)) (budgeted : Bool)
      (task : ℕ → S → Result (Thrown X) A × S) (rounds n : ℕ) (s : S) (b : Option Budget)
      (next : Option Budget → Run X A S) (q : Run X A S)
      (r : IsRetried policy budgeted n b (task n s).0 next q)
      → IsHistory w policy budgeted task rounds (suc n) (task n s).1 r.charge (next r.charge)
      → IsHistory w policy budgeted task (suc rounds) n s b q
  unfolding charges
  retried-IsHistory w policy budgeted task rounds n s b next q r h =
      let (er, es, eb, ei) = r.goes_on in
      record {
        retries = suc h.retries;
        bounded = omega (arith, h.bounded);
        made = ei ∙ ap (◌∷◌ n) h.made;
        left = es ∙ h.left;
        justified = λ j. elim j as (λ i. i < suc h.retries → IsRetryable policy task n s i) [
          | zero ↦ λ _. (r.error, r.failed, r.uncancelled, r.wanted)
          | suc i ↦ λ k. h.justified i (omega arith)
        ];
        returned = λ v k. h.returned v (sym er ∙ k);
        thrown = λ e k. h.thrown e (sym er ∙ k);
        kept = λ v k. er ∙ h.kept v k;
        stops =
            subst
              (Stops w policy _ (charges {X = X} budgeted (suc (suc h.retries)) b) _
                (attempt_of task n s (suc h.retries)).0)
              (sym er) (Stops-same (omega arith) (rw r.paid refl) (omega arith) h.stops);
        paid = elim h.paid [
          | inl e ↦ inl (rw r.paid (e ∙ ap ok (sym eb)))
          | inr e ↦ inr (rw r.paid (e ∙ ap ok (sym eb)))
        ];
      }

  pub retry_loop-IsHistory :
      (policy : RetryPolicy (Thrown X)) (budgeted owns : Bool) (w : World X)
      (task : ℕ → S → Result (Thrown X) A × S) (rounds n : ℕ) (s : S) (b : Option Budget)
      → IsHistory w policy budgeted task rounds n s b
          (retry_loop policy budgeted owns w task rounds n s b)
  unfolding retry_loop stop IsRound
  retry_loop-IsHistory policy budgeted owns w task zero n s b =
      last-IsHistory w policy budgeted task zero n s b _ (record {
        made = ended-invocations owns n (task n s).0;
        left = refl;
        returned = λ v k. k;
        thrown = λ e k. inl k;
        kept = λ v k. k;
        stops = last-Stops w policy 0 _ n (task n s).0 refl;
        paid = inl refl;
      })
  retry_loop-IsHistory policy budgeted owns w task (suc rounds) n s b =
      elim (after_attempt-IsRound policy (suc rounds) budgeted owns w n (task n s).1 b (task n s).0
        _) [
          | inl l ↦ last-IsHistory w policy budgeted task (suc rounds) n s b _ l
          | inr r ↦ retried-IsHistory w policy budgeted task rounds n s b _ _ r (
              retry_loop-IsHistory policy budgeted owns w task rounds (suc n) (task n s).1 r.charge)
        ]

  pub retry-IsHistory :
      (opts : Retry (Thrown X)) (owns : Bool) (w : World X) (task : ℕ → S → Result (Thrown X) A × S)
      (s : S) (b : Option Budget) (policy : RetryPolicy (Thrown X)) (q : Run X A S)
      → normalize_retry opts ≡ ok policy
      → retry opts owns w task s b ≡ ok q
      → IsHistory w policy (is_some (budget_of opts)) task (policy.times - 1) 1 s b q
  unfolding retry
  retry-IsHistory opts owns w task s b policy q p e =
      let (p2, e2, e3) = >>=-eq-ok (normalize_retry opts) _ e in
      let same : p2 ≡ policy = cc in
      let made : retry_loop policy (is_some (budget_of opts)) owns w task (policy.times - 1) 1 s b
          ≡ q =
        cc in
      subst (IsHistory w policy (is_some (budget_of opts)) task (policy.times - 1) 1 s b) made
        (retry_loop-IsHistory policy _ owns w task _ 1 s b)

  -- A retried task makes the attempts 1, 2, … up to one that ends the run, at least one and at most
  -- `times`. Each attempt but the last failed with an error that is no cancellation and that the
  -- policy retries, each one started from the state that the one before it left, the run leaves the
  -- state of the last one, it returns a value when and only when the last attempt returned that value,
  -- and an error that it throws is the last attempt's or its own: of a delay, of the sleep or of the
  -- budget. The run ends after the last attempt because that one returned, was cancelled, failed with
  -- an error that the policy does not retry or was attempt `times`, and then ends as the attempt did;
  -- or because the next charge was refused, the next delay is out of range or the sleep was cut short,
  -- and then throws that error.
  pub retry-attempts :
      (opts : Retry (Thrown X)) (owns : Bool) (w : World X) (task : ℕ → S → Result (Thrown X) A × S)
      (s : S) (b : Option Budget) (policy : RetryPolicy (Thrown X)) (q : Run X A S)
      → normalize_retry opts ≡ ok policy
      → retry opts owns w task s b ≡ ok q
      → (k : ℕ) × (suc k ≤ policy.times)
        × (invocations q.events ≡ numbers_from 1 (suc k))
        × ((j : ℕ) → j < k → IsRetryable policy task 1 s j)
        × (q.state ≡ (attempt_of task 1 s k).1)
        × ((v : A) → (q.result ≡ ok v) ↔ ((attempt_of task 1 s k).0 ≡ ok v))
        × ((e : Thrown X) → q.result ≡ err e → ((attempt_of task 1 s k).0 ≡ err e) ⊎ IsOwn w e)
        × Stops w policy
            (policy.times - suc k)
            (charges {X = X} (is_some (budget_of opts)) (suc k) b)
            (suc k)
            (attempt_of task 1 s k).0
            q.result
  unfolding retry
  retry-attempts opts owns w task s b policy q p e =
      let h = retry-IsHistory opts owns w task s b policy q p e in
      let (low, high) = normalize_retry_times opts policy p in
      (
        h.retries,
        omega (arith, h.bounded),
        h.made,
        h.justified,
        h.left,
        (λ v. (h.returned v, h.kept v)),
        h.thrown,
        Stops-same (omega (arith, h.bounded, low)) refl (omega arith) h.stops,
      )

  -- The budget that a retry policy names limits the attempts: when a budget with `spent` of `limit`
  -- spent is visible and not overspent, a run that ends has spent no more than `limit`, has kept the limit, and
  -- has made at most `1 + (limit - spent)` attempts, all but the first paid for.
  pub retry-within_budget :
      (opts : Retry (Thrown X)) (owns : Bool) (w : World X) (task : ℕ → S → Result (Thrown X) A × S)
      (s : S) (b : Budget) (policy : RetryPolicy (Thrown X)) (q : Run X A S)
      → is_some (budget_of opts) ≡ true
      → normalize_retry opts ≡ ok policy
      → retry opts owns w task s (some b) ≡ ok q
      → b.spent ≤ b.limit
      → (c : Budget) × (q.budget ≡ some c)
        × (c.limit ≡ b.limit)
        × (c.spent ≤ c.limit)
        × (length (invocations q.events) + b.spent ≤ suc c.spent)
  retry-within_budget opts owns w task s b policy q budgeted p e v =
      let h = retry-IsHistory opts owns w task s (some b) policy q p e in
      let paid : (charges {X = X} true h.retries (some b) ≡ ok q.budget)
          ⊎ (charges {X = X} true (suc h.retries) (some b) ≡ ok q.budget) =
        subst
          (λ t.
            (charges {X = X} t h.retries (some b) ≡ ok q.budget)
            ⊎ (charges {X = X} t (suc h.retries) (some b) ≡ ok q.budget))
          budgeted h.paid in
      let made : length (invocations q.events) ≡ suc h.retries =
        ap length h.made ∙ length-numbers_from 1 (suc h.retries) in
      elim paid [
        | inl x ↦
            let (c, oc, cl, cs, cle) = charges-spend h.retries b q.budget x v in
            (c, oc, cl, cle, omega arith)
        | inr x ↦
            let (c, oc, cl, cs, cle) = charges-spend (suc h.retries) b q.budget x v in
            (c, oc, cl, cle, omega arith)
      ]
