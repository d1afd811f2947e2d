-- ===== src/Run/Supervise/Restarts.antt =====
-- When `supervise` restarts its task (packages/core/src/run/index.ts).
use workit.Prelude.{
  ℕ, zero, suc, ◌+◌, ◌-◌, ◌≤◌, ◌≡◌, refl, subst, ◌⊎◌, inl, inr, true, false, Option, none, some,
  Result, ok, err, arith, Bool-cases,
}
use workit.Engine.Errors.{RangeError}
use workit.Run.Thrown.{Thrown, range_error, is_cancellation}
use workit.Run.Supervise.{
  Body, SuperviseOpts, Outside, Supervised, or_default, should_restart, window_expired,
  restart_delay, sleep_and, after_run, supervise_loop, supervise,
}

module _ {X A S : Type 0} (opts : SuperviseOpts X) (world : Outside X) (task : Body X A S) where
  -- The error restarts a task that has been restarted so often, as far as the limit allows.
  abbrev pub IsRestartable : ℕ → Thrown X → Type 0
  IsRestartable n e =
      (is_cancellation e ≡ false)
      × (should_restart opts.restart_on e ≡ true)
      × (window_expired opts world n ≡ false)

  -- The run after `n` restarts in state `s` fails so that it is restarted, and the sleep ends.
  abbrev pub IsRestarted : ℕ → S → Type 0
  IsRestarted n s =
      (e : Thrown X) × ((task s).0 ≡ err e) × IsRestartable n e × (world.sleep (suc n) ≡ none)

  -- All runs but the last of `k` are restarted.
  abbrev pub AllRestarted : (k n : ℕ) → S → Type 0
  AllRestarted zero n s = Unit
  AllRestarted (suc zero) n s = Unit
  AllRestarted (suc (suc k)) n s = IsRestarted n s × AllRestarted (suc k) (suc n) (task s).1

  -- How the last run ends the loop, with `left` restarts left.
  pub data Ends (left n : ℕ) (s : S) (result : Result (Thrown X) A) : Type 0 where
    succeeded : (v : A) → (task s).0 ≡ ok v → result ≡ ok v → Ends left n s result
    thrown :
        (e : Thrown X)
        → (task s).0 ≡ err e
        → result ≡ err e
        → (left ≡ 0)
          ⊎ (is_cancellation e ≡ true)
          ⊎ (should_restart opts.restart_on e ≡ false)
          ⊎ (window_expired opts world n ≡ true)
        → Ends left n s result
    interrupted :
        (e d : Thrown X)
        → (task s).0 ≡ err e
        → IsRestartable n e
        → world.sleep (suc n) ≡ some d
        → result ≡ err d
        → Ends left n s result
    undelayed :
        (e : Thrown X) (d : RangeError)
        → (task s).0 ≡ err e
        → IsRestartable n e
        → restart_delay opts world (suc n) ≡ err d
        → result ≡ err (range_error d)
        → Ends left n s result

  abbrev pub Ended : (k left n : ℕ) → S → Result (Thrown X) A → S → Type 0
  Ended zero left n s r t = ⊥
  Ended (suc zero) left n s r t = Ends left n s r × (t ≡ (task s).1)
  Ended (suc (suc k)) left n s r t = Ended (suc k) (left - 1) (suc n) (task s).1 r t

  abbrev Promise : (left n : ℕ) → S → ℕ → Result (Thrown X) A → S → Type 0
  Promise left n s k r t = (k ≤ left + 1) × AllRestarted k n s × Ended k left n s r t

  abbrev Keeps : (left n : ℕ) → S → Supervised X A S → Type 0
  Keeps left n s out = Promise left n s out.invocations out.result out.state

  -- A last run that is not restarted.
  once :
      (left n : ℕ) (s : S) (r : Result (Thrown X) A)
      → Ends left n s r
      → Promise left n s 1 r (task s).1
  once left n s r e = (omega arith, tt, (e, refl))

  later :
      (left n : ℕ) (s : S) (k : ℕ) (r : Result (Thrown X) A) (t : S)
      → IsRestarted n s
      → Promise left (suc n) (task s).1 k r t
      → Promise (suc left) n s (suc k) r t
  later left n s zero r t i (bounded, all, ended) = absurd ended
  later left n s (suc k) r t i (bounded, all, ended) = (
    omega arith,
    (i, all),
    subst (λ l. Ended (suc k) l (suc n) (task s).1 r t) (omega arith) ended,
  )

  failed :
      (left n : ℕ) (s : S) (e : Thrown X) (next : Supervised X A S)
      → (task s).0 ≡ err e
      → IsRestartable n e
      → Keeps left (suc n) (task s).1 next
      → (d : Result RangeError ℕ) (z : Option (Thrown X)) → restart_delay opts world (suc n) ≡ d
      → world.sleep (suc n) ≡ z
      → Keeps (suc left) n s (sleep_and (task s).1 d z next)
  unfolding sleep_and
  failed left n s e next f i p (err d) z g h =
      once (suc left) n s (err (range_error d)) (undelayed e d f i g refl)
  failed left n s e next f i p (ok d) (some z) g h =
      once (suc left) n s (err z) (interrupted e z f i h refl)
  failed left n s e next f i p (ok d) none g h =
      later left n s next.invocations next.result next.state (e, f, i, h) p

  after_run-Keeps :
      (left n : ℕ) (s : S) (r : Result (Thrown X) A) (next : Supervised X A S)
      → (task s).0 ≡ r
      → Keeps left (suc n) (task s).1 next
      → Keeps (suc left) n s (after_run opts world n (task s).1 r next)
  unfolding after_run
  after_run-Keeps left n s (ok v) next f p = once (suc left) n s (ok v) (succeeded v f refl)
  after_run-Keeps left n s (err e) next f p = elim (Bool-cases (is_cancellation e)) [
    | inl c ↦ rw c (once (suc left) n s (err e) (thrown e f refl (inr (inl c))))
    | inr c ↦ elim (Bool-cases (should_restart opts.restart_on e)) [
      | inr d ↦ rw (c, d) (once (suc left) n s (err e) (thrown e f refl (inr (inr (inl d)))))
      | inl d ↦ elim (Bool-cases (window_expired opts world n)) [
        | inl w ↦ rw (c, d, w) (once (suc left) n s (err e) (thrown e f refl (inr (inr (inr w)))))
        | inr w ↦
            rw (c, d, w)
              (failed left n s e next f (c, d, w) p (restart_delay opts world (suc n))
                (world.sleep (suc n)) refl refl)
      ]
    ]
  ]

  last_run : (n : ℕ) (s : S) (r : Result (Thrown X) A) → (task s).0 ≡ r → Ends zero n s r
  last_run n s (ok v) e = succeeded v e refl
  last_run n s (err x) e = thrown x e refl (inl refl)

  supervise_loop-Keeps :
      (left n : ℕ) (s : S) → Keeps left n s (supervise_loop opts world task left n s)
  unfolding supervise_loop
  supervise_loop-Keeps zero n s = once zero n s (task s).0 (last_run n s (task s).0 refl)
  supervise_loop-Keeps (suc left) n s =
      after_run-Keeps left n s (task s).0 (supervise_loop opts world task left (suc n) (task s).1)
        refl (supervise_loop-Keeps left (suc n) (task s).1)

  -- A supervised task runs at most once more than `maxRestarts` allows restarts, by default 3. Each run
  -- but the last one fails with an error that is no cancellation and that `restartOn` takes, before
  -- the window is over, and its sleep ends. The result and the state are those of the last run, which
  -- succeeds, or has no restart left, or fails with a cancellation, with an error that is not taken
  -- or too late; or the last run is to be restarted, and the error is that of its sleep or its delay.
  pub supervise-AllRestarted :
      (s : S)
      → ((supervise opts world task s).invocations ≤ or_default opts.max_restarts 3 + 1)
        × AllRestarted (supervise opts world task s).invocations 0 s
        × Ended
            (supervise opts world task s).invocations
            (or_default opts.max_restarts 3)
            0
            s
            (supervise opts world task s).result
            (supervise opts world task s).state
  unfolding supervise
  supervise-AllRestarted s = supervise_loop-Keeps (or_default opts.max_restarts 3) 0 s
