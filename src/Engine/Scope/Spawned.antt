-- ===== src/Engine/Scope/Spawned.antt =====
-- When `spawn` returns (packages/core/src/engine/scope.ts).
use workit.Prelude.{ℕ, ◌≡◌, refl, true, ok, >>=-eq-ok, ok_injective, if-elim}
use workit.Engine.Scope.{
  Scope, SpawnOpts, is_running, spawn, admit, reuse_or_start, handle_of, assert_bounded_string,
  max_task_name_length, max_idempotency_key_length, task_name, idempotency_key_length,
}

module _ {X : Type 0} (o : SpawnOpts) (s : Scope X) where
  admit-ok :
      (r : ℕ × Scope X)
      → admit o s ≡ ok r
      → reuse_or_start (handle_of o.idempotency_key s.idempotency_handles) o s ≡ r
  unfolding admit
  admit-ok r e =
      let (u, e1, h1) =
        >>=-eq-ok (assert_bounded_string task_name max_task_name_length o.name) _ e in
      let (w, e2, h2) =
        >>=-eq-ok
          (assert_bounded_string idempotency_key_length max_idempotency_key_length
            o.idempotency_key)
          _ h1 in
      ok_injective _ _ refl h2

  -- The scope runs, and the task is new or in flight under the same key.
  pub spawn-ok :
      (r : ℕ × Scope X)
      → spawn o s ≡ ok r
      → (is_running s.state ≡ true)
        × (reuse_or_start (handle_of o.idempotency_key s.idempotency_handles) o s ≡ r)
  unfolding spawn
  spawn-ok r =
      if-elim
        (λ x.
          x ≡ ok r
          → (is_running s.state ≡ true)
            × (reuse_or_start (handle_of o.idempotency_key s.idempotency_handles) o s ≡ r))
        (is_running s.state) _ _ (λ b e. (b, admit-ok r e)) (λ b e. absurd cc)
