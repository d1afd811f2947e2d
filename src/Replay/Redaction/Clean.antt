-- ===== src/Replay/Redaction/Clean.antt =====
-- What a redacted value can still hold (packages/core/src/replay/index.ts, `redactValue`).
use mathlib.Core.Path.{fun_ext}
use workit.Prelude.{
  ℕ, suc, ◌+◌, ◌≤◌, ◌≡◌, refl, subst, ◌∙◌, Bool, true, false, List, max, arith, if◌then◌else◌,
  not_ltb→le,
}
use workit.Replay.Redaction.{
  Value, null, scalar, text, error, array, object, Items, nil, cons, Fields, end, field, Policy,
  lower, to_lower_case, has, redacted_mark, max_depth_mark, normalized, redact_value, redact_items,
  redact_fields, name_field, message_field, ReceiptRedactionPolicy, runtime_policy, redact_receipt,
}
use workit.Replay.Redaction.Names.{
  removed_by, redacted_by, depth_limit, removes, redacts, removes-policy, redacts-policy,
  depth-policy,
}

-- Nothing stands under a name to remove, and only the mark under a name to redact, at any depth, and
-- no error is left.
abbrev mutual
  pub IsCleanBy : (removed redacted : List ℕ → Bool) → Value → Type 0
  IsCleanBy f g null = Unit
  IsCleanBy f g (scalar n) = Unit
  IsCleanBy f g (text t) = Unit
  IsCleanBy f g (error name message) = ⊥
  IsCleanBy f g (array xs) = IsCleanItems f g xs
  IsCleanBy f g (object fs) = IsCleanFields f g fs

  pub IsCleanItems : (removed redacted : List ℕ → Bool) → Items → Type 0
  IsCleanItems f g nil = Unit
  IsCleanItems f g (cons x xs) = IsCleanBy f g x × IsCleanItems f g xs

  pub IsCleanFields : (removed redacted : List ℕ → Bool) → Fields → Type 0
  IsCleanFields f g end = Unit
  IsCleanFields f g (field k v fs) =
      (f k ≡ false) × (g k ≡ true → v ≡ text redacted_mark) × IsCleanBy f g v × IsCleanFields f g fs

abbrev pub IsClean : Policy → Value → Type 0
IsClean p = IsCleanBy (removes p) (redacts p)

-- How deep a value is nested.
abbrev mutual
  pub nesting : Value → ℕ
  nesting null = 1
  nesting (scalar n) = 1
  nesting (text t) = 1
  nesting (error name message) = 1
  nesting (array xs) = suc (nesting_items xs)
  nesting (object fs) = suc (nesting_fields fs)

  pub nesting_items : Items → ℕ
  nesting_items nil = 0
  nesting_items (cons x xs) = max (nesting x) (nesting_items xs)

  pub nesting_fields : Fields → ℕ
  nesting_fields end = 0
  nesting_fields (field k v fs) = max (nesting v) (nesting_fields fs)

-- A policy that leaves the two fields of a normalized error alone.
abbrev pub KeepsErrors : Policy → Type 0
KeepsErrors p =
    (has p.remove_fields name_field ≡ false)
    × (has p.redact_fields name_field ≡ false)
    × (has p.remove_fields message_field ≡ false)
    × (has p.redact_fields message_field ≡ false)

-- A value, or the mark where it stands too deep.
pub within :
    (P : Value → Type 0) (b : Bool) (v : Value)
    → (b ≡ true → P (text max_depth_mark))
    → (b ≡ false → P v)
    → P (if b then text max_depth_mark else v)
within P true v deep shallow = deep refl
within P false v deep shallow = shallow refl

-- The fields after one field, which is removed, marked or kept.
pub field_cases :
    (P : Fields → Type 0) (removed redacted : Bool) (rest : Fields) (marked kept : Fields)
    → (removed ≡ true → P rest)
    → (removed ≡ false → redacted ≡ true → P marked)
    → (removed ≡ false → redacted ≡ false → P kept)
    → P (if removed then rest else if redacted then marked else kept)
field_cases P true redacted rest marked kept r m k = r refl
field_cases P false true rest marked kept r m k = m refl refl
field_cases P false false rest marked kept r m k = k refl refl

module _ (p : Policy) (keeps : KeepsErrors p) where
  mutual
    unfolding redact_value

    redact_value-IsClean : (d : ℕ) (v : Value) → IsClean p (redact_value p d v)
    redact_value-IsClean d null = within (IsClean p) _ null (λ e. tt) (λ e. tt)
    redact_value-IsClean d (scalar n) = within (IsClean p) _ (scalar n) (λ e. tt) (λ e. tt)
    redact_value-IsClean d (text t) = within (IsClean p) _ (text t) (λ e. tt) (λ e. tt)
    redact_value-IsClean d (error name message) =
        within (IsClean p) _ (normalized name message) (λ e. tt)
          (λ e. (keeps.0, (λ h. cc (keeps.1)), tt, (keeps.2, (λ h. cc (keeps.3)), tt, tt)))
    redact_value-IsClean d (array xs) =
        within (IsClean p) _ (array (redact_items p (suc d) xs)) (λ e. tt)
          (λ e. redact_items-clean (suc d) xs)
    redact_value-IsClean d (object fs) =
        within (IsClean p) _ (object (redact_fields p (suc d) fs)) (λ e. tt)
          (λ e. redact_fields-clean (suc d) fs)

    redact_items-clean :
        (d : ℕ) (xs : Items) → IsCleanItems (removes p) (redacts p) (redact_items p d xs)
    redact_items-clean d nil = tt
    redact_items-clean d (cons x xs) = (redact_value-IsClean d x, redact_items-clean d xs)

    redact_fields-clean :
        (d : ℕ) (fs : Fields) → IsCleanFields (removes p) (redacts p) (redact_fields p d fs)
    redact_fields-clean d end = tt
    redact_fields-clean d (field k v fs) =
        field_cases (IsCleanFields (removes p) (redacts p)) (has p.remove_fields (to_lower_case k))
          (has p.redact_fields (to_lower_case k)) _ _ _ (λ r. redact_fields-clean d fs)
          (λ r m. (r, (λ h. refl), tt, redact_fields-clean d fs))
          (λ r m. (r, (λ h. cc), redact_value-IsClean d v, redact_fields-clean d fs))

module _ (p : Policy) where
  mutual
    unfolding redact_value

    redact_value-nesting :
        (d : ℕ) (v : Value)
        → d ≤ suc p.max_depth
        → nesting (redact_value p d v) + d ≤ p.max_depth + 2
    redact_value-nesting d null h =
        within (λ w. nesting w + d ≤ p.max_depth + 2) _ null (λ e. omega arith) (λ e. omega arith)
    redact_value-nesting d (scalar n) h =
        within (λ w. nesting w + d ≤ p.max_depth + 2) _ (scalar n) (λ e. omega arith)
          (λ e. omega arith)
    redact_value-nesting d (text t) h =
        within (λ w. nesting w + d ≤ p.max_depth + 2) _ (text t) (λ e. omega arith)
          (λ e. omega arith)
    redact_value-nesting d (error name message) h =
        within (λ w. nesting w + d ≤ p.max_depth + 2) _ (normalized name message) (λ e. omega arith)
          (λ e. omega (arith, not_ltb→le p.max_depth d e))
    redact_value-nesting d (array xs) h =
        within (λ w. nesting w + d ≤ p.max_depth + 2) _ (array (redact_items p (suc d) xs))
          (λ e. omega arith)
          (λ e.
            omega
              (arith, redact_items-nesting (suc d) xs (omega (arith, not_ltb→le p.max_depth d e))))
    redact_value-nesting d (object fs) h =
        within (λ w. nesting w + d ≤ p.max_depth + 2) _ (object (redact_fields p (suc d) fs))
          (λ e. omega arith)
          (λ e.
            omega
              (arith, redact_fields-nesting (suc d) fs (omega (arith, not_ltb→le p.max_depth d e))))

    redact_items-nesting :
        (d : ℕ) (xs : Items)
        → d ≤ suc p.max_depth
        → nesting_items (redact_items p d xs) + d ≤ p.max_depth + 2
    redact_items-nesting d nil h = omega arith
    redact_items-nesting d (cons x xs) h =
        omega (arith, redact_value-nesting d x h, redact_items-nesting d xs h)

    redact_fields-nesting :
        (d : ℕ) (fs : Fields)
        → d ≤ suc p.max_depth
        → nesting_fields (redact_fields p d fs) + d ≤ p.max_depth + 2
    redact_fields-nesting d end h = omega arith
    redact_fields-nesting d (field k v fs) h =
        let rest = redact_fields-nesting d fs h in
        field_cases (λ w. nesting_fields w + d ≤ p.max_depth + 2)
          (has p.remove_fields (to_lower_case k)) (has p.redact_fields (to_lower_case k)) _ _ _
          (λ r. rest) (λ r m. omega (arith, rest))
          (λ r m. omega (arith, rest, redact_value-nesting d v h))

-- The options of a caller name neither of the two fields of an error.
abbrev pub SparesErrors : ReceiptRedactionPolicy → Type 0
SparesErrors o =
    (removed_by o name_field ≡ false)
    × (redacted_by o name_field ≡ false)
    × (removed_by o message_field ≡ false)
    × (redacted_by o message_field ≡ false)

keeps_errors : (o : ReceiptRedactionPolicy) → SparesErrors o → KeepsErrors (runtime_policy o)
unfolding to_lower_case lower
keeps_errors o (a, b, c, d) = (
  removes-policy o name_field ∙ a,
  redacts-policy o name_field ∙ b,
  removes-policy o message_field ∙ c,
  redacts-policy o message_field ∙ d,
)

-- In a redacted receipt no field has a name that the caller's options say to remove, and a field whose
-- name they say to redact, or that is redacted by default, holds the mark, at any depth and in any case
-- of letters; no error is left; and it is nested at most two levels beyond the depth of the options, or
-- beyond 8 if they name none. The options are to name neither of the two fields of an error.
pub redact_receipt-IsClean :
    (o : ReceiptRedactionPolicy) (v : Value)
    → SparesErrors o
    → IsCleanBy (removed_by o) (redacted_by o) (redact_receipt o v)
      × (nesting (redact_receipt o v) ≤ depth_limit o + 2)
unfolding redact_receipt
redact_receipt-IsClean o v spares =
    let p = runtime_policy o in
    let by : removes p ≡ removed_by o = fun_ext (removes-policy o) in
    let marks : redacts p ≡ redacted_by o = fun_ext (redacts-policy o) in
    let clean = redact_value-IsClean p (keeps_errors o spares) 0 v in
    (
      subst (λ f. IsCleanBy f (redacted_by o) (redact_value p 0 v)) by
          (subst (λ g. IsCleanBy (removes p) g (redact_value p 0 v)) marks clean),
      omega (arith, redact_value-nesting p 0 v (omega arith), depth-policy o),
    )
