-- ===== src/Replay/Redaction/Errors.antt =====
-- What redaction does to an error (packages/core/src/replay/index.ts, `redactValue`).
use workit.Prelude.{ℕ, ◌<◌, ◌≡◌, ◌≢◌, ap, subst, true, false, List, [], arith}
use workit.Replay.Redaction.Clean.{IsClean}
use workit.Replay.Redaction.{
  Policy, Value, error, object, end, field, text, to_lower_case, has, normalized, message_field,
  redacted_mark, redact_value, redact_receipt, ReceiptRedactionPolicy, runtime_policy,
}

unmark : Value → List ℕ
unmark (text t) = t
unmark _ = []

text_injective : {s t : List ℕ} → text s ≡ text t → s ≡ t
unfolding unmark
text_injective e = ap unmark e

error_kept :
    (p : Policy) (k name message : List ℕ)
    → has p.remove_fields (to_lower_case k) ≡ false
    → has p.redact_fields (to_lower_case k) ≡ false
    → 0 < p.max_depth
    → redact_value p 0 (object (field k (error name message) end))
      ≡ object (field k (normalized name message) end)
unfolding redact_value
error_kept p k name message r d h = rw (r, d) (ground arith)

-- The message of an error under a field of a receipt comes through as it is, also under a policy that
-- redacts messages and names not that field, so that the receipt is not clean.
pub redact_receipt-error :
    (o : ReceiptRedactionPolicy) (k name message : List ℕ)
    → has (runtime_policy o).redact_fields message_field ≡ true
    → has (runtime_policy o).remove_fields (to_lower_case k) ≡ false
    → has (runtime_policy o).redact_fields (to_lower_case k) ≡ false
    → 0 < (runtime_policy o).max_depth
    → message ≢ redacted_mark
    → let receipt = object (field k (error name message) end) in
      (redact_receipt o receipt ≡ object (field k (normalized name message) end))
      × ¬ IsClean (runtime_policy o) (redact_receipt o receipt)
unfolding redact_receipt
redact_receipt-error o k name message m r d h secret =
    let kept = error_kept (runtime_policy o) k name message r d h in
    (
      kept,
      λ clean.
          let (_, _, inside, _) = subst (IsClean (runtime_policy o)) kept clean in
          let (_, _, _, last) = inside in secret (text_injective (last.1 m)),
    )
