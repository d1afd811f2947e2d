-- ===== src/Ledger/Contract.antt =====
-- What every `ReceiptLedger` promises (packages/core/src/ledger/index.ts): an append-only map from
-- receipt ids, where a second append of a receipt gives the first record and another content is refused.
use workit.Prelude.{ℕ, Option, none, some, List, same_text, if◌then◌else◌, Result, ok, err}
use workit.Ledger.{
  Receipt, LedgerRecord, StoredReceipt, LedgerError, conflict, Digest, checksum_receipt,
}

abbrev pub View : Type 0
View = List ℕ → Option StoredReceipt

abbrev pub put : View → List ℕ → StoredReceipt → View
put v id s j = if same_text id j then some s else v j

-- The first record of a receipt.
abbrev pub first_record : Digest → ℕ → Receipt → StoredReceipt
first_record d now r = record {
  entry = record {
    receipt_id = r.receipt_id;
    checksum = checksum_receipt d r;
    created_at = r.created_at;
    stored_at = now;
  };
  receipt = r;
}

abbrev pub append_result :
    Digest → ℕ → Receipt → Option StoredReceipt → Result LedgerError LedgerRecord
append_result d now r none = ok (first_record d now r).entry
append_result d now r (some e) =
    if same_text e.entry.checksum (checksum_receipt d r)
    then ok e.entry
    else err (conflict r.receipt_id)

abbrev pub append_view : Digest → ℕ → Receipt → View → View
append_view d now r v = elim (v r.receipt_id) [
  | none ↦ put v r.receipt_id (first_record d now r)
  | some e ↦ v
]
