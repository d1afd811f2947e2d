-- ===== src/Ledger.antt =====
-- packages/core/src/ledger/index.ts. A receipt is a value, as in Replay.Redaction, with its id and its
-- creation time; `JSON.stringify` and the SHA-256 of node:crypto are parameters.
pub mod Stable
pub mod Memory
pub mod Sql
pub mod Files
pub mod Contract
pub mod Order
use workit.Prelude.{
  ℕ, ◌≡◌, Option, none, some, List, same_text, if◌then◌else◌, Result, ok, err, ◌==◌,
}
use workit.Replay.Redaction.{Value}
use workit.Ledger.Stable.{sort_value}

-- What the ledger reads of a `WorkItReceipt`.
pub record Receipt : Type 0 where
  pub receipt_id : List ℕ
  pub created_at : ℕ
  pub content : Value

-- `ReceiptLedgerRecord`.
pub record LedgerRecord : Type 0 where
  pub receipt_id : List ℕ
  pub checksum : List ℕ
  pub created_at : ℕ
  pub stored_at : ℕ

-- `StoredReceipt`.
pub record StoredReceipt : Type 0 where
  pub entry : LedgerRecord
  pub receipt : Receipt

pub data LedgerError : Type 0 where
  conflict : List ℕ → LedgerError
  not_stored : List ℕ → LedgerError
  sql_field : LedgerError
  json_syntax : LedgerError
  io_failed : LedgerError

-- What is outside of the program: `JSON.stringify` and the hash.
pub record Digest : Type 0 where
  pub stringify : Value → List ℕ
  pub sha256 : List ℕ → List ℕ

module _ (d : Digest) where
  -- `checksumReceipt`.
  unfoldable pub checksum_receipt : Receipt → List ℕ
  checksum_receipt r = d.sha256 (d.stringify (sort_value r.content))

  unfoldable pub make_record : Receipt → List ℕ → ℕ → LedgerRecord
  make_record r checksum now = record {
    receipt_id = r.receipt_id;
    checksum = checksum;
    created_at = r.created_at;
    stored_at = now;
  }

-- The answer for a receipt that is there already.
unfoldable pub answer_existing : List ℕ → List ℕ → StoredReceipt → Result LedgerError LedgerRecord
answer_existing id checksum existing =
    if same_text existing.entry.checksum checksum then ok existing.entry else err (conflict id)

-- `finalizeStoredReceipt`.
unfoldable pub finalize_stored_receipt :
    List ℕ → List ℕ → Option StoredReceipt → Result LedgerError LedgerRecord
unfolding answer_existing
finalize_stored_receipt id checksum none = err (not_stored id)
finalize_stored_receipt id checksum (some stored) = answer_existing id checksum stored
