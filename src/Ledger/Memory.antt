-- ===== src/Ledger/Memory.antt =====
-- `createMemoryReceiptLedger` of packages/core/src/ledger/index.ts. The entries of the map stand in the
-- order of their insertion.
pub mod Bounded
use workit.Prelude.{
  ℕ, Bool, not, Option, none, some, List, [], ◌∷◌, ◌++◌, length, ltb, find, same_text,
  if◌then◌else◌, Result, ok, err,
}
use workit.Engine.Errors.{RangeError, max_receipts}
use workit.Ledger.{
  Receipt, LedgerRecord, StoredReceipt, LedgerError, Digest, checksum_receipt, make_record,
  answer_existing,
}

pub record Memory : Type 0 where
  pub max_receipts : ℕ
  pub entries : List (List ℕ × StoredReceipt)

abbrev or_default : Option ℕ → ℕ
or_default none = 10000
or_default (some n) = n

unfoldable pub create_memory_receipt_ledger : Option ℕ → Result RangeError Memory
create_memory_receipt_ledger o =
    if ltb (or_default o) 1
    then err max_receipts
    else ok (record { max_receipts = or_default o; entries = [] })

-- `entries.delete(oldest)`.
abbrev pub without_oldest : List (List ℕ × StoredReceipt) → List (List ℕ × StoredReceipt)
without_oldest [] = []
without_oldest (e ∷ es) = es

unfoldable pub make_room : Memory → List (List ℕ × StoredReceipt)
make_room m =
    if not (ltb (length m.entries) m.max_receipts) then without_oldest m.entries else m.entries

store : Digest → ℕ → Receipt → List ℕ → Memory → Result LedgerError LedgerRecord × Memory
unfolding make_room
store d now r checksum m =
    let entry = make_record d r checksum now in
    (
      ok entry,
      record m {
        entries = make_room m ++ (r.receipt_id, record { entry = entry; receipt = r }) ∷ [];
      },
    )

unfoldable pub append : Digest → ℕ → Receipt → Memory → Result LedgerError LedgerRecord × Memory
unfolding store
append d now r m =
    let checksum = checksum_receipt d r in
    elim (find r.receipt_id m.entries) [
      | some existing ↦ (answer_existing r.receipt_id checksum existing, m)
      | none ↦ store d now r checksum m
    ]

abbrev receipt_of : Option StoredReceipt → Option Receipt
receipt_of none = none
receipt_of (some s) = some s.receipt

unfoldable pub get : List ℕ → Memory → Option Receipt
get id m = receipt_of (find id m.entries)
