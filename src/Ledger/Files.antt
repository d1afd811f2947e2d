-- ===== src/Ledger/Files.antt =====
-- `createFileReceiptLedger` of packages/core/src/ledger/index.ts. A disk maps paths to the texts of files.
-- JSON, the base64url of Node, the texts of the process id and of the clock in the name of a temporary
-- file, and the failures of the operations of node:fs are parameters.
pub mod Renamed
use workit.Prelude.{
  ℕ, Bool, Option, none, some, List, [], ◌∷◌, ◌++◌, same_text, if◌then◌else◌, Result, ok, err,
  ◌>>=◌,
}
use workit.Ledger.{
  Receipt, LedgerRecord, StoredReceipt, LedgerError, json_syntax, io_failed, Digest,
  checksum_receipt, make_record, answer_existing,
}

-- A file that can be read, with its text, or that cannot.
pub data File : Type 0 where
  contents : List ℕ → File
  unreadable : File

abbrev pub Disk : Type 0
Disk = List ℕ → Option File

-- `JSON.stringify` of a stored receipt, with two spaces, and `JSON.parse`.
pub record StoredJson : Type 0 where
  pub stringify : StoredReceipt → List ℕ
  pub parse : List ℕ → Option StoredReceipt

-- How the operations of an append end: whether `mkdir` and `rename` succeed, and what a `writeFile`
-- that fails leaves of its file.
pub record Outcomes : Type 0 where
  pub mkdir_succeeds : Bool
  pub write_fails : Option (Option File)
  pub rename_succeeds : Bool

-- What a `writeFile` leaves of its file, and `rename`.
unfoldable pub write_file : List ℕ → Option File → Disk → Disk
write_file path f disk p = if same_text path p then f else disk p

unfoldable pub rename : List ℕ → List ℕ → Disk → Disk
rename from to disk p =
    if same_text to p then disk from else if same_text from p then none else disk p

-- ".json" and ".tmp".
abbrev pub json_suffix : List ℕ
json_suffix = b'.' ∷ b'j' ∷ b's' ∷ b'o' ∷ b'n' ∷ []

abbrev pub tmp_suffix : List ℕ
tmp_suffix = b'.' ∷ b't' ∷ b'm' ∷ b'p' ∷ []

pub record Place : Type 0 where
  pub dir : List ℕ
  pub base64url : List ℕ → List ℕ

unfoldable pub receipt_path : Place → List ℕ → List ℕ
receipt_path p id = p.dir ++ (b'/' ∷ (p.base64url id ++ json_suffix))

abbrev pub temp_path : List ℕ → List ℕ → List ℕ → List ℕ
temp_path file pid at = file ++ (b'.' ∷ (pid ++ (b'.' ∷ (at ++ tmp_suffix))))

-- `readStoredReceipt`: a file that is missing is no error.
read_file : StoredJson → Option File → Result LedgerError (Option StoredReceipt)
read_file j none = ok none
read_file j (some unreadable) = err io_failed
read_file j (some (contents t)) = elim (j.parse t) [ some s ↦ ok (some s) | none ↦ err json_syntax ]

unfoldable pub read_stored_receipt :
    StoredJson → List ℕ → Disk → Result LedgerError (Option StoredReceipt)
unfolding read_file
read_stored_receipt j file disk = read_file j (disk file)

abbrev pub file_text : StoredJson → StoredReceipt → List ℕ
file_text j s = j.stringify s ++ b'\n' ∷ []

-- The temporary file is written and renamed.
unfoldable pub store :
    StoredJson
    → Outcomes
    → List ℕ
    → List ℕ
    → StoredReceipt
    → Disk
    → Result LedgerError LedgerRecord × Disk
unfolding write_file rename
store j o temp file s disk = elim o.write_fails [
  | some left ↦ (err io_failed, write_file temp left disk)
  | none ↦
      let written = write_file temp (some (contents (file_text j s))) disk in
      if o.rename_succeeds then (ok s.entry, rename temp file written) else (err io_failed, written)
]

-- `append`, with the texts of the process id and of the second reading of the clock.
unfoldable pub append :
    Place
    → Digest
    → StoredJson
    → Outcomes
    → ℕ
    → List ℕ
    → List ℕ
    → Receipt
    → Disk
    → Result LedgerError LedgerRecord × Disk
unfolding receipt_path read_stored_receipt store
append p d j o now pid at r disk =
    let file = receipt_path p r.receipt_id in
    let checksum = checksum_receipt d r in
    let stored =
      store j o (temp_path file pid at) file
        (record { entry = make_record d r checksum now; receipt = r }) disk in
    if o.mkdir_succeeds
    then elim (read_stored_receipt j file disk) [
      | err e ↦ (err e, disk)
      | ok (some existing) ↦ (answer_existing r.receipt_id checksum existing, disk)
      | ok none ↦ stored
    ]
    else (err io_failed, disk)

abbrev receipt_of : Option StoredReceipt → Option Receipt
receipt_of none = none
receipt_of (some s) = some s.receipt

unfoldable pub get : Place → StoredJson → List ℕ → Disk → Result LedgerError (Option Receipt)
unfolding receipt_path read_stored_receipt
get p j id disk = do stored ← read_stored_receipt j (receipt_path p id) disk; ok (receipt_of stored)
