-- ===== src/Ledger/Sql.antt =====
-- The SQL ledgers of packages/core/src/ledger/index.ts. The client of the database is the caller's: `S` is
-- the state of the database, and each statement that the ledgers send is a function on it. The name
-- of the table is fixed.
pub mod Agree
use workit.Prelude.{
  ℕ, Bool, true, false, Option, none, some, List, if◌then◌else◌, Result, ok, err, ◌>>=◌,
}
use workit.Ledger.{
  Receipt, LedgerRecord, StoredReceipt, LedgerError, sql_field, json_syntax, Digest,
  checksum_receipt, finalize_stored_receipt,
}

-- A column as a client returns it: a text, a number, an object that was parsed from JSON, or another
-- value, which `Number` does not read.
pub data SqlValue : Type 0 where
  sql_text : List ℕ → SqlValue
  sql_number : ℕ → SqlValue
  sql_object : Receipt → SqlValue
  sql_other : SqlValue

-- `SqlReceiptRow`.
pub record SqlReceiptRow : Type 0 where
  pub receipt_id : SqlValue
  pub checksum : SqlValue
  pub created_at : SqlValue
  pub stored_at : SqlValue
  pub receipt_json : SqlValue

-- The parameters of an insertion.
pub record Inserted : Type 0 where
  pub receipt_id : List ℕ
  pub checksum : List ℕ
  pub created_at : ℕ
  pub stored_at : ℕ
  pub receipt_json : List ℕ

-- `JSON.stringify` and `JSON.parse` of a receipt, and `Number` of a text, if it is finite.
pub record Json : Type 0 where
  pub stringify : Receipt → List ℕ
  pub parse : List ℕ → Option Receipt
  pub number : List ℕ → Option ℕ

read_sql_string : SqlValue → Result LedgerError (List ℕ)
read_sql_string (sql_text t) = ok t
read_sql_string _ = err sql_field

read_sql_number : Json → SqlValue → Result LedgerError ℕ
read_sql_number j (sql_number n) = ok n
read_sql_number j (sql_text t) = elim (j.number t) [ some n ↦ ok n | none ↦ err sql_field ]
read_sql_number j _ = err sql_field

read_sql_receipt : Json → SqlValue → Result LedgerError Receipt
read_sql_receipt j (sql_text t) = elim (j.parse t) [ some r ↦ ok r | none ↦ err json_syntax ]
read_sql_receipt j (sql_object r) = ok r
read_sql_receipt j _ = err sql_field

unfoldable pub sql_row_to_stored_receipt : Json → SqlReceiptRow → Result LedgerError StoredReceipt
unfolding read_sql_string read_sql_number read_sql_receipt
sql_row_to_stored_receipt j row = do
  receipt_id ← read_sql_string row.receipt_id
  checksum ← read_sql_string row.checksum
  created_at ← read_sql_number j row.created_at
  stored_at ← read_sql_number j row.stored_at
  receipt ← read_sql_receipt j row.receipt_json
  ok (record {
    entry = record {
      receipt_id = receipt_id;
      checksum = checksum;
      created_at = created_at;
      stored_at = stored_at;
    };
    receipt = receipt;
  })

stored_of : Json → Option SqlReceiptRow → Result LedgerError (Option StoredReceipt)
unfolding sql_row_to_stored_receipt
stored_of j none = ok none
stored_of j (some row) = do stored ← sql_row_to_stored_receipt j row; ok (some stored)

inserted : Digest → Json → ℕ → Receipt → Inserted
inserted d j now r = record {
  receipt_id = r.receipt_id;
  checksum = checksum_receipt d r;
  created_at = r.created_at;
  stored_at = now;
  receipt_json = j.stringify r;
}

-- `SqliteReceiptLedgerClient`, with the statements of the ledger.
pub record SqliteClient (S : Type 0) : Type 0 where
  pub create_table : S → S
  pub insert_or_ignore : Inserted → S → S
  pub select : List ℕ → S → Option SqlReceiptRow

-- `PostgresReceiptLedgerClient`: an insertion returns the row that it inserts.
pub record PostgresClient (S : Type 0) : Type 0 where
  pub create_table : S → S
  pub insert_returning : Inserted → S → Option SqlReceiptRow × S
  pub select : List ℕ → S → Option SqlReceiptRow

-- A ledger, with its database.
pub record SqlLedger (S : Type 0) : Type 0 where
  pub initialized : Bool
  pub db : S

-- `ensureInitialized`.
abbrev pub ensure_initialized : {S : Type 0} → (S → S) → SqlLedger S → SqlLedger S
ensure_initialized create l =
    if l.initialized then l else record { initialized = true; db = create l.db }

-- `append` of `createSqliteReceiptLedger`.
unfoldable pub append_sqlite :
    {S : Type 0}
    → SqliteClient S
    → Digest
    → Json
    → ℕ
    → Receipt
    → SqlLedger S
    → Result LedgerError LedgerRecord × SqlLedger S
unfolding stored_of inserted
append_sqlite c d j now r l =
    let ready = ensure_initialized c.create_table l in
    let db = c.insert_or_ignore (inserted d j now r) ready.db in
    (
      (do
        stored ← stored_of j (c.select r.receipt_id db)
        finalize_stored_receipt r.receipt_id (checksum_receipt d r) stored),
      record ready { db = db },
    )

returned_or_read :
    Json → Option SqlReceiptRow → Option SqlReceiptRow → Result LedgerError (Option StoredReceipt)
unfolding stored_of
returned_or_read j (some row) read = stored_of j (some row)
returned_or_read j none read = stored_of j read

-- `append` of `createPostgresReceiptLedger`.
unfoldable pub append_postgres :
    {S : Type 0}
    → PostgresClient S
    → Digest
    → Json
    → ℕ
    → Receipt
    → SqlLedger S
    → Result LedgerError LedgerRecord × SqlLedger S
unfolding returned_or_read inserted
append_postgres c d j now r l =
    let ready = ensure_initialized c.create_table l in
    let (returned, db) = c.insert_returning (inserted d j now r) ready.db in
    (
      (do
        stored ← returned_or_read j returned (c.select r.receipt_id db)
        finalize_stored_receipt r.receipt_id (checksum_receipt d r) stored),
      record ready { db = db },
    )
