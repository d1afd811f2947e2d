-- ===== src/Ledger/Sql/Agree.antt =====
-- Both SQL ledgers keep the contract of a ledger (packages/core/src/ledger/index.ts), over a client that
-- does what SQL says of the statements.
use workit.Prelude.{
  option-cases, ℕ, ◌≡◌, refl, ap, sym, ◌∙◌, ◌⊎◌, Option, none, some, List, same_text_refl, ok, inl,
  inr, Bool-cases,
}
use mathlib.Core.Path.{fun_ext}
use workit.Ledger.{
  Receipt, LedgerRecord, StoredReceipt, Digest, checksum_receipt, finalize_stored_receipt,
  answer_existing, make_record,
}
use workit.Ledger.Order.{Reordered}
use workit.Ledger.Contract.{View, put, first_record, append_result, append_view}
use workit.Ledger.Sql.{
  SqlValue, sql_text, sql_number, sql_object, SqlReceiptRow, Inserted, Json, read_sql_string,
  read_sql_number, read_sql_receipt, sql_row_to_stored_receipt, stored_of, inserted, SqliteClient,
  PostgresClient, SqlLedger, ensure_initialized, append_sqlite, append_postgres, returned_or_read,
}

-- A number column comes back as a number or as its decimal text.
abbrev pub IsNumber : Json → SqlValue → ℕ → Type 0
IsNumber j v n = (v ≡ sql_number n) ⊎ (t : List ℕ) × (v ≡ sql_text t) × (j.number t ≡ some n)

-- The column of a receipt comes back as a text or as a parsed object, and, as JSONB does not keep the
-- order of fields, with its fields in any order.
abbrev pub IsReceipt : Json → SqlValue → Receipt → Type 0
IsReceipt j v r =
    (s : Receipt) × (s.receipt_id ≡ r.receipt_id)
    × (s.created_at ≡ r.created_at)
    × Reordered r.content s.content
    × ((v ≡ sql_object s) ⊎ (t : List ℕ) × (v ≡ sql_text t) × (j.parse t ≡ some s))

-- A row with the values of a stored receipt.
pub record Holds (j : Json) (row : SqlReceiptRow) (s : StoredReceipt) : Type 0 where
  pub receipt_id : row.receipt_id ≡ sql_text s.entry.receipt_id
  pub checksum : row.checksum ≡ sql_text s.entry.checksum
  pub created_at : IsNumber j row.created_at s.entry.created_at
  pub stored_at : IsNumber j row.stored_at s.entry.stored_at
  pub receipt_json : IsReceipt j row.receipt_json s.receipt

abbrev pub HoldsMaybe : Json → Option SqlReceiptRow → Option StoredReceipt → Type 0
HoldsMaybe j none none = Unit
HoldsMaybe j none (some s) = ⊥
HoldsMaybe j (some row) none = ⊥
HoldsMaybe j (some row) (some s) = Holds j row s

-- What is inserted for a receipt, as it is stored.
abbrev pub new_entry : Inserted → Receipt → StoredReceipt
new_entry i r = record {
  entry = record {
    receipt_id = i.receipt_id;
    checksum = i.checksum;
    created_at = i.created_at;
    stored_at = i.stored_at;
  };
  receipt = r;
}

abbrev pub put_if_absent : View → List ℕ → StoredReceipt → View
put_if_absent v id s = elim (v id) [ none ↦ put v id s | some e ↦ v ]

-- The table of a database, and how the statements act on it.
pub record SqliteLaws {S : Type 0} (c : SqliteClient S) (j : Json) (table : S → View) : Type 0 where
  pub table-create_table : (s : S) (k : List ℕ) → table (c.create_table s) k ≡ table s k
  pub table-insert_or_ignore :
      (i : Inserted) (r : Receipt) (s : S) (k : List ℕ)
      → j.parse i.receipt_json ≡ some r
      → table (c.insert_or_ignore i s) k ≡ put_if_absent (table s) i.receipt_id (new_entry i r) k
  pub select_holds : (k : List ℕ) (s : S) → HoldsMaybe j (c.select k s) (table s k)

pub record PostgresLaws {S : Type 0} (c : PostgresClient S) (j : Json) (table : S → View)
    : Type 0 where
  pub table-create_table : (s : S) (k : List ℕ) → table (c.create_table s) k ≡ table s k
  pub table-insert_returning :
      (i : Inserted) (r : Receipt) (s : S) (k : List ℕ)
      → j.parse i.receipt_json ≡ some r
      → table (c.insert_returning i s).1 k ≡ put_if_absent (table s) i.receipt_id (new_entry i r) k
  pub returning_holds :
      (i : Inserted) (r : Receipt) (s : S)
      → j.parse i.receipt_json ≡ some r
      → HoldsMaybe j
          (c.insert_returning i s).0
          (elim (table s i.receipt_id) [ none ↦ some (new_entry i r) | some e ↦ none ])
  pub select_holds : (k : List ℕ) (s : S) → HoldsMaybe j (c.select k s) (table s k)

read_number-ok : (j : Json) (v : SqlValue) (n : ℕ) → IsNumber j v n → read_sql_number j v ≡ ok n
unfolding read_sql_number
read_number-ok j v n (inl e) = rw e
read_number-ok j v n (inr (t, e, f)) = rw (e, read_sql_number, f)

read_receipt-ok :
    (j : Json) (v : SqlValue) (r : Receipt)
    → IsReceipt j v r
    → (s : Receipt) × (read_sql_receipt j v ≡ ok s)
unfolding read_sql_receipt
read_receipt-ok j v r (s, _, _, _, inl e) = (s, rw e)
read_receipt-ok j v r (s, _, _, _, inr (t, e, f)) = (s, rw (e, read_sql_receipt, f))

-- What is read of a row has the record of the stored receipt.
read_row-ok :
    (j : Json) (row : SqlReceiptRow) (s : StoredReceipt)
    → Holds j row s
    → (t : StoredReceipt) × (sql_row_to_stored_receipt j row ≡ ok t) × (t.entry ≡ s.entry)
unfolding sql_row_to_stored_receipt
read_row-ok j row s h =
    let (r, e) = read_receipt-ok j row.receipt_json _ h.receipt_json in
    (
      record { entry = s.entry; receipt = r },
      rw (
        h.receipt_id,
        h.checksum,
        read_sql_string,
        read_number-ok j row.created_at _ h.created_at,
        read_number-ok j row.stored_at _ h.stored_at,
        e,
      ),
      refl,
    )

abbrev entry_of : Option StoredReceipt → Option LedgerRecord
entry_of none = none
entry_of (some s) = some s.entry

stored_of-ok :
    (j : Json) (row : Option SqlReceiptRow) (s : Option StoredReceipt)
    → HoldsMaybe j row s
    → (t : Option StoredReceipt) × (stored_of j row ≡ ok t) × (entry_of t ≡ entry_of s)
unfolding stored_of
stored_of-ok j none none h = (none, refl, refl)
stored_of-ok j none (some s) h = absurd h
stored_of-ok j (some row) none h = absurd h
stored_of-ok j (some row) (some s) h =
    let (t, e, f) = read_row-ok j row s h in (some t, rw e refl, ap some f)

-- The answer depends on the record only.
finalize-entry :
    (id checksum : List ℕ) (s t : Option StoredReceipt)
    → entry_of s ≡ entry_of t
    → finalize_stored_receipt id checksum s ≡ finalize_stored_receipt id checksum t
unfolding finalize_stored_receipt answer_existing
finalize-entry id checksum none none h = refl
finalize-entry id checksum none (some t) h = absurd cc
finalize-entry id checksum (some s) none h = absurd cc
finalize-entry id checksum (some s) (some t) h = let e : s.entry ≡ t.entry = cc in rw e refl

put_if_absent_self :
    (d : Digest) (now : ℕ) (r : Receipt) (v : View)
    → finalize_stored_receipt r.receipt_id
        (checksum_receipt d r)
        (put_if_absent v r.receipt_id (first_record d now r) r.receipt_id)
      ≡ append_result d now r (v r.receipt_id)
unfolding finalize_stored_receipt answer_existing make_record
put_if_absent_self d now r v = elim (option-cases (v r.receipt_id)) [
  | inl e ↦
      rw (e, put_if_absent, same_text_refl r.receipt_id, same_text_refl (checksum_receipt d r))
  | inr (s, e) ↦ rw (e, put_if_absent, e)
]

-- What an insertion that returns its row leaves to be read.
abbrev returned_row : View → List ℕ → StoredReceipt → Option StoredReceipt
returned_row v id s = elim (v id) [ none ↦ some s | some e ↦ none ]

abbrev first_of : Option StoredReceipt → Option StoredReceipt → Option StoredReceipt
first_of none t = t
first_of (some s) t = some s

returned_row-read :
    (v : View) (id : List ℕ) (s : StoredReceipt)
    → first_of (returned_row v id s) (put_if_absent v id s id) ≡ put_if_absent v id s id
returned_row-read v id s = elim (option-cases (v id)) [
  | inl e ↦ rw (e, put_if_absent, returned_row, same_text_refl id)
  | inr (t, e) ↦ rw (e, put_if_absent, returned_row)
]

returned_or_read-ok :
    (j : Json) (row read : Option SqlReceiptRow) (s t : Option StoredReceipt)
    → HoldsMaybe j row s
    → HoldsMaybe j read t
    → (o : Option StoredReceipt) × (returned_or_read j row read ≡ ok o)
      × (entry_of o ≡ entry_of (first_of s t))
unfolding returned_or_read
returned_or_read-ok j none read none t h k = stored_of-ok j read t k
returned_or_read-ok j none read (some s) t h k = absurd h
returned_or_read-ok j (some row) read none t h k = absurd h
returned_or_read-ok j (some row) read (some s) t h k = stored_of-ok j (some row) (some s) h

-- A ready ledger has the table of the ledger.
table-ready :
    {S : Type 0} (create : S → S) (table : S → View) (l : SqlLedger S)
    → ((s : S) (k : List ℕ) → table (create s) k ≡ table s k)
    → table (ensure_initialized create l).db ≡ table l.db
table-ready create table l h = elim (Bool-cases l.initialized) [
  | inl e ↦ rw e
  | inr e ↦ rw e (fun_ext (h l.db))
]

module _ {S : Type 0} (c : SqliteClient S) (d : Digest) (j : Json) (table : S → View)
    (laws : SqliteLaws c j table) (now : ℕ) (r : Receipt) (json : j.parse (j.stringify r) ≡ some r)
    (l : SqlLedger S) where
  table-append_sqlite :
      (k : List ℕ) → table (append_sqlite c d j now r l).1.db k ≡ append_view d now r (table l.db) k
  unfolding append_sqlite inserted make_record
  table-append_sqlite k =
      laws.table-insert_or_ignore (inserted d j now r) r (ensure_initialized c.create_table l).db k
        json
      ∙ ap (λ v. append_view d now r v k)
          (table-ready c.create_table table l laws.table-create_table)

  append_sqlite-result :
      (append_sqlite c d j now r l).0 ≡ append_result d now r (table l.db r.receipt_id)
  unfolding append_sqlite
  append_sqlite-result =
      let (o, e, f) =
        stored_of-ok j _ _ (laws.select_holds r.receipt_id (append_sqlite c d j now r l).1.db) in
      rw e (
        finalize-entry r.receipt_id (checksum_receipt d r) o _
          (f ∙ ap entry_of (table-append_sqlite r.receipt_id))
        ∙ put_if_absent_self d now r (table l.db))

module _ {S : Type 0} (c : PostgresClient S) (d : Digest) (j : Json) (table : S → View)
    (laws : PostgresLaws c j table) (now : ℕ) (r : Receipt)
    (json : j.parse (j.stringify r) ≡ some r) (l : SqlLedger S) where
  table-append_postgres :
      (k : List ℕ)
      → table (append_postgres c d j now r l).1.db k ≡ append_view d now r (table l.db) k
  unfolding append_postgres inserted make_record
  table-append_postgres k =
      laws.table-insert_returning (inserted d j now r) r (ensure_initialized c.create_table l).db k
        json
      ∙ ap (λ v. append_view d now r v k)
          (table-ready c.create_table table l laws.table-create_table)

  append_postgres-result :
      (append_postgres c d j now r l).0 ≡ append_result d now r (table l.db r.receipt_id)
  unfolding append_postgres inserted make_record
  append_postgres-result =
      let ready = ensure_initialized c.create_table l in
      let row = inserted d j now r in
      let same = table-ready c.create_table table l laws.table-create_table in
      let (o, e, f) =
        returned_or_read-ok j _ _ _ _ (laws.returning_holds row r ready.db json)
          (laws.select_holds r.receipt_id (append_postgres c d j now r l).1.db) in
      rw e (
        finalize-entry r.receipt_id (checksum_receipt d r) o _ (
          f
          ∙ ap entry_of (
              rw (table-append_postgres r.receipt_id, same)
                (returned_row-read (table l.db) r.receipt_id (first_record d now r))))
        ∙ put_if_absent_self d now r (table l.db))

-- A SQLite and a Postgres ledger with the same receipts, over clients whose statements do what SQL
-- says, but may return the fields of a receipt in any order, and with JSON that can be read back, give the same answer to an append, the one that the
-- contract of a ledger gives, and have the same receipts afterwards, those of the contract.
pub append_sqlite-append_postgres :
    {S T : Type 0} (c : SqliteClient S) (p : PostgresClient T) (d : Digest) (j : Json)
    (table : S → View) (rows : T → View)
    → SqliteLaws c j table
    → PostgresLaws p j rows
    → (now : ℕ) (r : Receipt) → j.parse (j.stringify r) ≡ some r
    → (l : SqlLedger S) (m : SqlLedger T) → ((k : List ℕ) → table l.db k ≡ rows m.db k)
    → let v = table l.db in
      let lite = append_sqlite c d j now r l in
      let postgres = append_postgres p d j now r m in
      (lite.0 ≡ append_result d now r (v r.receipt_id))
      × (postgres.0 ≡ lite.0)
      × ((k : List ℕ)
          → (table lite.1.db k ≡ append_view d now r v k)
            × (rows postgres.1.db k ≡ append_view d now r v k))
append_sqlite-append_postgres c p d j table rows laws laws' now r json l m same =
    let views : table l.db ≡ rows m.db = fun_ext same in
    let lite = append_sqlite-result c d j table laws now r json l in
    (
      lite,
      append_postgres-result p d j rows laws' now r json m
          ∙ ap (λ (v : View). append_result d now r (v r.receipt_id)) (sym views)
          ∙ sym lite,
      λ k. (
        table-append_sqlite c d j table laws now r json l k,
        table-append_postgres p d j rows laws' now r json m k
            ∙ ap (λ (v : View). append_view d now r v k) (sym views),
      ),
    )
