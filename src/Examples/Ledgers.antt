-- ===== src/Examples/Ledgers.antt =====
-- Ledgers with a receipt in them (packages/core/src/ledger/index.ts).
use workit.Prelude.{
  ℕ, ◌≡◌, refl, ap, sym, subst, inl, true, false, not, ◌&&◌, Option, none, some, List, [], ◌∷◌,
  ◌++◌, find, same_text, if◌then◌else◌, arith,
}
use workit.Replay.Redaction.{Value, text, object, Fields, end, field}
use workit.Ledger.{Receipt, StoredReceipt, Digest, io_failed, checksum_receipt}
use workit.Ledger.Contract.{View, append_result, append_view, first_record}
use workit.Ledger.Order.{objects, same, swapped, checksum_receipt-Reordered}
use workit.Ledger.Memory
use workit.Ledger.Memory.{Memory}
use workit.Ledger.Memory.Bounded.{IsValid, evicts, append-Contract_bounded}
use workit.Ledger.Files
use workit.Ledger.Files.{
  contents, Place, Disk, StoredJson, Outcomes, receipt_path, temp_path, read_stored_receipt,
}
use workit.Ledger.Files.Renamed.{read_of, read_after, append-Contract_renamed, append-failed}
use workit.Ledger.Sql.{
  sql_text, sql_number, sql_object, SqlReceiptRow, Inserted, Json, SqliteClient, PostgresClient,
  SqlLedger, append_sqlite, append_postgres,
}
use workit.Ledger.Sql.Agree.{
  new_entry, put_if_absent, HoldsMaybe, SqliteLaws, PostgresLaws, append_sqlite-append_postgres,
}

-- The fields' names in their order, in place of SHA-256 and JSON.
abbrev mutual
  print : Value → List ℕ
  print (object fs) = print_fields fs
  print _ = []

  print_fields : Fields → List ℕ
  print_fields end = []
  print_fields (field k v fs) = k ++ print_fields fs

abbrev digest : Digest
digest = record { stringify = print; sha256 = λ t. t }

abbrev ab : Value
ab = object (field (1 ∷ []) (text []) (field (2 ∷ []) (text []) end))

abbrev ba : Value
ba = object (field (2 ∷ []) (text []) (field (1 ∷ []) (text []) end))

abbrev one : Receipt
one = record { receipt_id = 1 ∷ []; created_at = 10; content = ab }

abbrev two : Receipt
two = record { receipt_id = 2 ∷ []; created_at = 20; content = ba }

checksum_receipt-Reordered_example : checksum_receipt digest one ≡ checksum_receipt digest two
checksum_receipt-Reordered_example =
    checksum_receipt-Reordered digest one two
      (objects (swapped (1 ∷ []) (2 ∷ []) (λ e. ground arith)))

-- A full ledger for one receipt.
abbrev full : Memory
full = record { max_receipts = 1; entries = (1 ∷ [], first_record digest 11 one) ∷ [] }

append-Contract_bounded_example :
    ((Memory.append digest 21 two full).0
      ≡ append_result digest 21 two (find (2 ∷ []) full.entries))
    × IsValid (Memory.append digest 21 two full).1
    × (find (1 ∷ []) (Memory.append digest 21 two full).1.entries ≡ (
        if evicts full two (1 ∷ []) && not (same_text (2 ∷ []) (1 ∷ []))
        then none
        else append_view digest 21 two (λ k. find k full.entries) (1 ∷ [])))
append-Contract_bounded_example =
    append-Contract_bounded digest 21 two full (1 ∷ [])
      (record { positive = omega arith; within = omega arith; distinct = (refl, tt) })

abbrev here : Place
here = record { dir = b'd' ∷ []; base64url = λ id. id }

abbrev empty_disk : Disk
empty_disk path = none

abbrev nothing_stored : Option StoredReceipt
nothing_stored = none

-- The JSON of the first record of one receipt.
abbrev one_json : StoredJson
one_json = record {
  stringify = λ s. s.receipt.receipt_id;
  parse = λ t. if same_text t (1 ∷ b'\n' ∷ []) then some (first_record digest 11 one) else none;
}

abbrev faultless : Outcomes
faultless = record { mkdir_succeeds = true; write_fails = none; rename_succeeds = true }

append-Contract_renamed_example :
    let out = Files.append here digest one_json faultless 11 (7 ∷ []) (8 ∷ []) one empty_disk in
    (out.0 ≡ append_result digest 11 one nothing_stored)
    × ((id : List ℕ)
        → read_of here one_json out.1 id
          ≡ read_after digest 11 one id nothing_stored (read_of here one_json empty_disk id))
    × (out.1 (temp_path (receipt_path here (1 ∷ [])) (7 ∷ []) (8 ∷ [])) ≡ none)
unfolding read_stored_receipt
append-Contract_renamed_example =
    append-Contract_renamed here digest one_json faultless 11 (7 ∷ []) (8 ∷ []) one empty_disk
      nothing_stored (λ a b e. e) refl refl (record { made = refl; written = refl; renamed = refl })
      refl

-- A disk that is full, so that half of a file is written.
abbrev disk_full : Outcomes
disk_full = record {
  mkdir_succeeds = true;
  write_fails = some (some (contents (1 ∷ [])));
  rename_succeeds = true;
}

append-failed_example :
    (Files.append here digest one_json disk_full 11 (7 ∷ []) (8 ∷ []) one empty_disk).1
      (receipt_path here (1 ∷ []))
    ≡ empty_disk (receipt_path here (1 ∷ []))
unfolding Files.append
append-failed_example =
    append-failed here digest one_json disk_full 11 (7 ∷ []) (8 ∷ []) one empty_disk io_failed refl
      (1 ∷ [])

-- Databases that hold the receipts themselves, and a JSON of one receipt.
abbrev json : Json
json = record {
  stringify = λ r. r.receipt_id;
  parse = λ t. if same_text t (1 ∷ []) then some one else none;
  number = λ t. none;
}

abbrev row_of : Option StoredReceipt → Option SqlReceiptRow
row_of none = none
row_of (some s) = some (record {
  receipt_id = sql_text s.entry.receipt_id;
  checksum = sql_text s.entry.checksum;
  created_at = sql_number s.entry.created_at;
  stored_at = sql_number s.entry.stored_at;
  receipt_json = sql_object s.receipt;
})

row_of-Holds : (o : Option StoredReceipt) → HoldsMaybe json (row_of o) o
row_of-Holds none = tt
row_of-Holds (some s) = record {
  receipt_id = refl;
  checksum = refl;
  created_at = inl refl;
  stored_at = inl refl;
  receipt_json = (s.receipt, refl, refl, same, inl refl);
}

abbrev insert_parsed : Option Receipt → Inserted → View → View
insert_parsed none i v = v
insert_parsed (some r) i v = put_if_absent v i.receipt_id (new_entry i r)

abbrev returned : Option Receipt → Inserted → View → Option StoredReceipt
returned none i v = none
returned (some r) i v = elim (v i.receipt_id) [ none ↦ some (new_entry i r) | some e ↦ none ]

abbrev sqlite : SqliteClient View
sqlite = record {
  create_table = λ v. v;
  insert_or_ignore = λ i v. insert_parsed (json.parse i.receipt_json) i v;
  select = λ k v. row_of (v k);
}

abbrev postgres : PostgresClient View
postgres = record {
  create_table = λ v. v;
  insert_returning = λ i v. (
    row_of (returned (json.parse i.receipt_json) i v),
    insert_parsed (json.parse i.receipt_json) i v,
  );
  select = λ k v. row_of (v k);
}

inserted_view :
    (i : Inserted) (r : Receipt) (v : View) (k : List ℕ)
    → json.parse i.receipt_json ≡ some r
    → insert_parsed (json.parse i.receipt_json) i v k
      ≡ put_if_absent v i.receipt_id (new_entry i r) k
inserted_view i r v k e = ap (λ o. insert_parsed o i v k) e

returned_row :
    (i : Inserted) (r : Receipt) (v : View)
    → json.parse i.receipt_json ≡ some r
    → HoldsMaybe json
        (row_of (returned (json.parse i.receipt_json) i v))
        (elim (v i.receipt_id) [ none ↦ some (new_entry i r) | some e ↦ none ])
returned_row i r v e =
    subst
      (λ o.
        HoldsMaybe json (row_of (returned o i v))
          (elim (v i.receipt_id) [ none ↦ some (new_entry i r) | some e ↦ none ]))
      (sym e) (row_of-Holds (returned (some r) i v))

sqlite-Laws : SqliteLaws sqlite json (λ v. v)
sqlite-Laws = record {
  table-create_table = λ s k. refl;
  table-insert_or_ignore = inserted_view;
  select_holds = λ k s. row_of-Holds (s k);
}

postgres-Laws : PostgresLaws postgres json (λ v. v)
postgres-Laws = record {
  table-create_table = λ s k. refl;
  table-insert_returning = inserted_view;
  returning_holds = returned_row;
  select_holds = λ k s. row_of-Holds (s k);
}

abbrev nothing : View
nothing k = none

abbrev untouched : SqlLedger View
untouched = record { initialized = false; db = nothing }

append_sqlite-append_postgres_example :
    let lite = append_sqlite sqlite digest json 11 one untouched in
    let post = append_postgres postgres digest json 11 one untouched in
    (lite.0 ≡ append_result digest 11 one (nothing (1 ∷ [])))
    × (post.0 ≡ lite.0)
    × ((k : List ℕ)
        → (lite.1.db k ≡ append_view digest 11 one nothing k)
          × (post.1.db k ≡ append_view digest 11 one nothing k))
append_sqlite-append_postgres_example =
    append_sqlite-append_postgres sqlite postgres digest json (λ v. v) (λ v. v) sqlite-Laws
      postgres-Laws 11 one refl untouched untouched (λ k. refl)
