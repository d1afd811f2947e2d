-- ===== src/Ledger/Files/Renamed.antt =====
-- The file ledger keeps the contract of a ledger (packages/core/src/ledger/index.ts), and leaves no
-- temporary file when nothing fails.
use mathlib.Core.List.{append_cancel_left, append_cancel_right}
use workit.Prelude.{
  ℕ, ◌≡◌, ◌≢◌, refl, ap, sym, subst, ◌∙◌, Bool, true, false, if-elim, Option, none, some, List, [],
  ◌∷◌, ◌++◌, same_text, same_text→eq, same_text_refl, if◌then◌else◌, Result, ok, err, arith, inl,
  inr, Bool-cases,
}
use workit.Ledger.{
  Receipt, LedgerRecord, StoredReceipt, LedgerError, io_failed, Digest, answer_existing,
  make_record, checksum_receipt,
}
use workit.Ledger.Contract.{first_record, append_result}
use workit.Ledger.Files.{
  File, contents, Disk, StoredJson, Outcomes, write_file, rename, json_suffix, tmp_suffix, Place,
  receipt_path, temp_path, read_file, read_stored_receipt, file_text, store, append,
}

-- What reading the receipt of an id gives.
abbrev pub read_of : Place → StoredJson → Disk → List ℕ → Result LedgerError (Option StoredReceipt)
read_of p j disk id = read_stored_receipt j (receipt_path p id) disk

abbrev last : ℕ → List ℕ → ℕ
last a [] = a
last a (x ∷ xs) = last x xs

last-append : (a b : ℕ) (xs ys : List ℕ) → last a (xs ++ b ∷ ys) ≡ last b ys
last-append a b [] ys = refl
last-append a b (x ∷ xs) ys = last-append x b xs ys

same_text-ne : (s t : List ℕ) → s ≢ t → same_text s t ≡ false
same_text-ne s t h = elim (Bool-cases (same_text s t)) [
  | inl e ↦ absurd (h (same_text→eq s t e))
  | inr e ↦ e
]

receipt_path-last : (p : Place) (id : List ℕ) → last 0 (receipt_path p id) ≡ b'n'
unfolding receipt_path
receipt_path-last p id =
    last-append 0 b'/' p.dir (p.base64url id ++ json_suffix)
    ∙ last-append b'/' b'.' (p.base64url id) (b'j' ∷ b's' ∷ b'o' ∷ b'n' ∷ [])

temp_path-last : (file pid at : List ℕ) → last 0 (temp_path file pid at) ≡ b'p'
temp_path-last file pid at =
    last-append 0 b'.' file (pid ++ (b'.' ∷ (at ++ tmp_suffix)))
    ∙ last-append b'.' b'.' pid (at ++ tmp_suffix)
    ∙ last-append b'.' b'.' at (b't' ∷ b'm' ∷ b'p' ∷ [])

-- A temporary file is no receipt's file.
temp-ne-receipt : (p : Place) (file pid at id : List ℕ) → temp_path file pid at ≢ receipt_path p id
temp-ne-receipt p file pid at id e =
    absurd (omega (arith, temp_path-last file pid at, receipt_path-last p id, ap (last 0) e))

module _ (p : Place) (injective : (a b : List ℕ) → p.base64url a ≡ p.base64url b → a ≡ b) where
  receipt_path-injective : (a b : List ℕ) → receipt_path p a ≡ receipt_path p b → a ≡ b
  unfolding receipt_path
  receipt_path-injective a b e = injective a b (
      append_cancel_right (p.base64url a) (p.base64url b) json_suffix
        (append_cancel_left (b'/' ∷ []) _ _ (append_cancel_left p.dir _ _ e)))

  same_path : (a b : List ℕ) → same_text (receipt_path p a) (receipt_path p b) ≡ same_text a b
  same_path a b = elim (Bool-cases (same_text a b)) [
    | inl e ↦ rw (← same_text→eq a b e, same_text_refl a, same_text_refl (receipt_path p a))
    | inr e ↦
        same_text-ne (receipt_path p a) (receipt_path p b) (λ h.
          cc (
            e,
            subst (λ c. same_text a c ≡ true) (receipt_path-injective a b h) (same_text_refl a),
          ))
        ∙ sym e
  ]

  -- A write to a temporary file and its renaming, seen from the files of receipts.
  file-renamed :
      (file_id pid at : List ℕ) (f : Option File) (disk : Disk) (id : List ℕ)
      → let file = receipt_path p file_id in
        rename
          (temp_path file pid at)
          file
          (write_file (temp_path file pid at) f disk)
          (receipt_path p id)
        ≡ (if same_text file_id id then f else disk (receipt_path p id))
  unfolding rename write_file
  file-renamed file_id pid at f disk id =
      let file = receipt_path p file_id in
      let temp = temp_path file pid at in
      rw (
        same_path file_id id,
        same_text_refl temp,
        same_text-ne temp (receipt_path p id) (temp-ne-receipt p file pid at id),
      )

-- A write to a temporary file changes no file of a receipt.
file-written :
    (p : Place) (file pid at : List ℕ) (f : Option File) (disk : Disk) (id : List ℕ)
    → write_file (temp_path file pid at) f disk (receipt_path p id) ≡ disk (receipt_path p id)
unfolding write_file
file-written p file pid at f disk id =
    rw (same_text-ne (temp_path file pid at) (receipt_path p id) (temp-ne-receipt p file pid at id))

-- A renamed file is gone.
renamed-gone :
    (p : Place) (from : List ℕ) (id : List ℕ) (disk : Disk)
    → from ≢ receipt_path p id
    → rename from (receipt_path p id) disk from ≡ none
unfolding rename
renamed-gone p from id disk h =
    rw (same_text-ne (receipt_path p id) from (λ e. h (sym e)), same_text_refl from)

-- The operations of an append succeed.
pub record IsFaultless (o : Outcomes) : Type 0 where
  pub made : o.mkdir_succeeds ≡ true
  pub written : o.write_fails ≡ none
  pub renamed : o.rename_succeeds ≡ true

-- What reading a receipt gives after an append of `r`, when reading gave `before` for `r` and `other`
-- for that receipt.
abbrev pub read_after :
    Digest
    → ℕ
    → Receipt
    → List ℕ
    → Option StoredReceipt
    → Result LedgerError (Option StoredReceipt)
    → Result LedgerError (Option StoredReceipt)
read_after d now r id (some e) other = other
read_after d now r id none other =
    if same_text r.receipt_id id then ok (some (first_record d now r)) else other

module _ (j : StoredJson) where
  read_file-at :
      (p : Place) (id : List ℕ) (disk : Disk) (f : Option File)
      → disk (receipt_path p id) ≡ f
      → read_of p j disk id ≡ read_file j f
  unfolding read_stored_receipt
  read_file-at p id disk f e = ap (read_file j) e

  -- A file with the JSON of a stored receipt, or the file that was there, is read.
  read-if :
      (b : Bool) (s : StoredReceipt) (f : Option File)
      → j.parse (file_text j s) ≡ some s
      → read_file j (if b then some (contents (file_text j s)) else f)
        ≡ (if b then ok (some s) else read_file j f)
  unfolding read_file
  read-if true s f h = rw h refl
  read-if false s f h = refl

module _ (p : Place) (d : Digest) (j : StoredJson) (o : Outcomes) (now : ℕ) (pid at : List ℕ)
    (r : Receipt) (disk : Disk) where
  append-present :
      (s : StoredReceipt)
      → o.mkdir_succeeds ≡ true
      → read_of p j disk r.receipt_id ≡ ok (some s)
      → append p d j o now pid at r disk ≡ (append_result d now r (some s), disk)
  unfolding append answer_existing
  append-present s m e = rw (m, e) refl

  append-absent :
      IsFaultless o
      → read_of p j disk r.receipt_id ≡ ok none
      → append p d j o now pid at r disk ≡ (
        ok (first_record d now r).entry,
        let temp = temp_path (receipt_path p r.receipt_id) pid at in
            rename temp
              (receipt_path p r.receipt_id)
              (write_file temp (some (contents (file_text j (first_record d now r)))) disk),
      )
  unfolding append store make_record
  append-absent h e = rw (h.made, e, h.written, h.renamed) refl

-- An append to a file ledger, of which no operation of the file system fails and whose receipt's file is
-- missing or can be read, answers as the contract of a ledger says. Every receipt is read afterwards as
-- the contract says, and the temporary file is gone. The encoding of ids is to be injective, the
-- temporary file is not to be there before, and the JSON of the new stored receipt is to be read back
-- as it was.
pub append-Contract_renamed :
    (p : Place) (d : Digest) (j : StoredJson) (o : Outcomes) (now : ℕ) (pid at : List ℕ)
    (r : Receipt) (disk : Disk) (before : Option StoredReceipt)
    → ((a b : List ℕ) → p.base64url a ≡ p.base64url b → a ≡ b)
    → disk (temp_path (receipt_path p r.receipt_id) pid at) ≡ none
    → j.parse (file_text j (first_record d now r)) ≡ some (first_record d now r)
    → IsFaultless o
    → read_of p j disk r.receipt_id ≡ ok before
    → let out = append p d j o now pid at r disk in
      (out.0 ≡ append_result d now r before)
      × ((id : List ℕ) → read_of p j out.1 id ≡ read_after d now r id before (read_of p j disk id))
      × (out.1 (temp_path (receipt_path p r.receipt_id) pid at) ≡ none)
append-Contract_renamed p d j o now pid at r disk none injective free json h e =
    rw (append-absent p d j o now pid at r disk h e) (
      refl,
      (λ id.
          read_file-at j p id _ _ (
            file-renamed p injective r.receipt_id pid at
              (some (contents (file_text j (first_record d now r)))) disk id)
          ∙ read-if j (same_text r.receipt_id id) (first_record d now r) _ json
          ∙ ap (λ x. if same_text r.receipt_id id then ok (some (first_record d now r)) else x)
              (sym (read_file-at j p id disk _ refl))),
      renamed-gone p _ r.receipt_id _
          (temp-ne-receipt p (receipt_path p r.receipt_id) pid at r.receipt_id),
    )
append-Contract_renamed p d j o now pid at r disk (some s) injective free json h e =
    rw (append-present p d j o now pid at r disk s h.made e) (refl, (λ id. refl), free)

-- A result and a disk: after an error the files of all receipts are those of `disk`.
abbrev Spares : Place → Disk → Result LedgerError LedgerRecord × Disk → Type 0
Spares p disk out =
    (e : LedgerError)
    → out.0 ≡ err e
    → (id : List ℕ) → out.1 (receipt_path p id) ≡ disk (receipt_path p id)

store-Spares :
    (p : Place) (j : StoredJson) (o : Outcomes) (file pid at : List ℕ) (s : StoredReceipt)
    (disk : Disk)
    → Spares p disk (store j o (temp_path file pid at) file s disk)
unfolding store
store-Spares p j o file pid at s disk =
    let temp = temp_path file pid at in
    let written = write_file temp (some (contents (file_text j s))) disk in
    elim o.write_fails
      as (λ w. Spares p disk (elim w [
        | some left ↦ (err io_failed, write_file temp left disk)
        | none ↦
            if o.rename_succeeds
            then (ok s.entry, rename temp file written)
            else (err io_failed, written)
      ])) [
        | some left ↦ λ e h id. file-written p file pid at left disk id
        | none ↦
            if-elim (Spares p disk) o.rename_succeeds _ _ (λ k e h id. absurd cc)
              (λ k e h id. file-written p file pid at _ disk id)
      ]

-- An append to a file ledger that ends in an error, of whichever operation, leaves the files of all
-- receipts as they were, also when a write has left half of its file.
pub append-failed :
    (p : Place) (d : Digest) (j : StoredJson) (o : Outcomes) (now : ℕ) (pid at : List ℕ)
    (r : Receipt) (disk : Disk) (e : LedgerError)
    → (append p d j o now pid at r disk).0 ≡ err e
    → (id : List ℕ)
    → (append p d j o now pid at r disk).1 (receipt_path p id) ≡ disk (receipt_path p id)
unfolding append
append-failed p d j o now pid at r disk =
    let file = receipt_path p r.receipt_id in
    let checksum = checksum_receipt d r in
    let s : StoredReceipt = record { entry = make_record d r checksum now; receipt = r } in
    if-elim (Spares p disk) o.mkdir_succeeds _ _
      (λ m.
        elim (read_stored_receipt j file disk)
          as (λ x. Spares p disk (elim x [
            | err e ↦ (err e, disk)
            | ok (some existing) ↦ (answer_existing r.receipt_id checksum existing, disk)
            | ok none ↦ store j o (temp_path file pid at) file s disk
          ])) [
            | err x ↦ λ e h id. refl
            | ok (some existing) ↦ λ e h id. refl
            | ok none ↦ store-Spares p j o file pid at s disk
          ])
      (λ m e h id. refl)
