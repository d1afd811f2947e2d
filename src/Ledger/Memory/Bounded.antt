-- ===== src/Ledger/Memory/Bounded.antt =====
-- The memory ledger keeps the contract of a ledger, except for the receipts that it evicts
-- (packages/core/src/ledger/index.ts, `createMemoryReceiptLedger`).
use workit.Prelude.{
  option-cases, ℕ, ◌≤◌, ◌<◌, ◌≡◌, refl, ◌∙◌, ◌-◌, ltb→lt, Bool, false, not, ◌&&◌, none, some, List,
  [], ◌∷◌, ◌++◌, length, length-append, ltb, find, same_text, same_text→eq, same_text_refl,
  same_text_flip, if◌then◌else◌, ok, arith, Bool-cases, inl, inr,
}
use workit.Ledger.{Receipt, StoredReceipt, Digest, answer_existing, make_record, checksum_receipt}
use workit.Ledger.Contract.{first_record, append_result, append_view}
use workit.Ledger.Memory.{Memory, without_oldest, make_room, store, append}

abbrev pub Entries : Type 0
Entries = List (List ℕ × StoredReceipt)

-- No two entries have the same id.
abbrev pub IsDistinct : Entries → Type 0
IsDistinct [] = Unit
IsDistinct ((k, s) ∷ es) = (find k es ≡ none) × IsDistinct es

pub record IsValid (m : Memory) : Type 0 where
  pub positive : 0 < m.max_receipts
  pub within : length m.entries ≤ m.max_receipts
  pub distinct : IsDistinct m.entries

-- The id that has to go for another one.
abbrev pub is_oldest : Entries → List ℕ → Bool
is_oldest [] j = false
is_oldest ((k, s) ∷ es) j = same_text k j

abbrev pub evicts : Memory → Receipt → List ℕ → Bool
evicts m r j = elim (find r.receipt_id m.entries) [
  | some e ↦ false
  | none ↦ not (ltb (length m.entries) m.max_receipts) && is_oldest m.entries j
]

find-append :
    (j k : List ℕ) (s : StoredReceipt) (es : Entries)
    → find k es ≡ none
    → find j (es ++ (k, s) ∷ []) ≡ (if same_text k j then some s else find j es)
find-append j k s [] h = ground arith
find-append j k s ((i, t) ∷ es) h = ground (
  arith,
  find-append j k s es,
  same_text→eq i j,
  same_text→eq k j,
  same_text_refl j,
  same_text→eq i k,
)

find-none :
    (k i : List ℕ) (t : StoredReceipt) (es : Entries)
    → find k ((i, t) ∷ es) ≡ none
    → (same_text i k ≡ false) × (find k es ≡ none)
find-none k i t es h = (ground arith, ground arith)

IsDistinct-append :
    (k : List ℕ) (s : StoredReceipt) (es : Entries)
    → find k es ≡ none
    → IsDistinct es
    → IsDistinct (es ++ (k, s) ∷ [])
IsDistinct-append k s [] h d = (refl, tt)
IsDistinct-append k s ((i, t) ∷ es) h (fresh, d) =
    let (other, absent) = find-none k i t es h in
    (
      rw (find-append i k s es absent, same_text_flip i k other) fresh,
      IsDistinct-append k s es absent d,
    )

-- After the oldest entry has gone.
find-without_oldest :
    (j : List ℕ) (es : Entries)
    → IsDistinct es
    → find j (without_oldest es) ≡ (if is_oldest es j then none else find j es)
find-without_oldest j [] d = refl
find-without_oldest j ((k, s) ∷ es) (fresh, d) = elim (Bool-cases (same_text k j)) [
  | inl e ↦ rw (e, ← same_text→eq k j e) fresh
  | inr e ↦ ground arith
]

IsDistinct-without_oldest : (es : Entries) → IsDistinct es → IsDistinct (without_oldest es)
IsDistinct-without_oldest [] d = tt
IsDistinct-without_oldest (e ∷ es) d = d.1

length-without_oldest : (es : Entries) → length (without_oldest es) ≡ length es - 1
length-without_oldest [] = omega arith
length-without_oldest (e ∷ es) = omega arith

make_room-lem :
    (m : Memory)
    → IsValid m
    → (length (make_room m) < m.max_receipts)
      × IsDistinct (make_room m)
      × ((j : List ℕ)
          → find j (make_room m) ≡ (
              if not (ltb (length m.entries) m.max_receipts) && is_oldest m.entries j
              then none
              else find j m.entries))
unfolding make_room
make_room-lem m v = elim (Bool-cases (ltb (length m.entries) m.max_receipts)) [
  | inl e ↦ rw e (ltb→lt _ _ e, v.distinct, λ j. refl)
  | inr e ↦ rw e (
    omega (arith, length-without_oldest m.entries, v.positive, v.within),
    IsDistinct-without_oldest m.entries v.distinct,
    λ j. find-without_oldest j m.entries v.distinct,
  )
]

module _ (d : Digest) (now : ℕ) (r : Receipt) (m : Memory) where
  append-present :
      (s : StoredReceipt)
      → find r.receipt_id m.entries ≡ some s
      → append d now r m ≡ (answer_existing r.receipt_id (checksum_receipt d r) s, m)
  unfolding append
  append-present s e = rw (e, append)

  append-absent :
      find r.receipt_id m.entries ≡ none
      → append d now r m ≡ (
        ok (first_record d now r).entry,
        record m { entries = make_room m ++ (r.receipt_id, first_record d now r) ∷ [] },
      )
  unfolding append store make_record
  append-absent e = rw (e, append)

  absent_in_room :
      IsValid m → find r.receipt_id m.entries ≡ none → find r.receipt_id (make_room m) ≡ none
  absent_in_room v e = ground (arith, (make_room-lem m v).2 r.receipt_id)

  stored-lookup :
      (j : List ℕ)
      → IsValid m
      → find r.receipt_id m.entries ≡ none
      → find j (make_room m ++ (r.receipt_id, first_record d now r) ∷ []) ≡ (
          if same_text r.receipt_id j
          then some (first_record d now r)
          else if not (ltb (length m.entries) m.max_receipts) && is_oldest m.entries j
          then none
          else find j m.entries)
  stored-lookup j v e =
      let (_, _, there) = make_room-lem m v in
      find-append j r.receipt_id (first_record d now r) (make_room m) (absent_in_room v e)
      ∙ rw (there j)

-- A valid memory ledger answers an append as the contract of a ledger says, stays valid, and has
-- afterwards the receipts that the contract says, except that a new receipt for a full ledger evicts
-- the oldest one.
pub append-Contract_bounded :
    (d : Digest) (now : ℕ) (r : Receipt) (m : Memory) (j : List ℕ)
    → IsValid m
    → let out = append d now r m in
      (out.0 ≡ append_result d now r (find r.receipt_id m.entries))
      × IsValid out.1
      × (find j out.1.entries ≡ (
          if evicts m r j && not (same_text r.receipt_id j)
          then none
          else append_view d now r (λ k. find k m.entries) j))
unfolding answer_existing
append-Contract_bounded d now r m j v = elim (option-cases (find r.receipt_id m.entries)) [
  | inl e ↦
      let (small, distinct, there) = make_room-lem m v in
      rw (append-absent d now r m e, e)
        (
          refl,
          record {
            positive = v.positive;
            within = omega (
              arith,
              length-append (make_room m) ((r.receipt_id, first_record d now r) ∷ []),
              small,
            );
            distinct =
                IsDistinct-append r.receipt_id (first_record d now r) (make_room m)
                  (absent_in_room d now r m v e) distinct;
          },
          stored-lookup d now r m j v e ∙ ground arith,
        )
  | inr (s, e) ↦ rw (append-present d now r m s e, e, evicts, append_view) (refl, v, refl)
]
