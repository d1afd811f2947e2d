-- ===== src/Ledger/Order.antt =====
-- The checksum of a receipt does not depend on the order of fields (packages/core/src/ledger/index.ts,
-- `stableStringify`).
use workit.Prelude.{ℕ, ◌≡◌, ◌≢◌, refl, ap, ◌∙◌, true, false, List, [], ◌∷◌, arith}
use workit.Replay.Redaction.{Value, array, object, Items, nil, cons, Fields, end, field}
use workit.Ledger.{Digest, Receipt, checksum_receipt}
use workit.Ledger.Stable.{text_le, insert_field, sort_value, sort_items, sort_fields}

-- Two values that differ in the order of fields only, at any depth.
mutual
  pub data Reordered : Value → Value → Type 0 where
    same : {v : Value} → Reordered v v
    arrays : {xs ys : Items} → ReorderedItems xs ys → Reordered (array xs) (array ys)
    objects : {fs gs : Fields} → ReorderedFields fs gs → Reordered (object fs) (object gs)

  pub data ReorderedItems : Items → Items → Type 0 where
    no_items : ReorderedItems nil nil
    one_and :
        {x y : Value} {xs ys : Items}
        → Reordered x y
        → ReorderedItems xs ys
        → ReorderedItems (cons x xs) (cons y ys)

  pub data ReorderedFields : Fields → Fields → Type 0 where
    no_fields : ReorderedFields end end
    kept :
        (k : List ℕ) {v w : Value} {fs gs : Fields}
        → Reordered v w
        → ReorderedFields fs gs
        → ReorderedFields (field k v fs) (field k w gs)
    swapped :
        (j k : List ℕ) {v w : Value} {fs : Fields}
        → j ≢ k
        → ReorderedFields (field j v (field k w fs)) (field k w (field j v fs))
    followed :
        {fs gs hs : Fields} → ReorderedFields fs gs → ReorderedFields gs hs → ReorderedFields fs hs

text_le-antisym : (xs ys : List ℕ) → text_le xs ys ≡ true → text_le ys xs ≡ true → xs ≡ ys
text_le-antisym [] [] h k = refl
text_le-antisym [] (y ∷ ys) h k = cc
text_le-antisym (x ∷ xs) [] h k = cc
text_le-antisym (x ∷ xs) (y ∷ ys) h k = ground (arith, text_le-antisym xs ys)

text_le_total : (xs ys : List ℕ) → text_le xs ys ≡ false → text_le ys xs ≡ true
text_le_total [] ys h = cc
text_le_total (x ∷ xs) [] h = refl
text_le_total (x ∷ xs) (y ∷ ys) h = ground (arith, text_le_total xs ys)

text_le_trans :
    (xs ys zs : List ℕ) → text_le xs ys ≡ true → text_le ys zs ≡ true → text_le xs zs ≡ true
text_le_trans [] ys zs h k = refl
text_le_trans (x ∷ xs) [] zs h k = cc
text_le_trans (x ∷ xs) (y ∷ ys) [] h k = cc
text_le_trans (x ∷ xs) (y ∷ ys) (z ∷ zs) h k = ground (arith, text_le_trans xs ys zs)

-- Two fields with different names go in in either order.
insert_field-insert_field :
    (j k : List ℕ) (v w : Value) (fs : Fields)
    → j ≢ k
    → insert_field j v (insert_field k w fs) ≡ insert_field k w (insert_field j v fs)
unfolding insert_field
insert_field-insert_field j k v w end n =
    ground (arith, text_le-antisym j k, text_le_total j k, text_le_total k j)
insert_field-insert_field j k v w (field i u fs) n = ground (
  arith,
  insert_field-insert_field j k v w fs n,
  text_le-antisym j k,
  text_le_total j k,
  text_le_total k j,
  text_le_total j i,
  text_le_total k i,
  text_le_trans j k i,
  text_le_trans k j i,
  text_le_trans j i k,
  text_le_trans k i j,
)

mutual
  unfolding sort_value

  sort_value-Reordered : {v w : Value} → Reordered v w → sort_value v ≡ sort_value w
  sort_value-Reordered same = refl
  sort_value-Reordered (arrays h) = ap array (sort_items-Reordered h)
  sort_value-Reordered (objects h) = ap object (sort_fields-Reordered h)

  sort_items-Reordered : {xs ys : Items} → ReorderedItems xs ys → sort_items xs ≡ sort_items ys
  sort_items-Reordered no_items = refl
  sort_items-Reordered (one_and h hs) = cc (sort_value-Reordered h, sort_items-Reordered hs)

  sort_fields-Reordered : {fs gs : Fields} → ReorderedFields fs gs → sort_fields fs ≡ sort_fields gs
  sort_fields-Reordered no_fields = refl
  sort_fields-Reordered (kept k h hs) = cc (sort_value-Reordered h, sort_fields-Reordered hs)
  sort_fields-Reordered (swapped j k n) = insert_field-insert_field j k _ _ _ n
  sort_fields-Reordered (followed h k) = sort_fields-Reordered h ∙ sort_fields-Reordered k

-- Receipts whose contents differ in the order of fields only, at any depth, have the same checksum.
pub checksum_receipt-Reordered :
    (d : Digest) (r s : Receipt)
    → Reordered r.content s.content
    → checksum_receipt d r ≡ checksum_receipt d s
unfolding checksum_receipt
checksum_receipt-Reordered d r s h = ap (λ v. d.sha256 (d.stringify v)) (sort_value-Reordered h)
