-- ===== src/Ledger/Stable.antt =====
-- `sortValue` of packages/core/src/ledger/index.ts. Field names are no array indices, whose order
-- JavaScript fixes itself. An instance of `Error` has no enumerable field.
use workit.Prelude.{ℕ, Bool, true, false, List, [], ◌∷◌, ltb, ◌==◌, if◌then◌else◌}
use workit.Replay.Redaction.{
  Value, null, scalar, text, error, array, object, Items, nil, cons, Fields, end, field,
}

-- The order of `Array.prototype.sort` on texts.
abbrev pub text_le : List ℕ → List ℕ → Bool
text_le [] ys = true
text_le (x ∷ xs) [] = false
text_le (x ∷ xs) (y ∷ ys) =
    let rest = text_le xs ys in
    elim (ltb x y) [ true ↦ true | false ↦ elim (x == y) [ true ↦ rest | false ↦ false ] ]

-- A field goes in front of the first one whose name does not come before.
unfoldable pub insert_field : List ℕ → Value → Fields → Fields
insert_field k v end = field k v end
insert_field k v (field j w fs) =
    if text_le k j then field k v (field j w fs) else field j w (insert_field k v fs)

unfoldable mutual
  unfolding insert_field

  pub sort_value : Value → Value
  sort_value null = null
  sort_value (scalar n) = scalar n
  sort_value (text t) = text t
  sort_value (error name message) = object end
  sort_value (array xs) = array (sort_items xs)
  sort_value (object fs) = object (sort_fields fs)

  pub sort_items : Items → Items
  sort_items nil = nil
  sort_items (cons x xs) = cons (sort_value x) (sort_items xs)

  pub sort_fields : Fields → Fields
  sort_fields end = end
  sort_fields (field k v fs) = insert_field k (sort_value v) (sort_fields fs)
