-- ===== src/Replay/Redaction.antt =====
-- The redaction of packages/core/src/replay/index.ts. A value is what `JSON` can write, or an instance of
-- `Error`; numbers, Booleans and `undefined` are scalars. Field names are ASCII texts, so that
-- `toLowerCase` changes the letters only.
pub mod Names
pub mod Clean
pub mod Errors
use workit.Prelude.{
  ℕ, suc, ◌+◌, Bool, true, false, ◌&&◌, Option, none, some, List, [], ◌∷◌, ◌++◌, map, max, ltb, leb,
  same_text, if◌then◌else◌,
}

mutual
  pub data Value : Type 0 where
    null : Value
    scalar : ℕ → Value
    text : List ℕ → Value
    error : (name message : List ℕ) → Value
    array : Items → Value
    object : Fields → Value

  pub data Items : Type 0 where
    nil : Items
    cons : Value → Items → Items

  pub data Fields : Type 0 where
    end : Fields
    field : List ℕ → Value → Fields → Fields

-- `RedactionRuntimePolicy`.
pub record Policy : Type 0 where
  pub remove_fields : List (List ℕ)
  pub redact_fields : List (List ℕ)
  pub max_depth : ℕ

-- `ReceiptRedactionPolicy`.
pub record ReceiptRedactionPolicy : Type 0 where
  pub remove_fields : Option (List (List ℕ))
  pub redact_fields : Option (List (List ℕ))
  pub max_depth : Option ℕ

unfoldable pub lower : ℕ → ℕ
lower c = if leb b'A' c && leb c b'Z' then c + 32 else c

unfoldable pub to_lower_case : List ℕ → List ℕ
unfolding lower
to_lower_case = map lower

abbrev pub has : List (List ℕ) → List ℕ → Bool
has [] k = false
has (j ∷ js) k = let rest = has js k in elim (same_text j k) [ true ↦ true | false ↦ rest ]

-- "[redacted]" and "[max-depth]".
abbrev pub redacted_mark : List ℕ
redacted_mark = b'[' ∷ b'r' ∷ b'e' ∷ b'd' ∷ b'a' ∷ b'c' ∷ b't' ∷ b'e' ∷ b'd' ∷ b']' ∷ []

abbrev pub max_depth_mark : List ℕ
max_depth_mark = b'[' ∷ b'm' ∷ b'a' ∷ b'x' ∷ b'-' ∷ b'd' ∷ b'e' ∷ b'p' ∷ b't' ∷ b'h' ∷ b']' ∷ []

abbrev pub name_field : List ℕ
name_field = b'n' ∷ b'a' ∷ b'm' ∷ b'e' ∷ []

abbrev pub message_field : List ℕ
message_field = b'm' ∷ b'e' ∷ b's' ∷ b's' ∷ b'a' ∷ b'g' ∷ b'e' ∷ []

-- `normalizeError` of an instance of `Error`.
abbrev pub normalized : List ℕ → List ℕ → Value
normalized name message =
    object (field name_field (text name) (field message_field (text message) end))

-- `redactValue`.
unfoldable mutual
  unfolding to_lower_case

  pub redact_value : Policy → ℕ → Value → Value
  redact_value p d null = if ltb p.max_depth d then text max_depth_mark else null
  redact_value p d (scalar n) = if ltb p.max_depth d then text max_depth_mark else scalar n
  redact_value p d (text t) = if ltb p.max_depth d then text max_depth_mark else text t
  redact_value p d (error name message) =
      if ltb p.max_depth d then text max_depth_mark else normalized name message
  redact_value p d (array xs) =
      if ltb p.max_depth d then text max_depth_mark else array (redact_items p (suc d) xs)
  redact_value p d (object fs) =
      if ltb p.max_depth d then text max_depth_mark else object (redact_fields p (suc d) fs)

  pub redact_items : Policy → ℕ → Items → Items
  redact_items p d nil = nil
  redact_items p d (cons x xs) = cons (redact_value p d x) (redact_items p d xs)

  pub redact_fields : Policy → ℕ → Fields → Fields
  redact_fields p d end = end
  redact_fields p d (field k v fs) =
      if has p.remove_fields (to_lower_case k)
      then redact_fields p d fs
      else if has p.redact_fields (to_lower_case k)
      then field k (text redacted_mark) (redact_fields p d fs)
      else field k (redact_value p d v) (redact_fields p d fs)

-- `DEFAULT_REDACT_FIELDS`, in lower case, without those that differ in case only.
abbrev pub default_redact_fields : List (List ℕ)
default_redact_fields =
    (b'a' ∷ b'u' ∷ b't' ∷ b'h' ∷ b'o' ∷ b'r' ∷ b'i' ∷ b'z' ∷ b'a' ∷ b't' ∷ b'i' ∷ b'o' ∷ b'n' ∷ [])
    ∷ (b'c' ∷ b'o' ∷ b'o' ∷ b'k' ∷ b'i' ∷ b'e' ∷ [])
    ∷ (b'p' ∷ b'a' ∷ b's' ∷ b's' ∷ b'w' ∷ b'o' ∷ b'r' ∷ b'd' ∷ [])
    ∷ (b'p' ∷ b'a' ∷ b's' ∷ b's' ∷ b'w' ∷ b'd' ∷ [])
    ∷ (b's' ∷ b'e' ∷ b'c' ∷ b'r' ∷ b'e' ∷ b't' ∷ [])
    ∷ (b't' ∷ b'o' ∷ b'k' ∷ b'e' ∷ b'n' ∷ [])
    ∷ (b'a' ∷ b'p' ∷ b'i' ∷ b'k' ∷ b'e' ∷ b'y' ∷ [])
    ∷ (b'a' ∷ b'c' ∷ b'c' ∷ b'e' ∷ b's' ∷ b's' ∷ b't' ∷ b'o' ∷ b'k' ∷ b'e' ∷ b'n' ∷ [])
    ∷ (b'r' ∷ b'e' ∷ b'f' ∷ b'r' ∷ b'e' ∷ b's' ∷ b'h' ∷ b't' ∷ b'o' ∷ b'k' ∷ b'e' ∷ b'n' ∷ [])
    ∷ []

abbrev pub default_max_redaction_depth : ℕ
default_max_redaction_depth = 8

abbrev pub names_of : Option (List (List ℕ)) → List (List ℕ)
names_of none = []
names_of (some ks) = map to_lower_case ks

abbrev pub depth_or_default : Option ℕ → ℕ
depth_or_default none = default_max_redaction_depth
depth_or_default (some n) = n

-- The policy that `redactReceipt` makes.
unfoldable pub runtime_policy : ReceiptRedactionPolicy → Policy
unfolding to_lower_case
runtime_policy o = record {
  remove_fields = names_of o.remove_fields;
  redact_fields = default_redact_fields ++ names_of o.redact_fields;
  max_depth = depth_or_default o.max_depth;
}

-- `redactReceipt`, on a receipt as a value.
unfoldable pub redact_receipt : ReceiptRedactionPolicy → Value → Value
unfolding redact_value runtime_policy
redact_receipt o v = redact_value (runtime_policy o) 0 v
