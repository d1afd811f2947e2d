-- ===== src/Replay/Redaction/Names.antt =====
-- The names that the options of a caller say to remove and to redact, and those of the compiled policy
-- (packages/core/src/replay/index.ts, `redactReceipt`).
use workit.Prelude.{
  ℕ, ◌+◌, ◌≡◌, refl, ap, ◌∙◌, Bool, true, false, ◌&&◌, ◌||◌, Option, none, some, List, [], ◌∷◌,
  ◌++◌, map, leb, ◌==◌, same_text, arith,
}
use workit.Replay.Redaction.{
  Policy, lower, to_lower_case, default_redact_fields, names_of, depth_or_default, has,
  ReceiptRedactionPolicy, runtime_policy,
}

-- Two characters, and two texts, that differ at most in the case of letters.
unfoldable pub same_letter : ℕ → ℕ → Bool
same_letter c d =
    (c == d)
    || (leb b'A' c && leb c b'Z' && (d == c + 32))
    || (leb b'A' d && leb d b'Z' && (c == d + 32))

abbrev same_name : List ℕ → List ℕ → Bool
same_name [] [] = true
same_name [] (d ∷ ds) = false
same_name (c ∷ cs) [] = false
same_name (c ∷ cs) (d ∷ ds) = same_letter c d && same_name cs ds

abbrev is_named : List (List ℕ) → List ℕ → Bool
is_named [] k = false
is_named (j ∷ js) k = same_name j k || is_named js k

-- The names that are redacted under every policy.
abbrev sensitive_names : List (List ℕ)
sensitive_names =
    (b'a' ∷ b'u' ∷ b't' ∷ b'h' ∷ b'o' ∷ b'r' ∷ b'i' ∷ b'z' ∷ b'a' ∷ b't' ∷ b'i' ∷ b'o' ∷ b'n' ∷ [])
    ∷ (b'c' ∷ b'o' ∷ b'o' ∷ b'k' ∷ b'i' ∷ b'e' ∷ [])
    ∷ (b'p' ∷ b'a' ∷ b's' ∷ b's' ∷ b'w' ∷ b'o' ∷ b'r' ∷ b'd' ∷ [])
    ∷ (b'p' ∷ b'a' ∷ b's' ∷ b's' ∷ b'w' ∷ b'd' ∷ [])
    ∷ (b's' ∷ b'e' ∷ b'c' ∷ b'r' ∷ b'e' ∷ b't' ∷ [])
    ∷ (b't' ∷ b'o' ∷ b'k' ∷ b'e' ∷ b'n' ∷ [])
    ∷ (b'a' ∷ b'p' ∷ b'i' ∷ b'K' ∷ b'e' ∷ b'y' ∷ [])
    ∷ (b'a' ∷ b'c' ∷ b'c' ∷ b'e' ∷ b's' ∷ b's' ∷ b'T' ∷ b'o' ∷ b'k' ∷ b'e' ∷ b'n' ∷ [])
    ∷ (b'r' ∷ b'e' ∷ b'f' ∷ b'r' ∷ b'e' ∷ b's' ∷ b'h' ∷ b'T' ∷ b'o' ∷ b'k' ∷ b'e' ∷ b'n' ∷ [])
    ∷ []

abbrev names_given : Option (List (List ℕ)) → List (List ℕ)
names_given none = []
names_given (some ks) = ks

-- The names that the options of a caller say to remove and to redact, in any case of letters.
abbrev pub removed_by : ReceiptRedactionPolicy → List ℕ → Bool
removed_by o k = is_named (names_given o.remove_fields) k

abbrev pub redacted_by : ReceiptRedactionPolicy → List ℕ → Bool
redacted_by o k = is_named sensitive_names k || is_named (names_given o.redact_fields) k

abbrev pub depth_limit : ReceiptRedactionPolicy → ℕ
depth_limit o = elim o.max_depth [ none ↦ 8 | some n ↦ n ]

-- The names that a compiled policy removes and redacts.
abbrev pub removes : Policy → List ℕ → Bool
removes p k = has p.remove_fields (to_lower_case k)

abbrev pub redacts : Policy → List ℕ → Bool
redacts p k = has p.redact_fields (to_lower_case k)

lower_eq : (c d : ℕ) → (lower c == lower d) ≡ same_letter c d
unfolding lower same_letter
lower_eq c d = ground arith

same_text-lower : (j k : List ℕ) → same_text (to_lower_case j) (to_lower_case k) ≡ same_name j k
unfolding to_lower_case
same_text-lower [] [] = refl
same_text-lower [] (d ∷ ds) = refl
same_text-lower (c ∷ cs) [] = refl
same_text-lower (c ∷ cs) (d ∷ ds) = rw (lower_eq c d, same_text-lower cs ds) refl

has-lower :
    (js : List (List ℕ)) (k : List ℕ) → has (map to_lower_case js) (to_lower_case k) ≡ is_named js k
has-lower [] k = refl
has-lower (j ∷ js) k = ground (arith, same_text-lower j k, has-lower js k)

has-append : (is js : List (List ℕ)) (k : List ℕ) → has (is ++ js) k ≡ (has is k || has js k)
has-append [] js k = refl
has-append (i ∷ is) js k = ground (arith, has-append is js k)

names_of-given : (o : Option (List (List ℕ))) → names_of o ≡ map to_lower_case (names_given o)
names_of-given none = refl
names_of-given (some ks) = refl

default-sensitive : default_redact_fields ≡ map to_lower_case sensitive_names
unfolding to_lower_case lower
default-sensitive = refl

pub removes-policy :
    (o : ReceiptRedactionPolicy) (k : List ℕ) → removes (runtime_policy o) k ≡ removed_by o k
unfolding runtime_policy
removes-policy o k =
    ap (λ l. has l (to_lower_case k)) (names_of-given o.remove_fields)
    ∙ has-lower (names_given o.remove_fields) k

pub redacts-policy :
    (o : ReceiptRedactionPolicy) (k : List ℕ) → redacts (runtime_policy o) k ≡ redacted_by o k
unfolding runtime_policy
redacts-policy o k =
    has-append default_redact_fields (names_of o.redact_fields) (to_lower_case k)
    ∙ rw (default-sensitive, names_of-given o.redact_fields)
        (cc (has-lower sensitive_names k, has-lower (names_given o.redact_fields) k))

pub depth-policy : (o : ReceiptRedactionPolicy) → (runtime_policy o).max_depth ≡ depth_limit o
unfolding runtime_policy
depth-policy o = elim o.max_depth as (λ m. depth_or_default m ≡ elim m [ none ↦ 8 | some n ↦ n ]) [
  | none ↦ refl
  | some n ↦ refl
]
