-- ===== src/Engine/Context/Snapshot.antt =====
-- The snapshot of a bag shows what its readers see (packages/core/src/engine/context.ts).
use workit.Prelude.{
  ℕ, ◌≡◌, refl, ap, sym, subst, ◌∙◌, true, false, Option, none, some, List, [], ◌∷◌, find,
  same_text, same_text→eq, same_text_refl, same_text_flip, if◌then◌else◌, arith, Bool-cases,
  option-cases, inl, inr,
}
use workit.Engine.Context.{
  BudgetState, Stored, Overlay, ContextBag, Public, find_stored, has, get, to_public, set_entry,
  set_all, flattened, public_entries, entries_snapshot,
}

-- The entries of a map: no key stands twice.
abbrev pub IsMap {ℓ} : {A : Type ℓ} → List (List ℕ × A) → Type ℓ
IsMap [] = Unit
IsMap ((k, s) ∷ m) = (find k m ≡ none) × IsMap m

abbrev pub AllMaps : {V : Type 0} → ContextBag V → Type 0
AllMaps [] = Unit
AllMaps (m ∷ bag) = IsMap m × AllMaps bag

module _ {V : Type 0} where
  find-set_entry :
      (k j : List ℕ) (s : Stored V) (m : Overlay V)
      → find j (set_entry k s m) ≡ (if same_text k j then some s else find j m)
  find-set_entry k j s [] = ground arith
  find-set_entry k j s ((i, t) ∷ m) = ground (
    arith,
    find-set_entry k j s m,
    same_text→eq i k,
    same_text→eq i j,
    same_text→eq k j,
    same_text_refl j,
  )

  fresh-set_entry :
      (i k : List ℕ) (s : Stored V) (m : Overlay V)
      → same_text i k ≡ false
      → find i m ≡ none
      → find i (set_entry k s m) ≡ none
  fresh-set_entry i k s m e fresh = rw (find-set_entry k i s m, same_text_flip i k e) fresh

  set_entry-here :
      (i k : List ℕ) (s t : Stored V) (m : Overlay V)
      → same_text i k ≡ true
      → set_entry k s ((i, t) ∷ m) ≡ (i, s) ∷ m
  set_entry-here i k s t m e = ground arith

  set_entry-later :
      (i k : List ℕ) (s t : Stored V) (m : Overlay V)
      → same_text i k ≡ false
      → set_entry k s ((i, t) ∷ m) ≡ (i, t) ∷ set_entry k s m
  set_entry-later i k s t m e = ground arith

  IsMap-set_entry : (k : List ℕ) (s : Stored V) (m : Overlay V) → IsMap m → IsMap (set_entry k s m)
  IsMap-set_entry k s [] h = (refl, tt)
  IsMap-set_entry k s ((i, t) ∷ m) (fresh, h) = elim (Bool-cases (same_text i k)) [
    | inl e ↦ subst IsMap (sym (set_entry-here i k s t m e)) (fresh, h)
    | inr e ↦
        subst IsMap (sym (set_entry-later i k s t m e))
          (fresh-set_entry i k s m e fresh, IsMap-set_entry k s m h)
  ]

  find-set_all :
      (j : List ℕ) (es m : Overlay V)
      → IsMap es
      → find j (set_all es m) ≡ elim (find j es) [ some s ↦ some s | none ↦ find j m ]
  find-set_all j [] m h = refl
  find-set_all j ((k, s) ∷ es) m (fresh, h) = elim (Bool-cases (same_text k j)) [
    | inl e ↦ ground (
      arith,
      find-set_all j es (set_entry k s m) h,
      find-set_entry k j s m,
      subst (λ x. find x es ≡ none) (same_text→eq k j e) fresh,
    )
    | inr e ↦ ground (arith, find-set_all j es (set_entry k s m) h, find-set_entry k j s m)
  ]

  IsMap-set_all : (es m : Overlay V) → IsMap m → IsMap (set_all es m)
  IsMap-set_all [] m h = h
  IsMap-set_all ((k, s) ∷ es) m h = IsMap-set_all es (set_entry k s m) (IsMap-set_entry k s m h)

  find-flattened :
      (j : List ℕ) (bag : ContextBag V) → AllMaps bag → find j (flattened bag) ≡ find_stored j bag
  unfolding flattened find_stored
  find-flattened j [] h = refl
  find-flattened j (m ∷ bag) (h, hs) = find-set_all j m (flattened bag) h ∙ λ i. elim (find j m) [
    | some s ↦ some s
    | none ↦ find-flattened j bag hs i
  ]

  IsMap-flattened : (bag : ContextBag V) → IsMap (flattened bag)
  unfolding flattened
  IsMap-flattened [] = tt
  IsMap-flattened (m ∷ bag) = IsMap-set_all m (flattened bag) (IsMap-flattened bag)

  to_public_of : List BudgetState → Option (Stored V) → Option (Public V)
  to_public_of cells none = none
  to_public_of cells (some s) = some (to_public cells s)

  find-public_entries :
      (cells : List BudgetState) (j : List ℕ) (m : Overlay V)
      → find j (public_entries cells m) ≡ to_public_of cells (find j m)
  unfolding to_public_of
  find-public_entries cells j [] = refl
  find-public_entries cells j ((k, s) ∷ m) =
      ground (arith, find-public_entries cells j m, to_public_of cells (find j m))

  IsMap-public_entries :
      (cells : List BudgetState) (m : Overlay V) → IsMap m → IsMap (public_entries cells m)
  unfolding to_public_of
  IsMap-public_entries cells [] h = tt
  IsMap-public_entries cells ((k, s) ∷ m) (fresh, h) =
      (rw (find-public_entries cells k m, fresh) refl, IsMap-public_entries cells m h)

  -- What a reader of a bag sees under a name: nothing, or what `get` gives.
  unfoldable pub seen : List BudgetState → List ℕ → ContextBag V → Option (Public V)
  unfolding has
  seen cells name bag = if has name bag then some (get cells name none bag) else none

  seen-find_stored :
      (cells : List BudgetState) (name : List ℕ) (bag : ContextBag V)
      → to_public_of cells (find_stored name bag) ≡ seen cells name bag
  unfolding to_public_of seen has get
  seen-find_stored cells name bag = ground (arith, option-cases (find_stored name bag))

-- The snapshot of a bag whose maps have no name twice has no name twice, and it holds for each name
-- what the bag's readers see: what `get` gives where `has` holds, an entry of the innermost map
-- before one of its parents and a budget as its state, and nothing under another name.
pub entries_snapshot-get :
    {V : Type 0} (cells : List BudgetState) (bag : ContextBag V)
    → AllMaps bag
    → IsMap (entries_snapshot cells bag)
      × ((name : List ℕ)
          → find name (entries_snapshot cells bag)
            ≡ (if has name bag then some (get cells name none bag) else none))
unfolding entries_snapshot seen has
entries_snapshot-get cells bag h = (
  IsMap-public_entries cells (flattened bag) (IsMap-flattened bag),
  λ name.
      find-public_entries cells name (flattened bag)
      ∙ ap (to_public_of cells) (find-flattened name bag h)
      ∙ seen-find_stored cells name bag,
)
