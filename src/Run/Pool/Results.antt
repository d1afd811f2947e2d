-- ===== src/Run/Pool/Results.antt =====
-- Lemmas on the lists of a pool (packages/core/src/run/index.ts).
use workit.Prelude.{
  ℕ, zero, suc, ◌+◌, ◌<◌, ◌≡◌, ◌≢◌, refl, ap, true, Option, none, some, List, [], ◌∷◌, length,
  get_elem?, arith,
}
use workit.Run.Pool.{mem, remove, set_result, no_results, first_error}

pub length-remove : (i : ℕ) (js : List ℕ) → mem i js ≡ true → length (remove i js) + 1 ≡ length js
length-remove i [] h = ground arith
length-remove i (j ∷ js) h = ground (arith, length-remove i js)

pub mem-remove : (i j : ℕ) (js : List ℕ) → i ≢ j → mem j (remove i js) ≡ mem j js
mem-remove i j [] ne = refl
mem-remove i j (k ∷ js) ne = ground (arith, mem-remove i j js ne)

pub taken_one :
    (n : ℕ) (js : List ℕ) (j : ℕ)
    → ((k : ℕ) → mem k js ≡ true → k < n)
    → mem j (n ∷ js) ≡ true
    → j < n + 1
taken_one n js j h m = ground (arith, h j)

pub mem-remove_le : (i j : ℕ) (js : List ℕ) → mem j (remove i js) ≡ true → mem j js ≡ true
mem-remove_le i j [] h = h
mem-remove_le i j (k ∷ js) h = ground (arith, mem-remove_le i j js)

module _ {V : Type 0} where
  pub get_elem?-set_result :
      (i : ℕ) (v : V) (rs : List (Option V))
      → i < length rs
      → get_elem? (set_result i v rs) i ≡ some (some v)
  get_elem?-set_result i v [] h = ground arith
  get_elem?-set_result zero v (r ∷ rs) h = refl
  get_elem?-set_result (suc i) v (r ∷ rs) h = get_elem?-set_result i v rs (omega arith)

  pub get_elem?-set_result_other :
      (i j : ℕ) (v : V) (rs : List (Option V))
      → i ≢ j
      → get_elem? (set_result i v rs) j ≡ get_elem? rs j
  get_elem?-set_result_other i j v [] ne = refl
  get_elem?-set_result_other zero zero v (r ∷ rs) ne = absurd (ne refl)
  get_elem?-set_result_other zero (suc j) v (r ∷ rs) ne = refl
  get_elem?-set_result_other (suc i) zero v (r ∷ rs) ne = refl
  get_elem?-set_result_other (suc i) (suc j) v (r ∷ rs) ne =
      get_elem?-set_result_other i j v rs (λ e. ne (ap suc e))

  pub length-set_result :
      (i : ℕ) (v : V) (rs : List (Option V)) → length (set_result i v rs) ≡ length rs
  length-set_result i v [] = refl
  length-set_result zero v (r ∷ rs) = refl
  length-set_result (suc i) v (r ∷ rs) = ap suc (length-set_result i v rs)

pub length-no_results : (V : Type 0) (n : ℕ) → length (no_results {V = V} n) ≡ n
length-no_results V zero = refl
length-no_results V (suc n) = ap suc (length-no_results V n)

pub get_elem?-no_results :
    (V : Type 0) (n j : ℕ) → j < n → get_elem? (no_results {V = V} n) j ≡ some none
get_elem?-no_results V zero j h = ground arith
get_elem?-no_results V (suc n) zero h = refl
get_elem?-no_results V (suc n) (suc j) h = get_elem?-no_results V n j (omega arith)

pub first_error-some : {X : Type 0} (o : Option X) (e : X) → (d : X) × (first_error o e ≡ some d)
first_error-some none e = (e, refl)
first_error-some (some d) e = (d, refl)
