-- ===== src/Prelude/Fallible.antt =====
-- A call that returns or throws, with the thrown values as a type of the caller's.
use mathlib.Core.Path.{◌≡◌, refl, ap, sym, ◌∙◌}

pub data Result {ℓ κ} (E : Type ℓ) (A : Type κ) : Type (ℓ ⊔ κ) where
  ok : A → Result E A
  err : E → Result E A

infixl 5 ◌>>◌
infixl 5 ◌>>=◌
-- The second call runs if the first one returns, and a throw of the first one is the result.
abbrev pub ◌>>=◌ {ℓ κ μ} :
    {E : Type ℓ} {A : Type κ} {B : Type μ} → Result E A → (A → Result E B) → Result E B
err thrown >>= next = err thrown
ok value >>= next = next value

-- The value of a call that returns, in a sequence that returns.
pub >>=-eq-ok {ℓ κ μ} :
    {E : Type ℓ} {A : Type κ} {B : Type μ} (m : Result E A) (f : A → Result E B) {b : B}
    → (m >>= f) ≡ ok b
    → (a : A) × (m ≡ ok a) × (f a ≡ ok b)
>>=-eq-ok (err thrown) next h = cc
>>=-eq-ok (ok value) next h = (value, refl, h)

abbrev pub ◌>>◌ {ℓ κ} : {E : Type ℓ} {B : Type κ} → Result E (Unit {0}) → Result E B → Result E B
first >> second = first >>= λ _. second

-- A call that returns, followed by one that does.
pub >>=-returns {ℓ κ μ} :
    {E : Type ℓ} {A : Type κ} {B : Type μ} (m : Result E A) (f : A → Result E B) (a : A)
    → m ≡ ok a
    → (b : B) × (f a ≡ ok b)
    → (b : B) × ((m >>= f) ≡ ok b)
>>=-returns m f a e (b, h) = (b, rw e h)

value_or {ℓ κ} : {E : Type ℓ} {A : Type κ} → A → Result E A → A
value_or d (ok x) = x
value_or d (err x) = d

pub ok_injective {ℓ κ} :
    {E : Type ℓ} {A : Type κ} (a : A) (r : Result E A) {b : A} → r ≡ ok a → r ≡ ok b → a ≡ b
unfolding value_or
ok_injective a r e f = sym (ap (value_or a) e) ∙ ap (value_or a) f
