-- ===== src/Common/Results.antt =====
-- A Go pair of a value and an error, of which one is nil.
use mathlib.Core.Path.{◌≡◌, refl}
use mathlib.Core.Logic.{◌⊎◌, inl, inr}

pub data Result {ℓ} (E : Type 0) (A : Type ℓ) : Type ℓ where
  ok : A → Result E A
  err : E → Result E A

infixl 5 ◌>>=◌
abbrev pub ◌>>=◌ {ℓ ℓ'} :
    {E : Type 0} {A : Type ℓ} {B : Type ℓ'} → Result E A → (A → Result E B) → Result E B
err why >>= next_step = err why
ok value >>= next_step = next_step value

-- What a step that succeeded was made of.
pub >>=-eq-ok {ℓ ℓ'} :
    {E : Type 0} {A : Type ℓ} {B : Type ℓ'} (r : Result E A) (k : A → Result E B) {b : B}
    → (r >>= k) ≡ ok b
    → (a : A) × (r ≡ ok a) × (k a ≡ ok b)
>>=-eq-ok (err why) k e = cc
>>=-eq-ok (ok value) k e = (value, refl, e)

pub Result-cases {ℓ} :
    {E : Type 0} {A : Type ℓ} (r : Result E A) → ((a : A) × (r ≡ ok a)) ⊎ ((e : E) × (r ≡ err e))
Result-cases (ok a) = inl (a, refl)
Result-cases (err e) = inr (e, refl)

-- What succeeds still succeeds, with the same value, after steps that succeed at least as often.
pub >>=-mono {ℓ κ} :
    {E : Type 0} {A : Type ℓ} {B : Type κ} (m n : Result E A) (f g : A → Result E B) (b : B)
    → ((a : A) → m ≡ ok a → n ≡ ok a)
    → ((a : A) → f a ≡ ok b → g a ≡ ok b)
    → (m >>= f) ≡ ok b
    → (n >>= g) ≡ ok b
>>=-mono (ok a) n f g b p q h = rw (p a refl) (q a h)
>>=-mono (err e) n f g b p q h = cc
