-- ===== src/Common/Lists.antt =====
-- Lists measured and indexed by native numbers, under the library's names.
use Prim.Native.Nat.{ℕ, zero, suc, ◌+◌}
use mathlib.Core.Path.{◌≡◌, refl, ap}
use mathlib.Core.List.{List, [], ◌∷◌, ◌++◌}
use mathlib.Core.Option.{Option, none, some}
use mathlib.Core.Bool.{Bool, true}
use mathlib.Core.Logic.{◌⊎◌, inl, inr}
use native.Mathlib.Omega.{arith}
use qumo.Common.Tests.{if◌then◌else◌, Bool-cases}

module _ {ℓ} {A : Type ℓ} where
  abbrev pub length : List A → ℕ
  length [] = 0
  length (x ∷ xs) = suc (length xs)

  abbrev pub take : ℕ → List A → List A
  take zero xs = []
  take (suc n) [] = []
  take (suc n) (x ∷ xs) = x ∷ take n xs

  abbrev pub drop : ℕ → List A → List A
  drop zero xs = xs
  drop (suc n) [] = []
  drop (suc n) (x ∷ xs) = drop n xs

  abbrev pub get_elem? : List A → ℕ → Option A
  get_elem? [] i = none
  get_elem? (x ∷ xs) zero = some x
  get_elem? (x ∷ xs) (suc i) = get_elem? xs i

  pub length-append : (xs ys : List A) → length (xs ++ ys) ≡ length xs + length ys
  length-append [] ys = omega arith
  length-append (x ∷ xs) ys = omega (arith, length-append xs ys)

  pub take-append_self : (xs ys : List A) → take (length xs) (xs ++ ys) ≡ xs
  take-append_self [] ys = refl
  take-append_self (x ∷ xs) ys = ap (λ l. x ∷ l) (take-append_self xs ys)

  pub drop-append_self : (xs ys : List A) → drop (length xs) (xs ++ ys) ≡ ys
  drop-append_self [] ys = refl
  drop-append_self (x ∷ xs) ys = drop-append_self xs ys

  -- Every element of a list meets a predicate.
  abbrev pub All {κ} : (A → Type κ) → List A → Type κ
  All P [] = Unit {κ}
  All P (x ∷ xs) = P x × All P xs

-- The elements that pass a test, in order.
abbrev pub keep {ℓ} : {A : Type ℓ} → (A → Bool) → List A → List A
keep p [] = []
keep p (x ∷ xs) = let rest = keep p xs in if p x then x ∷ rest else rest

module _ {A : Type 0} where
  -- An element stands somewhere in a list.
  abbrev pub Among : A → List A → Type 0
  Among a [] = ⊥
  Among a (x ∷ xs) = (a ≡ x) ⊎ Among a xs

  pub Among-keep_to :
      (p : A → Bool) (a : A) (xs : List A) → Among a (keep p xs) → Among a xs × (p a ≡ true)
  Among-keep_to p a [] h = absurd h
  Among-keep_to p a (x ∷ xs) h = ground (arith, Among-keep_to p a xs)

  pub Among-keep_of :
      (p : A → Bool) (a : A) (xs : List A) → Among a xs → p a ≡ true → Among a (keep p xs)
  Among-keep_of p a [] h e = absurd h
  Among-keep_of p a (x ∷ xs) h e = ground (arith, Among-keep_of p a xs)

  pub Among-append_to : (a : A) (xs ys : List A) → Among a (xs ++ ys) → Among a xs ⊎ Among a ys
  Among-append_to a [] ys h = inr h
  Among-append_to a (x ∷ xs) ys h = ground (arith, Among-append_to a xs ys)

  pub Among-append_of : (a : A) (xs ys : List A) → Among a xs ⊎ Among a ys → Among a (xs ++ ys)
  Among-append_of a [] ys h = ground arith
  Among-append_of a (x ∷ xs) ys h = ground (arith, Among-append_of a xs ys)

  pub All-Among {κ} : (P : A → Type κ) (a : A) (xs : List A) → All P xs → Among a xs → P a
  All-Among P a [] h m = absurd m
  All-Among P a (x ∷ xs) h (inl e) = rw e (h.0)
  All-Among P a (x ∷ xs) h (inr m) = All-Among P a xs h.1 m

  pub All-keep {κ} : (P : A → Type κ) (p : A → Bool) (xs : List A) → All P xs → All P (keep p xs)
  All-keep P p [] h = h
  All-keep P p (x ∷ xs) h = elim (Bool-cases (p x)) [
    | inl e ↦ rw e (h.0, All-keep P p xs h.1)
    | inr e ↦ rw e (All-keep P p xs h.1)
  ]

  pub All-append_to {κ} : (P : A → Type κ) (xs ys : List A) → All P (xs ++ ys) → All P xs × All P ys
  All-append_to P [] ys h = (tt, h)
  All-append_to P (x ∷ xs) ys h = let (a, b) = All-append_to P xs ys h.1 in ((h.0, a), b)

  pub All-append_of {κ} : (P : A → Type κ) (xs ys : List A) → All P xs → All P ys → All P (xs ++ ys)
  All-append_of P [] ys h k = k
  All-append_of P (x ∷ xs) ys h k = (h.0, All-append_of P xs ys h.1 k)
