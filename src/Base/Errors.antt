-- ===== src/Base/Errors.antt =====
-- A function that may raise returns a `Result` over its exceptions.
use mathlib.Core.Path.{◌≡◌, refl}

pub data Result {ℓ} (X : Type 0) (A : Type ℓ) : Type ℓ where
  err : X → Result X A
  ok : A → Result X A

-- An exception skips what follows it.
infixl 5 ◌>>=◌
abbrev pub ◌>>=◌ {ℓ ℓ'} :
    {X : Type 0} {A : Type ℓ} {B : Type ℓ'} → Result X A → (A → Result X B) → Result X B
err x >>= next = err x
ok a >>= next = next a

-- What returned before a continuation that returned.
pub returned {ℓ ℓ'} :
    {X : Type 0} {A : Type ℓ} {B : Type ℓ'} (first : Result X A) (next : A → Result X B) {b : B}
    → (first >>= next) ≡ ok b
    → (a : A) × (first ≡ ok a) × (next a ≡ ok b)
returned (err x) next h = cc
returned (ok a) next h = (a, refl, h)
