-- ===== src/Common/Results.antt =====
-- The outcome of Go code that returns an error or panics.
use mathlib.Core.Path.{◌≡◌, refl}

-- `err e` is a returned error, `panic` a run-time panic.
pub data Result {ℓ κ} (E : Type ℓ) (A : Type κ) : Type (ℓ ⊔ κ) where
  ok : A → Result E A
  err : E → Result E A
  panic : Result E A

infixl 5 ◌>>=◌
abbrev pub ◌>>=◌ {ℓ κ λ'} :
    {E : Type ℓ} {A : Type κ} {B : Type λ'} → Result E A → (A → Result E B) → Result E B
panic >>= k = panic
err why >>= k = err why
ok x >>= k = k x

-- The value that a run which went well passed on.
pub passed_on {ℓ κ λ'} :
    {E : Type ℓ} {A : Type κ} {B : Type λ'} (run : Result E A) (k : A → Result E B) (y : B)
    → ok y ≡ (run >>= k)
    → (x : A) × (ok y ≡ k x) × (ok x ≡ run)
passed_on panic k y h = cc
passed_on (err why) k y h = cc
passed_on (ok x) k y h = (x, h, refl)
