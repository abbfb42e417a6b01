-- ===== src/Prelude/Results.antt =====
-- Go's `(value, error)`: a value or an error, never both, and chains that return at the first error.
use mathlib.Core.Path.{◌≡◌, refl}
use mathlib.Core.Logic.{◌⊎◌, inl, inr}
use Prim.Native.String.{String}

pub data Error : Type 0 where
  -- fmt.Errorf without a cause
  errorf : String → Error
  -- fmt.Errorf("…: %w", err)
  wrapf : String → Error → Error
  -- sql.ErrNoRows
  no_rows : Error
  -- an error that a library or the operating system reports
  reported : String → Error

pub data Result {ℓ} (A : Type ℓ) : Type ℓ where
  ok : A → Result A
  err : Error → Result A

infixl 5 ◌>>=◌
abbrev pub ◌>>=◌ {ℓ κ} : {A : Type ℓ} {B : Type κ} → Result A → (A → Result B) → Result B
ok a >>= f = f a
err e >>= f = err e

-- `if err != nil { return fmt.Errorf("…: %w", err) }`
abbrev pub wrap {ℓ} : {A : Type ℓ} → String → Result A → Result A
wrap s (ok a) = ok a
wrap s (err e) = err (wrapf s e)

pub Result-cases {ℓ} :
    {A : Type ℓ} (r : Result A) → ((a : A) × (r ≡ ok a)) ⊎ ((e : Error) × (r ≡ err e))
Result-cases (ok a) = inl (a, refl)
Result-cases (err e) = inr (e, refl)
