-- ===== src/Prelude/Errors.antt =====
-- Go's error values, and the results of functions that may fail.
use Prim.Native.Nat.{ℕ}
use Prim.Native.String.{String}
use mathlib.Core.Path.{◌≡◌, refl}
use mathlib.Core.Logic.{◌⊎◌, inl, inr}
use mathlib.Core.List.{List}
use crated.Prelude.Int.{ℤ}

-- The arguments of a format.
pub data Arg : Type 0 where
  str : String → Arg
  num : ℕ → Arg
  int : ℤ → Arg
  texts : List String → Arg

-- `errorf f args` is `fmt.Errorf(f, args…)`, `wrapf f args e` the same with `%w` for `e` at the
-- end. An error of code outside the repository is `foreign`.
pub data Error : Type 0 where
  errorf : String → List Arg → Error
  wrapf : String → List Arg → Error → Error
  foreign : String → Error

pub data Result {ℓ} (A : Type ℓ) : Type ℓ where
  ok : A → Result A
  err : Error → Result A

infixl 5 ◌>>=◌
abbrev pub ◌>>=◌ {ℓ κ} : {A : Type ℓ} {B : Type κ} → Result A → (A → Result B) → Result B
ok a >>= f = f a
err e >>= f = err e

-- `if err != nil { return fmt.Errorf("…: %w", err) }`
abbrev pub or_wrap {ℓ} : {A : Type ℓ} → Result A → String → List Arg → Result A
or_wrap (ok a) f args = ok a
or_wrap (err e) f args = err (wrapf f args e)

pub Result-cases {ℓ} :
    {A : Type ℓ} (r : Result A) → ((a : A) × (r ≡ ok a)) ⊎ ((e : Error) × (r ≡ err e))
Result-cases (ok a) = inl (a, refl)
Result-cases (err e) = inr (e, refl)
