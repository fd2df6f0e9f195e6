-- ===== src/Prelude/Results.antt =====
-- Rust's `Result<A, E>`, and the conversions from and to `Option`.
use mathlib.Core.Path.{◌≡◌, refl}
use mathlib.Core.Logic.{◌⊎◌, inl, inr}
use Prim.Native.Nat.{ℕ}
use mathlib.Core.List.{List}
use mathlib.Core.Option.{Option, none, some}
use native.Mathlib.Omega.{arith}

pub data Result {ℓ} (A E : Type ℓ) : Type ℓ where
  ok : A → Result A E
  err : E → Result A E

module _ {ℓ} {A E : Type ℓ} where
  -- `Result::ok`
  abbrev pub to_option : Result A E → Option A
  to_option (ok a) = some a
  to_option (err e) = none

  pub Result-cases : (r : Result A E) → ((a : A) × (r ≡ ok a)) ⊎ ((e : E) × (r ≡ err e))
  Result-cases (ok a) = inl (a, refl)
  Result-cases (err e) = inr (e, refl)

module _ {ℓ} {A B E : Type ℓ} where
  -- `map_err`
  abbrev pub map_err : (B → E) → Result A B → Result A E
  map_err f (ok a) = ok a
  map_err f (err e) = err (f e)

  -- `?`
  infixl 5 ◌>>=◌
  abbrev pub ◌>>=◌ : Result A E → (A → Result B E) → Result B E
  ok a >>= f = f a
  err e >>= f = err e

module _ {ℓ} {A B E : Type ℓ} (f : B → E) where
  pub map_err-eq-ok : (r : Result A B) {a : A} → map_err f r ≡ ok a → r ≡ ok a
  map_err-eq-ok (ok b) h = ground arith
  map_err-eq-ok (err e) h = cc

  pub map_err-eq-err :
      (r : Result A B) {e : E} → map_err f r ≡ err e → (b : B) × (r ≡ err b) × (e ≡ f b)
  map_err-eq-err (ok a) h = cc
  map_err-eq-err (err b) h = (b, refl, ground arith)

-- An error that the code returns, or a panic.
pub data Fault : Type 0 where
  failed : List ℕ → Fault
  panicked : Fault
