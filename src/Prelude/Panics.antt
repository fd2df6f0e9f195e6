-- ===== src/Prelude/Panics.antt =====
-- A chain of steps each of which may panic: `none` is the panic.
use mathlib.Core.Path.{◌≡◌, refl}
use mathlib.Core.Option.{Option, none, some}

module _ {ℓ} {A B : Type ℓ} where
  infixl 5 ◌>>=◌
  abbrev pub ◌>>=◌ : Option A → (A → Option B) → Option B
  none >>= f = none
  some a >>= f = f a

  -- A chain that does not panic had a first step that did not.
  pub >>=-elim :
      {P : Type ℓ} (o : Option A) (f : A → Option B) {b : B}
      → (o >>= f) ≡ some b
      → ((a : A) → o ≡ some a → f a ≡ some b → P)
      → P
  >>=-elim none f h k = absurd (cc)
  >>=-elim (some a) f h k = k a refl h
