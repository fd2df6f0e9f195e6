-- ===== src/Prelude/Dict.antt =====
-- Maps from texts as association lists, and how the entries of one lie in order.
use Prim.Native.Nat.{ℕ, zero, suc, ◌+◌, ◌≤◌}
use mathlib.Core.Path.{◌≡◌, refl}
use mathlib.Core.Logic.{inl, inr}
use mathlib.Core.Bool.{Bool, true, false}
use mathlib.Core.List.{List, [], ◌∷◌}
use mathlib.Core.Option.{Option, none, some}
use native.Mathlib.Omega.{arith}
use tee_prover_server.Prelude.Tests.{if◌then◌else◌, Option-cases}
use tee_prover_server.Prelude.Lists.{length, take}
use tee_prover_server.Prelude.Strings.{Text, text_eq, text_eq_iff}

module _ {ℓ} {V : Type ℓ} where
  unfoldable pub lookup : Text → List (Text × V) → Option V
  lookup k [] = none
  lookup k ((j, v) ∷ m) = if text_eq j k then some v else lookup k m

  unfoldable pub has : Text → List (Text × V) → Bool
  has k [] = false
  has k ((j, v) ∷ m) = if text_eq j k then true else has k m

  -- Without the entries of a key.
  unfoldable pub remove : Text → List (Text × V) → List (Text × V)
  remove k [] = []
  remove k ((j, v) ∷ m) = if text_eq j k then remove k m else (j, v) ∷ remove k m

  -- A key that is there moves to the front.
  unfoldable pub touch : Text → List (Text × V) → List (Text × V)
  touch k m = elim (lookup k m) [ none ↦ m | some v ↦ (k, v) ∷ remove k m ]

  -- No key has two entries.
  abbrev pub NodupKeys : List (Text × V) → Type 0
  NodupKeys [] = Unit {0}
  NodupKeys ((k, v) ∷ m) = (has k m ≡ false) × NodupKeys m

  pub has-lookup : (k : Text) (m : List (Text × V)) → has k m ≡ false → lookup k m ≡ none
  unfolding has lookup
  has-lookup k [] h = refl
  has-lookup k ((j, v) ∷ m) h = ground (arith, has-lookup k m)

  pub has_of_lookup :
      (k : Text) (m : List (Text × V)) (v : V) → lookup k m ≡ some v → has k m ≡ true
  unfolding has lookup
  has_of_lookup k [] v h = cc
  has_of_lookup k ((j, w) ∷ m) v h = ground (arith, has_of_lookup k m v)

  pub has_of_none : (k : Text) (m : List (Text × V)) → lookup k m ≡ none → has k m ≡ false
  unfolding has lookup
  has_of_none k [] h = refl
  has_of_none k ((j, v) ∷ m) h = ground (arith, has_of_none k m)

  pub has-remove :
      (j k : Text) (m : List (Text × V))
      → has j (remove k m) ≡ (if text_eq k j then false else has j m)
  unfolding has remove
  has-remove j k [] = ground arith
  has-remove j k ((i, v) ∷ m) =
      ground (arith, has-remove j k m, text_eq_iff i k, text_eq_iff i j, text_eq_iff k j)

  pub lookup-remove :
      (j k : Text) (m : List (Text × V))
      → lookup j (remove k m) ≡ (if text_eq k j then none else lookup j m)
  unfolding lookup remove
  lookup-remove j k [] = ground arith
  lookup-remove j k ((i, v) ∷ m) =
      ground (arith, lookup-remove j k m, text_eq_iff i k, text_eq_iff i j, text_eq_iff k j)

  pub remove-NodupKeys : (k : Text) (m : List (Text × V)) → NodupKeys m → NodupKeys (remove k m)
  unfolding remove
  remove-NodupKeys k [] h = h
  remove-NodupKeys k ((i, v) ∷ m) h = ground (arith, remove-NodupKeys k m h.1, has-remove i k m)

  pub length-remove-le : (k : Text) (m : List (Text × V)) → length (remove k m) ≤ length m
  unfolding remove
  length-remove-le k [] = omega arith
  length-remove-le k (e ∷ m) = ground (arith, length-remove-le k m)

  pub length-remove-has :
      (k : Text) (m : List (Text × V)) → has k m ≡ true → length (remove k m) + 1 ≤ length m
  unfolding remove has
  length-remove-has k [] h = cc
  length-remove-has k (e ∷ m) h = ground (arith, length-remove-has k m, length-remove-le k m)

  pub remove_absent : (k : Text) (m : List (Text × V)) → has k m ≡ false → remove k m ≡ m
  unfolding remove has
  remove_absent k [] h = refl
  remove_absent k (e ∷ m) h = ground (arith, remove_absent k m)

  has-take : (n : ℕ) (k : Text) (m : List (Text × V)) → has k m ≡ false → has k (take n m) ≡ false
  unfolding has
  has-take zero k m h = refl
  has-take (suc n) k [] h = refl
  has-take (suc n) k (e ∷ m) h = ground (arith, has-take n k m)

  pub take-NodupKeys : (n : ℕ) (m : List (Text × V)) → NodupKeys m → NodupKeys (take n m)
  unfolding has
  take-NodupKeys zero m h = tt
  take-NodupKeys (suc n) [] h = tt
  take-NodupKeys (suc n) ((k, v) ∷ m) h = (has-take n k m h.0, take-NodupKeys n m h.1)

  pub touch-NodupKeys : (k : Text) (m : List (Text × V)) → NodupKeys m → NodupKeys (touch k m)
  unfolding touch
  touch-NodupKeys k m h = ground (arith, remove-NodupKeys k m h, has-remove k k m, text_eq_iff k k)

  pub length-touch-le : (k : Text) (m : List (Text × V)) → length (touch k m) ≤ length m
  unfolding touch
  length-touch-le k m = elim (Option-cases (lookup k m)) [
    | inl e ↦ rw (e, touch) (omega arith)
    | inr (v, e) ↦ rw (e, touch) (omega (arith, length-remove-has k m (has_of_lookup k m v e)))
  ]

  pub lookup-touch : (j k : Text) (m : List (Text × V)) → lookup j (touch k m) ≡ lookup j m
  unfolding touch lookup
  lookup-touch j k m = ground (arith, lookup-remove j k m, text_eq_iff k j)
