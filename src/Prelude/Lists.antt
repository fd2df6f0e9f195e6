-- ===== src/Prelude/Lists.antt =====
-- Lists measured by native numbers.
use Prim.Native.Nat.{ℕ, zero, suc, ◌+◌, ◌≤◌}
use mathlib.Core.Path.{◌≡◌, refl, ap}
use mathlib.Core.List.{List, [], ◌∷◌, ◌++◌}
use native.Mathlib.Omega.{arith}
use tee_prover_server.Prelude.Tests.{◌==◌, if◌then◌else◌, Bool-cases}
use mathlib.Core.Logic.{inl, inr}

module _ {ℓ} {A : Type ℓ} where
  abbrev pub length : List A → ℕ
  length [] = 0
  length (x ∷ xs) = suc (length xs)

  abbrev pub drop : ℕ → List A → List A
  drop zero xs = xs
  drop (suc n) [] = []
  drop (suc n) (x ∷ xs) = drop n xs

  pub length-append : (xs ys : List A) → length (xs ++ ys) ≡ length xs + length ys
  length-append [] ys = omega arith
  length-append (x ∷ xs) ys = omega (arith, length-append xs ys)

  abbrev pub take : ℕ → List A → List A
  take zero xs = []
  take (suc n) [] = []
  take (suc n) (x ∷ xs) = x ∷ take n xs

  pub take-append : (xs ys : List A) → take (length xs) (xs ++ ys) ≡ xs
  take-append [] ys = refl
  take-append (x ∷ xs) ys = ap (◌∷◌ x) (take-append xs ys)

  pub length-take-le : (n : ℕ) (xs : List A) → length (take n xs) ≤ n
  length-take-le zero xs = omega arith
  length-take-le (suc n) [] = omega arith
  length-take-le (suc n) (x ∷ xs) = omega (arith, length-take-le n xs)

  -- How many elements have a key.
  abbrev pub count_by : (A → ℕ) → ℕ → List A → ℕ
  count_by key k [] = 0
  count_by key k (x ∷ xs) = (if key x == k then 1 else 0) + count_by key k xs

  pub count_by-append :
      (key : A → ℕ) (k : ℕ) (xs ys : List A)
      → count_by key k (xs ++ ys) ≡ count_by key k xs + count_by key k ys
  count_by-append key k [] ys = omega arith
  count_by-append key k (x ∷ xs) ys = omega (arith, count_by-append key k xs ys)

  -- Every element has a property.
  abbrev pub All : (A → Type 0) → List A → Type 0
  All P [] = Unit {0}
  All P (x ∷ xs) = P x × All P xs

  pub append-All : (P : A → Type 0) (xs ys : List A) → All P xs → All P ys → All P (xs ++ ys)
  append-All P [] ys h k = k
  append-All P (x ∷ xs) ys h k = (h.0, append-All P xs ys h.1 k)

  pub All_middle :
      (P : A → Type 0) (xs : List A) (y : A) (ys : List A)
      → All P (xs ++ (y ∷ ys))
      → P y × All P (xs ++ ys)
  All_middle P [] y ys h = (h.0, h.1)
  All_middle P (x ∷ xs) y ys h = let (mine, rest) = All_middle P xs y ys h.1 in (mine, (h.0, rest))

  pub All_of_middle :
      (P : A → Type 0) (xs : List A) (y : A) (ys : List A)
      → P y
      → All P (xs ++ ys)
      → All P (xs ++ (y ∷ ys))
  All_of_middle P [] y ys h k = (h, k)
  All_of_middle P (x ∷ xs) y ys h k = (k.0, All_of_middle P xs y ys h k.1)

  pub count_by-le-length : (key : A → ℕ) (k : ℕ) (xs : List A) → count_by key k xs ≤ length xs
  count_by-le-length key k [] = omega arith
  count_by-le-length key k (x ∷ xs) =
      let rest = count_by-le-length key k xs in
      elim (Bool-cases (key x == k)) [
        | inl same ↦ rw same (omega arith)
        | inr other ↦ rw other (omega arith)
      ]
