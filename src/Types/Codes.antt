-- ===== src/Types/Codes.antt =====
-- The numbers by which the proof types and versions of src/types.rs are stored.
use tee_prover_server.Prelude.{◌↔◌, ℕ, ◌≡◌, refl, ◌<◌, ◌≤◌, ◌^◌, ◌+◌, ◌-◌, some, arith}
use tee_prover_server.Types.{ℤ, pos, negsuc, ProofType, as_i32, to_i32, try_from}

try_from-to_i32 : (p : ProofType) → try_from (to_i32 p) ≡ some p
unfolding try_from to_i32
try_from-to_i32 ProofType.register = refl
try_from-to_i32 _ = refl

try_from-pos : (n : ℕ) {p : ProofType} → try_from (pos n) ≡ some p → to_i32 p ≡ pos n
unfolding try_from to_i32
try_from-pos n h = ground arith

to_i32-try_from : (z : ℤ) (p : ProofType) → try_from z ≡ some p → to_i32 p ≡ z
to_i32-try_from (pos n) p h = try_from-pos n h
to_i32-try_from (negsuc n) p h = unfold try_from in cc

-- A number reads as a proof type exactly if it is the number that the type is stored as: what is
-- stored can be read back, and no other number is read.
pub try_from_iff : (z : ℤ) (p : ProofType) → (try_from z ≡ some p) ↔ (to_i32 p ≡ z)
try_from_iff z p = (to_i32-try_from z p, λ h. rw (← h) (try_from-to_i32 p))

-- A version below 2^32 is stored as the number that it is modulo 2^32: below 2^31 the version itself,
-- and above, the negative number that is 2^32 less.
pub as_i32_lem :
    (v : ℕ)
    → v < 2 ^ 32
    → (v < 2 ^ 31 → as_i32 v ≡ pos v)
      × (2 ^ 31 ≤ v → (n : ℕ) × (as_i32 v ≡ negsuc n) × (v + (n + 1) ≡ 2 ^ 32))
unfolding as_i32
as_i32_lem v h = (λ low. ground arith, λ high. (2 ^ 32 - v - 1, ground arith, omega arith))
