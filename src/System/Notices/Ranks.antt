-- ===== src/System/Notices/Ranks.antt =====
-- How many notices the triggers of setup.sql can have sent of a request, by its life.
use tee_prover_server.Prelude.{suc, ◌≡◌, refl, ap, ◌≤◌, ◌⊎◌, inl, inr, arith, ℕ}
use tee_prover_server.Database.{Status, pending, witness_generated, proof_genererated, failed}
use tee_prover_server.System.Life.{
  Life, absent, waiting, proving, stopping, ended, Turn, accept, generate, prove, drop,
  stop_waiting, stop_proving, fail, leave,
}
use tee_prover_server.System.Lives.{seen}

-- How many statuses a request can have been told of, where it is in its life.
abbrev pub rank : Life → ℕ
rank absent = 0
rank waiting = 1
rank proving = 2
rank (stopping pending) = 1
rank (stopping st) = 2
rank (ended st) = 3

pub rank-le : (m : Life) → rank m ≤ 3
rank-le absent = omega arith
rank-le waiting = omega arith
rank-le proving = omega arith
rank-le (stopping pending) = omega arith
rank-le (stopping witness_generated) = omega arith
rank-le (stopping proof_genererated) = omega arith
rank-le (stopping failed) = omega arith
rank-le (ended st) = omega arith

stopping-rank : (st : Status) → rank (stopping st) ≤ 2
stopping-rank pending = omega arith
stopping-rank witness_generated = omega arith
stopping-rank proof_genererated = omega arith
stopping-rank failed = omega arith

-- A turn to another view leads on.
Turn-rank :
    (m n : Life) → Turn m n → ((seen n ≡ seen m) × (rank m ≤ rank n)) ⊎ (suc (rank m) ≤ rank n)
Turn-rank _ _ accept = inr (omega arith)
Turn-rank _ _ generate = inr (omega arith)
Turn-rank _ _ prove = inr (omega arith)
Turn-rank _ _ drop = inr (omega arith)
Turn-rank _ _ stop_waiting = inl (refl, omega arith)
Turn-rank _ _ stop_proving = inl (refl, omega arith)
Turn-rank _ _ (fail st) = inr (omega (arith, stopping-rank st))
Turn-rank _ _ (leave st) = inr (omega (arith, stopping-rank st))

pub turned_rank :
    (m n : Life)
    → (n ≡ m) ⊎ Turn m n
    → ((seen n ≡ seen m) × (rank m ≤ rank n)) ⊎ (suc (rank m) ≤ rank n)
turned_rank m n (inl e) = inl (ap seen e, omega (arith, ap rank e))
turned_rank m n (inr turn) = Turn-rank m n turn
