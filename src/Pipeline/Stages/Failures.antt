-- ===== src/Pipeline/Stages/Failures.antt =====
-- How a task of src/main.rs changes the rows, and how it marks a request as failed.
use mathlib.Core.Option
use tee_prover_server.Prelude.{◌≡◌, ◌==◌, Text, List}
use tee_prover_server.Prelude.{Result-cases, inl, inr, err, refl, if◌then◌else◌}
use tee_prover_server.Store.{Uuid}
use tee_prover_server.Database.{Column, Value, Row, assign, Postgres, IsPostgres, fail_proof}
use tee_prover_server.Database.Rows.{failed_columns, find_row, fail_proof_lem}
use tee_prover_server.Server.Env.{IsMpsc}
use tee_prover_server.Generators.{WitnessGenerator, ProofGenerator}
use tee_prover_server.Pipeline.{Plant, World, cleanup}

-- What the database and the channels do.
pub record IsLawful (W : Plant) (schema : List Column) : Type 0 where
  pub postgres : IsPostgres W.postgres schema
  pub witnesses : IsMpsc W.witnesses
  pub proofs : IsMpsc W.proofs

module _ {W : Plant} where
  abbrev pub rows : World W → List Row
  rows w = W.postgres.rows w.db

  abbrev pub witness_jobs : World W → List WitnessGenerator
  witness_jobs w = W.witnesses.items w.witness_generator_sender

  abbrev pub proof_jobs : World W → List ProofGenerator
  proof_jobs w = W.proofs.items w.proof_generator_sender

-- The request's row is changed by the assignments, and no other.
abbrev pub Changes : Uuid → List (Column × Value) → List Row → List Row → Type 0
Changes u cs before after =
    (v : Uuid)
    → find_row v after
      ≡ (if u == v then Option.map (assign cs) (find_row v before) else find_row v before)

-- The request is marked as failed; or no row changes, and then there is a cause `X` for that.
pub data Fails (X : Type 0) (u : Uuid) (before after : List Row) : Type 0 where
  marked : (why : Text) → Changes u (failed_columns why) before after → Fails X u before after
  unmarked : X → after ≡ before → Fails X u before after

-- The database was asked to mark the request as failed, on these rows, and refused.
abbrev pub Refusal : Postgres → Uuid → List Row → Type 0
Refusal P u before =
    (why : Text) × (db : P.State) × (e : Text) × (P.rows db ≡ before)
    × ((fail_proof P u why db).0 ≡ err e)

module _ {W : Plant} {schema : List Column} (laws : IsLawful W schema) where
  -- What `cleanup` does to the rows.
  pub cleanup-Fails :
      (u : Uuid) (why : Text) (w : World W)
      → Fails (Refusal W.postgres u (rows w)) u (rows w) (rows (cleanup W u why w))
  unfolding cleanup
  cleanup-Fails u why w =
      let (done, refused) = fail_proof_lem laws.postgres u why w.db in
      elim (Result-cases (fail_proof W.postgres u why w.db).0) [
        | inl (tt, e) ↦ marked why (done e)
        | inr (e, no_answer) ↦ unmarked (why, w.db, e, refl, no_answer) (refused e no_answer)
      ]
