-- ===== src/Database/Schema.antt =====
-- The table of setup.sql, against the statements of src/db/mod.rs.
use tee_prover_server.Prelude.{
  ℕ, ◌≡◌, refl, ◌≢◌, Bool, Text, codes, List, [], ◌∷◌, Option, ok, err, arith,
}
use tee_prover_server.Prelude.{map_err-eq-ok, Result-cases, inl, inr}
use mathlib.Core.Bool.{false≢true}
use tee_prover_server.Types.{ℤ, EndpointType, ProofType}
use tee_prover_server.Store.{Uuid}
use tee_prover_server.Database.{Column, Postgres, IsPostgres, created_columns, create_proof_status}
use tee_prover_server.Database.Rows.{create_proof_status_lem}

-- The columns of `CREATE TABLE IF NOT EXISTS proofs`.
abbrev pub setup_columns : List Column
setup_columns =
    Column.request_id ∷ Column.proof_type ∷ Column.status ∷ Column.circuit_name ∷ Column.onchain
    ∷ Column.created_at ∷ Column.witness_generated_at ∷ Column.proof_generated_at ∷ Column.proof
    ∷ Column.endpoint_type ∷ Column.endpoint ∷ Column.public_inputs ∷ Column.reason
    ∷ Column.identifier ∷ []

module _ {P : Postgres} (laws : IsPostgres P setup_columns) where
  pub create_proof_status-setup_ne_ok :
      (plain : EndpointType → Text) (u : Uuid) (kind : ProofType) (name : Text) (on_chain : Bool)
      (e : Option EndpointType) (place : Option Text) (v : ℤ) (user own : Text) (now : ℕ)
      (s : P.State)
      → (create_proof_status P plain u kind name on_chain e place v user own now s).0 ≢ ok tt
  unfolding create_proof_status created_columns
  create_proof_status-setup_ne_ok plain u kind name on_chain e place v user own now s done =
      let columns = created_columns plain u kind name on_chain e place v user own now in
      let (known, _, _) = laws.execute-insert columns s u (map_err-eq-ok _ _ done) refl in
      false≢true (known.1.1.1.1.1.1.1.1.0)

  -- On the table that setup.sql creates no request can be recorded, whatever it is: the insertion
  -- names columns that the table does not have, so the call fails and no row changes.
  pub create_proof_status-setup :
      (plain : EndpointType → Text) (u : Uuid) (kind : ProofType) (name : Text) (on_chain : Bool)
      (e : Option EndpointType) (place : Option Text) (v : ℤ) (user own : Text) (now : ℕ)
      (s : P.State)
      → let run = create_proof_status P plain u kind name on_chain e place v user own now s in
        (run.0 ≡ err (codes "Could not create the record")) × (P.rows run.1 ≡ P.rows s)
  create_proof_status-setup plain u kind name on_chain e place v user own now s =
      let run = create_proof_status P plain u kind name on_chain e place v user own now s in
      let columns = created_columns plain u kind name on_chain e place v user own now in
      let lem = create_proof_status_lem laws plain u kind name on_chain e place v user own now s in
      elim (Result-cases run.0) [
        | inl (_, done) ↦ absurd (
            create_proof_status-setup_ne_ok plain u kind name on_chain e place v user own now s
              done)
        | inr (why, failed) ↦ let (shown, same) = lem.1 why failed in (ground arith, same)
      ]
