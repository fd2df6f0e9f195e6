-- ===== src/Pipeline/Stages.antt =====
-- What the tasks of src/main.rs do to the requests, on every path.
mod Failures
pub use Failures.*
use mathlib.Core.Option
use tee_prover_server.Prelude.{Fault, true}
use tee_prover_server.Prelude.{ℕ, ◌≡◌, ◌==◌, ◌++◌, Text, List, [], ◌∷◌}
use tee_prover_server.Prelude.{none, ok, err}
use tee_prover_server.Prelude.{◌⊎◌, if◌then◌else◌}
use tee_prover_server.Types.{circuit}
use tee_prover_server.Store.{Uuid}
use tee_prover_server.Paths.{join}
use tee_prover_server.Database.{
  Column, Value, Row, Proof, assign, IsPostgres, fail_proof, set_witness_generated, update_proof,
  read_results,
}
use tee_prover_server.Database.Rows.{
  failed_columns, witness_columns, proof_columns, find_row, fail_proof_lem,
}
use tee_prover_server.Server.Env.{IsMpsc}
use tee_prover_server.Generators.{
  FileGenerator, WitnessGenerator, ProofGenerator, run_file, run_witness, run_proof,
}
use tee_prover_server.Pipeline.{Plant, World}

module _ {W : Plant} {schema : List Column} (laws : IsLawful W schema) where
  -- How the first stage ends for a request: with the job of the second stage, or with a failure.
  pub data FileEnd (g : FileGenerator) (w w' : World W) : Type 0 where
    passed_on :
        rows w' ≡ rows w
        → witness_jobs w'
          ≡ witness_jobs w
            ++ (record { uuid = g.uuid; circuit_file_name = (circuit g.proof_request).name } ∷ [])
        → FileEnd g w w'
    given_up :
        (((f : Fault) × ((run_file W.os W.uuid_to_string g w.os).0 ≡ err f))
          ⊎ (W.witnesses.closed w.witness_generator_sender ≡ true))
        → witness_jobs w' ≡ witness_jobs w
        → Fails (Refusal W.postgres g.uuid (rows w)) g.uuid (rows w) (rows w')
        → FileEnd g w w'

  -- How the second stage ends for a request, where its task does not panic.
  pub data WitnessEnd (g : WitnessGenerator) (now : ℕ) (zkey : Text) (w w' : World W) : Type 0 where
    passed_on :
        Changes g.uuid (witness_columns now) (rows w) (rows w')
        → proof_jobs w'
          ≡ proof_jobs w
            ++ (record { uuid = g.uuid; zkey_file_path = join W.zkey_folder zkey } ∷ [])
        → WitnessEnd g now zkey w w'
    given_up :
        (((f : Fault) × ((run_witness W.os W.uuid_to_string W.circuit_folder g w.os).0 ≡ err f))
          ⊎ (((why : Text) × ((set_witness_generated W.postgres g.uuid now w.db).0 ≡ err why))
              ⊎ (W.proofs.closed w.proof_generator_sender ≡ true)))
        → (between : List Row) → proof_jobs w' ≡ proof_jobs w
        → (between ≡ rows w) ⊎ Changes g.uuid (witness_columns now) (rows w) between
        → Fails (Refusal W.postgres g.uuid between) g.uuid between (rows w')
        → WitnessEnd g now zkey w w'

  -- How a round of the third stage ends for a request: with the proof and the inputs that its files
  -- hold, or with a failure.
  pub data ProofEnd (g : ProofGenerator) (now : ℕ) (w w' : World W) : Type 0 where
    stored :
        (p : Proof) (inputs : List Text)
        → read_results W.os W.parse_proof W.parse_inputs
            (W.uuid_to_string g.uuid)
            (run_proof W.os W.uuid_to_string W.rapid_snark_path g w.os).1
          ≡ ok (p, inputs)
        → Changes g.uuid (proof_columns p inputs now) (rows w) (rows w')
        → ProofEnd g now w w'
    given_up :
        (((f : Fault) × ((run_proof W.os W.uuid_to_string W.rapid_snark_path g w.os).0 ≡ err f))
          ⊎ ((why : Text) × ((update_proof W.os W.parse_proof W.parse_inputs
                  (W.uuid_to_string g.uuid)
                  (run_proof W.os W.uuid_to_string W.rapid_snark_path g w.os).1
                  W.postgres
                  g.uuid
                  now
                  w.db).0
                ≡ err why)))
        → Fails (Refusal W.postgres g.uuid (rows w)) g.uuid (rows w) (rows w')
        → ProofEnd g now w w'
