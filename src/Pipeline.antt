-- ===== src/Pipeline.antt =====
-- The three stages of `main` in src/main.rs, and `cleanup` of src/utils.rs. A task of a stage is
-- one step on the state; `now` is the time that its statement reads.
pub mod Stages
pub mod Keys
pub mod Folders
pub mod Tasks
pub mod Alone
use tee_prover_server.Prelude.{ℕ, Text, codes, List, Option, none, some, Result, ok, err}
use tee_prover_server.Prelude.{Fault, failed, panicked}
use tee_prover_server.Prelude.Dict.{lookup}
use tee_prover_server.Store.{Uuid}
use tee_prover_server.Paths.{join, get_tmp_folder_path}
use tee_prover_server.Os.{Os}
use tee_prover_server.Database.{Postgres, Proof, fail_proof, set_witness_generated, update_proof}
use tee_prover_server.Server.Env.{Mpsc}
use tee_prover_server.Generators.{
  FileGenerator, WitnessGenerator, ProofGenerator, run_file, run_witness, run_proof,
}

-- What the stages call outside of the repository, and the arguments of the program.
pub record Plant : Type 1 where
  pub os : Os
  pub postgres : Postgres
  pub witnesses : Mpsc WitnessGenerator
  pub proofs : Mpsc ProofGenerator
  pub uuid_to_string : Uuid → Text
  pub parse_proof : Text → Result Proof Text
  pub parse_inputs : Text → Result (List Text) Text
  pub circuit_folder : Text
  pub zkey_folder : Text
  pub rapid_snark_path : Text
  pub circuit_zkey_map : List (Text × Text)

pub record World (W : Plant) : Type 0 where
  pub os : W.os.State
  pub db : W.postgres.State
  pub witness_generator_sender : W.witnesses.Channel
  pub proof_generator_sender : W.proofs.Channel

-- A task runs to its end, or panics on the way.
pub data End : Type 0 where
  finished crashed : End

module _ (W : Plant) where
  abbrev pub tmp_folder : Uuid → Text
  tmp_folder uuid = get_tmp_folder_path (W.uuid_to_string uuid)

  -- `cleanup`: both of its results are dropped.
  unfoldable pub cleanup : Uuid → Text → World W → World W
  cleanup uuid reason w = record w {
    db = (fail_proof W.postgres uuid reason w.db).1;
    os = (W.os.remove_dir_all (tmp_folder uuid) w.os).1;
  }

  -- What a task does with the answer of its last call.
  abbrev or_cleanup : Uuid → Result (Unit {0}) Text → World W → End × World W
  or_cleanup uuid (ok _) w = (finished, w)
  or_cleanup uuid (err e) w = (finished, cleanup uuid e w)

  -- What a task does with the fault of its run: a panic ends it.
  abbrev after_fault : Uuid → Fault → World W → End × World W
  after_fault uuid (failed e) w = (finished, cleanup uuid e w)
  after_fault uuid panicked w = (crashed, w)

  send_witness : WitnessGenerator → World W → End × World W
  send_witness g w =
      let (sent, channel) = W.witnesses.send g w.witness_generator_sender in
      or_cleanup g.uuid sent (record w { witness_generator_sender = channel })

  send_proof : ProofGenerator → World W → End × World W
  send_proof g w =
      let (sent, channel) = W.proofs.send g w.proof_generator_sender in
      or_cleanup g.uuid sent (record w { proof_generator_sender = channel })

  -- The task of the first stage.
  unfoldable pub file_task : FileGenerator → World W → End × World W
  unfolding send_witness
  file_task g w =
      let (done, os) = run_file W.os W.uuid_to_string g w.os in
      let w' = record w { os = os } in
      elim done [
        | err f ↦ after_fault g.uuid f w'
        | ok (uuid, circuit_name) ↦
            send_witness (record { uuid = uuid; circuit_file_name = circuit_name }) w'
      ]

  -- The end of the second stage's task, once the key file is known.
  witness_done : Uuid → Text → ℕ → World W → End × World W
  unfolding send_proof
  witness_done uuid zkey_file now w =
      let (set, db) = set_witness_generated W.postgres uuid now w.db in
      let w' = record w { db = db } in
      elim set [
        | err e ↦ (finished, cleanup uuid e w')
        | ok _ ↦
            send_proof (record { uuid = uuid; zkey_file_path = join W.zkey_folder zkey_file }) w'
      ]

  -- The task of the second stage. A circuit that the map lacks is a panic, `get(..).unwrap()`.
  unfoldable pub witness_task : WitnessGenerator → ℕ → World W → End × World W
  unfolding witness_done
  witness_task g now w =
      let (done, os) = run_witness W.os W.uuid_to_string W.circuit_folder g w.os in
      let w' = record w { os = os } in
      elim done [
        | err f ↦ after_fault g.uuid f w'
        | ok (uuid, circuit_name) ↦ elim (lookup circuit_name W.circuit_zkey_map) [
          | none ↦ (crashed, w')
          | some zkey_file ↦ witness_done uuid zkey_file now w'
        ]
      ]

  -- The end of the third stage's round, once the prover has run.
  proof_done : Uuid → ℕ → World W → End × World W
  proof_done uuid now w =
      let (done, db) =
        update_proof W.os W.parse_proof W.parse_inputs (W.uuid_to_string uuid) w.os W.postgres uuid
          now w.db in
      let w' = record w { db = db } in
      elim done [
        | err e ↦ (finished, cleanup uuid e w')
        | ok _ ↦ (finished, record w' { os = (W.os.remove_dir_all (tmp_folder uuid) w'.os).1 })
      ]

  -- A round of the third stage's loop.
  unfoldable pub proof_round : ProofGenerator → ℕ → World W → End × World W
  unfolding proof_done
  proof_round g now w =
      let (done, os) = run_proof W.os W.uuid_to_string W.rapid_snark_path g w.os in
      let w' = record w { os = os } in
      elim done [ err f ↦ after_fault g.uuid f w' | ok _ ↦ proof_done g.uuid now w' ]
