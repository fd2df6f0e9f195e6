-- ===== src/Pipeline/Tasks.antt =====
-- The tasks of `main` in src/main.rs and `cleanup` of src/utils.rs, cut at their awaits: each of the
-- three runs, each statement and each send is one step. A run of src/generator has awaits of its own
-- at its calls of the operating system; its paths are in the folder of its request, with the circuit
-- and the key, so it stays one step.
use tee_prover_server.Prelude.{
  ℕ, zero, suc, Text, Option, none, some, Result, ok, err, Fault, failed, panicked,
}
use tee_prover_server.Prelude.Dict.{lookup}
use tee_prover_server.Store.{Uuid}
use tee_prover_server.Paths.{join}
use tee_prover_server.Database.{fail_proof, set_witness_generated, update_proof}
use tee_prover_server.Generators.{
  FileGenerator, WitnessGenerator, ProofGenerator, run_file, run_witness, run_proof,
}
use tee_prover_server.Pipeline.{Plant, World, tmp_folder}

-- Where a task of the first stage, of the second stage, or the loop of the third stands; in
-- `cleanup`; or at its end.
pub data Task : Type 0 where
  -- before `file_generator.run()`, and before the send of the witness's job
  writing : FileGenerator → Task
  passing_on : WitnessGenerator → Task
  -- before `witness_generator.run()`, `set_witness_generated` and the send of the proof's job
  computing : WitnessGenerator → Task
  marking : ProofGenerator → Task
  handing_on : ProofGenerator → Task
  -- before `proof_generator.run()` and `update_proof`
  proving : ProofGenerator → Task
  storing : ProofGenerator → Task
  -- before `fail_proof` of `cleanup`, and before `remove_dir_all`
  failing : Uuid → Text → Task
  removing : Uuid → Task
  over : Task

-- What follows an answer: the task goes on, or `cleanup` begins.
abbrev pub or_failing : Uuid → Task → Result (Unit {0}) Text → Task
or_failing uuid next (ok _) = next
or_failing uuid next (err e) = failing uuid e

-- What follows the fault of a run: `cleanup`, or a panic, which ends the task.
abbrev pub after_fault : Uuid → Fault → Task
after_fault uuid (failed e) = failing uuid e
after_fault uuid panicked = over

abbrev pub after_file : Uuid → Result (Uuid × Text) Fault → Task
after_file uuid (err f) = after_fault uuid f
after_file uuid (ok (u, name)) = passing_on (record { uuid = u; circuit_file_name = name })

abbrev pub after_proof : ProofGenerator → Result (Unit {0}) Fault → Task
after_proof g (err f) = after_fault g.uuid f
after_proof g (ok _) = storing g

module _ (W : Plant) where
  -- The key file is looked up with `get(..).unwrap()`: a circuit that the map lacks is a panic.
  abbrev pub after_lookup : Uuid → Option Text → Task
  after_lookup uuid none = over
  after_lookup uuid (some zkey_file) =
      marking (record { uuid = uuid; zkey_file_path = join W.zkey_folder zkey_file })

  abbrev pub after_witness : Uuid → Result (Uuid × Text) Fault → Task
  after_witness uuid (err f) = after_fault uuid f
  after_witness uuid (ok (u, name)) = after_lookup u (lookup name W.circuit_zkey_map)

  -- A step of a task; `now` is the time that a statement reads.
  unfoldable pub proceed : Task → ℕ → World W → Task × World W
  proceed (writing g) now w =
      let (done, os) = run_file W.os W.uuid_to_string g w.os in
      (after_file g.uuid done, record w { os = os })
  proceed (passing_on g) now w =
      let (sent, channel) = W.witnesses.send g w.witness_generator_sender in
      (or_failing g.uuid over sent, record w { witness_generator_sender = channel })
  proceed (computing g) now w =
      let (done, os) = run_witness W.os W.uuid_to_string W.circuit_folder g w.os in
      (after_witness g.uuid done, record w { os = os })
  proceed (marking g) now w =
      let (done, db) = set_witness_generated W.postgres g.uuid now w.db in
      (or_failing g.uuid (handing_on g) done, record w { db = db })
  proceed (handing_on g) now w =
      let (sent, channel) = W.proofs.send g w.proof_generator_sender in
      (or_failing g.uuid over sent, record w { proof_generator_sender = channel })
  proceed (proving g) now w =
      let (done, os) = run_proof W.os W.uuid_to_string W.rapid_snark_path g w.os in
      (after_proof g done, record w { os = os })
  proceed (storing g) now w =
      let (done, db) =
        update_proof W.os W.parse_proof W.parse_inputs (W.uuid_to_string g.uuid) w.os W.postgres
          g.uuid now w.db in
      (or_failing g.uuid (removing g.uuid) done, record w { db = db })
  proceed (failing uuid reason) now w =
      (removing uuid, record w { db = (fail_proof W.postgres uuid reason w.db).1 })
  proceed (removing uuid) now w =
      (over, record w { os = (W.os.remove_dir_all (tmp_folder W uuid) w.os).1 })
  proceed over now w = (over, w)

  -- Several steps of one task, with nothing in between.
  unfoldable pub proceed_all : ℕ → Task → ℕ → World W → Task × World W
  proceed_all zero t now w = (t, w)
  proceed_all (suc n) t now w = let (t', w') = proceed t now w in proceed_all n t' now w'
