-- ===== src/System/Circuits/Tasks.antt =====
-- The circuits of the tasks of src/main.rs, kept by each of their steps.
use tee_prover_server.Prelude.{ℕ, Text, List, [], ◌∷◌, none, some, Option}
use tee_prover_server.Prelude.{
  Result, ok, err, Fault, failed, Result-cases, Bool-cases, inl, inr, All, append-All, panicked,
}
use tee_prover_server.Prelude.Dict.{lookup}
use tee_prover_server.Store.{Uuid}
use tee_prover_server.Database.{Column, set_witness_generated, update_proof}
use tee_prover_server.Generators.{
  FileGenerator, WitnessGenerator, ProofGenerator, run_file, run_witness,
}
use tee_prover_server.Generators
use tee_prover_server.Generators.Laws.{run_file-returns}
use tee_prover_server.Pipeline.{Plant, World}
use tee_prover_server.Pipeline.Tasks.{
  Task, writing, passing_on, computing, marking, handing_on, proving, storing, failing, removing,
  over, or_failing, after_fault, after_lookup, after_witness, after_proof, proceed,
}
use tee_prover_server.Pipeline.Stages
use tee_prover_server.Pipeline.Stages.{witness_jobs}
use tee_prover_server.System.Circuits.{OfWitness, OfTask}

module _ {W : Plant} {schema : List Column} (laws : Stages.IsLawful W schema) where
  abbrev pub IsOf : Task → Type 0
  IsOf t = OfTask W.circuit_zkey_map t

  or_failing-IsOf :
      (uuid : Uuid) (t : Task) (r : Result (Unit {0}) Text) → IsOf t → IsOf (or_failing uuid t r)
  or_failing-IsOf uuid t (ok x) h = h
  or_failing-IsOf uuid t (err e) h = tt

  after_fault-IsOf : (uuid : Uuid) (f : Fault) → IsOf (after_fault uuid f)
  after_fault-IsOf uuid (failed e) = tt
  after_fault-IsOf uuid panicked = tt

  after_lookup-IsOf : (uuid : Uuid) (o : Option Text) → IsOf (after_lookup W uuid o)
  after_lookup-IsOf uuid none = tt
  after_lookup-IsOf uuid (some zkey) = tt

  after_witness-IsOf :
      (uuid : Uuid) (r : Result (Uuid × Text) Fault) → IsOf (after_witness W uuid r)
  after_witness-IsOf uuid (ok (u, name)) = after_lookup-IsOf u (lookup name W.circuit_zkey_map)
  after_witness-IsOf uuid (err f) = after_fault-IsOf uuid f

  after_proof-IsOf : (g : ProofGenerator) (r : Result (Unit {0}) Fault) → IsOf (after_proof g r)
  after_proof-IsOf g (ok x) = tt
  after_proof-IsOf g (err f) = after_fault-IsOf g.uuid f

  writing-IsOf :
      (g : FileGenerator) (now : ℕ) (w : World W)
      → IsOf (writing g)
      → IsOf (proceed W (writing g) now w).0
  unfolding proceed
  writing-IsOf g now w h = elim (Result-cases (run_file W.os W.uuid_to_string g w.os).0) [
    | inl (out, e) ↦ rw (e, run_file-returns W.os W.uuid_to_string g w.os out e) h
    | inr (f, e) ↦ rw e (after_fault-IsOf g.uuid f)
  ]

  pub proceed-IsOf : (t : Task) (now : ℕ) (w : World W) → IsOf t → IsOf (proceed W t now w).0
  unfolding proceed
  proceed-IsOf (writing g) now w h = writing-IsOf g now w h
  proceed-IsOf (passing_on g) now w h =
      or_failing-IsOf g.uuid over (W.witnesses.send g w.witness_generator_sender).0 tt
  proceed-IsOf (computing g) now w h =
      after_witness-IsOf g.uuid (run_witness W.os W.uuid_to_string W.circuit_folder g w.os).0
  proceed-IsOf (marking g) now w h =
      or_failing-IsOf g.uuid (handing_on g) (set_witness_generated W.postgres g.uuid now w.db).0 tt
  proceed-IsOf (handing_on g) now w h =
      or_failing-IsOf g.uuid over (W.proofs.send g w.proof_generator_sender).0 tt
  proceed-IsOf (proving g) now w h =
      after_proof-IsOf g (Generators.run_proof W.os W.uuid_to_string W.rapid_snark_path g w.os).0
  proceed-IsOf (storing g) now w h =
      or_failing-IsOf g.uuid (removing g.uuid)
        (update_proof W.os W.parse_proof W.parse_inputs (W.uuid_to_string g.uuid) w.os W.postgres
          g.uuid now w.db).0
        tt
  proceed-IsOf (failing uuid reason) now w h = tt
  proceed-IsOf (removing uuid) now w h = tt
  proceed-IsOf over now w h = tt

  abbrev pub Queued : World W → Type 0
  Queued w = All (OfWitness W.circuit_zkey_map) (witness_jobs w)

  pub proceed-Queued :
      (t : Task) (now : ℕ) (w : World W) → IsOf t → Queued w → Queued (proceed W t now w).1
  unfolding proceed
  proceed-Queued (passing_on g) now w h k =
      elim (Bool-cases (W.witnesses.closed w.witness_generator_sender)) [
        | inl gone ↦ rw (laws.witnesses.send-closed g w.witness_generator_sender gone).1 k
        | inr live ↦
            rw (laws.witnesses.send-open g w.witness_generator_sender live).1
              (append-All (OfWitness W.circuit_zkey_map) (witness_jobs w) (g ∷ []) k (h, tt))
      ]
  proceed-Queued (writing g) now w h k = k
  proceed-Queued (computing g) now w h k = k
  proceed-Queued (marking g) now w h k = k
  proceed-Queued (handing_on g) now w h k = k
  proceed-Queued (proving g) now w h k = k
  proceed-Queued (storing g) now w h k = k
  proceed-Queued (failing uuid reason) now w h k = k
  proceed-Queued (removing uuid) now w h k = k
  proceed-Queued over now w h k = k
