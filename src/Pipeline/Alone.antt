-- ===== src/Pipeline/Alone.antt =====
-- A task of src/main.rs whose steps have nothing in between, against the task as one step.
use tee_prover_server.Prelude.{ℕ, ◌≡◌, arith}
use tee_prover_server.Generators.{FileGenerator, WitnessGenerator, ProofGenerator}
use tee_prover_server.Pipeline.{Plant, World, cleanup, file_task, witness_task, proof_round}
use tee_prover_server.Pipeline.Tasks.{writing, computing, proving, over, proceed, proceed_all}

module _ (W : Plant) (now : ℕ) where
  -- With nothing in between, the steps of a task of the first stage end after four at most, and
  -- leave the files, the database and the channels as the task does that runs as one step.
  pub writing-file_task :
      (g : FileGenerator) (w : World W)
      → proceed_all W 4 (writing g) now w ≡ (over, (file_task W g w).1)
  unfolding file_task proceed_all proceed cleanup
  writing-file_task g w = ground arith

  -- With nothing in between, the steps of a task of the second stage end after five at most, and
  -- leave the files, the database and the channels as the task does that runs as one step,
  -- also where the run or the lookup of the key panics.
  pub computing-witness_task :
      (g : WitnessGenerator) (w : World W)
      → proceed_all W 5 (computing g) now w ≡ (over, (witness_task W g now w).1)
  unfolding witness_task proceed_all proceed cleanup
  computing-witness_task g w = ground arith

  -- With nothing in between, the steps of a round of the third stage end after four at most, and
  -- leave the files, the database and the channels as the round does that runs as one step.
  pub proving-proof_round :
      (g : ProofGenerator) (w : World W)
      → proceed_all W 4 (proving g) now w ≡ (over, (proof_round W g now w).1)
  unfolding proof_round proceed_all proceed cleanup
  proving-proof_round g w = ground arith
