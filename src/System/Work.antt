-- ===== src/System/Work.antt =====
-- The work that is left in the server of src/main.rs: what every step that is not a new call takes
-- away from it.
use tee_prover_server.Prelude.{ℕ, suc, ◌+◌, ◌*◌, ◌≤◌, arith, ap, List}
use tee_prover_server.Prelude.{length}
use tee_prover_server.Database.{Column}
use tee_prover_server.Server.Submit.Enqueue.{jobs}
use tee_prover_server.Server.Interleave.{greet, begin, turn, happen}
use tee_prover_server.Pipeline.Tasks.{proceed}
use tee_prover_server.System.{
  Site, plant, System, world, Step, call, spawn_file, spawn_witness, run_task, receive_proof,
  run_proof,
}
use tee_prover_server.System.Refines.{IsLawful, of_plant, recv-items}
use tee_prover_server.System.Effort.{call_work, Live, task_work, resume_work, proceed_work}
use tee_prover_server.System.Tallies.{total, total-append}

module _ {S : Site} where
  -- The steps that are left, if no further call comes.
  abbrev pub work : System S → ℕ
  work s =
      call_work s.handlers
      + 16 * length (jobs S.env s.server)
      + (11 * length (S.witnesses.items s.witness_generator_sender)
          + (5 * length (S.proofs.items s.proof_generator_sender)
              + (total task_work s.tasks + task_work s.proof_task)))

  -- A step that is not a new call: a call under way goes on, or a stage does.
  abbrev pub IsWork : {s t : System S} → Step s t → Type 0
  IsWork {s} (call (turn n) ready) = Live n s.handlers
  IsWork (call (greet key pubkey uuid) ready) = 1 ≤ 0
  IsWork (call (begin uuid nonce cipher_text auth_tag now) ready) = 1 ≤ 0
  IsWork (run_task t before after now split ready) = 1 ≤ task_work t
  IsWork {s} (run_proof now ready) = 1 ≤ task_work s.proof_task
  IsWork _ = Unit {0}

  module _ {schema : List Column} (laws : IsLawful S schema) where
    -- Each such step takes from the work that is left.
    pub Step-work : {s t : System S} (step : Step s t) → IsWork step → suc (work t) ≤ work s
    unfolding happen
    Step-work {s} (call (greet key pubkey uuid) ready) h = absurd (omega arith)
    Step-work {s} (call (begin uuid nonce cipher_text auth_tag now) ready) h = absurd (omega arith)
    Step-work {s} (call (turn n) ready) h =
        omega (arith, resume_work S.env laws.server n s.handlers s.server h)
    Step-work {s} (spawn_file g got) h =
        omega (arith, ap length (recv-items laws.server.mpsc s.server.file_generator_sender g got))
    Step-work {s} (spawn_witness g got) h =
        omega (arith, ap length (recv-items laws.witnesses s.witness_generator_sender g got))
    Step-work {s} (run_task t before after now split ready) h =
        let (t', w) = proceed (plant S) t now (world s) in
        omega (
          arith,
          ap (total task_work) split,
          total-append task_work before after t,
          total-append task_work before after t',
          proceed_work (of_plant laws) t now (world s) h,
        )
    Step-work {s} (receive_proof g idle got) h = omega (
      arith,
      ap task_work idle,
      ap length (recv-items laws.proofs s.proof_generator_sender g got),
    )
    Step-work {s} (run_proof now ready) h =
        omega (arith, proceed_work (of_plant laws) s.proof_task now (world s) h)
