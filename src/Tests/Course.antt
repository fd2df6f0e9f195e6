-- ===== src/Tests/Course.antt =====
-- The steps of the server of src/main.rs from its start to a first proof, in order.
use tee_prover_server.Prelude.{◌≡◌, refl, arith, codes, [], ◌∷◌, inr}
use tee_prover_server.Server.Interleave.{greet, begin, turn}
use tee_prover_server.Pipeline.Tasks.{writing, passing_on, computing, marking, handing_on}
use tee_prover_server.System.{Step, Reach, here, next}
use tee_prover_server.System.Drains.{Runs, stay, onward, Works}
use tee_prover_server.System.Work.{work, Step-work}
use tee_prover_server.System.Life.{waiting}
use tee_prover_server.System.Refines.{Represents}
use tee_prover_server.Launch.Service
use tee_prover_server.Tests.Crates.{repeat}
use tee_prover_server.Tests.Site.{nonce, tag}
use tee_prover_server.Tests.Host.{
  program, host_laws_on, launched, id, job, witness_job, proof_job, others, Server, begun, greeted,
  asked, read_it, recorded, queued, answered, spawned, written, passed_on, spawned_again, computed,
  marked, handed_on, received, proved, stored, finished_it,
}

pub greeting : Step begun greeted
greeting = Step.call (greet 5 (7 ∷ repeat 32 0) id) tt

pub asking : Step greeted asked
asking = Step.call (begin id nonce (codes "{}") tag 100) tt

pub reading_it : Step asked read_it
unfolding program
reading_it = Step.call (turn 0) tt

pub recording_it : Step read_it recorded
unfolding program
recording_it = Step.call (turn 0) tt

pub queueing : Step recorded queued
unfolding program
queueing = Step.call (turn 0) (inr (omega arith))

pub answering : Step queued answered
unfolding program
answering = Step.call (turn 0) tt

pub queued_job : Step answered spawned
unfolding program
queued_job = Step.spawn_file job refl

pub written_job : Step spawned written
written_job = Step.run_task (writing job) [] [] 101 refl tt

pub passed_job : Step written passed_on
unfolding program
passed_job = Step.run_task (passing_on witness_job) [] [] 101 refl (inr (omega arith))

pub queued_witness : Step passed_on spawned_again
unfolding program
queued_witness = Step.spawn_witness witness_job refl

pub computed_witness : Step spawned_again computed
unfolding program
computed_witness = Step.run_task (computing witness_job) [] others 101 refl tt

pub marked_witness : Step computed marked
unfolding program
marked_witness = Step.run_task (marking proof_job) [] others 101 refl tt

pub handed_job : Step marked handed_on
unfolding program
handed_job = Step.run_task (handing_on proof_job) [] others 101 refl (inr (omega arith))

pub received_job : Step handed_on received
unfolding program
received_job = Step.receive_proof proof_job refl refl

pub proved_job : Step received proved
unfolding program
proved_job = Step.run_proof 102 tt

pub stored_job : Step proved stored
unfolding program
stored_job = Step.run_proof 102 tt

pub removed_folder : Step stored finished_it
unfolding program
removed_folder = Step.run_proof 102 tt

pub to_recorded : Reach begun recorded
to_recorded = next (next (next (next here greeting) asking) reading_it) recording_it

pub to_passed_on : {s : Server} → Reach s recorded → Reach s passed_on
to_passed_on r =
    next (next (next (next (next r queueing) answering) queued_job) written_job) passed_job

pub to_spawned_again : {s : Server} → Reach s recorded → Reach s spawned_again
to_spawned_again r = next (to_passed_on r) queued_witness

pub to_handed_on : {s : Server} → Reach s recorded → Reach s handed_on
to_handed_on r = next (next (next (to_spawned_again r) computed_witness) marked_witness) handed_job

pub to_finished : {s : Server} → Reach s recorded → Reach s finished_it
to_finished r =
    next (next (next (next (to_handed_on r) received_job) proved_job) stored_job) removed_folder

-- The same from the recorded request on, without another call.
to_answered : Runs recorded 2 answered
unfolding program queueing answering
to_answered = onward (onward stay queueing (omega arith)) answering (omega arith)

to_second_stage : Runs recorded 6 spawned_again
unfolding program queued_job written_job passed_job queued_witness
to_second_stage =
    onward
      (onward (onward (onward to_answered queued_job tt) written_job (omega arith)) passed_job
        (omega arith))
      queued_witness tt

to_third_stage : Runs recorded 10 received
unfolding program computed_witness marked_witness handed_job received_job
to_third_stage =
    onward
      (onward
        (onward (onward to_second_stage computed_witness (omega arith)) marked_witness
          (omega arith))
        handed_job (omega arith))
      received_job tt

pub drained : Runs recorded 13 finished_it
unfolding program proved_job stored_job removed_folder
drained =
    onward (onward (onward to_third_stage proved_job (omega arith)) stored_job (omega arith))
      removed_folder (omega arith)

pub recorded_waiting : Represents id waiting recorded
unfolding program
recorded_waiting = (refl, refl, refl, (_, refl, refl))

no_work : work finished_it ≡ 0
unfolding program
no_work = refl

pub finished_stuck : ¬ Works finished_it
finished_stuck (t, step, on) = absurd (
    let less = Step-work (Service.site_laws (host_laws_on []) launched) step on in
    omega (arith, no_work))
