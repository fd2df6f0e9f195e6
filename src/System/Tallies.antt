-- ===== src/System/Tallies.antt =====
-- Where a request is counted in the server of src/main.rs: in the calls, the channels and the tasks.
use tee_prover_server.Prelude.{ℕ, ◌≡◌, ◌+◌, arith, List, [], ◌∷◌, ◌++◌, count_by}
use tee_prover_server.Store.{Uuid}
use tee_prover_server.Database.{Row}
use tee_prover_server.Generators.{WitnessGenerator, ProofGenerator}
use tee_prover_server.Server.Submit.Enqueue.{jobs}
use tee_prover_server.Server.Interleave.Jobs.{count, pending}
use tee_prover_server.Pipeline.{World, Plant}
use tee_prover_server.Pipeline.Tasks.{
  Task, writing, passing_on, computing, marking, handing_on, proving, storing, failing, removing,
  over,
}
use tee_prover_server.Pipeline.Stages.{witness_jobs, proof_jobs}
use tee_prover_server.System.{Site, System}
use tee_prover_server.System.Life.{Tally}
use tee_prover_server.System.Moves.{one}

abbrev pub witness_count : Uuid → List WitnessGenerator → ℕ
witness_count u js = count_by (λ j. j.uuid) u js

abbrev pub proof_count : Uuid → List ProofGenerator → ℕ
proof_count u js = count_by (λ j. j.uuid) u js

-- The request that a task is for; none at its end.
abbrev pub uuid_of : Task → Uuid
uuid_of (writing g) = g.uuid
uuid_of (passing_on g) = g.uuid
uuid_of (computing g) = g.uuid
uuid_of (marking g) = g.uuid
uuid_of (handing_on g) = g.uuid
uuid_of (proving g) = g.uuid
uuid_of (storing g) = g.uuid
uuid_of (failing uuid reason) = uuid
uuid_of (removing uuid) = uuid
uuid_of over = 0

module _ (u : Uuid) where
  abbrev pub early_of : Task → ℕ
  early_of (writing g) = one g.uuid u
  early_of (passing_on g) = one g.uuid u
  early_of (computing g) = one g.uuid u
  early_of (marking g) = one g.uuid u
  early_of _ = 0

  abbrev pub late_of : Task → ℕ
  late_of (handing_on g) = one g.uuid u
  late_of (proving g) = one g.uuid u
  late_of (storing g) = one g.uuid u
  late_of _ = 0

  abbrev pub stopped_of : Task → ℕ
  stopped_of (failing uuid reason) = one uuid u
  stopped_of _ = 0

abbrev pub total : (Task → ℕ) → List Task → ℕ
total f [] = 0
total f (t ∷ ts) = f t + total f ts

pub total-append :
    (f : Task → ℕ) (before after : List Task) (t : Task)
    → total f (before ++ (t ∷ after)) ≡ f t + total f (before ++ after)
total-append f [] after t = omega arith
total-append f (b ∷ before) after t = omega (arith, total-append f before after t)

-- A task and the channels that it may send to.
abbrev pub task_tally : {W : Plant} → Uuid → Task → World W → Tally
task_tally u t w = record {
  early = early_of u t + witness_count u (witness_jobs w);
  late = late_of u t + proof_count u (proof_jobs w);
  stopped = stopped_of u t;
}

module _ {S : Site} where
  abbrev pub table : System S → List Row
  table s = S.env.postgres.rows s.server.db

  abbrev pub tally : Uuid → System S → Tally
  tally u s = record {
    early =
        count u (jobs S.env s.server)
        + pending u s.handlers
        + (witness_count u (S.witnesses.items s.witness_generator_sender)
            + (total (early_of u) s.tasks + early_of u s.proof_task));
    late =
        proof_count u (S.proofs.items s.proof_generator_sender)
        + (total (late_of u) s.tasks + late_of u s.proof_task);
    stopped = total (stopped_of u) s.tasks + stopped_of u s.proof_task;
  }
