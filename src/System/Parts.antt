-- ===== src/System/Parts.antt =====
-- A task of src/main.rs, or the loop of its third stage, as a part of what is counted of a request.
use tee_prover_server.Prelude.{ℕ, ◌≡◌, ◌+◌, arith, ap, List, ◌∷◌, ◌++◌}
use tee_prover_server.Store.{Uuid}
use tee_prover_server.Server.Submit.Enqueue.{jobs}
use tee_prover_server.Server.Interleave.Jobs.{count, pending}
use tee_prover_server.Pipeline.Tasks.{Task, proceed}
use tee_prover_server.System.{Site, plant, System, world, task_ran, proof_ran}
use tee_prover_server.System.Life.{Tally}
use tee_prover_server.System.Moves.{IsSum}
use tee_prover_server.System.Tallies.{
  early_of, late_of, stopped_of, total, total-append, task_tally, tally,
}

module _ {S : Site} (u : Uuid) where
  -- What is left without one of the tasks, and without the loop.
  abbrev pub rest_of : List Task → System S → Tally
  rest_of others s = record {
    early =
        count u (jobs S.env s.server)
        + pending u s.handlers
        + (total (early_of u) others + early_of u s.proof_task);
    late = total (late_of u) others + late_of u s.proof_task;
    stopped = total (stopped_of u) others + stopped_of u s.proof_task;
  }

  abbrev pub rest_of_loop : System S → Tally
  rest_of_loop s = record {
    early = count u (jobs S.env s.server) + pending u s.handlers + total (early_of u) s.tasks;
    late = total (late_of u) s.tasks;
    stopped = total (stopped_of u) s.tasks;
  }

  -- What a task and its channels count after its step.
  abbrev pub stepped : Task → ℕ → System S → Tally
  stepped t now s = let (t', w) = proceed (plant S) t now (world s) in task_tally u t' w

  module _ (t : Task) (before after : List Task) (now : ℕ) (s : System S) where
    pub tally-IsSum :
        s.tasks ≡ before ++ (t ∷ after)
        → IsSum (tally u s) (task_tally u t (world s)) (rest_of (before ++ after) s)
    tally-IsSum split = (
      omega (arith, ap (total (early_of u)) split, total-append (early_of u) before after t),
      omega (arith, ap (total (late_of u)) split, total-append (late_of u) before after t),
      omega (arith, ap (total (stopped_of u)) split, total-append (stopped_of u) before after t),
    )

    pub task_ran-IsSum :
        IsSum
          (tally u (task_ran t before after now s))
          (stepped t now s)
          (rest_of (before ++ after) s)
    task_ran-IsSum =
        let t' = (proceed (plant S) t now (world s)).0 in
        (
          omega (arith, total-append (early_of u) before after t'),
          omega (arith, total-append (late_of u) before after t'),
          omega (arith, total-append (stopped_of u) before after t'),
        )

  module _ (now : ℕ) (s : System S) where
    pub loop-IsSum : IsSum (tally u s) (task_tally u s.proof_task (world s)) (rest_of_loop s)
    loop-IsSum = (omega arith, omega arith, omega arith)

    pub proof_ran-IsSum :
        IsSum (tally u (proof_ran now s)) (stepped s.proof_task now s) (rest_of_loop s)
    proof_ran-IsSum = (omega arith, omega arith, omega arith)
