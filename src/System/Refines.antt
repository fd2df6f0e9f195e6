-- ===== src/System/Refines.antt =====
-- The server of src/main.rs as a whole, against the life of a request.
use tee_prover_server.Prelude.{◌≡◌, refl, ◌+◌, ◌≤◌, arith, ap, List, [], ◌∷◌, ◌++◌, some, inl, inr}
use tee_prover_server.Store.{Uuid}
use tee_prover_server.Database.{Column}
use tee_prover_server.Database.Rows.{find_row}
use tee_prover_server.Server.Env.{Mpsc, IsMpsc}
use tee_prover_server.Server.Submit.Enqueue
use tee_prover_server.Server.Interleave.Jobs.{count, pending}
use tee_prover_server.Pipeline.Stages
use tee_prover_server.System.{
  Site, plant, System, world, Step, call, spawn_file, spawn_witness, run_task, receive_proof,
  run_proof, Reach, here, next,
}
use tee_prover_server.System.Life.{Life, Turns, same, later, At, Next}
use tee_prover_server.System.Moves.{Moves, flows, stays, Moves-more}
use tee_prover_server.System.Moves.Turned.{Moves-Next}
use tee_prover_server.System.Tallies.{
  witness_count, proof_count, uuid_of, early_of, late_of, stopped_of, total, task_tally, table,
  tally,
}
use tee_prover_server.System.Parts.{
  rest_of, rest_of_loop, stepped, tally-IsSum, task_ran-IsSum, loop-IsSum, proof_ran-IsSum,
}
use tee_prover_server.System.Mishaps.{Lost, Mishap}
use tee_prover_server.System.Calls.{call_tally, event_uuid, happen-Moves}
use tee_prover_server.System.Tasks.{proceed-Moves}

-- What the parts outside of the repository do.
pub record IsLawful (S : Site) (schema : List Column) : Type 0 where
  pub server : Enqueue.IsLawful S.env schema
  pub witnesses : IsMpsc S.witnesses
  pub proofs : IsMpsc S.proofs

abbrev pub of_plant :
    {S : Site} {schema : List Column} → IsLawful S schema → Stages.IsLawful (plant S) schema
of_plant laws = record {
  postgres = laws.server.postgres;
  witnesses = laws.witnesses;
  proofs = laws.proofs;
}

-- What was received was in front of the channel.
pub recv-items :
    {A : Type 0} {M : Mpsc A}
    → IsMpsc M
    → (c : M.Channel) (a : A) → (M.recv c).0 ≡ some a
    → M.items c ≡ a ∷ M.items (M.recv c).1
recv-items {A} {M} laws c a got = go (M.items c) refl
  where
    go : (l : List A) → M.items c ≡ l → M.items c ≡ a ∷ M.items (M.recv c).1
    go [] e = let nothing = laws.recv-nil c e in absurd (cc)
    go (x ∷ rest) e = let (first, left) = laws.recv-cons x rest c e in cc

module _ {S : Site} where
  -- Where a request is in its life: as its row says, and in at most one place of the server.
  abbrev pub Represents : Uuid → Life → System S → Type 0
  Represents u m s = At m (tally u s) (find_row u (table s))

  abbrev pub RepresentsNext : Type 0 → Uuid → Life → System S → Type 0
  RepresentsNext X u m s = Next X m (tally u s) (find_row u (table s))

  -- The request that a step is for.
  abbrev pub mover : {s t : System S} → Step s t → Uuid
  mover {s} (call e ready) = event_uuid e s.handlers
  mover (spawn_file g got) = g.uuid
  mover (spawn_witness g got) = g.uuid
  mover (run_task task before after now split ready) = uuid_of task
  mover (receive_proof g idle got) = g.uuid
  mover {s} (run_proof now ready) = uuid_of s.proof_task

  -- What can make a step drop its request, or leave it unmarked.
  abbrev pub Cause : {s t : System S} → Step s t → Type 0
  Cause (call e ready) = Lost S.env
  Cause (run_task task before after now split ready) = Mishap (plant S) task
  Cause {s} (run_proof now ready) = Mishap (plant S) s.proof_task
  Cause _ = 1 ≤ 0

  module _ {schema : List Column} (laws : IsLawful S schema) (u : Uuid) where
    -- Every step of the server moves one request at most.
    pub Step-Moves :
        {s t : System S} (step : Step s t)
        → Moves (Cause step) u (mover step) (tally u s) (tally u t) (table s) (table t)
    Step-Moves {s} {t} (call e ready) =
        Moves-more u (event_uuid e s.handlers) (call_tally S.env u (pending u s.handlers) s.server)
          (call_tally S.env u (pending u t.handlers) t.server) (tally u s) (tally u t)
          (record {
            early =
                witness_count u (S.witnesses.items s.witness_generator_sender)
                + (total (early_of u) s.tasks + early_of u s.proof_task);
            late =
                proof_count u (S.proofs.items s.proof_generator_sender)
                + (total (late_of u) s.tasks + late_of u s.proof_task);
            stopped = total (stopped_of u) s.tasks + stopped_of u s.proof_task;
          })
          (table s) (table t) (omega arith, omega arith, omega arith)
          (omega arith, omega arith, omega arith)
          (happen-Moves S.env laws.server u e s.handlers s.server)
    Step-Moves {s} (spawn_file g got) =
        let front = recv-items laws.server.mpsc s.server.file_generator_sender g got in
        flows (stays (omega (arith, ap (count u) front)) (omega arith) (omega arith) refl)
    Step-Moves {s} (spawn_witness g got) =
        let front = recv-items laws.witnesses s.witness_generator_sender g got in
        flows (stays (omega (arith, ap (witness_count u) front)) (omega arith) (omega arith) refl)
    Step-Moves {s} {t} (run_task task before after now split ready) =
        Moves-more u (uuid_of task) (task_tally u task (world s)) (stepped u task now s) (tally u s)
          (tally u t) (rest_of u (before ++ after) s) (table s) (table t)
          (tally-IsSum u task before after now s split) (task_ran-IsSum u task before after now s)
          (proceed-Moves (of_plant laws) u task now (world s))
    Step-Moves {s} (receive_proof g idle got) =
        let front = recv-items laws.proofs s.proof_generator_sender g got in
        flows (
          stays (omega (arith, ap (early_of u) idle))
            (omega (arith, ap (late_of u) idle, ap (proof_count u) front))
            (omega (arith, ap (stopped_of u) idle)) refl)
    Step-Moves {s} {t} (run_proof now ready) =
        Moves-more u (uuid_of s.proof_task) (task_tally u s.proof_task (world s))
          (stepped u s.proof_task now s) (tally u s) (tally u t) (rest_of_loop u s) (table s)
          (table t) (loop-IsSum u now s) (proof_ran-IsSum u now s)
          (proceed-Moves (of_plant laws) u s.proof_task now (world s))

    pub Step-Represents :
        (m : Life) {s t : System S} (step : Step s t)
        → Represents u m s
        → RepresentsNext (Cause step) u m t
    Step-Represents m {s} {t} step h =
        Moves-Next m u (mover step) (tally u s) (tally u t) (table s) (table t) (Step-Moves step) h

    -- The server refines the life of a request: whatever happens, in whatever order, the request is
    -- where its life is after some of its turns; so its row and its place in the server agree.
    pub Reach-Represents :
        (m : Life) {s t : System S}
        → Reach s t
        → Represents u m s
        → (n : Life) × Turns m n × Represents u n t
    Reach-Represents m here h = (m, same, h)
    Reach-Represents m (next r step) h =
        let (n, turns, at_n) = Reach-Represents m r h in
        let (n', turned, at_n') = Step-Represents n step at_n in
        (n', elim turned [ inl e ↦ rw e turns | inr (t, _) ↦ later turns t ], at_n')
