-- ===== src/System/Queued.antt =====
-- The circuits of the jobs in the channels and the tasks of src/main.rs.
use mathlib.Core.Path.{subst}
use tee_prover_server.Prelude.{ℕ, ◌≡◌, refl, Text, List, ◌∷◌, ◌++◌, some}
use tee_prover_server.Prelude.{
  err, failed, ◌⊎◌, Option-cases, Result-cases, inl, inr, All, All_middle, All_of_middle, panicked,
}
use tee_prover_server.Prelude.Dict
use tee_prover_server.Prelude.Dict.{has, lookup}
use tee_prover_server.Paths.{join}
use tee_prover_server.Database.{Column}
use tee_prover_server.Generators.{WitnessGenerator, run_witness}
use tee_prover_server.Generators.Laws.{run_witness-returns}
use tee_prover_server.Pipeline.Tasks.{Task, computing, marking, failing, over, proceed}
use tee_prover_server.System.{
  Site, plant, System, world, Step, call, spawn_file, spawn_witness, run_task, receive_proof,
  run_proof, Reach, here, next,
}
use tee_prover_server.System.Refines.{IsLawful, of_plant, recv-items}
use tee_prover_server.System.Circuits.Tasks.{proceed-IsOf, proceed-Queued}
use tee_prover_server.System.Circuits.{
  OfHandler, OfFile, OfWitness, OfTask, OfServer, happen-OfPhase,
}

module _ {S : Site} {schema : List Column} (laws : IsLawful S schema) where
  -- Every job, task and call of the system is for a circuit of the map that `main` built.
  pub record IsKnown (s : System S) : Type 0 where
    pub handlers : All (OfHandler S.circuit_zkey_map) s.handlers
    pub server : OfServer S.circuit_zkey_map S.env laws.server s.server
    pub witness_items :
        All (OfWitness S.circuit_zkey_map) (S.witnesses.items s.witness_generator_sender)
    pub tasks : All (OfTask S.circuit_zkey_map) s.tasks
    pub proof_task : OfTask S.circuit_zkey_map s.proof_task

  pub Step-IsKnown : {s t : System S} → Step s t → IsKnown s → IsKnown t
  Step-IsKnown {s} (call e ready) h =
      let (hs, server) =
        happen-OfPhase S.circuit_zkey_map S.env laws.server e s.handlers s.server h.handlers
          h.server in
      record {
        handlers = hs;
        server = server;
        witness_items = h.witness_items;
        tasks = h.tasks;
        proof_task = h.proof_task;
      }
  Step-IsKnown {s} (spawn_file g got) h =
      let front = recv-items laws.server.mpsc s.server.file_generator_sender g got in
      let (mine, rest) = subst (All (OfFile S.circuit_zkey_map)) front h.server.queued in
      record {
        handlers = h.handlers;
        server = record { map_kept = h.server.map_kept; queued = rest };
        witness_items = h.witness_items;
        tasks = (mine, h.tasks);
        proof_task = h.proof_task;
      }
  Step-IsKnown {s} (spawn_witness g got) h =
      let front = recv-items laws.witnesses s.witness_generator_sender g got in
      let (mine, rest) = subst (All (OfWitness S.circuit_zkey_map)) front h.witness_items in
      record {
        handlers = h.handlers;
        server = h.server;
        witness_items = rest;
        tasks = (mine, h.tasks);
        proof_task = h.proof_task;
      }
  Step-IsKnown {s} (run_task t before after now split ready) h =
      let (mine, rest) =
        All_middle (OfTask S.circuit_zkey_map) before t after
          (subst (All (OfTask S.circuit_zkey_map)) split h.tasks) in
      record {
        handlers = h.handlers;
        server = record { map_kept = h.server.map_kept; queued = h.server.queued };
        witness_items = proceed-Queued (of_plant laws) t now (world s) mine h.witness_items;
        tasks =
            All_of_middle (OfTask S.circuit_zkey_map) before (proceed (plant S) t now (world s)).0
              after (proceed-IsOf (of_plant laws) t now (world s) mine) rest;
        proof_task = h.proof_task;
      }
  Step-IsKnown {s} (receive_proof g idle got) h = record {
    handlers = h.handlers;
    server = h.server;
    witness_items = h.witness_items;
    tasks = h.tasks;
    proof_task = tt;
  }
  Step-IsKnown {s} (run_proof now ready) h = record {
    handlers = h.handlers;
    server = record { map_kept = h.server.map_kept; queued = h.server.queued };
    witness_items =
        proceed-Queued (of_plant laws) s.proof_task now (world s) h.proof_task h.witness_items;
    tasks = h.tasks;
    proof_task = proceed-IsOf (of_plant laws) s.proof_task now (world s) h.proof_task;
  }

  pub Reach-IsKnown : {s t : System S} → Reach s t → IsKnown s → IsKnown t
  Reach-IsKnown here h = h
  Reach-IsKnown (next r step) h = Step-IsKnown step (Reach-IsKnown r h)

  -- How the run of the second stage ends for a task, whose circuit has a key in the map.
  abbrev pub LookedUp : WitnessGenerator → ℕ → System S → Type 0
  LookedUp g now t =
      let task = (proceed (plant S) (computing g) now (world t)).0 in
      (zkey : Text) × (lookup g.circuit_file_name S.circuit_zkey_map ≡ some zkey)
      × ((task ≡ marking (record { uuid = g.uuid; zkey_file_path = join S.zkey_folder zkey }))
          ⊎ (((why : Text) × (task ≡ failing g.uuid why))
              ⊎ ((task ≡ over)
                  × ((run_witness S.os S.env.uuid_to_string S.circuit_folder g t.os).0
                      ≡ err panicked))))

  computing-LookedUp :
      (g : WitnessGenerator) (now : ℕ) (t : System S)
      → OfWitness S.circuit_zkey_map g
      → LookedUp g now t
  unfolding proceed
  computing-LookedUp g now t mine =
      elim (Option-cases (lookup g.circuit_file_name S.circuit_zkey_map)) [
        | inl lacking ↦
            let absent = Dict.has_of_none g.circuit_file_name S.circuit_zkey_map lacking in
            absurd (cc)
        | inr (zkey, found) ↦ (
          zkey,
          found,
          elim (Result-cases (run_witness S.os S.env.uuid_to_string S.circuit_folder g t.os).0) [
            | inr (panicked, e) ↦ rw e (inr (inr (refl, refl)))
            | inr (failed why, e) ↦ rw e (inr (inl (why, refl)))
            | inl (out, e) ↦
                rw (e, run_witness-returns S.os S.env.uuid_to_string S.circuit_folder g t.os out e)
                  (inl (rw found refl))
          ],
        )
      ]

  -- Whatever has happened since a state in which every job, task and call is for a circuit of the
  -- map: a task of the second stage finds the key of its circuit, so the lookup `get(..).unwrap()`
  -- does not panic. The task goes on to mark the witness with that key, or its run fails and it
  -- cleans up, or it panics in the run of the witness generator.
  pub Reach-lookup :
      {s t : System S}
      → Reach s t
      → IsKnown s
      → (g : WitnessGenerator) (before after : List Task)
      → t.tasks ≡ before ++ (computing g ∷ after)
      → (now : ℕ) → LookedUp g now t
  Reach-lookup {t = t} r h g before after split now =
      let known = (Reach-IsKnown r h).tasks in
      let (mine, _) =
        All_middle (OfTask S.circuit_zkey_map) before (computing g) after
          (subst (All (OfTask S.circuit_zkey_map)) split known) in
      computing-LookedUp g now t mine
