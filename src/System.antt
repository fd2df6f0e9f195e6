-- ===== src/System.antt =====
-- The whole server of src/main.rs at work: the calls of src/server.rs that are under way, the three
-- channels, the tasks that the first two stages have spawned, and the loop of the third.
pub mod Life
pub mod Mishaps
pub mod Moves
pub mod Tallies
pub mod Parts
pub mod Calls
pub mod Rows
pub mod Tasks
pub mod Refines
pub mod Lives
pub mod Isolation
pub mod Notices
pub mod Circuits
pub mod Queued
pub mod Effort
pub mod Work
pub mod Ready
pub mod Drains
pub mod Decided
use tee_prover_server.Prelude.{
  ℕ, zero, suc, ◌≡◌, ◌≤◌, ◌⊎◌, true, length, Text, List, [], ◌∷◌, ◌++◌, Option, some, Result,
}
use tee_prover_server.Os.{Os}
use tee_prover_server.Database.{Proof}
use tee_prover_server.Generators.{FileGenerator, WitnessGenerator, ProofGenerator}
use tee_prover_server.Server.Env.{Env, RpcServerImpl, Mpsc}
use tee_prover_server.Server.Interleave.{Phase, sending, Handler, Event, greet, begin, turn, happen}
use tee_prover_server.Pipeline.{Plant, World}
use tee_prover_server.Pipeline.Tasks.{
  Task, writing, passing_on, computing, handing_on, proving, over, proceed,
}

-- What the server calls outside of the repository, the arguments of the program, and the map that
-- `main` has built.
pub record Site : Type 1 where
  pub env : Env
  pub os : Os
  pub witnesses : Mpsc WitnessGenerator
  pub proofs : Mpsc ProofGenerator
  pub parse_proof : Text → Result Proof Text
  pub parse_inputs : Text → Result (List Text) Text
  pub circuit_folder : Text
  pub zkey_folder : Text
  pub rapid_snark_path : Text
  pub circuit_zkey_map : List (Text × Text)

-- The part of it that the stages use.
abbrev pub plant : Site → Plant
plant S = record {
  os = S.os;
  postgres = S.env.postgres;
  witnesses = S.witnesses;
  proofs = S.proofs;
  uuid_to_string = S.env.uuid_to_string;
  parse_proof = S.parse_proof;
  parse_inputs = S.parse_inputs;
  circuit_folder = S.circuit_folder;
  zkey_folder = S.zkey_folder;
  rapid_snark_path = S.rapid_snark_path;
  circuit_zkey_map = S.circuit_zkey_map;
}

pub record System (S : Site) : Type 0 where
  pub handlers : List Handler
  pub server : RpcServerImpl S.env
  pub os : S.os.State
  pub witness_generator_sender : S.witnesses.Channel
  pub proof_generator_sender : S.proofs.Channel
  -- The tasks that were spawned, and what the loop of the third stage does: `over` while it waits.
  pub tasks : List Task
  pub proof_task : Task

-- A send waits until the channel has room, or fails at once where the receiver is gone.
abbrev pub HasRoom : {A : Type 0} (M : Mpsc A) → M.Channel → Type 0
HasRoom M c = (M.closed c ≡ true) ⊎ (suc (length (M.items c)) ≤ M.cap c)

module _ {S : Site} where
  abbrev pub world : System S → World (plant S)
  world s = record {
    os = s.os;
    db = s.server.db;
    witness_generator_sender = s.witness_generator_sender;
    proof_generator_sender = s.proof_generator_sender;
  }

  abbrev pub with_world : System S → World (plant S) → System S
  with_world s w = record s {
    os = w.os;
    server = record s.server { db = w.db };
    witness_generator_sender = w.witness_generator_sender;
    proof_generator_sender = w.proof_generator_sender;
  }

  -- A call begins or goes on.
  abbrev pub called : Event S.env → System S → System S
  called e s =
      let (handlers, server) = happen S.env e (s.handlers, s.server) in
      record s { handlers = handlers; server = server }

  -- The first stage receives a job, and spawns its task.
  abbrev pub file_spawned : FileGenerator → System S → System S
  file_spawned g s = record s {
    server = record s.server {
      file_generator_sender = (S.env.mpsc.recv s.server.file_generator_sender).1;
    };
    tasks = writing g ∷ s.tasks;
  }

  -- The same for the second stage.
  abbrev pub witness_spawned : WitnessGenerator → System S → System S
  witness_spawned g s = record s {
    witness_generator_sender = (S.witnesses.recv s.witness_generator_sender).1;
    tasks = computing g ∷ s.tasks;
  }

  -- A spawned task goes on; `before` and `after` are the others.
  abbrev pub task_ran : Task → List Task → List Task → ℕ → System S → System S
  task_ran t before after now s =
      let (t', w) = proceed (plant S) t now (world s) in
      with_world (record s { tasks = before ++ (t' ∷ after) }) w

  -- The loop of the third stage receives a job, and goes on with it before it receives another.
  abbrev pub proof_received : ProofGenerator → System S → System S
  proof_received g s = record s {
    proof_generator_sender = (S.proofs.recv s.proof_generator_sender).1;
    proof_task = proving g;
  }

  abbrev pub proof_ran : ℕ → System S → System S
  proof_ran now s =
      let (t', w) = proceed (plant S) s.proof_task now (world s) in
      with_world (record s { proof_task = t' }) w

  -- What has to wait for room in a channel: a call or a task that is about to send.
  abbrev pub PhaseReady : Phase → System S → Type 0
  PhaseReady (sending r) s = HasRoom S.env.mpsc s.server.file_generator_sender
  PhaseReady _ s = Unit {0}

  abbrev pub TurnReady : ℕ → List Handler → System S → Type 0
  TurnReady n [] s = Unit {0}
  TurnReady zero (h ∷ hs) s = PhaseReady h.phase s
  TurnReady (suc n) (h ∷ hs) s = TurnReady n hs s

  abbrev pub EventReady : Event S.env → System S → Type 0
  EventReady (greet key pubkey uuid) s = Unit {0}
  EventReady (begin uuid nonce cipher_text auth_tag now) s = Unit {0}
  EventReady (turn n) s = TurnReady n s.handlers s

  abbrev pub TaskReady : Task → System S → Type 0
  TaskReady (passing_on g) s = HasRoom S.witnesses s.witness_generator_sender
  TaskReady (handing_on g) s = HasRoom S.proofs s.proof_generator_sender
  TaskReady _ s = Unit {0}

  -- What may happen next. The end of the server, `handle.stopped()`, ends the program: it is no step.
  pub data Step (s : System S) : System S → Type 0 where
    call : (e : Event S.env) → EventReady e s → Step s (called e s)
    spawn_file :
        (g : FileGenerator)
        → (S.env.mpsc.recv s.server.file_generator_sender).0 ≡ some g
        → Step s (file_spawned g s)
    spawn_witness :
        (g : WitnessGenerator)
        → (S.witnesses.recv s.witness_generator_sender).0 ≡ some g
        → Step s (witness_spawned g s)
    run_task :
        (t : Task) (before after : List Task) (now : ℕ)
        → s.tasks ≡ before ++ (t ∷ after)
        → TaskReady t s
        → Step s (task_ran t before after now s)
    receive_proof :
        (g : ProofGenerator)
        → s.proof_task ≡ over
        → (S.proofs.recv s.proof_generator_sender).0 ≡ some g
        → Step s (proof_received g s)
    run_proof : (now : ℕ) → TaskReady s.proof_task s → Step s (proof_ran now s)

  pub data Reach (s : System S) : System S → Type 0 where
    here : Reach s s
    next : {t u : System S} → Reach s t → Step t u → Reach s u
