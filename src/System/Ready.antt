-- ===== src/System/Ready.antt =====
-- What of src/main.rs is ready to go on: a call, a job in a channel, a task, the loop.
use tee_prover_server.Prelude.{
  ℕ, zero, suc, ◌≡◌, refl, ap, ◌≤◌, ◌==◌, arith, List, [], ◌∷◌, ◌++◌, some, Result, ok, err, Fault,
  failed, panicked,
}
use tee_prover_server.Prelude.{Bool-cases, inl, inr, ◌⊎◌, length}
use tee_prover_server.Store.{Uuid}
use tee_prover_server.Database.{update_proof}
use tee_prover_server.Generators.{run_proof}
use tee_prover_server.Server.Env.{Mpsc, IsMpsc}
use tee_prover_server.Server.Interleave.{
  Phase, reading, recording, sending, releasing, done, Handler,
}
use tee_prover_server.Server.Interleave.Jobs.{pending, due, weight}
use tee_prover_server.Pipeline.{Plant, World}
use tee_prover_server.Pipeline.Tasks.{
  Task, writing, passing_on, computing, marking, handing_on, proving, storing, failing, removing,
  over, or_failing, after_proof, proceed,
}
use tee_prover_server.System.{
  Site, plant, world, System, HasRoom, PhaseReady, TurnReady, TaskReady, Step, call, spawn_file,
  spawn_witness, run_task, receive_proof, Reach, here, next,
}
use tee_prover_server.System as Steps
use tee_prover_server.System.Tallies.{total}
use tee_prover_server.System.Effort.{call_work, phase_work, task_work, Live}

due-le : (phase : Phase) → due phase ≤ phase_work phase
due-le (reading nonce cipher_text auth_tag) = omega arith
due-le (recording r) = omega arith
due-le (sending r) = omega arith
due-le (releasing reply) = omega arith
due-le (done reply) = omega arith

weight-le : (u v : Uuid) (phase : Phase) → weight u v phase ≤ phase_work phase
weight-le u v phase = elim (Bool-cases (v == u)) [
  | inl same ↦ rw same (due-le phase)
  | inr other ↦ rw other (omega arith)
]

pub pending-le : (u : Uuid) (hs : List Handler) → pending u hs ≤ call_work hs
pending-le u [] = omega arith
pending-le u (h ∷ hs) = omega (arith, weight-le u h.uuid h.phase, pending-le u hs)

pub zero_or_more : (n : ℕ) → (n ≡ 0) ⊎ (1 ≤ n)
zero_or_more zero = inl refl
zero_or_more (suc n) = inr (omega arith)

-- A call that is not at its end has a number, and needs no more than room to go on.
pub Live-call :
    {S : Site} (s : System S) (hs : List Handler)
    → HasRoom S.env.mpsc s.server.file_generator_sender
    → 1 ≤ call_work hs
    → (n : ℕ) × Live n hs × TurnReady n hs s
Live-call s [] room busy = absurd (omega arith)
Live-call s (h ∷ hs) room busy = elim (zero_or_more (phase_work h.phase)) [
  | inr live ↦ (0, live, phase_ready h.phase)
  | inl idle ↦ let (n, live, ready) = Live-call s hs room (omega arith) in (suc n, live, ready)
]
  where
    phase_ready : (phase : Phase) → PhaseReady phase s
    phase_ready (sending r) = room
    phase_ready (reading nonce cipher_text auth_tag) = tt
    phase_ready (recording r) = tt
    phase_ready (releasing reply) = tt
    phase_ready (done reply) = tt

-- Likewise for a task.
pub task_ready :
    {S : Site} (s : System S)
    → HasRoom S.witnesses s.witness_generator_sender
    → HasRoom S.proofs s.proof_generator_sender
    → (t : Task) → TaskReady t s
task_ready s room room' (passing_on g) = room
task_ready s room room' (handing_on g) = room'
task_ready s room room' (writing g) = tt
task_ready s room room' (computing g) = tt
task_ready s room room' (marking g) = tt
task_ready s room room' (proving g) = tt
task_ready s room room' (storing g) = tt
task_ready s room room' (failing uuid reason) = tt
task_ready s room room' (removing uuid) = tt
task_ready s room room' over = tt

pub busy_task :
    (ts : List Task)
    → 1 ≤ total task_work ts
    → (t : Task) × (before : List Task) × (after : List Task) × (ts ≡ before ++ (t ∷ after))
      × (1 ≤ task_work t)
busy_task [] busy = absurd (omega arith)
busy_task (t ∷ ts) busy = elim (zero_or_more (task_work t)) [
  | inr mine ↦ (t, [], ts, refl, mine)
  | inl idle ↦
      let (t', before, after, split, mine) = busy_task ts (omega arith) in
      (t', t ∷ before, after, ap (◌∷◌ t) split, mine)
]

pub over_of_idle : (t : Task) → task_work t ≡ 0 → t ≡ over
over_of_idle over h = refl
over_of_idle (writing g) h = absurd (omega arith)
over_of_idle (passing_on g) h = absurd (omega arith)
over_of_idle (computing g) h = absurd (omega arith)
over_of_idle (marking g) h = absurd (omega arith)
over_of_idle (handing_on g) h = absurd (omega arith)
over_of_idle (proving g) h = absurd (omega arith)
over_of_idle (storing g) h = absurd (omega arith)
over_of_idle (failing uuid reason) h = absurd (omega arith)
over_of_idle (removing uuid) h = absurd (omega arith)

-- What the loop of the third stage does.
abbrev pub IsLoop : Task → Type 0
IsLoop (proving g) = Unit {0}
IsLoop (storing g) = Unit {0}
IsLoop (failing uuid reason) = Unit {0}
IsLoop (removing uuid) = Unit {0}
IsLoop over = Unit {0}
IsLoop _ = 1 ≤ 0

pub loop_ready : {S : Site} (s : System S) (t : Task) → IsLoop t → TaskReady t s
loop_ready s (proving g) h = tt
loop_ready s (storing g) h = tt
loop_ready s (failing uuid reason) h = tt
loop_ready s (removing uuid) h = tt
loop_ready s over h = tt
loop_ready s (writing g) h = absurd (omega arith)
loop_ready s (passing_on g) h = absurd (omega arith)
loop_ready s (computing g) h = absurd (omega arith)
loop_ready s (marking g) h = absurd (omega arith)
loop_ready s (handing_on g) h = absurd (omega arith)

after_proof-IsLoop : (g : _) (r : Result (Unit {0}) Fault) → IsLoop (after_proof g r)
after_proof-IsLoop g (ok x) = tt
after_proof-IsLoop g (err (failed e)) = tt
after_proof-IsLoop g (err panicked) = tt

or_failing-IsLoop :
    (uuid u : Uuid) (r : Result (Unit {0}) _) → IsLoop (or_failing uuid (removing u) r)
or_failing-IsLoop uuid u (ok x) = tt
or_failing-IsLoop uuid u (err e) = tt

proceed-IsLoop :
    (W : Plant) (t : Task) (now : ℕ) (w : World W) → IsLoop t → IsLoop (proceed W t now w).0
unfolding proceed
proceed-IsLoop W (proving g) now w h =
    after_proof-IsLoop g (run_proof W.os W.uuid_to_string W.rapid_snark_path g w.os).0
proceed-IsLoop W (storing g) now w h =
    or_failing-IsLoop g.uuid g.uuid
      (update_proof W.os W.parse_proof W.parse_inputs (W.uuid_to_string g.uuid) w.os W.postgres
        g.uuid now w.db).0
proceed-IsLoop W (failing uuid reason) now w h = tt
proceed-IsLoop W (removing uuid) now w h = tt
proceed-IsLoop W over now w h = tt
proceed-IsLoop W (writing g) now w h = absurd (omega arith)
proceed-IsLoop W (passing_on g) now w h = absurd (omega arith)
proceed-IsLoop W (computing g) now w h = absurd (omega arith)
proceed-IsLoop W (marking g) now w h = absurd (omega arith)
proceed-IsLoop W (handing_on g) now w h = absurd (omega arith)

pub Step-IsLoop : {S : Site} {s t : System S} → Step s t → IsLoop s.proof_task → IsLoop t.proof_task
Step-IsLoop (call e ready) h = h
Step-IsLoop (spawn_file g got) h = h
Step-IsLoop (spawn_witness g got) h = h
Step-IsLoop (run_task t before after now split ready) h = h
Step-IsLoop (receive_proof g idle got) h = tt
Step-IsLoop {S} {s} (Steps.run_proof now ready) h =
    proceed-IsLoop (plant S) s.proof_task now (world s) h

-- Something that waits can be received.
pub can_receive :
    {A : Type 0} {M : Mpsc A}
    → IsMpsc M
    → (c : M.Channel) → 1 ≤ length (M.items c)
    → (a : A) × ((M.recv c).0 ≡ some a)
can_receive {A} {M} laws c h = go (M.items c) refl
  where
    go : (l : List A) → M.items c ≡ l → (a : A) × ((M.recv c).0 ≡ some a)
    go [] e = absurd (let n : length (M.items c) ≡ 0 = rw e refl in omega arith)
    go (a ∷ rest) e = (a, (laws.recv-cons a rest c e).0)
