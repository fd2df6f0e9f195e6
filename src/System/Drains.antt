-- ===== src/System/Drains.antt =====
-- The server of src/main.rs once no further call comes: what can go on, and where it stops.
use mathlib.Core.Path.{subst}
use tee_prover_server.Prelude.{
  ℕ, zero, suc, ◌≡◌, refl, ◌+◌, ◌≤◌, arith, List, [], ◌∷◌, Option, inl, inr, ◌⊎◌, length,
  count_by-le-length,
}
use tee_prover_server.Store.{Uuid}
use tee_prover_server.Database.{Column, Row, Status}
use tee_prover_server.Database.Rows.{find_row}
use tee_prover_server.Server.Submit.Enqueue
use tee_prover_server.Server.Interleave.{turn}
use tee_prover_server.Pipeline.Tasks.{
  Task, writing, passing_on, computing, marking, handing_on, storing, failing, removing, over,
}
use tee_prover_server.System.{
  Site, System, HasRoom, Step, call, spawn_file, spawn_witness, run_task, receive_proof, run_proof,
  Reach, here, next,
}
use tee_prover_server.System.Life.{Life, absent, waiting, stopping, ended, Tally, At}
use tee_prover_server.System.Refines.{IsLawful, Represents, Reach-Represents}
use tee_prover_server.System.Lives.{places}
use tee_prover_server.System.Tallies.{early_of, late_of, stopped_of, total, table, tally}
use tee_prover_server.System.Effort.{call_work, task_work}
use tee_prover_server.System.Work.{work, IsWork, Step-work}
use tee_prover_server.System.Ready.{
  pending-le, zero_or_more, Live-call, task_ready, busy_task, over_of_idle, IsLoop, loop_ready,
  Step-IsLoop, can_receive,
}

-- A life of which nothing is in the server.
At-settled :
    (m : Life) (c : Tally) (r : Option Row)
    → places c ≡ 0
    → At m c r
    → (m ≡ absent) ⊎ ((st : Status) × (m ≡ ended st))
At-settled absent c r empty h = inl refl
At-settled waiting c r empty (p, q, k, _) = absurd (omega arith)
At-settled Life.proving c r empty (p, q, k, _) = absurd (omega arith)
At-settled (stopping st) c r empty (p, q, k, _) = absurd (omega arith)
At-settled (ended st) c r empty h = inr (st, refl)

-- A task is for one request at most, and for none at its end.
task_places : (u : Uuid) (t : Task) → early_of u t + (late_of u t + stopped_of u t) ≤ task_work t
task_places u (writing g) = ground arith
task_places u (passing_on g) = ground arith
task_places u (computing g) = ground arith
task_places u (marking g) = ground arith
task_places u (handing_on g) = ground arith
task_places u (Task.proving g) = ground arith
task_places u (storing g) = ground arith
task_places u (failing uuid reason) = ground arith
task_places u (removing uuid) = omega arith
task_places u over = omega arith

total_places :
    (u : Uuid) (ts : List Task)
    → total (early_of u) ts + (total (late_of u) ts + total (stopped_of u) ts) ≤ total task_work ts
total_places u [] = omega arith
total_places u (t ∷ ts) = omega (arith, task_places u t, total_places u ts)

module _ {S : Site} where
  -- What can go on without a new call.
  abbrev pub Works : System S → Type 0
  Works s = (t : System S) × (step : Step s t) × IsWork step

  -- A number of steps that are not new calls.
  pub data Runs (s : System S) : ℕ → System S → Type 0 where
    stay : Runs s 0 s
    onward :
        {n : ℕ} {t u : System S} → Runs s n t → (step : Step t u) → IsWork step → Runs s (suc n) u

  onward_first :
      {s t : System S} (step : Step s t)
      → IsWork step
      → (n : ℕ) {u : System S} → Runs t n u
      → Runs s (suc n) u
  onward_first step on _ stay = onward stay step on
  onward_first step on _ (onward {n = n} r step' on') = onward (onward_first step on n r) step' on'

  pub Runs-Reach : (s t : System S) (n : ℕ) → Runs s n t → Reach s t
  Runs-Reach s _ _ stay = here
  Runs-Reach s u _ (onward {n} {t} r step _) = next (Runs-Reach s t n r) step

  pub Reach-IsLoop : {s t : System S} → Reach s t → IsLoop s.proof_task → IsLoop t.proof_task
  Reach-IsLoop here h = h
  Reach-IsLoop (next r step) h = Step-IsLoop step (Reach-IsLoop r h)

  module _ {schema : List Column} (laws : IsLawful S schema) (now : ℕ) where
    -- With empty channels, whatever is under way goes on.
    spread-Works :
        (s : System S)
        → length (Enqueue.jobs S.env s.server) ≡ 0
        → length (S.witnesses.items s.witness_generator_sender) ≡ 0
        → length (S.proofs.items s.proof_generator_sender) ≡ 0
        → 1 ≤ call_work s.handlers + total task_work s.tasks
        → Works s
    spread-Works s no_files no_witnesses no_proofs busy =
        let room : HasRoom S.env.mpsc s.server.file_generator_sender =
          inr (omega (arith, laws.server.mpsc.cap-pos s.server.file_generator_sender)) in
        let room' : HasRoom S.witnesses s.witness_generator_sender =
          inr (omega (arith, laws.witnesses.cap-pos s.witness_generator_sender)) in
        let room'' : HasRoom S.proofs s.proof_generator_sender =
          inr (omega (arith, laws.proofs.cap-pos s.proof_generator_sender)) in
        elim (zero_or_more (call_work s.handlers)) [
          | inr calls ↦
              let (n, live, ready) = Live-call s s.handlers room calls in
              (_, call (turn n) ready, live)
          | inl e ↦
              let (t, before, after, split, mine) = busy_task s.tasks (omega arith) in
              (_, run_task t before after now split (task_ready s room' room'' t), mine)
        ]

    -- With nothing in the first two channels, the loop goes on, or receives.
    stages-Works :
        (s : System S)
        → IsLoop s.proof_task
        → length (Enqueue.jobs S.env s.server) ≡ 0
        → length (S.witnesses.items s.witness_generator_sender) ≡ 0
        → 1 ≤ work s
        → Works s
    stages-Works s loop no_files no_witnesses busy = elim (zero_or_more (task_work s.proof_task)) [
      | inr mine ↦ (_, run_proof now (loop_ready s s.proof_task loop), mine)
      | inl idle ↦ elim (zero_or_more (length (S.proofs.items s.proof_generator_sender))) [
        | inr items ↦
            let (g, got) = can_receive laws.proofs s.proof_generator_sender items in
            (_, receive_proof g (over_of_idle s.proof_task idle) got, tt)
        | inl no_proofs ↦ spread-Works s no_files no_witnesses no_proofs (omega arith)
      ]
    ]

    -- As long as work is left, something can go on without a new call: each channel holds only so
    -- many jobs, and a send waits for room, but the server is never stuck.
    pub work-Works : (s : System S) → IsLoop s.proof_task → 1 ≤ work s → Works s
    work-Works s loop busy = elim (zero_or_more (length (Enqueue.jobs S.env s.server))) [
      | inr items ↦
          let (g, got) = can_receive laws.server.mpsc s.server.file_generator_sender items in
          (_, spawn_file g got, tt)
      | inl no_files ↦ elim (zero_or_more (length (S.witnesses.items s.witness_generator_sender))) [
        | inr items ↦
            let (g, got) = can_receive laws.witnesses s.witness_generator_sender items in
            (_, spawn_witness g got, tt)
        | inl no_witnesses ↦ stages-Works s loop no_files no_witnesses busy
      ]
    ]

  module _ {schema : List Column} (laws : IsLawful S schema) where
    -- Steps that are not new calls take away from the work that is left, each at least one: there
    -- are at most as many of them as work was left.
    pub Runs-work : (s t : System S) (n : ℕ) → Runs s n t → n + work t ≤ work s
    Runs-work s _ _ stay = omega arith
    Runs-work s u _ (onward {n} {t} r step h) =
        omega (arith, Runs-work s t n r, Step-work laws step h)

    pub places-work : (u : Uuid) (s : System S) → work s ≡ 0 → places (tally u s) ≡ 0
    places-work u s idle = omega (
      arith,
      pending-le u s.handlers,
      count_by-le-length (λ j. j.uuid) u (Enqueue.jobs S.env s.server),
      count_by-le-length (λ j. j.uuid) u (S.witnesses.items s.witness_generator_sender),
      count_by-le-length (λ j. j.uuid) u (S.proofs.items s.proof_generator_sender),
      total_places u s.tasks,
      task_places u s.proof_task,
    )

    pub stuck-work : (t : System S) → IsLoop t.proof_task → ¬ Works t → work t ≡ 0
    stuck-work t loop stuck = elim (zero_or_more (work t)) [
      | inl idle ↦ idle
      | inr busy ↦ absurd (stuck (work-Works laws 0 t loop busy))
    ]

    Represents-settled :
        (u : Uuid) (m : Life) (t : System S)
        → work t ≡ 0
        → Represents u m t
        → Represents u absent t ⊎ ((st : Status) × Represents u (ended st) t)
    Represents-settled u m t idle h =
        elim (At-settled m (tally u t) (find_row u (table t)) (places-work u t idle) h) [
          | inl e ↦ inl (subst (λ l. Represents u l t) e h)
          | inr (st, e) ↦ inr (st, subst (λ l. Represents u l t) e h)
        ]

    -- Take a request that is, in some state, where its life says, and let the loop of the third
    -- stage wait or be at one of its own steps there. However the server goes on from
    -- there without a new call, it stops after at most as many steps as work was left; and where
    -- it stops, because nothing can go on, the request is settled: it has no row and is nowhere
    -- in the server, or it has one and is nowhere in the server any more.
    pub Runs-settled :
        (u : Uuid) (m : Life) (s t : System S) (n : ℕ)
        → IsLoop s.proof_task
        → Represents u m s
        → Runs s n t
        → ¬ Works t
        → (n ≤ work s) × (Represents u absent t ⊎ ((st : Status) × Represents u (ended st) t))
    Runs-settled u m s t n loop h r stuck =
        let reach = Runs-Reach s t n r in
        let (k, _, at_k) = Reach-Represents laws u m reach h in
        (
          omega (arith, Runs-work s t n r),
          Represents-settled u k t (stuck-work t (Reach-IsLoop reach loop) stuck) at_k,
        )

    drains_within :
        (now fuel : ℕ) (s : System S)
        → IsLoop s.proof_task
        → work s ≤ fuel
        → (n : ℕ) × (t : System S) × Runs s n t × (work t ≡ 0)
    drains_within now zero s loop h = (0, s, stay, omega arith)
    drains_within now (suc fuel) s loop h = elim (zero_or_more (work s)) [
      | inl idle ↦ (0, s, stay, idle)
      | inr busy ↦
          let (t, step, on) = work-Works laws now s loop busy in
          let (n, u, r, idle) =
            drains_within now fuel t (Step-IsLoop step loop)
              (omega (arith, Step-work laws step on)) in
          (suc n, u, onward_first step on n r, idle)
    ]

    -- From any state in which the loop of the third stage waits or is at one of its own steps, the
    -- server comes to rest without a new call: there is a way on, of at most as many steps as work
    -- was left, after which no call, channel or task has anything to do.
    pub drains :
        (now : ℕ) (s : System S)
        → IsLoop s.proof_task
        → (n : ℕ) × (t : System S) × Runs s n t × (n ≤ work s) × (work t ≡ 0)
    drains now s loop =
        let (n, t, r, idle) = drains_within now (work s) s loop (omega arith) in
        (n, t, r, omega (arith, Runs-work s t n r), idle)
