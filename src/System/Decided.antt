-- ===== src/System/Decided.antt =====
-- What becomes of a request in the server of src/main.rs on a machine that is steady: one that keeps
-- the receiver of the first channel, whose commands write text, and whose database takes the mark of
-- a failure. Everything else may fail.
use mathlib.Core.Path.{subst}
use tee_prover_server.Prelude.{
  ℕ, ◌≡◌, sym, ◌≤◌, false, arith, Text, List, some, ok, inl, inr, ◌⊎◌, All, All_middle, from_utf8,
}
use tee_prover_server.Prelude.Dict
use tee_prover_server.Prelude.Dict.{has, lookup}
use tee_prover_server.Store.{Uuid}
use tee_prover_server.Os.{Output}
use tee_prover_server.Database.{
  Column, Statement, Status, pending, witness_generated, proof_genererated, failed, fail_proof,
}
use tee_prover_server.Database.Rows.{find_row, failed_columns}
use tee_prover_server.Pipeline.Tasks.{Task}
use tee_prover_server.System.{
  Site, plant, System, Step, call, spawn_file, spawn_witness, run_task, receive_proof, run_proof,
  Reach, here, next,
}
use tee_prover_server.System.Life.{
  Life, absent, waiting, proving, stopping, ended, Turn, accept, generate, prove, drop,
  stop_waiting, stop_proving, fail, leave, Caused, HasStatus,
}
use tee_prover_server.System.Mishaps.{Mishap, odd_output, no_key, unmarked}
use tee_prover_server.System.Refines.{IsLawful, Represents, Cause, Step-Represents}
use tee_prover_server.System.Tallies.{table, tally}
use tee_prover_server.System.Lives.{number, places, Reach-number}
use tee_prover_server.System.Circuits.{OfTask}
use tee_prover_server.System.Queued.{IsKnown, Reach-IsKnown}
use tee_prover_server.System.Work.{work}
use tee_prover_server.System.Ready.{IsLoop}
use tee_prover_server.System.Drains.{
  Works, Runs, Runs-work, Runs-Reach, Reach-IsLoop, stuck-work, places-work,
}

-- What the machine does: the first channel keeps its receiver, what a command writes to its error
-- output is UTF-8, and the database carries out the update that marks a request as failed. A command
-- may fail, a file may be missing, and every other statement may be refused.
pub record IsSteady (S : Site) : Type 0 where
  pub files_open : (c : S.env.mpsc.Channel) → S.env.mpsc.closed c ≡ false
  pub error_texts :
      (program : Text) (arguments : List Text) (os : S.os.State) (output : Output)
      → (S.os.command program arguments os).0 ≡ ok output
      → (t : Text) × (from_utf8 output.stderr ≡ some t)
  pub marks :
      (u : Uuid) (why : Text) (db : S.env.postgres.State)
      → (S.env.postgres.execute (Statement.update (failed_columns why) u) db).0 ≡ ok tt

-- A life in which the server is not done with a request that has neither its proof nor a mark of its
-- failure.
abbrev pub IsDecided : Life → Type 0
IsDecided (ended pending) = 1 ≤ 0
IsDecided (ended witness_generated) = 1 ≤ 0
IsDecided _ = Unit {0}

Turn-IsDecided : {X : Type 0} → ¬ X → (m n : Life) (turn : Turn m n) → Caused X turn → IsDecided n
Turn-IsDecided never _ _ accept h = tt
Turn-IsDecided never _ _ generate h = tt
Turn-IsDecided never _ _ prove h = tt
Turn-IsDecided never _ _ drop h = absurd (never h)
Turn-IsDecided never _ _ stop_waiting h = tt
Turn-IsDecided never _ _ stop_proving h = tt
Turn-IsDecided never _ _ (fail st) h = tt
Turn-IsDecided never _ _ (leave st) h = absurd (never h)

module _ {S : Site} (steady : IsSteady S) where
  never-Mishap : (t : Task) → OfTask S.circuit_zkey_map t → ¬ Mishap (plant S) t
  unfolding fail_proof
  never-Mishap t of_it (odd_output program arguments os output ran odd) =
      let (text, even) = steady.error_texts program arguments os output ran in cc
  never-Mishap _ of_it (no_key g lacking) =
      let unknown = Dict.has_of_none g.circuit_file_name S.circuit_zkey_map lacking in cc
  never-Mishap t of_it (unmarked uuid why db e refused) = let done = steady.marks uuid why db in cc

  module _ {schema : List Column} (laws : IsLawful S schema) (u : Uuid) where
    never-Cause : {s t : System S} (step : Step s t) → IsKnown laws s → ¬ Cause step
    never-Cause (call e ready) known (c, gone) = let live = steady.files_open c in cc
    never-Cause (spawn_file g got) known h = absurd (omega arith)
    never-Cause (spawn_witness g got) known h = absurd (omega arith)
    never-Cause (run_task task before after now split ready) known h =
        let (mine, _) =
          All_middle (OfTask S.circuit_zkey_map) before task after
            (subst (All (OfTask S.circuit_zkey_map)) split known.tasks) in
        never-Mishap task mine h
    never-Cause (receive_proof g idle got) known h = absurd (omega arith)
    never-Cause {s} (run_proof now ready) known h = never-Mishap s.proof_task known.proof_task h

    Reach-IsDecided :
        (m : Life) {s t : System S}
        → Reach s t
        → IsKnown laws s
        → IsDecided m
        → Represents u m s
        → (n : Life) × IsDecided n × Represents u n t
    Reach-IsDecided m here known good h = (m, good, h)
    Reach-IsDecided m (next r step) known good h =
        let (n, good', at_n) = Reach-IsDecided m r known good h in
        let (n', turned, at_n') = Step-Represents laws u n step at_n in
        (
          n',
          elim turned [
            | inl e ↦ subst IsDecided (sym e) good'
            | inr (turn, caused) ↦
                Turn-IsDecided (never-Cause step (Reach-IsKnown laws r known)) n n' turn caused
          ],
          at_n',
        )

    -- At rest, such a request is not there, has its proof, or is marked as failed.
    decided_idle :
        (n : Life) (t : System S)
        → places (tally u t) ≡ 0
        → IsDecided n
        → Represents u n t
        → Represents u absent t
          ⊎ (Represents u (ended proof_genererated) t ⊎ Represents u (ended failed) t)
    decided_idle absent t idle good h = inl h
    decided_idle waiting t idle good (p, q, k, _) = absurd (omega arith)
    decided_idle proving t idle good (p, q, k, _) = absurd (omega arith)
    decided_idle (stopping st) t idle good (p, q, k, _) = absurd (omega arith)
    decided_idle (ended pending) t idle good h = absurd (omega arith)
    decided_idle (ended witness_generated) t idle good h = absurd (omega arith)
    decided_idle (ended proof_genererated) t idle good h = inr (inl h)
    decided_idle (ended failed) t idle good h = inr (inr h)

    -- On a steady machine: take a state in which every job, task and call is for a circuit of the
    -- map, the loop of the third stage waits or is at one of its own steps, and a request is where
    -- a life says that has not ended without a proof or a mark of its failure. Whatever happens
    -- from there on, calls included, whatever commands, files and other statements fail, and
    -- wherever the server stops, because nothing can go on without a new call: the request has no
    -- row, or its row says that it has its proof, or that it has failed; and in each case it is
    -- nowhere in the server.
    pub Reach-decided :
        (m : Life) {s t : System S}
        → IsDecided m
        → IsKnown laws s
        → IsLoop s.proof_task
        → Represents u m s
        → Reach s t
        → ¬ Works t
        → Represents u absent t
          ⊎ (Represents u (ended proof_genererated) t ⊎ Represents u (ended failed) t)
    Reach-decided m {t = t} good known loop h r stuck =
        let (n, good', at_n) = Reach-IsDecided m r known good h in
        decided_idle n t (places-work laws u t (stuck-work laws t (Reach-IsLoop r loop) stuck))
          good' at_n

    -- On a steady machine: take a state in which every job, task and call is for a circuit of the
    -- map, the loop of the third stage waits or is at one of its own steps, and a request is there
    -- with its row, waiting for its witness or being proved. However the server goes on without a
    -- new call, and whatever commands, files and other statements fail, it stops after at most as
    -- many steps as work was left; and where it stops, because nothing can go on, the request's row
    -- says that it has its proof, or that it has failed: no request is lost without a mark.
    pub Runs-decided :
        (s t : System S) (n : ℕ)
        → IsKnown laws s
        → IsLoop s.proof_task
        → (Represents u waiting s ⊎ Represents u proving s)
        → Runs s n t
        → ¬ Works t
        → (n ≤ work s)
          × (HasStatus proof_genererated (find_row u (table t))
              ⊎ HasStatus failed (find_row u (table t)))
    Runs-decided s t n known loop recorded r stuck =
        let reach = Runs-Reach s t n r in
        (
          omega (arith, Runs-work laws s t n r),
          elim recorded [
            | inl h ↦
                let (_, _, _, shown) = h in
                still (Reach-number laws u waiting reach h pending shown)
                  (Reach-decided waiting tt known loop h reach stuck)
            | inr h ↦
                let (_, _, _, shown) = h in
                still (Reach-number laws u proving reach h witness_generated shown)
                  (Reach-decided proving tt known loop h reach stuck)
          ],
        )
      where
        still :
            {k : ℕ}
            → ((st : Status) × HasStatus st (find_row u (table t)) × (k ≤ number st))
            → (Represents u absent t
                ⊎ (Represents u (ended proof_genererated) t ⊎ Represents u (ended failed) t))
            → HasStatus proof_genererated (find_row u (table t))
              ⊎ HasStatus failed (find_row u (table t))
        still (st, (row, there, _), _) (inl (_, _, _, gone)) = absurd (cc)
        still _ (inr (inl (_, _, _, shown))) = inl shown
        still _ (inr (inr (_, _, _, shown))) = inr shown
