-- ===== src/Launch/Service.antt =====
-- The server of src/main.rs from its start on.
use tee_prover_server.Prelude.{
  ℕ, ◌≡◌, refl, ◌∙◌, ap, ◌++◌, ◌≤◌, List, [], ◌∷◌, Option, none, some, ◌⊎◌, arith, length,
}
use tee_prover_server.Store.{Uuid}
use tee_prover_server.Database.{Column, Status, proof_genererated, failed}
use tee_prover_server.Database.Rows.{find_row}
use tee_prover_server.Generators.{WitnessGenerator}
use tee_prover_server.Server.Env.{IsMpsc}
use tee_prover_server.Server.Submit.Enqueue
use tee_prover_server.Server.Interleave.Jobs.{count}
use tee_prover_server.Pipeline.Tasks.{Task, computing}
use tee_prover_server.System.{System, Reach}
use tee_prover_server.System.Life.{Life, absent, ended, Turns, HasStatus}
use tee_prover_server.System.Refines
use tee_prover_server.System.Refines.{Represents, Reach-Represents}
use tee_prover_server.System.Tallies.{witness_count, proof_count, table, tally}
use tee_prover_server.System.Lives.{places, Shows, Reach-ended}
use tee_prover_server.System.Notices.{Heard, told, Reach-Heard}
use tee_prover_server.System.Queued.{IsKnown, LookedUp, Reach-lookup}
use tee_prover_server.System.Drains.{Works}
use tee_prover_server.System.Decided.{IsSteady, Reach-decided}
use tee_prover_server.Launch.{Host, Launched, launch, site, system}
use tee_prover_server.Launch.Ready.{launch-IsReady}

-- What the parts outside of the repository do. A channel that was just made holds nothing.
pub record IsLawful (H : Host) (schema : List Column) : Type 0 where
  pub server : Enqueue.IsLawful H.env schema
  pub witnesses : IsMpsc H.witnesses
  pub proofs : IsMpsc H.proofs
  pub items-file_channel : (n : ℕ) → 1 ≤ n → H.env.mpsc.items (H.file_channel n) ≡ []
  pub items-witness_channel : (n : ℕ) → 1 ≤ n → H.witnesses.items (H.witness_channel n) ≡ []
  pub items-proof_channel : (n : ℕ) → 1 ≤ n → H.proofs.items (H.proof_channel n) ≡ []

module _ {H : Host} {schema : List Column} (laws : IsLawful H schema) where
  abbrev pub site_laws : (l : Launched H) → Refines.IsLawful (site H l) schema
  site_laws l = record { server = laws.server; witnesses = laws.witnesses; proofs = laws.proofs }

  module _ (os : H.os.State) (l : Launched H) (launched : launch H os ≡ some l) where
    -- The channels are empty at the start.
    no_jobs : H.env.mpsc.items l.server.file_generator_sender ≡ []
    no_jobs =
        ap H.env.mpsc.items (launch-IsReady H laws.server.lru os l launched).queues.0
        ∙ laws.items-file_channel 10 (omega arith)

    no_witness_jobs : H.witnesses.items l.witness_generator_sender ≡ []
    no_witness_jobs =
        ap H.witnesses.items (launch-IsReady H laws.server.lru os l launched).queues.1
        ∙ laws.items-witness_channel 10 (omega arith)

    no_proof_jobs : H.proofs.items l.proof_generator_sender ≡ []
    no_proof_jobs =
        ap H.proofs.items (launch-IsReady H laws.server.lru os l launched).queues.2
        ∙ laws.items-proof_channel 10 (omega arith)

    no_places : (u : Uuid) → places (tally u (system H l os)) ≡ 0
    no_places u = omega (
      arith,
      ap (count u) no_jobs,
      ap (witness_count u) no_witness_jobs,
      ap (proof_count u) no_proof_jobs,
    )

    pub launch-IsKnown : IsKnown (site_laws l) (system H l os)
    launch-IsKnown = record {
      handlers = tt;
      server = record { map_kept = refl; queued = rw no_jobs tt };
      witness_items = rw no_witness_jobs tt;
      tasks = tt;
      proof_task = tt;
    }

    -- A request that the table does not have is not there.
    pub launch-absent :
        (u : Uuid) → find_row u (table (system H l os)) ≡ none → Represents u absent (system H l os)
    launch-absent u fresh =
        let empty = no_places u in (omega arith, omega arith, omega arith, fresh)

    -- After a start that succeeds, whatever happens and in whatever order: a request that the
    -- table did not have at the start goes through its life, from being absent, turn by turn, and
    -- its row and its place in the server agree on where it is.
    pub launch-Represents :
        (u : Uuid) {t : System (site H l)}
        → Reach (system H l os) t
        → find_row u (table (system H l os)) ≡ none
        → (n : Life) × Turns absent n × Represents u n t
    launch-Represents u r fresh = Reach-Represents (site_laws l) u absent r (launch-absent u fresh)

    -- After a start that succeeds, whatever happens: the triggers of setup.sql tell of a request
    -- that the table did not have at the start at most three times, each time a status with a
    -- greater number than the one before, and the last status that was told is the one that its
    -- row shows; with nothing told, it has no row. So who listens sees what the row shows, and
    -- hears no status twice.
    pub launch-Heard :
        (u : Uuid) {t : System (site H l)} (r : Reach (system H l os) t)
        → find_row u (table (system H l os)) ≡ none
        → (now : Option Status) × Shows now (find_row u (table t))
          × Heard none (told u r) now
          × (length (told u r) ≤ 3)
    launch-Heard u r fresh = Reach-Heard u (site_laws l) absent r (launch-absent u fresh)

    -- After a start that succeeds, whatever happens: a request that the table has from an earlier
    -- run of the server is not taken up again. No call is about to send it, no channel has it, and
    -- no task but for the removal of a folder; and its row keeps its status.
    pub launch-leftover :
        (u : Uuid) (st : Status) {t : System (site H l)}
        → Reach (system H l os) t
        → HasStatus st (find_row u (table (system H l os)))
        → (places (tally u t) ≡ 0) × HasStatus st (find_row u (table t))
    launch-leftover u st r there =
        let empty = no_places u in
        Reach-ended (site_laws l) u st r (omega arith, omega arith, omega arith, there)

    -- After a start that succeeds, whatever happens: a task of the second stage finds the key of
    -- its circuit in the map, so `get(..).unwrap()` does not panic. The task goes on to mark the
    -- witness with that key, or its run fails and it cleans up, or it panics in the run of the
    -- witness generator.
    pub launch-lookup :
        {t : System (site H l)}
        → Reach (system H l os) t
        → (g : WitnessGenerator) (before after : List Task)
        → t.tasks ≡ before ++ (computing g ∷ after)
        → (now : ℕ) → LookedUp (site_laws l) g now t
    launch-lookup r g before after split now =
        Reach-lookup (site_laws l) r launch-IsKnown g before after split now

    -- After a start that succeeds, on a steady machine: take a request that the table did not have
    -- at the start. Whatever calls come, in whatever order the tasks go on, whatever commands,
    -- files and other statements fail, and wherever the server stops, because nothing can go on
    -- without a new call: the request has no row, or its row says that it has its proof, or that it
    -- has failed; and in each case it is nowhere in the server. A machine is steady that keeps the
    -- receiver of the first channel, whose commands write UTF-8 to their error output, and whose
    -- database carries out the update that marks a request as failed.
    pub launch-decided :
        IsSteady (site H l)
        → (u : Uuid) {t : System (site H l)} → find_row u (table (system H l os)) ≡ none
        → Reach (system H l os) t
        → ¬ Works t
        → Represents u absent t
          ⊎ (Represents u (ended proof_genererated) t ⊎ Represents u (ended failed) t)
    launch-decided steady u fresh r stuck =
        Reach-decided steady (site_laws l) u absent tt launch-IsKnown tt (launch-absent u fresh) r
          stuck
