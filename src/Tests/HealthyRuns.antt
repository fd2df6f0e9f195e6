-- ===== src/Tests/HealthyRuns.antt =====
-- The server of src/main.rs on a steady machine, and the theorems on it.
use tee_prover_server.Prelude.{◌≡◌, refl, ◌≤◌, ◌⊎◌, [], inl, from_utf8, utf8_valid}
use tee_prover_server.Database.{proof_genererated, failed}
use tee_prover_server.Database.Rows.{find_row}
use tee_prover_server.System.Life.{absent, ended, HasStatus}
use tee_prover_server.System.Refines.{Represents}
use tee_prover_server.System.Tallies.{table}
use tee_prover_server.System.Queued.{IsKnown, Reach-IsKnown}
use tee_prover_server.System.Work.{work}
use tee_prover_server.System.Decided
use tee_prover_server.System.Decided.{IsSteady}
use tee_prover_server.Launch.{site}
use tee_prover_server.Launch.Service.{site_laws, launch-IsKnown, launch-decided}
use tee_prover_server.Tests.Host.{
  program, files, host, host_laws_on, launched, launch_ok_on, id, recorded, finished_it,
}
use tee_prover_server.Tests.PipelineRuns.{silent}
use tee_prover_server.Tests.Course.{
  to_recorded, to_finished, drained, recorded_waiting, finished_stuck,
}

steady : IsSteady (site host launched)
unfolding program from_utf8 utf8_valid
steady = record {
  files_open = λ c. refl;
  error_texts =
      λ program arguments os output ran. let e : silent ≡ output = cc in ([], rw (← e) refl);
  marks = λ u why db. refl;
}

recorded-IsKnown : IsKnown (site_laws (host_laws_on []) launched) recorded
recorded-IsKnown =
    Reach-IsKnown (site_laws (host_laws_on []) launched) to_recorded
      (launch-IsKnown (host_laws_on []) files launched (launch_ok_on []))

Runs-decided_example :
    (13 ≤ work recorded)
    × (HasStatus proof_genererated (find_row id (table finished_it))
        ⊎ HasStatus failed (find_row id (table finished_it)))
Runs-decided_example =
    Decided.Runs-decided steady (site_laws (host_laws_on []) launched) id recorded finished_it 13
      recorded-IsKnown tt (inl recorded_waiting) drained finished_stuck

launch-decided_example :
    Represents id absent finished_it
    ⊎ (Represents id (ended proof_genererated) finished_it
        ⊎ Represents id (ended failed) finished_it)
launch-decided_example =
    launch-decided (host_laws_on []) files launched (launch_ok_on []) steady id refl
      (to_finished to_recorded) finished_stuck
