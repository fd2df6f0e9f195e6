-- ===== src/Tests/SystemRuns.antt =====
-- The server of src/main.rs from its start to a first proof, and the theorems at its states.
use mathlib.Core.Logic.{◌≢◌}
use tee_prover_server.Prelude.{arith, ℕ, ◌≡◌, refl, ◌≤◌, ◌++◌, ◌⊎◌, ◌↔◌, Text, codes}
use tee_prover_server.Prelude.{List, [], ◌∷◌, Option, none, some, length}
use tee_prover_server.Arguments.{parse, parse-eq-none_iff}
use tee_prover_server.Database.{Value, Row, Status, pending, proof_genererated}
use tee_prover_server.Database.Rows.{find_row}
use tee_prover_server.Server.Interleave.{greet, begin}
use tee_prover_server.Pipeline.Tasks.{computing}
use tee_prover_server.System.{System, Step, here, next, called, Reach}
use tee_prover_server.System.Life.{Life, absent, waiting, ended, Turns, HasStatus}
use tee_prover_server.System.Refines.{Represents}
use tee_prover_server.System.Tallies.{table, tally}
use tee_prover_server.System.Lives
use tee_prover_server.System.Isolation
use tee_prover_server.System.Moves.Others
use tee_prover_server.System.Notices
use tee_prover_server.Database.Notify.{announced, status_update_notify}
use tee_prover_server.Types.{pos}
use tee_prover_server.System.Queued.{LookedUp}
use tee_prover_server.System.Drains
use tee_prover_server.System.Work.{work}
use tee_prover_server.Launch.{site, system}
use tee_prover_server.Launch.Ready
use tee_prover_server.Launch.Service
use tee_prover_server.Tests.Crates.{repeat}
use tee_prover_server.Tests.Site.{nonce, tag}
use tee_prover_server.Tests.Host.{
  program, files, host, host_on, host_laws_on, laws, launched, launched_on, launch_ok_on, id,
  witness_job, others, Server, recorded, queued, written, spawned_again, computed, marked,
  handed_on, stored, finished_it,
}
use tee_prover_server.Tests.Course.{
  to_recorded, to_spawned_again, to_finished, to_handed_on, drained, recorded_waiting,
  finished_stuck,
}

-- The request's places in the server, and the work that is left.
abbrev places : Server → List ℕ
places s = let c = tally id s in c.early ∷ c.late ∷ c.stopped ∷ work s ∷ []

at_queued : places queued ≡ 1 ∷ 0 ∷ 0 ∷ 17 ∷ []
unfolding program
at_queued = refl

at_written : places written ≡ 1 ∷ 0 ∷ 0 ∷ 14 ∷ []
unfolding program
at_written = refl

at_computed : places computed ≡ 1 ∷ 0 ∷ 0 ∷ 9 ∷ []
unfolding program
at_computed = refl

at_handed_on : places handed_on ≡ 0 ∷ 1 ∷ 0 ∷ 5 ∷ []
unfolding program
at_handed_on = refl

at_stored : places stored ≡ 0 ∷ 0 ∷ 0 ∷ 1 ∷ []
unfolding program
at_stored = refl

recorded_pending : HasStatus pending (find_row id (table recorded))
unfolding program
recorded_pending = (_, refl, refl)

finished_ended : Represents id (ended proof_genererated) finished_it
unfolding program
finished_ended = (refl, refl, refl, (_, refl, refl))

launch-Represents_example : (n : Life) × Turns absent n × Represents id n finished_it
launch-Represents_example =
    Service.launch-Represents (host_laws_on []) files launched (launch_ok_on []) id
      (to_finished to_recorded) refl

-- The notice that the second stage's mark sends, and none for a statement that changes no status.
told_of_mark :
    announced (find_row id (table computed)) (find_row id (table marked)) ≡ some (Value.int (pos 1))
unfolding program status_update_notify
told_of_mark = refl

told_of_send : announced (find_row id (table marked)) (find_row id (table handed_on)) ≡ none
unfolding program status_update_notify
told_of_send = refl

launch-Heard_example :
    (now : Option Status) × Lives.Shows now (find_row id (table finished_it))
    × Notices.Heard none (Notices.told id (to_finished to_recorded)) now
    × (length (Notices.told id (to_finished to_recorded)) ≤ 3)
launch-Heard_example =
    Service.launch-Heard (host_laws_on []) files launched (launch_ok_on []) id
      (to_finished to_recorded) refl

Reach-number_example :
    (st : Status) × HasStatus st (find_row id (table finished_it))
    × (Lives.number pending ≤ Lives.number st)
Reach-number_example =
    Lives.Reach-number (Service.site_laws (host_laws_on []) launched) id waiting (to_finished here)
      recorded_waiting pending recorded_pending

Reach-once_example : Lives.places (tally id handed_on) ≤ 1
Reach-once_example =
    Lives.Reach-once (Service.site_laws (host_laws_on []) launched) id waiting (to_handed_on here)
      recorded_waiting

-- Once the proof is there, another call for the session changes nothing about the request.
abbrev asked_again : Server
asked_again = called (begin id nonce (codes "{}") tag 103) finished_it

-- While the request waits, another session begins.
abbrev other_session : Server
other_session =
    called (begin 8 nonce (codes "{}") tag 103) (called (greet 5 (7 ∷ repeat 32 0) 8) recorded)

abbrev meanwhile : Reach recorded other_session
meanwhile =
    next (next here (Step.call (greet 5 (7 ∷ repeat 32 0) 8) tt))
      (Step.call (begin 8 nonce (codes "{}") tag 103) tt)

eight-ne-id : ◌≢◌ {A = ℕ} 8 id
eight-ne-id e = absurd (omega arith)

meanwhile-Avoids : Isolation.Avoids (Service.site_laws (host_laws_on []) launched) id meanwhile
meanwhile-Avoids = ((tt, eight-ne-id), eight-ne-id)

Reach-Untouched_example :
    Others.Untouched
      (tally id recorded)
      (tally id other_session)
      (find_row id (table recorded))
      (find_row id (table other_session))
Reach-Untouched_example =
    Isolation.Reach-Untouched (Service.site_laws (host_laws_on []) launched) id meanwhile
      meanwhile-Avoids

Reach-ended_example :
    (Lives.places (tally id asked_again) ≡ 0)
    × HasStatus proof_genererated (find_row id (table asked_again))
Reach-ended_example =
    Lives.Reach-ended (Service.site_laws (host_laws_on []) launched) id proof_genererated
      {s = finished_it} (next here (Step.call (begin id nonce (codes "{}") tag 103) tt))
      finished_ended

-- Another start, on the table that was left with the request waiting.
abbrev left : List Row
left = table recorded

abbrev begun_again : System (site (host_on left) (launched_on left))
begun_again = system (host_on left) (launched_on left) files

launch-leftover_example :
    (Lives.places (tally id (called (greet 5 (7 ∷ repeat 32 0) id) begun_again)) ≡ 0)
    × HasStatus pending (find_row id (table (called (greet 5 (7 ∷ repeat 32 0) id) begun_again)))
launch-leftover_example =
    Service.launch-leftover (host_laws_on left) files (launched_on left) (launch_ok_on left) id
      pending (next here (Step.call (greet 5 (7 ∷ repeat 32 0) id) tt)) recorded_pending

-- The only task that goes on there.
its_task : spawned_again.tasks ≡ [] ++ (computing witness_job ∷ others)
unfolding program
its_task = refl

launch-lookup_example :
    LookedUp (Service.site_laws (host_laws_on []) launched) witness_job 101 spawned_again
launch-lookup_example =
    Service.launch-lookup (host_laws_on []) files launched (launch_ok_on [])
      (to_spawned_again to_recorded) witness_job [] others its_task 101

launch-IsReady_example : Ready.IsReady host files launched
launch-IsReady_example = Ready.launch-IsReady host laws.lru files launched (launch_ok_on [])

parse-eq-none_iff_example : (parse (λ k. none) ≡ none) ↔ (◌≡◌ {A = Option Text} none none)
parse-eq-none_iff_example = parse-eq-none_iff (λ k. none)

Runs-settled_example :
    (13 ≤ work recorded)
    × (Represents id absent finished_it ⊎ ((st : Status) × Represents id (ended st) finished_it))
Runs-settled_example =
    Drains.Runs-settled (Service.site_laws (host_laws_on []) launched) id waiting recorded
      finished_it 13 tt recorded_waiting drained finished_stuck

drains_example :
    (n : ℕ) × (t : Server) × Drains.Runs recorded n t × (n ≤ work recorded) × (work t ≡ 0)
drains_example = Drains.drains (Service.site_laws (host_laws_on []) launched) 100 recorded tt
