-- ===== src/System/Isolation.antt =====
-- Requests side by side in the server of src/main.rs: what a step for one leaves of the others.
use mathlib.Core.Logic.{◌≢◌}
use tee_prover_server.Prelude.{refl, ◌∙◌, ◌==◌, ==_iff, List, Bool-cases, inl, inr}
use tee_prover_server.Store.{Uuid}
use tee_prover_server.Database.{Column}
use tee_prover_server.Database.Rows.{find_row}
use tee_prover_server.System.{Site, System, Step, Reach, here, next}
use tee_prover_server.System.Moves.Others.{Untouched, Moves-Untouched}
use tee_prover_server.System.Refines.{IsLawful, mover, Step-Moves}
use tee_prover_server.System.Tallies.{table, tally}

module _ {S : Site} {schema : List Column} (laws : IsLawful S schema) (u : Uuid) where
  Step-Untouched :
      {s t : System S} (step : Step s t)
      → mover step ≢ u
      → Untouched (tally u s) (tally u t) (find_row u (table s)) (find_row u (table t))
  Step-Untouched {s} {t} step away = elim (Bool-cases (mover step == u)) [
    | inl same ↦ absurd (away ((==_iff (mover step) u).0 same))
    | inr other ↦
        Moves-Untouched u (mover step) (tally u s) (tally u t) (table s) (table t) other
          (Step-Moves laws u step)
  ]

  -- None of the steps of a run is for the request.
  abbrev pub Avoids : {s t : System S} → Reach s t → Type 0
  Avoids here = Unit {0}
  Avoids (next r step) = Avoids r × (mover step ≢ u)

  -- Whatever happens, as long as it is for other requests: calls of other sessions, with any
  -- message and any outcome, and steps of their tasks, failures and panics included. The request
  -- is as often in the server as it was, before the mark of its witness, from there to its proof,
  -- and in its cleanup; and its row is what it was, in every column.
  pub Reach-Untouched :
      {s t : System S} (r : Reach s t)
      → Avoids r
      → Untouched (tally u s) (tally u t) (find_row u (table s)) (find_row u (table t))
  Reach-Untouched here h = (refl, refl, refl, refl)
  Reach-Untouched (next r step) (h, away) =
      let (a, b, c, d) = Reach-Untouched r h in
      let (a', b', c', d') = Step-Untouched step away in (a' ∙ a, b' ∙ b, c' ∙ c, d' ∙ d)
