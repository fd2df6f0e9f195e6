-- ===== src/System/Rows.antt =====
-- What the tasks of src/main.rs leave in the row of a request.
use tee_prover_server.Prelude.{◌≡◌, refl, ◌==◌, ==_iff, true, false, ap, ◌∙◌}
use tee_prover_server.Prelude.{List, inl, inr, ◌⊎◌}
use tee_prover_server.Store.{Uuid}
use tee_prover_server.Database.{
  Column, Value, Row, Assignments, Status, assign, failed, status_to_i32,
}
use tee_prover_server.Database.Rows.{failed_columns, find_row}
use tee_prover_server.Pipeline.Stages.{Changes, Fails, marked, unmarked}
use tee_prover_server.System.Life.{HasStatus}

==_refl : (u : Uuid) → (u == u) ≡ true
==_refl u = (==_iff u u).1 refl

-- The assignments set the status.
abbrev pub Sets : Status → Assignments → Type 0
Sets st cs = (row : Row) → assign cs row Column.status ≡ Value.int (status_to_i32 st)

module _ (u : Uuid) (before after : List Row) where
  pub Changes-HasStatus :
      (st st' : Status) (cs : Assignments)
      → Sets st' cs
      → Changes u cs before after
      → HasStatus st (find_row u before)
      → HasStatus st' (find_row u after)
  Changes-HasStatus st st' cs sets changed (row, there, _) =
      (assign cs row, changed u ∙ rw (==_refl u, there) refl, sets row)

  -- Another request's row is as it was.
  pub Changes-other :
      (v : Uuid) (cs : Assignments)
      → Changes u cs before after
      → (u == v) ≡ false
      → find_row v after ≡ find_row v before
  Changes-other v cs changed other = changed v ∙ rw other refl

  pub Fails-other :
      {X : Type 0} (v : Uuid)
      → Fails X u before after
      → (u == v) ≡ false
      → find_row v after ≡ find_row v before
  Fails-other v (marked why changed) other = Changes-other v (failed_columns why) changed other
  Fails-other v (unmarked x same) other = ap (find_row v) same

  pub Fails-HasStatus :
      {X : Type 0} (st : Status)
      → Fails X u before after
      → HasStatus st (find_row u before)
      → (X × (find_row u after ≡ find_row u before)) ⊎ HasStatus failed (find_row u after)
  Fails-HasStatus st (marked why changed) h =
      inr (Changes-HasStatus st failed (failed_columns why) (λ row. refl) changed h)
  Fails-HasStatus st (unmarked x same) h = inl (x, ap (find_row u) same)
