-- ===== src/System/Moves/Others.antt =====
-- What a move of one request in src/main.rs leaves of the others.
use tee_prover_server.Prelude.{Option}
use tee_prover_server.Prelude.{◌≡◌, refl, ◌==◌, ◌∙◌, ap, false, arith}
use tee_prover_server.Prelude.{List}
use tee_prover_server.Store.{Uuid}
use tee_prover_server.Database.{Row}
use tee_prover_server.Database.Rows.{find_row, witness_columns, proof_columns}
use tee_prover_server.System.Life.{Tally}
use tee_prover_server.System.Rows.{Changes-other, Fails-other}
use tee_prover_server.System.Moves.{
  one, Flow, stays, accepts, generates, proves, Stop, drops, stops_waiting, stops_proving, fails,
  Moves, flows, halts,
}

pub one_other : (u v : Uuid) → (v == u) ≡ false → one v u ≡ 0
one_other u v h = rw h refl

-- A request is where it was, and its row is what it was.
abbrev pub Untouched : Tally → Tally → Option Row → Option Row → Type 0
Untouched c c' r r' =
    (c'.early ≡ c.early) × (c'.late ≡ c.late) × (c'.stopped ≡ c.stopped) × (r' ≡ r)

module _ (u v : Uuid) (c c' : Tally) (before after : List Row) (other : (v == u) ≡ false) where
  Flow-Untouched :
      Flow u v c c' before after → Untouched c c' (find_row u before) (find_row u after)
  Flow-Untouched f =
      let none_of_it = one_other u v other in
      elim f [
        | stays x y z same ↦ (x, y, z, ap (find_row u) same)
        | accepts row x y z _ added _ ↦ (omega arith, y, z, added ∙ rw other refl)
        | generates now x y z changed ↦ (
          omega arith,
          omega arith,
          z,
          Changes-other v before after u (witness_columns now) changed other,
        )
        | proves now p inputs x y z changed ↦ (
          x,
          omega arith,
          z,
          Changes-other v before after u (proof_columns p inputs now) changed other,
        )
      ]

  Stop-Untouched :
      {X : Type 0}
      → Stop u v X c c' before after
      → Untouched c c' (find_row u before) (find_row u after)
  Stop-Untouched f =
      let none_of_it = one_other u v other in
      elim f [
        | drops bad x y z same ↦ (omega arith, y, z, ap (find_row u) same)
        | stops_waiting x y z same ↦ (omega arith, y, omega arith, ap (find_row u) same)
        | stops_proving x y z same ↦ (x, omega arith, omega arith, ap (find_row u) same)
        | fails x y z failed ↦ (x, y, omega arith, Fails-other v before after u failed other)
      ]

  pub Moves-Untouched :
      {X : Type 0}
      → Moves X u v c c' before after
      → Untouched c c' (find_row u before) (find_row u after)
  Moves-Untouched (flows f) = Flow-Untouched f
  Moves-Untouched (halts f) = Stop-Untouched f
