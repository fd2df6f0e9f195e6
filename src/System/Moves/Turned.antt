-- ===== src/System/Moves/Turned.antt =====
-- What a move does to the life of a request in src/main.rs.
use mathlib.Core.Path.{subst}
use tee_prover_server.Prelude.{◌≡◌, refl, ◌==◌, ==_iff, ◌∙◌, ap, true, false, arith}
use tee_prover_server.Prelude.{List, Bool-cases, inl, inr}
use tee_prover_server.Store.{Uuid}
use tee_prover_server.Database.{Row, Status, pending, witness_generated, proof_genererated}
use tee_prover_server.Database.Rows.{find_row, witness_columns, proof_columns}
use tee_prover_server.System.Life as Life
use tee_prover_server.System.Life.{
  Life, absent, waiting, proving, stopping, ended, HasStatus, Tally, At, Next,
}
use tee_prover_server.System.Rows.{Changes-HasStatus, Fails-HasStatus}
use tee_prover_server.System.Moves.{
  one, Flow, stays, accepts, generates, proves, Stop, drops, stops_waiting, stops_proving, fails,
  Moves, flows, halts,
}
use tee_prover_server.System.Moves.Others.{Moves-Untouched}
use tee_prover_server.System.Moves.Places.{At-same, At-accepts, At-waiting, At-proving, At-stopping}

one_same : (u v : Uuid) → (v == u) ≡ true → one v u ≡ 1
one_same u v h = rw h refl

module _ (X : Type 0) (m : Life) (u : Uuid) (c c' : Tally) (before after : List Row) where
  abbrev Turned : Type 0
  Turned = Next X m c' (find_row u after)

  -- The request itself has moved.
  Flow-mine : (u == u) ≡ true → Flow u u c c' before after → At m c (find_row u before) → Turned
  Flow-mine mine f h =
      let one_of_it = one_same u u mine in
      elim f [
        | stays x y z same ↦ At-same m c c' x y z (ap (find_row u) same) h
        | accepts row x y z absent_before added st ↦
            At-accepts m c c' h absent_before (omega arith) y z (row, added ∙ rw mine refl, st)
        | generates now x y z changed ↦
            let e = At-waiting m c (find_row u before) h (omega arith) in
            let (a, b, d, st) = subst (λ l. At l c (find_row u before)) e h in
            (
              proving,
              rw e (inr (Life.generate, tt)),
              (
                omega arith,
                omega arith,
                omega arith,
                Changes-HasStatus u before after pending witness_generated (witness_columns now)
                    (λ row. refl) changed st,
              ),
            )
        | proves now p inputs x y z changed ↦
            let e = At-proving m c (find_row u before) h (omega arith) in
            let (a, b, d, st) = subst (λ l. At l c (find_row u before)) e h in
            (
              ended proof_genererated,
              rw e (inr (Life.prove, tt)),
              (
                omega arith,
                omega arith,
                omega arith,
                Changes-HasStatus u before after witness_generated proof_genererated
                    (proof_columns p inputs now) (λ row. refl) changed st,
              ),
            )
      ]

  Stop-mine : (u == u) ≡ true → Stop u u X c c' before after → At m c (find_row u before) → Turned
  Stop-mine mine f h =
      let one_of_it = one_same u u mine in
      elim f [
        | drops bad x y z same ↦
            let e = At-waiting m c (find_row u before) h (omega arith) in
            let (a, b, d, st) = subst (λ l. At l c (find_row u before)) e h in
            (
              ended pending,
              rw e (inr (Life.drop, bad)),
              (omega arith, omega arith, omega arith, rw same st),
            )
        | stops_waiting x y z same ↦
            let e = At-waiting m c (find_row u before) h (omega arith) in
            let (a, b, d, st) = subst (λ l. At l c (find_row u before)) e h in
            (
              stopping pending,
              rw e (inr (Life.stop_waiting, tt)),
              (omega arith, omega arith, omega arith, rw same st),
            )
        | stops_proving x y z same ↦
            let e = At-proving m c (find_row u before) h (omega arith) in
            let (a, b, d, st) = subst (λ l. At l c (find_row u before)) e h in
            (
              stopping witness_generated,
              rw e (inr (Life.stop_proving, tt)),
              (omega arith, omega arith, omega arith, rw same st),
            )
        | fails x y z failed ↦
            let (k, e) = At-stopping m c (find_row u before) h (omega arith) in
            let (a, b, d, st) = subst (λ l. At l c (find_row u before)) e h in
            elim (Fails-HasStatus u before after k failed st) [
              | inl (bad, same) ↦ (
                ended k,
                rw e (inr (Life.leave k, bad)),
                (omega arith, omega arith, omega arith, rw same st),
              )
              | inr marked ↦ (
                ended Status.failed,
                rw e (inr (Life.fail k, tt)),
                (omega arith, omega arith, omega arith, marked),
              )
            ]
      ]

module _ {X : Type 0} (m : Life) (u v : Uuid) (c c' : Tally) (before after : List Row) where
  Moves-other :
      (v == u) ≡ false
      → Moves X u v c c' before after
      → At m c (find_row u before)
      → Next X m c' (find_row u after)
  Moves-other other f h =
      let (x, y, z, r) = Moves-Untouched u v c c' before after other f in At-same m c c' x y z r h

Moves-mine :
    {X : Type 0} (m : Life) (u : Uuid) (c c' : Tally) (before after : List Row)
    → (u == u) ≡ true
    → Moves X u u c c' before after
    → At m c (find_row u before)
    → Next X m c' (find_row u after)
Moves-mine {X} m u c c' before after mine (flows f) h = Flow-mine X m u c c' before after mine f h
Moves-mine {X} m u c c' before after mine (halts f) h = Stop-mine X m u c c' before after mine f h

-- Whatever move was made, the life of a request has turned at most once.
pub Moves-Next :
    {X : Type 0} (m : Life) (u v : Uuid) (c c' : Tally) (before after : List Row)
    → Moves X u v c c' before after
    → At m c (find_row u before)
    → Next X m c' (find_row u after)
Moves-Next {X} m u v c c' before after f h = elim (Bool-cases (v == u)) [
  | inr other ↦ Moves-other m u v c c' before after other f h
  | inl same ↦
      let here : v ≡ u = (==_iff v u).0 same in
      Moves-mine m u c c' before after (subst (λ x. (x == u) ≡ true) here same)
        (subst (λ x. Moves X u x c c' before after) here f) h
]
