-- ===== src/System/Moves.antt =====
-- What a step of src/server.rs or src/main.rs may do to one request, and what that does to the life
-- of any request.
pub mod Places
pub mod Others
pub mod Turned
use mathlib.Core.Path.{subst}
use tee_prover_server.Prelude.{
  ℕ, ◌≡◌, refl, ◌+◌, ◌≤◌, ◌==◌, ==_iff, ◌∙◌, ap, true, false, arith, Option, none, some,
}
use tee_prover_server.Prelude.{List, [], ◌∷◌, if◌then◌else◌, Text, Bool-cases, inl, inr, ◌⊎◌}
use tee_prover_server.Store.{Uuid}
use tee_prover_server.Database.{
  Column, Value, Row, Proof, Status, pending, witness_generated, proof_genererated, status_to_i32,
}
use tee_prover_server.Database.Rows.{find_row, witness_columns, proof_columns}
use tee_prover_server.Pipeline.Stages.{Changes, Fails}
use tee_prover_server.System.Life as Life
use tee_prover_server.System.Life.{
  Life, absent, waiting, proving, stopping, ended, HasStatus, Tally, At, Next,
}
use tee_prover_server.System.Rows.{Changes-HasStatus, Changes-other, Fails-other, Fails-HasStatus}

-- One, for a job of the request.
abbrev pub one : Uuid → Uuid → ℕ
one v u = if v == u then 1 else 0

-- How one count turns into another: it stays, or the request `v` comes or goes.
abbrev pub Stays : ℕ → ℕ → Type 0
Stays n n' = n' ≡ n

module _ (u v : Uuid) where
  abbrev pub Comes : ℕ → ℕ → Type 0
  Comes n n' = n' ≡ one v u + n

  abbrev pub Goes : ℕ → ℕ → Type 0
  Goes n n' = n ≡ one v u + n'

  -- The moves that lead to a proof, as `u` sees them.
  pub data Flow (c c' : Tally) (before after : List Row) : Type 0 where
    stays :
        Stays c.early c'.early
        → Stays c.late c'.late
        → Stays c.stopped c'.stopped
        → after ≡ before
        → Flow c c' before after
    accepts :
        (row : Row)
        → Comes c.early c'.early
        → Stays c.late c'.late
        → Stays c.stopped c'.stopped
        → find_row v before ≡ none
        → find_row u after ≡ (if v == u then some row else find_row u before)
        → row Column.status ≡ Value.int (status_to_i32 pending)
        → Flow c c' before after
    generates :
        (now : ℕ)
        → Goes c.early c'.early
        → Comes c.late c'.late
        → Stays c.stopped c'.stopped
        → Changes v (witness_columns now) before after
        → Flow c c' before after
    proves :
        (now : ℕ) (p : Proof) (inputs : List Text)
        → Stays c.early c'.early
        → Goes c.late c'.late
        → Stays c.stopped c'.stopped
        → Changes v (proof_columns p inputs now) before after
        → Flow c c' before after

  -- The moves that do not. A request is dropped, or left unmarked, only by a cause `X`.
  pub data Stop (X : Type 0) (c c' : Tally) (before after : List Row) : Type 0 where
    drops :
        X
        → Goes c.early c'.early
        → Stays c.late c'.late
        → Stays c.stopped c'.stopped
        → after ≡ before
        → Stop X c c' before after
    stops_waiting :
        Goes c.early c'.early
        → Stays c.late c'.late
        → Comes c.stopped c'.stopped
        → after ≡ before
        → Stop X c c' before after
    stops_proving :
        Stays c.early c'.early
        → Goes c.late c'.late
        → Comes c.stopped c'.stopped
        → after ≡ before
        → Stop X c c' before after
    fails :
        Stays c.early c'.early
        → Stays c.late c'.late
        → Goes c.stopped c'.stopped
        → Fails X v before after
        → Stop X c c' before after

pub data Moves (X : Type 0) (u v : Uuid) (c c' : Tally) (before after : List Row) : Type 0 where
  flows : Flow u v c c' before after → Moves X u v c c' before after
  halts : Stop u v X c c' before after → Moves X u v c c' before after

-- One tally is another with more.
abbrev pub IsSum : Tally → Tally → Tally → Type 0
IsSum d c more =
    (d.early ≡ c.early + more.early)
    × (d.late ≡ c.late + more.late)
    × (d.stopped ≡ c.stopped + more.stopped)

module _ (u v : Uuid) (c c' d d' more : Tally) (before after : List Row) (p : IsSum d c more)
    (q : IsSum d' c' more) where
  pub Flow-more : Flow u v c c' before after → Flow u v d d' before after
  Flow-more (stays x y z r) = stays (omega arith) (omega arith) (omega arith) r
  Flow-more (accepts row x y z r s t) = accepts row (omega arith) (omega arith) (omega arith) r s t
  Flow-more (generates now x y z r) = generates now (omega arith) (omega arith) (omega arith) r
  Flow-more (proves now a b x y z r) = proves now a b (omega arith) (omega arith) (omega arith) r

  Stop-more : {X : Type 0} → Stop u v X c c' before after → Stop u v X d d' before after
  Stop-more (drops bad x y z r) = drops bad (omega arith) (omega arith) (omega arith) r
  Stop-more (stops_waiting x y z r) = stops_waiting (omega arith) (omega arith) (omega arith) r
  Stop-more (stops_proving x y z r) = stops_proving (omega arith) (omega arith) (omega arith) r
  Stop-more (fails x y z r) = fails (omega arith) (omega arith) (omega arith) r

  pub Moves-more : {X : Type 0} → Moves X u v c c' before after → Moves X u v d d' before after
  Moves-more (flows f) = flows (Flow-more f)
  Moves-more (halts f) = halts (Stop-more f)
