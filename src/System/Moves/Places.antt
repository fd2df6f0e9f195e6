-- ===== src/System/Moves/Places.antt =====
-- What the counts of a request in src/main.rs say of its life.
use tee_prover_server.Prelude.{◌≡◌, refl, ◌+◌, ◌≤◌, arith, Option, none}
use tee_prover_server.Prelude.{inl, inr}
use tee_prover_server.Database.{Row, Status, pending}
use tee_prover_server.System.Life as Life
use tee_prover_server.System.Life.{
  Life, absent, waiting, proving, stopping, ended, HasStatus, Tally, At, Next,
}
use tee_prover_server.System.Moves.{Stays}

-- Nothing has changed for the request.
pub At-same :
    {X : Type 0} (m : Life) (c c' : Tally) {r r' : Option Row}
    → Stays c.early c'.early
    → Stays c.late c'.late
    → Stays c.stopped c'.stopped
    → r' ≡ r
    → At m c r
    → Next X m c' r'
At-same absent c c' x y z s (a, b, d, h) =
    (absent, inl refl, (omega arith, omega arith, omega arith, rw s h))
At-same waiting c c' x y z s (a, b, d, h) =
    (waiting, inl refl, (omega arith, omega arith, omega arith, rw s h))
At-same proving c c' x y z s (a, b, d, h) =
    (proving, inl refl, (omega arith, omega arith, omega arith, rw s h))
At-same (stopping st) c c' x y z s (a, b, d, h) =
    (stopping st, inl refl, (omega arith, omega arith, omega arith, rw s h))
At-same (ended st) c c' x y z s (a, b, d, h) =
    (ended st, inl refl, (omega arith, omega arith, omega arith, rw s h))

-- One of the request itself came or went.
pub At-accepts :
    {X : Type 0} (m : Life) (c c' : Tally) {r r' : Option Row}
    → At m c r
    → r ≡ none
    → c'.early ≡ 1 + c.early
    → Stays c.late c'.late
    → Stays c.stopped c'.stopped
    → HasStatus pending r'
    → Next X m c' r'
At-accepts absent c c' (a, b, d, h) gone x y z kept =
    (waiting, inr (Life.accept, tt), (omega arith, omega arith, omega arith, kept))
At-accepts waiting c c' (_, _, _, (row, there, _)) gone x y z kept = absurd (cc)
At-accepts proving c c' (_, _, _, (row, there, _)) gone x y z kept = absurd (cc)
At-accepts (stopping st) c c' (_, _, _, (row, there, _)) gone x y z kept = absurd (cc)
At-accepts (ended st) c c' (_, _, _, (row, there, _)) gone x y z kept = absurd (cc)

-- A request that is counted early waits, and so on.
pub At-waiting : (m : Life) (c : Tally) (r : Option Row) → At m c r → 1 ≤ c.early → m ≡ waiting
At-waiting waiting c r h e = refl
At-waiting absent c r (a, b, d, h) e = absurd (omega arith)
At-waiting proving c r (a, b, d, h) e = absurd (omega arith)
At-waiting (stopping st) c r (a, b, d, h) e = absurd (omega arith)
At-waiting (ended st) c r (a, b, d, h) e = absurd (omega arith)

pub At-proving : (m : Life) (c : Tally) (r : Option Row) → At m c r → 1 ≤ c.late → m ≡ proving
At-proving proving c r h e = refl
At-proving absent c r (a, b, d, h) e = absurd (omega arith)
At-proving waiting c r (a, b, d, h) e = absurd (omega arith)
At-proving (stopping st) c r (a, b, d, h) e = absurd (omega arith)
At-proving (ended st) c r (a, b, d, h) e = absurd (omega arith)

pub At-stopping :
    (m : Life) (c : Tally) (r : Option Row)
    → At m c r
    → 1 ≤ c.stopped
    → (st : Status) × (m ≡ stopping st)
At-stopping (stopping st) c r h e = (st, refl)
At-stopping absent c r (a, b, d, h) e = absurd (omega arith)
At-stopping waiting c r (a, b, d, h) e = absurd (omega arith)
At-stopping proving c r (a, b, d, h) e = absurd (omega arith)
At-stopping (ended st) c r (a, b, d, h) e = absurd (omega arith)
