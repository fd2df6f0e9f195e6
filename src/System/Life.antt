-- ===== src/System/Life.antt =====
-- The life of a request, as a client sees it in the table: the specification of the server of
-- src/main.rs.
use tee_prover_server.Prelude.{ℕ, ◌≡◌, ◌⊎◌, Option, none, some}
use tee_prover_server.Database.{
  Column, Value, Row, Status, status_to_i32, pending, witness_generated, proof_genererated, failed,
}

-- A request is not there; it waits for its witness; its proof is being computed; it is being given
-- up, and its row still has a status; or the server is done with it, and its row has a status.
pub data Life : Type 0 where
  absent waiting proving : Life
  stopping ended : Status → Life

-- What may become of a request. It may be dropped by a panic or by a call whose job is lost; the
-- database may refuse to mark it as failed.
pub data Turn : Life → Life → Type 0 where
  accept : Turn absent waiting
  generate : Turn waiting proving
  prove : Turn proving (ended proof_genererated)
  drop : Turn waiting (ended pending)
  stop_waiting : Turn waiting (stopping pending)
  stop_proving : Turn proving (stopping witness_generated)
  fail : (st : Status) → Turn (stopping st) (ended failed)
  leave : (st : Status) → Turn (stopping st) (ended st)

-- Any number of turns.
pub data Turns (l : Life) : Life → Type 0 where
  same : Turns l l
  later : {m n : Life} → Turns l m → Turn m n → Turns l n

abbrev pub HasStatus : Status → Option Row → Type 0
HasStatus st r = (row : Row) × (r ≡ some row) × (row Column.status ≡ Value.int (status_to_i32 st))

-- Where a request is, from its row and from how often it is in the server: up to the mark of its
-- witness, from there to its proof, and being given up.
pub record Tally : Type 0 where
  pub early : ℕ
  pub late : ℕ
  pub stopped : ℕ

abbrev pub At : Life → Tally → Option Row → Type 0
At absent c r = (c.early ≡ 0) × (c.late ≡ 0) × (c.stopped ≡ 0) × (r ≡ none)
At waiting c r = (c.early ≡ 1) × (c.late ≡ 0) × (c.stopped ≡ 0) × HasStatus pending r
At proving c r = (c.early ≡ 0) × (c.late ≡ 1) × (c.stopped ≡ 0) × HasStatus witness_generated r
At (stopping st) c r = (c.early ≡ 0) × (c.late ≡ 0) × (c.stopped ≡ 1) × HasStatus st r
At (ended st) c r = (c.early ≡ 0) × (c.late ≡ 0) × (c.stopped ≡ 0) × HasStatus st r

-- A request is dropped, or left unmarked, only by a cause `X`.
abbrev pub Caused : Type 0 → {m n : Life} → Turn m n → Type 0
Caused X drop = X
Caused X (leave st) = X
Caused X _ = Unit {0}

-- A turn or none, and where the request is then.
abbrev pub Next : Type 0 → Life → Tally → Option Row → Type 0
Next X m c r = (n : Life) × ((n ≡ m) ⊎ ((turn : Turn m n) × Caused X turn)) × At n c r
