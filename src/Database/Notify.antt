-- ===== src/Database/Notify.antt =====
-- The triggers of setup.sql on the table `proofs`, and what they tell those who listen.
use tee_prover_server.Prelude.{
  ◌==◌, Bool, true, false, not, Text, codes, List, [], ◌∷◌, Option, none, some, if◌then◌else◌,
}
use tee_prover_server.Prelude.Dict.{lookup}
use tee_prover_server.Prelude.Panics.{◌>>=◌}
use tee_prover_server.Types.{ℤ, pos, negsuc}
use tee_prover_server.Database.{Column, Value, Row, int}

-- A row for which a trigger is called: `TG_OP`, with `OLD` and `NEW`.
pub data Fired : Type 0 where
  insert : Row → Fired
  update : Row → Row → Fired

-- A `SMALLINT` column holds a number or `NULL`.
abbrev pub smallint : Value → Option ℤ
smallint (int n) = some n
smallint _ = none

abbrev same_int : ℤ → ℤ → Bool
same_int (pos m) (pos n) = m == n
same_int (negsuc m) (negsuc n) = m == n
same_int _ _ = false

-- `IS DISTINCT FROM`
abbrev pub is_distinct_from : Option ℤ → Option ℤ → Bool
is_distinct_from none none = false
is_distinct_from (some m) (some n) = not (same_int m n)
is_distinct_from _ _ = true

abbrev pub Payload : Type 0
Payload = List (Text × Value)

-- `notification_payload`
abbrev pub notification_payload : Row → Payload
notification_payload new =
    (codes "request_id", new Column.request_id)
    ∷ (codes "proof_type", new Column.proof_type)
    ∷ (codes "status", new Column.status)
    ∷ (codes "created_at", new Column.created_at)
    ∷ (codes "circuit_name", new Column.circuit_name)
    ∷ (codes "onchain", new Column.onchain)
    ∷ (codes "witness_generated_at", new Column.witness_generated_at)
    ∷ (codes "proof_generated_at", new Column.proof_generated_at)
    ∷ (codes "proof", new Column.proof)
    ∷ (codes "endpoint_type", new Column.endpoint_type)
    ∷ (codes "endpoint", new Column.endpoint)
    ∷ (codes "public_inputs", new Column.public_inputs)
    ∷ (codes "reason", new Column.reason)
    ∷ (codes "identifier", new Column.identifier)
    ∷ []

-- `status_update_notify()`: what it sends by `pg_notify`, if anything.
unfoldable pub status_update_notify : Fired → Option Payload
status_update_notify (insert new) = some (notification_payload new)
status_update_notify (update old new) =
    if is_distinct_from (smallint (new Column.status)) (smallint (old Column.status))
    then some (notification_payload new)
    else none

-- The triggers `AFTER INSERT` and `AFTER UPDATE`, from the row of a request before and after. A row
-- that no statement wrote is as it was, and the function would tell nothing of it.
abbrev pub fired : Option Row → Option Row → Option Fired
fired none (some new) = some (insert new)
fired (some old) (some new) = some (update old new)
fired _ none = none

abbrev pub notified : Option Row → Option Row → Option Payload
notified before after = do f ← fired before after; status_update_notify f

-- The status that a listener reads there.
abbrev pub announced : Option Row → Option Row → Option Value
announced before after = do payload ← notified before after; lookup (codes "status") payload
