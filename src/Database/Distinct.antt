-- ===== src/Database/Distinct.antt =====
-- Tables of src/db in which no two rows are of one request.
use tee_prover_server.Prelude.{◌≡◌, ==_iff, true, false, Bool-cases, ◌++◌, map, arith}
use tee_prover_server.Prelude.{List, [], ◌∷◌}
use tee_prover_server.Prelude.{inl, inr}
use tee_prover_server.Store.{Uuid}
use tee_prover_server.Database.{Column, Value, Assignments, Row, is_of, is_uuid, Lacks, change}
use tee_prover_server.Database.Rows.{KeepsKey}

-- At most one row for a request.
abbrev pub Distinct : List Row → Type 0
Distinct [] = Unit {0}
Distinct (row ∷ rows) = ((u : Uuid) → is_of u row ≡ true → Lacks u rows) × Distinct rows

Lacks-change :
    (cs : Assignments) (u w : Uuid) (rows : List Row)
    → KeepsKey cs
    → Lacks w rows
    → Lacks w (map (change cs u) rows)
Lacks-change cs u w [] keeps h = tt
Lacks-change cs u w (row ∷ rows) keeps h =
    (ground (arith, keeps row, h.0), Lacks-change cs u w rows keeps h.1)

pub map-change-Distinct :
    (cs : Assignments) (u : Uuid) (rows : List Row)
    → KeepsKey cs
    → Distinct rows
    → Distinct (map (change cs u) rows)
map-change-Distinct cs u [] keeps h = tt
map-change-Distinct cs u (row ∷ rows) keeps h = (
  λ w mine. Lacks-change cs u w rows keeps (h.0 w (ground (arith, keeps row))),
  map-change-Distinct cs u rows keeps h.1,
)

Lacks-append :
    (w : Uuid) (rows : List Row) (made : Row)
    → Lacks w rows
    → is_of w made ≡ false
    → Lacks w (rows ++ (made ∷ []))
Lacks-append w [] made h other = (other, tt)
Lacks-append w (row ∷ rows) made h other = (h.0, Lacks-append w rows made h.1 other)

is_uuid-eq : (u w : Uuid) (x : Value) → x ≡ Value.uuid u → is_uuid w x ≡ true → u ≡ w
is_uuid-eq u w x e h = ground (arith, ==_iff u w)

pub append-Distinct :
    (u : Uuid) (made : Row) (rows : List Row)
    → made Column.request_id ≡ Value.uuid u
    → Lacks u rows
    → Distinct rows
    → Distinct (rows ++ (made ∷ []))
append-Distinct u made [] key fresh h = (λ w mine. tt, tt)
append-Distinct u made (row ∷ rows) key fresh h = (
  λ w mine. Lacks-append w rows made (h.0 w mine) (elim (Bool-cases (is_of w made)) [
    | inr other ↦ other
    | inl both ↦
        let same : u ≡ w = is_uuid-eq u w (made Column.request_id) key both in
        absurd (ground (arith, fresh.0))
  ]),
  append-Distinct u made rows key fresh.1 h.1,
)
