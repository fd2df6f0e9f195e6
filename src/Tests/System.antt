-- ===== src/Tests/System.antt =====
-- A concrete database and operating system that meet what the model assumes of them.
use tee_prover_server.Prelude.{ℕ, ◌≡◌, refl, ◌++◌, ◌&&◌, Bool, true, false, Text, Bytes, codes}
use tee_prover_server.Prelude.{
  length, take, List, [], ◌∷◌, map, Option, none, some, Result, ok, err,
}
use tee_prover_server.Prelude.{arith, if◌then◌else◌, Bool-cases, inl, inr}
use tee_prover_server.Prelude.Dict.{lookup, has, remove}
use tee_prover_server.Store.{Uuid}
use tee_prover_server.Os.{Os, Output}
use tee_prover_server.Database.{
  Column, Value, Assignments, Row, Statement, insert, update, new_row, is_of, Lacks, change,
  names_column, Known, Postgres, IsPostgres,
}

abbrev lacks : Uuid → List Row → Bool
lacks u [] = true
lacks u (row ∷ rows) = if is_of u row then false else lacks u rows

abbrev known : List Column → Assignments → Bool
known schema [] = true
known schema ((c, v) ∷ cs) = if names_column c schema then known schema cs else false

lacks_sound : (u : Uuid) (rows : List Row) → lacks u rows ≡ true → Lacks u rows
lacks_sound u [] h = tt
lacks_sound u (row ∷ rows) h = ground (arith, lacks_sound u rows)

known_sound : (schema : List Column) (cs : Assignments) → known schema cs ≡ true → Known schema cs
known_sound schema [] h = tt
known_sound schema ((c, v) ∷ cs) h = ground (arith, known_sound schema cs)

abbrev insertable : List Column → Assignments → List Row → Value → Bool
insertable schema cs rows (Value.uuid u) = known schema cs && lacks u rows
insertable schema cs rows _ = false

abbrev run_statement : List Column → Statement → List Row → Result (Unit {0}) Text × List Row
run_statement schema (insert cs) rows =
    if insertable schema cs rows (new_row cs Column.request_id)
    then (ok tt, rows ++ (new_row cs ∷ []))
    else (err (codes "refused"), rows)
run_statement schema (update cs u) rows = (ok tt, map (change cs u) rows)

abbrev pub list_postgres : List Column → Postgres
list_postgres schema = record { State = List Row; execute = run_statement schema; rows = λ s. s }

inserted :
    (schema : List Column) (cs : Assignments) (s : List Row) (u : Uuid)
    → (run_statement schema (insert cs) s).0 ≡ ok tt
    → new_row cs Column.request_id ≡ Value.uuid u
    → Known schema cs
      × Lacks u s
      × ((run_statement schema (insert cs) s).1 ≡ s ++ (new_row cs ∷ []))
inserted schema cs s u done key = elim (Bool-cases (known schema cs)) [
  | inr strange ↦ absurd (ground arith)
  | inl fits ↦ elim (Bool-cases (lacks u s)) [
    | inr there ↦ absurd (ground arith)
    | inl fresh ↦ (known_sound schema cs fits, lacks_sound u s fresh, rw (key, fits, fresh))
  ]
]

refused :
    (schema : List Column) (q : Statement) (s : List Row) (e : Text)
    → (run_statement schema q s).0 ≡ err e
    → (run_statement schema q s).1 ≡ s
refused schema (insert cs) s e h = ground arith
refused schema (update cs u) s e h = absurd (ground arith)

pub list_postgres-IsPostgres : (schema : List Column) → IsPostgres (list_postgres schema) schema
list_postgres-IsPostgres schema = record {
  execute-insert = inserted schema;
  execute-update = λ cs u s h. refl;
  execute_err = refused schema;
}

-- The columns that the statements of the program name.
abbrev pub all_columns : List Column
all_columns =
    Column.request_id ∷ Column.proof_type ∷ Column.status ∷ Column.circuit_name ∷ Column.onchain
    ∷ Column.created_at ∷ Column.witness_generated_at ∷ Column.proof_generated_at ∷ Column.proof
    ∷ Column.endpoint_type ∷ Column.endpoint ∷ Column.public_inputs ∷ Column.reason ∷ Column.version
    ∷ Column.user_defined_data ∷ Column.self_defined_data ∷ []

-- Files by path; a write takes at most `limit` bytes, and every command answers alike.
module _ (limit : ℕ) (answer : Output) where
  abbrev Files : Type 0
  Files = List (Text × Bytes)

  abbrev or_empty : Option Bytes → Bytes
  or_empty none = []
  or_empty (some bytes) = bytes

  abbrev or_error : Option Bytes → Result Text Text
  or_error none = err (codes "no such file")
  or_error (some bytes) = ok bytes

  abbrev pub list_os : Os
  list_os = record {
    State = Files;
    exists = λ p s. has p s;
    read_to_string = λ p s. or_error (lookup p s);
    create_dir_all = λ p s. (ok tt, s);
    remove_dir_all = λ p s. (ok tt, s);
    create = λ p s. (ok tt, (p, []) ∷ remove p s);
    write = λ p bytes s. (
      ok (length (take limit bytes)),
      (p, or_empty (lookup p s) ++ take limit bytes) ∷ remove p s,
    );
    command = λ program arguments s. (ok answer, s);
  }
