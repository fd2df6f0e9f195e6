-- ===== src/Database.antt =====
-- src/db/mod.rs and src/db/types.rs: the statements that the program runs on the table `proofs`.
-- The database is a parameter, which does what PostgreSQL documents of these statements.
pub mod Rows
pub mod Schema
pub mod Distinct
pub mod History
pub mod Notify
use tee_prover_server.Prelude.{ℕ, ◌≡◌, ◌==◌, Bool, true, false, Text, codes, ◌++◌, map}
use tee_prover_server.Prelude.{
  List, [], ◌∷◌, Option, none, some, Result, ok, err, map_err, ◌>>=◌, if◌then◌else◌,
}
use tee_prover_server.Types.{ℤ, pos, EndpointType, ProofType, to_i32}
use tee_prover_server.Store.{Uuid}
use tee_prover_server.Paths.{join, get_tmp_folder_path}
use tee_prover_server.Os.{Os}

-- `db::types::Status`, with the source's spelling.
pub data Status : Type 0 where
  pending witness_generated proof_genererated failed : Status

-- `Into<i32> for Status`
unfoldable pub status_to_i32 : Status → ℤ
status_to_i32 pending = pos 0
status_to_i32 witness_generated = pos 1
status_to_i32 proof_genererated = pos 2
status_to_i32 failed = pos 3

-- `Proof`
pub record Proof : Type 0 where
  pub pi_a : List Text
  pub pi_b : List (List Text)
  pub pi_c : List Text
  pub protocol : Text

-- The columns that the statements and the schema name.
pub data Column : Type 0 where
  request_id proof_type status circuit_name onchain created_at witness_generated_at : Column
  proof_generated_at proof endpoint_type endpoint public_inputs reason identifier : Column
  version user_defined_data self_defined_data : Column

-- What is bound to a column.
pub data Value : Type 0 where
  null : Value
  int : ℤ → Value
  uuid : Uuid → Value
  time : ℕ → Value
  text : Text → Value
  flag : Bool → Value
  json : Proof → Value
  texts : List Text → Value

abbrev pub Assignments : Type 0
Assignments = List (Column × Value)

abbrev pub Row : Type 0
Row = Column → Value

-- `INSERT INTO proofs (columns) VALUES (values)`, and
-- `UPDATE proofs SET column = value, ... WHERE request_id = uuid`.
pub data Statement : Type 0 where
  insert : Assignments → Statement
  update : Assignments → Uuid → Statement

abbrev pub column_index : Column → ℕ
column_index request_id = 0
column_index proof_type = 1
column_index status = 2
column_index circuit_name = 3
column_index onchain = 4
column_index created_at = 5
column_index witness_generated_at = 6
column_index proof_generated_at = 7
column_index proof = 8
column_index endpoint_type = 9
column_index endpoint = 10
column_index public_inputs = 11
column_index reason = 12
column_index identifier = 13
column_index version = 14
column_index user_defined_data = 15
column_index self_defined_data = 16

-- A row after an assignment to some of its columns.
abbrev pub assign : Assignments → Row → Row
assign [] row c = row c
assign ((d, v) ∷ cs) row c = if column_index d == column_index c then v else assign cs row c

-- The row of an insertion: a column that it does not name is `NULL`.
abbrev pub new_row : Assignments → Row
new_row cs = assign cs (λ c. null)

abbrev pub is_uuid : Uuid → Value → Bool
is_uuid u (uuid v) = v == u
is_uuid u _ = false

-- Whether a row is that of a request.
abbrev pub is_of : Uuid → Row → Bool
is_of u row = is_uuid u (row request_id)

-- No row is that of the request.
abbrev pub Lacks : Uuid → List Row → Type 0
Lacks u [] = Unit {0}
Lacks u (row ∷ rows) = (is_of u row ≡ false) × Lacks u rows

abbrev pub change : Assignments → Uuid → Row → Row
change cs u row = if is_of u row then assign cs row else row

abbrev pub names_column : Column → List Column → Bool
names_column c [] = false
names_column c (d ∷ ds) = if column_index d == column_index c then true else names_column c ds

-- Every column of a statement is one of the table's.
abbrev pub Known : List Column → Assignments → Type 0
Known schema [] = Unit {0}
Known schema ((c, v) ∷ cs) = (names_column c schema ≡ true) × Known schema cs

-- `sqlx::Pool<sqlx::Postgres>`: `execute` runs a statement, and `rows` is what the table holds. An
-- error is the text that it is shown as.
pub record Postgres : Type 1 where
  pub State : Type 0
  pub execute : Statement → State → Result (Unit {0}) Text × State
  pub rows : State → List Row

-- What PostgreSQL documents of these, for a table with the given columns and with `request_id` as
-- the primary key: a statement that succeeds names columns of the table only, keeps the key unique
-- and does what it says; a statement that fails does nothing. An error is taken to come from there:
-- a statement that is committed, and whose acknowledgement is lost, is left out.
pub record IsPostgres (P : Postgres) (schema : List Column) : Type 0 where
  pub execute-insert :
      (cs : Assignments) (s : P.State) (u : Uuid)
      → (P.execute (insert cs) s).0 ≡ ok tt
      → new_row cs request_id ≡ uuid u
      → Known schema cs
        × Lacks u (P.rows s)
        × (P.rows (P.execute (insert cs) s).1 ≡ P.rows s ++ (new_row cs ∷ []))
  pub execute-update :
      (cs : Assignments) (u : Uuid) (s : P.State)
      → (P.execute (update cs u) s).0 ≡ ok tt
      → P.rows (P.execute (update cs u) s).1 ≡ map (change cs u) (P.rows s)
  pub execute_err :
      (q : Statement) (s : P.State) (e : Text)
      → (P.execute q s).0 ≡ err e
      → P.rows (P.execute q s).1 ≡ P.rows s

abbrev pub optional_text : Option Text → Value
optional_text none = null
optional_text (some t) = text t

-- `e` is the plain text of an endpoint type (`serde_plain::to_string`).
abbrev pub optional_type : (EndpointType → Text) → Option EndpointType → Value
optional_type plain none = null
optional_type plain (some e) = text (plain e)

-- The columns of `create_proof_status`, each with what is bound to it; `now` is `Utc::now()`.
unfoldable pub created_columns :
    (EndpointType → Text)
    → Uuid
    → ProofType
    → Text
    → Bool
    → Option EndpointType
    → Option Text
    → ℤ
    → Text
    → Text
    → ℕ
    → Assignments
created_columns plain u kind name on_chain kind_of_endpoint place v user own now =
    (proof_type, int (to_i32 kind))
    ∷ (request_id, uuid u)
    ∷ (status, int (status_to_i32 pending))
    ∷ (created_at, time now)
    ∷ (circuit_name, text name)
    ∷ (onchain, flag on_chain)
    ∷ (endpoint_type, optional_type plain kind_of_endpoint)
    ∷ (endpoint, optional_text place)
    ∷ (version, int v)
    ∷ (user_defined_data, text user)
    ∷ (self_defined_data, text own)
    ∷ []

module _ (P : Postgres) where
  -- `create_proof_status`: any error of the database is shown as one text.
  unfoldable pub create_proof_status :
      (EndpointType → Text)
      → Uuid
      → ProofType
      → Text
      → Bool
      → Option EndpointType
      → Option Text
      → ℤ
      → Text
      → Text
      → ℕ
      → P.State
      → Result (Unit {0}) Text × P.State
  create_proof_status plain u kind name on_chain kind_of_endpoint place v user own now s =
      let columns =
        created_columns plain u kind name on_chain kind_of_endpoint place v user own now in
      let (done, s') = P.execute (insert columns) s in
      (map_err (λ _. codes "Could not create the record") done, s')

  -- `set_witness_generated`
  unfoldable pub set_witness_generated : Uuid → ℕ → P.State → Result (Unit {0}) Text × P.State
  set_witness_generated u now = P.execute (
      update
        ((status, int (status_to_i32 witness_generated)) ∷ (witness_generated_at, time now) ∷ []) u)

  -- `fail_proof`
  unfoldable pub fail_proof : Uuid → Text → P.State → Result (Unit {0}) Text × P.State
  fail_proof u why =
      P.execute (update ((status, int (status_to_i32 failed)) ∷ (reason, text why) ∷ []) u)

-- The files that `update_proof` reads. `parse_proof` and `parse_inputs` are `serde_json`'s reading
-- of a `Proof` and of a `PublicInputs`; an error is the text that it is shown as.
module _ (O : Os) (parse_proof : Text → Result Proof Text)
    (parse_inputs : Text → Result (List Text) Text) (uuid_string : Text) (os : O.State) where
  abbrev proof_path : Text
  proof_path = join (get_tmp_folder_path uuid_string) (codes "proof.json")

  abbrev inputs_path : Text
  inputs_path = join (get_tmp_folder_path uuid_string) (codes "public_inputs.json")

  unfoldable pub read_results : Result (Proof × List Text) Text
  read_results = do
    proof_string ←
        map_err (λ _. codes "Could not read proof from path: " ++ proof_path)
          (O.read_to_string proof_path os)
    inputs_string ←
        map_err (λ _. codes "Could not read public inputs from path: " ++ inputs_path)
          (O.read_to_string inputs_path os)
    parsed ← map_err (λ e. codes "Could not deserialize proof: " ++ e) (parse_proof proof_string)
    inputs ←
        map_err (λ e. codes "Could not deserialize public inputs: " ++ e)
          (parse_inputs inputs_string)
    ok (parsed, inputs)

  module _ (P : Postgres) where
    -- `update_proof`
    unfoldable pub update_proof : Uuid → ℕ → P.State → Result (Unit {0}) Text × P.State
    update_proof u now s = elim read_results [
      | err e ↦ (err e, s)
      | ok (parsed, inputs) ↦
          let (done, s') =
            P.execute
              (update
                ((proof, json parsed)
                  ∷ (status, int (status_to_i32 proof_genererated))
                  ∷ (proof_generated_at, time now)
                  ∷ (public_inputs, texts inputs)
                  ∷ [])
                u)
              s in
          (map_err (λ e. codes "Could not update proof: " ++ e) done, s')
    ]
