-- ===== src/Tests/DataRuns.antt =====
-- The theorems on src/db/mod.rs and src/types.rs at concrete data.
use tee_prover_server.Prelude.{Bytes, ◌↔◌, ℕ, ◌≡◌, ◌+◌, ◌<◌, ◌≤◌, ◌^◌, true, Text, codes}
use tee_prover_server.Prelude.{List, [], ◌∷◌, none, some, Result, ok, err, arith}
use tee_prover_server.Types.{pos, negsuc, ProofType, EndpointType, as_i32, to_i32, try_from}
use tee_prover_server.Types.Codes
use tee_prover_server.Store.{Uuid}
use tee_prover_server.Os.{Os}
use tee_prover_server.Database.{Proof, Row, created_columns, new_row, Postgres}
use tee_prover_server.Database.Distinct.{Distinct}
use tee_prover_server.Database.History
use tee_prover_server.Tests.System.{list_postgres, list_postgres-IsPostgres, all_columns, list_os}

try_from_iff_example :
    (try_from (pos 2) ≡ some ProofType.disclose) ↔ (to_i32 ProofType.disclose ≡ pos 2)
try_from_iff_example = Codes.try_from_iff (pos 2) ProofType.disclose

as_i32_lem_example :
    (3 < 2 ^ 31 → as_i32 3 ≡ pos 3)
    × (2 ^ 31 ≤ 3 → (n : ℕ) × (as_i32 3 ≡ negsuc n) × (3 + (n + 1) ≡ 2 ^ 32))
as_i32_lem_example = Codes.as_i32_lem 3 (omega arith)

abbrev plain : EndpointType → Text
plain e = codes "celo"

abbrev db : Postgres
db = list_postgres all_columns

abbrev row : Row
row = new_row (created_columns plain 9 ProofType.dsc (codes "d") true none none (pos 0) [] [] 100)

abbrev os : Os
os = list_os 5 (record { success = true; stderr = [] })

abbrev parse_proof : Text → Result Proof Text
parse_proof t = err (codes "bad proof")

abbrev parse_inputs : Text → Result (List Text) Text
parse_inputs t = ok []

abbrev uuid_to_string : Uuid → Text
uuid_to_string u = u ∷ []

abbrev calls : List (History.Call (List (Text × Bytes)))
calls =
    History.Call.witness 9 101
    ∷ History.Call.create 9 ProofType.dsc (codes "d") true none none (pos 0) [] [] 102
    ∷ History.Call.finish 9 [] 103
    ∷ History.Call.fail 9 (codes "bad proof")
    ∷ []

abbrev ran : List Row
ran = History.apply_all db os plain parse_proof parse_inputs uuid_to_string (row ∷ []) calls

apply_all-Keeps_example : History.Keeps (row ∷ []) ran
apply_all-Keeps_example =
    History.apply_all-Keeps db os plain parse_proof parse_inputs uuid_to_string
      (list_postgres-IsPostgres all_columns) (row ∷ []) calls

apply_all-Distinct_example : Distinct ran
apply_all-Distinct_example =
    History.apply_all-Distinct db os plain parse_proof parse_inputs uuid_to_string
      (list_postgres-IsPostgres all_columns) (row ∷ []) calls (λ u h. tt, tt)
