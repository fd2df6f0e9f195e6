-- ===== src/Server/Recorded.antt =====
-- What the table of setup.sql shows of a request that src/server.rs has recorded, as a description
-- of the row that does not go through the statement.
use mathlib.Core.Option
use tee_prover_server.Prelude.{ℕ, suc, ◌≡◌, refl, ap, ◌<◌, ◌≤◌, ◌+◌, ◌^◌, ==_iff, Text, some, arith}
use tee_prover_server.Prelude.{[]}
use tee_prover_server.Types.{
  pos, negsuc, Circuit, EndpointType, ProofRequest, SubmitRequest, circuit, proof_type, to_i32,
  as_i32,
}
use tee_prover_server.Store.{Uuid}
use tee_prover_server.Database.{
  Column, Value, Row, created_columns, status_to_i32, optional_text, optional_type,
}
use tee_prover_server.Database.Rows.{find_row, find_row-append}
use tee_prover_server.Server.Env.{Env, RpcServerImpl}
use tee_prover_server.Server.Submit.Endpoint.{endpoint_of}
use tee_prover_server.Server.Submit.Enqueue.{rows, row_of, IsRecorded}

-- The cells that every kind of request fills.
abbrev pub Shown : Row → ℕ → Circuit → Value → Value → Type 0
Shown row kind c kind_of_endpoint place =
    (row Column.proof_type ≡ Value.int (pos kind))
    × (row Column.circuit_name ≡ Value.text c.name)
    × (row Column.endpoint_type ≡ kind_of_endpoint)
    × (row Column.endpoint ≡ place)

-- A request that discloses nothing has an endpoint or none, empty data and version 1.
abbrev pub Plain : Row → Type 0
Plain row =
    (row Column.user_defined_data ≡ Value.text [])
    × (row Column.self_defined_data ≡ Value.text [])
    × (row Column.version ≡ Value.int (pos 1))

-- A disclosure has the data of the user, its own, and a version: below 2^31 as it is, from there on
-- less 2^32.
abbrev pub Disclosed : Row → Text → Text → ℕ → Type 0
Disclosed row user own v =
    (row Column.user_defined_data ≡ Value.text user)
    × (row Column.self_defined_data ≡ Value.text own)
    × (v < 2 ^ 31 → row Column.version ≡ Value.int (pos v))
    × ((n : ℕ) → 2 ^ 31 ≤ v → v + suc n ≡ 2 ^ 32 → row Column.version ≡ Value.int (negsuc n))

module _ (plain : EndpointType → Text) (row : Row) where
  -- The cells that depend on the kind of the request.
  abbrev pub ShowsKind : ProofRequest → Type 0
  ShowsKind (ProofRequest.register c t e) =
      Shown row 0 c (optional_type plain t) (optional_text e) × Plain row
  ShowsKind (ProofRequest.dsc c t e) =
      Shown row 1 c (optional_type plain t) (optional_text e) × Plain row
  ShowsKind (ProofRequest.disclose c t e user own v) =
      Shown row 2 c (Value.text (plain t)) (Value.text e) × Disclosed row user own v
  ShowsKind (ProofRequest.register_id c t e) =
      Shown row 3 c (optional_type plain t) (optional_text e) × Plain row
  ShowsKind (ProofRequest.dsc_id c t e) =
      Shown row 4 c (optional_type plain t) (optional_text e) × Plain row
  ShowsKind (ProofRequest.disclose_id c t e user own v) =
      Shown row 5 c (Value.text (plain t)) (Value.text e) × Disclosed row user own v
  ShowsKind (ProofRequest.register_aadhaar c t e) =
      Shown row 6 c (optional_type plain t) (optional_text e) × Plain row
  ShowsKind (ProofRequest.disclose_aadhaar c t e user own v) =
      Shown row 7 c (Value.text (plain t)) (Value.text e) × Disclosed row user own v
  ShowsKind (ProofRequest.register_kyc c t e) =
      Shown row 8 c (optional_type plain t) (optional_text e) × Plain row
  ShowsKind (ProofRequest.disclose_kyc c t e user own v) =
      Shown row 9 c (Value.text (plain t)) (Value.text e) × Disclosed row user own v

-- What the row of a request shows before the pipeline has looked at it: pending, and without a proof.
pub record IsShown (E : Env) (uuid : Uuid) (r : SubmitRequest) (now : ℕ) (row : Row) : Type 0 where
  pub request_id : row Column.request_id ≡ Value.uuid uuid
  pub status : row Column.status ≡ Value.int (pos 0)
  pub created_at : row Column.created_at ≡ Value.time now
  pub onchain : row Column.onchain ≡ Value.flag r.onchain
  pub kind : ShowsKind E.plain row r.proof_request_type
  pub proof : row Column.proof ≡ Value.null
  pub reason : row Column.reason ≡ Value.null

as_i32-low : (v : ℕ) → v < 2 ^ 31 → Value.int (as_i32 v) ≡ Value.int (pos v)
unfolding as_i32
as_i32-low v h = ap Value.int (ground arith)

as_i32-high :
    (v n : ℕ) → 2 ^ 31 ≤ v → v + suc n ≡ 2 ^ 32 → Value.int (as_i32 v) ≡ Value.int (negsuc n)
unfolding as_i32
as_i32-high v n h e = ap Value.int (ground arith)

module _ (E : Env) (uuid : Uuid) (now : ℕ) where
  row_of-ShowsKind :
      (on_chain : _) (p : ProofRequest)
      → ShowsKind E.plain
          (row_of E uuid (record { onchain = on_chain; proof_request_type = p }) now)
          p
  unfolding created_columns endpoint_of proof_type circuit to_i32
  row_of-ShowsKind b (ProofRequest.register c t e) = ((refl, refl, refl, refl), (refl, refl, refl))
  row_of-ShowsKind b (ProofRequest.dsc c t e) = ((refl, refl, refl, refl), (refl, refl, refl))
  row_of-ShowsKind b (ProofRequest.disclose c t e user own v) =
      ((refl, refl, refl, refl), (refl, refl, as_i32-low v, as_i32-high v))
  row_of-ShowsKind b (ProofRequest.register_id c t e) =
      ((refl, refl, refl, refl), (refl, refl, refl))
  row_of-ShowsKind b (ProofRequest.dsc_id c t e) = ((refl, refl, refl, refl), (refl, refl, refl))
  row_of-ShowsKind b (ProofRequest.disclose_id c t e user own v) =
      ((refl, refl, refl, refl), (refl, refl, as_i32-low v, as_i32-high v))
  row_of-ShowsKind b (ProofRequest.register_aadhaar c t e) =
      ((refl, refl, refl, refl), (refl, refl, refl))
  row_of-ShowsKind b (ProofRequest.disclose_aadhaar c t e user own v) =
      ((refl, refl, refl, refl), (refl, refl, as_i32-low v, as_i32-high v))
  row_of-ShowsKind b (ProofRequest.register_kyc c t e) =
      ((refl, refl, refl, refl), (refl, refl, refl))
  row_of-ShowsKind b (ProofRequest.disclose_kyc c t e user own v) =
      ((refl, refl, refl, refl), (refl, refl, as_i32-low v, as_i32-high v))

  row_of-IsShown : (r : SubmitRequest) → IsShown E uuid r now (row_of E uuid r now)
  unfolding created_columns status_to_i32
  row_of-IsShown r = record {
    request_id = refl;
    status = refl;
    created_at = refl;
    onchain = refl;
    kind = row_of-ShowsKind r.onchain r.proof_request_type;
    proof = refl;
    reason = refl;
  }

  -- The row that the table has under a recorded request's identifier.
  pub IsRecorded-IsShown :
      (r : SubmitRequest) (s s' : RpcServerImpl E)
      → IsRecorded E uuid r now s s'
      → (row : Row) × (find_row uuid (rows E s') ≡ some row) × IsShown E uuid r now row
  unfolding created_columns Option.or_else
  IsRecorded-IsShown r s s' h = (
    row_of E uuid r now,
    rw (h.added, find_row-append uuid (rows E s) (row_of E uuid r now), h.fresh)
        (rw ((==_iff uuid uuid).1 refl) refl),
    row_of-IsShown r,
  )
