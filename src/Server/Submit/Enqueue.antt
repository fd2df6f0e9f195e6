-- ===== src/Server/Submit/Enqueue.antt =====
-- How `submit_request` of src/server.rs records an accepted request and hands it to the pipeline.
use tee_prover_server.Prelude.{ℕ, ◌≡◌, refl, ◌++◌, Text, List, [], ◌∷◌, none, Result, ok, err}
use tee_prover_server.Prelude.{codes, true, Result-cases, Bool-cases, inl, inr, arith}
use tee_prover_server.Prelude.Dict
use tee_prover_server.Prelude.Dict.{lookup}
use tee_prover_server.Prelude.{text_eq_iff}
use tee_prover_server.Types.{SubmitRequest, circuit, proof_type}
use tee_prover_server.Store
use tee_prover_server.Store.{Uuid, IsLru}
use tee_prover_server.Database
use tee_prover_server.Database.{Column, Row, Postgres, IsPostgres, new_row, created_columns}
use tee_prover_server.Database.Rows.{find_row, create_proof_status_lem}
use tee_prover_server.Generators.{FileGenerator}
use tee_prover_server.Server.Env.{
  Env, RpcServerImpl, Exit, IsMpsc, internal_error, error, remove_agreement,
}
use tee_prover_server.Server.Submit.{enqueue}
use tee_prover_server.Server.Submit.Endpoint.{endpoint_of}
use tee_prover_server.Server.Submit.Verdict.{agreements}

module _ (E : Env) where
  abbrev pub rows : RpcServerImpl E → List Row
  rows s = E.postgres.rows s.db

  -- The requests that wait for the pipeline.
  abbrev pub jobs : RpcServerImpl E → List FileGenerator
  jobs s = E.mpsc.items s.file_generator_sender

  abbrev pub job_of : Uuid → SubmitRequest → FileGenerator
  job_of uuid r = record { uuid = uuid; proof_request = r.proof_request_type }

  abbrev pub row_of : Uuid → SubmitRequest → ℕ → Row
  row_of uuid r now =
      let p = r.proof_request_type in
      let e = endpoint_of p in
      new_row (
        created_columns E.plain uuid (proof_type p) (circuit p).name r.onchain e.endpoint_type
          e.endpoint e.version e.user_defined_data e.self_defined_data now)

  -- What the external parts of the server do.
  pub record IsLawful (schema : List Column) : Type 0 where
    pub lru : IsLru E.lru
    pub postgres : IsPostgres E.postgres schema
    pub mpsc : IsMpsc E.mpsc

  -- The session is gone, and the circuits are as they were.
  pub record IsReleased (uuid : Uuid) (s s' : RpcServerImpl E) : Type 0 where
    pub gone : lookup (E.uuid_to_string uuid) (agreements E s') ≡ none
    pub zkeys : s'.circuit_zkey_map ≡ s.circuit_zkey_map

  -- The database's answer to the record of a request.
  abbrev pub answer :
      Uuid → SubmitRequest → ℕ → RpcServerImpl E → Result (Unit {0}) Text × E.postgres.State
  answer uuid r now s =
      let p = r.proof_request_type in
      let e = endpoint_of p in
      Database.create_proof_status E.postgres E.plain uuid (proof_type p) (circuit p).name r.onchain
        e.endpoint_type e.endpoint e.version e.user_defined_data e.self_defined_data now s.db

  -- The request is recorded under an identifier that had no row.
  pub record IsRecorded (uuid : Uuid) (r : SubmitRequest) (now : ℕ) (s s' : RpcServerImpl E)
      : Type 0 where
    pub taken : (answer uuid r now s).0 ≡ ok tt
    pub fresh : find_row uuid (rows s) ≡ none
    pub added : rows s' ≡ rows s ++ (row_of uuid r now ∷ [])

  -- How the hand-over ends: with the row and the job; with the row alone, where the pipeline is
  -- gone; or with neither, where the database refuses.
  pub data Enqueued (uuid : Uuid) (r : SubmitRequest) (now : ℕ) (s s' : RpcServerImpl E)
      (reply : Result Text Exit) : Type 0 where
    handed_over :
        reply ≡ ok (E.uuid_to_string uuid)
        → IsRecorded uuid r now s s'
        → jobs s' ≡ jobs s ++ (job_of uuid r ∷ [])
        → Enqueued uuid r now s s' reply
    stranded :
        (e : Text)
        → E.mpsc.closed s.file_generator_sender ≡ true
        → reply ≡ err (error internal_error e)
        → IsRecorded uuid r now s s'
        → jobs s' ≡ jobs s
        → Enqueued uuid r now s s' reply
    refused :
        reply ≡ err (error internal_error (codes "Could not create the record"))
        → rows s' ≡ rows s
        → jobs s' ≡ jobs s
        → Enqueued uuid r now s s' reply

  lookup-removed :
      IsLru E.lru
      → (uuid : Uuid) (s : RpcServerImpl E)
      → lookup (E.uuid_to_string uuid) (agreements E (remove_agreement E uuid s).1) ≡ none
  unfolding remove_agreement Store.remove_agreement
  lookup-removed laws uuid s =
      let k = E.uuid_to_string uuid in
      rw laws.entries-pop (ground (arith, Dict.lookup-remove k k (agreements E s), text_eq_iff k k))

  pub released :
      IsLru E.lru
      → (uuid : Uuid) (s t : RpcServerImpl E) → t.circuit_zkey_map ≡ s.circuit_zkey_map
      → IsReleased uuid s (remove_agreement E uuid t).1
  released laws uuid s t same = record {
    gone = lookup-removed laws uuid t;
    zkeys = unfold remove_agreement in same;
  }

  abbrev sent : Uuid → SubmitRequest → RpcServerImpl E → Result (Unit {0}) Text × E.mpsc.Channel
  sent uuid r s = E.mpsc.send (job_of uuid r) s.file_generator_sender

  module _ {schema : List Column} (laws : IsLawful schema) (uuid : Uuid) (r : SubmitRequest)
      (now : ℕ) (s : RpcServerImpl E) where
    pub enqueue-Enqueued :
        Enqueued uuid r now s (enqueue E uuid r now s).1 (enqueue E uuid r now s).0
    unfolding enqueue Store.remove_agreement
    enqueue-Enqueued =
        let lem = create_proof_status_lem laws.postgres E.plain uuid _ _ _ _ _ _ _ _ now s.db in
        elim (Result-cases (answer uuid r now s).0) [
          | inr (why, down) ↦
              let (shown, same) = lem.1 why down in
              rw (down, enqueue) (refused (ground arith) same refl)
          | inl (tt, taken) ↦
              let (fresh, added, _) = lem.0 taken in
              rw (taken, enqueue)
                (elim (Bool-cases (E.mpsc.closed s.file_generator_sender)) [
                  | inl gone ↦
                      let ((e, lost), kept) =
                        laws.mpsc.send-closed (job_of uuid r) s.file_generator_sender gone in
                      rw (lost, enqueue)
                        (stranded e gone refl
                          (record { taken = taken; fresh = fresh; added = added }) kept)
                  | inr live ↦
                      let (done, queued) =
                        laws.mpsc.send-open (job_of uuid r) s.file_generator_sender live in
                      rw (done, enqueue)
                        (handed_over refl (record { taken = taken; fresh = fresh; added = added })
                          queued)
                ])
        ]

    pub enqueue-IsReleased : IsReleased uuid s (enqueue E uuid r now s).1
    unfolding enqueue
    enqueue-IsReleased =
        let t = record s { db = (answer uuid r now s).1 } in
        let t' = record t { file_generator_sender = (sent uuid r s).1 } in
        elim (Result-cases (answer uuid r now s).0) [
          | inr (why, down) ↦ rw (down, enqueue) (released laws.lru uuid s t refl)
          | inl (_, taken) ↦
              rw (taken, enqueue)
                (elim (Result-cases (sent uuid r s).0) [
                  | inr (e, lost) ↦ rw (lost, enqueue) (released laws.lru uuid s t' refl)
                  | inl (_, done) ↦ rw (done, enqueue) (released laws.lru uuid s t' refl)
                ])
        ]
