-- ===== src/Server/Submit.antt =====
-- `submit_request` of src/server.rs.
pub mod Endpoint
pub mod Verdict
pub mod Enqueue
pub mod Outcome
pub mod Once
pub mod Kinds
use tee_prover_server.Prelude.{
  ℕ, ◌==◌, ◌++◌, ◌&&◌, ◌||◌, not, Bool, true, false, Text, Bytes, codes,
}
use tee_prover_server.Prelude.{
  length, List, [], ◌∷◌, Option, none, some, Result, ok, err, to_option,
}
use tee_prover_server.Prelude.{Fault, failed, panicked, if◌then◌else◌}
use tee_prover_server.Prelude.Dict.{has}
use tee_prover_server.Types.{ProofRequest, SubmitRequest, circuit, proof_type}
use tee_prover_server.Store.{Uuid}
use tee_prover_server.Database
use tee_prover_server.Utils.{Crypto, decrypt}
use tee_prover_server.Generators.{FileGenerator}
use tee_prover_server.Server.Env.{
  Env, RpcServerImpl, Features, M, pure, throw, reject, ◌>>=◌, ◌>>◌, ErrorCode, invalid_request,
  internal_error, panic, get_shared_secret, remove_agreement,
}
use Endpoint.{endpoint_of}

-- `allowed_proof_type`, the word of the error message.
unfoldable pub allowed_proof_type : Features → Text
allowed_proof_type f =
    if f.register then codes "register" else if f.dsc then codes "dsc" else codes "disclose"

-- Whether the build takes the request: each kind wants its feature, or `cherrypick`.
unfoldable pub allows : Features → ProofRequest → Bool
allows f (ProofRequest.register _ _ _) = f.register || f.cherrypick
allows f (ProofRequest.register_id _ _ _) = f.register || f.cherrypick
allows f (ProofRequest.register_aadhaar _ _ _) = f.register || f.cherrypick
allows f (ProofRequest.register_kyc _ _ _) = f.register || f.cherrypick
allows f (ProofRequest.dsc _ _ _) = f.dsc || f.cherrypick
allows f (ProofRequest.dsc_id _ _ _) = f.dsc || f.cherrypick
allows f (ProofRequest.disclose _ _ _ _ _ _) = f.disclose || f.cherrypick
allows f (ProofRequest.disclose_id _ _ _ _ _ _) = f.disclose || f.cherrypick
allows f (ProofRequest.disclose_aadhaar _ _ _ _ _ _) = f.disclose || f.cherrypick
allows f (ProofRequest.disclose_kyc _ _ _ _ _ _) = f.disclose || f.cherrypick

module _ (E : Env) where
  -- Give the agreement up, and return the error.
  unfoldable pub give_up : {A : Type 0} → Uuid → ErrorCode → Text → M E A
  unfolding remove_agreement
  give_up uuid code message = do remove_agreement E uuid; reject code message

  abbrev or_give_up : {A : Type 0} → Uuid → ErrorCode → Text → Option A → M E A
  or_give_up uuid code message (some a) = pure a
  or_give_up uuid code message none = give_up uuid code message

  abbrev unless : Uuid → ErrorCode → Text → Bool → M E (Unit {0})
  unless uuid code message true = pure tt
  unless uuid code message false = give_up uuid code message

  -- `key.try_into::<[u8; 32]>()`
  abbrev pub key_of : Bytes → Option Bytes
  key_of secret = if length secret == 32 then some secret else none

  abbrev decrypted : Uuid → Result Text Fault → M E Text
  decrypted uuid (ok t) = pure t
  decrypted uuid (err (failed e)) = give_up uuid invalid_request (codes "Failed to decrypt text")
  decrypted uuid (err panicked) = throw panic

  -- The checks on the request: its kind, and its circuit.
  unfoldable pub checked : Uuid → SubmitRequest → M E SubmitRequest
  unfolding give_up
  checked uuid r s =
      (do
        unless uuid invalid_request
            (codes "This endpoint only allows "
              ++ (allowed_proof_type E.features ++ codes " inputs"))
            (allows E.features r.proof_request_type)
        unless uuid invalid_request
            (codes "Could not find the given circuit name: " ++ (circuit r.proof_request_type).name)
            (has (circuit r.proof_request_type).name s.circuit_zkey_map)
        pure r)
        s

  -- The part of the method that reads the agreement and the message.
  unfoldable pub open_request : Uuid → Bytes → Bytes → Bytes → M E SubmitRequest
  unfolding get_shared_secret checked
  open_request uuid nonce cipher_text auth_tag = do
    found ← get_shared_secret E uuid
    secret ← or_give_up uuid invalid_request (codes "UUID not found") found
    key ← or_give_up uuid internal_error (codes "Failed to store ephemeral key") (key_of secret)
    decrypted_text ← decrypted uuid (decrypt E.crypto key cipher_text auth_tag nonce)
    submit_request ←
        or_give_up uuid invalid_request (codes "Failed to parse proof request")
          (to_option (E.from_json decrypted_text))
    checked uuid submit_request

  -- What the method does once a call has answered: go on, or give up with its error.
  abbrev answered : Uuid → Result (Unit {0}) Text → M E (Unit {0})
  answered uuid (ok _) = pure tt
  answered uuid (err e) = give_up uuid internal_error e

  unfoldable pub create_proof_status : Uuid → SubmitRequest → ℕ → M E (Result (Unit {0}) Text)
  create_proof_status uuid r now s =
      let p = r.proof_request_type in
      let e = endpoint_of p in
      let (done, db) =
        Database.create_proof_status E.postgres E.plain uuid (proof_type p) (circuit p).name
          r.onchain e.endpoint_type e.endpoint e.version e.user_defined_data e.self_defined_data now
          s.db in
      (ok done, record s { db = db })

  unfoldable pub send : FileGenerator → M E (Result (Unit {0}) Text)
  send f s =
      let (done, channel) = E.mpsc.send f s.file_generator_sender in
      (ok done, record s { file_generator_sender = channel })

  -- The part of the method that records the request and hands it to the pipeline.
  unfoldable pub enqueue : Uuid → SubmitRequest → ℕ → M E Text
  unfolding create_proof_status send give_up
  enqueue uuid r now = do
    created ← create_proof_status uuid r now
    answered uuid created
    sent ← send (record { uuid = uuid; proof_request = r.proof_request_type })
    answered uuid sent
    remove_agreement E uuid
    pure (E.uuid_to_string uuid)

  -- `submit_request`; `now` is the time that `create_proof_status` reads.
  unfoldable pub submit_request : Uuid → Bytes → Bytes → Bytes → ℕ → M E Text
  unfolding open_request enqueue
  submit_request uuid nonce cipher_text auth_tag now =
      if not (length nonce == 12)
      then reject invalid_request (codes "Nonce must be 12 bytes")
      else if not (length auth_tag == 16)
      then reject invalid_request (codes "Auth tag must be 16 bytes")
      else (do r ← open_request uuid nonce cipher_text auth_tag; enqueue uuid r now)
