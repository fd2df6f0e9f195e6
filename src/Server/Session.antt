-- ===== src/Server/Session.antt =====
-- A whole session with the server of src/server.rs: `hello`, and then `submit_request`.
use tee_prover_server.Prelude.{ℕ, ◌≡◌, ◌∙◌, ap, ◌<◌, Text, Bytes, List, ◌∷◌, some}
use tee_prover_server.Prelude.{length, take, from_utf8, true, false, ok, zero, suc}
use tee_prover_server.Prelude.{arith, text_eq_iff}
use tee_prover_server.Prelude.Dict.{has, lookup}
use tee_prover_server.Types.{SubmitRequest, circuit}
use tee_prover_server.Store.{Uuid}
use tee_prover_server.Database.{Column, Row}
use tee_prover_server.Database.Rows.{find_row}
use tee_prover_server.Utils.{IsEcdh, IsSealing, decrypt-seal_lem}
use tee_prover_server.Server.Env.{Env, RpcServerImpl}
use tee_prover_server.Server.Hello.{HelloResponse, hello}
use tee_prover_server.Server.Hello.Laws.{hello-IsGreeted}
use tee_prover_server.Server.Submit.{submit_request, allows}
use tee_prover_server.Server.Submit.Verdict.{agreements}
use tee_prover_server.Server.Submit.Enqueue.{IsLawful, answer, rows}
use tee_prover_server.Server.Recorded.{IsShown, IsRecorded-IsShown}
use tee_prover_server.Server.Submit.Outcome.{IsSubmitted, submit_request-succeeds}

lookup_first :
    (n : ℕ) (k : Text) (v : Bytes) (m : List (Text × Bytes))
    → 0 < n
    → lookup k (take n ((k, v) ∷ m)) ≡ some v
unfolding lookup
lookup_first zero k v m h = absurd (omega arith)
lookup_first (suc n) k v m h = ground (arith, text_eq_iff k k)

module _ (E : Env) {schema : List Column} (laws : IsLawful E schema) (ecdh : IsEcdh E.crypto)
    (server_key client_key : E.crypto.Secret) (uuid : Uuid) (s : RpcServerImpl E) where
  open E.crypto use {public_of, compressed, diffie_hellman}

  abbrev greeting_ends : RpcServerImpl E
  greeting_ends = (hello E server_key (compressed (public_of client_key)) uuid s).1

  -- The client's side of the agreement.
  abbrev client_secret : Bytes
  client_secret = diffie_hellman client_key (public_of server_key)

  -- After a successful `hello` with a cache of one place or more, the server holds, under the
  -- session, the secret that the client computes from the server's public key.
  pub hello-agrees :
      (r : HelloResponse)
      → 0 < E.lru.cap s.store.ecdh_store
      → (hello E server_key (compressed (public_of client_key)) uuid s).0 ≡ ok r
      → lookup (E.uuid_to_string uuid) (agreements E greeting_ends) ≡ some client_secret
  hello-agrees r room h =
      let g =
        hello-IsGreeted E laws.lru server_key (compressed (public_of client_key)) uuid s r h in
      let theirs : g.their_public_key ≡ public_of client_key =
        cc (g.pubkey, ecdh.from_sec1-compressed (public_of client_key)) in
      rw g.agreed (
        lookup_first _ (E.uuid_to_string uuid) _ _ room
        ∙ ap some (ap (diffie_hellman server_key) theirs ∙ ecdh.dh_comm server_key client_key))

  module _ {seal : Bytes → Bytes → Bytes → Bytes × Bytes} (sealing : IsSealing E.crypto seal)
      (nonce : Bytes) (message : Text) (now : ℕ) where
    -- What the client sends.
    abbrev pub sealed : Bytes × Bytes
    sealed = seal client_secret nonce message

    -- A session from end to end: after a successful `hello`, a request that the client seals with
    -- the agreed secret is accepted, recorded and queued, and the reply is the session's
    -- identifier. The table then has a row under that identifier, which is pending and shows the
    -- time, the mark of the chain, and what the request holds: the number of its kind, the name of
    -- its circuit, its endpoint and the endpoint's type; for a disclosure the data of the user and
    -- the own data as they are and the version as an `i32`, which is the version itself below 2^31;
    -- for any other kind empty data and version 1. That is: where the cache has room for one
    -- session, the nonce has 12 bytes, the message is UTF-8 that reads as the request, the build
    -- takes the request, its circuit is in the map, the pipeline runs and the database takes the
    -- record.
    pub session_submits :
        (r : HelloResponse) (request : SubmitRequest)
        → 0 < E.lru.cap s.store.ecdh_store
        → (hello E server_key (compressed (public_of client_key)) uuid s).0 ≡ ok r
        → length nonce ≡ 12
        → from_utf8 message ≡ some message
        → E.from_json message ≡ ok request
        → allows E.features request.proof_request_type ≡ true
        → has (circuit request.proof_request_type).name s.circuit_zkey_map ≡ true
        → E.mpsc.closed s.file_generator_sender ≡ false
        → (answer E uuid request now greeting_ends).0 ≡ ok tt
        → ((submit_request E uuid nonce sealed.0 sealed.1 now greeting_ends).0
            ≡ ok (E.uuid_to_string uuid))
          × IsSubmitted E laws uuid nonce sealed.0 sealed.1 now greeting_ends
              (E.uuid_to_string uuid)
              request
          × ((row : Row) × (find_row uuid
                  (rows E (submit_request E uuid nonce sealed.0 sealed.1 now greeting_ends).1)
                ≡ some row)
              × IsShown E uuid request now row)
    session_submits r request room h n valid parsed allowed known live taken =
        let g =
          hello-IsGreeted E laws.lru server_key (compressed (public_of client_key)) uuid s r h in
        let (replied, submitted) =
          submit_request-succeeds E laws uuid nonce sealed.0 sealed.1 now greeting_ends request n
            (sealing.length-tag client_secret nonce message)
            (record {
              secret = client_secret;
              decrypted_text = message;
              held_secret = hello-agrees r room h;
              long = ecdh.length-dh client_key (public_of server_key);
              opened =
                  decrypt-seal_lem E.crypto sealing client_secret nonce message
                    (ecdh.length-dh client_key (public_of server_key)) n valid;
              parsed = parsed;
              allowed = allowed;
              known =
                  ap (λ t. has (circuit request.proof_request_type).name t.circuit_zkey_map)
                    g.only_store
                  ∙ known;
            })
            (ap (λ t. E.mpsc.closed t.file_generator_sender) g.only_store ∙ live) taken in
        (
          replied,
          submitted,
          IsRecorded-IsShown E uuid now request greeting_ends
              (submit_request E uuid nonce sealed.0 sealed.1 now greeting_ends).1
              submitted.recorded,
        )
