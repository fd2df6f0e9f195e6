-- ===== src/Tests/ServerRuns.antt =====
-- A server at work, and the theorems on src/server.rs and src/store.rs at its data.
use tee_prover_server.Prelude.{◌≡◌, ◌≢◌, refl, false, Text, codes, text_eq}
use tee_prover_server.Prelude.{take, List, [], ◌∷◌, some, ok, err, arith, from_utf8, utf8_valid}
use tee_prover_server.Prelude.Dict.{lookup, has, remove, touch}
use tee_prover_server.Types.{SubmitRequest, circuit, proof_type, display, to_i32, as_i32}
use tee_prover_server.Store
use tee_prover_server.Store.{Uuid, Lru, IsLru, LruStore, Call}
use tee_prover_server.Store.Survival
use tee_prover_server.Database.{Column, Row, new_row, created_columns, status_to_i32}
use tee_prover_server.Database
use tee_prover_server.Database.Rows.{find_row}
use tee_prover_server.Database.Schema.{setup_columns}
use tee_prover_server.Utils.{get_custom_token_bytes, decrypt}
use tee_prover_server.Server.Env.{RpcServerImpl, Features, ErrorCode, error, panic, invalid_request}
use tee_prover_server.Server.Hello.{HelloResponse, hello}
use tee_prover_server.Server.Hello.Laws
use tee_prover_server.Server.Session
use tee_prover_server.Server.Recorded.{IsShown}
use tee_prover_server.Server.Submit.{submit_request, allows, allowed_proof_type, open_request}
use tee_prover_server.Server.Submit.Endpoint.{endpoint_of}
use tee_prover_server.Server.Submit.Verdict
use tee_prover_server.Server.Submit.Enqueue
use tee_prover_server.Server.Submit.Enqueue.{IsLawful}
use tee_prover_server.Server.Submit.Outcome
use tee_prover_server.Server.Submit.Once
use tee_prover_server.Server.Submit.Kinds
use tee_prover_server.Tests.Crates.{
  list_lru, list_lru-IsLru, repeat, toy_crypto-IsEcdh, toy_crypto-IsSealing,
}
use tee_prover_server.Tests.Site.{
  request, env_on, env, laws_on, server_on, server, laws, nonce, tag,
}

program : Unit {0}
unfolding hello get_custom_token_bytes Store.insert_new_agreement submit_request lookup has remove
    touch text_eq from_utf8 utf8_valid allows allowed_proof_type circuit proof_type to_i32 as_i32
    endpoint_of created_columns status_to_i32 decrypt Store.get_shared_secret Store.remove_agreement
    Database.create_proof_status
program = tt

abbrev reply : HelloResponse
reply = record { uuid = 9; attestation = codes "PKI" }

greeted : (hello env 5 (7 ∷ repeat 32 0) 9 server).0 ≡ ok reply
unfolding program
greeted = refl

abbrev open_server : RpcServerImpl env
open_server = (hello env 5 (7 ∷ repeat 32 0) 9 server).1

submitted : (submit_request env 9 nonce (codes "{}") tag 100 open_server).0 ≡ ok (9 ∷ [])
unfolding program
submitted = refl

unknown_session :
    (submit_request env 8 nonce (codes "{}") tag 100 open_server).0
    ≡ err (error invalid_request (codes "UUID not found"))
unfolding program
unknown_session = refl

session_submits_example :
    ((submit_request env 9 nonce (codes "{}") tag 100 open_server).0 ≡ ok (9 ∷ []))
    × Outcome.IsSubmitted env laws 9 nonce (codes "{}") tag 100 open_server (9 ∷ []) request
    × ((row : Row) × (find_row 9
            (Enqueue.rows env (submit_request env 9 nonce (codes "{}") tag 100 open_server).1)
          ≡ some row)
        × IsShown env 9 request 100 row)
unfolding program
session_submits_example =
    Session.session_submits env laws toy_crypto-IsEcdh 5 7 9 server toy_crypto-IsSealing nonce
      (codes "{}") 100 reply request (omega arith) greeted refl refl refl refl refl refl refl

hello-IsGreeted_example : Laws.IsGreeted env list_lru-IsLru 5 (7 ∷ repeat 32 0) 9 server reply
hello-IsGreeted_example =
    Laws.hello-IsGreeted env list_lru-IsLru 5 (7 ∷ repeat 32 0) 9 server reply greeted

short_key :
    (hello env 5 [] 9 server).0 ≡ err (error invalid_request (codes "Public key must be 33 bytes"))
unfolding program
short_key = refl

hello_err_example :
    ((hello env 5 [] 9 server).1 ≡ server)
    × (error invalid_request (codes "Public key must be 33 bytes") ≢ panic)
hello_err_example =
    Laws.hello_err env list_lru-IsLru 5 [] 9 server
      (error invalid_request (codes "Public key must be 33 bytes")) short_key

hello_held_example :
    ((code : ErrorCode) × (message : Text) × ((hello env 5 (7 ∷ repeat 32 0) 9 open_server).0
        ≡ err (error code message)))
    × ((hello env 5 (7 ∷ repeat 32 0) 9 open_server).1 ≡ open_server)
unfolding program
hello_held_example = Laws.hello_held env list_lru-IsLru 5 (7 ∷ repeat 32 0) 9 open_server _ refl

submit_request-IsSubmitted_example :
    (r : SubmitRequest) × Outcome.IsSubmitted env laws 9 nonce
      (codes "{}")
      tag
      100
      open_server
      (9 ∷ [])
      r
submit_request-IsSubmitted_example =
    Outcome.submit_request-IsSubmitted env laws 9 nonce (codes "{}") tag 100 open_server (9 ∷ [])
      submitted

submit_request-IsReleased_example :
    Enqueue.IsReleased env 9 open_server
      (submit_request env 9 nonce (codes "{}") tag 100 open_server).1
submit_request-IsReleased_example =
    Outcome.submit_request-IsReleased env laws 9 nonce (codes "{}") tag 100 open_server refl refl

submit_request-twice_example :
    (submit_request env 9 nonce
      (codes "x")
      tag
      101
      (submit_request env 9 nonce (codes "{}") tag 100 open_server).1).0
    ≡ err (error invalid_request (codes "UUID not found"))
submit_request-twice_example =
    Once.submit_request-twice env laws 9 nonce (codes "{}") tag nonce (codes "x") tag 100 101
      open_server refl refl refl refl

submit_request_err_example :
    Outcome.LeavesAlone env laws 8 nonce
      (codes "{}")
      tag
      100
      open_server
      (submit_request env 8 nonce (codes "{}") tag 100 open_server).1
submit_request_err_example =
    Outcome.submit_request_err env laws 8 nonce (codes "{}") tag 100 open_server
      (error invalid_request (codes "UUID not found")) unknown_session

submit_request-ne-panic_example :
    (submit_request env 9 [] (codes "{}") tag 100 open_server).0 ≢ err panic
submit_request-ne-panic_example =
    Outcome.submit_request-ne-panic env laws 9 [] (codes "{}") tag 100 open_server

-- The session is opened again for an identifier that is recorded.
abbrev again : RpcServerImpl env
again =
    (hello env 5 (7 ∷ repeat 32 0) 9
      (submit_request env 9 nonce (codes "{}") tag 100 open_server).1).1

submit_request-setup_example :
    (submit_request
      (env_on setup_columns)
      9
      nonce
      (codes "{}")
      tag
      100
      (hello (env_on setup_columns) 5 (7 ∷ repeat 32 0) 9 (server_on setup_columns)).1).0
    ≢ ok (9 ∷ [])
submit_request-setup_example =
    Once.submit_request-setup (env_on setup_columns) (laws_on setup_columns) 9 nonce (codes "{}")
      tag 100 (hello (env_on setup_columns) 5 (7 ∷ repeat 32 0) 9 (server_on setup_columns)).1
      (9 ∷ [])

open_request-verdict_example :
    open_request env 9 nonce (codes "{}") tag open_server
    ≡ Verdict.settle env 9
        (Verdict.verdict env open_server.circuit_zkey_map nonce
          (codes "{}")
          tag
          (lookup (9 ∷ []) (Verdict.agreements env open_server)))
        (Verdict.after_read env 9 open_server)
open_request-verdict_example =
    Verdict.open_request-verdict env list_lru-IsLru 9 nonce (codes "{}") tag open_server

allows-prefix_example :
    allows env.features request.proof_request_type
    ≡ text_eq (take 8 (display (proof_type request.proof_request_type))) (codes "disclose")
unfolding allowed_proof_type
allows-prefix_example = Kinds.allows-prefix Kinds.only_disclose request.proof_request_type

abbrev no_feature : Features
no_feature = record { register = false; dsc = false; disclose = false; cherrypick = false }

abbrev store : LruStore list_lru
store = record { ecdh_store = record { size = 2; entries = (8 ∷ [], []) ∷ [] } }

abbrev to_string : Uuid → Text
to_string u = u ∷ []

abbrev calls : List Call
calls = Call.insert 8 [] ∷ []

agreement_survives_example :
    (Store.get_shared_secret list_lru to_string
      (Store.run list_lru to_string
        (Store.insert_new_agreement list_lru to_string store 9 (1 ∷ [])).1
        calls)
      9).0
    ≡ some (1 ∷ [])
unfolding lookup text_eq
agreement_survives_example =
    Survival.agreement_survives list_lru-IsLru to_string store 9 (1 ∷ []) calls refl (omega arith)
      tt
