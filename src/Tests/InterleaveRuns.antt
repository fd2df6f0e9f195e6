-- ===== src/Tests/InterleaveRuns.antt =====
-- Interleaved calls of the server, and the theorems on them.
use tee_prover_server.Prelude.{◌≡◌, refl, codes, text_eq}
use tee_prover_server.Prelude.{List, [], ◌∷◌, from_utf8, utf8_valid}
use tee_prover_server.Prelude.Dict.{lookup, has, remove, touch}
use tee_prover_server.Types.{circuit, proof_type, to_i32, as_i32}
use tee_prover_server.Store
use tee_prover_server.Store.{Uuid, Lru, IsLru, LruStore, Call}
use tee_prover_server.Database.{Column, Row, new_row, created_columns, status_to_i32}
use tee_prover_server.Database
use tee_prover_server.Utils.{get_custom_token_bytes, decrypt}
use tee_prover_server.Server.Env.{RpcServerImpl}
use tee_prover_server.Server.Hello.{hello}
use tee_prover_server.Server.Submit.{open_request, checked, allows, allowed_proof_type}
use tee_prover_server.Server.Submit.Endpoint.{endpoint_of}
use tee_prover_server.Server.Submit.Enqueue
use tee_prover_server.Server.Submit.Enqueue.{IsLawful}
use tee_prover_server.Tests.Crates.{repeat}
use tee_prover_server.Server.Interleave.{Event, Handler, happen_all, advance, resume, happen}
use tee_prover_server.Server.Interleave.Jobs
use tee_prover_server.Tests.Site.{env, server, nonce, tag}

abbrev open_server : RpcServerImpl env
open_server = (hello env 5 (7 ∷ repeat 32 0) 9 server).1

-- Two calls for one session, in lock step.
abbrev events : List (Event env)
events =
    Event.begin 9 nonce (codes "{}") tag 100
    ∷ Event.begin 9 nonce (codes "{}") tag 101
    ∷ Event.turn 0
    ∷ Event.turn 1
    ∷ Event.turn 0
    ∷ Event.turn 1
    ∷ Event.turn 0
    ∷ Event.turn 1
    ∷ Event.turn 0
    ∷ Event.turn 1
    ∷ []

abbrev ran : List Handler × RpcServerImpl env
ran = happen_all env events ([], open_server)

-- Both calls read the agreement; one of them records the request and queues it.
program : Unit {0}
unfolding hello get_custom_token_bytes Store.insert_new_agreement lookup has remove touch text_eq
    from_utf8 utf8_valid allows allowed_proof_type circuit proof_type to_i32 as_i32 endpoint_of
    created_columns status_to_i32 decrypt Store.get_shared_secret Store.remove_agreement
    Database.create_proof_status happen_all happen resume advance open_request checked
program = tt

queued_once : Jobs.count 9 (Enqueue.jobs env ran.1) ≡ 1
unfolding program
queued_once = refl
