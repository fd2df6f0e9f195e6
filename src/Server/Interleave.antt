-- ===== src/Server/Interleave.antt =====
-- `submit_request` of src/server.rs, cut at its awaits: several calls are under way at once, and
-- the runtime goes on with any of them. What lies between two awaits is one step on the state.
-- The queue is not received from, so it lists every job that was sent.
pub mod Jobs
pub mod Alone
use tee_prover_server.Prelude.{ℕ, zero, suc, ◌==◌, not, Text, Bytes, codes, length}
use tee_prover_server.Prelude.{List, [], ◌∷◌, ◌++◌, Result, ok, err, some, if◌then◌else◌}
use tee_prover_server.Types.{SubmitRequest}
use tee_prover_server.Store.{Uuid}
use tee_prover_server.Server.Env.{
  Env, RpcServerImpl, Exit, error, panic, invalid_request, internal_error, get_shared_secret,
  remove_agreement,
}
use tee_prover_server.Server.Hello.{hello}
use tee_prover_server.Server.Submit.{open_request, create_proof_status, send}

-- Where a call stands: before it reads the agreement, records the request, sends the job or gives
-- the agreement up, or at its end.
pub data Phase : Type 0 where
  reading : Bytes → Bytes → Bytes → Phase
  recording : SubmitRequest → Phase
  sending : SubmitRequest → Phase
  releasing : Result Text Exit → Phase
  done : Result Text Exit → Phase

-- A call that is under way; `now` is the time that it will read.
pub record Handler : Type 0 where
  pub uuid : Uuid
  pub now : ℕ
  pub phase : Phase

-- The beginning of a call, up to its first await.
abbrev pub started : Bytes → Bytes → Bytes → Phase
started nonce cipher_text auth_tag =
    if not (length nonce == 12)
    then done (err (error invalid_request (codes "Nonce must be 12 bytes")))
    else if not (length auth_tag == 16)
    then done (err (error invalid_request (codes "Auth tag must be 16 bytes")))
    else reading nonce cipher_text auth_tag

-- What follows the decision on a message: an error has to give the agreement up first.
abbrev pub judged : Result SubmitRequest Exit → Phase
judged (ok r) = recording r
judged (err panic) = done (err panic)
judged (err (error code message)) = releasing (err (error code message))

abbrev pub recorded : SubmitRequest → Result (Unit {0}) Text → Phase
recorded r (ok _) = sending r
recorded r (err e) = releasing (err (error internal_error e))

abbrev pub sent : Text → Result (Unit {0}) Text → Phase
sent reply (ok _) = releasing (ok reply)
sent reply (err e) = releasing (err (error internal_error e))

-- A call of the server, or another turn of the call with a number.
pub data Event (E : Env) : Type 0 where
  greet : E.crypto.Secret → Bytes → Uuid → Event E
  begin : Uuid → Bytes → Bytes → Bytes → ℕ → Event E
  turn : ℕ → Event E

module _ (E : Env) where
  -- A step of a call. The chain of checks of `open_request` changes nothing but the store, which its
  -- reading of the agreement touches; an error of it gives the agreement up as a step of its own.
  unfoldable pub advance : Uuid → ℕ → Phase → RpcServerImpl E → Phase × RpcServerImpl E
  unfolding get_shared_secret create_proof_status send remove_agreement
  advance uuid now (reading nonce cipher_text auth_tag) s =
      (judged (open_request E uuid nonce cipher_text auth_tag s).0, (get_shared_secret E uuid s).1)
  advance uuid now (recording r) s =
      let (answer, s') = create_proof_status E uuid r now s in
      (elim answer [ ok a ↦ recorded r a | err e ↦ done (err e) ], s')
  advance uuid now (sending r) s =
      let (answer, s') = send E (record { uuid = uuid; proof_request = r.proof_request_type }) s in
      (elim answer [ ok a ↦ sent (E.uuid_to_string uuid) a | err e ↦ done (err e) ], s')
  advance uuid now (releasing reply) s = (done reply, (remove_agreement E uuid s).1)
  advance uuid now (done reply) s = (done reply, s)

  -- Another turn of the call with the given number, if there is one.
  unfoldable pub resume : ℕ → List Handler → RpcServerImpl E → List Handler × RpcServerImpl E
  resume n [] s = ([], s)
  resume zero (h ∷ hs) s =
      let (phase, s') = advance h.uuid h.now h.phase s in (record h { phase = phase } ∷ hs, s')
  resume (suc n) (h ∷ hs) s = let (hs', s') = resume n hs s in (h ∷ hs', s')

  unfoldable pub happen : Event E → List Handler × RpcServerImpl E → List Handler × RpcServerImpl E
  happen (greet key pubkey uuid) (hs, s) = (hs, (hello E key pubkey uuid s).1)
  happen (begin uuid nonce cipher_text auth_tag now) (hs, s) =
      (record { uuid = uuid; now = now; phase = started nonce cipher_text auth_tag } ∷ hs, s)
  happen (turn n) (hs, s) = resume n hs s

  unfoldable pub happen_all :
      List (Event E) → List Handler × RpcServerImpl E → List Handler × RpcServerImpl E
  happen_all [] w = w
  happen_all (e ∷ es) w = happen_all es (happen e w)
