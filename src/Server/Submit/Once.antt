-- ===== src/Server/Submit/Once.antt =====
-- Calls of `submit_request` of src/server.rs one after the other, and on the table of setup.sql.
use tee_prover_server.Prelude.{ℕ, ◌≡◌, ◌≢◌, Text, Bytes, List, none}
use tee_prover_server.Prelude.{codes, length, ok, err}
use tee_prover_server.Store.{Uuid}
use tee_prover_server.Database.{Column}
use tee_prover_server.Database.Rows.{find_row}
use tee_prover_server.Database.Schema.{setup_columns, create_proof_status-setup_ne_ok}
use tee_prover_server.Server.Env.{Env, RpcServerImpl, invalid_request, error}
use tee_prover_server.Server.Submit.{submit_request}
use tee_prover_server.Server.Submit.Verdict.{verdict}
use tee_prover_server.Server.Submit.Enqueue.{rows, IsLawful}
use tee_prover_server.Server.Submit.Outcome.{
  submit_request-settle, submit_request-IsReleased, submit_request-IsSubmitted,
}

module _ (E : Env) {schema : List Column} (laws : IsLawful E schema) (uuid : Uuid) where
  -- A session serves one call: after a call with a nonce and a tag of the right lengths, whatever it
  -- returned, a second one for the session is told that the session is not known.
  pub submit_request-twice :
      (nonce cipher_text auth_tag nonce' cipher_text' auth_tag' : Bytes) (now now' : ℕ)
      (s : RpcServerImpl E)
      → length nonce ≡ 12
      → length auth_tag ≡ 16
      → length nonce' ≡ 12
      → length auth_tag' ≡ 16
      → (submit_request E uuid nonce' cipher_text' auth_tag' now'
          (submit_request E uuid nonce cipher_text auth_tag now s).1).0
        ≡ err (error invalid_request (codes "UUID not found"))
  unfolding verdict
  submit_request-twice nonce cipher_text auth_tag nonce' cipher_text' auth_tag' now now' s n t n'
        t' =
      let after = (submit_request E uuid nonce cipher_text auth_tag now s).1 in
      let gone =
        (submit_request-IsReleased E laws uuid nonce cipher_text auth_tag now s n t).gone in
      rw (submit_request-settle E laws uuid nonce' cipher_text' auth_tag' now' after n' t', gone)

  -- One identifier is accepted once, for good: a call for an identifier that has a row fails, also
  -- after another `hello`.
  pub submit_request-recorded_before :
      (nonce cipher_text auth_tag : Bytes) (now : ℕ) (s : RpcServerImpl E) (reply : Text)
      → find_row uuid (rows E s) ≢ none
      → (submit_request E uuid nonce cipher_text auth_tag now s).0 ≢ ok reply
  submit_request-recorded_before nonce cipher_text auth_tag now s reply there h =
      let (r, done) =
        submit_request-IsSubmitted E laws uuid nonce cipher_text auth_tag now s reply h in
      there done.recorded.fresh

-- On the table that setup.sql creates no call succeeds, whatever its message is.
pub submit_request-setup :
    (E : Env) (laws : IsLawful E setup_columns) (uuid : Uuid) (nonce cipher_text auth_tag : Bytes)
    (now : ℕ) (s : RpcServerImpl E) (reply : Text)
    → (submit_request E uuid nonce cipher_text auth_tag now s).0 ≢ ok reply
submit_request-setup E laws uuid nonce cipher_text auth_tag now s reply h =
    let (r, done) =
      submit_request-IsSubmitted E laws uuid nonce cipher_text auth_tag now s reply h in
    create_proof_status-setup_ne_ok laws.postgres E.plain uuid _ _ _ _ _ _ _ _ now s.db
      done.recorded.taken
