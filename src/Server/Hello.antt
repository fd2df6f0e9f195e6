-- ===== src/Server/Hello.antt =====
-- `health` and `hello` of src/server.rs.
pub mod Laws
use tee_prover_server.Prelude.{ℕ, ◌==◌, Text, Bytes, codes, length, List, [], ◌∷◌, Result, ok, err}
use tee_prover_server.Prelude.{if◌then◌else◌}
use tee_prover_server.Store.{Uuid}
use tee_prover_server.Utils.{Crypto, get_custom_token_bytes}
use tee_prover_server.Server.Env.{
  Env, RpcServerImpl, M, pure, reject, ◌>>=◌, ◌>>◌, ErrorCode, invalid_request, invalid_params,
  internal_error, insert_new_agreement,
}

-- `HelloResponse` of src/types.rs
pub record HelloResponse : Type 0 where
  pub uuid : Uuid
  pub attestation : Bytes

module _ (E : Env) where
  open E.crypto use {Secret, public_of, from_sec1_bytes, compressed, diffie_hellman, base64}

  unfoldable pub health : M E Text
  health = pure (codes "OK")

  -- A result, or the end of the method with its error as the message.
  abbrev pub or_reject : {A : Type 0} → ErrorCode → Result A Text → M E A
  or_reject code (ok a) = pure a
  or_reject code (err message) = reject code message

  -- The end of `hello`, after the insertion.
  abbrev inserted : HelloResponse → Result (Unit {0}) Text → M E HelloResponse
  inserted response (ok _) = pure response
  inserted response (err _) = reject invalid_request (codes "UUID already exists")

  -- `hello`, with the random private key as an argument.
  unfoldable pub hello : Secret → Bytes → Uuid → M E HelloResponse
  unfolding insert_new_agreement
  hello my_private_key user_pubkey uuid =
      if length user_pubkey == 33
      then (do
        their_public_key ← or_reject invalid_params (from_sec1_bytes user_pubkey)
        let nonces =
            base64 (compressed their_public_key)
            ∷ base64 (compressed (public_of my_private_key))
            ∷ []
        attestation ← or_reject internal_error (get_custom_token_bytes E.tokens nonces)
        done ← insert_new_agreement E uuid (diffie_hellman my_private_key their_public_key)
        inserted (record { uuid = uuid; attestation = attestation }) done)
      else reject invalid_request (codes "Public key must be 33 bytes")
