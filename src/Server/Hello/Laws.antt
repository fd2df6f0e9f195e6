-- ===== src/Server/Hello/Laws.antt =====
-- What a call of `hello` of src/server.rs does, on every path.
use tee_prover_server.Prelude.{
  ◌≡◌, ◌≢◌, sym, ◌∙◌, ap, ◌==◌, ==_iff, Text, Bytes, [], ◌∷◌, none, some,
}
use tee_prover_server.Prelude.{codes, length, take, Result, ok, err, Result-cases}
use tee_prover_server.Prelude.{Bool-cases, inl, inr, ◌⊎◌}
use tee_prover_server.Prelude.Dict
use tee_prover_server.Prelude.Dict.{lookup}
use tee_prover_server.Store
use tee_prover_server.Store.{Uuid, IsLru}
use tee_prover_server.Store.Bounds.{held, insert_new_agreement_lem}
use tee_prover_server.Utils.{get_custom_token_bytes}
use tee_prover_server.Server.Env.{
  Env, RpcServerImpl, ErrorCode, Exit, error, panic, invalid_request, invalid_params,
  internal_error,
}
use tee_prover_server.Server.Hello.{HelloResponse, hello}

module _ (E : Env) (laws : IsLru E.lru) (my_private_key : E.crypto.Secret) (user_pubkey : Bytes)
    (uuid : Uuid) (s : RpcServerImpl E) where
  open E.crypto use {Public, public_of, from_sec1_bytes, compressed, diffie_hellman, base64}

  abbrev greeted : Result HelloResponse Exit × RpcServerImpl E
  greeted = hello E my_private_key user_pubkey uuid s

  abbrev key : Text
  key = E.uuid_to_string uuid

  -- The token that binds both public keys.
  abbrev pub token_for : Public → Result Bytes Text
  token_for their =
      get_custom_token_bytes E.tokens
        (base64 (compressed their) ∷ base64 (compressed (public_of my_private_key)) ∷ [])

  -- What a successful call has done: the session is new, its secret is the one that both keys give,
  -- and the token is over both keys.
  pub record IsGreeted (r : HelloResponse) : Type 0 where
    pub their_public_key : Public
    pub pubkey_length : length user_pubkey ≡ 33
    pub pubkey : from_sec1_bytes user_pubkey ≡ ok their_public_key
    pub attested : token_for their_public_key ≡ ok r.attestation
    pub replied : r.uuid ≡ uuid
    pub fresh : lookup key (held E.lru s.store) ≡ none
    pub agreed :
        held E.lru greeted.1.store
        ≡ take
            (E.lru.cap s.store.ecdh_store)
            ((key, diffie_hellman my_private_key their_public_key) ∷ held E.lru s.store)
    pub only_store : greeted.1 ≡ record s { store = greeted.1.store }

  -- The entry of a session that is opened.
  abbrev opened : Public → RpcServerImpl E
  opened their = record s {
    store =
        (Store.insert_new_agreement E.lru E.uuid_to_string s.store uuid
          (diffie_hellman my_private_key their)).1;
  }

  hello-cases :
      ((code : ErrorCode) × (message : Text) × (greeted ≡ (err (error code message), s)))
      ⊎ ((their : Public) × (token : Bytes) × (length user_pubkey ≡ 33)
          × (from_sec1_bytes user_pubkey ≡ ok their)
          × (token_for their ≡ ok token)
          × (lookup key (held E.lru s.store) ≡ none)
          × (greeted ≡ (ok (record { uuid = uuid; attestation = token }), opened their)))
  unfolding hello Store.insert_new_agreement
  hello-cases = elim (Bool-cases (length user_pubkey == 33)) [
    | inr short ↦ inl (invalid_request, codes "Public key must be 33 bytes", rw short)
    | inl long ↦ elim (Result-cases (from_sec1_bytes user_pubkey)) [
      | inr (m, bad) ↦ inl (invalid_params, m, rw (long, bad))
      | inl (their, good) ↦ elim (Result-cases (token_for their)) [
        | inr (m, lost) ↦ inl (internal_error, m, rw (long, good, hello) (rw (lost, hello)))
        | inl (token, attested) ↦ elim (Bool-cases (E.lru.contains s.store.ecdh_store key)) [
          | inl old ↦ inl (
            invalid_request,
            codes "UUID already exists",
            rw (long, good, hello) (rw (attested, hello) (rw (old, hello))),
          )
          | inr new ↦ inr (
            their,
            token,
            (==_iff _ _).0 long,
            good,
            attested,
            Dict.has-lookup key (held E.lru s.store)
                (sym (laws.contains_lem s.store.ecdh_store key) ∙ new),
            rw (long, good, hello) (rw (attested, hello) (rw (new, hello))),
          )
        ]
      ]
    ]
  ]

  -- A call that fails returns an error, does not panic, and changes nothing.
  pub hello_err : (e : Exit) → greeted.0 ≡ err e → (greeted.1 ≡ s) × (e ≢ panic)
  hello_err e h = elim hello-cases [
    | inl (code, message, q) ↦
        let q' : greeted.0 ≡ err (error code message) = ap (λ x. x.0) q in
        (ap (λ x. x.1) q, λ p. cc)
    | inr (their, token, _, _, _, _, q) ↦
        let q' : greeted.0 ≡ ok (record { uuid = uuid; attestation = token }) = ap (λ x. x.0) q in
        absurd (cc)
  ]

  -- A call for a session whose agreement is held is refused with an error, and changes nothing: the
  -- agreement that is held is not replaced.
  pub hello_held :
      (secret : Bytes)
      → lookup key (held E.lru s.store) ≡ some secret
      → ((code : ErrorCode) × (message : Text) × (greeted.0 ≡ err (error code message)))
        × (greeted.1 ≡ s)
  hello_held secret there = elim hello-cases [
    | inl (code, message, q) ↦ ((code, message, ap (λ x. x.0) q), ap (λ x. x.1) q)
    | inr (_, _, _, _, _, fresh, _) ↦ absurd (cc)
  ]

  -- A call succeeds only for a key of 33 bytes that can be read and a session that is not open; the
  -- reply then holds a token over both public keys, and the session's entry goes in front with the
  -- secret of both keys.
  pub hello-IsGreeted : (r : HelloResponse) → greeted.0 ≡ ok r → IsGreeted r
  hello-IsGreeted r h = elim hello-cases [
    | inl (code, message, q) ↦
        let q' : greeted.0 ≡ err (error code message) = ap (λ x. x.0) q in absurd (cc)
    | inr (their, token, long, good, attested, fresh, q) ↦
        let q' : greeted.0 ≡ ok (record { uuid = uuid; attestation = token }) = ap (λ x. x.0) q in
        let same : record { uuid = uuid; attestation = token } ≡ r = cc in
        record {
          their_public_key = their;
          pubkey_length = long;
          pubkey = good;
          attested = rw (← same) attested;
          replied = rw (← same);
          fresh = fresh;
          agreed =
              rw q
                ((insert_new_agreement_lem laws E.uuid_to_string s.store uuid
                    (diffie_hellman my_private_key their)).1
                  fresh).1;
          only_store = rw q;
        }
  ]

  -- The other way round: a call for a new session succeeds with a key of 33 bytes that can be read,
  -- where the launcher gives a token.
  pub hello-succeeds :
      (their : Public) (token : Bytes)
      → length user_pubkey ≡ 33
      → from_sec1_bytes user_pubkey ≡ ok their
      → token_for their ≡ ok token
      → lookup key (held E.lru s.store) ≡ none
      → greeted.0 ≡ ok (record { uuid = uuid; attestation = token })
  unfolding hello Store.insert_new_agreement
  hello-succeeds their token long good attested fresh =
      let new =
        laws.contains_lem s.store.ecdh_store key
        ∙ Dict.has_of_none key (held E.lru s.store) fresh in
      rw (long, good, hello) (rw (attested, hello) (rw (new, hello)))
