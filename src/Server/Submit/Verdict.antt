-- ===== src/Server/Submit/Verdict.antt =====
-- What `submit_request` of src/server.rs decides about a message, apart from what it changes.
use tee_prover_server.Prelude.{
  ◌≡◌, ◌≢◌, refl, ap, ◌∙◌, ◌==◌, ==_iff, ◌++◌, Bool, true, false, Text, Bytes, codes, length, arith,
}
use tee_prover_server.Prelude.{List, Option, none, some, Result, ok, err, map_err, ◌>>=◌, Fault}
use tee_prover_server.Prelude.{
  failed, panicked, to_option, Result-cases, Option-cases, Bool-cases, inl, inr,
}
use tee_prover_server.Prelude.Dict.{has, lookup}
use tee_prover_server.Types.{SubmitRequest, circuit}
use tee_prover_server.Store
use tee_prover_server.Store.{Uuid, IsLru}
use tee_prover_server.Store.Bounds.{held}
use tee_prover_server.Utils.{decrypt, plaintext}
use tee_prover_server.Server.Env.{
  Env, RpcServerImpl, Exit, invalid_request, internal_error, error, panic, get_shared_secret,
  remove_agreement,
}
use tee_prover_server.Server.Submit.{allowed_proof_type, allows, key_of, open_request, checked}

abbrev ok_or : {A : Type 0} → Exit → Option A → Result A Exit
ok_or e (some a) = ok a
ok_or e none = err e

abbrev ensure : Exit → Bool → Result (Unit {0}) Exit
ensure e true = ok tt
ensure e false = err e

abbrev failure : Fault → Exit
failure (failed _) = error invalid_request (codes "Failed to decrypt text")
failure panicked = panic

module _ (E : Env) where
  -- The agreements that are held, most recently used first, and the key of a session.
  abbrev pub agreements : RpcServerImpl E → List (Text × Bytes)
  agreements s = held E.lru s.store

  -- What becomes of a request: of its kind first, and then of its circuit.
  abbrev judged : List (Text × Text) → SubmitRequest → Result SubmitRequest Exit
  judged zkeys r = do
    _ ←
        ensure
          (error invalid_request (
            codes "This endpoint only allows "
            ++ (allowed_proof_type E.features ++ codes " inputs")))
          (allows E.features r.proof_request_type)
    _ ←
        ensure
          (error invalid_request (
            codes "Could not find the given circuit name: " ++ (circuit r.proof_request_type).name))
          (has (circuit r.proof_request_type).name zkeys)
    ok r

  -- The request in a message, from the session's secret, if it is held.
  unfoldable pub verdict :
      List (Text × Text) → Bytes → Bytes → Bytes → Option Bytes → Result SubmitRequest Exit
  verdict zkeys nonce cipher_text auth_tag found = do
    secret ← ok_or (error invalid_request (codes "UUID not found")) found
    key ← ok_or (error internal_error (codes "Failed to store ephemeral key")) (key_of E secret)
    decrypted_text ← map_err failure (decrypt E.crypto key cipher_text auth_tag nonce)
    r ←
        ok_or (error invalid_request (codes "Failed to parse proof request"))
          (to_option (E.from_json decrypted_text))
    judged zkeys r

  -- The state after the session was looked up.
  abbrev pub after_read : Uuid → RpcServerImpl E → RpcServerImpl E
  after_read uuid s = (get_shared_secret E uuid s).1

  -- An error gives the agreement up.
  abbrev pub settle :
      Uuid
      → Result SubmitRequest Exit
      → RpcServerImpl E
      → Result SubmitRequest Exit × RpcServerImpl E
  settle uuid (ok r) s = (ok r, s)
  settle uuid (err panic) s = (err panic, s)
  settle uuid (err (error code message)) s =
      (err (error code message), (remove_agreement E uuid s).1)

  checked-judged :
      (uuid : Uuid) (r : SubmitRequest) (s : RpcServerImpl E)
      → checked E uuid r s ≡ settle uuid (judged s.circuit_zkey_map r) s
  unfolding checked
  checked-judged uuid r s = ground arith

  -- The chain of steps that reads a request does what the specification says: the verdict on the
  -- message depends only on the agreement that is held and the map of circuits; the agreement is
  -- read, and given up if the verdict is an error.
  pub open_request-verdict :
      IsLru E.lru
      → (uuid : Uuid) (nonce cipher_text auth_tag : Bytes) (s : RpcServerImpl E)
      → open_request E uuid nonce cipher_text auth_tag s
        ≡ settle uuid
            (verdict s.circuit_zkey_map nonce cipher_text auth_tag
              (lookup (E.uuid_to_string uuid) (agreements s)))
            (after_read uuid s)
  unfolding open_request verdict Store.get_shared_secret
  open_request-verdict laws uuid nonce cipher_text auth_tag s =
      rw (← laws.get_lem)
        (elim (Option-cases (E.lru.get s.store.ecdh_store (E.uuid_to_string uuid)).0) [
          | inl e ↦ rw (e, verdict)
          | inr (secret, e) ↦
              rw (e, verdict)
                (elim (Bool-cases (length secret == 32)) [
                  | inr long ↦ rw long
                  | inl k ↦
                      rw k
                        (elim (Result-cases (decrypt E.crypto secret cipher_text auth_tag nonce)) [
                          | inr (failed m, d) ↦ rw d
                          | inr (panicked, d) ↦ rw d
                          | inl (t, d) ↦ rw d (elim (Result-cases (E.from_json t)) [
                            | inr (m, j) ↦ rw j
                            | inl (r, j) ↦ rw j (checked-judged uuid r (after_read uuid s))
                          ])
                        ])
                ])
        ])

  settle-value :
      (uuid : Uuid) (v : Result SubmitRequest Exit) (s : RpcServerImpl E) → (settle uuid v s).0 ≡ v
  settle-value uuid (ok r) s = refl
  settle-value uuid (err panic) s = refl
  settle-value uuid (err (error code message)) s = refl

  -- Its answer alone.
  pub open_request-decides :
      IsLru E.lru
      → (uuid : Uuid) (nonce cipher_text auth_tag : Bytes) (s : RpcServerImpl E)
      → (open_request E uuid nonce cipher_text auth_tag s).0
        ≡ verdict s.circuit_zkey_map nonce cipher_text auth_tag
            (lookup (E.uuid_to_string uuid) (agreements s))
  open_request-decides laws uuid nonce cipher_text auth_tag s =
      ap (λ x. x.0) (open_request-verdict laws uuid nonce cipher_text auth_tag s)
      ∙ settle-value uuid _ (after_read uuid s)

-- What a message that is accepted must be: the session holds a secret of 32 bytes, which opens the
-- message to the text of the request; and the build takes the request and has its circuit.
pub record IsAccepted (E : Env) (zkeys : List (Text × Text)) (nonce cipher_text auth_tag : Bytes)
    (found : Option Bytes) (r : SubmitRequest) : Type 0 where
  pub secret : Bytes
  pub decrypted_text : Text
  pub held_secret : found ≡ some secret
  pub long : length secret ≡ 32
  pub opened : decrypt E.crypto secret cipher_text auth_tag nonce ≡ ok decrypted_text
  pub parsed : E.from_json decrypted_text ≡ ok r
  pub allowed : allows E.features r.proof_request_type ≡ true
  pub known : has (circuit r.proof_request_type).name zkeys ≡ true

module _ (E : Env) (zkeys : List (Text × Text)) (nonce cipher_text auth_tag : Bytes) where
  abbrev verdict_on : Option Bytes → Result SubmitRequest Exit
  verdict_on = verdict E zkeys nonce cipher_text auth_tag

  judged-eq-ok :
      (q : SubmitRequest) {r : SubmitRequest}
      → judged E zkeys q ≡ ok r
      → (q ≡ r)
        × (allows E.features q.proof_request_type ≡ true)
        × (has (circuit q.proof_request_type).name zkeys ≡ true)
  judged-eq-ok q h = ground arith

  pub verdict-IsAccepted :
      (found : Option Bytes) (r : SubmitRequest)
      → verdict_on found ≡ ok r
      → IsAccepted E zkeys nonce cipher_text auth_tag found r
  unfolding verdict
  verdict-IsAccepted none r h = cc
  verdict-IsAccepted (some secret) r h = elim (Bool-cases (length secret == 32)) [
    | inr long ↦ absurd (ground arith)
    | inl k ↦ elim (Result-cases (decrypt E.crypto secret cipher_text auth_tag nonce)) [
      | inr (f, d) ↦ absurd (ground arith)
      | inl (t, d) ↦ elim (Result-cases (E.from_json t)) [
        | inr (m, j) ↦ absurd (ground arith)
        | inl (q, j) ↦
            let accepted : judged E zkeys q ≡ ok r =
              rw (j, verdict) at (rw (d, verdict) at (rw (k, verdict) at h)) in
            let (same, allowed, known) = judged-eq-ok q accepted in
            record {
              secret = secret;
              decrypted_text = t;
              held_secret = refl;
              long = (==_iff _ _).0 k;
              opened = d;
              parsed = rw (← same) j;
              allowed = rw (← same) allowed;
              known = rw (← same) known;
            }
      ]
    ]
  ]

  pub verdict_of_IsAccepted :
      (found : Option Bytes) (r : SubmitRequest)
      → IsAccepted E zkeys nonce cipher_text auth_tag found r
      → verdict_on found ≡ ok r
  unfolding verdict
  verdict_of_IsAccepted found r a =
      rw (a.held_secret, verdict)
        (rw (a.long) (rw (a.opened) (rw (a.parsed) (rw (a.allowed, a.known)))))

  decrypt-ne-panicked :
      (key : Bytes)
      → length nonce ≡ 12
      → decrypt E.crypto key cipher_text auth_tag nonce ≢ err panicked
  unfolding decrypt plaintext
  decrypt-ne-panicked key n h = ground arith

  judged-ne-panic : (q : SubmitRequest) → judged E zkeys q ≢ err panic
  judged-ne-panic q h = ground arith

  -- With a nonce of the right length nothing panics.
  pub verdict-ne-panic : (found : Option Bytes) → length nonce ≡ 12 → verdict_on found ≢ err panic
  unfolding verdict
  verdict-ne-panic none n h = cc
  verdict-ne-panic (some secret) n h = elim (Bool-cases (length secret == 32)) [
    | inr long ↦ ground arith
    | inl k ↦ elim (Result-cases (decrypt E.crypto secret cipher_text auth_tag nonce)) [
      | inr (failed m, d) ↦ ground arith
      | inr (panicked, d) ↦ decrypt-ne-panicked secret n d
      | inl (t, d) ↦ elim (Result-cases (E.from_json t)) [
        | inr (m, j) ↦ ground arith
        | inl (q, j) ↦
            judged-ne-panic q (rw (j, verdict) at (rw (d, verdict) at (rw (k, verdict) at h)))
      ]
    ]
  ]
