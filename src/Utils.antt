-- ===== src/Utils.antt =====
-- src/utils.rs: decryption, and the attestation token. The crates behind them (p256, aes-gcm,
-- base64, hyper) are parameters.
use tee_prover_server.Prelude.{◌≡◌, ◌==◌, Text, Bytes, codes, from_utf8, length}
use tee_prover_server.Prelude.{List, ◌++◌, none, some, Result, ok, err, ◌>>=◌}
use tee_prover_server.Prelude.{Fault, failed, panicked, if◌then◌else◌}

pub record Crypto : Type 1 where
  -- `EphemeralSecret` and `PublicKey`
  pub Secret : Type 0
  pub Public : Type 0
  -- `PublicKey::from(&secret)`
  pub public_of : Secret → Public
  -- `PublicKey::from_sec1_bytes`, with the error as `{:?}` shows it
  pub from_sec1_bytes : Bytes → Result Public Text
  -- `to_encoded_point(true).to_bytes().to_vec()`
  pub compressed : Public → Bytes
  -- `diffie_hellman(&public).raw_secret_bytes().to_vec()`
  pub diffie_hellman : Secret → Public → Bytes
  -- `general_purpose::STANDARD.encode`
  pub base64 : Bytes → Text
  -- `Aes256Gcm::new(key).decrypt(nonce, text)`, the text with its tag at the end
  pub aes_decrypt : Bytes → Bytes → Bytes → Result Bytes Text
  -- `FromUtf8Error::to_string`
  pub utf8_error : Bytes → Text

-- What the crates document: both sides of an exchange get one secret, of 32 bytes; a compressed
-- key has 33 bytes and is read back.
pub record IsEcdh (C : Crypto) : Type 0 where
  pub dh_comm :
      (a b : C.Secret) → C.diffie_hellman a (C.public_of b) ≡ C.diffie_hellman b (C.public_of a)
  pub length-dh : (a : C.Secret) (p : C.Public) → length (C.diffie_hellman a p) ≡ 32
  pub length-compressed : (p : C.Public) → length (C.compressed p) ≡ 33
  pub from_sec1-compressed : (p : C.Public) → C.from_sec1_bytes (C.compressed p) ≡ ok p

-- A client's encryption: the cipher text and its tag, which `aes_decrypt` opens with the same key
-- and nonce.
pub record IsSealing (C : Crypto) (seal : Bytes → Bytes → Bytes → Bytes × Bytes) : Type 0 where
  pub length-tag : (key nonce plain : Bytes) → length (seal key nonce plain).1 ≡ 16
  pub decrypt-seal :
      (key nonce plain : Bytes)
      → length key ≡ 32
      → length nonce ≡ 12
      → C.aes_decrypt key nonce ((seal key nonce plain).0 ++ (seal key nonce plain).1) ≡ ok plain

module _ (C : Crypto) where
  -- The end of `decrypt`: the bytes as a text.
  unfoldable pub plaintext : Bytes → Result Text Fault
  plaintext bytes = elim (from_utf8 bytes) [
    | none ↦ err (failed (C.utf8_error bytes))
    | some t ↦ ok t
  ]

  -- `decrypt`. `Nonce::from_slice` panics at any length but 12.
  unfoldable pub decrypt : Bytes → Bytes → Bytes → Bytes → Result Text Fault
  unfolding plaintext
  decrypt key cipher_text auth_tag nonce =
      if length nonce == 12
      then elim (C.aes_decrypt key nonce (cipher_text ++ auth_tag)) [
        | ok bytes ↦ plaintext bytes
        | err e ↦ err (failed e)
      ]
      else err panicked

-- `TokenRequest`
pub record TokenRequest : Type 0 where
  pub audience : Text
  pub token_type : Text
  pub nonces : List Text

-- The client that asks the launcher for a token: `serde_json::to_string`, `Request::post` with a
-- header and a body, `Client::request` and `hyper::body::aggregate`.
pub record TokenClient : Type 1 where
  pub Request : Type 0
  pub Response : Type 0
  pub to_json : TokenRequest → Result Text Text
  pub post : Text → Text → Text → Text → Text → Result Request Text
  pub request : Request → Result Response Text
  pub aggregate : Response → Result Bytes Text

abbrev pub token_request : List Text → TokenRequest
token_request nonces = record { audience = codes "USER"; token_type = codes "PKI"; nonces = nonces }

-- `get_custom_token_bytes`; an error is shown as `{:?}` shows it.
unfoldable pub get_custom_token_bytes : TokenClient → List Text → Result Bytes Text
get_custom_token_bytes T nonces = do
  json ← T.to_json (token_request nonces)
  req ←
      T.post (codes "/run/container_launcher/teeserver.sock") (codes "/v1/token")
        (codes "Content-Type") (codes "application/json") json
  res ← T.request req
  T.aggregate res

module _ (C : Crypto) {seal : Bytes → Bytes → Bytes → Bytes × Bytes} (laws : IsSealing C seal) where
  -- A text that a client seals is decrypted to itself.
  pub decrypt-seal_lem :
      (key nonce : Bytes) (t : Text)
      → length key ≡ 32
      → length nonce ≡ 12
      → from_utf8 t ≡ some t
      → decrypt C key (seal key nonce t).0 (seal key nonce t).1 nonce ≡ ok t
  unfolding decrypt
  decrypt-seal_lem key nonce t k n valid =
      rw (n, laws.decrypt-seal key nonce t k n, decrypt) (rw (valid, plaintext))
