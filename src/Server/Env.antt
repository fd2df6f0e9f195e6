-- ===== src/Server/Env.antt =====
-- The state that the methods of src/server.rs share, what they call outside of the repository, and
-- the way in which they return. A method runs as one step on the state.
use tee_prover_server.Prelude.{ℕ, ◌≤◌, ◌≡◌, Bool, true, false, Text, Bytes, List, [], ◌∷◌, ◌++◌}
use tee_prover_server.Prelude.{Option, none, some, Result, ok, err}
use tee_prover_server.Types.{SubmitRequest, EndpointType}
use tee_prover_server.Store.{Uuid, Lru, LruStore}
use tee_prover_server.Store
use tee_prover_server.Database.{Postgres}
use tee_prover_server.Utils.{Crypto, TokenClient}
use tee_prover_server.Generators.{FileGenerator}

-- `tokio::sync::mpsc`. `items` is what was sent and not yet received; `recv` is `none` where there
-- is nothing to receive yet.
pub record Mpsc (A : Type 0) : Type 1 where
  pub Channel : Type 0
  pub send : A → Channel → Result (Unit {0}) Text × Channel
  pub recv : Channel → Option A × Channel
  pub items : Channel → List A
  pub closed : Channel → Bool
  -- How many of them it holds at most: what `channel` was called with.
  pub cap : Channel → ℕ

-- What tokio documents: `send` waits for room and then succeeds, unless the receiving half is gone;
-- `recv` takes what was sent first. `channel` panics for a capacity of zero.
pub record IsMpsc {A : Type 0} (M : Mpsc A) : Type 0 where
  pub send-open :
      (a : A) (c : M.Channel)
      → M.closed c ≡ false
      → ((M.send a c).0 ≡ ok tt) × (M.items (M.send a c).1 ≡ M.items c ++ (a ∷ []))
  pub send-closed :
      (a : A) (c : M.Channel)
      → M.closed c ≡ true
      → ((e : Text) × ((M.send a c).0 ≡ err e)) × (M.items (M.send a c).1 ≡ M.items c)
  pub recv-cons :
      (a : A) (rest : List A) (c : M.Channel)
      → M.items c ≡ a ∷ rest
      → ((M.recv c).0 ≡ some a) × (M.items (M.recv c).1 ≡ rest)
  pub recv-nil : (c : M.Channel) → M.items c ≡ [] → (M.recv c).0 ≡ none
  pub cap-pos : (c : M.Channel) → 1 ≤ M.cap c

-- The features of Cargo.toml that the build was given.
pub record Features : Type 0 where
  pub register : Bool
  pub dsc : Bool
  pub disclose : Bool
  pub cherrypick : Bool

pub record Env : Type 1 where
  pub features : Features
  pub lru : Lru
  pub postgres : Postgres
  pub mpsc : Mpsc FileGenerator
  pub crypto : Crypto
  pub tokens : TokenClient
  -- `Uuid::to_string`
  pub uuid_to_string : Uuid → Text
  -- `serde_json::from_str::<SubmitRequest>`
  pub from_json : Text → Result SubmitRequest Text
  -- `serde_plain::to_string`
  pub plain : EndpointType → Text

-- `RpcServerImpl`. The map from circuits to their keys is never changed.
pub record RpcServerImpl (E : Env) : Type 0 where
  pub store : LruStore E.lru
  pub file_generator_sender : E.mpsc.Channel
  pub circuit_zkey_map : List (Text × Text)
  pub db : E.postgres.State

-- `types::ErrorCode`, as far as the methods name it.
pub data ErrorCode : Type 0 where
  invalid_request invalid_params internal_error : ErrorCode

-- How a method ends other than by success: `ResponsePayload::error`, or a panic.
pub data Exit : Type 0 where
  error : ErrorCode → Text → Exit
  panic : Exit

module _ (E : Env) where
  abbrev pub M : Type 0 → Type 0
  M A = RpcServerImpl E → Result A Exit × RpcServerImpl E

module _ {E : Env} {A : Type 0} where
  abbrev pub pure : A → M E A
  pure a s = (ok a, s)

  abbrev pub throw : Exit → M E A
  throw e s = (err e, s)

  -- `return ResponsePayload::error(...)`
  abbrev pub reject : ErrorCode → Text → M E A
  reject code message = throw (error code message)

module _ {E : Env} {A B : Type 0} where
  abbrev pub resume :
      (A → M E B) → Result A Exit × RpcServerImpl E → Result B Exit × RpcServerImpl E
  resume f (ok a, s) = f a s
  resume f (err e, s) = (err e, s)

  infixl 5 ◌>>=◌
  abbrev pub ◌>>=◌ : M E A → (A → M E B) → M E B
  ◌>>=◌ m f s = resume f (m s)

module _ {E : Env} {B : Type 0} where
  infixl 5 ◌>>◌
  abbrev pub ◌>>◌ : M E (Unit {0}) → M E B → M E B
  m >> k = m >>= λ _. k

module _ (E : Env) where
  -- The methods of `LruStore` on the shared state.
  unfoldable pub insert_new_agreement : Uuid → Bytes → M E (Result (Unit {0}) Text)
  insert_new_agreement uuid secret s =
      let (done, store) = Store.insert_new_agreement E.lru E.uuid_to_string s.store uuid secret in
      (ok done, record s { store = store })

  unfoldable pub get_shared_secret : Uuid → M E (Option Bytes)
  get_shared_secret uuid s =
      let (found, store) = Store.get_shared_secret E.lru E.uuid_to_string s.store uuid in
      (ok found, record s { store = store })

  unfoldable pub remove_agreement : Uuid → M E (Unit {0})
  remove_agreement uuid s =
      (ok tt, record s { store = Store.remove_agreement E.lru E.uuid_to_string s.store uuid })
