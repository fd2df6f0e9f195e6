-- ===== src/Launch.antt =====
-- The start of `main` in src/main.rs, up to the loops of the stages: the database's address from the
-- secret manager, the connections, the map from circuits to keys, the store and the server.
pub mod Ready
pub mod Service
use tee_prover_server.Prelude.{
  ℕ, ◌++◌, Bool, true, Text, Bytes, codes, from_utf8, List, [], ◌∷◌, Option, none, some,
}
use tee_prover_server.Prelude.{Result, if◌then◌else◌}
use tee_prover_server.Prelude.Panics.{◌>>=◌}
use tee_prover_server.Arguments.{Config, parse}
use tee_prover_server.Os.{Os}
use tee_prover_server.Paths.{join}
use tee_prover_server.Store
use tee_prover_server.Database.{Proof}
use tee_prover_server.Generators.{WitnessGenerator, ProofGenerator}
use tee_prover_server.Server.Env.{Env, RpcServerImpl, Mpsc}
use tee_prover_server.Startup.{load_circuits}
use tee_prover_server.Pipeline.Tasks.{over}
use tee_prover_server.System.{Site, System}

-- What `main` calls outside of the repository; `none` is an error, which `main` unwraps.
pub record Host : Type 1 where
  pub env : Env
  pub os : Os
  pub witnesses : Mpsc WitnessGenerator
  pub proofs : Mpsc ProofGenerator
  pub parse_proof : Text → Result Proof Text
  pub parse_inputs : Text → Result (List Text) Text
  -- `SecretManagerService::builder().build()`, and the payload of `access_secret_version()`
  pub Client : Type 0
  pub client : Option Client
  pub access_secret_version : Client → Text → Option (Option Bytes)
  -- `std::env::var`
  pub var : Text → Option Text
  -- What the command line gives for a long option.
  pub given : Text → Option Text
  -- `Server::builder().build(url)` and `local_addr()`
  pub Listener : Type 0
  pub listener : Text → Option Listener
  pub local_addr : Listener → Option Text
  -- `tokio::sync::mpsc::channel(n)`
  pub file_channel : ℕ → env.mpsc.Channel
  pub witness_channel : ℕ → witnesses.Channel
  pub proof_channel : ℕ → proofs.Channel
  -- `PgPoolOptions::new().max_connections(n).connect(url)`
  pub connect : ℕ → Text → Option env.postgres.State
  -- `std::fs::read_dir`: the names of the entries; an entry may be an error of its own.
  pub read_dir : Text → os.State → Option (List (Option Bytes))

-- `format!("projects/{}/secrets/{}/versions/latest", project, secret)`
abbrev pub secret_name : Text → Text → Text
secret_name project secret =
    codes "projects/" ++ (project ++ (codes "/secrets/" ++ (secret ++ codes "/versions/latest")))

abbrev pub prover_path : Config → Text
prover_path config =
    join (join (join config.rapidsnark_path (codes "package")) (codes "bin")) (codes "prover")

-- `entry.unwrap()` of every entry. The loop unwraps one as it comes to it; a panic is the same there.
unfoldable pub all_entries : List (Option Bytes) → Option (List Bytes)
all_entries [] = some []
all_entries (e ∷ es) = do name ← e; names ← all_entries es; some (name ∷ names)

-- What `main` has in hand when its loops begin.
pub record Launched (H : Host) : Type 0 where
  pub config : Config
  pub server : RpcServerImpl H.env
  pub witness_generator_sender : H.witnesses.Channel
  pub proof_generator_sender : H.proofs.Channel
  pub rapid_snark_path : Text

module _ (H : Host) where
  unfoldable pub database_url : Option Text
  database_url = do
    client ← H.client
    project ← H.var (codes "PROJECT_ID")
    secret ← H.var (codes "SECRET_ID")
    resp ← H.access_secret_version client (secret_name project secret)
    payload ← resp
    from_utf8 payload

  unfoldable pub read_circuits : Config → H.os.State → Option (List (Text × Text))
  read_circuits config os = do
    entries ← H.read_dir config.circuit_folder os
    names ← all_entries entries
    load_circuits (λ p. H.os.exists p os) config.zkey_folder names []

  -- The end of the start, once there is a store and a map.
  unfoldable pub with_prover : Config → RpcServerImpl H.env → H.os.State → Option (Launched H)
  with_prover config server os =
      if H.os.exists (prover_path config) os
      then some (record {
        config = config;
        server = server;
        witness_generator_sender = H.witness_channel 10;
        proof_generator_sender = H.proof_channel 10;
        rapid_snark_path = prover_path config;
      })
      else none

  -- The start; `none` is a panic, or arguments that are refused. The server is listening before the
  -- check of the prover, so a call may come in between; it ends with the program if the check fails.
  unfoldable pub launch : H.os.State → Option (Launched H)
  launch os = do
    url ← database_url
    config ← parse H.given
    listener ← H.listener config.server_address
    server_addr ← H.local_addr listener
    pool ← H.connect 20 url
    zkeys ← read_circuits config os
    store ← Store.new H.env.lru H.env.uuid_to_string 1000
    with_prover config
        (record {
          store = store;
          file_generator_sender = H.file_channel 10;
          circuit_zkey_map = zkeys;
          db = pool;
        })
        os

-- The server at the beginning of its loops.
abbrev pub site : (H : Host) → Launched H → Site
site H l = record {
  env = H.env;
  os = H.os;
  witnesses = H.witnesses;
  proofs = H.proofs;
  parse_proof = H.parse_proof;
  parse_inputs = H.parse_inputs;
  circuit_folder = l.config.circuit_folder;
  zkey_folder = l.config.zkey_folder;
  rapid_snark_path = l.rapid_snark_path;
  circuit_zkey_map = l.server.circuit_zkey_map;
}

abbrev pub system : (H : Host) (l : Launched H) → H.os.State → System (site H l)
system H l os = record {
  handlers = [];
  server = l.server;
  os = os;
  witness_generator_sender = l.witness_generator_sender;
  proof_generator_sender = l.proof_generator_sender;
  tasks = [];
  proof_task = over;
}
