-- ===== src/Tests/Site.antt =====
-- A server on concrete parts, for the runs.
use tee_prover_server.Prelude.{true, false, Bytes, codes}
use tee_prover_server.Prelude.{List, [], ◌∷◌, ok}
use tee_prover_server.Types.{Circuit, ProofRequest, SubmitRequest, EndpointType}
use tee_prover_server.Database.{Column}
use tee_prover_server.Generators.{FileGenerator}
use tee_prover_server.Server.Env.{Env, RpcServerImpl}
use tee_prover_server.Server.Submit.Enqueue.{IsLawful}
use tee_prover_server.Tests.Crates.{
  list_lru, list_lru-IsLru, list_mpsc, list_mpsc-IsMpsc, repeat, toy_crypto, toy_tokens,
}
use tee_prover_server.Tests.System.{list_postgres, list_postgres-IsPostgres, all_columns}

abbrev pub vc : Circuit
vc = record { name = codes "vc"; inputs = codes "[]" }

abbrev pub request : SubmitRequest
request = record {
  onchain = true;
  proof_request_type =
      ProofRequest.disclose vc EndpointType.celo (codes "e") (codes "u") (codes "s") 2;
}

abbrev pub env_on : List Column → Env
env_on schema = record {
  features = record { register = false; dsc = false; disclose = true; cherrypick = false };
  lru = list_lru;
  postgres = list_postgres schema;
  mpsc = list_mpsc FileGenerator;
  crypto = toy_crypto;
  tokens = toy_tokens;
  uuid_to_string = λ u. u ∷ [];
  from_json = λ t. ok request;
  plain = λ e. codes "celo";
}

abbrev pub env : Env
env = env_on all_columns

pub laws_on : (schema : List Column) → IsLawful (env_on schema) schema
laws_on schema = record {
  lru = list_lru-IsLru;
  postgres = list_postgres-IsPostgres schema;
  mpsc = list_mpsc-IsMpsc FileGenerator;
}

abbrev pub server_on : (schema : List Column) → RpcServerImpl (env_on schema)
server_on schema = record {
  store = record { ecdh_store = record { size = 2; entries = [] } };
  file_generator_sender = record { waiting = []; gone = false };
  circuit_zkey_map = (codes "vc", codes "/z/vc.zkey") ∷ [];
  db = [];
}

abbrev pub server : RpcServerImpl env
server = server_on all_columns

abbrev pub laws : IsLawful env all_columns
laws = laws_on all_columns

abbrev pub nonce : Bytes
nonce = repeat 12 1

abbrev pub tag : Bytes
tag = repeat 16 0
