-- ===== src/Tests/Host.antt =====
-- A machine for the server of src/main.rs on which nothing fails, its start, and its states on the
-- way to a first proof.
use tee_prover_server.Prelude.{◌≡◌, refl, ◌++◌, Text, Bytes, codes, text_eq, if◌then◌else◌}
use tee_prover_server.Prelude.{
  List, [], ◌∷◌, Option, true, false, arith, none, some, ok, from_utf8, utf8_valid,
}
use tee_prover_server.Prelude.Dict.{lookup, has, remove, touch}
use tee_prover_server.Types.{circuit, proof_type, to_i32, as_i32}
use tee_prover_server.Arguments.{parse}
use tee_prover_server.Store
use tee_prover_server.Store.{Uuid}
use tee_prover_server.Os.{Os}
use tee_prover_server.Paths.{join, is_absolute, needs_separator, get_tmp_folder_path}
use tee_prover_server.Database.{
  Row, created_columns, status_to_i32, set_witness_generated, update_proof, fail_proof,
}
use tee_prover_server.Database
use tee_prover_server.Generators.{
  FileGenerator, WitnessGenerator, ProofGenerator, run_file, run_witness, run_proof,
  checked_command,
}
use tee_prover_server.Utils.{get_custom_token_bytes, decrypt}
use tee_prover_server.Server.Env.{Env, Mpsc, IsMpsc}
use tee_prover_server.Server.Hello.{hello}
use tee_prover_server.Server.Submit.{open_request, checked, allows, allowed_proof_type}
use tee_prover_server.Server.Submit.Endpoint.{endpoint_of}
use tee_prover_server.Server.Submit.Enqueue
use tee_prover_server.Server.Interleave.{greet, begin, turn, advance, resume, happen}
use tee_prover_server.Startup.{circuit_name, add_circuit, load_circuits}
use tee_prover_server.Pipeline.Tasks.{
  Task, writing, passing_on, computing, marking, handing_on, over, proceed,
}
use tee_prover_server.System.{
  System, called, file_spawned, witness_spawned, task_ran, proof_received, proof_ran,
}
use tee_prover_server.Launch.{
  Host, Launched, launch, database_url, read_circuits, with_prover, all_entries, site, system,
}
use tee_prover_server.Launch.Service
use tee_prover_server.Tests.Crates.{list_lru-IsLru, repeat}
use tee_prover_server.Tests.System.{list_os, list_postgres-IsPostgres, all_columns}
use tee_prover_server.Tests.Site.{env, request, nonce, tag}
use tee_prover_server.Tests.PipelineRuns.{silent, sample}

unfoldable pub program : Unit {0}
unfolding hello get_custom_token_bytes Store.insert_new_agreement lookup has remove touch text_eq
    from_utf8 utf8_valid allows allowed_proof_type circuit proof_type to_i32 as_i32 endpoint_of
    created_columns status_to_i32 decrypt Store.get_shared_secret Store.remove_agreement
    Database.create_proof_status happen resume advance open_request checked join is_absolute
    needs_separator get_tmp_folder_path run_file run_witness run_proof checked_command circuit_name
    add_circuit load_circuits proceed set_witness_generated update_proof fail_proof parse launch
    database_url read_circuits with_prover all_entries Store.new Database.read_results
program = tt

abbrev front : {A : Type 0} → List A → Option A × List A
front [] = (none, [])
front (a ∷ rest) = (some a, rest)

-- A channel that nobody closes.
abbrev pub open_mpsc : (A : Type 0) → Mpsc A
open_mpsc A = record {
  Channel = List A;
  send = λ a q. (ok tt, q ++ (a ∷ []));
  recv = front;
  items = λ q. q;
  closed = λ q. false;
  cap = λ q. 10;
}

open_mpsc-IsMpsc : (A : Type 0) → IsMpsc (open_mpsc A)
open_mpsc-IsMpsc A = record {
  send-open = λ a q h. (refl, refl);
  send-closed = λ a q h. absurd (cc);
  recv-cons = λ a rest q h. rw h (refl, refl);
  recv-nil = λ q h. rw h refl;
  cap-pos = λ q. omega arith;
}

-- Every file is there and can be read.
abbrev pub sure_os : Os
sure_os = record (list_os 2 silent) { exists = λ p s. true; read_to_string = λ p s. ok [] }

abbrev pub open_env : Env
open_env = record env { mpsc = open_mpsc FileGenerator }

pub laws : Enqueue.IsLawful open_env all_columns
laws = record {
  lru = list_lru-IsLru;
  postgres = list_postgres-IsPostgres all_columns;
  mpsc = open_mpsc-IsMpsc FileGenerator;
}

abbrev pub files : List (Text × Bytes)
files = []

-- The machine, with what its database holds.
abbrev pub host_on : List Row → Host
host_on db = record {
  env = open_env;
  os = sure_os;
  witnesses = open_mpsc WitnessGenerator;
  proofs = open_mpsc ProofGenerator;
  parse_proof = λ t. ok sample;
  parse_inputs = λ t. ok (t ∷ []);
  Client = Unit {0};
  client = some tt;
  access_secret_version = λ c name. some (some (codes "postgres://"));
  var = λ name. some (codes "x");
  given = λ k. if text_eq k (codes "project-id") then some (codes "p") else none;
  Listener = Text;
  listener = λ url. some url;
  local_addr = λ l. some l;
  file_channel = λ n. [];
  witness_channel = λ n. [];
  proof_channel = λ n. [];
  connect = λ n url. some db;
  read_dir = λ p s. some (some (codes "vc_cpp") ∷ []);
}

pub host_laws_on : (db : List Row) → Service.IsLawful (host_on db) all_columns
host_laws_on db = record {
  server = laws;
  witnesses = open_mpsc-IsMpsc WitnessGenerator;
  proofs = open_mpsc-IsMpsc ProofGenerator;
  items-file_channel = λ n h. refl;
  items-witness_channel = λ n h. refl;
  items-proof_channel = λ n h. refl;
}

abbrev pub launched_on : (db : List Row) → Launched (host_on db)
launched_on db = record {
  config = record {
    server_address = codes "0.0.0.0:3001";
    project_id = codes "p";
    secret_id = codes "DB_URL";
    circuit_folder = codes "../circuits";
    zkey_folder = codes "./zkeys";
    rapidsnark_path = codes "./rapidsnark";
  };
  server = record {
    store = record { ecdh_store = record { size = 1000; entries = [] } };
    file_generator_sender = [];
    circuit_zkey_map = (codes "vc", codes "./zkeys/vc.zkey") ∷ [];
    db = db;
  };
  witness_generator_sender = [];
  proof_generator_sender = [];
  rapid_snark_path = codes "./rapidsnark/package/bin/prover";
}

pub launch_ok_on : (db : List Row) → launch (host_on db) files ≡ some (launched_on db)
unfolding program
launch_ok_on db = refl

abbrev pub host : Host
host = host_on []

abbrev pub launched : Launched host
launched = launched_on []

-- A request from the greeting of its session to its proof.
abbrev pub id : Uuid
id = b'9'

abbrev pub job : FileGenerator
job = record { uuid = id; proof_request = request.proof_request_type }

abbrev pub witness_job : WitnessGenerator
witness_job = record { uuid = id; circuit_file_name = codes "vc" }

abbrev pub proof_job : ProofGenerator
proof_job = record { uuid = id; zkey_file_path = codes "./zkeys/./zkeys/vc.zkey" }

abbrev pub Server : Type 0
Server = System (site host launched)

abbrev pub begun : Server
begun = system host launched files

abbrev pub greeted : Server
greeted = called (greet 5 (7 ∷ repeat 32 0) id) begun

abbrev pub asked : Server
asked = called (begin id nonce (codes "{}") tag 100) greeted

abbrev pub read_it : Server
read_it = called (turn 0) asked

abbrev pub recorded : Server
recorded = called (turn 0) read_it

abbrev pub queued : Server
queued = called (turn 0) recorded

abbrev pub answered : Server
answered = called (turn 0) queued

abbrev pub spawned : Server
spawned = file_spawned job answered

abbrev pub written : Server
written = task_ran (writing job) [] [] 101 spawned

abbrev pub passed_on : Server
passed_on = task_ran (passing_on witness_job) [] [] 101 written

abbrev pub spawned_again : Server
spawned_again = witness_spawned witness_job passed_on

abbrev pub others : List Task
others = over ∷ []

abbrev pub computed : Server
computed = task_ran (computing witness_job) [] others 101 spawned_again

abbrev pub marked : Server
marked = task_ran (marking proof_job) [] others 101 computed

abbrev pub handed_on : Server
handed_on = task_ran (handing_on proof_job) [] others 101 marked

abbrev pub received : Server
received = proof_received proof_job handed_on

abbrev pub proved : Server
proved = proof_ran 102 received

abbrev pub stored : Server
stored = proof_ran 102 proved

abbrev pub finished_it : Server
finished_it = proof_ran 102 stored
