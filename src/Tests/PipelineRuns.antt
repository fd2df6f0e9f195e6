-- ===== src/Tests/PipelineRuns.antt =====
-- A pipeline at work, and the theorems on src/generator and src/main.rs at its data.
use tee_prover_server.Prelude.{◌≡◌, refl, ◌⊎◌, Bool, true, false, Text, Bytes, codes, text_eq}
use tee_prover_server.Prelude.{List, [], ◌∷◌, ok, err, from_utf8, utf8_valid}
use tee_prover_server.Prelude.{panicked, ◌++◌, Result}
use tee_prover_server.Prelude.Dict.{lookup, has, remove}
use tee_prover_server.Types.{Circuit, ProofRequest, EndpointType, circuit}
use tee_prover_server.Store.{Uuid}
use tee_prover_server.Paths.{join, is_absolute, needs_separator, get_tmp_folder_path}
use tee_prover_server.Os.{Output}
use tee_prover_server.Database.{Proof, status_to_i32, read_results}
use tee_prover_server.Generators.{
  FileGenerator, WitnessGenerator, ProofGenerator, run_file, run_witness, run_proof,
  checked_command,
}
use tee_prover_server.Generators.Laws
use tee_prover_server.Generators.Files
use tee_prover_server.Startup.{circuit_name, zkey_path, add_circuit, load_circuits}
use tee_prover_server.Pipeline.{
  Plant, World, finished, crashed, file_task, witness_task, proof_round,
}
use tee_prover_server.Pipeline.Stages
use tee_prover_server.Pipeline.Keys
use tee_prover_server.Pipeline.Folders
use tee_prover_server.Tests.Crates.{list_mpsc, list_mpsc-IsMpsc}
use tee_prover_server.Tests.System.{list_postgres, list_postgres-IsPostgres, all_columns, list_os}

program : Unit {0}
unfolding lookup has remove text_eq from_utf8 utf8_valid circuit join is_absolute needs_separator
    get_tmp_folder_path run_file run_witness run_proof checked_command circuit_name add_circuit
    load_circuits file_task witness_task proof_round status_to_i32 read_results
program = tt

abbrev vc : Circuit
vc = record { name = codes "vc"; inputs = codes "[1]" }

abbrev to_string : Uuid → Text
to_string u = u ∷ []

abbrev job : FileGenerator
job = record {
  uuid = b'9';
  proof_request = ProofRequest.disclose vc EndpointType.celo (codes "e") (codes "u") (codes "s") 2;
}

abbrev witness_job : WitnessGenerator
witness_job = record { uuid = b'9'; circuit_file_name = codes "vc" }

abbrev proof_job : ProofGenerator
proof_job = record { uuid = b'9'; zkey_file_path = codes "/z/vc.zkey" }

abbrev pub silent : Output
silent = record { success = true; stderr = [] }

-- A failure whose error output is not UTF-8.
abbrev odd : Output
odd = record { success = false; stderr = 0xff ∷ [] }

abbrev pub sample : Proof
sample = record { pi_a = []; pi_b = []; pi_c = []; protocol = codes "groth16" }

abbrev plant : Output → Plant
plant answer = record {
  os = list_os 2 answer;
  postgres = list_postgres all_columns;
  witnesses = list_mpsc WitnessGenerator;
  proofs = list_mpsc ProofGenerator;
  uuid_to_string = to_string;
  parse_proof = λ t. ok sample;
  parse_inputs = λ t. ok (t ∷ []);
  circuit_folder = codes "/c";
  zkey_folder = codes "/z";
  rapid_snark_path = codes "/r";
  circuit_zkey_map = (codes "vc", codes "/z/vc.zkey") ∷ [];
}

abbrev laws : (answer : Output) → Stages.IsLawful (plant answer) all_columns
laws answer = record {
  postgres = list_postgres-IsPostgres all_columns;
  witnesses = list_mpsc-IsMpsc WitnessGenerator;
  proofs = list_mpsc-IsMpsc ProofGenerator;
}

abbrev files : List (Text × Bytes)
files =
    (codes "/c/vc_cpp/vc", [])
    ∷ (codes "./tmp_9/output.wtns", [])
    ∷ (codes "./tmp_9/proof.json", codes "{}")
    ∷ (codes "./tmp_9/public_inputs.json", codes "[]")
    ∷ []

abbrev world : (answer : Output) → World (plant answer)
world answer = record {
  os = files;
  db = [];
  witness_generator_sender = record { waiting = []; gone = false };
  proof_generator_sender = record { waiting = []; gone = false };
}

file_task_ok : (file_task (plant silent) job (world silent)).0 ≡ finished
unfolding program
file_task_ok = refl

witness_task_crash : (witness_task (plant odd) witness_job 7 (world odd)).0 ≡ crashed
unfolding program
witness_task_crash = refl

witness_task-Removed_example :
    (Stages.proof_jobs (witness_task (plant silent) witness_job 7 (world silent)).1
      ≡ Stages.proof_jobs (world silent)
        ++ (Folders.proof_job (plant silent) witness_job (codes "/z/vc.zkey") ∷ []))
    ⊎ (Folders.Removed
          (plant silent)
          b'9'
          (witness_task (plant silent) witness_job 7 (world silent)).1
        ⊎ (((run_witness (list_os 2 silent) to_string (codes "/c") witness_job files).0
              ≡ err panicked)
            × ((witness_task (plant silent) witness_job 7 (world silent)).1.os
                ≡ (run_witness (list_os 2 silent) to_string (codes "/c") witness_job files).1)))
unfolding program
witness_task-Removed_example =
    Folders.witness_task-Removed (laws silent) witness_job 7 (codes "/z/vc.zkey") (world silent)
      refl

proof_round-Removed_example :
    Folders.Removed (plant silent) b'9' (proof_round (plant silent) proof_job 7 (world silent)).1
proof_round-Removed_example = Folders.proof_round-Removed (laws silent) proof_job 7 (world silent)

odd_run : (run_witness (list_os 2 odd) to_string (codes "/c") witness_job files).0 ≡ err panicked
unfolding program
odd_run = refl

abbrev program_path : Text
program_path = codes "/c/vc_cpp/vc"

-- What is there once the prover has run.
abbrev proved_files : List (Text × Bytes)
proved_files =
    (codes "./tmp_9/output.wtns", [])
    ∷ (codes "./tmp_9/proof.json", codes "p")
    ∷ (codes "./tmp_9/public_inputs.json", codes "i")
    ∷ []

ends_in_nine : needs_separator (to_string b'9') ≡ true
unfolding program
ends_in_nine = refl

runs-Ran_example :
    Files.Wrote (list_os 2 silent) to_string b'9' ends_in_nine (codes "[1]")
    × (Files.Ran (list_os 2 silent) (codes "chmod") (codes "+x" ∷ program_path ∷ []) files
        × Files.Ran
            (list_os 2 silent)
            program_path
            (codes "./tmp_9/input.json" ∷ codes "./tmp_9/output.wtns" ∷ [])
            files)
    × ((has (codes "./tmp_9/output.wtns") proved_files ≡ true)
        × Files.Ran
            (list_os 2 silent)
            (codes "prover")
            (codes "/z/vc.zkey"
              ∷ codes "./tmp_9/output.wtns"
              ∷ codes "./tmp_9/proof.json"
              ∷ codes "./tmp_9/public_inputs.json"
              ∷ [])
            proved_files)
    × ((a : Text) × (b : Text) × ((list_os 2 silent).read_to_string
            (codes "./tmp_9/proof.json")
            proved_files
          ≡ ok a)
        × ((list_os 2 silent).read_to_string (codes "./tmp_9/public_inputs.json") proved_files
            ≡ ok b)
        × (◌≡◌ {A = Result Proof Text} (ok sample) (ok sample))
        × (◌≡◌ {A = Result (List Text) Text} (ok (b ∷ [])) (ok (codes "i" ∷ []))))
unfolding program
runs-Ran_example =
    Files.runs-Ran (list_os 2 silent) to_string b'9' ends_in_nine job.proof_request files
      (b'9', codes "vc") refl (codes "/c") (codes "vc") files (b'9', codes "vc") refl
      (codes "prover") (codes "/z/vc.zkey") proved_files refl (λ t. ok sample) (λ t. ok (t ∷ []))
      proved_files sample (codes "i" ∷ []) refl

run_witness-panicked_example :
    Laws.Odd (list_os 2 odd) to_string (codes "chmod") (codes "+x" ∷ program_path ∷ []) files
    ⊎ Laws.Odd
        (list_os 2 odd)
        to_string
        program_path
        (codes "./tmp_9/input.json" ∷ codes "./tmp_9/output.wtns" ∷ [])
        ((list_os 2 odd).command (codes "chmod") (codes "+x" ∷ program_path ∷ []) files).1
unfolding program
run_witness-panicked_example =
    Laws.run_witness-panicked (list_os 2 odd) to_string (codes "/c") witness_job files odd_run

-- A folder with one circuit.
abbrev entries : List Bytes
entries = codes "vc_cpp" ∷ []

abbrev present : Text → Bool
present p = true

abbrev loaded : Text → List (Text × Text)
loaded folder = (codes "vc", zkey_path folder (codes "vc")) ∷ []

-- The machine with the keys of a folder.
abbrev keyed : Text → Plant
keyed folder = record (plant silent) { zkey_folder = folder; circuit_zkey_map = loaded folder }

abbrev keyed_world : (folder : Text) → World (keyed folder)
keyed_world folder = record {
  os = files;
  db = (world silent).db;
  witness_generator_sender = (world silent).witness_generator_sender;
  proof_generator_sender = (world silent).proof_generator_sender;
}
