-- ===== src/System/Mishaps.antt =====
-- What makes src/server.rs or src/main.rs drop a request, or leave it without a mark of its failure.
use tee_prover_server.Prelude.{◌≡◌, true, Text, List, none, ok, err, from_utf8}
use tee_prover_server.Prelude.Dict.{lookup}
use tee_prover_server.Store.{Uuid}
use tee_prover_server.Database.{fail_proof}
use tee_prover_server.Os.{Output}
use tee_prover_server.Generators.{WitnessGenerator}
use tee_prover_server.Server.Env.{Env}
use tee_prover_server.Pipeline.{Plant}
use tee_prover_server.Pipeline.Tasks.{Task, computing}

-- A call finds that the channel of the first stage has lost its receiver.
abbrev pub Lost : Env → Type 0
Lost E = (c : E.mpsc.Channel) × (E.mpsc.closed c ≡ true)

-- A task is ended by a panic, on an error output that is not UTF-8 or for a circuit that the map
-- lacks; or the database refuses to mark a request as failed.
pub data Mishap (W : Plant) : Task → Type 0 where
  odd_output :
      {t : Task} (program : Text) (arguments : List Text) (os : W.os.State) (output : Output)
      → (W.os.command program arguments os).0 ≡ ok output
      → from_utf8 output.stderr ≡ none
      → Mishap W t
  no_key :
      (g : WitnessGenerator)
      → lookup g.circuit_file_name W.circuit_zkey_map ≡ none
      → Mishap W (computing g)
  unmarked :
      {t : Task} (uuid : Uuid) (why : Text) (db : W.postgres.State) (e : Text)
      → (fail_proof W.postgres uuid why db).0 ≡ err e
      → Mishap W t
