-- ===== src/Os.antt =====
-- The operating system, as the program uses it: files, folders and commands. All of them may fail,
-- and a failure is the text that the program shows of it. A path is a text.
use tee_prover_server.Prelude.{ℕ, Bool, Text, Bytes, List, Result}

-- `std::process::Output`, of which the program reads the success and the error output.
pub record Output : Type 0 where
  pub success : Bool
  pub stderr : Bytes

pub record Os : Type 1 where
  pub State : Type 0
  -- `Path::exists`
  pub exists : Text → State → Bool
  -- `std::fs::read_to_string`
  pub read_to_string : Text → State → Result Text Text
  -- `tokio::fs::create_dir_all` and `tokio::fs::remove_dir_all`
  pub create_dir_all : Text → State → Result (Unit {0}) Text × State
  pub remove_dir_all : Text → State → Result (Unit {0}) Text × State
  -- `tokio::fs::File::create`, which leaves an empty file
  pub create : Text → State → Result (Unit {0}) Text × State
  -- one `write` to a file that `create` opened: the number of bytes that tokio has taken, to write
  -- them in the background
  pub write : Text → Bytes → State → Result ℕ Text × State
  -- `tokio::process::Command::new(program).args(arguments).output()`
  pub command : Text → List Text → State → Result Output Text × State
