-- ===== src/Generators.antt =====
-- src/generator: the three steps of the pipeline, each a run on the operating system.
pub mod Laws
pub mod Files
use tee_prover_server.Prelude.{
  ℕ, ◌==◌, ◌++◌, ◌&&◌, ◌||◌, not, Bool, true, false, Text, Bytes, codes,
}
use tee_prover_server.Prelude.{
  length, List, [], ◌∷◌, Option, none, some, Result, ok, err, from_utf8,
}
use tee_prover_server.Prelude.{Fault, failed, panicked, if◌then◌else◌, map_err}
use tee_prover_server.Types.{ProofRequest, ProofType, proof_type, circuit}
use tee_prover_server.Store.{Uuid}
use tee_prover_server.Paths.{join, get_tmp_folder_path}
use tee_prover_server.Os.{Os, Output}

pub record FileGenerator : Type 0 where
  pub uuid : Uuid
  pub proof_request : ProofRequest

pub record WitnessGenerator : Type 0 where
  pub uuid : Uuid
  pub circuit_file_name : Text

pub record ProofGenerator : Type 0 where
  pub uuid : Uuid
  pub zkey_file_path : Text

-- A run on the operating system. What it did before a fault stays done.
abbrev pub Io : Type 0 → Type 0 → Type 0
Io S A = S → Result A Fault × S

module _ {S A : Type 0} where
  abbrev pub pure : A → Io S A
  pure a s = (ok a, s)

  abbrev pub throw : Fault → Io S A
  throw e s = (err e, s)

module _ {S A B : Type 0} where
  abbrev resume : (A → Io S B) → Result A Fault × S → Result B Fault × S
  resume f (ok a, s) = f a s
  resume f (err e, s) = (err e, s)

  infixl 5 ◌>>=◌
  abbrev pub ◌>>=◌ : Io S A → (A → Io S B) → Io S B
  ◌>>=◌ m f s = resume f (m s)

module _ {S B : Type 0} where
  infixl 5 ◌>>◌
  abbrev pub ◌>>◌ : Io S (Unit {0}) → Io S B → Io S B
  m >> k = m >>= λ _. k

module _ (O : Os) where
  -- A call of the operating system, with its error passed on.
  abbrev call : {A : Type 0} → (O.State → Result A Text × O.State) → Io O.State A
  call f s = let (r, s') = f s in (map_err failed r, s')

  -- What the error output of a command becomes: `str::from_utf8(..).unwrap()`, and
  -- `str::from_utf8(..).unwrap_or("Proof failed")`.
  abbrev pub unwrapped : Bytes → Fault
  unwrapped bytes = elim (from_utf8 bytes) [ none ↦ panicked | some t ↦ failed t ]

  abbrev pub or_default : Bytes → Fault
  or_default bytes = elim (from_utf8 bytes) [
    | none ↦ failed (codes "Proof failed")
    | some t ↦ failed t
  ]

  -- A command that has to succeed with nothing in its error output.
  abbrev pub clean : Output → Bool
  clean output = output.success && length output.stderr == 0

  abbrev accepted : (Bytes → Fault) → Output → Io O.State (Unit {0})
  accepted shown output = if clean output then pure tt else throw (shown output.stderr)

  unfoldable pub checked_command : (Bytes → Fault) → Text → List Text → Io O.State (Unit {0})
  checked_command shown program arguments = do
    output ← call (O.command program arguments)
    accepted shown output

  module _ (uuid_to_string : Uuid → Text) where
    abbrev pub input_path : Uuid → Text
    input_path uuid = join (get_tmp_folder_path (uuid_to_string uuid)) (codes "input.json")

    -- `FileGenerator::run`
    unfoldable pub run_file : FileGenerator → Io O.State (Uuid × Text)
    run_file g = do
      call (O.create_dir_all (get_tmp_folder_path (uuid_to_string g.uuid)))
      call (O.create (input_path g.uuid))
      _ ← call (O.write (input_path g.uuid) (circuit g.proof_request).inputs)
      pure (g.uuid, (circuit g.proof_request).name)

    -- The executable of a circuit.
    abbrev pub circuit_path : Text → Text → Text
    circuit_path circuit_folder name = join (join circuit_folder (name ++ codes "_cpp")) name

    -- `WitnessGenerator::run`
    unfoldable pub run_witness : Text → WitnessGenerator → Io O.State (Uuid × Text)
    run_witness circuit_folder g s =
        if O.exists (circuit_path circuit_folder g.circuit_file_name) s
        then (do
          let exe = circuit_path circuit_folder g.circuit_file_name
          let tmp = get_tmp_folder_path (uuid_to_string g.uuid)
          checked_command unwrapped (codes "chmod") (codes "+x" ∷ exe ∷ [])
          checked_command unwrapped exe
              ((tmp ++ codes "/input.json") ∷ (tmp ++ codes "/output.wtns") ∷ [])
          pure (g.uuid, g.circuit_file_name))
            s
        else throw
            (failed
              (codes "Circuit not found: " ++ circuit_path circuit_folder g.circuit_file_name))
            s

    -- `ProofGenerator::run`
    unfoldable pub run_proof : Text → ProofGenerator → Io O.State (Unit {0})
    unfolding checked_command
    run_proof rapid_snark_path_exe g s =
        let tmp = get_tmp_folder_path (uuid_to_string g.uuid) in
        if O.exists (join tmp (codes "output.wtns")) s
        then checked_command or_default rapid_snark_path_exe
            (g.zkey_file_path
              ∷ join tmp (codes "output.wtns")
              ∷ join tmp (codes "proof.json")
              ∷ join tmp (codes "public_inputs.json")
              ∷ [])
            s
        else throw (failed (codes "Witness file does not exist")) s
