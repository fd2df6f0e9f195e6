-- ===== src/Generators/Laws.antt =====
-- What the runs of src/generator do.
use tee_prover_server.Prelude.{◌≡◌, ◌≢◌, refl, ◌==◌, ◌++◌, Text, Bytes, codes, length, ◌↔◌}
use tee_prover_server.Prelude.{List, [], ◌∷◌, none, Result, ok, err, from_utf8, true, false}
use tee_prover_server.Prelude.{
  Fault, failed, panicked, Result-cases, Bool-cases, inl, inr, ◌⊎◌, arith,
}
use tee_prover_server.Types.{circuit}
use tee_prover_server.Store.{Uuid}
use tee_prover_server.Os.{Os, Output}
use tee_prover_server.Paths.{get_tmp_folder_path}
use tee_prover_server.Generators.{
  FileGenerator, WitnessGenerator, ProofGenerator, run_file, run_witness, run_proof,
  checked_command, unwrapped, clean, circuit_path,
}

nil_of_length : (bs : Bytes) → (length bs == 0) ≡ true → bs ≡ []
nil_of_length [] h = refl
nil_of_length (b ∷ bs) h = absurd (ground arith)

module _ (O : Os) (shown : Bytes → Fault) (program : Text) (arguments : List Text)
    (s : O.State) where
  abbrev checked : Result (Unit {0}) Fault
  checked = (checked_command O shown program arguments s).0

  -- A checked command passes exactly if it ran, succeeded and wrote no error.
  pub checked_command_ok : (checked ≡ ok tt) ↔ (
      (output : Output) × ((O.command program arguments s).0 ≡ ok output)
      × (output.success ≡ true)
      × (output.stderr ≡ []))
  unfolding checked_command
  checked_command_ok = (
    λ h. elim (Result-cases (O.command program arguments s).0) [
      | inr (e, lost) ↦ absurd (ground arith)
      | inl (output, ran) ↦ elim (Bool-cases (clean O output)) [
        | inr bad ↦ absurd (ground arith)
        | inl good ↦ (output, ran, ground arith, nil_of_length output.stderr (ground arith))
      ]
    ],
    λ (output, ran, success, silent). rw (ran, checked, checked_command) (ground arith),
  )

  checked_command_fault :
      checked ≡ err panicked
      → (output : Output) × ((O.command program arguments s).0 ≡ ok output)
        × (clean O output ≡ false)
        × (shown output.stderr ≡ panicked)
  unfolding checked_command
  checked_command_fault h = elim (Result-cases (O.command program arguments s).0) [
    | inr (e, lost) ↦ absurd (ground arith)
    | inl (output, ran) ↦ elim (Bool-cases (clean O output)) [
      | inl good ↦ absurd (ground arith)
      | inr bad ↦ (output, ran, bad, ground arith)
    ]
  ]

module _ (O : Os) (uuid_to_string : Uuid → Text) where
  -- The proof step never panics: every error of it is a text that can be recorded.
  pub run_proof-ne-panicked :
      (exe : Text) (g : ProofGenerator) (s : O.State)
      → (run_proof O uuid_to_string exe g s).0 ≢ err panicked
  unfolding run_proof from_utf8
  run_proof-ne-panicked exe g s h = ground arith

  unwrapped-panicked : (bytes : Bytes) → unwrapped O bytes ≡ panicked → from_utf8 bytes ≡ none
  unwrapped-panicked bytes h = ground arith

  -- What a command of the program answered, where that makes `str::from_utf8(..).unwrap()` panic.
  abbrev pub Odd : Text → List Text → O.State → Type 0
  Odd program arguments t =
      (output : Output) × ((O.command program arguments t).0 ≡ ok output)
      × (clean O output ≡ false)
      × (from_utf8 output.stderr ≡ none)

  module _ (circuit_folder : Text) (g : WitnessGenerator) (s : O.State) where
    abbrev exe : Text
    exe = circuit_path O uuid_to_string circuit_folder g.circuit_file_name

    abbrev tmp : Text
    tmp = get_tmp_folder_path (uuid_to_string g.uuid)

    -- The state after `chmod`.
    abbrev executable : O.State
    executable = (O.command (codes "chmod") (codes "+x" ∷ exe ∷ []) s).1

    -- The witness step panics only where `chmod +x` on the circuit's program ends badly, at the
    -- start of the step, with an error output that is not UTF-8; or where the circuit's program, run
    -- after it on the request's `input.json` and `output.wtns`, does.
    pub run_witness-panicked :
        (run_witness O uuid_to_string circuit_folder g s).0 ≡ err panicked
        → Odd (codes "chmod") (codes "+x" ∷ exe ∷ []) s
          ⊎ Odd exe ((tmp ++ codes "/input.json") ∷ (tmp ++ codes "/output.wtns") ∷ []) executable
    unfolding run_witness checked_command
    run_witness-panicked h =
        let chmod = checked_command O (unwrapped O) (codes "chmod") (codes "+x" ∷ exe ∷ []) s in
        let files = (tmp ++ codes "/input.json") ∷ (tmp ++ codes "/output.wtns") ∷ [] in
        let witness = checked_command O (unwrapped O) exe files executable in
        elim (Bool-cases (O.exists exe s)) [
          | inr missing ↦ absurd (ground arith)
          | inl there ↦ elim (Result-cases chmod.0) [
            | inr (failed m, e) ↦ absurd (ground arith)
            | inr (panicked, e) ↦
                let (output, ran, bad, odd) = checked_command_fault O (unwrapped O) _ _ s e in
                inl (output, ran, bad, unwrapped-panicked output.stderr odd)
            | inl (_, e) ↦ elim (Result-cases witness.0) [
              | inr (failed m, f) ↦ absurd (ground arith)
              | inr (panicked, f) ↦
                  let (output, ran, bad, odd) =
                    checked_command_fault O (unwrapped O) _ _ executable f in
                  inr (output, ran, bad, unwrapped-panicked output.stderr odd)
              | inl (_, f) ↦ absurd (ground arith)
            ]
          ]
        ]

    -- Some command did, in any case.
    pub run_witness-Odd :
        (run_witness O uuid_to_string circuit_folder g s).0 ≡ err panicked
        → (program : Text) × (arguments : List Text) × (t : O.State) × Odd program arguments t
    run_witness-Odd h = elim (run_witness-panicked h) [
      | inl odd ↦ (_, _, _, odd)
      | inr odd ↦ (_, _, _, odd)
    ]

  -- A run of the first step that succeeds returns the request and its circuit.
  pub run_file-returns :
      (g : FileGenerator) (s : O.State) (out : Uuid × Text)
      → (run_file O uuid_to_string g s).0 ≡ ok out
      → out ≡ (g.uuid, (circuit g.proof_request).name)
  unfolding run_file
  run_file-returns g s out h = ground arith

  pub run_file-ne-panicked :
      (g : FileGenerator) (s : O.State) → (run_file O uuid_to_string g s).0 ≢ err panicked
  unfolding run_file
  run_file-ne-panicked g s h = ground arith

  pub run_witness-returns :
      (circuit_folder : Text) (g : WitnessGenerator) (s : O.State) (out : Uuid × Text)
      → (run_witness O uuid_to_string circuit_folder g s).0 ≡ ok out
      → out ≡ (g.uuid, g.circuit_file_name)
  unfolding run_witness
  run_witness-returns circuit_folder g s out h = ground arith
