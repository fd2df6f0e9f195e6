-- ===== src/Generators/Files.antt =====
-- The files by which the runs of src/generator and `update_proof` of src/db/mod.rs are linked: what
-- one of them writes, the next one reads.
use tee_prover_server.Prelude.{
  ℕ, ◌≡◌, refl, ◌++◌, Text, codes, List, [], ◌∷◌, Result, ok, true, false, arith,
}
use tee_prover_server.Prelude.{Result-cases, Bool-cases, inl, inr}
use tee_prover_server.Types.{ProofRequest, circuit}
use tee_prover_server.Store.{Uuid}
use tee_prover_server.Os.{Os, Output}
use tee_prover_server.Paths.{join, is_absolute, needs_separator, get_tmp_folder_path}
use tee_prover_server.Database.{Proof, read_results}
use tee_prover_server.Generators.{
  run_file, run_witness, run_proof, checked_command, unwrapped, or_default, circuit_path,
}
use tee_prover_server.Generators.Laws.{checked_command_ok}

-- A command ran, succeeded and wrote no error.
abbrev pub Ran : (O : Os) → Text → List Text → O.State → Type 0
Ran O program arguments s =
    (output : Output) × ((O.command program arguments s).0 ≡ ok output)
    × (output.success ≡ true)
    × (output.stderr ≡ [])

needs_separator-tmp :
    (t : Text) → needs_separator t ≡ true → needs_separator (codes "./tmp_" ++ t) ≡ true
unfolding needs_separator
needs_separator-tmp [] h = absurd (cc)
needs_separator-tmp (c ∷ t) h = h

-- A file of a request's folder.
abbrev pub in_folder : Text → Text → Text
in_folder uuid name = codes "./tmp_" ++ (uuid ++ (b'/' ∷ name))

join-in_folder :
    (uuid name : Text)
    → needs_separator uuid ≡ true
    → is_absolute name ≡ false
    → join (get_tmp_folder_path uuid) name ≡ in_folder uuid name
unfolding join get_tmp_folder_path
join-in_folder uuid name h rel = rw (rel, needs_separator-tmp uuid h) refl

module _ (O : Os) (uuid_to_string : Uuid → Text) (u : Uuid)
    (named : needs_separator (uuid_to_string u) ≡ true) where
  abbrev file : Text → Text
  file name = in_folder (uuid_to_string u) name

  -- The file of the inputs was made, and the request's inputs were handed to it.
  abbrev pub Wrote : Text → Type 0
  Wrote inputs =
      (made : O.State) × (n : ℕ) × ((O.create (file (codes "input.json")) made).0 ≡ ok tt)
      × ((O.write (file (codes "input.json")) inputs
            (O.create (file (codes "input.json")) made).1).0
          ≡ ok n)

  run_file-Wrote :
      (p : ProofRequest) (s : O.State) (out : Uuid × Text)
      → (run_file O uuid_to_string (record { uuid = u; proof_request = p }) s).0 ≡ ok out
      → Wrote (circuit p).inputs
  unfolding run_file is_absolute
  run_file-Wrote p s out h =
      let dir = O.create_dir_all (get_tmp_folder_path (uuid_to_string u)) s in
      let path = join (get_tmp_folder_path (uuid_to_string u)) (codes "input.json") in
      let same : path ≡ file (codes "input.json") = join-in_folder _ _ named refl in
      let made = O.create path dir.1 in
      elim (Result-cases dir.0) [
        | inr (e, no_dir) ↦ absurd (ground arith)
        | inl (_, has_dir) ↦ elim (Result-cases made.0) [
          | inr (e, lost) ↦ absurd (ground arith)
          | inl (tt, there) ↦ elim (Result-cases (O.write path (circuit p).inputs made.1).0) [
            | inr (e, lost) ↦ absurd (ground arith)
            | inl (n, taken) ↦ rw (← same) (dir.1, n, there, taken)
          ]
        ]
      ]

  run_witness-Ran :
      (circuit_folder name : Text) (s : O.State) (out : Uuid × Text)
      → (run_witness O uuid_to_string circuit_folder
          (record { uuid = u; circuit_file_name = name })
          s).0
        ≡ ok out
      → let exe = circuit_path O uuid_to_string circuit_folder name in
        Ran O (codes "chmod") (codes "+x" ∷ exe ∷ []) s
        × Ran O exe
            (file (codes "input.json") ∷ file (codes "output.wtns") ∷ [])
            (O.command (codes "chmod") (codes "+x" ∷ exe ∷ []) s).1
  unfolding run_witness checked_command get_tmp_folder_path
  run_witness-Ran circuit_folder name s out h =
      let exe = circuit_path O uuid_to_string circuit_folder name in
      let chmod = codes "+x" ∷ exe ∷ [] in
      let files = file (codes "input.json") ∷ file (codes "output.wtns") ∷ [] in
      let next = (O.command (codes "chmod") chmod s).1 in
      elim (Bool-cases (O.exists exe s)) [
        | inr missing ↦ absurd (ground arith)
        | inl there ↦
            elim (Result-cases (checked_command O (unwrapped O) (codes "chmod") chmod s).0) [
              | inr (e, f) ↦ absurd (ground arith)
              | inl (tt, e) ↦
                  elim (Result-cases (checked_command O (unwrapped O) exe files next).0) [
                    | inr (e', f) ↦ absurd (ground arith)
                    | inl (tt, e') ↦ (
                      (checked_command_ok O (unwrapped O) (codes "chmod") chmod s).0 e,
                      (checked_command_ok O (unwrapped O) exe files next).0 e',
                    )
                  ]
            ]
      ]

  run_proof-Ran :
      (exe zkey : Text) (s : O.State)
      → (run_proof O uuid_to_string exe (record { uuid = u; zkey_file_path = zkey }) s).0 ≡ ok tt
      → (O.exists (file (codes "output.wtns")) s ≡ true)
        × Ran O exe
            (zkey
              ∷ file (codes "output.wtns")
              ∷ file (codes "proof.json")
              ∷ file (codes "public_inputs.json")
              ∷ [])
            s
  unfolding run_proof is_absolute
  run_proof-Ran exe zkey s h =
      let tmp = get_tmp_folder_path (uuid_to_string u) in
      let witness = join-in_folder (uuid_to_string u) (codes "output.wtns") named refl in
      let proof = join-in_folder (uuid_to_string u) (codes "proof.json") named refl in
      let inputs = join-in_folder (uuid_to_string u) (codes "public_inputs.json") named refl in
      let paths =
        zkey
        ∷ join tmp (codes "output.wtns")
        ∷ join tmp (codes "proof.json")
        ∷ join tmp (codes "public_inputs.json")
        ∷ [] in
      rw (← witness, ← proof, ← inputs)
        (elim (Bool-cases (O.exists (join tmp (codes "output.wtns")) s)) [
          | inr missing ↦ absurd (ground arith)
          | inl there ↦ (there, (checked_command_ok O (or_default O) exe paths s).0 (ground arith))
        ])

  read_results-Read :
      (parse_proof : Text → Result Proof Text) (parse_inputs : Text → Result (List Text) Text)
      (s : O.State) (proof : Proof) (inputs : List Text)
      → read_results O parse_proof parse_inputs (uuid_to_string u) s ≡ ok (proof, inputs)
      → (a : Text) × (b : Text) × (O.read_to_string (file (codes "proof.json")) s ≡ ok a)
        × (O.read_to_string (file (codes "public_inputs.json")) s ≡ ok b)
        × (parse_proof a ≡ ok proof)
        × (parse_inputs b ≡ ok inputs)
  unfolding read_results is_absolute
  read_results-Read parse_proof parse_inputs s proof inputs h =
      let tmp = get_tmp_folder_path (uuid_to_string u) in
      let first = join-in_folder (uuid_to_string u) (codes "proof.json") named refl in
      let second = join-in_folder (uuid_to_string u) (codes "public_inputs.json") named refl in
      rw (← first, ← second)
        (elim (Result-cases (O.read_to_string (join tmp (codes "proof.json")) s)) [
          | inr (e, lost) ↦ absurd (ground arith)
          | inl (a, x) ↦
              elim (Result-cases (O.read_to_string (join tmp (codes "public_inputs.json")) s)) [
                | inr (e, lost) ↦ absurd (ground arith)
                | inl (b, y) ↦ elim (Result-cases (parse_proof a)) [
                  | inr (e, odd) ↦ absurd (ground arith)
                  | inl (q, x') ↦ elim (Result-cases (parse_inputs b)) [
                    | inr (e, odd) ↦ absurd (ground arith)
                    | inl (r, y') ↦ (a, b, x, y, ground arith, ground arith)
                  ]
                ]
              ]
        ])

  -- The four steps of a request, from its inputs to its stored proof, share their files. Take an
  -- identifier whose text does not end in `/`, and a run of each of the three generators for it
  -- and a reading of its results, each in a state of its own, that succeed. The first has made the
  -- file `input.json` of the request's folder and handed the inputs to it. The second has
  -- run, without an error, `chmod +x` on the circuit's program, and then that program on
  -- `input.json`, and on `output.wtns` to write. The third found `output.wtns`, and has run the
  -- prover, without an error, on the key and on `output.wtns`, with `proof.json` and
  -- `public_inputs.json` to write. The reading has read these two, and they parse as its results.
  pub runs-Ran :
      (p : ProofRequest) (s : O.State) (out : Uuid × Text)
      → (run_file O uuid_to_string (record { uuid = u; proof_request = p }) s).0 ≡ ok out
      → (circuit_folder name : Text) (s' : O.State) (out' : Uuid × Text)
      → (run_witness O uuid_to_string circuit_folder
          (record { uuid = u; circuit_file_name = name })
          s').0
        ≡ ok out'
      → (prover zkey : Text) (t : O.State)
      → (run_proof O uuid_to_string prover (record { uuid = u; zkey_file_path = zkey }) t).0 ≡ ok tt
      → (parse_proof : Text → Result Proof Text) (parse_inputs : Text → Result (List Text) Text)
        (t' : O.State) (proof : Proof) (inputs : List Text)
      → read_results O parse_proof parse_inputs (uuid_to_string u) t' ≡ ok (proof, inputs)
      → let exe = circuit_path O uuid_to_string circuit_folder name in
        let chmod = codes "+x" ∷ exe ∷ [] in
        Wrote (circuit p).inputs
        × (Ran O (codes "chmod") chmod s'
            × Ran O exe
                (file (codes "input.json") ∷ file (codes "output.wtns") ∷ [])
                (O.command (codes "chmod") chmod s').1)
        × ((O.exists (file (codes "output.wtns")) t ≡ true)
            × Ran O prover
                (zkey
                  ∷ file (codes "output.wtns")
                  ∷ file (codes "proof.json")
                  ∷ file (codes "public_inputs.json")
                  ∷ [])
                t)
        × ((a : Text) × (b : Text) × (O.read_to_string (file (codes "proof.json")) t' ≡ ok a)
            × (O.read_to_string (file (codes "public_inputs.json")) t' ≡ ok b)
            × (parse_proof a ≡ ok proof)
            × (parse_inputs b ≡ ok inputs))
  runs-Ran p s out h circuit_folder name s' out' h' prover zkey t k parse_proof parse_inputs t'
        proof inputs k' =
      (
        run_file-Wrote p s out h,
        run_witness-Ran circuit_folder name s' out' h',
        run_proof-Ran prover zkey t k,
        read_results-Read parse_proof parse_inputs t' proof inputs k',
      )
