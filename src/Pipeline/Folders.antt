-- ===== src/Pipeline/Folders.antt =====
-- The folder of a request, which holds its inputs: which tasks of src/main.rs remove it.
use tee_prover_server.Prelude.{
  ℕ, ◌≡◌, refl, ap, ◌++◌, Text, List, [], ◌∷◌, ◌⊎◌, inl, inr, err, some,
}
use tee_prover_server.Prelude.{Result-cases, Bool-cases, failed, panicked}
use tee_prover_server.Prelude.Dict.{lookup}
use tee_prover_server.Types.{circuit}
use tee_prover_server.Store.{Uuid}
use tee_prover_server.Paths.{join}
use tee_prover_server.Database.{Column, set_witness_generated, update_proof}
use tee_prover_server.Generators.{
  FileGenerator, WitnessGenerator, ProofGenerator, run_file, run_witness, run_proof,
}
use tee_prover_server.Generators.Laws.{
  run_file-returns, run_file-ne-panicked, run_witness-returns, run_proof-ne-panicked,
}
use tee_prover_server.Pipeline.{
  Plant, World, tmp_folder, cleanup, file_task, witness_task, witness_done, proof_round, proof_done,
}
use tee_prover_server.Pipeline.Stages.{IsLawful, witness_jobs, proof_jobs}

module _ (W : Plant) where
  -- The last thing that was done to the files is to remove the request's folder.
  abbrev pub Removed : Uuid → World W → Type 0
  Removed u w = (os : W.os.State) × (w.os ≡ (W.os.remove_dir_all (tmp_folder W u) os).1)

  abbrev pub proof_job : WitnessGenerator → Text → ProofGenerator
  proof_job g zkey = record { uuid = g.uuid; zkey_file_path = join W.zkey_folder zkey }

abbrev pub witness_job : FileGenerator → WitnessGenerator
witness_job g = record { uuid = g.uuid; circuit_file_name = (circuit g.proof_request).name }

module _ {W : Plant} {schema : List Column} (laws : IsLawful W schema) where
  -- The task of the first stage hands the request on, or it removes its folder.
  pub file_task-Removed :
      (g : FileGenerator) (w : World W)
      → (witness_jobs (file_task W g w).1 ≡ witness_jobs w ++ (witness_job g ∷ []))
        ⊎ Removed W g.uuid (file_task W g w).1
  unfolding file_task cleanup
  file_task-Removed g w =
      let run = run_file W.os W.uuid_to_string g w.os in
      let job = witness_job g in
      elim (Result-cases run.0) [
        | inr (panicked, e) ↦ absurd (run_file-ne-panicked W.os W.uuid_to_string g w.os e)
        | inr (failed why, e) ↦ inr (run.1, rw (e, file_task) refl)
        | inl (out, e) ↦
            rw (e, file_task, run_file-returns W.os W.uuid_to_string g w.os out e)
              (elim (Bool-cases (W.witnesses.closed w.witness_generator_sender)) [
                | inl gone ↦
                    let ((why, lost), _) =
                      laws.witnesses.send-closed job w.witness_generator_sender gone in
                    inr (run.1, rw (lost, file_task) refl)
                | inr live ↦
                    let (done, queued) =
                      laws.witnesses.send-open job w.witness_generator_sender live in
                    inl (rw (done, file_task) queued)
              ])
      ]

  -- The task of the second stage, for a circuit of the map, hands the request on; or the last
  -- thing that it does to the files is the call that removes the request's folder; or its run
  -- panics, and then the files stay as the run left them.
  pub witness_task-Removed :
      (g : WitnessGenerator) (now : ℕ) (zkey : Text) (w : World W)
      → lookup g.circuit_file_name W.circuit_zkey_map ≡ some zkey
      → let run = run_witness W.os W.uuid_to_string W.circuit_folder g w.os in
        (proof_jobs (witness_task W g now w).1 ≡ proof_jobs w ++ (proof_job W g zkey ∷ []))
        ⊎ (Removed W g.uuid (witness_task W g now w).1
            ⊎ ((run.0 ≡ err panicked) × ((witness_task W g now w).1.os ≡ run.1)))
  unfolding witness_task cleanup
  witness_task-Removed g now zkey w known =
      let run = run_witness W.os W.uuid_to_string W.circuit_folder g w.os in
      let job = proof_job W g zkey in
      elim (Result-cases run.0) [
        | inr (panicked, e) ↦ inr (inr (e, rw (e, witness_task) refl))
        | inr (failed why, e) ↦ inr (inl (run.1, rw (e, witness_task) refl))
        | inl ((u, name), e) ↦
            let returned =
              run_witness-returns W.os W.uuid_to_string W.circuit_folder g w.os (u, name) e in
            let same : u ≡ g.uuid = ap (λ x. x.0) returned in
            let same' : name ≡ g.circuit_file_name = ap (λ x. x.1) returned in
            elim (Result-cases (set_witness_generated W.postgres g.uuid now w.db).0) [
              | inr (why, down) ↦ inr (
                  inl (
                    run.1,
                    rw (e, witness_task, same')
                        (rw (known, witness_task, same) (rw (down, witness_done) refl)),
                  ))
              | inl (tt, marked) ↦ elim (Bool-cases (W.proofs.closed w.proof_generator_sender)) [
                | inl gone ↦
                    let ((why, lost), _) =
                      laws.proofs.send-closed job w.proof_generator_sender gone in
                    inr (
                      inl (
                        run.1,
                        rw (e, witness_task, same')
                            (rw (known, witness_task, same)
                              (rw (marked, witness_done) (rw (lost, witness_done) refl))),
                      ))
                | inr live ↦
                    let (taken, queued) = laws.proofs.send-open job w.proof_generator_sender live in
                    inl (
                      rw (e, witness_task, same')
                        (rw (known, witness_task, same)
                          (rw (marked, witness_done) (rw (taken, witness_done) queued))))
              ]
            ]
      ]

  -- The last thing that a round of the third stage does to the files is the call that removes the
  -- request's folder, whether it stores the proof or not.
  pub proof_round-Removed :
      (g : ProofGenerator) (now : ℕ) (w : World W) → Removed W g.uuid (proof_round W g now w).1
  unfolding proof_round cleanup
  proof_round-Removed g now w =
      let run = run_proof W.os W.uuid_to_string W.rapid_snark_path g w.os in
      let update =
        update_proof W.os W.parse_proof W.parse_inputs (W.uuid_to_string g.uuid) run.1 W.postgres
          g.uuid now w.db in
      elim (Result-cases run.0) [
        | inr (panicked, e) ↦
            absurd (run_proof-ne-panicked W.os W.uuid_to_string W.rapid_snark_path g w.os e)
        | inr (failed why, e) ↦ (run.1, rw (e, proof_round) refl)
        | inl (_, e) ↦ elim (Result-cases update.0) [
          | inr (why, down) ↦ (run.1, rw (e, proof_round) (rw (down, proof_done) refl))
          | inl (tt, up) ↦ (run.1, rw (e, proof_round) (rw (up, proof_done) refl))
        ]
      ]
