-- ===== src/System/Tasks.antt =====
-- What a step of a task of src/main.rs does to a request.
use tee_prover_server.Prelude.{ℕ, refl, arith, failed, panicked, [], ◌∷◌, List}
use tee_prover_server.Prelude.{Result-cases, Option-cases, Bool-cases, inl, inr, count_by-append}
use tee_prover_server.Prelude.Dict.{lookup}
use tee_prover_server.Store.{Uuid}
use tee_prover_server.Database.{
  Column, set_witness_generated, update_proof, fail_proof, read_results,
}
use tee_prover_server.Database.Rows.{set_witness_generated_lem, update_proof_lem, fail_proof_lem}
use tee_prover_server.Generators.{FileGenerator, WitnessGenerator, ProofGenerator}
use tee_prover_server.Generators
use tee_prover_server.Generators.Laws.{
  run_file-returns, run_file-ne-panicked, run_witness-returns, run_witness-Odd,
  run_proof-ne-panicked,
}
use tee_prover_server.Pipeline.{Plant, World}
use tee_prover_server.Pipeline.Tasks.{
  Task, writing, passing_on, computing, marking, handing_on, proving, storing, failing, removing,
  over, proceed,
}
use tee_prover_server.Pipeline.Stages.{IsLawful, rows, witness_jobs, proof_jobs, marked, unmarked}
use tee_prover_server.System.Mishaps.{Mishap, odd_output, no_key}
use tee_prover_server.System.Mishaps as Mishaps
use tee_prover_server.System.Moves.{
  Moves, flows, halts, stays, generates, proves, drops, stops_waiting, stops_proving, fails,
}
use tee_prover_server.System.Tallies.{task_tally, uuid_of}

module _ {W : Plant} {schema : List Column} (laws : IsLawful W schema) (u : Uuid) where
  -- What a step does to the request of its task.
  abbrev Moved : Task → ℕ → World W → Type 0
  Moved t now w =
      let (t', w') = proceed W t now w in
      Moves (Mishap W t) u (uuid_of t) (task_tally u t w) (task_tally u t' w') (rows w) (rows w')

  writing-Moves : (g : FileGenerator) (now : ℕ) (w : World W) → Moved (writing g) now w
  unfolding proceed
  writing-Moves g now w =
      let run = Generators.run_file W.os W.uuid_to_string g w.os in
      elim (Result-cases run.0) [
        | inr (panicked, e) ↦ absurd (run_file-ne-panicked W.os W.uuid_to_string g w.os e)
        | inr (failed why, e) ↦ rw e (halts (stops_waiting (omega arith) refl (omega arith) refl))
        | inl (out, e) ↦
            rw (e, run_file-returns W.os W.uuid_to_string g w.os out e)
              (flows (stays refl refl refl refl))
      ]

  passing_on-Moves : (g : WitnessGenerator) (now : ℕ) (w : World W) → Moved (passing_on g) now w
  unfolding proceed
  passing_on-Moves g now w = elim (Bool-cases (W.witnesses.closed w.witness_generator_sender)) [
    | inl gone ↦
        let ((why, lost), kept) = laws.witnesses.send-closed g w.witness_generator_sender gone in
        rw (lost, kept) (halts (stops_waiting (omega arith) refl (omega arith) refl))
    | inr live ↦
        let (taken, queued) = laws.witnesses.send-open g w.witness_generator_sender live in
        let more = count_by-append (λ (j : WitnessGenerator). j.uuid) u (witness_jobs w) (g ∷ []) in
        rw (taken, queued) (flows (stays (omega (arith, more)) refl refl refl))
  ]

  computing-Moves : (g : WitnessGenerator) (now : ℕ) (w : World W) → Moved (computing g) now w
  unfolding proceed
  computing-Moves g now w =
      let run = Generators.run_witness W.os W.uuid_to_string W.circuit_folder g w.os in
      elim (Result-cases run.0) [
        | inr (panicked, e) ↦
            let (program, arguments, os, (output, ran, _, odd)) =
              run_witness-Odd W.os W.uuid_to_string W.circuit_folder g w.os e in
            rw e (
              halts (
                drops (odd_output program arguments os output ran odd) (omega arith) refl refl
                  refl))
        | inr (failed why, e) ↦ rw e (halts (stops_waiting (omega arith) refl (omega arith) refl))
        | inl (out, e) ↦
            rw (e, run_witness-returns W.os W.uuid_to_string W.circuit_folder g w.os out e)
              (elim (Option-cases (lookup g.circuit_file_name W.circuit_zkey_map)) [
                | inl lacking ↦
                    rw lacking (halts (drops (no_key g lacking) (omega arith) refl refl refl))
                | inr (zkey, known) ↦ rw known (flows (stays refl refl refl refl))
              ])
      ]

  marking-Moves : (g : ProofGenerator) (now : ℕ) (w : World W) → Moved (marking g) now w
  unfolding proceed
  marking-Moves g now w =
      let (done, refused) = set_witness_generated_lem laws.postgres g.uuid now w.db in
      elim (Result-cases (set_witness_generated W.postgres g.uuid now w.db).0) [
        | inl (tt, e) ↦ rw e (flows (generates now (omega arith) (omega arith) refl (done e)))
        | inr (why, e) ↦
            rw e (halts (stops_waiting (omega arith) refl (omega arith) (refused why e)))
      ]

  handing_on-Moves : (g : ProofGenerator) (now : ℕ) (w : World W) → Moved (handing_on g) now w
  unfolding proceed
  handing_on-Moves g now w = elim (Bool-cases (W.proofs.closed w.proof_generator_sender)) [
    | inl gone ↦
        let ((why, lost), kept) = laws.proofs.send-closed g w.proof_generator_sender gone in
        rw (lost, kept) (halts (stops_proving refl (omega arith) (omega arith) refl))
    | inr live ↦
        let (taken, queued) = laws.proofs.send-open g w.proof_generator_sender live in
        let more = count_by-append (λ (j : ProofGenerator). j.uuid) u (proof_jobs w) (g ∷ []) in
        rw (taken, queued) (flows (stays refl (omega (arith, more)) refl refl))
  ]

  proving-Moves : (g : ProofGenerator) (now : ℕ) (w : World W) → Moved (proving g) now w
  unfolding proceed
  proving-Moves g now w =
      let run = Generators.run_proof W.os W.uuid_to_string W.rapid_snark_path g w.os in
      elim (Result-cases run.0) [
        | inr (panicked, e) ↦
            absurd (run_proof-ne-panicked W.os W.uuid_to_string W.rapid_snark_path g w.os e)
        | inr (failed why, e) ↦ rw e (halts (stops_proving refl (omega arith) (omega arith) refl))
        | inl (out, e) ↦ rw e (flows (stays refl refl refl refl))
      ]

  storing-Moves : (g : ProofGenerator) (now : ℕ) (w : World W) → Moved (storing g) now w
  unfolding proceed
  storing-Moves g now w =
      let read = read_results W.os W.parse_proof W.parse_inputs (W.uuid_to_string g.uuid) w.os in
      let update =
        update_proof W.os W.parse_proof W.parse_inputs (W.uuid_to_string g.uuid) w.os W.postgres
          g.uuid now w.db in
      let (unread, readable) =
        update_proof_lem laws.postgres W.os W.parse_proof W.parse_inputs (W.uuid_to_string g.uuid)
          w.os g.uuid now w.db in
      elim (Result-cases read) [
        | inr (why, r) ↦
            rw (unread why r) (halts (stops_proving refl (omega arith) (omega arith) refl))
        | inl ((p, inputs), r) ↦
            let (done, refused) = readable p inputs r in
            elim (Result-cases update.0) [
              | inr (why, e) ↦
                  rw e (halts (stops_proving refl (omega arith) (omega arith) (refused why e)))
              | inl (tt, e) ↦ rw e (flows (proves now p inputs refl (omega arith) refl (done e)))
            ]
      ]

  failing-Moves : (v : Uuid) (why : _) (now : ℕ) (w : World W) → Moved (failing v why) now w
  unfolding proceed
  failing-Moves v why now w =
      let (done, refused) = fail_proof_lem laws.postgres v why w.db in
      elim (Result-cases (fail_proof W.postgres v why w.db).0) [
        | inl (tt, e) ↦ halts (fails refl refl (omega arith) (marked why (done e)))
        | inr (e, no_answer) ↦ halts (
            fails refl refl (omega arith)
              (unmarked (Mishaps.unmarked v why w.db e no_answer) (refused e no_answer)))
      ]

  pub proceed-Moves : (t : Task) (now : ℕ) (w : World W) → Moved t now w
  unfolding proceed
  proceed-Moves (writing g) now w = writing-Moves g now w
  proceed-Moves (passing_on g) now w = passing_on-Moves g now w
  proceed-Moves (computing g) now w = computing-Moves g now w
  proceed-Moves (marking g) now w = marking-Moves g now w
  proceed-Moves (handing_on g) now w = handing_on-Moves g now w
  proceed-Moves (proving g) now w = proving-Moves g now w
  proceed-Moves (storing g) now w = storing-Moves g now w
  proceed-Moves (failing v why) now w = failing-Moves v why now w
  proceed-Moves (removing v) now w = flows (stays refl refl refl refl)
  proceed-Moves over now w = flows (stays refl refl refl refl)
