-- ===== src/System/Effort.antt =====
-- The steps that a call of src/server.rs and a task of src/main.rs can still cause.
use tee_prover_server.Prelude.{
  Option, none, some, Fault, failed, panicked, ℕ, zero, suc, ◌≡◌, refl, ◌+◌, ◌*◌, ◌≤◌, arith, Text,
  List, [], ◌∷◌,
}
use tee_prover_server.Prelude.{Result, ok, err, Bool-cases, inl, inr, length, length-append}
use tee_prover_server.Prelude.Dict.{lookup}
use tee_prover_server.Types.{SubmitRequest}
use tee_prover_server.Store.{Uuid}
use tee_prover_server.Database.{Column}
use tee_prover_server.Generators.{FileGenerator, WitnessGenerator}
use tee_prover_server.Server.Env.{
  Env, RpcServerImpl, Exit, error, panic, get_shared_secret, remove_agreement,
}
use tee_prover_server.Server.Submit
use tee_prover_server.Server.Submit.Enqueue.{jobs, job_of, answer}
use tee_prover_server.Server.Submit.Enqueue
use tee_prover_server.Server.Interleave.{
  Phase, reading, recording, sending, releasing, done, Handler, judged, recorded, sent, advance,
  resume,
}
use tee_prover_server.Database.{set_witness_generated, update_proof}
use tee_prover_server.Generators.{ProofGenerator}
use tee_prover_server.Generators
use tee_prover_server.Server.Env.{Mpsc, IsMpsc}
use tee_prover_server.Pipeline.{Plant, World}
use tee_prover_server.Pipeline.Tasks.{
  Task, writing, passing_on, computing, marking, handing_on, proving, storing, failing, removing,
  over, or_failing, after_fault, after_file, after_proof, after_lookup, after_witness, proceed,
}
use tee_prover_server.Pipeline.Stages
use tee_prover_server.Pipeline.Stages.{witness_jobs, proof_jobs}

-- How many steps a call can still cause, its job's steps in the stages included.
abbrev pub phase_work : Phase → ℕ
phase_work (reading nonce cipher_text auth_tag) = 20
phase_work (recording r) = 19
phase_work (sending r) = 18
phase_work (releasing reply) = 1
phase_work (done reply) = 0

abbrev pub call_work : List Handler → ℕ
call_work [] = 0
call_work (h ∷ hs) = phase_work h.phase + call_work hs

-- A call with this number is not at its end.
abbrev pub Live : ℕ → List Handler → Type 0
Live n [] = 1 ≤ 0
Live zero (h ∷ hs) = 1 ≤ phase_work h.phase
Live (suc n) (h ∷ hs) = Live n hs

judged_work : (v : Result SubmitRequest Exit) → phase_work (judged v) ≤ 19
judged_work (ok r) = omega arith
judged_work (err panic) = omega arith
judged_work (err (error code message)) = omega arith

recorded_work : (r : SubmitRequest) (a : Result (Unit {0}) Text) → phase_work (recorded r a) ≤ 18
recorded_work r (ok x) = omega arith
recorded_work r (err e) = omega arith

sent_work : (reply : Text) (a : Result (Unit {0}) Text) → phase_work (sent reply a) ≡ 1
sent_work reply (ok x) = refl
sent_work reply (err e) = refl

-- A send makes a channel longer by one job at most.
pub send-length :
    {A : Type 0} {M : Mpsc A}
    → IsMpsc M
    → (a : A) (c : M.Channel) → length (M.items (M.send a c).1) ≤ suc (length (M.items c))
send-length {A} {M} laws a c = elim (Bool-cases (M.closed c)) [
  | inl gone ↦ rw (laws.send-closed a c gone).1 (omega arith)
  | inr live ↦ rw (laws.send-open a c live).1 (omega (arith, length-append (M.items c) (a ∷ [])))
]

module _ (E : Env) {schema : List Column} (laws : Enqueue.IsLawful E schema) where
  advance_work :
      (uuid : Uuid) (now : ℕ) (phase : Phase) (s : RpcServerImpl E)
      → 1 ≤ phase_work phase
      → suc (
          phase_work (advance E uuid now phase s).0
          + 16 * length (jobs E (advance E uuid now phase s).1))
        ≤ phase_work phase + 16 * length (jobs E s)
  unfolding advance get_shared_secret Submit.create_proof_status Submit.send remove_agreement
  advance_work uuid now (reading nonce cipher_text auth_tag) s live =
      omega (arith, judged_work (Submit.open_request E uuid nonce cipher_text auth_tag s).0)
  advance_work uuid now (recording r) s live =
      omega (arith, recorded_work r (answer E uuid r now s).0)
  advance_work uuid now (sending r) s live = omega (
    arith,
    send-length laws.mpsc (job_of E uuid r) s.file_generator_sender,
    sent_work (E.uuid_to_string uuid) (E.mpsc.send (job_of E uuid r) s.file_generator_sender).0,
  )
  advance_work uuid now (releasing reply) s live = omega arith
  advance_work uuid now (done reply) s live = absurd (omega arith)

  pub resume_work :
      (n : ℕ) (hs : List Handler) (s : RpcServerImpl E)
      → Live n hs
      → suc (call_work (resume E n hs s).0 + 16 * length (jobs E (resume E n hs s).1))
        ≤ call_work hs + 16 * length (jobs E s)
  unfolding resume
  resume_work zero [] s live = absurd (omega arith)
  resume_work (suc n) [] s live = absurd (omega arith)
  resume_work zero (h ∷ hs) s live = omega (arith, advance_work h.uuid h.now h.phase s live)
  resume_work (suc n) (h ∷ hs) s live = omega (arith, resume_work n hs s live)

-- The same for a task.
abbrev pub task_work : Task → ℕ
task_work (writing g) = 15
task_work (passing_on g) = 14
task_work (computing g) = 10
task_work (marking g) = 9
task_work (handing_on g) = 8
task_work (proving g) = 4
task_work (storing g) = 3
task_work (failing uuid reason) = 2
task_work (removing uuid) = 1
task_work over = 0

or_failing_work :
    (uuid : Uuid) (next : Task) (r : Result (Unit {0}) Text) (m : ℕ)
    → task_work next ≤ m
    → 2 ≤ m
    → task_work (or_failing uuid next r) ≤ m
or_failing_work uuid next (ok x) m h k = h
or_failing_work uuid next (err e) m h k = k

after_fault_work : (uuid : Uuid) (f : Fault) → task_work (after_fault uuid f) ≤ 2
after_fault_work uuid (failed e) = omega arith
after_fault_work uuid panicked = omega arith

after_file_work :
    (uuid : Uuid) (r : Result (Uuid × Text) Fault) → task_work (after_file uuid r) ≤ 14
after_file_work uuid (ok (u, name)) = omega arith
after_file_work uuid (err f) = omega (arith, after_fault_work uuid f)

after_proof_work :
    (g : ProofGenerator) (r : Result (Unit {0}) Fault) → task_work (after_proof g r) ≤ 3
after_proof_work g (ok x) = omega arith
after_proof_work g (err f) = omega (arith, after_fault_work g.uuid f)

module _ (W : Plant) where
  after_lookup_work : (uuid : Uuid) (o : Option Text) → task_work (after_lookup W uuid o) ≤ 9
  after_lookup_work uuid none = omega arith
  after_lookup_work uuid (some zkey) = omega arith

  after_witness_work :
      (uuid : Uuid) (r : Result (Uuid × Text) Fault) → task_work (after_witness W uuid r) ≤ 9
  after_witness_work uuid (ok (u, name)) = after_lookup_work u (lookup name W.circuit_zkey_map)
  after_witness_work uuid (err f) = omega (arith, after_fault_work uuid f)

module _ {W : Plant} {schema : List Column} (laws : Stages.IsLawful W schema) where
  -- What is left to do for a task, and for the jobs that it may send.
  abbrev pub world_work : World W → ℕ
  world_work w = 11 * length (witness_jobs w) + 5 * length (proof_jobs w)

  pub proceed_work :
      (t : Task) (now : ℕ) (w : World W)
      → 1 ≤ task_work t
      → let (t', w') = proceed W t now w in
        suc (task_work t' + world_work w') ≤ task_work t + world_work w
  unfolding proceed
  proceed_work (writing g) now w h =
      omega (arith, after_file_work g.uuid (Generators.run_file W.os W.uuid_to_string g w.os).0)
  proceed_work (passing_on g) now w h =
      let r = (W.witnesses.send g w.witness_generator_sender).0 in
      omega (
        arith,
        or_failing_work g.uuid over r 2 (omega arith) (omega arith),
        send-length laws.witnesses g w.witness_generator_sender,
      )
  proceed_work (computing g) now w h =
      let r = (Generators.run_witness W.os W.uuid_to_string W.circuit_folder g w.os).0 in
      omega (arith, after_witness_work W g.uuid r)
  proceed_work (marking g) now w h =
      let r = (set_witness_generated W.postgres g.uuid now w.db).0 in
      omega (arith, or_failing_work g.uuid (handing_on g) r 8 (omega arith) (omega arith))
  proceed_work (handing_on g) now w h =
      let r = (W.proofs.send g w.proof_generator_sender).0 in
      omega (
        arith,
        or_failing_work g.uuid over r 2 (omega arith) (omega arith),
        send-length laws.proofs g w.proof_generator_sender,
      )
  proceed_work (proving g) now w h =
      let r = (Generators.run_proof W.os W.uuid_to_string W.rapid_snark_path g w.os).0 in
      omega (arith, after_proof_work g r)
  proceed_work (storing g) now w h =
      let r =
        (update_proof W.os W.parse_proof W.parse_inputs (W.uuid_to_string g.uuid) w.os W.postgres
          g.uuid now w.db).0 in
      omega (arith, or_failing_work g.uuid (removing g.uuid) r 2 (omega arith) (omega arith))
  proceed_work (failing uuid reason) now w h = omega arith
  proceed_work (removing uuid) now w h = omega arith
  proceed_work over now w h = absurd (omega arith)
