-- ===== src/System/Circuits.antt =====
-- The circuits of the requests in the calls of src/server.rs, and the map of keys that `main` built.
pub mod Tasks
use mathlib.Core.Path.{subst}
use tee_prover_server.Prelude.{ℕ, zero, suc, ◌≡◌, refl, sym, ◌∙◌, Text, Bytes, true, List, [], ◌∷◌}
use tee_prover_server.Prelude.{
  Result, ok, err, Result-cases, Bool-cases, inl, inr, All, append-All, length, ◌==◌,
}
use tee_prover_server.Prelude.Dict.{has, lookup}
use tee_prover_server.Types.{SubmitRequest, circuit}
use tee_prover_server.Store.{Uuid}
use tee_prover_server.Database.{Column}
use tee_prover_server.Generators.{FileGenerator, WitnessGenerator}
use tee_prover_server.Pipeline.Tasks.{Task, writing, passing_on, computing}
use tee_prover_server.Server.Env.{
  Env, RpcServerImpl, Exit, error, panic, get_shared_secret, remove_agreement,
}
use tee_prover_server.Server.Hello.{hello}
use tee_prover_server.Server.Hello.Laws.{hello_err, hello-IsGreeted}
use tee_prover_server.Server.Submit
use tee_prover_server.Server.Submit.Verdict.{agreements, open_request-decides, verdict-IsAccepted}
use tee_prover_server.Server.Submit.Enqueue.{jobs, job_of}
use tee_prover_server.Server.Submit.Enqueue
use tee_prover_server.Server.Interleave.{
  Phase, reading, recording, sending, releasing, done, Handler, started, judged, recorded, sent,
  Event, greet, begin, turn, advance, resume, happen,
}

module _ (zkeys : List (Text × Text)) where
  abbrev pub HasCircuit : Text → Type 0
  HasCircuit name = has name zkeys ≡ true

  abbrev pub OfRequest : SubmitRequest → Type 0
  OfRequest r = HasCircuit (circuit r.proof_request_type).name

  abbrev pub OfPhase : Phase → Type 0
  OfPhase (recording r) = OfRequest r
  OfPhase (sending r) = OfRequest r
  OfPhase _ = Unit {0}

  abbrev pub OfHandler : Handler → Type 0
  OfHandler h = OfPhase h.phase

  abbrev pub OfFile : FileGenerator → Type 0
  OfFile g = HasCircuit (circuit g.proof_request).name

  abbrev pub OfWitness : WitnessGenerator → Type 0
  OfWitness g = HasCircuit g.circuit_file_name

  abbrev pub OfTask : Task → Type 0
  OfTask (writing g) = OfFile g
  OfTask (passing_on g) = OfWitness g
  OfTask (computing g) = OfWitness g
  OfTask _ = Unit {0}

  judged-OfPhase :
      (v : Result SubmitRequest Exit)
      → ((r : SubmitRequest) → v ≡ ok r → OfRequest r)
      → OfPhase (judged v)
  judged-OfPhase (ok r) h = h r refl
  judged-OfPhase (err panic) h = tt
  judged-OfPhase (err (error code message)) h = tt

  recorded-OfPhase :
      (r : SubmitRequest) (a : Result (Unit {0}) Text) → OfRequest r → OfPhase (recorded r a)
  recorded-OfPhase r (ok x) h = h
  recorded-OfPhase r (err e) h = tt

  sent-OfPhase : (reply : Text) (a : Result (Unit {0}) Text) → OfPhase (sent reply a)
  sent-OfPhase reply (ok x) = tt
  sent-OfPhase reply (err e) = tt

  started-OfPhase :
      (nonce cipher_text auth_tag : Bytes) → OfPhase (started nonce cipher_text auth_tag)
  started-OfPhase nonce cipher_text auth_tag = elim (Bool-cases (length nonce == 12)) [
    | inr n ↦ rw n tt
    | inl n ↦ elim (Bool-cases (length auth_tag == 16)) [
      | inr t ↦ rw (n, t) tt
      | inl t ↦ rw (n, t) tt
    ]
  ]

  module _ (E : Env) {schema : List Column} (laws : Enqueue.IsLawful E schema) where
    pub record OfServer (s : RpcServerImpl E) : Type 0 where
      pub map_kept : s.circuit_zkey_map ≡ zkeys
      pub queued : All OfFile (jobs E s)

    advance-OfPhase :
        (uuid : Uuid) (now : ℕ) (phase : Phase) (s : RpcServerImpl E)
        → OfPhase phase
        → OfServer s
        → OfPhase (advance E uuid now phase s).0 × OfServer (advance E uuid now phase s).1
    unfolding advance get_shared_secret Submit.create_proof_status Submit.send remove_agreement
    advance-OfPhase uuid now (reading nonce cipher_text auth_tag) s h k =
        let found = lookup (E.uuid_to_string uuid) (agreements E s) in
        let decides = open_request-decides E laws.lru uuid nonce cipher_text auth_tag s in
        (
          judged-OfPhase (Submit.open_request E uuid nonce cipher_text auth_tag s).0 (λ r e.
              subst (λ z. has (circuit r.proof_request_type).name z ≡ true) k.map_kept
                (verdict-IsAccepted E s.circuit_zkey_map nonce cipher_text auth_tag found r
                  (sym decides ∙ e)).known),
          record { map_kept = k.map_kept; queued = k.queued },
        )
    advance-OfPhase uuid now (recording r) s h k = (
      recorded-OfPhase r (Enqueue.answer E uuid r now s).0 h,
      record { map_kept = k.map_kept; queued = k.queued },
    )
    advance-OfPhase uuid now (sending r) s h k =
        let job = job_of E uuid r in
        (
          sent-OfPhase (E.uuid_to_string uuid) (E.mpsc.send job s.file_generator_sender).0,
          record {
            map_kept = k.map_kept;
            queued = elim (Bool-cases (E.mpsc.closed s.file_generator_sender)) [
              | inl gone ↦ rw (laws.mpsc.send-closed job s.file_generator_sender gone).1 k.queued
              | inr live ↦
                  rw (laws.mpsc.send-open job s.file_generator_sender live).1
                    (append-All OfFile (jobs E s) (job ∷ []) k.queued (h, tt))
            ];
          },
        )
    advance-OfPhase uuid now (releasing reply) s h k =
        (tt, record { map_kept = k.map_kept; queued = k.queued })
    advance-OfPhase uuid now (done reply) s h k = (tt, k)

    resume-OfPhase :
        (n : ℕ) (hs : List Handler) (s : RpcServerImpl E)
        → All OfHandler hs
        → OfServer s
        → All OfHandler (resume E n hs s).0 × OfServer (resume E n hs s).1
    unfolding resume
    resume-OfPhase zero [] s h k = (tt, k)
    resume-OfPhase (suc n) [] s h k = (tt, k)
    resume-OfPhase zero (c ∷ hs) s h k =
        let (p, k') = advance-OfPhase c.uuid c.now c.phase s h.0 k in ((p, h.1), k')
    resume-OfPhase (suc n) (c ∷ hs) s h k =
        let (p, k') = resume-OfPhase n hs s h.1 k in ((h.0, p), k')

    hello-OfServer :
        (key : E.crypto.Secret) (pubkey : Bytes) (uuid : Uuid) (s : RpcServerImpl E)
        → OfServer s
        → OfServer (hello E key pubkey uuid s).1
    hello-OfServer key pubkey uuid s k = elim (Result-cases (hello E key pubkey uuid s).0) [
      | inr (e, failed) ↦
          let (same, _) = hello_err E laws.lru key pubkey uuid s e failed in rw same k
      | inl (r, greeted) ↦
          let g = hello-IsGreeted E laws.lru key pubkey uuid s r greeted in
          rw g.only_store (record { map_kept = k.map_kept; queued = k.queued })
    ]

    pub happen-OfPhase :
        (e : Event E) (hs : List Handler) (s : RpcServerImpl E)
        → All OfHandler hs
        → OfServer s
        → All OfHandler (happen E e (hs, s)).0 × OfServer (happen E e (hs, s)).1
    unfolding happen
    happen-OfPhase (greet key pubkey uuid) hs s h k = (h, hello-OfServer key pubkey uuid s k)
    happen-OfPhase (begin uuid nonce cipher_text auth_tag now) hs s h k =
        ((started-OfPhase nonce cipher_text auth_tag, h), k)
    happen-OfPhase (turn n) hs s h k = resume-OfPhase n hs s h k
