-- ===== src/Server/Interleave/Alone.antt =====
-- A call of `submit_request` of src/server.rs whose turns nothing interrupts.
use tee_prover_server.Prelude.{List, ℕ, zero, suc, ◌≡◌, ◌==◌, Bytes, length, Bool-cases, inl, inr}
use tee_prover_server.Prelude.{Result, Result-cases, ==_iff, Text}
use tee_prover_server.Prelude.Dict.{lookup}
use tee_prover_server.Types.{SubmitRequest}
use tee_prover_server.Store.{Uuid}
use tee_prover_server.Database.{Column}
use tee_prover_server.Server.Env.{Env, RpcServerImpl, Exit, error, panic}
use tee_prover_server.Server.Submit.{submit_request, enqueue}
use tee_prover_server.Server.Submit.Verdict.{agreements, verdict, after_read, open_request-decides}
use tee_prover_server.Server.Submit.Enqueue.{IsLawful, answer, job_of}
use tee_prover_server.Server.Submit.Outcome.{submit_request-settle}
use tee_prover_server.Server.Interleave.{Phase, reading, recording, done, started, advance}

module _ (E : Env) (uuid : Uuid) (now : ℕ) where
  -- Turns of one call without another in between.
  unfoldable pub turns : ℕ → Phase → RpcServerImpl E → Phase × RpcServerImpl E
  turns zero phase s = (phase, s)
  turns (suc n) phase s = let (phase', s') = advance E uuid now phase s in turns n phase' s'

  -- A call at its end, and the state.
  abbrev pub ended : Result Text Exit × RpcServerImpl E → Phase × RpcServerImpl E
  ended (reply, s) = (done reply, s)

  turns-recording :
      (r : SubmitRequest) (s : RpcServerImpl E)
      → turns 3 (recording r) s ≡ ended (enqueue E uuid r now s)
  unfolding turns advance enqueue
  turns-recording r s = elim (Result-cases (answer E uuid r now s).0) [
    | inr (e, refused) ↦ rw (refused, enqueue, advance)
    | inl (_, made) ↦
        elim (Result-cases (E.mpsc.send (job_of E uuid r) s.file_generator_sender).0) [
          | inr (e, lost) ↦ rw (made, enqueue, advance) (rw (lost, enqueue, advance))
          | inl (_, taken) ↦ rw (made, enqueue, advance) (rw (taken, enqueue, advance))
        ]
  ]

  turns-reading :
      {schema : List Column} (laws : IsLawful E schema) (nonce cipher_text auth_tag : Bytes)
      (s : RpcServerImpl E)
      → length nonce ≡ 12
      → length auth_tag ≡ 16
      → turns 4 (reading nonce cipher_text auth_tag) s
        ≡ ended (submit_request E uuid nonce cipher_text auth_tag now s)
  unfolding turns advance
  turns-reading laws nonce cipher_text auth_tag s n t =
      let key = E.uuid_to_string uuid in
      let found = lookup key (agreements E s) in
      let decided = verdict E s.circuit_zkey_map nonce cipher_text auth_tag found in
      rw (submit_request-settle E laws uuid nonce cipher_text auth_tag now s n t) (
        rw (open_request-decides E laws.lru uuid nonce cipher_text auth_tag s)
          (elim (Result-cases decided) [
            | inl (r, e) ↦ rw e (turns-recording r (after_read E uuid s))
            | inr (error code message, e) ↦ rw e
            | inr (panic, e) ↦ rw e
          ]))

  -- A call that nothing interrupts ends within four turns, as `submit_request` does in one step: with
  -- its reply and its state.
  pub turns-started :
      {schema : List Column} (laws : IsLawful E schema) (nonce cipher_text auth_tag : Bytes)
      (s : RpcServerImpl E)
      → turns 4 (started nonce cipher_text auth_tag) s
        ≡ ended (submit_request E uuid nonce cipher_text auth_tag now s)
  unfolding turns advance
  turns-started laws nonce cipher_text auth_tag s = elim (Bool-cases (length nonce == 12)) [
    | inr n ↦ unfold submit_request in rw n
    | inl n ↦ elim (Bool-cases (length auth_tag == 16)) [
      | inr t ↦ unfold submit_request in rw (n, t)
      | inl t ↦
          rw (n, t)
            (turns-reading laws nonce cipher_text auth_tag s ((==_iff _ _).0 n) ((==_iff _ _).0 t))
    ]
  ]
