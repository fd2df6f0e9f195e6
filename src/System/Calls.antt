-- ===== src/System/Calls.antt =====
-- What the calls of src/server.rs that are under way do to a request.
use tee_prover_server.Prelude.{ℕ, zero, suc, ◌≡◌, refl, ◌+◌, arith}
use tee_prover_server.Prelude.{List, [], ◌∷◌, Result-cases, Bool-cases, inl, inr}
use tee_prover_server.Types.{SubmitRequest, circuit, proof_type}
use tee_prover_server.Store.{Uuid}
use tee_prover_server.Database.{Column, created_columns}
use tee_prover_server.Database.Rows.{create_proof_status_lem}
use tee_prover_server.Server.Env.{Env, RpcServerImpl, get_shared_secret, remove_agreement}
use tee_prover_server.Server.Submit
use tee_prover_server.Server.Submit.Endpoint.{endpoint_of}
use tee_prover_server.Server.Submit.{open_request}
use tee_prover_server.Server.Submit.Enqueue.{rows, jobs, job_of, row_of, IsLawful, answer}
use tee_prover_server.Server.Interleave.{
  Phase, reading, recording, sending, releasing, done, Handler, Event, greet, begin, turn, advance,
  resume, happen,
}
use tee_prover_server.Server.Interleave.Jobs.{
  count, count-append, weight, due-judged, due-started, hello-same,
}
use tee_prover_server.Server.Interleave.Jobs.{pending}
use tee_prover_server.System.Mishaps.{Lost}
use tee_prover_server.System.Life.{Tally}
use tee_prover_server.System.Moves.{one, Moves, flows, halts, stays, accepts, drops, Moves-more}

module _ (E : Env) (u : Uuid) where
  -- The jobs that are queued, and those that calls are about to send.
  abbrev pub call_tally : ℕ → RpcServerImpl E → Tally
  call_tally due s = record { early = count u (jobs E s) + due; late = 0; stopped = 0 }

  abbrev pub Moved : Uuid → ℕ → RpcServerImpl E → ℕ → RpcServerImpl E → Type 0
  Moved v due s due' s' =
      Moves (Lost E) u v (call_tally due s) (call_tally due' s') (rows E s) (rows E s')

-- The session of the call that goes on, and of an event.
abbrev turned_uuid : ℕ → List Handler → Uuid
turned_uuid zero [] = 0
turned_uuid (suc n) [] = 0
turned_uuid zero (h ∷ hs) = h.uuid
turned_uuid (suc n) (h ∷ hs) = turned_uuid n hs

abbrev pub event_uuid : {E : Env} → Event E → List Handler → Uuid
event_uuid (greet key pubkey uuid) hs = uuid
event_uuid (begin uuid nonce cipher_text auth_tag now) hs = uuid
event_uuid (turn n) hs = turned_uuid n hs

module _ (E : Env) {schema : List Column} (laws : IsLawful E schema) (u : Uuid) where
  recording-Moves :
      (uuid : Uuid) (now : ℕ) (r : SubmitRequest) (s : RpcServerImpl E)
      → Moved E u uuid
          (weight u uuid (recording r))
          s
          (weight u uuid (advance E uuid now (recording r) s).0)
          (advance E uuid now (recording r) s).1
  unfolding advance Submit.create_proof_status created_columns
  recording-Moves uuid now r s =
      let (made, refused) =
        create_proof_status_lem laws.postgres E.plain uuid (proof_type r.proof_request_type)
          (circuit r.proof_request_type).name r.onchain
          (endpoint_of r.proof_request_type).endpoint_type
          (endpoint_of r.proof_request_type).endpoint (endpoint_of r.proof_request_type).version
          (endpoint_of r.proof_request_type).user_defined_data
          (endpoint_of r.proof_request_type).self_defined_data now s.db in
      elim (Result-cases (answer E uuid r now s).0) [
        | inr (why, e) ↦
            let (_, same) = refused why e in rw e (flows (stays (ground arith) refl refl same))
        | inl (_, e) ↦
            let (fresh, _, added) = made e in
            rw e
              (flows (accepts (row_of E uuid r now) (ground arith) refl refl fresh (added u) refl))
      ]

  sending-Moves :
      (uuid : Uuid) (now : ℕ) (r : SubmitRequest) (s : RpcServerImpl E)
      → Moved E u uuid
          (one uuid u)
          s
          (weight u uuid (advance E uuid now (sending r) s).0)
          (advance E uuid now (sending r) s).1
  unfolding advance Submit.send
  sending-Moves uuid now r s =
      let job = job_of E uuid r in
      elim (Bool-cases (E.mpsc.closed s.file_generator_sender)) [
        | inr live ↦
            let (taken, queued) = laws.mpsc.send-open job s.file_generator_sender live in
            rw (taken, queued)
              (flows (stays (ground (arith, count-append u (jobs E s) job)) refl refl refl))
        | inl gone ↦
            let ((why, lost), kept) = laws.mpsc.send-closed job s.file_generator_sender gone in
            rw (lost, kept)
              (halts (drops (s.file_generator_sender, gone) (ground arith) refl refl refl))
      ]

  advance-Moves :
      (uuid : Uuid) (now : ℕ) (phase : Phase) (s : RpcServerImpl E)
      → Moved E u uuid
          (weight u uuid phase)
          s
          (weight u uuid (advance E uuid now phase s).0)
          (advance E uuid now phase s).1
  unfolding advance get_shared_secret remove_agreement
  advance-Moves uuid now (recording r) s = recording-Moves uuid now r s
  advance-Moves uuid now (sending r) s = sending-Moves uuid now r s
  advance-Moves uuid now (reading nonce cipher_text auth_tag) s =
      let v = (open_request E uuid nonce cipher_text auth_tag s).0 in
      flows (stays (rw (due-judged v) refl) refl refl refl)
  advance-Moves uuid now (releasing reply) s = flows (stays refl refl refl refl)
  advance-Moves uuid now (done reply) s = flows (stays refl refl refl refl)

  -- The same among more calls.
  Moved-more :
      (v : Uuid) (due due' more all all' : ℕ) (s s' : RpcServerImpl E)
      → all ≡ due + more
      → all' ≡ due' + more
      → Moved E u v due s due' s'
      → Moved E u v all s all' s'
  Moved-more v due due' more all all' s s' p q =
      Moves-more u v (call_tally E u due s) (call_tally E u due' s') (call_tally E u all s)
        (call_tally E u all' s') (record { early = more; late = 0; stopped = 0 }) (rows E s)
        (rows E s') (omega arith, refl, refl) (omega arith, refl, refl)

  resume-Moves :
      (n : ℕ) (hs : List Handler) (s : RpcServerImpl E)
      → Moved E u
          (turned_uuid n hs)
          (pending u hs)
          s
          (pending u (resume E n hs s).0)
          (resume E n hs s).1
  unfolding resume
  resume-Moves zero [] s = flows (stays refl refl refl refl)
  resume-Moves (suc n) [] s = flows (stays refl refl refl refl)
  resume-Moves zero (h ∷ hs) s =
      let (phase, s') = advance E h.uuid h.now h.phase s in
      Moved-more h.uuid (weight u h.uuid h.phase) (weight u h.uuid phase) (pending u hs) _ _ s s'
        refl refl (advance-Moves h.uuid h.now h.phase s)
  resume-Moves (suc n) (h ∷ hs) s =
      let (hs', s') = resume E n hs s in
      Moved-more (turned_uuid n hs) (pending u hs) (pending u hs') (weight u h.uuid h.phase) _ _ s
        s' (omega arith) (omega arith) (resume-Moves n hs s)

  -- A call that begins or goes on moves one request at most.
  pub happen-Moves :
      (e : Event E) (hs : List Handler) (s : RpcServerImpl E)
      → Moved E u
          (event_uuid e hs)
          (pending u hs)
          s
          (pending u (happen E e (hs, s)).0)
          (happen E e (hs, s)).1
  unfolding happen
  happen-Moves (greet key pubkey uuid) hs s =
      let (j, r) = hello-same E laws key pubkey uuid s in
      rw (j, r) (flows (stays refl refl refl refl))
  happen-Moves (begin uuid nonce cipher_text auth_tag now) hs s =
      flows
        (stays (rw (due-started E laws nonce cipher_text auth_tag) (ground arith)) refl refl refl)
  happen-Moves (turn n) hs s = resume-Moves n hs s
