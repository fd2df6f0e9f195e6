-- ===== src/Server/Submit/Outcome.antt =====
-- What a call of `submit_request` of src/server.rs does, on every path.
use tee_prover_server.Prelude.{
  ℕ, ◌≡◌, ◌≢◌, refl, ap, ◌++◌, ◌==◌, ==_iff, Text, Bytes, List, [], ◌∷◌,
}
use tee_prover_server.Prelude.{
  codes, length, true, false, Result, ok, err, Result-cases, Bool-cases,
}
use tee_prover_server.Prelude.{Option, inl, inr, ◌⊎◌, arith}
use tee_prover_server.Prelude.Dict.{lookup}
use tee_prover_server.Types.{SubmitRequest}
use tee_prover_server.Store.{Uuid}
use tee_prover_server.Database.{Column}
use tee_prover_server.Server.Env.{
  Env, RpcServerImpl, ErrorCode, Exit, invalid_request, error, panic, resume, get_shared_secret,
  remove_agreement,
}
use tee_prover_server.Server.Submit.{submit_request, enqueue}
use tee_prover_server.Server.Submit.Verdict.{
  agreements, verdict, settle, after_read, open_request-verdict, IsAccepted, verdict-IsAccepted,
  verdict_of_IsAccepted, verdict-ne-panic,
}
use tee_prover_server.Server.Submit.Enqueue.{
  rows, jobs, job_of, IsLawful, IsRecorded, IsReleased, Enqueued, handed_over, stranded, refused,
  enqueue-Enqueued, enqueue-IsReleased, released, answer,
}

module _ (E : Env) {schema : List Column} (laws : IsLawful E schema) (uuid : Uuid)
    (nonce cipher_text auth_tag : Bytes) (now : ℕ) (s : RpcServerImpl E) where
  abbrev called : Result Text Exit × RpcServerImpl E
  called = submit_request E uuid nonce cipher_text auth_tag now s

  abbrev found : Option Bytes
  found = lookup (E.uuid_to_string uuid) (agreements E s)

  abbrev decided : Result SubmitRequest Exit
  decided = verdict E s.circuit_zkey_map nonce cipher_text auth_tag found

  pub submit_request-settle :
      length nonce ≡ 12
      → length auth_tag ≡ 16
      → called ≡ resume (λ r. enqueue E uuid r now) (settle E uuid decided (after_read E uuid s))
  unfolding submit_request
  submit_request-settle n t =
      rw (n, t)
        (ap (resume (λ r. enqueue E uuid r now))
          (open_request-verdict E laws.lru uuid nonce cipher_text auth_tag s))

  -- A nonce or a tag of another length is refused, and the state is as it was.
  pub submit_request-lengths :
      (length nonce ≢ 12) ⊎ (length auth_tag ≢ 16)
      → (message : Text) × (called ≡ (err (error invalid_request message), s))
  unfolding submit_request
  submit_request-lengths h = elim (Bool-cases (length nonce == 12)) [
    | inr n ↦ (codes "Nonce must be 12 bytes", rw n)
    | inl n ↦ elim (Bool-cases (length auth_tag == 16)) [
      | inr t ↦ (codes "Auth tag must be 16 bytes", rw (n, t))
      | inl t ↦ absurd (ground arith)
    ]
  ]

  from_read :
      (r : SubmitRequest) {t : RpcServerImpl E} {reply : Result Text Exit}
      → Enqueued E uuid r now (after_read E uuid s) t reply
      → Enqueued E uuid r now s t reply
  unfolding get_shared_secret
  from_read r (handed_over a b c) =
      handed_over a (record { taken = b.taken; fresh = b.fresh; added = b.added }) c
  from_read r (stranded e a b c d) =
      stranded e a b (record { taken = c.taken; fresh = c.fresh; added = c.added }) d
  from_read r (refused a b c) = refused a b c

  passed :
      (r : SubmitRequest)
      → decided ≡ ok r
      → length nonce ≡ 12
      → length auth_tag ≡ 16
      → (called ≡ enqueue E uuid r now (after_read E uuid s))
        × Enqueued E uuid r now s called.1 called.0
  passed r d n t =
      let same : called ≡ enqueue E uuid r now (after_read E uuid s) =
        rw (submit_request-settle n t, d) in
      (same, rw same (from_read r (enqueue-Enqueued E laws uuid r now (after_read E uuid s))))

  -- A call either turns the message down and gives the session up, or hands the request over.
  submit_request-cases :
      length nonce ≡ 12
      → length auth_tag ≡ 16
      → ((code : ErrorCode) × (message : Text) × (called
            ≡ (err (error code message), (remove_agreement E uuid (after_read E uuid s)).1)))
        ⊎ ((r : SubmitRequest) × (decided ≡ ok r)
            × (called ≡ enqueue E uuid r now (after_read E uuid s))
            × Enqueued E uuid r now s called.1 called.0)
  submit_request-cases n t = elim (Result-cases decided) [
    | inl (r, e) ↦ let (same, ends) = passed r e n t in inr (r, e, same, ends)
    | inr (error code message, e) ↦ inl (code, message, rw (submit_request-settle n t, e))
    | inr (panic, e) ↦
        absurd (verdict-ne-panic E s.circuit_zkey_map nonce cipher_text auth_tag found n e)
  ]

  -- A call with a nonce and a tag of the right lengths uses the session up: whatever it returns, the
  -- agreement is gone from the store, and the map of circuits is as it was.
  pub submit_request-IsReleased :
      length nonce ≡ 12 → length auth_tag ≡ 16 → IsReleased E uuid s called.1
  unfolding get_shared_secret
  submit_request-IsReleased n t = elim (submit_request-cases n t) [
    | inl (_, _, e) ↦ rw e (released E laws.lru uuid s (after_read E uuid s) refl)
    | inr (r, _, e, _) ↦
        let h = enqueue-IsReleased E laws uuid r now (after_read E uuid s) in
        rw e (record { gone = h.gone; zkeys = h.zkeys })
  ]

  lengths-cases :
      ((length nonce ≡ 12) × (length auth_tag ≡ 16))
      ⊎ ((length nonce ≢ 12) ⊎ (length auth_tag ≢ 16))
  lengths-cases = elim (Bool-cases (length nonce == 12)) [
    | inr n ↦ inr (inl (ground arith))
    | inl n ↦ elim (Bool-cases (length auth_tag == 16)) [
      | inr t ↦ inr (inr (ground arith))
      | inl t ↦ inl ((==_iff _ _).0 n, (==_iff _ _).0 t)
    ]
  ]

  Enqueued-ne-panic :
      (r : SubmitRequest) {t : RpcServerImpl E} {reply : Result Text Exit}
      → Enqueued E uuid r now s t reply
      → reply ≢ err panic
  Enqueued-ne-panic r (handed_over a _ _) h = cc
  Enqueued-ne-panic r (stranded _ _ a _ _) h = cc
  Enqueued-ne-panic r (refused a _ _) h = cc

  -- No call panics, whatever the lengths of its nonce and tag.
  pub submit_request-ne-panic : called.0 ≢ err panic
  submit_request-ne-panic h = elim lengths-cases [
    | inl (n, t) ↦ elim (submit_request-cases n t) [
      | inl (_, _, e) ↦ let e' : called.0 ≡ err _ = ap (λ x. x.0) e in cc
      | inr (r, _, _, q) ↦ Enqueued-ne-panic r q h
    ]
    | inr wrong ↦
        let (_, e) = submit_request-lengths wrong in
        let e' : called.0 ≡ err _ = ap (λ x. x.0) e in cc
  ]

  -- What a successful call has done.
  pub record IsSubmitted (reply : Text) (r : SubmitRequest) : Type 0 where
    pub nonce_length : length nonce ≡ 12
    pub tag_length : length auth_tag ≡ 16
    pub accepted : IsAccepted E s.circuit_zkey_map nonce cipher_text auth_tag found r
    pub recorded : IsRecorded E uuid r now s called.1
    pub handed_over : jobs E called.1 ≡ jobs E s ++ (job_of E uuid r ∷ [])
    pub replied : reply ≡ E.uuid_to_string uuid

  lengths-of-ok :
      (reply : Text) → called.0 ≡ ok reply → (length nonce ≡ 12) × (length auth_tag ≡ 16)
  unfolding submit_request
  lengths-of-ok reply h = ground arith

  submitted :
      (r : SubmitRequest)
      → length nonce ≡ 12
      → length auth_tag ≡ 16
      → decided ≡ ok r
      → Enqueued E uuid r now s called.1 called.0
      → (reply : Text) → called.0 ≡ ok reply
      → IsSubmitted reply r
  submitted r n t e (handed_over a b c) reply h = record {
    nonce_length = n;
    tag_length = t;
    accepted = verdict-IsAccepted E s.circuit_zkey_map nonce cipher_text auth_tag found r e;
    recorded = b;
    handed_over = c;
    replied = ground arith;
  }
  submitted r n t e (stranded _ _ a _ _) reply h = absurd (ground arith)
  submitted r n t e (refused a _ _) reply h = absurd (ground arith)

  -- A call succeeds only with an accepted message under an identifier that had no row, and then the
  -- row is added, the job is queued behind the others, and the reply is the identifier.
  pub submit_request-IsSubmitted :
      (reply : Text) → called.0 ≡ ok reply → (r : SubmitRequest) × IsSubmitted reply r
  submit_request-IsSubmitted reply h = elim lengths-cases [
    | inl (n, t) ↦ elim (submit_request-cases n t) [
      | inl (_, _, e) ↦ let e' : called.0 ≡ err _ = ap (λ x. x.0) e in absurd (ground arith)
      | inr (r, d, _, q) ↦ (r, submitted r n t d q reply h)
    ]
    | inr wrong ↦
        let (_, e) = submit_request-lengths wrong in
        let e' : called.0 ≡ err _ = ap (λ x. x.0) e in absurd (ground arith)
  ]

  -- What a failed call leaves behind.
  abbrev pub LeavesAlone : RpcServerImpl E → Type 0
  LeavesAlone t =
      (jobs E t ≡ jobs E s)
      × ((rows E t ≡ rows E s)
          ⊎ ((r : SubmitRequest) × IsRecorded E uuid r now s t
              × (E.mpsc.closed s.file_generator_sender ≡ true)))

  failed-LeavesAlone :
      (r : SubmitRequest) {t : RpcServerImpl E} {reply : Result Text Exit} (e : Exit)
      → Enqueued E uuid r now s t reply
      → reply ≡ err e
      → LeavesAlone t
  failed-LeavesAlone r e (handed_over a _ _) h = absurd (ground arith)
  failed-LeavesAlone r e (stranded _ gone _ b c) h = (c, inr (r, b, gone))
  failed-LeavesAlone r e (refused _ b c) h = (c, inl b)

  -- A call that fails queues nothing, and the table is as it was, unless the pipeline is gone: then
  -- the request may be recorded.
  pub submit_request_err : (e : Exit) → called.0 ≡ err e → LeavesAlone called.1
  unfolding get_shared_secret remove_agreement
  submit_request_err e h = elim lengths-cases [
    | inl (n, t) ↦ elim (submit_request-cases n t) [
      | inl (_, _, q) ↦ rw q (refl, inl refl)
      | inr (r, _, _, q) ↦ failed-LeavesAlone r e q h
    ]
    | inr wrong ↦ let (_, q) = submit_request-lengths wrong in rw q (refl, inl refl)
  ]

  -- The other way round: an accepted message succeeds where the pipeline runs, unless the database
  -- refuses the record; what is recorded and queued is the request of the message.
  pub submit_request-succeeds :
      (r : SubmitRequest)
      → length nonce ≡ 12
      → length auth_tag ≡ 16
      → IsAccepted E s.circuit_zkey_map nonce cipher_text auth_tag found r
      → E.mpsc.closed s.file_generator_sender ≡ false
      → (answer E uuid r now s).0 ≡ ok tt
      → (called.0 ≡ ok (E.uuid_to_string uuid)) × IsSubmitted (E.uuid_to_string uuid) r
  unfolding get_shared_secret enqueue
  submit_request-succeeds r n t a live recorded =
      let d = verdict_of_IsAccepted E s.circuit_zkey_map nonce cipher_text auth_tag found r a in
      let (done, _) = laws.mpsc.send-open (job_of E uuid r) s.file_generator_sender live in
      let same : called ≡ enqueue E uuid r now (after_read E uuid s) =
        rw (submit_request-settle n t, d) in
      let ended : called.0 ≡ ok (E.uuid_to_string uuid) =
        rw same (rw (recorded, enqueue) (rw (done, enqueue))) in
      (ended, submitted r n t d (passed r d n t).1 (E.uuid_to_string uuid) ended)
