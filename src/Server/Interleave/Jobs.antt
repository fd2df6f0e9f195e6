-- ===== src/Server/Interleave/Jobs.antt =====
-- What interleaved calls of `submit_request` of src/server.rs put into the pipeline.
use tee_prover_server.Prelude.{
  count_by, count_by-append, ℕ, zero, suc, ◌≡◌, refl, ◌+◌, ◌≤◌, ◌==◌, ==_iff, ◌++◌, arith, ap,
}
use tee_prover_server.Prelude.{
  List, [], ◌∷◌, Option, none, some, Result, ok, err, Result-cases, Bool-cases, inl, inr,
}
use tee_prover_server.Prelude.{Bytes, if◌then◌else◌, Option-cases}
use tee_prover_server.Types.{SubmitRequest, circuit, proof_type}
use tee_prover_server.Server.Submit.Endpoint.{endpoint_of}
use tee_prover_server.Store.{Uuid}
use tee_prover_server.Database.{Column, Row}
use tee_prover_server.Database.Rows.{find_row, create_proof_status_lem}
use tee_prover_server.Generators.{FileGenerator}
use tee_prover_server.Server.Env.{
  Env, RpcServerImpl, Exit, error, panic, get_shared_secret, remove_agreement,
}
use tee_prover_server.Server.Hello.{hello}
use tee_prover_server.Server.Hello.Laws.{hello_err, hello-IsGreeted}
use tee_prover_server.Server.Submit
use tee_prover_server.Server.Submit.Enqueue.{rows, jobs, job_of, IsLawful, answer}
use tee_prover_server.Server.Interleave.{
  Phase, reading, recording, sending, releasing, done, Handler, started, judged, Event, greet,
  begin, turn, advance, resume, happen, happen_all,
}

-- The jobs of a request.
abbrev pub count : Uuid → List FileGenerator → ℕ
count u js = count_by (λ j. j.uuid) u js

-- One, for a phase that is about to send a job.
abbrev pub due : Phase → ℕ
due (sending r) = 1
due _ = 0

abbrev pub weight : Uuid → Uuid → Phase → ℕ
weight u v phase = if v == u then due phase else 0

-- The jobs of a request that the calls under way are about to send.
abbrev pub pending : Uuid → List Handler → ℕ
pending u [] = 0
pending u (h ∷ hs) = weight u h.uuid h.phase + pending u hs

abbrev one_if : Option Row → ℕ
one_if none = 0
one_if (some row) = 1

-- One, for a request that has a row.
abbrev pub known : Uuid → List Row → ℕ
known u t = one_if (find_row u t)

pub count-append :
    (u : Uuid) (js : List FileGenerator) (j : FileGenerator)
    → count u (js ++ (j ∷ [])) ≡ count u js + (if j.uuid == u then 1 else 0)
count-append u js j = omega (arith, count_by-append (λ i. i.uuid) u js (j ∷ []))

pub due-judged : (r : Result SubmitRequest Exit) → due (judged r) ≡ 0
due-judged (ok r) = refl
due-judged (err panic) = refl
due-judged (err (error code message)) = refl

module _ (E : Env) {schema : List Column} (laws : IsLawful E schema) where
  -- Every job of a request, in the queue or about to be sent, has the request's row, and no request
  -- has two.
  abbrev pub AreBacked : (Uuid → ℕ) → RpcServerImpl E → Type 0
  AreBacked more s = (u : Uuid) → count u (jobs E s) + more u ≤ known u (rows E s)

  AreBacked-same :
      (more more' : Uuid → ℕ) (s s' : RpcServerImpl E)
      → jobs E s' ≡ jobs E s
      → rows E s' ≡ rows E s
      → ((u : Uuid) → more' u ≤ more u)
      → AreBacked more s
      → AreBacked more' s'
  AreBacked-same more more' s s' j r m h u = let a = h u in let b = m u in rw (j, r) (omega arith)

  advance-AreBacked :
      (more : Uuid → ℕ) (uuid : Uuid) (now : ℕ) (phase : Phase) (s : RpcServerImpl E)
      → AreBacked (λ u. weight u uuid phase + more u) s
      → AreBacked
          (λ u. weight u uuid (advance E uuid now phase s).0 + more u)
          (advance E uuid now phase s).1
  unfolding advance get_shared_secret Submit.create_proof_status Submit.send remove_agreement
  advance-AreBacked more uuid now (reading nonce cipher_text auth_tag) s h u =
      let v = (Submit.open_request E uuid nonce cipher_text auth_tag s).0 in
      let a = h u in rw (due-judged v) (omega arith)
  advance-AreBacked more uuid now (recording r) s h u =
      let before = h u in
      let (made, refused) =
        create_proof_status_lem laws.postgres E.plain uuid (proof_type r.proof_request_type)
          (circuit r.proof_request_type).name r.onchain
          (endpoint_of r.proof_request_type).endpoint_type
          (endpoint_of r.proof_request_type).endpoint (endpoint_of r.proof_request_type).version
          (endpoint_of r.proof_request_type).user_defined_data
          (endpoint_of r.proof_request_type).self_defined_data now s.db in
      elim (Result-cases (answer E uuid r now s).0) [
        | inr (why, e) ↦ let (_, same) = refused why e in rw (e, same) before
        | inl (_, e) ↦
            let (fresh, _, added) = made e in
            rw (e, added u)
              (elim (Bool-cases (uuid == u)) [
                | inr other ↦ rw other (ground arith)
                | inl same ↦
                    let here : find_row u (rows E s) ≡ none = rw (← (==_iff uuid u).0 same) fresh in
                    rw same (ground (arith, here))
              ])
      ]
  advance-AreBacked more uuid now (sending r) s h u =
      let before = h u in
      let job = job_of E uuid r in
      elim (Bool-cases (E.mpsc.closed s.file_generator_sender)) [
        | inl gone ↦
            let ((why, lost), kept) = laws.mpsc.send-closed job s.file_generator_sender gone in
            rw (lost, kept) (ground arith)
        | inr live ↦
            let (taken, queued) = laws.mpsc.send-open job s.file_generator_sender live in
            rw (taken, queued, count-append u (jobs E s) job) (ground arith)
      ]
  advance-AreBacked more uuid now (releasing reply) s h u = h u
  advance-AreBacked more uuid now (done reply) s h u = h u

  resume-AreBacked :
      (more : Uuid → ℕ) (n : ℕ) (hs : List Handler) (s : RpcServerImpl E)
      → AreBacked (λ u. pending u hs + more u) s
      → AreBacked (λ u. pending u (resume E n hs s).0 + more u) (resume E n hs s).1
  unfolding resume
  resume-AreBacked more zero [] s h = h
  resume-AreBacked more (suc n) [] s h = h
  resume-AreBacked more zero (c ∷ hs) s h =
      let stepped =
        advance-AreBacked (λ u. pending u hs + more u) c.uuid c.now c.phase s
          (λ u. let a = h u in omega arith) in
      λ u. let a = stepped u in omega arith
  resume-AreBacked more (suc n) (c ∷ hs) s h =
      let stepped =
        resume-AreBacked (λ u. weight u c.uuid c.phase + more u) n hs s
          (λ u. let a = h u in omega arith) in
      λ u. let a = stepped u in omega arith

  pub due-started :
      (nonce cipher_text auth_tag : Bytes) → due (started nonce cipher_text auth_tag) ≡ 0
  due-started nonce cipher_text auth_tag = ground arith

  pub hello-same :
      (key : E.crypto.Secret) (pubkey : Bytes) (uuid : Uuid) (s : RpcServerImpl E)
      → let t = (hello E key pubkey uuid s).1 in (jobs E t ≡ jobs E s) × (rows E t ≡ rows E s)
  hello-same key pubkey uuid s = elim (Result-cases (hello E key pubkey uuid s).0) [
    | inr (e, failed) ↦
        let (same, _) = hello_err E laws.lru key pubkey uuid s e failed in
        (ap (jobs E) same, ap (rows E) same)
    | inl (r, greeted) ↦
        let g = hello-IsGreeted E laws.lru key pubkey uuid s r greeted in
        (ap (jobs E) g.only_store, ap (rows E) g.only_store)
  ]

  happen-AreBacked :
      (e : Event E) (hs : List Handler) (s : RpcServerImpl E)
      → AreBacked (λ u. pending u hs) s
      → AreBacked (λ u. pending u (happen E e (hs, s)).0) (happen E e (hs, s)).1
  unfolding happen
  happen-AreBacked (greet key pubkey uuid) hs s h =
      let (j, r) = hello-same key pubkey uuid s in
      AreBacked-same (λ u. pending u hs) (λ u. pending u hs) s (hello E key pubkey uuid s).1 j r
        (λ u. omega arith) h
  happen-AreBacked (begin uuid nonce cipher_text auth_tag now) hs s h =
      λ u. let a = h u in rw (due-started nonce cipher_text auth_tag) (ground arith)
  happen-AreBacked (turn n) hs s h =
      let stepped = resume-AreBacked (λ u. 0) n hs s (λ u. let a = h u in omega arith) in
      λ u. let a = stepped u in omega arith

  happen_all-AreBacked :
      (es : List (Event E)) (hs : List Handler) (s : RpcServerImpl E)
      → AreBacked (λ u. pending u hs) s
      → let w = happen_all E es (hs, s) in AreBacked (λ u. pending u w.0) w.1
  unfolding happen_all
  happen_all-AreBacked [] hs s h = h
  happen_all-AreBacked (e ∷ es) hs s h =
      happen_all-AreBacked es (happen E e (hs, s)).0 (happen E e (hs, s)).1
        (happen-AreBacked e hs s h)

  -- However the calls of `hello` and `submit_request` interleave, from a state in which nothing is
  -- queued and no call is under way: no request is sent to the pipeline twice, and one that was sent
  -- has its row.
  pub happen_all-count :
      (es : List (Event E)) (s : RpcServerImpl E) (u : Uuid)
      → jobs E s ≡ []
      → let t = (happen_all E es ([], s)).1 in
        (count u (jobs E t) ≤ 1)
        × (count u (jobs E t) ≡ 1 → (row : Row) × (find_row u (rows E t) ≡ some row))
  happen_all-count es s u empty =
      let ends = happen_all-AreBacked es [] s (λ v. rw empty (omega arith)) u in
      elim (Option-cases (find_row u (rows E (happen_all E es ([], s)).1))) [
        | inl absent ↦
            let none_known : known u (rows E (happen_all E es ([], s)).1) ≡ 0 = rw absent in
            (omega arith, λ one. absurd (omega arith))
        | inr (row, there) ↦
            let one_known : known u (rows E (happen_all E es ([], s)).1) ≡ 1 = rw there in
            (omega arith, λ one. (row, there))
      ]
