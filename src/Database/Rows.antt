-- ===== src/Database/Rows.antt =====
-- What the statements of src/db/mod.rs do to the row of each request.
use mathlib.Core.Option
use tee_prover_server.Prelude.{
  ℕ, ◌≡◌, refl, ◌==◌, ==_iff, Bool, true, false, Text, codes, ◌++◌, map, arith,
}
use tee_prover_server.Prelude.{
  List, [], ◌∷◌, Option, none, some, Result, ok, err, map_err-eq-ok, map_err-eq-err, if◌then◌else◌,
}
use tee_prover_server.Types.{ℤ, EndpointType, ProofType}
use tee_prover_server.Store.{Uuid}
use tee_prover_server.Os.{Os}
use tee_prover_server.Database.{
  Status, status_to_i32, Proof, Column, Value, Assignments, Row, insert, update, assign, new_row,
  is_uuid, is_of, Lacks, change, Postgres, IsPostgres, created_columns, create_proof_status,
  set_witness_generated, fail_proof, read_results, update_proof,
}

-- What each statement assigns.
abbrev pub failed_columns : Text → Assignments
failed_columns why =
    (Column.status, Value.int (status_to_i32 Status.failed)) ∷ (Column.reason, Value.text why) ∷ []

abbrev pub witness_columns : ℕ → Assignments
witness_columns now =
    (Column.status, Value.int (status_to_i32 Status.witness_generated))
    ∷ (Column.witness_generated_at, Value.time now)
    ∷ []

abbrev pub proof_columns : Proof → List Text → ℕ → Assignments
proof_columns p inputs now =
    (Column.proof, Value.json p)
    ∷ (Column.status, Value.int (status_to_i32 Status.proof_genererated))
    ∷ (Column.proof_generated_at, Value.time now)
    ∷ (Column.public_inputs, Value.texts inputs)
    ∷ []

-- The row of a request.
abbrev pub find_row : Uuid → List Row → Option Row
find_row u [] = none
find_row u (row ∷ rows) = if is_of u row then some row else find_row u rows

-- The assignments leave the key alone.
abbrev pub KeepsKey : Assignments → Type 0
KeepsKey cs = (row : Row) → assign cs row Column.request_id ≡ row Column.request_id

pub is_uuid_ne :
    (u v : Uuid) (x : Value) → is_uuid u x ≡ true → (u == v) ≡ false → is_uuid v x ≡ false
is_uuid_ne u v (Value.uuid w) h ne = ground arith
is_uuid_ne u v Value.null h ne = cc
is_uuid_ne u v _ h ne = cc

-- An update changes the row of its request, and no other.
pub find_row-change :
    (cs : Assignments) (u v : Uuid) (rows : List Row)
    → KeepsKey cs
    → find_row v (map (change cs u) rows)
      ≡ (if u == v then Option.map (assign cs) (find_row v rows) else find_row v rows)
find_row-change cs u v [] keeps = ground arith
find_row-change cs u v (row ∷ rows) keeps = ground (
  arith,
  keeps row,
  find_row-change cs u v rows keeps,
  is_uuid_ne u v (row Column.request_id),
  ==_iff u v,
)

pub find_row-append :
    (u : Uuid) (rows : List Row) (row : Row)
    → find_row u (rows ++ (row ∷ []))
      ≡ Option.or_else (find_row u rows) (if is_of u row then some row else none)
unfolding Option.or_else
find_row-append u [] row = refl
find_row-append u (r ∷ rows) row = ground (arith, find_row-append u rows row)

pub find_row_of_Lacks : (u : Uuid) (rows : List Row) → Lacks u rows → find_row u rows ≡ none
find_row_of_Lacks u [] h = refl
find_row_of_Lacks u (row ∷ rows) h = ground (arith, find_row_of_Lacks u rows h.1)

module _ {P : Postgres} {schema : List Column} (laws : IsPostgres P schema) where
  execute-find_row :
      (cs : Assignments) (u v : Uuid) (s : P.State)
      → KeepsKey cs
      → (P.execute (update cs u) s).0 ≡ ok tt
      → find_row v (P.rows (P.execute (update cs u) s).1)
        ≡ (if u == v then Option.map (assign cs) (find_row v (P.rows s)) else find_row v (P.rows s))
  execute-find_row cs u v s keeps done =
      rw (laws.execute-update cs u s done) (find_row-change cs u v (P.rows s) keeps)

  execute-insert-find_row :
      (cs : Assignments) (u : Uuid) (s : P.State)
      → new_row cs Column.request_id ≡ Value.uuid u
      → (P.execute (insert cs) s).0 ≡ ok tt
      → (find_row u (P.rows s) ≡ none)
        × (P.rows (P.execute (insert cs) s).1 ≡ P.rows s ++ (new_row cs ∷ []))
        × ((w : Uuid)
            → find_row w (P.rows (P.execute (insert cs) s).1)
              ≡ (if u == w then some (new_row cs) else find_row w (P.rows s)))
  unfolding Option.or_else
  execute-insert-find_row cs u s key done =
      let (_, fresh, after) = laws.execute-insert cs s u done key in
      let absent = find_row_of_Lacks u (P.rows s) fresh in
      (
        absent,
        after,
        λ w.
            rw (after, find_row-append w (P.rows s) (new_row cs))
              (rw key (ground (arith, ==_iff u w))),
      )

  -- A request is created once: on success it had no row, has the given one now, and every other
  -- request keeps its row; on failure no row changes, and the error is always the same text.
  pub create_proof_status_lem :
      (plain : EndpointType → Text) (u : Uuid) (kind : ProofType) (name : Text) (on_chain : Bool)
      (e : Option EndpointType) (place : Option Text) (v : ℤ) (user own : Text) (now : ℕ)
      (s : P.State)
      → let run = create_proof_status P plain u kind name on_chain e place v user own now s in
        let columns = created_columns plain u kind name on_chain e place v user own now in
        (run.0 ≡ ok tt
          → (find_row u (P.rows s) ≡ none)
            × (P.rows run.1 ≡ P.rows s ++ (new_row columns ∷ []))
            × ((w : Uuid)
                → find_row w (P.rows run.1)
                  ≡ (if u == w then some (new_row columns) else find_row w (P.rows s))))
        × ((why : Text)
            → run.0 ≡ err why
            → (why ≡ codes "Could not create the record") × (P.rows run.1 ≡ P.rows s))
  unfolding create_proof_status
  create_proof_status_lem plain u kind name on_chain e place v user own now s =
      let columns = created_columns plain u kind name on_chain e place v user own now in
      (
        λ h.
            execute-insert-find_row columns u s (unfold created_columns in refl)
              (map_err-eq-ok _ _ h),
        λ why h.
            let (b, failed, shown) = map_err-eq-err _ (P.execute (insert columns) s).0 h in
            (shown, laws.execute_err (insert columns) s b failed),
      )

  -- The statuses after a request has been created and as its later statements leave it: each of
  -- them sets the status and the columns named, keeps the other columns of the row, and changes
  -- no other request's row; one that fails changes nothing.
  pub set_witness_generated_lem :
      (u : Uuid) (now : ℕ) (s : P.State)
      → ((set_witness_generated P u now s).0 ≡ ok tt
          → (w : Uuid)
          → find_row w (P.rows (set_witness_generated P u now s).1) ≡ (
              if u == w
              then Option.map
                  (assign (
                    (Column.status, Value.int (status_to_i32 Status.witness_generated))
                    ∷ (Column.witness_generated_at, Value.time now)
                    ∷ []))
                  (find_row w (P.rows s))
              else find_row w (P.rows s)))
        × ((e : Text)
            → (set_witness_generated P u now s).0 ≡ err e
            → P.rows (set_witness_generated P u now s).1 ≡ P.rows s)
  unfolding set_witness_generated
  set_witness_generated_lem u now s =
      (λ h w. execute-find_row _ u w s (λ row. refl) h, λ e h. laws.execute_err _ s e h)

  pub fail_proof_lem :
      (u : Uuid) (why : Text) (s : P.State)
      → ((fail_proof P u why s).0 ≡ ok tt
          → (w : Uuid)
          → find_row w (P.rows (fail_proof P u why s).1) ≡ (
              if u == w
              then Option.map
                  (assign (
                    (Column.status, Value.int (status_to_i32 Status.failed))
                    ∷ (Column.reason, Value.text why)
                    ∷ []))
                  (find_row w (P.rows s))
              else find_row w (P.rows s)))
        × ((e : Text)
            → (fail_proof P u why s).0 ≡ err e
            → P.rows (fail_proof P u why s).1 ≡ P.rows s)
  unfolding fail_proof
  fail_proof_lem u why s =
      (λ h w. execute-find_row _ u w s (λ row. refl) h, λ e h. laws.execute_err _ s e h)

-- The end of a proof: the files that are read, and the statement.
module _ {P : Postgres} {schema : List Column} (laws : IsPostgres P schema) (O : Os)
    (parse_proof : Text → Result Proof Text) (parse_inputs : Text → Result (List Text) Text)
    (uuid_string : Text) (os : O.State) (u : Uuid) (now : ℕ) (s : P.State) where
  abbrev stored : P.State → Result (Unit {0}) Text × P.State
  stored = update_proof O parse_proof parse_inputs uuid_string os P u now

  -- Where the files cannot be read, `update_proof` runs no statement and shows why. Where they can,
  -- the request's row gets the proof, the inputs and the status, every other column and every other
  -- row is kept, and a failure of the statement changes nothing.
  pub update_proof_lem :
      ((e : Text)
        → read_results O parse_proof parse_inputs uuid_string os ≡ err e
        → stored s ≡ (err e, s))
      × ((p : Proof) (inputs : List Text)
          → read_results O parse_proof parse_inputs uuid_string os ≡ ok (p, inputs)
          → ((stored s).0 ≡ ok tt
              → (w : Uuid)
              → find_row w (P.rows (stored s).1) ≡ (
                  if u == w
                  then Option.map
                      (assign (
                        (Column.proof, Value.json p)
                        ∷ (Column.status, Value.int (status_to_i32 Status.proof_genererated))
                        ∷ (Column.proof_generated_at, Value.time now)
                        ∷ (Column.public_inputs, Value.texts inputs)
                        ∷ []))
                      (find_row w (P.rows s))
                  else find_row w (P.rows s)))
            × ((e : Text) → (stored s).0 ≡ err e → P.rows (stored s).1 ≡ P.rows s))
  unfolding update_proof
  update_proof_lem = (
    λ e h. rw (h, update_proof),
    λ p inputs h.
        rw (h, update_proof)
          (
            λ done w. execute-find_row laws _ u w s (λ row. refl) (map_err-eq-ok _ _ done),
            λ e failed.
                let (b, refused, _) = map_err-eq-err _ (P.execute (update _ u) s).0 failed in
                laws.execute_err _ s b refused,
          ),
  )
