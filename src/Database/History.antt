-- ===== src/Database/History.antt =====
-- What the table holds after any statements that src/db/mod.rs runs, in whatever order.
use mathlib.Core.Option
use tee_prover_server.Prelude.{
  ℕ, ◌≡◌, refl, ◌==◌, ==_iff, Bool, true, false, Bool-cases, Text, arith,
}
use tee_prover_server.Prelude.{List, [], ◌∷◌, Option, none, some, Result, if◌then◌else◌}
use tee_prover_server.Prelude.{Result-cases, inl, inr, ap, ◌∙◌}
use tee_prover_server.Types.{ℤ, EndpointType, ProofType}
use tee_prover_server.Store.{Uuid}
use tee_prover_server.Os.{Os}
use tee_prover_server.Database.{
  Proof, Column, Assignments, Row, assign, new_row, Postgres, IsPostgres, insert, update,
  created_columns, create_proof_status, set_witness_generated, fail_proof, read_results,
  update_proof,
}
use tee_prover_server.Database.Rows.{
  failed_columns, witness_columns, proof_columns, find_row, KeepsKey, create_proof_status_lem,
  set_witness_generated_lem, fail_proof_lem, update_proof_lem,
}
use tee_prover_server.Database.Distinct.{Distinct, map-change-Distinct, append-Distinct}

-- A call of one of the four functions, with its arguments; `S` is the state of the files.
pub data Call (S : Type 0) : Type 0 where
  create :
      Uuid
      → ProofType
      → Text
      → Bool
      → Option EndpointType
      → Option Text
      → ℤ
      → Text
      → Text
      → ℕ
      → Call S
  witness : Uuid → ℕ → Call S
  finish : Uuid → S → ℕ → Call S
  fail : Uuid → Text → Call S

-- The columns that only the creation of a request sets.
abbrev pub fixed : Column → Bool
fixed Column.status = false
fixed Column.witness_generated_at = false
fixed Column.proof_generated_at = false
fixed Column.proof = false
fixed Column.public_inputs = false
fixed Column.reason = false
fixed _ = true

-- The assignments leave the fixed columns alone.
abbrev KeepsFixed : Assignments → Type 0
KeepsFixed cs = (row : Row) (c : Column) → fixed c ≡ true → assign cs row c ≡ row c

failed_columns-KeepsFixed : (why : Text) → KeepsFixed (failed_columns why)
failed_columns-KeepsFixed why row _ h = ground arith

witness_columns-KeepsFixed : (now : ℕ) → KeepsFixed (witness_columns now)
witness_columns-KeepsFixed now row _ h = ground arith

proof_columns-KeepsFixed :
    (p : Proof) (inputs : List Text) (now : ℕ) → KeepsFixed (proof_columns p inputs now)
proof_columns-KeepsFixed p inputs now row _ h = ground arith

-- A request that is recorded stays recorded, with what its creation set.
abbrev pub Keeps : List Row → List Row → Type 0
Keeps before after =
    (u : Uuid) (row : Row)
    → find_row u before ≡ some row
    → (row' : Row) × (find_row u after ≡ some row')
      × ((c : Column) → fixed c ≡ true → row' c ≡ row c)

Keeps-refl : {before after : List Row} → after ≡ before → Keeps before after
Keeps-refl same u row h = (row, rw same h, λ c f. refl)

Keeps-update :
    (cs : Assignments) (u : Uuid) (before after : List Row)
    → KeepsFixed cs
    → ((w : Uuid)
        → find_row w after
          ≡ (if u == w then Option.map (assign cs) (find_row w before) else find_row w before))
    → Keeps before after
Keeps-update cs u before after keeps changed w row h = elim (Bool-cases (u == w)) [
  | inl same ↦ (assign cs row, rw (changed w) (rw (same, h)), keeps row)
  | inr other ↦ (row, rw (changed w) (rw (other, h)), λ c f. refl)
]

Keeps-insert :
    (u : Uuid) (made : Row) (before after : List Row)
    → find_row u before ≡ none
    → ((w : Uuid) → find_row w after ≡ (if u == w then some made else find_row w before))
    → Keeps before after
Keeps-insert u made before after fresh added w row h = elim (Bool-cases (u == w)) [
  | inl same ↦ let e : u ≡ w = (==_iff u w).0 same in absurd (cc)
  | inr other ↦ (row, rw (added w) (rw (other, h)), λ c f. refl)
]

module _ (P : Postgres) (O : Os) (plain : EndpointType → Text)
    (parse_proof : Text → Result Proof Text) (parse_inputs : Text → Result (List Text) Text)
    (uuid_to_string : Uuid → Text) where
  unfoldable pub apply : P.State → Call O.State → P.State
  apply s (create u kind name on_chain e place v user own now) =
      (create_proof_status P plain u kind name on_chain e place v user own now s).1
  apply s (witness u now) = (set_witness_generated P u now s).1
  apply s (finish u os now) =
      (update_proof O parse_proof parse_inputs (uuid_to_string u) os P u now s).1
  apply s (fail u why) = (fail_proof P u why s).1

  unfoldable pub apply_all : P.State → List (Call O.State) → P.State
  apply_all s [] = s
  apply_all s (c ∷ calls) = apply_all (apply s c) calls

  module _ {schema : List Column} (laws : IsPostgres P schema) where
    apply-Keeps : (s : P.State) (c : Call O.State) → Keeps (P.rows s) (P.rows (apply s c))
    unfolding apply
    apply-Keeps s (create u kind name on_chain e place v user own now) =
        let run = create_proof_status P plain u kind name on_chain e place v user own now s in
        let (done, refused) =
          create_proof_status_lem laws plain u kind name on_chain e place v user own now s in
        elim (Result-cases run.0) [
          | inl (tt, h) ↦
              let (fresh, _, added) = done h in
              Keeps-insert u _ (P.rows s) (P.rows run.1) fresh added
          | inr (why, h) ↦ Keeps-refl (refused why h).1
        ]
    apply-Keeps s (witness u now) =
        let (done, refused) = set_witness_generated_lem laws u now s in
        elim (Result-cases (set_witness_generated P u now s).0) [
          | inl (tt, h) ↦
              Keeps-update (witness_columns now) u (P.rows s)
                (P.rows (set_witness_generated P u now s).1) (witness_columns-KeepsFixed now)
                (done h)
          | inr (why, h) ↦ Keeps-refl (refused why h)
        ]
    apply-Keeps s (fail u why) =
        let (done, refused) = fail_proof_lem laws u why s in
        elim (Result-cases (fail_proof P u why s).0) [
          | inl (tt, h) ↦
              Keeps-update (failed_columns why) u (P.rows s) (P.rows (fail_proof P u why s).1)
                (failed_columns-KeepsFixed why) (done h)
          | inr (e, h) ↦ Keeps-refl (refused e h)
        ]
    apply-Keeps s (finish u os now) =
        let stored = update_proof O parse_proof parse_inputs (uuid_to_string u) os P u now s in
        let (unread, readable) =
          update_proof_lem laws O parse_proof parse_inputs (uuid_to_string u) os u now s in
        elim (Result-cases (read_results O parse_proof parse_inputs (uuid_to_string u) os)) [
          | inr (why, r) ↦ Keeps-refl (ap (λ x. P.rows x.1) (unread why r))
          | inl ((p, inputs), r) ↦
              let (done, refused) = readable p inputs r in
              elim (Result-cases stored.0) [
                | inl (tt, h) ↦
                    Keeps-update (proof_columns p inputs now) u (P.rows s) (P.rows stored.1)
                      (proof_columns-KeepsFixed p inputs now) (done h)
                | inr (e, h) ↦ Keeps-refl (refused e h)
              ]
        ]

    -- A request that is recorded stays recorded after any calls, and its identifier, kind, circuit,
    -- endpoint, version, data and time of creation are as its creation set them.
    pub apply_all-Keeps :
        (s : P.State) (calls : List (Call O.State)) → Keeps (P.rows s) (P.rows (apply_all s calls))
    unfolding apply_all
    apply_all-Keeps s [] u row h = (row, h, λ c f. refl)
    apply_all-Keeps s (c ∷ calls) u row h =
        let (middle, found, same) = apply-Keeps s c u row h in
        let (last, found', same') = apply_all-Keeps (apply s c) calls u middle found in
        (last, found', λ d f. same' d f ∙ same d f)

    executed-Distinct :
        (cs : Assignments) (u : Uuid) (s : P.State)
        → KeepsKey cs
        → Distinct (P.rows s)
        → Distinct (P.rows (P.execute (update cs u) s).1)
    executed-Distinct cs u s keeps h = elim (Result-cases (P.execute (update cs u) s).0) [
      | inl (_, done) ↦
          rw (laws.execute-update cs u s done) (map-change-Distinct cs u (P.rows s) keeps h)
      | inr (e, refused) ↦ rw (laws.execute_err (update cs u) s e refused) h
    ]

    apply-Distinct :
        (s : P.State) (c : Call O.State) → Distinct (P.rows s) → Distinct (P.rows (apply s c))
    unfolding apply create_proof_status set_witness_generated fail_proof update_proof
        created_columns
    apply-Distinct s (create u kind name on_chain e place v user own now) h =
        let columns = created_columns plain u kind name on_chain e place v user own now in
        elim (Result-cases (P.execute (insert columns) s).0) [
          | inl (_, done) ↦
              let (_, fresh, after) = laws.execute-insert columns s u done refl in
              rw after (append-Distinct u (new_row columns) (P.rows s) refl fresh h)
          | inr (why, refused) ↦ rw (laws.execute_err (insert columns) s why refused) h
        ]
    apply-Distinct s (witness u now) h = executed-Distinct (witness_columns now) u s (λ row. refl) h
    apply-Distinct s (fail u why) h = executed-Distinct (failed_columns why) u s (λ row. refl) h
    apply-Distinct s (finish u os now) h =
        elim (Result-cases (read_results O parse_proof parse_inputs (uuid_to_string u) os)) [
          | inr (why, r) ↦ rw (r, apply) h
          | inl ((p, inputs), r) ↦
              rw (r, apply) (executed-Distinct (proof_columns p inputs now) u s (λ row. refl) h)
        ]

    -- No two rows of the table have one identifier, after any calls on a table where none had.
    pub apply_all-Distinct :
        (s : P.State) (calls : List (Call O.State))
        → Distinct (P.rows s)
        → Distinct (P.rows (apply_all s calls))
    unfolding apply_all
    apply_all-Distinct s [] h = h
    apply_all-Distinct s (c ∷ calls) h = apply_all-Distinct (apply s c) calls (apply-Distinct s c h)
