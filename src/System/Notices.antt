-- ===== src/System/Notices.antt =====
-- What those who listen to the channel `status_update` of setup.sql hear of a request while the
-- server of src/main.rs runs.
pub mod Ranks
use mathlib.Core.Path.{subst}
use tee_prover_server.Prelude.{
  ℕ, suc, ◌≡◌, refl, sym, ap, ◌∙◌, Bool-cases, ◌==◌, ==_iff, ◌+◌, ◌≤◌, ◌⊎◌, inl, inr, arith, List,
  [], ◌∷◌, Option, none, some, length, text_eq,
}
use tee_prover_server.Prelude.Dict.{lookup}
use tee_prover_server.Store.{Uuid}
use tee_prover_server.Database.{
  Column, Value, Row, Status, pending, witness_generated, proof_genererated, failed, status_to_i32,
}
use tee_prover_server.Database.Rows.{find_row}
use tee_prover_server.Database.Notify.{announced, status_update_notify}
use tee_prover_server.System.{Site, System, Reach, here, next}
use tee_prover_server.System.Life.{
  Life, Turn, accept, generate, prove, drop, stop_waiting, stop_proving, fail, leave, HasStatus,
}
use tee_prover_server.System.Refines.{IsLawful, Represents, Step-Represents}
use tee_prover_server.System.Tallies.{table, tally}
use tee_prover_server.System.Notices.Ranks.{rank, rank-le, turned_rank}
use tee_prover_server.System.Lives.{
  number, number-le_failed, seen, Shows, At-Shows, status_to_i32-number,
}

-- One view, and a status that is new to it.
abbrev pub Rises : Option Status → Status → Type 0
Rises none st = Unit {0}
Rises (some b) st = number b + 1 ≤ number st

-- The statuses that were told, the last one first, lead from one view of a request to another: each
-- has a greater number than the one before it, and the last one is the status that is seen.
pub data Heard (a : Option Status) : List Value → Option Status → Type 0 where
  nothing : Heard a [] a
  news :
      {b : Option Status} {vs : List Value} (st : Status)
      → Heard a vs b
      → Rises b st
      → Heard a (Value.int (status_to_i32 st) ∷ vs) (some st)

abbrev shown_number : Option Status → ℕ
shown_number none = 0
shown_number (some st) = number st

Rises-self : (a : Option Status) (st : Status) → a ≡ some st → ¬ Rises a st
Rises-self none st e h = cc
Rises-self (some b) st e h = let same : number b ≡ number st = ap shown_number e in omega arith

-- What was told, with what a step tells.
abbrev pub told_next : Option Value → List Value → List Value
told_next none vs = vs
told_next (some v) vs = v ∷ vs

module _ (st st' : Status) (row row' : Row)
    (shown : row Column.status ≡ Value.int (status_to_i32 st))
    (shown' : row' Column.status ≡ Value.int (status_to_i32 st')) where
  announced_same : number st ≡ number st' → announced (some row) (some row') ≡ none
  unfolding status_update_notify
  announced_same e =
      rw (shown, shown', status_to_i32-number st, status_to_i32-number st')
        (rw (e, (==_iff (number st') (number st')).1 refl) refl)

  announced_risen :
      number st + 1 ≤ number st'
      → announced (some row) (some row') ≡ some (Value.int (status_to_i32 st'))
  unfolding status_update_notify lookup text_eq
  announced_risen less = elim (Bool-cases (number st' == number st)) [
    | inl e ↦
        let same : number st' ≡ number st = (==_iff (number st') (number st)).0 e in
        absurd (omega arith)
    | inr other ↦
        rw (shown, shown', status_to_i32-number st, status_to_i32-number st') (rw other refl)
  ]

announced_first :
    (st : Status) (row : Row)
    → row Column.status ≡ Value.int (status_to_i32 st)
    → announced none (some row) ≡ some (Value.int (status_to_i32 st))
unfolding status_update_notify lookup text_eq
announced_first st row shown = rw shown refl

-- What one step tells, from what the row shows before and after.
abbrev Tells : Option Status → Option Status → Option Row → Option Row → Type 0
Tells a b r r' =
    ((b ≡ a) × (announced r r' ≡ none))
    ⊎ ((st : Status) × (b ≡ some st)
        × Rises a st
        × (announced r r' ≡ some (Value.int (status_to_i32 st))))

same-Tells : (a : Option Status) (r r' : Option Row) → Shows a r → Shows a r' → Tells a a r r'
same-Tells none r r' h h' = inl (refl, rw (h, h') refl)
same-Tells (some st) r r' (row, there, shown) (row', there', shown') =
    inl (refl, rw (there, there') (announced_same st st row row' shown shown' refl))

first-Tells :
    (st : Status) (r r' : Option Row)
    → Shows none r
    → Shows (some st) r'
    → Tells none (some st) r r'
first-Tells st r r' h (row, there, shown) =
    inr (st, refl, tt, rw (h, there) (announced_first st row shown))

risen-Tells :
    (st st' : Status) (r r' : Option Row)
    → number st + 1 ≤ number st'
    → HasStatus st r
    → HasStatus st' r'
    → Tells (some st) (some st') r r'
risen-Tells st st' r r' less (row, there, shown) (row', there', shown') =
    inr (st', refl, less, rw (there, there') (announced_risen st st' row row' shown shown' less))

fail-Tells :
    (st : Status) (r r' : Option Row)
    → HasStatus st r
    → HasStatus failed r'
    → Tells (some st) (some failed) r r'
fail-Tells pending r r' h h' = risen-Tells pending failed r r' (omega arith) h h'
fail-Tells witness_generated r r' h h' =
    risen-Tells witness_generated failed r r' (omega arith) h h'
fail-Tells proof_genererated r r' h h' =
    risen-Tells proof_genererated failed r r' (omega arith) h h'
fail-Tells failed r r' h h' = same-Tells (some failed) r r' h h'

Turn-Tells :
    (m n : Life) (r r' : Option Row)
    → Turn m n
    → Shows (seen m) r
    → Shows (seen n) r'
    → Tells (seen m) (seen n) r r'
Turn-Tells _ _ r r' accept h h' = first-Tells pending r r' h h'
Turn-Tells _ _ r r' generate h h' = risen-Tells pending witness_generated r r' (omega arith) h h'
Turn-Tells _ _ r r' prove h h' =
    risen-Tells witness_generated proof_genererated r r' (omega arith) h h'
Turn-Tells _ _ r r' drop h h' = same-Tells (some pending) r r' h h'
Turn-Tells _ _ r r' stop_waiting h h' = same-Tells (some pending) r r' h h'
Turn-Tells _ _ r r' stop_proving h h' = same-Tells (some witness_generated) r r' h h'
Turn-Tells _ _ r r' (fail st) h h' = fail-Tells st r r' h h'
Turn-Tells _ _ r r' (leave st) h h' = same-Tells (some st) r r' h h'

Tells-Heard :
    (a b c : Option Status) (vs : List Value) (r r' : Option Row)
    → Heard a vs b
    → Tells b c r r'
    → Heard a (told_next (announced r r') vs) c
Tells-Heard a b c vs r r' heard (inl (e, silent)) = rw (silent, e) heard
Tells-Heard a b c vs r r' heard (inr (st, e, rises, loud)) = rw (loud, e) (news st heard rises)

Tells-length :
    (a b : Option Status) (vs : List Value) (r r' : Option Row) (k k' : ℕ)
    → Tells a b r r'
    → (((b ≡ a) × (k ≤ k')) ⊎ (suc k ≤ k'))
    → length vs ≤ k
    → length (told_next (announced r r') vs) ≤ k'
Tells-length a b vs r r' k k' (inl (_, silent)) (inl (_, up)) h = rw silent (omega arith)
Tells-length a b vs r r' k k' (inl (_, silent)) (inr up) h = rw silent (omega arith)
Tells-length a b vs r r' k k' (inr (st, e, rises, loud)) (inr up) h = rw loud (omega arith)
Tells-length a b vs r r' k k' (inr (st, e, rises, loud)) (inl (same, _)) h =
    absurd (Rises-self a st (sym same ∙ e) rises)

module _ {S : Site} (u : Uuid) where
  -- The statuses that the triggers tell of the request in a run, the last one first.
  abbrev pub told : {s t : System S} → Reach s t → List Value
  told here = []
  told (next {t} {u = t'} r step) =
      told_next (announced (find_row u (table t)) (find_row u (table t'))) (told r)

  module _ {schema : List Column} (laws : IsLawful S schema) where
    Step-Tells :
        (m n : Life) (s t : System S)
        → (n ≡ m) ⊎ Turn m n
        → Represents u m s
        → Represents u n t
        → Tells (seen m) (seen n) (find_row u (table s)) (find_row u (table t))
    Step-Tells m n s t (inr turn) h h' =
        Turn-Tells m n (find_row u (table s)) (find_row u (table t)) turn
          (At-Shows m (tally u s) (find_row u (table s)) h)
          (At-Shows n (tally u t) (find_row u (table t)) h')
    Step-Tells m n s t (inl e) h h' =
        let a =
          At-Shows n (tally u s) (find_row u (table s)) (subst (λ l. Represents u l s) (sym e) h) in
        let b = At-Shows n (tally u t) (find_row u (table t)) h' in
        subst (λ l. Tells (seen l) (seen n) (find_row u (table s)) (find_row u (table t))) e
          (same-Tells (seen n) (find_row u (table s)) (find_row u (table t)) a b)

    Reach-told :
        (m : Life) {s t : System S} (r : Reach s t)
        → Represents u m s
        → (n : Life) × Represents u n t
          × Heard (seen m) (told r) (seen n)
          × (length (told r) ≤ rank n)
    Reach-told m here h = (m, h, nothing, omega arith)
    Reach-told m (next {t} {u = t'} r step) h =
        let (n, at_n, heard, few) = Reach-told m r h in
        let (n', turned, at_n') = Step-Represents laws u n step at_n in
        let moved : (n' ≡ n) ⊎ Turn n n' = elim turned [
          | inl e ↦ inl e
          | inr (turn, _) ↦ inr turn
        ] in
        let tells = Step-Tells n n' t t' moved at_n at_n' in
        (
          n',
          at_n',
          Tells-Heard (seen m) (seen n) (seen n') (told r) (find_row u (table t))
              (find_row u (table t')) heard tells,
          Tells-length (seen n) (seen n') (told r) (find_row u (table t)) (find_row u (table t'))
              (rank n) (rank n') tells (turned_rank n n' moved) few,
        )

    -- Take a request that is, in some state, where its life says. Whatever happens from there on,
    -- the triggers tell of it at most three times, each time a status with a greater number than
    -- the one before, and the last status that was told is the one that its row shows: who
    -- listens sees what the row shows, and hears no status twice.
    pub Reach-Heard :
        (m : Life) {s t : System S} (r : Reach s t)
        → Represents u m s
        → (now : Option Status) × Shows now (find_row u (table t))
          × Heard (seen m) (told r) now
          × (length (told r) ≤ 3)
    Reach-Heard m {t = t} r h =
        let (n, at_n, heard, few) = Reach-told m r h in
        (
          seen n,
          At-Shows n (tally u t) (find_row u (table t)) at_n,
          heard,
          omega (arith, rank-le n),
        )
