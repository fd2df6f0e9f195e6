-- ===== src/System/Lives.antt =====
-- What a client of src/main.rs can rely on when it watches the row of a request.
use mathlib.Core.Path.{subst}
use tee_prover_server.Prelude.{ℕ, ◌≡◌, refl, ◌+◌, ◌≤◌, arith, Option, none, some, List}
use tee_prover_server.Types.{pos}
use tee_prover_server.Store.{Uuid}
use tee_prover_server.Database.{
  Column, Value, Row, Status, pending, witness_generated, proof_genererated, failed, status_to_i32,
}
use tee_prover_server.Database.Rows.{find_row}
use tee_prover_server.System.{Site, System, Reach}
use tee_prover_server.System.Life.{
  Life, absent, waiting, proving, stopping, ended, Turn, accept, generate, prove, drop,
  stop_waiting, stop_proving, fail, leave, Turns, same, later, HasStatus, Tally, At,
}
use tee_prover_server.System.Refines.{IsLawful, Represents, Reach-Represents}
use tee_prover_server.System.Tallies.{table, tally}

-- The number that a row shows for a status.
abbrev pub number : Status → ℕ
number pending = 0
number witness_generated = 1
number proof_genererated = 2
number failed = 3

-- What a client that reads the table sees of a life.
abbrev pub seen : Life → Option Status
seen absent = none
seen waiting = some pending
seen proving = some witness_generated
seen (stopping st) = some st
seen (ended st) = some st

-- One view is not later than another: a request that is seen stays so, and its number does not fall.
abbrev pub NoLater : Option Status → Option Status → Type 0
NoLater none b = Unit {0}
NoLater (some st) none = number st + 1 ≤ 0
NoLater (some st) (some st') = number st ≤ number st'

NoLater-trans : (a b c : Option Status) → NoLater a b → NoLater b c → NoLater a c
NoLater-trans none b c h k = tt
NoLater-trans (some a) none c h k = absurd (omega arith)
NoLater-trans (some a) (some b) none h k = absurd (omega arith)
NoLater-trans (some a) (some b) (some c) h k = omega arith

NoLater-refl : (a : Option Status) → NoLater a a
NoLater-refl none = tt
NoLater-refl (some a) = omega arith

pub number-le_failed : (st : Status) → number st ≤ number failed
number-le_failed pending = omega arith
number-le_failed witness_generated = omega arith
number-le_failed proof_genererated = omega arith
number-le_failed failed = omega arith

Turn-NoLater : (m n : Life) → Turn m n → NoLater (seen m) (seen n)
Turn-NoLater _ _ accept = tt
Turn-NoLater _ _ generate = omega arith
Turn-NoLater _ _ prove = omega arith
Turn-NoLater _ _ drop = omega arith
Turn-NoLater _ _ stop_waiting = omega arith
Turn-NoLater _ _ stop_proving = omega arith
Turn-NoLater _ _ (fail st) = number-le_failed st
Turn-NoLater _ _ (leave st) = omega arith

Turns-NoLater : (m n : Life) → Turns m n → NoLater (seen m) (seen n)
Turns-NoLater m _ same = NoLater-refl (seen m)
Turns-NoLater m n (later {m = k} ts t) =
    NoLater-trans (seen m) (seen k) (seen n) (Turns-NoLater m k ts) (Turn-NoLater k n t)

Turn-ne-ended : (m n : Life) (st : Status) → m ≡ ended st → ¬ Turn m n
Turn-ne-ended _ _ st e accept = cc
Turn-ne-ended _ _ st e generate = cc
Turn-ne-ended _ _ st e prove = cc
Turn-ne-ended _ _ st e drop = cc
Turn-ne-ended _ _ st e stop_waiting = cc
Turn-ne-ended _ _ st e stop_proving = cc
Turn-ne-ended _ _ st e (fail k) = cc
Turn-ne-ended _ _ st e (leave k) = cc

Turns-ended : (st : Status) (n : Life) → Turns (ended st) n → n ≡ ended st
Turns-ended st _ same = refl
Turns-ended st n (later {m = k} ts t) = absurd (Turn-ne-ended k n st (Turns-ended st k ts) t)

-- What the row shows.
abbrev pub Shows : Option Status → Option Row → Type 0
Shows none r = r ≡ none
Shows (some st) r = HasStatus st r

pub At-Shows : (m : Life) (c : Tally) (r : Option Row) → At m c r → Shows (seen m) r
At-Shows absent c r (_, _, _, h) = h
At-Shows waiting c r (_, _, _, h) = h
At-Shows proving c r (_, _, _, h) = h
At-Shows (stopping st) c r (_, _, _, h) = h
At-Shows (ended st) c r (_, _, _, h) = h

-- All places where a request is counted.
abbrev pub places : Tally → ℕ
places c = c.early + c.late + c.stopped

At-one : (m : Life) (c : Tally) (r : Option Row) → At m c r → places c ≤ 1
At-one absent c r (p, q, k, _) = omega arith
At-one waiting c r (p, q, k, _) = omega arith
At-one proving c r (p, q, k, _) = omega arith
At-one (stopping st) c r (p, q, k, _) = omega arith
At-one (ended st) c r (p, q, k, _) = omega arith

pub status_to_i32-number : (st : Status) → status_to_i32 st ≡ pos (number st)
unfolding status_to_i32
status_to_i32-number pending = refl
status_to_i32-number _ = refl

int_injective : {a b : ℕ} → Value.int (pos a) ≡ Value.int (pos b) → a ≡ b
int_injective h = cc

HasStatus-number :
    (st st' : Status) (r : Option Row) → HasStatus st r → HasStatus st' r → number st ≡ number st'
HasStatus-number st st' r (row, there, shown) (row', there', shown') =
    int_injective (cc (status_to_i32-number st, status_to_i32-number st'))

Shows-number :
    (a b : Option Status) (r r' : Option Row)
    → Shows a r
    → Shows b r'
    → NoLater a b
    → (st : Status) → HasStatus st r
    → (st' : Status) × HasStatus st' r' × (number st ≤ number st')
Shows-number none b r r' h k le st (row, there, _) = absurd (cc)
Shows-number (some a) none r r' h k le st shown = absurd (omega arith)
Shows-number (some a) (some b) r r' h k le st shown =
    (b, k, omega (arith, HasStatus-number st a r shown h))

module _ {S : Site} {schema : List Column} (laws : IsLawful S schema) (u : Uuid) where
  -- Take a request that is, in some state, where its life says. Whatever happens from there on, it
  -- is in the server at most once: about to be sent by a call, in a channel, or in a task that has
  -- not come to the removal of its folder.
  pub Reach-once :
      (m : Life) {s t : System S} → Reach s t → Represents u m s → places (tally u t) ≤ 1
  Reach-once m {t = t} r h =
      let (n, _, at_n) = Reach-Represents laws u m r h in
      At-one n (tally u t) (find_row u (table t)) at_n

  -- Take a request that is, in some state, where its life says. Whatever happens from there on,
  -- its row, if it shows a status, does not go away, and the number of its status does not fall.
  pub Reach-number :
      (m : Life) {s t : System S}
      → Reach s t
      → Represents u m s
      → (st : Status) → HasStatus st (find_row u (table s))
      → (st' : Status) × HasStatus st' (find_row u (table t)) × (number st ≤ number st')
  Reach-number m {s} {t} r h st shown =
      let (n, turns, at_n) = Reach-Represents laws u m r h in
      Shows-number (seen m) (seen n) (find_row u (table s)) (find_row u (table t))
        (At-Shows m (tally u s) (find_row u (table s)) h)
        (At-Shows n (tally u t) (find_row u (table t)) at_n) (Turns-NoLater m n turns) st shown

  -- Take a request that the server is done with in some state: it has a row and is nowhere in the
  -- server. Whatever happens from there on, it stays out of the server, and its row keeps its
  -- status.
  pub Reach-ended :
      (st : Status) {s t : System S}
      → Reach s t
      → Represents u (ended st) s
      → (places (tally u t) ≡ 0) × HasStatus st (find_row u (table t))
  Reach-ended st {t = t} r h =
      let (n, turns, at_n) = Reach-Represents laws u (ended st) r h in
      let e = Turns-ended st n turns in
      let (p, q, k, shown) = subst (λ l. At l (tally u t) (find_row u (table t))) e at_n in
      (omega arith, shown)
