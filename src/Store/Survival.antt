-- ===== src/Store/Survival.antt =====
-- How long the store of src/store.rs keeps an agreement: the session is among the entries most
-- recently used, and every later use of the store moves it back by one place at most.
use tee_prover_server.Prelude.{ℕ, zero, suc, ◌≡◌, ◌∙◌, ◌+◌, ◌≤◌, ◌<◌, false, Text, Bytes}
use tee_prover_server.Prelude.{List, [], ◌∷◌, length, take, none, some, arith, text_eq, text_eq_iff}
use tee_prover_server.Prelude.{Bool-cases, Option-cases, inl, inr}
use tee_prover_server.Prelude.Dict
use tee_prover_server.Prelude.Dict.{lookup}
use tee_prover_server.Store.{Uuid, Lru, IsLru, LruStore, Call, insert, read, release, step, run}
use tee_prover_server.Store.{get_shared_secret, insert_new_agreement}
use tee_prover_server.Store.Bounds.{held, insert_new_agreement_lem}

module _ {ℓ} {V : Type ℓ} where
  -- The key is found among the first `n` entries.
  abbrev Within : ℕ → Text → V → List (Text × V) → Type ℓ
  Within n k v m = lookup k (take n m) ≡ some v

  Within-mono :
      (n k : ℕ) (q : Text) (v : V) (m : List (Text × V)) → n ≤ k → Within n q v m → Within k q v m
  unfolding lookup
  Within-mono zero k q v m le h = cc
  Within-mono (suc n) k q v [] le h = cc
  Within-mono (suc n) zero q v (e ∷ m) le h = absurd (omega arith)
  Within-mono (suc n) (suc k) q v (e ∷ m) le h = ground (arith, Within-mono n k q v m)

  Within-remove :
      (n : ℕ) (j q : Text) (v : V) (m : List (Text × V))
      → text_eq j q ≡ false
      → Within n q v m
      → Within n q v (Dict.remove j m)
  unfolding lookup Dict.remove
  Within-remove zero j q v m ne h = cc
  Within-remove (suc n) j q v [] ne h = cc
  Within-remove (suc n) j q v (e ∷ m) ne h = ground (
    arith,
    Within-remove n j q v m,
    text_eq_iff e.0 q,
    text_eq_iff e.0 j,
    text_eq_iff j q,
    Within-mono n (suc n) q v (Dict.remove j m),
  )

  Within-take :
      (n cap : ℕ) (q : Text) (v : V) (m : List (Text × V))
      → n ≤ cap
      → Within n q v m
      → Within n q v (take cap m)
  unfolding lookup
  Within-take zero cap q v m le h = cc
  Within-take (suc n) cap q v [] le h = cc
  Within-take (suc n) zero q v (e ∷ m) le h = absurd (omega arith)
  Within-take (suc n) (suc cap) q v (e ∷ m) le h = ground (arith, Within-take n cap q v m)

  lookup_of_Within :
      (n : ℕ) (q : Text) (v : V) (m : List (Text × V)) → Within n q v m → lookup q m ≡ some v
  unfolding lookup
  lookup_of_Within zero q v m h = cc
  lookup_of_Within (suc n) q v [] h = cc
  lookup_of_Within (suc n) q v (e ∷ m) h = ground (arith, lookup_of_Within n q v m)

-- The uses that do not give the session up.
abbrev Keeps : (Uuid → Text) → Uuid → List Call → Type 0
Keeps to_string uuid [] = Unit {0}
Keeps to_string uuid (release other ∷ calls) =
    (text_eq (to_string other) (to_string uuid) ≡ false) × Keeps to_string uuid calls
Keeps to_string uuid (_ ∷ calls) = Keeps to_string uuid calls

module _ {ℓ} {V : Type ℓ} where
  Within-cons :
      (n : ℕ) (j q : Text) (w v : V) (m : List (Text × V))
      → text_eq j q ≡ false
      → Within n q v m
      → Within (suc n) q v ((j, w) ∷ m)
  unfolding lookup
  Within-cons n j q w v m ne h = rw ne h

  Within-touch :
      (n : ℕ) (j q : Text) (v : V) (m : List (Text × V))
      → Within n q v m
      → Within (suc n) q v (Dict.touch j m)
  unfolding Dict.touch
  Within-touch n j q v m h = elim (Option-cases (lookup j m)) [
    | inl e ↦ rw (e, Dict.touch) (Within-mono n (suc n) q v m (omega arith) h)
    | inr (w, e) ↦
        rw (e, Dict.touch)
          (elim (Bool-cases (text_eq j q)) [
            | inl same ↦
                let found = lookup_of_Within n q v m h in
                unfold lookup in ground (arith, text_eq_iff j q)
            | inr ne ↦ Within-cons n j q w v (Dict.remove j m) ne (Within-remove n j q v m ne h)
          ])
  ]

module _ {L : Lru} (laws : IsLru L) (to_string : Uuid → Text) where
  cap-step :
      (s : LruStore L) (c : Call) → L.cap (step L to_string s c).ecdh_store ≡ L.cap s.ecdh_store
  unfolding step
  cap-step s (insert other w) = ground (arith, laws.cap-put s.ecdh_store (to_string other) w)
  cap-step s (read other) = laws.cap-get s.ecdh_store (to_string other)
  cap-step s (release other) = laws.cap-pop s.ecdh_store (to_string other)

  -- A session that is inserted is not one that is there.
  inserted_ne :
      (s : LruStore L) (other uuid : Uuid) (v : Bytes)
      → lookup (to_string uuid) (held L s) ≡ some v
      → L.contains s.ecdh_store (to_string other) ≡ false
      → text_eq (to_string other) (to_string uuid) ≡ false
  inserted_ne s other uuid v found absent = ground (
    arith,
    text_eq_iff (to_string other) (to_string uuid),
    Dict.has_of_lookup (to_string uuid) (held L s) v found,
    laws.contains_lem s.ecdh_store (to_string other),
  )

  step-Within :
      (n : ℕ) (s : LruStore L) (c : Call) (uuid : Uuid) (v : Bytes)
      → n < L.cap s.ecdh_store
      → Keeps to_string uuid (c ∷ [])
      → Within n (to_string uuid) v (held L s)
      → Within (suc n) (to_string uuid) v (held L (step L to_string s c))
  unfolding step
  step-Within n s (insert other w) uuid v room kept h =
      elim (Bool-cases (L.contains s.ecdh_store (to_string other))) [
        | inl e ↦ rw (e, step) (Within-mono n (suc n) (to_string uuid) v (held L s) (omega arith) h)
        | inr e ↦
            let ne =
              inserted_ne s other uuid v (lookup_of_Within n (to_string uuid) v (held L s) h) e in
            rw (e, step, laws.entries-put)
              (Within-take (suc n) (L.cap s.ecdh_store) (to_string uuid) v _ room (
                Within-cons n (to_string other) (to_string uuid) w v _ ne
                  (Within-remove n (to_string other) (to_string uuid) v (held L s) ne h)))
      ]
  step-Within n s (read other) uuid v room kept h =
      rw laws.entries-get (Within-touch n (to_string other) (to_string uuid) v (held L s) h)
  step-Within n s (release other) uuid v room kept h = rw laws.entries-pop (
      Within-mono n (suc n) (to_string uuid) v _ (omega arith)
        (Within-remove n (to_string other) (to_string uuid) v (held L s) kept.0 h))

  Keeps-head :
      (uuid : Uuid) (c : Call) (calls : List Call)
      → Keeps to_string uuid (c ∷ calls)
      → Keeps to_string uuid (c ∷ []) × Keeps to_string uuid calls
  Keeps-head uuid (insert other w) calls kept = (tt, kept)
  Keeps-head uuid (read other) calls kept = (tt, kept)
  Keeps-head uuid (release other) calls kept = ((kept.0, tt), kept.1)

  run-lookup :
      (n : ℕ) (calls : List Call) (s : LruStore L) (uuid : Uuid) (v : Bytes)
      → n + length calls ≤ L.cap s.ecdh_store
      → Keeps to_string uuid calls
      → Within n (to_string uuid) v (held L s)
      → lookup (to_string uuid) (held L (run L to_string s calls)) ≡ some v
  unfolding run
  run-lookup n [] s uuid v room kept h = lookup_of_Within n (to_string uuid) v (held L s) h
  run-lookup n (c ∷ calls) s uuid v room kept h =
      let (now, later) = Keeps-head uuid c calls kept in
      run-lookup (suc n) calls (step L to_string s c) uuid v (omega (arith, cap-step s c)) later
        (step-Within n s c uuid v (omega arith) now h)

  Within-first :
      (cap : ℕ) (k : Text) (v : Bytes) (m : List (Text × Bytes))
      → 0 < cap
      → Within 1 k v (take cap ((k, v) ∷ m))
  unfolding lookup
  Within-first zero k v m h = absurd (omega arith)
  Within-first (suc cap) k v m h = ground (arith, text_eq_iff k k)

  -- A new agreement can be read after any fewer uses of the store than its capacity, of this or of
  -- other sessions, none of which gives the session up.
  pub agreement_survives :
      (s : LruStore L) (uuid : Uuid) (secret : Bytes) (calls : List Call)
      → lookup (to_string uuid) (held L s) ≡ none
      → length calls < L.cap s.ecdh_store
      → Keeps to_string uuid calls
      → (get_shared_secret L to_string
          (run L to_string (insert_new_agreement L to_string s uuid secret).1 calls)
          uuid).0
        ≡ some secret
  unfolding get_shared_secret
  agreement_survives s uuid secret calls fresh room kept =
      let same : L.cap (insert_new_agreement L to_string s uuid secret).1.ecdh_store
          ≡ L.cap s.ecdh_store =
        unfold step in cap-step s (insert uuid secret) in
      let front = ((insert_new_agreement_lem laws to_string s uuid secret).1 fresh).1 in
      laws.get_lem _ (to_string uuid)
      ∙ run-lookup 1 calls (insert_new_agreement L to_string s uuid secret).1 uuid secret
          (omega arith) kept
          (rw front
            (Within-first (L.cap s.ecdh_store) (to_string uuid) secret (held L s) (omega arith)))
