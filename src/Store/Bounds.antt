-- ===== src/Store/Bounds.antt =====
-- What the store of src/store.rs holds: at most its capacity, each key once; and what the insertion
-- of an agreement does.
use tee_prover_server.Prelude.{ℕ, ◌≡◌, refl, ◌≤◌, Text, Bytes, List, [], ◌∷◌, length, arith}
use tee_prover_server.Prelude.{none, some, ok, err, codes, take}
use tee_prover_server.Prelude.Dict
use tee_prover_server.Prelude.Dict.{lookup, NodupKeys}
use tee_prover_server.Store.{Uuid, Lru, IsLru, LruStore, new}
use tee_prover_server.Store.{insert_new_agreement}

-- The entries that a store holds.
abbrev pub held : (L : Lru) → LruStore L → List (Text × Bytes)
held L s = L.entries s.ecdh_store

pub record IsValid (L : Lru) (size : ℕ) (s : LruStore L) : Type 0 where
  pub capacity : L.cap s.ecdh_store ≡ size
  pub bounded : length (held L s) ≤ size
  pub distinct : NodupKeys (held L s)

abbrev put_first : (L : Lru) → LruStore L → Text → Bytes → List (Text × Bytes)
put_first L s k v = (k, v) ∷ Dict.remove k (held L s)

module _ {L : Lru} (laws : IsLru L) (to_string : Uuid → Text) where
  new-eq : (size : ℕ) {s : LruStore L} → new L to_string size ≡ some s → s.ecdh_store ≡ L.new size
  unfolding new
  new-eq size h = ground arith

  pub new-IsValid :
      (size : ℕ) {s : LruStore L}
      → new L to_string size ≡ some s
      → IsValid L size s × (held L s ≡ [])
  new-IsValid size {s} h =
      let e = new-eq size h in
      let empty : held L s ≡ [] = rw e (laws.entries-new size) in
      (
        record {
          capacity = rw e (laws.cap-new size);
          bounded = rw empty (omega arith);
          distinct = rw empty tt;
        },
        empty,
      )

  -- An agreement that is there is kept: its session cannot be opened again, and nothing changes.
  -- A new one goes in front, and the last goes out where the store is full.
  pub insert_new_agreement_lem :
      (s : LruStore L) (uuid : Uuid) (secret : Bytes)
      → ((old : Bytes)
          → lookup (to_string uuid) (held L s) ≡ some old
          → insert_new_agreement L to_string s uuid secret ≡ (err (codes "Duplicate uuid"), s))
        × (lookup (to_string uuid) (held L s) ≡ none
            → ((insert_new_agreement L to_string s uuid secret).0 ≡ ok tt)
              × (held L (insert_new_agreement L to_string s uuid secret).1
                  ≡ take (L.cap s.ecdh_store) ((to_string uuid, secret) ∷ held L s)))
  unfolding insert_new_agreement
  insert_new_agreement_lem s uuid secret = (
    λ old h. rw (laws.contains_lem, Dict.has_of_lookup (to_string uuid) (held L s) old h),
    λ h.
        rw (laws.contains_lem, Dict.has_of_none (to_string uuid) (held L s) h)
          (
            refl,
            rw (
              laws.entries-put,
              Dict.remove_absent (to_string uuid) (held L s)
                  (Dict.has_of_none (to_string uuid) (held L s) h),
            ),
          ),
  )
