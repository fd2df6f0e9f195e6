-- ===== src/Store.antt =====
-- src/store.rs: the agreements, in an LRU cache behind a lock. `lru` is a crate of its own, so the
-- cache is a parameter with the behaviour that the crate documents. A method holds the lock for
-- its whole body, so it is one step on the cache.
pub mod Bounds
pub mod Survival
use tee_prover_server.Prelude.{ℕ, ◌≡◌, ◌==◌, Bool, Text, Bytes, codes, List, [], ◌∷◌, take}
use tee_prover_server.Prelude.{Option, none, some, Result, ok, err, if◌then◌else◌}
use tee_prover_server.Prelude.Dict.{lookup, has, remove, touch}

-- `uuid::Uuid`, a number of 128 bits.
abbrev pub Uuid : Type 0
Uuid = ℕ

-- `lru::LruCache<String, Vec<u8>>`. `entries` lists what `iter` visits, most recently used first.
pub record Lru : Type 1 where
  pub Cache : Type 0
  pub new : ℕ → Cache
  pub contains : Cache → Text → Bool
  pub get : Cache → Text → Option Bytes × Cache
  pub put : Cache → Text → Bytes → Option Bytes × Cache
  pub pop : Cache → Text → Option Bytes × Cache
  pub cap : Cache → ℕ
  pub entries : Cache → List (Text × Bytes)

-- What the crate documents of these. `contains` does not touch the order; `get` moves a hit to the
-- front; `put` makes its entry the first, and drops the last where that exceeds the capacity.
pub record IsLru (L : Lru) : Type 0 where
  pub cap-new : (n : ℕ) → L.cap (L.new n) ≡ n
  pub entries-new : (n : ℕ) → L.entries (L.new n) ≡ []
  pub contains_lem : (c : L.Cache) (k : Text) → L.contains c k ≡ has k (L.entries c)
  pub get_lem : (c : L.Cache) (k : Text) → (L.get c k).0 ≡ lookup k (L.entries c)
  pub cap-get : (c : L.Cache) (k : Text) → L.cap (L.get c k).1 ≡ L.cap c
  pub entries-get : (c : L.Cache) (k : Text) → L.entries (L.get c k).1 ≡ touch k (L.entries c)
  pub cap-put : (c : L.Cache) (k : Text) (v : Bytes) → L.cap (L.put c k v).1 ≡ L.cap c
  pub entries-put :
      (c : L.Cache) (k : Text) (v : Bytes)
      → L.entries (L.put c k v).1 ≡ take (L.cap c) ((k, v) ∷ remove k (L.entries c))
  pub cap-pop : (c : L.Cache) (k : Text) → L.cap (L.pop c k).1 ≡ L.cap c
  pub entries-pop : (c : L.Cache) (k : Text) → L.entries (L.pop c k).1 ≡ remove k (L.entries c)

pub record LruStore (L : Lru) : Type 0 where
  pub ecdh_store : L.Cache

-- A use of the store by a handler.
pub data Call : Type 0 where
  insert : Uuid → Bytes → Call
  read : Uuid → Call
  release : Uuid → Call

-- `to_string` is that of the crate `uuid`.
module _ (L : Lru) (to_string : Uuid → Text) where
  -- `LruStore::new`; `none` is the panic of `NonZeroUsize::new(size).unwrap()`.
  unfoldable pub new : ℕ → Option (LruStore L)
  new size = if size == 0 then none else some (record { ecdh_store = L.new size })

  unfoldable pub insert_new_agreement :
      LruStore L → Uuid → Bytes → Result (Unit {0}) Text × LruStore L
  insert_new_agreement s uuid shared_secret =
      if L.contains s.ecdh_store (to_string uuid)
      then (err (codes "Duplicate uuid"), s)
      else (ok tt, record { ecdh_store = (L.put s.ecdh_store (to_string uuid) shared_secret).1 })

  unfoldable pub get_shared_secret : LruStore L → Uuid → Option Bytes × LruStore L
  get_shared_secret s uuid =
      let (found, cache) = L.get s.ecdh_store (to_string uuid) in
      (found, record { ecdh_store = cache })

  unfoldable pub remove_agreement : LruStore L → Uuid → LruStore L
  remove_agreement s uuid = record { ecdh_store = (L.pop s.ecdh_store (to_string uuid)).1 }

  unfoldable pub step : LruStore L → Call → LruStore L
  unfolding insert_new_agreement get_shared_secret remove_agreement
  step s (insert uuid secret) = (insert_new_agreement s uuid secret).1
  step s (read uuid) = (get_shared_secret s uuid).1
  step s (release uuid) = remove_agreement s uuid

  unfoldable pub run : LruStore L → List Call → LruStore L
  run s [] = s
  run s (c ∷ calls) = run (step s c) calls
