-- ===== src/Launch/Ready.antt =====
-- What holds when the start of `main` in src/main.rs has come to its end.
use tee_prover_server.Prelude.{◌≡◌, refl, true, Text, Bytes, List, [], Option, some}
use tee_prover_server.Prelude.{Bool-cases, inl, inr, arith}
use tee_prover_server.Prelude.Panics.{>>=-elim}
use tee_prover_server.Arguments.{Config, parse}
use tee_prover_server.Store
use tee_prover_server.Store.{LruStore, IsLru}
use tee_prover_server.Store.Bounds.{IsValid, new-IsValid, held}
use tee_prover_server.Server.Env.{RpcServerImpl}
use tee_prover_server.Prelude.Dict.{lookup}
use tee_prover_server.Startup.Laws.{IsSound, Covers, load_circuits-IsSound, load_circuits-Covers}
use tee_prover_server.Launch.{
  Host, Launched, database_url, read_circuits, with_prover, launch, prover_path, all_entries,
}

module _ (H : Host) where
  -- What a start has checked and made.
  pub record IsReady (os : H.os.State) (l : Launched H) : Type 0 where
    pub config_read : parse H.given ≡ some l.config
    pub connected :
        (url : Text) × (database_url H ≡ some url) × (H.connect 20 url ≡ some l.server.db)
    pub sound : IsSound (λ p. H.os.exists p os) l.config.zkey_folder l.server.circuit_zkey_map
    pub covers :
        (entries : List (Option Bytes)) × (names : List Bytes) × (H.read_dir l.config.circuit_folder
            os
          ≡ some entries)
        × (all_entries entries ≡ some names)
        × Covers (λ p. H.os.exists p os) l.config.zkey_folder l.server.circuit_zkey_map names
    pub prover : l.rapid_snark_path ≡ prover_path l.config
    pub prover_exists : H.os.exists l.rapid_snark_path os ≡ true
    pub queues :
        (l.server.file_generator_sender ≡ H.file_channel 10)
        × (l.witness_generator_sender ≡ H.witness_channel 10)
        × (l.proof_generator_sender ≡ H.proof_channel 10)
    pub store_valid : IsValid H.env.lru 1000 l.server.store
    pub store_empty : held H.env.lru l.server.store ≡ []

  with_prover-some :
      (config : Config) (server : RpcServerImpl H.env) (os : H.os.State) {l : Launched H}
      → with_prover H config server os ≡ some l
      → (H.os.exists (prover_path config) os ≡ true)
        × (l ≡ record {
          config = config;
          server = server;
          witness_generator_sender = H.witness_channel 10;
          proof_generator_sender = H.proof_channel 10;
          rapid_snark_path = prover_path config;
        })
  unfolding with_prover
  with_prover-some config server os h = elim (Bool-cases (H.os.exists (prover_path config) os)) [
    | inl there ↦ (there, ground arith)
    | inr missing ↦ absurd (ground arith)
  ]

  read_circuits-IsSound :
      (config : Config) (os : H.os.State) {zkeys : List (Text × Text)}
      → read_circuits H config os ≡ some zkeys
      → IsSound (λ p. H.os.exists p os) config.zkey_folder zkeys
        × ((entries : List (Option Bytes)) × (names : List Bytes) × (H.read_dir
                config.circuit_folder os
              ≡ some entries)
            × (all_entries entries ≡ some names)
            × Covers (λ p. H.os.exists p os) config.zkey_folder zkeys names)
  unfolding read_circuits lookup
  read_circuits-IsSound config os {zkeys} h =
      >>=-elim ((H.read_dir config.circuit_folder os)) _ h (λ entries e h'.
        >>=-elim ((all_entries entries)) _ h' (λ names n h''. (
          load_circuits-IsSound (λ p. H.os.exists p os) config.zkey_folder names [] zkeys
              (λ k v found. cc) h'',
          (
            entries,
            names,
            e,
            n,
            load_circuits-Covers (λ p. H.os.exists p os) config.zkey_folder names [] zkeys h'',
          ),
        )))

  -- A start that succeeds has read its arguments, connected to the database that the secret names,
  -- and checked that the prover is there; the map has every entry of the circuit folder, and for each
  -- a key file that is there; the store is empty, with room for 1000 agreements.
  pub launch-IsReady :
      IsLru H.env.lru → (os : H.os.State) (l : Launched H) → launch H os ≡ some l → IsReady os l
  unfolding launch
  launch-IsReady lru os l h = >>=-elim ((database_url H)) _ h (λ url u h1.
      >>=-elim ((parse H.given)) _ h1 (λ config c h2.
        >>=-elim ((H.listener config.server_address)) _ h2 (λ listener _ h3.
          >>=-elim ((H.local_addr listener)) _ h3 (λ addr _ h4.
            >>=-elim ((H.connect 20 url)) _ h4 (λ pool p h5.
              >>=-elim ((read_circuits H config os)) _ h5 (λ zkeys z h6.
                >>=-elim ((Store.new H.env.lru H.env.uuid_to_string 1000)) _ h6 (λ store s h7.
                  let (there, same) = with_prover-some config _ os h7 in
                  let (sound, covers) = read_circuits-IsSound config os z in
                  let (valid, empty) = new-IsValid lru H.env.uuid_to_string 1000 s in
                  rw same (record {
                    config_read = c;
                    connected = (url, u, p);
                    sound = sound;
                    covers = covers;
                    prover = refl;
                    prover_exists = there;
                    queues = (refl, refl, refl);
                    store_valid = valid;
                    store_empty = empty;
                  }))))))))
