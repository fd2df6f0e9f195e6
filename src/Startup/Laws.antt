-- ===== src/Startup/Laws.antt =====
-- What the map of src/main.rs holds once `main` has built it.
use tee_prover_server.Prelude.{
  ◌≡◌, refl, sym, ◌∙◌, ap, ◌+◌, ◌-◌, ◌++◌, Text, Bytes, codes, length, drop,
}
use tee_prover_server.Prelude.{List, [], ◌∷◌, some, Bool, true, from_utf8, from_utf8_bytes}
use tee_prover_server.Prelude.{
  text_eq, text_eq_iff, take-append, length-append, Option-cases, Bool-cases,
}
use tee_prover_server.Prelude.{inl, inr, arith}
use tee_prover_server.Prelude.Dict
use tee_prover_server.Prelude.Dict.{lookup, has}
use tee_prover_server.Startup.{circuit_name, zkey_path, insert, add_circuit, load_circuits}

module _ (exists : Text → Bool) (zkey_folder : Text) where
  -- Every circuit of the map has its key file, under the circuit's name.
  abbrev pub IsSound : List (Text × Text) → Type 0
  IsSound m = (k v : Text) → lookup k m ≡ some v → (v ≡ zkey_path zkey_folder k) × (exists v ≡ true)

  add_circuit-inv :
      (e : Bytes) (m m' : List (Text × Text))
      → add_circuit exists zkey_folder e m ≡ some m'
      → (name : Text) × (circuit_name e ≡ some name)
        × (exists (zkey_path zkey_folder name) ≡ true)
        × (m' ≡ insert name (zkey_path zkey_folder name) m)
  unfolding add_circuit
  add_circuit-inv e m m' h = elim (Option-cases (from_utf8 e)) [
    | inl odd ↦ absurd (ground arith)
    | inr (t, valid) ↦ elim (Option-cases (circuit_name t)) [
      | inl short ↦ absurd (ground arith)
      | inr (name, cut) ↦ elim (Bool-cases (exists (zkey_path zkey_folder name))) [
        | inr missing ↦ absurd (ground arith)
        | inl there ↦ (name, rw (← from_utf8_bytes e valid) cut, there, ground arith)
      ]
    ]
  ]

  insert-IsSound :
      (name : Text) (m : List (Text × Text))
      → exists (zkey_path zkey_folder name) ≡ true
      → IsSound m
      → IsSound (insert name (zkey_path zkey_folder name) m)
  unfolding lookup
  insert-IsSound name m there sound k v h = elim (Bool-cases (text_eq name k)) [
    | inl same ↦
        let here : name ≡ k = (text_eq_iff name k).0 same in
        let stored : zkey_path zkey_folder name ≡ v = ground arith in
        (sym stored ∙ ap (zkey_path zkey_folder) here, rw (← stored) there)
    | inr other ↦ sound k v (ground (arith, Dict.lookup-remove k name m))
  ]

  -- The loop over the circuit folder, where it does not panic, keeps the map sound: every circuit of
  -- it has a key file that was there, under the circuit's name.
  pub load_circuits-IsSound :
      (es : List Bytes) (m m' : List (Text × Text))
      → IsSound m
      → load_circuits exists zkey_folder es m ≡ some m'
      → IsSound m'
  unfolding load_circuits
  load_circuits-IsSound [] m m' sound h = λ k v found. sound k v (cc)
  load_circuits-IsSound (e ∷ es) m m' sound h =
      elim (Option-cases (add_circuit exists zkey_folder e m)) [
        | inl down ↦ absurd (ground arith)
        | inr (n, added) ↦
            let (name, _, there, same) = add_circuit-inv e m n added in
            let sound' : IsSound n = rw same (insert-IsSound name m there sound) in
            load_circuits-IsSound es n m' sound' (ground arith)
      ]

  has-insert :
      (k name v : Text) (m : List (Text × Text)) → has k m ≡ true → has k (insert name v m) ≡ true
  unfolding has
  has-insert k name v m h = ground (arith, Dict.has-remove k name m)

  load_circuits-has :
      (es : List Bytes) (m m' : List (Text × Text)) (k : Text)
      → has k m ≡ true
      → load_circuits exists zkey_folder es m ≡ some m'
      → has k m' ≡ true
  unfolding load_circuits
  load_circuits-has [] m m' k there h = ground arith
  load_circuits-has (e ∷ es) m m' k there h =
      elim (Option-cases (add_circuit exists zkey_folder e m)) [
        | inl down ↦ absurd (ground arith)
        | inr (n, added) ↦
            let (name, _, _, same) = add_circuit-inv e m n added in
            load_circuits-has es n m' k (rw same (has-insert k name _ m there)) (ground arith)
      ]

  -- Every entry of the folder has its circuit in the map.
  abbrev pub Covers : List (Text × Text) → List Bytes → Type 0
  Covers m [] = Unit {0}
  Covers m (e ∷ es) =
      ((name : Text) × (circuit_name e ≡ some name) × (has name m ≡ true)) × Covers m es

  -- After the loop, where it does not panic, the circuit of every entry of the folder is in the map.
  pub load_circuits-Covers :
      (es : List Bytes) (m m' : List (Text × Text))
      → load_circuits exists zkey_folder es m ≡ some m'
      → Covers m' es
  unfolding load_circuits has
  load_circuits-Covers [] m m' h = tt
  load_circuits-Covers (e ∷ es) m m' h = elim (Option-cases (add_circuit exists zkey_folder e m)) [
    | inl down ↦ absurd (ground arith)
    | inr (n, added) ↦
        let (name, cut, _, same) = add_circuit-inv e m n added in
        let rest : load_circuits exists zkey_folder es n ≡ some m' = ground arith in
        (
          (
            name,
            cut,
            load_circuits-has es n m' name (rw same (ground (arith, text_eq_iff name name))) rest,
          ),
          load_circuits-Covers es n m' rest,
        )
  ]

drop-append : (xs ys : Bytes) → drop (length xs) (xs ++ ys) ≡ ys
drop-append [] ys = refl
drop-append (x ∷ xs) ys = drop-append xs ys

-- The folder `name_cpp` is read as the circuit `name`.
pub circuit_name-cpp : (name : Text) → circuit_name (name ++ codes "_cpp") ≡ some name
unfolding circuit_name
circuit_name-cpp name =
    let n : length (name ++ codes "_cpp") ≡ length name + 4 = length-append name (codes "_cpp") in
    let kept : length (name ++ codes "_cpp") - 4 ≡ length name = omega arith in
    rw (kept, drop-append, take-append) (ground arith)
