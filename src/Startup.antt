-- ===== src/Startup.antt =====
-- The map from circuits to their keys that `main` of src/main.rs builds before it serves.
pub mod Laws
use tee_prover_server.Prelude.{
  ℕ, ◌-◌, ◌||◌, ◌++◌, Bool, true, false, Text, Bytes, codes, length, take, drop,
}
use tee_prover_server.Prelude.{
  List, [], ◌∷◌, Option, none, some, ltb, leb, from_utf8, if◌then◌else◌,
}
use tee_prover_server.Prelude.Dict
use tee_prover_server.Paths.{join}

-- Whether a character of a valid text begins here.
abbrev pub begins_char : Text → Bool
begins_char [] = true
begins_char (b ∷ _) = ltb b 0x80 || leb 0xc0 b

-- `cpp_folder[0..cpp_folder.len() - 4]`; `none` is a panic: the text is too short, or a character
-- would be cut.
unfoldable pub circuit_name : Text → Option Text
circuit_name cpp_folder =
    let kept = length cpp_folder - 4 in
    if ltb (length cpp_folder) 4
    then none
    else if begins_char (drop kept cpp_folder)
    then some (take kept cpp_folder)
    else none

abbrev pub zkey_path : Text → Text → Text
zkey_path zkey_folder name = join zkey_folder (name ++ codes ".zkey")

-- `HashMap::insert`
abbrev pub insert : Text → Text → List (Text × Text) → List (Text × Text)
insert k v m = (k, v) ∷ Dict.remove k m

module _ (exists : Text → Bool) (zkey_folder : Text) where
  -- The body of the loop, for the name of one entry; `none` is a panic.
  unfoldable pub add_circuit : Bytes → List (Text × Text) → Option (List (Text × Text))
  add_circuit dir_name m = elim (from_utf8 dir_name) [
    | none ↦ none
    | some cpp_folder ↦ elim (circuit_name cpp_folder) [
      | none ↦ none
      | some name ↦
          if exists (zkey_path zkey_folder name)
          then some (insert name (zkey_path zkey_folder name) m)
          else none
    ]
  ]

  -- The loop over the entries of the circuit folder.
  unfoldable pub load_circuits : List Bytes → List (Text × Text) → Option (List (Text × Text))
  load_circuits [] m = some m
  load_circuits (e ∷ es) m = elim (add_circuit e m) [ none ↦ none | some m' ↦ load_circuits es m' ]
