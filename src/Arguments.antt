-- ===== src/Arguments.antt =====
-- src/args.rs: the arguments of the program. The command line is a parameter: what it gives for the
-- long name of an option, if anything.
use tee_prover_server.Prelude.{ℕ, ◌≡◌, ◌↔◌, refl, Text, codes, Option, none, some}
use tee_prover_server.Prelude.{Option-cases, inl, inr}
use tee_prover_server.Prelude.Panics.{◌>>=◌}

-- `#[arg(short, long, default_value = ..)]`
pub record Arg : Type 0 where
  pub long : Text
  pub short : ℕ
  pub default : Option Text

abbrev pub server_address_arg : Arg
server_address_arg = record {
  long = codes "server-address";
  short = b's';
  default = some (codes "0.0.0.0:3001");
}

abbrev pub project_id_arg : Arg
project_id_arg = record { long = codes "project-id"; short = b'p'; default = none }

abbrev pub secret_id_arg : Arg
secret_id_arg = record { long = codes "secret-id"; short = b's'; default = some (codes "DB_URL") }

abbrev pub circuit_folder_arg : Arg
circuit_folder_arg = record {
  long = codes "circuit-folder";
  short = b'c';
  default = some (codes "../circuits");
}

abbrev pub zkey_folder_arg : Arg
zkey_folder_arg = record {
  long = codes "zkey-folder";
  short = b'k';
  default = some (codes "./zkeys");
}

abbrev pub rapidsnark_path_arg : Arg
rapidsnark_path_arg = record {
  long = codes "rapidsnark-path";
  short = b'r';
  default = some (codes "./rapidsnark");
}

pub record Config : Type 0 where
  pub server_address : Text
  pub project_id : Text
  pub secret_id : Text
  pub circuit_folder : Text
  pub zkey_folder : Text
  pub rapidsnark_path : Text

module _ (given : Text → Option Text) where
  -- What is given for an option, or its default.
  abbrev pub value : Arg → Option Text
  value a = elim (given a.long) [ none ↦ a.default | some v ↦ some v ]

  -- `Config::parse`; `none` ends the program.
  unfoldable pub parse : Option Config
  parse = do
    server_address ← value server_address_arg
    project_id ← value project_id_arg
    secret_id ← value secret_id_arg
    circuit_folder ← value circuit_folder_arg
    zkey_folder ← value zkey_folder_arg
    rapidsnark_path ← value rapidsnark_path_arg
    some (record {
      server_address = server_address;
      project_id = project_id;
      secret_id = secret_id;
      circuit_folder = circuit_folder;
      zkey_folder = zkey_folder;
      rapidsnark_path = rapidsnark_path;
    })

  value_or : (a : Arg) (d : Text) → a.default ≡ some d → (v : Text) × (value a ≡ some v)
  value_or a d h = elim (Option-cases (given a.long)) [
    | inl e ↦ (d, rw (e, value) h)
    | inr (v, e) ↦ (v, rw (e, value) refl)
  ]

  -- Every argument has a default but the project's identifier: without it, and only then, the
  -- arguments are refused.
  pub parse-eq-none_iff : (parse ≡ none) ↔ (given (codes "project-id") ≡ none)
  unfolding parse
  parse-eq-none_iff =
      let (a, p) = value_or server_address_arg _ refl in
      let (b, q) = value_or secret_id_arg _ refl in
      let (c, r) = value_or circuit_folder_arg _ refl in
      let (d, s) = value_or zkey_folder_arg _ refl in
      let (e, t) = value_or rapidsnark_path_arg _ refl in
      rw (p, q, r, s, t)
        (elim (Option-cases (given (codes "project-id"))) [
          | inl lacking ↦ rw (lacking, value) ((λ _. refl), (λ _. refl))
          | inr (v, there) ↦ rw (there, value) ((λ h. absurd (cc)), (λ h. absurd (cc)))
        ])
