-- ===== src/Server/Submit/Kinds.antt =====
-- Which kinds of request a build of src/server.rs takes, against the word of its error message.
use tee_prover_server.Prelude.{◌≡◌, refl, true, false, length, take, text_eq}
use tee_prover_server.Types.{ProofRequest, proof_type, display}
use tee_prover_server.Server.Env.{Features}
use tee_prover_server.Server.Submit.{allowed_proof_type, allows}

-- The builds of Dockerfile.tee, with one of the three features.
pub data OneFeature : Features → Type 0 where
  only_register :
      OneFeature (record { register = true; dsc = false; disclose = false; cherrypick = false })
  only_dsc :
      OneFeature (record { register = false; dsc = true; disclose = false; cherrypick = false })
  only_disclose :
      OneFeature (record { register = false; dsc = false; disclose = true; cherrypick = false })

-- In a build with one of the three features, the word of the error message tells the truth: a
-- request is taken exactly if the name of its proof type begins with that word.
pub allows-prefix :
    {f : Features} (one : OneFeature f) (r : ProofRequest)
    → allows f r
      ≡ text_eq
          (take (length (allowed_proof_type f)) (display (proof_type r)))
          (allowed_proof_type f)
unfolding allows allowed_proof_type display proof_type text_eq
allows-prefix only_register (ProofRequest.register _ _ _) = refl
allows-prefix only_register _ = refl
allows-prefix only_dsc (ProofRequest.register _ _ _) = refl
allows-prefix only_dsc _ = refl
allows-prefix only_disclose (ProofRequest.register _ _ _) = refl
allows-prefix only_disclose _ = refl
