-- ===== src/Paths.antt =====
-- Paths as the standard library joins them on Unix, and the folder of a request (src/utils.rs).
use tee_prover_server.Prelude.{◌≡◌, refl, Bool, true, false, ◌==◌, ◌++◌, [], ◌∷◌, Text, codes}
use tee_prover_server.Prelude.{if◌then◌else◌}

-- `Path::is_absolute`: the path begins with `/`.
unfoldable pub is_absolute : Text → Bool
is_absolute [] = false
is_absolute (c ∷ p) = c == b'/'

-- Whether a separator is due before what is pushed: the path is not empty and does not end in one.
unfoldable pub needs_separator : Text → Bool
needs_separator [] = false
needs_separator (c ∷ []) = if c == b'/' then false else true
needs_separator (c ∷ d ∷ p) = needs_separator (d ∷ p)

-- `Path::join`: an absolute path replaces the one that it is joined to.
unfoldable pub join : Text → Text → Text
join p q = if is_absolute q then q else if needs_separator p then p ++ (b'/' ∷ q) else p ++ q

-- `get_tmp_folder_path`
unfoldable pub get_tmp_folder_path : Text → Text
get_tmp_folder_path uuid = codes "./tmp_" ++ uuid

join_relative : join (codes "./zkeys") (codes "a.zkey") ≡ codes "./zkeys/a.zkey"
unfolding join is_absolute needs_separator
join_relative = refl

join_absolute : join (codes "./zkeys") (codes "/z/a.zkey") ≡ codes "/z/a.zkey"
unfolding join is_absolute needs_separator
join_absolute = refl
