-- ===== src/Pipeline/Keys.antt =====
-- The paths of the key files, from the map that src/main.rs builds to the prover's argument.
