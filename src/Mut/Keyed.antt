-- ===== src/Mut/Keyed.antt =====
-- The operations on associative arrays of runtime/src/mut_operations.cpp.
use memoir_cs397_atc.Prelude.{ℕ, List}
use memoir_cs397_atc.Objects.{Cmd, pure, ◌>>=◌, ◌>>◌, access_check}
use memoir_cs397_atc.Assoc.{Argument, Floats}
use memoir_cs397_atc.Collection.{collection_get, collection_remove}

unfoldable pub assoc_remove : Floats → ℕ → List Argument → Cmd (Unit {0})
assoc_remove floats collection args = do
  access_check collection
  collection_remove floats collection args

unfoldable pub assoc_insert : Floats → ℕ → ℕ → List Argument → Cmd (Unit {0})
assoc_insert floats fuel collection args = do
  access_check collection
  _ ← collection_get floats fuel collection args
  pure tt
