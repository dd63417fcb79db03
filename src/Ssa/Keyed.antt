-- ===== src/Ssa/Keyed.antt =====
-- The operations on associative arrays of runtime/src/ssa_operations.cpp.
pub mod Agree
use memoir_cs397_atc.Prelude.{ℕ, Bool, List}
use memoir_cs397_atc.Types.{assoc_array_ty}
use memoir_cs397_atc.Objects.{
  assoc_array_object, Cmd, pure, ◌>>=◌, ◌>>◌, store, access_check, type_check,
}
use memoir_cs397_atc.Init.{new_assoc_array}
use memoir_cs397_atc.Assoc.{Argument, Floats, load_assoc, get_element, remove_element, keys}
use memoir_cs397_atc.Collection.{collection_has}

-- `new AssocArray(assoc_type)`, into which all pairs of the given array are inserted.
unfoldable pub copy_assoc : ℕ → Cmd ℕ
copy_assoc collection = do
  assoc ← load_assoc collection
  new_assoc ← new_assoc_array assoc.0
  store new_assoc (assoc_array_object assoc.0 assoc.1)
  pure new_assoc

unfoldable pub assoc_has : Floats → ℕ → List Argument → Cmd Bool
assoc_has floats collection args = do access_check collection; collection_has floats collection args

unfoldable pub assoc_remove : Floats → ℕ → Argument → Cmd ℕ
assoc_remove floats collection a = do
  access_check collection
  new_assoc ← copy_assoc collection
  remove_element floats new_assoc a
  pure new_assoc

unfoldable pub assoc_insert : Floats → ℕ → ℕ → Argument → Cmd ℕ
assoc_insert floats fuel collection a = do
  access_check collection
  new_assoc ← copy_assoc collection
  _ ← get_element floats fuel new_assoc a
  pure new_assoc

unfoldable pub assoc_keys : ℕ → Cmd ℕ
assoc_keys collection = do
  access_check collection
  type_check collection assoc_array_ty
  keys collection
