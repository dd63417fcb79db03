-- ===== src/Access.antt =====
-- runtime/src/ssa_access.cpp and runtime/src/mut_access.cpp: the accesses of struct fields and of
-- elements, one function for each type of value, which the macros HANDLE_INTEGER_TYPE,
-- HANDLE_PRIMITIVE_TYPE, HANDLE_REFERENCE_TYPE and HANDLE_NESTED_TYPE declare. A value goes as the
-- bits of its C type and is stored as a `uint64_t`.
pub mod Cast
pub mod Ssa
pub mod Mut
pub mod Trip
use memoir_cs397_atc.Prelude.{ℕ, List}
use memoir_cs397_atc.Objects.{Cmd, pure, ◌>>=◌, ◌>>◌, access_check}
use memoir_cs397_atc.Struct.{get_field, set_field}
use memoir_cs397_atc.Assoc.{Argument, Floats}
use memoir_cs397_atc.Collection.{collection_get, collection_set}

-- The bodies that the macros share, over the conversions from and to `uint64_t`.
unfoldable pub read_field : (ℕ → ℕ) → ℕ → ℕ → Cmd ℕ
read_field from p field_index = do
  access_check p
  element ← get_field p field_index
  pure (from element)

unfoldable pub write_field : (ℕ → ℕ) → ℕ → ℕ → ℕ → Cmd (Unit {0})
write_field to value p field_index = do access_check p; set_field p (to value) field_index

unfoldable pub read_element : Floats → ℕ → (ℕ → ℕ) → ℕ → List Argument → Cmd ℕ
read_element floats fuel from p args = do
  access_check p
  element ← collection_get floats fuel p args
  pure (from element)

unfoldable pub write_element : Floats → (ℕ → ℕ) → ℕ → ℕ → List Argument → Cmd (Unit {0})
write_element floats to value p args = do access_check p; collection_set floats p (to value) args
