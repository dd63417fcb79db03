-- ===== src/Access/Mut.antt =====
-- runtime/src/mut_access.cpp: the writes of the lowered form. The conversion of a primitive type is a
-- parameter.
use memoir_cs397_atc.Prelude.{ℕ, List}
use memoir_cs397_atc.Objects.{Cmd}
use memoir_cs397_atc.Assoc.{Argument, Floats}
use memoir_cs397_atc.Access.{write_field, write_element}
use memoir_cs397_atc.Access.Cast.{IntegerKind, to_u64}

-- HANDLE_INTEGER_TYPE
unfoldable pub struct_write_integer : IntegerKind → ℕ → ℕ → ℕ → Cmd (Unit {0})
struct_write_integer k = write_field (to_u64 k)

unfoldable pub index_write_integer : IntegerKind → Floats → ℕ → ℕ → List Argument → Cmd (Unit {0})
index_write_integer k floats = write_element floats (to_u64 k)

unfoldable pub assoc_write_integer : IntegerKind → Floats → ℕ → ℕ → List Argument → Cmd (Unit {0})
assoc_write_integer k floats = write_element floats (to_u64 k)

-- HANDLE_PRIMITIVE_TYPE
unfoldable pub struct_write_primitive : (ℕ → ℕ) → ℕ → ℕ → ℕ → Cmd (Unit {0})
struct_write_primitive to = write_field to

unfoldable pub index_write_primitive : (ℕ → ℕ) → Floats → ℕ → ℕ → List Argument → Cmd (Unit {0})
index_write_primitive to floats = write_element floats to

unfoldable pub assoc_write_primitive : (ℕ → ℕ) → Floats → ℕ → ℕ → List Argument → Cmd (Unit {0})
assoc_write_primitive to floats = write_element floats to

-- HANDLE_REFERENCE_TYPE
unfoldable pub struct_write_reference : ℕ → ℕ → ℕ → Cmd (Unit {0})
struct_write_reference = write_field (λ v. v)

unfoldable pub index_write_reference : Floats → ℕ → ℕ → List Argument → Cmd (Unit {0})
index_write_reference floats = write_element floats (λ v. v)

unfoldable pub assoc_write_reference : Floats → ℕ → ℕ → List Argument → Cmd (Unit {0})
assoc_write_reference floats = write_element floats (λ v. v)
