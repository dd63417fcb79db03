-- ===== src/Access/Ssa.antt =====
-- runtime/src/ssa_access.cpp. A write of an element changes the given collection and returns it. The
-- conversions of a primitive type, `from` and `to`, are parameters: for `f64` and `f32` they are those
-- of floats, and for `ptr` they change nothing.
use memoir_cs397_atc.Prelude.{ℕ, List}
use memoir_cs397_atc.Objects.{Cmd, pure, ◌>>◌, access_check}
use memoir_cs397_atc.Struct.{get_field}
use memoir_cs397_atc.Assoc.{Argument, Floats}
use memoir_cs397_atc.Collection.{collection_get}
use memoir_cs397_atc.Access.{read_field, write_field, read_element, write_element}
use memoir_cs397_atc.Access.Cast.{IntegerKind, to_u64, from_u64}

-- HANDLE_INTEGER_TYPE
unfoldable pub struct_read_integer : IntegerKind → ℕ → ℕ → Cmd ℕ
struct_read_integer k = read_field (from_u64 k)

unfoldable pub struct_write_integer : IntegerKind → ℕ → ℕ → ℕ → Cmd (Unit {0})
struct_write_integer k = write_field (to_u64 k)

unfoldable pub index_read_integer : IntegerKind → Floats → ℕ → ℕ → List Argument → Cmd ℕ
index_read_integer k floats fuel = read_element floats fuel (from_u64 k)

unfoldable pub index_write_integer : IntegerKind → Floats → ℕ → ℕ → List Argument → Cmd ℕ
index_write_integer k floats value p args = do write_element floats (to_u64 k) value p args; pure p

unfoldable pub assoc_read_integer : IntegerKind → Floats → ℕ → ℕ → List Argument → Cmd ℕ
assoc_read_integer k floats fuel = read_element floats fuel (from_u64 k)

unfoldable pub assoc_write_integer : IntegerKind → Floats → ℕ → ℕ → List Argument → Cmd ℕ
assoc_write_integer k floats value p args = do write_element floats (to_u64 k) value p args; pure p

-- HANDLE_PRIMITIVE_TYPE
unfoldable pub struct_read_primitive : (ℕ → ℕ) → (ℕ → ℕ) → ℕ → ℕ → Cmd ℕ
struct_read_primitive from to = read_field from

unfoldable pub struct_write_primitive : (ℕ → ℕ) → (ℕ → ℕ) → ℕ → ℕ → ℕ → Cmd (Unit {0})
struct_write_primitive from to = write_field to

unfoldable pub index_read_primitive : (ℕ → ℕ) → (ℕ → ℕ) → Floats → ℕ → ℕ → List Argument → Cmd ℕ
index_read_primitive from to floats fuel = read_element floats fuel from

unfoldable pub index_write_primitive : (ℕ → ℕ) → (ℕ → ℕ) → Floats → ℕ → ℕ → List Argument → Cmd ℕ
index_write_primitive from to floats value p args = do write_element floats to value p args; pure p

unfoldable pub assoc_read_primitive : (ℕ → ℕ) → (ℕ → ℕ) → Floats → ℕ → ℕ → List Argument → Cmd ℕ
assoc_read_primitive from to floats fuel = read_element floats fuel from

unfoldable pub assoc_write_primitive : (ℕ → ℕ) → (ℕ → ℕ) → Floats → ℕ → ℕ → List Argument → Cmd ℕ
assoc_write_primitive from to floats value p args = do write_element floats to value p args; pure p

-- HANDLE_REFERENCE_TYPE
unfoldable pub struct_read_reference : ℕ → ℕ → Cmd ℕ
struct_read_reference = read_field (λ e. e)

unfoldable pub struct_write_reference : ℕ → ℕ → ℕ → Cmd (Unit {0})
struct_write_reference = write_field (λ v. v)

unfoldable pub index_read_reference : Floats → ℕ → ℕ → List Argument → Cmd ℕ
index_read_reference floats fuel = read_element floats fuel (λ e. e)

unfoldable pub index_write_reference : Floats → ℕ → ℕ → List Argument → Cmd ℕ
index_write_reference floats value p args = do write_element floats (λ v. v) value p args; pure p

unfoldable pub assoc_read_reference : Floats → ℕ → ℕ → List Argument → Cmd ℕ
assoc_read_reference floats fuel = read_element floats fuel (λ e. e)

unfoldable pub assoc_write_reference : Floats → ℕ → ℕ → List Argument → Cmd ℕ
assoc_write_reference floats value p args = do write_element floats (λ v. v) value p args; pure p

-- HANDLE_NESTED_TYPE
unfoldable pub struct_get : ℕ → ℕ → Cmd ℕ
struct_get p field_index = do access_check p; get_field p field_index

unfoldable pub index_get : Floats → ℕ → ℕ → List Argument → Cmd ℕ
index_get floats fuel p args = do access_check p; collection_get floats fuel p args

unfoldable pub assoc_get : Floats → ℕ → ℕ → List Argument → Cmd ℕ
assoc_get floats fuel p args = do access_check p; collection_get floats fuel p args
