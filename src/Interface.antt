-- ===== src/Interface.antt =====
-- runtime/src/type.cpp: the functions by which a program names its types.
use memoir_cs397_atc.Prelude.{ℕ, zero, suc, ◌^◌, List, [], ◌∷◌, ltb}
use memoir_cs397_atc.Result.{Result, ok, undefined, require, ◌>>=◌ as bind}
use memoir_cs397_atc.Types
use memoir_cs397_atc.Types.{Registry}
use memoir_cs397_atc.Objects.{Cmd, ◌>>=◌, ◌>>◌, lift, types}
use memoir_cs397_atc.Assoc.{Argument, pointer_argument}
use memoir_cs397_atc.Tensor.Methods.{read_indices}
use memoir_cs397_atc.Access.Cast.{IntegerKind, bitwidth, is_signed}

-- `va_arg(args, Type *)`, as often as there are fields.
unfoldable pub read_types : ℕ → List Argument → Result (List ℕ)
read_types zero args = ok []
read_types (suc n) [] = undefined
read_types (suc n) (a ∷ args) =
    bind (pointer_argument a) λ t. bind (read_types n args) λ ts. ok (t ∷ ts)

unfoldable pub define_struct_type : ℕ → ℕ → List Argument → Cmd ℕ
define_struct_type name num_fields args = do
  fields ← lift (read_types num_fields args)
  types (Types.define_struct_type name fields)

unfoldable pub struct_type : ℕ → Cmd ℕ
struct_type name = types (Types.get_struct_type name)

-- The lengths are counted by an `int`.
unfoldable pub static_tensor_type : ℕ → ℕ → List Argument → Cmd ℕ
static_tensor_type type num_dimensions args = do
  lift (require (ltb num_dimensions (2 ^ 31)))
  length_of_dimensions ← lift (read_indices num_dimensions args)
  types (Types.get_static_tensor_type type num_dimensions length_of_dimensions)

-- `TensorType::get` counts the dimensions by an `int`.
unfoldable pub tensor_type : ℕ → ℕ → Cmd ℕ
tensor_type element_type num_dimensions = do
  lift (require (ltb num_dimensions (2 ^ 31)))
  types (Types.get_tensor_type element_type num_dimensions)

unfoldable pub assoc_array_type : ℕ → ℕ → Cmd ℕ
assoc_array_type key_type value_type = types (Types.get_assoc_array_type key_type value_type)

unfoldable pub sequence_type : ℕ → Cmd ℕ
sequence_type element_type = types (Types.get_sequence_type element_type)

-- HANDLE_INTEGER_TYPE
unfoldable pub integer_type : IntegerKind → Cmd ℕ
integer_type k = types (Types.get_integer_type (bitwidth k) (is_signed k))

-- HANDLE_PRIMITIVE_TYPE
unfoldable pub f32_type : Cmd ℕ
f32_type = types Types.get_float_type

unfoldable pub f64_type : Cmd ℕ
f64_type = types Types.get_double_type

unfoldable pub ptr_type : Cmd ℕ
ptr_type = types Types.get_pointer_type

unfoldable pub ref_type : ℕ → Cmd ℕ
ref_type referenced_type r =
    (lift (Types.get_reference_type referenced_type r.registry) >>= λ made s.
    ok (made.0, record s { registry = made.1 }))
      r
