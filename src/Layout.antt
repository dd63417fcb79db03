-- ===== src/Layout.antt =====
-- compiler/memoir/lowering/TypeLayout.hpp: the layout of a type of the compiler as a type of LLVM. The
-- types are those of Ir, at their places. What LLVM makes of a type is a name for the call that makes
-- it; the bodies of the structs that it created are kept with the layouts found so far.
pub mod Size
pub mod Placed
pub mod Fields
pub mod Apart
pub mod Structs
pub mod Recursive
use Prim.Native.Nat.{bit_or}
use memoir_cs397_atc.Prelude.{
  ℕ, zero, suc, ◌+◌, ◌-◌, ◌*◌, ◌/◌, ◌^◌, ◌%◌, Bool, true, false, not, ◌&&◌, ◌||◌, Option, none,
  some, List, [], ◌∷◌, ◌++◌, if◌then◌else◌, ◌==◌, ltb, length, get_elem?, set, replicate, nat_eq,
  is_some,
}
use memoir_cs397_atc.Std.Map.{find, assign}
use memoir_cs397_atc.Words.{int_mod}
use memoir_cs397_atc.Result.{Result, ok, assert_failed, out_of_fuel, deref, assert, ◌>>=◌, ◌>>◌}
use memoir_cs397_atc.Ir.{
  TypeInfo, integer_type, float_type, double_type, pointer_type, reference_type, struct_type,
  field_array_type, static_tensor_type, tensor_type, assoc_array_type, sequence_type, Registry,
}

pub data LlvmType : Type 0 where
  int : (width : ℕ) → LlvmType
  float double : LlvmType
  pointer : (pointee : LlvmType) → LlvmType
  array : (element : LlvmType) (count : ℕ) → LlvmType
  struct : (place : ℕ) → LlvmType

pub record TypeLayout : Type 0 where
  pub memoir_type : ℕ
  pub llvm_type : LlvmType
  pub field_offsets : List ℕ
  pub bit_field_ranges : List (ℕ × (ℕ × ℕ))

-- The constructor with no offsets and ranges.
unfoldable pub plain_layout : ℕ → LlvmType → TypeLayout
plain_layout t llvm_type = record {
  memoir_type = t;
  llvm_type = llvm_type;
  field_offsets = [];
  bit_field_ranges = [];
}

pub has_fields : TypeLayout → Bool
has_fields l = not (length l.field_offsets == 0)

pub get_field_offset : TypeLayout → ℕ → Result ℕ
get_field_offset l field_index = do
  assert (ltb field_index (length l.field_offsets))
  deref (get_elem? l.field_offsets field_index)

unfoldable pub is_bit_field : TypeLayout → ℕ → Bool
is_bit_field l field_index = is_some (find field_index l.bit_field_ranges)

unfoldable pub get_bit_field_range : TypeLayout → ℕ → Option (ℕ × ℕ)
get_bit_field_range l field_index = find field_index l.bit_field_ranges

unfoldable pub is_size : ℕ → Bool
is_size n = (n == 8) || (n == 16) || (n == 32) || (n == 64) || (n == 128)

-- `m |= m >> k`
smear : ℕ → ℕ → ℕ
smear k m = bit_or m (m / 2 ^ k)

unfoldable pub get_next_size : ℕ → ℕ
unfolding smear
get_next_size n =
    if ltb n 8 then 8 else ((smear 4 (smear 2 (smear 1 (n / 8 - 1))) + 1) * 8) % int_mod

-- `TypeConverter`: the layouts found so far, and the bodies of the structs that LLVM created.
pub record Converter : Type 0 where
  pub memoir_to_type_layout : List (ℕ × TypeLayout)
  pub structs : List (List LlvmType)

abbrev pub Conversion : Type 0
Conversion = Converter → Result (TypeLayout × Converter)

-- CHECK_MEMOIZED
unfoldable pub check_memoized : ℕ → Conversion → Conversion
check_memoized t convert c = elim (find t c.memoir_to_type_layout) [
  | some found ↦ ok (found, c)
  | none ↦ convert c
]

-- MEMOIZE_AND_RETURN
unfoldable pub memoize : ℕ → TypeLayout → Conversion
memoize t layout c =
    ok (layout, record c { memoir_to_type_layout = assign t layout c.memoir_to_type_layout })

-- The local variables of the loop over the fields of a struct.
pub record Packing : Type 0 where
  pub field_offsets : List ℕ
  pub llvm_field_types : List LlvmType
  pub bit_field_ranges : List (ℕ × (ℕ × ℕ))
  pub current_field_width : ℕ
  pub current_field_offset : ℕ

unfoldable pub start_packing : ℕ → Packing
start_packing num_fields = record {
  field_offsets = replicate num_fields 0;
  llvm_field_types = [];
  bit_field_ranges = [];
  current_field_width = 0;
  current_field_offset = 0;
}

-- The width of a field that needs a bit field.
unfoldable pub bit_field_width : TypeLayout → Option ℕ
unfolding get_bit_field_range
bit_field_width l = elim l.llvm_type [
  | int width ↦ elim (get_bit_field_range l 0) [ some (from, to) ↦ some to | none ↦ none ]
  | _ ↦ none
]

-- Whether a bit field is open or the field is one, the previous bit field is committed.
unfoldable pub commit : Packing → Packing
commit p = if p.current_field_width == 0 then p else record p {
  llvm_field_types = p.llvm_field_types ++ int p.current_field_width ∷ [];
  current_field_width = 0;
  current_field_offset = p.current_field_offset + 1;
}

unfoldable pub record_offset : ℕ → Packing → Packing
record_offset field_index p = record p {
  field_offsets = set p.field_offsets field_index p.current_field_offset;
}

-- The end of the body of the loop.
unfoldable pub append_field : LlvmType → Packing → Packing
append_field llvm_field_type p = record p {
  llvm_field_types = p.llvm_field_types ++ llvm_field_type ∷ [];
  current_field_width = 0;
  current_field_offset = p.current_field_offset + 1;
}

unfoldable pub widen : ℕ → ℕ → Packing → Packing
widen field_index width p = record p {
  current_field_width = (p.current_field_width + width) % int_mod;
  bit_field_ranges =
      assign field_index (p.current_field_width, (p.current_field_width + width) % int_mod)
        p.bit_field_ranges;
}

-- A bit field after its offset: with a size filled the integer is appended, and then the field.
unfoldable pub close_bit_field : LlvmType → Packing → Packing
close_bit_field llvm_field_type p =
    if is_size p.current_field_width
    then append_field llvm_field_type
        (record p { llvm_field_types = p.llvm_field_types ++ int p.current_field_width ∷ [] })
    else p

-- The body of the loop, after the field's type has its layout.
unfoldable pub place_field : ℕ → TypeLayout → Packing → Packing
place_field field_index l p = elim (bit_field_width l) [
  | some width ↦ close_bit_field l.llvm_type (record_offset field_index (widen field_index width p))
  | none ↦ append_field l.llvm_type (record_offset field_index (commit p))
]

-- The last bit field after the loop.
unfoldable pub finish_packing : Packing → List LlvmType
unfolding get_next_size
finish_packing p =
    if p.current_field_width == 0
    then p.llvm_field_types
    else p.llvm_field_types ++ int (get_next_size p.current_field_width) ∷ []

unfoldable pub visit_integer_type : ℕ → ℕ → Conversion
unfolding check_memoized memoize plain_layout get_next_size
visit_integer_type t bitwidth = check_memoized t (
    memoize t (
      if bitwidth == get_next_size bitwidth
      then plain_layout t (int bitwidth)
      else record (plain_layout t (int bitwidth)) { bit_field_ranges = (0, (0, bitwidth)) ∷ [] }))

-- `visitFloatType`, `visitDoubleType` and `visitPointerType`: the layout is that of a fixed type.
unfoldable pub visit_fixed_type : ℕ → LlvmType → Conversion
unfolding check_memoized memoize plain_layout
visit_fixed_type t llvm_type = check_memoized t (memoize t (plain_layout t llvm_type))

-- In the visits below `visit` is the conversion of the types within.
unfoldable pub visit_reference_type : (ℕ → Conversion) → ℕ → ℕ → Conversion
unfolding check_memoized memoize plain_layout
visit_reference_type visit t referenced_type = check_memoized t λ c. do
  (referenced, c') ← visit referenced_type c
  memoize t (plain_layout t (pointer referenced.llvm_type)) c'

unfoldable pub visit_static_tensor_type : (ℕ → Conversion) → ℕ → ℕ → ℕ → List ℕ → Conversion
unfolding check_memoized memoize plain_layout
visit_static_tensor_type visit t element_type number_of_dimensions lengths = check_memoized t λ c.
    do
      (element, c') ← visit element_type c
      assert (number_of_dimensions == 1)
      num_elements ← deref (get_elem? lengths 0)
      memoize t (plain_layout t (array element.llvm_type num_elements)) c'

-- The loop over the fields.
unfoldable pub visit_fields :
    (ℕ → Conversion) → List ℕ → ℕ → Packing → Converter → Result (Packing × Converter)
unfolding place_field
visit_fields visit [] field_index p c = ok (p, c)
visit_fields visit (field_type ∷ rest) field_index p c = do
  (layout, c') ← visit field_type c
  visit_fields visit rest (suc field_index) (place_field field_index layout p) c'

-- `StructType::create` makes a new type.
unfoldable pub create_struct : ℕ → Packing → Conversion
unfolding memoize finish_packing
create_struct t p c =
    memoize t
      (record {
        memoir_type = t;
        llvm_type = struct (length c.structs);
        field_offsets = p.field_offsets;
        bit_field_ranges = p.bit_field_ranges;
      })
      (record c { structs = c.structs ++ finish_packing p ∷ [] })

unfoldable pub visit_struct_type : (ℕ → Conversion) → ℕ → List ℕ → Conversion
unfolding check_memoized visit_fields start_packing create_struct
visit_struct_type visit t field_types = check_memoized t λ c. do
  (p, c') ← visit_fields visit field_types 0 (start_packing (length field_types)) c
  create_struct t p c'

-- `TypeVisitor::visit`. MEMOIR_UNREACHABLE ends as a failed assertion does.
unfoldable pub visit_type : (ℕ → Conversion) → ℕ → TypeInfo → Conversion
unfolding visit_integer_type visit_fixed_type visit_reference_type visit_static_tensor_type
    visit_struct_type
visit_type visit t (integer_type bitwidth is_signed) = visit_integer_type t bitwidth
visit_type visit t float_type = visit_fixed_type t float
visit_type visit t double_type = visit_fixed_type t double
visit_type visit t pointer_type = visit_fixed_type t (pointer (int 8))
visit_type visit t (reference_type referenced) = visit_reference_type visit t referenced
visit_type visit t (struct_type definition name field_types) = visit_struct_type visit t field_types
visit_type visit t (field_array_type s i) = λ c. assert_failed
visit_type visit t (static_tensor_type e n ls) = visit_static_tensor_type visit t e n ls
visit_type visit t (tensor_type e n) = λ c. assert_failed
visit_type visit t (assoc_array_type k v) = λ c. assert_failed
visit_type visit t (sequence_type e) = λ c. assert_failed

-- `TypeConverter::convert`, with fuel for the depth of the recursion.
unfoldable pub convert : ℕ → Registry → ℕ → Conversion
unfolding visit_type
convert zero r t c = out_of_fuel
convert (suc fuel) r t c = do
  info ← deref (get_elem? r.types t)
  visit_type (convert fuel r) t info c
