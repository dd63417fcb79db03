-- ===== src/Ir.antt =====
-- compiler/memoir/ir/Types.hpp and compiler/memoir/ir/src/Types.cpp: the types of the compiler. A
-- `Type &` is the place of the type among those made so far. The `static` maps and variables that make
-- types unique are one association list, whose keys begin with the TypeCode of the class and go on
-- with the arguments. Names and the instructions that define structs are numbers.
pub mod Unique
pub mod Statics
pub mod Again
use memoir_cs397_atc.Prelude.{
  ℕ, zero, suc, ◌+◌, ◌≡◌, ◌↔◌, refl, Bool, true, false, ◌&&◌, Option, none, some, List, [], ◌∷◌,
  ◌++◌, if◌then◌else◌, ◌==◌, ltb, length, get_elem?, Eq, arith, ap,
}
use memoir_cs397_atc.Std.Map.{find, assign}
use memoir_cs397_atc.Result.{Result, ok, assert_failed, undefined, deref, ◌>>=◌, ◌>>◌}

pub data TypeCode : Type 0 where
  integer_code float_code double_code pointer_code reference_code struct_code : TypeCode
  field_array_code static_tensor_code tensor_code assoc_array_code sequence_code : TypeCode

-- The subclasses of `Type`, each with its fields.
pub data TypeInfo : Type 0 where
  integer_type : (bitwidth : ℕ) (is_signed : Bool) → TypeInfo
  float_type double_type pointer_type : TypeInfo
  reference_type : (referenced_type : ℕ) → TypeInfo
  struct_type : (definition name : ℕ) (field_types : List ℕ) → TypeInfo
  field_array_type : (struct_type field_index : ℕ) → TypeInfo
  static_tensor_type :
      (element_type number_of_dimensions : ℕ) (length_of_dimensions : List ℕ) → TypeInfo
  tensor_type : (element_type number_of_dimensions : ℕ) → TypeInfo
  assoc_array_type : (key_type value_type : ℕ) → TypeInfo
  sequence_type : (element_type : ℕ) → TypeInfo

unfoldable pub get_code : TypeInfo → TypeCode
get_code (integer_type w s) = integer_code
get_code float_type = float_code
get_code double_type = double_code
get_code pointer_type = pointer_code
get_code (reference_type t) = reference_code
get_code (struct_type d n ts) = struct_code
get_code (field_array_type s i) = field_array_code
get_code (static_tensor_type e n ls) = static_tensor_code
get_code (tensor_type e n) = tensor_code
get_code (assoc_array_type k v) = assoc_array_code
get_code (sequence_type e) = sequence_code

unfoldable pub is_primitive_type : TypeCode → Bool
is_primitive_type integer_code = true
is_primitive_type float_code = true
is_primitive_type double_code = true
is_primitive_type pointer_code = true
is_primitive_type _ = false

unfoldable pub is_reference_type : TypeCode → Bool
is_reference_type reference_code = true
is_reference_type _ = false

unfoldable pub is_struct_type : TypeCode → Bool
is_struct_type struct_code = true
is_struct_type _ = false

unfoldable pub is_collection_type : TypeCode → Bool
is_collection_type static_tensor_code = true
is_collection_type tensor_code = true
is_collection_type assoc_array_code = true
is_collection_type sequence_code = true
is_collection_type _ = false

-- `CollectionType::classof`
unfoldable pub is_collection_class : TypeCode → Bool
is_collection_class field_array_code = true
is_collection_class static_tensor_code = true
is_collection_class tensor_code = true
is_collection_class sequence_code = true
is_collection_class assoc_array_code = true
is_collection_class _ = false

abbrev pub list_beq : List ℕ → List ℕ → Bool
list_beq [] [] = true
list_beq [] (y ∷ ys) = false
list_beq (x ∷ xs) [] = false
list_beq (x ∷ xs) (y ∷ ys) = (x == y) && list_beq xs ys

pub list_beq_iff : (xs ys : List ℕ) → (list_beq xs ys ≡ true) ↔ (xs ≡ ys)
list_beq_iff [] [] = ground arith
list_beq_iff [] (y ∷ ys) = ground arith
list_beq_iff (x ∷ xs) [] = ground arith
list_beq_iff (x ∷ xs) (y ∷ ys) = ground (arith, list_beq_iff xs ys)

instance abbrev pub list_eq : Eq (List ℕ)
list_eq = record { beq = list_beq; beq_iff = list_beq_iff }

-- The value of the enumeration and the arguments by which the type is found, for static tensors its
-- own lengths.
unfoldable pub key_of : TypeInfo → List ℕ
key_of (integer_type w s) = 0 ∷ w ∷ (if s then 1 else 0) ∷ []
key_of float_type = 1 ∷ []
key_of double_type = 2 ∷ []
key_of pointer_type = 3 ∷ []
key_of (reference_type t) = 4 ∷ t ∷ []
key_of (struct_type definition name ts) = 5 ∷ name ∷ []
key_of (field_array_type s i) = 6 ∷ s ∷ i ∷ []
key_of (static_tensor_type e n ls) = 7 ∷ e ∷ n ∷ ls
key_of (tensor_type e n) = 8 ∷ e ∷ n ∷ []
key_of (assoc_array_type k v) = 9 ∷ k ∷ v ∷ []
key_of (sequence_type e) = 10 ∷ e ∷ []

pub record Registry : Type 0 where
  pub types : List TypeInfo
  pub table : List (List ℕ × ℕ)
  -- `ordered_multimap`: the entries of one key are in the order of insertion.
  pub static_tensor_types : List (ℕ × ℕ)
  -- Whether `StructType::defined_types` is not NULL.
  pub has_defined_types : Bool

unfoldable pub initial : Registry
initial = record { types = []; table = []; static_tensor_types = []; has_defined_types = false }

-- The type of the key if there is one, and else a new one.
unfoldable pub intern : TypeInfo → Registry → ℕ × Registry
intern d r = elim (find (key_of d) r.table) [
  | some t ↦ (t, r)
  | none ↦ (
    length r.types,
    record r { types = r.types ++ (d ∷ []); table = assign (key_of d) (length r.types) r.table },
  )
]

unfoldable pub get_integer_type : ℕ → Bool → Registry → ℕ × Registry
get_integer_type bitwidth is_signed = intern (integer_type bitwidth is_signed)

unfoldable pub get_u64_type : Registry → ℕ × Registry
get_u64_type = get_integer_type 64 false

unfoldable pub get_u32_type : Registry → ℕ × Registry
get_u32_type = get_integer_type 32 false

unfoldable pub get_u16_type : Registry → ℕ × Registry
get_u16_type = get_integer_type 16 false

unfoldable pub get_u8_type : Registry → ℕ × Registry
get_u8_type = get_integer_type 8 false

unfoldable pub get_u2_type : Registry → ℕ × Registry
get_u2_type = get_integer_type 2 false

unfoldable pub get_i64_type : Registry → ℕ × Registry
get_i64_type = get_integer_type 64 true

unfoldable pub get_i32_type : Registry → ℕ × Registry
get_i32_type = get_integer_type 32 true

unfoldable pub get_i16_type : Registry → ℕ × Registry
get_i16_type = get_integer_type 16 true

unfoldable pub get_i8_type : Registry → ℕ × Registry
get_i8_type = get_integer_type 8 true

unfoldable pub get_i2_type : Registry → ℕ × Registry
get_i2_type = get_integer_type 2 true

unfoldable pub get_bool_type : Registry → ℕ × Registry
get_bool_type = get_integer_type 1 false

unfoldable pub get_double_type : Registry → ℕ × Registry
get_double_type = intern double_type

unfoldable pub get_float_type : Registry → ℕ × Registry
get_float_type = intern float_type

unfoldable pub get_pointer_type : Registry → ℕ × Registry
get_pointer_type = intern pointer_type

unfoldable pub get_reference_type : ℕ → Registry → ℕ × Registry
get_reference_type referenced_type = intern (reference_type referenced_type)

unfoldable pub define_struct_type : ℕ → ℕ → List ℕ → Registry → ℕ × Registry
define_struct_type definition name field_types r =
    intern (struct_type definition name field_types) (record r { has_defined_types = true })

-- The table is not checked for NULL; MEMOIR_UNREACHABLE ends as a failed assertion does.
unfoldable pub get_struct_type : ℕ → Registry → Result ℕ
get_struct_type name r =
    if r.has_defined_types
    then (elim (find (5 ∷ name ∷ []) r.table) [ some t ↦ ok t | none ↦ assert_failed ])
    else undefined

unfoldable pub get_field_array_type : ℕ → ℕ → Registry → ℕ × Registry
get_field_array_type struct field_index = intern (field_array_type struct field_index)

unfoldable pub get_tensor_type : ℕ → ℕ → Registry → ℕ × Registry
get_tensor_type element_type num_dimensions = intern (tensor_type element_type num_dimensions)

unfoldable pub get_assoc_array_type : ℕ → ℕ → Registry → ℕ × Registry
get_assoc_array_type key_type value_type = intern (assoc_array_type key_type value_type)

unfoldable pub get_sequence_type : ℕ → Registry → ℕ × Registry
get_sequence_type element_type = intern (sequence_type element_type)

-- `StaticTensorType::getNumberOfDimensions`
unfoldable pub static_dimensions : TypeInfo → Result ℕ
static_dimensions (static_tensor_type e n ls) = ok n
static_dimensions _ = undefined

-- `StaticTensorType::getLengthOfDimension`; `at` throws outside the vector.
unfoldable pub get_length_of_dimension : TypeInfo → ℕ → Result ℕ
get_length_of_dimension (static_tensor_type e n ls) dimension_index =
    if ltb dimension_index n
    then (elim (get_elem? ls dimension_index) [ some l ↦ ok l | none ↦ Result.thrown ])
    else assert_failed
get_length_of_dimension _ dimension_index = undefined

-- The loop over the lengths. Its `continue` goes on with this loop.
unfoldable pub compare_lengths : TypeInfo → List ℕ → ℕ → Result (Unit {0})
unfolding get_length_of_dimension
compare_lengths existing_type [] dim_index = ok tt
compare_lengths existing_type (size ∷ sizes) dim_index =
    let next = compare_lengths existing_type sizes (dim_index + 1) in
    do l ← get_length_of_dimension existing_type dim_index; if l == size then next else next

-- The loop over the types of the element.
unfoldable pub find_static_tensor : ℕ → List ℕ → List TypeInfo → List (ℕ × ℕ) → Result (Option ℕ)
find_static_tensor element_type dimension_sizes types [] = ok none
find_static_tensor element_type dimension_sizes types ((e, t) ∷ existing_types) =
    let rest = find_static_tensor element_type dimension_sizes types existing_types in
    if e == element_type
    then (do
      existing_type ← deref (get_elem? types t)
      n ← static_dimensions existing_type
      if n == length dimension_sizes
          then (do compare_lengths existing_type dimension_sizes 0; ok (some t))
          else rest)
    else rest

unfoldable pub get_static_tensor_type : ℕ → List ℕ → Registry → Result (ℕ × Registry)
get_static_tensor_type element_type dimension_sizes r = do
  found ← find_static_tensor element_type dimension_sizes r.types r.static_tensor_types
  elim found [
    | some t ↦ ok (t, r)
    | none ↦ ok (
      length r.types,
      record r {
        types =
            r.types
            ++ (static_tensor_type element_type (length dimension_sizes) dimension_sizes ∷ []);
        static_tensor_types = r.static_tensor_types ++ ((element_type, length r.types) ∷ []);
      },
    )
  ]

-- `StructType::getFieldType`
unfoldable pub get_field_type : TypeInfo → ℕ → Result ℕ
get_field_type (struct_type definition name field_types) field_index =
    if ltb field_index (length field_types)
    then deref (get_elem? field_types field_index)
    else assert_failed
get_field_type _ field_index = undefined

-- `getElementType`, virtual in `CollectionType`.
unfoldable pub get_element_type : TypeInfo → Registry → Result ℕ
unfolding get_field_type
get_element_type (field_array_type s i) r = do
  info ← deref (get_elem? r.types s)
  get_field_type info i
get_element_type (static_tensor_type e n ls) r = ok e
get_element_type (tensor_type e n) r = ok e
get_element_type (assoc_array_type k v) r = ok v
get_element_type (sequence_type e) r = ok e
get_element_type _ r = undefined
