-- ===== src/Types.antt =====
-- runtime/include/types.h and runtime/src/detail/types.cpp: the types of the runtime, the tables
-- that make them unique, and their equality. A `Type *` is a number, with 0 for NULL; a type name,
-- a `const char *`, is a number too, since the tables compare the pointers.
pub mod Calls
pub mod Unique
pub mod WellFormed
pub mod Kept
pub mod Equals
use memoir_cs397_atc.Prelude.{
  ℕ, zero, suc, ◌+◌, ◌≡◌, refl, Bool, true, false, ◌&&◌, not, Option, none, some, List, [], ◌∷◌,
  if◌then◌else◌, ◌==◌, replicate, Eq, bool_eq, nat_eq,
}
use memoir_cs397_atc.Std.Map.{find, assign}
use memoir_cs397_atc.Result.{Result, ok, assert_failed, thrown, undefined, out_of_fuel}

pub data TypeCode : Type 0 where
  struct_ty tensor_ty assoc_array_ty sequence_ty integer_ty float_ty double_ty : TypeCode
  pointer_ty reference_ty none_ty : TypeCode

-- The subclasses of `Type`, each with its fields.
pub data TypeInfo : Type 0 where
  struct_type : (name : ℕ) (fields : List ℕ) → TypeInfo
  tensor_type :
      (element_type num_dimensions : ℕ) (is_static_length : Bool) (length_of_dimensions : List ℕ)
      → TypeInfo
  assoc_array_type : (key_type value_type : ℕ) → TypeInfo
  sequence_type : (element_type : ℕ) → TypeInfo
  integer_type : (bitwidth : ℕ) (is_signed : Bool) → TypeInfo
  float_type double_type pointer_type : TypeInfo
  reference_type : (referenced_type : ℕ) → TypeInfo

unfoldable pub get_code : TypeInfo → TypeCode
get_code (struct_type name fields) = struct_ty
get_code (tensor_type e n s ls) = tensor_ty
get_code (assoc_array_type k v) = assoc_array_ty
get_code (sequence_type e) = sequence_ty
get_code (integer_type w s) = integer_ty
get_code float_type = float_ty
get_code double_type = double_ty
get_code pointer_type = pointer_ty
get_code (reference_type t) = reference_ty

unfoldable pub is_object_type : TypeCode → Bool
is_object_type struct_ty = true
is_object_type tensor_ty = true
is_object_type assoc_array_ty = true
is_object_type sequence_ty = true
is_object_type _ = false

unfoldable pub is_struct_type : TypeCode → Bool
is_struct_type struct_ty = true
is_struct_type _ = false

unfoldable pub is_collection_type : TypeCode → Bool
is_collection_type tensor_ty = true
is_collection_type assoc_array_ty = true
is_collection_type sequence_ty = true
is_collection_type _ = false

unfoldable pub is_intrinsic_type : TypeCode → Bool
is_intrinsic_type integer_ty = true
is_intrinsic_type float_ty = true
is_intrinsic_type double_ty = true
is_intrinsic_type reference_ty = true
is_intrinsic_type _ = false

abbrev pub unknown_length : ℕ
unknown_length = 0

-- The types allocated so far, and the static tables of `types.cpp`.
pub record Registry : Type 0 where
  pub info : ℕ → Option TypeInfo
  pub next : ℕ
  pub struct_types : List (ℕ × ℕ)
  pub tensor_types : List (ℕ × ℕ × ℕ)
  pub static_tensor_types : List (ℕ × ℕ × List ℕ × ℕ)
  pub sequence_types : List (ℕ × ℕ)
  pub integer_types : List (ℕ × List (Bool × ℕ))

abbrev pub float_address : ℕ
float_address = 1

abbrev pub double_address : ℕ
double_address = 2

abbrev pub pointer_address : ℕ
pointer_address = 3

abbrev pub update {ℓ} : {A : Type ℓ} → (ℕ → Option A) → ℕ → A → ℕ → Option A
update f a v b = if b == a then some v else f b

no_info : ℕ → Option TypeInfo
no_info a = none

-- Before the first call: the three `static` type objects, and empty tables.
unfoldable pub initial : Registry
unfolding no_info
initial = record {
  info =
      update (update (update no_info float_address float_type) double_address double_type)
        pointer_address pointer_type;
  next = 4;
  struct_types = [];
  tensor_types = [];
  static_tensor_types = [];
  sequence_types = [];
  integer_types = [];
}

abbrev pub new_type : TypeInfo → Registry → ℕ × Registry
new_type t r = (r.next, record r { info = update r.info r.next t; next = suc r.next })

unfoldable pub get_struct_type : ℕ → Registry → ℕ × Registry
get_struct_type name r = elim (find name r.struct_types) [
  | some t ↦ (t, r)
  | none ↦
      let (t, r') = new_type (struct_type name []) r in
      (t, record r' { struct_types = assign name t r'.struct_types })
]

-- `struct_type->fields = field_types`
unfoldable pub set_fields : ℕ → ℕ → List ℕ → Registry → Registry
set_fields t name fields r = record r { info = update r.info t (struct_type name fields) }

unfoldable pub define_struct_type : ℕ → List ℕ → Registry → ℕ × Registry
define_struct_type name fields r =
    let (t, r') = get_struct_type name r in (t, set_fields t name fields r')

-- The search of a list of tuples from the front.
unfoldable pub find_tensor : ℕ → ℕ → List (ℕ × ℕ × ℕ) → Option ℕ
find_tensor e n [] = none
find_tensor e n ((e', n', t) ∷ l) = if (e' == e) && (n' == n) then some t else find_tensor e n l

unfoldable pub lengths_beq : List ℕ → List ℕ → Bool
lengths_beq [] [] = true
lengths_beq (x ∷ xs) (y ∷ ys) = (x == y) && lengths_beq xs ys
lengths_beq _ _ = false

unfoldable pub find_static_tensor : ℕ → ℕ → List ℕ → List (ℕ × ℕ × List ℕ × ℕ) → Option ℕ
unfolding lengths_beq
find_static_tensor e n ls [] = none
find_static_tensor e n ls ((e', n', ls', t) ∷ l) =
    if (e' == e) && (n' == n) && lengths_beq ls' ls then some t else find_static_tensor e n ls l

-- Whether no dimension is unknown.
unfoldable pub all_known : List ℕ → Bool
all_known [] = true
all_known (n ∷ ns) = if n == unknown_length then false else all_known ns

-- The constructor of `TensorType` with lengths.
unfoldable pub make_tensor_type : ℕ → ℕ → List ℕ → TypeInfo
unfolding all_known
make_tensor_type e n ls = tensor_type e n (all_known ls) ls

-- The `int` that counts the dimensions does not overflow below 2^31, which the callers require.
unfoldable pub get_tensor_type : ℕ → ℕ → Registry → ℕ × Registry
unfolding find_tensor make_tensor_type
get_tensor_type e n r = elim (find_tensor e n r.tensor_types) [
  | some t ↦ (t, r)
  | none ↦
      let (t, r') = new_type (make_tensor_type e n (replicate n unknown_length)) r in
      (t, record r' { tensor_types = (e, n, t) ∷ r'.tensor_types })
]

unfoldable pub get_static_tensor_type : ℕ → ℕ → List ℕ → Registry → ℕ × Registry
unfolding find_static_tensor make_tensor_type
get_static_tensor_type e n ls r = elim (find_static_tensor e n ls r.static_tensor_types) [
  | some t ↦ (t, r)
  | none ↦
      let (t, r') = new_type (make_tensor_type e n ls) r in
      (t, record r' { static_tensor_types = (e, n, ls, t) ∷ r'.static_tensor_types })
]

unfoldable pub get_assoc_array_type : ℕ → ℕ → Registry → ℕ × Registry
get_assoc_array_type k v r = new_type (assoc_array_type k v) r

unfoldable pub get_sequence_type : ℕ → Registry → ℕ × Registry
get_sequence_type e r = elim (find e r.sequence_types) [
  | some t ↦ (t, r)
  | none ↦
      let (t, r') = new_type (sequence_type e) r in
      (t, record r' { sequence_types = assign e t r'.sequence_types })
]

-- The inner table of a width, empty if there is none yet.
unfoldable pub widths : ℕ → List (ℕ × List (Bool × ℕ)) → List (Bool × ℕ)
widths w m = elim (find w m) [ none ↦ [] | some inner ↦ inner ]

unfoldable pub find_integer : ℕ → Bool → List (ℕ × List (Bool × ℕ)) → Option ℕ
unfolding widths
find_integer w s m = find s (widths w m)

unfoldable pub get_integer_type : ℕ → Bool → Registry → ℕ × Registry
unfolding find_integer
get_integer_type w s r = elim (find_integer w s r.integer_types) [
  | some t ↦ (t, r)
  | none ↦
      let (t, r') = new_type (integer_type w s) r in
      (
        t,
        record r' {
          integer_types = assign w (assign s t (widths w r'.integer_types)) r'.integer_types;
        },
      )
]

unfoldable pub get_float_type : Registry → ℕ × Registry
get_float_type r = (float_address, r)

unfoldable pub get_double_type : Registry → ℕ × Registry
get_double_type r = (double_address, r)

unfoldable pub get_pointer_type : Registry → ℕ × Registry
get_pointer_type r = (pointer_address, r)

-- The constructor of `ReferenceType` asserts that it refers to an object type.
unfoldable pub get_reference_type : ℕ → Registry → Result (ℕ × Registry)
get_reference_type t r = elim (r.info t) [
  | none ↦ undefined
  | some referenced ↦
      if is_object_type (get_code referenced)
      then ok (new_type (reference_type t) r)
      else assert_failed
]

-- The registry behind a call that may fail.
abbrev pub after : Registry → Result (ℕ × Registry) → Registry
after r (ok (t, r')) = r'
after r failed = r
