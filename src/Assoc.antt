-- ===== src/Assoc.antt =====
-- `AssocArray` of runtime/include/objects.h and runtime/src/detail/collections.cpp. Arguments come
-- through a `va_list`, which reads each at a type; the float conversions are a parameter.
pub mod Laws
pub mod Insert
pub mod Keys
use memoir_cs397_atc.Prelude.{
  ℕ, zero, suc, ◌+◌, Bool, true, false, Option, none, some, List, [], ◌∷◌, if◌then◌else◌, ◌==◌, ltb,
  leb, length, is_some, nat_eq,
}
use memoir_cs397_atc.Words.{widen_int}
use memoir_cs397_atc.Std.Map.{find, assign, erase}
use memoir_cs397_atc.Result.{Result, ok, undefined, deref}
use memoir_cs397_atc.Types.{
  TypeInfo, struct_type, tensor_type, assoc_array_type, sequence_type, integer_type, float_type,
  double_type, pointer_type, reference_type, get_sequence_type,
}
use memoir_cs397_atc.Objects.{
  Object, assoc_array_object, sequence_alloc, Cmd, pure, ◌>>=◌, ◌>>◌, lift, load, store, new_object,
  type_info, types,
}
use memoir_cs397_atc.Init.{init_element}

-- An argument behind the `...`: the bits of an `int` or an `unsigned`, of a 64-bit integer, of a
-- `double`, or an address.
pub data Argument : Type 0 where
  word32 word64 double pointer : ℕ → Argument

-- The conversions of the bits of a `double` to `uint64_t`, directly and through `float`.
pub record Floats : Type 0 where
  pub truncate : ℕ → ℕ
  pub truncate_float : ℕ → ℕ

abbrev pub pointer_argument : Argument → Result ℕ
pointer_argument (pointer p) = ok p
pointer_argument a = undefined

abbrev pub word32_argument : Argument → Result ℕ
word32_argument (word32 n) = ok n
word32_argument a = undefined

abbrev pub word64_argument : Argument → Result ℕ
word64_argument (word64 n) = ok n
word64_argument a = undefined

abbrev pub double_argument : Argument → Result ℕ
double_argument (double n) = ok n
double_argument a = undefined

abbrev pub map_result : (ℕ → ℕ) → Result ℕ → Result ℕ
map_result f (ok n) = ok (f n)
map_result f m = m

-- An integer key: an `int` is extended by its sign, whether or not the type is signed; at 32 bits the
-- two arms of `?:` meet at `unsigned`; above 64 bits the key is not initialised.
integer_key : ℕ → Argument → Result ℕ
integer_key bitwidth a =
    if ltb bitwidth 32
    then map_result widen_int (word32_argument a)
    else if leb bitwidth 32
    then word32_argument a
    else if leb bitwidth 64
    then word64_argument a
    else undefined

-- The switch over the key type, the same in the four methods.
unfoldable pub key_of : Floats → TypeInfo → Argument → Result ℕ
unfolding integer_key
key_of floats (integer_type bitwidth is_signed) a = integer_key bitwidth a
key_of floats float_type a = map_result floats.truncate_float (double_argument a)
key_of floats double_type a = map_result floats.truncate (double_argument a)
key_of floats other a = pointer_argument a

abbrev pub as_assoc : Object → Option (ℕ × List (ℕ × ℕ))
as_assoc (assoc_array_object t m) = some (t, m)
as_assoc o = none

abbrev pub as_assoc_type : TypeInfo → Option (ℕ × ℕ)
as_assoc_type (assoc_array_type k v) = some (k, v)
as_assoc_type u = none

-- `*this`: its type and `assoc_array`.
unfoldable pub load_assoc : ℕ → Cmd (ℕ × List (ℕ × ℕ))
load_assoc p = do o ← load p; lift (deref (as_assoc o))

-- `get_key_type` and `get_value_type`
unfoldable pub get_key_type : ℕ → Cmd ℕ
get_key_type p = do
  this ← load_assoc p
  info ← type_info this.0
  kv ← lift (deref (as_assoc_type info))
  pure kv.0

unfoldable pub get_value_type : ℕ → Cmd ℕ
get_value_type p = do
  this ← load_assoc p
  info ← type_info this.0
  kv ← lift (deref (as_assoc_type info))
  pure kv.1

unfoldable pub read_key : Floats → ℕ → Argument → Cmd ℕ
read_key floats p a = do t ← get_key_type p; info ← type_info t; lift (key_of floats info a)

-- The value found for the key. A missing key is added with the initial value of its type.
unfoldable pub found_or_new : ℕ → ℕ → ℕ → Option ℕ → Cmd ℕ
found_or_new fuel p key (some value) = pure value
found_or_new fuel p key none = do
  value_type ← get_value_type p
  new_elem ← init_element fuel value_type
  now ← load_assoc p
  store p (assoc_array_object now.0 (assign key new_elem now.1))
  pure new_elem

unfoldable pub get_element : Floats → ℕ → ℕ → Argument → Cmd ℕ
get_element floats fuel p a = do
  key ← read_key floats p a
  this ← load_assoc p
  found_or_new fuel p key (find key this.1)

unfoldable pub set_element : Floats → ℕ → ℕ → Argument → Cmd (Unit {0})
set_element floats value p a = do
  key ← read_key floats p a
  this ← load_assoc p
  store p (assoc_array_object this.0 (assign key value this.1))

unfoldable pub has_element : Floats → ℕ → Argument → Cmd Bool
has_element floats p a = do
  key ← read_key floats p a
  this ← load_assoc p
  pure (is_some (find key this.1))

abbrev pub is_integer : TypeInfo → Bool
is_integer (integer_type w s) = true
is_integer u = false

-- Only the case of integer keys goes on to erase.
unfoldable pub remove_element : Floats → ℕ → Argument → Cmd (Unit {0})
remove_element floats p a = do
  t ← get_key_type p
  info ← type_info t
  key ← lift (key_of floats info a)
  this ← load_assoc p
  if is_integer info then store p (assoc_array_object this.0 (erase key this.1)) else pure tt

unfoldable pub assoc_size : ℕ → Cmd ℕ
assoc_size p = do this ← load_assoc p; pure (length this.1)

unfoldable pub key_list : List (ℕ × ℕ) → List ℕ
key_list [] = []
key_list ((k, v) ∷ m) = k ∷ key_list m

unfoldable pub keys : ℕ → Cmd ℕ
keys p = do
  this ← load_assoc p
  key_type ← get_key_type p
  type ← types (get_sequence_type key_type)
  new_object (sequence_alloc type (key_list this.1))
