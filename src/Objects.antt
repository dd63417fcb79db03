-- ===== src/Objects.antt =====
-- runtime/include/objects.h and runtime/src/detail/objects.cpp: the objects of the runtime, at
-- addresses. An `Object *` is a number, with 0 for NULL; the elements of a collection and the fields
-- of a struct are `uint64_t`, and an element that is an object is its address. The checks are the
-- macros of runtime/include/internal.h.
use memoir_cs397_atc.Prelude.{
  ℕ, suc, Bool, true, false, not, Option, none, List, if◌then◌else◌, ◌==◌,
}
use memoir_cs397_atc.Result.{
  Result, ok, assert_failed, thrown, undefined, out_of_fuel, assert, deref,
}
use memoir_cs397_atc.Types.{
  TypeCode, struct_ty, tensor_ty, assoc_array_ty, sequence_ty, integer_ty, float_ty, double_ty,
  pointer_ty, reference_ty, none_ty, TypeInfo, Registry, get_code, update, initial,
}

-- The subclasses of `Object`, each with its fields.
pub data Object : Type 0 where
  struct_object : (type : ℕ) (fields : List ℕ) → Object
  tensor_object : (type : ℕ) (tensor lengths : List ℕ) → Object
  assoc_array_object : (type : ℕ) (assoc_array : List (ℕ × ℕ)) → Object
  sequence_alloc : (type : ℕ) (sequence : List ℕ) → Object
  sequence_view : (type sequence from to : ℕ) → Object

-- `get_type`
unfoldable pub get_type : Object → ℕ
get_type (struct_object t fs) = t
get_type (tensor_object t xs ls) = t
get_type (assoc_array_object t m) = t
get_type (sequence_alloc t xs) = t
get_type (sequence_view t s i j) = t

unfoldable pub is_collection : Object → Bool
is_collection (struct_object t fs) = false
is_collection o = true

unfoldable pub is_struct : Object → Bool
is_struct (struct_object t fs) = true
is_struct o = false

unfoldable pub is_element : Object → Bool
is_element o = false

-- `equals` of every subclass: `this == other`.
unfoldable pub object_equals : ℕ → ℕ → Bool
object_equals this other = this == other

-- The types and the objects of a running program. An address is given to one object only.
pub record Runtime : Type 0 where
  pub registry : Registry
  pub objects : ℕ → Option Object
  pub next_object : ℕ

no_objects : ℕ → Option Object
no_objects p = none

unfoldable pub start : Runtime
unfolding no_objects initial
start = record { registry = initial; objects = no_objects; next_object = 1 }

abbrev pub Cmd : Type 0 → Type 0
Cmd A = Runtime → Result (A × Runtime)

abbrev pub pure : {A : Type 0} → A → Cmd A
pure a r = ok (a, r)

abbrev pub and_then : {A B : Type 0} → Result (A × Runtime) → (A → Cmd B) → Result (B × Runtime)
and_then (ok (a, r)) k = k a r
and_then assert_failed k = assert_failed
and_then thrown k = thrown
and_then undefined k = undefined
and_then out_of_fuel k = out_of_fuel

infixl 5 ◌>>=◌ ◌>>◌
abbrev pub ◌>>=◌ : {A B : Type 0} → Cmd A → (A → Cmd B) → Cmd B
m >>= k = λ r. and_then (m r) k

abbrev pub ◌>>◌ : {B : Type 0} → Cmd (Unit {0}) → Cmd B → Cmd B
m >> n = m >>= λ _. n

-- A computation that does not look at the store.
abbrev pub lift : {A : Type 0} → Result A → Cmd A
lift (ok a) r = ok (a, r)
lift assert_failed r = assert_failed
lift thrown r = thrown
lift undefined r = undefined
lift out_of_fuel r = out_of_fuel

-- `*p`
unfoldable pub load : ℕ → Cmd Object
load p r = if p == 0 then undefined else lift (deref (r.objects p)) r

-- The object at `p` in its new state.
abbrev pub store : ℕ → Object → Cmd (Unit {0})
store p o r = ok (tt, record r { objects = update r.objects p o })

-- `new`
abbrev pub new_object : Object → Cmd ℕ
new_object o r = ok (
  r.next_object,
  record r { objects = update r.objects r.next_object o; next_object = suc r.next_object },
)

-- `delete p`; nothing happens at NULL. A base class without a virtual destructor is not told apart.
unfoldable pub delete_object : ℕ → Cmd (Unit {0})
unfolding load
delete_object p =
    if p == 0
    then pure tt
    else (load p >>= λ o r.
        ok (tt, record r { objects = λ q. if q == p then none else r.objects q }))

-- `*type`
abbrev pub type_info : ℕ → Cmd TypeInfo
type_info t r = lift (deref (r.registry.info t)) r

-- A function of the registry.
abbrev pub types : (Registry → ℕ × Registry) → Cmd ℕ
types f r = let (t, g) = f r.registry in ok (t, record r { registry = g })

-- The values of the enumeration.
unfoldable pub code_number : TypeCode → ℕ
code_number struct_ty = 0
code_number tensor_ty = 1
code_number assoc_array_ty = 2
code_number sequence_ty = 3
code_number integer_ty = 4
code_number float_ty = 5
code_number double_ty = 6
code_number pointer_ty = 7
code_number reference_ty = 8
code_number none_ty = 9

unfoldable pub access_check : ℕ → Cmd (Unit {0})
access_check p = lift (assert (not (p == 0)))

unfoldable pub type_check : ℕ → TypeCode → Cmd (Unit {0})
unfolding load code_number
type_check p code = do
  lift (assert (not (p == 0)))
  o ← load p
  lift (assert (not (get_type o == 0)))
  t ← type_info (get_type o)
  lift (assert (code_number (get_code t) == code_number code))
