-- ===== src/Types/Calls.antt =====
-- Sequences of calls of the functions that make types.
use memoir_cs397_atc.Prelude.{ℕ, ◌≡◌, refl, Bool, some, List, arith, length, nat_eq, bool_eq}
use memoir_cs397_atc.Std.Map.{find, find-assign}
use memoir_cs397_atc.Types.{
  Registry, set_fields, after, find_tensor, find_static_tensor, find_integer, get_struct_type,
  define_struct_type, get_tensor_type, get_static_tensor_type, get_assoc_array_type,
  get_sequence_type, get_integer_type, get_reference_type, initial,
}
use memoir_cs397_atc.Types.WellFormed.{
  Exists, AllExist, lengths_beq-eq, find_integer-assign, IsRegistry,
}
use memoir_cs397_atc.Types.Kept.{
  get_struct_type-IsRegistry, define_struct_type-IsRegistry, get_tensor_type-IsRegistry,
  get_static_tensor_type-IsRegistry, get_assoc_array_type-IsRegistry, get_sequence_type-IsRegistry,
  get_integer_type-IsRegistry, get_reference_type-IsRegistry,
}

-- One call, with valid pointers as its arguments. The calls for float, double and pointer types
-- change nothing.
pub data Call (r : Registry) : Registry → Type 0 where
  struct : (name : ℕ) → Call r (get_struct_type name r).1
  define :
      (name : ℕ) (fields : List ℕ)
      → AllExist r.info fields
      → Call r (define_struct_type name fields r).1
  tensor : (e n : ℕ) → Exists r.info e → Call r (get_tensor_type e n r).1
  static_tensor :
      (e n : ℕ) (ls : List ℕ)
      → Exists r.info e
      → length ls ≡ n
      → Call r (get_static_tensor_type e n ls r).1
  assoc_array :
      (k v : ℕ) → Exists r.info k → Exists r.info v → Call r (get_assoc_array_type k v r).1
  sequence : (e : ℕ) → Exists r.info e → Call r (get_sequence_type e r).1
  integer : (w : ℕ) (s : Bool) → Call r (get_integer_type w s r).1
  reference : (t : ℕ) → Call r (after r (get_reference_type t r))

pub data Calls (r : Registry) : Registry → Type 0 where
  here : Calls r r
  next : {s t : Registry} → Calls r s → Call s t → Calls r t

-- What the tables hold already stays.
pub record Extends (r s : Registry) : Type 0 where
  pub structs : (name t : ℕ) → find name r.struct_types ≡ some t → find name s.struct_types ≡ some t
  pub tensors :
      (e n t : ℕ)
      → find_tensor e n r.tensor_types ≡ some t
      → find_tensor e n s.tensor_types ≡ some t
  pub static_tensors :
      (e n : ℕ) (ls : List ℕ) (t : ℕ)
      → find_static_tensor e n ls r.static_tensor_types ≡ some t
      → find_static_tensor e n ls s.static_tensor_types ≡ some t
  pub sequences : (e t : ℕ) → find e r.sequence_types ≡ some t → find e s.sequence_types ≡ some t
  pub integers :
      (w : ℕ) (b : Bool) (t : ℕ)
      → find_integer w b r.integer_types ≡ some t
      → find_integer w b s.integer_types ≡ some t

-- Every call keeps the tables well formed.
pub Call-IsRegistry : {r s : Registry} → Call r s → IsRegistry r → IsRegistry s
Call-IsRegistry (struct name) v = get_struct_type-IsRegistry v name
Call-IsRegistry (define name fields h) v = define_struct_type-IsRegistry v name fields h
Call-IsRegistry (tensor e n h) v = get_tensor_type-IsRegistry v e n h
Call-IsRegistry (static_tensor e n ls h k) v = get_static_tensor_type-IsRegistry v e n ls h k
Call-IsRegistry (assoc_array k w h h') v = get_assoc_array_type-IsRegistry v k w h h'
Call-IsRegistry (sequence e h) v = get_sequence_type-IsRegistry v e h
Call-IsRegistry (integer w s) v = get_integer_type-IsRegistry v w s
Call-IsRegistry (reference t) v = get_reference_type-IsRegistry v t

pub Calls-IsRegistry : {r s : Registry} → IsRegistry r → Calls r s → IsRegistry s
Calls-IsRegistry v here = v
Calls-IsRegistry v (next cs c) = Call-IsRegistry c (Calls-IsRegistry v cs)

pub initial-IsRegistry : IsRegistry initial
unfolding initial find_tensor find_static_tensor find_integer
initial-IsRegistry = record {
  null = refl;
  positive = omega arith;
  fresh = λ a h. ground arith;
  older = λ a t h. ground arith;
  structs = λ name t h. cc;
  tensors = λ e n t h. cc;
  static_tensors = λ e n ls t h. cc;
  sequences = λ e t h. cc;
  integers = λ w s t h. cc;
}

-- After any sequence of calls of the functions that make types, with types that exist as
-- arguments, every table entry leads to a type of its description, and every type refers only to
-- existing types, which are older than it except for the fields of a struct.
pub Calls-initial-IsRegistry : {r : Registry} → Calls initial r → IsRegistry r
Calls-initial-IsRegistry cs = Calls-IsRegistry initial-IsRegistry cs

Extends-refl : {r : Registry} → Extends r r
Extends-refl = record {
  structs = λ name t h. h;
  tensors = λ e n t h. h;
  static_tensors = λ e n ls t h. h;
  sequences = λ e t h. h;
  integers = λ w b t h. h;
}

Call-Extends : {r s : Registry} → Call r s → Extends r s
unfolding get_struct_type define_struct_type get_tensor_type get_static_tensor_type
    get_assoc_array_type get_sequence_type get_integer_type get_reference_type set_fields
Call-Extends {r} (struct name) = record {
  structs = λ j t h. ground (arith, find-assign name j r.next r.struct_types);
  tensors = λ e' n' t h. ground arith;
  static_tensors = λ e' n' ls' t h. ground arith;
  sequences = λ e' t h. ground arith;
  integers = λ w' b t h. ground arith;
}
Call-Extends {r} (define name fields h) = record {
  structs = λ j t h. ground (arith, find-assign name j r.next r.struct_types);
  tensors = λ e' n' t h. ground arith;
  static_tensors = λ e' n' ls' t h. ground arith;
  sequences = λ e' t h. ground arith;
  integers = λ w' b t h. ground arith;
}
Call-Extends {r} (sequence e h) = record {
  structs = λ j t h. ground arith;
  tensors = λ e' n' t h. ground arith;
  static_tensors = λ e' n' ls' t h. ground arith;
  sequences = λ e' t h. ground (arith, find-assign e e' r.next r.sequence_types);
  integers = λ w' b t h. ground arith;
}
Call-Extends {r} (integer w s) = record {
  structs = λ j t h. ground arith;
  tensors = λ e' n' t h. ground arith;
  static_tensors = λ e' n' ls' t h. ground arith;
  sequences = λ e' t h. ground arith;
  integers = λ w' b t h.
      ground (arith, find_integer-assign w w' s b r.next r.integer_types, bool_eq.beq_iff s b);
}
Call-Extends (static_tensor e n ls p q) = record {
  structs = λ j t h. ground arith;
  tensors = λ e' n' t h. ground arith;
  static_tensors = λ e' n' ls' t h. ground (arith, lengths_beq-eq ls ls');
  sequences = λ e' t h. ground arith;
  integers = λ w' b t h. ground arith;
}
Call-Extends c = record {
  structs = λ j t h. ground arith;
  tensors = λ e' n' t h. ground arith;
  static_tensors = λ e' n' ls' t h. ground arith;
  sequences = λ e' t h. ground arith;
  integers = λ w' b t h. ground arith;
}

pub Calls-Extends : {r s : Registry} → Calls r s → Extends r s
Calls-Extends here = Extends-refl
Calls-Extends {r} {s} (next cs c) = record {
  structs = λ j t h. (Call-Extends c).structs j t ((Calls-Extends cs).structs j t h);
  tensors = λ e n t h. (Call-Extends c).tensors e n t ((Calls-Extends cs).tensors e n t h);
  static_tensors = λ e n ls t h.
      (Call-Extends c).static_tensors e n ls t ((Calls-Extends cs).static_tensors e n ls t h);
  sequences = λ e t h. (Call-Extends c).sequences e t ((Calls-Extends cs).sequences e t h);
  integers = λ w b t h. (Call-Extends c).integers w b t ((Calls-Extends cs).integers w b t h);
}

-- Once a call has returned a sequence type, the same call returns the same pointer and changes
-- nothing, whatever calls come between.
pub get_sequence_type-again :
    (e : ℕ) (r : Registry) {s : Registry}
    → Calls (get_sequence_type e r).1 s
    → get_sequence_type e s ≡ ((get_sequence_type e r).0, s)
unfolding get_sequence_type
get_sequence_type-again e r cs = ground (
  arith,
  (Calls-Extends cs).sequences e (get_sequence_type e r).0,
  find-assign e e r.next r.sequence_types,
)
