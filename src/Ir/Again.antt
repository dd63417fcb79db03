-- ===== src/Ir/Again.antt =====
-- Calls of the functions that make types, one after another.
use memoir_cs397_atc.Prelude.{
  ℕ, ◌≡◌, refl, ap, sym, ◌∙◌, subst, true, false, Option, none, some, ◌⊎◌, inl, inr, List, arith,
}
use memoir_cs397_atc.Std.Map.{find}
use memoir_cs397_atc.Result.{ok}
use memoir_cs397_atc.Ir.{
  TypeInfo, Registry, key_of, intern, initial, list_eq, get_static_tensor_type, define_struct_type,
  struct_type, get_struct_type, integer_type,
}
use memoir_cs397_atc.Ir.Unique.{
  IsInterned, Grows, intern-found, intern-find, intern-Grows, intern-IsInterned,
}
use memoir_cs397_atc.Ir.Statics.{get_static_tensor_type-IsInterned}

-- One call: the functions by one key intern their type.
pub data Call (r : Registry) : Registry → Type 0 where
  interned : (d : TypeInfo) → Call r (intern d r).1
  struct : (definition name : ℕ) (ts : List ℕ) → Call r (define_struct_type definition name ts r).1
  static_tensor :
      (e : ℕ) (ls : List ℕ) (t : ℕ) (s : Registry)
      → get_static_tensor_type e ls r ≡ ok (t, s)
      → Call r s

pub data Calls (r : Registry) : Registry → Type 0 where
  here : Calls r r
  next : {s u : Registry} → Calls r s → Call s u → Calls r u

-- The name of a struct.
abbrev pub struct_name : TypeInfo → Option ℕ
struct_name (struct_type definition name ts) = some name
struct_name other = none

key_of-injective :
    (d' d : TypeInfo)
    → key_of d' ≡ key_of d
    → (d' ≡ d) ⊎ ((name : ℕ) × (struct_name d' ≡ some name) × (struct_name d ≡ some name))
unfolding key_of
key_of-injective (struct_type def' name' ts') (struct_type def name ts) same =
    inr (name, ground arith, refl)
key_of-injective (integer_type w false) (integer_type w' false) same = inl (ground arith)
key_of-injective (integer_type w true) (integer_type w' true) same = inl (ground arith)
key_of-injective d' d same = inl (ground arith)

with_table : {r : Registry} → IsInterned r → IsInterned (record r { has_defined_types = true })
with_table valid = record { held = valid.held; statics = valid.statics }

Call-kept : {r s : Registry} → Call r s → IsInterned r → IsInterned s × Grows r s
unfolding define_struct_type
Call-kept {r} (interned d) valid = (intern-IsInterned d valid, intern-Grows d r)
Call-kept {r} (struct definition name ts) valid =
    let d = struct_type definition name ts in
    let grows = intern-Grows d (record r { has_defined_types = true }) in
    (
      intern-IsInterned d (with_table valid),
      record { entries = grows.entries; defined = λ h. grows.defined refl; infos = grows.infos },
    )
Call-kept {r} (static_tensor e ls t s ends) valid =
    let (t', s', ends', valid', grows) = get_static_tensor_type-IsInterned valid e ls in
    let one : s' ≡ s = cc in (subst IsInterned one valid', subst (Grows r) one grows)

Calls-kept : {r s : Registry} → Calls r s → IsInterned r → IsInterned s × Grows r s
Calls-kept here valid =
    (valid, record { entries = λ key t at. at; defined = λ h. h; infos = λ t d at. at })
Calls-kept (next calls call) valid =
    let (valid', grows) = Calls-kept calls valid in
    let (valid'', grows') = Call-kept call valid' in
    (
      valid'',
      record {
        entries = λ key t at. grows'.entries key t (grows.entries key t at);
        defined = λ h. grows'.defined (grows.defined h);
        infos = λ t d at. grows'.infos t d (grows.infos t d at);
      },
    )

pub initial-IsInterned : IsInterned initial
unfolding initial
initial-IsInterned = record {
  held = λ key t at. ground (arith, at);
  statics = λ i e t at. ground (arith, at);
}

-- From the start on, the tables are right.
pub Calls-initial-IsInterned : {r : Registry} → Calls initial r → IsInterned r
Calls-initial-IsInterned calls = (Calls-kept calls initial-IsInterned).0

-- In a registry of the types of the compiler whose tables are right, once a type of a class and
-- its arguments was asked for, the same request returns the same pointer and changes nothing,
-- whatever calls come between; static tensors are asked for in another way.
pub intern-again :
    {r s : Registry} (d d' : TypeInfo)
    → IsInterned r
    → Calls (intern d r).1 s
    → key_of d' ≡ key_of d
    → intern d' s ≡ ((intern d r).0, s)
intern-again {r} {s} d d' valid calls same =
    let (valid', grows) = Calls-kept calls (intern-IsInterned d valid) in
    intern-found d' s (intern d r).0
      (ap (λ k. find k s.table) same ∙ grows.entries (key_of d) (intern d r).0 (intern-find d r))

-- In a registry of the types of the compiler whose tables are right, two requests by key, which
-- are those for types that are no static tensors, return one pointer only if they are for the same
-- type or for structs of the same name, whatever calls come between.
pub intern-injective :
    {r s : Registry} (d d' : TypeInfo)
    → IsInterned r
    → Calls (intern d r).1 s
    → (intern d' s).0 ≡ (intern d r).0
    → (d' ≡ d) ⊎ ((name : ℕ) × (struct_name d' ≡ some name) × (struct_name d ≡ some name))
intern-injective {r} {s} d d' valid calls same =
    let (valid', grows) = Calls-kept calls (intern-IsInterned d valid) in
    let (x, there, keyed) =
      (intern-IsInterned d valid).held (key_of d) (intern d r).0 (intern-find d r) in
    let there' = (intern-Grows d' s).infos (intern d r).0 x (grows.infos (intern d r).0 x there) in
    let (y, there'', keyed') =
      (intern-IsInterned d' valid').held (key_of d') (intern d' s).0 (intern-find d' s) in
    let one : x ≡ y = cc in key_of-injective d' d (sym keyed' ∙ sym (ap key_of one) ∙ keyed)

-- In a registry of the types of the compiler whose tables are right, a struct that was defined is
-- found by its name, and every other definition of the name returns it too, whatever calls come
-- between.
pub define_struct_type-get :
    {r s : Registry} (definition name : ℕ) (ts : List ℕ)
    → IsInterned r
    → Calls (define_struct_type definition name ts r).1 s
    → (get_struct_type name s ≡ ok (define_struct_type definition name ts r).0)
      × ((definition' : ℕ) (ts' : List ℕ)
          → (define_struct_type definition' name ts' s).0
            ≡ (define_struct_type definition name ts r).0)
unfolding define_struct_type get_struct_type key_of
define_struct_type-get {r} {s} definition name ts valid calls =
    let d = struct_type definition name ts in
    let r' = record r { has_defined_types = true } in
    let (valid', grows) = Calls-kept calls (intern-IsInterned d (with_table valid)) in
    let held = grows.entries (key_of d) (intern d r').0 (intern-find d r') in
    (
      rw (grows.defined ((intern-Grows d r').defined refl), held) refl,
      λ definition' ts'.
          ap (λ p. p.0)
            (intern-found (struct_type definition' name ts') (record s { has_defined_types = true })
              (intern d r').0 held),
    )
