-- ===== src/Layout/Recursive.antt =====
-- Which types have a layout: those of finite depth; a struct that refers to itself has none.
use memoir_cs397_atc.Prelude.{
  ℕ, zero, suc, ◌≡◌, refl, Bool, none, some, List, [], ◌∷◌, inl, inr, get_elem?, nat_eq,
  Option-cases,
}
use mathlib.Core.List.{Memᴰ}
use memoir_cs397_atc.Std.Map.{find}
use memoir_cs397_atc.Result.{Result, ok, out_of_fuel, ◌>>=◌}
use memoir_cs397_atc.Ir.{
  integer_type, float_type, double_type, pointer_type, reference_type, struct_type,
  static_tensor_type, Registry,
}
use memoir_cs397_atc.Layout.{
  TypeLayout, Packing, Converter, Conversion, check_memoized, memoize, create_struct,
  visit_integer_type, visit_fixed_type, visit_reference_type, visit_static_tensor_type,
  visit_fields, visit_struct_type, place_field, visit_type, convert,
}

-- The type at a place has a layout, whose computation is no deeper than the number.
pub data IsConvertible (r : Registry) : ℕ → ℕ → Type 0 where
  integer :
      {d t w : ℕ} {s : Bool}
      → get_elem? r.types t ≡ some (integer_type w s)
      → IsConvertible r (suc d) t
  float : {d t : ℕ} → get_elem? r.types t ≡ some float_type → IsConvertible r (suc d) t
  double : {d t : ℕ} → get_elem? r.types t ≡ some double_type → IsConvertible r (suc d) t
  pointer : {d t : ℕ} → get_elem? r.types t ≡ some pointer_type → IsConvertible r (suc d) t
  reference :
      {d t u : ℕ}
      → get_elem? r.types t ≡ some (reference_type u)
      → IsConvertible r d u
      → IsConvertible r (suc d) t
  static_tensor :
      {d t u n : ℕ} {ns : List ℕ}
      → get_elem? r.types t ≡ some (static_tensor_type u 1 (n ∷ ns))
      → IsConvertible r d u
      → IsConvertible r (suc d) t
  struct :
      {d t definition name : ℕ} {ts : List ℕ}
      → get_elem? r.types t ≡ some (struct_type definition name ts)
      → ((u : ℕ) → Memᴰ u ts → IsConvertible r d u)
      → IsConvertible r (suc d) t

-- A conversion that returns a layout from each state.
abbrev Returns : Conversion → Type 0
Returns convert = (c : Converter) → (l : TypeLayout) × (c' : Converter) × (convert c ≡ ok (l, c'))

check_memoized-Returns :
    (t : ℕ) (convert : Conversion) → Returns convert → Returns (check_memoized t convert)
unfolding check_memoized
check_memoized-Returns t convert returns c = elim (Option-cases (find t c.memoir_to_type_layout)) [
  | inl new ↦ rw (new, check_memoized) (returns c)
  | inr (l, old) ↦ (l, c, rw (old, check_memoized) refl)
]

memoize-Returns : (t : ℕ) (l : TypeLayout) → Returns (memoize t l)
unfolding memoize
memoize-Returns t l c = (l, _, refl)

bind-Returns :
    {A : Type 0} {m : Result A} {a : A} (f : A → Result (TypeLayout × Converter))
    → m ≡ ok a
    → (l : TypeLayout) × (c' : Converter) × (f a ≡ ok (l, c'))
    → (l : TypeLayout) × (c' : Converter) × ((m >>= f) ≡ ok (l, c'))
bind-Returns f first (l, c', rest) = (l, c', rw first rest)

visit_fields-Returns :
    (visit : ℕ → Conversion) (ts : List ℕ)
    → ((u : ℕ) → Memᴰ u ts → Returns (visit u))
    → (i : ℕ) (p : Packing) (c : Converter)
    → (p' : Packing) × (c' : Converter) × (visit_fields visit ts i p c ≡ ok (p', c'))
unfolding visit_fields
visit_fields-Returns visit [] returns i p c = (p, c, refl)
visit_fields-Returns visit (t ∷ ts) returns i p c =
    let (l, c1, first) = returns t (Memᴰ.head refl) c in
    let (p', c', rest) =
      visit_fields-Returns visit ts (λ u m. returns u (Memᴰ.tail m)) (suc i) (place_field i l p)
        c1 in
    (p', c', rw first rest)

visit_reference_type-Returns :
    (visit : ℕ → Conversion) (t u : ℕ)
    → Returns (visit u)
    → Returns (visit_reference_type visit t u)
unfolding visit_reference_type
visit_reference_type-Returns visit t u returns =
    check_memoized-Returns t _
      λ c. let (l, c1, first) = returns c in bind-Returns _ first (memoize-Returns t _ c1)

visit_static_tensor_type-Returns :
    (visit : ℕ → Conversion) (t u n : ℕ) (ns : List ℕ)
    → Returns (visit u)
    → Returns (visit_static_tensor_type visit t u 1 (n ∷ ns))
unfolding visit_static_tensor_type
visit_static_tensor_type-Returns visit t u n ns returns =
    check_memoized-Returns t _
      λ c. let (l, c1, first) = returns c in bind-Returns _ first (memoize-Returns t _ c1)

visit_struct_type-Returns :
    (visit : ℕ → Conversion) (t : ℕ) (ts : List ℕ)
    → ((u : ℕ) → Memᴰ u ts → Returns (visit u))
    → Returns (visit_struct_type visit t ts)
unfolding visit_struct_type create_struct
visit_struct_type-Returns visit t ts returns = check_memoized-Returns t _ λ c.
    let (p, c1, first) = visit_fields-Returns visit ts returns 0 _ c in
    bind-Returns _ first (memoize-Returns t _ _)

-- For a type whose definition has finite depth and is made of integers, floats, doubles, pointers,
-- references, structs and static tensors of one dimension, as much fuel as the depth is enough for
-- the conversion to return a layout from any state.
pub convert-Returns :
    {r : Registry} {d t : ℕ}
    → IsConvertible r d t
    → (c : Converter) → (l : TypeLayout) × (c' : Converter) × (convert d r t c ≡ ok (l, c'))
unfolding convert visit_type visit_integer_type visit_fixed_type
convert-Returns (integer at) c = rw at (check_memoized-Returns _ _ (memoize-Returns _ _) c)
convert-Returns (float at) c = rw at (check_memoized-Returns _ _ (memoize-Returns _ _) c)
convert-Returns (double at) c = rw at (check_memoized-Returns _ _ (memoize-Returns _ _) c)
convert-Returns (pointer at) c = rw at (check_memoized-Returns _ _ (memoize-Returns _ _) c)
convert-Returns {r} (reference {d} {t} {u} at inner) c =
    rw at (visit_reference_type-Returns (convert d r) t u (convert-Returns inner) c)
convert-Returns {r} (static_tensor {d} {t} {u} {n} {ns} at inner) c =
    rw at (visit_static_tensor_type-Returns (convert d r) t u n ns (convert-Returns inner) c)
convert-Returns {r} (struct {d} {t} {ts = ts} at inner) c =
    rw at (visit_struct_type-Returns (convert d r) t ts (λ u m. convert-Returns (inner u m)) c)

-- For a struct whose first field is a reference to the struct itself, of which neither has a
-- layout yet, no fuel is enough for the conversion.
pub convert-Diverges :
    (r : Registry) (s f definition name : ℕ) (fields : List ℕ) (c : Converter)
    → get_elem? r.types s ≡ some (struct_type definition name (f ∷ fields))
    → get_elem? r.types f ≡ some (reference_type s)
    → find s c.memoir_to_type_layout ≡ none
    → find f c.memoir_to_type_layout ≡ none
    → (fuel : ℕ) → convert fuel r s c ≡ out_of_fuel
unfolding convert visit_type visit_struct_type visit_fields visit_reference_type
convert-Diverges r s f definition name fields c at at' new new' zero = refl
convert-Diverges r s f definition name fields c at at' new new' (suc zero) =
    rw at (rw (new, check_memoized) refl)
convert-Diverges r s f definition name fields c at at' new new' (suc (suc fuel)) = rw at (
    rw (new, check_memoized)
      (rw at' (
        rw (new', check_memoized)
          (rw (convert-Diverges r s f definition name fields c at at' new new' fuel) refl))))
