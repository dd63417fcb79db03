-- ===== src/Types/Equals.antt =====
-- `equals` of the types in runtime/src/detail/types.cpp.
use memoir_cs397_atc.Prelude.{
  ℕ, zero, suc, Bool, true, false, ◌&&◌, none, some, List, [], ◌∷◌, if◌then◌else◌, ◌==◌, bool_eq,
}
use memoir_cs397_atc.Result.{Result, ok, thrown, undefined, out_of_fuel, ◌>>=◌}
use memoir_cs397_atc.Types.{
  TypeInfo, struct_type, tensor_type, assoc_array_type, sequence_type, integer_type, float_type,
  double_type, pointer_type, reference_type, Registry,
}

-- The loop over the dimensions in `TensorType::equals`; `at` throws out of range.
unfoldable pub compare_lengths : ℕ → List ℕ → List ℕ → Result Bool
compare_lengths zero xs ys = ok true
compare_lengths (suc n) [] ys = thrown
compare_lengths (suc n) (x ∷ xs) [] = thrown
compare_lengths (suc n) (x ∷ xs) (y ∷ ys) =
    let rest = compare_lengths n xs ys in if x == y then rest else ok false

integer_equals : ℕ → Bool → TypeInfo → Result Bool
integer_equals w s (integer_type w' s') = ok ((w == w') && bool_eq.beq s s')
integer_equals w s other = ok false

-- `this->equals(other)`, given the two addresses and the two objects; `rec` is the call on the
-- element type or the referenced type.
unfoldable pub equals_info : (ℕ → ℕ → Result Bool) → ℕ → TypeInfo → ℕ → TypeInfo → Result Bool
unfolding compare_lengths integer_equals
equals_info rec a (struct_type name fields) b other = ok (a == b)
equals_info rec a (tensor_type e n s ls) b (tensor_type e' n' s' ls') =
    if n == n'
    then (compare_lengths n ls ls' >>= λ same. if same then rec e e' else ok false)
    else ok false
equals_info rec a (assoc_array_type k v) b (assoc_array_type k' v') = ok ((k == k') && (v == v'))
equals_info rec a (sequence_type e) b (sequence_type e') = ok (e == e')
equals_info rec a (integer_type w s) b other = if a == b then ok true else integer_equals w s other
equals_info rec a float_type b float_type = ok true
equals_info rec a double_type b double_type = ok true
equals_info rec a pointer_type b pointer_type = ok true
equals_info rec a (reference_type t) b (reference_type t') = rec t t'
equals_info rec a this b other = ok false

-- Only the equality of structs does not look at `other`.
equals_dangling : ℕ → TypeInfo → ℕ → Result Bool
equals_dangling a (struct_type name fields) b = ok (a == b)
equals_dangling a this b = undefined

-- The fuel bounds the depth of element types and referenced types.
unfoldable pub equals : ℕ → Registry → ℕ → ℕ → Result Bool
unfolding equals_info equals_dangling
equals zero r a b = out_of_fuel
equals (suc fuel) r a b =
    let rec = equals fuel r in
    elim (r.info a) [
      | none ↦ undefined
      | some this ↦ elim (r.info b) [
        | none ↦ equals_dangling a this b
        | some other ↦ equals_info rec a this b other
      ]
    ]
