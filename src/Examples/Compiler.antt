-- ===== src/Examples/Compiler.antt =====
-- The theorems on the types of the compiler, at registries of a few types.
use memoir_cs397_atc.Prelude.{ℕ, ◌≡◌, ◌⊎◌, some, refl, [], ◌∷◌, false}
use memoir_cs397_atc.Result.{ok}
use memoir_cs397_atc.Ir.{
  Registry, integer_type, sequence_type, struct_type, tensor_type, key_of, intern, initial,
  get_static_tensor_type,
}
use memoir_cs397_atc.Ir.Statics.{get_static_tensor_type-other_lengths}
use memoir_cs397_atc.Ir.Again.{
  here, next, interned, initial-IsInterned, intern-again, intern-injective, struct_name,
}

intern-again_example :
    let r = (intern (sequence_type 7) initial).1 in
    let s = (intern (tensor_type 7 2) r).1 in
    intern (sequence_type 7) s ≡ ((intern (sequence_type 7) initial).0, s)
intern-again_example =
    intern-again (sequence_type 7) (sequence_type 7) initial-IsInterned
      (next here (interned (tensor_type 7 2))) refl

-- Two structs of one name share a pointer, with other fields and another definition.
intern-injective_example :
    (struct_type 2 5 (3 ∷ []) ≡ struct_type 1 5 [])
    ⊎ (name : ℕ) × (struct_name (struct_type 2 5 (3 ∷ [])) ≡ some name)
      × (struct_name (struct_type 1 5 []) ≡ some name)
unfolding intern key_of initial
intern-injective_example =
    intern-injective (struct_type 1 5 []) (struct_type 2 5 (3 ∷ [])) initial-IsInterned
      (next here (interned (integer_type 64 false))) refl

get_static_tensor_type-other_lengths_example :
    (t : ℕ) × (s : Registry) × (get_static_tensor_type 7 (2 ∷ 3 ∷ []) initial ≡ ok (t, s))
    × (get_static_tensor_type 7 (4 ∷ 5 ∷ []) s ≡ ok (t, s))
get_static_tensor_type-other_lengths_example =
    get_static_tensor_type-other_lengths initial-IsInterned 7 (2 ∷ 3 ∷ []) (4 ∷ 5 ∷ []) refl
