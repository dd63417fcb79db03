-- ===== src/Init.antt =====
-- runtime/src/detail/elements.cpp, and the constructors of `Struct`, `Tensor`, `AssocArray` and
-- `SequenceAlloc` in runtime/src/detail/objects.cpp and runtime/src/detail/collections.cpp. They call
-- one another as deep as types are nested, which the fuel bounds.
pub mod Builds
pub mod Total
pub mod Length
use memoir_cs397_atc.Prelude.{
  ℕ, zero, suc, ◌^◌, Bool, true, false, Option, none, some, List, [], ◌∷◌, if◌then◌else◌, ltb,
  length, replicate,
}
use memoir_cs397_atc.Result.{Result, ok, assert_failed, undefined, out_of_fuel, assert, require}
use memoir_cs397_atc.Types.{
  TypeInfo, struct_type, tensor_type, assoc_array_type, sequence_type, integer_type, float_type,
  double_type, pointer_type, reference_type,
}
use memoir_cs397_atc.Objects.{
  struct_object, tensor_object, assoc_array_object, sequence_alloc, Cmd, pure, ◌>>=◌, ◌>>◌, lift,
  new_object, type_info,
}
use memoir_cs397_atc.Sequence.Iterators.{check_size}
use memoir_cs397_atc.Tensor.Index.{flattened_length}

-- `for (auto field_type : fields)`
unfoldable pub init_fields : (ℕ → Cmd ℕ) → List ℕ → Cmd (List ℕ)
init_fields init [] = pure []
init_fields init (t ∷ ts) = do x ← init t; xs ← init_fields init ts; pure (x ∷ xs)

pub repeat : ℕ → Cmd ℕ → Cmd (List ℕ)
repeat zero m = pure []
repeat (suc n) m = do x ← m; xs ← repeat n m; pure (x ∷ xs)

-- `for (auto i = 0; i < num; i++)` with an `int` that may not overflow, after `reserve(num)`.
unfoldable pub init_list : ℕ → Cmd ℕ → Cmd (List ℕ)
unfolding repeat check_size
init_list num m = do lift (check_size num); lift (require (ltb num (2 ^ 31))); repeat num m

unfoldable pub new_assoc_array : ℕ → Cmd ℕ
new_assoc_array t = do
  info ← type_info t
  elim info [ assoc_array_type k v ↦ new_object (assoc_array_object t []) | _ ↦ lift assert_failed ]

unfoldable mutual
  -- `new Struct(type)`
  pub new_struct : ℕ → ℕ → Cmd ℕ
  new_struct zero t = lift out_of_fuel
  new_struct (suc fuel) t = do
    info ← type_info t
    elim info [
      | struct_type name field_types ↦ (do
        fields ← init_fields (init_element fuel) field_types
        new_object (struct_object t fields))
      | _ ↦ lift assert_failed
    ]

  -- `new Tensor(type, length_of_dimensions)`
  pub new_tensor : ℕ → ℕ → List ℕ → Cmd ℕ
  new_tensor zero t lengths = lift out_of_fuel
  new_tensor (suc fuel) t lengths = do
    info ← type_info t
    elim info [
      | tensor_type element_type num_dimensions is_static of_type ↦ (do
        lift (assert (ltb 0 num_dimensions))
        n ← lift (flattened_length lengths)
        tensor ← init_elements fuel element_type n
        new_object (tensor_object t tensor lengths))
      | _ ↦ lift assert_failed
    ]

  -- `new SequenceAlloc(type, initial_size)`
  pub new_sequence : ℕ → ℕ → ℕ → Cmd ℕ
  new_sequence zero t initial_size = lift out_of_fuel
  new_sequence (suc fuel) t initial_size = do
    info ← type_info t
    elim info [
      | sequence_type element_type ↦ (do
        elements ← init_elements fuel element_type initial_size
        new_object (sequence_alloc t elements))
      | _ ↦ lift undefined
    ]

  pub init_elements : ℕ → ℕ → ℕ → Cmd (List ℕ)
  init_elements zero t num = lift out_of_fuel
  init_elements (suc fuel) t num = do
    info ← type_info t
    elim info [
      | struct_type name fields ↦ init_list num (new_struct fuel t)
      | tensor_type element_type num_dimensions is_static lengths ↦ (do
        lift (assert is_static)
        init_list num (new_tensor fuel t lengths))
      | sequence_type element_type ↦ init_list num (new_sequence fuel t 0)
      | assoc_array_type k v ↦ lift assert_failed
      | _ ↦ init_list num (pure 0)
    ]

  pub init_element : ℕ → ℕ → Cmd ℕ
  init_element zero t = lift out_of_fuel
  init_element (suc fuel) t = do
    info ← type_info t
    elim info [
      | struct_type name fields ↦ new_struct fuel t
      | tensor_type element_type num_dimensions is_static lengths ↦ (do
        lift (assert is_static)
        new_tensor fuel t lengths)
      | sequence_type element_type ↦ new_sequence fuel t 0
      | assoc_array_type k v ↦ new_assoc_array t
      | _ ↦ pure 0
    ]
