-- ===== src/TypeAnalysis/Visits.antt =====
-- The visits of the type instructions, the allocations, the accesses and the operations on
-- collections. `type_of` is `getType_helper`, and `analyze` is `getType`.
use memoir_cs397_atc.Prelude.{
  ℕ, Option, none, some, List, [], ◌∷◌, if◌then◌else◌, get_elem?, nat_eq,
}
use memoir_cs397_atc.Result.{Result, ok, assert_failed, undefined, deref}
use memoir_cs397_atc.Result as Result
use memoir_cs397_atc.Ir.{
  TypeInfo, reference_type, struct_type, assoc_array_type, Registry, get_code, is_collection_class,
  get_reference_type, define_struct_type, get_field_array_type, get_tensor_type,
  get_assoc_array_type, get_sequence_type, get_static_tensor_type, get_element_type,
}
use memoir_cs397_atc.TypeAnalysis.{
  Query, pure, ◌>>=◌, ◌>>◌, null_check, make_type, on_types, check_memoized, memoize,
  memoize_and_return,
}

-- The description of a type.
unfoldable pub info_of : ℕ → Query TypeInfo
unfolding on_types
info_of t = on_types (λ r. deref (get_elem? r.types t))

module _ (type_of analyze : ℕ → Query (Option ℕ)) where
  -- A type instruction without operands.
  unfoldable pub visit_primitive_type_inst : (Registry → ℕ × Registry) → Query (Option ℕ)
  unfolding make_type
  visit_primitive_type_inst make = do t ← make_type make; pure (some t)

  -- The type behind an operand of a type instruction, asked for by `TypeAnalysis::analyze`.
  unfoldable pub operand_type : ℕ → Query ℕ
  unfolding null_check
  operand_type operand = do type ← analyze operand; null_check type

  unfoldable pub visit_reference_type_inst : ℕ → Query (Option ℕ)
  unfolding operand_type make_type
  visit_reference_type_inst referenced = do
    t ← operand_type referenced
    t' ← make_type (get_reference_type t)
    pure (some t')

  -- A field type that is not found, which the code stores as NULL, ends here.
  unfoldable pub field_types_of : List ℕ → Query (List ℕ)
  field_types_of [] = pure []
  field_types_of (field ∷ fields) = do
    type ← type_of field
    rest ← field_types_of fields
    elim type [ some t ↦ pure (t ∷ rest) | none ↦ λ s. undefined ]

  unfoldable pub visit_define_struct_type_inst : ℕ → ℕ → List ℕ → Query (Option ℕ)
  unfolding memoize_and_return field_types_of make_type
  visit_define_struct_type_inst v name fields = check_memoized v (do
    field_types ← field_types_of fields
    t ← make_type (define_struct_type v name field_types)
    memoize_and_return v (some t))

  unfoldable pub visit_static_tensor_type_inst : ℕ → ℕ → List ℕ → Query (Option ℕ)
  unfolding memoize_and_return operand_type
  visit_static_tensor_type_inst v element lengths = check_memoized v (do
    element_type ← operand_type element
    t ← λ s.
        Result.◌>>=◌ (get_static_tensor_type element_type lengths s.registry)
          (λ (t, r). ok (t, record s { registry = r }))
    memoize_and_return v (some t))

  unfoldable pub visit_tensor_type_inst : ℕ → ℕ → ℕ → Query (Option ℕ)
  unfolding memoize_and_return operand_type make_type
  visit_tensor_type_inst v element dimensions = check_memoized v (do
    element_type ← operand_type element
    t ← make_type (get_tensor_type element_type dimensions)
    memoize_and_return v (some t))

  unfoldable pub visit_assoc_array_type_inst : ℕ → ℕ → ℕ → Query (Option ℕ)
  unfolding memoize_and_return operand_type make_type
  visit_assoc_array_type_inst v key value = check_memoized v (do
    key_type ← operand_type key
    value_type ← operand_type value
    t ← make_type (get_assoc_array_type key_type value_type)
    memoize_and_return v (some t))

  unfoldable pub visit_sequence_type_inst : ℕ → ℕ → Query (Option ℕ)
  unfolding memoize_and_return operand_type make_type
  visit_sequence_type_inst v element = check_memoized v (do
    element_type ← operand_type element
    t ← make_type (get_sequence_type element_type)
    memoize_and_return v (some t))

  -- `visitStructAllocInst`, and the checks of types, whose operand is a type as well.
  unfoldable pub visit_checked : ℕ → ℕ → Query (Option ℕ)
  unfolding memoize_and_return null_check
  visit_checked v type_operand =
      check_memoized v
        (do type ← type_of type_operand; t ← null_check type; memoize_and_return v (some t))

  unfoldable pub visit_tensor_alloc_inst : ℕ → ℕ → ℕ → Query (Option ℕ)
  unfolding memoize_and_return null_check make_type
  visit_tensor_alloc_inst v element dimensions = check_memoized v (do
    type ← type_of element
    element_type ← null_check type
    t ← make_type (get_tensor_type element_type dimensions)
    memoize_and_return v (some t))

  unfoldable pub visit_assoc_array_alloc_inst : ℕ → ℕ → ℕ → Query (Option ℕ)
  unfolding memoize_and_return null_check make_type
  visit_assoc_array_alloc_inst v key value = check_memoized v (do
    key_operand ← type_of key
    key_type ← null_check key_operand
    value_operand ← type_of value
    value_type ← null_check value_operand
    t ← make_type (get_assoc_array_type key_type value_type)
    memoize_and_return v (some t))

  unfoldable pub visit_sequence_alloc_inst : ℕ → ℕ → Query (Option ℕ)
  unfolding memoize_and_return null_check make_type
  visit_sequence_alloc_inst v element = check_memoized v (do
    type ← type_of element
    element_type ← null_check type
    t ← make_type (get_sequence_type element_type)
    memoize_and_return v (some t))

  -- `AccessInst::getCollectionType`
  unfoldable pub get_collection_type : ℕ → Query ℕ
  unfolding operand_type info_of
  get_collection_type object = do
    t ← operand_type object
    info ← info_of t
    if is_collection_class (get_code info) then pure t else λ s. assert_failed

  -- The same for the accesses of structs: `none` is a type of another class.
  unfoldable pub field_array_of : ℕ → ℕ → TypeInfo → Query ℕ
  unfolding make_type
  field_array_of t field_index (struct_type definition name field_types) =
      make_type (get_field_array_type t field_index)
  field_array_of t field_index _ = λ s. assert_failed

  unfoldable pub get_field_array_type_of : ℕ → ℕ → Query ℕ
  unfolding operand_type info_of field_array_of
  get_field_array_type_of object field_index = do
    t ← operand_type object
    info ← info_of t
    field_array_of t field_index info

  unfoldable pub element_type_of : ℕ → Query ℕ
  unfolding info_of on_types
  element_type_of collection_type = do
    info ← info_of collection_type
    on_types (get_element_type info)

  -- A reference is unwrapped.
  unfoldable pub unwrap : ℕ → TypeInfo → ℕ
  unwrap t (reference_type referenced) = referenced
  unwrap t _ = t

  -- `visitReadInst`, where `collection` is `getCollectionType`.
  unfoldable pub visit_read_inst : ℕ → Query ℕ → Query (Option ℕ)
  unfolding memoize_and_return element_type_of unwrap info_of
  visit_read_inst v collection = check_memoized v (do
    collection_type ← collection
    element_type ← element_type_of collection_type
    info ← info_of element_type
    memoize_and_return v (some (unwrap element_type info)))

  unfoldable pub visit_get_inst : ℕ → Query ℕ → Query (Option ℕ)
  unfolding memoize_and_return element_type_of
  visit_get_inst v collection = check_memoized v (do
    collection_type ← collection
    nested_type ← element_type_of collection_type
    memoize_and_return v (some nested_type))

  unfoldable pub visit_forwarding_inst : ℕ → ℕ → Query (Option ℕ)
  unfolding memoize_and_return
  visit_forwarding_inst v operand =
      check_memoized v (do type ← type_of operand; memoize_and_return v type)

  -- The type that is found for one collection goes to the other one too.
  unfoldable pub forward_type : ℕ → ℕ → ℕ → Option ℕ → Query (Option ℕ)
  unfolding memoize memoize_and_return
  forward_type v from to (some t) = do memoize to (some t); memoize_and_return v (some t)
  forward_type v from to none = do type ← type_of to; memoize from type; memoize_and_return v type

  unfoldable pub visit_swap_inst : ℕ → ℕ → ℕ → Query (Option ℕ)
  unfolding forward_type
  visit_swap_inst v from to = check_memoized v (do type ← type_of from; forward_type v from to type)

  unfoldable pub key_sequence_type : TypeInfo → Query ℕ
  unfolding make_type
  key_sequence_type (assoc_array_type key_type value_type) = make_type (get_sequence_type key_type)
  key_sequence_type _ = λ s. assert_failed

  unfoldable pub visit_assoc_keys_inst : ℕ → ℕ → Query (Option ℕ)
  unfolding memoize_and_return null_check info_of key_sequence_type
  visit_assoc_keys_inst v collection = check_memoized v (do
    type ← type_of collection
    t ← null_check type
    info ← info_of t
    key_seq_type ← key_sequence_type info
    memoize_and_return v (some key_seq_type))
