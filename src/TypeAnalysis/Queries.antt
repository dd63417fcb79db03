-- ===== src/TypeAnalysis/Queries.antt =====
-- The visit of a value by its instruction, and the queries.
use memoir_cs397_atc.Prelude.{ℕ, zero, suc, Option, none, some, List, [], ◌∷◌, nat_eq}
use memoir_cs397_atc.Result.{out_of_fuel}
use memoir_cs397_atc.Ir.{get_integer_type, get_float_type, get_double_type, get_pointer_type}
use memoir_cs397_atc.TypeAnalysis.{
  Inst, integer_type_inst, float_type_inst, double_type_inst, pointer_type_inst,
  reference_type_inst, define_struct_type_inst, struct_type_inst, static_tensor_type_inst,
  tensor_type_inst, assoc_array_type_inst, sequence_type_inst, struct_alloc_inst, tensor_alloc_inst,
  assoc_array_alloc_inst, sequence_alloc_inst, collection_read_inst, struct_read_inst,
  collection_get_inst, struct_get_inst, forwarding_inst, swap_inst, assoc_keys_inst,
  assert_type_inst, return_type_inst, direct_call_inst, indirect_call_inst, extract_value_inst,
  load_inst, store_inst, get_element_ptr_inst, phi_node, null_pointer, other_value, Program, Query,
  pure, ◌>>=◌, memoize_and_return, forget_visits,
}
use memoir_cs397_atc.TypeAnalysis.Visits.{
  visit_primitive_type_inst, visit_reference_type_inst, visit_define_struct_type_inst,
  visit_static_tensor_type_inst, visit_tensor_type_inst, visit_assoc_array_type_inst,
  visit_sequence_type_inst, visit_checked, visit_tensor_alloc_inst, visit_assoc_array_alloc_inst,
  visit_sequence_alloc_inst, get_collection_type, get_field_array_type_of, visit_read_inst,
  visit_get_inst, visit_forwarding_inst, visit_swap_inst, visit_assoc_keys_inst,
}
use memoir_cs397_atc.TypeAnalysis.Calls.{
  visit_struct_type_inst, visit_direct_call, visit_indirect_call, visit_load_inst, visit_phi_node,
}

module _ (program : Program) where
  module _ (type_of analyze : ℕ → Query (Option ℕ)) where
    -- The visit of each kind of instruction; `visitInstruction` finds nothing.
    unfoldable pub visit : Inst → ℕ → Query (Option ℕ)
    visit (integer_type_inst w s) v =
        visit_primitive_type_inst type_of analyze (get_integer_type w s)
    visit float_type_inst v = visit_primitive_type_inst type_of analyze get_float_type
    visit double_type_inst v = visit_primitive_type_inst type_of analyze get_double_type
    visit pointer_type_inst v = visit_primitive_type_inst type_of analyze get_pointer_type
    visit (reference_type_inst t) v = visit_reference_type_inst type_of analyze t
    visit (define_struct_type_inst n fs) v = visit_define_struct_type_inst type_of analyze v n fs
    visit (struct_type_inst name) v = visit_struct_type_inst program type_of v name
    visit (static_tensor_type_inst e ls) v = visit_static_tensor_type_inst type_of analyze v e ls
    visit (tensor_type_inst e n) v = visit_tensor_type_inst type_of analyze v e n
    visit (assoc_array_type_inst k x) v = visit_assoc_array_type_inst type_of analyze v k x
    visit (sequence_type_inst e) v = visit_sequence_type_inst type_of analyze v e
    visit (struct_alloc_inst t) v = visit_checked type_of analyze v t
    visit (tensor_alloc_inst e n) v = visit_tensor_alloc_inst type_of analyze v e n
    visit (assoc_array_alloc_inst k x) v = visit_assoc_array_alloc_inst type_of analyze v k x
    visit (sequence_alloc_inst e) v = visit_sequence_alloc_inst type_of analyze v e
    visit (collection_read_inst o) v =
        visit_read_inst type_of analyze v (get_collection_type type_of analyze o)
    visit (struct_read_inst o i) v =
        visit_read_inst type_of analyze v (get_field_array_type_of type_of analyze o i)
    visit (collection_get_inst o) v =
        visit_get_inst type_of analyze v (get_collection_type type_of analyze o)
    visit (struct_get_inst o i) v =
        visit_get_inst type_of analyze v (get_field_array_type_of type_of analyze o i)
    visit (forwarding_inst o) v = visit_forwarding_inst type_of analyze v o
    visit (swap_inst a b) v = visit_swap_inst type_of analyze v a b
    visit (assoc_keys_inst c) v = visit_assoc_keys_inst type_of analyze v c
    visit (assert_type_inst t) v = visit_checked type_of analyze v t
    visit (return_type_inst t) v = visit_checked type_of analyze v t
    visit (direct_call_inst r f) v = visit_direct_call program type_of v r f
    visit (indirect_call_inst r f) v = visit_indirect_call program type_of v r f
    visit (extract_value_inst a) v = visit_forwarding_inst type_of analyze v a
    visit (load_inst g) v = visit_load_inst program type_of v g
    visit (phi_node vs) v = visit_phi_node program type_of v vs
    visit (store_inst x) v = pure none
    visit get_element_ptr_inst v = pure none
    visit null_pointer v = pure none
    visit other_value v = pure none

    -- The type that an assertion on the value gives.
    unfoldable pub asserted_by : Inst → ℕ → Query (Option ℕ)
    asserted_by (assert_type_inst t) user = visit_checked type_of analyze user t
    asserted_by _ user = pure none

    -- A type if it was found, and else a further query.
    unfoldable pub or_else : Option ℕ → Query (Option ℕ) → Query (Option ℕ)
    or_else (some t) query = pure (some t)
    or_else none query = query

    -- The end of a round of the loop over the users.
    unfoldable pub asserted_or : ℕ → Option ℕ → Query (Option ℕ) → Query (Option ℕ)
    asserted_or v (some t) query = memoize_and_return v (some t)
    asserted_or v none query = query

    -- The loop over the users of the value.
    unfoldable pub asserted_type : ℕ → List ℕ → Query (Option ℕ)
    asserted_type v [] = pure none
    asserted_type v (user ∷ users) = do
      type ← asserted_by (program.inst user) user
      asserted_or v type (asserted_type v users)

    unfoldable pub unless_null : Inst → Query (Option ℕ) → Query (Option ℕ)
    unless_null null_pointer query = pure none
    unless_null _ query = query

    -- The body of `getType_helper`.
    unfoldable pub type_of_value : ℕ → Query (Option ℕ)
    type_of_value v = do
      type ← visit (program.inst v) v
      or_else type (unless_null (program.inst v) (asserted_type v (program.users v)))

  -- `getType_helper`, with fuel for the depth of its recursion.
  unfoldable pub get_type_helper : ℕ → ℕ → Query (Option ℕ)
  get_type_helper zero v = λ s. out_of_fuel
  get_type_helper (suc fuel) v =
      type_of_value (get_type_helper fuel) (λ u s. get_type_helper fuel u (forget_visits s)) v

  unfoldable pub get_type : ℕ → ℕ → Query (Option ℕ)
  unfolding get_type_helper
  get_type fuel v s = get_type_helper fuel v (forget_visits s)
