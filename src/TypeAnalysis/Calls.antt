-- ===== src/TypeAnalysis/Calls.antt =====
-- The visits of calls, loads and PHI nodes.
use memoir_cs397_atc.Prelude.{
  ℕ, Bool, true, false, Option, none, some, List, [], ◌∷◌, if◌then◌else◌, ◌==◌, ◌&&◌, get_elem?, Eq,
  nat_eq, arith, ◌≡◌, ◌↔◌,
}
use memoir_cs397_atc.Std.Sets.{insert, contains}
use memoir_cs397_atc.Result.{ok, assert_failed, undefined, deref}
use memoir_cs397_atc.TypeAnalysis.{
  Inst, return_type_inst, store_inst, define_struct_type_inst, get_element_ptr_inst, Function,
  Program, Analysis, Query, pure, ◌>>=◌, ◌>>◌, null_check, on_types, check_memoized,
  memoize_and_return,
}
use memoir_cs397_atc.TypeAnalysis.Visits.{visit_define_struct_type_inst}

abbrev pub type_beq : Option ℕ → Option ℕ → Bool
type_beq none none = true
type_beq none (some t) = false
type_beq (some t) none = false
type_beq (some t) (some u) = t == u

pub type_beq_iff : (a b : Option ℕ) → (type_beq a b ≡ true) ↔ (a ≡ b)
type_beq_iff a b = ground arith

instance abbrev pub type_eq : Eq (Option ℕ)
type_eq = record { beq = type_beq; beq_iff = type_beq_iff }

abbrev pub edge_beq : ℕ × ℕ → ℕ × ℕ → Bool
edge_beq (a, b) (c, d) = (a == c) && (b == d)

pub edge_beq_iff : (a b : ℕ × ℕ) → (edge_beq a b ≡ true) ↔ (a ≡ b)
edge_beq_iff (a, b) (c, d) = ground arith

instance abbrev pub edge_eq : Eq (ℕ × ℕ)
edge_eq = record { beq = edge_beq; beq_iff = edge_beq_iff }

module _ (program : Program) (type_of : ℕ → Query (Option ℕ)) where
  -- The definitions among the users of a name, those behind a GEP too. The GEPs of instructions and of
  -- constants are one.
  unfoldable pub definitions_of : Inst → ℕ → List ℕ → List ℕ
  definitions_of (define_struct_type_inst name fields) user found = insert user found
  definitions_of _ user found = found

  unfoldable pub gep_definitions : List ℕ → List ℕ → List ℕ
  unfolding definitions_of
  gep_definitions [] found = found
  gep_definitions (user ∷ users) found =
      gep_definitions users (definitions_of (program.inst user) user found)

  unfoldable pub user_definitions : Inst → ℕ → List ℕ → List ℕ
  unfolding definitions_of gep_definitions
  user_definitions get_element_ptr_inst user found = gep_definitions (program.users user) found
  user_definitions inst user found = definitions_of inst user found

  unfoldable pub all_definitions : List ℕ → List ℕ → List ℕ
  unfolding user_definitions
  all_definitions [] found = found
  all_definitions (user ∷ users) found =
      all_definitions users (user_definitions (program.inst user) user found)

  unfoldable pub visit_definition : Inst → ℕ → Query (Option ℕ)
  unfolding visit_define_struct_type_inst
  visit_definition (define_struct_type_inst name fields) call =
      visit_define_struct_type_inst type_of type_of call name fields
  visit_definition _ call = λ s. undefined

  -- The loop over the definitions returns in its first round; MEMOIR_UNREACHABLE ends as a failed
  -- assertion does.
  unfoldable pub first_definition : ℕ → List ℕ → Query (Option ℕ)
  unfolding visit_definition null_check memoize_and_return
  first_definition v [] = λ s. assert_failed
  first_definition v (call ∷ calls) = do
    defined_type ← visit_definition (program.inst call) call
    t ← null_check defined_type
    memoize_and_return v (some t)

  unfoldable pub visit_struct_type_inst : ℕ → ℕ → Query (Option ℕ)
  unfolding all_definitions first_definition
  visit_struct_type_inst v name_value =
      check_memoized v (first_definition v (all_definitions (program.users name_value) []))

  -- The set of the types of the returned values.
  unfoldable pub returned_types : List (Option ℕ) → List (Option ℕ) → Query (List (Option ℕ))
  returned_types [] types = pure types
  returned_types (none ∷ values) types = returned_types values (insert none types)
  returned_types (some value ∷ values) types = do
    type ← type_of value
    returned_types values (insert type types)

  unfoldable pub the_only : List (Option ℕ) → Query (Option ℕ)
  the_only (type ∷ []) = pure type
  the_only _ = λ s. assert_failed

  -- The operand of the first `memoir_return_type` of a function.
  unfoldable pub return_type_operand : Inst → Option ℕ → Option ℕ
  return_type_operand (return_type_inst operand) later = some operand
  return_type_operand _ later = later

  unfoldable pub find_return_type : List ℕ → Option ℕ
  unfolding return_type_operand
  find_return_type [] = none
  find_return_type (i ∷ insts) = return_type_operand (program.inst i) (find_return_type insts)

  unfoldable pub get_return_type : Function → Query (Option ℕ)
  unfolding find_return_type returned_types the_only
  get_return_type f = elim f.insts [
    | [] ↦ pure none
    | _ ∷ _ ↦ elim (find_return_type f.insts) [
      | some operand ↦ type_of operand
      | none ↦ do types ← returned_types f.return_values []; the_only types
    ]
  ]

  unfoldable pub visit_direct_call : ℕ → Bool → ℕ → Query (Option ℕ)
  unfolding get_return_type memoize_and_return on_types
  visit_direct_call v returns_pointer callee = check_memoized v (
      if returns_pointer
      then (do
        f ← on_types (λ r. deref (get_elem? program.functions callee))
        return_type ← get_return_type f
        memoize_and_return v return_type)
      else pure none)

  -- The types that the functions of a type return.
  unfoldable pub possible_types : ℕ → List Function → List (Option ℕ) → Query (List (Option ℕ))
  unfolding get_return_type
  possible_types function_type [] types = pure types
  possible_types function_type (f ∷ fs) types = elim (f.function_type == function_type) [
    | true ↦ do type ← get_return_type f; possible_types function_type fs (insert type types)
    | false ↦ possible_types function_type fs types
  ]

  unfoldable pub visit_indirect_call : ℕ → Bool → ℕ → Query (Option ℕ)
  unfolding possible_types the_only memoize_and_return
  visit_indirect_call v returns_pointer function_type = check_memoized v (
      if returns_pointer
      then (do
        types ← possible_types function_type program.functions []
        returned ← the_only types
        memoize_and_return v none)
      else pure none)

  unfoldable pub stored_value : Inst → Option ℕ
  stored_value (store_inst value) = some value
  stored_value _ = none

  -- The first store among the users of the global.
  unfoldable pub first_store : List ℕ → Option ℕ
  unfolding stored_value
  first_store [] = none
  first_store (user ∷ users) = elim (stored_value (program.inst user)) [
    | some value ↦ some value
    | none ↦ first_store users
  ]

  unfoldable pub load_from : ℕ → Option ℕ → Query (Option ℕ)
  unfolding null_check memoize_and_return
  load_from v none = pure none
  load_from v (some value) = do
    stored_type ← type_of value
    t ← null_check stored_type
    memoize_and_return v (some t)

  unfoldable pub visit_load_inst : ℕ → Option ℕ → Query (Option ℕ)
  unfolding first_store load_from
  visit_load_inst v global = check_memoized v (elim global [
    | none ↦ pure none
    | some variable ↦ load_from v (first_store (program.users variable))
  ])

  unfoldable pub add_edge_type : ℕ → Option ℕ → Analysis → Analysis
  add_edge_type phi none s = s
  add_edge_type phi (some t) s = record s { edge_types = insert (phi, t) s.edge_types }

  -- The loop over the incoming values of a PHI node.
  unfoldable pub visit_incoming : ℕ → List ℕ → Query (Unit {0})
  unfolding add_edge_type
  visit_incoming phi [] s = ok (tt, s)
  visit_incoming phi (value ∷ values) s = elim (contains s.visited_edges (phi, value)) [
    | true ↦ visit_incoming phi values s
    | false ↦
        (do type ← type_of value; λ s'. visit_incoming phi values (add_edge_type phi type s'))
          (record s { visited_edges = insert (phi, value) s.visited_edges })
  ]

  -- The set of the types of the incoming values.
  unfoldable pub types_of_edges : ℕ → List (ℕ × ℕ) → List ℕ
  types_of_edges phi [] = []
  types_of_edges phi ((v, t) ∷ edges) =
      let rest = types_of_edges phi edges in if v == phi then t ∷ rest else rest

  -- With one type the PHI node has it.
  unfoldable pub single_type : ℕ → List ℕ → Query (Option ℕ)
  unfolding memoize_and_return
  single_type phi (t ∷ []) = memoize_and_return phi (some t)
  single_type phi _ = pure none

  unfoldable pub visit_phi_node : ℕ → List ℕ → Query (Option ℕ)
  unfolding visit_incoming types_of_edges single_type
  visit_phi_node v incoming =
      check_memoized v
        (do visit_incoming v incoming; λ s. single_type v (types_of_edges v s.edge_types) s)
