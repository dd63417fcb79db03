-- ===== src/TypeAnalysis/Again.antt =====
-- A query that found a type is answered from the table the next time.
use memoir_cs397_atc.Prelude.{
  ℕ, zero, suc, Bool, true, false, Option, none, some, List, [], ◌∷◌, ◌≡◌, refl, ◌∙◌, nat_eq,
}
use memoir_cs397_atc.Result.{ok}
use memoir_cs397_atc.TypeAnalysis.{
  Inst, integer_type_inst, float_type_inst, double_type_inst, pointer_type_inst,
  reference_type_inst, define_struct_type_inst, struct_type_inst, static_tensor_type_inst,
  tensor_type_inst, assoc_array_type_inst, sequence_type_inst, struct_alloc_inst, tensor_alloc_inst,
  assoc_array_alloc_inst, sequence_alloc_inst, collection_read_inst, struct_read_inst,
  collection_get_inst, struct_get_inst, forwarding_inst, swap_inst, assoc_keys_inst,
  assert_type_inst, return_type_inst, direct_call_inst, indirect_call_inst, extract_value_inst,
  load_inst, store_inst, get_element_ptr_inst, phi_node, null_pointer, other_value, Program,
  Analysis, Query, ◌>>=◌, find_existing, check_memoized, forget_visits,
}
use memoir_cs397_atc.TypeAnalysis.Visits.{
  visit_define_struct_type_inst, visit_static_tensor_type_inst, visit_tensor_type_inst,
  visit_assoc_array_type_inst, visit_sequence_type_inst, visit_checked, visit_tensor_alloc_inst,
  visit_assoc_array_alloc_inst, visit_sequence_alloc_inst, visit_read_inst, visit_get_inst,
  visit_forwarding_inst, visit_swap_inst, visit_assoc_keys_inst,
}
use memoir_cs397_atc.TypeAnalysis.Calls.{
  visit_struct_type_inst, visit_direct_call, visit_indirect_call, visit_load_inst, visit_phi_node,
}
use memoir_cs397_atc.TypeAnalysis.Queries.{
  visit, asserted_or, or_else, asserted_type, unless_null, type_of_value, get_type_helper, get_type,
}
use memoir_cs397_atc.TypeAnalysis.Memory.{
  Remembers, bind-eq-ok, bind-Remembers, none-Remembers, memoize_and_return-Remembers,
  visit_checked-Remembers, visit_forwarding_inst-Remembers, visit_define_struct_type_inst-Remembers,
  visit_static_tensor_type_inst-Remembers, visit_tensor_type_inst-Remembers,
  visit_assoc_array_type_inst-Remembers, visit_sequence_type_inst-Remembers,
  visit_tensor_alloc_inst-Remembers, visit_assoc_array_alloc_inst-Remembers,
  visit_sequence_alloc_inst-Remembers, visit_read_inst-Remembers, visit_get_inst-Remembers,
  visit_assoc_keys_inst-Remembers, visit_swap_inst-Remembers, visit_struct_type_inst-Remembers,
  visit_direct_call-Remembers, visit_indirect_call-Remembers, visit_load_inst-Remembers,
  visit_phi_node-Remembers,
}

-- The instructions whose visit looks at the table first.
abbrev pub is_remembered : Inst → Bool
is_remembered (integer_type_inst w s) = false
is_remembered float_type_inst = false
is_remembered double_type_inst = false
is_remembered pointer_type_inst = false
is_remembered (reference_type_inst t) = false
is_remembered (store_inst v) = false
is_remembered get_element_ptr_inst = false
is_remembered null_pointer = false
is_remembered other_value = false
is_remembered _ = true

existing :
    (v t : ℕ) (query : Query (Option ℕ)) (s : Analysis)
    → find_existing v s ≡ some t
    → check_memoized v query s ≡ ok (some t, s)
unfolding check_memoized
existing v t query s found = rw (found, check_memoized) refl

module _ (program : Program) (type_of analyze : ℕ → Query (Option ℕ)) (v : ℕ) where
  visit-Remembers :
      (i : Inst) → is_remembered i ≡ true → Remembers v (visit program type_of analyze i v)
  unfolding visit
  visit-Remembers (define_struct_type_inst n fs) h =
      visit_define_struct_type_inst-Remembers type_of analyze v n fs
  visit-Remembers (struct_type_inst n) h = visit_struct_type_inst-Remembers program type_of v n
  visit-Remembers (static_tensor_type_inst e ls) h =
      visit_static_tensor_type_inst-Remembers type_of analyze v e ls
  visit-Remembers (tensor_type_inst e n) h = visit_tensor_type_inst-Remembers type_of analyze v e n
  visit-Remembers (assoc_array_type_inst k x) h =
      visit_assoc_array_type_inst-Remembers type_of analyze v k x
  visit-Remembers (sequence_type_inst e) h = visit_sequence_type_inst-Remembers type_of analyze v e
  visit-Remembers (struct_alloc_inst t) h = visit_checked-Remembers type_of analyze v t
  visit-Remembers (tensor_alloc_inst e n) h =
      visit_tensor_alloc_inst-Remembers type_of analyze v e n
  visit-Remembers (assoc_array_alloc_inst k x) h =
      visit_assoc_array_alloc_inst-Remembers type_of analyze v k x
  visit-Remembers (sequence_alloc_inst e) h =
      visit_sequence_alloc_inst-Remembers type_of analyze v e
  visit-Remembers (collection_read_inst o) h = visit_read_inst-Remembers type_of analyze v _
  visit-Remembers (struct_read_inst o i) h = visit_read_inst-Remembers type_of analyze v _
  visit-Remembers (collection_get_inst o) h = visit_get_inst-Remembers type_of analyze v _
  visit-Remembers (struct_get_inst o i) h = visit_get_inst-Remembers type_of analyze v _
  visit-Remembers (forwarding_inst o) h = visit_forwarding_inst-Remembers type_of analyze v o
  visit-Remembers (swap_inst a b) h = visit_swap_inst-Remembers type_of analyze v a b
  visit-Remembers (assoc_keys_inst c) h = visit_assoc_keys_inst-Remembers type_of analyze v c
  visit-Remembers (assert_type_inst t) h = visit_checked-Remembers type_of analyze v t
  visit-Remembers (return_type_inst t) h = visit_checked-Remembers type_of analyze v t
  visit-Remembers (direct_call_inst b f) h = visit_direct_call-Remembers program type_of v b f
  visit-Remembers (indirect_call_inst b f) h = visit_indirect_call-Remembers program type_of v b f
  visit-Remembers (extract_value_inst a) h = visit_forwarding_inst-Remembers type_of analyze v a
  visit-Remembers (load_inst g) h = visit_load_inst-Remembers program type_of v g
  visit-Remembers (phi_node vs) h = visit_phi_node-Remembers program type_of v vs
  visit-Remembers (integer_type_inst w s) h = cc
  visit-Remembers float_type_inst h = cc
  visit-Remembers double_type_inst h = cc
  visit-Remembers pointer_type_inst h = cc
  visit-Remembers (reference_type_inst t) h = cc
  visit-Remembers (store_inst x) h = cc
  visit-Remembers get_element_ptr_inst h = cc
  visit-Remembers null_pointer h = cc
  visit-Remembers other_value h = cc

  -- A visit of a value with a type in the table changes nothing.
  visit-existing :
      (i : Inst) (t : ℕ) (s : Analysis)
      → is_remembered i ≡ true
      → find_existing v s ≡ some t
      → visit program type_of analyze i v s ≡ ok (some t, s)
  unfolding visit visit_define_struct_type_inst visit_static_tensor_type_inst visit_tensor_type_inst
      visit_assoc_array_type_inst visit_sequence_type_inst visit_checked visit_tensor_alloc_inst
      visit_assoc_array_alloc_inst visit_sequence_alloc_inst visit_read_inst visit_get_inst
      visit_forwarding_inst visit_swap_inst visit_assoc_keys_inst visit_struct_type_inst
      visit_direct_call visit_indirect_call visit_load_inst visit_phi_node
  visit-existing (define_struct_type_inst n fs) t s h found = existing v t _ s found
  visit-existing (struct_type_inst n) t s h found = existing v t _ s found
  visit-existing (static_tensor_type_inst e ls) t s h found = existing v t _ s found
  visit-existing (tensor_type_inst e n) t s h found = existing v t _ s found
  visit-existing (assoc_array_type_inst k x) t s h found = existing v t _ s found
  visit-existing (sequence_type_inst e) t s h found = existing v t _ s found
  visit-existing (struct_alloc_inst o) t s h found = existing v t _ s found
  visit-existing (tensor_alloc_inst e n) t s h found = existing v t _ s found
  visit-existing (assoc_array_alloc_inst k x) t s h found = existing v t _ s found
  visit-existing (sequence_alloc_inst e) t s h found = existing v t _ s found
  visit-existing (collection_read_inst o) t s h found = existing v t _ s found
  visit-existing (struct_read_inst o i) t s h found = existing v t _ s found
  visit-existing (collection_get_inst o) t s h found = existing v t _ s found
  visit-existing (struct_get_inst o i) t s h found = existing v t _ s found
  visit-existing (forwarding_inst o) t s h found = existing v t _ s found
  visit-existing (swap_inst a b) t s h found = existing v t _ s found
  visit-existing (assoc_keys_inst c) t s h found = existing v t _ s found
  visit-existing (assert_type_inst o) t s h found = existing v t _ s found
  visit-existing (return_type_inst o) t s h found = existing v t _ s found
  visit-existing (direct_call_inst b f) t s h found = existing v t _ s found
  visit-existing (indirect_call_inst b f) t s h found = existing v t _ s found
  visit-existing (extract_value_inst a) t s h found = existing v t _ s found
  visit-existing (load_inst g) t s h found = existing v t _ s found
  visit-existing (phi_node vs) t s h found = existing v t _ s found
  visit-existing (integer_type_inst w b) t s h found = cc
  visit-existing float_type_inst t s h found = cc
  visit-existing double_type_inst t s h found = cc
  visit-existing pointer_type_inst t s h found = cc
  visit-existing (reference_type_inst o) t s h found = cc
  visit-existing (store_inst x) t s h found = cc
  visit-existing get_element_ptr_inst t s h found = cc
  visit-existing null_pointer t s h found = cc
  visit-existing other_value t s h found = cc

  asserted_type-Remembers :
      (users : List ℕ) → Remembers v (asserted_type program type_of analyze v users)
  unfolding asserted_type asserted_or
  asserted_type-Remembers [] = none-Remembers v
  asserted_type-Remembers (user ∷ users) =
      bind-Remembers v _ _ λ t. round t (asserted_type-Remembers users)
    where
      round :
          (t : Option ℕ) {query : Query (Option ℕ)}
          → Remembers v query
          → Remembers v (asserted_or program type_of analyze v t query)
      round (some t) rest = memoize_and_return-Remembers v (some t)
      round none rest = rest

  unless_null-Remembers :
      (i : Inst) {query : Query (Option ℕ)}
      → is_remembered i ≡ true
      → Remembers v query
      → Remembers v (unless_null program type_of analyze i query)
  unfolding unless_null
  unless_null-Remembers (define_struct_type_inst n fs) h rest = rest
  unless_null-Remembers (struct_type_inst n) h rest = rest
  unless_null-Remembers (static_tensor_type_inst e ls) h rest = rest
  unless_null-Remembers (tensor_type_inst e n) h rest = rest
  unless_null-Remembers (assoc_array_type_inst k x) h rest = rest
  unless_null-Remembers (sequence_type_inst e) h rest = rest
  unless_null-Remembers (struct_alloc_inst t) h rest = rest
  unless_null-Remembers (tensor_alloc_inst e n) h rest = rest
  unless_null-Remembers (assoc_array_alloc_inst k x) h rest = rest
  unless_null-Remembers (sequence_alloc_inst e) h rest = rest
  unless_null-Remembers (collection_read_inst o) h rest = rest
  unless_null-Remembers (struct_read_inst o i) h rest = rest
  unless_null-Remembers (collection_get_inst o) h rest = rest
  unless_null-Remembers (struct_get_inst o i) h rest = rest
  unless_null-Remembers (forwarding_inst o) h rest = rest
  unless_null-Remembers (swap_inst a b) h rest = rest
  unless_null-Remembers (assoc_keys_inst c) h rest = rest
  unless_null-Remembers (assert_type_inst t) h rest = rest
  unless_null-Remembers (return_type_inst t) h rest = rest
  unless_null-Remembers (direct_call_inst b f) h rest = rest
  unless_null-Remembers (indirect_call_inst b f) h rest = rest
  unless_null-Remembers (extract_value_inst a) h rest = rest
  unless_null-Remembers (load_inst g) h rest = rest
  unless_null-Remembers (phi_node vs) h rest = rest
  unless_null-Remembers (integer_type_inst w s) h rest = cc
  unless_null-Remembers float_type_inst h rest = cc
  unless_null-Remembers double_type_inst h rest = cc
  unless_null-Remembers pointer_type_inst h rest = cc
  unless_null-Remembers (reference_type_inst t) h rest = cc
  unless_null-Remembers (store_inst x) h rest = cc
  unless_null-Remembers get_element_ptr_inst h rest = cc
  unless_null-Remembers null_pointer h rest = cc
  unless_null-Remembers other_value h rest = cc

  type_of_value-Remembers :
      is_remembered (program.inst v) ≡ true → Remembers v (type_of_value program type_of analyze v)
  unfolding type_of_value ◌>>=◌ or_else
  type_of_value-Remembers h s s' t e =
      let (a, s1, visited, rest) =
        bind-eq-ok (visit program type_of analyze (program.inst v) v s)
          (λ type. or_else program type_of analyze type (
            unless_null program type_of analyze (program.inst v)
              (asserted_type program type_of analyze v (program.users v))))
          e in
      after a s1 visited rest
    where
      after :
          (a : Option ℕ) (s1 : Analysis)
          → visit program type_of analyze (program.inst v) v s ≡ ok (a, s1)
          → or_else program type_of analyze a
              (unless_null program type_of analyze
                (program.inst v)
                (asserted_type program type_of analyze v (program.users v)))
              s1
            ≡ ok (some t, s')
          → find_existing v s' ≡ some t
      after none s1 visited rest =
          unless_null-Remembers (program.inst v) h (asserted_type-Remembers (program.users v)) s1 s'
            t rest
      after (some u) s1 visited rest =
          let found = visit-Remembers (program.inst v) h s s1 u visited in cc

pub forgotten : (v : ℕ) (s : Analysis) → find_existing v (forget_visits s) ≡ find_existing v s
unfolding find_existing forget_visits
forgotten v s = refl

pub type_of_value-existing :
    (program : Program) (type_of analyze : ℕ → Query (Option ℕ)) (v t : ℕ) (s : Analysis)
    → is_remembered (program.inst v) ≡ true
    → find_existing v s ≡ some t
    → type_of_value program type_of analyze v s ≡ ok (some t, s)
unfolding type_of_value or_else ◌>>=◌
type_of_value-existing program type_of analyze v t s h found =
    rw (visit-existing program type_of analyze v (program.inst v) t s h found) refl

-- For a value of an instruction whose visit looks at the table, once a query found its type, the
-- same query with any fuel above 0 returns that type, and leaves the tables of types, of values
-- and of incoming types as they were.
pub get_type-again :
    (program : Program) (v : ℕ) (fuel fuel' t : ℕ) (s s' : Analysis)
    → is_remembered (program.inst v) ≡ true
    → get_type program fuel v s ≡ ok (some t, s')
    → get_type program (suc fuel') v s' ≡ ok (some t, forget_visits s')
unfolding get_type get_type_helper
get_type-again program v zero fuel' t s s' h e = cc
get_type-again program v (suc fuel) fuel' t s s' h e =
    let found =
      type_of_value-Remembers program (get_type_helper program fuel)
        (λ u s. get_type_helper program fuel u (forget_visits s)) v h (forget_visits s) s' t e in
    type_of_value-existing program (get_type_helper program fuel')
      (λ u s1. get_type_helper program fuel' u (forget_visits s1)) v t (forget_visits s') h
      (forgotten v s' ∙ found)
