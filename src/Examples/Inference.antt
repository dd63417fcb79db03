-- ===== src/Examples/Inference.antt =====
-- The types of the values of a small program.
use memoir_cs397_atc.Prelude.{
  [], ◌∷◌, nat_eq, ◌≡◌, ◌≢◌, refl, some, none, arith, true, false, if◌then◌else◌, ◌==◌,
}
use memoir_cs397_atc.Std.Sets.{contains, insert}
use memoir_cs397_atc.Result.{ok}
use memoir_cs397_atc.Ir.{
  get_sequence_type, intern, get_integer_type, key_of, integer_type, sequence_type,
}
use memoir_cs397_atc.TypeAnalysis.{
  integer_type_inst, sequence_alloc_inst, forwarding_inst, indirect_call_inst, other_value,
  find_existing, been_visited, mark_visited, memoize, Program, Analysis, forget_visits, invalidate,
  ◌>>=◌, check_memoized,
}
use memoir_cs397_atc.TypeAnalysis.Calls.{
  edge_eq, visit_indirect_call, visit_phi_node, types_of_edges,
}
use memoir_cs397_atc.TypeAnalysis.Queries.{get_type, get_type_helper, type_of_value, visit, or_else}
use memoir_cs397_atc.TypeAnalysis.Visits.{
  visit_forwarding_inst, visit_sequence_alloc_inst, visit_primitive_type_inst,
}
use memoir_cs397_atc.TypeAnalysis.Chains.{known, forwarded, get_type-Returns}
use memoir_cs397_atc.TypeAnalysis.Again.{get_type-again}
use memoir_cs397_atc.TypeAnalysis.Doubt.{visit_indirect_call-none, visit_phi_node-stale}

-- 0: a type of integers, 1: a sequence of them, 2: a write to it, 4: a call of a function pointer.
abbrev program : Program
program = record {
  inst = λ v.
      if v == 0
      then integer_type_inst 64 false
      else if v == 1
      then sequence_alloc_inst 0
      else if v == 2
      then forwarding_inst 1
      else if v == 4
      then indirect_call_inst true 9
      else other_value;
  users = λ v. [];
  functions = record { function_type = 9; insts = 2 ∷ []; return_values = some 2 ∷ [] } ∷ [];
}

abbrev empty : Analysis
empty = record {
  registry = record { types = []; table = []; static_tensor_types = []; has_defined_types = false };
  value_to_type = [];
  visited = [];
  visited_edges = [];
  edge_types = [];
}

abbrev asked : Analysis
asked = record {
  registry = record {
    types = integer_type 64 false ∷ sequence_type 0 ∷ [];
    table = (0 ∷ 64 ∷ 0 ∷ [], 0) ∷ (10 ∷ 0 ∷ [], 1) ∷ [];
    static_tensor_types = [];
    has_defined_types = false;
  };
  value_to_type = (1, some 1) ∷ (2, some 1) ∷ [];
  visited = 1 ∷ 2 ∷ [];
  visited_edges = [];
  edge_types = [];
}

write-asked : get_type program 5 2 empty ≡ ok (some 1, asked)
unfolding get_type type_of_value visit or_else visit_forwarding_inst visit_sequence_alloc_inst
    visit_primitive_type_inst check_memoized ◌>>=◌ forget_visits contains insert find_existing
    been_visited mark_visited memoize get_sequence_type intern get_integer_type key_of
write-asked = refl

get_type-again_example : get_type program 3 2 asked ≡ ok (some 1, forget_visits asked)
get_type-again_example = get_type-again program 2 5 2 1 empty asked refl write-asked

-- The function that is called returns the sequence.
visit_indirect_call-none_example :
    visit_indirect_call program (get_type_helper program 5) 4 true 9 asked ≢ ok (some 1, asked)
unfolding find_existing
visit_indirect_call-none_example =
    visit_indirect_call-none program (get_type_helper program 5) 4 9 true asked asked 1 refl

-- A PHI node had type 0; its incoming value has type 1 now.
abbrev outdated : Analysis
outdated = record empty { edge_types = (3, 0) ∷ [] }

visit_phi_node-stale_example :
    visit_phi_node program (λ v s. ok (some 1, s)) 3 (2 ∷ []) (forget_visits (invalidate outdated))
    ≡ ok (
      none,
      record empty {
        visited = 3 ∷ [];
        visited_edges = (3, 2) ∷ [];
        edge_types = insert (3, 1) ((3, 0) ∷ []);
      },
    )
unfolding types_of_edges
visit_phi_node-stale_example =
    visit_phi_node-stale program (λ v s. ok (some 1, s)) 3 2 0 1 outdated
      (record empty { visited = 3 ∷ []; visited_edges = (3, 2) ∷ []; edge_types = (3, 0) ∷ [] })
      refl refl (λ e. omega arith) refl

-- The sequence has a type, and the write to it has none yet.
abbrev started : Analysis
started = record asked { value_to_type = (1, some 1) ∷ [] }

get_type-Returns_example : (s' : Analysis) × (get_type program 2 2 started ≡ ok (some 1, s'))
unfolding contains
get_type-Returns_example =
    get_type-Returns program 1 2 2 started (forwarded refl refl refl (known refl refl))
