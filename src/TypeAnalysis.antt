-- ===== src/TypeAnalysis.antt =====
-- compiler/memoir/analysis/src/TypeAnalysis.cpp: the type of a value of the program under compilation,
-- found from the instruction that makes it. The program is a parameter: what LLVM says of each value,
-- of its users and of the functions. Values are numbers; types are those of Ir.
pub mod Visits
pub mod Calls
pub mod Queries
pub mod Memory
pub mod Again
pub mod Doubt
pub mod Chains
use memoir_cs397_atc.Prelude.{
  ℕ, Bool, true, false, ◌||◌, ◌&&◌, Option, none, some, List, [], ◌∷◌, if◌then◌else◌, ◌==◌, nat_eq,
  Eq,
}
use memoir_cs397_atc.Std.Map.{find, assign}
use memoir_cs397_atc.Std.Sets.{contains, insert}
use memoir_cs397_atc.Result.{Result, ok, assert_failed, undefined}
use memoir_cs397_atc.Result as Result
use memoir_cs397_atc.Ir.{Registry}

-- What makes a value, with its operands. `forwarding_inst` stands for the instructions whose type is
-- that of one operand: writes, the SSA instructions, copies, insertions, removals, the mutable forms of
-- these, views, and the questions to associative arrays.
pub data Inst : Type 0 where
  integer_type_inst : (bitwidth : ℕ) (is_signed : Bool) → Inst
  float_type_inst double_type_inst pointer_type_inst : Inst
  reference_type_inst : (referenced_type : ℕ) → Inst
  define_struct_type_inst : (name : ℕ) (field_types : List ℕ) → Inst
  struct_type_inst : (name_value : ℕ) → Inst
  static_tensor_type_inst : (element_type : ℕ) (lengths : List ℕ) → Inst
  tensor_type_inst : (element_type number_of_dimensions : ℕ) → Inst
  assoc_array_type_inst : (key_type value_type : ℕ) → Inst
  sequence_type_inst : (element_type : ℕ) → Inst
  struct_alloc_inst : (type_operand : ℕ) → Inst
  tensor_alloc_inst : (element_operand number_of_dimensions : ℕ) → Inst
  assoc_array_alloc_inst : (key_operand value_operand : ℕ) → Inst
  sequence_alloc_inst : (element_operand : ℕ) → Inst
  collection_read_inst : (object : ℕ) → Inst
  struct_read_inst : (object field_index : ℕ) → Inst
  collection_get_inst : (object : ℕ) → Inst
  struct_get_inst : (object field_index : ℕ) → Inst
  forwarding_inst : (operand : ℕ) → Inst
  swap_inst : (from_collection to_collection : ℕ) → Inst
  assoc_keys_inst : (collection : ℕ) → Inst
  assert_type_inst : (type_operand : ℕ) → Inst
  return_type_inst : (type_operand : ℕ) → Inst
  direct_call_inst : (returns_pointer : Bool) (callee : ℕ) → Inst
  indirect_call_inst : (returns_pointer : Bool) (function_type : ℕ) → Inst
  extract_value_inst : (aggregate : ℕ) → Inst
  load_inst : (global : Option ℕ) → Inst
  store_inst : (value_operand : ℕ) → Inst
  get_element_ptr_inst : Inst
  phi_node : (incoming_values : List ℕ) → Inst
  null_pointer other_value : Inst

pub record Function : Type 0 where
  pub function_type : ℕ
  pub insts : List ℕ
  -- The values of the return statements; a `return` without one has none.
  pub return_values : List (Option ℕ)

pub record Program : Type 0 where
  pub inst : ℕ → Inst
  pub users : ℕ → List ℕ
  pub functions : List Function

-- The fields of the class, and the tables of the types. A `Type *` that may be NULL is an option. The
-- sets of a map from values to sets are the pairs of the two.
pub record Analysis : Type 0 where
  pub registry : Registry
  pub value_to_type : List (ℕ × Option ℕ)
  pub visited : List ℕ
  pub visited_edges : List (ℕ × ℕ)
  pub edge_types : List (ℕ × ℕ)

abbrev pub Query : Type 0 → Type 0
Query A = Analysis → Result (A × Analysis)

abbrev pub pure : {A : Type 0} → A → Query A
pure a s = ok (a, s)

infixl 5 ◌>>=◌ ◌>>◌
unfoldable pub ◌>>=◌ : {A B : Type 0} → Query A → (A → Query B) → Query B
◌>>=◌ m f s = Result.◌>>=◌ (m s) (λ (a, s'). f a s')

abbrev pub ◌>>◌ : {B : Type 0} → Query (Unit {0}) → Query B → Query B
m >> k = m >>= λ _. k

-- MEMOIR_NULL_CHECK
unfoldable pub null_check : Option ℕ → Query ℕ
null_check none s = assert_failed
null_check (some t) s = ok (t, s)

-- A call of a function of the types.
unfoldable pub make_type : (Registry → ℕ × Registry) → Query ℕ
make_type make s = let (t, r) = make s.registry in ok (t, record s { registry = r })

unfoldable pub on_types : {A : Type 0} → (Registry → Result A) → Query A
on_types look s = Result.◌>>=◌ (look s.registry) (λ a. ok (a, s))

unfoldable pub find_existing : ℕ → Analysis → Option ℕ
find_existing v s = elim (find v s.value_to_type) [ some t ↦ t | none ↦ none ]

unfoldable pub been_visited : ℕ → Analysis → Bool
been_visited v s = contains s.visited v

unfoldable pub mark_visited : ℕ → Analysis → Analysis
mark_visited v s = record s { visited = insert v s.visited }

-- CHECK_MEMOIZED
unfoldable pub check_memoized : ℕ → Query (Option ℕ) → Query (Option ℕ)
check_memoized v visit s = elim (find_existing v s) [
  | some found ↦ ok (some found, s)
  | none ↦ if been_visited v s then ok (none, s) else visit (mark_visited v s)
]

unfoldable pub memoize : ℕ → Option ℕ → Query (Unit {0})
memoize v t s = ok (tt, record s { value_to_type = assign v t s.value_to_type })

-- MEMOIZE_AND_RETURN
unfoldable pub memoize_and_return : ℕ → Option ℕ → Query (Option ℕ)
memoize_and_return v t = do memoize v t; pure t

unfoldable pub invalidate : Analysis → Analysis
invalidate s = record s { value_to_type = [] }

-- `getType` forgets what was visited before it asks.
unfoldable pub forget_visits : Analysis → Analysis
forget_visits s = record s { visited = []; visited_edges = [] }
