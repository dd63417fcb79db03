-- ===== src/Examples.antt =====
-- A small program state on which the theorems are tried.
pub mod Sequences
pub mod Keyed
pub mod Made
pub mod Vectors
pub mod Tables
pub mod Compiler
pub mod Texts
pub mod Graphs
pub mod Layouts
pub mod Inference
use memoir_cs397_atc.Prelude.{
  if◌then◌else◌, ◌==◌, ℕ, true, false, Option, none, List, [], ◌∷◌, refl, ◌≡◌, some, arith, length,
}
use memoir_cs397_atc.Types.{
  TypeInfo, sequence_type, integer_type, assoc_array_type, struct_type, tensor_type, reference_type,
  Registry, update,
}
use memoir_cs397_atc.Objects.{
  Object, Runtime, sequence_alloc, sequence_view, assoc_array_object, struct_object, tensor_object,
}
use memoir_cs397_atc.Sequence.Valid.{IsSequence, alloc, view}
use memoir_cs397_atc.Mut.Agree.{IsAllocation}
use memoir_cs397_atc.Assoc.{Floats}
use memoir_cs397_atc.Assoc.Laws.{IsAssoc}
use memoir_cs397_atc.Struct.{IsStruct}
use memoir_cs397_atc.Tensor.Index.{exact_length}
use memoir_cs397_atc.Tensor.Elements.{IsTensor}

-- A table as a function.
abbrev table : {A : Type 0} → List (ℕ × A) → ℕ → Option A
table [] a = none
table ((k, x) ∷ l) a = if a == k then some x else table l a

abbrev sample_info : ℕ → Option TypeInfo
sample_info = table (
    (5, (sequence_type 6))
    ∷ (6, (integer_type 64 false))
    ∷ (7, (assoc_array_type 6 6))
    ∷ (8, (struct_type 0 (6 ∷ 6 ∷ [])))
    ∷ (9, (tensor_type 6 2 false []))
    ∷ (10, (assoc_array_type 11 6))
    ∷ (11, (reference_type 8))
    ∷ (12, (struct_type 1 (6 ∷ 5 ∷ 8 ∷ [])))
    ∷ [])

abbrev sample_objects : ℕ → Option Object
sample_objects = table (
    (1, (sequence_alloc 5 (10 ∷ 20 ∷ 30 ∷ 40 ∷ [])))
    ∷ (2, (sequence_alloc 5 (7 ∷ 8 ∷ [])))
    ∷ (3, (sequence_view 5 1 1 3))
    ∷ (4, (assoc_array_object 7 ((1, 100) ∷ (2, 200) ∷ [])))
    ∷ (5, (struct_object 8 (1 ∷ 2 ∷ [])))
    ∷ (6, (tensor_object 9 (0 ∷ 1 ∷ 2 ∷ 3 ∷ 4 ∷ 5 ∷ 6 ∷ []) (2 ∷ 3 ∷ [])))
    ∷ (7, (tensor_object 9 (0 ∷ 1 ∷ 2 ∷ 3 ∷ 4 ∷ 5 ∷ 6 ∷ 7 ∷ 8 ∷ 9 ∷ 10 ∷ []) (3 ∷ 2 ∷ [])))
    ∷ (8, (assoc_array_object 10 ((5, 1) ∷ [])))
    ∷ [])

abbrev pub sample : Runtime
sample = record {
  registry = record {
    info = sample_info;
    next = 13;
    struct_types = [];
    tensor_types = [];
    static_tensor_types = [];
    sequence_types = [];
    integer_types = [];
  };
  objects = sample_objects;
  next_object = 9;
}

abbrev pub numbers : List ℕ
numbers = 10 ∷ 20 ∷ 30 ∷ 40 ∷ []

abbrev pub others : List ℕ
others = 7 ∷ 8 ∷ []

pub numbers-IsAllocation : IsAllocation sample 1 5 numbers
numbers-IsAllocation = record {
  shape = alloc refl refl refl;
  owns = record { not_null = λ e. omega arith; holds = refl };
  type_not_null = λ e. omega arith;
  element_type = 6;
  typed = refl;
  ordered = omega arith;
  within = omega arith;
  fits = omega arith;
}

pub others-IsAllocation : IsAllocation sample 2 5 others
others-IsAllocation = record {
  shape = alloc refl refl refl;
  owns = record { not_null = λ e. omega arith; holds = refl };
  type_not_null = λ e. omega arith;
  element_type = 6;
  typed = refl;
  ordered = omega arith;
  within = omega arith;
  fits = omega arith;
}

pub view-IsSequence : IsSequence sample 3 5 1 1 3 numbers
view-IsSequence = record {
  shape = view (λ e. omega arith) refl;
  owns = record { not_null = λ e. omega arith; holds = refl };
  type_not_null = λ e. omega arith;
  element_type = 6;
  typed = refl;
  ordered = omega arith;
  within = omega arith;
  fits = omega arith;
}

abbrev pub pairs : List (ℕ × ℕ)
pairs = (1, 100) ∷ (2, 200) ∷ []

pub pairs-IsAssoc : IsAssoc sample 4 7 pairs (integer_type 64 false)
pairs-IsAssoc = record {
  not_null = λ e. omega arith;
  holds = refl;
  key_type = 6;
  value_type = 6;
  typed = refl;
  key_typed = refl;
}

pub references-IsAssoc : IsAssoc sample 8 10 ((5, 1) ∷ []) (reference_type 8)
references-IsAssoc = record {
  not_null = λ e. omega arith;
  holds = refl;
  key_type = 11;
  value_type = 6;
  typed = refl;
  key_typed = refl;
}

pub pair-IsStruct : IsStruct sample 5 8 (1 ∷ 2 ∷ [])
pair-IsStruct = record { not_null = λ e. omega arith; holds = refl }

-- The conversions of floats are not used.
abbrev pub no_floats : Floats
no_floats = record { truncate = λ n. n; truncate_float = λ n. n }

pub wide-IsTensor : IsTensor sample 6 9 (0 ∷ 1 ∷ 2 ∷ 3 ∷ 4 ∷ 5 ∷ 6 ∷ []) (2 ∷ 3 ∷ [])
unfolding exact_length
wide-IsTensor = record {
  not_null = λ e. omega arith;
  holds = refl;
  dimensions = omega arith;
  sized = refl;
  small = omega arith;
}
