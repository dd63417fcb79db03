-- ===== src/Examples/Made.antt =====
-- The theorems on types, new objects and tensors at a small program state.
use memoir_cs397_atc.Prelude.{ℕ, ◌≡◌, ◌<◌, ◌≤◌, ◌⊎◌, refl, List, length, some, arith, true, [], ◌∷◌}
use memoir_cs397_atc.Result.{ok}
use memoir_cs397_atc.Types.{
  define_struct_type, float_address, sequence_type, get_sequence_type, initial,
}
use memoir_cs397_atc.Types.WellFormed.{IsRegistry}
use memoir_cs397_atc.Types.Calls.{
  here, next, sequence, define, Calls-initial-IsRegistry, initial-IsRegistry,
}
use memoir_cs397_atc.Objects.{Runtime, sequence_alloc, start, types}
use memoir_cs397_atc.Allocation.{allocate_sequence, assert_type}
use memoir_cs397_atc.Allocation.Checked.{with_type, allocate_sequence-checked}
use memoir_cs397_atc.Examples.{sample, wide-IsTensor}
use memoir_cs397_atc.Init.{init_element}
use memoir_cs397_atc.Init.Builds.{Grows}
use memoir_cs397_atc.Init.Total.{init_element-total}
use memoir_cs397_atc.Tensor.Index.{flattened_index, exact_index}
use memoir_cs397_atc.Tensor.Alias.{NonIncreasing, flattened_index-alias}
use memoir_cs397_atc.Tensor.Elements.{
  with_elements, set_tensor_element-get, set_tensor_element-alias,
}
use memoir_cs397_atc.Tensor.Methods.{get_tensor_element, set_tensor_element}

-- Sequences of floats, and a struct of a float and such a sequence.
Calls-initial-IsRegistry_example :
    IsRegistry (define_struct_type 9 (1 ∷ 4 ∷ []) (get_sequence_type 1 initial).1).1
unfolding initial get_sequence_type
Calls-initial-IsRegistry_example =
    Calls-initial-IsRegistry
      (next (next here (sequence 1 refl)) (define 9 (1 ∷ 4 ∷ []) (refl, (refl, tt))))

-- Three floats, in a fresh program.
allocate_sequence-checked_example :
    let t = (get_sequence_type float_address initial).0 in
    (p : ℕ) × (xs : List ℕ) × (r' : Runtime) × (allocate_sequence 2 float_address 3 start
      ≡ ok (p, r'))
    × (0 < p)
    × (1 ≤ p)
    × (r'.objects p ≡ some (sequence_alloc t xs))
    × (length xs ≡ 3)
    × (r'.registry.info t ≡ some (sequence_type float_address))
    × Grows (with_type start float_address) r'
    × (types (get_sequence_type float_address) r' ≡ ok (t, r'))
    × (assert_type 1 t p r' ≡ ok (true, r'))
unfolding start get_sequence_type initial
allocate_sequence-checked_example =
    allocate_sequence-checked start float_address 0 1 3 initial-IsRegistry refl (omega arith)
      (omega arith) (omega arith) tt

-- A struct of an integer, a sequence and a struct of two integers.
init_element-total_example :
    (p : ℕ) × (r' : Runtime) × (init_element 5 12 sample ≡ ok (p, r')) × Grows sample r'
init_element-total_example =
    init_element-total sample 2 5 12 (omega arith) (tt, (tt, ((tt, (tt, tt)), tt)))

flattened_index-alias_example :
    flattened_index (2 ∷ 3 ∷ []) (0 ∷ 2 ∷ []) ≡ flattened_index (2 ∷ 3 ∷ []) (1 ∷ 0 ∷ [])
flattened_index-alias_example =
    flattened_index-alias 2 3 0 0 (omega arith) (omega arith) (omega arith)

-- In a tensor of 2 and 3 elements, where the second dimension is the longer one.
set_tensor_element-get_example :
    let r' = with_elements sample 6 9 (0 ∷ 1 ∷ 99 ∷ 3 ∷ 4 ∷ 5 ∷ 6 ∷ []) (2 ∷ 3 ∷ []) in
    (x : ℕ) × (set_tensor_element 6 99 (0 ∷ 2 ∷ []) sample ≡ ok (tt, r'))
    × (get_tensor_element 6 (0 ∷ 2 ∷ []) r' ≡ ok (99, r'))
    × (get_tensor_element 6 (1 ∷ 1 ∷ []) sample ≡ ok (x, sample))
    × ((get_tensor_element 6 (1 ∷ 1 ∷ []) r' ≡ ok (x, r'))
        ⊎ (get_tensor_element 6 (1 ∷ 1 ∷ []) r' ≡ ok (99, r'))
          × (◌≡◌ {A = List ℕ} (0 ∷ 2 ∷ []) (1 ∷ 1 ∷ []) ⊎ ¬ NonIncreasing 2 (3 ∷ [])))
unfolding exact_index
set_tensor_element-get_example =
    set_tensor_element-get wide-IsTensor (0 ∷ 2 ∷ []) (1 ∷ 1 ∷ []) 99 (omega arith) (omega arith)

set_tensor_element-alias_example :
    let r' = with_elements sample 6 9 (0 ∷ 1 ∷ 99 ∷ 3 ∷ 4 ∷ 5 ∷ 6 ∷ []) (2 ∷ 3 ∷ []) in
    (set_tensor_element 6 99 (0 ∷ 2 ∷ []) sample ≡ ok (tt, r'))
    × (get_tensor_element 6 (1 ∷ 0 ∷ []) r' ≡ ok (99, r'))
unfolding exact_index
set_tensor_element-alias_example =
    set_tensor_element-alias wide-IsTensor 0 0 99 (omega arith) (omega arith)
