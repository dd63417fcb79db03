-- ===== src/Examples/Sequences.antt =====
-- The theorems on sequences at a small program state.
use memoir_cs397_atc.Prelude.{ℕ, ◌≡◌, arith, inl, length, List, [], ◌∷◌, get_elem?}
use memoir_cs397_atc.Result.{ok}
use memoir_cs397_atc.Objects.{sequence_alloc, new_object, store}
use memoir_cs397_atc.Examples.{
  sample, numbers, numbers-IsAllocation, others-IsAllocation, view-IsSequence,
}
use memoir_cs397_atc.Ssa
use memoir_cs397_atc.Ssa.Swap.Exchange.{origin}
use memoir_cs397_atc.Sequence.Elements.{set-get, with_vector}
use memoir_cs397_atc.Sequence.Methods.{get_sequence_element, set_sequence_element}
use memoir_cs397_atc.Sequence.View.{view-shares, with_view}
use memoir_cs397_atc.Allocation.{allocate_view}
use memoir_cs397_atc.Mut
use memoir_cs397_atc.Mut.Agree.{
  sequence_insert_value-agrees, sequence_insert-agrees, sequence_remove-agrees,
}
use memoir_cs397_atc.Mut.Swap.{sequence_swap_within-agrees}
use memoir_cs397_atc.Mut.Split.{sequence_split-copy, moved}

sequence_insert_value-agrees_example :
    let ys : List ℕ = 10 ∷ 99 ∷ 20 ∷ 30 ∷ 40 ∷ [] in
    (Ssa.sequence_insert_value 99 1 1 sample ≡ new_object (sequence_alloc 5 ys) sample)
    × (Mut.sequence_insert_value 99 1 1 sample ≡ store 1 (sequence_alloc 5 ys) sample)
sequence_insert_value-agrees_example =
    sequence_insert_value-agrees numbers-IsAllocation 99 1 (omega arith) (omega arith)

sequence_insert-agrees_example :
    let zs : List ℕ = 7 ∷ 8 ∷ 20 ∷ 30 ∷ [] in
    (Ssa.sequence_insert 3 2 2 sample ≡ new_object (sequence_alloc 5 zs) sample)
    × (Mut.sequence_insert 3 2 2 sample ≡ store 2 (sequence_alloc 5 zs) sample)
sequence_insert-agrees_example =
    sequence_insert-agrees others-IsAllocation view-IsSequence 2 (omega arith) (λ e. omega arith)
      (omega arith)

sequence_remove-agrees_example :
    let ys : List ℕ = 10 ∷ 40 ∷ [] in
    (Ssa.sequence_remove 1 1 3 sample ≡ new_object (sequence_alloc 5 ys) sample)
    × (Mut.sequence_remove 1 1 3 sample ≡ store 1 (sequence_alloc 5 ys) sample)
sequence_remove-agrees_example =
    sequence_remove-agrees numbers-IsAllocation 1 3 (omega arith) (omega arith)

sequence_swap_within-agrees_example :
    (ys : List ℕ) × (Ssa.sequence_swap_within 1 0 1 3 sample
      ≡ new_object (sequence_alloc 5 ys) sample)
    × (Mut.sequence_swap_within 1 0 1 3 sample ≡ store 1 (sequence_alloc 5 ys) sample)
    × (length ys ≡ 4)
    × ((i : ℕ) → get_elem? ys i ≡ get_elem? numbers (origin 1 0 3 i))
sequence_swap_within-agrees_example =
    sequence_swap_within-agrees numbers-IsAllocation 0 1 3 (omega arith) (omega arith) (omega arith)
      (omega arith) (inl (omega arith))

sequence_split-copy_example :
    (Mut.sequence_split 1 1 3 sample ≡ moved numbers-IsAllocation 1 3 sample)
    × (Ssa.sequence_copy 1 1 3 sample ≡ moved numbers-IsAllocation 1 3 sample)
sequence_split-copy_example =
    sequence_split-copy numbers-IsAllocation 1 3 (omega arith) (omega arith)

set-get_example :
    let r' = with_vector sample 1 5 (10 ∷ 20 ∷ 99 ∷ 40 ∷ []) in
    (x : ℕ) × (get_sequence_element 3 0 sample ≡ ok (x, sample))
    × (set_sequence_element 3 99 1 sample ≡ ok (tt, r'))
    × (get_sequence_element 3 0 r' ≡ ok (x, r'))
set-get_example = set-get view-IsSequence 99 1 0 (omega arith) (omega arith)

view-shares_example :
    let r1 = with_view view-IsSequence 1 2 in
    let r2 = with_vector r1 1 5 (10 ∷ 20 ∷ 99 ∷ 40 ∷ []) in
    (x : ℕ) × (allocate_view 3 1 2 sample ≡ ok (9, r1))
    × (get_sequence_element 3 1 r1 ≡ ok (x, r1))
    × (set_sequence_element 9 99 0 r1 ≡ ok (tt, r2))
    × (get_sequence_element 3 1 r2 ≡ ok (99, r2))
view-shares_example =
    view-shares view-IsSequence 1 2 99 0 1 (omega arith) (omega arith) (omega arith) (omega arith)
      (omega arith) (omega arith)
