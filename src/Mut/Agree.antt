-- ===== src/Mut/Agree.antt =====
-- The operations that change a collection leave in it what the SSA operations return.
use memoir_cs397_atc.Prelude.{ℕ, ◌+◌, ◌-◌, ◌≤◌, ◌<◌, ◌≡◌, ◌≢◌, List, [], ◌∷◌, arith, length}
use native.Mathlib.Nat.{zero-add}
use memoir_cs397_atc.Words.{max_size}
use memoir_cs397_atc.Std.Vector.{slice, insert_range, erase_range, slice-all}
use memoir_cs397_atc.Objects.{sequence_alloc, Runtime, new_object, store}
use memoir_cs397_atc.Sequence.Valid.{IsSequence, access_check-ok, type_check-ok}
use memoir_cs397_atc.Sequence.Mutate.{insert-ok, insert_sequence-ok, erase-ok}
use memoir_cs397_atc.Ssa
use memoir_cs397_atc.Ssa.Insert.{position, sequence_insert_value_lem}
use memoir_cs397_atc.Ssa.Splice.{sequence_insert_lem, sequence_remove_lem}
use memoir_cs397_atc.Mut.{sequence_insert_value, sequence_insert, sequence_remove}

-- A `SequenceAlloc` with its whole vector.
abbrev pub IsAllocation : Runtime → ℕ → ℕ → List ℕ → Type 0
IsAllocation r p t xs = IsSequence r p t p 0 (length xs) xs

-- An index of the collection is none that stands for the end.
pub position-small : (n k : ℕ) → k ≤ max_size → position n k ≡ k
position-small n k h = ground arith

module _ {r : Runtime} {p t : ℕ} {xs : List ℕ} (v : IsAllocation r p t xs) where
  pub in_place : (k : ℕ) → k ≤ length xs → position (length xs - 0) k ≡ k
  in_place k h = position-small (length xs - 0) k (omega (arith, v.fits))

  -- For an index up to the size of a collection that is not full, the SSA insertion of a value
  -- returns a new collection with exactly the elements that the lowered insertion leaves in the
  -- given one, and neither changes another object.
  pub sequence_insert_value-agrees :
      (value k : ℕ)
      → k ≤ length xs
      → length xs < max_size
      → let ys = insert_range k (value ∷ []) xs in
        (Ssa.sequence_insert_value value p k r ≡ new_object (sequence_alloc t ys) r)
        × (sequence_insert_value value p k r ≡ store p (sequence_alloc t ys) r)
  unfolding sequence_insert_value
  sequence_insert_value-agrees value k h room = (
    rw (
      sequence_insert_value_lem v value k (rw (in_place k h) (omega arith)) (omega arith),
      in_place k h,
      slice-all xs,
    ),
    rw (access_check-ok v, type_check-ok v, insert-ok v k value (omega arith) room, zero-add k),
  )

  -- For an index up to the size and a sequence whose elements lie in another vector, with room for
  -- both, the SSA insertion of the sequence returns a new collection with exactly the elements
  -- that the lowered insertion leaves in the given one.
  pub sequence_insert-agrees :
      {q u o a b : ℕ} {ys : List ℕ}
      → IsSequence r q u o a b ys
      → (k : ℕ) → k ≤ length xs
      → o ≢ p
      → length xs + (b - a) ≤ max_size
      → let zs = insert_range k (slice a b ys) xs in
        (Ssa.sequence_insert q p k r ≡ new_object (sequence_alloc t zs) r)
        × (sequence_insert q p k r ≡ store p (sequence_alloc t zs) r)
  unfolding sequence_insert
  sequence_insert-agrees w k h apart room = (
    rw (
      sequence_insert_lem v w k (rw (in_place k h) (omega arith)) (omega arith),
      in_place k h,
      slice-all xs,
    ),
    rw (
      access_check-ok v,
      access_check-ok w,
      type_check-ok v,
      type_check-ok w,
      insert_sequence-ok v w k (omega arith) apart room,
      zero-add k,
    ),
  )

  -- For two indices in order within a collection, the SSA removal of the range between them
  -- returns a new collection with exactly the elements that the lowered removal leaves in the
  -- given one.
  pub sequence_remove-agrees :
      (a b : ℕ)
      → a ≤ b
      → b ≤ length xs
      → let ys = erase_range a b xs in
        (Ssa.sequence_remove p a b r ≡ new_object (sequence_alloc t ys) r)
        × (sequence_remove p a b r ≡ store p (sequence_alloc t ys) r)
  unfolding sequence_remove
  sequence_remove-agrees a b h k = (
    rw (
      sequence_remove_lem v a b (rw (in_place a (omega arith)) (omega arith))
          (rw (in_place b k) (omega arith))
          (rw (in_place a (omega arith), in_place b k) (omega (arith, v.fits))),
      in_place a (omega arith),
      in_place b k,
      slice-all xs,
    ),
    rw (access_check-ok v, type_check-ok v, erase-ok v a b h (omega arith), zero-add a, zero-add b),
  )
