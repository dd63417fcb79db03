-- ===== src/Mut.antt =====
-- runtime/src/mut_operations.cpp: the operations of the lowered form, which change a collection.
pub mod Agree
pub mod Split
pub mod Append
pub mod Swap
pub mod Keyed
use memoir_cs397_atc.Prelude.{
  ℕ, ◌+◌, ◌^◌, not, Option, none, some, List, [], ◌∷◌, ◌++◌, if◌then◌else◌, ◌==◌, ◌&&◌, ltb, leb,
  length, take, drop,
}
use memoir_cs397_atc.Words.{add64, sub64}
use memoir_cs397_atc.Result.{Result, ok, undefined, assert, require}
use memoir_cs397_atc.Types.{sequence_ty}
use memoir_cs397_atc.Objects.{
  sequence_alloc, Cmd, pure, ◌>>=◌, ◌>>◌, lift, new_object, type_check, access_check, delete_object,
}
use memoir_cs397_atc.Sequence.Iterators.{
  begin, end, plus, between, resize, write_at, vector, set_vector,
}
use memoir_cs397_atc.Sequence.Methods.{size, insert, insert_sequence, erase, grow}
use memoir_cs397_atc.Ssa.{type_of}
use memoir_cs397_atc.Ssa.Swap.{swap_vectors, swap_in_vector}

unfoldable pub sequence_insert_value : ℕ → ℕ → ℕ → Cmd (Unit {0})
sequence_insert_value value collection index = do
  access_check collection
  type_check collection sequence_ty
  insert collection index value

unfoldable pub sequence_insert : ℕ → ℕ → ℕ → Cmd (Unit {0})
sequence_insert collection_to_insert collection insertion_point = do
  access_check collection
  access_check collection_to_insert
  type_check collection sequence_ty
  type_check collection_to_insert sequence_ty
  insert_sequence collection insertion_point collection_to_insert

unfoldable pub sequence_remove : ℕ → ℕ → ℕ → Cmd (Unit {0})
sequence_remove collection begin_index end_index = do
  access_check collection
  type_check collection sequence_ty
  erase collection begin_index end_index

-- `std::copy` of one range of iterators to another: writing past the end of the vector is
-- undefined, and so is a target within the source.
unfoldable pub copy_range : ℕ × ℕ → ℕ × ℕ → ℕ × ℕ → Cmd (Unit {0})
copy_range first last (s, k) = do
  elements ← between first last
  lift (require (not ((first.0 == s) && leb first.1 k && ltb k last.1)))
  target ← vector s
  written ← lift (write_at target k elements)
  set_vector s written

unfoldable pub sequence_append : ℕ → ℕ → Cmd (Unit {0})
sequence_append collection collection_to_append = do
  access_check collection
  type_check collection sequence_ty
  type_check collection_to_append sequence_ty
  size1 ← size collection
  size2 ← size collection_to_append
  grow collection size2
  first ← begin collection_to_append
  last ← end collection_to_append
  start ← begin collection
  there ← plus start size1
  copy_range first last there
  delete_object collection_to_append

-- The loop over two iterators, each in the vector of its owner. Its counter is an `int`, which may not
-- overflow.
unfoldable pub swap_ranges : ℕ → ℕ × ℕ → ℕ × ℕ → Cmd (Unit {0})
swap_ranges m (s1, k1) (s2, k2) = do
  lift (require (ltb m (2 ^ 31)))
  if s1 == s2
      then (do xs ← vector s1; swapped ← lift (swap_in_vector m k1 k2 xs); set_vector s1 swapped)
      else (do
        xs ← vector s1
        ys ← vector s2
        swapped ← lift (swap_vectors m k1 xs k2 ys)
        set_vector s1 swapped.0
        set_vector s2 swapped.1)

unfoldable pub sequence_swap : ℕ → ℕ → ℕ → ℕ → ℕ → Cmd (Unit {0})
sequence_swap collection i j collection2 i2 = do
  access_check collection
  type_check collection sequence_ty
  type_check collection2 sequence_ty
  lift (assert (leb i j))
  let m = sub64 j i
  n2 ← size collection2
  lift (assert (leb (add64 i2 m) n2))
  start1 ← begin collection
  it1 ← plus start1 i
  start2 ← begin collection2
  it2 ← plus start2 i2
  swap_ranges m it1 it2

unfoldable pub sequence_swap_within : ℕ → ℕ → ℕ → ℕ → Cmd (Unit {0})
sequence_swap_within collection i j i2 = do
  access_check collection
  type_check collection sequence_ty
  lift (assert (leb i j))
  let m = sub64 j i
  n ← size collection
  lift (assert (leb (add64 i2 m) n))
  start ← begin collection
  it1 ← plus start i
  it2 ← plus start i2
  swap_ranges m it1 it2

unfoldable pub sequence_split : ℕ → ℕ → ℕ → Cmd ℕ
sequence_split collection i j = do
  access_check collection
  type_check collection sequence_ty
  seq_type ← type_of collection
  lift (assert (leb i j))
  new_container ← lift (resize (sub64 j i) [])
  start ← begin collection
  first ← plus start i
  last ← plus start j
  moved ← between first last
  new_container ← lift (write_at new_container 0 moved)
  erase collection i j
  new_object (sequence_alloc seq_type new_container)
