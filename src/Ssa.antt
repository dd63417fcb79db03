-- ===== src/Ssa.antt =====
-- runtime/src/ssa_operations.cpp: the operations of the SSA form, which return a new collection.
-- A new collection is made by `new SequenceAlloc(seq_type, …)`, and the vector is the function's own.
pub mod Swap
pub mod Insert
pub mod Splice
pub mod Keyed
use memoir_cs397_atc.Prelude.{
  ℕ, ◌+◌, ◌^◌, Bool, not, Option, none, some, List, [], ◌∷◌, ◌++◌, if◌then◌else◌, ◌==◌, ltb, leb,
  length, set, replicate,
}
use memoir_cs397_atc.Words.{add64, sub64, max_u64}
use memoir_cs397_atc.Result.{Result, ok, thrown, undefined, assert, require}
use memoir_cs397_atc.Types.{sequence_ty}
use memoir_cs397_atc.Objects.{
  sequence_alloc, Cmd, pure, ◌>>=◌, ◌>>◌, lift, load, get_type, new_object, type_check,
  access_check,
}
use memoir_cs397_atc.Sequence.Iterators.{
  begin, end, plus, between, resize, write_at, advance, read_range,
}
use memoir_cs397_atc.Sequence.Methods.{size, erase}
use memoir_cs397_atc.Sequence.Join.{elements_of}
use Swap.{swap_vectors, swap_in_vector}

-- `defPHI`, `usePHI`, `argPHI` and `retPHI`.
unfoldable pub def_phi : ℕ → Cmd ℕ
def_phi collection = pure collection

unfoldable pub use_phi : ℕ → Cmd ℕ
use_phi collection = pure collection

unfoldable pub arg_phi : ℕ → Cmd ℕ
arg_phi collection = pure collection

unfoldable pub ret_phi : ℕ → Cmd ℕ
ret_phi collection = pure collection

-- `MEMOIR_FUNC(end)()` as an index stands for the size.
unfoldable pub resolve : ℕ → ℕ → Cmd ℕ
resolve p i = if i == max_u64 then size p else pure i

unfoldable pub type_of : ℕ → Cmd ℕ
type_of p = do o ← load p; pure (get_type o)

unfoldable pub sequence_copy : ℕ → ℕ → ℕ → Cmd ℕ
sequence_copy collection i j = do
  access_check collection
  type_check collection sequence_ty
  seq_type ← type_of collection
  i ← resolve collection i
  j ← resolve collection j
  lift (assert (leb i j))
  new_container ← lift (resize (sub64 j i) [])
  start ← begin collection
  first ← plus start i
  last ← plus start j
  copied ← between first last
  new_container ← lift (write_at new_container 0 copied)
  erase collection i j
  new_object (sequence_alloc seq_type new_container)

-- The value is the `uint64_t` that the argument is converted to.
unfoldable pub sequence_insert_value : ℕ → ℕ → ℕ → Cmd ℕ
sequence_insert_value value collection index = do
  access_check collection
  type_check collection sequence_ty
  seq_type ← type_of collection
  index ← resolve collection index
  n ← size collection
  new_container ← lift (resize (add64 n 1) [])
  start ← begin collection
  middle ← plus start index
  before ← between start middle
  new_container ← lift (write_at new_container 0 before)
  lift (require (ltb index (length new_container)))
  let new_container = set new_container index value
  stop ← end collection
  after ← between middle stop
  behind ← lift (advance new_container 0 (add64 index 1))
  new_container ← lift (write_at new_container behind after)
  new_object (sequence_alloc seq_type new_container)

unfoldable pub sequence_insert : ℕ → ℕ → ℕ → Cmd ℕ
sequence_insert collection_to_insert collection index = do
  access_check collection
  access_check collection_to_insert
  type_check collection sequence_ty
  type_check collection_to_insert sequence_ty
  seq_type ← type_of collection
  index ← resolve collection index
  n ← size collection
  m ← size collection_to_insert
  new_container ← lift (resize (add64 n m) [])
  start ← begin collection
  middle ← plus start index
  before ← between start middle
  new_container ← lift (write_at new_container 0 before)
  inserted ← elements_of collection_to_insert
  there ← lift (advance new_container 0 index)
  new_container ← lift (write_at new_container there inserted)
  stop ← end collection
  after ← between middle stop
  behind ← lift (advance new_container there m)
  new_container ← lift (write_at new_container behind after)
  new_object (sequence_alloc seq_type new_container)

unfoldable pub sequence_remove : ℕ → ℕ → ℕ → Cmd ℕ
sequence_remove collection begin_index end_index = do
  access_check collection
  type_check collection sequence_ty
  seq_type ← type_of collection
  begin_index ← resolve collection begin_index
  end_index ← resolve collection end_index
  n ← size collection
  new_container ← lift (resize (sub64 n (sub64 end_index begin_index)) [])
  start ← begin collection
  until ← plus start begin_index
  before ← between start until
  new_container ← lift (write_at new_container 0 before)
  again ← plus start end_index
  stop ← end collection
  after ← between again stop
  there ← lift (advance new_container 0 begin_index)
  new_container ← lift (write_at new_container there after)
  new_object (sequence_alloc seq_type new_container)

unfoldable pub sequence_swap : ℕ → ℕ → ℕ → ℕ → ℕ → Cmd (ℕ × ℕ)
sequence_swap collection i j collection2 i2 = do
  access_check collection
  type_check collection sequence_ty
  type_check collection2 sequence_ty
  seq_type ← type_of collection
  i ← resolve collection i
  j ← resolve collection j
  i2 ← resolve collection2 i2
  lift (assert (leb i j))
  let m = sub64 j i
  n2 ← size collection2
  lift (assert (leb (add64 i2 m) n2))
  new1 ← elements_of collection
  new2 ← elements_of collection2
  k1 ← lift (advance new1 0 i)
  k2 ← lift (advance new2 0 i2)
  lift (require (ltb m (2 ^ 31)))
  swapped ← lift (swap_vectors m k1 new1 k2 new2)
  first ← new_object (sequence_alloc seq_type swapped.0)
  second ← new_object (sequence_alloc seq_type swapped.1)
  pure (first, second)

unfoldable pub sequence_swap_within : ℕ → ℕ → ℕ → ℕ → Cmd ℕ
sequence_swap_within collection from_begin from_end to_begin = do
  access_check collection
  type_check collection sequence_ty
  seq_type ← type_of collection
  from_begin ← resolve collection from_begin
  from_end ← resolve collection from_end
  to_begin ← resolve collection to_begin
  lift (assert (leb from_begin from_end))
  let m = sub64 from_end from_begin
  n ← size collection
  lift (assert (leb (add64 to_begin m) n))
  new_container ← lift (resize n [])
  elements ← elements_of collection
  new_container ← lift (write_at new_container 0 elements)
  k1 ← lift (advance new_container 0 from_begin)
  k2 ← lift (advance new_container 0 to_begin)
  lift (require (ltb m (2 ^ 31)))
  new_container ← lift (swap_in_vector m k1 k2 new_container)
  new_object (sequence_alloc seq_type new_container)
