-- ===== src/Backend/Vector.antt =====
-- runtime/backend/vector/vector.h: the vectors of the two macros, which differ in how an element is
-- read. The storage behind the header is a list of cells as long as `_max_size`; a cell that was not
-- written yet is `none`. An access outside the storage is undefined. The vectors of `insert` and
-- `insert_range` are two different ones. That `malloc` finds no memory is not modelled.
pub mod Valid
pub mod Remove
pub mod Insert
pub mod Grow
pub mod Range
pub mod Allocate
use Prim.Native.Nat.{bit_or}
use memoir_cs397_atc.Prelude.{
  ℕ, ◌+◌, ◌-◌, ◌*◌, ◌/◌, ◌%◌, ◌^◌, Option, none, some, List, [], ◌∷◌, ◌++◌, if◌then◌else◌, ◌==◌,
  ltb, leb, length, get_elem?, set, take, replicate,
}
use memoir_cs397_atc.Words.{u64_mod, add64, sub64}
use memoir_cs397_atc.Std.Vector.{slice, copy_to}
use memoir_cs397_atc.Result.{Result, ok, undefined, deref, ◌>>=◌}
use memoir_cs397_atc.Ssa.Swap.{swap_in_vector}

-- How elements lie in memory: `sizeof(C_TYPE)`, and the first bytes of one written over another.
pub record Layout (A : Type 0) : Type 0 where
  pub element_size : ℕ
  pub overlay : ℕ → Option A → Option A → Option A

pub record Vector (A : Type 0) : Type 0 where
  pub front : ℕ
  pub back : ℕ
  pub max_size : ℕ
  pub storage : List (Option A)

-- `next_pow_2 |= next_pow_2 >> k`
unfoldable pub smear : ℕ → ℕ → ℕ
smear k n = bit_or n (n / 2 ^ k)

-- The six of them, then `next_pow_2++`.
unfoldable pub next_pow_2 : ℕ → ℕ
next_pow_2 n = add64 (smear 32 (smear 16 (smear 8 (smear 4 (smear 2 (smear 1 n)))))) 1

module _ {A : Type 0} where
  unfoldable pub allocate : ℕ → Vector A
  allocate n =
      let size = next_pow_2 (sub64 n 1) in
      let front = sub64 size n / 2 in
      record { front = front; back = add64 front n; max_size = size; storage = replicate size none }

  unfoldable pub size : Vector A → ℕ
  size v = sub64 v.back v.front

  -- An element that was never written may not be used.
  unfoldable pub read : Vector A → ℕ → Result A
  read v index = do cell ← deref (get_elem? v.storage (add64 v.front index)); deref cell

  unfoldable pub write_cell : List (Option A) → ℕ → A → Result (List (Option A))
  write_cell storage i value =
      if ltb i (length storage) then ok (set storage i (some value)) else undefined

  unfoldable pub write : Vector A → ℕ → A → Result (Vector A)
  unfolding write_cell
  write v index value = do
    storage ← write_cell v.storage (add64 v.front index) value
    ok (record v { storage = storage })

  -- `memcpy` and `memmove` of `n` elements from the place `i` of a storage.
  unfoldable pub copy_cells :
      List (Option A) → ℕ → List (Option A) → ℕ → ℕ → Result (List (Option A))
  copy_cells target k source i n =
      if leb (i + n) (length source)
      then deref (copy_to target k (slice i (i + n) source))
      else undefined

  -- `memmove` of bytes within a storage, of which the last ones may be a part of an element.
  unfoldable pub move_bytes : Layout A → List (Option A) → ℕ → ℕ → ℕ → Result (List (Option A))
  unfolding copy_cells
  move_bytes layout storage k i bytes = do
    let whole = bytes / layout.element_size
    let part = bytes % layout.element_size
    moved ← copy_cells storage k storage i whole
    if part == 0 then ok moved else (do
      x ← deref (get_elem? storage (i + whole))
      y ← deref (get_elem? moved (k + whole))
      ok (set moved (k + whole) (layout.overlay part x y)))

  unfoldable pub remove : Layout A → Vector A → ℕ → ℕ → Result (Vector A)
  remove layout v from to =
      let current_size = sub64 v.back v.front in
      let removal_size = sub64 to from in
      if to == current_size
      then ok (record v { back = sub64 v.back removal_size })
      else if from == 0
      then ok (record v { front = add64 v.front removal_size })
      else let remove_front = from in
        let remove_back = sub64 current_size to in
        if ltb remove_back remove_front
        then (do
          storage ←
              move_bytes layout v.storage (add64 v.front from) (sub64 v.back (sub64 from to))
                remove_back
          ok (record v { storage = storage; back = sub64 v.back removal_size }))
        else (do
          storage ←
              copy_cells v.storage (sub64 (add64 v.front to) from) v.storage v.front remove_front
          ok (record v { storage = storage; front = add64 v.front removal_size }))

  -- `realloc`
  unfoldable pub reallocate : Vector A → ℕ → Vector A
  reallocate v new_size = record v {
    max_size = new_size;
    storage = take new_size v.storage ++ replicate (new_size - v.max_size) none;
  }

  -- The header of the new vector, when it grows at its front.
  unfoldable pub recentre : Vector A → ℕ → ℕ → Vector A
  recentre v new_size size_after_insert =
      let front = add64 v.front (sub64 new_size size_after_insert / 2) in
      record {
        front = front;
        back = add64 front size_after_insert;
        max_size = new_size;
        storage = replicate new_size none;
      }

  -- The copy of what lies before the insertion.
  unfoldable pub copy_before : Vector A → Vector A → ℕ → Result (List (Option A))
  unfolding copy_cells
  copy_before new v start =
      if ltb 0 start
      then copy_cells new.storage new.front v.storage v.front start
      else ok new.storage

  module _ (v : Vector A) (start : ℕ) (value : A) where
    unfoldable pub element_in_place : Vector A → Result (Vector A)
    unfolding copy_cells write_cell
    element_in_place w = do
      let start_idx = add64 w.front start
      storage ←
          if ltb start_idx w.back
          then copy_cells w.storage (add64 start_idx 1) w.storage start_idx (sub64 (size w) start)
          else ok w.storage
      storage ← write_cell storage start_idx value
      ok (record w { storage = storage; back = add64 w.back 1 })

    unfoldable pub element_in_new : Vector A → Result (Vector A)
    unfolding copy_before copy_cells write_cell
    element_in_new w = do
      storage ← copy_before w v start
      let current_idx = if ltb 0 start then add64 w.front start else w.front
      storage ← write_cell storage current_idx value
      storage ←
          copy_cells storage (add64 current_idx 1) v.storage (add64 v.front start)
            (sub64 (size v) start)
      ok (record w { storage = storage })

    unfoldable pub insert_element : Result (Vector A)
    unfolding element_in_place element_in_new reallocate recentre size
    insert_element =
        let size_after_insert = add64 (size v) 1 in
        let new_size = v.max_size * 2 % u64_mod in
        if ltb v.max_size size_after_insert
        then if ltb 0 start
          then element_in_place (reallocate v new_size)
          else element_in_new (recentre v new_size size_after_insert)
        else element_in_place v

  module _ (v : Vector A) (start : ℕ) (vec2 : Vector A) (from to : ℕ) where
    -- The elements of `vec2` are read from the place `_front` of `vec`.
    unfoldable pub range_in_place : Vector A → Result (Vector A)
    unfolding copy_cells
    range_in_place w = do
      let insert_size = sub64 to from
      let start_idx = add64 w.front start
      storage ←
          copy_cells w.storage (add64 start_idx insert_size) w.storage start_idx
            (sub64 (size w) start)
      storage ← copy_cells storage start_idx vec2.storage w.front insert_size
      ok (record w { storage = storage; back = add64 w.back insert_size })

    unfoldable pub range_in_new : Vector A → Result (Vector A)
    unfolding copy_before copy_cells
    range_in_new w = do
      let insert_size = sub64 to from
      storage ← copy_before w v start
      let current_idx = if ltb 0 start then add64 w.front start else w.front
      storage ← copy_cells storage current_idx vec2.storage (add64 vec2.front from) insert_size
      storage ←
          copy_cells storage (add64 current_idx insert_size) v.storage (add64 v.front start)
            (sub64 (size v) start)
      ok (record w { storage = storage })

    unfoldable pub insert_range : Result (Vector A)
    unfolding range_in_place range_in_new reallocate recentre size
    insert_range =
        let size_after_insert = add64 (size v) (sub64 to from) in
        let new_size = next_pow_2 size_after_insert in
        if ltb v.max_size size_after_insert
        then if ltb 0 start
          then range_in_place (reallocate v new_size)
          else range_in_new (recentre v new_size size_after_insert)
        else range_in_place v

  unfoldable pub insert : Vector A → ℕ → Vector A → Result (Vector A)
  insert v start vec2 = insert_range v start vec2 0 (sub64 vec2.back vec2.front)

  unfoldable pub swap : Vector A → ℕ → ℕ → ℕ → Result (Vector A)
  swap v from to start = do
    storage ← swap_in_vector (sub64 to from) (add64 start v.front) (add64 from v.front) v.storage
    ok (record v { storage = storage })
