-- ===== src/Ssa/Swap.antt =====
-- The loops of `sequence_swap` and `sequence_swap_within`, in both runtime/src/ssa_operations.cpp
-- and runtime/src/mut_operations.cpp: `std::swap` of the elements at two iterators that step on
-- together. An element behind the end may not be touched.
pub mod Exchange
use memoir_cs397_atc.Prelude.{ℕ, zero, suc, ◌+◌, Option, none, some, List, get_elem?, set}
use memoir_cs397_atc.Result.{Result, ok, deref, ◌>>=◌}

-- Two vectors.
unfoldable pub swap_vectors : {A : Type 0} → ℕ → ℕ → List A → ℕ → List A → Result (List A × List A)
swap_vectors zero k1 xs k2 ys = ok (xs, ys)
swap_vectors (suc m) k1 xs k2 ys = do
  x ← deref (get_elem? xs k1)
  y ← deref (get_elem? ys k2)
  swap_vectors m (suc k1) (set xs k1 y) (suc k2) (set ys k2 x)

-- Two positions of one vector.
unfoldable pub swap_in_vector : {A : Type 0} → ℕ → ℕ → ℕ → List A → Result (List A)
swap_in_vector zero k1 k2 xs = ok xs
swap_in_vector (suc m) k1 k2 xs = do
  x ← deref (get_elem? xs k1)
  y ← deref (get_elem? xs k2)
  swap_in_vector m (suc k1) (suc k2) (set (set xs k1 y) k2 x)
