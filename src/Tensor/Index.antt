-- ===== src/Tensor/Index.antt =====
-- The position of an element in the flat vector of a tensor, as `get_tensor_element`,
-- `set_tensor_element` and `has_tensor_element` of runtime/src/detail/collections.cpp compute it in
-- an `int`, and the length that the constructor gives to that vector.
use memoir_cs397_atc.Prelude.{ℕ, ◌+◌, ◌*◌, List, [], ◌∷◌, ltb}
use memoir_cs397_atc.Words.{add64, to_int, widen_int, mul_int}
use memoir_cs397_atc.Result.{Result, ok, undefined, assert, deref, ◌>>=◌, ◌>>◌}

-- The loop over the dimensions; the state is `flattened_index` and `last_dimension_length`.
unfoldable pub index_loop : List ℕ → List ℕ → ℕ → ℕ → Result ℕ
index_loop [] is flattened_index last = ok flattened_index
index_loop (d ∷ ds) [] flattened_index last = undefined
index_loop (d ∷ ds) (i ∷ is) flattened_index last = do
  assert (ltb i d)
  product ← deref (mul_int flattened_index last)
  index_loop ds is (to_int (add64 (widen_int product) i)) (to_int d)

-- The loop of the constructor; the state is `flattened_length` and `last_dimension_length`.
unfoldable pub length_loop : List ℕ → ℕ → ℕ → Result ℕ
length_loop [] flattened_length last = ok flattened_length
length_loop (d ∷ ds) flattened_length last = do
  product ← deref (mul_int flattened_length last)
  length_loop ds (to_int (add64 (widen_int product) d)) (to_int d)

unfoldable pub flattened_index : List ℕ → List ℕ → Result ℕ
unfolding index_loop
flattened_index lengths indices = index_loop lengths indices 0 1 >>= λ p. ok (widen_int p)

unfoldable pub flattened_length : List ℕ → Result ℕ
unfolding length_loop
flattened_length lengths = length_loop lengths 0 1 >>= λ p. ok (widen_int p)

-- The same without machine words.
unfoldable pub exact_index : List ℕ → List ℕ → ℕ → ℕ → ℕ
exact_index [] is f last = f
exact_index (d ∷ ds) [] f last = f
exact_index (d ∷ ds) (i ∷ is) f last = exact_index ds is (f * last + i) d

unfoldable pub exact_length : List ℕ → ℕ → ℕ → ℕ
exact_length [] f last = f
exact_length (d ∷ ds) f last = exact_length ds (f * last + d) d
