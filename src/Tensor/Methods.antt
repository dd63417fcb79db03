-- ===== src/Tensor/Methods.antt =====
-- The methods of `Tensor`, over the elements of its flat vector.
use memoir_cs397_atc.Prelude.{
  ℕ, zero, suc, Bool, true, Option, none, some, List, [], ◌∷◌, length, get_elem?, set, ltb,
}
use memoir_cs397_atc.Result.{Result, ok, undefined, deref, require, ◌>>=◌ as bind}
use memoir_cs397_atc.Objects.{Object, tensor_object, Cmd, pure, ◌>>=◌, ◌>>◌, lift, load, store}
use memoir_cs397_atc.Assoc.{Argument, word64_argument}
use memoir_cs397_atc.Tensor.Index.{flattened_index}

-- The `tensor`, `length_of_dimensions` and type of a `Tensor`.
abbrev pub as_tensor : Object → Option (ℕ × List ℕ × List ℕ)
as_tensor (tensor_object t xs ls) = some (t, xs, ls)
as_tensor o = none

unfoldable pub load_tensor : ℕ → Cmd (ℕ × List ℕ × List ℕ)
load_tensor p = do o ← load p; lift (deref (as_tensor o))

unfoldable pub get_tensor_element : ℕ → List ℕ → Cmd ℕ
get_tensor_element p indices = do
  this ← load_tensor p
  k ← lift (flattened_index this.2 indices)
  lift (deref (get_elem? this.1 k))

unfoldable pub set_tensor_element : ℕ → ℕ → List ℕ → Cmd (Unit {0})
set_tensor_element p value indices = do
  this ← load_tensor p
  k ← lift (flattened_index this.2 indices)
  lift (require (ltb k (length this.1)))
  store p (tensor_object this.0 (set this.1 k value) this.2)

unfoldable pub has_tensor_element : ℕ → List ℕ → Cmd Bool
has_tensor_element p indices = do
  this ← load_tensor p
  k ← lift (flattened_index this.2 indices)
  pure true

-- `va_arg(args, uint64_t)`, as often as there are dimensions.
unfoldable pub read_indices : ℕ → List Argument → Result (List ℕ)
read_indices zero args = ok []
read_indices (suc n) [] = undefined
read_indices (suc n) (a ∷ args) =
    bind (word64_argument a) λ i. bind (read_indices n args) λ is. ok (i ∷ is)

unfoldable pub tensor_get : ℕ → List Argument → Cmd ℕ
tensor_get p args = do
  this ← load_tensor p
  indices ← lift (read_indices (length this.2) args)
  get_tensor_element p indices

unfoldable pub tensor_set : ℕ → ℕ → List Argument → Cmd (Unit {0})
tensor_set p value args = do
  this ← load_tensor p
  indices ← lift (read_indices (length this.2) args)
  set_tensor_element p value indices

unfoldable pub tensor_has : ℕ → List Argument → Cmd Bool
tensor_has p args = do
  this ← load_tensor p
  indices ← lift (read_indices (length this.2) args)
  has_tensor_element p indices

-- The indices are read, and nothing is removed.
unfoldable pub tensor_remove : ℕ → List Argument → Cmd (Unit {0})
tensor_remove p args = do
  this ← load_tensor p
  indices ← lift (read_indices (length this.2) args)
  pure tt

-- `size` of a tensor.
unfoldable pub tensor_size : ℕ → Cmd ℕ
tensor_size p = do this ← load_tensor p; pure 0
