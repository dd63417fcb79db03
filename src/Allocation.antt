-- ===== src/Allocation.antt =====
-- runtime/src/allocation.cpp, runtime/src/deletion.cpp and runtime/src/type_checking.cpp: how a
-- program makes and deletes objects, and checks their types.
pub mod Checked
use memoir_cs397_atc.Prelude.{ℕ, Bool, true, not, List, if◌then◌else◌, ◌==◌, ltb, ◌^◌}
use memoir_cs397_atc.Result.{undefined, assert_failed, assert, require}
use memoir_cs397_atc.Types.{
  get_tensor_type, get_assoc_array_type, get_sequence_type, is_object_type, get_code,
}
use memoir_cs397_atc.Types.Equals.{equals}
use memoir_cs397_atc.Objects.{
  Object, struct_object, tensor_object, assoc_array_object, sequence_alloc, sequence_view, Cmd,
  pure, ◌>>=◌, ◌>>◌, lift, load, get_type, delete_object, type_info, types,
}
use memoir_cs397_atc.Assoc.{Argument}
use memoir_cs397_atc.Init.{new_struct, new_tensor, new_assoc_array, new_sequence}
use memoir_cs397_atc.Tensor.Methods.{read_indices}
use memoir_cs397_atc.Sequence.Methods.{make_view}

unfoldable pub allocate_struct : ℕ → ℕ → Cmd ℕ
allocate_struct fuel type = new_struct fuel type

-- The lengths are arguments behind the `...`, counted by an `int`.
unfoldable pub allocate_tensor : ℕ → ℕ → ℕ → List Argument → Cmd ℕ
allocate_tensor fuel element_type num_dimensions args = do
  lift (require (ltb num_dimensions (2 ^ 31)))
  length_of_dimensions ← lift (read_indices num_dimensions args)
  tensor_type ← types (get_tensor_type element_type num_dimensions)
  new_tensor fuel tensor_type length_of_dimensions

unfoldable pub allocate_assoc_array : ℕ → ℕ → Cmd ℕ
allocate_assoc_array key_type value_type = do
  assoc_array_type ← types (get_assoc_array_type key_type value_type)
  new_assoc_array assoc_array_type

unfoldable pub allocate_sequence : ℕ → ℕ → ℕ → Cmd ℕ
allocate_sequence fuel element_type init_size = do
  sequence_type ← types (get_sequence_type element_type)
  new_sequence fuel sequence_type init_size

-- What `sequence_view` does by the class of the collection.
unfoldable pub view_of : ℕ → ℕ → ℕ → Object → Cmd ℕ
view_of p from to (sequence_alloc t xs) = make_view p from to
view_of p from to (sequence_view t s i j) = make_view p from to
view_of p from to (tensor_object t xs ls) = lift assert_failed
view_of p from to (assoc_array_object t m) = lift assert_failed
view_of p from to (struct_object t fs) = lift undefined

-- `MEMOIR_FUNC(sequence_view)`
unfoldable pub allocate_view : ℕ → ℕ → ℕ → Cmd ℕ
allocate_view collection_to_view from to = do
  lift (assert (not (collection_to_view == 0)))
  o ← load collection_to_view
  view_of collection_to_view from to o

-- `delete_struct` and `delete_collection`
unfoldable pub delete_struct : ℕ → Cmd (Unit {0})
delete_struct strct = delete_object strct

unfoldable pub delete_collection : ℕ → Cmd (Unit {0})
delete_collection cllct = delete_object cllct

-- `assert_struct_type` and `assert_collection_type`, which differ in the message only.
unfoldable pub assert_type : ℕ → ℕ → ℕ → Cmd Bool
assert_type fuel type object =
    if object == 0 then (do info ← type_info type; pure (is_object_type (get_code info))) else (do
      o ← load object
      (λ r. lift (equals fuel r.registry type (get_type o)) r) >>= λ same. lift (assert same)
      pure true)

unfoldable pub set_return_type : ℕ → Cmd Bool
set_return_type type = pure true
