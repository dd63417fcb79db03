-- ===== src/Collection.antt =====
-- The virtual methods of `Collection`, by the class of the object. The arguments behind the `...` are
-- a list.
pub mod Free
use memoir_cs397_atc.Prelude.{
  ℕ, zero, suc, Bool, true, Option, none, some, List, [], ◌∷◌, length, ltb,
}
use memoir_cs397_atc.Result.{Result, ok, undefined, assert_failed, deref, require}
use memoir_cs397_atc.Objects.{
  Object, struct_object, tensor_object, assoc_array_object, sequence_alloc, sequence_view, Cmd,
  pure, ◌>>=◌, ◌>>◌, lift, load,
}
use memoir_cs397_atc.Assoc.{
  Argument, Floats, word64_argument, get_element, set_element, has_element, remove_element,
  assoc_size,
}
use memoir_cs397_atc.Sequence.Methods.{
  size, get_sequence_element, set_sequence_element, has_sequence_element, get_sequence_slice,
}
use memoir_cs397_atc.Sequence.Join.{join}
use memoir_cs397_atc.Tensor.Methods.{tensor_get, tensor_set, tensor_has, tensor_remove, tensor_size}

-- `va_arg`
unfoldable pub first_argument : List Argument → Result Argument
first_argument [] = undefined
first_argument (a ∷ args) = ok a

-- `va_arg(args, uint64_t)`
unfoldable pub index_argument : List Argument → Cmd ℕ
index_argument args = do a ← lift (first_argument args); lift (word64_argument a)

unfoldable pub sequence_get : ℕ → List Argument → Cmd ℕ
sequence_get p args = do index ← index_argument args; get_sequence_element p index

unfoldable pub sequence_set : ℕ → ℕ → List Argument → Cmd (Unit {0})
sequence_set p value args = do index ← index_argument args; set_sequence_element p value index

unfoldable pub sequence_has : ℕ → List Argument → Cmd Bool
sequence_has p args = do index ← index_argument args; has_sequence_element p index

-- The index is read, and nothing is removed.
unfoldable pub sequence_remove_element : ℕ → List Argument → Cmd (Unit {0})
sequence_remove_element p args = do index ← index_argument args; pure tt

-- `get_slice` of a sequence reads two 64-bit arguments.
unfoldable pub sequence_slice : ℕ → List Argument → Cmd ℕ
sequence_slice p [] = lift undefined
sequence_slice p (a ∷ args) = do
  left ← lift (word64_argument a)
  right ← index_argument args
  get_sequence_slice p left right

-- A virtual call: what a tensor, an associative array and a sequence do.
abbrev pub by_class : {A : Type 0} → Cmd A → Cmd A → Cmd A → Object → Cmd A
by_class tensor assoc sequence (struct_object t fs) = lift undefined
by_class tensor assoc sequence (tensor_object t xs ls) = tensor
by_class tensor assoc sequence (assoc_array_object t m) = assoc
by_class tensor assoc sequence (sequence_alloc t xs) = sequence
by_class tensor assoc sequence (sequence_view t s i j) = sequence

module _ (floats : Floats) (fuel : ℕ) where
  unfoldable pub collection_get : ℕ → List Argument → Cmd ℕ
  collection_get p args =
      load p
      >>= by_class (tensor_get p args)
          (do a ← lift (first_argument args); get_element floats fuel p a) (sequence_get p args)

unfoldable pub collection_set : Floats → ℕ → ℕ → List Argument → Cmd (Unit {0})
collection_set floats p value args =
    load p
    >>= by_class (tensor_set p value args)
        (do a ← lift (first_argument args); set_element floats value p a)
        (sequence_set p value args)

unfoldable pub collection_has : Floats → ℕ → List Argument → Cmd Bool
collection_has floats p args =
    load p
    >>= by_class (tensor_has p args) (do a ← lift (first_argument args); has_element floats p a)
        (sequence_has p args)

unfoldable pub collection_remove : Floats → ℕ → List Argument → Cmd (Unit {0})
collection_remove floats p args =
    load p
    >>= by_class (tensor_remove p args)
        (do a ← lift (first_argument args); remove_element floats p a)
        (sequence_remove_element p args)

-- A slice and a join of a tensor or of an associative array are not supported.
unfoldable pub collection_slice : ℕ → List Argument → Cmd ℕ
collection_slice p args =
    load p >>= by_class (lift assert_failed) (lift assert_failed) (sequence_slice p args)

unfoldable pub collection_join : ℕ → List ℕ → Cmd ℕ
collection_join p args = load p >>= by_class (lift assert_failed) (lift assert_failed) (join p args)

unfoldable pub collection_size : ℕ → Cmd ℕ
collection_size p = load p >>= by_class (tensor_size p) (assoc_size p) (size p)
