-- ===== src/Collection/Free.antt =====
-- `free` of the objects, which goes on to the elements and fields that are objects. The fuel bounds
-- how deep.
use memoir_cs397_atc.Prelude.{
  ℕ, zero, suc, Bool, Option, none, some, List, [], ◌∷◌, if◌then◌else◌, get_elem?,
}
use memoir_cs397_atc.Result.{out_of_fuel, deref}
use memoir_cs397_atc.Types.{
  TypeInfo, struct_type, tensor_type, assoc_array_type, sequence_type, is_object_type, get_code,
}
use memoir_cs397_atc.Objects.{
  Object, struct_object, tensor_object, assoc_array_object, sequence_alloc, sequence_view, Cmd,
  pure, ◌>>=◌, ◌>>◌, lift, load, type_info,
}

abbrev pub element_type_of : TypeInfo → Option ℕ
element_type_of (tensor_type e d s ls) = some e
element_type_of (assoc_array_type k v) = some v
element_type_of (sequence_type e) = some e
element_type_of u = none

abbrev pub fields_of : TypeInfo → Option (List ℕ)
fields_of (struct_type name fields) = some fields
fields_of u = none

-- `get_element_type` of a collection of the type `t`.
unfoldable pub get_element_type : ℕ → Cmd ℕ
get_element_type t = do info ← type_info t; lift (deref (element_type_of info))

-- Whether a type is one of objects.
unfoldable pub has_objects : ℕ → Cmd Bool
has_objects t = do info ← type_info t; pure (is_object_type (get_code info))

unfoldable pub free_all : (ℕ → Cmd (Unit {0})) → List ℕ → Cmd (Unit {0})
free_all rec [] = pure tt
free_all rec (x ∷ xs) = do rec x; free_all rec xs

unfoldable pub values : List (ℕ × ℕ) → List ℕ
values [] = []
values ((k, v) ∷ m) = v ∷ values m

-- The elements of a collection, if they are objects.
unfoldable pub free_elements : (ℕ → Cmd (Unit {0})) → ℕ → List ℕ → Cmd (Unit {0})
free_elements rec t xs = do
  element_type ← get_element_type t
  objects ← has_objects element_type
  if objects then free_all rec xs else pure tt

-- The loop over the types of the fields, with `field_index`.
unfoldable pub free_fields : (ℕ → Cmd (Unit {0})) → List ℕ → List ℕ → ℕ → Cmd (Unit {0})
free_fields rec fields [] field_index = pure tt
free_fields rec fields (t ∷ ts) field_index = do
  objects ← has_objects t
  (if objects then (do x ← lift (deref (get_elem? fields field_index)); rec x) else pure tt)
  free_fields rec fields ts (suc field_index)

-- `free` by the class of the object; a view frees nothing.
unfoldable pub free_object : (ℕ → Cmd (Unit {0})) → Object → Cmd (Unit {0})
free_object rec (struct_object t fs) = do
  info ← type_info t
  field_types ← lift (deref (fields_of info))
  free_fields rec fs field_types 0
free_object rec (tensor_object t xs ls) = free_elements rec t xs
free_object rec (assoc_array_object t m) = free_elements rec t (values m)
free_object rec (sequence_alloc t xs) = free_elements rec t xs
free_object rec (sequence_view t s i j) = pure tt

unfoldable pub free : ℕ → ℕ → Cmd (Unit {0})
free zero p = lift out_of_fuel
free (suc fuel) p = load p >>= free_object (free fuel)
