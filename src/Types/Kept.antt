-- ===== src/Types/Kept.antt =====
-- The operations on the registry of types keep its invariant.
use memoir_cs397_atc.Prelude.{
  Bool-cases, [], ℕ, ◌≡◌, Bool, some, List, arith, length, Option-cases, inl, inr, length-replicate,
  replicate, nat_eq, bool_eq,
}
use memoir_cs397_atc.Std.Map.{find, find-assign}
use memoir_cs397_atc.Types.{
  after, is_object_type, get_code, define_struct_type, get_assoc_array_type, get_reference_type,
  struct_type, assoc_array_type, sequence_type, integer_type, reference_type, Registry,
  get_sequence_type, find_tensor, find_static_tensor, find_integer, make_tensor_type,
  get_tensor_type, get_static_tensor_type, get_struct_type, get_integer_type, unknown_length,
}
use memoir_cs397_atc.Types.WellFormed.{
  Exists, AllExist, AllExist-mono, struct_name, IsRegistry, lengths_beq-eq, find_integer-assign,
  Exists-below, new_type-IsRegistry, set_fields-IsRegistry,
}

module _ {r : Registry} (v : IsRegistry r) where
  pub get_sequence_type-IsRegistry :
      (e : ℕ) → Exists r.info e → IsRegistry (get_sequence_type e r).1
  unfolding get_sequence_type
  get_sequence_type-IsRegistry e there = elim (Option-cases (find e r.sequence_types)) [
    | inl absent ↦
        let w = new_type-IsRegistry v (sequence_type e) (Exists-below v e there, there) in
        rw (absent, get_sequence_type)
          (record {
            null = w.null;
            positive = w.positive;
            fresh = w.fresh;
            older = w.older;
            structs = w.structs;
            tensors = w.tensors;
            static_tensors = w.static_tensors;
            sequences = λ e' t h.
                ground (arith, find-assign e e' r.next r.sequence_types, w.sequences e' t);
            integers = w.integers;
          })
    | inr (t, old) ↦ rw (old, get_sequence_type) v
  ]

  pub get_struct_type-IsRegistry : (name : ℕ) → IsRegistry (get_struct_type name r).1
  unfolding get_struct_type
  get_struct_type-IsRegistry name = elim (Option-cases (find name r.struct_types)) [
    | inl absent ↦
        let w = new_type-IsRegistry v (struct_type name []) tt in
        rw (absent, get_struct_type)
          (record {
            null = w.null;
            positive = w.positive;
            fresh = w.fresh;
            older = w.older;
            structs = λ name' t h.
                ground (arith, find-assign name name' r.next r.struct_types, w.structs name' t);
            tensors = w.tensors;
            static_tensors = w.static_tensors;
            sequences = w.sequences;
            integers = w.integers;
          })
    | inr (t, old) ↦ rw (old, get_struct_type) v
  ]

  pub get_tensor_type-IsRegistry :
      (e n : ℕ) → Exists r.info e → IsRegistry (get_tensor_type e n r).1
  unfolding get_tensor_type make_tensor_type find_tensor
  get_tensor_type-IsRegistry e n below = elim (Option-cases (find_tensor e n r.tensor_types)) [
    | inl absent ↦
        let w =
          new_type-IsRegistry v (make_tensor_type e n (replicate n unknown_length))
            (Exists-below v e below, length-replicate n unknown_length, below) in
        rw (absent, get_tensor_type)
          (record {
            null = w.null;
            positive = w.positive;
            fresh = w.fresh;
            older = w.older;
            structs = w.structs;
            tensors = λ e' n' t h. ground (arith, w.tensors e' n' t);
            static_tensors = w.static_tensors;
            sequences = w.sequences;
            integers = w.integers;
          })
    | inr (t, old) ↦ rw (old, get_tensor_type) v
  ]

  pub get_static_tensor_type-IsRegistry :
      (e n : ℕ) (ls : List ℕ)
      → Exists r.info e
      → length ls ≡ n
      → IsRegistry (get_static_tensor_type e n ls r).1
  unfolding get_static_tensor_type make_tensor_type find_static_tensor
  get_static_tensor_type-IsRegistry e n ls below sized =
      elim (Option-cases (find_static_tensor e n ls r.static_tensor_types)) [
        | inl absent ↦
            let w =
              new_type-IsRegistry v (make_tensor_type e n ls)
                (Exists-below v e below, sized, below) in
            rw (absent, get_static_tensor_type)
              (record {
                null = w.null;
                positive = w.positive;
                fresh = w.fresh;
                older = w.older;
                structs = w.structs;
                tensors = w.tensors;
                static_tensors = λ e' n' ls' t h.
                    ground (arith, lengths_beq-eq ls ls', w.static_tensors e' n' ls' t);
                sequences = w.sequences;
                integers = w.integers;
              })
        | inr (t, old) ↦ rw (old, get_static_tensor_type) v
      ]

  pub get_integer_type-IsRegistry :
      (width : ℕ) (s : Bool) → IsRegistry (get_integer_type width s r).1
  unfolding get_integer_type
  get_integer_type-IsRegistry width s = elim (Option-cases (find_integer width s r.integer_types)) [
    | inl absent ↦
        let w = new_type-IsRegistry v (integer_type width s) tt in
        rw (absent, get_integer_type)
          (record {
            null = w.null;
            positive = w.positive;
            fresh = w.fresh;
            older = w.older;
            structs = w.structs;
            tensors = w.tensors;
            static_tensors = w.static_tensors;
            sequences = w.sequences;
            integers = λ w' s' t h. ground (
              arith,
              find_integer-assign width w' s s' r.next r.integer_types,
              w.integers w' s' t,
            );
          })
    | inr (t, old) ↦ rw (old, get_integer_type) v
  ]

module _ (r : Registry) where
  -- What a lookup by name returns stands in the table afterwards.
  pub find-get_struct_type :
      (name : ℕ)
      → find name (get_struct_type name r).1.struct_types ≡ some (get_struct_type name r).0
  unfolding get_struct_type
  find-get_struct_type name = ground (arith, find-assign name name r.next r.struct_types)

module _ {r : Registry} (v : IsRegistry r) where
  -- The pointer that a lookup by name returns leads to a struct type of that name.
  pub get_struct_type-named :
      (name : ℕ)
      → struct_name ((get_struct_type name r).1.info (get_struct_type name r).0) ≡ some name
  get_struct_type-named name =
      (get_struct_type-IsRegistry v name).structs name _ (find-get_struct_type r name)

  get_struct_type-Exists : (name a : ℕ) → Exists r.info a → Exists (get_struct_type name r).1.info a
  unfolding get_struct_type
  get_struct_type-Exists name a h = ground (arith, v.fresh a)

  pub define_struct_type-IsRegistry :
      (name : ℕ) (fields : List ℕ)
      → AllExist r.info fields
      → IsRegistry (define_struct_type name fields r).1
  unfolding define_struct_type
  define_struct_type-IsRegistry name fields there =
      set_fields-IsRegistry (get_struct_type-IsRegistry v name) (get_struct_type name r).0 name
        fields (get_struct_type-named name)
        (AllExist-mono r.info (get_struct_type name r).1.info (get_struct_type-Exists name) fields
          there)

  pub get_assoc_array_type-IsRegistry :
      (k w : ℕ) → Exists r.info k → Exists r.info w → IsRegistry (get_assoc_array_type k w r).1
  unfolding get_assoc_array_type
  get_assoc_array_type-IsRegistry k w h h' =
      new_type-IsRegistry v (assoc_array_type k w) (Exists-below v k h, Exists-below v w h', h, h')

  -- A reference type is made only of an object type that exists.
  pub get_reference_type-IsRegistry : (t : ℕ) → IsRegistry (after r (get_reference_type t r))
  unfolding get_reference_type
  get_reference_type-IsRegistry t = elim (Option-cases (r.info t)) [
    | inl absent ↦ rw (absent, get_reference_type) v
    | inr (u, e) ↦ elim (Bool-cases (is_object_type (get_code u))) [
      | inl object ↦
          rw (e, get_reference_type, object)
            (new_type-IsRegistry v (reference_type t) (Exists-below v t (rw e), rw e))
      | inr other ↦ rw (e, get_reference_type, other) v
    ]
  ]
