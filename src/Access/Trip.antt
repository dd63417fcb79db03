-- ===== src/Access/Trip.antt =====
-- A value of an integer type that is written is read again as it was, in the SSA form and in the
-- lowered form.
use memoir_cs397_atc.Prelude.{
  ℕ, ◌+◌, ◌-◌, ◌<◌, ◌^◌, ◌≡◌, ◌∙◌, List, [], ◌∷◌, arith, length, set, get_elem?-set_self,
  length-set, ==-false, refl, ==-true, nat_eq,
}
use memoir_cs397_atc.Result.{ok}
use memoir_cs397_atc.Types.{TypeInfo}
use memoir_cs397_atc.Objects.{Runtime, Cmd, ◌>>=◌, load, access_check}
use memoir_cs397_atc.Std.Map.{assign, find-assign}
use memoir_cs397_atc.Struct.{
  IsStruct, with_fields, set_field-ok, get_field-ok, with_fields-IsStruct,
}
use memoir_cs397_atc.Sequence.Valid.{IsSequence, alloc, view, access_check-ok, Owns-load}
use memoir_cs397_atc.Sequence.Elements.{with_vector, set-ok, get-ok, with_vector-IsSequence}
use memoir_cs397_atc.Assoc.{Argument, word64, Floats, key_of}
use memoir_cs397_atc.Assoc.Laws.{
  IsAssoc, with_map, with_map-IsAssoc, set_element-ok, get_element-present,
}
use memoir_cs397_atc.Collection.{
  by_class, collection_get, collection_set, sequence_get, sequence_set, index_argument,
  first_argument,
}
use memoir_cs397_atc.Access.{read_field, write_field, read_element, write_element}
use memoir_cs397_atc.Access.Cast.{IntegerKind, bits, to_u64, from_u64-to_u64}
use memoir_cs397_atc.Access.Ssa
use memoir_cs397_atc.Access.Mut

module _ {r : Runtime} {p t : ℕ} {fs : List ℕ} (v : IsStruct r p t fs) (k : IntegerKind)
    (value i : ℕ) (range : value < 2 ^ bits k) (h : i < length fs) where
  -- A value of an integer type that is written to a field in range, by the SSA or the lowered
  -- function, is read again as it was.
  pub struct_write_integer-read :
      let r' = with_fields r p t (set fs i (to_u64 k value)) in
      (Ssa.struct_write_integer k value p i r ≡ ok (tt, r'))
      × (Mut.struct_write_integer k value p i r ≡ ok (tt, r'))
      × (Ssa.struct_read_integer k p i r' ≡ ok (value, r'))
  unfolding Ssa.struct_write_integer Mut.struct_write_integer Ssa.struct_read_integer write_field
      read_field access_check
  struct_write_integer-read =
      let w = with_fields-IsStruct v (set fs i (to_u64 k value)) in
      (
        rw (==-false p 0 v.not_null, set_field-ok v (to_u64 k value) i h),
        rw (==-false p 0 v.not_null, set_field-ok v (to_u64 k value) i h),
        rw (
          ==-false p 0 v.not_null,
          get_field-ok w i (to_u64 k value) (omega (arith, length-set fs i (to_u64 k value)))
              (get_elem?-set_self fs i (to_u64 k value) h),
          from_u64-to_u64 k value range,
        ),
      )

module _ {r : Runtime} {p t s i j : ℕ} {xs : List ℕ} (v : IsSequence r p t s i j xs) where
  -- A call of a method on a sequence.
  pub by_class-sequence :
      (A : Type 0) (tensor assoc sequence : Cmd A)
      → (load p >>= by_class tensor assoc sequence) r ≡ sequence r
  unfolding load
  by_class-sequence A tensor assoc sequence = elim v.shape [
    | alloc same _ _ ↦ rw (same, Owns-load v.owns)
    | view n holds ↦ rw (==-false p 0 n, holds)
  ]

module _ {r : Runtime} {p t s i j : ℕ} {xs : List ℕ} (v : IsSequence r p t s i j xs) where
  module _ (floats : Floats) (fuel : ℕ) (k : IntegerKind) (value n : ℕ) (range : value < 2 ^ bits k)
      (h : n < j - i) where
    -- A value of an integer type that is written to an element in range of a sequence, by the SSA
    -- or the lowered function, is read again as it was; both functions change the given
    -- collection.
    pub index_write_integer-read :
        let args = word64 n ∷ [] in
        let r' = with_vector r s t (set xs (i + n) (to_u64 k value)) in
        (Ssa.index_write_integer k floats value p args r ≡ ok (p, r'))
        × (Mut.index_write_integer k floats value p args r ≡ ok (tt, r'))
        × (Ssa.index_read_integer k floats fuel p args r' ≡ ok (value, r'))
    unfolding Ssa.index_write_integer Mut.index_write_integer Ssa.index_read_integer write_element
        read_element collection_get collection_set sequence_get sequence_set index_argument
        first_argument
    index_write_integer-read =
        let ys = set xs (i + n) (to_u64 k value) in
        let w = with_vector-IsSequence v ys (length-set xs (i + n) (to_u64 k value)) in
        (
          rw (
            access_check-ok v,
            by_class-sequence v (Unit {0}) _ _ _,
            set-ok v (to_u64 k value) n h,
          ),
          rw (
            access_check-ok v,
            by_class-sequence v (Unit {0}) _ _ _,
            set-ok v (to_u64 k value) n h,
          ),
          rw (
            access_check-ok w,
            by_class-sequence w ℕ _ _ _,
            get-ok w n (to_u64 k value) h
                (get_elem?-set_self xs (i + n) (to_u64 k value) (omega (arith, v.within))),
            from_u64-to_u64 k value range,
          ),
        )

module _ {r : Runtime} {p t : ℕ} {m : List (ℕ × ℕ)} {u : TypeInfo} (v : IsAssoc r p t m u)
    (floats : Floats) (fuel : ℕ) (a : Argument) {key : ℕ} (reads : key_of floats u a ≡ ok key)
    (k : IntegerKind) (value : ℕ) (range : value < 2 ^ bits k) where
  -- A value of an integer type that is written under a key of an associative array, which need not
  -- be there, by the SSA or the lowered function, is read again as it was; both functions change
  -- the given array.
  pub assoc_write_integer-read :
      let args = a ∷ [] in
      let r' = with_map r p t (assign key (to_u64 k value) m) in
      (Ssa.assoc_write_integer k floats value p args r ≡ ok (p, r'))
      × (Mut.assoc_write_integer k floats value p args r ≡ ok (tt, r'))
      × (Ssa.assoc_read_integer k floats fuel p args r' ≡ ok (value, r'))
  unfolding Ssa.assoc_write_integer Mut.assoc_write_integer Ssa.assoc_read_integer write_element
      read_element collection_get collection_set first_argument access_check load
  assoc_write_integer-read =
      let e = to_u64 k value in
      let w = with_map-IsAssoc v (assign key e m) in
      (
        rw (
          ==-false p 0 v.not_null,
          ==-false p 0 v.not_null,
          v.holds,
          set_element-ok v floats a reads e,
        ),
        rw (
          ==-false p 0 v.not_null,
          ==-false p 0 v.not_null,
          v.holds,
          set_element-ok v floats a reads e,
        ),
        rw (
          ==-false p 0 v.not_null,
          ==-false p 0 v.not_null,
          w.holds,
          get_element-present w floats a reads fuel e
              (find-assign key key e m ∙ rw (==-true key key refl)),
          from_u64-to_u64 k value range,
        ),
      )
