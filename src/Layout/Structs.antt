-- ===== src/Layout/Structs.antt =====
-- What the layout of a struct says of its fields.
use memoir_cs397_atc.Prelude.{
  ℕ, suc, ◌+◌, ◌%◌, ◌<◌, ◌≡◌, refl, sym, ap, ◌∙◌, subst, true, none, some, List, [], ◌∷◌, ◌++◌, map,
  arith, length, get_elem?, nat_eq, set, get_elem?-set_self, length-set, length-append, ==-true,
}
use memoir_cs397_atc.Std.Map.{find, assign}
use memoir_cs397_atc.Result.{ok}
use memoir_cs397_atc.Words.{int_mod}
use memoir_cs397_atc.Layout.{
  LlvmType, int, struct, TypeLayout, Packing, Converter, Conversion, is_size, bit_field_width,
  commit, record_offset, append_field, widen, close_bit_field, place_field, start_packing,
  finish_packing, check_memoized, memoize, create_struct, visit_fields, visit_struct_type,
}
use memoir_cs397_atc.Layout.Placed.{
  place_fields, IsLoose, IsFound, get_elem?-concat, place_fields-keeps, place_fields-Extends,
  Extends-at, place_field-element, place_field-Extends, Extends-trans,
}
use memoir_cs397_atc.Layout.Fields.{all-IsPlaced}
use memoir_cs397_atc.Layout.Apart.{IsApart, all-IsApart}

-- The conversions of the field types, one after the other, and their layouts.
pub data Visits (visit : ℕ → Conversion)
    : Converter → List ℕ → List TypeLayout → Converter → Type 0 where
  done : {c : Converter} → Visits visit c [] [] c
  next :
      {c c1 c2 : Converter} {t : ℕ} {ts : List ℕ} {l : TypeLayout} {ls : List TypeLayout}
      → visit t c ≡ ok (l, c1)
      → Visits visit c1 ts ls c2
      → Visits visit c (t ∷ ts) (l ∷ ls) c2

visit_fields-Visits :
    {visit : ℕ → Conversion} {c c' : Converter} {ts : List ℕ} {ls : List TypeLayout}
    → Visits visit c ts ls c'
    → (i : ℕ) (p : Packing) → visit_fields visit ts i p c ≡ ok (place_fields i ls p, c')
unfolding visit_fields place_fields
visit_fields-Visits done i p = refl
visit_fields-Visits (next at rest) i p = rw at (visit_fields-Visits rest (suc i) _)

length-Visits :
    {visit : ℕ → Conversion} {c c' : Converter} {ts : List ℕ} {ls : List TypeLayout}
    → Visits visit c ts ls c'
    → length ts ≡ length ls
length-Visits done = refl
length-Visits (next at rest) = ap suc (length-Visits rest)

visit_struct_type-create :
    (visit : ℕ → Conversion) (t : ℕ) (ts : List ℕ) (ls : List TypeLayout) (c c1 : Converter)
    → find t c.memoir_to_type_layout ≡ none
    → Visits visit c ts ls c1
    → visit_struct_type visit t ts c
      ≡ create_struct t (place_fields 0 ls (start_packing (length ls))) c1
unfolding visit_struct_type
visit_struct_type-create visit t ts ls c c1 new visits =
    rw (new, check_memoized)
      (rw (length-Visits visits)
        (rw (visit_fields-Visits visits 0 (start_packing (length ls))) refl))

-- Where a struct type has no layout yet, its field types are converted, and no run of bit fields
-- fills up a size or outgrows the integer that is made for the last of them, the conversion of the
-- struct returns a layout. In the struct created with it, every field that is no bit field is the
-- element of its own type at its offset, every bit field has a range of its own width inside an
-- integer at its offset, and of two bit fields with the same offset the later one begins no
-- earlier than the other one ends.
pub visit_struct_type-IsFound :
    (visit : ℕ → Conversion) (t : ℕ) (ts : List ℕ) (ls : List TypeLayout) (c c1 : Converter)
    → find t c.memoir_to_type_layout ≡ none
    → Visits visit c ts ls c1
    → IsLoose 0 (map bit_field_width ls)
    → (layout : TypeLayout) × (c' : Converter) × (place : ℕ) × (types : List LlvmType)
      × (visit_struct_type visit t ts c ≡ ok (layout, c'))
      × (layout.llvm_type ≡ struct place)
      × (get_elem? c'.structs place ≡ some types)
      × ((i : ℕ) (l : TypeLayout)
          → get_elem? ls i ≡ some l
          → IsFound layout.field_offsets layout.bit_field_ranges types i l)
      × IsApart layout.field_offsets layout.bit_field_ranges
unfolding create_struct memoize
visit_struct_type-IsFound visit t ts ls c c1 new visits loose =
    let packed = place_fields 0 ls (start_packing (length ls)) in
    let layout : TypeLayout = record {
      memoir_type = t;
      llvm_type = struct (length c1.structs);
      field_offsets = packed.field_offsets;
      bit_field_ranges = packed.bit_field_ranges;
    } in
    (
      layout,
      record c1 {
        memoir_to_type_layout = assign t layout c1.memoir_to_type_layout;
        structs = c1.structs ++ finish_packing packed ∷ [];
      },
      length c1.structs,
      finish_packing packed,
      visit_struct_type-create visit t ts ls c c1 new visits,
      refl,
      get_elem?-concat c1.structs (finish_packing packed),
      all-IsPlaced ls loose,
      all-IsApart ls loose,
    )

-- A bit field that fills up a size: two elements are appended and one is counted.
close-full :
    (i b : ℕ) (l : TypeLayout) (p : Packing)
    → bit_field_width l ≡ some b
    → p.current_field_width + b < int_mod
    → is_size (p.current_field_width + b) ≡ true
    → place_field i l p ≡ record {
      field_offsets = set p.field_offsets i p.current_field_offset;
      llvm_field_types =
          (p.llvm_field_types ++ int (p.current_field_width + b) ∷ []) ++ l.llvm_type ∷ [];
      bit_field_ranges =
          assign i (p.current_field_width, p.current_field_width + b) p.bit_field_ranges;
      current_field_width = 0;
      current_field_offset = p.current_field_offset + 1;
    }
unfolding place_field close_bit_field append_field record_offset widen
close-full i b l p at small full =
    let same : (p.current_field_width + b) % int_mod ≡ p.current_field_width + b = omega arith in
    rw (at, place_field) (rw same (rw full refl))

-- The offset of the next field is then that of the element before it.
shifted :
    (i : ℕ) (l k : TypeLayout) (rest : List TypeLayout) (q : Packing) (before : List LlvmType)
    → q.current_field_width ≡ 0
    → q.llvm_field_types ≡ before ++ l.llvm_type ∷ []
    → q.current_field_offset ≡ length before
    → i < length q.field_offsets
    → bit_field_width k ≡ none
    → (offset : ℕ) × (get_elem? (place_fields (suc i) rest (place_field i k q)).field_offsets i
        ≡ some offset)
      × (get_elem? (finish_packing (place_fields (suc i) rest (place_field i k q))) offset
          ≡ some l.llvm_type)
unfolding append_field record_offset commit
shifted i l k rest q before closed types offset room element =
    let placed = place_field-element i k q element in
    let (kept, _) = place_fields-keeps (suc i) i rest (place_field i k q) (omega arith) in
    (
      q.current_field_offset,
      kept
          ∙ rw placed (
              rw (==-true q.current_field_width 0 closed)
                (get_elem?-set_self q.field_offsets i q.current_field_offset room)),
      Extends-at _ _ q.current_field_offset l.llvm_type
          (Extends-trans _ _ _ (place_field-Extends i k q)
            (place_fields-Extends (suc i) rest (place_field i k q)))
          (rw (types, offset) (get_elem?-concat before l.llvm_type)),
    )

-- Where the offset of the next field is the number of elements so far, a bit field that fills up a
-- size makes the field behind it, if that is no bit field, be found at an offset where the element
-- is of the type of the bit field.
pub full-Shifts :
    (i b : ℕ) (l k : TypeLayout) (rest : List TypeLayout) (p : Packing)
    → p.current_field_offset ≡ length p.llvm_field_types
    → suc i < length p.field_offsets
    → bit_field_width l ≡ some b
    → p.current_field_width + b < int_mod
    → is_size (p.current_field_width + b) ≡ true
    → bit_field_width k ≡ none
    → (offset : ℕ) × (get_elem? (place_fields i (l ∷ k ∷ rest) p).field_offsets (suc i)
        ≡ some offset)
      × (get_elem? (finish_packing (place_fields i (l ∷ k ∷ rest) p)) offset ≡ some l.llvm_type)
unfolding place_fields
full-Shifts i b l k rest p synced room at small full element =
    subst
      (λ q.
        (offset : ℕ) × (get_elem? (place_fields (suc i) (k ∷ rest) q).field_offsets (suc i)
          ≡ some offset)
        × (get_elem? (finish_packing (place_fields (suc i) (k ∷ rest) q)) offset
            ≡ some l.llvm_type))
      (sym (close-full i b l p at small full))
      (shifted (suc i) l k rest
        (record {
          field_offsets = set p.field_offsets i p.current_field_offset;
          llvm_field_types =
              (p.llvm_field_types ++ int (p.current_field_width + b) ∷ []) ++ l.llvm_type ∷ [];
          bit_field_ranges =
              assign i (p.current_field_width, p.current_field_width + b) p.bit_field_ranges;
          current_field_width = 0;
          current_field_offset = p.current_field_offset + 1;
        })
        (p.llvm_field_types ++ int (p.current_field_width + b) ∷ []) refl refl
        (omega
          (arith, synced, length-append p.llvm_field_types (int (p.current_field_width + b) ∷ [])))
        (omega (arith, length-set p.field_offsets i p.current_field_offset)) element)
