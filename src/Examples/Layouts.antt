-- ===== src/Examples/Layouts.antt =====
-- The layouts of some structs of the compiler.
use memoir_cs397_atc.Prelude.{
  ℕ, ◌*◌, ◌/◌, ◌^◌, ◌≤◌, ◌<◌, List, [], ◌∷◌, nat_eq, ◌≡◌, refl, some, arith, true, false, get_elem?,
}
use mathlib.Core.List.{Memᴰ}
use mathlib.Core.List.Memᴰ
use memoir_cs397_atc.Result.{ok, out_of_fuel}
use memoir_cs397_atc.Ir.{integer_type, float_type, reference_type, struct_type, Registry}
use memoir_cs397_atc.Layout.{
  bit_field_width, is_size, Packing, LlvmType, int, float, struct, TypeLayout, Converter, convert,
  get_next_size, visit_struct_type, finish_packing,
}
use memoir_cs397_atc.Layout.Size.{get_next_size_lem}
use memoir_cs397_atc.Layout.Placed.{place_fields, IsFound}
use memoir_cs397_atc.Layout.Apart.{IsApart}
use memoir_cs397_atc.Layout.Structs.{Visits, done, next, visit_struct_type-IsFound, full-Shifts}
use memoir_cs397_atc.Layout.Recursive.{IsConvertible, integer, convert-Returns, convert-Diverges}
use memoir_cs397_atc.Layout.Recursive as Recursive

get_next_size_example :
    (k : ℕ) × (get_next_size 24 ≡ 8 * 2 ^ k) × (24 / 8 ≤ 2 ^ k) × (2 ^ k < 2 * (24 / 8))
get_next_size_example = get_next_size_lem 24 (omega arith) (omega arith)

-- 0: a bit field of two bits, 1: float, 2: a struct of two bit fields and a float,
-- 3: a struct with a reference to itself, which is 4.
abbrev sample_types : Registry
sample_types = record {
  types =
      integer_type 2 false
      ∷ float_type
      ∷ struct_type 0 0 (0 ∷ 1 ∷ 0 ∷ [])
      ∷ struct_type 1 1 (4 ∷ 1 ∷ [])
      ∷ reference_type 3
      ∷ [];
  table = [];
  static_tensor_types = [];
  has_defined_types = true;
}

abbrev fresh : Converter
fresh = record { memoir_to_type_layout = []; structs = [] }

abbrev two_bits : TypeLayout
two_bits = record {
  memoir_type = 0;
  llvm_type = int 2;
  field_offsets = [];
  bit_field_ranges = (0, (0, 2)) ∷ [];
}

abbrev float_layout : TypeLayout
float_layout = record {
  memoir_type = 1;
  llvm_type = float;
  field_offsets = [];
  bit_field_ranges = [];
}

abbrev converted : Converter
converted = record { memoir_to_type_layout = (0, two_bits) ∷ (1, float_layout) ∷ []; structs = [] }

sample-Visits :
    Visits
      (convert 1 sample_types)
      fresh
      (0 ∷ 1 ∷ 0 ∷ [])
      (two_bits ∷ float_layout ∷ two_bits ∷ [])
      converted
unfolding convert
sample-Visits = next refl (next refl (next refl done))

visit_struct_type-IsFound_example :
    (layout : TypeLayout) × (c' : Converter) × (place : ℕ) × (types : List LlvmType)
    × (visit_struct_type (convert 1 sample_types) 2 (0 ∷ 1 ∷ 0 ∷ []) fresh ≡ ok (layout, c'))
    × (layout.llvm_type ≡ struct place)
    × (get_elem? c'.structs place ≡ some types)
    × ((i : ℕ) (l : TypeLayout)
        → get_elem? (two_bits ∷ float_layout ∷ two_bits ∷ []) i ≡ some l
        → IsFound layout.field_offsets layout.bit_field_ranges types i l)
    × IsApart layout.field_offsets layout.bit_field_ranges
unfolding bit_field_width get_next_size is_size
visit_struct_type-IsFound_example =
    visit_struct_type-IsFound (convert 1 sample_types) 2 (0 ∷ 1 ∷ 0 ∷ [])
      (two_bits ∷ float_layout ∷ two_bits ∷ []) fresh converted refl sample-Visits
      (omega arith, omega arith, refl, (omega arith, omega arith, refl, omega arith))

-- A bit field of eight bits: five, and then three.
abbrev bits : ℕ → TypeLayout
bits n = record {
  memoir_type = n;
  llvm_type = int n;
  field_offsets = [];
  bit_field_ranges = (0, (0, n)) ∷ [];
}

abbrev five_bits : Packing
five_bits = record {
  field_offsets = 0 ∷ 0 ∷ 0 ∷ [];
  llvm_field_types = [];
  bit_field_ranges = (0, (0, 5)) ∷ [];
  current_field_width = 5;
  current_field_offset = 0;
}

full-Shifts_example :
    (offset : ℕ) × (get_elem?
        (place_fields 1 (bits 3 ∷ float_layout ∷ []) five_bits).field_offsets
        2
      ≡ some offset)
    × (get_elem? (finish_packing (place_fields 1 (bits 3 ∷ float_layout ∷ []) five_bits)) offset
        ≡ some (int 3))
unfolding bit_field_width is_size
full-Shifts_example =
    full-Shifts 1 3 (bits 3) float_layout [] five_bits refl (omega arith) refl (omega arith) refl
      refl

convert-Returns_example :
    (l : TypeLayout) × (c' : Converter) × (convert 2 sample_types 2 fresh ≡ ok (l, c'))
convert-Returns_example =
    convert-Returns {r = sample_types} {d = 2} {t = 2}
      (Recursive.struct refl λ u m. elim m [
        | Memᴰ.head e ↦ rw e (integer refl)
        | Memᴰ.tail (Memᴰ.head e) ↦ rw e (Recursive.float refl)
        | Memᴰ.tail (Memᴰ.tail q) ↦ rw (Memᴰ.eq_of_singleton q) (integer refl)
      ])
      fresh

convert-Diverges_example : convert 100 sample_types 3 fresh ≡ out_of_fuel
convert-Diverges_example =
    convert-Diverges sample_types 3 4 1 1 (1 ∷ []) fresh refl refl refl refl 100
