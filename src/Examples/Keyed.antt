-- ===== src/Examples/Keyed.antt =====
-- The theorems on associative arrays and structs, and on reads and writes at the integer types, at a
-- small program state.
use memoir_cs397_atc.Prelude.{refl, ◌≡◌, arith, true, false, [], ◌∷◌, nat_eq}
use memoir_cs397_atc.Result.{ok}
use memoir_cs397_atc.Examples.{sample, pairs-IsAssoc, references-IsAssoc, no_floats}
use memoir_cs397_atc.Assoc.{
  word64, pointer, key_of, get_element, set_element, has_element, remove_element,
}
use memoir_cs397_atc.Assoc.Laws.{with_map, set_element-get, remove_element-has}
use memoir_cs397_atc.Access.Cast.{i8, from_u64, to_u64, from_u64-to_u64, bits}

set_element-get_example :
    let r' = with_map sample 4 7 ((1, 100) ∷ (2, 99) ∷ []) in
    (set_element no_floats 99 4 (word64 2) sample ≡ ok (tt, r'))
    × (get_element no_floats 0 4 (word64 2) r' ≡ ok (99, r'))
    × (has_element no_floats 4 (word64 3) r' ≡ ok (false, r'))
unfolding key_of
set_element-get_example =
    set_element-get pairs-IsAssoc no_floats (word64 2) (word64 3) refl refl 99 0

-- The key is a pointer, and it stays.
remove_element-has_example :
    (remove_element no_floats 8 (pointer 5) sample ≡ ok (tt, sample))
    × (has_element no_floats 8 (pointer 5) sample ≡ ok (true, sample))
unfolding key_of
remove_element-has_example =
    remove_element-has references-IsAssoc no_floats (pointer 5) (pointer 5) refl refl

from_u64-to_u64_example : from_u64 i8 (to_u64 i8 200) ≡ 200
unfolding bits
from_u64-to_u64_example = from_u64-to_u64 i8 200 (omega arith)
