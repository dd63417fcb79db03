-- ===== src/Examples/Texts.antt =====
-- The theorems on strings, at two of them.
use memoir_cs397_atc.Prelude.{ℕ, zero, suc, ◌+◌, ◌<◌, ◌≢◌, ◌≡◌, refl, arith, false, Option, [], ◌∷◌}
use memoir_cs397_atc.Result.{ok}
use memoir_cs397_atc.Types.{
  TypeInfo, integer_type, sequence_type, get_code, get_integer_type, get_sequence_type,
}
use memoir_cs397_atc.Types.Equals.{equals}
use memoir_cs397_atc.Objects.{Object, Runtime, sequence_alloc, get_type, load}
use memoir_cs397_atc.Allocation.{assert_type}
use memoir_cs397_atc.Sequence.Valid.{IsSequence, alloc}
use memoir_cs397_atc.Strings.{assert_string, strlen, strcmp_diff}
use memoir_cs397_atc.Strings.Read.{CharAt, Ends, strlen-Ends, strcmp_diff-Ends}
use memoir_cs397_atc.Examples.{table, no_floats}

abbrev text_info : ℕ → Option TypeInfo
text_info = table ((4, (integer_type 8 false)) ∷ (5, (sequence_type 4)) ∷ [])

-- "hi" and "ho"
abbrev text_objects : ℕ → Option Object
text_objects = table (
    (1, (sequence_alloc 5 (104 ∷ 105 ∷ 0 ∷ [])))
    ∷ (2, (sequence_alloc 5 (104 ∷ 111 ∷ 0 ∷ [])))
    ∷ [])

abbrev texts : Runtime
texts = record {
  registry = record {
    info = text_info;
    next = 6;
    struct_types = [];
    tensor_types = [];
    static_tensor_types = [];
    sequence_types = (4, 5) ∷ [];
    integer_types = (8, (false, 4) ∷ []) ∷ [];
  };
  objects = text_objects;
  next_object = 3;
}

text-IsSequence : IsSequence texts 1 5 1 0 3 (104 ∷ 105 ∷ 0 ∷ [])
text-IsSequence = record {
  shape = alloc refl refl refl;
  owns = record { not_null = λ e. omega arith; holds = refl };
  type_not_null = λ e. omega arith;
  element_type = 4;
  typed = refl;
  ordered = omega arith;
  within = omega arith;
  fits = omega arith;
}

other-IsSequence : IsSequence texts 2 5 2 0 3 (104 ∷ 111 ∷ 0 ∷ [])
other-IsSequence = record {
  shape = alloc refl refl refl;
  owns = record { not_null = λ e. omega arith; holds = refl };
  type_not_null = λ e. omega arith;
  element_type = 4;
  typed = refl;
  ordered = omega arith;
  within = omega arith;
  fits = omega arith;
}

text_passes : assert_string 5 1 texts ≡ ok (tt, texts)
unfolding assert_string assert_type equals load get_integer_type get_sequence_type get_type get_code
text_passes = refl

other_passes : assert_string 5 2 texts ≡ ok (tt, texts)
unfolding assert_string assert_type equals load get_integer_type get_sequence_type get_type get_code
other_passes = refl

text_char :
    (k : ℕ) → k < 2 → (c : ℕ) × CharAt no_floats 5 (104 ∷ 105 ∷ 0 ∷ []) (0 + (0 + k)) c × (c ≢ 0)
text_char zero lt = (104, (104, refl, refl), λ e. omega arith)
text_char (suc zero) lt = (105, (105, refl, refl), λ e. omega arith)
text_char (suc (suc k)) lt = absurd (omega arith)

text-Ends : Ends no_floats 5 text-IsSequence 0 2
text-Ends = (omega arith, (0, refl, refl), text_char)

strlen-Ends_example : strlen no_floats 5 3 1 0 texts ≡ ok (2, texts)
strlen-Ends_example =
    strlen-Ends no_floats 5 text-IsSequence 3 2 0 texts text_passes (omega arith) text-Ends

-- The strings differ in their second character.
strcmp_diff-Ends_example : strcmp_diff no_floats 5 3 1 0 2 0 texts ≡ ok (0, texts)
strcmp_diff-Ends_example =
    strcmp_diff-Ends no_floats 5 text-IsSequence other-IsSequence 3 2 0 0 texts texts text_passes
      other_passes (omega arith) text-Ends (omega arith)
