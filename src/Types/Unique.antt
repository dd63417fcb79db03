-- ===== src/Types/Unique.antt =====
-- One pointer stands for one type.
use memoir_cs397_atc.Prelude.{ℕ, ◌≡◌, some, arith, Bool, nat_eq, bool_eq}
use memoir_cs397_atc.Std.Map.{find, find-assign}
use memoir_cs397_atc.Types.{
  Registry, get_sequence_type, get_tensor_type, get_integer_type, find_tensor,
}
use memoir_cs397_atc.Types.WellFormed.{Exists, IsRegistry, find_integer-assign}
use memoir_cs397_atc.Types.Kept.{get_sequence_type-IsRegistry}
use memoir_cs397_atc.Types.Calls.{Calls, Calls-IsRegistry, Calls-Extends}

pub found-get_sequence_type :
    (e : ℕ) (r : Registry)
    → find e (get_sequence_type e r).1.sequence_types ≡ some (get_sequence_type e r).0
unfolding get_sequence_type
found-get_sequence_type e r = ground (arith, find-assign e e r.next r.sequence_types)

found-again :
    (e e' t : ℕ) (r : Registry)
    → find e r.sequence_types ≡ some t
    → find e (get_sequence_type e' r).1.sequence_types ≡ some t
unfolding get_sequence_type
found-again e e' t r h = ground (arith, find-assign e' e r.next r.sequence_types)

-- Sequence types of existing element types are equal as pointers only if their element types are,
-- whatever calls come between.
pub get_sequence_type-injective :
    (e e' : ℕ) {r s : Registry}
    → IsRegistry r
    → Exists r.info e
    → Calls (get_sequence_type e r).1 s
    → Exists s.info e'
    → (get_sequence_type e' s).0 ≡ (get_sequence_type e r).0
    → e' ≡ e
get_sequence_type-injective e e' {r} {s} v there cs there' same =
    let kept = Calls-IsRegistry (get_sequence_type-IsRegistry v e there) cs in
    let later = get_sequence_type-IsRegistry kept e' there' in
    let first =
      found-again e e' _ s ((Calls-Extends cs).sequences e _ (found-get_sequence_type e r)) in
    let second = found-get_sequence_type e' s in
    ground (
      arith,
      later.sequences e (get_sequence_type e r).0 first,
      later.sequences e' (get_sequence_type e' s).0 second,
    )

-- Once a call has returned a tensor type of unknown lengths, the same call returns the same
-- pointer and changes nothing, whatever calls come between.
pub get_tensor_type-again :
    (e n : ℕ) (r : Registry) {s : Registry}
    → Calls (get_tensor_type e n r).1 s
    → get_tensor_type e n s ≡ ((get_tensor_type e n r).0, s)
unfolding get_tensor_type find_tensor
get_tensor_type-again e n r cs =
    ground (arith, (Calls-Extends cs).tensors e n (get_tensor_type e n r).0)

-- Once a call has returned an integer type, the same call returns the same pointer and changes
-- nothing, whatever calls come between.
pub get_integer_type-again :
    (w : ℕ) (b : Bool) (r : Registry) {s : Registry}
    → Calls (get_integer_type w b r).1 s
    → get_integer_type w b s ≡ ((get_integer_type w b r).0, s)
unfolding get_integer_type
get_integer_type-again w b r cs = ground (
  arith,
  (Calls-Extends cs).integers w b (get_integer_type w b r).0,
  find_integer-assign w w b b r.next r.integer_types,
)
