-- ===== src/Sequence/Join.antt =====
-- `Sequence::join`.
use memoir_cs397_atc.Prelude.{ℕ, not, List, [], ◌∷◌, ◌++◌, if◌then◌else◌, ◌==◌, ltb, length}
use memoir_cs397_atc.Words.{add64}
use memoir_cs397_atc.Result.{thrown, assert}
use memoir_cs397_atc.Types.{sequence_ty, get_code}
use memoir_cs397_atc.Types.Equals.{equals}
use memoir_cs397_atc.Objects.{
  sequence_alloc, Cmd, pure, ◌>>=◌, ◌>>◌, lift, load, get_type, new_object, type_info, code_number,
}
use memoir_cs397_atc.Sequence.Iterators.{begin, end, between, check_size}
use memoir_cs397_atc.Sequence.Methods.{size}

-- The elements from `begin` to `end`.
unfoldable pub elements_of : ℕ → Cmd (List ℕ)
elements_of q = do first ← begin q; last ← end q; between first last

-- The loop that adds up the sizes.
unfoldable pub total_size : List ℕ → Cmd ℕ
total_size [] = pure 0
total_size (q ∷ qs) = do n ← size q; rest ← total_size qs; pure (add64 n rest)

-- The loop that appends the elements of the sequences.
unfoldable pub push_elements : List ℕ → List ℕ → Cmd (List ℕ)
push_elements new_vector [] = pure new_vector
push_elements new_vector (q ∷ qs) = do
  elements ← elements_of q
  lift (check_size (length (new_vector ++ elements)))
  push_elements (new_vector ++ elements) qs

-- `join` of a type and the sequences; `at(0)` throws if there is none.
unfoldable pub join_sequences : ℕ → List ℕ → Cmd ℕ
join_sequences type [] = lift thrown
join_sequences type (q ∷ qs) = do
  initial_size ← total_size (q ∷ qs)
  first ← elements_of q
  new_vector ← push_elements first qs
  new_object (sequence_alloc type new_vector)

-- The loop over the arguments; its state is `sequence_type`, 0 before the first argument.
unfoldable pub check_arguments : ℕ → List ℕ → Cmd ℕ
check_arguments sequence_type [] = pure sequence_type
check_arguments sequence_type (arg ∷ args) = do
  lift (assert (not (arg == 0)))
  o ← load arg
  t ← type_info (get_type o)
  lift (assert (code_number (get_code t) == code_number sequence_ty))
  let expected = if sequence_type == 0 then get_type o else sequence_type
  same ← (λ r. lift (equals 1 r.registry (get_type o) expected) r)
  lift (assert same)
  check_arguments expected args

-- `join` of `this` and the arguments.
unfoldable pub join : ℕ → List ℕ → Cmd ℕ
join this args = do
  lift (assert (ltb 0 (length args)))
  type ← check_arguments 0 args
  join_sequences type (this ∷ args)
