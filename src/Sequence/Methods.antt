-- ===== src/Sequence/Methods.antt =====
-- The methods of `SequenceAlloc` and of `SequenceView`, and their virtual calls.
use memoir_cs397_atc.Prelude.{
  ℕ, ◌+◌, Bool, not, none, some, [], ◌∷◌, if◌then◌else◌, ◌==◌, ltb, length, get_elem?, set,
}
use memoir_cs397_atc.Words.{add64, sub64, max_u64, is_negative64, signed_ltb}
use memoir_cs397_atc.Std.Vector.{insert_range, erase_range}
use memoir_cs397_atc.Result.{ok, thrown, undefined, require, assert}
use memoir_cs397_atc.Objects.{
  Object, sequence_alloc, sequence_view, Cmd, pure, ◌>>=◌, ◌>>◌, lift, load, get_type, new_object,
}
use memoir_cs397_atc.Sequence.Iterators.{
  advance, check_size, resize, read_range, vector, set_vector, alloc_size, begin, end, between,
}

-- `SequenceAlloc::get_sequence_element`
unfoldable pub alloc_get : ℕ → ℕ → Cmd ℕ
alloc_get s index = do
  n ← alloc_size s
  lift (assert (ltb index n))
  xs ← vector s
  lift (elim (get_elem? xs index) [ none ↦ thrown | some v ↦ ok v ])

unfoldable pub alloc_set : ℕ → ℕ → ℕ → Cmd (Unit {0})
alloc_set s value index = do
  n ← alloc_size s
  lift (assert (ltb index n))
  xs ← vector s
  set_vector s (set xs index value)

unfoldable pub alloc_has : ℕ → ℕ → Cmd Bool
alloc_has s index = do n ← alloc_size s; pure (ltb index n)

-- A negative index counts from behind the end.
unfoldable pub from_end : ℕ → ℕ → ℕ
from_end size index = if is_negative64 index then add64 (add64 size index) 1 else index

-- `SequenceAlloc::get_sequence_slice`
unfoldable pub alloc_slice : ℕ → ℕ → ℕ → Cmd ℕ
alloc_slice s left_index right_index = do
  xs ← vector s
  o ← load s
  let right = from_end (length xs) right_index
  let left = from_end (length xs) left_index
  let first = if signed_ltb right left then right else left
  let last = if signed_ltb right left then left else right
  i ← lift (advance xs 0 first)
  j ← lift (advance xs 0 last)
  elements ← lift (read_range xs i j)
  new_object (sequence_alloc (get_type o) elements)

-- `insert(begin() + index, value)`
unfoldable pub alloc_insert : ℕ → ℕ → ℕ → Cmd (Unit {0})
alloc_insert s index value = do
  xs ← vector s
  k ← lift (advance xs 0 index)
  lift (check_size (length xs + 1))
  set_vector s (insert_range k (value ∷ []) xs)

-- `insert(begin() + start, seq->begin(), seq->end())`: the range may not lie in the same vector.
unfoldable pub alloc_insert_sequence : ℕ → ℕ → ℕ → Cmd (Unit {0})
alloc_insert_sequence s start q = do
  xs ← vector s
  k ← lift (advance xs 0 start)
  first ← begin q
  last ← end q
  lift (require (not (first.0 == s)))
  elements ← between first last
  lift (check_size (length xs + length elements))
  set_vector s (insert_range k elements xs)

-- `erase(begin() + from, begin() + to)`
unfoldable pub alloc_erase : ℕ → ℕ → ℕ → Cmd (Unit {0})
alloc_erase s from to = do
  xs ← vector s
  i ← lift (advance xs 0 from)
  j ← lift (advance xs 0 to)
  removed ← lift (read_range xs i j)
  set_vector s (erase_range i j xs)

unfoldable pub alloc_grow : ℕ → ℕ → Cmd (Unit {0})
alloc_grow s size = do
  xs ← vector s
  grown ← lift (resize (add64 (length xs) size) xs)
  set_vector s grown

-- A virtual call, by the class of the object: `alloc` for a `SequenceAlloc`, and `view` for a
-- `SequenceView` on `_sequence` from `from` to `to`.
abbrev pub virtual : {A : Type 0} → Cmd A → (ℕ → ℕ → ℕ → Cmd A) → Object → Cmd A
virtual alloc view (sequence_alloc t xs) = alloc
virtual alloc view (sequence_view t s from to) = view s from to
virtual alloc view o = lift undefined

unfoldable pub size : ℕ → Cmd ℕ
size p = load p >>= virtual (alloc_size p) (λ s from to. pure (sub64 to from))

unfoldable pub get_sequence_element : ℕ → ℕ → Cmd ℕ
get_sequence_element p index =
    load p
    >>= virtual (alloc_get p index)
        (λ s from to. do lift (assert (ltb index (sub64 to from))); alloc_get s (add64 index from))

unfoldable pub set_sequence_element : ℕ → ℕ → ℕ → Cmd (Unit {0})
set_sequence_element p value index =
    load p
    >>= virtual (alloc_set p value index) (λ s from to. do
      lift (assert (ltb index (sub64 to from)))
      alloc_set s value (add64 index from))

unfoldable pub has_sequence_element : ℕ → ℕ → Cmd Bool
has_sequence_element p index =
    load p >>= virtual (alloc_has p index) (λ s from to. pure (ltb index (sub64 to from)))

unfoldable pub get_sequence_slice : ℕ → ℕ → ℕ → Cmd ℕ
get_sequence_slice p left right =
    load p
    >>= virtual (alloc_slice p left right)
        (λ s from to. alloc_slice s (add64 left from) (add64 right to))

unfoldable pub insert : ℕ → ℕ → ℕ → Cmd (Unit {0})
insert p index value =
    load p
    >>= virtual (alloc_insert p index value) (λ s from to. alloc_insert s (add64 index from) value)

unfoldable pub insert_sequence : ℕ → ℕ → ℕ → Cmd (Unit {0})
insert_sequence p at q =
    load p
    >>= virtual (alloc_insert_sequence p at q)
        (λ s from to. alloc_insert_sequence s (add64 at from) q)

unfoldable pub erase : ℕ → ℕ → ℕ → Cmd (Unit {0})
erase p i j =
    load p
    >>= virtual (alloc_erase p i j) (λ s from to. alloc_erase s (add64 i from) (add64 j from))

unfoldable pub grow : ℕ → ℕ → Cmd (Unit {0})
grow p n = load p >>= virtual (alloc_grow p n) (λ s from to. alloc_grow s n)

-- The constructors of `SequenceView`: `to` is `MEMOIR_FUNC(end)()` for the whole rest.
unfoldable pub make_view : ℕ → ℕ → ℕ → Cmd ℕ
make_view p from to = do
  o ← load p
  virtual
      (do
        n ← alloc_size p
        new_object (sequence_view (get_type o) p from (if to == max_u64 then n else to)))
      (λ s from' to'. do
        n ← alloc_size s
        below ← load s
        let end' = add64 from' (if to == max_u64 then sub64 to' from' else to)
        new_object (
            sequence_view (get_type below) s (add64 from from')
              (if end' == max_u64 then n else end')))
      o
