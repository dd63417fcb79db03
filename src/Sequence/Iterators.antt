-- ===== src/Sequence/Iterators.antt =====
-- The iterators of a sequence, and the parts of `std::vector` that go through them. An iterator is
-- the address of the `SequenceAlloc` that owns the vector and a position in it.
use memoir_cs397_atc.Prelude.{
  ℕ, ◌-◌, Option, none, some, List, ◌++◌, if◌then◌else◌, ◌==◌, leb, length, take, replicate,
}
use memoir_cs397_atc.Words.{add64, max_size}
use memoir_cs397_atc.Std.Vector.{slice, copy_to}
use memoir_cs397_atc.Result.{Result, ok, thrown, undefined, require, deref}
use memoir_cs397_atc.Objects.{
  Object, sequence_alloc, sequence_view, Cmd, pure, ◌>>=◌, ◌>>◌, lift, load, store,
}

-- `it + n`, with `n` a `size_t` that the addition reads as a signed number: undefined outside the
-- vector and its end.
unfoldable pub advance : List ℕ → ℕ → ℕ → Result ℕ
advance xs position n =
    let moved = add64 position n in if leb moved (length xs) then ok moved else undefined

-- A vector of that many elements, if a vector can be so long.
unfoldable pub check_size : ℕ → Result (Unit {0})
check_size n = if leb n max_size then ok tt else thrown

unfoldable pub resize : ℕ → List ℕ → Result (List ℕ)
resize n xs =
    if leb n max_size
    then ok (if leb n (length xs) then take n xs else xs ++ replicate (n - length xs) 0)
    else thrown

-- The elements between two positions.
unfoldable pub read_range : List ℕ → ℕ → ℕ → Result (List ℕ)
read_range xs i j = if leb i j then ok (slice i j xs) else undefined

-- `std::copy` to a position of a vector of the function's own.
unfoldable pub write_at : List ℕ → ℕ → List ℕ → Result (List ℕ)
write_at target k src = deref (copy_to target k src)

abbrev pub alloc_vector : Object → Option (List ℕ)
alloc_vector (sequence_alloc t xs) = some xs
alloc_vector o = none

-- `_sequence`, of a `SequenceAlloc`.
unfoldable pub vector : ℕ → Cmd (List ℕ)
vector s = do o ← load s; lift (deref (alloc_vector o))

abbrev pub set_vector_of : Object → List ℕ → Object
set_vector_of (sequence_alloc t old) xs = sequence_alloc t xs
set_vector_of o xs = o

unfoldable pub set_vector : ℕ → List ℕ → Cmd (Unit {0})
set_vector s xs = do o ← load s; store s (set_vector_of o xs)

unfoldable pub alloc_size : ℕ → Cmd ℕ
alloc_size s = do xs ← vector s; pure (length xs)

-- `_sequence->begin() + n` of a view.
unfoldable pub view_iterator : ℕ → ℕ → Cmd (ℕ × ℕ)
view_iterator s n = do xs ← vector s; k ← lift (advance xs 0 n); pure (s, k)

-- `begin` and `cbegin`
unfoldable pub begin_of : ℕ → Object → Cmd (ℕ × ℕ)
begin_of p (sequence_alloc t xs) = pure (p, 0)
begin_of p (sequence_view t s from to) = view_iterator s from
begin_of p o = lift undefined

unfoldable pub begin : ℕ → Cmd (ℕ × ℕ)
begin p = load p >>= begin_of p

-- `end` and `cend`
unfoldable pub end_of : ℕ → Object → Cmd (ℕ × ℕ)
end_of p (sequence_alloc t xs) = pure (p, length xs)
end_of p (sequence_view t s from to) = view_iterator s to
end_of p o = lift undefined

unfoldable pub end : ℕ → Cmd (ℕ × ℕ)
end p = load p >>= end_of p

-- `it + n`
unfoldable pub plus : ℕ × ℕ → ℕ → Cmd (ℕ × ℕ)
plus (s, k) n = do xs ← vector s; k' ← lift (advance xs k n); pure (s, k')

-- The elements between two iterators of one vector.
unfoldable pub between : ℕ × ℕ → ℕ × ℕ → Cmd (List ℕ)
between (s, i) (s', j) = do lift (require (s == s')); xs ← vector s; lift (read_range xs i j)
