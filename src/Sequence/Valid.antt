-- ===== src/Sequence/Valid.antt =====
-- A valid sequence: an allocation, or a view of a part of one. Its methods that change nothing.
use memoir_cs397_atc.Prelude.{
  ℕ, ◌+◌, ◌-◌, ◌≤◌, ◌≡◌, ◌≢◌, refl, ap, some, List, arith, length, leb-true, ==-false, ==-true,
}
use native.Mathlib.Nat.{zero-add}
use memoir_cs397_atc.Words.{max_size, add64-small, sub64-small}
use memoir_cs397_atc.Std.Vector.{slice}
use memoir_cs397_atc.Result.{ok}
use memoir_cs397_atc.Types.{sequence_type, sequence_ty, get_code}
use memoir_cs397_atc.Objects.{
  Object, sequence_alloc, sequence_view, Runtime, load, get_type, type_check, access_check,
  code_number,
}
use memoir_cs397_atc.Sequence.Iterators.{
  advance, read_range, vector, alloc_size, view_iterator, begin, end, begin_of, end_of, plus,
  between,
}
use memoir_cs397_atc.Sequence.Methods.{size}
use memoir_cs397_atc.Sequence.Join.{elements_of}

-- A `SequenceAlloc` with that vector.
pub record Owns (r : Runtime) (s t : ℕ) (xs : List ℕ) : Type 0 where
  pub not_null : s ≢ 0
  pub holds : r.objects s ≡ some (sequence_alloc t xs)

pub data Shape (r : Runtime) (p t s i j : ℕ) (xs : List ℕ) : Type 0 where
  alloc : p ≡ s → i ≡ 0 → j ≡ length xs → Shape r p t s i j xs
  view : p ≢ 0 → r.objects p ≡ some (sequence_view t s i j) → Shape r p t s i j xs

-- The sequence at `p`, of type `t`, ranges over the positions from `i` to `j` of the vector `xs` that
-- the `SequenceAlloc` at `s` owns.
pub record IsSequence (r : Runtime) (p t s i j : ℕ) (xs : List ℕ) : Type 0 where
  pub shape : Shape r p t s i j xs
  pub owns : Owns r s t xs
  pub type_not_null : t ≢ 0
  pub element_type : ℕ
  pub typed : r.registry.info t ≡ some (sequence_type element_type)
  pub ordered : i ≤ j
  pub within : j ≤ length xs
  pub fits : length xs ≤ max_size

module _ {r : Runtime} {s t : ℕ} {xs : List ℕ} (o : Owns r s t xs) where
  pub Owns-load : load s r ≡ ok (sequence_alloc t xs, r)
  unfolding load
  Owns-load = rw (==-false s 0 o.not_null, o.holds)

  pub vector-ok : vector s r ≡ ok (xs, r)
  unfolding vector
  vector-ok = rw Owns-load

  pub alloc_size-ok : alloc_size s r ≡ ok (length xs, r)
  unfolding alloc_size
  alloc_size-ok = rw vector-ok

  pub plus-ok :
      (k n : ℕ) → k + n ≤ length xs → length xs ≤ max_size → plus (s, k) n r ≡ ok ((s, k + n), r)
  unfolding plus advance
  plus-ok k n h fits = rw (vector-ok, add64-small k n (omega arith), leb-true (k + n) (length xs) h)

  pub view_iterator-ok :
      (n : ℕ) → n ≤ length xs → length xs ≤ max_size → view_iterator s n r ≡ ok ((s, n), r)
  unfolding view_iterator advance
  view_iterator-ok n h fits =
      rw (vector-ok, add64-small 0 n (omega arith), zero-add n, leb-true n (length xs) h)

  pub between-ok : (a b : ℕ) → a ≤ b → between (s, a) (s, b) r ≡ ok (slice a b xs, r)
  unfolding between read_range
  between-ok a b h = rw (==-true s s refl, vector-ok, leb-true a b h)

module _ {r : Runtime} {p t s i j : ℕ} {xs : List ℕ} (v : IsSequence r p t s i j xs) where
  pub not_null : p ≢ 0
  not_null = elim v.shape [ alloc same _ _ ↦ rw same v.owns.not_null | view n _ ↦ n ]

  pub access_check-ok : access_check p r ≡ ok (tt, r)
  unfolding access_check
  access_check-ok = rw (==-false p 0 not_null)

  -- The object at `p` has the type `t`.
  pub typed_object : (o : Object) × (load p r ≡ ok (o, r)) × (get_type o ≡ t)
  unfolding load get_type
  typed_object = elim v.shape [
    | alloc same _ _ ↦ (sequence_alloc t xs, rw same (Owns-load v.owns), refl)
    | view n holds ↦ (sequence_view t s i j, rw (==-false p 0 n, holds), refl)
  ]

  pub type_check-ok : type_check p sequence_ty r ≡ ok (tt, r)
  unfolding type_check get_code code_number
  type_check-ok =
      let (o, loaded, type) = typed_object in
      rw (==-false p 0 not_null, loaded, type, ==-false t 0 v.type_not_null, v.typed)

  pub begin-ok : begin p r ≡ ok ((s, i), r)
  unfolding begin begin_of load
  begin-ok = elim v.shape [
    | alloc same zero_first _ ↦ rw (same, Owns-load v.owns, zero_first)
    | view n holds ↦
        rw (==-false p 0 n, holds)
          (view_iterator-ok v.owns i (omega (arith, v.ordered, v.within)) v.fits)
  ]

  pub end-ok : end p r ≡ ok ((s, j), r)
  unfolding end end_of load
  end-ok = elim v.shape [
    | alloc same _ all ↦ rw (same, Owns-load v.owns, all)
    | view n holds ↦ rw (==-false p 0 n, holds) (view_iterator-ok v.owns j v.within v.fits)
  ]

  pub size-ok : size p r ≡ ok (j - i, r)
  unfolding size load
  size-ok = elim v.shape [
    | alloc same zero_first all ↦
        rw (same, Owns-load v.owns, alloc_size-ok v.owns, zero_first, all)
          (ap (λ n. ok (n, r)) (omega arith))
    | view n holds ↦
        rw (==-false p 0 n, holds, sub64-small j i v.ordered (omega (arith, v.within, v.fits)))
  ]

  pub elements_of-ok : elements_of p r ≡ ok (slice i j xs, r)
  unfolding elements_of
  elements_of-ok = rw (begin-ok, end-ok) (between-ok v.owns i j v.ordered)
