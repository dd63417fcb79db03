-- ===== src/Ssa/Splice.antt =====
-- What `sequence_insert` and `sequence_remove` of runtime/src/ssa_operations.cpp return for valid
-- sequences.
use mathlib.Core.Path.{ap₂}
use memoir_cs397_atc.Prelude.{
  ℕ, ◌+◌, ◌-◌, ◌≤◌, ◌≡◌, refl, ap, sym, ◌∙◌, List, [], ◌++◌, arith, length, replicate,
  length-append, length-replicate,
}
use memoir_cs397_atc.Words.{sub64, max_size, add64-small}
use memoir_cs397_atc.Std.Vector.{
  slice, insert_range, erase_range, take-slice, drop-slice, length-slice,
}
use memoir_cs397_atc.Result.{ok}
use memoir_cs397_atc.Objects.{sequence_alloc, Runtime, new_object}
use memoir_cs397_atc.Sequence.Valid.{
  IsSequence, access_check-ok, type_check-ok, begin-ok, end-ok, size-ok, plus-ok, between-ok,
  elements_of-ok,
}
use memoir_cs397_atc.Ssa.{resolve, sequence_insert, sequence_remove}
use memoir_cs397_atc.Ssa.Insert.{
  position, type_of-ok, resolve-ok, resize-new, write_at-next, write_at-last, advance-ok,
  advance-start, length-before, length-behind, parts,
}

module _ {r : Runtime} {p t s i j : ℕ} {xs : List ℕ} (v : IsSequence r p t s i j xs) {q u o a b : ℕ}
    {ys : List ℕ} (w : IsSequence r q u o a b ys) where
  length-inserted : length (slice a b ys) ≡ b - a
  length-inserted = length-slice a b ys w.ordered w.within

  length-filled : (k m : ℕ) → k ≤ j - i → length (slice i (i + k) xs ++ replicate m 0) ≡ k + m
  length-filled k m h = omega (
    arith,
    length-append (slice i (i + k) xs) (replicate m 0),
    length-replicate {A = ℕ} m 0,
    length-before v k h,
  )

  length-both : (k : ℕ) → k ≤ j - i → length (slice i (i + k) xs ++ slice a b ys) ≡ k + (b - a)
  length-both k h = omega (
    arith,
    length-append (slice i (i + k) xs) (slice a b ys),
    length-before v k h,
    length-inserted,
  )

  length-both_filled :
      (k m : ℕ)
      → k ≤ j - i
      → length ((slice i (i + k) xs ++ slice a b ys) ++ replicate m 0) ≡ k + (b - a) + m
  length-both_filled k m h = omega (
    arith,
    length-append (slice i (i + k) xs ++ slice a b ys) (replicate m 0),
    length-replicate {A = ℕ} m 0,
    length-both k h,
  )

  insert_at :
      (index k : ℕ)
      → resolve p index r ≡ ok (k, r)
      → k ≤ j - i
      → (j - i) + (b - a) ≤ max_size
      → sequence_insert q p index r
        ≡ new_object
            (sequence_alloc t ((slice i (i + k) xs ++ slice a b ys) ++ slice (i + k) j xs))
            r
  unfolding sequence_insert
  insert_at index k resolved h room =
      let n = j - i in
      let m = b - a in
      rw (
        access_check-ok v,
        access_check-ok w,
        type_check-ok v,
        type_check-ok w,
        type_of-ok v,
        resolved,
        size-ok v,
        size-ok w,
        add64-small n m (omega arith),
        resize-new (n + m) room,
        begin-ok v,
        plus-ok v.owns i k (omega (arith, v.within, v.ordered)) v.fits,
        between-ok v.owns i (i + k) (omega arith),
        write_at-next 0 (n + m) (n + m - k) [] (slice i (i + k) xs) refl
            (omega (arith, length-before v k h)),
        elements_of-ok w,
        advance-start (slice i (i + k) xs ++ replicate (n + m - k) 0) k
            (omega (arith, length-filled k (n + m - k) h))
            (omega (arith, length-filled k (n + m - k) h)),
        write_at-next k (n + m - k) (n - k) (slice i (i + k) xs) (slice a b ys)
            (length-before v k h) (omega (arith, length-inserted)),
        end-ok v,
        between-ok v.owns (i + k) j (omega (arith, v.ordered)),
        advance-ok ((slice i (i + k) xs ++ slice a b ys) ++ replicate (n - k) 0) k m
            (omega (arith, length-both_filled k (n - k) h))
            (omega (arith, length-both_filled k (n - k) h)),
        write_at-last (k + m) (n - k) (slice i (i + k) xs ++ slice a b ys) (slice (i + k) j xs)
            (length-both k h) (length-behind v k h),
      )

  -- The SSA insertion of a sequence into a sequence returns a new collection with the elements of
  -- the one put into those of the other; no other object changes.
  pub sequence_insert_lem :
      (index : ℕ)
      → position (j - i) index ≤ j - i
      → (j - i) + (b - a) ≤ max_size
      → sequence_insert q p index r
        ≡ new_object
            (sequence_alloc t (insert_range (position (j - i) index) (slice a b ys) (slice i j xs)))
            r
  sequence_insert_lem index h room =
      insert_at index (position (j - i) index) (resolve-ok v index) h room
      ∙ ap (λ zs. new_object (sequence_alloc t zs) r)
          (parts v (position (j - i) index) (slice a b ys) h)

removed_size : (n b e : ℕ) → b ≤ n → e ≤ n → n ≤ max_size → sub64 n (sub64 e b) ≡ b + (n - e)
unfolding sub64
removed_size n b e h1 h2 h3 = omega arith

module _ {r : Runtime} {p t s i j : ℕ} {xs : List ℕ} (v : IsSequence r p t s i j xs) where
  remove_at :
      (begin_index end_index b e : ℕ)
      → resolve p begin_index r ≡ ok (b, r)
      → resolve p end_index r ≡ ok (e, r)
      → b ≤ j - i
      → e ≤ j - i
      → b + (j - i - e) ≤ max_size
      → sequence_remove p begin_index end_index r
        ≡ new_object (sequence_alloc t (slice i (i + b) xs ++ slice (i + e) j xs)) r
  unfolding sequence_remove
  remove_at begin_index end_index b e rb re hb he room =
      let n = j - i in
      let small : n ≤ max_size = omega (arith, v.within, v.fits) in
      let filled : length (slice i (i + b) xs ++ replicate (n - e) 0) ≡ b + (n - e) = omega (
        arith,
        length-append (slice i (i + b) xs) (replicate (n - e) 0),
        length-replicate {A = ℕ} (n - e) 0,
        length-before v b hb,
      ) in
      rw (
        access_check-ok v,
        type_check-ok v,
        type_of-ok v,
        rb,
        re,
        size-ok v,
        removed_size n b e hb he small,
        resize-new (b + (n - e)) room,
        begin-ok v,
        plus-ok v.owns i b (omega (arith, v.within, v.ordered)) v.fits,
        between-ok v.owns i (i + b) (omega arith),
        write_at-next 0 (b + (n - e)) (n - e) [] (slice i (i + b) xs) refl
            (omega (arith, length-before v b hb)),
        plus-ok v.owns i e (omega (arith, v.within, v.ordered)) v.fits,
        end-ok v,
        between-ok v.owns (i + e) j (omega (arith, v.ordered)),
        advance-start (slice i (i + b) xs ++ replicate (n - e) 0) b (omega arith) (omega arith),
        write_at-last b (n - e) (slice i (i + b) xs) (slice (i + e) j xs) (length-before v b hb)
            (length-behind v e he),
      )

  -- The SSA removal returns a new collection of the elements before the first index and from the
  -- second on, also where the second comes first; no other object changes.
  pub sequence_remove_lem :
      (begin_index end_index : ℕ)
      → position (j - i) begin_index ≤ j - i
      → position (j - i) end_index ≤ j - i
      → position (j - i) begin_index + (j - i - position (j - i) end_index) ≤ max_size
      → sequence_remove p begin_index end_index r
        ≡ new_object
            (sequence_alloc t (
              erase_range
                (position (j - i) begin_index)
                (position (j - i) end_index)
                (slice i j xs)))
            r
  sequence_remove_lem begin_index end_index hb he room =
      remove_at begin_index end_index (position (j - i) begin_index) (position (j - i) end_index)
        (resolve-ok v begin_index) (resolve-ok v end_index) hb he room
      ∙ ap (λ zs. new_object (sequence_alloc t zs) r)
          (sym (
            ap₂ ◌++◌ (take-slice i j (position (j - i) begin_index) xs hb)
              (drop-slice i j (position (j - i) end_index) xs)))
