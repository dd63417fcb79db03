-- ===== src/Sequence/Mutate.antt =====
-- What the methods of a valid sequence that change the vector do to it.
use native.Mathlib.Nat.{add_comm, zero-add}
use mathlib.Core.List.{append-nil}
use memoir_cs397_atc.Prelude.{
  ℕ, zero, suc, take-all, ◌+◌, ◌-◌, ◌≤◌, ◌<◌, ◌≡◌, ◌≢◌, ap, ◌∙◌, some, List, [], ◌∷◌, ◌++◌, arith,
  length, replicate, get_elem?, set, ltb-true, leb-true, leb-false, ==-false,
}
use memoir_cs397_atc.Words.{add64, max_size, add64-small}
use memoir_cs397_atc.Std.Vector.{slice, insert_range, erase_range, length-slice}
use memoir_cs397_atc.Result.{Result, ok}
use memoir_cs397_atc.Objects.{sequence_alloc, Runtime, Cmd, ◌>>=◌, load, store}
use memoir_cs397_atc.Sequence.Iterators.{check_size, resize, read_range, set_vector}
use memoir_cs397_atc.Sequence.Methods.{
  virtual, alloc_get, alloc_set, alloc_insert, alloc_insert_sequence, alloc_erase, alloc_grow,
  insert, insert_sequence, erase, grow,
}
use memoir_cs397_atc.Sequence.Valid.{
  Owns, alloc, view, IsSequence, Owns-load, vector-ok, alloc_size-ok, begin-ok, end-ok, between-ok,
}
use memoir_cs397_atc.Ssa.Insert.{advance-start}

resize-grow :
    (xs : List ℕ) (n : ℕ)
    → length xs + n ≤ max_size
    → resize (length xs + n) xs ≡ ok (xs ++ replicate n 0)
unfolding resize
resize-grow xs zero h = rw (
  leb-true (length xs + 0) max_size h,
  leb-true (length xs + 0) (length xs) (omega arith),
  take-all (length xs + 0) xs (omega arith),
  append-nil xs,
)
resize-grow xs (suc n) h =
    rw
      (
        leb-true (length xs + suc n) max_size h,
        leb-false (length xs + suc n) (length xs) (omega arith),
      )
      (ap (λ k. ok (xs ++ replicate k 0))
        (let e : length xs + suc n - length xs ≡ suc n = omega arith in e))

module _ {r : Runtime} {s t : ℕ} {xs : List ℕ} (o : Owns r s t xs)
    (fits : length xs ≤ max_size) where
  pub set_vector-ok : (ys : List ℕ) → set_vector s ys r ≡ store s (sequence_alloc t ys) r
  unfolding set_vector
  set_vector-ok ys = rw (Owns-load o)

  pub alloc_insert-ok :
      (k value : ℕ)
      → k ≤ length xs
      → length xs < max_size
      → alloc_insert s k value r ≡ store s (sequence_alloc t (insert_range k (value ∷ []) xs)) r
  unfolding alloc_insert check_size
  alloc_insert-ok k value h room = rw (
    vector-ok o,
    advance-start xs k h fits,
    leb-true (length xs + 1) max_size (omega arith),
    set_vector-ok (insert_range k (value ∷ []) xs),
  )

  pub alloc_erase-ok :
      (a b : ℕ)
      → a ≤ b
      → b ≤ length xs
      → alloc_erase s a b r ≡ store s (sequence_alloc t (erase_range a b xs)) r
  unfolding alloc_erase read_range
  alloc_erase-ok a b h k = rw (
    vector-ok o,
    advance-start xs a (omega arith) fits,
    advance-start xs b k fits,
    leb-true a b h,
    set_vector-ok (erase_range a b xs),
  )

  pub alloc_grow-ok :
      (n : ℕ)
      → length xs + n ≤ max_size
      → alloc_grow s n r ≡ store s (sequence_alloc t (xs ++ replicate n 0)) r
  unfolding alloc_grow
  alloc_grow-ok n h = rw (
    vector-ok o,
    add64-small (length xs) n (omega arith),
    resize-grow xs n h,
    set_vector-ok (xs ++ replicate n 0),
  )

  pub alloc_get-ok :
      (k x : ℕ) → k < length xs → get_elem? xs k ≡ some x → alloc_get s k r ≡ ok (x, r)
  unfolding alloc_get
  alloc_get-ok k x h e = rw (alloc_size-ok o, ltb-true k (length xs) h, vector-ok o, e)

  pub alloc_set-ok :
      (value k : ℕ)
      → k < length xs
      → alloc_set s value k r ≡ store s (sequence_alloc t (set xs k value)) r
  unfolding alloc_set
  alloc_set-ok value k h =
      rw (alloc_size-ok o, ltb-true k (length xs) h, vector-ok o, set_vector-ok (set xs k value))

  module _ {q u o' a b : ℕ} {ys : List ℕ} (w : IsSequence r q u o' a b ys) where
    pub alloc_insert_sequence-ok :
        (k : ℕ)
        → k ≤ length xs
        → o' ≢ s
        → length xs + (b - a) ≤ max_size
        → alloc_insert_sequence s k q r
          ≡ store s (sequence_alloc t (insert_range k (slice a b ys) xs)) r
    unfolding alloc_insert_sequence check_size
    alloc_insert_sequence-ok k h apart room = rw (
      vector-ok o,
      advance-start xs k h fits,
      begin-ok w,
      end-ok w,
      ==-false o' s apart,
      between-ok w.owns a b w.ordered,
      leb-true (length xs + length (slice a b ys)) max_size
          (omega (arith, length-slice a b ys w.ordered w.within)),
      set_vector-ok (insert_range k (slice a b ys) xs),
    )

module _ {r : Runtime} {p t s i j : ℕ} {xs : List ℕ} (v : IsSequence r p t s i j xs) where
  -- A virtual call, by its two cases.
  pub virtual-ok :
      {A : Type 0} (alloc_case : Cmd A) (view_case : ℕ → ℕ → ℕ → Cmd A)
      {result : Result (A × Runtime)}
      → (p ≡ s → i ≡ 0 → j ≡ length xs → alloc_case r ≡ result)
      → view_case s i j r ≡ result
      → (load p >>= virtual alloc_case view_case) r ≡ result
  unfolding load
  virtual-ok f g first second = elim v.shape [
    | alloc same zero_first all ↦ rw (same, Owns-load v.owns) (first same zero_first all)
    | view n holds ↦ rw (==-false p 0 n, holds) second
  ]

  -- A position of the sequence as one of the vector.
  pub shifted : (k : ℕ) → k ≤ j - i → add64 k i ≡ i + k
  shifted k h = add64-small k i (omega (arith, v.fits, v.within, v.ordered)) ∙ add_comm k i

  pub inside : (k : ℕ) → k ≤ j - i → i + k ≤ length xs
  inside k h = omega (arith, v.within, v.ordered)

  pub insert-ok :
      (k value : ℕ)
      → k ≤ j - i
      → length xs < max_size
      → insert p k value r ≡ store s (sequence_alloc t (insert_range (i + k) (value ∷ []) xs)) r
  unfolding insert
  insert-ok k value h room =
      virtual-ok _ _
        (λ same first all.
          rw (same, first, zero-add k) (alloc_insert-ok v.owns v.fits k value (omega arith) room))
        (rw (shifted k h) (alloc_insert-ok v.owns v.fits (i + k) value (inside k h) room))

  pub erase-ok :
      (a b : ℕ)
      → a ≤ b
      → b ≤ j - i
      → erase p a b r ≡ store s (sequence_alloc t (erase_range (i + a) (i + b) xs)) r
  unfolding erase
  erase-ok a b h k =
      virtual-ok _ _
        (λ same first all.
          rw (same, first, zero-add a, zero-add b)
            (alloc_erase-ok v.owns v.fits a b h (omega arith)))
        (rw (shifted a (omega arith), shifted b k)
          (alloc_erase-ok v.owns v.fits (i + a) (i + b) (omega arith) (inside b k)))

  pub grow-ok :
      (n : ℕ)
      → length xs + n ≤ max_size
      → grow p n r ≡ store s (sequence_alloc t (xs ++ replicate n 0)) r
  unfolding grow
  grow-ok n h =
      virtual-ok _ _ (λ same first all. rw same (alloc_grow-ok v.owns v.fits n h))
        (alloc_grow-ok v.owns v.fits n h)

  pub insert_sequence-ok :
      {q u o a b : ℕ} {ys : List ℕ}
      → IsSequence r q u o a b ys
      → (k : ℕ) → k ≤ j - i
      → o ≢ s
      → length xs + (b - a) ≤ max_size
      → insert_sequence p k q r
        ≡ store s (sequence_alloc t (insert_range (i + k) (slice a b ys) xs)) r
  unfolding insert_sequence
  insert_sequence-ok w k h apart room =
      virtual-ok _ _
        (λ same first all.
          rw (same, first, zero-add k)
            (alloc_insert_sequence-ok v.owns v.fits w k (omega arith) apart room))
        (rw (shifted k h)
          (alloc_insert_sequence-ok v.owns v.fits w (i + k) (inside k h) apart room))
