-- ===== src/Mut/Swap.antt =====
-- `sequence_swap_within` and `sequence_swap` of runtime/src/ssa_operations.cpp and
-- runtime/src/mut_operations.cpp on whole collections.
use native.Mathlib.Nat.{zero-add}
use memoir_cs397_atc.Prelude.{
  ℕ, ◌+◌, ◌-◌, ◌^◌, ◌<◌, ◌≤◌, ltb-true, ◌≡◌, ◌≢◌, refl, ap, ◌∙◌, List, [], arith, length, leb-true,
  get_elem?, ==-true, ==-false,
}
use memoir_cs397_atc.Words.{add64-small, sub64-small}
use memoir_cs397_atc.Std.Vector.{slice, slice-all}
use memoir_cs397_atc.Result.{ok}
use memoir_cs397_atc.Objects.{sequence_alloc, Runtime, pure, ◌>>=◌, ◌>>◌, new_object, store}
use memoir_cs397_atc.Sequence.Valid.{
  Owns, access_check-ok, type_check-ok, begin-ok, plus-ok, size-ok, elements_of-ok, vector-ok,
}
use memoir_cs397_atc.Sequence.Mutate.{set_vector-ok}
use memoir_cs397_atc.Sequence.Elements.{with_vector}
use memoir_cs397_atc.Ssa
use memoir_cs397_atc.Ssa.Insert.{type_of-ok, resolve-ok, resize-new, write_at-last, advance-start}
use memoir_cs397_atc.Ssa.Swap.{swap_vectors, swap_in_vector}
use memoir_cs397_atc.Ssa.Swap.Exchange.{
  Apart, origin, mixed, swap_in_vector-exchanges, swap_vectors-exchanges,
}
use memoir_cs397_atc.Mut.{swap_ranges, sequence_swap, sequence_swap_within}
use memoir_cs397_atc.Mut.Agree.{IsAllocation, in_place}

module _ {r : Runtime} {p t : ℕ} {xs : List ℕ} (v : IsAllocation r p t xs) where
  elements : slice 0 (length xs) xs ≡ xs
  elements = slice-all xs

  resolved : (k : ℕ) → k ≤ length xs → Ssa.resolve p k r ≡ ok (k, r)
  resolved k h = resolve-ok v k ∙ ap (λ n. ok (n, r)) (in_place v k h)

  module _ (a b c : ℕ) (h : a ≤ b) (hb : b ≤ length xs) (hc : c + (b - a) ≤ length xs)
      (count : b - a < 2 ^ 31) where
    within-returns :
        (ys : List ℕ)
        → swap_in_vector (b - a) a c xs ≡ ok ys
        → Ssa.sequence_swap_within p a b c r ≡ new_object (sequence_alloc t ys) r
    unfolding Ssa.sequence_swap_within
    within-returns ys done = rw (
      access_check-ok v,
      type_check-ok v,
      type_of-ok v,
      resolved a (omega arith),
      resolved b hb,
      resolved c (omega arith),
      leb-true a b h,
      sub64-small b a h (omega (arith, v.fits)),
      size-ok v,
      add64-small c (b - a) (omega (arith, v.fits)),
      leb-true (c + (b - a)) (length xs - 0) (omega arith),
      resize-new (length xs - 0) (omega (arith, v.fits)),
      elements_of-ok v,
      elements,
      write_at-last 0 (length xs - 0) [] xs refl (omega arith),
      advance-start xs a (omega arith) v.fits,
      advance-start xs c (omega arith) v.fits,
      ltb-true (b - a) (2 ^ 31) count,
      done,
    )

    within-changes :
        (ys : List ℕ)
        → swap_in_vector (b - a) a c xs ≡ ok ys
        → sequence_swap_within p a b c r ≡ store p (sequence_alloc t ys) r
    unfolding sequence_swap_within swap_ranges
    within-changes ys done = rw (
      access_check-ok v,
      type_check-ok v,
      leb-true a b h,
      sub64-small b a h (omega (arith, v.fits)),
      size-ok v,
      add64-small c (b - a) (omega (arith, v.fits)),
      leb-true (c + (b - a)) (length xs - 0) (omega arith),
      begin-ok v,
      plus-ok v.owns 0 a (omega arith) v.fits,
      plus-ok v.owns 0 c (omega arith) v.fits,
      zero-add a,
      zero-add c,
      ltb-true (b - a) (2 ^ 31) count,
      ==-true p p refl,
      vector-ok v.owns,
      done,
      set_vector-ok v.owns v.fits ys,
    )

    -- For ranges of less than 2^31 elements within one collection that do not overlap, both
    -- exchanges within a sequence end with the same elements, the two ranges exchanged in order
    -- and the others as they were: one in a new collection, the other in place.
    pub sequence_swap_within-agrees :
        Apart (b - a) a c
        → (ys : List ℕ) × (Ssa.sequence_swap_within p a b c r ≡ new_object (sequence_alloc t ys) r)
          × (sequence_swap_within p a b c r ≡ store p (sequence_alloc t ys) r)
          × (length ys ≡ length xs)
          × ((i : ℕ) → get_elem? ys i ≡ get_elem? xs (origin (b - a) a c i))
    sequence_swap_within-agrees apart =
        let (ys, done, size, at, back) =
          swap_in_vector-exchanges (b - a) a c xs (omega arith) hc apart in
        (ys, within-returns ys done, within-changes ys done, size, at)

module _ {r : Runtime} {p t : ℕ} {xs : List ℕ} (v : IsAllocation r p t xs) {q u : ℕ} {ys : List ℕ}
    (w : IsAllocation r q u ys) (a b c : ℕ) (h : a ≤ b) (hb : b ≤ length xs)
    (hc : c + (b - a) ≤ length ys) (count : b - a < 2 ^ 31) (xs' ys' : List ℕ)
    (done : swap_vectors (b - a) a xs c ys ≡ ok (xs', ys')) where
  swap-returns :
      Ssa.sequence_swap p a b q c r
      ≡ (new_object (sequence_alloc t xs') >>= λ first.
            new_object (sequence_alloc t ys') >>= λ second. pure (first, second))
          r
  unfolding Ssa.sequence_swap
  swap-returns = rw (
    access_check-ok v,
    type_check-ok v,
    type_check-ok w,
    type_of-ok v,
    resolved v a (omega arith),
    resolved v b hb,
    resolved w c (omega arith),
    leb-true a b h,
    sub64-small b a h (omega (arith, v.fits)),
    size-ok w,
    add64-small c (b - a) (omega (arith, w.fits)),
    leb-true (c + (b - a)) (length ys - 0) (omega arith),
    elements_of-ok v,
    elements v,
    elements_of-ok w,
    elements w,
    advance-start xs a (omega arith) v.fits,
    advance-start ys c (omega arith) w.fits,
    ltb-true (b - a) (2 ^ 31) count,
    done,
  )

  swap-changes :
      p ≢ q
      → sequence_swap p a b q c r
        ≡ (store p (sequence_alloc t xs') >> store q (sequence_alloc u ys')) r
  unfolding sequence_swap swap_ranges
  swap-changes apart = rw (
    access_check-ok v,
    type_check-ok v,
    type_check-ok w,
    leb-true a b h,
    sub64-small b a h (omega (arith, v.fits)),
    size-ok w,
    add64-small c (b - a) (omega (arith, w.fits)),
    leb-true (c + (b - a)) (length ys - 0) (omega arith),
    begin-ok v,
    plus-ok v.owns 0 a (omega arith) v.fits,
    begin-ok w,
    plus-ok w.owns 0 c (omega arith) w.fits,
    zero-add a,
    zero-add c,
    ltb-true (b - a) (2 ^ 31) count,
    ==-false p q apart,
    vector-ok v.owns,
    vector-ok w.owns,
    done,
    set_vector-ok v.owns v.fits xs',
    set_vector-ok (still apart) w.fits ys',
  )
    where
      still : p ≢ q → Owns (with_vector r p t xs') q u ys
      still ne = record { not_null = w.owns.not_null; holds = ground (arith, w.owns.holds) }

module _ {r : Runtime} {p t : ℕ} {xs : List ℕ} (v : IsAllocation r p t xs) {q u : ℕ} {ys : List ℕ}
    (w : IsAllocation r q u ys) where
  -- For ranges of less than 2^31 elements within two different collections, both exchanges between
  -- sequences end with the same elements: one in two new collections, the other in place.
  pub sequence_swap-agrees :
      (a b c : ℕ)
      → a ≤ b
      → b ≤ length xs
      → c + (b - a) ≤ length ys
      → b - a < 2 ^ 31
      → p ≢ q
      → (xs' ys' : List ℕ) × (Ssa.sequence_swap p a b q c r
          ≡ (new_object (sequence_alloc t xs') >>= λ first.
                new_object (sequence_alloc t ys') >>= λ second. pure (first, second))
              r)
        × (sequence_swap p a b q c r
            ≡ (store p (sequence_alloc t xs') >> store q (sequence_alloc u ys')) r)
        × (length xs' ≡ length xs)
        × (length ys' ≡ length ys)
        × ((i : ℕ) → get_elem? xs' i ≡ mixed (b - a) a c xs ys i)
        × ((i : ℕ) → get_elem? ys' i ≡ mixed (b - a) c a ys xs i)
  sequence_swap-agrees a b c h hb hc count apart =
      let (xs', ys', done, size1, size2, at1, at2) =
        swap_vectors-exchanges (b - a) a c xs ys (omega arith) hc in
      (
        xs',
        ys',
        swap-returns v w a b c h hb hc count xs' ys' done,
        swap-changes v w a b c h hb hc count xs' ys' done apart,
        size1,
        size2,
        at1,
        at2,
      )
