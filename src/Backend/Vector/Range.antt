-- ===== src/Backend/Vector/Range.antt =====
-- `T##_vector__insert_range`, where the storage has room.
use memoir_cs397_atc.Prelude.{
  ℕ, ◌+◌, ◌-◌, ◌≤◌, ◌≡◌, inl, inr, refl, ap, ◌∙◌, ◌&&◌, Option, List, arith, ltb, leb, ltb-false,
  if◌then◌else◌, length, get_elem?, false, Bool-cases,
}
use memoir_cs397_atc.Words.{add64-small, sub64-small, add64, sub64}
use memoir_cs397_atc.Std.Vector.{slice, length-slice}
use memoir_cs397_atc.Std.Pointwise.{get_elem?-slice}
use memoir_cs397_atc.Result.{ok}
use memoir_cs397_atc.Backend.Vector.{Vector, size, range_in_place, insert_range}
use memoir_cs397_atc.Backend.Vector.Valid.{IsVector, contents, contents_at, copy_cells-at, size-ok}
use memoir_cs397_atc.Backend.Vector.Insert.{inserted_at}
use memoir_cs397_atc.Std.Vector as Std

module _ {A : Type 0} {v vec2 : Vector A} (valid : IsVector v) (valid2 : IsVector vec2)
    (start from to : ℕ) (h : start ≤ v.back - v.front) (ordered : from ≤ to)
    (inside : to ≤ vec2.back - vec2.front) where
  -- The cells that the code copies from the storage of `vec2`.
  abbrev copied : List (Option A)
  copied = slice v.front (v.front + (to - from)) vec2.storage

  insert_size : sub64 to from ≡ to - from
  insert_size = sub64-small to from ordered (omega (arith, valid2.within, valid2.small))

  module _ (room : v.back + (to - from) ≤ v.max_size)
      (there : v.front + (to - from) ≤ vec2.max_size) where
    length-copied : length copied ≡ to - from
    length-copied =
        length-slice v.front (v.front + (to - from)) vec2.storage (omega arith)
          (omega (arith, valid2.sized))
        ∙ omega arith

    start_ok : add64 v.front start ≡ v.front + start
    start_ok = add64-small v.front start (omega (arith, valid.ordered, valid.within, valid.small))

    target_ok : add64 (v.front + start) (to - from) ≡ v.front + start + (to - from)
    target_ok =
        add64-small (v.front + start) (to - from)
          (omega (arith, valid.ordered, valid.within, valid.small))

    rest_ok : sub64 (size v) start ≡ v.back - v.front - start
    rest_ok =
        ap (λ n. sub64 n start) (size-ok valid)
        ∙ sub64-small (v.back - v.front) start h (omega (arith, valid.within, valid.small))

    back_ok : add64 v.back (to - from) ≡ v.back + (to - from)
    back_ok = add64-small v.back (to - from) (omega (arith, valid.small))

    fits : ltb v.max_size (add64 (size v) (to - from)) ≡ false
    fits =
        rw (size-ok valid, add64-small (v.back - v.front) (to - from) (omega (arith, valid.small)))
          (ltb-false v.max_size (v.back - v.front + (to - from)) (omega (arith, valid.ordered)))

    module _ (ys zs : List (Option A))
        (at : (i : ℕ)
          → get_elem? ys i ≡ (
              if leb (v.front + start + (to - from)) i
                && ltb i (v.front + start + (to - from) + (v.back - v.front - start))
              then get_elem? v.storage (v.front + start + (i - (v.front + start + (to - from))))
              else get_elem? v.storage i))
        (at' : (i : ℕ)
          → get_elem? zs i ≡ (
              if leb (v.front + start) i && ltb i (v.front + start + (to - from))
              then get_elem? vec2.storage (v.front + (i - (v.front + start)))
              else get_elem? ys i)) where
      range_at :
          (k : ℕ)
          → get_elem? (slice v.front (v.back + (to - from)) zs) k ≡ (
              if ltb k start
              then get_elem? (contents v) k
              else if ltb k (start + length copied)
              then get_elem? copied (k - start)
              else get_elem? (contents v) (k - length copied))
      range_at k = elim (Bool-cases (ltb k start)) [
        | inl before ↦ ground (
          arith,
          get_elem?-slice v.front (v.back + (to - from)) zs k,
          contents_at v k,
          at (v.front + k),
          at' (v.front + k),
          valid.ordered,
        )
        | inr behind ↦ elim (Bool-cases (ltb k (start + (to - from)))) [
          | inl within ↦
              let e : v.front + k - (v.front + start) ≡ k - start = ground arith in
              ground (
                arith,
                length-copied,
                get_elem?-slice v.front (v.back + (to - from)) zs k,
                at' (v.front + k),
                valid.ordered,
                get_elem?-slice v.front (v.front + (to - from)) vec2.storage (k - start),
                ap (λ i. get_elem? vec2.storage (v.front + i)) e,
              )
          | inr later ↦
              let e : v.front + start + (v.front + k - (v.front + start + (to - from)))
                  ≡ v.front + (k - (to - from)) =
                ground arith in
              ground (
                arith,
                length-copied,
                get_elem?-slice v.front (v.back + (to - from)) zs k,
                at (v.front + k),
                at' (v.front + k),
                valid.ordered,
                contents_at v (k - (to - from)),
                ap (get_elem? v.storage) e,
              )
        ]
      ]

    -- For two valid vectors and room behind the first, `insert_range` ends with a valid vector
    -- that holds its elements with cells of the storage of the second between them, as many as the
    -- range is long, from the place on where the first vector begins.
    pub insert_range-copies :
        (w : Vector A) × (insert_range v start vec2 from to ≡ ok w)
        × IsVector w
        × (contents w ≡ Std.insert_range start copied (contents v))
    unfolding insert_range range_in_place
    insert_range-copies =
        let (ys, done, len, at) =
          copy_cells-at v.storage (v.front + start + (to - from)) v.storage (v.front + start)
            (v.back - v.front - start) (omega (arith, valid.ordered, valid.sized))
            (omega (arith, valid.ordered, valid.within, valid.sized)) in
        let (zs, done', len', at') =
          copy_cells-at ys (v.front + start) vec2.storage v.front (to - from)
            (omega (arith, valid.ordered, valid.sized)) (omega (arith, valid2.sized)) in
        let w = record v { storage = zs; back = v.back + (to - from) } in
        (
          w,
          rw (insert_size, fits, start_ok, target_ok, rest_ok, done, done', back_ok) refl,
          record {
            ordered = omega (arith, valid.ordered);
            within = room;
            sized = len' ∙ len ∙ valid.sized;
            small = valid.small;
          },
          inserted_at valid start copied w h (range_at ys zs at at'),
        )
