-- ===== src/Backend/Vector/Grow.antt =====
-- `T##_vector__insert_element`, where the storage grows.
use memoir_cs397_atc.Prelude.{
  ℕ, zero, suc, ◌+◌, ◌-◌, ◌*◌, ◌/◌, ◌%◌, ◌^◌, ◌≤◌, ◌<◌, ◌≡◌, ◌⊎◌, inl, inr, refl, ap, ◌∙◌, ◌&&◌,
  Option, none, some, List, [], ◌∷◌, arith, ltb, leb, ltb-true, ltb-false, if◌then◌else◌, length,
  get_elem?, set, replicate, length-set, length-replicate, Bool-cases,
}
use memoir_cs397_atc.Words.{add64-small, sub64-small, add64, sub64, u64_mod}
use memoir_cs397_atc.Std.Vector.{insert_range}
use memoir_cs397_atc.Std.Pointwise.{get_elem?-set}
use memoir_cs397_atc.Backend.Vector.{
  Vector, size, recentre, copy_before, element_in_new, insert_element,
}
use memoir_cs397_atc.Backend.Vector.Valid.{IsVector, contents, contents_at, copy_cells-at, size-ok}
use memoir_cs397_atc.Backend.Vector.Insert.{
  write_cell-ok, inserted_at, Inserted, in_place-ok, next_size, doubled-IsVector, doubled-contents,
}

module _ {A : Type 0} {v : Vector A} (valid : IsVector v) (x : A) (at_front : v.front ≡ 0)
    (full : v.back ≡ v.max_size) (large : 0 < v.max_size) (small : v.max_size < 2 ^ 59) where
  -- The place of the first element in the new storage.
  abbrev place : ℕ
  place = (v.max_size * 2 - (v.max_size + 1)) / 2

  place_ok : add64 v.front (sub64 (v.max_size * 2) (v.max_size + 1) / 2) ≡ place
  place_ok =
      ap (λ n. add64 v.front (n / 2))
        (sub64-small (v.max_size * 2) (v.max_size + 1) (omega arith) (omega arith))
      ∙ add64-small v.front place (omega arith)
      ∙ omega arith

  -- The cells of the new storage before the copy of the elements behind.
  abbrev written : List (Option A)
  written = set (replicate (v.max_size * 2) none) place (some x)

  length-written : length written ≡ v.max_size * 2
  length-written =
      length-set (replicate (v.max_size * 2) none) place (some x)
      ∙ length-replicate (v.max_size * 2) none

  module _ (ys : List (Option A)) (len : length ys ≡ length written)
      (at : (i : ℕ)
        → get_elem? ys i ≡ (
            if leb (place + 1) i && ltb i (place + 1 + v.max_size)
            then get_elem? v.storage (0 + (i - (place + 1)))
            else get_elem? written i)) where
    abbrev moved : Vector A
    moved = record {
      front = place;
      back = place + (v.max_size + 1);
      max_size = v.max_size * 2;
      storage = ys;
    }

    moved-IsVector : IsVector moved
    moved-IsVector = record {
      ordered = omega arith;
      within = omega arith;
      sized = len ∙ length-written;
      small = omega arith;
    }

    moved_at :
        (k : ℕ)
        → get_elem? (contents moved) k ≡ (
            if ltb k 0
            then get_elem? (contents v) k
            else if ltb k (0 + 1)
            then get_elem? (some x ∷ []) (k - 0)
            else get_elem? (contents v) (k - 1))
    moved_at k = ground (
      arith,
      contents_at moved k,
      contents_at v (k - 1),
      at (place + k),
      get_elem?-set (replicate (v.max_size * 2) none) place (place + k) (some x),
      length-replicate {A = Option A} (v.max_size * 2) none,
    )

    moved-contents : contents moved ≡ insert_range 0 (some x ∷ []) (contents v)
    moved-contents = inserted_at valid 0 (some x ∷ []) moved (omega arith) moved_at

  new_size : v.max_size * 2 % u64_mod ≡ v.max_size * 2
  new_size = omega arith

  from_ok : add64 v.front 0 ≡ 0
  from_ok = add64-small v.front 0 (omega arith) ∙ omega arith

  rest_ok : sub64 (size v) 0 ≡ v.max_size
  rest_ok =
      ap (λ n. sub64 n 0) (size-ok valid)
      ∙ sub64-small (v.back - v.front) 0 (omega arith) (omega arith)
      ∙ omega arith

  back_ok : add64 place (v.max_size + 1) ≡ place + (v.max_size + 1)
  back_ok = add64-small place (v.max_size + 1) (omega arith)

  in_new-ok :
      Inserted v valid 0 x
        (omega arith)
        (element_in_new v 0 x (recentre v (v.max_size * 2) (v.max_size + 1)))
  unfolding element_in_new recentre copy_before
  in_new-ok =
      let (ys, done, len, at) =
        copy_cells-at written (place + 1) v.storage 0 v.max_size (omega (arith, length-written))
          (omega (arith, valid.sized)) in
      (
        moved ys len at,
        rw
            (
              place_ok,
              write_cell-ok (replicate (v.max_size * 2) none) place x
                  (omega (arith, length-replicate {A = Option A} (v.max_size * 2) none)),
              add64-small place 1 (omega arith),
              from_ok,
              rest_ok,
              done,
              back_ok,
            )
            refl,
        moved-IsVector ys len at,
        moved-contents ys len at,
      )

module _ {A : Type 0} {v : Vector A} (valid : IsVector v) (x : A) where
  full-refines :
      (start : ℕ) (h : start ≤ v.back - v.front)
      → v.front ≡ 0
      → v.back ≡ v.max_size
      → 0 < v.max_size
      → v.max_size < 2 ^ 59
      → Inserted v valid start x h (insert_element v start x)
  unfolding insert_element
  full-refines zero h at_front full large small =
      let e : v.back - v.front + 1 ≡ v.max_size + 1 = omega arith in
      rw
        (
          next_size valid zero x h,
          ltb-true v.max_size (v.back - v.front + 1) (omega arith),
          new_size valid x at_front full large small,
          e,
        )
        (in_new-ok valid x at_front full large small)
  full-refines (suc start) h at_front full large small =
      rw
        (
          next_size valid (suc start) x h,
          ltb-true v.max_size (v.back - v.front + 1) (omega arith),
          new_size valid x at_front full large small,
          ltb-true 0 (suc start) (omega arith),
        )
        (let (u, done, u-IsVector, same) =
            in_place-ok v (doubled-IsVector valid (suc start) x h small) (suc start) x h
              (omega arith) in
          (
            u,
            done,
            u-IsVector,
            same
                ∙ ap (insert_range (suc start) (some x ∷ []))
                    (doubled-contents valid (suc start) x h),
          ))

  -- For a valid vector, an index up to its size, and either a free cell behind or no free cell in
  -- front and a capacity between 1 and 2^59, `insert_element` ends with a valid vector that holds
  -- the elements with the value at the index.
  pub insert_element-refines :
      (start : ℕ) (h : start ≤ v.back - v.front)
      → (v.back < v.max_size) ⊎ ((v.front ≡ 0) × (0 < v.max_size) × (v.max_size < 2 ^ 59))
      → Inserted v valid start x h (insert_element v start x)
  unfolding insert_element
  insert_element-refines start h (inl room) =
      rw
        (
          next_size valid start x h,
          ltb-false v.max_size (v.back - v.front + 1) (omega (arith, valid.ordered)),
        )
        (in_place-ok v valid start x h room)
  insert_element-refines start h (inr (at_front, large, small)) =
      elim (Bool-cases (ltb v.back v.max_size)) [
        | inl room ↦
            rw
              (
                next_size valid start x h,
                ltb-false v.max_size (v.back - v.front + 1) (ground arith),
              )
              (in_place-ok v valid start x h (ground arith))
        | inr none_left ↦ full-refines start h at_front (ground (arith, valid.within)) large small
      ]
