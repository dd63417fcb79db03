-- ===== src/Backend/Vector/Remove.antt =====
-- `T##_vector__remove`
use memoir_cs397_atc.Prelude.{
  ℕ, ◌+◌, ◌-◌, ◌/◌, ◌%◌, ◌≤◌, ◌<◌, ◌≡◌, ◌⊎◌, ◌≢◌, false, inl, inr, refl, Option-cases, ap, sym, ◌∙◌,
  arith, ltb, leb, ==-true, ==-false, ltb-true, ltb-false, if◌then◌else◌, ◌==◌, length, get_elem?,
  get_elem?-ext, get_elem?-outside, Bool-cases,
}
use memoir_cs397_atc.Words.{add64-small, sub64-small, add64, sub64}
use memoir_cs397_atc.Std.Vector.{slice, copy_to, erase_range}
use memoir_cs397_atc.Std.Pointwise.{get_elem?-erase_range}
use memoir_cs397_atc.Result.{ok, undefined}
use memoir_cs397_atc.Backend.Vector.{Vector, Layout, remove, move_bytes, copy_cells}
use memoir_cs397_atc.Backend.Vector.Valid.{
  IsVector, contents, contents_at, length-contents, copy_cells-at,
}

module _ {A : Type 0} (layout : Layout A) {v : Vector A} (valid : IsVector v) (from to : ℕ)
    (ordered : from ≤ to) (inside : to ≤ v.back - v.front) where
  removal_size : sub64 to from ≡ to - from
  removal_size = sub64-small to from ordered (omega (arith, valid.within, valid.small))

  current_size : sub64 v.back v.front ≡ v.back - v.front
  current_size = sub64-small v.back v.front valid.ordered (omega (arith, valid.within, valid.small))

  -- A removal ends with a valid vector that holds the other elements.
  abbrev Removed : Type 0
  Removed =
      (w : Vector A) × (remove layout v from to ≡ ok w)
      × IsVector w
      × (contents w ≡ erase_range from to (contents v))

  erased_at :
      (w : Vector A)
      → ((k : ℕ)
          → get_elem? (contents w) k ≡ (
              if ltb k from
              then get_elem? (contents v) k
              else get_elem? (contents v) (k - from + to)))
      → contents w ≡ erase_range from to (contents v)
  erased_at w at = get_elem?-ext (contents w) (erase_range from to (contents v)) λ k.
      at k
      ∙ sym (get_elem?-erase_range from to (contents v) k (omega (arith, length-contents valid)))

  remove_last : to ≡ v.back - v.front → Removed
  unfolding remove
  remove_last e =
      let w = record v { back = v.back - (to - from) } in
      (
        w,
        rw
            (
              current_size,
              ==-true to (v.back - v.front) e,
              removal_size,
              sub64-small v.back (to - from) (omega (arith, valid.ordered))
                  (omega (arith, valid.within, valid.small)),
            )
            refl,
        record {
          ordered = omega (arith, valid.ordered);
          within = omega (arith, valid.within);
          sized = valid.sized;
          small = valid.small;
        },
        erased_at w (λ k. ground (
          arith,
          contents_at w k,
          contents_at v k,
          contents_at v (k - from + to),
          valid.ordered,
        )),
      )

  shrunk :
      (w : Vector A)
      → w.front ≡ v.front + (to - from)
      → w.back ≡ v.back
      → w.max_size ≡ v.max_size
      → length w.storage ≡ v.max_size
      → IsVector w
  shrunk w front back max len = record {
    ordered = omega arith;
    within = omega (arith, valid.within);
    sized = omega arith;
    small = omega (arith, valid.small);
  }

  remove_first : to ≢ v.back - v.front → from ≡ 0 → Removed
  unfolding remove
  remove_first ne e =
      let w = record v { front = v.front + (to - from) } in
      (
        w,
        rw
            (
              current_size,
              ==-false to (v.back - v.front) ne,
              ==-true from 0 e,
              removal_size,
              add64-small v.front (to - from)
                  (omega (arith, valid.within, valid.small, valid.ordered)),
            )
            refl,
        shrunk w refl refl refl valid.sized,
        erased_at w (λ k. ground (
          arith,
          contents_at w k,
          contents_at v k,
          contents_at v (k - from + to),
          valid.ordered,
        )),
      )

  -- The elements before the range are the fewer ones: they move up.
  remove_up : to ≢ v.back - v.front → from ≢ 0 → from ≤ v.back - v.front - to → Removed
  unfolding remove
  remove_up ne ne0 fewer =
      let (ys, done, size, at) =
        copy_cells-at v.storage (v.front + (to - from)) v.storage v.front from
          (omega (arith, valid.within, valid.sized)) (omega (arith, valid.within, valid.sized)) in
      let w = record v { storage = ys; front = v.front + (to - from) } in
      let target : sub64 (add64 v.front to) from ≡ v.front + (to - from) =
        ap (λ n. sub64 n from) (add64-small v.front to (omega (arith, valid.within, valid.small)))
        ∙ sub64-small (v.front + to) from (omega arith) (omega (arith, valid.within, valid.small))
        ∙ omega arith in
      (
        w,
        rw
            (
              current_size,
              ==-false to (v.back - v.front) ne,
              ==-false from 0 ne0,
              sub64-small (v.back - v.front) to inside (omega (arith, valid.within, valid.small)),
              ltb-false (v.back - v.front - to) from fewer,
              target,
              done,
              removal_size,
              add64-small v.front (to - from)
                  (omega (arith, valid.within, valid.small, valid.ordered)),
            )
            refl,
        shrunk w refl refl refl (size ∙ valid.sized),
        erased_at w (λ k. ground (
          arith,
          contents_at w k,
          contents_at v k,
          contents_at v (k - from + to),
          valid.ordered,
          at (v.front + (to - from) + k),
        )),
      )

  -- For a valid vector and a range that ends with it, or that no more elements precede than
  -- follow, `remove` ends with a valid vector that holds the elements outside the range.
  pub remove-refines : (to ≡ v.back - v.front) ⊎ (from ≤ v.back - v.front - to) → Removed
  remove-refines (inl last) = remove_last last
  remove-refines (inr fewer) = elim (Bool-cases (to == v.back - v.front)) [
    | inl hit ↦ remove_last (ground arith)
    | inr miss ↦ elim (Bool-cases (from == 0)) [
      | inl hit ↦ remove_first (ground arith) (ground arith)
      | inr other ↦ remove_up (ground arith) (ground arith) fewer
    ]
  ]

  -- The last bytes are there, where no whole element is moved.
  part_left :
      (bytes : ℕ)
      → 0 < layout.element_size
      → 0 < bytes
      → bytes / layout.element_size ≡ 0
      → (bytes % layout.element_size == 0) ≡ false
  part_left bytes wide some_bytes e = grind arith

  -- A move of bytes from behind the storage.
  move_bytes-outside :
      (k i bytes : ℕ)
      → 0 < bytes
      → length v.storage ≤ i
      → 0 < layout.element_size
      → move_bytes layout v.storage k i bytes ≡ undefined
  unfolding move_bytes copy_cells
  move_bytes-outside k i bytes some_bytes out wide =
      let q = bytes / layout.element_size in
      elim (Bool-cases (leb (i + q) (length v.storage))) [
        | inr beyond ↦ rw beyond
        | inl within ↦
            let none_whole : q ≡ 0 = ground arith in
            elim (Option-cases (copy_to v.storage k (slice i (i + q) v.storage))) [
              | inl failed ↦ rw (within, failed)
              | inr (ys, copied) ↦ rw (
                within,
                copied,
                part_left bytes wide some_bytes none_whole,
                get_elem?-outside v.storage (i + q) (omega arith),
              )
            ]
      ]

  -- `_back - (from - to)` lies behind the vector.
  wrapped : sub64 v.back (sub64 from to) ≡ v.back + (to - from)
  unfolding sub64
  wrapped = omega (arith, valid.within, valid.small)

  -- For a valid vector and a range in its middle that more elements precede than follow, `remove`
  -- reads behind the storage where the cells behind the vector are not more than the range is long
  -- less one.
  pub remove-overruns :
      from ≢ 0
      → to < v.back - v.front
      → v.back - v.front - to < from
      → v.max_size ≤ v.back + (to - from)
      → 0 < layout.element_size
      → remove layout v from to ≡ undefined
  unfolding remove
  remove-overruns ne0 before fewer out wide = rw (
    current_size,
    ==-false to (v.back - v.front) (λ e. omega arith),
    ==-false from 0 ne0,
    sub64-small (v.back - v.front) to inside (omega (arith, valid.within, valid.small)),
    ltb-true (v.back - v.front - to) from fewer,
    wrapped,
    move_bytes-outside (add64 v.front from) (v.back + (to - from)) (v.back - v.front - to)
        (omega arith) (omega (arith, valid.sized)) wide,
  )
